-- ===== src/Capture/Run/Signals.antt =====
-- Broadcast signals and the start of the recovery clock keep what every write of the service keeps.
use asset_api.Base.{
  ℕ, String, Bool, ◌≡◌, subst, inl, inr, Option, some, none, arith, Bool-cases, leb, ltb, ltb_ℤ, ℤ,
  pos, if-both, if-cases, ◌+◌, ◌*◌, is_some, not, str_eq, ◌||◌, second,
}
use asset_api.Errors.{Result, ok, err, conflict, guard, >>=-eq-ok, ok_injective, forbidden}
use asset_api.Capture.Model.{Capture, uploading, recovery_version, state_is}
use asset_api.Capture.Recovery.{
  confirmed_end, Rate, arm_recovery, arm_from, rate_duration, is_barred,
}
use asset_api.Broadcast.Range.{BroadcastRange}
use asset_api.Capture.Signal.{
  BroadcastSignal, broadcast_signal, signal_clock, signal_media, due_signal, media_signal, expected,
  may_close, cut_at,
}
use asset_api.Capture.Mutate.{is_owner}
use asset_api.Capture.Run.{capture_after}
use asset_api.Capture.Run.Keeps.{Keeps}

capture_after-ok :
    (m : Result (BroadcastSignal × Capture)) (c' : Capture)
    → capture_after m ≡ ok c'
    → (s : BroadcastSignal) × (m ≡ ok (s, c'))
capture_after-ok (ok (s, c)) c' h = (s, cc)
capture_after-ok (err e) c' h = absurd (cc)

module _ (P : Capture → Type 0) (k : Keeps P) where
  cut_at-kept : (c : Capture) (deadline : ℕ) → c.idle_end ≡ none → P c → P (cut_at c deadline).1
  cut_at-kept c deadline n p =
      if-cases (λ (r : BroadcastSignal × Capture). P r.1) (ltb 0 (confirmed_end c)) _ _
        (λ t. k.cuts c n (ground (arith, t)) p) (λ f. p)

  due_signal-kept :
      (now : ℕ) (allow_close : Bool) (c : Capture) (due : ℕ)
      → c.idle_end ≡ none
      → P c
      → P (due_signal now allow_close c due).1
  due_signal-kept now allow_close c due n p =
      let Q = λ (r : BroadcastSignal × Capture). P r.1 in
      if-both Q (ltb now (due + 10 * second)) _ _ p (
        if-both Q (ltb now (due + 60 * second) || not allow_close) _ _ p
          (cut_at-kept c (due + 60 * second) n p))

  media_signal-kept :
      (now : ℕ) (allow_close : Bool) (c : Capture) (o : Option ℕ)
      → c.idle_end ≡ none
      → P c
      → P (media_signal now allow_close c o).1
  media_signal-kept now allow_close c none n p = p
  media_signal-kept now allow_close c (some last) n p =
      if-both (λ (r : BroadcastSignal × Capture). P r.1)
        (not (state_is c.state uploading) || is_some c.terminal_at) _ _ p
        (due_signal-kept now allow_close c (expected c last) n p)

  signal_media-kept :
      (now : ℕ) (allow_close : Bool) (c : Capture) → P c → P (signal_media now allow_close c).1
  unfolding signal_media
  signal_media-kept now allow_close c p =
      if-cases (λ (r : BroadcastSignal × Capture). P r.1) (is_some c.idle_end) _ _ (λ t. p)
        (λ f. media_signal-kept now allow_close c c.last_media_confirmed_at (ground (arith, f)) p)

  signal_clock-kept :
      (now : ℕ) (allow_close : Bool) (c : Capture) → P c → P (signal_clock now allow_close c).1
  unfolding signal_clock
  signal_clock-kept now allow_close c p =
      if-both P (may_close c allow_close) _ _ (k.closes c now p) p

  pub signal-kept :
      (now : ℕ) (actor : String) (allow_close : Bool) (c c' : Capture)
      → capture_after (broadcast_signal now actor allow_close c) ≡ ok c'
      → P c
      → P c'
  unfolding broadcast_signal
  signal-kept now actor allow_close c c' h p =
      let (s, e) = capture_after-ok (broadcast_signal now actor allow_close c) c' h in
      let (u, a, h1) = >>=-eq-ok (guard (is_owner c actor) forbidden) _ e in
      let (v, b, h2) = >>=-eq-ok (guard (leb 1 c.broadcast_epoch) conflict) _ h1 in
      subst (λ (r : BroadcastSignal × Capture). P r.1) (ok_injective h2)
        (if-both (λ (r : BroadcastSignal × Capture). P r.1)
          (str_eq c.recovery.version recovery_version) _ _ (signal_clock-kept now allow_close c p)
          (signal_media-kept now allow_close c p))

  arm_from-kept :
      (now : ℕ) (c c' : Capture) (d : Option ℕ) (start : Option ℤ)
      → arm_from c now (confirmed_end c) d start ≡ ok c'
      → c.idle_end ≡ none
      → c.recovery.activation_at ≡ none
      → P c
      → P c'
  arm_from-kept now c c' d none h n a p = subst P (ok_injective h) p
  arm_from-kept now c c' none (some start) h n a p = absurd (cc)
  arm_from-kept now c c' (some d) (some start) h n a p =
      elim (Bool-cases (ltb_ℤ start (pos (confirmed_end c)))) [
        | inl t ↦ subst P (ok_injective (rw t at h)) (k.starts c now d n a p)
        | inr t ↦ absurd (ground (arith, t))
      ]

  pub arm_recovery-kept :
      (c c' : Capture) (policy : BroadcastRange) (rate : Rate) (now : ℕ)
      → arm_recovery c policy rate now ≡ ok c'
      → P c
      → P c'
  unfolding arm_recovery
  arm_recovery-kept c c' policy rate now h p =
      let Q = λ (r : Result Capture). r ≡ ok c' → P c' in
      if-both Q (not (str_eq c.recovery.version recovery_version)) _ _
        (λ e. subst P (ok_injective e) p)
        (if-both Q (is_barred c policy) _ _ (λ e. subst P (ok_injective e) (k.stops c p))
          (if-cases Q (is_some c.idle_end || is_some c.recovery.activation_at) _ _
            (λ t e. subst P (ok_injective e) p)
            (λ f e.
              arm_from-kept now c c' (rate_duration c.segment_frames rate) policy.start_sequence e
                (ground (arith, f)) (ground (arith, f)) p)))
        h
