-- ===== src/Capture/Cutoff.antt =====
-- The idle cutoff of a broadcast and the deadline before it (internal/assets/recording_recovery.go).
use asset_api.Base.{
  ℕ, ◌+◌, ◌≤◌, String, ◌≡◌, sym, ◌∙◌, subst, List, some, arith, if-both, some_injective,
}
use asset_api.Errors.{Result}
use asset_api.Capture.Model.{
  Inventory, Recovery, Capture, declared, object_state_is, recovery_window,
}
use asset_api.Capture.Mutate.{Input}
use asset_api.Capture.Recovery.{confirmed_end, horizon, to_micros, min_time}
use asset_api.Capture.Run.{Step, run}
use asset_api.Capture.Run.Keeps.{Keeps, close_expired-kept, advance_recovery-kept}
use asset_api.Capture.Run.Kept.{run-kept}

module _ (end : ℕ) where
  abbrev HasCutoff : Capture → Type 0
  HasCutoff c = c.idle_end ≡ some end

  HasCutoff-Keeps : Keeps HasCutoff
  HasCutoff-Keeps = record {
    adds = λ d o f e. e;
    closes = λ d now e. close_expired-kept HasCutoff d now (λ t. absurd (ground (arith, t))) e;
    queues = λ d at i o g e. if-both HasCutoff (object_state_is o.state declared) _ _ e e;
    advances = λ d now e. advance_recovery-kept HasCutoff d now (λ x t a l. e) e;
    freezes = λ inv d e. e;
    aborts_it = λ now reason d e. e;
    cuts = λ d n l e. absurd (cc);
    starts = λ d now duration n a e. e;
    stops = λ d e. e;
  }

  -- A cutoff that is set is never moved or taken back, by late confirms or by anything else.
  pub cutoff_fixed :
      (digest_of : Input → String) (inventory_size : Inventory → Result ℕ) (ss : List (ℕ × Step))
      (c : Capture)
      → c.idle_end ≡ some end
      → (run digest_of inventory_size ss c).idle_end ≡ some end
  cutoff_fixed digest_of inventory_size ss c h =
      run-kept HasCutoff HasCutoff-Keeps (λ key digest op now d n e. e) digest_of inventory_size ss
        c h

-- The deadline is at most the window after the last common confirmation, and after the end of the
-- media that is confirmed, counted from the activation.
abbrev IsTimed : Recovery → Type 0
IsTimed r =
    (d t a : ℕ)
    → r.deadline ≡ some d
    → r.last_common_confirmed_at ≡ some t
    → r.activation_at ≡ some a
    → (d ≤ t + recovery_window) × (d ≤ horizon a r r.common_end + recovery_window)

unfoldable pub IsTimely : Capture → Type 0
IsTimely c = IsTimed c.recovery

min_time-le : (x y : ℕ) → (min_time x y ≤ x) × (min_time x y ≤ y)
min_time-le x y = ground arith

advanced_bounds :
    (c : Capture) (a now t2 a2 : ℕ) {d : ℕ}
    → c.recovery.activation_at ≡ some a
    → min_time (horizon a c.recovery (confirmed_end c)) (to_micros now) + recovery_window ≡ d
    → to_micros now ≡ t2
    → c.recovery.activation_at ≡ some a2
    → (d ≤ t2 + recovery_window) × (d ≤ horizon a2 c.recovery (confirmed_end c) + recovery_window)
advanced_bounds c a now t2 a2 {d = d} e p q r =
    let (l, m) = min_time-le (horizon a c.recovery (confirmed_end c)) (to_micros now) in
    subst
      (λ b.
        (d ≤ t2 + recovery_window) × (d ≤ horizon b c.recovery (confirmed_end c) + recovery_window))
      (some_injective (sym e ∙ r)) (omega (arith, m, p, q), omega (arith, l, p))

IsTimely-Keeps : Keeps IsTimely
unfolding IsTimely
IsTimely-Keeps = record {
  adds = λ d o f e. e;
  closes = λ d now e. close_expired-kept IsTimely d now (λ t. e) e;
  queues = λ d at i o g e. if-both IsTimely (object_state_is o.state declared) _ _ e e;
  advances = λ d now e.
      advance_recovery-kept IsTimely d now
        (λ x t a l d2 t2 a2 p q r.
          advanced_bounds d x now t2 a2 a (some_injective p) (some_injective q) r)
        e;
  freezes = λ inv d e. e;
  aborts_it = λ now reason d e. e;
  cuts = λ d n l e. e;
  starts = λ d now duration n a e d2 t2 a2 p q r.
      ground (arith, some_injective p, some_injective q, some_injective r);
  stops = λ d e. e;
}

-- The deadline of the recovery clock never leaves these bounds: it is at most five minutes after the
-- last confirmation that moved the common end, and at most five minutes after the activation plus the
-- play time of the segments that were confirmed since.
pub deadline_bounded :
    (digest_of : Input → String) (inventory_size : Inventory → Result ℕ) (ss : List (ℕ × Step))
    (c : Capture)
    → IsTimely c
    → IsTimely (run digest_of inventory_size ss c)
unfolding IsTimely
deadline_bounded digest_of inventory_size ss c h =
    run-kept IsTimely IsTimely-Keeps (λ key digest op now d n e. e) digest_of inventory_size ss c h
