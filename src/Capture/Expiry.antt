-- ===== src/Capture/Expiry.antt =====
-- A confirm that comes after the recovery deadline closes the broadcast before it is taken in
-- (Confirm in internal/assets/recording_capture.go).
use asset_api.Base.{
  ℕ, String, true, false, ◌≡◌, refl, sym, subst, List, some, none, arith, inl, inr, if-both, lookup,
}
use asset_api.Errors.{Result, ok}
use asset_api.Capture.Model.{Inventory, Capture, declared, object_state_is}
use asset_api.Capture.Mutate.{Input}
use asset_api.Capture.Confirm.{Snapshot}
use asset_api.Capture.Recovery.{close_expired, is_overdue}
use asset_api.Capture.Run.{confirms, operation_of, input_of, apply, Step, run}
use asset_api.Capture.Run.Accepted.{callback, apply-mutation, mutate-cases}
use asset_api.Capture.Run.Keeps.{Keeps, close_expired-kept, advance_recovery-kept}
use asset_api.Capture.Run.Kept.{Accepts, accept_confirm-Accepts, queue_objects-kept, run-kept}

-- The range has ended at `end` and its clock has stopped there.
unfoldable pub HasEnded : ℕ → Capture → Type 0
HasEnded end c =
    (c.idle_end ≡ some end) × (c.recovery.active ≡ false) × (c.recovery.common_end ≡ end)

HasEnded-Keeps : (end : ℕ) → Keeps (HasEnded end)
unfolding HasEnded
HasEnded-Keeps end = record {
  adds = λ d o f h. h;
  closes =
      λ d now h. close_expired-kept (HasEnded end) d now (λ t. absurd (ground (arith, t, h))) h;
  queues = λ d at i o g h. if-both (HasEnded end) (object_state_is o.state declared) _ _ h h;
  advances = λ d now h.
      advance_recovery-kept (HasEnded end) d now (λ x t a l. absurd (ground (arith, t, h))) h;
  freezes = λ inv d h. h;
  aborts_it = λ now reason d h. h;
  cuts = λ d n l h. absurd (ground (arith, n, h));
  starts = λ d now duration n a h. absurd (ground (arith, n, h));
  stops = λ d h. (h.0, refl, h.2);
}

closes_now :
    (c : Capture) (now : ℕ)
    → is_overdue c now ≡ true
    → HasEnded c.recovery.common_end (close_expired c now)
unfolding HasEnded close_expired
closes_now c now t = rw t (refl, refl, refl)

accepted-HasEnded :
    (now : ℕ) (paths : List String) (c d : Capture)
    → Accepts now paths c d
    → is_overdue c now ≡ true
    → HasEnded c.recovery.common_end d
accepted-HasEnded now paths c d a t =
    let k = HasEnded-Keeps c.recovery.common_end in
    subst (HasEnded c.recovery.common_end) (sym a.advances) (
      k.advances a.queued now (
        queue_objects-kept (HasEnded c.recovery.common_end) k now a.indices (close_expired c now)
          a.queued a.queues (closes_now c now t)))

module _ (digest_of : Input → String) (inventory_size : Inventory → Result ℕ) where
  -- When a confirm under a new key is accepted at or after the deadline of a running clock whose common
  -- end is above 0, the broadcast ends at the common end from before the confirm. The segments that it
  -- brings, and any that come later, never move the cutoff or the common end.
  pub late_confirm_ends :
      (now : ℕ) (actor key : String) (paths : List String) (s : Snapshot)
      (listing : Result (String → ℕ)) (c c' : Capture) (ss : List (ℕ × Step))
      → apply digest_of inventory_size now (confirms actor key paths s listing) c ≡ ok c'
      → lookup key c.receipts ≡ none
      → is_overdue c now ≡ true
      → HasEnded c.recovery.common_end (run digest_of inventory_size ss c')
  late_confirm_ends now actor key paths s listing c c' ss h n t =
      let r = confirms actor key paths s listing in
      let P = HasEnded c.recovery.common_end in
      run-kept P (HasEnded-Keeps c.recovery.common_end) (unfold HasEnded in λ k g op at d m e. e)
        digest_of inventory_size ss c'
        (elim (mutate-cases now actor key (operation_of r) (digest_of (input_of r)) (callback now r)
          c c' (rw (apply-mutation digest_of inventory_size now now r c c h) at h)) [
            | inl (old, e, m, same) ↦ absurd (cc)
            | inr (d, e, a, f, same) ↦ subst P (sym same) (
                unfold HasEnded in
                accepted-HasEnded now paths c d (accept_confirm-Accepts now paths s listing c d f)
                  t)
          ])
