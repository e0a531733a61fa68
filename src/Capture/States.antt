-- ===== src/Capture/States.antt =====
-- Which states of a capture its mutations leave alone (`mutate` in
-- internal/assets/recording_capture.go).
use asset_api.Base.{
  ℕ, ◌<◌, String, true, ◌≡◌, sym, ◌∙◌, ap, none, arith, ◌⊎◌, inl, inr, lookup, length,
}
use asset_api.Errors.{Result, ok, ok_injective}
use asset_api.Capture.Model
use asset_api.Capture.Model.{
  Operation, Inventory, Capture, CaptureState, uploading, freezing, validating, aborted, state_is,
  operation_is,
}
use asset_api.Capture.Mutate.{Input, admitted, admits, receipt_limit}
use asset_api.Capture.Run.{
  Request, declares, confirms, seals, aborts, operation_of, actor_of, key_of, input_of, apply,
}
use asset_api.Capture.Run.Accepted.{callback, apply-mutation, mutate-cases}

admitted-open :
    (now : ℕ) (op : Operation) (c : Capture)
    → admitted now op c ≡ ok tt
    → (admits c.state op ≡ true) × (now < c.expires_at) × (length c.receipts < receipt_limit op)
unfolding admitted
admitted-open now op c h = ground arith

-- The capture is past its upload: frozen or being validated.
abbrev pub IsSealed : CaptureState → Type 0
IsSealed s = (s ≡ freezing) ⊎ (s ≡ validating)

admits-cases :
    (s : CaptureState) (op : Operation)
    → admits s op ≡ true
    → (s ≡ uploading) ⊎ (IsSealed s × (op ≡ Model.abort))
admits-cases s op h = ground arith

aborting-only :
    (now : ℕ) (r : Request) (c d : Capture)
    → callback now r c ≡ ok d
    → operation_of r ≡ Model.abort
    → d.state ≡ aborted
aborting-only now (declares actor key objects) c d h e = absurd (cc)
aborting-only now (confirms actor key paths s listing) c d h e = absurd (cc)
aborting-only now (seals actor key normal_end inv) c d h e = absurd (cc)
aborting-only now (aborts actor key reason) c d h e =
    ap (λ (x : Capture). x.state) (sym (ok_injective h))

module _ (digest_of : Input → String) (inventory_size : Inventory → Result ℕ) where
  -- An accepted mutation that changes the capture comes before the capture expires and under a new key,
  -- and it finds the capture uploading, or finds it frozen or validating and is an abort, which leaves
  -- the capture aborted. So a mutation never changes a ready, aborted, failed or expired capture.
  pub changes_only_open :
      (now : ℕ) (r : Request) (c c' : Capture)
      → apply digest_of inventory_size now r c ≡ ok c'
      → (c' ≡ c)
        ⊎ ((lookup (key_of r) c.receipts ≡ none)
            × (now < c.expires_at)
            × ((c.state ≡ uploading)
                ⊎ (IsSealed c.state × (operation_of r ≡ Model.abort) × (c'.state ≡ aborted))))
  changes_only_open now r c c' h =
      elim (mutate-cases now (actor_of r) (key_of r) (operation_of r) (digest_of (input_of r))
        (callback now r) c c' (rw (apply-mutation digest_of inventory_size now now r c c h) at h)) [
          | inl (old, e, m, same) ↦ inl same
          | inr (d, e, a, f, same) ↦
              let (allowed, early, room) = admitted-open now (operation_of r) c a in
              inr (
                e,
                early,
                elim (admits-cases c.state (operation_of r) allowed) [
                  | inl u ↦ inl u
                  | inr (sealed, op) ↦ inr (
                    sealed,
                    op,
                    ap (λ (x : Capture). x.state) same ∙ aborting-only now r c d f op,
                  )
                ],
              )
        ]
