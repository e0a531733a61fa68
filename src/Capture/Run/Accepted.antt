-- ===== src/Capture/Run/Accepted.antt =====
-- What an accepted mutation of a capture is: a replay of its receipt, or its callback under the
-- checks of `mutate`.
use asset_api.Base.{
  ℕ, String, true, ◌≡◌, ◌⊎◌, inl, inr, some, none, arith, lookup, Bool-cases, Option-cases, eq_iff,
}
use asset_api.Errors.{Result, ok, ◌>>=◌, ◌>>◌, >>=-eq-ok, Result-cases}
use asset_api.Capture.Model.{Inventory, Operation, Capture, StoredReceipt, operation_is}
use asset_api.Capture.Objects.{existing, sort_objects}
use asset_api.Capture.Mutate.{Input, mutate, admitted, store_receipt, is_owner, replayed}
use asset_api.Capture.Declare.{declare, declare_loop}
use asset_api.Capture.Confirm.{accept_confirm, confirm_commit}
use asset_api.Capture.Seal.{seal, abort, freeze, aborting}
use asset_api.Capture.Run.{
  Request, declares, confirms, seals, aborts, key_of, actor_of, operation_of, input_of, apply,
}

-- The callback of each request.
abbrev pub callback : ℕ → Request → Capture → Result Capture
callback now (declares actor key objects) c =
    declare_loop (existing c.objects) (sort_objects objects) c
callback now (confirms actor key paths snapshot listing) c =
    accept_confirm now paths snapshot listing c
callback now (seals actor key normal_end inv) c = freeze inv c
callback now (aborts actor key reason) c = ok (aborting now reason c)

module _ (digest_of : Input → String) (inventory_size : Inventory → Result ℕ) where
  abbrev pub mutation : ℕ → Request → Capture → Result Capture
  mutation now r c =
      mutate now (actor_of r) (key_of r) (operation_of r) (digest_of (input_of r)) (callback now r)
        c

  -- The checks before `mutate` depend on the request alone.
  pub apply-mutation :
      (now later : ℕ) (r : Request) (c d : Capture) {c' : Capture}
      → apply digest_of inventory_size now r c ≡ ok c'
      → apply digest_of inventory_size later r d ≡ mutation later r d
  unfolding apply declare confirm_commit seal abort input_of
  apply-mutation now later (declares actor key objects) c d h = ground arith
  apply-mutation now later (confirms actor key paths snapshot listing) c d h = ground arith
  apply-mutation now later (seals actor key normal_end inv) c d h =
      elim (Result-cases (inventory_size inv)) [
        | inl (n, e) ↦ ground arith
        | inr (x, e) ↦ ground arith
      ]
  apply-mutation now later (aborts actor key reason) c d h = ground arith

-- The receipt is one of the operation with this digest.
abbrev pub IsReceiptOf : String → Operation → StoredReceipt → Type 0
IsReceiptOf digest op old = (old.digest ≡ digest) × (operation_is (old.receipt.operation) op ≡ true)

module _ (now : ℕ) (actor key : String) (op : Operation) (digest : String)
    (fn : Capture → Result Capture) where
  replayed-ok :
      (old : StoredReceipt) (c c' : Capture)
      → replayed old digest op c ≡ ok c'
      → IsReceiptOf digest op old × (c' ≡ c)
  replayed-ok old c c' h = ground (arith, eq_iff old.digest digest)

  -- An accepted mutation either finds its receipt and changes nothing, or runs its callback and
  -- stores it.
  abbrev pub Outcome : Capture → Capture → Type 0
  Outcome c c' =
      ((old : StoredReceipt) × (lookup key c.receipts ≡ some old)
        × IsReceiptOf digest op old
        × (c' ≡ c))
      ⊎ ((d : Capture) × (lookup key c.receipts ≡ none)
          × (admitted now op c ≡ ok tt)
          × (fn c ≡ ok d)
          × (c' ≡ store_receipt key digest op now d))

  ran :
      (c c' : Capture)
      → lookup key c.receipts ≡ none
      → (do admitted now op c; d ← fn c; ok (store_receipt key digest op now d)) ≡ ok c'
      → (d : Capture) × (lookup key c.receipts ≡ none)
        × (admitted now op c ≡ ok tt)
        × (fn c ≡ ok d)
        × (c' ≡ store_receipt key digest op now d)
  ran c c' e h =
      let (u, a, k) = >>=-eq-ok (admitted now op c) _ h in
      let (d, f, r) = >>=-eq-ok (fn c) _ k in (d, e, a, f, cc)

  pub mutate-cases : (c c' : Capture) → mutate now actor key op digest fn c ≡ ok c' → Outcome c c'
  unfolding mutate
  mutate-cases c c' h = elim (Bool-cases (is_owner c actor)) [
    | inr f ↦ absurd (ground (arith, f))
    | inl o ↦ elim (Option-cases (lookup key c.receipts)) [
      | inl e ↦ inr (ran c c' e (rw (o, e) at h))
      | inr (old, e) ↦
          (let (m, same) = replayed-ok old c c' (rw (o, e) at h) in inl (old, e, m, same))
    ]
  ]
