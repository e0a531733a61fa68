-- ===== src/Capture/Receipts.antt =====
-- Operation keys make the mutations of a capture safe to repeat (`mutate` in
-- internal/assets/recording_capture.go).
use asset_api.Base.{
  ℕ, String, true, ◌≡◌, refl, sym, ◌∙◌, ap, subst, inl, inr, some, arith, List, lookup,
  lookup-insert, Bool-cases, eq_iff, eq_refl, some_injective, if-both,
}
use asset_api.Errors.{Result, ok}
use asset_api.Capture.Model.{
  Inventory, Operation, Capture, StoredReceipt, operation_is, object_state_is, declared,
}
use asset_api.Capture.Recovery.{to_micros}
use asset_api.Capture.Mutate.{Input, mutate, store_receipt, is_owner}
use asset_api.Capture.Run.{Request, key_of, actor_of, operation_of, input_of, apply, run, Step}
use asset_api.Capture.Run.Accepted.{callback, apply-mutation, mutate-cases, IsReceiptOf}
use asset_api.Capture.Run.Keeps.{Keeps, close_expired-kept, advance_recovery-kept}
use asset_api.Capture.Run.Kept.{KeepsReceipts, run-kept, callback-kept}

-- The capture belongs to the actor and has the operation's receipt under the key.
abbrev pub Answered : String → String → String → Operation → Capture → Type 0
Answered actor key digest op c =
    (is_owner c actor ≡ true)
    × (old : StoredReceipt) × (lookup key c.receipts ≡ some old)
    × IsReceiptOf digest op old

Answered-Keeps : (actor key digest : String) (op : Operation) → Keeps (Answered actor key digest op)
Answered-Keeps actor key digest op = record {
  adds = λ d o f e. e;
  closes = λ d now e. close_expired-kept (Answered actor key digest op) d now (λ t. e) e;
  queues = λ d at i o g e.
      if-both (Answered actor key digest op) (object_state_is o.state declared) _ _ e e;
  advances = λ d now e. advance_recovery-kept (Answered actor key digest op) d now (λ x t a l. e) e;
  freezes = λ inv d e. e;
  aborts_it = λ now reason d e. e;
  cuts = λ d n l e. e;
  starts = λ d now duration n a e. e;
  stops = λ d e. e;
}

Answered-KeepsReceipts :
    (actor key digest : String) (op : Operation) → KeepsReceipts (Answered actor key digest op)
Answered-KeepsReceipts actor key digest op k2 digest2 op2 now c n (o, old, e, m) =
    (o, old, rw (lookup-insert k2 key _ c.receipts) (ground (arith, n, old, eq_iff k2 key, e)), m)

operation_is_refl : (op : Operation) → operation_is op op ≡ true
operation_is_refl op = ground arith

found :
    (now : ℕ) (key digest : String) (op : Operation) (d : Capture)
    → lookup key (store_receipt key digest op now d).receipts
      ≡ some (record {
        digest = digest;
        receipt = record {
          operation_key = key;
          operation = op;
          accepted_at = to_micros now;
          capture_id = d.id;
        };
      })
found now key digest op d = rw (lookup-insert key key _ d.receipts, eq_refl key) refl

stored-Answered :
    (now : ℕ) (actor key digest : String) (op : Operation) (d : Capture)
    → is_owner d actor ≡ true
    → Answered actor key digest op (store_receipt key digest op now d)
stored-Answered now actor key digest op d o =
    (o, _, found now key digest op d, (refl, operation_is_refl op))

pub Answered-mutate :
    (now : ℕ) (actor key digest : String) (op : Operation) (fn : Capture → Result Capture)
    (c : Capture)
    → Answered actor key digest op c
    → mutate now actor key op digest fn c ≡ ok c
unfolding mutate
Answered-mutate now actor key digest op fn c (o, old, e, (m, n)) =
    ground (arith, o, e, m, n, eq_iff old.digest digest)

mutate-owner :
    (now : ℕ) (actor key digest : String) (op : Operation) (fn : Capture → Result Capture)
    (c c' : Capture)
    → mutate now actor key op digest fn c ≡ ok c'
    → is_owner c actor ≡ true
unfolding mutate
mutate-owner now actor key digest op fn c c' h = elim (Bool-cases (is_owner c actor)) [
  | inl o ↦ o
  | inr f ↦ absurd (ground (arith, f))
]

Owned-Keeps : (actor : String) → Keeps (λ c. is_owner c actor ≡ true)
Owned-Keeps actor = record {
  adds = λ d o f e. e;
  closes = λ d now e. close_expired-kept (λ c. is_owner c actor ≡ true) d now (λ t. e) e;
  queues = λ d at i o g e.
      if-both (λ c. is_owner c actor ≡ true) (object_state_is o.state declared) _ _ e e;
  advances = λ d now e. advance_recovery-kept (λ c. is_owner c actor ≡ true) d now (λ x t a l. e) e;
  freezes = λ inv d e. e;
  aborts_it = λ now reason d e. e;
  cuts = λ d n l e. e;
  starts = λ d now duration n a e. e;
  stops = λ d e. e;
}

operation_is-eq : (a b : Operation) → operation_is a b ≡ true → a ≡ b
operation_is-eq a b h = ground arith

module _ (digest_of : Input → String) (inventory_size : Inventory → Result ℕ) where
  abbrev request_digest : Request → String
  request_digest r = digest_of (input_of r)

  applied-Answered :
      (now : ℕ) (r : Request) (c c' : Capture)
      → apply digest_of inventory_size now r c ≡ ok c'
      → Answered (actor_of r) (key_of r) (request_digest r) (operation_of r) c'
  applied-Answered now r c c' h =
      let m = rw (apply-mutation digest_of inventory_size now now r c c h) at h in
      let o =
        mutate-owner now (actor_of r) (key_of r) (request_digest r) (operation_of r)
          (callback now r) c c' m in
      elim (mutate-cases now (actor_of r) (key_of r) (operation_of r) (request_digest r)
        (callback now r) c c' m) [
          | inl (old, e, i, same) ↦ subst (Answered _ _ _ _) (sym same) (o, old, e, i)
          | inr (d, e, a, f, same) ↦ subst (Answered _ _ _ _) (sym same) (
              stored-Answered now _ _ _ _ d (
                callback-kept (λ x. is_owner x (actor_of r) ≡ true) (Owned-Keeps (actor_of r)) now r
                  c d f o))
        ]

  pub run-Answered :
      (now : ℕ) (r : Request) (c c' : Capture) (rs : List (ℕ × Step))
      → apply digest_of inventory_size now r c ≡ ok c'
      → Answered
          (actor_of r)
          (key_of r)
          (digest_of (input_of r))
          (operation_of r)
          (run digest_of inventory_size rs c')
  run-Answered now r c c' rs h =
      run-kept (Answered _ _ _ _) (Answered-Keeps _ _ _ _) (Answered-KeepsReceipts _ _ _ _)
        digest_of inventory_size rs c' (applied-Answered now r c c' h)

  -- A mutation that was accepted is accepted again, at any time and after any other steps, whatever
  -- state they left the capture in, and the repetition changes nothing.
  pub accepted_repeats :
      (now : ℕ) (r : Request) (c c' : Capture) (rs : List (ℕ × Step)) (later : ℕ)
      → apply digest_of inventory_size now r c ≡ ok c'
      → apply digest_of inventory_size later r (run digest_of inventory_size rs c')
        ≡ ok (run digest_of inventory_size rs c')
  accepted_repeats now r c c' rs later h =
      apply-mutation digest_of inventory_size now later r c _ h
      ∙ Answered-mutate later _ _ _ _ _ _ (run-Answered now r c c' rs h)

  -- The key of an accepted mutation is bound to it: after any other steps, a mutation under the same
  -- key is accepted only if it is the same operation on an input of the same digest, and then it changes
  -- nothing.
  pub key_bound :
      (now : ℕ) (r : Request) (c c' : Capture) (rs : List (ℕ × Step)) (later : ℕ) (other : Request)
      (d : Capture)
      → apply digest_of inventory_size now r c ≡ ok c'
      → key_of other ≡ key_of r
      → apply digest_of inventory_size later other (run digest_of inventory_size rs c') ≡ ok d
      → (d ≡ run digest_of inventory_size rs c')
        × (operation_of other ≡ operation_of r)
        × (digest_of (input_of other) ≡ digest_of (input_of r))
  key_bound now r c c' rs later other d h k g =
      let x : Capture = run digest_of inventory_size rs c' in
      let (o, old, e, (i, j)) = run-Answered now r c c' rs h in
      let found : lookup (key_of other) x.receipts ≡ some old =
        subst (λ key. lookup key x.receipts ≡ some old) (sym k) e in
      elim (mutate-cases later (actor_of other) (key_of other) (operation_of other)
        (request_digest other) (callback later other) x d
        (rw (apply-mutation digest_of inventory_size later later other x x g) at g)) [
          | inl (old2, e2, (i2, j2), same) ↦
              let eq : old2 ≡ old = some_injective (sym e2 ∙ found) in
              (
                same,
                sym (operation_is-eq _ _ j2)
                    ∙ ap (λ (s : StoredReceipt). s.receipt.operation) eq
                    ∙ operation_is-eq _ _ j,
                sym i2 ∙ ap (λ (s : StoredReceipt). s.digest) eq ∙ i,
              )
          | inr (y, n, a, f, same) ↦ absurd (cc)
        ]
