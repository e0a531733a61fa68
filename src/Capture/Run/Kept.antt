-- ===== src/Capture/Run/Kept.antt =====
-- A predicate on captures that every write of the service keeps is kept by every request.
use asset_api.Base.{
  ℕ, String, ◌≡◌, refl, sym, subst, inl, inr, Option, none, arith, Bool-cases, Option-cases, List,
  [], ◌∷◌, get_elem?, lookup,
}
use asset_api.Errors.{
  Result, ok, conflict, invalid_input, capture_missing_objects, guard, >>=-eq-ok, Result-cases,
  ok_injective,
}
use asset_api.Capture.Model.{PackageObject, CaptureObject, Inventory, Operation, Capture}
use asset_api.Capture.Objects.{capture_paths, existing, sort_objects}
use asset_api.Capture.Recovery.{close_expired, advance_recovery}
use asset_api.Capture.Mutate.{Input, store_receipt}
use asset_api.Capture.Declare.{declare_loop, is_full, add_object}
use asset_api.Capture.Confirm.{
  Snapshot, accept_confirm, objects_at, check_sizes, queue_object, queue_objects, same_broadcast,
  check_declarations,
}
use asset_api.Capture.Seal.{freeze, check_inventory, has_preset, has_count}
use asset_api.Capture.Run.{
  Request, declares, confirms, seals, aborts, key_of, actor_of, operation_of, input_of, apply, run,
  Step, requests, signals, arms, step,
}
use asset_api.Capture.Run.Accepted.{callback, apply-mutation, mutate-cases}
use asset_api.Capture.Run.Keeps.{Keeps}
use asset_api.Capture.Run.Signals.{signal-kept, arm_recovery-kept}

-- What the acceptance of a confirm shows.
pub record Accepts (now : ℕ) (paths : List String) (c d : Capture) : Type 0 where
  pub indices : List ℕ
  pub objects : List CaptureObject
  pub sizes : String → ℕ
  pub queued : Capture
  pub found : capture_paths c paths ≡ ok indices
  pub at_indices : objects_at c.objects indices ≡ ok objects
  pub in_storage : check_sizes sizes objects ≡ ok tt
  pub queues : queue_objects now indices (close_expired c now) ≡ ok queued
  pub advances : d ≡ advance_recovery queued now

pub accept_confirm-Accepts :
    (now : ℕ) (paths : List String) (s : Snapshot) (listing : Result (String → ℕ)) (c d : Capture)
    → accept_confirm now paths s listing c ≡ ok d
    → Accepts now paths c d
unfolding accept_confirm
accept_confirm-Accepts now paths s listing c d h =
    let (u, a, h1) = >>=-eq-ok (guard (same_broadcast c s) conflict) _ h in
    let (is, b, h2) = >>=-eq-ok (capture_paths c paths) _ h1 in
    let (os, e, h3) = >>=-eq-ok (objects_at c.objects is) _ h2 in
    let (v, f, h4) = >>=-eq-ok (check_declarations os s.declarations) _ h3 in
    let (sizes, g, h5) = >>=-eq-ok listing _ h4 in
    let (w, i, h6) = >>=-eq-ok (check_sizes sizes os) _ h5 in
    let (q, j, h7) = >>=-eq-ok (queue_objects now is (close_expired c now)) _ h6 in
    record {
      indices = is;
      objects = os;
      sizes = sizes;
      queued = q;
      found = b;
      at_indices = e;
      in_storage = i;
      queues = j;
      advances = sym (ok_injective h7);
    }

-- Storing a receipt under a new key keeps the predicate.
abbrev pub KeepsReceipts : (Capture → Type 0) → Type 0
KeepsReceipts P =
    (key digest : String) (op : Operation) (now : ℕ) (c : Capture)
    → lookup key c.receipts ≡ none
    → P c
    → P (store_receipt key digest op now c)

module _ (P : Capture → Type 0) (k : Keeps P) where
  pub declare_loop-kept :
      (known : String → Option PackageObject) (os : List PackageObject) (c d : Capture)
      → declare_loop known os c ≡ ok d
      → P c
      → P d
  unfolding declare_loop
  declare_loop-kept known [] c d h p = subst P (ok_injective h) p
  declare_loop-kept known (o ∷ os) c d h p = elim (Option-cases (known o.path)) [
    | inl n ↦ elim (Bool-cases (is_full c o)) [
      | inl t ↦ absurd (ground (arith, t, n))
      | inr f ↦
          declare_loop-kept known os (add_object c o) d (ground (arith, f, n)) (k.adds c o f p)
    ]
    | inr (old, e) ↦ declare_loop-kept known os c d (ground (arith, e)) p
  ]

  pub queue_objects-kept :
      (at : ℕ) (is : List ℕ) (c d : Capture) → queue_objects at is c ≡ ok d → P c → P d
  unfolding queue_objects
  queue_objects-kept at [] c d h p = subst P (ok_injective h) p
  queue_objects-kept at (i ∷ is) c d h p = elim (Option-cases (get_elem? c.objects i)) [
    | inl n ↦ absurd (ground (arith, n))
    | inr (o, e) ↦
        queue_objects-kept at is (queue_object c at i o) d (ground (arith, e))
          (k.queues c at i o e p)
  ]

  accept_confirm-kept :
      (now : ℕ) (paths : List String) (s : Snapshot) (listing : Result (String → ℕ)) (c d : Capture)
      → accept_confirm now paths s listing c ≡ ok d
      → P c
      → P d
  accept_confirm-kept now paths s listing c d h p =
      let a = accept_confirm-Accepts now paths s listing c d h in
      subst P (sym a.advances) (
        k.advances a.queued now (
          queue_objects-kept now a.indices (close_expired c now) a.queued a.queues
            (k.closes c now p)))

  freeze-kept : (inv : Inventory) (c d : Capture) → freeze inv c ≡ ok d → P c → P d
  unfolding freeze
  freeze-kept inv c d h p =
      let (u, a, h1) = >>=-eq-ok (guard (has_preset inv c) invalid_input) _ h in
      let (v, b, h2) = >>=-eq-ok (guard (has_count inv c) capture_missing_objects) _ h1 in
      let (w, e, h3) = >>=-eq-ok (check_inventory c.objects inv.objects) _ h2 in
      subst P (ok_injective h3) (k.freezes inv c p)

  pub callback-kept : (now : ℕ) (r : Request) (c d : Capture) → callback now r c ≡ ok d → P c → P d
  callback-kept now (declares actor key objects) c d h p =
      declare_loop-kept (existing c.objects) (sort_objects objects) c d h p
  callback-kept now (confirms actor key paths snapshot listing) c d h p =
      accept_confirm-kept now paths snapshot listing c d h p
  callback-kept now (seals actor key normal_end inv) c d h p = freeze-kept inv c d h p
  callback-kept now (aborts actor key reason) c d h p =
      subst P (ok_injective h) (k.aborts_it now reason c p)

same_receipts : (c : Capture) → Keeps (λ d. d.receipts ≡ c.receipts)
unfolding close_expired advance_recovery
same_receipts c = record {
  adds = λ d o f e. e;
  closes = λ d now e. ground arith;
  queues = λ d at i o g e. ground arith;
  advances = λ d now e. ground arith;
  freezes = λ inv d e. e;
  aborts_it = λ now reason d e. e;
  cuts = λ d n l e. e;
  starts = λ d now duration n a e. e;
  stops = λ d e. e;
}

pub callback-receipts :
    (now : ℕ) (r : Request) (c d : Capture) → callback now r c ≡ ok d → d.receipts ≡ c.receipts
callback-receipts now r c d h =
    callback-kept (λ x. x.receipts ≡ c.receipts) (same_receipts c) now r c d h refl

module _ (P : Capture → Type 0) (k : Keeps P) (stores : KeepsReceipts P)
    (digest_of : Input → String) (inventory_size : Inventory → Result ℕ) where
  pub apply-kept :
      (now : ℕ) (r : Request) (c c' : Capture)
      → apply digest_of inventory_size now r c ≡ ok c'
      → P c
      → P c'
  apply-kept now r c c' h p =
      elim (mutate-cases now (actor_of r) (key_of r) (operation_of r) (digest_of (input_of r))
        (callback now r) c c' (rw (apply-mutation digest_of inventory_size now now r c c h) at h)) [
          | inl (old, e, m, same) ↦ subst P (sym same) p
          | inr (d, e, a, f, same) ↦ subst P (sym same) (
              stores _ _ _ now d (rw (callback-receipts now r c d f) e)
                (callback-kept P k now r c d f p))
        ]

  pub step-kept :
      (now : ℕ) (s : Step) (c c' : Capture)
      → step digest_of inventory_size now s c ≡ ok c'
      → P c
      → P c'
  unfolding step
  step-kept now (requests r) c c' h p = apply-kept now r c c' h p
  step-kept now (signals actor allow_close) c c' h p =
      signal-kept P k now actor allow_close c c' h p
  step-kept now (arms policy rate) c c' h p = arm_recovery-kept P k c c' policy rate now h p

  pub run-kept : (ss : List (ℕ × Step)) (c : Capture) → P c → P (run digest_of inventory_size ss c)
  unfolding run
  run-kept [] c p = p
  run-kept ((now, s) ∷ ss) c p =
      run-kept ss _ (elim (Result-cases (step digest_of inventory_size now s c)) [
        | inl (d, e) ↦ rw e (step-kept now s c d e p)
        | inr (x, e) ↦ rw e p
      ])
