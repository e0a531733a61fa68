-- ===== src/Capture/Sealing.antt =====
-- Seal takes a capture whose objects have all arrived (internal/assets/recording_capture.go).
use asset_api.Base.{
  ℕ, suc, String, Bool, ◌≡◌, sym, ◌∙◌, ap, List, [], ◌∷◌, some, none, arith, ◌⊎◌, inl, inr, lookup,
  length, get_elem?, All, str_eq, eq_iff, Option-cases, Bool-cases,
}
use asset_api.Errors.{
  Result, ok, ok_injective, guard, >>=-eq-ok, conflict, invalid_input, capture_missing_objects,
}
use asset_api.Capture.Model.{
  PackageObject, CaptureObject, Inventory, Capture, freezing, queued, verified,
}
use asset_api.Capture.Objects.{same_object}
use asset_api.Capture.Mutate.{Input, store_receipt}
use asset_api.Capture.Seal.{
  freeze, frozen, declared_object, check_inventory, has_preset, has_count, is_uploaded,
}
use asset_api.Capture.Run.{seals, apply, operation_of, input_of}
use asset_api.Capture.Run.Accepted.{callback, apply-mutation, mutate-cases}

-- The capture has the object, of this size and digest, and it has been uploaded.
abbrev pub Delivered : List CaptureObject → PackageObject → Type 0
Delivered objects o =
    (i : ℕ) × (old : CaptureObject) × (get_elem? objects i ≡ some old)
    × (old.path ≡ o.path)
    × (old.size_bytes ≡ o.size_bytes)
    × (old.sha256 ≡ o.sha256)
    × ((old.state ≡ queued) ⊎ (old.state ≡ verified))

declared_object-get_elem? :
    (objects : List CaptureObject) (path : String) {o : CaptureObject}
    → declared_object objects path ≡ some o
    → (i : ℕ) × (get_elem? objects i ≡ some o)
unfolding declared_object
declared_object-get_elem? [] path e = absurd (cc)
declared_object-get_elem? (p ∷ ps) path e = elim (Option-cases (declared_object ps path)) [
  | inr (q, f) ↦ (let (i, g) = declared_object-get_elem? ps path f in (suc i, g ∙ (rw f at e)))
  | inl n ↦ elim (Bool-cases (str_eq p.path path)) [
    | inl t ↦ (0, rw (n, t) at e)
    | inr t ↦ absurd (ground (arith, n, t))
  ]
]

delivers :
    (old : CaptureObject) (o : PackageObject)
    → guard (same_object old.object o) conflict ≡ ok tt
    → guard (is_uploaded old.state) capture_missing_objects ≡ ok tt
    → (old.path ≡ o.path)
      × (old.size_bytes ≡ o.size_bytes)
      × (old.sha256 ≡ o.sha256)
      × ((old.state ≡ queued) ⊎ (old.state ≡ verified))
delivers old o a b = ground (arith, eq_iff old.path o.path, eq_iff old.sha256 o.sha256)

check_inventory-Delivered :
    (objects : List CaptureObject) (os : List PackageObject)
    → check_inventory objects os ≡ ok tt
    → All (Delivered objects) os
unfolding check_inventory
check_inventory-Delivered objects [] h = tt
check_inventory-Delivered objects (o ∷ os) h =
    elim (Option-cases (declared_object objects o.path)) [
      | inl n ↦ absurd (ground (arith, n))
      | inr (old, e) ↦
          let (u, a, h1) =
            >>=-eq-ok (guard (same_object old.object o) conflict) _
              (rw (e, check_inventory) at h) in
          let (v, b, h2) = >>=-eq-ok (guard (is_uploaded old.state) capture_missing_objects) _ h1 in
          let (i, g) = declared_object-get_elem? objects o.path e in
          let (p, q, w, z) = delivers old o a b in
          ((i, old, g, p, q, w, z), check_inventory-Delivered objects os h2)
    ]

freeze-frozen :
    (inv : Inventory) (c d : Capture)
    → freeze inv c ≡ ok d
    → (d ≡ frozen inv c)
      × (length inv.objects ≡ length c.objects)
      × All (Delivered c.objects) inv.objects
unfolding freeze
freeze-frozen inv c d h =
    let (u, a, h1) = >>=-eq-ok (guard (has_preset inv c) invalid_input) _ h in
    let (v, b, h2) = >>=-eq-ok (guard (has_count inv c) capture_missing_objects) _ h1 in
    let (w, e, h3) = >>=-eq-ok (check_inventory c.objects inv.objects) _ h2 in
    (sym (ok_injective h3), ground arith, check_inventory-Delivered c.objects inv.objects e)

-- An accepted seal under a new key freezes the capture with the inventory as its own and its own id as
-- the package's. The inventory then names as many objects as the capture has, each of them is an object
-- of the capture with the same path, size and digest, and each has been uploaded.
pub seal_complete :
    (digest_of : Input → String) (inventory_size : Inventory → Result ℕ) (now : ℕ)
    (actor key : String) (normal_end : Bool) (inv : Inventory) (c c' : Capture)
    → apply digest_of inventory_size now (seals actor key normal_end inv) c ≡ ok c'
    → lookup key c.receipts ≡ none
    → (c'.state ≡ freezing)
      × (c'.inventory ≡ some inv)
      × (c'.package_id ≡ some c.id)
      × (length inv.objects ≡ length c.objects)
      × All (Delivered c.objects) inv.objects
seal_complete digest_of inventory_size now actor key normal_end inv c c' h n =
    let r = seals actor key normal_end inv in
    elim (mutate-cases now actor key (operation_of r) (digest_of (input_of r)) (callback now r) c c'
      (rw (apply-mutation digest_of inventory_size now now r c c h) at h)) [
        | inl (old, e, m, same) ↦ absurd (cc)
        | inr (d, e, a, f, same) ↦
            let (g, x, i) = freeze-frozen inv c d f in
            let p : c'
                ≡ store_receipt key (digest_of (input_of r)) (operation_of r) now (frozen inv c) =
              same ∙ ap (store_receipt key (digest_of (input_of r)) (operation_of r) now) g in
            (
              ap (λ (y : Capture). y.state) p,
              ap (λ (y : Capture). y.inventory) p,
              ap (λ (y : Capture). y.package_id) p,
              x,
              i,
            )
      ]
