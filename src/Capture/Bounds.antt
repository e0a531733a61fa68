-- ===== src/Capture/Bounds.antt =====
-- The indices that Confirm takes from capturePaths are those of objects
-- (internal/assets/recording_capture.go).
use asset_api.Base.{
  ℕ, suc, ◌+◌, ◌<◌, String, Bool, ◌≡◌, ◌≢◌, refl, sym, ◌∙◌, subst, List, [], ◌∷◌, some, arith, inl,
  inr, length, get_elem?, get_elem?-lt, length-set, All, All-mono, Option-cases, Bool-cases,
  if-both,
}
use asset_api.Errors.{
  Result, ok, err, ok_injective, guard, avoids->>=, conflict, panicked, Result-cases,
}
use asset_api.Capture.Model.{CaptureObject, Capture, declared, queued, object_state_is}
use asset_api.Capture.Objects.{capture_paths, paths_loop, index_of, contains}
use asset_api.Capture.Recovery.{close_expired}
use asset_api.Capture.Lengths.{
  capture_paths-length, objects_at-length, snapshot_of-length, check_declarations-error,
}
use asset_api.Capture.Confirm.{
  Snapshot, accept_confirm, objects_at, check_sizes, queue_object, queue_objects, same_broadcast,
  check_declarations, snapshot_of,
}

abbrev Within : List CaptureObject → List ℕ → Type 0
Within objects is = All (λ i. i < length objects) is

index_of-lt :
    (i : ℕ) (objects : List CaptureObject) (path : String) {j : ℕ}
    → index_of i objects path ≡ some j
    → j < i + length objects
unfolding index_of
index_of-lt i [] path e = absurd (cc)
index_of-lt i (o ∷ os) path {j = j} e = elim (Option-cases (index_of (suc i) os path)) [
  | inr (k, f) ↦ omega (arith, index_of-lt (suc i) os path (f ∙ (rw f at e)))
  | inl n ↦ ground (arith, n)
]

paths_loop-Within :
    (objects : List CaptureObject) (seen ps : List String) (is : List ℕ)
    → paths_loop objects seen ps ≡ ok is
    → Within objects is
unfolding paths_loop
paths_loop-Within objects seen [] is h = subst (Within objects) (ok_injective h) tt
paths_loop-Within objects seen (p ∷ ps) is h = elim (Option-cases (index_of 0 objects p)) [
  | inl n ↦ absurd (ground (arith, n))
  | inr (i, e) ↦ elim (Bool-cases (contains seen p)) [
    | inl t ↦ absurd (ground (arith, e, t))
    | inr f ↦ elim (Result-cases (paths_loop objects (p ∷ seen) ps)) [
      | inr (x, g) ↦ absurd (ground (arith, e, f, g))
      | inl (js, g) ↦
          subst (Within objects) (ok_injective (rw (e, f, g, paths_loop) at h))
            (omega (arith, index_of-lt 0 objects p e), paths_loop-Within objects (p ∷ seen) ps js g)
    ]
  ]
]

capture_paths-Within :
    (c : Capture) (paths : List String) (is : List ℕ)
    → capture_paths c paths ≡ ok is
    → Within c.objects is
unfolding capture_paths
capture_paths-Within c paths is h = paths_loop-Within c.objects [] paths is (ground arith)

objects_at-cons :
    (objects : List CaptureObject) (i : ℕ) (is : List ℕ) (o : CaptureObject)
    (os : List CaptureObject)
    → get_elem? objects i ≡ some o
    → objects_at objects is ≡ ok os
    → objects_at objects (i ∷ is) ≡ ok (o ∷ os)
unfolding objects_at
objects_at-cons objects i is o os e f = ground (arith, e, f)

objects_at-ok :
    (objects : List CaptureObject) (is : List ℕ)
    → Within objects is
    → (os : List CaptureObject) × (objects_at objects is ≡ ok os)
unfolding objects_at
objects_at-ok objects [] w = ([], refl)
objects_at-ok objects (i ∷ is) w =
    let (o, e) = get_elem?-lt objects i (omega (arith, w.0)) in
    let (os, f) = objects_at-ok objects is w.1 in (o ∷ os, objects_at-cons objects i is o os e f)

queue_objects-cons :
    (at i : ℕ) (is : List ℕ) (c d : Capture) (o : CaptureObject)
    → get_elem? c.objects i ≡ some o
    → queue_objects at is (queue_object c at i o) ≡ ok d
    → queue_objects at (i ∷ is) c ≡ ok d
unfolding queue_objects
queue_objects-cons at i is c d o e f = ground (arith, e, f)

length-queue_object :
    (c : Capture) (at i : ℕ) (o : CaptureObject)
    → length (queue_object c at i o).objects ≡ length c.objects
length-queue_object c at i o =
    if-both (λ (d : Capture). length d.objects ≡ length c.objects)
      (object_state_is o.state declared) _ _ (length-set c.objects i (record o { state = queued }))
      refl

queue_objects-ok :
    (at : ℕ) (is : List ℕ) (c : Capture)
    → Within c.objects is
    → (d : Capture) × (queue_objects at is c ≡ ok d)
unfolding queue_objects
queue_objects-ok at [] c w = (c, refl)
queue_objects-ok at (i ∷ is) c w =
    let (o, e) = get_elem?-lt c.objects i (omega (arith, w.0)) in
    let l = length-queue_object c at i o in
    let (d, f) =
      queue_objects-ok at is (queue_object c at i o)
        (All-mono (λ j. j < length c.objects) _ is (λ j b. omega (arith, b, l)) w.1) in
    (d, queue_objects-cons at i is c d o e f)

check_sizes-error :
    (sizes : String → ℕ) (os : List CaptureObject) → check_sizes sizes os ≢ err panicked
unfolding check_sizes
check_sizes-error sizes [] h = cc
check_sizes-error sizes (o ∷ os) h = ground (arith, check_sizes-error sizes os)

paths_loop-error :
    (objects : List CaptureObject) (seen ps : List String)
    → paths_loop objects seen ps ≢ err panicked
unfolding paths_loop
paths_loop-error objects seen [] h = cc
paths_loop-error objects seen (p ∷ ps) h = ground (arith, paths_loop-error objects (p ∷ seen) ps)

capture_paths-error : (c : Capture) (paths : List String) → capture_paths c paths ≢ err panicked
unfolding capture_paths
capture_paths-error c paths h = ground (arith, paths_loop-error c.objects [] paths)

close_expired-objects : (c : Capture) (now : ℕ) → (close_expired c now).objects ≡ c.objects
unfolding close_expired
close_expired-objects c now = ground arith

guard-error : (t : Bool) → guard t conflict ≢ err panicked
guard-error t h = ground arith

objects_at-error :
    (objects : List CaptureObject) (is : List ℕ)
    → Within objects is
    → objects_at objects is ≢ err panicked
objects_at-error objects is w h = let (os, e) = objects_at-ok objects is w in absurd (cc)

queue_objects-error :
    (at : ℕ) (is : List ℕ) (c : Capture)
    → Within c.objects is
    → queue_objects at is c ≢ err panicked
queue_objects-error at is c w h = let (d, e) = queue_objects-ok at is c w in absurd (cc)

-- With what the first transaction of Confirm has seen of the same paths, in whatever state the capture was,
-- the second indexes neither the objects nor the declarations out of range: it panics only if the listing
-- of the storage did.
pub confirm_in_bounds :
    (now : ℕ) (paths : List String) (s : Snapshot) (listing : Result (String → ℕ))
    (before c : Capture)
    → snapshot_of before paths ≡ ok s
    → listing ≢ err panicked
    → accept_confirm now paths s listing c ≢ err panicked
unfolding accept_confirm
confirm_in_bounds now paths s listing before c z q =
    avoids->>= panicked (guard (same_broadcast c s) conflict) _ (guard-error _) (λ u a.
      avoids->>= panicked (capture_paths c paths) _ (capture_paths-error c paths) (λ is b.
        avoids->>= panicked (objects_at c.objects is) _
          (objects_at-error c.objects is (capture_paths-Within c paths is b))
          (λ os d.
            avoids->>= panicked (check_declarations os s.declarations) _
              (check_declarations-error os s.declarations (
                objects_at-length c.objects is os d
                ∙ (capture_paths-length c paths is b ∙ sym (snapshot_of-length before paths s z))))
              (λ v e. avoids->>= panicked listing _ q (λ sizes f.
                avoids->>= panicked (check_sizes sizes os) _ (check_sizes-error sizes os) (λ w g.
                  avoids->>= panicked (queue_objects now is (close_expired c now)) _
                    (queue_objects-error now is (close_expired c now) (
                      subst (λ xs. Within xs is) (sym (close_expired-objects c now))
                        (capture_paths-Within c paths is b)))
                    (λ x y. λ z. cc)))))))
