-- ===== src/Capture/Lengths.antt =====
-- The first transaction of Confirm keeps a declaration for each of its paths, and the second finds an
-- object for each of them (internal/assets/recording_capture.go).
use asset_api.Base.{
  ℕ, String, Bool, ◌≡◌, ◌≢◌, refl, sym, ◌∙◌, ap, List, [], ◌∷◌, arith, inl, inr, length, get_elem?,
  Option-cases, Bool-cases, subst,
}
use asset_api.Errors.{
  ok, err, ok_injective, guard, avoids->>=, >>=-eq-ok, conflict, panicked, Result-cases,
}
use asset_api.Capture.Model.{CaptureObject, PackageObject, Capture}
use asset_api.Capture.Objects.{capture_paths, paths_loop, index_of, contains, same_object}
use asset_api.Capture.Confirm.{
  Snapshot, objects_at, check_declarations, declarations_of, snapshot_of,
}

paths_loop-length :
    (objects : List CaptureObject) (seen ps : List String) (is : List ℕ)
    → paths_loop objects seen ps ≡ ok is
    → length is ≡ length ps
unfolding paths_loop
paths_loop-length objects seen [] is h = subst (λ v. length v ≡ 0) (ok_injective h) refl
paths_loop-length objects seen (p ∷ ps) is h = elim (Option-cases (index_of 0 objects p)) [
  | inl n ↦ absurd (ground (arith, n))
  | inr (i, e) ↦ elim (Bool-cases (contains seen p)) [
    | inl t ↦ absurd (ground (arith, e, t))
    | inr f ↦ elim (Result-cases (paths_loop objects (p ∷ seen) ps)) [
      | inr (x, g) ↦ absurd (ground (arith, e, f, g))
      | inl (js, g) ↦
          let l = paths_loop-length objects (p ∷ seen) ps js g in
          subst (λ v. length v ≡ length (p ∷ ps)) (ok_injective (rw (e, f, g, paths_loop) at h))
            (omega (arith, l))
    ]
  ]
]

pub capture_paths-length :
    (c : Capture) (paths : List String) (is : List ℕ)
    → capture_paths c paths ≡ ok is
    → length is ≡ length paths
unfolding capture_paths
capture_paths-length c paths is h = paths_loop-length c.objects [] paths is (ground arith)

pub objects_at-length :
    (objects : List CaptureObject) (is : List ℕ) (os : List CaptureObject)
    → objects_at objects is ≡ ok os
    → length os ≡ length is
unfolding objects_at
objects_at-length objects [] os h = subst (λ v. length v ≡ 0) (ok_injective h) refl
objects_at-length objects (i ∷ is) os h = elim (Option-cases (get_elem? objects i)) [
  | inl n ↦ absurd (ground (arith, n))
  | inr (o, e) ↦
      let (rest, f, g) = >>=-eq-ok (objects_at objects is) _ (rw (e, objects_at) at h) in
      let l = objects_at-length objects is rest f in
      subst (λ v. length v ≡ length (i ∷ is)) (ok_injective g) (omega (arith, l))
]

declarations_of-length : (os : List CaptureObject) → length (declarations_of os) ≡ length os
declarations_of-length [] = refl
declarations_of-length (o ∷ os) = omega (arith, declarations_of-length os)

pub snapshot_of-length :
    (c : Capture) (paths : List String) (s : Snapshot)
    → snapshot_of c paths ≡ ok s
    → length s.declarations ≡ length paths
unfolding snapshot_of
snapshot_of-length c paths s h =
    let (is, a, h1) = >>=-eq-ok (capture_paths c paths) _ h in
    let (os, b, h2) = >>=-eq-ok (objects_at c.objects is) _ h1 in
    let d = ap (λ (v : Snapshot). length v.declarations) (ok_injective h2) in
    sym d
    ∙ (declarations_of-length os
        ∙ (objects_at-length c.objects is os b ∙ capture_paths-length c paths is a))

pub check_declarations-error :
    (os : List CaptureObject) (ds : List PackageObject)
    → length os ≡ length ds
    → check_declarations os ds ≢ err panicked
unfolding check_declarations
check_declarations-error [] ds l = λ h. cc
check_declarations-error (o ∷ os) [] l = absurd (omega (arith, l))
check_declarations-error (o ∷ os) (d ∷ ds) l =
    avoids->>= panicked (guard (same_object o.object d) conflict) _ (guard-conflict _)
      (λ u a. check_declarations-error os ds (omega (arith, l)))
  where
    guard-conflict : (t : Bool) → guard t conflict ≢ err panicked
    guard-conflict t h = ground arith
