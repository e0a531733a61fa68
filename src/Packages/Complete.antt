-- ===== src/Packages/Complete.antt =====
-- The inventories that are accepted: internal/assets/recording_package.go.
use asset_api.Base.{
  same_codes_refl, same_codes_eq, ℕ, ◌+◌, ◌≤◌, ◌≡◌, ◌↔◌, refl, sym, ◌∙◌, ap, inl, inr, Bool, true,
  false, not, ◌&&◌, List, [], ◌∷◌, arith, length, count_if, All, Bool-cases, codes, same_codes, ltb,
}
use asset_api.Errors.{
  ok, invalid_input, package_too_large, guard, >>=-eq-ok, guard-eq-ok, ok_injective,
}
use asset_api.Capture.Model.{PackageObject, package_max_bytes}
use asset_api.Packages.Inventory.{
  Reading, remove_path, has_size, is_sound, check_objects, in_limits, read_renditions,
  start_reading, inventory_max_bytes, is_whole, encoded_size, has_digest, validate_inventory,
}
use asset_api.Packages.Renditions.{Paths, Platform, PackageInventory, has_path}

-- How often a path stands in a list.
abbrev pub occurrences : List ℕ → Paths → ℕ
occurrences path paths = count_if (λ p. same_codes p path) paths

abbrev pub paths_of : List PackageObject → Paths
paths_of [] = []
paths_of (o ∷ os) = codes o.path ∷ paths_of os

abbrev pub total_size : List PackageObject → ℕ
total_size [] = 0
total_size (o ∷ os) = o.size_bytes + total_size os

abbrev pub SamePaths : Paths → Paths → Type 0
SamePaths xs ys = (path : List ℕ) → occurrences path xs ≡ occurrences path ys

-- Taking away one path that is there.
pub remove_path-length :
    (x : List ℕ) (paths : Paths)
    → has_path x paths ≡ true
    → length (remove_path x paths) + 1 ≡ length paths
unfolding has_path remove_path
remove_path-length x [] h = absurd (cc)
remove_path-length x (p ∷ ps) h = ground (arith, h, remove_path-length x ps)

pub remove_path-occurrences :
    (x path : List ℕ) (paths : Paths)
    → has_path x paths ≡ true
    → occurrences path (x ∷ remove_path x paths) ≡ occurrences path paths
unfolding has_path remove_path
remove_path-occurrences x path [] h = absurd (cc)
remove_path-occurrences x path (p ∷ ps) h = elim (Bool-cases (same_codes p x)) [
  | inl t ↦ rw t (ap (λ v. occurrences path (v ∷ ps)) (sym (same_codes_eq p x t)))
  | inr f ↦ rw f (
      let i = remove_path-occurrences x path ps (rw f at h) in
      ground (arith, i, Bool-cases (same_codes p path), Bool-cases (same_codes x path)))
]

pub occurs : (x : List ℕ) (paths : Paths) → 1 ≤ occurrences x paths → has_path x paths ≡ true
unfolding has_path
occurs x [] h = absurd (omega arith)
occurs x (p ∷ ps) h = elim (Bool-cases (same_codes p x)) [
  | inl t ↦ rw t refl
  | inr f ↦ rw f (occurs x ps (rw f at h))
]

pub SamePaths-grow :
    (x : List ℕ) (xs ys : Paths)
    → has_path x ys ≡ true
    → SamePaths xs (remove_path x ys)
    → SamePaths (x ∷ xs) ys
SamePaths-grow x xs ys h s path =
    ground (arith, s path, remove_path-occurrences x path ys h, Bool-cases (same_codes x path))

SamePaths-has : (x : List ℕ) (xs ys : Paths) → SamePaths (x ∷ xs) ys → has_path x ys ≡ true
SamePaths-has x xs ys s = occurs x ys (ground (arith, s x, same_codes_refl x))

SamePaths-shrink :
    (x : List ℕ) (xs ys : Paths) → SamePaths (x ∷ xs) ys → SamePaths xs (remove_path x ys)
SamePaths-shrink x xs ys s path = ground (
  arith,
  s path,
  remove_path-occurrences x path ys (SamePaths-has x xs ys s),
  Bool-cases (same_codes x path),
)

abbrev pub IsSound : PackageObject → Type 0
IsSound o = (has_size o && is_sound o) ≡ true

-- The loop over the objects, with a total so far that is not too large.
abbrev Checked : List PackageObject → Paths → ℕ → ℕ → Type 0
Checked os expected start total =
    SamePaths (paths_of os) expected
    × All IsSound os
    × (total ≡ start + total_size os)
    × (total ≤ package_max_bytes)

abbrev next_object : PackageObject → Paths → Bool
next_object o expected = has_path (codes o.path) expected && has_size o && is_sound o

check_objects-Checked :
    (os : List PackageObject) (expected : Paths) (start total : ℕ)
    → start ≤ package_max_bytes
    → length os ≡ length expected
    → check_objects os expected start ≡ ok total
    → Checked os expected start total
unfolding check_objects
check_objects-Checked [] [] start total m l e =
    let t = ok_injective e in ((λ path. refl), tt, omega (arith, t), omega (arith, t))
check_objects-Checked [] (p ∷ ps) start total m l e = absurd (omega arith)
check_objects-Checked (o ∷ os) expected start total m l e =
    let (u, g, e1) = >>=-eq-ok (guard (next_object o expected) invalid_input) _ e in
    let (v, k, e2) =
      >>=-eq-ok (guard (not (ltb package_max_bytes (start + o.size_bytes))) package_too_large) _
        e1 in
    let x = guard-eq-ok (next_object o expected) invalid_input g in
    let y = guard-eq-ok (not (ltb package_max_bytes (start + o.size_bytes))) package_too_large k in
    let n = remove_path-length (codes o.path) expected (there x) in
    let (s, a, t, z) =
      check_objects-Checked os (remove_path (codes o.path) expected) (start + o.size_bytes) total
        (fits y) (omega (arith, l, n)) e2 in
    (
      SamePaths-grow (codes o.path) (paths_of os) expected (there x) s,
      (sound x, a),
      omega (arith, t),
      z,
    )
  where
    there : next_object o expected ≡ true → has_path (codes o.path) expected ≡ true
    there x = ground (arith, x)

    sound : next_object o expected ≡ true → IsSound o
    sound x = ground (arith, x)

    fits :
        not (ltb package_max_bytes (start + o.size_bytes)) ≡ true
        → start + o.size_bytes ≤ package_max_bytes
    fits y = ground (arith, y)

Checked-check_objects :
    (os : List PackageObject) (expected : Paths) (start total : ℕ)
    → Checked os expected start total
    → check_objects os expected start ≡ ok total
unfolding check_objects
Checked-check_objects [] expected start total (s, a, t, z) = ap ok (omega (arith, t))
Checked-check_objects (o ∷ os) expected start total (s, a, t, z) =
    rw (next (SamePaths-has (codes o.path) (paths_of os) expected s), fits)
      (Checked-check_objects os (remove_path (codes o.path) expected) (start + o.size_bytes) total
        (SamePaths-shrink (codes o.path) (paths_of os) expected s, a.1, omega (arith, t), z))
  where
    next : has_path (codes o.path) expected ≡ true → next_object o expected ≡ true
    next h = ground (arith, h, a.0)

    fits : ltb package_max_bytes (start + o.size_bytes) ≡ false
    fits = ground (arith, t, z)

-- An inventory that is whole.
pub record IsComplete (p : Platform) (inv : PackageInventory) (total : ℕ) : Type 0 where
  pub reading : Reading
  pub limits : in_limits inv ≡ true
  pub reads : read_renditions p inv.preset_version inv.renditions start_reading ≡ ok reading
  pub whole : is_whole inv reading ≡ true
  pub small : encoded_size p inv ≤ inventory_max_bytes
  pub each_once : SamePaths (paths_of inv.objects) reading.expected
  pub sound : All IsSound inv.objects
  pub total_is : total ≡ encoded_size p inv + total_size inv.objects
  pub bounded : total ≤ package_max_bytes
  pub digest : has_digest p inv ≡ true

abbrev is_small : Platform → PackageInventory → Bool
is_small p inv = not (ltb inventory_max_bytes (encoded_size p inv))

small_iff :
    (p : Platform) (inv : PackageInventory)
    → (is_small p inv ≡ true) ↔ (encoded_size p inv ≤ inventory_max_bytes)
small_iff p inv = ground arith

-- An inventory is accepted with a total size exactly if it is within the limits, its renditions are read,
-- it is whole, encoded in at most 8 MiB and with its digest, its objects stand at the expected paths,
-- each of them once, each with a sound size and checksum, and the total, which is that of the objects
-- and of the encoded inventory, is at most the limit of a package.
pub validate_iff :
    (p : Platform) (inv : PackageInventory) (total : ℕ)
    → (validate_inventory p inv ≡ ok total) ↔ IsComplete p inv total
unfolding validate_inventory
validate_iff p inv total = (forward, backward)
  where
    forward : validate_inventory p inv ≡ ok total → IsComplete p inv total
    forward e =
        let (u, a, e1) = >>=-eq-ok (guard (in_limits inv) invalid_input) _ e in
        let (s, b, e2) =
          >>=-eq-ok (read_renditions p inv.preset_version inv.renditions start_reading) _ e1 in
        let (v, c, e3) = >>=-eq-ok (guard (is_whole inv s) invalid_input) _ e2 in
        let (w, d, e4) = >>=-eq-ok (guard (is_small p inv) invalid_input) _ e3 in
        let (t, f, e5) =
          >>=-eq-ok (check_objects inv.objects s.expected (encoded_size p inv)) _ e4 in
        let (x, g, e6) = >>=-eq-ok (guard (has_digest p inv) invalid_input) _ e5 in
        let small = (small_iff p inv).0 (guard-eq-ok (is_small p inv) invalid_input d) in
        let whole = guard-eq-ok (is_whole inv s) invalid_input c in
        let f' = f ∙ ap ok (ok_injective e6) in
        let (i, j, k, l) =
          check_objects-Checked inv.objects s.expected (encoded_size p inv) total (omega arith)
            (ground (arith, whole)) f' in
        record {
          reading = s;
          limits = guard-eq-ok (in_limits inv) invalid_input a;
          reads = b;
          whole = whole;
          small = small;
          each_once = i;
          sound = j;
          total_is = k;
          bounded = l;
          digest = guard-eq-ok (has_digest p inv) invalid_input g;
        }

    backward : IsComplete p inv total → validate_inventory p inv ≡ ok total
    backward c =
        rw
          (
            c.limits,
            c.reads,
            c.whole,
            (small_iff p inv).1 c.small,
            Checked-check_objects inv.objects c.reading.expected (encoded_size p inv) total
                (c.each_once, c.sound, c.total_is, c.bounded),
            c.digest,
          )
          refl
