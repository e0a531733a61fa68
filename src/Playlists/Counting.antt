-- ===== src/Playlists/Counting.antt =====
-- The paths of playlists as a list in which each counts: those of distinct paths, and the one behind a path.
use asset_api.Base.{
  suc, ◌≤◌, true, false, ◌||◌, Option, none, some, List, [], ◌∷◌, map, Bool-cases, length, All,
  same_codes, same_codes_eq, same_codes_refl, ◌≡◌, refl, ap, subst, ◌∙◌, ◌⊎◌, inl, inr, arith,
}
use asset_api.Packages.Renditions.{Rendition, Paths, has_path}
use asset_api.Packages.Inventory.{remove_path}
use asset_api.Packages.Complete.{
  occurrences, SamePaths, occurs, remove_path-length, remove_path-occurrences, SamePaths-grow,
}
use asset_api.Playlists.Text.{Text}
use asset_api.Playlists.Master.{index_path, found, by_path}

pub unseen :
    (path : Text) (paths : Paths) → has_path path paths ≡ false → occurrences path paths ≡ 0
unseen path paths h = ground (arith, occurs path paths)

pub counted :
    (path : Text) (paths : Paths) → has_path path paths ≡ true → 1 ≤ occurrences path paths
unfolding has_path
counted path [] h = absurd (cc)
counted path (p ∷ ps) h = ground (arith, counted path ps)

-- What is among the paths and is not the one that goes, stays among them.
pub stays :
    (x y : Text) (paths : Paths)
    → has_path x paths ≡ true
    → same_codes y x ≡ false
    → has_path y paths ≡ true
    → has_path y (remove_path x paths) ≡ true
stays x y paths h n k = occurs y (remove_path x paths) (
    ground (
      arith,
      counted y paths k,
      remove_path-occurrences x y paths h,
      differs (Bool-cases (same_codes x y)),
    ))
  where
    differs : (same_codes x y ≡ true) ⊎ (same_codes x y ≡ false) → same_codes x y ≡ false
    differs (inr f) = f
    differs (inl t) =
        absurd
          (ground (arith, n, same_codes_refl y, ap (λ v. same_codes y v) (same_codes_eq x y t)))

pub stay :
    (x : Text) (xs ys : Paths)
    → has_path x ys ≡ true
    → occurrences x xs ≡ 0
    → All (λ y. has_path y ys ≡ true) xs
    → All (λ y. has_path y (remove_path x ys) ≡ true) xs
stay x [] ys h z a = tt
stay x (y ∷ xs) ys h z a =
    (stays x y ys h (ground (arith, z)) a.0, stay x xs ys h (ground (arith, z)) a.1)

-- Distinct paths that are among as many as they are themselves are all of these.
pub SamePaths-distinct :
    (xs ys : Paths)
    → ((path : Text) → occurrences path xs ≤ 1)
    → All (λ x. has_path x ys ≡ true) xs
    → length xs ≡ length ys
    → SamePaths xs ys
SamePaths-distinct [] [] d h l = λ path. refl
SamePaths-distinct [] (y ∷ ys) d h l = absurd (omega arith)
SamePaths-distinct (x ∷ xs) ys d h l = SamePaths-grow x xs ys h.0 (
    SamePaths-distinct xs (remove_path x ys) (λ path. ground (arith, d path))
      (stay x xs ys h.0 (ground (arith, d x, same_codes_refl x)) h.1)
      (omega (arith, remove_path-length x ys h.0)))

pub by_path-has :
    (rs : List Rendition) (path : Text) (r : Rendition)
    → by_path rs path ≡ some r
    → has_path path (map index_path rs) ≡ true
unfolding by_path has_path
by_path-has [] path r e = absurd (cc)
by_path-has (q ∷ rs) path r e = go (by_path-has rs path) (by_path rs path) refl e
  where
    go :
        ((p : Rendition) → by_path rs path ≡ some p → has_path path (map index_path rs) ≡ true)
        → (o : Option Rendition) → by_path rs path ≡ o
        → found path q o ≡ some r
        → (same_codes (index_path q) path || has_path path (map index_path rs)) ≡ true
    go among (some later) m k =
        ap (λ b. same_codes (index_path q) path || b) (among later m) ∙ (ground arith)
    go among none m k = ground (arith, k)

pub has_path-All :
    (Q : Text → Type 0) (path : Text) (paths : Paths)
    → has_path path paths ≡ true
    → All Q paths
    → Q path
unfolding has_path
has_path-All Q path [] h a = absurd (cc)
has_path-All Q path (p ∷ ps) h a = elim (Bool-cases (same_codes p path)) [
  | inl t ↦ subst Q (same_codes_eq p path t) a.0
  | inr n ↦ has_path-All Q path ps (ground (arith, n)) a.1
]

pub length-map : (rs : List Rendition) → length (map index_path rs) ≡ length rs
length-map [] = refl
length-map (r ∷ rs) = ap suc (length-map rs)
