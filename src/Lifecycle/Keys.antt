-- ===== src/Lifecycle/Keys.antt =====
-- uniqueStrings and the keys of a claimed asset leave no object out (internal/postgres/store.go).
use asset_api.Base.{
  ℕ, String, ◌≡◌, refl, sym, subst, Bool, true, false, ◌||◌, List, [], ◌∷◌, ◌++◌, inl, inr, arith,
  All, All-mono, Bool-cases, same_codes, same_codes_refl, if◌then◌else◌,
}
use asset_api.Lifecycle.Model.{PurgeRow}
use asset_api.Lifecycle.Table.{has_id, is_seen, unique_from, unique_strings, keys_with, row_keys}

-- The object is deleted, or still to be deleted; an empty key names none.
abbrev pub accounted : List (List ℕ) → List (List ℕ) → List ℕ → Bool
accounted log keys k = same_codes k [] || is_seen k keys || is_seen k log

abbrev pub Accounted : List (List ℕ) → List (List ℕ) → PurgeRow → Type 0
Accounted log keys r = All (λ k. accounted log keys k ≡ true) (row_keys r)

unique_from-seen :
    (seen : List (List ℕ)) (key : List ℕ) (keys : List (List ℕ))
    → (same_codes key [] || is_seen key seen) ≡ true
    → unique_from seen (key ∷ keys) ≡ unique_from seen keys
unfolding unique_from
unique_from-seen seen key keys t = rw t refl

unique_from-new :
    (seen : List (List ℕ)) (key : List ℕ) (keys : List (List ℕ))
    → (same_codes key [] || is_seen key seen) ≡ false
    → unique_from seen (key ∷ keys) ≡ key ∷ unique_from (key ∷ seen) keys
unfolding unique_from
unique_from-new seen key keys f = rw f refl

-- uniqueStrings leaves nothing out.
pub unique_from-accounted :
    (log seen keys : List (List ℕ))
    → All (λ k. (is_seen k seen || accounted log (unique_from seen keys) k) ≡ true) keys
unique_from-accounted log seen [] = tt
unique_from-accounted log seen (key ∷ keys) =
    elim (Bool-cases (same_codes key [] || is_seen key seen)) [
      | inl t ↦
          subst (λ v. Kept v (key ∷ keys)) (sym (unique_from-seen seen key keys t))
            (here (unique_from seen keys) t, unique_from-accounted log seen keys)
      | inr f ↦
          subst (λ v. Kept v (key ∷ keys)) (sym (unique_from-new seen key keys f))
            (
              kept (unique_from (key ∷ seen) keys),
              All-mono
                  (λ k.
                    (is_seen k (key ∷ seen) || accounted log (unique_from (key ∷ seen) keys) k)
                    ≡ true)
                  (λ k.
                    (is_seen k seen || accounted log (key ∷ unique_from (key ∷ seen) keys) k)
                    ≡ true)
                  keys (λ k h. moved k (unique_from (key ∷ seen) keys) h)
                  (unique_from-accounted log (key ∷ seen) keys),
            )
    ]
  where
    Kept : List (List ℕ) → List (List ℕ) → Type 0
    Kept v ks = All (λ k. (is_seen k seen || accounted log v k) ≡ true) ks

    here :
        (rest : List (List ℕ))
        → (same_codes key [] || is_seen key seen) ≡ true
        → (is_seen key seen || accounted log rest key) ≡ true
    here rest t = ground (arith, t)

    kept : (rest : List (List ℕ)) → (is_seen key seen || accounted log (key ∷ rest) key) ≡ true
    kept rest = ground (arith, same_codes_refl key)

    moved :
        (k : List ℕ) (rest : List (List ℕ))
        → (is_seen k (key ∷ seen) || accounted log rest k) ≡ true
        → (is_seen k seen || accounted log (key ∷ rest) k) ≡ true
    moved k rest h = ground (arith, h)

pub keys_with-All :
    (P : List ℕ → Type 0) (id : String) (rows : List PurgeRow)
    → All P (keys_with id rows)
    → All (λ r. has_id id r ≡ true → All P (row_keys r)) rows
unfolding keys_with
keys_with-All P id [] h = tt
keys_with-All P id (r ∷ rows) h = elim (Bool-cases (has_id id r)) [
  | inl t ↦
      let h' =
        subst (λ b. All P (if b then row_keys r ++ keys_with id rows else keys_with id rows)) t h in
      let s = split (row_keys r) (keys_with id rows) h' in ((λ u. s.0), keys_with-All P id rows s.1)
  | inr f ↦
      let h' =
        subst (λ b. All P (if b then row_keys r ++ keys_with id rows else keys_with id rows)) f h in
      ((λ u. absurd (ground (arith, u, f))), keys_with-All P id rows h')
]
  where
    split : (front back : List (List ℕ)) → All P (front ++ back) → All P front × All P back
    split [] back a = (tt, a)
    split (x ∷ front) back a = let s = split front back a.1 in ((a.0, s.0), s.1)

-- The keys of the candidate are all that the rows with its id have.
pub keys_with-Accounted :
    (log : List (List ℕ)) (id : String) (rows : List PurgeRow)
    → All (λ r. has_id id r ≡ true → Accounted log (unique_strings (keys_with id rows)) r) rows
keys_with-Accounted log id rows =
    keys_with-All (λ k. accounted log (unique_strings (keys_with id rows)) k ≡ true) id rows
      (unique_from-accounted log [] (keys_with id rows))
