-- ===== src/Base/Rows.antt =====
-- An UPDATE of the one row that a key selects, over a table as a list of rows.
use mathlib.Core.Path.{◌≡◌, refl, subst, ◌∙◌}
use mathlib.Core.Logic.{◌≢◌, ◌⊎◌, inl, inr}
use mathlib.Core.Bool.{Bool, true, false}
use mathlib.Core.Option.{Option, none, some}
use mathlib.Core.List.{List, [], ◌∷◌}
use native.Mathlib.Omega.{arith}
use asset_api.Base.Tests.{if◌then◌else◌, Bool-cases, Option-cases}
use asset_api.Base.Lists.{All, some_injective}

module _ {ℓ} {A : Type ℓ} where
  -- The first row that passes the test is changed; `none` if there is none.
  unfoldable pub update_row : (A → Bool) → (A → A) → List A → Option (List A)
  update_row test f [] = none
  update_row test f (a ∷ rows) =
      let rest = update_row test f rows in
      if test a then some (f a ∷ rows) else elim rest [ none ↦ none | some bs ↦ some (a ∷ bs) ]

  -- What the row that is changed keeps, the table keeps.
  pub All-update_row {κ} :
      (Q : A → Type κ) (test : A → Bool) (f : A → A) (rows after : List A)
      → ((a : A) → test a ≡ true → Q a → Q (f a))
      → update_row test f rows ≡ some after
      → All Q rows
      → All Q after
  unfolding update_row
  All-update_row Q test f [] after q e h = absurd (cc)
  All-update_row Q test f (b ∷ rows) after q e h = elim (Bool-cases (test b)) [
    | inl t ↦ subst (All Q) (some_injective (rw t at e)) (q b t h.0, h.1)
    | inr t ↦ elim (Option-cases (update_row test f rows)) [
      | inl n ↦ absurd (ground (arith, t, n))
      | inr (bs, m) ↦
          subst (All Q) (some_injective (rw (t, m, update_row) at e))
            (h.0, All-update_row Q test f rows bs q m h.1)
    ]
  ]

  -- The table after an UPDATE that changed at most one row.
  abbrev pub kept_or : List A → Option (List A) → List A
  kept_or rows none = rows
  kept_or rows (some after) = after

  pub kept_or-All {κ} :
      (Q : A → Type κ) (test : A → Bool) (f : A → A) (rows : List A)
      → ((a : A) → test a ≡ true → Q a → Q (f a))
      → All Q rows
      → All Q (kept_or rows (update_row test f rows))
  kept_or-All Q test f rows k h = go (update_row test f rows) refl
    where
      go : (o : Option (List A)) → update_row test f rows ≡ o → All Q (kept_or rows o)
      go none e = h
      go (some after) e = All-update_row Q test f rows after k e h

  -- No row passes the test.
  pub update_row-none :
      (test : A → Bool) (f : A → A) (rows : List A)
      → All (λ a. test a ≡ false) rows
      → update_row test f rows ≡ none
  unfolding update_row
  update_row-none test f [] h = refl
  update_row-none test f (b ∷ rows) h = ground (arith, h.0, update_row-none test f rows h.1)

  -- Only the rows of the table tell the tests apart.
  pub update_row-test :
      (test again : A → Bool) (f : A → A) (rows : List A)
      → All (λ a. test a ≡ again a) rows
      → update_row test f rows ≡ update_row again f rows
  unfolding update_row
  update_row-test test again f [] h = refl
  update_row-test test again f (b ∷ rows) h = rw (h.0, update_row-test test again f rows h.1) refl

-- The row that comes first in an order, of those that pass a test: ORDER BY ... LIMIT 1.
module _ {ℓ} {A : Type ℓ} (test : A → Bool) (before : A → A → Bool) where
  abbrev pub earlier_of : A → Option A → Option A
  earlier_of a none = some a
  earlier_of a (some b) = if before a b then some a else some b

  unfoldable pub first_by : List A → Option A
  first_by [] = none
  first_by (a ∷ rows) = let rest = first_by rows in if test a then earlier_of a rest else rest

  pub first_by-cases :
      (b : A) (rows : List A) (a : A)
      → first_by (b ∷ rows) ≡ some a
      → ((b ≡ a) × (test b ≡ true)) ⊎ (first_by rows ≡ some a)
  unfolding first_by
  first_by-cases b rows a c = elim (Bool-cases (test b)) [
    | inr f ↦ inr (rw f at c)
    | inl t ↦ elim (Option-cases (first_by rows)) [
      | inl n ↦ inl (some_injective (rw (t, n) at c), t)
      | inr (g, m) ↦ elim (Bool-cases (before b g)) [
        | inl y ↦ inl (some_injective (rw (t, m, y) at c), t)
        | inr y ↦ inr (m ∙ (rw (t, m, y) at c))
      ]
    ]
  ]

  -- It is one of the rows, and it passes the test.
  pub first_by-All {κ} :
      (Q : A → Type κ) (rows : List A) (a : A) → first_by rows ≡ some a → All Q rows → Q a
  unfolding first_by
  first_by-All Q [] a c h = absurd (cc)
  first_by-All Q (b ∷ rows) a c h = elim (first_by-cases b rows a c) [
    | inl (q, t) ↦ subst Q q h.0
    | inr m ↦ first_by-All Q rows a m h.1
  ]

  pub first_by-test : (rows : List A) (a : A) → first_by rows ≡ some a → test a ≡ true
  unfolding first_by
  first_by-test [] a c = absurd (cc)
  first_by-test (b ∷ rows) a c = elim (first_by-cases b rows a c) [
    | inl (q, t) ↦ subst (λ v. test v ≡ true) q t
    | inr m ↦ first_by-test rows a m
  ]

  earlier_of-some : (a : A) (o : Option A) → earlier_of a o ≢ none
  earlier_of-some a none n = cc
  earlier_of-some a (some b) n = absurd (ground (arith, n))

  -- If there is none, no row passes.
  pub first_by-none : (rows : List A) → first_by rows ≡ none → All (λ a. test a ≡ false) rows
  unfolding first_by
  first_by-none [] n = tt
  first_by-none (b ∷ rows) n = elim (Bool-cases (test b)) [
    | inl y ↦ absurd (earlier_of-some b (first_by rows) (rw y at n))
    | inr y ↦ (y, first_by-none rows (rw y at n))
  ]
