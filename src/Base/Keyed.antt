-- ===== src/Base/Keyed.antt =====
-- Tables with a column whose values are unique, and the row that an UPDATE finds again.
use Prim.Native.String.{String}
use mathlib.Core.Path.{◌≡◌, refl, sym, subst}
use mathlib.Core.Logic.{◌⊎◌, inl, inr}
use mathlib.Core.Bool.{Bool, true, false}
use mathlib.Core.Option.{Option, none, some}
use mathlib.Core.List.{List, [], ◌∷◌}
use native.Mathlib.Omega.{arith}
use text.Mathlib.Text.{◌==◌ as str_eq}
use text.Mathlib.TextEquality.{eq_iff}
use asset_api.Base.Tests.{if◌then◌else◌, Bool-cases, Option-cases}
use asset_api.Base.Lists.{All, some_injective}
use asset_api.Base.Rows.{update_row, All-update_row}

module _ {ℓ} {A : Type ℓ} (key : A → String) where
  -- The first row with the value in the column.
  unfoldable pub find_row : String → List A → Option A
  find_row value [] = none
  find_row value (a ∷ rows) = if str_eq (key a) value then some a else find_row value rows

  abbrev pub Distinct : List A → Type 0
  Distinct [] = Unit
  Distinct (e ∷ rows) = All (λ a. str_eq (key a) (key e) ≡ false) rows × Distinct rows

  pub find_row-none :
      (value : String) (rows : List A)
      → find_row value rows ≡ none
      → All (λ a. str_eq (key a) value ≡ false) rows
  unfolding find_row
  find_row-none value [] h = tt
  find_row-none value (e ∷ rows) h = elim (Bool-cases (str_eq (key e) value)) [
    | inl t ↦ absurd (ground (arith, t))
    | inr f ↦ (f, find_row-none value rows (rw f at h))
  ]

  module _ (test : A → Bool) (f : A → A) (keeps : (a : A) → key (f a) ≡ key a) where
    All-others :
        (value : String) (rows after : List A)
        → update_row test f rows ≡ some after
        → All (λ a. str_eq (key a) value ≡ false) rows
        → All (λ a. str_eq (key a) value ≡ false) after
    All-others value rows after e h =
        All-update_row (λ a. str_eq (key a) value ≡ false) test f rows after
          (λ a t p. rw (keeps a) p) e h

    pub Distinct-update_row :
        (rows after : List A) → update_row test f rows ≡ some after → Distinct rows → Distinct after
    unfolding update_row
    Distinct-update_row [] after e h = absurd (cc)
    Distinct-update_row (b ∷ rows) after e h = elim (Bool-cases (test b)) [
      | inl t ↦
          subst Distinct (some_injective (rw t at e))
            (subst (λ v. All (λ a. str_eq (key a) v ≡ false) rows) (sym (keeps b)) h.0, h.1)
      | inr t ↦ elim (Option-cases (update_row test f rows)) [
        | inl n ↦ absurd (ground (arith, t, n))
        | inr (bs, m) ↦
            subst Distinct (some_injective (rw (t, m, update_row) at e))
              (All-others (key b) rows bs m h.0, Distinct-update_row rows bs m h.1)
      ]
    ]

  pub Distinct-insert :
      (new : A) (rows : List A)
      → find_row (key new) rows ≡ none
      → Distinct rows
      → Distinct (new ∷ rows)
  Distinct-insert new rows n d = (find_row-none (key new) rows n, d)

  -- A row with the value that the predicate holds of.
  abbrev pub Holds {κ} : String → (A → Type κ) → List A → Type (ℓ ⊔ κ)
  Holds value R rows = (e : A) × (find_row value rows ≡ some e) × R e

  module _ {κ} (value : String) (R : A → Type κ) where
    pub Holds-here :
        (a : A) (rows : List A) → str_eq (key a) value ≡ true → R a → Holds value R (a ∷ rows)
    unfolding find_row
    Holds-here a rows s r = (a, rw s refl, r)

    pub Holds-there :
        (a : A) (rows : List A)
        → str_eq (key a) value ≡ false
        → Holds value R rows
        → Holds value R (a ∷ rows)
    unfolding find_row
    Holds-there a rows s (x, g, r) = (x, rw s g, r)

    Holds-cases :
        (b : A) (rows : List A)
        → Holds value R (b ∷ rows)
        → ((str_eq (key b) value ≡ true) × R b)
          ⊎ ((str_eq (key b) value ≡ false) × Holds value R rows)
    unfolding find_row
    Holds-cases b rows (x, g, r) = elim (Bool-cases (str_eq (key b) value)) [
      | inl t ↦ inl (t, subst R (sym (some_injective (rw t at g))) r)
      | inr t ↦ inr (t, (x, (rw t at g), r))
    ]

  module _ {κ} (value : String) (R : A → Type κ) (test : A → Bool) (f : A → A)
      (keeps : (a : A) → key (f a) ≡ key a) (stable : (a : A) → test a ≡ true → R a → R (f a)) where
    pub Holds-update_row :
        (rows after : List A)
        → update_row test f rows ≡ some after
        → Holds value R rows
        → Holds value R after
    unfolding update_row
    Holds-update_row [] after e h = absurd (cc)
    Holds-update_row (b ∷ rows) after e h = elim (Bool-cases (test b)) [
      | inl t ↦
          subst (Holds value R) (some_injective (rw t at e)) (elim (Holds-cases value R b rows h) [
            | inl (s, r) ↦ Holds-here value R (f b) rows (rw (keeps b) s) (stable b t r)
            | inr (s, i) ↦ Holds-there value R (f b) rows (rw (keeps b) s) i
          ])
      | inr t ↦ elim (Option-cases (update_row test f rows)) [
        | inl n ↦ absurd (ground (arith, t, n))
        | inr (bs, m) ↦
            subst (Holds value R) (some_injective (rw (t, m, update_row) at e))
              (elim (Holds-cases value R b rows h) [
                | inl (s, r) ↦ Holds-here value R b bs s r
                | inr (s, i) ↦ Holds-there value R b bs s (Holds-update_row rows bs m i)
              ])
      ]
    ]

  -- A new row with another value.
  pub Holds-insert {κ} :
      (value : String) (R : A → Type κ) (new : A) (rows : List A)
      → find_row (key new) rows ≡ none
      → Holds value R rows
      → Holds value R (new ∷ rows)
  Holds-insert value R new rows n (x, g, r) = elim (Bool-cases (str_eq (key new) value)) [
    | inl t ↦ absurd (ground (arith, n, g, eq_iff (key new) value))
    | inr t ↦ Holds-there value R new rows t (x, g, r)
  ]
