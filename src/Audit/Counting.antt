-- ===== src/Audit/Counting.antt =====
-- How many rows pass a test before and after an UPDATE of the one row that a key selects.
use asset_api.Base.{
  first_by-none, ℕ, ◌+◌, String, Bool, true, false, ◌≡◌, refl, sym, subst, inl, inr, none, some,
  List, [], ◌∷◌, arith, str_eq, update_row, Bool-cases, Option-cases, some_injective, All, count_if,
  Holds, find_row,
}
use asset_api.Audit.Outbox.{earlier, is_candidate, id_of, Entry, candidate, is_due}

module _ (p : Entry → Bool) (test : Entry → Bool) (f : Entry → Entry) where
  -- A change of one row from a count to none.
  pub count_drop :
      (rows after : List Entry)
      → update_row test f rows ≡ some after
      → All (λ a. test a ≡ true → (p a ≡ true) × (p (f a) ≡ false)) rows
      → count_if p after + 1 ≡ count_if p rows
  unfolding update_row
  count_drop [] after e h = absurd (cc)
  count_drop (b ∷ rows) after e h = elim (Bool-cases (test b)) [
    | inl t ↦
        let (x, y) = h.0 t in
        subst (λ l. count_if p l + 1 ≡ count_if p (b ∷ rows)) (some_injective (rw t at e))
          (ground (arith, x, y))
    | inr t ↦ elim (Option-cases (update_row test f rows)) [
      | inl n ↦ absurd (ground (arith, t, n))
      | inr (bs, m) ↦
          let i = count_drop rows bs m h.1 in
          subst (λ l. count_if p l + 1 ≡ count_if p (b ∷ rows))
            (some_injective (rw (t, m, update_row) at e)) (ground (arith, i, Bool-cases (p b)))
    ]
  ]

  pub count_same :
      (rows after : List Entry)
      → update_row test f rows ≡ some after
      → All (λ a. test a ≡ true → p (f a) ≡ p a) rows
      → count_if p after ≡ count_if p rows
  unfolding update_row
  count_same [] after e h = absurd (cc)
  count_same (b ∷ rows) after e h = elim (Bool-cases (test b)) [
    | inl t ↦
        let x = h.0 t in
        subst (λ l. count_if p l ≡ count_if p (b ∷ rows)) (some_injective (rw t at e)) (rw x refl)
    | inr t ↦ elim (Option-cases (update_row test f rows)) [
      | inl n ↦ absurd (ground (arith, t, n))
      | inr (bs, m) ↦
          let i = count_same rows bs m h.1 in
          subst (λ l. count_if p l ≡ count_if p (b ∷ rows))
            (some_injective (rw (t, m, update_row) at e)) (ground (arith, i, Bool-cases (p b)))
    ]
  ]

  -- A row that is there and passes the test is updated.
  pub hits :
      (id : String) (R : Entry → Type 0) (rows : List Entry)
      → ((a : Entry) → str_eq a.id id ≡ true → R a → test a ≡ true)
      → Holds id_of id R rows
      → (after : List Entry) × (update_row test f rows ≡ some after)
  unfolding update_row find_row
  hits id R [] t (e, g, r) = absurd (cc)
  hits id R (b ∷ rows) t (e, g, r) = elim (Bool-cases (test b)) [
    | inl y ↦ (f b ∷ rows, rw y refl)
    | inr n ↦ elim (Bool-cases (str_eq b.id id)) [
      | inl s ↦ absurd (ground (arith, n, t b s (subst R (sym (some_injective (rw s at g))) r)))
      | inr s ↦ let (after, u) = hits id R rows t (e, (rw s at g), r) in (b ∷ after, rw (n, u) refl)
    ]
  ]

pub none-count :
    (t : ℕ) (locked : String → Bool) (rows : List Entry)
    → ((id : String) → locked id ≡ false)
    → candidate t locked rows ≡ none
    → count_if (is_due t) rows ≡ 0
unfolding candidate
none-count t locked rows l n = none_due rows (first_by-none (is_candidate t locked) earlier rows n)
  where
    none_due :
        (rest : List Entry)
        → All (λ e. is_candidate t locked e ≡ false) rest
        → count_if (is_due t) rest ≡ 0
    none_due [] h = refl
    none_due (e ∷ rest) h =
        let d : is_due t e ≡ false = ground (arith, h.0, l e.id) in
        ground (arith, d, none_due rest h.1)
