-- ===== src/Audit/Settled.antt =====
-- What a claim and its completion leave of the outbox (internal/auditoutbox/store.go): one row with its
-- outcome, and the others as they were.
use asset_api.Base.{
  ℕ, ◌+◌, String, Bool, true, false, ◌≡◌, refl, sym, subst, inl, inr, some, List, [], ◌∷◌, arith,
  str_eq, eq_iff, eq_refl, update_row, All-update_row, Bool-cases, Option-cases, some_injective,
  All, All-mono, Distinct-update_row, Holds,
}
use asset_api.Audit.Outbox.{
  id_of, Entry, row_of, claimed, has_id, takes_completion, completed, Status,
}
use asset_api.Audit.Steps.{Same, IsKeyed}
use asset_api.Audit.Fenced.{Holds-All}

-- The row of the outcome's status, code and time, with one more attempt.
abbrev pub SettledAs : Status × String × ℕ → Entry → Entry → Type 0
SettledAs (status, code, available_at) e a =
    Same e a
    × (a.status ≡ status)
    × (a.last_error ≡ code)
    × (a.available_at ≡ available_at)
    × (a.attempts ≡ e.attempts + 1)

-- The row with the key is the one that is changed.
keyed_change :
    (id : String) (R S : Entry → Type 0) (test : Entry → Bool) (f : Entry → Entry)
    (rows after : List Entry)
    → ((a : Entry) → test a ≡ true → has_id id a ≡ true)
    → ((a : Entry) → R a → test a ≡ true)
    → ((a : Entry) → R a → S (f a))
    → IsKeyed rows
    → update_row test f rows ≡ some after
    → All (λ a. has_id id a ≡ true → R a) rows
    → All (λ a. has_id id a ≡ true → S a) after
unfolding update_row
keyed_change id R S test f [] after t r s k e h = absurd (cc)
keyed_change id R S test f (b ∷ rows) after t r s k e h = elim (Bool-cases (has_id id b)) [
  | inl y ↦ subst (All (λ a. has_id id a ≡ true → S a)) (some_injective (rw (r b (h.0 y)) at e)) (
    λ u. s b (h.0 y),
    All-mono (λ a. str_eq a.id b.id ≡ false) _ rows
        (λ a n u.
          absurd (ground (arith, n, u, y, eq_iff a.id id, eq_iff b.id id, eq_iff a.id b.id)))
        k.0,
  )
  | inr n ↦ elim (Bool-cases (test b)) [
    | inl y ↦ absurd (ground (arith, n, t b y))
    | inr x ↦ elim (Option-cases (update_row test f rows)) [
      | inl z ↦ absurd (ground (arith, x, z))
      | inr (bs, m) ↦
          subst (All (λ a. has_id id a ≡ true → S a)) (some_injective (rw (x, m, update_row) at e))
            (λ u. absurd (ground (arith, n, u)), keyed_change id R S test f rows bs t r s k.1 m h.1)
    ]
  ]
]

-- The other rows are as they were.
others_stay :
    (id : String) (P : Entry → Type 0) (test : Entry → Bool) (f : Entry → Entry)
    (rows after : List Entry)
    → ((a : Entry) → test a ≡ true → has_id id a ≡ true)
    → update_row test f rows ≡ some after
    → All (λ a. has_id id a ≡ false → P a) rows
    → ((a : Entry) → (f a).id ≡ a.id)
    → All (λ a. has_id id a ≡ false → P a) after
others_stay id P test f rows after t e h i =
    All-update_row (λ a. has_id id a ≡ false → P a) test f rows after
      (λ a x y n. absurd (conflict a (t a x) (subst (λ v. str_eq v id ≡ false) (i a) n))) e h
  where
    conflict : (a : Entry) → has_id id a ≡ true → has_id id a ≡ false → ⊥
    conflict a x y = ground (arith, x, y)

either_way :
    (id : String) (P : Entry → Type 0) (rows : List Entry)
    → All (λ a. has_id id a ≡ true → P a) rows
    → All (λ a. has_id id a ≡ false → P a) rows
    → All P rows
either_way id P [] x y = tt
either_way id P (a ∷ rows) x y = (
  elim (Bool-cases (has_id id a)) [ inl t ↦ x.0 t | inr f ↦ y.0 f ],
  either_way id P rows x.1 y.1,
)

-- What holds of the rows before, and of the settled row, holds of the rows after.
pub settled-All :
    (P : Entry → Type 0) (t now : ℕ) (e : Entry) (o : Status × String × ℕ)
    (rows s after : List Entry)
    → IsKeyed rows
    → update_row (has_id e.id) (claimed t) rows ≡ some s
    → Holds id_of e.id (λ a. a ≡ claimed t e) s
    → update_row (takes_completion (row_of (claimed t e))) (completed o.0 o.1 o.2 now) s
      ≡ some after
    → All P rows
    → ((a : Entry) → SettledAs o e a → P a)
    → All P after
settled-All P t now e o rows s after k u h d p settled =
    let j = Distinct-update_row id_of (has_id e.id) (claimed t) (λ a. refl) rows s u k in
    let hit = Holds-All e.id (λ a. a ≡ claimed t e) s j h in
    either_way e.id P after
      (keyed_change e.id (λ a. a ≡ claimed t e) P (takes_completion (row_of (claimed t e)))
        (completed o.0 o.1 o.2 now) s after (λ a x. ground (arith, x)) (λ a q. taken a q)
        (λ a q. settled (completed o.0 o.1 o.2 now a) (
          subst (λ v. SettledAs o e (completed o.0 o.1 o.2 now v)) (sym q)
            ((refl, refl, refl, refl), refl, refl, refl, refl)))
        j d hit)
      (others_stay e.id P (takes_completion (row_of (claimed t e))) (completed o.0 o.1 o.2 now) s
        after (λ a x. ground (arith, x)) d
        (others_stay e.id P (has_id e.id) (claimed t) rows s (λ a x. x) u
          (All-mono P _ rows (λ a q n. q) p) (λ a. refl))
        (λ a. refl))
  where
    taken : (a : Entry) → a ≡ claimed t e → takes_completion (row_of (claimed t e)) a ≡ true
    taken a q =
        subst (λ v. takes_completion (row_of (claimed t e)) v ≡ true) (sym q)
          (ground (arith, eq_refl e.id))
