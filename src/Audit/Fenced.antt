-- ===== src/Audit/Fenced.antt =====
-- A delivered or dead row is final, and a worker whose claim was taken over completes nothing
-- (internal/auditoutbox/store.go).
use asset_api.Base.{
  first_by, ℕ, ◌+◌, ◌≤◌, String, Bool, true, false, ◌≡◌, refl, sym, ◌∙◌, ap, subst, inl, inr,
  Option, some, List, [], ◌∷◌, arith, str_eq, eq_iff, eq_refl, update_row, update_row-none,
  Bool-cases, Option-cases, some_injective, All, All-mono, second, Holds, find_row, Holds-here,
  Holds-there,
}
use asset_api.Audit.Outbox.{
  id_of, Entry, Row, candidate, claimed, has_id, claim, takes_completion, completed, complete,
  Status,
}
use asset_api.Audit.Steps.{
  Same, is_open, Statement, step, claims, run, IsKeyed, run-Holds, run-IsKeyed, step-IsKeyed,
  candidate-All, candidate-cases,
}

-- Rows by their id.
module _ (id : String) (R : Entry → Type 0)
    (stable : (a b : Entry)
      → is_open a ≡ true
      → Same a b
      → a.attempts ≤ b.attempts
      → R a
      → R b) where
  pub run-Holds_id :
      (ts : List Statement) (rows : List Entry)
      → IsKeyed rows
      → Holds id_of id R rows
      → Holds id_of id R (run ts rows)
  run-Holds_id ts rows k h =
      run-Holds id_of id R (λ a b s. s.0) (λ new rows i n. i) stable ts rows k h

-- A row that is delivered or a dead letter stays as it is, whatever statements follow: it is never
-- claimed, completed or removed.
pub final_stays :
    (id : String) (e : Entry) (ts : List Statement) (rows : List Entry)
    → IsKeyed rows
    → find_row id_of id rows ≡ some e
    → is_open e ≡ false
    → find_row id_of id (run ts rows) ≡ some e
final_stays id e ts rows k g o =
    let (a, f, q) =
      run-Holds_id id (λ a. a ≡ e)
        (λ a b p s m q. absurd (ground (arith, o, subst (λ v. is_open v ≡ true) q p))) ts rows k
        (e, g, refl) in
    f ∙ ap some q

-- A row with an id is the row with it.
module _ (id : String) (R : Entry → Type 0) where
  pub Holds-All :
      (rows : List Entry)
      → IsKeyed rows
      → Holds id_of id R rows
      → All (λ a. str_eq a.id id ≡ true → R a) rows
  unfolding find_row
  Holds-All [] k h = tt
  Holds-All (b ∷ rows) k (e, g, m) = elim (Bool-cases (str_eq b.id id)) [
    | inl t ↦ (
      λ u. subst R (sym (some_injective (rw t at g))) m,
      All-mono (λ a. str_eq a.id b.id ≡ false) _ rows
          (λ a f u.
            absurd (ground (arith, f, u, t, eq_iff a.id id, eq_iff b.id id, eq_iff a.id b.id)))
          k.0,
    )
    | inr f ↦ (λ u. absurd (ground (arith, f, u)), Holds-All rows k.1 (e, (rw f at g), m))
  ]

stale-Lost :
    (row : Row) (status : Status) (code : String) (available_at now : ℕ) (rows : List Entry)
    → IsKeyed rows
    → Holds id_of row.id (λ e. row.attempts + 1 ≤ e.attempts) rows
    → complete row status code available_at now rows ≡ (false, rows)
unfolding complete
stale-Lost row status code available_at now rows k h =
    rw
      (update_row-none (takes_completion row) (completed status code available_at now) rows (
        All-mono _ _ rows (λ a m. ground (arith, m))
          (Holds-All row.id (λ e. row.attempts + 1 ≤ e.attempts) rows k h)))
      refl

-- The candidate is the row with its id, and the update by its id finds it.
module _ (now : ℕ) (locked : String → Bool) where
  other_row :
      (b : Entry) (rows : List Entry) (e : Entry)
      → IsKeyed (b ∷ rows)
      → candidate now locked rows ≡ some e
      → str_eq b.id e.id ≡ false
  other_row b rows e k m =
      let f = candidate-All (λ a. str_eq a.id b.id ≡ false) now locked rows e m k.0 in
      ground (arith, f, eq_iff e.id b.id, eq_iff b.id e.id)

  same_row : (b e : Entry) → b ≡ e → str_eq b.id e.id ≡ true
  same_row b e q = subst (λ v. str_eq b.id v ≡ true) (ap id_of q) (eq_refl b.id)

  pub candidate-found :
      (rows : List Entry) (e : Entry)
      → IsKeyed rows
      → candidate now locked rows ≡ some e
      → find_row id_of e.id rows ≡ some e
  unfolding find_row candidate first_by
  candidate-found [] e k c = absurd (ground (arith, c))
  candidate-found (b ∷ rows) e k c = elim (candidate-cases now locked b rows e c) [
    | inl (q, d) ↦ rw (same_row b e q) (ap some q)
    | inr m ↦ rw (other_row b rows e k m) (candidate-found rows e k.1 m)
  ]

  pub candidate-hit :
      (f : Entry → Entry) (rows : List Entry) (e : Entry)
      → ((a : Entry) → (f a).id ≡ a.id)
      → IsKeyed rows
      → candidate now locked rows ≡ some e
      → (after : List Entry) × (update_row (has_id e.id) f rows ≡ some after)
        × Holds id_of e.id (λ a. a ≡ f e) after
  unfolding update_row candidate first_by
  candidate-hit f [] e i k c = absurd (ground (arith, c))
  candidate-hit f (b ∷ rows) e i k c = elim (candidate-cases now locked b rows e c) [
    | inl (q, d) ↦
        let t = same_row b e q in
        (
          f b ∷ rows,
          (rw t refl),
          Holds-here id_of e.id (λ a. a ≡ f e) (f b) rows (rw (i b) t) (ap f q),
        )
    | inr m ↦
        let (after, u, h) = candidate-hit f rows e i k.1 m in
        let t = other_row b rows e k m in
        (b ∷ after, (rw (t, u) refl), Holds-there id_of e.id (λ a. a ≡ f e) b after t h)
  ]

  -- What Claim hands out and leaves behind.
  pub claim-Holds :
      (rows after : List Entry) (row : Row)
      → IsKeyed rows
      → claim now locked rows ≡ (some row, after)
      → Holds id_of row.id (λ a. a.attempts + 1 ≡ row.attempts) rows
        × Holds id_of row.id (λ a. a.attempts ≡ row.attempts) after
  unfolding claim
  claim-Holds rows after row k c = elim (Option-cases (candidate now locked rows)) [
    | inl n ↦ absurd (ground (arith, c, n))
    | inr (e, m) ↦
        let (s, u, h) = candidate-hit (claimed now) rows e (λ a. refl) k m in
        let d = sym (rw (m, u) at c) in
        let q = sym (some_injective (ap (λ x. x.0) d)) in
        (
          subst (λ r. Holds id_of r.id (λ b. b.attempts + 1 ≡ r.attempts) rows) q
              (e, candidate-found rows e k m, refl),
          subst (λ t. Holds id_of row.id (λ b. b.attempts ≡ row.attempts) t) (sym (ap (λ x. x.1) d))
              (subst (λ r. Holds id_of r.id (λ b. b.attempts ≡ r.attempts) s) q
                (h.0, h.1, ap (λ b. b.attempts) h.2)),
        )
  ]

pub claim-IsKeyed :
    (now : ℕ) (locked : String → Bool) (rows after : List Entry) (row : Option Row)
    → IsKeyed rows
    → claim now locked rows ≡ (row, after)
    → IsKeyed after
unfolding step
claim-IsKeyed now locked rows after row k c =
    subst IsKeyed (ap (λ x. x.1) c) (step-IsKeyed (claims now locked) rows k)

-- A row with at least n attempts.
abbrev AtLeast : ℕ → String → List Entry → Type 0
AtLeast n id rows = Holds id_of id (λ a. n ≤ a.attempts) rows

run-AtLeast :
    (n : ℕ) (id : String) (ts : List Statement) (rows : List Entry)
    → IsKeyed rows
    → AtLeast n id rows
    → AtLeast n id (run ts rows)
run-AtLeast n id = run-Holds_id id (λ a. n ≤ a.attempts) (λ a b o s m r. omega arith)

-- The next claim of a row counts one attempt more.
next_attempt :
    (n : ℕ) (id : String) (rows : List Entry) (next : Row)
    → next.id ≡ id
    → AtLeast n id rows
    → Holds id_of next.id (λ a. a.attempts + 1 ≡ next.attempts) rows
    → n + 1 ≤ next.attempts
next_attempt n id rows next q (w, g, m) (z, h, p) =
    let e = some_injective (sym (subst (λ v. find_row id_of v rows ≡ some z) q h) ∙ g) in
    omega (arith, ap (λ a. a.attempts) e)

-- A worker that claimed a row and was overtaken, since another claim has handed the same row out after
-- any statements, completes nothing after any further statements: Complete reports that no row was
-- affected and leaves the table as it is.
pub overtaken-Lost :
    (rows first second : List Entry) (row next : Row) (ts us : List Statement) (now later : ℕ)
    (locked others : String → Bool) (status : Status) (code : String) (available_at at : ℕ)
    → IsKeyed rows
    → claim now locked rows ≡ (some row, first)
    → claim later others (run ts first) ≡ (some next, second)
    → next.id ≡ row.id
    → complete row status code available_at at (run us second) ≡ (false, run us second)
overtaken-Lost rows first second row next ts us now later locked others status code available_at at
      k c d q =
    let k1 = claim-IsKeyed now locked rows first (some row) k c in
    let k2 = run-IsKeyed ts first k1 in
    let (x, g, p) = (claim-Holds now locked rows first row k c).1 in
    let (before, behind) = claim-Holds later others (run ts first) second next k2 d in
    let (y, h, r) = behind in
    let m = run-AtLeast row.attempts row.id ts first k1 (x, g, omega arith) in
    let n = next_attempt row.attempts row.id (run ts first) next q m before in
    stale-Lost row status code available_at at (run us second)
      (run-IsKeyed us second (claim-IsKeyed later others (run ts first) second (some next) k2 d))
      (run-AtLeast (row.attempts + 1) row.id us second
        (claim-IsKeyed later others (run ts first) second (some next) k2 d)
        (y, subst (λ v. find_row id_of v second ≡ some y) q h, omega arith))
