-- ===== src/Audit/Drained.antt =====
-- What ProcessOnce makes of the due rows (internal/auditoutbox/worker.go).
use asset_api.Base.{
  ◌<◌, All, ◌⊎◌, ℕ, zero, suc, ◌-◌, ◌≤◌, String, Bool, true, false, ◌≡◌, refl, subst, inl, inr,
  List, arith, Option-cases, All-mono, count_if,
}
use asset_api.Errors.{ok}
use asset_api.Audit.Model.{Codec}
use asset_api.Audit.Outbox.{Entry, row_of, candidate, claimed, claim, completed, is_due, Status}
use asset_api.Audit.Worker.{Round, outcome, process_one, process_loop, process_once}
use asset_api.Audit.Settled.{SettledAs}
use asset_api.Audit.Steps.{candidate-All, IsKeyed}
use asset_api.Audit.Counting.{none-count}
use asset_api.Audit.Rounds.{one_settles, outcome_settles, candidate-due, Among, all_Among, IsQuiet}

module _ (t : ℕ) (k : Codec) (private_https : Bool) (rounds : ℕ → Round)
    (quiet : (m : ℕ) → IsQuiet t (rounds m)) (before : List Entry) where
  -- The row was due before, and is as the outcome of a round says.
  pub record IsSettled (a : Entry) : Type 0 where
    pub round : ℕ
    pub in_range : round < 20
    pub row : Entry
    pub was_there : Among row before
    pub was_due : is_due t row ≡ true
    pub settled : SettledAs (outcome k private_https (row_of (claimed t row)) (rounds round)) row a

  abbrev pub Stands : Entry → Type 0
  Stands a = Among a before ⊎ IsSettled a

  settled_not_due : (a : Entry) → IsSettled a → is_due t a ≡ false
  settled_not_due a x =
      let o = outcome k private_https (row_of (claimed t x.row)) (rounds x.round) in
      let n =
        subst (λ v. is_due v (completed o.0 o.1 o.2 0 a) ≡ false) (quiet x.round).ends_now
          (outcome_settles k private_https (row_of (claimed t x.row)) (rounds x.round) 0 a) in
      due_by o a x.settled n
    where
      due_by :
          (o : Status × String × ℕ) (b : Entry)
          → SettledAs o x.row b
          → is_due t (completed o.0 o.1 o.2 0 b) ≡ false
          → is_due t b ≡ false
      due_by (status, code, available_at) b (s, p, q, u, v) n = rw (p, u) n

  -- Only a row of before is due.
  due_before : (a : Entry) → Stands a → is_due t a ≡ true → Among a before
  due_before a (inl m) d = m
  due_before a (inr x) d = absurd (ground (arith, d, settled_not_due a x))

  loop_settles :
      (n : ℕ) (rows : List Entry)
      → n ≤ 20
      → IsKeyed rows
      → All Stands rows
      → (after : List Entry) × (process_loop k private_https rounds n rows ≡ (ok tt, after))
        × (count_if (is_due t) after ≡ count_if (is_due t) rows - n)
        × All Stands after
  unfolding process_loop process_one claim
  loop_settles zero rows l i p = (rows, refl, omega arith, p)
  loop_settles (suc n) rows l i p =
      elim (Option-cases (candidate (rounds n).claimed_at (rounds n).locked rows)) [
        | inl c ↦ (
          rows,
          (rw c refl),
          omega (
            arith,
            none-count t (rounds n).locked rows (quiet n).unlocked (rw (quiet n).claims_now at c),
          ),
          p,
        )
        | inr (e, c) ↦
            let c' = rw (quiet n).claims_now at c in
            let due = candidate-due t (rounds n).locked rows e c' in
            let there = due_before e (candidate-All Stands t (rounds n).locked rows e c' p) due in
            let (s, x, j, m, q) =
              one_settles t k private_https (rounds n) rows e (quiet n) i c Stands p (λ a z.
                inr (record {
                  round = n;
                  in_range = omega (arith, l);
                  row = e;
                  was_there = there;
                  was_due = due;
                  settled = z;
                })) in
            let (after, d, y, w) = loop_settles n s (omega (arith, l)) j q in
            (after, (rw x d), omega (arith, m, y), w)
      ]

-- With the clock standing still and no other worker, ProcessOnce returns without an error, whatever the
-- audit service answers. Twenty of the rows that were due are due no more, or all of them if there are fewer;
-- and each row is a row of before as it was, or a row that was due, with the status, the code and the time
-- that the outcome of one of the twenty rounds gives it, and one more attempt. The ids of the rows are
-- distinct, and no transaction of another holds a row.
pub drains :
    (t : ℕ) (k : Codec) (private_https : Bool) (rounds : ℕ → Round) (rows : List Entry)
    (quiet : (m : ℕ) → IsQuiet t (rounds m))
    → IsKeyed rows
    → (after : List Entry) × (process_once k private_https rounds rows ≡ (ok tt, after))
      × (count_if (is_due t) after ≡ count_if (is_due t) rows - 20)
      × All (Stands t k private_https rounds quiet rows) after
unfolding process_once
drains t k private_https rounds rows quiet i =
    loop_settles t k private_https rounds quiet rows 20 rows (omega arith) i
      (All-mono (λ a. Among a rows) _ rows (λ a m. inl m) (all_Among rows))
