-- ===== src/Audit/Rounds.antt =====
-- One round of ProcessOnce with no other worker (internal/auditoutbox/worker.go).
use asset_api.Base.{
  All, ◌⊎◌, ◌∷◌, first_by-test, ℕ, ◌+◌, ◌≤◌, String, Bool, true, false, ◌≡◌, refl, sym, ◌∙◌, ap,
  subst, inl, inr, some, List, [], arith, update_row, All-mono, count_if, if-both, ◌&&◌,
  Distinct-update_row, Holds,
}
use asset_api.Audit.Model.{Codec}
use asset_api.Audit.Client.{
  AppendResult, append_accepted, append_duplicate, append_conflict, append_retry,
  append_dead_letter,
}
use asset_api.Audit.Outbox.{
  is_candidate, earlier, id_of, Entry, Row, row_of, candidate, claimed, has_id, claim,
  takes_completion, completed, complete, is_due, Status, status_is, processing,
}
use asset_api.Audit.Worker.{
  Round, outcome, completion, process_row, process_one, retry_delay, is_intact,
}
use asset_api.Audit.Settled.{SettledAs, settled-All}
use asset_api.Audit.Steps.{run, IsKeyed, claim_test}
use asset_api.Audit.Fenced.{Holds-All, candidate-hit}
use asset_api.Audit.Counting.{count_drop, count_same, hits}

pub retry_delay_positive : (n : ℕ) → 1 ≤ retry_delay n
unfolding retry_delay
retry_delay_positive n = ground arith

-- What a round makes of a row is not due at its time.
pub completion_settles :
    (row : Row) (r : Round) (s : AppendResult) (at : ℕ) (e : Entry)
    → is_due r.now
        (completed (completion row r s).0 (completion row r s).1 (completion row r s).2 at e)
      ≡ false
completion_settles row r append_accepted at e = refl
completion_settles row r append_duplicate at e = refl
completion_settles row r append_retry at e = ground (arith, retry_delay_positive row.attempts)
completion_settles row r append_conflict at e = refl
completion_settles row r append_dead_letter at e = refl

pub outcome_settles :
    (k : Codec) (private_https : Bool) (row : Row) (r : Round) (at : ℕ) (e : Entry)
    → is_due r.now (
        completed
          (outcome k private_https row r).0
          (outcome k private_https row r).1
          (outcome k private_https row r).2
          at
          e)
      ≡ false
unfolding outcome
outcome_settles k private_https row r at e =
    if-both (λ (x : Status × String × ℕ). is_due r.now (completed x.0 x.1 x.2 at e) ≡ false)
      (is_intact k row) _ _ (completion_settles row r _ at e) refl

-- A round with the clock standing still and no other worker.
pub record IsQuiet (t : ℕ) (r : Round) : Type 0 where
  pub claims_now : r.claimed_at ≡ t
  pub ends_now : r.now ≡ t
  pub alone : r.between ≡ []
  pub unlocked : (id : String) → r.locked id ≡ false

pub candidate-due :
    (t : ℕ) (locked : String → Bool) (rows : List Entry) (e : Entry)
    → candidate t locked rows ≡ some e
    → is_due t e ≡ true
unfolding candidate
candidate-due t locked rows e c = due_of (first_by-test (is_candidate t locked) earlier rows e c)
  where
    due_of : is_candidate t locked e ≡ true → is_due t e ≡ true
    due_of h = ground (arith, h)

-- One of the rows.
abbrev pub Among : Entry → List Entry → Type 0
Among a [] = ⊥
Among a (b ∷ rows) = (a ≡ b) ⊎ Among a rows

pub all_Among : (rows : List Entry) → All (λ a. Among a rows) rows
all_Among [] = tt
all_Among (b ∷ rows) =
    (inl refl, All-mono (λ a. Among a rows) _ rows (λ a m. inr m) (all_Among rows))

module _ (t : ℕ) where
  claim_drops :
      (locked : String → Bool) (rows s : List Entry) (e : Entry)
      → IsKeyed rows
      → candidate t locked rows ≡ some e
      → update_row (has_id e.id) (claimed t) rows ≡ some s
      → count_if (is_due t) s + 1 ≡ count_if (is_due t) rows
  claim_drops locked rows s e i c u = count_drop (is_due t) (has_id e.id) (claimed t) rows s u (
      All-mono (λ a. has_id e.id a ≡ (has_id e.id a && is_due t a)) _ rows
        (λ a q h. (ground (arith, q, h), ground arith)) (claim_test t locked rows e c i))

  claims_row :
      (locked : String → Bool) (rows s : List Entry) (e : Entry)
      → candidate t locked rows ≡ some e
      → update_row (has_id e.id) (claimed t) rows ≡ some s
      → claim t locked rows ≡ (some (row_of (claimed t e)), s)
  unfolding claim
  claims_row locked rows s e c u = rw (c, u) refl

  completion_keeps :
      (r : Round) (row : Row) (o : Status × String × ℕ) (s : List Entry)
      → ((e : Entry) → is_due t (completed o.0 o.1 o.2 r.now e) ≡ false)
      → IsKeyed s
      → Holds id_of row.id
          (λ a.
            (a.attempts ≡ row.attempts)
            × (is_due t a ≡ false)
            × (status_is a.status processing ≡ true))
          s
      → (after : List Entry) × (update_row (takes_completion row) (completed o.0 o.1 o.2 r.now) s
          ≡ some after)
        × (complete row o.0 o.1 o.2 r.now s ≡ (true, after))
        × IsKeyed after
        × (count_if (is_due t) after ≡ count_if (is_due t) s)
  unfolding complete
  completion_keeps r row o s d i h =
      let (after, u) =
        hits (is_due t) (takes_completion row) (completed o.0 o.1 o.2 r.now) row.id _ s
          (λ a x y. ground (arith, x, y)) h in
      (
        after,
        u,
        rw u refl,
        Distinct-update_row id_of (takes_completion row) (completed o.0 o.1 o.2 r.now) (λ a. refl) s
            after u i,
        count_same (is_due t) (takes_completion row) (completed o.0 o.1 o.2 r.now) s after u (
            All-mono _ _ s (λ a x y. d a ∙ sym (x (ground (arith, y))).1)
              (Holds-All row.id
                (λ a.
                  (a.attempts ≡ row.attempts)
                  × (is_due t a ≡ false)
                  × (status_is a.status processing ≡ true))
                s i h)),
      )

  pub one_settles :
      (k : Codec) (private_https : Bool) (r : Round) (rows : List Entry) (e : Entry)
      → IsQuiet t r
      → IsKeyed rows
      → candidate r.claimed_at r.locked rows ≡ some e
      → (P : Entry → Type 0) → All P rows
      → ((a : Entry) → SettledAs (outcome k private_https (row_of (claimed t e)) r) e a → P a)
      → (after : List Entry) × (process_one k private_https r rows ≡ (some true, after))
        × IsKeyed after
        × (count_if (is_due t) after + 1 ≡ count_if (is_due t) rows)
        × All P after
  unfolding process_one claim run
  one_settles k private_https r rows e q i c P p settled =
      let row = row_of (claimed t e) in
      let o = outcome k private_https row r in
      let c' = rw q.claims_now at c in
      let (s, u, h) = candidate-hit t r.locked (claimed t) rows e (λ a. refl) i c' in
      let x =
        subst
          (λ a.
            (a.attempts ≡ row.attempts)
            × (is_due t a ≡ false)
            × (status_is a.status processing ≡ true))
          (sym h.2) (refl, ground arith, refl) in
      let settles = λ (b : Entry).
        subst (λ v. is_due v (completed o.0 o.1 o.2 r.now b) ≡ false) q.ends_now
          (outcome_settles k private_https row r r.now b) in
      let (after, v, d, j, n) =
        completion_keeps r row o s settles
          (Distinct-update_row id_of (has_id e.id) (claimed t) (λ a. refl) rows s u i)
          (h.0, h.1, x) in
      let handed_out =
        ap (λ v. claim v r.locked rows) q.claims_now ∙ claims_row r.locked rows s e c' u in
      let ended = ap (λ b. complete row o.0 o.1 o.2 r.now (run b s)) q.alone ∙ d in
      (
        after,
        ap (process_row k private_https r) handed_out ∙ ap (λ v. (some v.0, v.1)) ended,
        j,
        omega (arith, n, claim_drops r.locked rows s e i c' u),
        settled-All P t r.now e o rows s after i u h v p settled,
      )
