-- ===== src/Audit/Steps.antt =====
-- The statements over the outbox in any order, and what all of them keep.
use asset_api.Base.{
  if◌then◌else◌, first_by-cases, first_by-All, ℕ, ◌≤◌, String, Bool, true, false, ◌≡◌, refl, sym,
  ◌∙◌, ◌&&◌, All, All-mono, update_row-test, inl, inr, subst, ap, Option, none, some, List, [], ◌∷◌,
  arith, ◌⊎◌, eq_iff, str_eq, update_row, if-both, Distinct, Distinct-insert, Distinct-update_row,
  Holds, Holds-insert, Holds-update_row, find_row,
}
use asset_api.Errors.{Result}
use asset_api.Audit.Event.{canonical, decode_event}
use asset_api.Audit.Model.{Event, Codec}
use asset_api.Audit.Outbox.{
  status_is, pending, processing, earlier, is_candidate, id_of, event_of, insert_entry, earlier,
  Status, Entry, Row, enqueue_at, enqueue_with, enqueue_tx, candidate, claimed, has_id, updated,
  claim_row, claim, takes_completion, completed, complete, same_stored, is_due,
}

-- What no statement changes in a row.
abbrev pub Same : Entry → Entry → Type 0
Same a b =
    (b.id ≡ a.id)
    × (b.event_id ≡ a.event_id)
    × (b.payload ≡ a.payload)
    × (b.payload_hash ≡ a.payload_hash)

abbrev pub is_open : Entry → Bool
is_open e = if status_is e.status pending then true else status_is e.status processing

-- Enqueue with the new row's id; Claim; Complete.
pub data Statement : Type 0 where
  enqueues : Codec → String → Event → ℕ → Statement
  claims : ℕ → (String → Bool) → Statement
  completes : Row → Status → String → ℕ → ℕ → Statement

unfoldable pub step : Statement → List Entry → List Entry
step (enqueues k id event now) rows = (enqueue_tx k id event now rows).1
step (claims now locked) rows = (claim now locked rows).1
step (completes row status code available_at now) rows =
    (complete row status code available_at now rows).1

unfoldable pub run : List Statement → List Entry → List Entry
run [] rows = rows
run (t ∷ ts) rows = run ts (step t rows)

abbrev pub IsKeyed : List Entry → Type 0
IsKeyed = Distinct id_of

pub candidate-cases :
    (now : ℕ) (locked : String → Bool) (b : Entry) (rows : List Entry) (e : Entry)
    → candidate now locked (b ∷ rows) ≡ some e
    → ((b ≡ e) × (is_due now b ≡ true)) ⊎ (candidate now locked rows ≡ some e)
unfolding candidate
candidate-cases now locked b rows e c =
    elim (first_by-cases (is_candidate now locked) earlier b rows e c) [
      | inl (q, t) ↦ inl (q, ground (arith, t))
      | inr m ↦ inr m
    ]

-- The candidate is one of the rows.
pub candidate-All :
    (Q : Entry → Type 0) (now : ℕ) (locked : String → Bool) (rows : List Entry) (e : Entry)
    → candidate now locked rows ≡ some e
    → All Q rows
    → Q e
unfolding candidate
candidate-All Q now locked rows e c h = first_by-All (is_candidate now locked) earlier Q rows e c h

other_id : (a b e : Entry) → str_eq a.id b.id ≡ false → b.id ≡ e.id → has_id e.id a ≡ false
other_id a b e f q = subst (λ v. str_eq a.id v ≡ false) q f

-- The row that Claim updates is the candidate.
pub claim_test :
    (now : ℕ) (locked : String → Bool) (rows : List Entry) (e : Entry)
    → candidate now locked rows ≡ some e
    → IsKeyed rows
    → All (λ a. has_id e.id a ≡ (has_id e.id a && is_due now a)) rows
claim_test now locked [] e c k = tt
claim_test now locked (b ∷ rows) e c k = elim (candidate-cases now locked b rows e c) [
  | inl (q, d) ↦ (
    ground (arith, d),
    All-mono (λ a. str_eq a.id b.id ≡ false) _ rows (λ a f. rw (other_id a b e f (ap id_of q)) refl)
        k.0,
  )
  | inr m ↦ (
    let f = candidate-All (λ a. str_eq a.id b.id ≡ false) now locked rows e m k.0 in
        ground (arith, f, eq_iff e.id b.id, eq_iff b.id e.id),
    claim_test now locked rows e m k.1,
  )
]

module _ (P : List Entry → Type 0) (rows : List Entry) (keyed : IsKeyed rows) (here : P rows)
    (inserts : (new : Entry)
      → find_row id_of new.id rows ≡ none
      → find_row event_of new.event_id rows ≡ none
      → P (new ∷ rows))
    (updates : (test : Entry → Bool) (f : Entry → Entry) (after : List Entry)
      → ((a : Entry) → test a ≡ true → is_open a ≡ true)
      → ((a : Entry) → Same a (f a))
      → ((a : Entry) → a.attempts ≤ (f a).attempts)
      → update_row test f rows ≡ some after
      → P after) where
  updated-kept :
      (o : Option (List Entry))
      → ((after : List Entry) → o ≡ some after → P after)
      → P (updated rows o).1
  updated-kept none f = here
  updated-kept (some after) f = f after refl

  insert-kept :
      (new : Entry) (o : Option Entry) → (o ≡ none → P (new ∷ rows)) → P (insert_entry new rows o).1
  insert-kept new none f = f refl
  insert-kept new (some e) f = here

  enqueue_at-kept :
      (k : Codec) (id : String) (event : Event) (now : ℕ) (payload hash : String) (o : Option Entry)
      → o ≡ find_row event_of event.event_id rows
      → P (enqueue_at k id event now rows payload hash o).1
  enqueue_at-kept k id event now payload hash none n =
      insert-kept _ (find_row id_of id rows) (λ i. inserts _ i (sym n))
  enqueue_at-kept k id event now payload hash (some e) n =
      if-both (λ (x : Result (Unit {0}) × List Entry). P x.1)
        (same_stored k event hash e.payload_hash (decode_event k e.payload)) _ _ here here

  enqueue-kept :
      (k : Codec) (id : String) (event : Event) (now : ℕ) (o : Option (String × String))
      → P (enqueue_with k id event now rows o).1
  enqueue-kept k id event now none = here
  enqueue-kept k id event now (some (payload, hash)) =
      enqueue_at-kept k id event now payload hash _ refl

  claim-kept :
      (now : ℕ) (locked : String → Bool) (o : Option Entry)
      → o ≡ candidate now locked rows
      → P (claim_row now rows o).1
  claim-kept now locked none c = here
  claim-kept now locked (some e) c = updated-kept _ (λ after u.
      updates (λ a. has_id e.id a && is_due now a) (claimed now) after (λ a t. ground arith)
        (λ a. (refl, refl, refl, refl)) (λ a. omega arith)
        (sym (update_row-test _ _ (claimed now) rows (claim_test now locked rows e (sym c) keyed))
          ∙ u))

  pub step-both : (t : Statement) → P (step t rows)
  unfolding step enqueue_tx claim complete
  step-both (enqueues k id event now) = enqueue-kept k id event now (canonical k event)
  step-both (claims now locked) = claim-kept now locked _ refl
  step-both (completes row status code available_at now) = updated-kept _ (λ after u.
      updates (takes_completion row) (completed status code available_at now) after
        (λ a t. ground arith) (λ a. (refl, refl, refl, refl)) (λ a. omega arith) u)

pub step-IsKeyed : (t : Statement) (rows : List Entry) → IsKeyed rows → IsKeyed (step t rows)
step-IsKeyed t rows k =
    step-both IsKeyed rows k k (λ new i n. Distinct-insert id_of new rows i k)
      (λ test f after o s m u. Distinct-update_row id_of test f (λ a. (s a).0) rows after u k) t

pub run-IsKeyed : (ts : List Statement) (rows : List Entry) → IsKeyed rows → IsKeyed (run ts rows)
unfolding run
run-IsKeyed [] rows k = k
run-IsKeyed (t ∷ ts) rows k = run-IsKeyed ts (step t rows) (step-IsKeyed t rows k)

-- A column that is unique, and a predicate that no statement makes false.
module _ (key : Entry → String) (value : String) (R : Entry → Type 0)
    (keeps : (a b : Entry) → Same a b → key b ≡ key a)
    (fresh : (new : Entry) (rows : List Entry)
      → find_row id_of new.id rows ≡ none
      → find_row event_of new.event_id rows ≡ none
      → find_row key (key new) rows ≡ none)
    (stable : (a b : Entry)
      → is_open a ≡ true
      → Same a b
      → a.attempts ≤ b.attempts
      → R a
      → R b) where
  step-Holds :
      (t : Statement) (rows : List Entry)
      → IsKeyed rows
      → Holds key value R rows
      → Holds key value R (step t rows)
  step-Holds t rows k h =
      step-both (Holds key value R) rows k h
        (λ new i n. Holds-insert key value R new rows (fresh new rows i n) h)
        (λ test f after o s m u.
          Holds-update_row key value R test f (λ a. keeps a (f a) (s a))
            (λ a t r. stable a (f a) (o a t) (s a) (m a) r) rows after u h)
        t

  pub run-Holds :
      (ts : List Statement) (rows : List Entry)
      → IsKeyed rows
      → Holds key value R rows
      → Holds key value R (run ts rows)
  unfolding run
  run-Holds [] rows k h = h
  run-Holds (t ∷ ts) rows k h =
      run-Holds ts (step t rows) (step-IsKeyed t rows k) (step-Holds t rows k h)
