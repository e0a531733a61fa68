-- ===== src/Audit/Enqueued.antt =====
-- One row per event, and an event that is enqueued again (internal/auditoutbox/store.go).
use Prim.Native.String.{len}
use asset_api.Base.{
  ltb, ◌≢◌, ℕ, String, true, false, ◌≡◌, refl, sym, ap, subst, inl, inr, Option, none, some, List,
  [], ◌∷◌, arith, str_eq, eq_refl, Bool-cases, Option-cases, some_injective, Distinct,
  Distinct-insert, Distinct-update_row, Holds, find_row, Holds-here,
}
use asset_api.Errors.{ok, err, conflict, invalid_input}
use asset_api.Audit.Event.{canonical, decode_event, canonical_with, canonical_from, valid_event}
use asset_api.Audit.Model.{Event, Codec, Fixture, Action, contract_of}
use asset_api.Audit.Outbox.{
  id_of, event_of, Entry, new_entry, insert_entry, enqueue_at, enqueue_tx, same_stored,
}
use asset_api.Audit.Steps.{
  Same, Statement, step, enqueues, run, IsKeyed, run-Holds, step-IsKeyed, step-both,
}

-- No two rows have the same event, whatever statements run.
pub one_per_event :
    (ts : List Statement) (rows : List Entry)
    → IsKeyed rows
    → Distinct event_of rows
    → Distinct event_of (run ts rows)
unfolding run
one_per_event [] rows k d = d
one_per_event (t ∷ ts) rows k d = one_per_event ts (step t rows) (step-IsKeyed t rows k) (
    step-both (Distinct event_of) rows k d (λ new i n. Distinct-insert event_of new rows n d)
      (λ test f after o s m u. Distinct-update_row event_of test f (λ a. (s a).1) rows after u d) t)

-- The stored row that makes an event's second Enqueue succeed.
abbrev Accepts : Codec → Event → String → Entry → Type 0
Accepts k event hash e = same_stored k event hash e.payload_hash (decode_event k e.payload) ≡ true

module _ (k : Codec) (event : Event) where
  -- The text of a valid event is decoded to it.
  abbrev pub RoundTrips : Type 0
  RoundTrips = k.decode (k.encode event) ≡ some event

  -- The payload is the text of the event, and it is not too long.
  canonical-lem :
      (payload hash : String)
      → canonical k event ≡ some (payload, hash)
      → (payload ≡ k.encode event) × (ltb 32768 (len payload) ≡ false)
  unfolding canonical
  canonical-lem payload hash c = from k.fixture c
    where
      checked :
          (fixture : Fixture) (contract : Option Action)
          → canonical_with k fixture event contract ≡ some (payload, hash)
          → (payload ≡ k.encode event) × (ltb 32768 (len payload) ≡ false)
      checked fixture none p = absurd (cc)
      checked fixture (some contract) p = elim (Bool-cases (valid_event k fixture contract event)) [
        | inr f ↦ absurd (ground (arith, p, f))
        | inl t ↦ elim (Bool-cases (ltb 32768 (len (k.encode event)))) [
          | inl y ↦ absurd (ground (arith, p, t, y))
          | inr y ↦
              let q = ap (λ x. x.0) (some_injective (rw (t, y) at p)) in
              (sym q, subst (λ v. ltb 32768 (len v) ≡ false) q y)
        ]
      ]

      from :
          (fixture : Option Fixture)
          → canonical_from k event fixture ≡ some (payload, hash)
          → (payload ≡ k.encode event) × (ltb 32768 (len payload) ≡ false)
      from none p = absurd (cc)
      from (some fixture) p = checked fixture (contract_of event.action fixture.actions) p

  decode-canonical :
      (payload hash : String)
      → RoundTrips
      → canonical k event ≡ some (payload, hash)
      → decode_event k payload ≡ some event
  unfolding decode_event
  decode-canonical payload hash r c =
      let (p, l) = canonical-lem payload hash c in
      let d = subst (λ v. k.decode v ≡ some event) (sym p) r in rw (l, d, c) refl

  own_row :
      (id payload hash : String) (now : ℕ)
      → RoundTrips
      → canonical k event ≡ some (payload, hash)
      → Accepts k event hash (new_entry id event payload hash now)
  own_row id payload hash now r c = rw (decode-canonical payload hash r c, c, eq_refl hash) refl

  insert-Accepts :
      (payload hash : String) (new : Entry) (rows : List Entry) (o : Option Entry)
      → str_eq new.event_id event.event_id ≡ true
      → Accepts k event hash new
      → (insert_entry new rows o).0 ≡ ok tt
      → Holds event_of event.event_id (Accepts k event hash) (insert_entry new rows o).1
  insert-Accepts payload hash new rows none s a p =
      Holds-here event_of event.event_id (Accepts k event hash) new rows s a
  insert-Accepts payload hash new rows (some e) s a p = absurd (cc)

  enqueue_at-Accepts :
      (id payload hash : String) (now : ℕ) (rows : List Entry) (o : Option Entry)
      → RoundTrips
      → canonical k event ≡ some (payload, hash)
      → find_row event_of event.event_id rows ≡ o
      → (enqueue_at k id event now rows payload hash o).0 ≡ ok tt
      → Holds event_of event.event_id
          (Accepts k event hash)
          (enqueue_at k id event now rows payload hash o).1
  enqueue_at-Accepts id payload hash now rows none r c n p =
      insert-Accepts payload hash (new_entry id event payload hash now) rows
        (find_row id_of id rows) (eq_refl event.event_id) (own_row id payload hash now r c) p
  enqueue_at-Accepts id payload hash now rows (some e) r c n p =
      elim (Bool-cases (same_stored k event hash e.payload_hash (decode_event k e.payload))) [
        | inl t ↦ rw t (e, n, t)
        | inr f ↦ absurd (err_ok (rw f at p))
      ]
    where
      err_ok : err conflict ≢ ok (tt {0})
      err_ok q = cc

  enqueue-Accepts :
      (id payload hash : String) (now : ℕ) (rows : List Entry)
      → RoundTrips
      → canonical k event ≡ some (payload, hash)
      → (enqueue_tx k id event now rows).0 ≡ ok tt
      → Holds event_of event.event_id (Accepts k event hash) (enqueue_tx k id event now rows).1
  unfolding enqueue_tx
  enqueue-Accepts id payload hash now rows r c o =
      rw c (enqueue_at-Accepts id payload hash now rows _ r c refl (rw c at o))

  -- An Enqueue of an event that the stored row accepts.
  repeats_on :
      (id payload hash : String) (now : ℕ) (rows : List Entry)
      → canonical k event ≡ some (payload, hash)
      → Holds event_of event.event_id (Accepts k event hash) rows
      → enqueue_tx k id event now rows ≡ (ok tt, rows)
  unfolding enqueue_tx
  repeats_on id payload hash now rows c (e, g, a) = rw (c, g, a) refl

  invalid_err :
      (id : String) (now : ℕ) (rows : List Entry)
      → canonical k event ≡ none
      → (enqueue_tx k id event now rows).0 ≢ ok tt
  unfolding enqueue_tx
  invalid_err id now rows n p = absurd (invalid_ok (rw n at p))
    where
      invalid_ok : err invalid_input ≢ ok (tt {0})
      invalid_ok q = cc

  Accepts-stable :
      (hash : String) (a b : Entry) → Same a b → Accepts k event hash a → Accepts k event hash b
  Accepts-stable hash a b s p = rw (s.3, s.2) p

-- An event that has been enqueued can be enqueued again at any time, under any new row's id and after
-- any statements: if the decoder reads the encoder's text of it back, the repeated Enqueue succeeds and
-- leaves the table as it is.
pub enqueue_repeats :
    (k : Codec) (event : Event) (id other : String) (now later : ℕ) (rows : List Entry)
    (ts : List Statement)
    → RoundTrips k event
    → IsKeyed rows
    → (enqueue_tx k id event now rows).0 ≡ ok tt
    → enqueue_tx k other event later (run ts (enqueue_tx k id event now rows).1)
      ≡ (ok tt, run ts (enqueue_tx k id event now rows).1)
unfolding step
enqueue_repeats k event id other now later rows ts r i o = elim (Option-cases (canonical k event)) [
  | inl n ↦ absurd (invalid_err k event id now rows n o)
  | inr ((payload, hash), c) ↦ repeats_on k event other payload hash later _ c (
      run-Holds event_of event.event_id (Accepts k event hash) (λ a b s. s.1) (λ new old x n. n)
        (λ a b p s m q. Accepts-stable k event hash a b s q) ts _
        (subst IsKeyed refl (step-IsKeyed (enqueues k id event now) rows i))
        (enqueue-Accepts k event id payload hash now rows r c o))
]
