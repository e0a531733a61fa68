-- ===== src/Audit/Outbox.antt =====
-- The table audit_outboxes and its statements: internal/auditoutbox/store.go. `invalid_input` stands for
-- ErrInvalidEvent and `conflict` for ErrConflict; times are in nanoseconds.
use asset_api.Base.{
  first_by, ℕ, ◌+◌, ◌-◌, ◌*◌, String, Bool, true, false, ◌&&◌, ◌||◌, not, Option, none, some, List,
  [], ◌∷◌, ◌==◌, ltb, leb, str_eq, if◌then◌else◌, codes, code_le, update_row, count_if, second,
  find_row,
}
use asset_api.Errors.{Result, ok, err, invalid_input, conflict, unavailable}
use asset_api.Audit.Event.{canonical, decode_event, equivalent_for_enqueue}
use asset_api.Audit.Model.{Event, Codec}

pub data Status : Type 0 where
  pending processing delivered dead_letter : Status

abbrev pub status_is : Status → Status → Bool
status_is pending pending = true
status_is processing processing = true
status_is delivered delivered = true
status_is dead_letter dead_letter = true
status_is _ _ = false

-- A row of the table.
pub record Entry : Type 0 where
  pub id : String
  pub event_id : String
  pub payload : String
  pub payload_hash : String
  pub status : Status
  pub last_error : String
  pub attempts : ℕ
  pub available_at : ℕ
  pub created_at : ℕ
  pub updated_at : ℕ

-- What Claim hands to the worker.
pub record Row : Type 0 where
  pub id : String
  pub event_id : String
  pub payload : String
  pub payload_hash : String
  pub attempts : ℕ

abbrev pub id_of : Entry → String
id_of e = e.id

abbrev pub event_of : Entry → String
event_of e = e.event_id

-- The stored event is intact, and it is the same or equivalent.
abbrev pub same_stored : Codec → Event → String → String → Option Event → Bool
same_stored k event hash stored_hash none = false
same_stored k event hash stored_hash (some decoded) = has_hash (canonical k decoded)
  where
    has_hash : Option (String × String) → Bool
    has_hash none = false
    has_hash (some (p, h)) =
        str_eq h stored_hash && (str_eq stored_hash hash || equivalent_for_enqueue k decoded event)

abbrev pub new_entry : String → Event → String → String → ℕ → Entry
new_entry id event payload hash now = record {
  id = id;
  event_id = event.event_id;
  payload = payload;
  payload_hash = hash;
  status = pending;
  last_error = "";
  attempts = 0;
  available_at = now;
  created_at = now;
  updated_at = now;
}

-- The INSERT, which fails on an id that is taken.
abbrev pub insert_entry : Entry → List Entry → Option Entry → Result (Unit {0}) × List Entry
insert_entry new rows none = (ok tt, new ∷ rows)
insert_entry new rows (some e) = (err unavailable, rows)

abbrev pub enqueue_at :
    Codec
    → String
    → Event
    → ℕ
    → List Entry
    → String
    → String
    → Option Entry
    → Result (Unit {0}) × List Entry
enqueue_at k id event now rows payload hash none =
    insert_entry (new_entry id event payload hash now) rows (find_row id_of id rows)
enqueue_at k id event now rows payload hash (some e) =
    if same_stored k event hash e.payload_hash (decode_event k e.payload)
    then (ok tt, rows)
    else (err conflict, rows)

abbrev pub enqueue_with :
    Codec
    → String
    → Event
    → ℕ
    → List Entry
    → Option (String × String)
    → Result (Unit {0}) × List Entry
enqueue_with k id event now rows none = (err invalid_input, rows)
enqueue_with k id event now rows (some (payload, hash)) =
    enqueue_at k id event now rows payload hash (find_row event_of event.event_id rows)

-- EnqueueTx, with the new row's id; ON CONFLICT the stored row is compared.
unfoldable pub enqueue_tx : Codec → String → Event → ℕ → List Entry → Result (Unit {0}) × List Entry
enqueue_tx k id event now rows = enqueue_with k id event now rows (canonical k event)

abbrev pub is_due : ℕ → Entry → Bool
is_due now e =
    (status_is e.status pending || status_is e.status processing) && leb e.available_at now

abbrev pub earlier : Entry → Entry → Bool
earlier a b =
    ltb a.available_at b.available_at
    || (a.available_at == b.available_at && code_le (codes a.id) (codes b.id))

-- The candidate of Claim. `locked`: the rows that other transactions hold.
abbrev pub is_candidate : ℕ → (String → Bool) → Entry → Bool
is_candidate now locked e = is_due now e && not (locked e.id)

unfoldable pub candidate : ℕ → (String → Bool) → List Entry → Option Entry
candidate now locked rows = first_by (is_candidate now locked) earlier rows

abbrev pub claimed : ℕ → Entry → Entry
claimed now e = record e {
  status = processing;
  attempts = e.attempts + 1;
  available_at = now + 60 * second;
  updated_at = now;
}

abbrev pub row_of : Entry → Row
row_of e = record {
  id = e.id;
  event_id = e.event_id;
  payload = e.payload;
  payload_hash = e.payload_hash;
  attempts = e.attempts;
}

abbrev pub has_id : String → Entry → Bool
has_id id e = str_eq e.id id

-- The table behind an UPDATE, and whether it affected a row.
abbrev pub updated : List Entry → Option (List Entry) → Bool × List Entry
updated rows none = (false, rows)
updated rows (some after) = (true, after)

abbrev pub claim_row : ℕ → List Entry → Option Entry → Option Row × List Entry
claim_row now rows none = (none, rows)
claim_row now rows (some e) =
    (some (row_of (claimed now e)), (updated rows (update_row (has_id e.id) (claimed now) rows)).1)

unfoldable pub claim : ℕ → (String → Bool) → List Entry → Option Row × List Entry
claim now locked rows = claim_row now rows (candidate now locked rows)

abbrev pub takes_completion : Row → Entry → Bool
takes_completion row e =
    has_id row.id e && status_is e.status processing && e.attempts == row.attempts

abbrev pub completed : Status → String → ℕ → ℕ → Entry → Entry
completed status code available_at now e = record e {
  status = status;
  last_error = code;
  available_at = available_at;
  updated_at = now;
}

unfoldable pub complete : Row → Status → String → ℕ → ℕ → List Entry → Bool × List Entry
complete row status code available_at now rows =
    updated rows (update_row (takes_completion row) (completed status code available_at now) rows)

-- Stats; the age of the oldest row in nanoseconds.
pub record PipelineStats : Type 0 where
  pub pending_count : ℕ
  pub oldest_pending : ℕ
  pub dead_letter_count : ℕ

abbrev pub is_waiting : ℕ → Entry → Bool
is_waiting now e =
    status_is e.status pending || (status_is e.status processing && leb e.available_at now)

abbrev older_of : ℕ → Option ℕ → Option ℕ
older_of t none = some t
older_of t (some u) = if ltb t u then some t else some u

unfoldable pub oldest : ℕ → List Entry → Option ℕ
oldest now [] = none
oldest now (e ∷ rows) =
    let rest = oldest now rows in if is_waiting now e then older_of e.created_at rest else rest

abbrev age_of : ℕ → Option ℕ → ℕ
age_of now none = 0
age_of now (some t) = now - t

unfoldable pub stats : ℕ → List Entry → PipelineStats
unfolding oldest
stats now rows = record {
  pending_count = count_if (is_waiting now) rows;
  oldest_pending = age_of now (oldest now rows);
  dead_letter_count = count_if (λ e. status_is e.status dead_letter) rows;
}
