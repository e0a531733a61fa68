-- ===== src/Requests/Table.antt =====
-- The statements over asset_scan_outbox and asset_derivative_outbox, which have the same columns and the
-- same statements (internal/postgres/store.go). The error texts are left out.
use asset_api.Base.{
  ℕ, ◌+◌, String, Bool, ◌&&◌, ◌||◌, not, Option, none, some, List, ◌==◌, ltb, leb, str_eq, is_none,
  if◌then◌else◌, any, update_row, first_by, kept_or, null_or_past,
}
use asset_api.Errors.{Result, ok, err, conflict, not_found}

pub record OutboxRow : Type 0 where
  pub event_id : String
  pub asset_id : String
  pub asset_etag : String
  pub attempts : ℕ
  pub created_at : ℕ
  pub available_at : ℕ
  pub claimed_until : Option ℕ
  pub delivered_at : Option ℕ

-- The INSERT of a new request.
abbrev pub new_row : String → String → String → ℕ → OutboxRow
new_row event_id asset_id etag created_at = record {
  event_id = event_id;
  asset_id = asset_id;
  asset_etag = etag;
  attempts = 0;
  created_at = created_at;
  available_at = created_at;
  claimed_until = none;
  delivered_at = none;
}

pub record Request : Type 0 where
  pub event_id : String
  pub asset_id : String
  pub etag : String
  pub attempts : ℕ
  pub created_at : ℕ

-- `locked`: the rows that other transactions hold.
abbrev pub may_claim : ℕ → (String → Bool) → OutboxRow → Bool
may_claim now locked r =
    is_none r.delivered_at
    && leb r.available_at now
    && null_or_past now r.claimed_until
    && not (locked r.event_id)

abbrev pub precedes : OutboxRow → OutboxRow → Bool
precedes a b =
    ltb a.available_at b.available_at
    || (a.available_at == b.available_at && leb a.created_at b.created_at)

abbrev pub leased : ℕ → OutboxRow → OutboxRow
leased until r = record r { attempts = r.attempts + 1; claimed_until = some until }

abbrev pub request_of : OutboxRow → Request
request_of r = record {
  event_id = r.event_id;
  asset_id = r.asset_id;
  etag = r.asset_etag;
  attempts = r.attempts + 1;
  created_at = r.created_at;
}

abbrev pub has_event : String → OutboxRow → Bool
has_event event_id r = str_eq r.event_id event_id

abbrev pub claim_row : ℕ → List OutboxRow → Option OutboxRow → Option Request × List OutboxRow
claim_row until rows none = (none, rows)
claim_row until rows (some r) =
    (some (request_of r), kept_or rows (update_row (has_event r.event_id) (leased until) rows))

unfoldable pub claim_request :
    ℕ → ℕ → (String → Bool) → List OutboxRow → Option Request × List OutboxRow
claim_request now lease locked rows =
    claim_row (now + lease) rows (first_by (may_claim now locked) precedes rows)

-- scanRequestTransitionError
abbrev pub transition_error : String → List OutboxRow → Result (Unit {0})
transition_error event_id rows =
    if any (has_event event_id) rows then err conflict else err not_found

abbrev pub exactly_one :
    String → List OutboxRow → Option (List OutboxRow) → Result (Unit {0}) × List OutboxRow
exactly_one event_id rows none = (transition_error event_id rows, rows)
exactly_one event_id rows (some after) = (ok tt, after)

-- The row of a claim that is not delivered.
abbrev pub is_current : String → ℕ → OutboxRow → Bool
is_current event_id attempt r =
    has_event event_id r && r.attempts == attempt && is_none r.delivered_at

abbrev pub delivered : ℕ → OutboxRow → OutboxRow
delivered now r = record r { delivered_at = some now; claimed_until = none }

unfoldable pub mark_delivered : String → ℕ → ℕ → List OutboxRow → Result (Unit {0}) × List OutboxRow
mark_delivered event_id expected_attempt now rows =
    exactly_one event_id rows
      (update_row (is_current event_id expected_attempt) (delivered now) rows)

abbrev pub postponed : ℕ → OutboxRow → OutboxRow
postponed next r = record r { available_at = next; claimed_until = none }

unfoldable pub schedule_retry : String → ℕ → ℕ → List OutboxRow → Result (Unit {0}) × List OutboxRow
schedule_retry event_id expected_attempt next rows =
    exactly_one event_id rows
      (update_row (is_current event_id expected_attempt) (postponed next) rows)

-- The methods of the store on each of the tables.
abbrev pub claim_scan_request :
    ℕ → ℕ → (String → Bool) → List OutboxRow → Option Request × List OutboxRow
claim_scan_request now lease locked rows = claim_request now lease locked rows

abbrev pub claim_derivative_request :
    ℕ → ℕ → (String → Bool) → List OutboxRow → Option Request × List OutboxRow
claim_derivative_request now lease locked rows = claim_request now lease locked rows

abbrev pub mark_scan_request_delivered :
    String → ℕ → ℕ → List OutboxRow → Result (Unit {0}) × List OutboxRow
mark_scan_request_delivered event_id expected now rows = mark_delivered event_id expected now rows

abbrev pub mark_derivative_request_delivered :
    String → ℕ → ℕ → List OutboxRow → Result (Unit {0}) × List OutboxRow
mark_derivative_request_delivered event_id expected now rows =
    mark_delivered event_id expected now rows

abbrev pub schedule_scan_request_retry :
    String → ℕ → ℕ → List OutboxRow → Result (Unit {0}) × List OutboxRow
schedule_scan_request_retry event_id expected next rows = schedule_retry event_id expected next rows

abbrev pub schedule_derivative_request_retry :
    String → ℕ → ℕ → List OutboxRow → Result (Unit {0}) × List OutboxRow
schedule_derivative_request_retry event_id expected next rows =
    schedule_retry event_id expected next rows
