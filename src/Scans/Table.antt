-- ===== src/Scans/Table.antt =====
-- The scan columns of an asset and the statements over them: ClaimAssetScan, ApplyScanResult,
-- ScheduleAssetScanRetry, RecordScanPoison, FailScanToPoison and MarkScanPoisonForwarded of
-- internal/postgres/store.go. Requeue has the other three statements. Texts that are only stored are left
-- out, except the failure category.
use asset_api.Base.{
  ℕ, ◌+◌, String, Bool, true, false, ◌&&◌, Option, none, some, List, ◌∷◌, not, str_eq, ◌==◌,
  if◌then◌else◌, is_some, any, lookup, insert, null_or_due, null_or_past, update_row, find_row,
}
use asset_api.Errors.{Result, ok, err, conflict}
use asset_api.Statuses.{ScanStatus, scan_clean, scan_failed, scan_is, scan_pending}

-- `is_image`: of a type that derivatives are made of.
pub record Asset : Type 0 where
  pub id : String
  pub owner_service : String
  pub etag : String
  pub scan_event_id : String
  pub scan_status : ScanStatus
  pub failure_category : String
  pub scan_attempts : ℕ
  pub next_attempt_at : Option ℕ
  pub claimed_until : Option ℕ
  pub is_completed : Bool
  pub is_deleted : Bool
  pub is_purged : Bool
  pub is_image : Bool
  pub awaits_processing : Bool
  pub created_at : ℕ

-- deleted_at IS NULL AND purged_at IS NULL
abbrev pub is_present : Asset → Bool
is_present a = not a.is_deleted && not a.is_purged

-- The tables: assets, the events that have a result, the events of the scan outbox, the derivative outbox
-- by asset and etag, and for each poison id whether it has been forwarded.
pub record Tables : Type 0 where
  pub assets : List Asset
  pub events : List String
  pub requests : List String
  pub outbox : List (String × String)
  pub poisons : List (String × Bool)

pub record ScanResult : Type 0 where
  pub event_id : String
  pub asset_id : String
  pub status : ScanStatus
  pub failure_category : String
  pub etag : String
  pub expected_attempt : ℕ

abbrev pub asset_key : Asset → String
asset_key a = a.id

abbrev pub find_asset : String → List Asset → Option Asset
find_asset id rows = find_row asset_key id rows

abbrev pub unpurged : Option Asset → Option Asset
unpurged none = none
unpurged (some a) = if a.is_purged then none else some a

-- GetAsset, which hides a purged asset.
abbrev pub get_asset : String → List Asset → Option Asset
get_asset id rows = unpurged (find_asset id rows)

abbrev pub may_claim : String → String → String → ℕ → Asset → Bool
may_claim event_id asset_id etag now a =
    str_eq a.id asset_id
    && str_eq a.etag etag
    && str_eq a.scan_event_id event_id
    && a.is_completed
    && scan_is a.scan_status scan_pending
    && is_present a
    && null_or_due now a.next_attempt_at
    && null_or_past now a.claimed_until

abbrev pub claimed : ℕ → Asset → Asset
claimed until a = record a { scan_attempts = a.scan_attempts + 1; claimed_until = some until }

pub data ScanClaimState : Type 0 where
  scan_claimed scan_busy scan_terminal : ScanClaimState

abbrev pub refused_claim : String → String → Option Asset → Option Asset × ScanClaimState
refused_claim event_id etag none = (none, scan_terminal)
refused_claim event_id etag (some a) =
    if scan_is a.scan_status scan_pending && str_eq a.etag etag && str_eq a.scan_event_id event_id
    then (some a, scan_busy)
    else (some a, scan_terminal)

abbrev pub claim_after :
    String
    → String
    → String
    → Tables
    → Option (List Asset)
    → (Option Asset × ScanClaimState) × Tables
claim_after event_id asset_id etag s none =
    (refused_claim event_id etag (get_asset asset_id s.assets), s)
claim_after event_id asset_id etag s (some rows) =
    ((get_asset asset_id rows, scan_claimed), record s { assets = rows })

unfoldable pub claim_asset_scan :
    String → String → String → ℕ → ℕ → Tables → (Option Asset × ScanClaimState) × Tables
claim_asset_scan event_id asset_id etag now lease s =
    claim_after event_id asset_id etag s
      (update_row (may_claim event_id asset_id etag now) (claimed (now + lease)) s.assets)

-- WHERE id=… AND scan_status='pending' AND etag=… AND scan_attempts=… AND scan_event_id=… AND present
abbrev pub takes_result : ScanResult → Asset → Bool
takes_result r a =
    str_eq a.id r.asset_id
    && scan_is a.scan_status scan_pending
    && str_eq a.etag r.etag
    && a.scan_attempts == r.expected_attempt
    && str_eq a.scan_event_id r.event_id
    && is_present a

abbrev pub settled : ScanStatus → ScanResult → Asset → Asset
settled status r a = record a {
  scan_status = status;
  failure_category = r.failure_category;
  claimed_until = none;
}

abbrev pub has_event : String → List String → Bool
has_event e events = any (λ x. str_eq x e) events

abbrev pub gets_derivative : Asset → Bool
gets_derivative a =
    a.is_completed
    && scan_is a.scan_status scan_clean
    && a.awaits_processing
    && a.is_image
    && is_present a

abbrev pub has_entry : String → String → List (String × String) → Bool
has_entry id etag outbox = any (λ e. str_eq e.0 id && str_eq e.1 etag) outbox

-- INSERT INTO asset_derivative_outbox … SELECT … ON CONFLICT DO NOTHING
abbrev pub enqueue : Option Asset → List (String × String) → List (String × String)
enqueue none outbox = outbox
enqueue (some a) outbox =
    if gets_derivative a && not (has_entry a.id a.etag outbox)
    then (a.id, a.etag) ∷ outbox
    else outbox

abbrev pub apply_after : ScanResult → Tables → Option (List Asset) → Result Bool × Tables
apply_after r s none = (err conflict, s)
apply_after r s (some rows) = (
  ok true,
  record s {
    assets = rows;
    events = r.event_id ∷ s.events;
    outbox = enqueue (find_asset r.asset_id rows) s.outbox;
  },
)

-- Whether this call recorded the result.
unfoldable pub apply_scan_result : ScanResult → Tables → Result Bool × Tables
apply_scan_result r s =
    if has_event r.event_id s.events
    then (ok false, s)
    else apply_after r s (update_row (takes_result r) (settled r.status r) s.assets)

abbrev pub takes_retry : String → ℕ → Asset → Bool
takes_retry asset_id expected a =
    str_eq a.id asset_id
    && a.scan_attempts == expected
    && scan_is a.scan_status scan_pending
    && is_present a

abbrev pub postponed : String → ℕ → Asset → Asset
postponed category next a = record a {
  failure_category = category;
  next_attempt_at = some next;
  claimed_until = none;
}

abbrev pub retry_after : Tables → Option (List Asset) → Result (Unit {0}) × Tables
retry_after s none = (err conflict, s)
retry_after s (some rows) = (ok tt, record s { assets = rows })

unfoldable pub schedule_scan_retry : String → ℕ → String → ℕ → Tables → Result (Unit {0}) × Tables
schedule_scan_retry asset_id expected category next s =
    retry_after s (update_row (takes_retry asset_id expected) (postponed category next) s.assets)

abbrev pub add_poison : String → List (String × Bool) → List (String × Bool)
add_poison id poisons = if is_some (lookup id poisons) then poisons else insert id false poisons

abbrev pub not_forwarded : Option Bool → Bool
not_forwarded none = true
not_forwarded (some b) = not b

-- Whether the poison is still to be forwarded.
unfoldable pub record_scan_poison : String → Tables → Bool × Tables
record_scan_poison id s =
    let poisons : List (String × Bool) = add_poison id s.poisons in
    (not_forwarded (lookup id poisons), record s { poisons = poisons })

abbrev pub fail_after : ScanResult → String → Tables → Option (List Asset) → Result Bool × Tables
fail_after r id s none = (err conflict, s)
fail_after r id s (some rows) =
    let (forward, t) =
      record_scan_poison id (record s { assets = rows; events = r.event_id ∷ s.events }) in
    (ok forward, t)

unfoldable pub fail_scan_to_poison : ScanResult → String → Tables → Result Bool × Tables
fail_scan_to_poison r id s =
    if has_event r.event_id s.events
    then (let (forward, t) = record_scan_poison id s in (ok forward, t))
    else fail_after r id s (update_row (takes_result r) (settled scan_failed r) s.assets)

abbrev pub mark : String → List (String × Bool) → List (String × Bool)
mark id poisons = if is_some (lookup id poisons) then insert id true poisons else poisons

unfoldable pub mark_poison_forwarded : String → Tables → Tables
mark_poison_forwarded id s = record s { poisons = mark id s.poisons }
