-- ===== src/Scans/Requeue.antt =====
-- The statements over scans that no queue message asks for: ClaimPendingScan, ScheduleScanRetry and
-- RequeueFailedScan of internal/postgres/store.go. The mark of a replay on a poison is left out, since
-- nothing reads it here.
use asset_api.Base.{
  ℕ, ◌+◌, String, Bool, ◌&&◌, ◌||◌, not, Option, none, some, List, ◌∷◌, str_eq, ◌==◌, ltb, leb,
  if◌then◌else◌, any, update_row, first_by, null_or_due, null_or_past,
}
use asset_api.Errors.{Result, ok, err, conflict, not_found, invalid_input, unavailable}
use asset_api.Statuses.{scan_failed, scan_is, scan_pending}
use asset_api.Uploads.Store.{ScanRequest}
use asset_api.Scans.Table.{Asset, Tables, is_present, claimed, get_asset, has_event, takes_retry}

-- `locked`: the rows that other transactions hold.
abbrev pub is_pending : ℕ → (String → Bool) → Asset → Bool
is_pending now locked a =
    a.is_completed
    && scan_is a.scan_status scan_pending
    && is_present a
    && null_or_due now a.next_attempt_at
    && null_or_past now a.claimed_until
    && not (locked a.id)

-- COALESCE(scan_next_attempt_at, created_at)
abbrev waits_since : Asset → Option ℕ → ℕ
waits_since a none = a.created_at
waits_since a (some t) = t

abbrev pub waits_longer : Asset → Asset → Bool
waits_longer a b =
    ltb (waits_since a a.next_attempt_at) (waits_since b b.next_attempt_at)
    || (waits_since a a.next_attempt_at == waits_since b b.next_attempt_at
        && leb a.created_at b.created_at)

-- The SELECT of the row, which locks it, with the UPDATE that finds it again by its key.
abbrev pub is_row : ℕ → (String → Bool) → String → Asset → Bool
is_row now locked id a = str_eq a.id id && is_pending now locked a

abbrev pub pending_after : String → Tables → Option (List Asset) → Option Asset × Tables
pending_after id s none = (get_asset id s.assets, s)
pending_after id s (some rows) = (get_asset id rows, record s { assets = rows })

abbrev pub claim_row : ℕ → ℕ → (String → Bool) → Tables → Option Asset → Option Asset × Tables
claim_row now lease locked s none = (none, s)
claim_row now lease locked s (some a) =
    pending_after a.id s (update_row (is_row now locked a.id) (claimed (now + lease)) s.assets)

unfoldable pub claim_pending_scan : ℕ → ℕ → (String → Bool) → Tables → Option Asset × Tables
claim_pending_scan now lease locked s =
    claim_row now lease locked s (first_by (is_pending now locked) waits_longer s.assets)

abbrev pub delayed : ℕ → Asset → Asset
delayed next a = record a { next_attempt_at = some next; claimed_until = none }

-- Whether there is an asset with the id that is not deleted.
abbrev is_there : String → Asset → Bool
is_there id a = str_eq a.id id && is_present a

abbrev pub delay_after : String → Tables → Option (List Asset) → Result (Unit {0}) × Tables
delay_after id s none = (if any (is_there id) s.assets then err conflict else err not_found, s)
delay_after id s (some rows) = (ok tt, record s { assets = rows })

-- ScheduleScanRetry
unfoldable pub schedule_pending_retry : String → ℕ → ℕ → Tables → Result (Unit {0}) × Tables
schedule_pending_retry asset_id expected next s =
    delay_after asset_id s (update_row (takes_retry asset_id expected) (delayed next) s.assets)

-- Here, too, the SELECT that locks the row and the UPDATE are one.
abbrev pub takes_requeue : String → String → String → Asset → Bool
takes_requeue asset_id owner_service etag a =
    str_eq a.id asset_id
    && str_eq a.owner_service owner_service
    && str_eq a.etag etag
    && scan_is a.scan_status scan_failed
    && is_present a

abbrev pub requeued : String → ℕ → Asset → Asset
requeued event_id now a = record a {
  scan_status = scan_pending;
  failure_category = "";
  scan_event_id = event_id;
  scan_attempts = 0;
  next_attempt_at = some now;
  claimed_until = none;
}

-- The INSERT of the request, which fails on an event that is there; `audits`: the audit event, if there is
-- one, is enqueued.
abbrev pub requeue_after : Bool → String → Tables → Option (List Asset) → Result (Unit {0}) × Tables
requeue_after audits event_id s none = (err invalid_input, s)
requeue_after audits event_id s (some rows) =
    if not (has_event event_id s.requests) && audits
    then (ok tt, record s { assets = rows; requests = event_id ∷ s.requests })
    else (err unavailable, s)

-- The time of the request is that of the call, and never zero.
unfoldable pub requeue_failed_scan :
    Bool → String → String → ScanRequest → ℕ → Tables → Result (Unit {0}) × Tables
requeue_failed_scan audits asset_id owner_service r now s =
    if str_eq r.event_id "" || not (str_eq r.asset_id asset_id) || str_eq r.etag ""
    then (err invalid_input, s)
    else requeue_after audits r.event_id s (
        update_row (takes_requeue asset_id owner_service r.etag) (requeued r.event_id now) s.assets)
