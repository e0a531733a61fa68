-- ===== src/Uploads/Steps.antt =====
-- The statements of other calls over the rows of one upload: besides those of the upload itself, the result
-- of a scan, RequeueFailedScan, a deletion and CompletePurge of internal/postgres/store.go.
use asset_api.Base.{
  Bool, true, false, ◌&&◌, ◌||◌, not, Option, none, some, List, [], ◌∷◌, String, str_eq,
  if◌then◌else◌,
}
use asset_api.Errors.{Result, err, invalid_input}
use asset_api.Statuses.{ScanStatus, completed, scan_failed, scan_is, scan_pending, upload_is}
use asset_api.Uploads.Store.{
  Asset, UploadSession, ScanRequest, Rows, complete_upload, fail_upload, is_avatar, insert_request,
  commit_completion,
}

-- What a worker has found of an asset that awaits a scan, which it has claimed, so that it is completed. The
-- signature that it records is the scanner's, not the mark of the service.
abbrev pub scanned : ScanStatus → Asset → Asset
scanned status a = record a { scan_status = status; is_trusted = false }

abbrev pub scan_row : ScanStatus → Rows → Option (Asset × UploadSession) → Rows
scan_row status rows none = rows
scan_row status rows (some (row, session)) =
    if upload_is row.upload_status completed
      && scan_is row.scan_status scan_pending
      && not row.is_deleted
      && not row.is_purged
    then record rows { upload = some (scanned status row, session) }
    else rows

abbrev pub requeued : String → Asset → Asset
requeued event_id a = record a {
  scan_status = scan_pending;
  is_trusted = false;
  scan_event_id = event_id;
}

abbrev pub is_requeued : String → ScanRequest → Asset → Bool
is_requeued owner r row =
    str_eq row.id r.asset_id
    && str_eq row.owner_service owner
    && str_eq row.etag r.etag
    && scan_is row.scan_status scan_failed
    && not row.is_deleted
    && not row.is_purged

-- The update, the INSERT of the request and the audit event are one transaction.
abbrev pub requeue_row :
    Bool → String → ScanRequest → Rows → Option (Asset × UploadSession) → Result (Unit {0}) × Rows
requeue_row audits owner r rows none = (err invalid_input, rows)
requeue_row audits owner r rows (some (row, session)) =
    if is_requeued owner r row
    then commit_completion audits (requeued r.event_id row) session rows
        (insert_request (some r) rows.requests)
    else (err invalid_input, rows)

unfoldable pub requeue_failed_scan :
    Bool → String → String → ScanRequest → Rows → Result (Unit {0}) × Rows
requeue_failed_scan audits asset_id owner r rows =
    if str_eq r.event_id "" || not (str_eq r.asset_id asset_id) || str_eq r.etag ""
    then (err invalid_input, rows)
    else requeue_row audits owner r rows rows.upload

-- CompletePurge, which erases what the avatar of an account says of it.
abbrev pub purged : Asset → Asset
purged a = record a {
  is_purged = true;
  original_file_name = if is_avatar a then "" else a.original_file_name;
  checksum = if is_avatar a then [] else a.checksum;
  etag = if is_avatar a then "" else a.etag;
}

-- A completion completes both rows; a deletion and a purge mark the asset.
pub data Statement : Type 0 where
  completes : Bool → Asset → UploadSession → Option ScanRequest → Statement
  fails : Statement
  scans : ScanStatus → Statement
  requeues : Bool → String → String → ScanRequest → Statement
  deletes purges : Statement

abbrev pub mark : (Asset → Asset) → Option (Asset × UploadSession) → Option (Asset × UploadSession)
mark f none = none
mark f (some (a, s)) = some (f a, s)

unfoldable pub step : Statement → Rows → Rows
step (completes audits a s request) rows =
    (complete_upload audits (record a { upload_status = completed })
      (record s { status = completed }) request rows).1
step fails rows = (fail_upload rows).1
step (scans status) rows = scan_row status rows rows.upload
step (requeues audits asset_id owner r) rows = (requeue_failed_scan audits asset_id owner r rows).1
step deletes rows = record rows { upload = mark (λ a. record a { is_deleted = true }) rows.upload }
step purges rows = record rows { upload = mark purged rows.upload }

unfoldable pub run : List Statement → Rows → Rows
run [] rows = rows
run (t ∷ ts) rows = run ts (step t rows)
