-- ===== src/Uploads/Complete.antt =====
-- completeUpload and rejectUpload of internal/assets/service.go. The statements of other calls run between
-- its reads and its last statement.
use asset_api.Base.{
  Bool, true, false, ◌&&◌, ◌||◌, Option, none, some, ◌==◌, str_eq, if◌then◌else◌, same_codes,
}
use asset_api.Errors.{Result, ok, err, invalid_upload, not_found, unavailable}
use asset_api.Statuses.{UploadStatus, completed, created, failed, scan_clean, scan_pending}
use asset_api.Uploads.Policy.{NamespacePolicy, policy_for}
use asset_api.Uploads.Store.{Asset, UploadSession, ScanRequest, Rows, complete_upload, fail_upload}
use asset_api.Uploads.Steps.{run}
use asset_api.Uploads.Checks.{
  ◌>>>◌, require, calls, calls_or_rejects, to_lower, source_of, is_in_time, fits_limits, check_deck,
  check_image, is_declared, with_mime, commit_blob, is_same_blob, observed_as, BlobProperties,
  CompleteUploadInput, Answers, Check, rejects, stops, passes,
}

-- All checks of the blob, up to what is committed.
unfoldable pub check_blob :
    Answers → NamespacePolicy → Asset → UploadSession → CompleteUploadInput → Check BlobProperties
check_blob x p a s input = source_of x >>> λ m. require (is_in_time x s m.1) >>> λ _.
    require (fits_limits p a s m.0) >>> λ _. calls x.observed >>> λ o.
    calls_or_rejects x.detected >>> λ mime. check_deck x a >>> λ _. check_image x p >>> λ _.
    require (is_declared m.0 (observed_as o mime) input) >>> λ _.
    commit_blob x m.1 (observed_as o mime) >>> λ c.
    require (is_same_blob (with_mime c (observed_as o mime)) (observed_as o mime)) >>> λ _.
    passes (with_mime c (observed_as o mime))

abbrev pub checked_with :
    Answers
    → Asset
    → UploadSession
    → CompleteUploadInput
    → Option NamespacePolicy
    → Option (Check BlobProperties)
checked_with x a s input none = none
checked_with x a s input (some p) = some (check_blob x p a s input)

-- rejectUpload, which ends in ErrInvalidUpload if all of it succeeds.
abbrev pub deleted_objects : Answers → Rows → Result Asset × Rows
deleted_objects x rows =
    if x.deletes_staging && x.deletes_object
    then (err invalid_upload, rows)
    else (err unavailable, rows)

abbrev pub rejected : Answers → Result (Unit {0}) × Rows → Result Asset × Rows
rejected x (err e, rows) = (err e, rows)
rejected x (ok done, rows) = deleted_objects x rows

unfoldable pub reject_upload : Answers → Rows → Result Asset × Rows
reject_upload x rows = rejected x (fail_upload (run x.between rows))

abbrev pub completing : Asset → Bool → BlobProperties → Asset
completing a trusted c = record a {
  size_bytes = c.size;
  checksum = to_lower c.checksum;
  detected_mime = c.detected_mime;
  etag = c.etag;
  upload_status = completed;
  scan_status = (if trusted then scan_clean else scan_pending);
  is_trusted = trusted || a.is_trusted;
}

abbrev pub scan_request : Answers → Asset → Bool → Option ScanRequest
scan_request x a true = none
scan_request x a false = some (record { event_id = x.event_id; asset_id = a.id; etag = a.etag })

abbrev pub answered : Answers → Asset → Result (Unit {0}) × Rows → Result Asset × Rows
answered x a (err e, rows) = (err e, rows)
answered x a (ok done, rows) = if x.deletes_staging then (ok a, rows) else (err unavailable, rows)

unfoldable pub record_completion :
    Answers → Asset → UploadSession → Bool → BlobProperties → Rows → Result Asset × Rows
record_completion x a s trusted c rows =
    let b = completing a trusted c in
    answered x b (
      complete_upload x.audits b (record s { status = completed }) (scan_request x b trusted)
        (run x.between rows))

abbrev pub concluded :
    Answers
    → Asset
    → UploadSession
    → Bool
    → Rows
    → Option (Check BlobProperties)
    → Result Asset × Rows
concluded x a s trusted rows none = (err invalid_upload, rows)
concluded x a s trusted rows (some rejects) = reject_upload x rows
concluded x a s trusted rows (some (stops e)) = (err e, rows)
concluded x a s trusted rows (some (passes c)) = record_completion x a s trusted c rows

-- The answer to a completed upload.
abbrev pub is_repeat : Asset → CompleteUploadInput → Bool
is_repeat a input =
    a.size_bytes == input.size_bytes
    && same_codes a.checksum (to_lower input.checksum)
    && str_eq a.detected_mime input.mime_type

abbrev pub repeated : Answers → Asset → CompleteUploadInput → Rows → Result Asset × Rows
repeated x a input rows =
    if is_repeat a input
    then if x.deletes_staging then (ok a, rows) else (err unavailable, rows)
    else (err invalid_upload, rows)

abbrev pub complete_read :
    Answers
    → CompleteUploadInput
    → Bool
    → Rows
    → Asset
    → UploadSession
    → UploadStatus
    → Result Asset × Rows
complete_read x input trusted rows a s completed = repeated x a input rows
complete_read x input trusted rows a s failed = deleted_objects x rows
complete_read x input trusted rows a s created =
    concluded x a s trusted rows (checked_with x a s input (policy_for a.namespace))

abbrev pub complete_found :
    Answers
    → CompleteUploadInput
    → Bool
    → Rows
    → Option (Asset × UploadSession)
    → Result Asset × Rows
complete_found x input trusted rows none = (err not_found, rows)
complete_found x input trusted rows (some (a, s)) =
    if a.is_purged then (err not_found, rows) else complete_read x input trusted rows a s s.status

-- `trusted`: the derivation of a watermark is given.
unfoldable pub complete : Answers → CompleteUploadInput → Bool → Rows → Result Asset × Rows
complete x input trusted rows = complete_found x input trusted rows rows.upload
