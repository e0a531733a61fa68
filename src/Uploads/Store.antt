-- ===== src/Uploads/Store.antt =====
-- The rows of one upload and the statements over them: CreateUpload, CompleteUpload and FailUpload of
-- internal/postgres/store.go. The asset and its session share the id, which is the primary key, so the
-- tables are one optional pair, with the requests for a scan of the asset. Texts that are only stored are
-- left out, as is the time of a request, which is never zero; checksums are lists of character codes.
use asset_api.Base.{
  ℕ, String, Bool, ◌&&◌, ◌||◌, not, Option, none, some, List, ◌∷◌, str_eq, if◌then◌else◌, any,
  is_some,
}
use asset_api.Errors.{Result, ok, err, invalid_input, not_found, conflict, unavailable}
use asset_api.Statuses.{
  ScanStatus, UploadStatus, completed, created, failed, scan_clean, scan_is, upload_is,
}

pub record Asset : Type 0 where
  pub id : String
  pub namespace : String
  pub owner_service : String
  pub original_file_name : String
  pub object_key : String
  pub expected_mime : String
  pub detected_mime : String
  pub size_bytes : ℕ
  pub checksum : List ℕ
  pub etag : String
  pub upload_status : UploadStatus
  pub scan_status : ScanStatus
  pub is_trusted : Bool
  pub scan_event_id : String
  pub is_deleted : Bool
  pub is_purged : Bool

pub record UploadSession : Type 0 where
  pub caller_service : String
  pub idempotency_key : String
  pub fingerprint : String
  pub staging_object_key : String
  pub max_size_bytes : ℕ
  pub status : UploadStatus
  pub expires_at : ℕ

pub record ScanRequest : Type 0 where
  pub event_id : String
  pub asset_id : String
  pub etag : String

-- The rows, and the events in the scan outbox that are of this asset.
pub record Rows : Type 0 where
  pub upload : Option (Asset × UploadSession)
  pub requests : List ScanRequest

-- CreateUpload. `cleaned`: the account's assets have been cleaned up; `audits`: the audit event, if there
-- is one, is enqueued.
abbrev pub is_avatar : Asset → Bool
is_avatar a = str_eq a.owner_service "account-api" && str_eq a.namespace "account.avatar"

unfoldable pub create_upload : Bool → Bool → Asset → UploadSession → Rows → Result (Unit {0}) × Rows
create_upload cleaned audits a s rows =
    if is_avatar a && cleaned
    then (err conflict, rows)
    else if is_some rows.upload || not audits
    then (err unavailable, rows)
    else (ok tt, record rows { upload = some (a, s) })

-- The values that CompleteUpload writes.
abbrev pub completed_asset : Asset → String → Asset → Asset
completed_asset a event_id row = record row {
  detected_mime = a.detected_mime;
  size_bytes = a.size_bytes;
  checksum = a.checksum;
  etag = a.etag;
  upload_status = a.upload_status;
  scan_status = a.scan_status;
  is_trusted = a.is_trusted;
  scan_event_id = event_id;
}

abbrev pub completed_session : UploadSession → UploadSession → UploadSession
completed_session s row = record row { status = s.status }

-- Marked clean by the service itself.
abbrev pub is_trusted_asset : Asset → Bool
is_trusted_asset a = scan_is a.scan_status scan_clean && a.is_trusted

abbrev pub valid_request : Asset → Option ScanRequest → Bool
valid_request a none = is_trusted_asset a
valid_request a (some r) =
    not (is_trusted_asset a)
    && not (str_eq r.event_id "")
    && str_eq r.asset_id a.id
    && not (str_eq r.etag "")
    && str_eq r.etag a.etag

abbrev pub has_request : String → List ScanRequest → Bool
has_request event_id requests = any (λ r. str_eq r.event_id event_id) requests

abbrev pub event_id_of : Option ScanRequest → String
event_id_of none = ""
event_id_of (some r) = r.event_id

-- The INSERT into the outbox, which fails on an event that is there.
abbrev pub insert_request : Option ScanRequest → List ScanRequest → Option (List ScanRequest)
insert_request none requests = some requests
insert_request (some r) requests =
    if has_request r.event_id requests then none else some (r ∷ requests)

abbrev pub commit_completion :
    Bool → Asset → UploadSession → Rows → Option (List ScanRequest) → Result (Unit {0}) × Rows
commit_completion audits a s rows none = (err unavailable, rows)
commit_completion audits a s rows (some requests) =
    if audits
    then (ok tt, record rows { upload = some (a, s); requests = requests })
    else (err unavailable, rows)

abbrev pub complete_row :
    Bool
    → Asset
    → UploadSession
    → Option ScanRequest
    → Rows
    → Option (Asset × UploadSession)
    → Result (Unit {0}) × Rows
complete_row audits a s request rows none = (err not_found, rows)
complete_row audits a s request rows (some (row, session)) =
    if row.is_purged || not (str_eq row.id a.id)
    then (err not_found, rows)
    else if upload_is row.upload_status completed && upload_is session.status completed
    then (ok tt, rows)
    else if not (upload_is row.upload_status created) || not (upload_is session.status created)
    then (err conflict, rows)
    else commit_completion audits (completed_asset a (event_id_of request) row)
        (completed_session s session) rows (insert_request request rows.requests)

unfoldable pub complete_upload :
    Bool → Asset → UploadSession → Option ScanRequest → Rows → Result (Unit {0}) × Rows
complete_upload audits a s request rows =
    if valid_request a request
    then complete_row audits a s request rows rows.upload
    else (err invalid_input, rows)

abbrev pub fail_row : Rows → Option (Asset × UploadSession) → Result (Unit {0}) × Rows
fail_row rows none = (err not_found, rows)
fail_row rows (some (row, session)) =
    if row.is_purged
    then (err not_found, rows)
    else if upload_is row.upload_status failed && upload_is session.status failed
    then (ok tt, rows)
    else if not (upload_is row.upload_status created) || not (upload_is session.status created)
    then (err conflict, rows)
    else (
      ok tt,
      record rows {
        upload = some (record row { upload_status = failed }, record session { status = failed });
      },
    )

unfoldable pub fail_upload : Rows → Result (Unit {0}) × Rows
fail_upload rows = fail_row rows rows.upload
