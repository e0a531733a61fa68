-- ===== src/Lifecycle/Model.antt =====
-- An asset as the purge sees it, and the WHERE clause of ClaimPurge (internal/postgres/store.go). Object
-- keys are lists of character codes; times are nanoseconds.
use Prim.Native.String.{String}
use asset_api.Base.{
  ℕ, ◌+◌, ◌*◌, Bool, true, false, ◌&&◌, ◌||◌, not, Option, none, some, List, ltb, leb, str_eq,
  is_none, is_some, any, null_or_due, null_or_past, second,
}
use asset_api.Statuses.{
  ProcessingStatus, ScanStatus, UploadStatus, completed, created, failed, processing_over,
  processing_refused, scan_failed, scan_infected, scan_pending, upload_is,
}

abbrev pub scan_over : ScanStatus → Bool
scan_over scan_pending = false
scan_over _ = true

abbrev pub scan_refused : ScanStatus → Bool
scan_refused scan_infected = true
scan_refused scan_failed = true
scan_refused _ = false

pub record Session : Type 0 where
  pub status : UploadStatus
  pub expires_at : ℕ

-- What the other parts of the service change: statuses, claims and times. `items` has the time of deletion
-- of each file in a collection that shows the asset.
pub record Facts : Type 0 where
  pub upload_status : UploadStatus
  pub scan_status : ScanStatus
  pub processing_status : ProcessingStatus
  pub session : Option Session
  pub items : List (Option ℕ)
  pub created_at : ℕ
  pub deleted_at : Option ℕ
  pub personal_download_until : Option ℕ
  pub scan_claimed_until : Option ℕ
  pub processing_claimed_until : Option ℕ

-- What the avatar of an erased account loses.
pub record Details : Type 0 where
  pub owner_id : String
  pub original_file_name : String
  pub checksum_sha256 : String
  pub etag : String
  pub scan_details : String
  pub processing_error : String

pub record PurgeRow : Type 0 where
  pub id : String
  pub namespace : String
  pub owner_service : String
  pub object_key : List ℕ
  pub staging_object_key : List ℕ
  pub derivative_keys : List (List ℕ)
  pub facts : Facts
  pub details : Details
  pub updated_at : ℕ
  pub purged_at : Option ℕ
  pub purge_next_attempt_at : Option ℕ
  pub purge_claimed_until : Option ℕ
  pub purge_error : String

abbrev pub day : ℕ
day = 86400 * second

-- `t < now` of a column that may be NULL.
abbrev pub is_before : ℕ → Option ℕ → Bool
is_before now none = false
is_before now (some t) = ltb t now

abbrev pub session_over : ℕ → Option Session → Bool
session_over now none = false
session_over now (some s) = not (upload_is s.status created) || ltb s.expires_at now

abbrev pub session_expired : ℕ → Option Session → Bool
session_expired now none = false
session_expired now (some s) = ltb s.expires_at now

-- A file that is in a collection, or was until 30 days ago.
abbrev pub is_kept : ℕ → Option ℕ → Bool
is_kept now none = true
is_kept now (some t) = ltb now (t + 30 * day)

abbrev pub is_personal : PurgeRow → Bool
is_personal r = str_eq r.namespace "presenter.personal"

-- What holds a file of a personal library back.
abbrev pub is_idle : ℕ → Facts → Bool
is_idle now f =
    not (any (is_kept now) f.items)
    && (ltb (f.created_at + day) now
        && (session_over now f.session
            && (null_or_past now f.scan_claimed_until
                && null_or_past now f.processing_claimed_until)))

-- Why an asset goes.
abbrev pub has_ended : ℕ → PurgeRow → Facts → Bool
has_ended now r f =
    is_some f.deleted_at
    || (is_personal r
        && (upload_is f.upload_status completed
            && (scan_over f.scan_status && processing_over f.processing_status)))
    || (upload_is f.upload_status created && session_expired now f.session)
    || upload_is f.upload_status failed
    || (scan_refused f.scan_status && ltb (r.updated_at + 7 * day) now)
    || (processing_refused f.processing_status && ltb (r.updated_at + 7 * day) now)

-- The WHERE clause of ClaimPurge; `locked`: the rows that other transactions hold.
unfoldable pub may_purge : ℕ → (String → Bool) → PurgeRow → Bool
may_purge now locked r =
    is_none r.purged_at
    && (null_or_past now r.facts.personal_download_until
        && ((not (is_personal r) || is_idle now r.facts)
            && (null_or_due now r.purge_next_attempt_at
                && (null_or_past now r.purge_claimed_until
                    && (has_ended now r r.facts && not (locked r.id))))))

abbrev pub updated_first : PurgeRow → PurgeRow → Bool
updated_first a b = leb a.updated_at b.updated_at
