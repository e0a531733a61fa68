-- ===== src/Uploads/Tests.antt =====
-- An upload that is completed, one that is rejected, and the properties at concrete inputs.
use asset_api.Base.{List, ℕ, true, false, ◌≡◌, refl, none, some, [], ◌∷◌, codes, lookup}
use asset_api.Errors.{ok, err, invalid_upload, not_found}
use asset_api.Statuses.{completed, created, failed, scan_pending, scan_failed}
use asset_api.Uploads.Policy.{policy_for, allows_size}
use asset_api.Uploads.Store.{Asset, UploadSession, Rows, complete_upload, fail_upload}
use asset_api.Uploads.Steps.{
  Statement, completes, fails, scans, requeues, deletes, step, run, requeue_failed_scan,
}
use asset_api.Uploads.Complete.{check_blob, complete, record_completion, reject_upload}
use asset_api.Uploads.Checks.{BlobProperties, CompleteUploadInput, Answers, equal_fold, to_lower}
use asset_api.Uploads.Checked.{IsDeclared, complete-IsDeclared}
use asset_api.Uploads.Requests.{run-IsExact}
use asset_api.Uploads.Requested.{IsExact}
use asset_api.Uploads.Repeats.{complete_repeats}

abbrev asset : Asset
asset = record {
  id = "a";
  namespace = "cms.weekly.pdf";
  owner_service = "hhc-web-api";
  original_file_name = "week.pdf";
  object_key = "assets/a/original";
  expected_mime = "application/pdf";
  detected_mime = "";
  size_bytes = 0;
  checksum = [];
  etag = "";
  upload_status = created;
  scan_status = scan_pending;
  is_trusted = false;
  scan_event_id = "";
  is_deleted = false;
  is_purged = false;
}

abbrev session : UploadSession
session = record {
  caller_service = "hhc-web-api";
  idempotency_key = "k";
  fingerprint = "f";
  staging_object_key = "assets/a/staging/s";
  max_size_bytes = 1000;
  status = created;
  expires_at = 60;
}

abbrev rows : Rows
rows = record { upload = some (asset, session); requests = [] }

abbrev input : CompleteUploadInput
input = record { size_bytes = 12; checksum = codes "AB01"; mime_type = "application/pdf" }

abbrev blob : BlobProperties
blob = record { size = 12; etag = "t"; detected_mime = ""; checksum = codes "ab01" }

-- The staged blob is there, and everything else succeeds.
abbrev answers : ℕ → Answers
answers now = record {
  final_metadata = err not_found;
  staging_metadata = ok (record { size = 12; etag = "t" });
  observed = ok blob;
  detected = ok "application/pdf";
  deck = ok true;
  image = ok none;
  closes = true;
  is_cancelled = false;
  committed = ok (record blob { etag = "u" });
  final_again = err not_found;
  inspected_again = err not_found;
  deletes_staging = true;
  deletes_object = true;
  audits = true;
  expiry_clock = now;
  event_id = "e";
  between = [];
}

abbrev done : Asset
done = record asset {
  detected_mime = "application/pdf";
  size_bytes = 12;
  checksum = codes "ab01";
  etag = "u";
  upload_status = completed;
}

abbrev done_rows : Rows
done_rows = record {
  upload = some (record done { scan_event_id = "e" }, record session { status = completed });
  requests = record { event_id = "e"; asset_id = "a"; etag = "u" } ∷ [];
}

in_time : complete (answers 60) input false rows ≡ (ok done, done_rows)
unfolding complete check_blob equal_fold to_lower record_completion complete_upload policy_for
    allows_size lookup run
in_time = refl

-- A staged blob that arrives too late is rejected.
too_late : complete (answers 61) input false rows ≡ (
  err invalid_upload,
  record {
    upload = some (record asset { upload_status = failed }, record session { status = failed });
    requests = [];
  },
)
unfolding complete check_blob equal_fold to_lower reject_upload fail_upload policy_for allows_size
    lookup run
too_late = refl

complete-IsDeclared_example : IsDeclared input done
complete-IsDeclared_example =
    complete-IsDeclared (answers 60) input false rows done_rows done in_time

-- The scan fails and is requeued.
abbrev rescanned : List Statement
rescanned =
    completes true done session (some (record { event_id = "e"; asset_id = "a"; etag = "u" }))
    ∷ fails
    ∷ scans scan_failed
    ∷ requeues true "a" "hhc-web-api" (record { event_id = "f"; asset_id = "a"; etag = "u" })
    ∷ []

run-IsExact_example : IsExact (run rescanned rows)
run-IsExact_example = run-IsExact rescanned rows (refl, (refl, refl))

two_requests :
    (run rescanned rows).requests
    ≡ record { event_id = "f"; asset_id = "a"; etag = "u" }
      ∷ record { event_id = "e"; asset_id = "a"; etag = "u" }
      ∷ []
unfolding run step complete_upload fail_upload requeue_failed_scan
two_requests = refl

complete_repeats_example :
    (b : Asset) × (complete (answers 99) input false (run (deletes ∷ fails ∷ []) done_rows)
      ≡ (ok b, run (deletes ∷ fails ∷ []) done_rows))
    × IsDeclared input b
complete_repeats_example =
    complete_repeats (answers 60) (answers 99) input false false rows done_rows done
      (deletes ∷ fails ∷ []) refl (refl, (refl, refl)) in_time (refl, (refl, tt)) refl
