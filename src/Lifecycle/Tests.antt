-- ===== src/Lifecycle/Tests.antt =====
-- Runs of the purge at concrete inputs: internal/lifecycle/worker.go and internal/postgres/store.go.
use asset_api.Base.{
  ℕ, zero, suc, ◌+◌, ◌*◌, String, ◌≡◌, refl, Bool, false, Option, none, some, List, [], ◌∷◌, codes,
  map, All, ◌++◌, length, update_row, first_by, second,
}
use asset_api.Statuses.{completed, processing_ready, scan_clean}
use asset_api.Lifecycle.Model.{Facts, PurgeRow, day, may_purge}
use asset_api.Lifecycle.Table.{
  row_keys, unique_strings, unique_from, keys_with, claim_purge, complete_purge, retry_purge,
  delete_expired_purge, delete_rows,
}
use asset_api.Lifecycle.Worker.{
  World, PurgeStep, changes, claims, deletes, finishes, expires, run, step,
}
use asset_api.Lifecycle.Purged.{RowGone, purged-RowGone}

abbrev live : Facts
live = record {
  upload_status = completed;
  scan_status = scan_clean;
  processing_status = processing_ready;
  session = none;
  items = [];
  created_at = 0;
  deleted_at = none;
  personal_download_until = none;
  scan_claimed_until = none;
  processing_claimed_until = none;
}

abbrev deleted_facts : Facts
deleted_facts = record live { deleted_at = some 5 }

abbrev cover : PurgeRow
cover = record {
  id = "a";
  namespace = "cms.news.cover";
  owner_service = "hhc-web-api";
  object_key = codes "d/original";
  staging_object_key = codes "";
  derivative_keys = codes "d/derivatives/small.jpg" ∷ [];
  facts = live;
  details = record {
    owner_id = "o";
    original_file_name = "f.jpg";
    checksum_sha256 = "";
    etag = "";
    scan_details = "";
    processing_error = "";
  };
  updated_at = 3;
  purged_at = none;
  purge_next_attempt_at = none;
  purge_claimed_until = none;
  purge_error = "";
}

abbrev unlocked : String → Bool
unlocked id = false

abbrev start : World
start = record { rows = cover ∷ []; tickets = []; deleted = [] }

-- A live asset is left alone.
live_left : (run (claims 10 unlocked ∷ []) start).tickets ≡ []
unfolding run step claim_purge may_purge first_by
live_left = refl

-- The original, three derivatives, and three more of each of five attempts: each key once.
cover_keys : length (unique_strings (row_keys cover)) ≡ 19
unfolding row_keys unique_from
cover_keys = refl

abbrev deletions : ℕ → List PurgeStep
deletions zero = []
deletions (suc n) = deletes 0 none ∷ deletions n

-- The 19 deletions are steps of the worker that has the first ticket.
abbrev purge_cover : List PurgeStep
purge_cover = changes "a" deleted_facts ∷ claims 10 unlocked ∷ (deletions 19 ++ (finishes 0 ∷ []))

cover_purged : map (λ r. r.purged_at) (run purge_cover start).rows ≡ some 10 ∷ []
unfolding run step claim_purge may_purge first_by unique_from row_keys keys_with update_row
    complete_purge
cover_purged = refl

-- One deletion fails, and the asset is left for a later attempt.
cover_postponed :
    map {B = Option ℕ × Option ℕ}
      (λ r. (r.purged_at, r.purge_next_attempt_at))
      (run
        (changes "a" deleted_facts
          ∷ claims 10 unlocked
          ∷ deletes 0 none
          ∷ deletes 0 (some "timeout")
          ∷ finishes 0
          ∷ [])
        start).rows
    ≡ (none, some (10 + 60 * second)) ∷ []
unfolding run step claim_purge may_purge first_by unique_from row_keys keys_with update_row
    retry_purge
cover_postponed = refl

-- After half a year the row of the purged asset goes.
cover_removed : (run (purge_cover ++ (expires (10 + 181 * day) unlocked ∷ [])) start).rows ≡ []
unfolding run step claim_purge may_purge first_by unique_from row_keys keys_with update_row
    complete_purge delete_expired_purge delete_rows
cover_removed = refl

purged-RowGone_example : All (RowGone (run purge_cover start).deleted) (run purge_cover start).rows
purged-RowGone_example = purged-RowGone purge_cover (cover ∷ []) [] ((λ d. absurd (cc)), tt)
