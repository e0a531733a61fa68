-- ===== src/Scans/Tests.antt =====
-- Scans at concrete inputs, with the instances of their theorems.
use asset_api.Base.{
  List, ℕ, true, false, ◌≡◌, refl, some, none, [], ◌∷◌, arith, update_row, find_row,
}
use asset_api.Errors.{ok, err, conflict}
use asset_api.Statuses.{ScanStatus, scan_clean, scan_failed, scan_infected, scan_pending}
use asset_api.Scans.Table.{
  schedule_scan_retry, Asset, Tables, ScanResult, find_asset, claim_asset_scan, apply_scan_result,
  scan_claimed, record_scan_poison, fail_scan_to_poison,
}
use asset_api.Scans.Steps.{ScanStep, applies, retries, fails, claims, requeues, step, run}
use asset_api.Scans.Verdicts.{verdict_stands}
use asset_api.Scans.Job.{
  Encounter, ScanEvent, World, found_infected, acked, decode_event, apply_and_ack, run_once,
}
use asset_api.Scans.Job.Acked.{ack_accounts}
use asset_api.Scans.Job.Accounts.{has_ack, Accounted}
use asset_api.Scans.Job.Clean.{clean_needs_scan}
use asset_api.Scans.Job.Unclean.{NoneClean}
use asset_api.Scans.Overtaken.{Fenced, overtaken-Fenced, overtaken_retry}
use asset_api.Scans.Requeue.{requeue_failed_scan}
use asset_api.Uploads.Store.{ScanRequest}

abbrev uploaded : Asset
uploaded = record {
  id = "a1";
  owner_service = "cms";
  etag = "e1";
  scan_event_id = "v1";
  scan_status = scan_pending;
  failure_category = "";
  scan_attempts = 1;
  next_attempt_at = none;
  claimed_until = some 100;
  is_completed = true;
  is_deleted = false;
  is_purged = false;
  is_image = true;
  awaits_processing = true;
  created_at = 0;
}

abbrev tables : Tables
tables = record {
  assets = uploaded ∷ [];
  events = [];
  requests = "v1" ∷ [];
  outbox = [];
  poisons = [];
}

abbrev verdict : ScanStatus → ℕ → ScanResult
verdict s n = record {
  event_id = "v1";
  asset_id = "a1";
  status = s;
  failure_category = "";
  etag = "e1";
  expected_attempt = n;
}

applied : (apply_scan_result (verdict scan_infected 1) tables).0 ≡ ok true
unfolding apply_scan_result update_row find_row
applied = refl

abbrev is_infected : Asset
is_infected = record uploaded { scan_status = scan_infected; claimed_until = none }

abbrev again : ScanRequest
again = record { event_id = "v2"; asset_id = "a1"; etag = "e1" }

verdict_stands_example :
    (b : Asset) × (find_asset "a1"
        (run
          (applies (verdict scan_clean 1) ∷ requeues true "a1" "cms" again 300 ∷ [])
          (record tables { assets = is_infected ∷ [] })).assets
      ≡ some b)
    × (b.scan_status ≡ scan_infected)
unfolding find_row
verdict_stands_example =
    verdict_stands "a1" (applies (verdict scan_clean 1) ∷ requeues true "a1" "cms" again 300 ∷ [])
      (record tables { assets = is_infected ∷ [] }) is_infected refl (λ e. cc) (λ e. absurd (cc))

taken_over : (claim_asset_scan "v1" "a1" "e1" 200 60 tables).0.1 ≡ scan_claimed
unfolding claim_asset_scan update_row find_row
taken_over = refl

-- The second worker fails, the scan is requeued, and a third worker claims it.
abbrev meanwhile : List ScanStep
meanwhile =
    fails (verdict scan_failed 2) "p2"
    ∷ requeues true "a1" "cms" again 300
    ∷ claims "v2" "a1" "e1" 400 60
    ∷ []

overtaken-Fenced_example :
    Fenced
      (verdict scan_clean 1)
      "p1"
      (run meanwhile (claim_asset_scan "v1" "a1" "e1" 200 60 tables).1)
overtaken-Fenced_example =
    overtaken-Fenced "v1" "e1" 200 60 tables (verdict scan_clean 1) meanwhile "p1" (tt, tt) refl
      (λ e q. omega arith, tt) taken_over

overtaken_retry_example :
    schedule_scan_retry "a1" 1 "scan_limit" 900
      (run (retries "a1" 2 "scan_limit" 800 ∷ []) (claim_asset_scan "v1" "a1" "e1" 200 60 tables).1)
    ≡ (
      err conflict,
      run (retries "a1" 2 "scan_limit" 800 ∷ []) (claim_asset_scan "v1" "a1" "e1" 200 60 tables).1,
    )
overtaken_retry_example =
    overtaken_retry "v1" "e1" 200 60 tables (verdict scan_clean 1)
      (retries "a1" 2 "scan_limit" 800 ∷ []) "scan_limit" 900 (tt, tt) (refl, tt)
      (λ e q. omega arith, tt) taken_over

-- Behind a requeue the retry of the overtaken worker takes the asset from the one that has claimed it.
retry_takes_over :
    (schedule_scan_retry "a1" 1 "scan_limit" 900
      (run meanwhile (claim_asset_scan "v1" "a1" "e1" 200 60 tables).1)).0
    ≡ ok tt
unfolding schedule_scan_retry run step claim_asset_scan fail_scan_to_poison record_scan_poison
    requeue_failed_scan update_row find_row
retry_takes_over = refl

-- A run whose scan finds malware.
abbrev met : Encounter
met = record {
  message_id = "m1";
  body = some (record {
    kind = "asset.scan.requested.v1";
    version = 1;
    event_id = "v1";
    asset_id = "a1";
    etag = "e1";
    has_trailing = false;
  });
  attempt = found_infected;
  between = retries "a2" 1 "scan_limit" 800 ∷ [];
  ended_at = 230;
  is_done = false;
  timed_out = false;
  acks = true;
  retries = true;
  forwards = true;
}

abbrev requested : ScanEvent
requested = record { event_id = "v1"; asset_id = "a1"; etag = "e1" }

abbrev world : World
world = record { tables = tables; calls = [] }

clean_needs_scan_example : NoneClean (run_once 200 60 5 met world).1.tables
clean_needs_scan_example = clean_needs_scan met 200 60 5 world (λ e. cc) (tt, tt) (λ e. cc, tt)

run_acks : (run_once 200 60 5 met world).1.calls ≡ acked ∷ []
unfolding run_once decode_event claim_asset_scan update_row find_row run step schedule_scan_retry
    apply_and_ack apply_scan_result
run_acks = refl

decodes : decode_event met.body ≡ ok requested
unfolding decode_event
decodes = refl

has_acked : has_ack (run_once 200 60 5 met world).1 ≡ true
unfolding run_once decode_event claim_asset_scan update_row find_row run step schedule_scan_retry
    apply_and_ack apply_scan_result
has_acked = refl

ack_accounts_example : Accounted met requested (run_once 200 60 5 met world).1.tables
ack_accounts_example = ack_accounts met requested 200 60 5 world decodes refl has_acked
