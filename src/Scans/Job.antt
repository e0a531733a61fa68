-- ===== src/Scans/Job.antt =====
-- ScanJob.RunOnce of internal/scanqueue/job.go: one queue message is decoded, its asset is claimed and
-- scanned, and the outcome is recorded before the message is acknowledged. What the file system, the
-- blob store and the scanner answer is an `Attempt`; the other workers' statements run between the claim
-- and the outcome. Texts that are only stored are left out.
pub mod Unclean
pub mod Clean
pub mod Accounts
pub mod Acked
use Prim.Native.String.{len, ◌++◌}
use asset_api.Base.{
  ℕ, ◌+◌, ◌-◌, ◌^◌, String, Bool, true, false, ◌&&◌, ◌||◌, Option, none, some, List, [], ◌∷◌, ltb,
  leb, not, str_eq, ◌==◌, if◌then◌else◌,
}
use asset_api.Errors.{Result, ok, err, invalid_input, unavailable}
use asset_api.Statuses.{ScanStatus, scan_clean, scan_failed, scan_infected, scan_is}
use asset_api.Scans.Table.{
  Asset, Tables, ScanResult, ScanClaimState, scan_claimed, scan_busy, scan_terminal,
  claim_asset_scan, apply_scan_result, schedule_scan_retry, record_scan_poison, fail_scan_to_poison,
  mark_poison_forwarded,
}
use asset_api.Scans.Steps.{ScanStep, run}

-- A message body as the JSON decoder sees it. Lengths are those of ASCII texts.
pub record Wire : Type 0 where
  pub kind : String
  pub version : ℕ
  pub event_id : String
  pub asset_id : String
  pub etag : String
  pub has_trailing : Bool

pub record ScanEvent : Type 0 where
  pub event_id : String
  pub asset_id : String
  pub etag : String

abbrev out_of_range : String → Bool
out_of_range s = str_eq s "" || ltb 200 (len s)

unfoldable pub decode_event : Option Wire → Result ScanEvent
decode_event none = err invalid_input
decode_event (some w) =
    if w.has_trailing
      || not (str_eq w.kind "asset.scan.requested.v1")
      || not (w.version == 1)
      || out_of_range w.event_id
      || out_of_range w.asset_id
      || out_of_range w.etag
    then err invalid_input
    else ok (record { event_id = w.event_id; asset_id = w.asset_id; etag = w.etag })

-- How the attempt went: an error of a category before the scanner's answer, or its answer.
pub data Attempt : Type 0 where
  broken : String → Attempt
  found_clean found_infected : Attempt
  over_limit : Attempt
  is_encrypted : Attempt
  scanner_error : Attempt

-- What RunOnce asks of the queue for its message.
pub data Call : Type 0 where
  acked retried forwarded : Call

-- `sends`: whether the queue's calls succeed.
pub record World : Type 0 where
  pub tables : Tables
  pub calls : List Call

abbrev pub log : Call → World → World
log c w = record w { calls = c ∷ w.calls }

abbrev pub with_tables : Tables → World → World
with_tables t w = record w { tables = t }

-- A call of the queue, which ends RunOnce.
abbrev pub send : Bool → Call → World → Result (Unit {0}) × World
send true c w = (ok tt, log c w)
send false c w = (err unavailable, w)

-- `poison` once the table has answered whether to forward. `forwards` and `acks` are the queue's answers.
abbrev pub forward_and_ack : Bool → Bool → String → Result Bool → World → Result (Unit {0}) × World
forward_and_ack forwards acks poison (err x) w = (err x, w)
forward_and_ack forwards acks poison (ok false) w = send acks acked w
forward_and_ack forwards acks poison (ok true) w =
    if forwards
    then send acks acked (with_tables (mark_poison_forwarded poison w.tables) (log forwarded w))
    else (err unavailable, w)

unfoldable pub poison_message : Bool → Bool → String → World → Result (Unit {0}) × World
poison_message forwards acks poison w =
    let (forward, t) = record_scan_poison poison w.tables in
    forward_and_ack forwards acks poison (ok forward) (with_tables t w)

unfoldable pub fail_message : Bool → Bool → ScanResult → String → World → Result (Unit {0}) × World
fail_message forwards acks r poison w =
    let (forward, t) = fail_scan_to_poison r poison w.tables in
    forward_and_ack forwards acks poison forward (with_tables t w)

abbrev pub result_of : ScanEvent → Asset → ScanStatus → String → ScanResult
result_of e a status category = record {
  event_id = e.event_id;
  asset_id = a.id;
  status = status;
  failure_category = category;
  etag = a.etag;
  expected_attempt = a.scan_attempts;
}

abbrev pub ack_applied : Bool → Result Bool → World → Result (Unit {0}) × World
ack_applied acks (err x) w = (err x, w)
ack_applied acks (ok fresh) w = send acks acked w

-- ApplyScanResult and then Ack.
unfoldable pub apply_and_ack : Bool → ScanResult → World → Result (Unit {0}) × World
apply_and_ack acks r w =
    let (applied, t) = apply_scan_result r w.tables in ack_applied acks applied (with_tables t w)

-- What the job meets: the message and the queue's answers; the attempt with the statements of other
-- workers before its outcome; whether the lease of the message or the time for the work has run out.
pub record Encounter : Type 0 where
  pub message_id : String
  pub body : Option Wire
  pub attempt : Attempt
  pub between : List ScanStep
  -- the clock when the attempt has ended
  pub ended_at : ℕ
  pub is_done : Bool
  pub timed_out : Bool
  pub acks : Bool
  pub retries : Bool
  pub forwards : Bool

abbrev pub poison_id : Encounter → String → String
poison_id x reason = x.message_id ++ (":" ++ reason)

unfoldable pub retry_delay : ℕ → ℕ
retry_delay n = if ltb n 2 then 1 else if ltb 5 n then 32 else 2 ^ (n - 1)

abbrev pub poison_with : Encounter → String → World → Result (Unit {0}) × World
poison_with x reason w = poison_message x.forwards x.acks (poison_id x reason) w

abbrev pub fail_with : Encounter → ScanEvent → Asset → String → World → Result (Unit {0}) × World
fail_with x e a reason w =
    fail_message x.forwards x.acks (result_of e a scan_failed reason) (poison_id x reason) w

abbrev pub retry_after_schedule : Encounter → Result (Unit {0}) → World → Result (Unit {0}) × World
retry_after_schedule x (err e) w = (err e, w)
retry_after_schedule x (ok done) w = send x.retries retried w

-- ScheduleAssetScanRetry and then Retry.
unfoldable pub retry_with : Encounter → Asset → String → World → Result (Unit {0}) × World
unfolding retry_delay
retry_with x a category w =
    let (scheduled, t) =
      schedule_scan_retry a.id a.scan_attempts category (x.ended_at + retry_delay a.scan_attempts)
        w.tables in
    retry_after_schedule x scheduled (with_tables t w)

-- An attempt that ended in an error of the category.
abbrev pub give_back : Encounter → ScanEvent → Asset → String → World → Result (Unit {0}) × World
give_back x e a category w =
    if x.is_done
    then (err unavailable, w)
    else if str_eq (if x.timed_out then "attempt_timeout" else category) "integrity"
    then fail_with x e a "integrity" w
    else retry_with x a (if x.timed_out then "attempt_timeout" else category) w

abbrev pub conclude : Encounter → ScanEvent → Asset → Attempt → World → Result (Unit {0}) × World
conclude x e a (broken category) w = give_back x e a category w
conclude x e a scanner_error w = give_back x e a "scanner_unavailable" w
conclude x e a found_infected w = apply_and_ack x.acks (result_of e a scan_infected "malware") w
conclude x e a over_limit w = fail_with x e a "scan_limit" w
conclude x e a is_encrypted w = fail_with x e a "encrypted" w
conclude x e a found_clean w =
    if x.is_done then (err unavailable, w) else apply_and_ack x.acks (result_of e a scan_clean "") w

abbrev pub reason_of : Asset → String
reason_of a = if str_eq a.failure_category "" then "failed" else a.failure_category

-- What follows each answer of the claim.
abbrev pub claimed_work :
    ℕ → Encounter → ScanEvent → Option Asset × ScanClaimState → World → Result (Unit {0}) × World
claimed_work max_attempts x e (a, scan_busy) w = send x.retries retried w
claimed_work max_attempts x e (none, scan_terminal) w = send x.acks acked w
claimed_work max_attempts x e (some a, scan_terminal) w =
    if scan_is a.scan_status scan_failed && str_eq a.scan_event_id e.event_id
    then poison_with x (reason_of a) w
    else send x.acks acked w
claimed_work max_attempts x e (none, scan_claimed) w = (err unavailable, w)
claimed_work max_attempts x e (some a, scan_claimed) w =
    if leb max_attempts a.scan_attempts
    then fail_with x e a "retry_exhausted" w
    else conclude x e a x.attempt (with_tables (run x.between w.tables) w)

abbrev pub decoded_work :
    ℕ → ℕ → ℕ → Encounter → Result ScanEvent → World → Result (Unit {0}) × World
decoded_work now lease max_attempts x (err f) w = poison_with x "invalid_payload" w
decoded_work now lease max_attempts x (ok e) w =
    let (claim, t) = claim_asset_scan e.event_id e.asset_id e.etag now lease w.tables in
    claimed_work max_attempts x e claim (with_tables t w)

-- RunOnce for a message that it has received.
unfoldable pub run_once : ℕ → ℕ → ℕ → Encounter → World → Result (Unit {0}) × World
run_once now lease max_attempts x w = decoded_work now lease max_attempts x (decode_event x.body) w
