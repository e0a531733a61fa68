-- ===== src/Audit/Worker.antt =====
-- Worker.ProcessOnce of internal/auditoutbox/worker.go: at most twenty rows are claimed, sent and
-- completed, while other workers' statements run. The clock, the locks of others, the answer of the audit
-- service and the random number of each round are a `Round`.
use asset_api.Base.{
  ℕ, suc, zero, ◌+◌, ◌*◌, ◌/◌, ◌%◌, String, Bool, true, false, ◌&&◌, not, Option, none, some, List,
  ◌==◌, leb, ltb, str_eq, if◌then◌else◌, second,
}
use asset_api.Errors.{Result, ok, err, unavailable}
use asset_api.Audit.Event.{canonical, decode_event}
use asset_api.Audit.Model.{Event, Codec}
use asset_api.Audit.Client.{
  AppendResult, append_accepted, append_duplicate, append_conflict, append_retry,
  append_dead_letter, Reply, append_result, http_status,
}
use asset_api.Audit.Outbox.{Status, pending, delivered, dead_letter, Entry, Row, claim, complete}
use asset_api.Audit.Steps.{Statement, run}

abbrev pub max_attempts : ℕ
max_attempts = 20

unfoldable pub retry_delay : ℕ → ℕ
retry_delay attempt =
    if attempt == 1
    then 30 * second
    else if attempt == 2
    then 120 * second
    else if attempt == 3
    then 300 * second
    else if attempt == 4
    then 900 * second
    else if attempt == 5
    then 3600 * second
    else 21600 * second

pub record Round : Type 0 where
  pub claimed_at : ℕ
  pub locked : String → Bool
  pub reply : Reply
  pub between : List Statement
  pub now : ℕ
  pub random : ℕ

-- The stored text is an event, and the digest is its own.
abbrev has_hash : Row → Option (String × String) → Bool
has_hash row none = false
has_hash row (some (payload, hash)) = str_eq hash row.payload_hash

abbrev is_intact_event : Codec → Row → Option Event → Bool
is_intact_event k row none = false
is_intact_event k row (some event) = has_hash row (canonical k event)

unfoldable pub is_intact : Codec → Row → Bool
is_intact k row = is_intact_event k row (decode_event k row.payload)

-- A retry that the attempts have used up.
abbrev pub capped : ℕ → ℕ → AppendResult → AppendResult
capped attempts status append_retry =
    if leb max_attempts attempts && not (status == 401) && not (status == 404)
    then append_dead_letter
    else append_retry
capped attempts status result = result

-- The status, the code and the time of the row.
abbrev pub completion : Row → Round → AppendResult → Status × String × ℕ
completion row r append_accepted = (delivered, "", r.now)
completion row r append_duplicate = (delivered, "", r.now)
completion row r append_retry =
    let delay = retry_delay row.attempts in
    (pending, "retry", r.now + (delay + r.random % (delay / 5 + 1)))
completion row r append_conflict = (dead_letter, "conflict", r.now)
completion row r append_dead_letter = (dead_letter, "dead_letter", r.now)

unfoldable pub outcome : Codec → Bool → Row → Round → Status × String × ℕ
unfolding is_intact retry_delay append_result
outcome k private_https row r =
    if is_intact k row
    then completion row r
        (capped row.attempts (http_status r.reply) (append_result private_https r.reply))
    else (dead_letter, "invalid_event", r.now)

-- Complete with what came out, behind the statements of others.
abbrev pub finish : Row → Round → Status × String × ℕ → List Entry → Bool × List Entry
finish row r (status, code, available_at) rows =
    complete row status code available_at r.now (run r.between rows)

abbrev pub process_row : Codec → Bool → Round → Option Row × List Entry → Option Bool × List Entry
process_row k private_https r (none, rows) = (none, rows)
process_row k private_https r (some row, rows) =
    let (done, after) = finish row r (outcome k private_https row r) rows in (some done, after)

-- One pass of the loop: none if no row is due, or whether the row was completed.
unfoldable pub process_one : Codec → Bool → Round → List Entry → Option Bool × List Entry
process_one k private_https r rows =
    process_row k private_https r (claim r.claimed_at r.locked rows)

abbrev pub process_next :
    (List Entry → Result (Unit {0}) × List Entry)
    → Option Bool × List Entry
    → Result (Unit {0}) × List Entry
process_next rest (none, rows) = (ok tt, rows)
process_next rest (some false, rows) = (err unavailable, rows)
process_next rest (some true, rows) = rest rows

-- The loop with the passes that are left; `rounds n` is the pass with n behind it.
unfoldable pub process_loop :
    Codec → Bool → (ℕ → Round) → ℕ → List Entry → Result (Unit {0}) × List Entry
process_loop k private_https rounds zero rows = (ok tt, rows)
process_loop k private_https rounds (suc n) rows =
    process_next (process_loop k private_https rounds n)
      (process_one k private_https (rounds n) rows)

unfoldable pub process_once :
    Codec → Bool → (ℕ → Round) → List Entry → Result (Unit {0}) × List Entry
process_once k private_https rounds rows = process_loop k private_https rounds 20 rows

-- The variables of Run, and one tick of its work timer: whether rows are processed. `verifies` is the
-- answer of Client.Verify, asked only if it is due.
pub record Loop : Type 0 where
  pub verified : Bool
  pub next_verification : ℕ

unfoldable pub work_tick : ℕ → Bool → Loop → Loop × Bool
work_tick now verifies l =
    if l.verified
    then (l, true)
    else if ltb now l.next_verification
    then (l, false)
    else if verifies
    then (record l { verified = true }, true)
    else (record l { next_verification = now + 30 * second }, false)
