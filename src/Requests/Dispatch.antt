-- ===== src/Requests/Dispatch.antt =====
-- DispatchOnce of internal/scanqueue/dispatcher.go and internal/derivativequeue/dispatcher.go, as the steps
-- of any number of dispatchers over one table: a dispatcher claims a request, sends it, and then records
-- that it is delivered or when it is tried again. A dispatcher may stop behind any of its steps. Times are
-- in nanoseconds.
use asset_api.Base.{
  ℕ, ◌+◌, ◌-◌, ◌*◌, ◌^◌, String, Bool, true, false, Option, none, some, List, [], ◌∷◌, ltb,
  if◌then◌else◌, get_elem?, set, second,
}
use asset_api.Errors.{Result, ok, err}
use asset_api.Requests.Table.{
  OutboxRow, Request, claim_request, mark_delivered, schedule_retry, new_row,
}

abbrev pub dispatch_lease : ℕ
dispatch_lease = 30 * second

unfoldable pub retry_delay : ℕ → ℕ
retry_delay attempt =
    if ltb attempt 1
    then second
    else if ltb 6 attempt
    then second * 32
    else second * 2 ^ (attempt - 1)

-- A claimed request, the time of its claim, and whether it has been sent.
pub data Progress : Type 0 where
  unsent was_sent send_failed finished : Progress

pub record Ticket : Type 0 where
  pub request : Request
  pub now : ℕ
  pub progress : Progress

-- The table, the dispatchers' tickets and the events in the queue.
pub record Outbox : Type 0 where
  pub rows : List OutboxRow
  pub tickets : List Ticket
  pub sent : List String

-- New rows are inserted by the transactions that complete an upload or a scan.
pub data DispatchStep : Type 0 where
  inserts : String → String → String → ℕ → DispatchStep
  claims : ℕ → (String → Bool) → DispatchStep
  sends : ℕ → Bool → DispatchStep
  finishes : ℕ → DispatchStep

abbrev pub with_claim : ℕ → Outbox → Option Request × List OutboxRow → Outbox
with_claim now o (none, rows) = record o { rows = rows }
with_claim now o (some r, rows) = record o {
  rows = rows;
  tickets = record { request = r; now = now; progress = unsent } ∷ o.tickets;
}

abbrev pub with_ticket : ℕ → Ticket → Progress → Outbox → Outbox
with_ticket i t p o = record o { tickets = set o.tickets i (record t { progress = p }) }

-- The event of a request, of which the queue keeps the id here.
abbrev pub send_as : ℕ → Bool → Ticket → Outbox → Progress → Outbox
send_as i succeeds t o unsent =
    if succeeds
    then with_ticket i t was_sent (record o { sent = t.request.event_id ∷ o.sent })
    else with_ticket i t send_failed o
send_as i succeeds t o p = o

abbrev pub send : ℕ → Bool → Outbox → Option Ticket → Outbox
send i succeeds o none = o
send i succeeds o (some t) = send_as i succeeds t o t.progress

abbrev pub close : ℕ → Ticket → Outbox → List OutboxRow → Outbox
close i t o rows = with_ticket i t finished (record o { rows = rows })

abbrev pub finish_as : ℕ → Ticket → Outbox → Progress → Outbox
finish_as i t o was_sent =
    close i t o (mark_delivered t.request.event_id t.request.attempts t.now o.rows).1
finish_as i t o send_failed =
    close i t o
      (schedule_retry t.request.event_id t.request.attempts (t.now + retry_delay t.request.attempts)
        o.rows).1
finish_as i t o p = o

abbrev pub finish : ℕ → Outbox → Option Ticket → Outbox
finish i o none = o
finish i o (some t) = finish_as i t o t.progress

unfoldable pub step : DispatchStep → Outbox → Outbox
step (inserts event_id asset_id etag now) o = record o {
  rows = new_row event_id asset_id etag now ∷ o.rows;
}
step (claims now locked) o = with_claim now o (claim_request now dispatch_lease locked o.rows)
step (sends i succeeds) o = send i succeeds o (get_elem? o.tickets i)
step (finishes i) o = finish i o (get_elem? o.tickets i)

unfoldable pub run : List DispatchStep → Outbox → Outbox
run [] o = o
run (t ∷ ts) o = run ts (step t o)

abbrev pub answered : Result (Unit {0}) × List OutboxRow → Result Bool × List OutboxRow
answered (ok done, after) = (ok true, after)
answered (err e, after) = (err e, after)

abbrev pub dispatch_claimed :
    ℕ → Bool → Option Request × List OutboxRow → Result Bool × List OutboxRow
dispatch_claimed now succeeds (none, after) = (ok false, after)
dispatch_claimed now true (some r, after) =
    answered (mark_delivered r.event_id r.attempts now after)
dispatch_claimed now false (some r, after) =
    answered (schedule_retry r.event_id r.attempts (now + retry_delay r.attempts) after)

-- DispatchOnce with no other dispatcher between.
unfoldable pub dispatch_once :
    ℕ → (String → Bool) → Bool → List OutboxRow → Result Bool × List OutboxRow
dispatch_once now locked succeeds rows =
    dispatch_claimed now succeeds (claim_request now dispatch_lease locked rows)

-- The dispatcher of derivative requests, which is the same.
abbrev pub derivative_retry_delay : ℕ → ℕ
derivative_retry_delay attempt = retry_delay attempt

abbrev pub dispatch_derivative_once :
    ℕ → (String → Bool) → Bool → List OutboxRow → Result Bool × List OutboxRow
dispatch_derivative_once now locked succeeds rows = dispatch_once now locked succeeds rows
