-- ===== src/Wakes/Lease.antt =====
-- The statements that carry a dispatched event through its life: Sent, SendFailed, Begin, Renew,
-- Finish and Sweep of internal/postgres/recording_event.go.
use asset_api.Base.{ℕ, ◌+◌, Bool, ◌&&◌, ◌||◌, none, some, List, ◌==◌, leb, if◌then◌else◌}
use asset_api.Errors.{Result, ok, err, conflict}
use asset_api.Wakes.Table.{
  idle, dispatching, queued, running, state_eq, Wake, Event, leased, lapsed, is_idle, owns,
  update_where,
}

abbrev pub release : ℕ → Wake → Wake
release next w = record w {
  state = idle;
  token = none;
  dispatch_generation = none;
  lease_until = none;
  next_check_at = next;
}

-- WHERE … AND state='dispatching'
unfoldable pub is_dispatched : Event → Wake → Bool
unfolding owns
is_dispatched e w = owns e w && state_eq w.state dispatching

-- WHERE … AND state IN ('dispatching','queued') AND lease_until>now()
unfoldable pub may_begin : ℕ → Event → Wake → Bool
unfolding owns
may_begin now e w =
    owns e w
    && (state_eq w.state dispatching || state_eq w.state queued)
    && leased now w.lease_until

-- WHERE … AND state='running' AND lease_until>now()
unfoldable pub is_run : ℕ → Event → Wake → Bool
unfolding owns
is_run now e w = owns e w && state_eq w.state running && leased now w.lease_until

unfoldable pub sent : Event → List Wake → List Wake
sent e t = (update_where (is_dispatched e) (λ w. record w { state = queued }) t).0

unfoldable pub send_failed : ℕ → Event → List Wake → List Wake
send_failed now e t = (update_where (is_dispatched e) (release (now + 15_000_000)) t).0

abbrev pub start : ℕ → Wake → Wake
start now w = record w { state = running; lease_until = some (now + 120_000_000) }

-- Whether the lane is now run for this event.
unfoldable pub begin : ℕ → Event → List Wake → Bool × List Wake
begin now e t = let (t', n) = update_where (may_begin now e) (start now) t in (n == 1, t')

-- `if n != 1 { return ErrConflict }`, after the statement has run.
abbrev exactly_one : List Wake × ℕ → Result (Unit {0}) × List Wake
exactly_one (t, n) = (if n == 1 then ok tt else err conflict, t)

unfoldable pub renew : ℕ → Event → List Wake → Result (Unit {0}) × List Wake
renew now e t =
    exactly_one
      (update_where (is_run now e) (λ w. record w { lease_until = some (now + 120_000_000) }) t)

unfoldable pub finish : ℕ → Event → Bool → List Wake → Result (Unit {0}) × List Wake
finish now e success t =
    exactly_one
      (update_where (is_run now e) (release (if success then now else now + 15_000_000)) t)

abbrev min_time : ℕ → ℕ → ℕ
min_time a b = if leb a b then a else b

unfoldable pub sweep : ℕ → List Wake → List Wake
unfolding update_where
sweep now t =
    (update_where (λ w. is_idle w.state || lapsed now w.lease_until)
      (λ w. record w { next_check_at = min_time w.next_check_at now }) t).0
