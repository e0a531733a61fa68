-- ===== src/Wakes/Tests.antt =====
-- Runs of the wake table and the lane job at concrete inputs, with the instances of their theorems.
use asset_api.Base.{
  ℕ, ◌≤◌, ◌<◌, String, ◌≡◌, refl, ◌⊎◌, Bool, true, false, none, some, List, [], ◌∷◌, arith, All,
  any,
}
use asset_api.Errors.{Result, ok}
use asset_api.Wakes.Table.{
  Lane, live, processing, preview, idle, dispatching, Wake, Event, IsConsistent, owns, update_where,
}
use asset_api.Wakes.Dispatch.{
  active, is_active, is_candidate, candidates, hand_out, dispatch_loop, claim_dispatch,
}
use asset_api.Wakes.Lease.{begin, renew, finish, may_begin, is_run}
use asset_api.Wakes.Fencing.{begins, finishes, run}
use asset_api.Wakes.Keyed.{IsKeyed}
use asset_api.Wakes.Exclusive.{begin_once, superseded-Refused, Refused}
use asset_api.Wakes.Capacity.{dispatch_capacity}
use asset_api.Wakes.LiveFirst.{live_first}
use asset_api.Wakes.Job.{
  Wire, decode, Signal, completed, ticked, World, returned, work, finish_and_ack, renew_both,
  run_job,
}
use asset_api.Wakes.Job.Settles.{ack_releases, ok_removes, is_ack, removes}

abbrev fresh : Lane → Wake
fresh l = record {
  lane = l;
  generation = 1;
  dispatch_generation = none;
  token = none;
  state = idle;
  lease_until = none;
  next_check_at = 0;
  last_dispatch_at = none;
}

-- The rows that the migration inserts.
abbrev seeded : List Wake
seeded = fresh live ∷ fresh processing ∷ fresh preview ∷ []

fresh-IsConsistent : (l : Lane) → IsConsistent (fresh l)
fresh-IsConsistent l = ground arith

seeded-IsConsistent : All IsConsistent seeded
seeded-IsConsistent =
    (fresh-IsConsistent live, (fresh-IsConsistent processing, (fresh-IsConsistent preview, tt)))

seeded-IsKeyed : IsKeyed seeded
seeded-IsKeyed = ((refl, (refl, tt)), ((refl, tt), (tt, tt)))

abbrev always : Lane → Result Bool
always l = ok true

abbrev tokens : Lane → String
tokens l = "t1"

abbrev first_event : Event
first_event = record { lane = live; generation = 2; token = "t1" }

abbrev live_dispatched : Wake
live_dispatched = record {
  lane = live;
  generation = 2;
  dispatch_generation = some 2;
  token = some "t1";
  state = dispatching;
  lease_until = some 120_000_100;
  next_check_at = 0;
  last_dispatch_at = some 100;
}

abbrev dispatched : List Wake
dispatched = live_dispatched ∷ fresh processing ∷ fresh preview ∷ []

first_dispatch : (claim_dispatch 100 true 0 always tokens seeded).0 ≡ ok (some first_event)
unfolding claim_dispatch active is_active candidates is_candidate dispatch_loop hand_out
first_dispatch = refl

dispatch_capacity_example :
    (active 100 (claim_dispatch 100 true 0 always tokens seeded).1 ≤ 2) × (0 < 2)
dispatch_capacity_example =
    dispatch_capacity 100 true 0 always tokens seeded first_event seeded-IsKeyed first_dispatch

live_first_example : (claim_dispatch 100 true 0 always tokens seeded).0 ≡ ok (some first_event)
unfolding active is_active is_candidate
live_first_example =
    live_first 100 0 always tokens seeded 0 (fresh live) seeded-IsKeyed (omega arith) (omega arith)
      refl refl refl refl

dispatched-IsConsistent : All IsConsistent dispatched
dispatched-IsConsistent =
    (ground arith, (fresh-IsConsistent processing, (fresh-IsConsistent preview, tt)))

begins_dispatched : (begin 200 first_event dispatched).0 ≡ true
unfolding begin may_begin update_where
begins_dispatched = refl

abbrev after_begin : List Wake
after_begin = run ((300, finishes first_event true) ∷ []) (begin 200 first_event dispatched).1

begin_once_example : begin 400 first_event after_begin ≡ (false, after_begin)
begin_once_example =
    begin_once 200 first_event dispatched ((300, finishes first_event true) ∷ []) 400 seeded-IsKeyed
      dispatched-IsConsistent begins_dispatched

-- An event of an earlier generation of the live lane.
abbrev old_event : Event
old_event = record { lane = live; generation = 1; token = "t0" }

superseded-Refused_example :
    Refused 500 old_event
      (run ((200, begins first_event) ∷ []) (claim_dispatch 100 true 0 always tokens seeded).1)
superseded-Refused_example =
    superseded-Refused 100 true 0 always tokens seeded old_event first_event
      ((200, begins first_event) ∷ []) 500 seeded-IsKeyed seeded-IsConsistent first_dispatch refl
      (omega arith)

abbrev wake_body : Wire
wake_body = record {
  kind = "asset.recording.wake.v1";
  version = 1;
  lane_name = "live";
  number = 2;
  wire_token = "t1";
  has_trailing = false;
}

abbrev good_schedule : List (ℕ × Signal)
good_schedule = (300, ticked true) ∷ (400, completed true false true) ∷ []

abbrev queue_world : World
queue_world = record { table = dispatched; calls = [] }

decodes : decode (some wake_body) ≡ ok first_event
unfolding decode
decodes = refl

run_returns :
    (run_job live 200 (ok (some (some wake_body))) true true good_schedule queue_world).0
    ≡ returned (ok tt)
unfolding run_job decode work finish_and_ack renew_both begin renew finish may_begin is_run
    update_where
run_returns = refl

run_acks :
    any is_ack
      (run_job live 200 (ok (some (some wake_body))) true true good_schedule queue_world).1.calls
    ≡ true
unfolding run_job decode work finish_and_ack renew_both begin renew finish may_begin is_run
    update_where
run_acks = refl

ack_releases_example :
    ((begin 200 first_event dispatched).0 ≡ false)
    ⊎ All
        (λ v. owns first_event v ≡ false)
        (run_job live 200 (ok (some (some wake_body))) true true good_schedule queue_world).1.table
ack_releases_example =
    ack_releases live 200 (some wake_body) first_event true true good_schedule queue_world
      seeded-IsKeyed refl decodes run_acks

ok_removes_example :
    any removes
      (run_job live 200 (ok (some (some wake_body))) true true good_schedule queue_world).1.calls
    ≡ true
ok_removes_example =
    ok_removes live 200 (some wake_body) true true good_schedule queue_world run_returns
