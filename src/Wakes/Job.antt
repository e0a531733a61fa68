-- ===== src/Wakes/Job.antt =====
-- Job.Run of internal/recordingqueue/job.go: one queue message is decoded, its lane is begun, worked
-- on under renewed leases, finished and acknowledged. The wake table is the repository; the queue,
-- the work and the clock answer through the schedule.
pub mod Settles
use Prim.Native.String.{len}
use asset_api.Base.{
  ℕ, ◌+◌, String, ◌≡◌, refl, ◌⊎◌, inl, inr, Bool, true, false, ◌&&◌, ◌||◌, Option, none, some, List,
  [], ◌∷◌, arith, All, Bool-cases, Option-cases, ◌==◌, ltb, not, str_eq, if◌then◌else◌, All-mono,
  ap, sym, subst,
}
use asset_api.Errors.{Error, Result, ok, err, conflict, invalid_input, unavailable, Result-cases}
use asset_api.Wakes.Table.{
  Lane, live, processing, preview, lane_eq, Wake, Event, owns, IsConsistent,
}
use asset_api.Wakes.Lease.{begin, renew, finish}

-- A message body as the JSON decoder sees it: not an event object, or the fields of one and whether
-- anything follows it. A generation below 1 is 0, and the length of the token is that of an ASCII text.
pub record Wire : Type 0 where
  pub kind : String
  pub version : ℕ
  pub lane_name : String
  pub number : ℕ
  pub wire_token : String
  pub has_trailing : Bool

-- The three lanes by name.
unfoldable pub parse_lane : String → Option Lane
parse_lane s =
    if str_eq s "live"
    then some live
    else if str_eq s "processing"
    then some processing
    else if str_eq s "preview"
    then some preview
    else none

abbrev to_event : Wire → Option Lane → Result Event
to_event w none = err invalid_input
to_event w (some l) = ok (record { lane = l; generation = w.number; token = w.wire_token })

unfoldable pub decode : Option Wire → Result Event
unfolding parse_lane
decode none = err invalid_input
decode (some w) =
    if w.has_trailing
      || not (str_eq w.kind "asset.recording.wake.v1")
      || not (w.version == 1)
      || ltb w.number 1
      || str_eq w.wire_token ""
      || ltb 128 (len w.wire_token)
    then err invalid_input
    else to_event w (parse_lane w.lane_name)

-- What the loop's `select` sees, at a time, with the answers of the calls that it then makes.
pub data Signal : Type 0 where
  -- the work ended; whether the context is cancelled by then, and whether the acknowledgement works
  completed : (success is_cancelled acks : Bool) → Signal
  cancelled : Signal
  -- the renewal timer; whether the queue extends the message
  ticked : (extends : Bool) → Signal

-- What became of the message.
pub data Call : Type 0 where
  acked poisoned extended : Call

pub record World : Type 0 where
  pub table : List Wake
  pub calls : List Call

pub data Outcome : Type 0 where
  -- `Run` has returned, without an error or with one
  returned : Result (Unit {0}) → Outcome
  -- the schedule ended while the work went on
  working : Outcome

abbrev pub answer : Bool → Result (Unit {0})
answer true = ok tt
answer false = err unavailable

abbrev pub log : Call → World → World
log c w = record w { calls = c ∷ w.calls }

unfoldable pub finish_and_ack : ℕ → Event → Bool → Bool → World → Outcome × World
finish_and_ack now e success acks w =
    let (finished, t) = finish now e success w.table in
    let w' = record w { table = t } in
    elim finished [
      | err x ↦ (returned (err x), w')
      | ok _ ↦
          if acks
          then (returned (answer success), log acked w')
          else (returned (err unavailable), w')
    ]

unfoldable pub renew_both : ℕ → Event → World → Result (Unit {0}) × World
renew_both now e w =
    let (renewed, t) = renew now e w.table in
    (renewed, record w { table = t; calls = extended ∷ w.calls })

unfoldable pub work : Event → List (ℕ × Signal) → World → Outcome × World
work e [] w = (working, w)
work e ((now, completed success is_cancelled acks) ∷ ss) w =
    if is_cancelled then (returned (err unavailable), w) else finish_and_ack now e success acks w
work e ((now, cancelled) ∷ ss) w = (returned (err unavailable), w)
work e ((now, ticked extends) ∷ ss) w =
    let (renewed, w') = renew_both now e w in
    let rest = work e ss w' in
    if extends
    then elim renewed [ ok _ ↦ rest | err x ↦ (returned (err x), w') ]
    else (returned (err unavailable), w)

abbrev pub begun_work : Event → Bool → List (ℕ × Signal) → Bool → World → Outcome × World
begun_work e true ss acks w = work e ss w
begun_work e false ss acks w =
    if acks then (returned (ok tt), log acked w) else (returned (err unavailable), w)

-- `received` is the answer of the queue: an error, no message, or a message's body. `acks` and
-- `poisons` are the queue's answers to the calls made before the lane has begun.
unfoldable pub run_job :
    Lane
    → ℕ
    → Result (Option (Option Wire))
    → Bool
    → Bool
    → List (ℕ × Signal)
    → World
    → Outcome × World
run_job lane now (err x) acks poisons ss w = (returned (err x), w)
run_job lane now (ok none) acks poisons ss w = (returned (ok tt), w)
run_job lane now (ok (some body)) acks poisons ss w =
    let poison =
      if poisons then (returned (ok tt), log poisoned w) else (returned (err unavailable), w) in
    elim (decode body) [
      | err x ↦ poison
      | ok e ↦
          let (active, t) = begin now e w.table in
          if lane_eq e.lane lane
          then begun_work e active ss acks (record w { table = t })
          else poison
    ]
