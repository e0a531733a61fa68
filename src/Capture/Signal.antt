-- ===== src/Capture/Signal.antt =====
-- The broadcast signal of a capture, which may close an idle range
-- (internal/assets/recording_capture_signal.go).
use asset_api.Base.{
  ℕ, ◌+◌, ◌*◌, ◌/◌, String, Bool, ◌&&◌, ◌||◌, Option, none, some, ltb, leb, not, str_eq,
  if◌then◌else◌, is_some, is_none, ◌==◌, second,
}
use asset_api.Errors.{Result, ok, ◌>>◌, guard, forbidden, conflict}
use asset_api.Capture.Model.{
  uploading, Recovery, Capture, recovery_window, recovery_version, state_is,
}
use asset_api.Capture.Recovery.{close_expired, confirmed_end}
use asset_api.Capture.Mutate.{is_owner}

pub data SignalState : Type 0 where
  waiting healthy interrupted ended : SignalState

pub record BroadcastSignal : Type 0 where
  pub version : Option String
  pub last_common_confirmed_at : Option ℕ
  pub common_confirmed_end : Option ℕ
  pub reason : Option String
  pub state : SignalState
  pub last_media_confirmed_at : Option ℕ
  pub deadline : Option ℕ
  pub end_sequence : Option ℕ

abbrev idle_timeout : Option ℕ → Option String
idle_timeout none = none
idle_timeout (some end) = some "idle_timeout"

abbrev common_of : Recovery → Option ℕ
common_of r = if is_some r.activation_at then some r.common_end else none

abbrev ended_if : Option ℕ → SignalState → SignalState
ended_if none s = s
ended_if (some end) s = ended

-- The state while the recovery clock runs.
abbrev pub clock_state : ℕ → Capture → Option ℕ → SignalState
clock_state now c none = waiting
clock_state now c (some deadline) =
    if c.recovery.active && state_is c.state uploading && is_none c.terminal_at
    then if leb (deadline + 30 * second) (now + recovery_window) then interrupted else healthy
    else waiting

abbrev pub may_close : Capture → Bool → Bool
may_close c allow_close =
    c.recovery.active
    && state_is c.state uploading
    && is_none c.terminal_at
    && is_some c.recovery.deadline
    && allow_close

abbrev pub clock_signal : Capture → Capture → SignalState → BroadcastSignal
clock_signal c d state = record {
  version = some recovery_version;
  last_common_confirmed_at = c.recovery.last_common_confirmed_at;
  common_confirmed_end = common_of c.recovery;
  reason = idle_timeout d.idle_end;
  state = ended_if d.idle_end state;
  last_media_confirmed_at = c.last_media_confirmed_at;
  deadline = c.recovery.deadline;
  end_sequence = d.idle_end;
}

-- Captures with the recovery clock.
unfoldable pub signal_clock : ℕ → Bool → Capture → BroadcastSignal × Capture
signal_clock now allow_close c =
    let d = if may_close c allow_close then close_expired c now else c in
    (clock_signal c d (clock_state now c c.recovery.deadline), d)

abbrev pub plain : Capture → SignalState → Option ℕ → Option ℕ → BroadcastSignal
plain c state deadline end = record {
  version = none;
  last_common_confirmed_at = none;
  common_confirmed_end = none;
  reason = none;
  state = state;
  last_media_confirmed_at = c.last_media_confirmed_at;
  deadline = deadline;
  end_sequence = end;
}

abbrev pub frames_of : Capture → ℕ
frames_of c = if c.segment_frames == 0 then 900 else c.segment_frames

-- When the next segment is due after the one that arrived at `last`.
abbrev pub expected : Capture → ℕ → ℕ
expected c last = last + frames_of c * 1001 * second / 30_000

abbrev pub cut_off : Capture → Capture
cut_off c = record c { idle_end = some (confirmed_end c) }

abbrev pub cut_at : Capture → ℕ → BroadcastSignal × Capture
cut_at c deadline =
    if ltb 0 (confirmed_end c)
    then (plain c ended (some deadline) (some (confirmed_end c)), cut_off c)
    else (plain c interrupted (some deadline) none, c)

abbrev pub due_signal : ℕ → Bool → Capture → ℕ → BroadcastSignal × Capture
due_signal now allow_close c due =
    let deadline = due + 60 * second in
    if ltb now (due + 10 * second)
    then (plain c healthy (some deadline) none, c)
    else if ltb now deadline || not allow_close
    then (plain c interrupted (some deadline) none, c)
    else cut_at c deadline

abbrev pub media_signal : ℕ → Bool → Capture → Option ℕ → BroadcastSignal × Capture
media_signal now allow_close c none = (plain c waiting none none, c)
media_signal now allow_close c (some last) =
    if not (state_is c.state uploading) || is_some c.terminal_at
    then (plain c waiting none none, c)
    else due_signal now allow_close c (expected c last)

-- Captures of clients without the clock.
unfoldable pub signal_media : ℕ → Bool → Capture → BroadcastSignal × Capture
signal_media now allow_close c =
    if is_some c.idle_end
    then (plain c ended none c.idle_end, c)
    else media_signal now allow_close c c.last_media_confirmed_at

unfoldable pub broadcast_signal : ℕ → String → Bool → Capture → Result (BroadcastSignal × Capture)
unfolding signal_clock signal_media
broadcast_signal now actor allow_close c = do
  guard (is_owner c actor) forbidden
  guard (leb 1 c.broadcast_epoch) conflict
  ok (
      if str_eq c.recovery.version recovery_version
      then signal_clock now allow_close c
      else signal_media now allow_close c)
