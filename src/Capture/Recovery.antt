-- ===== src/Capture/Recovery.antt =====
-- The recovery clock of a capture (internal/assets/recording_recovery.go).
use asset_api.Base.{
  same_codes, ℕ, zero, suc, ◌+◌, ◌-◌, ◌*◌, ◌/◌, ◌%◌, String, Bool, true, false, ◌&&◌, ◌||◌, Option,
  none, some, List, [], ◌∷◌, ◌++◌, ltb, leb, ◌==◌, not, str_eq, if◌then◌else◌, is_some, is_none,
  codes, any, ℤ, pos, ltb_ℤ,
}
use asset_api.Errors.{Result, ok, err, conflict, capture_missing_objects}
use asset_api.Broadcast.Range.{BroadcastRange}
use asset_api.Capture.Model.{
  uploading, ObjectState, queued, verified, CaptureObject, Recovery, Capture, max_segments,
  recovery_window, recovery_version, state_is,
}

abbrev pub arrived : ObjectState → Bool
arrived queued = true
arrived verified = true
arrived _ = false

-- confirmed[path]
unfoldable pub is_confirmed : List CaptureObject → List ℕ → Bool
is_confirmed objects path = any (λ o. arrived o.state && same_codes (codes o.path) path) objects

abbrev digit : ℕ → ℕ
digit n = b'0' + n % 10

-- fmt.Sprintf("<rendition>/seg-%06d.m4s", n), for n below a million.
unfoldable pub segment_path : String → ℕ → List ℕ
segment_path rendition n =
    codes rendition
    ++ (codes "/seg-"
        ++ ((digit (n / 100_000)
              ∷ digit (n / 10_000)
              ∷ digit (n / 1000)
              ∷ digit (n / 100)
              ∷ digit (n / 10)
              ∷ digit n
              ∷ [])
            ++ codes ".m4s"))

-- The segment has arrived in each rendition.
unfoldable pub has_segment : List CaptureObject → ℕ → Bool
has_segment objects n =
    is_confirmed objects (segment_path "480p" n)
    && is_confirmed objects (segment_path "720p" n)
    && is_confirmed objects (segment_path "1080p" n)

-- The loop from `end` with the given number of rounds left.
unfoldable pub confirmed_from : ℕ → List CaptureObject → ℕ → ℕ
confirmed_from zero objects end = end
confirmed_from (suc rounds) objects end = elim (has_segment objects end) [
  | true ↦ confirmed_from rounds objects (end + 1)
  | false ↦ end
]

unfoldable pub confirmed_end : Capture → ℕ
confirmed_end c = confirmed_from max_segments c.objects 0

-- Time.Truncate(time.Microsecond)
abbrev pub to_micros : ℕ → ℕ
to_micros t = t - t % 1000

-- The decoded frame rate, of which only these two are told apart.
pub data Rate : Type 0 where
  thirty ntsc other : Rate

abbrev pub rate_duration : ℕ → Rate → Option ℕ
rate_duration frames ntsc =
    if frames == 300
    then some 10_010_000_000
    else if frames == 0 || frames == 900
    then some 30_030_000_000
    else none
rate_duration frames thirty = if frames == 0 || frames == 900 then some 30_000_000_000 else none
rate_duration frames other = none

abbrev pub armed : ℕ → ℕ → ℕ → Recovery
armed now end duration = record {
  version = recovery_version;
  active = true;
  activation_at = some (to_micros now);
  baseline_end = end;
  segment_duration = duration;
  common_end = end;
  last_common_confirmed_at = some (to_micros now);
  deadline = some (to_micros now + recovery_window);
}

abbrev pub started : Capture → ℕ → ℕ → ℕ → Capture
started c now end duration = record c { recovery = armed now end duration }

abbrev pub stopped : Capture → Capture
stopped c = record c { recovery = record (c.recovery) { active = false } }

abbrev pub arm_from : Capture → ℕ → ℕ → Option ℕ → Option ℤ → Result Capture
arm_from c now end duration none = ok c
arm_from c now end none (some start) = err conflict
arm_from c now end (some duration) (some start) =
    if not (ltb_ℤ start (pos end))
    then err capture_missing_objects
    else ok (started c now end duration)

-- The range or the capture is not live.
abbrev pub is_barred : Capture → BroadcastRange → Bool
is_barred c policy =
    not (str_eq policy.member_state "live")
    || policy.revoked
    || is_some policy.end_sequence_exclusive
    || is_some c.terminal_at
    || not (state_is c.state uploading)

unfoldable pub arm_recovery : Capture → BroadcastRange → Rate → ℕ → Result Capture
arm_recovery c policy rate now =
    if not (str_eq c.recovery.version recovery_version)
    then ok c
    else if is_barred c policy
    then ok (stopped c)
    else if is_some c.idle_end || is_some c.recovery.activation_at
    then ok c
    else arm_from c now (confirmed_end c) (rate_duration c.segment_frames rate)
        policy.start_sequence

abbrev pub passed : ℕ → Option ℕ → Bool
passed now none = false
passed now (some d) = leb d now

abbrev pub is_overdue : Capture → ℕ → Bool
is_overdue c now =
    c.recovery.active
    && passed now c.recovery.deadline
    && is_none c.idle_end
    && ltb 0 c.recovery.common_end

abbrev pub closed : Capture → Capture
closed c = record c {
  idle_end = some c.recovery.common_end;
  recovery = record (c.recovery) { active = false };
}

unfoldable pub close_expired : Capture → ℕ → Capture
close_expired c now = if is_overdue c now then closed c else c

abbrev pub min_time : ℕ → ℕ → ℕ
min_time a b = if ltb a b then a else b

-- ActivationAt.Add(time.Duration(end-BaselineEnd) * SegmentDuration)
abbrev pub horizon : ℕ → Recovery → ℕ → ℕ
horizon activation r end =
    activation + end * r.segment_duration - r.baseline_end * r.segment_duration

abbrev pub goes_back : ℕ → Option ℕ → Bool
goes_back now none = false
goes_back now (some t) = ltb now t

abbrev pub advanced : Recovery → ℕ → ℕ → ℕ → Recovery
advanced r activation end now = record r {
  common_end = end;
  last_common_confirmed_at = some now;
  deadline = some (min_time (horizon activation r end) now + recovery_window);
}

abbrev pub advance_from : Capture → ℕ → ℕ → Option ℕ → Capture
advance_from c now end none = c
advance_from c now end (some activation) =
    if leb end c.recovery.common_end
    then c
    else record c { recovery = advanced c.recovery activation end (to_micros now) }

-- There is no clock to advance.
abbrev pub is_still : Capture → ℕ → Bool
is_still c now =
    not c.recovery.active
    || is_none c.recovery.activation_at
    || is_none c.recovery.deadline
    || is_some c.idle_end
    || goes_back now c.recovery.last_common_confirmed_at

unfoldable pub advance_recovery : Capture → ℕ → Capture
advance_recovery c now =
    if is_still c now then c else advance_from c now (confirmed_end c) c.recovery.activation_at
