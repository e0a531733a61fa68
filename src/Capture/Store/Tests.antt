-- ===== src/Capture/Store/Tests.antt =====
-- Transactions of a capture over its rows at concrete inputs, with the instances of their theorems.
use asset_api.Base.{
  ℕ, ◌*◌, String, Bool, true, false, ◌≡◌, ◌≢◌, refl, Option, some, none, [], ◌∷◌, lookup, insert,
  second,
}
use asset_api.Errors.{Result, ok, err, conflict}
use asset_api.Capture.Model.{
  CaptureState, freezing, validating, ready, aborted, queued, Capture, Inventory, Recovery,
  StoredReceipt,
}
use asset_api.Capture.Objects.{is_operation_key}
use asset_api.Capture.Mutate.{
  Input, objects_input, paths_input, seal_input, reason_input, mutate, admitted,
}
use asset_api.Capture.Seal.{abort}
use asset_api.Capture.Run.{Request, aborts, apply, input_of}
use asset_api.Capture.Store.{
  Rows, refresh, follow_package, update_capture, upsert_object, upsert_objects,
}
use asset_api.Capture.Store.Ready.{deleted_only_repeats}
use asset_api.Capture.Store.Aborts.{abort_never_ready, IsLinked}

abbrev digest : Input → String
digest (objects_input os) = "objects"
digest (paths_input ps) = "paths"
digest (seal_input b d) = d
digest (reason_input r) = r

abbrev any_size : Inventory → Result ℕ
any_size inv = ok 30

abbrev no_clock : Recovery
no_clock = record {
  version = "";
  active = false;
  activation_at = none;
  baseline_end = 0;
  segment_duration = 0;
  common_end = 0;
  last_common_confirmed_at = none;
  deadline = none;
}

abbrev sealed : Capture
sealed = record {
  id = "c1";
  actor_id = "a1";
  recording_id = "r1";
  state = freezing;
  expires_at = 1000 * second;
  declared_bytes = 10;
  declared_objects = 1;
  objects =
      record {
        object = record { path = "master.m3u8"; size_bytes = 10; sha256 = "00" };
        state = queued;
      }
      ∷ [];
  receipts = [];
  package_id = some "c1";
  inventory = none;
  terminal_at = none;
  terminal_reason = none;
  broadcast_epoch = 0;
  segment_frames = 900;
  last_media_confirmed_at = none;
  idle_end = none;
  recovery = no_clock;
}

abbrev rows_of : Capture → Option CaptureState → Bool → Rows
rows_of c p deleted = record { capture = c; package_state = p; deleted = deleted; range = none }

abbrev no_race : CaptureState → CaptureState
no_race s = s

abbrev validates : CaptureState → CaptureState
validates s = ready

abbrev give_up : Request
give_up = aborts "a1" "k1" "user_abort"

abbrev rows_after : Result Rows → Rows → Rows
rows_after (ok r) _ = r
rows_after (err e) r = r

abbrev given_up : Rows
given_up =
    rows_after
      (update_capture any_size (5 * second) no_race (apply digest any_size (5 * second) give_up)
        (rows_of sealed (some validating) false))
      (rows_of sealed none false)

gives_up :
    update_capture any_size
      (5 * second)
      no_race
      (apply digest any_size (5 * second) give_up)
      (rows_of sealed (some validating) false)
    ≡ ok given_up
unfolding update_capture refresh follow_package apply abort mutate admitted is_operation_key
    input_of lookup insert upsert_objects upsert_object
gives_up = refl

-- The validation that commits first wins.
validated_first :
    update_capture any_size
      (5 * second)
      validates
      (apply digest any_size (5 * second) give_up)
      (rows_of sealed (some validating) false)
    ≡ err conflict
unfolding update_capture refresh follow_package apply abort mutate admitted is_operation_key
    input_of lookup insert
validated_first = refl

abort_never_ready_example :
    IsLinked given_up × (given_up.capture.state ≡ aborted → given_up.package_state ≢ some ready)
abort_never_ready_example =
    abort_never_ready digest any_size any_size (5 * second) (5 * second) no_race give_up
      (rows_of sealed (some validating) false) given_up (λ m. cc) gives_up

-- The abort is repeated after the recording is deleted.
abbrev deleted_rows : Rows
deleted_rows = record given_up { deleted = true }

abbrev repeated : Rows
repeated =
    rows_after
      (update_capture any_size (9 * second) no_race (apply digest any_size (9 * second) give_up)
        deleted_rows)
      deleted_rows

repeats :
    update_capture any_size
      (9 * second)
      no_race
      (apply digest any_size (9 * second) give_up)
      deleted_rows
    ≡ ok repeated
unfolding update_capture refresh follow_package apply abort mutate admitted is_operation_key
    input_of lookup insert upsert_objects upsert_object
repeats = refl

deleted_only_repeats_example :
    (old : StoredReceipt) × (lookup "k1" deleted_rows.capture.receipts ≡ some old)
deleted_only_repeats_example =
    deleted_only_repeats digest any_size any_size (9 * second) (9 * second) no_race give_up
      deleted_rows repeated refl repeats
