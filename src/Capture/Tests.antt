-- ===== src/Capture/Tests.antt =====
-- Runs of a capture at concrete inputs, with the instances of its theorems.
use asset_api.Base.{
  code_le, ℕ, ◌*◌, String, ◌≡◌, ◌≢◌, refl, true, some, List, [], ◌∷◌, arith, insert, lookup,
  strip_prefix, strip_run, second,
}
use asset_api.Errors.{ok, err, panicked}
use asset_api.Capture.Model.{declared, queued, Recovery, Capture, recovery_version}
use asset_api.Capture.Objects.{
  is_operation_key, is_object_path, has_suffix, valid_object, insert_sorted, sort_objects,
  check_objects, existing, index_of, paths_loop, capture_paths,
}
use asset_api.Capture.Recovery.{close_expired, advance_recovery}
use asset_api.Capture.Mutate.{mutate, admitted}
use asset_api.Capture.Declare.{declare_loop, declare}
use asset_api.Capture.Confirm.{
  Snapshot, objects_at, check_sizes, queue_objects, accept_confirm, confirm_commit, snapshot_of,
}
use asset_api.Capture.Run.{Request, confirms, Step, requests, signals, apply, step, run, input_of}
use asset_api.Capture.Receipts.{accepted_repeats}
use asset_api.Capture.Counters.{IsCounted, counters_exact}
use asset_api.Capture.Cutoff.{cutoff_fixed, deadline_bounded, IsTimely}
use asset_api.Capture.Watermark.{watermark-IsBacked, IsBacked}
use asset_api.Capture.Expiry.{late_confirm_ends, HasEnded}
use asset_api.Capture.Bounds.{confirm_in_bounds}
use asset_api.Capture.Fixtures.{
  after_declare, segment, fresh, digest, any_size, declare_batch, batch_paths, seen, ten_bytes,
  confirm_batch, in_state,
}

declares_ok : apply digest any_size second declare_batch fresh ≡ ok after_declare
unfolding run step apply declare mutate admitted declare_loop is_operation_key is_object_path
    has_suffix valid_object code_le insert_sorted sort_objects check_objects existing insert lookup
    input_of strip_prefix strip_run
declares_ok = refl

abbrev timeline : List (ℕ × Step)
timeline = (2 * second, requests confirm_batch) ∷ (3 * second, signals "a1" true) ∷ []

accepted_repeats_example :
    apply digest any_size (900 * second) declare_batch (run digest any_size timeline after_declare)
    ≡ ok (run digest any_size timeline after_declare)
accepted_repeats_example =
    accepted_repeats digest any_size second declare_batch fresh after_declare timeline
      (900 * second) declares_ok

repeats_ok :
    apply digest any_size (900 * second) declare_batch (run digest any_size timeline after_declare)
    ≡ ok (run digest any_size timeline after_declare)
repeats_ok =
    accepted_repeats digest any_size second declare_batch fresh after_declare timeline
      (900 * second) declares_ok

-- The whole life of a small capture.
abbrev life : List (ℕ × Step)
life = (second, requests declare_batch) ∷ timeline

counters_exact_example : IsCounted (run digest any_size life fresh)
counters_exact_example =
    counters_exact digest any_size life fresh
      (unfold IsCounted in (refl, refl, omega arith, omega arith))

watermark-IsBacked_example : IsBacked (run digest any_size life fresh)
watermark-IsBacked_example =
    watermark-IsBacked digest any_size life fresh
      (unfold IsBacked in (λ n l. absurd (omega arith), λ end n e l. absurd (cc)))

deadline_bounded_example : IsTimely (run digest any_size life fresh)
deadline_bounded_example =
    deadline_bounded digest any_size life fresh (unfold IsTimely in λ d t a p q r. absurd (cc))

abbrev cut : Capture
cut = record fresh { idle_end = some 3 }

cutoff_fixed_example : (run digest any_size life cut).idle_end ≡ some 3
cutoff_fixed_example = cutoff_fixed 3 digest any_size life cut refl

first_seen : snapshot_of after_declare batch_paths ≡ ok seen
unfolding snapshot_of capture_paths objects_at run apply declare mutate lookup admitted declare_loop
first_seen = refl

confirm_in_bounds_example :
    accept_confirm (2 * second) batch_paths seen (ok ten_bytes) after_declare ≢ err panicked
confirm_in_bounds_example =
    confirm_in_bounds (2 * second) batch_paths seen (ok ten_bytes) after_declare after_declare
      first_seen (λ h. cc)

-- A broadcast whose first segment has arrived, and whose second comes after the deadline.
abbrev running : Recovery
running = record {
  version = recovery_version;
  active = true;
  activation_at = some (100 * second);
  baseline_end = 1;
  segment_duration = 30 * second;
  common_end = 1;
  last_common_confirmed_at = some (100 * second);
  deadline = some (400 * second);
}

abbrev broadcast : Capture
broadcast = record fresh {
  declared_bytes = 40;
  declared_objects = 4;
  objects =
      in_state queued "480p/seg-000000.m4s"
      ∷ in_state queued "720p/seg-000000.m4s"
      ∷ in_state queued "1080p/seg-000000.m4s"
      ∷ in_state declared "480p/seg-000001.m4s"
      ∷ [];
  recovery = running;
}

abbrev late_seen : Snapshot
late_seen = record {
  recording_id = "r1";
  broadcast_epoch = 1;
  declarations = segment "480p/seg-000001.m4s" ∷ [];
}

abbrev late_paths : List String
late_paths = "480p/seg-000001.m4s" ∷ []

abbrev late_confirm : Request
late_confirm = confirms "a1" "k9" late_paths late_seen (ok ten_bytes)

abbrev after_late : Capture
after_late = run digest any_size ((500 * second, requests late_confirm) ∷ []) broadcast

late_ok : apply digest any_size (500 * second) late_confirm broadcast ≡ ok after_late
unfolding run step apply confirm_commit mutate admitted accept_confirm capture_paths paths_loop
    index_of objects_at check_sizes queue_objects close_expired advance_recovery has_suffix
    strip_prefix is_operation_key lookup insert input_of
late_ok = refl

late_confirm_ends_example : HasEnded 1 (run digest any_size timeline after_late)
unfolding lookup
late_confirm_ends_example =
    late_confirm_ends digest any_size (500 * second) "a1" "k9" late_paths late_seen (ok ten_bytes)
      broadcast after_late timeline late_ok refl refl
