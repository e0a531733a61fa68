-- ===== src/Capture/Fixtures.antt =====
-- A small recording capture, shared by the runs of the tests.
use asset_api.Base.{ℕ, ◌*◌, String, false, none, List, [], ◌∷◌, second}
use asset_api.Errors.{Result, ok}
use asset_api.Capture.Model.{
  uploading, ObjectState, PackageObject, CaptureObject, Inventory, Recovery, Capture,
}
use asset_api.Capture.Mutate.{Input, objects_input, paths_input, seal_input, reason_input}
use asset_api.Capture.Confirm.{Snapshot}
use asset_api.Capture.Run.{Request, declares, confirms, requests, run}

abbrev pub sha : String
sha = "00000000000000000000000000000000000000000000000000000000000000ff"

abbrev pub segment : String → PackageObject
segment path = record { path = path; size_bytes = 10; sha256 = sha }

abbrev pub batch : List PackageObject
batch =
    segment "720p/seg-000000.m4s"
    ∷ segment "480p/seg-000000.m4s"
    ∷ segment "1080p/seg-000000.m4s"
    ∷ []

abbrev pub idle_clock : Recovery
idle_clock = record {
  version = "";
  active = false;
  activation_at = none;
  baseline_end = 0;
  segment_duration = 0;
  common_end = 0;
  last_common_confirmed_at = none;
  deadline = none;
}

abbrev pub fresh : Capture
fresh = record {
  id = "c1";
  actor_id = "a1";
  recording_id = "r1";
  state = uploading;
  expires_at = 1000 * second;
  declared_bytes = 0;
  declared_objects = 0;
  objects = [];
  receipts = [];
  package_id = none;
  inventory = none;
  terminal_at = none;
  terminal_reason = none;
  broadcast_epoch = 1;
  segment_frames = 900;
  last_media_confirmed_at = none;
  idle_end = none;
  recovery = idle_clock;
}

abbrev pub digest : Input → String
digest (objects_input os) = "objects"
digest (paths_input ps) = "paths"
digest (seal_input b d) = d
digest (reason_input r) = r

abbrev pub any_size : Inventory → Result ℕ
any_size inv = ok 30

abbrev pub declare_batch : Request
declare_batch = declares "a1" "k1" batch

abbrev pub batch_paths : List String
batch_paths = "1080p/seg-000000.m4s" ∷ "480p/seg-000000.m4s" ∷ "720p/seg-000000.m4s" ∷ []

abbrev pub seen : Snapshot
seen = record {
  recording_id = "r1";
  broadcast_epoch = 1;
  declarations =
      segment "1080p/seg-000000.m4s"
      ∷ segment "480p/seg-000000.m4s"
      ∷ segment "720p/seg-000000.m4s"
      ∷ [];
}

abbrev pub ten_bytes : String → ℕ
ten_bytes path = 10

abbrev pub confirm_batch : Request
confirm_batch = confirms "a1" "k2" batch_paths seen (ok ten_bytes)

abbrev pub in_state : ObjectState → String → CaptureObject
in_state s path = record { object = segment path; state = s }

abbrev pub after_declare : Capture
after_declare = run digest any_size ((second, requests declare_batch) ∷ []) fresh
