-- ===== src/Capture/Seal.antt =====
-- The callbacks that RecordingCaptureService runs on a capture inside the repository's transaction
-- (internal/assets/recording_capture.go): Seal and Abort. The check
-- of an inventory (ValidateRecordingInventory) is the parameter `inventory_size`.
use asset_api.Base.{
  ℕ, String, Bool, ◌&&◌, ◌||◌, Option, none, some, List, [], ◌∷◌, ◌==◌, not, str_eq, if◌then◌else◌,
  length, same_bool,
}
use asset_api.Errors.{
  Result, ok, err, ◌>>=◌, ◌>>◌, guard, invalid_input, conflict, capture_missing_objects,
}
use asset_api.Capture.Model
use asset_api.Capture.Model.{
  CaptureState, uploading, freezing, validating, expired, aborted, ObjectState, declared, queued,
  verified, rejected, PackageObject, CaptureObject, Operation, Receipt, StoredReceipt, Inventory,
  Recovery, Capture, package_max_bytes, package_max_objects, state_is, object_state_is,
  operation_is,
}
use asset_api.Capture.Objects.{is_operation_key, same_object}
use asset_api.Capture.Recovery.{to_micros}
use asset_api.Capture.Mutate.{Input, seal_input, reason_input, mutate}

abbrev pub ten_second_preset : String
ten_second_preset = "obs-hls-10s-v1"

-- declared[path], with the object's state.
unfoldable pub declared_object : List CaptureObject → String → Option CaptureObject
declared_object [] path = none
declared_object (o ∷ os) path = elim (declared_object os path) [
  | some p ↦ some p
  | none ↦ if str_eq o.path path then some o else none
]

abbrev pub is_uploaded : ObjectState → Bool
is_uploaded s = object_state_is s queued || object_state_is s verified

-- The loop of Seal: every object of the inventory is declared as it is and has arrived.
unfoldable pub check_inventory : List CaptureObject → List PackageObject → Result (Unit {0})
unfolding declared_object
check_inventory objects [] = ok tt
check_inventory objects (o ∷ os) = elim (declared_object objects o.path) [
  | none ↦ err conflict
  | some old ↦ do
    guard (same_object old.object o) conflict
    guard (is_uploaded old.state) capture_missing_objects
    check_inventory objects os
]

abbrev pub frozen : Inventory → Capture → Capture
frozen inv c = record c { state = freezing; package_id = some c.id; inventory = some inv }

abbrev pub has_preset : Inventory → Capture → Bool
has_preset inv c = same_bool (c.segment_frames == 300) (str_eq inv.preset_version ten_second_preset)

abbrev pub has_count : Inventory → Capture → Bool
has_count inv c = length inv.objects == length c.objects

-- The callback of Seal.
unfoldable pub freeze : Inventory → Capture → Result Capture
unfolding check_inventory
freeze inv c = do
  guard (has_preset inv c) invalid_input
  guard (has_count inv c) capture_missing_objects
  check_inventory c.objects inv.objects
  ok (frozen inv c)

module _ (digest_of : Input → String) (inventory_size : Inventory → Result ℕ) where
  unfoldable pub seal : ℕ → String → String → Bool → Inventory → Capture → Result Capture
  unfolding is_operation_key freeze
  seal now actor key normal_end inv c = do
    guard (normal_end && inv.rendition_count == 3 && not (str_eq inv.inventory_digest ""))
        invalid_input
    size ← inventory_size inv
    guard (is_operation_key key) invalid_input
    mutate now actor key Model.seal (digest_of (seal_input normal_end inv.inventory_digest))
        (freeze inv) c

abbrev pub abort_reason : String → Bool
abort_reason r =
    str_eq r "user_abort"
    || str_eq r "disk_limit"
    || str_eq r "encoder_failure"
    || str_eq r "capture_incomplete"

-- The callback of Abort.
abbrev pub aborting : ℕ → String → Capture → Capture
aborting now reason c = record c {
  state = aborted;
  terminal_at = some (to_micros now);
  terminal_reason = some reason;
}

module _ (digest_of : Input → String) where
  unfoldable pub abort : ℕ → String → String → String → Capture → Result Capture
  unfolding is_operation_key
  abort now actor key reason c = do
    guard (abort_reason reason) invalid_input
    guard (is_operation_key key) invalid_input
    mutate now actor key Model.abort (digest_of (reason_input reason))
        (λ d. ok (aborting now reason d)) c
