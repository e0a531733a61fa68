-- ===== src/Capture/Model.antt =====
-- A capture and what belongs to it. Times and durations are nanoseconds since Go's zero time; a size
-- or a count below 0, which every check rejects, is 0. The live progress and the read grant of a
-- capture are written by other components and are left out.
use asset_api.Base.{ℕ, String, Bool, true, false, Option, List}

pub data CaptureState : Type 0 where
  uploading freezing validating ready aborted failed expired : CaptureState

-- `rejected` is the state that the source spells "failed".
pub data ObjectState : Type 0 where
  declared queued verified rejected : ObjectState

pub record PackageObject : Type 0 where
  pub path : String
  pub size_bytes : ℕ
  pub sha256 : String

pub record CaptureObject : Type 0 where
  pub object : PackageObject
  pub open object use *
  pub state : ObjectState

pub data Operation : Type 0 where
  create declare confirm seal abort : Operation

pub record Receipt : Type 0 where
  pub operation_key : String
  pub operation : Operation
  pub accepted_at : ℕ
  pub capture_id : String

pub record StoredReceipt : Type 0 where
  pub digest : String
  pub receipt : Receipt

-- Of the renditions the capture service reads their number alone.
pub record Inventory : Type 0 where
  pub preset_version : String
  pub objects : List PackageObject
  pub rendition_count : ℕ
  pub inventory_digest : String

pub record Recovery : Type 0 where
  pub version : String
  pub active : Bool
  pub activation_at : Option ℕ
  pub baseline_end : ℕ
  pub segment_duration : ℕ
  pub common_end : ℕ
  pub last_common_confirmed_at : Option ℕ
  pub deadline : Option ℕ

pub record Capture : Type 0 where
  pub id : String
  pub actor_id : String
  pub recording_id : String
  pub state : CaptureState
  pub expires_at : ℕ
  pub declared_bytes : ℕ
  pub declared_objects : ℕ
  pub objects : List CaptureObject
  pub receipts : List (String × StoredReceipt)
  pub package_id : Option String
  pub inventory : Option Inventory
  pub terminal_at : Option ℕ
  pub terminal_reason : Option String
  pub broadcast_epoch : ℕ
  pub segment_frames : ℕ
  pub last_media_confirmed_at : Option ℕ
  pub idle_end : Option ℕ
  pub recovery : Recovery

abbrev pub package_max_bytes : ℕ
package_max_bytes = 10_000_000_000

abbrev pub object_max_bytes : ℕ
object_max_bytes = 134_217_728

abbrev pub playlist_max_bytes : ℕ
playlist_max_bytes = 1_048_576

abbrev pub package_max_objects : ℕ
package_max_objects = 13_000

abbrev pub max_segments : ℕ
max_segments = 4320

abbrev pub recovery_window : ℕ
recovery_window = 300_000_000_000

abbrev pub recovery_version : String
recovery_version = "common-watermark-v1"

abbrev pub state_is : CaptureState → CaptureState → Bool
state_is uploading uploading = true
state_is freezing freezing = true
state_is validating validating = true
state_is ready ready = true
state_is aborted aborted = true
state_is failed failed = true
state_is expired expired = true
state_is _ _ = false

abbrev pub object_state_is : ObjectState → ObjectState → Bool
object_state_is declared declared = true
object_state_is queued queued = true
object_state_is verified verified = true
object_state_is rejected rejected = true
object_state_is _ _ = false

abbrev pub operation_is : Operation → Operation → Bool
operation_is create create = true
operation_is declare declare = true
operation_is confirm confirm = true
operation_is seal seal = true
operation_is abort abort = true
operation_is _ _ = false
