-- ===== src/Capture/Run.antt =====
-- The mutations of a capture as requests, each of which is one transaction over the capture
-- (RecordingCaptureService in internal/assets/recording_capture.go). A refused request rolls its
-- transaction back.
pub mod Accepted
pub mod Keeps
pub mod Signals
pub mod Kept
use asset_api.Base.{ℕ, String, Bool, List, [], ◌∷◌, ◌≡◌}
use asset_api.Errors.{Result, ok, err}
use asset_api.Capture.Model
use asset_api.Capture.Model.{PackageObject, Inventory, Operation, Capture}
use asset_api.Capture.Objects.{sort_objects}
use asset_api.Broadcast.Range.{BroadcastRange}
use asset_api.Capture.Recovery.{Rate, arm_recovery}
use asset_api.Capture.Signal.{BroadcastSignal, broadcast_signal}
use asset_api.Capture.Mutate.{Input, objects_input, paths_input, seal_input, reason_input}
use asset_api.Capture.Declare.{declare}
use asset_api.Capture.Confirm.{Snapshot, confirm_commit}
use asset_api.Capture.Seal.{seal, abort}

-- The actor and the key come first. A confirm is its second transaction, with what its first saw.
pub data Request : Type 0 where
  declares : String → String → List PackageObject → Request
  confirms : String → String → List String → Snapshot → Result (String → ℕ) → Request
  seals : String → String → Bool → Inventory → Request
  aborts : String → String → String → Request

abbrev pub key_of : Request → String
key_of (declares actor key objects) = key
key_of (confirms actor key paths snapshot listing) = key
key_of (seals actor key normal_end inv) = key
key_of (aborts actor key reason) = key

abbrev pub actor_of : Request → String
actor_of (declares actor key objects) = actor
actor_of (confirms actor key paths snapshot listing) = actor
actor_of (seals actor key normal_end inv) = actor
actor_of (aborts actor key reason) = actor

abbrev pub operation_of : Request → Operation
operation_of (declares actor key objects) = Model.declare
operation_of (confirms actor key paths snapshot listing) = Model.confirm
operation_of (seals actor key normal_end inv) = Model.seal
operation_of (aborts actor key reason) = Model.abort

unfoldable pub input_of : Request → Input
unfolding sort_objects
input_of (declares actor key objects) = objects_input (sort_objects objects)
input_of (confirms actor key paths snapshot listing) = paths_input paths
input_of (seals actor key normal_end inv) = seal_input normal_end inv.inventory_digest
input_of (aborts actor key reason) = reason_input reason

module _ (digest_of : Input → String) (inventory_size : Inventory → Result ℕ) where
  unfoldable pub apply : ℕ → Request → Capture → Result Capture
  apply now (declares actor key objects) c = declare digest_of now actor key objects c
  apply now (confirms actor key paths snapshot listing) c =
      confirm_commit digest_of now actor key paths snapshot listing c
  apply now (seals actor key normal_end inv) c =
      seal digest_of inventory_size now actor key normal_end inv c
  apply now (aborts actor key reason) c = abort digest_of now actor key reason c

-- A mutation, a broadcast signal, or the start of the recovery clock when the range goes live.
pub data Step : Type 0 where
  requests : Request → Step
  signals : String → Bool → Step
  arms : BroadcastRange → Rate → Step

abbrev pub capture_after : Result (BroadcastSignal × Capture) → Result Capture
capture_after (ok (s, c)) = ok c
capture_after (err e) = err e

abbrev pub committed : Result Capture → Capture → Capture
committed (ok c') c = c'
committed (err e) c = c

module _ (digest_of : Input → String) (inventory_size : Inventory → Result ℕ) where
  unfoldable pub step : ℕ → Step → Capture → Result Capture
  step now (requests r) c = apply digest_of inventory_size now r c
  step now (signals actor allow_close) c = capture_after (broadcast_signal now actor allow_close c)
  step now (arms policy rate) c = arm_recovery c policy rate now

  unfoldable pub run : List (ℕ × Step) → Capture → Capture
  unfolding step
  run [] c = c
  run ((now, s) ∷ ss) c = run ss (committed (step now s c) c)
