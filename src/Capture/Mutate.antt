-- ===== src/Capture/Mutate.antt =====
-- The callbacks that RecordingCaptureService runs on a capture inside the repository's transaction
-- (internal/assets/recording_capture.go): ownership, receipts and `mutate`. The SHA-256 digest of an
-- operation's JSON input is a parameter of the operations.
use asset_api.Base.{
  ℕ, String, Bool, ◌&&◌, ◌||◌, none, some, List, ltb, not, str_eq, if◌then◌else◌, length, lookup,
  insert,
}
use asset_api.Errors.{Result, ok, err, ◌>>=◌, ◌>>◌, guard, conflict, forbidden, capture_expired}
use asset_api.Capture.Model
use asset_api.Capture.Model.{
  CaptureState, uploading, freezing, validating, expired, aborted, ObjectState, declared, queued,
  verified, rejected, PackageObject, CaptureObject, Operation, Receipt, StoredReceipt, Inventory,
  Recovery, Capture, package_max_bytes, package_max_objects, state_is, object_state_is,
  operation_is,
}
use asset_api.Capture.Recovery.{to_micros}

-- captureOwner: whether the actor owns the capture.
abbrev pub is_owner : Capture → String → Bool
is_owner c actor = not (str_eq actor "") && str_eq c.actor_id actor

-- Only an abort is taken from a capture that is frozen or being validated.
abbrev pub admits : CaptureState → Operation → Bool
admits s op =
    state_is s uploading
    || (operation_is op Model.abort && (state_is s freezing || state_is s validating))

-- create, per-object declare and confirm, seal; and one emergency receipt for an abort.
abbrev pub receipt_limit : Operation → ℕ
receipt_limit op = if operation_is op Model.abort then 26_003 else 26_002

-- A receipt that is already stored answers the operation, or refuses another under its key.
abbrev pub replayed : StoredReceipt → String → Operation → Capture → Result Capture
replayed old digest op c =
    if not (str_eq old.digest digest) || not (operation_is (old.receipt.operation) op)
    then err conflict
    else ok c

abbrev pub store_receipt : String → String → Operation → ℕ → Capture → Capture
store_receipt key digest op now c = record c {
  receipts =
      insert key
        (record {
          digest = digest;
          receipt = record {
            operation_key = key;
            operation = op;
            accepted_at = to_micros now;
            capture_id = c.id;
          };
        })
        c.receipts;
}

-- The checks of an operation that has no receipt yet.
unfoldable pub admitted : ℕ → Operation → Capture → Result (Unit {0})
admitted now op c = do
  guard (not (state_is c.state expired)) capture_expired
  guard (admits c.state op) conflict
  guard (ltb now c.expires_at) capture_expired
  guard (ltb (length c.receipts) (receipt_limit op)) conflict

-- The callback of `mutate`.
unfoldable pub mutate :
    ℕ → String → String → Operation → String → (Capture → Result Capture) → Capture → Result Capture
mutate now actor key op digest fn c =
    if not (is_owner c actor) then err forbidden else elim (lookup key c.receipts) [
      | some old ↦ replayed old digest op c
      | none ↦ do admitted now op c; c' ← fn c; ok (store_receipt key digest op now c')
    ]

-- What the digest of an operation is taken of.
pub data Input : Type 0 where
  objects_input : List PackageObject → Input
  paths_input : List String → Input
  seal_input : Bool → String → Input
  reason_input : String → Input
