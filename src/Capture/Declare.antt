-- ===== src/Capture/Declare.antt =====
-- The callbacks that RecordingCaptureService runs on a capture inside the repository's transaction
-- (internal/assets/recording_capture.go): Declare.
use asset_api.Base.{
  ℕ, ◌+◌, String, Bool, ◌&&◌, ◌||◌, Option, none, some, List, [], ◌∷◌, ◌++◌, ltb, leb,
  if◌then◌else◌, length,
}
use asset_api.Errors.{Result, ok, err, ◌>>◌, guard, invalid_input, conflict, package_too_large}
use asset_api.Capture.Model
use asset_api.Capture.Model.{
  CaptureState, uploading, freezing, validating, expired, aborted, ObjectState, declared, queued,
  verified, rejected, PackageObject, CaptureObject, Operation, Receipt, StoredReceipt, Inventory,
  Recovery, Capture, package_max_bytes, package_max_objects, state_is, object_state_is,
  operation_is,
}
use asset_api.Capture.Objects.{is_operation_key, same_object, sort_objects, check_objects, existing}
use asset_api.Capture.Mutate.{Input, objects_input, mutate}

abbrev pub is_full : Capture → PackageObject → Bool
is_full c o =
    leb package_max_objects c.declared_objects
    || ltb package_max_bytes (c.declared_bytes + o.size_bytes)

abbrev pub add_object : Capture → PackageObject → Capture
add_object c o = record c {
  objects = c.objects ++ record { object = o; state = declared } ∷ [];
  declared_objects = c.declared_objects + 1;
  declared_bytes = c.declared_bytes + o.size_bytes;
}

-- The loop of Declare. `known` is the map of the objects that the capture had before it.
unfoldable pub declare_loop :
    (String → Option PackageObject) → List PackageObject → Capture → Result Capture
declare_loop known [] c = ok c
declare_loop known (o ∷ os) c = elim (known o.path) [
  | some old ↦ if same_object old o then declare_loop known os c else err conflict
  | none ↦
      let rest = declare_loop known os (add_object c o) in
      if is_full c o then err package_too_large else rest
]

module _ (digest_of : Input → String) where
  unfoldable pub declare : ℕ → String → String → List PackageObject → Capture → Result Capture
  unfolding is_operation_key sort_objects check_objects existing
  declare now actor key objects c =
      let sorted = sort_objects objects in
      do
        guard (leb 1 (length objects) && leb (length objects) 100) invalid_input
        guard (check_objects none sorted) invalid_input
        guard (is_operation_key key) invalid_input
        mutate now actor key Model.declare (digest_of (objects_input sorted))
            (λ d. declare_loop (existing d.objects) sorted d) c
