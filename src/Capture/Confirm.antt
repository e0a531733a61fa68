-- ===== src/Capture/Confirm.antt =====
-- The callbacks that RecordingCaptureService runs on a capture inside the repository's transaction
-- (internal/assets/recording_capture.go): Confirm, with its two
-- transactions and the listing of the stored objects between them.
use asset_api.Base.{
  code_le, ℕ, String, Bool, ◌&&◌, none, some, List, [], ◌∷◌, ◌==◌, not, str_eq, if◌then◌else◌,
  get_elem?, set, codes,
}
use asset_api.Errors.{
  Result, ok, err, ◌>>=◌, ◌>>◌, guard, invalid_input, conflict, capture_missing_objects,
  needs_objects, panicked,
}
use asset_api.Capture.Model
use asset_api.Capture.Model.{
  CaptureState, uploading, freezing, validating, expired, aborted, ObjectState, declared, queued,
  verified, rejected, PackageObject, CaptureObject, Operation, Receipt, StoredReceipt, Inventory,
  Recovery, Capture, package_max_bytes, package_max_objects, state_is, object_state_is,
  operation_is,
}
use asset_api.Capture.Objects.{is_operation_key, same_object, capture_paths, has_suffix}
use asset_api.Capture.Recovery.{close_expired, advance_recovery}
use asset_api.Capture.Mutate.{Input, paths_input, mutate}

-- c.Objects[i] for the indices, in order.
unfoldable pub objects_at : List CaptureObject → List ℕ → Result (List CaptureObject)
objects_at objects [] = ok []
objects_at objects (i ∷ is) = elim (get_elem? objects i) [
  | none ↦ err panicked
  | some o ↦ do os ← objects_at objects is; ok (o ∷ os)
]

-- The loop that compares with declarations[n], which may be out of range.
unfoldable pub check_declarations : List CaptureObject → List PackageObject → Result (Unit {0})
check_declarations [] ds = ok tt
check_declarations (o ∷ os) [] = err panicked
check_declarations (o ∷ os) (d ∷ ds) =
    guard (same_object o.object d) conflict >> check_declarations os ds

-- The evidence of the listing: no object has failed, and each has its declared size.
unfoldable pub check_sizes : (String → ℕ) → List CaptureObject → Result (Unit {0})
check_sizes sizes [] = ok tt
check_sizes sizes (o ∷ os) = do
  guard (not (object_state_is o.state rejected)) conflict
  guard (sizes o.path == o.size_bytes) capture_missing_objects
  check_sizes sizes os

abbrev pub queue_object : Capture → ℕ → ℕ → CaptureObject → Capture
queue_object c at i o =
    if object_state_is o.state declared
    then record c {
      objects = set c.objects i (record o { state = queued });
      last_media_confirmed_at =
          if has_suffix (codes ".m4s") (codes o.path) then some at else c.last_media_confirmed_at;
    }
    else c

-- The loop that marks declared objects as queued.
unfoldable pub queue_objects : ℕ → List ℕ → Capture → Result Capture
unfolding has_suffix
queue_objects at [] c = ok c
queue_objects at (i ∷ is) c = elim (get_elem? c.objects i) [
  | none ↦ err panicked
  | some o ↦ queue_objects at is (queue_object c at i o)
]

-- What the first transaction of Confirm saw.
pub record Snapshot : Type 0 where
  pub recording_id : String
  pub broadcast_epoch : ℕ
  pub declarations : List PackageObject

abbrev pub same_broadcast : Capture → Snapshot → Bool
same_broadcast c snapshot =
    str_eq c.recording_id snapshot.recording_id && c.broadcast_epoch == snapshot.broadcast_epoch

-- The callback of the second transaction. `listing` is the answer of storage, which is asked between
-- the two: an error, or the sizes by path, 0 where there is no object.
unfoldable pub accept_confirm :
    ℕ → List String → Snapshot → Result (String → ℕ) → Capture → Result Capture
unfolding capture_paths objects_at check_declarations
accept_confirm now paths snapshot listing c = do
  guard (same_broadcast c snapshot) conflict
  indices ← capture_paths c paths
  objects ← objects_at c.objects indices
  check_declarations objects snapshot.declarations
  sizes ← listing
  check_sizes sizes objects
  c' ← queue_objects now indices (close_expired c now)
  ok (advance_recovery c' now)

-- slices.Sort(paths)
unfoldable pub insert_path : String → List String → List String
unfolding code_le
insert_path p [] = p ∷ []
insert_path p (q ∷ qs) = if code_le (codes p) (codes q) then p ∷ q ∷ qs else q ∷ insert_path p qs

unfoldable pub sort_paths : List String → List String
unfolding insert_path
sort_paths [] = []
sort_paths (p ∷ ps) = insert_path p (sort_paths ps)

module _ (digest_of : Input → String) where
  -- The first transaction of Confirm: it ends in the sentinel when storage has to be asked.
  unfoldable pub confirm_preflight : ℕ → String → String → List String → Capture → Result Capture
  unfolding is_operation_key capture_paths
  confirm_preflight now actor key paths c = do
    guard (is_operation_key key) invalid_input
    mutate now actor key Model.confirm (digest_of (paths_input paths))
        (λ d. do indices ← capture_paths d paths; err needs_objects) c

  -- The second transaction.
  unfoldable pub confirm_commit :
      ℕ → String → String → List String → Snapshot → Result (String → ℕ) → Capture → Result Capture
  unfolding is_operation_key
  confirm_commit now actor key paths snapshot listing c = do
    guard (is_operation_key key) invalid_input
    mutate now actor key Model.confirm (digest_of (paths_input paths))
        (accept_confirm now paths snapshot listing) c

-- declarations
abbrev pub declarations_of : List CaptureObject → List PackageObject
declarations_of [] = []
declarations_of (o ∷ os) = o.object ∷ declarations_of os

unfoldable pub snapshot_of : Capture → List String → Result Snapshot
unfolding capture_paths objects_at
snapshot_of c paths = do
  indices ← capture_paths c paths
  objects ← objects_at c.objects indices
  ok (record {
    recording_id = c.recording_id;
    broadcast_epoch = c.broadcast_epoch;
    declarations = declarations_of objects;
  })

module _ (digest_of : Input → String) where
  abbrev pub confirm_with :
      ℕ
      → String
      → String
      → List String
      → Result (String → ℕ)
      → Capture
      → Result Capture
      → Result Snapshot
      → Result Capture
  confirm_with now actor key paths listing c (err needs_objects) snapshot = do
    s ← snapshot
    confirm_commit digest_of now actor key paths s listing c
  confirm_with now actor key paths listing c first snapshot = first

  -- Confirm: `before` is the capture that the first transaction reads, `c` the one the second reads.
  unfoldable pub confirm :
      ℕ
      → ℕ
      → String
      → String
      → List String
      → Result (String → ℕ)
      → Capture
      → Capture
      → Result Capture
  unfolding sort_paths snapshot_of confirm_preflight confirm_commit
  confirm earlier now actor key paths listing before c =
      let sorted = sort_paths paths in
      confirm_with now actor key sorted listing c
        (confirm_preflight digest_of earlier actor key sorted before) (snapshot_of before sorted)
