-- ===== src/Capture/SealedTests.antt =====
-- Runs of a capture that is sealed, aborted or repeated while the storage is down, with the instances of
-- the theorems.
use asset_api.Base.{
  code_le, ◌*◌, ◌<◌, ◌≡◌, refl, ◌⊎◌, true, none, some, [], ◌∷◌, All, length, insert, lookup,
  strip_prefix, strip_run, second,
}
use asset_api.Errors.{ok, err, unavailable}
use asset_api.Capture.Model
use asset_api.Capture.Model.{
  CaptureState, uploading, freezing, aborted, ObjectState, declared, queued, PackageObject,
  CaptureObject, Inventory, Recovery, Capture, StoredReceipt, max_segments, recovery_version,
}
use asset_api.Capture.Objects.{
  is_operation_key, is_object_path, has_suffix, valid_object, insert_sorted, sort_objects,
  check_objects, existing, index_of, paths_loop, capture_paths,
}
use asset_api.Capture.Recovery.{close_expired, advance_recovery}
use asset_api.Capture.Mutate.{mutate, admitted}
use asset_api.Capture.Declare.{declare_loop, declare}
use asset_api.Capture.Confirm.{
  sort_paths, insert_path, confirm, objects_at, check_sizes, queue_objects, accept_confirm,
  confirm_commit,
}
use asset_api.Capture.Seal.{seal, abort, freeze, check_inventory, declared_object}
use asset_api.Capture.Run.{
  Request, confirms, seals, aborts, requests, signals, apply, step, run, input_of, operation_of,
}
use asset_api.Capture.Offline.{confirm_repeats_offline}
use asset_api.Capture.States.{changes_only_open, IsSealed}
use asset_api.Capture.Sealing.{seal_complete, Delivered}
use asset_api.Capture.Fixtures.{
  after_declare, segment, fresh, digest, any_size, batch_paths, seen, ten_bytes, confirm_batch,
  in_state,
}

-- A capture that is sealed and then aborted.
abbrev uploaded : Capture
uploaded = record fresh {
  declared_bytes = 10;
  declared_objects = 1;
  objects = in_state queued "480p/seg-000000.m4s" ∷ [];
}

abbrev full_inventory : Inventory
full_inventory = record {
  preset_version = "obs-hls-30s-v1";
  objects = segment "480p/seg-000000.m4s" ∷ [];
  rendition_count = 3;
  inventory_digest = "d";
}

abbrev after_seal : Capture
after_seal =
    run digest any_size ((second, requests (seals "a1" "k3" true full_inventory)) ∷ []) uploaded

seal_ok :
    apply digest any_size second (seals "a1" "k3" true full_inventory) uploaded ≡ ok after_seal
unfolding run step apply seal mutate admitted freeze check_inventory declared_object
    is_operation_key lookup insert input_of
seal_ok = refl

seal_complete_example :
    (after_seal.state ≡ freezing)
    × (after_seal.inventory ≡ some full_inventory)
    × (after_seal.package_id ≡ some "c1")
    × (length full_inventory.objects ≡ length uploaded.objects)
    × All (Delivered uploaded.objects) (full_inventory.objects)
unfolding lookup
seal_complete_example =
    seal_complete digest any_size second "a1" "k3" true full_inventory uploaded after_seal seal_ok
      refl

abbrev give_up : Request
give_up = aborts "a1" "k4" "user_abort"

abbrev given_up : Capture
given_up = run digest any_size ((2 * second, requests give_up) ∷ []) after_seal

abort_ok : apply digest any_size (2 * second) give_up after_seal ≡ ok given_up
unfolding run step apply seal abort mutate admitted freeze check_inventory declared_object
    is_operation_key lookup insert input_of
abort_ok = refl

changes_only_open_example :
    (given_up ≡ after_seal)
    ⊎ ((lookup "k4" after_seal.receipts ≡ none)
        × (2 * second < after_seal.expires_at)
        × ((after_seal.state ≡ uploading)
            ⊎ (IsSealed after_seal.state
                × (operation_of give_up ≡ Model.abort)
                × (given_up.state ≡ aborted))))
changes_only_open_example =
    changes_only_open digest any_size (2 * second) give_up after_seal given_up abort_ok

-- A repeated confirm while the storage is down.
abbrev after_confirm : Capture
after_confirm = run digest any_size ((2 * second, requests confirm_batch) ∷ []) after_declare

confirm_ok :
    apply digest any_size
      (2 * second)
      (confirms "a1" "k2" (sort_paths batch_paths) seen (ok ten_bytes))
      after_declare
    ≡ ok after_confirm
unfolding run step apply declare confirm_commit mutate admitted declare_loop accept_confirm
    capture_paths paths_loop index_of objects_at check_sizes queue_objects close_expired
    advance_recovery is_operation_key is_object_path has_suffix valid_object code_le insert_sorted
    sort_objects check_objects existing insert lookup input_of strip_prefix strip_run sort_paths
    insert_path
confirm_ok = refl

confirm_repeats_offline_example :
    confirm digest
      (5 * second)
      (6 * second)
      "a1"
      "k2"
      batch_paths
      (err unavailable)
      (run digest any_size ((3 * second, signals "a1" true) ∷ []) after_confirm)
      fresh
    ≡ ok (run digest any_size ((3 * second, signals "a1" true) ∷ []) after_confirm)
confirm_repeats_offline_example =
    confirm_repeats_offline digest any_size (2 * second) "a1" "k2" batch_paths seen (ok ten_bytes)
      after_declare after_confirm ((3 * second, signals "a1" true) ∷ []) (5 * second) (6 * second)
      (err unavailable) fresh confirm_ok
