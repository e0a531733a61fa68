-- ===== src/Packages/Tests.antt =====
-- An inventory that is accepted, one that is not, and the property at the first.
use asset_api.Base.{ℕ, String, false, ◌≡◌, ◌↔◌, refl, List, [], ◌∷◌, strip_prefix, pos}
use asset_api.Errors.{ok, err, invalid_input}
use asset_api.Capture.Model.{PackageObject}
use asset_api.Capture.Objects.{has_suffix}
use asset_api.Capture.Recovery.{segment_path}
use asset_api.Packages.Inventory.{
  read_renditions, insert_height, sort_heights, ordered, remove_path, check_objects,
  validate_inventory, inventory_digest,
}
use asset_api.Packages.Renditions.{
  Rendition, PackageInventory, Platform, is_preset, valid_rendition, mentions, has_path, add_path,
  add_segments,
}
use asset_api.Packages.Complete.{IsComplete, validate_iff}

abbrev object : String → ℕ → PackageObject
object path size = record {
  path = path;
  size_bytes = size;
  sha256 = "0123456789abcdef0123456789abcdef0123456789abcdef0123456789abcdef";
}

abbrev low : Rendition
low = record {
  name = "720p";
  width = pos 1280;
  height = pos 720;
  frame_rate = record { numerator = pos 30; denominator = 1 };
  video_bitrate = pos 2000000;
  audio_bitrate = pos 128000;
  duration_seconds = record { numerator = pos 10; denominator = 1 };
  segment_count = pos 1;
}

abbrev declared_files : List PackageObject
declared_files =
    object "720p/seg-000000.m4s" 9
    ∷ object "master.m3u8" 5
    ∷ object "720p/index.m3u8" 6
    ∷ object "720p/init.mp4" 7
    ∷ []

abbrev inventory : List PackageObject → PackageInventory
inventory objects = record {
  schema_version = pos 1;
  preset_version = "obs-hls-v1";
  objects = objects;
  renditions = low ∷ [];
  inventory_digest = "d";
}

abbrev platform : Platform
platform = record { encode = λ inv. "{}"; sha256 = λ text. "d"; drifts = λ rate a b. false }

accepted : validate_inventory platform (inventory declared_files) ≡ ok 29
unfolding validate_inventory is_preset read_renditions valid_rendition mentions add_segments
    add_path has_path segment_path sort_heights insert_height ordered check_objects remove_path
    has_suffix inventory_digest strip_prefix
accepted = refl

-- A path that stands twice.
refused :
    validate_inventory platform (
      inventory (
        object "master.m3u8" 5
        ∷ object "master.m3u8" 5
        ∷ object "720p/index.m3u8" 6
        ∷ object "720p/init.mp4" 7
        ∷ []))
    ≡ err invalid_input
unfolding validate_inventory is_preset read_renditions valid_rendition mentions add_segments
    add_path has_path segment_path sort_heights insert_height ordered check_objects remove_path
    has_suffix inventory_digest strip_prefix
refused = refl

validate_iff_example :
    (validate_inventory platform (inventory declared_files) ≡ ok 29)
    ↔ IsComplete platform (inventory declared_files) 29
validate_iff_example = validate_iff platform (inventory declared_files) 29
