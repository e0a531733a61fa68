-- ===== src/Playlists/Tests.antt =====
-- Playlists that are accepted and refused: internal/assets/recording_playlist.go.
use asset_api.Base.{
  ℕ, String, ◌≡◌, refl, true, false, Option, none, some, List, [], ◌∷◌, ◌++◌, codes, ltb, ◌==◌, ◌+◌,
  ◌-◌, ◌*◌, ◌/◌, if◌then◌else◌, pos, negsuc, strip_prefix, is_digit, matches, All, arith,
}
use asset_api.Errors.{ok, err, invalid_upload}
use asset_api.Capture.Recovery.{segment_path}
use asset_api.Packages.Renditions.{
  Rational, Rendition, has_path, PackageInventory, Platform, is_preset, valid_rendition, mentions,
  add_path, add_segments,
}
use asset_api.Playlists.Floats.{Floats}
use asset_api.Playlists.Text.{
  Text, unix, split_lines, is_clean, playlist_lines, span, attribute, attributes_from,
  recording_attributes, parse_int, decimal_from, segment_file, Attributes,
}
use asset_api.Playlists.Master.{
  by_path, is_codecs, valid_attribute, describes, read_master, validate_master,
}
use asset_api.Playlists.Media.{before_comma, read_media, validate_media}
use asset_api.Capture.Model.{PackageObject}
use asset_api.Capture.Objects.{has_suffix}
use asset_api.Packages.Inventory.{
  read_renditions, insert_height, sort_heights, ordered, remove_path, check_objects,
  validate_inventory, inventory_digest,
}
use asset_api.Playlists.Bitrates.{totals, window_peak, peak_from, playlist_bitrates}
use asset_api.Playlists.Package.{
  find_size, segment_sizes, target_of, check_bitrates, durations_of, aligned, check_renditions,
  validate_playlists,
}
use asset_api.Playlists.Attributes.{written_all, written_all-recording_attributes}
use asset_api.Playlists.Closed.{IsClosed, IsClosedMaster, validate_playlists-IsClosed}

-- Milliseconds stand for float64: whole numbers of seconds and three decimals.
abbrev millis : Rational → ℕ
millis r = elim r.numerator [ pos n ↦ n * 1000 / r.denominator | negsuc n ↦ 0 ]

abbrev digits_only : Text → ℕ → Option ℕ
digits_only [] n = some (n * 1000)
digits_only (c ∷ cs) n = if is_digit c then digits_only cs (n * 10 + (c - 48)) else none

abbrev millisecond_floats : Floats
millisecond_floats = record {
  Value = ℕ;
  parse = λ text. digits_only text 0;
  near = millis;
  is_finite = λ v. true;
  add = λ a b. a + b;
  sub = λ a b. if ltb a b then b - a else a - b;
  mul = λ a b. a * b / 1000;
  div = λ a b. a * 1000 / b;
  abs = λ a. a;
  larger = λ a b. if ltb a b then b else a;
  lt = ltb;
  eq = λ a b. a == b;
  rounded = λ a. pos ((a + 500) / 1000);
  raised = λ a. pos ((a + 999) / 1000);
}

abbrev low : Rendition
low = record {
  name = "720p";
  width = pos 1280;
  height = pos 720;
  frame_rate = record { numerator = pos 30; denominator = 1 };
  video_bitrate = pos 2000000;
  audio_bitrate = pos 128000;
  duration_seconds = record { numerator = pos 40; denominator = 1 };
  segment_count = pos 2;
}

abbrev media_text : Text
media_text =
    codes "#EXTM3U\n#EXT-X-VERSION:7\n#EXT-X-TARGETDURATION:30\n#EXT-X-MEDIA-SEQUENCE:0\r\n"
    ++ (codes "#EXT-X-PLAYLIST-TYPE:VOD\n#EXT-X-MAP:URI=\"init.mp4\"\n#EXTINF:30,\nseg-000000.m4s\n"
        ++ codes "#EXTINF:10,\n\nseg-000001.m4s\n#EXT-X-ENDLIST\n")

abbrev lines_of : Text → List Text
lines_of text = elim (playlist_lines text) [ ok lines ↦ lines | err e ↦ [] ]

media_accepted :
    validate_media millisecond_floats (lines_of media_text) low "hls-v1" ≡ ok (30000 ∷ 40000 ∷ [])
unfolding validate_media read_media playlist_lines unix split_lines is_clean strip_prefix has_path
    before_comma parse_int segment_file segment_path
media_accepted = refl

-- A second segment under the first one's name.
media_refused :
    validate_media millisecond_floats
      (lines_of (
        codes "#EXTM3U\n#EXT-X-TARGETDURATION:30\n#EXT-X-MAP:URI=\"init.mp4\"\n#EXTINF:30,\n"
        ++ codes "seg-000000.m4s\n#EXTINF:10,\nseg-000000.m4s\n"))
      low
      "hls-v1"
    ≡ err invalid_upload
unfolding validate_media read_media playlist_lines unix split_lines is_clean strip_prefix has_path
    before_comma parse_int segment_file segment_path
media_refused = refl

abbrev stream : String → Text
stream list =
    codes "#EXTM3U\n#EXT-X-VERSION:7\n#EXT-X-INDEPENDENT-SEGMENTS\n#EXT-X-STREAM-INF:"
    ++ (codes list ++ codes "\n720p/index.m3u8\n")

master_accepted :
    validate_master millisecond_floats
      (lines_of
        (stream "BANDWIDTH=900,RESOLUTION=1280x720,FRAME-RATE=30,CODECS=\"avc1.64001f,mp4a.40.2\""))
      (low ∷ [])
    ≡ ok tt
unfolding validate_master read_master playlist_lines unix split_lines is_clean strip_prefix has_path
    by_path recording_attributes attributes_from attribute span describes valid_attribute is_codecs
    matches parse_int decimal_from
master_accepted = refl

-- An attribute that names a resource.
master_refused :
    validate_master millisecond_floats
      (lines_of
        (stream "BANDWIDTH=900,RESOLUTION=1280x720,CODECS=\"avc1.64001f,mp4a.40.2\",URI=\"x\""))
      (low ∷ [])
    ≡ err invalid_upload
unfolding validate_master read_master playlist_lines unix split_lines is_clean strip_prefix has_path
    by_path recording_attributes attributes_from attribute span describes valid_attribute is_codecs
    matches parse_int decimal_from
master_refused = refl

abbrev object : String → ℕ → PackageObject
object path size = record {
  path = path;
  size_bytes = size;
  sha256 = "0123456789abcdef0123456789abcdef0123456789abcdef0123456789abcdef";
}

abbrev inventory : PackageInventory
inventory = record {
  schema_version = pos 1;
  preset_version = "hls-v1";
  objects =
      object "720p/seg-000000.m4s" 3000
      ∷ object "master.m3u8" 5
      ∷ object "720p/index.m3u8" 6
      ∷ object "720p/init.mp4" 7
      ∷ object "720p/seg-000001.m4s" 1000
      ∷ [];
  renditions = low ∷ [];
  inventory_digest = "d";
}

abbrev platform : Platform
platform = record { encode = λ inv. "{}"; sha256 = λ text. "d"; drifts = λ rate a b. false }

abbrev package_files : String → List (Text × Text)
package_files bandwidth =
    (codes "master.m3u8", stream bandwidth) ∷ (codes "720p/index.m3u8", media_text) ∷ []

package_accepted :
    validate_playlists millisecond_floats platform inventory
      (package_files "BANDWIDTH=800,RESOLUTION=1280x720,CODECS=\"avc1.64001f,mp4a.40.2\"")
    ≡ ok tt
unfolding validate_playlists validate_inventory is_preset read_renditions valid_rendition mentions
    add_segments add_path has_path segment_path sort_heights insert_height ordered check_objects
    remove_path has_suffix inventory_digest strip_prefix validate_master read_master playlist_lines
    unix split_lines is_clean by_path recording_attributes attributes_from attribute span describes
    valid_attribute is_codecs matches parse_int decimal_from validate_media read_media before_comma
    segment_file check_renditions segment_sizes find_size durations_of target_of playlist_bitrates
    totals peak_from window_peak aligned check_bitrates
package_accepted = refl

-- The segments need more than is declared.
package_refused :
    validate_playlists millisecond_floats platform inventory
      (package_files "BANDWIDTH=799,RESOLUTION=1280x720,CODECS=\"avc1.64001f,mp4a.40.2\"")
    ≡ err invalid_upload
unfolding validate_playlists validate_inventory is_preset read_renditions valid_rendition mentions
    add_segments add_path has_path segment_path sort_heights insert_height ordered check_objects
    remove_path has_suffix inventory_digest strip_prefix validate_master read_master playlist_lines
    unix split_lines is_clean by_path recording_attributes attributes_from attribute span describes
    valid_attribute is_codecs matches parse_int decimal_from validate_media read_media before_comma
    segment_file check_renditions segment_sizes find_size durations_of target_of playlist_bitrates
    totals peak_from window_peak aligned check_bitrates
package_refused = refl

validate_playlists-IsClosed_example :
    IsClosedMaster inventory
      (package_files "BANDWIDTH=800,RESOLUTION=1280x720,CODECS=\"avc1.64001f,mp4a.40.2\"")
    × All
        (IsClosed inventory
          (package_files "BANDWIDTH=800,RESOLUTION=1280x720,CODECS=\"avc1.64001f,mp4a.40.2\""))
        (low ∷ [])
validate_playlists-IsClosed_example =
    validate_playlists-IsClosed millisecond_floats platform inventory
      (package_files "BANDWIDTH=800,RESOLUTION=1280x720,CODECS=\"avc1.64001f,mp4a.40.2\"")
      package_accepted

abbrev two_attributes : Attributes
two_attributes =
    (codes "BANDWIDTH", codes "800") ∷ (codes "CODECS", codes "avc1.64001f,mp4a.40.2") ∷ []

written_all-recording_attributes_example :
    recording_attributes (written_all two_attributes)
    ≡ ok ((codes "CODECS", codes "avc1.64001f,mp4a.40.2") ∷ (codes "BANDWIDTH", codes "800") ∷ [])
written_all-recording_attributes_example =
    written_all-recording_attributes two_attributes
      ((omega arith, refl, refl), ((omega arith, refl, refl), tt)) (refl, (refl, tt))

-- A line may not end in a no-break space.
spaced_line : playlist_lines (codes "#EXTM3U\nab" ++ (194 ∷ 160 ∷ [])) ≡ err invalid_upload
unfolding playlist_lines split_lines unix is_clean
spaced_line = refl
