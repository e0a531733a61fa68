-- ===== src/Playlists/Package.antt =====
-- ValidateRecordingPlaylists of internal/assets/recording_playlist.go: the master playlist and the
-- playlists of the renditions against the inventory. `files` are the playlists by their paths.
use asset_api.Base.{
  ℕ, zero, suc, ◌+◌, String, Bool, true, false, ◌&&◌, ◌||◌, not, Option, none, some, List, [], ◌∷◌,
  ◌==◌, if◌then◌else◌, length, codes, same_codes, strip_prefix, ℤ, pos, negsuc, eq_ℤ,
}
use asset_api.Errors.{Result, ok, err, ◌>>=◌, ◌>>◌, guard, invalid_upload}
use asset_api.Capture.Model.{PackageObject}
use asset_api.Capture.Recovery.{segment_path}
use asset_api.Packages.Renditions.{Rational, Rendition, PackageInventory, Platform}
use asset_api.Packages.Inventory.{validate_inventory}
use asset_api.Playlists.Floats.{Floats, whole, tolerance}
use asset_api.Playlists.Text.{
  Text, Attributes, attr, recording_attributes, playlist_lines, parse_int,
}
use asset_api.Playlists.Master.{index_path, stream_inf, validate_master}
use asset_api.Playlists.Media.{before_comma, duration_text, target_text, validate_media}
use asset_api.Playlists.Bitrates.{playlist_bitrates}

-- A text that is no number is 0 here; the playlists have been validated before, so there is none.
abbrev or_zero : Option ℤ → ℤ
or_zero none = pos 0
or_zero (some n) = n

abbrev natural : ℤ → ℕ
natural (pos n) = n
natural (negsuc n) = 0

-- sizes[path]: of objects with one path, the last.
abbrev later_size : PackageObject → Text → Option ℕ → Option ℕ
later_size o path (some n) = some n
later_size o path none = if same_codes (codes o.path) path then some o.size_bytes else none

unfoldable pub find_size : List PackageObject → Text → Option ℕ
find_size [] path = none
find_size (o ∷ os) path = later_size o path (find_size os path)

abbrev size_or_zero : Option ℕ → ℕ
size_or_zero none = 0
size_or_zero (some n) = n

-- The sizes of segments, from the given one on.
unfoldable pub segment_sizes : List PackageObject → String → ℕ → ℕ → List ℕ
segment_sizes os name n zero = []
segment_sizes os name n (suc left) =
    size_or_zero (find_size os (segment_path name n)) ∷ segment_sizes os name (n + 1) left

-- The last target duration of a playlist.
abbrev later_target : Option Text → ℕ → ℕ
later_target none target = target
later_target (some text) target = natural (or_zero (parse_int text))

unfoldable pub target_of : List Text → ℕ → ℕ
target_of [] target = target
target_of (line ∷ lines) target =
    target_of lines (later_target (strip_prefix target_text line) target)

abbrev Bitrates : Type 0
Bitrates = List (Text × ℤ × ℤ)

abbrev bitrate_of : Text → Bitrates → ℤ × ℤ
bitrate_of path [] = (pos 0, pos 0)
bitrate_of path ((p, peak, average) ∷ rest) =
    if same_codes p path then (peak, average) else bitrate_of path rest

abbrev has_bitrates : Attributes → ℤ × ℤ → Bool
has_bitrates attrs (peak, average) =
    eq_ℤ (or_zero (parse_int (attr (codes "BANDWIDTH") attrs))) peak
    && (same_codes (attr (codes "AVERAGE-BANDWIDTH") attrs) []
        || eq_ℤ (or_zero (parse_int (attr (codes "AVERAGE-BANDWIDTH") attrs))) average)

abbrev or_no_attributes : Result Attributes → Attributes
or_no_attributes (ok attrs) = attrs
or_no_attributes (err e) = []

-- A line of the master playlist that is not empty, and what to do with the rest.
abbrev check_bitrates_of :
    (Option Attributes → Result (Unit {0}))
    → Bitrates
    → Text
    → Option Attributes
    → Option Text
    → Result (Unit {0})
check_bitrates_of more bitrates line (some attrs) list =
    if has_bitrates attrs (bitrate_of line bitrates) then more none else err invalid_upload
check_bitrates_of more bitrates line none (some list) =
    more (some (or_no_attributes (recording_attributes list)))
check_bitrates_of more bitrates line none none = more none

unfoldable pub check_bitrates : Bitrates → List Text → Option Attributes → Result (Unit {0})
check_bitrates bitrates [] pending = ok tt
check_bitrates bitrates ([] ∷ lines) pending = check_bitrates bitrates lines pending
check_bitrates bitrates ((c ∷ cs) ∷ lines) pending =
    check_bitrates_of (check_bitrates bitrates lines) bitrates (c ∷ cs) pending
      (strip_prefix stream_inf (c ∷ cs))

abbrev pub inventory_or_invalid : Result ℕ → Result (Unit {0})
inventory_or_invalid (ok total) = ok tt
inventory_or_invalid (err e) = err invalid_upload

module _ (f : Floats) where
  open f use {Value, parse, abs, sub, lt}

  abbrev parsed : Option Value → Value
  parsed none = whole f 0
  parsed (some d) = d

  abbrev without_comma : Text → Option Text → Text
  without_comma value none = value
  without_comma value (some front) = front

  abbrev with_duration : Option Text → List Value → List Value
  with_duration none ds = ds
  with_duration (some value) ds = parsed (parse (without_comma value (before_comma value))) ∷ ds

  unfoldable pub durations_of : List Text → List Value
  durations_of [] = []
  durations_of (line ∷ lines) = with_duration (strip_prefix duration_text line) (durations_of lines)

  -- The boundaries of two renditions, which are of one length.
  unfoldable pub aligned : Rational → List Value → List Value → Bool
  aligned rate [] [] = true
  aligned rate (b ∷ bs) (c ∷ cs) = not (lt (tolerance f rate) (abs (sub b c))) && aligned rate bs cs
  aligned rate _ _ = false

  pub record PackageState : Type 0 where
    pub reference : Option (List Value)
    pub bitrates : Bitrates

  abbrev keeps_reference : Rendition → List Value → Option (List Value) → Bool
  keeps_reference r boundaries none = true
  keeps_reference r boundaries (some reference) = aligned r.frame_rate boundaries reference

  abbrev reference_or : List Value → Option (List Value) → Option (List Value)
  reference_or boundaries none = some boundaries
  reference_or boundaries (some reference) = some reference

  abbrev pub with_bitrates : Rendition → List Value → PackageState → ℤ × ℤ → Result PackageState
  with_bitrates r boundaries s b =
      if keeps_reference r boundaries s.reference
      then ok (record {
        reference = reference_or boundaries s.reference;
        bitrates = (index_path r, b.0, b.1) ∷ s.bitrates;
      })
      else err invalid_upload

  abbrev pub check_rendition :
      PackageInventory → List (Text × Text) → Rendition → PackageState → Result PackageState
  check_rendition inv files r s = playlist_lines (attr (index_path r) files) >>= λ lines.
      validate_media f lines r inv.preset_version >>= λ boundaries.
      playlist_bitrates f (segment_sizes inv.objects r.name 0 (length boundaries))
        (durations_of lines) (target_of lines 0)
      >>= with_bitrates r boundaries s

  unfoldable pub check_renditions :
      PackageInventory → List (Text × Text) → List Rendition → PackageState → Result PackageState
  check_renditions inv files [] s = ok s
  check_renditions inv files (r ∷ rs) s =
      check_rendition inv files r s >>= λ t. check_renditions inv files rs t

  abbrev pub nothing : PackageState
  nothing = record { reference = none; bitrates = [] }

  unfoldable pub validate_playlists :
      Platform → PackageInventory → List (Text × Text) → Result (Unit {0})
  validate_playlists p inv files =
      inventory_or_invalid (validate_inventory p inv)
      >> (guard (length files == length inv.renditions + 1) invalid_upload
          >> (playlist_lines (attr (codes "master.m3u8") files) >>= λ master.
              validate_master f master inv.renditions
              >> (check_renditions inv files inv.renditions nothing >>= λ s.
                  check_bitrates s.bitrates master none)))
