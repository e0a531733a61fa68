-- ===== src/Packages/Renditions.antt =====
-- The renditions of an inventory, each on its own, and the paths that they expect:
-- internal/assets/recording_package.go. A float64 that JSON can hold is its exact value; JSON, the digest and
-- the rounding of the timeline check are a `Platform`. Paths are lists of character codes.

use asset_api.Base.{
  ℕ, zero, suc, ◌-◌, ◌*◌, ◌%◌, String, Bool, true, false, ◌&&◌, ◌||◌, not, Option, none, some, List,
  [], ◌∷◌, ◌++◌, ◌==◌, leb, str_eq, if◌then◌else◌, length, all, any, codes, is_digit, is_letter,
  same_codes, ℤ, pos, negsuc, eq_ℤ, ltb_ℤ,
}
use asset_api.Capture.Model.{PackageObject}
use asset_api.Capture.Recovery.{segment_path}

-- A positive denominator.
pub record Rational : Type 0 where
  pub numerator : ℤ
  pub denominator : ℕ

pub record Rendition : Type 0 where
  pub name : String
  pub width : ℤ
  pub height : ℤ
  pub frame_rate : Rational
  pub video_bitrate : ℤ
  pub audio_bitrate : ℤ
  pub duration_seconds : Rational
  pub segment_count : ℤ

pub record PackageInventory : Type 0 where
  pub schema_version : ℤ
  pub preset_version : String
  pub objects : List PackageObject
  pub renditions : List Rendition
  pub inventory_digest : String

-- `encode`: json.Marshal. `drifts rate a b`: |a - b| > 1 / rate in float64.
pub record Platform : Type 0 where
  pub encode : PackageInventory → String
  pub sha256 : String → String
  pub drifts : Rational → Rational → Rational → Bool

abbrev pub name_char : ℕ → Bool
name_char c = is_letter c || is_digit c || c == b'.' || c == b'_' || c == b'-'

-- ^[a-zA-Z0-9][a-zA-Z0-9._-]{0,63}$
unfoldable pub is_preset : List ℕ → Bool
is_preset [] = false
is_preset (c ∷ cs) = (is_letter c || is_digit c) && leb (length cs) 63 && all name_char cs

abbrev pub ten_second_preset : String
ten_second_preset = "obs-hls-10s-v1"

-- From `low` to `high`.
abbrev pub within : ℕ → ℕ → ℤ → Bool
within low high (pos n) = leb low n && leb n high
within low high (negsuc n) = false

abbrev pub is_even : ℤ → Bool
is_even (pos n) = n % 2 == 0
is_even (negsuc n) = n % 2 == 1

-- Above 0 and at most `high`.
abbrev pub positive_to : ℕ → Rational → Bool
positive_to high q = within 1 (high * q.denominator) q.numerator

abbrev pub scaled : ℤ → ℕ → ℤ
scaled (pos n) d = pos (n * d)
scaled (negsuc n) d = negsuc (suc n * d - 1)

abbrev pub same_value : Rational → Rational → Bool
same_value a b = eq_ℤ (scaled a.numerator b.denominator) (scaled b.numerator a.denominator)

-- 30000.0 / 1001
abbrev pub short_rate : Rational
short_rate = record { numerator = pos 1_054_476_685_978_981; denominator = 35_184_372_088_832 }

abbrev pub to_count : ℤ → ℕ
to_count (pos n) = n
to_count (negsuc n) = 0

-- The largest size of a rendition with a known name.
abbrev pub max_size : String → Option (ℕ × ℕ)
max_size name =
    if str_eq name "1080p"
    then some (1920, 1080)
    else if str_eq name "480p"
    then some (854, 480)
    else if str_eq name "720p"
    then some (1280, 720)
    else none

abbrev pub max_seconds : ℕ
max_seconds = 43200

abbrev pub max_segments : ℕ
max_segments = 4320

unfoldable pub valid_rendition : ℕ × ℕ → Rendition → Bool
valid_rendition (max_width, max_height) r =
    within 1 max_width r.width
    && is_even r.width
    && within 1 max_height r.height
    && is_even r.height
    && positive_to 30 r.frame_rate
    && positive_to max_seconds r.duration_seconds
    && within 1 max_segments r.segment_count
    && within 128000 128000 r.audio_bitrate
    && within 500000 8000000 r.video_bitrate

abbrev pub fits_preset : String → Rendition → Bool
fits_preset preset r =
    if str_eq preset ten_second_preset
    then same_value r.frame_rate short_rate
    else not (ltb_ℤ (pos 1440) r.segment_count)

-- Against the first rendition, if this is another.
abbrev pub keeps_timeline : Platform → Option Rendition → Rendition → Bool
keeps_timeline p none r = true
keeps_timeline p (some first) r =
    same_value r.frame_rate first.frame_rate
    && not (p.drifts first.frame_rate r.duration_seconds first.duration_seconds)

unfoldable pub mentions : List String → String → Bool
mentions names name = any (λ n. str_eq n name) names

-- The paths that are expected: the keys of the map that hold true.
abbrev pub Paths : Type 0
Paths = List (List ℕ)

unfoldable pub has_path : List ℕ → Paths → Bool
has_path path paths = any (λ p. same_codes p path) paths

-- expected[path] = true
unfoldable pub add_path : List ℕ → Paths → Paths
add_path path paths = if has_path path paths then paths else path ∷ paths

unfoldable pub add_segments : String → ℕ → Paths → Paths
add_segments name zero paths = paths
add_segments name (suc n) paths = add_path (segment_path name n) (add_segments name n paths)

abbrev pub rendition_file : String → String → List ℕ
rendition_file name file = codes name ++ codes file

abbrev pub add_files : Rendition → Paths → Paths
add_files r paths = add_segments r.name (to_count r.segment_count) (
    add_path (rendition_file r.name "/init.mp4")
      (add_path (rendition_file r.name "/index.m3u8") paths))
