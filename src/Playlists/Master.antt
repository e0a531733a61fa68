-- ===== src/Playlists/Master.antt =====
-- The master playlist: validateRecordingMaster and ValidateRecordingMasterCodecs of
-- internal/assets/recording_playlist.go.
use asset_api.Base.{
  ℕ, Bool, false, ◌&&◌, ◌||◌, not, Option, none, some, List, [], ◌∷◌, ◌++◌, ◌==◌, if◌then◌else◌,
  length, all, codes, same_codes, is_hex, is_none, matches, times, strip_prefix, ltb_ℤ, pos, ℤ,
}
use asset_api.Errors.{Result, ok, err, ◌>>=◌, ◌>>◌, guard, invalid_upload}
use asset_api.Uploads.Checks.{equal_fold}
use asset_api.Packages.Renditions.{Rational, Rendition, PackageInventory, Paths, has_path}
use asset_api.Playlists.Floats.{Floats, fraction}
use asset_api.Playlists.Text.{
  Text, Attributes, attr, recording_attributes, playlist_lines, parse_int, decimal,
}

-- ^avc1\.[0-9a-fA-F]{6},mp4a\.40\.2$
abbrev literal : List ℕ → List (ℕ → Bool) → List (ℕ → Bool)
literal [] ps = ps
literal (c ∷ cs) ps = (λ d. c == d) ∷ literal cs ps

unfoldable pub is_codecs : Text → Bool
is_codecs text =
    matches (literal (codes "avc1.") (times 6 is_hex (literal (codes ",mp4a.40.2") []))) text

abbrev pub index_path : Rendition → Text
index_path r = codes r.name ++ codes "/index.m3u8"

abbrev pub found : Text → Rendition → Option Rendition → Option Rendition
found path r (some later) = some later
found path r none = if same_codes (index_path r) path then some r else none

-- byPath[path]: of renditions with one name, the last.
unfoldable pub by_path : List Rendition → Text → Option Rendition
by_path [] path = none
by_path (r ∷ rs) path = found path r (by_path rs path)

abbrev pub stream_inf : Text
stream_inf = codes "#EXT-X-STREAM-INF:"

abbrev pub version_tag : Text
version_tag = codes "#EXT-X-VERSION:7"

abbrev pub independent_tag : Text
independent_tag = codes "#EXT-X-INDEPENDENT-SEGMENTS"

pub record MasterState : Type 0 where
  pub pending : Option Attributes
  pub seen : Paths
  pub headers : Paths

abbrev resolution : Rendition → Text
resolution r = decimal r.width ++ (b'x' ∷ decimal r.height)

abbrev is_positive : Option ℤ → Bool
is_positive none = false
is_positive (some n) = ltb_ℤ (pos 0) n

module _ (f : Floats) where
  open f use {Value, parse, near, is_finite, sub, abs, lt}

  abbrev is_rate : Rational → Option Value → Bool
  is_rate rate none = false
  is_rate rate (some n) = is_finite n && not (lt (near (fraction 1 1000)) (abs (sub n (near rate))))

  unfoldable pub valid_attribute : Rendition → Text × Text → Bool
  valid_attribute r (key, value) =
      if same_codes key (codes "BANDWIDTH") || same_codes key (codes "AVERAGE-BANDWIDTH")
      then is_positive (parse_int value)
      else if same_codes key (codes "FRAME-RATE")
      then is_rate r.frame_rate (parse value)
      else same_codes key (codes "RESOLUTION") || same_codes key (codes "CODECS")

  unfoldable pub describes : Rendition → Attributes → Bool
  describes r attrs =
      same_codes (attr (codes "RESOLUTION") attrs) (resolution r)
      && is_codecs (attr (codes "CODECS") attrs)
      && all (valid_attribute r) attrs
      && not (same_codes (attr (codes "BANDWIDTH") attrs) [])

  abbrev pub variant : Text → MasterState → Attributes → Option Rendition → Result MasterState
  variant line s attrs none = err invalid_upload
  variant line s attrs (some r) =
      if has_path line s.seen || not (describes r attrs)
      then err invalid_upload
      else ok (record s { seen = line ∷ s.seen; pending = none })

  abbrev pub master_tag : Text → MasterState → Option Text → Result MasterState
  master_tag line s (some list) =
      recording_attributes list >>= λ attrs. ok (record s { pending = some attrs })
  master_tag line s none =
      if (same_codes line version_tag || same_codes line independent_tag)
        && not (has_path line s.headers)
      then ok (record s { headers = line ∷ s.headers })
      else err invalid_upload

  abbrev pub master_text :
      List Rendition → Text → MasterState → Option Attributes → Result MasterState
  master_text rs line s (some attrs) = variant line s attrs (by_path rs line)
  master_text rs line s none = master_tag line s (strip_prefix stream_inf line)

  abbrev pub master_line : List Rendition → Text → MasterState → Result MasterState
  master_line rs [] s = ok s
  master_line rs (c ∷ cs) s = master_text rs (c ∷ cs) s s.pending

  unfoldable pub read_master : List Rendition → List Text → MasterState → Result MasterState
  read_master rs [] s = ok s
  read_master rs (line ∷ lines) s = master_line rs line s >>= λ t. read_master rs lines t

  abbrev pub no_variants : MasterState
  no_variants = record { pending = none; seen = []; headers = [] }

  abbrev pub is_master : List Rendition → MasterState → Bool
  is_master rs s =
      is_none s.pending
      && length s.seen == length rs
      && has_path version_tag s.headers
      && has_path independent_tag s.headers

  unfoldable pub validate_master : List Text → List Rendition → Result (Unit {0})
  validate_master lines rs =
      read_master rs lines no_variants >>= λ s. guard (is_master rs s) invalid_upload

  -- What was probed, by the name of the rendition.
  abbrev without_index : Text → Text
  without_index [] = []
  without_index (c ∷ cs) =
      if same_codes (c ∷ cs) (codes "/index.m3u8") then [] else c ∷ without_index cs

  -- A line that is not empty, and what to do with the rest.
  abbrev check_codecs_of :
      (Option Attributes → Result (Unit {0}))
      → Attributes
      → Text
      → Option Attributes
      → Option Text
      → Result (Unit {0})
  check_codecs_of more actual line (some attrs) list =
      if equal_fold (attr (codes "CODECS") attrs) (attr (without_index line) actual)
      then more none
      else err invalid_upload
  check_codecs_of more actual line none (some list) =
      recording_attributes list >>= λ attrs. more (some attrs)
  check_codecs_of more actual line none none = more none

  unfoldable pub check_codecs : Attributes → List Text → Option Attributes → Result (Unit {0})
  check_codecs actual [] pending = ok tt
  check_codecs actual ([] ∷ lines) pending = check_codecs actual lines pending
  check_codecs actual ((c ∷ cs) ∷ lines) pending =
      check_codecs_of (check_codecs actual lines) actual (c ∷ cs) pending
        (strip_prefix stream_inf (c ∷ cs))

  unfoldable pub validate_master_codecs : PackageInventory → Text → Attributes → Result (Unit {0})
  validate_master_codecs inv text actual = playlist_lines text >>= λ lines.
      validate_master lines inv.renditions
      >> (guard (length actual == length inv.renditions) invalid_upload
          >> check_codecs actual lines none)
