-- ===== src/Playlists/Media.antt =====
-- The playlist of a rendition: validateRecordingMedia of internal/assets/recording_playlist.go.
use asset_api.Base.{
  ℕ, suc, String, Bool, true, false, ◌&&◌, ◌||◌, not, Option, none, some, List, [], ◌∷◌, ◌++◌, ◌==◌,
  if◌then◌else◌, length, any, codes, same_codes, is_none, str_eq, strip_prefix, ℤ, pos, eq_ℤ, ltb_ℤ,
}
use asset_api.Errors.{Result, ok, err, ◌>>=◌, ◌>>◌, guard, invalid_upload}
use asset_api.Packages.Renditions.{Rendition, Paths, has_path, ten_second_preset}
use asset_api.Playlists.Floats.{Floats, fraction, whole, tolerance}
use asset_api.Playlists.Text.{Text, parse_int, segment_file}
use asset_api.Playlists.Master.{version_tag, independent_tag}

abbrev pub sequence_tag : Text
sequence_tag = codes "#EXT-X-MEDIA-SEQUENCE:0"

abbrev pub type_tag : Text
type_tag = codes "#EXT-X-PLAYLIST-TYPE:VOD"

abbrev pub map_tag : Text
map_tag = codes "#EXT-X-MAP:URI=\"init.mp4\""

abbrev pub end_tag : Text
end_tag = codes "#EXT-X-ENDLIST"

abbrev pub once_tags : List Text
once_tags = version_tag ∷ sequence_tag ∷ type_tag ∷ independent_tag ∷ map_tag ∷ []

-- strings.CutSuffix(value, ",")
unfoldable pub before_comma : Text → Option Text
before_comma [] = none
before_comma (c ∷ []) = if c == b',' then some [] else none
before_comma (c ∷ d ∷ cs) = elim (before_comma (d ∷ cs)) [
  | none ↦ none
  | some value ↦ some (c ∷ value)
]

abbrev pub duration_text : Text
duration_text = codes "#EXTINF:"

abbrev pub target_text : Text
target_text = codes "#EXT-X-TARGETDURATION:"

-- A target of 0 is none yet.
pub record MediaState (V : Type 0) : Type 0 where
  pub headers : Paths
  pub target : ℕ
  pub pending : Option V
  pub ended : Bool
  pub total : V
  pub boundaries : List V

module _ (f : Floats) where
  open f use {Value, parse, near, is_finite, add, sub, abs, lt, rounded}

  abbrev pub nominal : String → Value
  nominal preset = if str_eq preset ten_second_preset then near (fraction 1001 100) else whole f 30

  -- The duration is too long, or too short for a segment that is not the last.
  abbrev pub is_off : Rendition → String → ℕ → Value → Bool
  is_off r preset n d =
      lt (add (nominal preset) (tolerance f r.frame_rate)) d
      || (ltb_ℤ (pos (suc n)) r.segment_count
          && lt d (sub (nominal preset) (tolerance f r.frame_rate)))

  abbrev pub is_next : Rendition → String → Text → MediaState Value → Value → Bool
  is_next r preset line s d =
      same_codes line (segment_file (length s.boundaries))
      && has_path map_tag s.headers
      && not (ltb_ℤ (pos s.target) (rounded d))
      && not (is_off r preset (length s.boundaries) d)

  abbrev pub media_segment :
      Rendition → String → Text → MediaState Value → Value → Result (MediaState Value)
  media_segment r preset line s d =
      if is_next r preset line s d
      then ok (record s {
        total = add s.total d;
        boundaries = s.boundaries ++ (add s.total d ∷ []);
        pending = none;
      })
      else err invalid_upload

  abbrev pub with_duration : MediaState Value → Option Value → Result (MediaState Value)
  with_duration s none = err invalid_upload
  with_duration s (some d) =
      if is_finite d && lt (whole f 0) d
      then ok (record s { pending = some d })
      else err invalid_upload

  abbrev pub read_duration : MediaState Value → Option Text → Result (MediaState Value)
  read_duration s none = err invalid_upload
  read_duration s (some value) = with_duration s (parse value)

  abbrev pub with_target : MediaState Value → Option ℤ → Result (MediaState Value)
  with_target s (some (pos n)) =
      if s.target == 0 && (ltb_ℤ (pos 0) (pos n) && ltb_ℤ (pos n) (pos 32))
      then ok (record s { target = n })
      else err invalid_upload
  with_target s o = err invalid_upload

  abbrev pub once_tag : Text → MediaState Value → Result (MediaState Value)
  once_tag line s =
      if any (λ t. same_codes line t) once_tags
      then (if has_path line s.headers
          then err invalid_upload
          else ok (record s { headers = line ∷ s.headers }))
      else if same_codes line end_tag
      then ok (record s { ended = true })
      else err invalid_upload

  abbrev pub other_tag : Text → MediaState Value → Option Text → Result (MediaState Value)
  other_tag line s (some value) = with_target s (parse_int value)
  other_tag line s none = once_tag line s

  abbrev pub media_tag : Text → MediaState Value → Option Text → Result (MediaState Value)
  media_tag line s (some value) = read_duration s (before_comma value)
  media_tag line s none = other_tag line s (strip_prefix target_text line)

  abbrev pub media_text :
      Rendition → String → Text → MediaState Value → Option Value → Result (MediaState Value)
  media_text r preset line s (some d) = media_segment r preset line s d
  media_text r preset line s none = media_tag line s (strip_prefix duration_text line)

  abbrev pub media_line : Rendition → String → Text → MediaState Value → Result (MediaState Value)
  media_line r preset [] s = ok s
  media_line r preset (c ∷ cs) s =
      if s.ended then err invalid_upload else media_text r preset (c ∷ cs) s s.pending

  unfoldable pub read_media :
      Rendition → String → List Text → MediaState Value → Result (MediaState Value)
  read_media r preset [] s = ok s
  read_media r preset (line ∷ lines) s =
      media_line r preset line s >>= λ t. read_media r preset lines t

  abbrev pub no_media : MediaState Value
  no_media = record {
    headers = [];
    target = 0;
    pending = none;
    ended = false;
    total = whole f 0;
    boundaries = [];
  }

  abbrev pub is_media : Rendition → MediaState Value → Bool
  is_media r s =
      s.ended
      && is_none s.pending
      && not (s.target == 0)
      && has_path version_tag s.headers
      && has_path sequence_tag s.headers
      && has_path type_tag s.headers
      && eq_ℤ (pos (length s.boundaries)) r.segment_count
      && not (lt (tolerance f r.frame_rate) (abs (sub s.total (near r.duration_seconds))))

  -- The boundaries of the segments, in seconds from the start.
  unfoldable pub validate_media : List Text → Rendition → String → Result (List Value)
  validate_media lines r preset = read_media r preset lines no_media >>= λ s.
      guard (is_media r s) invalid_upload >> ok s.boundaries
