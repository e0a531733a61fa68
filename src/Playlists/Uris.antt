-- ===== src/Playlists/Uris.antt =====
-- What a playlist names: a URI stands on a line that is not empty and does not start with `#`.
use asset_api.Base.{
  ℕ, zero, suc, Bool, true, false, not, some, List, [], ◌∷◌, ◌==◌, if◌then◌else◌, ◌≡◌, refl, arith,
  strip_prefix,
}
use asset_api.Playlists.Text.{Text, segment_file}

abbrev pub is_uri : Text → Bool
is_uri [] = false
is_uri (c ∷ cs) = not (c == b'#')

abbrev pub uris : List Text → List Text
uris [] = []
uris (line ∷ lines) = if is_uri line then line ∷ uris lines else uris lines

-- The file names of so many segments, from the given one on.
abbrev pub segment_files : ℕ → ℕ → List Text
segment_files n zero = []
segment_files n (suc left) = segment_file n ∷ segment_files (suc n) left

pub segment_file-is_uri : (n : ℕ) → is_uri (segment_file n) ≡ true
unfolding segment_file
segment_file-is_uri n = refl

-- A line with a prefix that starts with `#` is a tag.
pub tag-is_uri :
    (ps line : Text) {rest : Text} → strip_prefix (b'#' ∷ ps) line ≡ some rest → is_uri line ≡ false
unfolding strip_prefix
tag-is_uri ps [] e = absurd (cc)
tag-is_uri ps (c ∷ cs) e = ground arith
