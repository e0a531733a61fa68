-- ===== src/Uploads/Names.antt =====
-- The file name of an upload: extensionAllowed of internal/assets/media_validation.go and sanitizeFileName
-- of internal/assets/service.go. A character counts as one byte.
use Prim.Native.Char.{code}
use Prim.Native.String.{String}
use asset_api.Base.{
  ℕ, zero, suc, Bool, true, false, ◌&&◌, ◌||◌, Option, none, some, List, [], ◌∷◌, ◌==◌,
  if◌then◌else◌, any, codes, same_codes, lookup, leb,
}
use asset_api.Uploads.Checks.{to_lower}

-- unicode.IsSpace
abbrev is_space : ℕ → Bool
is_space c =
    (leb 9 c && leb c 13)
    || any (λ s. c == s) (32 ∷ 133 ∷ 160 ∷ 5760 ∷ 8232 ∷ 8233 ∷ 8239 ∷ 8287 ∷ 12288 ∷ [])
    || (leb 8192 c && leb c 8202)

abbrev is_slash : ℕ → Bool
is_slash c = c == b'/'

abbrev drop_left : (ℕ → Bool) → String → String
drop_left p String.[] = String.[]
drop_left p (String.◌∷◌ c s) = if p (code c) then drop_left p s else String.◌∷◌ c s

abbrev keep_char : (ℕ → Bool) → String → String → String
keep_char p (String.◌∷◌ c s) String.[] = if p (code c) then String.[] else String.◌∷◌ c String.[]
keep_char p (String.◌∷◌ c s) rest = String.◌∷◌ c rest
keep_char p String.[] rest = rest

abbrev drop_right : (ℕ → Bool) → String → String
drop_right p String.[] = String.[]
drop_right p (String.◌∷◌ c s) = keep_char p (String.◌∷◌ c s) (drop_right p s)

-- strings.TrimSpace
unfoldable pub trim_space : String → String
trim_space s = drop_right is_space (drop_left is_space s)

abbrev after_slash : String → Option String
after_slash String.[] = none
after_slash (String.◌∷◌ c s) = elim (after_slash s) [
  | some t ↦ some t
  | none ↦ if is_slash (code c) then some s else none
]

abbrev or_whole : String → Option String → String
or_whole s none = s
or_whole s (some t) = t

abbrev or_root : String → String
or_root String.[] = "/"
or_root s = or_whole s (after_slash s)

-- path.Base
unfoldable pub base_name : String → String
base_name String.[] = "."
base_name (String.◌∷◌ c s) = or_root (drop_right is_slash (String.◌∷◌ c s))

abbrev first_chars : ℕ → String → String
first_chars zero s = String.[]
first_chars (suc n) String.[] = String.[]
first_chars (suc n) (String.◌∷◌ c s) = String.◌∷◌ c (first_chars n s)

unfoldable pub sanitize_file_name : String → String
sanitize_file_name s = first_chars 255 (base_name (trim_space s))

-- path.Ext: from the last dot behind the last slash.
abbrev found_or : List ℕ → Option (List ℕ) → Option (List ℕ)
found_or cs (some ext) = some ext
found_or cs none = some cs

abbrev ext_of : List ℕ → Option (List ℕ)
ext_of [] = none
ext_of (c ∷ cs) =
    let rest = ext_of cs in if c == b'.' && not_slashed cs then found_or (c ∷ cs) rest else rest
  where
    not_slashed : List ℕ → Bool
    not_slashed [] = true
    not_slashed (d ∷ ds) = if d == b'/' then false else not_slashed ds

abbrev or_no_ext : Option (List ℕ) → List ℕ
or_no_ext none = []
or_no_ext (some ext) = ext

unfoldable pub media_extensions : List (String × List String)
media_extensions =
    ("image/jpeg", ".jpg" ∷ ".jpeg" ∷ [])
    ∷ ("image/png", ".png" ∷ [])
    ∷ ("image/gif", ".gif" ∷ [])
    ∷ ("image/webp", ".webp" ∷ [])
    ∷ ("image/bmp", ".bmp" ∷ [])
    ∷ ("video/mp4", ".mp4" ∷ [])
    ∷ ("video/quicktime", ".mov" ∷ [])
    ∷ ("video/webm", ".webm" ∷ [])
    ∷ ("video/ogg", ".ogv" ∷ [])
    ∷ ("video/x-msvideo", ".avi" ∷ [])
    ∷ ("video/x-matroska", ".mkv" ∷ [])
    ∷ ("video/x-ms-wmv", ".wmv" ∷ [])
    ∷ ("audio/mpeg", ".mp3" ∷ [])
    ∷ ("audio/wav", ".wav" ∷ [])
    ∷ ("audio/mp4", ".m4a" ∷ [])
    ∷ ("audio/aac", ".aac" ∷ [])
    ∷ ("audio/ogg", ".ogg" ∷ [])
    ∷ ("application/pdf", ".pdf" ∷ [])
    ∷ ("application/vnd.openxmlformats-officedocument.presentationml.presentation", ".pptx" ∷ [])
    ∷ ("application/vnd.hhc.presenter+json", ".lpdeck" ∷ [])
    ∷ ("application/vnd.ms-powerpoint", ".ppt" ∷ [])
    ∷ ("application/vnd.apple.keynote", ".key" ∷ [])
    ∷ ("application/vnd.oasis.opendocument.presentation", ".odp" ∷ [])
    ∷ ("application/msword", ".doc" ∷ [])
    ∷ ("application/vnd.openxmlformats-officedocument.wordprocessingml.document", ".docx" ∷ [])
    ∷ ("application/vnd.ms-excel", ".xls" ∷ [])
    ∷ ("application/vnd.openxmlformats-officedocument.spreadsheetml.sheet", ".xlsx" ∷ [])
    ∷ ("application/zip", ".zip" ∷ [])
    ∷ ("text/plain", ".txt" ∷ [])
    ∷ ("text/markdown", ".md" ∷ ".markdown" ∷ [])
    ∷ []

abbrev or_none : Option (List String) → List String
or_none none = []
or_none (some es) = es

unfoldable pub extension_allowed : String → String → Bool
extension_allowed file_name mime =
    any (λ e. same_codes (codes e) (to_lower (or_no_ext (ext_of (codes (trim_space file_name))))))
      (or_none (lookup mime media_extensions))
