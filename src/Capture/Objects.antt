-- ===== src/Capture/Objects.antt =====
-- Object paths, the checks of a declared object, and the lookups by path of the capture service.
use asset_api.Base.{
  code_le, ℕ, suc, String, Bool, true, false, ◌&&◌, ◌||◌, Option, none, some, List, [], ◌∷◌, ltb,
  leb, ◌==◌, not, str_eq, if◌then◌else◌, all, length, codes, is_digit, is_lower_hex, is_letter,
  strip_prefix, strip_run, any,
}
use asset_api.Errors.{Result, ok, err, invalid_input}
use asset_api.Capture.Model.{
  PackageObject, CaptureObject, Capture, object_max_bytes, playlist_max_bytes,
}

-- ^[a-zA-Z0-9._:-]{1,128}$
abbrev key_char : ℕ → Bool
key_char c = is_letter c || is_digit c || c == b'.' || c == b'_' || c == b':' || c == b'-'

unfoldable pub is_operation_key : String → Bool
is_operation_key s = let cs = codes s in leb 1 (length cs) && leb (length cs) 128 && all key_char cs

abbrev ends_with : List ℕ → Option (List ℕ) → Bool
ends_with suffix none = false
ends_with suffix (some cs) = elim (strip_prefix suffix cs) [ some [] ↦ true | _ ↦ false ]

abbrev six_digits : Option (List ℕ) → Option (List ℕ)
six_digits none = none
six_digits (some cs) = strip_run 6 is_digit cs

-- index\.m3u8|init\.mp4|seg-[0-9]{6}\.m4s
abbrev rendition_file : Option (List ℕ) → Bool
rendition_file none = false
rendition_file (some cs) =
    ends_with (codes "index.m3u8") (some cs)
    || ends_with (codes "init.mp4") (some cs)
    || ends_with (codes ".m4s") (six_digits (strip_prefix (codes "seg-") cs))

-- ^(master\.m3u8|(480p|720p|1080p)/(index\.m3u8|init\.mp4|seg-[0-9]{6}\.m4s))$
unfoldable pub is_object_path : String → Bool
unfolding strip_prefix strip_run
is_object_path s =
    let cs = codes s in
    ends_with (codes "master.m3u8") (some cs)
    || rendition_file (strip_prefix (codes "480p/") cs)
    || rendition_file (strip_prefix (codes "720p/") cs)
    || rendition_file (strip_prefix (codes "1080p/") cs)

-- strings.HasSuffix
unfoldable pub has_suffix : List ℕ → List ℕ → Bool
has_suffix suffix [] = length suffix == 0
has_suffix suffix (c ∷ cs) = ends_with suffix (some (c ∷ cs)) || has_suffix suffix cs

-- The hexadecimal text of 32 bytes, in lower case.
abbrev pub is_sha256 : String → Bool
is_sha256 s = let cs = codes s in length cs == 64 && all is_lower_hex cs

unfoldable pub valid_object : PackageObject → Bool
unfolding is_object_path has_suffix
valid_object o =
    is_object_path o.path
    && ltb 0 o.size_bytes
    && leb o.size_bytes object_max_bytes
    && (not (has_suffix (codes ".m3u8") (codes o.path)) || leb o.size_bytes playlist_max_bytes)
    && is_sha256 o.sha256

abbrev pub same_object : PackageObject → PackageObject → Bool
same_object a b = str_eq a.path b.path && a.size_bytes == b.size_bytes && str_eq a.sha256 b.sha256

abbrev pub path_le : PackageObject → PackageObject → Bool
path_le a b = code_le (codes a.path) (codes b.path)

unfoldable pub insert_sorted : PackageObject → List PackageObject → List PackageObject
unfolding code_le
insert_sorted o [] = o ∷ []
insert_sorted o (p ∷ ps) = if path_le o p then o ∷ p ∷ ps else p ∷ insert_sorted o ps

unfoldable pub sort_objects : List PackageObject → List PackageObject
unfolding insert_sorted
sort_objects [] = []
sort_objects (o ∷ os) = insert_sorted o (sort_objects os)

-- The loop of Declare over the sorted objects: each is valid and no two in a row share a path.
unfoldable pub check_objects : Option PackageObject → List PackageObject → Bool
unfolding valid_object
check_objects previous [] = true
check_objects previous (o ∷ os) =
    valid_object o
    && elim previous [ none ↦ true | some p ↦ not (str_eq p.path o.path) ]
    && check_objects (some o) os

-- existing[path], where a later object of the same path overwrites an earlier one.
unfoldable pub existing : List CaptureObject → String → Option PackageObject
existing [] path = none
existing (o ∷ os) path = elim (existing os path) [
  | some p ↦ some p
  | none ↦ if str_eq o.path path then some o.object else none
]

-- index[path]
unfoldable pub index_of : ℕ → List CaptureObject → String → Option ℕ
index_of i [] path = none
index_of i (o ∷ os) path = elim (index_of (suc i) os path) [
  | some j ↦ some j
  | none ↦ if str_eq o.path path then some i else none
]

abbrev pub contains : List String → String → Bool
contains seen path = any (λ s. str_eq s path) seen

-- capturePaths: the indices of the declared objects at the given paths, which are all different.
unfoldable pub paths_loop : List CaptureObject → List String → List String → Result (List ℕ)
unfolding index_of
paths_loop objects seen [] = ok []
paths_loop objects seen (p ∷ ps) =
    let rest = paths_loop objects (p ∷ seen) ps in
    elim (index_of 0 objects p) [
      | none ↦ err invalid_input
      | some i ↦
          if contains seen p
          then err invalid_input
          else elim rest [ ok is ↦ ok (i ∷ is) | err e ↦ err e ]
    ]

unfoldable pub capture_paths : Capture → List String → Result (List ℕ)
unfolding paths_loop
capture_paths c paths =
    if ltb (length paths) 1 || ltb 100 (length paths)
    then err invalid_input
    else paths_loop c.objects [] paths
