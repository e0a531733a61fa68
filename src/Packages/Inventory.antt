-- ===== src/Packages/Inventory.antt =====
-- ValidateRecordingInventory and RecordingInventoryDigest: internal/assets/recording_package.go.
use Prim.Native.String.{len}
use asset_api.Base.{
  ℕ, ◌+◌, String, Bool, true, ◌&&◌, ◌||◌, not, Option, none, some, List, [], ◌∷◌, ◌==◌, ltb, leb,
  str_eq, if◌then◌else◌, length, codes, same_codes, code_le, pos, eq_ℤ, ltb_ℤ,
}
use asset_api.Errors.{Result, ok, err, invalid_input, package_too_large, ◌>>=◌, ◌>>◌, guard}
use asset_api.Capture.Model.{
  PackageObject, package_max_bytes, package_max_objects, object_max_bytes, playlist_max_bytes,
}
use asset_api.Capture.Objects.{has_suffix, is_sha256, sort_objects}
use asset_api.Packages.Renditions.{
  is_preset, max_size, valid_rendition, fits_preset, keeps_timeline, mentions, Paths, has_path,
  add_files, Rendition, PackageInventory, Platform,
}

-- The state of the loop over the renditions.
pub record Reading : Type 0 where
  pub first : Option Rendition
  pub seen : List String
  pub expected : Paths

abbrev first_of : Option Rendition → Rendition → Option Rendition
first_of none r = some r
first_of (some f) r = some f

abbrev pub read_sized : Platform → String → Rendition → Reading → Option (ℕ × ℕ) → Result Reading
read_sized p preset r s none = err invalid_input
read_sized p preset r s (some size) =
    if not (mentions s.seen r.name)
      && valid_rendition size r
      && fits_preset preset r
      && keeps_timeline p s.first r
    then ok (record {
      first = first_of s.first r;
      seen = r.name ∷ s.seen;
      expected = add_files r s.expected;
    })
    else err invalid_input

unfoldable pub read_renditions : Platform → String → List Rendition → Reading → Result Reading
read_renditions p preset [] s = ok s
read_renditions p preset (r ∷ rest) s =
    read_sized p preset r s (max_size r.name) >>= λ t. read_renditions p preset rest t

abbrev pub start_reading : Reading
start_reading = record { first = none; seen = []; expected = codes "master.m3u8" ∷ [] }

unfoldable pub insert_height : Rendition → List Rendition → List Rendition
insert_height r [] = r ∷ []
insert_height r (q ∷ qs) = if ltb_ℤ q.height r.height then q ∷ insert_height r qs else r ∷ q ∷ qs

unfoldable pub sort_heights : List Rendition → List Rendition
sort_heights [] = []
sort_heights (r ∷ rs) = insert_height r (sort_heights rs)

abbrev pub in_order : Rendition → Rendition → Bool
in_order low high =
    ltb_ℤ low.height high.height
    && not (ltb_ℤ high.video_bitrate low.video_bitrate)
    && not (str_eq low.name "1080p")
    && not (str_eq high.name "480p")

unfoldable pub ordered : List Rendition → Bool
ordered [] = true
ordered (low ∷ []) = true
ordered (low ∷ high ∷ rest) = in_order low high && ordered (high ∷ rest)

-- expected[path] = false
unfoldable pub remove_path : List ℕ → Paths → Paths
remove_path path [] = []
remove_path path (p ∷ ps) = if same_codes p path then ps else p ∷ remove_path path ps

abbrev pub has_size : PackageObject → Bool
has_size o = leb 1 o.size_bytes && leb o.size_bytes object_max_bytes

-- Its limit as a playlist, and its checksum.
abbrev pub is_sound : PackageObject → Bool
is_sound o =
    (not (has_suffix (codes ".m3u8") (codes o.path)) || leb o.size_bytes playlist_max_bytes)
    && is_sha256 o.sha256

-- The loop over the objects, with the total so far.
unfoldable pub check_objects : List PackageObject → Paths → ℕ → Result ℕ
check_objects [] expected total = ok total
check_objects (o ∷ os) expected total =
    guard (has_path (codes o.path) expected && has_size o && is_sound o) invalid_input
    >> (guard (not (ltb package_max_bytes (total + o.size_bytes))) package_too_large
        >> check_objects os (remove_path (codes o.path) expected) (total + o.size_bytes))

unfoldable pub insert_name : Rendition → List Rendition → List Rendition
insert_name r [] = r ∷ []
insert_name r (q ∷ qs) =
    if code_le (codes r.name) (codes q.name) then r ∷ q ∷ qs else q ∷ insert_name r qs

unfoldable pub sort_names : List Rendition → List Rendition
sort_names [] = []
sort_names (r ∷ rs) = insert_name r (sort_names rs)

-- RecordingInventoryDigest
unfoldable pub inventory_digest : Platform → PackageInventory → String
inventory_digest p inv = p.sha256 (
    p.encode (record inv {
      objects = sort_objects inv.objects;
      renditions = sort_names inv.renditions;
      inventory_digest = "";
    }))

abbrev pub inventory_max_bytes : ℕ
inventory_max_bytes = 8388608

abbrev pub in_limits : PackageInventory → Bool
in_limits inv =
    eq_ℤ inv.schema_version (pos 1)
    && is_preset (codes inv.preset_version)
    && leb (length inv.objects) package_max_objects
    && leb 1 (length inv.renditions)
    && leb (length inv.renditions) 3

abbrev pub is_whole : PackageInventory → Reading → Bool
is_whole inv s =
    mentions s.seen "720p"
    && length inv.objects == length s.expected
    && ordered (sort_heights inv.renditions)

abbrev pub encoded_size : Platform → PackageInventory → ℕ
encoded_size p inv = len (p.encode inv)

abbrev pub has_digest : Platform → PackageInventory → Bool
has_digest p inv =
    str_eq inv.inventory_digest "" || str_eq (inventory_digest p inv) inv.inventory_digest

-- The total size of the package, with its package.json.
unfoldable pub validate_inventory : Platform → PackageInventory → Result ℕ
validate_inventory p inv =
    guard (in_limits inv) invalid_input
    >> (read_renditions p inv.preset_version inv.renditions start_reading >>= λ s.
        guard (is_whole inv s) invalid_input
        >> (guard (not (ltb inventory_max_bytes (encoded_size p inv))) invalid_input
            >> (check_objects inv.objects s.expected (encoded_size p inv) >>= λ total.
                guard (has_digest p inv) invalid_input >> ok total)))
