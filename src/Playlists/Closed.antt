-- ===== src/Playlists/Closed.antt =====
-- A package whose playlists are accepted is closed: what its playlists name are objects of the inventory.
-- ValidateRecordingPlaylists of internal/assets/recording_playlist.go.
use asset_api.Base.{
  ℕ, zero, suc, ◌+◌, ◌<◌, String, true, ◌==◌, List, [], ◌∷◌, ◌++◌, map, length, All, All-mono,
  codes, same_codes_refl, ℤ, ◌≡◌, refl, sym, subst, arith,
}
use asset_api.Errors.{Result, ok, err, >>=-eq-ok, guard, invalid_upload}
use asset_api.Capture.Recovery.{segment_path}
use asset_api.Packages.Renditions.{
  Rendition, PackageInventory, Platform, Paths, has_path, rendition_file, to_count,
}
use asset_api.Packages.Inventory.{validate_inventory, start_reading}
use asset_api.Packages.Complete.{validate_iff, paths_of, SamePaths, occurs}
use asset_api.Playlists.Floats.{Floats}
use asset_api.Playlists.Text.{Text, attr, playlist_lines, segment_file}
use asset_api.Playlists.Master.{index_path, validate_master}
use asset_api.Playlists.Media.{validate_media}
use asset_api.Playlists.Package.{
  PackageState, check_rendition, check_renditions, inventory_or_invalid, nothing,
  validate_playlists,
}
use asset_api.Playlists.Uris.{is_uri, uris, segment_files}
use asset_api.Playlists.Segments.{IsTag, validate_media-uris}
use asset_api.Playlists.Variants.{validate_master-SamePaths}
use asset_api.Playlists.Counting.{counted, has_path-All}
use asset_api.Playlists.Expected.{HasFiles, HasFiles-mono, read_renditions-Expects}

-- The text of a rendition's playlist, and what it names below the rendition's folder.
abbrev pub IsClosed : PackageInventory → List (Text × Text) → Rendition → Type 0
IsClosed inv files r =
    (lines : List Text) × (playlist_lines (attr (index_path r) files) ≡ ok lines)
    × All IsTag lines
    × All (λ u. has_path (codes r.name ++ (codes "/" ++ u)) (paths_of inv.objects) ≡ true)
        (uris lines)
    × (has_path (rendition_file r.name "/init.mp4") (paths_of inv.objects) ≡ true)

abbrev pub IsClosedMaster : PackageInventory → List (Text × Text) → Type 0
IsClosedMaster inv files =
    (lines : List Text) × (playlist_lines (attr (codes "master.m3u8") files) ≡ ok lines)
    × SamePaths (uris lines) (map index_path inv.renditions)
    × All (λ u. has_path u (paths_of inv.objects) ≡ true) (uris lines)

segment_file-path :
    (name : String) (n : ℕ) → segment_path name n ≡ codes name ++ (codes "/" ++ segment_file n)
unfolding segment_path segment_file
segment_file-path name n = refl

segment_files-All :
    (Q : Text → Type 0) (n k : ℕ)
    → ((i : ℕ) → i < n + k → Q (segment_file i))
    → All Q (segment_files n k)
segment_files-All Q n zero h = tt
segment_files-All Q n (suc k) h =
    (h n (omega arith), segment_files-All Q (suc n) k (λ i l. h i (omega arith)))

SamePaths-has_path :
    (xs ys : Paths) (path : Text)
    → SamePaths xs ys
    → has_path path ys ≡ true
    → has_path path xs ≡ true
SamePaths-has_path xs ys path s h = occurs path xs (omega (arith, s path, counted path ys h))

has_path-map :
    (Q : Text → Type 0) (rs : List Rendition)
    → All (λ r. Q (index_path r)) rs
    → All Q (map index_path rs)
has_path-map Q [] h = tt
has_path-map Q (r ∷ rs) h = (h.0, has_path-map Q rs h.1)

-- What is among others that have a property has it.
among-All :
    (Q : Text → Type 0) (xs ys : Paths)
    → ((path : Text) → has_path path xs ≡ true → has_path path ys ≡ true)
    → All Q ys
    → All Q xs
unfolding has_path
among-All Q [] ys m h = tt
among-All Q (x ∷ xs) ys m h = (
  has_path-All Q x ys (m x (ground (arith, same_codes_refl x))) h,
  among-All Q xs ys (λ path k. m path (ground (arith, k))) h,
)

module _ (f : Floats) (inv : PackageInventory) (files : List (Text × Text)) where
  -- The playlist of the rendition has been validated.
  abbrev Validated : Rendition → Type 0
  Validated r =
      (lines : List Text) × (boundaries : List f.Value) × (playlist_lines
          (attr (index_path r) files)
        ≡ ok lines)
      × (validate_media f lines r inv.preset_version ≡ ok boundaries)

  check_renditions-Validated :
      (rs : List Rendition) (s t : PackageState f)
      → check_renditions f inv files rs s ≡ ok t
      → All Validated rs
  unfolding check_renditions
  check_renditions-Validated [] s t e = tt
  check_renditions-Validated (r ∷ rs) s t e =
      let (u, first, later) = >>=-eq-ok (check_rendition f inv files r s) _ e in
      let (lines, read, rest) = >>=-eq-ok (playlist_lines (attr (index_path r) files)) _ first in
      let (boundaries, valid, more) =
        >>=-eq-ok (validate_media f lines r inv.preset_version) _ rest in
      ((lines, boundaries, read, valid), check_renditions-Validated rs u t later)

  closed : (r : Rendition) → Validated r → HasFiles (paths_of inv.objects) r → IsClosed inv files r
  closed r (lines, boundaries, read, valid) h =
      let (names, count, tags) = validate_media-uris f lines r inv.preset_version valid in
      (
        lines,
        read,
        tags,
        subst (All (λ u. has_path (codes r.name ++ (codes "/" ++ u)) (paths_of inv.objects) ≡ true))
            (sym names)
            (segment_files-All _ 0 (length boundaries) (λ i l.
              subst (λ v. has_path v (paths_of inv.objects) ≡ true) (segment_file-path r.name i)
                (h.segments i (subst (λ (z : ℤ). i < to_count z) (sym count) (omega arith))))),
        h.init,
      )

  every_closed :
      (rs : List Rendition)
      → All Validated rs
      → All (HasFiles (paths_of inv.objects)) rs
      → All (IsClosed inv files) rs
  every_closed [] v h = tt
  every_closed (r ∷ rs) v h = (closed r v.0 h.0, every_closed rs v.1 h.1)

accepted_inventory : (r : Result ℕ) → inventory_or_invalid r ≡ ok tt → (total : ℕ) × (r ≡ ok total)
accepted_inventory (ok total) e = (total, refl)
accepted_inventory (err x) e = absurd (cc)

-- In a package whose playlists are accepted, the URIs of the master playlist are the playlists of the
-- renditions, each as often as there are renditions with its path, and are objects of the inventory. The
-- playlist of each rendition has no tags but those of the profile, and its init.mp4 and what its URIs name
-- in the rendition's folder are objects of the inventory: a player is sent to no other file.
pub validate_playlists-IsClosed :
    (f : Floats) (p : Platform) (inv : PackageInventory) (files : List (Text × Text))
    → validate_playlists f p inv files ≡ ok tt
    → IsClosedMaster inv files × All (IsClosed inv files) inv.renditions
unfolding validate_playlists
validate_playlists-IsClosed f p inv files e =
    let (u, first, e1) = >>=-eq-ok (inventory_or_invalid (validate_inventory p inv)) _ e in
    let (total, valid) = accepted_inventory (validate_inventory p inv) first in
    let whole = (validate_iff p inv total).0 valid in
    let (v, sized, e2) =
      >>=-eq-ok (guard (length files == length inv.renditions + 1) invalid_upload) _ e1 in
    let (lines, read, e3) = >>=-eq-ok (playlist_lines (attr (codes "master.m3u8") files)) _ e2 in
    let (w, master, e4) = >>=-eq-ok (validate_master f lines inv.renditions) _ e3 in
    let (s, checked, e5) =
      >>=-eq-ok (check_renditions f inv files inv.renditions (nothing f)) _ e4 in
    let (expected, keeps) =
      read_renditions-Expects p inv.preset_version inv.renditions start_reading whole.reading
        whole.reads in
    let in_objects = λ (path : Text).
      SamePaths-has_path (paths_of inv.objects) whole.reading.expected path whole.each_once in
    let same =
      validate_master-SamePaths f lines inv.renditions
        (has_path-map (λ q. is_uri q ≡ true) inv.renditions
          (All-mono _ _ inv.renditions (λ r h. h.1) expected))
        master in
    (
      (
        lines,
        read,
        same,
        among-All (λ q. has_path q (paths_of inv.objects) ≡ true) (uris lines)
            (map index_path inv.renditions)
            (λ path k.
              SamePaths-has_path (map index_path inv.renditions) (uris lines) path
                (λ q. sym (same q)) k)
            (has_path-map (λ q. has_path q (paths_of inv.objects) ≡ true) inv.renditions
              (All-mono _ _ inv.renditions (λ r h. in_objects (index_path r) h.0.index) expected)),
      ),
      every_closed f inv files inv.renditions
          (check_renditions-Validated f inv files inv.renditions (nothing f) s checked)
          (All-mono _ _ inv.renditions
            (λ r h. HasFiles-mono whole.reading.expected (paths_of inv.objects) in_objects r h.0)
            expected),
    )
