-- ===== src/Playlists/Expected.antt =====
-- The files that an accepted inventory expects of its renditions: internal/assets/recording_package.go.
use asset_api.Base.{
  ℕ, zero, suc, ◌<◌, String, true, ◌&&◌, not, Option, none, some, List, [], ◌∷◌, ◌++◌, ◌==◌,
  Bool-cases, All, codes, same_codes_refl, str_eq, eq_iff, ◌≡◌, refl, sym, ap, subst, inl, inr,
  arith,
}
use asset_api.Errors.{ok, ok_injective, >>=-eq-ok, then-eq-ok, invalid_input}
use asset_api.Capture.Recovery.{segment_path}
use asset_api.Packages.Renditions.{
  Rendition, Platform, Paths, has_path, add_path, add_segments, add_files, rendition_file, to_count,
  max_size, valid_rendition, fits_preset, keeps_timeline, mentions,
}
use asset_api.Packages.Inventory.{Reading, read_sized, read_renditions}
use asset_api.Playlists.Master.{index_path}
use asset_api.Playlists.Uris.{is_uri}

add_path-has : (path : List ℕ) (paths : Paths) → has_path path (add_path path paths) ≡ true
unfolding add_path has_path
add_path-has path paths = ground (arith, same_codes_refl path)

add_path-keeps :
    (path other : List ℕ) (paths : Paths)
    → has_path other paths ≡ true
    → has_path other (add_path path paths) ≡ true
unfolding add_path has_path
add_path-keeps path other paths h = ground (arith, h)

add_segments-keeps :
    (name : String) (n : ℕ) (other : List ℕ) (paths : Paths)
    → has_path other paths ≡ true
    → has_path other (add_segments name n paths) ≡ true
unfolding add_segments
add_segments-keeps name zero other paths h = h
add_segments-keeps name (suc n) other paths h =
    add_path-keeps (segment_path name n) other (add_segments name n paths)
      (add_segments-keeps name n other paths h)

add_segments-has :
    (name : String) (n k : ℕ) (paths : Paths)
    → k < n
    → has_path (segment_path name k) (add_segments name n paths) ≡ true
unfolding add_segments
add_segments-has name zero k paths l = absurd (omega arith)
add_segments-has name (suc n) k paths l = elim (Bool-cases (k == n)) [
  | inl t ↦
      subst
        (λ i.
          has_path (segment_path name i)
            (add_path (segment_path name n) (add_segments name n paths))
          ≡ true)
        (ground (arith, t)) (add_path-has (segment_path name n) (add_segments name n paths))
  | inr f ↦
      add_path-keeps (segment_path name n) (segment_path name k) (add_segments name n paths)
        (add_segments-has name n k paths (ground (arith, f)))
]

-- All files of a rendition are among the paths.
pub record HasFiles (paths : Paths) (r : Rendition) : Type 0 where
  pub index : has_path (index_path r) paths ≡ true
  pub init : has_path (rendition_file r.name "/init.mp4") paths ≡ true
  pub segments :
      (k : ℕ) → k < to_count r.segment_count → has_path (segment_path r.name k) paths ≡ true

pub HasFiles-mono :
    (paths more : Paths)
    → ((path : List ℕ) → has_path path paths ≡ true → has_path path more ≡ true)
    → (r : Rendition) → HasFiles paths r
    → HasFiles more r
HasFiles-mono paths more m r h = record {
  index = m (index_path r) h.index;
  init = m (rendition_file r.name "/init.mp4") h.init;
  segments = λ k l. m (segment_path r.name k) (h.segments k l);
}

add_files-keeps :
    (r : Rendition) (path : List ℕ) (paths : Paths)
    → has_path path paths ≡ true
    → has_path path (add_files r paths) ≡ true
add_files-keeps r path paths h =
    add_segments-keeps r.name (to_count r.segment_count) path _
      (add_path-keeps _ path _ (add_path-keeps _ path paths h))

add_files-HasFiles : (r : Rendition) (paths : Paths) → HasFiles (add_files r paths) r
add_files-HasFiles r paths =
    let index = rendition_file r.name "/index.m3u8" in
    let init = rendition_file r.name "/init.mp4" in
    record {
      index =
          add_segments-keeps r.name (to_count r.segment_count) index
            (add_path init (add_path index paths))
            (add_path-keeps init index (add_path index paths) (add_path-has index paths));
      init =
          add_segments-keeps r.name (to_count r.segment_count) init
            (add_path init (add_path index paths)) (add_path-has init (add_path index paths));
      segments = λ k l. add_segments-has r.name (to_count r.segment_count) k _ l;
    }

-- A name that has a size starts with a digit.
max_size-is_uri :
    (name : String) {size : ℕ × ℕ}
    → max_size name ≡ some size
    → is_uri (codes name ++ codes "/index.m3u8") ≡ true
max_size-is_uri name e = elim (Bool-cases (str_eq name "1080p")) [
  | inl t ↦ known "1080p" refl ((eq_iff name "1080p").0 t)
  | inr f ↦ elim (Bool-cases (str_eq name "480p")) [
    | inl t ↦ known "480p" refl ((eq_iff name "480p").0 t)
    | inr g ↦ elim (Bool-cases (str_eq name "720p")) [
      | inl t ↦ known "720p" refl ((eq_iff name "720p").0 t)
      | inr h ↦ absurd (ground (arith, f, g, h))
    ]
  ]
]
  where
    known :
        (s : String)
        → is_uri (codes s ++ codes "/index.m3u8") ≡ true
        → name ≡ s
        → is_uri (codes name ++ codes "/index.m3u8") ≡ true
    known s h q = subst (λ n. is_uri (codes n ++ codes "/index.m3u8") ≡ true) (sym q) h

abbrev pub Expects : Paths → Rendition → Type 0
Expects paths r = HasFiles paths r × (is_uri (index_path r) ≡ true)

abbrev Keeps : Reading → Reading → Type 0
Keeps s t = (path : List ℕ) → has_path path s.expected ≡ true → has_path path t.expected ≡ true

read_sized-Expects :
    (p : Platform) (preset : String) (r : Rendition) (s t : Reading) (o : Option (ℕ × ℕ))
    → max_size r.name ≡ o
    → read_sized p preset r s o ≡ ok t
    → Expects t.expected r × Keeps s t
read_sized-Expects p preset r s t none m e = absurd (cc)
read_sized-Expects p preset r s t (some size) m e =
    let (test, same) =
      then-eq-ok
        (not (mentions s.seen r.name)
          && valid_rendition size r
          && fits_preset preset r
          && keeps_timeline p s.first r)
        _ invalid_input e in
    let grown : add_files r s.expected ≡ t.expected =
      ap (λ (u : Reading). u.expected) (ok_injective same) in
    (
      (subst (λ v. HasFiles v r) grown (add_files-HasFiles r s.expected), max_size-is_uri r.name m),
      λ path h. subst (λ v. has_path path v ≡ true) grown (add_files-keeps r path s.expected h),
    )

pub read_renditions-Expects :
    (p : Platform) (preset : String) (rs : List Rendition) (s t : Reading)
    → read_renditions p preset rs s ≡ ok t
    → All (Expects t.expected) rs × Keeps s t
unfolding read_renditions
read_renditions-Expects p preset [] s t e =
    (tt, λ path h. subst (λ (u : Reading). has_path path u.expected ≡ true) (ok_injective e) h)
read_renditions-Expects p preset (r ∷ rs) s t e =
    let (u, first, later) = >>=-eq-ok (read_sized p preset r s (max_size r.name)) _ e in
    let (here, kept) = read_sized-Expects p preset r s u (max_size r.name) refl first in
    let (there, keeps) = read_renditions-Expects p preset rs u t later in
    (
      ((HasFiles-mono u.expected t.expected keeps r here.0, here.1), there),
      λ path h. keeps path (kept path h),
    )
