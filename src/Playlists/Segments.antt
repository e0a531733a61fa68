-- ===== src/Playlists/Segments.antt =====
-- An accepted playlist of a rendition names its own segments in order, and nothing else:
-- validateRecordingMedia of internal/assets/recording_playlist.go.
use asset_api.Base.{
  ℕ, suc, ◌+◌, String, Bool, true, false, ◌||◌, Option, none, some, List, [], ◌∷◌, if◌then◌else◌,
  if-cases, length, length-append, any, All, same_codes, same_codes_eq, is_some, strip_prefix, ℤ,
  pos, negsuc, eq_ℤ_iff, ◌≡◌, refl, sym, ap, subst, ◌∙◌, ◌⊎◌, inl, inr, arith,
}
use asset_api.Errors.{
  Result, ok, ok_injective, >>=-eq-ok, then-eq-ok, else-eq-ok, invalid_upload, guard, ◌>>◌,
}
use asset_api.Packages.Renditions.{Rendition}
use asset_api.Playlists.Floats.{Floats}
use asset_api.Playlists.Text.{Text, parse_int, segment_file}
use asset_api.Playlists.Media.{
  MediaState, once_tags, end_tag, duration_text, target_text, before_comma, is_next, media_segment,
  with_duration, read_duration, with_target, once_tag, other_tag, media_tag, media_text, media_line,
  read_media, no_media, is_media, validate_media,
}
use asset_api.Playlists.Uris.{is_uri, uris, segment_files, segment_file-is_uri, tag-is_uri}

-- A tag that the profile has; of these only that of init.mp4 names a file.
abbrev pub is_known : Text → Bool
is_known line =
    any (λ t. same_codes line t) once_tags
    || same_codes line end_tag
    || is_some (strip_prefix duration_text line)
    || is_some (strip_prefix target_text line)

abbrev pub IsTag : Text → Type 0
IsTag [] = Unit
IsTag (c ∷ cs) = is_uri (c ∷ cs) ≡ false → is_known (c ∷ cs) ≡ true

segment_file-IsTag : (n : ℕ) → IsTag (segment_file n)
unfolding segment_file
segment_file-IsTag n u = absurd (cc)

module _ (f : Floats) where
  open f use {Value, lt, is_finite, parse, rounded}

  -- A line is the name of the next segment, or a tag.
  abbrev Reads : Text → MediaState Value → MediaState Value → Type 0
  Reads line s t =
      ((line ≡ segment_file (length s.boundaries))
        × (length t.boundaries ≡ suc (length s.boundaries)))
      ⊎ ((is_uri line ≡ false) × IsTag line × (length t.boundaries ≡ length s.boundaries))

  segment-Reads :
      (r : Rendition) (preset : String) (line : Text) (s t : MediaState Value) (d : Value)
      → media_segment f r preset line s d ≡ ok t
      → Reads line s t
  segment-Reads r preset line s t d e =
      let (test, same) = then-eq-ok (is_next f r preset line s d) _ invalid_upload e in
      inl (
        same_codes_eq line (segment_file (length s.boundaries)) (ground (arith, test)),
        ap (λ (u : MediaState Value). length u.boundaries) (sym (ok_injective same))
            ∙ length-append s.boundaries (f.add s.total d ∷ [])
            ∙ (omega arith),
      )

  with_duration-length :
      (s t : MediaState Value) (o : Option Value)
      → with_duration f s o ≡ ok t
      → length t.boundaries ≡ length s.boundaries
  with_duration-length s t none e = absurd (cc)
  with_duration-length s t (some d) e =
      ap (λ (u : MediaState Value). length u.boundaries)
        (sym (ok_injective (then-eq-ok _ _ invalid_upload e).1))

  read_duration-length :
      (s t : MediaState Value) (o : Option Text)
      → read_duration f s o ≡ ok t
      → length t.boundaries ≡ length s.boundaries
  read_duration-length s t none e = absurd (cc)
  read_duration-length s t (some value) e = with_duration-length s t (parse value) e

  with_target-length :
      (s t : MediaState Value) (o : Option ℤ)
      → with_target f s o ≡ ok t
      → length t.boundaries ≡ length s.boundaries
  with_target-length s t (some (pos n)) e =
      ap (λ (u : MediaState Value). length u.boundaries)
        (sym (ok_injective (then-eq-ok _ _ invalid_upload e).1))
  with_target-length s t (some (negsuc n)) e = absurd (cc)
  with_target-length s t none e = absurd (cc)

  once_tag-length :
      (line : Text) (s t : MediaState Value)
      → once_tag f line s ≡ ok t
      → ((any (λ u. same_codes line u) once_tags || same_codes line end_tag) ≡ true)
        × (length t.boundaries ≡ length s.boundaries)
  once_tag-length line s t =
      if-cases
        (λ (r : Result (MediaState Value)).
          r ≡ ok t
          → ((any (λ u. same_codes line u) once_tags || same_codes line end_tag) ≡ true)
            × (length t.boundaries ≡ length s.boundaries))
        (any (λ u. same_codes line u) once_tags) _ _
        (λ y e. (
          ap (λ b. b || same_codes line end_tag) y,
          ap (λ (u : MediaState Value). length u.boundaries)
              (sym (ok_injective (else-eq-ok _ _ invalid_upload e).1)),
        ))
        (λ n e.
          let (test, same) = then-eq-ok _ _ invalid_upload e in
          (
            ap (λ b. b || same_codes line end_tag) n ∙ test,
            ap (λ (u : MediaState Value). length u.boundaries) (sym (ok_injective same)),
          ))

  once_tag-Reads :
      (c : ℕ) (cs : Text) (s t : MediaState Value)
      → once_tag f (c ∷ cs) s ≡ ok t
      → Reads (c ∷ cs) s t
  once_tag-Reads c cs s t e =
      let (known, same) = once_tag-length (c ∷ cs) s t e in
      inr (hash_first c cs known, (λ n. ground (arith, known)), same)
    where
      hash_first :
          (c : ℕ) (cs : Text)
          → (any (λ u. same_codes (c ∷ cs) u) once_tags || same_codes (c ∷ cs) end_tag) ≡ true
          → is_uri (c ∷ cs) ≡ false
      hash_first c cs k = ground (arith, k)

  media_tag-Reads :
      (c : ℕ) (cs : Text) (s t : MediaState Value)
      → media_tag f (c ∷ cs) s (strip_prefix duration_text (c ∷ cs)) ≡ ok t
      → Reads (c ∷ cs) s t
  media_tag-Reads c cs s t = duration (strip_prefix duration_text (c ∷ cs)) refl
    where
      target :
          (o : Option Text)
          → strip_prefix target_text (c ∷ cs) ≡ o
          → other_tag f (c ∷ cs) s o ≡ ok t
          → Reads (c ∷ cs) s t
      target none p e = once_tag-Reads c cs s t e
      target (some value) p e = inr (
        tag-is_uri _ (c ∷ cs) p,
        (λ n. ground (arith, p)),
        with_target-length s t (parse_int value) e,
      )

      duration :
          (o : Option Text)
          → strip_prefix duration_text (c ∷ cs) ≡ o
          → media_tag f (c ∷ cs) s o ≡ ok t
          → Reads (c ∷ cs) s t
      duration none p e = target (strip_prefix target_text (c ∷ cs)) refl e
      duration (some value) p e = inr (
        tag-is_uri _ (c ∷ cs) p,
        (λ n. ground (arith, p)),
        read_duration-length s t (before_comma value) e,
      )

  media_line-Reads :
      (r : Rendition) (preset : String) (line : Text) (s t : MediaState Value)
      → media_line f r preset line s ≡ ok t
      → Reads line s t
  media_line-Reads r preset [] s t e =
      inr (refl, tt, ap (λ (u : MediaState Value). length u.boundaries) (sym (ok_injective e)))
  media_line-Reads r preset (c ∷ cs) s t e = go s.pending (else-eq-ok s.ended _ invalid_upload e).1
    where
      go : (o : Option Value) → media_text f r preset (c ∷ cs) s o ≡ ok t → Reads (c ∷ cs) s t
      go (some d) h = segment-Reads r preset (c ∷ cs) s t d h
      go none h = media_tag-Reads c cs s t h

  -- The lines that are read between two states.
  abbrev Names : List Text → MediaState Value → MediaState Value → Type 0
  Names lines s t =
      (k : ℕ) × (length t.boundaries ≡ length s.boundaries + k)
      × (uris lines ≡ segment_files (length s.boundaries) k)
      × All IsTag lines

  read_media-Names :
      (r : Rendition) (preset : String) (lines : List Text) (s t : MediaState Value)
      → read_media f r preset lines s ≡ ok t
      → Names lines s t
  unfolding read_media
  read_media-Names r preset [] s t e = (
    0,
    ap (λ (u : MediaState Value). length u.boundaries) (sym (ok_injective e)) ∙ (omega arith),
    refl,
    tt,
  )
  read_media-Names r preset (line ∷ lines) s t e =
      let (u, first, later) = >>=-eq-ok (media_line f r preset line s) _ e in
      next u (media_line-Reads r preset line s u first) (read_media-Names r preset lines u t later)
    where
      next : (u : MediaState Value) → Reads line s u → Names lines u t → Names (line ∷ lines) s t
      next u (inl (name, grown)) (k, count, names, tags) = (
        suc k,
        omega arith,
        ap (λ b. if b then line ∷ uris lines else uris lines)
              (ap is_uri name ∙ segment_file-is_uri (length s.boundaries))
            ∙ (λ i. name i ∷ (names ∙ ap (λ n. segment_files n k) grown) i),
        (subst IsTag (sym name) (segment_file-IsTag (length s.boundaries)), tags),
      )
      next u (inr (plain, tag, same)) (k, count, names, tags) = (
        k,
        omega arith,
        ap (λ b. if b then line ∷ uris lines else uris lines) plain
            ∙ names
            ∙ ap (λ n. segment_files n k) same,
        (tag, tags),
      )

-- The playlist of a rendition that is accepted has as many segments as the rendition, which has as many
-- boundaries. Its URIs are the names of these segments in their order, and each other line is empty or one
-- of the profile's tags, of which none but that of init.mp4 names a file.
pub validate_media-uris :
    (f : Floats) (lines : List Text) (r : Rendition) (preset : String) {boundaries : List f.Value}
    → validate_media f lines r preset ≡ ok boundaries
    → (uris lines ≡ segment_files 0 (length boundaries))
      × (r.segment_count ≡ pos (length boundaries))
      × All IsTag lines
unfolding validate_media
validate_media-uris f lines r preset {boundaries} e =
    let (s, reads, ends) = >>=-eq-ok (read_media f r preset lines (no_media f)) _ e in
    let (test, same) = guarded (is_media f r s) s.boundaries ends in
    let (k, count, names, tags) = read_media-Names f r preset lines (no_media f) s reads in
    let counted : length boundaries ≡ k = ap length (sym same) ∙ (omega arith) in
    (
      names ∙ ap (segment_files 0) (sym counted),
      sym ((eq_ℤ_iff (pos (length s.boundaries)) r.segment_count).0 (ground (arith, test)))
          ∙ ap (λ (bs : List f.Value). pos (length bs)) same,
      tags,
    )
  where
    guarded :
        (b : Bool) (bs : List f.Value)
        → (guard b invalid_upload >> ok bs) ≡ ok boundaries
        → (b ≡ true) × (bs ≡ boundaries)
    guarded true bs p = (refl, ok_injective p)
    guarded false bs p = absurd (cc)
