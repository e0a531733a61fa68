-- ===== src/Playlists/Variants.antt =====
-- An accepted master playlist names the playlist of each rendition once, and nothing else:
-- validateRecordingMaster of internal/assets/recording_playlist.go.
use asset_api.Base.{
  ◌+◌, ◌≤◌, true, false, ◌&&◌, ◌||◌, not, Option, none, some, List, [], ◌∷◌, map, if◌then◌else◌,
  Bool-cases, length, All, same_codes, same_codes_eq, strip_prefix, ◌≡◌, refl, sym, ap, subst, ◌∙◌,
  ◌⊎◌, inl, inr, arith,
}
use asset_api.Errors.{
  ok, ok_injective, >>=-eq-ok, guard-eq-ok, then-eq-ok, else-eq-ok, invalid_upload,
}
use asset_api.Packages.Renditions.{Rendition, has_path}
use asset_api.Packages.Complete.{occurrences, SamePaths}
use asset_api.Playlists.Floats.{Floats}
use asset_api.Playlists.Text.{Text, Attributes, recording_attributes}
use asset_api.Playlists.Master.{
  MasterState, index_path, by_path, stream_inf, version_tag, independent_tag, describes, variant,
  master_tag, master_text, master_line, read_master, no_variants, is_master, validate_master,
}
use asset_api.Playlists.Uris.{is_uri, uris, tag-is_uri}
use asset_api.Playlists.Counting.{unseen, SamePaths-distinct, by_path-has, has_path-All, length-map}

module _ (f : Floats) (rs : List Rendition)
    (named : All (λ p. is_uri p ≡ true) (map index_path rs)) where
  -- A line names another rendition's playlist, or is none.
  abbrev Reads : Text → MasterState → MasterState → Type 0
  Reads line s t =
      ((is_uri line ≡ true)
        × (has_path line (map index_path rs) ≡ true)
        × (has_path line s.seen ≡ false)
        × (t.seen ≡ line ∷ s.seen))
      ⊎ ((is_uri line ≡ false) × (t.seen ≡ s.seen))

  variant-Reads :
      (line : Text) (s t : MasterState) (attrs : Attributes) (o : Option Rendition)
      → by_path rs line ≡ o
      → variant f line s attrs o ≡ ok t
      → Reads line s t
  variant-Reads line s t attrs none m e = absurd (cc)
  variant-Reads line s t attrs (some r) m e =
      let (fresh, same) =
        else-eq-ok (has_path line s.seen || not (describes f r attrs)) _ invalid_upload e in
      let here = by_path-has rs line r m in
      inl (
        has_path-All (λ p. is_uri p ≡ true) line (map index_path rs) here named,
        here,
        ground (arith, fresh),
        ap (λ (u : MasterState). u.seen) (sym (ok_injective same)),
      )

  master_tag-Reads :
      (line : Text) (s t : MasterState) (o : Option Text)
      → strip_prefix stream_inf line ≡ o
      → master_tag f line s o ≡ ok t
      → Reads line s t
  master_tag-Reads line s t (some list) m e =
      let (attrs, read, same) = >>=-eq-ok (recording_attributes list) _ e in
      inr (tag-is_uri _ line m, ap (λ (u : MasterState). u.seen) (sym (ok_injective same)))
  master_tag-Reads line s t none m e =
      let (test, same) =
        then-eq-ok
          ((same_codes line version_tag || same_codes line independent_tag)
            && not (has_path line s.headers))
          _ invalid_upload e in
      inr (
        plain line (ground (arith, test)),
        ap (λ (u : MasterState). u.seen) (sym (ok_injective same)),
      )
    where
      plain :
          (l : Text)
          → (same_codes l version_tag || same_codes l independent_tag) ≡ true
          → is_uri l ≡ false
      plain [] p = refl
      plain (c ∷ cs) p = ground (arith, p)

  master_line-Reads :
      (line : Text) (s t : MasterState) → master_line f rs line s ≡ ok t → Reads line s t
  master_line-Reads [] s t e = inr (refl, ap (λ (u : MasterState). u.seen) (sym (ok_injective e)))
  master_line-Reads (c ∷ cs) s t e = go s.pending e
    where
      go : (o : Option Attributes) → master_text f rs (c ∷ cs) s o ≡ ok t → Reads (c ∷ cs) s t
      go (some attrs) h = variant-Reads (c ∷ cs) s t attrs (by_path rs (c ∷ cs)) refl h
      go none h = master_tag-Reads (c ∷ cs) s t (strip_prefix stream_inf (c ∷ cs)) refl h

  -- The URIs that are read between two states.
  abbrev Names : List Text → MasterState → MasterState → Type 0
  Names us s t =
      (length t.seen ≡ length us + length s.seen)
      × ((path : Text) → occurrences path t.seen ≡ occurrences path us + occurrences path s.seen)
      × ((path : Text) → occurrences path s.seen ≤ 1 → occurrences path t.seen ≤ 1)
      × All (λ p. has_path p (map index_path rs) ≡ true) us

  none_named : (s t : MasterState) → t.seen ≡ s.seen → Names [] s t
  none_named s t same = (
    ap length same ∙ (omega arith),
    (λ path. ap (occurrences path) same ∙ (omega arith)),
    (λ path h. subst (λ v. occurrences path v ≤ 1) (sym same) h),
    tt,
  )

  one_named :
      (line : Text) (us : List Text) (s u t : MasterState)
      → has_path line (map index_path rs) ≡ true
      → has_path line s.seen ≡ false
      → u.seen ≡ line ∷ s.seen
      → Names us u t
      → Names (line ∷ us) s t
  one_named line us s u t here new grown (count, occurs_in, distinct, among) = (
    omega (arith, ap length grown),
    (λ path. ground (arith, occurs_in path, ap (occurrences path) grown)),
    (λ path h. distinct path (
        ground (
          arith,
          ap (occurrences path) grown,
          Bool-cases (same_codes line path),
          unseen line s.seen new,
          h,
          other path,
        ))),
    (here, among),
  )
    where
      other :
          (path : Text)
          → same_codes line path ≡ true
          → occurrences path s.seen ≡ occurrences line s.seen
      other path e = ap (λ v. occurrences v s.seen) (sym (same_codes_eq line path e))

  read_master-Names :
      (lines : List Text) (s t : MasterState)
      → read_master f rs lines s ≡ ok t
      → Names (uris lines) s t
  unfolding read_master
  read_master-Names [] s t e =
      none_named s t (ap (λ (u : MasterState). u.seen) (sym (ok_injective e)))
  read_master-Names (line ∷ lines) s t e =
      let (u, first, later) = >>=-eq-ok (master_line f rs line s) _ e in
      next u (master_line-Reads line s u first) (read_master-Names lines u t later)
    where
      next :
          (u : MasterState)
          → Reads line s u
          → Names (uris lines) u t
          → Names (uris (line ∷ lines)) s t
      next u (inl (name, here, new, grown)) h =
          subst (λ b. Names (if b then line ∷ uris lines else uris lines) s t) (sym name)
            (one_named line (uris lines) s u t here new grown h)
      next u (inr (plain, same)) (count, occurs_in, distinct, among) =
          subst (λ b. Names (if b then line ∷ uris lines else uris lines) s t) (sym plain)
            (
              count ∙ ap (λ v. length (uris lines) + length v) same,
              (λ path.
                  occurs_in path
                  ∙ ap (λ v. occurrences path (uris lines) + occurrences path v) same),
              (λ path h. distinct path (subst (λ v. occurrences path v ≤ 1) (sym same) h)),
              among,
            )

-- The URIs of a master playlist that is accepted are the playlists of the renditions, each as often as
-- there are renditions with its path, if no path of a playlist starts with `#`.
pub validate_master-SamePaths :
    (f : Floats) (lines : List Text) (rs : List Rendition)
    → All (λ p. is_uri p ≡ true) (map index_path rs)
    → validate_master f lines rs ≡ ok tt
    → SamePaths (uris lines) (map index_path rs)
unfolding validate_master
validate_master-SamePaths f lines rs named e =
    let (s, reads, ends) = >>=-eq-ok (read_master f rs lines (no_variants f)) _ e in
    let test = guard-eq-ok (is_master f rs s) invalid_upload ends in
    let (count, occurs_in, distinct, among) =
      read_master-Names f rs named lines (no_variants f) s reads in
    SamePaths-distinct (uris lines) (map index_path rs)
      (λ path. omega (arith, occurs_in path, distinct path (omega arith))) among
      (omega (arith, length-map rs, seen_all s test, count))
  where
    seen_all : (s : MasterState) → is_master f rs s ≡ true → length s.seen ≡ length rs
    seen_all s t = ground (arith, t)
