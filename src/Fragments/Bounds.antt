-- ===== src/Fragments/Bounds.antt =====
-- What a parsed file yields: internal/recordingvalidation/fragment_durations.go.
use asset_api.Base.{
  ℕ, zero, suc, ◌+◌, ◌≤◌, ◌≡◌, refl, ap, subst, inl, inr, true, not, ◌&&◌, List, [], ◌∷◌, arith,
  length, length-append, All, All-append, Bool-cases, ltb, ◌==◌, if-cases,
}
use asset_api.Errors.{ok, invalid_upload, guard, >>=-eq-ok, guard-eq-ok, ok_injective}
use asset_api.Fragments.Boxes.{FragmentBox, fragment_boxes, metadata, children, kind_is}
use asset_api.Fragments.Durations.{
  Defaults, Samples, append_values, samples_loop, sample_loop, trun_data, trun_entry, trun_loop,
  traf_entries, traf_child, traf_loop, moof_box, moof_loop, moov_loop, fragment_sample_durations,
  tfhd_loop, run_count, run_flags, valid_counts, first_sample, first_byte,
}

-- How many samples there are.
abbrev pub sample_count : Samples → ℕ
sample_count [] = 0
sample_count ((track, values) ∷ rest) = length values + sample_count rest

abbrev Positive : List ℕ → Type 0
Positive values = All (λ v. 1 ≤ v) values

-- A track is not 0, and its samples have positive durations.
abbrev pub HasDurations : ℕ × List ℕ → Type 0
HasDurations e = (1 ≤ e.0) × All (λ v. 1 ≤ v) e.1

-- The total that the loops carry.
abbrev Counted : ℕ × Samples → Type 0
Counted s = (sample_count s.1 ≡ s.0) × (s.0 ≤ 4096) × All HasDurations s.1

samples_loop-Positive :
    (count flags duration : ℕ) (bytes : List ℕ) (offset : ℕ) (r : List ℕ × ℕ)
    → samples_loop count flags duration bytes offset ≡ ok r
    → (length r.0 ≡ count) × Positive r.0
unfolding samples_loop
samples_loop-Positive zero flags duration bytes offset r e =
    subst (λ v. (length v.0 ≡ 0) × Positive v.0) (ok_injective e) (refl, tt)
samples_loop-Positive (suc count) flags duration bytes offset r e =
    let (s, a, e1) = >>=-eq-ok (sample_loop flags bytes _ (offset, duration)) _ e in
    let (u, g, e2) = >>=-eq-ok (guard (not (s.1 == 0)) invalid_upload) _ e1 in
    let (t, b, e3) = >>=-eq-ok (samples_loop count flags duration bytes s.0) _ e2 in
    let (n, p) = samples_loop-Positive count flags duration bytes s.0 t b in
    let g' = guard-eq-ok (not (s.1 == 0)) invalid_upload g in
    subst (λ v. (length v.0 ≡ suc count) × Positive v.0) (ok_injective e3)
      (ap suc n, ((ground (arith, g')), p))

append_values-HasDurations :
    (track : ℕ) (values : List ℕ) (s : Samples)
    → 1 ≤ track
    → Positive values
    → All HasDurations s
    → All HasDurations (append_values track values s)
      × (sample_count (append_values track values s) ≡ sample_count s + length values)
unfolding append_values
append_values-HasDurations track values [] n p h = (((n, p), tt), omega arith)
append_values-HasDurations track values ((t, vs) ∷ rest) n p h = elim (Bool-cases (t == track)) [
  | inl y ↦ rw y (
    ((h.0.0, All-append (λ v. 1 ≤ v) vs values h.0.1 p), h.1),
    omega (arith, length-append vs values),
  )
  | inr y ↦ rw y (
      let (i, c) = append_values-HasDurations track values rest n p h.1 in
      ((h.0, i), omega (arith, c)))
]

trun_data-Counted :
    (track duration : ℕ) (bytes : List ℕ) (s t : ℕ × Samples)
    → 1 ≤ track
    → Counted s
    → trun_data track duration bytes s ≡ ok t
    → Counted t
trun_data-Counted track duration bytes s t n h e =
    let (u, g, e1) =
      >>=-eq-ok
        (guard (not (ltb (length bytes) 8) && not (ltb 1 (first_byte bytes))) invalid_upload) _ e in
    let (v, k, e2) = >>=-eq-ok (guard (valid_counts s.0 bytes) invalid_upload) _ e1 in
    let (r, b, e3) =
      >>=-eq-ok
        (samples_loop (run_count bytes) (run_flags bytes) duration bytes (first_sample bytes)) _
        e2 in
    let (w, l, e4) = >>=-eq-ok (guard (r.1 == length bytes) invalid_upload) _ e3 in
    let (c, p) =
      samples_loop-Positive (run_count bytes) (run_flags bytes) duration bytes (first_sample bytes)
        r b in
    let (a, d) = append_values-HasDurations track r.0 s.1 n p h.2 in
    let k' = guard-eq-ok (valid_counts s.0 bytes) invalid_upload k in
    subst Counted (ok_injective e4) (omega (arith, d, c, h.0), within k', a)
  where
    within : valid_counts s.0 bytes ≡ true → s.0 + run_count bytes ≤ 4096
    within x = ground (arith, x)

module _ (track duration : ℕ) (n : 1 ≤ track) where
  trun_entry-Counted :
      (entry : FragmentBox) (s t : ℕ × Samples)
      → Counted s
      → trun_entry track duration entry s ≡ ok t
      → Counted t
  trun_entry-Counted entry s t h =
      if-cases (λ r. r ≡ ok t → Counted t) (kind_is "trun" entry) _ _
        (λ y e.
          let (bytes, m, e1) = >>=-eq-ok (metadata entry) _ e in
          trun_data-Counted track duration bytes s t n h e1)
        (λ y e. subst Counted (ok_injective e) h)

  trun_loop-Counted :
      (entries : List FragmentBox) (s t : ℕ × Samples)
      → Counted s
      → trun_loop track duration entries s ≡ ok t
      → Counted t
  unfolding trun_loop
  trun_loop-Counted [] s t h e = subst Counted (ok_injective e) h
  trun_loop-Counted (entry ∷ rest) s t h e =
      let (u, a, e1) = >>=-eq-ok (trun_entry track duration entry s) _ e in
      trun_loop-Counted rest u t (trun_entry-Counted entry s u h a) e1

abbrev Sampled : ℕ × ℕ × Samples → Type 0
Sampled s = Counted (s.1, s.2)

module _ (defaults : Defaults) where
  traf_entries-Counted :
      (entries : List FragmentBox) (s t : ℕ × Samples)
      → Counted s
      → traf_entries defaults entries s ≡ ok t
      → Counted t
  traf_entries-Counted entries s t h e =
      let (q, a, e1) = >>=-eq-ok (tfhd_loop defaults entries (0, 0)) _ e in
      let (u, g, e2) = >>=-eq-ok (guard (not (q.0 == 0)) invalid_upload) _ e1 in
      let x = guard-eq-ok (not (q.0 == 0)) invalid_upload g in
      trun_loop-Counted q.0 q.1 (nonzero q.0 x) entries s t h e2
    where
      nonzero : (i : ℕ) → not (i == 0) ≡ true → 1 ≤ i
      nonzero i x = ground (arith, x)

  traf_child-Counted :
      (child : FragmentBox) (s t : ℕ × ℕ × Samples)
      → Sampled s
      → traf_child defaults child s ≡ ok t
      → Sampled t
  traf_child-Counted child s t h =
      if-cases (λ r. r ≡ ok t → Sampled t) (kind_is "traf" child) _ _
        (λ y e.
          let (b, m, e1) = >>=-eq-ok (children child s.0) _ e in
          let (u, a, e2) = >>=-eq-ok (traf_entries defaults b.0 (s.1, s.2)) _ e1 in
          subst Sampled (ok_injective e2) (traf_entries-Counted b.0 (s.1, s.2) u h a))
        (λ y e. subst Sampled (ok_injective e) h)

  traf_loop-Counted :
      (boxes : List FragmentBox) (s t : ℕ × ℕ × Samples)
      → Sampled s
      → traf_loop defaults boxes s ≡ ok t
      → Sampled t
  unfolding traf_loop
  traf_loop-Counted [] s t h e = subst Sampled (ok_injective e) h
  traf_loop-Counted (child ∷ rest) s t h e =
      let (u, a, e1) = >>=-eq-ok (traf_child defaults child s) _ e in
      traf_loop-Counted rest u t (traf_child-Counted child s u h a) e1

  moof_box-Counted :
      (box : FragmentBox) (s t : ℕ × ℕ × Samples)
      → Sampled s
      → moof_box defaults box s ≡ ok t
      → Sampled t
  moof_box-Counted box s t h =
      if-cases (λ r. r ≡ ok t → Sampled t) (kind_is "moof" box) _ _
        (λ y e.
          let (b, m, e1) = >>=-eq-ok (children box s.0) _ e in
          traf_loop-Counted b.0 (b.1, s.1, s.2) t h e1)
        (λ y e. subst Sampled (ok_injective e) h)

  moof_loop-Counted :
      (boxes : List FragmentBox) (s t : ℕ × ℕ × Samples)
      → Sampled s
      → moof_loop defaults boxes s ≡ ok t
      → Sampled t
  unfolding moof_loop
  moof_loop-Counted [] s t h e = subst Sampled (ok_injective e) h
  moof_loop-Counted (box ∷ rest) s t h e =
      let (u, a, e1) = >>=-eq-ok (moof_box defaults box s) _ e in
      moof_loop-Counted rest u t (moof_box-Counted box s u h a) e1

-- The durations that are read from a file are those of at most 4096 samples, each positive, and no track
-- is 0.
pub samples_bounded :
    (file : List ℕ) (result : Samples)
    → fragment_sample_durations file ≡ ok result
    → (sample_count result ≤ 4096) × All HasDurations result
unfolding fragment_sample_durations
samples_bounded file result e =
    let (b, a, e1) = >>=-eq-ok (fragment_boxes 4096 file) _ e in
    let (d, c, e2) = >>=-eq-ok (moov_loop b.0 (b.1, [])) _ e1 in
    let (r, m, e3) = >>=-eq-ok (moof_loop d.1 b.0 (d.0, 0, [])) _ e2 in
    let (x, y, z) = moof_loop-Counted d.1 b.0 (d.0, 0, []) r (refl, (omega arith), tt) m in
    subst (λ v. (sample_count v ≤ 4096) × All HasDurations v) (ok_injective e3)
      (omega (arith, x, y), z)
