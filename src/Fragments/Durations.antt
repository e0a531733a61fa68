-- ===== src/Fragments/Durations.antt =====
-- fragmentSampleDurations of internal/recordingvalidation/fragment_durations.go: the default duration of
-- each track from the moov boxes, then the durations of the samples from the moof boxes. Each loop over
-- boxes passes the shared budget on.
use asset_api.Base.{
  ℕ, zero, suc, ◌+◌, ◌-◌, ◌/◌, ◌%◌, ◌^◌, Bool, ◌&&◌, ◌||◌, not, Option, none, some, List, [], ◌∷◌,
  ◌++◌, ◌==◌, ltb, if◌then◌else◌, length, drop, is_some,
}
use asset_api.Errors.{Result, ok, invalid_upload, ◌>>=◌, ◌>>◌, guard}
use asset_api.Fragments.Boxes.{FragmentBox, uint32, kind_is, fragment_boxes, children, metadata}

module _ {ℓ} {V : Type ℓ} where
  -- m[track] of a map by track.
  unfoldable pub find_track : ℕ → List (ℕ × V) → Option V
  find_track track [] = none
  find_track track ((t, v) ∷ rest) = if t == track then some v else find_track track rest

abbrev pub Defaults : Type 0
Defaults = List (ℕ × ℕ)

abbrev pub Samples : Type 0
Samples = List (ℕ × List ℕ)

abbrev pub default_of : Option ℕ → ℕ
default_of none = 0
default_of (some v) = v

-- result[track] = append(result[track], values...)
unfoldable pub append_values : ℕ → List ℕ → Samples → Samples
append_values track values [] = (track, values) ∷ []
append_values track values ((t, vs) ∷ rest) =
    if t == track then (t, vs ++ values) ∷ rest else (t, vs) ∷ append_values track values rest

-- flags & flag != 0, of a power of two.
abbrev pub has_flag : ℕ → ℕ → Bool
has_flag flags flag = flags / flag % 2 == 1

-- flags & mask, the mask being the sum of different powers of two.
abbrev pub masked : ℕ → List ℕ → ℕ
masked flags [] = 0
masked flags (flag ∷ mask) = (if has_flag flags flag then flag else 0) + masked flags mask

-- flags & ^mask == 0
abbrev pub only_flags : ℕ → List ℕ → Bool
only_flags flags mask = masked flags mask == flags

abbrev pub first_byte : List ℕ → ℕ
first_byte [] = 0
first_byte (b ∷ bs) = b

abbrev pub trex_data : List ℕ → Defaults → Result Defaults
trex_data bytes defaults =
    guard (length bytes == 24 && uint32 bytes == 0) invalid_upload
    >> (guard
          (not
            (uint32 (drop 4 bytes) == 0 || is_some (find_track (uint32 (drop 4 bytes)) defaults)))
          invalid_upload
        >> ok ((uint32 (drop 4 bytes), uint32 (drop 12 bytes)) ∷ defaults))

abbrev pub trex_entry : FragmentBox → Defaults → Result Defaults
trex_entry entry defaults =
    if kind_is "trex" entry
    then (metadata entry >>= λ bytes. trex_data bytes defaults)
    else ok defaults

unfoldable pub trex_loop : List FragmentBox → Defaults → Result Defaults
trex_loop [] defaults = ok defaults
trex_loop (entry ∷ rest) defaults = trex_entry entry defaults >>= λ d. trex_loop rest d

abbrev pub mvex_child : FragmentBox → ℕ × Defaults → Result (ℕ × Defaults)
mvex_child child (budget, defaults) =
    if kind_is "mvex" child
    then (children child budget >>= λ e. trex_loop e.0 defaults >>= λ d. ok (e.1, d))
    else ok (budget, defaults)

unfoldable pub mvex_loop : List FragmentBox → ℕ × Defaults → Result (ℕ × Defaults)
mvex_loop [] s = ok s
mvex_loop (child ∷ rest) s = mvex_child child s >>= λ t. mvex_loop rest t

abbrev pub moov_box : FragmentBox → ℕ × Defaults → Result (ℕ × Defaults)
moov_box box (budget, defaults) =
    if kind_is "moov" box
    then (children box budget >>= λ c. mvex_loop c.0 (c.1, defaults))
    else ok (budget, defaults)

unfoldable pub moov_loop : List FragmentBox → ℕ × Defaults → Result (ℕ × Defaults)
moov_loop [] s = ok s
moov_loop (box ∷ rest) s = moov_box box s >>= λ t. moov_loop rest t

-- The fields of tfhd with their flags and sizes.
abbrev tfhd_fields : List (ℕ × ℕ)
tfhd_fields = (1, 8) ∷ (2, 4) ∷ (8, 4) ∷ (16, 4) ∷ (32, 4) ∷ []

-- 0x02003b
abbrev tfhd_mask : List ℕ
tfhd_mask = 1 ∷ 2 ∷ 8 ∷ 16 ∷ 32 ∷ 131072 ∷ []

-- One field, with the offset and the duration.
abbrev pub tfhd_field : ℕ → List ℕ → ℕ × ℕ → ℕ × ℕ → Result (ℕ × ℕ)
tfhd_field flags bytes (flag, size) (offset, duration) =
    if has_flag flags flag
    then guard (not (ltb (length bytes - offset) size)) invalid_upload
      >> ok (offset + size, (if flag == 8 then uint32 (drop offset bytes) else duration))
    else ok (offset, duration)

unfoldable pub fields_loop : ℕ → List ℕ → List (ℕ × ℕ) → ℕ × ℕ → Result (ℕ × ℕ)
fields_loop flags bytes [] s = ok s
fields_loop flags bytes (field ∷ rest) s =
    tfhd_field flags bytes field s >>= λ t. fields_loop flags bytes rest t

-- A tfhd: the track and its duration.
abbrev pub tfhd_data : Defaults → List ℕ → ℕ → Result (ℕ × ℕ)
tfhd_data defaults bytes track =
    guard (not (ltb (length bytes) 8) && first_byte bytes == 0 && track == 0) invalid_upload
    >> (guard (only_flags (uint32 bytes) tfhd_mask) invalid_upload
        >> (fields_loop (uint32 bytes) bytes tfhd_fields
              (8, default_of (find_track (uint32 (drop 4 bytes)) defaults))
            >>= λ s. guard (s.0 == length bytes) invalid_upload >> ok (uint32 (drop 4 bytes), s.1)))

abbrev pub tfhd_entry : Defaults → FragmentBox → ℕ × ℕ → Result (ℕ × ℕ)
tfhd_entry defaults entry (track, duration) =
    if kind_is "tfhd" entry
    then (metadata entry >>= λ bytes. tfhd_data defaults bytes track)
    else ok (track, duration)

unfoldable pub tfhd_loop : Defaults → List FragmentBox → ℕ × ℕ → Result (ℕ × ℕ)
tfhd_loop defaults [] s = ok s
tfhd_loop defaults (entry ∷ rest) s = tfhd_entry defaults entry s >>= λ t. tfhd_loop defaults rest t

abbrev max_samples : ℕ
max_samples = 4096

-- 0xf05
abbrev trun_mask : List ℕ
trun_mask = 1 ∷ 4 ∷ 256 ∷ 512 ∷ 1024 ∷ 2048 ∷ []

abbrev sample_flags : List ℕ
sample_flags = 256 ∷ 512 ∷ 1024 ∷ 2048 ∷ []

-- One field of a sample, with the offset and the value.
abbrev pub sample_field : ℕ → List ℕ → ℕ → ℕ × ℕ → Result (ℕ × ℕ)
sample_field flags bytes flag (offset, value) =
    if has_flag flags flag
    then guard (not (ltb (length bytes - offset) 4)) invalid_upload
      >> ok (offset + 4, (if flag == 256 then uint32 (drop offset bytes) else value))
    else ok (offset, value)

unfoldable pub sample_loop : ℕ → List ℕ → List ℕ → ℕ × ℕ → Result (ℕ × ℕ)
sample_loop flags bytes [] s = ok s
sample_loop flags bytes (flag ∷ rest) s =
    sample_field flags bytes flag s >>= λ t. sample_loop flags bytes rest t

-- The values of the samples, and the offset behind them.
unfoldable pub samples_loop : ℕ → ℕ → ℕ → List ℕ → ℕ → Result (List ℕ × ℕ)
samples_loop zero flags duration bytes offset = ok ([], offset)
samples_loop (suc count) flags duration bytes offset =
    sample_loop flags bytes sample_flags (offset, duration) >>= λ s.
    guard (not (s.1 == 0)) invalid_upload
    >> (samples_loop count flags duration bytes s.0 >>= λ r. ok (s.1 ∷ r.0, r.1))

abbrev flag_bytes : ℕ → ℕ → ℕ
flag_bytes flags flag = if has_flag flags flag then 4 else 0

abbrev pub run_flags : List ℕ → ℕ
run_flags bytes = uint32 bytes % 2 ^ 24

abbrev pub run_count : List ℕ → ℕ
run_count bytes = uint32 (drop 4 bytes)

-- The counts of a trun, on top of the samples that there are.
abbrev pub valid_counts : ℕ → List ℕ → Bool
valid_counts total bytes =
    only_flags (run_flags bytes) trun_mask
    && not (run_count bytes == 0)
    && not (ltb max_samples (run_count bytes))
    && not (ltb max_samples (total + run_count bytes))

abbrev pub first_sample : List ℕ → ℕ
first_sample bytes = 8 + flag_bytes (run_flags bytes) 1 + flag_bytes (run_flags bytes) 4

-- A trun adds its samples to those of the track.
abbrev pub trun_data : ℕ → ℕ → List ℕ → ℕ × Samples → Result (ℕ × Samples)
trun_data track duration bytes (total, result) =
    guard (not (ltb (length bytes) 8) && not (ltb 1 (first_byte bytes))) invalid_upload
    >> (guard (valid_counts total bytes) invalid_upload
        >> (samples_loop (run_count bytes) (run_flags bytes) duration bytes (first_sample bytes)
            >>= λ r.
                guard (r.1 == length bytes) invalid_upload
                >> ok (total + run_count bytes, append_values track r.0 result)))

abbrev pub trun_entry : ℕ → ℕ → FragmentBox → ℕ × Samples → Result (ℕ × Samples)
trun_entry track duration entry (total, result) =
    if kind_is "trun" entry
    then (metadata entry >>= λ bytes. trun_data track duration bytes (total, result))
    else ok (total, result)

unfoldable pub trun_loop : ℕ → ℕ → List FragmentBox → ℕ × Samples → Result (ℕ × Samples)
trun_loop track duration [] s = ok s
trun_loop track duration (entry ∷ rest) s =
    trun_entry track duration entry s >>= λ t. trun_loop track duration rest t

abbrev pub traf_entries : Defaults → List FragmentBox → ℕ × Samples → Result (ℕ × Samples)
traf_entries defaults entries s = tfhd_loop defaults entries (0, 0) >>= λ h.
    guard (not (h.0 == 0)) invalid_upload >> trun_loop h.0 h.1 entries s

abbrev pub traf_child : Defaults → FragmentBox → ℕ × ℕ × Samples → Result (ℕ × ℕ × Samples)
traf_child defaults child (budget, total, result) =
    if kind_is "traf" child
    then (children child budget >>= λ e.
        traf_entries defaults e.0 (total, result) >>= λ t. ok (e.1, t.0, t.1))
    else ok (budget, total, result)

unfoldable pub traf_loop : Defaults → List FragmentBox → ℕ × ℕ × Samples → Result (ℕ × ℕ × Samples)
traf_loop defaults [] s = ok s
traf_loop defaults (child ∷ rest) s = traf_child defaults child s >>= λ t. traf_loop defaults rest t

abbrev pub moof_box : Defaults → FragmentBox → ℕ × ℕ × Samples → Result (ℕ × ℕ × Samples)
moof_box defaults box (budget, total, result) =
    if kind_is "moof" box
    then (children box budget >>= λ c. traf_loop defaults c.0 (c.1, total, result))
    else ok (budget, total, result)

unfoldable pub moof_loop : Defaults → List FragmentBox → ℕ × ℕ × Samples → Result (ℕ × ℕ × Samples)
moof_loop defaults [] s = ok s
moof_loop defaults (box ∷ rest) s = moof_box defaults box s >>= λ t. moof_loop defaults rest t

abbrev pub max_boxes : ℕ
max_boxes = 4096

-- The total of the samples is 0 and there are none before the first moof.
unfoldable pub fragment_sample_durations : List ℕ → Result Samples
fragment_sample_durations file = fragment_boxes max_boxes file >>= λ b.
    moov_loop b.0 (b.1, []) >>= λ d. moof_loop d.1 b.0 (d.0, 0, []) >>= λ r. ok r.2
