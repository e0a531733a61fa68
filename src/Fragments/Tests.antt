-- ===== src/Fragments/Tests.antt =====
-- Runs of the box parser on small files, and the properties at concrete inputs.
use asset_api.Base.{ℕ, ◌+◌, ◌≤◌, ◌≡◌, refl, List, [], ◌∷◌, ◌++◌, arith, codes, All, String}
use asset_api.Errors.{ok, err, invalid_upload}
use asset_api.Fragments.Boxes.{FragmentBox, fragment_boxes, header_of, big_endian}
use asset_api.Fragments.Durations.{
  fragment_sample_durations, moov_loop, mvex_loop, trex_loop, moof_loop, traf_loop, tfhd_loop,
  trun_loop, fields_loop, sample_loop, samples_loop, append_values, find_track,
}
use asset_api.Fragments.Tiling.{Tiles, fragment_boxes-Tiles}
use asset_api.Fragments.RoundTrip.{written, written_all, written_all-fragment_boxes}
use asset_api.Fragments.Bounds.{HasDurations, sample_count, samples_bounded}

abbrev box : String → List ℕ → FragmentBox
box kind body = record { kind = codes kind; body = body }

-- Track 1 with a default duration of 7.
abbrev tfhd : FragmentBox
tfhd = box "tfhd" (0 ∷ 0 ∷ 0 ∷ 8 ∷ 0 ∷ 0 ∷ 0 ∷ 1 ∷ 0 ∷ 0 ∷ 0 ∷ 7 ∷ [])

-- Two samples of the default duration.
abbrev trun : FragmentBox
trun = box "trun" (0 ∷ 0 ∷ 0 ∷ 0 ∷ 0 ∷ 0 ∷ 0 ∷ 2 ∷ [])

abbrev file : List ℕ
file = written (box "moof" (written (box "traf" (written tfhd ++ written trun))))

file_durations : fragment_sample_durations file ≡ ok ((1, 7 ∷ 7 ∷ []) ∷ [])
unfolding fragment_sample_durations fragment_boxes header_of big_endian moov_loop mvex_loop
    trex_loop moof_loop traf_loop tfhd_loop trun_loop fields_loop sample_loop samples_loop
    append_values find_track
file_durations = refl

samples_bounded_example :
    (sample_count ((1, 7 ∷ 7 ∷ []) ∷ []) ≤ 4096) × All HasDurations ((1, 7 ∷ 7 ∷ []) ∷ [])
samples_bounded_example = samples_bounded file ((1, 7 ∷ 7 ∷ []) ∷ []) file_durations

-- A box of length 0 reaches to the end of the file.
abbrev open_file : List ℕ
open_file = written tfhd ++ (0 ∷ 0 ∷ 0 ∷ 0 ∷ (codes "mdat" ++ (5 ∷ 6 ∷ [])))

open_file_boxes : fragment_boxes 9 open_file ≡ ok (tfhd ∷ box "mdat" (5 ∷ 6 ∷ []) ∷ [], 7)
unfolding fragment_boxes header_of big_endian
open_file_boxes = refl

fragment_boxes-Tiles_example :
    Tiles open_file (tfhd ∷ box "mdat" (5 ∷ 6 ∷ []) ∷ []) × (2 + 7 ≡ 9) × (1 ≤ 9 → 1 ≤ 7)
fragment_boxes-Tiles_example =
    fragment_boxes-Tiles 9 open_file (tfhd ∷ box "mdat" (5 ∷ 6 ∷ []) ∷ []) 7 open_file_boxes

short_file : fragment_boxes 9 (0 ∷ 0 ∷ 0 ∷ 9 ∷ codes "free") ≡ err invalid_upload
unfolding fragment_boxes header_of big_endian
short_file = refl

written_all-fragment_boxes_example :
    fragment_boxes 3 (written_all (tfhd ∷ trun ∷ [])) ≡ ok (tfhd ∷ trun ∷ [], 1)
written_all-fragment_boxes_example =
    written_all-fragment_boxes (tfhd ∷ trun ∷ []) 3
      ((refl, (omega arith)), ((refl, (omega arith)), tt)) (omega arith)
