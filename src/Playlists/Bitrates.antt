-- ===== src/Playlists/Bitrates.antt =====
-- RecordingPlaylistBitrates of internal/assets/recording_playlist.go.
use asset_api.Base.{
  ℕ, ◌+◌, Bool, true, false, ◌&&◌, ◌||◌, not, List, [], ◌∷◌, ◌==◌, ltb, leb, if◌then◌else◌, length,
  ℤ,
}
use asset_api.Errors.{Result, ok, err, ◌>>=◌, ◌>>◌, guard, invalid_upload}
use asset_api.Capture.Model.{package_max_objects, package_max_bytes, object_max_bytes}
use asset_api.Playlists.Floats.{Floats, fraction, whole}

abbrev is_last : List ℕ → Bool
is_last [] = true
is_last (s ∷ ss) = false

module _ (f : Floats) where
  open f use {Value, near, is_finite, add, mul, div, larger, lt, eq, raised}

  abbrev fits_segment : ℕ → Value → Bool → Bool
  fits_segment size d last =
      leb 1 size
      && leb size object_max_bytes
      && is_finite d
      && lt (whole f 0) d
      && not (lt (whole f 31) d)
      && (last || not (lt d (whole f 9)))

  -- The totals of both lists, which are of one length.
  unfoldable pub totals : List ℕ → List Value → ℕ → Value → Result (ℕ × Value)
  totals (s ∷ ss) (d ∷ ds) size seconds =
      guard (fits_segment s d (is_last ss)) invalid_upload
      >> totals ss ds (size + s) (add seconds d)
  totals _ _ size seconds = ok (size, seconds)

  abbrev rate : ℕ → Value → Value
  rate bytes seconds = div (mul (whole f bytes) (whole f 8)) seconds

  -- The windows from one start, up to one and a half target durations.
  unfoldable pub window_peak : ℕ → List ℕ → List Value → ℕ → Value → Value → Value
  window_peak target (s ∷ ss) (d ∷ ds) bytes seconds peak =
      let more = window_peak target ss ds (bytes + s) (add seconds d) (
        if lt (add seconds d) (mul (near (fraction 1 2)) (whole f target))
        then peak
        else larger peak (rate (bytes + s) (add seconds d))) in
      if lt (mul (near (fraction 3 2)) (whole f target)) (add seconds d) then peak else more
  window_peak target _ _ bytes seconds peak = peak

  unfoldable pub peak_from : ℕ → List ℕ → List Value → Value → Value
  peak_from target (s ∷ ss) (d ∷ ds) peak =
      peak_from target ss ds (window_peak target (s ∷ ss) (d ∷ ds) 0 (whole f 0) peak)
  peak_from target _ _ peak = peak

  abbrev in_limits : List ℕ → List Value → ℕ → Bool
  in_limits sizes durations target =
      leb 1 (length sizes)
      && length sizes == length durations
      && leb (length sizes) package_max_objects
      && leb 1 target
      && leb target 31

  abbrev with_peak : ℕ × Value → Value → Result (ℤ × ℤ)
  with_peak (size, seconds) peak =
      if eq peak (whole f 0)
      then err invalid_upload
      else ok (raised peak, raised (rate size seconds))

  abbrev with_totals : List ℕ → List Value → ℕ → ℕ × Value → Result (ℤ × ℤ)
  with_totals sizes durations target (size, seconds) =
      if ltb package_max_bytes size || lt (whole f 43200) seconds
      then err invalid_upload
      else with_peak (size, seconds) (peak_from target sizes durations (whole f 0))

  -- The peak and the average.
  unfoldable pub playlist_bitrates : List ℕ → List Value → ℕ → Result (ℤ × ℤ)
  playlist_bitrates sizes durations target =
      guard (in_limits sizes durations target) invalid_upload
      >> (totals sizes durations 0 (whole f 0) >>= with_totals sizes durations target)
