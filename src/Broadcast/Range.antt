-- ===== src/Broadcast/Range.antt =====
-- RecordingBroadcastRange and ValidateBroadcastRangeChange.
use asset_api.Base.{
  ℕ, String, Bool, true, false, ◌&&◌, ◌||◌, Option, none, some, ltb, ◌==◌, not, str_eq,
  if◌then◌else◌, is_some, List, [], is_hex, strip_run, strip_prefix, codes, ℤ, pos, ltb_ℤ, eq_ℤ,
  same_bool,
}
use asset_api.Errors.{Result, ok, err, invalid_input, conflict}

-- Epochs and revisions below 1 are 0; sequence numbers keep their sign.
pub record BroadcastRange : Type 0 where
  pub recording_id : String
  pub epoch : ℕ
  pub range_revision : ℕ
  pub start_sequence : Option ℤ
  pub end_sequence_exclusive : Option ℤ
  pub revoked : Bool
  pub member_state : String

abbrev pub max_revision : ℕ
max_revision = 9007199254740991

abbrev run_hex : ℕ → Option (List ℕ) → Option (List ℕ)
run_hex n none = none
run_hex n (some cs) = strip_run n is_hex cs

abbrev dash : Option (List ℕ) → Option (List ℕ)
dash none = none
dash (some cs) = strip_prefix (codes "-") cs

abbrev is_end : Option (List ℕ) → Bool
is_end (some []) = true
is_end _ = false

-- ^[a-fA-F0-9]{8}-[a-fA-F0-9]{4}-[a-fA-F0-9]{4}-[a-fA-F0-9]{4}-[a-fA-F0-9]{12}$
unfoldable pub is_uuid : String → Bool
unfolding strip_run strip_prefix
is_uuid s = is_end (
    run_hex 12
      (dash (run_hex 4 (dash (run_hex 4 (dash (run_hex 4 (dash (run_hex 8 (some (codes s)))))))))))

-- A sequence number that is not nil is from 0 to 2147483647.
abbrev in_range : Option ℤ → Bool
in_range none = true
in_range (some v) = not (ltb_ℤ v (pos 0) || ltb_ℤ (pos 2147483647) v)

-- The end, where there is one, wants a start below it.
abbrev ordered : Option ℤ → Option ℤ → Bool
ordered start none = true
ordered none (some e) = false
ordered (some s) (some e) = ltb_ℤ s e

abbrev pub known_member_state : String → Bool
known_member_state m = str_eq m "blocked" || str_eq m "live" || str_eq m "vod"

unfoldable pub well_formed : BroadcastRange → Bool
well_formed next =
    known_member_state next.member_state
    && is_uuid next.recording_id
    && not (ltb next.epoch 1 || ltb max_revision next.epoch)
    && not (ltb next.range_revision 1 || ltb max_revision next.range_revision)
    && in_range next.start_sequence
    && in_range next.end_sequence_exclusive
    && ordered next.start_sequence next.end_sequence_exclusive

-- reflect.DeepEqual of two *int
abbrev pub same_sequence : Option ℤ → Option ℤ → Bool
same_sequence none none = true
same_sequence (some a) (some b) = eq_ℤ a b
same_sequence _ _ = false

-- reflect.DeepEqual of two ranges
unfoldable pub same_range : BroadcastRange → BroadcastRange → Bool
same_range a b =
    str_eq a.recording_id b.recording_id
    && a.epoch == b.epoch
    && a.range_revision == b.range_revision
    && same_sequence a.start_sequence b.start_sequence
    && same_sequence a.end_sequence_exclusive b.end_sequence_exclusive
    && same_bool a.revoked b.revoked
    && str_eq a.member_state b.member_state

-- A bound that is set stays, and so does a revocation.
abbrev moves_back : BroadcastRange → BroadcastRange → Bool
moves_back current next =
    (is_some current.start_sequence
      && not (same_sequence current.start_sequence next.start_sequence))
    || (is_some current.end_sequence_exclusive
        && not (same_sequence current.end_sequence_exclusive next.end_sequence_exclusive))
    || (current.revoked && not next.revoked)

unfoldable pub follows : BroadcastRange → BroadcastRange → Bool
unfolding same_range
follows current next =
    if not (next.epoch == current.epoch)
      || not (str_eq next.recording_id current.recording_id)
      || ltb next.range_revision current.range_revision
    then false
    else if next.range_revision == current.range_revision
    then same_range current next
    else not (moves_back current next)

unfoldable pub validate_change : Option BroadcastRange → BroadcastRange → Result (Unit {0})
validate_change none next = if well_formed next then ok tt else err invalid_input
validate_change (some current) next =
    if well_formed next
    then (if follows current next then ok tt else err conflict)
    else err invalid_input
