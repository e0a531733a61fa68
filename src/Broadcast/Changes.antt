-- ===== src/Broadcast/Changes.antt =====
-- What an accepted change of a broadcast range can and cannot do.
use asset_api.Base.{
  ◌∙◌, ◌↔◌, eq_refl, is_some, ◌&&◌, not, ◌≤◌, ◌≡◌, refl, true, false, Option, none, some, arith,
  eq_iff, ℤ, eq_ℤ_iff,
}
use asset_api.Errors.{ok}
use asset_api.Broadcast.Range.{
  BroadcastRange, same_range, follows, well_formed, validate_change, same_sequence,
}

same_sequence_eq : (a b : Option ℤ) → same_sequence a b ≡ true → a ≡ b
same_sequence_eq a b h = ground arith

same_range_eq : (a b : BroadcastRange) → same_range a b ≡ true → a ≡ b
unfolding same_range
same_range_eq a b h = ground (
  arith,
  eq_iff a.recording_id b.recording_id,
  eq_iff a.member_state b.member_state,
  same_sequence_eq a.start_sequence b.start_sequence,
  same_sequence_eq a.end_sequence_exclusive b.end_sequence_exclusive,
)

-- What a change leaves as it was.
pub record Advances (current next : BroadcastRange) : Type 0 where
  pub same_recording : next.recording_id ≡ current.recording_id
  pub same_epoch : next.epoch ≡ current.epoch
  pub revision_grows : current.range_revision ≤ next.range_revision
  pub keeps_start : (s : ℤ) → current.start_sequence ≡ some s → next.start_sequence ≡ some s
  pub keeps_end :
      (s : ℤ) → current.end_sequence_exclusive ≡ some s → next.end_sequence_exclusive ≡ some s
  pub keeps_revoked : current.revoked ≡ true → next.revoked ≡ true
  pub replay : current.range_revision ≡ next.range_revision → next ≡ current

follows-Advances : (a b : BroadcastRange) → follows a b ≡ true → Advances a b
unfolding follows
follows-Advances a b h = record {
  same_recording = ground (arith, eq_iff b.recording_id a.recording_id);
  same_epoch = ground arith;
  revision_grows = ground arith;
  keeps_start =
      λ s e. ground (arith, same_sequence_eq a.start_sequence b.start_sequence, same_range_eq b a);
  keeps_end = λ s e. ground (
    arith,
    same_sequence_eq a.end_sequence_exclusive b.end_sequence_exclusive,
    same_range_eq b a,
  );
  keeps_revoked = λ e. ground (arith, same_range_eq b a);
  replay = λ e. ground (arith, same_range_eq a b);
}

same_sequence_refl : (a : Option ℤ) → same_sequence a a ≡ true
same_sequence_refl a = ground arith

same_range_refl : (a : BroadcastRange) → same_range a a ≡ true
unfolding same_range
same_range_refl a = ground (
  arith,
  eq_refl a.recording_id,
  eq_refl a.member_state,
  same_sequence_refl a.start_sequence,
  same_sequence_refl a.end_sequence_exclusive,
)

kept :
    (s t : Option ℤ)
    → ((v : ℤ) → s ≡ some v → t ≡ some v)
    → (is_some s && not (same_sequence s t)) ≡ false
kept none t h = refl
kept (some v) t h = rw (h v refl, (eq_ℤ_iff v v).1 refl)

Advances-follows : (a b : BroadcastRange) → Advances a b → follows a b ≡ true
unfolding follows
Advances-follows a b v = ground (
  arith,
  v.same_recording,
  v.replay,
  eq_iff b.recording_id a.recording_id,
  same_range_refl a,
  kept a.start_sequence b.start_sequence v.keeps_start,
  kept a.end_sequence_exclusive b.end_sequence_exclusive v.keeps_end,
)

-- A change of a range is accepted exactly when the next range is well formed by itself and keeps the
-- recording, the epoch, every bound that was set and a revocation, does not lower the revision, and
-- under an equal revision is the same range.
pub change_iff :
    (current next : BroadcastRange)
    → (validate_change (some current) next ≡ ok tt)
      ↔ ((well_formed next ≡ true) × Advances current next)
unfolding validate_change
change_iff current next = (
  λ h. (ground arith, follows-Advances current next (ground arith)),
  λ h. ground (arith, h.0, Advances-follows current next h.1),
)

Advances-trans : (a b c : BroadcastRange) → Advances a b → Advances b c → Advances a c
Advances-trans a b c v w = record {
  same_recording = w.same_recording ∙ v.same_recording;
  same_epoch = w.same_epoch ∙ v.same_epoch;
  revision_grows = omega (arith, v.revision_grows, w.revision_grows);
  keeps_start = λ s e. w.keeps_start s (v.keeps_start s e);
  keeps_end = λ s e. w.keeps_end s (v.keeps_end s e);
  keeps_revoked = λ e. w.keeps_revoked (v.keeps_revoked e);
  replay = λ e.
      w.replay (omega (arith, v.revision_grows, w.revision_grows))
      ∙ v.replay (omega (arith, v.revision_grows, w.revision_grows));
}

follows_trans :
    (a b c : BroadcastRange) → follows a b ≡ true → follows b c ≡ true → follows a c ≡ true
follows_trans a b c h k =
    Advances-follows a c (Advances-trans a b c (follows-Advances a b h) (follows-Advances b c k))

-- Accepted changes compose: what is accepted over a range that was itself accepted over an earlier
-- one is accepted over the earlier one directly.
pub change_trans :
    (a b c : BroadcastRange)
    → validate_change (some a) b ≡ ok tt
    → validate_change (some b) c ≡ ok tt
    → validate_change (some a) c ≡ ok tt
unfolding validate_change
change_trans a b c h k = ground (arith, follows_trans a b c)
