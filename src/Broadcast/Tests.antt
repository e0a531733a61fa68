-- ===== src/Broadcast/Tests.antt =====
-- Broadcast ranges at concrete inputs, with the instances of their theorems.
use asset_api.Base.{
  ℕ, ◌-◌, ◌≡◌, refl, ◌↔◌, true, false, none, some, List, [], ◌∷◌, pos, strip_run, strip_prefix,
}
use asset_api.Errors.{ok, err, conflict}
use asset_api.Broadcast.Range.{
  BroadcastRange, is_uuid, well_formed, same_range, follows, validate_change,
}
use asset_api.Broadcast.Changes.{Advances, change_iff}
use asset_api.Broadcast.Projection.{Segment, Projection, ready, broadcast_projection}

abbrev blocked_range : BroadcastRange
blocked_range = record {
  recording_id = "0a1B2c3d-1111-2222-3333-444455556666";
  epoch = 1;
  range_revision = 1;
  start_sequence = none;
  end_sequence_exclusive = none;
  revoked = false;
  member_state = "blocked";
}

abbrev live_range : BroadcastRange
live_range = record blocked_range {
  range_revision = 2;
  start_sequence = some (pos 1);
  member_state = "live";
}

abbrev ended_range : BroadcastRange
ended_range = record live_range {
  range_revision = 4;
  end_sequence_exclusive = some (pos 2);
  member_state = "vod";
}

to_live : validate_change (some blocked_range) live_range ≡ ok tt
unfolding validate_change well_formed is_uuid strip_run strip_prefix follows same_range
to_live = refl

to_ended : validate_change (some live_range) ended_range ≡ ok tt
unfolding validate_change well_formed is_uuid strip_run strip_prefix follows same_range
to_ended = refl

-- The start of a range cannot be taken back.
no_way_back :
    validate_change (some live_range) (record blocked_range { range_revision = 3 }) ≡ err conflict
unfolding validate_change well_formed is_uuid strip_run strip_prefix follows same_range
no_way_back = refl

change_iff_example :
    (validate_change (some blocked_range) live_range ≡ ok tt)
    ↔ ((well_formed live_range ≡ true) × Advances blocked_range live_range)
change_iff_example = change_iff blocked_range live_range

abbrev two_segments : List (Segment ℕ)
two_segments = record { from = 0; until = 30 } ∷ record { from = 30; until = 60 } ∷ []

ended_well_formed : well_formed ended_range ≡ true
unfolding well_formed is_uuid strip_run strip_prefix
ended_well_formed = refl

shown :
    (p : Projection ℕ) × (broadcast_projection ◌-◌ ended_range two_segments 5 true ≡ some p)
    × (p.duration ≡ some 30)
unfolding broadcast_projection
shown = (
  record {
    epoch = 1;
    range_revision = 4;
    state = ready;
    start_sequence = some (pos 1);
    end_sequence_exclusive = some (pos 2);
    media_start = some 30;
    duration = some 30;
    revision = 5;
  },
  refl,
  refl,
)
