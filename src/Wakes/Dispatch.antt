-- ===== src/Wakes/Dispatch.antt =====
-- ClaimDispatch of internal/postgres/recording_event.go: which lane is dispatched next.
use asset_api.Base.{
  ℕ, ◌+◌, String, Bool, true, false, ◌&&◌, ◌||◌, Option, none, some, List, [], ◌∷◌, ltb, leb, ◌==◌,
  if◌then◌else◌, not, count_if,
}
use asset_api.Errors.{Result, ok, err}
use asset_api.Wakes.Table.{
  Lane, live, processing, preview, lane_eq, dispatching, Wake, Event, leased, lapsed, is_idle,
  update_where,
}

-- state<>'idle' AND lease_until>now()
unfoldable pub is_active : ℕ → Wake → Bool
is_active now w = not (is_idle w.state) && leased now w.lease_until

unfoldable pub active : ℕ → List Wake → ℕ
active now t = count_if (is_active now) t

-- state='idle' OR lease_until<=now()
unfoldable pub is_free : ℕ → Wake → Bool
is_free now w = is_idle w.state || lapsed now w.lease_until

-- The WHERE clause of the candidates.
unfoldable pub is_candidate : ℕ → Wake → Bool
unfolding is_free
is_candidate now w = is_free now w && leb w.next_check_at now

-- The lane names in the order of text.
abbrev lane_rank : Lane → ℕ
lane_rank live = 0
lane_rank preview = 1
lane_rank processing = 2

abbrev live_rank : Lane → ℕ
live_rank live = 0
live_rank _ = 1

abbrev compare_lanes : Wake → Wake → Bool
compare_lanes a b = leb (lane_rank a.lane) (lane_rank b.lane)

abbrev older : Option ℕ → Option ℕ → Bool → Bool
older none none tie = tie
older none (some b) tie = true
older (some a) none tie = false
older (some a) (some b) tie = if a == b then tie else ltb a b

-- ORDER BY CASE WHEN lane='live' THEN 0 ELSE 1 END,last_dispatch_at NULLS FIRST,lane
unfoldable pub precedes : Wake → Wake → Bool
precedes a b =
    if live_rank a.lane == live_rank b.lane
    then older a.last_dispatch_at b.last_dispatch_at (compare_lanes a b)
    else ltb (live_rank a.lane) (live_rank b.lane)

unfoldable pub insert_ordered : Wake → List Wake → List Wake
unfolding precedes
insert_ordered w [] = w ∷ []
insert_ordered w (v ∷ vs) = if precedes w v then w ∷ v ∷ vs else v ∷ insert_ordered w vs

unfoldable pub candidates : ℕ → List Wake → List Wake
unfolding is_candidate insert_ordered
candidates now [] = []
candidates now (w ∷ t) =
    let rest = candidates now t in if is_candidate now w then insert_ordered w rest else rest

-- next_check_at=now()+interval '10 seconds', of a lane with nothing ready.
unfoldable pub postpone : ℕ → Lane → ℕ → List Wake → List Wake
unfolding update_where
postpone now lane generation t =
    (update_where (λ w. lane_eq w.lane lane && w.generation == generation)
      (λ w. record w { next_check_at = now + 10_000_000 }) t).0

-- The UPDATE that hands a lane out under a new generation.
unfoldable pub hand_out : ℕ → Lane → ℕ → String → List Wake → List Wake × ℕ
unfolding update_where is_free
hand_out now lane generation token =
    update_where (λ w. lane_eq w.lane lane && w.generation == generation && is_free now w)
      λ w. record w {
        state = dispatching;
        token = some token;
        generation = w.generation + 1;
        dispatch_generation = some (w.generation + 1);
        lease_until = some (now + 120_000_000);
        last_dispatch_at = some now;
      }

-- The loop over the candidates. An error of `ready` rolls the transaction back.
unfoldable pub dispatch_loop :
    ℕ
    → (Lane → Result Bool)
    → (Lane → String)
    → List Wake
    → List Wake
    → Result (Option Event × List Wake)
dispatch_loop now ready new_id [] t = ok (none, t)
dispatch_loop now ready new_id (c ∷ cs) t = elim (ready c.lane) [
  | err e ↦ err e
  | ok false ↦ dispatch_loop now ready new_id cs (postpone now c.lane c.generation t)
  | ok true ↦
      let (t', n) = hand_out now c.lane c.generation (new_id c.lane) t in
      let event : Event = record {
        lane = c.lane;
        generation = c.generation + 1;
        token = new_id c.lane;
      } in
      let rest = dispatch_loop now ready new_id cs t' in
      if n == 0 then rest else ok (some event, t')
]

abbrev pub commit :
    List Wake → Result (Option Event × List Wake) → Result (Option Event) × List Wake
commit t (ok (e, t')) = (ok e, t')
commit t (err x) = (err x, t)

-- `locked` is the answer of pg_try_advisory_xact_lock, `slots` the leased rows of
-- recording_processing_slots, `ready` the query of `workReady`, `new_id` the tokens drawn.
unfoldable pub claim_dispatch :
    ℕ
    → Bool
    → ℕ
    → (Lane → Result Bool)
    → (Lane → String)
    → List Wake
    → Result (Option Event) × List Wake
claim_dispatch now locked slots ready new_id t =
    if not locked
    then (ok none, t)
    else if leb 2 (active now t) || leb 2 slots
    then (ok none, t)
    else commit t (dispatch_loop now ready new_id (candidates now t) t)
