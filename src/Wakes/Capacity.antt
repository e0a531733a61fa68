-- ===== src/Wakes/Capacity.antt =====
-- What one dispatch may do: it never passes the two running lanes, and it takes the live lane first.
use asset_api.Base.{
  ℕ, ◌+◌, ◌≤◌, ◌<◌, String, ◌≡◌, refl, inl, inr, Bool, true, false, Option, some, List, [], ◌∷◌,
  arith, Bool-cases, ◌==◌, subst, sym,
}
use asset_api.Errors.{Result, ok, err, Result-cases}
use asset_api.Wakes.Table.{Lane, lane_eq, Wake, Event, update_where}
use asset_api.Wakes.Dispatch.{
  active, is_active, candidates, postpone, hand_out, dispatch_loop, claim_dispatch, commit,
}
use asset_api.Wakes.Keyed.{IsKeyed, DistinctLanes, lanes-postpone, no_hit, All-other}

active-postpone :
    (now : ℕ) (l : Lane) (g : ℕ) (t : List Wake) → active now (postpone now l g t) ≡ active now t
unfolding active postpone update_where is_active
active-postpone now l g [] = refl
active-postpone now l g (w ∷ t) = ground (arith, active-postpone now l g t)

module _ (p : Wake → Bool) (f : Wake → Wake) (l : Lane)
    (only : (w : Wake) → p w ≡ true → lane_eq w.lane l ≡ true) where
  active-hit :
      (now : ℕ) (t : List Wake) → IsKeyed t → active now (update_where p f t).0 ≤ active now t + 1
  unfolding active update_where
  active-hit now [] k = omega arith
  active-hit now (w ∷ t) k = elim (Bool-cases (p w)) [
    | inl hit ↦ rw (hit, no_hit p f l t only (All-other w.lane l t (only w hit) k.0)) (ground arith)
    | inr miss ↦ rw miss (ground (arith, active-hit now t k.1))
  ]

active-hand_out :
    (now : ℕ) (l : Lane) (g : ℕ) (token : String) (t : List Wake)
    → IsKeyed t
    → active now (hand_out now l g token t).0 ≤ active now t + 1
unfolding hand_out
active-hand_out now l g token t k = active-hit _ _ l (λ w q. ground arith) now t k

abbrev WithinOne : ℕ → ℕ → Result (Option Event × List Wake) → Type 0
WithinOne now n (ok (o, t)) = active now t ≤ n + 1
WithinOne now n (err x) = Unit

-- The rows that a count of 0 leaves are the rows before.
unhit :
    (p : Wake → Bool) (f : Wake → Wake) (t : List Wake)
    → (update_where p f t).1 ≡ 0
    → (update_where p f t).0 ≡ t
unfolding update_where
unhit p f [] h = refl
unhit p f (w ∷ t) h = ground (arith, unhit p f t)

hand_out_unhit :
    (now : ℕ) (l : Lane) (g : ℕ) (token : String) (t : List Wake)
    → (hand_out now l g token t).1 ≡ 0
    → (hand_out now l g token t).0 ≡ t
unfolding hand_out
hand_out_unhit now l g token t h = unhit _ _ t h

dispatch_loop-WithinOne :
    (now : ℕ) (ready : Lane → Result Bool) (new_id : Lane → String) (cs t : List Wake)
    → IsKeyed t
    → WithinOne now (active now t) (dispatch_loop now ready new_id cs t)
unfolding dispatch_loop
dispatch_loop-WithinOne now ready new_id [] t k = omega arith
dispatch_loop-WithinOne now ready new_id (d ∷ ds) t k = elim (Result-cases (ready d.lane)) [
  | inl (true, e) ↦
      elim (Bool-cases ((hand_out now d.lane d.generation (new_id d.lane) t).1 == 0)) [
        | inl z ↦
            rw
              (
                e,
                z,
                hand_out_unhit now d.lane d.generation (new_id d.lane) t (ground arith),
                dispatch_loop,
              )
              (dispatch_loop-WithinOne now ready new_id ds t k)
        | inr z ↦
            rw (e, z, dispatch_loop) (active-hand_out now d.lane d.generation (new_id d.lane) t k)
      ]
  | inl (false, e) ↦
      rw (e, dispatch_loop)
        (rw (active-postpone now d.lane d.generation t) at (
          dispatch_loop-WithinOne now ready new_id ds (postpone now d.lane d.generation t)
            (subst DistinctLanes (sym (lanes-postpone now d.lane d.generation t)) k)))
  | inr (x, e) ↦ rw (e, dispatch_loop) tt
]

committed-WithinOne :
    (now : ℕ) (t : List Wake) (r : Result (Option Event × List Wake))
    → WithinOne now (active now t) r
    → active now (commit t r).1 ≤ active now t + 1
committed-WithinOne now t (ok (o, u)) h = h
committed-WithinOne now t (err x) h = omega arith

-- When a dispatch hands an event out, at most two lanes of the keyed table are active after it, the
-- lane of the event included, and fewer than two media slots were leased.
pub dispatch_capacity :
    (now : ℕ) (locked : Bool) (slots : ℕ) (ready : Lane → Result Bool) (new_id : Lane → String)
    (t : List Wake) (e : Event)
    → IsKeyed t
    → (claim_dispatch now locked slots ready new_id t).0 ≡ ok (some e)
    → (active now (claim_dispatch now locked slots ready new_id t).1 ≤ 2) × (slots < 2)
unfolding claim_dispatch
dispatch_capacity now locked slots ready new_id t e k h = ground (
  arith,
  committed-WithinOne now t (dispatch_loop now ready new_id (candidates now t) t)
      (dispatch_loop-WithinOne now ready new_id (candidates now t) t k),
)
