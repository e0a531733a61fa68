-- ===== src/Wakes/LiveFirst.antt =====
-- One dispatch takes the live lane first: ClaimDispatch of internal/postgres/recording_event.go.
use asset_api.Base.{
  ℕ, zero, suc, ◌+◌, ◌<◌, String, ◌≡◌, refl, inl, inr, Bool, true, false, some, List, [], ◌∷◌,
  arith, All, Bool-cases, subst, sym, get_elem?, All-get_elem?, some_injective,
}
use asset_api.Errors.{Result, ok}
use asset_api.Wakes.Table.{Lane, live, lane_eq, Wake, update_where}
use asset_api.Wakes.Dispatch.{
  active, is_candidate, precedes, insert_ordered, candidates, hand_out, dispatch_loop,
  claim_dispatch, commit,
}
use asset_api.Wakes.Keyed.{IsKeyed, All-other}

abbrev pub LiveFirst : Wake → List Wake → Type 0
LiveFirst w [] = ⊥
LiveFirst w (v ∷ vs) = v ≡ w

abbrev pub is_live : Lane → Bool
is_live l = lane_eq l live

pub live_lane : (l : Lane) → is_live l ≡ true → l ≡ live
live_lane l h = ground arith

pub NoLive-insert :
    (w : Wake) (vs : List Wake)
    → is_live w.lane ≡ false
    → All (λ v. is_live v.lane ≡ false) vs
    → All (λ v. is_live v.lane ≡ false) (insert_ordered w vs)
unfolding insert_ordered
NoLive-insert w [] e h = (e, tt)
NoLive-insert w (v ∷ vs) e h = ground (arith, NoLive-insert w vs e h.1)

pub NoLive-candidates :
    (now : ℕ) (t : List Wake)
    → All (λ v. is_live v.lane ≡ false) t
    → All (λ v. is_live v.lane ≡ false) (candidates now t)
unfolding candidates
NoLive-candidates now [] h = tt
NoLive-candidates now (w ∷ t) h = ground (
  arith,
  NoLive-candidates now t h.1,
  NoLive-insert w (candidates now t) h.0 (NoLive-candidates now t h.1),
)

-- The live lane goes before every other lane, and behind none.
pub live_head :
    (w : Wake) (vs : List Wake)
    → is_live w.lane ≡ true
    → All (λ v. is_live v.lane ≡ false) vs
    → LiveFirst w (insert_ordered w vs)
unfolding insert_ordered precedes
live_head w [] e h = refl
live_head w (v ∷ vs) e h = ground arith

pub live_stays :
    (w v : Wake) (vs : List Wake)
    → is_live w.lane ≡ true
    → is_live v.lane ≡ false
    → LiveFirst w vs
    → LiveFirst w (insert_ordered v vs)
unfolding insert_ordered precedes
live_stays w v [] e n h = elim h [ ]
live_stays w v (u ∷ vs) e n h = ground arith

pub first_candidate :
    (now : ℕ) (w : Wake) (t : List Wake)
    → IsKeyed (w ∷ t)
    → is_live w.lane ≡ true
    → is_candidate now w ≡ true
    → LiveFirst w (candidates now (w ∷ t))
unfolding candidates
first_candidate now w t k l c =
    rw c
      (live_head w (candidates now t) l (NoLive-candidates now t (All-other w.lane live t l k.0)))

pub candidates-LiveFirst :
    (now : ℕ) (t : List Wake) (i : ℕ) (w : Wake)
    → IsKeyed t
    → get_elem? t i ≡ some w
    → is_live w.lane ≡ true
    → is_candidate now w ≡ true
    → LiveFirst w (candidates now t)
unfolding candidates
candidates-LiveFirst now [] i w k e l c = cc
candidates-LiveFirst now (v ∷ t) zero w k e l c =
    let same : v ≡ w = some_injective e in
    subst (λ x. LiveFirst x (candidates now (v ∷ t))) same
      (first_candidate now v t k (rw same l) (rw same c))
candidates-LiveFirst now (v ∷ t) (suc i) w k e l c = elim (Bool-cases (is_live v.lane)) [
  | inl both ↦
      let other : is_live w.lane ≡ false =
        All-get_elem? (λ (u : Wake). is_live u.lane ≡ false) t i (All-other v.lane live t both k.0)
          e in
      cc
  | inr away ↦
      let rest = candidates-LiveFirst now t i w k.1 e l c in
      ground (arith, rest, live_stays w v (candidates now t) l away rest)
]

pub head_dispatched :
    (now : ℕ) (ready : Lane → Result Bool) (new_id : Lane → String) (cs t : List Wake) (w : Wake)
    → LiveFirst w cs
    → ready w.lane ≡ ok true
    → 0 < (hand_out now w.lane w.generation (new_id w.lane) t).1
    → (commit t (dispatch_loop now ready new_id cs t)).0
      ≡ ok (some (record { lane = w.lane; generation = w.generation + 1; token = new_id w.lane }))
unfolding dispatch_loop
head_dispatched now ready new_id [] t w h r p = elim h [ ]
head_dispatched now ready new_id (v ∷ cs) t w h r p =
    subst
      (λ x.
        (commit t (dispatch_loop now ready new_id (x ∷ cs) t)).0
        ≡ ok
            (some (record { lane = w.lane; generation = w.generation + 1; token = new_id w.lane })))
      (sym h) (rw (r, dispatch_loop) (ground arith))

module _ (p : Wake → Bool) (f : Wake → Wake) where
  hits :
      (t : List Wake) (i : ℕ) (w : Wake)
      → get_elem? t i ≡ some w
      → p w ≡ true
      → 0 < (update_where p f t).1
  unfolding update_where
  hits [] i w e h = cc
  hits (v ∷ t) zero w e h = ground arith
  hits (v ∷ t) (suc i) w e h = ground (arith, hits t i w e h)

pub hand_out_hits :
    (now : ℕ) (token : String) (t : List Wake) (i : ℕ) (w : Wake)
    → get_elem? t i ≡ some w
    → is_candidate now w ≡ true
    → 0 < (hand_out now w.lane w.generation token t).1
unfolding hand_out is_candidate
hand_out_hits now token t i w e c = hits _ _ t i w e (ground arith)

-- When the dispatch lock is held, fewer than two lanes are active and fewer than two slots leased,
-- the live lane's row is due, and there is live work, the dispatch hands out the live lane, under
-- the next generation: no other lane, however long it has waited, goes before it.
pub live_first :
    (now slots : ℕ) (ready : Lane → Result Bool) (new_id : Lane → String) (t : List Wake) (i : ℕ)
    (w : Wake)
    → IsKeyed t
    → active now t < 2
    → slots < 2
    → get_elem? t i ≡ some w
    → w.lane ≡ live
    → is_candidate now w ≡ true
    → ready live ≡ ok true
    → (claim_dispatch now true slots ready new_id t).0
      ≡ ok (some (record { lane = live; generation = w.generation + 1; token = new_id live }))
unfolding claim_dispatch
live_first now slots ready new_id t i w k a s e l c r =
    let first = candidates-LiveFirst now t i w k e (rw l refl) c in
    let d =
      head_dispatched now ready new_id (candidates now t) t w first (rw l r)
        (hand_out_hits now (new_id w.lane) t i w e c) in
    ground (arith, d)
