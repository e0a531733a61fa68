-- ===== src/Wakes/Exclusive.antt =====
-- Each dispatched event runs its lane at most once, and a later dispatch of the lane fences it off.
use asset_api.Base.{
  All-mono, ℕ, ◌+◌, ◌≤◌, ◌<◌, String, ◌≡◌, refl, ◌⊎◌, inl, inr, Bool, true, false, Option, none,
  some, List, [], ◌∷◌, arith, All, Bool-cases, ◌==◌, subst, sym, ap,
}
use asset_api.Errors.{Result, ok, err, conflict, Result-cases}
use asset_api.Wakes.Table.{
  idle, Lane, lane_eq, Wake, Event, update_where_none, IsConsistent, owns, running,
}
use asset_api.Wakes.Dispatch.{hand_out, dispatch_loop, claim_dispatch, candidates, commit}
use asset_api.Wakes.Lease.{
  sent, send_failed, begin, renew, finish, may_begin, start, is_dispatched, is_run,
}
use asset_api.Wakes.Keyed.{IsKeyed, DistinctLanes, All-hit, lanes-postpone, lanes-hand_out}
use asset_api.Wakes.Fencing.{
  Statement, begins, step, run, Spent, Spent-keeps, Superseded, Superseded-keeps,
  IsConsistent-keeps, hand_out-All, postpone-All, claim_dispatch-All, step-All, run-All,
}

module _ (P : Wake → Type 0) where
  All-zip :
      (q : Wake → Bool) (t : List Wake)
      → ((w : Wake) → IsConsistent w → P w → q w ≡ false)
      → All IsConsistent t
      → All P t
      → All (λ w. q w ≡ false) t
  All-zip q [] f c h = tt
  All-zip q (w ∷ t) f c h = (f w c.0 h.0, All-zip q t f c.1 h.1)

owned : (e : Event) (w : Wake) → owns e w ≡ true → lane_eq w.lane e.lane ≡ true
unfolding owns
owned e w h = ground arith

owned_generation :
    (e : Event) (w : Wake) → IsConsistent w → owns e w ≡ true → w.generation ≡ e.generation
unfolding owns
owned_generation e w c h = ground arith

begun_Spent :
    (now : ℕ) (e : Event) (t : List Wake)
    → IsKeyed t
    → All IsConsistent t
    → (begin now e t).0 ≡ true
    → All (Spent e) (begin now e t).1
unfolding begin may_begin
begun_Spent now e t k c h =
    All-hit IsConsistent
      (λ w.
        (e.generation < w.generation)
        ⊎ ((e.generation ≤ w.generation) × ((w.state ≡ running) ⊎ (w.state ≡ idle))))
      (may_begin now e) (start now) e.lane (λ w g. owned e w (ground arith))
      (λ w d g. ground (arith, owned_generation e w d)) t k c (ground arith)

Spent-may_begin :
    (now : ℕ) (e : Event) (w : Wake) → IsConsistent w → Spent e w → may_begin now e w ≡ false
unfolding may_begin
Spent-may_begin now e w c s = ground (arith, s, owned e w, owned_generation e w c)

Spent-begin :
    (now : ℕ) (e : Event) (t : List Wake)
    → All IsConsistent t
    → All (Spent e) t
    → begin now e t ≡ (false, t)
unfolding begin
Spent-begin now e t c h =
    rw
      (update_where_none (may_begin now e) (start now) t
        (All-zip (Spent e) _ t (Spent-may_begin now e) c h))
      refl

-- An event that has begun is never begun again, whatever statements run in between: the lane is run
-- at most once for each dispatch, also when the queue delivers its message twice.
pub begin_once :
    (now : ℕ) (e : Event) (t : List Wake) (ss : List (ℕ × Statement)) (later : ℕ)
    → IsKeyed t
    → All IsConsistent t
    → (begin now e t).0 ≡ true
    → begin later e (run ss (begin now e t).1) ≡ (false, run ss (begin now e t).1)
begin_once now e t ss later k c h =
    Spent-begin later e (run ss (begin now e t).1)
      (run-All IsConsistent IsConsistent-keeps ss _
        (unfold step in step-All IsConsistent IsConsistent-keeps (now, begins e) t c))
      (run-All (Spent e) (Spent-keeps e) ss _ (begun_Spent now e t k c h))

-- Every statement of a superseded event selects no row.
Superseded-owns : (e : Event) (w : Wake) → IsConsistent w → Superseded e w → owns e w ≡ false
unfolding owns
Superseded-owns e w c s = ground (arith, s, owned_generation e w c)

Superseded-guards :
    (now : ℕ) (e : Event) (w : Wake)
    → IsConsistent w
    → Superseded e w
    → (is_dispatched e w ≡ false) × (may_begin now e w ≡ false) × (is_run now e w ≡ false)
unfolding is_dispatched may_begin is_run
Superseded-guards now e w c s = ground (arith, Superseded-owns e w c s)

-- What a statement of the event does to the table when it has no effect and says so.
abbrev pub Refused : ℕ → Event → List Wake → Type 0
Refused now e t =
    (sent e t ≡ t)
    × (send_failed now e t ≡ t)
    × (begin now e t ≡ (false, t))
    × (renew now e t ≡ (err conflict, t))
    × ((success : Bool) → finish now e success t ≡ (err conflict, t))

Superseded-Refused :
    (now : ℕ) (e : Event) (t : List Wake)
    → All IsConsistent t
    → All (Superseded e) t
    → Refused now e t
unfolding sent send_failed begin renew finish
Superseded-Refused now e t c h =
    let zip = λ (q : Wake → Bool) (f : (w : Wake) → IsConsistent w → Superseded e w → q w ≡ false).
      All-zip (Superseded e) q t f c h in
    let a = zip (is_dispatched e) (λ w d s. (Superseded-guards now e w d s).0) in
    let b = zip (may_begin now e) (λ w d s. (Superseded-guards now e w d s).1) in
    let r = zip (is_run now e) (λ w d s. (Superseded-guards now e w d s).2) in
    (
      ap (λ (r : List Wake × ℕ). r.0) (update_where_none (is_dispatched e) _ t a),
      ap (λ (r : List Wake × ℕ). r.0) (update_where_none (is_dispatched e) _ t a),
      rw (update_where_none _ _ t b) refl,
      rw (update_where_none _ _ t r) refl,
      λ success. rw (update_where_none _ _ t r) refl,
    )

-- The lane of the event that a dispatch hands out is at the event's generation or later.
abbrev Reached : Result (Option Event × List Wake) → Type 0
Reached (ok (some e, t)) = All (λ w. lane_eq w.lane e.lane ≡ true → e.generation ≤ w.generation) t
Reached _ = Unit

hand_out-Reached :
    (now : ℕ) (l : Lane) (g : ℕ) (token : String) (t : List Wake)
    → IsKeyed t
    → All IsConsistent t
    → 0 < (hand_out now l g token t).1
    → All (λ w. lane_eq w.lane l ≡ true → g + 1 ≤ w.generation) (hand_out now l g token t).0
unfolding hand_out
hand_out-Reached now l g token t k c h =
    All-hit IsConsistent (λ w. g + 1 ≤ w.generation) _ _ l (λ w q. ground arith)
      (λ w d q. ground arith) t k c h

dispatch_loop-Reached :
    (now : ℕ) (ready : Lane → Result Bool) (new_id : Lane → String) (cs t : List Wake)
    → IsKeyed t
    → All IsConsistent t
    → Reached (dispatch_loop now ready new_id cs t)
unfolding dispatch_loop
dispatch_loop-Reached now ready new_id [] t k c = tt
dispatch_loop-Reached now ready new_id (d ∷ ds) t k c = elim (Result-cases (ready d.lane)) [
  | inl (true, e) ↦
      elim (Bool-cases ((hand_out now d.lane d.generation (new_id d.lane) t).1 == 0)) [
        | inl z ↦
            rw (e, z, dispatch_loop)
              (dispatch_loop-Reached now ready new_id ds _
                (subst DistinctLanes
                  (sym (lanes-hand_out now d.lane d.generation (new_id d.lane) t)) k)
                (hand_out-All IsConsistent IsConsistent-keeps now d.lane d.generation
                  (new_id d.lane) t c))
        | inr z ↦
            rw (e, z, dispatch_loop)
              (hand_out-Reached now d.lane d.generation (new_id d.lane) t k c (ground arith))
      ]
  | inl (false, e) ↦
      rw (e, dispatch_loop)
        (dispatch_loop-Reached now ready new_id ds _
          (subst DistinctLanes (sym (lanes-postpone now d.lane d.generation t)) k)
          (postpone-All IsConsistent IsConsistent-keeps now d.lane d.generation t c))
  | inr (x, e) ↦ rw (e, dispatch_loop) tt
]

abbrev event_of : Event → Result (Option Event) → Event
event_of e (ok (some x)) = x
event_of e _ = e

committed-Reached :
    (t : List Wake) (r : Result (Option Event × List Wake)) (new : Event)
    → Reached r
    → (commit t r).0 ≡ ok (some new)
    → All (λ w. lane_eq w.lane new.lane ≡ true → new.generation ≤ w.generation) (commit t r).1
committed-Reached t (ok (some e, u)) new h p =
    subst (λ (x : Event). All (λ w. lane_eq w.lane x.lane ≡ true → x.generation ≤ w.generation) u)
      (ap (event_of e) p) h
committed-Reached t (ok (none, u)) new h p = cc
committed-Reached t (err x) new h p = cc

claimed-Reached :
    (now : ℕ) (locked : Bool) (slots : ℕ) (ready : Lane → Result Bool) (new_id : Lane → String)
    (t : List Wake) (new : Event)
    → IsKeyed t
    → All IsConsistent t
    → (claim_dispatch now locked slots ready new_id t).0 ≡ ok (some new)
    → All
        (λ w. lane_eq w.lane new.lane ≡ true → new.generation ≤ w.generation)
        (claim_dispatch now locked slots ready new_id t).1
unfolding claim_dispatch
claimed-Reached now locked slots ready new_id t new k c h = ground (
  arith,
  committed-Reached t (dispatch_loop now ready new_id (candidates now t) t) new
      (dispatch_loop-Reached now ready new_id (candidates now t) t k c),
)

-- Once a lane is dispatched under a new event, an event of the lane with a smaller generation can do
-- nothing more: after any further statements its Sent, SendFailed, Begin, Renew and Finish change no
-- row, Begin answers that the lane is not its own, and Renew and Finish answer a conflict.
pub superseded-Refused :
    (now : ℕ) (locked : Bool) (slots : ℕ) (ready : Lane → Result Bool) (new_id : Lane → String)
    (t : List Wake) (old new : Event) (ss : List (ℕ × Statement)) (later : ℕ)
    → IsKeyed t
    → All IsConsistent t
    → (claim_dispatch now locked slots ready new_id t).0 ≡ ok (some new)
    → old.lane ≡ new.lane
    → old.generation < new.generation
    → Refused later old (run ss (claim_dispatch now locked slots ready new_id t).1)
superseded-Refused now locked slots ready new_id t old new ss later k c h same older =
    Superseded-Refused later old _
      (run-All IsConsistent IsConsistent-keeps ss _
        (claim_dispatch-All IsConsistent IsConsistent-keeps now locked slots ready new_id t c))
      (run-All (Superseded old) (Superseded-keeps old) ss
        (claim_dispatch now locked slots ready new_id t).1
        (All-mono (λ w. lane_eq w.lane new.lane ≡ true → new.generation ≤ w.generation)
          (Superseded old) _
          (λ w r q. omega (arith, r (subst (λ l. lane_eq w.lane l ≡ true) same q)))
          (claimed-Reached now locked slots ready new_id t new k c h)))
