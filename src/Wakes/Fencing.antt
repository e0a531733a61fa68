-- ===== src/Wakes/Fencing.antt =====
-- The life of the wake table over any sequence of statements, and what fences an event that has been
-- superseded or has already run.
use asset_api.Base.{
  ℕ, ◌+◌, ◌≤◌, ◌<◌, String, ◌≡◌, ◌⊎◌, inl, inr, Bool, true, false, Option, some, List, [], ◌∷◌,
  arith, All, Bool-cases, ◌==◌,
}
use asset_api.Errors.{Result, ok, err, Result-cases}
use asset_api.Wakes.Table.{
  Lane, lane_eq, queued, Wake, Event, idle, running, dispatching, IsConsistent, All-update_where,
}
use asset_api.Wakes.Dispatch.{postpone, hand_out, dispatch_loop, claim_dispatch, candidates, commit}
use asset_api.Wakes.Lease.{
  sent, send_failed, begin, renew, finish, sweep, release, is_dispatched, may_begin, is_run,
}

-- One committed statement, with the answers that its transaction got.
pub data Statement : Type 0 where
  claims : Bool → ℕ → (Lane → Result Bool) → (Lane → String) → Statement
  sends fails begins renews : Event → Statement
  finishes : Event → Bool → Statement
  sweeps : Statement

unfoldable pub step : ℕ × Statement → List Wake → List Wake
step (now, claims locked slots ready new_id) t = (claim_dispatch now locked slots ready new_id t).1
step (now, sends e) t = sent e t
step (now, fails e) t = send_failed now e t
step (now, begins e) t = (begin now e t).1
step (now, renews e) t = (renew now e t).1
step (now, finishes e success) t = (finish now e success t).1
step (now, sweeps) t = sweep now t

unfoldable pub run : List (ℕ × Statement) → List Wake → List Wake
unfolding step
run [] t = t
run (s ∷ ss) t = run ss (step s t)

-- What each kind of update does to a single row keeps the predicate.
pub record Keeps {ℓ} (P : Wake → Type ℓ) : Type ℓ where
  pub postponed : (n : ℕ) (w : Wake) → P w → P (record w { next_check_at = n })
  pub handed_out :
      (now : ℕ) (token : String) (w : Wake)
      → P w
      → P (record w {
        state = dispatching;
        token = some token;
        generation = w.generation + 1;
        dispatch_generation = some (w.generation + 1);
        lease_until = some (now + 120_000_000);
        last_dispatch_at = some now;
      })
  pub queues : (w : Wake) → w.state ≡ dispatching → P w → P (record w { state = queued })
  pub released : (n : ℕ) (w : Wake) → P w → P (release n w)
  pub begun :
      (l : ℕ) (w : Wake)
      → (w.state ≡ dispatching) ⊎ (w.state ≡ queued)
      → P w
      → P (record w { state = running; lease_until = some l })
  pub renewed : (l : ℕ) (w : Wake) → w.state ≡ running → P w → P (record w { lease_until = some l })

module _ {ℓ} (P : Wake → Type ℓ) (k : Keeps P) where
  open k use {postponed, handed_out, queues, released, begun, renewed}

  abbrev Kept : Result (Option Event × List Wake) → Type ℓ
  Kept (ok (o, t)) = All P t
  Kept (err x) = Unit

  pub postpone-All :
      (now : ℕ) (l : Lane) (g : ℕ) (t : List Wake) → All P t → All P (postpone now l g t)
  unfolding postpone
  postpone-All now l g t h = All-update_where P _ _ t (λ w _ p. postponed _ w p) h

  pub hand_out-All :
      (now : ℕ) (l : Lane) (g : ℕ) (token : String) (t : List Wake)
      → All P t
      → All P (hand_out now l g token t).0
  unfolding hand_out
  hand_out-All now l g token t h = All-update_where P _ _ t (λ w _ p. handed_out now token w p) h

  dispatch_loop-All :
      (now : ℕ) (ready : Lane → Result Bool) (new_id : Lane → String) (cs t : List Wake)
      → All P t
      → Kept (dispatch_loop now ready new_id cs t)
  unfolding dispatch_loop
  dispatch_loop-All now ready new_id [] t h = h
  dispatch_loop-All now ready new_id (c ∷ cs) t h = elim (Result-cases (ready c.lane)) [
    | inl (true, e) ↦
        elim (Bool-cases ((hand_out now c.lane c.generation (new_id c.lane) t).1 == 0)) [
          | inl z ↦
              rw (e, z, dispatch_loop)
                (dispatch_loop-All now ready new_id cs _
                  (hand_out-All now c.lane c.generation (new_id c.lane) t h))
          | inr z ↦
              rw (e, z, dispatch_loop) (hand_out-All now c.lane c.generation (new_id c.lane) t h)
        ]
    | inl (false, e) ↦
        rw (e, dispatch_loop)
          (dispatch_loop-All now ready new_id cs _ (postpone-All now c.lane c.generation t h))
    | inr (x, e) ↦ rw (e, dispatch_loop) tt
  ]

  pub claim_dispatch-All :
      (now : ℕ) (locked : Bool) (slots : ℕ) (ready : Lane → Result Bool) (new_id : Lane → String)
      (t : List Wake)
      → All P t
      → All P (claim_dispatch now locked slots ready new_id t).1
  unfolding claim_dispatch
  claim_dispatch-All now locked slots ready new_id t h =
      ground (arith, go _ (dispatch_loop-All now ready new_id (candidates now t) t h))
    where
      go : (r : Result (Option Event × List Wake)) → Kept r → All P (commit t r).1
      go (ok (o, t')) a = a
      go (err x) a = h

  -- Every statement keeps a predicate that every update of a row keeps.
  pub step-All : (s : ℕ × Statement) (t : List Wake) → All P t → All P (step s t)
  unfolding step sent send_failed begin renew finish sweep is_dispatched may_begin is_run
  step-All (now, claims locked slots ready new_id) t h =
      claim_dispatch-All now locked slots ready new_id t h
  step-All (now, sends e) t h = All-update_where P _ _ t (λ w g p. queues w (ground arith) p) h
  step-All (now, fails e) t h = All-update_where P _ _ t (λ w g p. released _ w p) h
  step-All (now, begins e) t h = All-update_where P _ _ t (λ w g p. begun _ w (ground arith) p) h
  step-All (now, renews e) t h = All-update_where P _ _ t (λ w g p. renewed _ w (ground arith) p) h
  step-All (now, finishes e success) t h = All-update_where P _ _ t (λ w g p. released _ w p) h
  step-All (now, sweeps) t h = All-update_where P _ _ t (λ w g p. postponed _ w p) h

  pub run-All : (ss : List (ℕ × Statement)) (t : List Wake) → All P t → All P (run ss t)
  unfolding run
  run-All [] t h = h
  run-All (s ∷ ss) t h = run-All ss (step s t) (step-All s t h)

pub IsConsistent-keeps : Keeps IsConsistent
IsConsistent-keeps = record {
  postponed = λ n w p. ground arith;
  handed_out = λ now token w p. ground arith;
  queues = λ w d p. ground arith;
  released = λ n w p. ground arith;
  begun = λ l w d p. ground arith;
  renewed = λ l w d p. ground arith;
}

-- The event's lane has gone on to a later generation, or has begun this one already.
abbrev pub Spent : Event → Wake → Type 0
Spent e w =
    lane_eq w.lane e.lane ≡ true
    → (e.generation < w.generation)
      ⊎ ((e.generation ≤ w.generation) × ((w.state ≡ running) ⊎ (w.state ≡ idle)))

pub Spent-keeps : (e : Event) → Keeps (Spent e)
Spent-keeps e = record {
  postponed = λ n w p. p;
  handed_out = λ now token w p q. ground (arith, p q);
  queues = λ w d p q. ground (arith, p q);
  released = λ n w p q. ground (arith, p q);
  begun = λ l w d p q. ground (arith, p q);
  renewed = λ l w d p q. ground (arith, p q);
}

-- The event's lane has gone on to a later generation.
abbrev pub Superseded : Event → Wake → Type 0
Superseded e w = lane_eq w.lane e.lane ≡ true → e.generation < w.generation

pub Superseded-keeps : (e : Event) → Keeps (Superseded e)
Superseded-keeps e = record {
  postponed = λ n w p. p;
  handed_out = λ now token w p q. omega (arith, p q);
  queues = λ w d p. p;
  released = λ n w p. p;
  begun = λ l w d p. p;
  renewed = λ l w d p. p;
}
