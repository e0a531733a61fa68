-- ===== src/Wakes/Job/Settles.antt =====
-- When the lane job takes its message off the queue, and what the wake table says then.
use asset_api.Base.{
  ◌∙◌, ℕ, ◌≡◌, refl, ◌⊎◌, inl, inr, Bool, true, false, Option, some, List, [], ◌∷◌, arith, All,
  Bool-cases, All-mono, ap, sym, subst, any,
}
use mathlib.Core.HLevel.{Unit-prop}
use asset_api.Errors.{ok, Result-cases}
use asset_api.Wakes.Table.{Lane, lane_eq, Wake, Event, owns}
use asset_api.Wakes.Lease.{begin, renew, finish, is_run, release}
use asset_api.Wakes.Keyed.{IsKeyed, DistinctLanes, lanes-update_where, All-hit}
use asset_api.Wakes.Job.{
  Wire, decode, Signal, completed, cancelled, ticked, Call, acked, extended, World, returned,
  finish_and_ack, renew_both, work, run_job,
}

-- A call that removes the message from the queue.
abbrev pub is_ack : Call → Bool
is_ack acked = true
is_ack _ = false

abbrev pub removes : Call → Bool
removes extended = false
removes _ = true

IsKeyed-renew : (now : ℕ) (e : Event) (t : List Wake) → IsKeyed t → IsKeyed (renew now e t).1
unfolding renew
IsKeyed-renew now e t k = subst DistinctLanes (sym (lanes-update_where _ _ t (λ w. refl))) k

IsKeyed-begin : (now : ℕ) (e : Event) (t : List Wake) → IsKeyed t → IsKeyed (begin now e t).1
unfolding begin
IsKeyed-begin now e t k = subst DistinctLanes (sym (lanes-update_where _ _ t (λ w. refl))) k

All-Unit : (t : List Wake) → All (λ (w : Wake). Unit {0}) t
All-Unit [] = tt
All-Unit (w ∷ t) = (tt, All-Unit t)

owned_lane : (e : Event) (w : Wake) → owns e w ≡ true → lane_eq w.lane e.lane ≡ true
unfolding owns
owned_lane e w h = ground arith

unowned :
    (e : Event) (w : Wake) → (lane_eq w.lane e.lane ≡ true → owns e w ≡ false) → owns e w ≡ false
unowned e w h = elim (Bool-cases (owns e w)) [ inl y ↦ h (owned_lane e w y) | inr n ↦ n ]

release_unowned : (e : Event) (n : ℕ) (w : Wake) → owns e (release n w) ≡ false
unfolding owns
release_unowned e n w = ground arith

-- A Finish that succeeds leaves no row to the event.
finish_releases :
    (now : ℕ) (e : Event) (success : Bool) (t : List Wake)
    → IsKeyed t
    → (finish now e success t).0 ≡ ok tt
    → All (λ w. owns e w ≡ false) (finish now e success t).1
unfolding finish
finish_releases now e success t k h =
    All-mono _ (λ w. owns e w ≡ false) _ (unowned e)
      (All-hit (λ w. Unit {0}) (λ w. owns e w ≡ false) (is_run now e) _ e.lane
        (λ w g. owned_lane e w (unfold is_run in ground arith)) (λ w u g. release_unowned e _ w) t k
        (All-Unit t) (ground arith))

finish_and_ack_releases :
    (now : ℕ) (e : Event) (success acks : Bool) (w : World)
    → IsKeyed w.table
    → any is_ack w.calls ≡ false
    → any is_ack (finish_and_ack now e success acks w).1.calls ≡ true
    → All (λ v. owns e v ≡ false) (finish_and_ack now e success acks w).1.table
unfolding finish_and_ack
finish_and_ack_releases now e success acks w k n h =
    elim (Result-cases (finish now e success w.table).0) [
      | inl (u, f) ↦
          let released = finish_releases now e success w.table k (f ∙ ap ok (Unit-prop u tt)) in
          elim (Bool-cases acks) [
            | inl y ↦ rw (f, y, finish_and_ack) released
            | inr y ↦ rw (f, y, finish_and_ack) released
          ]
      | inr (x, f) ↦ absurd (ground (arith, f))
    ]

renew_both-calls :
    (now : ℕ) (e : Event) (w : World) → any is_ack (renew_both now e w).1.calls ≡ any is_ack w.calls
unfolding renew_both
renew_both-calls now e w = refl

renew_both-IsKeyed :
    (now : ℕ) (e : Event) (w : World) → IsKeyed w.table → IsKeyed (renew_both now e w).1.table
unfolding renew_both
renew_both-IsKeyed now e w k = IsKeyed-renew now e w.table k

work_releases :
    (e : Event) (ss : List (ℕ × Signal)) (w : World)
    → IsKeyed w.table
    → any is_ack w.calls ≡ false
    → any is_ack (work e ss w).1.calls ≡ true
    → All (λ v. owns e v ≡ false) (work e ss w).1.table
unfolding work
work_releases e [] w k n h = cc
work_releases e ((now, completed success true acks) ∷ ss) w k n h = cc
work_releases e ((now, completed success false acks) ∷ ss) w k n h =
    finish_and_ack_releases now e success acks w k n h
work_releases e ((now, cancelled) ∷ ss) w k n h = cc
work_releases e ((now, ticked false) ∷ ss) w k n h = cc
work_releases e ((now, ticked true) ∷ ss) w k n h =
    let calls = renew_both-calls now e w in
    elim (Result-cases (renew_both now e w).0) [
      | inl (u, r) ↦
          rw (r, work)
            (work_releases e ss (renew_both now e w).1 (renew_both-IsKeyed now e w k) (calls ∙ n)
              (rw (r, work) at h))
      | inr (x, r) ↦ absurd (ground (arith, r, calls))
    ]

-- On a keyed table, a message that decodes to an event is acknowledged only if Begin did not give
-- the lane to the event, or no row of the table is held for the event any more.
pub ack_releases :
    (lane : Lane) (now : ℕ) (body : Option Wire) (e : Event) (acks poisons : Bool)
    (ss : List (ℕ × Signal)) (w : World)
    → IsKeyed w.table
    → any is_ack w.calls ≡ false
    → decode body ≡ ok e
    → any is_ack (run_job lane now (ok (some body)) acks poisons ss w).1.calls ≡ true
    → ((begin now e w.table).0 ≡ false)
      ⊎ All (λ v. owns e v ≡ false) (run_job lane now (ok (some body)) acks poisons ss w).1.table
unfolding run_job
ack_releases lane now body e acks poisons ss w k n d h = elim (Bool-cases (begin now e w.table).0) [
  | inr idle ↦ inl idle
  | inl active ↦ elim (Bool-cases (lane_eq e.lane lane)) [
    | inl same ↦ inr (
        rw (d, same, active, run_job)
          (work_releases e ss (record w { table = (begin now e w.table).1 })
            (IsKeyed-begin now e w.table k) n (rw (d, same, active, run_job) at h)))
    | inr other ↦ absurd (ground (arith, d, other))
  ]
]

work_ok_acks :
    (e : Event) (ss : List (ℕ × Signal)) (w : World)
    → (work e ss w).0 ≡ returned (ok tt)
    → any is_ack (work e ss w).1.calls ≡ true
unfolding work finish_and_ack
work_ok_acks e [] w h = cc
work_ok_acks e ((now, completed success true acks) ∷ ss) w h = cc
work_ok_acks e ((now, completed success false acks) ∷ ss) w h = ground arith
work_ok_acks e ((now, cancelled) ∷ ss) w h = cc
work_ok_acks e ((now, ticked false) ∷ ss) w h = cc
work_ok_acks e ((now, ticked true) ∷ ss) w h =
    ground (arith, work_ok_acks e ss (renew_both now e w).1)

ack_removes : (cs : List Call) → any is_ack cs ≡ true → any removes cs ≡ true
ack_removes [] h = cc
ack_removes (c ∷ cs) h = ground (arith, ack_removes cs)

-- Whatever the schedule, a run that received a message and returns without an error has taken the
-- message off its queue: it has acknowledged it, or moved it to the poison queue.
pub ok_removes :
    (lane : Lane) (now : ℕ) (body : Option Wire) (acks poisons : Bool) (ss : List (ℕ × Signal))
    (w : World)
    → (run_job lane now (ok (some body)) acks poisons ss w).0 ≡ returned (ok tt)
    → any removes (run_job lane now (ok (some body)) acks poisons ss w).1.calls ≡ true
unfolding run_job
ok_removes lane now body acks poisons ss w h = elim (Result-cases (decode body)) [
  | inr (x, d) ↦ ground (arith, d)
  | inl (e, d) ↦ elim (Bool-cases (lane_eq e.lane lane)) [
    | inr other ↦ ground (arith, d, other)
    | inl same ↦ elim (Bool-cases (begin now e w.table).0) [
      | inr idle ↦ ground (arith, d, same, idle)
      | inl active ↦
          rw (d, same, active, run_job)
            (ack_removes (work e ss (record w { table = (begin now e w.table).1 })).1.calls (
              work_ok_acks e ss (record w { table = (begin now e w.table).1 })
                (rw (d, same, active, run_job) at h)))
    ]
  ]
]
