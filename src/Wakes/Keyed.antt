-- ===== src/Wakes/Keyed.antt =====
-- The primary key of the wake table: no two rows have the same lane, and no statement changes a lane.
use asset_api.Base.{
  ℕ, ◌<◌, String, ◌≡◌, refl, inl, inr, Bool, true, false, List, [], ◌∷◌, arith, All, Bool-cases,
  map,
}
use asset_api.Wakes.Table.{Lane, lane_eq, Wake, update_where}
use asset_api.Wakes.Dispatch.{postpone, hand_out}

abbrev pub lanes : List Wake → List Lane
lanes = map (λ w. w.lane)

abbrev pub DistinctLanes : List Lane → Type 0
DistinctLanes [] = Unit
DistinctLanes (l ∷ ls) = All (λ k. lane_eq k l ≡ false) ls × DistinctLanes ls

abbrev pub IsKeyed : List Wake → Type 0
IsKeyed t = DistinctLanes (lanes t)

pub lanes-update_where :
    (p : Wake → Bool) (f : Wake → Wake) (t : List Wake)
    → ((w : Wake) → (f w).lane ≡ w.lane)
    → lanes (update_where p f t).0 ≡ lanes t
unfolding update_where
lanes-update_where p f [] keep = refl
lanes-update_where p f (w ∷ t) keep = ground (arith, keep w, lanes-update_where p f t keep)

pub lanes-postpone :
    (now : ℕ) (l : Lane) (g : ℕ) (t : List Wake) → lanes (postpone now l g t) ≡ lanes t
unfolding postpone
lanes-postpone now l g t = lanes-update_where _ _ t (λ w. refl)

pub lanes-hand_out :
    (now : ℕ) (l : Lane) (g : ℕ) (token : String) (t : List Wake)
    → lanes (hand_out now l g token t).0 ≡ lanes t
unfolding hand_out
lanes-hand_out now l g token t = lanes-update_where _ _ t (λ w. refl)

other_lane : (k l m : Lane) → lane_eq l m ≡ true → lane_eq k l ≡ false → lane_eq k m ≡ false
other_lane k l m p q = ground arith

pub All-other :
    (l m : Lane) (t : List Wake)
    → lane_eq l m ≡ true
    → All (λ k. lane_eq k l ≡ false) (lanes t)
    → All (λ w. lane_eq w.lane m ≡ false) t
All-other l m [] e h = h
All-other l m (w ∷ t) e h = (other_lane w.lane l m e h.0, All-other l m t e h.1)

pub no_hit :
    (p : Wake → Bool) (f : Wake → Wake) (l : Lane) (t : List Wake)
    → ((w : Wake) → p w ≡ true → lane_eq w.lane l ≡ true)
    → All (λ w. lane_eq w.lane l ≡ false) t
    → update_where p f t ≡ (t, 0)
unfolding update_where
no_hit p f l [] only h = refl
no_hit p f l (w ∷ t) only h = ground (arith, only w, no_hit p f l t only h.1)

module _ {ℓ κ} (R : Wake → Type ℓ) (Q : Wake → Type κ) (p : Wake → Bool) (f : Wake → Wake)
    (l : Lane) (only : (w : Wake) → p w ≡ true → lane_eq w.lane l ≡ true)
    (made : (w : Wake) → R w → p w ≡ true → Q (f w)) where
  elsewhere :
      (t : List Wake)
      → All (λ w. lane_eq w.lane l ≡ false) t
      → All (λ w. lane_eq w.lane l ≡ true → Q w) t
  elsewhere [] h = tt
  elsewhere (w ∷ t) h = (λ e. cc, elsewhere t h.1)

  -- An UPDATE that hits a row of its lane leaves that lane's row as it made it.
  pub All-hit :
      (t : List Wake)
      → IsKeyed t
      → All R t
      → 0 < (update_where p f t).1
      → All (λ w. lane_eq w.lane l ≡ true → Q w) (update_where p f t).0
  unfolding update_where
  All-hit [] k r h = absurd (omega arith)
  All-hit (w ∷ t) k r h = elim (Bool-cases (p w)) [
    | inl hit ↦
        let away = All-other w.lane l t (only w hit) k.0 in
        rw (hit, no_hit p f l t only away) ((λ e. made w r.0 hit), elsewhere t away)
    | inr miss ↦ elim (Bool-cases (lane_eq w.lane l)) [
      | inl same ↦ absurd (ground (arith, no_hit p f l t only (All-other w.lane l t same k.0)))
      | inr other ↦ rw miss ((λ e. cc), All-hit t k.1 r.1 (ground arith))
    ]
  ]
