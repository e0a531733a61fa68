-- ===== src/Broadcast/Projection.antt =====
-- BroadcastProjection: what clients are shown of a broadcast's range. The media times of the history
-- are values of a type that the section takes, with their difference.
use asset_api.Base.{
  ℕ, zero, suc, not, ap, ◌∙◌, Bool-cases, Option-cases, ◌↔◌, get_elem?-lt, ◌≤◌, ◌<◌, ◌≡◌, refl, inl,
  inr, Bool, true, false, ◌||◌, Option, none, some, List, arith, ltb, leb, if◌then◌else◌, length,
  get_elem?, ℤ, pos, negsuc, ltb_ℤ,
}
use asset_api.Broadcast.Range.{BroadcastRange, well_formed}

pub data ProjectionState : Type 0 where
  pending ready failed : ProjectionState

-- The start and the end of a segment's 1080p rendition.
pub record Segment (Time : Type 0) : Type 0 where
  pub from : Time
  pub until : Time

pub record Projection (Time : Type 0) : Type 0 where
  pub epoch : ℕ
  pub range_revision : ℕ
  pub state : ProjectionState
  pub start_sequence : Option ℤ
  pub end_sequence_exclusive : Option ℤ
  pub media_start : Option Time
  pub duration : Option Time
  pub revision : ℕ

-- `none` is an index out of range, at which Go panics.
module _ {Time : Type 0} (minus : Time → Time → Time) where
  unfoldable pub initial : BroadcastRange → ℕ → Projection Time
  initial policy revision = record {
    epoch = policy.epoch;
    range_revision = policy.range_revision;
    state = pending;
    start_sequence = policy.start_sequence;
    end_sequence_exclusive = policy.end_sequence_exclusive;
    media_start = none;
    duration = none;
    revision = if leb revision 1 then 1 else revision;
  }

  abbrev at : List (Segment Time) → ℤ → Option (Segment Time)
  at history (pos i) = get_elem? history i
  at history (negsuc i) = none

  abbrev before : ℤ → ℤ
  before (pos zero) = negsuc 0
  before (pos (suc i)) = pos i
  before (negsuc i) = negsuc (suc i)

  abbrev measured :
      Projection Time → Option (Segment Time) → Option (Segment Time) → Option (Projection Time)
  measured p (some first) (some last) = some (record p {
    media_start = some first.from;
    duration = some (minus last.until first.from);
    state = ready;
  })
  measured p _ _ = none

  abbrev end_of : List (Segment Time) → Option ℤ → ℤ
  end_of history none = pos (length history)
  end_of history (some e) = e

  abbrev bounded : Projection Time → List (Segment Time) → Bool → ℤ → ℤ → Option (Projection Time)
  bounded p history ended start end =
      if not (ltb_ℤ start (pos (length history))) || ltb_ℤ (pos (length history)) end
      then some (if ended then record p { state = failed } else p)
      else if not (ltb_ℤ start end)
      then some (record p { state = failed })
      else measured p (at history start) (at history (before end))

  abbrev started :
      Projection Time
      → BroadcastRange
      → List (Segment Time)
      → Bool
      → Option ℤ
      → Option (Projection Time)
  started p policy history ended none = some p
  started p policy history ended (some start) =
      bounded p history ended start (end_of history policy.end_sequence_exclusive)

  unfoldable pub broadcast_projection :
      BroadcastRange → List (Segment Time) → ℕ → Bool → Option (Projection Time)
  unfolding initial
  broadcast_projection policy history revision ended =
      let p = initial policy revision in
      if policy.revoked
      then some (record p { state = failed })
      else started p policy history ended policy.start_sequence

  -- The range is within the history, and what it plays is not empty.
  abbrev pub IsPlayable : BroadcastRange → List (Segment Time) → Type 0
  IsPlayable policy history =
      (s : ℕ) × (e : ℕ) × (policy.revoked ≡ false)
      × (policy.start_sequence ≡ some (pos s))
      × (end_of history policy.end_sequence_exclusive ≡ pos e)
      × (s < e)
      × (e ≤ length history)

  measured_ready :
      (p : Projection Time) (history : List (Segment Time)) (s e : ℕ)
      → s < e
      → e ≤ length history
      → (q : Projection Time) × (measured p (at history (pos s)) (at history (before (pos e)))
          ≡ some q)
        × (q.state ≡ ready)
  measured_ready p history s zero h k = absurd (omega arith)
  measured_ready p history s (suc e) h k =
      let (first, f) = get_elem?-lt history s (omega arith) in
      let (last, l) = get_elem?-lt history e (omega arith) in
      (
        record p {
          media_start = some first.from;
          duration = some (minus last.until first.from);
          state = ready;
        },
        rw (f, l),
        refl,
      )

  bounded_ready :
      (p : Projection Time) (history : List (Segment Time)) (ended : Bool) (s : ℕ) (end : ℤ)
      → p.state ≡ pending
      → (q : Projection Time) × (bounded p history ended (pos s) end ≡ some q)
        × ((q.state ≡ ready) ↔ ((e : ℕ) × (end ≡ pos e) × (s < e) × (e ≤ length history)))
  bounded_ready p history ended s (negsuc e) i = elim (Bool-cases (ltb s (length history))) [
    | inl a ↦ (record p { state = failed }, rw a, ((λ h. cc), (λ r. cc r.1)))
    | inr a ↦ (
      (if ended then record p { state = failed } else p),
      rw a,
      ((λ h. ground arith), (λ r. cc r.1)),
    )
  ]
  bounded_ready p history ended s (pos e) i =
      elim (Bool-cases (not (ltb s (length history)) || ltb (length history) e)) [
        | inl out ↦ (
          (if ended then record p { state = failed } else p),
          rw out,
          ((λ h. ground arith), (λ r. absurd (ground (arith, r.1)))),
        )
        | inr within ↦ elim (Bool-cases (ltb s e)) [
          | inr empty ↦ (
            record p { state = failed },
            rw (within, empty),
            ((λ h. cc), (λ r. absurd (ground (arith, r.1)))),
          )
          | inl some_media ↦
              let (q, found, is_ready) =
                measured_ready p history s e (ground arith) (ground arith) in
              (
                q,
                rw (within, some_media) found,
                ((λ h. (e, refl, ground arith, ground arith)), (λ r. is_ready)),
              )
        ]
      ]

  below : {o : Option ℤ} (s' s e : ℕ) → o ≡ some (pos s') → o ≡ some (pos s) → s' < e → s < e
  below s' s e p q h = ground arith

  open_start :
      (policy : BroadcastRange) (history : List (Segment Time)) (revision : ℕ) (ended : Bool)
      (s : ℤ)
      → policy.revoked ≡ false
      → policy.start_sequence ≡ some s
      → broadcast_projection policy history revision ended
        ≡ bounded
            (initial policy revision)
            history
            ended
            s
            (end_of history policy.end_sequence_exclusive)
  unfolding broadcast_projection
  open_start policy history revision ended s o e =
      let p : Projection Time = initial policy revision in
      ap
        (λ b.
          if b
          then some (record p { state = failed })
          else started p policy history ended policy.start_sequence)
        o
      ∙ ap (started p policy history ended) e

  negative_start :
      (policy : BroadcastRange) (s : ℕ)
      → well_formed policy ≡ true
      → policy.start_sequence ≡ some (negsuc s)
      → ⊥
  unfolding well_formed
  negative_start policy s w e = ground arith

  -- For a well-formed range the projection indexes within the history, so it never panics, and it is
  -- ready exactly when the range is not revoked, has a start, is not empty, and ends within the
  -- history (at the history's end, where the range has no end of its own).
  pub projection_ready :
      (policy : BroadcastRange) (history : List (Segment Time)) (revision : ℕ) (ended : Bool)
      → well_formed policy ≡ true
      → (q : Projection Time) × (broadcast_projection policy history revision ended ≡ some q)
        × ((q.state ≡ ready) ↔ IsPlayable policy history)
  unfolding broadcast_projection
  projection_ready policy history revision ended w = elim (Bool-cases policy.revoked) [
    | inl gone ↦
        (record (initial policy revision) { state = failed }, rw gone, ((λ h. cc), (λ r. cc r.2)))
    | inr open_range ↦ elim (Option-cases policy.start_sequence) [
      | inl unset ↦ (initial policy revision, simp (open_range, unset), ((λ h. cc), (λ r. cc r.3)))
      | inr (pos s, is_set) ↦
          let (q, found, iff) =
            bounded_ready (initial policy revision) history ended s
              (end_of history policy.end_sequence_exclusive) refl in
          (
            q,
            (open_start policy history revision ended (pos s) open_range is_set ∙ found),
            (
              (λ h. let (e, f, g, k) = iff.0 h in (s, e, open_range, is_set, f, g, k)),
              (λ r. iff.1 (r.1, r.4, below r.0 s r.1 r.3 is_set r.5, r.6)),
            ),
          )
      | inr (negsuc s, is_set) ↦ absurd (negative_start policy s w is_set)
    ]
  ]
