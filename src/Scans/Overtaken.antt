-- ===== src/Scans/Overtaken.antt =====
-- A worker whose claim was taken over can record nothing: the attempt number of its claim fences it off
-- (internal/postgres/store.go).
use asset_api.Base.{
  ap, ℕ, ◌+◌, ◌≤◌, String, Bool, true, false, ◌≡◌, ◌≢◌, refl, sym, ◌∙◌, subst, inl, inr, Option,
  some, none, List, [], ◌∷◌, arith, eq_iff, Option-cases, Bool-cases, some_injective, All, All-mono,
  if-both, All-update_row, update_row, update_row-none,
}
use asset_api.Errors.{Result, ok, err, conflict}
use asset_api.Statuses.{scan_failed}
use asset_api.Scans.Table.{
  Asset, Tables, ScanResult, get_asset, claim_asset_scan, apply_scan_result, schedule_scan_retry,
  record_scan_poison, fail_scan_to_poison, scan_claimed, may_claim, claimed, takes_result, settled,
  takes_retry, postponed, has_event, claim_after, refused_claim,
}
use asset_api.Scans.Requeue.{takes_requeue, requeued}
use asset_api.Scans.Steps.{
  ScanStep, run, is_requeue, OnRows, Keeps, KeepsRequeues, run-kept, run-outlives,
}

-- The id is the primary key.
abbrev pub IsKeyed : List Asset → Type 0
IsKeyed [] = Unit
IsKeyed (a ∷ rows) = All (λ b. b.id ≢ a.id) rows × IsKeyed rows

-- The asset, if it satisfies E, has been claimed after the claim number n, or by it at the latest.
abbrev pub Claimed : (Asset → Type 0) → String → ℕ → List Asset → Type 0
Claimed E id n rows = All (λ a. a.id ≡ id → E a → n ≤ a.scan_attempts) rows

-- The asset awaits the scan of the event.
abbrev pub Awaits : String → Asset → Type 0
Awaits event_id a = a.scan_event_id ≡ event_id

abbrev pub Anything : Asset → Type 0
Anything a = Unit

-- The predicate depends on the event alone.
abbrev IsOfEvent : (Asset → Type 0) → Type 0
IsOfEvent E = (a b : Asset) → b.scan_event_id ≡ a.scan_event_id → E b → E a

module _ (E : Asset → Type 0) (id : String) (n : ℕ) (test : Asset → Bool) (f : Asset → Asset) where
  unhit : (c : Asset) → test c ≢ true → test c ≡ false
  unhit c x = ground arith

  misses :
      (b : Asset) (rows bs : List Asset)
      → ((a : Asset) → test a ≡ true → a.id ≡ id)
      → All (λ c. c.id ≢ b.id) rows
      → b.id ≡ id
      → update_row test f rows ≢ some bs
  misses b rows bs t d q m =
      let z = update_row-none test f rows (
        All-mono (λ c. c.id ≢ b.id) (λ c. test c ≡ false) rows
          (λ c x. unhit c (λ y. x (t c y ∙ sym q))) d) in
      cc

  -- The update of a row with the id, which is the only one, moves it past n.
  claims_past :
      (rows after : List Asset)
      → ((a : Asset) → test a ≡ true → a.id ≡ id)
      → ((a : Asset) → (f a).scan_attempts ≡ a.scan_attempts + 1)
      → ((a : Asset) → (f a).id ≡ a.id)
      → ((a : Asset) → E (f a) → E a)
      → IsKeyed rows
      → Claimed E id n rows
      → update_row test f rows ≡ some after
      → Claimed E id (n + 1) after
  unfolding update_row
  claims_past [] after t g i w k h e = absurd (cc)
  claims_past (b ∷ rows) after t g i w k h e = elim (Bool-cases (test b)) [
    | inl p ↦ subst (Claimed E id (n + 1)) (some_injective (rw p at e)) (
      λ q y. omega (arith, g b, h.0 (sym (i b) ∙ q) (w b y)),
      All-mono (λ c. c.id ≢ b.id) (λ c. c.id ≡ id → E c → n + 1 ≤ c.scan_attempts) rows
          (λ c d q y. absurd (d (q ∙ sym (t b p)))) k.0,
    )
    | inr p ↦ elim (Option-cases (update_row test f rows)) [
      | inl m ↦ absurd (ground (arith, p, m))
      | inr (bs, m) ↦
          subst (Claimed E id (n + 1)) (some_injective (rw (p, m, update_row) at e))
            (λ q y. absurd (misses b rows bs t k.0 q m), claims_past rows bs t g i w k.1 h.1 m)
    ]
  ]

abbrev StaysClaimed : (Asset → Type 0) → String → ℕ → OnRows
StaysClaimed E id n rows events requests = Claimed E id n rows

Claimed-Keeps :
    (E : Asset → Type 0) (id : String) (n : ℕ) → IsOfEvent E → Keeps (StaysClaimed E id n)
Claimed-Keeps E id n v = record {
  updates = λ test f events requests rows after t i m e h.
      All-update_row (λ a. a.id ≡ id → E a → n ≤ a.scan_attempts) test f rows after
        (λ a x y q z. omega (arith, m a, y (sym (i a).0 ∙ q) (v a (f a) (i a).1 z))) e h;
  records = λ e events requests rows h. h;
}

-- The event has a request, so no requeue is under it.
abbrev IsPast : String → String → ℕ → OnRows
IsPast event_id id n rows events requests =
    (has_event event_id requests ≡ true) × Claimed (Awaits event_id) id n rows

of_event : (event_id : String) → IsOfEvent (Awaits event_id)
of_event event_id a b q e = sym q ∙ e

Past-Keeps : (event_id id : String) (n : ℕ) → Keeps (IsPast event_id id n)
Past-Keeps event_id id n =
    let c = Claimed-Keeps (Awaits event_id) id n (of_event event_id) in
    record {
      updates = λ test f events requests rows after t i m e h.
          (h.0, c.updates test f events requests rows after t i m e h.1);
      records = λ e events requests rows h. h;
    }

Past-KeepsRequeues : (event_id id : String) (n : ℕ) → KeepsRequeues (IsPast event_id id n)
Past-KeepsRequeues event_id id n asset_id owner event etag now events requests rows after x e h = (
  ground (arith, h.0),
  All-update_row (λ a. a.id ≡ id → Awaits event_id a → n ≤ a.scan_attempts)
      (takes_requeue asset_id owner etag) (requeued event now) rows after
      (λ a t y q z. absurd (new z)) e h.1,
)
  where
    differs : true ≢ false
    differs u = cc

    new : event ≢ event_id
    new z = differs (sym (subst (λ v. has_event v requests ≡ true) (sym z) h.0) ∙ x)

refused_claim-state :
    (event_id etag : String) (o : Option Asset) → (refused_claim event_id etag o).1 ≢ scan_claimed
refused_claim-state event_id etag none h = cc
refused_claim-state event_id etag (some a) h = ground arith

claim_after-Claimed :
    (E : Asset → Type 0) (event_id id etag : String) (n : ℕ) (s : Tables) (o : Option (List Asset))
    → ((rows : List Asset) → o ≡ some rows → Claimed E id (n + 1) rows)
    → (claim_after event_id id etag s o).0.1 ≡ scan_claimed
    → Claimed E id (n + 1) (claim_after event_id id etag s o).1.assets
claim_after-Claimed E event_id id etag n s none f h =
    absurd (refused_claim-state event_id etag (get_asset id s.assets) h)
claim_after-Claimed E event_id id etag n s (some rows) f h = f rows refl

-- A claim that succeeds raises the attempts of the asset.
claim-Claimed :
    (E : Asset → Type 0) (event_id id etag : String) (now lease n : ℕ) (s : Tables)
    → IsOfEvent E
    → IsKeyed s.assets
    → Claimed E id n s.assets
    → (claim_asset_scan event_id id etag now lease s).0.1 ≡ scan_claimed
    → Claimed E id (n + 1) (claim_asset_scan event_id id etag now lease s).1.assets
unfolding claim_asset_scan
claim-Claimed E event_id id etag now lease n s v k h c =
    claim_after-Claimed E event_id id etag n s
      (update_row (may_claim event_id id etag now) (claimed (now + lease)) s.assets)
      (λ rows e.
        claims_past E id n (may_claim event_id id etag now) (claimed (now + lease)) s.assets rows
          (λ a t. ground (arith, eq_iff a.id id)) (λ a. refl) (λ a. refl) (λ a y. v a _ refl y) k h
          e)
      c

-- What the worker of the result can still do to the tables.
abbrev pub Fenced : ScanResult → String → Tables → Type 0
Fenced r poison s =
    ((apply_scan_result r s).0 ≢ ok true)
    × ((apply_scan_result r s).1 ≡ s)
    × ((fail_scan_to_poison r poison s).1.assets ≡ s.assets)

not_taken :
    (r : ScanResult) (a : Asset)
    → (a.id ≡ r.asset_id → Awaits r.event_id a → r.expected_attempt + 1 ≤ a.scan_attempts)
    → takes_result r a ≡ false
not_taken r a q = ground (arith, eq_iff a.id r.asset_id, eq_iff a.scan_event_id r.event_id, q)

not_retried :
    (r : ScanResult) (a : Asset)
    → (a.id ≡ r.asset_id → Unit {0} → r.expected_attempt + 1 ≤ a.scan_attempts)
    → takes_retry r.asset_id r.expected_attempt a ≡ false
not_retried r a q = ground (arith, eq_iff a.id r.asset_id, past)
  where
    past : a.id ≡ r.asset_id → r.expected_attempt + 1 ≤ a.scan_attempts
    past e = q e tt

ok_false : ok false ≢ ok true
ok_false e = cc

past-Fenced :
    (r : ScanResult) (poison : String) (s : Tables)
    → Claimed (Awaits r.event_id) r.asset_id (r.expected_attempt + 1) s.assets
    → Fenced r poison s
unfolding apply_scan_result fail_scan_to_poison record_scan_poison
past-Fenced r poison s h =
    let no_result = λ (f : Asset → Asset).
      update_row-none (takes_result r) f s.assets
        (All-mono _ (λ a. takes_result r a ≡ false) s.assets (λ a q. not_taken r a q) h) in
    let x = no_result (settled r.status r) in
    let y = no_result (settled scan_failed r) in
    (
      if-both (λ (v : Result Bool × Tables). v.0 ≢ ok true) (has_event r.event_id s.events) _ _
          (λ e. ok_false e) (rw x (λ e. cc)),
      if-both (λ (v : Result Bool × Tables). v.1 ≡ s) (has_event r.event_id s.events) _ _ refl
          (rw x refl),
      if-both (λ (v : Result Bool × Tables). v.1.assets ≡ s.assets) (has_event r.event_id s.events)
          _ _ refl (rw y refl),
    )

claim-requests :
    (event_id id etag : String) (now lease : ℕ) (s : Tables)
    → (claim_asset_scan event_id id etag now lease s).1.requests ≡ s.requests
unfolding claim_asset_scan
claim-requests event_id id etag now lease s =
    go (update_row (may_claim event_id id etag now) (claimed (now + lease)) s.assets)
  where
    go : (o : Option (List Asset)) → (claim_after event_id id etag s o).1.requests ≡ s.requests
    go none = refl
    go (some rows) = refl

-- Once an asset is claimed again, the worker of an earlier claim can record no result for it, after any
-- further statements over scans, a requeue under a new event and its claims included: its result is not
-- recorded and leaves the tables as they are, and its failure leaves the assets as they are. The ids are
-- distinct, the event of the worker has a request in the outbox, and while the asset awaits that event, the
-- worker's attempt number is no later than the asset's.
pub overtaken-Fenced :
    (event_id etag : String) (now lease : ℕ) (s : Tables) (r : ScanResult) (ts : List ScanStep)
    (poison : String)
    → IsKeyed s.assets
    → has_event r.event_id s.requests ≡ true
    → Claimed (Awaits r.event_id) r.asset_id r.expected_attempt s.assets
    → (claim_asset_scan event_id r.asset_id etag now lease s).0.1 ≡ scan_claimed
    → Fenced r poison (run ts (claim_asset_scan event_id r.asset_id etag now lease s).1)
overtaken-Fenced event_id etag now lease s r ts poison k q h c =
    past-Fenced r poison _
      (run-outlives (IsPast r.event_id r.asset_id (r.expected_attempt + 1))
        (Past-Keeps r.event_id r.asset_id (r.expected_attempt + 1))
        (Past-KeepsRequeues r.event_id r.asset_id (r.expected_attempt + 1)) ts _
        (
          ap (has_event r.event_id) (claim-requests event_id r.asset_id etag now lease s) ∙ q,
          claim-Claimed (Awaits r.event_id) event_id r.asset_id etag now lease r.expected_attempt s
              (of_event r.event_id) k h c,
        )).1

-- Once an asset is claimed again, the retry of an earlier claim's worker is a conflict that changes
-- nothing, after any further statements over scans but a requeue. The ids are distinct, and the worker's
-- attempt number is no later than the asset's.
pub overtaken_retry :
    (event_id etag : String) (now lease : ℕ) (s : Tables) (r : ScanResult) (ts : List ScanStep)
    (category : String) (next : ℕ)
    → IsKeyed s.assets
    → All (λ t. is_requeue t ≡ false) ts
    → Claimed Anything r.asset_id r.expected_attempt s.assets
    → (claim_asset_scan event_id r.asset_id etag now lease s).0.1 ≡ scan_claimed
    → schedule_scan_retry r.asset_id r.expected_attempt category next
        (run ts (claim_asset_scan event_id r.asset_id etag now lease s).1)
      ≡ (err conflict, run ts (claim_asset_scan event_id r.asset_id etag now lease s).1)
unfolding schedule_scan_retry
overtaken_retry event_id etag now lease s r ts category next k n h c =
    let p =
      run-kept (StaysClaimed Anything r.asset_id (r.expected_attempt + 1))
        (Claimed-Keeps Anything r.asset_id (r.expected_attempt + 1) (λ a b q x. tt)) ts
        (claim_asset_scan event_id r.asset_id etag now lease s).1
        (All-mono (λ t. is_requeue t ≡ false) _ ts (λ t x. inl x) n)
        (claim-Claimed Anything event_id r.asset_id etag now lease r.expected_attempt s
          (λ a b q x. tt) k h c) in
    let z =
      update_row-none (takes_retry r.asset_id r.expected_attempt) (postponed category next)
        (run ts (claim_asset_scan event_id r.asset_id etag now lease s).1).assets
        (All-mono _ (λ a. takes_retry r.asset_id r.expected_attempt a ≡ false) _
          (λ a q. not_retried r a q) p) in
    rw z refl
