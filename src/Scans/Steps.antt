-- ===== src/Scans/Steps.antt =====
-- The statements of a scan in any order, by any number of workers, and what all of them keep.
use asset_api.Base.{
  first_by, if-cases, inl, inr, ◌⊎◌, All, false, ◌&&◌, ◌||◌, not, str_eq, if-both, ℕ, ◌+◌, ◌≤◌,
  String, Bool, true, ◌≡◌, refl, Option, some, none, List, [], ◌∷◌, arith, update_row,
}
use asset_api.Errors.{Result}
use asset_api.Statuses.{scan_failed, scan_pending}
use asset_api.Uploads.Store.{ScanRequest}
use asset_api.Scans.Requeue.{
  claim_pending_scan, schedule_pending_retry, requeue_failed_scan, takes_requeue, requeued,
  requeue_after, pending_after, delay_after, delayed, is_row, is_pending, waits_longer, claim_row,
}
use asset_api.Scans.Table.{
  Asset, Tables, ScanResult, claim_asset_scan, apply_scan_result, schedule_scan_retry,
  record_scan_poison, fail_scan_to_poison, mark_poison_forwarded, may_claim, claimed, takes_result,
  settled, takes_retry, postponed, has_event, claim_after, apply_after, retry_after, fail_after,
}

-- A claim with its event, asset, etag, time and lease; a retry with its expected attempt, category and
-- time; a poison by its id. The last three are the statements that no queue message asks for.
pub data ScanStep : Type 0 where
  claims : String → String → String → ℕ → ℕ → ScanStep
  applies : ScanResult → ScanStep
  retries : String → ℕ → String → ℕ → ScanStep
  poisons : String → ScanStep
  fails : ScanResult → String → ScanStep
  marks : String → ScanStep
  takes_pending : ℕ → ℕ → (String → Bool) → ScanStep
  delays : String → ℕ → ℕ → ScanStep
  requeues : Bool → String → String → ScanRequest → ℕ → ScanStep

unfoldable pub step : ScanStep → Tables → Tables
step (claims event_id asset_id etag now lease) s =
    (claim_asset_scan event_id asset_id etag now lease s).1
step (applies r) s = (apply_scan_result r s).1
step (retries asset_id expected category next) s =
    (schedule_scan_retry asset_id expected category next s).1
step (poisons id) s = (record_scan_poison id s).1
step (fails r id) s = (fail_scan_to_poison r id s).1
step (marks id) s = mark_poison_forwarded id s
step (takes_pending now lease locked) s = (claim_pending_scan now lease locked s).1
step (delays asset_id expected next) s = (schedule_pending_retry asset_id expected next s).1
step (requeues audits asset_id owner r now) s =
    (requeue_failed_scan audits asset_id owner r now s).1

unfoldable pub run : List ScanStep → Tables → Tables
run [] s = s
run (t ∷ ts) s = run ts (step t s)

-- Whether the statement requeues a failed scan.
abbrev pub is_requeue : ScanStep → Bool
is_requeue (requeues audits asset_id owner r now) = true
is_requeue _ = false

-- A predicate on the assets, the events with a result and those of the scan outbox.
abbrev pub OnRows : Type 1
OnRows = List Asset → List String → List String → Type 0

-- What an update of an asset that awaits a scan may do to a row, and to the tables.
pub record Keeps (P : OnRows) : Type 0 where
  pub updates :
      (test : Asset → Bool) (f : Asset → Asset) (events requests : List String)
      (rows after : List Asset)
      → ((a : Asset) → test a ≡ true → a.scan_status ≡ scan_pending)
      → ((a : Asset) → ((f a).id ≡ a.id) × ((f a).scan_event_id ≡ a.scan_event_id))
      → ((a : Asset) → a.scan_attempts ≤ (f a).scan_attempts)
      → update_row test f rows ≡ some after
      → P rows events requests
      → P after events requests
  pub records :
      (e : String) (events requests : List String) (rows : List Asset)
      → P rows events requests
      → P rows (e ∷ events) requests

-- What a requeue keeps, whose event is new.
abbrev pub KeepsRequeues : OnRows → Type 0
KeepsRequeues P =
    (asset_id owner event_id etag : String) (now : ℕ) (events requests : List String)
    (rows after : List Asset)
    → has_event event_id requests ≡ false
    → update_row (takes_requeue asset_id owner etag) (requeued event_id now) rows ≡ some after
    → P rows events requests
    → P after events (event_id ∷ requests)

abbrev pub At : OnRows → Tables → Type 0
At P s = P s.assets s.events s.requests

module _ (P : OnRows) (k : Keeps P) where
  -- Each statement does nothing to the rows, or what its UPDATE gives.
  claim_after-kept :
      (event_id asset_id etag : String) (s : Tables) (o : Option (List Asset))
      → At P s
      → ((rows : List Asset) → o ≡ some rows → P rows s.events s.requests)
      → At P (claim_after event_id asset_id etag s o).1
  claim_after-kept event_id asset_id etag s none p f = p
  claim_after-kept event_id asset_id etag s (some rows) p f = f rows refl

  apply_after-kept :
      (r : ScanResult) (s : Tables) (o : Option (List Asset))
      → At P s
      → ((rows : List Asset) → o ≡ some rows → P rows s.events s.requests)
      → At P (apply_after r s o).1
  apply_after-kept r s none p f = p
  apply_after-kept r s (some rows) p f = k.records r.event_id s.events s.requests rows (f rows refl)

  retry_after-kept :
      (s : Tables) (o : Option (List Asset))
      → At P s
      → ((rows : List Asset) → o ≡ some rows → P rows s.events s.requests)
      → At P (retry_after s o).1
  retry_after-kept s none p f = p
  retry_after-kept s (some rows) p f = f rows refl

  fail_after-kept :
      (r : ScanResult) (id : String) (s : Tables) (o : Option (List Asset))
      → At P s
      → ((rows : List Asset) → o ≡ some rows → P rows s.events s.requests)
      → At P (fail_after r id s o).1
  unfolding record_scan_poison
  fail_after-kept r id s none p f = p
  fail_after-kept r id s (some rows) p f =
      k.records r.event_id s.events s.requests rows (f rows refl)

  pending_after-kept :
      (id : String) (s : Tables) (o : Option (List Asset))
      → At P s
      → ((rows : List Asset) → o ≡ some rows → P rows s.events s.requests)
      → At P (pending_after id s o).1
  pending_after-kept id s none p f = p
  pending_after-kept id s (some rows) p f = f rows refl

  delay_after-kept :
      (id : String) (s : Tables) (o : Option (List Asset))
      → At P s
      → ((rows : List Asset) → o ≡ some rows → P rows s.events s.requests)
      → At P (delay_after id s o).1
  delay_after-kept id s none p f = p
  delay_after-kept id s (some rows) p f = f rows refl

  updates-kept :
      (test : Asset → Bool) (f : Asset → Asset) (s : Tables)
      → ((a : Asset) → test a ≡ true → a.scan_status ≡ scan_pending)
      → ((a : Asset) → ((f a).id ≡ a.id) × ((f a).scan_event_id ≡ a.scan_event_id))
      → ((a : Asset) → a.scan_attempts ≤ (f a).scan_attempts)
      → At P s
      → (rows : List Asset) → update_row test f s.assets ≡ some rows
      → P rows s.events s.requests
  updates-kept test f s t i n p rows e =
      k.updates test f s.events s.requests s.assets rows t i n e p

  claim_row-kept :
      (now lease : ℕ) (locked : String → Bool) (s : Tables) (o : Option Asset)
      → At P s
      → At P (claim_row now lease locked s o).1
  claim_row-kept now lease locked s none p = p
  claim_row-kept now lease locked s (some a) p = pending_after-kept a.id s _ p (
      updates-kept (is_row now locked a.id) (claimed (now + lease)) s (λ b t. ground arith)
        (λ b. (refl, refl)) (λ b. omega arith) p)

  requeue_after-kept :
      (audits : Bool) (asset_id owner event_id etag : String) (now : ℕ) (s : Tables)
      (o : Option (List Asset))
      → KeepsRequeues P
      → update_row (takes_requeue asset_id owner etag) (requeued event_id now) s.assets ≡ o
      → At P s
      → At P (requeue_after audits event_id s o).1
  requeue_after-kept audits asset_id owner event_id etag now s none q e p = p
  requeue_after-kept audits asset_id owner event_id etag now s (some rows) q e p =
      if-cases (λ (x : Result (Unit {0}) × Tables). At P x.1)
        (not (has_event event_id s.requests) && audits) _ _
        (λ t.
          q asset_id owner event_id etag now s.events s.requests s.assets rows (ground (arith, t)) e
            p)
        (λ f. p)

  requeue-kept :
      (audits : Bool) (asset_id owner : String) (r : ScanRequest) (now : ℕ) (s : Tables)
      → KeepsRequeues P
      → At P s
      → At P (requeue_failed_scan audits asset_id owner r now s).1
  unfolding requeue_failed_scan
  requeue-kept audits asset_id owner r now s q p =
      if-both (λ (x : Result (Unit {0}) × Tables). At P x.1)
        (str_eq r.event_id "" || not (str_eq r.asset_id asset_id) || str_eq r.etag "") _ _ p
        (requeue_after-kept audits asset_id owner r.event_id r.etag now s _ q refl p)

  step-kept :
      (t : ScanStep) (s : Tables)
      → (is_requeue t ≡ false) ⊎ KeepsRequeues P
      → At P s
      → At P (step t s)
  unfolding step claim_asset_scan apply_scan_result schedule_scan_retry record_scan_poison
      fail_scan_to_poison mark_poison_forwarded claim_pending_scan schedule_pending_retry
  step-kept (claims event_id asset_id etag now lease) s q p =
      claim_after-kept event_id asset_id etag s _ p (
        updates-kept (may_claim event_id asset_id etag now) (claimed (now + lease)) s
          (λ a t. ground arith) (λ a. (refl, refl)) (λ a. omega arith) p)
  step-kept (applies r) s q p =
      if-both (λ (x : Result Bool × Tables). At P x.1) (has_event r.event_id s.events) _ _ p
        (apply_after-kept r s _ p (
          updates-kept (takes_result r) (settled r.status r) s (λ a t. ground arith)
            (λ a. (refl, refl)) (λ a. omega arith) p))
  step-kept (retries asset_id expected category next) s q p = retry_after-kept s _ p (
      updates-kept (takes_retry asset_id expected) (postponed category next) s (λ a t. ground arith)
        (λ a. (refl, refl)) (λ a. omega arith) p)
  step-kept (poisons id) s q p = p
  step-kept (fails r id) s q p =
      if-both (λ (x : Result Bool × Tables). At P x.1) (has_event r.event_id s.events) _ _ p
        (fail_after-kept r id s _ p (
          updates-kept (takes_result r) (settled scan_failed r) s (λ a t. ground arith)
            (λ a. (refl, refl)) (λ a. omega arith) p))
  step-kept (marks id) s q p = p
  step-kept (takes_pending now lease locked) s q p =
      claim_row-kept now lease locked s (first_by (is_pending now locked) waits_longer s.assets) p
  step-kept (delays asset_id expected next) s q p = delay_after-kept asset_id s _ p (
      updates-kept (takes_retry asset_id expected) (delayed next) s (λ a t. ground arith)
        (λ a. (refl, refl)) (λ a. omega arith) p)
  step-kept (requeues audits asset_id owner r now) s (inl n) p = absurd (cc)
  step-kept (requeues audits asset_id owner r now) s (inr q) p =
      requeue-kept audits asset_id owner r now s q p

  -- Any statements, if the predicate outlives a requeue, and else all but a requeue.
  pub run-kept :
      (ts : List ScanStep) (s : Tables)
      → All (λ t. (is_requeue t ≡ false) ⊎ KeepsRequeues P) ts
      → At P s
      → At P (run ts s)
  unfolding run
  run-kept [] s q p = p
  run-kept (t ∷ ts) s q p = run-kept ts (step t s) q.1 (step-kept t s q.0 p)

  pub run-outlives : KeepsRequeues P → (ts : List ScanStep) (s : Tables) → At P s → At P (run ts s)
  unfolding run
  run-outlives q [] s p = p
  run-outlives q (t ∷ ts) s p = run-outlives q ts (step t s) (step-kept t s (inr q) p)
