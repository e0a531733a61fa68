-- ===== src/Scans/Verdicts.antt =====
-- What the statements of a scan promise: one result for each event, a verdict that stands, and no
-- result from a worker whose claim was taken over (internal/postgres/store.go).
use asset_api.Base.{
  All, All-mono, inl, inr, ◌⊎◌, String, Bool, true, false, ◌≡◌, ◌≢◌, refl, sym, ◌∙◌, ap, Option,
  some, none, List, arith, eq_refl, if-cases, update_row, Holds, Holds-update_row,
}
use asset_api.Errors.{Result, ok}
use asset_api.Statuses.{ScanStatus, scan_pending, scan_clean, scan_infected, scan_failed}
use asset_api.Scans.Table.{
  asset_key, Asset, Tables, ScanResult, find_asset, apply_scan_result, takes_result, settled,
  has_event, apply_after,
}
use asset_api.Scans.Requeue.{takes_requeue, requeued}
use asset_api.Scans.Steps.{
  ScanStep, run, is_requeue, OnRows, Keeps, KeepsRequeues, run-kept, run-outlives,
}

abbrev HasVerdict : String → ScanStatus → OnRows
HasVerdict id v rows events requests = Holds asset_key id (λ a. a.scan_status ≡ v) rows

Verdict-Keeps : (id : String) (v : ScanStatus) → v ≢ scan_pending → Keeps (HasVerdict id v)
Verdict-Keeps id v n = record {
  updates = λ test f events requests rows after t i m e h.
      Holds-update_row asset_key id (λ a. a.scan_status ≡ v) test f (λ a. (i a).0)
        (λ a x y. absurd (n (sym y ∙ t a x))) rows after e h;
  records = λ e events requests rows h. h;
}

-- Only a failed scan is requeued.
Verdict-KeepsRequeues :
    (id : String) (v : ScanStatus) → v ≢ scan_failed → KeepsRequeues (HasVerdict id v)
Verdict-KeepsRequeues id v n asset_id owner event_id etag now events requests rows after x e h =
    Holds-update_row asset_key id (λ a. a.scan_status ≡ v) (takes_requeue asset_id owner etag)
      (requeued event_id now) (λ a. refl) (λ a t y. absurd (n (sym y ∙ failed_before a t))) rows
      after e h
  where
    failed_before :
        (a : Asset) → takes_requeue asset_id owner etag a ≡ true → a.scan_status ≡ scan_failed
    failed_before a t = ground (arith, t)

failed_or_not : (v : ScanStatus) → (v ≡ scan_failed) ⊎ (v ≢ scan_failed)
failed_or_not scan_pending = inr (λ e. cc)
failed_or_not scan_clean = inr (λ e. cc)
failed_or_not scan_infected = inr (λ e. cc)
failed_or_not scan_failed = inl refl

-- The verdict of a scan stands: once an asset is no longer pending, no statement over scans changes its
-- scan status, if it is clean or infected; and if it has failed, none but a requeue does.
pub verdict_stands :
    (id : String) (ts : List ScanStep) (s : Tables) (a : Asset)
    → find_asset id s.assets ≡ some a
    → a.scan_status ≢ scan_pending
    → (a.scan_status ≡ scan_failed → All (λ t. is_requeue t ≡ false) ts)
    → (b : Asset) × (find_asset id (run ts s).assets ≡ some b) × (b.scan_status ≡ a.scan_status)
verdict_stands id ts s a g n q = elim (failed_or_not a.scan_status) [
  | inl f ↦
      run-kept (HasVerdict id a.scan_status) (Verdict-Keeps id a.scan_status n) ts s
        (All-mono (λ t. is_requeue t ≡ false) _ ts (λ t x. inl x) (q f)) (a, g, refl)
  | inr f ↦
      run-outlives (HasVerdict id a.scan_status) (Verdict-Keeps id a.scan_status n)
        (Verdict-KeepsRequeues id a.scan_status f) ts s (a, g, refl)
]

abbrev HasResult : String → OnRows
HasResult e rows events requests = has_event e events ≡ true

Event-Keeps : (e : String) → Keeps (HasResult e)
Event-Keeps e = record {
  updates = λ test f events requests rows after t i m u h. h;
  records = λ x events requests rows h. ground (arith, h);
}

applied-event :
    (r : ScanResult) (s : Tables) (o : Option (List Asset))
    → (apply_after r s o).0 ≡ ok true
    → has_event r.event_id (apply_after r s o).1.events ≡ true
applied-event r s none h = absurd (cc)
applied-event r s (some rows) h = ground (arith, eq_refl r.event_id)

pub recorded :
    (r : ScanResult) (s : Tables)
    → (apply_scan_result r s).0 ≡ ok true
    → has_event r.event_id (apply_scan_result r s).1.events ≡ true
unfolding apply_scan_result
recorded r s h =
    if-cases (λ (x : Result Bool × Tables). x.0 ≡ ok true → has_event r.event_id x.1.events ≡ true)
      (has_event r.event_id s.events) _ _ (λ t p. t)
      (λ t. applied-event r s (update_row (takes_result r) (settled r.status r) s.assets)) h

-- A result that was recorded is recorded once: after any other statements, the same event's result,
-- whatever it says, is answered with false and changes nothing.
pub result_once :
    (r : ScanResult) (s : Tables) (ts : List ScanStep) (other : ScanResult)
    → (apply_scan_result r s).0 ≡ ok true
    → other.event_id ≡ r.event_id
    → apply_scan_result other (run ts (apply_scan_result r s).1)
      ≡ (ok false, run ts (apply_scan_result r s).1)
unfolding apply_scan_result
result_once r s ts other h same =
    let b =
      run-outlives (HasResult r.event_id) (Event-Keeps r.event_id)
        (λ a o e g n events requests rows after x u k. k) ts (apply_scan_result r s).1
        (recorded r s h) in
    rw (ap (λ e. has_event e (run ts (apply_scan_result r s).1).events) same ∙ b) refl
