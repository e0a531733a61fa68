-- ===== src/Scans/Job/Unclean.antt =====
-- The statements over scans leave no asset clean, unless one of them records a clean result
-- (internal/postgres/store.go).
use asset_api.Base.{
  first_by, ◌||◌, not, ℕ, ◌+◌, String, Bool, true, false, ◌≡◌, ◌≢◌, refl, Option, some, none, List,
  [], ◌∷◌, All, if-both, str_eq, ◌&&◌, All-update_row, update_row,
}
use asset_api.Errors.{Result, ok, err}
use asset_api.Statuses.{scan_clean, scan_failed}
use asset_api.Scans.Table.{
  Asset, Tables, ScanResult, claim_asset_scan, apply_scan_result, schedule_scan_retry,
  record_scan_poison, fail_scan_to_poison, mark_poison_forwarded, may_claim, claimed, takes_result,
  settled, takes_retry, postponed, claim_after, apply_after, retry_after, fail_after, has_event,
}
use asset_api.Scans.Steps.{
  ScanStep, claims, applies, retries, poisons, fails, marks, takes_pending, delays, requeues, step,
  run,
}
use asset_api.Uploads.Store.{ScanRequest}
use asset_api.Scans.Requeue.{
  claim_pending_scan, schedule_pending_retry, requeue_failed_scan, takes_requeue, requeued,
  requeue_after, pending_after, delay_after, delayed, is_row, is_pending, waits_longer, claim_row,
}
use asset_api.Scans.Job.{World, forward_and_ack, send}

abbrev pub NotClean : Asset → Type 0
NotClean a = a.scan_status ≢ scan_clean

abbrev pub NoneClean : Tables → Type 0
NoneClean s = All (λ a. a.scan_status ≢ scan_clean) s.assets

pub claim-NoneClean :
    (event_id asset_id etag : String) (now lease : ℕ) (s : Tables)
    → NoneClean s
    → NoneClean (claim_asset_scan event_id asset_id etag now lease s).1
unfolding claim_asset_scan
claim-NoneClean event_id asset_id etag now lease s h =
    go (update_row (may_claim event_id asset_id etag now) (claimed (now + lease)) s.assets)
      (λ rows e. All-update_row NotClean _ _ s.assets rows (λ a t q. q) e h)
  where
    go :
        (o : Option (List Asset))
        → ((rows : List Asset) → o ≡ some rows → All NotClean rows)
        → NoneClean (claim_after event_id asset_id etag s o).1
    go none f = h
    go (some rows) f = f rows refl

pub apply-NoneClean :
    (r : ScanResult) (s : Tables)
    → r.status ≢ scan_clean
    → NoneClean s
    → NoneClean (apply_scan_result r s).1
unfolding apply_scan_result
apply-NoneClean r s n h =
    if-both (λ (x : Result Bool × Tables). NoneClean x.1) (has_event r.event_id s.events) _ _ h
      (go (update_row (takes_result r) (settled r.status r) s.assets)
        (λ rows e. All-update_row NotClean _ _ s.assets rows (λ a t q. n) e h))
  where
    go :
        (o : Option (List Asset))
        → ((rows : List Asset) → o ≡ some rows → All NotClean rows)
        → NoneClean (apply_after r s o).1
    go none f = h
    go (some rows) f = f rows refl

pub fail-NoneClean :
    (r : ScanResult) (id : String) (s : Tables)
    → NoneClean s
    → NoneClean (fail_scan_to_poison r id s).1
unfolding fail_scan_to_poison record_scan_poison
fail-NoneClean r id s h =
    if-both (λ (x : Result Bool × Tables). NoneClean x.1) (has_event r.event_id s.events) _ _ h
      (go (update_row (takes_result r) (settled scan_failed r) s.assets)
        (λ rows e. All-update_row NotClean _ _ s.assets rows (λ a t q. λ p. cc) e h))
  where
    go :
        (o : Option (List Asset))
        → ((rows : List Asset) → o ≡ some rows → All NotClean rows)
        → NoneClean (fail_after r id s o).1
    go none f = h
    go (some rows) f = f rows refl

pub retry-NoneClean :
    (id : String) (n : ℕ) (category : String) (next : ℕ) (s : Tables)
    → NoneClean s
    → NoneClean (schedule_scan_retry id n category next s).1
unfolding schedule_scan_retry
retry-NoneClean id n category next s h =
    go (update_row (takes_retry id n) (postponed category next) s.assets)
      (λ rows e. All-update_row NotClean _ _ s.assets rows (λ a t q. q) e h)
  where
    go :
        (o : Option (List Asset))
        → ((rows : List Asset) → o ≡ some rows → All NotClean rows)
        → NoneClean (retry_after s o).1
    go none f = h
    go (some rows) f = f rows refl

pub send-NoneClean :
    (b : Bool) (c : _) (w : World) → NoneClean w.tables → NoneClean (send b c w).1.tables
send-NoneClean true c w h = h
send-NoneClean false c w h = h

pub forward-NoneClean :
    (x y : Bool) (p : String) (r : Result Bool) (w : World)
    → NoneClean w.tables
    → NoneClean (forward_and_ack x y p r w).1.tables
unfolding mark_poison_forwarded
forward-NoneClean x y p (err e) w h = h
forward-NoneClean x y p (ok false) w h = send-NoneClean y _ w h
forward-NoneClean true y p (ok true) w h = send-NoneClean y _ _ h
forward-NoneClean false y p (ok true) w h = h

pub take-NoneClean :
    (now lease : ℕ) (locked : String → Bool) (s : Tables) (o : Option Asset)
    → NoneClean s
    → NoneClean (claim_row now lease locked s o).1
take-NoneClean now lease locked s none h = h
take-NoneClean now lease locked s (some a) h =
    go (update_row (is_row now locked a.id) (claimed (now + lease)) s.assets)
      (λ rows e. All-update_row NotClean _ _ s.assets rows (λ b t q. q) e h)
  where
    go :
        (o : Option (List Asset))
        → ((rows : List Asset) → o ≡ some rows → All NotClean rows)
        → NoneClean (pending_after a.id s o).1
    go none f = h
    go (some rows) f = f rows refl

pub delay-NoneClean :
    (id : String) (n next : ℕ) (s : Tables)
    → NoneClean s
    → NoneClean (schedule_pending_retry id n next s).1
unfolding schedule_pending_retry
delay-NoneClean id n next s h =
    go (update_row (takes_retry id n) (delayed next) s.assets)
      (λ rows e. All-update_row NotClean _ _ s.assets rows (λ b t q. q) e h)
  where
    go :
        (o : Option (List Asset))
        → ((rows : List Asset) → o ≡ some rows → All NotClean rows)
        → NoneClean (delay_after id s o).1
    go none f = h
    go (some rows) f = f rows refl

pub requeue-NoneClean :
    (audits : Bool) (id owner : String) (r : ScanRequest) (now : ℕ) (s : Tables)
    → NoneClean s
    → NoneClean (requeue_failed_scan audits id owner r now s).1
unfolding requeue_failed_scan
requeue-NoneClean audits id owner r now s h =
    if-both (λ (x : Result (Unit {0}) × Tables). NoneClean x.1)
      (str_eq r.event_id "" || not (str_eq r.asset_id id) || str_eq r.etag "") _ _ h
      (go (update_row (takes_requeue id owner r.etag) (requeued r.event_id now) s.assets)
        (λ rows e. All-update_row NotClean _ _ s.assets rows (λ b t q. λ p. cc) e h))
  where
    go :
        (o : Option (List Asset))
        → ((rows : List Asset) → o ≡ some rows → All NotClean rows)
        → NoneClean (requeue_after audits r.event_id s o).1
    go none f = h
    go (some rows) f =
        if-both (λ (x : Result (Unit {0}) × Tables). NoneClean x.1)
          (not (has_event r.event_id s.requests) && audits) _ _ (f rows refl) h

-- The statement records no clean result.
abbrev pub Unclean : ScanStep → Type 0
Unclean (applies r) = r.status ≢ scan_clean
Unclean _ = Unit

pub step-NoneClean : (t : ScanStep) (s : Tables) → Unclean t → NoneClean s → NoneClean (step t s)
unfolding step record_scan_poison mark_poison_forwarded claim_pending_scan
step-NoneClean (claims event_id asset_id etag now lease) s u h =
    claim-NoneClean event_id asset_id etag now lease s h
step-NoneClean (applies r) s u h = apply-NoneClean r s u h
step-NoneClean (retries id n category next) s u h = retry-NoneClean id n category next s h
step-NoneClean (poisons id) s u h = h
step-NoneClean (fails r id) s u h = fail-NoneClean r id s h
step-NoneClean (marks id) s u h = h
step-NoneClean (takes_pending now lease locked) s u h =
    take-NoneClean now lease locked s (first_by (is_pending now locked) waits_longer s.assets) h
step-NoneClean (delays id n next) s u h = delay-NoneClean id n next s h
step-NoneClean (requeues audits id owner r now) s u h = requeue-NoneClean audits id owner r now s h

pub run-NoneClean :
    (ts : List ScanStep) (s : Tables) → All Unclean ts → NoneClean s → NoneClean (run ts s)
unfolding run
run-NoneClean [] s u h = h
run-NoneClean (t ∷ ts) s u h = run-NoneClean ts (step t s) u.1 (step-NoneClean t s u.0 h)
