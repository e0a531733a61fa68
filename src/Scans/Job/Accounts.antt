-- ===== src/Scans/Job/Accounts.antt =====
-- What the statements of a run leave of an event (internal/scanqueue/job.go): a result, or a poison record.
use asset_api.Base.{
  String, Bool, true, false, ◌≡◌, ◌≢◌, refl, ◌⊎◌, Option, some, none, List, arith, if-both,
  if-cases, str_eq, eq_refl, any, is_some, lookup, lookup-insert, ◌&&◌, update_row,
}
use asset_api.Errors.{Result, ok, err}
use asset_api.Statuses.{scan_failed, scan_is, scan_pending}
use asset_api.Scans.Table.{
  Asset, Tables, ScanResult, get_asset, apply_scan_result, record_scan_poison, fail_scan_to_poison,
  mark_poison_forwarded, mark, add_poison, takes_result, settled, apply_after, fail_after,
  has_event,
}
use asset_api.Scans.Job.{Encounter, ScanEvent, Call, acked, World, forward_and_ack, send, poison_id}

abbrev pub is_ack : Call → Bool
is_ack acked = true
is_ack _ = false

abbrev pub has_ack : World → Bool
has_ack w = any is_ack w.calls

abbrev pub Poisoned : String → Tables → Type 0
Poisoned id t = is_some (lookup id t.poisons) ≡ true

-- No scan of the event is outstanding for the asset.
abbrev pub NotAwaiting : ScanEvent → Option Asset → Type 0
NotAwaiting e none = Unit
NotAwaiting e (some a) =
    (scan_is a.scan_status scan_pending
      && str_eq a.etag e.etag
      && str_eq a.scan_event_id e.event_id)
    ≡ false

-- The event has a result, or the message is recorded as poison, or nothing awaits the event.
abbrev pub Accounted : Encounter → ScanEvent → Tables → Type 0
Accounted x e t =
    (has_event e.event_id t.events ≡ true)
    ⊎ (((reason : String) × (is_some (lookup (poison_id x reason) t.poisons) ≡ true))
        ⊎ NotAwaiting e (get_asset e.asset_id t.assets))

pub add_poison-Poisoned :
    (id : String) (ps : List (String × Bool)) → is_some (lookup id (add_poison id ps)) ≡ true
add_poison-Poisoned id ps =
    if-cases (λ (qs : List (String × Bool)). is_some (lookup id qs) ≡ true) (is_some (lookup id ps))
      _ _ (λ t. t) (λ f. rw (lookup-insert id id false ps, eq_refl id) refl)

pub mark-Poisoned :
    (id : String) (ps : List (String × Bool))
    → is_some (lookup id ps) ≡ true
    → is_some (lookup id (mark id ps)) ≡ true
mark-Poisoned id ps h =
    if-both (λ (qs : List (String × Bool)). is_some (lookup id qs) ≡ true) (is_some (lookup id ps))
      _ _ (rw (lookup-insert id id true ps, eq_refl id) refl) h

-- What a predicate on tables that holds when the queue is asked for an acknowledgement gives.
module _ (P : Tables → Type 0) where
  pub send-acked :
      (b : Bool) (c : Call) (w : World)
      → has_ack w ≡ false
      → (is_ack c ≡ true → P w.tables)
      → has_ack (send b c w).1 ≡ true
      → P (send b c w).1.tables
  send-acked true c w n p h = p (ground arith)
  send-acked false c w n p h = absurd (cc)

pub forward-acked :
    (x y : Bool) (id : String) (r : Result Bool) (w : World)
    → has_ack w ≡ false
    → ((b : Bool) → r ≡ ok b → Poisoned id w.tables)
    → has_ack (forward_and_ack x y id r w).1 ≡ true
    → Poisoned id (forward_and_ack x y id r w).1.tables
unfolding mark_poison_forwarded
forward-acked x y id (err e) w n p h = absurd (cc)
forward-acked x y id (ok false) w n p h = send-acked (Poisoned id) y acked w n (λ a. p false refl) h
forward-acked true y id (ok true) w n p h =
    send-acked (Poisoned id) y acked _ n (λ a. mark-Poisoned id w.tables.poisons (p true refl)) h
forward-acked false y id (ok true) w n p h = absurd (cc)

pub fail-Poisoned :
    (r : ScanResult) (id : String) (s : Tables) (b : Bool)
    → (fail_scan_to_poison r id s).0 ≡ ok b
    → Poisoned id (fail_scan_to_poison r id s).1
unfolding fail_scan_to_poison record_scan_poison
fail-Poisoned r id s b h =
    if-cases (λ (v : Result Bool × Tables). v.0 ≡ ok b → Poisoned id v.1)
      (has_event r.event_id s.events) _ _ (λ t p. add_poison-Poisoned id s.poisons)
      (λ f. go (update_row (takes_result r) (settled scan_failed r) s.assets)) h
  where
    go :
        (o : Option (List Asset))
        → (fail_after r id s o).0 ≡ ok b
        → Poisoned id (fail_after r id s o).1
    go none p = absurd (cc)
    go (some rows) p = add_poison-Poisoned id s.poisons

pub apply-event :
    (r : ScanResult) (s : Tables) (b : Bool)
    → (apply_scan_result r s).0 ≡ ok b
    → has_event r.event_id (apply_scan_result r s).1.events ≡ true
unfolding apply_scan_result
apply-event r s b h =
    if-cases (λ (v : Result Bool × Tables). v.0 ≡ ok b → has_event r.event_id v.1.events ≡ true)
      (has_event r.event_id s.events) _ _ (λ t p. t)
      (λ f. go (update_row (takes_result r) (settled r.status r) s.assets)) h
  where
    go :
        (o : Option (List Asset))
        → (apply_after r s o).0 ≡ ok b
        → has_event r.event_id (apply_after r s o).1.events ≡ true
    go none p = absurd (cc)
    go (some rows) p = ground (arith, eq_refl r.event_id)

pub silent : (w : World) → has_ack w ≡ false → has_ack w ≢ true
silent w n h = ground (arith, n)
