-- ===== src/Scans/Job/Acked.antt =====
-- RunOnce of internal/scanqueue/job.go acknowledges its message only when the outcome is on record.
use asset_api.Base.{
  ℕ, ◌+◌, String, Bool, true, false, ◌≡◌, refl, inl, inr, Option, some, none, List, arith, if-both,
  str_eq, ◌&&◌, leb, if◌then◌else◌, update_row,
}
use asset_api.Errors.{Result, ok, err}
use asset_api.Statuses.{ScanStatus, scan_clean, scan_failed, scan_infected, scan_is}
use asset_api.Scans.Table.{
  Asset, Tables, ScanClaimState, scan_claimed, scan_busy, scan_terminal, get_asset,
  claim_asset_scan, apply_scan_result, schedule_scan_retry, record_scan_poison, fail_scan_to_poison,
  may_claim, claimed, claim_after, refused_claim, has_event,
}
use asset_api.Scans.Steps.{run}
use asset_api.Scans.Job.{
  Encounter, ScanEvent, Attempt, broken, found_clean, found_infected, over_limit, is_encrypted,
  scanner_error, acked, retried, World, run_once, claimed_work, conclude, give_back, fail_with,
  poison_with, poison_message, fail_message, apply_and_ack, ack_applied, retry_with,
  retry_after_schedule, send, with_tables, result_of, decode_event, retry_delay, reason_of,
  poison_id,
}
use asset_api.Scans.Job.Accounts.{
  send-acked, has_ack, NotAwaiting, Accounted, add_poison-Poisoned, forward-acked, fail-Poisoned,
  apply-event, silent,
}

module _ (x : Encounter) (e : ScanEvent) where
  poison-acked :
      (reason : String) (w : World)
      → has_ack w ≡ false
      → has_ack (poison_with x reason w).1 ≡ true
      → Accounted x e (poison_with x reason w).1.tables
  unfolding poison_message record_scan_poison
  poison-acked reason w n h =
      let (forward, t) = record_scan_poison (poison_id x reason) w.tables in
      inr (
        inl (
          reason,
          forward-acked x.forwards x.acks (poison_id x reason) (ok forward) (with_tables t w) n
              (λ b p. add_poison-Poisoned (poison_id x reason) w.tables.poisons) h,
        ))

  fail-acked :
      (a : Asset) (reason : String) (w : World)
      → has_ack w ≡ false
      → has_ack (fail_with x e a reason w).1 ≡ true
      → Accounted x e (fail_with x e a reason w).1.tables
  unfolding fail_message
  fail-acked a reason w n h =
      let (forward, t) =
        fail_scan_to_poison (result_of e a scan_failed reason) (poison_id x reason) w.tables in
      inr (
        inl (
          reason,
          forward-acked x.forwards x.acks (poison_id x reason) forward (with_tables t w) n
              (λ b p.
                fail-Poisoned (result_of e a scan_failed reason) (poison_id x reason) w.tables b p)
              h,
        ))

  ack_applied-acked :
      (q : Result Bool) (w : World)
      → has_ack w ≡ false
      → ((b : Bool) → q ≡ ok b → has_event e.event_id w.tables.events ≡ true)
      → has_ack (ack_applied x.acks q w).1 ≡ true
      → Accounted x e (ack_applied x.acks q w).1.tables
  ack_applied-acked (err f) w n p h = absurd (cc)
  ack_applied-acked (ok b) w n p h =
      send-acked (Accounted x e) x.acks acked w n (λ a. inl (p b refl)) h

  apply-acked :
      (a : Asset) (status : ScanStatus) (category : String) (w : World)
      → has_ack w ≡ false
      → has_ack (apply_and_ack x.acks (result_of e a status category) w).1 ≡ true
      → Accounted x e (apply_and_ack x.acks (result_of e a status category) w).1.tables
  unfolding apply_and_ack
  apply-acked a status category w n h =
      let (q, t) = apply_scan_result (result_of e a status category) w.tables in
      ack_applied-acked q (with_tables t w) n
        (λ b p. apply-event (result_of e a status category) w.tables b p) h

  retry-silent :
      (a : Asset) (category : String) (w : World)
      → has_ack w ≡ false
      → has_ack (retry_with x a category w).1 ≡ false
  unfolding retry_with
  retry-silent a category w n =
      let (r, t) =
        schedule_scan_retry a.id a.scan_attempts category (x.ended_at + retry_delay a.scan_attempts)
          w.tables in
      go r (with_tables t w) n
    where
      sent_silent :
          (b : Bool) (v : World) → has_ack v ≡ false → has_ack (send b retried v).1 ≡ false
      sent_silent true v k = k
      sent_silent false v k = k

      go :
          (r : Result (Unit {0})) (v : World)
          → has_ack v ≡ false
          → has_ack (retry_after_schedule x r v).1 ≡ false
      go (err f) v k = k
      go (ok done) v k = sent_silent x.retries v k

  give_back-acked :
      (a : Asset) (category : String) (w : World)
      → has_ack w ≡ false
      → has_ack (give_back x e a category w).1 ≡ true
      → Accounted x e (give_back x e a category w).1.tables
  give_back-acked a category w n h =
      let P = λ (v : Result (Unit {0}) × World). has_ack v.1 ≡ true → Accounted x e v.1.tables in
      let why = if x.timed_out then "attempt_timeout" else category in
      if-both P x.is_done _ _ (λ k. absurd (silent w n k))
        (if-both P (str_eq why "integrity") _ _ (fail-acked a "integrity" w n)
          (λ k. absurd (silent (retry_with x a why w).1 (retry-silent a why w n) k)))
        h

  conclude-acked :
      (a : Asset) (t : Attempt) (w : World)
      → has_ack w ≡ false
      → has_ack (conclude x e a t w).1 ≡ true
      → Accounted x e (conclude x e a t w).1.tables
  conclude-acked a (broken category) w n h = give_back-acked a category w n h
  conclude-acked a scanner_error w n h = give_back-acked a "scanner_unavailable" w n h
  conclude-acked a found_infected w n h = apply-acked a scan_infected "malware" w n h
  conclude-acked a over_limit w n h = fail-acked a "scan_limit" w n h
  conclude-acked a is_encrypted w n h = fail-acked a "encrypted" w n h
  conclude-acked a found_clean w n h =
      if-both (λ (v : Result (Unit {0}) × World). has_ack v.1 ≡ true → Accounted x e v.1.tables)
        x.is_done _ _ (λ k. absurd (silent w n k)) (apply-acked a scan_clean "" w n) h

  claimed-acked :
      (max_attempts : ℕ) (o : Option Asset) (c : ScanClaimState) (w : World)
      → has_ack w ≡ false
      → (c ≡ scan_terminal → NotAwaiting e (get_asset e.asset_id w.tables.assets))
      → has_ack (claimed_work max_attempts x e (o, c) w).1 ≡ true
      → Accounted x e (claimed_work max_attempts x e (o, c) w).1.tables
  claimed-acked m o scan_busy w n q h =
      send-acked (Accounted x e) x.retries retried w n (λ a. absurd (cc)) h
  claimed-acked m none scan_terminal w n q h =
      send-acked (Accounted x e) x.acks acked w n (λ a. inr (inr (q refl))) h
  claimed-acked m (some a) scan_terminal w n q h =
      if-both (λ (v : Result (Unit {0}) × World). has_ack v.1 ≡ true → Accounted x e v.1.tables)
        (scan_is a.scan_status scan_failed && str_eq a.scan_event_id e.event_id) _ _
        (poison-acked (reason_of a) w n)
        (send-acked (Accounted x e) x.acks acked w n (λ b. inr (inr (q refl)))) h
  claimed-acked m none scan_claimed w n q h = absurd (silent w n h)
  claimed-acked m (some a) scan_claimed w n q h =
      if-both (λ (v : Result (Unit {0}) × World). has_ack v.1 ≡ true → Accounted x e v.1.tables)
        (leb m a.scan_attempts) _ _ (fail-acked a "retry_exhausted" w n)
        (conclude-acked a x.attempt (with_tables (run x.between w.tables) w) n) h

  refused-NotAwaiting :
      (o : Option Asset) → (refused_claim e.event_id e.etag o).1 ≡ scan_terminal → NotAwaiting e o
  refused-NotAwaiting none h = tt
  refused-NotAwaiting (some a) h = ground arith

  claim-NotAwaiting :
      (now lease : ℕ) (s : Tables)
      → (claim_asset_scan e.event_id e.asset_id e.etag now lease s).0.1 ≡ scan_terminal
      → NotAwaiting e (
          get_asset e.asset_id (claim_asset_scan e.event_id e.asset_id e.etag now lease s).1.assets)
  unfolding claim_asset_scan
  claim-NotAwaiting now lease s h =
      go (update_row (may_claim e.event_id e.asset_id e.etag now) (claimed (now + lease)) s.assets)
        h
    where
      go :
          (o : Option (List Asset))
          → (claim_after e.event_id e.asset_id e.etag s o).0.1 ≡ scan_terminal
          → NotAwaiting e
              (get_asset e.asset_id (claim_after e.event_id e.asset_id e.etag s o).1.assets)
      go none p = refused-NotAwaiting (get_asset e.asset_id s.assets) p
      go (some rows) p = absurd (cc)

  -- When a run of the job acknowledges a message with a valid event, the event has a result on record, or
  -- the message is recorded as poison, or the asset is gone or awaits no scan of this event. So no
  -- requested scan is lost with its message.
  pub ack_accounts :
      (now lease max_attempts : ℕ) (w : World)
      → decode_event x.body ≡ ok e
      → has_ack w ≡ false
      → has_ack (run_once now lease max_attempts x w).1 ≡ true
      → Accounted x e (run_once now lease max_attempts x w).1.tables
  unfolding run_once
  ack_accounts now lease max_attempts w d n h =
      let (claim, t) = claim_asset_scan e.event_id e.asset_id e.etag now lease w.tables in
      rw d (
        claimed-acked max_attempts claim.0 claim.1 (with_tables t w) n
          (claim-NotAwaiting now lease w.tables) (rw d at h))
