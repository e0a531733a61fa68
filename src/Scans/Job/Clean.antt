-- ===== src/Scans/Job/Clean.antt =====
-- RunOnce of internal/scanqueue/job.go releases no asset that its scan has not found clean.
use asset_api.Base.{
  ℕ, String, Bool, ◌≢◌, refl, Option, some, none, All, if-both, str_eq, ◌&&◌, leb, if◌then◌else◌,
  inl, inr,
}
use asset_api.Errors.{Result, ok, err, Result-cases}
use asset_api.Statuses.{scan_clean, scan_failed, scan_infected, scan_is}
use asset_api.Scans.Table.{
  Asset, ScanResult, ScanClaimState, scan_claimed, scan_busy, scan_terminal, record_scan_poison,
}
use asset_api.Scans.Job.{
  Encounter, ScanEvent, Attempt, broken, found_clean, found_infected, over_limit, is_encrypted,
  scanner_error, World, run_once, claimed_work, conclude, give_back, fail_with, poison_with,
  poison_message, fail_message, apply_and_ack, ack_applied, retry_with, retry_after_schedule,
  with_tables, result_of, decode_event, reason_of, poison_id,
}
use asset_api.Scans.Job.Unclean.{
  NoneClean, claim-NoneClean, apply-NoneClean, fail-NoneClean, retry-NoneClean, send-NoneClean,
  forward-NoneClean, Unclean, run-NoneClean,
}

module _ (x : Encounter) where
  poison-NoneClean :
      (reason : String) (w : World)
      → NoneClean w.tables
      → NoneClean (poison_with x reason w).1.tables
  unfolding poison_message record_scan_poison
  poison-NoneClean reason w h =
      let (forward, t) = record_scan_poison (poison_id x reason) w.tables in
      forward-NoneClean x.forwards x.acks (poison_id x reason) (ok forward) (with_tables t w) h

  failing-NoneClean :
      (e : ScanEvent) (a : Asset) (reason : String) (w : World)
      → NoneClean w.tables
      → NoneClean (fail_with x e a reason w).1.tables
  unfolding fail_message
  failing-NoneClean e a reason w h =
      forward-NoneClean x.forwards x.acks _ _ _
        (fail-NoneClean (result_of e a scan_failed reason) _ w.tables h)

  retrying-NoneClean :
      (a : Asset) (category : String) (w : World)
      → NoneClean w.tables
      → NoneClean (retry_with x a category w).1.tables
  unfolding retry_with
  retrying-NoneClean a category w h =
      go _ _ (retry-NoneClean a.id a.scan_attempts category _ w.tables h)
    where
      go :
          (r : Result (Unit {0})) (v : World)
          → NoneClean v.tables
          → NoneClean (retry_after_schedule x r v).1.tables
      go (err e) v k = k
      go (ok done) v k = send-NoneClean x.retries _ v k

  applying-NoneClean :
      (r : ScanResult) (w : World)
      → r.status ≢ scan_clean
      → NoneClean w.tables
      → NoneClean (apply_and_ack x.acks r w).1.tables
  unfolding apply_and_ack
  applying-NoneClean r w n h = go _ _ (apply-NoneClean r w.tables n h)
    where
      go :
          (q : Result Bool) (v : World)
          → NoneClean v.tables
          → NoneClean (ack_applied x.acks q v).1.tables
      go (err e) v k = k
      go (ok fresh) v k = send-NoneClean x.acks _ v k

  giving-NoneClean :
      (e : ScanEvent) (a : Asset) (category : String) (w : World)
      → NoneClean w.tables
      → NoneClean (give_back x e a category w).1.tables
  giving-NoneClean e a category w h =
      let P = λ (v : Result (Unit {0}) × World). NoneClean v.1.tables in
      if-both P x.is_done _ _ h (
        if-both P (str_eq (if x.timed_out then "attempt_timeout" else category) "integrity") _ _
          (failing-NoneClean e a "integrity" w h)
          (retrying-NoneClean a (if x.timed_out then "attempt_timeout" else category) w h))

  conclude-NoneClean :
      (e : ScanEvent) (a : Asset) (t : Attempt) (w : World)
      → t ≢ found_clean
      → NoneClean w.tables
      → NoneClean (conclude x e a t w).1.tables
  conclude-NoneClean e a (broken category) w n h = giving-NoneClean e a category w h
  conclude-NoneClean e a scanner_error w n h = giving-NoneClean e a "scanner_unavailable" w h
  conclude-NoneClean e a found_infected w n h =
      applying-NoneClean (result_of e a scan_infected "malware") w (λ p. cc) h
  conclude-NoneClean e a over_limit w n h = failing-NoneClean e a "scan_limit" w h
  conclude-NoneClean e a is_encrypted w n h = failing-NoneClean e a "encrypted" w h
  conclude-NoneClean e a found_clean w n h = absurd (n refl)

  claimed-NoneClean :
      (max_attempts : ℕ) (e : ScanEvent) (o : Option Asset) (c : ScanClaimState) (w : World)
      → x.attempt ≢ found_clean
      → All Unclean x.between
      → NoneClean w.tables
      → NoneClean (claimed_work max_attempts x e (o, c) w).1.tables
  claimed-NoneClean m e o scan_busy w n u h = send-NoneClean x.retries _ w h
  claimed-NoneClean m e none scan_terminal w n u h = send-NoneClean x.acks _ w h
  claimed-NoneClean m e (some a) scan_terminal w n u h =
      if-both (λ (v : Result (Unit {0}) × World). NoneClean v.1.tables)
        (scan_is a.scan_status scan_failed && str_eq a.scan_event_id e.event_id) _ _
        (poison-NoneClean (reason_of a) w h) (send-NoneClean x.acks _ w h)
  claimed-NoneClean m e none scan_claimed w n u h = h
  claimed-NoneClean m e (some a) scan_claimed w n u h =
      if-both (λ (v : Result (Unit {0}) × World). NoneClean v.1.tables) (leb m a.scan_attempts) _ _
        (failing-NoneClean e a "retry_exhausted" w h)
        (conclude-NoneClean e a x.attempt _ n (run-NoneClean x.between w.tables u h))

  -- A run of the job on any message leaves no asset clean if none was before, its own scan did not find
  -- the content clean, and no other worker records a clean result meanwhile. So a failed download, an
  -- infection, a limit, an encrypted file, a scanner error and an exhausted retry never release an asset.
  pub clean_needs_scan :
      (now lease max_attempts : ℕ) (w : World)
      → x.attempt ≢ found_clean
      → All Unclean x.between
      → NoneClean w.tables
      → NoneClean (run_once now lease max_attempts x w).1.tables
  unfolding run_once
  clean_needs_scan now lease max_attempts w n u h = elim (Result-cases (decode_event x.body)) [
    | inr (f, e) ↦ rw e (poison-NoneClean "invalid_payload" w h)
    | inl (ev, e) ↦ rw e (
        claimed-NoneClean max_attempts ev _ _ _ n u
          (claim-NoneClean ev.event_id ev.asset_id ev.etag now lease w.tables h))
  ]
