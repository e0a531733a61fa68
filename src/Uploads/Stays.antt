-- ===== src/Uploads/Stays.antt =====
-- A completed upload stays completed under any statements but a purge (internal/postgres/store.go).
use asset_api.Base.{
  String, ◌&&◌, ◌≡◌, refl, sym, ap, subst, Bool, true, false, ◌||◌, not, Option, some, List, [],
  ◌∷◌, All, if-both, str_eq,
}
use asset_api.Errors.{Result}
use asset_api.Statuses.{ScanStatus, completed, scan_is, scan_pending, upload_is}
use asset_api.Uploads.Store.{
  commit_completion, has_request, Asset, UploadSession, ScanRequest, Rows, complete_upload,
  complete_row, valid_request, fail_upload, fail_row,
}
use asset_api.Uploads.Steps.{
  Statement, completes, fails, scans, requeues, deletes, purges, step, run, mark, scanned, scan_row,
  requeued, is_requeued, requeue_row, requeue_failed_scan,
}

-- A completed upload with a predicate on its asset.
abbrev pub Done : (Asset → Type 0) → Rows → Type 0
Done R rows =
    (a : Asset) × (s : UploadSession) × (rows.upload ≡ some (a, s))
    × (a.upload_status ≡ completed)
    × (s.status ≡ completed)
    × R a

abbrev pub is_purge : Statement → Bool
is_purge purges = true
is_purge _ = false

module _ (R : Asset → Type 0) (deleted : (a : Asset) → R a → R (record a { is_deleted = true }))
    (scan : (v : ScanStatus) (a : Asset) → R a → R (scanned v a))
    (requeue : (e : String) (a : Asset) → R a → R (requeued e a)) where
  complete-Done :
      (audits : Bool) (a : Asset) (s : UploadSession) (request : Option ScanRequest) (rows : Rows)
      → Done R rows
      → (complete_upload audits a s request rows).1 ≡ rows
  unfolding complete_upload
  complete-Done audits a s request rows (row, session, e, p, q, r) =
      if-both Q (valid_request a request) _ _
        (subst (λ o. Q (complete_row audits a s request rows o)) (sym e)
          (if-both Q (row.is_purged || not (str_eq row.id a.id)) _ _ refl (rw (p, q) refl)))
        refl
    where
      Q : Result (Unit {0}) × Rows → Type 0
      Q x = x.1 ≡ rows

  fail-Done : (rows : Rows) → Done R rows → (fail_upload rows).1 ≡ rows
  unfolding fail_upload
  fail-Done rows (row, session, e, p, q, r) =
      subst (λ o. Q (fail_row rows o)) (sym e) (if-both Q row.is_purged _ _ refl (rw p refl))
    where
      Q : Result (Unit {0}) × Rows → Type 0
      Q x = x.1 ≡ rows

  scan-Done :
      (status : ScanStatus) (rows : Rows) → Done R rows → Done R (scan_row status rows rows.upload)
  scan-Done status rows (row, session, e, p, q, r) =
      subst (λ o. Done R (scan_row status rows o)) (sym e)
        (if-both (Done R)
          (upload_is row.upload_status completed
            && scan_is row.scan_status scan_pending
            && not row.is_deleted
            && not row.is_purged)
          _ _ (scanned status row, session, refl, p, q, scan status row r)
          (row, session, e, p, q, r))

  requeue-Done :
      (audits : Bool) (asset_id owner : String) (r : ScanRequest) (rows : Rows)
      → Done R rows
      → Done R (requeue_failed_scan audits asset_id owner r rows).1
  unfolding requeue_failed_scan
  requeue-Done audits asset_id owner r rows (row, session, e, p, q, x) =
      if-both Q (str_eq r.event_id "" || not (str_eq r.asset_id asset_id) || str_eq r.etag "") _ _
        same
        (subst (λ o. Q (requeue_row audits owner r rows o)) (sym e)
          (if-both Q (is_requeued owner r row) _ _
            (if-both
              (λ (l : Option (List ScanRequest)).
                Q (commit_completion audits (requeued r.event_id row) session rows l))
              (has_request r.event_id rows.requests) _ _ same
              (if-both Q audits _ _
                (requeued r.event_id row, session, refl, p, q, requeue r.event_id row x) same))
            same))
    where
      Q : Result (Unit {0}) × Rows → Type 0
      Q v = Done R v.1

      same : Done R rows
      same = (row, session, e, p, q, x)

  step-Done :
      (t : Statement) (rows : Rows) → is_purge t ≡ false → Done R rows → Done R (step t rows)
  unfolding step
  step-Done (completes audits a s request) rows n h = rw (complete-Done audits _ _ request rows h) h
  step-Done fails rows n h = rw (fail-Done rows h) h
  step-Done (scans status) rows n h = scan-Done status rows h
  step-Done (requeues audits asset_id owner r) rows n h =
      requeue-Done audits asset_id owner r rows h
  step-Done deletes rows n (a, s, e, p, q, r) = (
    record a { is_deleted = true },
    s,
    ap (mark (λ b. record b { is_deleted = true })) e,
    p,
    q,
    deleted a r,
  )
  step-Done purges rows n h = absurd (cc)

  pub run-Done :
      (ts : List Statement) (rows : Rows)
      → All (λ t. is_purge t ≡ false) ts
      → Done R rows
      → Done R (run ts rows)
  unfolding run
  run-Done [] rows n h = h
  run-Done (t ∷ ts) rows n h = run-Done ts (step t rows) n.1 (step-Done t rows n.0 h)
