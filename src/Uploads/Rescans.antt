-- ===== src/Uploads/Rescans.antt =====
-- The requests of an upload whose scan has a result or is requeued (internal/postgres/store.go).
use asset_api.Base.{
  String, All, if-both, ◌≡◌, refl, sym, ap, subst, Bool, true, false, ◌&&◌, ◌||◌, not, Option, none,
  some, List, ◌∷◌, arith, if-cases, str_eq, eq_iff,
}
use asset_api.Errors.{Result}
use asset_api.Statuses.{ScanStatus, scan_is, scan_pending, completed, upload_is}
use asset_api.Uploads.Store.{
  Asset, UploadSession, ScanRequest, Rows, commit_completion, has_request,
}
use asset_api.Uploads.Steps.{
  scanned, scan_row, requeued, is_requeued, requeue_row, requeue_failed_scan,
}
use asset_api.Uploads.Requested.{
  needs_scan, OfAsset, Requested, RowIsExact, IsExact, unpurged, there, new_event,
}

-- A scan that was asked for has a result.
pub scanned-Requested :
    (status : ScanStatus) (a : Asset) (requests : List ScanRequest)
    → upload_is a.upload_status completed ≡ true
    → scan_is a.scan_status scan_pending ≡ true
    → Requested (needs_scan a) a requests
    → Requested (needs_scan (scanned status a)) (scanned status a) requests
scanned-Requested status a requests c p h =
    subst (λ b. Requested b (scanned status a) requests) (sym after)
      (subst (λ b. Requested b a requests) before h)
  where
    before : needs_scan a ≡ true
    before = ground (arith, c, p)

    after : needs_scan (scanned status a) ≡ true
    after = ground (arith, c)

pub scan-IsExact :
    (status : ScanStatus) (rows : Rows) → IsExact rows → IsExact (scan_row status rows rows.upload)
scan-IsExact status rows h = found rows.upload refl
  where
    found :
        (o : Option (Asset × UploadSession)) → rows.upload ≡ o → IsExact (scan_row status rows o)
    found none e = h
    found (some (row, session)) e =
        let k = subst (λ o. RowIsExact o rows.requests) e h in
        if-cases IsExact
          (upload_is row.upload_status completed
            && scan_is row.scan_status scan_pending
            && not row.is_deleted
            && not row.is_purged)
          _ _
          (λ t. (
            k.0,
            there (scanned status row) rows.requests (
                scanned-Requested status row rows.requests (ground (arith, t)) (ground (arith, t))
                  (unpurged row rows.requests (ground (arith, t)) k.1)),
          ))
          (λ f. h)

-- A failed scan was asked for, so what is there is of the asset.
pub requeued-Requested :
    (owner : String) (r : ScanRequest) (a : Asset) (requests : List ScanRequest)
    → is_requeued owner r a ≡ true
    → has_request r.event_id requests ≡ false
    → Requested (needs_scan a) a requests
    → Requested (needs_scan (requeued r.event_id a)) (requeued r.event_id a) (r ∷ requests)
requeued-Requested owner r a requests t f h = known (needs_scan a) refl h
  where
    same : record { event_id = r.event_id; asset_id = a.id; etag = a.etag } ≡ r
    same = λ j. record { event_id = r.event_id; asset_id = asset j; etag = tag j }
      where
        asset : a.id ≡ r.asset_id
        asset = (eq_iff a.id r.asset_id).0 (ground (arith, t))

        tag : a.etag ≡ r.etag
        tag = (eq_iff a.etag r.etag).0 (ground (arith, t))

    known :
        (b : Bool)
        → needs_scan a ≡ b
        → Requested b a requests
        → Requested (needs_scan (requeued r.event_id a)) (requeued r.event_id a) (r ∷ requests)
    known false n (e, g) = absurd (ground (arith, g, t))
    known true n (older, e, d, k) =
        subst (λ b. Requested b (requeued r.event_id a) (r ∷ requests)) (sym after)
          (
            requests,
            ap (λ z. z ∷ requests) (sym same),
            (new_event r.event_id requests f, d),
            subst (All (OfAsset a)) (sym e) ((refl, refl), k),
          )
      where
        after : needs_scan (requeued r.event_id a) ≡ true
        after = ground (arith, n)

pub requeue-IsExact :
    (audits : Bool) (asset_id owner : String) (r : ScanRequest) (rows : Rows)
    → IsExact rows
    → IsExact (requeue_failed_scan audits asset_id owner r rows).1
unfolding requeue_failed_scan
requeue-IsExact audits asset_id owner r rows h =
    if-both Q (str_eq r.event_id "" || not (str_eq r.asset_id asset_id) || str_eq r.etag "") _ _ h
      (found rows.upload refl)
  where
    Q : Result (Unit {0}) × Rows → Type 0
    Q x = IsExact x.1

    found :
        (o : Option (Asset × UploadSession))
        → rows.upload ≡ o
        → Q (requeue_row audits owner r rows o)
    found none e = h
    found (some (row, session)) e =
        let k = subst (λ o. RowIsExact o rows.requests) e h in
        if-cases Q (is_requeued owner r row) _ _
          (λ t.
            if-cases
              (λ (l : Option (List ScanRequest)).
                Q (commit_completion audits (requeued r.event_id row) session rows l))
              (has_request r.event_id rows.requests) _ _ (λ f. h)
              (λ f.
                if-cases Q audits _ _
                  (λ a. (
                    k.0,
                    there (requeued r.event_id row) (r ∷ rows.requests) (
                        requeued-Requested owner r row rows.requests t f
                          (unpurged row rows.requests (ground (arith, t)) k.1)),
                  ))
                  (λ n. h)))
          (λ f. h)
