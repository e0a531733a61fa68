-- ===== src/Uploads/Requests.antt =====
-- The rows of an upload and its requests for a scan under any statements (internal/postgres/store.go).
use asset_api.Base.{
  All, Distinct, ◌≡◌, refl, sym, ◌∙◌, ap, subst, Bool, true, false, ◌&&◌, ◌||◌, not, Option, none,
  some, List, [], ◌∷◌, arith, if-cases, str_eq, eq_iff,
}
use asset_api.Errors.{Result}
use asset_api.Statuses.{completed, created, failed, upload_is}
use asset_api.Uploads.Store.{
  Asset, UploadSession, ScanRequest, Rows, complete_upload, complete_row, commit_completion,
  completed_asset, completed_session, valid_request, insert_request, event_id_of, has_request,
  fail_upload, fail_row,
}
use asset_api.Uploads.Steps.{
  Statement, completes, fails, scans, requeues, deletes, purges, step, run, mark, purged,
}
use asset_api.Uploads.Requested.{
  needs_scan, event_of, OfAsset, Requested, UnlessPurged, RowIsExact, IsExact, unpurged, there,
  unscanned, new_event,
}
use asset_api.Uploads.Rescans.{scan-IsExact, requeue-IsExact}

-- A completion of a row that is not completed.
commit-IsExact :
    (audits : Bool) (a : Asset) (s : UploadSession) (request : Option ScanRequest) (rows : Rows)
    (row : Asset) (session : UploadSession)
    → a.upload_status ≡ completed
    → s.status ≡ completed
    → str_eq row.id a.id ≡ true
    → valid_request a request ≡ true
    → rows.requests ≡ []
    → IsExact rows
    → IsExact
        (commit_completion audits
          (completed_asset a (event_id_of request) row)
          (completed_session s session)
          rows
          (insert_request request rows.requests)).1
commit-IsExact audits a s none rows row session p q i v n h =
    if-cases (λ (x : Result (Unit {0}) × Rows). IsExact x.1) audits _ _
      (λ t. (
        p ∙ sym q,
        there (completed_asset a "" row) rows.requests (
            subst (λ b. Requested b (completed_asset a "" row) rows.requests) (sym trusted)
              (n, ground (arith, v))),
      ))
      (λ f. h)
  where
    trusted : needs_scan (completed_asset a "" row) ≡ false
    trusted = ground (arith, v)
commit-IsExact audits a s (some r) rows row session p q i v n h =
    if-cases R (has_request r.event_id rows.requests) _ _ (λ t. h)
      (λ f.
        if-cases (λ (x : Result (Unit {0}) × Rows). IsExact x.1) audits _ _
          (λ t. (
            p ∙ sym q,
            there (completed_asset a r.event_id row) (r ∷ rows.requests) (
                subst (λ b. Requested b (completed_asset a r.event_id row) (r ∷ rows.requests))
                  (sym untrusted)
                  (
                    rows.requests,
                    ap (λ z. z ∷ rows.requests) (sym same),
                    (new_event r.event_id rows.requests f, nothing (Distinct event_of) tt),
                    nothing (All (OfAsset (completed_asset a r.event_id row))) tt,
                  )),
          ))
          (λ f. h))
  where
    R : Option (List ScanRequest) → Type 0
    R l =
        IsExact
          (commit_completion audits (completed_asset a r.event_id row) (completed_session s session)
            rows l).1

    nothing : (P : List ScanRequest → Type 0) → P [] → P rows.requests
    nothing P x = subst P (sym n) x

    untrusted : needs_scan (completed_asset a r.event_id row) ≡ true
    untrusted = rw p (ground (arith, v))

    same : record { event_id = r.event_id; asset_id = row.id; etag = a.etag } ≡ r
    same = λ j. record { event_id = r.event_id; asset_id = asset j; etag = tag j }
      where
        asset : row.id ≡ r.asset_id
        asset = (eq_iff row.id a.id).0 i ∙ sym ((eq_iff r.asset_id a.id).0 (ground (arith, v)))

        tag : a.etag ≡ r.etag
        tag = sym ((eq_iff r.etag a.etag).0 (ground (arith, v)))

complete-IsExact :
    (audits : Bool) (a : Asset) (s : UploadSession) (request : Option ScanRequest) (rows : Rows)
    → a.upload_status ≡ completed
    → s.status ≡ completed
    → IsExact rows
    → IsExact (complete_upload audits a s request rows).1
unfolding complete_upload
complete-IsExact audits a s request rows p q h =
    if-cases Q (valid_request a request) _ _ (λ v. found v rows.upload refl) (λ f. h)
  where
    Q : Result (Unit {0}) × Rows → Type 0
    Q x = IsExact x.1

    empty :
        (row : Asset) (session : UploadSession)
        → rows.upload ≡ some (row, session)
        → row.is_purged ≡ false
        → upload_is row.upload_status created ≡ true
        → rows.requests ≡ []
    empty row session e g t =
        (unscanned row rows.requests (ground (arith, t))
          (unpurged row rows.requests g (subst (λ o. RowIsExact o rows.requests) e h).1)).0

    found :
        valid_request a request ≡ true
        → (o : Option (Asset × UploadSession)) → rows.upload ≡ o
        → Q (complete_row audits a s request rows o)
    found v none e = h
    found v (some (row, session)) e =
        if-cases Q (row.is_purged || not (str_eq row.id a.id)) _ _ (λ t. h)
          (λ f1.
            if-cases Q (upload_is row.upload_status completed && upload_is session.status completed)
              _ _ (λ t. h)
              (λ f2.
                if-cases Q
                  (not (upload_is row.upload_status created)
                    || not (upload_is session.status created))
                  _ _ (λ t. h)
                  (λ f3.
                    commit-IsExact audits a s request rows row session p q (ground (arith, f1)) v
                      (empty row session e (ground (arith, f1)) (ground (arith, f3))) h)))

fail-IsExact : (rows : Rows) → IsExact rows → IsExact (fail_upload rows).1
unfolding fail_upload
fail-IsExact rows h = found rows.upload refl
  where
    Q : Result (Unit {0}) × Rows → Type 0
    Q x = IsExact x.1

    found : (o : Option (Asset × UploadSession)) → rows.upload ≡ o → Q (fail_row rows o)
    found none e = h
    found (some (row, session)) e =
        if-cases Q row.is_purged _ _ (λ t. h)
          (λ f1.
            if-cases Q (upload_is row.upload_status failed && upload_is session.status failed) _ _
              (λ t. h)
              (λ f2.
                if-cases Q
                  (not (upload_is row.upload_status created)
                    || not (upload_is session.status created))
                  _ _ (λ t. h)
                  (λ f3. (
                    refl,
                    there (record row { upload_status = failed }) rows.requests
                        (unscanned row rows.requests (ground (arith, f3)) (
                          unpurged row rows.requests f1
                            (subst (λ o. RowIsExact o rows.requests) e h).1)),
                  ))))

deleted-UnlessPurged :
    (b : Bool) (a : Asset) (requests : List ScanRequest)
    → UnlessPurged b a requests
    → UnlessPurged b (record a { is_deleted = true }) requests
deleted-UnlessPurged true a requests h = tt
deleted-UnlessPurged false a requests h = known (needs_scan a) h
  where
    known :
        (n : Bool) → Requested n a requests → Requested n (record a { is_deleted = true }) requests
    known true k = k
    known false k = k

marks-IsExact :
    (f : Asset → Asset) (rows : Rows)
    → ((a : Asset) → (f a).upload_status ≡ a.upload_status)
    → ((a : Asset) (requests : List ScanRequest)
        → UnlessPurged a.is_purged a requests
        → UnlessPurged (f a).is_purged (f a) requests)
    → IsExact rows
    → IsExact (record rows { upload = mark f rows.upload })
marks-IsExact f rows u r h = go rows.upload h
  where
    go :
        (o : Option (Asset × UploadSession))
        → RowIsExact o rows.requests
        → RowIsExact (mark f o) rows.requests
    go none k = k
    go (some (a, s)) k = (u a ∙ k.0, r a rows.requests k.1)

step-IsExact : (t : Statement) (rows : Rows) → IsExact rows → IsExact (step t rows)
unfolding step
step-IsExact (completes audits a s request) rows h =
    complete-IsExact audits (record a { upload_status = completed })
      (record s { status = completed }) request rows refl refl h
step-IsExact fails rows h = fail-IsExact rows h
step-IsExact (scans status) rows h = scan-IsExact status rows h
step-IsExact (requeues audits asset_id owner r) rows h =
    requeue-IsExact audits asset_id owner r rows h
step-IsExact deletes rows h =
    marks-IsExact (λ a. record a { is_deleted = true }) rows (λ a. refl)
      (λ a requests k. deleted-UnlessPurged a.is_purged a requests k) h
step-IsExact purges rows h = marks-IsExact purged rows (λ a. refl) (λ a requests k. tt) h

-- Whatever statements run over an upload, its results of scans and requeues included, the upload and its
-- session have the same status. Unless the asset is purged, a completed one that the service has not marked
-- clean itself has a request for its scan event as the newest, all its requests are under different events
-- and with its own id and tag, and any other has none and no failed scan, if it is so at the start.
pub run-IsExact : (ts : List Statement) (rows : Rows) → IsExact rows → IsExact (run ts rows)
unfolding run
run-IsExact [] rows h = h
run-IsExact (t ∷ ts) rows h = run-IsExact ts (step t rows) (step-IsExact t rows h)
