-- ===== src/Uploads/Repeats.antt =====
-- An upload that is completed can be completed again: internal/assets/service.go and
-- internal/postgres/store.go.
use asset_api.Base.{
  ◌≡◌, refl, sym, ◌∙◌, ap, subst, Bool, true, false, ◌&&◌, ◌||◌, not, Option, none, some, List, [],
  arith, All, if-cases, str_eq, eq_iff, same_codes, same_codes_refl,
}
use asset_api.Errors.{
  Error, Result, ok, err, invalid_input, not_found, conflict, unavailable, err_not_ok,
}
use asset_api.Statuses.{UploadStatus, completed, created, failed, upload_is}
use asset_api.Uploads.Policy.{NamespacePolicy, policy_for}
use asset_api.Uploads.Store.{
  Asset, UploadSession, ScanRequest, Rows, complete_upload, complete_row, commit_completion,
  completed_asset, completed_session, valid_request, insert_request, event_id_of, fail_upload,
}
use asset_api.Uploads.Steps.{Statement, run}
use asset_api.Uploads.Complete.{
  check_blob, reject_upload, completing, scan_request, record_completion, concluded, is_repeat,
  complete_read, complete_found, complete, checked_with,
}
use asset_api.Uploads.Checks.{
  BlobProperties, CompleteUploadInput, Answers, Check, rejects, stops, passes, to_lower,
}
use asset_api.Uploads.Checked.{
  IsDeclared, check_blob-lem, answered-ok, not-ok-deleted, not-ok-rejected, repeated-ok,
}
use asset_api.Uploads.Requested.{RowIsExact, IsExact}
use asset_api.Uploads.Stays.{Done, is_purge, run-Done}

-- A completion of an upload that is neither completed nor failed.
complete_upload-created :
    (audits : Bool) (a : Asset) (s : UploadSession) (request : Option ScanRequest)
    (rows after : Rows) (row : Asset) (session : UploadSession)
    → rows.upload ≡ some (row, session)
    → row.upload_status ≡ created
    → complete_upload audits a s request rows ≡ (ok tt, after)
    → after.upload ≡ some (completed_asset a (event_id_of request) row, completed_session s session)
unfolding complete_upload
complete_upload-created audits a s request rows after row session e p =
    if-cases Q (valid_request a request) _ _
      (λ v.
        subst (λ o. Q (complete_row audits a s request rows o)) (sym e)
          (if-cases Q (row.is_purged || not (str_eq row.id a.id)) _ _ (λ t. nothing not_found)
            (λ f1.
              if-cases Q
                (upload_is row.upload_status completed && upload_is session.status completed) _ _
                (λ t. absurd (ground (arith, t, p)))
                (λ f2.
                  if-cases Q
                    (not (upload_is row.upload_status created)
                      || not (upload_is session.status created))
                    _ _ (λ t. nothing conflict)
                    (λ f3. inserted (insert_request request rows.requests))))))
      (λ f. nothing invalid_input)
  where
    Q : Result (Unit {0}) × Rows → Type 0
    Q x =
        x ≡ (ok tt, after)
        → after.upload
          ≡ some (completed_asset a (event_id_of request) row, completed_session s session)

    nothing : (y : Error) → Q (err y, rows)
    nothing y h = absurd (err_not_ok y tt (ap (λ v. v.0) h))

    inserted :
        (l : Option (List ScanRequest))
        → Q (
            commit_completion audits
              (completed_asset a (event_id_of request) row)
              (completed_session s session)
              rows
              l)
    inserted none = nothing unavailable
    inserted (some requests) =
        if-cases Q audits _ _ (λ t h. sym (ap (λ v. v.1.upload) h)) (λ f. nothing unavailable)

-- An asset that was declared like this and is not purged.
abbrev Kept : CompleteUploadInput → Asset → Type 0
Kept input a = IsDeclared input a × (a.is_purged ≡ false)

module _ (x : Answers) (input : CompleteUploadInput) (trusted : Bool) (rows after : Rows)
    (a : Asset) (alone : x.between ≡ []) where
  concluded-Done :
      (b : Asset) (s : UploadSession) (p : NamespacePolicy) (c : Check BlobProperties)
      → rows.upload ≡ some (b, s)
      → b.upload_status ≡ created
      → b.is_purged ≡ false
      → check_blob x p b s input ≡ c
      → concluded x b s trusted rows (some c) ≡ (ok a, after)
      → Done (Kept input) after
  unfolding reject_upload record_completion run
  concluded-Done b s p rejects u i n q h =
      absurd (not-ok-rejected x (fail_upload (run x.between rows)) a (ap (λ v. v.0) h))
  concluded-Done b s p (stops y) u i n q h = absurd (cc)
  concluded-Done b s p (passes c) u i n q h =
      let (d, k) = answered-ok x (completing b trusted c) a _ after h in
      let (f, g, m, z) = check_blob-lem x p b s input c q in
      let request = scan_request x (completing b trusted c) trusted in
      let l =
        complete_upload-created x.audits (completing b trusted c) (record s { status = completed })
          request (run x.between rows) after b s (ap (λ ts. (run ts rows).upload) alone ∙ u) i k in
      (
        completed_asset (completing b trusted c) (event_id_of request) b,
        completed_session (record s { status = completed }) s,
        l,
        refl,
        refl,
        ((f, g, m), n),
      )

  complete_read-Done :
      (b : Asset) (s : UploadSession) (status : UploadStatus)
      → rows.upload ≡ some (b, s)
      → b.upload_status ≡ status
      → s.status ≡ status
      → b.is_purged ≡ false
      → complete_read x input trusted rows b s status ≡ (ok a, after)
      → Done (Kept input) after
  unfolding reject_upload record_completion run
  complete_read-Done b s completed u i j n h =
      let (d, t, k) = repeated-ok x b a input rows after h in
      (b, s, ap (λ v. v.upload) (sym k) ∙ u, i, j, (t, n))
  complete_read-Done b s failed u i j n h = absurd (not-ok-deleted x rows a (ap (λ v. v.0) h))
  complete_read-Done b s created u i j n h = checked (policy_for b.namespace) refl h
    where
      checked :
          (o : Option NamespacePolicy)
          → policy_for b.namespace ≡ o
          → concluded x b s trusted rows (checked_with x b s input o) ≡ (ok a, after)
          → Done (Kept input) after
      checked none g h = absurd (cc)
      checked (some p) g h = concluded-Done b s p _ u i n refl h

  complete_found-Done :
      (o : Option (Asset × UploadSession))
      → IsExact rows
      → rows.upload ≡ o
      → complete_found x input trusted rows o ≡ (ok a, after)
      → Done (Kept input) after
  unfolding complete reject_upload record_completion run
  complete_found-Done none exact u h = absurd (cc)
  complete_found-Done (some (b, s)) exact u h =
      if-cases (λ v. v ≡ (ok a, after) → Done (Kept input) after) b.is_purged _ _
        (λ t h. absurd (cc))
        (λ f h.
          complete_read-Done b s s.status u (subst (λ v. RowIsExact v rows.requests) u exact).0 refl
            f h)
        h

  complete-Done :
      IsExact rows → complete x input trusted rows ≡ (ok a, after) → Done (Kept input) after
  unfolding complete
  complete-Done exact e = complete_found-Done rows.upload exact refl e

repeat_again :
    (y : Answers) (input : CompleteUploadInput) (again : Bool) (rows : Rows) (b : Asset)
    (s : UploadSession)
    → rows.upload ≡ some (b, s)
    → s.status ≡ completed
    → Kept input b
    → y.deletes_staging ≡ true
    → complete y input again rows ≡ (ok b, rows)
unfolding complete
repeat_again y input again rows b s u i (d, n) t = rw (u, n, i, repeats, t) refl
  where
    same_sum : same_codes b.checksum (to_lower input.checksum) ≡ true
    same_sum =
        subst (λ v. same_codes v (to_lower input.checksum) ≡ true) (sym d.1)
          (same_codes_refl (to_lower input.checksum))

    same_type : str_eq b.detected_mime input.mime_type ≡ true
    same_type = (eq_iff b.detected_mime input.mime_type).1 d.2

    repeats : is_repeat b input ≡ true
    repeats = ground (arith, d.0, same_sum, same_type)

-- A call that has completed an upload, with no statement of another call between its own, can be repeated
-- with the same values after any statements but a purge: it succeeds again, whatever the blob store and
-- the media checks answer, if the staged blob can be deleted, it returns an asset with the declared values,
-- and it changes nothing.
pub complete_repeats :
    (x y : Answers) (input : CompleteUploadInput) (trusted again : Bool) (rows after : Rows)
    (a : Asset) (ts : List Statement)
    → x.between ≡ []
    → IsExact rows
    → complete x input trusted rows ≡ (ok a, after)
    → All (λ t. is_purge t ≡ false) ts
    → y.deletes_staging ≡ true
    → (b : Asset) × (complete y input again (run ts after) ≡ (ok b, run ts after))
      × IsDeclared input b
complete_repeats x y input trusted again rows after a ts alone exact e n t =
    let (b, s, u, i, j, k) =
      run-Done (Kept input) (λ c r. r) (λ v c r. r) (λ e c r. r) ts after n
        (complete-Done x input trusted rows after a alone exact e) in
    (b, repeat_again y input again (run ts after) b s u j k t, k.0)
