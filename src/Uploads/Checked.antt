-- ===== src/Uploads/Checked.antt =====
-- What a completed upload returns, and that it can be completed again: internal/assets/service.go and
-- internal/postgres/store.go.
use asset_api.Base.{
  same_codes_eq, ℕ, ◌≤◌, ◌≡◌, ◌≢◌, refl, ◌∙◌, ap, subst, inl, inr, Bool, true, false, ◌&&◌, Option,
  none, some, List, arith, Bool-cases, if-cases, eq_iff,
}
use asset_api.Errors.{Result, ok, err, invalid_upload, unavailable, err_not_ok, ok_injective}
use asset_api.Statuses.{UploadStatus, completed, created, failed}
use asset_api.Uploads.Policy.{NamespacePolicy}
use asset_api.Uploads.Store.{Asset, UploadSession, Rows, fail_upload}
use asset_api.Uploads.Steps.{run}
use asset_api.Uploads.Complete.{
  check_blob, deleted_objects, rejected, reject_upload, completing, answered, record_completion,
  concluded, is_repeat, repeated, complete_read, complete_found, complete, checked_with,
}
use asset_api.Uploads.Checks.{
  BlobMetadata, BlobProperties, CompleteUploadInput, Answers, Check, rejects, stops, passes, ◌>>>◌,
  require, calls, calls_or_rejects, to_lower, equal_fold, source_of, is_in_time, fits_limits,
  check_deck, check_image, is_declared, with_mime, commit_blob, is_same_blob, observed_as,
}

-- What is returned is what was declared.
abbrev pub IsDeclared : CompleteUploadInput → Asset → Type 0
IsDeclared input a =
    (a.size_bytes ≡ input.size_bytes)
    × (a.checksum ≡ to_lower input.checksum)
    × (a.detected_mime ≡ input.mime_type)

abbrev pub IsWithin : UploadSession → BlobProperties → Type 0
IsWithin s c = (1 ≤ c.size) × (c.size ≤ s.max_size_bytes)

passes-inv :
    {V : Type 0} {W : Type 0} (m : Check V) (next : V → Check W) {w : W}
    → (m >>> next) ≡ passes w
    → (v : V) × (m ≡ passes v) × (next v ≡ passes w)
passes-inv rejects next p = absurd (cc)
passes-inv (stops e) next p = absurd (cc)
passes-inv (passes v) next p = (v, refl, p)

passes_injective : {V : Type 0} {v w : V} → passes v ≡ passes w → v ≡ w
passes_injective e = cc

require-inv : (test : Bool) {u : Unit {0}} → require test ≡ passes u → test ≡ true
require-inv true p = refl
require-inv false p = absurd (cc)

equal_fold_eq : (a b : List ℕ) → equal_fold a b ≡ true → to_lower a ≡ to_lower b
unfolding equal_fold
equal_fold_eq a b h = same_codes_eq (to_lower a) (to_lower b) h

same_lem :
    (c b : BlobProperties)
    → is_same_blob c b ≡ true
    → (c.size ≡ b.size)
      × (to_lower c.checksum ≡ to_lower b.checksum)
      × (c.detected_mime ≡ b.detected_mime)
same_lem c b h = (
  ground (arith, h),
  equal_fold_eq c.checksum b.checksum (ground (arith, h)),
  (eq_iff c.detected_mime b.detected_mime).0 (ground (arith, h)),
)

declared_lem :
    (m : BlobMetadata) (b : BlobProperties) (input : CompleteUploadInput)
    → is_declared m b input ≡ true
    → (b.size ≡ input.size_bytes)
      × (to_lower b.checksum ≡ to_lower input.checksum)
      × (b.detected_mime ≡ input.mime_type)
declared_lem m b input h = (
  ground (arith, h),
  equal_fold_eq b.checksum input.checksum (ground (arith, h)),
  (eq_iff b.detected_mime input.mime_type).0 (ground (arith, h)),
)

within_lem :
    (p : NamespacePolicy) (a : Asset) (s : UploadSession) (m : BlobMetadata) (b c : BlobProperties)
    (input : CompleteUploadInput)
    → fits_limits p a s m ≡ true
    → is_declared m b input ≡ true
    → c.size ≡ b.size
    → IsWithin s c
within_lem p a s m b c input f d q =
    let x : b.size ≡ m.size = ground (arith, d) in
    let y : 1 ≤ m.size = ground (arith, f) in
    let z : m.size ≤ s.max_size_bytes = ground (arith, f) in
    (omega (arith, x, y, q), omega (arith, x, z, q))

-- What passes the checks is what was declared, within the limits.
pub check_blob-lem :
    (x : Answers) (p : NamespacePolicy) (a : Asset) (s : UploadSession)
    (input : CompleteUploadInput) (c : BlobProperties)
    → check_blob x p a s input ≡ passes c
    → (c.size ≡ input.size_bytes)
      × (to_lower c.checksum ≡ to_lower input.checksum)
      × (c.detected_mime ≡ input.mime_type)
      × IsWithin s c
unfolding check_blob
check_blob-lem x p a s input c e =
    let (m, e0, e1) = passes-inv (source_of x) _ e in
    let (u1, f1, e2) = passes-inv (require (is_in_time x s m.1)) _ e1 in
    let (u2, f2, e3) = passes-inv (require (fits_limits p a s m.0)) _ e2 in
    let (o, f3, e4) = passes-inv (calls x.observed) _ e3 in
    let (mime, f4, e5) = passes-inv (calls_or_rejects x.detected) _ e4 in
    let (u5, f5, e6) = passes-inv (check_deck x a) _ e5 in
    let (u6, f6, e7) = passes-inv (check_image x p) _ e6 in
    let b = observed_as o mime in
    let (u7, f7, e8) = passes-inv (require (is_declared m.0 b input)) _ e7 in
    let (d, f8, e9) = passes-inv (commit_blob x m.1 b) _ e8 in
    let (u9, f9, e10) = passes-inv (require (is_same_blob (with_mime d b) b)) _ e9 in
    let q = passes_injective e10 in
    let same = subst (λ v. is_same_blob v b ≡ true) q (require-inv _ f9) in
    let declared = require-inv (is_declared m.0 b input) f7 in
    let fits = require-inv (fits_limits p a s m.0) f2 in
    let (k1, k2, k3) = same_lem c b same in
    let (l1, l2, l3) = declared_lem m.0 b input declared in
    (k1 ∙ l1, k2 ∙ l2, k3 ∙ l3, within_lem p a s m.0 b c input fits declared k1)

-- The answer of the last statement of a completion.
pub answered-ok :
    (x : Answers) (b a : Asset) (r : Result (Unit {0}) × Rows) (after : Rows)
    → answered x b r ≡ (ok a, after)
    → (b ≡ a) × (r ≡ (ok tt, after))
answered-ok x b a (err e, rows) after h = absurd (cc)
answered-ok x b a (ok u, rows) after h = elim (Bool-cases x.deletes_staging) [
  | inl t ↦ let q = rw t at h in (ok_injective (ap (λ v. v.0) q), λ i. (ok u, (ap (λ v. v.1) q) i))
  | inr f ↦ absurd (err_not_ok unavailable a (ap (λ v. v.0) (rw f at h)))
]

pub not-ok-deleted : (x : Answers) (rows : Rows) (a : Asset) → (deleted_objects x rows).0 ≢ ok a
not-ok-deleted x rows a =
    if-cases (λ (v : Result Asset × Rows). v.0 ≢ ok a) (x.deletes_staging && x.deletes_object) _ _
      (λ t. err_not_ok invalid_upload a) (λ f. err_not_ok unavailable a)

pub not-ok-rejected :
    (x : Answers) (r : Result (Unit {0}) × Rows) (a : Asset) → (rejected x r).0 ≢ ok a
not-ok-rejected x (err e, rows) a q = err_not_ok e a q
not-ok-rejected x (ok u, rows) a q = not-ok-deleted x rows a q

repeat_lem :
    (b : Asset) (input : CompleteUploadInput) → is_repeat b input ≡ true → IsDeclared input b
repeat_lem b input h = (
  ground (arith, h),
  same_codes_eq b.checksum (to_lower input.checksum) (ground (arith, h)),
  (eq_iff b.detected_mime input.mime_type).0 (ground (arith, h)),
)

pub repeated-ok :
    (x : Answers) (b a : Asset) (input : CompleteUploadInput) (rows after : Rows)
    → repeated x b input rows ≡ (ok a, after)
    → (b ≡ a) × IsDeclared input b × (rows ≡ after)
repeated-ok x b a input rows after =
    if-cases Q (is_repeat b input) _ _
      (λ r.
        if-cases Q x.deletes_staging _ _
          (λ t h. (ok_injective (ap (λ v. v.0) h), repeat_lem b input r, ap (λ v. v.1) h))
          (λ f h. absurd (err_not_ok unavailable a (ap (λ v. v.0) h))))
      (λ f h. absurd (err_not_ok invalid_upload a (ap (λ v. v.0) h)))
  where
    Q : Result Asset × Rows → Type 0
    Q v = v ≡ (ok a, after) → (b ≡ a) × IsDeclared input b × (rows ≡ after)

-- An upload that is completed answers with what was declared: the size, the checksum in lower case and the
-- media type of the asset that is returned are those of the request, whether the upload was completed by
-- this call or before.
pub complete-IsDeclared :
    (x : Answers) (input : CompleteUploadInput) (trusted : Bool) (rows after : Rows) (a : Asset)
    → complete x input trusted rows ≡ (ok a, after)
    → IsDeclared input a
unfolding complete reject_upload record_completion
complete-IsDeclared x input trusted rows after a e = found rows.upload e
  where
    recorded :
        (b : Asset) (s : UploadSession) (p : NamespacePolicy) (c : Check BlobProperties)
        → check_blob x p b s input ≡ c
        → concluded x b s trusted rows (some c) ≡ (ok a, after)
        → IsDeclared input a
    recorded b s p rejects q h =
        absurd (not-ok-rejected x (fail_upload (run x.between rows)) a (ap (λ v. v.0) h))
    recorded b s p (stops y) q h = absurd (cc)
    recorded b s p (passes c) q h =
        let (d, k) = answered-ok x (completing b trusted c) a _ after h in
        let (u, v, w, z) = check_blob-lem x p b s input c q in subst (IsDeclared input) d (u, v, w)

    checked :
        (b : Asset) (s : UploadSession) (o : Option NamespacePolicy)
        → concluded x b s trusted rows (checked_with x b s input o) ≡ (ok a, after)
        → IsDeclared input a
    checked b s none h = absurd (cc)
    checked b s (some p) h = recorded b s p _ refl h

    read :
        (b : Asset) (s : UploadSession) (status : UploadStatus)
        → complete_read x input trusted rows b s status ≡ (ok a, after)
        → IsDeclared input a
    read b s completed h =
        let (d, t, k) = repeated-ok x b a input rows after h in subst (IsDeclared input) d t
    read b s failed h = absurd (not-ok-deleted x rows a (ap (λ v. v.0) h))
    read b s created h = checked b s _ h

    found :
        (o : Option (Asset × UploadSession))
        → complete_found x input trusted rows o ≡ (ok a, after)
        → IsDeclared input a
    found none h = absurd (cc)
    found (some (b, s)) h =
        if-cases (λ v. v ≡ (ok a, after) → IsDeclared input a) b.is_purged _ _ (λ t h. absurd (cc))
          (λ f h. read b s s.status h) h
