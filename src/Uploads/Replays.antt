-- ===== src/Uploads/Replays.antt =====
-- What replayUpload answers: internal/assets/service.go.
use asset_api.Base.{
  String, ◌≡◌, refl, sym, ap, ◌∙◌, subst, true, ◌&&◌, ◌||◌, none, some, List, [], ◌∷◌, map, inl,
  inr, arith, str_eq, eq_iff, if◌then◌else◌, if-cases, Bool-cases, ltb, some_injective, not,
}
use asset_api.Errors.{Result, ok, err, ok_injective, unavailable}
use asset_api.Statuses.{created, failed, upload_is}
use asset_api.Uploads.Store.{Asset, UploadSession}
use asset_api.Uploads.Create.{
  Upload, CreateAnswers, CreatedUpload, is_upload, find_upload, signed, replayed, replay_found,
}

-- The columns that no statement changes.
abbrev pub Keeps : (Upload → Upload) → Type 0
Keeps f =
    (u : Upload)
    → ((f u).1.caller_service ≡ u.1.caller_service)
      × ((f u).1.idempotency_key ≡ u.1.idempotency_key)
      × ((f u).1.fingerprint ≡ u.1.fingerprint)
      × ((f u).0.id ≡ u.0.id)

pub find_upload-map :
    (f : Upload → Upload) (caller key : String) (us : List Upload)
    → Keeps f
    → {u : Upload} → find_upload caller key us ≡ some u
    → find_upload caller key (map f us) ≡ some (f u)
unfolding find_upload
find_upload-map f caller key [] k e = absurd (cc)
find_upload-map f caller key (v ∷ us) k {u} e =
    let q = k v in
    let same : is_upload caller key (f v) ≡ is_upload caller key v =
      λ i. str_eq (q.0 i) caller && str_eq (q.1 i) key in
    elim (Bool-cases (is_upload caller key v)) [
      | inl t ↦
          let e' : some v ≡ some u =
            subst (λ b. (if b then some v else find_upload caller key us) ≡ some u) t e in
          subst (λ b. (if b then some (f v) else find_upload caller key (map f us)) ≡ some (f u))
            (sym (same ∙ t)) (ap (λ w. some (f w)) (some_injective e'))
      | inr n ↦
          let e' : find_upload caller key us ≡ some u =
            subst (λ b. (if b then some v else find_upload caller key us) ≡ some u) n e in
          subst (λ b. (if b then some (f v) else find_upload caller key (map f us)) ≡ some (f u))
            (sym (same ∙ n)) (find_upload-map f caller key us k e')
    ]

pub signed-id :
    (x : CreateAnswers) (a : Asset) (s : UploadSession) {c : CreatedUpload}
    → signed x a s ≡ ok c
    → a.id ≡ c.asset.id
signed-id x a s {c} e =
    if-cases (λ (r : Result CreatedUpload). r ≡ ok c → a.id ≡ c.asset.id) x.signs _ _
      (λ t e'. ap (λ (v : CreatedUpload). v.asset.id) (ok_injective e')) (λ f e'. absurd (cc)) e

pub replayed-id :
    (x : CreateAnswers) (a : Asset) (s : UploadSession) {c : CreatedUpload}
    → replayed x a s ≡ ok c
    → a.id ≡ c.asset.id
replayed-id x a s {c} e =
    if-cases (λ (r : Result CreatedUpload). r ≡ ok c → a.id ≡ c.asset.id)
      (upload_is s.status created && ltb x.now s.expires_at) _ _ (λ t e'. signed-id x a s e')
      (λ f e'. ap (λ (v : CreatedUpload). v.asset.id) (ok_injective e')) e

pub replay_found-Same :
    (x : CreateAnswers) (fingerprint : String) (u : Upload) {c : CreatedUpload}
    → replay_found x fingerprint u ≡ ok c
    → (u.1.fingerprint ≡ fingerprint) × (u.0.id ≡ c.asset.id)
replay_found-Same x fingerprint (a, s) {c} e =
    if-cases
      (λ (r : Result CreatedUpload). r ≡ ok c → (s.fingerprint ≡ fingerprint) × (a.id ≡ c.asset.id))
      (not (str_eq s.fingerprint fingerprint)) _ _ (λ t e'. absurd (cc))
      (λ n e'. (
        (eq_iff s.fingerprint fingerprint).0 (ground (arith, n)),
        if-cases (λ (r : Result CreatedUpload). r ≡ ok c → a.id ≡ c.asset.id)
            (a.is_deleted || a.is_purged) _ _
            (λ t.
              replayed-id x (record a { upload_status = failed }) (record s { status = failed }))
            (λ f. replayed-id x a s) e',
      ))
      e

pub replayed-ok :
    (y : CreateAnswers) (a : Asset) (s : UploadSession)
    → y.signs ≡ true
    → (c : CreatedUpload) × (replayed y a s ≡ ok c) × (c.asset.id ≡ a.id)
replayed-ok y a s g =
    if-cases (λ (r : Result CreatedUpload). (c : CreatedUpload) × (r ≡ ok c) × (c.asset.id ≡ a.id))
      (upload_is s.status created && ltb y.now s.expires_at) _ _
      (λ t. (
        record { asset = a; session = s; target = some s.expires_at },
        subst
            (λ b.
              if◌then◌else◌ {A = Result CreatedUpload} b
                (ok (record { asset = a; session = s; target = some s.expires_at }))
                (err unavailable)
              ≡ ok (record { asset = a; session = s; target = some s.expires_at }))
            (sym g) refl,
        refl,
      ))
      (λ f. (record { asset = a; session = s; target = none }, refl, refl))

pub replay_found-ok :
    (y : CreateAnswers) (fingerprint : String) (u : Upload)
    → y.signs ≡ true
    → u.1.fingerprint ≡ fingerprint
    → (c : CreatedUpload) × (replay_found y fingerprint u ≡ ok c) × (c.asset.id ≡ u.0.id)
replay_found-ok y fingerprint (a, s) g e =
    if-cases (λ (r : Result CreatedUpload). (c : CreatedUpload) × (r ≡ ok c) × (c.asset.id ≡ a.id))
      (not (str_eq s.fingerprint fingerprint)) _ _
      (λ t. absurd (ground (arith, t, (eq_iff s.fingerprint fingerprint).1 e)))
      (λ n.
        if-cases
          (λ (r : Result CreatedUpload). (c : CreatedUpload) × (r ≡ ok c) × (c.asset.id ≡ a.id))
          (a.is_deleted || a.is_purged) _ _
          (λ t.
            replayed-ok y (record a { upload_status = failed }) (record s { status = failed }) g)
          (λ f. replayed-ok y a s g))
