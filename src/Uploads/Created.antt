-- ===== src/Uploads/Created.antt =====
-- A repeated creation gives the upload of the first: CreateUploadSession of internal/assets/service.go.
use asset_api.Base.{
  String, ◌≡◌, refl, sym, ap, ◌∙◌, subst, true, ◌&&◌, ◌||◌, Option, none, some, List, ◌∷◌, ◌++◌,
  map, arith, str_eq, eq_refl, any, is_some, if◌then◌else◌, if-cases, not,
}
use asset_api.Errors.{Error, Result, ok, err, ok_injective, conflict, unavailable}
use asset_api.Uploads.Policy.{policy_for}
use asset_api.Uploads.Store.{is_avatar}
use asset_api.Uploads.Create.{
  CreateUploadInput, Upload, CreateAnswers, CreatedUpload, filled, accepts, find_upload,
  replay_found, replay_upload, new_asset, new_session, insert_upload, second_chance, inserted,
  create_new, create_or_replay, admitted, create_upload_session,
}
use asset_api.Uploads.Replays.{Keeps, find_upload-map, replay_found-Same, replay_found-ok}

-- What an accepted creation leaves: an upload under the caller and the key.
abbrev Created : String → String → String → CreatedUpload → List Upload → Type 0
Created fingerprint caller key c us =
    (u : Upload) × (find_upload caller key us ≡ some u)
    × (u.1.fingerprint ≡ fingerprint)
    × (u.0.id ≡ c.asset.id)

find_upload-first :
    (x : CreateAnswers) (input : CreateUploadInput) (fingerprint key : String) (us : List Upload)
    → find_upload input.owner_service key
        ((new_asset x input, new_session x input fingerprint key) ∷ us)
      ≡ some (new_asset x input, new_session x input fingerprint key)
unfolding find_upload
find_upload-first x input fingerprint key us =
    let t : (str_eq input.owner_service input.owner_service && str_eq key key) ≡ true =
      ground (arith, eq_refl input.owner_service, eq_refl key) in
    subst
      (λ b.
        (if b
          then some (new_asset x input, new_session x input fingerprint key)
          else find_upload input.owner_service key us)
        ≡ some (new_asset x input, new_session x input fingerprint key))
      (sym t) refl

-- Both results of a call: what it answers, and what it leaves.
abbrev Leaves :
    String → String → String → Result CreatedUpload × List Upload → CreatedUpload → Type 0
Leaves fingerprint caller key r c = r.0 ≡ ok c → Created fingerprint caller key c r.1

second_chance-Created :
    (x : CreateAnswers) (fingerprint caller key : String) (us : List Upload) (e : Error)
    (found : Option Upload) (c : CreatedUpload)
    → find_upload caller key us ≡ found
    → second_chance e (replay_upload x fingerprint found) ≡ ok c
    → Created fingerprint caller key c us
second_chance-Created x fingerprint caller key us e none c m h = absurd (cc)
second_chance-Created x fingerprint caller key us e (some u) c m h =
    let same = replay_found-Same x fingerprint u (back (replay_found x fingerprint u) h) in
    (u, m, same.0, same.1)
  where
    back : (r : Result CreatedUpload) → second_chance e (some r) ≡ ok c → r ≡ ok c
    back (ok d) p = p
    back (err d) p = absurd (cc)

module _ (x : CreateAnswers) (input : CreateUploadInput) (fingerprint key : String)
    (us : List Upload) (c : CreatedUpload) where
  abbrev fresh : Upload
  fresh = (new_asset x input, new_session x input fingerprint key)

  refused-Created :
      (e : Error) (found : Option Upload)
      → find_upload input.owner_service key (x.rivals ++ us) ≡ found
      → Leaves fingerprint input.owner_service key
          (inserted x fresh found fingerprint (err e, x.rivals ++ us))
          c
  refused-Created e found m =
      if-cases
        (λ (r : Result CreatedUpload).
          r ≡ ok c → Created fingerprint input.owner_service key c (x.rivals ++ us))
        x.reads_again _ _
        (λ t.
          second_chance-Created x fingerprint input.owner_service key (x.rivals ++ us) e found c m)
        (λ f h. absurd (cc))

  inserted-Created :
      (found : Option Upload)
      → find_upload input.owner_service key (x.rivals ++ us) ≡ found
      → Leaves fingerprint input.owner_service key
          (inserted x fresh found fingerprint (insert_upload x fresh (x.rivals ++ us) found))
          c
  inserted-Created found m =
      if-cases
        (λ (r : Result (Unit {0}) × List Upload).
          Leaves fingerprint input.owner_service key (inserted x fresh found fingerprint r) c)
        (is_avatar (new_asset x input) && x.cleaned) _ _ (λ t. refused-Created conflict found m)
        (λ f.
          if-cases
            (λ (r : Result (Unit {0}) × List Upload).
              Leaves fingerprint input.owner_service key (inserted x fresh found fingerprint r) c)
            (is_some found || any (λ u. str_eq u.0.id x.asset_id) (x.rivals ++ us) || not x.audits)
            _ _ (λ t. refused-Created unavailable found m)
            (λ n h. (
              fresh,
              find_upload-first x input fingerprint key (x.rivals ++ us),
              refl,
              ap (λ (v : CreatedUpload). v.asset.id) (ok_injective h),
            )))

  create_new-Created :
      Leaves fingerprint input.owner_service key (create_new x input fingerprint key us) c
  unfolding create_new
  create_new-Created =
      if-cases
        (λ (r : Result CreatedUpload × List Upload). Leaves fingerprint input.owner_service key r c)
        x.signs _ _
        (λ t. inserted-Created (find_upload input.owner_service key (x.rivals ++ us)) refl)
        (λ f h. absurd (cc))

create_or_replay-Created :
    (x : CreateAnswers) (input : CreateUploadInput) (fingerprint key : String) (us : List Upload)
    (found : Option Upload) (c : CreatedUpload)
    → find_upload input.owner_service key us ≡ found
    → Leaves fingerprint input.owner_service key
        (create_or_replay x input fingerprint key us (replay_upload x fingerprint found))
        c
create_or_replay-Created x input fingerprint key us none c m h =
    create_new-Created x input fingerprint key us c h
create_or_replay-Created x input fingerprint key us (some u) c m h =
    let same = replay_found-Same x fingerprint u h in (u, m, same.0, same.1)

admitted-Created :
    (x : CreateAnswers) (input : CreateUploadInput) (fingerprint key : String) (us : List Upload)
    (r : Result (Unit {0})) (c : CreatedUpload)
    → (admitted x input fingerprint key us r).0 ≡ ok c
    → (r ≡ ok tt)
      × Created fingerprint input.owner_service key c (admitted x input fingerprint key us r).1
admitted-Created x input fingerprint key us (err e) c h = absurd (cc)
admitted-Created x input fingerprint key us (ok tt) c h = (
  refl,
  if-cases
      (λ (r : Result CreatedUpload × List Upload). Leaves fingerprint input.owner_service key r c)
      x.reads _ _
      (λ t.
        create_or_replay-Created x input fingerprint key us (find_upload input.owner_service key us)
          c refl)
      (λ f k. absurd (cc)) h,
)

again :
    (y : CreateAnswers) (input : CreateUploadInput) (fingerprint key : String) (us : List Upload)
    (u : Upload)
    → y.reads ≡ true
    → y.signs ≡ true
    → find_upload input.owner_service key us ≡ some u
    → u.1.fingerprint ≡ fingerprint
    → (d : CreatedUpload) × (admitted y input fingerprint key us (ok tt) ≡ (ok d, us))
      × (d.asset.id ≡ u.0.id)
again y input fingerprint key us u reads signs m same =
    let d = replay_found-ok y fingerprint u signs same in
    (
      d.0,
      ap
            (λ b.
              if◌then◌else◌ {A = Result CreatedUpload × List Upload} b
                (create_or_replay y input fingerprint key us
                  (replay_upload y fingerprint (find_upload input.owner_service key us)))
                (err unavailable, us))
            reads
          ∙ (ap (λ o. create_or_replay y input fingerprint key us (replay_upload y fingerprint o)) m
              ∙ ap (λ r. (r, us)) d.1),
      d.2,
    )

-- After a creation that was answered with an upload, the same caller's call with the same input and key is
-- answered with the same asset and leaves the table as it is, whatever its clock and its ids, and whatever
-- the statements in between have done to the rows without changing their ids, their callers, keys and
-- fingerprints; the uploads can be read and a target can be signed. So it is where the first call lost a
-- race with another one, too.
pub create_repeats :
    (digest : CreateUploadInput → String) (x y : CreateAnswers) (input : CreateUploadInput)
    (key : String) (us : List Upload) (f : Upload → Upload) (c : CreatedUpload)
    → Keeps f
    → y.reads ≡ true
    → y.signs ≡ true
    → (create_upload_session digest x input key us).0 ≡ ok c
    → (d : CreatedUpload) × (create_upload_session digest y input key
          (map f (create_upload_session digest x input key us).1)
        ≡ (ok d, map f (create_upload_session digest x input key us).1))
      × (d.asset.id ≡ c.asset.id)
unfolding create_upload_session
create_repeats digest x y input key us f c k reads signs h =
    let fingerprint = digest (filled input (policy_for input.namespace)) in
    let left = admitted-Created x input fingerprint key us (accepts input key) c h in
    let after = map f (admitted x input fingerprint key us (accepts input key)).1 in
    let u = left.1.0 in
    let d =
      again y input fingerprint key after (f u) reads signs
        (find_upload-map f input.owner_service key _ k left.1.1) ((k u).2 ∙ left.1.2) in
    (d.0, ap (admitted y input fingerprint key after) left.0 ∙ d.1, d.2 ∙ ((k u).3 ∙ left.1.3))
