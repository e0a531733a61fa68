-- ===== src/Uploads/Create.antt =====
-- CreateUploadSession and replayUpload of internal/assets/service.go over the uploads of all callers. What
-- random ids, clocks, the blob store and the database answer comes with each call. Texts that are only
-- stored, the purpose and the locale, go into the fingerprint alone.
use asset_api.Base.{
  ℕ, ◌+◌, ◌*◌, String, Bool, false, ◌&&◌, ◌||◌, not, Option, none, some, List, [], ◌∷◌, ◌++◌, ltb,
  str_eq, is_some, append, if◌then◌else◌, any,
}
use asset_api.Errors.{Error, Result, ok, err, ◌>>◌, guard, invalid_input, conflict, unavailable}
use asset_api.Statuses.{created, failed, scan_pending, upload_is}
use asset_api.Uploads.Policy.{
  Visibility, NamespacePolicy, policy_for, allows_mime, allows_size, allows_visibility,
}
use asset_api.Uploads.Store.{Asset, UploadSession, is_avatar}
use asset_api.Uploads.Names.{extension_allowed, sanitize_file_name}

-- A visibility is left out, or one of the four, or another text.
pub data GivenVisibility : Type 0 where
  left_out unknown_visibility : GivenVisibility
  given : Visibility → GivenVisibility

-- A size that is not positive is 0.
pub record CreateUploadInput : Type 0 where
  pub namespace : String
  pub owner_service : String
  pub owner_type : String
  pub owner_id : String
  pub purpose : String
  pub locale : String
  pub original_file_name : String
  pub expected_mime : String
  pub max_size_bytes : ℕ
  pub visibility : GivenVisibility

abbrev pub Upload : Type 0
Upload = Asset × UploadSession

-- The answers in one call: the two ids, the clock with its year and month as `2006/01`, whether the uploads
-- can be read (and again behind a failed insertion) and targets signed, and what CreateUpload meets: rows that other calls have inserted in between, an
-- account that has been cleaned up, and the audit outbox.
pub record CreateAnswers : Type 0 where
  pub asset_id : String
  pub session_id : String
  pub now : ℕ
  pub month : String
  pub reads : Bool
  pub reads_again : Bool
  pub signs : Bool
  pub rivals : List Upload
  pub cleaned : Bool
  pub audits : Bool

-- The target is signed until a time.
pub record CreatedUpload : Type 0 where
  pub asset : Asset
  pub session : UploadSession
  pub target : Option ℕ

abbrev upload_ttl : ℕ
upload_ttl = 600 * 1000000000

abbrev pub visibility_of : NamespacePolicy → GivenVisibility → Option Visibility
visibility_of p left_out = some p.default_visibility
visibility_of p (given v) = some v
visibility_of p unknown_visibility = none

abbrev allows_given : NamespacePolicy → Option Visibility → Bool
allows_given p none = false
allows_given p (some v) = allows_visibility p v

abbrev pub with_policy : CreateUploadInput → String → Option NamespacePolicy → Result (Unit {0})
with_policy input key none = err invalid_input
with_policy input key (some p) =
    guard
      (str_eq p.owner_service input.owner_service
        && (allows_mime p input.expected_mime
            && (extension_allowed input.original_file_name input.expected_mime
                && (not (str_eq input.owner_type "")
                    && (not (str_eq input.owner_id "")
                        && (allows_size p input.expected_mime input.max_size_bytes
                            && not (str_eq key "")))))))
      invalid_input
    >> guard (allows_given p (visibility_of p input.visibility)) invalid_input

-- The input as the fingerprint sees it: with the default visibility filled in.
abbrev pub filled : CreateUploadInput → Option NamespacePolicy → CreateUploadInput
filled input none = input
filled input (some p) = record input { visibility = fill input.visibility }
  where
    fill : GivenVisibility → GivenVisibility
    fill left_out = given p.default_visibility
    fill v = v

unfoldable pub accepts : CreateUploadInput → String → Result (Unit {0})
accepts input key = with_policy input key (policy_for input.namespace)

abbrev pub is_upload : String → String → Upload → Bool
is_upload caller key (a, s) = str_eq s.caller_service caller && str_eq s.idempotency_key key

-- FindUploadByIdempotency
unfoldable pub find_upload : String → String → List Upload → Option Upload
find_upload caller key [] = none
find_upload caller key (u ∷ us) =
    if is_upload caller key u then some u else find_upload caller key us

abbrev pub signed : CreateAnswers → Asset → UploadSession → Result CreatedUpload
signed x a s =
    if x.signs
    then ok (record { asset = a; session = s; target = some s.expires_at })
    else err unavailable

abbrev pub replayed : CreateAnswers → Asset → UploadSession → Result CreatedUpload
replayed x a s =
    if upload_is s.status created && ltb x.now s.expires_at
    then signed x a s
    else ok (record { asset = a; session = s; target = none })

abbrev pub replay_found : CreateAnswers → String → Upload → Result CreatedUpload
replay_found x fingerprint (a, s) =
    if not (str_eq s.fingerprint fingerprint)
    then err conflict
    else if a.is_deleted || a.is_purged
    then replayed x (record a { upload_status = failed }) (record s { status = failed })
    else replayed x a s

-- `none`: there is no such upload.
abbrev pub replay_upload : CreateAnswers → String → Option Upload → Option (Result CreatedUpload)
replay_upload x fingerprint none = none
replay_upload x fingerprint (some u) = some (replay_found x fingerprint u)

abbrev folder_of : CreateAnswers → CreateUploadInput → String
folder_of x input =
    append "assets/"
      (append input.namespace (append "/" (append x.month (append "/" (append x.asset_id "/")))))

abbrev pub new_asset : CreateAnswers → CreateUploadInput → Asset
new_asset x input = record {
  id = x.asset_id;
  namespace = input.namespace;
  owner_service = input.owner_service;
  original_file_name = sanitize_file_name input.original_file_name;
  object_key = append (folder_of x input) "original";
  expected_mime = input.expected_mime;
  detected_mime = "";
  size_bytes = 0;
  checksum = [];
  etag = "";
  upload_status = created;
  scan_status = scan_pending;
  is_trusted = false;
  scan_event_id = "";
  is_deleted = false;
  is_purged = false;
}

abbrev pub new_session : CreateAnswers → CreateUploadInput → String → String → UploadSession
new_session x input fingerprint key = record {
  caller_service = input.owner_service;
  idempotency_key = key;
  fingerprint = fingerprint;
  staging_object_key = append (folder_of x input) (append "staging/" x.session_id);
  max_size_bytes = input.max_size_bytes;
  status = created;
  expires_at = x.now + upload_ttl;
}

-- CreateUpload, with the primary key and the unique index over caller and key.
abbrev pub insert_upload :
    CreateAnswers → Upload → List Upload → Option Upload → Result (Unit {0}) × List Upload
insert_upload x (a, s) us found =
    if is_avatar a && x.cleaned
    then (err conflict, us)
    else if is_some found || any (λ u. str_eq u.0.id a.id) us || not x.audits
    then (err unavailable, us)
    else (ok tt, (a, s) ∷ us)

-- What the replay behind a failed insertion gives.
abbrev pub second_chance : Error → Option (Result CreatedUpload) → Result CreatedUpload
second_chance e (some (ok c)) = ok c
second_chance e o = err e

abbrev pub inserted :
    CreateAnswers
    → Upload
    → Option Upload
    → String
    → Result (Unit {0}) × List Upload
    → Result CreatedUpload × List Upload
inserted x (a, s) found fingerprint (ok done, us) =
    (ok (record { asset = a; session = s; target = some s.expires_at }), us)
inserted x (a, s) found fingerprint (err e, us) =
    (if x.reads_again then second_chance e (replay_upload x fingerprint found) else err e, us)

-- The insertion meets the rows of the rivals, too.
unfoldable pub create_new :
    CreateAnswers
    → CreateUploadInput
    → String
    → String
    → List Upload
    → Result CreatedUpload × List Upload
create_new x input fingerprint key us =
    let u : Upload = (new_asset x input, new_session x input fingerprint key) in
    let found = find_upload input.owner_service key (x.rivals ++ us) in
    if x.signs
    then inserted x u found fingerprint (insert_upload x u (x.rivals ++ us) found)
    else (err unavailable, us)

abbrev pub create_or_replay :
    CreateAnswers
    → CreateUploadInput
    → String
    → String
    → List Upload
    → Option (Result CreatedUpload)
    → Result CreatedUpload × List Upload
create_or_replay x input fingerprint key us (some r) = (r, us)
create_or_replay x input fingerprint key us none = create_new x input fingerprint key us

abbrev pub admitted :
    CreateAnswers
    → CreateUploadInput
    → String
    → String
    → List Upload
    → Result (Unit {0})
    → Result CreatedUpload × List Upload
admitted x input fingerprint key us (err e) = (err e, us)
admitted x input fingerprint key us (ok done) =
    if x.reads
    then create_or_replay x input fingerprint key us
        (replay_upload x fingerprint (find_upload input.owner_service key us))
    else (err unavailable, us)

-- `digest`: requestFingerprint, SHA-256 of the JSON of the input.
unfoldable pub create_upload_session :
    (CreateUploadInput → String)
    → CreateAnswers
    → CreateUploadInput
    → String
    → List Upload
    → Result CreatedUpload × List Upload
create_upload_session digest x input key us =
    admitted x input (digest (filled input (policy_for input.namespace))) key us (accepts input key)
