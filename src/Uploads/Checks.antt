-- ===== src/Uploads/Checks.antt =====
-- The checks of a staged blob by completeUpload of internal/assets/service.go. What the blob store, the media
-- tools and the clock answer to one call is an `Answers`.
use asset_api.Base.{
  ℕ, ◌+◌, String, Bool, true, false, ◌&&◌, ◌||◌, not, Option, none, some, List, [], map, ◌==◌, ltb,
  leb, str_eq, if◌then◌else◌, same_codes,
}
use asset_api.Errors.{Error, Result, ok, err, invalid_upload, not_found, conflict, unavailable}
use asset_api.Uploads.Policy.{NamespacePolicy, allows_size, personal_namespace}
use asset_api.Uploads.Store.{Asset, UploadSession}
use asset_api.Uploads.Steps.{Statement}

pub record BlobMetadata : Type 0 where
  pub size : ℕ
  pub etag : String

pub record BlobProperties : Type 0 where
  pub size : ℕ
  pub etag : String
  pub detected_mime : String
  pub checksum : List ℕ

-- BlobProperties{}
abbrev pub no_properties : BlobProperties
no_properties = record { size = 0; etag = ""; detected_mime = ""; checksum = [] }

pub record CompleteUploadInput : Type 0 where
  pub size_bytes : ℕ
  pub checksum : List ℕ
  pub mime_type : String

-- `observed` is the answer of Inspect for the blob that was found; `detected` that of the media checks;
-- `deck` whether the deck can be opened, and whether it is valid; `image` whether the image can be opened,
-- and its size, if it can be decoded. `recommitted` are the two answers behind a Commit that was refused.
pub record Answers : Type 0 where
  pub final_metadata : Result BlobMetadata
  pub staging_metadata : Result BlobMetadata
  pub observed : Result BlobProperties
  pub detected : Result String
  pub deck : Result Bool
  pub image : Result (Option (ℕ × ℕ))
  pub closes : Bool
  pub is_cancelled : Bool
  pub committed : Result BlobProperties
  pub final_again : Result BlobMetadata
  pub inspected_again : Result BlobProperties
  pub deletes_staging : Bool
  pub deletes_object : Bool
  pub audits : Bool
  pub expiry_clock : ℕ
  pub event_id : String
  pub between : List Statement

-- The checks of an upload: it is rejected, the call fails, or it goes on.
pub data Check {κ} (V : Type κ) : Type κ where
  rejects : Check V
  stops : Error → Check V
  passes : V → Check V

infixl 5 ◌>>>◌
abbrev pub ◌>>>◌ {μ ν} : {V : Type μ} {W : Type ν} → Check V → (V → Check W) → Check W
rejects >>> next = rejects
stops e >>> next = stops e
passes v >>> next = next v

abbrev pub require : Bool → Check (Unit {0})
require true = passes tt
require false = rejects

-- A call that fails, fails the completion.
abbrev pub calls {ν} : {V : Type ν} → Result V → Check V
calls (ok v) = passes v
calls (err e) = stops e

-- A call that refuses the upload rejects it.
abbrev pub calls_or_rejects {ν} : {V : Type ν} → Result V → Check V
calls_or_rejects (ok v) = passes v
calls_or_rejects (err invalid_upload) = rejects
calls_or_rejects (err e) = stops e

-- Both in ASCII: strings.ToLower and strings.EqualFold.
abbrev pub lower_char : ℕ → ℕ
lower_char c = if leb b'A' c && leb c b'Z' then c + 32 else c

unfoldable pub to_lower : List ℕ → List ℕ
to_lower cs = map lower_char cs

unfoldable pub equal_fold : List ℕ → List ℕ → Bool
equal_fold a b = same_codes (to_lower a) (to_lower b)

-- The metadata of the blob, and whether it is committed already.
abbrev pub staged : Result BlobMetadata → Check (BlobMetadata × Bool)
staged (ok m) = passes (m, false)
staged (err not_found) = rejects
staged (err e) = stops e

abbrev pub source_of : Answers → Check (BlobMetadata × Bool)
source_of x = go x.final_metadata
  where
    go : Result BlobMetadata → Check (BlobMetadata × Bool)
    go (ok m) = passes (m, true)
    go (err not_found) = staged x.staging_metadata
    go (err e) = stops e

abbrev pub is_in_time : Answers → UploadSession → Bool → Bool
is_in_time x s already = already || not (ltb s.expires_at x.expiry_clock)

abbrev pub fits_limits : NamespacePolicy → Asset → UploadSession → BlobMetadata → Bool
fits_limits p a s m =
    leb 1 m.size && leb m.size s.max_size_bytes && allows_size p a.expected_mime m.size

abbrev pub is_deck : Asset → Bool
is_deck a =
    str_eq a.namespace personal_namespace
    && str_eq a.expected_mime "application/vnd.hhc.presenter+json"

abbrev pub closed : Answers → Check (Unit {0})
closed x = if x.closes then passes tt else stops unavailable

-- A check that failed, unless the call was cancelled.
abbrev pub refused : Answers → Check (Unit {0})
refused x = if x.is_cancelled then stops unavailable else rejects

abbrev pub check_deck : Answers → Asset → Check (Unit {0})
check_deck x a =
    if is_deck a
    then (calls x.deck >>> λ valid. if valid then closed x else refused x)
    else passes tt

abbrev pub has_size : NamespacePolicy → Option (ℕ × ℕ) → Bool
has_size p none = false
has_size p (some (width, height)) = width == p.width && height == p.height

abbrev pub check_image : Answers → NamespacePolicy → Check (Unit {0})
check_image x p =
    if ltb 0 p.width || ltb 0 p.height
    then (calls_or_rejects x.image >>> λ size. if has_size p size then closed x else refused x)
    else passes tt

abbrev pub is_declared : BlobMetadata → BlobProperties → CompleteUploadInput → Bool
is_declared m b input =
    b.size == m.size
    && (str_eq m.etag "" || str_eq b.etag m.etag)
    && b.size == input.size_bytes
    && not (str_eq b.detected_mime "")
    && str_eq b.detected_mime input.mime_type
    && equal_fold b.checksum input.checksum

abbrev pub same_content : BlobProperties → BlobProperties → Bool
same_content a b = a.size == b.size && equal_fold a.checksum b.checksum

-- The type that was detected, for the same content.
abbrev pub with_mime : BlobProperties → BlobProperties → BlobProperties
with_mime a b = if same_content a b then record a { detected_mime = b.detected_mime } else a

-- Behind a refused Commit: what stands at the final key, if it is the same content.
abbrev pub recommit : Answers → Error → BlobProperties → Check BlobProperties
recommit x e b = found x.final_again
  where
    again : Result BlobProperties → Check BlobProperties
    again (err _) = stops e
    again (ok c) = if same_content c b then passes (with_mime c b) else stops e

    found : Result BlobMetadata → Check BlobProperties
    found (err _) = stops e
    found (ok m) = if m.size == b.size then again x.inspected_again else again (ok no_properties)

abbrev pub commit_staged : Answers → BlobProperties → Result BlobProperties → Check BlobProperties
commit_staged x b (ok c) = passes c
commit_staged x b (err conflict) = recommit x conflict b
commit_staged x b (err invalid_upload) = recommit x invalid_upload b
commit_staged x b (err e) = stops e

abbrev pub commit_blob : Answers → Bool → BlobProperties → Check BlobProperties
commit_blob x true b = passes b
commit_blob x false b = commit_staged x b x.committed

abbrev pub is_same_blob : BlobProperties → BlobProperties → Bool
is_same_blob c b =
    c.size == b.size && str_eq c.detected_mime b.detected_mime && equal_fold c.checksum b.checksum

abbrev pub observed_as : BlobProperties → String → BlobProperties
observed_as b mime = record b { detected_mime = mime }
