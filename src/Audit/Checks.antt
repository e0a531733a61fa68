-- ===== src/Audit/Checks.antt =====
-- The checks of an audit event: internal/auditclient/client.go. Lengths are those of ASCII texts.
use Prim.Native.String.{◌++◌ as text_append}
use asset_api.Base.{
  ℕ, String, Bool, true, false, ◌&&◌, ◌||◌, not, Option, some, List, [], ◌∷◌, ◌==◌, str_eq,
  if◌then◌else◌, length, all, any, codes, pos, ltb_ℤ, lookup,
}
use asset_api.Audit.Model.{Metadata, Value, Action, Event, Codec, text, whole}
use asset_api.Audit.Shapes.{
  is_account_id, is_uuid_v4, is_asset_id, is_request_id, credential_shaped,
}

unfoldable pub valid_request : Codec → String → Bool
unfolding credential_shaped
valid_request k s = is_request_id (codes s) && not (k.is_ip s) && not (credential_shaped (codes s))

abbrev pub mentions : List String → String → Bool
mentions names s = any (λ name. str_eq name s) names

abbrev pub valid_actor : Action → String → String → Bool
valid_actor contract actor_type actor =
    if not (mentions contract.actor_types actor_type)
    then false
    else if str_eq actor_type "user"
    then is_account_id actor
    else str_eq actor_type "service" && mentions contract.service_principals actor

-- Texts joined by line breaks, and their digest.
abbrev pub line : String → String → String
line a b = text_append a (text_append "\n" b)

abbrev pub identity_hash : Codec → Event → String
identity_hash k e =
    k.sha256
      (line "admin-access" (line e.action (line e.actor_id (line e.request_id e.resource_id))))

unfoldable pub valid_identity : Codec → Action → Event → Bool
valid_identity k contract e =
    if str_eq contract.identity_strategy "mutation_uuid_v4"
    then str_eq contract.event_id_grammar "uuid" && is_uuid_v4 e.event_id
    else if str_eq contract.identity_strategy "admin_access_sha256"
    then str_eq contract.event_id_grammar "hash" && str_eq e.event_id (identity_hash k e)
    else false

unfoldable pub valid_resource : String → String → Bool
valid_resource grammar value =
    if str_eq grammar "asset_hex"
    then is_asset_id value
    else if str_eq grammar "empty"
    then str_eq value ""
    else if str_eq grammar "singleton"
    then str_eq value "singleton"
    else false

abbrev pub text_field : (String → Bool) → Option Value → Bool
text_field valid (some (text s)) = valid s
text_field valid _ = false

abbrev pub exact_string_fields : Metadata → List (String × (String → Bool)) → Bool
exact_string_fields metadata fields =
    length metadata == length fields && all (λ f. text_field f.1 (lookup f.0 metadata)) fields

abbrev pub count_field : ℕ → ℕ → Option Value → Bool
count_field low high (some (whole v)) = not (ltb_ℤ v (pos low) || ltb_ℤ (pos high) v)
count_field low high _ = false

abbrev pub exact_counts : Metadata → List (String × ℕ × ℕ) → Bool
exact_counts metadata fields =
    length metadata == length fields && all (λ f. count_field f.1 f.2 (lookup f.0 metadata)) fields

abbrev pub max_count : ℕ
max_count = 2147483647

abbrev pub text_of : Option Value → String
text_of (some (text s)) = s
text_of _ = ""

-- The namespaces, owner types and purposes of an upload.
abbrev pub upload_tuples : List (String × String × String)
upload_tuples =
    ("cms.weekly.pdf", "bulletin_issue", "weekly_bulletin")
    ∷ ("cms.home.banner", "page", "home_banner")
    ∷ ("cms.news.cover", "news", "")
    ∷ ("cms.news.cover", "news", "news_cover")
    ∷ ("cms.news.cover", "news", "news_detail_cover")
    ∷ ("cms.news.cover", "news", "news_home_cover")
    ∷ []

abbrev pub any_text : String → Bool
any_text s = true

abbrev pub valid_upload : Metadata → Bool
valid_upload m =
    exact_string_fields m
      (("namespace", any_text) ∷ ("ownerType", any_text) ∷ ("purpose", any_text) ∷ [])
    && any
        (λ t.
          str_eq t.0 (text_of (lookup "namespace" m))
          && str_eq t.1 (text_of (lookup "ownerType" m))
          && str_eq t.2 (text_of (lookup "purpose" m)))
        upload_tuples

unfoldable pub valid_metadata : String → Metadata → Bool
valid_metadata schema m =
    if str_eq schema "empty" || str_eq schema "filters"
    then length m == 0
    else if str_eq schema "collection_acl"
    then exact_string_fields m (
        ("collectionId", is_asset_id)
        ∷ ("subjectType", (λ v. str_eq v "user" || str_eq v "role"))
        ∷ [])
    else if str_eq schema "collection_parent"
    then exact_string_fields m (("collectionId", is_asset_id) ∷ [])
    else if str_eq schema "ticket_count"
    then exact_counts m (("normalizedUniqueItemCount", 1, 100) ∷ [])
    else if str_eq schema "items_deleted"
    then exact_counts m (
        ("normalizedUniqueItemCount", 0, max_count)
        ∷ ("deletedCount", 0, max_count)
        ∷ ("alreadyAbsentCount", 0, max_count)
        ∷ [])
    else if str_eq schema "recording_retention"
    then exact_counts m
        (("previousDays", 1, 365) ∷ ("retentionDays", 1, 365) ∷ ("revision", 1, max_count) ∷ [])
    else if str_eq schema "items_updated"
    then exact_counts m (
        ("normalizedUniqueItemCount", 0, max_count)
        ∷ ("updatedCount", 0, max_count)
        ∷ ("alreadyAbsentCount", 0, max_count)
        ∷ [])
    else if str_eq schema "upload"
    then valid_upload m
    else false
