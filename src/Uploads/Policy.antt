-- ===== src/Uploads/Policy.antt =====
-- The policies of the namespaces: internal/assets/policy.go.
use asset_api.Base.{
  ℕ, String, Bool, true, false, ◌&&◌, Option, none, some, List, [], ◌∷◌, leb, str_eq, lookup, any,
}

pub data Visibility : Type 0 where
  public authenticated restricted private : Visibility

abbrev pub visibility_is : Visibility → Visibility → Bool
visibility_is public public = true
visibility_is authenticated authenticated = true
visibility_is restricted restricted = true
visibility_is private private = true
visibility_is _ _ = false

pub data Processing : Type 0 where
  pending_processing not_required : Processing

-- The keys of a map to true are a list.
pub record NamespacePolicy : Type 0 where
  pub owner_service : String
  pub mime_types : List String
  pub mime_max_size_bytes : List (String × ℕ)
  pub max_size_bytes : ℕ
  pub default_visibility : Visibility
  pub visibilities : List Visibility
  pub processing : Processing
  pub cache_control : String
  pub width : ℕ
  pub height : ℕ

abbrev pub allows_mime : NamespacePolicy → String → Bool
allows_mime p value = any (λ t. str_eq t value) p.mime_types

abbrev pub allows_visibility : NamespacePolicy → Visibility → Bool
allows_visibility p value = any (λ v. visibility_is v value) p.visibilities

abbrev pub limit_or : ℕ → Option ℕ → ℕ
limit_or limit none = limit
limit_or limit (some typed) = typed

abbrev pub size_limit : NamespacePolicy → String → ℕ
size_limit p mime = limit_or p.max_size_bytes (lookup mime p.mime_max_size_bytes)

unfoldable pub allows_size : NamespacePolicy → String → ℕ → Bool
allows_size p mime size = leb 1 size && leb size (size_limit p mime)

abbrev pub personal_namespace : String
personal_namespace = "presenter.personal"

-- What both media libraries take.
abbrev media_types : List String
media_types =
    "image/jpeg" ∷ "image/png" ∷ "image/gif" ∷ "image/webp" ∷ "image/bmp" ∷ "video/mp4"
    ∷ "video/quicktime" ∷ "video/webm" ∷ "video/ogg" ∷ "video/x-msvideo" ∷ "video/x-matroska"
    ∷ "video/x-ms-wmv" ∷ "audio/mpeg" ∷ "audio/wav" ∷ "audio/mp4" ∷ "audio/aac" ∷ "audio/ogg"
    ∷ "application/pdf"
    ∷ "application/vnd.openxmlformats-officedocument.presentationml.presentation"
    ∷ "application/vnd.hhc.presenter+json" ∷ []

abbrev account_avatar_policy : NamespacePolicy
account_avatar_policy = record {
  owner_service = "account-api";
  mime_types = "image/jpeg" ∷ [];
  mime_max_size_bytes = [];
  max_size_bytes = 1048576;
  default_visibility = public;
  visibilities = public ∷ [];
  processing = not_required;
  cache_control = "public, max-age=31536000, immutable";
  width = 0;
  height = 0;
}

abbrev cms_weekly_pdf_policy : NamespacePolicy
cms_weekly_pdf_policy = record {
  owner_service = "hhc-web-api";
  mime_types = "application/pdf" ∷ [];
  mime_max_size_bytes = [];
  max_size_bytes = 20971520;
  default_visibility = private;
  visibilities = private ∷ [];
  processing = not_required;
  cache_control = "private, no-store";
  width = 0;
  height = 0;
}

abbrev cms_weekly_image_policy : NamespacePolicy
cms_weekly_image_policy = record {
  owner_service = "hhc-web-api";
  mime_types = "image/png" ∷ [];
  mime_max_size_bytes = [];
  max_size_bytes = 2097152;
  default_visibility = private;
  visibilities = private ∷ [];
  processing = not_required;
  cache_control = "private, no-store";
  width = 0;
  height = 0;
}

abbrev cms_news_cover_policy : NamespacePolicy
cms_news_cover_policy = record {
  owner_service = "hhc-web-api";
  mime_types = "image/jpeg" ∷ "image/png" ∷ "image/webp" ∷ [];
  mime_max_size_bytes = [];
  max_size_bytes = 10485760;
  default_visibility = private;
  visibilities = private ∷ public ∷ [];
  processing = pending_processing;
  cache_control = "public, max-age=31536000, immutable";
  width = 0;
  height = 0;
}

abbrev cms_home_banner_policy : NamespacePolicy
cms_home_banner_policy = record {
  owner_service = "hhc-web-api";
  mime_types = "image/jpeg" ∷ [];
  mime_max_size_bytes = [];
  max_size_bytes = 10485760;
  default_visibility = public;
  visibilities = public ∷ [];
  processing = not_required;
  cache_control = "public, max-age=31536000, immutable";
  width = 1900;
  height = 700;
}

abbrev cms_page_image_policy : NamespacePolicy
cms_page_image_policy = record {
  owner_service = "hhc-web-api";
  mime_types = "image/jpeg" ∷ "image/png" ∷ "image/webp" ∷ [];
  mime_max_size_bytes = [];
  max_size_bytes = 10485760;
  default_visibility = private;
  visibilities = private ∷ public ∷ [];
  processing = pending_processing;
  cache_control = "public, max-age=31536000, immutable";
  width = 0;
  height = 0;
}

abbrev line_group_file_policy : NamespacePolicy
line_group_file_policy = record {
  owner_service = "hhc-line-function-bot";
  mime_types =
      "application/pdf" ∷ "image/jpeg" ∷ "image/png" ∷ "image/webp"
      ∷ "application/vnd.ms-powerpoint"
      ∷ "application/vnd.openxmlformats-officedocument.presentationml.presentation"
      ∷ "application/vnd.apple.keynote" ∷ "application/vnd.oasis.opendocument.presentation"
      ∷ "application/msword"
      ∷ "application/vnd.openxmlformats-officedocument.wordprocessingml.document"
      ∷ "application/vnd.ms-excel"
      ∷ "application/vnd.openxmlformats-officedocument.spreadsheetml.sheet" ∷ "text/plain"
      ∷ "text/markdown" ∷ [];
  mime_max_size_bytes =
      ("image/jpeg", 10485760)
      ∷ ("image/png", 10485760)
      ∷ ("image/webp", 10485760)
      ∷ ("text/plain", 2097152)
      ∷ ("text/markdown", 2097152)
      ∷ [];
  max_size_bytes = 26214400;
  default_visibility = restricted;
  visibilities = restricted ∷ [];
  processing = not_required;
  cache_control = "private, no-store";
  width = 0;
  height = 0;
}

abbrev personal_policy : NamespacePolicy
personal_policy = record {
  owner_service = personal_namespace;
  mime_types = media_types;
  mime_max_size_bytes = [];
  max_size_bytes = 209715200;
  default_visibility = private;
  visibilities = private ∷ [];
  processing = not_required;
  cache_control = "private, no-store";
  width = 0;
  height = 0;
}

abbrev line_group_media_sync_policy : NamespacePolicy
line_group_media_sync_policy = record {
  owner_service = "hhc-line-function-bot";
  mime_types = media_types;
  mime_max_size_bytes = [];
  max_size_bytes = 209715200;
  default_visibility = restricted;
  visibilities = restricted ∷ [];
  processing = not_required;
  cache_control = "private, no-store";
  width = 0;
  height = 0;
}

abbrev pub namespace_policies : List (String × NamespacePolicy)
namespace_policies =
    ("account.avatar", account_avatar_policy)
    ∷ ("cms.weekly.pdf", cms_weekly_pdf_policy)
    ∷ ("cms.weekly.image", cms_weekly_image_policy)
    ∷ ("cms.news.cover", cms_news_cover_policy)
    ∷ ("cms.home.banner", cms_home_banner_policy)
    ∷ ("cms.page.image", cms_page_image_policy)
    ∷ ("line.group.file", line_group_file_policy)
    ∷ (personal_namespace, personal_policy)
    ∷ ("line.group.media-sync", line_group_media_sync_policy)
    ∷ []

unfoldable pub policy_for : String → Option NamespacePolicy
policy_for namespace = lookup namespace namespace_policies
