-- ===== src/Audit/Shapes.antt =====
-- The shapes of ids and credentials: internal/auditclient/client.go.
use asset_api.Base.{
  ℕ, ◌%◌, String, Bool, ◌&&◌, ◌||◌, not, List, [], ◌∷◌, ◌==◌, leb, if◌then◌else◌, length, all,
  is_digit, is_lower_hex, is_letter, codes, matches, times,
}

abbrev pub char_is : ℕ → ℕ → Bool
char_is c d = d == c

abbrev pub variant : ℕ → Bool
variant c = c == b'8' || c == b'9' || c == b'a' || c == b'b'

-- [0-9a-f]{8}-[0-9a-f]{4}-v[0-9a-f]{3}-[89ab][0-9a-f]{3}-[0-9a-f]{12}
abbrev pub uuid_shape : (ℕ → Bool) → List (ℕ → Bool)
uuid_shape version = times 8 is_lower_hex (
    char_is b'-'
    ∷ times 4 is_lower_hex (
        char_is b'-'
        ∷ version
        ∷ times 3 is_lower_hex (
            char_is b'-'
            ∷ variant
            ∷ times 3 is_lower_hex (char_is b'-' ∷ times 12 is_lower_hex []))))

abbrev pub is_account_id : String → Bool
is_account_id s = matches (uuid_shape (λ c. c == b'4' || c == b'7')) (codes s)

abbrev pub is_uuid_v4 : String → Bool
is_uuid_v4 s = matches (uuid_shape (char_is b'4')) (codes s)

-- ^[0-9a-f]{32}$, of an asset id and of a trace id.
abbrev pub is_asset_id : String → Bool
is_asset_id s = matches (times 32 is_lower_hex []) (codes s)

abbrev pub request_char : ℕ → Bool
request_char c = is_letter c || is_digit c || c == b'.' || c == b'_' || c == b':' || c == b'-'

abbrev pub is_request_id : List ℕ → Bool
is_request_id cs = leb 1 (length cs) && leb (length cs) 128 && all request_char cs

-- strings.Split(value, ".")
abbrev pub join_first : ℕ → List (List ℕ) → List (List ℕ)
join_first c [] = (c ∷ []) ∷ []
join_first c (p ∷ ps) = (c ∷ p) ∷ ps

unfoldable pub split_dots : List ℕ → List (List ℕ)
split_dots [] = [] ∷ []
split_dots (c ∷ cs) = let rest = split_dots cs in if c == b'.' then [] ∷ rest else join_first c rest

-- base64.RawURLEncoding decodes a text without line breaks.
abbrev pub base64_char : ℕ → Bool
base64_char c = is_letter c || is_digit c || c == b'-' || c == b'_'

abbrev pub decodes_base64 : List ℕ → Bool
decodes_base64 cs = all base64_char cs && not (length cs % 4 == 1)

unfoldable pub credential_shaped : List ℕ → Bool
unfolding split_dots
credential_shaped cs =
    let parts = split_dots cs in
    (length parts == 3 || length parts == 5)
    && all (λ p. not (length p == 0) && decodes_base64 p) parts
