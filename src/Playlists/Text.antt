-- ===== src/Playlists/Text.antt =====
-- The lines of a playlist, its attribute lists and its numbers: recordingPlaylistLines and
-- recordingAttributes of internal/assets/recording_playlist.go. Texts are bytes.
use asset_api.Base.{
  ℕ, zero, suc, ◌+◌, ◌-◌, ◌*◌, ◌/◌, ◌%◌, ◌^◌, Bool, true, false, ◌&&◌, ◌||◌, not, Option, none,
  some, List, [], ◌∷◌, ◌++◌, ◌==◌, ltb, leb, if◌then◌else◌, length, all, any, codes, same_codes,
  is_digit, drop, ℤ, pos, negsuc, take,
}
use asset_api.Errors.{Result, ok, err, ◌>>◌, guard, invalid_upload}
use asset_api.Capture.Model.{playlist_max_bytes}
use asset_api.Capture.Recovery.{segment_path}

abbrev pub Text : Type 0
Text = List ℕ

abbrev newline : ℕ
newline = 10

abbrev carriage_return : ℕ
carriage_return = 13

-- strings.ReplaceAll(data, "\r\n", "\n")
unfoldable pub unix : Text → Text
unix [] = []
unix (c ∷ []) = c ∷ []
unix (c ∷ d ∷ cs) =
    let rest = unix (d ∷ cs) in if c == carriage_return && d == newline then rest else c ∷ rest

abbrev grow : ℕ → List Text → List Text
grow c [] = (c ∷ []) ∷ []
grow c (line ∷ lines) = (c ∷ line) ∷ lines

-- strings.Split(text, "\n")
unfoldable pub split_lines : Text → List Text
split_lines [] = [] ∷ []
split_lines (c ∷ cs) = let rest = split_lines cs in if c == newline then [] ∷ rest else grow c rest

-- The UTF-8 code of one character of unicode.IsSpace.
abbrev is_space : Text → Bool
is_space (a ∷ []) = a == 32 || (leb 9 a && leb a 13)
is_space (a ∷ b ∷ []) = a == 194 && (b == 133 || b == 160)
is_space (a ∷ b ∷ c ∷ []) =
    (a == 225 && b == 154 && c == 128)
    || (a == 226 && b == 128 && ((leb 128 c && leb c 138) || c == 168 || c == 169 || c == 175))
    || (a == 226 && b == 129 && c == 159)
    || (a == 227 && b == 128 && c == 128)
is_space _ = false

abbrev starts_spaced : Text → Bool
starts_spaced line = is_space (take 1 line) || is_space (take 2 line) || is_space (take 3 line)

abbrev ends_spaced : Text → Bool
ends_spaced [] = false
ends_spaced (c ∷ cs) = is_space (c ∷ cs) || ends_spaced cs

-- line == strings.TrimSpace(line)
abbrev is_trimmed : Text → Bool
is_trimmed line = not (starts_spaced line) && not (ends_spaced line)

unfoldable pub is_clean : Text → Bool
is_clean line =
    leb (length line) 4096
    && is_trimmed line
    && not (any (λ c. c == 0 || c == carriage_return) line)

abbrev below_title : List Text → Result (List Text)
below_title [] = err invalid_upload
below_title (title ∷ lines) =
    if same_codes title (codes "#EXTM3U") && (is_clean title && all is_clean lines)
    then ok lines
    else err invalid_upload

unfoldable pub playlist_lines : Text → Result (List Text)
playlist_lines text =
    guard (leb 1 (length text) && leb (length text) playlist_max_bytes) invalid_upload
    >> below_title (split_lines (unix text))

-- The longest run of the class in front, and what is behind it.
unfoldable pub span : (ℕ → Bool) → Text → Text × Text
span p [] = ([], [])
span p (c ∷ cs) = let rest = span p cs in if p c then (c ∷ rest.0, rest.1) else ([], c ∷ cs)

abbrev pub key_char : ℕ → Bool
key_char c = (leb b'A' c && leb c b'Z') || c == b'-'

abbrev is_break : ℕ → Bool
is_break c = c == newline || c == carriage_return

abbrev pub quote : ℕ
quote = 34

abbrev pub quoted_char : ℕ → Bool
quoted_char c = not (c == quote || is_break c)

abbrev pub plain_char : ℕ → Bool
plain_char c = not (c == b',' || c == quote || is_break c)

abbrev pub closed_quote : Text × Text → Option (Text × Text)
closed_quote (value, []) = none
closed_quote (value, c ∷ cs) = if c == quote then some (value, cs) else none

abbrev pub some_value : Text × Text → Option (Text × Text)
some_value ([], rest) = none
some_value (c ∷ cs, rest) = some (c ∷ cs, rest)

-- "[^"\r\n]*" without its quotes, or [^,"\r\n]+
abbrev pub value_of : Text → Option (Text × Text)
value_of [] = none
value_of (c ∷ cs) =
    if c == quote then closed_quote (span quoted_char cs) else some_value (span plain_char (c ∷ cs))

abbrev pub with_key : Text → Option (Text × Text) → Option (Text × Text × Text)
with_key key none = none
with_key key (some (value, rest)) = some (key, value, rest)

abbrev pub keyed : Text × Text → Option (Text × Text × Text)
keyed ([], rest) = none
keyed (key, []) = none
keyed (key, c ∷ cs) = if c == b'=' then with_key key (value_of cs) else none

-- ([A-Z-]+)=("[^"\r\n]*"|[^,"\r\n]+) at the start of a text: key, value, and the text behind.
unfoldable pub attribute : Text → Option (Text × Text × Text)
attribute text = keyed (span key_char text)

abbrev pub Attributes : Type 0
Attributes = List (Text × Text)

-- attrs[key], the empty text for a key that is not there.
abbrev pub attr : Text → Attributes → Text
attr key [] = []
attr key ((k, v) ∷ rest) = if same_codes k key then v else attr key rest

abbrev pub has_attr : Text → Attributes → Bool
has_attr key attrs = any (λ a. same_codes a.0 key) attrs

-- Behind an attribute: the end, or a comma with more behind it.
abbrev pub next_attribute : Text → Option Text
next_attribute [] = some []
next_attribute (c ∷ []) = none
next_attribute (c ∷ d ∷ cs) = if c == b',' then some (d ∷ cs) else none

abbrev pub with_attribute :
    (Attributes → Text → Result Attributes)
    → Attributes
    → Text × Text
    → Option Text
    → Result Attributes
with_attribute more attrs a none = err invalid_upload
with_attribute more attrs a (some rest) = more (a ∷ attrs) rest

abbrev pub read_attribute :
    (Attributes → Text → Result Attributes)
    → Attributes
    → Option (Text × Text × Text)
    → Result Attributes
read_attribute more attrs none = err invalid_upload
read_attribute more attrs (some (key, value, rest)) =
    if has_attr key attrs
    then err invalid_upload
    else with_attribute more attrs (key, value) (next_attribute rest)

-- One round of the loop takes at least a byte away.
unfoldable pub attributes_from : ℕ → Attributes → Text → Result Attributes
attributes_from fuel attrs [] = ok attrs
attributes_from zero attrs (c ∷ cs) = err invalid_upload
attributes_from (suc fuel) attrs (c ∷ cs) =
    read_attribute (attributes_from fuel) attrs (attribute (c ∷ cs))

unfoldable pub recording_attributes : Text → Result Attributes
recording_attributes text = attributes_from (length text) [] text

-- strconv.ParseInt(text, 10, 64) and strconv.Atoi; none is an error.
abbrev digits_value : ℕ → Text → ℕ
digits_value n [] = n
digits_value n (c ∷ cs) = digits_value (n * 10 + (c - b'0')) cs

abbrev unsigned : Text → Option ℕ
unsigned cs = if leb 1 (length cs) && all is_digit cs then some (digits_value 0 cs) else none

abbrev in_int64 : Bool → Option ℕ → Option ℤ
in_int64 negative none = none
in_int64 false (some n) = if ltb n (2 ^ 63) then some (pos n) else none
in_int64 true (some zero) = some (pos 0)
in_int64 true (some (suc n)) = if ltb n (2 ^ 63) then some (negsuc n) else none

unfoldable pub parse_int : Text → Option ℤ
parse_int [] = none
parse_int (c ∷ cs) =
    if c == b'-'
    then in_int64 true (unsigned cs)
    else if c == b'+'
    then in_int64 false (unsigned cs)
    else in_int64 false (unsigned (c ∷ cs))

-- fmt.Sprintf("%d", n); n rounds are more than it has digits.
unfoldable pub decimal_from : ℕ → ℕ → Text
decimal_from zero n = (b'0' + n) ∷ []
decimal_from (suc rounds) n =
    let rest = decimal_from rounds (n / 10) in
    if ltb n 10 then (b'0' + n) ∷ [] else rest ++ ((b'0' + n % 10) ∷ [])

abbrev pub decimal : ℤ → Text
decimal (pos n) = decimal_from n n
decimal (negsuc n) = b'-' ∷ decimal_from (suc n) (suc n)

-- fmt.Sprintf("seg-%06d.m4s", n)
unfoldable pub segment_file : ℕ → Text
unfolding segment_path
segment_file n = drop 1 (segment_path "" n)
