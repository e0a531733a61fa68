-- ===== src/Base/Texts.antt =====
-- Texts as lists of character codes, with the character classes of the source's regular expressions.
use Prim.Native.Nat.{ℕ, zero, suc}
use Prim.Native.Char.{code}
use Prim.Native.String.{String}
use mathlib.Core.Bool.{Bool, true, false, ◌&&◌, ◌||◌}
use mathlib.Core.Path.{◌≡◌, refl}
use native.Mathlib.Omega.{arith}
use mathlib.Core.List.{List, [], ◌∷◌}
use mathlib.Core.Option.{Option, none, some}
use asset_api.Base.Tests.{ltb, leb, ◌==◌, if◌then◌else◌}

abbrev pub codes : String → List ℕ
codes String.[] = []
codes (String.◌∷◌ c s) = code c ∷ codes s

abbrev pub append : String → String → String
append String.[] t = t
append (String.◌∷◌ c s) t = String.◌∷◌ c (append s t)

abbrev pub is_digit : ℕ → Bool
is_digit c = leb b'0' c && leb c b'9'

-- [a-fA-F0-9]
abbrev pub is_hex : ℕ → Bool
is_hex c = is_digit c || (leb b'a' c && leb c b'f') || (leb b'A' c && leb c b'F')

abbrev pub is_lower_hex : ℕ → Bool
is_lower_hex c = is_digit c || (leb b'a' c && leb c b'f')

abbrev pub is_letter : ℕ → Bool
is_letter c = (leb b'a' c && leb c b'z') || (leb b'A' c && leb c b'Z')

-- What is left of a text behind the given prefix.
unfoldable pub strip_prefix : List ℕ → List ℕ → Option (List ℕ)
strip_prefix [] cs = some cs
strip_prefix (p ∷ ps) [] = none
strip_prefix (p ∷ ps) (c ∷ cs) = if p == c then strip_prefix ps cs else none

-- What is left of a text behind exactly `n` characters of the class.
unfoldable pub strip_run : ℕ → (ℕ → Bool) → List ℕ → Option (List ℕ)
strip_run zero p cs = some cs
strip_run (suc n) p [] = none
strip_run (suc n) p (c ∷ cs) = if p c then strip_run n p cs else none

-- strings.Compare of two texts is at most 0.
unfoldable pub code_le : List ℕ → List ℕ → Bool
code_le [] ys = true
code_le (x ∷ xs) [] = false
code_le (x ∷ xs) (y ∷ ys) = if x == y then code_le xs ys else ltb x y

-- A regular expression that is a sequence of character classes, anchored at both ends.
unfoldable pub matches : List (ℕ → Bool) → List ℕ → Bool
matches [] [] = true
matches (p ∷ ps) (c ∷ cs) = p c && matches ps cs
matches _ _ = false

-- The class n times, before the others: `[...]{n}`.
abbrev pub times : ℕ → (ℕ → Bool) → List (ℕ → Bool) → List (ℕ → Bool)
times zero p ps = ps
times (suc n) p ps = p ∷ times n p ps

abbrev pub same_codes : List ℕ → List ℕ → Bool
same_codes [] [] = true
same_codes (x ∷ xs) (y ∷ ys) = x == y && same_codes xs ys
same_codes _ _ = false

pub same_codes_refl : (xs : List ℕ) → same_codes xs xs ≡ true
same_codes_refl [] = refl
same_codes_refl (x ∷ xs) = ground (arith, same_codes_refl xs)

pub same_codes_eq : (xs ys : List ℕ) → same_codes xs ys ≡ true → xs ≡ ys
same_codes_eq [] [] h = refl
same_codes_eq [] (y ∷ ys) h = absurd (cc)
same_codes_eq (x ∷ xs) [] h = absurd (cc)
same_codes_eq (x ∷ xs) (y ∷ ys) h =
    let e : x ≡ y = ground (arith, h) in λ i. e i ∷ same_codes_eq xs ys (ground (arith, h)) i
