-- ===== src/Playlists/Attributes.antt =====
-- The attribute lists of a playlist: a writer with quotes, and what recordingAttributes of
-- internal/assets/recording_playlist.go reads of its texts.
use asset_api.Base.{
  ℕ, zero, suc, ◌≤◌, Bool, true, false, some, [], ◌∷◌, ◌++◌, if◌then◌else◌, length, length-append,
  all, All, ◌≡◌, refl, ap, ◌∙◌, arith,
}
use asset_api.Errors.{ok, err, invalid_upload}
use asset_api.Playlists.Text.{
  Text, Attributes, span, closed_quote, with_key, keyed, attribute, has_attr, next_attribute,
  with_attribute, read_attribute, attributes_from, recording_attributes, key_char, quoted_char,
  quote,
}

-- key="value" in front of a text.
abbrev pub written : Text × Text → Text → Text
written (key, value) rest = key ++ (b'=' ∷ quote ∷ (value ++ (quote ∷ rest)))

abbrev pub written_all : Attributes → Text
written_all [] = []
written_all (a ∷ []) = written a []
written_all (a ∷ b ∷ rest) = written a (b',' ∷ written_all (b ∷ rest))

-- A key of capitals and dashes, and a value without quotes and line breaks.
abbrev pub IsWritable : Text × Text → Type 0
IsWritable (key, value) =
    (1 ≤ length key) × (all key_char key ≡ true) × (all quoted_char value ≡ true)

-- The attributes in front of those read before, the last one first.
abbrev pub onto : Attributes → Attributes → Attributes
onto [] before = before
onto (a ∷ rest) before = onto rest (a ∷ before)

-- No key stands twice, nor is one of those read before.
abbrev pub AreNew : Attributes → Attributes → Type 0
AreNew [] before = Unit
AreNew (a ∷ rest) before = (has_attr a.0 before ≡ false) × AreNew rest (a ∷ before)

span-all :
    (p : ℕ → Bool) (front : Text) (c : ℕ) (rest : Text)
    → all p front ≡ true
    → p c ≡ false
    → span p (front ++ (c ∷ rest)) ≡ (front, c ∷ rest)
unfolding span
span-all p [] c rest h n = rw n refl
span-all p (x ∷ xs) c rest h n =
    let here : p x ≡ true = ground (arith, h) in
    ap (λ (s : Text × Text). if p x then (x ∷ s.0, s.1) else ([], x ∷ (xs ++ (c ∷ rest))))
      (span-all p xs c rest (ground (arith, h)) n)
    ∙ ap (λ b. if◌then◌else◌ {A = Text × Text} b (x ∷ xs, c ∷ rest) ([], x ∷ (xs ++ (c ∷ rest))))
        here

attribute-written :
    (a : Text × Text) (rest : Text)
    → IsWritable a
    → attribute (written a rest) ≡ some (a.0, a.1, rest)
unfolding attribute
attribute-written ([], value) rest w = absurd (omega arith)
attribute-written (k ∷ ks, value) rest w =
    ap keyed (span-all key_char (k ∷ ks) b'=' (quote ∷ (value ++ (quote ∷ rest))) w.1 refl)
    ∙ ap (λ s. with_key (k ∷ ks) (closed_quote s)) (span-all quoted_char value quote rest w.2 refl)

one_written :
    (n : ℕ) (before : Attributes) (a : Text × Text) (rest : Text)
    → IsWritable a
    → has_attr a.0 before ≡ false
    → attributes_from (suc n) before (written a rest)
      ≡ with_attribute (attributes_from n) before a (next_attribute rest)
one_written n before ([], value) rest w f = absurd (omega arith)
one_written n before (k ∷ ks, value) rest w f =
    unfold attributes_from in
    (ap (read_attribute (attributes_from n) before) (attribute-written (k ∷ ks, value) rest w)
      ∙ ap
          (λ b.
            if b
            then err invalid_upload
            else with_attribute (attributes_from n) before (k ∷ ks, value) (next_attribute rest))
          f)

attributes_from-nil : (n : ℕ) (before : Attributes) → attributes_from n before [] ≡ ok before
unfolding attributes_from
attributes_from-nil n before = refl

next_written :
    (a : Text × Text) (rest : Attributes)
    → IsWritable a
    → next_attribute (b',' ∷ written_all (a ∷ rest)) ≡ some (written_all (a ∷ rest))
next_written ([], value) rest w = absurd (omega arith)
next_written (k ∷ ks, value) [] w = refl
next_written (k ∷ ks, value) (b ∷ rest) w = refl

attributes_from-written :
    (n : ℕ) (list before : Attributes)
    → length list ≤ n
    → All IsWritable list
    → AreNew list before
    → attributes_from n before (written_all list) ≡ ok (onto list before)
attributes_from-written n [] before l w d = attributes_from-nil n before
attributes_from-written zero (a ∷ rest) before l w d = absurd (omega arith)
attributes_from-written (suc n) (a ∷ []) before l w d =
    one_written n before a [] w.0 d.0 ∙ attributes_from-nil n (a ∷ before)
attributes_from-written (suc n) (a ∷ b ∷ rest) before l w d =
    one_written n before a (b',' ∷ written_all (b ∷ rest)) w.0 d.0
    ∙ ap (with_attribute (attributes_from n) before a) (next_written b rest w.1.0)
    ∙ attributes_from-written n (b ∷ rest) (a ∷ before) (omega arith) w.1 d.1

written-length : (a : Text × Text) (rest : Text) → suc (length rest) ≤ length (written a rest)
written-length (key, value) rest = omega (
  arith,
  length-append key (b'=' ∷ quote ∷ (value ++ (quote ∷ rest))),
  length-append value (quote ∷ rest),
)

written_all-length : (list : Attributes) → length list ≤ length (written_all list)
written_all-length [] = omega arith
written_all-length (a ∷ []) = omega (arith, written-length a [])
written_all-length (a ∷ b ∷ rest) =
    omega (arith, written-length a (b',' ∷ written_all (b ∷ rest)), written_all-length (b ∷ rest))

-- Attributes that are written with quotes are read back, the last one first, if their keys are of capitals
-- and dashes and distinct, and their values have no quotes and no line breaks.
pub written_all-recording_attributes :
    (list : Attributes)
    → All IsWritable list
    → AreNew list []
    → recording_attributes (written_all list) ≡ ok (onto list [])
unfolding recording_attributes
written_all-recording_attributes list w d =
    attributes_from-written (length (written_all list)) list [] (written_all-length list) w d
