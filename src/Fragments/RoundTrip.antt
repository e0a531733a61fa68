-- ===== src/Fragments/RoundTrip.antt =====
-- Boxes written in a row are read back: internal/recordingvalidation/fragment_durations.go.
use asset_api.Base.{
  ℕ, zero, suc, ◌+◌, ◌-◌, ◌/◌, ◌%◌, ◌≤◌, ◌<◌, ◌≡◌, refl, ◌∙◌, ap, false, ◌||◌, List, [], ◌∷◌, ◌++◌,
  arith, length, length-append, take, drop, ltb, ◌==◌, All,
}
use asset_api.Errors.{ok, ◌>>=◌}
use asset_api.Fragments.Boxes.{
  FragmentBox, big_endian, uint32, header_of, box_at, with_box, fragment_boxes,
}

-- The four bytes of a number below 2^32, the first the highest.
abbrev pub four_bytes : ℕ → List ℕ
four_bytes n = n / 16777216 ∷ n / 65536 % 256 ∷ n / 256 % 256 ∷ n % 256 ∷ []

-- A box as it stands in a file, with a header of eight bytes.
abbrev pub written : FragmentBox → List ℕ
written box = four_bytes (8 + length box.body) ++ (box.kind ++ box.body)

abbrev pub written_all : List FragmentBox → List ℕ
written_all [] = []
written_all (box ∷ boxes) = written box ++ written_all boxes

-- The kind has four bytes, and the length fits into 32 bits.
abbrev pub IsWritable : FragmentBox → Type 0
IsWritable box = (length box.kind ≡ 4) × (8 + length box.body < 4294967296)

uint32-four_bytes : (n : ℕ) (rest : List ℕ) → uint32 (four_bytes n ++ rest) ≡ n
unfolding big_endian
uint32-four_bytes n rest = omega arith

module _ {ℓ} {A : Type ℓ} where
  take_front : (xs ys : List A) (n : ℕ) → length xs ≡ n → take n (xs ++ ys) ≡ xs
  take_front [] ys zero e = refl
  take_front [] ys (suc n) e = absurd (omega arith)
  take_front (x ∷ xs) ys zero e = absurd (omega arith)
  take_front (x ∷ xs) ys (suc n) e = ap (λ zs. x ∷ zs) (take_front xs ys n (omega arith))

  drop_front : (xs ys : List A) (n : ℕ) → length xs ≡ n → drop n (xs ++ ys) ≡ ys
  drop_front [] ys zero e = refl
  drop_front [] ys (suc n) e = absurd (omega arith)
  drop_front (x ∷ xs) ys zero e = absurd (omega arith)
  drop_front (x ∷ xs) ys (suc n) e = drop_front xs ys n (omega arith)

  pub append_assoc : (xs ys zs : List A) → (xs ++ ys) ++ zs ≡ xs ++ (ys ++ zs)
  append_assoc [] ys zs = refl
  append_assoc (x ∷ xs) ys zs = ap (λ v. x ∷ v) (append_assoc xs ys zs)

-- One pass of the loop, with what its parts compute to.
one_box :
    (budget : ℕ) (bytes rest : List ℕ) (n head : ℕ) (box : FragmentBox) (boxes : List FragmentBox)
    (left : ℕ)
    → 1 ≤ length bytes
    → 1 ≤ budget
    → header_of bytes ≡ ok (n, head)
    → drop n bytes ≡ rest
    → box_at bytes n head ≡ box
    → fragment_boxes budget rest ≡ ok (boxes, left)
    → fragment_boxes (suc budget) bytes ≡ ok (box ∷ boxes, left)
unfolding fragment_boxes
one_box budget [] rest n head box boxes left p q h d b r = absurd (omega arith)
one_box budget (c ∷ cs) rest n head box boxes left p q h d b r =
    rw (nonzero, h)
      (ap (λ v. fragment_boxes budget v >>= with_box (box_at (c ∷ cs) n head)) d ∙ rw (r, b) refl)
  where
    nonzero : (budget == 0) ≡ false
    nonzero = ground arith

header_plain :
    (bytes : List ℕ) (n : ℕ)
    → uint32 bytes ≡ n
    → 8 ≤ n
    → n ≤ length bytes
    → header_of bytes ≡ ok (n, 8)
unfolding header_of
header_plain bytes n u a b = rw (enough, u, plain, known, fits) refl
  where
    enough : ltb (length bytes) 8 ≡ false
    enough = ground arith

    plain : (n == 1) ≡ false
    plain = ground arith

    known : (n == 0) ≡ false
    known = ground arith

    fits : (ltb n 8 || ltb (length bytes) n) ≡ false
    fits = ground arith

module _ (box : FragmentBox) (w : IsWritable box) (rest : List ℕ) where
  size_written : length (written box) ≡ 8 + length box.body
  size_written = omega (arith, length-append box.kind box.body, w.0)

  -- The header of a written box.
  header_written : header_of (written box ++ rest) ≡ ok (8 + length box.body, 8)
  unfolding header_of
  header_written =
      let n = 8 + length box.body in
      let u = uint32-four_bytes n ((box.kind ++ box.body) ++ rest) in
      let l = length-append (written box) rest in
      header_plain (written box ++ rest) n u (omega arith) (omega (arith, l, size_written))

  box-written : box_at (written box ++ rest) (8 + length box.body) 8 ≡ box
  box-written =
      let parted = append_assoc box.kind box.body rest in
      let kind = ap (take 4) parted ∙ take_front box.kind (box.body ++ rest) 4 w.0 in
      let behind = ap (drop 4) parted ∙ drop_front box.kind (box.body ++ rest) 4 w.0 in
      let body =
        ap (λ v. take v (drop 4 ((box.kind ++ box.body) ++ rest)))
          (without_header (length box.body))
        ∙ (ap (take (length box.body)) behind ∙ take_front box.body rest (length box.body) refl) in
      λ i. record { kind = kind i; body = body i }
    where
      without_header : (n : ℕ) → 8 + n - 8 ≡ n
      without_header n = omega arith

-- The boxes that are written in a row are read back, with one taken from the budget for each, if their
-- kinds have four bytes, their lengths fit into 32 bits and the budget is larger than their number.
pub written_all-fragment_boxes :
    (boxes : List FragmentBox) (budget : ℕ)
    → All IsWritable boxes
    → length boxes < budget
    → fragment_boxes budget (written_all boxes) ≡ ok (boxes, budget - length boxes)
unfolding fragment_boxes
written_all-fragment_boxes [] budget w l = ap (λ v. ok ([], v)) (omega arith)
written_all-fragment_boxes (box ∷ boxes) zero w l = absurd (omega arith)
written_all-fragment_boxes (box ∷ boxes) (suc budget) w l =
    one_box budget (written box ++ written_all boxes) (written_all boxes) (8 + length box.body) 8
      box boxes (suc budget - suc (length boxes)) (omega arith) (omega arith)
      (header_written box w.0 (written_all boxes))
      (drop_front (written box) (written_all boxes) (8 + length box.body) (size_written box w.0 []))
      (box-written box w.0 (written_all boxes))
      (written_all-fragment_boxes boxes budget w.1 (omega arith)
        ∙ ap (λ v. ok (boxes, v)) (omega arith))
