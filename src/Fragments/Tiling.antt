-- ===== src/Fragments/Tiling.antt =====
-- The boxes cover the bytes: internal/recordingvalidation/fragment_durations.go.
use asset_api.Base.{
  ℕ, zero, suc, ◌+◌, ◌-◌, ◌≤◌, true, ◌||◌, not, ◌≡◌, refl, sym, ◌∙◌, ap, subst, inl, inr, List, [],
  ◌∷◌, ◌++◌, arith, length, take, drop, ltb, ◌==◌, Bool-cases, if-cases,
}
use asset_api.Errors.{Result, ok, invalid_upload, guard, >>=-eq-ok, guard-eq-ok, ok_injective}
use asset_api.Fragments.Boxes.{
  FragmentBox, uint32, checked_length, header_of, box_at, fragment_boxes,
}

-- The bytes are those of the boxes in a row: the header of each has eight or sixteen bytes, the kind
-- behind its first four, and the body follows.
abbrev pub Tiles : List ℕ → List FragmentBox → Type 0
Tiles bytes [] = bytes ≡ []
Tiles bytes (box ∷ boxes) =
    (header : List ℕ) × (rest : List ℕ) × (bytes ≡ header ++ (box.body ++ rest))
    × (8 ≤ length header)
    × (length header ≤ 16)
    × (take 4 (drop 4 header) ≡ box.kind)
    × Tiles rest boxes

pub take-drop {ℓ} : {A : Type ℓ} (n : ℕ) (xs : List A) → take n xs ++ drop n xs ≡ xs
take-drop zero xs = refl
take-drop (suc n) [] = refl
take-drop (suc n) (x ∷ xs) = ap (λ ys. x ∷ ys) (take-drop n xs)

module _ {ℓ} {A : Type ℓ} where
  drop_nil : (n : ℕ) → drop {A = A} n [] ≡ []
  drop_nil zero = refl
  drop_nil (suc n) = refl

  take_nil : (n : ℕ) → take {A = A} n [] ≡ []
  take_nil zero = refl
  take_nil (suc n) = refl

  drop-drop : (n m : ℕ) (xs : List A) → drop m (drop n xs) ≡ drop (n + m) xs
  drop-drop zero m xs = ap (λ v. drop v xs) (omega arith)
  drop-drop (suc n) m [] = drop_nil m ∙ sym (drop_nil (suc n + m))
  drop-drop (suc n) m (x ∷ xs) = drop-drop n m xs ∙ ap (λ v. drop v (x ∷ xs)) (suc_left n m)
    where
      suc_left : (i j : ℕ) → suc (i + j) ≡ suc i + j
      suc_left i j = omega arith

  take-take : (n m : ℕ) (xs : List A) → n ≤ m → take n (take m xs) ≡ take n xs
  take-take zero m xs h = refl
  take-take (suc n) zero xs h = absurd (omega arith)
  take-take (suc n) (suc m) [] h = refl
  take-take (suc n) (suc m) (x ∷ xs) h = ap (λ ys. x ∷ ys) (take-take n m xs (omega arith))

  drop-take : (n m : ℕ) (xs : List A) → n ≤ m → drop n (take m xs) ≡ take (m - n) (drop n xs)
  drop-take zero m xs h = ap (λ v. take v xs) (omega arith)
  drop-take (suc n) zero xs h = absurd (omega arith)
  drop-take (suc n) (suc m) [] h = sym (take_nil (suc m - suc n))
  drop-take (suc n) (suc m) (x ∷ xs) h =
      drop-take n m xs (omega arith) ∙ ap (λ v. take v (drop n xs)) (omega arith)

length-take {ℓ} : {A : Type ℓ} (n : ℕ) (xs : List A) → n ≤ length xs → length (take n xs) ≡ n
length-take zero xs h = refl
length-take (suc n) [] h = absurd (omega arith)
length-take (suc n) (x ∷ xs) h = ap suc (length-take n xs (omega arith))

-- A header is accepted only if it fits.
abbrev Fits : List ℕ → ℕ × ℕ → Type 0
Fits bytes h = (8 ≤ h.1) × (h.1 ≤ 16) × (h.1 ≤ h.0) × (h.0 ≤ length bytes)

checked-Fits :
    (bytes : List ℕ) (n head : ℕ) (h : ℕ × ℕ)
    → 8 ≤ head
    → head ≤ 16
    → checked_length (length bytes) n head ≡ ok h
    → Fits bytes h
checked-Fits bytes n head h low high e = elim (Bool-cases (ltb n head || ltb (length bytes) n)) [
  | inl t ↦ absurd (ground (arith, e, t))
  | inr f ↦
      subst (Fits bytes) (ok_injective (rw f at e))
        (low, high, (ground (arith, f)), ground (arith, f))
]

header_of-Fits : (bytes : List ℕ) (h : ℕ × ℕ) → header_of bytes ≡ ok h → Fits bytes h
unfolding header_of
header_of-Fits bytes h =
    if-cases Q (ltb (length bytes) 8) _ _ (λ t e. absurd (cc))
      (λ f.
        if-cases Q (uint32 bytes == 1) _ _
          (λ t.
            if-cases Q (ltb (length bytes) 16) _ _ (λ t e. absurd (cc))
              (λ f. checked-Fits bytes _ 16 h (omega arith) (omega arith)))
          (λ f.
            if-cases Q (uint32 bytes == 0) _ _
              (λ t. checked-Fits bytes _ 8 h (omega arith) (omega arith))
              (λ f. checked-Fits bytes _ 8 h (omega arith) (omega arith))))
  where
    Q : Result (ℕ × ℕ) → Type 0
    Q r = r ≡ ok h → Fits bytes h

-- A box that fits, the bytes before it and the bytes behind it.
Tiles-box :
    (bytes : List ℕ) (n head : ℕ) (boxes : List FragmentBox)
    → Fits bytes (n, head)
    → Tiles (drop n bytes) boxes
    → Tiles bytes (box_at bytes n head ∷ boxes)
Tiles-box bytes n head boxes (a, b, c, d) t =
    let rest = ap (λ v. drop v bytes) (head_first n head c) in
    let behind = drop-drop head (n - head) bytes ∙ rest in
    let body = take-drop (n - head) (drop head bytes) in
    (
      take head bytes,
      drop n bytes,
      sym (take-drop head bytes)
          ∙ ap (λ v. take head bytes ++ v)
              (sym body ∙ ap (λ v. take (n - head) (drop head bytes) ++ v) behind),
      rw (length-take head bytes (omega arith)) a,
      rw (length-take head bytes (omega arith)) b,
      ap (take 4) (drop-take 4 head bytes (omega arith))
          ∙ take-take 4 (head - 4) (drop 4 bytes) (omega arith),
      t,
    )
  where
    head_first : (i j : ℕ) → j ≤ i → j + (i - j) ≡ i
    head_first i j h = omega arith

-- A file that is parsed is tiled by its boxes, and each of them takes one from the budget, which never
-- runs out on the way: a budget of b allows at most b - 1 boxes.
pub fragment_boxes-Tiles :
    (budget : ℕ) (bytes : List ℕ) (boxes : List FragmentBox) (left : ℕ)
    → fragment_boxes budget bytes ≡ ok (boxes, left)
    → Tiles bytes boxes × (length boxes + left ≡ budget) × (1 ≤ budget → 1 ≤ left)
unfolding fragment_boxes
fragment_boxes-Tiles budget [] boxes left e =
    let q = ok_injective e in
    let p = ap (λ x. x.0) q in
    let l = ap (λ x. x.1) q in
    (
      subst (Tiles []) p refl,
      subst (λ v. length v + left ≡ budget) p (omega arith),
      (λ h. omega (arith, l)),
    )
fragment_boxes-Tiles zero (b ∷ bs) boxes left e = absurd (cc)
fragment_boxes-Tiles (suc budget) (b ∷ bs) boxes left e =
    let (u, g, e1) = >>=-eq-ok (guard (not (budget == 0)) invalid_upload) _ e in
    let ((n, head), h, e2) = >>=-eq-ok (header_of (b ∷ bs)) _ e1 in
    let ((rest, after), r, e3) = >>=-eq-ok (fragment_boxes budget (drop n (b ∷ bs))) _ e2 in
    let (t, c, l) = fragment_boxes-Tiles budget (drop n (b ∷ bs)) rest after r in
    let q = ok_injective e3 in
    let a = ap (λ x. x.1) q in
    subst (λ v. Tiles (b ∷ bs) v × (length v + left ≡ suc budget) × (1 ≤ suc budget → 1 ≤ left))
      (ap (λ x. x.0) q)
      (
        Tiles-box (b ∷ bs) n head rest (header_of-Fits (b ∷ bs) (n, head) h) t,
        omega (arith, c, a),
        (λ i. omega (arith, l (nonzero (guard-eq-ok (not (budget == 0)) invalid_upload g)), a)),
      )
  where
    nonzero : not (budget == 0) ≡ true → 1 ≤ budget
    nonzero x = ground (arith, x)
