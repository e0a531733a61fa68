-- ===== src/Fragments/Boxes.antt =====
-- fragmentBoxes and the methods of a box: internal/recordingvalidation/fragment_durations.go. A file is
-- the list of its bytes, read without an error; `invalid_upload` is the only error that is left. The
-- budget that the boxes share is passed on.
use asset_api.Base.{
  ℕ, zero, suc, ◌+◌, ◌-◌, ◌*◌, String, Bool, ◌||◌, not, List, [], ◌∷◌, ◌==◌, ltb, if◌then◌else◌,
  length, take, drop, codes, same_codes,
}
use asset_api.Errors.{Result, ok, err, invalid_upload, ◌>>=◌, ◌>>◌, guard}

-- The kind is the text of four bytes.
pub record FragmentBox : Type 0 where
  pub kind : List ℕ
  pub body : List ℕ

unfoldable pub big_endian : ℕ → List ℕ → ℕ
big_endian n [] = n
big_endian n (b ∷ bs) = big_endian (n * 256 + b) bs

-- binary.BigEndian.Uint32 and Uint64 of the first bytes.
abbrev pub uint32 : List ℕ → ℕ
uint32 bytes = big_endian 0 (take 4 bytes)

abbrev pub uint64 : List ℕ → ℕ
uint64 bytes = big_endian 0 (take 8 bytes)

abbrev pub kind_is : String → FragmentBox → Bool
kind_is name box = same_codes box.kind (codes name)

-- A length from the size of its header to what is left.
abbrev pub checked_length : ℕ → ℕ → ℕ → Result (ℕ × ℕ)
checked_length size n head = if ltb n head || ltb size n then err invalid_upload else ok (n, head)

-- The length of the first box and of its header.
unfoldable pub header_of : List ℕ → Result (ℕ × ℕ)
unfolding big_endian
header_of bytes =
    let size = length bytes in
    if ltb size 8
    then err invalid_upload
    else if uint32 bytes == 1
    then if ltb size 16 then err invalid_upload else checked_length size (uint64 (drop 8 bytes)) 16
    else if uint32 bytes == 0
    then checked_length size size 8
    else checked_length size (uint32 bytes) 8

abbrev pub box_at : List ℕ → ℕ → ℕ → FragmentBox
box_at bytes n head = record {
  kind = take 4 (drop 4 bytes);
  body = take (n - head) (drop head bytes);
}

abbrev pub with_box : FragmentBox → List FragmentBox × ℕ → Result (List FragmentBox × ℕ)
with_box box (boxes, budget) = ok (box ∷ boxes, budget)

-- The boxes and the budget that is left.
unfoldable pub fragment_boxes : ℕ → List ℕ → Result (List FragmentBox × ℕ)
fragment_boxes budget [] = ok ([], budget)
fragment_boxes zero (b ∷ bs) = err invalid_upload
fragment_boxes (suc left) (b ∷ bs) =
    guard (not (left == 0)) invalid_upload
    >> (header_of (b ∷ bs) >>= λ h.
        fragment_boxes left (drop h.0 (b ∷ bs)) >>= with_box (box_at (b ∷ bs) h.0 h.1))

abbrev pub children : FragmentBox → ℕ → Result (List FragmentBox × ℕ)
children box budget = fragment_boxes budget box.body

abbrev pub metadata : FragmentBox → Result (List ℕ)
metadata box = if ltb 65536 (length box.body) then err invalid_upload else ok box.body
