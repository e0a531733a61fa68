-- ===== src/Lifecycle/Kept.antt =====
-- What the statements of the purge keep of every row (internal/postgres/store.go).
use asset_api.Base.{
  ℕ, zero, suc, String, ◌≡◌, refl, Bool, false, Option, none, some, List, [], ◌∷◌, inl, inr, arith,
  ◌==◌, any, All, Bool-cases, Option-cases, first_by, if-cases, kept_or,
}
use asset_api.Errors.{Result}
use asset_api.Lifecycle.Model.{PurgeRow}
use asset_api.Lifecycle.Table.{
  has_id, delete_expired_purge, delete_rows, without, exactly_one, is_expired, purged_first,
}

pub exactly_one-rows :
    (rows : List PurgeRow) (o : Option (List PurgeRow)) → (exactly_one rows o).1 ≡ kept_or rows o
exactly_one-rows rows none = refl
exactly_one-rows rows (some after) = refl

pub without-All :
    (Q : PurgeRow → Type 0) (id : String) (rows : List PurgeRow)
    → All Q rows
    → All Q (without id rows)
without-All Q id [] h = tt
without-All Q id (r ∷ rows) h = elim (Bool-cases (has_id id r)) [
  | inl t ↦ rw t (without-All Q id rows h.1)
  | inr f ↦ rw f (h.0, without-All Q id rows h.1)
]

pub delete_rows-All :
    (Q : PurgeRow → Type 0) (before : ℕ) (locked : String → Bool) (limit : ℕ) (rows : List PurgeRow)
    → All Q rows
    → All Q (delete_rows before locked limit rows).1
unfolding delete_rows
delete_rows-All Q before locked zero rows h = h
delete_rows-All Q before locked (suc limit) rows h =
    elim (Option-cases (first_by (is_expired before locked) purged_first rows)) [
      | inl n ↦ rw (n, delete_rows) h
      | inr (r, m) ↦
          rw (m, delete_rows)
            (delete_rows-All Q before locked limit (without r.id rows) (without-All Q r.id rows h))
    ]

pub both-All :
    (P Q : PurgeRow → Type 0) (rows : List PurgeRow)
    → All P rows
    → All Q rows
    → All (λ r. P r × Q r) rows
both-All P Q [] p q = tt
both-All P Q (r ∷ rows) p q = ((p.0, q.0), both-All P Q rows p.1 q.1)

pub any-false :
    {A : Type 0} (p : A → Bool) (ts : List A) → any p ts ≡ false → All (λ t. p t ≡ false) ts
any-false p [] h = tt
any-false p (t ∷ ts) h = (ground (arith, h), any-false p ts (ground (arith, h)))

pub zip-All :
    {A : Type 0} (P Q R : A → Type 0) (xs : List A)
    → ((x : A) → P x → Q x → R x)
    → All P xs
    → All Q xs
    → All R xs
zip-All P Q R [] f p q = tt
zip-All P Q R (x ∷ xs) f p q = (f x p.0 q.0, zip-All P Q R xs f p.1 q.1)

pub delete_expired_purge-All :
    (Q : PurgeRow → Type 0) (before limit : ℕ) (locked : String → Bool) (rows : List PurgeRow)
    → All Q rows
    → All Q (delete_expired_purge before locked limit rows).1
unfolding delete_expired_purge
delete_expired_purge-All Q before limit locked rows h =
    if-cases (λ (x : Result ℕ × List PurgeRow). All Q x.1) (limit == 0) _ _ (λ t. h)
      (λ f. delete_rows-All Q before locked limit rows h)
