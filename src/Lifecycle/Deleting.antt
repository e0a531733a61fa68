-- ===== src/Lifecycle/Deleting.antt =====
-- A deleted object is accounted for: internal/lifecycle/worker.go.
use asset_api.Base.{ℕ, ◌≡◌, true, List, [], ◌∷◌, arith, All-mono}
use asset_api.Lifecycle.Model.{PurgeRow}
use asset_api.Lifecycle.Table.{row_keys}
use asset_api.Lifecycle.Keys.{accounted, Accounted}

-- A deleted object is accounted for wherever it was.
pub log-more :
    (log keys : List (List ℕ)) (key : List ℕ) (r : PurgeRow)
    → Accounted log keys r
    → Accounted (key ∷ log) keys r
log-more log keys key r =
    All-mono (λ k. accounted log keys k ≡ true) (λ k. accounted (key ∷ log) keys k ≡ true)
      (row_keys r) (λ k h. ground (arith, h))

pub key-done :
    (log keys : List (List ℕ)) (key : List ℕ) (r : PurgeRow)
    → Accounted log (key ∷ keys) r
    → Accounted (key ∷ log) keys r
key-done log keys key r =
    All-mono (λ k. accounted log (key ∷ keys) k ≡ true) (λ k. accounted (key ∷ log) keys k ≡ true)
      (row_keys r) (λ k h. ground (arith, h))

pub key-empty :
    (log keys : List (List ℕ)) (r : PurgeRow) → Accounted log ([] ∷ keys) r → Accounted log keys r
key-empty log keys r =
    All-mono (λ k. accounted log ([] ∷ keys) k ≡ true) (λ k. accounted log keys k ≡ true)
      (row_keys r) (λ k h. ground (arith, h))

-- The ticket is t with the keys named on their own.
