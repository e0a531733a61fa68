-- ===== src/Lifecycle/Worker.antt =====
-- ProcessOne of internal/lifecycle/worker.go, as the steps of any number of workers over one table: a
-- worker claims an asset, deletes its objects one by one, and then records that the asset is purged or when
-- it is tried again. A worker may stop behind any of its steps.
use asset_api.Base.{
  ℕ, ◌+◌, ◌*◌, ◌-◌, String, Bool, ◌||◌, Option, none, some, List, [], ◌∷◌, str_eq, if◌then◌else◌,
  any, update_row, get_elem?, set, kept_or, second,
}
use asset_api.Lifecycle.Model.{PurgeRow, Facts, day}
use asset_api.Lifecycle.Table.{
  Candidate, has_id, claim_purge, complete_purge, retry_purge, delete_expired_purge,
}

-- A failed delete keeps the text of its error, as truncate gives it.
pub data Progress : Type 0 where
  deleting closed : Progress
  delete_failed : String → Progress

pub record Ticket : Type 0 where
  pub asset_id : String
  pub remaining : List (List ℕ)
  pub now : ℕ
  pub progress : Progress

-- The table, the workers' tickets and the objects that the blob store has deleted.
pub record World : Type 0 where
  pub rows : List PurgeRow
  pub tickets : List Ticket
  pub deleted : List (List ℕ)

-- The first two are steps of the rest of the service.
pub data PurgeStep : Type 0 where
  inserts : PurgeRow → PurgeStep
  changes : String → Facts → PurgeStep
  claims : ℕ → (String → Bool) → PurgeStep
  deletes : ℕ → Option String → PurgeStep
  finishes : ℕ → PurgeStep
  expires : ℕ → (String → Bool) → PurgeStep

-- A new asset has a random id: one that is not in use.
abbrev pub in_use : String → World → Bool
in_use id w = any (has_id id) w.rows || any (λ t. str_eq id t.asset_id) w.tickets

abbrev pub insert : PurgeRow → World → World
insert r w = if in_use r.id w then w else record w { rows = record r { purged_at = none } ∷ w.rows }

abbrev pub with_facts : Facts → PurgeRow → PurgeRow
with_facts f r = record r { facts = f }

abbrev pub with_candidate : ℕ → World → Option Candidate × List PurgeRow → World
with_candidate now w (none, rows) = record w { rows = rows }
with_candidate now w (some c, rows) = record w {
  rows = rows;
  tickets =
      record { asset_id = c.asset_id; remaining = c.keys; now = now; progress = deleting }
      ∷ w.tickets;
}

abbrev pub with_remaining : ℕ → Ticket → List (List ℕ) → World → World
with_remaining i t keys w = record w { tickets = set w.tickets i (record t { remaining = keys }) }

abbrev pub with_progress : ℕ → Ticket → Progress → World → World
with_progress i t p w = record w { tickets = set w.tickets i (record t { progress = p }) }

-- One round of the loop over the keys.
abbrev pub delete_key : ℕ → Option String → Ticket → World → Progress → List (List ℕ) → World
delete_key i answer t w deleting ([] ∷ keys) = with_remaining i t keys w
delete_key i none t w deleting ((c ∷ cs) ∷ keys) =
    with_remaining i t keys (record w { deleted = (c ∷ cs) ∷ w.deleted })
delete_key i (some details) t w deleting ((c ∷ cs) ∷ keys) =
    with_progress i t (delete_failed details) w
delete_key i answer t w p keys = w

abbrev pub delete_next : ℕ → Option String → World → Option Ticket → World
delete_next i answer w none = w
delete_next i answer w (some t) = delete_key i answer t w t.progress t.remaining

abbrev pub with_rows : ℕ → Ticket → World → List PurgeRow → World
with_rows i t w rows = with_progress i t closed (record w { rows = rows })

abbrev pub finish_as : ℕ → Ticket → World → Progress → List (List ℕ) → World
finish_as i t w deleting [] = with_rows i t w (complete_purge t.asset_id t.now w.rows).1
finish_as i t w (delete_failed details) keys =
    with_rows i t w (retry_purge t.asset_id details (t.now + 60 * second) t.now w.rows).1
finish_as i t w p keys = w

abbrev pub finish : ℕ → World → Option Ticket → World
finish i w none = w
finish i w (some t) = finish_as i t w t.progress t.remaining

unfoldable pub step : PurgeStep → World → World
step (inserts r) w = insert r w
step (changes id f) w = record w {
  rows = kept_or w.rows (update_row (has_id id) (with_facts f) w.rows);
}
step (claims now locked) w = with_candidate now w (claim_purge now (60 * second) locked w.rows)
step (deletes i answer) w = delete_next i answer w (get_elem? w.tickets i)
step (finishes i) w = finish i w (get_elem? w.tickets i)
step (expires now locked) w = record w {
  rows = (delete_expired_purge (now - 180 * day) locked 100 w.rows).1;
}

unfoldable pub run : List PurgeStep → World → World
run [] w = w
run (t ∷ ts) w = run ts (step t w)
