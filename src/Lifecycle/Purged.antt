-- ===== src/Lifecycle/Purged.antt =====
-- An asset is not marked as purged before its objects are deleted: internal/lifecycle/worker.go and
-- ClaimPurge, CompletePurge and RetryPurge of internal/postgres/store.go.
use asset_api.Base.{
  ℕ, ◌+◌, ◌*◌, String, ◌≡◌, refl, sym, subst, Bool, true, false, Option, none, some, List, [], ◌∷◌,
  arith, str_eq, is_some, All, All-mono, All-get_elem?, All-set, update_row, get_elem?, set,
  if-cases, kept_or, kept_or-All, second,
}
use asset_api.Lifecycle.Model.{PurgeRow, Facts}
use asset_api.Lifecycle.Table.{
  has_id, row_keys, claimed, claim_row, claim_purge, complete_purge, retry_purge,
  delete_expired_purge, is_unpurged, purged, postponed,
}
use asset_api.Lifecycle.Worker.{
  Progress, deleting, closed, delete_failed, Ticket, World, PurgeStep, inserts, changes, claims,
  deletes, finishes, expires, in_use, insert, with_facts, with_candidate, delete_key, delete_next,
  with_rows, finish_as, finish, step, run,
}
use asset_api.Lifecycle.Kept.{
  exactly_one-rows, both-All, any-false, zip-All, delete_expired_purge-All,
}
use asset_api.Lifecycle.Keys.{Accounted, keys_with-Accounted}
use asset_api.Lifecycle.Deleting.{log-more, key-done, key-empty}

-- A purged row has nothing left to be deleted.
abbrev pub RowGone : List (List ℕ) → PurgeRow → Type 0
RowGone log r = is_some r.purged_at ≡ true → Accounted log [] r

-- A ticket has what is left of the row that it has claimed.
abbrev RowOf : List (List ℕ) → Ticket → PurgeRow → Type 0
RowOf log t r = has_id t.asset_id r ≡ true → Accounted log t.remaining r

abbrev AllGone : World → Type 0
AllGone w = All (RowGone w.deleted) w.rows × All (λ t. All (RowOf w.deleted t) w.rows) w.tickets

-- An update that keeps the key columns and purges nothing.
update-AllGone :
    (w : World) (test : PurgeRow → Bool) (f : PurgeRow → PurgeRow)
    → ((log : List (List ℕ)) (r : PurgeRow) → RowGone log r → RowGone log (f r))
    → ((log : List (List ℕ)) (t : Ticket) (r : PurgeRow) → RowOf log t r → RowOf log t (f r))
    → AllGone w
    → AllGone (record w { rows = kept_or w.rows (update_row test f w.rows) })
update-AllGone w test f g o h = (
  kept_or-All (RowGone w.deleted) test f w.rows (λ r t. g w.deleted r) h.0,
  All-mono (λ t. All (RowOf w.deleted t) w.rows)
      (λ t. All (RowOf w.deleted t) (kept_or w.rows (update_row test f w.rows))) w.tickets
      (λ t. kept_or-All (RowOf w.deleted t) test f w.rows (λ r u. o w.deleted t r)) h.1,
)

changes-AllGone :
    (w : World) (id : String) (f : Facts) → AllGone w → AllGone (step (changes id f) w)
unfolding step row_keys
changes-AllGone w id f = update-AllGone w (has_id id) (with_facts f) (λ log r h. h) (λ log t r h. h)

claims-AllGone :
    (w : World) (now until : ℕ) (o : Option PurgeRow)
    → AllGone w
    → AllGone (with_candidate now w (claim_row until w.rows o))
unfolding row_keys
claims-AllGone w now until none h = h
claims-AllGone w now until (some r) h =
    let kept = update-AllGone w (has_id r.id) (claimed until) (λ log q k. k) (λ log t q k. k) h in
    (
      kept.0,
      (
        kept_or-All (λ q. has_id r.id q ≡ true → Accounted w.deleted _ q) (has_id r.id)
            (claimed until) w.rows (λ q u k. k) (keys_with-Accounted w.deleted r.id w.rows),
        kept.1,
      ),
    )

-- A ticket that is put back with as much left to delete.
set-AllGone :
    (w : World) (i : ℕ) (t : Ticket)
    → All (RowOf w.deleted t) w.rows
    → AllGone w
    → AllGone (record w { tickets = set w.tickets i t })
set-AllGone w i t k h = (h.0, All-set (λ u. All (RowOf w.deleted u) w.rows) w.tickets i t k h.1)

delete_key-AllGone :
    (i : ℕ) (answer : Option String) (t : Ticket) (w : World) (p : Progress) (keys : List (List ℕ))
    → All (λ r. has_id t.asset_id r ≡ true → Accounted w.deleted keys r) w.rows
    → All (RowOf w.deleted t) w.rows
    → AllGone w
    → AllGone (delete_key i answer t w p keys)
delete_key-AllGone i answer t w deleting ([] ∷ keys) a o h =
    set-AllGone w i (record t { remaining = keys })
      (All-mono _ _ w.rows (λ r k u. key-empty w.deleted keys r (k u)) a) h
delete_key-AllGone i none t w deleting ((c ∷ cs) ∷ keys) a o h =
    set-AllGone (record w { deleted = (c ∷ cs) ∷ w.deleted }) i (record t { remaining = keys })
      (All-mono _ _ w.rows (λ r k u. key-done w.deleted keys (c ∷ cs) r (k u)) a)
      (
        All-mono _ _ w.rows (λ r k u. log-more w.deleted [] (c ∷ cs) r (k u)) h.0,
        All-mono (λ v. All (RowOf w.deleted v) w.rows)
            (λ v. All (RowOf ((c ∷ cs) ∷ w.deleted) v) w.rows) w.tickets
            (λ v. All-mono _ _ w.rows (λ r k u. log-more w.deleted v.remaining (c ∷ cs) r (k u)))
            h.1,
      )
delete_key-AllGone i (some details) t w deleting ((c ∷ cs) ∷ keys) a o h =
    set-AllGone w i (record t { progress = delete_failed details }) o h
delete_key-AllGone i answer t w deleting [] a o h = h
delete_key-AllGone i answer t w closed keys a o h = h
delete_key-AllGone i answer t w (delete_failed d) keys a o h = h

delete_next-AllGone :
    (i : ℕ) (answer : Option String) (w : World) (o : Option Ticket)
    → get_elem? w.tickets i ≡ o
    → AllGone w
    → AllGone (delete_next i answer w o)
delete_next-AllGone i answer w none g h = h
delete_next-AllGone i answer w (some t) g h =
    let k = All-get_elem? (λ u. All (RowOf w.deleted u) w.rows) w.tickets i h.1 g in
    delete_key-AllGone i answer t w t.progress t.remaining k k h

-- An update by CompletePurge or RetryPurge, with what it needs of the rows that it changes.
complete-AllGone :
    (w : World) (id : String) (now : ℕ)
    → All (λ r. has_id id r ≡ true → Accounted w.deleted [] r) w.rows
    → AllGone w
    → AllGone (record w { rows = (complete_purge id now w.rows).1 })
unfolding complete_purge row_keys
complete-AllGone w id now a h =
    subst (λ v. AllGone (record w { rows = v }))
      (sym (exactly_one-rows w.rows (update_row (is_unpurged id) (purged now) w.rows)))
      (
        All-mono _ _ (kept_or w.rows (update_row (is_unpurged id) (purged now) w.rows)) (λ r k. k.0)
            (kept_or-All
              (λ r. RowGone w.deleted r × (has_id id r ≡ true → Accounted w.deleted [] r))
              (is_unpurged id) (purged now) w.rows (λ r u k. ((λ d. k.1 (ground (arith, u))), k.1))
              (both-All _ _ w.rows h.0 a)),
        All-mono (λ t. All (RowOf w.deleted t) w.rows)
            (λ t.
              All (RowOf w.deleted t)
                (kept_or w.rows (update_row (is_unpurged id) (purged now) w.rows)))
            w.tickets
            (λ t. kept_or-All (RowOf w.deleted t) (is_unpurged id) (purged now) w.rows (λ r u k. k))
            h.1,
      )

retry-AllGone :
    (w : World) (id details : String) (next now : ℕ)
    → AllGone w
    → AllGone (record w { rows = (retry_purge id details next now w.rows).1 })
unfolding retry_purge row_keys
retry-AllGone w id details next now h =
    subst (λ v. AllGone (record w { rows = v }))
      (sym
        (exactly_one-rows w.rows (update_row (is_unpurged id) (postponed details next now) w.rows)))
      (update-AllGone w (is_unpurged id) (postponed details next now) (λ log r k. k)
        (λ log t r k. k) h)

with_rows-AllGone :
    (w : World) (i : ℕ) (t : Ticket) (rows : List PurgeRow)
    → get_elem? w.tickets i ≡ some t
    → AllGone (record w { rows = rows })
    → AllGone (with_rows i t w rows)
with_rows-AllGone w i t rows g h =
    set-AllGone (record w { rows = rows }) i (record t { progress = closed })
      (All-get_elem? (λ u. All (RowOf w.deleted u) rows) w.tickets i h.1 g) h

finish_as-AllGone :
    (i : ℕ) (t : Ticket) (w : World) (p : Progress) (keys : List (List ℕ))
    → get_elem? w.tickets i ≡ some t
    → All (λ r. has_id t.asset_id r ≡ true → Accounted w.deleted keys r) w.rows
    → AllGone w
    → AllGone (finish_as i t w p keys)
finish_as-AllGone i t w deleting [] g a h =
    with_rows-AllGone w i t _ g (complete-AllGone w t.asset_id t.now a h)
finish_as-AllGone i t w (delete_failed d) keys g a h =
    with_rows-AllGone w i t _ g (retry-AllGone w t.asset_id d (t.now + 60 * second) t.now h)
finish_as-AllGone i t w deleting (key ∷ keys) g a h = h
finish_as-AllGone i t w closed keys g a h = h

finish-AllGone :
    (i : ℕ) (w : World) (o : Option Ticket)
    → get_elem? w.tickets i ≡ o
    → AllGone w
    → AllGone (finish i w o)
finish-AllGone i w none g h = h
finish-AllGone i w (some t) g h =
    finish_as-AllGone i t w t.progress t.remaining g
      (All-get_elem? (λ u. All (RowOf w.deleted u) w.rows) w.tickets i h.1 g) h

insert-AllGone : (r : PurgeRow) (w : World) → AllGone w → AllGone (insert r w)
insert-AllGone r w h =
    if-cases AllGone (in_use r.id w) w (record w { rows = record r { purged_at = none } ∷ w.rows })
      (λ t. h)
      (λ f. (
        ((λ d. absurd (cc)), h.0),
        zip-All (λ t. str_eq r.id t.asset_id ≡ false) (λ t. All (RowOf w.deleted t) w.rows)
            (λ t. All (RowOf w.deleted t) (record r { purged_at = none } ∷ w.rows)) w.tickets
            (λ t n k. ((λ u. absurd (ground (arith, u, n))), k))
            (any-false (λ t. str_eq r.id t.asset_id) w.tickets (ground (arith, f))) h.1,
      ))

expires-AllGone :
    (w : World) (before : ℕ) (locked : String → Bool)
    → AllGone w
    → AllGone (record w { rows = (delete_expired_purge before locked 100 w.rows).1 })
expires-AllGone w before locked h = (
  delete_expired_purge-All (RowGone w.deleted) before 100 locked w.rows h.0,
  All-mono (λ t. All (RowOf w.deleted t) w.rows)
      (λ t. All (RowOf w.deleted t) (delete_expired_purge before locked 100 w.rows).1) w.tickets
      (λ t. delete_expired_purge-All (RowOf w.deleted t) before 100 locked w.rows) h.1,
)

step-AllGone : (s : PurgeStep) (w : World) → AllGone w → AllGone (step s w)
unfolding step claim_purge
step-AllGone (inserts r) w h = insert-AllGone r w h
step-AllGone (changes id f) w h = changes-AllGone w id f h
step-AllGone (claims now locked) w h = claims-AllGone w now (now + 60 * second) _ h
step-AllGone (deletes i answer) w h = delete_next-AllGone i answer w _ refl h
step-AllGone (finishes i) w h = finish-AllGone i w _ refl h
step-AllGone (expires now locked) w h = expires-AllGone w _ locked h

run-AllGone : (ss : List PurgeStep) (w : World) → AllGone w → AllGone (run ss w)
unfolding run
run-AllGone [] w h = h
run-AllGone (s ∷ ss) w h = run-AllGone ss (step s w) (step-AllGone s w h)

-- However the steps of the workers interleave, and wherever some of them stop or fail, every object of an
-- asset that the table holds for purged has been deleted from the blob store: the staged one, the original
-- and all derivatives, recorded or not. It is so if it is so at the start, where no worker is at work.
pub purged-RowGone :
    (ss : List PurgeStep) (rows : List PurgeRow) (log : List (List ℕ))
    → All (RowGone log) rows
    → All
        (RowGone (run ss (record { rows = rows; tickets = []; deleted = log })).deleted)
        (run ss (record { rows = rows; tickets = []; deleted = log })).rows
purged-RowGone ss rows log h =
    (run-AllGone ss (record { rows = rows; tickets = []; deleted = log }) (h, tt)).0
