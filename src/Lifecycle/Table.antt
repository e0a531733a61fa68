-- ===== src/Lifecycle/Table.antt =====
-- The statements of the purge (internal/postgres/store.go), and the keys of the objects of an asset.
use Prim.Native.String.{String}
use asset_api.Base.{
  ℕ, zero, suc, ◌+◌, Bool, true, false, ◌&&◌, ◌||◌, not, Option, none, some, List, [], ◌∷◌, ◌++◌,
  ◌==◌, ltb, str_eq, is_none, if◌then◌else◌, any, append, codes, code_le, same_codes, update_row,
  first_by, kept_or,
}
use asset_api.Errors.{Result, ok, err, not_found, invalid_input}
use asset_api.Lifecycle.Model.{PurgeRow, Details, may_purge, updated_first, is_before}

-- What is in front of the last slash, with the slash; keys are as path.Join makes them.
abbrev pub folder_of : Option (List ℕ) → ℕ → Option (List ℕ)
folder_of (some d) c = some (c ∷ d)
folder_of none c = if c == b'/' then some (c ∷ []) else none

abbrev pub folder : List ℕ → Option (List ℕ)
folder [] = none
folder (c ∷ cs) = folder_of (folder cs) c

abbrev pub or_empty : Option (List ℕ) → List ℕ
or_empty none = []
or_empty (some d) = d

abbrev pub variant_keys : List ℕ → List (List ℕ)
variant_keys dir =
    (dir ++ codes "small.jpg") ∷ (dir ++ codes "medium.jpg") ∷ (dir ++ codes "large.jpg") ∷ []

-- The keys of the derivatives of each attempt, whether or not they were recorded.
abbrev pub derived_keys : List ℕ → List (List ℕ)
derived_keys dir =
    variant_keys (dir ++ codes "derivatives/")
    ++ (variant_keys (dir ++ codes "derivatives/attempt-1/")
        ++ (variant_keys (dir ++ codes "derivatives/attempt-2/")
            ++ (variant_keys (dir ++ codes "derivatives/attempt-3/")
                ++ (variant_keys (dir ++ codes "derivatives/attempt-4/")
                    ++ variant_keys (dir ++ codes "derivatives/attempt-5/")))))

unfoldable pub row_keys : PurgeRow → List (List ℕ)
row_keys r =
    r.staging_object_key
    ∷ r.object_key
    ∷ (r.derivative_keys ++ derived_keys (or_empty (folder r.object_key)))

abbrev pub has_id : String → PurgeRow → Bool
has_id id r = str_eq r.id id

-- The keys of the rows with the id, which is the primary key.
unfoldable pub keys_with : String → List PurgeRow → List (List ℕ)
keys_with id [] = []
keys_with id (r ∷ rows) = if has_id id r then row_keys r ++ keys_with id rows else keys_with id rows

abbrev pub is_seen : List ℕ → List (List ℕ) → Bool
is_seen key seen = any (same_codes key) seen

-- uniqueStrings, with the values seen so far; the empty one is never kept.
unfoldable pub unique_from : List (List ℕ) → List (List ℕ) → List (List ℕ)
unique_from seen [] = []
unique_from seen (key ∷ keys) =
    if same_codes key [] || is_seen key seen
    then unique_from seen keys
    else key ∷ unique_from (key ∷ seen) keys

abbrev pub unique_strings : List (List ℕ) → List (List ℕ)
unique_strings keys = unique_from [] keys

pub record Candidate : Type 0 where
  pub asset_id : String
  pub keys : List (List ℕ)

abbrev pub claimed : ℕ → PurgeRow → PurgeRow
claimed until r = record r { purge_claimed_until = some until }

abbrev pub claim_row : ℕ → List PurgeRow → Option PurgeRow → Option Candidate × List PurgeRow
claim_row until rows none = (none, rows)
claim_row until rows (some r) = (
  some (record { asset_id = r.id; keys = unique_strings (keys_with r.id rows) }),
  kept_or rows (update_row (has_id r.id) (claimed until) rows),
)

unfoldable pub claim_purge :
    ℕ → ℕ → (String → Bool) → List PurgeRow → Option Candidate × List PurgeRow
claim_purge now lease locked rows =
    claim_row (now + lease) rows (first_by (may_purge now locked) updated_first rows)

abbrev erased : PurgeRow → Details
erased r =
    if str_eq r.owner_service "account-api" && str_eq r.namespace "account.avatar"
    then record {
      owner_id = append "erased:" r.id;
      original_file_name = "";
      checksum_sha256 = "";
      etag = "";
      scan_details = "";
      processing_error = "";
    }
    else r.details

abbrev pub purged : ℕ → PurgeRow → PurgeRow
purged now r = record r {
  purged_at = some now;
  purge_claimed_until = none;
  purge_error = "";
  updated_at = now;
  details = erased r;
}

abbrev pub is_unpurged : String → PurgeRow → Bool
is_unpurged id r = has_id id r && is_none r.purged_at

abbrev pub exactly_one : List PurgeRow → Option (List PurgeRow) → Result (Unit {0}) × List PurgeRow
exactly_one rows none = (err not_found, rows)
exactly_one rows (some after) = (ok tt, after)

unfoldable pub complete_purge : String → ℕ → List PurgeRow → Result (Unit {0}) × List PurgeRow
complete_purge id now rows = exactly_one rows (update_row (is_unpurged id) (purged now) rows)

abbrev pub postponed : String → ℕ → ℕ → PurgeRow → PurgeRow
postponed details next now r = record r {
  purge_error = details;
  purge_next_attempt_at = some next;
  purge_claimed_until = none;
  updated_at = now;
}

unfoldable pub retry_purge :
    String → String → ℕ → ℕ → List PurgeRow → Result (Unit {0}) × List PurgeRow
retry_purge id details next now rows =
    exactly_one rows (update_row (is_unpurged id) (postponed details next now) rows)

-- ORDER BY purged_at, id, among rows that are purged.
abbrev pub purged_first : PurgeRow → PurgeRow → Bool
purged_first a b = at a.purged_at b.purged_at
  where
    at : Option ℕ → Option ℕ → Bool
    at (some s) (some t) = ltb s t || (s == t && code_le (codes a.id) (codes b.id))
    at none t = false
    at s none = true

abbrev pub without : String → List PurgeRow → List PurgeRow
without id [] = []
without id (r ∷ rows) = if has_id id r then without id rows else r ∷ without id rows

abbrev pub is_expired : ℕ → (String → Bool) → PurgeRow → Bool
is_expired before locked r = is_before before r.purged_at && not (locked r.id)

-- As many rows as the limit, the earliest first.
unfoldable pub delete_rows : ℕ → (String → Bool) → ℕ → List PurgeRow → ℕ × List PurgeRow
delete_rows before locked zero rows = (0, rows)
delete_rows before locked (suc limit) rows =
    elim (first_by (is_expired before locked) purged_first rows) [
      | none ↦ (0, rows)
      | some r ↦
          let rest = delete_rows before locked limit (without r.id rows) in (rest.0 + 1, rest.1)
    ]

unfoldable pub delete_expired_purge :
    ℕ → (String → Bool) → ℕ → List PurgeRow → Result ℕ × List PurgeRow
delete_expired_purge before locked limit rows =
    if limit == 0
    then (err invalid_input, rows)
    else let d = delete_rows before locked limit rows in (ok d.0, d.1)
