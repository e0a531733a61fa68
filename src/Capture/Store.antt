-- ===== src/Capture/Store.antt =====
-- The transaction of a capture over its rows: updateCapture in internal/postgres/recording_capture.go.
-- The live progress, the read grant and the diagnostics are left out, and a failing query, which rolls
-- the transaction back, is an error like any other.
pub mod Ready
pub mod Aborts
mod Tests
use asset_api.Base.{
  ℕ, String, Bool, true, false, ◌&&◌, ◌||◌, Option, none, some, List, [], ◌∷◌, ltb, leb, not,
  str_eq, ◌==◌, if◌then◌else◌, is_some, is_none, any, map,
}
use asset_api.Errors.{Result, ok, err, ◌>>=◌, ◌>>◌, guard, conflict, invalid_input, unavailable}
use asset_api.Broadcast.Range.{BroadcastRange}
use asset_api.Capture.Model
use asset_api.Capture.Model.{
  CaptureState, uploading, freezing, validating, ready, aborted, failed, expired, verified,
  CaptureObject, Inventory, StoredReceipt, Capture, state_is, object_state_is, operation_is,
}
use asset_api.Capture.Objects.{same_object}

-- The rows that belong to a capture: its own with its objects, its package's state, whether its recording
-- is deleted, and its broadcast range.
pub record Rows : Type 0 where
  pub capture : Capture
  pub package_state : Option CaptureState
  pub deleted : Bool
  pub range : Option BroadcastRange

abbrev pub is_over : CaptureState → Bool
is_over s = state_is s aborted || state_is s failed || state_is s expired

-- if c.TerminalAt == nil { … }
abbrev pub end_with : ℕ → String → Capture → Capture
end_with now reason c =
    if is_none c.terminal_at
    then record c { terminal_at = some now; terminal_reason = some reason }
    else c

abbrev pub verify : CaptureObject → CaptureObject
verify o = record o { state = verified }

abbrev pub package_reason : CaptureState → String
package_reason expired = "package_expired"
package_reason _ = "package_failed"

-- The package's state is the capture's, and a ready package has verified each object.
unfoldable pub follow_package : ℕ → CaptureState → Capture → Capture
follow_package now p c =
    let d : Capture = record c { state = p } in
    if state_is p ready
    then record d { objects = map verify d.objects }
    else if state_is p failed || state_is p expired
    then end_with now (package_reason p) d
    else d

abbrev pub with_package : ℕ → Option CaptureState → Capture → Result Capture
with_package now none c = err unavailable
with_package now (some p) c = ok (follow_package now p c)

abbrev pub expire_deleted : ℕ → Bool → Capture → Capture
expire_deleted now deleted c =
    if deleted then end_with now "recording_deleted" (record c { state = expired }) else c

abbrev pub is_open : CaptureState → Bool
is_open s = state_is s uploading || state_is s freezing || state_is s validating

abbrev pub expire_late : ℕ → Capture → Capture
expire_late now c =
    if is_open c.state && not (ltb now c.expires_at)
    then record c {
      state = expired;
      terminal_at = some c.expires_at;
      terminal_reason = some "capture_expired";
    }
    else c

abbrev pub holds_live : Capture → Option BroadcastRange → Bool
holds_live c none = false
holds_live c (some policy) =
    policy.epoch == c.broadcast_epoch
    && str_eq policy.member_state "live"
    && not policy.revoked
    && is_none policy.end_sequence_exclusive

abbrev pub recheck_range : Option BroadcastRange → Capture → Capture
recheck_range range c =
    if c.recovery.active && not (holds_live c range)
    then record c { recovery = record (c.recovery) { active = false } }
    else c

abbrev pub packaged : ℕ → Rows → Result Capture
packaged now rows =
    if is_some rows.capture.package_id && not (is_over rows.capture.state)
    then with_package now rows.package_state rows.capture
    else ok rows.capture

-- The capture as the callback sees it.
unfoldable pub refresh : ℕ → Rows → Result Capture
refresh now rows = do
  c ← packaged now rows
  ok (recheck_range rows.range (expire_late now (expire_deleted now rows.deleted c)))

-- A seal receipt with a time that is not zero.
abbrev pub has_seal : List (String × StoredReceipt) → Bool
has_seal [] = false
has_seal ((key, r) ∷ m) =
    (operation_is (r.receipt.operation) Model.seal && ltb 0 (r.receipt.accepted_at)) || has_seal m

module _ (inventory_size : Inventory → Result ℕ) where
  -- A capture that has just got its package inserts the row of it.
  abbrev pub insert_package :
      Capture → Option Inventory → Option CaptureState → Result (Option CaptureState)
  insert_package c none package_state = err invalid_input
  insert_package c (some inv) package_state = do
    guard (state_is c.state freezing) invalid_input
    size ← inventory_size inv
    guard (has_seal c.receipts) invalid_input
    guard (is_none package_state) conflict
    ok (some freezing)

-- The row of a package whose capture is over, unless it is ready. `package` is its state once the
-- transaction holds the slot and the row.
abbrev pub close_package : CaptureState → Option CaptureState → Result (Option CaptureState)
close_package s none = err unavailable
close_package s (some p) =
    if state_is p ready && state_is s aborted
    then err conflict
    else if state_is p ready
    then ok (some p)
    else ok (some (if state_is s expired then expired else failed))

abbrev pub stop_clock : Capture → Capture
stop_clock c =
    if is_some c.terminal_at || not (state_is c.state uploading)
    then record c { recovery = record (c.recovery) { active = false } }
    else c

-- INSERT … ON CONFLICT(capture_id,path) DO UPDATE SET state … WHERE the size and the digest agree
unfoldable pub upsert_object : CaptureObject → List CaptureObject → List CaptureObject
upsert_object o [] = o ∷ []
upsert_object o (p ∷ ps) =
    if str_eq p.path o.path
    then (if same_object p.object o.object then record p { state = o.state } else p) ∷ ps
    else p ∷ upsert_object o ps

abbrev pub same_row : CaptureObject → CaptureObject → Bool
same_row p o = same_object p.object o.object && object_state_is p.state o.state

-- The writes of the objects that the callback has changed.
unfoldable pub upsert_objects :
    List CaptureObject → List CaptureObject → List CaptureObject → List CaptureObject
unfolding upsert_object
upsert_objects previous [] stored = stored
upsert_objects previous (o ∷ os) stored =
    upsert_objects previous os
      (if any (λ p. same_row p o) previous then stored else upsert_object o stored)

-- UPDATE recording_captures SET …
abbrev pub written : Capture → Capture → List CaptureObject → Capture
written old c objects = record old {
  state = c.state;
  declared_bytes = c.declared_bytes;
  declared_objects = c.declared_objects;
  receipts = c.receipts;
  package_id = c.package_id;
  inventory = c.inventory;
  terminal_at = c.terminal_at;
  terminal_reason = c.terminal_reason;
  last_media_confirmed_at = c.last_media_confirmed_at;
  idle_end = c.idle_end;
  recovery = c.recovery;
  objects = objects;
}

-- `race` is the validation that may commit while the transaction waits for the slot of the package.
abbrev pub raced : (CaptureState → CaptureState) → Option CaptureState → Option CaptureState
raced race none = none
raced race (some p) = some (race p)

abbrev pub close_if_over :
    (CaptureState → CaptureState) → Capture → Option CaptureState → Result (Option CaptureState)
close_if_over race c package_state =
    if is_some c.package_id && is_over c.state
    then close_package c.state (raced race package_state)
    else ok package_state

module _ (inventory_size : Inventory → Result ℕ) where
  abbrev pub insert_if_new :
      Option String → Capture → Option CaptureState → Result (Option CaptureState)
  insert_if_new previous c package_state =
      if is_none previous && is_some c.package_id
      then insert_package inventory_size c c.inventory package_state
      else ok package_state

  unfoldable pub update_capture :
      ℕ → (CaptureState → CaptureState) → (Capture → Result Capture) → Rows → Result Rows
  update_capture now race fn rows = do
    c ← refresh now rows
    d ← fn c
    inserted ← insert_if_new c.package_id d rows.package_state
    closed ← close_if_over race d inserted
    let e = stop_clock d
    ok (record rows {
      capture = written rows.capture e (upsert_objects c.objects e.objects c.objects);
      package_state = closed;
    })
