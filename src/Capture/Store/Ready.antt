-- ===== src/Capture/Store/Ready.antt =====
-- What updateCapture (internal/postgres/recording_capture.go) promises about a capture's package and
-- its deletion.
use asset_api.Base.{
  ℕ, String, true, ◌≡◌, ◌≢◌, refl, sym, ◌∙◌, ap, subst, inl, inr, Option, some, none, arith, lookup,
  is_some, is_none, ltb, if-both, if-cases, not, ◌&&◌, ◌||◌,
}
use asset_api.Errors.{Result, ok, ok_injective, >>=-eq-ok}
use asset_api.Capture.Model.{
  CaptureState, Operation, ready, expired, failed, Capture, Inventory, StoredReceipt, state_is,
}
use asset_api.Capture.Mutate.{Input, admitted}
use asset_api.Capture.Run.{Request, apply, key_of, actor_of, operation_of, input_of}
use asset_api.Capture.Run.Accepted.{callback, apply-mutation, mutate-cases}
use asset_api.Capture.Store.{
  Rows, is_over, end_with, follow_package, with_package, expire_deleted, expire_late, is_open,
  recheck_range, holds_live, refresh, packaged, update_capture,
}

-- The callback sees the package id and the receipts of the row.
abbrev pub Same : Capture → Capture → Type 0
Same b c = (c.package_id ≡ b.package_id) × (c.receipts ≡ b.receipts)

end_with-Same :
    (now : ℕ) (reason : String) (b c : Capture) → Same b c → Same b (end_with now reason c)
end_with-Same now reason b c h = if-both (Same b) (is_none c.terminal_at) _ _ h h

follow_package-Same : (now : ℕ) (p : CaptureState) (c : Capture) → Same c (follow_package now p c)
unfolding follow_package
follow_package-Same now p c =
    if-both (Same c) (state_is p ready) _ _ (refl, refl)
      (if-both (Same c) (state_is p failed || state_is p expired) _ _
        (end_with-Same now _ c (record c { state = p }) (refl, refl)) (refl, refl))

with_package-Same :
    (now : ℕ) (o : Option CaptureState) (c d : Capture) → with_package now o c ≡ ok d → Same c d
with_package-Same now none c d h = absurd (cc)
with_package-Same now (some p) c d h = subst (Same c) (ok_injective h) (follow_package-Same now p c)

late-Same :
    (rows : Rows) (now : ℕ) (b c : Capture)
    → Same b c
    → Same b (recheck_range rows.range (expire_late now (expire_deleted now rows.deleted c)))
late-Same rows now b c h =
    let x : Capture = expire_deleted now rows.deleted c in
    let y : Capture = expire_late now x in
    let hx : Same b x =
      if-both (Same b) rows.deleted _ _ (end_with-Same now _ b (record c { state = expired }) h)
        h in
    let hy : Same b y =
      if-both (Same b) (is_open x.state && not (ltb now x.expires_at)) _ _ hx hx in
    if-both (Same b) (y.recovery.active && not (holds_live y rows.range)) _ _ hy hy

packaged-Same :
    (now : ℕ) (rows : Rows) (c : Capture) → packaged now rows ≡ ok c → Same rows.capture c
packaged-Same now rows c h =
    if-both (λ (r : Result Capture). r ≡ ok c → Same rows.capture c)
      (is_some rows.capture.package_id && not (is_over rows.capture.state)) _ _
      (λ e. with_package-Same now rows.package_state rows.capture c e)
      (λ e. subst (Same rows.capture) (ok_injective e) (refl, refl)) h

pub refresh-Same :
    (now : ℕ) (rows : Rows) (c : Capture) → refresh now rows ≡ ok c → Same rows.capture c
unfolding refresh
refresh-Same now rows c h =
    let (b, e, k) = >>=-eq-ok (packaged now rows) _ h in
    subst (Same rows.capture) (ok_injective k)
      (late-Same rows now rows.capture b (packaged-Same now rows b e))

late-expired :
    (rows : Rows) (now : ℕ) (b : Capture)
    → rows.deleted ≡ true
    → (recheck_range rows.range (expire_late now (expire_deleted now rows.deleted b))).state
      ≡ expired
late-expired rows now b d =
    let P = λ (c : Capture). c.state ≡ expired in
    let x : Capture = expire_deleted now rows.deleted b in
    let y : Capture = expire_late now x in
    let hx : P x =
      if-cases P rows.deleted _ _ (λ t. if-both P (is_none b.terminal_at) _ _ refl refl)
        (λ f. absurd (cc)) in
    let hy : P y = if-both P (is_open x.state && not (ltb now x.expires_at)) _ _ refl hx in
    if-both P (y.recovery.active && not (holds_live y rows.range)) _ _ hy hy

refresh-deleted :
    (now : ℕ) (rows : Rows) (c : Capture)
    → rows.deleted ≡ true
    → refresh now rows ≡ ok c
    → c.state ≡ expired
unfolding refresh
refresh-deleted now rows c d h =
    let (b, e, k) = >>=-eq-ok (packaged now rows) _ h in
    ap (λ (x : Capture). x.state) (sym (ok_injective k)) ∙ late-expired rows now b d

expired_refused :
    (now : ℕ) (op : Operation) (c : Capture) → c.state ≡ expired → admitted now op c ≢ ok tt
unfolding admitted
expired_refused now op c e h = ground (arith, e)

module _ (digest_of : Input → String) (inventory_size size_of : Inventory → Result ℕ) where
  -- Once the recording is deleted, a mutation of its capture is committed only as the repetition of one
  -- that was accepted before: its key has a receipt in the row already.
  pub deleted_only_repeats :
      (now clock : ℕ) (race : CaptureState → CaptureState) (r : Request) (rows after : Rows)
      → rows.deleted ≡ true
      → update_capture size_of clock race (apply digest_of inventory_size now r) rows ≡ ok after
      → (old : StoredReceipt) × (lookup (key_of r) rows.capture.receipts ≡ some old)
  unfolding update_capture
  deleted_only_repeats now clock race r rows after d h =
      let (c, e, h1) = >>=-eq-ok (refresh clock rows) _ h in
      let (x, f, h2) = >>=-eq-ok (apply digest_of inventory_size now r c) _ h1 in
      let gone = refresh-deleted clock rows c d e in
      let (i, same) = refresh-Same clock rows c e in
      elim (mutate-cases now (actor_of r) (key_of r) (operation_of r) (digest_of (input_of r))
        (callback now r) c x (rw (apply-mutation digest_of inventory_size now now r c c f) at f)) [
          | inl (old, g, m, k) ↦ (old, ap (lookup (key_of r)) (sym same) ∙ g)
          | inr (y, n, a, g, k) ↦ absurd (expired_refused now (operation_of r) c gone a)
        ]
