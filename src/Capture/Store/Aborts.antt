-- ===== src/Capture/Store/Aborts.antt =====
-- An abort and a ready package exclude each other: the recheck of updateCapture under the slot's lock
-- (internal/postgres/recording_capture.go).
use asset_api.Base.{
  ℕ, String, true, ◌≡◌, ◌≢◌, refl, sym, ◌∙◌, ap, subst, inl, inr, Option, some, none, arith,
  is_some, if-both, Option-cases, not, if◌then◌else◌, ◌&&◌, ◌||◌,
}
use asset_api.Errors.{Result, ok, ok_injective, >>=-eq-ok}
use asset_api.Capture.Model.{
  CaptureState, ready, aborted, uploading, Capture, Inventory, state_is, object_state_is, declared,
}
use asset_api.Capture.Mutate.{Input}
use asset_api.Capture.Run.{Request, apply}
use asset_api.Capture.Run.Keeps.{Keeps, close_expired-kept, advance_recovery-kept}
use asset_api.Capture.Run.Kept.{apply-kept}
use asset_api.Capture.Store.{
  Rows, is_over, refresh, insert_if_new, close_package, close_if_over, raced, stop_clock,
  update_capture,
}
use asset_api.Capture.Store.Ready.{refresh-Same}

abbrev HasPackage : Capture → Type 0
HasPackage c = is_some c.package_id ≡ true

HasPackage-Keeps : Keeps HasPackage
HasPackage-Keeps = record {
  adds = λ d o f e. e;
  closes = λ d now e. close_expired-kept HasPackage d now (λ t. e) e;
  queues = λ d at i o g e. if-both HasPackage (object_state_is o.state declared) _ _ e e;
  advances = λ d now e. advance_recovery-kept HasPackage d now (λ x t a l. e) e;
  freezes = λ inv d e. refl;
  aborts_it = λ now reason d e. e;
  cuts = λ d n l e. e;
  starts = λ d now duration n a e. e;
  stops = λ d e. e;
}

-- Without a package id there is no package row.
abbrev pub IsLinked : Rows → Type 0
IsLinked rows = rows.capture.package_id ≡ none → rows.package_state ≡ none

stop_clock-same :
    (d : Capture) → ((stop_clock d).state ≡ d.state) × ((stop_clock d).package_id ≡ d.package_id)
stop_clock-same d =
    if-both (λ (e : Capture). (e.state ≡ d.state) × (e.package_id ≡ d.package_id))
      (is_some d.terminal_at || not (state_is d.state uploading)) _ _ (refl, refl) (refl, refl)

close_package-aborted :
    (o p : Option CaptureState) → close_package aborted o ≡ ok p → p ≢ some ready
close_package-aborted none p h e = cc
close_package-aborted (some s) p h e = ground arith

module _ (race : CaptureState → CaptureState) (size_of : Inventory → Result ℕ) where
  settled-aborted :
      (d : Capture) (o p : Option CaptureState)
      → is_some d.package_id ≡ true
      → d.state ≡ aborted
      → close_if_over race d o ≡ ok p
      → p ≢ some ready
  settled-aborted d o p i s h =
      let k =
        subst
          (λ t.
            (if is_some d.package_id && is_over t then close_package t (raced race o) else ok o)
            ≡ ok p)
          s h in
      close_package-aborted (raced race o) p (rw i at k)

  settled-none :
      (previous : Option String) (d : Capture) (o p q : Option CaptureState)
      → d.package_id ≡ none
      → insert_if_new size_of previous d o ≡ ok p
      → close_if_over race d p ≡ ok q
      → q ≡ o
  settled-none previous d o p q n h g = ground (arith, n)

some_or_none : {o : Option String} {x : String} → o ≡ some x → o ≢ none
some_or_none e n = cc

true_or_none : (o : Option String) → o ≡ none → is_some o ≢ true
true_or_none o n t = ground (arith, n)

module _ (digest_of : Input → String) (inventory_size size_of : Inventory → Result ℕ) where
  unlinked_before :
      (now : ℕ) (r : Request) (c d : Capture)
      → apply digest_of inventory_size now r c ≡ ok d
      → d.package_id ≡ none
      → c.package_id ≡ none
  unlinked_before now r c d f n = elim (Option-cases c.package_id) [
    | inl z ↦ z
    | inr (y, w) ↦ absurd (
        true_or_none d.package_id n (
          apply-kept HasPackage HasPackage-Keeps (λ k g op at x m e. e) digest_of inventory_size now
            r c d f (ap is_some w)))
  ]

  -- Whatever the validation of the package commits while the transaction of a mutation waits for its
  -- slot, the mutation never commits an aborted capture beside a ready package. It also keeps the rows
  -- linked, so this holds of each later transaction as well.
  pub abort_never_ready :
      (now clock : ℕ) (race : CaptureState → CaptureState) (r : Request) (rows after : Rows)
      → IsLinked rows
      → update_capture size_of clock race (apply digest_of inventory_size now r) rows ≡ ok after
      → IsLinked after × (after.capture.state ≡ aborted → after.package_state ≢ some ready)
  unfolding update_capture
  abort_never_ready now clock race r rows after l h =
      let (c, e, h1) = >>=-eq-ok (refresh clock rows) _ h in
      let (d, f, h2) = >>=-eq-ok (apply digest_of inventory_size now r c) _ h1 in
      let (p, g, h3) = >>=-eq-ok (insert_if_new size_of c.package_id d rows.package_state) _ h2 in
      let (q, i, h4) = >>=-eq-ok (close_if_over race d p) _ h3 in
      let (state, id) = stop_clock-same d in
      let (kept, receipts) = refresh-Same clock rows c e in
      let k = ok_injective h4 in
      elim (Option-cases d.package_id) [
        | inl n ↦
            let none_before : rows.capture.package_id ≡ none =
              sym kept ∙ unlinked_before now r c d f n in
            let z : after.package_state ≡ none =
              ap (λ (x : Rows). x.package_state) (sym k)
              ∙ settled-none race size_of c.package_id d rows.package_state p q n g i
              ∙ l none_before in
            (λ m. z, λ m y. cc)
        | inr (x, n) ↦ (
          λ m. absurd (some_or_none n (sym id ∙ (ap (λ (x : Rows). x.capture.package_id) k ∙ m))),
          λ m y.
              settled-aborted race size_of d p q (ap is_some n)
                (sym state ∙ (ap (λ (x : Rows). x.capture.state) k ∙ m)) i
                (ap (λ (x : Rows). x.package_state) k ∙ y),
        )
      ]
