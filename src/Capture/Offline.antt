-- ===== src/Capture/Offline.antt =====
-- A repeated Confirm is answered from its receipt, without a listing of the storage
-- (internal/assets/recording_capture.go).
use asset_api.Base.{ℕ, String, true, ◌≡◌, refl, inl, inr, List, arith, Bool-cases}
use asset_api.Errors.{Result, ok}
use asset_api.Capture.Model
use asset_api.Capture.Model.{Inventory, Capture}
use asset_api.Capture.Objects.{is_operation_key}
use asset_api.Capture.Mutate.{Input, paths_input}
use asset_api.Capture.Confirm.{Snapshot, sort_paths, confirm_preflight, confirm_commit, confirm}
use asset_api.Capture.Run.{confirms, apply, Step, run, input_of}
use asset_api.Capture.Receipts.{Answered, run-Answered, Answered-mutate}

module _ (digest_of : Input → String) (inventory_size : Inventory → Result ℕ) where
  accepted_key :
      (at : ℕ) (actor key : String) (paths : List String) (s : Snapshot) (l : Result (String → ℕ))
      (c : Capture) {c' : Capture}
      → apply digest_of inventory_size at (confirms actor key paths s l) c ≡ ok c'
      → is_operation_key key ≡ true
  unfolding apply confirm_commit
  accepted_key at actor key paths s l c h = elim (Bool-cases (is_operation_key key)) [
    | inl t ↦ t
    | inr f ↦ absurd (ground (arith, f))
  ]

  preflight_answers :
      (earlier : ℕ) (actor key : String) (paths : List String) (b : Capture)
      → is_operation_key key ≡ true
      → Answered actor key (digest_of (paths_input paths)) Model.confirm b
      → confirm_preflight digest_of earlier actor key paths b ≡ ok b
  unfolding confirm_preflight
  preflight_answers earlier actor key paths b k a =
      rw k (Answered-mutate earlier actor key (digest_of (paths_input paths)) Model.confirm _ b a)

  -- A Confirm that was accepted is accepted again after any other steps, and its answer is the capture as
  -- its first transaction reads it. It does not depend on the listing, even if the storage fails, nor on
  -- what becomes of the capture after that transaction.
  pub confirm_repeats_offline :
      (at : ℕ) (actor key : String) (paths : List String) (s : Snapshot) (l : Result (String → ℕ))
      (c c' : Capture) (ss : List (ℕ × Step)) (earlier now : ℕ) (listing : Result (String → ℕ))
      (latest : Capture)
      → apply digest_of inventory_size at (confirms actor key (sort_paths paths) s l) c ≡ ok c'
      → confirm digest_of earlier now actor key paths listing
          (run digest_of inventory_size ss c')
          latest
        ≡ ok (run digest_of inventory_size ss c')
  unfolding confirm
  confirm_repeats_offline at actor key paths s l c c' ss earlier now listing latest h =
      let b : Capture = run digest_of inventory_size ss c' in
      let p =
        preflight_answers earlier actor key (sort_paths paths) b
          (accepted_key at actor key (sort_paths paths) s l c h)
          (unfold input_of in
            run-Answered digest_of inventory_size at (confirms actor key (sort_paths paths) s l) c
              c' ss h) in
      rw p refl
