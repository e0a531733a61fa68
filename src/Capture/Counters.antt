-- ===== src/Capture/Counters.antt =====
-- The two counters of a capture's declarations (Declare in internal/assets/recording_capture.go) and
-- its limits RecordingPackageMaxObjects and RecordingPackageMaxBytes.
use asset_api.Base.{
  ℕ, zero, suc, ◌+◌, ◌≤◌, String, ◌≡◌, refl, sym, ◌∙◌, ap, List, [], ◌∷◌, ◌++◌, some, arith, length,
  get_elem?, set, length-append, length-set, if-both, some_injective,
}
use asset_api.Errors.{Result}
use asset_api.Capture.Model.{
  CaptureObject, Inventory, Capture, declared, queued, object_state_is, package_max_objects,
  package_max_bytes,
}
use asset_api.Capture.Mutate.{Input}
use asset_api.Capture.Run.{Step, run}
use asset_api.Capture.Run.Keeps.{Keeps, close_expired-kept, advance_recovery-kept}
use asset_api.Capture.Run.Kept.{KeepsReceipts, run-kept}

abbrev pub total_bytes : List CaptureObject → ℕ
total_bytes [] = 0
total_bytes (o ∷ os) = o.size_bytes + total_bytes os

-- The counters are those of the objects, and within the limits of a package.
unfoldable pub IsCounted : Capture → Type 0
IsCounted c =
    (c.declared_objects ≡ length c.objects)
    × (c.declared_bytes ≡ total_bytes c.objects)
    × (c.declared_objects ≤ package_max_objects)
    × (c.declared_bytes ≤ package_max_bytes)

total_bytes-append :
    (os ps : List CaptureObject) → total_bytes (os ++ ps) ≡ total_bytes os + total_bytes ps
total_bytes-append [] ps = omega arith
total_bytes-append (o ∷ os) ps = omega (arith, total_bytes-append os ps)

total_bytes-set :
    (os : List CaptureObject) (i : ℕ) (o p : CaptureObject)
    → get_elem? os i ≡ some o
    → p.size_bytes ≡ o.size_bytes
    → total_bytes (set os i p) ≡ total_bytes os
total_bytes-set [] i o p h e = refl
total_bytes-set (q ∷ os) zero o p h e =
    omega (arith, e, ap (λ (x : CaptureObject). x.size_bytes) (some_injective h))
total_bytes-set (q ∷ os) (suc i) o p h e = omega (arith, total_bytes-set os i o p h e)

IsCounted-Keeps : Keeps IsCounted
unfolding IsCounted
IsCounted-Keeps = record {
  adds = λ d o f (a, b, n, m). (
    omega (arith, a, length-append d.objects (record { object = o; state = declared } ∷ [])),
    omega (arith, b, total_bytes-append d.objects (record { object = o; state = declared } ∷ [])),
    ground (arith, f),
    ground (arith, f),
  );
  closes = λ d now e. close_expired-kept IsCounted d now (λ t. e) e;
  queues = λ d at i o g e.
      if-both IsCounted (object_state_is o.state declared) _ _
        (
          e.0 ∙ sym (length-set d.objects i (record o { state = queued })),
          e.1 ∙ sym (total_bytes-set d.objects i o (record o { state = queued }) g refl),
          e.2,
          e.3,
        )
        e;
  advances = λ d now e. advance_recovery-kept IsCounted d now (λ x t a l. e) e;
  freezes = λ inv d e. e;
  aborts_it = λ now reason d e. e;
  cuts = λ d n l e. e;
  starts = λ d now duration n a e. e;
  stops = λ d e. e;
}

IsCounted-KeepsReceipts : KeepsReceipts IsCounted
unfolding IsCounted
IsCounted-KeepsReceipts key digest op now c n e = e

-- Whatever mutations, signals and starts of the recovery clock a capture goes through, its two counters
-- stay the number and the total size of its declared objects, at most 13000 objects and 10^10 bytes.
pub counters_exact :
    (digest_of : Input → String) (inventory_size : Inventory → Result ℕ) (ss : List (ℕ × Step))
    (c : Capture)
    → IsCounted c
    → IsCounted (run digest_of inventory_size ss c)
counters_exact digest_of inventory_size ss c h =
    run-kept IsCounted IsCounted-Keeps IsCounted-KeepsReceipts digest_of inventory_size ss c h
