-- ===== src/Capture/Watermark.antt =====
-- The common end of a broadcast: the segments below it have arrived in each rendition
-- (confirmedCaptureEnd and its callers in internal/assets/recording_recovery.go).
use asset_api.Base.{
  ℕ, zero, suc, ◌+◌, ◌≤◌, ◌<◌, String, true, false, ◌≡◌, ap, List, [], ◌∷◌, ◌++◌, some, arith, ◌⊎◌,
  inl, get_elem?, set, if-cases, some_injective,
}
use asset_api.Errors.{Result}
use asset_api.Capture.Model.{
  CaptureObject, Inventory, Capture, declared, queued, object_state_is, max_segments,
}
use asset_api.Capture.Mutate.{Input}
use asset_api.Capture.Recovery.{
  is_confirmed, has_segment, confirmed_from, confirmed_end, segment_path,
}
use asset_api.Capture.Run.{Step, run}
use asset_api.Capture.Run.Keeps.{Keeps, close_expired-kept, advance_recovery-kept}
use asset_api.Capture.Run.Kept.{run-kept}

confirmed_from-below :
    (rounds end n : ℕ) (objects : List CaptureObject)
    → end ≤ n
    → n < confirmed_from rounds objects end
    → has_segment objects n ≡ true
unfolding confirmed_from
confirmed_from-below zero end n objects l m = absurd (omega arith)
confirmed_from-below (suc rounds) end n objects l m =
    ground (arith, confirmed_from-below rounds (end + 1) n objects)

confirmed_from-next :
    (rounds end : ℕ) (objects : List CaptureObject)
    → (confirmed_from rounds objects end ≡ end + rounds)
      ⊎ (has_segment objects (confirmed_from rounds objects end) ≡ false)
unfolding confirmed_from
confirmed_from-next zero end objects = inl (omega arith)
confirmed_from-next (suc rounds) end objects =
    ground (arith, confirmed_from-next rounds (end + 1) objects)

-- The confirmed end is the length of the longest run of segments from 0 that have all arrived in the
-- three renditions, but at most 4320.
pub confirmed_end_exact :
    (c : Capture)
    → ((n : ℕ) → n < confirmed_end c → has_segment c.objects n ≡ true)
      × ((confirmed_end c ≡ max_segments) ⊎ (has_segment c.objects (confirmed_end c) ≡ false))
unfolding confirmed_end
confirmed_end_exact c = (
  λ n l. confirmed_from-below max_segments 0 n c.objects (omega arith) l,
  confirmed_from-next max_segments 0 c.objects,
)

-- Objects that have arrived stay so.
abbrev Grows : List CaptureObject → List CaptureObject → Type 0
Grows xs ys = (path : List ℕ) → is_confirmed xs path ≡ true → is_confirmed ys path ≡ true

Grows-append : (xs ys : List CaptureObject) → Grows xs (xs ++ ys)
unfolding is_confirmed
Grows-append [] ys path h = absurd (cc)
Grows-append (x ∷ xs) ys path h = ground (arith, Grows-append xs ys path)

Grows-set :
    (xs : List CaptureObject) (i : ℕ) (o p : CaptureObject)
    → get_elem? xs i ≡ some o
    → object_state_is o.state declared ≡ true
    → Grows xs (set xs i p)
unfolding is_confirmed
Grows-set [] i o p g d path h = h
Grows-set (x ∷ xs) zero o p g d path h =
    ground (arith, ap (λ (y : CaptureObject). y.state) (some_injective g))
Grows-set (x ∷ xs) (suc i) o p g d path h = ground (arith, Grows-set xs i o p g d path)

has_segment-Grows :
    (xs ys : List CaptureObject) (n : ℕ)
    → Grows xs ys
    → has_segment xs n ≡ true
    → has_segment ys n ≡ true
unfolding has_segment
has_segment-Grows xs ys n g h =
    ground (arith, g (segment_path "480p" n), g (segment_path "720p" n), g (segment_path "1080p" n))

-- Each segment below the common end, and below the cutoff, has arrived in the three renditions.
unfoldable pub IsBacked : Capture → Type 0
IsBacked c =
    ((n : ℕ) → n < c.recovery.common_end → has_segment c.objects n ≡ true)
    × ((end n : ℕ) → c.idle_end ≡ some end → n < end → has_segment c.objects n ≡ true)

IsBacked-Keeps : Keeps IsBacked
unfolding IsBacked
IsBacked-Keeps = record {
  adds = λ d o f (a, b). (
    λ n l. has_segment-Grows d.objects _ n (Grows-append d.objects _) (a n l),
    λ end n e l. has_segment-Grows d.objects _ n (Grows-append d.objects _) (b end n e l),
  );
  closes = λ d now h.
      close_expired-kept IsBacked d now
        (λ t. (h.0, λ end n e l. h.0 n (omega (arith, l, some_injective e)))) h;
  queues = λ d at i o g h.
      if-cases IsBacked (object_state_is o.state declared) _ _
        (λ t. (
          λ n l.
              has_segment-Grows d.objects _ n
                (Grows-set d.objects i o (record o { state = queued }) g t) (h.0 n l),
          λ end n e l.
              has_segment-Grows d.objects _ n
                (Grows-set d.objects i o (record o { state = queued }) g t) (h.1 end n e l),
        ))
        (λ f. h);
  advances = λ d now h.
      advance_recovery-kept IsBacked d now (λ x t a l. ((confirmed_end_exact d).0, h.1)) h;
  freezes = λ inv d h. h;
  aborts_it = λ now reason d h. h;
  cuts = λ d n l h.
      (h.0, λ end n e l. (confirmed_end_exact d).0 n (omega (arith, l, some_injective e)));
  starts = λ d now duration n a h. ((confirmed_end_exact d).0, h.1);
  stops = λ d h. h;
}

-- Whatever mutations, signals and starts of the clock a capture goes through, each segment below its
-- common end and each segment below its idle cutoff has arrived in all three renditions.
pub watermark-IsBacked :
    (digest_of : Input → String) (inventory_size : Inventory → Result ℕ) (ss : List (ℕ × Step))
    (c : Capture)
    → IsBacked c
    → IsBacked (run digest_of inventory_size ss c)
unfolding IsBacked
watermark-IsBacked digest_of inventory_size ss c h =
    run-kept IsBacked IsBacked-Keeps (λ key digest op now d n e. e) digest_of inventory_size ss c h
