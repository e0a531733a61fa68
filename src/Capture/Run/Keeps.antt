-- ===== src/Capture/Run/Keeps.antt =====
-- What the writes of the service keep: the fields of a proof that a predicate on captures is kept,
-- and the recovery clock's two writes.
use asset_api.Base.{
  ℕ, String, true, false, ◌≡◌, refl, inl, inr, Option, some, none, arith, Bool-cases, get_elem?,
  ◌<◌, leb,
}
use asset_api.Capture.Model.{PackageObject, CaptureObject, Inventory, Capture}
use asset_api.Capture.Recovery.{
  close_expired, advance_recovery, is_overdue, closed, is_still, advanced, advance_from,
  confirmed_end, to_micros, started, stopped,
}
use asset_api.Capture.Signal.{cut_off}
use asset_api.Capture.Declare.{is_full, add_object}
use asset_api.Capture.Confirm.{queue_object}
use asset_api.Capture.Seal.{frozen, aborting}

pub record Keeps (P : Capture → Type 0) : Type 0 where
  pub adds : (c : Capture) (o : PackageObject) → is_full c o ≡ false → P c → P (add_object c o)
  pub closes : (c : Capture) (now : ℕ) → P c → P (close_expired c now)
  pub queues :
      (c : Capture) (at i : ℕ) (o : CaptureObject)
      → get_elem? c.objects i ≡ some o
      → P c
      → P (queue_object c at i o)
  pub advances : (c : Capture) (now : ℕ) → P c → P (advance_recovery c now)
  pub cuts : (c : Capture) → c.idle_end ≡ none → 0 < confirmed_end c → P c → P (cut_off c)
  pub starts :
      (c : Capture) (now duration : ℕ)
      → c.idle_end ≡ none
      → c.recovery.activation_at ≡ none
      → P c
      → P (started c now (confirmed_end c) duration)
  pub stops : (c : Capture) → P c → P (stopped c)
  pub freezes : (inv : Inventory) (c : Capture) → P c → P (frozen inv c)
  pub aborts_it : (now : ℕ) (reason : String) (c : Capture) → P c → P (aborting now reason c)

-- The two ways in which a predicate on the recovery clock is kept.
pub close_expired-kept :
    (P : Capture → Type 0) (c : Capture) (now : ℕ)
    → (is_overdue c now ≡ true → P (closed c))
    → P c
    → P (close_expired c now)
unfolding close_expired
close_expired-kept P c now f p = elim (Bool-cases (is_overdue c now)) [
  | inl t ↦ rw t (f t)
  | inr t ↦ rw t p
]

advance_from-kept :
    (P : Capture → Type 0) (c : Capture) (now end : ℕ) (o : Option ℕ)
    → ((a : ℕ)
        → o ≡ some a
        → c.recovery.common_end < end
        → P (record c { recovery = advanced c.recovery a end (to_micros now) }))
    → P c
    → P (advance_from c now end o)
advance_from-kept P c now end none f p = p
advance_from-kept P c now end (some a) f p = elim (Bool-cases (leb end c.recovery.common_end)) [
  | inl g ↦ rw g p
  | inr g ↦ rw g (f a refl (ground (arith, g)))
]

pub advance_recovery-kept :
    (P : Capture → Type 0) (c : Capture) (now : ℕ)
    → ((activation : ℕ)
        → is_still c now ≡ false
        → c.recovery.activation_at ≡ some activation
        → c.recovery.common_end < confirmed_end c
        → P (record c {
          recovery = advanced c.recovery activation (confirmed_end c) (to_micros now);
        }))
    → P c
    → P (advance_recovery c now)
unfolding advance_recovery
advance_recovery-kept P c now f p = elim (Bool-cases (is_still c now)) [
  | inl t ↦ rw t p
  | inr t ↦
      rw t (
        advance_from-kept P c now (confirmed_end c) c.recovery.activation_at (λ a e l. f a t e l) p)
]
