-- ===== src/Wakes/Table.antt =====
-- The rows of recording_event_wakes and `UPDATE … WHERE` on them.
use asset_api.Base.{
  ℕ, suc, ◌≤◌, String, ◌≡◌, Bool, true, false, ◌&&◌, Option, none, some, List, [], ◌∷◌, arith, ltb,
  leb, ◌==◌, if◌then◌else◌, str_eq, All, is_some,
}

pub data Lane : Type 0 where
  live processing preview : Lane

abbrev pub lane_eq : Lane → Lane → Bool
lane_eq live live = true
lane_eq processing processing = true
lane_eq preview preview = true
lane_eq _ _ = false

pub data WakeState : Type 0 where
  idle dispatching queued running : WakeState

abbrev pub state_eq : WakeState → WakeState → Bool
state_eq idle idle = true
state_eq dispatching dispatching = true
state_eq queued queued = true
state_eq running running = true
state_eq _ _ = false

pub record Wake : Type 0 where
  pub lane : Lane
  pub generation : ℕ
  pub dispatch_generation : Option ℕ
  pub token : Option String
  pub state : WakeState
  pub lease_until : Option ℕ
  pub next_check_at : ℕ
  pub last_dispatch_at : Option ℕ

-- What a queue message carries once it is decoded.
pub record Event : Type 0 where
  pub lane : Lane
  pub generation : ℕ
  pub token : String

-- `lease_until > now` and `lease_until <= now`: both are false of NULL.
abbrev pub leased : ℕ → Option ℕ → Bool
leased now none = false
leased now (some l) = ltb now l

abbrev pub lapsed : ℕ → Option ℕ → Bool
lapsed now none = false
lapsed now (some l) = leb l now

abbrev pub is_idle : WakeState → Bool
is_idle s = state_eq s idle

abbrev has_number : Option ℕ → ℕ → Bool
has_number none n = false
has_number (some m) n = m == n

abbrev has_text : Option String → String → Bool
has_text none t = false
has_text (some s) t = str_eq s t

-- WHERE lane=$1 AND token=$2 AND dispatch_generation=$3
unfoldable pub owns : Event → Wake → Bool
owns e w =
    lane_eq w.lane e.lane
    && has_text w.token e.token
    && has_number w.dispatch_generation e.generation

-- The rows after an UPDATE, and how many it changed.
unfoldable pub update_where : (Wake → Bool) → (Wake → Wake) → List Wake → List Wake × ℕ
update_where p f [] = ([], 0)
update_where p f (w ∷ t) =
    let (t', n) = update_where p f t in if p w then (f w ∷ t', suc n) else (w ∷ t', n)

-- The schema's CHECK, together with the generation that a dispatch records.
pub record IsConsistent (w : Wake) : Type 0 where
  pub positive : 1 ≤ w.generation
  pub idle_clear :
      w.state ≡ idle → (w.token ≡ none) × (w.lease_until ≡ none) × (w.dispatch_generation ≡ none)
  pub busy_token : is_idle w.state ≡ false → is_some w.token ≡ true
  pub busy_lease : is_idle w.state ≡ false → is_some w.lease_until ≡ true
  pub busy_generation : is_idle w.state ≡ false → w.dispatch_generation ≡ some w.generation

module _ {ℓ} (P : Wake → Type ℓ) where
  pub All-update_where :
      (p : Wake → Bool) (f : Wake → Wake) (t : List Wake)
      → ((w : Wake) → p w ≡ true → P w → P (f w))
      → All P t
      → All P (update_where p f t).0
  unfolding update_where
  All-update_where p f [] keep h = h
  All-update_where p f (w ∷ t) keep h = ground (arith, keep w, All-update_where p f t keep h.1)

-- An UPDATE that selects no row changes nothing and reports none.
pub update_where_none :
    (p : Wake → Bool) (f : Wake → Wake) (t : List Wake)
    → All (λ w. p w ≡ false) t
    → update_where p f t ≡ (t, 0)
unfolding update_where
update_where_none p f [] h = ground arith
update_where_none p f (w ∷ t) h = ground (arith, update_where_none p f t h.1)
