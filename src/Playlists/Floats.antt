-- ===== src/Playlists/Floats.antt =====
-- The float64 operations of internal/assets/recording_playlist.go.
use asset_api.Base.{ℕ, Bool, Option, List, ℤ, pos}
use asset_api.Packages.Renditions.{Rational}

-- `parse`: strconv.ParseFloat, none on an error. `near`: the float64 nearest to a fraction; a number of a
-- JSON text is one that is met exactly. `rounded` and `raised`: int(math.Round) and int64(math.Ceil).
pub record Floats : Type 1 where
  pub Value : Type 0
  pub parse : List ℕ → Option Value
  pub near : Rational → Value
  pub is_finite : Value → Bool
  pub add : Value → Value → Value
  pub sub : Value → Value → Value
  pub mul : Value → Value → Value
  pub div : Value → Value → Value
  pub abs : Value → Value
  pub larger : Value → Value → Value
  pub lt : Value → Value → Bool
  pub eq : Value → Value → Bool
  pub rounded : Value → ℤ
  pub raised : Value → ℤ

abbrev pub fraction : ℕ → ℕ → Rational
fraction n d = record { numerator = pos n; denominator = d }

module _ (f : Floats) where
  open f use {Value, near, add, div}

  abbrev pub whole : ℕ → Value
  whole n = near (fraction n 1)

  -- 1/r.FrameRate + 0.001
  abbrev pub tolerance : Rational → Value
  tolerance rate = add (div (whole 1) (near rate)) (near (fraction 1 1000))
