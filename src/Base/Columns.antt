-- ===== src/Base/Columns.antt =====
-- Columns of a table that may be NULL, and durations in nanoseconds.
use Prim.Native.Nat.{ℕ}
use mathlib.Core.Bool.{Bool, true}
use mathlib.Core.Option.{Option, none, some}
use asset_api.Base.Tests.{ltb, leb}

abbrev pub second : ℕ
second = 1000000000

-- `t IS NULL OR t <= now`
abbrev pub null_or_due : ℕ → Option ℕ → Bool
null_or_due now none = true
null_or_due now (some t) = leb t now

-- `t IS NULL OR t < now`
abbrev pub null_or_past : ℕ → Option ℕ → Bool
null_or_past now none = true
null_or_past now (some t) = ltb t now
