-- ===== src/Base/Double.antt =====
-- float64, of which the program parses, compares and prints values.
use Prim.Native.Nat.{ℕ}
use Prim.Native.String.{String}
use mathlib.Core.Bool.{Bool}
use mathlib.Core.Option.{Option}
use openshift_operator.Base.Effects.{Error}

pub record Floats : Type 1 where
  pub Float : Type 0
  -- `strconv.ParseFloat(s, 64)`, which gives a value beside an error too
  pub parse_float : String → Float × Option Error
  -- `a < b`
  pub lt : Float → Float → Bool
  -- A constant that is a whole number, and -1
  pub whole : ℕ → Float
  pub minus_one : Float
  -- `%f`
  pub format : Float → String
