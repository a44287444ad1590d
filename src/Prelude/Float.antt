-- ===== src/Prelude/Float.antt =====
-- Python's floats as a type with the operations that the program calls, and no laws.
use mathlib.Core.Bool.{Bool}
use mathlib.Core.Option.{Option}
use fabricperf.Prelude.Int.{ℤ}
use fabricperf.Prelude.Text.{Text}

pub record FloatOps : Type 1 where
  pub Float : Type 0
  -- `float(n)`
  pub of_int : ℤ → Float
  pub add : Float → Float → Float
  pub sub : Float → Float → Float
  pub mul : Float → Float → Float
  pub div : Float → Float → Float
  pub le : Float → Float → Bool
  pub is_nan : Float → Bool
  pub is_integer : Float → Bool
  -- `int(x)`
  pub to_int : Float → ℤ
  -- `f"{x:.2f}"` and `f"{x:.17g}"`
  pub fixed_two : Float → Text
  pub general_seventeen : Float → Text
  -- `float(s)`, with `none` for its `ValueError`
  pub parse : Text → Option Float
