-- ===== src/Prelude/Number.antt =====
-- Python's floats, as far as the program relies on them: a type with its order, sum and
-- difference. Nothing is assumed of rounding but that it is monotone.
use mathlib.Core.Path.{◌≡◌}
use mathlib.Core.Bool.{Bool, true, false}

-- The finite floats. `≤` is total and transitive, and `+` and `-` round monotonically.
pub record Floats : Type 1 where
  pub Float : Type 0
  pub zero_float : Float
  pub le : Float → Float → Bool
  pub add : Float → Float → Float
  pub sub : Float → Float → Float
  pub le_refl : (x : Float) → le x x ≡ true
  pub le_trans : (x y z : Float) → le x y ≡ true → le y z ≡ true → le x z ≡ true
  pub le_total : (x y : Float) → le x y ≡ false → le y x ≡ true
  pub sub_mono_left : (x y z : Float) → le x y ≡ true → le (sub x z) (sub y z) ≡ true
  pub sub_mono_right : (x y z : Float) → le y z ≡ true → le (sub x z) (sub x y) ≡ true
