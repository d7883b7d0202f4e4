-- ===== src/Prelude/Decimal.antt =====
-- The decimal text of a number, as an f-string prints it.
use Prim.Native.Nat.{ℕ, zero, suc, ◌/◌, ◌%◌, ◌+◌}
use Prim.Native.String.{String, ◌++◌}
use mathlib.Core.Bool.{true, false}
use biblichor.Prelude.Tests.{ltb, if◌then◌else◌, ◌==◌}

abbrev digit : ℕ → String
digit d =
    if d == 0
    then "0"
    else if d == 1
    then "1"
    else if d == 2
    then "2"
    else if d == 3
    then "3"
    else if d == 4
    then "4"
    else if d == 5
    then "5"
    else if d == 6
    then "6"
    else if d == 7
    then "7"
    else if d == 8
    then "8"
    else "9"

-- `n` has fewer than `n + 1` digits, so that fuel is enough.
decimal_fuel : ℕ → ℕ → String
decimal_fuel zero n = ""
decimal_fuel (suc f) n = elim (ltb n 10) [
  | true ↦ digit n
  | false ↦ decimal_fuel f (n / 10) ++ digit (n % 10)
]

unfoldable pub decimal : ℕ → String
unfolding decimal_fuel
decimal n = decimal_fuel (n + 1) n
