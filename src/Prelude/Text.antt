-- ===== src/Prelude/Text.antt =====
-- Python's `str` on integers, in decimal.
use Prim.Native.Nat.{ℕ, zero, suc, ◌/◌, ◌%◌}
use Prim.Native.String.{String, ◌++◌}
use dbagent_tree.Prelude.Tests.{ltb, nat_eq, ◌==◌, if◌then◌else◌}
use dbagent_tree.Prelude.Int.{ℤ, pos, negsuc}

abbrev digit : ℕ → String
digit n =
    if n == 0
    then "0"
    else if n == 1
    then "1"
    else if n == 2
    then "2"
    else if n == 3
    then "3"
    else if n == 4
    then "4"
    else if n == 5
    then "5"
    else if n == 6
    then "6"
    else if n == 7
    then "7"
    else if n == 8
    then "8"
    else "9"

decimal : ℕ → ℕ → String → String
decimal zero n acc = acc
decimal (suc fuel) n acc =
    let acc' = digit (n % 10) ++ acc in
    let rest = decimal fuel (n / 10) acc' in if ltb n 10 then acc' else rest

-- A number has fewer digits than its successor counts.
unfoldable pub str_nat : ℕ → String
unfolding decimal
str_nat n = decimal (suc n) n ""

unfoldable pub str_int : ℤ → String
unfolding str_nat
str_int (pos n) = str_nat n
str_int (negsuc n) = "-" ++ str_nat (suc n)
