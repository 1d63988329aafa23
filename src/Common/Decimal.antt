-- ===== src/Common/Decimal.antt =====
-- `{}` of an unsigned integer in `format!`.
use Prim.Native.Nat.{ℕ, zero, suc, ◌/◌, ◌%◌}
use Prim.Native.String.{String, ◌++◌}
use aqualung.Common.Tests.{if◌then◌else◌, ltb, ◌==◌, nat_eq}

unfoldable pub digit : ℕ → String
digit d =
    if d == 0
    then "0"
    else if d == 1
    then "1"
    else if d == 2
    then "2"
    else if d == 3
    then "3"
    else if d == 4
    then "4"
    else if d == 5
    then "5"
    else if d == 6
    then "6"
    else if d == 7
    then "7"
    else if d == 8
    then "8"
    else "9"

unfoldable pub decimal_from : ℕ → ℕ → String → String
unfolding digit
decimal_from zero n behind = behind
decimal_from (suc fuel) n behind =
    let rest = decimal_from fuel (n / 10) (digit (n % 10) ++ behind) in
    if ltb n 10 then digit n ++ behind else rest

-- Twenty digits are enough for every 64-bit integer.
unfoldable pub decimal : ℕ → String
unfolding decimal_from
decimal n = decimal_from 20 n ""
