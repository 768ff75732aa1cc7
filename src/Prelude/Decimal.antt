-- ===== src/Prelude/Decimal.antt =====
-- `strconv.Itoa`.
use Prim.Native.Nat.{ℕ, zero, suc, ◌/◌, ◌%◌, ◌+◌}
use Prim.Native.String.{String, ◌++◌}
use mathlib.Core.Path.{◌≡◌, refl}
use slurmlite.Prelude.Int.{ℤ, pos, negsuc}
use slurmlite.Prelude.Tests.{ltb, ◌==◌, if◌then◌else◌}

digit : ℕ → String
digit n =
    if n == 0
    then "0"
    else if n == 1
    then "1"
    else if n == 2
    then "2"
    else if n == 3
    then "3"
    else if n == 4
    then "4"
    else if n == 5
    then "5"
    else if n == 6
    then "6"
    else if n == 7
    then "7"
    else if n == 8
    then "8"
    else "9"

-- Twenty digits are enough for every int64.
decimal : ℕ → ℕ → String
decimal zero n = ""
decimal (suc f) n =
    let rest = decimal f (n / 10) in if ltb n 10 then digit n else rest ++ digit (n % 10)

unfoldable pub itoa : ℤ → String
unfolding digit decimal
itoa (pos n) = decimal 20 n
itoa (negsuc n) = "-" ++ decimal 20 (n + 1)

itoa_runs : itoa (pos 1024) ≡ "1024"
unfolding itoa
itoa_runs = refl
