-- ===== src/Base/Decimal.antt =====
-- `%d` of `fmt.Sprintf` on numbers that are not negative.
use Prim.Native.Nat.{ℕ, zero, suc, ◌/◌, ◌%◌}
use Prim.Native.String.{String, ◌++◌ as text_append}
use package.home_sentinel.Base.Tests.{ltb, if◌then◌else◌, ◌==◌}

abbrev pub digit : ℕ → String
digit d =
    if d == 0
    then "0"
    else if d == 1
    then "1"
    else if d == 2
    then "2"
    else if d == 3
    then "3"
    else if d == 4
    then "4"
    else if d == 5
    then "5"
    else if d == 6
    then "6"
    else if d == 7
    then "7"
    else if d == 8
    then "8"
    else "9"

-- The digits of `n` in front of `rest`. A number has at most `n + 1` digits.
unfoldable pub show_from : ℕ → ℕ → String → String
show_from zero n rest = rest
show_from (suc fuel) n rest =
    let s = text_append (digit (n % 10)) rest in
    let more = show_from fuel (n / 10) s in if ltb n 10 then s else more

unfoldable pub show : ℕ → String
unfolding show_from
show n = show_from (suc n) n ""
