-- ===== src/Common/Decimal.antt =====
-- `${n}` and `Number(s)` for natural numbers.
pub mod RoundTrip
use Prim.Native.String
use Prim.Native.Char.{Char, code}
use Prim.Native.Nat.{ℕ, zero, suc, ◌+◌, ◌-◌, ◌*◌, ◌/◌, ◌%◌}
use Prim.Native.String.{String}
use mathlib.Core.Bool.{Bool, ◌&&◌}
use mathlib.Core.Option.{Option, none, some}
use mathlib.Core.List.{List, [], ◌∷◌}
use opanel.Common.Tests.{ltb, leb, if◌then◌else◌}

unfoldable pub digit_names : List String
digit_names = "0" ∷ "1" ∷ "2" ∷ "3" ∷ "4" ∷ "5" ∷ "6" ∷ "7" ∷ "8" ∷ "9" ∷ []

unfoldable pub nth : List String → ℕ → String
nth [] i = ""
nth (s ∷ rest) zero = s
nth (s ∷ rest) (suc i) = nth rest i

unfoldable pub digit : ℕ → String
unfolding digit_names nth
digit n = nth digit_names n

-- `${n}`: the decimal digits. The number itself is enough fuel, since a tenth of it is less.
unfoldable pub decimal_from : ℕ → ℕ → String
unfolding digit
decimal_from zero n = ""
decimal_from (suc fuel) n =
    let front = decimal_from fuel (n / 10) in
    if ltb n 10 then digit n else String.◌++◌ front (digit (n % 10))

unfoldable pub decimal : ℕ → String
unfolding decimal_from
decimal n = decimal_from (suc n) n

-- Whether a code unit is one of 0 to 9.
abbrev pub is_digit : ℕ → Bool
is_digit c = leb 48 c && leb c 57

unfoldable pub number_from : ℕ → String → Option ℕ
number_from n String.[] = some n
number_from n (String.◌∷◌ c s) =
    let rest = number_from (n * 10 + (code c - 48)) s in if is_digit (code c) then rest else none

-- `Number(s)` of decimal digits; a text with anything else is `none`, as `NaN`.
unfoldable pub number_of : String → Option ℕ
unfolding number_from
number_of s = number_from 0 s
