-- ===== src/Base/Decimal.antt =====
-- `str(n)` of a natural number, and the value of the digits at the end of a text.
pub mod Laws
use Prim.Native.Nat.{ℕ, zero, suc, ◌+◌, ◌-◌, ◌*◌, ◌/◌, ◌%◌}
use Prim.Native.Char.{Char, code}
use Prim.Native.String.{String}
use mathlib.Core.Option.{Option, none, some}
use factory_pattern_design.Base.Tests.{ltb, if◌then◌else◌}
use factory_pattern_design.Base.Text.{is_digit}

abbrev pub digit_char : ℕ → Char
digit_char zero = "0"
digit_char (suc zero) = "1"
digit_char (suc (suc zero)) = "2"
digit_char (suc (suc (suc zero))) = "3"
digit_char (suc (suc (suc (suc zero)))) = "4"
digit_char (suc (suc (suc (suc (suc zero))))) = "5"
digit_char (suc (suc (suc (suc (suc (suc zero)))))) = "6"
digit_char (suc (suc (suc (suc (suc (suc (suc zero))))))) = "7"
digit_char (suc (suc (suc (suc (suc (suc (suc (suc zero)))))))) = "8"
digit_char _ = "9"

-- the digits of `n` in front of `acc`; a number has at most as many digits as it has units, plus one
unfoldable pub digits_onto : ℕ → ℕ → String → String
digits_onto zero n acc = acc
digits_onto (suc f) n acc =
    let more = digits_onto f (n / 10) (String.◌∷◌ (digit_char (n % 10)) acc) in
    if ltb n 10 then String.◌∷◌ (digit_char n) acc else more

unfoldable pub decimal : ℕ → String
unfolding digits_onto
decimal n = digits_onto (suc n) n ""

abbrev pub value_so_far : Option ℕ → ℕ
value_so_far none = 0
value_so_far (some n) = n

-- The number that the digits at the end spell: `none` if the last character is no digit.
unfoldable pub trailing_number : Option ℕ → String → Option ℕ
trailing_number acc String.[] = acc
trailing_number acc (String.◌∷◌ c s) =
    trailing_number (if is_digit c then some (value_so_far acc * 10 + (code c - b'0')) else none) s
