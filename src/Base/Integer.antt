-- ===== src/Base/Integer.antt =====
-- Python's integers, and `int` of a text.
pub mod Printed
use factory_pattern_design.Base.Tests.{◌==◌, ltb, if◌then◌else◌}
use Prim.Native.Nat.{ℕ, zero, suc, ◌+◌, ◌-◌, ◌*◌}
use Prim.Native.Char.{code}
use Prim.Native.String.{String}
use mathlib.Core.Bool.{Bool, true, false, ◌&&◌}
use mathlib.Core.Option.{Option, none, some}
use factory_pattern_design.Base.Text.{is_digit, is_space, lstrip}

-- `negsuc n` is `-(n + 1)`.
pub data ℤ : Type 0 where
  pos : ℕ → ℤ
  negsuc : ℕ → ℤ

abbrev pub negated : ℕ → ℤ
negated zero = pos zero
negated (suc n) = negsuc n

is_blank : String → Bool
is_blank String.[] = true
is_blank (String.◌∷◌ c s) = is_space c && is_blank s

-- Digits, with one underscore between two of them at most, up to space at the end. The flag tells
-- whether a digit stands just before.
unfoldable pub read_digits : ℕ → Bool → String → Option ℕ
unfolding is_blank
read_digits n after String.[] = if after then some n else none
read_digits n after (String.◌∷◌ c s) = elim (is_digit c) [
  | true ↦ read_digits (n * 10 + (code c - b'0')) true s
  | false ↦ elim (after && (code c == b'_')) [
    | true ↦ read_digits n false s
    | false ↦ if after && is_blank (String.◌∷◌ c s) then some n else none
  ]
]

abbrev with_sign : Bool → Option ℕ → Option ℤ
with_sign minus none = none
with_sign true (some n) = some (negated n)
with_sign false (some n) = some (pos n)

abbrev signed : String → Option ℤ
signed String.[] = none
signed (String.◌∷◌ c s) =
    if code c == b'-'
    then with_sign true (read_digits 0 false s)
    else if code c == b'+'
    then with_sign false (read_digits 0 false s)
    else with_sign false (read_digits 0 false (String.◌∷◌ c s))

-- `int(s)`, with `none` for the `ValueError`
unfoldable pub int_of : String → Option ℤ
unfolding read_digits lstrip
int_of s = signed (lstrip s)

-- `n > 0`
abbrev pub is_positive_int : ℤ → Bool
is_positive_int (pos n) = ltb 0 n
is_positive_int (negsuc n) = false
