-- ===== src/Base/Integer/Printed.antt =====
-- A printed number is read back.
use Prim.Native.Nat.{ℕ, zero, suc, ◌+◌, ◌-◌, ◌*◌, ◌/◌, ◌%◌, ◌<◌}
use Prim.Native.Char.{Char, code}
use Prim.Native.String.{String}
use mathlib.Core.Path.{◌≡◌, refl, ◌∙◌, ap}
use mathlib.Core.Logic.{inl, inr}
use mathlib.Core.Bool.{Bool, true, false}
use mathlib.Core.Option.{some}
use native.Mathlib.Omega.{arith}
use factory_pattern_design.Base.Tests.{ltb, Bool-cases, ltb→lt}
use factory_pattern_design.Base.Text.{is_digit, lstrip}
use factory_pattern_design.Base.Decimal.{digit_char, digits_onto, decimal}
use factory_pattern_design.Base.Decimal.Laws.{digit_char-lem}
use factory_pattern_design.Base.Integer.{pos, read_digits, int_of}

read_digits-digit :
    (a : ℕ) (after : Bool) (c : Char) (s : String)
    → is_digit c ≡ true
    → read_digits a after (String.◌∷◌ c s) ≡ read_digits (a * 10 + (code c - b'0')) true s
unfolding read_digits
read_digits-digit a after c s h = ground arith

read-digit :
    (a d : ℕ) (after : Bool) (s : String)
    → d < 10
    → read_digits a after (String.◌∷◌ (digit_char d) s) ≡ read_digits (a * 10 + d) true s
read-digit a d after s h =
    let i = digit_char-lem d h in
    read_digits-digit a after (digit_char d) s i.digit ∙ rw i.worth refl

read-digits_onto :
    (f n : ℕ) (s : String) (a : ℕ) (after : Bool)
    → n < f
    → (m : ℕ) × (read_digits a after (digits_onto f n s) ≡ read_digits m true s) × (a ≡ 0 → m ≡ n)
unfolding digits_onto
read-digits_onto zero n s a after h = absurd (omega arith)
read-digits_onto (suc f) n s a after h = elim (Bool-cases (ltb n 10)) [
  | inl e ↦ (a * 10 + n, rw e (read-digit a n after s (ltb→lt n 10 e)), λ z. omega arith)
  | inr e ↦
      let (m, p, r) =
        read-digits_onto f (n / 10) (String.◌∷◌ (digit_char (n % 10)) s) a after (ground arith) in
      (
        m * 10 + n % 10,
        rw e (p ∙ read-digit m (n % 10) true s (omega arith)),
        λ z. omega (arith, r z),
      )
]

-- A printed number starts with a digit.
head-digits_onto :
    (f n : ℕ) (s : String)
    → n < f
    → (d : ℕ) × (rest : String) × (d < 10) × (digits_onto f n s ≡ String.◌∷◌ (digit_char d) rest)
unfolding digits_onto
head-digits_onto zero n s h = absurd (omega arith)
head-digits_onto (suc f) n s h = elim (Bool-cases (ltb n 10)) [
  | inl e ↦ (n, s, ltb→lt n 10 e, rw e refl)
  | inr e ↦
      let (d, rest, small, same) =
        head-digits_onto f (n / 10) (String.◌∷◌ (digit_char (n % 10)) s) (ground arith) in
      (d, rest, small, rw e same)
]

-- `int` of a text that starts with a digit reads its digits.
int_of-digit :
    (c : Char) (s : String) (n : ℕ)
    → is_digit c ≡ true
    → read_digits 0 false (String.◌∷◌ c s) ≡ some n
    → int_of (String.◌∷◌ c s) ≡ some (pos n)
unfolding int_of lstrip
int_of-digit c s n h e = ground (arith, e)

ended : (m : ℕ) {n : ℕ} → m ≡ n → read_digits m true "" ≡ some n
unfolding read_digits
ended m e = ap some e

-- `int` reads a printed number back.
pub int_of-decimal : (n : ℕ) → int_of (decimal n) ≡ some (pos n)
unfolding decimal
int_of-decimal n =
    let (d, rest, small, same) = head-digits_onto (suc n) n "" (omega arith) in
    let (m, p, r) = read-digits_onto (suc n) n "" 0 false (omega arith) in
    let first = digit_char-lem d small in
    rw same (int_of-digit (digit_char d) rest n first.digit (rw same at (p ∙ ended m (r refl))))
