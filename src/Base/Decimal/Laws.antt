-- ===== src/Base/Decimal/Laws.antt =====
-- The digits at the end of a text, where a number was printed there.
use Prim.Native.Nat.{ℕ, zero, suc, ◌+◌, ◌-◌, ◌*◌, ◌/◌, ◌%◌, ◌≤◌, ◌<◌}
use Prim.Native.Char.{Char, code}
use Prim.Native.String.{String, ◌++◌ as ◌<>◌}
use Prim.Native.String.append
use mathlib.Core.Path.{◌≡◌, refl, ◌∙◌}
use mathlib.Core.Logic.{inl, inr}
use mathlib.Core.Bool.{true, false, ◌||◌}
use mathlib.Core.Option.{Option, none, some}
use mathlib.Core.List.{[], ◌∷◌}
use native.Mathlib.Omega.{arith}
use factory_pattern_design.Base.Tests.{ltb, ◌==◌, if◌then◌else◌, Bool-cases, ltb→lt}
use factory_pattern_design.Base.Text.{is_digit, split, contains_char}
use factory_pattern_design.Base.Decimal.{
  digit_char, digits_onto, decimal, value_so_far, trailing_number,
}

pub record IsDigitOf (d : ℕ) (c : Char) : Type 0 where
  pub digit : is_digit c ≡ true
  pub worth : code c - b'0' ≡ d
  pub no_dot : (code c == b'.') ≡ false

pub digit_char-lem : (d : ℕ) → d < 10 → IsDigitOf d (digit_char d)
digit_char-lem zero h = record { digit = refl; worth = refl; no_dot = refl }
digit_char-lem (suc zero) h = record { digit = refl; worth = refl; no_dot = refl }
digit_char-lem (suc (suc zero)) h = record { digit = refl; worth = refl; no_dot = refl }
digit_char-lem (suc (suc (suc zero))) h = record { digit = refl; worth = refl; no_dot = refl }
digit_char-lem (suc (suc (suc (suc zero)))) h = record { digit = refl; worth = refl; no_dot = refl }
digit_char-lem (suc (suc (suc (suc (suc zero))))) h = record {
  digit = refl;
  worth = refl;
  no_dot = refl;
}
digit_char-lem (suc (suc (suc (suc (suc (suc zero)))))) h = record {
  digit = refl;
  worth = refl;
  no_dot = refl;
}
digit_char-lem (suc (suc (suc (suc (suc (suc (suc zero))))))) h = record {
  digit = refl;
  worth = refl;
  no_dot = refl;
}
digit_char-lem (suc (suc (suc (suc (suc (suc (suc (suc zero)))))))) h = record {
  digit = refl;
  worth = refl;
  no_dot = refl;
}
digit_char-lem (suc (suc (suc (suc (suc (suc (suc (suc (suc zero))))))))) h = record {
  digit = refl;
  worth = refl;
  no_dot = refl;
}
digit_char-lem (suc (suc (suc (suc (suc (suc (suc (suc (suc (suc n)))))))))) h =
    absurd (omega arith)

trailing-digit :
    (a : Option ℕ) (d : ℕ) (s : String)
    → d < 10
    → trailing_number a (String.◌∷◌ (digit_char d) s)
      ≡ trailing_number (some (value_so_far a * 10 + d)) s
unfolding trailing_number
trailing-digit a d s h = let i = digit_char-lem d h in rw (i.digit, i.worth)

-- Reading on over a printed number yields at least that number, and exactly it if nothing was read.
trailing-digits_onto :
    (f n : ℕ) (s : String) (a : Option ℕ)
    → n < f
    → (m : ℕ) × (trailing_number a (digits_onto f n s) ≡ trailing_number (some m) s)
      × (n ≤ m)
      × (value_so_far a ≡ 0 → m ≡ n)
unfolding digits_onto
trailing-digits_onto zero n s a h = absurd (omega arith)
trailing-digits_onto (suc f) n s a h = elim (Bool-cases (ltb n 10)) [
  | inl e ↦ (
    value_so_far a * 10 + n,
    rw e (trailing-digit a n s (ltb→lt n 10 e)),
    omega arith,
    λ z. omega arith,
  )
  | inr e ↦
      let (m, p, q, r) =
        trailing-digits_onto f (n / 10) (String.◌∷◌ (digit_char (n % 10)) s) a (ground arith) in
      (
        m * 10 + n % 10,
        rw e (p ∙ trailing-digit (some m) (n % 10) s (omega arith)),
        omega arith,
        λ z. omega (arith, r z),
      )
]

pub trailing-decimal :
    (n : ℕ) (a : Option ℕ)
    → (m : ℕ) × (trailing_number a (decimal n) ≡ some m) × (n ≤ m) × (value_so_far a ≡ 0 → m ≡ n)
unfolding decimal trailing_number
trailing-decimal n a = trailing-digits_onto (suc n) n "" a (omega arith)

pub trailing-append :
    (s t : String) (a : Option ℕ)
    → trailing_number a (s <> t) ≡ trailing_number (trailing_number a s) t
unfolding trailing_number
trailing-append String.[] t a = rw append.nil
trailing-append (String.◌∷◌ c s) t a = rw append.cons (
    trailing-append s t (if is_digit c then some (value_so_far a * 10 + (code c - b'0')) else none))

pub contains_char-append :
    (k : ℕ) (s t : String) → contains_char k (s <> t) ≡ (contains_char k s || contains_char k t)
unfolding contains_char
contains_char-append k String.[] t = rw append.nil
contains_char-append k (String.◌∷◌ c s) t =
    rw append.cons (ground (arith, contains_char-append k s t))

no_dot-digits_onto :
    (f n : ℕ) (s : String)
    → n < f
    → contains_char b'.' s ≡ false
    → contains_char b'.' (digits_onto f n s) ≡ false
unfolding digits_onto contains_char
no_dot-digits_onto zero n s h e = e
no_dot-digits_onto (suc f) n s h e = elim (Bool-cases (ltb n 10)) [
  | inl b ↦ let i = digit_char-lem n (ltb→lt n 10 b) in rw (b, i.no_dot) e
  | inr b ↦
      let i = digit_char-lem (n % 10) (omega arith) in
      rw b (no_dot-digits_onto f (n / 10) _ (ground arith) (rw i.no_dot e))
]

pub no_dot-decimal : (n : ℕ) → contains_char b'.' (decimal n) ≡ false
unfolding decimal contains_char
no_dot-decimal n = no_dot-digits_onto (suc n) n "" (omega arith) refl

-- A text without the separator is split into itself.
pub split-of_lacks : (k : ℕ) (s : String) → contains_char k s ≡ false → split k s ≡ (s ∷ [])
unfolding split contains_char
split-of_lacks k String.[] h = refl
split-of_lacks k (String.◌∷◌ c s) h = ground (arith, split-of_lacks k s)
