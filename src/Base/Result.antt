-- ===== src/Base/Result.antt =====
-- Python's exceptions as values. `exit` is the `SystemExit` that `sys.exit` raises.
use Prim.Native.Nat.{ℕ}
use Prim.Native.String.{String}
use mathlib.Core.Path.{◌≡◌, refl, ap}
use mathlib.Core.Logic.{◌⊎◌, inl, inr}
use mathlib.Core.Option.{Option, none, some}

pub data Error : Type 0 where
  key_error : String → Error
  type_error : Error
  attribute_error : Error
  index_error : Error
  value_error : String → Error
  unbound_local : String → Error
  os_error : Error
  exception : String → Error
  exit : ℕ → Error

-- What a method returns, or the exception that it raises.
pub data Result {ℓ} (A : Type ℓ) : Type ℓ where
  ok : A → Result A
  err : Error → Result A

-- A value that may be missing, with the exception that Python raises then.
abbrev pub or_raise {ℓ} : {A : Type ℓ} → Option A → Error → Result A
or_raise none error = err error
or_raise (some value) error = ok value

module _ {ℓ κ} {A : Type ℓ} {B : Type κ} where
  -- The rest of a method runs only if nothing was raised before.
  abbrev pub bind : Result A → (A → Result B) → Result B
  bind (ok value) rest = rest value
  bind (err error) rest = err error

  infixl 5 ◌>>=◌ ◌>>◌
  abbrev pub ◌>>=◌ : Result A → (A → Result B) → Result B
  ok value >>= rest = rest value
  err error >>= rest = err error

  abbrev pub ◌>>◌ : Result A → Result B → Result B
  first >> second = first >>= λ _. second

  -- A method that returned went through both of its parts.
  pub bind-eq-ok :
      (part : Result A) (rest : A → Result B) {result : B}
      → (part >>= rest) ≡ ok result
      → (value : A) × (part ≡ ok value) × (rest value ≡ ok result)
  bind-eq-ok (ok value) rest returned = (value, refl, returned)
  bind-eq-ok (err error) rest returned = cc

  -- A method that raised did so in one of its parts.
  pub bind-eq-err :
      (part : Result A) (rest : A → Result B) {error : Error}
      → (part >>= rest) ≡ err error
      → (part ≡ err error) ⊎ ((value : A) × (part ≡ ok value) × (rest value ≡ err error))
  bind-eq-err (ok value) rest raised = inr (value, refl, raised)
  bind-eq-err (err error) rest raised = inl cc

pub ok-injective : {A : Type 0} {a b : A} → ok a ≡ ok b → a ≡ b
ok-injective e = cc

pub or_raise-eq-ok :
    {A : Type 0} (o : Option A) (error : Error) {a : A} → or_raise o error ≡ ok a → o ≡ some a
or_raise-eq-ok none error e = cc
or_raise-eq-ok (some a) error e = ap some (ok-injective e)
