-- ===== src/Base/Exec.antt =====
-- Methods that act on the outside and may raise. What was done before a raise stays done, so the
-- record `S` of it comes back beside the exception too.
use mathlib.Core.List.{List, [], ◌∷◌, ◌++◌}
use factory_pattern_design.Base.Result.{Error, Result, ok, err}

pub data Outcome {ℓ} (E A : Type ℓ) : Type ℓ where
  returned : A → Outcome E A
  raised : E → Outcome E A

abbrev pub Exec {ℓ} : Type ℓ → Type ℓ → Type ℓ → Type ℓ
Exec E S A = S → Outcome E A × S

module _ {ℓ} {E S A : Type ℓ} where
  abbrev pub pure : A → Exec E S A
  pure a s = (returned a, s)

  abbrev pub raise : E → Exec E S A
  raise e s = (raised e, s)

abbrev pub lift : {S A : Type 0} → Result A → Exec Error S A
lift (ok a) s = (returned a, s)
lift (err e) s = (raised e, s)

-- One more action in the record.
abbrev pub act : {E A : Type 0} → A → Exec E (List A) Unit
act a s = (returned tt, s ++ (a ∷ []))

module _ {E S A B : Type 0} where
  abbrev pub after : Outcome E A → (A → Exec E S B) → Exec E S B
  after (returned a) f s = f a s
  after (raised e) f s = (raised e, s)

  infixl 5 ◌>>=◌ ◌>>◌
  abbrev pub ◌>>=◌ : Exec E S A → (A → Exec E S B) → Exec E S B
  ◌>>=◌ m f s = let (r, s') = m s in after r f s'

  abbrev pub ◌>>◌ : Exec E S A → Exec E S B → Exec E S B
  m >> n = m >>= λ _. n

module _ {E S A : Type 0} where
  abbrev pub handled : Outcome E A → (E → Exec E S A) → Exec E S A
  handled (returned a) handler s = (returned a, s)
  handled (raised e) handler s = handler e s

  -- `try: m except: handler`; the handler raises again what it does not want.
  abbrev pub try_except : Exec E S A → (E → Exec E S A) → Exec E S A
  try_except m handler s = let (r, s') = m s in handled r handler s'

-- `for a in items: body(a)`
abbrev pub each : {E S A : Type 0} → (A → Exec E S Unit) → List A → Exec E S Unit
each body [] = pure tt
each body (a ∷ items) = body a >> each body items
