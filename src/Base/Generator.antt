-- ===== src/Base/Generator.antt =====
-- Python's generators: what is read from one comes item by item, and an exception stands where the
-- generator raises it. A reader that stops early does not meet what comes later.
use mathlib.Core.List.{List, [], ◌∷◌}
use factory_pattern_design.Base.Result.{Error, Result, ok, err, bind}

pub data Generator (A : Type 0) : Type 0 where
  finished : Generator A
  failed : Error → Generator A
  yields : A → Generator A → Generator A

module _ {A : Type 0} where
  -- The generator of a body that starts with a step that may raise.
  unfoldable pub first_do : {B : Type 0} → Result B → (B → Generator A) → Generator A
  first_do (ok b) rest = rest b
  first_do (err e) rest = failed e

  -- The items of a generator that is read to its end.
  unfoldable pub drain : Generator A → Result (List A)
  drain finished = ok []
  drain (failed e) = err e
  drain (yields a rest) = bind (drain rest) λ items. ok (a ∷ items)
