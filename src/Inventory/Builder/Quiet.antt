-- ===== src/Inventory/Builder/Quiet.antt =====
-- Which runs leave the files alone: rules for the ways to build a run.
use factory_pattern_design.Base.{
  String, Bool, true, false, ◌≡◌, refl, ◌∙◌, List, [], ◌∷◌, ◌++◌, if◌then◌else◌, arith,
}
use factory_pattern_design.Base.Result.{Result, ok, err, Error}
use factory_pattern_design.Base.Exec.{
  Outcome, returned, raised, pure, raise, lift, act, after, ◌>>=◌,
}
use factory_pattern_design.Yaml.{Value}
use factory_pattern_design.Inventory.Builder.{Event, print, dump, write, Run}

-- The files that a run wrote, with what it wrote.
abbrev pub writes : List Event → List (String × Value)
writes [] = []
writes (write path v ∷ s) = (path, v) ∷ writes s
writes (print t ∷ s) = writes s
writes (dump v ∷ s) = writes s

pub writes-print : (s : List Event) (t : String) → writes (s ++ print t ∷ []) ≡ writes s
writes-print [] t = refl
writes-print (write path v ∷ s) t = ground (arith, writes-print s t)
writes-print (print x ∷ s) t = writes-print s t
writes-print (dump v ∷ s) t = writes-print s t

pub writes-dump : (s : List Event) (v : Value) → writes (s ++ dump v ∷ []) ≡ writes s
writes-dump [] v = refl
writes-dump (write path w ∷ s) v = ground (arith, writes-dump s v)
writes-dump (print x ∷ s) v = writes-dump s v
writes-dump (dump w ∷ s) v = writes-dump s v

-- `m` writes no file.
pub record IsSilent {A : Type 0} (m : Run A) : Type 0 where
  pub silent : (s : List Event) → writes (m s).1 ≡ writes s

-- `m` writes no file if it raises.
pub record IsQuiet {A : Type 0} (m : Run A) : Type 0 where
  pub quiet : (s : List Event) (e : Error) → (m s).0 ≡ raised e → writes (m s).1 ≡ writes s

module _ {A : Type 0} where
  pub IsSilent-pure : (a : A) → IsSilent (pure a)
  IsSilent-pure a = record { silent = λ s. refl }

  pub IsSilent-raise : (e : Error) → IsSilent (raise {A = A} e)
  IsSilent-raise e = record { silent = λ s. refl }

  pub IsSilent-lift : (r : Result A) → IsSilent (lift r)
  IsSilent-lift (ok a) = record { silent = λ s. refl }
  IsSilent-lift (err e) = record { silent = λ s. refl }

  pub IsQuiet-of_IsSilent : (m : Run A) → IsSilent m → IsQuiet m
  IsQuiet-of_IsSilent m h = record { quiet = λ s e r. h.silent s }

  pub IsSilent-if :
      (b : Bool) (m n : Run A) → IsSilent m → IsSilent n → IsSilent (if b then m else n)
  IsSilent-if true m n h k = h
  IsSilent-if false m n h k = k

  pub IsQuiet-if : (b : Bool) (m n : Run A) → IsQuiet m → IsQuiet n → IsQuiet (if b then m else n)
  IsQuiet-if true m n h k = h
  IsQuiet-if false m n h k = k

pub IsSilent-print : (t : String) → IsSilent (act (print t))
IsSilent-print t = record { silent = λ s. writes-print s t }

pub IsSilent-dump : (v : Value) → IsSilent (act (dump v))
IsSilent-dump v = record { silent = λ s. writes-dump s v }

module _ {A B : Type 0} where
  silent-after :
      (r : Outcome Error A) (f : A → Run B) (s : List Event)
      → ((a : A) → IsSilent (f a))
      → writes (after r f s).1 ≡ writes s
  silent-after (returned a) f s h = (h a).silent s
  silent-after (raised e) f s h = refl

  pub IsSilent-bind :
      (m : Run A) (f : A → Run B) → IsSilent m → ((a : A) → IsSilent (f a)) → IsSilent (m >>= f)
  IsSilent-bind m f h k = record { silent = λ s. silent-after (m s).0 f (m s).1 k ∙ h.silent s }

  quiet-after :
      (r : Outcome Error A) (f : A → Run B) (s : List Event) (e : Error)
      → ((a : A) → IsQuiet (f a))
      → (after r f s).0 ≡ raised e
      → writes (after r f s).1 ≡ writes s
  quiet-after (returned a) f s e h r = (h a).quiet s e r
  quiet-after (raised x) f s e h r = refl

  -- What raises behind a silent step must itself be quiet.
  pub IsQuiet-bind :
      (m : Run A) (f : A → Run B) → IsSilent m → ((a : A) → IsQuiet (f a)) → IsQuiet (m >>= f)
  IsQuiet-bind m f h k = record {
    quiet = λ s e r. quiet-after (m s).0 f (m s).1 e k r ∙ h.silent s;
  }

  after-pure :
      (r : Outcome Error A) (b : B) (s : List Event) (e : Error)
      → (after r (λ _. pure b) s).0 ≡ raised e
      → (r ≡ raised e) × ((after r (λ _. pure b) s).1 ≡ s)
  after-pure (returned a) b s e r = cc
  after-pure (raised x) b s e r = (ground arith, refl)

  -- A quiet step may stand last.
  pub IsQuiet-then_pure : (m : Run A) (b : B) → IsQuiet m → IsQuiet (m >>= λ _. pure b)
  IsQuiet-then_pure m b h = record {
    quiet = λ s e r. let (p, q) = after-pure (m s).0 b (m s).1 e r in rw q (h.quiet s e p);
  }

pub ruleset silent_rules = (
  IsSilent-pure, IsSilent-raise, IsSilent-lift, IsSilent-if, IsSilent-print, IsSilent-dump,
  IsSilent-bind,
)

pub ruleset quiet_rules =
    (silent_rules, IsQuiet-of_IsSilent, IsQuiet-if, IsQuiet-bind, IsQuiet-then_pure)
