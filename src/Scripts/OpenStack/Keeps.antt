-- ===== src/Scripts/OpenStack/Keeps.antt =====
-- Runs that add only calls of one sort.
use factory_pattern_design.Base.{Bool, true, false, ◌≡◌, List, [], ◌∷◌, ◌++◌, if◌then◌else◌, All}
use factory_pattern_design.Base.Exec.{
  Outcome, returned, raised, pure, raise, after, handled, try_except, each, ◌>>=◌,
}
use factory_pattern_design.Scripts.OpenStack.{
  Item, Kind, Call, Problem, conflict, other, Cloud, Settings, Run, call, listed, on_conflict,
}

module _ (P : Call → Type 0) where
  All-snoc : (calls : List Call) (c : Call) → All P calls → P c → All P (calls ++ (c ∷ []))
  All-snoc [] c h p = (p, tt)
  All-snoc (d ∷ calls) c (q, h) p = (q, All-snoc calls c h p)

  -- `m` adds only calls that are as `P` says.
  pub record Keeps {A : Type 0} (m : Run A) : Type 0 where
    pub keeps : (calls : List Call) → All P calls → All P (m calls).1

  module _ {A : Type 0} where
    pub Keeps-pure : (a : A) → Keeps (pure a)
    Keeps-pure a = record { keeps = λ calls h. h }

    pub Keeps-raise : (e : Problem) → Keeps {A = A} (raise e)
    Keeps-raise e = record { keeps = λ calls h. h }

    -- What only asks.
    pub Keeps-ask : (f : List Call → Outcome Problem A) → Keeps (λ calls. (f calls, calls))
    Keeps-ask f = record { keeps = λ calls h. h }

    pub Keeps-if : (b : Bool) (m n : Run A) → Keeps m → Keeps n → Keeps (if b then m else n)
    Keeps-if true m n h k = h
    Keeps-if false m n h k = k

    keeps-handled :
        (r : Outcome Problem A) (handler : Problem → Run A) (calls : List Call)
        → ((e : Problem) → Keeps (handler e))
        → All P calls
        → All P (handled r handler calls).1
    keeps-handled (returned a) handler calls k h = h
    keeps-handled (raised e) handler calls k h = (k e).keeps calls h

    pub Keeps-try_except :
        (m : Run A) (handler : Problem → Run A)
        → Keeps m
        → ((e : Problem) → Keeps (handler e))
        → Keeps (try_except m handler)
    Keeps-try_except m handler h k = record {
      keeps = λ calls p. keeps-handled (m calls).0 handler (m calls).1 k (h.keeps calls p);
    }

  module _ {A B : Type 0} where
    keeps-after :
        (r : Outcome Problem A) (f : A → Run B) (calls : List Call)
        → ((a : A) → Keeps (f a))
        → All P calls
        → All P (after r f calls).1
    keeps-after (returned a) f calls k h = (k a).keeps calls h
    keeps-after (raised e) f calls k h = h

    pub Keeps-bind :
        (m : Run A) (f : A → Run B) → Keeps m → ((a : A) → Keeps (f a)) → Keeps (m >>= f)
    Keeps-bind m f h k = record {
      keeps = λ calls p. keeps-after (m calls).0 f (m calls).1 k (h.keeps calls p);
    }

  pub Keeps-each :
      {A : Type 0} (body : A → Run Unit) (items : List A)
      → ((a : A) → Keeps (body a))
      → Keeps (each body items)
  Keeps-each body [] k = Keeps-pure tt
  Keeps-each body (a ∷ items) k = Keeps-bind (body a) _ (k a) (λ _. Keeps-each body items k)

  pub Keeps-on_conflict :
      (settings : Settings) (cloud : Cloud) (m : Run Unit) (e : Problem)
      → Keeps m
      → Keeps (on_conflict settings cloud m e)
  Keeps-on_conflict settings cloud m conflict h = h
  Keeps-on_conflict settings cloud m (other msg) h = Keeps-raise (other msg)

  pub Keeps-call :
      (settings : Settings) (cloud : Cloud) (c : Call) → P c → Keeps (call settings cloud c)
  unfolding call
  Keeps-call settings cloud c p = record { keeps = λ calls h. All-snoc calls c h p }

  pub Keeps-same :
      {A : Type 0} (m n : Run A) → ((calls : List Call) → m calls ≡ n calls) → Keeps n → Keeps m
  Keeps-same m n same h = record { keeps = λ calls p. rw (same calls) (h.keeps calls p) }

  pub Keeps-try_same :
      {A : Type 0} (m n : Run A) (handler : Problem → Run A)
      → ((calls : List Call) → m calls ≡ n calls)
      → Keeps (try_except n handler)
      → Keeps (try_except m handler)
  Keeps-try_same m n handler same h = record {
    keeps = λ calls p. rw (same calls) (h.keeps calls p);
  }

  pub Keeps-listed :
      {B : Type 0} (settings : Settings) (cloud : Cloud) (kind : Kind) (f : List Item → Run B)
      → ((found : List Item) → Keeps (f found))
      → Keeps (listed settings cloud kind >>= f)
  unfolding listed
  Keeps-listed settings cloud kind f k =
      Keeps-bind (λ calls. (cloud.list kind calls, calls)) f (Keeps-ask _) k
