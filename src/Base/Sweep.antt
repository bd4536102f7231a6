-- ===== src/Base/Sweep.antt =====
-- Loops that do one thing for each item that is due, and stop at the first exception.
use mathlib.Core.Path.{◌≡◌, refl, sym, ap, ◌∙◌}
use mathlib.Core.Logic.{◌⊎◌, inl, inr}
use mathlib.Core.Bool.{Bool, true, false}
use mathlib.Core.List.{List, [], ◌∷◌, ◌++◌, map, append_assoc, append-nil}
use factory_pattern_design.Base.Tests.{if◌then◌else◌}
use factory_pattern_design.Base.Lists.{filter, All}
use factory_pattern_design.Base.Exec.{Outcome, returned, raised, Exec, after, each}

-- A loop over the items returns with something done for each item that is due, in their order; or it
-- raises, and that was done for the items up to the one where it stopped.
pub record Swept {E A C : Type 0} (due : A → Bool) (fn : A → C) (items : List A) (before : List C)
    (end : Outcome E Unit × List C) : Type 0 where
  pub taken : List A
  pub rest : List A
  pub whole : items ≡ taken ++ rest
  pub done : end.1 ≡ before ++ map fn (filter due taken)
  pub ended : ((rest ≡ []) × (end.0 ≡ returned tt)) ⊎ ((e : E) × (end.0 ≡ raised e))

module _ {A C : Type 0} (due : A → Bool) (fn : A → C) where
  -- What one turn due fn adds.
  abbrev pub turn : A → List C
  turn a = if due a then fn a ∷ [] else []

  split_if :
      (b : Bool) (a : A) (items : List A)
      → map fn (if b then a ∷ items else items) ≡ (if b then fn a ∷ [] else []) ++ map fn items
  split_if true a items = refl
  split_if false a items = refl

module _ {E A C : Type 0} (due : A → Bool) (fn : A → C) where
  after-Swept :
      (body : A → Exec E (List C) Unit) (a : A) (items : List A) (before now : List C)
      (r : Outcome E Unit)
      → now ≡ before ++ turn due fn a
      → ((s : List C) → Swept due fn items s (each body items s))
      → Swept due fn (a ∷ items) before (after r (λ u. each body items) now)
  after-Swept body a items before now (returned u) e later =
      let next = later now in
      record {
        taken = a ∷ next.taken;
        rest = next.rest;
        whole = ap (λ xs. a ∷ xs) next.whole;
        done =
            next.done
            ∙ ap (λ s. s ++ map fn (filter due next.taken)) e
            ∙ append_assoc before (turn due fn a) _
            ∙ ap (λ s. before ++ s) (sym (split_if due fn (due a) a (filter due next.taken)));
        ended = next.ended;
      }
  after-Swept body a items before now (raised x) e later = record {
    taken = a ∷ [];
    rest = items;
    whole = refl;
    done = e ∙ ap (λ s. before ++ s) (sym (split_if due fn (due a) a [] ∙ append-nil _));
    ended = inr (x, refl);
  }

  pub each-Swept :
      (body : A → Exec E (List C) Unit)
      → ((a : A) (s : List C) → (body a s).1 ≡ s ++ turn due fn a)
      → (items : List A) (before : List C) → Swept due fn items before (each body items before)
  each-Swept body step [] before = record {
    taken = [];
    rest = [];
    whole = refl;
    done = sym (append-nil before);
    ended = inl (refl, refl);
  }
  each-Swept body step (a ∷ items) before =
      after-Swept body a items before (body a before).1 (body a before).0 (step a before)
        (each-Swept body step items)

-- Where every turn returns, the loop does all that is due.
pub each-turns :
    {E A C : Type 0} (due : A → Bool) (fn : A → C) (body : A → Exec E (List C) Unit)
    (items : List A)
    → All (λ a. (s : List C) → body a s ≡ (returned tt, s ++ turn due fn a)) items
    → (before : List C)
    → each body items before ≡ (returned tt, before ++ map fn (filter due items))
each-turns due fn body [] steps before = ap (λ s. (returned tt, s)) (sym (append-nil before))
each-turns due fn body (a ∷ items) (step, steps) before =
    ap (λ p. after p.0 (λ u. each body items) p.1) (step before)
    ∙ each-turns due fn body items steps (before ++ turn due fn a)
    ∙ ap (λ s. (returned tt, s))
        (append_assoc before (turn due fn a) _
          ∙ ap (λ s. before ++ s) (sym (split_if due fn (due a) a (filter due items))))
