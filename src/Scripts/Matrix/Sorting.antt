-- ===== src/Scripts/Matrix/Sorting.antt =====
-- Sorting gives the same names, in order.
use factory_pattern_design.Base.{
  String, true, false, ◌||◌, ◌≡◌, refl, ◌∙◌, ap, List, [], ◌∷◌, ◌=ₛ◌, arith, eq_iff, Bool-cases,
  inl, inr,
}
use factory_pattern_design.Base.Text.{member}
use factory_pattern_design.Yaml.Distinct.{Distinct}
use factory_pattern_design.Scripts.Matrix.{text_leb, sort, insert_sorted}

-- Each name stands before the next.
abbrev pub Sorted : List String → Type 0
Sorted [] = Unit
Sorted (x ∷ []) = Unit
Sorted (x ∷ y ∷ ys) = (text_leb x y ≡ true) × Sorted (y ∷ ys)

text_leb_total : (s t : String) → text_leb s t ≡ false → text_leb t s ≡ true
unfolding text_leb
text_leb_total String.[] t e = absurd (cc)
text_leb_total (String.◌∷◌ c s) String.[] e = refl
text_leb_total (String.◌∷◌ c s) (String.◌∷◌ d t) e = ground (arith, text_leb_total s t)

insert_sorted-member :
    (z x : String) (xs : List String) → member z (insert_sorted x xs) ≡ ((x =ₛ z) || member z xs)
unfolding member insert_sorted
insert_sorted-member z x [] = refl
insert_sorted-member z x (y ∷ ys) = ground (arith, insert_sorted-member z x ys)

pub sort-member : (z : String) (xs : List String) → member z (sort xs) ≡ member z xs
unfolding sort member
sort-member z [] = refl
sort-member z (x ∷ xs) =
    insert_sorted-member z x (sort xs) ∙ ap (λ b. (x =ₛ z) || b) (sort-member z xs)

-- Behind a name that is before `x` and before all that it was before.
behind :
    (y x : String) (ys : List String)
    → text_leb y x ≡ true
    → Sorted (y ∷ ys)
    → Sorted (insert_sorted x ys)
    → Sorted (y ∷ insert_sorted x ys)
unfolding insert_sorted
behind y x [] before s t = (before, tt)
behind y x (z ∷ zs) before s t = elim (Bool-cases (text_leb x z)) [
  | inl e ↦ rw e (before, (e, s.1))
  | inr e ↦ rw e (s.0, (rw e at t))
]

insert_sorted-Sorted : (x : String) (xs : List String) → Sorted xs → Sorted (insert_sorted x xs)
unfolding insert_sorted
insert_sorted-Sorted x [] s = tt
insert_sorted-Sorted x (y ∷ ys) s = elim (Bool-cases (text_leb x y)) [
  | inl e ↦ rw e (e, s)
  | inr e ↦ rw e (behind y x ys (text_leb_total x y e) s (insert_sorted-Sorted x ys (tail y ys s)))
]
  where
    tail : (y : String) (ys : List String) → Sorted (y ∷ ys) → Sorted ys
    tail y [] s = tt
    tail y (z ∷ zs) s = s.1

pub sort-Sorted : (xs : List String) → Sorted (sort xs)
unfolding sort
sort-Sorted [] = tt
sort-Sorted (x ∷ xs) = insert_sorted-Sorted x (sort xs) (sort-Sorted xs)

insert_sorted-Distinct :
    (x : String) (xs : List String)
    → member x xs ≡ false
    → Distinct xs
    → Distinct (insert_sorted x xs)
unfolding insert_sorted member
insert_sorted-Distinct x [] new u = (refl, tt)
insert_sorted-Distinct x (y ∷ ys) new (once, u) =
    ground (arith, insert_sorted-Distinct x ys, insert_sorted-member y x ys, eq_iff x y, eq_iff y x)

pub sort-Distinct : (xs : List String) → Distinct xs → Distinct (sort xs)
unfolding sort
sort-Distinct [] u = tt
sort-Distinct (x ∷ xs) (new, u) =
    insert_sorted-Distinct x (sort xs) (sort-member x xs ∙ new) (sort-Distinct xs u)
