-- ===== src/Scripts/DownloadHash/Paths.antt =====
-- Setting a value at a path of keys, and reading it back.
use mathlib.Core.Path.{subst}
use factory_pattern_design.Base.{
  String, true, ◌≡◌, refl, sym, ap, ◌∙◌, some, List, [], ◌∷◌, ◌=ₛ◌, length, arith, eq_refl, eq_iff,
  Bool-cases, inl, inr,
}
use factory_pattern_design.Base.Result.{
  ok, key_error, bind-eq-ok, ok-injective, or_raise, or_raise-eq-ok, ◌>>=◌,
}
use factory_pattern_design.Yaml.{
  Value, null, bool, num, str, list, dict, Fields, lookup, insert, at, put, subscript,
}
use factory_pattern_design.Yaml.Laws.{lookup-insert}

-- How a value came to be set: in a mapping, below the key, whether it was there (on the way) or not.
pub data Set (k : String) (path : List String) (x v v' : Value) : Type 0 where
  here : (d : Fields) → path ≡ [] → v ≡ dict d → v' ≡ dict (insert k x d) → Set k path x v v'
  below :
      (d : Fields) (inner inner' : Value)
      → v ≡ dict d
      → v' ≡ dict (insert k inner' d)
      → lookup k d ≡ some inner
      → put path x inner ≡ ok inner'
      → Set k path x v v'

was_set :
    (k : String) (path : List String) (x v v' : Value)
    → put (k ∷ path) x v ≡ ok v'
    → Set k path x v v'
unfolding put
was_set k [] x (dict d) v' e = here d refl refl (sym (ok-injective e))
was_set k (j ∷ path) x (dict d) v' e =
    let (inner, there, e1) = bind-eq-ok (or_raise (lookup k d) (key_error k)) _ e in
    let (inner', set, e2) = bind-eq-ok (put (j ∷ path) x inner) _ e1 in
    below d inner inner' refl (sym (ok-injective e2)) (or_raise-eq-ok _ _ there) set
was_set k [] x null v' e = absurd (cc)
was_set k [] x (bool b) v' e = absurd (cc)
was_set k [] x (num n) v' e = absurd (cc)
was_set k [] x (str s) v' e = absurd (cc)
was_set k [] x (list items) v' e = absurd (cc)
was_set k (j ∷ path) x null v' e = absurd (cc)
was_set k (j ∷ path) x (bool b) v' e = absurd (cc)
was_set k (j ∷ path) x (num n) v' e = absurd (cc)
was_set k (j ∷ path) x (str s) v' e = absurd (cc)
was_set k (j ∷ path) x (list items) v' e = absurd (cc)

inserted : (k : String) (x : Value) (d : Fields) → lookup k (insert k x d) ≡ some x
inserted k x d = lookup-insert k k x d ∙ rw (eq_refl k) refl

-- What was set is read back.
pub at-put : (path : List String) (x v v' : Value) → put path x v ≡ ok v' → at path v' ≡ ok x
unfolding at put subscript
at-put [] x v v' e = sym e
at-put (k ∷ path) x v v' e = elim (was_set k path x v v' e) [
  | here d last whole changed ↦ rw (changed, last, subscript, inserted k x d) refl
  | below d inner inner' whole changed there set ↦
      rw (changed, subscript, inserted k inner' d) (at-put path x inner inner' set)
]

nil_of_length : (path : List String) → length path ≡ 0 → path ≡ []
nil_of_length [] e = refl
nil_of_length (k ∷ path) e = absurd (omega (arith, e))

equal : (k j : String) → (j =ₛ k) ≡ true → k ≡ j
equal k j e = ground (arith, eq_iff j k)

same_path : {k j : String} {path other : List String} → k ≡ j → path ≡ other → k ∷ path ≡ j ∷ other
same_path e e' = cc

found_below :
    (k j : String) (path : List String) (d : Fields) (inner y v : Value)
    → v ≡ dict d
    → lookup j d ≡ some inner
    → (j =ₛ k) ≡ true
    → at (k ∷ path) v ≡ ok y
    → at path inner ≡ ok y
unfolding at subscript
found_below k j path d inner y v whole there q h =
    subst (λ o. (or_raise o (key_error k) >>= at path) ≡ ok y)
      (ap (λ i. lookup i d) (equal k j q) ∙ there)
      (subst (λ w. (subscript k w >>= at path) ≡ ok y) whole h)

-- What is at a path stays there when a value is set at a path of the same length; where the two are
-- the same path, it was that value.
pub at-put_keeps :
    (path other : List String) (x y v v' : Value)
    → put other x v ≡ ok v'
    → at path v ≡ ok y
    → length path ≡ length other
    → (path ≡ other → y ≡ x)
    → at path v' ≡ ok y
unfolding at put subscript
at-put_keeps [] [] x y v v' e h sized same = sym e ∙ ap ok (sym (same refl))
at-put_keeps [] (j ∷ other) x y v v' e h sized same = absurd (omega (arith, sized))
at-put_keeps (k ∷ path) [] x y v v' e h sized same = absurd (omega (arith, sized))
at-put_keeps (k ∷ path) (j ∷ other) x y v v' e h sized same = elim (was_set j other x v v' e) [
  | here d last whole changed ↦ elim (Bool-cases (j =ₛ k)) [
    | inl q ↦
        let none_left = nil_of_length path (omega (arith, sized, ap length last)) in
        rw (changed, subscript, lookup-insert k j x d, q, none_left)
          (ap ok (sym (same (same_path (equal k j q) (none_left ∙ sym last)))))
    | inr q ↦
        rw (changed, subscript, lookup-insert k j x d, q)
          (subst (λ w. (subscript k w >>= at path) ≡ ok y) whole h)
  ]
  | below d inner inner' whole changed there set ↦ elim (Bool-cases (j =ₛ k)) [
    | inl q ↦
        rw (changed, subscript, lookup-insert k j inner' d, q)
          (at-put_keeps path other x y inner inner' set
            (found_below k j path d inner y v whole there q h) (omega (arith, sized))
            (λ r. same (same_path (equal k j q) r)))
    | inr q ↦
        rw (changed, subscript, lookup-insert k j inner' d, q)
          (subst (λ w. (subscript k w >>= at path) ≡ ok y) whole h)
  ]
]
