-- ===== src/Terraform/Flatten/Keys.antt =====
-- No key stands twice in what `convert_to_v3_structure` returns.
use mathlib.Core.Path.{subst}
use factory_pattern_design.Base.Text.{member}
use factory_pattern_design.Base.{ℕ, suc, ◌+◌, String, ◌<>◌, ◌≡◌, refl}
use factory_pattern_design.Base.Result.{Error}
use factory_pattern_design.Base.Exec.{Exec, Outcome, returned, raised, after}
use factory_pattern_design.Yaml.{
  Value, null, bool, num, str, list, dict, Items, nil, cons, Fields, end, field, keys, insert,
  update,
}
use factory_pattern_design.Yaml.Distinct.{Distinct, insert-Distinct}
use factory_pattern_design.Terraform.Flatten.{
  counted, copied, convert, convert_fields, convert_items, convert_to_v3_structure,
}

-- What is returned, if anything is, is as `P` says.
pub record Gives {A : Type 0} (P : A → Type 0) (o : Outcome Error A × ℕ) : Type 0 where
  pub gives : (a : A) → o.0 ≡ returned a → P a

returned-injective :
    {A : Type 0} (a b : A) → ◌≡◌ {A = Outcome Error A} (returned a) (returned b) → a ≡ b
returned-injective a b e = cc

module _ {A : Type 0} (P : A → Type 0) where
  pub Gives-returned : (a : A) (n : ℕ) → P a → Gives P (returned a, n)
  Gives-returned a n p = record { gives = λ b e. subst P (returned-injective a b e) p }

  pub Gives-raised : (x : Error) (n : ℕ) → Gives P (raised x, n)
  Gives-raised x n = record { gives = λ a e. absurd (cc) }

  pub Gives-bind :
      {B : Type 0} (Q : B → Type 0) (o : Outcome Error B × ℕ) (f : B → Exec Error ℕ A)
      → Gives Q o
      → ((b : B) (n : ℕ) → Q b → Gives P (f b n))
      → Gives P (after o.0 f o.1)
  Gives-bind Q (returned b, n) f h k = k b n (h.gives b refl)
  Gives-bind Q (raised x, n) f h k = Gives-raised x n

-- No key twice.
abbrev pub IsDistinct : Fields → Type 0
IsDistinct d = Distinct (keys d)

update-Distinct : (e d : Fields) → Distinct (keys d) → Distinct (keys (update e d))
unfolding update
update-Distinct end d u = u
update-Distinct (field k v e) d u = update-Distinct e (insert k v d) (insert-Distinct k v d u)

copied-Distinct :
    (value : Fields) (path : String) (d : Fields)
    → Distinct (keys d)
    → Distinct (keys (copied value path d))
unfolding copied
copied-Distinct end path d u = u
copied-Distinct (field k v value) path d u =
    copied-Distinct value path (insert (path <> ("." <> k)) v d) (insert-Distinct _ v d u)

counted-Distinct :
    (vs : Items) (path : String) (d : Fields)
    → Distinct (keys d)
    → Distinct (keys (counted vs path d))
unfolding counted
counted-Distinct nil path d u = u
counted-Distinct (cons v vs) path d u = insert-Distinct _ _ d u

module _ (randint : ℕ → ℕ) where
  mutual
    unfolding convert convert_fields convert_items keys member

    convert-Gives :
        (v : Value) (prefix : String) (n : ℕ) → Gives IsDistinct (convert randint v prefix n)
    convert-Gives (str s) prefix n = Gives-returned IsDistinct _ (suc n) (refl, tt)
    convert-Gives (dict d) prefix n = convert_fields-Gives d prefix end n tt
    convert-Gives null prefix n = Gives-raised IsDistinct _ n
    convert-Gives (bool b) prefix n = Gives-raised IsDistinct _ n
    convert-Gives (num k) prefix n = Gives-raised IsDistinct _ n
    convert-Gives (list vs) prefix n = Gives-raised IsDistinct _ n

    convert_fields-Gives :
        (d : Fields) (prefix : String) (result : Fields) (n : ℕ)
        → Distinct (keys result)
        → Gives IsDistinct (convert_fields randint d prefix result n)
    convert_fields-Gives end prefix result n u = Gives-returned IsDistinct result n u
    convert_fields-Gives (field key (list vs) d) prefix result n u =
        Gives-bind IsDistinct IsDistinct _ _
          (convert_items-Gives vs (prefix <> key) 0 _ n
            (counted-Distinct vs (prefix <> key) result u))
          (λ more n' u'. convert_fields-Gives d prefix more n' u')
    convert_fields-Gives (field key (dict value) d) prefix result n u =
        convert_fields-Gives d prefix _ n
          (copied-Distinct value (prefix <> key) _ (insert-Distinct _ _ result u))
    convert_fields-Gives (field key null d) prefix result n u =
        convert_fields-Gives d prefix _ n (insert-Distinct _ _ result u)
    convert_fields-Gives (field key (bool b) d) prefix result n u =
        convert_fields-Gives d prefix _ n (insert-Distinct _ _ result u)
    convert_fields-Gives (field key (num k) d) prefix result n u =
        convert_fields-Gives d prefix _ n (insert-Distinct _ _ result u)
    convert_fields-Gives (field key (str s) d) prefix result n u =
        convert_fields-Gives d prefix _ n (insert-Distinct _ _ result u)

    convert_items-Gives :
        (vs : Items) (path : String) (i : ℕ) (result : Fields) (n : ℕ)
        → Distinct (keys result)
        → Gives IsDistinct (convert_items randint vs path i result n)
    convert_items-Gives nil path i result n u = Gives-returned IsDistinct result n u
    convert_items-Gives (cons v vs) path i result n u =
        Gives-bind IsDistinct IsDistinct _ _ (convert-Gives v _ n) (λ more n' u'.
          convert_items-Gives vs path (i + 1) (update more result) n'
            (update-Distinct more result u))

  pub convert_to_v3_structure-Gives :
      (attributes : Value) (n : ℕ) → Gives IsDistinct (convert_to_v3_structure randint attributes n)
  unfolding convert_to_v3_structure
  convert_to_v3_structure-Gives attributes n = convert-Gives attributes "" n
