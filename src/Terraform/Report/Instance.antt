-- ===== src/Terraform/Report/Instance.antt =====
-- What the body of the loop over the instances of a resource of version 4 yields.
use factory_pattern_design.Base.{ℕ, String, Bool, ◌≡◌, refl, if◌then◌else◌}
use factory_pattern_design.Base.Result.{Result, ok, err}
use factory_pattern_design.Base.Exec.{lift, pure}
use factory_pattern_design.Yaml.{
  Value, null, dict, list, nil, Fields, end, field, insert, subscript, has, get_or,
}
use factory_pattern_design.Terraform.Flatten.{convert_to_v3_structure}
use factory_pattern_design.Terraform.Flatten.Keys.{Gives, Gives-returned, Gives-raised, Gives-bind}
use factory_pattern_design.Terraform.Resources.{Resource, dotted, shown, read_instance}

abbrev Any : {A : Type 0} → A → Type 0
Any a = Unit

Gives-lift : {A : Type 0} (m : Result A) (n : ℕ) → Gives (λ a. m ≡ ok a) (lift m n)
Gives-lift (ok a) n = Gives-returned (λ b. ok a ≡ ok b) a n refl
Gives-lift (err e) n = Gives-raised (λ b. err e ≡ ok b) e n

Gives-if : (b : Bool) (m : Result Value) (n : ℕ) → Gives Any ((if b then lift m else pure null) n)
Gives-if b m n = record { gives = λ a e. tt }

module _ (str_of : Value → String) where
  -- The resource that is made of what is read.
  abbrev pub made :
      (kind name : Value) (indexed : Bool) (index provider depends_on : Value) (flat : Fields)
      (has_id : Bool) (id meta : Value)
      → Resource
  made kind name indexed index provider depends_on flat has_id id meta =
      let key = dotted str_of (shown str_of kind) name in
      let primary = field "attributes" (dict flat) end in
      record {
        key = if indexed then dotted str_of key index else key;
        resource = dict (
            field "type" kind (
              field "provider" provider (
                field "depends_on" depends_on (
                  field "primary"
                    (dict (insert "meta" meta (if has_id then insert "id" id primary else primary)))
                    end))));
      }

  -- What holds of the resource follows from what holds of the type and of the flat attributes.
  pub read_instance-Gives :
      (randint : ℕ → ℕ) (P : Resource → Type 0) (K : Value → Type 0) (F : Fields → Type 0)
      (resource instance' : Value)
      → ((kind : Value) → subscript "type" resource ≡ ok kind → K kind)
      → ((attributes : Value) (n : ℕ)
          → subscript "attributes" instance' ≡ ok attributes
          → Gives F (convert_to_v3_structure randint attributes n))
      → ((kind name : Value) (indexed : Bool) (index provider depends_on : Value) (flat : Fields)
            (has_id : Bool) (id meta : Value)
          → K kind
          → F flat
          → P (made kind name indexed index provider depends_on flat has_id id meta))
      → (n : ℕ) → Gives P (read_instance str_of randint resource instance' n)
  unfolding read_instance dotted
  read_instance-Gives randint P K F resource instance' kinds flats makes n =
      Gives-bind P _ _ _ (Gives-lift (subscript "type" resource) n) λ kind n1 k.
        Gives-bind P _ _ _ (Gives-lift (subscript "name" resource) n1) λ name n2 _.
          Gives-bind P _ _ _ (Gives-lift (has "index_key" instance') n2) λ indexed n3 _.
            Gives-bind P Any _ _ (Gives-if indexed (subscript "index_key" instance') n3)
              λ index n4 _.
                Gives-bind P _ _ _ (Gives-lift (subscript "provider" resource) n4) λ provider n5 _.
                  Gives-bind P _ _ _ (Gives-lift (get_or "depends_on" (list nil) instance') n5)
                    λ depends_on n6 _.
                      Gives-bind P _ _ _ (Gives-lift (subscript "attributes" instance') n6)
                        λ attributes n7 a. Gives-bind P F _ _ (flats attributes n7 a) λ flat n8 u.
                          Gives-bind P _ _ _ (Gives-lift (has "id" attributes) n8) λ has_id n9 _.
                            Gives-bind P Any _ _ (Gives-if has_id (subscript "id" attributes) n9)
                              λ id n10 _.
                                Gives-bind P _ _ _
                                  (Gives-lift (get_or "meta" (dict end) attributes) n10)
                                  λ meta n11 _. Gives-returned P _ n11 (
                                    makes kind name indexed index provider depends_on flat has_id id
                                      meta (kinds kind k) u)
