-- ===== src/Terraform/Report/Keys.antt =====
-- The attributes of the resources of version 4 have no key twice.
use mathlib.Core.Path.{subst}
use factory_pattern_design.Base.{
  ℕ, String, Bool, true, false, ◌≡◌, refl, sym, ◌∙◌, List, [], ◌∷◌, if◌then◌else◌,
}
use factory_pattern_design.Base.Result.{Error, Result, ok, bind, ok-injective}
use factory_pattern_design.Base.Exec.{Outcome, returned, raised}
use factory_pattern_design.Base.Generator.{Generator, failed, yields, first_do}
use factory_pattern_design.Yaml.{
  Value, dict, Fields, end, field, insert, keys, lookup, at, subscript,
}
use factory_pattern_design.Yaml.Distinct.{Distinct}
use factory_pattern_design.Terraform.Attributes.{raw_attributes}
use factory_pattern_design.Terraform.Flatten.Keys.{Gives, IsDistinct, convert_to_v3_structure-Gives}
use factory_pattern_design.Terraform.Report.Instance.{read_instance-Gives}
use factory_pattern_design.Terraform.Resources.{
  dotted, Resource, read_instance, instances, resources_v4, Version, version_of, elements,
  iterresources,
}
use factory_pattern_design.Terraform.Report.{World, found_resources}
use factory_pattern_design.Terraform.Report.Groups.{AllYielded, first_do-AllYielded}

-- The attributes that a parser reads of the resource have no key twice.
abbrev pub HasDistinct : Resource → Type 0
HasDistinct r = (flat : Fields) → raw_attributes r.resource ≡ ok flat → Distinct (keys flat)

attributes-Distinct :
    (has_id : Bool) (kind provider depends_on id meta : Value) (flat : Fields)
    → Distinct (keys flat)
    → let primary = field "attributes" (dict flat) end in
      (flat' : Fields)
      → raw_attributes (
          dict (
            field "type" kind (
              field "provider" provider (
                field "depends_on" depends_on (
                  field "primary"
                    (dict (insert "meta" meta (if has_id then insert "id" id primary else primary)))
                    end)))))
        ≡ ok flat'
      → Distinct (keys flat')
unfolding raw_attributes at subscript lookup insert
attributes-Distinct true kind provider depends_on id meta flat u flat' e =
    subst (λ x. Distinct (keys x)) (ok-injective e) u
attributes-Distinct false kind provider depends_on id meta flat u flat' e =
    subst (λ x. Distinct (keys x)) (ok-injective e) u

yielded :
    (o : Outcome Error Resource × ℕ) (rest : ℕ → Generator Resource)
    → Gives HasDistinct o
    → ((n : ℕ) → AllYielded HasDistinct (rest n))
    → AllYielded HasDistinct (elim o.0 [ returned r ↦ yields r (rest o.1) | raised e ↦ failed e ])
yielded (returned r, n) rest h k = (h.gives r refl, k n)
yielded (raised e, n) rest h k = tt

module _ (str_of : Value → String) (randint : ℕ → ℕ) where
  read_instance-HasDistinct :
      (resource instance' : Value) (n : ℕ)
      → Gives HasDistinct (read_instance str_of randint resource instance' n)
  unfolding dotted
  read_instance-HasDistinct resource instance' n =
      read_instance-Gives str_of randint HasDistinct (λ kind. Unit {0}) IsDistinct resource
        instance' (λ kind e. tt)
        (λ attributes n' e. convert_to_v3_structure-Gives randint attributes n')
        (λ kind name indexed index provider depends_on flat has_id id meta _ u.
          attributes-Distinct has_id kind provider depends_on id meta flat u)
        n

  -- What a loop yields after the instances that it reads.
  instances-HasDistinct :
      (resource : Value) (items : List Value) (n : ℕ) (rest : ℕ → Generator Resource)
      → ((n' : ℕ) → AllYielded HasDistinct (rest n'))
      → AllYielded HasDistinct (instances str_of randint resource items n rest)
  unfolding instances
  instances-HasDistinct resource [] n rest h = h n
  instances-HasDistinct resource (i ∷ items) n rest h =
      yielded (read_instance str_of randint resource i n) _ (read_instance-HasDistinct resource i n)
        (λ n'. instances-HasDistinct resource items n' rest h)

  -- Whatever a state of version 4 holds, no resource that is read of it has an attribute twice.
  pub resources_v4-HasDistinct :
      (resources : List Value) (n : ℕ) (rest : ℕ → Generator Resource)
      → ((n' : ℕ) → AllYielded HasDistinct (rest n'))
      → AllYielded HasDistinct (resources_v4 str_of randint resources n rest)
  unfolding resources_v4
  resources_v4-HasDistinct [] n rest h = h n
  resources_v4-HasDistinct (resource ∷ resources) n rest h =
      first_do-AllYielded HasDistinct _ _ λ found e.
        instances-HasDistinct resource found n _
          (λ n'. resources_v4-HasDistinct resources n' rest h)

-- All state files that can be read are of version 4.
abbrev pub AllFour : (String → Result Value) → Type 0
AllFour read_json =
    (name : String) (state : Value)
    → read_json name ≡ ok state
    → bind (subscript "version" state) version_of ≡ ok Version.four

by_version :
    (v : Version) (three : Generator Resource) (found : Result (List Value))
    (f : List Value → Generator Resource)
    → v ≡ Version.four
    → ((resources : List Value) → AllYielded HasDistinct (f resources))
    → AllYielded HasDistinct (elim v [ Version.three ↦ three | Version.four ↦ first_do found f ])
by_version Version.three three found f e h = absurd (cc)
by_version Version.four three found f e h =
    first_do-AllYielded HasDistinct found f (λ resources _. h resources)

module _ (str_of : Value → String) (read_json : String → Result Value) (randint : ℕ → ℕ)
    (fours : AllFour read_json) where
  iterresources-HasDistinct :
      (names : List String) (n : ℕ)
      → AllYielded HasDistinct (iterresources str_of read_json randint names n)
  unfolding iterresources
  iterresources-HasDistinct [] n = tt
  iterresources-HasDistinct (name ∷ names) n =
      first_do-AllYielded HasDistinct (read_json name) _ λ state read.
        first_do-AllYielded HasDistinct (bind (subscript "version" state) version_of) _ λ v e.
          by_version v _ (bind (subscript "resources" state) elements) _
            (ok-injective (sym e ∙ fours name state read))
            (λ resources.
              resources_v4-HasDistinct str_of randint resources n _
                (λ n'. iterresources-HasDistinct names n'))

-- Where all state files are of version 4, no resource that is found has an attribute twice, whatever
-- the files hold and whatever the random numbers are.
pub found_resources-HasDistinct :
    (world : World) (randint : ℕ → ℕ)
    → AllFour world.read_json
    → AllYielded HasDistinct (found_resources world randint)
unfolding found_resources
found_resources-HasDistinct world randint fours =
    iterresources-HasDistinct world.str_of world.read_json randint fours _ 0
