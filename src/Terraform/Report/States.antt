-- ===== src/Terraform/Report/States.antt =====
-- An instance of a state file of version 4 is among the resources that are found, if the files can be
-- read to their end.
use mathlib.Core.Path.{subst}
use factory_pattern_design.Base.{ℕ, String, ◌≡◌, refl, sym, ◌∙◌, List, [], ◌∷◌, inl, inr}
use factory_pattern_design.Base.Result.{Error, Result, ok, err, bind, bind-eq-ok, ok-injective}
use factory_pattern_design.Base.Exec.{Outcome, returned, raised}
use factory_pattern_design.Base.Generator.{Generator, failed, yields, first_do, drain}
use factory_pattern_design.Yaml.{Value, num, Fields, end, field, subscript, text}
use factory_pattern_design.Terraform.Flatten.Keys.{Gives}
use factory_pattern_design.Terraform.Resources.{
  Resource, module_resources, modules_v3, read_instance, instances, resources_v4, Version,
  version_of, elements, iterresources,
}
use factory_pattern_design.Terraform.Report.Found.{Any, Among, drain-yields}

-- The value is one of the list.
abbrev pub In : {A : Type 0} → A → List A → Type 0
In a xs = Any (λ x. x ≡ a) xs

-- What the state file holds.
pub record InState (read_json : String → Result Value) (name : String) (resource instance' : Value)
    : Type 0 where
  pub state : Value
  pub resources : List Value
  pub instances : List Value
  pub read : read_json name ≡ ok state
  pub version : subscript "version" state ≡ ok (num 4)
  pub all_resources : bind (subscript "resources" state) elements ≡ ok resources
  pub has_resource : In resource resources
  pub all_instances : bind (subscript "instances" resource) elements ≡ ok instances
  pub has_instance : In instance' instances

module _ (P : Resource → Type 0) where
  -- If the generator can be read to its end, it yields what is as `P` says.
  abbrev pub Meets : Generator Resource → Type 0
  Meets gen = (items : List Resource) → drain gen ≡ ok items → (r : Resource) × Among r gen × P r

  Meets-first_do :
      {B : Type 0} (b? : Result B) (f : B → Generator Resource)
      → ((b : B) → b? ≡ ok b → Meets (f b))
      → Meets (first_do b? f)
  unfolding first_do drain
  Meets-first_do (ok b) f h items e = h b refl items e
  Meets-first_do (err x) f h items e = absurd (cc)

  Meets-yields : (r : Resource) (rest : Generator Resource) → Meets rest → Meets (yields r rest)
  Meets-yields r rest h items e =
      let (later, found, same) = drain-yields r rest items e in
      let (q, among, p) = h later found in (q, inr among, p)

  module_resources-Meets :
      (resources : Fields) (rest : Generator Resource)
      → Meets rest
      → Meets (module_resources resources rest)
  unfolding module_resources
  module_resources-Meets end rest h = h
  module_resources-Meets (field key resource resources) rest h =
      Meets-yields _ _ (module_resources-Meets resources rest h)

  modules_v3-Meets :
      (modules : List Value) (rest : Generator Resource)
      → Meets rest
      → Meets (modules_v3 modules rest)
  unfolding modules_v3
  modules_v3-Meets [] rest h = h
  modules_v3-Meets (m ∷ modules) rest h =
      Meets-first_do _ _
        (λ resources e. module_resources-Meets resources _ (modules_v3-Meets modules rest h))

  -- One round of the loop over instances.
  after_read :
      (o : Outcome Error Resource × ℕ) (rest : ℕ → Generator Resource)
      → ((n : ℕ) → Meets (rest n))
      → Meets (elim o.0 [ returned r ↦ yields r (rest o.1) | raised e ↦ failed e ])
  unfolding drain
  after_read (returned r, n) rest h = Meets-yields r (rest n) (h n)
  after_read (raised x, n) rest h = λ items e. absurd (cc)

  at_read :
      (o : Outcome Error Resource × ℕ) (rest : ℕ → Generator Resource)
      → Gives P o
      → Meets (elim o.0 [ returned r ↦ yields r (rest o.1) | raised e ↦ failed e ])
  unfolding drain
  at_read (returned r, n) rest g = λ items e. (r, inl refl, g.gives r refl)
  at_read (raised x, n) rest g = λ items e. absurd (cc)

  module _ (str_of : Value → String) (randint : ℕ → ℕ) where
    instances-Meets_rest :
        (resource : Value) (found : List Value) (n : ℕ) (rest : ℕ → Generator Resource)
        → ((n' : ℕ) → Meets (rest n'))
        → Meets (instances str_of randint resource found n rest)
    unfolding instances
    instances-Meets_rest resource [] n rest h = h n
    instances-Meets_rest resource (i ∷ found) n rest h =
        after_read (read_instance str_of randint resource i n) _
          (λ n'. instances-Meets_rest resource found n' rest h)

    resources_v4-Meets_rest :
        (resources : List Value) (n : ℕ) (rest : ℕ → Generator Resource)
        → ((n' : ℕ) → Meets (rest n'))
        → Meets (resources_v4 str_of randint resources n rest)
    unfolding resources_v4
    resources_v4-Meets_rest [] n rest h = h n
    resources_v4-Meets_rest (resource ∷ resources) n rest h = Meets-first_do _ _ (λ found e.
        instances-Meets_rest resource found n _ (λ n'. resources_v4-Meets_rest resources n' rest h))

    module _ (resource instance' : Value)
        (gives : (n : ℕ) → Gives P (read_instance str_of randint resource instance' n)) where
      instances-Meets :
          (found : List Value) (n : ℕ) (rest : ℕ → Generator Resource)
          → In instance' found
          → Meets (instances str_of randint resource found n rest)
      unfolding instances
      instances-Meets [] n rest h = absurd h
      instances-Meets (i ∷ found) n rest (inl same) =
          at_read (read_instance str_of randint resource i n)
            (λ n'. instances str_of randint resource found n' rest)
            (subst (λ x. Gives P (read_instance str_of randint resource x n)) (sym same) (gives n))
      instances-Meets (i ∷ found) n rest (inr h) =
          after_read (read_instance str_of randint resource i n) _
            (λ n'. instances-Meets found n' rest h)

      resources_v4-Meets :
          (resources found : List Value) (n : ℕ) (rest : ℕ → Generator Resource)
          → In resource resources
          → bind (subscript "instances" resource) elements ≡ ok found
          → In instance' found
          → Meets (resources_v4 str_of randint resources n rest)
      unfolding resources_v4
      resources_v4-Meets [] found n rest h e i = absurd h
      resources_v4-Meets (q ∷ resources) found n rest (inl same) e i =
          Meets-first_do _ _ (λ found' f.
            let (provider, _, f1) = bind-eq-ok (subscript "provider" q) _ f in
            let (name, _, f2) = bind-eq-ok (text provider) _ f1 in
            let again = subst (λ x. bind (subscript "instances" x) elements ≡ ok found') same f2 in
            let more = λ (n' : ℕ). resources_v4 str_of randint resources n' rest in
            subst (λ x. Meets (instances str_of randint x found' n more)) (sym same)
              (instances-Meets found' n more
                (subst (In instance') (ok-injective (sym e ∙ again)) i)))
      resources_v4-Meets (q ∷ resources) found n rest (inr h) e i = Meets-first_do _ _ (λ found' f.
          instances-Meets_rest q found' n _
            (λ n'. resources_v4-Meets resources found n' rest h e i))

  module _ (str_of : Value → String) (read_json : String → Result Value) (randint : ℕ → ℕ)
      (name : String) (resource instance' : Value) (s : InState read_json name resource instance')
      (gives : (n : ℕ) → Gives P (read_instance str_of randint resource instance' n)) where
    -- The resources of a state, and what is yielded after them.
    abbrev of_version : Version → Value → ℕ → (ℕ → Generator Resource) → Generator Resource
    of_version v state n rest = elim v [
      | Version.three ↦
          first_do (bind (subscript "modules" state) elements)
            λ modules. modules_v3 modules (rest n)
      | Version.four ↦
          first_do (bind (subscript "resources" state) elements)
            λ resources. resources_v4 str_of randint resources n rest
    ]

    -- The rest behind a file, whatever its version.
    after_file :
        (v : Version) (state : Value) (n : ℕ) (rest : ℕ → Generator Resource)
        → ((n' : ℕ) → Meets (rest n'))
        → Meets (of_version v state n rest)
    after_file Version.three state n rest h =
        Meets-first_do _ _ (λ modules e. modules_v3-Meets modules (rest n) (h n))
    after_file Version.four state n rest h =
        Meets-first_do _ _
          (λ resources e. resources_v4-Meets_rest str_of randint resources n rest h)

    at_file :
        (v : Version) (n : ℕ) (rest : ℕ → Generator Resource)
        → v ≡ Version.four
        → Meets (of_version v s.state n rest)
    at_file Version.three n rest e = absurd (cc)
    at_file Version.four n rest e = Meets-first_do _ _ (λ resources f.
        resources_v4-Meets str_of randint resource instance' gives resources s.instances n rest
          (subst (In resource) (ok-injective (sym s.all_resources ∙ f)) s.has_resource)
          s.all_instances s.has_instance)

    is_four : bind (subscript "version" s.state) version_of ≡ ok Version.four
    unfolding version_of
    is_four = rw s.version refl

    at_read_file :
        (state : Value) (n : ℕ) (rest : ℕ → Generator Resource)
        → read_json name ≡ ok state
        → Meets
            (first_do (bind (subscript "version" state) version_of) λ v. of_version v state n rest)
    at_read_file state n rest e =
        subst
          (λ x.
            Meets (first_do (bind (subscript "version" x) version_of) λ v. of_version v x n rest))
          (ok-injective (sym s.read ∙ e))
          (Meets-first_do _ _ (λ v f. at_file v n rest (ok-injective (sym f ∙ is_four))))

    pub iterresources-Meets :
        (names : List String) (n : ℕ)
        → In name names
        → Meets (iterresources str_of read_json randint names n)
    unfolding iterresources
    iterresources-Meets [] n h = absurd h
    iterresources-Meets (x ∷ names) n (inl same) = Meets-first_do _ _ (λ state e.
        at_read_file state n (λ n'. iterresources str_of read_json randint names n')
          (subst (λ y. read_json y ≡ ok state) same e))
    iterresources-Meets (x ∷ names) n (inr h) = Meets-first_do _ _ (λ state e.
        Meets-first_do _ _ (λ v f.
          after_file v state n (λ n'. iterresources str_of read_json randint names n')
            (λ n'. iterresources-Meets names n' h)))
