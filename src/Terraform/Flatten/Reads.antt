-- ===== src/Terraform/Flatten/Reads.antt =====
-- What stands under a flat key after `convert_to_v3_structure`.
use mathlib.Core.Path.{subst}
use mathlib.Core.Option.{some-injective}
use text.Mathlib.TextLemmas.{append_assoc}
use Prim.Native.String.append
use factory_pattern_design.Base.{
  ℕ, ◌+◌, String, ◌<>◌, true, false, ◌≡◌, sym, ◌∙◌, ap, Option, some, ◌=ₛ◌, eq_iff, eq_refl, arith,
  Bool-cases, inl, inr, All,
}
use factory_pattern_design.Base.Text.{member}
use factory_pattern_design.Base.Decimal.{decimal}
use factory_pattern_design.Yaml.{
  Value, null, bool, num, str, list, dict, Items, nil, cons, Fields, end, field, keys, has_key,
  lookup, insert, update,
}
use factory_pattern_design.Yaml.Laws.{lookup-insert, lookup-update_new}
use factory_pattern_design.Yaml.Distinct.{Distinct}
use factory_pattern_design.Terraform.Flatten.{counted, copied, convert_fields, convert_items}
use factory_pattern_design.Terraform.Flatten.Keys.{Gives, Gives-returned, Gives-bind}
use factory_pattern_design.Terraform.Flatten.Under.{AllUnder, convert-AllUnder}

-- The flat key is neither the path nor below it.
pub record Apart (flat path : String) : Type 0 where
  pub own : (path =ₛ flat) ≡ false
  pub below : (s : String) → (path <> ("." <> s) =ₛ flat) ≡ false

-- The value of a flat key, where there is one.
abbrev pub At : String → Option Value → Fields → Type 0
At flat v d = lookup flat d ≡ v

module _ (flat : String) (o : Option Value) where
  pub At-insert :
      (k : String) (v : Value) (d : Fields)
      → (k =ₛ flat) ≡ false
      → At flat o d
      → At flat o (insert k v d)
  At-insert k v d other h = lookup-insert flat k v d ∙ rw other h

  At-copied :
      (value : Fields) (path : String) (d : Fields)
      → Apart flat path
      → At flat o d
      → At flat o (copied value path d)
  unfolding copied
  At-copied end path d a h = h
  At-copied (field k v value) path d a h = At-copied value path _ a (At-insert _ v d (a.below k) h)

  At-counted :
      (vs : Items) (path : String) (d : Fields)
      → Apart flat path
      → At flat o d
      → At flat o (counted vs path d)
  unfolding counted
  At-counted nil path d a h = h
  At-counted (cons v vs) path d a h = At-insert _ _ d (a.below "#") h

  At-update :
      (path s : String) (more d : Fields)
      → Apart flat path
      → AllUnder (path <> ("." <> s)) more
      → At flat o d
      → At flat o (update more d)
  At-update path s more d a u h = elim (Bool-cases (has_key flat more)) [
    | inl there ↦
        let (t, p) = u.under flat there in
        let same : path <> ("." <> (s <> t)) ≡ flat =
          sym (append_assoc path ("." <> s) t ∙ ap (λ x. path <> x) (append_assoc "." s t)) ∙ p in
        absurd (cc (a.below (s <> t), (eq_iff (path <> ("." <> (s <> t))) flat).1 same))
    | inr free ↦ lookup-update_new flat more d free ∙ h
  ]

  module _ (randint : ℕ → ℕ) where
    items-At :
        (vs : Items) (path : String) (i : ℕ) (result : Fields) (n : ℕ)
        → Apart flat path
        → At flat o result
        → Gives (At flat o) (convert_items randint vs path i result n)
    unfolding convert_items
    items-At nil path i result n a h = Gives-returned (At flat o) result n h
    items-At (cons v vs) path i result n a h =
        Gives-bind (At flat o) (AllUnder (path <> ("." <> (decimal i <> ".")))) _ _
          (convert-AllUnder randint v _ n)
          (λ more n' u.
            items-At vs path (i + 1) (update more result) n' a
              (At-update path (decimal i <> ".") more result a u h))

    -- Attributes that are apart from the flat key leave its value alone.
    pub fields-At :
        (d result : Fields) (n : ℕ)
        → All (Apart flat) (keys d)
        → At flat o result
        → Gives (At flat o) (convert_fields randint d "" result n)
    unfolding convert_fields keys
    fields-At end result n a h = Gives-returned (At flat o) result n h
    fields-At (field key (list vs) d) result n (a, later) h = rw (append.nil key) (
        Gives-bind (At flat o) (At flat o) _ _
          (items-At vs key 0 _ n a (At-counted vs key result a h))
          (λ more n' h'. fields-At d more n' later h'))
    fields-At (field key (dict value) d) result n (a, later) h =
        rw (append.nil key, append.nil (key <> ".%"))
          (fields-At d _ n later (At-copied value key _ a (At-insert _ _ result (a.below "%") h)))
    fields-At (field key null d) result n (a, later) h =
        rw (append.nil key) (fields-At d _ n later (At-insert key _ result a.own h))
    fields-At (field key (bool b) d) result n (a, later) h =
        rw (append.nil key) (fields-At d _ n later (At-insert key _ result a.own h))
    fields-At (field key (num k) d) result n (a, later) h =
        rw (append.nil key) (fields-At d _ n later (At-insert key _ result a.own h))
    fields-At (field key (str s) d) result n (a, later) h =
        rw (append.nil key) (fields-At d _ n later (At-insert key _ result a.own h))

    -- What the attribute does, wherever it stands.
    abbrev pub Puts : String → Value → Type 0
    Puts key v =
        (d result : Fields) (n : ℕ)
        → All (Apart flat) (keys d)
        → Gives (At flat o) (convert_fields randint (field key v d) "" result n)

    Puts-same : (j key : String) (w v : Value) → j ≡ key → w ≡ v → Puts key v → Puts j w
    Puts-same j key w v same value p =
        subst (λ x. Puts x w) (sym same) (subst (λ x. Puts key x) (sym value) p)

    -- All other keys are apart.
    abbrev pub Others : String → Fields → Type 0
    Others key d = (j : String) → member j (keys d) ≡ true → (j =ₛ key) ≡ false → Apart flat j

    Others-All :
        (key : String) (d : Fields)
        → member key (keys d) ≡ false
        → Others key d
        → All (Apart flat) (keys d)
    unfolding member keys
    Others-All key end new h = tt
    Others-All key (field j v d) new h = (
      h j (ground (arith, eq_refl j)) (ground arith),
      Others-All key d (ground arith) (λ i e. h i (ground (arith, e))),
    )

    -- Whatever the first attribute is, the rest decides.
    past :
        (key : String) (v : Value) (d result : Fields) (n : ℕ)
        → ((more : Fields) (n' : ℕ) → Gives (At flat o) (convert_fields randint d "" more n'))
        → Gives (At flat o) (convert_fields randint (field key v d) "" result n)
    unfolding convert_fields
    past key (list vs) d result n h =
        Gives-bind (At flat o) (λ more. Unit {0}) _ _ (record { gives = λ a e. tt })
          (λ more n' _. h more n')
    past key (dict value) d result n h = h _ n
    past key null d result n h = h _ n
    past key (bool b) d result n h = h _ n
    past key (num k) d result n h = h _ n
    past key (str s) d result n h = h _ n

    pub fields-Puts :
        (key : String) (v : Value) (d result : Fields) (n : ℕ)
        → lookup key d ≡ some v
        → Distinct (keys d)
        → Others key d
        → Puts key v
        → Gives (At flat o) (convert_fields randint d "" result n)
    unfolding convert_fields keys lookup member
    fields-Puts key v end result n e u h p = absurd (cc)
    fields-Puts key v (field j w d) result n e (new, u) h p = elim (Bool-cases (j =ₛ key)) [
      | inl t ↦
          let same = (eq_iff j key).0 t in
          let value = some-injective w v (rw t at e) in
          Puts-same j key w v same value p d result n
            (Others-All key d (rw (← same) new) (λ i f. h i (ground (arith, f))))
      | inr f ↦
          past j w d result n (λ more n'.
            fields-Puts key v d more n' (rw f at e) u (λ i g. h i (ground (arith, g))) p)
    ]
