-- ===== src/Terraform/Flatten/Finds.antt =====
-- Texts and mappings of the attributes of an instance stand in what `convert_to_v3_structure` returns.
use mathlib.Core.Option.{some-injective}
use factory_pattern_design.Base.{
  ℕ, String, ◌<>◌, true, false, ◌≡◌, refl, sym, ◌∙◌, ap, Option, some, List, [], ◌∷◌, ◌=ₛ◌, eq_iff,
  eq_refl, arith, Bool-cases, inl, inr, All,
}
use factory_pattern_design.Base.Text.{contains_char, member}
use factory_pattern_design.Base.Decimal.Laws.{contains_char-append}
use factory_pattern_design.Yaml.{Value, str, dict, Fields, end, field, keys, lookup, insert}
use factory_pattern_design.Yaml.Laws.{lookup-insert}
use factory_pattern_design.Yaml.Distinct.{Distinct}
use factory_pattern_design.Terraform.Parse.{split_once}
use factory_pattern_design.Terraform.Parse.Laws.{split_once-dot}
use Prim.Native.String.append
use factory_pattern_design.Terraform.Flatten.{
  copied, convert, convert_fields, convert_to_v3_structure,
}
use factory_pattern_design.Terraform.Flatten.Keys.{Gives}
use factory_pattern_design.Terraform.Flatten.Paths.{dot, sub, same_sub}
use factory_pattern_design.Terraform.Flatten.Reads.{
  At-insert, Apart, At, fields-At, Puts, fields-Puts,
}

-- No attribute has a dot in its name.
abbrev pub NoDots : Fields → Type 0
NoDots d = All (λ j. contains_char b'.' j ≡ false) (keys d)

no_dot :
    (j : String) (ks : List String)
    → All (λ k. contains_char b'.' k ≡ false) ks
    → member j ks ≡ true
    → contains_char b'.' j ≡ false
unfolding member
no_dot j [] h e = absurd (cc)
no_dot j (k ∷ ks) (p, h) e = elim (Bool-cases (k =ₛ j)) [
  | inl t ↦ ap (contains_char b'.') (sym ((eq_iff k j).0 t)) ∙ p
  | inr f ↦ no_dot j ks h (ground (arith, e, f))
]

dotted_has_dot : (j s : String) → contains_char b'.' (j <> ("." <> s)) ≡ true
unfolding contains_char
dotted_has_dot j s = rw (contains_char-append b'.' j ("." <> s), dot s) (ground arith)

-- A path without a dot and what is below it are apart from another key without a dot.
Apart-plain : (key j : String) → contains_char b'.' key ≡ false → (j =ₛ key) ≡ false → Apart key j
Apart-plain key j plain other = record {
  own = other;
  below = λ s. elim (Bool-cases (j <> ("." <> s) =ₛ key)) [
    | inl t ↦ absurd (cc (dotted_has_dot j s, (eq_iff (j <> ("." <> s)) key).0 t, plain))
    | inr f ↦ f
  ];
}

-- Two paths without a dot are apart also below.
Apart-sub :
    (key k j : String)
    → contains_char b'.' key ≡ false
    → contains_char b'.' j ≡ false
    → (j =ₛ key) ≡ false
    → Apart (sub key k) j
Apart-sub key k j plain plain' other = record {
  own = elim (Bool-cases (j =ₛ sub key k)) [
    | inl t ↦ absurd (cc (dotted_has_dot key k, dot k, (eq_iff j (sub key k)).0 t, plain'))
    | inr f ↦ f
  ];
  below = λ s. elim (Bool-cases (j <> ("." <> s) =ₛ sub key k)) [
    | inl t ↦
        let same = (eq_iff (j <> ("." <> s)) (sub key k)).0 t in
        let left : split_once b'.' (j <> ("." <> s)) ≡ some (j, s) =
          rw (dot s) (split_once-dot j s plain') in
        let pair =
          some-injective _ _ (sym left ∙ ap (split_once b'.') same ∙ split_once-dot key k plain) in
        let heads = ap (λ (p : String × String). p.0) pair in
        absurd (cc (other, (eq_iff j key).1 heads))
    | inr f ↦ f
  ];
}

-- The entries of a mapping without the key leave the value under it alone.
copied-lacks :
    (path k : String) (o : Option Value) (value d : Fields)
    → member k (keys value) ≡ false
    → At (sub path k) o d
    → At (sub path k) o (copied value path d)
unfolding copied member keys
copied-lacks path k o end d new h = h
copied-lacks path k o (field i w value) d new h = copied-lacks path k o value _ (ground arith) (
    At-insert (sub path k) o (path <> ("." <> i)) w d
      (rw (dot i) (same_sub path i k ∙ ground arith)) h)

copied-At :
    (path k : String) (v : Value) (value d : Fields)
    → lookup k value ≡ some v
    → Distinct (keys value)
    → At (sub path k) (some v) (copied value path d)
unfolding copied lookup keys
copied-At path k v end d e u = absurd (cc)
copied-At path k v (field i w value) d e (new, u) = elim (Bool-cases (i =ₛ k)) [
  | inl t ↦
      let same = (eq_iff i k).0 t in
      let value_of : some w ≡ some v = rw t at e in
      copied-lacks path k (some v) value _ (rw (← same) new) (
        lookup-insert (sub path k) (path <> ("." <> i)) w d
        ∙ rw (dot i, same_sub path i k ∙ t) value_of)
  | inr f ↦ copied-At path k v value _ (rw f at e) u
]

module _ (randint : ℕ → ℕ) where
  text-Puts : (key s : String) → Puts key (some (str s)) randint key (str s)
  unfolding convert_fields
  text-Puts key s d result n apart = rw (append.nil key) (
      fields-At key (some (str s)) randint d (insert key (str s) result) n apart
        (lookup-insert key key (str s) result ∙ rw (eq_refl key) refl))

  mapping-Puts :
      (key k : String) (v : Value) (value : Fields)
      → lookup k value ≡ some v
      → Distinct (keys value)
      → Puts (sub key k) (some v) randint key (dict value)
  unfolding convert_fields
  mapping-Puts key k v value e u d result n apart =
      rw (append.nil key, append.nil (key <> ".%"))
        (fields-At (sub key k) (some v) randint d _ n apart (copied-At key k v value _ e u))

  -- A text is found under its name.
  pub convert-text :
      (d : Fields) (key s : String) (n : ℕ)
      → lookup key d ≡ some (str s)
      → Distinct (keys d)
      → NoDots d
      → contains_char b'.' key ≡ false
      → Gives (At key (some (str s))) (convert_to_v3_structure randint (dict d) n)
  unfolding convert_to_v3_structure convert
  convert-text d key s n e u plain p =
      fields-Puts key (some (str s)) randint key (str s) d end n e u
        (λ j m other. Apart-plain key j p other) (text-Puts key s)

  -- An entry of a mapping is found behind the name of the mapping and a dot.
  pub convert-entry :
      (d value : Fields) (key k : String) (v : Value) (n : ℕ)
      → lookup key d ≡ some (dict value)
      → lookup k value ≡ some v
      → Distinct (keys d)
      → Distinct (keys value)
      → NoDots d
      → contains_char b'.' key ≡ false
      → Gives (At (sub key k) (some v)) (convert_to_v3_structure randint (dict d) n)
  unfolding convert_to_v3_structure convert
  convert-entry d value key k v n e there u u' plain p =
      fields-Puts (sub key k) (some v) randint key (dict value) d end n e u
        (λ j m other. Apart-sub key k j p (no_dot j (keys d) plain m) other)
        (mapping-Puts key k v value there u')
