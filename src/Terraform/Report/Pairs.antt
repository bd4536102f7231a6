-- ===== src/Terraform/Report/Pairs.antt =====
-- What `parse_dict` finds under a flat key.
use mathlib.Core.Option.{some-injective}
use text.Mathlib.TextEquality.{Char-path}
use Prim.Native.String.append
use factory_pattern_design.Base.{
  String, Char, code, Bool, true, false, ◌≡◌, refl, sym, ap, ◌∙◌, Option, none, some, List, [], ◌∷◌,
  ◌<>◌, ◌=ₛ◌, ◌==◌, if◌then◌else◌, arith, eq_iff, eq_refl, ◌&&◌, not, Bool-cases, inl, inr,
}
use factory_pattern_design.Base.Text.{member, contains_char}
use factory_pattern_design.Yaml.{Value, Fields, end, field, lookup, insert, keys}
use factory_pattern_design.Yaml.Laws.{lookup-insert}
use factory_pattern_design.Yaml.Distinct.{Distinct}
use factory_pattern_design.Terraform.Parse.{
  split_once, parse_prefix, parse_dict, from_pairs, in_front, under,
}
use factory_pattern_design.Terraform.Parse.Laws.{split_once-dot}
use factory_pattern_design.Terraform.Report.{address_of}
use factory_pattern_design.Terraform.Report.Addresses.{or_value}

abbrev parts : String → String → Option (String × String)
parts p q = some (p, q)

parts_equal : (p q prefix rest : String) → parts p q ≡ parts prefix rest → (p ≡ prefix) × (q ≡ rest)
parts_equal p q prefix rest e =
    let same = some-injective (p, q) (prefix, rest) e in (ap (λ x. x.0) same, ap (λ x. x.1) same)

at_dot :
    (c : Char) (s prefix rest : String)
    → code c ≡ 46
    → parts "" s ≡ parts prefix rest
    → String.◌∷◌ c s ≡ prefix <> String.◌∷◌ "." rest
at_dot c s prefix rest h e =
    let (empty, same) = parts_equal "" s prefix rest e in
    rw (Char-path c "." h, ← empty, same) (sym (append.nil _))

in_front-eq_some :
    (c : Char) (o : Option (String × String)) (prefix rest : String)
    → in_front c o ≡ some (prefix, rest)
    → (p : String) × (o ≡ some (p, rest)) × (prefix ≡ String.◌∷◌ c p)
in_front-eq_some c none prefix rest e = absurd (cc)
in_front-eq_some c (some (p, q)) prefix rest e = (p, cc, cc)

-- The parts of a key are its parts.
split_once-eq_some :
    (key prefix rest : String)
    → split_once b'.' key ≡ some (prefix, rest)
    → key ≡ prefix <> String.◌∷◌ "." rest
unfolding split_once
split_once-eq_some String.[] prefix rest e = absurd (cc)
split_once-eq_some (String.◌∷◌ c s) prefix rest e = elim (Bool-cases (code c == 46)) [
  | inl dot ↦ at_dot c s prefix rest (ground arith) (rw dot at e)
  | inr other ↦
      let (p, behind, front) = in_front-eq_some c (split_once 46 s) prefix rest (rw other at e) in
      rw (front, append.cons) (ap (λ x. String.◌∷◌ c x) (split_once-eq_some s p rest behind))
]

or_value-later :
    (later : Option Value) (b : Bool) (v : Value) (other : Option Value)
    → or_value later (if b then some v else other)
      ≡ or_value (elim later [ some w ↦ some w | none ↦ if b then some v else none ]) other
or_value-later none true v other = refl
or_value-later none false v other = refl
or_value-later (some w) b v other = refl

lookup-from_pairs :
    (k : String) (d : Fields) (pairs : List (String × Value))
    → lookup k (from_pairs d pairs) ≡ or_value (address_of k pairs) (lookup k d)
unfolding from_pairs address_of
lookup-from_pairs k d [] = refl
lookup-from_pairs k d ((j, v) ∷ pairs) =
    lookup-from_pairs k (insert j v d) pairs
    ∙ ap (λ x. or_value (address_of k pairs) x) (lookup-insert k j v d)
    ∙ or_value-later (address_of k pairs) (j =ₛ k) v (lookup k d)

-- Whether the parts of a key are these two.
abbrev matches : String → String → Option (String × String) → Bool
matches prefix rest none = false
matches prefix rest (some (p, r)) = (p =ₛ prefix) && (r =ₛ rest)

both_equal :
    (p prefix r rest : String) → ((p =ₛ prefix) && (r =ₛ rest)) ≡ true → (p ≡ prefix) × (r ≡ rest)
both_equal p prefix r rest both = ground (arith, eq_iff p prefix, eq_iff r rest)

or_value-none : (o : Option Value) → o ≡ or_value o none
or_value-none none = refl
or_value-none (some v) = refl

or_value-elim :
    (later new : Option Value) → elim later [ some w ↦ some w | none ↦ new ] ≡ or_value later new
or_value-elim none new = refl
or_value-elim (some w) new = refl

-- One more pair, or not.
address_of-if :
    (b : Bool) (rest r : String) (value : Value) (entries : List (String × Value))
    → address_of rest (if b then (r, value) ∷ entries else entries)
      ≡ or_value (address_of rest entries) (if b && (r =ₛ rest) then some value else none)
unfolding address_of
address_of-if true rest r value entries = or_value-elim (address_of rest entries) _
address_of-if false rest r value entries = or_value-none (address_of rest entries)

module _ (prefix rest : String) (no_dot : contains_char b'.' prefix ≡ false) where
  abbrev flat : String
  flat = prefix <> String.◌∷◌ "." rest

  unmatched :
      (key : String) (o : Option (String × String))
      → (key =ₛ flat) ≡ false
      → split_once b'.' key ≡ o
      → matches prefix rest o ≡ false
  unmatched key none e found = refl
  unmatched key (some (p, r)) e found = elim (Bool-cases ((p =ₛ prefix) && (r =ₛ rest))) [
    | inl both ↦
        let (front, behind) = both_equal p prefix r rest both in
        let same = split_once-eq_some key p r found in
        absurd (ground (arith, eq_iff key flat, same, front, behind))
    | inr f ↦ f
  ]

  matches-split_once : (key : String) → matches prefix rest (split_once b'.' key) ≡ (key =ₛ flat)
  matches-split_once key = elim (Bool-cases (key =ₛ flat)) [
    | inl e ↦
        rw
          (
            (eq_iff key flat).0 e,
            split_once-dot prefix rest no_dot,
            eq_refl prefix,
            eq_refl rest,
            eq_refl flat,
          )
          refl
    | inr e ↦ rw e (unmatched key (split_once b'.' key) e refl)
  ]

  module _ (other : (rest =ₛ "#") ≡ false) where
    not_hash :
        (p r : String)
        → (((p =ₛ prefix) && not (r =ₛ "#")) && (r =ₛ rest)) ≡ ((p =ₛ prefix) && (r =ₛ rest))
    not_hash p r = ground (arith, eq_iff r rest, eq_iff r "#", eq_iff rest "#")

    address_of-under :
        (value : Value) (entries : List (String × Value)) (o : Option (String × String))
        → address_of rest (under prefix value entries o)
          ≡ or_value (address_of rest entries) (if matches prefix rest o then some value else none)
    unfolding address_of
    address_of-under value entries none = or_value-none (address_of rest entries)
    address_of-under value entries (some (p, r)) =
        address_of-if _ rest r value entries
        ∙ ap (λ b. or_value (address_of rest entries) (if b then some value else none))
            (not_hash p r)

    address_of-field :
        (key : String) (value : Value) (source : Fields)
        → address_of rest (parse_prefix (field key value source) prefix b'.')
          ≡ or_value
              (address_of rest (parse_prefix source prefix b'.'))
              (if key =ₛ flat then some value else none)
    unfolding parse_prefix
    address_of-field key value source =
        address_of-under value (parse_prefix source prefix b'.') (split_once b'.' key)
        ∙ rw (matches-split_once key) refl

    -- A key that is not there gives no pair.
    parse_prefix-eq-none :
        (source : Fields)
        → member flat (keys source) ≡ false
        → address_of rest (parse_prefix source prefix b'.') ≡ none
    unfolding parse_prefix address_of keys member
    parse_prefix-eq-none end new = refl
    parse_prefix-eq-none (field key value source) new =
        address_of-field key value source
        ∙ rw (parse_prefix-eq-none source (ground arith)) (ground arith)

    parse_prefix-eq-some :
        (source : Fields) (v : Value)
        → Distinct (keys source)
        → lookup flat source ≡ some v
        → address_of rest (parse_prefix source prefix b'.') ≡ some v
    unfolding parse_prefix address_of keys lookup
    parse_prefix-eq-some end v u e = cc
    parse_prefix-eq-some (field key value source) v (new, u) e =
        address_of-field key value source ∙ elim (Bool-cases (key =ₛ flat)) [
          | inl same ↦
              rw (same, parse_prefix-eq-none source (rw (← (eq_iff key flat).0 same) new))
                (rw same at e)
          | inr differ ↦ rw (differ, parse_prefix-eq-some source v u (rw differ at e)) refl
        ]

-- What `parse_dict` has for the last part of a flat key is what the source has for the whole key.
pub lookup-parse_dict :
    (prefix rest : String) (source : Fields) (v : Value)
    → contains_char b'.' prefix ≡ false
    → (rest =ₛ "#") ≡ false
    → Distinct (keys source)
    → lookup (prefix <> String.◌∷◌ "." rest) source ≡ some v
    → lookup rest (parse_dict source prefix b'.') ≡ some v
unfolding parse_dict
lookup-parse_dict prefix rest source v no_dot other u e =
    lookup-from_pairs rest end (parse_prefix source prefix b'.')
    ∙ rw (parse_prefix-eq-some prefix rest no_dot other source v u e) refl
