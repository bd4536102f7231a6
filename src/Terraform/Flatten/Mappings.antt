-- ===== src/Terraform/Flatten/Mappings.antt =====
-- A mapping that is flattened is read back.
use mathlib.Core.Path.{subst}
use factory_pattern_design.Base.{ℕ, String, ◌<>◌, false, ◌≡◌, sym, ◌∙◌, ap}
use Prim.Native.String.append
use factory_pattern_design.Base.Text.{contains_char}
use factory_pattern_design.Base.Exec.{returned}
use factory_pattern_design.Yaml.{dict, num, Fields, end, field, has_key, keys, count_fields, insert}
use factory_pattern_design.Yaml.Distinct.{Distinct, member-keys}
use factory_pattern_design.Yaml.Joined.{joined, joined-end, joined_assoc, Distinct-joined}
use factory_pattern_design.Terraform.Parse.{from_pairs, parse_dict}
use factory_pattern_design.Terraform.Flatten.{copied, convert, convert_to_v3_structure}
use factory_pattern_design.Terraform.Flatten.Paths.{
  dot, prefixed, insert-prefixed, parse_prefix-prefixed, from_pairs-entries,
}

copied-prefixed :
    (path : String) (done d : Fields)
    → Distinct (keys (joined done d))
    → copied d path (prefixed path done) ≡ prefixed path (joined done d)
unfolding copied joined
copied-prefixed path done end u = ap (λ x. prefixed path x) (sym (joined-end done))
copied-prefixed path done (field k v d) u =
    let again = joined_assoc done (field k v end) d in
    ap (λ x. copied d path (insert (path <> x) v (prefixed path done))) (dot k)
    ∙ ap (λ x. copied d path x) (insert-prefixed path k v done (Distinct-joined done k v d u))
    ∙ copied-prefixed path (joined done (field k v end)) d
        (subst (λ x. Distinct (keys x)) (sym again) u)
    ∙ ap (λ x. prefixed path x) again

-- A mapping of attributes under a key without a dot, with no key twice and none that is `%` or `#`,
-- is flattened without an exception and without a random number, and `parse_dict` reads it back
-- unchanged behind one more entry `%`, its length.
pub parse_dict-convert :
    (randint : ℕ → ℕ) (n : ℕ) (key : String) (d : Fields)
    → contains_char b'.' key ≡ false
    → Distinct (keys d)
    → has_key "%" d ≡ false
    → has_key "#" d ≡ false
    → (flat : Fields) × (convert_to_v3_structure randint (dict (field key (dict d) end)) n
        ≡ (returned flat, n))
      × (parse_dict flat key b'.' ≡ field "%" (num (count_fields d)) d)
unfolding convert_to_v3_structure convert parse_dict prefixed joined insert keys has_key
parse_dict-convert randint n key d no_dot u percent hash =
    let count = num (count_fields d) in
    let once : Distinct (keys (field "%" count d)) = (member-keys "%" d ∙ percent, u) in
    (
      prefixed key (field "%" count d),
      rw (append.nil key, append.nil (key <> ".%"))
          (ap (λ x. (returned x, n)) (copied-prefixed key (field "%" count end) d once)),
      ap (λ x. from_pairs end x) (parse_prefix-prefixed key (field "%" count d) no_dot)
          ∙ from_pairs-entries end (field "%" count d) hash once,
    )
