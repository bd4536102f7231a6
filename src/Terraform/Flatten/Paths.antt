-- ===== src/Terraform/Flatten/Paths.antt =====
-- Flat keys under a path, and mappings of them.
use mathlib.Core.Path.{subst}
use text.Mathlib.TextLemmas.{append_cancel_left}
use Prim.Native.String.append
use factory_pattern_design.Base.{
  String, ◌<>◌, false, not, ◌≡◌, refl, sym, ◌∙◌, ap, List, [], ◌∷◌, ◌++◌, ◌=ₛ◌, if◌then◌else◌,
  arith, eq_iff, eq_refl, Bool-cases, inl, inr,
}
use factory_pattern_design.Base.Text.{contains_char}
use factory_pattern_design.Yaml.{Value, Fields, end, field, has_key, insert, keys}
use factory_pattern_design.Yaml.Distinct.{Distinct}
use factory_pattern_design.Yaml.Joined.{
  joined, joined-end, joined_assoc, insert-new, Distinct-joined,
}
use factory_pattern_design.Terraform.Parse.{parse_prefix, from_pairs}
use factory_pattern_design.Terraform.Parse.Laws.{split_once-dot}

pub dot : (s : String) → "." <> s ≡ String.◌∷◌ "." s
dot s = rw append.cons (rw append.nil)

-- The flat key of an entry under a path.
abbrev pub sub : String → String → String
sub path k = path <> String.◌∷◌ "." k

-- The entries of a mapping under a path.
unfoldable pub prefixed : String → Fields → Fields
prefixed path end = end
prefixed path (field k v d) = field (sub path k) v (prefixed path d)

pub prefixed-joined :
    (path : String) (d e : Fields)
    → prefixed path (joined d e) ≡ joined (prefixed path d) (prefixed path e)
unfolding prefixed joined
prefixed-joined path end e = refl
prefixed-joined path (field k v d) e = ap (λ x. field (sub path k) v x) (prefixed-joined path d e)

pub same_sub : (path j k : String) → (sub path j =ₛ sub path k) ≡ (j =ₛ k)
same_sub path j k = elim (Bool-cases (j =ₛ k)) [
  | inl e ↦ rw ((eq_iff j k).0 e) (eq_refl (sub path k) ∙ sym (eq_refl k))
  | inr e ↦ elim (Bool-cases (sub path j =ₛ sub path k)) [
    | inl f ↦
        let g = append_cancel_left path _ _ ((eq_iff (sub path j) (sub path k)).0 f) in
        ground (arith, eq_iff j k, g)
    | inr f ↦ f ∙ sym e
  ]
]

pub has_key-prefixed :
    (path k : String) (d : Fields) → has_key (sub path k) (prefixed path d) ≡ has_key k d
unfolding prefixed has_key
has_key-prefixed path k end = refl
has_key-prefixed path k (field j v d) = rw (same_sub path j k, has_key-prefixed path k d)

-- A new entry under a path stands behind the others.
pub insert-prefixed :
    (path k : String) (v : Value) (d : Fields)
    → has_key k d ≡ false
    → insert (sub path k) v (prefixed path d) ≡ prefixed path (joined d (field k v end))
unfolding prefixed
insert-prefixed path k v d new =
    insert-new (sub path k) v (prefixed path d) (has_key-prefixed path k d ∙ new)
    ∙ sym (prefixed-joined path d (field k v end))

-- What a parser reads of a mapping: everything but the length of a list.
unfoldable pub entries : Fields → List (String × Value)
entries end = []
entries (field k v d) = let rest = entries d in if not (k =ₛ "#") then (k, v) ∷ rest else rest

pub entries-joined : (d e : Fields) → entries (joined d e) ≡ entries d ++ entries e
unfolding entries joined
entries-joined end e = refl
entries-joined (field k v d) e = ground (arith, entries-joined d e)

pub parse_prefix-prefixed :
    (path : String) (d : Fields)
    → contains_char b'.' path ≡ false
    → parse_prefix (prefixed path d) path b'.' ≡ entries d
unfolding parse_prefix prefixed entries
parse_prefix-prefixed path end e = refl
parse_prefix-prefixed path (field k v d) e =
    rw (split_once-dot path k e, eq_refl path, parse_prefix-prefixed path d e)

pub from_pairs-entries :
    (done d : Fields)
    → has_key "#" d ≡ false
    → Distinct (keys (joined done d))
    → from_pairs done (entries d) ≡ joined done d
unfolding from_pairs entries has_key joined
from_pairs-entries done end h u = sym (joined-end done)
from_pairs-entries done (field k v d) h u = elim (Bool-cases (k =ₛ "#")) [
  | inl e ↦ cc
  | inr e ↦
      let step = insert-new k v done (Distinct-joined done k v d u) in
      let again = joined_assoc done (field k v end) d in
      rw (e, step)
        (from_pairs-entries (joined done (field k v end)) d (rw e at h)
            (subst (λ x. Distinct (keys x)) (sym again) u)
          ∙ again)
]
