-- ===== src/Scripts/Aws/Labels.antt =====
-- The labels that the code reads, and its names and addresses.
use factory_pattern_design.Base.{
  String, ◌≡◌, refl, ◌∙◌, ap, none, some, false, List, [], ◌∷◌, ◌=ₛ◌, filter, sym, Bool-cases, inl,
  inr, Option,
}
use factory_pattern_design.Base.Text.{split, strip}
use factory_pattern_design.Base.Result.{ok, Result, ◌>>=◌, bind-eq-ok, ok-injective}
use factory_pattern_design.Yaml.{Value, str, dict, Fields, end, field, lookup, insert}
use factory_pattern_design.Yaml.Laws.{lookup-insert}
use factory_pattern_design.Scripts.Aws.{
  Tag, Instance, World, texts, put_label, read_labels, add_labels, is_labels_tag, vpc_visibility,
  dns_name, cluster_filters, filters,
}
use factory_pattern_design.Scripts.Aws.Service.{
  value_in, last_value, first_labels, as_text, items_of, HasLabels, is_public, name_of, query_of,
}

pub texts-items_of : (names : List String) → texts names ≡ items_of names
unfolding items_of
texts-items_of [] = refl
texts-items_of (s ∷ ss) = rw (texts-items_of ss)

public_or_not :
    (visibility : Option String)
    → (elim visibility [ none ↦ "private" | some v ↦ v ] =ₛ "public")
      ≡ elim visibility [ none ↦ false | some v ↦ v =ₛ "public" ]
public_or_not none = refl
public_or_not (some v) = refl

module _ (world : World) where
  pub is_public_lem : (vpc_visibility world =ₛ "public") ≡ is_public world
  unfolding vpc_visibility
  is_public_lem = public_or_not (world.getenv "VPC_VISIBILITY")

  pub dns_name_lem : (i : Instance) → dns_name world i ≡ name_of world i
  unfolding dns_name
  dns_name_lem i = rw is_public_lem

  pub filters_lem : (group : String) → filters world group ≡ query_of world group
  unfolding filters cluster_filters
  filters_lem group = refl

-- Labels that are read: the tag that has them is the first one.
abbrev pub after_labels : Option String → Fields → Result Fields
after_labels none host = ok host
after_labels (some text) host =
    read_labels (split b',' text) end >>= λ labels. ok (insert "node_labels" (dict labels) host)

pub add_labels-first :
    (tags : List Tag) (host : Fields)
    → add_labels (filter is_labels_tag tags) host ≡ after_labels (first_labels tags) host
unfolding add_labels first_labels is_labels_tag
add_labels-first [] host = refl
add_labels-first (tag ∷ tags) host = elim (Bool-cases (tag.key =ₛ "kubespray-node-labels")) [
  | inl e ↦ rw e refl
  | inr e ↦ rw e (add_labels-first tags host)
]

put_label-lookup :
    (key : String) (parts : List String) (d d' : Fields) (before : Option String)
    → put_label parts d ≡ ok d'
    → lookup key d ≡ as_text before
    → lookup key d' ≡ as_text (value_in key parts before)
unfolding value_in as_text
put_label-lookup key [] d d' before e p = absurd (cc)
put_label-lookup key (k ∷ []) d d' before e p = absurd (cc)
put_label-lookup key (k ∷ v ∷ []) d d' before e p =
    ap (lookup key) (sym (ok-injective e))
    ∙ lookup-insert key k (str v) d
    ∙ elim (Bool-cases (k =ₛ key)) [ inl same ↦ rw same refl | inr other ↦ rw other p ]
put_label-lookup key (k ∷ v ∷ w ∷ parts) d d' before e p = absurd (cc)

read_labels-lookup :
    (key : String) (labels : List String) (d d' : Fields) (before : Option String)
    → read_labels labels d ≡ ok d'
    → lookup key d ≡ as_text before
    → lookup key d' ≡ as_text (last_value key labels before)
unfolding read_labels last_value
read_labels-lookup key [] d d' before e p = ap (lookup key) (sym (ok-injective e)) ∙ p
read_labels-lookup key (label ∷ labels) d d' before e p =
    let (m, put, rest) =
      bind-eq-ok (put_label (split b'=' (strip label)) d) (read_labels labels) e in
    read_labels-lookup key labels m d' _ rest (put_label-lookup key _ d m before put p)

-- What `add_labels` gives has the labels, and keeps the other variables.
pub after_labels-HasLabels :
    (first : Option String) (address : Value) (vars : Fields)
    → after_labels first (field "ansible_ssh_host" address end) ≡ ok vars
    → (lookup "ansible_ssh_host" vars ≡ some address) × HasLabels first vars
unfolding lookup insert as_text
after_labels-HasLabels none address vars e = (
  ap (lookup "ansible_ssh_host") (sym (ok-injective e)),
  ap (lookup "node_labels") (sym (ok-injective e)),
)
after_labels-HasLabels (some text) address vars e =
    let (labels, read, done) = bind-eq-ok (read_labels (split b',' text) end) _ e in
    (
      ap (lookup "ansible_ssh_host") (sym (ok-injective done)),
      (
        labels,
        ap (lookup "node_labels") (sym (ok-injective done)),
        λ key. read_labels-lookup key (split b',' text) end labels none read refl,
      ),
    )
