-- ===== src/Terraform/Report/Tagged.antt =====
-- An OpenStack instance of a state file of version 4 that has a name and names its groups.
use text.Mathlib.TextLemmas.{append_assoc}
use mathlib.Core.Path.{subst}
use factory_pattern_design.Base.{ℕ, String, ◌<>◌, Bool, true, false, ◌≡◌, refl, sym, ◌∙◌, ap, some}
use factory_pattern_design.Base.Result.{ok, ok-injective}
use factory_pattern_design.Yaml.{Value, str, dict, Fields, keys, lookup, insert, at, subscript}
use factory_pattern_design.Yaml.Distinct.{Distinct}
use factory_pattern_design.Base.Text.{contains_char}
use Prim.Native.String.append
use factory_pattern_design.Terraform.Parse.{split_once}
use factory_pattern_design.Terraform.Parse.Laws.{split_once-dot}
use factory_pattern_design.Terraform.Flatten.{convert_to_v3_structure}
use factory_pattern_design.Terraform.Flatten.Keys.{Gives, convert_to_v3_structure-Gives}
use factory_pattern_design.Terraform.Flatten.Paths.{dot}
use factory_pattern_design.Terraform.Flatten.Finds.{NoDots, convert-text, convert-entry}
use factory_pattern_design.Terraform.Attributes.{raw_attributes}
use factory_pattern_design.Terraform.Resources.{Resource, dotted, shown, read_instance}
use factory_pattern_design.Terraform.Report.{resource_type}
use factory_pattern_design.Terraform.Report.Instance.{made, read_instance-Gives}

abbrev pub compute_instance : String
compute_instance = "openstack_compute_instance_v2"

-- The data of the resource and of one of its instances in the state file: no attribute has a dot in
-- its name.
pub record Tagged (resource instance' : Value) (name label : String) : Type 0 where
  pub attributes : Fields
  pub metadata : Fields
  pub kind : subscript "type" resource ≡ ok (str compute_instance)
  pub read : subscript "attributes" instance' ≡ ok (dict attributes)
  pub named : lookup "name" attributes ≡ some (str name)
  pub described : lookup "metadata" attributes ≡ some (dict metadata)
  pub labelled : lookup "kubespray_groups" metadata ≡ some (str label)
  pub once : Distinct (keys attributes)
  pub once_below : Distinct (keys metadata)
  pub no_dots : NoDots attributes

-- The flat attributes of such an instance.
pub record FlatTags (name label : String) (flat : Fields) : Type 0 where
  pub once : Distinct (keys flat)
  pub named : lookup "name" flat ≡ some (str name)
  pub labelled : lookup "metadata.kubespray_groups" flat ≡ some (str label)

-- What a parser meets.
pub record IsTagged (name label : String) (r : Resource) : Type 0 where
  pub kind : resource_type r ≡ ok compute_instance
  pub flat : Fields
  pub read : raw_attributes r.resource ≡ ok flat
  pub tags : FlatTags name label flat

dotted-dot :
    (str_of : Value → String) (front : String) (v : Value)
    → dotted str_of front v ≡ front <> String.◌∷◌ "." (shown str_of v)
unfolding dotted
dotted-dot str_of front v = ap (λ x. front <> x) (dot (shown str_of v))

dotted_twice :
    (str_of : Value → String) (front : String) (v w : Value)
    → dotted str_of (dotted str_of front v) w
      ≡ front <> String.◌∷◌ "." (shown str_of v <> String.◌∷◌ "." (shown str_of w))
dotted_twice str_of front v w =
    dotted-dot str_of (dotted str_of front v) w
    ∙ ap (λ x. x <> String.◌∷◌ "." (shown str_of w)) (dotted-dot str_of front v)
    ∙ append_assoc front (String.◌∷◌ "." (shown str_of v)) (String.◌∷◌ "." (shown str_of w))
    ∙ ap (λ x. front <> x) (rw append.cons refl)

split-compute :
    (rest : String)
    → split_once b'.' (compute_instance <> String.◌∷◌ "." rest) ≡ some (compute_instance, rest)
unfolding contains_char
split-compute rest = split_once-dot compute_instance rest refl

made-resource_type :
    (str_of : Value → String) (name : Value) (indexed : Bool) (index provider depends_on : Value)
    (flat : Fields) (has_id : Bool) (id meta : Value)
    → resource_type (
        made str_of
          (str compute_instance)
          name
          indexed
          index
          provider
          depends_on
          flat
          has_id
          id
          meta)
      ≡ ok compute_instance
unfolding resource_type shown
made-resource_type str_of name true index provider depends_on flat has_id id meta =
    rw
      (
        dotted_twice str_of compute_instance name index,
        split-compute (shown str_of name <> String.◌∷◌ "." (shown str_of index)),
      )
      refl
made-resource_type str_of name false index provider depends_on flat has_id id meta =
    rw (dotted-dot str_of compute_instance name, split-compute (shown str_of name)) refl

made-raw_attributes :
    (str_of : Value → String) (kind name : Value) (indexed : Bool)
    (index provider depends_on : Value) (flat : Fields) (has_id : Bool) (id meta : Value)
    → raw_attributes
        (made str_of kind name indexed index provider depends_on flat has_id id meta).resource
      ≡ ok flat
unfolding raw_attributes at subscript lookup insert
made-raw_attributes str_of kind name indexed index provider depends_on flat true id meta = refl
made-raw_attributes str_of kind name indexed index provider depends_on flat false id meta = refl

module _ (str_of : Value → String) (randint : ℕ → ℕ) (resource instance' : Value)
    (name label : String) (t : Tagged resource instance' name label) where
  flat-FlatTags :
      (attributes : Value) (n : ℕ)
      → subscript "attributes" instance' ≡ ok attributes
      → Gives (FlatTags name label) (convert_to_v3_structure randint attributes n)
  unfolding contains_char
  flat-FlatTags attributes n e =
      subst (λ x. Gives (FlatTags name label) (convert_to_v3_structure randint x n))
        (ok-injective (sym t.read ∙ e))
        (record {
          gives = λ flat r. record {
            once = (convert_to_v3_structure-Gives randint (dict t.attributes) n).gives flat r;
            named =
                (convert-text randint t.attributes "name" name n t.named t.once t.no_dots
                    refl).gives
                  flat r;
            labelled =
                (convert-entry randint t.attributes t.metadata "metadata" "kubespray_groups"
                    (str label) n t.described t.labelled t.once t.once_below t.no_dots refl).gives
                  flat r;
          };
        })

  -- What is yielded for it is an instance with this name and these groups.
  pub read_instance-IsTagged :
      (n : ℕ) → Gives (IsTagged name label) (read_instance str_of randint resource instance' n)
  read_instance-IsTagged =
      read_instance-Gives str_of randint (IsTagged name label) (λ kind. kind ≡ str compute_instance)
        (FlatTags name label) resource instance' (λ kind e. ok-injective (sym e ∙ t.kind))
        flat-FlatTags
        (λ kind name' indexed index provider depends_on flat has_id id meta k tags. record {
          kind = rw k (
              made-resource_type str_of name' indexed index provider depends_on flat has_id id
                meta);
          flat = flat;
          read =
              made-raw_attributes str_of kind name' indexed index provider depends_on flat has_id id
                meta;
          tags = tags;
        })
