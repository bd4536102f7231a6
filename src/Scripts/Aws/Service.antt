-- ===== src/Scripts/Aws/Service.antt =====
-- What the service is asked for, and the document of its answers, written down without the code.
use factory_pattern_design.Base.{
  String, ◌<>◌, Bool, false, ◌≡◌, Option, none, some, List, [], ◌∷◌, ◌++◌, map, ◌=ₛ◌, if◌then◌else◌,
}
use factory_pattern_design.Base.Text.{split, strip}
use factory_pattern_design.Base.Result.{ok}
use factory_pattern_design.Yaml.{
  Value, str, list, dict, Items, nil, cons, Fields, end, field, lookup,
}
use factory_pattern_design.Scripts.Aws.{Tag, Instance, Filter, World}

-- The value of a key in the labels, if it has one: that of the last label `key=value`.
unfoldable pub value_in : String → List String → Option String → Option String
value_in key (k ∷ value ∷ []) before = if k =ₛ key then some value else before
value_in key _ before = before

unfoldable pub last_value : String → List String → Option String → Option String
last_value key [] before = before
last_value key (label ∷ labels) before =
    last_value key labels (value_in key (split b'=' (strip label)) before)

-- The text of the first tag with labels.
unfoldable pub first_labels : List Tag → Option String
first_labels [] = none
first_labels (tag ∷ tags) =
    if tag.key =ₛ "kubespray-node-labels" then some tag.value else first_labels tags

unfoldable pub as_text : Option String → Option Value
as_text none = none
as_text (some s) = some (str s)

unfoldable pub items_of : List String → Items
items_of [] = nil
items_of (s ∷ ss) = cons (str s) (items_of ss)

abbrev pub HasLabels : Option String → Fields → Type 0
HasLabels none vars = lookup "node_labels" vars ≡ none
HasLabels (some text) vars =
    (labels : Fields) × (lookup "node_labels" vars ≡ some (dict labels))
    × ((key : String) → lookup key labels ≡ as_text (last_value key (split b',' text) none))

module _ (world : World) where
  abbrev pub is_public : Bool
  is_public = elim (world.getenv "VPC_VISIBILITY") [
    | none ↦ false
    | some visibility ↦ visibility =ₛ "public"
  ]

  abbrev pub name_of : Instance → String
  name_of instance' = if is_public then instance'.public_dns_name else instance'.private_dns_name

  abbrev pub address_of : Instance → Value
  address_of instance' =
      if is_public then instance'.public_ip_address else instance'.private_ip_address

  -- The running instances with the role, of the cluster if it has a name.
  abbrev pub query_of : String → List Filter
  query_of group =
      record { name = "tag:kubespray-role"; values = ("*" <> group <> "*") ∷ [] }
      ∷ record { name = "instance-state-name"; values = "running" ∷ [] }
      ∷ elim (world.getenv "CLUSTER_NAME") [
        | none ↦ []
        | some cluster ↦
            if cluster =ₛ ""
            then []
            else record { name = "tag-key"; values = ("kubernetes.io/cluster/" <> cluster) ∷ [] }
              ∷ []
      ]

  -- The variables of an instance: its address, and the labels of its first tag with labels.
  pub record IsVarsOf (instance' : Instance) (vars : Fields) : Type 0 where
    pub address : lookup "ansible_ssh_host" vars ≡ some (address_of instance')
    pub tags : List Tag
    pub tagged : instance'.tags ≡ some tags
    pub labels : HasLabels (first_labels tags) vars

  -- The last instance of that name; `before` is that of the instances before.
  unfoldable pub last_named : String → List Instance → Option Instance → Option Instance
  last_named name [] before = before
  last_named name (instance' ∷ instances) before =
      last_named name instances (if name_of instance' =ₛ name then some instance' else before)

  abbrev pub VarsFor : Option Instance → String → Fields → Type 0
  VarsFor none name hostvars = lookup name hostvars ≡ none
  VarsFor (some instance') name hostvars =
      (vars : Fields) × (lookup name hostvars ≡ some (dict vars)) × IsVarsOf instance' vars

  abbrev pub names_of : List Instance → Value
  names_of instances = list (items_of (map name_of instances))

  -- The groups have the names of the instances that the service lists for them, in order, and the
  -- variables of each name are those of the last instance of that name; no other name has any.
  pub record IsDocument (hosts : Fields) : Type 0 where
    pub region : String
    pub known : world.getenv "REGION" ≡ some region
    pub control : List Instance
    pub control_asked : world.query region (query_of "kube_control_plane") ≡ ok control
    pub node : List Instance
    pub node_asked : world.query region (query_of "kube_node") ≡ ok node
    pub etcd : List Instance
    pub etcd_asked : world.query region (query_of "etcd") ≡ ok etcd
    pub hostvars : Fields
    pub written :
        hosts
        ≡ field "_meta" (dict (field "hostvars" (dict hostvars) end)) (
            field "kube_control_plane" (names_of control) (
              field "kube_node" (names_of node) (
                field "etcd" (names_of etcd) (
                  field "k8s_cluster"
                    (dict (
                      field "children"
                        (list (cons (str "kube_control_plane") (cons (str "kube_node") nil)))
                        end))
                    end))))
    pub vars :
        (name : String) → VarsFor (last_named name (control ++ node ++ etcd) none) name hostvars
