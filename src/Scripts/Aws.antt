-- ===== src/Scripts/Aws.antt =====
-- contrib/aws_inventory/kubespray-aws-inventory.py. The environment and the query of the service are
-- parameters, the record `World`. The document is a mapping whose keys stand in the order in which
-- they are set; that it is printed with sorted keys is left out.
pub mod Service
pub mod Labels
pub mod Groups
pub mod Answers
use factory_pattern_design.Base.{
  String, ◌<>◌, Bool, Option, none, some, List, [], ◌∷◌, ◌++◌, ◌=ₛ◌, if◌then◌else◌, filter,
}
use factory_pattern_design.Base.Text.{split, strip}
use factory_pattern_design.Base.Result.{
  Result, ok, err, key_error, type_error, value_error, or_raise, ◌>>=◌,
}
use factory_pattern_design.Yaml.{
  Value, str, list, dict, Items, nil, cons, Fields, end, field, insert,
}

pub record Tag : Type 0 where
  pub key : String
  pub value : String

-- An address is a text or null, and the tags may be missing.
pub record Instance : Type 0 where
  pub private_dns_name : String
  pub private_ip_address : Value
  pub public_dns_name : String
  pub public_ip_address : Value
  pub tags : Option (List Tag)

pub record Filter : Type 0 where
  pub name : String
  pub values : List String

pub record World : Type 0 where
  pub getenv : String → Option String
  pub query : String → List Filter → Result (List Instance)

-- `hosts`, less the lists of the groups.
abbrev pub Hostvars : Type 0
Hostvars = Fields

abbrev pub groups : List String
groups = "kube_control_plane" ∷ "kube_node" ∷ "etcd" ∷ []

-- The pairs of `dict`
abbrev pub put_label : List String → Fields → Result Fields
put_label (key ∷ value ∷ []) labels = ok (insert key (str value) labels)
put_label _ labels =
    err (value_error "dictionary update sequence element has a length that is not 2")

unfoldable pub read_labels : List String → Fields → Result Fields
read_labels [] labels = ok labels
read_labels (label ∷ rest) labels = put_label (split b'=' (strip label)) labels >>= read_labels rest

unfoldable pub is_labels_tag : Tag → Bool
is_labels_tag tag = tag.key =ₛ "kubespray-node-labels"

-- The labels of the first tag that has them.
unfoldable pub add_labels : List Tag → Fields → Result Fields
unfolding read_labels
add_labels [] host = ok host
add_labels (tag ∷ tags) host = do
  labels ← read_labels (split b',' tag.value) end
  ok (insert "node_labels" (dict labels) host)

module _ (world : World) where
  unfoldable pub vpc_visibility : String
  vpc_visibility = elim (world.getenv "VPC_VISIBILITY") [
    | none ↦ "private"
    | some visibility ↦ visibility
  ]

  unfoldable pub cluster_filters : List Filter
  cluster_filters = elim (world.getenv "CLUSTER_NAME") [
    | none ↦ []
    | some name ↦
        if name =ₛ ""
        then []
        else record { name = "tag-key"; values = ("kubernetes.io/cluster/" <> name) ∷ [] } ∷ []
  ]

  unfoldable pub filters : String → List Filter
  unfolding cluster_filters
  filters group =
      record { name = "tag:kubespray-role"; values = ("*" <> group <> "*") ∷ [] }
      ∷ record { name = "instance-state-name"; values = "running" ∷ [] }
      ∷ cluster_filters

  unfoldable pub dns_name : Instance → String
  unfolding vpc_visibility
  dns_name instance =
      if vpc_visibility =ₛ "public" then instance.public_dns_name else instance.private_dns_name

  unfoldable pub ansible_host : Instance → Result Fields
  unfolding vpc_visibility add_labels is_labels_tag
  ansible_host instance = do
    tags ← or_raise instance.tags type_error
    add_labels (filter is_labels_tag tags) (
        field "ansible_ssh_host"
          (if vpc_visibility =ₛ "public"
            then instance.public_ip_address
            else instance.private_ip_address)
          end)

  -- The loop over the instances of a group: the names that are appended, and the variables.
  unfoldable pub add_instances : List Instance → Hostvars → Result (List String × Hostvars)
  unfolding dns_name ansible_host
  add_instances [] hostvars = ok ([], hostvars)
  add_instances (instance ∷ instances) hostvars = do
    host ← ansible_host instance
    (names, hostvars') ← add_instances instances (insert (dns_name instance) (dict host) hostvars)
    ok (dns_name instance ∷ names, hostvars')

  unfoldable pub search_group : String → Hostvars → Result (List String × Hostvars)
  unfolding filters add_instances
  search_group group hostvars = do
    region ← or_raise (world.getenv "REGION") (key_error "REGION")
    instances ← world.query region (filters group)
    add_instances instances hostvars

  -- The loop over the groups.
  unfoldable pub search_groups :
      List String → Hostvars → Result (List (String × List String) × Hostvars)
  unfolding search_group
  search_groups [] hostvars = ok ([], hostvars)
  search_groups (group ∷ rest) hostvars = do
    (names, hostvars') ← search_group group hostvars
    (found, hostvars'') ← search_groups rest hostvars'
    ok ((group, names) ∷ found, hostvars'')

abbrev pub texts : List String → Items
texts [] = nil
texts (s ∷ ss) = cons (str s) (texts ss)

unfoldable pub set_groups : List (String × List String) → Fields → Fields
set_groups [] hosts = hosts
set_groups ((group, names) ∷ found) hosts =
    set_groups found (insert group (list (texts names)) hosts)

-- `hosts` at the end.
unfoldable pub document : List (String × List String) → Hostvars → Fields
unfolding set_groups
document found hostvars =
    insert "k8s_cluster"
      (dict (field "children" (list (texts ("kube_control_plane" ∷ "kube_node" ∷ []))) end))
      (set_groups found (field "_meta" (dict (field "hostvars" (dict hostvars) end)) end))

unfoldable pub search_tags : World → Result Fields
unfolding search_groups document
search_tags world = do
  (found, hostvars) ← search_groups world groups end
  ok (document found hostvars)

-- `SearchEC2Tags()`: the documents that it prints.
unfoldable pub init : World → Bool → Bool → Result (List Fields)
unfolding search_tags
init world list_flag host_flag = do
  printed ← if list_flag then (search_tags world >>= λ hosts. ok (hosts ∷ [])) else ok []
  ok (if host_flag then printed ++ (end ∷ []) else printed)
