-- ===== src/Inventory/Load/Flat.antt =====
-- What `load_file` makes of a document, without the nesting: the hosts, and the members of any groups.
use factory_pattern_design.Base.{
  String, false, ◌≡◌, Option, none, some, List, [], ◌∷◌, ◌=ₛ◌, if◌then◌else◌,
}
use factory_pattern_design.Yaml.{Value, null, dict, Fields, end, field, lookup, insert}

pub record Flat : Type 0 where
  pub hosts : Fields
  pub groups : List (String × Fields)

abbrev pub cluster : Value
cluster =
    dict
      (field "children" (dict (field "kube_control_plane" null (field "kube_node" null end))) end)

abbrev pub group_document : String → Fields → Value
group_document group members =
    if group =ₛ "k8s_cluster" then cluster else dict (field "hosts" (dict members) end)

abbrev pub children_of : List (String × Fields) → Fields
children_of [] = end
children_of ((group, members) ∷ groups) =
    field group (group_document group members) (children_of groups)

abbrev pub document_of : Flat → Value
document_of f = dict (
    field "all"
      (dict (field "hosts" (dict f.hosts) (field "children" (dict (children_of f.groups)) end)))
      end)

-- The groups of the roles, without hosts.
abbrev pub no_hosts : Flat
no_hosts = record {
  hosts = end;
  groups =
      ("kube_control_plane", end)
      ∷ ("kube_node", end)
      ∷ ("etcd", end)
      ∷ ("k8s_cluster", end)
      ∷ ("calico_rr", end)
      ∷ [];
}

unfoldable pub members_of : String → List (String × Fields) → Option Fields
members_of group [] = none
members_of group ((key, members) ∷ groups) =
    if key =ₛ group then some members else members_of group groups

-- A group that is not there is put behind the others.
unfoldable pub require : String → List (String × Fields) → List (String × Fields)
require group [] = (group, end) ∷ []
require group ((key, members) ∷ groups) =
    if key =ₛ group then (key, members) ∷ groups else (key, members) ∷ require group groups

unfoldable pub join_group : String → String → List (String × Fields) → List (String × Fields)
join_group group host [] = []
join_group group host ((key, members) ∷ groups) =
    if key =ₛ group
    then (key, insert host null members) ∷ groups
    else (key, members) ∷ join_group group host groups

-- `opts['ip']`
abbrev pub ip_of : Value → Value
ip_of (dict opts) = elim (lookup "ip" opts) [ none ↦ null | some ip ↦ ip ]
ip_of _ = null

unfoldable pub with_hosts : String → Fields → Flat → Flat
with_hosts group end f = f
with_hosts group (field host opts hosts) f = with_hosts group hosts (record f {
  hosts =
      insert host
        (dict (
          field "ansible_host" (ip_of opts)
            (field "ip" (ip_of opts) (field "access_ip" (ip_of opts) end))))
        f.hosts;
  groups = join_group group host f.groups;
})

-- The groups of a file, one after the other.
unfoldable pub with_groups : Fields → Flat → Flat
with_groups end f = f
with_groups (field group (dict hosts) groups) f =
    with_groups groups (with_hosts group hosts (record f { groups = require group f.groups }))
with_groups (field group _ groups) f = with_groups groups f

abbrev pub HaveIps : Fields → Type 0
HaveIps end = Unit
HaveIps (field host (dict opts) hosts) =
    ((ip : Value) × (lookup "ip" opts ≡ some ip)) × HaveIps hosts
HaveIps (field host _ hosts) = ⊥

-- A mapping of groups to mappings of hosts with the option `ip`; the groups are not those that the
-- code treats by themselves.
abbrev pub IsLoadable : Fields → Type 0
IsLoadable end = Unit
IsLoadable (field group (dict hosts) groups) =
    ((group =ₛ "all") ≡ false)
    × ((group =ₛ "k8s_cluster") ≡ false)
    × ((group =ₛ "k8s_cluster:children") ≡ false)
    × HaveIps hosts
    × IsLoadable groups
IsLoadable (field group _ groups) = ⊥
