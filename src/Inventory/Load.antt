-- ===== src/Inventory/Load.antt =====
-- The parts of the builder's runs between reading and writing: the loops of `load_file`, and the
-- distribution of the roles over the hosts (lines 122 to 135 of inventory.py).
pub mod Flat
pub mod Members
pub mod Served
pub mod Addresses
use factory_pattern_design.Base.{
  ℕ, ◌+◌, String, Bool, List, [], ◌∷◌, leb, if◌then◌else◌, length, take, drop,
}
use factory_pattern_design.Base.Result.{Result, ok, ◌>>=◌}
use factory_pattern_design.Yaml.{Value, str, dict, Fields, end, field, keys, subscript, mapping}
use factory_pattern_design.Inventory.Settings.{Settings, protected_names}
use factory_pattern_design.Inventory.Groups.{
  ensure_required_groups, purge_invalid_hosts, add_host_to_group,
}
use factory_pattern_design.Inventory.Roles.{
  set_kube_control_plane, set_etcd, set_all, set_k8s_cluster, set_calico_rr, set_kube_node,
}

-- The host whose three addresses are the option `ip`.
abbrev pub loaded_entry : Value → Value
loaded_entry ip = dict (field "ansible_host" ip (field "ip" ip (field "access_ip" ip end)))

-- The inner loop of `load_file`.
unfoldable pub load_hosts : String → Fields → Value → Result Value
load_hosts group end yaml_config = ok yaml_config
load_hosts group (field host opts hosts) yaml_config = do
  ip ← subscript "ip" opts
  with_all ← add_host_to_group "all" host (loaded_entry ip) yaml_config
  with_group ← add_host_to_group group host (str "") with_all
  load_hosts group hosts with_group

-- The loop over the groups of one file.
unfoldable pub load_groups : Fields → Value → Result Value
unfolding load_hosts
load_groups end yaml_config = ok yaml_config
load_groups (field group hosts groups) yaml_config = do
  with_group ← ensure_required_groups (group ∷ []) yaml_config
  members ← mapping hosts
  loaded ← load_hosts group members with_group
  load_groups groups loaded

-- `list(hosts.keys())[a:b]`
abbrev pub slice : ℕ → ℕ → List String → List String
slice a b names = drop a (take b names)

abbrev pub etcd_hosts_count : List String → ℕ
etcd_hosts_count names = if leb 3 (length names) then 3 else 1

abbrev pub is_scale : Settings → List String → Bool
is_scale settings names = leb settings.scale_threshold (length names)

-- The hosts that `set_kube_control_plane` is called with.
abbrev pub control_hosts : Settings → List String → List String
control_hosts settings names =
    if is_scale settings names
    then slice (etcd_hosts_count names) (etcd_hosts_count names + settings.kube_control_hosts) names
    else take settings.kube_control_hosts names

unfoldable pub assign_roles : Settings → Fields → Value → Result Value
assign_roles settings hosts yaml_config = do
  let names = keys hosts
  purged ← purge_invalid_hosts names protected_names yaml_config
  with_all ← set_all hosts purged
  with_cluster ← set_k8s_cluster with_all
  with_etcd ← set_etcd (take (etcd_hosts_count names) names) with_cluster
  with_control ← set_kube_control_plane (control_hosts settings names) with_etcd
  with_node ← set_kube_node settings names with_control
  if is_scale settings names
      then set_calico_rr (take (etcd_hosts_count names) names) with_node
      else ok with_node
