-- ===== src/Inventory/Roles.antt =====
-- The methods of inventory.py that assign roles, each loop a function of its own.
use Prim.Native.String.{count}
use factory_pattern_design.Base.{ℕ, String, Bool, false, List, [], ◌∷◌, leb, if◌then◌else◌, length}
use factory_pattern_design.Base.Result.{Result, ok, err, type_error, ◌>>=◌}
use factory_pattern_design.Yaml.{
  Value, null, str, list, dict, count_items, Fields, end, field, keys, has, at, put,
}
use factory_pattern_design.Inventory.Settings.{Settings}
use factory_pattern_design.Inventory.Groups.{hosts_of, add_host_to_group}

-- The loop of `set_kube_control_plane` and `set_etcd`.
unfoldable pub add_hosts : String → List String → Value → Result Value
unfolding add_host_to_group
add_hosts group [] yaml_config = ok yaml_config
add_hosts group (host ∷ hosts) yaml_config =
    add_host_to_group group host (str "") yaml_config >>= add_hosts group hosts

unfoldable pub set_kube_control_plane : List String → Value → Result Value
set_kube_control_plane = add_hosts "kube_control_plane"

unfoldable pub set_etcd : List String → Value → Result Value
set_etcd = add_hosts "etcd"

unfoldable pub set_all : Fields → Value → Result Value
unfolding add_host_to_group
set_all end yaml_config = ok yaml_config
set_all (field host opts hosts) yaml_config =
    add_host_to_group "all" host opts yaml_config >>= set_all hosts

unfoldable pub set_k8s_cluster : Value → Result Value
set_k8s_cluster = put ("all" ∷ "children" ∷ "k8s_cluster" ∷ []) (
    dict
      (field "children" (dict (field "kube_control_plane" null (field "kube_node" null end))) end))

-- One round of `set_calico_rr`. The tests look for the host among the keys of the groups
-- themselves (`hosts`, …), as the source does.
unfoldable pub set_calico_host : String → Value → Result Value
set_calico_host host yaml_config = do
  kube_control_plane ← at ("all" ∷ "children" ∷ "kube_control_plane" ∷ []) yaml_config
  in_control_plane ← has host kube_control_plane
  if in_control_plane then ok yaml_config else do
    kube_node ← at ("all" ∷ "children" ∷ "kube_node" ∷ []) yaml_config
    in_node ← has host kube_node
    if in_node then ok yaml_config else add_host_to_group "calico_rr" host (str "") yaml_config

unfoldable pub set_calico_rr : List String → Value → Result Value
set_calico_rr [] yaml_config = ok yaml_config
set_calico_rr (host ∷ hosts) yaml_config = set_calico_host host yaml_config >>= set_calico_rr hosts

-- `len(v)`
unfoldable pub size : Value → Result ℕ
size (dict d) = ok (length (keys d))
size (list vs) = ok (count_items vs)
size (str s) = ok (count s)
size _ = err type_error

-- One round of `set_kube_node`: at a threshold the hosts of a group are left out.
unfoldable pub left_out : ℕ → String → String → Value → Result Bool
unfolding size
left_out threshold group host yaml_config = do
  hosts ← at ("all" ∷ "hosts" ∷ []) yaml_config
  count ← size hosts
  if leb threshold count
      then (do members ← at (hosts_of group) yaml_config; has host members)
      else ok false

unfoldable pub set_kube_node_host : Settings → String → Value → Result Value
set_kube_node_host settings host yaml_config = do
  is_etcd ← left_out settings.scale_threshold "etcd" host yaml_config
  if is_etcd then ok yaml_config else do
    is_control ← left_out settings.massive_scale_threshold "kube_control_plane" host yaml_config
    if is_control then ok yaml_config else add_host_to_group "kube_node" host (str "") yaml_config

unfoldable pub set_kube_node : Settings → List String → Value → Result Value
set_kube_node settings [] yaml_config = ok yaml_config
set_kube_node settings (host ∷ hosts) yaml_config =
    set_kube_node_host settings host yaml_config >>= set_kube_node settings hosts
