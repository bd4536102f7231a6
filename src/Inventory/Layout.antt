-- ===== src/Inventory/Layout.antt =====
-- What the builder's documents stand for: the members of each group, without the nesting. The
-- specification of `assign_roles` is stated on it.
pub mod Purge
pub mod Assign
pub mod Members
pub mod Fresh
pub mod Separation
pub mod Outcome
pub mod Sizes
pub mod Same
pub mod Again
pub mod Reloaded
pub mod Repeated
use factory_pattern_design.Base.{
  String, Bool, not, ◌&&◌, ◌||◌, List, [], ◌∷◌, ◌=ₛ◌, leb, if◌then◌else◌, length, take,
}
use factory_pattern_design.Base.Text.{member}
use factory_pattern_design.Yaml.{
  Value, null, dict, Fields, end, field, keys, has_key, insert, update,
}
use factory_pattern_design.Inventory.Settings.{Settings, protected_names}
use factory_pattern_design.Inventory.Load.{etcd_hosts_count, is_scale, control_hosts}

pub record Layout : Type 0 where
  pub all : Fields
  pub kube_control_plane : Fields
  pub kube_node : Fields
  pub etcd : Fields
  pub k8s_cluster : Value
  pub calico_rr : Fields

abbrev pub group_value : Fields → Value
group_value members = dict (field "hosts" (dict members) end)

-- The document of a layout, in the order of `ROLES`.
abbrev pub render : Layout → Value
render l = dict (
    field "all"
      (dict (
        field "hosts" (dict l.all) (
          field "children"
            (dict (
              field "kube_control_plane" (group_value l.kube_control_plane) (
                field "kube_node" (group_value l.kube_node) (
                  field "etcd" (group_value l.etcd) (
                    field "k8s_cluster" l.k8s_cluster
                      (field "calico_rr" (group_value l.calico_rr) end))))))
            end)))
      end)

-- The layout of `ensure_required_groups(ROLES)` on an empty document.
abbrev pub fresh : Layout
fresh = record {
  all = end;
  kube_control_plane = end;
  kube_node = end;
  etcd = end;
  k8s_cluster = group_value end;
  calico_rr = end;
}

abbrev pub cluster : Value
cluster =
    dict
      (field "children" (dict (field "kube_control_plane" null (field "kube_node" null end))) end)

abbrev pub keeps : List String → String → Bool
keeps names host = member host names || member host protected_names

-- The entries of the hosts that are kept.
unfoldable pub restrict : List String → Fields → Fields
restrict names end = end
restrict names (field host opts d) =
    if keeps names host then field host opts (restrict names d) else restrict names d

-- The hosts as members of a group: a member has no options.
unfoldable pub add_members : List String → Fields → Fields
add_members [] d = d
add_members (host ∷ hosts) d = add_members hosts (insert host null d)

-- Whether `set_kube_node` leaves the host out.
abbrev pub is_reserved : Settings → Layout → String → Bool
is_reserved settings l host =
    (leb settings.scale_threshold (length (keys l.all)) && has_key host l.etcd)
    || (leb settings.massive_scale_threshold (length (keys l.all))
        && has_key host l.kube_control_plane)

unfoldable pub select : (String → Bool) → List String → List String
select p [] = []
select p (host ∷ hosts) = if p host then host ∷ select p hosts else select p hosts

abbrev pub purged : List String → Layout → Layout
purged names l = record {
  all = restrict names l.all;
  kube_control_plane = restrict names l.kube_control_plane;
  kube_node = restrict names l.kube_node;
  etcd = restrict names l.etcd;
  k8s_cluster = l.k8s_cluster;
  calico_rr = restrict names l.calico_rr;
}

-- The layout before `set_kube_node`.
unfoldable pub with_masters : Settings → Fields → Layout → Layout
with_masters settings hosts l =
    let names = keys hosts in
    let p = purged names l in
    record p {
      all = update hosts p.all;
      k8s_cluster = cluster;
      etcd = add_members (take (etcd_hosts_count names) names) p.etcd;
      kube_control_plane = add_members (control_hosts settings names) p.kube_control_plane;
    }

-- What `assign_roles` promises. A host that is called `hosts` is never a route reflector.
unfoldable pub assigned : Settings → Fields → Layout → Layout
unfolding with_masters
assigned settings hosts l =
    let names = keys hosts in
    let m = with_masters settings hosts l in
    record m {
      kube_node =
          add_members (select (λ host. not (is_reserved settings m host)) names) m.kube_node;
      calico_rr =
          if is_scale settings names
          then add_members
              (select (λ host. not (host =ₛ "hosts")) (take (etcd_hosts_count names) names))
              m.calico_rr
          else m.calico_rr;
    }
