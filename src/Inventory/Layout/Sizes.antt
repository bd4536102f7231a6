-- ===== src/Inventory/Layout/Sizes.antt =====
-- How many hosts the roles of a first run get.
use factory_pattern_design.Base.{
  ℕ, ◌+◌, ◌-◌, min, String, ◌≡◌, List, leb, if◌then◌else◌, length, take, length-take, length-drop,
  arith,
}
use factory_pattern_design.Base.Result.{ok}
use factory_pattern_design.Yaml.{Fields, keys}
use factory_pattern_design.Yaml.Distinct.{Distinct}
use factory_pattern_design.Inventory.Settings.{Settings}
use factory_pattern_design.Inventory.Load.{assign_roles, etcd_hosts_count, control_hosts, slice}
use factory_pattern_design.Inventory.Layout.{Layout, render, fresh}
use factory_pattern_design.Inventory.Layout.Fresh.{keys-as_members}
use factory_pattern_design.Inventory.Layout.Outcome.{assign_roles-fresh}

etcd_size :
    (names : List String)
    → length (take (etcd_hosts_count names) names)
      ≡ (if leb 3 (length names) then 3 else min 1 (length names))
etcd_size names = ground (arith, length-take 3 names, length-take 1 names)

length-slice :
    (a k : ℕ) (names : List String) → length (slice a (a + k) names) ≡ min k (length names - a)
length-slice a k names =
    ground (arith, length-drop a (take (a + k) names), length-take (a + k) names)

control_size :
    (settings : Settings) (names : List String)
    → length (control_hosts settings names)
      ≡ min settings.kube_control_hosts (
          if leb settings.scale_threshold (length names)
          then length names - (if leb 3 (length names) then 3 else 1)
          else length names)
control_size settings names = ground (
  arith,
  length-slice 3 settings.kube_control_hosts names,
  length-slice 1 settings.kube_control_hosts names,
  length-take settings.kube_control_hosts names,
)

-- A first run with hosts of distinct names succeeds. Three of them are etcd hosts if there are that
-- many, and else one, if there is one. The control plane gets `KUBE_CONTROL_HOSTS` hosts, or as many
-- as there are; from the scale threshold on, those that are left behind the etcd hosts.
pub assign_roles_sizes :
    (settings : Settings) (hosts : Fields)
    → Distinct (keys hosts)
    → let n = length (keys hosts) in
      (a : Layout) × (assign_roles settings hosts (render fresh) ≡ ok (render a))
      × (length (keys a.etcd) ≡ (if leb 3 n then 3 else min 1 n))
      × (length (keys a.kube_control_plane)
          ≡ min settings.kube_control_hosts
              (if leb settings.scale_threshold n then n - (if leb 3 n then 3 else 1) else n))
assign_roles_sizes settings hosts u = (
  _,
  assign_roles-fresh settings hosts u,
  rw (keys-as_members (take (etcd_hosts_count (keys hosts)) (keys hosts))) (etcd_size (keys hosts)),
  rw (keys-as_members (control_hosts settings (keys hosts))) (control_size settings (keys hosts)),
)
