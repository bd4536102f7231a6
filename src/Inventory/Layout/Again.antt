-- ===== src/Inventory/Layout/Again.antt =====
-- Assigning the roles of the same hosts once more changes nothing.
use mathlib.Core.Path.{fun_ext}
use factory_pattern_design.Base.{
  String, Bool, true, false, not, ◌≡◌, refl, ◌∙◌, ap, List, ◌=ₛ◌, if◌then◌else◌, take, arith,
}
use factory_pattern_design.Base.Text.{member}
use factory_pattern_design.Base.Result.{ok}
use factory_pattern_design.Yaml.{Fields, keys, update}
use factory_pattern_design.Yaml.Distinct.{Distinct}
use factory_pattern_design.Inventory.Settings.{Settings}
use factory_pattern_design.Inventory.Load.{etcd_hosts_count, is_scale, control_hosts, assign_roles}
use factory_pattern_design.Inventory.Layout.{
  Layout, render, restrict, add_members, is_reserved, select, with_masters, assigned,
}
use factory_pattern_design.Inventory.Layout.Assign.{assign_roles-render}
use factory_pattern_design.Inventory.Layout.Members.{
  has_key-restrict, has_key-update, member-select,
}
use factory_pattern_design.Inventory.Layout.Separation.{member-take, control_hosts-member}
use factory_pattern_design.Inventory.Layout.Same.{
  restrict_same, members_again, lookup-update, update_same,
}

all_again :
    (names : List String) (hosts d : Fields)
    → Distinct (keys hosts)
    → keys hosts ≡ names
    → update hosts (restrict names (update hosts (restrict names d)))
      ≡ update hosts (restrict names d)
all_again names hosts d u same =
    let d' = update hosts (restrict names d) in
    rw
      (restrict_same names d' (λ h e.
        ground
          (arith, has_key-update h hosts (restrict names d), has_key-restrict names h d, same)))
      (update_same hosts d' u (λ k v e. lookup-update k v hosts (restrict names d) u e))

member-selected :
    (p : String → Bool) (h : String) (names : List String)
    → member h (select p names) ≡ true
    → member h names ≡ true
member-selected p h names e = ground (arith, member-select p h names)

-- The members of `calico_rr`, out of those before.
abbrev reflectors : Bool → List String → List String → Fields → Fields
reflectors scale names selected d =
    if scale then add_members selected (restrict names d) else restrict names d

reflectors_again :
    (scale : Bool) (names selected : List String) (d : Fields)
    → ((h : String) → member h selected ≡ true → member h names ≡ true)
    → reflectors scale names selected (reflectors scale names selected d)
      ≡ reflectors scale names selected d
reflectors_again true names selected d chosen = members_again names selected d chosen
reflectors_again false names selected d chosen =
    restrict_same names (restrict names d) (λ h e. ground (arith, has_key-restrict names h d))

same_layout :
    (x y : Layout)
    → x.all ≡ y.all
    → x.kube_control_plane ≡ y.kube_control_plane
    → x.kube_node ≡ y.kube_node
    → x.etcd ≡ y.etcd
    → x.k8s_cluster ≡ y.k8s_cluster
    → x.calico_rr ≡ y.calico_rr
    → x ≡ y
same_layout x y a c n e k r = λ i. record {
  all = a i;
  kube_control_plane = c i;
  kube_node = n i;
  etcd = e i;
  k8s_cluster = k i;
  calico_rr = r i;
}

module _ (settings : Settings) (hosts : Fields) (l : Layout) (u : Distinct (keys hosts)) where
  abbrev names : List String
  names = keys hosts

  first_hosts-chosen :
      (h : String) → member h (take (etcd_hosts_count names) names) ≡ true → member h names ≡ true
  first_hosts-chosen h e = member-take (etcd_hosts_count names) h names e

  masters_again :
      let m = with_masters settings hosts l in
      let m' = with_masters settings hosts (assigned settings hosts l) in
      (m'.all ≡ m.all) × (m'.etcd ≡ m.etcd) × (m'.kube_control_plane ≡ m.kube_control_plane)
  unfolding assigned with_masters
  masters_again = (
    all_again names hosts l.all u refl,
    members_again names (take (etcd_hosts_count names) names) l.etcd first_hosts-chosen,
    members_again names (control_hosts settings names) l.kube_control_plane
        (λ h. control_hosts-member settings h names),
  )

  reserved_again :
      (h : String)
      → is_reserved settings (with_masters settings hosts (assigned settings hosts l)) h
        ≡ is_reserved settings (with_masters settings hosts l) h
  reserved_again h = let (a, e, c) = masters_again in rw (a, e, c) refl

  nodes_again :
      (assigned settings hosts (assigned settings hosts l)).kube_node
      ≡ (assigned settings hosts l).kube_node
  unfolding assigned
  nodes_again =
      ap (λ p. add_members (select p names) (restrict names (assigned settings hosts l).kube_node))
        (fun_ext (λ h. ap not (reserved_again h)))
      ∙ members_again names
          (select (λ host. not (is_reserved settings (with_masters settings hosts l) host)) names)
          l.kube_node (λ h e. member-selected _ h names e)

  pub assigned_again :
      assigned settings hosts (assigned settings hosts l) ≡ assigned settings hosts l
  unfolding assigned
  assigned_again =
      let (a, e, c) = masters_again in
      same_layout _ _ a c nodes_again e refl (
        reflectors_again (is_scale settings names) names
          (select (λ host. not (host =ₛ "hosts")) (take (etcd_hosts_count names) names)) l.calico_rr
          (λ h e. first_hosts-chosen h (member-selected _ h _ e)))

-- Assigning the roles of the hosts, whose names are distinct, on the document of any layout succeeds,
-- and assigning them once more on the result changes nothing.
pub assign_roles_again :
    (settings : Settings) (hosts : Fields) (l : Layout)
    → Distinct (keys hosts)
    → (a : Layout) × (assign_roles settings hosts (render l) ≡ ok (render a))
      × (assign_roles settings hosts (render a) ≡ ok (render a))
assign_roles_again settings hosts l u = (
  assigned settings hosts l,
  assign_roles-render settings hosts l,
  assign_roles-render settings hosts (assigned settings hosts l)
      ∙ ap (λ x. ok (render x)) (assigned_again settings hosts l u),
)
