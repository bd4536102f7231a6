-- ===== src/Inventory/Layout/Outcome.antt =====
-- What `assign_roles` does to the groups of a document, host by host.
use factory_pattern_design.Base.{
  ◌≤◌, ◌<◌, String, Bool, true, false, not, ◌&&◌, ◌||◌, ◌≡◌, refl, ◌∙◌, ap, [], ◌=ₛ◌, if◌then◌else◌,
  length, take,
}
use factory_pattern_design.Base.Text.{member}
use factory_pattern_design.Base.Result.{ok}
use factory_pattern_design.Yaml.{Fields, keys, has_key}
use factory_pattern_design.Yaml.Distinct.{Distinct}
use factory_pattern_design.Inventory.Settings.{Settings}
use factory_pattern_design.Inventory.Load.{etcd_hosts_count, is_scale, control_hosts, assign_roles}
use factory_pattern_design.Inventory.Layout.{
  Layout, render, fresh, cluster, keeps, select, assigned, with_masters, is_reserved,
}
use factory_pattern_design.Inventory.Layout.Assign.{assign_roles-render}
use factory_pattern_design.Inventory.Layout.Members.{has_key-assigned}
use factory_pattern_design.Inventory.Layout.Fresh.{assigned-fresh, is_worker, as_members}
use factory_pattern_design.Inventory.Layout.Separation.{
  listed_has_role, unlisted_has_no_role, etcd_is_apart, control_is_apart, small_is_shared,
}

pub assign_roles-fresh :
    (settings : Settings) (hosts : Fields)
    → Distinct (keys hosts)
    → let names = keys hosts in
      let first_hosts = take (etcd_hosts_count names) names in
      assign_roles settings hosts (render fresh)
      ≡ ok (
          render (record {
            all = hosts;
            kube_control_plane = as_members (control_hosts settings names);
            kube_node = as_members (select (is_worker settings names) names);
            etcd = as_members first_hosts;
            k8s_cluster = cluster;
            calico_rr = as_members (
                if is_scale settings names
                then select (λ h. not (h =ₛ "hosts")) first_hosts
                else []);
          }))
assign_roles-fresh settings hosts u =
    assign_roles-render settings hosts fresh
    ∙ ap (λ l. ok (render l)) (assigned-fresh settings hosts u)

module _ (settings : Settings) (hosts : Fields) (l : Layout) (h : String) where
  -- Assigning roles on the document of any layout succeeds, and a host is in a group afterwards
  -- exactly if the rule of the group names it, or if it was in the group and is listed or
  -- protected. `m` is the layout before the workers are chosen.
  pub assign_roles-members :
      let names = keys hosts in
      let m = with_masters settings hosts l in
      (a : Layout) × (assign_roles settings hosts (render l) ≡ ok (render a))
      × ((has_key h a.all ≡ (member h names || (has_key h l.all && keeps names h)))
          × (has_key h a.etcd ≡ (
              member h (take (etcd_hosts_count names) names)
              || (has_key h l.etcd && keeps names h)))
          × (has_key h a.kube_control_plane ≡ (
              member h (control_hosts settings names)
              || (has_key h l.kube_control_plane && keeps names h)))
          × (has_key h a.kube_node ≡ (
              (member h names && not (is_reserved settings m h))
              || (has_key h l.kube_node && keeps names h)))
          × (has_key h a.calico_rr ≡ (
              (is_scale settings names
                && (member h (take (etcd_hosts_count names) names) && not (h =ₛ "hosts")))
              || (has_key h l.calico_rr && keeps names h))))
  assign_roles-members = (
    assigned settings hosts l,
    assign_roles-render settings hosts l,
    has_key-assigned settings hosts l h,
  )

  -- Every listed host is among the hosts afterwards, and is an etcd, a control plane or a worker
  -- node, whatever layout the assignment starts from.
  pub assign_roles_serves_listed :
      member h (keys hosts) ≡ true
      → (a : Layout) × (assign_roles settings hosts (render l) ≡ ok (render a))
        × ((has_key h a.all ≡ true)
            × ((has_key h a.etcd || (has_key h a.kube_control_plane || has_key h a.kube_node))
                ≡ true))
  assign_roles_serves_listed e = (
    assigned settings hosts l,
    assign_roles-render settings hosts l,
    listed_has_role settings hosts l h e,
  )

  -- A host that is not listed, and whose name is not protected, is afterwards neither among the
  -- hosts nor an etcd, control plane or worker node or a route reflector, whatever layout the
  -- assignment starts from.
  pub assign_roles_drops_unlisted :
      keeps (keys hosts) h ≡ false
      → (a : Layout) × (assign_roles settings hosts (render l) ≡ ok (render a))
        × ((has_key h a.all ≡ false)
            × (has_key h a.etcd ≡ false)
            × (has_key h a.kube_control_plane ≡ false)
            × (has_key h a.kube_node ≡ false)
            × (has_key h a.calico_rr ≡ false))
  assign_roles_drops_unlisted e = (
    assigned settings hosts l,
    assign_roles-render settings hosts l,
    unlisted_has_no_role settings hosts l h e,
  )

excludes : (a b : Bool) → (a ≡ true → b ≡ false) → a && b ≡ false
excludes true b f = f refl
excludes false b f = refl

excludes_both : (a b c : Bool) → (a ≡ true → (b ≡ false) × (c ≡ false)) → a && (b || c) ≡ false
excludes_both true b c f = let (p, q) = f refl in rw (p, q)
excludes_both false b c f = refl

-- In a first run with hosts of distinct names, from the scale threshold on, no etcd host is a
-- control plane host or a worker node: for each host `h`, being an etcd host excludes both.
pub assign_roles_separates_etcd :
    (settings : Settings) (hosts : Fields) (h : String)
    → Distinct (keys hosts)
    → settings.scale_threshold ≤ length (keys hosts)
    → (a : Layout) × (assign_roles settings hosts (render fresh) ≡ ok (render a))
      × ((has_key h a.etcd && (has_key h a.kube_control_plane || has_key h a.kube_node)) ≡ false)
assign_roles_separates_etcd settings hosts h u n = (
  assigned settings hosts fresh,
  assign_roles-render settings hosts fresh,
  excludes_both _ _ _ (etcd_is_apart settings hosts h u n),
)

-- In a first run with hosts of distinct names, from the massive threshold on, no control plane
-- host is a worker node.
pub assign_roles_separates_control :
    (settings : Settings) (hosts : Fields) (h : String)
    → Distinct (keys hosts)
    → settings.massive_scale_threshold ≤ length (keys hosts)
    → (a : Layout) × (assign_roles settings hosts (render fresh) ≡ ok (render a))
      × ((has_key h a.kube_control_plane && has_key h a.kube_node) ≡ false)
assign_roles_separates_control settings hosts h u n = (
  assigned settings hosts fresh,
  assign_roles-render settings hosts fresh,
  excludes _ _ (control_is_apart settings hosts h u n),
)

-- In a first run with hosts of distinct names, below both thresholds, the worker nodes are exactly
-- the listed hosts.
pub assign_roles_shares_small :
    (settings : Settings) (hosts : Fields) (h : String)
    → Distinct (keys hosts)
    → length (keys hosts) < settings.scale_threshold
    → length (keys hosts) < settings.massive_scale_threshold
    → (a : Layout) × (assign_roles settings hosts (render fresh) ≡ ok (render a))
      × (has_key h a.kube_node ≡ member h (keys hosts))
assign_roles_shares_small settings hosts h u n k = (
  assigned settings hosts fresh,
  assign_roles-render settings hosts fresh,
  small_is_shared settings hosts h u n k,
)
