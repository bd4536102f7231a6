-- ===== src/Inventory/Layout/Assign.antt =====
-- `assign_roles` on the document of a layout: each setter changes its group alone.
use factory_pattern_design.Base.{
  ℕ, String, Bool, true, false, not, ◌&&◌, ◌≡◌, refl, List, [], ◌∷◌, ◌=ₛ◌, arith, eq_iff, inl, inr,
  Bool-cases, if◌then◌else◌, leb, length, take,
}
use factory_pattern_design.Base.Result.{ok}
use factory_pattern_design.Yaml.{
  update, Value, str, Fields, end, field, keys, has_key, lookup, insert, at, put, subscript, has,
}
use factory_pattern_design.Inventory.Settings.{Settings}
use factory_pattern_design.Inventory.Groups.{add_host_to_group}
use factory_pattern_design.Inventory.Roles.{
  add_hosts, set_etcd, set_kube_control_plane, set_all, set_k8s_cluster, set_calico_host,
  set_calico_rr, left_out, set_kube_node_host, set_kube_node,
}
use factory_pattern_design.Inventory.Load.{assign_roles, etcd_hosts_count, is_scale}
use factory_pattern_design.Inventory.Layout.{
  Layout, render, cluster, add_members, is_reserved, select, purged, with_masters, assigned,
}
use factory_pattern_design.Inventory.Layout.Purge.{purge-render}

add_hosts-etcd :
    (hosts : List String) (l : Layout)
    → add_hosts "etcd" hosts (render l) ≡ ok (render (record l { etcd = add_members hosts l.etcd }))
unfolding add_hosts at put subscript lookup insert add_members
add_hosts-etcd [] l = refl
add_hosts-etcd (host ∷ hosts) l =
    add_hosts-etcd hosts (record l { etcd = insert host Value.null l.etcd })

add_hosts-control :
    (hosts : List String) (l : Layout)
    → add_hosts "kube_control_plane" hosts (render l)
      ≡ ok (render (record l { kube_control_plane = add_members hosts l.kube_control_plane }))
unfolding add_hosts at put subscript lookup insert add_members
add_hosts-control [] l = refl
add_hosts-control (host ∷ hosts) l =
    add_hosts-control hosts
      (record l { kube_control_plane = insert host Value.null l.kube_control_plane })

set_all-render :
    (hosts : Fields) (l : Layout)
    → set_all hosts (render l) ≡ ok (render (record l { all = update hosts l.all }))
unfolding set_all at put subscript lookup insert update
set_all-render end l = refl
set_all-render (field host opts hosts) l =
    set_all-render hosts (record l { all = insert host opts l.all })

set_k8s_cluster-render :
    (l : Layout) → set_k8s_cluster (render l) ≡ ok (render (record l { k8s_cluster = cluster }))
unfolding set_k8s_cluster put lookup insert
set_k8s_cluster-render l = refl

left_out-etcd :
    (threshold : ℕ) (host : String) (l : Layout)
    → left_out threshold "etcd" host (render l)
      ≡ ok (leb threshold (length (keys l.all)) && has_key host l.etcd)
unfolding left_out at subscript lookup has
left_out-etcd threshold host l = ground arith

left_out-control :
    (threshold : ℕ) (host : String) (l : Layout)
    → left_out threshold "kube_control_plane" host (render l)
      ≡ ok (leb threshold (length (keys l.all)) && has_key host l.kube_control_plane)
unfolding left_out at subscript lookup has
left_out-control threshold host l = ground arith

add_to_node :
    (host : String) (l : Layout)
    → add_host_to_group "kube_node" host (str "") (render l)
      ≡ ok (render (record l { kube_node = insert host Value.null l.kube_node }))
unfolding add_host_to_group at put subscript lookup insert
add_to_node host l = refl

add_to_calico :
    (host : String) (l : Layout)
    → add_host_to_group "calico_rr" host (str "") (render l)
      ≡ ok (render (record l { calico_rr = insert host Value.null l.calico_rr }))
unfolding add_host_to_group at put subscript lookup insert
add_to_calico host l = refl

set_kube_node_host-render :
    (settings : Settings) (host : String) (l : Layout)
    → set_kube_node_host settings host (render l)
      ≡ ok (
          if is_reserved settings l host
          then render l
          else render (record l { kube_node = insert host Value.null l.kube_node }))
unfolding set_kube_node_host
set_kube_node_host-render settings host l = ground (
  arith,
  left_out-etcd settings.scale_threshold host l,
  left_out-control settings.massive_scale_threshold host l,
  add_to_node host l,
)

set_kube_node-render :
    (settings : Settings) (hosts : List String) (l : Layout)
    → set_kube_node settings hosts (render l)
      ≡ ok (
          render (record l {
            kube_node =
                add_members (select (λ h. not (is_reserved settings l h)) hosts) l.kube_node;
          }))
unfolding set_kube_node select add_members
set_kube_node-render settings [] l = refl
set_kube_node-render settings (host ∷ hosts) l = elim (Bool-cases (is_reserved settings l host)) [
  | inl e ↦ rw (set_kube_node_host-render, e) (set_kube_node-render settings hosts l)
  | inr e ↦
      rw (set_kube_node_host-render, e)
        (set_kube_node-render settings hosts
          (record l { kube_node = insert host Value.null l.kube_node }))
]

set_calico_host-render :
    (host : String) (l : Layout)
    → set_calico_host host (render l)
      ≡ ok (
          if host =ₛ "hosts"
          then render l
          else render (record l { calico_rr = insert host Value.null l.calico_rr }))
unfolding set_calico_host at subscript lookup has has_key
set_calico_host-render host l =
    ground (arith, add_to_calico host l, eq_iff host "hosts", eq_iff "hosts" host)

-- On the document of any layout, `set_calico_rr` succeeds and makes every given host that is not
-- called `hosts` a route reflector, whatever its other roles are.
pub set_calico_rr-render :
    (hosts : List String) (l : Layout)
    → set_calico_rr hosts (render l)
      ≡ ok (
          render (record l {
            calico_rr = add_members (select (λ h. not (h =ₛ "hosts")) hosts) l.calico_rr;
          }))
unfolding set_calico_rr select add_members
set_calico_rr-render [] l = refl
set_calico_rr-render (host ∷ hosts) l = elim (Bool-cases (host =ₛ "hosts")) [
  | inl e ↦ rw (set_calico_host-render, e) (set_calico_rr-render hosts l)
  | inr e ↦
      rw (set_calico_host-render, e)
        (set_calico_rr-render hosts (record l { calico_rr = insert host Value.null l.calico_rr }))
]

-- The last step: route reflectors are set at scale only.
calico_if :
    (scale : Bool) (hosts : List String) (l : Layout)
    → (if scale then set_calico_rr hosts (render l) else ok (render l))
      ≡ ok (
          render (record l {
            calico_rr =
                if scale
                then add_members (select (λ h. not (h =ₛ "hosts")) hosts) l.calico_rr
                else l.calico_rr;
          }))
calico_if true hosts l = set_calico_rr-render hosts l
calico_if false hosts l = refl

-- On the document of a layout, `assign_roles` succeeds and gives the document of the assigned
-- layout: each group holds its members that are listed or protected, and the hosts of its rule.
pub assign_roles-render :
    (settings : Settings) (hosts : Fields) (l : Layout)
    → assign_roles settings hosts (render l) ≡ ok (render (assigned settings hosts l))
unfolding assign_roles assigned set_etcd set_kube_control_plane
assign_roles-render settings hosts l =
    let names = keys hosts in
    let l₁ = purged names l in
    let l₂ = record l₁ { all = update hosts l₁.all } in
    let l₃ = record l₂ { k8s_cluster = cluster } in
    let l₄ = record l₃ { etcd = add_members (take (etcd_hosts_count names) names) l₃.etcd } in
    let l₅ = with_masters settings hosts l in
    let l₆ = record l₅ {
      kube_node = add_members (select (λ h. not (is_reserved settings l₅ h)) names) l₅.kube_node;
    } in
    rw
      (
        purge-render,
        set_all-render hosts l₁,
        set_k8s_cluster-render l₂,
        add_hosts-etcd _ l₃,
        add_hosts-control _ l₄,
        set_kube_node-render settings names l₅,
      )
      (calico_if (is_scale settings names) (take (etcd_hosts_count names) names) l₆)
