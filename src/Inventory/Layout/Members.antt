-- ===== src/Inventory/Layout/Members.antt =====
-- Who is in which group of an assigned layout.
use factory_pattern_design.Base.{
  String, Bool, true, false, not, ◌&&◌, ◌||◌, ◌≡◌, refl, List, [], ◌∷◌, ◌=ₛ◌, arith, eq_iff, inl,
  inr, Bool-cases, if◌then◌else◌, take,
}
use factory_pattern_design.Base.Text.{member}
use factory_pattern_design.Yaml.{update, Value, Fields, end, field, keys, has_key, insert}
use factory_pattern_design.Yaml.Laws.{has_key-insert}
use factory_pattern_design.Inventory.Settings.{Settings}
use factory_pattern_design.Inventory.Load.{etcd_hosts_count, is_scale, control_hosts}
use factory_pattern_design.Inventory.Layout.{
  Layout, keeps, restrict, add_members, is_reserved, select, with_masters, assigned,
}

pub has_key-restrict :
    (names : List String) (h : String) (d : Fields)
    → has_key h (restrict names d) ≡ (has_key h d && keeps names h)
unfolding has_key restrict
has_key-restrict names h end = refl
has_key-restrict names h (field k v d) = elim (Bool-cases (k =ₛ h)) [
  | inl e ↦ rw (e, (eq_iff k h).0 e) (ground (arith, has_key-restrict names h d, eq_iff h h))
  | inr e ↦ rw e (ground (arith, has_key-restrict names h d, e))
]

pub has_key-add_members :
    (h : String) (hosts : List String) (d : Fields)
    → has_key h (add_members hosts d) ≡ (member h hosts || has_key h d)
unfolding add_members member
has_key-add_members h [] d = refl
has_key-add_members h (host ∷ hosts) d = ground (
  arith,
  has_key-add_members h hosts (insert host Value.null d),
  has_key-insert h host Value.null d,
)

pub has_key-update :
    (h : String) (hosts d : Fields)
    → has_key h (update hosts d) ≡ (member h (keys hosts) || has_key h d)
unfolding update member keys
has_key-update h end d = refl
has_key-update h (field host opts hosts) d =
    ground (arith, has_key-update h hosts (insert host opts d), has_key-insert h host opts d)

pub member-select :
    (p : String → Bool) (h : String) (hosts : List String)
    → member h (select p hosts) ≡ (member h hosts && p h)
unfolding member select
member-select p h [] = refl
member-select p h (host ∷ hosts) = elim (Bool-cases (host =ₛ h)) [
  | inl e ↦ rw (e, (eq_iff host h).0 e) (ground (arith, member-select p h hosts, eq_iff h h))
  | inr e ↦ rw e (ground (arith, member-select p h hosts, e))
]

reflectors_if :
    (scale : Bool) (names selected : List String) (d : Fields) (h : String)
    → has_key h (
        if scale
        then add_members (select (λ x. not (x =ₛ "hosts")) selected) (restrict names d)
        else restrict names d)
      ≡ ((scale && (member h selected && not (h =ₛ "hosts"))) || (has_key h d && keeps names h))
reflectors_if true names selected d h = rw (has_key-add_members, has_key-restrict, member-select)
reflectors_if false names selected d h = rw has_key-restrict

module _ (settings : Settings) (hosts : Fields) (l : Layout) where
  -- After an assignment a host is in a group exactly if the rule of the group names it, or if it
  -- was a member before and is listed or protected.
  pub has_key-assigned :
      (h : String)
      → let names = keys hosts in
        let a = assigned settings hosts l in
        let m = with_masters settings hosts l in
        (has_key h a.all ≡ (member h names || (has_key h l.all && keeps names h)))
        × (has_key h a.etcd ≡ (
            member h (take (etcd_hosts_count names) names) || (has_key h l.etcd && keeps names h)))
        × (has_key h a.kube_control_plane ≡ (
            member h (control_hosts settings names)
            || (has_key h l.kube_control_plane && keeps names h)))
        × (has_key h a.kube_node ≡ (
            (member h names && not (is_reserved settings m h))
            || (has_key h l.kube_node && keeps names h)))
        × (has_key h a.calico_rr ≡ (
            (is_scale settings names
              && (member h (take (etcd_hosts_count names) names) && not (h =ₛ "hosts")))
            || (has_key h l.calico_rr && keeps names h)))
  unfolding assigned
  has_key-assigned h = (
    rw (has_key-update, has_key-restrict),
    rw (has_key-add_members, has_key-restrict),
    rw (has_key-add_members, has_key-restrict),
    rw (has_key-add_members, has_key-restrict, member-select),
    reflectors_if (is_scale settings (keys hosts)) (keys hosts)
        (take (etcd_hosts_count (keys hosts)) (keys hosts)) l.calico_rr h,
  )
