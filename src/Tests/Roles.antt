-- ===== src/Tests/Roles.antt =====
-- Roles of a few hosts.
use factory_pattern_design.Base.{false, ◌≡◌, refl, ◌&&◌, ◌||◌, not, ◌=ₛ◌, arith, take}
use factory_pattern_design.Base.Text.{member}
use factory_pattern_design.Base.Result.{ok}
use factory_pattern_design.Yaml.{keys, has_key}
use factory_pattern_design.Inventory.Settings.{defaults}
use factory_pattern_design.Inventory.Load.{etcd_hosts_count, is_scale, control_hosts, assign_roles}
use factory_pattern_design.Inventory.Layout.{
  Layout, render, fresh, keeps, assigned, with_masters, is_reserved,
}
use factory_pattern_design.Inventory.Layout.Assign.{assign_roles-render}
use factory_pattern_design.Inventory.Layout.Outcome.{
  assign_roles-members, assign_roles_separates_etcd,
}
use factory_pattern_design.Inventory.Layout.Again.{assign_roles_again}
use factory_pattern_design.Tests.Data.{two_hosts, four_hosts, tight, old}

assign_roles-render_example :
    assign_roles tight four_hosts (render old) ≡ ok (render (assigned tight four_hosts old))
assign_roles-render_example = assign_roles-render tight four_hosts old

assign_roles-members_example :
    (a : Layout) × (assign_roles defaults two_hosts (render old) ≡ ok (render a))
    × ((has_key "gone" a.all ≡ (
          member "gone" (keys two_hosts)
          || (has_key "gone" old.all && keeps (keys two_hosts) "gone")))
        × (has_key "gone" a.etcd ≡ (
            member "gone" (take (etcd_hosts_count (keys two_hosts)) (keys two_hosts))
            || (has_key "gone" old.etcd && keeps (keys two_hosts) "gone")))
        × (has_key "gone" a.kube_control_plane ≡ (
            member "gone" (control_hosts defaults (keys two_hosts))
            || (has_key "gone" old.kube_control_plane && keeps (keys two_hosts) "gone")))
        × (has_key "gone" a.kube_node ≡ (
            (member "gone" (keys two_hosts)
              && not (is_reserved defaults (with_masters defaults two_hosts old) "gone"))
            || (has_key "gone" old.kube_node && keeps (keys two_hosts) "gone")))
        × (has_key "gone" a.calico_rr ≡ (
            (is_scale defaults (keys two_hosts)
              && (member "gone" (take (etcd_hosts_count (keys two_hosts)) (keys two_hosts))
                  && not ("gone" =ₛ "hosts")))
            || (has_key "gone" old.calico_rr && keeps (keys two_hosts) "gone"))))
assign_roles-members_example = assign_roles-members defaults two_hosts old "gone"

assign_roles_separates_etcd_example :
    (a : Layout) × (assign_roles tight four_hosts (render fresh) ≡ ok (render a))
    × ((has_key "node1" a.etcd
          && (has_key "node1" a.kube_control_plane || has_key "node1" a.kube_node))
        ≡ false)
unfolding keys member
assign_roles_separates_etcd_example =
    assign_roles_separates_etcd tight four_hosts "node1" (refl, (refl, (refl, (refl, tt))))
      (omega arith)

assign_roles_again_example :
    (a : Layout) × (assign_roles tight four_hosts (render old) ≡ ok (render a))
    × (assign_roles tight four_hosts (render a) ≡ ok (render a))
unfolding keys member
assign_roles_again_example =
    assign_roles_again tight four_hosts old (refl, (refl, (refl, (refl, tt))))
