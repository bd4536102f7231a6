-- ===== src/Tests/Sizes.antt =====
-- The sizes of the roles of four hosts.
use factory_pattern_design.Base.{◌-◌, min, ◌≡◌, refl, leb, if◌then◌else◌, length}
use factory_pattern_design.Base.Text.{member}
use factory_pattern_design.Base.Result.{ok}
use factory_pattern_design.Yaml.{keys}
use factory_pattern_design.Inventory.Load.{assign_roles}
use factory_pattern_design.Inventory.Layout.{Layout, render, fresh}
use factory_pattern_design.Inventory.Layout.Sizes.{assign_roles_sizes}
use factory_pattern_design.Tests.Data.{four_hosts, tight}

assign_roles_sizes_example :
    (a : Layout) × (assign_roles tight four_hosts (render fresh) ≡ ok (render a))
    × (length (keys a.etcd) ≡ (if leb 3 4 then 3 else min 1 4))
    × (length (keys a.kube_control_plane)
        ≡ min tight.kube_control_hosts
            (if leb tight.scale_threshold 4 then 4 - (if leb 3 4 then 3 else 1) else 4))
unfolding keys member
assign_roles_sizes_example = assign_roles_sizes tight four_hosts (refl, (refl, (refl, (refl, tt))))
