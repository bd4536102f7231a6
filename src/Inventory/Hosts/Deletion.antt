-- ===== src/Inventory/Hosts/Deletion.antt =====
-- What an argument with a dash in front removes.
use factory_pattern_design.Base.{String, ◌≡◌, none, ◌=ₛ◌, if◌then◌else◌}
use factory_pattern_design.Yaml.{Fields, lookup}
use factory_pattern_design.Yaml.Distinct.{Distinct}

-- The entry `j` of the hosts `e`: that of the hosts `d`, but none under the name `h`.
abbrev pub LooksUp : String → String → Fields → Fields → Type 0
LooksUp j h d e = lookup j e ≡ (if h =ₛ j then none else lookup j d)
