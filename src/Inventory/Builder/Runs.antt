-- ===== src/Inventory/Builder/Runs.antt =====
-- Whole runs that change an inventory.
use factory_pattern_design.Base.{
  String, Char, code, Bool, true, false, ◌≡◌, refl, some, List, [], ◌∷◌, ◌++◌, ◌=ₛ◌, ◌==◌, arith,
}
use factory_pattern_design.Base.Text.{first, member}
use factory_pattern_design.Base.Result.{ok}
use factory_pattern_design.Base.Exec.{returned}
use factory_pattern_design.Yaml.{Value, Fields, lookup, has, has_key, subscript, at, put, insert}
use factory_pattern_design.Inventory.Settings.{Settings, roles, available_commands}
use factory_pattern_design.Inventory.Hosts.{build_hostnames}
use factory_pattern_design.Inventory.Ranges.{range2ips}
use factory_pattern_design.Inventory.Groups.{ensure_required_groups}
use factory_pattern_design.Inventory.Layout.{Layout, render, fresh, assigned}
use factory_pattern_design.Inventory.Layout.Assign.{assign_roles-render}
use factory_pattern_design.Inventory.Builder.{
  Event, write, World, empty_config, write_config, load_config, change_inventory, run_hosts, init,
}

-- A layout's document has all required groups, and the empty document gets the fresh layout.
pub ensure-render : (l : Layout) → ensure_required_groups roles (render l) ≡ ok (render l)
unfolding ensure_required_groups at has has_key subscript lookup
ensure-render l = refl

pub ensure-empty : ensure_required_groups roles empty_config ≡ ok (render fresh)
unfolding ensure_required_groups at has has_key subscript lookup put insert
ensure-empty = refl

module _ (settings : Settings) (world : World) (path : String) (named : (path =ₛ "") ≡ false)
    (writable : world.writable path ≡ true) where
  pub write_config-named :
      (v : Value) (s : List Event)
      → write_config settings world (some path) v s ≡ (returned tt, s ++ write path v ∷ [])
  unfolding write_config
  write_config-named v s = ground arith

  pub load_config-named :
      (v : Value) (s : List Event)
      → world.read_yaml path ≡ ok v
      → load_config settings world (some path) true s ≡ (returned v, s)
  unfolding load_config
  load_config-named v s y = ground arith

  pub change_inventory-render :
      (args expanded : List String) (load : Bool) (l : Layout) (hosts : Fields) (s : List Event)
      → range2ips world.addresses args ≡ ok expanded
      → build_hostnames settings world.check_output (render l) expanded load ≡ ok hosts
      → change_inventory settings world (some path) args load (render l) s ≡ (
        returned (render (assigned settings hosts l)),
        s ++ write path (render (assigned settings hosts l)) ∷ [],
      )
  unfolding change_inventory
  change_inventory-render args expanded load l hosts s r b =
      rw (r, b, assign_roles-render, write_config-named)

  -- With a configuration file that has a name and can be written: a run whose first argument is not
  -- empty, no command, and without a dash in front, and whose arguments expand to `expanded`, which
  -- gives the hosts `hosts`, writes the assignment of their roles on the fresh layout, once and
  -- nothing else, and returns it, whatever the file held before.
  pub first_run :
      (host : String) (args expanded : List String) (hosts : Fields) (c : Char)
      → member host available_commands ≡ false
      → first host ≡ some c
      → (code c == b'-') ≡ false
      → range2ips world.addresses (host ∷ args) ≡ ok expanded
      → build_hostnames settings world.check_output (render fresh) expanded false ≡ ok hosts
      → init settings world (some path) (host ∷ args) [] ≡ (
        returned (render (assigned settings hosts fresh)),
        write path (render (assigned settings hosts fresh)) ∷ [],
      )
  unfolding init run_hosts load_config
  first_run host args expanded hosts c plain f d r b =
      rw (plain, f, d, ensure-empty) (change_inventory-render _ expanded false fresh hosts [] r b)

  -- With a configuration file that has a name, can be written and holds the document of a layout: a
  -- run of `add` whose first host is not empty, and whose arguments expand to `expanded`, which
  -- gives the hosts `hosts` beside the loaded ones, writes the assignment of their roles on that
  -- layout, once and nothing else, and returns it.
  pub add_run :
      (host : String) (args expanded : List String) (l : Layout) (hosts : Fields) (c : Char)
      → world.read_yaml path ≡ ok (render l)
      → first host ≡ some c
      → range2ips world.addresses (host ∷ args) ≡ ok expanded
      → build_hostnames settings world.check_output (render l) expanded true ≡ ok hosts
      → init settings world (some path) ("add" ∷ host ∷ args) [] ≡ (
        returned (render (assigned settings hosts l)),
        write path (render (assigned settings hosts l)) ∷ [],
      )
  unfolding init run_hosts member
  add_run host args expanded l hosts c y f r b =
      rw (f, load_config-named (render l) [] y, ensure-render)
        (change_inventory-render _ expanded true l hosts [] r b)
