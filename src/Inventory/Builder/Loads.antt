-- ===== src/Inventory/Builder/Loads.antt =====
-- Whole runs of the command `load`.
use factory_pattern_design.Base.{
  String, true, false, ◌≡◌, refl, ◌∙◌, arith, none, some, [], ◌∷◌, ◌=ₛ◌,
}
use factory_pattern_design.Base.Text.{member}
use factory_pattern_design.Base.Result.{ok, exit}
use factory_pattern_design.Base.Exec.{raised}
use factory_pattern_design.Yaml.{dict, Fields, put, lookup, insert, mapping}
use factory_pattern_design.Inventory.Settings.{Settings}
use factory_pattern_design.Inventory.Roles.{set_k8s_cluster}
use factory_pattern_design.Inventory.Layout.{render, fresh}
use factory_pattern_design.Inventory.Load.Flat.{
  Flat, document_of, no_hosts, with_groups, IsLoadable,
}
use factory_pattern_design.Inventory.Load.Members.{load_groups-document}
use factory_pattern_design.Inventory.Load.Served.{
  is_member, is_named, with_groups-is_member, no_hosts-is_member,
}
use factory_pattern_design.Inventory.Load.Addresses.{last_ip, entry_of, with_groups-lookup}
use factory_pattern_design.Inventory.Builder.{
  write, World, load_files, load_file, parse_command, init,
}
use factory_pattern_design.Inventory.Builder.Runs.{ensure-empty, write_config-named}

fresh_cluster : set_k8s_cluster (render fresh) ≡ ok (document_of no_hosts)
unfolding set_k8s_cluster put lookup insert
fresh_cluster = refl

-- With a configuration file that has a name and can be written, and a JSON file that maps groups to
-- hosts, each of which has the option `ip`, none of the groups being one that the code treats by
-- itself: `load` exits with 0 and has written one document, that of an inventory in which the members
-- of each group are the hosts that the file has in it, and no others, and the hosts are those of
-- the file, with three addresses, all the last `ip` that the file gives the host. No other option is
-- kept.
pub load_run :
    (settings : Settings) (world : World) (path file : String) (groups : Fields)
    → (path =ₛ "") ≡ false
    → world.writable path ≡ true
    → world.read_json file ≡ ok (dict groups)
    → IsLoadable groups
    → (f : Flat) × (init settings world (some path) ("load" ∷ file ∷ []) []
        ≡ (raised (exit 0), write path (document_of f) ∷ []))
      × ((group host : String) → is_member group host f.groups ≡ is_named group host groups)
      × ((host : String) → lookup host f.hosts ≡ entry_of (last_ip host groups none))
unfolding init parse_command load_file load_files member mapping lookup entry_of
load_run settings world path file groups named writable json loadable = (
  with_groups groups no_hosts,
  rw
      (
        json,
        ensure-empty,
        fresh_cluster,
        load_groups-document groups no_hosts loadable,
        write_config-named settings world path named writable
            (document_of (with_groups groups no_hosts)) [],
      )
      refl,
  λ group host.
      with_groups-is_member group host groups no_hosts ∙ rw no_hosts-is_member (ground arith),
  λ host. with_groups-lookup host groups no_hosts none loadable refl,
)
