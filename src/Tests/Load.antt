-- ===== src/Tests/Load.antt =====
-- A whole run of the command `load`.
use factory_pattern_design.Base.{String, ◌≡◌, refl, none, some, [], ◌∷◌}
use factory_pattern_design.Base.Result.{ok, exit}
use factory_pattern_design.Base.Exec.{raised}
use factory_pattern_design.Yaml.{str, dict, Fields, end, field, lookup}
use factory_pattern_design.Inventory.Settings.{defaults}
use factory_pattern_design.Inventory.Load.Flat.{Flat, document_of}
use factory_pattern_design.Inventory.Load.Served.{is_member, is_named}
use factory_pattern_design.Inventory.Load.Addresses.{last_ip, entry_of}
use factory_pattern_design.Inventory.Builder.{World, write, init}
use factory_pattern_design.Inventory.Builder.Loads.{load_run}
use factory_pattern_design.Tests.Data.{here}

-- A file with two groups, which share a host.
abbrev two_groups : Fields
two_groups = field "etcd" (dict (field "first" (dict (field "ip" (str "10.90.0.2") end)) end)) (
    field "edge"
      (dict (
        field "first" (dict (field "ip" (str "10.90.0.2") end))
          (field "second" (dict (field "ip" (str "10.90.0.3") end)) end)))
      end)

abbrev with_json : World
with_json = record here { read_json = λ file. ok (dict two_groups) }

load_run_example :
    (f : Flat) × (init defaults with_json (some "hosts.yaml") ("load" ∷ "hosts.json" ∷ []) []
      ≡ (raised (exit 0), write "hosts.yaml" (document_of f) ∷ []))
    × ((group host : String) → is_member group host f.groups ≡ is_named group host two_groups)
    × ((host : String) → lookup host f.hosts ≡ entry_of (last_ip host two_groups none))
unfolding lookup
load_run_example = load_run defaults with_json "hosts.yaml" "hosts.json" two_groups refl refl refl (
  refl,
  refl,
  refl,
  ((str "10.90.0.2", refl), tt),
  (refl, refl, refl, ((str "10.90.0.2", refl), ((str "10.90.0.3", refl), tt)), tt),
)
