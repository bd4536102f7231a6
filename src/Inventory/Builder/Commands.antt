-- ===== src/Inventory/Builder/Commands.antt =====
-- The commands, and what any run but `load` leaves in the files when it fails.
use factory_pattern_design.Base.{
  String, Bool, true, false, ◌≡◌, Option, none, some, List, [], ◌∷◌, ◌=ₛ◌, inl, inr, Bool-cases,
}
use factory_pattern_design.Base.Result.{Error}
use factory_pattern_design.Base.Exec.{raised, act}
use factory_pattern_design.Yaml.{Value}
use factory_pattern_design.Inventory.Settings.{Settings}
use factory_pattern_design.Inventory.Builder.{
  write, World, empty_config, write_config, load_config, change_inventory, run_hosts, parse_command,
  init, print_hostnames, print_ips, print_config, show_help,
}
use factory_pattern_design.Inventory.Builder.Quiet.{
  writes, IsSilent, IsQuiet, silent_rules, quiet_rules,
}

print_hostnames-IsSilent : (v : Value) → IsSilent (print_hostnames v)
unfolding print_hostnames
print_hostnames-IsSilent v = search silent_rules

print_ips-IsSilent : (v : Value) → IsSilent (print_ips v)
unfolding print_ips
print_ips-IsSilent v = search silent_rules

print_config-IsSilent : (v : Value) → IsSilent (print_config v)
unfolding print_config
print_config-IsSilent v = search silent_rules

show_help-IsSilent : IsSilent show_help
unfolding show_help
show_help-IsSilent = search silent_rules

write-IsQuiet : (path : String) (v : Value) → IsQuiet (act (write path v))
write-IsQuiet path v = record { quiet = λ s e r. cc }

write_config-IsQuiet :
    (settings : Settings) (world : World) (config_file : Option String) (v : Value)
    → IsQuiet (write_config settings world config_file v)
unfolding write_config
write_config-IsQuiet settings world none v = search quiet_rules
write_config-IsQuiet settings world (some path) v = elim (Bool-cases (path =ₛ "")) [
  | inl e ↦ rw (e, write_config) (search quiet_rules)
  | inr e ↦ rw (e, write_config) (search (quiet_rules, write-IsQuiet))
]

load_config-IsSilent :
    (settings : Settings) (world : World) (config_file : Option String) (b : Bool)
    → IsSilent (load_config settings world config_file b)
unfolding load_config
load_config-IsSilent settings world config_file false = search silent_rules
load_config-IsSilent settings world none true = search silent_rules
load_config-IsSilent settings world (some path) true = elim (Bool-cases (path =ₛ "")) [
  | inl e ↦ rw (e, load_config) (search silent_rules)
  | inr e ↦ rw (e, load_config) (search silent_rules)
]

module _ (settings : Settings) (world : World) (config_file : Option String) where
  change_inventory-IsQuiet :
      (args : List String) (load : Bool) (v : Value)
      → IsQuiet (change_inventory settings world config_file args load v)
  unfolding change_inventory
  change_inventory-IsQuiet args load v = search (quiet_rules, write_config-IsQuiet)

  ruleset run_rules = (
    quiet_rules, change_inventory-IsQuiet, load_config-IsSilent, print_hostnames-IsSilent,
    show_help-IsSilent,
  )

  run_hosts-IsQuiet :
      (args : List String) (load prints : Bool)
      → IsQuiet (run_hosts settings world config_file args load prints)
  unfolding run_hosts
  run_hosts-IsQuiet [] load prints = search run_rules depth 9
  run_hosts-IsQuiet (host ∷ args) load prints = search run_rules depth 9

  command-IsSilent :
      (command : String) (args : List String)
      → (command =ₛ "load") ≡ false
      → IsSilent (parse_command settings world config_file command args empty_config)
  unfolding parse_command
  command-IsSilent command args h =
      rw h (search (silent_rules, print_hostnames-IsSilent, print_ips-IsSilent) depth 8)

  init-IsQuiet :
      (command : String) (args : List String)
      → (command =ₛ "load") ≡ false
      → IsQuiet (init settings world config_file (command ∷ args))
  unfolding init
  init-IsQuiet command args h = search (run_rules, run_hosts-IsQuiet, command-IsSilent) depth 8

  -- A run that ends in an exception or an exit has written no file, unless its command is `load`.
  pub failed_run_writes_nothing :
      (command : String) (args : List String) (e : Error)
      → (command =ₛ "load") ≡ false
      → (init settings world config_file (command ∷ args) []).0 ≡ raised e
      → writes (init settings world config_file (command ∷ args) []).1 ≡ []
  failed_run_writes_nothing command args e h r = (init-IsQuiet command args h).quiet [] e r
