-- ===== src/Inventory/Builder.antt =====
-- The constructor of `KubesprayInventory` and its commands. What a run prints and writes is the
-- list of its `Event`s; the debug lines and the warnings that go with an exit are left out.
pub mod Runs
pub mod Repeats
pub mod Deletes
pub mod Loads
pub mod Quiet
pub mod Commands
use factory_pattern_design.Base.{
  String, code, Bool, true, false, ◌||◌, Option, none, some, List, [], ◌∷◌, ◌=ₛ◌, ◌==◌,
  if◌then◌else◌,
}
use factory_pattern_design.Base.Text.{first, join, member}
use factory_pattern_design.Base.Result.{
  Error, Result, ok, err, index_error, value_error, type_error, os_error, exception, exit, bind,
  or_raise,
}
use factory_pattern_design.Base.Exec.{Exec, pure, raise, lift, act, ◌>>=◌, ◌>>◌}
use factory_pattern_design.Yaml.{Value, str, dict, Fields, end, field, keys, at, mapping}
use factory_pattern_design.Inventory.Settings.{Settings, roles, available_commands}
use factory_pattern_design.Inventory.Help.{help_text}
use factory_pattern_design.Inventory.Hosts.{get_ip_from_opts, build_hostnames}
use factory_pattern_design.Inventory.Ranges.{Addresses, range2ips}
use factory_pattern_design.Inventory.Groups.{ensure_required_groups}
use factory_pattern_design.Inventory.Roles.{set_k8s_cluster}
use factory_pattern_design.Inventory.Load.{load_groups, assign_roles}

pub data Event : Type 0 where
  print : String → Event
  dump : Value → Event
  write : String → Value → Event

abbrev pub Run : Type 0 → Type 0
Run A = Exec Error (List Event) A

-- What the program reads: a file through the YAML library and through `json` (`os_error` where it
-- cannot be opened, `value_error` where it is no JSON), the answer of a command, and addresses.
-- `writable` tells whether a file can be opened for writing.
pub record World : Type 0 where
  pub read_yaml : String → Result Value
  pub read_json : String → Result Value
  pub check_output : String → Result String
  pub addresses : Addresses
  pub writable : String → Bool

abbrev pub empty_config : Value
empty_config = dict end

-- The path of the configuration, if its truth value is true.
abbrev pub non_empty : Option String → Option String
non_empty none = none
non_empty (some path) = if path =ₛ "" then none else some path

-- The addresses of the options of all hosts.
unfoldable pub all_ips : Fields → Result (List Value)
all_ips end = ok []
all_ips (field host opts hosts) =
    bind (get_ip_from_opts opts) λ ip. bind (all_ips hosts) λ ips. ok (ip ∷ ips)

-- The items of a `' '.join`, which have to be texts.
unfoldable pub texts : List Value → Result (List String)
texts [] = ok []
texts (str s ∷ vs) = bind (texts vs) λ rest. ok (s ∷ rest)
texts (_ ∷ vs) = err type_error

unfoldable pub print_hostnames : Value → Run Unit
print_hostnames yaml_config = do
  hosts ← lift (at ("all" ∷ "hosts" ∷ []) yaml_config)
  d ← lift (mapping hosts)
  act (print (join " " (keys d)))

unfoldable pub print_ips : Value → Run Unit
unfolding all_ips texts
print_ips yaml_config = do
  hosts ← lift (at ("all" ∷ "hosts" ∷ []) yaml_config)
  d ← lift (mapping hosts)
  ips ← lift (all_ips d)
  words ← lift (texts ips)
  act (print (join " " words))

unfoldable pub print_config : Value → Run Unit
print_config yaml_config = act (dump yaml_config)

unfoldable pub show_help : Run Unit
show_help = act (print help_text)

module _ (settings : Settings) (world : World) (config_file : Option String) where
  -- `write_config`
  unfoldable pub write_config : Value → Run Unit
  write_config yaml_config = elim (non_empty config_file) [
    | none ↦ act (print "WARNING: Unable to save config. Make sure you set CONFIG_FILE env var.")
    | some path ↦ if world.writable path then act (write path yaml_config) else raise os_error
  ]

  -- `except ValueError` around `json.load`
  abbrev not_json : Result Value → Result Value
  not_json (err (value_error m)) = err (exception "Cannot read %s as JSON, or CSV")
  not_json r = r

  -- The loop of `load_file` over the files.
  unfoldable pub load_files : List String → Value → Run Value
  unfolding write_config
  load_files [] yaml_config = pure yaml_config
  load_files (filename ∷ files) yaml_config = do
    data_read ← lift (not_json (world.read_json filename))
    with_groups ← lift (ensure_required_groups roles yaml_config)
    with_cluster ← lift (set_k8s_cluster with_groups)
    groups ← lift (mapping data_read)
    loaded ← lift (load_groups groups with_cluster)
    write_config loaded
    load_files files loaded

  unfoldable pub load_file : List String → Value → Run Value
  unfolding load_files
  load_file [] yaml_config = raise (exception "No input file specified.")
  load_file (file ∷ files) yaml_config = load_files (file ∷ files) yaml_config

  -- `parse_command`; of the document, only `load` makes a new one, and it has written it then.
  unfoldable pub parse_command : String → List String → Value → Run Unit
  unfolding show_help print_config print_ips print_hostnames load_file
  parse_command command args yaml_config =
      if command =ₛ "help"
      then show_help
      else if command =ₛ "print_cfg"
      then print_config yaml_config
      else if command =ₛ "print_ips"
      then print_ips yaml_config
      else if command =ₛ "print_hostnames"
      then print_hostnames yaml_config
      else if command =ₛ "load"
      then (do load_file args yaml_config; pure tt)
      else raise (exception "Invalid command specified.")

  -- `except OSError` around `open` and `yaml.load`
  abbrev not_opened : Result Value → Result Value
  not_opened (err os_error) = err (exit 1)
  not_opened r = r

  unfoldable pub load_config : Bool → Run Value
  load_config false = pure empty_config
  load_config true = elim (non_empty config_file) [
    | none ↦ pure empty_config
    | some path ↦ lift (not_opened (world.read_yaml path))
  ]

  -- The rest of the constructor where there are hosts (lines 119 to 140).
  unfoldable pub change_inventory : List String → Bool → Value → Run Value
  change_inventory changed_hosts load_previous_config yaml_config = do
    expanded ← lift (range2ips world.addresses changed_hosts)
    hosts ←
        lift (build_hostnames settings world.check_output yaml_config expanded load_previous_config)
    assigned ← lift (assign_roles settings hosts yaml_config)
    write_config assigned
    pure assigned

  -- From line 99 on; the last argument is `printHostnames`.
  unfoldable pub run_hosts : List String → Bool → Bool → Run Value
  run_hosts [] load_previous_config prints = do
    yaml_config ← load_config load_previous_config
    (if prints then (do print_hostnames yaml_config; raise (exit 0)) else pure tt)
    lift (ensure_required_groups roles yaml_config)
    show_help
    raise (exit 0)
  run_hosts (host ∷ hosts) load_previous_config prints = do
    c ← lift (or_raise (first host) index_error)
    let load_previous_config' = load_previous_config || (code c == b'-')
    yaml_config ← load_config load_previous_config'
    (if prints then (do print_hostnames yaml_config; raise (exit 0)) else pure tt)
    with_groups ← lift (ensure_required_groups roles yaml_config)
    change_inventory (host ∷ hosts) load_previous_config' with_groups

  -- `KubesprayInventory(changed_hosts, config_file)`
  unfoldable pub init : List String → Run Value
  init [] = run_hosts [] false false
  init (command ∷ args) =
      if member command available_commands
      then if command =ₛ "add"
        then run_hosts args true false
        else if command =ₛ "print_hostnames"
        then run_hosts (command ∷ args) true true
        else (do parse_command command args empty_config; raise (exit 0))
      else run_hosts (command ∷ args) false false
