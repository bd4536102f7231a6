-- ===== src/Inventory/Program/FirstRun.antt =====
-- The whole program over new addresses, and over the file that it has written.
use factory_pattern_design.Base.{
  String, Char, code, true, false, ◌≡◌, refl, some, List, [], ◌∷◌, ◌=ₛ◌, ◌==◌, All,
}
use factory_pattern_design.Base.Text.{first, member}
use factory_pattern_design.Base.Result.{Result, ok}
use factory_pattern_design.Yaml.{Value, end, has_key}
use factory_pattern_design.Yaml.Distinct.{Distinct}
use factory_pattern_design.Yaml.Joined.{joined}
use factory_pattern_design.Inventory.Settings.{Settings, available_commands}
use factory_pattern_design.Inventory.Hosts.{build_hostnames, exists_ip, load_existing}
use factory_pattern_design.Inventory.Hosts.Additions.{IsAddress}
use factory_pattern_design.Inventory.Hosts.Growth.{IsPlain}
use factory_pattern_design.Inventory.Hosts.Numbered.{
  numbered, IsSingle, IsNew, build_hostnames-numbered,
}
use factory_pattern_design.Inventory.Ranges.{range2ips}
use factory_pattern_design.Inventory.Layout.{render, fresh, assigned}
use factory_pattern_design.Inventory.Builder.{World, Run, init}
use factory_pattern_design.Inventory.Builder.Repeats.{Writes, add_after_first_run}
use factory_pattern_design.Inventory.Program.{Environ, program}
use factory_pattern_design.Inventory.Program.Shell.{Prints, program-printed}

All-IsAddress :
    (prefix : String) (hosts : List String) → All (IsSingle prefix) hosts → All IsAddress hosts
All-IsAddress prefix [] h = tt
All-IsAddress prefix (host ∷ hosts) ((a, _, _), h) = (a, All-IsAddress prefix hosts h)

all-IsNew : (hosts : List String) → All (IsNew end) hosts
unfolding has_key exists_ip
all-IsNew [] = tt
all-IsNew (host ∷ hosts) = ((refl, refl), all-IsNew hosts)

fresh_hosts :
    (settings : Settings) (check_output : String → Result String) (expanded : List String)
    → settings.use_real_hostname ≡ false
    → IsPlain settings.host_prefix
    → All (IsSingle settings.host_prefix) expanded
    → Distinct expanded
    → build_hostnames settings check_output (render fresh) expanded false
      ≡ ok (numbered settings.host_prefix 1 expanded)
unfolding load_existing joined
fresh_hosts settings check_output expanded made_up plain h u =
    build_hostnames-numbered settings check_output made_up plain (render fresh) expanded false
      (record { hosts = end; highest_host_id = 0 }) refl h u (all-IsNew expanded)

-- Shell variables print the settings, with made-up names of a prefix that has no dot and does not
-- end in a digit; `CONFIG_FILE` names a file that can be written. The arguments are not empty, the
-- first is not empty, no command, and without a dash in front, and they expand to different
-- addresses without a comma, which do not start with the prefix. Then the program succeeds and has
-- written one document and nothing else: the assignment on the fresh layout of the hosts with the
-- numbers from 1 on, one for each address, in order. Where the file is read back as it was
-- written, the program with `add` in front of the same arguments writes the same document again.
pub whole_first_run :
    (environ : Environ) (settings : Settings) (path : String) (world : World)
    (read_again : String → Result Value) (host : String) (args expanded : List String) (c : Char)
    → Prints environ settings
    → environ "CONFIG_FILE" ≡ some path
    → (path =ₛ "") ≡ false
    → world.writable path ≡ true
    → settings.use_real_hostname ≡ false
    → IsPlain settings.host_prefix
    → member host available_commands ≡ false
    → first host ≡ some c
    → (code c == b'-') ≡ false
    → range2ips world.addresses (host ∷ args) ≡ ok expanded
    → All (IsSingle settings.host_prefix) expanded
    → Distinct expanded
    → read_again path
      ≡ ok (render (assigned settings (numbered settings.host_prefix 1 expanded) fresh))
    → ((run : Run Value) × (program environ world (host ∷ args) ≡ some run)
        × Writes path
            (render (assigned settings (numbered settings.host_prefix 1 expanded) fresh))
            run)
      × ((run : Run Value) × (program environ
              (record world { read_yaml = read_again })
              ("add" ∷ host ∷ args)
            ≡ some run)
          × Writes path
              (render (assigned settings (numbered settings.host_prefix 1 expanded) fresh))
              run)
whole_first_run environ settings path world read_again host args expanded c p config named writable
      made_up plain no_command f d r h u again =
    let (fst_run, snd_run) =
      add_after_first_run settings world path named writable made_up plain read_again host args
        expanded (numbered settings.host_prefix 1 expanded) c no_command f d
        (All-IsAddress settings.host_prefix expanded h) r
        (fresh_hosts settings world.check_output expanded made_up plain h u) again in
    (
      (
        init settings world (some path) (host ∷ args),
        program-printed environ settings path world (host ∷ args) p config,
        fst_run,
      ),
      (
        init settings (record world { read_yaml = read_again }) (some path) ("add" ∷ host ∷ args),
        program-printed environ settings path (record world { read_yaml = read_again })
            ("add" ∷ host ∷ args) p config,
        snd_run,
      ),
    )
