-- ===== src/Inventory/Builder/Repeats.antt =====
-- Runs over the file that a run before has written.
use factory_pattern_design.Base.{
  String, Char, code, true, false, ◌≡◌, ◌∙◌, ap, some, List, [], ◌∷◌, ◌=ₛ◌, ◌==◌, All,
}
use factory_pattern_design.Base.Text.{first, member}
use factory_pattern_design.Base.Result.{Result, ok}
use factory_pattern_design.Base.Exec.{returned}
use factory_pattern_design.Yaml.{Value, Fields, keys}
use factory_pattern_design.Yaml.Distinct.{Distinct}
use factory_pattern_design.Inventory.Settings.{Settings, available_commands}
use factory_pattern_design.Inventory.Hosts.{build_hostnames}
use factory_pattern_design.Inventory.Hosts.Additions.{IsAddress}
use factory_pattern_design.Inventory.Hosts.Building.{build_hostnames-Distinct}
use factory_pattern_design.Inventory.Hosts.Growth.{IsPlain}
use factory_pattern_design.Inventory.Ranges.{range2ips}
use factory_pattern_design.Inventory.Layout.{Layout, render, fresh, assigned}
use factory_pattern_design.Inventory.Layout.Again.{assigned_again}
use factory_pattern_design.Inventory.Layout.Repeated.{build_hostnames_again, build_hostnames_anew}
use factory_pattern_design.Inventory.Builder.{write, World, Run, init}
use factory_pattern_design.Inventory.Builder.Runs.{first_run, add_run}

-- The run succeeds with the document, and writes it to the file, once and nothing else.
abbrev pub Writes : String → Value → Run Value → Type 0
Writes path v run = run [] ≡ (returned v, write path v ∷ [])

module _ (settings : Settings) (world : World) (path : String) (named : (path =ₛ "") ≡ false)
    (writable : world.writable path ≡ true) (made_up : settings.use_real_hostname ≡ false)
    (plain : IsPlain settings.host_prefix) (read_again : String → Result Value) where
  -- A run of `add` whose hosts are those of the assignment that is in the file.
  settled_run :
      (host : String) (args expanded : List String) (l : Layout) (hosts : Fields) (c : Char)
      → Distinct (keys hosts)
      → read_again path ≡ ok (render (assigned settings hosts l))
      → first host ≡ some c
      → range2ips world.addresses (host ∷ args) ≡ ok expanded
      → build_hostnames settings world.check_output
          (render (assigned settings hosts l))
          expanded
          true
        ≡ ok hosts
      → Writes path (render (assigned settings hosts l)) (
          init settings (record world { read_yaml = read_again }) (some path) ("add" ∷ host ∷ args))
  settled_run host args expanded l hosts c u y f r b =
      add_run settings (record world { read_yaml = read_again }) path named writable host args
        expanded (assigned settings hosts l) hosts c y f r b
      ∙ ap (λ x. (returned (render x), write path (render x) ∷ []))
          (assigned_again settings hosts l u)

  -- With a configuration file that has a name, can be written and holds the document of a layout of
  -- hosts of distinct names, with a prefix that has no dot and does not end in a digit, and without
  -- real host names: a run of `add` whose first host is not empty, and whose arguments expand to
  -- texts that start with a digit and give the hosts `hosts` beside the loaded ones, writes the
  -- assignment of their roles once and nothing else. Where the file is read back as it was written,
  -- the same run once more writes the same document again.
  pub add_run_again :
      (host : String) (args expanded : List String) (l : Layout) (hosts : Fields) (c : Char)
      → Distinct (keys l.all)
      → All IsAddress expanded
      → world.read_yaml path ≡ ok (render l)
      → first host ≡ some c
      → range2ips world.addresses (host ∷ args) ≡ ok expanded
      → build_hostnames settings world.check_output (render l) expanded true ≡ ok hosts
      → read_again path ≡ ok (render (assigned settings hosts l))
      → Writes path
          (render (assigned settings hosts l))
          (init settings world (some path) ("add" ∷ host ∷ args))
        × Writes path (render (assigned settings hosts l)) (
            init settings
              (record world { read_yaml = read_again })
              (some path)
              ("add" ∷ host ∷ args))
  add_run_again host args expanded l hosts c u all y f r b again = (
    add_run settings world path named writable host args expanded l hosts c y f r b,
    settled_run host args expanded l hosts c
        (build_hostnames-Distinct settings world.check_output (render l) expanded true hosts b)
        again f r
        (build_hostnames_again settings world.check_output made_up plain expanded l hosts u all b),
  )

  -- With a configuration file that has a name and can be written, a prefix that has no dot and does
  -- not end in a digit, and without real host names: a run over new hosts, of which the first is
  -- not empty, no command, and without a dash in front, and which expand to texts that start with a
  -- digit and give the hosts `hosts`, writes the assignment of their roles on the fresh layout once and nothing else.
  -- Where the file is read back as it was written, `add` of the same hosts writes the same document
  -- again.
  pub add_after_first_run :
      (host : String) (args expanded : List String) (hosts : Fields) (c : Char)
      → member host available_commands ≡ false
      → first host ≡ some c
      → (code c == b'-') ≡ false
      → All IsAddress expanded
      → range2ips world.addresses (host ∷ args) ≡ ok expanded
      → build_hostnames settings world.check_output (render fresh) expanded false ≡ ok hosts
      → read_again path ≡ ok (render (assigned settings hosts fresh))
      → Writes path
          (render (assigned settings hosts fresh))
          (init settings world (some path) (host ∷ args))
        × Writes path (render (assigned settings hosts fresh)) (
            init settings
              (record world { read_yaml = read_again })
              (some path)
              ("add" ∷ host ∷ args))
  add_after_first_run host args expanded hosts c plain_host f d all r b again = (
    first_run settings world path named writable host args expanded hosts c plain_host f d r b,
    settled_run host args expanded fresh hosts c
        (build_hostnames-Distinct settings world.check_output (render fresh) expanded false hosts b)
        again f r
        (build_hostnames_anew settings world.check_output made_up plain expanded hosts all b),
  )
