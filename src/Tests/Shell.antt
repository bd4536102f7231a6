-- ===== src/Tests/Shell.antt =====
-- The inventory builder with shell variables.
use factory_pattern_design.Base.{◌≡◌, refl, none, some, [], ◌∷◌, ◌=ₛ◌, if◌then◌else◌}
use factory_pattern_design.Base.Decimal.{decimal, digits_onto}
use factory_pattern_design.Inventory.Builder.{init}
use factory_pattern_design.Inventory.Program.{Environ, program}
use factory_pattern_design.Inventory.Program.Shell.{program-printed}
use factory_pattern_design.Tests.Data.{tight, here, two_hosts}
use factory_pattern_design.Base.{◌≡◌}
use factory_pattern_design.Base.Text.{member, split, contains_char}
use factory_pattern_design.Base.Decimal.{trailing_number}
use factory_pattern_design.Base.Result.{ok}
use factory_pattern_design.Yaml.{Value}
use factory_pattern_design.Inventory.Builder.{Run}
use factory_pattern_design.Inventory.Builder.Repeats.{Writes}
use factory_pattern_design.Inventory.Ranges.{range2ips}
use factory_pattern_design.Inventory.Layout.{render, assigned, fresh}
use factory_pattern_design.Inventory.Hosts.Numbered.{numbered}
use factory_pattern_design.Inventory.Program.FirstRun.{whole_first_run}

abbrev shell : Environ
shell name =
    if name =ₛ "KUBE_CONTROL_HOSTS"
    then some "2"
    else if name =ₛ "SCALE_THRESHOLD"
    then some "4"
    else if name =ₛ "MASSIVE_SCALE_THRESHOLD"
    then some "4"
    else if name =ₛ "HOST_PREFIX"
    then some "node"
    else if name =ₛ "USE_REAL_HOSTNAME"
    then some "no"
    else if name =ₛ "CONFIG_FILE"
    then some "hosts.yaml"
    else none

program-printed_example :
    program shell here ("10.90.0.2" ∷ [])
    ≡ some (init tight here (some "hosts.yaml") ("10.90.0.2" ∷ []))
unfolding decimal digits_onto
program-printed_example =
    program-printed shell tight "hosts.yaml" here ("10.90.0.2" ∷ [])
      (record { kube = refl; scale = refl; massive = refl; prefix = refl; real = refl }) refl

-- The document of a first run over two addresses.
abbrev two_assigned : Value
two_assigned = render (assigned tight two_hosts fresh)

whole_first_run_example :
    ((run : Run Value) × (program shell here ("10.90.0.2" ∷ "10.90.0.3" ∷ []) ≡ some run)
      × Writes "hosts.yaml" two_assigned run)
    × ((run : Run Value) × (program shell
            (record here { read_yaml = λ p. ok two_assigned })
            ("add" ∷ "10.90.0.2" ∷ "10.90.0.3" ∷ [])
          ≡ some run)
        × Writes "hosts.yaml" two_assigned run)
unfolding decimal digits_onto range2ips member split contains_char trailing_number numbered
whole_first_run_example =
    whole_first_run shell tight "hosts.yaml" here (λ p. ok two_assigned) "10.90.0.2"
      ("10.90.0.3" ∷ []) ("10.90.0.2" ∷ "10.90.0.3" ∷ []) "1"
      (record { kube = refl; scale = refl; massive = refl; prefix = refl; real = refl }) refl refl
      refl refl (record { no_dot = refl; no_digits = refl }) refl refl refl refl
      ((("1", refl, refl), refl, refl), ((("1", refl, refl), refl, refl), tt)) (refl, (refl, tt))
      refl
