-- ===== src/Tests/Runs.antt =====
-- Whole runs of the inventory builder.
use factory_pattern_design.Base.{◌≡◌, refl, some, [], ◌∷◌}
use factory_pattern_design.Base.Text.{member, split, contains_char}
use factory_pattern_design.Base.Decimal.{decimal, trailing_number}
use factory_pattern_design.Yaml.{
  Value, has, has_key, insert, subscript, lookup, at, iterate, keys, equals_text,
}
use factory_pattern_design.Base.Result.{ok, key_error}
use factory_pattern_design.Base.Exec.{returned}
use factory_pattern_design.Inventory.Settings.{defaults}
use factory_pattern_design.Inventory.Hosts.{
  build_hostnames, load_existing, read_hosts, read_host, keep_host, change_hosts, change_host,
  add_ip, new_name, exists_ip, get_ip_from_opts, host_by_ip, get_host_id,
}
use factory_pattern_design.Inventory.Ranges.{range2ips}
use factory_pattern_design.Inventory.Builder.{write, init, parse_command}
use factory_pattern_design.Inventory.Builder.Runs.{first_run, add_run}
use factory_pattern_design.Inventory.Builder.Deletes.{delete_run}
use factory_pattern_design.Inventory.Hosts.Erased.{all_dashed}
use factory_pattern_design.Inventory.Builder.{World}
use factory_pattern_design.Inventory.Layout.{Layout}
use factory_pattern_design.Base.{none, false, ◌&&◌, ◌||◌, if◌then◌else◌}
use factory_pattern_design.Yaml.{field, null, end}
use factory_pattern_design.Inventory.Builder.Repeats.{Writes, add_run_again}
use factory_pattern_design.Inventory.Builder.Commands.{failed_run_writes_nothing}
use factory_pattern_design.Inventory.Builder.Quiet.{writes}
use factory_pattern_design.Inventory.Layout.{render, fresh, assigned}
use factory_pattern_design.Tests.Data.{two_hosts, one_host, here}

first_run_example : init defaults here (some "hosts.yaml") ("10.90.0.2" ∷ "10.90.0.3" ∷ []) [] ≡ (
  returned (render (assigned defaults two_hosts fresh)),
  write "hosts.yaml" (render (assigned defaults two_hosts fresh)) ∷ [],
)
unfolding range2ips member build_hostnames load_existing read_hosts read_host keep_host change_hosts
    change_host add_ip new_name exists_ip get_ip_from_opts host_by_ip get_host_id has has_key insert
    subscript lookup at iterate keys equals_text decimal trailing_number split contains_char
first_run_example =
    first_run defaults here "hosts.yaml" refl refl "10.90.0.2" ("10.90.0.3" ∷ [])
      ("10.90.0.2" ∷ "10.90.0.3" ∷ []) two_hosts "1" refl refl refl refl refl

add_run_example : init defaults here (some "hosts.yaml") ("add" ∷ "10.90.0.3" ∷ []) [] ≡ (
  returned (render (assigned defaults two_hosts one_host)),
  write "hosts.yaml" (render (assigned defaults two_hosts one_host)) ∷ [],
)
unfolding range2ips member build_hostnames load_existing read_hosts read_host keep_host change_hosts
    change_host add_ip new_name exists_ip get_ip_from_opts host_by_ip get_host_id has has_key insert
    subscript lookup at iterate keys equals_text decimal trailing_number split contains_char
add_run_example =
    add_run defaults here "hosts.yaml" refl refl "10.90.0.3" [] ("10.90.0.3" ∷ []) one_host
      two_hosts "1" refl refl refl refl

failed_run_writes_nothing_example :
    writes (init defaults here (some "hosts.yaml") ("print_ips" ∷ []) []).1 ≡ []
unfolding init member parse_command at subscript lookup
failed_run_writes_nothing_example =
    failed_run_writes_nothing defaults here (some "hosts.yaml") "print_ips" [] (key_error "all")
      refl refl

-- The document of a run of `add` with one address over a file with one host.
abbrev two_of_one : Value
two_of_one = render (assigned defaults two_hosts one_host)

add_run_again_example :
    Writes "hosts.yaml" two_of_one
      (init defaults here (some "hosts.yaml") ("add" ∷ "10.90.0.3" ∷ []))
    × Writes "hosts.yaml" two_of_one (
        init defaults
          (record here { read_yaml = λ p. ok two_of_one })
          (some "hosts.yaml")
          ("add" ∷ "10.90.0.3" ∷ []))
unfolding range2ips member build_hostnames load_existing read_hosts read_host keep_host change_hosts
    change_host add_ip new_name exists_ip get_ip_from_opts host_by_ip get_host_id has has_key insert
    subscript lookup at iterate keys equals_text decimal trailing_number split contains_char
add_run_again_example =
    add_run_again defaults here "hosts.yaml" refl refl refl
      (record { no_dot = refl; no_digits = refl }) (λ p. ok two_of_one) "10.90.0.3" []
      ("10.90.0.3" ∷ []) one_host two_hosts "1" (refl, tt) (("1", refl, refl), tt) refl refl refl
      refl refl

-- A file with two etcd hosts.
abbrev two_etcd : Layout
two_etcd = record fresh { all = two_hosts; etcd = field "node1" null (field "node2" null end) }

abbrev there : World
there = record here { read_yaml = λ p. ok (render two_etcd) }

delete_run_example :
    (a : Layout) × Writes "hosts.yaml"
      (render a)
      (init defaults there (some "hosts.yaml") (all_dashed ("node2" ∷ [])))
    × (lookup "node2" a.all
        ≡ (if member "node2" ("node2" ∷ []) then none else lookup "node2" two_etcd.all))
    × ((member "node2" ("node2" ∷ [])
          && (has_key "node2" a.etcd
              || (has_key "node2" a.kube_control_plane
                  || (has_key "node2" a.kube_node || has_key "node2" a.calico_rr))))
        ≡ false)
unfolding member load_existing read_hosts read_host keep_host get_host_id has_key insert subscript
    lookup at iterate keys trailing_number split contains_char
delete_run_example =
    delete_run defaults there "hosts.yaml" "node2" [] two_etcd
      (record { hosts = two_hosts; highest_host_id = 2 }) "node2" refl refl refl refl
      (refl, (refl, tt)) (refl, tt) (refl, tt) refl
