-- ===== src/Tests/Hosts.antt =====
-- Hosts that are added, deleted and named.
use factory_pattern_design.Base.{
  ◌+◌, ◌-◌, String, true, ◌≡◌, refl, none, some, List, [], ◌∷◌, length, get_elem?, ltb,
  if◌then◌else◌,
}
use factory_pattern_design.Base.Text.{member, contains_char, split}
use factory_pattern_design.Base.Decimal.{decimal, trailing_number}
use factory_pattern_design.Base.Result.{ok}
use factory_pattern_design.Yaml.{
  end, field, keys, has_key, lookup, insert, has, subscript, at, iterate, equals_text,
}
use factory_pattern_design.Inventory.Settings.{defaults}
use factory_pattern_design.Inventory.Hosts.{
  exists_ip, host_by_ip, get_ip_from_opts, get_host_id, Scan, load_existing, host_entry, add_ip,
  change_host, change_hosts, build_hostnames, new_name, read_hosts, read_host, keep_host,
}
use factory_pattern_design.Inventory.Hosts.Growth.{AllServed, loaded_hosts_stay}
use factory_pattern_design.Inventory.Hosts.Numbered.{numbered, build_hostnames-numbered}
use factory_pattern_design.Yaml.Joined.{joined}
use factory_pattern_design.Inventory.Ranges.{ips}
use factory_pattern_design.Inventory.Ranges.Laws.{ips-lem}
use factory_pattern_design.Inventory.Layout.{render}
use factory_pattern_design.Tests.Data.{two_hosts, one_host, few, no_shell}

abbrev start : Scan
start = record {
  all_hosts = two_hosts;
  next_host_id = 3;
  hostname = none;
  ip = none;
  access_ip = none;
}

abbrev added : Scan
added = record {
  all_hosts = field "node1" (host_entry "10.90.0.2" "10.90.0.2") (
      field "node2" (host_entry "10.90.0.3" "10.90.0.3")
        (field "node3" (host_entry "10.90.0.4" "10.90.0.4") end));
  next_host_id = 4;
  hostname = none;
  ip = some "10.90.0.4";
  access_ip = some "10.90.0.4";
}

abbrev without_second : Scan
without_second = record start { all_hosts = one_host.all }

loaded_hosts_stay_example :
    (lookup "node1" two_hosts ≡ some (host_entry "10.90.0.2" "10.90.0.2"))
    × AllServed ("10.90.0.3" ∷ []) two_hosts
unfolding build_hostnames load_existing read_hosts read_host keep_host change_hosts change_host
    add_ip new_name exists_ip get_ip_from_opts host_by_ip get_host_id has has_key insert subscript
    lookup at iterate keys equals_text decimal trailing_number split contains_char
loaded_hosts_stay_example =
    loaded_hosts_stay defaults no_shell refl (record { no_dot = refl; no_digits = refl })
      (render one_host) ("10.90.0.3" ∷ []) true two_hosts
      (record { hosts = one_host.all; highest_host_id = 1 }) "node1"
      (host_entry "10.90.0.2" "10.90.0.2") (("1", refl, refl), tt) refl refl refl

build_hostnames-numbered_example :
    build_hostnames defaults no_shell (render one_host) ("10.90.0.3" ∷ []) true
    ≡ ok (joined one_host.all (numbered "node" (1 + 1) ("10.90.0.3" ∷ [])))
unfolding load_existing read_hosts read_host keep_host get_host_id has_key insert subscript lookup
    at iterate keys exists_ip get_ip_from_opts has equals_text trailing_number split contains_char
    member
build_hostnames-numbered_example =
    build_hostnames-numbered defaults no_shell refl (record { no_dot = refl; no_digits = refl })
      (render one_host) ("10.90.0.3" ∷ []) true
      (record { hosts = one_host.all; highest_host_id = 1 }) refl
      ((("1", refl, refl), refl, refl), tt) (refl, tt) ((refl, refl), tt)

ips-lem_example :
    (xs : List String) × (ips few "10.90.0.4" "10.90.0.6" ≡ some xs)
    × (length xs ≡ 6 + 1 - 4)
    × (get_elem? xs 2 ≡ (if ltb 2 (6 + 1 - 4) then some "10.90.0.x" else none))
ips-lem_example = ips-lem few "10.90.0.4" "10.90.0.6" 4 6 2 refl refl
