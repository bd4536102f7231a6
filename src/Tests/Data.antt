-- ===== src/Tests/Data.antt =====
-- The hosts, settings and surroundings that the tests share.
use factory_pattern_design.Base.{String, true, false, none, some, ◌=ₛ◌, if◌then◌else◌}
use factory_pattern_design.Base.Result.{Result, ok, err, os_error}
use factory_pattern_design.Yaml.{Fields, end, field, null}
use factory_pattern_design.Inventory.Settings.{Settings}
use factory_pattern_design.Inventory.Hosts.{host_entry}
use factory_pattern_design.Inventory.Ranges.{Addresses}
use factory_pattern_design.Inventory.Builder.{World}
use factory_pattern_design.Inventory.Layout.{Layout, fresh, render}

abbrev pub two_hosts : Fields
two_hosts =
    field "node1" (host_entry "10.90.0.2" "10.90.0.2")
      (field "node2" (host_entry "10.90.0.3" "10.90.0.3") end)

abbrev pub four_hosts : Fields
four_hosts = field "node1" (host_entry "10.90.0.2" "10.90.0.2") (
    field "node2" (host_entry "10.90.0.3" "10.90.0.3") (
      field "node3" (host_entry "10.90.0.4" "10.90.0.4")
        (field "node4" (host_entry "10.90.0.5" "10.90.0.5") end)))

-- Thresholds that four hosts reach.
abbrev pub tight : Settings
tight = record {
  kube_control_hosts = 2;
  scale_threshold = 4;
  massive_scale_threshold = 4;
  host_prefix = "node";
  use_real_hostname = false;
}

-- A layout with a host that is gone and with one that stays.
abbrev pub old : Layout
old = record fresh {
  all =
      field "node1" (host_entry "10.90.0.2" "10.90.0.2")
        (field "gone" (host_entry "10.90.0.9" "10.90.0.9") end);
  etcd = field "gone" null end;
}

abbrev pub one_host : Layout
one_host = record fresh { all = field "node1" (host_entry "10.90.0.2" "10.90.0.2") end }

-- A library of addresses that knows two.
abbrev pub few : Addresses
few = record {
  parse = λ s. if s =ₛ "10.90.0.4" then some 4 else if s =ₛ "10.90.0.6" then some 6 else none;
  exploded = λ n. "10.90.0.x";
}

abbrev pub no_shell : String → Result String
no_shell cmd = err os_error

-- A file with one host.
abbrev pub here : World
here = record {
  read_yaml = λ p. ok (render one_host);
  read_json = λ p. err os_error;
  check_output = no_shell;
  addresses = few;
  writable = λ p. true;
}
