-- ===== src/Inventory/Load/Addresses.antt =====
-- Which addresses the hosts of a loaded file have.
use factory_pattern_design.Base.{
  String, Bool, true, false, ◌≡◌, refl, ◌∙◌, Option, none, some, ◌=ₛ◌, if◌then◌else◌,
}
use factory_pattern_design.Yaml.{
  Value, null, bool, num, str, list, dict, Fields, end, field, lookup,
}
use factory_pattern_design.Yaml.Laws.{lookup-insert}
use factory_pattern_design.Inventory.Load.Flat.{
  Flat, require, ip_of, with_hosts, with_groups, HaveIps, IsLoadable,
}

-- The last `ip` that a group gives the host; `before` is what the groups before it give.
unfoldable pub last_in : String → Fields → Option Value → Option Value
last_in host end before = before
last_in host (field other (dict opts) hosts) before =
    last_in host hosts (if other =ₛ host then lookup "ip" opts else before)
last_in host (field other _ hosts) before = last_in host hosts before

-- The last `ip` that the groups of a file give the host.
unfoldable pub last_ip : String → Fields → Option Value → Option Value
last_ip host end before = before
last_ip host (field group (dict hosts) groups) before =
    last_ip host groups (last_in host hosts before)
last_ip host (field group _ groups) before = last_ip host groups before

-- An entry with the address three times.
unfoldable pub entry_of : Option Value → Option Value
entry_of none = none
entry_of (some ip) =
    some (dict (field "ansible_host" ip (field "ip" ip (field "access_ip" ip end))))

step :
    (b : Bool) (opts : Fields) (ip : Value) (there before : Option Value)
    → lookup "ip" opts ≡ some ip
    → there ≡ entry_of before
    → (if b then entry_of (some (ip_of (dict opts))) else there)
      ≡ entry_of (if b then lookup "ip" opts else before)
unfolding entry_of
step true opts ip there before e p = rw (ip_of, e) refl
step false opts ip there before e p = p

with_hosts-lookup :
    (h g : String) (hosts : Fields) (f : Flat) (before : Option Value)
    → HaveIps hosts
    → lookup h f.hosts ≡ entry_of before
    → lookup h (with_hosts g hosts f).hosts ≡ entry_of (last_in h hosts before)
unfolding with_hosts last_in entry_of
with_hosts-lookup h g end f before ok e = e
with_hosts-lookup h g (field host (dict opts) hosts) f before ((ip, there), ok) e =
    with_hosts-lookup h g hosts _ _ ok
      (lookup-insert h host _ f.hosts ∙ step (host =ₛ h) opts ip (lookup h f.hosts) before there e)
with_hosts-lookup h g (field host null hosts) f before ok e = absurd ok
with_hosts-lookup h g (field host (bool b) hosts) f before ok e = absurd ok
with_hosts-lookup h g (field host (num n) hosts) f before ok e = absurd ok
with_hosts-lookup h g (field host (str s) hosts) f before ok e = absurd ok
with_hosts-lookup h g (field host (list vs) hosts) f before ok e = absurd ok

-- The hosts are those before and those of the file, each with the last address it is given.
pub with_groups-lookup :
    (h : String) (groups : Fields) (f : Flat) (before : Option Value)
    → IsLoadable groups
    → lookup h f.hosts ≡ entry_of before
    → lookup h (with_groups groups f).hosts ≡ entry_of (last_ip h groups before)
unfolding with_groups last_ip
with_groups-lookup h end f before ok e = e
with_groups-lookup h (field g (dict hosts) groups) f before (_, _, _, ips, ok) e =
    with_groups-lookup h groups _ _ ok
      (with_hosts-lookup h g hosts (record f { groups = require g f.groups }) before ips e)
with_groups-lookup h (field g null groups) f before ok e = absurd ok
with_groups-lookup h (field g (bool b) groups) f before ok e = absurd ok
with_groups-lookup h (field g (num n) groups) f before ok e = absurd ok
with_groups-lookup h (field g (str s) groups) f before ok e = absurd ok
with_groups-lookup h (field g (list vs) groups) f before ok e = absurd ok
