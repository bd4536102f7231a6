-- ===== src/Inventory/Load/Served.antt =====
-- Who is in the groups of a loaded file.
use factory_pattern_design.Base.{
  String, Bool, false, ◌≡◌, refl, ◌∙◌, some, List, [], ◌∷◌, ◌=ₛ◌, ◌&&◌, ◌||◌, if◌then◌else◌, arith,
  eq_iff,
}
use factory_pattern_design.Yaml.{
  null, bool, num, str, list, dict, Fields, end, field, insert, has_key,
}
use factory_pattern_design.Yaml.Laws.{has_key-insert}
use factory_pattern_design.Inventory.Load.Members.{members_of-require, members_of-join}
use factory_pattern_design.Inventory.Load.Flat.{
  Flat, members_of, require, join_group, with_hosts, with_groups, no_hosts,
}

-- The group has the host.
unfoldable pub is_member : String → String → List (String × Fields) → Bool
is_member group host [] = false
is_member group host ((key, members) ∷ groups) =
    if key =ₛ group then has_key host members else is_member group host groups

-- A file has the host in the group.
unfoldable pub is_named : String → String → Fields → Bool
is_named group host end = false
is_named group host (field key (dict hosts) groups) =
    ((key =ₛ group) && has_key host hosts) || is_named group host groups
is_named group host (field key _ groups) = is_named group host groups

is_member-require :
    (g h other : String) (groups : List (String × Fields))
    → is_member g h (require other groups) ≡ is_member g h groups
unfolding is_member require has_key
is_member-require g h other [] = ground arith
is_member-require g h other ((k, n) ∷ groups) = ground (arith, is_member-require g h other groups)

is_member-join :
    (g h other host : String) (groups : List (String × Fields)) (m : Fields)
    → members_of other groups ≡ some m
    → is_member g h (join_group other host groups)
      ≡ (((other =ₛ g) && (host =ₛ h)) || is_member g h groups)
unfolding is_member join_group members_of
is_member-join g h other host [] m e = absurd (cc)
is_member-join g h other host ((k, n) ∷ groups) m e = ground (
  arith,
  eq_iff k other,
  eq_iff k g,
  eq_iff other g,
  has_key-insert h host null n,
  is_member-join g h other host groups m,
)

with_hosts-is_member :
    (g h other : String) (hosts : Fields) (f : Flat) (m : Fields)
    → members_of other f.groups ≡ some m
    → is_member g h (with_hosts other hosts f).groups
      ≡ (((other =ₛ g) && has_key h hosts) || is_member g h f.groups)
unfolding with_hosts has_key
with_hosts-is_member g h other end f m e = ground arith
with_hosts-is_member g h other (field host opts hosts) f m e =
    with_hosts-is_member g h other hosts _ (insert host null m)
      (members_of-join other host f.groups m e)
    ∙ rw (is_member-join g h other host f.groups m e) (ground arith)

-- The members of the groups are those before and those of the file.
pub with_groups-is_member :
    (g h : String) (groups : Fields) (f : Flat)
    → is_member g h (with_groups groups f).groups ≡ (is_named g h groups || is_member g h f.groups)
unfolding with_groups is_named
with_groups-is_member g h end f = refl
with_groups-is_member g h (field other (dict hosts) groups) f =
    let (m, e) = members_of-require other f.groups in
    with_groups-is_member g h groups _
    ∙ rw
        (
          with_hosts-is_member g h other hosts (record f { groups = require other f.groups }) m e,
          is_member-require g h other f.groups,
        )
        (ground arith)
with_groups-is_member g h (field other null groups) f = with_groups-is_member g h groups f
with_groups-is_member g h (field other (bool b) groups) f = with_groups-is_member g h groups f
with_groups-is_member g h (field other (num n) groups) f = with_groups-is_member g h groups f
with_groups-is_member g h (field other (str s) groups) f = with_groups-is_member g h groups f
with_groups-is_member g h (field other (list vs) groups) f = with_groups-is_member g h groups f

pub no_hosts-is_member : (g h : String) → is_member g h no_hosts.groups ≡ false
unfolding is_member has_key
no_hosts-is_member g h = ground arith
