-- ===== src/Terraform/Query.antt =====
-- The query types of terraform.py. A host is the tuple that the parsers yield. `set(hostgroups)` keeps
-- the last of equal names; Python leaves the order open, and only the order of the groups depends
-- on it.
pub mod Laws
use factory_pattern_design.Base.{String, List, [], ◌∷◌, ◌++◌, ◌=ₛ◌, if◌then◌else◌}
use factory_pattern_design.Base.Text.{member}
use factory_pattern_design.Yaml.{dict, Fields, end, insert}

pub record Host : Type 0 where
  pub name : String
  pub attrs : Fields
  pub groups : List String

-- `set(hostgroups)`
unfoldable pub distinct : List String → List String
distinct [] = []
distinct (group ∷ groups) =
    let rest = distinct groups in if member group groups then rest else group ∷ rest

-- `if not group: group = "all"`
unfoldable pub group_name : String → String
group_name group = if group =ₛ "" then "all" else group

-- `groups[group]['hosts'].append(name)`
unfoldable pub add_name :
    String → String → List (String × List String) → List (String × List String)
add_name group name [] = (group, name ∷ []) ∷ []
add_name group name ((key, names) ∷ groups) =
    let rest = add_name group name groups in
    if key =ₛ group then (key, names ++ (name ∷ [])) ∷ groups else (key, names) ∷ rest

-- The loop over the groups of a host.
unfoldable pub add_to_groups :
    String → List String → List (String × List String) → List (String × List String)
unfolding group_name add_name
add_to_groups name [] groups = groups
add_to_groups name (group ∷ hostgroups) groups =
    add_to_groups name hostgroups (add_name (group_name group) name groups)

-- The loop over the hosts: the hosts of each group.
unfoldable pub collect : List Host → List (String × List String) → List (String × List String)
unfolding distinct add_to_groups
collect [] groups = groups
collect (host ∷ hosts) groups =
    collect hosts (add_to_groups host.name (distinct host.groups) groups)

-- `groups[group]['hosts']`
unfoldable pub hosts_in : String → List (String × List String) → List String
hosts_in group [] = []
hosts_in group ((key, names) ∷ groups) = if key =ₛ group then names else hosts_in group groups

-- `groups['_meta'] = …` takes the place of a group of that name.
unfoldable pub without_meta : List (String × List String) → List (String × List String)
without_meta [] = []
without_meta ((key, names) ∷ groups) =
    let rest = without_meta groups in if key =ₛ "_meta" then rest else (key, names) ∷ rest

-- `meta`
unfoldable pub host_vars : List Host → Fields → Fields
host_vars [] meta = meta
host_vars (host ∷ hosts) meta = host_vars hosts (insert host.name (dict host.attrs) meta)

-- The groups, and what `_meta` holds under `hostvars`.
pub record Listing : Type 0 where
  pub groups : List (String × List String)
  pub hostvars : Fields

unfoldable pub query_list : List Host → Listing
unfolding collect without_meta host_vars
query_list hosts = record {
  groups = without_meta (collect hosts []);
  hostvars = host_vars hosts end;
}
