-- ===== src/Inventory/Groups.antt =====
-- The methods of inventory.py that change the groups of `yaml_config`, with the document passed
-- from step to step. An exception ends the run, so what was changed before it is not kept.
use factory_pattern_design.Base.{String, ◌||◌, List, [], ◌∷◌, ◌=ₛ◌, if◌then◌else◌}
use factory_pattern_design.Base.Text.{member}
use factory_pattern_design.Base.Result.{Result, ok, ◌>>=◌}
use factory_pattern_design.Yaml.{
  Value, null, dict, end, field, keys, is_null, truthy, has, at, put, mapping, delete, iterate,
}

abbrev pub empty_all : Value
empty_all =
    dict (field "all" (dict (field "hosts" (dict end) (field "children" (dict end) end))) end)

-- One round of the loop of `ensure_required_groups`. A document without `all` is replaced whole.
unfoldable pub ensure_group : String → Value → Result Value
ensure_group group yaml_config =
    if group =ₛ "all"
    then (do found ← has group yaml_config; if found then ok yaml_config else ok empty_all)
    else do
      children ← at ("all" ∷ "children" ∷ []) yaml_config
      found ← has group children
      if found
          then ok yaml_config
          else put ("all" ∷ "children" ∷ group ∷ []) (dict (field "hosts" (dict end) end))
              yaml_config

unfoldable pub ensure_required_groups : List String → Value → Result Value
unfolding ensure_group
ensure_required_groups [] yaml_config = ok yaml_config
ensure_required_groups (group ∷ groups) yaml_config =
    ensure_group group yaml_config >>= ensure_required_groups groups

abbrev pub hosts_of : String → List String
hosts_of role = "all" ∷ "children" ∷ role ∷ "hosts" ∷ []

-- The inner loops of `purge_invalid_hosts`: `del` of the hosts that are neither listed nor
-- protected, from the mapping at `path`.
unfoldable pub purge_hosts :
    List String → List String → List String → List String → Value → Result Value
purge_hosts path hostnames protected [] yaml_config = ok yaml_config
purge_hosts path hostnames protected (host ∷ hosts) yaml_config =
    (if member host hostnames || member host protected
      then ok yaml_config
      else do found ← at path yaml_config; left ← delete host found; put path left yaml_config)
    >>= purge_hosts path hostnames protected hosts

-- A group whose hosts are missing in the truth value's sense (`None`, `{}`) is left alone.
unfoldable pub purge_at : List String → List String → List String → Value → Result Value
unfolding purge_hosts
purge_at path hostnames protected yaml_config = do
  found ← at path yaml_config
  if truthy found
      then (do
        all_hosts ← mapping found
        purge_hosts path hostnames protected (keys all_hosts) yaml_config)
      else ok yaml_config

unfoldable pub purge_roles : List String → List String → List String → Value → Result Value
purge_roles hostnames protected [] yaml_config = ok yaml_config
purge_roles hostnames protected (role ∷ roles) yaml_config =
    (if role =ₛ "k8s_cluster"
      then ok yaml_config
      else purge_at (hosts_of role) hostnames protected yaml_config)
    >>= purge_roles hostnames protected roles

unfoldable pub purge_invalid_hosts : List String → List String → Value → Result Value
purge_invalid_hosts hostnames protected yaml_config = do
  children ← at ("all" ∷ "children" ∷ []) yaml_config
  roles ← iterate children
  yaml_config' ← purge_roles hostnames protected roles yaml_config
  purge_at ("all" ∷ "hosts" ∷ []) hostnames protected yaml_config'

unfoldable pub add_host_to_group : String → String → Value → Value → Result Value
add_host_to_group group host opts yaml_config =
    if group =ₛ "all"
    then (do
      hosts ← at ("all" ∷ "hosts" ∷ []) yaml_config
      yaml_config' ←
          if is_null hosts
          then put ("all" ∷ "hosts" ∷ []) (dict (field host null end)) yaml_config
          else ok yaml_config
      put ("all" ∷ "hosts" ∷ host ∷ []) opts yaml_config')
    else if group =ₛ "k8s_cluster:children"
    then ok yaml_config
    else do
      hosts ← at (hosts_of group) yaml_config
      if is_null hosts
          then put (hosts_of group) (dict (field host null end)) yaml_config
          else put ("all" ∷ "children" ∷ group ∷ "hosts" ∷ host ∷ []) null yaml_config
