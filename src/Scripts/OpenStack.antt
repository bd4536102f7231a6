-- ===== src/Scripts/OpenStack.antt =====
-- scripts/openstack-cleanup/main.py. The SDK is the record `Cloud`: what it lists, and whether a call
-- succeeds, may depend on the calls before, which are the state. What is printed is left out. A
-- listing is read when it is asked for.
pub mod Keeps
pub mod Due
pub mod Safety
pub mod Sweep
pub mod Calm
use factory_pattern_design.Base.{
  ℕ, String, Bool, not, Option, none, some, List, [], ◌∷◌, ◌++◌, ◌=ₛ◌, if◌then◌else◌, ltb,
}
use factory_pattern_design.Base.Exec.{Outcome, Exec, pure, raise, try_except, each, ◌>>=◌, ◌>>◌}

-- A server, security group, port, subnet, network or router.
pub record Item : Type 0 where
  pub id : String
  pub name : String
  pub created_at : String
  pub is_router_external : Bool

pub data Kind : Type 0 where
  servers security_groups ports subnets networks routers : Kind

-- The calls that change something. The id of the subnet is what is passed on.
pub data Call : Type 0 where
  delete_server : Item → Call
  delete_security_group : Item → Call
  delete_port : Item → Call
  delete_subnet : Item → Call
  delete_network : Item → Call
  remove_interface_from_router : Item → Item → Call

-- The SDK's `ConflictException`, and any other exception.
pub data Problem : Type 0 where
  conflict : Problem
  other : String → Problem

pub record Cloud : Type 0 where
  pub connect : Outcome Problem Unit
  pub list : Kind → List Call → Outcome Problem (List Item)
  pub perform : Call → List Call → Outcome Problem Unit
  pub strptime : String → Option ℕ

-- The arguments, with the time that the program computes from the hours.
pub record Settings : Type 0 where
  pub dry_run : Bool
  pub oldest_allowed : ℕ

abbrev pub Run : Type 0 → Type 0
Run A = Exec Problem (List Call) A

module _ (settings : Settings) (cloud : Cloud) where
  unfoldable pub call : Call → Run Unit
  call c calls = (cloud.perform c calls, calls ++ (c ∷ []))

  unfoldable pub listed : Kind → Run (List Item)
  listed kind calls = (cloud.list kind calls, calls)

  unfoldable pub parsed_time : String → Run ℕ
  parsed_time created_at = elim (cloud.strptime created_at) [
    | none ↦ raise (other "time data does not match format")
    | some t ↦ pure t
  ]

  -- What happens to an item whose time is known.
  unfoldable pub act_if_old : (Item → Call) → Item → ℕ → Run Unit
  unfolding call
  act_if_old fn item created_at =
      if item.name =ₛ "default"
      then pure tt
      else if ltb created_at settings.oldest_allowed
      then (if settings.dry_run then pure tt else call (fn item))
      else pure tt

  unfoldable pub fn_if_old : (Item → Call) → Item → Run Unit
  unfolding parsed_time act_if_old
  fn_if_old fn item = parsed_time item.created_at >>= act_if_old fn item

  unfoldable pub map_if_old : (Item → Call) → List Item → Run Unit
  unfolding fn_if_old
  map_if_old fn items = each (fn_if_old fn) items

  -- `except openstack.exceptions.ConflictException`
  abbrev pub on_conflict : Run Unit → Problem → Run Unit
  on_conflict handler conflict = handler
  on_conflict handler (other msg) = raise (other msg)

  -- `except Exception`, with a message only
  abbrev pub ignored : Problem → Run Unit
  ignored problem = pure tt

  -- The subnet is taken from every router.
  unfoldable pub detach : Item → Run Unit
  unfolding listed call
  detach sn = do
    found ← listed Kind.routers
    each (λ r. try_except (call (remove_interface_from_router r sn)) ignored) found

  unfoldable pub free_subnet : Item → Run Unit
  unfolding fn_if_old detach
  free_subnet sn = try_except (fn_if_old delete_subnet sn) (on_conflict (detach sn))

  unfoldable pub delete_ports : Run Unit
  unfolding listed map_if_old
  delete_ports = listed Kind.ports >>= map_if_old delete_port

  -- What is done where a port cannot be deleted.
  unfoldable pub free_ports : Run Unit
  unfolding listed free_subnet delete_ports
  free_ports = do found ← listed Kind.subnets; each free_subnet found; delete_ports

  unfoldable pub delete_network_if_internal : Item → Run Unit
  unfolding fn_if_old
  delete_network_if_internal n =
      if not n.is_router_external then fn_if_old delete_network n else pure tt

  unfoldable pub main : Run Unit
  unfolding listed map_if_old delete_ports free_ports delete_network_if_internal
  main = do
    (λ calls. (cloud.connect, calls))
    found_servers ← listed Kind.servers
    map_if_old delete_server found_servers
    found_groups ← listed Kind.security_groups
    map_if_old delete_security_group found_groups
    try_except delete_ports (on_conflict free_ports)
    found_subnets ← listed Kind.subnets
    map_if_old delete_subnet found_subnets
    found_networks ← listed Kind.networks
    each delete_network_if_internal found_networks
