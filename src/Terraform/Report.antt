-- ===== src/Terraform/Report.antt =====
-- The generators of hosts and of floating addresses, and the queries that terraform.py answers. The
-- files, `os.walk` and `random.randint` are the record `World`; each of the two passes over the files
-- has its own random numbers.
pub mod Laws
pub mod Groups
pub mod Keys
pub mod Instance
pub mod Tagged
pub mod States
pub mod Instances
pub mod Addresses
pub mod Pairs
pub mod Membership
pub mod Found
pub mod Listed
pub mod Hostfile
use factory_pattern_design.Base.{
  ℕ, String, ◌<>◌, Bool, true, false, Option, none, some, List, [], ◌∷◌, ◌++◌, ◌=ₛ◌, if◌then◌else◌,
  suc, zero, ◌-◌,
}
use factory_pattern_design.Base.Text.{join}
use factory_pattern_design.Base.Result.{Result, ok, err, key_error, value_error, or_raise, ◌>>=◌}
use factory_pattern_design.Base.Generator.{Generator, finished, failed, yields, first_do, drain}
use factory_pattern_design.Yaml.{
  Value, Fields, end, insert, erase, has_key, has, subscript, equals_text, text,
}
use factory_pattern_design.Terraform.Parse.{split_once}
use factory_pattern_design.Terraform.Resources.{Resource, iterresources, tfstates}
use factory_pattern_design.Terraform.Query.{Host, Listing, query_list}
use factory_pattern_design.Terraform.Attributes.{raw, only_text}
use factory_pattern_design.Terraform.Hosts.{
  openstack_floating_ips, openstack_host, equinix_metal_device,
}

-- `key.split('.', 1)` of a key without a dot cannot be unpacked.
unfoldable pub resource_type : Resource → Result String
resource_type r = do
  (kind, name) ← or_raise (split_once b'.' r.key) (value_error "not enough values to unpack")
  ok kind

unfoldable pub iterips : Generator Resource → Generator (String × Value)
unfolding resource_type openstack_floating_ips
iterips finished = finished
iterips (failed e) = failed e
iterips (yields r resources) = first_do (resource_type r) λ kind.
    elim (kind =ₛ "openstack_networking_floatingip_associate_v2") [
      | true ↦ first_do (openstack_floating_ips r.resource) λ ip. yields ip (iterips resources)
      | false ↦ iterips resources
    ]

module _ (str_of : Value → String) where
  -- `PARSERS`, with `none` for its `KeyError`
  unfoldable pub parser_of : String → Option (Value → Result Host)
  unfolding openstack_host equinix_metal_device
  parser_of resource_type =
      if resource_type =ₛ "equinix_metal_device"
      then some (equinix_metal_device str_of)
      else if resource_type =ₛ "openstack_compute_instance_v2"
      then some (openstack_host str_of)
      else none

  unfoldable pub iterhosts : Generator Resource → Generator Host
  unfolding parser_of resource_type
  iterhosts finished = finished
  iterhosts (failed e) = failed e
  iterhosts (yields r resources) = first_do (resource_type r) λ kind. elim (parser_of kind) [
    | none ↦ iterhosts resources
    | some parser ↦ first_do (parser r.resource) λ host. yields host (iterhosts resources)
  ]

-- `dict(iterips(…))[port_id]`: the last of the addresses of a port
unfoldable pub address_of : String → List (String × Value) → Option Value
address_of port_id [] = none
address_of port_id ((key, ip) ∷ ips) = elim (address_of port_id ips) [
  | some later ↦ some later
  | none ↦ if key =ₛ port_id then some ip else none
]

-- `host[1].update` of a host with a floating address
unfoldable pub with_address : Option Value → Fields → Fields
with_address none attrs = attrs
with_address (some ip) attrs =
    insert "ansible_host" ip
      (insert "public_ipv4" ip (insert "access_ip" ip (insert "access_ip_v4" ip attrs)))

-- `'use_access_ip' in metadata and metadata['use_access_ip'] == "0"`
unfoldable pub hides_access_ip : Value → Result Bool
hides_access_ip metadata = do
  there ← has "use_access_ip" metadata
  if there then (do v ← subscript "use_access_ip" metadata; ok (equals_text "0" v)) else ok false

-- `host[1].pop('access_ip')`
unfoldable pub pop_access_ip : Fields → Result Fields
pop_access_ip attrs =
    if has_key "access_ip" attrs then ok (erase "access_ip" attrs) else err (key_error "access_ip")

-- The body of the loop of `iter_host_ips`.
unfoldable pub update_host : List (String × Value) → Host → Result Host
unfolding with_address hides_access_ip pop_access_ip
update_host ips host = do
  port ← raw "port_id" host.attrs
  port_id ← only_text port
  let attrs = with_address (address_of port_id ips) host.attrs
  metadata ← raw "metadata" attrs
  hidden ← hides_access_ip metadata
  shown ← if hidden then pop_access_ip attrs else ok attrs
  ok (record host { attrs = shown })

unfoldable pub iter_host_ips : Generator Host → List (String × Value) → Generator Host
unfolding update_host
iter_host_ips finished ips = finished
iter_host_ips (failed e) ips = failed e
iter_host_ips (yields host hosts) ips =
    first_do (update_host ips host) λ host'. yields host' (iter_host_ips hosts ips)

-- `query_host`: a generator is read up to the first host of the name.
unfoldable pub query_host : Generator Host → String → Result Fields
query_host finished target = ok end
query_host (failed e) target = err e
query_host (yields host hosts) target = elim (host.name =ₛ target) [
  | true ↦ ok host.attrs
  | false ↦ query_host hosts target
]

spaces : ℕ → String
spaces zero = ""
spaces (suc n) = String.◌∷◌ " " (spaces n)

count_characters : String → ℕ
count_characters String.[] = 0
count_characters (String.◌∷◌ c s) = suc (count_characters s)

-- `s.ljust(width)`
unfoldable pub ljust : ℕ → String → String
unfolding spaces count_characters
ljust width s = s <> spaces (width - count_characters s)

-- The line of each host, as the hosts come.
unfoldable pub host_lines : Generator Host → Result (List String)
unfolding ljust
host_lines finished = ok []
host_lines (failed e) = err e
host_lines (yields host hosts) = do
  address ← raw "ansible_host" host.attrs
  s ← text address
  rest ← host_lines hosts
  ok ((ljust 16 s <> (String.◌∷◌ "\t" host.name)) ∷ rest)

unfoldable pub query_hostfile : Generator Host → Result String
unfolding host_lines
query_hostfile hosts = do
  lines ← host_lines hosts
  ok (
      join (String.◌∷◌ "\n" "") (
        ("## begin hosts generated by terraform.py ##" ∷ [])
        ++ (lines ++ ("## end hosts generated by terraform.py ##" ∷ []))))

-- The modes of the command line; `all_hosts` tells whether the host variables are wanted too.
pub data Mode : Type 0 where
  all_hosts : Bool → Mode
  one_host : String → Mode
  hostfile : Mode

-- What is printed: a document as JSON, or a text. Without host variables a listing has no `_meta`.
pub data Output : Type 0 where
  listing : Bool → Listing → Output
  variables : Fields → Output
  hosts_text : String → Output

pub record World : Type 0 where
  pub str_of : Value → String
  pub join_path : String → String → String
  pub directories : List (String × List String)
  pub read_json : String → Result Value
  pub randint : ℕ → ℕ
  pub randint_ips : ℕ → ℕ

module _ (world : World) where
  unfoldable pub found_resources : (ℕ → ℕ) → Generator Resource
  found_resources randint =
      iterresources world.str_of world.read_json randint
        (tfstates world.join_path world.directories) 0

  -- `dict(iterips(…))`, which is read first
  unfoldable pub floating_ips : Result (List (String × Value))
  unfolding found_resources
  floating_ips = drain (iterips (found_resources world.randint_ips))

  unfoldable pub queried_hosts : List (String × Value) → Generator Host
  unfolding found_resources
  queried_hosts [] = iterhosts world.str_of (found_resources world.randint)
  queried_hosts (ip ∷ ips) =
      iter_host_ips (iterhosts world.str_of (found_resources world.randint)) (ip ∷ ips)

  unfoldable pub answer : Mode → Generator Host → Result Output
  unfolding query_host query_hostfile
  answer (all_hosts meta) hosts = do found ← drain hosts; ok (listing meta (query_list found))
  answer (one_host target) hosts = do attrs ← query_host hosts target; ok (variables attrs)
  answer hostfile hosts = do s ← query_hostfile hosts; ok (hosts_text s)

  unfoldable pub main : Mode → Result Output
  unfolding floating_ips queried_hosts answer
  main mode = do ips ← floating_ips; answer mode (queried_hosts ips)
