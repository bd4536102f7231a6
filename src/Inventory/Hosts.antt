-- ===== src/Inventory/Hosts.antt =====
-- `build_hostnames` of inventory.py with the methods that it calls. `check_output` stands for
-- `subprocess.check_output` and the decoding of its answer. A `Scan` holds the loop's variables:
-- a local that is not assigned yet is `none`, and reading it raises `UnboundLocalError`.
pub mod Naming
pub mod Changes
pub mod Building
pub mod Additions
pub mod Growth
pub mod Numbered
pub mod Deletion
pub mod Erased
use factory_pattern_design.Base.{
  ℕ, ◌+◌, String, ◌<>◌, code, Bool, true, false, Option, none, some, List, [], ◌∷◌, ◌==◌,
  starts_with, ltb, if◌then◌else◌,
}
use factory_pattern_design.Base.Text.{
  first, rest_of, is_digit, is_alpha, split, contains_char, strip_bytes,
}
use factory_pattern_design.Base.Decimal.{decimal, trailing_number}
use factory_pattern_design.Base.Result.{
  Result, ok, err, index_error, value_error, unbound_local, exit, ◌>>=◌, or_raise,
}
use factory_pattern_design.Yaml.{
  Value, str, dict, Fields, end, field, has_key, insert, erase, equals_text, has, subscript, at,
  iterate,
}
use factory_pattern_design.Inventory.Settings.{Settings}

-- `get_ip_from_opts`
unfoldable pub get_ip_from_opts : Value → Result Value
get_ip_from_opts opts = do
  found ← has "ip" opts
  if found then subscript "ip" opts else err (value_error "IP parameter not found in options")

unfoldable pub exists_hostname : Fields → String → Bool
exists_hostname existing_hosts hostname = has_key hostname existing_hosts

-- `exists_ip`: the options of the hosts before the match are read, those behind it are not
unfoldable pub exists_ip : Fields → String → Result Bool
exists_ip end ip = ok false
exists_ip (field host opts hosts) ip = do
  host_ip ← get_ip_from_opts opts
  if equals_text ip host_ip then ok true else exists_ip hosts ip

-- The name of the first host with the address.
unfoldable pub host_by_ip : Fields → String → Result String
host_by_ip end ip = err (value_error ("Unable to find host by IP: " <> ip))
host_by_ip (field hostname opts hosts) ip = do
  host_ip ← get_ip_from_opts opts
  if equals_text ip host_ip then ok hostname else host_by_ip hosts ip

unfoldable pub delete_host_by_ip : Fields → String → Result Fields
unfolding host_by_ip
delete_host_by_ip existing_hosts ip = do
  hostname ← host_by_ip existing_hosts ip
  ok (erase hostname existing_hosts)

abbrev pub head_of : List String → String
head_of [] = ""
head_of (w ∷ ws) = w

-- Names of hosts have no line breaks, so `$` is the end.
unfoldable pub get_host_id : String → Result ℕ
get_host_id host =
    or_raise (trailing_number none (head_of (split b'.' host)))
      (value_error "Host name must end in an integer")

-- What the loop over the loaded hosts has read: the hosts, and the highest id.
pub record Existing : Type 0 where
  pub hosts : Fields
  pub highest_host_id : ℕ

-- The rest of a round, behind the options of the host: the last arguments are the test on its name
-- and the id in it, which is read only if the test holds.
unfoldable pub keep_host : String → Value → Existing → Bool → Result ℕ → Result Existing
keep_host host host_config found is_generated host_id =
    if is_generated
    then (do
      id ← host_id
      ok (record {
        hosts = insert host host_config found.hosts;
        highest_host_id = if ltb found.highest_host_id id then id else found.highest_host_id;
      }))
    else ok (record found { hosts = insert host host_config found.hosts })

-- One round of the loop over the loaded hosts.
unfoldable pub read_host : Settings → Value → String → Existing → Result Existing
read_host settings yaml_config host found = do
  host_config ← at ("all" ∷ "hosts" ∷ host ∷ []) yaml_config
  keep_host host host_config found (starts_with host settings.host_prefix) (get_host_id host)

unfoldable pub read_hosts : Settings → Value → List String → Existing → Result Existing
read_hosts settings yaml_config [] found = ok found
read_hosts settings yaml_config (host ∷ hosts) found =
    read_host settings yaml_config host found >>= read_hosts settings yaml_config hosts

abbrev pub or_exit : {A : Type 0} → Result A → Result A
or_exit (ok a) = ok a
or_exit (err e) = err (exit 1)

unfoldable pub load_existing : Settings → Value → Bool → Result Existing
load_existing settings yaml_config false = ok (record { hosts = end; highest_host_id = 0 })
load_existing settings yaml_config true = or_exit (do
  hosts ← at ("all" ∷ "hosts" ∷ []) yaml_config
  names ← iterate hosts
  read_hosts settings yaml_config names (record { hosts = end; highest_host_id = 0 }))

pub record Scan : Type 0 where
  pub all_hosts : Fields
  pub next_host_id : ℕ
  pub hostname : Option String
  pub ip : Option String
  pub access_ip : Option String

abbrev pub host_entry : String → String → Value
host_entry ip access_ip = dict (
    field "ansible_host" (str access_ip)
      (field "ip" (str ip) (field "access_ip" (str access_ip) end)))

-- `a, b = words`
abbrev pub unpack2 : List String → Result (String × String)
unpack2 (a ∷ b ∷ []) = ok (a, b)
unpack2 _ = err (value_error "unpack")

-- `-name` or `-ip`
unfoldable pub delete_host : String → Scan → Result Scan
unfolding exists_hostname delete_host_by_ip
delete_host realhost s =
    if exists_hostname s.all_hosts realhost
    then ok (record s { all_hosts = erase realhost s.all_hosts })
    else do
      found ← exists_ip s.all_hosts realhost
      if found
          then (do
            hosts ← delete_host_by_ip s.all_hosts realhost
            ok (record s { all_hosts = hosts }))
          else ok s

-- The address and the access address of an argument that starts with a digit.
abbrev pub addresses : String → Result (String × String)
addresses host = if contains_char b',' host then unpack2 (split b',' host) else ok (host, host)

module _ (settings : Settings) (check_output : String → Result String) where
  -- The name of a new host, and the next id.
  unfoldable pub new_name : ℕ → String → Result (String × ℕ)
  new_name next_host_id access_ip =
      if settings.use_real_hostname
      then (do
        answer ← check_output ("ssh -oStrictHostKeyChecking=no " <> (access_ip <> " 'hostname -s'"))
        ok (strip_bytes answer, next_host_id))
      else ok (settings.host_prefix <> decimal next_host_id, next_host_id + 1)

  -- `ip` or `ip,access_ip`
  unfoldable pub add_ip : String → Scan → Result Scan
  unfolding exists_hostname
  add_ip host s = do
    (ip, access_ip) ← addresses host
    let s' = record s { ip = some ip; access_ip = some access_ip }
    if exists_hostname s.all_hosts host then ok s' else do
      found ← exists_ip s.all_hosts ip
      if found then ok s' else do
        (next_host, next_host_id) ← new_name s.next_host_id access_ip
        ok (record s' {
          all_hosts = insert next_host (host_entry ip access_ip) s.all_hosts;
          next_host_id = next_host_id;
        })

-- The assignments in front of the tests: three parts, or else two.
unfoldable pub named_parts : List String → Scan → Result Scan
named_parts (hostname ∷ ip ∷ access_ip ∷ []) s =
    ok (record s { hostname = some hostname; ip = some ip; access_ip = some access_ip })
named_parts words s = do
  (hostname, ip) ← unpack2 words
  ok (record s { hostname = some hostname; ip = some ip; access_ip = some ip })

-- `hostname,ip` or `hostname,ip,access_ip`
unfoldable pub add_named : String → Scan → Result Scan
unfolding exists_hostname named_parts
add_named host s = do
  s' ← if contains_char b',' host then named_parts (split b',' host) s else ok s
  if exists_hostname s'.all_hosts host then ok s' else do
    ip ← or_raise s'.ip (unbound_local "ip")
    found ← exists_ip s'.all_hosts ip
    if found then ok s' else do
      access_ip ← or_raise s'.access_ip (unbound_local "access_ip")
      hostname ← or_raise s'.hostname (unbound_local "hostname")
      ok (record s' { all_hosts = insert hostname (host_entry ip access_ip) s'.all_hosts })

module _ (settings : Settings) (check_output : String → Result String) where
  -- One round of the loop over the arguments.
  unfoldable pub change_host : String → Scan → Result Scan
  change_host host s = do
    c ← or_raise (first host) index_error
    if code c == b'-'
        then delete_host (rest_of host) s
        else if is_digit c
        then add_ip settings check_output host s
        else if is_alpha c
        then add_named host s
        else ok s

  unfoldable pub change_hosts : List String → Scan → Result Scan
  change_hosts [] s = ok s
  change_hosts (host ∷ hosts) s = change_host host s >>= change_hosts hosts

  unfoldable pub build_hostnames : Value → List String → Bool → Result Fields
  build_hostnames yaml_config changed_hosts load_previous_config = do
    existing ← load_existing settings yaml_config load_previous_config
    s ← change_hosts changed_hosts (record {
      all_hosts = existing.hosts;
      next_host_id = existing.highest_host_id + 1;
      hostname = none;
      ip = none;
      access_ip = none;
    })
    ok s.all_hosts
