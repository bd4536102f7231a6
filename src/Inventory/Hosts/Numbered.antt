-- ===== src/Inventory/Hosts/Numbered.antt =====
-- A run of `build_hostnames` whose arguments are new addresses without a comma.
use text.Mathlib.TextPositions.{starts_with-append}
use factory_pattern_design.Base.{
  ℕ, ◌+◌, String, ◌<>◌, Bool, false, ◌≡◌, refl, sym, ◌∙◌, ap, none, some, List, [], ◌∷◌, ◌=ₛ◌,
  arith, starts_with, eq_iff, inl, inr, Bool-cases, All,
}
use factory_pattern_design.Base.Text.{contains_char, member}
use factory_pattern_design.Base.Decimal.{decimal}
use factory_pattern_design.Base.Result.{Result, ok, bind-eq-ok}
use factory_pattern_design.Yaml.{Value, Fields, end, field, has_key, insert, equals_text}
use factory_pattern_design.Yaml.Laws.{has_key-insert}
use factory_pattern_design.Yaml.Distinct.{Distinct}
use factory_pattern_design.Yaml.Joined.{joined, joined-end, joined_assoc, insert-new}
use factory_pattern_design.Inventory.Settings.{Settings}
use factory_pattern_design.Inventory.Hosts.{
  get_ip_from_opts, exists_ip, host_entry, Scan, new_name, add_ip, change_host, change_hosts,
  Existing, load_existing, build_hostnames,
}
use factory_pattern_design.Inventory.Hosts.Naming.{
  IdsBelow, insert-IdsBelow, name_is_free, get_host_id-decimal, load_existing-IdsBelow,
}
use factory_pattern_design.Inventory.Hosts.Additions.{IsAddress}
use factory_pattern_design.Inventory.Hosts.Changes.{get_ip_from_opts-host_entry}
use factory_pattern_design.Inventory.Hosts.Growth.{IsPlain}

-- New hosts for addresses: the names count up from `next`.
unfoldable pub numbered : String → ℕ → List String → Fields
numbered prefix next [] = end
numbered prefix next (ip ∷ ips) =
    field (prefix <> decimal next) (host_entry ip ip) (numbered prefix (next + 1) ips)

-- The argument is one address, which cannot be mistaken for a made-up name.
abbrev pub IsSingle : String → String → Type 0
IsSingle prefix host =
    IsAddress host × (contains_char b',' host ≡ false) × (starts_with host prefix ≡ false)

-- No host has the name or the address.
abbrev pub IsNew : Fields → String → Type 0
IsNew d host = (has_key host d ≡ false) × (exists_ip d host ≡ ok false)

exists_ip-insert_other :
    (name own ip : String) (d : Fields)
    → (own =ₛ ip) ≡ false
    → exists_ip d ip ≡ ok false
    → exists_ip (insert name (host_entry own own) d) ip ≡ ok false
unfolding exists_ip insert
exists_ip-insert_other name own ip end other e =
    rw get_ip_from_opts-host_entry (unfold equals_text in rw other refl)
exists_ip-insert_other name own ip (field host v d) other e =
    let (theirs, p, q) = bind-eq-ok (get_ip_from_opts v) _ e in
    elim (Bool-cases (equals_text ip theirs)) [
      | inl t ↦ cc (q, t)
      | inr f ↦
          let rest : exists_ip d ip ≡ ok false = rw f at q in
          elim (Bool-cases (host =ₛ name)) [
            | inl t ↦ rw (t, get_ip_from_opts-host_entry) (unfold equals_text in rw other rest)
            | inr g ↦ rw (g, p, f) (exists_ip-insert_other name own ip d other rest)
          ]
    ]

-- Writing a made-up host leaves the arguments new that differ from its address.
IsNew-insert :
    (prefix own host : String) (n : ℕ) (d : Fields)
    → starts_with host prefix ≡ false
    → (own =ₛ host) ≡ false
    → IsNew d host
    → IsNew (insert (prefix <> decimal n) (host_entry own own) d) host
IsNew-insert prefix own host n d apart other (no_name, no_ip) =
    let differs : (prefix <> decimal n =ₛ host) ≡ false =
      elim (Bool-cases (prefix <> decimal n =ₛ host)) [
        | inl t ↦
            let same = (eq_iff (prefix <> decimal n) host).0 t in
            absurd (cc (apart, starts_with-append prefix (decimal n), same))
        | inr f ↦ f
      ] in
    (
      has_key-insert host (prefix <> decimal n) (host_entry own own) d ∙ rw differs no_name,
      exists_ip-insert_other (prefix <> decimal n) own host d other no_ip,
    )

All-IsNew-insert :
    (prefix own : String) (hosts : List String) (n : ℕ) (d : Fields)
    → All (IsSingle prefix) hosts
    → member own hosts ≡ false
    → All (IsNew d) hosts
    → All (IsNew (insert (prefix <> decimal n) (host_entry own own) d)) hosts
unfolding member
All-IsNew-insert prefix own [] n d h m g = tt
All-IsNew-insert prefix own (host ∷ hosts) n d ((_, _, apart), h) m (new, g) = (
  IsNew-insert prefix own host n d apart (ground (arith, eq_iff own host, eq_iff host own)) new,
  All-IsNew-insert prefix own hosts n d h (ground arith) g,
)

module _ (settings : Settings) (check_output : String → Result String)
    (made_up : settings.use_real_hostname ≡ false) (plain : IsPlain settings.host_prefix) where
  -- The state after a new address.
  abbrev written : String → Scan → Scan
  written host s = record s {
    ip = some host;
    access_ip = some host;
    all_hosts =
        insert (settings.host_prefix <> decimal s.next_host_id) (host_entry host host) s.all_hosts;
    next_host_id = s.next_host_id + 1;
  }

  change_host-new :
      (host : String) (s : Scan)
      → IsSingle settings.host_prefix host
      → IsNew s.all_hosts host
      → change_host settings check_output host s ≡ ok (written host s)
  unfolding change_host add_ip new_name
  change_host-new host s ((c, p, q), no_comma, _) (no_name, no_ip) =
      ground (arith, p, q, no_comma, no_name, no_ip, made_up)

  change_hosts-new :
      (hosts : List String) (s : Scan)
      → IdsBelow settings.host_prefix s.next_host_id s.all_hosts
      → All (IsSingle settings.host_prefix) hosts
      → Distinct hosts
      → All (IsNew s.all_hosts) hosts
      → (s' : Scan) × (change_hosts settings check_output hosts s ≡ ok s')
        × (s'.all_hosts ≡ joined s.all_hosts (numbered settings.host_prefix s.next_host_id hosts))
  unfolding change_hosts numbered joined
  change_hosts-new [] s below h u g = (s, refl, sym (joined-end s.all_hosts))
  change_hosts-new (host ∷ hosts) s below (one, h) (m, u) (new, g) =
      let free = name_is_free settings.host_prefix s.next_host_id s.all_hosts plain.no_dot below in
      let (s', p, q) =
        change_hosts-new hosts (written host s)
          (insert-IdsBelow settings.host_prefix s.next_host_id (s.next_host_id + 1) _ _ s.all_hosts
            below (omega arith)
            (λ _. (
              s.next_host_id,
              get_host_id-decimal settings.host_prefix plain.no_dot plain.no_digits s.next_host_id,
              omega arith,
            )))
          h u (All-IsNew-insert settings.host_prefix host hosts s.next_host_id s.all_hosts h m g) in
      let rest = numbered settings.host_prefix (s.next_host_id + 1) hosts in
      (
        s',
        rw (change_host-new host s one new) p,
        q
            ∙ ap (λ d. joined d rest)
                (insert-new (settings.host_prefix <> decimal s.next_host_id) (host_entry host host)
                  s.all_hosts free)
            ∙ joined_assoc s.all_hosts _ rest,
      )

  -- With a prefix that has no dot and does not end in a digit, and without real host names: a run
  -- over different addresses without a comma, which do not start with the prefix and are neither
  -- the name nor the address of a loaded host, succeeds. It returns the loaded hosts, and behind
  -- them a host for each address, in order, the numbers of which count up from the one above the
  -- highest loaded id.
  pub build_hostnames-numbered :
      (yaml_config : Value) (hosts : List String) (load : Bool) (found : Existing)
      → load_existing settings yaml_config load ≡ ok found
      → All (IsSingle settings.host_prefix) hosts
      → Distinct hosts
      → All (IsNew found.hosts) hosts
      → build_hostnames settings check_output yaml_config hosts load
        ≡ ok (joined found.hosts (numbered settings.host_prefix (found.highest_host_id + 1) hosts))
  unfolding build_hostnames
  build_hostnames-numbered yaml_config hosts load found e h u g =
      let (s, p, q) =
        change_hosts-new hosts
          (record {
            all_hosts = found.hosts;
            next_host_id = found.highest_host_id + 1;
            hostname = none;
            ip = none;
            access_ip = none;
          })
          (load_existing-IdsBelow settings yaml_config load found e) h u g in
      rw (e, p) (ap ok q)
