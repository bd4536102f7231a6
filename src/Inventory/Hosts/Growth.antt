-- ===== src/Inventory/Hosts/Growth.antt =====
-- A run of `build_hostnames` whose arguments are all addresses.
use mathlib.Core.Path.{subst}
use factory_pattern_design.Base.{
  ℕ, ◌+◌, String, ◌<>◌, Bool, false, ◌≡◌, ◌∙◌, none, some, List, [], ◌∷◌, arith, ap, sym, All,
}
use factory_pattern_design.Base.Text.{contains_char}
use factory_pattern_design.Base.Decimal.{decimal}
use factory_pattern_design.Base.Result.{Result, ok, bind-eq-ok, ok-injective}
use factory_pattern_design.Yaml.{Value, Fields, end, field, has_key, lookup, insert}
use factory_pattern_design.Yaml.Joined.{joined, joined-end, joined_assoc, insert-new}
use factory_pattern_design.Inventory.Settings.{Settings}
use factory_pattern_design.Inventory.Hosts.{
  Scan, host_entry, addresses, new_name, add_ip, change_host, change_hosts, Existing, load_existing,
  build_hostnames,
}
use factory_pattern_design.Inventory.Hosts.Naming.{
  IdsBelow, insert-IdsBelow, name_is_free, get_host_id-decimal, load_existing-IdsBelow,
}
use factory_pattern_design.Inventory.Hosts.Changes.{Added, skipped, wrote, add_ip-Added}
use factory_pattern_design.Base.Decimal.{trailing_number}
use factory_pattern_design.Inventory.Hosts.Additions.{
  IsAddress, Extends, IsServed, IsServed-insert, lookup-free, add_ip-eq-ok,
}

-- The prefix makes names whose ids are the numbers in them.
pub record IsPlain (prefix : String) : Type 0 where
  pub no_dot : contains_char b'.' prefix ≡ false
  pub no_digits : trailing_number none prefix ≡ none

-- The second mapping is the first with more hosts behind it.
abbrev pub Continues : Fields → Fields → Type 0
Continues d e = (more : Fields) × (e ≡ joined d more)

Continues-insert :
    (name : String) (opts : Value) (d e : Fields)
    → has_key name e ≡ false
    → Continues d e
    → Continues d (insert name opts e)
Continues-insert name opts d e free (more, p) = (
  joined more (field name opts end),
  insert-new name opts e free
      ∙ ap (λ x. joined x (field name opts end)) p
      ∙ joined_assoc d more (field name opts end),
)

-- The arguments are served.
abbrev pub AllServed : List String → Fields → Type 0
AllServed [] d = Unit
AllServed (host ∷ hosts) d =
    ((parts : String × String) × (addresses host ≡ ok parts) × IsServed host parts.0 d)
    × AllServed hosts d

module _ (settings : Settings) (check_output : String → Result String)
    (made_up : settings.use_real_hostname ≡ false) (plain : IsPlain settings.host_prefix) where
  -- The invariant of the run, for the hosts `d` that it started from and the arguments so far.
  record Grown (d : Fields) (past : List String) (s : Scan) : Type 0 where
    extends : Extends d s.all_hosts
    continues : Continues d s.all_hosts
    below : IdsBelow settings.host_prefix s.next_host_id s.all_hosts
    served : AllServed past s.all_hosts

  made_up_name :
      (next : ℕ) (access_ip : String)
      → new_name settings check_output next access_ip
        ≡ ok (settings.host_prefix <> decimal next, next + 1)
  unfolding new_name
  made_up_name next access_ip = rw made_up

  AllServed-insert :
      (past : List String) (name : String) (opts : Value) (d : Fields)
      → has_key name d ≡ false
      → AllServed past d
      → AllServed past (insert name opts d)
  AllServed-insert [] name opts d free h = tt
  AllServed-insert (host ∷ past) name opts d free ((parts, p, served), h) = (
    (parts, p, IsServed-insert host parts.0 name opts d free served),
    AllServed-insert past name opts d free h,
  )

  Added-Grown :
      (d : Fields) (past : List String) (s s' : Scan)
      → Added settings check_output s s'
      → Grown d past s
      → Grown d past s'
  Added-Grown d past s s' (skipped _ e n) g = record {
    extends = rw e g.extends;
    continues = rw e g.continues;
    below = rw (e, n) g.below;
    served = rw e g.served;
  }
  Added-Grown d past s s' (wrote _ name ip access_ip x n e) g =
      let named = ok-injective (sym (made_up_name s.next_host_id access_ip) ∙ n) in
      let same = ap (λ (p : String × ℕ). p.0) named in
      let next = ap (λ (p : String × ℕ). p.1) named in
      let free : has_key name s.all_hosts ≡ false =
        rw (← same)
          (name_is_free settings.host_prefix s.next_host_id s.all_hosts plain.no_dot g.below) in
      record {
        extends = rw e (λ h v there.
            lookup-free name (host_entry ip access_ip) s.all_hosts free h v (g.extends h v there));
        continues = rw e (Continues-insert name _ d s.all_hosts free g.continues);
        below =
            rw (e, ← next, ← same)
              (insert-IdsBelow settings.host_prefix s.next_host_id (s.next_host_id + 1) _ _
                s.all_hosts g.below (omega arith)
                (λ _. (
                  s.next_host_id,
                  get_host_id-decimal settings.host_prefix plain.no_dot plain.no_digits
                      s.next_host_id,
                  omega arith,
                )));
        served = rw e (AllServed-insert past name _ s.all_hosts free g.served);
      }

  change_host-add_ip :
      (host : String) (s s' : Scan)
      → IsAddress host
      → change_host settings check_output host s ≡ ok s'
      → add_ip settings check_output host s ≡ ok s'
  unfolding change_host
  change_host-add_ip String.[] s s' (c, p, q) e = cc
  change_host-add_ip (String.◌∷◌ k host) s s' (c, p, q) e = ground arith

  change_hosts-Grown :
      (hosts past : List String) (d : Fields) (s s' : Scan)
      → All IsAddress hosts
      → change_hosts settings check_output hosts s ≡ ok s'
      → Grown d past s
      → Grown d past s' × AllServed hosts s'.all_hosts
  unfolding change_hosts
  change_hosts-Grown [] past d s s' h e g = (subst (Grown d past) (ok-injective e) g, tt)
  change_hosts-Grown (host ∷ hosts) past d s s' (a, h) e g =
      let (m, p, q) = bind-eq-ok (change_host settings check_output host s) _ e in
      let added = change_host-add_ip host s m a p in
      let (parts, found, settled) = add_ip-eq-ok settings check_output host s m added in
      let grown = Added-Grown d past s m (add_ip-Added settings check_output host s m added) g in
      let (x, served) = change_hosts-Grown hosts (host ∷ past) d m s' h q (record {
        extends = grown.extends;
        continues = grown.continues;
        below = grown.below;
        served = ((parts, found, settled.2), grown.served);
      }) in
      (
        record {
          extends = x.extends;
          continues = x.continues;
          below = x.below;
          served = x.served.1;
        },
        (x.served.0, served),
      )

  -- What such a run starts from and returns.
  pub record GrownRun (yaml_config : Value) (changed_hosts : List String) (load : Bool)
      (hosts : Fields) : Type 0 where
    pub found : Existing
    pub loaded : load_existing settings yaml_config load ≡ ok found
    pub extends : Extends found.hosts hosts
    pub continues : Continues found.hosts hosts
    pub next : ℕ
    pub below : IdsBelow settings.host_prefix next hosts
    pub served : AllServed changed_hosts hosts

  pub build_hostnames_grows :
      (yaml_config : Value) (changed_hosts : List String) (load : Bool) (hosts : Fields)
      → All IsAddress changed_hosts
      → build_hostnames settings check_output yaml_config changed_hosts load ≡ ok hosts
      → GrownRun yaml_config changed_hosts load hosts
  unfolding build_hostnames
  build_hostnames_grows yaml_config changed_hosts load hosts h e =
      let (found, p, q) = bind-eq-ok (load_existing settings yaml_config load) _ e in
      let (s, r, w) = bind-eq-ok (change_hosts settings check_output changed_hosts _) _ q in
      let (x, served) = change_hosts-Grown changed_hosts [] found.hosts _ s h r (record {
        extends = λ n v there. there;
        continues = (end, sym (joined-end found.hosts));
        below = load_existing-IdsBelow settings yaml_config load found p;
        served = tt;
      }) in
      record {
        found = found;
        loaded = p;
        extends = rw (← ok-injective w) x.extends;
        continues = rw (← ok-injective w) x.continues;
        next = s.next_host_id;
        below = rw (← ok-injective w) x.below;
        served = rw (← ok-injective w) served;
      }

  -- With a prefix that has no dot and does not end in a digit, and without real host names: a run
  -- that succeeds and whose arguments all start with a digit leaves to every loaded host its name
  -- and its options, and afterwards each argument is the name of a host or its first address is
  -- the address of a host.
  pub loaded_hosts_stay :
      (yaml_config : Value) (changed_hosts : List String) (load : Bool) (hosts : Fields)
      (found : Existing) (h : String) (opts : Value)
      → All IsAddress changed_hosts
      → load_existing settings yaml_config load ≡ ok found
      → build_hostnames settings check_output yaml_config changed_hosts load ≡ ok hosts
      → lookup h found.hosts ≡ some opts
      → (lookup h hosts ≡ some opts) × AllServed changed_hosts hosts
  loaded_hosts_stay yaml_config changed_hosts load hosts found h opts all loaded e there =
      let r = build_hostnames_grows yaml_config changed_hosts load hosts all e in
      let same = ok-injective (sym r.loaded ∙ loaded) in
      (
        r.extends h opts (subst (λ (x : Existing). lookup h x.hosts ≡ some opts) (sym same) there),
        r.served,
      )
