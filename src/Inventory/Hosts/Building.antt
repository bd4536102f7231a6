-- ===== src/Inventory/Hosts/Building.antt =====
-- The hosts that `build_hostnames` returns have distinct names.
use mathlib.Core.Path.{subst}
use factory_pattern_design.Base.{
  ℕ, String, code, Bool, true, false, ◌≡◌, List, [], ◌∷◌, ◌==◌, arith, if◌then◌else◌, inl, inr,
  Bool-cases, sym,
}
use factory_pattern_design.Base.Text.{first, rest_of, is_digit, is_alpha, contains_char, split}
use factory_pattern_design.Base.Result.{
  Result, ok, err, bind-eq-ok, ok-injective, or_raise, index_error, unbound_local,
}
use factory_pattern_design.Yaml.{Value, Fields, keys, has_key, at, iterate}
use factory_pattern_design.Yaml.Distinct.{Distinct, insert-Distinct}
use factory_pattern_design.Inventory.Settings.{Settings}
use factory_pattern_design.Inventory.Hosts.{
  exists_ip, Scan, host_entry, named_parts, add_named, change_host, change_hosts, Existing,
  keep_host, read_host, read_hosts, load_existing, build_hostnames,
}
use factory_pattern_design.Inventory.Hosts.Naming.{or_exit-eq-ok}
use factory_pattern_design.Inventory.Hosts.Changes.{
  Edit, kept, written, EditTo, Edit-Distinct, delete_host-Edit, Added, skipped, wrote, add_ip-Added,
}

-- The assignments of `add_named` leave the hosts alone.
named_parts-hosts :
    (words : List String) (s s' : Scan) → named_parts words s ≡ ok s' → s'.all_hosts ≡ s.all_hosts
unfolding named_parts
named_parts-hosts [] s s' e = cc
named_parts-hosts (a ∷ []) s s' e = cc
named_parts-hosts (a ∷ b ∷ []) s s' e = ground arith
named_parts-hosts (a ∷ b ∷ c ∷ []) s s' e = ground arith
named_parts-hosts (a ∷ b ∷ c ∷ d ∷ ws) s s' e = cc

parts_if-hosts :
    (comma : Bool) (words : List String) (s s' : Scan)
    → (if comma then named_parts words s else ok s) ≡ ok s'
    → s'.all_hosts ≡ s.all_hosts
parts_if-hosts true words s s' e = named_parts-hosts words s s' e
parts_if-hosts false words s s' e = ground arith

add_named-Edit : (host : String) (s s' : Scan) → add_named host s ≡ ok s' → EditTo s s'
unfolding add_named
add_named-Edit host s s' e =
    let (m, p, q) =
      bind-eq-ok (if contains_char b',' host then named_parts (split b',' host) s else ok s) _ e in
    let same : m.all_hosts ≡ s.all_hosts =
      parts_if-hosts (contains_char b',' host) (split b',' host) s m p in
    subst (λ d. Edit d s'.all_hosts) same
      (elim (Bool-cases (has_key host m.all_hosts)) [
        | inl t ↦ subst (EditTo m) (ok-injective (rw t at q)) kept
        | inr f ↦
            let (ip, _, r) = bind-eq-ok (or_raise m.ip (unbound_local "ip")) _ (rw f at q) in
            let (found, _, w) = bind-eq-ok (exists_ip m.all_hosts ip) _ r in
            elim (Bool-cases found) [
              | inl t ↦ subst (EditTo m) (ok-injective (rw t at w)) kept
              | inr g ↦
                  let (access_ip, _, x) =
                    bind-eq-ok (or_raise m.access_ip (unbound_local "access_ip")) _ (rw g at w) in
                  let (hostname, _, y) =
                    bind-eq-ok (or_raise m.hostname (unbound_local "hostname")) _ x in
                  subst (EditTo m) (ok-injective y) (written hostname (host_entry ip access_ip))
            ]
      ])

module _ (settings : Settings) (check_output : String → Result String) where
  add_ip-Edit : (host : String) (s s' : Scan) → Added settings check_output s s' → EditTo s s'
  add_ip-Edit host s s' (skipped _ e n) = subst (λ d. Edit s.all_hosts d) (sym e) kept
  add_ip-Edit host s s' (wrote _ name ip access_ip x n e) =
      subst (λ d. Edit s.all_hosts d) (sym e) (written name (host_entry ip access_ip))

  change_host-Edit :
      (host : String) (s s' : Scan) → change_host settings check_output host s ≡ ok s' → EditTo s s'
  unfolding change_host
  change_host-Edit host s s' e =
      let (c, _, q) = bind-eq-ok (or_raise (first host) index_error) _ e in
      elim (Bool-cases (code c == b'-')) [
        | inl t ↦ delete_host-Edit (rest_of host) s s' (rw t at q)
        | inr f ↦ elim (Bool-cases (is_digit c)) [
          | inl t ↦
              add_ip-Edit host s s' (add_ip-Added settings check_output host s s' (ground arith))
          | inr g ↦ elim (Bool-cases (is_alpha c)) [
            | inl t ↦ add_named-Edit host s s' (ground arith)
            | inr h ↦
                let same : ◌≡◌ {A = Result Scan} (ok s) (ok s') = ground arith in
                subst (EditTo s) (ok-injective same) kept
          ]
        ]
      ]

  change_hosts-Distinct :
      (hosts : List String) (s s' : Scan)
      → change_hosts settings check_output hosts s ≡ ok s'
      → Distinct (keys s.all_hosts)
      → Distinct (keys s'.all_hosts)
  unfolding change_hosts
  change_hosts-Distinct [] s s' e u =
      subst (λ (t : Scan). Distinct (keys t.all_hosts)) (ok-injective e) u
  change_hosts-Distinct (host ∷ hosts) s s' e u =
      let (m, p, q) = bind-eq-ok (change_host settings check_output host s) _ e in
      change_hosts-Distinct hosts m s' q (Edit-Distinct (change_host-Edit host s m p) u)

abbrev DistinctHosts : Existing → Type 0
DistinctHosts found = Distinct (keys found.hosts)

keep_host-Distinct :
    (host : String) (opts : Value) (found found' : Existing) (b : Bool) (r : Result ℕ)
    → keep_host host opts found b r ≡ ok found'
    → DistinctHosts found
    → DistinctHosts found'
unfolding keep_host
keep_host-Distinct host opts found found' true (ok id) e u =
    subst DistinctHosts (ok-injective e) (insert-Distinct host opts found.hosts u)
keep_host-Distinct host opts found found' true (err x) e u = cc
keep_host-Distinct host opts found found' false r e u =
    subst DistinctHosts (ok-injective e) (insert-Distinct host opts found.hosts u)

read_hosts-Distinct :
    (settings : Settings) (yaml_config : Value) (hosts : List String) (found found' : Existing)
    → read_hosts settings yaml_config hosts found ≡ ok found'
    → DistinctHosts found
    → DistinctHosts found'
unfolding read_hosts read_host
read_hosts-Distinct settings yaml_config [] found found' e u =
    subst DistinctHosts (ok-injective e) u
read_hosts-Distinct settings yaml_config (host ∷ hosts) found found' e u =
    let (m, p, q) = bind-eq-ok (read_host settings yaml_config host found) _ e in
    let (opts, _, r) = bind-eq-ok (at ("all" ∷ "hosts" ∷ host ∷ []) yaml_config) _ p in
    read_hosts-Distinct settings yaml_config hosts m found' q
      (keep_host-Distinct host opts found m _ _ r u)

load_existing-Distinct :
    (settings : Settings) (yaml_config : Value) (load : Bool) (found : Existing)
    → load_existing settings yaml_config load ≡ ok found
    → DistinctHosts found
unfolding load_existing keys
load_existing-Distinct settings yaml_config false found e = subst DistinctHosts (ok-injective e) tt
load_existing-Distinct settings yaml_config true found e =
    let (hosts, _, p) = bind-eq-ok (at ("all" ∷ "hosts" ∷ []) yaml_config) _ (or_exit-eq-ok _ e) in
    let (names, _, q) = bind-eq-ok (iterate hosts) _ p in
    read_hosts-Distinct settings yaml_config names _ found q tt

-- Whatever the arguments and the loaded document, a result of `build_hostnames` has no name twice.
pub build_hostnames-Distinct :
    (settings : Settings) (check_output : String → Result String) (yaml_config : Value)
    (changed_hosts : List String) (load_previous_config : Bool) (hosts : Fields)
    → build_hostnames settings check_output yaml_config changed_hosts load_previous_config
      ≡ ok hosts
    → Distinct (keys hosts)
unfolding build_hostnames
build_hostnames-Distinct settings check_output yaml_config changed_hosts load hosts e =
    let (found, p, q) = bind-eq-ok (load_existing settings yaml_config load) _ e in
    let (s, r, w) = bind-eq-ok (change_hosts settings check_output changed_hosts _) _ q in
    subst (λ d. Distinct (keys d)) (ok-injective w)
      (change_hosts-Distinct settings check_output changed_hosts _ s r
        (load_existing-Distinct settings yaml_config load found p))
