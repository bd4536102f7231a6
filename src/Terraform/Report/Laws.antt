-- ===== src/Terraform/Report/Laws.antt =====
-- What the queries of terraform.py agree on, and what every host that is found is like.
use factory_pattern_design.Base.{
  String, true, false, ◌≡◌, refl, ◌∙◌, Option, none, some, List, [], ◌∷◌, ◌=ₛ◌, if◌then◌else◌,
  arith, eq_iff, Bool-cases, inl, inr, ◌⊎◌,
}
use factory_pattern_design.Base.Text.{member}
use factory_pattern_design.Base.Result.{ok, bind-eq-ok, ok-injective}
use factory_pattern_design.Base.Generator.{Generator, finished, failed, yields, drain}
use factory_pattern_design.Yaml.{Value, dict, Fields, end, lookup, insert}
use factory_pattern_design.Yaml.Laws.{lookup-insert}
use factory_pattern_design.Yaml.Distinct.{Distinct}
use factory_pattern_design.Terraform.Query.{Host, host_vars, query_list}
use factory_pattern_design.Terraform.Report.{
  query_host, all_hosts, one_host, listing, variables, World, floating_ips, queried_hosts, answer,
  main,
}

-- The attributes of the first host of the name.
unfoldable pub first_of : String → List Host → Option Fields
first_of target [] = none
first_of target (host ∷ hosts) =
    if host.name =ₛ target then some host.attrs else first_of target hosts

abbrev or_empty : Option Fields → Fields
or_empty none = end
or_empty (some attrs) = attrs

abbrev or_else : Option Fields → Option Value → Option Value
or_else none other = other
or_else (some attrs) other = some (dict attrs)

abbrev pub names_of : List Host → List String
names_of [] = []
names_of (host ∷ hosts) = host.name ∷ names_of hosts

query_host-first_of :
    (gen : Generator Host) (hosts : List Host) (target : String)
    → drain gen ≡ ok hosts
    → query_host gen target ≡ ok (or_empty (first_of target hosts))
unfolding drain query_host first_of
query_host-first_of finished hosts target e = rw (← ok-injective e) refl
query_host-first_of (failed x) hosts target e = cc
query_host-first_of (yields host gen) hosts target e =
    let (later, found, same) = bind-eq-ok (drain gen) _ e in
    rw (← ok-injective same) (ground (arith, query_host-first_of gen later target found))

first_of-eq-none :
    (target : String) (hosts : List Host)
    → member target (names_of hosts) ≡ false
    → first_of target hosts ≡ none
unfolding first_of member
first_of-eq-none target [] e = refl
first_of-eq-none target (host ∷ hosts) e = ground (arith, first_of-eq-none target hosts)

lookup-host_vars :
    (target : String) (hosts : List Host) (meta : Fields)
    → Distinct (names_of hosts)
    → lookup target (host_vars hosts meta) ≡ or_else (first_of target hosts) (lookup target meta)
unfolding host_vars first_of member
lookup-host_vars target [] meta u = refl
lookup-host_vars target (host ∷ hosts) meta (new, u) =
    let later = lookup-host_vars target hosts (insert host.name (dict host.attrs) meta) u in
    let stored = lookup-insert target host.name (dict host.attrs) meta in
    elim (Bool-cases (host.name =ₛ target)) [
      | inl e ↦
          let gone = first_of-eq-none target hosts (rw (← (eq_iff host.name target).0 e) new) in
          rw e (later ∙ rw (gone, stored, e))
      | inr e ↦ rw e (later ∙ rw (stored, e))
    ]

found_or_none :
    (found : Option Fields) (v : Option Value)
    → v ≡ or_else found none
    → (v ≡ some (dict (or_empty found))) ⊎ ((v ≡ none) × (or_empty found ≡ end))
found_or_none none v e = inr (e, refl)
found_or_none (some attrs) v e = inl e

-- If the state files can be read and no two hosts have the same name, `--list` prints the listing of
-- the hosts and `--host` the variables that the listing has for the host, or no variables if it has
-- none.
pub main-one_host :
    (world : World) (target : String) (ips : List (String × Value)) (hosts : List Host)
    → floating_ips world ≡ ok ips
    → drain (queried_hosts world ips) ≡ ok hosts
    → Distinct (names_of hosts)
    → (attrs : Fields) × (main world (all_hosts true) ≡ ok (listing true (query_list hosts)))
      × (main world (one_host target) ≡ ok (variables attrs))
      × ((lookup target (query_list hosts).hostvars ≡ some (dict attrs))
          ⊎ ((lookup target (query_list hosts).hostvars ≡ none) × (attrs ≡ end)))
unfolding main answer query_list lookup
main-one_host world target ips hosts p q u = (
  or_empty (first_of target hosts),
  rw (p, q),
  rw (p, query_host-first_of (queried_hosts world ips) hosts target q),
  found_or_none (first_of target hosts) _ (lookup-host_vars target hosts end u),
)
