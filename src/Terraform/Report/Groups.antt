-- ===== src/Terraform/Report/Groups.antt =====
-- The names of the groups of every host that is found are clean.
use mathlib.Core.Path.{subst}
use factory_pattern_design.Base.{
  String, Bool, true, false, ◌≡◌, refl, sym, none, some, List, [], ◌∷◌, ◌=ₛ◌, All, if◌then◌else◌,
}
use factory_pattern_design.Base.Result.{Result, ok, err, bind-eq-ok, ok-injective}
use factory_pattern_design.Base.Generator.{Generator, finished, failed, yields, first_do, drain}
use factory_pattern_design.Yaml.{Value}
use factory_pattern_design.Terraform.Resources.{Resource}
use factory_pattern_design.Terraform.Query.{Host}
use factory_pattern_design.Terraform.Hosts.{openstack_host, equinix_metal_device}
use factory_pattern_design.Terraform.Hosts.Laws.{
  IsClean, IsCleanHost, Returns, Returns-ok, Returns-bind, openstack_host-IsClean,
  equinix_metal_device-IsClean,
}
use factory_pattern_design.Terraform.Report.{
  parser_of, resource_type, iterhosts, iter_host_ips, update_host, World, queried_hosts,
}

-- Every item that a generator yields is as `P` says.
abbrev pub AllYielded : {A : Type 0} → (A → Type 0) → Generator A → Type 0
AllYielded P finished = Unit
AllYielded P (failed e) = Unit
AllYielded P (yields a rest) = P a × AllYielded P rest

module _ {A : Type 0} (P : A → Type 0) where
  drain-All :
      (gen : Generator A) (items : List A) → AllYielded P gen → drain gen ≡ ok items → All P items
  unfolding drain
  drain-All finished items h e = rw (← ok-injective e) tt
  drain-All (failed x) items h e = absurd (cc)
  drain-All (yields a rest) items (p, h) e =
      let (later, found, same) = bind-eq-ok (drain rest) _ e in
      subst (λ x. All P x) (ok-injective same) (p, drain-All rest later h found)

  pub first_do-AllYielded :
      {B : Type 0} (r : Result B) (f : B → Generator A)
      → ((b : B) → r ≡ ok b → AllYielded P (f b))
      → AllYielded P (first_do r f)
  unfolding first_do
  first_do-AllYielded (ok b) f h = h b refl
  first_do-AllYielded (err e) f h = tt

  -- The rest behind an item that a parser gives.
  parsed :
      (parse : Value → Result A) (v : Value) (rest : Generator A)
      → Returns P (parse v)
      → AllYielded P rest
      → AllYielded P (first_do (parse v) λ a. yields a rest)
  parsed parse v rest p h = first_do-AllYielded (parse v) _ (λ a e. (p.returns a e, h))

module _ (str_of : Value → String) where
  choose :
      (a b : Bool) (r : Resource) (rest : Generator Host)
      → AllYielded IsCleanHost rest
      → AllYielded IsCleanHost
          (elim (if a
            then some (equinix_metal_device str_of)
            else if b
            then some (openstack_host str_of)
            else none) [
              | none ↦ rest
              | some parser ↦ first_do (parser r.resource) λ host. yields host rest
            ])
  choose true b r rest h =
      parsed IsCleanHost (equinix_metal_device str_of) r.resource rest
        (equinix_metal_device-IsClean str_of r.resource) h
  choose false true r rest h =
      parsed IsCleanHost (openstack_host str_of) r.resource rest
        (openstack_host-IsClean str_of r.resource) h
  choose false false r rest h = h

  iterhosts-IsClean :
      (resources : Generator Resource) → AllYielded IsCleanHost (iterhosts str_of resources)
  unfolding iterhosts parser_of
  iterhosts-IsClean finished = tt
  iterhosts-IsClean (failed e) = tt
  iterhosts-IsClean (yields r resources) =
      first_do-AllYielded IsCleanHost (resource_type r) _ λ kind e.
        choose (kind =ₛ "equinix_metal_device") (kind =ₛ "openstack_compute_instance_v2") r
          (iterhosts str_of resources) (iterhosts-IsClean resources)

pub update_host-groups :
    (ips : List (String × Value)) (host : Host)
    → Returns (λ h. h.groups ≡ host.groups) (update_host ips host)
unfolding update_host
update_host-groups ips host = search (Returns-bind, Returns-ok) depth 12

iter_host_ips-IsClean :
    (hosts : Generator Host) (ips : List (String × Value))
    → AllYielded IsCleanHost hosts
    → AllYielded IsCleanHost (iter_host_ips hosts ips)
unfolding iter_host_ips
iter_host_ips-IsClean finished ips h = tt
iter_host_ips-IsClean (failed e) ips h = tt
iter_host_ips-IsClean (yields host hosts) ips (p, h) =
    first_do-AllYielded IsCleanHost (update_host ips host) _ λ host' e. (
      subst IsClean (sym ((update_host-groups ips host).returns host' e)) p,
      iter_host_ips-IsClean hosts ips h,
    )

-- Whatever the state files hold, the names of the groups of every host that is found are clean:
-- none of the characters `+`, `-`, `=`, `.`, `/` and the blank is in them.
pub queried_hosts-IsClean :
    (world : World) (ips : List (String × Value)) (hosts : List Host)
    → drain (queried_hosts world ips) ≡ ok hosts
    → All IsCleanHost hosts
unfolding queried_hosts
queried_hosts-IsClean world [] hosts e =
    drain-All IsCleanHost _ hosts (iterhosts-IsClean world.str_of _) e
queried_hosts-IsClean world (ip ∷ ips) hosts e =
    drain-All IsCleanHost _ hosts
      (iter_host_ips-IsClean _ (ip ∷ ips) (iterhosts-IsClean world.str_of _)) e
