-- ===== src/Terraform/Report/Found.antt =====
-- Among the hosts that are found is that of each instance of the state files.
use mathlib.Core.Path.{subst}
use factory_pattern_design.Base.{
  String, ◌≡◌, ◌⊎◌, refl, sym, ◌∙◌, Option, none, some, List, [], ◌∷◌, inl, inr,
}
use factory_pattern_design.Base.Result.{Result, ok, err, bind-eq-ok, ok-injective}
use factory_pattern_design.Base.Generator.{Generator, finished, failed, yields, first_do, drain}
use factory_pattern_design.Yaml.{Value}
use factory_pattern_design.Terraform.Resources.{Resource}
use factory_pattern_design.Terraform.Query.{Host}
use factory_pattern_design.Terraform.Hosts.{openstack_host}
use factory_pattern_design.Terraform.Hosts.Laws.{Returns, Returns-ok, Returns-bind}
use factory_pattern_design.Terraform.Report.{
  resource_type, parser_of, iterhosts, iter_host_ips, update_host, World, found_resources,
  queried_hosts,
}
use factory_pattern_design.Terraform.Report.Groups.{update_host-groups}
use factory_pattern_design.Terraform.Report.Membership.{HasGroup}

-- Some item of the list is as `P` says.
abbrev pub Any : {A : Type 0} → (A → Type 0) → List A → Type 0
Any P [] = ⊥
Any P (x ∷ xs) = P x ⊎ Any P xs

-- The item is among those that the generator yields.
abbrev pub Among : {A : Type 0} → A → Generator A → Type 0
Among a finished = ⊥
Among a (failed e) = ⊥
Among a (yields b rest) = (b ≡ a) ⊎ Among a rest

-- A generator that is read to its end got through its first step.
pub drain-first_do :
    {A B : Type 0} (r : Result B) (f : B → Generator A) (items : List A)
    → drain (first_do r f) ≡ ok items
    → (b : B) × (r ≡ ok b) × (drain (f b) ≡ ok items)
unfolding drain first_do
drain-first_do (ok b) f items e = (b, refl, e)
drain-first_do (err x) f items e = absurd (cc)

pub drain-yields :
    {A : Type 0} (a : A) (rest : Generator A) (items : List A)
    → drain (yields a rest) ≡ ok items
    → (later : List A) × (drain rest ≡ ok later) × (items ≡ a ∷ later)
unfolding drain
drain-yields a rest items e =
    let (later, found, same) = bind-eq-ok (drain rest) _ e in
    (later, found, sym (ok-injective same))

module _ (P : Host → Type 0) where
  Any-front :
      (host : Host) (later hosts : List Host) → hosts ≡ host ∷ later → Any P later → Any P hosts
  Any-front host later hosts same h = rw same (inr h)

  -- What a parser, or none, lets through.
  pub after_parser :
      (o : Option (Value → Result Host)) (v : Value) (rest : Generator Host) (hosts : List Host)
      → drain (elim o [ none ↦ rest | some parser ↦ first_do (parser v) λ host. yields host rest ])
        ≡ ok hosts
      → (later : List Host) × (drain rest ≡ ok later) × (Any P later → Any P hosts)
  after_parser none v rest hosts e = (hosts, e, λ h. h)
  after_parser (some parser) v rest hosts e =
      let (host, parsed, e1) = drain-first_do (parser v) _ hosts e in
      let (later, found, same) = drain-yields host rest hosts e1 in
      (later, found, Any-front host later hosts same)

  at_parser :
      (parser : Value → Result Host) (v : Value) (rest : Generator Host) (hosts : List Host)
      → Returns P (parser v)
      → drain (first_do (parser v) λ host. yields host rest) ≡ ok hosts
      → Any P hosts
  at_parser parser v rest hosts p e =
      let (host, parsed, e1) = drain-first_do (parser v) _ hosts e in
      let (later, found, same) = drain-yields host rest hosts e1 in
      rw same (inl (p.returns host parsed))

  module _ (str_of : Value → String) (r : Resource)
      (kind : resource_type r ≡ ok "openstack_compute_instance_v2")
      (parsed : Returns P (openstack_host str_of r.resource)) where
    at_instance :
        (rest : Generator Resource) (hosts : List Host)
        → drain (iterhosts str_of (yields r rest)) ≡ ok hosts
        → Any P hosts
    unfolding iterhosts parser_of first_do
    at_instance rest hosts e =
        at_parser (openstack_host str_of) r.resource (iterhosts str_of rest) hosts parsed
          (rw kind at e)

    iterhosts-Any :
        (gen : Generator Resource) (hosts : List Host)
        → drain (iterhosts str_of gen) ≡ ok hosts
        → Among r gen
        → Any P hosts
    unfolding iterhosts
    iterhosts-Any finished hosts e h = absurd h
    iterhosts-Any (failed x) hosts e h = absurd h
    iterhosts-Any (yields q rest) hosts e (inl same) =
        at_instance rest hosts
          (subst (λ x. drain (iterhosts str_of (yields x rest)) ≡ ok hosts) same e)
    iterhosts-Any (yields q rest) hosts e (inr h) =
        let (k, typed, e1) = drain-first_do (resource_type q) _ hosts e in
        let (later, found, front) =
          after_parser (parser_of str_of k) q.resource (iterhosts str_of rest) hosts e1 in
        front (iterhosts-Any rest later found h)

update_host-name :
    (ips : List (String × Value)) (host : Host)
    → Returns (λ h. h.name ≡ host.name) (update_host ips host)
unfolding update_host
update_host-name ips host = search (Returns-bind, Returns-ok) depth 12

module _ (name x : String) (ips : List (String × Value)) where
  update_host-HasGroup :
      (host host' : Host)
      → update_host ips host ≡ ok host'
      → HasGroup name x host
      → HasGroup name x host'
  update_host-HasGroup host host' e (named, joined) = (
    (update_host-name ips host).returns host' e ∙ named,
    rw ((update_host-groups ips host).returns host' e) joined,
  )

  both :
      (host host' : Host) (hosts later : List Host)
      → update_host ips host ≡ ok host'
      → (Any (HasGroup name x) hosts → Any (HasGroup name x) later)
      → Any (HasGroup name x) (host ∷ hosts)
      → Any (HasGroup name x) (host' ∷ later)
  both host host' hosts later updated front (inl p) =
      inl (update_host-HasGroup host host' updated p)
  both host host' hosts later updated front (inr h) = inr (front h)

  -- The floating addresses change no name and no group.
  pub iter_host_ips-Any :
      (gen : Generator Host) (found : List Host)
      → drain (iter_host_ips gen ips) ≡ ok found
      → (hosts : List Host) × (drain gen ≡ ok hosts)
        × (Any (HasGroup name x) hosts → Any (HasGroup name x) found)
  unfolding iter_host_ips drain
  iter_host_ips-Any finished found e = ([], refl, λ h. absurd h)
  iter_host_ips-Any (failed problem) found e = absurd (cc)
  iter_host_ips-Any (yields host gen) found e =
      let (host', updated, e1) = drain-first_do (update_host ips host) _ found e in
      let (later, rest, same) = drain-yields host' (iter_host_ips gen ips) found e1 in
      let (hosts, drained, front) = iter_host_ips-Any gen later rest in
      (host ∷ hosts, rw drained refl, λ h. rw same (both host host' hosts later updated front h))

pub queried_hosts-Any :
    (world : World) (ips : List (String × Value)) (name x : String) (r : Resource)
    (hosts : List Host)
    → drain (queried_hosts world ips) ≡ ok hosts
    → Among r (found_resources world world.randint)
    → resource_type r ≡ ok "openstack_compute_instance_v2"
    → Returns (HasGroup name x) (openstack_host world.str_of r.resource)
    → Any (HasGroup name x) hosts
unfolding queried_hosts
queried_hosts-Any world [] name x r hosts e among kind parsed =
    iterhosts-Any (HasGroup name x) world.str_of r kind parsed _ hosts e among
queried_hosts-Any world (ip ∷ ips) name x r hosts e among kind parsed =
    let (first, drained, kept) = iter_host_ips-Any name x (ip ∷ ips) _ hosts e in
    kept (iterhosts-Any (HasGroup name x) world.str_of r kind parsed _ first drained among)
