-- ===== src/Terraform/Report/Listed.antt =====
-- The groups that `--list` prints have the hosts that name them.
use factory_pattern_design.Base.{
  String, Bool, true, false, ◌≡◌, refl, ◌∙◌, ap, some, List, [], ◌∷◌, ◌=ₛ◌, arith, eq_iff, eq_refl,
  Bool-cases, inl, inr,
}
use factory_pattern_design.Base.Text.{member, split}
use factory_pattern_design.Base.Text.Laws.{member-append}
use factory_pattern_design.Base.Result.{ok, bind-eq-ok, ok-injective}
use factory_pattern_design.Base.Generator.{Generator, drain}
use factory_pattern_design.Yaml.{str, Fields, lookup, keys}
use factory_pattern_design.Yaml.Distinct.{Distinct}
use factory_pattern_design.Terraform.Parse.{sanitize}
use factory_pattern_design.Terraform.Resources.{Resource}
use factory_pattern_design.Terraform.Attributes.{raw_attributes}
use factory_pattern_design.Terraform.Query.{
  Host, Listing, distinct, group_name, hosts_in, query_list,
}
use factory_pattern_design.Terraform.Query.Laws.{listed, listings, query_list-listings}
use factory_pattern_design.Terraform.Report.{
  resource_type, World, found_resources, queried_hosts, floating_ips, all_hosts, listing, variables,
  hosts_text, Output, answer, main,
}
use factory_pattern_design.Terraform.Report.Membership.{HasGroup, openstack_host-HasGroup}
use factory_pattern_design.Terraform.Report.Found.{Any, Among, queried_hosts-Any}

member-distinct : (x : String) (groups : List String) → member x (distinct groups) ≡ member x groups
unfolding member distinct
member-distinct x [] = refl
member-distinct x (g ∷ groups) = ground (arith, member-distinct x groups, eq_iff g x)

member-listed :
    (x name : String) (groups : List String)
    → member x groups ≡ true
    → member name (listed (group_name x) name groups) ≡ true
unfolding member listed
member-listed x name [] h = absurd (cc)
member-listed x name (g ∷ groups) h = elim (Bool-cases (g =ₛ x)) [
  | inl e ↦ rw ((eq_iff g x).0 e, eq_refl (group_name x), eq_refl name) refl
  | inr e ↦ ground (arith, member-listed x name groups, eq_refl name)
]

member-listings :
    (x name : String) (hosts : List Host)
    → Any (HasGroup name x) hosts
    → member name (listings (group_name x) hosts) ≡ true
unfolding listings
member-listings x name [] h = absurd h
member-listings x name (host ∷ hosts) (inl (named, joined)) =
    rw (named, member-append name (listed (group_name x) name (distinct host.groups)))
      (rw (member-listed x name (distinct host.groups) (member-distinct x host.groups ∙ joined))
        refl)
member-listings x name (host ∷ hosts) (inr h) = ground (
  arith,
  member-append name (listed (group_name x) host.name (distinct host.groups))
      (listings (group_name x) hosts),
  member-listings x name hosts h,
)

pub answered :
    (world : World) (meta : Bool) (l : Listing) (gen : Generator Host)
    → answer world (all_hosts meta) gen ≡ ok (listing meta l)
    → (hosts : List Host) × (drain gen ≡ ok hosts) × (query_list hosts ≡ l)
unfolding answer
answered world meta l gen e =
    let (hosts, found, same) = bind-eq-ok (drain gen) _ e in
    (hosts, found, ap listed_groups (ok-injective same))
  where
    listed_groups : Output → Listing
    listed_groups (listing b m) = m
    listed_groups (variables attrs) = l
    listed_groups (hosts_text s) = l

-- If `--list` answers, then every OpenStack instance of the state files that has a name, and the
-- attributes of which have no key twice, is a member of each group that its metadata `kubespray_groups` names: the
-- pieces between the commas, cleaned, the empty one as `all`, and only `_meta` left out.
pub main_lists_tagged :
    (world : World) (meta : Bool) (l : Listing) (r : Resource) (attributes : Fields)
    (g name label : String)
    → main world (all_hosts meta) ≡ ok (listing meta l)
    → Among r (found_resources world world.randint)
    → resource_type r ≡ ok "openstack_compute_instance_v2"
    → raw_attributes r.resource ≡ ok attributes
    → Distinct (keys attributes)
    → lookup "name" attributes ≡ some (str name)
    → lookup "metadata.kubespray_groups" attributes ≡ some (str label)
    → member g (split b',' label) ≡ true
    → (group_name (sanitize g) =ₛ "_meta") ≡ false
    → member name (hosts_in (group_name (sanitize g)) l.groups) ≡ true
unfolding main
main_lists_tagged world meta l r attributes g name label e among kind read u named labelled piece
      other =
    let (ips, known, e1) = bind-eq-ok (floating_ips world) _ e in
    let (hosts, found, same) = answered world meta l (queried_hosts world ips) e1 in
    let parsed =
      openstack_host-HasGroup world.str_of g name label piece r.resource attributes read u named
        labelled in
    let there = queried_hosts-Any world ips name (sanitize g) r hosts found among kind parsed in
    rw (← same, query_list-listings (group_name (sanitize g)) hosts other)
      (member-listings (sanitize g) name hosts there)
