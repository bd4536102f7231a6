-- ===== src/Terraform/Report/Membership.antt =====
-- Tagged instances are members of their groups.
use factory_pattern_design.Base.{
  String, Bool, true, false, ◌≡◌, refl, some, List, [], ◌∷◌, ◌++◌, ◌=ₛ◌, if◌then◌else◌, arith,
  eq_iff, eq_refl, Bool-cases, inl, inr,
}
use factory_pattern_design.Base.Text.Laws.{member-append}
use factory_pattern_design.Base.Text.{member, split, contains_char}
use factory_pattern_design.Base.Result.{Result, ok, err, bind, ◌>>=◌}
use factory_pattern_design.Yaml.{Value, str, Fields, lookup, keys, text}
use factory_pattern_design.Yaml.Distinct.{Distinct}
use factory_pattern_design.Terraform.Parse.{sanitize, sanitize_groups, parse_dict, parse_attr_list}
use factory_pattern_design.Terraform.Attributes.{raw, raw_attributes, only_text, add_mantl_vars}
use factory_pattern_design.Terraform.Query.{Host}
use factory_pattern_design.Terraform.Hosts.{
  openstack_groups, ansible_address, has_volumes, parse_openstack_host, openstack_host,
}
use factory_pattern_design.Terraform.Hosts.Laws.{
  Returns, Returns-ok, Returns-bind, Returns-bind_with,
}
use factory_pattern_design.Terraform.Report.Pairs.{lookup-parse_dict}

member-sanitize_groups :
    (g : String) (groups : List String)
    → member g groups ≡ true
    → member (sanitize g) (sanitize_groups groups) ≡ true
unfolding member sanitize_groups
member-sanitize_groups g [] h = absurd (cc)
member-sanitize_groups g (x ∷ groups) h = elim (Bool-cases (x =ₛ g)) [
  | inl e ↦ rw ((eq_iff x g).0 e, eq_refl (sanitize g)) refl
  | inr e ↦ rw (member-sanitize_groups g groups (rw e at h)) (ground arith)
]

behind :
    (x a b c : String) (xs ys : List String)
    → member x ys ≡ true
    → member x (a ∷ b ∷ (xs ++ (c ∷ ys))) ≡ true
unfolding member
behind x a b c xs ys h = ground (arith, member-append x xs (c ∷ ys))

-- A host of the name with the group.
abbrev pub HasGroup : String → String → Host → Type 0
HasGroup name group host = (host.name ≡ name) × (member group host.groups ≡ true)

Returns-HasGroup :
    (name group : String) (m : Result (List String)) (f : List String → Host)
    → Returns (λ groups. member group groups ≡ true) m
    → ((groups : List String) → (f groups).name ≡ name)
    → ((groups : List String) → (f groups).groups ≡ groups)
    → Returns (HasGroup name group) (m >>= λ groups. ok (f groups))
Returns-HasGroup name group (ok groups) f h named same =
    Returns-ok _ (f groups) (named groups, rw (same groups) (h.returns groups refl))
Returns-HasGroup name group (err e) f h named same = record { returns = λ a r. absurd (cc) }

add_mantl_vars-HasGroup :
    (name group : String) (host : Host)
    → HasGroup name group host
    → HasGroup name group (add_mantl_vars host)
unfolding add_mantl_vars
add_mantl_vars-HasGroup name group host (named, joined) = (named, appended _ joined)
  where
    appended :
        (b : Bool)
        → member group host.groups ≡ true
        → member group (if b then host.groups ++ ("publicly_routable" ∷ []) else host.groups) ≡ true
    appended true h = rw (member-append group host.groups, h) refl
    appended false h = h

module _ (str_of : Value → String) (g name label : String)
    (piece : member g (split b',' label) ≡ true) where
  -- A piece of the label is among the groups, cleaned.
  openstack_groups-member :
      (image flavor metadata : Fields) (region : Value)
      → lookup "kubespray_groups" metadata ≡ some (str label)
      → Returns
          (λ groups. member (sanitize g) groups ≡ true)
          (openstack_groups str_of image flavor metadata region)
  unfolding openstack_groups text
  openstack_groups-member image flavor metadata region e = rw e (
      Returns-bind _ (raw "id" image) _ λ image_id.
        Returns-bind _ (raw "name" flavor) _ λ flavor_name.
          Returns-ok _ _ (member-sanitize_groups g _ (behind g _ _ _ _ (split b',' label) piece)))

  module _ (resource : Value) (attributes : Fields) (read : raw_attributes resource ≡ ok attributes)
      (u : Distinct (keys attributes)) (named : lookup "name" attributes ≡ some (str name))
      (labelled : lookup "metadata.kubespray_groups" attributes ≡ some (str label)) where
    returned_name : Returns (λ n. n ≡ name) (bind (raw "name" attributes) only_text)
    unfolding raw only_text
    returned_name = rw named (Returns-ok _ name refl)

    metadata_label :
        lookup "kubespray_groups" (parse_dict attributes "metadata" b'.') ≡ some (str label)
    unfolding contains_char
    metadata_label =
        lookup-parse_dict "metadata" "kubespray_groups" attributes (str label) refl refl u labelled

    abbrev P : Host → Type 0
    P = HasGroup name (sanitize g)

    parse_openstack_host-HasGroup :
        Returns (HasGroup name (sanitize g)) (parse_openstack_host str_of resource)
    unfolding parse_openstack_host
    parse_openstack_host-HasGroup = rw read (
        Returns-bind_with P (λ n. n ≡ name) _ _ returned_name
          λ n same. Returns-bind P (raw "access_ip_v4" attributes) _ λ v4.
            Returns-bind P (raw "access_ip_v6" attributes) _ λ v6.
              Returns-bind P (raw "network.0.fixed_ip_v4" attributes) _ λ ip.
                Returns-bind P (raw "id" attributes) _ λ id.
                  Returns-bind P (raw "key_pair" attributes) _ λ key_pair.
                    Returns-bind P (parse_attr_list attributes "network" b'.') _ λ network.
                      Returns-bind P (raw "network.0.port" attributes) _ λ port_id.
                        Returns-bind P (ansible_address attributes v4 v6) _ λ ansible_host.
                          Returns-bind P (has_volumes attributes) _ λ volumes.
                            Returns-HasGroup name (sanitize g) _ _
                              (openstack_groups-member _ _ _ _ metadata_label) (λ groups. same)
                              (λ groups. refl))

    pub openstack_host-HasGroup :
        Returns (HasGroup name (sanitize g)) (openstack_host str_of resource)
    unfolding openstack_host
    openstack_host-HasGroup =
        Returns-bind_with _ (HasGroup name (sanitize g)) (parse_openstack_host str_of resource) _
          parse_openstack_host-HasGroup
          (λ host h.
            Returns-ok _ (add_mantl_vars host) (add_mantl_vars-HasGroup name (sanitize g) host h))
