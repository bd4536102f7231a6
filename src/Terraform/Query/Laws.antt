-- ===== src/Terraform/Query/Laws.antt =====
-- Which hosts a group of the inventory lists.
use mathlib.Core.List.{append_assoc, append-nil}
use factory_pattern_design.Base.{
  String, Bool, true, false, ◌≡◌, refl, sym, ◌∙◌, ap, List, [], ◌∷◌, ◌++◌, ◌=ₛ◌, if◌then◌else◌,
  arith, not, ◌&&◌, eq_iff, Bool-cases, inl, inr,
}
use factory_pattern_design.Base.Text.{member}
use factory_pattern_design.Terraform.Query.{
  Host, distinct, group_name, add_name, add_to_groups, collect, hosts_in, without_meta, query_list,
}

-- The name of a host, once for each of its groups that has the name `group`.
unfoldable pub listed : String → String → List String → List String
listed group name [] = []
listed group name (g ∷ groups) =
    if group_name g =ₛ group then name ∷ listed group name groups else listed group name groups

unfoldable pub listings : String → List Host → List String
listings group [] = []
listings group (host ∷ hosts) =
    listed group host.name (distinct host.groups) ++ listings group hosts

abbrev pub only_if : Bool → String → List String
only_if b name = if b then name ∷ [] else []

-- The hosts of a group, in order: one that names the group is there once, however often it names it;
-- in `all`, one that has the empty name for a group is there for that once more; in the group of
-- the empty name there is none.
unfoldable pub members : String → List Host → List String
members group [] = []
members group (host ∷ hosts) =
    only_if (member group host.groups && not (group =ₛ "")) host.name
    ++ only_if (member "" host.groups && (group =ₛ "all")) host.name
    ++ members group hosts

hosts_in-add_name :
    (g group name : String) (groups : List (String × List String))
    → hosts_in g (add_name group name groups)
      ≡ hosts_in g groups ++ (if group =ₛ g then name ∷ [] else [])
unfolding hosts_in add_name
hosts_in-add_name g group name [] = refl
hosts_in-add_name g group name ((key, names) ∷ groups) = elim (Bool-cases (key =ₛ group)) [
  | inl same ↦
      rw (same, (eq_iff key group).0 same)
        (elim (Bool-cases (group =ₛ g)) [ inl e ↦ rw e | inr e ↦ rw (e, append-nil) ])
  | inr differ ↦ rw differ (elim (Bool-cases (key =ₛ g)) [
    | inl e ↦
        rw (e, ← (eq_iff key g).0 e)
          (ground (arith, append-nil names, eq_iff key group, eq_iff group key))
    | inr e ↦ rw e (hosts_in-add_name g group name groups)
  ])
]

glue :
    (b : Bool) (name : String) (xs ys : List String)
    → (xs ++ (if b then name ∷ [] else [])) ++ ys ≡ xs ++ (if b then name ∷ ys else ys)
glue true name xs ys = append_assoc xs (name ∷ []) ys
glue false name xs ys = rw append-nil

hosts_in-add_to_groups :
    (g name : String) (hostgroups : List String) (groups : List (String × List String))
    → hosts_in g (add_to_groups name hostgroups groups)
      ≡ hosts_in g groups ++ listed g name hostgroups
unfolding add_to_groups listed
hosts_in-add_to_groups g name [] groups = sym (append-nil (hosts_in g groups))
hosts_in-add_to_groups g name (group ∷ hostgroups) groups =
    hosts_in-add_to_groups g name hostgroups (add_name (group_name group) name groups)
    ∙ ap (λ xs. xs ++ listed g name hostgroups) (hosts_in-add_name g (group_name group) name groups)
    ∙ glue (group_name group =ₛ g) name (hosts_in g groups) (listed g name hostgroups)

hosts_in-collect :
    (g : String) (hosts : List Host) (groups : List (String × List String))
    → hosts_in g (collect hosts groups) ≡ hosts_in g groups ++ listings g hosts
unfolding collect listings
hosts_in-collect g [] groups = sym (append-nil (hosts_in g groups))
hosts_in-collect g (host ∷ hosts) groups =
    hosts_in-collect g hosts (add_to_groups host.name (distinct host.groups) groups)
    ∙ ap (λ xs. xs ++ listings g hosts)
        (hosts_in-add_to_groups g host.name (distinct host.groups) groups)
    ∙ append_assoc (hosts_in g groups) (listed g host.name (distinct host.groups))
        (listings g hosts)

hosts_in-without_meta :
    (g : String) (groups : List (String × List String))
    → (g =ₛ "_meta") ≡ false
    → hosts_in g (without_meta groups) ≡ hosts_in g groups
unfolding hosts_in without_meta
hosts_in-without_meta g [] other = refl
hosts_in-without_meta g ((key, names) ∷ groups) other =
    ground
      (arith, hosts_in-without_meta g groups, eq_iff key g, eq_iff key "_meta", eq_iff g "_meta")

pub query_list-listings :
    (g : String) (hosts : List Host)
    → (g =ₛ "_meta") ≡ false
    → hosts_in g (query_list hosts).groups ≡ listings g hosts
unfolding query_list hosts_in
query_list-listings g hosts other =
    hosts_in-without_meta g (collect hosts []) other ∙ hosts_in-collect g hosts []

member-distinct : (x : String) (groups : List String) → member x (distinct groups) ≡ member x groups
unfolding member distinct
member-distinct x [] = refl
member-distinct x (g ∷ groups) = ground (arith, member-distinct x groups, eq_iff g x)

listed-distinct :
    (x name : String) (groups : List String)
    → listed x name (distinct groups)
      ≡ only_if (member x groups && not (x =ₛ "")) name
        ++ only_if (member "" groups && (x =ₛ "all")) name
unfolding member distinct listed group_name
listed-distinct x name [] = refl
listed-distinct x name (g ∷ groups) = elim (Bool-cases (member g groups)) [
  | inl there ↦ rw (there, listed-distinct x name groups) (ground (arith, eq_iff g x, eq_iff g ""))
  | inr new ↦
      rw (new, listed, listed-distinct x name groups)
        (ground (arith, eq_iff g x, eq_iff g "", eq_iff "all" x, eq_iff x "all", eq_iff x ""))
]

listings-members : (g : String) (hosts : List Host) → listings g hosts ≡ members g hosts
unfolding listings members
listings-members g [] = refl
listings-members g (host ∷ hosts) =
    rw (listed-distinct g host.name host.groups, listings-members g hosts)

-- A group other than `_meta` lists, in the order of the hosts, every host that names the group, once
-- however often it names it. The empty name counts as `all`, besides that name itself: a host that
-- has both is in `all` twice.
pub query_list-members :
    (g : String) (hosts : List Host)
    → (g =ₛ "_meta") ≡ false
    → hosts_in g (query_list hosts).groups ≡ members g hosts
query_list-members g hosts other = query_list-listings g hosts other ∙ listings-members g hosts
