-- ===== src/Scripts/Aws/Groups.antt =====
-- What a search that succeeds has found.
use mathlib.Core.Path.{subst}
use factory_pattern_design.Base.{
  String, Bool, true, false, ◌≡◌, refl, sym, ◌∙◌, Option, none, some, List, [], ◌∷◌, ◌++◌, map,
  ◌=ₛ◌, if◌then◌else◌,
}
use factory_pattern_design.Base.Result.{
  key_error, type_error, or_raise, ok, bind-eq-ok, ok-injective, or_raise-eq-ok,
}
use factory_pattern_design.Yaml.{dict, Fields, end, field, insert, lookup}
use factory_pattern_design.Yaml.Laws.{lookup-insert}
use factory_pattern_design.Scripts.Aws.{
  Instance, World, Hostvars, groups, filters, dns_name, ansible_host, add_instances, search_group,
  search_groups, set_groups, document, search_tags,
}
use factory_pattern_design.Scripts.Aws.Service.{
  first_labels, items_of, name_of, address_of, query_of, IsVarsOf, last_named, VarsFor, IsDocument,
}
use factory_pattern_design.Scripts.Aws.Labels.{
  texts-items_of, is_public_lem, dns_name_lem, filters_lem, add_labels-first, after_labels,
  after_labels-HasLabels,
}

module _ (world : World) where
  ansible_host-IsVarsOf :
      (i : Instance) (vars : Fields) → ansible_host world i ≡ ok vars → IsVarsOf world i vars
  unfolding ansible_host
  ansible_host-IsVarsOf i vars e =
      let (tags, tagged, read) = bind-eq-ok (or_raise i.tags type_error) _ e in
      let read' : after_labels (first_labels tags)
            (field "ansible_ssh_host" (address_of world i) end)
          ≡ ok vars =
        sym (add_labels-first tags _) ∙ (rw (is_public_lem world) at read) in
      let (address, labels) =
        after_labels-HasLabels (first_labels tags) (address_of world i) vars read' in
      record { address = address; tags = tags; tagged = or_raise-eq-ok _ _ tagged; labels = labels }

  -- The variables of every name.
  abbrev AllVars : (String → Option Instance) → Hostvars → Type 0
  AllVars last hostvars = (name : String) → VarsFor world (last name) name hostvars

  VarsFor-lookup :
      (o : Option Instance) (name : String) (before after : Hostvars)
      → lookup name after ≡ lookup name before
      → VarsFor world o name before
      → VarsFor world o name after
  VarsFor-lookup none name before after same p = same ∙ p
  VarsFor-lookup (some i) name before after same (vars, there, h) = (vars, same ∙ there, h)

  VarsFor-insert :
      (b : Bool) (i : Instance) (vars : Fields) (before : Option Instance) (name : String)
      (hostvars after : Hostvars)
      → lookup name after ≡ (if b then some (dict vars) else lookup name hostvars)
      → IsVarsOf world i vars
      → VarsFor world before name hostvars
      → VarsFor world (if b then some i else before) name after
  VarsFor-insert true i vars before name hostvars after e h p = (vars, e, h)
  VarsFor-insert false i vars before name hostvars after e h p =
      VarsFor-lookup before name hostvars after e p

  -- What one query adds.
  record Added (instances : List Instance) (last : String → Option Instance)
      (result : List String × Hostvars) : Type 0 where
    pub names : result.0 ≡ map (name_of world) instances
    pub vars : AllVars (λ name. last_named world name instances (last name)) result.1

  add_instances_lem :
      (instances : List Instance) (last : String → Option Instance) (hostvars : Hostvars)
      (result : List String × Hostvars)
      → add_instances world instances hostvars ≡ ok result
      → AllVars last hostvars
      → Added instances last result
  unfolding add_instances last_named
  add_instances_lem [] last hostvars result e h =
      subst (Added [] last) (ok-injective e) (record { names = refl; vars = h })
  add_instances_lem (i ∷ instances) last hostvars result e h =
      let (vars, read, e1) = bind-eq-ok (ansible_host world i) _ e in
      let hostvars' = insert (dns_name world i) (dict vars) hostvars in
      let ((names, after), done, e2) = bind-eq-ok (add_instances world instances hostvars') _ e1 in
      let later =
        add_instances_lem instances (λ name. if name_of world i =ₛ name then some i else last name)
          hostvars' (names, after) done
          (λ name.
            VarsFor-insert (name_of world i =ₛ name) i vars (last name) name hostvars hostvars'
              (lookup-insert name (dns_name world i) (dict vars) hostvars ∙ rw dns_name_lem)
              (ansible_host-IsVarsOf i vars read) (h name)) in
      subst (Added (i ∷ instances) last) (ok-injective e2)
        (record { names = rw (dns_name_lem, later.names); vars = later.vars })

  last_named-append :
      (name : String) (xs ys : List Instance) (before : Option Instance)
      → last_named world name (xs ++ ys) before
        ≡ last_named world name ys (last_named world name xs before)
  unfolding last_named
  last_named-append name [] ys before = refl
  last_named-append name (x ∷ xs) ys before = last_named-append name xs ys _

  module _ (region : String) (known : world.getenv "REGION" ≡ some region) where
    search_group_lem :
        (group : String) (last : String → Option Instance) (hostvars : Hostvars)
        (result : List String × Hostvars)
        → search_group world group hostvars ≡ ok result
        → AllVars last hostvars
        → (instances : List Instance) × (world.query region (query_of world group) ≡ ok instances)
          × Added instances last result
    unfolding search_group
    search_group_lem group last hostvars result e h =
        let (instances, asked, added) =
          bind-eq-ok (world.query region (filters world group)) _ (rw known at e) in
        (
          instances,
          (rw filters_lem at asked),
          add_instances_lem instances last hostvars result added h,
        )

    -- What is found for some groups, one query after the other.
    data Found
        : List String
          → (String → Option Instance)
          → List (String × List String)
          → Hostvars
          → Type 0 where
      finished :
          (last : String → Option Instance) (hostvars : Hostvars)
          → AllVars last hostvars
          → Found [] last [] hostvars
      next :
          (group : String) (wanted : List String) (last : String → Option Instance)
          (found : List (String × List String)) (hostvars : Hostvars) (names : List String)
          (instances : List Instance)
          → world.query region (query_of world group) ≡ ok instances
          → names ≡ map (name_of world) instances
          → Found wanted (λ name. last_named world name instances (last name)) found hostvars
          → Found (group ∷ wanted) last ((group, names) ∷ found) hostvars

    search_groups_lem :
        (wanted : List String) (last : String → Option Instance) (before : Hostvars)
        (result : List (String × List String) × Hostvars)
        → search_groups world wanted before ≡ ok result
        → AllVars last before
        → Found wanted last result.0 result.1
    unfolding search_groups
    search_groups_lem [] last before result e h =
        subst (λ (r : List (String × List String) × Hostvars). Found [] last r.0 r.1)
          (ok-injective e) (finished last before h)
    search_groups_lem (group ∷ wanted) last before result e h =
        let ((names, middle), one, e1) = bind-eq-ok (search_group world group before) _ e in
        let ((found, after), rest, e2) = bind-eq-ok (search_groups world wanted middle) _ e1 in
        let (instances, asked, added) = search_group_lem group last before (names, middle) one h in
        subst (λ (r : List (String × List String) × Hostvars). Found (group ∷ wanted) last r.0 r.1)
          (ok-injective e2)
          (next group wanted last found after names instances asked added.names
            (search_groups_lem wanted _ middle (found, after) rest added.vars))

    Found-IsDocument :
        (found : List (String × List String)) (hostvars : Hostvars)
        → Found groups (λ name. none) found hostvars
        → IsDocument world (document found hostvars)
    unfolding document set_groups insert items_of
    Found-IsDocument _ _
          (next _ _ _ _ _ names1 control asked1 e1 (
            next _ _ _ _ _ names2 node asked2 e2
              (next _ _ _ _ _ names3 etcd asked3 e3 (finished _ hostvars h)))) =
        record {
          region = region;
          known = known;
          control = control;
          control_asked = asked1;
          node = node;
          node_asked = asked2;
          etcd = etcd;
          etcd_asked = asked3;
          hostvars = hostvars;
          written = rw (e1, e2, e3, texts-items_of, texts-items_of, texts-items_of) refl;
          vars = λ name. rw (last_named-append, last_named-append) (h name);
        }

-- A search that succeeds prints the document of what the service lists: `REGION` is set, and each group
-- has the names of the instances that the service lists for its query, in order. The variables of
-- each name are those of the last instance of that name: its address, and the labels of its first
-- tag with labels. With `VPC_VISIBILITY` set to `public`, names and addresses are the public ones.
pub search_tags_lem :
    (world : World) (hosts : Fields) → search_tags world ≡ ok hosts → IsDocument world hosts
unfolding search_tags search_groups search_group lookup
search_tags_lem world hosts e =
    let ((found, hostvars), done, e') = bind-eq-ok (search_groups world groups end) _ e in
    let (one, first, _) = bind-eq-ok (search_group world "kube_control_plane" end) _ done in
    let (region, known, _) =
      bind-eq-ok (or_raise (world.getenv "REGION") (key_error "REGION")) _ first in
    subst (IsDocument world) (ok-injective e') (
      Found-IsDocument world region (or_raise-eq-ok _ _ known) found hostvars (
        search_groups_lem world region (or_raise-eq-ok _ _ known) groups (λ name. none) end
          (found, hostvars) done (λ name. refl)))
