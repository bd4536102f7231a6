-- ===== src/Scripts/Aws/Answers.antt =====
-- When a search succeeds.
use factory_pattern_design.Base.{
  String, ◌≡◌, refl, Option, none, some, List, [], ◌∷◌, All, ◌=ₛ◌, if◌then◌else◌,
}
use factory_pattern_design.Base.Text.{split, strip}
use factory_pattern_design.Base.Result.{ok}
use factory_pattern_design.Yaml.{Fields, field, end, str, insert, dict}
use factory_pattern_design.Scripts.Aws.{
  Tag, Instance, World, Hostvars, groups, dns_name, vpc_visibility, ansible_host, add_instances,
  read_labels, search_group, search_groups, document, search_tags,
}
use factory_pattern_design.Scripts.Aws.Groups.{search_tags_lem}
use factory_pattern_design.Scripts.Aws.Service.{first_labels, query_of, IsDocument}
use factory_pattern_design.Scripts.Aws.Labels.{after_labels, add_labels-first, filters_lem}

-- A label with one `=`.
abbrev pub IsPair : String → Type 0
IsPair label = (key : String) × (value : String) × (split b'=' (strip label) ≡ key ∷ value ∷ [])

abbrev pub HasPairs : Option String → Type 0
HasPairs none = Unit
HasPairs (some text) = All IsPair (split b',' text)

-- An instance with tags, the labels of which, if it has any, are pairs.
abbrev pub IsReadable : Instance → Type 0
IsReadable instance' =
    (tags : List Tag) × (instance'.tags ≡ some tags) × HasPairs (first_labels tags)

-- The service answers the query of the group with instances that can be read.
abbrev pub IsAnswered : World → String → String → Type 0
IsAnswered world region group =
    (instances : List Instance) × (world.query region (query_of world group) ≡ ok instances)
    × All IsReadable instances

read_labels-ok :
    (labels : List String) (d : Fields)
    → All IsPair labels
    → (d' : Fields) × (read_labels labels d ≡ ok d')
unfolding read_labels
read_labels-ok [] d h = (d, refl)
read_labels-ok (label ∷ labels) d ((key, value, parts), h) =
    let (d', e) = read_labels-ok labels (insert key (str value) d) h in (d', rw parts e)

after_labels-ok :
    (first : Option String) (host : Fields)
    → HasPairs first
    → (host' : Fields) × (after_labels first host ≡ ok host')
after_labels-ok none host h = (host, refl)
after_labels-ok (some text) host h =
    let (labels, e) = read_labels-ok (split b',' text) end h in
    (insert "node_labels" (dict labels) host, rw e refl)

module _ (world : World) where
  ansible_host-ok :
      (instance' : Instance)
      → IsReadable instance'
      → (host : Fields) × (ansible_host world instance' ≡ ok host)
  unfolding ansible_host
  ansible_host-ok instance' (tags, there, h) =
      let (host, e) =
        after_labels-ok (first_labels tags)
          (field "ansible_ssh_host"
            (if vpc_visibility world =ₛ "public"
              then instance'.public_ip_address
              else instance'.private_ip_address)
            end)
          h in
      (host, rw (there, add_labels-first) e)

  add_instances-ok :
      (instances : List Instance) (hostvars : Hostvars)
      → All IsReadable instances
      → (result : List String × Hostvars) × (add_instances world instances hostvars ≡ ok result)
  unfolding add_instances
  add_instances-ok [] hostvars h = (([], hostvars), refl)
  add_instances-ok (i ∷ instances) hostvars (p, h) =
      let (host, e) = ansible_host-ok i p in
      let ((names, later), e') =
        add_instances-ok instances (insert (dns_name world i) (dict host) hostvars) h in
      ((dns_name world i ∷ names, later), rw (e, e') refl)

  module _ (region : String) (known : world.getenv "REGION" ≡ some region) where
    search_group-ok :
        (group : String) (hostvars : Hostvars)
        → IsAnswered world region group
        → (result : List String × Hostvars) × (search_group world group hostvars ≡ ok result)
    unfolding search_group
    search_group-ok group hostvars (instances, asked, h) =
        let (result, e) = add_instances-ok instances hostvars h in
        (result, rw (known, filters_lem, asked) e)

    search_groups-ok :
        (wanted : List String) (hostvars : Hostvars)
        → All (IsAnswered world region) wanted
        → (result : List (String × List String) × Hostvars) × (search_groups world wanted hostvars
            ≡ ok result)
    unfolding search_groups
    search_groups-ok [] hostvars h = (([], hostvars), refl)
    search_groups-ok (group ∷ wanted) hostvars (p, h) =
        let ((names, middle), e) = search_group-ok group hostvars p in
        let ((found, after), e') = search_groups-ok wanted middle h in
        (((group, names) ∷ found, after), rw (e, e') refl)

-- If `REGION` is set and the service answers the queries of the three groups with instances that have
-- tags, the node labels of which are pairs with one `=`, then a search ends without an exception,
-- and prints the document of what the service lists: in each group the names of the instances of its
-- query, in order, and for each name the address and the labels of the last instance of that name.
pub search_tags-ok :
    (world : World) (region : String)
    → world.getenv "REGION" ≡ some region
    → All (IsAnswered world region) ("kube_control_plane" ∷ "kube_node" ∷ "etcd" ∷ [])
    → (hosts : Fields) × (search_tags world ≡ ok hosts) × IsDocument world hosts
unfolding search_tags
search_tags-ok world region known h =
    let ((found, hostvars), e) = search_groups-ok world region known groups end h in
    let e' : search_tags world ≡ ok (document found hostvars) = rw e refl in
    (document found hostvars, e', search_tags_lem world (document found hostvars) e')
