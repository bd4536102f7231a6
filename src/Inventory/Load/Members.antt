-- ===== src/Inventory/Load/Members.antt =====
-- The loops of `load_file` on the document of a flat inventory.
use factory_pattern_design.Base.{
  String, true, false, ◌≡◌, refl, ap, none, some, List, [], ◌∷◌, ◌=ₛ◌, if◌then◌else◌, arith, eq_iff,
  eq_refl, Bool-cases, inl, inr,
}
use factory_pattern_design.Base.Result.{key_error, or_raise, Result, ok}
use factory_pattern_design.Yaml.{
  Value, null, bool, num, list, str, dict, Fields, end, field, lookup, insert, has_key, has, at,
  put, subscript, mapping,
}
use factory_pattern_design.Inventory.Groups.{
  ensure_group, ensure_required_groups, add_host_to_group,
}
use factory_pattern_design.Inventory.Load.{load_hosts, load_groups, loaded_entry}
use factory_pattern_design.Inventory.Load.Flat.{
  Flat, children_of, document_of, members_of, require, join_group, ip_of, with_hosts, with_groups,
  HaveIps, IsLoadable,
}

has_key-children :
    (g : String) (groups : List (String × Fields))
    → has_key g (children_of groups) ≡ elim (members_of g groups) [ none ↦ false | some m ↦ true ]
unfolding has_key members_of
has_key-children g [] = refl
has_key-children g ((k, m) ∷ groups) = ground (arith, has_key-children g groups)

-- What requiring a group does to the document.
children-require :
    (g : String) (groups : List (String × Fields))
    → (g =ₛ "k8s_cluster") ≡ false
    → (if has_key g (children_of groups)
        then children_of groups
        else insert g (dict (field "hosts" (dict end) end)) (children_of groups))
      ≡ children_of (require g groups)
unfolding has_key insert require
children-require g [] h = rw h refl
children-require g ((k, m) ∷ groups) h = ground (arith, eq_iff k g, children-require g groups h)

children-join :
    (g host : String) (groups : List (String × Fields)) (m : Fields)
    → (g =ₛ "k8s_cluster") ≡ false
    → members_of g groups ≡ some m
    → insert g (dict (field "hosts" (dict (insert host null m)) end)) (children_of groups)
      ≡ children_of (join_group g host groups)
unfolding insert members_of join_group
children-join g host [] m h e = absurd (cc)
children-join g host ((k, n) ∷ groups) m h e =
    ground (arith, eq_iff k g, children-join g host groups m h)

lookup-children :
    (g : String) (groups : List (String × Fields)) (m : Fields)
    → (g =ₛ "k8s_cluster") ≡ false
    → members_of g groups ≡ some m
    → lookup g (children_of groups) ≡ some (dict (field "hosts" (dict m) end))
unfolding lookup members_of
lookup-children g [] m h e = absurd (cc)
lookup-children g ((k, n) ∷ groups) m h e = ground (arith, eq_iff k g, lookup-children g groups m h)

abbrev nested : Fields → Fields → Result Value
nested hosts children = ok (
    dict
      (field "all" (dict (field "hosts" (dict hosts) (field "children" (dict children) end))) end))

ensure_group-document :
    (g : String) (f : Flat)
    → (g =ₛ "all") ≡ false
    → (g =ₛ "k8s_cluster") ≡ false
    → ensure_group g (document_of f) ≡ ok (document_of (record f { groups = require g f.groups }))
unfolding ensure_group at put subscript lookup insert has
ensure_group-document g f h k = elim (Bool-cases (has_key g (children_of f.groups))) [
  | inl there ↦ rw (h, there) (ap (nested f.hosts) (rw there at (children-require g f.groups k)))
  | inr missing ↦
      rw (h, missing) (ap (nested f.hosts) (rw missing at (children-require g f.groups k)))
]

add_to_all :
    (host : String) (opts : Value) (f : Flat)
    → add_host_to_group "all" host opts (document_of f)
      ≡ ok (document_of (record f { hosts = insert host opts f.hosts }))
unfolding add_host_to_group at put subscript lookup insert
add_to_all host opts f = refl

add_to_group :
    (g host : String) (m : Fields) (f : Flat)
    → (g =ₛ "all") ≡ false
    → (g =ₛ "k8s_cluster") ≡ false
    → (g =ₛ "k8s_cluster:children") ≡ false
    → members_of g f.groups ≡ some m
    → add_host_to_group g host (str "") (document_of f)
      ≡ ok (document_of (record f { groups = join_group g host f.groups }))
unfolding add_host_to_group at put subscript lookup insert
add_to_group g host m f a k c e =
    rw (a, c, lookup-children g f.groups m k e)
      (ap (nested f.hosts) (children-join g host f.groups m k e))

pub members_of-require :
    (g : String) (groups : List (String × Fields))
    → (m : Fields) × (members_of g (require g groups) ≡ some m)
unfolding members_of require
members_of-require g [] = (end, rw (eq_refl g) refl)
members_of-require g ((k, m) ∷ groups) = elim (Bool-cases (k =ₛ g)) [
  | inl e ↦ (m, rw (e, members_of, e) refl)
  | inr e ↦ let (n, there) = members_of-require g groups in (n, rw (e, members_of, e) there)
]

pub members_of-join :
    (g host : String) (groups : List (String × Fields)) (m : Fields)
    → members_of g groups ≡ some m
    → members_of g (join_group g host groups) ≡ some (insert host null m)
unfolding members_of join_group
members_of-join g host [] m e = absurd (cc)
members_of-join g host ((k, n) ∷ groups) m e = ground (arith, members_of-join g host groups m)

ip_found :
    (opts : Fields) (ip : Value)
    → lookup "ip" opts ≡ some ip
    → or_raise (lookup "ip" opts) (key_error "ip") ≡ ok (ip_of (dict opts))
ip_found opts ip e = rw (ip_of, e) refl

module _ (g : String) (a : (g =ₛ "all") ≡ false) (k : (g =ₛ "k8s_cluster") ≡ false)
    (c : (g =ₛ "k8s_cluster:children") ≡ false) where
  load_hosts-document :
      (hosts : Fields) (m : Fields) (f : Flat)
      → HaveIps hosts
      → members_of g f.groups ≡ some m
      → load_hosts g hosts (document_of f) ≡ ok (document_of (with_hosts g hosts f))
  unfolding load_hosts with_hosts subscript
  load_hosts-document end m f h e = refl
  load_hosts-document (field host (dict opts) hosts) m f ((ip, there), h) e =
      let entry = loaded_entry (ip_of (dict opts)) in
      let f1 = record f { hosts = insert host entry f.hosts } in
      let f2 = record f1 { groups = join_group g host f.groups } in
      rw (ip_found opts ip there, add_to_all host entry f, add_to_group g host m f1 a k c e)
        (load_hosts-document hosts (insert host null m) f2 h (members_of-join g host f.groups m e))
  load_hosts-document (field host null hosts) m f h e = absurd h
  load_hosts-document (field host (bool b) hosts) m f h e = absurd h
  load_hosts-document (field host (num n) hosts) m f h e = absurd h
  load_hosts-document (field host (str s) hosts) m f h e = absurd h
  load_hosts-document (field host (list items) hosts) m f h e = absurd h

pub load_groups-document :
    (groups : Fields) (f : Flat)
    → IsLoadable groups
    → load_groups groups (document_of f) ≡ ok (document_of (with_groups groups f))
unfolding load_groups with_groups ensure_required_groups mapping
load_groups-document end f h = refl
load_groups-document (field g (dict hosts) groups) f (a, k, c, ips, h) =
    let f1 = record f { groups = require g f.groups } in
    let (m, there) = members_of-require g f.groups in
    rw (ensure_group-document g f a k, load_hosts-document g a k c hosts m f1 ips there)
      (load_groups-document groups (with_hosts g hosts f1) h)
load_groups-document (field g null groups) f h = absurd h
load_groups-document (field g (bool b) groups) f h = absurd h
load_groups-document (field g (num n) groups) f h = absurd h
load_groups-document (field g (str s) groups) f h = absurd h
load_groups-document (field g (list items) groups) f h = absurd h
