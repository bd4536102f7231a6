-- ===== src/Inventory/Layout/Repeated.antt =====
-- A run of `build_hostnames` for addresses, once more over the document that its assignment of roles
-- has made.
use mathlib.Core.Path.{subst}
use factory_pattern_design.Base.{
  ◌+◌, String, Bool, true, false, ◌≡◌, refl, sym, ◌∙◌, ap, none, some, List, [], ◌∷◌, arith, inl,
  inr, All,
}
use factory_pattern_design.Base.Result.{Result, ok, ok-injective}
use factory_pattern_design.Yaml.{Value, Fields, end, field, keys, has_key, insert, update}
use factory_pattern_design.Yaml.Distinct.{Distinct, member-keys}
use factory_pattern_design.Yaml.Joined.{
  joined, joined-end, joined_assoc, has_key-joined, insert-new, Distinct-joined,
}
use factory_pattern_design.Inventory.Settings.{Settings}
use factory_pattern_design.Inventory.Hosts.{
  Scan, addresses, add_ip, change_host, change_hosts, Existing, load_existing, build_hostnames,
}
use factory_pattern_design.Inventory.Hosts.Naming.{IdsBelow}
use factory_pattern_design.Inventory.Layout.{Layout, render, restrict, with_masters, assigned}
use factory_pattern_design.Inventory.Layout.Same.{restrict_same, update_same}
use factory_pattern_design.Inventory.Hosts.Additions.{IsAddress, IsServed}
use factory_pattern_design.Inventory.Hosts.Growth.{Continues, AllServed}
use factory_pattern_design.Inventory.Layout.Reloaded.{load_existing-hosts, load_existing-render}
use factory_pattern_design.Inventory.Layout.{fresh}
use factory_pattern_design.Inventory.Hosts.Growth.{IsPlain, build_hostnames_grows}
use factory_pattern_design.Inventory.Hosts.Building.{build_hostnames-Distinct}

-- A mapping that has a second one behind it takes nothing new from itself.
update-joined : (d e acc : Fields) → update (joined d e) acc ≡ update e (update d acc)
unfolding update joined
update-joined end e acc = refl
update-joined (field k v d) e acc = update-joined d e (insert k v acc)

Distinct-joined_left : (d e : Fields) → Distinct (keys (joined d e)) → Distinct (keys d)
unfolding joined keys
Distinct-joined_left end e u = tt
Distinct-joined_left (field k v d) e (new, u) = (
  ground (arith, member-keys k (joined d e), has_key-joined k d e, member-keys k d),
  Distinct-joined_left d e u,
)

update-new : (d e : Fields) → Distinct (keys (joined d e)) → update e d ≡ joined d e
unfolding update joined
update-new d end u = sym (joined-end d)
update-new d (field k v e) u =
    let free = Distinct-joined d k v e u in
    let step = insert-new k v d free in
    let assoc = joined_assoc d (field k v end) e in
    ap (update e) step
    ∙ update-new (joined d (field k v end)) e (subst (λ x. Distinct (keys x)) (sym assoc) u)
    ∙ assoc

-- The hosts of an assignment of hosts that continue those of the layout.
pub assigned-all :
    (settings : Settings) (hosts : Fields) (l : Layout)
    → Distinct (keys hosts)
    → Continues l.all hosts
    → (assigned settings hosts l).all ≡ hosts
unfolding assigned with_masters
assigned-all settings hosts l u (more, p) =
    let distinct = subst (λ x. Distinct (keys x)) p u in
    let kept : restrict (keys hosts) l.all ≡ l.all = restrict_same (keys hosts) l.all (λ h e.
      ground (arith, member-keys h hosts, ap (has_key h) p, has_key-joined h l.all more, e)) in
    ap (update hosts) kept
    ∙ ap (λ x. update x l.all) p
    ∙ update-joined l.all more l.all
    ∙ ap (update more)
        (update_same l.all l.all (Distinct-joined_left l.all more distinct) (λ k v e. e))
    ∙ update-new l.all more distinct
    ∙ sym p

module _ (settings : Settings) (check_output : String → Result String) where
  change_host-served :
      (host : String) (parts : String × String) (s : Scan)
      → IsAddress host
      → addresses host ≡ ok parts
      → IsServed host parts.0 s.all_hosts
      → (s' : Scan) × (change_host settings check_output host s ≡ ok s')
        × (s'.all_hosts ≡ s.all_hosts)
  unfolding change_host add_ip
  change_host-served host parts s (c, p, q) e (inl there) = (
    record s { ip = some parts.0; access_ip = some parts.1 },
    ground (arith, p, q, e, there),
    refl,
  )
  change_host-served host parts s (c, p, q) e (inr found) = (
    record s { ip = some parts.0; access_ip = some parts.1 },
    ground (arith, p, q, e, found),
    refl,
  )

  change_hosts-served :
      (hosts : List String) (s : Scan)
      → All IsAddress hosts
      → AllServed hosts s.all_hosts
      → (s' : Scan) × (change_hosts settings check_output hosts s ≡ ok s')
        × (s'.all_hosts ≡ s.all_hosts)
  unfolding change_hosts
  change_hosts-served [] s h g = (s, refl, refl)
  change_hosts-served (host ∷ hosts) s (a, h) ((parts, e, served), g) =
      let (m, p, same) = change_host-served host parts s a e served in
      let (s', q, r) = change_hosts-served hosts m h (subst (AllServed hosts) (sym same) g) in
      (s', rw p q, r ∙ same)

module _ (settings : Settings) (check_output : String → Result String)
    (made_up : settings.use_real_hostname ≡ false) (plain : IsPlain settings.host_prefix) where
  build_hostnames-assigned :
      (yaml_config : Value) (expanded : List String) (load : Bool) (l : Layout) (hosts : Fields)
      (found : Existing)
      → All IsAddress expanded
      → load_existing settings yaml_config load ≡ ok found
      → found.hosts ≡ l.all
      → build_hostnames settings check_output yaml_config expanded load ≡ ok hosts
      → build_hostnames settings check_output (render (assigned settings hosts l)) expanded true
        ≡ ok hosts
  unfolding build_hostnames
  build_hostnames-assigned yaml_config expanded load l hosts found all loaded same e =
      let u = build_hostnames-Distinct settings check_output yaml_config expanded load hosts e in
      let r =
        build_hostnames_grows settings check_output made_up plain yaml_config expanded load hosts
          all e in
      let start = ap (λ (x : Existing). x.hosts) (ok-injective (sym r.loaded ∙ loaded)) ∙ same in
      let now =
        assigned-all settings hosts l u (subst (λ d. Continues d hosts) start r.continues) in
      let (again, p, q) =
        load_existing-render settings (assigned settings hosts l) r.next
          (subst (λ d. Distinct (keys d)) (sym now) u)
          (subst (IdsBelow settings.host_prefix r.next) (sym now) r.below) in
      let (s, w, x) =
        change_hosts-served settings check_output expanded
          (record {
            all_hosts = again.hosts;
            next_host_id = again.highest_host_id + 1;
            hostname = none;
            ip = none;
            access_ip = none;
          })
          all (subst (AllServed expanded) (sym (q ∙ now)) r.served) in
      rw (p, w) (ap ok (x ∙ q ∙ now))

  -- The hosts of a run that adds to the document of a layout.
  pub build_hostnames_again :
      (expanded : List String) (l : Layout) (hosts : Fields)
      → Distinct (keys l.all)
      → All IsAddress expanded
      → build_hostnames settings check_output (render l) expanded true ≡ ok hosts
      → build_hostnames settings check_output (render (assigned settings hosts l)) expanded true
        ≡ ok hosts
  build_hostnames_again expanded l hosts u all e =
      let r =
        build_hostnames_grows settings check_output made_up plain (render l) expanded true hosts all
          e in
      build_hostnames-assigned (render l) expanded true l hosts r.found all r.loaded
        (load_existing-hosts settings l r.found u r.loaded) e

  -- The hosts of a first run.
  pub build_hostnames_anew :
      (expanded : List String) (hosts : Fields)
      → All IsAddress expanded
      → build_hostnames settings check_output (render fresh) expanded false ≡ ok hosts
      → build_hostnames settings check_output (render (assigned settings hosts fresh)) expanded true
        ≡ ok hosts
  unfolding load_existing
  build_hostnames_anew expanded hosts all e =
      build_hostnames-assigned (render fresh) expanded false fresh hosts _ all refl refl e
