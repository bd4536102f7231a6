-- ===== src/Inventory/Builder/Deletes.antt =====
-- Runs that remove hosts from an inventory.
use factory_pattern_design.Base.{
  String, true, false, ◌≡◌, refl, sym, ◌∙◌, ap, ◌&&◌, ◌||◌, none, some, List, [], ◌∷◌, ◌++◌, ◌+◌,
  ◌=ₛ◌, arith, Bool-cases, inl, inr, if◌then◌else◌,
}
use mathlib.Core.List.{append_assoc, append-nil}
use factory_pattern_design.Base.Text.{member}
use factory_pattern_design.Base.Result.{Result, ok}
use factory_pattern_design.Yaml.{Fields, keys, has_key, lookup}
use factory_pattern_design.Yaml.Laws.{lookup-eq-none, lookup-of_has_key}
use factory_pattern_design.Yaml.Distinct.{Distinct, member-keys}
use factory_pattern_design.Inventory.Settings.{Settings, protected_names}
use factory_pattern_design.Inventory.Hosts.{Scan, Existing, load_existing, build_hostnames}
use factory_pattern_design.Inventory.Hosts.Erased.{
  dashed, all_dashed, erase_all, erase_all-Distinct, lookup-erase_all, has_key-erase_all, AllThere,
  change_hosts-dashed, dashed-no_command,
}
use factory_pattern_design.Inventory.Ranges.{Addresses, expand, is_range, range2ips, range2ips_onto}
use factory_pattern_design.Inventory.Layout.{Layout, render, restrict, with_masters, assigned}
use factory_pattern_design.Inventory.Layout.Reloaded.{load_existing-hosts}
use factory_pattern_design.Inventory.Layout.Same.{lookup-update}
use factory_pattern_design.Inventory.Layout.Separation.{unlisted_has_no_role}
use factory_pattern_design.Inventory.Builder.{World, init, run_hosts}
use factory_pattern_design.Inventory.Builder.Repeats.{Writes}
use factory_pattern_design.Inventory.Builder.Runs.{
  ensure-render, load_config-named, change_inventory-render,
}

expand-dashed : (lib : Addresses) (name : String) → expand lib (dashed name) ≡ ok (dashed name ∷ [])
unfolding expand is_range
expand-dashed lib name = ground arith

range2ips_onto-dashed :
    (lib : Addresses) (names done : List String)
    → range2ips_onto lib done (all_dashed names) ≡ ok (done ++ all_dashed names)
unfolding range2ips_onto all_dashed
range2ips_onto-dashed lib [] done = rw append-nil refl
range2ips_onto-dashed lib (name ∷ names) done = rw (expand-dashed lib name) (
    range2ips_onto-dashed lib names (done ++ dashed name ∷ [])
    ∙ ap ok (append_assoc done (dashed name ∷ []) (all_dashed names)))

range2ips-dashed :
    (lib : Addresses) (names : List String)
    → range2ips lib (all_dashed names) ≡ ok (all_dashed names)
unfolding range2ips
range2ips-dashed lib names = range2ips_onto-dashed lib names []

build_hostnames-dashed :
    (settings : Settings) (check_output : String → Result String) (names : List String) (l : Layout)
    (found : Existing)
    → load_existing settings (render l) true ≡ ok found
    → Distinct (keys l.all)
    → Distinct names
    → AllThere names l.all
    → build_hostnames settings check_output (render l) (all_dashed names) true
      ≡ ok (erase_all names l.all)
unfolding build_hostnames
build_hostnames-dashed settings check_output names l found e u once there =
    let same = load_existing-hosts settings l found u e in
    let start : Scan = record {
      all_hosts = found.hosts;
      next_host_id = found.highest_host_id + 1;
      hostname = none;
      ip = none;
      access_ip = none;
    } in
    rw (e, change_hosts-dashed settings check_output names start once (rw same there))
      (ap (λ d. ok (erase_all names d)) same)

module _ (settings : Settings) (names : List String) (l : Layout) (u : Distinct (keys l.all)) where
  abbrev left : Fields
  left = erase_all names l.all

  -- The hosts of the assignment for the hosts that are left.
  lookup-left :
      (h : String)
      → member h protected_names ≡ false
      → lookup h (assigned settings left l).all ≡ (if member h names then none else lookup h l.all)
  unfolding assigned with_masters
  lookup-left h plain = elim (Bool-cases (has_key h left)) [
    | inl t ↦
        let (v, p) = lookup-of_has_key h left t in
        lookup-update h v left (restrict (keys left) l.all) (erase_all-Distinct names l.all u) p
        ∙ sym p
        ∙ lookup-erase_all h names l.all u
    | inr f ↦
        lookup-eq-none h (assigned settings left l).all
          ((unlisted_has_no_role settings left l h (rw (member-keys h left, f, plain) refl)).0)
        ∙ sym (lookup-eq-none h left f)
        ∙ lookup-erase_all h names l.all u
  ]

  no_role-left :
      (h : String)
      → member h protected_names ≡ false
      → let a = assigned settings left l in
        (member h names
          && (has_key h a.etcd
              || (has_key h a.kube_control_plane
                  || (has_key h a.kube_node || has_key h a.calico_rr))))
        ≡ false
  no_role-left h plain = elim (Bool-cases (member h names)) [
    | inl t ↦
        let gone : has_key h left ≡ false = has_key-erase_all h names l.all u ∙ rw t refl in
        let (_, e, c, n, r) =
          unlisted_has_no_role settings left l h (rw (member-keys h left, gone, plain) refl) in
        rw (t, e, c, n, r) refl
    | inr f ↦ rw f refl
  ]

-- With a configuration file that has a name, can be written and holds the document of a layout with
-- hosts of distinct names, which can be loaded: a run whose arguments are different names of
-- hosts, each behind a dash, succeeds and writes one document and nothing else, that of a layout
-- `a`. For every name `h` but the protected ones: `a` has neither the host nor a role for it if
-- it is one of the arguments, and else the host has the options that it had.
pub delete_run :
    (settings : Settings) (world : World) (path : String) (name : String) (names : List String)
    (l : Layout) (found : Existing) (h : String)
    → (path =ₛ "") ≡ false
    → world.writable path ≡ true
    → world.read_yaml path ≡ ok (render l)
    → load_existing settings (render l) true ≡ ok found
    → Distinct (keys l.all)
    → Distinct (name ∷ names)
    → AllThere (name ∷ names) l.all
    → member h protected_names ≡ false
    → (a : Layout) × Writes path
        (render a)
        (init settings world (some path) (all_dashed (name ∷ names)))
      × (lookup h a.all ≡ (if member h (name ∷ names) then none else lookup h l.all))
      × ((member h (name ∷ names)
            && (has_key h a.etcd
                || (has_key h a.kube_control_plane
                    || (has_key h a.kube_node || has_key h a.calico_rr))))
          ≡ false)
unfolding init run_hosts all_dashed
delete_run settings world path name names l found h named writable y loaded u once there plain = (
  assigned settings (erase_all (name ∷ names) l.all) l,
  rw
      (
        dashed-no_command name,
        load_config-named settings world path named writable (render l) [] y,
        ensure-render,
      )
      (change_inventory-render settings world path named writable (all_dashed (name ∷ names))
        (all_dashed (name ∷ names)) true l (erase_all (name ∷ names) l.all) []
        (range2ips-dashed world.addresses (name ∷ names))
        (build_hostnames-dashed settings world.check_output (name ∷ names) l found loaded u once
          there)),
  lookup-left settings (name ∷ names) l u h plain,
  no_role-left settings (name ∷ names) l u h plain,
)
