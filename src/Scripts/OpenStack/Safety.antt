-- ===== src/Scripts/OpenStack/Safety.antt =====
-- What the clean-up may delete.
use factory_pattern_design.Base.{Bool, true, false, not, ◌≡◌, refl, List, [], All, if◌then◌else◌}
use factory_pattern_design.Base.Exec.{pure}
use factory_pattern_design.Scripts.OpenStack.{
  Item, Call, delete_server, delete_security_group, delete_port, delete_subnet, delete_network,
  remove_interface_from_router, Cloud, Settings, listed, fn_if_old, map_if_old, detach, free_subnet,
  delete_ports, free_ports, delete_network_if_internal, main,
}
use factory_pattern_design.Scripts.OpenStack.Keeps.{
  Keeps, Keeps-pure, Keeps-raise, Keeps-ask, Keeps-listed, Keeps-try_except, Keeps-bind, Keeps-each,
  Keeps-on_conflict, Keeps-call, Keeps-same, Keeps-try_same,
}
use factory_pattern_design.Scripts.OpenStack.Due.{IsOld, unreadable, skipped, due, treated}

module _ (settings : Settings) (cloud : Cloud) where
  -- The resource that a call is about.
  abbrev pub subject : Call → Item
  subject (delete_server item) = item
  subject (delete_security_group item) = item
  subject (delete_port item) = item
  subject (delete_subnet item) = item
  subject (delete_network item) = item
  subject (remove_interface_from_router r item) = item

  abbrev pub IsInternal : Call → Type 0
  IsInternal (delete_network item) = item.is_router_external ≡ false
  IsInternal c = Unit

  pub record IsAllowed (c : Call) : Type 0 where
    pub wanted : settings.dry_run ≡ false
    pub old : IsOld settings cloud (subject c)
    pub internal : IsInternal c

  allowed :
      (c : Call)
      → IsInternal c
      → settings.dry_run ≡ false
      → IsOld settings cloud (subject c)
      → IsAllowed c
  allowed c inside wet old = record { wanted = wet; old = old; internal = inside }

  fn_if_old-Keeps :
      (fn : Item → Call) (item : Item)
      → (settings.dry_run ≡ false → IsOld settings cloud item → IsAllowed (fn item))
      → Keeps IsAllowed (fn_if_old settings cloud fn item)
  fn_if_old-Keeps fn item k = elim (treated settings cloud fn item) [
    | unreadable same ↦ Keeps-same IsAllowed _ _ same (Keeps-raise IsAllowed _)
    | skipped same ↦ Keeps-same IsAllowed _ _ same (Keeps-pure IsAllowed tt)
    | due wet old same ↦
        Keeps-same IsAllowed _ _ same (Keeps-call IsAllowed settings cloud (fn item) (k wet old))
  ]

  detach-Keeps :
      (sn : Item)
      → settings.dry_run ≡ false
      → IsOld settings cloud sn
      → Keeps IsAllowed (detach settings cloud sn)
  unfolding detach listed
  detach-Keeps sn wet old = Keeps-listed IsAllowed settings cloud _ _ λ found.
      Keeps-each IsAllowed _ _ λ r.
        Keeps-try_except IsAllowed _ _
          (Keeps-call IsAllowed settings cloud _
            (allowed (remove_interface_from_router r sn) tt wet old))
          (λ e. Keeps-pure IsAllowed tt)

  -- The handler runs only where the subnet is old.
  free_subnet-Keeps : (sn : Item) → Keeps IsAllowed (free_subnet settings cloud sn)
  unfolding free_subnet
  free_subnet-Keeps sn = elim (treated settings cloud delete_subnet sn) [
    | unreadable same ↦ Keeps-try_same IsAllowed _ _ _ same (record { keeps = λ calls p. p })
    | skipped same ↦ Keeps-try_same IsAllowed _ _ _ same (record { keeps = λ calls p. p })
    | due wet old same ↦ Keeps-try_same IsAllowed _ _ _ same (
        Keeps-try_except IsAllowed _ _
          (Keeps-call IsAllowed settings cloud _ (allowed (delete_subnet sn) tt wet old))
          (λ e. Keeps-on_conflict IsAllowed settings cloud _ e (detach-Keeps sn wet old)))
  ]

  map_if_old-Keeps :
      (fn : Item → Call) (items : List Item)
      → ((item : Item) → settings.dry_run ≡ false → IsOld settings cloud item → IsAllowed (fn item))
      → Keeps IsAllowed (map_if_old settings cloud fn items)
  unfolding map_if_old
  map_if_old-Keeps fn items k =
      Keeps-each IsAllowed _ items λ item. fn_if_old-Keeps fn item (k item)

  delete_ports-Keeps : Keeps IsAllowed (delete_ports settings cloud)
  unfolding delete_ports listed
  delete_ports-Keeps =
      Keeps-listed IsAllowed settings cloud _ _
        λ found. map_if_old-Keeps delete_port found (λ item. allowed (delete_port item) tt)

  free_ports-Keeps : Keeps IsAllowed (free_ports settings cloud)
  unfolding free_ports listed
  free_ports-Keeps = Keeps-listed IsAllowed settings cloud _ _ λ found.
      Keeps-bind IsAllowed _ _ (Keeps-each IsAllowed _ found free_subnet-Keeps)
        λ done. delete_ports-Keeps

  if_internal-Keeps :
      (b : Bool) (n : Item)
      → n.is_router_external ≡ b
      → Keeps IsAllowed (if not b then fn_if_old settings cloud delete_network n else pure tt)
  if_internal-Keeps true n e = Keeps-pure IsAllowed tt
  if_internal-Keeps false n e = fn_if_old-Keeps delete_network n (allowed (delete_network n) e)

  delete_network_if_internal-Keeps :
      (n : Item) → Keeps IsAllowed (delete_network_if_internal settings cloud n)
  unfolding delete_network_if_internal
  delete_network_if_internal-Keeps n = if_internal-Keeps n.is_router_external n refl

  main-Keeps : Keeps IsAllowed (main settings cloud)
  unfolding main listed
  main-Keeps = Keeps-bind IsAllowed _ _ (Keeps-ask IsAllowed _) λ connected.
      Keeps-listed IsAllowed settings cloud _ _ λ found_servers.
        Keeps-bind IsAllowed _ _
          (map_if_old-Keeps delete_server found_servers (λ item. allowed (delete_server item) tt))
          λ a. Keeps-listed IsAllowed settings cloud _ _ λ found_groups.
            Keeps-bind IsAllowed _ _
              (map_if_old-Keeps delete_security_group found_groups
                (λ item. allowed (delete_security_group item) tt))
              λ b.
                Keeps-bind IsAllowed _ _
                  (Keeps-try_except IsAllowed _ _ delete_ports-Keeps
                    (λ e. Keeps-on_conflict IsAllowed settings cloud _ e free_ports-Keeps))
                  λ c. Keeps-listed IsAllowed settings cloud _ _ λ found_subnets.
                    Keeps-bind IsAllowed _ _
                      (map_if_old-Keeps delete_subnet found_subnets
                        (λ item. allowed (delete_subnet item) tt))
                      λ d. Keeps-listed IsAllowed settings cloud _ _ λ found_networks.
                        Keeps-each IsAllowed _ found_networks delete_network_if_internal-Keeps

  -- Every call of a run that changes something is wanted, for it is no dry run, and is about a
  -- resource that is not named "default" and whose time could be read and is before the limit;
  -- a network that is deleted is not external. This holds also where an exception ends the run, and
  -- for a subnet that is taken from a router.
  pub main-IsAllowed : All IsAllowed (main settings cloud []).1
  main-IsAllowed = main-Keeps.keeps [] tt
