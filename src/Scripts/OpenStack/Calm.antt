-- ===== src/Scripts/OpenStack/Calm.antt =====
-- A whole clean-up in which nothing fails.
use mathlib.Core.List.{append-nil}
use factory_pattern_design.Base.{
  All, All-map, ℕ, Bool, true, false, not, ◌&&◌, ◌≡◌, refl, sym, ap, ◌∙◌, some, List, [], ◌∷◌, ◌++◌,
  map, filter, if◌then◌else◌,
}
use factory_pattern_design.Base.Exec.{each, Outcome, returned, pure, after}
use factory_pattern_design.Base.Sweep.{turn, each-turns}
use factory_pattern_design.Scripts.OpenStack.{
  Item, Kind, Call, delete_server, delete_security_group, delete_port, delete_subnet,
  delete_network, Problem, Cloud, Settings, Run, fn_if_old, delete_ports,
  delete_network_if_internal, main,
}
use factory_pattern_design.Scripts.OpenStack.Sweep.{is_due, fn_if_old-read}

-- A network to delete is not external.
abbrev pub is_due_network : Settings → Cloud → Item → Bool
is_due_network settings cloud n = not n.is_router_external && is_due settings cloud n

-- The calls of a run in front of the listing of a kind, where `found` is what each listing gives.
-- Routers are not listed.
abbrev pub before : Settings → Cloud → (Kind → List Item) → Kind → List Call
before settings cloud found Kind.servers = []
before settings cloud found Kind.security_groups =
    map delete_server (filter (is_due settings cloud) (found Kind.servers))
before settings cloud found Kind.ports =
    map delete_server (filter (is_due settings cloud) (found Kind.servers))
    ++ map delete_security_group (filter (is_due settings cloud) (found Kind.security_groups))
before settings cloud found Kind.subnets =
    map delete_server (filter (is_due settings cloud) (found Kind.servers))
    ++ map delete_security_group (filter (is_due settings cloud) (found Kind.security_groups))
    ++ map delete_port (filter (is_due settings cloud) (found Kind.ports))
before settings cloud found Kind.networks =
    map delete_server (filter (is_due settings cloud) (found Kind.servers))
    ++ map delete_security_group (filter (is_due settings cloud) (found Kind.security_groups))
    ++ map delete_port (filter (is_due settings cloud) (found Kind.ports))
    ++ map delete_subnet (filter (is_due settings cloud) (found Kind.subnets))
before settings cloud found Kind.routers = []

abbrev pub HasTime : Cloud → Item → Type 0
HasTime cloud item = (t : ℕ) × (cloud.strptime item.created_at ≡ some t)

-- The connection is made, the listings give `found` when they are asked for, every time in them can
-- be read, and every call succeeds.
pub record IsCalm (settings : Settings) (cloud : Cloud) (found : Kind → List Item) : Type 0 where
  pub connects : cloud.connect ≡ returned tt
  pub lists :
      (kind : Kind) → cloud.list kind (before settings cloud found kind) ≡ returned (found kind)
  pub reads : (kind : Kind) → All (HasTime cloud) (found kind)
  pub performs : (c : Call) (calls : List Call) → cloud.perform c calls ≡ returned tt

module _ (settings : Settings) (cloud : Cloud) (found : Kind → List Item)
    (calm : IsCalm settings cloud found) where
  connected :
      (r : Outcome Problem (Unit {0})) (m : Run (Unit {0}))
      → r ≡ returned tt
      → after r (λ u. m) [] ≡ m []
  connected r m e = ap (λ x. after x (λ u. m) []) e

  either_way :
      (b : Bool) (r : Outcome Problem (Unit {0}))
      → r ≡ returned tt
      → (if b then r else returned tt) ≡ returned tt
  either_way true r e = e
  either_way false r e = refl

  fn_if_old-calm :
      (fn : Item → Call) (item : Item)
      → HasTime cloud item
      → (calls : List Call)
      → fn_if_old settings cloud fn item calls
        ≡ (returned tt, calls ++ turn (is_due settings cloud) fn item)
  fn_if_old-calm fn item (t, e) calls =
      fn_if_old-read settings cloud fn item calls t e
      ∙ ap (λ r. (r, calls ++ turn (is_due settings cloud) fn item))
          (either_way (is_due settings cloud item) (cloud.perform (fn item) calls)
            (calm.performs (fn item) calls))

  sweep-calm :
      (fn : Item → Call) (kind : Kind) (calls : List Call)
      → each (fn_if_old settings cloud fn) (found kind) calls
        ≡ (returned tt, calls ++ map fn (filter (is_due settings cloud) (found kind)))
  sweep-calm fn kind =
      each-turns (is_due settings cloud) fn _ (found kind)
        (All-map (HasTime cloud) _ (fn_if_old-calm fn) (found kind) (calm.reads kind))

  if_internal :
      (b : Bool) (n : Item)
      → HasTime cloud n
      → (calls : List Call)
      → (if not b then fn_if_old settings cloud delete_network n else pure tt) calls ≡ (
        returned tt,
        calls ++ (if not b && is_due settings cloud n then delete_network n ∷ [] else []),
      )
  if_internal true n timed calls = ap (λ s. (returned tt, s)) (sym (append-nil calls))
  if_internal false n timed calls = fn_if_old-calm delete_network n timed calls

  network-turn :
      (n : Item)
      → HasTime cloud n
      → (calls : List Call)
      → delete_network_if_internal settings cloud n calls
        ≡ (returned tt, calls ++ turn (is_due_network settings cloud) delete_network n)
  unfolding delete_network_if_internal
  network-turn n = if_internal n.is_router_external n

  delete_ports-calm :
      let calls = before settings cloud found Kind.ports in
      delete_ports settings cloud calls
      ≡ (returned tt, calls ++ map delete_port (filter (is_due settings cloud) (found Kind.ports)))
  unfolding delete_ports
  delete_ports-calm = rw (calm.lists Kind.ports) (sweep-calm delete_port Kind.ports _)

  -- If the connection is made, the listings give `found` when they are asked for, every time in them
  -- can be read and every call succeeds, a run returns and has called exactly this: the deletion of
  -- each server that is due, then of each security group, port and subnet that is, then of each
  -- network that is and is not external, each in the order of its listing.
  pub main-calm : main settings cloud [] ≡ (
    returned tt,
    before settings cloud found Kind.networks
        ++ map delete_network (filter (is_due_network settings cloud) (found Kind.networks)),
  )
  unfolding main
  main-calm =
      connected cloud.connect _ calm.connects
      ∙ rw
          (
            calm.lists Kind.servers,
            sweep-calm delete_server Kind.servers [],
            calm.lists Kind.security_groups,
            sweep-calm delete_security_group Kind.security_groups
                (before settings cloud found Kind.security_groups),
            delete_ports-calm,
            calm.lists Kind.subnets,
            sweep-calm delete_subnet Kind.subnets (before settings cloud found Kind.subnets),
            calm.lists Kind.networks,
          )
          (each-turns (is_due_network settings cloud) delete_network _ (found Kind.networks)
            (All-map (HasTime cloud) _ network-turn (found Kind.networks)
              (calm.reads Kind.networks))
            (before settings cloud found Kind.networks))
