-- ===== src/Inventory/Layout/Purge.antt =====
-- `purge_invalid_hosts` on the document of a layout.
use factory_pattern_design.Base.{
  String, true, false, ◌≡◌, refl, List, [], ◌∷◌, arith, eq_iff, eq_refl, inl, inr, Bool-cases,
}
use factory_pattern_design.Base.Result.{ok, ◌>>=◌}
use factory_pattern_design.Yaml.{
  Value, dict, Fields, end, field, keys, has_key, lookup, insert, erase, at, put, subscript, delete,
  truthy, mapping, iterate,
}
use factory_pattern_design.Inventory.Settings.{protected_names}
use factory_pattern_design.Inventory.Groups.{
  hosts_of, purge_hosts, purge_at, purge_roles, purge_invalid_hosts,
}
use factory_pattern_design.Inventory.Layout.{Layout, render, keeps, restrict, purged}

-- A place of a document that holds a mapping, and can be read and written.
pub record IsSlot (path : List String) (slot : Fields → Value) : Type 0 where
  pub at_slot : (d : Fields) → at path (slot d) ≡ ok (dict d)
  pub put_slot : (d e : Fields) → put path (dict e) (slot d) ≡ ok (slot e)

chain : Fields → Fields → Fields
chain end d = d
chain (field k v kept) d = field k v (chain kept d)

abbrev AllKept : List String → Fields → Type 0
AllKept names end = Unit
AllKept names (field k v d) = (keeps names k ≡ true) × AllKept names d

snoc : Fields → String → Value → Fields
snoc end k v = field k v end
snoc (field j w d) k v = field j w (snoc d k v)

chain-snoc :
    (kept : Fields) (k : String) (v : Value) (d : Fields)
    → chain kept (field k v d) ≡ chain (snoc kept k v) d
unfolding chain snoc
chain-snoc end k v d = refl
chain-snoc (field j w kept) k v d = rw (chain-snoc kept k v d)

module _ (names : List String) where
  snoc-AllKept :
      (kept : Fields) (k : String) (v : Value)
      → AllKept names kept
      → keeps names k ≡ true
      → AllKept names (snoc kept k v)
  unfolding snoc
  snoc-AllKept end k v h e = (e, tt)
  snoc-AllKept (field j w kept) k v (hj, h) e = (hj, snoc-AllKept kept k v h e)

  -- What is not kept is behind everything that is.
  delete-chain :
      (kept : Fields) (k : String) (v : Value) (d : Fields)
      → AllKept names kept
      → keeps names k ≡ false
      → (has_key k (chain kept (field k v d)) ≡ true)
        × (erase k (chain kept (field k v d)) ≡ chain kept d)
  unfolding chain has_key erase
  delete-chain end k v d h e = (rw eq_refl, rw eq_refl)
  delete-chain (field j w kept) k v d (hj, h) e =
      ground (arith, eq_iff j k, delete-chain kept k v d h e)

module _ (names : List String) {path : List String} {slot : Fields → Value}
    (s : IsSlot path slot) where
  remove-chain :
      (kept : Fields) (k : String) (v : Value) (d : Fields)
      → AllKept names kept
      → keeps names k ≡ false
      → (do
        found ← at path (slot (chain kept (field k v d)))
        left ← delete k found
        put path left (slot (chain kept (field k v d))))
        ≡ ok (slot (chain kept d))
  unfolding delete
  remove-chain kept k v d h e =
      let (there, gone) = delete-chain names kept k v d h e in
      rw (s.at_slot, there, gone, s.put_slot)

  purge_hosts-chain :
      (d kept : Fields)
      → AllKept names kept
      → purge_hosts path names protected_names (keys d) (slot (chain kept d))
        ≡ ok (slot (chain kept (restrict names d)))
  unfolding purge_hosts restrict keys
  purge_hosts-chain end kept h = refl
  purge_hosts-chain (field k v d) kept h = elim (Bool-cases (keeps names k)) [
    | inl e ↦
        rw (e, chain-snoc kept k v d, chain-snoc kept k v (restrict names d))
          (purge_hosts-chain d (snoc kept k v) (snoc-AllKept names kept k v h e))
    | inr e ↦ rw (e, remove-chain kept k v d h e) (purge_hosts-chain d kept h)
  ]

  -- One call of `purge_at` leaves the kept hosts.
  pub purge_at-slot :
      (d : Fields) → purge_at path names protected_names (slot d) ≡ ok (slot (restrict names d))
  unfolding purge_at truthy mapping
  purge_at-slot end = rw s.at_slot (unfold restrict in refl)
  purge_at-slot (field k v d) =
      rw s.at_slot (unfold chain in purge_hosts-chain (field k v d) end tt)

-- The slots of a layout's document.
module _ (l : Layout) where
  all-IsSlot : IsSlot ("all" ∷ "hosts" ∷ []) (λ d. render (record l { all = d }))
  unfolding at put subscript lookup insert
  all-IsSlot = record { at_slot = λ d. refl; put_slot = λ d e. refl }

  control-IsSlot :
      IsSlot (hosts_of "kube_control_plane") (λ d. render (record l { kube_control_plane = d }))
  unfolding at put subscript lookup insert
  control-IsSlot = record { at_slot = λ d. refl; put_slot = λ d e. refl }

  node-IsSlot : IsSlot (hosts_of "kube_node") (λ d. render (record l { kube_node = d }))
  unfolding at put subscript lookup insert
  node-IsSlot = record { at_slot = λ d. refl; put_slot = λ d e. refl }

  etcd-IsSlot : IsSlot (hosts_of "etcd") (λ d. render (record l { etcd = d }))
  unfolding at put subscript lookup insert
  etcd-IsSlot = record { at_slot = λ d. refl; put_slot = λ d e. refl }

  calico-IsSlot : IsSlot (hosts_of "calico_rr") (λ d. render (record l { calico_rr = d }))
  unfolding at put subscript lookup insert
  calico-IsSlot = record { at_slot = λ d. refl; put_slot = λ d e. refl }

-- Purging removes from every group, and from the hosts, what is neither listed nor protected.
pub purge-render :
    (names : List String) (l : Layout)
    → purge_invalid_hosts names protected_names (render l) ≡ ok (render (purged names l))
unfolding purge_invalid_hosts purge_roles at subscript lookup iterate keys
purge-render names l =
    let n = restrict names in
    let l₁ = record l { kube_control_plane = n l.kube_control_plane } in
    let l₂ = record l₁ { kube_node = n l.kube_node } in
    let l₃ = record l₂ { etcd = n l.etcd } in
    let l₄ = record l₃ { calico_rr = n l.calico_rr } in
    rw (
      purge_at-slot names (control-IsSlot l) l.kube_control_plane,
      purge_at-slot names (node-IsSlot l₁) l.kube_node,
      purge_at-slot names (etcd-IsSlot l₂) l.etcd,
      purge_at-slot names (calico-IsSlot l₃) l.calico_rr,
      purge_at-slot names (all-IsSlot l₄) l.all,
    )
