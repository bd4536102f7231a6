-- ===== src/Inventory/Layout/Fresh.antt =====
-- The first run on a new inventory: every group is spelled out, in the order of its members.
use factory_pattern_design.Base.{
  ℕ, zero, suc, String, Bool, true, false, not, ◌&&◌, ◌||◌, ◌≡◌, refl, List, [], ◌∷◌, ◌=ₛ◌, arith,
  eq_iff, inl, inr, Bool-cases, if◌then◌else◌, leb, length, take, drop,
}
use factory_pattern_design.Base.Text.{member}
use factory_pattern_design.Yaml.{update, Value, Fields, end, field, keys, has_key, insert}
use factory_pattern_design.Yaml.Laws.{has_key-insert}
use factory_pattern_design.Yaml.Distinct.{Distinct}
use factory_pattern_design.Inventory.Settings.{Settings}
use factory_pattern_design.Inventory.Load.{etcd_hosts_count, is_scale, control_hosts}
use factory_pattern_design.Inventory.Layout.{
  fresh, restrict, add_members, cluster, select, assigned, with_masters,
}

-- The names as members of a group.
unfoldable pub as_members : List String → Fields
as_members [] = end
as_members (x ∷ xs) = field x Value.null (as_members xs)

abbrev onto : Fields → Fields → Fields
onto end d = d
onto (field k v e) d = field k v (onto e d)

has_key-onto :
    (j : String) (e : Fields) (k : String) (v : Value)
    → has_key j (onto e (field k v end)) ≡ (has_key j e || (k =ₛ j))
unfolding has_key
has_key-onto j end k v = ground arith
has_key-onto j (field i w e) k v = ground (arith, has_key-onto j e k v)

onto_end : (d : Fields) → d ≡ onto d end
onto_end end = refl
onto_end (field k v d) = rw (← onto_end d)

insert-onto :
    (k : String) (v : Value) (e : Fields)
    → has_key k e ≡ false
    → insert k v e ≡ onto e (field k v end)
unfolding has_key insert
insert-onto k v end h = refl
insert-onto k v (field j w e) h = ground (arith, insert-onto k v e)

onto_assoc : (e d f : Fields) → onto (onto e d) f ≡ onto e (onto d f)
onto_assoc end d f = refl
onto_assoc (field k v e) d f = rw (onto_assoc e d f)

-- New hosts with distinct names are written behind the old ones.
update-onto :
    (hosts d : Fields)
    → Distinct (keys hosts)
    → ((j : String) → member j (keys hosts) ≡ true → has_key j d ≡ false)
    → update hosts d ≡ onto d hosts
unfolding update keys member
update-onto end d u h = onto_end d
update-onto (field k v hosts) d (new, u) h =
    rw
      (update-onto hosts (insert k v d) u
        (λ j m. rw has_key-insert (ground (arith, h j, eq_iff k j))))
      (rw (insert-onto k v d (h k (ground (arith, eq_iff k k))))
        (onto_assoc d (field k v end) hosts))

-- On an empty mapping the update is the mapping itself.
update-end : (hosts : Fields) → Distinct (keys hosts) → update hosts end ≡ hosts
unfolding has_key
update-end hosts u = update-onto hosts end u (λ j m. refl)

pub keys-as_members : (xs : List String) → keys (as_members xs) ≡ xs
unfolding keys as_members
keys-as_members [] = refl
keys-as_members (x ∷ xs) = rw (keys-as_members xs)

add_members-update : (xs : List String) (d : Fields) → add_members xs d ≡ update (as_members xs) d
unfolding add_members update as_members
add_members-update [] d = refl
add_members-update (x ∷ xs) d = add_members-update xs (insert x Value.null d)

add_members-end : (xs : List String) → Distinct xs → add_members xs end ≡ as_members xs
add_members-end xs u = rw add_members-update (update-end (as_members xs) (rw keys-as_members u))

-- Parts of a list without repetition have none.
take-member :
    (n : ℕ) (x : String) (xs : List String) → member x xs ≡ false → member x (take n xs) ≡ false
unfolding member
take-member zero x xs h = refl
take-member (suc n) x [] h = refl
take-member (suc n) x (y ∷ ys) h = ground (arith, take-member n x ys)

take-Distinct : (n : ℕ) (xs : List String) → Distinct xs → Distinct (take n xs)
unfolding member
take-Distinct zero xs u = tt
take-Distinct (suc n) [] u = tt
take-Distinct (suc n) (x ∷ xs) (new, u) = (take-member n x xs new, take-Distinct n xs u)

drop-Distinct : (n : ℕ) (xs : List String) → Distinct xs → Distinct (drop n xs)
drop-Distinct zero xs u = u
drop-Distinct (suc n) [] u = tt
drop-Distinct (suc n) (x ∷ xs) (new, u) = drop-Distinct n xs u

select-member :
    (p : String → Bool) (x : String) (xs : List String)
    → member x xs ≡ false
    → member x (select p xs) ≡ false
unfolding member select
select-member p x [] h = refl
select-member p x (y ∷ ys) h = ground (arith, select-member p x ys)

select-Distinct : (p : String → Bool) (xs : List String) → Distinct xs → Distinct (select p xs)
unfolding select
select-Distinct p [] u = tt
select-Distinct p (x ∷ xs) (new, u) = elim (Bool-cases (p x)) [
  | inl e ↦ rw e (select-member p x xs new, select-Distinct p xs u)
  | inr e ↦ rw e (select-Distinct p xs u)
]

control_hosts-Distinct :
    (settings : Settings) (names : List String)
    → Distinct names
    → Distinct (control_hosts settings names)
control_hosts-Distinct settings names u = elim (Bool-cases (is_scale settings names)) [
  | inl e ↦ rw e (drop-Distinct (etcd_hosts_count names) _ (take-Distinct _ names u))
  | inr e ↦ rw e (take-Distinct settings.kube_control_hosts names u)
]

pub has_key-as_members : (h : String) (xs : List String) → has_key h (as_members xs) ≡ member h xs
unfolding has_key as_members member
has_key-as_members h [] = refl
has_key-as_members h (x ∷ xs) = ground (arith, has_key-as_members h xs)

reflectors :
    (scale : Bool) (xs : List String)
    → Distinct xs
    → (if scale then add_members (select (λ h. not (h =ₛ "hosts")) xs) end else end)
      ≡ as_members (if scale then select (λ h. not (h =ₛ "hosts")) xs else [])
unfolding as_members
reflectors true xs u = add_members-end _ (select-Distinct _ xs u)
reflectors false xs u = refl

-- Workers are the hosts that no threshold reserves.
abbrev pub is_worker : Settings → List String → String → Bool
is_worker settings names h = not (
    (leb settings.scale_threshold (length names) && member h (take (etcd_hosts_count names) names))
    || (leb settings.massive_scale_threshold (length names)
        && member h (control_hosts settings names)))

-- The groups of a first run with hosts of distinct names. Route reflectors are listed at scale only.
pub assigned-fresh :
    (settings : Settings) (hosts : Fields)
    → Distinct (keys hosts)
    → let names = keys hosts in
      let first_hosts = take (etcd_hosts_count names) names in
      let control = control_hosts settings names in
      assigned settings hosts fresh ≡ record {
        all = hosts;
        kube_control_plane = as_members control;
        kube_node = as_members (select (is_worker settings names) names);
        etcd = as_members first_hosts;
        k8s_cluster = cluster;
        calico_rr =
            as_members (
              if is_scale settings names then select (λ h. not (h =ₛ "hosts")) first_hosts else []);
      }
unfolding assigned with_masters restrict
assigned-fresh settings hosts u =
    let names = keys hosts in
    rw
      (
        update-end hosts u,
        add_members-end (control_hosts settings names) (control_hosts-Distinct settings names u),
        add_members-end (take (etcd_hosts_count names) names) (take-Distinct _ names u),
        reflectors (is_scale settings names) (take (etcd_hosts_count names) names)
            (take-Distinct _ names u),
      )
      (simp has_key-as_members (
        rw (
          add_members-end (select (is_worker settings names) names)
            (select-Distinct (is_worker settings names) names u))))
