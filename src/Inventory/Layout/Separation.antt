-- ===== src/Inventory/Layout/Separation.antt =====
-- Which roles share hosts, which hosts have a role, and which hosts have none any more.
use factory_pattern_design.Base.{
  ℕ, zero, suc, ◌+◌, ◌≤◌, ◌<◌, String, true, false, ◌||◌, ◌≡◌, refl, List, [], ◌∷◌, arith, eq_iff,
  inl, inr, Bool-cases, length, take, drop,
}
use factory_pattern_design.Base.Text.{member}
use factory_pattern_design.Yaml.{Fields, keys, has_key}
use factory_pattern_design.Yaml.Distinct.{Distinct}
use factory_pattern_design.Inventory.Settings.{Settings}
use factory_pattern_design.Inventory.Load.{etcd_hosts_count, is_scale, control_hosts}
use factory_pattern_design.Inventory.Layout.{
  Layout, fresh, keeps, assigned, with_masters, is_reserved,
}
use factory_pattern_design.Inventory.Layout.Members.{has_key-assigned, member-select}
use factory_pattern_design.Inventory.Layout.Fresh.{assigned-fresh, has_key-as_members}

pub member-take :
    (n : ℕ) (h : String) (xs : List String) → member h (take n xs) ≡ true → member h xs ≡ true
unfolding member
member-take zero h xs m = cc
member-take (suc n) h [] m = cc
member-take (suc n) h (x ∷ xs) m = ground (arith, member-take n h xs)

member-drop :
    (n : ℕ) (h : String) (xs : List String) → member h (drop n xs) ≡ true → member h xs ≡ true
unfolding member
member-drop zero h xs m = m
member-drop (suc n) h [] m = cc
member-drop (suc n) h (x ∷ xs) m = ground (arith, member-drop n h xs)

-- In a list without repetition a slice shares nothing with what stands in front of it.
slice-apart :
    (n k : ℕ) (h : String) (xs : List String)
    → Distinct xs
    → member h (take n xs) ≡ true
    → member h (drop n (take (n + k) xs)) ≡ false
unfolding member
slice-apart zero k h xs u m = cc
slice-apart (suc n) k h [] u m = cc
slice-apart (suc n) k h (x ∷ xs) (new, u) m =
    let e : suc n + k ≡ suc (n + k) = omega arith in
    rw e (
      ground (
        arith,
        slice-apart n k h xs u,
        eq_iff x h,
        member-drop n h (take (n + k) xs),
        member-take (n + k) h xs,
      ))

pub control_hosts-member :
    (settings : Settings) (h : String) (names : List String)
    → member h (control_hosts settings names) ≡ true
    → member h names ≡ true
control_hosts-member settings h names m = elim (Bool-cases (is_scale settings names)) [
  | inl e ↦ member-take _ h names (
      member-drop (etcd_hosts_count names) h
        (take (etcd_hosts_count names + settings.kube_control_hosts) names) (rw e at m))
  | inr e ↦ member-take settings.kube_control_hosts h names (rw e at m)
]

module _ (settings : Settings) (hosts : Fields) (l : Layout) (h : String) where
  masters-assigned :
      ((with_masters settings hosts l).etcd ≡ (assigned settings hosts l).etcd)
      × ((with_masters settings hosts l).kube_control_plane
          ≡ (assigned settings hosts l).kube_control_plane)
  unfolding assigned
  masters-assigned = (refl, refl)

  reserved_is_master :
      is_reserved settings (with_masters settings hosts l) h ≡ true
      → (has_key h (assigned settings hosts l).etcd
          || has_key h (assigned settings hosts l).kube_control_plane)
        ≡ true
  reserved_is_master r = rw (← masters-assigned.0, ← masters-assigned.1) (ground arith)

  -- Every host of the run is among the hosts, and is an etcd, a control plane or a worker node.
  pub listed_has_role :
      member h (keys hosts) ≡ true
      → let a = assigned settings hosts l in
        (has_key h a.all ≡ true)
        × ((has_key h a.etcd || (has_key h a.kube_control_plane || has_key h a.kube_node)) ≡ true)
  listed_has_role m = ground (arith, has_key-assigned settings hosts l h, reserved_is_master)

  -- A host that the run does not list, and whose name is not protected, is in no group afterwards.
  pub unlisted_has_no_role :
      keeps (keys hosts) h ≡ false
      → let a = assigned settings hosts l in
        (has_key h a.all ≡ false)
        × (has_key h a.etcd ≡ false)
        × (has_key h a.kube_control_plane ≡ false)
        × (has_key h a.kube_node ≡ false)
        × (has_key h a.calico_rr ≡ false)
  unlisted_has_no_role e = ground (
    arith,
    has_key-assigned settings hosts l h,
    member-take (etcd_hosts_count (keys hosts)) h (keys hosts),
    control_hosts-member settings h (keys hosts),
  )

module _ (settings : Settings) (hosts : Fields) (h : String) (u : Distinct (keys hosts)) where
  -- In a first run with hosts of distinct names, from the scale threshold on, an etcd host is
  -- neither a control plane host nor a worker node.
  pub etcd_is_apart :
      settings.scale_threshold ≤ length (keys hosts)
      → has_key h (assigned settings hosts fresh).etcd ≡ true
      → (has_key h (assigned settings hosts fresh).kube_control_plane ≡ false)
        × (has_key h (assigned settings hosts fresh).kube_node ≡ false)
  etcd_is_apart large = rw (assigned-fresh settings hosts u) (
      simp (has_key-as_members, member-select)
        λ m. ground (
          arith,
          slice-apart (etcd_hosts_count (keys hosts)) settings.kube_control_hosts h (keys hosts) u
              m,
        ))

  -- In a first run with hosts of distinct names, from the massive threshold on, a control plane
  -- host is no worker node.
  pub control_is_apart :
      settings.massive_scale_threshold ≤ length (keys hosts)
      → has_key h (assigned settings hosts fresh).kube_control_plane ≡ true
      → has_key h (assigned settings hosts fresh).kube_node ≡ false
  control_is_apart large =
      rw (assigned-fresh settings hosts u)
        (simp (has_key-as_members, member-select) (λ m. ground arith))

  -- In a first run with hosts of distinct names, below both thresholds, every host is a worker
  -- node, and no other is.
  pub small_is_shared :
      length (keys hosts) < settings.scale_threshold
      → length (keys hosts) < settings.massive_scale_threshold
      → has_key h (assigned settings hosts fresh).kube_node ≡ member h (keys hosts)
  small_is_shared few fewer =
      rw (assigned-fresh settings hosts u) (simp (has_key-as_members, member-select) (ground arith))
