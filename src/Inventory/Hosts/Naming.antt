-- ===== src/Inventory/Hosts/Naming.antt =====
-- The names that `build_hostnames` makes up: no loaded host has one of them.
use factory_pattern_design.Base.{
  ℕ, ◌+◌, ◌≤◌, ◌<◌, String, ◌<>◌, Bool, true, false, ◌≡◌, refl, ◌∙◌, none, List, [], ◌∷◌, ◌=ₛ◌,
  arith, eq_iff, starts_with, inl, inr, Bool-cases,
}
use mathlib.Core.Path.{subst}
use text.Mathlib.TextPositions.{starts_with-append}
use factory_pattern_design.Base.Text.{contains_char}
use factory_pattern_design.Base.Decimal.{decimal, trailing_number, value_so_far}
use factory_pattern_design.Base.Decimal.Laws.{
  trailing-decimal, trailing-append, contains_char-append, no_dot-decimal, split-of_lacks,
}
use factory_pattern_design.Base.Result.{Result, ok, err, bind-eq-ok, ok-injective}
use factory_pattern_design.Yaml.{Value, Fields, has_key, insert, at, iterate}
use factory_pattern_design.Yaml.Laws.{has_key-insert}
use factory_pattern_design.Inventory.Settings.{Settings}
use factory_pattern_design.Inventory.Hosts.{
  get_host_id, Existing, keep_host, read_host, read_hosts, load_existing, or_exit,
}

module _ (prefix : String) (no_dot : contains_char b'.' prefix ≡ false) where
  -- The id of a made-up name is at least the number in it, which may continue digits of the prefix.
  pub get_host_id-le :
      (n : ℕ)
      → (m : ℕ) × (get_host_id (prefix <> decimal n) ≡ ok m)
        × (n ≤ m)
        × (value_so_far (trailing_number none prefix) ≡ 0 → m ≡ n)
  unfolding get_host_id
  get_host_id-le n =
      let (m, p, q, r) = trailing-decimal n (trailing_number none prefix) in
      (
        m,
        rw (
          split-of_lacks b'.' (prefix <> decimal n)
              (rw (contains_char-append, no_dot) (no_dot-decimal n)),
          trailing-append,
          p,
        ),
        q,
        r,
      )

  -- The id of a made-up name is its number, if the prefix has no dot and does not end in a digit.
  pub get_host_id-decimal :
      trailing_number none prefix ≡ none → (n : ℕ) → get_host_id (prefix <> decimal n) ≡ ok n
  get_host_id-decimal e n = let (m, p, q, r) = get_host_id-le n in p ∙ rw (r (rw e))

-- Every host with the prefix has an id below `next`.
abbrev pub IdsBelow : String → ℕ → Fields → Type 0
IdsBelow prefix next hosts =
    (h : String)
    → has_key h hosts ≡ true
    → starts_with h prefix ≡ true
    → (m : ℕ) × (get_host_id h ≡ ok m) × (m < next)

-- So the name with the number `next` is free.
pub name_is_free :
    (prefix : String) (next : ℕ) (hosts : Fields)
    → contains_char b'.' prefix ≡ false
    → IdsBelow prefix next hosts
    → has_key (prefix <> decimal next) hosts ≡ false
name_is_free prefix next hosts no_dot below =
    elim (Bool-cases (has_key (prefix <> decimal next) hosts)) [
      | inl e ↦
          let (m, p, q) =
            below (prefix <> decimal next) e (starts_with-append prefix (decimal next)) in
          let (k, r, s, _) = get_host_id-le prefix no_dot next in ground (arith, p, q, r, s)
      | inr e ↦ e
    ]

-- A host may be added if its own id is below the new bound.
pub insert-IdsBelow :
    (prefix : String) (next next' : ℕ) (host : String) (opts : Value) (hosts : Fields)
    → IdsBelow prefix next hosts
    → next ≤ next'
    → (starts_with host prefix ≡ true → (m : ℕ) × (get_host_id host ≡ ok m) × (m < next'))
    → IdsBelow prefix next' (insert host opts hosts)
insert-IdsBelow prefix next next' host opts hosts below grows own h there prefixed =
    elim (Bool-cases (host =ₛ h)) [
      | inl e ↦ rw (← (eq_iff host h).0 e) (own (rw ((eq_iff host h).0 e) prefixed))
      | inr e ↦
          let (m, p, q) = below h (ground (arith, has_key-insert h host opts hosts)) prefixed in
          (m, p, omega arith)
    ]

pub or_exit-eq-ok : {A : Type 0} (r : Result A) {a : A} → or_exit r ≡ ok a → r ≡ ok a
or_exit-eq-ok (ok b) e = e
or_exit-eq-ok (err x) e = cc

-- The loop's invariant.
abbrev Counted : String → Existing → Type 0
Counted prefix found = IdsBelow prefix (found.highest_host_id + 1) found.hosts

module _ (settings : Settings) where
  keep_host-Counted :
      (host : String) (opts : Value) (found found' : Existing) (b : Bool) (r : Result ℕ)
      → starts_with host settings.host_prefix ≡ b
      → get_host_id host ≡ r
      → keep_host host opts found b r ≡ ok found'
      → Counted settings.host_prefix found
      → Counted settings.host_prefix found'
  unfolding keep_host
  keep_host-Counted host opts found found' true (ok id) s r e below =
      subst (Counted settings.host_prefix) (ok-injective e) (
        insert-IdsBelow settings.host_prefix (found.highest_host_id + 1) _ host opts found.hosts
          below (ground arith) (λ _. (id, r, ground arith)))
  keep_host-Counted host opts found found' true (err x) s r e below = cc
  keep_host-Counted host opts found found' false r s _ e below =
      subst (Counted settings.host_prefix) (ok-injective e) (
        insert-IdsBelow settings.host_prefix (found.highest_host_id + 1) _ host opts found.hosts
          below (omega arith) (λ p. cc))

  read_hosts-Counted :
      (yaml_config : Value) (hosts : List String) (found found' : Existing)
      → read_hosts settings yaml_config hosts found ≡ ok found'
      → Counted settings.host_prefix found
      → Counted settings.host_prefix found'
  unfolding read_hosts read_host
  read_hosts-Counted yaml_config [] found found' e below =
      subst (Counted settings.host_prefix) (ok-injective e) below
  read_hosts-Counted yaml_config (host ∷ hosts) found found' e below =
      let (middle, p, q) = bind-eq-ok (read_host settings yaml_config host found) _ e in
      let (opts, _, r) = bind-eq-ok (at ("all" ∷ "hosts" ∷ host ∷ []) yaml_config) _ p in
      read_hosts-Counted yaml_config hosts middle found' q (
        keep_host-Counted host opts found middle (starts_with host settings.host_prefix)
          (get_host_id host) refl refl r below)

  -- What is loaded is counted right: no id of a loaded host with the prefix exceeds the highest.
  pub load_existing-IdsBelow :
      (yaml_config : Value) (load : Bool) (found : Existing)
      → load_existing settings yaml_config load ≡ ok found
      → IdsBelow settings.host_prefix (found.highest_host_id + 1) found.hosts
  unfolding load_existing has_key
  load_existing-IdsBelow yaml_config false found e =
      subst (Counted settings.host_prefix) (ok-injective e) (λ h p. cc)
  load_existing-IdsBelow yaml_config true found e =
      let (hosts, _, p) =
        bind-eq-ok (at ("all" ∷ "hosts" ∷ []) yaml_config) _ (or_exit-eq-ok _ e) in
      let (names, _, q) = bind-eq-ok (iterate hosts) _ p in
      read_hosts-Counted yaml_config names _ found q (λ h r. cc)

-- More ids are below a greater number.
IdsBelow-le :
    (prefix : String) (next next' : ℕ) (hosts : Fields)
    → IdsBelow prefix next hosts
    → next ≤ next'
    → IdsBelow prefix next' hosts
IdsBelow-le prefix next next' hosts below grows h there prefixed =
    let (m, p, q) = below h there prefixed in (m, p, omega arith)

-- Once the inventory is loaded, no name that is made of the prefix and a number above the highest id
-- belongs to a loaded host, if the prefix has no dot.
pub loaded_name_is_free :
    (settings : Settings) (yaml_config : Value) (load : Bool) (found : Existing) (n : ℕ)
    → contains_char b'.' settings.host_prefix ≡ false
    → load_existing settings yaml_config load ≡ ok found
    → found.highest_host_id < n
    → has_key (settings.host_prefix <> decimal n) found.hosts ≡ false
loaded_name_is_free settings yaml_config load found n no_dot e above =
    name_is_free settings.host_prefix n found.hosts no_dot (
      IdsBelow-le settings.host_prefix (found.highest_host_id + 1) n found.hosts
        (load_existing-IdsBelow settings yaml_config load found e) (omega arith))
