-- ===== src/Inventory/Layout/Reloaded.antt =====
-- `build_hostnames` over the document that an assignment of roles has made.
use mathlib.Core.Path.{subst}
use factory_pattern_design.Base.{
  ℕ, String, Bool, true, false, ◌≡◌, refl, sym, ◌∙◌, ap, some, List, [], ◌∷◌, arith, starts_with,
  eq_refl,
}
use factory_pattern_design.Base.Text.{member}
use factory_pattern_design.Base.Result.{Result, ok, err, bind-eq-ok, ok-injective}
use factory_pattern_design.Yaml.{
  Value, Fields, end, field, keys, has_key, lookup, insert, subscript, at, iterate,
}
use factory_pattern_design.Yaml.Laws.{lookup-of_has_key}
use factory_pattern_design.Yaml.Distinct.{Distinct, member-keys}
use factory_pattern_design.Yaml.Joined.{
  joined, joined-end, joined_assoc, insert-new, Distinct-joined,
}
use factory_pattern_design.Inventory.Settings.{Settings}
use factory_pattern_design.Inventory.Hosts.{
  get_host_id, Existing, keep_host, read_host, read_hosts, load_existing,
}
use factory_pattern_design.Inventory.Hosts.Naming.{IdsBelow, or_exit-eq-ok}
use factory_pattern_design.Inventory.Layout.{Layout, render}

lookup-joined :
    (k : String) (v : Value) (d e : Fields)
    → has_key k d ≡ false
    → lookup k (joined d (field k v e)) ≡ some v
unfolding lookup has_key joined
lookup-joined k v end e free = rw (eq_refl k) refl
lookup-joined k v (field j w d) e free = ground (arith, lookup-joined k v d e)

module _ (settings : Settings) where
  at_host :
      (l : Layout) (h : String) (v : Value)
      → lookup h l.all ≡ some v
      → at ("all" ∷ "hosts" ∷ h ∷ []) (render l) ≡ ok v
  unfolding at subscript lookup
  at_host l h v e = rw e refl

  keep_host-hosts :
      (host : String) (opts : Value) (found found' : Existing) (b : Bool) (r : Result ℕ)
      → keep_host host opts found b r ≡ ok found'
      → found'.hosts ≡ insert host opts found.hosts
  unfolding keep_host
  keep_host-hosts host opts found found' true (ok id) e =
      ap (λ (x : Existing). x.hosts) (sym (ok-injective e))
  keep_host-hosts host opts found found' true (err x) e = cc
  keep_host-hosts host opts found found' false r e =
      ap (λ (x : Existing). x.hosts) (sym (ok-injective e))

  -- The loop has read `found.hosts`, and `rest` is before it.
  read_hosts-hosts :
      (l : Layout) (rest : Fields) (found found' : Existing)
      → l.all ≡ joined found.hosts rest
      → Distinct (keys l.all)
      → read_hosts settings (render l) (keys rest) found ≡ ok found'
      → found'.hosts ≡ l.all
  unfolding read_hosts read_host keys joined
  read_hosts-hosts l end found found' p u e =
      ap (λ (x : Existing). x.hosts) (sym (ok-injective e)) ∙ sym (joined-end found.hosts) ∙ sym p
  read_hosts-hosts l (field k v rest) found found' p u e =
      let free = Distinct-joined found.hosts k v rest (subst (λ d. Distinct (keys d)) p u) in
      let there = at_host l k v (rw p (lookup-joined k v found.hosts rest free)) in
      let (m, q, r) = bind-eq-ok (read_host settings (render l) k found) _ e in
      let (opts, a, b) = bind-eq-ok (at ("all" ∷ "hosts" ∷ k ∷ []) (render l)) _ q in
      let same = ok-injective (sym a ∙ there) in
      let now = keep_host-hosts k opts found m _ _ b in
      read_hosts-hosts l rest m found'
        (p
          ∙ sym (
              ap (λ x. joined x rest)
                (now ∙ ap (λ x. insert k x found.hosts) same ∙ insert-new k v found.hosts free)
              ∙ joined_assoc found.hosts (field k v end) rest))
        u r

  keep_host-ok :
      (host : String) (opts : Value) (found : Existing) (b : Bool) (r : Result ℕ)
      → (b ≡ true → (m : ℕ) × (r ≡ ok m))
      → (found' : Existing) × (keep_host host opts found b r ≡ ok found')
  unfolding keep_host
  keep_host-ok host opts found true (ok id) h = (_, refl)
  keep_host-ok host opts found true (err x) h = let (m, p) = h refl in absurd (cc)
  keep_host-ok host opts found false r h = (_, refl)

  -- Every name has options, and a number if it starts with the prefix.
  abbrev AllReadable : List String → Fields → Type 0
  AllReadable names d =
      (h : String)
      → member h names ≡ true
      → ((v : Value) × (lookup h d ≡ some v))
        × (starts_with h settings.host_prefix ≡ true → (m : ℕ) × (get_host_id h ≡ ok m))

  read_hosts-ok :
      (l : Layout) (names : List String) (found : Existing)
      → AllReadable names l.all
      → (found' : Existing) × (read_hosts settings (render l) names found ≡ ok found')
  unfolding read_hosts read_host member
  read_hosts-ok l [] found h = (found, refl)
  read_hosts-ok l (name ∷ names) found h =
      let ((v, there), prefixed) = h name (rw (eq_refl name) refl) in
      let (m, p) =
        keep_host-ok name v found (starts_with name settings.host_prefix) (get_host_id name)
          prefixed in
      let (found', q) = read_hosts-ok l names m (λ k e. h k (ground (arith, e))) in
      (found', rw (at_host l name v there, p) q)

  load-render :
      (l : Layout) (found : Existing)
      → read_hosts settings (render l) (keys l.all) (record { hosts = end; highest_host_id = 0 })
        ≡ ok found
      → load_existing settings (render l) true ≡ ok found
  unfolding load_existing at subscript lookup iterate
  load-render l found e = rw e refl

  -- What is loaded from the document of a layout are its hosts, in their order.
  pub load_existing-hosts :
      (l : Layout) (found : Existing)
      → Distinct (keys l.all)
      → load_existing settings (render l) true ≡ ok found
      → found.hosts ≡ l.all
  unfolding load_existing at subscript lookup iterate joined
  load_existing-hosts l found u e =
      read_hosts-hosts l l.all (record { hosts = end; highest_host_id = 0 }) found refl u
        (or_exit-eq-ok _ e)

  -- The document of a layout whose names with the prefix have numbers can be loaded.
  pub load_existing-render :
      (l : Layout) (next : ℕ)
      → Distinct (keys l.all)
      → IdsBelow settings.host_prefix next l.all
      → (found : Existing) × (load_existing settings (render l) true ≡ ok found)
        × (found.hosts ≡ l.all)
  load_existing-render l next u below =
      let (found, p) =
        read_hosts-ok l (keys l.all) (record { hosts = end; highest_host_id = 0 })
          (λ h e.
            let there : has_key h l.all ≡ true = sym (member-keys h l.all) ∙ e in
            (lookup-of_has_key h l.all there, λ s. let (m, q, _) = below h there s in (m, q))) in
      let loaded = load-render l found p in (found, loaded, load_existing-hosts l found u loaded)
