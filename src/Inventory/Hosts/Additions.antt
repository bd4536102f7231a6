-- ===== src/Inventory/Hosts/Additions.antt =====
-- Runs that only add addresses: what was there stays, and every address gets a host.
use mathlib.Core.Path.{subst}
use factory_pattern_design.Base.{
  String, Char, true, false, ◌≡◌, refl, ◌∙◌, some, ◌=ₛ◌, arith, inl, inr, Bool-cases, ap, eq_iff,
  ◌⊎◌,
}
use factory_pattern_design.Base.Text.{first, is_digit}
use factory_pattern_design.Base.Result.{Result, ok, bind-eq-ok, ok-injective}
use factory_pattern_design.Yaml.{Value, Fields, end, field, equals_text, has_key, lookup, insert}
use factory_pattern_design.Yaml.Laws.{has_key-insert, lookup-insert, lookup-eq-none}
use factory_pattern_design.Inventory.Settings.{Settings}
use factory_pattern_design.Inventory.Hosts.{
  get_ip_from_opts, exists_ip, Scan, addresses, new_name, add_ip,
}
use factory_pattern_design.Inventory.Hosts.Changes.{exists_ip-insert}

-- Some host has the name `host` or the address.
abbrev pub IsServed : String → String → Fields → Type 0
IsServed host ip hosts = (has_key host hosts ≡ true) ⊎ (exists_ip hosts ip ≡ ok true)

-- The locals after an argument with an address, which is served.
abbrev pub Settled : String → String × String → Scan → Type 0
Settled host parts t =
    (t.ip ≡ some parts.0) × (t.access_ip ≡ some parts.1) × IsServed host parts.0 t.all_hosts

module _ (settings : Settings) (check_output : String → Result String) where
  known-add_ip :
      (host : String) (s : Scan) (parts : String × String)
      → addresses host ≡ ok parts
      → s.ip ≡ some parts.0
      → s.access_ip ≡ some parts.1
      → IsServed host parts.0 s.all_hosts
      → add_ip settings check_output host s ≡ ok s
  unfolding add_ip
  known-add_ip host s parts p i a (inl there) = rw (p, there, ← i, ← a)
  known-add_ip host s parts p i a (inr found) = rw (p, found) (ground arith)

  -- What `add_ip` leaves: the address is served, and stands in the locals.
  pub add_ip-eq-ok :
      (host : String) (s s' : Scan)
      → add_ip settings check_output host s ≡ ok s'
      → (parts : String × String) × (addresses host ≡ ok parts) × Settled host parts s'
  unfolding add_ip
  add_ip-eq-ok host s s' e =
      let (parts, p, q) = bind-eq-ok (addresses host) _ e in
      (
        parts,
        p,
        elim (Bool-cases (has_key host s.all_hosts)) [
          | inl t ↦ subst (Settled host parts) (ok-injective (rw t at q)) (refl, refl, inl t)
          | inr f ↦
              let (found, r, w) = bind-eq-ok (exists_ip s.all_hosts parts.0) _ (rw f at q) in
              elim (Bool-cases found) [
                | inl t ↦
                    subst (Settled host parts) (ok-injective (rw t at w))
                      (refl, refl, inr (r ∙ ap ok t))
                | inr g ↦
                    let (named, _, x) =
                      bind-eq-ok (new_name settings check_output s.next_host_id parts.1) _
                        (rw g at w) in
                    subst (Settled host parts) (ok-injective x) (
                      refl,
                      refl,
                      inr (exists_ip-insert named.0 parts.0 parts.1 s.all_hosts (r ∙ ap ok g)),
                    )
              ]
        ],
      )

  -- Adding an address that was just added succeeds and changes nothing.
  pub add_ip_twice :
      (host : String) (s s' : Scan)
      → add_ip settings check_output host s ≡ ok s'
      → add_ip settings check_output host s' ≡ ok s'
  add_ip_twice host s s' e =
      let (parts, p, settled) = add_ip-eq-ok host s s' e in
      known-add_ip host s' parts p settled.0 settled.1 settled.2

-- The argument starts with a digit.
abbrev pub IsAddress : String → Type 0
IsAddress host = (c : Char) × (first host ≡ some c) × (is_digit c ≡ true)

-- Every host of the first mapping has the same options in the second.
abbrev pub Extends : Fields → Fields → Type 0
Extends d e = (h : String) (opts : Value) → lookup h d ≡ some opts → lookup h e ≡ some opts

pub lookup-free :
    (name : String) (opts : Value) (d : Fields)
    → has_key name d ≡ false
    → Extends d (insert name opts d)
lookup-free name opts d free h v there =
    rw lookup-insert (ground (arith, eq_iff name h, lookup-eq-none name d free))

exists_ip-insert_free :
    (name ip : String) (opts : Value) (d : Fields)
    → has_key name d ≡ false
    → exists_ip d ip ≡ ok true
    → exists_ip (insert name opts d) ip ≡ ok true
unfolding exists_ip has_key insert
exists_ip-insert_free name ip opts end free e = cc
exists_ip-insert_free name ip opts (field host v d) free e =
    let (own, p, q) = bind-eq-ok (get_ip_from_opts v) _ e in
    elim (Bool-cases (host =ₛ name)) [
      | inl t ↦ ground arith
      | inr g ↦ elim (Bool-cases (equals_text ip own)) [
        | inl t ↦ rw (g, p, t)
        | inr f ↦ rw (g, p, f) (exists_ip-insert_free name ip opts d (ground arith) (rw f at q))
      ]
    ]

-- What is served stays so when a host with a free name is written.
pub IsServed-insert :
    (host ip name : String) (opts : Value) (d : Fields)
    → has_key name d ≡ false
    → IsServed host ip d
    → IsServed host ip (insert name opts d)
IsServed-insert host ip name opts d free (inl there) = inl (rw has_key-insert (ground arith))
IsServed-insert host ip name opts d free (inr found) =
    inr (exists_ip-insert_free name ip opts d free found)
