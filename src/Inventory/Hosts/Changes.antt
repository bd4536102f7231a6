-- ===== src/Inventory/Hosts/Changes.antt =====
-- What one argument of `build_hostnames` does to the hosts.
use mathlib.Core.Path.{subst}
use factory_pattern_design.Base.{
  String, true, false, ◌≡◌, refl, ◌∙◌, ◌=ₛ◌, arith, eq_refl, inl, inr, Bool-cases, ap,
}
use factory_pattern_design.Base.Result.{Result, ok, bind-eq-ok, ok-injective}
use factory_pattern_design.Yaml.{
  Value, str, Fields, end, field, keys, has_key, lookup, insert, erase, equals_text, has, subscript,
}
use factory_pattern_design.Yaml.Distinct.{Distinct, insert-Distinct, erase-Distinct}
use factory_pattern_design.Inventory.Settings.{Settings}
use factory_pattern_design.Inventory.Hosts.{
  get_ip_from_opts, exists_ip, host_by_ip, Scan, host_entry, addresses, delete_host, new_name,
  add_ip,
}

-- An address that is found belongs to a host that is there.
pub host_by_ip-of_exists :
    (hosts : Fields) (ip : String)
    → exists_ip hosts ip ≡ ok true
    → (h : String) × (host_by_ip hosts ip ≡ ok h) × (has_key h hosts ≡ true)
unfolding exists_ip host_by_ip has_key
host_by_ip-of_exists end ip e = cc
host_by_ip-of_exists (field host opts hosts) ip e =
    let (own, p, q) = bind-eq-ok (get_ip_from_opts opts) _ e in
    elim (Bool-cases (equals_text ip own)) [
      | inl t ↦ (host, rw (p, t), rw eq_refl)
      | inr f ↦
          let (h, r, there) = host_by_ip-of_exists hosts ip (rw f at q) in
          (h, rw (p, f) r, ground arith)
    ]

pub get_ip_from_opts-host_entry :
    (ip access_ip : String) → get_ip_from_opts (host_entry ip access_ip) ≡ ok (str ip)
unfolding get_ip_from_opts has has_key subscript lookup
get_ip_from_opts-host_entry ip access_ip = refl

-- A host that is written is found by its address, where no host had the address before.
pub exists_ip-insert :
    (name ip access_ip : String) (hosts : Fields)
    → exists_ip hosts ip ≡ ok false
    → exists_ip (insert name (host_entry ip access_ip) hosts) ip ≡ ok true
unfolding exists_ip insert
exists_ip-insert name ip access_ip end e =
    rw get_ip_from_opts-host_entry (unfold equals_text in rw eq_refl)
exists_ip-insert name ip access_ip (field host opts hosts) e =
    let (own, p, q) = bind-eq-ok (get_ip_from_opts opts) _ e in
    elim (Bool-cases (equals_text ip own)) [
      | inl t ↦ cc (q, t)
      | inr f ↦
          let rest : exists_ip hosts ip ≡ ok false = rw f at q in
          elim (Bool-cases (host =ₛ name)) [
            | inl t ↦ rw (t, get_ip_from_opts-host_entry) (unfold equals_text in rw eq_refl)
            | inr g ↦ rw (g, p, f) (exists_ip-insert name ip access_ip hosts rest)
          ]
    ]

-- The hosts before and after one argument.
pub data Edit (d : Fields) : Fields → Type 0 where
  kept : Edit d d
  written : (name : String) (opts : Value) → Edit d (insert name opts d)
  erased : (name : String) → has_key name d ≡ true → Edit d (erase name d)

pub Edit-Distinct : {d e : Fields} → Edit d e → Distinct (keys d) → Distinct (keys e)
Edit-Distinct kept u = u
Edit-Distinct {d} (written name opts) u = insert-Distinct name opts d u
Edit-Distinct {d} (erased name there) u = erase-Distinct name d u

-- An edit of the hosts of a state, seen from the equation of the state behind it.
abbrev pub EditTo : Scan → Scan → Type 0
EditTo s s' = Edit s.all_hosts s'.all_hosts

pub delete_host-Edit : (x : String) (s s' : Scan) → delete_host x s ≡ ok s' → EditTo s s'
unfolding delete_host
delete_host-Edit x s s' e = elim (Bool-cases (has_key x s.all_hosts)) [
  | inl there ↦ subst (EditTo s) (ok-injective (rw there at e)) (erased x there)
  | inr absent ↦
      let (found, p, q) = bind-eq-ok (exists_ip s.all_hosts x) _ (rw absent at e) in
      elim (Bool-cases found) [
        | inl t ↦
            let (h, r, there) = host_by_ip-of_exists s.all_hosts x (p ∙ ap ok t) in
            subst (EditTo s) (ok-injective (rw (t, r) at q)) (erased h there)
        | inr f ↦ subst (EditTo s) (ok-injective (rw f at q)) kept
      ]
]

module _ (settings : Settings) (check_output : String → Result String) where
  -- What `add_ip` did: nothing to the hosts, or one host with the address was written.
  pub data Added (s : Scan) : Scan → Type 0 where
    skipped :
        (s' : Scan) → s'.all_hosts ≡ s.all_hosts → s'.next_host_id ≡ s.next_host_id → Added s s'
    wrote :
        (s' : Scan) (name ip access_ip : String)
        → exists_ip s.all_hosts ip ≡ ok false
        → new_name settings check_output s.next_host_id access_ip ≡ ok (name, s'.next_host_id)
        → s'.all_hosts ≡ insert name (host_entry ip access_ip) s.all_hosts
        → Added s s'

  pub add_ip-Added :
      (host : String) (s s' : Scan) → add_ip settings check_output host s ≡ ok s' → Added s s'
  unfolding add_ip
  add_ip-Added host s s' e =
      let (parts, _, p) = bind-eq-ok (addresses host) _ e in
      elim (Bool-cases (has_key host s.all_hosts)) [
        | inl t ↦ subst (Added s) (ok-injective (rw t at p)) (skipped _ refl refl)
        | inr f ↦
            let (found, q, r) = bind-eq-ok (exists_ip s.all_hosts parts.0) _ (rw f at p) in
            elim (Bool-cases found) [
              | inl t ↦ subst (Added s) (ok-injective (rw t at r)) (skipped _ refl refl)
              | inr g ↦
                  let (named, n, w) =
                    bind-eq-ok (new_name settings check_output s.next_host_id parts.1) _
                      (rw g at r) in
                  subst (Added s) (ok-injective w)
                    (wrote _ named.0 parts.0 parts.1 (q ∙ ap ok g) n refl)
            ]
      ]
