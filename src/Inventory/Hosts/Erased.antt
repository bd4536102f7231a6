-- ===== src/Inventory/Hosts/Erased.antt =====
-- A run of `build_hostnames` whose arguments are names of loaded hosts, each behind a dash.
use mathlib.Core.Option.{some-injective}
use factory_pattern_design.Base.{
  String, true, false, ◌≡◌, refl, ◌∙◌, ap, none, List, [], ◌∷◌, ◌=ₛ◌, arith, eq_iff, if◌then◌else◌,
  All, sym, some, Char, code, ◌==◌, Bool-cases, inl, inr,
}
use factory_pattern_design.Base.Text.{member, first}
use factory_pattern_design.Base.Result.{Result, ok}
use factory_pattern_design.Yaml.{Fields, keys, has_key, lookup, erase}
use factory_pattern_design.Yaml.Laws.{lookup-erase_ne, has_key-erase_ne, lookup-eq-none}
use factory_pattern_design.Yaml.Distinct.{Distinct, erase-Distinct, has_key-erase_self}
use factory_pattern_design.Inventory.Settings.{Settings, available_commands}
use factory_pattern_design.Inventory.Hosts.{Scan, delete_host, change_host, change_hosts}

-- An argument that removes a host.
abbrev pub dashed : String → String
dashed name = String.◌∷◌ "-" name

unfoldable pub all_dashed : List String → List String
all_dashed [] = []
all_dashed (name ∷ names) = dashed name ∷ all_dashed names

-- The hosts without those of the names.
unfoldable pub erase_all : List String → Fields → Fields
erase_all [] d = d
erase_all (name ∷ names) d = erase_all names (erase name d)

pub erase_all-Distinct :
    (names : List String) (d : Fields) → Distinct (keys d) → Distinct (keys (erase_all names d))
unfolding erase_all
erase_all-Distinct [] d u = u
erase_all-Distinct (name ∷ names) d u =
    erase_all-Distinct names (erase name d) (erase-Distinct name d u)

lookup-erase :
    (h name : String) (d : Fields)
    → Distinct (keys d)
    → lookup h (erase name d) ≡ (if name =ₛ h then none else lookup h d)
lookup-erase h name d u = elim (Bool-cases (name =ₛ h)) [
  | inl t ↦ rw (t, (eq_iff name h).0 t) (lookup-eq-none h (erase h d) (has_key-erase_self h d u))
  | inr f ↦ lookup-erase_ne h name d f ∙ rw f refl
]

pub lookup-erase_all :
    (h : String) (names : List String) (d : Fields)
    → Distinct (keys d)
    → lookup h (erase_all names d) ≡ (if member h names then none else lookup h d)
unfolding erase_all member
lookup-erase_all h [] d u = refl
lookup-erase_all h (name ∷ names) d u =
    lookup-erase_all h names (erase name d) (erase-Distinct name d u)
    ∙ ground (arith, lookup-erase h name d u)

has_key-erase :
    (h name : String) (d : Fields)
    → Distinct (keys d)
    → has_key h (erase name d) ≡ (if name =ₛ h then false else has_key h d)
has_key-erase h name d u = elim (Bool-cases (name =ₛ h)) [
  | inl t ↦ rw (t, (eq_iff name h).0 t) (has_key-erase_self h d u)
  | inr f ↦ has_key-erase_ne h name d f ∙ rw f refl
]

pub has_key-erase_all :
    (h : String) (names : List String) (d : Fields)
    → Distinct (keys d)
    → has_key h (erase_all names d) ≡ (if member h names then false else has_key h d)
unfolding erase_all member
has_key-erase_all h [] d u = refl
has_key-erase_all h (name ∷ names) d u =
    has_key-erase_all h names (erase name d) (erase-Distinct name d u)
    ∙ ground (arith, has_key-erase h name d u)

-- Every name has a host.
abbrev pub AllThere : List String → Fields → Type 0
AllThere names d = All (λ name. has_key name d ≡ true) names

AllThere-erase :
    (name : String) (names : List String) (d : Fields)
    → member name names ≡ false
    → AllThere names d
    → AllThere names (erase name d)
unfolding member
AllThere-erase name [] d new h = tt
AllThere-erase name (n ∷ names) d new (p, h) = (
  has_key-erase_ne n name d (ground (arith, eq_iff n name, eq_iff name n)) ∙ p,
  AllThere-erase name names d (ground arith) h,
)

module _ (settings : Settings) (check_output : String → Result String) where
  change_host-dashed :
      (name : String) (s : Scan)
      → has_key name s.all_hosts ≡ true
      → change_host settings check_output (dashed name) s
        ≡ ok (record s { all_hosts = erase name s.all_hosts })
  unfolding change_host delete_host
  change_host-dashed name s there = rw there refl

  pub change_hosts-dashed :
      (names : List String) (s : Scan)
      → Distinct names
      → AllThere names s.all_hosts
      → change_hosts settings check_output (all_dashed names) s
        ≡ ok (record s { all_hosts = erase_all names s.all_hosts })
  unfolding change_hosts erase_all all_dashed
  change_hosts-dashed [] s u h = refl
  change_hosts-dashed (name ∷ names) s (new, u) (there, h) = rw (change_host-dashed name s there) (
      change_hosts-dashed names (record s { all_hosts = erase name s.all_hosts }) u
        (AllThere-erase name names s.all_hosts new h))

not_dashed :
    (word name : String) (c : Char)
    → first word ≡ some c
    → (code c == b'-') ≡ false
    → (word =ₛ dashed name) ≡ false
not_dashed word name c f other = elim (Bool-cases (word =ₛ dashed name)) [
  | inl t ↦
      let same : some c ≡ some "-" = sym f ∙ ap first ((eq_iff word (dashed name)).0 t) in
      absurd (cc (some-injective c "-" same, other))
  | inr g ↦ g
]

-- No command starts with a dash.
pub dashed-no_command : (name : String) → member (dashed name) available_commands ≡ false
unfolding member
dashed-no_command name =
    rw
      (
        not_dashed "help" name "h" refl refl,
        not_dashed "print_cfg" name "p" refl refl,
        not_dashed "print_ips" name "p" refl refl,
        not_dashed "print_hostnames" name "p" refl refl,
        not_dashed "load" name "l" refl refl,
        not_dashed "add" name "a" refl refl,
      )
      refl
