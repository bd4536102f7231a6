-- ===== src/Inventory/Layout/Same.antt =====
-- Operations on mappings that change nothing where what they do is done.
use mathlib.Core.Option.{some-injective}
use factory_pattern_design.Base.{
  String, true, ◌≡◌, refl, sym, ◌∙◌, ap, some, List, [], ◌∷◌, ◌=ₛ◌, if◌then◌else◌, arith, eq_iff,
  eq_refl, Bool-cases, inl, inr,
}
use factory_pattern_design.Base.Text.{member}
use factory_pattern_design.Yaml.{
  Value, null, Fields, end, field, keys, has_key, lookup, insert, update,
}
use factory_pattern_design.Yaml.Laws.{lookup-insert, lookup-eq-none, lookup-update_new}
use factory_pattern_design.Yaml.Distinct.{Distinct, member-keys}
use factory_pattern_design.Inventory.Layout.{keeps, restrict, add_members}
use factory_pattern_design.Inventory.Layout.Members.{has_key-add_members, has_key-restrict}

insert_same : (k : String) (v : Value) (d : Fields) → lookup k d ≡ some v → insert k v d ≡ d
unfolding lookup insert
insert_same k v end e = absurd (cc)
insert_same k v (field j w d) e = elim (Bool-cases (j =ₛ k)) [
  | inl same ↦ rw same (ap (λ x. field j x d) (sym (some-injective w v (rw same at e))))
  | inr other ↦ rw other (ap (λ x. field j w x) (insert_same k v d (rw other at e)))
]

-- All keys are kept.
abbrev pub AllKept : List String → Fields → Type 0
AllKept names d = (h : String) → has_key h d ≡ true → keeps names h ≡ true

pub restrict_same : (names : List String) (d : Fields) → AllKept names d → restrict names d ≡ d
unfolding restrict has_key
restrict_same names end kept = refl
restrict_same names (field k v d) kept =
    let here : has_key k (field k v d) ≡ true = rw (eq_refl k) refl in
    rw (kept k here)
      (ap (λ x. field k v x) (restrict_same names d (λ h e. kept h (ground (arith, e)))))

lookup-add_members :
    (h : String) (ms : List String) (d : Fields)
    → lookup h (add_members ms d) ≡ (if member h ms then some null else lookup h d)
unfolding add_members member
lookup-add_members h [] d = refl
lookup-add_members h (m ∷ ms) d =
    ground (arith, lookup-add_members h ms (insert m null d), lookup-insert h m null d)

add_members_same :
    (ms : List String) (d : Fields)
    → ((h : String) → member h ms ≡ true → lookup h d ≡ some null)
    → add_members ms d ≡ d
unfolding add_members member
add_members_same [] d there = refl
add_members_same (m ∷ ms) d there =
    let here : member m (m ∷ ms) ≡ true = rw (eq_refl m) refl in
    rw (insert_same m null d (there m here))
      (add_members_same ms d (λ h e. there h (ground (arith, e))))

-- The members that were chosen from the names are there, and kept.
pub members_again :
    (names ms : List String) (d : Fields)
    → ((h : String) → member h ms ≡ true → member h names ≡ true)
    → add_members ms (restrict names (add_members ms (restrict names d)))
      ≡ add_members ms (restrict names d)
members_again names ms d chosen =
    let d' = add_members ms (restrict names d) in
    rw
      (restrict_same names d' (λ h e.
        ground (
          arith,
          has_key-add_members h ms (restrict names d),
          has_key-restrict names h d,
          chosen h,
        )))
      (add_members_same ms d' (λ h e. lookup-add_members h ms (restrict names d) ∙ rw e refl))

pub lookup-update :
    (k : String) (v : Value) (hosts d : Fields)
    → Distinct (keys hosts)
    → lookup k hosts ≡ some v
    → lookup k (update hosts d) ≡ some v
unfolding update lookup keys
lookup-update k v end d u e = absurd (cc)
lookup-update k v (field j w hosts) d (new, u) e = elim (Bool-cases (j =ₛ k)) [
  | inl same ↦
      let at_k = (eq_iff j k).0 same in
      lookup-update_new k hosts (insert j w d) (ground (arith, member-keys j hosts, at_k))
      ∙ lookup-insert k j w d
      ∙ rw same (rw same at e)
  | inr other ↦ lookup-update k v hosts (insert j w d) u (rw other at e)
]

pub update_same :
    (hosts d : Fields)
    → Distinct (keys hosts)
    → ((k : String) (v : Value) → lookup k hosts ≡ some v → lookup k d ≡ some v)
    → update hosts d ≡ d
unfolding update lookup keys
update_same end d u there = refl
update_same (field k v hosts) d (new, u) there =
    let here : lookup k (field k v hosts) ≡ some v = rw (eq_refl k) refl in
    rw (insert_same k v d (there k v here)) (
      update_same hosts d u (λ j w e.
        there j w (ground (arith, member-keys k hosts, lookup-eq-none k hosts, eq_iff k j))))
