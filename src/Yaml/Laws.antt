-- ===== src/Yaml/Laws.antt =====
-- Laws of the mappings.
use factory_pattern_design.Base.{
  String, ◌≡◌, refl, ◌∙◌, true, false, none, some, arith, ◌=ₛ◌, eq_iff, inl, inr, Bool-cases,
  if◌then◌else◌,
}
use factory_pattern_design.Yaml.{Value, Fields, end, field, lookup, has_key, insert, update, erase}

pub lookup-insert :
    (j k : String) (v : Value) (d : Fields)
    → lookup j (insert k v d) ≡ (if k =ₛ j then some v else lookup j d)
unfolding lookup insert
lookup-insert j k v end = refl
lookup-insert j k v (field i w d) =
    ground (arith, eq_iff k j, eq_iff i k, eq_iff i j, lookup-insert j k v d)

pub has_key-insert :
    (j k : String) (v : Value) (d : Fields)
    → has_key j (insert k v d) ≡ (if k =ₛ j then true else has_key j d)
unfolding has_key insert
has_key-insert j k v end = refl
has_key-insert j k v (field i w d) =
    ground (arith, eq_iff k j, eq_iff i k, eq_iff i j, has_key-insert j k v d)

-- A key that is there is found.
pub lookup-of_has_key :
    (k : String) (d : Fields) → has_key k d ≡ true → (v : Value) × (lookup k d ≡ some v)
unfolding lookup has_key
lookup-of_has_key k end h = cc
lookup-of_has_key k (field j v d) h = elim (Bool-cases (j =ₛ k)) [
  | inl e ↦ (v, rw e)
  | inr e ↦ let (w, p) = lookup-of_has_key k d (ground arith) in (w, rw e p)
]

pub lookup-eq-none : (k : String) (d : Fields) → has_key k d ≡ false → lookup k d ≡ none
unfolding lookup has_key
lookup-eq-none k end h = refl
lookup-eq-none k (field j v d) h = ground (arith, lookup-eq-none k d)

pub lookup-erase_ne :
    (j k : String) (d : Fields) → (k =ₛ j) ≡ false → lookup j (erase k d) ≡ lookup j d
unfolding lookup erase
lookup-erase_ne j k end h = refl
lookup-erase_ne j k (field i w d) h =
    ground (arith, eq_iff k j, eq_iff i k, eq_iff i j, lookup-erase_ne j k d h)

pub has_key-erase_ne :
    (j k : String) (d : Fields) → (k =ₛ j) ≡ false → has_key j (erase k d) ≡ has_key j d
unfolding has_key erase
has_key-erase_ne j k end h = refl
has_key-erase_ne j k (field i w d) h =
    ground (arith, eq_iff k j, eq_iff i k, eq_iff i j, has_key-erase_ne j k d h)

-- A key that the first mapping lacks is found in the second.
pub lookup-update_new :
    (k : String) (e d : Fields) → has_key k e ≡ false → lookup k (update e d) ≡ lookup k d
unfolding update has_key
lookup-update_new k end d new = refl
lookup-update_new k (field j v e) d new =
    lookup-update_new k e (insert j v d) (ground arith) ∙ lookup-insert k j v d ∙ ground arith
