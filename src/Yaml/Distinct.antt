-- ===== src/Yaml/Distinct.antt =====
-- A mapping has no key twice, and its operations keep it so.
use factory_pattern_design.Base.{String, false, ◌≡◌, refl, List, [], ◌∷◌, arith, eq_iff}
use factory_pattern_design.Base.Text.{member}
use factory_pattern_design.Yaml.{Value, Fields, end, field, keys, has_key, insert, erase}
use factory_pattern_design.Yaml.Laws.{has_key-insert}

-- No name twice.
abbrev pub Distinct : List String → Type 0
Distinct [] = Unit
Distinct (x ∷ xs) = (member x xs ≡ false) × Distinct xs

pub member-keys : (k : String) (d : Fields) → member k (keys d) ≡ has_key k d
unfolding member keys has_key
member-keys k end = refl
member-keys k (field j v d) = ground (arith, member-keys k d)

pub insert-Distinct :
    (k : String) (v : Value) (d : Fields) → Distinct (keys d) → Distinct (keys (insert k v d))
unfolding keys insert member
insert-Distinct k v end u = (refl, tt)
insert-Distinct k v (field j w d) (new, u) = ground (
  arith,
  insert-Distinct k v d u,
  member-keys j (insert k v d),
  member-keys j d,
  has_key-insert j k v d,
  eq_iff j k,
  eq_iff k j,
)

has_key-erase : (j k : String) (d : Fields) → has_key j d ≡ false → has_key j (erase k d) ≡ false
unfolding has_key erase
has_key-erase j k end h = h
has_key-erase j k (field i w d) h = ground (arith, has_key-erase j k d)

pub erase-Distinct : (k : String) (d : Fields) → Distinct (keys d) → Distinct (keys (erase k d))
unfolding keys erase
erase-Distinct k end u = u
erase-Distinct k (field j w d) (new, u) =
    ground
      (arith, erase-Distinct k d u, member-keys j (erase k d), member-keys j d, has_key-erase j k d)

-- An erased key is gone, where no key stands twice.
pub has_key-erase_self :
    (k : String) (d : Fields) → Distinct (keys d) → has_key k (erase k d) ≡ false
unfolding keys has_key erase
has_key-erase_self k end u = refl
has_key-erase_self k (field j w d) (new, u) =
    ground (arith, has_key-erase_self k d u, member-keys k d, member-keys j d, eq_iff j k)
