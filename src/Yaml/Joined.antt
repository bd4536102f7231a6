-- ===== src/Yaml/Joined.antt =====
-- A mapping behind another, and insertion of keys that are new.
use factory_pattern_design.Base.{String, false, ◌||◌, ◌≡◌, refl, ap, arith, eq_iff}
use factory_pattern_design.Base.Text.{member}
use factory_pattern_design.Yaml.{Value, Fields, end, field, has_key, insert, keys}
use factory_pattern_design.Yaml.Distinct.{Distinct, member-keys}

unfoldable pub joined : Fields → Fields → Fields
joined end e = e
joined (field k v d) e = field k v (joined d e)

pub joined-end : (d : Fields) → joined d end ≡ d
unfolding joined
joined-end end = refl
joined-end (field k v d) = ap (λ x. field k v x) (joined-end d)

pub joined_assoc : (d e f : Fields) → joined (joined d e) f ≡ joined d (joined e f)
unfolding joined
joined_assoc end e f = refl
joined_assoc (field k v d) e f = ap (λ x. field k v x) (joined_assoc d e f)

pub has_key-joined :
    (k : String) (d e : Fields) → has_key k (joined d e) ≡ (has_key k d || has_key k e)
unfolding joined has_key
has_key-joined k end e = refl
has_key-joined k (field j v d) e = ground (arith, has_key-joined k d e)

pub insert-new :
    (k : String) (v : Value) (d : Fields)
    → has_key k d ≡ false
    → insert k v d ≡ joined d (field k v end)
unfolding joined has_key insert
insert-new k v end h = refl
insert-new k v (field j w d) h = ground (arith, insert-new k v d)

-- A key in the middle of a mapping without repetition is not in front of it.
pub Distinct-joined :
    (d : Fields) (k : String) (v : Value) (e : Fields)
    → Distinct (keys (joined d (field k v e)))
    → has_key k d ≡ false
unfolding joined has_key keys member
Distinct-joined end k v e u = refl
Distinct-joined (field j w d) k v e (new, u) = ground (
  arith,
  Distinct-joined d k v e u,
  eq_iff j k,
  member-keys j (joined d (field k v e)),
  has_key-joined j d (field k v e),
)
