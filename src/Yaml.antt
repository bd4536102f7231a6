-- ===== src/Yaml.antt =====
-- The documents that the YAML library reads and writes: `yaml_config` of
-- contrib/inventory_builder/inventory.py is one. A mapping keeps the order of its keys, which are
-- texts. Subscripts, `in`, iteration and `del` raise what Python raises.
pub mod Laws
pub mod Distinct
pub mod Joined
use factory_pattern_design.Base.{
  ℕ, ◌+◌, String, Bool, true, false, not, Option, none, some, List, [], ◌∷◌, ◌=ₛ◌, ◌==◌,
  if◌then◌else◌,
}
use factory_pattern_design.Base.Text.{contains_text}
use factory_pattern_design.Base.Result.{
  Result, ok, err, key_error, type_error, attribute_error, ◌>>=◌, or_raise,
}

mutual
  pub data Value : Type 0 where
    null : Value
    bool : Bool → Value
    num : ℕ → Value
    str : String → Value
    list : Items → Value
    dict : Fields → Value

  pub data Items : Type 0 where
    nil : Items
    cons : Value → Items → Items

  pub data Fields : Type 0 where
    end : Fields
    field : String → Value → Fields → Fields

-- `d.get(k)`, with `none` for a missing key
unfoldable pub lookup : String → Fields → Option Value
lookup k end = none
lookup k (field j v d) = if j =ₛ k then some v else lookup k d

-- `k in d`
unfoldable pub has_key : String → Fields → Bool
has_key k end = false
has_key k (field j v d) = if j =ₛ k then true else has_key k d

-- `d[k] = v`: a key that is there keeps its place
unfoldable pub insert : String → Value → Fields → Fields
insert k v end = field k v end
insert k v (field j w d) = if j =ₛ k then field j v d else field j w (insert k v d)

-- `d.pop(k)` and `del d[k]` of a key that is there: the first entry of the key goes
unfoldable pub erase : String → Fields → Fields
erase k end = end
erase k (field j w d) = if j =ₛ k then d else field j w (erase k d)

-- `d.update(e)` is `update e d`
unfoldable pub update : Fields → Fields → Fields
update end d = d
update (field k v e) d = update e (insert k v d)

unfoldable pub keys : Fields → List String
keys end = []
keys (field k v d) = k ∷ keys d

unfoldable pub count_items : Items → ℕ
count_items nil = 0
count_items (cons v vs) = count_items vs + 1

-- `len(d)`
unfoldable pub count_fields : Fields → ℕ
count_fields end = 0
count_fields (field k v d) = count_fields d + 1

abbrev pub is_null : Value → Bool
is_null null = true
is_null _ = false

-- Python's truth value
unfoldable pub truthy : Value → Bool
truthy null = false
truthy (bool b) = b
truthy (num n) = not (n == 0)
truthy (str s) = not (s =ₛ "")
truthy (list nil) = false
truthy (list (cons _ _)) = true
truthy (dict end) = false
truthy (dict (field _ _ _)) = true

-- `v == s`, for a text `s`
unfoldable pub equals_text : String → Value → Bool
equals_text s (str t) = t =ₛ s
equals_text s _ = false

unfoldable pub item_member : String → Items → Bool
item_member s nil = false
item_member s (cons v vs) = if equals_text s v then true else item_member s vs

-- `k in v`
unfoldable pub has : String → Value → Result Bool
has k (dict d) = ok (has_key k d)
has k (list vs) = ok (item_member k vs)
has k (str s) = ok (contains_text k s)
has k _ = err type_error

-- `v[k]`
unfoldable pub subscript : String → Value → Result Value
subscript k (dict d) = or_raise (lookup k d) (key_error k)
subscript k _ = err type_error

-- `v[k₁][k₂]…`
unfoldable pub at : List String → Value → Result Value
at [] v = ok v
at (k ∷ path) v = subscript k v >>= at path

-- `v[k₁][k₂]… = x`
unfoldable pub put : List String → Value → Value → Result Value
put [] x v = ok x
put (k ∷ []) x (dict d) = ok (dict (insert k x d))
put (k ∷ j ∷ path) x (dict d) = do
  inner ← or_raise (lookup k d) (key_error k)
  inner' ← put (j ∷ path) x inner
  ok (dict (insert k inner' d))
put (k ∷ path) x _ = err type_error

-- `v.items()`, `v.keys()` and `v.copy()` of a mapping
unfoldable pub mapping : Value → Result Fields
mapping (dict d) = ok d
mapping _ = err attribute_error

-- `v.get(k, other)`
unfoldable pub get_or : String → Value → Value → Result Value
get_or k other (dict d) = elim (lookup k d) [ none ↦ ok other | some v ↦ ok v ]
get_or k other _ = err attribute_error

-- A value that has to be a text: what is none has not the methods of one.
unfoldable pub text : Value → Result String
text (str s) = ok s
text _ = err attribute_error

-- `del d[k]`
unfoldable pub delete : String → Value → Result Value
delete k (dict d) = if has_key k d then ok (dict (erase k d)) else err (key_error k)
delete k _ = err type_error

-- `for k in v` in a loop that uses `k` as a key of `v`: what is no text cannot be one
item_names : Items → Result (List String)
item_names nil = ok []
item_names (cons (str s) vs) = do rest ← item_names vs; ok (s ∷ rest)
item_names (cons _ vs) = err type_error

unfoldable pub iterate : Value → Result (List String)
unfolding item_names
iterate (dict d) = ok (keys d)
iterate (list vs) = item_names vs
iterate (str s) = if s =ₛ "" then ok [] else err type_error
iterate _ = err type_error
