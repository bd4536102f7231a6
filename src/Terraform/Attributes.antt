-- ===== src/Terraform/Attributes.antt =====
-- What the parsers of terraform.py do with the attributes of one resource. Names of hosts and ids of
-- ports are texts; where a state file has something else, the model raises `TypeError`.
use factory_pattern_design.Base.{
  ℕ, ◌+◌, String, ◌<>◌, Bool, false, ◌&&◌, ◌||◌, none, some, List, [], ◌∷◌, ◌++◌, ◌=ₛ◌, ◌==◌, code,
  if◌then◌else◌, starts_with, ltb,
}
use factory_pattern_design.Base.Decimal.{decimal}
use factory_pattern_design.Base.Integer.{int_of, is_positive_int}
use factory_pattern_design.Base.Result.{
  Result, ok, err, key_error, type_error, value_error, or_raise, ◌>>=◌,
}
use factory_pattern_design.Yaml.{
  Value, bool, num, str, dict, Items, nil, cons, Fields, end, field, insert, lookup, at,
  equals_text, truthy,
}
use factory_pattern_design.Terraform.Query.{Host}

unfoldable pub items : List Value → Items
items [] = nil
items (v ∷ vs) = cons v (items vs)

-- A key of a mapping, or an entry of `' '.join`, that has to be a text.
unfoldable pub only_text : Value → Result String
only_text (str s) = ok s
only_text _ = err type_error

-- `d[key]` of a mapping of attributes
unfoldable pub raw : String → Fields → Result Value
raw key d = or_raise (lookup key d) (key_error key)

-- `resource['primary']['attributes']`, whose items are read by all parsers
unfoldable pub raw_attributes : Value → Result Fields
raw_attributes resource = do
  attributes ← at ("primary" ∷ "attributes" ∷ []) resource
  elim attributes [ dict d ↦ ok d | _ ↦ err type_error ]

-- `re.sub("[\[\]]", "", s)`
unfoldable pub without_brackets : String → String
without_brackets String.[] = ""
without_brackets (String.◌∷◌ c s) =
    let rest = without_brackets s in
    if (code c == b'[') || (code c == b']') then rest else String.◌∷◌ c rest

-- Whether one character and then `device` stand somewhere at the end.
unfoldable pub ends_in_device : String → Bool
ends_in_device String.[] = false
ends_in_device (String.◌∷◌ c s) = (s =ₛ "device") || ends_in_device s

abbrev behind_volume : String → String
behind_volume
      (String.◌∷◌ _ (String.◌∷◌ _ (String.◌∷◌ _ (String.◌∷◌ _ (String.◌∷◌ _ (String.◌∷◌ _ s)))))) =
    s
behind_volume _ = ""

-- `re.search("^volume.*.device$", key)`
unfoldable pub is_volume_device : String → Bool
unfolding ends_in_device
is_volume_device key = starts_with key "volume" && ends_in_device (behind_volume key)

-- The loop that numbers the devices of the volumes.
unfoldable pub add_devices : Fields → ℕ → Fields → Fields
unfolding is_volume_device
add_devices end device_index attrs = attrs
add_devices (field key value source) device_index attrs =
    if is_volume_device key
    then add_devices source (device_index + 1)
        (insert ("disk_volume_device_" <> decimal device_index) value attrs)
    else add_devices source device_index attrs

-- `d.get(key, other)`
unfoldable pub value_or : String → Value → Fields → Value
value_or key other d = elim (lookup key d) [ none ↦ other | some v ↦ v ]

-- `attrs[key] = raw_attrs[from]`, if it is there
unfoldable pub copy_key : String → String → Fields → Fields → Fields
copy_key key from source attrs = elim (lookup from source) [
  | none ↦ attrs
  | some v ↦ insert key v attrs
]

-- `calculate_mantl_vars`, behind the parser that it wraps
unfoldable pub add_mantl_vars : Host → Host
add_mantl_vars host = record host {
  attrs =
      insert "consul_is_server"
        (bool (elim (lookup "role" host.attrs) [
          | none ↦ false
          | some role ↦ equals_text "control" role
        ]))
        host.attrs;
  groups =
      if elim (lookup "publicly_routable" host.attrs) [ none ↦ false | some v ↦ truthy v ]
      then host.groups ++ ("publicly_routable" ∷ [])
      else host.groups;
}

-- `int(v) > 0`
unfoldable pub is_positive : Value → Result Bool
unfolding int_of
is_positive (num n) = ok (ltb 0 n)
is_positive (bool b) = ok b
is_positive (str s) = elim (int_of s) [
  | none ↦ err (value_error "invalid literal for int()")
  | some n ↦ ok (is_positive_int n)
]
is_positive _ = err type_error
