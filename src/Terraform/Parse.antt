-- ===== src/Terraform/Parse.antt =====
-- The readers of flat attributes of contrib/terraform/terraform.py, and the clean-up of group names.
-- A separator is one character.
pub mod Laws
use factory_pattern_design.Base.{
  ℕ, Bool, not, String, Char, code, true, false, ◌||◌, Option, none, some, List, [], ◌∷◌, map, ◌==◌,
  ◌=ₛ◌, if◌then◌else◌, ◌&&◌,
}
use factory_pattern_design.Base.Text.{first}
use factory_pattern_design.Base.Result.{Result, ok, err, value_error, index_error, or_raise, ◌>>=◌}
use factory_pattern_design.Yaml.{Value, bool, dict, Fields, end, field, insert, text}

-- The two parts of `key.split(sep, 1)`, with `none` where there is no separator.
abbrev pub in_front : Char → Option (String × String) → Option (String × String)
in_front c none = none
in_front c (some (prefix, rest)) = some (String.◌∷◌ c prefix, rest)

unfoldable pub split_once : ℕ → String → Option (String × String)
split_once sep String.[] = none
split_once sep (String.◌∷◌ c s) =
    let rest = split_once sep s in if code c == sep then some ("", s) else in_front c rest

abbrev pub under :
    String → Value → List (String × Value) → Option (String × String) → List (String × Value)
under wanted value entries none = entries
under wanted value entries (some (prefix, rest)) =
    if (prefix =ₛ wanted) && not (rest =ₛ "#") then (rest, value) ∷ entries else entries

-- `_parse_prefix`
unfoldable pub parse_prefix : Fields → String → ℕ → List (String × Value)
unfolding split_once
parse_prefix end prefix sep = []
parse_prefix (field key value source) prefix sep =
    under prefix value (parse_prefix source prefix sep) (split_once sep key)

unfoldable pub from_pairs : Fields → List (String × Value) → Fields
from_pairs d [] = d
from_pairs d ((key, value) ∷ pairs) = from_pairs (insert key value d) pairs

unfoldable pub parse_dict : Fields → String → ℕ → Fields
unfolding parse_prefix from_pairs
parse_dict source prefix sep = from_pairs end (parse_prefix source prefix sep)

abbrev pub second : String × Value → Value
second (key, value) = value

unfoldable pub parse_list : Fields → String → ℕ → List Value
unfolding parse_prefix
parse_list source prefix sep = map second (parse_prefix source prefix sep)

-- `attrs[idx][key] = value`, where `attrs` makes an empty mapping for a new index
unfoldable pub put_attr : String → String → Value → List (String × Fields) → List (String × Fields)
put_attr idx key value [] = (idx, insert key value end) ∷ []
put_attr idx key value ((i, d) ∷ attrs) =
    let rest = put_attr idx key value attrs in
    if i =ₛ idx then (i, insert key value d) ∷ attrs else (i, d) ∷ rest

-- The loop of `parse_attr_list`; a key without a second separator cannot be unpacked.
unfoldable pub collect_attrs :
    ℕ → List (String × Value) → List (String × Fields) → Result (List (String × Fields))
unfolding put_attr
collect_attrs sep [] attrs = ok attrs
collect_attrs sep ((compkey, value) ∷ pairs) attrs = do
  (idx, key) ← or_raise (split_once sep compkey) (value_error "not enough values to unpack")
  collect_attrs sep pairs (put_attr idx key value attrs)

abbrev dicts : List (String × Fields) → List Value
dicts [] = []
dicts ((idx, d) ∷ attrs) = dict d ∷ dicts attrs

unfoldable pub parse_attr_list : Fields → String → ℕ → Result (List Value)
unfolding collect_attrs parse_prefix
parse_attr_list source prefix sep = do
  attrs ← collect_attrs sep (parse_prefix source prefix sep) []
  ok (dicts attrs)

-- `parse_bool`; what is neither a Boolean nor a text has no method `lower`.
unfoldable pub parse_bool : Value → Result Bool
parse_bool (bool b) = ok b
parse_bool string_form = do
  s ← text string_form
  c ← or_raise (first s) index_error
  if (code c == b't') || (code c == b'T')
      then ok true
      else if (code c == b'f') || (code c == b'F')
      then ok false
      else err (value_error "could not convert to a bool")

abbrev pub replaced : Char → Char
replaced c =
    if (code c == b'+')
      || ((code c == b'-')
          || ((code c == b'=') || ((code c == b'.') || ((code c == b'/') || (code c == b' ')))))
    then "_"
    else c

unfoldable pub sanitize : String → String
sanitize String.[] = ""
sanitize (String.◌∷◌ c s) = String.◌∷◌ (replaced c) (sanitize s)

unfoldable pub sanitize_groups : List String → List String
unfolding sanitize
sanitize_groups groups = map sanitize groups
