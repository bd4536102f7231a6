-- ===== src/Terraform/Flatten.antt =====
-- `convert_to_v3_structure` of terraform.py: nested attributes as flat ones. `random.randint` is a
-- function of the number of its calls so far, which is the state.
pub mod Paths
pub mod Mappings
pub mod Lists
pub mod Keys
pub mod Under
pub mod Reads
pub mod Finds
use factory_pattern_design.Base.{ℕ, suc, ◌+◌, String, ◌<>◌}
use factory_pattern_design.Base.Decimal.{decimal}
use factory_pattern_design.Base.Result.{Error, attribute_error}
use factory_pattern_design.Base.Exec.{Exec, pure, raise, returned, ◌>>=◌}
use factory_pattern_design.Yaml.{
  Value, null, bool, num, str, list, dict, Items, nil, cons, Fields, end, field, insert, update,
  count_items, count_fields,
}

-- The length of a list that is not empty.
unfoldable pub counted : Items → String → Fields → Fields
counted nil path result = result
counted (cons v vs) path result = insert (path <> ".#") (num (count_items (cons v vs))) result

-- The entries of a mapping, which are copied as they are.
unfoldable pub copied : Fields → String → Fields → Fields
copied end path result = result
copied (field k v value) path result = copied value path (insert (path <> ("." <> k)) v result)

module _ (randint : ℕ → ℕ) where
  abbrev Flattened : Type 0
  Flattened = Exec Error ℕ Fields

  unfoldable mutual
    unfolding counted copied

    pub convert : Value → String → Flattened
    convert (str s) prefix =
        λ n. (returned (field (prefix <> decimal (randint n)) (str s) end), suc n)
    convert (dict d) prefix = convert_fields d prefix end
    convert null prefix = raise attribute_error
    convert (bool b) prefix = raise attribute_error
    convert (num n) prefix = raise attribute_error
    convert (list vs) prefix = raise attribute_error

    pub convert_fields : Fields → String → Fields → Flattened
    convert_fields end prefix result = pure result
    convert_fields (field key (list vs) d) prefix result =
        convert_items vs (prefix <> key) 0 (counted vs (prefix <> key) result) >>= λ more.
        convert_fields d prefix more
    convert_fields (field key (dict value) d) prefix result = convert_fields d prefix (
        copied value (prefix <> key)
          (insert (prefix <> (key <> ".%")) (num (count_fields value)) result))
    convert_fields (field key null d) prefix result =
        convert_fields d prefix (insert (prefix <> key) null result)
    convert_fields (field key (bool b) d) prefix result =
        convert_fields d prefix (insert (prefix <> key) (bool b) result)
    convert_fields (field key (num n) d) prefix result =
        convert_fields d prefix (insert (prefix <> key) (num n) result)
    convert_fields (field key (str s) d) prefix result =
        convert_fields d prefix (insert (prefix <> key) (str s) result)

    -- The loop over a list, at the index `i`.
    pub convert_items : Items → String → ℕ → Fields → Flattened
    convert_items nil path i result = pure result
    convert_items (cons v vs) path i result =
        convert v (path <> ("." <> (decimal i <> "."))) >>= λ more.
        convert_items vs path (i + 1) (update more result)

  -- `convert_to_v3_structure(attributes)`
  unfoldable pub convert_to_v3_structure : Value → Flattened
  unfolding convert
  convert_to_v3_structure attributes = convert attributes ""
