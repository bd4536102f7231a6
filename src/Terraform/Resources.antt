-- ===== src/Terraform/Resources.antt =====
-- The state files of terraform.py and the resources in them. `json.load` of an opened file is
-- `read_json`, `str` of a list or a mapping is `str_of`, and a pass over the files calls
-- `random.randint` in the order of the numbers that `convert_to_v3_structure` counts.
use factory_pattern_design.Base.{
  ℕ, String, ◌<>◌, Bool, true, false, not, ◌||◌, none, some, List, [], ◌∷◌, ◌==◌, code,
  if◌then◌else◌,
}
use factory_pattern_design.Base.Text.{before_suffix}
use factory_pattern_design.Base.Decimal.{decimal}
use factory_pattern_design.Base.Result.{
  Error, Result, ok, err, key_error, type_error, index_error, bind,
}
use factory_pattern_design.Base.Exec.{returned, raised, Exec, pure, lift, ◌>>=◌}
use factory_pattern_design.Base.Generator.{Generator, finished, failed, yields, first_do}
use factory_pattern_design.Yaml.{
  Value, null, bool, num, str, list, dict, Items, nil, cons, Fields, end, field, keys, insert, has,
  subscript, get_or, text, mapping,
}
use factory_pattern_design.Terraform.Flatten.{convert_to_v3_structure}

-- What a resource is known by, and its data. The name of its module is computed, and not used.
pub record Resource : Type 0 where
  pub key : String
  pub resource : Value

-- A file that is named only of dots in front of `.tfstate` has no extension.
unfoldable pub has_name : String → Bool
has_name String.[] = false
has_name (String.◌∷◌ c s) = not (code c == b'.') || has_name s

-- `os.path.splitext(name)[-1] == '.tfstate'`
unfoldable pub is_state_file : String → Bool
unfolding has_name
is_state_file name = elim (before_suffix ".tfstate" name) [
  | none ↦ false
  | some base ↦ has_name base
]

-- The state files of one directory, in front of the others.
unfoldable pub state_files :
    (String → String → String) → String → List String → List String → List String
unfolding is_state_file
state_files join_path dirpath [] rest = rest
state_files join_path dirpath (name ∷ filenames) rest =
    let more = state_files join_path dirpath filenames rest in
    if is_state_file name then join_path dirpath name ∷ more else more

-- `tfstates`, for what `os.walk` finds
unfoldable pub tfstates : (String → String → String) → List (String × List String) → List String
unfolding state_files
tfstates join_path [] = []
tfstates join_path ((dirpath, filenames) ∷ directories) =
    state_files join_path dirpath filenames (tfstates join_path directories)

unfoldable pub item_values : Items → List Value
item_values nil = []
item_values (cons v vs) = v ∷ item_values vs

unfoldable pub name_values : List String → List Value
name_values [] = []
name_values (k ∷ ks) = str k ∷ name_values ks

unfoldable pub characters : String → List Value
characters String.[] = []
characters (String.◌∷◌ c s) = str (String.◌∷◌ c "") ∷ characters s

-- `for x in v`
unfoldable pub elements : Value → Result (List Value)
unfolding item_values name_values characters
elements (list vs) = ok (item_values vs)
elements (dict d) = ok (name_values (keys d))
elements (str s) = ok (characters s)
elements _ = err type_error

unfoldable pub last_value : List Value → Result Value
last_value [] = err index_error
last_value (v ∷ []) = ok v
last_value (v ∷ w ∷ vs) = last_value (w ∷ vs)

-- `v[-1]`
unfoldable pub last_of : Value → Result Value
unfolding last_value item_values characters
last_of (list vs) = last_value (item_values vs)
last_of (str s) = last_value (characters s)
last_of (dict d) = err (key_error "-1")
last_of _ = err type_error

unfoldable pub module_resources : Fields → Generator Resource → Generator Resource
module_resources end rest = rest
module_resources (field key resource resources) rest =
    yields (record { key = key; resource = resource }) (module_resources resources rest)

unfoldable pub modules_v3 : List Value → Generator Resource → Generator Resource
unfolding module_resources
modules_v3 [] rest = rest
modules_v3 (m ∷ modules) rest =
    first_do
      (bind (subscript "path" m)
        λ path. bind (last_of path) λ name. bind (subscript "resources" m) mapping)
      λ resources. module_resources resources (modules_v3 modules rest)

module _ (str_of : Value → String) where
  -- `str(v)`
  unfoldable pub shown : Value → String
  shown null = "None"
  shown (bool true) = "True"
  shown (bool false) = "False"
  shown (num n) = decimal n
  shown (str s) = s
  shown (list vs) = str_of (list vs)
  shown (dict d) = str_of (dict d)

  -- `"{}.{}".format(a, b)`
  unfoldable pub dotted : String → Value → String
  unfolding shown
  dotted front v = front <> ("." <> shown v)

  module _ (randint : ℕ → ℕ) where
    -- One instance of a resource of version 4.
    unfoldable pub read_instance : Value → Value → Exec Error ℕ Resource
    unfolding dotted
    read_instance resource instance' = do
      kind ← lift (subscript "type" resource)
      name ← lift (subscript "name" resource)
      indexed ← lift (has "index_key" instance')
      index ← if indexed then lift (subscript "index_key" instance') else pure null
      provider ← lift (subscript "provider" resource)
      depends_on ← lift (get_or "depends_on" (list nil) instance')
      attributes ← lift (subscript "attributes" instance')
      flat ← convert_to_v3_structure randint attributes
      has_id ← lift (has "id" attributes)
      id ← if has_id then lift (subscript "id" attributes) else pure null
      meta ← lift (get_or "meta" (dict end) attributes)
      let key = dotted (shown kind) name
      let primary = field "attributes" (dict flat) end
      pure (record {
        key = if indexed then dotted key index else key;
        resource = dict (
            field "type" kind (
              field "provider" provider (
                field "depends_on" depends_on (
                  field "primary"
                    (dict (insert "meta" meta (if has_id then insert "id" id primary else primary)))
                    end))));
      })

    -- The loops, each with what is yielded after it.
    unfoldable pub instances :
        Value → List Value → ℕ → (ℕ → Generator Resource) → Generator Resource
    unfolding read_instance
    instances resource [] n rest = rest n
    instances resource (i ∷ is) n rest =
        let (outcome, n') = read_instance resource i n in
        elim outcome [ returned r ↦ yields r (instances resource is n' rest) | raised e ↦ failed e ]

    unfoldable pub resources_v4 : List Value → ℕ → (ℕ → Generator Resource) → Generator Resource
    unfolding instances
    resources_v4 [] n rest = rest n
    resources_v4 (resource ∷ resources) n rest =
        first_do
          (bind (subscript "provider" resource)
            λ provider. bind (text provider) λ name. bind (subscript "instances" resource) elements)
          λ found. instances resource found n λ n'. resources_v4 resources n' rest

pub data Version : Type 0 where
  three : Version
  four : Version

-- The tests of `tf_version`; the text of the exception is formatted with `%d`, which wants a number.
unfoldable pub version_of : Value → Result Version
version_of (num n) =
    if n == 3
    then ok Version.three
    else if n == 4
    then ok Version.four
    else err (key_error ("tfstate version " <> (decimal n <> " not supported")))
version_of (bool b) = err (key_error "tfstate version not supported")
version_of _ = err type_error

module _ (str_of : Value → String) (read_json : String → Result Value) (randint : ℕ → ℕ) where
  unfoldable pub iterresources : List String → ℕ → Generator Resource
  unfolding version_of modules_v3 resources_v4
  iterresources [] n = finished
  iterresources (filename ∷ filenames) n = first_do (read_json filename) λ state.
      first_do (bind (subscript "version" state) version_of) λ tf_version. elim tf_version [
        | Version.three ↦
            first_do (bind (subscript "modules" state) elements)
              λ modules. modules_v3 modules (iterresources filenames n)
        | Version.four ↦
            first_do (bind (subscript "resources" state) elements)
              λ resources. resources_v4 str_of randint resources n λ n'. iterresources filenames n'
      ]
