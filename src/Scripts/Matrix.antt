-- ===== src/Scripts/Matrix.antt =====
-- tests/scripts/md-table/main.py: the table of what the CI tests. The database is pydblite's, the
-- record `Database`; YAML, the folder and the template are the record `World`. Names are texts; where
-- a file has something else, the model raises `TypeError` when it is read. `markdown` is never called.
pub mod Sorting
pub mod Rows
pub mod Printed
use factory_pattern_design.Base.{
  ℕ, String, Char, code, Bool, true, false, ◌||◌, ◌&&◌, Option, none, some, List, [], ◌∷◌, ◌=ₛ◌,
  ◌==◌, if◌then◌else◌, leb, ltb,
}
use factory_pattern_design.Base.Text.{is_digit}
use factory_pattern_design.Base.Result.{
  Result, ok, err, type_error, attribute_error, exit, or_raise, ◌>>=◌,
}
use factory_pattern_design.Yaml.{Value, str, get_or}

pub record Row : Type 0 where
  pub container_manager : String
  pub network_plugin : String
  pub operating_system : String

-- The columns of the database.
pub data Column : Type 0 where
  manager : Column
  plugin : Column
  system : Column

abbrev pub value : Column → Row → String
value manager row = row.container_manager
value plugin row = row.network_plugin
value system row = row.operating_system

-- `pydblite.Base`: `equals` is `db(column) == value`, `both` is `&` of two selections.
pub record Database : Type 1 where
  pub Db : Type 0
  pub Selection : Type 0
  pub create : Db
  pub insert : Row → Db → Db
  pub equals : Column → String → Db → Selection
  pub both : Selection → Selection → Selection
  pub len : Selection → ℕ
  pub get_unique_ids : Column → Db → List String

-- What the program reads: the names that `glob` finds, and the documents of the files. The template
-- gets three lists and a test.
pub record World : Type 0 where
  pub is_dir : Bool
  pub names : List String
  pub load : String → Result Value
  pub render : List String → List String → List String → (String → String → String → Bool) → String

-- `s <= t` of texts
unfoldable pub text_leb : String → String → Bool
text_leb String.[] t = true
text_leb (String.◌∷◌ c s) String.[] = false
text_leb (String.◌∷◌ c s) (String.◌∷◌ d t) =
    ltb (code c) (code d) || ((code c == code d) && text_leb s t)

insert_sorted : String → List String → List String
insert_sorted x [] = x ∷ []
insert_sorted x (y ∷ ys) =
    let rest = insert_sorted x ys in if text_leb x y then x ∷ (y ∷ ys) else y ∷ rest

-- `names.sort()`
unfoldable pub sort : List String → List String
unfolding insert_sorted text_leb
sort [] = []
sort (x ∷ xs) = insert_sorted x (sort xs)

abbrev is_lower : Char → Bool
is_lower c = leb b'a' (code c) && leb (code c) b'z'

-- What stands behind `[a-z-]+_`; the flag tells whether a character was seen.
unfoldable pub behind_kind : Bool → String → Option String
behind_kind seen String.[] = none
behind_kind seen (String.◌∷◌ c s) =
    let rest = behind_kind true s in
    if is_lower c || (code c == b'-')
    then rest
    else if seen && (code c == b'_')
    then some s
    else none

-- `[a-z0-9]*` at the front
unfoldable pub name_run : String → String
name_run String.[] = ""
name_run (String.◌∷◌ c s) =
    let rest = name_run s in if is_lower c || is_digit c then String.◌∷◌ c rest else ""

-- `x.group(1)`, with `none` where nothing matches
unfoldable pub group1 : String → Option String
unfolding behind_kind name_run
group1 name = elim (behind_kind false name) [
  | none ↦ none
  | some s ↦ if name_run s =ₛ "" then none else some (name_run s)
]

abbrev as_name : Value → Result String
as_name (str s) = ok s
as_name _ = err type_error

-- The body of the loop over the files, before `data.set`.
unfoldable pub read_row : World → String → Result Row
unfolding group1
read_row world name = do
  y ← world.load name
  container_manager ← get_or "container_manager" (str "containerd") y
  network_plugin ← get_or "kube_network_plugin" (str "calico") y
  operating_system ← or_raise (group1 name) attribute_error
  manager_name ← as_name container_manager
  plugin_name ← as_name network_plugin
  ok (record {
    container_manager = manager_name;
    network_plugin = plugin_name;
    operating_system = operating_system;
  })

module _ (database : Database) where
  -- `Data.set`; a database in memory has nothing to commit.
  unfoldable pub set : Row → database.Db → database.Db
  set row db = database.insert row db

  -- `Data.exists`
  unfoldable pub exists : database.Db → String → String → String → Bool
  exists db container_manager network_plugin operating_system = ltb 0 (
      database.len (
        database.both
          (database.both (database.equals manager container_manager db)
            (database.equals plugin network_plugin db))
          (database.equals system operating_system db)))

  module _ (world : World) where
    -- `Data.jinja`
    unfoldable pub jinja : database.Db → String
    unfolding exists sort
    jinja db =
        world.render (sort (database.get_unique_ids manager db))
          (sort (database.get_unique_ids plugin db)) (sort (database.get_unique_ids system db))
          (exists db)

    -- The loop over the files.
    unfoldable pub read_files : List String → database.Db → Result database.Db
    unfolding read_row set
    read_files [] db = ok db
    read_files (name ∷ names) db = do row ← read_row world name; read_files names (set row db)

    -- The whole program: what it prints.
    unfoldable pub main : Result String
    unfolding jinja read_files
    main =
        if world.is_dir
        then (do db ← read_files world.names database.create; ok (jinja db))
        else err (exit 2)
