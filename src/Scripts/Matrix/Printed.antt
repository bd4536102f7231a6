-- ===== src/Scripts/Matrix/Printed.antt =====
-- What the program prints is the table of the rows that it reads.
use factory_pattern_design.Base.{
  String, true, inl, inr, ◌≡◌, refl, ◌∙◌, sym, ap, List, [], ◌∷◌, ◌++◌, map,
}
use mathlib.Core.List.{append_assoc, append-nil}
use mathlib.Core.Path.{fun_ext}
use factory_pattern_design.Base.Text.{member}
use factory_pattern_design.Base.Result.{
  Error, Result, ok, err, bind-eq-err, bind-eq-ok, ok-injective, ◌>>=◌,
}
use factory_pattern_design.Yaml.Distinct.{Distinct}
use factory_pattern_design.Scripts.Matrix.{
  Row, Column, manager, plugin, system, value, Database, World, read_row, read_files, sort, exists,
  set, jinja, main,
}
use factory_pattern_design.Scripts.Matrix.Sorting.{Sorted, sort-Distinct, sort-member, sort-Sorted}
use factory_pattern_design.Scripts.Matrix.Rows.{IsDatabase, has_row, exists-has_row}

-- The rows of the files, one of each, up to the first that cannot be read.
unfoldable pub rows_of : World → List String → Result (List Row)
rows_of world [] = ok []
rows_of world (name ∷ names) = do
  row ← read_row world name
  rows ← rows_of world names
  ok (row ∷ rows)

-- The names of a column: sorted, once each, and those of the rows.
pub record IsColumn (column : Column) (rows : List Row) (names : List String) : Type 0 where
  pub sorted : Sorted names
  pub once : Distinct names
  pub same : (v : String) → member v names ≡ member v (map (value column) rows)

module _ (database : Database) (laws : IsDatabase database) (world : World) where
  -- The loop puts the rows of the files behind those that are there.
  read_files-rows :
      (names : List String) (db : database.Db) (rows : List Row)
      → rows_of world names ≡ ok rows
      → (db' : database.Db) × (read_files database world names db ≡ ok db')
        × (laws.rows db' ≡ laws.rows db ++ rows)
  unfolding rows_of read_files set
  read_files-rows [] db rows e = (db, refl, rw (← ok-injective e) (sym (append-nil (laws.rows db))))
  read_files-rows (name ∷ names) db rows e =
      let (row, one, e1) = bind-eq-ok (read_row world name) _ e in
      let (rest, later, e2) = bind-eq-ok (rows_of world names) _ e1 in
      let (db', done, same) = read_files-rows names (database.insert row db) rest later in
      (
        db',
        rw one done,
        same
            ∙ ap (λ x. x ++ rest) (laws.insert-rows row db)
            ∙ append_assoc (laws.rows db) (row ∷ []) rest
            ∙ ap (λ x. laws.rows db ++ x) (ok-injective e2),
      )

  read_files-err :
      (names : List String) (db : database.Db) (e : Error)
      → rows_of world names ≡ err e
      → read_files database world names db ≡ err e
  unfolding rows_of read_files set
  read_files-err [] db e h = absurd (cc)
  read_files-err (name ∷ names) db e h = elim (bind-eq-err (read_row world name) _ h) [
    | inl at_once ↦ rw at_once refl
    | inr (row, one, later) ↦ elim (bind-eq-err (rows_of world names) _ later) [
      | inl behind ↦ rw one (read_files-err names (database.insert row db) e behind)
      | inr (rest, two, none_left) ↦ absurd (cc)
    ]
  ]

  column_of :
      (column : Column) (db : database.Db) (rows : List Row)
      → laws.rows db ≡ rows
      → IsColumn column rows (sort (database.get_unique_ids column db))
  column_of column db rows same = record {
    sorted = sort-Sorted (database.get_unique_ids column db);
    once = sort-Distinct _ (laws.unique-Distinct column db);
    same = λ v.
        sort-member v (database.get_unique_ids column db)
        ∙ laws.unique-member column v db
        ∙ ap (λ x. member v (map (value column) x)) same;
  }

  -- With a database that does what `IsDatabase` says, in a folder of readable files: the program
  -- prints the template with the names of the three columns, each sorted, without repetition and
  -- with exactly the names of the files, and with the test that holds for exactly the combinations
  -- that some file has.
  pub main_table :
      (rows : List Row)
      → world.is_dir ≡ true
      → rows_of world world.names ≡ ok rows
      → (managers plugins systems : List String) × IsColumn manager rows managers
        × IsColumn plugin rows plugins
        × IsColumn system rows systems
        × (main database world
            ≡ ok (world.render managers plugins systems (λ c n o. has_row c n o rows)))
  unfolding main jinja
  main_table rows folder read =
      let (db, done, all) = read_files-rows world.names database.create rows read in
      let same = all ∙ ap (λ x. x ++ rows) laws.create-rows in
      let test : exists database db ≡ (λ c n o. has_row c n o rows) = fun_ext λ c.
        fun_ext λ n.
          fun_ext λ o. exists-has_row database laws db c n o ∙ ap (λ x. has_row c n o x) same in
      (
        sort (database.get_unique_ids manager db),
        sort (database.get_unique_ids plugin db),
        sort (database.get_unique_ids system db),
        column_of manager db rows same,
        column_of plugin db rows same,
        column_of system db rows same,
        rw (folder, done, test) refl,
      )

  -- In a folder of which a file cannot be read, the program raises what reading the first such file
  -- raises, and prints no table.
  pub main_unreadable :
      (e : Error)
      → world.is_dir ≡ true
      → rows_of world world.names ≡ err e
      → main database world ≡ err e
  unfolding main
  main_unreadable e folder unread =
      rw (folder, read_files-err world.names database.create e unread) refl
