-- ===== src/Scripts/Matrix/Rows.antt =====
-- What is relied on of the database, and that `exists` looks for a row.
use factory_pattern_design.Base.{
  ℕ, zero, suc, String, Bool, true, false, ◌&&◌, ◌||◌, ◌≡◌, ◌↔◌, refl, ◌∙◌, sym, Option, none, some,
  List, [], ◌∷◌, ◌++◌, ◌=ₛ◌, map, get_elem?, arith, Bool-cases, inl, inr, ltb,
}
use factory_pattern_design.Base.Text.{member}
use factory_pattern_design.Yaml.Distinct.{Distinct}
use factory_pattern_design.Scripts.Matrix.{
  Row, Column, manager, plugin, system, value, Database, exists,
}

-- A row, or none, with the value.
abbrev pub holds : Column → String → Option Row → Bool
holds column v none = false
holds column v (some row) = value column row =ₛ v

-- The documentation of pydblite: a database has the rows that were inserted; a selection is a set of
-- them, which can be cut with another and counted; the values of a column come once each.
pub record IsDatabase (database : Database) : Type 0 where
  pub rows : database.Db → List Row
  pub selected : ℕ → database.Selection → Bool
  pub create-rows : rows database.create ≡ []
  pub insert-rows :
      (row : Row) (db : database.Db) → rows (database.insert row db) ≡ rows db ++ (row ∷ [])
  pub equals-selected :
      (i : ℕ) (column : Column) (v : String) (db : database.Db)
      → selected i (database.equals column v db) ≡ holds column v (get_elem? (rows db) i)
  pub both-selected :
      (i : ℕ) (a b : database.Selection)
      → selected i (database.both a b) ≡ (selected i a && selected i b)
  pub len-zero : (a : database.Selection) → (database.len a ≡ 0) ↔ ((i : ℕ) → selected i a ≡ false)
  pub unique-member :
      (column : Column) (v : String) (db : database.Db)
      → member v (database.get_unique_ids column db) ≡ member v (map (value column) (rows db))
  pub unique-Distinct :
      (column : Column) (db : database.Db) → Distinct (database.get_unique_ids column db)

-- Whether a row has these three names.
abbrev pub is_row : String → String → String → Row → Bool
is_row c n o row =
    ((row.container_manager =ₛ c) && (row.network_plugin =ₛ n)) && (row.operating_system =ₛ o)

-- Whether some row has these three names.
unfoldable pub has_row : String → String → String → List Row → Bool
has_row c n o [] = false
has_row c n o (row ∷ rows) = is_row c n o row || has_row c n o rows

at_row : String → String → String → Option Row → Bool
at_row c n o none = false
at_row c n o (some row) = is_row c n o row

has_row-at :
    (c n o : String) (rows : List Row)
    → has_row c n o rows ≡ true
    → (i : ℕ) × (at_row c n o (get_elem? rows i) ≡ true)
unfolding has_row at_row
has_row-at c n o [] h = absurd (cc)
has_row-at c n o (row ∷ rows) h = elim (Bool-cases (is_row c n o row)) [
  | inl e ↦ (zero, e)
  | inr e ↦ let (i, p) = has_row-at c n o rows (rw e at h) in (suc i, p)
]

no_row-at :
    (c n o : String) (rows : List Row) (i : ℕ)
    → has_row c n o rows ≡ false
    → at_row c n o (get_elem? rows i) ≡ false
unfolding has_row at_row
no_row-at c n o [] i h = refl
no_row-at c n o (row ∷ rows) zero h = ground arith
no_row-at c n o (row ∷ rows) (suc i) h = no_row-at c n o rows i (ground arith)

together :
    (c n o : String) (row : Option Row)
    → ((holds manager c row && holds plugin n row) && holds system o row) ≡ at_row c n o row
unfolding at_row
together c n o none = refl
together c n o (some row) = refl

positive : (k : ℕ) (b : Bool) → (k ≡ 0 → b ≡ false) → (b ≡ false → k ≡ 0) → ltb 0 k ≡ b
positive k true f g = ground arith
positive k false f g = ground arith

module _ (database : Database) (laws : IsDatabase database) where
  module _ (db : database.Db) (c n o : String) where
    abbrev selection : database.Selection
    selection =
        database.both (database.both (database.equals manager c db) (database.equals plugin n db))
          (database.equals system o db)

    selection-at_row :
        (i : ℕ) → laws.selected i selection ≡ at_row c n o (get_elem? (laws.rows db) i)
    selection-at_row i =
        rw (laws.both-selected, laws.both-selected, laws.equals-selected)
          (rw laws.equals-selected
            (rw laws.equals-selected (together c n o (get_elem? (laws.rows db) i))))

    empty-no_row : database.len selection ≡ 0 → has_row c n o (laws.rows db) ≡ false
    empty-no_row e = elim (Bool-cases (has_row c n o (laws.rows db))) [
      | inl h ↦
          let (i, p) = has_row-at c n o (laws.rows db) h in
          let q = sym (selection-at_row i) ∙ (laws.len-zero selection).0 e i in absurd (cc)
      | inr h ↦ h
    ]

    no_row-empty : has_row c n o (laws.rows db) ≡ false → database.len selection ≡ 0
    no_row-empty h =
        (laws.len-zero selection).1 (λ i. selection-at_row i ∙ no_row-at c n o (laws.rows db) i h)

  -- `exists` tells whether some row has the three names.
  pub exists-has_row :
      (db : database.Db) (c n o : String) → exists database db c n o ≡ has_row c n o (laws.rows db)
  unfolding exists
  exists-has_row db c n o =
      positive (database.len (selection db c n o)) (has_row c n o (laws.rows db))
        (empty-no_row db c n o) (no_row-empty db c n o)
