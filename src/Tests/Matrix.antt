-- ===== src/Tests/Matrix.antt =====
-- The table of the CI on two files, with a database that is a list of rows.
use factory_pattern_design.Base.{
  ℕ, zero, suc, String, Bool, true, false, ◌&&◌, ◌≡◌, refl, none, some, List, [], ◌∷◌, ◌++◌, ◌=ₛ◌,
  map, get_elem?, if◌then◌else◌, arith, eq_iff,
}
use factory_pattern_design.Base.Text.{member}
use factory_pattern_design.Base.Result.{Result, ok, err, os_error}
use factory_pattern_design.Yaml.{Value, str, dict, end, field, lookup, get_or}
use factory_pattern_design.Yaml.Distinct.{Distinct}
use factory_pattern_design.Scripts.Matrix.{
  Row, Column, manager, plugin, system, value, Database, World, main, read_row, group1, behind_kind,
  name_run,
}
use factory_pattern_design.Scripts.Matrix.Rows.{IsDatabase, holds, has_row}
use factory_pattern_design.Scripts.Matrix.Printed.{IsColumn, rows_of, main_table}

cut : List Bool → List Bool → List Bool
cut [] bs = []
cut (a ∷ more) [] = []
cut (a ∷ more) (b ∷ bs) = (a && b) ∷ cut more bs

count : List Bool → ℕ
count [] = 0
count (b ∷ bs) = let rest = count bs in if b then suc rest else rest

once : List String → List String
once [] = []
once (x ∷ xs) = let rest = once xs in if member x xs then rest else x ∷ rest

at_mask : ℕ → List Bool → Bool
at_mask i mask = elim (get_elem? mask i) [ none ↦ false | some b ↦ b ]

abbrev rows_database : Database
rows_database = record {
  Db = List Row;
  Selection = List Bool;
  create = [];
  insert = λ row db. db ++ (row ∷ []);
  equals = λ column v db. map (λ row. value column row =ₛ v) db;
  both = cut;
  len = count;
  get_unique_ids = λ column db. once (map (value column) db);
}

equals-selected :
    (i : ℕ) (column : Column) (v : String) (db : List Row)
    → at_mask i (map (λ row. value column row =ₛ v) db) ≡ holds column v (get_elem? db i)
unfolding at_mask
equals-selected i column v [] = refl
equals-selected zero column v (row ∷ db) = refl
equals-selected (suc i) column v (row ∷ db) = equals-selected i column v db

both-selected : (i : ℕ) (a b : List Bool) → at_mask i (cut a b) ≡ (at_mask i a && at_mask i b)
unfolding at_mask cut
both-selected i [] b = refl
both-selected i (x ∷ a) [] = ground arith
both-selected zero (x ∷ a) (y ∷ b) = refl
both-selected (suc i) (x ∷ a) (y ∷ b) = both-selected i a b

count-zero : (a : List Bool) → count a ≡ 0 → (i : ℕ) → at_mask i a ≡ false
unfolding count at_mask
count-zero [] e i = refl
count-zero (true ∷ a) e i = absurd (ground arith)
count-zero (false ∷ a) e zero = refl
count-zero (false ∷ a) e (suc i) = count-zero a e i

zero-count : (a : List Bool) → ((i : ℕ) → at_mask i a ≡ false) → count a ≡ 0
unfolding count at_mask
zero-count [] h = refl
zero-count (true ∷ a) h = let p = h 0 in absurd (cc)
zero-count (false ∷ a) h = zero-count a (λ i. h (suc i))

once-member : (x : String) (xs : List String) → member x (once xs) ≡ member x xs
unfolding once member
once-member x [] = refl
once-member x (y ∷ xs) = ground (arith, once-member x xs, eq_iff y x)

once-Distinct : (xs : List String) → Distinct (once xs)
unfolding once
once-Distinct [] = tt
once-Distinct (x ∷ xs) = ground (arith, once-Distinct xs, once-member x xs)

rows_database-IsDatabase : IsDatabase rows_database
rows_database-IsDatabase = record {
  rows = λ db. db;
  selected = at_mask;
  create-rows = refl;
  insert-rows = λ row db. refl;
  equals-selected = equals-selected;
  both-selected = both-selected;
  len-zero = λ a. (count-zero a, zero-count a);
  unique-member = λ column v db. once-member v (map (value column) db);
  unique-Distinct = λ column db. once-Distinct (map (value column) db);
}

abbrev loaded : String → Result Value
loaded name =
    if name =ₛ "packet_ubuntu20-calico-aio.yml"
    then ok (dict end)
    else if name =ₛ "packet_debian11-cilium.yml"
    then ok (
        dict
          (field "kube_network_plugin" (str "cilium") (field "container_manager" (str "crio") end)))
    else err os_error

abbrev world : World
world = record {
  is_dir = true;
  names = "packet_ubuntu20-calico-aio.yml" ∷ "packet_debian11-cilium.yml" ∷ [];
  load = loaded;
  render = λ managers plugins systems test.
      if test "crio" "cilium" "debian11" then "found" else "missing";
}

abbrev two_rows : List Row
two_rows =
    record {
      container_manager = "containerd";
      network_plugin = "calico";
      operating_system = "ubuntu20";
    }
    ∷ record {
      container_manager = "crio";
      network_plugin = "cilium";
      operating_system = "debian11";
    }
    ∷ []

main_table_example :
    (managers plugins systems : List String) × IsColumn manager two_rows managers
    × IsColumn plugin two_rows plugins
    × IsColumn system two_rows systems
    × (main rows_database world
        ≡ ok (world.render managers plugins systems (λ c n o. has_row c n o two_rows)))
unfolding rows_of read_row get_or lookup group1 behind_kind name_run
main_table_example = main_table rows_database rows_database-IsDatabase world two_rows refl refl
