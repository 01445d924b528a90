-- ===== src/Dsl/Render/Resolved.antt =====
-- When the tables of a snapshot have a text.
use db_version_control.Prelude.{
  ℕ, String, true, Option, none, some, List, [], ◌∷◌, map, ◌==◌, nat_eq, ◌≡◌, ◌↔◌, refl, inl, inr,
  arith, Bool-cases, ◌||◌, All, contains,
}
use db_version_control.Prelude.Dict.{put, has, has-put, get_of_has, get_of_not_has}
use db_version_control.Prelude.Errors.{Result, ok, err, ◌>>=◌, Returns}
use db_version_control.Model.Schema.{
  Uuid, Column, Constraint, ConstraintKind, unique, foreign_key, check, Table, Snapshot,
}
use db_version_control.Dag.Apply.{Tables, has_column}
use db_version_control.Dsl.Render.{
  each, column_name_in, column_name, render_index, referenced, render_constraint, render_table,
  by_id, render_snapshot,
}

abbrev pub Known : Table → Uuid → Type 0
Known table column_id = has_column table.columns column_id ≡ true

abbrev pub Points : List Table → Option Uuid → Type 0
Points tables references =
    (id : Uuid) × (references ≡ some id) × (contains (map (λ t. t.id) tables) id ≡ true)

abbrev pub IsResolvedConstraint : List Table → Table → Constraint → Type 0
IsResolvedConstraint tables table constraint = elim constraint.kind [
  | foreign_key ↦ All (Known table) constraint.columns × Points tables constraint.references
  | unique ↦ All (Known table) constraint.columns
  | check ↦ Unit
]

-- The columns that its indexes and constraints name are its own, and a foreign key's table is there.
abbrev pub IsResolvedTable : List Table → Table → Type 0
IsResolvedTable tables table =
    All (λ index. All (Known table) index.columns) table.indexes
    × All (IsResolvedConstraint tables table) table.constraints

abbrev pub IsResolved : Snapshot → Type 0
IsResolved snapshot = All (IsResolvedTable snapshot.tables) snapshot.tables

then_iff :
    {A B : Type 0} {P Q : Type 0} (r : Result A) (go : A → Result B)
    → (Returns r ↔ P)
    → ((a : A) → Returns (go a) ↔ Q)
    → Returns (r >>= go) ↔ (P × Q)
then_iff (ok a) go iff h = (λ done. (iff.0 (a, refl), (h a).0 done), λ (p, given). (h a).1 given)
then_iff (err e) go iff h = (λ (b, p). cc, λ (p, given). let (a, s) = iff.1 p in cc)

ended_iff :
    {A B : Type 0} {P : Type 0} (r : Result A) (g : A → B)
    → (Returns r ↔ P)
    → Returns (r >>= λ a. ok (g a)) ↔ P
ended_iff (ok a) g iff = (λ done. iff.0 (a, refl), λ p. (g a, refl))
ended_iff (err e) g iff = (λ (b, p). cc, λ p. let (a, s) = iff.1 p in cc)

module _ {A B : Type 0} (f : A → Result B) {P : A → Type 0}
    (iff : (a : A) → Returns (f a) ↔ P a) where
  each_iff : (xs : List A) → Returns (each f xs) ↔ All P xs
  unfolding each
  each_iff [] = (λ done. tt, λ given. ([], refl))
  each_iff (x ∷ xs) =
      then_iff (f x) _ (iff x) (λ y. ended_iff (each f xs) (λ ys. y ∷ ys) (each_iff xs))

column_name_in_iff :
    (columns : List Column) (id : Uuid)
    → Returns (column_name_in columns id) ↔ (has_column columns id ≡ true)
unfolding column_name_in
column_name_in_iff [] id = (λ (name, p). cc, λ p. cc)
column_name_in_iff (c ∷ cs) id = elim (Bool-cases (c.id == id)) [
  | inl q ↦ rw q (λ done. refl, λ given. (c.name, refl))
  | inr q ↦ rw q (column_name_in_iff cs id)
]

columns_iff :
    (table : Table) (ids : List Uuid)
    → Returns (each (column_name table) ids) ↔ All (Known table) ids
unfolding column_name
columns_iff table = each_iff (column_name table) (column_name_in_iff table.columns)

has-by_id :
    (d : Tables) (ts : List Table) (id : Uuid)
    → has (by_id d ts) id ≡ has d id || contains (map (λ t. t.id) ts) id
unfolding by_id
has-by_id d [] id = ground arith
has-by_id d (t ∷ ts) id = ground (arith, has-by_id (put d t.id t) ts id, has-put d t.id id t)

held_iff : (d : Tables) (id : Uuid) → Returns (referenced d (some id)) ↔ (has d id ≡ true)
unfolding referenced
held_iff d id = (there, found)
  where
    there : Returns (referenced d (some id)) → has d id ≡ true
    there (table, p) = elim (Bool-cases (has d id)) [
      | inl q ↦ q
      | inr q ↦ ground (arith, get_of_not_has d id q)
    ]

    found : has d id ≡ true → Returns (referenced d (some id))
    found q = let (t, p) = get_of_has d id q in (t, ground arith)

referenced_iff :
    (tables : List Table) (references : Option Uuid)
    → Returns (referenced (by_id [] tables) references) ↔ Points tables references
referenced_iff tables none = (λ (t, p). unfold referenced in cc, λ (id, q, p). cc)
referenced_iff tables (some id) = (
  λ done.
      (id, refl, ground (arith, (held_iff (by_id [] tables) id).0 done, has-by_id [] tables id)),
  λ (i, q, p). (held_iff (by_id [] tables) id).1 (ground (arith, has-by_id [] tables id)),
)

constraint_iff :
    (tables : List Table) (table : Table) (constraint : Constraint)
    → Returns (render_constraint constraint table (by_id [] tables))
      ↔ IsResolvedConstraint tables table constraint
unfolding render_constraint
constraint_iff tables table constraint = go constraint.kind refl
  where
    go :
        (kind : ConstraintKind)
        → constraint.kind ≡ kind
        → Returns (render_constraint constraint table (by_id [] tables))
          ↔ IsResolvedConstraint tables table constraint
    go foreign_key q = rw q (
        then_iff _ _ (columns_iff table constraint.columns)
          (λ column_names. ended_iff _ _ (referenced_iff tables constraint.references)))
    go unique q = rw q (ended_iff _ _ (columns_iff table constraint.columns))
    go check q = rw q (λ done. tt, λ given. (_, refl))

table_iff :
    (str : ℕ → String) (tables : List Table) (table : Table)
    → Returns (render_table str (by_id [] tables) table) ↔ IsResolvedTable tables table
unfolding render_table render_index
table_iff str tables table =
    then_iff _ _
      (each_iff _ (λ index. ended_iff _ _ (columns_iff table index.columns)) table.indexes)
      (λ indexes. ended_iff _ _ (each_iff _ (constraint_iff tables table) table.constraints))

-- For a snapshot, rendering returns exactly if every column that an index or a unique or foreign key
-- constraint of a table names is a column of that table, and every foreign key references a table
-- of the snapshot.
pub render_snapshot_iff :
    (str : ℕ → String) (snapshot : Snapshot)
    → Returns (render_snapshot str snapshot) ↔ IsResolved snapshot
unfolding render_snapshot
render_snapshot_iff str snapshot = go snapshot.tables refl
  where
    go :
        (tables : List Table)
        → snapshot.tables ≡ tables
        → Returns (render_snapshot str snapshot) ↔ IsResolved snapshot
    go [] q = rw q (λ done. tt, λ given. ("", refl))
    go (t ∷ ts) q = rw q (ended_iff _ _ (each_iff _ (table_iff str (t ∷ ts)) (t ∷ ts)))
