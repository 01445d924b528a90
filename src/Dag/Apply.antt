-- ===== src/Dag/Apply.antt =====
-- dag/apply.py: one operation applied to the tables that are being rebuilt, `tables_by_id`.
-- The tables are values here, so the deep copies of the source need no counterpart.
pub mod Lookup
pub mod Effects
pub mod Invariant
pub mod Commute
use db_version_control.Prelude.{
  ℕ, String, Bool, true, false, Option, none, some, List, [], ◌∷◌, ◌++◌, Eq, ◌==◌, nat_eq,
  if◌then◌else◌, any_of, keep, not,
}
use db_version_control.Prelude.Dict.{Dict, get, put, remove, has}
use db_version_control.Prelude.Errors.{Result, ok, err, key_error}
use db_version_control.Model.Schema.{Uuid, Column, Index, Constraint, Table}
use db_version_control.Model.Operations.{
  Operation, create_table, drop_table, add_column, drop_column, rename_column, alter_column_type,
  alter_column_nullability, alter_column_default, add_index, drop_index, rename_index,
  add_constraint, drop_constraint,
}

abbrev pub Tables : Type 0
Tables = Dict Uuid Table

unfoldable pub find_column : List Column → Uuid → Option Column
find_column [] column_id = none
find_column (c ∷ cs) column_id =
    let rest = find_column cs column_id in if c.id == column_id then some c else rest

abbrev pub has_column : List Column → Uuid → Bool
has_column [] column_id = false
has_column (c ∷ cs) column_id =
    let rest = has_column cs column_id in if c.id == column_id then true else rest

unfoldable pub table_owning_column : Tables → Uuid → Option Table
table_owning_column [] column_id = none
table_owning_column ((k, t) ∷ ts) column_id =
    let rest = table_owning_column ts column_id in
    if has_column t.columns column_id then some t else rest

-- A write through the reference that `find_column` returns: to the first column of that id.
unfoldable pub edit_columns : List Column → Uuid → (Column → Column) → List Column
edit_columns [] column_id f = []
edit_columns (c ∷ cs) column_id f =
    let rest = edit_columns cs column_id f in if c.id == column_id then f c ∷ cs else c ∷ rest

-- The same through `table_owning_column`: in the first table that has such a column.
unfoldable pub edit_owner : Tables → Uuid → (Column → Column) → Tables
edit_owner [] column_id f = []
edit_owner ((k, t) ∷ ts) column_id f =
    let rest = edit_owner ts column_id f in
    if has_column t.columns column_id
    then (k, record t { columns = edit_columns t.columns column_id f }) ∷ ts
    else (k, t) ∷ rest

-- The body that the four column mutations share.
unfoldable pub edit_column : Tables → Uuid → (Column → Column) → Tables
unfolding edit_owner edit_columns
edit_column tables column_id f = elim (table_owning_column tables column_id) [
  | none ↦ tables
  | some table ↦ elim (find_column table.columns column_id) [
    | none ↦ tables
    | some column ↦ edit_owner tables column_id f
  ]
]

-- A write to the table stored under an id, if there is one.
unfoldable pub edit_table : Tables → Uuid → (Table → Table) → Tables
edit_table tables table_id f = elim (get tables table_id) [
  | none ↦ tables
  | some table ↦ put tables table_id (f table)
]

unfoldable pub every_table : (Table → Table) → Tables → Tables
every_table f [] = []
every_table f ((k, t) ∷ ts) = (k, f t) ∷ every_table f ts

unfoldable pub has_index : List Index → Uuid → Bool
has_index [] index_id = false
has_index (i ∷ is) index_id =
    let rest = has_index is index_id in if i.id == index_id then true else rest

unfoldable pub rename_in : List Index → Uuid → String → List Index
rename_in [] index_id new_name = []
rename_in (i ∷ is) index_id new_name =
    let rest = rename_in is index_id new_name in
    if i.id == index_id then record i { name = new_name } ∷ is else i ∷ rest

-- The nested loops of RenameIndex, which return at the first index of that id.
unfoldable pub rename_index_in : Tables → Uuid → String → Tables
rename_index_in [] index_id new_name = []
rename_index_in ((k, t) ∷ ts) index_id new_name =
    let rest = rename_index_in ts index_id new_name in
    if has_index t.indexes index_id
    then (k, record t { indexes = rename_in t.indexes index_id new_name }) ∷ ts
    else (k, t) ∷ rest

unfoldable pub without_column : Uuid → Table → Table
unfolding keep
without_column column_id t = record t { columns = keep (λ c. not (c.id == column_id)) t.columns }

unfoldable pub without_index : Uuid → Table → Table
unfolding keep
without_index index_id t = record t { indexes = keep (λ i. not (i.id == index_id)) t.indexes }

unfoldable pub without_constraint : Uuid → Table → Table
unfolding keep
without_constraint constraint_id t = record t {
  constraints = keep (λ c. not (c.id == constraint_id)) t.constraints;
}

unfoldable pub apply_operation : Tables → Operation → Result Tables
apply_operation st (create_table t) = ok (put st t.id t)
apply_operation st (drop_table table_id) =
    if has st table_id then ok (remove st table_id) else err key_error
apply_operation st (add_column table_id c) =
    ok (edit_table st table_id (λ t. record t { columns = t.columns ++ c ∷ [] }))
apply_operation st (drop_column table_id column_id) =
    ok (edit_table st table_id (without_column column_id))
apply_operation st (rename_column column_id old_name new_name) =
    ok (edit_column st column_id (λ c. record c { name = new_name }))
apply_operation st (alter_column_type column_id old_type new_type) =
    ok (edit_column st column_id (λ c. record c { type = new_type }))
apply_operation st (alter_column_nullability column_id nullable) =
    ok (edit_column st column_id (λ c. record c { nullable = nullable }))
apply_operation st (alter_column_default column_id old_default new_default) =
    ok (edit_column st column_id (λ c. record c { default = new_default }))
apply_operation st (add_index table_id i) =
    ok (edit_table st table_id (λ t. record t { indexes = t.indexes ++ i ∷ [] }))
apply_operation st (drop_index index_id) = ok (every_table (without_index index_id) st)
apply_operation st (rename_index index_id old_name new_name) =
    ok (rename_index_in st index_id new_name)
apply_operation st (add_constraint table_id c) =
    ok (edit_table st table_id (λ t. record t { constraints = t.constraints ++ c ∷ [] }))
apply_operation st (drop_constraint constraint_id) =
    ok (every_table (without_constraint constraint_id) st)
