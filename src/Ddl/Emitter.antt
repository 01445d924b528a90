-- ===== src/Ddl/Emitter.antt =====
-- ddl/emitter.py: the SQL text of a batch, with the names as they are before each operation.
use db_version_control.Prelude.{
  ℕ, String, ◌<>◌, Bool, true, false, Option, none, some, List, [], ◌∷◌, ◌++◌, map, ◌==◌, nat_eq,
  if◌then◌else◌, leb,
}
use db_version_control.Prelude.Dict.{get}
use db_version_control.Prelude.Errors.{
  Result, ok, err, ◌>>=◌, key_error, value_error, assertion_error,
}
use db_version_control.Prelude.Strings.{join}
use db_version_control.Model.Schema.{
  Uuid, TypeSpec, Expr, Column, Index, unique, foreign_key, check, Constraint, Table,
}
use db_version_control.Model.Operations.{
  Operation, create_table, drop_table, add_column, drop_column, rename_column, alter_column_type,
  alter_column_nullability, alter_column_default, add_index, drop_index, rename_index,
  add_constraint, drop_constraint,
}
use db_version_control.Dag.Apply.{Tables, apply_operation, has_column, has_index}
use db_version_control.Dag.Apply
use db_version_control.Ddl.Toposort.{toposort}

-- The text of a type, from `str` of a number. The text of an expression is its `raw`.
unfoldable pub type_text : (ℕ → String) → TypeSpec → String
type_text str type = elim type.params [
  | [] ↦ type.name
  | p ∷ ps ↦ type.name <> ("(" <> (join ", " (map str (p ∷ ps)) <> ")"))
]

-- tables_by_id[table_id]
unfoldable pub table_at : Tables → Uuid → Result Table
table_at state table_id = elim (get state table_id) [ none ↦ err key_error | some t ↦ ok t ]

-- `_find_column` of this file raises where the one of dag/apply.py returns None.
unfoldable pub column_at : Table → Uuid → Result Column
column_at table column_id = elim (Apply.find_column table.columns column_id) [
  | none ↦ err key_error
  | some c ↦ ok c
]

-- The first table that passes the test: `_table_owning_column` and its two siblings.
unfoldable pub owner : (Table → Bool) → Tables → Result Table
owner owns [] = err key_error
owner owns ((k, t) ∷ state) = let rest = owner owns state in if owns t then ok t else rest

unfoldable pub table_owning_column : Tables → Uuid → Result Table
table_owning_column state column_id = owner (λ t. has_column t.columns column_id) state

unfoldable pub table_owning_index : Tables → Uuid → Result Table
table_owning_index state index_id = owner (λ t. has_index t.indexes index_id) state

abbrev has_constraint : List Constraint → Uuid → Bool
has_constraint [] i = false
has_constraint (c ∷ cs) i = let rest = has_constraint cs i in if c.id == i then true else rest

unfoldable pub table_owning_constraint : Tables → Uuid → Result Table
table_owning_constraint state constraint_id =
    owner (λ t. has_constraint t.constraints constraint_id) state

-- [_find_column(table, cid).name for cid in ids]
unfoldable pub column_names : Table → List Uuid → Result (List String)
column_names table [] = ok []
column_names table (id ∷ ids) = do
  column ← column_at table id
  rest ← column_names table ids
  ok (column.name ∷ rest)

-- next(i.name for i in table.indexes if i.id == index_id); the table that owns the index has one, so
-- the StopIteration of an empty search is not met.
unfoldable pub index_name : List Index → Uuid → Result String
index_name [] index_id = err value_error
index_name (i ∷ is) index_id =
    let rest = index_name is index_id in if i.id == index_id then ok i.name else rest

abbrev default_parts : Option Expr → List String
default_parts none = []
default_parts (some e) = ("DEFAULT " <> e.raw) ∷ []

unfoldable pub column_def : (ℕ → String) → Column → String
column_def str column = join " " (
    column.name ∷ type_text str column.type ∷ (if column.nullable then [] else "NOT NULL" ∷ [])
    ++ default_parts column.default)

-- sorted(columns, key=lambda c: c.position), which is stable.
unfoldable pub insert_column : Column → List Column → List Column
insert_column c [] = c ∷ []
insert_column c (d ∷ ds) =
    let rest = insert_column c ds in if leb c.position d.position then c ∷ d ∷ ds else d ∷ rest

unfoldable pub by_position : List Column → List Column
by_position [] = []
by_position (c ∷ cs) = insert_column c (by_position cs)

-- An f-string shows None as a word.
abbrev shown : Option String → String
shown none = "None"
shown (some text) = text

unfoldable pub constraint_def : Constraint → Table → Result String
constraint_def constraint table = do
  names ← column_names table constraint.columns
  elim constraint.kind [
    | unique ↦ ok ("UNIQUE (" <> (join ", " names <> ")"))
    | check ↦ ok ("CHECK (" <> (shown constraint.raw_expr <> ")"))
    | foreign_key ↦ err value_error
  ]

abbrev alter : Table → String → String
alter table rest = "ALTER TABLE " <> (table.name <> (" " <> (rest <> ";")))

unfoldable pub add_reference : Tables → Table → Constraint → Option Uuid → Result String
add_reference state table constraint none = err assertion_error
add_reference state table constraint (some target) = do
  names ← column_names table constraint.columns
  ref_table ← table_at state target
  ok (alter table ("ADD FOREIGN KEY (" <> (join ", " names <> (") REFERENCES " <> ref_table.name))))

unfoldable pub emit_constraint : Tables → Table → Constraint → Result String
emit_constraint state table constraint =
    let plain = (do text ← constraint_def constraint table; ok (alter table ("ADD " <> text))) in
    elim constraint.kind [
      | foreign_key ↦ add_reference state table constraint constraint.references
      | unique ↦ plain
      | check ↦ plain
    ]

-- The three cases that alter a column of the table that owns it.
unfoldable pub emit_alter : Tables → Uuid → String → Result String
emit_alter state column_id action = do
  table ← table_owning_column state column_id
  column ← column_at table column_id
  ok (alter table ("ALTER COLUMN " <> (column.name <> (" " <> action))))

abbrev default_action : Option Expr → String
default_action none = "DROP DEFAULT"
default_action (some e) = "SET DEFAULT " <> e.raw

-- `str` shows a number, `str_id` a UUID.
unfoldable pub emit_one : (ℕ → String) → (Uuid → String) → Operation → Tables → Result String
emit_one str str_id (create_table table) state = ok (
    "CREATE TABLE "
    <> (table.name
        <> (" (" <> (join ", " (map (column_def str) (by_position table.columns)) <> ");"))))
emit_one str str_id (drop_table table_id) state = do
  table ← table_at state table_id
  ok ("DROP TABLE " <> (table.name <> ";"))
emit_one str str_id (add_column table_id column) state = do
  table ← table_at state table_id
  ok (alter table ("ADD COLUMN " <> column_def str column))
emit_one str str_id (drop_column table_id column_id) state = do
  table ← table_at state table_id
  column ← column_at table column_id
  ok (alter table ("DROP COLUMN " <> column.name))
emit_one str str_id (rename_column column_id old_name new_name) state = do
  table ← table_owning_column state column_id
  ok (alter table ("RENAME COLUMN " <> (old_name <> (" TO " <> new_name))))
emit_one str str_id (alter_column_type column_id _ new_type) state =
    emit_alter state column_id ("TYPE " <> type_text str new_type)
emit_one str str_id (alter_column_nullability column_id nullable) state =
    emit_alter state column_id (if nullable then "DROP NOT NULL" else "SET NOT NULL")
emit_one str str_id (alter_column_default column_id _ new_default) state =
    emit_alter state column_id (default_action new_default)
emit_one str str_id (add_index table_id index) state = do
  table ← table_at state table_id
  names ← column_names table index.columns
  ok (
      "CREATE "
      <> ((if index.unique then "UNIQUE " else "")
          <> ("INDEX "
              <> (index.name <> (" ON " <> (table.name <> (" (" <> (join ", " names <> ");"))))))))
emit_one str str_id (drop_index index_id) state = do
  table ← table_owning_index state index_id
  name ← index_name table.indexes index_id
  ok ("DROP INDEX " <> (name <> ";"))
emit_one str str_id (rename_index index_id old_name new_name) state =
    ok ("ALTER INDEX " <> (old_name <> (" RENAME TO " <> (new_name <> ";"))))
emit_one str str_id (add_constraint table_id constraint) state = do
  table ← table_at state table_id
  emit_constraint state table constraint
emit_one str str_id (drop_constraint constraint_id) state = do
  table ← table_owning_constraint state constraint_id
  ok (alter table ("DROP CONSTRAINT " <> str_id constraint_id))

-- The loop of `emit_ddl`: each statement sees the state before its operation.
unfoldable pub emit_each :
    (ℕ → String) → (Uuid → String) → Tables → List Operation → Result (List String × Tables)
emit_each str str_id state [] = ok ([], state)
emit_each str str_id state (op ∷ ops) = do
  statement ← emit_one str str_id op state
  state' ← apply_operation state op
  (statements, final) ← emit_each str str_id state' ops
  ok (statement ∷ statements, final)

-- The text, and `tables_by_id` as the call leaves it.
unfoldable pub emit_ddl :
    (ℕ → String) → (Uuid → String) → List Operation → Tables → Result (String × Tables)
emit_ddl str str_id operations state = do
  ordered ← toposort operations
  (statements, final) ← emit_each str str_id state ordered
  ok (join "\n" statements, final)
