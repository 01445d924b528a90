-- ===== src/Cli/Migrate.antt =====
-- cli/commands/migrate_cmd.py: one verb for each kind of operation.
pub mod Sound
use db_version_control.Prelude.{
  ℕ, String, Bool, true, false, Option, none, some, List, [], ◌∷◌, Eq, ◌==◌, string_eq,
  if◌then◌else◌, any_of, length,
}
use db_version_control.Prelude.Errors.{Result, ok, err, value_error, unknown_column, ◌>>=◌}
use db_version_control.Model.Schema.{
  Uuid, TypeSpec, Column, Index, Constraint, foreign_key, Table, Snapshot,
}
use db_version_control.Model.Operations.{Operation, CompoundOperation, RevisionId}
use db_version_control.Dag.Store.{DagStore, append, head}
use db_version_control.Dag.Walk.{replay}
use db_version_control.Cli.Resolve.{find_table, find_column_id, find_index_id}
use db_version_control.Cli.Branch.{Repository}

-- What the verbs call outside: the order of Python's sets, the id that uuid4 returns, the random id of
-- a revision, and the readers of a type expression and of a UUID.
pub record Tools : Type 0 where
  pub set_order : List RevisionId → List RevisionId
  pub new_id : Uuid
  pub make_revision_id : List RevisionId → List CompoundOperation → RevisionId
  pub parse_type_spec : String → Result TypeSpec
  pub parse_uuid : String → Result Uuid

-- A verb with its arguments.
pub data Verb : Type 0 where
  create_table drop_table : (table_name : String) → Verb
  add_column : (table_name column_name type_expr : String) (nullable : Bool) → Verb
  drop_column : (table_name column_name : String) → Verb
  rename_column : (table_name old_name new_name : String) → Verb
  alter_column_type : (table_name column_name new_type_expr : String) → Verb
  alter_column_nullability : (table_name column_name : String) (nullable : Bool) → Verb
  add_index : (table_name index_name : String) (columns : List String) (unique : Bool) → Verb
  drop_index : (table_name index_name : String) → Verb
  rename_index : (table_name old_name new_name : String) → Verb
  add_foreign_key : (table_name : String) (columns : List String) (references_table : String) → Verb
  drop_constraint : (constraint_id : String) → Verb

-- [find_column_id(table, name) for name in columns]
unfoldable pub find_column_ids : Table → List String → Result (List Uuid)
find_column_ids table [] = ok []
find_column_ids table (name ∷ names) = do
  id ← find_column_id table name
  ids ← find_column_ids table names
  ok (id ∷ ids)

-- next(c for c in table.columns if c.name == column_name)
unfoldable pub find_column_named : String → List Column → Result Column
find_column_named column_name [] = err (unknown_column column_name)
find_column_named column_name (c ∷ cs) =
    let rest = find_column_named column_name cs in if c.name == column_name then ok c else rest

module _ (tools : Tools) where
  -- The operation that a verb builds from the tables of its branch.
  unfoldable pub operation_of : Verb → Snapshot → Result Operation
  operation_of (create_table table_name) snapshot =
      if any_of (λ (t : Table). t.name == table_name) snapshot.tables
      then err value_error
      else ok (
          Operation.create_table (record {
            id = tools.new_id;
            name = table_name;
            columns = [];
            indexes = [];
            constraints = [];
          }))
  operation_of (drop_table table_name) snapshot = do
    table ← find_table snapshot table_name
    ok (Operation.drop_table table.id)
  operation_of (add_column table_name column_name type_expr nullable) snapshot = do
    table ← find_table snapshot table_name
    type ← tools.parse_type_spec type_expr
    ok (
        Operation.add_column table.id (record {
          id = tools.new_id;
          name = column_name;
          type = type;
          nullable = nullable;
          default = none;
          position = length table.columns;
        }))
  operation_of (drop_column table_name column_name) snapshot = do
    table ← find_table snapshot table_name
    column_id ← find_column_id table column_name
    ok (Operation.drop_column table.id column_id)
  operation_of (rename_column table_name old_name new_name) snapshot = do
    table ← find_table snapshot table_name
    column_id ← find_column_id table old_name
    ok (Operation.rename_column column_id old_name new_name)
  operation_of (alter_column_type table_name column_name new_type_expr) snapshot = do
    table ← find_table snapshot table_name
    column ← find_column_named column_name table.columns
    new_type ← tools.parse_type_spec new_type_expr
    ok (Operation.alter_column_type column.id column.type new_type)
  operation_of (alter_column_nullability table_name column_name nullable) snapshot = do
    table ← find_table snapshot table_name
    column_id ← find_column_id table column_name
    ok (Operation.alter_column_nullability column_id nullable)
  operation_of (add_index table_name index_name columns unique) snapshot = do
    table ← find_table snapshot table_name
    column_ids ← find_column_ids table columns
    ok (
        Operation.add_index table.id
          (record { id = tools.new_id; name = index_name; columns = column_ids; unique = unique }))
  operation_of (drop_index table_name index_name) snapshot = do
    table ← find_table snapshot table_name
    index_id ← find_index_id table index_name
    ok (Operation.drop_index index_id)
  operation_of (rename_index table_name old_name new_name) snapshot = do
    table ← find_table snapshot table_name
    index_id ← find_index_id table old_name
    ok (Operation.rename_index index_id old_name new_name)
  operation_of (add_foreign_key table_name columns references_table) snapshot = do
    table ← find_table snapshot table_name
    ref_table ← find_table snapshot references_table
    column_ids ← find_column_ids table columns
    ok (
        Operation.add_constraint table.id (record {
          id = tools.new_id;
          kind = foreign_key;
          columns = column_ids;
          references = some ref_table.id;
          raw_expr = none;
        }))
  operation_of (drop_constraint constraint_id) snapshot = do
    id ← tools.parse_uuid constraint_id
    ok (Operation.drop_constraint id)

  -- replay(store, store.head(branch), branch). The store was loaded for this, and what the walk cached
  -- is not saved.
  unfoldable pub snapshot_of : Repository → String → Result Snapshot
  snapshot_of repo branch = do
    revision_id ← head repo.store branch
    (snapshot, cached) ← replay tools.set_order revision_id branch repo.store
    ok snapshot

  unfoldable pub commit : Repository → String → List CompoundOperation → Result Repository
  commit repo branch compounds = do
    parent ← head repo.store branch
    (node, store) ←
        append repo.store (tools.make_revision_id (parent ∷ []) compounds) branch (parent ∷ [])
          compounds
    ok (record repo { store = store })

  -- A verb on the tables, and `_commit`.
  unfoldable pub commit_on_snapshot : Verb → Repository → String → Result Repository
  commit_on_snapshot verb repo branch = do
    snapshot ← snapshot_of repo branch
    operation ← operation_of verb snapshot
    commit repo branch (record { operations = operation ∷ [] } ∷ [])

  -- `drop_constraint` looks nothing up: it commits without a replay.
  unfoldable pub migrate : Verb → Repository → String → Result Repository
  migrate (drop_constraint constraint_id) repo branch = do
    id ← tools.parse_uuid constraint_id
    commit repo branch (record { operations = Operation.drop_constraint id ∷ [] } ∷ [])
  migrate verb repo branch = commit_on_snapshot verb repo branch
