-- ===== src/Snapshots/ToOperations.antt =====
-- snapshot/to_operations.py: the operations that take a snapshot to the tables as they are written.
pub mod Retype
pub mod Generated
use db_version_control.Prelude.{
  ℕ, suc, ◌+◌, String, Bool, true, false, not, Option, none, some, List, [], ◌∷◌, ◌++◌, Eq, ◌==◌,
  if◌then◌else◌, map, length,
}
use db_version_control.Model.Schema.{Uuid, TypeSpec, Expr, Column, Table}
use db_version_control.Model.Operations.{
  Operation, create_table, drop_table, add_column, drop_column, rename_column, alter_column_type,
  alter_column_nullability, alter_column_default, CompoundOperation,
}
use db_version_control.Snapshots.Raw.{RawColumn, RawTable}
use db_version_control.Prelude.Errors.{Result, ok, err, ◌>>=◌}
use db_version_control.Rename.Similarity.{Floats}
use db_version_control.Rename.Match.{Object}
use db_version_control.Rename.Detector.{
  RenameProposal, confirmed, ConfirmFn, DetectionResult, detect_renames,
}
use db_version_control.Snapshots.Diff.{
  ColumnRetype, MatchedTable, RawDiff, same_text, default_text, type_spec_eq, flag_eq,
}

-- Expr(default), for a default that is there.
unfoldable pub expr_of : Option String → Option Expr
expr_of none = none
expr_of (some text) = some (record { raw = text })

-- `id` is what uuid4 returned.
unfoldable pub raw_column_to_column : Uuid → RawColumn → Column
raw_column_to_column id raw = record {
  id = id;
  name = raw.name;
  type = raw.type;
  nullable = raw.nullable;
  default = expr_of raw.default;
  position = raw.position;
}

-- The three tests of `_retype_ops`, each with the operation that it appends.
unfoldable pub type_ops : Column → RawColumn → List Operation
type_ops old_column new_column =
    if old_column.type == new_column.type
    then []
    else alter_column_type old_column.id old_column.type new_column.type ∷ []

unfoldable pub nullability_ops : Column → RawColumn → List Operation
nullability_ops old_column new_column =
    if old_column.nullable == new_column.nullable
    then []
    else alter_column_nullability old_column.id new_column.nullable ∷ []

unfoldable pub default_ops : Column → RawColumn → List Operation
default_ops old_column new_column =
    if same_text (default_text old_column.default) new_column.default
    then []
    else alter_column_default old_column.id old_column.default (expr_of new_column.default) ∷ []

unfoldable pub retype_ops : Column → RawColumn → List Operation
retype_ops old_column new_column =
    type_ops old_column new_column
    ++ (nullability_ops old_column new_column ++ default_ops old_column new_column)

-- [_raw_column_to_column(c) for c in columns]; the n-th call of uuid4 returns `fresh n`.
unfoldable pub raw_columns : (ℕ → Uuid) → ℕ → List RawColumn → List Column
raw_columns fresh n [] = []
raw_columns fresh n (raw ∷ more) =
    raw_column_to_column (fresh n) raw ∷ raw_columns fresh (suc n) more

unfoldable pub raw_table_to_table : (ℕ → Uuid) → ℕ → RawTable → Table
raw_table_to_table fresh n raw = record {
  id = fresh n;
  name = raw.name;
  columns = raw_columns fresh (suc n) raw.columns;
  indexes = [];
  constraints = [];
}

-- [AddColumn(table_id, column) for column in columns]
abbrev pub add_columns : Uuid → List Column → List Operation
add_columns table_id columns = map (add_column table_id) columns

-- `create_and_columns`
unfoldable pub create_and_columns : (ℕ → Uuid) → ℕ → RawTable → List Operation
create_and_columns fresh n raw =
    let table = raw_table_to_table fresh n raw in
    create_table
      (record { id = table.id; name = table.name; columns = []; indexes = []; constraints = [] })
    ∷ add_columns table.id table.columns

-- The objects of a list, numbered: they are distinct objects, being the values of a dict.
unfoldable pub objects : {A : Type 0} → ℕ → List A → List (Object A)
objects n [] = []
objects n (x ∷ xs) = record { id = n; value = x } ∷ objects (suc n) xs

-- How often uuid4 and `confirm` were called.
pub record Calls : Type 0 where
  pub ids : ℕ
  pub questions : ℕ

unfoldable pub retyped_ops : List ColumnRetype → List Operation
retyped_ops [] = []
retyped_ops (retype ∷ more) = retype_ops retype.column retype.new_type ++ retyped_ops more

unfoldable pub drop_ops : Uuid → List (Object Column) → List Operation
drop_ops table_id [] = []
drop_ops table_id (column ∷ more) = drop_column table_id column.value.id ∷ drop_ops table_id more

module _ (fs : Floats) where
  unfoldable pub rename_ops : RenameProposal fs → List Operation
  rename_ops proposal = elim proposal.status [
    | confirmed ↦
        rename_column proposal.old_column.value.id proposal.old_column.value.name
          proposal.new_column.value.name
        ∷ retype_ops proposal.old_column.value proposal.new_column.value
    | _ ↦ []
  ]

  unfoldable pub renames_ops : List (RenameProposal fs) → List Operation
  renames_ops [] = []
  renames_ops (proposal ∷ more) = rename_ops proposal ++ renames_ops more

  module _ (fresh : ℕ → Uuid) (confirm : ConfirmFn fs) where
    unfoldable pub matched_table_operations : MatchedTable → Calls → Result (List Operation × Calls)
    matched_table_operations matched calls = do
      result ←
          detect_renames fs (λ k proposal. confirm (calls.questions + k) proposal)
            (objects 0 matched.unmatched_old_columns) (objects 0 matched.unmatched_new_columns)
            (length matched.table.columns) matched.table.columns matched.raw.columns
      let adds =
          raw_columns fresh calls.ids
            (map (λ (raw : Object RawColumn). raw.value) result.plain_adds)
      ok (
        retyped_ops matched.retyped_columns
            ++ (renames_ops result.proposals
                ++ (drop_ops matched.table.id result.plain_drops
                    ++ add_columns matched.table.id adds)),
        record {
          ids = calls.ids + length adds;
          questions = calls.questions + length result.proposals;
        },
      )

    -- The first loop of `generate_operations`.
    unfoldable pub new_tables : ℕ → List RawTable → List CompoundOperation × ℕ
    new_tables n [] = ([], n)
    new_tables n (raw ∷ more) =
        let (compounds, n') = new_tables (suc n + length raw.columns) more in
        (record { operations = create_and_columns fresh n raw } ∷ compounds, n')

    -- The second loop.
    unfoldable pub old_tables : List Table → List CompoundOperation
    old_tables [] = []
    old_tables (table ∷ more) = record { operations = drop_table table.id ∷ [] } ∷ old_tables more

    unfoldable pub unless_empty : List Operation → List CompoundOperation
    unless_empty [] = []
    unless_empty (op ∷ ops) = record { operations = op ∷ ops } ∷ []

    -- The third loop.
    unfoldable pub matched_tables_compounds :
        Calls → List MatchedTable → Result (List CompoundOperation)
    matched_tables_compounds calls [] = ok []
    matched_tables_compounds calls (matched ∷ more) = do
      (ops, calls') ← matched_table_operations matched calls
      compounds ← matched_tables_compounds calls' more
      ok (unless_empty ops ++ compounds)

    unfoldable pub generate_operations : RawDiff → Result (List CompoundOperation)
    generate_operations diff = do
      let (creates, ids) = new_tables 0 diff.unmatched_new_tables
      compounds ← matched_tables_compounds (record { ids = ids; questions = 0 }) diff.matched_tables
      ok (creates ++ (old_tables diff.unmatched_old_tables ++ compounds))
