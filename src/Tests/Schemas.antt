-- ===== src/Tests/Schemas.antt =====
-- Batches of DDL and retyped columns.
use db_version_control.Prelude.{
  range_from, ℕ, true, some, List, [], ◌∷◌, string_eq, nat_eq, ◌≡◌, ◌↔◌, refl, keep,
}
use db_version_control.Prelude.Dict.{get, put}
use db_version_control.Prelude.Strings.{join}
use db_version_control.Prelude.Errors.{ok}
use db_version_control.Model.Schema.{Table}
use db_version_control.Model.Operations.{Operation, create_table, add_column}
use db_version_control.Dag.Apply.{Tables, table_owning_column, find_column}
use db_version_control.Dag.Apply.Lookup.{lookup_column}
use db_version_control.Dag.Walk.{apply_each}
use db_version_control.Ddl.Toposort.{
  build_dependency_edges, edges_from, edges_of, batch_of, positions_by, created_table_id,
  created_column_id, dropped_table_id, after_creator, add_edge, add_edges, insert_index,
  sort_indices, release, kahn, select, finish, toposort,
}
use db_version_control.Ddl.Toposort.Correct.{IsSchedule, toposort_total}
use db_version_control.Ddl.Emitter.{emit_one, table_at, column_def, type_text}
use db_version_control.Snapshots.Raw.{RawColumn}
use db_version_control.Snapshots.Diff.{same_shape}
use db_version_control.Snapshots.ToOperations.{expr_of, retype_ops}
use db_version_control.Snapshots.ToOperations.Retype.{
  retype_ops_empty_iff, retype_ops-lookup_column,
}
use db_version_control.Tests.Samples.{email, one_table, text_type}

abbrev bare_users : Table
bare_users = record { id = 1; name = "users"; columns = []; indexes = []; constraints = [] }

-- The column stands before its table.
abbrev batch : List Operation
batch = add_column 1 email ∷ create_table bare_users ∷ []

sorted_batch : toposort batch ≡ ok (create_table bare_users ∷ add_column 1 email ∷ [])
unfolding toposort build_dependency_edges edges_from edges_of batch_of positions_by created_table_id
    created_column_id dropped_table_id after_creator add_edge add_edges range_from insert_index
    sort_indices release kahn select finish get put keep
sorted_batch = refl

added_column :
    emit_one (λ n. "80") (λ i. "") (add_column 1 email) one_table
    ≡ ok "ALTER TABLE users ADD COLUMN email text NOT NULL;"
unfolding emit_one table_at column_def type_text get join
added_column = refl

toposort_total_example :
    (order : List ℕ) × (toposort batch ≡ ok (select batch order)) × IsSchedule batch order
toposort_total_example = toposort_total batch

abbrev described : RawColumn
described = record {
  name = "email";
  type = text_type;
  nullable = true;
  default = some "''";
  position = 0;
}

retype_ops_empty_iff_example :
    (retype_ops email described ≡ []) ↔ (same_shape email described ≡ true)
retype_ops_empty_iff_example = retype_ops_empty_iff email described

retype_ops-lookup_column_example :
    (st' : Tables) × (apply_each one_table (retype_ops email described) ≡ ok st')
    × (lookup_column st' 11
        ≡ some (record email { type = text_type; nullable = true; default = expr_of (some "''") }))
unfolding lookup_column table_owning_column find_column
retype_ops-lookup_column_example = retype_ops-lookup_column email described one_table refl
