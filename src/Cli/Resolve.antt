-- ===== src/Cli/Resolve.antt =====
-- cli/resolve.py: the identity behind a name, in a branch's replayed tables.
use db_version_control.Prelude.{String, List, [], ◌∷◌, ◌==◌, string_eq, if◌then◌else◌}
use db_version_control.Prelude.Errors.{
  Result, ok, err, unknown_table, unknown_column, unknown_index,
}
use db_version_control.Model.Schema.{Uuid, Column, Index, Table, Snapshot}

module _ (name : String) where
  unfoldable pub find_table_in : List Table → Result Table
  find_table_in [] = err (unknown_table name)
  find_table_in (t ∷ ts) = let rest = find_table_in ts in if t.name == name then ok t else rest

  unfoldable pub find_column_id_in : List Column → Result Uuid
  find_column_id_in [] = err (unknown_column name)
  find_column_id_in (c ∷ cs) =
      let rest = find_column_id_in cs in if c.name == name then ok c.id else rest

  unfoldable pub find_index_id_in : List Index → Result Uuid
  find_index_id_in [] = err (unknown_index name)
  find_index_id_in (i ∷ is) =
      let rest = find_index_id_in is in if i.name == name then ok i.id else rest

abbrev pub find_table : Snapshot → String → Result Table
find_table snapshot name = find_table_in name snapshot.tables

abbrev pub find_column_id : Table → String → Result Uuid
find_column_id table name = find_column_id_in name table.columns

abbrev pub find_index_id : Table → String → Result Uuid
find_index_id table name = find_index_id_in name table.indexes
