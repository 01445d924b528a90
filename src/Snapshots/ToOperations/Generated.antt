-- ===== src/Snapshots/ToOperations/Generated.antt =====
-- What the operations for a new table do.
use db_version_control.Prelude.{
  ℕ, suc, ◌≡◌, sym, ap, ◌∙◌, some, List, [], ◌∷◌, ◌++◌, nat_eq, arith, beq_refl,
}
use db_version_control.Prelude.Dict.{get, put, get-put, put_twice}
use mathlib.Core.List.{append-nil, append_assoc}
use db_version_control.Prelude.Errors.{ok}
use db_version_control.Model.Schema.{Uuid, Column, Table}
use db_version_control.Dag.Apply.{Tables, apply_operation, edit_table}
use db_version_control.Dag.Walk.{apply_each}
use db_version_control.Snapshots.Raw.{RawTable}
use db_version_control.Snapshots.ToOperations.{
  raw_columns, raw_table_to_table, add_columns, create_and_columns,
}

edit_table-put :
    (st : Tables) (id : Uuid) (t : Table) (f : Table → Table)
    → edit_table (put st id t) id f ≡ put st id (f t)
unfolding edit_table
edit_table-put st id t f =
    let here : get (put st id t) id ≡ some t = ground (arith, get-put st id id t, beq_refl id) in
    rw (here, edit_table) (put_twice st id t (f t))

add_columns-applied :
    (columns : List Column) (st : Tables) (id : Uuid) (t : Table)
    → apply_each (put st id t) (add_columns id columns)
      ≡ ok (put st id (record t { columns = t.columns ++ columns }))
unfolding apply_each apply_operation
add_columns-applied [] st id t =
    ap (λ cs. ok (put st id (record t { columns = cs }))) (sym (append-nil t.columns))
add_columns-applied (c ∷ columns) st id t =
    let t' = record t { columns = t.columns ++ c ∷ [] } in
    ap (λ st'. apply_each st' (add_columns id columns))
      (edit_table-put st id t (λ u. record u { columns = u.columns ++ c ∷ [] }))
    ∙ add_columns-applied columns st id t'
    ∙ ap (λ cs. ok (put st id (record t { columns = cs })))
        (append_assoc t.columns (c ∷ []) columns)

-- The operations for a new table, applied in turn to any tables, store exactly the table that
-- `_raw_table_to_table` makes of it: its columns in order, under its identity.
pub create_and_columns-applied :
    (fresh : ℕ → Uuid) (n : ℕ) (raw : RawTable) (st : Tables)
    → apply_each st (create_and_columns fresh n raw)
      ≡ ok (put st (fresh n) (raw_table_to_table fresh n raw))
unfolding apply_each apply_operation create_and_columns raw_table_to_table
create_and_columns-applied fresh n raw st =
    add_columns-applied (raw_columns fresh (suc n) raw.columns) st (fresh n) _
