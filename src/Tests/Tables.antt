-- ===== src/Tests/Tables.antt =====
-- Operations on one table.
use db_version_control.Prelude.{false, [], ◌∷◌, string_eq, nat_eq, ◌≡◌, ◌↔◌, refl}
use db_version_control.Prelude.Dict.{remove, has}
use db_version_control.Prelude.Errors.{ok, err, key_error}
use db_version_control.Model.Schema.{Uuid, Column}
use db_version_control.Model.Operations.{drop_table}
use db_version_control.Dag.Apply.{Tables, apply_operation}
use db_version_control.Dag.Apply.Lookup.{lookup_column, map_option}
use db_version_control.Dag.Apply.Effects.{apply-lookup_column, apply_error_iff}
use db_version_control.Dag.Apply.Invariant.{IsWellFormed, apply-IsWellFormed}
use db_version_control.Dag.Apply.Commute.{apply_both, apply_twice, apply_swap_columns}
use db_version_control.Tests.Samples.{one_table, one_table-IsWellFormed, rename, retype}

apply-IsWellFormed_example : IsWellFormed []
unfolding apply_operation remove
apply-IsWellFormed_example =
    apply-IsWellFormed one_table (drop_table 1) [] one_table-IsWellFormed tt refl

abbrev renamed_email : Column → Column
renamed_email c = record c { name = "mail" }

abbrev retyped_email : Column → Column
retyped_email c = record c { type = record { name = "varchar"; params = 80 ∷ [] } }

apply-lookup_column_example :
    (st' : Tables) × (apply_operation one_table rename ≡ ok st')
    × (lookup_column st' 11 ≡ map_option renamed_email (lookup_column one_table 11))
apply-lookup_column_example = apply-lookup_column one_table rename 11 renamed_email 11 refl

apply_error_iff_example : (apply_operation one_table (drop_table 2) ≡ err key_error) ↔ (
    (tid : Uuid) × (drop_table 2 ≡ drop_table tid)
    × (has one_table tid ≡ false)
    × (key_error ≡ key_error))
apply_error_iff_example = apply_error_iff one_table (drop_table 2) key_error

apply_twice_example : apply_both one_table rename rename ≡ apply_operation one_table rename
apply_twice_example = apply_twice one_table rename tt

apply_swap_columns_example : apply_both one_table rename retype ≡ apply_both one_table retype rename
apply_swap_columns_example =
    apply_swap_columns one_table rename retype 11 11 renamed_email retyped_email refl refl
      (λ _ x. refl)
