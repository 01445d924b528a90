-- ===== src/Model/Operations.antt =====
-- model/operations.py and model/migration.py.
use db_version_control.Prelude.{
  String, Bool, Option, List, String-discrete, ℕ_discrete, Eq, discrete_eq, ◌==◌, nat_eq, length,
}
use db_version_control.Model.Schema.{Uuid, TypeSpec, Expr, Column, Index, Constraint, Table}

pub data Operation : Type 0 where
  create_table : Table → Operation
  drop_table : (table_id : Uuid) → Operation
  add_column : (table_id : Uuid) → Column → Operation
  drop_column : (table_id column_id : Uuid) → Operation
  rename_column : (column_id : Uuid) (old_name new_name : String) → Operation
  alter_column_type : (column_id : Uuid) (old_type new_type : TypeSpec) → Operation
  alter_column_nullability : (column_id : Uuid) (nullable : Bool) → Operation
  alter_column_default : (column_id : Uuid) (old_default new_default : Option Expr) → Operation
  add_index : (table_id : Uuid) → Index → Operation
  drop_index : (index_id : Uuid) → Operation
  rename_index : (index_id : Uuid) (old_name new_name : String) → Operation
  add_constraint : (table_id : Uuid) → Constraint → Operation
  drop_constraint : (constraint_id : Uuid) → Operation

pub record CompoundOperation : Type 0 where
  pub operations : List Operation

abbrev pub RevisionId : Type 0
RevisionId = String

-- `created_at` is metadata that nothing reads or sets.
pub record Migration : Type 0 where
  pub id : RevisionId
  pub parents : List RevisionId
  pub branch : String
  pub operations : List CompoundOperation

unfoldable pub is_merge : Migration → Bool
is_merge m = length m.parents == 2

unfoldable pub Operation-discrete : Discrete Operation
unfolding String-discrete ℕ_discrete
Operation-discrete = hlevel (String-discrete, ℕ_discrete)

instance abbrev pub operation_eq : Eq Operation
operation_eq = discrete_eq Operation-discrete
