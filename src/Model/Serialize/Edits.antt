-- ===== src/Model/Serialize/Edits.antt =====
-- The operations of model/operations.py as values, and back.
use db_version_control.Prelude.{String, List, [], ◌∷◌, ◌==◌, string_eq, ◌≡◌, refl, if◌then◌else◌}
use db_version_control.Prelude.Errors.{Result, ok, err, type_error, ◌>>=◌}
use db_version_control.Model.Operations.{
  Operation, create_table, drop_table, add_column, drop_column, rename_column, alter_column_type,
  alter_column_nullability, alter_column_default, add_index, drop_index, rename_index,
  add_constraint, drop_constraint,
}
use db_version_control.Model.Serialize.{
  Value, flag, text, uuid, instance_of, end_instance, and_field, tuple_where, is_tuple_field,
  class_of, registry, construct, all_known, known_field, in_order, field_at,
}
use db_version_control.Model.Serialize.RoundTrip.{untupled, IsKept}
use db_version_control.Model.Serialize.Objects.{
  Form, read_list, read_tuple, option_value, read_option, option-whole, option_kept, read_flag,
  read_int, read_text, read_uuid, parts, read_as, expr_form, type_form,
}
use db_version_control.Model.Serialize.Columns.{option_read_expr_form, column_form, index_form}
use db_version_control.Model.Serialize.Tables.{constraint_form, table_form}

unfoldable pub operation_value : Operation → Value
operation_value (create_table a) =
    instance_of "CreateTable" (and_field "table" (table_form.to_value a) end_instance)
operation_value (drop_table a) =
    instance_of "DropTable" (and_field "table_id" (uuid a) end_instance)
operation_value (add_column a b) =
    instance_of "AddColumn"
      (and_field "table_id" (uuid a) (and_field "column" (column_form.to_value b) end_instance))
operation_value (drop_column a b) =
    instance_of "DropColumn"
      (and_field "table_id" (uuid a) (and_field "column_id" (uuid b) end_instance))
operation_value (rename_column a b c) = instance_of "RenameColumn" (
    and_field "column_id" (uuid a)
      (and_field "old_name" (text b) (and_field "new_name" (text c) end_instance)))
operation_value (alter_column_type a b c) = instance_of "AlterColumnType" (
    and_field "column_id" (uuid a) (
      and_field "old_type" (type_form.to_value b)
        (and_field "new_type" (type_form.to_value c) end_instance)))
operation_value (alter_column_nullability a b) =
    instance_of "AlterColumnNullability"
      (and_field "column_id" (uuid a) (and_field "nullable" (flag b) end_instance))
operation_value (alter_column_default a b c) = instance_of "AlterColumnDefault" (
    and_field "column_id" (uuid a) (
      and_field "old_default" (option_value expr_form b)
        (and_field "new_default" (option_value expr_form c) end_instance)))
operation_value (add_index a b) =
    instance_of "AddIndex"
      (and_field "table_id" (uuid a) (and_field "index" (index_form.to_value b) end_instance))
operation_value (drop_index a) =
    instance_of "DropIndex" (and_field "index_id" (uuid a) end_instance)
operation_value (rename_index a b c) = instance_of "RenameIndex" (
    and_field "index_id" (uuid a)
      (and_field "old_name" (text b) (and_field "new_name" (text c) end_instance)))
operation_value (add_constraint a b) = instance_of "AddConstraint" (
    and_field "table_id" (uuid a)
      (and_field "constraint" (constraint_form.to_value b) end_instance))
operation_value (drop_constraint a) =
    instance_of "DropConstraint" (and_field "constraint_id" (uuid a) end_instance)

unfoldable pub operation_of_parts : String → List Value → Result Operation
operation_of_parts class (x ∷ []) =
    if class == "CreateTable"
    then (table_form.of_value x >>= λ a. ok (create_table a))
    else if class == "DropTable"
    then (read_uuid x >>= λ a. ok (drop_table a))
    else if class == "DropIndex"
    then (read_uuid x >>= λ a. ok (drop_index a))
    else if class == "DropConstraint"
    then (read_uuid x >>= λ a. ok (drop_constraint a))
    else err type_error
operation_of_parts class (x ∷ y ∷ []) =
    if class == "AddColumn"
    then (read_uuid x >>= λ a. column_form.of_value y >>= λ b. ok (add_column a b))
    else if class == "DropColumn"
    then (read_uuid x >>= λ a. read_uuid y >>= λ b. ok (drop_column a b))
    else if class == "AlterColumnNullability"
    then (read_uuid x >>= λ a. read_flag y >>= λ b. ok (alter_column_nullability a b))
    else if class == "AddIndex"
    then (read_uuid x >>= λ a. index_form.of_value y >>= λ b. ok (add_index a b))
    else if class == "AddConstraint"
    then (read_uuid x >>= λ a. constraint_form.of_value y >>= λ b. ok (add_constraint a b))
    else err type_error
operation_of_parts class (x ∷ y ∷ z ∷ []) =
    if class == "RenameColumn"
    then (read_uuid x >>= λ a. read_text y >>= λ b. read_text z >>= λ c. ok (rename_column a b c))
    else if class == "AlterColumnType"
    then (read_uuid x >>= λ a.
        type_form.of_value y >>= λ b. type_form.of_value z >>= λ c. ok (alter_column_type a b c))
    else if class == "AlterColumnDefault"
    then (read_uuid x >>= λ a. read_option expr_form y >>= λ b.
        read_option expr_form z >>= λ c. ok (alter_column_default a b c))
    else if class == "RenameIndex"
    then (read_uuid x >>= λ a. read_text y >>= λ b. read_text z >>= λ c. ok (rename_index a b c))
    else err type_error
operation_of_parts class _ = err type_error

unfoldable pub read_operation : Value → Result Operation
read_operation (instance_of class fields) = operation_of_parts class (parts fields)
read_operation _ = err type_error

pub operation-kept : (op : Operation) → IsKept (operation_value op)
unfolding operation_value IsKept class_of registry construct all_known known_field in_order field_at
    is_tuple_field tuple_where
operation-kept (create_table a) =
    (_, refl, refl, refl, refl, (refl, table_form.whole a, table_form.kept a, tt))
operation-kept (drop_table a) = (_, refl, refl, refl, refl, (refl, refl, tt, tt))
operation-kept (add_column a b) = (
  _,
  refl,
  refl,
  refl,
  refl,
  (refl, refl, tt, (refl, column_form.whole b, column_form.kept b, tt)),
)
operation-kept (drop_column a b) =
    (_, refl, refl, refl, refl, (refl, refl, tt, (refl, refl, tt, tt)))
operation-kept (rename_column a b c) =
    (_, refl, refl, refl, refl, (refl, refl, tt, (refl, refl, tt, (refl, refl, tt, tt))))
operation-kept (alter_column_type a b c) = (
  _,
  refl,
  refl,
  refl,
  refl,
  (
    refl,
    refl,
    tt,
    (refl, type_form.whole b, type_form.kept b, (refl, type_form.whole c, type_form.kept c, tt)),
  ),
)
operation-kept (alter_column_nullability a b) =
    (_, refl, refl, refl, refl, (refl, refl, tt, (refl, refl, tt, tt)))
operation-kept (alter_column_default a b c) = (
  _,
  refl,
  refl,
  refl,
  refl,
  (
    refl,
    refl,
    tt,
    (
      refl,
      option-whole expr_form b,
      option_kept expr_form b,
      (refl, option-whole expr_form c, option_kept expr_form c, tt),
    ),
  ),
)
operation-kept (add_index a b) =
    (_, refl, refl, refl, refl, (refl, refl, tt, (refl, index_form.whole b, index_form.kept b, tt)))
operation-kept (drop_index a) = (_, refl, refl, refl, refl, (refl, refl, tt, tt))
operation-kept (rename_index a b c) =
    (_, refl, refl, refl, refl, (refl, refl, tt, (refl, refl, tt, (refl, refl, tt, tt))))
operation-kept (add_constraint a b) = (
  _,
  refl,
  refl,
  refl,
  refl,
  (refl, refl, tt, (refl, constraint_form.whole b, constraint_form.kept b, tt)),
)
operation-kept (drop_constraint a) = (_, refl, refl, refl, refl, (refl, refl, tt, tt))

pub of-operation_value : (op : Operation) → read_operation (operation_value op) ≡ ok op
unfolding operation_value operation_of_parts read_operation read_as parts read_text read_uuid
    read_flag read_int read_list read_tuple read_option
of-operation_value (create_table a) = rw (table_form.of-to_value a) refl
of-operation_value (drop_table a) = refl
of-operation_value (add_column a b) = rw (column_form.of-to_value b) refl
of-operation_value (drop_column a b) = refl
of-operation_value (rename_column a b c) = refl
of-operation_value (alter_column_type a b c) =
    rw (type_form.of-to_value b, type_form.of-to_value c) refl
of-operation_value (alter_column_nullability a b) = refl
of-operation_value (alter_column_default a b c) =
    rw (option_read_expr_form b, option_read_expr_form c) refl
of-operation_value (add_index a b) = rw (index_form.of-to_value b) refl
of-operation_value (drop_index a) = refl
of-operation_value (rename_index a b c) = refl
of-operation_value (add_constraint a b) = rw (constraint_form.of-to_value b) refl
of-operation_value (drop_constraint a) = refl

pub operation-whole : (op : Operation) → untupled (operation_value op) ≡ operation_value op
unfolding operation_value
operation-whole (create_table a) = refl
operation-whole (drop_table a) = refl
operation-whole (add_column a b) = refl
operation-whole (drop_column a b) = refl
operation-whole (rename_column a b c) = refl
operation-whole (alter_column_type a b c) = refl
operation-whole (alter_column_nullability a b) = refl
operation-whole (alter_column_default a b c) = refl
operation-whole (add_index a b) = refl
operation-whole (drop_index a) = refl
operation-whole (rename_index a b c) = refl
operation-whole (add_constraint a b) = refl
operation-whole (drop_constraint a) = refl

unfoldable pub operation_form : Form Operation
operation_form = record {
  to_value = operation_value;
  of_value = read_operation;
  of-to_value = of-operation_value;
  whole = operation-whole;
  kept = operation-kept;
}
