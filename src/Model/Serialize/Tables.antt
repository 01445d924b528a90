-- ===== src/Model/Serialize/Tables.antt =====
-- Constraints and tables of model/schema.py as values, and back.
use db_version_control.Prelude.{List, [], ◌∷◌, string_eq, ◌≡◌, refl}
use db_version_control.Prelude.Errors.{Result, ok, err, type_error, ◌>>=◌}
use db_version_control.Model.Schema.{Constraint, Table}
use db_version_control.Model.Serialize.{
  Value, text, uuid, instance_of, end_instance, and_field, tuple_where, is_tuple_field, class_of,
  registry, construct, all_known, known_field, in_order, field_at,
}
use db_version_control.Model.Serialize.RoundTrip.{IsKept}
use db_version_control.Model.Serialize.Objects.{
  Form, read-values_of, values_of-AreKept, read_list, read_tuple, list_value, option_value,
  read_option, option-whole, option_kept, read_flag, read_int, read_text, read_uuid, text_form,
  uuid_form, parts, read_as,
}
use db_version_control.Model.Serialize.Columns.{
  kind_form, option_read_uuid_form, option_read_text_form, column_form, index_form,
}

unfoldable pub constraint_value : Constraint → Value
constraint_value a = instance_of "Constraint" (
    and_field "id" (uuid a.id) (
      and_field "kind" (kind_form.to_value a.kind) (
        and_field "columns" (list_value uuid_form a.columns) (
          and_field "references" (option_value uuid_form a.references)
            (and_field "raw_expr" (option_value text_form a.raw_expr) end_instance)))))

unfoldable pub constraint_of_parts : List Value → Result Constraint
constraint_of_parts (id_v ∷ kind_v ∷ columns_v ∷ references_v ∷ raw_expr_v ∷ []) = do
  id ← read_uuid id_v
  kind ← kind_form.of_value kind_v
  columns ← read_list uuid_form columns_v
  references ← read_option uuid_form references_v
  raw_expr ← read_option text_form raw_expr_v
  ok (record {
    id = id;
    kind = kind;
    columns = columns;
    references = references;
    raw_expr = raw_expr;
  })
constraint_of_parts _ = err type_error

pub constraint-kept : (a : Constraint) → IsKept (constraint_value a)
unfolding constraint_value IsKept class_of registry construct all_known known_field in_order
    field_at is_tuple_field tuple_where
constraint-kept a = (
  _,
  refl,
  refl,
  refl,
  refl,
  (
    refl,
    refl,
    tt,
    (
      refl,
      kind_form.whole a.kind,
      kind_form.kept a.kind,
      (
        refl,
        refl,
        values_of-AreKept uuid_form a.columns,
        (
          refl,
          option-whole uuid_form a.references,
          option_kept uuid_form a.references,
          (refl, option-whole text_form a.raw_expr, option_kept text_form a.raw_expr, tt),
        ),
      ),
    ),
  ),
)

pub of-constraint_value :
    (a : Constraint) → read_as "Constraint" constraint_of_parts (constraint_value a) ≡ ok a
unfolding constraint_value constraint_of_parts read_as parts read_text read_uuid read_flag read_int
    read_list read_tuple read_option
of-constraint_value a =
    rw
      (
        kind_form.of-to_value a.kind,
        read-values_of uuid_form a.columns,
        option_read_uuid_form a.references,
        option_read_text_form a.raw_expr,
      )
      refl

unfoldable pub constraint_form : Form Constraint
unfolding constraint_value
constraint_form = record {
  to_value = constraint_value;
  of_value = read_as "Constraint" constraint_of_parts;
  of-to_value = of-constraint_value;
  whole = λ a. refl;
  kept = constraint-kept;
}

unfoldable pub table_value : Table → Value
table_value a = instance_of "Table" (
    and_field "id" (uuid a.id) (
      and_field "name" (text a.name) (
        and_field "columns" (list_value column_form a.columns) (
          and_field "indexes" (list_value index_form a.indexes)
            (and_field "constraints" (list_value constraint_form a.constraints) end_instance)))))

unfoldable pub table_of_parts : List Value → Result Table
table_of_parts (id_v ∷ name_v ∷ columns_v ∷ indexes_v ∷ constraints_v ∷ []) = do
  id ← read_uuid id_v
  name ← read_text name_v
  columns ← read_list column_form columns_v
  indexes ← read_list index_form indexes_v
  constraints ← read_list constraint_form constraints_v
  ok (record {
    id = id;
    name = name;
    columns = columns;
    indexes = indexes;
    constraints = constraints;
  })
table_of_parts _ = err type_error

pub table-kept : (a : Table) → IsKept (table_value a)
unfolding table_value IsKept class_of registry construct all_known known_field in_order field_at
    is_tuple_field tuple_where
table-kept a = (
  _,
  refl,
  refl,
  refl,
  refl,
  (
    refl,
    refl,
    tt,
    (
      refl,
      refl,
      tt,
      (
        refl,
        refl,
        values_of-AreKept column_form a.columns,
        (
          refl,
          refl,
          values_of-AreKept index_form a.indexes,
          (refl, refl, values_of-AreKept constraint_form a.constraints, tt),
        ),
      ),
    ),
  ),
)

pub of-table_value : (a : Table) → read_as "Table" table_of_parts (table_value a) ≡ ok a
unfolding table_value table_of_parts read_as parts read_text read_uuid read_flag read_int read_list
    read_tuple read_option
of-table_value a =
    rw
      (
        read-values_of column_form a.columns,
        read-values_of index_form a.indexes,
        read-values_of constraint_form a.constraints,
      )
      refl

unfoldable pub table_form : Form Table
unfolding table_value
table_form = record {
  to_value = table_value;
  of_value = read_as "Table" table_of_parts;
  of-to_value = of-table_value;
  whole = λ a. refl;
  kept = table-kept;
}
