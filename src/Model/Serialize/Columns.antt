-- ===== src/Model/Serialize/Columns.antt =====
-- Columns and indexes of model/schema.py as values, and back.
use db_version_control.Prelude.{
  String, Option, none, some, List, [], ◌∷◌, ◌==◌, string_eq, ◌≡◌, refl, if◌then◌else◌,
}
use db_version_control.Prelude.Errors.{Result, ok, err, type_error, value_error, ◌>>=◌}
use db_version_control.Model.Schema.{
  Uuid, Expr, Column, Index, ConstraintKind, unique, foreign_key, check,
}
use db_version_control.Model.Serialize.{
  Value, flag, int, text, uuid, instance_of, end_instance, and_field, tuple_where, is_tuple_field,
  class_of, registry, construct, all_known, known_field, in_order, field_at,
}
use db_version_control.Model.Serialize.RoundTrip.{IsKept}
use db_version_control.Model.Serialize.Objects.{
  Form, read-values_of, values_of-AreKept, read_list, read_tuple, list_value, option_value,
  read_option, option-whole, option_kept, read_flag, read_int, read_text, read_uuid, text_form,
  uuid_form, parts, read_as, expr_value, expr_of_parts, expr_form, type_form,
}

abbrev pub kind_text : ConstraintKind → String
kind_text unique = "unique"
kind_text foreign_key = "foreign_key"
kind_text check = "check"

unfoldable pub kind_of_text : String → Result ConstraintKind
kind_of_text s =
    if s == "unique"
    then ok unique
    else if s == "foreign_key"
    then ok foreign_key
    else if s == "check"
    then ok check
    else err value_error

unfoldable pub read_kind : Value → Result ConstraintKind
read_kind (text s) = kind_of_text s
read_kind _ = err type_error

pub of-kind_text : (k : ConstraintKind) → read_kind (text (kind_text k)) ≡ ok k
unfolding read_kind kind_of_text
of-kind_text unique = refl
of-kind_text foreign_key = refl
of-kind_text check = refl

unfoldable pub kind_form : Form ConstraintKind
unfolding read_kind kind_of_text IsKept
kind_form = record {
  to_value = λ k. text (kind_text k);
  of_value = read_kind;
  of-to_value = of-kind_text;
  whole = λ k. refl;
  kept = λ k. tt;
}

pub option_read_expr_form :
    (o : Option Expr) → read_option expr_form (option_value expr_form o) ≡ ok o
unfolding read_option expr_form read_as parts expr_value expr_of_parts read_text
option_read_expr_form none = refl
option_read_expr_form (some a) = refl

pub option_read_uuid_form :
    (o : Option Uuid) → read_option uuid_form (option_value uuid_form o) ≡ ok o
unfolding read_option uuid_form read_uuid
option_read_uuid_form none = refl
option_read_uuid_form (some a) = refl

pub option_read_text_form :
    (o : Option String) → read_option text_form (option_value text_form o) ≡ ok o
unfolding read_option text_form read_text
option_read_text_form none = refl
option_read_text_form (some a) = refl

unfoldable pub column_value : Column → Value
column_value a = instance_of "Column" (
    and_field "id" (uuid a.id) (
      and_field "name" (text a.name) (
        and_field "type" (type_form.to_value a.type) (
          and_field "nullable" (flag a.nullable) (
            and_field "default" (option_value expr_form a.default)
              (and_field "position" (int a.position) end_instance))))))

unfoldable pub column_of_parts : List Value → Result Column
column_of_parts (id_v ∷ name_v ∷ type_v ∷ nullable_v ∷ default_v ∷ position_v ∷ []) = do
  id ← read_uuid id_v
  name ← read_text name_v
  type ← type_form.of_value type_v
  nullable ← read_flag nullable_v
  default ← read_option expr_form default_v
  position ← read_int position_v
  ok (record {
    id = id;
    name = name;
    type = type;
    nullable = nullable;
    default = default;
    position = position;
  })
column_of_parts _ = err type_error

pub column-kept : (a : Column) → IsKept (column_value a)
unfolding column_value IsKept class_of registry construct all_known known_field in_order field_at
    is_tuple_field tuple_where
column-kept a = (
  _,
  refl,
  refl,
  refl,
  refl,
  (
    refl,
    refl,
    tt,
    (
      refl,
      refl,
      tt,
      (
        refl,
        type_form.whole a.type,
        type_form.kept a.type,
        (
          refl,
          refl,
          tt,
          (
            refl,
            option-whole expr_form a.default,
            option_kept expr_form a.default,
            (refl, refl, tt, tt),
          ),
        ),
      ),
    ),
  ),
)

pub of-column_value : (a : Column) → read_as "Column" column_of_parts (column_value a) ≡ ok a
unfolding column_value column_of_parts read_as parts read_text read_uuid read_flag read_int
    read_list read_tuple read_option
of-column_value a = rw (type_form.of-to_value a.type, option_read_expr_form a.default) refl

unfoldable pub column_form : Form Column
unfolding column_value
column_form = record {
  to_value = column_value;
  of_value = read_as "Column" column_of_parts;
  of-to_value = of-column_value;
  whole = λ a. refl;
  kept = column-kept;
}

unfoldable pub index_value : Index → Value
index_value a = instance_of "Index" (
    and_field "id" (uuid a.id) (
      and_field "name" (text a.name) (
        and_field "columns" (list_value uuid_form a.columns)
          (and_field "unique" (flag a.unique) end_instance))))

unfoldable pub index_of_parts : List Value → Result Index
index_of_parts (id_v ∷ name_v ∷ columns_v ∷ unique_v ∷ []) = do
  id ← read_uuid id_v
  name ← read_text name_v
  columns ← read_list uuid_form columns_v
  is_unique ← read_flag unique_v
  ok (record { id = id; name = name; columns = columns; unique = is_unique })
index_of_parts _ = err type_error

pub index-kept : (a : Index) → IsKept (index_value a)
unfolding index_value IsKept class_of registry construct all_known known_field in_order field_at
    is_tuple_field tuple_where
index-kept a = (
  _,
  refl,
  refl,
  refl,
  refl,
  (
    refl,
    refl,
    tt,
    (refl, refl, tt, (refl, refl, values_of-AreKept uuid_form a.columns, (refl, refl, tt, tt))),
  ),
)

pub of-index_value : (a : Index) → read_as "Index" index_of_parts (index_value a) ≡ ok a
unfolding index_value index_of_parts read_as parts read_text read_uuid read_flag read_int read_list
    read_tuple read_option
of-index_value a = rw (read-values_of uuid_form a.columns) refl

unfoldable pub index_form : Form Index
unfolding index_value
index_form = record {
  to_value = index_value;
  of_value = read_as "Index" index_of_parts;
  of-to_value = of-index_value;
  whole = λ a. refl;
  kept = index-kept;
}
