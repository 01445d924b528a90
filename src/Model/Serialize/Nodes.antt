-- ===== src/Model/Serialize/Nodes.antt =====
-- Compound operations and migrations as values, and back.
use db_version_control.Prelude.{List, [], ◌∷◌, string_eq, ◌≡◌, refl}
use db_version_control.Prelude.Errors.{Result, ok, err, type_error, ◌>>=◌}
use db_version_control.Model.Operations.{CompoundOperation, Migration}
use db_version_control.Model.Serialize.{
  Value, nothing, text, instance_of, end_instance, and_field, tuple_where, is_tuple_field, class_of,
  registry, construct, all_known, known_field, in_order, field_at,
}
use db_version_control.Model.Serialize.RoundTrip.{IsKept}
use db_version_control.Model.Serialize.Objects.{
  Form, read-values_of, values_of-AreKept, read_list, read_tuple, tuple_value, read_option,
  read_flag, read_int, read_text, read_uuid, text_form, parts, read_as,
}
use db_version_control.Model.Serialize.Edits.{operation_form}

unfoldable pub compound_value : CompoundOperation → Value
compound_value a =
    instance_of "CompoundOperation"
      (and_field "operations" (tuple_value operation_form a.operations) end_instance)

unfoldable pub compound_of_parts : List Value → Result CompoundOperation
compound_of_parts (operations_v ∷ []) = do
  operations ← read_tuple operation_form operations_v
  ok (record { operations = operations })
compound_of_parts _ = err type_error

pub compound-kept : (a : CompoundOperation) → IsKept (compound_value a)
unfolding compound_value IsKept class_of registry construct all_known known_field in_order field_at
    is_tuple_field tuple_where
compound-kept a =
    (_, refl, refl, refl, refl, (refl, refl, values_of-AreKept operation_form a.operations, tt))

pub of-compound_value :
    (a : CompoundOperation)
    → read_as "CompoundOperation" compound_of_parts (compound_value a) ≡ ok a
unfolding compound_value compound_of_parts read_as parts read_text read_uuid read_flag read_int
    read_list read_tuple read_option
of-compound_value a = rw (read-values_of operation_form a.operations) refl

unfoldable pub compound_form : Form CompoundOperation
unfolding compound_value
compound_form = record {
  to_value = compound_value;
  of_value = read_as "CompoundOperation" compound_of_parts;
  of-to_value = of-compound_value;
  whole = λ a. refl;
  kept = compound-kept;
}

-- `created_at` is None: nothing sets it.
unfoldable pub migration_value : Migration → Value
migration_value a = instance_of "Migration" (
    and_field "id" (text a.id) (
      and_field "parents" (tuple_value text_form a.parents) (
        and_field "branch" (text a.branch) (
          and_field "operations" (tuple_value compound_form a.operations)
            (and_field "created_at" nothing end_instance)))))

unfoldable pub migration_of_parts : List Value → Result Migration
migration_of_parts (id_v ∷ parents_v ∷ branch_v ∷ operations_v ∷ created_at ∷ []) = do
  id ← read_text id_v
  parents ← read_tuple text_form parents_v
  branch ← read_text branch_v
  operations ← read_tuple compound_form operations_v
  ok (record { id = id; parents = parents; branch = branch; operations = operations })
migration_of_parts _ = err type_error

pub migration-kept : (a : Migration) → IsKept (migration_value a)
unfolding migration_value IsKept class_of registry construct all_known known_field in_order field_at
    is_tuple_field tuple_where
migration-kept a = (
  _,
  refl,
  refl,
  refl,
  refl,
  (
    refl,
    refl,
    tt,
    (
      refl,
      refl,
      values_of-AreKept text_form a.parents,
      (
        refl,
        refl,
        tt,
        (refl, refl, values_of-AreKept compound_form a.operations, (refl, refl, tt, tt)),
      ),
    ),
  ),
)

pub of-migration_value :
    (a : Migration) → read_as "Migration" migration_of_parts (migration_value a) ≡ ok a
unfolding migration_value migration_of_parts read_as parts read_text read_uuid read_flag read_int
    read_list read_tuple read_option
of-migration_value a =
    rw (read-values_of text_form a.parents, read-values_of compound_form a.operations) refl

unfoldable pub migration_form : Form Migration
unfolding migration_value
migration_form = record {
  to_value = migration_value;
  of_value = read_as "Migration" migration_of_parts;
  of-to_value = of-migration_value;
  whole = λ a. refl;
  kept = migration-kept;
}
