-- ===== src/Merge/Classify.antt =====
-- merge/classify.py: what becomes of an object that both branches touched.
pub mod Fields
pub mod Soundness
use db_version_control.Prelude.{
  ℕ, String, ◌<>◌, Bool, true, false, Option, none, some, List, [], ◌∷◌, ◌++◌, Eq, ◌==◌,
  discrete_eq, string_eq, ℕ_discrete, String-discrete, if◌then◌else◌, ◌||◌, ◌&&◌, not, keep,
  contains,
}
use db_version_control.Prelude.Dict.{Dict, get, put, has, keys}
use db_version_control.Prelude.Strings.{join, sorted}
use db_version_control.Model.Schema.{Uuid, TypeSpec, Expr}
use db_version_control.Model.Operations.{
  Operation, create_table, drop_table, add_column, drop_column, rename_column, alter_column_type,
  alter_column_nullability, alter_column_default, add_index, drop_index, rename_index,
  add_constraint, drop_constraint, operation_eq,
}
use db_version_control.Merge.Grouping.{IdentityGroup}

pub data Classification : Type 0 where
  unrelated identical commuting order_irrelevant conflict partial_conflict : Classification

-- The values of a column's single-valued fields, which the source compares as plain objects.
pub data FieldValue : Type 0 where
  name_value : String → FieldValue
  type_value : TypeSpec → FieldValue
  nullable_value : Bool → FieldValue
  default_value : Option Expr → FieldValue

unfoldable pub FieldValue-discrete : Discrete FieldValue
unfolding String-discrete ℕ_discrete
FieldValue-discrete = hlevel (String-discrete, ℕ_discrete)

instance abbrev pub field_value_eq : Eq FieldValue
field_value_eq = discrete_eq FieldValue-discrete

pub record ClassifiedGroup : Type 0 where
  pub group : IdentityGroup
  pub classification : Classification
  pub reason : String
  pub agreed_fields : Option (Dict String FieldValue)
  pub conflicting_fields : List String
  pub single_valued_field : Bool
  pub cross_object_referencing_op : Option Operation

-- ClassifiedGroup(group, classification, reason), with the defaults of the other fields.
unfoldable pub classified : IdentityGroup → Classification → String → ClassifiedGroup
classified group classification reason = record {
  group = group;
  classification = classification;
  reason = reason;
  agreed_fields = none;
  conflicting_fields = [];
  single_valued_field = false;
  cross_object_referencing_op = none;
}

-- The same with single_valued_field=True.
unfoldable pub single_valued : IdentityGroup → Classification → String → ClassifiedGroup
single_valued group classification reason = record (classified group classification reason) {
  single_valued_field = true;
}

-- type(op).__name__; the classes have different names, so it also stands for type(op).
unfoldable pub type_name : Operation → String
type_name (create_table _) = "CreateTable"
type_name (drop_table _) = "DropTable"
type_name (add_column _ _) = "AddColumn"
type_name (drop_column _ _) = "DropColumn"
type_name (rename_column _ _ _) = "RenameColumn"
type_name (alter_column_type _ _ _) = "AlterColumnType"
type_name (alter_column_nullability _ _) = "AlterColumnNullability"
type_name (alter_column_default _ _ _) = "AlterColumnDefault"
type_name (add_index _ _) = "AddIndex"
type_name (drop_index _) = "DropIndex"
type_name (rename_index _ _ _) = "RenameIndex"
type_name (add_constraint _ _) = "AddConstraint"
type_name (drop_constraint _) = "DropConstraint"

abbrev pub destructive_variants : List String
destructive_variants = "DropColumn" ∷ "DropTable" ∷ "DropIndex" ∷ "DropConstraint" ∷ []

unfoldable pub is_destructive : Operation → Bool
is_destructive op = contains destructive_variants (type_name op)

-- _MUTATION_FIELD, with the attribute already read from the operation.
unfoldable pub mutation_field : Operation → Option (String × FieldValue)
mutation_field (rename_column _ _ new_name) = some ("name", name_value new_name)
mutation_field (alter_column_type _ _ new_type) = some ("type", type_value new_type)
mutation_field (alter_column_nullability _ nullable) = some ("nullable", nullable_value nullable)
mutation_field (alter_column_default _ _ new_default) = some ("default", default_value new_default)
mutation_field _ = none

abbrev is_rename_index : Operation → Bool
is_rename_index (rename_index _ _ _) = true
is_rename_index _ = false

-- Two operations of one type, which are not equal.
unfoldable pub classify_same_type :
    IdentityGroup → Option (String × FieldValue) → Option (String × FieldValue) → ClassifiedGroup
classify_same_type group none _ =
    classified group conflict "both branches built a different object for this identity"
classify_same_type group (some (field_name, a)) none =
    classified group conflict "both branches built a different object for this identity"
classify_same_type group (some (field_name, a)) (some (_, b)) =
    if not (a == b)
    then single_valued group conflict ("both branches set a different " <> field_name)
    else classified group identical "same field, same target value"

unfoldable pub classify_single_pair : IdentityGroup → Operation → Operation → ClassifiedGroup
classify_single_pair group op_a op_b =
    if op_a == op_b
    then classified group identical "identical operation on both sides"
    else if is_destructive op_a || is_destructive op_b
    then (if is_destructive op_a && is_destructive op_b
        then classified group identical "same identity dropped on both sides"
        else single_valued group conflict
            "one branch removed this identity while the other mutated it")
    else if type_name op_a == type_name op_b
    then classify_same_type group (mutation_field op_a) (mutation_field op_b)
    else if is_rename_index op_a || is_rename_index op_b
    then classified group commuting "different fields of the same identity touched"
    else classified group commuting "different, non-overlapping fields touched on each side"

unfoldable pub decompose_into : Dict String FieldValue → List Operation → Dict String FieldValue
decompose_into fields [] = fields
decompose_into fields (op ∷ ops) =
    decompose_into
      (elim (mutation_field op) [ none ↦ fields | some (name, value) ↦ put fields name value ]) ops

unfoldable pub decompose : List Operation → Dict String FieldValue
decompose ops = decompose_into [] ops

-- set(fields_a) | set(fields_b)
unfoldable pub all_field_names : Dict String FieldValue → Dict String FieldValue → List String
all_field_names fields_a fields_b =
    keys fields_a ++ keep (λ f. not (has fields_a f)) (keys fields_b)

-- The two results of the loop over the field names.
pub record Compared : Type 0 where
  pub agreed : Dict String FieldValue
  pub conflicting : List String

-- One round, on the two look-ups of the field.
unfoldable pub compare_field : Compared → String → Option FieldValue → Option FieldValue → Compared
compare_field done field_name (some a) (some b) =
    if a == b
    then record done { agreed = put done.agreed field_name a }
    else record done { conflicting = done.conflicting ++ field_name ∷ [] }
compare_field done field_name (some a) none = record done { agreed = put done.agreed field_name a }
compare_field done field_name none (some b) = record done { agreed = put done.agreed field_name b }
compare_field done field_name none none = done

unfoldable pub compare_fields :
    Dict String FieldValue → Dict String FieldValue → Compared → List String → Compared
compare_fields fields_a fields_b done [] = done
compare_fields fields_a fields_b done (field_name ∷ names) =
    compare_fields fields_a fields_b
      (compare_field done field_name (get fields_a field_name) (get fields_b field_name)) names

unfoldable pub compare_sides : Dict String FieldValue → Dict String FieldValue → Compared
compare_sides fields_a fields_b =
    compare_fields fields_a fields_b (record { agreed = []; conflicting = [] })
      (all_field_names fields_a fields_b)

-- The end of the function: the test `if not conflicting`, on what the loop has left.
unfoldable pub compound_verdict :
    IdentityGroup → Dict String FieldValue → List String → ClassifiedGroup
compound_verdict group agreed [] =
    record (classified group commuting "compound edits agree on every field") {
      agreed_fields = some agreed;
    }
compound_verdict group agreed (field_name ∷ more) =
    record (classified group partial_conflict
      ("compound edits disagree on: " <> join ", " (sorted (field_name ∷ more)))) {
        agreed_fields = some agreed;
        conflicting_fields = sorted (field_name ∷ more);
      }

unfoldable pub classify_compound_pair : IdentityGroup → ClassifiedGroup
classify_compound_pair group =
    let compared = compare_sides (decompose group.ops_a) (decompose group.ops_b) in
    compound_verdict group compared.agreed compared.conflicting

unfoldable pub classify_sides : IdentityGroup → List Operation → List Operation → ClassifiedGroup
classify_sides group [] _ = classified group unrelated "touched by only one branch"
classify_sides group (_ ∷ _) [] = classified group unrelated "touched by only one branch"
classify_sides group (a ∷ []) (b ∷ []) = classify_single_pair group a b
classify_sides group (_ ∷ _ ∷ _) (_ ∷ _) = classify_compound_pair group
classify_sides group (_ ∷ []) (_ ∷ _ ∷ _) = classify_compound_pair group

unfoldable pub classify : IdentityGroup → ClassifiedGroup
classify group = classify_sides group group.ops_a group.ops_b
