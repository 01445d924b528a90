-- ===== src/Model/Serialize.antt =====
-- model/serialize.py: Python values as JSON values, and back.
pub mod RoundTrip
pub mod Objects
pub mod Columns
pub mod Tables
pub mod Edits
pub mod Nodes
use db_version_control.Prelude.{
  ℕ, String, Bool, true, false, Option, none, some, List, [], ◌∷◌, ◌==◌, string_eq, if◌then◌else◌,
  ◌≡◌,
}
use db_version_control.Prelude.Errors.{Result, ok, err, key_error, type_error, ◌>>=◌}
use db_version_control.Model.Schema.{Uuid}

-- What to_jsonable takes: a dataclass instance is its class's name and its fields in order.
mutual
  pub data Value : Type 0 where
    nothing : Value
    flag : Bool → Value
    int : ℕ → Value
    text : String → Value
    uuid : Uuid → Value
    list_of tuple_of : Values → Value
    dict_of : Fields → Value
    instance_of : String → Fields → Value

  pub data Values : Type 0 where
    end_sequence : Values
    and_value : Value → Values → Values

  pub data Fields : Type 0 where
    end_instance : Fields
    and_field : String → Value → Fields → Fields

-- What the json module reads and writes.
mutual
  pub data Json : Type 0 where
    j_null : Json
    j_bool : Bool → Json
    j_number : ℕ → Json
    j_string : String → Json
    j_array : JsonItems → Json
    j_object : JsonFields → Json

  pub data JsonItems : Type 0 where
    end_array : JsonItems
    and_item : Json → JsonItems → JsonItems

  pub data JsonFields : Type 0 where
    end_object : JsonFields
    and_member : String → Json → JsonFields → JsonFields

-- UUID.hex and UUID(hex=...).
pub record UuidHex : Type 0 where
  pub hex : Uuid → String
  pub of_hex : String → Result Uuid
  pub of_hex-hex : (u : Uuid) → of_hex (hex u) ≡ ok u

-- A field of a dataclass: whether "tuple" is in its type, and its default.
pub record FieldSpec : Type 0 where
  pub name : String
  pub is_tuple : Bool
  pub default : Option Value

abbrev plain : String → FieldSpec
plain name = record { name = name; is_tuple = false; default = none }

abbrev tupled : String → FieldSpec
tupled name = record { name = name; is_tuple = true; default = none }

abbrev with_default : FieldSpec → Value → FieldSpec
with_default spec value = record spec { default = some value }

-- The dataclasses of model/, by their names.
unfoldable pub registry : List (String × List FieldSpec)
registry =
    ("CreateTable", plain "table" ∷ [])
    ∷ ("DropTable", plain "table_id" ∷ [])
    ∷ ("AddColumn", plain "table_id" ∷ plain "column" ∷ [])
    ∷ ("DropColumn", plain "table_id" ∷ plain "column_id" ∷ [])
    ∷ ("RenameColumn", plain "column_id" ∷ plain "old_name" ∷ plain "new_name" ∷ [])
    ∷ ("AlterColumnType", plain "column_id" ∷ plain "old_type" ∷ plain "new_type" ∷ [])
    ∷ ("AlterColumnNullability", plain "column_id" ∷ plain "nullable" ∷ [])
    ∷ ("AlterColumnDefault", plain "column_id" ∷ plain "old_default" ∷ plain "new_default" ∷ [])
    ∷ ("AddIndex", plain "table_id" ∷ plain "index" ∷ [])
    ∷ ("DropIndex", plain "index_id" ∷ [])
    ∷ ("RenameIndex", plain "index_id" ∷ plain "old_name" ∷ plain "new_name" ∷ [])
    ∷ ("AddConstraint", plain "table_id" ∷ plain "constraint" ∷ [])
    ∷ ("DropConstraint", plain "constraint_id" ∷ [])
    ∷ ("CompoundOperation", with_default (tupled "operations") (tuple_of end_sequence) ∷ [])
    ∷ (
      "Column",
      plain "id"
          ∷ plain "name"
          ∷ plain "type"
          ∷ with_default (plain "nullable") (flag true)
          ∷ with_default (plain "default") nothing
          ∷ with_default (plain "position") (int 0)
          ∷ [],
    )
    ∷ (
      "Index",
      plain "id"
          ∷ plain "name"
          ∷ with_default (plain "columns") (list_of end_sequence)
          ∷ with_default (plain "unique") (flag false)
          ∷ [],
    )
    ∷ (
      "Constraint",
      plain "id"
          ∷ plain "kind"
          ∷ with_default (plain "columns") (list_of end_sequence)
          ∷ with_default (plain "references") nothing
          ∷ with_default (plain "raw_expr") nothing
          ∷ [],
    )
    ∷ (
      "Table",
      plain "id"
          ∷ plain "name"
          ∷ with_default (plain "columns") (list_of end_sequence)
          ∷ with_default (plain "indexes") (list_of end_sequence)
          ∷ with_default (plain "constraints") (list_of end_sequence)
          ∷ [],
    )
    ∷ (
      "Snapshot",
      plain "branch"
          ∷ plain "revision_id"
          ∷ with_default (plain "tables") (list_of end_sequence)
          ∷ [],
    )
    ∷ ("TypeSpec", plain "name" ∷ with_default (tupled "params") (tuple_of end_sequence) ∷ [])
    ∷ ("Expr", plain "raw" ∷ [])
    ∷ (
      "Migration",
      plain "id"
          ∷ tupled "parents"
          ∷ plain "branch"
          ∷ with_default (tupled "operations") (tuple_of end_sequence)
          ∷ with_default (plain "created_at") nothing
          ∷ [],
    )
    ∷ []

-- _REGISTRY[type_name]
unfoldable pub class_of : List (String × List FieldSpec) → String → Result (List FieldSpec)
class_of [] name = err key_error
class_of ((other, specs) ∷ classes) name =
    let rest = class_of classes name in if other == name then ok specs else rest

unfoldable pub is_tuple_field : List FieldSpec → String → Bool
is_tuple_field [] name = false
is_tuple_field (spec ∷ specs) name =
    let rest = is_tuple_field specs name in if spec.name == name then spec.is_tuple else rest

unfoldable pub field_at : Fields → String → Option Value
field_at end_instance name = none
field_at (and_field other value fields) name =
    let rest = field_at fields name in if other == name then some value else rest

unfoldable pub known_field : List FieldSpec → String → Bool
known_field [] name = false
known_field (spec ∷ specs) name =
    let rest = known_field specs name in if spec.name == name then true else rest

unfoldable pub all_known : List FieldSpec → Fields → Bool
all_known specs end_instance = true
all_known specs (and_field name value fields) =
    let rest = all_known specs fields in if known_field specs name then rest else false

unfoldable pub in_order : List FieldSpec → Fields → Result Fields
in_order [] kwargs = ok end_instance
in_order (spec ∷ specs) kwargs = in_order specs kwargs >>= λ fields.
    elim (field_at kwargs spec.name) [
      | some value ↦ ok (and_field spec.name value fields)
      | none ↦ elim spec.default [
        | some value ↦ ok (and_field spec.name value fields)
        | none ↦ err type_error
      ]
    ]

-- cls(**kwargs)
unfoldable pub construct : String → List FieldSpec → Fields → Result Value
construct name specs kwargs =
    if all_known specs kwargs
    then (in_order specs kwargs >>= λ fields. ok (instance_of name fields))
    else err type_error

-- value.get(key)
unfoldable pub member_at : JsonFields → String → Option Json
member_at end_object key = none
member_at (and_member other value members) key =
    let rest = member_at members key in if other == key then some value else rest

unfoldable pub tuple_where : Bool → Value → Value
tuple_where true (list_of values) = tuple_of values
tuple_where _ value = value

module _ (uuids : UuidHex) where
  unfoldable mutual
    pub to_jsonable : Value → Json
    to_jsonable nothing = j_null
    to_jsonable (flag b) = j_bool b
    to_jsonable (int n) = j_number n
    to_jsonable (text s) = j_string s
    to_jsonable (uuid u) = j_object (
        and_member "__type__" (j_string "UUID")
          (and_member "hex" (j_string (uuids.hex u)) end_object))
    to_jsonable (list_of values) = j_array (to_items values)
    to_jsonable (tuple_of values) = j_array (to_items values)
    to_jsonable (dict_of fields) = j_object (to_members fields)
    to_jsonable (instance_of name fields) =
        j_object (and_member "__type__" (j_string name) (to_members fields))

    pub to_items : Values → JsonItems
    to_items end_sequence = end_array
    to_items (and_value value values) = and_item (to_jsonable value) (to_items values)

    pub to_members : Fields → JsonFields
    to_members end_instance = end_object
    to_members (and_field name value fields) =
        and_member name (to_jsonable value) (to_members fields)

  unfoldable pub uuid_from : Option Json → Result Value
  uuid_from none = err key_error
  uuid_from (some (j_string hex)) = uuids.of_hex hex >>= λ u. ok (uuid u)
  uuid_from (some _) = err type_error

  -- The branches on `type_name`, on what the members are without a class and as `kwargs` of one.
  unfoldable pub from_object :
      JsonFields → Result Fields → (List FieldSpec → Result Fields) → Option Json → Result Value
  from_object members as_dict kwargs none = as_dict >>= λ fields. ok (dict_of fields)
  from_object members as_dict kwargs (some j_null) = as_dict >>= λ fields. ok (dict_of fields)
  from_object members as_dict kwargs (some (j_string type_name)) =
      if type_name == "UUID"
      then uuid_from (member_at members "hex")
      else (class_of registry type_name >>= λ specs. kwargs specs >>= construct type_name specs)
  from_object members as_dict kwargs (some (j_array _)) = err type_error
  from_object members as_dict kwargs (some (j_object _)) = err type_error
  from_object members as_dict kwargs (some _) = err key_error

  unfoldable mutual
    pub from_jsonable : Json → Result Value
    from_jsonable j_null = ok nothing
    from_jsonable (j_bool b) = ok (flag b)
    from_jsonable (j_number n) = ok (int n)
    from_jsonable (j_string s) = ok (text s)
    from_jsonable (j_array items) = from_items items >>= λ values. ok (list_of values)
    from_jsonable (j_object members) =
        from_object members (from_dict members) (λ specs. from_kwargs specs members)
          (member_at members "__type__")

    pub from_items : JsonItems → Result Values
    from_items end_array = ok end_sequence
    from_items (and_item item items) =
        from_jsonable item >>= λ value. from_items items >>= λ values. ok (and_value value values)

    -- The loop that fills `kwargs`.
    pub from_kwargs : List FieldSpec → JsonFields → Result Fields
    from_kwargs specs end_object = ok end_instance
    from_kwargs specs (and_member key value members) =
        let field = from_jsonable value >>= λ decoded. from_kwargs specs members >>= λ fields.
        ok (and_field key (tuple_where (is_tuple_field specs key) decoded) fields) in
        if key == "__type__" then from_kwargs specs members else field

    pub from_dict : JsonFields → Result Fields
    from_dict end_object = ok end_instance
    from_dict (and_member key value members) = from_jsonable value >>= λ decoded.
        from_dict members >>= λ fields. ok (and_field key decoded fields)
