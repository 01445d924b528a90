-- ===== src/Model/Serialize/RoundTrip.antt =====
-- What to_jsonable writes, from_jsonable reads.
use db_version_control.Prelude.{
  String, Bool, true, false, List, [], ◌∷◌, contains, ◌==◌, string_eq, ◌≡◌, refl, ap, ◌∙◌,
  if◌then◌else◌,
}
use db_version_control.Prelude.Errors.{ok, ◌>>=◌}
use db_version_control.Model.Serialize.{
  Value, nothing, flag, int, text, uuid, list_of, tuple_of, dict_of, instance_of, Values,
  end_sequence, and_value, Fields, end_instance, and_field, Json, j_null, j_bool, j_number,
  j_string, j_array, j_object, JsonItems, end_array, and_item, JsonFields, end_object, and_member,
  UuidHex, FieldSpec, registry, class_of, is_tuple_field, construct, member_at, tuple_where,
  to_jsonable, to_items, to_members, uuid_from, from_jsonable, from_object, from_items, from_kwargs,
}

-- A tuple is read as a list, unless it stands in a field whose type says that it is a tuple.
abbrev pub untupled : Value → Value
untupled (tuple_of values) = list_of values
untupled value = value

-- No name stands twice.
abbrev pub once : List String → Bool
once [] = true
once (name ∷ names) = let rest = once names in if contains names name then false else rest

abbrev pub field_names : Fields → List String
field_names end_instance = []
field_names (and_field name value fields) = name ∷ field_names fields

abbrev pub member_names : JsonFields → List String
member_names end_object = []
member_names (and_member key value members) = key ∷ member_names members

-- No object, however deep, has a key twice.
unfoldable mutual
  pub KeysOnce : Json → Type 0
  KeysOnce j_null = Unit
  KeysOnce (j_bool b) = Unit
  KeysOnce (j_number n) = Unit
  KeysOnce (j_string s) = Unit
  KeysOnce (j_array items) = ItemsOnce items
  KeysOnce (j_object members) = (once (member_names members) ≡ true) × MembersOnce members

  pub ItemsOnce : JsonItems → Type 0
  ItemsOnce end_array = Unit
  ItemsOnce (and_item item items) = KeysOnce item × ItemsOnce items

  pub MembersOnce : JsonFields → Type 0
  MembersOnce end_object = Unit
  MembersOnce (and_member key value members) = KeysOnce value × MembersOnce members

-- A value that the JSON form keeps: every instance is of a known class and has that class's fields;
-- tuples stand only in fields whose types are tuples, and nowhere else. Plain dicts are left out.
unfoldable mutual
  pub IsKept : Value → Type 0
  IsKept nothing = Unit
  IsKept (flag b) = Unit
  IsKept (int n) = Unit
  IsKept (text s) = Unit
  IsKept (uuid u) = Unit
  IsKept (list_of values) = AreKept values
  IsKept (tuple_of values) = AreKept values
  IsKept (dict_of fields) = true ≡ false
  IsKept (instance_of name fields) =
      (specs : List FieldSpec) × (class_of registry name ≡ ok specs)
      × ((name == "UUID") ≡ false)
      × (construct name specs fields ≡ ok (instance_of name fields))
      × (once ("__type__" ∷ field_names fields) ≡ true)
      × HasKept specs fields

  pub AreKept : Values → Type 0
  AreKept end_sequence = Unit
  AreKept (and_value value values) = (untupled value ≡ value) × IsKept value × AreKept values

  pub HasKept : List FieldSpec → Fields → Type 0
  HasKept specs end_instance = Unit
  HasKept specs (and_field name value fields) =
      ((name == "__type__") ≡ false)
      × (tuple_where (is_tuple_field specs name) (untupled value) ≡ value)
      × IsKept value
      × HasKept specs fields

module _ (uuids : UuidHex) where
  mutual
    unfolding to_jsonable from_jsonable IsKept uuid_from member_at from_object

    pub from-to_jsonable :
        (value : Value)
        → IsKept value
        → from_jsonable uuids (to_jsonable uuids value) ≡ ok (untupled value)
    from-to_jsonable nothing k = refl
    from-to_jsonable (flag b) k = refl
    from-to_jsonable (int n) k = refl
    from-to_jsonable (text s) k = refl
    from-to_jsonable (uuid u) k = ap (λ r. r >>= λ v. ok (uuid v)) (uuids.of_hex-hex u)
    from-to_jsonable (list_of values) k =
        ap (λ r. r >>= λ vs. ok (list_of vs)) (from-to_items values k)
    from-to_jsonable (tuple_of values) k =
        ap (λ r. r >>= λ vs. ok (list_of vs)) (from-to_items values k)
    from-to_jsonable (dict_of fields) k = cc
    from-to_jsonable (instance_of name fields) (specs, known, other, built, _, k) =
        rw (other, known, from_jsonable)
          (ap (λ r. r >>= construct name specs) (from-to_members specs fields k) ∙ built)

    from-to_items :
        (values : Values) → AreKept values → from_items uuids (to_items uuids values) ≡ ok values
    from-to_items end_sequence k = refl
    from-to_items (and_value value values) (same, one, more) =
        rw (from-to_jsonable value one, from-to_items values more, same) refl

    from-to_members :
        (specs : List FieldSpec) (fields : Fields)
        → HasKept specs fields
        → from_kwargs uuids specs (to_members uuids fields) ≡ ok fields
    from-to_members specs end_instance k = refl
    from-to_members specs (and_field name value fields) (other, same, one, more) =
        rw (other, from-to_jsonable value one, from-to_members specs fields more, same) refl

  names-to_members : (fields : Fields) → member_names (to_members uuids fields) ≡ field_names fields
  unfolding to_jsonable
  names-to_members end_instance = refl
  names-to_members (and_field name value fields) =
      ap (λ names. name ∷ names) (names-to_members fields)

  mutual
    unfolding to_jsonable IsKept KeysOnce

    -- What is written has no key twice.
    pub to_jsonable-KeysOnce : (value : Value) → IsKept value → KeysOnce (to_jsonable uuids value)
    to_jsonable-KeysOnce nothing k = tt
    to_jsonable-KeysOnce (flag b) k = tt
    to_jsonable-KeysOnce (int n) k = tt
    to_jsonable-KeysOnce (text s) k = tt
    to_jsonable-KeysOnce (uuid u) k = (refl, (tt, (tt, tt)))
    to_jsonable-KeysOnce (list_of values) k = to_items-ItemsOnce values k
    to_jsonable-KeysOnce (tuple_of values) k = to_items-ItemsOnce values k
    to_jsonable-KeysOnce (dict_of fields) k = cc
    to_jsonable-KeysOnce (instance_of name fields) (specs, known, other, built, names, k) = (
      ap (λ ns. once ("__type__" ∷ ns)) (names-to_members fields) ∙ names,
      (tt, to_members-MembersOnce specs fields k),
    )

    to_items-ItemsOnce : (values : Values) → AreKept values → ItemsOnce (to_items uuids values)
    to_items-ItemsOnce end_sequence k = tt
    to_items-ItemsOnce (and_value value values) (same, one, more) =
        (to_jsonable-KeysOnce value one, to_items-ItemsOnce values more)

    to_members-MembersOnce :
        (specs : List FieldSpec) (fields : Fields)
        → HasKept specs fields
        → MembersOnce (to_members uuids fields)
    to_members-MembersOnce specs end_instance k = tt
    to_members-MembersOnce specs (and_field name value fields) (other, same, one, more) =
        (to_jsonable-KeysOnce value one, to_members-MembersOnce specs fields more)
