-- ===== src/Model/Serialize/Objects.antt =====
-- The dataclass instances of model/, as the values that to_jsonable takes, and back.
use db_version_control.Prelude.{
  ℕ, String, Bool, Option, none, some, List, [], ◌∷◌, ◌==◌, string_eq, ◌≡◌, refl, if◌then◌else◌,
}
use db_version_control.Prelude.Errors.{Result, ok, err, type_error, ◌>>=◌}
use db_version_control.Model.Schema.{Uuid, TypeSpec, Expr}
use db_version_control.Model.Serialize.{
  Value, nothing, flag, int, text, uuid, list_of, tuple_of, dict_of, instance_of, Values,
  end_sequence, and_value, Fields, end_instance, and_field,
}
use db_version_control.Model.Serialize.{
  tuple_where, is_tuple_field, class_of, registry, construct, all_known, known_field, in_order,
  field_at,
}
use db_version_control.Model.Serialize.RoundTrip.{untupled, IsKept, AreKept}

-- How objects of a type stand as values: what the value is, that it is read back, and that the JSON
-- form keeps it.
pub record Form (A : Type 0) : Type 0 where
  pub to_value : A → Value
  pub of_value : Value → Result A
  pub of-to_value : (a : A) → of_value (to_value a) ≡ ok a
  pub whole : (a : A) → untupled (to_value a) ≡ to_value a
  pub kept : (a : A) → IsKept (to_value a)

module _ {A : Type 0} (form : Form A) where
  unfoldable pub values_of : List A → Values
  values_of [] = end_sequence
  values_of (a ∷ more) = and_value (form.to_value a) (values_of more)

  unfoldable pub read_values : Values → Result (List A)
  read_values end_sequence = ok []
  read_values (and_value v vs) = form.of_value v >>= λ a. read_values vs >>= λ more. ok (a ∷ more)

  pub read-values_of : (xs : List A) → read_values (values_of xs) ≡ ok xs
  unfolding values_of read_values
  read-values_of [] = refl
  read-values_of (a ∷ more) = rw (form.of-to_value a, read-values_of more) refl

  pub values_of-AreKept : (xs : List A) → AreKept (values_of xs)
  unfolding values_of IsKept
  values_of-AreKept [] = tt
  values_of-AreKept (a ∷ more) = (form.whole a, form.kept a, values_of-AreKept more)

  unfoldable pub read_list : Value → Result (List A)
  read_list (list_of vs) = read_values vs
  read_list _ = err type_error

  unfoldable pub read_tuple : Value → Result (List A)
  read_tuple (tuple_of vs) = read_values vs
  read_tuple _ = err type_error

  abbrev pub list_value : List A → Value
  list_value xs = list_of (values_of xs)

  abbrev pub tuple_value : List A → Value
  tuple_value xs = tuple_of (values_of xs)

  -- None or an object.
  abbrev pub option_value : Option A → Value
  option_value none = nothing
  option_value (some a) = form.to_value a

  unfoldable pub read_option : Value → Result (Option A)
  read_option nothing = ok none
  read_option (flag b) = form.of_value (flag b) >>= λ a. ok (some a)
  read_option (int n) = form.of_value (int n) >>= λ a. ok (some a)
  read_option (text s) = form.of_value (text s) >>= λ a. ok (some a)
  read_option (uuid u) = form.of_value (uuid u) >>= λ a. ok (some a)
  read_option (list_of vs) = form.of_value (list_of vs) >>= λ a. ok (some a)
  read_option (tuple_of vs) = form.of_value (tuple_of vs) >>= λ a. ok (some a)
  read_option (dict_of fs) = form.of_value (dict_of fs) >>= λ a. ok (some a)
  read_option (instance_of name fs) = form.of_value (instance_of name fs) >>= λ a. ok (some a)

  pub option-whole : (o : Option A) → untupled (option_value o) ≡ option_value o
  option-whole none = refl
  option-whole (some a) = form.whole a

  pub option_kept : (o : Option A) → IsKept (option_value o)
  unfolding IsKept
  option_kept none = tt
  option_kept (some a) = form.kept a

unfoldable pub read_flag : Value → Result Bool
read_flag (flag b) = ok b
read_flag _ = err type_error

unfoldable pub read_int : Value → Result ℕ
read_int (int n) = ok n
read_int _ = err type_error

unfoldable pub read_text : Value → Result String
read_text (text s) = ok s
read_text _ = err type_error

unfoldable pub read_uuid : Value → Result Uuid
read_uuid (uuid u) = ok u
read_uuid _ = err type_error

unfoldable pub int_form : Form ℕ
unfolding read_int IsKept
int_form = record {
  to_value = int;
  of_value = read_int;
  of-to_value = λ n. refl;
  whole = λ n. refl;
  kept = λ n. tt;
}

unfoldable pub text_form : Form String
unfolding read_text IsKept
text_form = record {
  to_value = text;
  of_value = read_text;
  of-to_value = λ s. refl;
  whole = λ s. refl;
  kept = λ s. tt;
}

unfoldable pub uuid_form : Form Uuid
unfolding read_uuid IsKept
uuid_form = record {
  to_value = uuid;
  of_value = read_uuid;
  of-to_value = λ u. refl;
  whole = λ u. refl;
  kept = λ u. tt;
}

-- The values of the fields, in order.
unfoldable pub parts : Fields → List Value
parts end_instance = []
parts (and_field name v fields) = v ∷ parts fields

-- An instance of the class.
unfoldable pub read_as : {A : Type 0} → String → (List Value → Result A) → Value → Result A
read_as class read (instance_of name fields) =
    if name == class then read (parts fields) else err type_error
read_as class read _ = err type_error

unfoldable pub expr_value : Expr → Value
expr_value e = instance_of "Expr" (and_field "raw" (text e.raw) end_instance)

unfoldable pub expr_of_parts : List Value → Result Expr
expr_of_parts (raw ∷ []) = read_text raw >>= λ raw. ok (record { raw = raw })
expr_of_parts _ = err type_error

pub expr-kept : (e : Expr) → IsKept (expr_value e)
unfolding expr_value IsKept class_of registry construct all_known known_field in_order field_at
    is_tuple_field tuple_where
expr-kept e = (_, refl, refl, refl, refl, (refl, refl, tt, tt))

unfoldable pub expr_form : Form Expr
unfolding expr_value expr_of_parts read_as parts read_text
expr_form = record {
  to_value = expr_value;
  of_value = read_as "Expr" expr_of_parts;
  of-to_value = λ e. refl;
  whole = λ e. refl;
  kept = expr-kept;
}

unfoldable pub type_value : TypeSpec → Value
type_value t = instance_of "TypeSpec" (
    and_field "name" (text t.name)
      (and_field "params" (tuple_value int_form t.params) end_instance))

unfoldable pub type_of_parts : List Value → Result TypeSpec
type_of_parts (name ∷ params ∷ []) = do
  name ← read_text name
  params ← read_tuple int_form params
  ok (record { name = name; params = params })
type_of_parts _ = err type_error

pub type-kept : (t : TypeSpec) → IsKept (type_value t)
unfolding type_value IsKept class_of registry construct all_known known_field in_order field_at
    is_tuple_field tuple_where
type-kept t = (
  _,
  refl,
  refl,
  refl,
  refl,
  (refl, refl, tt, (refl, refl, values_of-AreKept int_form t.params, tt)),
)

pub of-type_value : (t : TypeSpec) → read_as "TypeSpec" type_of_parts (type_value t) ≡ ok t
unfolding type_value type_of_parts read_as parts read_text read_tuple
of-type_value t = rw (read-values_of int_form t.params) refl

unfoldable pub type_form : Form TypeSpec
unfolding type_value
type_form = record {
  to_value = type_value;
  of_value = read_as "TypeSpec" type_of_parts;
  of-to_value = of-type_value;
  whole = λ t. refl;
  kept = type-kept;
}
