-- ===== src/Merge/Classify/Fields.antt =====
-- Field by field: what a compound edit agrees on, and what it leaves to a human.
use db_version_control.Prelude.{
  String, Bool, true, false, Option, none, some, List, [], ◌∷◌, ◌++◌, ◌==◌, string_eq, eq_iff, ◌≡◌,
  refl, ap, inl, inr, ◌⊎◌, arith, if◌then◌else◌, Bool-cases, not, ◌||◌, ◌&&◌, contains,
  contains-append, contains-keep, keep, length, ◌+◌, ◌≤◌,
}
use db_version_control.Prelude.Dict.{Dict, get, put, has, keys, get-put, get_of_not_has}
use db_version_control.Prelude.Strings.{str_leb, insert_sorted, sorted}
use db_version_control.Model.Operations.{Operation, drop_column}
use db_version_control.Model.Schema.{Uuid}
use db_version_control.Merge.Grouping.{IdentityGroup}
use db_version_control.Merge.Classify.{
  commuting, partial_conflict, FieldValue, field_value_eq, ClassifiedGroup, classified, Compared,
  compare_field, compare_fields, compare_sides, all_field_names, decompose, decompose_into,
  mutation_field, compound_verdict, classify_compound_pair, classify_sides, classify,
}

-- The value on which two sides agree: the common one, or that of the only side that has one.
unfoldable pub agreement : Option FieldValue → Option FieldValue → Option FieldValue
agreement (some a) (some b) = if a == b then some a else none
agreement (some a) none = some a
agreement none b = b

-- Both sides set the field, and differently.
unfoldable pub clash : Option FieldValue → Option FieldValue → Bool
clash (some a) (some b) = not (a == b)
clash (some a) none = false
clash none b = false

contains-insert_sorted :
    (a : String) (bs : List String) (x : String)
    → contains (insert_sorted a bs) x ≡ x == a || contains bs x
unfolding insert_sorted
contains-insert_sorted a [] x = refl
contains-insert_sorted a (b ∷ bs) x = elim (Bool-cases (str_leb a b)) [
  | inl q ↦ rw q refl
  | inr q ↦ rw q (ground (arith, contains-insert_sorted a bs x))
]

pub contains-sorted : (xs : List String) (x : String) → contains (sorted xs) x ≡ contains xs x
unfolding sorted
contains-sorted [] x = refl
contains-sorted (y ∷ ys) x =
    ground (arith, contains-insert_sorted y (sorted ys) x, contains-sorted ys x)

abbrev or_else : Option FieldValue → Option FieldValue → Option FieldValue
or_else (some v) o = some v
or_else none o = o

agreed-compare_field :
    (done : Compared) (n : String) (x y : Option FieldValue) (f : String)
    → get (compare_field done n x y).agreed f
      ≡ (if f == n then or_else (agreement x y) (get done.agreed f) else get done.agreed f)
unfolding compare_field agreement
agreed-compare_field done n (some a) (some b) f = elim (Bool-cases (a == b)) [
  | inl e ↦ rw e (get-put done.agreed n f a)
  | inr e ↦ rw e (ground arith)
]
agreed-compare_field done n (some a) none f = get-put done.agreed n f a
agreed-compare_field done n none (some b) f = get-put done.agreed n f b
agreed-compare_field done n none none f = ground arith

conflicting-compare_field :
    (done : Compared) (n : String) (x y : Option FieldValue) (f : String)
    → contains (compare_field done n x y).conflicting f
      ≡ contains done.conflicting f || (f == n && clash x y)
unfolding compare_field clash
conflicting-compare_field done n (some a) (some b) f = elim (Bool-cases (a == b)) [
  | inl e ↦ rw e (ground arith)
  | inr e ↦ rw e (ground (arith, contains-append done.conflicting (n ∷ []) f))
]
conflicting-compare_field done n (some a) none f = ground arith
conflicting-compare_field done n none (some b) f = ground arith
conflicting-compare_field done n none none f = ground arith

module _ (fa fb : Dict String FieldValue) where
  abbrev agrees : String → Option FieldValue
  agrees f = agreement (get fa f) (get fb f)

  abbrev clashes : String → Bool
  clashes f = clash (get fa f) (get fb f)

  -- What the loop has found out about the fields that pass the test `p`.
  record Found (done : Compared) (p : String → Bool) : Type 0 where
    agreed : (f : String) → get done.agreed f ≡ (if p f then agrees f else none)
    clashing : (f : String) → contains done.conflicting f ≡ p f && clashes f

  round :
      (done : Compared) (p : String → Bool) (n : String)
      → Found done p
      → Found (compare_field done n (get fa n) (get fb n)) (λ f. f == n || p f)
  round done p n h = record {
    agreed = λ f. elim (Bool-cases (f == n)) [
      | inl e ↦
          let same : agrees f ≡ agrees n = ap agrees ((eq_iff f n).0 e) in
          ground (arith, agreed-compare_field done n (get fa n) (get fb n) f, h.agreed f)
      | inr e ↦ ground (arith, agreed-compare_field done n (get fa n) (get fb n) f, h.agreed f)
    ];
    clashing = λ f. elim (Bool-cases (f == n)) [
      | inl e ↦
          let same : clashes f ≡ clashes n = ap clashes ((eq_iff f n).0 e) in
          ground (arith, conflicting-compare_field done n (get fa n) (get fb n) f, h.clashing f)
      | inr e ↦
          ground (arith, conflicting-compare_field done n (get fa n) (get fb n) f, h.clashing f)
    ];
  }

  rounds :
      (names : List String) (done : Compared) (p : String → Bool)
      → Found done p
      → Found (compare_fields fa fb done names) (λ f. contains names f || p f)
  unfolding compare_fields
  rounds [] done p h = h
  rounds (n ∷ names) done p h =
      let rest =
        rounds names (compare_field done n (get fa n) (get fb n)) (λ f. f == n || p f)
          (round done p n h) in
      record {
        agreed = λ f. ground (arith, rest.agreed f);
        clashing = λ f. ground (arith, rest.clashing f);
      }

  names_complete : (f : String) → contains (all_field_names fa fb) f ≡ has fa f || has fb f
  unfolding all_field_names
  names_complete f = ground (
    arith,
    contains-append (keys fa) (keep (λ g. not (has fa g)) (keys fb)) f,
    contains-keep (λ g. not (has fa g)) (keys fb) f,
  )

  Found-nothing : Found (record { agreed = []; conflicting = [] }) (λ f. false)
  unfolding get
  Found-nothing = record { agreed = λ f. refl; clashing = λ f. refl }

  Found-all : Found (compare_sides fa fb) (λ f. contains (all_field_names fa fb) f || false)
  unfolding compare_sides
  Found-all =
      rounds (all_field_names fa fb) (record { agreed = []; conflicting = [] }) (λ f. false)
        Found-nothing

  -- The comparison of two sides is the field-by-field one, for every field.
  pub compare_sides_lem :
      (f : String)
      → (get (compare_sides fa fb).agreed f ≡ agreement (get fa f) (get fb f))
        × (contains (compare_sides fa fb).conflicting f ≡ clash (get fa f) (get fb f))
  unfolding agreement clash
  compare_sides_lem f = elim (Bool-cases (has fa f || has fb f)) [
    | inl there ↦ (
      ground (arith, Found-all.agreed f, names_complete f),
      ground (arith, Found-all.clashing f, names_complete f),
    )
    | inr absent ↦
        let no_a = get_of_not_has fa f (ground arith) in
        let no_b = get_of_not_has fb f (ground arith) in
        (
          ground (arith, Found-all.agreed f, names_complete f, no_a, no_b),
          ground (arith, Found-all.clashing f, names_complete f, no_a, no_b),
        )
  ]

abbrev field_of : List Operation → String → Option FieldValue
field_of ops f = get (decompose ops) f

-- What a compound classification says, with the last assignment to each field on each side.
pub record IsFieldwise (g : IdentityGroup) (c : ClassifiedGroup) : Type 0 where
  pub agreed : Dict String FieldValue
  pub recorded : c.agreed_fields ≡ some agreed
  pub agrees : (f : String) → get agreed f ≡ agreement (field_of g.ops_a f) (field_of g.ops_b f)
  pub conflicts :
      (f : String)
      → contains c.conflicting_fields f ≡ clash (field_of g.ops_a f) (field_of g.ops_b f)
  pub verdict :
      (c.classification ≡ commuting) × (c.conflicting_fields ≡ [])
      ⊎ (c.classification ≡ partial_conflict)
        × ((f : String) × (clash (field_of g.ops_a f) (field_of g.ops_b f) ≡ true))

decompose-append_drop :
    (fields : Dict String FieldValue) (ops more : List Operation) (t c : Uuid)
    → decompose_into fields (ops ++ drop_column t c ∷ more) ≡ decompose_into fields (ops ++ more)
unfolding decompose_into mutation_field
decompose-append_drop fields [] more t c = refl
decompose-append_drop fields (op ∷ ops) more t c =
    decompose-append_drop
      (elim (mutation_field op) [ none ↦ fields | some (name, value) ↦ put fields name value ]) ops
      more t c

verdict_same :
    (g h : IdentityGroup) (agreed : Dict String FieldValue) (conflicting : List String)
    → ((compound_verdict g agreed conflicting).classification
        ≡ (compound_verdict h agreed conflicting).classification)
      × ((compound_verdict g agreed conflicting).conflicting_fields
          ≡ (compound_verdict h agreed conflicting).conflicting_fields)
unfolding compound_verdict classified
verdict_same g h agreed [] = (refl, refl)
verdict_same g h agreed (x ∷ xs) = (refl, refl)

-- Two edits on the first side and one on the second are compared field by field.
to_compound :
    (group : IdentityGroup) (xs ys : List Operation)
    → 2 ≤ length xs
    → 1 ≤ length ys
    → classify_sides group xs ys ≡ classify_compound_pair group
unfolding classify_sides
to_compound group [] ys h k = ground arith
to_compound group (x ∷ xs) [] h k = ground arith
to_compound group (x ∷ []) (y ∷ ys) h k = ground arith
to_compound group (x ∷ x' ∷ xs) (y ∷ ys) h k = refl

length_inserted :
    (xs ys : List Operation) (op : Operation) → length (xs ++ op ∷ ys) ≡ 1 + length (xs ++ ys)
length_inserted [] ys op = omega arith
length_inserted (x ∷ xs) ys op = omega (arith, length_inserted xs ys op)

-- In a compound group a DropColumn is not seen: leaving one out of the first side changes neither
-- the classification nor the conflicting fields.
compound_ignores_drop :
    (i t c : Uuid) (ops more ops_b : List Operation)
    → let with_drop : IdentityGroup = record {
      identity_id = i;
      ops_a = ops ++ drop_column t c ∷ more;
      ops_b = ops_b;
    } in
      let without : IdentityGroup = record {
        identity_id = i;
        ops_a = ops ++ more;
        ops_b = ops_b;
      } in
      ((classify_compound_pair with_drop).classification
        ≡ (classify_compound_pair without).classification)
      × ((classify_compound_pair with_drop).conflicting_fields
          ≡ (classify_compound_pair without).conflicting_fields)
unfolding classify_compound_pair decompose
compound_ignores_drop i t c ops more ops_b = rw (decompose-append_drop [] ops more t c) (
    verdict_same _ _
      (compare_sides (decompose_into [] (ops ++ more)) (decompose_into [] ops_b)).agreed
      (compare_sides (decompose_into [] (ops ++ more)) (decompose_into [] ops_b)).conflicting)

-- A DropColumn beside edits is not seen: for a group with an operation on the second side and a
-- DropColumn and at least two other operations on the first, leaving the DropColumn out changes
-- neither the classification nor the conflicting fields that `classify` returns.
pub classify_ignores_drop :
    (i t c : Uuid) (ops more ops_b : List Operation)
    → 2 ≤ length (ops ++ more)
    → 1 ≤ length ops_b
    → let with_drop : IdentityGroup = record {
      identity_id = i;
      ops_a = ops ++ drop_column t c ∷ more;
      ops_b = ops_b;
    } in
      let without : IdentityGroup = record {
        identity_id = i;
        ops_a = ops ++ more;
        ops_b = ops_b;
      } in
      ((classify with_drop).classification ≡ (classify without).classification)
      × ((classify with_drop).conflicting_fields ≡ (classify without).conflicting_fields)
unfolding classify
classify_ignores_drop i t c ops more ops_b h k =
    rw
      (
        to_compound _ (ops ++ drop_column t c ∷ more) ops_b
            (omega (arith, h, length_inserted ops more (drop_column t c))) k,
        to_compound _ (ops ++ more) ops_b h k,
      )
      (compound_ignores_drop i t c ops more ops_b)
