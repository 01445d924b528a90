-- ===== src/Snapshots/ToOperations/Retype.antt =====
-- What the operations for a retyped column do to it.
use db_version_control.Prelude.{
  String, Bool, true, Option, none, some, List, [], ◌∷◌, ◌++◌, ◌==◌, ◌≡◌, ◌↔◌, refl, sym, ap, ◌∙◌,
  inl, inr, arith, Bool-cases, nat_eq, beq_refl, string_eq, eq_iff,
}
use db_version_control.Prelude.Errors.{ok, err, Result-cases}
use db_version_control.Model.Schema.{Uuid, TypeSpec, Expr, Column}
use db_version_control.Model.Operations.{
  Operation, alter_column_type, alter_column_nullability, alter_column_default,
}
use db_version_control.Dag.Apply.{Tables, apply_operation}
use db_version_control.Dag.Apply.Lookup.{lookup_column, map_option}
use db_version_control.Dag.Apply.Effects.{column_edit, apply-lookup_column}
use db_version_control.Dag.Walk.{apply_each}
use db_version_control.Snapshots.Raw.{RawColumn}
use db_version_control.Snapshots.Diff.{same_text, default_text, same_shape, type_spec_eq, flag_eq}
use db_version_control.Snapshots.ToOperations.{
  expr_of, type_ops, nullability_ops, default_ops, retype_ops,
}

-- For a column and its description, no operation is generated exactly if `_same_shape` holds: the
-- columns that the diff passes on as retyped are those for which there is something to do.
pub retype_ops_empty_iff :
    (c : Column) (raw : RawColumn) → (retype_ops c raw ≡ []) ↔ (same_shape c raw ≡ true)
unfolding retype_ops type_ops nullability_ops default_ops same_shape
retype_ops_empty_iff c raw = elim (Bool-cases (c.type == raw.type)) [
  | inr p ↦ ground arith
  | inl p ↦ elim (Bool-cases (c.nullable == raw.nullable)) [
    | inr q ↦ ground arith
    | inl q ↦ ground arith
  ]
]

same_text-expr_of :
    (d : Option Expr) (t : Option String) → same_text (default_text d) t ≡ true → d ≡ expr_of t
unfolding same_text default_text expr_of
same_text-expr_of none none h = refl
same_text-expr_of none (some b) h = cc
same_text-expr_of (some e) none h = cc
same_text-expr_of (some e) (some b) h =
    ap some (ap (λ (raw : String). let x : Expr = record { raw = raw } in x) ((eq_iff e.raw b).0 h))

-- `st` holds `c` under `i`, and after `ops` it holds `d`.
abbrev Turns : Uuid → Column → Column → List Operation → Type 0
Turns i c d ops =
    (st : Tables)
    → lookup_column st i ≡ some c
    → (st' : Tables) × (apply_each st ops ≡ ok st') × (lookup_column st' i ≡ some d)

Turns-nil : (i : Uuid) (c d : Column) → c ≡ d → Turns i c d []
unfolding apply_each
Turns-nil i c d e st h = (st, refl, h ∙ ap some e)

Turns-one :
    (i : Uuid) (c : Column) (op : Operation) (f : Column → Column)
    → column_edit op ≡ some (i, f)
    → Turns i c (f c) (op ∷ [])
unfolding apply_each map_option
Turns-one i c op f q st h =
    let (st', done, found) = apply-lookup_column st op i f i q in
    (st', rw (done, apply_each) refl, found ∙ rw (beq_refl i) (ap (map_option f) h))

apply_each-append :
    (st st' : Tables) (ops more : List Operation)
    → apply_each st ops ≡ ok st'
    → apply_each st (ops ++ more) ≡ apply_each st' more
unfolding apply_each
apply_each-append st st' [] more h =
    let e : st ≡ st' = ground arith in ap (λ s. apply_each s more) e
apply_each-append st st' (op ∷ ops) more h = elim (Result-cases (apply_operation st op)) [
  | inl (st1, q) ↦ rw (q, apply_each) (apply_each-append st1 st' ops more (rw (q, apply_each) at h))
  | inr (e, q) ↦ let no : err e ≡ ok st' = rw (q, apply_each) at h in cc
]

Turns-append :
    (i : Uuid) (c d e : Column) (ops more : List Operation)
    → Turns i c d ops
    → Turns i d e more
    → Turns i c e (ops ++ more)
Turns-append i c d e ops more first second st h =
    let (st1, done, found) = first st h in
    let (st2, done', found') = second st1 found in
    (st2, apply_each-append st st1 ops more done ∙ done', found')

module _ (c : Column) (raw : RawColumn) where
  type_ops-Turns :
      (d : Column)
      → c.id ≡ d.id
      → c.type ≡ d.type
      → Turns c.id d (record d { type = raw.type }) (type_ops c raw)
  unfolding type_ops
  type_ops-Turns d e same = elim (Bool-cases (c.type == raw.type)) [
    | inl p ↦
        let eq : d.type ≡ raw.type = sym same ∙ (type_spec_eq.beq_iff c.type raw.type).0 p in
        rw (p, type_ops)
          (Turns-nil c.id d (record d { type = raw.type })
            (ap (λ (t : TypeSpec). record d { type = t }) eq))
    | inr p ↦
        rw (p, type_ops)
          (Turns-one c.id d (alter_column_type c.id c.type raw.type)
            (λ x. record x { type = raw.type }) refl)
  ]

  nullability_ops-Turns :
      (d : Column)
      → c.nullable ≡ d.nullable
      → Turns c.id d (record d { nullable = raw.nullable }) (nullability_ops c raw)
  unfolding nullability_ops
  nullability_ops-Turns d same = elim (Bool-cases (c.nullable == raw.nullable)) [
    | inl p ↦
        let eq : d.nullable ≡ raw.nullable =
          sym same ∙ (flag_eq.beq_iff c.nullable raw.nullable).0 p in
        rw (p, nullability_ops)
          (Turns-nil c.id d (record d { nullable = raw.nullable })
            (ap (λ (t : Bool). record d { nullable = t }) eq))
    | inr p ↦
        rw (p, nullability_ops)
          (Turns-one c.id d (alter_column_nullability c.id raw.nullable)
            (λ x. record x { nullable = raw.nullable }) refl)
  ]

  default_ops-Turns :
      (d : Column)
      → c.default ≡ d.default
      → Turns c.id d (record d { default = expr_of raw.default }) (default_ops c raw)
  unfolding default_ops
  default_ops-Turns d same = elim (Bool-cases (same_text (default_text c.default) raw.default)) [
    | inl p ↦
        let eq : d.default ≡ expr_of raw.default =
          sym same ∙ same_text-expr_of c.default raw.default p in
        rw (p, default_ops)
          (Turns-nil c.id d (record d { default = expr_of raw.default })
            (ap (λ (t : Option Expr). record d { default = t }) eq))
    | inr p ↦
        rw (p, default_ops)
          (Turns-one c.id d (alter_column_default c.id c.default (expr_of raw.default))
            (λ x. record x { default = expr_of raw.default }) refl)
  ]

-- In tables that hold a column under its id, the operations of `_retype_ops` all succeed, and
-- afterwards the column has the described type, nullability and default, and the rest as it was.
pub retype_ops-lookup_column :
    (c : Column) (raw : RawColumn) (st : Tables)
    → lookup_column st c.id ≡ some c
    → (st' : Tables) × (apply_each st (retype_ops c raw) ≡ ok st')
      × (lookup_column st' c.id
          ≡ some (record c {
            type = raw.type;
            nullable = raw.nullable;
            default = expr_of raw.default;
          }))
unfolding retype_ops
retype_ops-lookup_column c raw =
    let d : Column = record c { type = raw.type } in
    let e : Column = record d { nullable = raw.nullable } in
    let f : Column = record e { default = expr_of raw.default } in
    Turns-append c.id c d f (type_ops c raw) (nullability_ops c raw ++ default_ops c raw)
      (type_ops-Turns c raw c refl refl)
      (Turns-append c.id d e f (nullability_ops c raw) (default_ops c raw)
        (nullability_ops-Turns c raw d refl) (default_ops-Turns c raw e refl))
