-- ===== src/Merge/Classify/Soundness.antt =====
-- What the automatic classifications promise, held against what `apply_operation` does.
use db_version_control.Prelude.{
  String, true, false, Option, none, some, ◌==◌, string_eq, ◌≡◌, ◌≢◌, refl, sym, subst, nat_beq_iff,
  nat_eq, beq_refl, fun_ext, ◌∙◌, ◌⊎◌, inl, inr, arith, Bool-cases, ap,
}
use db_version_control.Prelude.Dict.{has, remove, has-remove}
use db_version_control.Prelude.Errors.{err, key_error, Result, ◌>>=◌}
use db_version_control.Model.Schema.{Uuid, Column}
use db_version_control.Model.Operations.{
  Operation, drop_table, rename_column, alter_column_type, alter_column_nullability,
  alter_column_default, rename_index, operation_eq,
}
use db_version_control.Dag.Apply.{Tables, apply_operation}
use db_version_control.Dag.Apply.Effects.{column_edit}
use db_version_control.Dag.Apply.Commute.{
  apply_both, IsRepeatable, apply_twice, apply_swap_columns, apply_swap_index,
}
use db_version_control.Merge.Grouping.{IdentityGroup, target_id}
use db_version_control.Merge.Classify.{
  Classification, identical, commuting, FieldValue, field_value_eq, classified, single_valued,
  type_name, is_destructive, mutation_field, classify_same_type, classify_single_pair,
}

-- The operations that assign a field of something that exists.
abbrev pub IsMutation : Operation → Type 0
IsMutation (rename_column _ _ _) = Unit
IsMutation (alter_column_type _ _ _) = Unit
IsMutation (alter_column_nullability _ _) = Unit
IsMutation (alter_column_default _ _ _) = Unit
IsMutation (rename_index _ _ _) = Unit
IsMutation _ = ⊥

classified_as :
    (g : IdentityGroup) (c : Classification) (r : String) → (classified g c r).classification ≡ c
unfolding classified
classified_as g c r = refl

single_valued_as :
    (g : IdentityGroup) (c : Classification) (r : String) → (single_valued g c r).classification ≡ c
unfolding single_valued classified
single_valued_as g c r = refl

-- Two operations of one type never count as commuting.
same_type-ne-commuting :
    (g : IdentityGroup) (x y : Option (String × FieldValue))
    → (classify_same_type g x y).classification ≢ commuting
unfolding classify_same_type classified single_valued
same_type-ne-commuting g none y h = cc
same_type-ne-commuting g (some (n, v)) none h = cc
same_type-ne-commuting g (some (n, v)) (some (m, w)) h = elim (Bool-cases (v == w)) [
  | inl e ↦ ground arith
  | inr e ↦ ground arith
]

commuting_differ :
    (g : IdentityGroup) (a b : Operation)
    → (classify_single_pair g a b).classification ≡ commuting
    → (type_name a == type_name b) ≡ false
unfolding classify_single_pair classified single_valued
commuting_differ g a b h = elim (Bool-cases (type_name a == type_name b)) [
  | inr e ↦ e
  | inl e ↦
      let same = same_type-ne-commuting g (mutation_field a) (mutation_field b) in ground arith
]

-- Assignments to different fields of a column may be swapped.
swap_fields :
    (a b : Operation) (c d : Uuid) (f g : Column → Column)
    → column_edit a ≡ some (c, f)
    → column_edit b ≡ some (d, g)
    → (type_name a == type_name b) ≡ false
    → (x : Column) → g (f x) ≡ f (g x)
unfolding type_name
swap_fields (rename_column _ _ _) (rename_column _ _ _) c d f g p q h x = cc
swap_fields (rename_column _ _ _) (alter_column_type _ _ _) c d f g p q h x = ground arith
swap_fields (rename_column _ _ _) (alter_column_nullability _ _) c d f g p q h x = ground arith
swap_fields (rename_column _ _ _) (alter_column_default _ _ _) c d f g p q h x = ground arith
swap_fields (rename_column _ _ _) _ c d f g p q h x = cc
swap_fields (alter_column_type _ _ _) (rename_column _ _ _) c d f g p q h x = ground arith
swap_fields (alter_column_type _ _ _) (alter_column_type _ _ _) c d f g p q h x = cc
swap_fields (alter_column_type _ _ _) (alter_column_nullability _ _) c d f g p q h x = ground arith
swap_fields (alter_column_type _ _ _) (alter_column_default _ _ _) c d f g p q h x = ground arith
swap_fields (alter_column_type _ _ _) _ c d f g p q h x = cc
swap_fields (alter_column_nullability _ _) (rename_column _ _ _) c d f g p q h x = ground arith
swap_fields (alter_column_nullability _ _) (alter_column_type _ _ _) c d f g p q h x = ground arith
swap_fields (alter_column_nullability _ _) (alter_column_nullability _ _) c d f g p q h x = cc
swap_fields (alter_column_nullability _ _) (alter_column_default _ _ _) c d f g p q h x =
    ground arith
swap_fields (alter_column_nullability _ _) _ c d f g p q h x = cc
swap_fields (alter_column_default _ _ _) (rename_column _ _ _) c d f g p q h x = ground arith
swap_fields (alter_column_default _ _ _) (alter_column_type _ _ _) c d f g p q h x = ground arith
swap_fields (alter_column_default _ _ _) (alter_column_nullability _ _) c d f g p q h x =
    ground arith
swap_fields (alter_column_default _ _ _) (alter_column_default _ _ _) c d f g p q h x = cc
swap_fields (alter_column_default _ _ _) _ c d f g p q h x = cc
swap_fields _ _ c d f g p q h x = cc

-- A mutation is a column edit or the renaming of an index.
mutation_cases :
    (op : Operation)
    → IsMutation op
    → ((c : Uuid) × (f : Column → Column) × (column_edit op ≡ some (c, f)))
      ⊎ ((i : Uuid) × (old : String) × (new : String) × (op ≡ rename_index i old new))
mutation_cases (rename_column c _ _) m = inl (c, _, refl)
mutation_cases (alter_column_type c _ _) m = inl (c, _, refl)
mutation_cases (alter_column_nullability c _) m = inl (c, _, refl)
mutation_cases (alter_column_default c _ _) m = inl (c, _, refl)
mutation_cases (rename_index i old new) m = inr (i, old, new, refl)
mutation_cases _ m = absurd m

both_renames :
    (a b : Operation) (i j : Uuid) (old new old' new' : String)
    → a ≡ rename_index i old new
    → b ≡ rename_index j old' new'
    → ¬ ((type_name a == type_name b) ≡ false)
unfolding type_name
both_renames a b i j old new old' new' p q h =
    let h' : (type_name a == type_name (rename_index j old' new')) ≡ false =
      subst (λ x. (type_name a == type_name x) ≡ false) q h in
    cc (subst (λ x. (type_name x == type_name (rename_index j old' new')) ≡ false) p h')

-- Where two mutations of one object are classified as commuting, replaying them in either order
-- gives the same tables, or the same error.
pub commuting_sound :
    (st : Tables) (g : IdentityGroup) (a b : Operation)
    → IsMutation a
    → IsMutation b
    → (classify_single_pair g a b).classification ≡ commuting
    → apply_both st a b ≡ apply_both st b a
commuting_sound st g a b ma mb h =
    let differ = commuting_differ g a b h in
    elim (mutation_cases a ma) [
      | inl (c, f, p) ↦ elim (mutation_cases b mb) [
        | inl (d, k, q) ↦
            apply_swap_columns st a b c d f k p q (λ _ x. swap_fields a b c d f k p q differ x)
        | inr (i, old, new, q) ↦
            subst (λ x. apply_both st a x ≡ apply_both st x a) (sym q)
              (apply_swap_index st a c i f old new p)
      ]
      | inr (i, old, new, p) ↦ elim (mutation_cases b mb) [
        | inl (d, k, q) ↦
            subst (λ x. apply_both st x b ≡ apply_both st b x) (sym p)
              (sym (apply_swap_index st b d i k old new q))
        | inr (j, old', new', q) ↦ absurd (both_renames a b i j old new old' new' p q differ)
      ]
    ]

-- DropTable of one table on both branches is classified as identical, so neither drop is undone;
-- but replaying both raises KeyError, in every state.
pub both_drop_table :
    (st : Tables) (g : IdentityGroup) (t : Uuid)
    → ((classify_single_pair g (drop_table t) (drop_table t)).classification ≡ identical)
      × (apply_both st (drop_table t) (drop_table t) ≡ err key_error)
unfolding classify_single_pair classified apply_operation
both_drop_table st g t = (
  rw (beq_refl (drop_table t), classify_single_pair),
  elim (Bool-cases (has st t)) [
    | inl there ↦ rw (there, apply_operation) (rw (gone, apply_operation) refl)
    | inr absent ↦ rw (absent, apply_operation) refl
  ],
)
  where
    gone : has (remove st t) t ≡ false
    gone = ground (arith, has-remove st t t, nat_beq_iff t t)

mutation-IsRepeatable : (op : Operation) → IsMutation op → IsRepeatable op
mutation-IsRepeatable (rename_column _ _ _) m = tt
mutation-IsRepeatable (alter_column_type _ _ _) m = tt
mutation-IsRepeatable (alter_column_nullability _ _) m = tt
mutation-IsRepeatable (alter_column_default _ _ _) m = tt
mutation-IsRepeatable (rename_index _ _ _) m = tt
mutation-IsRepeatable _ m = absurd m

mutation-not-destructive : (op : Operation) → IsMutation op → is_destructive op ≡ false
unfolding is_destructive type_name
mutation-not-destructive (rename_column _ _ _) m = refl
mutation-not-destructive (alter_column_type _ _ _) m = refl
mutation-not-destructive (alter_column_nullability _ _) m = refl
mutation-not-destructive (alter_column_default _ _ _) m = refl
mutation-not-destructive (rename_index _ _ _) m = refl
mutation-not-destructive _ m = absurd m

-- Equal look-ups in the field table.
SameField : Option (String × FieldValue) → Option (String × FieldValue) → Type 0
SameField x y =
    (f : String × FieldValue) × (g : String × FieldValue) × (x ≡ some f)
    × (y ≡ some g)
    × (f.1 ≡ g.1)

identical_field :
    (g : IdentityGroup) (x y : Option (String × FieldValue))
    → (classify_same_type g x y).classification ≡ identical
    → SameField x y
unfolding classify_same_type classified single_valued SameField
identical_field g none y h = cc
identical_field g (some (n, v)) none h = cc
identical_field g (some (n, v)) (some (m, w)) h = elim (Bool-cases (v == w)) [
  | inl e ↦ ((n, v), (m, w), refl, refl, (field_value_eq.beq_iff v w).0 e)
  | inr e ↦ ground arith
]

same_effect :
    (a b : Operation)
    → (type_name a == type_name b) ≡ true
    → target_id a ≡ target_id b
    → SameField (mutation_field a) (mutation_field b)
    → (st : Tables) → apply_operation st b ≡ apply_operation st a
unfolding type_name target_id mutation_field SameField apply_operation
same_effect (rename_column _ _ _) (rename_column _ _ _) h t s st = ground arith
same_effect (rename_column _ _ _) _ h t s st = cc
same_effect (alter_column_type _ _ _) (alter_column_type _ _ _) h t s st = ground arith
same_effect (alter_column_type _ _ _) _ h t s st = cc
same_effect (alter_column_nullability _ _) (alter_column_nullability _ _) h t s st = ground arith
same_effect (alter_column_nullability _ _) _ h t s st = cc
same_effect (alter_column_default _ _ _) (alter_column_default _ _ _) h t s st = ground arith
same_effect (alter_column_default _ _ _) _ h t s st = cc
same_effect _ _ h t (f, g, p, q, r) st = cc

identical_cases :
    (g : IdentityGroup) (a b : Operation)
    → is_destructive a ≡ false
    → is_destructive b ≡ false
    → (classify_single_pair g a b).classification ≡ identical
    → (a ≡ b)
      ⊎ ((type_name a == type_name b) ≡ true) × SameField (mutation_field a) (mutation_field b)
unfolding classify_single_pair classified
identical_cases g a b da db h = elim (Bool-cases (a == b)) [
  | inl e ↦ inl ((operation_eq.beq_iff a b).0 e)
  | inr e ↦ elim (Bool-cases (type_name a == type_name b)) [
    | inl k ↦ inr (k, identical_field g (mutation_field a) (mutation_field b) (ground arith))
    | inr k ↦ ground arith
  ]
]

-- Where two mutations of one object are classified as identical, replaying both leaves what
-- replaying the first leaves.
pub identical_sound :
    (st : Tables) (g : IdentityGroup) (a b : Operation)
    → IsMutation a
    → IsMutation b
    → target_id a ≡ target_id b
    → (classify_single_pair g a b).classification ≡ identical
    → apply_both st a b ≡ apply_operation st a
identical_sound st g a b ma mb t h =
    let twice = apply_twice st a (mutation-IsRepeatable a ma) in
    elim (identical_cases g a b (mutation-not-destructive a ma) (mutation-not-destructive b mb) h) [
      | inl e ↦ subst (λ x. apply_both st a x ≡ apply_operation st a) e twice
      | inr (k, s) ↦
          let effect = fun_ext (same_effect a b k t s) in
          ap (λ (go : Tables → Result Tables). apply_operation st a >>= go) effect ∙ twice
    ]
