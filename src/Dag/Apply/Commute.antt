-- ===== src/Dag/Apply/Commute.antt =====
-- Repeating a mutation changes nothing, and mutations of different fields may be swapped.
use db_version_control.Prelude.{
  String, Bool, false, some, List, [], ◌∷◌, ◌==◌, nat_eq, nat_beq_iff, ◌≡◌, refl, sym, ◌∙◌, inl,
  inr, arith, Bool-cases, Option-cases, keep, ap, fun_ext, subst,
}
use db_version_control.Prelude.Dict.{put_twice, get, get-put}
use db_version_control.Prelude.Errors.{Result, ok, ◌>>=◌}
use db_version_control.Model.Schema.{Uuid, Column, Index, Table}
use db_version_control.Model.Operations.{
  Operation, create_table, drop_table, add_column, drop_column, rename_column, alter_column_type,
  alter_column_nullability, alter_column_default, add_index, drop_index, rename_index,
  add_constraint, drop_constraint,
}
use db_version_control.Dag.Apply.{
  Tables, edit_columns, edit_owner, edit_column, edit_table, every_table, has_index, rename_in,
  rename_index_in, without_column, without_index, without_constraint, apply_operation,
}
use db_version_control.Dag.Apply.Lookup.{KeepsId, edit_column_lem, has-edit_columns}
use db_version_control.Dag.Apply.Effects.{column_edit, column_edit-KeepsId, apply-column_edit}

-- Two edits of one column are one edit.
edit_columns_fuse :
    (cid : Uuid) (f g : Column → Column) (cs : List Column)
    → KeepsId f
    → edit_columns (edit_columns cs cid f) cid g ≡ edit_columns cs cid (λ c. g (f c))
unfolding edit_columns
edit_columns_fuse cid f g [] kf = refl
edit_columns_fuse cid f g (c ∷ cs) kf = ground (arith, edit_columns_fuse cid f g cs kf, kf c)

edit_owner_fuse :
    (cid : Uuid) (f g : Column → Column) (st : Tables)
    → KeepsId f
    → edit_owner (edit_owner st cid f) cid g ≡ edit_owner st cid (λ c. g (f c))
unfolding edit_owner
edit_owner_fuse cid f g [] kf = refl
edit_owner_fuse cid f g ((k, t) ∷ st) kf = ground (
  arith,
  edit_owner_fuse cid f g st kf,
  has-edit_columns cid f kf t.columns cid,
  edit_columns_fuse cid f g t.columns kf,
)

-- Edits of different columns may be swapped.
edit_columns_swap :
    (a b : Uuid) (f g : Column → Column) (cs : List Column)
    → (a == b) ≡ false
    → KeepsId f
    → KeepsId g
    → edit_columns (edit_columns cs a f) b g ≡ edit_columns (edit_columns cs b g) a f
unfolding edit_columns
edit_columns_swap a b f g [] ne kf kg = refl
edit_columns_swap a b f g (c ∷ cs) ne kf kg =
    ground (arith, edit_columns_swap a b f g cs ne kf kg, kf c, kg c)

edit_owner_swap :
    (a b : Uuid) (f g : Column → Column) (st : Tables)
    → (a == b) ≡ false
    → KeepsId f
    → KeepsId g
    → edit_owner (edit_owner st a f) b g ≡ edit_owner (edit_owner st b g) a f
unfolding edit_owner
edit_owner_swap a b f g [] ne kf kg = refl
edit_owner_swap a b f g ((k, t) ∷ st) ne kf kg = ground (
  arith,
  edit_owner_swap a b f g st ne kf kg,
  has-edit_columns a f kf t.columns b,
  has-edit_columns b g kg t.columns a,
  edit_columns_swap a b f g t.columns ne kf kg,
)

has_index-rename_in :
    (is : List Index) (i : Uuid) (n : String) → has_index (rename_in is i n) i ≡ has_index is i
unfolding has_index rename_in
has_index-rename_in [] i n = refl
has_index-rename_in (x ∷ is) i n = ground (arith, has_index-rename_in is i n)

rename_in_twice :
    (is : List Index) (i : Uuid) (n : String) → rename_in (rename_in is i n) i n ≡ rename_in is i n
unfolding rename_in
rename_in_twice [] i n = refl
rename_in_twice (x ∷ is) i n = ground (arith, rename_in_twice is i n)

rename_index_twice :
    (st : Tables) (i : Uuid) (n : String)
    → rename_index_in (rename_index_in st i n) i n ≡ rename_index_in st i n
unfolding rename_index_in
rename_index_twice [] i n = refl
rename_index_twice ((k, t) ∷ st) i n = ground (
  arith,
  rename_index_twice st i n,
  has_index-rename_in t.indexes i n,
  rename_in_twice t.indexes i n,
)

-- A column is not part of an index: the two kinds of edit may be swapped.
pub edit_owner-rename_index :
    (c : Uuid) (f : Column → Column) (i : Uuid) (n : String) (st : Tables)
    → edit_owner (rename_index_in st i n) c f ≡ rename_index_in (edit_owner st c f) i n
unfolding edit_owner rename_index_in
edit_owner-rename_index c f i n [] = refl
edit_owner-rename_index c f i n ((k, t) ∷ st) = ground (arith, edit_owner-rename_index c f i n st)

keep_twice {ℓ} : {A : Type ℓ} (p : A → Bool) (xs : List A) → keep p (keep p xs) ≡ keep p xs
unfolding keep
keep_twice p [] = refl
keep_twice p (x ∷ xs) = ground (arith, keep_twice p xs)

every_table_twice :
    (f : Table → Table) (st : Tables)
    → ((t : Table) → f (f t) ≡ f t)
    → every_table f (every_table f st) ≡ every_table f st
unfolding every_table
every_table_twice f [] h = refl
every_table_twice f ((k, t) ∷ st) h = ground (arith, every_table_twice f st h, h t)

edit_table_twice :
    (st : Tables) (k : Uuid) (f : Table → Table)
    → ((t : Table) → f (f t) ≡ f t)
    → edit_table (edit_table st k f) k f ≡ edit_table st k f
unfolding edit_table
edit_table_twice st k f h = elim (Option-cases (get st k)) [
  | inl q ↦ ground arith
  | inr (t, q) ↦
      ground (arith, get-put st k k (f t), nat_beq_iff k k, put_twice st k (f t) (f (f t)), h t)
]

-- The operations whose second application finds nothing left to do.
abbrev pub IsRepeatable : Operation → Type 0
IsRepeatable (drop_table _) = ⊥
IsRepeatable (add_column _ _) = ⊥
IsRepeatable (add_index _ _) = ⊥
IsRepeatable (add_constraint _ _) = ⊥
IsRepeatable _ = Unit

abbrev pub apply_both : Tables → Operation → Operation → Result Tables
apply_both st a b = apply_operation st a >>= λ st'. apply_operation st' b

edit_column_twice :
    (st : Tables) (c : Uuid) (f : Column → Column)
    → KeepsId f
    → ((x : Column) → f (f x) ≡ f x)
    → edit_column (edit_column st c f) c f ≡ edit_column st c f
edit_column_twice st c f kf h =
    simp edit_column_lem (edit_owner_fuse c f f st kf ∙ ap (edit_owner st c) (fun_ext h))

keep_idem_columns :
    (c : Uuid) (t : Table) → without_column c (without_column c t) ≡ without_column c t
unfolding without_column
keep_idem_columns c t = rw keep_twice

keep_idem_indexes : (i : Uuid) (t : Table) → without_index i (without_index i t) ≡ without_index i t
unfolding without_index
keep_idem_indexes i t = rw keep_twice

keep_idem_constraints :
    (c : Uuid) (t : Table) → without_constraint c (without_constraint c t) ≡ without_constraint c t
unfolding without_constraint
keep_idem_constraints c t = rw keep_twice

-- Applying twice in a row is applying once, for every operation but DropTable and the three
-- additions into a table.
pub apply_twice :
    (st : Tables) (op : Operation) → IsRepeatable op → apply_both st op op ≡ apply_operation st op
unfolding apply_operation
apply_twice st (create_table t) h = ap ok (put_twice st t.id t t)
apply_twice st (drop_table k) h = absurd h
apply_twice st (add_column k c) h = absurd h
apply_twice st (drop_column k c) h =
    ap ok (edit_table_twice st k (without_column c) (keep_idem_columns c))
apply_twice st (rename_column c old new) h =
    ap ok (edit_column_twice st c _ (λ x. refl) (λ x. refl))
apply_twice st (alter_column_type c old new) h =
    ap ok (edit_column_twice st c _ (λ x. refl) (λ x. refl))
apply_twice st (alter_column_nullability c b) h =
    ap ok (edit_column_twice st c _ (λ x. refl) (λ x. refl))
apply_twice st (alter_column_default c old new) h =
    ap ok (edit_column_twice st c _ (λ x. refl) (λ x. refl))
apply_twice st (add_index k i) h = absurd h
apply_twice st (drop_index i) h =
    ap ok (every_table_twice (without_index i) st (keep_idem_indexes i))
apply_twice st (rename_index i old new) h = ap ok (rename_index_twice st i new)
apply_twice st (add_constraint k c) h = absurd h
apply_twice st (drop_constraint c) h =
    ap ok (every_table_twice (without_constraint c) st (keep_idem_constraints c))

-- Two column mutations may be applied in either order if they are about different columns, or about
-- one column and their assignments may be made in either order.
pub apply_swap_columns :
    (st : Tables) (a b : Operation) (c d : Uuid) (f g : Column → Column)
    → column_edit a ≡ some (c, f)
    → column_edit b ≡ some (d, g)
    → (c ≡ d → (x : Column) → g (f x) ≡ f (g x))
    → apply_both st a b ≡ apply_both st b a
apply_swap_columns st a b c d f g ea eb agree =
    simp (apply-column_edit st a c f ea, apply-column_edit st b d g eb)
      (simp
        (
          apply-column_edit (edit_owner st c f) b d g eb,
          apply-column_edit (edit_owner st d g) a c f ea,
        )
        (ap ok swapped))
  where
    kf : KeepsId f
    kf = column_edit-KeepsId a c f ea

    kg : KeepsId g
    kg = column_edit-KeepsId b d g eb

    same : c ≡ d → edit_owner (edit_owner st c f) d g ≡ edit_owner (edit_owner st d g) c f
    same q =
        subst (λ e. edit_owner (edit_owner st c f) e g ≡ edit_owner (edit_owner st e g) c f) q
          (edit_owner_fuse c f g st kf
            ∙ ap (edit_owner st c) (fun_ext (agree q))
            ∙ sym (edit_owner_fuse c g f st kg))

    swapped : edit_owner (edit_owner st c f) d g ≡ edit_owner (edit_owner st d g) c f
    swapped = elim (Bool-cases (c == d)) [
      | inl q ↦ same ((nat_beq_iff c d).0 q)
      | inr q ↦ edit_owner_swap c d f g st q kf kg
    ]

-- A column mutation and an index rename may be swapped.
pub apply_swap_index :
    (st : Tables) (a : Operation) (c i : Uuid) (f : Column → Column) (old new : String)
    → column_edit a ≡ some (c, f)
    → apply_both st a (rename_index i old new) ≡ apply_both st (rename_index i old new) a
unfolding apply_operation
apply_swap_index st a c i f old new ea = rw (apply-column_edit st a c f ea) (
    rw (apply-column_edit (rename_index_in st i new) a c f ea)
      (ap ok (sym (edit_owner-rename_index c f i new st))))
