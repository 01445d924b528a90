-- ===== src/Dag/Apply/Invariant.antt =====
-- The shape of the rebuilt tables: each stands under its own id, and no column id is used twice.
use db_version_control.Prelude.{
  ℕ, String, ◌+◌, ◌≤◌, Bool, false, some, List, [], ◌∷◌, ◌++◌, ◌==◌, nat_eq, nat_beq_iff, ◌≡◌, refl,
  ◌∙◌, inl, inr, arith, if◌then◌else◌, Bool-cases, Option-cases, Distinct, keep, not,
}
use db_version_control.Prelude.Dict.{has, get, put, remove, keys, Distinct-put, Distinct-remove}
use db_version_control.Prelude.Errors.{ok, OnOk, of_OnOk}
use db_version_control.Model.Schema.{Uuid, Column, Table}
use db_version_control.Model.Operations.{
  Operation, create_table, drop_table, add_column, drop_column, rename_column, alter_column_type,
  alter_column_nullability, alter_column_default, add_index, drop_index, rename_index,
  add_constraint, drop_constraint,
}
use db_version_control.Dag.Apply.{
  Tables, edit_columns, edit_owner, edit_column, edit_table, every_table, rename_index_in,
  without_column, without_index, without_constraint, apply_operation,
}
use db_version_control.Dag.Apply.Lookup.{KeepsId, edit_column_lem}

abbrev pub IsKeyed : Tables → Type 0
IsKeyed [] = Unit
IsKeyed ((k, t) ∷ st) = (t.id ≡ k) × IsKeyed st

-- How many columns have an id: in one table, and in all.
abbrev pub count_in : List Column → Uuid → ℕ
count_in [] d = 0
count_in (c ∷ cs) d = (if c.id == d then 1 else 0) + count_in cs d

abbrev pub count : Tables → Uuid → ℕ
count [] d = 0
count ((k, t) ∷ st) d = count_in t.columns d + count st d

pub record IsWellFormed (st : Tables) : Type 0 where
  pub keyed : IsKeyed st
  pub distinct : Distinct (keys st)
  pub unique : (d : Uuid) → count st d ≤ 1

-- Ids are minted once: a created table or column uses ids that are not there yet.
abbrev pub IsFresh : Tables → Operation → Type 0
IsFresh st (create_table t) =
    (has st t.id ≡ false) × ((d : Uuid) → count_in t.columns d + count st d ≤ 1)
IsFresh st (add_column tid c) = count st c.id ≡ 0
IsFresh st _ = Unit

IsKeyed-put : (st : Tables) (k : Uuid) (t : Table) → IsKeyed st → t.id ≡ k → IsKeyed (put st k t)
unfolding put
IsKeyed-put [] k t h p = (p, tt)
IsKeyed-put ((j, u) ∷ st) k t h p = elim (Bool-cases (k == j)) [
  | inl q ↦ rw q (p ∙ (nat_beq_iff k j).0 q, h.1)
  | inr q ↦ rw q (h.0, IsKeyed-put st k t h.1 p)
]

IsKeyed-remove : (st : Tables) (k : Uuid) → IsKeyed st → IsKeyed (remove st k)
unfolding remove
IsKeyed-remove [] k h = tt
IsKeyed-remove ((j, u) ∷ st) k h = elim (Bool-cases (k == j)) [
  | inl q ↦ rw q (IsKeyed-remove st k h.1)
  | inr q ↦ rw q (h.0, IsKeyed-remove st k h.1)
]

id_of_get : (st : Tables) (k : Uuid) (t : Table) → IsKeyed st → get st k ≡ some t → t.id ≡ k
unfolding get
id_of_get [] k t h p = cc
id_of_get ((j, u) ∷ st) k t h p = ground (arith, id_of_get st k t h.1)

count-remove-le : (st : Tables) (k d : Uuid) → count (remove st k) d ≤ count st d
unfolding remove
count-remove-le [] k d = omega arith
count-remove-le ((j, u) ∷ st) k d = ground (arith, count-remove-le st k d)

count-put :
    (st : Tables) (k : Uuid) (t u : Table) (d : Uuid)
    → get st k ≡ some t
    → count (put st k u) d + count_in t.columns d ≡ count st d + count_in u.columns d
unfolding get put
count-put [] k t u d p = cc
count-put ((j, w) ∷ st) k t u d p = ground (arith, count-put st k t u d)

count-put_fresh :
    (st : Tables) (k : Uuid) (u : Table) (d : Uuid)
    → has st k ≡ false
    → count (put st k u) d ≡ count_in u.columns d + count st d
unfolding put
count-put_fresh [] k u d p = omega arith
count-put_fresh ((j, w) ∷ st) k u d p = ground (arith, count-put_fresh st k u d)

count_in-append :
    (xs ys : List Column) (d : Uuid) → count_in (xs ++ ys) d ≡ count_in xs d + count_in ys d
count_in-append [] ys d = omega arith
count_in-append (x ∷ xs) ys d = omega (arith, count_in-append xs ys d)

count_in-keep :
    (p : Column → Bool) (cs : List Column) (d : Uuid) → count_in (keep p cs) d ≤ count_in cs d
unfolding keep
count_in-keep p [] d = omega arith
count_in-keep p (c ∷ cs) d = ground (arith, count_in-keep p cs d)

count_in-edit :
    (f : Column → Column) (kept : KeepsId f) (cs : List Column) (cid d : Uuid)
    → count_in (edit_columns cs cid f) d ≡ count_in cs d
unfolding edit_columns
count_in-edit f kept [] cid d = refl
count_in-edit f kept (c ∷ cs) cid d = ground (arith, count_in-edit f kept cs cid d, kept c)

-- An edit that keeps the keys, the table ids, and adds no column id.
abbrev Tame : Tables → Tables → Type 0
Tame st st' =
    (keys st' ≡ keys st) × (IsKeyed st → IsKeyed st') × ((d : Uuid) → count st' d ≤ count st d)

Tame-edit_owner :
    (f : Column → Column) → KeepsId f → (st : Tables) (cid : Uuid) → Tame st (edit_owner st cid f)
unfolding edit_owner
Tame-edit_owner f kept [] cid = (refl, λ h. h, λ d. omega arith)
Tame-edit_owner f kept ((k, t) ∷ st) cid =
    let (a, b, c) = Tame-edit_owner f kept st cid in
    (
      ground arith,
      λ h. ground (arith, b h.1),
      λ d. ground (arith, c d, count_in-edit f kept t.columns cid d),
    )

Tame-rename_index : (st : Tables) (i : Uuid) (n : String) → Tame st (rename_index_in st i n)
unfolding rename_index_in
Tame-rename_index [] i n = (refl, λ h. h, λ d. omega arith)
Tame-rename_index ((k, t) ∷ st) i n =
    let (a, b, c) = Tame-rename_index st i n in
    (ground arith, λ h. ground (arith, b h.1), λ d. ground (arith, c d))

Tame-every :
    (f : Table → Table)
    → ((t : Table) → ((f t).id ≡ t.id) × ((f t).columns ≡ t.columns))
    → (st : Tables) → Tame st (every_table f st)
unfolding every_table
Tame-every f kept [] = (refl, λ h. h, λ d. omega arith)
Tame-every f kept ((k, t) ∷ st) =
    let (a, b, c) = Tame-every f kept st in
    (ground arith, λ h. ground (arith, b h.1, kept t), λ d. ground (arith, c d, kept t))

Tame-IsWellFormed : {st st' : Tables} → Tame st st' → IsWellFormed st → IsWellFormed st'
Tame-IsWellFormed t w = record {
  keyed = t.1 w.keyed;
  distinct = rw t.0 w.distinct;
  unique = λ d. omega (arith, t.2 d, w.unique d);
}

module _ (f : Table → Table) (same_id : (t : Table) → (f t).id ≡ t.id) (st : Tables) (k : Uuid)
    (w : IsWellFormed st) where
  edit_table-IsWellFormed :
      ((d : Uuid) (t : Table)
        → get st k ≡ some t
        → count_in (f t).columns d + count st d ≤ count_in t.columns d + 1)
      → IsWellFormed (edit_table st k f)
  unfolding edit_table
  edit_table-IsWellFormed room = elim (Option-cases (get st k)) [
    | inl q ↦ rw (q, edit_table) w
    | inr (t, q) ↦
        rw (q, edit_table)
          (record {
            keyed = IsKeyed-put st k (f t) w.keyed (same_id t ∙ id_of_get st k t w.keyed q);
            distinct = Distinct-put st k (f t) w.distinct;
            unique = λ d. omega (arith, count-put st k t (f t) d q, room d t q);
          })
  ]

edit_column-IsWellFormed :
    (f : Column → Column) (st : Tables) (cid : Uuid)
    → KeepsId f
    → IsWellFormed st
    → IsWellFormed (edit_column st cid f)
edit_column-IsWellFormed f st cid kept w =
    rw edit_column_lem (Tame-IsWellFormed (Tame-edit_owner f kept st cid) w)

add_column_room :
    (st : Tables) (k d : Uuid) (c : Column) (t : Table)
    → IsWellFormed st
    → count st c.id ≡ 0
    → count_in (t.columns ++ c ∷ []) d + count st d ≤ count_in t.columns d + 1
add_column_room st k d c t w new =
    ground (arith, count_in-append t.columns (c ∷ []) d, w.unique d, nat_beq_iff c.id d)

step-IsWellFormed :
    (st : Tables) (op : Operation)
    → IsWellFormed st
    → IsFresh st op
    → OnOk IsWellFormed (apply_operation st op)
unfolding apply_operation without_column without_index without_constraint
step-IsWellFormed st (create_table t) w (absent, room) = record {
  keyed = IsKeyed-put st t.id t w.keyed refl;
  distinct = Distinct-put st t.id t w.distinct;
  unique = λ d. omega (arith, count-put_fresh st t.id t d absent, room d);
}
step-IsWellFormed st (drop_table k) w new = elim (Bool-cases (has st k)) [
  | inl q ↦ rw q (record {
    keyed = IsKeyed-remove st k w.keyed;
    distinct = Distinct-remove st k w.distinct;
    unique = λ d. omega (arith, count-remove-le st k d, w.unique d);
  })
  | inr q ↦ rw q tt
]
step-IsWellFormed st (add_column k c) w new =
    edit_table-IsWellFormed _ (λ t. refl) st k w (λ d t _. add_column_room st k d c t w new)
step-IsWellFormed st (drop_column k cid) w new =
    edit_table-IsWellFormed _ (λ t. refl) st k w
      (λ d t _. omega (arith, count_in-keep (λ c. not (c.id == cid)) t.columns d, w.unique d))
step-IsWellFormed st (rename_column cid old name) w new =
    edit_column-IsWellFormed _ st cid (λ c. refl) w
step-IsWellFormed st (alter_column_type cid old type) w new =
    edit_column-IsWellFormed _ st cid (λ c. refl) w
step-IsWellFormed st (alter_column_nullability cid b) w new =
    edit_column-IsWellFormed _ st cid (λ c. refl) w
step-IsWellFormed st (alter_column_default cid old default) w new =
    edit_column-IsWellFormed _ st cid (λ c. refl) w
step-IsWellFormed st (add_index k i) w new =
    edit_table-IsWellFormed _ (λ t. refl) st k w (λ d t _. omega (arith, w.unique d))
step-IsWellFormed st (drop_index i) w new =
    Tame-IsWellFormed (Tame-every _ (λ t. (refl, refl)) st) w
step-IsWellFormed st (rename_index i old name) w new =
    Tame-IsWellFormed (Tame-rename_index st i name) w
step-IsWellFormed st (add_constraint k c) w new =
    edit_table-IsWellFormed _ (λ t. refl) st k w (λ d t _. omega (arith, w.unique d))
step-IsWellFormed st (drop_constraint c) w new =
    Tame-IsWellFormed (Tame-every _ (λ t. (refl, refl)) st) w

-- Every operation keeps the tables well formed: each table stands under its own id, no two entries
-- share a key, and no column id occurs twice, provided that a created table or column brings new
-- ids.
pub apply-IsWellFormed :
    (st : Tables) (op : Operation) (st' : Tables)
    → IsWellFormed st
    → IsFresh st op
    → apply_operation st op ≡ ok st'
    → IsWellFormed st'
apply-IsWellFormed st op st' w new h =
    of_OnOk IsWellFormed (apply_operation st op) (step-IsWellFormed st op w new) h
