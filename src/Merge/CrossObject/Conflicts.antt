-- ===== src/Merge/CrossObject/Conflicts.antt =====
-- Which cross-object conflicts are found.
use db_version_control.Prelude.{
  Bool, true, false, ◌&&◌, ◌||◌, Option, none, some, List, [], ◌∷◌, ◌++◌, map, ◌==◌, nat_eq,
  nat_beq_iff, ◌≡◌, refl, ap, ◌∙◌, inl, inr, arith, Bool-cases, contains, contains-keep, keep,
  any_of, concat_map,
}
use db_version_control.Model.Schema.{Uuid}
use db_version_control.Model.Operations.{
  Operation, drop_table, add_column, drop_column, add_index, add_constraint, operation_eq,
  CompoundOperation,
}
use db_version_control.Merge.Grouping.{flatten}
use db_version_control.Merge.CrossObject.{
  Texts, Destroyed, add, set_of, with_reference, destroy, destroy_all, destroyed_by,
  referenced_tables, referenced_columns, Kind, table, column, Conflict, conflicts_of,
  find_conflicts,
}

abbrev same_kind : Kind → Kind → Bool
same_kind table table = true
same_kind column column = true
same_kind table column = false
same_kind column table = false

-- The conflict is about the operation `op` and the destroyed identity `i`.
abbrev pub reports : Kind → Operation → Uuid → Conflict → Bool
reports k op i c = same_kind k c.kind && (op == c.op && i == c.destroyed_id)

any_of-append :
    {A : Type 0} (p : A → Bool) (xs ys : List A) → any_of p (xs ++ ys) ≡ any_of p xs || any_of p ys
unfolding any_of
any_of-append p [] ys = refl
any_of-append p (x ∷ xs) ys = ground (arith, any_of-append p xs ys)

abbrev conflict_on : Operation → Kind → Uuid → Conflict
conflict_on op k i = record { op = op; destroyed_id = i; kind = k }

any_of-reports :
    (k l : Kind) (op op' : Operation) (i : Uuid) (ids : List Uuid)
    → any_of (reports k op i) (map (conflict_on op' l) ids)
      ≡ same_kind k l && (op == op' && contains ids i)
unfolding any_of
any_of-reports k l op op' i [] = ground arith
any_of-reports k l op op' i (j ∷ ids) = ground (arith, any_of-reports k l op op' i ids)

-- The identities of one kind that an operation refers to, and those that a branch destroyed.
abbrev pub referenced : Kind → Operation → List Uuid
referenced table op = referenced_tables op
referenced column op = referenced_columns op

abbrev pub gone : Kind → Destroyed → List Uuid
gone table d = d.tables
gone column d = d.columns

-- The members of the set that is iterated over, whatever the order.
abbrev pub KeepsMembers : Texts → Type 0
KeepsMembers texts = (s : List Uuid) (i : Uuid) → contains (texts.uuid_order s) i ≡ contains s i

-- The operation adds something in the table `i` or a foreign key to it, or an index or a constraint
-- over the column `i`.
abbrev pub refers : Kind → Uuid → Operation → Bool
refers table i (add_column table_id _) = i == table_id
refers table i (add_index table_id _) = i == table_id
refers table i (add_constraint table_id constraint) =
    i == table_id || elim constraint.references [ none ↦ false | some target ↦ i == target ]
refers column i (add_index _ index) = contains index.columns i
refers column i (add_constraint _ constraint) = contains constraint.columns i
refers _ _ _ = false

contains-add : (x : Uuid) (s : List Uuid) (a : Uuid) → contains (add x s) a ≡ a == x || contains s a
unfolding add
contains-add x s a = elim (Bool-cases (contains s x)) [
  | inl q ↦
      rw (q, add)
        (elim (Bool-cases (a == x)) [
          | inl e ↦ rw ((nat_beq_iff a x).0 e, q) (ground arith)
          | inr e ↦ ground arith
        ])
  | inr q ↦ rw (q, add) refl
]

contains-set_of : (xs : List Uuid) (a : Uuid) → contains (set_of xs) a ≡ contains xs a
unfolding set_of
contains-set_of [] a = refl
contains-set_of (x ∷ xs) a = ground (arith, contains-add x (set_of xs) a, contains-set_of xs a)

contains-with_reference :
    (t : Uuid) (references : Option Uuid) (i : Uuid)
    → contains (with_reference t references) i
      ≡ i == t || elim references [ none ↦ false | some target ↦ i == target ]
unfolding with_reference
contains-with_reference t none i = ground arith
contains-with_reference t (some target) i = ground (arith, contains-add target (t ∷ []) i)

referenced-refers :
    (k : Kind) (op : Operation) (i : Uuid) → contains (referenced k op) i ≡ refers k i op
unfolding referenced_tables referenced_columns
referenced-refers table (add_column t _) i = ground arith
referenced-refers table (add_index t _) i = ground arith
referenced-refers table (add_constraint t c) i = contains-with_reference t c.references i
referenced-refers column (add_index _ index) i = contains-set_of index.columns i
referenced-refers column (add_constraint _ c) i = contains-set_of c.columns i
referenced-refers table _ i = refl
referenced-refers column _ i = refl

module _ (texts : Texts) (members : KeepsMembers texts) (d : Destroyed) where
  kept :
      (s ids : List Uuid) (i : Uuid)
      → contains (texts.uuid_order (keep (contains s) ids)) i ≡ contains ids i && contains s i
  kept s ids i = ground (arith, members (keep (contains s) ids) i, contains-keep (contains s) ids i)

  -- The identities that are found for one operation, in the order that the set has.
  abbrev found : Kind → Operation → List Uuid
  found k op = texts.uuid_order (keep (contains (gone k d)) (referenced k op))

  reports-conflicts_of :
      (k : Kind) (op op' : Operation) (i : Uuid)
      → any_of (reports k op i) (conflicts_of texts d op')
        ≡ op == op' && (refers k i op' && contains (gone k d) i)
  unfolding conflicts_of
  reports-conflicts_of table op op' i = ground (
    arith,
    any_of-append (reports table op i) (map (conflict_on op' table) (found table op'))
        (map (conflict_on op' column) (found column op')),
    any_of-reports table table op op' i (found table op'),
    any_of-reports table column op op' i (found column op'),
    kept d.tables (referenced_tables op') i,
    referenced-refers table op' i,
  )
  reports-conflicts_of column op op' i = ground (
    arith,
    any_of-append (reports column op i) (map (conflict_on op' table) (found table op'))
        (map (conflict_on op' column) (found column op')),
    any_of-reports column table op op' i (found table op'),
    any_of-reports column column op op' i (found column op'),
    kept d.columns (referenced_columns op') i,
    referenced-refers column op' i,
  )

  reports-all :
      (k : Kind) (op : Operation) (i : Uuid) (ops : List Operation)
      → any_of (reports k op i) (concat_map (conflicts_of texts d) ops)
        ≡ contains ops op && (refers k i op && contains (gone k d) i)
  unfolding any_of
  reports-all k op i [] = refl
  reports-all k op i (op' ∷ ops) =
      any_of-append (reports k op i) (conflicts_of texts d op')
        (concat_map (conflicts_of texts d) ops)
      ∙ elim (Bool-cases (op == op')) [
        | inl q ↦
            let e : op ≡ op' = (operation_eq.beq_iff op op').0 q in
            ground
              (arith, reports-conflicts_of k op op' i, reports-all k op i ops, ap (refers k i) e)
        | inr q ↦ ground (arith, reports-conflicts_of k op op' i, reports-all k op i ops)
      ]

-- The operation drops the table, or the column, `i`.
abbrev pub destroys : Kind → Uuid → Operation → Bool
destroys table i (drop_table j) = i == j
destroys column i (drop_column _ j) = i == j
destroys _ _ _ = false

gone-destroy :
    (k : Kind) (i : Uuid) (d : Destroyed) (op : Operation)
    → contains (gone k (destroy d op)) i ≡ contains (gone k d) i || destroys k i op
unfolding destroy
gone-destroy table i d (drop_table j) = ground (arith, contains-add j d.tables i)
gone-destroy column i d (drop_column _ j) = ground (arith, contains-add j d.columns i)
gone-destroy table i d _ = ground arith
gone-destroy column i d _ = ground arith

gone-destroy_all :
    (k : Kind) (i : Uuid) (d : Destroyed) (ops : List Operation)
    → contains (gone k (destroy_all d ops)) i ≡ contains (gone k d) i || any_of (destroys k i) ops
unfolding destroy_all any_of
gone-destroy_all k i d [] = ground arith
gone-destroy_all k i d (op ∷ ops) =
    ground (arith, gone-destroy_all k i (destroy d op) ops, gone-destroy k i d op)

gone-destroyed_by :
    (k : Kind) (i : Uuid) (cs : List CompoundOperation)
    → contains (gone k (destroyed_by cs)) i ≡ any_of (destroys k i) (flatten cs)
unfolding destroyed_by
gone-destroyed_by table i cs =
    gone-destroy_all table i (record { tables = []; columns = [] }) (flatten cs)
gone-destroyed_by column i cs =
    gone-destroy_all column i (record { tables = []; columns = [] }) (flatten cs)

-- Whatever the order in which Python iterates over a set, a conflict over a table or a column is found
-- for an operation of the one branch exactly if the operation is one of that branch's, refers to the
-- identity (adds a column, an index or a constraint in that table, a foreign key to it, or an index
-- or a constraint over that column), and the other branch has an operation that drops it.
pub find_conflicts_exact :
    (texts : Texts)
    → KeepsMembers texts
    → (adding dropping : List CompoundOperation) (k : Kind) (op : Operation) (i : Uuid)
    → any_of (reports k op i) (find_conflicts texts adding (destroyed_by dropping))
      ≡ contains (flatten adding) op && (refers k i op && any_of (destroys k i) (flatten dropping))
unfolding find_conflicts
find_conflicts_exact texts members adding dropping k op i =
    reports-all texts members (destroyed_by dropping) k op i (flatten adding)
    ∙ ap (λ b. contains (flatten adding) op && (refers k i op && b))
        (gone-destroyed_by k i dropping)
