-- ===== src/Dag/Apply/Effects.antt =====
-- What `apply_operation` changes, what it leaves alone, and when it raises.
use db_version_control.Prelude.{
  false, Option, none, some, ◌==◌, nat_eq, ◌≡◌, ◌↔◌, arith, if◌then◌else◌,
}
use db_version_control.Prelude.Dict.{has}
use db_version_control.Prelude.Errors.{Error, ok, err, key_error}
use db_version_control.Model.Schema.{Uuid, Column}
use db_version_control.Model.Operations.{
  Operation, drop_table, rename_column, alter_column_type, alter_column_nullability,
  alter_column_default,
}
use db_version_control.Dag.Apply.{Tables, edit_owner, apply_operation}
use db_version_control.Dag.Apply.Lookup.{
  lookup_column, map_option, KeepsId, lookup-edit_owner, edit_column_lem,
}

-- The column that a column mutation is about, and the assignment that it makes.
abbrev pub column_edit : Operation → Option (Uuid × (Column → Column))
column_edit (rename_column cid old new) = some (cid, λ c. record c { name = new })
column_edit (alter_column_type cid old new) = some (cid, λ c. record c { type = new })
column_edit (alter_column_nullability cid b) = some (cid, λ c. record c { nullable = b })
column_edit (alter_column_default cid old new) = some (cid, λ c. record c { default = new })
column_edit _ = none

pub column_edit-KeepsId :
    (op : Operation) (cid : Uuid) (f : Column → Column) → column_edit op ≡ some (cid, f) → KeepsId f
column_edit-KeepsId (rename_column _ _ _) cid f h c = ground arith
column_edit-KeepsId (alter_column_type _ _ _) cid f h c = ground arith
column_edit-KeepsId (alter_column_nullability _ _) cid f h c = ground arith
column_edit-KeepsId (alter_column_default _ _ _) cid f h c = ground arith
column_edit-KeepsId _ cid f h c = cc

pub apply-column_edit :
    (st : Tables) (op : Operation) (cid : Uuid) (f : Column → Column)
    → column_edit op ≡ some (cid, f)
    → apply_operation st op ≡ ok (edit_owner st cid f)
unfolding apply_operation
apply-column_edit st (rename_column c old new) cid f h = ground (arith, edit_column_lem st cid f)
apply-column_edit st (alter_column_type c old new) cid f h =
    ground (arith, edit_column_lem st cid f)
apply-column_edit st (alter_column_nullability c b) cid f h =
    ground (arith, edit_column_lem st cid f)
apply-column_edit st (alter_column_default c old new) cid f h =
    ground (arith, edit_column_lem st cid f)
apply-column_edit st _ cid f h = cc

-- A column mutation always succeeds. Afterwards the column it names, if it was there, is found with
-- the one field assigned, and every other column id is found exactly as before.
pub apply-lookup_column :
    (st : Tables) (op : Operation) (cid : Uuid) (f : Column → Column) (d : Uuid)
    → column_edit op ≡ some (cid, f)
    → (st' : Tables) × (apply_operation st op ≡ ok st')
      × (lookup_column st' d
          ≡ (if d == cid then map_option f (lookup_column st d) else lookup_column st d))
apply-lookup_column st op cid f d h = (
  edit_owner st cid f,
  apply-column_edit st op cid f h,
  lookup-edit_owner cid f (column_edit-KeepsId op cid f h) st d,
)

-- Applying an operation raises exactly for a DropTable of a table that is not there, and then it
-- raises KeyError.
pub apply_error_iff :
    (st : Tables) (op : Operation) (e : Error)
    → (apply_operation st op ≡ err e)
      ↔ ((tid : Uuid) × (op ≡ drop_table tid) × (has st tid ≡ false) × (e ≡ key_error))
unfolding apply_operation
apply_error_iff st op e = (raises op, absent)
  where
    raises :
        (op : Operation)
        → apply_operation st op ≡ err e
        → (tid : Uuid) × (op ≡ drop_table tid) × (has st tid ≡ false) × (e ≡ key_error)
    raises (drop_table tid) h = (tid, ground arith, ground arith, ground arith)
    raises _ h = cc

    absent :
        ((tid : Uuid) × (op ≡ drop_table tid) × (has st tid ≡ false) × (e ≡ key_error))
        → apply_operation st op ≡ err e
    absent (tid, q, p, r) = ground arith
