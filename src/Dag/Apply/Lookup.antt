-- ===== src/Dag/Apply/Lookup.antt =====
-- What the column look-ups see after a column was edited in place.
use db_version_control.Prelude.{
  true, false, Option, none, some, List, [], ◌∷◌, ◌==◌, nat_eq, ◌≡◌, refl, sym, inl, inr, arith,
  if◌then◌else◌, Bool-cases, Option-cases,
}
use db_version_control.Model.Schema.{Uuid, Column, Table}
use db_version_control.Dag.Apply.{
  Tables, find_column, has_column, table_owning_column, edit_columns, edit_owner, edit_column,
}

-- `_find_column` in the table that `_table_owning_column` found.
unfoldable pub lookup_column : Tables → Uuid → Option Column
lookup_column st cid = elim (table_owning_column st cid) [
  | none ↦ none
  | some t ↦ find_column t.columns cid
]

-- An edit that leaves the id alone, as every assignment of the program does.
abbrev pub KeepsId : (Column → Column) → Type 0
KeepsId f = (c : Column) → (f c).id ≡ c.id

unfoldable pub map_option : (Column → Column) → Option Column → Option Column
map_option f none = none
map_option f (some c) = some (f c)

find_of_has :
    (cs : List Column) (cid : Uuid)
    → has_column cs cid ≡ true
    → (c : Column) × (find_column cs cid ≡ some c)
unfolding find_column
find_of_has [] cid h = cc
find_of_has (c ∷ cs) cid h = elim (Bool-cases (c.id == cid)) [
  | inl q ↦ (c, rw q)
  | inr q ↦ let (d, p) = find_of_has cs cid (rw q at h) in (d, rw q p)
]

find_of_not_has :
    (cs : List Column) (cid : Uuid) → has_column cs cid ≡ false → find_column cs cid ≡ none
unfolding find_column
find_of_not_has [] cid h = refl
find_of_not_has (c ∷ cs) cid h = ground (arith, find_of_not_has cs cid)

edit_owner_absent :
    (st : Tables) (cid : Uuid) (f : Column → Column)
    → table_owning_column st cid ≡ none
    → edit_owner st cid f ≡ st
unfolding edit_owner table_owning_column
edit_owner_absent [] cid f h = refl
edit_owner_absent ((k, t) ∷ st) cid f h = ground (arith, edit_owner_absent st cid f)

owner-has :
    (st : Tables) (cid : Uuid) (t : Table)
    → table_owning_column st cid ≡ some t
    → has_column t.columns cid ≡ true
unfolding table_owning_column
owner-has [] cid t h = cc
owner-has ((k, u) ∷ st) cid t h = elim (Bool-cases (has_column u.columns cid)) [
  | inl q ↦ ground arith
  | inr q ↦ owner-has st cid t (rw q at h)
]

-- The guards of the source are the cases in which the in-place edit finds nothing.
pub edit_column_lem :
    (st : Tables) (cid : Uuid) (f : Column → Column) → edit_column st cid f ≡ edit_owner st cid f
unfolding edit_column
edit_column_lem st cid f = elim (Option-cases (table_owning_column st cid)) [
  | inl q ↦ rw (q, edit_column) (sym (edit_owner_absent st cid f q))
  | inr (t, q) ↦ let (c, p) = find_of_has t.columns cid (owner-has st cid t q) in ground arith
]

module _ (cid : Uuid) (f : Column → Column) (kept : KeepsId f) where
  pub has-edit_columns :
      (cs : List Column) (d : Uuid) → has_column (edit_columns cs cid f) d ≡ has_column cs d
  unfolding edit_columns
  has-edit_columns [] d = refl
  has-edit_columns (c ∷ cs) d = ground (arith, has-edit_columns cs d, kept c)

  find-edit_columns :
      (cs : List Column) (d : Uuid)
      → find_column (edit_columns cs cid f) d
        ≡ (if d == cid then map_option f (find_column cs d) else find_column cs d)
  unfolding edit_columns find_column map_option
  find-edit_columns [] d = ground arith
  find-edit_columns (c ∷ cs) d = ground (arith, find-edit_columns cs d, kept c)

  pub lookup-edit_owner :
      (st : Tables) (d : Uuid)
      → lookup_column (edit_owner st cid f) d
        ≡ (if d == cid then map_option f (lookup_column st d) else lookup_column st d)
  unfolding edit_owner lookup_column table_owning_column map_option
  lookup-edit_owner [] d = ground arith
  lookup-edit_owner ((k, t) ∷ st) d =
      ground
        (arith, lookup-edit_owner st d, has-edit_columns t.columns d, find-edit_columns t.columns d)
