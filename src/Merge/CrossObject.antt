-- ===== src/Merge/CrossObject.antt =====
-- merge/cross_object.py: one branch destroyed what an addition of the other still refers to.
pub mod Conflicts
use db_version_control.Prelude.{
  ℕ, String, ◌<>◌, Bool, true, false, Option, none, some, List, [], ◌∷◌, ◌++◌, Eq, ◌==◌, nat_eq,
  if◌then◌else◌, contains, keep, map, concat_map,
}
use db_version_control.Model.Schema.{Uuid, Column, Table, Snapshot}
use db_version_control.Model.Operations.{
  Operation, drop_table, add_column, drop_column, add_index, add_constraint, CompoundOperation,
}
use db_version_control.Dag.Apply.{find_column}
use db_version_control.Merge.Grouping.{IdentityGroup, flatten}
use db_version_control.Merge.Classify.{Classification, conflict, ClassifiedGroup, classified}

-- Two sets; an element that is added again is kept once.
pub record Destroyed : Type 0 where
  pub tables : List Uuid
  pub columns : List Uuid

-- s.add(x)
unfoldable pub add : Uuid → List Uuid → List Uuid
add x s = if contains s x then s else x ∷ s

unfoldable pub destroy : Destroyed → Operation → Destroyed
destroy d (drop_table table_id) = record d { tables = add table_id d.tables }
destroy d (drop_column _ column_id) = record d { columns = add column_id d.columns }
destroy d _ = d

unfoldable pub destroy_all : Destroyed → List Operation → Destroyed
destroy_all d [] = d
destroy_all d (op ∷ ops) = destroy_all (destroy d op) ops

unfoldable pub destroyed_by : List CompoundOperation → Destroyed
destroyed_by compounds = destroy_all (record { tables = []; columns = [] }) (flatten compounds)

-- set(ids)
unfoldable pub set_of : List Uuid → List Uuid
set_of [] = []
set_of (x ∷ xs) = add x (set_of xs)

unfoldable pub with_reference : Uuid → Option Uuid → List Uuid
with_reference table_id none = table_id ∷ []
with_reference table_id (some target) = add target (table_id ∷ [])

unfoldable pub referenced_tables : Operation → List Uuid
referenced_tables (add_column table_id _) = table_id ∷ []
referenced_tables (add_index table_id _) = table_id ∷ []
referenced_tables (add_constraint table_id constraint) =
    with_reference table_id constraint.references
referenced_tables _ = []

unfoldable pub referenced_columns : Operation → List Uuid
referenced_columns (add_index _ index) = set_of index.columns
referenced_columns (add_constraint _ constraint) = set_of constraint.columns
referenced_columns _ = []

-- The third component of the triples of `_find_conflicts`.
pub data Kind : Type 0 where
  table column : Kind

pub record Conflict : Type 0 where
  pub op : Operation
  pub destroyed_id : Uuid
  pub kind : Kind

-- What the pass takes from Python: str(uuid), repr(text), and the order in which it iterates over a
-- set of UUIDs.
pub record Texts : Type 0 where
  pub str : Uuid → String
  pub repr : String → String
  pub uuid_order : List Uuid → List Uuid

unfoldable pub conflicts_of : Texts → Destroyed → Operation → List Conflict
conflicts_of texts destroyed op =
    map (λ i. record { op = op; destroyed_id = i; kind = table })
      (texts.uuid_order (keep (contains destroyed.tables) (referenced_tables op)))
    ++ map (λ i. record { op = op; destroyed_id = i; kind = column })
        (texts.uuid_order (keep (contains destroyed.columns) (referenced_columns op)))

unfoldable pub find_conflicts : Texts → List CompoundOperation → Destroyed → List Conflict
find_conflicts texts adding_compounds destroyed =
    concat_map (conflicts_of texts destroyed) (flatten adding_compounds)

unfoldable pub table_name : List Table → Uuid → Option String
table_name [] i = none
table_name (t ∷ ts) i = let rest = table_name ts i in if t.id == i then some t.name else rest

unfoldable pub column_name : List Table → Uuid → Option String
column_name [] i = none
column_name (t ∷ ts) i =
    let rest = column_name ts i in
    elim (find_column t.columns i) [ none ↦ rest | some c ↦ some (t.name <> ("." <> c.name)) ]

abbrev or_text : Option String → String → String
or_text none fallback = fallback
or_text (some text) fallback = text

unfoldable pub name_of : Texts → Kind → Uuid → Snapshot → String
name_of texts table i snapshot = or_text (table_name snapshot.tables i) (texts.str i)
name_of texts column i snapshot = or_text (column_name snapshot.tables i) (texts.str i)

abbrev kind_word : Kind → String
kind_word table = "table"
kind_word column = "column"

-- The dropper's side stays empty: the drop stands in the group of the destroyed identity.
unfoldable pub build_conflict : Texts → Snapshot → String → Bool → Conflict → ClassifiedGroup
build_conflict texts snapshot dropper on_side_a c =
    let group : IdentityGroup = record {
      identity_id = c.destroyed_id;
      ops_a = if on_side_a then c.op ∷ [] else [];
      ops_b = if on_side_a then [] else c.op ∷ [];
    } in
    record (classified group conflict (
      "branch "
      <> (dropper
          <> (" dropped "
              <> (kind_word c.kind
                  <> (" "
                      <> (texts.repr (name_of texts c.kind c.destroyed_id snapshot)
                          <> " that another branch's operation still references"))))))) {
                            cross_object_referencing_op = some c.op;
                          }

unfoldable pub cross_object_pass :
    Texts
    → List ClassifiedGroup
    → List CompoundOperation
    → List CompoundOperation
    → Snapshot
    → List ClassifiedGroup
cross_object_pass texts groups ops_a ops_b snapshot =
    groups
    ++ (map (build_conflict texts snapshot "A" false)
          (find_conflicts texts ops_b (destroyed_by ops_a))
        ++ map (build_conflict texts snapshot "B" true)
            (find_conflicts texts ops_a (destroyed_by ops_b)))
