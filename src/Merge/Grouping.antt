-- ===== src/Merge/Grouping.antt =====
-- merge/grouping.py: the operations of two branches, grouped by the object that each is about.
pub mod Partition
use db_version_control.Prelude.{
  ℕ, Bool, true, false, Option, none, some, List, [], ◌∷◌, ◌++◌, Eq, nat_eq, concat_map,
}
use db_version_control.Prelude.Dict.{Dict, get, put, values}
use db_version_control.Model.Schema.{Uuid}
use db_version_control.Model.Operations.{
  Operation, create_table, drop_table, add_column, drop_column, rename_column, alter_column_type,
  alter_column_nullability, alter_column_default, add_index, drop_index, rename_index,
  add_constraint, drop_constraint, CompoundOperation,
}

-- The identity of an operation's own object, never that of a table it refers to.
unfoldable pub target_id : Operation → Option Uuid
target_id (create_table table) = some table.id
target_id (add_column _ column) = some column.id
target_id (add_index _ index) = some index.id
target_id (add_constraint _ constraint) = some constraint.id
target_id (drop_column _ column_id) = some column_id
target_id (rename_column column_id _ _) = some column_id
target_id (alter_column_type column_id _ _) = some column_id
target_id (alter_column_nullability column_id _) = some column_id
target_id (alter_column_default column_id _ _) = some column_id
target_id (drop_index index_id) = some index_id
target_id (rename_index index_id _ _) = some index_id
target_id (drop_constraint constraint_id) = some constraint_id
target_id (drop_table table_id) = some table_id

abbrev pub flatten : List CompoundOperation → List Operation
flatten compounds = concat_map (λ c. c.operations) compounds

pub record IdentityGroup : Type 0 where
  pub identity_id : Uuid
  pub ops_a : List Operation
  pub ops_b : List Operation

abbrev pub Groups : Type 0
Groups = Dict Uuid IdentityGroup

-- groups.setdefault(identity_id, IdentityGroup(identity_id=identity_id))
unfoldable pub group_at : Groups → Uuid → IdentityGroup
group_at groups identity_id = elim (get groups identity_id) [
  | none ↦ record { identity_id = identity_id; ops_a = []; ops_b = [] }
  | some group ↦ group
]

unfoldable pub add_a : Groups → Operation → Groups
add_a groups op = elim (target_id op) [
  | none ↦ groups
  | some i ↦
      let group = group_at groups i in
      put groups i (record group { ops_a = group.ops_a ++ op ∷ [] })
]

unfoldable pub add_b : Groups → Operation → Groups
add_b groups op = elim (target_id op) [
  | none ↦ groups
  | some i ↦
      let group = group_at groups i in
      put groups i (record group { ops_b = group.ops_b ++ op ∷ [] })
]

unfoldable pub add_all : (Groups → Operation → Groups) → Groups → List Operation → Groups
add_all add groups [] = groups
add_all add groups (op ∷ ops) = add_all add (add groups op) ops

unfoldable pub groups_of : List CompoundOperation → List CompoundOperation → Groups
groups_of ops_a ops_b = add_all add_b (add_all add_a [] (flatten ops_a)) (flatten ops_b)

unfoldable pub group_by_identity :
    List CompoundOperation → List CompoundOperation → List IdentityGroup
group_by_identity ops_a ops_b = values (groups_of ops_a ops_b)
