-- ===== src/Dag/Store.antt =====
-- dag/store.py: the migration nodes, the head of each branch, and the cache of ancestor sets.
pub mod Session
pub mod Grown
use db_version_control.Prelude.{
  ℕ, String, Bool, true, false, Option, none, some, List, [], ◌∷◌, Eq, ◌==◌, string_eq,
  if◌then◌else◌,
}
use db_version_control.Prelude.Dict.{Dict, get, put, remove, has, keys}
use db_version_control.Prelude.Errors.{
  Result, ok, err, unknown_revision, unknown_branch, ◌>>=◌, ◌>>◌,
}
use db_version_control.Model.Operations.{CompoundOperation, Migration, RevisionId}

pub record DagStore : Type 0 where
  pub nodes : Dict RevisionId Migration
  pub heads : Dict String RevisionId
  pub ancestor_cache : Dict RevisionId (List RevisionId)

abbrev pub empty : DagStore
empty = record { nodes = []; heads = []; ancestor_cache = [] }

unfoldable pub cached_ancestors : DagStore → RevisionId → Option (List RevisionId)
cached_ancestors store revision_id = get store.ancestor_cache revision_id

unfoldable pub cache_ancestors : DagStore → RevisionId → List RevisionId → DagStore
cache_ancestors store revision_id result = record store {
  ancestor_cache = put store.ancestor_cache revision_id result;
}

unfoldable pub get_node : DagStore → RevisionId → Result Migration
get_node store revision_id = elim (get store.nodes revision_id) [
  | none ↦ err (unknown_revision revision_id)
  | some node ↦ ok node
]

abbrev pub has_node : DagStore → RevisionId → Bool
has_node store revision_id = has store.nodes revision_id

-- The loop at the top of `append`.
unfoldable pub check_parents : DagStore → List RevisionId → Result (Unit {0})
check_parents store [] = ok tt
check_parents store (parent ∷ parents) =
    let rest = check_parents store parents in
    if has_node store parent then rest else err (unknown_revision parent)

unfoldable pub append :
    DagStore
    → RevisionId
    → String
    → List RevisionId
    → List CompoundOperation
    → Result (Migration × DagStore)
append store revision_id branch parents operations = do
  check_parents store parents
  let node : Migration = record {
    id = revision_id;
    parents = parents;
    branch = branch;
    operations = operations;
  }
  ok (
    node,
    record store {
      nodes = put store.nodes revision_id node;
      heads = put store.heads branch revision_id;
    },
  )

unfoldable pub head : DagStore → String → Result RevisionId
head store branch = elim (get store.heads branch) [
  | none ↦ err (unknown_branch branch)
  | some revision_id ↦ ok revision_id
]

unfoldable pub set_head : DagStore → String → RevisionId → Result DagStore
set_head store branch revision_id =
    if has_node store revision_id
    then ok (record store { heads = put store.heads branch revision_id })
    else err (unknown_revision revision_id)

abbrev pub has_branch : DagStore → String → Bool
has_branch store branch = has store.heads branch

unfoldable pub replace_all_heads : DagStore → Dict String RevisionId → DagStore
replace_all_heads store heads = record store { heads = heads }

unfoldable pub delete_branch : DagStore → String → Result DagStore
delete_branch store branch =
    if has_branch store branch
    then ok (record store { heads = remove store.heads branch })
    else err (unknown_branch branch)

unfoldable pub all_revision_ids : DagStore → List RevisionId
all_revision_ids store = keys store.nodes

unfoldable pub all_heads : DagStore → Dict String RevisionId
all_heads store = store.heads
