-- ===== src/Merge/Engine.antt =====
-- merge/engine.py: the merge of one branch into another.
pub mod Outcome
pub mod Joined
use db_version_control.Prelude.{
  ℕ, zero, suc, ◌+◌, String, Bool, true, false, Option, none, some, List, [], ◌∷◌, ◌++◌, map, Eq,
  ◌==◌, string_eq, if◌then◌else◌,
}
use db_version_control.Prelude.Errors.{Error, nothing_to_merge, Result, ok, err}
use db_version_control.Model.Schema.{Uuid, Snapshot}
use db_version_control.Model.Operations.{
  Operation, drop_column, CompoundOperation, Migration, RevisionId,
}
use db_version_control.Dag.Store.{DagStore, get_node, append, head, set_head}
use db_version_control.Dag.Store.Session.{Session, pure, raise, reads, next, ◌>>=◌}
use db_version_control.Dag.Walk.{merge_base, is_fast_forward, operations_since, replay}
use db_version_control.Merge.Grouping.{group_by_identity}
use db_version_control.Merge.Classify.{ClassifiedGroup, classify}
use db_version_control.Merge.CrossObject.{Texts, cross_object_pass}
use db_version_control.Merge.NameCollision.{NameCollision, find_name_collisions, describe}
use db_version_control.Merge.Resolve.{
  HumanConfirmationToken, ResolutionEngine, new_engine, auto_resolve, commit_resolution,
}

pub record MergeResult : Type 0 where
  pub migration : Migration
  pub fast_forward : Bool
  pub conflicts_resolved : ℕ
  pub notes : List String

-- What a merge calls outside this repository's own code: the order of Python's sets, str and repr,
-- the hash behind `make_revision_id`, and the callback `confirm`, whose n-th call gets the number n.
pub record Surroundings : Type 0 where
  pub set_order : List RevisionId → List RevisionId
  pub texts : Texts
  pub make_revision_id : List RevisionId → List CompoundOperation → RevisionId
  pub confirm : ℕ → ClassifiedGroup → Result HumanConfirmationToken

-- `resolved_ops`, `conflicts_resolved` and the engine, as the loop over the groups changes them.
pub record Progress : Type 0 where
  pub engine : ResolutionEngine
  pub resolved_ops : List Operation
  pub conflicts_resolved : ℕ

abbrev pub at_start : Progress
at_start = record { engine = new_engine; resolved_ops = []; conflicts_resolved = 0 }

unfoldable pub resolve_group :
    (ℕ → ClassifiedGroup → Result HumanConfirmationToken)
    → ClassifiedGroup
    → Progress
    → Result Progress
resolve_group confirm group p = elim (auto_resolve group) [
  | some auto ↦ ok (record p { resolved_ops = p.resolved_ops ++ auto })
  | none ↦ elim (confirm p.conflicts_resolved group) [
    | err e ↦ err e
    | ok token ↦ elim (commit_resolution p.engine group token) [
      | err e ↦ err e
      | ok (ops, engine) ↦ ok (record {
        engine = engine;
        resolved_ops = p.resolved_ops ++ ops;
        conflicts_resolved = p.conflicts_resolved + 1;
      })
    ]
  ]
]

unfoldable pub resolve_groups :
    (ℕ → ClassifiedGroup → Result HumanConfirmationToken)
    → List ClassifiedGroup
    → Progress
    → Result Progress
resolve_groups confirm [] p = ok p
resolve_groups confirm (group ∷ groups) p = elim (resolve_group confirm group p) [
  | err e ↦ err e
  | ok p' ↦ resolve_groups confirm groups p'
]

abbrev pub corrective_drop : NameCollision → Operation
corrective_drop c = drop_column c.dropped.table_id c.dropped.column.id

unfoldable pub merged_compound : List Operation → List CompoundOperation
merged_compound [] = []
merged_compound (op ∷ ops) = record { operations = op ∷ ops } ∷ []

module _ (world : Surroundings) where
  unfoldable pub all_groups :
      List CompoundOperation → List CompoundOperation → Snapshot → List ClassifiedGroup
  all_groups ops_a ops_b snapshot_ancestor =
      cross_object_pass world.texts (map classify (group_by_identity ops_a ops_b)) ops_a ops_b
        snapshot_ancestor

  -- The end of `merge`: the node that joins the two heads.
  unfoldable pub commit_merge :
      String → RevisionId → RevisionId → Progress → List NameCollision → Session MergeResult
  commit_merge target_branch target_head source_head progress collisions store =
      let compound = merged_compound (progress.resolved_ops ++ map corrective_drop collisions) in
      let parents = target_head ∷ source_head ∷ [] in
      elim (append store (world.make_revision_id parents compound) target_branch parents compound) [
        | err e ↦ err e
        | ok (migration, store') ↦ ok (
          record {
            migration = migration;
            fast_forward = false;
            conflicts_resolved = progress.conflicts_resolved;
            notes = map (describe world.texts.repr) collisions;
          },
          store',
        )
      ]

  -- `merge` from `operations_since` on, where neither head is the base.
  unfoldable pub three_way : String → RevisionId → RevisionId → RevisionId → Session MergeResult
  three_way target_branch target_head source_head base = do
    ops_a ← operations_since base target_head
    ops_b ← operations_since base source_head
    snapshot_ancestor ← replay world.set_order base "__merge_base__"
    progress ←
        reads
          (λ _. resolve_groups world.confirm (all_groups ops_a ops_b snapshot_ancestor) at_start)
    commit_merge target_branch target_head source_head progress (find_name_collisions ops_a ops_b)

  -- `merge` of a source head that is ahead of the target head.
  unfoldable pub advance : String → RevisionId → Session MergeResult
  advance target_branch source_head store = elim (set_head store target_branch source_head) [
    | err e ↦ err e
    | ok store' ↦ elim (get_node store' source_head) [
      | err e ↦ err e
      | ok node ↦ ok (
        record { migration = node; fast_forward = true; conflicts_resolved = 0; notes = [] },
        store',
      )
    ]
  ]

  unfoldable pub after_base : String → RevisionId → RevisionId → RevisionId → Session MergeResult
  after_base target_branch target_head source_head base store =
      if is_fast_forward base source_head
      then err (nothing_to_merge target_head source_head)
      else (if is_fast_forward base target_head
          then advance target_branch source_head store
          else three_way target_branch target_head source_head base store)

  unfoldable pub merge_heads : String → RevisionId → RevisionId → Session MergeResult
  merge_heads target_branch target_head source_head store =
      if target_head == source_head
      then err (nothing_to_merge target_head source_head)
      else (merge_base target_head source_head >>= after_base target_branch target_head source_head)
          store

  unfoldable pub merge : String → String → Session MergeResult
  merge target_branch source_branch = do
    target_head ← reads (λ s. head s target_branch)
    source_head ← reads (λ s. head s source_branch)
    merge_heads target_branch target_head source_head
