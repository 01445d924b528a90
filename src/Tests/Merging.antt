-- ===== src/Tests/Merging.antt =====
-- Merges of two branches that edit one column.
use db_version_control.Prelude.{
  true, false, none, some, List, [], ◌∷◌, string_eq, nat_eq, ◌≡◌, ◌≢◌, refl, inr, arith, eq_iff,
  decide, keep, any_of, contains, ◌&&◌,
}
use db_version_control.Prelude.Dict.{get, put}
use db_version_control.Prelude.Errors.{ok, err, key_error, nothing_to_merge, value_error}
use db_version_control.Model.Operations.{
  Operation, drop_table, drop_column, Migration, operation_eq, Operation-discrete, add_column,
  CompoundOperation,
}
use db_version_control.Dag.Apply.{
  apply_operation, find_column, table_owning_column, edit_columns, edit_column, edit_table,
  every_table, has_index, rename_in, rename_index_in, without_column, without_index,
  without_constraint,
}
use db_version_control.Dag.Apply.Commute.{apply_both}
use db_version_control.Dag.Store.{
  DagStore, cached_ancestors, cache_ancestors, get_node, check_parents, append, head, set_head,
  replace_all_heads, delete_branch, all_revision_ids, all_heads,
}
use db_version_control.Dag.Walk.{
  extend, ancestors_loop, ancestors, has_descendant, maximal_of, sole, merge_base_of, merge_base,
  way_back, path_back, operations_on, operations_since, visit_each, visit, visit_all,
  topological_order, apply_each, apply_compounds, replay_revisions, replay,
}
use db_version_control.Merge.NameCollision.{
  record_addition, record_all, add_columns_by_table_and_name, collide, collisions_in,
  find_name_collisions,
}
use db_version_control.Dag.Walk.Reach.{Parent, here, up}
use db_version_control.Merge.Grouping.{
  IdentityGroup, group_by_identity, target_id, group_at, add_a, add_b, add_all, groups_of, flatten,
}
use db_version_control.Merge.Grouping.Partition.{IsPartition, group_by_identity-IsPartition}
use db_version_control.Merge.Classify.{
  identical, conflict, ClassifiedGroup, classified, single_valued, classify_single_pair,
  classify_same_type, classify_compound_pair, is_destructive, type_name, mutation_field,
  decompose_into, decompose, all_field_names, compare_field, compare_fields, compare_sides,
  compound_verdict, classify_sides, classify,
}
use db_version_control.Merge.Classify.Soundness.{commuting_sound, identical_sound, both_drop_table}
use db_version_control.Merge.Classify.Fields.{classify_ignores_drop}
use db_version_control.Merge.CrossObject.{
  add, destroy, destroy_all, destroyed_by, set_of, with_reference, referenced_tables,
  referenced_columns, conflicts_of, find_conflicts, table_name, column_name, cross_object_pass,
  table,
}
use db_version_control.Merge.Resolve.{
  HumanConfirmationToken, ResolutionEngine, new_engine, commit_resolution, commit_resolution_once,
  Later, at_once, committed, confirm_from_cli, confirmed_commits, chosen_for, auto_resolve,
}
use db_version_control.Merge.Engine.{
  MergeResult, Surroundings, merge, resolve_group, resolve_groups, merged_compound, all_groups,
  commit_merge, three_way, advance, after_base, merge_heads,
}
use db_version_control.Merge.Engine.Outcome.{merge_up_to_date, merge_fast_forward}
use db_version_control.Merge.Engine.Joined.{IsJoined, merge_joins}
use db_version_control.Merge.CrossObject.Conflicts.{reports, refers, destroys, find_conflicts_exact}
use db_version_control.Web.ConfirmAdapter.{classify_ui_mode, build_token_from_choice}
use db_version_control.Web.ConfirmAdapter.Agrees.{build_token_from_choice-confirm_from_cli}
use db_version_control.Model.Schema.{Column}
use db_version_control.Tests.Samples.{
  email, one_table, rename, retype, compound, forked, forked-IsGrown, forked-IsCacheSound, renamed,
}

abbrev of_email : List Operation → List Operation → IdentityGroup
of_email ops_a ops_b = record { identity_id = 11; ops_a = ops_a; ops_b = ops_b }

abbrev retype_rename : IdentityGroup
retype_rename = of_email (retype ∷ []) (rename ∷ [])

commuting_sound_example : apply_both one_table retype rename ≡ apply_both one_table rename retype
unfolding classify_single_pair is_destructive classified type_name decide Operation-discrete
commuting_sound_example = commuting_sound one_table retype_rename retype rename tt tt refl

identical_sound_example : apply_both one_table rename rename ≡ apply_operation one_table rename
unfolding classify_single_pair classified decide Operation-discrete
identical_sound_example =
    identical_sound one_table (of_email (rename ∷ []) (rename ∷ [])) rename rename tt tt refl refl

both_drop_table_example :
    ((classify_single_pair retype_rename (drop_table 1) (drop_table 1)).classification ≡ identical)
    × (apply_both one_table (drop_table 1) (drop_table 1) ≡ err key_error)
both_drop_table_example = both_drop_table one_table retype_rename 1

abbrev two_edits : List Operation
two_edits = retype ∷ rename ∷ []

classify_ignores_drop_example :
    ((classify (of_email (retype ∷ drop_column 1 11 ∷ rename ∷ []) (rename ∷ []))).classification
      ≡ (classify (of_email two_edits (rename ∷ []))).classification)
    × ((classify
          (of_email (retype ∷ drop_column 1 11 ∷ rename ∷ []) (rename ∷ []))).conflicting_fields
        ≡ (classify (of_email two_edits (rename ∷ []))).conflicting_fields)
classify_ignores_drop_example =
    classify_ignores_drop 11 1 11 (retype ∷ []) (rename ∷ []) (rename ∷ []) (omega arith)
      (omega arith)

group_by_identity-IsPartition_example :
    IsPartition
      (compound (rename ∷ []))
      (compound (retype ∷ drop_table 1 ∷ []))
      (group_by_identity (compound (rename ∷ [])) (compound (retype ∷ drop_table 1 ∷ [])))
group_by_identity-IsPartition_example =
    group_by_identity-IsPartition (compound (rename ∷ [])) (compound (retype ∷ drop_table 1 ∷ []))

-- A clash over the type of one column, and a person who keeps the second branch's.
abbrev clash : ClassifiedGroup
clash = record {
  group = of_email (rename ∷ []) (retype ∷ []);
  classification = conflict;
  reason = "";
  agreed_fields = none;
  conflicting_fields = [];
  single_valued_field = true;
  cross_object_referencing_op = none;
}

abbrev token : HumanConfirmationToken
token = record { group_id = 11; chosen_resolution = retype ∷ []; nonce = 7 }

abbrev spent : ResolutionEngine
spent = record { spent_nonces = 7 ∷ [] }

-- Another token, spent after the first one.
abbrev next_token : HumanConfirmationToken
next_token = record token { nonce = 8 }

abbrev spent_both : ResolutionEngine
spent_both = record { spent_nonces = 8 ∷ 7 ∷ [] }

next_committed : Later spent spent_both
unfolding commit_resolution
next_committed = committed {ops = retype ∷ []} clash next_token at_once refl

commit_resolution_once_example :
    ((retype ∷ []) ≡ token.chosen_resolution)
    × (token.group_id ≡ clash.group.identity_id)
    × ((other : ClassifiedGroup) (r : List Operation × ResolutionEngine)
        → commit_resolution spent_both other token ≢ ok r)
unfolding commit_resolution
commit_resolution_once_example =
    commit_resolution_once new_engine spent spent_both clash token (retype ∷ []) refl next_committed

confirmed_commits_example :
    commit_resolution new_engine clash token
    ≡ ok (token.chosen_resolution, record { spent_nonces = 7 ∷ [] })
unfolding confirm_from_cli chosen_for
confirmed_commits_example = confirmed_commits new_engine clash "b" 7 token refl refl

-- Nobody is asked, and the new node is called r9.
abbrev world : Surroundings
world = record {
  set_order = λ xs. xs;
  texts = record { str = λ i. ""; repr = λ t. t; uuid_order = λ s. s };
  make_revision_id = λ parents ops. "r9";
  confirm = λ n group. err value_error;
}

abbrev below_root : Parent forked.nodes "r1" "r0"
unfolding get
below_root = record { node = renamed; stored = refl; listed = refl }

merge_up_to_date_example : merge world "main" "release" forked ≡ err (nothing_to_merge "r1" "r0")
unfolding get
merge_up_to_date_example =
    merge_up_to_date world forked "main" "release" "r1" "r0" forked-IsGrown forked-IsCacheSound refl
      refl (up below_root here)

merge_fast_forward_example :
    (n : Migration) × (get forked.nodes "r1" ≡ some n)
    × (store' : DagStore) × (merge world "release" "main" forked
        ≡ ok (
          record { migration = n; fast_forward = true; conflicts_resolved = 0; notes = [] },
          store',
        ))
    × (store'.nodes ≡ forked.nodes)
    × (store'.heads ≡ put forked.heads "release" "r1")
unfolding get
merge_fast_forward_example =
    merge_fast_forward world forked "release" "main" "r0" "r1" forked-IsGrown forked-IsCacheSound
      refl refl (ground (arith, eq_iff "r0" "r1")) (up below_root here)

abbrev joining : Migration
joining = record { id = "r9"; parents = "r1" ∷ "r2" ∷ []; branch = "main"; operations = [] }

-- The same tables with both edits: main moves to r9, and the two walks of the graph are cached.
abbrev joined : DagStore
joined = record {
  nodes = put forked.nodes "r9" joining;
  heads = put forked.heads "main" "r9";
  ancestor_cache = ("r1", "r0" ∷ "r1" ∷ []) ∷ ("r2", "r0" ∷ "r2" ∷ []) ∷ ("r0", "r0" ∷ []) ∷ [];
}

abbrev joined_result : MergeResult
joined_result = record {
  migration = joining;
  fast_forward = false;
  conflicts_resolved = 0;
  notes = [];
}

merge_joins_example : IsJoined forked "main" "r1" "r2" joined_result joined
unfolding get put keep find_column table_owning_column edit_columns edit_column edit_table
    every_table has_index rename_in rename_index_in without_column without_index without_constraint
    apply_operation cached_ancestors cache_ancestors get_node check_parents append head set_head
    replace_all_heads delete_branch all_revision_ids all_heads extend ancestors_loop ancestors
    has_descendant maximal_of sole merge_base_of merge_base way_back path_back operations_on
    operations_since visit_each visit visit_all topological_order apply_each apply_compounds
    replay_revisions replay target_id group_at add_a add_b add_all groups_of group_by_identity
    classified single_valued type_name is_destructive mutation_field classify_same_type
    classify_single_pair decompose_into decompose all_field_names compare_field compare_fields
    compare_sides compound_verdict classify_compound_pair classify_sides classify add destroy
    destroy_all destroyed_by set_of with_reference referenced_tables referenced_columns conflicts_of
    find_conflicts table_name column_name cross_object_pass record_addition record_all
    add_columns_by_table_and_name collide collisions_in find_name_collisions auto_resolve
    commit_resolution resolve_group resolve_groups merged_compound all_groups commit_merge three_way
    advance after_base merge_heads merge decide Operation-discrete
merge_joins_example =
    merge_joins world forked joined "main" "feature" "r1" "r2" joined_result (λ xs a. refl)
      forked-IsGrown forked-IsCacheSound refl refl refl

build_token_from_choice-confirm_from_cli_example :
    build_token_from_choice clash "b" 7 ≡ confirm_from_cli "b" 7 clash
unfolding classify_ui_mode
build_token_from_choice-confirm_from_cli_example =
    build_token_from_choice-confirm_from_cli clash "b" 7 (inr refl)

abbrev other_email : Column
other_email = record email { id = 12 }

abbrev adding : List CompoundOperation
adding = compound (add_column 1 email ∷ [])

-- The branch that adds the column against one that drops its table.
find_conflicts_exact_example :
    any_of
      (reports table (add_column 1 email) 1)
      (find_conflicts world.texts adding (destroyed_by (compound (drop_table 1 ∷ []))))
    ≡ contains (flatten adding) (add_column 1 email)
      && (refers table 1 (add_column 1 email)
          && any_of (destroys table 1) (flatten (compound (drop_table 1 ∷ []))))
find_conflicts_exact_example =
    find_conflicts_exact world.texts (λ s i. refl) adding (compound (drop_table 1 ∷ [])) table
      (add_column 1 email) 1
