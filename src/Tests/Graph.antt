-- ===== src/Tests/Graph.antt =====
-- The store and the walks, on two branches that fork at one node.
use db_version_control.Prelude.{
  [], some, ◌∷◌, ℕ, zero, suc, ap, string_eq, nat_eq, ◌≡◌, ◌≤◌, refl, String, true, false, none,
  ◌==◌, if◌then◌else◌, ◌⊎◌, arith,
}
use db_version_control.Prelude.Dict.{get, put}
use db_version_control.Model.Operations.{RevisionId}
use db_version_control.Dag.Store.{
  DagStore, head, get_node, append, check_parents, set_head, delete_branch, has_branch,
}
use db_version_control.Dag.Store.Grown.{
  IsGrown, append-IsGrown, set_head-IsGrown, delete_branch_lem,
}
use db_version_control.Dag.Walk.{merge_base, operations_since, topological_order, ancestors}
use db_version_control.Dag.Walk.Reach.{Parent, here, up}
use db_version_control.Dag.Walk.Yields.{Ends}
use db_version_control.Dag.Walk.Maximal.{Never}
use db_version_control.Dag.Walk.MergeBase.{
  IsLowestCommon, IsRefusal, merge_base_correct, merge_base_of_ancestor,
}
use db_version_control.Dag.Walk.Since.{IsSince, IsNoAncestor, operations_since_correct}
use db_version_control.Dag.Walk.Order.{IsTopological, topological_order_correct, ancestors_correct}
use db_version_control.Dag.Walk.Ancestors.{IsAncestorSet}
use db_version_control.Prelude.Errors.{ok, err, unknown_branch, Result, Gives, ◌>>=◌}
use db_version_control.Dag.Persistence.{Codec, dumps_node, loads_node, RepoFiles, save, load}
use db_version_control.Model.Serialize.{Json}
use db_version_control.Dag.Persistence.Texts.{loads-dumps_node}
use db_version_control.Dag.Persistence.RoundTrip.{SameStore, load-save}
use db_version_control.Cli.Branch.{Repository, first_parent, go_back, rollback}
use db_version_control.Cli.Branch.Moves.{FirstParents, rollback-FirstParents}
use db_version_control.Tests.Samples.{
  forked, root, forked-IsGrown, forked-IsCacheSound, node, retype, renamed,
}

merge_base_correct_example :
    Ends forked.nodes forked.heads
      (IsLowestCommon forked.nodes "r1" "r2")
      (IsRefusal forked.nodes "r1" "r2")
      (merge_base "r1" "r2" forked)
merge_base_correct_example =
    merge_base_correct forked "r1" "r2" forked-IsGrown forked-IsCacheSound refl refl

abbrev below_root : Parent forked.nodes "r1" "r0"
unfolding get
below_root = record { node = renamed; stored = refl; listed = refl }

merge_base_of_ancestor_example :
    Ends forked.nodes forked.heads (λ r. r ≡ "r0") Never (merge_base "r0" "r1" forked)
merge_base_of_ancestor_example =
    merge_base_of_ancestor forked "r0" "r1" forked-IsGrown forked-IsCacheSound refl
      (up below_root here)

operations_since_correct_example :
    Ends forked.nodes forked.heads
      (IsSince forked.nodes "r0" "r1")
      (IsNoAncestor forked.nodes "r0" "r1")
      (operations_since "r0" "r1" forked)
operations_since_correct_example =
    operations_since_correct forked "r0" "r1" forked-IsGrown forked-IsCacheSound refl

topological_order_correct_example :
    Ends forked.nodes forked.heads
      (IsTopological forked.nodes "r1")
      Never
      (topological_order (λ xs. xs) "r1" forked)
topological_order_correct_example =
    topological_order_correct (λ xs. xs) forked "r1" (λ xs a. refl) forked-IsGrown
      forked-IsCacheSound refl

-- The store after `append` of r3 on main.
abbrev grown_on_main : DagStore
grown_on_main = record forked {
  nodes = put forked.nodes "r3" (node "r3" ("r1" ∷ []) "main" (retype ∷ []));
  heads = put forked.heads "main" "r3";
}

append-IsGrown_example : IsGrown grown_on_main
unfolding append check_parents
append-IsGrown_example =
    append-IsGrown forked "r3" "main" ("r1" ∷ [])
      (node "r3" ("r1" ∷ []) "main" (retype ∷ [])).operations
      (node "r3" ("r1" ∷ []) "main" (retype ∷ [])) grown_on_main forked-IsGrown refl refl

set_head-IsGrown_example : IsGrown (record forked { heads = put forked.heads "release" "r1" })
unfolding set_head
set_head-IsGrown_example =
    set_head-IsGrown forked "release" "r1"
      (record forked { heads = put forked.heads "release" "r1" }) forked-IsGrown refl

delete_branch_lem_example :
    (has_branch forked "release" ≡ true)
      × Gives
          (λ store'.
            IsGrown store'
            × (store'.nodes ≡ forked.nodes)
            × ((c : String)
                → get store'.heads c ≡ (if c == "release" then none else get forked.heads c)))
          (delete_branch forked "release")
    ⊎ (has_branch forked "release" ≡ false)
      × (delete_branch forked "release" ≡ err (unknown_branch "release"))
delete_branch_lem_example = delete_branch_lem forked "release" forked-IsGrown

abbrev checkout : DagStore → Repository
checkout store = record { store = store; head_file = "main\n" }

rollback-FirstParents_example :
    (1 ≤ 1)
    × ((old new : RevisionId) × (get forked.heads "main" ≡ some old)
        × FirstParents forked 1 old new
        × (checkout (record forked { heads = put forked.heads "main" "r0" })
            ≡ checkout (record forked { heads = put forked.heads "main" new })))
unfolding rollback go_back first_parent head get_node set_head get
rollback-FirstParents_example =
    rollback-FirstParents (checkout forked)
      (checkout (record forked { heads = put forked.heads "main" "r0" })) "main" 1 refl

ancestors_correct_example :
    Ends forked.nodes forked.heads (IsAncestorSet forked.nodes "r1") Never (ancestors "r1" forked)
ancestors_correct_example = ancestors_correct forked "r1" forked-IsGrown forked-IsCacheSound refl

-- A number as so many characters.
abbrev marks : ℕ → String
marks zero = ""
marks (suc n) = String.◌∷◌ "a" (marks n)

abbrev count_marks : String → Result ℕ
count_marks String.[] = ok 0
count_marks (String.◌∷◌ c s) = count_marks s >>= λ n. ok (suc n)

count-marks : (n : ℕ) → count_marks (marks n) ≡ ok n
count-marks zero = refl
count-marks (suc n) = ap (λ r. r >>= λ n. ok (suc n)) (count-marks n)

-- A codec whose texts are the JSON values that they stand for.
abbrev plain : Codec
plain = record {
  Text = Json;
  uuids = record { hex = marks; of_hex = count_marks; of_hex-hex = count-marks };
  dumps = λ j. j;
  loads = ok;
  loads-dumps = λ j once. refl;
}

abbrev root_file : Json
root_file = dumps_node plain root

loads-dumps_node_example : loads_node plain (dumps_node plain renamed) ≡ ok renamed
loads-dumps_node_example = loads-dumps_node plain renamed

-- Only the file of the root is there.
abbrev old_files : RepoFiles plain
old_files = record { nodes_dir = true; node_files = ("r0", root_file) ∷ []; heads_file = none }

load-save_example : Gives (SameStore forked) (save plain forked old_files >>= load plain (λ xs. xs))
load-save_example =
    load-save plain forked forked-IsGrown (refl, (refl, (refl, tt))) (λ xs. xs) old_files
      (λ xs a. refl) (λ r m. ground (arith, m))
