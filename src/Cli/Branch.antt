-- ===== src/Cli/Branch.antt =====
-- cli/commands/branch_cmd.py: creating, deleting and rolling back a branch.
pub mod Moves
pub mod Sound
use db_version_control.Prelude.{
  ℕ, zero, suc, String, ◌<>◌, Bool, true, false, Option, none, some, List, [], ◌∷◌, Eq, ◌==◌,
  string_eq, if◌then◌else◌,
}
use db_version_control.Prelude.Strings.{strip, read_text}
use db_version_control.Prelude.Errors.{Result, ok, err, value_error, ◌>>=◌}
use db_version_control.Model.Operations.{Migration, RevisionId}
use db_version_control.Dag.Store.{DagStore, get_node, head, set_head, has_branch, delete_branch}

-- What the commands load and save: the store, and the text of the file HEAD, which names the branch
-- that is checked out. The schema file that is rendered from them is not part of it.
pub record Repository : Type 0 where
  pub store : DagStore
  pub head_file : String

-- storage/paths.py
unfoldable pub read_current_branch : Repository → String
read_current_branch repo = strip (read_text repo.head_file)

unfoldable pub write_current_branch : String → Repository → Repository
write_current_branch branch repo = record repo { head_file = branch <> "\n" }

-- `from_branch or read_current_branch(repo_root)`; an empty name counts as none.
unfoldable pub source_of : Repository → Option String → String
source_of repo none = read_current_branch repo
source_of repo (some from_branch) =
    if from_branch == "" then read_current_branch repo else from_branch

unfoldable pub create : Repository → String → Option String → Result Repository
create repo name from_branch = if has_branch repo.store name then err value_error else (do
  parent_head ← head repo.store (source_of repo from_branch)
  store ← set_head repo.store name parent_head
  ok (write_current_branch name (record repo { store = store })))

unfoldable pub delete : Repository → String → Result Repository
delete repo name =
    if name == read_current_branch repo
    then err value_error
    else (do store ← delete_branch repo.store name; ok (record repo { store = store }))

-- node.parents[0], where the root has none.
unfoldable pub first_parent : List RevisionId → Result RevisionId
first_parent [] = err value_error
first_parent (p ∷ _) = ok p

-- The loop of `rollback`: `steps` times to the first parent.
unfoldable pub go_back : DagStore → ℕ → RevisionId → Result RevisionId
go_back store zero revision_id = ok revision_id
go_back store (suc steps) revision_id = elim (get_node store revision_id) [
  | err e ↦ err e
  | ok node ↦ elim (first_parent node.parents) [ err e ↦ err e | ok p ↦ go_back store steps p ]
]

unfoldable pub rollback : Repository → String → ℕ → Result Repository
rollback repo name zero = err value_error
rollback repo name (suc steps) = do
  old_head ← head repo.store name
  revision_id ← go_back repo.store (suc steps) old_head
  store ← set_head repo.store name revision_id
  ok (record repo { store = store })
