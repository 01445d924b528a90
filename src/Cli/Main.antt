-- ===== src/Cli/Main.antt =====
-- cli/main.py: what each command does to a repository.
pub mod Merged
pub mod Sound
use db_version_control.Prelude.{
  ℕ, String, Bool, true, false, Option, none, some, List, [], ◌∷◌, ◌++◌, Eq, ◌==◌, string_eq,
  if◌then◌else◌, concat_map, map,
}
use db_version_control.Prelude.Dict.{put}
use db_version_control.Prelude.Strings.{strip, split_commas}
use db_version_control.Prelude.Errors.{Result, ok, err, value_error, ◌>>=◌}
use db_version_control.Model.Schema.{Uuid, Snapshot}
use db_version_control.Model.Operations.{Operation, CompoundOperation, RevisionId}
use db_version_control.Dag.Store.{DagStore, empty, append, head, get_node, has_branch}
use db_version_control.Dag.Walk.{topological_order}
use db_version_control.Ddl.Emitter.{emit_ddl}
use db_version_control.Merge.Classify.{ClassifiedGroup}
use db_version_control.Merge.CrossObject.{Texts}
use db_version_control.Merge.Resolve.{HumanConfirmationToken}
use db_version_control.Merge.Engine.{MergeResult, Surroundings, merge}
use db_version_control.Snapshots.Raw.{RawTable}
use db_version_control.Snapshots.Diff.{diff_snapshot}
use db_version_control.Snapshots.ToOperations.{generate_operations}
use db_version_control.Rename.Similarity.{Floats}
use db_version_control.Rename.Detector.{ConfirmFn}
use db_version_control.Cli.Branch.{
  Repository, read_current_branch, write_current_branch, create, delete, rollback,
}
use db_version_control.Cli.Migrate.{
  Tools, Verb, create_table, drop_table, add_column, drop_column, rename_column, alter_column_type,
  alter_column_nullability, add_index, drop_index, rename_index, add_foreign_key, drop_constraint,
  migrate, commit, snapshot_of,
}

-- What the commands call outside: the tools of the verbs, texts, the answers at the terminal, floats,
-- and what parsing a branch's schema file gives.
pub record Terminal : Type 1 where
  pub tools : Tools
  pub texts : Texts
  pub str : ℕ → String
  pub confirm : ℕ → ClassifiedGroup → Result HumanConfirmationToken
  pub floats : Floats
  pub fresh : ℕ → Uuid
  pub confirm_rename : ConfirmFn floats
  pub parsed_schema : String → Result (List RawTable)

-- The arguments of `migrate`, as argparse gives them.
pub data MigrateArgs : Type 0 where
  create_table_args drop_table_args : (table : String) → MigrateArgs
  add_column_args : (table column type : String) (nullable : Bool) → MigrateArgs
  drop_column_args : (table column : String) → MigrateArgs
  rename_column_args : (table old_name new_name : String) → MigrateArgs
  alter_column_type_args : (table column new_type : String) → MigrateArgs
  alter_column_nullability_args : (table column nullable : String) → MigrateArgs
  add_index_args : (table index_name columns : String) (unique : Bool) → MigrateArgs
  drop_index_args : (table index_name : String) → MigrateArgs
  rename_index_args : (table old_name new_name : String) → MigrateArgs
  add_foreign_key_args : (table columns references : String) → MigrateArgs
  drop_constraint_args : (constraint_id : String) → MigrateArgs

-- [c.strip() for c in args.columns.split(",")]
unfoldable pub columns_of : String → List String
columns_of columns = map strip (split_commas columns)

-- The call of a verb that each case makes.
unfoldable pub verb_of : MigrateArgs → Verb
verb_of (create_table_args table) = create_table table
verb_of (drop_table_args table) = drop_table table
verb_of (add_column_args table column type nullable) = add_column table column type nullable
verb_of (drop_column_args table column) = drop_column table column
verb_of (rename_column_args table old_name new_name) = rename_column table old_name new_name
verb_of (alter_column_type_args table column new_type) = alter_column_type table column new_type
verb_of (alter_column_nullability_args table column nullable) =
    alter_column_nullability table column (nullable == "true")
verb_of (add_index_args table index_name columns unique) =
    add_index table index_name (columns_of columns) unique
verb_of (drop_index_args table index_name) = drop_index table index_name
verb_of (rename_index_args table old_name new_name) = rename_index table old_name new_name
verb_of (add_foreign_key_args table columns references) =
    add_foreign_key table (columns_of columns) references
verb_of (drop_constraint_args constraint_id) = drop_constraint constraint_id

-- The parsed command line.
pub data Command : Type 0 where
  init : Command
  branch_create : (name : String) (from_branch : Option String) → Command
  branch_delete : (name : String) → Command
  branch_rollback : (name : String) (steps : ℕ) → Command
  checkout : (branch : String) → Command
  migrate_on : (branch : Option String) → MigrateArgs → Command
  merge_into : (target : Option String) (source : String) → Command
  emit_ddl_of : (branch : Option String) → Command
  sync : (branch : Option String) → Command

-- args.branch or read_current_branch(repo_root)
unfoldable pub branch_or_current : Option String → Repository → String
branch_or_current none repo = read_current_branch repo
branch_or_current (some branch) repo = if branch == "" then read_current_branch repo else branch

-- Checkout: only the current branch changes.
unfoldable pub checkout_run : Repository → String → Result Repository
checkout_run repo branch =
    if has_branch repo.store branch then ok (write_current_branch branch repo) else err value_error

module _ (terminal : Terminal) where
  -- A new store is saved over what is there: the files of old nodes stay, the heads do not.
  unfoldable pub init_run : Repository → Result Repository
  init_run repo = do
    let root_id = terminal.tools.make_revision_id [] []
    (node, store) ← append empty root_id "main" [] []
    ok (
        write_current_branch "main" (record repo {
          store = record {
            nodes = put repo.store.nodes root_id node;
            heads = store.heads;
            ancestor_cache = [];
          };
        }))

  abbrev pub surroundings : Surroundings
  surroundings = record {
    set_order = terminal.tools.set_order;
    texts = terminal.texts;
    make_revision_id = terminal.tools.make_revision_id;
    confirm = terminal.confirm;
  }

  -- What the merge cached is not saved.
  unfoldable pub merge_run : Repository → String → String → Result Repository
  merge_run repo target_branch source_branch = do
    (result, store) ← merge surroundings target_branch source_branch repo.store
    ok (record repo { store = record store { ancestor_cache = [] } })

  -- The operations of a list of revisions, in order.
  unfoldable pub operations_of : DagStore → List RevisionId → Result (List Operation)
  operations_of store [] = ok []
  operations_of store (revision_id ∷ more) = do
    node ← get_node store revision_id
    rest ← operations_of store more
    ok (concat_map (λ (c : CompoundOperation). c.operations) node.operations ++ rest)

  -- The text that emit-ddl prints.
  unfoldable pub emit_ddl_run : Repository → String → Result String
  emit_ddl_run repo branch = do
    revision_id ← head repo.store branch
    (ordered, cached) ← topological_order terminal.tools.set_order revision_id repo.store
    operations ← operations_of repo.store ordered
    (text, tables) ← emit_ddl terminal.str terminal.texts.str operations []
    ok text

  unfoldable pub unless_unchanged :
      List CompoundOperation → Repository → Result Repository → Result Repository
  unless_unchanged [] repo committed = ok repo
  unless_unchanged (c ∷ cs) repo committed = committed

  -- generate-migration, which the command line calls sync.
  unfoldable pub sync_run : Repository → String → Result Repository
  sync_run repo branch = do
    old_snapshot ← snapshot_of terminal.tools repo branch
    new_raw_tables ← terminal.parsed_schema branch
    generated ←
        generate_operations terminal.floats terminal.fresh terminal.confirm_rename
          (diff_snapshot terminal.tools.set_order old_snapshot new_raw_tables)
    unless_unchanged generated repo (commit terminal.tools repo branch generated)

  unfoldable pub dispatch : Command → Repository → Result Repository
  dispatch init repo = init_run repo
  dispatch (branch_create name from_branch) repo = create repo name from_branch
  dispatch (branch_delete name) repo = delete repo name
  dispatch (branch_rollback name steps) repo = rollback repo name steps
  dispatch (checkout branch) repo = checkout_run repo branch
  dispatch (migrate_on branch args) repo =
      migrate terminal.tools (verb_of args) repo (branch_or_current branch repo)
  dispatch (merge_into target source) repo = merge_run repo (branch_or_current target repo) source
  dispatch (emit_ddl_of branch) repo =
      emit_ddl_run repo (branch_or_current branch repo) >>= λ text. ok repo
  dispatch (sync branch) repo = sync_run repo (branch_or_current branch repo)
