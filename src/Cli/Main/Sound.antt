-- ===== src/Cli/Main/Sound.antt =====
-- Every command leaves a repository that the next one can work with.
use db_version_control.Prelude.{
  true, none, some, List, [], ◌∷◌, String, ◌≡◌, refl, sym, subst, inl, inr, Bool-cases, ◌==◌,
  string_eq, arith, beq_refl,
}
use db_version_control.Prelude.Dict.{get, put, has, has-put}
use db_version_control.Prelude.Errors.{Result, OnOk, of_OnOk}
use db_version_control.Model.Operations.{Migration, CompoundOperation}
use db_version_control.Dag.Store.{append, has_branch, check_parents}
use db_version_control.Dag.Store.Grown.{append-IsGrown}
use db_version_control.Prelude.Strings.{strip, read_text}
use db_version_control.Cli.Branch.{Repository, read_current_branch, write_current_branch}
use db_version_control.Cli.Migrate.{snapshot_of}
use db_version_control.Cli.Main.{
  Terminal, Command, init, branch_create, branch_delete, branch_rollback, checkout, migrate_on,
  merge_into, emit_ddl_of, sync, dispatch, surroundings, checkout_run, init_run, merge_run,
  emit_ddl_run, unless_unchanged, sync_run, verb_of,
}
use db_version_control.Cli.Main.Merged.{merge-Merges, IsGrown-same}
use db_version_control.Cli.Migrate.Sound.{NewIds, commit-IsSound, migrate-IsSound}
use db_version_control.Merge.Engine.{merge}
use db_version_control.Snapshots.ToOperations.{generate_operations}
use mathlib.Core.Option.{some-injective}
use db_version_control.Cli.Branch.Sound.{
  IsSound, Plain, bind-OnOk, if-OnOk, create-IsSound, delete-IsSound, rollback-IsSound,
}

checkout_run-IsSound :
    (repo : Repository) (branch : String)
    → Plain branch
    → IsSound repo
    → OnOk IsSound (checkout_run repo branch)
unfolding checkout_run write_current_branch
checkout_run-IsSound repo branch plain s =
    if-OnOk IsSound (has_branch repo.store branch) _ _
      (λ q. record {
        grown = s.grown;
        current_exists = subst (λ c. has_branch repo.store c ≡ true) (sym (plain repo)) q;
      })
      (λ q. tt)

module _ (terminal : Terminal) (repo : Repository) (new : NewIds terminal.tools repo.store)
    (s : IsSound repo) where
  init_run-IsSound : OnOk IsSound (init_run terminal repo)
  unfolding init_run append check_parents get put write_current_branch read_current_branch strip
      read_text
  init_run-IsSound =
      let root_id = terminal.tools.make_revision_id [] [] in
      let root : Migration = record {
        id = root_id;
        parents = [];
        branch = "main";
        operations = [];
      } in
      let appended =
        append-IsGrown repo.store root_id "main" [] [] root _ s.grown (new [] []) refl in
      record {
        grown = record {
          grown = appended.grown;
          heads_known = λ b r q. elim (Bool-cases (b == "main")) [
            | inl t ↦
                let same : some root_id ≡ some r = rw t at q in
                subst (λ x. has (put repo.store.nodes root_id root) x ≡ true)
                  (some-injective _ _ same)
                  (ground (arith, has-put repo.store.nodes root_id root_id root, beq_refl root_id))
            | inr t ↦ let no : none ≡ some r = rw t at q in cc
          ];
        };
        current_exists = refl;
      }

  merge_run-IsSound :
      (target source : String) → OnOk IsSound (merge_run terminal repo target source)
  unfolding merge_run read_current_branch
  merge_run-IsSound target source =
      bind-OnOk IsSound (merge (surroundings terminal) target source repo.store) _
        (λ (result, store') q.
          let grows =
            of_OnOk _ _ (merge-Merges (surroundings terminal) repo.store s.grown new target source)
              q in
          record {
            grown = IsGrown-same (record { same_nodes = refl; same_heads = refl }) grows.grown;
            current_exists = grows.branches (read_current_branch repo) s.current_exists;
          })

  unless_unchanged-IsSound :
      (compounds : List CompoundOperation) (committed : Result Repository)
      → OnOk IsSound committed
      → OnOk IsSound (unless_unchanged terminal compounds repo committed)
  unfolding unless_unchanged
  unless_unchanged-IsSound [] committed h = s
  unless_unchanged-IsSound (c ∷ cs) committed h = h

  sync_run-IsSound : (branch : String) → OnOk IsSound (sync_run terminal repo branch)
  unfolding sync_run
  sync_run-IsSound branch =
      bind-OnOk IsSound (snapshot_of terminal.tools repo branch) _ (λ old_snapshot p.
        bind-OnOk IsSound (terminal.parsed_schema branch) _ (λ new_raw_tables q.
          bind-OnOk IsSound
            (generate_operations terminal.floats terminal.fresh terminal.confirm_rename _) _
            (λ generated r.
              unless_unchanged-IsSound generated _
                (commit-IsSound terminal.tools repo new s branch generated))))

-- The branch that the command checks out, if it does, has a name that HEAD gives back.
abbrev pub ChecksOutPlain : Command → Type 0
ChecksOutPlain (branch_create name _) = Plain name
ChecksOutPlain (checkout branch) = Plain branch
ChecksOutPlain _ = Unit

-- Any command, with any answers at the terminal: if it succeeds in a repository whose store has its
-- shape and whose current branch exists, the ids of new revisions are not taken, and the name of a
-- branch that it creates or checks out is read back from the file HEAD as it was written, then the
-- repository that it leaves is of that kind again.
pub dispatch-IsSound :
    (terminal : Terminal) (command : Command) (repo : Repository)
    → NewIds terminal.tools repo.store
    → ChecksOutPlain command
    → IsSound repo
    → OnOk IsSound (dispatch terminal command repo)
unfolding dispatch
dispatch-IsSound terminal init repo new plain s = init_run-IsSound terminal repo new s
dispatch-IsSound terminal (branch_create name from_branch) repo new plain s =
    create-IsSound repo name from_branch plain s
dispatch-IsSound terminal (branch_delete name) repo new plain s = delete-IsSound repo name s
dispatch-IsSound terminal (branch_rollback name steps) repo new plain s =
    rollback-IsSound repo name steps s
dispatch-IsSound terminal (checkout branch) repo new plain s =
    checkout_run-IsSound repo branch plain s
dispatch-IsSound terminal (migrate_on branch args) repo new plain s =
    migrate-IsSound terminal.tools repo new s (verb_of args) _
dispatch-IsSound terminal (merge_into target source) repo new plain s =
    merge_run-IsSound terminal repo new s _ source
dispatch-IsSound terminal (emit_ddl_of branch) repo new plain s =
    bind-OnOk IsSound (emit_ddl_run terminal repo _) _ (λ text q. s)
dispatch-IsSound terminal (sync branch) repo new plain s = sync_run-IsSound terminal repo new s _
