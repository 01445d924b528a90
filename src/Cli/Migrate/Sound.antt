-- ===== src/Cli/Migrate/Sound.antt =====
-- The verbs keep a repository sound.
use db_version_control.Prelude.{false, List, [], ◌∷◌, String, ◌≡◌, string_eq}
use db_version_control.Prelude.Errors.{OnOk}
use db_version_control.Model.Operations.{RevisionId, CompoundOperation}
use db_version_control.Dag.Store.{DagStore, append, head, has_node}
use db_version_control.Cli.Branch.{Repository}
use db_version_control.Cli.Migrate.{
  Tools, Verb, create_table, drop_table, add_column, drop_column, rename_column, alter_column_type,
  alter_column_nullability, add_index, drop_index, rename_index, add_foreign_key, drop_constraint,
  operation_of, commit_on_snapshot, migrate, commit, snapshot_of,
}
use db_version_control.Cli.Branch.Sound.{IsSound, bind-OnOk, append-IsSound}

-- The id of a revision is new: a hash with a random part.
abbrev pub NewIds : Tools → DagStore → Type 0
NewIds tools store =
    (parents : List RevisionId) (operations : List CompoundOperation)
    → has_node store (tools.make_revision_id parents operations) ≡ false

module _ (tools : Tools) (repo : Repository) (new : NewIds tools repo.store)
    (s : IsSound repo) where
  pub commit-IsSound :
      (branch : String) (compounds : List CompoundOperation)
      → OnOk IsSound (commit tools repo branch compounds)
  unfolding commit
  commit-IsSound branch compounds = bind-OnOk IsSound (head repo.store branch) _ (λ parent p.
      bind-OnOk IsSound (append repo.store _ branch (parent ∷ []) compounds) _ (λ (n, store') q.
        append-IsSound repo _ branch (parent ∷ []) compounds n store' s
          (new (parent ∷ []) compounds) q))

  commit_on_snapshot-IsSound :
      (verb : Verb) (branch : String) → OnOk IsSound (commit_on_snapshot tools verb repo branch)
  unfolding commit_on_snapshot
  commit_on_snapshot-IsSound verb branch =
      bind-OnOk IsSound (snapshot_of tools repo branch) _ (λ snapshot p.
        bind-OnOk IsSound (operation_of tools verb snapshot) _ (λ op q. commit-IsSound branch _))

  pub migrate-IsSound :
      (verb : Verb) (branch : String) → OnOk IsSound (migrate tools verb repo branch)
  unfolding migrate
  migrate-IsSound (drop_constraint text) branch =
      bind-OnOk IsSound (tools.parse_uuid text) _ (λ id q. commit-IsSound branch _)
  migrate-IsSound (create_table a) branch = commit_on_snapshot-IsSound (create_table a) branch
  migrate-IsSound (drop_table a) branch = commit_on_snapshot-IsSound (drop_table a) branch
  migrate-IsSound (add_column a b c d) branch =
      commit_on_snapshot-IsSound (add_column a b c d) branch
  migrate-IsSound (drop_column a b) branch = commit_on_snapshot-IsSound (drop_column a b) branch
  migrate-IsSound (rename_column a b c) branch =
      commit_on_snapshot-IsSound (rename_column a b c) branch
  migrate-IsSound (alter_column_type a b c) branch =
      commit_on_snapshot-IsSound (alter_column_type a b c) branch
  migrate-IsSound (alter_column_nullability a b c) branch =
      commit_on_snapshot-IsSound (alter_column_nullability a b c) branch
  migrate-IsSound (add_index a b c d) branch = commit_on_snapshot-IsSound (add_index a b c d) branch
  migrate-IsSound (drop_index a b) branch = commit_on_snapshot-IsSound (drop_index a b) branch
  migrate-IsSound (rename_index a b c) branch =
      commit_on_snapshot-IsSound (rename_index a b c) branch
  migrate-IsSound (add_foreign_key a b c) branch =
      commit_on_snapshot-IsSound (add_foreign_key a b c) branch
