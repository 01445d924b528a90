-- ===== src/Tests/Commands.antt =====
-- Commands on the forked repository.
use db_version_control.Prelude.{◌+◌, none, some, [], ◌∷◌, ◌≡◌, refl, string_eq}
use db_version_control.Prelude.Dict.{get, put}
use db_version_control.Prelude.Errors.{ok, err, value_error, OnOk}
use db_version_control.Dag.Store.{append, check_parents, head, set_head}
use db_version_control.Prelude.Strings.{strip, read_text, split_commas}
use db_version_control.Cli.Branch.{
  Repository, read_current_branch, write_current_branch, source_of, create,
}
use db_version_control.Cli.Branch.Sound.{IsSound, Plain}
use db_version_control.Cli.Migrate.{Tools}
use db_version_control.Cli.Main.{Terminal, init, branch_create, columns_of, dispatch, init_run}
use db_version_control.Cli.Main.Sound.{dispatch-IsSound}
use db_version_control.Tests.Samples.{forked, retyped, forked-IsGrown, text_type}
use db_version_control.Tests.Renames.{fixed_point, agree}

abbrev tools : Tools
tools = record {
  set_order = λ xs. xs;
  new_id = 90;
  make_revision_id = λ parents operations. "r9";
  parse_type_spec = λ text. ok text_type;
  parse_uuid = λ text. err value_error;
}

abbrev terminal : Terminal
terminal = record {
  tools = tools;
  texts = record { str = λ id. "id"; repr = λ text. text; uuid_order = λ s. s };
  str = λ n. "80";
  confirm = λ n group. err value_error;
  floats = fixed_point;
  fresh = λ n. n + 20;
  confirm_rename = agree;
  parsed_schema = λ branch. ok [];
}

abbrev repository : Repository
repository = record { store = forked; head_file = "main\n" }

fix-Plain : Plain "fix"
unfolding read_current_branch write_current_branch strip read_text
fix-Plain repo = refl

-- A name is stripped when it is read back, so that the branch it names is another one, if any.
stripped : read_current_branch (write_current_branch " fix " repository) ≡ "fix"
unfolding read_current_branch write_current_branch strip read_text
stripped = refl

dispatch-IsSound_example : OnOk IsSound (dispatch terminal (branch_create "fix" none) repository)
unfolding read_current_branch strip read_text
dispatch-IsSound_example =
    dispatch-IsSound terminal (branch_create "fix" none) repository (λ parents operations. refl)
      fix-Plain (record { grown = forked-IsGrown; current_exists = refl })

columns_example : columns_of "id, name" ≡ "id" ∷ "name" ∷ []
unfolding columns_of split_commas strip
columns_example = refl

-- A branch is made from the one that is checked out, and is checked out itself.
branched :
    dispatch terminal (branch_create "fix" none) repository
    ≡ ok (record {
      store = record forked { heads = put forked.heads "fix" "r1" };
      head_file = "fix\n";
    })
unfolding dispatch create source_of read_current_branch write_current_branch strip read_text head
    set_head get put
branched = refl

-- Another init keeps the nodes and loses the branches.
initialised :
    (repo : Repository) × (dispatch terminal init repository ≡ ok repo)
    × (get repo.store.heads "feature" ≡ none)
    × (get repo.store.nodes "r2" ≡ some retyped)
unfolding dispatch init_run write_current_branch append check_parents get put
initialised = (_, refl, refl, refl)
