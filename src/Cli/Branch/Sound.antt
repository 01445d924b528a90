-- ===== src/Cli/Branch/Sound.antt =====
-- A repository that the next command can work with, and the branch commands that keep it one.
use db_version_control.Prelude.{
  ℕ, zero, suc, Bool, true, false, Option, List, String, ◌≡◌, refl, sym, ap, subst, inl, inr,
  if◌then◌else◌, Bool-cases, ◌==◌, string_eq, eq_iff, arith, beq_refl, ◌||◌,
}
use db_version_control.Prelude.Dict.{Dict, put, has, remove, has-put, has-remove}
use db_version_control.Prelude.Errors.{Result, ok, err, OnOk, ◌>>=◌}
use db_version_control.Model.Operations.{RevisionId, Migration, CompoundOperation}
use db_version_control.Dag.Store.{
  DagStore, append, set_head, head, has_node, has_branch, delete_branch,
}
use db_version_control.Dag.Store.Grown.{
  IsGrown, append_made, append-IsGrown, set_head-IsGrown, delete_branch-IsGrown,
}
use db_version_control.Cli.Branch.{
  Repository, read_current_branch, write_current_branch, create, delete, rollback, go_back,
}

-- The store has its shape, no branch has two heads, and the branch that is checked out exists.
pub record IsSound (repo : Repository) : Type 0 where
  pub grown : IsGrown repo.store
  pub current_exists : has_branch repo.store (read_current_branch repo) ≡ true

module _ {A B : Type 0} where
  -- What holds after the second step holds after both.
  pub bind-OnOk :
      (P : B → Type 0) (r : Result A) (go : A → Result B)
      → ((a : A) → r ≡ ok a → OnOk P (go a))
      → OnOk P (r >>= go)
  bind-OnOk P (ok a) go h = h a refl
  bind-OnOk P (err e) go h = tt

pub if-OnOk :
    {A : Type 0} (P : A → Type 0) (b : Bool) (r t : Result A)
    → (b ≡ true → OnOk P r)
    → (b ≡ false → OnOk P t)
    → OnOk P (if b then r else t)
if-OnOk P true r t h k = h refl
if-OnOk P false r t h k = k refl

pub set_head_made :
    (store : DagStore) (b : String) (r : RevisionId) (store' : DagStore)
    → set_head store b r ≡ ok store'
    → store'.heads ≡ put store.heads b r
unfolding set_head
set_head_made store b r store' h = elim (Bool-cases (has_node store r)) [
  | inl q ↦
      let e : record store { heads = put store.heads b r } ≡ store' = ground arith in
      sym (ap (λ (s : DagStore). s.heads) e)
  | inr q ↦ ground arith
]

-- A store whose heads are those of another and one more.
pub head_added :
    (heads heads' : Dict String RevisionId) (b c : String) (r : RevisionId)
    → heads' ≡ put heads b r
    → has heads c || c == b ≡ true
    → has heads' c ≡ true
head_added heads heads' b c r q h =
    subst (λ x. has x c ≡ true) (sym q) (ground (arith, has-put heads b c r))

deleted_heads :
    (store : DagStore) (b : String) (store' : DagStore)
    → delete_branch store b ≡ ok store'
    → store'.heads ≡ remove store.heads b
unfolding delete_branch
deleted_heads store b store' h = elim (Bool-cases (has_branch store b)) [
  | inl q ↦
      let e : record store { heads = remove store.heads b } ≡ store' = ground arith in
      sym (ap (λ (s : DagStore). s.heads) e)
  | inr q ↦ ground arith
]

-- A name that is read back from the file HEAD as it was written.
abbrev pub Plain : String → Type 0
Plain name = (repo : Repository) → read_current_branch (write_current_branch name repo) ≡ name

set_head-current :
    (repo : Repository) (b : String) (r : RevisionId) (store' : DagStore) (current : String)
    → has_branch repo.store current || current == b ≡ true
    → set_head repo.store b r ≡ ok store'
    → has_branch store' current ≡ true
set_head-current repo b r store' current which h =
    head_added repo.store.heads store'.heads b current r (set_head_made repo.store b r store' h)
      which

pub create-IsSound :
    (repo : Repository) (name : String) (from_branch : Option String)
    → Plain name
    → IsSound repo
    → OnOk IsSound (create repo name from_branch)
unfolding create write_current_branch
create-IsSound repo name from_branch plain s =
    if-OnOk IsSound (has_branch repo.store name) _ _ (λ q. tt)
      (λ q. bind-OnOk IsSound (head repo.store _) _ (λ parent_head p.
        bind-OnOk IsSound (set_head repo.store name parent_head) _ (λ store' r. record {
          grown = set_head-IsGrown repo.store name parent_head store' s.grown r;
          current_exists =
              subst (λ c. has_branch store' c ≡ true) (sym (plain (record repo { store = store' })))
                (set_head-current repo name parent_head store' name (ground (arith, beq_refl name))
                  r);
        })))

pub delete-IsSound :
    (repo : Repository) (name : String) → IsSound repo → OnOk IsSound (delete repo name)
unfolding delete delete_branch read_current_branch
delete-IsSound repo name s =
    if-OnOk IsSound (name == read_current_branch repo) _ _ (λ q. tt)
      (λ q. bind-OnOk IsSound (delete_branch repo.store name) _ (λ store' r.
        let removed : store'.heads ≡ remove repo.store.heads name =
          deleted_heads repo.store name store' r in
        record {
          grown = delete_branch-IsGrown repo.store name store' s.grown r;
          current_exists =
              subst (λ x. has x (read_current_branch repo) ≡ true) (sym removed)
                (ground (
                  arith,
                  has-remove repo.store.heads name (read_current_branch repo),
                  s.current_exists,
                  eq_iff name (read_current_branch repo),
                  eq_iff (read_current_branch repo) name,
                ));
        }))

pub rollback-IsSound :
    (repo : Repository) (name : String) (steps : ℕ)
    → IsSound repo
    → OnOk IsSound (rollback repo name steps)
unfolding rollback read_current_branch
rollback-IsSound repo name zero s = tt
rollback-IsSound repo name (suc steps) s = bind-OnOk IsSound (head repo.store name) _ (λ old_head p.
    bind-OnOk IsSound (go_back repo.store (suc steps) old_head) _ (λ r q.
      bind-OnOk IsSound (set_head repo.store name r) _ (λ store' h. record {
        grown = set_head-IsGrown repo.store name r store' s.grown h;
        current_exists =
            set_head-current repo name r store' (read_current_branch repo)
              (ground (arith, s.current_exists)) h;
      })))

pub append-IsSound :
    (repo : Repository) (r : RevisionId) (branch : String) (parents : List RevisionId)
    (operations : List CompoundOperation) (n : Migration) (store' : DagStore)
    → IsSound repo
    → has_node repo.store r ≡ false
    → append repo.store r branch parents operations ≡ ok (n, store')
    → IsSound (record repo { store = store' })
unfolding read_current_branch
append-IsSound repo r branch parents operations n store' s new h =
    let (known, made, changed) = append_made repo.store r branch parents operations n store' h in
    record {
      grown = append-IsGrown repo.store r branch parents operations n store' s.grown new h;
      current_exists =
          head_added repo.store.heads store'.heads branch (read_current_branch repo) r
            (ap (λ (x : DagStore). x.heads) changed) (ground (arith, s.current_exists));
    }
