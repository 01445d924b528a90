-- ===== src/Tests/Samples.antt =====
-- A small repository: a table of users, and two branches that edit it.
use db_version_control.Prelude.{
  String, true, false, none, some, List, [], ◌∷◌, ◌==◌, string_eq, nat_eq, ◌≡◌, refl, ◌≢◌, subst,
  arith, inl, inr, Bool-cases,
}
use db_version_control.Prelude.Dict.{get}
use db_version_control.Model.Schema.{TypeSpec, Column, Table}
use db_version_control.Model.Operations.{
  Operation, create_table, rename_column, alter_column_type, CompoundOperation, Migration,
  RevisionId,
}
use db_version_control.Dag.Apply.{Tables}
use db_version_control.Dag.Apply.Invariant.{IsWellFormed}
use db_version_control.Dag.Store.{DagStore, has_node}
use db_version_control.Dag.Store.Grown.{IsGrown}
use db_version_control.Dag.Walk.Yields.{IsCacheSound}

abbrev pub text_type : TypeSpec
text_type = record { name = "text"; params = [] }

abbrev pub email : Column
email = record {
  id = 11;
  name = "email";
  type = text_type;
  nullable = false;
  default = none;
  position = 0;
}

abbrev pub users : Table
users = record { id = 1; name = "users"; columns = email ∷ []; indexes = []; constraints = [] }

abbrev pub one_table : Tables
one_table = (1, users) ∷ []

pub one_table-IsWellFormed : IsWellFormed one_table
one_table-IsWellFormed = record {
  keyed = (refl, tt);
  distinct = (refl, tt);
  unique = λ d. ground arith;
}

abbrev pub rename : Operation
rename = rename_column 11 "email" "mail"

abbrev pub retype : Operation
retype = alter_column_type 11 text_type (record { name = "varchar"; params = 80 ∷ [] })

abbrev pub compound : List Operation → List CompoundOperation
compound ops = record { operations = ops } ∷ []

abbrev pub node : RevisionId → List RevisionId → String → List Operation → Migration
node r parents branch ops = record {
  id = r;
  parents = parents;
  branch = branch;
  operations = compound ops;
}

abbrev pub root : Migration
root = node "r0" [] "main" (create_table users ∷ [])

abbrev pub renamed : Migration
renamed = node "r1" ("r0" ∷ []) "main" (rename ∷ [])

abbrev pub retyped : Migration
retyped = node "r2" ("r0" ∷ []) "feature" (retype ∷ [])

-- main stands at r1 and feature at r2, both children of r0, where release was left.
abbrev pub forked : DagStore
forked = record {
  nodes = ("r0", root) ∷ ("r1", renamed) ∷ ("r2", retyped) ∷ [];
  heads = ("main", "r1") ∷ ("feature", "r2") ∷ ("release", "r0") ∷ [];
  ancestor_cache = [];
}

none-some : (r : RevisionId) → none ≢ some r
none-some r h = cc

stored : (r s : RevisionId) → some s ≡ some r → has_node forked s ≡ true → has_node forked r ≡ true
stored r s e h = let same : s ≡ r = ground arith in subst (λ x. has_node forked x ≡ true) same h

pub forked-IsGrown : IsGrown forked
unfolding get
forked-IsGrown = record {
  grown = (refl, refl, tt, (refl, refl, (refl, tt), (refl, refl, (refl, tt), tt)));
  heads_known = λ b r h. elim (Bool-cases (b == "main")) [
    | inl p ↦ stored r "r1" (rw p at h) refl
    | inr p ↦ elim (Bool-cases (b == "feature")) [
      | inl q ↦ stored r "r2" (rw (p, q) at h) refl
      | inr q ↦ elim (Bool-cases (b == "release")) [
        | inl s ↦ stored r "r0" (rw (p, q, s) at h) refl
        | inr s ↦ absurd (none-some r (rw (p, q, s) at h))
      ]
    ]
  ];
}

pub forked-IsCacheSound : IsCacheSound forked
unfolding get
forked-IsCacheSound = record { same_nodes = refl; same_heads = refl; cached = λ r s h. cc }
