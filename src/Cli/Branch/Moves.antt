-- ===== src/Cli/Branch/Moves.antt =====
-- Where a rollback leaves the head.
use db_version_control.Prelude.{
  ℕ, zero, suc, ◌≤◌, String, some, List, [], ◌∷◌, string_eq, ◌≡◌, ◌≢◌, sym, ap, ◌∙◌, subst, inl,
  inr, arith, Bool-cases, Option-cases,
}
use db_version_control.Prelude.Dict.{get, put}
use db_version_control.Prelude.Errors.{Error, ok, err, Result-cases}
use db_version_control.Model.Operations.{Migration, RevisionId}
use db_version_control.Dag.Store.{DagStore, get_node, head, set_head, has_node}
use db_version_control.Cli.Branch.{Repository, first_parent, go_back, rollback}

-- `new` is found from `old` by `steps` first parents.
pub data FirstParents (store : DagStore) : ℕ → RevisionId → RevisionId → Type 0 where
  stay : {r : RevisionId} → FirstParents store 0 r r
  back :
      {steps : ℕ} {r p new : RevisionId} (node : Migration) (more : List RevisionId)
      → get store.nodes r ≡ some node
      → node.parents ≡ p ∷ more
      → FirstParents store steps p new
      → FirstParents store (suc steps) r new

head-found :
    (store : DagStore) (name : String) (r : RevisionId)
    → head store name ≡ ok r
    → get store.heads name ≡ some r
unfolding head
head-found store name r h = elim (Option-cases (get store.heads name)) [
  | inl q ↦ ground arith
  | inr (m, q) ↦ ground arith
]

set_head-made :
    (store store' : DagStore) (name : String) (r : RevisionId)
    → set_head store name r ≡ ok store'
    → store' ≡ record store { heads = put store.heads name r }
unfolding set_head
set_head-made store store' name r h = elim (Bool-cases (has_node store r)) [
  | inl q ↦ ground arith
  | inr q ↦ ground arith
]

get_node-found :
    (store : DagStore) (r : RevisionId) (n : Migration)
    → get_node store r ≡ ok n
    → get store.nodes r ≡ some n
unfolding get_node
get_node-found store r n h = elim (Option-cases (get store.nodes r)) [
  | inl q ↦ ground arith
  | inr (m, q) ↦ ground arith
]

first_parent-found :
    (ps : List RevisionId) (p : RevisionId)
    → first_parent ps ≡ ok p
    → (more : List RevisionId) × (ps ≡ p ∷ more)
unfolding first_parent
first_parent-found [] p h = cc
first_parent-found (q ∷ more) p h = (more, ground arith)

err-ne-ok : (e : Error) (r : RevisionId) → err e ≢ ok r
err-ne-ok e r p = cc

go_back-FirstParents :
    (store : DagStore) (steps : ℕ) (old new : RevisionId)
    → go_back store steps old ≡ ok new
    → FirstParents store steps old new
unfolding go_back
go_back-FirstParents store zero old new h =
    let e : old ≡ new = ground arith in subst (FirstParents store 0 old) e stay
go_back-FirstParents store (suc steps) old new h = elim (Result-cases (get_node store old)) [
  | inr (e, q) ↦ absurd (err-ne-ok e new (rw (q, go_back) at h))
  | inl (node, q) ↦ elim (Result-cases (first_parent node.parents)) [
    | inr (e, p) ↦ absurd (err-ne-ok e new (rw (q, p, go_back) at h))
    | inl (r, p) ↦
        let (more, listed) = first_parent-found node.parents r p in
        back node more (get_node-found store old node q) listed
          (go_back-FirstParents store steps r new (rw (q, p, go_back) at h))
  ]
]

ok_injective : {a b : Repository} → ok a ≡ ok b → a ≡ b
ok_injective h = cc

-- Where rolling a branch back by a number of steps succeeds, the number is at least one, the
-- branch's head has moved by that many first parents, and the nodes, the other heads and the
-- branch that is checked out are as before.
pub rollback-FirstParents :
    (repo repo' : Repository) (name : String) (steps : ℕ)
    → rollback repo name steps ≡ ok repo'
    → (1 ≤ steps)
      × ((old new : RevisionId) × (get repo.store.heads name ≡ some old)
          × FirstParents repo.store steps old new
          × (repo' ≡ record repo {
            store = record repo.store { heads = put repo.store.heads name new };
          }))
unfolding rollback
rollback-FirstParents repo repo' name zero h = cc
rollback-FirstParents repo repo' name (suc steps) h = elim (Result-cases (head repo.store name)) [
  | inr (e, q) ↦ ground arith
  | inl (old, q) ↦ elim (Result-cases (go_back repo.store (suc steps) old)) [
    | inr (e, p) ↦ ground arith
    | inl (new, p) ↦ elim (Result-cases (set_head repo.store name new)) [
      | inr (e, s) ↦ ground arith
      | inl (store', s) ↦ (
        omega arith,
        (
          old,
          new,
          head-found repo.store name old q,
          go_back-FirstParents repo.store (suc steps) old new p,
          sym (ok_injective (rw (q, p, s, rollback) at h))
              ∙ ap (λ (x : DagStore). record repo { store = x })
                  (set_head-made repo.store store' name new s),
        ),
      )
    ]
  ]
]
