-- ===== src/Dag/Walk/Reach.antt =====
-- Reachability along parent pointers, against which the walks are judged.
use db_version_control.Prelude.{
  ◌<◌, ◌≤◌, true, some, [], string_eq, ◌≡◌, ◌≢◌, refl, arith, contains,
}
use db_version_control.Prelude.Dict.{get, has}
use db_version_control.Model.Operations.{Migration, RevisionId}
use db_version_control.Dag.Store.Grown.{Grown, rank, parent-lt}
use db_version_control.Dag.Walk.{Nodes}

-- `p` is a parent of the node stored under `r`.
pub record Parent (nodes : Nodes) (r p : RevisionId) : Type 0 where
  pub node : Migration
  pub stored : get nodes r ≡ some node
  pub listed : contains node.parents p ≡ true

-- `Reach nodes r a`: `a` is `r` or an ancestor of it.
pub data Reach (nodes : Nodes) : RevisionId → RevisionId → Type 0 where
  here : {r : RevisionId} → Reach nodes r r
  up : {r p a : RevisionId} → Parent nodes r p → Reach nodes p a → Reach nodes r a

pub Reach-trans :
    {nodes : Nodes} {r a b : RevisionId} → Reach nodes r a → Reach nodes a b → Reach nodes r b
Reach-trans here w = w
Reach-trans (up s v) w = up s (Reach-trans v w)

pub Reach-parent :
    {nodes : Nodes} {r a p : RevisionId} → Reach nodes r a → Parent nodes a p → Reach nodes r p
Reach-parent w s = Reach-trans w (up s here)

module _ {nodes : Nodes} (grown : Grown [] nodes) where
  pub Parent-lt :
      {r p : RevisionId} → Parent nodes r p → (rank nodes p < rank nodes r) × (has nodes p ≡ true)
  Parent-lt {r} {p} s = parent-lt nodes r p s.node grown s.stored s.listed

  -- An ancestor was inserted no later.
  pub Reach-rank : {r a : RevisionId} → Reach nodes r a → rank nodes a ≤ rank nodes r
  Reach-rank here = omega arith
  Reach-rank (up s w) = omega (arith, Reach-rank w, (Parent-lt s).0)

  pub Reach-has : {r a : RevisionId} → has nodes r ≡ true → Reach nodes r a → has nodes a ≡ true
  Reach-has h here = h
  Reach-has h (up s w) = Reach-has (Parent-lt s).1 w

  rank-injective_up : {r a : RevisionId} → Reach nodes r a → rank nodes r ≤ rank nodes a → r ≡ a
  rank-injective_up here le = refl
  rank-injective_up (up s w) le = absurd (omega (arith, Reach-rank w, (Parent-lt s).0))

  -- The history has no cycle: two revisions that are ancestors of one another are one.
  pub Reach-antisym : {r a : RevisionId} → Reach nodes r a → Reach nodes a r → r ≡ a
  Reach-antisym v w = rank-injective_up v (Reach-rank w)

  pub Reach-lt : {r a : RevisionId} → Reach nodes r a → r ≢ a → rank nodes a < rank nodes r
  Reach-lt here ne = absurd (ne refl)
  Reach-lt (up s w) ne = omega (arith, Reach-rank w, (Parent-lt s).0)
