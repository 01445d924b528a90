-- ===== src/Ddl/Toposort/Acyclic.antt =====
-- The order that the edges of a batch ask for has no cycle.
use db_version_control.Prelude.{
  ℕ, zero, suc, ◌<◌, none, some, List, [], ◌∷◌, ◌≡◌, refl, subst, arith, get_elem?, All,
}
use db_version_control.Model.Operations.{Operation}
use db_version_control.Ddl.Toposort.{DependencyEdge, build_dependency_edges}
use db_version_control.Ddl.Toposort.Ranked.{IsRanked, rank_of, build_dependency_edges-IsRanked}

All-get_elem? :
    {A : Type 0} (P : A → Type 0) (xs : List A) (k : ℕ) (a : A)
    → All P xs
    → get_elem? xs k ≡ some a
    → P a
All-get_elem? P [] k a h q = cc
All-get_elem? P (x ∷ xs) zero a h q = let e : x ≡ a = ground arith in subst P e h.0
All-get_elem? P (x ∷ xs) (suc k) a h q = All-get_elem? P xs k a h.1 q

-- `j` must come after `i`, by one edge or by several.
pub data Precedes (edges : List DependencyEdge) : ℕ → ℕ → Type 0 where
  direct :
      {i j : ℕ} (k : ℕ)
      → get_elem? edges k ≡ some (record { before = i; after = j })
      → Precedes edges i j
  further : {i j l : ℕ} → Precedes edges i j → Precedes edges j l → Precedes edges i l

abbrev pub rank_at : List Operation → ℕ → ℕ
rank_at operations i = elim (get_elem? operations i) [ none ↦ 0 | some op ↦ rank_of op ]

pub rank_at-eq :
    (operations : List Operation) (i : ℕ) (op : Operation)
    → get_elem? operations i ≡ some op
    → rank_at operations i ≡ rank_of op
rank_at-eq operations i op q = rw (q, rank_at) refl

Precedes-rank :
    (operations : List Operation) (i j : ℕ)
    → Precedes (build_dependency_edges operations) i j
    → rank_at operations i < rank_at operations j
Precedes-rank operations i j (direct k q) =
    let is =
      All-get_elem? (IsRanked operations) (build_dependency_edges operations) k _
        (build_dependency_edges-IsRanked operations) q in
    omega (
      arith,
      rank_at-eq operations i is.first is.first_at,
      rank_at-eq operations j is.second is.second_at,
      is.grows,
    )
Precedes-rank operations i l (further {j = j} v w) =
    omega (arith, Precedes-rank operations i j v, Precedes-rank operations j l w)

-- The edges of `build_dependency_edges` form no cycle, for every batch of operations.
pub build_dependency_edges_acyclic :
    (operations : List Operation) (i : ℕ) → ¬ Precedes (build_dependency_edges operations) i i
build_dependency_edges_acyclic operations i w = omega (arith, Precedes-rank operations i i w)
