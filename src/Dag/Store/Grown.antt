-- ===== src/Dag/Store/Grown.antt =====
-- The shape of every store that the program builds: a node comes after its parents, so the history
-- has no cycle and no dangling parent, and each head names a node.
use db_version_control.Prelude.{
  ℕ, suc, ◌<◌, String, true, false, none, some, List, [], ◌∷◌, ◌++◌, ◌==◌, string_eq, eq_iff, ◌≡◌,
  ◌||◌, refl, sym, subst, ◌⊎◌, inl, inr, arith, if◌then◌else◌, Bool-cases, All, contains, length,
  All-map_of, All-contains, Distinct,
}
use db_version_control.Prelude.Dict.{
  Dict, get, put, remove, has, keys, get-put, get-remove, has-put, put-fresh,
}
use db_version_control.Prelude.Errors.{ok, err, unknown_branch, Gives, Result-cases}
use db_version_control.Model.Operations.{CompoundOperation, Migration, RevisionId}
use db_version_control.Dag.Store.{
  DagStore, empty, has_node, check_parents, append, set_head, delete_branch, has_branch,
}

abbrev pub Nodes : Type 0
Nodes = Dict RevisionId Migration

abbrev pub Grown : List RevisionId → Nodes → Type 0
Grown seen [] = Unit
Grown seen ((k, n) ∷ d) =
    (contains seen k ≡ false)
    × (n.id ≡ k)
    × All (λ p. contains seen p ≡ true) n.parents
    × Grown (k ∷ seen) d

pub record IsGrown (store : DagStore) : Type 0 where
  pub grown : Grown [] store.nodes
  pub heads_known :
      (b : String) (r : RevisionId) → get store.heads b ≡ some r → has_node store r ≡ true

-- The place of a revision in the order of insertion.
unfoldable pub index_of : List RevisionId → RevisionId → ℕ
index_of [] r = 0
index_of (x ∷ xs) r = let rest = index_of xs r in if r == x then 0 else suc rest

abbrev pub rank : Nodes → RevisionId → ℕ
rank d r = index_of (keys d) r

index_of-lt :
    (xs : List RevisionId) (r : RevisionId) → contains xs r ≡ true → index_of xs r < length xs
unfolding index_of
index_of-lt [] r h = cc
index_of-lt (x ∷ xs) r h = ground (arith, index_of-lt xs r)

pub rank-lt : (d : Nodes) (r : RevisionId) → has d r ≡ true → rank d r < length (keys d)
rank-lt d r h = index_of-lt (keys d) r h

module _ (p : RevisionId) where
  parent_before :
      (seen : List RevisionId) (d : Nodes) (r : RevisionId) (n : Migration)
      → Grown seen d
      → get d r ≡ some n
      → contains n.parents p ≡ true
      → (contains seen p ≡ true) ⊎ (rank d p < rank d r) × (has d p ≡ true)
  unfolding get index_of
  parent_before seen [] r n g q m = cc
  parent_before seen ((k, u) ∷ d) r n (_, _, ps, g) q m = elim (Bool-cases (r == k)) [
    | inl e ↦ inl (All-contains (λ p. contains seen p ≡ true) u.parents p ps (ground arith))
    | inr e ↦ elim (parent_before (k ∷ seen) d r n g (ground arith) m) [
      | inl old ↦ ground arith
      | inr (lower, there) ↦ ground arith
    ]
  ]

pub parent-lt :
    (d : Nodes) (r p : RevisionId) (n : Migration)
    → Grown [] d
    → get d r ≡ some n
    → contains n.parents p ≡ true
    → (rank d p < rank d r) × (has d p ≡ true)
parent-lt d r p n g q m = elim (parent_before p [] d r n g q m) [ inl old ↦ cc | inr lower ↦ lower ]

Grown-snoc :
    (seen : List RevisionId) (d : Nodes) (n : Migration)
    → Grown seen d
    → contains seen n.id ≡ false
    → has d n.id ≡ false
    → All (λ p. contains seen p || has d p ≡ true) n.parents
    → Grown seen (d ++ (n.id, n) ∷ [])
Grown-snoc seen [] n g a b ps = (a, refl, All-map_of n.parents (λ p h. ground arith) ps, tt)
Grown-snoc seen ((k, u) ∷ d) n (new, named, qs, g) a b ps = (
  new,
  named,
  qs,
  Grown-snoc (k ∷ seen) d n g (ground (arith, eq_iff n.id k)) (ground arith)
      (All-map_of n.parents (λ p h. ground arith) ps),
)

pub id_of_node :
    (seen : List RevisionId) (d : Nodes) (r : RevisionId) (n : Migration)
    → Grown seen d
    → get d r ≡ some n
    → n.id ≡ r
unfolding get
id_of_node seen [] r n g q = cc
id_of_node seen ((k, u) ∷ d) r n g q = ground (arith, id_of_node (k ∷ seen) d r n g.3, eq_iff r k)

Grown-fresh :
    (seen : List RevisionId) (d : Nodes) (r : RevisionId)
    → Grown seen d
    → has d r ≡ true
    → contains seen r ≡ false
Grown-fresh seen [] r g m = cc
Grown-fresh seen ((k, n) ∷ d) r g m = elim (Bool-cases (r == k)) [
  | inl q ↦ subst (λ x. contains seen x ≡ false) (sym ((eq_iff r k).0 q)) g.0
  | inr q ↦ ground (arith, Grown-fresh (k ∷ seen) d r g.3)
]

-- No revision has two nodes.
pub Grown-Distinct : (seen : List RevisionId) (d : Nodes) → Grown seen d → Distinct (keys d)
Grown-Distinct seen [] g = tt
Grown-Distinct seen ((k, n) ∷ d) g =
    (ground (arith, Grown-fresh (k ∷ seen) d k g.3, eq_iff k k), Grown-Distinct (k ∷ seen) d g.3)

checked :
    (store : DagStore) (ps : List RevisionId)
    → check_parents store ps ≡ ok tt
    → All (λ p. has_node store p ≡ true) ps
unfolding check_parents
checked store [] h = tt
checked store (p ∷ ps) h = elim (Bool-cases (has_node store p)) [
  | inl q ↦ (q, checked store ps (rw q at h))
  | inr q ↦ ground arith
]

IsGrown-empty : IsGrown empty
unfolding get
IsGrown-empty = record { grown = tt; heads_known = λ b r h. cc }

-- What a successful `append` has checked, and the store that it leaves.
pub append_made :
    (store : DagStore) (r : RevisionId) (b : String) (ps : List RevisionId)
    (ops : List CompoundOperation) (n : Migration) (store' : DagStore)
    → append store r b ps ops ≡ ok (n, store')
    → All (λ p. has_node store p ≡ true) ps
      × (n ≡ record { id = r; parents = ps; branch = b; operations = ops })
      × (store' ≡ record store { nodes = put store.nodes r n; heads = put store.heads b r })
unfolding append
append_made store r b ps ops n store' h = elim (Result-cases (check_parents store ps)) [
  | inl (u, q) ↦ (checked store ps q, ground arith, ground arith)
  | inr (e, q) ↦ ground arith
]

heads_known-put :
    (nodes : Nodes) (heads : Dict String RevisionId) (b : String) (r : RevisionId)
    → ((c : String) (s : RevisionId) → get heads c ≡ some s → has nodes s ≡ true)
    → has nodes r ≡ true
    → (c : String) (s : RevisionId) → get (put heads b r) c ≡ some s
    → has nodes s ≡ true
heads_known-put nodes heads b r old new c s h = elim (Bool-cases (c == b)) [
  | inl q ↦
      let e : r ≡ s = ground (arith, get-put heads b c r) in subst (λ x. has nodes x ≡ true) e new
  | inr q ↦ old c s (ground (arith, get-put heads b c r))
]

-- Where `append` succeeds under an id that is not taken yet, the store keeps its shape, whatever the
-- branch, the parents and the operations.
pub append-IsGrown :
    (store : DagStore) (r : RevisionId) (b : String) (ps : List RevisionId)
    (ops : List CompoundOperation) (n : Migration) (store' : DagStore)
    → IsGrown store
    → has_node store r ≡ false
    → append store r b ps ops ≡ ok (n, store')
    → IsGrown store'
append-IsGrown store r b ps ops n store' g new h =
    let (known, made, changed) = append_made store r b ps ops n store' h in
    subst IsGrown (sym changed) (record {
      grown = rw (put-fresh store.nodes r n new) (
          subst (λ x. Grown [] (store.nodes ++ (r, x) ∷ [])) (sym made)
            (Grown-snoc [] store.nodes
              (record { id = r; parents = ps; branch = b; operations = ops }) g.grown refl new
              (All-map_of ps (λ p q. q) known)));
      heads_known =
          heads_known-put (put store.nodes r n) store.heads b r
            (λ c s q. ground (arith, has-put store.nodes r s n, g.heads_known c s q))
            (ground (arith, has-put store.nodes r r n, eq_iff r r));
    })

-- Where `set_head` succeeds, the store keeps its shape.
pub set_head-IsGrown :
    (store : DagStore) (b : String) (r : RevisionId) (store' : DagStore)
    → IsGrown store
    → set_head store b r ≡ ok store'
    → IsGrown store'
unfolding set_head
set_head-IsGrown store b r store' g h = elim (Bool-cases (has_node store r)) [
  | inl q ↦
      let e : record store { heads = put store.heads b r } ≡ store' = ground arith in
      subst IsGrown e (record {
        grown = g.grown;
        heads_known = heads_known-put store.nodes store.heads b r g.heads_known q;
      })
  | inr q ↦ ground arith
]

-- Where `delete_branch` succeeds, the store keeps its shape.
pub delete_branch-IsGrown :
    (store : DagStore) (b : String) (store' : DagStore)
    → IsGrown store
    → delete_branch store b ≡ ok store'
    → IsGrown store'
unfolding delete_branch
delete_branch-IsGrown store b store' g h = elim (Bool-cases (has_branch store b)) [
  | inl q ↦
      let e : record store { heads = remove store.heads b } ≡ store' = ground arith in
      subst IsGrown e (record {
        grown = g.grown;
        heads_known = λ c s p. g.heads_known c s (ground (arith, get-remove store.heads b c));
      })
  | inr q ↦ ground arith
]

-- Deleting a branch of a store with its shape: either the branch is there, and the store that is
-- left has the shape and the same nodes, that branch's head is gone and every other branch's is
-- kept; or it is not, and UnknownBranchError is raised.
pub delete_branch_lem :
    (store : DagStore) (b : String)
    → IsGrown store
    → (has_branch store b ≡ true)
        × Gives
            (λ store'.
              IsGrown store'
              × (store'.nodes ≡ store.nodes)
              × ((c : String) → get store'.heads c ≡ (if c == b then none else get store.heads c)))
            (delete_branch store b)
      ⊎ (has_branch store b ≡ false) × (delete_branch store b ≡ err (unknown_branch b))
unfolding delete_branch
delete_branch_lem store b g = elim (Bool-cases (has_branch store b)) [
  | inl q ↦
      let store' : DagStore = record store { heads = remove store.heads b } in
      let done : delete_branch store b ≡ ok store' = ground arith in
      inl (
        q,
        (
          store',
          done,
          (
            delete_branch-IsGrown store b store' g done,
            refl,
            λ c. ground (arith, get-remove store.heads b c),
          ),
        ),
      )
  | inr q ↦ inr (q, ground arith)
]
