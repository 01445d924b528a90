-- ===== src/Dag/Walk/Yields.antt =====
-- Total correctness of code that runs against one store: on a store with these nodes and heads and
-- a cache that tells the truth, it ends with a value of which `P` holds or an error of which `E`
-- holds. The nodes and the heads are the same afterwards.
use db_version_control.Prelude.{
  String, Bool, true, false, some, List, [], ◌==◌, string_eq, eq_iff, ◌≡◌, refl, sym, subst, inl,
  inr, arith, if◌then◌else◌, Bool-cases, Option-cases,
}
use db_version_control.Prelude.Dict.{Dict, get, has, get-put}
use db_version_control.Prelude.Errors.{Error, Result, ok, err}
use db_version_control.Model.Operations.{Migration, RevisionId}
use db_version_control.Dag.Store.{DagStore, cached_ancestors, cache_ancestors, get_node}
use db_version_control.Dag.Store.Session.{Session, pure, raise, reads, next, ◌>>=◌}
use db_version_control.Dag.Store.Grown.{Grown}
use db_version_control.Dag.Walk.{Nodes, ancestors}
use db_version_control.Dag.Walk.Ancestors.{get_node-eq, IsAncestorSet, ancestors_loop_lem}

pub record Good (nodes : Nodes) (heads : Dict String RevisionId) (store : DagStore) : Type 0 where
  pub same_nodes : store.nodes ≡ nodes
  pub same_heads : store.heads ≡ heads
  pub cached :
      (r : RevisionId) (s : List RevisionId)
      → get store.ancestor_cache r ≡ some s
      → IsAncestorSet nodes r s

-- A cached ancestor set is one.
abbrev pub IsCacheSound : DagStore → Type 0
IsCacheSound store = Good store.nodes store.heads store

module _ (nodes : Nodes) (heads : Dict String RevisionId) where
  abbrev pub Ends {ℓ} :
      {A : Type ℓ} → (A → Type ℓ) → (Error → Type ℓ) → Result (A × DagStore) → Type ℓ
  Ends P E (ok (a, store)) = Good nodes heads store × P a
  Ends P E (err e) = E e

  abbrev pub Yields {ℓ} : {A : Type ℓ} → (A → Type ℓ) → (Error → Type ℓ) → Session A → Type ℓ
  Yields P E m = (store : DagStore) → Good nodes heads store → Ends P E (m store)

  next-Ends :
      {A B : Type 0} (P : A → Type 0) (Q : B → Type 0) (E : Error → Type 0)
      (r : Result (A × DagStore)) (f : A → Session B)
      → Ends P E r
      → ((a : A) → P a → Yields Q E (f a))
      → Ends Q E (next r f)
  next-Ends P Q E (ok (a, store)) f (g, p) rest = rest a p store g
  next-Ends P Q E (err e) f h rest = h

  pub Yields-bind :
      {A B : Type 0} (P : A → Type 0) (Q : B → Type 0) (E : Error → Type 0) (m : Session A)
      (f : A → Session B)
      → Yields P E m
      → ((a : A) → P a → Yields Q E (f a))
      → Yields Q E (m >>= f)
  Yields-bind P Q E m f first rest store g = next-Ends P Q E (m store) f (first store g) rest

  pub Yields-pure :
      {A : Type 0} (P : A → Type 0) (E : Error → Type 0) (a : A) → P a → Yields P E (pure a)
  Yields-pure P E a p store g = (g, p)

  pub Yields-raise :
      {A : Type 0} (P : A → Type 0) (E : Error → Type 0) (e : Error) → E e → Yields P E (raise e)
  Yields-raise P E e h store g = h

  pub Yields-if :
      {A : Type 0} (P : A → Type 0) (E : Error → Type 0) (b : Bool) (m n : Session A)
      → (b ≡ true → Yields P E m)
      → (b ≡ false → Yields P E n)
      → Yields P E (if b then m else n)
  Yields-if P E true m n h k = h refl
  Yields-if P E false m n h k = k refl

  Ends-weaken :
      {A : Type 0} (P Q : A → Type 0) (E F : Error → Type 0) (r : Result (A × DagStore))
      → ((a : A) → P a → Q a)
      → ((e : Error) → E e → F e)
      → Ends P E r
      → Ends Q F r
  Ends-weaken P Q E F (ok (a, store)) f k (g, p) = (g, f a p)
  Ends-weaken P Q E F (err e) f k h = k e h

  pub Yields-weaken :
      {A : Type 0} (P Q : A → Type 0) (E F : Error → Type 0) (m : Session A)
      → ((a : A) → P a → Q a)
      → ((e : Error) → E e → F e)
      → Yields P E m
      → Yields Q F m
  Yields-weaken P Q E F m f k h store g = Ends-weaken P Q E F (m store) f k (h store g)

  pub Yields-get_node :
      (P : Migration → Type 0) (E : Error → Type 0) (r : RevisionId) (n : Migration)
      → get nodes r ≡ some n
      → P n
      → Yields P E (reads (λ s. get_node s r))
  Yields-get_node P E r n q p store g =
      let e : get store.nodes r ≡ some n = subst (λ x. get x r ≡ some n) (sym g.same_nodes) q in
      let read : reads (λ s. get_node s r) store ≡ ok (n, store) =
        ground (arith, get_node-eq store r n e) in
      subst (Ends P E) (sym read) (g, p)

  module _ (grown : Grown [] nodes) where
    cache-Good :
        (store : DagStore) (r : RevisionId) (s : List RevisionId)
        → Good nodes heads store
        → IsAncestorSet nodes r s
        → Good nodes heads (cache_ancestors store r s)
    unfolding cache_ancestors
    cache-Good store r s g is = record {
      same_nodes = g.same_nodes;
      same_heads = g.same_heads;
      cached = λ q t h. elim (Bool-cases (q == r)) [
        | inl e ↦
            let same : s ≡ t = ground (arith, get-put store.ancestor_cache r q s) in
            subst (λ x. IsAncestorSet nodes x t) (sym ((eq_iff q r).0 e))
              (subst (IsAncestorSet nodes r) same is)
        | inr e ↦ g.cached q t (ground (arith, get-put store.ancestor_cache r q s))
      ];
    }

    -- Whether the cache answers or the loop runs, `ancestors` returns the set of ancestors.
    pub ancestors-Yields :
        (E : Error → Type 0) (r : RevisionId)
        → has nodes r ≡ true
        → Yields (IsAncestorSet nodes r) E (ancestors r)
    unfolding ancestors cached_ancestors
    ancestors-Yields E r there store g = elim (Option-cases (get store.ancestor_cache r)) [
      | inr (s, q) ↦ rw (q, ancestors) (g, g.cached r s q)
      | inl q ↦
          let (s, p, is) =
            ancestors_loop_lem store (subst (Grown []) (sym g.same_nodes) grown) r
              (subst (λ x. has x r ≡ true) (sym g.same_nodes) there) in
          let is' : IsAncestorSet nodes r s = subst (λ x. IsAncestorSet x r s) g.same_nodes is in
          rw (q, ancestors) (rw (p, ancestors) (cache-Good store r s g is', is'))
    ]
