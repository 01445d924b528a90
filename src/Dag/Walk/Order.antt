-- ===== src/Dag/Walk/Order.antt =====
-- `topological_order` as a whole.
use db_version_control.Prelude.{
  suc, String, true, List, [], string_eq, ◌≡◌, refl, sym, subst, ◌↔◌, inl, inr, arith, contains,
  length, Distinct,
}
use db_version_control.Prelude.Dict.{Dict, has, keys}
use db_version_control.Prelude.Errors.{Error, Result, ok, err}
use db_version_control.Model.Operations.{RevisionId}
use db_version_control.Dag.Store.{DagStore}
use db_version_control.Dag.Store.Session.{reads}
use db_version_control.Dag.Store.Grown.{IsGrown, Grown, rank-lt}
use db_version_control.Dag.Walk.{
  Nodes, Visits, ancestors, visit, visit_each, visit_all, topological_order,
}
use db_version_control.Dag.Walk.Reach.{Reach, Reach-trans, Reach-has}
use db_version_control.Dag.Walk.Ancestors.{IsAncestorSet}
use db_version_control.Dag.Walk.Yields.{Ends, Yields, Yields-bind, ancestors-Yields, IsCacheSound}
use db_version_control.Dag.Walk.Topo.{ParentsFirst, Outcome, visit-Outcome, visit_each-Outcome}
use db_version_control.Dag.Walk.Maximal.{Never}

-- A Python set gives each of its elements when it is iterated over, in an order of its own.
abbrev pub Enumerates : (List RevisionId → List RevisionId) → Type 0
Enumerates set_order =
    (xs : List RevisionId) (a : RevisionId) → contains (set_order xs) a ≡ contains xs a

-- The ancestors of a revision, itself included, each once and after all of its parents.
pub record IsTopological (nodes : Nodes) (r : RevisionId) (order : List RevisionId) : Type 0 where
  pub members : (a : RevisionId) → (contains order a ≡ true) ↔ Reach nodes r a
  pub unique : Distinct order
  pub parents_first : ParentsFirst nodes [] order

module _ (set_order : List RevisionId → List RevisionId) (enumerates : Enumerates set_order)
    (store : DagStore) (grown : Grown [] store.nodes) (r : RevisionId)
    (there : has store.nodes r ≡ true) (all_revs : List RevisionId)
    (is : IsAncestorSet store.nodes r all_revs) where
  finish :
      (o : Result Visits)
      → Outcome store grown (length (keys store.nodes)) (set_order all_revs) ([], []) o
      → (order : List RevisionId) × ((elim o [ ok (visited, order) ↦ ok order | err e ↦ err e ])
          ≡ ok order)
        × IsTopological store.nodes r order
  finish (err e) h = absurd h
  finish (ok (visited, order)) (p, g) = (
    order,
    refl,
    record {
      members = λ a. (
        λ m. elim (g.new_order a m) [
          | inl old ↦ cc
          | inr (b, k, w) ↦ Reach-trans ((is.members b).0 (ground (arith, enumerates all_revs b))) w
        ],
        λ w. g.done a (ground (arith, enumerates all_revs a, (is.members a).1 w)),
      );
      unique = p.unique;
      parents_first = p.parents_first;
    },
  )

  pub visit_all_lem :
      (order : List RevisionId) × (visit_all set_order store all_revs ≡ ok order)
      × IsTopological store.nodes r order
  unfolding visit_all
  visit_all_lem =
      let bound = length (keys store.nodes) in
      finish (visit_each (visit store (suc bound)) (set_order all_revs) ([], [])) (
        visit_each-Outcome store grown bound (visit store (suc bound))
          (visit-Outcome store grown (suc bound) bound (omega arith)) (set_order all_revs) ([], [])
          (λ a m.
            let known =
              Reach-has grown there ((is.members a).0 (ground (arith, enumerates all_revs a))) in
            (rank-lt store.nodes a known, known))
          (record {
            parents_first = tt;
            unique = tt;
            ordered_visited = λ a m. m;
            visited_ordered = λ a m. cc;
          }))

module _ (set_order : List RevisionId → List RevisionId) (enumerates : Enumerates set_order)
    (nodes : Nodes) (heads : Dict String RevisionId) (grown : Grown [] nodes) where
  pub topological_order-Yields :
      (E : Error → Type 0) (r : RevisionId)
      → has nodes r ≡ true
      → Yields nodes heads (IsTopological nodes r) E (topological_order set_order r)
  unfolding topological_order
  topological_order-Yields E r there =
      Yields-bind nodes heads (IsAncestorSet nodes r) (IsTopological nodes r) E (ancestors r)
        (λ all_revs. reads (λ s. visit_all set_order s all_revs))
        (ancestors-Yields nodes heads grown E r there)
        λ all_revs is store g.
          let back = sym g.same_nodes in
          let (order, q, top) =
            visit_all_lem set_order enumerates store (subst (Grown []) back grown) r
              (subst (λ x. has x r ≡ true) back there) all_revs
              (subst (λ x. IsAncestorSet x r all_revs) back is) in
          let read : reads (λ s. visit_all set_order s all_revs) store ≡ ok (order, store) =
            ground arith in
          subst (Ends nodes heads (IsTopological nodes r) E) (sym read)
            (g, subst (λ x. IsTopological x r order) g.same_nodes top)

-- For a revision of a store, and whatever the order in which Python iterates over the set of
-- ancestors, `topological_order` returns every ancestor once, each after all of its parents, and
-- nothing else.
pub topological_order_correct :
    (set_order : List RevisionId → List RevisionId) (store : DagStore) (r : RevisionId)
    → Enumerates set_order
    → IsGrown store
    → IsCacheSound store
    → has store.nodes r ≡ true
    → Ends store.nodes store.heads
        (IsTopological store.nodes r)
        Never
        (topological_order set_order r store)
topological_order_correct set_order store r enumerates g sound there =
    topological_order-Yields set_order enumerates store.nodes store.heads g.grown Never r there
      store sound

-- For a revision of a store, `ancestors` returns the set of the revision and its ancestors, whether
-- the cache holds it or not. Nodes and heads stay as they were, and the cache stays sound.
pub ancestors_correct :
    (store : DagStore) (r : RevisionId)
    → IsGrown store
    → IsCacheSound store
    → has store.nodes r ≡ true
    → Ends store.nodes store.heads (IsAncestorSet store.nodes r) Never (ancestors r store)
ancestors_correct store r g sound there =
    ancestors-Yields store.nodes store.heads g.grown Never r there store sound
