-- ===== src/Dag/Persistence/Sorted.antt =====
-- `_topologically_sorted` of the dict that was read, against the visits of Dag.Walk.
use db_version_control.Prelude.{
  ℕ, zero, suc, ◌≤◌, ◌≡◌, refl, sym, ap, ◌∙◌, true, false, some, List, [], ◌∷◌, ◌++◌, string_eq,
  arith, contains, Bool-cases, inl, inr, subst, Option-cases, length, length-le,
}
use db_version_control.Prelude.Dict.{get, keys, has, has_of_get, get_of_has}
use db_version_control.Prelude.Errors.{
  unknown_revision, Result, ok, err, Result-cases, Gives, bind-Gives,
}
use db_version_control.Model.Operations.{Migration, RevisionId}
use db_version_control.Dag.Store.{DagStore, get_node}
use db_version_control.Dag.Store.Grown.{Grown, Nodes, rank-lt, Grown-Distinct}
use db_version_control.Dag.Walk.{Visits, visit_each, close, visit}
use db_version_control.Dag.Walk.Reach.{Reach-has}
use db_version_control.Dag.Walk.Ancestors.{get_node-eq}
use db_version_control.Dag.Walk.Topo.{
  ParentsFirst, Pre, Grew, Outcome, visit_each-Outcome, visit-Outcome,
}
use db_version_control.Dag.Persistence.{Loading, visit_parents, visit_node, topologically_sorted}
use db_version_control.Dag.Persistence.Appended.{NodesAt}

module _ (store : DagStore) (raw : Nodes)
    (same : (r : RevisionId) → get raw r ≡ get store.nodes r) where
  abbrev N : Nodes
  N = store.nodes

  NodesAt-snoc :
      (rs : List RevisionId) (ns : List Migration) (r : RevisionId) (n : Migration)
      → NodesAt N rs ns
      → get N r ≡ some n
      → NodesAt N (rs ++ r ∷ []) (ns ++ n ∷ [])
  NodesAt-snoc [] [] r n h q = (q, tt)
  NodesAt-snoc [] (m ∷ ns) r n h q = absurd h
  NodesAt-snoc (x ∷ rs) [] r n h q = absurd h
  NodesAt-snoc (x ∷ rs) (m ∷ ns) r n h q = (h.0, NodesAt-snoc rs ns r n h.1 q)

  -- The same visited revisions, and the nodes of the same order.
  abbrev Matches : Visits → Loading → Type 0
  Matches s t = (s.0 ≡ t.0) × NodesAt N s.1 t.1

  -- Where the walk returns, loading returns what matches.
  abbrev Simulates :
      (RevisionId → Visits → Result Visits) → (RevisionId → Loading → Result Loading) → Type 0
  Simulates go go' =
      (r : RevisionId) (s s' : Visits) (t : Loading)
      → Matches s t
      → go r s ≡ ok s'
      → Gives (Matches s') (go' r t)

  visit_each-Simulates :
      (go : RevisionId → Visits → Result Visits) (go' : RevisionId → Loading → Result Loading)
      → Simulates go go'
      → (rs : List RevisionId) (s s' : Visits) (t : Loading) → Matches s t
      → visit_each go rs s ≡ ok s'
      → Gives (Matches s') (visit_parents go' rs t)
  unfolding visit_each visit_parents
  visit_each-Simulates go go' sim [] s s' t m q =
      let e : s ≡ s' = cc in (t, refl, subst (λ x. Matches x t) e m)
  visit_each-Simulates go go' sim (r ∷ rs) s s' t m q = elim (Result-cases (go r s)) [
    | inl (s1, p) ↦
        bind-Gives _ _ (sim r s s1 t m p)
          (λ t1 m1. visit_each-Simulates go go' sim rs s1 s' t1 m1 (rw (p, visit_each) at q))
    | inr (e, p) ↦ let no : err e ≡ ok s' = rw (p, visit_each) at q in cc
  ]

  visit-Simulates : (fuel : ℕ) → Simulates (visit store fuel) (visit_node raw fuel)
  unfolding visit visit_node get_node
  visit-Simulates zero r s s' t m q = cc
  visit-Simulates (suc fuel) r (visited, order) s' (seen, ordered) m q =
      elim (Bool-cases (contains visited r)) [
        | inl c ↦
            let e : ok (visited, order) ≡ ok s' = rw (c, visit) at q in
            let same_state : (visited, order) ≡ s' = cc in
            let k : contains seen r ≡ true = subst (λ x. contains x r ≡ true) m.0 c in
            (
              (seen, ordered),
              rw (k, visit_node) refl,
              subst (λ (x : Visits). Matches x (seen, ordered)) same_state m,
            )
        | inr c ↦
            let k : contains seen r ≡ false = subst (λ x. contains x r ≡ false) m.0 c in
            elim (Option-cases (get N r)) [
              | inl u ↦
                  let no : err (unknown_revision r) ≡ ok s' = rw (c, visit, get_node, u) at q in cc
              | inr (n, u) ↦
                  let inner = visit_each (visit store fuel) n.parents (r ∷ visited, order) in
                  let closed : close r inner ≡ ok s' =
                    rw (c, visit, get_node-eq store r n u) at q in
                  let read : get raw r ≡ some n = same r ∙ u in
                  elim (Result-cases inner) [
                    | inr (e, p) ↦ let no : err e ≡ ok s' = rw p at closed in cc
                    | inl (s1, p) ↦
                        let done : ok (s1.0, s1.1 ++ r ∷ []) ≡ ok s' = rw p at closed in
                        let end_state : (s1.0, s1.1 ++ r ∷ []) ≡ s' = cc in
                        rw (k, visit_node, read)
                          (bind-Gives _ _
                            (visit_each-Simulates _ _ (visit-Simulates fuel) n.parents
                              (r ∷ visited, order) s1 (r ∷ seen, ordered) (ap (r ∷◌) m.0, m.1) p)
                            (λ t1 m1. (
                              (t1.0, t1.1 ++ n ∷ []),
                              refl,
                              subst (λ (x : Visits). Matches x (t1.0, t1.1 ++ n ∷ [])) end_state
                                  (m1.0, NodesAt-snoc s1.1 t1.1 r n m1.1 u),
                            )))
                  ]
            ]
      ]

  has_same : (r : RevisionId) → has raw r ≡ true → has N r ≡ true
  has_same r h = let (n, q) = get_of_has raw r h in has_of_get N r n (sym (same r) ∙ q)

  has_raw : (r : RevisionId) → has N r ≡ true → has raw r ≡ true
  has_raw r h = let (n, q) = get_of_has N r h in has_of_get raw r n (same r ∙ q)

  -- Every revision of the store once, after its parents, with its node.
  pub record IsSorted (ordered : List Migration) : Type 0 where
    pub order : List RevisionId
    pub nodes_at : NodesAt N order ordered
    pub parents_first : ParentsFirst N [] order
    pub members : (r : RevisionId) → contains order r ≡ has N r

  module _ (grown : Grown [] N) where
    ended :
        (bound : ℕ) (roots : List RevisionId) (s : Visits) (o : Result Visits)
        → Outcome store grown bound roots s o
        → Gives (λ s'. Pre store grown bound s' × Grew store grown roots s s') o
    ended bound roots s (ok s') h = (s', refl, h)
    ended bound roots s (err e) h = absurd h

    -- There is a round of fuel for each node that was read.
    enough : length (keys N) ≤ length (keys raw)
    enough = length-le (keys N) (keys raw) (Grown-Distinct [] N grown) has_raw

    walked :
        Gives
          (λ s'. Pre store grown (length (keys raw)) s' × Grew store grown (keys raw) ([], []) s')
          (visit_each (visit store (suc (length (keys raw)))) (keys raw) ([], []))
    walked =
        let bound = length (keys raw) in
        ended bound (keys raw) ([], []) _
          (visit_each-Outcome store grown bound (visit store (suc bound))
            (visit-Outcome store grown (suc bound) bound (omega arith)) (keys raw) ([], [])
            (λ a m. (omega (arith, rank-lt N a (has_same a m), enough), has_same a m))
            (record {
              parents_first = tt;
              unique = tt;
              ordered_visited = λ a m. m;
              visited_ordered = λ a m. cc;
            }))

    walked_members :
        (s : Visits)
        → Grew store grown (keys raw) ([], []) s
        → (r : RevisionId) → contains s.1 r ≡ has N r
    walked_members s g r = elim (Bool-cases (has N r)) [
      | inl h ↦ let done = g.done r (has_raw r h) in cc
      | inr h ↦ elim (Bool-cases (contains s.1 r)) [
        | inr m ↦ cc
        | inl m ↦ elim (g.new_order r m) [
          | inl old ↦ cc
          | inr (root, k, w) ↦ let known = Reach-has grown (has_same root k) w in cc
        ]
      ]
    ]

    pub topologically_sorted-IsSorted : Gives IsSorted (topologically_sorted raw)
    unfolding topologically_sorted
    topologically_sorted-IsSorted =
        let (s, q, (p, g)) = walked in
        bind-Gives _ _
          (visit_each-Simulates _ _ (visit-Simulates (suc (length (keys raw)))) (keys raw) ([], [])
            s ([], []) (refl, tt) q)
          (λ t m. (
            t.1,
            refl,
            record {
              order = s.1;
              nodes_at = m.1;
              parents_first = p.parents_first;
              members = walked_members s g;
            },
          ))
