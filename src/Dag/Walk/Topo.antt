-- ===== src/Dag/Walk/Topo.antt =====
-- The nested `visit` of `topological_order`: every ancestor once, each after its parents, in
-- whatever order the set of ancestors is iterated over.
use db_version_control.Prelude.{
  ℕ, zero, suc, ◌<◌, ◌≤◌, true, false, some, List, [], ◌∷◌, ◌++◌, ◌==◌, string_eq, eq_iff, ◌≡◌,
  ◌||◌, sym, subst, ◌∙◌, ◌⊎◌, inl, inr, arith, contains, Bool-cases, Distinct, Distinct-snoc,
  contains-append,
}
use db_version_control.Prelude.Dict.{get, has, get_of_has}
use db_version_control.Prelude.Errors.{Result, ok, err}
use db_version_control.Model.Operations.{Migration, RevisionId}
use db_version_control.Dag.Store.{DagStore}
use db_version_control.Dag.Store.Grown.{Grown, rank}
use db_version_control.Dag.Walk.{Nodes, Visits, visit_each, close, visit}
use db_version_control.Dag.Walk.Reach.{Parent, Reach, here, up, Parent-lt, Reach-rank}
use db_version_control.Dag.Walk.Ancestors.{get_node-eq}

-- Every revision of the list stands after all of its parents.
abbrev pub ParentsFirst : Nodes → List RevisionId → List RevisionId → Type 0
ParentsFirst nodes seen [] = Unit
ParentsFirst nodes seen (x ∷ xs) =
    ((p : RevisionId) → Parent nodes x p → contains seen p ≡ true)
    × ParentsFirst nodes (x ∷ seen) xs

ParentsFirst-snoc :
    (nodes : Nodes) (seen xs : List RevisionId) (r : RevisionId)
    → ParentsFirst nodes seen xs
    → ((p : RevisionId) → Parent nodes r p → contains seen p || contains xs p ≡ true)
    → ParentsFirst nodes seen (xs ++ r ∷ [])
ParentsFirst-snoc nodes seen [] r h k = (λ p s. ground (arith, k p s), tt)
ParentsFirst-snoc nodes seen (x ∷ xs) r h k =
    (h.0, ParentsFirst-snoc nodes (x ∷ seen) xs r h.1 (λ p s. ground (arith, k p s)))

module _ (store : DagStore) (grown : Grown [] store.nodes) where
  abbrev pub N : Nodes
  N = store.nodes

  -- Between two calls of `visit`: what is visited is in the order, or waits on the stack, above
  -- `bound`.
  pub record Pre (bound : ℕ) (s : Visits) : Type 0 where
    pub parents_first : ParentsFirst N [] s.1
    pub unique : Distinct s.1
    pub ordered_visited : (a : RevisionId) → contains s.1 a ≡ true → contains s.0 a ≡ true
    pub visited_ordered :
        (a : RevisionId) → contains s.0 a ≡ true → (contains s.1 a ≡ true) ⊎ (bound ≤ rank N a)

  -- What visiting the roots adds.
  pub record Grew (roots : List RevisionId) (s s' : Visits) : Type 0 where
    pub keeps_visited : (a : RevisionId) → contains s.0 a ≡ true → contains s'.0 a ≡ true
    pub keeps_order : (a : RevisionId) → contains s.1 a ≡ true → contains s'.1 a ≡ true
    pub new_visited :
        (a : RevisionId)
        → contains s'.0 a ≡ true
        → (contains s.0 a ≡ true) ⊎ (contains s'.1 a ≡ true)
    pub new_order :
        (a : RevisionId)
        → contains s'.1 a ≡ true
        → (contains s.1 a ≡ true) ⊎ ((r : RevisionId) × (contains roots r ≡ true) × Reach N r a)
    pub done : (r : RevisionId) → contains roots r ≡ true → contains s'.1 r ≡ true

  abbrev pub Outcome : ℕ → List RevisionId → Visits → Result Visits → Type 0
  Outcome bound roots s (ok s') = Pre bound s' × Grew roots s s'
  Outcome bound roots s (err e) = ⊥

  -- One call on a revision below `bound`.
  abbrev pub Visitor : ℕ → (RevisionId → Visits → Result Visits) → Type 0
  Visitor bound go =
      (r : RevisionId) (s : Visits)
      → rank N r < bound
      → has N r ≡ true
      → Pre bound s
      → Outcome bound (r ∷ []) s (go r s)

  Grew-nil : (s : Visits) → Grew [] s s
  Grew-nil s = record {
    keeps_visited = λ a m. m;
    keeps_order = λ a m. m;
    new_visited = λ a m. inl m;
    new_order = λ a m. inl m;
    done = λ r m. cc;
  }

  Grew-cons :
      (r : RevisionId) (rs : List RevisionId) (s t u : Visits)
      → Grew (r ∷ []) s t
      → Grew rs t u
      → Grew (r ∷ rs) s u
  Grew-cons r rs s t u g h = record {
    keeps_visited = λ a m. h.keeps_visited a (g.keeps_visited a m);
    keeps_order = λ a m. h.keeps_order a (g.keeps_order a m);
    new_visited = λ a m. elim (h.new_visited a m) [
      | inr k ↦ inr k
      | inl k ↦ elim (g.new_visited a k) [ inl j ↦ inl j | inr j ↦ inr (h.keeps_order a j) ]
    ];
    new_order = λ a m. elim (h.new_order a m) [
      | inr (q, k, w) ↦ inr (q, ground arith, w)
      | inl k ↦ elim (g.new_order a k) [ inl j ↦ inl j | inr (q, j, w) ↦ inr (q, ground arith, w) ]
    ];
    done = λ q m. elim (Bool-cases (q == r)) [
      | inl e ↦ h.keeps_order q (g.done q (ground arith))
      | inr e ↦ h.done q (ground arith)
    ];
  }

  Outcome-cons :
      (bound : ℕ) (r : RevisionId) (rs : List RevisionId) (s t : Visits) (o : Result Visits)
      → Grew (r ∷ []) s t
      → Outcome bound rs t o
      → Outcome bound (r ∷ rs) s o
  Outcome-cons bound r rs s t (ok u) g (p, h) = (p, Grew-cons r rs s t u g h)
  Outcome-cons bound r rs s t (err e) g h = h

  -- After one visit, the others.
  Outcome-then :
      (bound : ℕ) (r : RevisionId) (rs : List RevisionId) (s : Visits) (o : Result Visits)
      (go : Visits → Result Visits)
      → Outcome bound (r ∷ []) s o
      → ((t : Visits) → Pre bound t → Outcome bound rs t (go t))
      → Outcome bound (r ∷ rs) s (elim o [ ok t ↦ go t | err e ↦ err e ])
  Outcome-then bound r rs s (ok t) go (p, g) rest = Outcome-cons bound r rs s t (go t) g (rest t p)
  Outcome-then bound r rs s (err e) go h rest = h

  pub visit_each-Outcome :
      (bound : ℕ) (go : RevisionId → Visits → Result Visits)
      → Visitor bound go
      → (rs : List RevisionId) (s : Visits)
      → ((r : RevisionId) → contains rs r ≡ true → (rank N r < bound) × (has N r ≡ true))
      → Pre bound s
      → Outcome bound rs s (visit_each go rs s)
  unfolding visit_each
  visit_each-Outcome bound go v [] s below p = (p, Grew-nil s)
  visit_each-Outcome bound go v (r ∷ rs) s below p =
      let (lt, there) = below r (ground (arith, eq_iff r r)) in
      Outcome-then bound r rs s (go r s) (visit_each go rs) (v r s lt there p)
        (λ t q. visit_each-Outcome bound go v rs t (λ a m. below a (ground arith)) q)

  module _ (bound : ℕ) (r : RevisionId) (n : Migration) (visited order : List RevisionId) where
    Pre-push : rank N r < bound → Pre bound (visited, order) → Pre (rank N r) (r ∷ visited, order)
    Pre-push lt p = record {
      parents_first = p.parents_first;
      unique = p.unique;
      ordered_visited = λ a m. ground (arith, p.ordered_visited a m);
      visited_ordered = λ a m. elim (Bool-cases (a == r)) [
        | inl e ↦ inr (subst (λ x. rank N r ≤ rank N x) (sym ((eq_iff a r).0 e)) (omega arith))
        | inr e ↦ elim (p.visited_ordered a (ground arith)) [
          | inl k ↦ inl k
          | inr k ↦ inr (omega arith)
        ]
      ];
    }

    module _ (stored : get N r ≡ some n) (new : contains visited r ≡ false) (lt : rank N r < bound)
        (p : Pre bound (visited, order)) (s : Visits) (q : Pre (rank N r) s)
        (g : Grew n.parents (r ∷ visited, order) s) where
      parent_done : (a : RevisionId) → Parent N r a → contains s.1 a ≡ true
      parent_done a w =
          let same : some w.node ≡ some n = sym w.stored ∙ stored in
          g.done a (ground (arith, w.listed))

      -- `r` itself was not appended below it: all that was lies strictly before it.
      not_yet : contains s.1 r ≡ false
      not_yet = elim (Bool-cases (contains s.1 r)) [
        | inr out ↦ out
        | inl k ↦ elim (g.new_order r k) [
          | inl old ↦ ground (arith, p.ordered_visited r old)
          | inr (a, m, w) ↦ absurd (
              omega (
                arith,
                Reach-rank grown w,
                (Parent-lt grown (record { node = n; stored = stored; listed = m })).0,
              ))
        ]
      ]

      Pre-close : Pre bound (s.0, s.1 ++ r ∷ [])
      Pre-close = record {
        parents_first = ParentsFirst-snoc N [] s.1 r q.parents_first (λ a w. parent_done a w);
        unique = Distinct-snoc s.1 r q.unique not_yet;
        ordered_visited = λ a m. elim (Bool-cases (a == r)) [
          | inl e ↦ g.keeps_visited a (ground arith)
          | inr e ↦ q.ordered_visited a (ground (arith, contains-append s.1 (r ∷ []) a))
        ];
        visited_ordered = λ a m. elim (g.new_visited a m) [
          | inr k ↦ inl (ground (arith, contains-append s.1 (r ∷ []) a))
          | inl k ↦ elim (Bool-cases (a == r)) [
            | inl e ↦ inl (ground (arith, contains-append s.1 (r ∷ []) a))
            | inr e ↦ elim (p.visited_ordered a (ground arith)) [
              | inl j ↦
                  let kept = g.keeps_order a j in
                  inl (ground (arith, contains-append s.1 (r ∷ []) a))
              | inr j ↦ inr j
            ]
          ]
        ];
      }

      Grew-close : Grew (r ∷ []) (visited, order) (s.0, s.1 ++ r ∷ [])
      Grew-close = record {
        keeps_visited = λ a m. g.keeps_visited a (ground arith);
        keeps_order =
            λ a m. let kept = g.keeps_order a m in ground (arith, contains-append s.1 (r ∷ []) a);
        new_visited = λ a m. elim (g.new_visited a m) [
          | inr k ↦ inr (ground (arith, contains-append s.1 (r ∷ []) a))
          | inl k ↦ elim (Bool-cases (a == r)) [
            | inl e ↦ inr (ground (arith, contains-append s.1 (r ∷ []) a))
            | inr e ↦ inl (ground arith)
          ]
        ];
        new_order = λ a m. elim (Bool-cases (a == r)) [
          | inl e ↦
              inr (r, ground (arith, eq_iff r r), subst (Reach N r) (sym ((eq_iff a r).0 e)) here)
          | inr e ↦ elim (g.new_order a (ground (arith, contains-append s.1 (r ∷ []) a))) [
            | inl k ↦ inl k
            | inr (b, k, w) ↦ inr (
              r,
              ground (arith, eq_iff r r),
              up (record { node = n; stored = stored; listed = k }) w,
            )
          ]
        ];
        done = λ a m. ground (arith, contains-append s.1 (r ∷ []) a);
      }

    Outcome-close :
        get N r ≡ some n
        → contains visited r ≡ false
        → rank N r < bound
        → Pre bound (visited, order)
        → (o : Result Visits) → Outcome (rank N r) n.parents (r ∷ visited, order) o
        → Outcome bound (r ∷ []) (visited, order) (close r o)
    Outcome-close stored new lt p (ok s) (q, g) =
        (Pre-close stored new lt p s q g, Grew-close stored new lt p s q g)
    Outcome-close stored new lt p (err e) h = h

    Outcome-seen :
        contains visited r ≡ true
        → rank N r < bound
        → Pre bound (visited, order)
        → Outcome bound (r ∷ []) (visited, order) (ok (visited, order))
    Outcome-seen m lt p = (
      p,
      record {
        keeps_visited = λ a k. k;
        keeps_order = λ a k. k;
        new_visited = λ a k. inl k;
        new_order = λ a k. inl k;
        done = λ a k.
            let e : a ≡ r = (eq_iff a r).0 (ground arith) in
            elim (p.visited_ordered r m) [
              | inl j ↦ subst (λ x. contains order x ≡ true) (sym e) j
              | inr j ↦ absurd (omega arith)
            ];
      },
    )

  -- With more fuel than the rank of its revision a visit ends.
  pub visit-Outcome : (fuel bound : ℕ) → bound ≤ fuel → Visitor bound (visit store fuel)
  unfolding visit
  visit-Outcome zero bound le r s lt there p = absurd (omega arith)
  visit-Outcome (suc fuel) bound le r (visited, order) lt there p =
      elim (Bool-cases (contains visited r)) [
        | inl m ↦
            rw (m, visit)
              (Outcome-seen bound r (record { id = r; parents = []; branch = ""; operations = [] })
                visited order m lt p)
        | inr m ↦
            let (n, stored) = get_of_has N r there in
            let inner : Outcome (rank N r) n.parents (r ∷ visited, order)
                (visit_each (visit store fuel) n.parents (r ∷ visited, order)) =
              visit_each-Outcome (rank N r) (visit store fuel)
                (visit-Outcome fuel (rank N r) (omega arith)) n.parents (r ∷ visited, order)
                (λ a k. Parent-lt grown (record { node = n; stored = stored; listed = k }))
                (Pre-push bound r n visited order lt p) in
            rw (m, visit)
              (rw (get_node-eq store r n stored, visit)
                (Outcome-close bound r n visited order stored m lt p _ inner))
      ]
