-- ===== src/Dag/Walk/Since.antt =====
-- `operations_since`: the operations on one chain of parents, or ValueError where there is none.
use db_version_control.Prelude.{
  ℕ, zero, suc, ◌<◌, String, Bool, true, false, Option, none, some, List, [], ◌∷◌, ◌++◌, ◌==◌,
  string_eq, eq_iff, ◌≡◌, refl, sym, subst, ◌∙◌, inl, inr, arith, contains, Bool-cases, length,
  if◌then◌else◌, concat_map, ap,
}
use db_version_control.Prelude.Dict.{Dict, get, has, keys, get_of_has, has_of_get}
use db_version_control.Prelude.Errors.{Error, value_error}
use db_version_control.Model.Operations.{CompoundOperation, Migration, RevisionId}
use db_version_control.Dag.Store.{DagStore, get_node}
use db_version_control.Dag.Store.Session.{Session, pure, raise, reads, ◌>>=◌}
use db_version_control.Dag.Store.Grown.{IsGrown, Grown, rank, rank-lt}
use db_version_control.Dag.Walk.{
  Nodes, ancestors, way_back, path_back, operations_on, operations_since,
}
use db_version_control.Dag.Walk.Reach.{Parent, Reach, here, up, Parent-lt}
use db_version_control.Dag.Walk.Ancestors.{IsAncestorSet}
use db_version_control.Dag.Walk.Maximal.{Never}
use db_version_control.Dag.Walk.Yields.{
  Ends, IsCacheSound, Yields, Yields-bind, Yields-pure, Yields-raise, Yields-if, Yields-weaken,
  Yields-get_node, ancestors-Yields,
}

-- `path` leads from `old`, which is not on it, to `new`, its last element, each a child of the one
-- before.
abbrev pub Chain : Nodes → RevisionId → List RevisionId → RevisionId → Type 0
Chain nodes old [] new = old ≡ new
Chain nodes old (x ∷ path) new = Parent nodes x old × Chain nodes x path new

abbrev pub stored_operations : Option Migration → List CompoundOperation
stored_operations none = []
stored_operations (some node) = node.operations

-- The operations of the nodes on a path, in its order.
abbrev pub operations_along : Nodes → List RevisionId → List CompoundOperation
operations_along nodes path = concat_map (λ r. stored_operations (get nodes r)) path

-- ValueError, for a revision that `from_rev` is no ancestor of.
pub record IsNoAncestor (nodes : Nodes) (from_rev to_rev : RevisionId) (e : Error) : Type 0 where
  pub raised : e ≡ value_error
  pub apart : ¬ Reach nodes to_rev from_rev

module _ (nodes : Nodes) (heads : Dict String RevisionId) (grown : Grown [] nodes)
    (from_rev : RevisionId) where
  abbrev Way : List RevisionId → Option RevisionId → Type 0
  Way ps none = (p : RevisionId) → contains ps p ≡ true → ¬ Reach nodes p from_rev
  Way ps (some p) = (contains ps p ≡ true) × Reach nodes p from_rev

  Way-here :
      (p : RevisionId) (ps : List RevisionId) → Reach nodes p from_rev → Way (p ∷ ps) (some p)
  Way-here p ps w = (ground (arith, eq_iff p p), w)

  Way-later :
      (p : RevisionId) (ps : List RevisionId) (o : Option RevisionId)
      → ¬ Reach nodes p from_rev
      → Way ps o
      → Way (p ∷ ps) o
  Way-later p ps (some q) no_way (m, w) = (ground arith, w)
  Way-later p ps none no_way h = λ q m w. elim (Bool-cases (q == p)) [
    | inl e ↦ no_way (subst (λ x. Reach nodes x from_rev) ((eq_iff q p).0 e) w)
    | inr e ↦ h q (ground arith) w
  ]

  Way-if :
      (p : RevisionId) (ps : List RevisionId) (b : Bool) (o : Option RevisionId)
      → (b ≡ true → Reach nodes p from_rev)
      → (b ≡ false → ¬ Reach nodes p from_rev)
      → Way ps o
      → Way (p ∷ ps) (if b then some p else o)
  Way-if p ps true o t f h = Way-here p ps (t refl)
  Way-if p ps false o t f h = Way-later p ps o (f refl) h

  way_back-Yields :
      (ps : List RevisionId)
      → ((p : RevisionId) → contains ps p ≡ true → has nodes p ≡ true)
      → Yields nodes heads (Way ps) Never (way_back from_rev ps)
  unfolding way_back
  way_back-Yields [] known = Yields-pure nodes heads (Way []) Never none (λ p m w. cc)
  way_back-Yields (p ∷ ps) known =
      let rest = way_back-Yields ps (λ q m. known q (ground arith)) in
      Yields-if nodes heads (Way (p ∷ ps)) Never (p == from_rev)
        (way_back from_rev ps >>= λ later. pure (some p))
        (ancestors p >>= λ above. way_back from_rev ps >>= λ later.
          pure (if contains above from_rev then some p else later))
        (λ e.
          Yields-bind nodes heads (Way ps) (Way (p ∷ ps)) Never (way_back from_rev ps)
            (λ later. pure (some p)) rest
            λ later h.
              Yields-pure nodes heads (Way (p ∷ ps)) Never (some p)
                (Way-here p ps (subst (Reach nodes p) ((eq_iff p from_rev).0 e) here)))
        (λ e.
          Yields-bind nodes heads (IsAncestorSet nodes p) (Way (p ∷ ps)) Never (ancestors p)
            (λ above. way_back from_rev ps >>= λ later.
              pure (if contains above from_rev then some p else later))
            (ancestors-Yields nodes heads grown Never p (known p (ground (arith, eq_iff p p))))
            λ above is.
              Yields-bind nodes heads (Way ps) (Way (p ∷ ps)) Never (way_back from_rev ps)
                (λ later. pure (if contains above from_rev then some p else later)) rest
                λ later h.
                  Yields-pure nodes heads (Way (p ∷ ps)) Never
                    (if contains above from_rev then some p else later)
                    (Way-if p ps (contains above from_rev) later (λ m. (is.members from_rev).0 m)
                      (λ m w. ground (arith, (is.members from_rev).1 w)) h))

  Reach-up :
      {r : RevisionId} (n : Migration)
      → get nodes r ≡ some n
      → ((p : RevisionId) → contains n.parents p ≡ true → ¬ Reach nodes p from_rev)
      → (r == from_rev) ≡ false
      → ¬ Reach nodes r from_rev
  Reach-up n stored none_up ne here = ground (arith, eq_iff from_rev from_rev)
  Reach-up n stored none_up ne (up {r} {p} s w) =
      let same : some s.node ≡ some n = sym s.stored ∙ stored in
      none_up p (ground (arith, s.listed)) w

  module _ (to_rev : RevisionId) where
    abbrev Leads : List RevisionId → Type 0
    Leads path = Chain nodes from_rev path to_rev

    path_back-Yields :
        (fuel : ℕ) (rev : RevisionId) (path : List RevisionId)
        → rank nodes rev < fuel
        → has nodes rev ≡ true
        → Chain nodes rev path to_rev
        → Yields nodes heads Leads
            (IsNoAncestor nodes from_rev rev)
            (path_back fuel from_rev rev path)
    unfolding path_back
    path_back-Yields zero rev path lt there chain = absurd (omega arith)
    path_back-Yields (suc fuel) rev path lt there chain =
        let E = IsNoAncestor nodes from_rev rev in
        let (n, stored) = get_of_has nodes rev there in
        let go = λ (found : Option RevisionId).
          let r : Session (List RevisionId) = elim found [
            | none ↦ raise value_error
            | some p ↦ path_back fuel from_rev p (rev ∷ path)
          ] in
          r in
        Yields-if nodes heads Leads E (rev == from_rev) (pure path)
          (reads (λ s. get_node s rev) >>= λ node. way_back from_rev node.parents >>= go)
          (λ e.
            Yields-pure nodes heads Leads E path
              (subst (λ x. Chain nodes x path to_rev) ((eq_iff rev from_rev).0 e) chain))
          (λ e.
            Yields-bind nodes heads (λ m. m ≡ n) Leads E (reads (λ s. get_node s rev))
              (λ node. way_back from_rev node.parents >>= go)
              (Yields-get_node nodes heads (λ m. m ≡ n) E rev n stored refl)
              λ m same.
                let stored' : get nodes rev ≡ some m = stored ∙ ap some (sym same) in
                Yields-bind nodes heads (Way m.parents) Leads E (way_back from_rev m.parents) go
                  (Yields-weaken nodes heads (Way m.parents) (Way m.parents) Never E
                    (way_back from_rev m.parents) (λ o h. h) (λ x h. absurd h)
                    (way_back-Yields m.parents (λ p k.
                      (Parent-lt grown (record { node = m; stored = stored'; listed = k })).1)))
                  (elim [
                    | none ↦ λ h.
                        Yields-raise nodes heads Leads E value_error
                          (record { raised = refl; apart = Reach-up m stored' h e })
                    | some p ↦ λ (k, w).
                        let s : Parent nodes rev p = record {
                          node = m;
                          stored = stored';
                          listed = k;
                        } in
                        let (lower, known) = Parent-lt grown s in
                        Yields-weaken nodes heads Leads Leads (IsNoAncestor nodes from_rev p) E
                          (path_back fuel from_rev p (rev ∷ path)) (λ o h. h)
                          (λ x no. absurd (no.apart w))
                          (path_back-Yields fuel p (rev ∷ path) (omega arith) known (s, chain))
                  ]))

  Chain-known :
      (old : RevisionId) (path : List RevisionId) (new r : RevisionId)
      → Chain nodes old path new
      → contains path r ≡ true
      → has nodes r ≡ true
  Chain-known old [] new r c m = cc
  Chain-known old (x ∷ path) new r (s, c) m = elim (Bool-cases (r == x)) [
    | inl e ↦
        subst (λ y. has nodes y ≡ true) (sym ((eq_iff r x).0 e))
          (has_of_get nodes x s.node s.stored)
    | inr e ↦ Chain-known x path new r c (ground arith)
  ]

  operations_on-Yields :
      (E : Error → Type 0) (path : List RevisionId)
      → ((r : RevisionId) → contains path r ≡ true → has nodes r ≡ true)
      → Yields nodes heads (λ ops. ops ≡ operations_along nodes path) E (operations_on path)
  unfolding operations_on
  operations_on-Yields E [] known = Yields-pure nodes heads (λ ops. ops ≡ []) E [] refl
  operations_on-Yields E (r ∷ path) known =
      let P = λ (ops : List CompoundOperation). ops ≡ operations_along nodes (r ∷ path) in
      let (n, stored) = get_of_has nodes r (known r (ground (arith, eq_iff r r))) in
      Yields-bind nodes heads (λ m. m ≡ n) P E (reads (λ s. get_node s r))
        (λ node. operations_on path >>= λ rest. pure (node.operations ++ rest))
        (Yields-get_node nodes heads (λ m. m ≡ n) E r n stored refl)
        λ m same.
          Yields-bind nodes heads (λ ops. ops ≡ operations_along nodes path) P E
            (operations_on path) (λ rest. pure (m.operations ++ rest))
            (operations_on-Yields E path (λ q k. known q (ground arith)))
            λ rest h.
              Yields-pure nodes heads P E (m.operations ++ rest)
                (rw stored (ground (arith, same, h)))

-- What `operations_since` returns: the operations of the nodes on one chain of parents.
pub record IsSince (nodes : Nodes) (from_rev to_rev : RevisionId) (ops : List CompoundOperation)
    : Type 0 where
  pub path : List RevisionId
  pub chain : Chain nodes from_rev path to_rev
  pub sum : ops ≡ operations_along nodes path

pub operations_since-Yields :
    (N : Nodes) (heads : Dict String RevisionId) (from_rev to_rev : RevisionId)
    → Grown [] N
    → has N to_rev ≡ true
    → Yields N heads
        (IsSince N from_rev to_rev)
        (IsNoAncestor N from_rev to_rev)
        (operations_since from_rev to_rev)
unfolding operations_since
operations_since-Yields N heads from_rev to_rev grown there store sound =
    let P = IsSince N from_rev to_rev in
    let E = IsNoAncestor N from_rev to_rev in
    elim (Bool-cases (from_rev == to_rev)) [
      | inl e ↦
          rw (e, operations_since)
            (sound, record { path = []; chain = (eq_iff from_rev to_rev).0 e; sum = refl })
      | inr e ↦
          rw (e, operations_since)
            (subst
              (λ n.
                Ends N heads P E
                  ((path_back (suc (length (keys n))) from_rev to_rev [] >>= operations_on) store))
              (sym sound.same_nodes)
              (Yields-bind N heads (λ path. Chain N from_rev path to_rev) P E
                (path_back (suc (length (keys N))) from_rev to_rev []) operations_on
                (path_back-Yields N heads grown from_rev to_rev (suc (length (keys N))) to_rev []
                  (omega (arith, rank-lt N to_rev there)) there refl)
                (λ path chain.
                  Yields-weaken N heads (λ ops. ops ≡ operations_along N path) P E E
                    (operations_on path) (λ ops h. record { path = path; chain = chain; sum = h })
                    (λ x h. h)
                    (operations_on-Yields N heads grown from_rev E path
                      (λ r m. Chain-known N heads grown from_rev from_rev path to_rev r chain m)))
                store sound))
    ]

-- For two revisions of a store, `operations_since` ends: with the operations of the nodes on one
-- chain of children from `from_rev` (left out) to `to_rev`, oldest first, or with ValueError if
-- `from_rev` is no ancestor of `to_rev`.
pub operations_since_correct :
    (store : DagStore) (from_rev to_rev : RevisionId)
    → IsGrown store
    → IsCacheSound store
    → has store.nodes to_rev ≡ true
    → Ends store.nodes store.heads
        (IsSince store.nodes from_rev to_rev)
        (IsNoAncestor store.nodes from_rev to_rev)
        (operations_since from_rev to_rev store)
operations_since_correct store from_rev to_rev g sound there =
    operations_since-Yields store.nodes store.heads from_rev to_rev g.grown there store sound
