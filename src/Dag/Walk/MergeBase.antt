-- ===== src/Dag/Walk/MergeBase.antt =====
-- `merge_base` finds the lowest common ancestor, and refuses exactly when there is none.
use db_version_control.Prelude.{
  Distinct-keep, ℕ, zero, suc, ◌+◌, ◌≤◌, String, true, List, [], ◌∷◌, ◌==◌, string_eq, eq_iff, ◌≡◌,
  refl, sym, subst, ◌∙◌, inl, inr, ◌↔◌, arith, contains, Bool-cases, length, Distinct, keep,
  contains-keep,
}
use db_version_control.Prelude.Dict.{Dict, has, keys}
use db_version_control.Prelude.Strings.{sorted}
use db_version_control.Prelude.Errors.{Error, ambiguous_merge_base}
use db_version_control.Model.Operations.{RevisionId}
use db_version_control.Dag.Store.Grown.{IsGrown, Grown, rank, rank-lt}
use db_version_control.Dag.Store.{DagStore}
use db_version_control.Dag.Store.Session.{pure, ◌>>=◌}
use db_version_control.Dag.Walk.{Nodes, ancestors, maximal_of, sole, merge_base_of, merge_base}
use db_version_control.Dag.Walk.Reach.{Reach, here, Reach-trans, Reach-lt, Reach-has, Reach-antisym}
use db_version_control.Dag.Walk.Ancestors.{IsAncestorSet}
use db_version_control.Dag.Walk.Yields.{
  Ends, IsCacheSound, Yields, Yields-bind, Yields-pure, Yields-raise, Yields-if, Yields-weaken,
  ancestors-Yields,
}
use db_version_control.Dag.Walk.Maximal.{Never, Above, IsMaximalOf, maximal_of-Yields}

-- A common ancestor that every common ancestor is an ancestor of.
pub record IsLowestCommon (nodes : Nodes) (a b r : RevisionId) : Type 0 where
  pub of_left : Reach nodes a r
  pub of_right : Reach nodes b r
  pub lowest : (c : RevisionId) → Reach nodes a c → Reach nodes b c → Reach nodes r c

-- AmbiguousMergeBaseError for this pair, and rightly so.
pub record IsRefusal (nodes : Nodes) (a b : RevisionId) (e : Error) : Type 0 where
  pub candidates : List RevisionId
  pub raised : e ≡ ambiguous_merge_base a b candidates
  pub none_lowest : (r : RevisionId) → ¬ IsLowestCommon nodes a b r

module _ (nodes : Nodes) (heads : Dict String RevisionId) (grown : Grown [] nodes) where
  record IsCommon (a b : RevisionId) (common : List RevisionId) : Type 0 where
    members : (c : RevisionId) → (contains common c ≡ true) ↔ (Reach nodes a c × Reach nodes b c)
    known : (c : RevisionId) → contains common c ≡ true → has nodes c ≡ true
    unique : Distinct common

  -- Some maximal element descends from each common ancestor.
  climb :
      (common ms : List RevisionId)
      → ((c : RevisionId) → contains common c ≡ true → has nodes c ≡ true)
      → IsMaximalOf nodes heads grown common common ms
      → (fuel : ℕ) (c : RevisionId) → contains common c ≡ true
      → length (keys nodes) ≤ rank nodes c + fuel
      → (m : RevisionId) × (contains ms m ≡ true) × Reach nodes m c
  climb common ms known h zero c k le = absurd (omega (arith, rank-lt nodes c (known c k)))
  climb common ms known h (suc fuel) c k le = elim (Bool-cases (contains ms c)) [
    | inl m ↦ (c, m, here)
    | inr out ↦
        let above : Above nodes heads grown common c = h.left_out c k out in
        let (m, is, w) =
          climb common ms known h fuel above.other above.member
            (omega (arith, Reach-lt grown above.below above.ne)) in
        (m, is, Reach-trans w above.below)
  ]

  module _ (a b : RevisionId) where
    sole-Yields :
        (common ms : List RevisionId)
        → IsCommon a b common
        → IsMaximalOf nodes heads grown common common ms
        → (c : RevisionId) → contains common c ≡ true
        → Yields nodes heads (IsLowestCommon nodes a b) (IsRefusal nodes a b) (sole a b ms)
    unfolding sole
    sole-Yields common [] is h c k =
        let (m, no_member, w) =
          climb common [] is.known h (length (keys nodes)) c k (omega arith) in
        cc
    sole-Yields common (r ∷ []) is h c k =
        let top : contains (r ∷ []) r ≡ true = ground (arith, eq_iff r r) in
        let (of_left, of_right) = (is.members r).0 (h.from_todo r top) in
        Yields-pure nodes heads (IsLowestCommon nodes a b) (IsRefusal nodes a b) r (record {
          of_left = of_left;
          of_right = of_right;
          lowest = λ d v w.
              let (m, only, u) =
                climb common (r ∷ []) is.known h (length (keys nodes)) d ((is.members d).1 (v, w))
                  (omega arith) in
              subst (λ x. Reach nodes x d) ((eq_iff m r).0 (ground arith)) u;
        })
    sole-Yields common (r ∷ s ∷ more) is h c k =
        Yields-raise nodes heads (IsLowestCommon nodes a b) (IsRefusal nodes a b)
          (ambiguous_merge_base a b (sorted (r ∷ s ∷ more)))
          (record {
            candidates = sorted (r ∷ s ∷ more);
            raised = refl;
            none_lowest = λ t low.
                let all = r ∷ s ∷ more in
                let in_r : contains (r ∷ s ∷ more) r ≡ true = ground (arith, eq_iff r r) in
                let in_s : contains (r ∷ s ∷ more) s ≡ true = ground (arith, eq_iff s s) in
                let t_common = (is.members t).1 (low.of_left, low.of_right) in
                let up_r = (is.members r).0 (h.from_todo r in_r) in
                let up_s = (is.members s).0 (h.from_todo s in_s) in
                let t_is_r : t ≡ r = h.maximal r t in_r t_common (low.lowest r up_r.0 up_r.1) in
                let t_is_s : t ≡ s = h.maximal s t in_s t_common (low.lowest s up_s.0 up_s.1) in
                let d : Distinct (r ∷ s ∷ more) = h.unique is.unique in
                let same : (r == s) ≡ true = (eq_iff r s).1 (sym t_is_r ∙ t_is_s) in
                ground (arith, d.0, same);
          })

    merge_base_of-Yields :
        (common : List RevisionId)
        → IsCommon a b common
        → Yields nodes heads
            (IsLowestCommon nodes a b)
            (IsRefusal nodes a b)
            (merge_base_of a b common)
    unfolding merge_base_of
    merge_base_of-Yields [] is =
        Yields-raise nodes heads (IsLowestCommon nodes a b) (IsRefusal nodes a b)
          (ambiguous_merge_base a b [])
          (record {
            candidates = [];
            raised = refl;
            none_lowest = λ t low. cc ((is.members t).1 (low.of_left, low.of_right));
          })
    merge_base_of-Yields (c ∷ cs) is =
        Yields-bind nodes heads (IsMaximalOf nodes heads grown (c ∷ cs) (c ∷ cs))
          (IsLowestCommon nodes a b) (IsRefusal nodes a b) (maximal_of (c ∷ cs) (c ∷ cs)) (sole a b)
          (Yields-weaken nodes heads (IsMaximalOf nodes heads grown (c ∷ cs) (c ∷ cs))
            (IsMaximalOf nodes heads grown (c ∷ cs) (c ∷ cs)) Never (IsRefusal nodes a b)
            (maximal_of (c ∷ cs) (c ∷ cs)) (λ ms h. h) (λ e h. absurd h)
            (maximal_of-Yields nodes heads grown (c ∷ cs) (c ∷ cs) is.known))
          λ ms h. sole-Yields (c ∷ cs) ms is h c (ground (arith, eq_iff c c))

    IsCommon-keep :
        (xs ys : List RevisionId)
        → has nodes a ≡ true
        → IsAncestorSet nodes a xs
        → IsAncestorSet nodes b ys
        → IsCommon a b (keep (contains ys) xs)
    IsCommon-keep xs ys there is_a is_b = record {
      members = λ c. (
        λ m. (
          (is_a.members c).0 (ground (arith, contains-keep (contains ys) xs c)),
          (is_b.members c).0 (ground (arith, contains-keep (contains ys) xs c)),
        ),
        λ (v, w).
            ground
              (arith, contains-keep (contains ys) xs c, (is_a.members c).1 v, (is_b.members c).1 w),
      );
      known = λ c m.
          Reach-has grown there
            ((is_a.members c).0 (ground (arith, contains-keep (contains ys) xs c)));
      unique = Distinct-keep (contains ys) xs is_a.unique;
    }

    -- For two revisions of a store, `merge_base` ends: with the lowest common ancestor, or by
    -- raising AmbiguousMergeBaseError for a pair that has none. Nodes and heads stay as they were.
    pub merge_base-Yields :
        has nodes a ≡ true
        → has nodes b ≡ true
        → Yields nodes heads (IsLowestCommon nodes a b) (IsRefusal nodes a b) (merge_base a b)
    unfolding merge_base
    merge_base-Yields there_a there_b =
        let P = IsLowestCommon nodes a b in
        let E = IsRefusal nodes a b in
        Yields-if nodes heads P E (a == b) (pure a)
          (ancestors a >>= λ xs. ancestors b >>= λ ys. merge_base_of a b (keep (contains ys) xs))
          (λ q. Yields-pure nodes heads P E a (record {
            of_left = here;
            of_right = subst (λ x. Reach nodes x a) ((eq_iff a b).0 q) here;
            lowest = λ c v w. v;
          }))
          (λ q.
            Yields-bind nodes heads (IsAncestorSet nodes a) P E (ancestors a)
              (λ xs. ancestors b >>= λ ys. merge_base_of a b (keep (contains ys) xs))
              (ancestors-Yields nodes heads grown E a there_a)
              λ xs is_a.
                Yields-bind nodes heads (IsAncestorSet nodes b) P E (ancestors b)
                  (λ ys. merge_base_of a b (keep (contains ys) xs))
                  (ancestors-Yields nodes heads grown E b there_b)
                  λ ys is_b.
                    merge_base_of-Yields (keep (contains ys) xs)
                      (IsCommon-keep xs ys there_a is_a is_b))

-- For two revisions of a store, `merge_base` ends: with their lowest common ancestor, or by raising
-- AmbiguousMergeBaseError when they have none. Nodes and heads stay as they were, and the cache
-- stays sound.
pub merge_base_correct :
    (store : DagStore) (a b : RevisionId)
    → IsGrown store
    → IsCacheSound store
    → has store.nodes a ≡ true
    → has store.nodes b ≡ true
    → Ends store.nodes store.heads
        (IsLowestCommon store.nodes a b)
        (IsRefusal store.nodes a b)
        (merge_base a b store)
merge_base_correct store a b g sound there_a there_b =
    merge_base-Yields store.nodes store.heads g.grown a b there_a there_b store sound

lowest_unique :
    (nodes : Nodes) (a b r : RevisionId)
    → Grown [] nodes
    → Reach nodes b a
    → IsLowestCommon nodes a b r
    → r ≡ a
lowest_unique nodes a b r grown w low = Reach-antisym grown (low.lowest a here w) low.of_left

-- For two revisions of a store, if `a` is an ancestor of `b` or the same, `merge_base` ends with `a`.
pub merge_base_of_ancestor :
    (store : DagStore) (a b : RevisionId)
    → IsGrown store
    → IsCacheSound store
    → has store.nodes b ≡ true
    → Reach store.nodes b a
    → Ends store.nodes store.heads (λ r. r ≡ a) Never (merge_base a b store)
merge_base_of_ancestor store a b g sound there w =
    Yields-weaken store.nodes store.heads (IsLowestCommon store.nodes a b) (λ r. r ≡ a)
      (IsRefusal store.nodes a b) Never (merge_base a b)
      (λ r low. lowest_unique store.nodes a b r g.grown w low)
      (λ e no. no.none_lowest a (record { of_left = here; of_right = w; lowest = λ c v _. v }))
      (merge_base-Yields store.nodes store.heads g.grown a b (Reach-has g.grown there w) there)
      store sound

-- For two revisions of a store, if `b` is an ancestor of `a` or the same, `merge_base` ends with `b`.
pub merge_base_of_descendant :
    (store : DagStore) (a b : RevisionId)
    → IsGrown store
    → IsCacheSound store
    → has store.nodes a ≡ true
    → Reach store.nodes a b
    → Ends store.nodes store.heads (λ r. r ≡ b) Never (merge_base a b store)
merge_base_of_descendant store a b g sound there w =
    Yields-weaken store.nodes store.heads (IsLowestCommon store.nodes a b) (λ r. r ≡ b)
      (IsRefusal store.nodes a b) Never (merge_base a b)
      (λ r low. Reach-antisym g.grown (low.lowest b w here) low.of_right)
      (λ e no. no.none_lowest b (record { of_left = w; of_right = here; lowest = λ c _ v. v }))
      (merge_base-Yields store.nodes store.heads g.grown a b there (Reach-has g.grown there w))
      store sound
