-- ===== src/Cli/Main/Merged.antt =====
-- A merge keeps the shape of the store and every branch, whatever the answers.
use db_version_control.Prelude.{
  map, true, false, some, List, [], ◌∷◌, ◌++◌, String, ◌≡◌, sym, ap, ◌∙◌, subst, inl, inr, ◌==◌,
  string_eq, arith,
}
use db_version_control.Prelude.Dict.{get, put, has}
use db_version_control.Prelude.Errors.{Result, ok, err, OnOk, Result-cases}
use db_version_control.Model.Operations.{RevisionId, CompoundOperation}
use db_version_control.Dag.Store.{DagStore, append, set_head, head, has_node, has_branch, get_node}
use db_version_control.Dag.Store.Grown.{
  Grown, IsGrown, append_made, append-IsGrown, set_head-IsGrown,
}
use db_version_control.Dag.Walk.Keeps.{
  SameGraph, KeepsFrom, Keeps-reads, operations_since-Keeps, replay-Keeps, merge_base-Keeps,
}
use db_version_control.Cli.Branch.Sound.{if-OnOk, set_head_made, head_added}
use db_version_control.Dag.Store.Session.{Session, next}
use db_version_control.Dag.Walk.{is_fast_forward}
use db_version_control.Merge.NameCollision.{NameCollision}
use db_version_control.Merge.Engine.{
  MergeResult, Surroundings, Progress, at_start, resolve_groups, all_groups, merged_compound,
  corrective_drop, commit_merge, three_way, advance, after_base, merge_heads, merge,
}

-- A store that a merge leaves: of the right shape, with every branch that there was.
pub record Grows (s : DagStore) (s' : DagStore) : Type 0 where
  pub grown : IsGrown s'
  pub branches : (b : String) → has_branch s b ≡ true → has_branch s' b ≡ true

module _ {A B : Type 0} (P : B × DagStore → Type 0) where
  -- A step that keeps the graph, and what follows from any store with that graph.
  keeping :
      (s : DagStore) (r : Result (A × DagStore)) (f : A → Session B)
      → KeepsFrom s r
      → ((a : A) (t : DagStore) → SameGraph s t → OnOk P (f a t))
      → OnOk P (next r f)
  keeping s (ok (a, t)) f g k = k a t g
  keeping s (err e) f g k = tt

SameGraph-trans : {s t u : DagStore} → SameGraph s t → SameGraph t u → SameGraph s u
SameGraph-trans g h = record {
  same_nodes = h.same_nodes ∙ g.same_nodes;
  same_heads = h.same_heads ∙ g.same_heads;
}

pub IsGrown-same : {s t : DagStore} → SameGraph s t → IsGrown s → IsGrown t
IsGrown-same g h = record {
  grown = subst (Grown []) (sym g.same_nodes) h.grown;
  heads_known = λ b r q.
      subst (λ x. has x r ≡ true) (sym g.same_nodes)
        (h.heads_known b r (subst (λ x. get x b ≡ some r) g.same_heads q));
}

module _ (world : Surroundings) (s : DagStore) (grown : IsGrown s)
    (new : (ps : List RevisionId) (ops : List CompoundOperation)
      → has s.nodes (world.make_revision_id ps ops) ≡ false) where
  abbrev Merges : Result (MergeResult × DagStore) → Type 0
  Merges r = OnOk (λ (m, s'). Grows s s') r

  head_put :
      (t t' : DagStore) (target : String) (r : RevisionId)
      → SameGraph s t
      → t'.heads ≡ put t.heads target r
      → IsGrown t'
      → Grows s t'
  head_put t t' target r g q is = record {
    grown = is;
    branches = λ b h.
        head_added s.heads t'.heads target b r (q ∙ ap (λ x. put x target r) g.same_heads)
          (ground (arith, h));
  }

  commit_merge-Merges :
      (target : String) (th sh : RevisionId) (progress : Progress) (cs : List NameCollision)
      (t : DagStore)
      → SameGraph s t
      → Merges (commit_merge world target th sh progress cs t)
  unfolding commit_merge
  commit_merge-Merges target th sh progress cs t g =
      let compound = merged_compound (progress.resolved_ops ++ map corrective_drop cs) in
      let ps = th ∷ sh ∷ [] in
      let r = world.make_revision_id ps compound in
      elim (Result-cases (append t r target ps compound)) [
        | inr (e, q) ↦ rw (q, commit_merge) tt
        | inl ((n, t'), q) ↦
            let (known, made, changed) = append_made t r target ps compound n t' q in
            let unused : has_node t r ≡ false =
              subst (λ x. has x r ≡ false) (sym g.same_nodes) (new ps compound) in
            rw (q, commit_merge)
              (head_put t t' target r g (ap (λ (x : DagStore). x.heads) changed)
                (append-IsGrown t r target ps compound n t' (IsGrown-same g grown) unused q))
      ]

  advance-Merges :
      (target : String) (sh : RevisionId) (t : DagStore)
      → SameGraph s t
      → Merges (advance world target sh t)
  unfolding advance
  advance-Merges target sh t g = elim (Result-cases (set_head t target sh)) [
    | inr (e, q) ↦ rw (q, advance) tt
    | inl (t', q) ↦ elim (Result-cases (get_node t' sh)) [
      | inr (e, p) ↦ rw (q, advance, p) tt
      | inl (n, p) ↦
          rw (q, advance, p)
            (head_put t t' target sh g (set_head_made t target sh t' q)
              (set_head-IsGrown t target sh t' (IsGrown-same g grown) q))
    ]
  ]

  three_way-Merges :
      (target : String) (th sh base : RevisionId) (t : DagStore)
      → SameGraph s t
      → Merges (three_way world target th sh base t)
  unfolding three_way
  three_way-Merges target th sh base t g =
      keeping _ t _ _ (operations_since-Keeps base th t) (λ ops_a t1 g1.
        keeping _ t1 _ _ (operations_since-Keeps base sh t1) (λ ops_b t2 g2.
          keeping _ t2 _ _ (replay-Keeps world.set_order base _ t2) (λ snapshot t3 g3.
            keeping _ t3 _ _
              (Keeps-reads
                (λ _. resolve_groups world.confirm (all_groups world ops_a ops_b snapshot) at_start)
                t3)
              (λ progress t4 g4. commit_merge-Merges target th sh progress _ t4 (
                SameGraph-trans g
                  (SameGraph-trans g1 (SameGraph-trans g2 (SameGraph-trans g3 g4))))))))

  after_base-Merges :
      (target : String) (th sh base : RevisionId) (t : DagStore)
      → SameGraph s t
      → Merges (after_base world target th sh base t)
  unfolding after_base
  after_base-Merges target th sh base t g =
      if-OnOk _ (is_fast_forward base sh) _ _ (λ q. tt)
        (λ q.
          if-OnOk _ (is_fast_forward base th) _ _ (λ p. advance-Merges target sh t g)
            (λ p. three_way-Merges target th sh base t g))

  pub merge-Merges : (target source : String) → Merges (merge world target source s)
  unfolding merge merge_heads
  merge-Merges target source = keeping _ s _ _ (Keeps-reads (λ x. head x target) s) (λ th t g.
      keeping _ t _ _ (Keeps-reads (λ x. head x source) t) (λ sh u h.
        if-OnOk _ (th == sh) _ _ (λ q. tt)
          (λ q. keeping _ u _ _ (merge_base-Keeps th sh u) (λ base v k.
            after_base-Merges target th sh base v (SameGraph-trans g (SameGraph-trans h k))))))
