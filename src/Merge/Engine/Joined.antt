-- ===== src/Merge/Engine/Joined.antt =====
-- Where a merge ends with a result: what it did to the heads and the graph.
use db_version_control.Prelude.{
  ℕ, String, true, false, some, List, [], ◌∷◌, ◌++◌, map, ◌==◌, string_eq, eq_iff, ◌≡◌, sym, ap,
  ◌∙◌, subst, inl, inr, arith, Bool-cases,
}
use db_version_control.Prelude.Dict.{Dict, get, put, has, get-put, get_of_has, values}
use db_version_control.Prelude.Errors.{Error, Result, ok, err, OnOk, of_OnOk, Result-cases}
use db_version_control.Model.Schema.{Snapshot}
use db_version_control.Model.Operations.{CompoundOperation, Migration, RevisionId}
use db_version_control.Dag.Store.{DagStore, append}
use db_version_control.Dag.Store.Session.{Session, pure, reads, next}
use db_version_control.Dag.Store.Grown.{IsGrown, Grown, append_made, id_of_node}
use db_version_control.Dag.Walk.{
  Nodes, merge_base, operations_since, replay, topological_order, replay_revisions,
}
use db_version_control.Dag.Walk.Reach.{Reach, here, up, Reach-has}
use db_version_control.Dag.Walk.Order.{Enumerates, IsTopological, topological_order-Yields}
use db_version_control.Dag.Walk.Since.{IsSince, IsNoAncestor, operations_since-Yields}
use db_version_control.Dag.Walk.Yields.{Good, Ends, Yields, Yields-bind, IsCacheSound}
use db_version_control.Dag.Walk.MergeBase.{IsLowestCommon, IsRefusal, merge_base_correct}
use db_version_control.Merge.NameCollision.{NameCollision, describe, find_name_collisions}
use db_version_control.Merge.Engine.{
  MergeResult, Surroundings, Progress, at_start, commit_merge, three_way, advance, after_base,
  all_groups, merge_heads, merge, resolve_groups, merged_compound, corrective_drop,
}
use db_version_control.Merge.Engine.Outcome.{heads_read, advance_made}

-- The head of `target` alone moved, to a node from which both old heads are reached.
pub record IsJoined (store : DagStore) (target : String) (th sh : RevisionId) (r : MergeResult)
    (store' : DagStore) : Type 0 where
  pub moved : get store'.heads target ≡ some r.migration.id
  pub others : (b : String) → (b == target) ≡ false → get store'.heads b ≡ get store.heads b
  pub from_target : Reach store'.nodes r.migration.id th
  pub from_source : Reach store'.nodes r.migration.id sh

abbrev pub Joins :
    DagStore → String → RevisionId → RevisionId → Result (MergeResult × DagStore) → Type 0
Joins store target th sh = OnOk λ (r, store'). IsJoined store target th sh r store'

next-OnOk :
    {A B : Type 0} (N : Nodes) (H : Dict String RevisionId) (P : A → Type 0) (E : Error → Type 0)
    (Q : B × DagStore → Type 0) (r : Result (A × DagStore)) (f : A → Session B)
    → Ends N H P E r
    → ((a : A) (st : DagStore) → Good N H st → P a → OnOk Q (f a st))
    → OnOk Q (next r f)
next-OnOk N H P E Q (ok (a, st)) f (g, p) k = k a st g p
next-OnOk N H P E Q (err e) f h k = tt

reads-OnOk :
    {A B : Type 0} (Q : B × DagStore → Type 0) (m : Result A) (f : A → Session B) (st : DagStore)
    → ((a : A) → OnOk Q (f a st))
    → OnOk Q (next (reads (λ _. m) st) f)
reads-OnOk Q (ok a) f st k = k a
reads-OnOk Q (err e) f st k = tt

reads-pure-Ends :
    {A B : Type 0} (N : Nodes) (H : Dict String RevisionId) (m : Result A) (f : A → B)
    (st : DagStore)
    → Good N H st
    → Ends N H (λ (b : B). Unit) (λ e. Unit) (next (reads (λ _. m) st) (λ a. pure (f a)))
reads-pure-Ends N H (ok a) f st good = (good, tt)
reads-pure-Ends N H (err e) f st good = tt

replay-Ends :
    (set_order : List RevisionId → List RevisionId)
    → Enumerates set_order
    → (N : Nodes) (H : Dict String RevisionId) → Grown [] N
    → (r : RevisionId) (branch : String) → has N r ≡ true
    → Yields N H (λ (s : Snapshot). Unit) (λ e. Unit) (replay set_order r branch)
unfolding replay
replay-Ends set_order enumerates N H grown r branch there =
    Yields-bind N H (IsTopological N r) (λ s. Unit) (λ e. Unit) (topological_order set_order r) _
      (topological_order-Yields set_order enumerates N H grown (λ e. Unit) r there)
      λ ordered _ st good.
        reads-pure-Ends N H (replay_revisions st [] ordered)
          (λ tables. record { branch = branch; revision_id = some r; tables = values tables }) st
          good

module _ (world : Surroundings) (store : DagStore) (target : String) (th sh : RevisionId) where
  IsJoined-node :
      (st st' : DagStore) (rid : RevisionId) (ops : List CompoundOperation) (n : Migration)
      (count : ℕ) (notes : List String)
      → st.heads ≡ store.heads
      → append st rid target (th ∷ sh ∷ []) ops ≡ ok (n, st')
      → IsJoined store target th sh
          (record {
            migration = n;
            fast_forward = false;
            conflicts_resolved = count;
            notes = notes;
          })
          st'
  IsJoined-node st st' rid ops n count notes same q =
      let (known, made, changed) = append_made st rid target (th ∷ sh ∷ []) ops n st' q in
      let named : n.id ≡ rid = ap (λ (m : Migration). m.id) made in
      let nodes : st'.nodes ≡ put st.nodes rid n = ap (λ (s : DagStore). s.nodes) changed in
      let heads : st'.heads ≡ put st.heads target rid = ap (λ (s : DagStore). s.heads) changed in
      let there : get st'.nodes n.id ≡ some n =
        rw (nodes, named) (ground (arith, get-put st.nodes rid rid n, eq_iff rid rid)) in
      let parents : n.parents ≡ th ∷ sh ∷ [] = ap (λ (m : Migration). m.parents) made in
      record {
        moved =
            rw (heads, named)
              (ground (arith, get-put st.heads target target rid, eq_iff target target));
        others = λ b d. ground (arith, heads, same, get-put st.heads target b rid);
        from_target =
            up
              (record {
                node = n;
                stored = there;
                listed = rw parents (ground (arith, eq_iff th th));
              })
              here;
        from_source =
            up
              (record {
                node = n;
                stored = there;
                listed = rw parents (ground (arith, eq_iff sh sh));
              })
              here;
      }

  commit_merge-Joins :
      (st : DagStore) (p : Progress) (cs : List NameCollision)
      → st.heads ≡ store.heads
      → Joins store target th sh (commit_merge world target th sh p cs st)
  unfolding commit_merge
  commit_merge-Joins st p cs same =
      let ops = merged_compound (p.resolved_ops ++ map corrective_drop cs) in
      let ps = th ∷ sh ∷ [] in
      let rid = world.make_revision_id ps ops in
      elim (Result-cases (append st rid target ps ops)) [
        | inr (e, q) ↦ rw (q, commit_merge) tt
        | inl ((n, st'), q) ↦
            rw (q, commit_merge)
              (IsJoined-node st st' rid ops n p.conflicts_resolved
                (map (describe world.texts.repr) cs) same q)
      ]

  advance-Joins :
      (st : DagStore)
      → Grown [] store.nodes
      → st.nodes ≡ store.nodes
      → st.heads ≡ store.heads
      → has store.nodes sh ≡ true
      → Reach store.nodes sh th
      → Joins store target th sh (advance world target sh st)
  advance-Joins st grown nodes heads there w =
      let (n, known) = get_of_has store.nodes sh there in
      let named = id_of_node [] store.nodes sh n grown known in
      rw (advance_made world target sh st n (subst (λ x. get x sh ≡ some n) (sym nodes) known))
        (record {
          moved =
              rw (heads, named)
                (ground (arith, get-put store.heads target target sh, eq_iff target target));
          others = λ b d. rw heads (ground (arith, get-put store.heads target b sh));
          from_target = rw (nodes, named) w;
          from_source = rw (nodes, named) here;
        })

  module _ (enumerates : Enumerates world.set_order) (g : IsGrown store) where
    three_way-Joins :
        (st : DagStore) (base : RevisionId)
        → Good store.nodes store.heads st
        → has store.nodes th ≡ true
        → has store.nodes sh ≡ true
        → has store.nodes base ≡ true
        → Joins store target th sh (three_way world target th sh base st)
    unfolding three_way
    three_way-Joins st base good there_t there_s there_b =
        let N = store.nodes in
        let H = store.heads in
        let Q = λ (x : MergeResult × DagStore). IsJoined store target th sh x.0 x.1 in
        next-OnOk N H (IsSince N base th) (IsNoAncestor N base th) Q (operations_since base th st) _
          (operations_since-Yields N H base th g.grown there_t st good)
          λ ops_a st1 good1 _.
            next-OnOk N H (IsSince N base sh) (IsNoAncestor N base sh) Q
              (operations_since base sh st1) _
              (operations_since-Yields N H base sh g.grown there_s st1 good1)
              λ ops_b st2 good2 _.
                next-OnOk N H (λ _. Unit) (λ _. Unit) Q
                  (replay world.set_order base "__merge_base__" st2) _
                  (replay-Ends world.set_order enumerates N H g.grown base "__merge_base__" there_b
                    st2 good2)
                  λ snapshot st3 good3 _.
                    reads-OnOk Q
                      (resolve_groups world.confirm (all_groups world ops_a ops_b snapshot)
                        at_start)
                      _ st3
                      λ progress.
                        commit_merge-Joins st3 progress (find_name_collisions ops_a ops_b)
                          good3.same_heads

    after_base-Joins :
        (st : DagStore) (base : RevisionId)
        → Good store.nodes store.heads st
        → has store.nodes th ≡ true
        → has store.nodes sh ≡ true
        → IsLowestCommon store.nodes th sh base
        → Joins store target th sh (after_base world target th sh base st)
    unfolding after_base
    after_base-Joins st base good there_t there_s low = elim (Bool-cases (base == sh)) [
      | inl q ↦ rw (q, after_base) tt
      | inr q ↦ elim (Bool-cases (base == th)) [
        | inl e ↦
            rw (q, e, after_base)
              (advance-Joins st g.grown good.same_nodes good.same_heads there_s
                (subst (Reach store.nodes sh) ((eq_iff base th).0 e) low.of_right))
        | inr e ↦
            rw (q, e, after_base)
              (three_way-Joins st base good there_t there_s (Reach-has g.grown there_t low.of_left))
      ]
    ]

-- Where a merge of two branches ends with a result, by a fast forward or by a new node, the head
-- of the target branch is the result's node and both old heads are reached from it, and every other
-- branch has the head it had.
pub merge_joins :
    (world : Surroundings) (store store' : DagStore) (target source : String) (th sh : RevisionId)
    (r : MergeResult)
    → Enumerates world.set_order
    → IsGrown store
    → IsCacheSound store
    → get store.heads target ≡ some th
    → get store.heads source ≡ some sh
    → merge world target source store ≡ ok (r, store')
    → IsJoined store target th sh r store'
unfolding merge_heads
merge_joins world store store' target source th sh r enumerates g sound p q done =
    let there_t = g.heads_known target th p in
    let there_s = g.heads_known source sh q in
    let Q = λ (x : MergeResult × DagStore). IsJoined store target th sh x.0 x.1 in
    of_OnOk Q (merge_heads world target th sh store)
      (elim (Bool-cases (th == sh)) [
        | inl e ↦ rw (e, merge_heads) tt
        | inr e ↦
            rw (e, merge_heads)
              (next-OnOk store.nodes store.heads (IsLowestCommon store.nodes th sh)
                (IsRefusal store.nodes th sh) Q (merge_base th sh store)
                (after_base world target th sh)
                (merge_base_correct store th sh g sound there_t there_s)
                λ base st good low.
                  after_base-Joins world store target th sh enumerates g st base good there_t
                    there_s low)
      ])
      (sym (heads_read world store target source th sh p q) ∙ done)
