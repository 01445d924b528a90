-- ===== src/Merge/Engine/Outcome.antt =====
-- What a merge does to the store.
use db_version_control.Prelude.{
  String, true, false, some, [], ◌==◌, string_eq, eq_iff, ◌≡◌, ◌≢◌, refl, sym, ap, ◌∙◌, subst, inl,
  inr, arith, Bool-cases,
}
use db_version_control.Prelude.Dict.{get, put, has_of_get, get_of_has}
use db_version_control.Prelude.Errors.{nothing_to_merge, Result, ok, err}
use db_version_control.Model.Operations.{Migration, RevisionId}
use db_version_control.Dag.Store.{DagStore, head, set_head}
use db_version_control.Dag.Store.Session.{reads, next, ◌>>=◌}
use db_version_control.Dag.Store.Grown.{IsGrown}
use db_version_control.Dag.Walk.{merge_base}
use db_version_control.Dag.Walk.Reach.{Reach}
use db_version_control.Dag.Walk.Ancestors.{get_node-eq}
use db_version_control.Dag.Walk.Yields.{Ends, IsCacheSound}
use db_version_control.Dag.Walk.Maximal.{Never}
use db_version_control.Dag.Walk.MergeBase.{merge_base_of_ancestor, merge_base_of_descendant}
use db_version_control.Merge.Engine.{Surroundings, advance, after_base, merge_heads, merge}

head-reads :
    (store : DagStore) (b : String) (r : RevisionId)
    → get store.heads b ≡ some r
    → reads (λ s. head s b) store ≡ ok (r, store)
unfolding head
head-reads store b r q = ground arith

module _ (world : Surroundings) where
  pub heads_read :
      (store : DagStore) (target source : String) (th sh : RevisionId)
      → get store.heads target ≡ some th
      → get store.heads source ≡ some sh
      → merge world target source store ≡ merge_heads world target th sh store
  unfolding merge
  heads_read store target source th sh p q =
      ap
        (λ (r : Result (RevisionId × DagStore)).
          next r (λ t. reads (λ s. head s source) >>= merge_heads world target t))
        (head-reads store target th p)
      ∙ ap (λ (r : Result (RevisionId × DagStore)). next r (merge_heads world target th))
          (head-reads store source sh q)

  after_up_to_date :
      (target : String) (th sh : RevisionId) (store : DagStore) (r : Result (RevisionId × DagStore))
      → Ends store.nodes store.heads (λ b. b ≡ sh) Never r
      → next r (after_base world target th sh) ≡ err (nothing_to_merge th sh)
  unfolding after_base
  after_up_to_date target th sh store (ok (b, st)) (g, e) = ground (arith, eq_iff b sh)
  after_up_to_date target th sh store (err e) h = absurd h

  -- If the source head is an ancestor of the target head, or the same, a merge raises
  -- NothingToMergeError.
  pub merge_up_to_date :
      (store : DagStore) (target source : String) (th sh : RevisionId)
      → IsGrown store
      → IsCacheSound store
      → get store.heads target ≡ some th
      → get store.heads source ≡ some sh
      → Reach store.nodes th sh
      → merge world target source store ≡ err (nothing_to_merge th sh)
  unfolding merge_heads
  merge_up_to_date store target source th sh g sound p q w =
      rw (heads_read store target source th sh p q) (elim (Bool-cases (th == sh)) [
        | inl e ↦ rw (e, merge_heads) refl
        | inr e ↦
            rw (e, merge_heads)
              (after_up_to_date target th sh store (merge_base th sh store)
                (merge_base_of_descendant store th sh g sound (g.heads_known target th p) w))
      ])

  pub advance_made :
      (target : String) (sh : RevisionId) (st : DagStore) (n : Migration)
      → get st.nodes sh ≡ some n
      → advance world target sh st
        ≡ ok (
          record { migration = n; fast_forward = true; conflicts_resolved = 0; notes = [] },
          record st { heads = put st.heads target sh },
        )
  unfolding advance set_head
  advance_made target sh st n q = ground (
    arith,
    has_of_get st.nodes sh n q,
    get_node-eq (record st { heads = put st.heads target sh }) sh n q,
  )

  after_fast_forward :
      (target : String) (th sh : RevisionId) (store : DagStore) (n : Migration)
      (r : Result (RevisionId × DagStore))
      → (th == sh) ≡ false
      → get store.nodes sh ≡ some n
      → Ends store.nodes store.heads (λ b. b ≡ th) Never r
      → (store' : DagStore) × (next r (after_base world target th sh)
          ≡ ok (
            record { migration = n; fast_forward = true; conflicts_resolved = 0; notes = [] },
            store',
          ))
        × (store'.nodes ≡ store.nodes)
        × (store'.heads ≡ put store.heads target sh)
  unfolding after_base
  after_fast_forward target th sh store n (err e) d q h = absurd h
  after_fast_forward target th sh store n (ok (b, st)) d q (g, e) = (
    record st { heads = put st.heads target sh },
    ground (
      arith,
      eq_iff b th,
      eq_iff b sh,
      eq_iff th sh,
      advance_made target sh st n (subst (λ x. get x sh ≡ some n) (sym g.same_nodes) q),
    ),
    g.same_nodes,
    ap (λ x. put x target sh) g.same_heads,
  )

  -- If the target head is an ancestor of the source head and not the same, a merge returns the
  -- source head's node as a fast forward: no node is added, and only the target's head changes, to
  -- the source head.
  pub merge_fast_forward :
      (store : DagStore) (target source : String) (th sh : RevisionId)
      → IsGrown store
      → IsCacheSound store
      → get store.heads target ≡ some th
      → get store.heads source ≡ some sh
      → th ≢ sh
      → Reach store.nodes sh th
      → (n : Migration) × (get store.nodes sh ≡ some n)
        × (store' : DagStore) × (merge world target source store
            ≡ ok (
              record { migration = n; fast_forward = true; conflicts_resolved = 0; notes = [] },
              store',
            ))
        × (store'.nodes ≡ store.nodes)
        × (store'.heads ≡ put store.heads target sh)
  unfolding merge_heads
  merge_fast_forward store target source th sh g sound p q d w =
      let differ : (th == sh) ≡ false = ground (arith, eq_iff th sh) in
      let (n, known) = get_of_has store.nodes sh (g.heads_known source sh q) in
      let (store', done, nodes, heads) =
        after_fast_forward target th sh store n (merge_base th sh store) differ known
          (merge_base_of_ancestor store th sh g sound (g.heads_known source sh q) w) in
      (
        n,
        known,
        store',
        rw (heads_read store target source th sh p q) (rw (differ, merge_heads) done),
        nodes,
        heads,
      )
