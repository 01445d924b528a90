-- ===== src/Dag/Persistence/RoundTrip.antt =====
-- What is saved is what is loaded.
use db_version_control.Prelude.{
  ◌≡◌, refl, sym, ap, ◌∙◌, Bool, true, false, none, some, List, [], String, string_eq,
  if◌then◌else◌, Bool-cases, inl, inr, subst, Distinct, Option-cases,
}
use db_version_control.Prelude.Dict.{Dict, get, keys, has, has_of_get, get_of_has, get_of_not_has}
use db_version_control.Prelude.Errors.{Gives, bind-Gives, ◌>>=◌}
use db_version_control.Model.Operations.{Migration, RevisionId}
use db_version_control.Dag.Store.{
  DagStore, empty, has_node, replace_all_heads, all_heads, all_revision_ids,
}
use db_version_control.Dag.Store.Grown.{IsGrown}
use db_version_control.Dag.Walk.Order.{Enumerates}
use db_version_control.Dag.Persistence.{
  Codec, dumps_node, dumps_heads, RepoFiles, save, load_heads, load, set_heads,
}
use db_version_control.Dag.Persistence.Texts.{loads-dumps_heads}
use db_version_control.Dag.Persistence.Saved.{Written, write_nodes-Written, read_nodes-lem}
use db_version_control.Dag.Persistence.Appended.{append_all-Extends, set_heads-HeadsSet}
use db_version_control.Dag.Persistence.Sorted.{topologically_sorted-IsSorted}

-- Two stores hold the same nodes under the same revisions, and have the same branches and heads.
pub record SameStore (store store' : DagStore) : Type 0 where
  pub same_nodes : (r : RevisionId) → get store'.nodes r ≡ get store.nodes r
  pub same_heads : (b : String) → get store'.heads b ≡ get store.heads b

module _ (codec : Codec) (store : DagStore) (g : IsGrown store)
    (one_head : Distinct (keys store.heads)) where
  -- Among the revisions of the store, all of them.
  restricted :
      (r : RevisionId) (m : Bool)
      → m ≡ has store.nodes r
      → (if m then get store.nodes r else none) ≡ get store.nodes r
  restricted r true q = refl
  restricted r false q = sym (get_of_not_has store.nodes r (sym q))

  set_saved :
      (s : DagStore)
      → ((r : RevisionId) → get s.nodes r ≡ get store.nodes r)
      → Gives (SameStore store) (set_heads (replace_all_heads s []) store.heads)
  unfolding replace_all_heads get
  set_saved s same =
      let (s', done, h) = set_heads-HeadsSet store.heads (replace_all_heads s []) one_head (λ b r q.
        let (n, stored) = get_of_has store.nodes r (g.heads_known b r q) in
        has_of_get s.nodes r n (same r ∙ stored)) in
      (
        s',
        done,
        record {
          same_nodes = λ r. ap (λ nodes. get nodes r) h.same_nodes ∙ same r;
          same_heads = λ b. elim (Option-cases (get store.heads b)) [
            | inl q ↦ h.others b q ∙ sym q
            | inr (r, q) ↦ h.set b r q ∙ sym q
          ];
        },
      )

  load_heads-lem :
      (s : DagStore)
      → ((r : RevisionId) → get s.nodes r ≡ get store.nodes r)
      → Gives
          (SameStore store)
          (load_heads codec (some (dumps_heads codec store.heads)) (replace_all_heads s []))
  unfolding load_heads replace_all_heads get
  load_heads-lem s same =
      bind-Gives {P = λ heads. heads ≡ store.heads} _ _
        (store.heads, loads-dumps_heads codec store.heads one_head, refl)
        (λ heads e.
          subst (λ h. Gives (SameStore store) (set_heads (replace_all_heads s []) h)) (sym e)
            (set_saved s same))

  load_saved :
      (glob_order : List RevisionId → List RevisionId) (node_files : Dict RevisionId codec.Text)
      → Enumerates glob_order
      → ((r : RevisionId) → has node_files r ≡ has_node store r)
      → ((r : RevisionId) (n : Migration)
          → get store.nodes r ≡ some n
          → get node_files r ≡ some (dumps_node codec n))
      → Gives (SameStore store) (
          load codec glob_order (record {
            nodes_dir = true;
            node_files = node_files;
            heads_file = some (dumps_heads codec (all_heads store));
          }))
  unfolding load all_heads get
  load_saved glob_order node_files enumerates members texts =
      bind-Gives _ _
        (read_nodes-lem codec store g.grown node_files (glob_order (keys node_files)) [] (λ r m.
          let (n, stored) =
            get_of_has store.nodes r (sym (members r) ∙ sym (enumerates (keys node_files) r) ∙ m) in
          (n, stored, texts r n stored)))
        (λ raw is.
          let same : (r : RevisionId) → get raw r ≡ get store.nodes r =
            λ r. is r ∙ restricted r _ (enumerates (keys node_files) r ∙ members r) in
          bind-Gives _ _ (topologically_sorted-IsSorted store raw same g.grown) (λ ordered sorted.
            bind-Gives _ _
              (append_all-Extends store.nodes g.grown sorted.order [] ordered empty sorted.nodes_at
                sorted.parents_first (λ a m. cc))
              (λ s ext. load_heads-lem s (λ r. ext r ∙ restricted r _ (sorted.members r)))))

  files_known :
      (files : RepoFiles codec) (node_files : Dict RevisionId codec.Text)
      → Written codec store g.grown (keys store.nodes) files.node_files node_files
      → ((r : RevisionId) → has files.node_files r ≡ true → has_node store r ≡ true)
      → (r : RevisionId) → has node_files r ≡ has_node store r
  files_known files node_files w old r = elim (Bool-cases (has store.nodes r)) [
    | inl h ↦
        let (n, q) = get_of_has store.nodes r h in
        has_of_get node_files r _ (w.written r n h q) ∙ sym h
    | inr h ↦ elim (Bool-cases (has node_files r)) [
      | inr m ↦ m ∙ sym h
      | inl m ↦
          let (text, q) = get_of_has node_files r m in
          let kept = old r (has_of_get files.node_files r text (sym (w.others r h) ∙ q)) in cc
    ]
  ]

  -- Where json.loads gives back what json.dumps wrote for objects that have no key twice, and
  -- UUID(hex=...) what .hex wrote: a store with the shape that every store has, and one head for
  -- each branch, is saved over files of some of its revisions, and loaded again. Neither raises an
  -- error, and the store that comes back has the same nodes, branches and heads, in whatever order
  -- the directory lists its files.
  pub load-save :
      (glob_order : List RevisionId → List RevisionId) (files : RepoFiles codec)
      → Enumerates glob_order
      → ((r : RevisionId) → has files.node_files r ≡ true → has_node store r ≡ true)
      → Gives (SameStore store) (save codec store files >>= load codec glob_order)
  unfolding save all_revision_ids
  load-save glob_order files enumerates old =
      let (node_files, done, w) =
        write_nodes-Written codec store g.grown (keys store.nodes) files.node_files (λ r m. m) in
      let written =
        load_saved glob_order node_files enumerates (λ r. files_known files node_files w old r)
          (λ r n q. w.written r n (has_of_get store.nodes r n q) q) in
      rw (done, save) written
