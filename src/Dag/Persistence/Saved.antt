-- ===== src/Dag/Persistence/Saved.antt =====
-- The files that `save` writes, and the dict that `load` reads from them.
use db_version_control.Prelude.{
  ◌≡◌, refl, sym, ap, ◌∙◌, true, false, some, List, [], ◌∷◌, ◌==◌, string_eq, eq_iff, arith,
  if◌then◌else◌, contains, Bool-cases, inl, inr, beq_refl, subst,
}
use mathlib.Core.Option.{some-injective}
use db_version_control.Prelude.Dict.{Dict, get, put, get-put, get_of_has}
use db_version_control.Prelude.Errors.{Gives}
use db_version_control.Model.Operations.{Migration, RevisionId}
use db_version_control.Dag.Store.{DagStore, has_node}
use db_version_control.Dag.Store.Grown.{Grown, id_of_node}
use db_version_control.Dag.Walk.Ancestors.{get_node-eq}
use db_version_control.Dag.Persistence.{dumps_node}
use db_version_control.Dag.Persistence.Texts.{loads-dumps_node}
use db_version_control.Dag.Persistence.{Codec, write_nodes, read_nodes}

module _ (codec : Codec) (store : DagStore) (grown : Grown [] store.nodes) where
  -- The files of the revisions named hold their nodes; the others are as they were.
  pub record Written (ids : List RevisionId) (files files' : Dict RevisionId codec.Text)
      : Type 0 where
    pub written :
        (r : RevisionId) (n : Migration)
        → contains ids r ≡ true
        → get store.nodes r ≡ some n
        → get files' r ≡ some (dumps_node codec n)
    pub others : (r : RevisionId) → contains ids r ≡ false → get files' r ≡ get files r

  pub write_nodes-Written :
      (ids : List RevisionId) (files : Dict RevisionId codec.Text)
      → ((r : RevisionId) → contains ids r ≡ true → has_node store r ≡ true)
      → Gives (Written ids files) (write_nodes codec store ids files)
  unfolding write_nodes
  write_nodes-Written [] files known =
      (files, refl, record { written = λ r n m q. cc; others = λ r m. refl })
  write_nodes-Written (x ∷ ids) files known =
      let (node, stored) = get_of_has store.nodes x (known x (ground (arith, beq_refl x))) in
      let files1 = put files x (dumps_node codec node) in
      let (files', done, w) = write_nodes-Written ids files1 (λ r m. known r (ground arith)) in
      (
        files',
        rw (get_node-eq store x node stored, write_nodes) done,
        record {
          written = λ r n m q. elim (Bool-cases (contains ids r)) [
            | inl k ↦ w.written r n k q
            | inr k ↦
                let here : (r == x) ≡ true = ground arith in
                let same : some node ≡ some n =
                  sym stored ∙ ap (get store.nodes) (sym ((eq_iff r x).0 here)) ∙ q in
                w.others r k
                ∙ ground (arith, get-put files x r (dumps_node codec node))
                ∙ ap (λ m. some (dumps_node codec m)) (some-injective _ _ same)
          ];
          others = λ r m.
              w.others r (ground arith) ∙ ground (arith, get-put files x r (dumps_node codec node));
        },
      )

  -- Reading files that hold nodes of the store gives those nodes.
  pub read_nodes-lem :
      (files : Dict RevisionId codec.Text) (paths : List RevisionId)
      (raw : Dict RevisionId Migration)
      → ((r : RevisionId)
          → contains paths r ≡ true
          → (n : Migration) × (get store.nodes r ≡ some n)
            × (get files r ≡ some (dumps_node codec n)))
      → Gives
          (λ raw'.
            (r : RevisionId)
            → get raw' r ≡ (if contains paths r then get store.nodes r else get raw r))
          (read_nodes codec files paths raw)
  unfolding read_nodes
  read_nodes-lem files [] raw h = (raw, refl, λ r. refl)
  read_nodes-lem files (x ∷ paths) raw h =
      let (n, stored, text) = h x (ground (arith, beq_refl x)) in
      let named : n.id ≡ x = id_of_node [] store.nodes x n grown stored in
      let (raw', done, is) =
        read_nodes-lem files paths (put raw n.id n) (λ r m. h r (ground arith)) in
      (
        raw',
        rw (text, read_nodes, loads-dumps_node codec n) done,
        λ r.
            let at_x : get (put raw n.id n) r ≡ (if r == x then some n else get raw r) =
              subst (λ k. get (put raw n.id n) r ≡ (if r == k then some n else get raw r)) named
                (get-put raw n.id r n) in
            let known : (r == x) ≡ true → get store.nodes r ≡ some n =
              λ t. ap (get store.nodes) ((eq_iff r x).0 t) ∙ stored in
            is r ∙ elim (Bool-cases (contains paths r)) [
              | inl m ↦ ground arith
              | inr m ↦ ground (arith, at_x, known)
            ],
      )
