-- ===== src/Dag/Persistence/Appended.antt =====
-- Appending nodes whose parents come first, and setting heads, as `load` does.
use db_version_control.Prelude.{
  ◌≡◌, refl, ap, ◌∙◌, true, none, some, List, [], ◌∷◌, ◌==◌, String, string_eq, eq_iff, arith,
  if◌then◌else◌, contains, Bool-cases, inl, inr, beq_refl, subst, Distinct,
}
use db_version_control.Prelude.Dict.{Dict, get, put, keys, get-put, has-put, get_of_not_has}
use db_version_control.Prelude.Errors.{ok, Gives}
use db_version_control.Model.Operations.{Migration, RevisionId}
use db_version_control.Dag.Store.{DagStore, has_node, check_parents, append, set_head}
use db_version_control.Dag.Store.Grown.{Grown, Nodes, id_of_node}
use db_version_control.Dag.Walk.Topo.{ParentsFirst}
use db_version_control.Dag.Persistence.{append_all, set_heads}

-- The nodes of the revisions, one by one.
abbrev pub NodesAt : Nodes → List RevisionId → List Migration → Type 0
NodesAt nodes [] [] = Unit
NodesAt nodes [] (n ∷ ns) = ⊥
NodesAt nodes (r ∷ rs) [] = ⊥
NodesAt nodes (r ∷ rs) (n ∷ ns) = (get nodes r ≡ some n) × NodesAt nodes rs ns

check_parents_known :
    (store : DagStore) (ps : List RevisionId)
    → ((p : RevisionId) → contains ps p ≡ true → has_node store p ≡ true)
    → check_parents store ps ≡ ok tt
unfolding check_parents
check_parents_known store [] h = refl
check_parents_known store (p ∷ ps) h =
    rw (h p (ground (arith, beq_refl p)), check_parents)
      (check_parents_known store ps (λ q m. h q (ground arith)))

module _ (nodes : Nodes) (grown : Grown [] nodes) where
  -- After appending, exactly the revisions of the list are new, with their nodes.
  abbrev pub Extends : DagStore → List RevisionId → DagStore → Type 0
  Extends store order store' =
      (r : RevisionId)
      → get store'.nodes r ≡ (if contains order r then get nodes r else get store.nodes r)

  pub append_all-Extends :
      (order seen : List RevisionId) (ordered : List Migration) (store : DagStore)
      → NodesAt nodes order ordered
      → ParentsFirst nodes seen order
      → ((a : RevisionId) → contains seen a ≡ true → has_node store a ≡ true)
      → Gives (Extends store order) (append_all store ordered)
  unfolding append_all append
  append_all-Extends [] seen [] store at first known = (store, refl, λ r. refl)
  append_all-Extends [] seen (n ∷ ns) store at first known = absurd at
  append_all-Extends (x ∷ order) seen [] store at first known = absurd at
  append_all-Extends (x ∷ order) seen (n ∷ ns) store at first known =
      let named : n.id ≡ x = id_of_node [] nodes x n grown at.0 in
      let store1 : DagStore = record store {
        nodes = put store.nodes n.id n;
        heads = put store.heads n.branch n.id;
      } in
      let checked =
        check_parents_known store n.parents
          (λ p m. known p (first.0 p (record { node = n; stored = at.0; listed = m }))) in
      let (store', done, is) = append_all-Extends order (x ∷ seen) ns store1 at.1 first.1 (λ a m.
        ground (arith, has-put store.nodes n.id a n, known a, beq_refl a, eq_iff a x, named)) in
      (
        store',
        rw (checked, append_all, append) done,
        λ r.
            let at_x : get (put store.nodes n.id n) r
                ≡ (if r == x then some n else get store.nodes r) =
              subst
                (λ k.
                  get (put store.nodes n.id n) r ≡ (if r == k then some n else get store.nodes r))
                named (get-put store.nodes n.id r n) in
            let stored : (r == x) ≡ true → get nodes r ≡ some n =
              λ t. ap (get nodes) ((eq_iff r x).0 t) ∙ at.0 in
            is r ∙ ground (arith, at_x, stored),
      )

-- Each branch of the list has its head; the others are as they were, and no node changes.
pub record HeadsSet (heads : Dict String RevisionId) (store store' : DagStore) : Type 0 where
  pub same_nodes : store'.nodes ≡ store.nodes
  pub set : (b : String) (r : RevisionId) → get heads b ≡ some r → get store'.heads b ≡ some r
  pub others : (b : String) → get heads b ≡ none → get store'.heads b ≡ get store.heads b

pub set_heads-HeadsSet :
    (heads : Dict String RevisionId) (store : DagStore)
    → Distinct (keys heads)
    → ((b : String) (r : RevisionId) → get heads b ≡ some r → has_node store r ≡ true)
    → Gives (HeadsSet heads store) (set_heads store heads)
unfolding set_heads set_head get
set_heads-HeadsSet [] store d known =
    (store, refl, record { same_nodes = refl; set = λ b r q. cc; others = λ b q. refl })
set_heads-HeadsSet ((c, x) ∷ heads) store d known =
    let there : has_node store x ≡ true = known c x (ground (arith, beq_refl c)) in
    let store1 : DagStore = record store { heads = put store.heads c x } in
    let fresh : get heads c ≡ none = get_of_not_has heads c d.0 in
    let apart : (b : String) → (b == c) ≡ true → get heads b ≡ none =
      λ b t. ap (get heads) ((eq_iff b c).0 t) ∙ fresh in
    let (store', done, is) =
      set_heads-HeadsSet heads store1 d.1 (λ b r q. known b r (ground (arith, apart b))) in
    (
      store',
      rw (there, set_heads, set_head) done,
      record {
        same_nodes = is.same_nodes;
        set = λ b r q. elim (Bool-cases (b == c)) [
          | inl t ↦ is.others b (apart b t) ∙ ground (arith, get-put store.heads c b x)
          | inr t ↦ is.set b r (ground arith)
        ];
        others = λ b q. is.others b (ground arith) ∙ ground (arith, get-put store.heads c b x);
      },
    )
