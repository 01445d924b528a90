-- ===== src/Dag/Walk/Ancestors.antt =====
-- The loop of `ancestors` returns, and what it returns is the set of ancestors.
use db_version_control.Prelude.{
  ℕ, zero, suc, ◌+◌, ◌≤◌, true, false, some, List, [], ◌∷◌, ◌==◌, string_eq, eq_iff, ◌≡◌, ◌||◌,
  refl, sym, subst, ◌∙◌, Distinct, inl, inr, ◌↔◌, arith, contains, Bool-cases, length,
  if◌then◌else◌,
}
use db_version_control.Prelude.Dict.{get, has, get_of_has}
use db_version_control.Prelude.Errors.{ok}
use db_version_control.Model.Operations.{Migration, RevisionId}
use db_version_control.Dag.Store.{DagStore, get_node}
use db_version_control.Dag.Store.Grown.{Grown, parent-lt}
use db_version_control.Dag.Walk.{Nodes, extend, ancestors_loop, edge_count}
use db_version_control.Dag.Walk.Reach.{Parent, Reach, here, up, Reach-parent}

contains-extend :
    (ps fr : List RevisionId) (a : RevisionId)
    → contains (extend ps fr) a ≡ contains ps a || contains fr a
unfolding extend
contains-extend [] fr a = refl
contains-extend (p ∷ ps) fr a = ground (arith, contains-extend ps (p ∷ fr) a)

length-extend : (ps fr : List RevisionId) → length (extend ps fr) ≡ length ps + length fr
unfolding extend
length-extend [] fr = omega arith
length-extend (p ∷ ps) fr = omega (arith, length-extend ps (p ∷ fr))

-- The parent pointers that are still to be pushed.
abbrev open_edges : Nodes → List RevisionId → ℕ
open_edges [] seen = 0
open_edges ((k, n) ∷ d) seen = (if contains seen k then 0 else length n.parents) + open_edges d seen

open_edges-nil : (d : Nodes) → open_edges d [] ≡ edge_count d
open_edges-nil [] = refl
open_edges-nil ((k, n) ∷ d) = omega (arith, open_edges-nil d)

open_edges-le :
    (d : Nodes) (seen : List RevisionId) (r : RevisionId)
    → open_edges d (r ∷ seen) ≤ open_edges d seen
open_edges-le [] seen r = omega arith
open_edges-le ((k, n) ∷ d) seen r = ground (arith, open_edges-le d seen r)

open_edges-visit :
    (d : Nodes) (seen : List RevisionId) (r : RevisionId) (n : Migration)
    → contains seen r ≡ false
    → get d r ≡ some n
    → open_edges d (r ∷ seen) + length n.parents ≤ open_edges d seen
unfolding get
open_edges-visit [] seen r n new q = cc
open_edges-visit ((k, u) ∷ d) seen r n new q = elim (Bool-cases (r == k)) [
  | inl e ↦ ground (arith, open_edges-le d seen r, eq_iff r k, eq_iff k r)
  | inr e ↦ ground (arith, open_edges-visit d seen r n new, eq_iff r k, eq_iff k r)
]

pub get_node-eq :
    (store : DagStore) (r : RevisionId) (n : Migration)
    → get store.nodes r ≡ some n
    → get_node store r ≡ ok n
unfolding get_node
get_node-eq store r n q = rw (q, get_node)

-- A list without repetitions that holds exactly the ancestors of a revision, itself included.
pub record IsAncestorSet (nodes : Nodes) (r : RevisionId) (s : List RevisionId) : Type 0 where
  pub members : (a : RevisionId) → (contains s a ≡ true) ↔ Reach nodes r a
  pub unique : Distinct s

module _ (store : DagStore) (grown : Grown [] store.nodes) (start : RevisionId) where
  abbrev N : Nodes
  N = store.nodes

  -- What holds of `seen` and the frontier in each round.
  record Inv (seen frontier : List RevisionId) : Type 0 where
    unique : Distinct seen
    sound_seen : (a : RevisionId) → contains seen a ≡ true → Reach N start a
    sound_front : (a : RevisionId) → contains frontier a ≡ true → Reach N start a
    known : (a : RevisionId) → contains frontier a ≡ true → has N a ≡ true
    begun : contains seen start || contains frontier start ≡ true
    closed :
        (a p : RevisionId)
        → contains seen a ≡ true
        → Parent N a p
        → contains seen p || contains frontier p ≡ true

  complete :
      (seen : List RevisionId)
      → Inv seen []
      → {a b : RevisionId} → contains seen a ≡ true
      → Reach N a b
      → contains seen b ≡ true
  complete seen v m here = m
  complete seen v m (up {r} {p} s w) = complete seen v (ground (arith, v.closed r p m s)) w

  step-Inv :
      (seen frontier : List RevisionId) (rev : RevisionId) (n : Migration)
      → contains seen rev ≡ false
      → get N rev ≡ some n
      → Inv seen (rev ∷ frontier)
      → Inv (rev ∷ seen) (extend n.parents frontier)
  step-Inv seen frontier rev n new q v =
      let to_rev : Reach N start rev = v.sound_front rev (ground (arith, eq_iff rev rev)) in
      record {
        unique = (new, v.unique);
        sound_seen = λ a m. elim (Bool-cases (a == rev)) [
          | inl e ↦ v.sound_front a (ground arith)
          | inr e ↦ v.sound_seen a (ground arith)
        ];
        sound_front = λ a m. elim (Bool-cases (contains n.parents a)) [
          | inl e ↦ Reach-parent to_rev (record { node = n; stored = q; listed = e })
          | inr e ↦ v.sound_front a (ground (arith, contains-extend n.parents frontier a))
        ];
        known = λ a m. elim (Bool-cases (contains n.parents a)) [
          | inl e ↦ (parent-lt N rev a n grown q e).1
          | inr e ↦ v.known a (ground (arith, contains-extend n.parents frontier a))
        ];
        begun = ground (arith, v.begun, contains-extend n.parents frontier start);
        closed = λ a p m s. elim (Bool-cases (a == rev)) [
          | inl e ↦
              let same : some s.node ≡ some n =
                sym s.stored ∙ subst (λ x. get N x ≡ some n) (sym ((eq_iff a rev).0 e)) q in
              ground (arith, same, s.listed, contains-extend n.parents frontier p)
          | inr e ↦
              ground (arith, v.closed a p (ground arith) s, contains-extend n.parents frontier p)
        ];
      }

  skip-Inv :
      (seen frontier : List RevisionId) (rev : RevisionId)
      → contains seen rev ≡ true
      → Inv seen (rev ∷ frontier)
      → Inv seen frontier
  skip-Inv seen frontier rev m v = record {
    unique = v.unique;
    sound_seen = v.sound_seen;
    sound_front = λ a h. v.sound_front a (ground arith);
    known = λ a h. v.known a (ground arith);
    begun = ground (arith, v.begun, eq_iff start rev);
    closed = λ a p h s. ground (arith, v.closed a p h s, eq_iff p rev);
  }

  loop_lem :
      (fuel : ℕ) (seen frontier : List RevisionId)
      → Inv seen frontier
      → open_edges N seen + length frontier ≤ fuel
      → (s : List RevisionId) × (ancestors_loop fuel store seen frontier ≡ ok s)
        × IsAncestorSet N start s
  unfolding ancestors_loop
  loop_lem fuel seen [] v enough = (
    seen,
    refl,
    record {
      members = λ a. (v.sound_seen a, λ w. complete seen v (ground (arith, v.begun)) w);
      unique = v.unique;
    },
  )
  loop_lem zero seen (rev ∷ frontier) v enough = absurd (omega arith)
  loop_lem (suc fuel) seen (rev ∷ frontier) v enough = elim (Bool-cases (contains seen rev)) [
    | inl m ↦
        let (s, q, is) =
          loop_lem fuel seen frontier (skip-Inv seen frontier rev m v) (omega arith) in
        (s, ground arith, is)
    | inr m ↦
        let (n, stored) = get_of_has N rev (v.known rev (ground (arith, eq_iff rev rev))) in
        let (s, q, is) =
          loop_lem fuel (rev ∷ seen) (extend n.parents frontier)
            (step-Inv seen frontier rev n m stored v)
            (omega
              (arith, open_edges-visit N seen rev n m stored, length-extend n.parents frontier)) in
        (s, ground (arith, get_node-eq store rev n stored), is)
  ]

  pub ancestors_loop_lem :
      has N start ≡ true
      → (s : List RevisionId) × (ancestors_loop (suc (edge_count N)) store [] (start ∷ []) ≡ ok s)
        × IsAncestorSet N start s
  ancestors_loop_lem there =
      loop_lem (suc (edge_count N)) [] (start ∷ [])
        (record {
          unique = tt;
          sound_seen = λ a m. cc;
          sound_front = λ a m. subst (Reach N start) (sym ((eq_iff a start).0 (ground arith))) here;
          known =
              λ a m. subst (λ x. has N x ≡ true) (sym ((eq_iff a start).0 (ground arith))) there;
          begun = ground (arith, eq_iff start start);
          closed = λ a p m s. cc;
        })
        (omega (arith, open_edges-nil N))
