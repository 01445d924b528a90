-- ===== src/Dag/Walk/Keeps.antt =====
-- The walks change no node and no head, whatever the store.
use db_version_control.Prelude.{
  ℕ, zero, suc, Bool, true, false, Option, none, some, List, [], ◌∷◌, String, ◌≡◌, refl, ◌∙◌, inl,
  inr, if◌then◌else◌, Option-cases, Bool-cases, length, ◌==◌, string_eq, contains,
}
use db_version_control.Prelude.Dict.{keys}
use db_version_control.Prelude.Errors.{Result, ok, err, OnOk, Result-cases}
use db_version_control.Model.Operations.{RevisionId}
use db_version_control.Dag.Store.{DagStore, cached_ancestors, cache_ancestors, get_node}
use db_version_control.Dag.Store.Session.{Session, reads, next, ◌>>=◌}
use db_version_control.Dag.Walk.{
  ancestors_loop, edge_count, ancestors, has_descendant, maximal_of, sole, merge_base_of,
  merge_base, way_back, path_back, operations_on, operations_since, topological_order, replay,
  replay_revisions, visit_all,
}

pub record SameGraph (s s' : DagStore) : Type 0 where
  pub same_nodes : s'.nodes ≡ s.nodes
  pub same_heads : s'.heads ≡ s.heads

SameGraph-refl : (s : DagStore) → SameGraph s s
SameGraph-refl s = record { same_nodes = refl; same_heads = refl }

SameGraph-trans : {s t u : DagStore} → SameGraph s t → SameGraph t u → SameGraph s u
SameGraph-trans g h = record {
  same_nodes = h.same_nodes ∙ g.same_nodes;
  same_heads = h.same_heads ∙ g.same_heads;
}

module _ {A : Type 0} where
  abbrev pub KeepsFrom : DagStore → Result (A × DagStore) → Type 0
  KeepsFrom s r = OnOk (λ (a, s'). SameGraph s s') r

  abbrev pub Keeps : Session A → Type 0
  Keeps m = (s : DagStore) → KeepsFrom s (m s)

  reads_from :
      (s : DagStore) (r : Result A) → KeepsFrom s (elim r [ ok a ↦ ok (a, s) | err e ↦ err e ])
  reads_from s (ok a) = SameGraph-refl s
  reads_from s (err e) = tt

  pub Keeps-reads : (f : DagStore → Result A) → Keeps (reads f)
  Keeps-reads f s = reads_from s (f s)

  Keeps-if : (b : Bool) (m n : Session A) → Keeps m → Keeps n → Keeps (if b then m else n)
  Keeps-if true m n h k = h
  Keeps-if false m n h k = k

  pub KeepsFrom-trans :
      {s t : DagStore} (r : Result (A × DagStore)) → SameGraph s t → KeepsFrom t r → KeepsFrom s r
  KeepsFrom-trans (ok (a, u)) g h = SameGraph-trans g h
  KeepsFrom-trans (err e) g h = tt

module _ {A B : Type 0} where
  next-KeepsFrom :
      (s : DagStore) (r : Result (A × DagStore)) (f : A → Session B)
      → KeepsFrom s r
      → ((a : A) → Keeps (f a))
      → KeepsFrom s (next r f)
  next-KeepsFrom s (ok (a, t)) f g k = KeepsFrom-trans (f a t) g (k a t)
  next-KeepsFrom s (err e) f g k = tt

  Keeps-bind :
      (m : Session A) (f : A → Session B) → Keeps m → ((a : A) → Keeps (f a)) → Keeps (m >>= f)
  Keeps-bind m f h k s = next-KeepsFrom s (m s) f (h s) k

Keeps-option :
    {A B : Type 0} (o : Option B) (m : Session A) (f : B → Session A)
    → Keeps m
    → ((b : B) → Keeps (f b))
    → Keeps (elim o [ none ↦ m | some b ↦ f b ])
Keeps-option none m f h k = h
Keeps-option (some b) m f h k = k b

ancestors-Keeps : (r : RevisionId) → Keeps (ancestors r)
unfolding ancestors cache_ancestors
ancestors-Keeps r s = elim (Option-cases (cached_ancestors s r)) [
  | inr (c, q) ↦ rw (q, ancestors) (SameGraph-refl s)
  | inl q ↦ elim (Result-cases (ancestors_loop (suc (edge_count s.nodes)) s [] (r ∷ []))) [
    | inl (seen, p) ↦ rw (q, ancestors, p) (record { same_nodes = refl; same_heads = refl })
    | inr (e, p) ↦ rw (q, ancestors, p) tt
  ]
]

has_descendant-Keeps : (c : RevisionId) (common : List RevisionId) → Keeps (has_descendant c common)
unfolding has_descendant
has_descendant-Keeps c [] = SameGraph-refl
has_descendant-Keeps c (o ∷ common) = Keeps-if (o == c) _ _ (has_descendant-Keeps c common) (
    Keeps-bind _ _ (ancestors-Keeps o)
      (λ above. Keeps-if (contains above c) _ _ SameGraph-refl (has_descendant-Keeps c common)))

maximal_of-Keeps : (common todo : List RevisionId) → Keeps (maximal_of common todo)
unfolding maximal_of
maximal_of-Keeps common [] = SameGraph-refl
maximal_of-Keeps common (c ∷ todo) =
    Keeps-bind _ _ (has_descendant-Keeps c common)
      (λ below. Keeps-bind _ _ (maximal_of-Keeps common todo) (λ rest. SameGraph-refl))

sole-Keeps : (a b : RevisionId) (rs : List RevisionId) → Keeps (sole a b rs)
unfolding sole
sole-Keeps a b [] = λ s. tt
sole-Keeps a b (r ∷ []) = SameGraph-refl
sole-Keeps a b (r ∷ s ∷ more) = λ s. tt

merge_base_of-Keeps : (a b : RevisionId) (rs : List RevisionId) → Keeps (merge_base_of a b rs)
unfolding merge_base_of
merge_base_of-Keeps a b [] = λ s. tt
merge_base_of-Keeps a b (c ∷ cs) =
    Keeps-bind _ _ (maximal_of-Keeps (c ∷ cs) (c ∷ cs)) (λ maximal. sole-Keeps a b maximal)

pub merge_base-Keeps : (a b : RevisionId) → Keeps (merge_base a b)
unfolding merge_base
merge_base-Keeps a b = Keeps-if (a == b) _ _ SameGraph-refl (
    Keeps-bind _ _ (ancestors-Keeps a)
      (λ above_a. Keeps-bind _ _ (ancestors-Keeps b) (λ above_b. merge_base_of-Keeps a b _)))

way_back-Keeps : (from_rev : RevisionId) (ps : List RevisionId) → Keeps (way_back from_rev ps)
unfolding way_back
way_back-Keeps from_rev [] = SameGraph-refl
way_back-Keeps from_rev (p ∷ ps) =
    Keeps-if (p == from_rev) _ _
      (Keeps-bind _ _ (way_back-Keeps from_rev ps) (λ later. SameGraph-refl))
      (Keeps-bind _ _ (ancestors-Keeps p)
        (λ above. Keeps-bind _ _ (way_back-Keeps from_rev ps) (λ later. SameGraph-refl)))

path_back-Keeps :
    (fuel : ℕ) (from_rev rev : RevisionId) (path : List RevisionId)
    → Keeps (path_back fuel from_rev rev path)
unfolding path_back
path_back-Keeps zero from_rev rev path = λ s. tt
path_back-Keeps (suc fuel) from_rev rev path = Keeps-if (rev == from_rev) _ _ SameGraph-refl (
    Keeps-bind _ _ (Keeps-reads (λ s. get_node s rev)) (λ node.
      Keeps-bind _ _ (way_back-Keeps from_rev node.parents) (λ found.
        Keeps-option found _ _ (λ s. tt) (λ p. path_back-Keeps fuel from_rev p (rev ∷ path)))))

operations_on-Keeps : (path : List RevisionId) → Keeps (operations_on path)
unfolding operations_on
operations_on-Keeps [] = SameGraph-refl
operations_on-Keeps (rev ∷ path) =
    Keeps-bind _ _ (Keeps-reads (λ s. get_node s rev))
      (λ node. Keeps-bind _ _ (operations_on-Keeps path) (λ rest. SameGraph-refl))

pub operations_since-Keeps : (a b : RevisionId) → Keeps (operations_since a b)
unfolding operations_since
operations_since-Keeps a b s = elim (Bool-cases (a == b)) [
  | inl q ↦ rw (q, operations_since) (SameGraph-refl s)
  | inr q ↦
      rw (q, operations_since)
        (Keeps-bind _ _ (path_back-Keeps (suc (length (keys s.nodes))) a b []) operations_on-Keeps
          s)
]

pub topological_order-Keeps :
    (set_order : List RevisionId → List RevisionId) (r : RevisionId)
    → Keeps (topological_order set_order r)
unfolding topological_order
topological_order-Keeps set_order r =
    Keeps-bind _ _ (ancestors-Keeps r) (λ revs. Keeps-reads (λ s. visit_all set_order s revs))

pub replay-Keeps :
    (set_order : List RevisionId → List RevisionId) (r : RevisionId) (branch : String)
    → Keeps (replay set_order r branch)
unfolding replay
replay-Keeps set_order r branch = Keeps-bind _ _ (topological_order-Keeps set_order r) (λ ordered.
    Keeps-bind _ _ (Keeps-reads (λ s. replay_revisions s [] ordered)) (λ tables. SameGraph-refl))
