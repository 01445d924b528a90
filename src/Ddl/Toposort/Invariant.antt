-- ===== src/Ddl/Toposort/Invariant.antt =====
-- What holds before every round of Kahn's loop.
use db_version_control.Prelude.{
  ℕ, ◌+◌, ◌≤◌, ◌<◌, true, false, ◌&&◌, ◌||◌, List, [], ◌∷◌, ◌++◌, ◌==◌, nat_eq, nat_beq_iff, ◌≡◌,
  refl, sym, ap, ◌∙◌, subst, inl, inr, arith, All, contains, contains-append, Distinct,
  Distinct-snoc, Bool-cases,
}
use db_version_control.Ddl.Toposort.{DependencyEdge, sort_indices, release}
use db_version_control.Ddl.Toposort.Rounds.{
  count, between, pending, pending-snoc, contains-sort_indices, Distinct-sort_indices, IsReleased,
  release-IsReleased,
}

-- Every edge into an index of the list comes from an index before it.
abbrev pub DependenciesFirst : List DependencyEdge → List ℕ → List ℕ → Type 0
DependenciesFirst es seen [] = Unit
DependenciesFirst es seen (i ∷ is) = (pending es seen i ≡ 0) × DependenciesFirst es (i ∷ seen) is

pending-same :
    (es : List DependencyEdge) (s t : List ℕ) (j : ℕ)
    → ((x : ℕ) → contains s x ≡ contains t x)
    → pending es s j ≡ pending es t j
pending-same [] s t j h = refl
pending-same (e ∷ es) s t j h = ground (arith, pending-same es s t j h, h e.before)

DependenciesFirst-snoc :
    (es : List DependencyEdge) (seen is : List ℕ) (i : ℕ)
    → DependenciesFirst es seen is
    → pending es (seen ++ is) i ≡ 0
    → DependenciesFirst es seen (is ++ i ∷ [])
DependenciesFirst-snoc es seen [] i h p =
    (pending-same es seen (seen ++ []) i (λ x. ground (arith, contains-append seen [] x)) ∙ p, tt)
DependenciesFirst-snoc es seen (k ∷ is) i (first, rest) p = (
  first,
  DependenciesFirst-snoc es (k ∷ seen) is i rest (
      pending-same es (k ∷ (seen ++ is)) (seen ++ k ∷ is) i
        (λ x. ground (arith, contains-append seen is x, contains-append seen (k ∷ is) x))
      ∙ p),
)

between-bound :
    (n : ℕ) (es : List DependencyEdge) (i j : ℕ)
    → All (λ e. e.after < n) es
    → 0 < between es i j
    → j < n
between-bound n [] i j h p = absurd (omega arith)
between-bound n (e ∷ es) i j h p = elim (Bool-cases (i == e.before && j == e.after)) [
  | inl q ↦ ground (arith, nat_beq_iff j e.after, h.0)
  | inr q ↦ between-bound n es i j h.1 (ground arith)
]

module _ (n : ℕ) (es : List DependencyEdge) (bound : All (λ e. e.after < n) es) where
  pub record IsRound (indegree : ℕ → ℕ) (ready ordered : List ℕ) : Type 0 where
    pub degree : (j : ℕ) → indegree j ≡ pending es ordered j
    pub ready_distinct : Distinct ready
    pub ordered_distinct : Distinct ordered
    pub ready_new : (j : ℕ) → contains ready j ≡ true → contains ordered j ≡ false
    pub ready_zero : (j : ℕ) → contains ready j ≡ true → indegree j ≡ 0
    pub ordered_zero : (j : ℕ) → contains ordered j ≡ true → indegree j ≡ 0
    pub complete : (j : ℕ) → j < n → indegree j ≡ 0 → contains ordered j || contains ready j ≡ true
    pub known : (j : ℕ) → contains ordered j || contains ready j ≡ true → j < n
    pub sorted : DependenciesFirst es [] ordered

  module _ (successors : ℕ → List ℕ) (edges : (i j : ℕ) → count (successors i) j ≡ between es i j)
      (indegree : ℕ → ℕ) (ready ordered : List ℕ) (r : IsRound indegree ready ordered) (i : ℕ)
      (rest : List ℕ) (popped : sort_indices ready ≡ i ∷ rest) where
    taken : contains ready i ≡ true
    taken =
        sym (contains-sort_indices ready i)
        ∙ ap (λ xs. contains xs i) popped
        ∙ ground (arith, nat_beq_iff i i)

    kept_after : Distinct (i ∷ rest)
    kept_after = subst Distinct popped (Distinct-sort_indices ready r.ready_distinct)

    left : (j : ℕ) → contains ready j ≡ j == i || contains rest j
    left j = sym (contains-sort_indices ready j) ∙ ap (λ xs. contains xs j) popped

    fewer : (j : ℕ) → pending es ordered j ≡ between es i j + pending es (ordered ++ i ∷ []) j
    fewer j = pending-snoc es ordered i j (r.ready_new i taken)

    released : IsReleased (successors i) indegree rest (release (successors i) indegree rest)
    released =
        release-IsReleased (successors i) indegree rest
          (λ j. omega (arith, edges i j, fewer j, r.degree j)) kept_after.1
          (λ j m. r.ready_zero j (ground (arith, left j)))

    few : (j : ℕ) → count (successors i) j ≤ indegree j
    few j = omega (arith, edges i j, fewer j, r.degree j)

    at_i : (j : ℕ) → (j == i) ≡ true → indegree j ≡ 0
    at_i j q = ap indegree ((nat_beq_iff j i).0 q) ∙ r.ready_zero i taken

    absent : (j : ℕ) → (j == i) ≡ true → contains rest j ≡ false
    absent j q = ap (contains rest) ((nat_beq_iff j i).0 q) ∙ kept_after.0

    pub IsRound-next :
        IsRound
          (release (successors i) indegree rest).0
          (release (successors i) indegree rest).1
          (ordered ++ i ∷ [])
    IsRound-next = record {
      degree = λ j. omega (arith, edges i j, fewer j, r.degree j, released.fallen j);
      ready_distinct = released.distinct;
      ordered_distinct = Distinct-snoc ordered i r.ordered_distinct (r.ready_new i taken);
      ready_new = λ j m. elim (Bool-cases (j == i)) [
        | inl q ↦ ground (arith, released.members j, few j, at_i j q, absent j q)
        | inr q ↦ ground (
          arith,
          contains-append ordered (i ∷ []) j,
          released.members j,
          few j,
          r.ready_new j,
          left j,
          r.ordered_zero j,
        )
      ];
      ready_zero =
          λ j m. ground (arith, released.members j, released.fallen j, r.ready_zero j, left j);
      ordered_zero = λ j m. elim (Bool-cases (j == i)) [
        | inl q ↦ omega (arith, released.fallen j, at_i j q)
        | inr q ↦
            ground (arith, released.fallen j, r.ordered_zero j, contains-append ordered (i ∷ []) j)
      ];
      complete = λ j l z. elim (Bool-cases (indegree j == 0)) [
        | inl q ↦
            ground (
              arith,
              contains-append ordered (i ∷ []) j,
              released.members j,
              left j,
              r.complete j l,
            )
        | inr q ↦
            ground
              (arith, contains-append ordered (i ∷ []) j, released.members j, released.fallen j)
      ];
      known = λ j m. elim (Bool-cases (count (successors i) j == 0)) [
        | inl q ↦
            r.known j
              (ground (arith, contains-append ordered (i ∷ []) j, left j, released.members j))
        | inr q ↦ between-bound n es i j bound (ground (arith, edges i j))
      ];
      sorted =
          DependenciesFirst-snoc es [] ordered i r.sorted (sym (r.degree i) ∙ r.ready_zero i taken);
    }
