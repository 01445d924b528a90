-- ===== src/Ddl/Toposort/Correct.antt =====
-- Kahn's loop ends, with every operation of the batch in an order that respects the edges.
use db_version_control.Prelude.{
  range_from, ℕ, zero, suc, ◌+◌, ◌≤◌, ◌<◌, true, false, not, ◌&&◌, some, List, [], ◌∷◌, ◌++◌, ◌==◌,
  nat_eq, nat_beq_iff, ◌≡◌, refl, ap, subst, inl, inr, arith, if◌then◌else◌, All, All-map_of,
  contains, contains-keep, Distinct, Distinct-keep, List-cases, Bool-cases, length, get_elem?, keep,
  ltb, length-append,
}
use db_version_control.Prelude.Errors.{ok}
use db_version_control.Model.Operations.{Operation}
use db_version_control.Ddl.Toposort.{
  DependencyEdge, Degrees, add_edges, build_dependency_edges, sort_indices, kahn, select, finish,
  toposort,
}
use db_version_control.Ddl.Toposort.Ranked.{build_dependency_edges-IsRanked}
use db_version_control.Ddl.Toposort.Acyclic.{rank_at, rank_at-eq}
use db_version_control.Ddl.Toposort.Rounds.{
  count, contains-sort_indices, between, pending, add_edges-successors, add_edges-indegree,
}
use db_version_control.Ddl.Toposort.Invariant.{DependenciesFirst, IsRound, IsRound-next}

without : ℕ → List ℕ → List ℕ
without n xs = keep (λ x. not (x == n)) xs

length-without :
    (n : ℕ) (xs : List ℕ)
    → Distinct xs
    → length xs ≡ length (without n xs) + (if contains xs n then 1 else 0)
unfolding without keep
length-without n [] d = refl
length-without n (x ∷ xs) d = elim (Bool-cases (x == n)) [
  | inl q ↦ ground (
    arith,
    length-without n xs d.1,
    ap (contains xs) ((nat_beq_iff x n).0 q),
    d.0,
    nat_beq_iff x n,
    nat_beq_iff n x,
  )
  | inr q ↦ ground (arith, length-without n xs d.1, nat_beq_iff x n, nat_beq_iff n x)
]

-- A list of distinct numbers below `n` has at most `n` of them, and `n` if it has all of them.
at_most :
    (n : ℕ) (xs : List ℕ) → Distinct xs → ((j : ℕ) → contains xs j ≡ true → j < n) → length xs ≤ n
unfolding without
at_most zero [] d h = omega arith
at_most zero (x ∷ xs) d h = absurd (omega (arith, h x (ground (arith, nat_beq_iff x x))))
at_most (suc n) xs d h =
    let fewer =
      at_most n (without n xs) (Distinct-keep (λ x. not (x == n)) xs d)
        (λ j m. ground (arith, contains-keep (λ x. not (x == n)) xs j, h j, nat_beq_iff j n)) in
    ground (arith, length-without n xs d, fewer)

at_least :
    (n : ℕ) (xs : List ℕ) → Distinct xs → ((j : ℕ) → j < n → contains xs j ≡ true) → n ≤ length xs
unfolding without
at_least zero xs d h = omega arith
at_least (suc n) xs d h =
    let fewer =
      at_least n (without n xs) (Distinct-keep (λ x. not (x == n)) xs d)
        (λ j m. ground (arith, contains-keep (λ x. not (x == n)) xs j, h j, nat_beq_iff j n)) in
    ground (arith, length-without n xs d, fewer, h n)

contains-range_from : (i n j : ℕ) → contains (range_from i n) j ≡ not (ltb j i) && ltb j (i + n)
unfolding range_from
contains-range_from i zero j = ground arith
contains-range_from i (suc n) j = ground (arith, contains-range_from (suc i) n j)

Distinct-range_from : (i n : ℕ) → Distinct (range_from i n)
unfolding range_from
Distinct-range_from i zero = tt
Distinct-range_from i (suc n) =
    (ground (arith, contains-range_from (suc i) n i), Distinct-range_from (suc i) n)

sort_empty : (xs : List ℕ) → sort_indices xs ≡ [] → xs ≡ []
sort_empty [] q = refl
sort_empty (x ∷ xs) q =
    ground (arith, contains-sort_indices (x ∷ xs) x, ap (λ ys. contains ys x) q, nat_beq_iff x x)

module _ (n : ℕ) (es : List DependencyEdge) (bound : All (λ e. e.after < n) es) where
  module _ (successors : ℕ → List ℕ)
      (edges : (i j : ℕ) → count (successors i) j ≡ between es i j) where
    -- With a round of fuel for each index left and one to end, the loop ends with none ready.
    kahn_ends :
        (fuel : ℕ) (indegree : ℕ → ℕ) (ready ordered : List ℕ)
        → fuel + length ordered ≡ suc n
        → IsRound n es bound indegree ready ordered
        → (order : List ℕ) × (last : ℕ → ℕ) × (kahn fuel successors indegree ready ordered
            ≡ ok order)
          × IsRound n es bound last [] order
    unfolding kahn
    kahn_ends zero indegree ready ordered full r =
        absurd
          (omega (arith, at_most n ordered r.ordered_distinct (λ j m. r.known j (ground arith))))
    kahn_ends (suc fuel) indegree ready ordered full r = elim (List-cases (sort_indices ready)) [
      | inl q ↦ (
        ordered,
        indegree,
        rw (q, kahn) refl,
        subst (λ x. IsRound n es bound indegree x ordered) (sort_empty ready q) r,
      )
      | inr (i, rest, q) ↦
          let (order, last, done, is) =
            kahn_ends fuel _ _ (ordered ++ i ∷ [])
              (omega (arith, full, length-append ordered (i ∷ [])))
              (IsRound-next n es bound successors edges indegree ready ordered r i rest q) in
          (order, last, rw (q, kahn) done, is)
    ]

  -- An index that is left out has an edge from another that is left out.
  missing :
      (fs : List DependencyEdge) (ordered : List ℕ) (j : ℕ) (P : DependencyEdge → Type 0)
      → All P fs
      → 0 < pending fs ordered j
      → (e : DependencyEdge) × P e × (e.after ≡ j) × (contains ordered e.before ≡ false)
  missing [] ordered j P h p = absurd (omega arith)
  missing (e ∷ fs) ordered j P h p =
      elim (Bool-cases (j == e.after && not (contains ordered e.before))) [
        | inl q ↦ (e, h.0, ground (arith, nat_beq_iff j e.after), ground arith)
        | inr q ↦ missing fs ordered j P h.1 (ground arith)
      ]

  module _ (rank : ℕ → ℕ)
      (ranked : All (λ e. (e.before < n) × (rank e.before < rank e.after)) es) where
    all_ordered :
        (k : ℕ) (indegree : ℕ → ℕ) (ordered : List ℕ)
        → IsRound n es bound indegree [] ordered
        → (j : ℕ) → rank j < k
        → j < n
        → contains ordered j ≡ true
    all_ordered zero indegree ordered r j low l = absurd (omega arith)
    all_ordered (suc k) indegree ordered r j low l = elim (Bool-cases (contains ordered j)) [
      | inl q ↦ q
      | inr q ↦
          let waits : 0 < pending es ordered j = ground (arith, r.complete j l, r.degree j) in
          let (e, (inside, less), to_j, out) = missing es ordered j _ ranked waits in
          let done =
            all_ordered k indegree ordered r e.before (omega (arith, less, low, ap rank to_j))
              inside in
          cc
    ]

abbrev no_edges : Degrees
no_edges = record { successors = λ i. []; indegree = λ i. 0 }

start-IsRound :
    (n : ℕ) (es : List DependencyEdge) (bound : All (λ e. e.after < n) es)
    → let indegree = (add_edges no_edges es).indegree in
      IsRound n es bound indegree (keep (λ i. indegree i == 0) (range_from 0 n)) []
start-IsRound n es bound =
    let indegree = (add_edges no_edges es).indegree in
    let inside = λ (j : ℕ). contains-keep (λ i. indegree i == 0) (range_from 0 n) j in
    record {
      degree = λ j. omega (arith, add_edges-indegree no_edges es j);
      ready_distinct =
          Distinct-keep (λ i. indegree i == 0) (range_from 0 n) (Distinct-range_from 0 n);
      ordered_distinct = tt;
      ready_new = λ j m. refl;
      ready_zero = λ j m. ground (arith, inside j);
      ordered_zero = λ j m. cc;
      complete = λ j l z. ground (arith, inside j, contains-range_from 0 n j);
      known = λ j m. ground (arith, inside j, contains-range_from 0 n j);
      sorted = tt;
    }

get_elem?-lt : {A : Type 0} (xs : List A) (i : ℕ) (a : A) → get_elem? xs i ≡ some a → i < length xs
get_elem?-lt [] i a q = cc
get_elem?-lt (x ∷ xs) zero a q = omega arith
get_elem?-lt (x ∷ xs) (suc i) a q = omega (arith, get_elem?-lt xs i a q)

-- All places of the batch, each once, and each after the places that its edges come from.
pub record IsSchedule (operations : List Operation) (order : List ℕ) : Type 0 where
  pub distinct : Distinct order
  pub members : (j : ℕ) → contains order j ≡ ltb j (length operations)
  pub first : DependenciesFirst (build_dependency_edges operations) [] order

-- For every batch, `toposort` returns: the operations at all the places of the batch, each place once,
-- and each after the places that `build_dependency_edges` asks for. It never raises
-- CircularDependencyError.
pub toposort_total :
    (operations : List Operation)
    → (order : List ℕ) × (toposort operations ≡ ok (select operations order))
      × IsSchedule operations order
unfolding toposort finish
toposort_total operations =
    let n = length operations in
    let es = build_dependency_edges operations in
    let is = build_dependency_edges-IsRanked operations in
    let bound : All (λ e. e.after < n) es =
      All-map_of es (λ e r. get_elem?-lt operations e.after r.second r.second_at) is in
    let d = add_edges no_edges es in
    let (order, last, done, r) =
      kahn_ends n es bound d.successors (λ i j. omega (arith, add_edges-successors no_edges es i j))
        (suc n) d.indegree (keep (λ i. d.indegree i == 0) (range_from 0 n)) [] (omega arith)
        (start-IsRound n es bound) in
    let ranked : All
        (λ e. (e.before < n) × (rank_at operations e.before < rank_at operations e.after)) es =
      All-map_of es
        (λ e r. (
          get_elem?-lt operations e.before r.first r.first_at,
          omega (
            arith,
            rank_at-eq operations e.before r.first r.first_at,
            rank_at-eq operations e.after r.second r.second_at,
            r.grows,
          ),
        ))
        is in
    let all = λ (j : ℕ) (l : j < n).
      all_ordered n es bound (rank_at operations) ranked (suc (rank_at operations j)) last order r j
        (omega arith) l in
    let full : (length order == n) ≡ true = ground (
      arith,
      at_least n order r.ordered_distinct all,
      at_most n order r.ordered_distinct (λ j m. r.known j (ground arith)),
    ) in
    (
      order,
      rw (done, full, toposort, finish) refl,
      record {
        distinct = r.ordered_distinct;
        members = λ j. ground (arith, r.known j, all j);
        first = r.sorted;
      },
    )
