-- ===== src/Ddl/Toposort/Rounds.antt =====
-- One round of Kahn's algorithm: the sort of the ready indices, and the release of successors.
use db_version_control.Prelude.{
  ℕ, ◌+◌, ◌-◌, ◌≤◌, true, false, not, ◌&&◌, ◌||◌, List, [], ◌∷◌, ◌++◌, ◌==◌, nat_eq, nat_beq_iff,
  ◌≡◌, refl, ap, inl, inr, arith, if◌then◌else◌, leb, contains, contains-append, Distinct,
  Distinct-snoc, Bool-cases,
}
use db_version_control.Ddl.Toposort.{
  DependencyEdge, Degrees, add_edge, add_edges, insert_index, sort_indices, release,
}

-- How often an index stands in a list.
abbrev pub count : List ℕ → ℕ → ℕ
count [] j = 0
count (x ∷ xs) j = (if j == x then 1 else 0) + count xs j

pub contains-count : (xs : List ℕ) (j : ℕ) → contains xs j ≡ not (count xs j == 0)
contains-count [] j = ground arith
contains-count (x ∷ xs) j = ground (arith, contains-count xs j)

-- The edges from `i` to `j`, and those into `j` whose other end is not done yet.
abbrev pub between : List DependencyEdge → ℕ → ℕ → ℕ
between [] i j = 0
between (e ∷ es) i j = (if i == e.before && j == e.after then 1 else 0) + between es i j

abbrev pub pending : List DependencyEdge → List ℕ → ℕ → ℕ
pending [] done j = 0
pending (e ∷ es) done j =
    (if j == e.after && not (contains done e.before) then 1 else 0) + pending es done j

count-append : (xs ys : List ℕ) (j : ℕ) → count (xs ++ ys) j ≡ count xs j + count ys j
count-append [] ys j = omega arith
count-append (x ∷ xs) ys j = omega (arith, count-append xs ys j)

-- Doing `i` takes away the edges from `i`.
pub pending-snoc :
    (es : List DependencyEdge) (done : List ℕ) (i j : ℕ)
    → contains done i ≡ false
    → pending es done j ≡ between es i j + pending es (done ++ i ∷ []) j
pending-snoc [] done i j new = refl
pending-snoc (e ∷ es) done i j new = ground (
  arith,
  pending-snoc es done i j new,
  contains-append done (i ∷ []) e.before,
  nat_beq_iff i e.before,
  nat_beq_iff e.before i,
)

pub add_edges-successors :
    (d : Degrees) (es : List DependencyEdge) (i j : ℕ)
    → count ((add_edges d es).successors i) j ≡ count (d.successors i) j + between es i j
unfolding add_edges add_edge
add_edges-successors d [] i j = omega arith
add_edges-successors d (e ∷ es) i j = ground (
  arith,
  add_edges-successors (add_edge d e) es i j,
  count-append (d.successors i) (e.after ∷ []) j,
)

pub add_edges-indegree :
    (d : Degrees) (es : List DependencyEdge) (j : ℕ)
    → (add_edges d es).indegree j ≡ d.indegree j + pending es [] j
unfolding add_edges add_edge
add_edges-indegree d [] j = omega arith
add_edges-indegree d (e ∷ es) j = ground (arith, add_edges-indegree (add_edge d e) es j)

contains-insert_index :
    (i : ℕ) (xs : List ℕ) (j : ℕ) → contains (insert_index i xs) j ≡ j == i || contains xs j
unfolding insert_index
contains-insert_index i [] j = refl
contains-insert_index i (x ∷ xs) j = ground (arith, contains-insert_index i xs j)

pub contains-sort_indices : (xs : List ℕ) (j : ℕ) → contains (sort_indices xs) j ≡ contains xs j
unfolding sort_indices
contains-sort_indices [] j = refl
contains-sort_indices (x ∷ xs) j =
    ground (arith, contains-insert_index x (sort_indices xs) j, contains-sort_indices xs j)

Distinct-insert_index :
    (i : ℕ) (xs : List ℕ) → Distinct xs → contains xs i ≡ false → Distinct (insert_index i xs)
unfolding insert_index
Distinct-insert_index i [] h new = (refl, tt)
Distinct-insert_index i (x ∷ xs) h new = elim (Bool-cases (leb i x)) [
  | inl q ↦ rw q (new, h)
  | inr q ↦ rw q (
    ground (arith, contains-insert_index i xs x, nat_beq_iff i x, nat_beq_iff x i),
    Distinct-insert_index i xs h.1 (ground arith),
  )
]

pub Distinct-sort_indices : (xs : List ℕ) → Distinct xs → Distinct (sort_indices xs)
unfolding sort_indices
Distinct-sort_indices [] h = tt
Distinct-sort_indices (x ∷ xs) h =
    Distinct-insert_index x (sort_indices xs) (Distinct-sort_indices xs h.1)
      (ground (arith, contains-sort_indices xs x))

-- What releasing some successors leaves: each degree falls by the number of its occurrences, and an
-- index becomes ready exactly when its degree falls to zero.
pub record IsReleased (more : List ℕ) (indegree : ℕ → ℕ) (ready : List ℕ) (after : (ℕ → ℕ) × List ℕ)
    : Type 0 where
  pub fallen : (j : ℕ) → after.0 j ≡ indegree j - count more j
  pub distinct : Distinct after.1
  pub members :
      (j : ℕ) → contains after.1 j ≡ contains ready j || not (count more j == 0) && after.0 j == 0

IsReleased-cons :
    (s : ℕ) (more : List ℕ) (indegree lower : ℕ → ℕ) (ready ready' : List ℕ)
    (after : (ℕ → ℕ) × List ℕ)
    → ((j : ℕ) → lower j ≡ (if j == s then indegree j - 1 else indegree j))
    → ((j : ℕ) → contains ready' j ≡ contains ready j || j == s && indegree s - 1 == 0)
    → ((j : ℕ) → count (s ∷ more) j ≤ indegree j)
    → ((j : ℕ) → contains ready j ≡ true → indegree j ≡ 0)
    → IsReleased more lower ready' after
    → IsReleased (s ∷ more) indegree ready after
IsReleased-cons s more indegree lower ready ready' after low members enough zeros is = record {
  fallen = λ j. ground (arith, is.fallen j, low j);
  distinct = is.distinct;
  members = λ j. elim (Bool-cases (j == s)) [
    | inl q ↦ ground (
      arith,
      ap indegree ((nat_beq_iff j s).0 q),
      is.members j,
      is.fallen j,
      low j,
      members j,
      enough j,
      zeros j,
    )
    | inr q ↦ ground (arith, is.members j, is.fallen j, low j, members j)
  ];
}

pub release-IsReleased :
    (more : List ℕ) (indegree : ℕ → ℕ) (ready : List ℕ)
    → ((j : ℕ) → count more j ≤ indegree j)
    → Distinct ready
    → ((j : ℕ) → contains ready j ≡ true → indegree j ≡ 0)
    → IsReleased more indegree ready (release more indegree ready)
unfolding release
release-IsReleased [] indegree ready enough distinct zeros = record {
  fallen = λ j. omega arith;
  distinct = distinct;
  members = λ j. ground arith;
}
release-IsReleased (s ∷ more) indegree ready enough distinct zeros =
    elim (Bool-cases (indegree s - 1 == 0)) [
      | inl q ↦ rw q (
          IsReleased-cons s more indegree lower ready (ready ++ s ∷ []) _ (λ j. refl)
            (λ j. ground (arith, contains-append ready (s ∷ []) j)) enough zeros
            (release-IsReleased more lower (ready ++ s ∷ []) room
              (Distinct-snoc ready s distinct fresh)
              λ j m. ground (arith, contains-append ready (s ∷ []) j, zeros j, nat_beq_iff j s)))
      | inr q ↦ rw q (
          IsReleased-cons s more indegree lower ready ready _ (λ j. refl) (λ j. ground arith) enough
            zeros
            (release-IsReleased more lower ready room distinct λ j m. ground (arith, zeros j m)))
    ]
  where
    fresh : contains ready s ≡ false
    fresh = ground (arith, zeros s, enough s)

    lower : ℕ → ℕ
    lower i = if i == s then indegree i - 1 else indegree i

    room : (j : ℕ) → count more j ≤ lower j
    room j = ground (arith, enough j, nat_beq_iff j s)
