-- ===== src/Ddl/Toposort/Ranked.antt =====
-- The edges of a batch: each stands between two of its operations.
use db_version_control.Prelude.{
  ℕ, suc, ◌+◌, ◌<◌, Option, none, some, List, [], ◌∷◌, ◌++◌, ◌==◌, ◌≡◌, refl, ◌∙◌, ap, nat_eq,
  nat_beq_iff, arith, get_elem?, All, All-append, Bool-cases, Option-cases, inl, inr,
}
use db_version_control.Prelude.Dict.{Dict, get, put, get-put}
use db_version_control.Model.Schema.{Uuid}
use db_version_control.Model.Operations.{
  Operation, create_table, drop_table, add_column, drop_column, rename_column, alter_column_type,
  alter_column_nullability, alter_column_default, add_index, drop_index, rename_index,
  add_constraint, drop_constraint,
}
use db_version_control.Ddl.Toposort.{
  DependencyEdge, Batch, batch_of, positions_by, created_table_id, created_column_id,
  dropped_table_id, after_creator, after_creators, after_reference, before_dropper, edges_of,
  edges_from, build_dependency_edges,
}

-- A creation comes before its parts, a part before its index or constraint, a drop of a column
-- before the drop of a table.
abbrev pub rank_of : Operation → ℕ
rank_of (create_table _) = 0
rank_of (drop_column _ _) = 0
rank_of (add_column _ _) = 1
rank_of (drop_table _) = 1
rank_of _ = 2

-- Both ends are operations of the batch, and the rank grows.
pub record IsRanked (operations : List Operation) (e : DependencyEdge) : Type 0 where
  pub first : Operation
  pub second : Operation
  pub first_at : get_elem? operations e.before ≡ some first
  pub second_at : get_elem? operations e.after ≡ some second
  pub grows : rank_of first < rank_of second

-- A dict of positions tells for each id an operation with that key.
abbrev Points : (Operation → Option Uuid) → List Operation → Dict Uuid ℕ → Type 0
Points key all d =
    (id : Uuid) (j : ℕ)
    → get d id ≡ some j
    → (op : Operation) × (get_elem? all j ≡ some op) × (key op ≡ some id)

-- `ops` is the rest of `all` from the place `i` on.
abbrev Rest : List Operation → ℕ → List Operation → Type 0
Rest all i ops = (k : ℕ) → get_elem? all (i + k) ≡ get_elem? ops k

Rest-start : (all : List Operation) → Rest all 0 all
Rest-start all k = ap (get_elem? all) (omega arith)

Rest-next :
    (all : List Operation) (i : ℕ) (op : Operation) (ops : List Operation)
    → Rest all i (op ∷ ops)
    → Rest all (i + 1) ops
Rest-next all i op ops h k = ap (get_elem? all) (omega arith) ∙ h (suc k)

Rest-here :
    (all : List Operation) (i : ℕ) (op : Operation) (ops : List Operation)
    → Rest all i (op ∷ ops)
    → get_elem? all i ≡ some op
Rest-here all i op ops h = ap (get_elem? all) (omega arith) ∙ h 0

module _ (key : Operation → Option Uuid) (all : List Operation) where
  Points-put :
      (d : Dict Uuid ℕ) (id : Uuid) (i : ℕ) (op : Operation)
      → Points key all d
      → get_elem? all i ≡ some op
      → key op ≡ some id
      → Points key all (put d id i)
  Points-put d id i op h at k id' j q = elim (Bool-cases (id' == id)) [
    | inl e ↦ (op, ground (arith, get-put d id id' i), ground (arith, nat_beq_iff id' id))
    | inr e ↦ h id' j (ground (arith, get-put d id id' i))
  ]

  positions_by-Points :
      (d : Dict Uuid ℕ) (i : ℕ) (ops : List Operation)
      → Points key all d
      → Rest all i ops
      → Points key all (positions_by key d i ops)
  unfolding positions_by
  positions_by-Points d i [] h r = h
  positions_by-Points d i (op ∷ ops) h r = elim (Option-cases (key op)) [
    | inl q ↦ rw q (positions_by-Points d (i + 1) ops h (Rest-next all i op ops r))
    | inr (id, q) ↦ rw q (
        positions_by-Points (put d id i) (i + 1) ops
          (Points-put d id i op h (Rest-here all i op ops r) q) (Rest-next all i op ops r))
  ]

module _ (all : List Operation) where
  after_creator-IsRanked :
      (key : Operation → Option Uuid) (creators : Dict Uuid ℕ) (i : ℕ) (id : Uuid) (op : Operation)
      → Points key all creators
      → ((x : Operation) → key x ≡ some id → rank_of x < rank_of op)
      → get_elem? all i ≡ some op
      → All (IsRanked all) (after_creator creators i id)
  unfolding after_creator
  after_creator-IsRanked key creators i id op points lower at =
      elim (Option-cases (get creators id)) [
        | inl q ↦ rw (q, after_creator) tt
        | inr (j, q) ↦
            let (x, there, named) = points id j q in
            rw (q, after_creator)
              (
                record {
                  first = x;
                  second = op;
                  first_at = there;
                  second_at = at;
                  grows = lower x named;
                },
                tt,
              )
      ]

  after_creators-IsRanked :
      (key : Operation → Option Uuid) (creators : Dict Uuid ℕ) (i : ℕ) (ids : List Uuid)
      (op : Operation)
      → Points key all creators
      → ((id : Uuid) (x : Operation) → key x ≡ some id → rank_of x < rank_of op)
      → get_elem? all i ≡ some op
      → All (IsRanked all) (after_creators creators i ids)
  unfolding after_creators
  after_creators-IsRanked key creators i [] op points lower at = tt
  after_creators-IsRanked key creators i (id ∷ ids) op points lower at =
      All-append (IsRanked all) (after_creator creators i id) (after_creators creators i ids)
        (after_creator-IsRanked key creators i id op points (lower id) at)
        (after_creators-IsRanked key creators i ids op points lower at)

  after_reference-IsRanked :
      (key : Operation → Option Uuid) (creators : Dict Uuid ℕ) (i : ℕ) (target : Option Uuid)
      (op : Operation)
      → Points key all creators
      → ((id : Uuid) (x : Operation) → key x ≡ some id → rank_of x < rank_of op)
      → get_elem? all i ≡ some op
      → All (IsRanked all) (after_reference creators i target)
  unfolding after_reference
  after_reference-IsRanked key creators i none op points lower at = tt
  after_reference-IsRanked key creators i (some id) op points lower at =
      after_creator-IsRanked key creators i id op points (lower id) at

  before_dropper-IsRanked :
      (droppers : Dict Uuid ℕ) (i : ℕ) (id : Uuid) (op : Operation)
      → Points dropped_table_id all droppers
      → ((x : Operation) → dropped_table_id x ≡ some id → rank_of op < rank_of x)
      → get_elem? all i ≡ some op
      → All (IsRanked all) (before_dropper droppers i id)
  unfolding before_dropper
  before_dropper-IsRanked droppers i id op points higher at =
      elim (Option-cases (get droppers id)) [
        | inl q ↦ rw (q, before_dropper) tt
        | inr (j, q) ↦
            let (x, there, named) = points id j q in
            rw (q, before_dropper)
              (
                record {
                  first = op;
                  second = x;
                  first_at = at;
                  second_at = there;
                  grows = higher x named;
                },
                tt,
              )
      ]

created_table_rank : (id : Uuid) (x : Operation) → created_table_id x ≡ some id → rank_of x ≡ 0
unfolding created_table_id
created_table_rank id (create_table _) h = refl
created_table_rank id _ h = cc

created_column_rank : (id : Uuid) (x : Operation) → created_column_id x ≡ some id → rank_of x ≡ 1
unfolding created_column_id
created_column_rank id (add_column _ _) h = refl
created_column_rank id _ h = cc

dropped_table_rank : (id : Uuid) (x : Operation) → dropped_table_id x ≡ some id → rank_of x ≡ 1
unfolding dropped_table_id
dropped_table_rank id (drop_table _) h = refl
dropped_table_rank id _ h = cc

-- The three dicts of a batch tell the truth.
record IsBatch (all : List Operation) (b : Batch) : Type 0 where
  tables : Points created_table_id all b.table_creators
  columns : Points created_column_id all b.column_creators
  droppers : Points dropped_table_id all b.table_droppers

module _ (all : List Operation) (b : Batch) (is : IsBatch all b) where
  after_table :
      (i : ℕ) (id : Uuid) (op : Operation)
      → 0 < rank_of op
      → get_elem? all i ≡ some op
      → All (IsRanked all) (after_creator b.table_creators i id)
  after_table i id op above at =
      after_creator-IsRanked all created_table_id b.table_creators i id op is.tables
        (λ x h. omega (arith, created_table_rank id x h, above)) at

  after_columns :
      (i : ℕ) (ids : List Uuid) (op : Operation)
      → 1 < rank_of op
      → get_elem? all i ≡ some op
      → All (IsRanked all) (after_creators b.column_creators i ids)
  after_columns i ids op above at =
      after_creators-IsRanked all created_column_id b.column_creators i ids op is.columns
        (λ id x h. omega (arith, created_column_rank id x h, above)) at

  edges_of-IsRanked :
      (i : ℕ) (op : Operation) → get_elem? all i ≡ some op → All (IsRanked all) (edges_of b i op)
  unfolding edges_of
  edges_of-IsRanked i (add_column t c) at = after_table i t (add_column t c) (omega arith) at
  edges_of-IsRanked i (add_index t x) at =
      All-append (IsRanked all) (after_creator b.table_creators i t)
        (after_creators b.column_creators i x.columns)
        (after_table i t (add_index t x) (omega arith) at)
        (after_columns i x.columns (add_index t x) (omega arith) at)
  edges_of-IsRanked i (add_constraint t c) at =
      All-append (IsRanked all) (after_creator b.table_creators i t)
        (after_reference b.table_creators i c.references
          ++ after_creators b.column_creators i c.columns)
        (after_table i t (add_constraint t c) (omega arith) at)
        (All-append (IsRanked all) (after_reference b.table_creators i c.references)
          (after_creators b.column_creators i c.columns)
          (after_reference-IsRanked all created_table_id b.table_creators i c.references
            (add_constraint t c) is.tables (λ id x h. omega (arith, created_table_rank id x h)) at)
          (after_columns i c.columns (add_constraint t c) (omega arith) at))
  edges_of-IsRanked i (drop_column t c) at =
      before_dropper-IsRanked all b.table_droppers i t (drop_column t c) is.droppers
        (λ x h. omega (arith, dropped_table_rank t x h)) at
  edges_of-IsRanked i (create_table _) at = tt
  edges_of-IsRanked i (drop_table _) at = tt
  edges_of-IsRanked i (rename_column _ _ _) at = tt
  edges_of-IsRanked i (alter_column_type _ _ _) at = tt
  edges_of-IsRanked i (alter_column_nullability _ _) at = tt
  edges_of-IsRanked i (alter_column_default _ _ _) at = tt
  edges_of-IsRanked i (drop_index _) at = tt
  edges_of-IsRanked i (rename_index _ _ _) at = tt
  edges_of-IsRanked i (drop_constraint _) at = tt

  edges_from-IsRanked :
      (i : ℕ) (ops : List Operation) → Rest all i ops → All (IsRanked all) (edges_from b i ops)
  unfolding edges_from
  edges_from-IsRanked i [] r = tt
  edges_from-IsRanked i (op ∷ ops) r =
      All-append (IsRanked all) (edges_of b i op) (edges_from b (i + 1) ops)
        (edges_of-IsRanked i op (Rest-here all i op ops r))
        (edges_from-IsRanked (i + 1) ops (Rest-next all i op ops r))

batch_of-IsBatch : (all : List Operation) → IsBatch all (batch_of all)
unfolding batch_of get
batch_of-IsBatch all = record {
  tables = positions_by-Points created_table_id all [] 0 all (λ id j q. cc) (Rest-start all);
  columns = positions_by-Points created_column_id all [] 0 all (λ id j q. cc) (Rest-start all);
  droppers = positions_by-Points dropped_table_id all [] 0 all (λ id j q. cc) (Rest-start all);
}

-- Every edge of `build_dependency_edges` goes from one operation of the batch to another of a higher
-- rank, where creating a table and dropping a column have rank 0, adding a column and dropping a
-- table rank 1, and all else rank 2.
pub build_dependency_edges-IsRanked :
    (operations : List Operation) → All (IsRanked operations) (build_dependency_edges operations)
unfolding build_dependency_edges
build_dependency_edges-IsRanked operations =
    edges_from-IsRanked operations (batch_of operations) (batch_of-IsBatch operations) 0 operations
      (Rest-start operations)
