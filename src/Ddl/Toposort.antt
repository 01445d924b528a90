-- ===== src/Ddl/Toposort.antt =====
-- ddl/toposort.py: what must come before what in one batch, and the sort by Kahn's algorithm.
pub mod Ranked
pub mod Rounds
pub mod Invariant
pub mod Correct
pub mod Acyclic
use db_version_control.Prelude.{
  ℕ, zero, suc, ◌+◌, ◌-◌, Bool, true, false, not, Option, none, some, List, [], ◌∷◌, ◌++◌, Eq, ◌==◌,
  nat_eq, range_from, if◌then◌else◌, leb, length, get_elem?, keep, contains,
}
use db_version_control.Prelude.Dict.{Dict, get, put}
use db_version_control.Prelude.Errors.{Result, ok, err, circular_dependency, out_of_fuel}
use db_version_control.Model.Schema.{Uuid}
use db_version_control.Model.Operations.{
  Operation, create_table, drop_table, add_column, drop_column, add_index, add_constraint,
}

pub record DependencyEdge : Type 0 where
  pub before : ℕ
  pub after : ℕ

unfoldable pub created_table_id : Operation → Option Uuid
created_table_id (create_table table) = some table.id
created_table_id _ = none

unfoldable pub created_column_id : Operation → Option Uuid
created_column_id (add_column _ column) = some column.id
created_column_id _ = none

unfoldable pub dropped_table_id : Operation → Option Uuid
dropped_table_id (drop_table table_id) = some table_id
dropped_table_id _ = none

-- {id: i for i, op in enumerate(operations) if (id := key(op)) is not None}
unfoldable pub positions_by :
    (Operation → Option Uuid) → Dict Uuid ℕ → ℕ → List Operation → Dict Uuid ℕ
positions_by key d i [] = d
positions_by key d i (op ∷ ops) =
    positions_by key (elim (key op) [ none ↦ d | some id ↦ put d id i ]) (i + 1) ops

-- The three dicts of `build_dependency_edges`.
pub record Batch : Type 0 where
  pub table_creators : Dict Uuid ℕ
  pub column_creators : Dict Uuid ℕ
  pub table_droppers : Dict Uuid ℕ

unfoldable pub batch_of : List Operation → Batch
batch_of operations = record {
  table_creators = positions_by created_table_id [] 0 operations;
  column_creators = positions_by created_column_id [] 0 operations;
  table_droppers = positions_by dropped_table_id [] 0 operations;
}

-- if id in creators: edges.append(DependencyEdge(before=creators[id], after=i))
unfoldable pub after_creator : Dict Uuid ℕ → ℕ → Uuid → List DependencyEdge
after_creator creators i id = elim (get creators id) [
  | none ↦ []
  | some j ↦ record { before = j; after = i } ∷ []
]

unfoldable pub after_creators : Dict Uuid ℕ → ℕ → List Uuid → List DependencyEdge
after_creators creators i [] = []
after_creators creators i (id ∷ ids) = after_creator creators i id ++ after_creators creators i ids

unfoldable pub after_reference : Dict Uuid ℕ → ℕ → Option Uuid → List DependencyEdge
after_reference creators i none = []
after_reference creators i (some id) = after_creator creators i id

unfoldable pub owning_table_hint : Operation → Option Uuid
owning_table_hint (drop_column table_id _) = some table_id
owning_table_hint _ = none

unfoldable pub before_dropper : Dict Uuid ℕ → ℕ → Uuid → List DependencyEdge
before_dropper droppers i id = elim (get droppers id) [
  | none ↦ []
  | some j ↦ record { before = i; after = j } ∷ []
]

-- One round of the loop. DropIndex and DropConstraint have no hint, so they add nothing.
unfoldable pub edges_of : Batch → ℕ → Operation → List DependencyEdge
edges_of b i (add_column table_id _) = after_creator b.table_creators i table_id
edges_of b i (add_index table_id index) =
    after_creator b.table_creators i table_id ++ after_creators b.column_creators i index.columns
edges_of b i (add_constraint table_id constraint) =
    after_creator b.table_creators i table_id
    ++ (after_reference b.table_creators i constraint.references
        ++ after_creators b.column_creators i constraint.columns)
edges_of b i (drop_column table_id _) = before_dropper b.table_droppers i table_id
edges_of b i _ = []

unfoldable pub edges_from : Batch → ℕ → List Operation → List DependencyEdge
edges_from b i [] = []
edges_from b i (op ∷ ops) = edges_of b i op ++ edges_from b (i + 1) ops

unfoldable pub build_dependency_edges : List Operation → List DependencyEdge
build_dependency_edges operations = edges_from (batch_of operations) 0 operations

-- The lists `successors` and `indegree`, as functions of the index.
pub record Degrees : Type 0 where
  pub successors : ℕ → List ℕ
  pub indegree : ℕ → ℕ

unfoldable pub add_edge : Degrees → DependencyEdge → Degrees
add_edge d e = record {
  successors = λ i. if i == e.before then d.successors i ++ e.after ∷ [] else d.successors i;
  indegree = λ i. if i == e.after then d.indegree i + 1 else d.indegree i;
}

unfoldable pub add_edges : Degrees → List DependencyEdge → Degrees
add_edges d [] = d
add_edges d (e ∷ es) = add_edges (add_edge d e) es

-- ready.sort()
unfoldable pub insert_index : ℕ → List ℕ → List ℕ
insert_index i [] = i ∷ []
insert_index i (j ∷ js) = let rest = insert_index i js in if leb i j then i ∷ j ∷ js else j ∷ rest

unfoldable pub sort_indices : List ℕ → List ℕ
sort_indices [] = []
sort_indices (i ∷ is) = insert_index i (sort_indices is)

-- The inner loop, over the successors of an index. A degree is decreased once for each edge that
-- it counts, so it is positive where it is decreased.
unfoldable pub release : List ℕ → (ℕ → ℕ) → List ℕ → (ℕ → ℕ) × List ℕ
release [] indegree ready = (indegree, ready)
release (s ∷ more) indegree ready =
    release more (λ i. if i == s then indegree i - 1 else indegree i)
      (if indegree s - 1 == 0 then ready ++ s ∷ [] else ready)

-- The `while ready` loop; each round orders one index more.
unfoldable pub kahn : ℕ → (ℕ → List ℕ) → (ℕ → ℕ) → List ℕ → List ℕ → Result (List ℕ)
kahn zero successors indegree ready ordered = err out_of_fuel
kahn (suc fuel) successors indegree ready ordered = elim (sort_indices ready) [
  | [] ↦ ok ordered
  | i ∷ rest ↦
      let (indegree', ready') = release (successors i) indegree rest in
      kahn fuel successors indegree' ready' (ordered ++ i ∷ [])
]

unfoldable pub select : List Operation → List ℕ → List Operation
select operations [] = []
select operations (i ∷ is) = elim (get_elem? operations i) [
  | none ↦ select operations is
  | some op ↦ op ∷ select operations is
]

unfoldable pub finish : List Operation → List ℕ → Result (List Operation)
finish operations ordered_indices =
    if length ordered_indices == length operations
    then ok (select operations ordered_indices)
    else err (
        circular_dependency
          (keep (λ i. not (contains ordered_indices i)) (range_from 0 (length operations))))

unfoldable pub toposort : List Operation → Result (List Operation)
toposort operations =
    let n = length operations in
    let d =
      add_edges (record { successors = λ i. []; indegree = λ i. 0 })
        (build_dependency_edges operations) in
    elim (kahn (suc n) d.successors d.indegree (keep (λ i. d.indegree i == 0) (range_from 0 n))
      []) [ err e ↦ err e | ok ordered_indices ↦ finish operations ordered_indices ]
