-- ===== src/Dag/Walk.antt =====
-- dag/walk.py: ancestors, merge base, operations since, replay. A Python set is a list here; where
-- the program iterates over a set whose order shows, the order is the parameter `set_order`.
-- The loops run on fuel that the number of nodes and edges bounds.
pub mod Reach
pub mod Ancestors
pub mod Yields
pub mod Keeps
pub mod Topo
pub mod Order
pub mod Since
pub mod Maximal
pub mod MergeBase
use db_version_control.Prelude.{
  ℕ, zero, suc, ◌+◌, String, Bool, true, false, Option, none, some, List, [], ◌∷◌, ◌++◌, Eq, ◌==◌,
  string_eq, if◌then◌else◌, contains, length, not, ◌&&◌, ◌||◌, keep,
}
use db_version_control.Prelude.Dict.{Dict, get, values, keys}
use db_version_control.Prelude.Strings.{sorted}
use db_version_control.Prelude.Errors.{
  Result, ok, err, ambiguous_merge_base, value_error, stop_iteration, out_of_fuel,
}
use db_version_control.Model.Schema.{Uuid, Table, Snapshot}
use db_version_control.Model.Operations.{Operation, CompoundOperation, Migration, RevisionId}
use db_version_control.Dag.Apply.{Tables, apply_operation}
use db_version_control.Dag.Store.{DagStore, cached_ancestors, cache_ancestors, get_node}
use db_version_control.Dag.Store.Session.{Session, pure, raise, reads, ◌>>=◌}

abbrev pub Nodes : Type 0
Nodes = Dict RevisionId Migration

-- frontier.extend(parents); the end of the frontier, where `pop` takes from, is the head here.
unfoldable pub extend : List RevisionId → List RevisionId → List RevisionId
extend [] frontier = frontier
extend (p ∷ parents) frontier = extend parents (p ∷ frontier)

-- The `while frontier` loop of `ancestors`.
unfoldable pub ancestors_loop :
    ℕ → DagStore → List RevisionId → List RevisionId → Result (List RevisionId)
ancestors_loop fuel store seen [] = ok seen
ancestors_loop zero store seen (rev ∷ frontier) = err out_of_fuel
ancestors_loop (suc fuel) store seen (rev ∷ frontier) = elim (contains seen rev) [
  | true ↦ ancestors_loop fuel store seen frontier
  | false ↦ elim (get_node store rev) [
    | ok node ↦ ancestors_loop fuel store (rev ∷ seen) (extend node.parents frontier)
    | err e ↦ err e
  ]
]

-- All parent pointers: each is pushed once at most.
abbrev pub edge_count : Nodes → ℕ
edge_count [] = 0
edge_count ((k, n) ∷ d) = length n.parents + edge_count d

unfoldable pub ancestors : RevisionId → Session (List RevisionId)
ancestors revision_id store = elim (cached_ancestors store revision_id) [
  | some cached ↦ ok (cached, store)
  | none ↦ elim (ancestors_loop (suc (edge_count store.nodes)) store [] (revision_id ∷ [])) [
    | ok seen ↦ ok (seen, cache_ancestors store revision_id seen)
    | err e ↦ err e
  ]
]

-- any(other != candidate and candidate in ancestors(store, other) for other in common)
unfoldable pub has_descendant : RevisionId → List RevisionId → Session Bool
has_descendant candidate [] = pure false
has_descendant candidate (other ∷ common) =
    let rest = has_descendant candidate common in
    if other == candidate
    then rest
    else (do above ← ancestors other; if contains above candidate then pure true else rest)

-- The set comprehension that builds `maximal`.
unfoldable pub maximal_of : List RevisionId → List RevisionId → Session (List RevisionId)
maximal_of common [] = pure []
maximal_of common (candidate ∷ todo) = do
  below ← has_descendant candidate common
  rest ← maximal_of common todo
  pure (if below then rest else candidate ∷ rest)

-- next(iter(maximal)), which raises StopIteration on an empty set.
unfoldable pub sole : RevisionId → RevisionId → List RevisionId → Session RevisionId
sole rev_a rev_b [] = raise stop_iteration
sole rev_a rev_b (r ∷ []) = pure r
sole rev_a rev_b (r ∷ s ∷ more) = raise (ambiguous_merge_base rev_a rev_b (sorted (r ∷ s ∷ more)))

unfoldable pub merge_base_of : RevisionId → RevisionId → List RevisionId → Session RevisionId
merge_base_of rev_a rev_b [] = raise (ambiguous_merge_base rev_a rev_b [])
merge_base_of rev_a rev_b (c ∷ cs) = do
  maximal ← maximal_of (c ∷ cs) (c ∷ cs)
  sole rev_a rev_b maximal

unfoldable pub merge_base : RevisionId → RevisionId → Session RevisionId
merge_base rev_a rev_b = if rev_a == rev_b then pure rev_a else do
  ancestors_a ← ancestors rev_a
  ancestors_b ← ancestors rev_b
  merge_base_of rev_a rev_b (keep (contains ancestors_b) ancestors_a)

-- `candidates[0]`: the first parent that is `from_rev` or descends from it. The comprehension asks
-- for the ancestors of the later parents too.
unfoldable pub way_back : RevisionId → List RevisionId → Session (Option RevisionId)
way_back from_rev [] = pure none
way_back from_rev (p ∷ parents) =
    let rest = way_back from_rev parents in
    if p == from_rev then (do later ← rest; pure (some p)) else (do
      above ← ancestors p
      later ← rest
      pure (if contains above from_rev then some p else later))

-- The `while rev != from_rev` loop, with the path reversed as it is built.
unfoldable pub path_back : ℕ → RevisionId → RevisionId → List RevisionId → Session (List RevisionId)
path_back zero from_rev rev path = raise out_of_fuel
path_back (suc fuel) from_rev rev path =
    let step = (do
      node ← reads (λ s. get_node s rev)
      found ← way_back from_rev node.parents
      elim found [ none ↦ raise value_error | some p ↦ path_back fuel from_rev p (rev ∷ path) ]) in
    if rev == from_rev then pure path else step

unfoldable pub operations_on : List RevisionId → Session (List CompoundOperation)
operations_on [] = pure []
operations_on (rev ∷ path) = do
  node ← reads (λ s. get_node s rev)
  rest ← operations_on path
  pure (node.operations ++ rest)

unfoldable pub operations_since : RevisionId → RevisionId → Session (List CompoundOperation)
operations_since from_rev to_rev store =
    if from_rev == to_rev
    then ok ([], store)
    else (path_back (suc (length (keys store.nodes))) from_rev to_rev [] >>= operations_on) store

abbrev pub is_fast_forward : RevisionId → RevisionId → Bool
is_fast_forward base_rev source_head = base_rev == source_head

-- `visited` and `order` of the nested function `visit`.
abbrev pub Visits : Type 0
Visits = List RevisionId × List RevisionId

unfoldable pub visit_each :
    (RevisionId → Visits → Result Visits) → List RevisionId → Visits → Result Visits
visit_each go [] s = ok s
visit_each go (rev ∷ revs) s = elim (go rev s) [ ok s' ↦ visit_each go revs s' | err e ↦ err e ]

-- rev's parents were visited: order.append(rev)
abbrev pub close : RevisionId → Result Visits → Result Visits
close rev (ok (visited, order)) = ok (visited, order ++ rev ∷ [])
close rev (err e) = err e

unfoldable pub visit : DagStore → ℕ → RevisionId → Visits → Result Visits
unfolding visit_each
visit store zero rev s = err out_of_fuel
visit store (suc fuel) rev (visited, order) = elim (contains visited rev) [
  | true ↦ ok (visited, order)
  | false ↦ elim (get_node store rev) [
    | ok node ↦ close rev (visit_each (visit store fuel) node.parents (rev ∷ visited, order))
    | err e ↦ err e
  ]
]

-- `for rev in all_revs`, where the set gives its elements in an order of its own.
unfoldable pub visit_all :
    (List RevisionId → List RevisionId) → DagStore → List RevisionId → Result (List RevisionId)
visit_all set_order store all_revs =
    elim (visit_each (visit store (suc (length (keys store.nodes)))) (set_order all_revs)
      ([], [])) [ ok (visited, order) ↦ ok order | err e ↦ err e ]

unfoldable pub topological_order :
    (List RevisionId → List RevisionId) → RevisionId → Session (List RevisionId)
topological_order set_order revision_id = do
  all_revs ← ancestors revision_id
  reads (λ s. visit_all set_order s all_revs)

unfoldable pub apply_each : Tables → List Operation → Result Tables
apply_each tables [] = ok tables
apply_each tables (op ∷ ops) = elim (apply_operation tables op) [
  | ok tables' ↦ apply_each tables' ops
  | err e ↦ err e
]

abbrev pub apply_compound : Tables → CompoundOperation → Result Tables
apply_compound tables compound = apply_each tables compound.operations

unfoldable pub apply_compounds : Tables → List CompoundOperation → Result Tables
apply_compounds tables [] = ok tables
apply_compounds tables (c ∷ cs) = elim (apply_compound tables c) [
  | ok tables' ↦ apply_compounds tables' cs
  | err e ↦ err e
]

-- The outer loop of `replay`.
unfoldable pub replay_revisions : DagStore → Tables → List RevisionId → Result Tables
replay_revisions store tables [] = ok tables
replay_revisions store tables (rev ∷ ordered) = elim (get_node store rev) [
  | err e ↦ err e
  | ok node ↦ elim (apply_compounds tables node.operations) [
    | ok tables' ↦ replay_revisions store tables' ordered
    | err e ↦ err e
  ]
]

unfoldable pub replay : (List RevisionId → List RevisionId) → RevisionId → String → Session Snapshot
replay set_order revision_id branch = do
  ordered ← topological_order set_order revision_id
  tables ← reads (λ s. replay_revisions s [] ordered)
  pure (record { branch = branch; revision_id = some revision_id; tables = values tables })
