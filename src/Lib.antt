-- ===== src/Lib.antt =====
-- Schema version control: a directed graph of migrations, the tables that a revision stands for,
-- and the merge of two branches.
--
-- A migration is a node that names its parents and holds compound operations on tables and columns.
-- The store (src/schemavcs/dag/store.py) keeps the nodes, the head of each branch and a cache of
-- ancestor sets. The walks (src/schemavcs/dag/walk.py) find ancestors, the merge base, the
-- operations since a revision and a topological order, and replay a revision: its ancestors' operations
-- are applied in that order (src/schemavcs/dag/apply.py). A merge (src/schemavcs/merge/engine.py)
-- takes both branches' operations since the merge base, groups them by the object that they are about,
-- classifies each group, adds conflicts between objects and collisions of names, has a person
-- confirm what is a conflict, and appends a node with both heads as parents.
--
-- Files:
-- - Prelude and its children: numbers, lists, Python's dict, errors, texts.
-- - Model.Schema, Model.Operations: src/schemavcs/model/. A UUID is a number.
-- - Model.Serialize: model/serialize.py on generic Python values; RoundTrip proves it, Objects,
--   Columns, Tables, Edits and Nodes give the values that the objects of model/ are.
-- - Dag.Apply: apply_operation of dag/apply.py; Lookup, Effects, Invariant and Commute prove what
--   it does. An object that the source mutates in place is an entry that is replaced.
-- - Dag.Store: the methods of DagStore; Session is code that runs against one store; Grown is the
--   invariant of every store.
-- - Dag.Walk: dag/walk.py, one definition for each function and loop; Reach is reachability along
--   parents, Ancestors, Maximal, MergeBase, Since, Topo and Order prove the walks against it, and
--   Yields is the total correctness that they are stated in.
-- - Dag.Persistence: dag/persistence.py; Saved, Appended and Sorted prove its loops, RoundTrip the whole.
--   The directory of nodes is a dict, the text a Codec of the json module; Texts proves what is read back.
-- - Merge.Grouping, Merge.Classify, Merge.CrossObject, Merge.NameCollision, Merge.Resolve and
--   Merge.Engine: the files of src/schemavcs/merge/ with the same names.
-- - Ddl.Toposort, Ddl.Emitter: src/schemavcs/ddl/; Ranked and Acyclic prove what the dependencies
--   are, Rounds, Invariant and Correct what the sort returns.
-- - Dsl.Render: src/schemavcs/dsl/render.py, the text of a schema file; Resolved proves when there is one.
-- - Snapshots.Raw, Snapshots.Diff, Snapshots.ToOperations: src/schemavcs/dsl/raw.py and
--   src/schemavcs/snapshot/; Retype and Generated prove what the operations for a column and a new table do.
-- - Rename.Similarity, Rename.Match, Rename.Detector: src/schemavcs/rename_detect/ (the pair to propose
--   is in Match). Distance proves the edit distance, Found, Counts and Total the loop of proposals.
-- - Cli.Resolve, Cli.Branch, Cli.Migrate: src/schemavcs/cli/resolve.py, commands/branch_cmd.py and
--   commands/migrate_cmd.py. Cli.Main: cli/main.py and the other commands. Their Sound and Merged
--   prove what each command keeps. A repository is the store that is saved and the text of the file HEAD
--   (storage/paths.py).
-- - Web.Bridge: src/schemavcs_web/bridge.py, two threads that take one statement at a time; Invariant
--   is what every reachable state has, Faithful what follows.
-- - Web.ConfirmAdapter: src/schemavcs_web/confirm_adapter.py, proved against Merge.Resolve in Agrees.
-- - Tests: concrete inputs, runs and an instance of each theorem.
--
-- Errors are values of one type, Result, with a constructor for each exception. A set of the source
-- is a list, read as a set; where Python's order of a set decides a result (topological_order, the
-- conflicts between objects), the order is a parameter of which only the members are known. str, repr,
-- the hash behind revision ids, what is typed at a terminal and the callback of a merge are parameters.
--
-- Loops: the search for ancestors has one round for each edge of the graph and its start, the walk
-- back to a revision and the depth-first visit one for each node; the theorems about them show that
-- this is enough. Kahn's loop in Ddl.Toposort has one round for each operation and one to end. All
-- other loops follow a list.
--
-- Not modelled: the parser (Lark), the writing of a schema file after a command, the json
-- module and the file system, argparse, the regular expression of a type, and the web front end's routes.
pub mod Prelude
pub mod Model
pub mod Dag
pub mod Merge
pub mod Ddl
pub mod Dsl
pub mod Rename
pub mod Snapshots
pub mod Cli
pub mod Web
pub mod Tests
