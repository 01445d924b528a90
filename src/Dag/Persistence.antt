-- ===== src/Dag/Persistence.antt =====
-- dag/persistence.py: a store written to the files of a repository, and built again from them.
pub mod Texts
pub mod Saved
pub mod Appended
pub mod Sorted
pub mod RoundTrip
use db_version_control.Prelude.{
  ℕ, zero, suc, ◌+◌, ◌≡◌, String, Bool, true, false, Option, none, some, List, [], ◌∷◌, ◌++◌, Eq,
  ◌==◌, string_eq, if◌then◌else◌, contains, length, Distinct,
}
use db_version_control.Prelude.Dict.{Dict, get, put, keys}
use db_version_control.Prelude.Errors.{Result, ok, err, key_error, type_error, out_of_fuel, ◌>>=◌}
use db_version_control.Model.Operations.{Migration, RevisionId}
use db_version_control.Model.Serialize.{
  Json, j_string, j_object, JsonFields, end_object, and_member, UuidHex, to_jsonable, from_jsonable,
}
use db_version_control.Model.Serialize.RoundTrip.{KeysOnce}
use db_version_control.Model.Serialize.Nodes.{migration_form}
use db_version_control.Dag.Store.{
  DagStore, empty, get_node, append, set_head, replace_all_heads, all_revision_ids, all_heads,
}

-- What the json and uuid modules do: reading a text gives back the value that was written, if no
-- object of it has a key twice.
pub record Codec : Type 1 where
  pub Text : Type 0
  pub uuids : UuidHex
  pub dumps : Json → Text
  pub loads : Text → Result Json
  pub loads-dumps : (j : Json) → KeysOnce j → loads (dumps j) ≡ ok j

unfoldable pub heads_members : Dict String RevisionId → JsonFields
heads_members [] = end_object
heads_members ((branch, revision_id) ∷ heads) =
    and_member branch (j_string revision_id) (heads_members heads)

-- .items() of what was read, whose values are taken for revisions.
unfoldable pub items_of : JsonFields → Result (Dict String RevisionId)
items_of end_object = ok []
items_of (and_member branch (j_string revision_id) members) =
    items_of members >>= λ heads. ok ((branch, revision_id) ∷ heads)
items_of (and_member branch _ members) = err type_error

unfoldable pub heads_of : Json → Result (Dict String RevisionId)
heads_of (j_object members) = items_of members
heads_of _ = err type_error

module _ (codec : Codec) where
  -- json.dumps(to_jsonable(node), indent=2)
  unfoldable pub dumps_node : Migration → codec.Text
  dumps_node node = codec.dumps (to_jsonable codec.uuids (migration_form.to_value node))

  -- from_jsonable(json.loads(text)), an instance of Migration
  unfoldable pub loads_node : codec.Text → Result Migration
  loads_node content =
      codec.loads content >>= λ j. from_jsonable codec.uuids j >>= migration_form.of_value

  unfoldable pub dumps_heads : Dict String RevisionId → codec.Text
  dumps_heads heads = codec.dumps (j_object (heads_members heads))

  unfoldable pub loads_heads : codec.Text → Result (Dict String RevisionId)
  loads_heads content = codec.loads content >>= heads_of

-- `visited` and `ordered` of the nested function `visit`.
abbrev pub Loading : Type 0
Loading = List RevisionId × List Migration

unfoldable pub visit_parents :
    (RevisionId → Loading → Result Loading) → List RevisionId → Loading → Result Loading
visit_parents go [] s = ok s
visit_parents go (parent ∷ parents) s = go parent s >>= visit_parents go parents

unfoldable pub visit_node : Dict RevisionId Migration → ℕ → RevisionId → Loading → Result Loading
unfolding visit_parents
visit_node raw_nodes zero revision_id s = err out_of_fuel
visit_node raw_nodes (suc fuel) revision_id (visited, ordered) =
    elim (contains visited revision_id) [
      | true ↦ ok (visited, ordered)
      | false ↦ elim (get raw_nodes revision_id) [
        | none ↦ err key_error
        | some node ↦
            visit_parents (visit_node raw_nodes fuel) node.parents (revision_id ∷ visited, ordered)
            >>= λ (visited', ordered'). ok (visited', ordered' ++ node ∷ [])
      ]
    ]

unfoldable pub topologically_sorted : Dict RevisionId Migration → Result (List Migration)
topologically_sorted raw_nodes =
    visit_parents (visit_node raw_nodes (suc (length (keys raw_nodes)))) (keys raw_nodes) ([], [])
    >>= λ (visited, ordered). ok ordered

-- The loop of `load` that appends.
unfoldable pub append_all : DagStore → List Migration → Result DagStore
append_all store [] = ok store
append_all store (node ∷ nodes) = do
  (appended, store') ← append store node.id node.branch node.parents node.operations
  append_all store' nodes

-- The loop of `load` that sets the heads.
unfoldable pub set_heads : DagStore → Dict String RevisionId → Result DagStore
set_heads store [] = ok store
set_heads store ((branch, revision_id) ∷ heads) = do
  store' ← set_head store branch revision_id
  set_heads store' heads

module _ (codec : Codec) where
  -- What lies in .schemavcs/dag: a file for each node, under the name of its revision.
  pub record RepoFiles : Type 0 where
    pub nodes_dir : Bool
    pub node_files : Dict RevisionId codec.Text
    pub heads_file : Option codec.Text

  -- The loop of `save`.
  unfoldable pub write_nodes :
      DagStore → List RevisionId → Dict RevisionId codec.Text → Result (Dict RevisionId codec.Text)
  write_nodes store [] files = ok files
  write_nodes store (revision_id ∷ ids) files = do
    node ← get_node store revision_id
    write_nodes store ids (put files revision_id (dumps_node codec node))

  unfoldable pub save : DagStore → RepoFiles → Result RepoFiles
  save store files = do
    node_files ← write_nodes store (all_revision_ids store) files.node_files
    ok (record {
      nodes_dir = true;
      node_files = node_files;
      heads_file = some (dumps_heads codec (all_heads store));
    })

  -- The loop of `load` that fills `raw_nodes`, over the files that the directory has.
  unfoldable pub read_nodes :
      Dict RevisionId codec.Text
      → List RevisionId
      → Dict RevisionId Migration
      → Result (Dict RevisionId Migration)
  read_nodes files [] raw_nodes = ok raw_nodes
  read_nodes files (path ∷ paths) raw_nodes = elim (get files path) [
    | none ↦ err key_error
    | some text ↦
        loads_node codec text >>= λ node. read_nodes files paths (put raw_nodes node.id node)
  ]

  unfoldable pub load_heads : Option codec.Text → DagStore → Result DagStore
  load_heads none store = ok store
  load_heads (some text) store = loads_heads codec text >>= set_heads store

  -- `glob_order` is the order in which the directory lists its files.
  unfoldable pub load : (List RevisionId → List RevisionId) → RepoFiles → Result DagStore
  load glob_order files = elim files.nodes_dir [
    | false ↦ ok empty
    | true ↦ do
      raw_nodes ← read_nodes files.node_files (glob_order (keys files.node_files)) []
      nodes ← topologically_sorted raw_nodes
      store ← append_all empty nodes
      load_heads files.heads_file (replace_all_heads store [])
  ]
