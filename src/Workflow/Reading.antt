-- ===== src/Workflow/Reading.antt =====
-- `import_workflow` of src/fancy_flow/workflow.py. `loads` is `json.loads`, with `none` for a
-- ValueError. The result is `none` where Python raises, and where a node would hold a value that the
-- type of its field excludes.
pub mod Joined
use Prim.Native.String.{◌++◌ as append}
use fancy_flow_py.Prelude.{
  String, List, [], ◌∷◌, ◌++◌, Option, none, some, Bool, true, false, not, ◌&&◌, ◌==◌,
  if◌then◌else◌, contains, ◌>>=◌, ℤ, map,
}
use fancy_flow_py.Prelude.Dict.{Dict, get}
use fancy_flow_py.Value.{
  Value, Float, Fields, null, bool, int, float, str, list, tuple, dict, object, to_list, entries,
  as_dict, is_present, as_str,
}
use fancy_flow_py.Graph.{FlowNode, FlowEdge, FlowGraph, ids}
use fancy_flow_py.Issues.{
  Level, error, warning, ImportIssue, ImportResult, node_error, plain_error, node_warning,
  edge_warning, any_error,
}
use fancy_flow_py.Python.{Conversions, text_of, is_true, mapping_or_empty, items_or_empty}
use fancy_flow_py.Registry.NodeKind.{NodeKind}
use fancy_flow_py.Registry.Catalogue.{NodeKindRegistry, get as get_kind}
use fancy_flow_py.Registry.Validation.{read, validate_config}
use fancy_flow_py.Connectivity.{check_graph_connectivity}
use fancy_flow_py.Workflow.Migration.{migrate_schema, is_current_version}
use fancy_flow_py.Workflow.Nodes.{text_or, read_config, read_node, read_edge}

abbrev pub empty_graph : FlowGraph
empty_graph = record { nodes = []; edges = []; inputs = [] }

abbrev pub refusal : String → ImportResult
refusal message = record { ok = false; graph = empty_graph; issues = plain_error message ∷ [] }

-- The schema, parsed when it is a text, if it is an object.
unfoldable pub as_schema : (String → Option Value) → Value → Option (Dict Value)
unfolding entries
as_schema loads (str s) = elim (loads s) [ none ↦ none | some v ↦ as_dict v ]
as_schema loads v = as_dict v

abbrev pub with_node_id : ImportIssue → Value → ImportIssue
with_node_id issue node_id = record issue { node_id = node_id }

abbrev pub unknown_kind : Bool → String → Value → ImportIssue
unknown_kind lenient name node_id = record {
  level = if lenient then warning else error;
  message = append "Unknown kind \"" (append name "\" - register it before importing.");
  node_id = node_id;
  edge_id = null;
}

unfoldable pub config_warnings : Value → List (String × String) → List ImportIssue
config_warnings node_id [] = []
config_warnings node_id ((key, message) ∷ is) =
    node_warning (append key (append ": " message)) node_id ∷ config_warnings node_id is

module _ (c : Conversions) (r : NodeKindRegistry) (lenient : Bool) where
  -- What a loop turn reports of a node with this kind and config.
  unfoldable pub node_issues :
      Option NodeKind → String → Dict Value → Value → Option (List ImportIssue)
  unfolding config_warnings
  node_issues none name config node_id = some (unknown_kind lenient name node_id ∷ [])
  node_issues (some kind) name config node_id = do
    is ← validate_config c kind config
    some (config_warnings node_id is)

  -- One turn of the loop over the nodes, at an object.
  unfoldable pub import_object : Dict Value → Option (FlowNode × List ImportIssue)
  unfolding node_issues get_kind text_or read_config read_node
  import_object raw = do
    let name = text_or c raw "kind" ""
    let kind = get_kind r name
    config ← read_config c kind raw
    issues ← node_issues kind name config (read raw "id")
    node ← read_node c kind name config raw
    some (node, issues)

  unfoldable pub import_node : Value → Option (FlowNode × List ImportIssue)
  unfolding import_object
  import_node v = elim (as_dict v) [ none ↦ none | some raw ↦ import_object raw ]

  unfoldable pub import_nodes : List Value → Option (List FlowNode × List ImportIssue)
  unfolding import_node
  import_nodes [] = some ([], [])
  import_nodes (v ∷ vs) = do
    first ← import_node v
    rest ← import_nodes vs
    some (first.0 ∷ rest.0, first.1 ++ rest.1)

abbrev pub missing_end : String → String → String → ImportIssue
missing_end end name edge_id =
    edge_warning (append "Edge " (append end (append " \"" (append name "\" not found."))))
      (str edge_id)

-- One turn of the loop over the edges: an edge that does not join two of the nodes is dropped with a
-- warning.
abbrev pub add_edge :
    List String → FlowEdge → List FlowEdge × List ImportIssue → List FlowEdge × List ImportIssue
add_edge node_ids e (edges, issues) =
    if not (contains node_ids e.source)
    then (edges, missing_end "source" e.source e.id ∷ issues)
    else if not (contains node_ids e.target)
    then (edges, missing_end "target" e.target e.id ∷ issues)
    else (e ∷ edges, issues)

unfoldable pub import_edges :
    Conversions → List String → List Value → Option (List FlowEdge × List ImportIssue)
unfolding read_edge
import_edges c node_ids [] = some ([], [])
import_edges c node_ids (v ∷ vs) = do
  raw ← as_dict v
  rest ← import_edges c node_ids vs
  some (add_edge node_ids (read_edge c raw) rest)

-- isinstance(i, dict) and isinstance(i.get("name"), str) and i["name"]
abbrev pub is_declaration : Dict Value → Bool
is_declaration d = elim (as_str (read d "name")) [ none ↦ false | some s ↦ not (s == "") ]

unfoldable pub declarations : List Value → List (Dict Value)
declarations [] = []
declarations (v ∷ vs) =
    let rest = declarations vs in
    elim (as_dict v) [ none ↦ rest | some d ↦ if is_declaration d then d ∷ rest else rest ]

-- `v or []`, walked for its mappings: a text or a mapping has items, none of which is one.
unfoldable pub items_of : Conversions → Value → Option (List Value)
unfolding items_or_empty
items_of c (str s) = some []
items_of c (dict fs) = some []
items_of c v = items_or_empty c v

-- The items of `schema["inputs"]` if it is a list, else those of `graph["inputs"]`.
unfoldable pub raw_inputs : Conversions → Dict Value → Dict Value → Option (List Value)
unfolding items_of to_list
raw_inputs c schema graph = elim (read schema "inputs") [
  | list vs ↦ some (to_list vs)
  | _ ↦ items_of c (read graph "inputs")
]

-- The graph and the issues of a schema of the current version: from its `graph`, from its list of nodes.
module _ (c : Conversions) (r : NodeKindRegistry) (lenient : Bool) (schema : Dict Value) where
  unfoldable pub import_parts : Dict Value → List Value → Option (FlowGraph × List ImportIssue)
  unfolding items_or_empty import_nodes import_edges raw_inputs declarations
  import_parts graph raw_nodes = do
    raw_edges ← items_or_empty c (read graph "edges")
    nodes ← import_nodes c r lenient raw_nodes
    edges ← import_edges c (ids nodes.0) raw_edges
    inputs ← raw_inputs c schema graph
    let wiring = check_graph_connectivity r nodes.0 edges.0
    some (
      record { nodes = nodes.0; edges = edges.0; inputs = declarations inputs },
      nodes.1 ++ (edges.1 ++ wiring),
    )

  unfoldable pub import_raw : Dict Value → Option (FlowGraph × List ImportIssue)
  unfolding items_or_empty import_parts
  import_raw graph = do
    raw_nodes ← items_or_empty c (read graph "nodes")
    import_parts graph raw_nodes

  unfoldable pub import_graph : Option (FlowGraph × List ImportIssue)
  unfolding mapping_or_empty import_raw
  import_graph = do graph ← mapping_or_empty c (read schema "graph"); import_raw graph

-- The result for a migrated schema.
unfoldable pub import_current :
    Conversions → NodeKindRegistry → Bool → Dict Value → Option ImportResult
unfolding import_graph get
import_current c r lenient schema =
    if is_current_version c.is_one_float (get schema "version")
    then elim (import_graph c r lenient schema) [
      | none ↦ none
      | some (graph, issues) ↦
          some (record { ok = not (any_error issues); graph = graph; issues = issues })
    ]
    else some (
        refusal (
          append "Unsupported workflow schema version: "
            (append (c.repr (read schema "version")) " (expected 1)")))

unfoldable pub import_workflow :
    Conversions → (String → Option Value) → NodeKindRegistry → Bool → Value → Option ImportResult
unfolding as_schema import_current migrate_schema
import_workflow c loads r lenient schema = elim (as_schema loads schema) [
  | none ↦ some (refusal "Schema is not an object.")
  | some d ↦ import_current c r lenient (migrate_schema [] d)
]
