-- ===== src/Connectivity.antt =====
-- src/fancy_flow/analysis/graph_connectivity.py: nodes that nothing is wired to, and edges that read
-- from a node without ports.
use Prim.Native.String.{◌++◌ as append}
use fancy_flow_py.Prelude.{
  String, List, [], ◌∷◌, ◌++◌, Option, none, some, Bool, true, false, ◌||◌, ◌==◌, or_else,
  if◌then◌else◌,
}
use fancy_flow_py.Prelude.Dict.{Dict, get}
use fancy_flow_py.Value.{str}
use fancy_flow_py.Graph.{PortDescriptor, FlowNode, FlowEdge}
use fancy_flow_py.Registry.KindId.{matches}
use fancy_flow_py.Registry.NodeKind.{NodeKind}
use fancy_flow_py.Registry.Catalogue.{NodeKindRegistry, get as get_kind}
use fancy_flow_py.Topo.{index_nodes}
use fancy_flow_py.Issues.{ImportIssue, node_error, edge_error, is_empty}

abbrev pub is_floating_category : String → Bool
is_floating_category c = c == "annotation" || c == "layout"

-- The kind of a node with a type that is not empty.
unfoldable pub kind_of : NodeKindRegistry → Option String → Option NodeKind
unfolding get_kind
kind_of r none = none
kind_of r (some type) = if type == "" then none else get_kind r type

unfoldable pub may_float : NodeKindRegistry → FlowNode → Bool
unfolding matches get_kind
may_float r node =
    let type = or_else node.type "" in
    if type == ""
    then false
    else if matches type "note"
    then true
    else elim (get_kind r type) [ none ↦ true | some kind ↦ is_floating_category kind.category ]

abbrev pub declares_none : Option (List PortDescriptor) → Bool
declares_none none = false
declares_none (some ports) = is_empty ports

unfoldable pub is_terminator : NodeKindRegistry → FlowNode → Bool
unfolding kind_of
is_terminator r node = elim node.outputs [
  | some ports ↦ is_empty ports
  | none ↦ elim (kind_of r node.type) [ none ↦ false | some kind ↦ declares_none kind.outputs ]
]

-- The node is the source or the target of an edge.
unfoldable pub is_wired : List FlowEdge → String → Bool
is_wired [] k = false
is_wired (e ∷ es) k = e.source == k || e.target == k || is_wired es k

abbrev pub floating_error : String → ImportIssue
floating_error k =
    node_error
      (append "Node \"" (
        append k
          "\" is connected to nothing - no inbound edge and no outbound edge. It still RUNS (a node with no inbound edge is a root), but it receives nothing from the graph and reaches nobody in it, so it is either unwired or left behind by a deletion. Only a note, an annotation or a lane may float."))
      (str k)

unfoldable pub floating_issues :
    NodeKindRegistry → Bool → List FlowEdge → List FlowNode → List ImportIssue
unfolding may_float is_wired
floating_issues r single edges [] = []
floating_issues r single edges (node ∷ nodes) =
    let rest = floating_issues r single edges nodes in
    if single || may_float r node || is_wired edges node.id
    then rest
    else floating_error node.id ∷ rest

abbrev pub terminal_error : FlowEdge → ImportIssue
terminal_error e =
    edge_error
      (append "Edge \"" (
        append e.id (
          append "\" reads from \"" (
            append e.source (
              append
                "\", which is a TERMINAL node and publishes no output ports at all. Nothing can ever travel this edge: it does not fail at run time, it delivers nothing, and \""
                (append e.target "\" runs anyway with an empty input."))))))
      (str e.id)

unfoldable pub terminal_issues : NodeKindRegistry → Dict FlowNode → List FlowEdge → List ImportIssue
unfolding is_terminator get
terminal_issues r by_id [] = []
terminal_issues r by_id (e ∷ es) =
    let rest = terminal_issues r by_id es in
    elim (get by_id e.source) [
      | none ↦ rest
      | some source ↦ if is_terminator r source then terminal_error e ∷ rest else rest
    ]

abbrev pub is_single {ℓ} : {A : Type ℓ} → List A → Bool
is_single (x ∷ []) = true
is_single _ = false

unfoldable pub check_graph_connectivity :
    NodeKindRegistry → List FlowNode → List FlowEdge → List ImportIssue
unfolding floating_issues terminal_issues index_nodes
check_graph_connectivity r nodes edges =
    floating_issues r (is_single nodes) edges nodes
    ++ terminal_issues r (index_nodes nodes []) edges
