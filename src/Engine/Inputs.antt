-- ===== src/Engine/Inputs.antt =====
-- `_index_incoming` and `_collect_inputs` of src/fancy_flow/engine/runner.py.
use fancy_flow_py.Prelude.{
  String, List, [], ◌∷◌, Option, none, some, Bool, ◌==◌, or_else, if◌then◌else◌,
}
use fancy_flow_py.Prelude.Dict.{Dict, get, put, put_new}
use fancy_flow_py.Value.{Value, dict, of_entries}
use fancy_flow_py.Graph.{FlowNode, FlowEdge}
use fancy_flow_py.Engine.Routing.{port_key}

-- incoming_by_node.get(node_id, ()): the edges into a node, in the order of the graph.
unfoldable pub incoming : List FlowEdge → String → List FlowEdge
incoming [] node_id = []
incoming (e ∷ es) node_id =
    let rest = incoming es node_id in if e.target == node_id then e ∷ rest else rest

-- for name, value in props.items(): inputs.setdefault(name, value)
unfoldable pub seed : Dict Value → Dict Value → Dict Value
unfolding get put
seed [] inputs = inputs
seed ((name, value) ∷ props) inputs = seed props (put_new inputs name value)

-- edge.target_handle or "in"
unfoldable pub target_port : Option String → String
target_port none = "in"
target_port (some h) = if h == "" then "in" else h

-- The node's id names the value too, where the edge named no handle.
unfoldable pub name_source : FlowEdge → Value → Dict Value → Dict Value
unfolding get put
name_source e v inputs = elim e.target_handle [ none ↦ put_new inputs e.source v | some h ↦ inputs ]

unfoldable pub collect_edge : Dict Value → FlowEdge → Dict Value → Dict Value
unfolding get put target_port name_source port_key
collect_edge port_values e inputs = elim (get port_values (port_key e.source e.source_handle)) [
  | none ↦ inputs
  | some v ↦ name_source e v (put inputs (target_port e.target_handle) v)
]

unfoldable pub collect_edges : Dict Value → List FlowEdge → Dict Value → Dict Value
unfolding collect_edge
collect_edges port_values [] inputs = inputs
collect_edges port_values (e ∷ es) inputs =
    collect_edges port_values es (collect_edge port_values e inputs)

abbrev pub or_seed : List FlowEdge → Dict Value → Dict Value → Dict Value
or_seed [] props inputs = seed props inputs
or_seed (e ∷ es) props inputs = inputs

unfoldable pub collect_inputs :
    FlowNode → List FlowEdge → Dict Value → Dict (Dict Value) → Dict Value → Bool → Dict Value
unfolding collect_edges get put seed
collect_inputs node edges port_values initial props declares_props =
    let start = or_seed edges props (or_else (get initial node.id) []) in
    let inputs = collect_edges port_values edges start in
    if declares_props then put inputs "$props" (dict (of_entries props)) else inputs
