-- ===== src/Workflow/Writing.antt =====
-- `export_workflow` of src/fancy_flow/workflow.py, with `PortDescriptor.to_dict` and
-- `WorkflowMetadata.to_dict` of src/fancy_flow/schema/graph.py.
use fancy_flow_py.Prelude.{
  String, List, [], ◌∷◌, Option, none, some, ◌==◌, if◌then◌else◌, ℤ, pos, map, or_else,
}
use fancy_flow_py.Prelude.Dict.{Dict, put}
use fancy_flow_py.Value.{
  Value, Float, Items, int, float, str, list, dict, of_list, of_entries, is_present,
}
use fancy_flow_py.Text.{strip}
use fancy_flow_py.Graph.{PortDescriptor, FlowNode, FlowEdge, FlowGraph}

abbrev pub object_of : Dict Value → Value
object_of d = dict (of_entries d)

-- out[key] = value, for a value that is there
unfoldable pub put_some : Dict Value → String → Option Value → Dict Value
unfolding put
put_some d key none = d
put_some d key (some v) = put d key v

abbrev pub str_of : Option String → Option Value
str_of none = none
str_of (some s) = some (str s)

abbrev pub float_of : Option Float → Option Value
float_of none = none
float_of (some x) = some (float x)

-- PortDescriptor.to_dict
unfoldable pub port_to_dict : PortDescriptor → Dict Value
unfolding put_some
port_to_dict p =
    put_some (put_some (("id", str p.id) ∷ []) "label" (str_of p.label)) "type" (str_of p.type)

unfoldable pub ports_value : List PortDescriptor → Items
unfolding port_to_dict of_entries
ports_value [] = Items.nil
ports_value (p ∷ ps) = Items.cons (object_of (port_to_dict p)) (ports_value ps)

abbrev pub ports_field : Option (List PortDescriptor) → Option Value
ports_field none = none
ports_field (some ps) = some (list (ports_value ps))

-- A message that is not blank.
unfoldable pub message_field : Option String → Option Value
unfolding strip
message_field none = none
message_field (some s) = if s == "" then none else if strip s == "" then none else some (str s)

-- A mapping that is not empty.
abbrev pub filled : Dict Value → Option Value
filled [] = none
filled (kv ∷ d) = some (object_of (kv ∷ d))

abbrev pub present : Value → Option Value
present v = if is_present v then some v else none

-- node.type or "custom"
abbrev pub kind_field : Option String → String
kind_field none = "custom"
kind_field (some s) = if s == "" then "custom" else s

abbrev pub position : FlowNode → Value
position n = object_of (("x", float n.x) ∷ ("y", float n.y) ∷ [])

-- _node_to_schema
unfoldable pub node_to_schema : FlowNode → Dict Value
unfolding put_some ports_value message_field of_entries
node_to_schema n =
    let out0 =
      ("id", str n.id) ∷ ("kind", str (kind_field n.type)) ∷ ("position", position n) ∷ [] in
    let out1 = put_some out0 "label" (str_of n.label) in
    let out2 = put_some out1 "description" (str_of n.description) in
    let out3 = put_some out2 "startingMsg" (message_field n.starting_msg) in
    let out4 = put_some out3 "stoppingMsg" (message_field n.stopping_msg) in
    let out5 = put_some out4 "config" (filled n.config) in
    let out6 = put_some out5 "parentId" (str_of n.parent_id) in
    let out7 = put_some out6 "extent" (present n.extent) in
    let out8 = put_some out7 "width" (float_of n.width) in
    let out9 = put_some out8 "height" (float_of n.height) in
    let out10 = put_some out9 "style" (filled (or_else n.style [])) in
    let out11 = put_some out10 "inputs" (ports_field n.inputs) in
    put_some out11 "outputs" (ports_field n.outputs)

-- _edge_to_schema
unfoldable pub edge_to_schema : FlowEdge → Dict Value
unfolding put_some
edge_to_schema e =
    let out0 = ("id", str e.id) ∷ ("source", str e.source) ∷ ("target", str e.target) ∷ [] in
    let out1 = put_some out0 "sourceHandle" (str_of e.source_handle) in
    let out2 = put_some out1 "targetHandle" (str_of e.target_handle) in
    put_some out2 "label" (str_of e.label)

pub record WorkflowMetadata : Type 0 where
  pub id : Option String
  pub name : Option String
  pub description : Option String
  pub created_at : Option ℤ
  pub updated_at : Option ℤ
  pub author : Option String
  pub tags : Option (List String)

abbrev pub int_of : Option ℤ → Option Value
int_of none = none
int_of (some n) = some (int n)

unfoldable pub tags_value : List String → Items
tags_value [] = Items.nil
tags_value (t ∷ ts) = Items.cons (str t) (tags_value ts)

abbrev pub tags_field : Option (List String) → Option Value
tags_field none = none
tags_field (some ts) = some (list (tags_value ts))

-- WorkflowMetadata.to_dict
unfoldable pub metadata_to_dict : WorkflowMetadata → Dict Value
unfolding put_some tags_value
metadata_to_dict m =
    let out1 = put_some [] "id" (str_of m.id) in
    let out2 = put_some out1 "name" (str_of m.name) in
    let out3 = put_some out2 "description" (str_of m.description) in
    let out4 = put_some out3 "createdAt" (int_of m.created_at) in
    let out5 = put_some out4 "updatedAt" (int_of m.updated_at) in
    let out6 = put_some out5 "author" (str_of m.author) in put_some out6 "tags" (tags_field m.tags)

abbrev pub schema_url : String
schema_url = "https://particle.academy/schemas/workflow/v1.json"

-- meta["updatedAt"] = round(time.time() * 1000), with the time given
unfoldable pub stamped : ℤ → Option WorkflowMetadata → Option Value
unfolding metadata_to_dict put of_entries
stamped now none = none
stamped now (some m) = some (object_of (put (metadata_to_dict m) "updatedAt" (int now)))

abbrev pub objects : List (Dict Value) → Items
objects ds = of_list (map object_of ds)

abbrev pub inputs_field : List (Dict Value) → Option Value
inputs_field [] = none
inputs_field (d ∷ ds) = some (list (objects (d ∷ ds)))

-- The `graph` of a document.
unfoldable pub graph_to_schema : FlowGraph → Value
unfolding node_to_schema edge_to_schema of_list of_entries
graph_to_schema g = object_of (
    ("nodes", list (objects (map node_to_schema g.nodes)))
    ∷ ("edges", list (objects (map edge_to_schema g.edges)))
    ∷ [])

-- export_workflow, at the time `now` in milliseconds
unfoldable pub export_workflow : ℤ → FlowGraph → Option WorkflowMetadata → Option Value → Dict Value
unfolding stamped graph_to_schema put_some
export_workflow now g metadata view =
    let out0 = ("$schema", str schema_url) ∷ ("version", int (pos 1)) ∷ [] in
    let out1 = put_some out0 "metadata" (stamped now metadata) in
    let out2 = put_some out1 "inputs" (inputs_field g.inputs) in
    let out3 = put out2 "graph" (graph_to_schema g) in put_some out3 "view" view
