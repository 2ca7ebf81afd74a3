-- ===== src/Engine/Diagnostics.antt =====
-- src/fancy_flow/engine/diagnostics.py: the warnings for edges that can never deliver. `text` is
-- Python's `str` of a value that is no text.
use Prim.Native.String.{◌++◌ as append}
use fancy_flow_py.Prelude.{
  String, List, [], ◌∷◌, Option, none, some, Bool, false, not, ◌&&◌, ◌||◌, ◌==◌, contains,
  if◌then◌else◌,
}
use fancy_flow_py.Prelude.Dict.{Dict, get}
use fancy_flow_py.Value.{Value, dict, field, end, str, as_str}
use fancy_flow_py.Text.{join, strip_prefix}
use fancy_flow_py.Graph.{FlowNode, FlowEdge}
use fancy_flow_py.Registry.NodeKind.{NodeKind, output_shape_for}
use fancy_flow_py.Registry.Catalogue.{NodeKindRegistry, get as get_kind}
use fancy_flow_py.Registry.Ports.{possible_ports}
use fancy_flow_py.Events.{RunEvent, log}
use fancy_flow_py.Engine.Routing.{handle_or_out, port_key}

-- registry.get(node.type) if node.type else None
unfoldable pub kind_of : NodeKindRegistry → FlowNode → Option NodeKind
unfolding get_kind
kind_of registry node = elim node.type [
  | none ↦ none
  | some type ↦ if type == "" then none else get_kind registry type
]

unfoldable pub possible_port_ids :
    (Value → String) → Option FlowNode → NodeKindRegistry → List String
unfolding kind_of possible_ports
possible_port_ids text none registry = "out" ∷ []
possible_port_ids text (some node) registry =
    possible_ports text (some node) (kind_of registry node) node.config

-- [key[len(prefix):] for key in port_values if key.startswith(prefix)]
unfoldable pub available : String → List String → List String
unfolding strip_prefix
available prefix [] = []
available prefix (k ∷ ks) =
    let rest = available prefix ks in
    elim (strip_prefix prefix k) [ none ↦ rest | some p ↦ p ∷ rest ]

-- A field of the source's output shape whose path is the handle.
unfoldable pub names_field : String → List (Dict Value) → Bool
unfolding get
names_field handle [] = false
names_field handle (f ∷ fs) = elim (get f "path") [
  | none ↦ names_field handle fs
  | some v ↦ elim (as_str v) [
    | none ↦ names_field handle fs
    | some path ↦ path == handle || names_field handle fs
  ]
]

-- source is not None, its kind declares a shape, and the shape has the field
unfoldable pub is_field : String → Option FlowNode → NodeKindRegistry → Bool
unfolding kind_of output_shape_for names_field
is_field handle none registry = false
is_field handle (some source) registry = elim (kind_of registry source) [
  | none ↦ false
  | some kind ↦ elim (output_shape_for kind source.config) [
    | none ↦ false
    | some fields ↦ names_field handle fields
  ]
]

unfoldable pub available_text : List String → String
unfolding join
available_text [] = ""
available_text (p ∷ ps) = append " Available: " (append (join ", " (p ∷ ps)) ".")

unfoldable pub undelivered_edge_message :
    FlowEdge → FlowNode → List String → Dict FlowNode → NodeKindRegistry → String
unfolding handle_or_out available available_text is_field get
undelivered_edge_message edge target port_values nodes_by_id registry =
    let handle = handle_or_out edge.source_handle in
    let head = append "Edge " (
      append edge.id (
        append " reads port \"" (
          append handle (
            append "\" from node " (
              append edge.source (
                append ", which never publishes it — nothing would reach "
                  (append target.id " at run time."))))))) in
    let ports = available_text (available (append edge.source ":") port_values) in
    let note =
      if is_field handle (get nodes_by_id edge.source) registry
      then append " Note: \"" (
          append handle (
            append "\" is a FIELD this node emits, not a port — read it downstream as {{ in."
              (append handle " }} rather than naming it as a source handle.")))
      else "" in
    let remedy : String = elim edge.source_handle [
      | none ↦ ""
      | some h ↦ " Leave sourceHandle off to read the node's output."
    ] in
    append head (append ports (append note remedy))

-- The source has finished, did not publish the port that the edge reads, and never could.
unfoldable pub is_undelivered :
    (Value → String)
    → List String
    → List String
    → Dict FlowNode
    → NodeKindRegistry
    → FlowEdge
    → Bool
unfolding port_key handle_or_out possible_port_ids get
is_undelivered text port_values completed nodes_by_id registry edge =
    not (contains port_values (port_key edge.source edge.source_handle))
    && contains completed edge.source
    && not (
        contains (possible_port_ids text (get nodes_by_id edge.source) registry)
          (handle_or_out edge.source_handle))

unfoldable pub warning :
    FlowNode → List String → Dict FlowNode → NodeKindRegistry → FlowEdge → RunEvent
unfolding undelivered_edge_message handle_or_out
warning target port_values nodes_by_id registry edge =
    log "warn" (undelivered_edge_message edge target port_values nodes_by_id registry)
      (some target.id)
      (dict (
        field "edge" (str edge.id) (
          field "source" (str edge.source)
            (field "sourceHandle" (str (handle_or_out edge.source_handle)) end))))

unfoldable pub undelivered_edge_warnings :
    (Value → String)
    → FlowNode
    → List FlowEdge
    → List String
    → List String
    → Dict FlowNode
    → NodeKindRegistry
    → List RunEvent
unfolding is_undelivered warning
undelivered_edge_warnings text target [] port_values completed nodes_by_id registry = []
undelivered_edge_warnings text target (e ∷ es) port_values completed nodes_by_id registry =
    let rest =
      undelivered_edge_warnings text target es port_values completed nodes_by_id registry in
    if is_undelivered text port_values completed nodes_by_id registry e
    then warning target port_values nodes_by_id registry e ∷ rest
    else rest
