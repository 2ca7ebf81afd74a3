-- ===== src/Engine/Routing.antt =====
-- `_activated_ports`, `_port_key` and `_publish` of src/fancy_flow/engine/runner.py: which ports a
-- result lights, and what they carry.
use Prim.Native.String.{◌++◌ as append}
use fancy_flow_py.Prelude.{
  String, List, [], ◌∷◌, ◌++◌, Option, none, some, Bool, ◌==◌, map, contains, or_else,
  if◌then◌else◌,
}
use fancy_flow_py.Prelude.Dict.{Dict, get, put, keys}
use fancy_flow_py.Value.{Value, Fields, list, tuple, dict, to_list, entries, get_value, as_str}
use fancy_flow_py.Graph.{FlowNode, PortDescriptor}
use fancy_flow_py.Registry.Catalogue.{NodeKindRegistry, get as get_kind}
use fancy_flow_py.Events.{RunEvent, node_output, node_status, NodeStatus}

-- The ports, the shared value, and the per-port payloads.
pub record Activation : Type 0 where
  pub ports : List String
  pub value : Value
  pub per_port : Option (Dict Value)

abbrev pub port_ids : List PortDescriptor → List String
port_ids ps = map (λ p. p.id) ps

-- [p for p in subset if isinstance(p, str)]
unfoldable pub texts : List Value → List String
texts [] = []
texts (v ∷ vs) = let rest = texts vs in elim (as_str v) [ none ↦ rest | some s ↦ s ∷ rest ]

-- node.outputs, else the kind's outputs
unfoldable pub declared_ports : NodeKindRegistry → FlowNode → Option (List PortDescriptor)
unfolding get_kind
declared_ports kinds node = elim node.outputs [
  | some ports ↦ some ports
  | none ↦ elim node.type [
    | none ↦ none
    | some type ↦ elim (get_kind kinds type) [ none ↦ none | some kind ↦ kind.outputs ]
  ]
]

-- The value on every declared port, or on `out` if none are declared.
unfoldable pub on_declared : NodeKindRegistry → FlowNode → Value → Activation
unfolding declared_ports
on_declared kinds node result = elim (declared_ports kinds node) [
  | none ↦ record { ports = "out" ∷ []; value = result; per_port = none }
  | some ports ↦ record { ports = port_ids ports; value = result; per_port = none }
]

-- isinstance(result.get("branch"), str)
unfoldable pub on_branch : NodeKindRegistry → FlowNode → Fields → Activation
unfolding on_declared get_value get entries
on_branch kinds node fs = elim (as_str (get_value fs "branch")) [
  | some port ↦ record {
    ports = port ∷ [];
    value = or_else (get (entries fs) "value") (dict fs);
    per_port = none;
  }
  | none ↦ on_declared kinds node (dict fs)
]

-- The `__ports` subset, a mapping or a list.
unfoldable pub on_subset : NodeKindRegistry → FlowNode → Fields → Value → Activation
unfolding on_branch get_value entries texts to_list keys
on_subset kinds node fs (dict sub) = record {
  ports = keys (entries sub);
  value = get_value fs "value";
  per_port = some (entries sub);
}
on_subset kinds node fs (list vs) = record {
  ports = texts (to_list vs);
  value = get_value fs "value";
  per_port = none;
}
on_subset kinds node fs (tuple vs) = record {
  ports = texts (to_list vs);
  value = get_value fs "value";
  per_port = none;
}
on_subset kinds node fs _ = on_branch kinds node fs

-- isinstance(result.get("__port"), str)
unfoldable pub on_fields : NodeKindRegistry → FlowNode → Fields → Activation
unfolding on_subset get_value
on_fields kinds node fs = elim (as_str (get_value fs "__port")) [
  | some port ↦ record { ports = port ∷ []; value = get_value fs "value"; per_port = none }
  | none ↦ on_subset kinds node fs (get_value fs "__ports")
]

unfoldable pub activated_ports : NodeKindRegistry → FlowNode → Value → Activation
unfolding on_fields on_declared
activated_ports kinds node (dict fs) = on_fields kinds node fs
activated_ports kinds node v = on_declared kinds node v

-- An edge with no source handle, or an empty one, reads `out`.
unfoldable pub handle_or_out : Option String → String
handle_or_out none = "out"
handle_or_out (some h) = if h == "" then "out" else h

unfoldable pub port_key : String → Option String → String
unfolding handle_or_out
port_key node_id port_id = append node_id (append ":" (handle_or_out port_id))

-- per_port[port_id] if per_port is not None and port_id in per_port else value
unfoldable pub carried : Activation → String → Value
unfolding get
carried a port = elim a.per_port [ none ↦ a.value | some d ↦ or_else (get d port) a.value ]

-- The variables of a walk that a result changes. `completed` is a set.
pub record Progress : Type 0 where
  pub outputs : Dict Value
  pub port_values : Dict Value
  pub completed : List String
  pub errors : List String
  pub events : List RunEvent

abbrev pub emit : RunEvent → Progress → Progress
emit e s = record s { events = s.events ++ e ∷ [] }

unfoldable pub publish_ports : String → Activation → List String → Progress → Progress
unfolding carried port_key put
publish_ports node_id a [] s = s
publish_ports node_id a (p ∷ ps) s = publish_ports node_id a ps (
    emit (node_output node_id p (carried a p))
      (record s { port_values = put s.port_values (port_key node_id (some p)) (carried a p) }))

unfoldable pub publish : NodeKindRegistry → FlowNode → Value → Bool → Progress → Progress
unfolding publish_ports activated_ports put
publish kinds node result resumed s =
    let a = activated_ports kinds node result in
    let s' =
      publish_ports node.id a a.ports (record s { outputs = put s.outputs node.id result }) in
    emit (node_status node.id NodeStatus.done (if resumed then some "resumed" else none))
      (record s' {
        completed =
            if contains s'.completed node.id then s'.completed else s'.completed ++ node.id ∷ [];
      })
