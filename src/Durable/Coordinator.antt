-- ===== src/Durable/Coordinator.antt =====
-- `Coordinator.advance` of src/fancy_flow/durable/coordinator.py with what it calls, and the outputs
-- that the coordinator reads back from the store. `text` is Python's `str` of a value that is no text.
pub mod HandedOut
pub mod RunNode
pub mod Recorded
pub mod Answers
use Prim.Native.String.{◌++◌ as append}
use fancy_flow_py.Prelude.{
  ℕ, zero, suc, String, List, [], ◌∷◌, ◌++◌, Option, none, some, Bool, true, false, ◌==◌, map,
  unique, or_else, if◌then◌else◌,
}
use fancy_flow_py.Prelude.Dict.{Dict, get, put}
use fancy_flow_py.Value.{Value}
use fancy_flow_py.Graph.{FlowNode, FlowGraph}
use fancy_flow_py.Registry.Catalogue.{NodeKindRegistry}
use fancy_flow_py.Events.{RunEvent, node_of}
use fancy_flow_py.Topo.{index_nodes}
use fancy_flow_py.Engine.Inputs.{incoming}
use fancy_flow_py.Engine.Diagnostics.{undelivered_edge_warnings}
use fancy_flow_py.Durable.State.{NodeState, NodeRunStatus, Rows, ClaimStore, rows}
use fancy_flow_py.Durable.Frontier.{FrontierResult, compute, settle_skips}
use fancy_flow_py.Durable.Dispatch.{select_dispatch}

-- `on_event` says whether the host listens.
pub record Coordinator : Type 0 where
  pub graph : FlowGraph
  pub run_key : String
  pub kinds : NodeKindRegistry
  pub on_event : Bool
  pub max_concurrent : Value

abbrev pub is_completed : NodeRunStatus → Bool
is_completed NodeRunStatus.completed = true
is_completed _ = false

-- The ids of the rows that completed, and their ports, keyed as the engine keys them.
unfoldable pub completed_ids : Rows → List String
completed_ids [] = []
completed_ids ((node_id, row) ∷ state) =
    let rest = completed_ids state in if is_completed row.status then node_id ∷ rest else rest

unfoldable pub stored_ports : Rows → List String
stored_ports [] = []
stored_ports ((node_id, row) ∷ state) =
    let rest = stored_ports state in
    if is_completed row.status
    then map (λ port. append node_id (append ":" port)) row.ports ++ rest
    else rest

-- The warnings for the nodes that were skipped.
unfoldable pub warnings_for : (Value → String) → Coordinator → Rows → List String → List RunEvent
unfolding get index_nodes incoming undelivered_edge_warnings stored_ports completed_ids unique
warnings_for text c state [] = []
warnings_for text c state (node_id ∷ skipped) =
    let rest = warnings_for text c state skipped in
    elim (get (index_nodes c.graph.nodes []) node_id) [
      | none ↦ rest
      | some node ↦
          undelivered_edge_warnings text node (incoming c.graph.edges node_id)
            (unique (stored_ports state)) (completed_ids state) (index_nodes c.graph.nodes [])
            c.kinds
          ++ rest
    ]

unfoldable pub deliver_skip_diagnostics :
    (Value → String) → Coordinator → List String → Rows → List RunEvent
unfolding warnings_for
deliver_skip_diagnostics text c skipped state =
    if c.on_event then warnings_for text c state skipped else []

-- The nodes to dispatch, the store with the skips, and the events that were delivered.
pub record Advance : Type 0 where
  pub handed_out : List String
  pub store : ClaimStore
  pub events : List RunEvent

-- The state against which held work is counted: read again if anything was skipped.
abbrev pub recounted : Coordinator → List String → Rows → ClaimStore → Rows
recounted c [] state store = state
recounted c (k ∷ ks) state store = rows store c.run_key

unfoldable pub advance : (Value → String) → Coordinator → String → ClaimStore → Option Advance
unfolding rows compute settle_skips deliver_skip_diagnostics select_dispatch
advance text c now store =
    let state = rows store c.run_key in
    elim (compute c.graph state) [
      | none ↦ none
      | some f ↦
          let (settled, store') = settle_skips now store c.run_key f.skipped in
          elim (select_dispatch f.ready (recounted c f.skipped state store') c.max_concurrent) [
            | none ↦ none
            | some out ↦ some (record {
              handed_out = out;
              store = store';
              events = deliver_skip_diagnostics text c settled state;
            })
          ]
    ]

-- The outputs of the rows that completed, in the order of the graph.
unfoldable pub outputs_of : List FlowNode → Rows → Dict Value → Dict Value
unfolding get put
outputs_of [] state d = d
outputs_of (node ∷ nodes) state d = outputs_of nodes state (elim (get state node.id) [
  | none ↦ d
  | some row ↦ if is_completed row.status then put d node.id row.output else d
])

unfoldable pub outputs : Coordinator → ClaimStore → Dict Value
unfolding outputs_of rows
outputs c store = outputs_of c.graph.nodes (rows store c.run_key) []

-- What a node's job resumes from, in the order of the store.
unfoldable pub completed_outputs : Rows → Dict Value
completed_outputs [] = []
completed_outputs ((node_id, row) ∷ state) =
    let rest = completed_outputs state in
    if is_completed row.status then (node_id, row.output) ∷ rest else rest

-- `forward`: the event is passed on if it names no node, or the job's own.
unfoldable pub forwards : String → RunEvent → Bool
unfolding node_of
forwards node_id event = elim (node_of event) [ none ↦ true | some j ↦ j == node_id ]
