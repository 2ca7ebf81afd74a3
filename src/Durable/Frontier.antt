-- ===== src/Durable/Frontier.antt =====
-- src/fancy_flow/durable/frontier.py: which nodes of a run are unblocked.
pub mod Passes
pub mod Loop
pub mod Rule
pub mod Computed
pub mod Progress
use fancy_flow_py.Prelude.{
  ℕ, zero, suc, String, List, [], ◌∷◌, ◌++◌, Option, none, some, Bool, true, false, ◌&&◌, ◌||◌,
  ◌==◌, contains, length, if◌then◌else◌,
}
use fancy_flow_py.Prelude.Dict.{Dict, get, put, has}
use fancy_flow_py.Graph.{FlowNode, FlowEdge, FlowGraph}
use fancy_flow_py.Registry.KindId.{matches}
use fancy_flow_py.Engine.Inputs.{incoming}
use fancy_flow_py.Engine.Routing.{handle_or_out}
use fancy_flow_py.Durable.State.{
  NodeState, NodeRunStatus, Rows, ClaimStore, is_settled, is_held, settled_already, skip,
}

pub record FrontierResult : Type 0 where
  pub ready : List String
  pub skipped : List String

-- The variables of `compute`: the ports of settled nodes, the held, ready and skipped ones.
pub record Front : Type 0 where
  pub settled : Dict (List String)
  pub held : List String
  pub ready : List String
  pub skipped : List String

unfoldable pub read_row : String → NodeRunStatus → List String → Front → Front
unfolding put
read_row node_id NodeRunStatus.completed ports f = record f {
  settled = put f.settled node_id ports;
}
read_row node_id NodeRunStatus.skipped ports f = record f { settled = put f.settled node_id [] }
read_row node_id NodeRunStatus.failed ports f = record f { settled = put f.settled node_id [] }
read_row node_id _ ports f = record f { held = node_id ∷ f.held }

unfoldable pub read_rows : Rows → Front → Front
unfolding read_row
read_rows [] f = f
read_rows ((node_id, row) ∷ state) f = read_rows state (read_row node_id row.status row.ports f)

-- any edge.source not in settled
unfoldable pub blocked : Dict (List String) → List FlowEdge → Bool
unfolding get
blocked settled [] = false
blocked settled (e ∷ es) =
    let rest = blocked settled es in if has settled e.source then rest else true

-- (edge.source_handle or "out") in settled[edge.source]
unfoldable pub is_lit : Dict (List String) → FlowEdge → Bool
unfolding get handle_or_out
is_lit settled e = elim (get settled e.source) [
  | none ↦ false
  | some ports ↦ contains ports (handle_or_out e.source_handle)
]

unfoldable pub active : Dict (List String) → List FlowEdge → Bool
unfolding is_lit
active settled [] = false
active settled (e ∷ es) = is_lit settled e || active settled es

-- edges and not active
abbrev pub is_dead : Dict (List String) → List FlowEdge → Bool
is_dead settled [] = false
is_dead settled (e ∷ es) = if active settled (e ∷ es) then false else true

abbrev pub is_note : Option String → Bool
is_note none = false
is_note (some type) = matches type "note"

abbrev pub settle_empty : String → Front → Front
settle_empty node_id f = record f {
  settled = put f.settled node_id [];
  skipped = f.skipped ++ node_id ∷ [];
}

-- The body of `for node in graph.nodes`, with whether it set `changed`.
unfoldable pub consider : FlowGraph → FlowNode → Front → Bool × Front
unfolding get put incoming blocked active matches
consider graph node f =
    let edges = incoming graph.edges node.id in
    if has f.settled node.id || contains f.held node.id || contains f.ready node.id
    then (false, f)
    else if blocked f.settled edges
    then (false, f)
    else if is_dead f.settled edges || is_note node.type
    then (true, settle_empty node.id f)
    else (false, record f { ready = f.ready ++ node.id ∷ [] })

unfoldable pub pass : FlowGraph → List FlowNode → Bool → Front → Bool × Front
unfolding consider
pass graph [] changed f = (changed, f)
pass graph (node ∷ nodes) changed f =
    let (settled, f') = consider graph node f in pass graph nodes (changed || settled) f'

-- `while changed`, on fuel.
unfoldable pub repeat : ℕ → FlowGraph → Front → Option Front
unfolding pass
repeat zero graph f = none
repeat (suc fuel) graph f =
    let (changed, f') = pass graph graph.nodes false f in
    let rest = repeat fuel graph f' in if changed then rest else some f'

abbrev pub front_of : Rows → Front
front_of state = read_rows state (record { settled = []; held = []; ready = []; skipped = [] })

-- A pass that changes something settles a node, so one pass more than there are nodes is enough.
unfoldable pub compute : FlowGraph → Rows → Option FrontierResult
unfolding repeat read_rows
compute graph state = elim (repeat (suc (length graph.nodes)) graph (front_of state)) [
  | none ↦ none
  | some f ↦ some (record { ready = f.ready; skipped = f.skipped })
]

unfoldable pub all_settled : List FlowNode → Rows → Bool
unfolding get
all_settled [] state = true
all_settled (node ∷ nodes) state = settled_already (get state node.id) && all_settled nodes state

unfoldable pub is_complete : FlowGraph → Rows → Bool
unfolding all_settled
is_complete graph state = all_settled graph.nodes state

unfoldable pub has_work_in_flight : Rows → Bool
has_work_in_flight [] = false
has_work_in_flight ((node_id, row) ∷ state) = is_held row.status || has_work_in_flight state

-- The nodes that this call settled, in order.
unfoldable pub settle_skips : String → ClaimStore → String → List String → List String × ClaimStore
unfolding skip
settle_skips now store run_key [] = ([], store)
settle_skips now store run_key (node_id ∷ skipped) =
    let (settled, store') = skip now store run_key node_id in
    let (rest, last) = settle_skips now store' run_key skipped in
    (if settled then node_id ∷ rest else rest, last)
