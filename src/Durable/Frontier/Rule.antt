-- ===== src/Durable/Frontier/Rule.antt =====
-- The rule of the frontier in terms of the rows alone: which sources are decided, and which edges
-- are lit.
use fancy_flow_py.Prelude.{
  String, List, [], ◌∷◌, Option, none, some, Bool, true, false, not, ◌&&◌, ◌||◌, ◌==◌, ◌≡◌, ◌⊎◌,
  ◌∙◌, refl, ap, arith, contains, distinct, eq_iff, if◌then◌else◌,
}
use fancy_flow_py.Prelude.Dict.{get, keys, get-put, contains-keys}
use fancy_flow_py.Graph.{FlowNode, FlowEdge, FlowGraph, ids}
use fancy_flow_py.Engine.Inputs.{incoming}
use fancy_flow_py.Engine.Routing.{handle_or_out}
use fancy_flow_py.Durable.State.{NodeState, NodeRunStatus, Rows, is_held, settled_already}
use fancy_flow_py.Durable.Frontier.{Front, FrontierResult, read_row, read_rows, is_note}

-- The ports of a settled row. A row that was skipped or failed has none.
abbrev pub ports_of : NodeRunStatus → List String → Option (List String)
ports_of NodeRunStatus.completed ports = some ports
ports_of NodeRunStatus.skipped ports = some []
ports_of NodeRunStatus.failed ports = some []
ports_of _ ports = none

abbrev pub row_ports : Option NodeState → Option (List String)
row_ports none = none
row_ports (some row) = ports_of row.status row.ports

abbrev pub row_held : Option NodeState → Bool
row_held none = false
row_held (some row) = is_held row.status

-- The node is settled in the rows, or was skipped just now.
abbrev pub is_decided : Rows → List String → String → Bool
is_decided state skipped k = settled_already (get state k) || contains skipped k

-- Some edge comes from a node that is not decided.
abbrev pub waits : Rows → List String → List FlowEdge → Bool
waits state skipped [] = false
waits state skipped (e ∷ es) = not (is_decided state skipped e.source) || waits state skipped es

-- The source of the edge completed, and published on the port that the edge reads.
abbrev pub is_lit_by : Option NodeState → FlowEdge → Bool
is_lit_by row e = elim (row_ports row) [
  | none ↦ false
  | some ports ↦ contains ports (handle_or_out e.source_handle)
]

abbrev pub any_lit : Rows → List FlowEdge → Bool
any_lit state [] = false
any_lit state (e ∷ es) = is_lit_by (get state e.source) e || any_lit state es

-- There are edges, and none of them is lit.
abbrev pub is_unlit : Rows → List FlowEdge → Bool
is_unlit state [] = false
is_unlit state (e ∷ es) = if any_lit state (e ∷ es) then false else true

-- What the frontier of a run is.
pub record IsFrontier (graph : FlowGraph) (state : Rows) (r : FrontierResult) : Type 0 where
  pub ready :
      (k : String)
      → contains r.ready k ≡ true
      → (get state k ≡ none)
        × (contains r.skipped k ≡ false)
        × (waits state r.skipped (incoming graph.edges k) ≡ false)
        × (is_unlit state (incoming graph.edges k) ≡ false)
  pub skipped :
      (k : String)
      → contains r.skipped k ≡ true
      → (get state k ≡ none)
        × (waits state r.skipped (incoming graph.edges k) ≡ false)
        × ((is_unlit state (incoming graph.edges k) ≡ true)
            ⊎ ((node : FlowNode) × (node.id ≡ k) × (is_note node.type ≡ true)))
  pub others :
      (k : String)
      → contains (ids graph.nodes) k ≡ true
      → get state k ≡ none
      → contains r.ready k ≡ false
      → contains r.skipped k ≡ false
      → waits state r.skipped (incoming graph.edges k) ≡ true

abbrev pub or_else_option : {A : Type 0} → Option A → Option A → Option A
or_else_option (some a) o = some a
or_else_option none o = o

read_row-settled :
    (j : String) (s : NodeRunStatus) (ports : List String) (f : Front) (k : String)
    → get (read_row j s ports f).settled k
      ≡ (if j == k then or_else_option (ports_of s ports) (get f.settled k) else get f.settled k)
unfolding read_row
read_row-settled j NodeRunStatus.completed ports f k = ground (arith, get-put f.settled j k ports)
read_row-settled j NodeRunStatus.skipped ports f k = ground (arith, get-put f.settled j k [])
read_row-settled j NodeRunStatus.failed ports f k = ground (arith, get-put f.settled j k [])
read_row-settled j NodeRunStatus.claimed ports f k = ground arith
read_row-settled j NodeRunStatus.paused ports f k = ground arith

read_row-held :
    (j : String) (s : NodeRunStatus) (ports : List String) (f : Front) (k : String)
    → contains (read_row j s ports f).held k ≡ ((j == k && is_held s) || contains f.held k)
unfolding read_row
read_row-held j NodeRunStatus.completed ports f k = ground arith
read_row-held j NodeRunStatus.skipped ports f k = ground arith
read_row-held j NodeRunStatus.failed ports f k = ground arith
read_row-held j NodeRunStatus.claimed ports f k = ground arith
read_row-held j NodeRunStatus.paused ports f k = ground arith

read_row-rest :
    (j : String) (s : NodeRunStatus) (ports : List String) (f : Front)
    → ((read_row j s ports f).ready ≡ f.ready) × ((read_row j s ports f).skipped ≡ f.skipped)
unfolding read_row
read_row-rest j NodeRunStatus.completed ports f = (refl, refl)
read_row-rest j NodeRunStatus.skipped ports f = (refl, refl)
read_row-rest j NodeRunStatus.failed ports f = (refl, refl)
read_row-rest j NodeRunStatus.claimed ports f = (refl, refl)
read_row-rest j NodeRunStatus.paused ports f = (refl, refl)

-- The rows of distinct nodes, as the loop starts from them.
pub read_rows-settled :
    (state : Rows) (f : Front) (k : String)
    → distinct (keys state) ≡ true
    → get (read_rows state f).settled k ≡ or_else_option (row_ports (get state k)) (get f.settled k)
unfolding read_rows get keys
read_rows-settled [] f k h = refl
read_rows-settled ((j, row) ∷ state) f k h =
    read_rows-settled state (read_row j row.status row.ports f) k (ground arith)
    ∙ ground (
      arith,
      read_row-settled j row.status row.ports f k,
      contains-keys state k,
      eq_iff j k,
      ap (contains (keys state)),
    )

pub read_rows-held :
    (state : Rows) (f : Front) (k : String)
    → distinct (keys state) ≡ true
    → contains (read_rows state f).held k ≡ (row_held (get state k) || contains f.held k)
unfolding read_rows get keys
read_rows-held [] f k h = refl
read_rows-held ((j, row) ∷ state) f k h =
    read_rows-held state (read_row j row.status row.ports f) k (ground arith)
    ∙ ground (
      arith,
      read_row-held j row.status row.ports f k,
      contains-keys state k,
      eq_iff j k,
      ap (contains (keys state)),
    )

pub read_rows-rest :
    (state : Rows) (f : Front)
    → ((read_rows state f).ready ≡ f.ready) × ((read_rows state f).skipped ≡ f.skipped)
unfolding read_rows
read_rows-rest [] f = (refl, refl)
read_rows-rest ((j, row) ∷ state) f =
    let (ready, skipped) = read_rows-rest state (read_row j row.status row.ports f) in
    let (ready', skipped') = read_row-rest j row.status row.ports f in
    (ready ∙ ready', skipped ∙ skipped')
