-- ===== src/Durable/Replay.antt =====
-- src/fancy_flow/durable/replay.py: the engine run again up to one node, every other node fenced.
pub mod Fence
use fancy_flow_py.Prelude.{
  ℕ, zero, suc, String, List, [], ◌∷◌, ◌++◌, Option, none, some, Bool, true, false, ◌==◌,
  if◌then◌else◌,
}
use fancy_flow_py.Prelude.Dict.{Dict}
use fancy_flow_py.Value.{Value, str, dict, of_entries}
use fancy_flow_py.Graph.{FlowNode, FlowGraph}
use fancy_flow_py.Registry.Catalogue.{NodeKindRegistry}
use fancy_flow_py.Executors.{ExecutorRegistry, bind_node}
use fancy_flow_py.Events.{RunEvent, node_output}
use fancy_flow_py.Engine.Walk.{
  Host, Reply, returned, RunOptions, RunResult, Run, finished, run_aborted, run,
}

-- An executor of the host's registry, or `_boundary`.
pub data Guarded (E : Type 0) : Type 0 where
  own : E → Guarded E
  boundary : Guarded E

-- Port.only(FENCE_PORT)
abbrev pub fenced : Value
fenced = dict (of_entries (("__port", str "fancy-flow:fenced") ∷ []))

abbrev pub call_guarded :
    {E W : Type 0} → Host E W → Guarded E → FlowNode → Dict Value → W → Reply × List RunEvent × W
call_guarded host (own x) node inputs w = host.call x node inputs w
call_guarded host boundary node inputs w = (returned fenced, [], w)

abbrev pub guard : {E W : Type 0} → Host E W → Host (Guarded E) W
guard host = record {
  call = call_guarded host;
  polled = λ node. none;
  late = host.late;
  close_terminals = host.close_terminals;
  text = host.text;
  decimal = host.decimal;
}

unfoldable pub own_all : {E : Type 0} → Dict E → Dict (Guarded E)
own_all [] = []
own_all ((k, x) ∷ d) = (k, own x) ∷ own_all d

-- executors.fork()
unfoldable pub fork : {E : Type 0} → ExecutorRegistry E → ExecutorRegistry (Guarded E)
unfolding own_all
fork r = record { by_kind = own_all r.by_kind; by_node = own_all r.by_node; kinds = r.kinds }

-- node.id == node_id, for a target that may be None
abbrev pub is_target : Option String → String → Bool
is_target none k = false
is_target (some j) k = j == k

unfoldable pub fence :
    {E : Type 0}
    → Option String
    → List FlowNode
    → ExecutorRegistry (Guarded E)
    → ExecutorRegistry (Guarded E)
unfolding bind_node
fence target [] r = r
fence target (node ∷ nodes) r =
    fence target nodes (if is_target target node.id then r else bind_node r node.id boundary)

abbrev pub replay_options : Dict Value → Dict (Dict Value) → RunOptions
replay_options resume_outputs initial_inputs = record {
  timeout_ms = none;
  initial_inputs = initial_inputs;
  props = [];
  resume_outputs = resume_outputs;
  entry_nodes = none;
}

-- The engine's run behind `replay_up_to`; no signal and no timeout are passed on.
unfoldable pub replay_up_to :
    {E W : Type 0}
    → Host E W
    → NodeKindRegistry
    → ExecutorRegistry E
    → FlowGraph
    → Option String
    → Dict Value
    → Dict (Dict Value)
    → W
    → Run W
unfolding fence fork run
replay_up_to host kinds executors graph target resume_outputs initial_inputs world =
    run (guard host) kinds (fence target graph.nodes (fork executors)) graph
      (replay_options resume_outputs initial_inputs) world

-- The ports that a node published, from the engine's events.
unfoldable pub ports_of : List RunEvent → String → List String
ports_of [] k = []
ports_of (node_output node_id port_id value ∷ events) k =
    let rest = ports_of events k in if node_id == k then port_id ∷ rest else rest
ports_of (event ∷ events) k = ports_of events k

-- error == BOUNDARY
abbrev pub is_boundary : Option String → Bool
is_boundary none = false
is_boundary (some error) = error == "fancy-flow:node-boundary"
