-- ===== src/Engine/Walk.antt =====
-- `FlowRunner._walk` of src/fancy_flow/engine/runner.py, and `_sync_outcome`, which drives it. What
-- runs outside the walk is a `Host`: the executors' code with the world that it changes, the clock
-- and the cancellation signal at each node, the closing of terminals, and Python's `str`.
use Prim.Native.String.{◌++◌ as append}
use fancy_flow_py.Prelude.{
  ℕ, String, List, [], ◌∷◌, ◌++◌, Option, none, some, Bool, true, false, not, ◌||◌, ◌==◌, contains,
  or_else, if◌then◌else◌,
}
use fancy_flow_py.Prelude.Dict.{Dict, get, has, keys}
use fancy_flow_py.Value.{Value, null}
use fancy_flow_py.Text.{strip}
use fancy_flow_py.Graph.{FlowNode, FlowEdge, FlowGraph}
use fancy_flow_py.Registry.Catalogue.{NodeKindRegistry, never_executes}
use fancy_flow_py.Executors.{ExecutorRegistry, resolve_for}
use fancy_flow_py.Events.{
  RunEvent, run_start, run_end, run_error, node_status, node_message, log, NodeStatus,
}
use fancy_flow_py.Props.{ok, refused, resolve_workflow_props}
use fancy_flow_py.Topo.{topo_sort, index_nodes}
use fancy_flow_py.Engine.Routing.{Progress, emit, publish, port_key}
use fancy_flow_py.Engine.Diagnostics.{undelivered_edge_warnings}
use fancy_flow_py.Engine.Inputs.{incoming, collect_inputs}

-- What a call of an executor comes to: a value, an abort with its reason, another exception with
-- its text, or an awaitable.
pub data Reply : Type 0 where
  returned : Value → Reply
  aborted : String → Reply
  raised : String → Reply
  awaitable : Reply

-- `(ok, payload)`
pub data Outcome : Type 0 where
  success : Value → Outcome
  failure : String → Outcome

unfoldable pub sync_outcome : FlowNode → Reply → Outcome
sync_outcome node (returned v) = success v
sync_outcome node (aborted reason) = failure reason
sync_outcome node (raised text) = failure text
sync_outcome node awaitable = failure (
    append "Node " (
      append node.id
        " returned an awaitable to the synchronous runner. Use FlowRunner.arun() for async executors."))

-- `E` is an executor, `W` the world that executors change. `call` also says what the executor
-- emitted through its context. `polled` is the signal's reason at a node, if it is aborted there.
pub record Host (E W : Type 0) : Type 0 where
  pub call : E → FlowNode → Dict Value → W → Reply × List RunEvent × W
  pub polled : FlowNode → Option String
  pub late : FlowNode → Bool
  pub close_terminals : W → List RunEvent × W
  pub text : Value → String
  pub decimal : ℕ → String

pub record RunOptions : Type 0 where
  pub timeout_ms : Option ℕ
  pub initial_inputs : Dict (Dict Value)
  pub props : Dict Value
  pub resume_outputs : Dict Value
  pub entry_nodes : Option (List String)

pub record RunResult : Type 0 where
  pub ok : Bool
  pub outputs : Dict Value
  pub error : Option String
  pub events : List RunEvent

-- The walk's variables with the world.
pub record State (W : Type 0) : Type 0 where
  pub progress : Progress
  pub world : W

-- One turn of the loop over `order` goes on, breaks, or raises RunAborted.
pub data Turn (W : Type 0) : Type 0 where
  next : State W → Turn W
  stop : State W → Turn W
  cancelled : String → Turn W

pub data Run (W : Type 0) : Type 0 where
  finished : RunResult → Progress → W → Run W
  run_aborted : String → Run W

abbrev pub emit_all : List RunEvent → Progress → Progress
emit_all es s = record s { events = s.events ++ es }

abbrev pub fail : String → FlowNode → Progress → Progress
fail msg node s = emit (log "error" msg (some node.id) null) (
    emit (node_status node.id NodeStatus.error (some msg))
      (record s { errors = s.errors ++ msg ∷ [] }))

-- raw.strip(), if it is there and not empty
unfoldable pub announcement : Option String → Option String
unfolding strip
announcement none = none
announcement (some raw) = if strip raw == "" then none else some (strip raw)

unfoldable pub announce : FlowNode → String → Option String → Progress → Progress
unfolding announcement
announce node phase raw s = elim (announcement raw) [
  | none ↦ s
  | some message ↦ emit (node_message node.id phase message) s
]

-- any(_port_key(e.source, e.source_handle) in port_values for e in incoming)
unfoldable pub any_active : Dict Value → List FlowEdge → Bool
unfolding port_key get
any_active port_values [] = false
any_active port_values (e ∷ es) =
    has port_values (port_key e.source e.source_handle) || any_active port_values es

-- if incoming and not any_active
abbrev pub is_dead : Dict Value → List FlowEdge → Bool
is_dead port_values [] = false
is_dead port_values (e ∷ es) = not (any_active port_values (e ∷ es))

-- not incoming and entry_nodes is not None and node.id not in entry_nodes
abbrev pub is_dormant : List FlowEdge → Option (List String) → String → Bool
is_dormant (e ∷ es) entry node_id = false
is_dormant [] none node_id = false
is_dormant [] (some entry) node_id = not (contains entry node_id)

abbrev pub edges_into : FlowGraph → FlowNode → List FlowEdge
edges_into graph node = incoming graph.edges node.id

module _ {E W : Type 0} (host : Host E W) (kinds : NodeKindRegistry)
    (executors : ExecutorRegistry E) (graph : FlowGraph) (options : RunOptions)
    (props : Dict Value) where
  -- The part of a turn behind `_Step`: the outcome is recorded.
  unfoldable pub settle : FlowNode → Outcome → State W → Turn W
  unfolding publish announce
  settle node (success v) s = next (record s {
    progress = announce node "end" node.stopping_msg (publish kinds node v false s.progress);
  })
  settle node (failure payload) s = stop (record s { progress = fail payload node s.progress })

  unfoldable pub execute : FlowNode → E → Dict Value → State W → Turn W
  unfolding settle announce sync_outcome
  execute node executor inputs s =
      let started = announce node "start" node.starting_msg s.progress in
      let (reply, emitted, world) = host.call executor node inputs s.world in
      settle node (sync_outcome node reply)
        (record { progress = emit_all emitted started; world = world })

  unfoldable pub dispatch : FlowNode → State W → Turn W
  unfolding execute collect_inputs resolve_for incoming
  dispatch node s =
      let running = emit (node_status node.id NodeStatus.running none) s.progress in
      let inputs =
        collect_inputs node (edges_into graph node) running.port_values options.initial_inputs props
          (elim graph.inputs [ [] ↦ false | _ ∷ _ ↦ true ]) in
      elim (resolve_for executors node) [
        | none ↦
            let msg = append "No executor registered for kind=" (or_else node.type "None") in
            stop (record s { progress = fail msg node running })
        | some executor ↦ execute node executor inputs (record s { progress = running })
      ]

  -- if incoming and not any_active ... if skip is not None ...
  unfoldable pub gate : FlowNode → State W → Turn W
  unfolding dispatch any_active never_executes incoming
  gate node s =
      if is_dead s.progress.port_values (edges_into graph node)
      then next (record s {
        progress = emit (node_status node.id NodeStatus.idle (some "skipped")) s.progress;
      })
      else elim (never_executes node.type kinds) [
        | some skip ↦ next (record s {
          progress = emit (node_status node.id NodeStatus.idle (some skip)) s.progress;
        })
        | none ↦ dispatch node s
      ]

  unfoldable pub warn : FlowNode → State W → State W
  unfolding undelivered_edge_warnings index_nodes incoming keys
  warn node s = record s {
    progress =
        emit_all
          (undelivered_edge_warnings host.text node (edges_into graph node)
            (keys s.progress.port_values) s.progress.completed (index_nodes graph.nodes []) kinds)
          s.progress;
  }

  -- The turn for a node once the run has neither been cancelled nor failed.
  unfoldable pub visit : FlowNode → State W → Turn W
  unfolding gate warn publish get incoming
  visit node s = elim (get options.resume_outputs node.id) [
    | some v ↦ next (record s { progress = publish kinds node v true s.progress })
    | none ↦
        if is_dormant (edges_into graph node) options.entry_nodes node.id
        then next (record s {
          progress = emit (node_status node.id NodeStatus.idle (some "skipped")) s.progress;
        })
        else gate node (warn node s)
  ]

  -- A timeout is an error like another, and any error ends the loop.
  unfoldable pub check_time : FlowNode → State W → State W
  check_time node s = elim options.timeout_ms [
    | none ↦ s
    | some ms ↦ elim s.progress.errors [
      | e ∷ es ↦ s
      | [] ↦
          if host.late node
          then record s {
            progress = record s.progress {
              errors = append "Run timed out after " (append (host.decimal ms) "ms") ∷ [];
            };
          }
          else s
    ]
  ]

  unfoldable pub turn : FlowNode → State W → Turn W
  unfolding visit check_time
  turn node s = elim (host.polled node) [
    | some reason ↦ cancelled (if reason == "" then "aborted" else reason)
    | none ↦
        let timed = check_time node s in
        elim timed.progress.errors [ e ∷ es ↦ stop timed | [] ↦ visit node timed ]
  ]

  -- for node in order
  unfoldable pub walk_from : List FlowNode → State W → Turn W
  unfolding turn
  walk_from [] s = next s
  walk_from (node ∷ order) s = elim (turn node s) [
    | next s' ↦ walk_from order s'
    | stop s' ↦ stop s'
    | cancelled reason ↦ cancelled reason
  ]

-- What follows the loop: terminals are closed, and the result reports the first error.
unfoldable pub finish : {E W : Type 0} → Host E W → State W → Run W
finish host s =
    let (closing, world) = host.close_terminals s.world in
    let ended = emit_all closing s.progress in
    elim ended.errors [
      | [] ↦
          let done = emit (run_end true) ended in
          finished
            (record { ok = true; outputs = done.outputs; error = none; events = done.events }) done
            world
      | e ∷ es ↦
          let done = emit (run_end false) ended in
          finished
            (record { ok = false; outputs = done.outputs; error = some e; events = done.events })
            done world
    ]

abbrev pub blank : Progress
blank = record { outputs = []; port_values = []; completed = []; errors = []; events = [] }

-- A run that ends before its loop.
abbrev pub refuse : {W : Type 0} → String → W → Run W
refuse error world =
    let done = emit (run_error error) blank in
    finished (record { ok = false; outputs = []; error = some error; events = done.events }) done
      world

unfoldable pub close : {E W : Type 0} → Host E W → Turn W → Run W
unfolding finish
close host (next s) = finish host s
close host (stop s) = finish host s
close host (cancelled reason) = run_aborted reason

-- FlowRunner.run
unfoldable pub run :
    {E W : Type 0}
    → Host E W
    → NodeKindRegistry
    → ExecutorRegistry E
    → FlowGraph
    → RunOptions
    → W
    → Run W
unfolding topo_sort resolve_workflow_props walk_from close
run host kinds executors graph options world = elim (topo_sort graph) [
  | none ↦ refuse "Cycle detected in flow graph — aborting." world
  | some order ↦ elim (resolve_workflow_props graph.inputs options.props) [
    | refused code error ↦ refuse error world
    | ok props ↦ close host (
        walk_from host kinds executors graph options props order
          (record { progress = emit run_start blank; world = world }))
  ]
]
