-- ===== src/Durable/Coordinator/RunNode.antt =====
-- `Coordinator.run_node` of src/fancy_flow/durable/coordinator.py. The owner's token and the clock
-- are arguments, and `loads` is the JSON reader that reads a pause.
use Prim.Native.String.{◌++◌ as append}
use fancy_flow_py.Prelude.{
  ℕ, String, List, [], Option, none, some, Bool, true, false, ◌||◌, ◌==◌, ltb, or_else,
  if◌then◌else◌,
}
use fancy_flow_py.Prelude.Dict.{Dict, get}
use fancy_flow_py.Value.{Value, null}
use fancy_flow_py.Graph.{find_node}
use fancy_flow_py.Executors.{ExecutorRegistry}
use fancy_flow_py.Engine.Walk.{Host, RunResult, finished, run_aborted}
use fancy_flow_py.Pause.{PauseSignal, decode}
use fancy_flow_py.Durable.State.{
  NodeState, NodeRunStatus, ClaimStore, rows, claim, complete, skip, fail, pause,
}
use fancy_flow_py.Durable.Retry.{RetryPolicy, tries_for}
use fancy_flow_py.Durable.Replay.{replay_up_to, ports_of, is_boundary}
use fancy_flow_py.Durable.Coordinator.{Coordinator, completed_outputs}

-- `status = none` is "not-claimed".
pub record NodeOutcome : Type 0 where
  pub node_id : String
  pub status : Option NodeRunStatus
  pub output : Value
  pub ports : List String
  pub error : Option String
  pub pause_signal : Option PauseSignal
  pub attempt : ℕ
  pub retryable : Bool

abbrev pub plain : String → Option NodeRunStatus → ℕ → NodeOutcome
plain node_id status attempt = record {
  node_id = node_id;
  status = status;
  output = null;
  ports = [];
  error = none;
  pause_signal = none;
  attempt = attempt;
  retryable = false;
}

-- `_tries_for`
unfoldable pub tries_of : Coordinator → RetryPolicy → String → ℕ
unfolding find_node tries_for
tries_of c policy node_id = elim (find_node c.graph.nodes node_id) [
  | none ↦ 1
  | some node ↦ tries_for policy node c.kinds
]

-- The pause, if it is one of this node.
abbrev pub own_pause : Option PauseSignal → String → Option PauseSignal
own_pause none node_id = none
own_pause (some p) node_id = if p.node_id == node_id then some p else none

-- result.error or f"node {node_id} produced no output and no error"
abbrev pub error_text : Option String → String → String
error_text error node_id =
    let text = or_else error "" in
    if text == "" then append "node " (append node_id " produced no output and no error") else text

-- A failure, or one that may be tried again and leaves the row claimed.
unfoldable pub record_failure :
    Coordinator → RetryPolicy → String → ClaimStore → String → ℕ → String → NodeOutcome × ClaimStore
unfolding tries_of fail
record_failure c policy now store node_id attempt error =
    let failed = record (plain node_id (some NodeRunStatus.failed) attempt) {
      error = some error;
    } in
    if ltb attempt (tries_of c policy node_id)
    then (record failed { retryable = true }, store)
    else (failed, fail now store c.run_key node_id error)

-- What follows the replay: its result is written to the store.
unfoldable pub record_result :
    Coordinator
    → RetryPolicy
    → (String → Option Value)
    → String
    → ClaimStore
    → String
    → ℕ
    → RunResult
    → NodeOutcome × ClaimStore
unfolding get complete pause skip decode ports_of record_failure
record_result c policy loads now store node_id attempt r = elim (get r.outputs node_id) [
  | some output ↦
      let ports = ports_of r.events node_id in
      (
        record (plain node_id (some NodeRunStatus.completed) attempt) {
          output = output;
          ports = ports;
        },
        complete now store c.run_key node_id output ports,
      )
  | none ↦ elim (own_pause (decode loads r.error) node_id) [
    | some signal ↦ (
      record (plain node_id (some NodeRunStatus.paused) attempt) { pause_signal = some signal },
      pause now store c.run_key node_id (or_else r.error ""),
    )
    | none ↦
        if is_boundary r.error || r.ok
        then (
          record (plain node_id (some NodeRunStatus.skipped) attempt) {
            error = some "the engine skipped this node: no inbound edge was active";
          },
          (skip now store c.run_key node_id).1,
        )
        else record_failure c policy now store node_id attempt (error_text r.error node_id)
  ]
]

-- The attempt of the claim row.
abbrev pub attempt_of : Option NodeState → ℕ
attempt_of none = 1
attempt_of (some row) = row.attempts

-- The replay of a node whose claim was won, and the record of its result; `none` for a replay that
-- was cancelled, which has no signal to be cancelled by.
unfoldable pub run_claimed :
    {E W : Type 0}
    → Host E W
    → ExecutorRegistry E
    → Coordinator
    → RetryPolicy
    → (String → Option Value)
    → Dict (Dict Value)
    → String
    → ClaimStore
    → W
    → String
    → Option (NodeOutcome × ClaimStore × W)
unfolding rows get replay_up_to completed_outputs record_result
run_claimed host executors c policy loads initial_inputs now store world node_id =
    let state = rows store c.run_key in
    elim (replay_up_to host c.kinds executors c.graph (some node_id) (completed_outputs state)
      initial_inputs world) [
        | run_aborted reason ↦ none
        | finished r p world' ↦
            let (outcome, recorded) =
              record_result c policy loads now store node_id (attempt_of (get state node_id)) r in
            some (outcome, recorded, world')
      ]

unfoldable pub run_node :
    {E W : Type 0}
    → Host E W
    → ExecutorRegistry E
    → Coordinator
    → RetryPolicy
    → (String → Option Value)
    → Dict (Dict Value)
    → String
    → ClaimStore
    → W
    → String
    → String
    → Option (NodeOutcome × ClaimStore × W)
unfolding claim run_claimed
run_node host executors c policy loads initial_inputs now store world node_id owner =
    let (won, claimed) = claim now store c.run_key node_id owner in
    elim won [
      | true ↦ run_claimed host executors c policy loads initial_inputs now claimed world node_id
      | false ↦ some (plain node_id none 0, claimed, world)
    ]
