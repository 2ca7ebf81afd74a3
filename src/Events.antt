-- ===== src/Events.antt =====
-- src/fancy_flow/runtime/events.py: RunEvent, one constructor for each of its classmethods.
use fancy_flow_py.Prelude.{String, Option, none, some, Bool}
use fancy_flow_py.Value.{Value}

pub data NodeStatus : Type 0 where
  idle queued running done error : NodeStatus

pub data RunEvent : Type 0 where
  run_start : RunEvent
  node_status : String → NodeStatus → Option String → RunEvent
  node_message : String → String → String → RunEvent
  node_output : String → String → Value → RunEvent
  log : String → String → Option String → Value → RunEvent
  run_end : Bool → RunEvent
  run_error : String → RunEvent

-- event.node_id
unfoldable pub node_of : RunEvent → Option String
node_of run_start = none
node_of (node_status node_id s t) = some node_id
node_of (node_message node_id p m) = some node_id
node_of (node_output node_id p v) = some node_id
node_of (log level message node_id d) = node_id
node_of (run_end ok) = none
node_of (run_error reason) = none
