-- ===== src/Durable/State.antt =====
-- src/fancy_flow/durable/state.py: NodeRunStatus, NodeState and InMemoryClaimStore. Its lock makes
-- each operation one step. The clock's text `now` is an argument.
pub mod Claims
pub mod Clock
pub mod Settled
pub mod Refined
pub mod Samples
use fancy_flow_py.Prelude.{
  ℕ, zero, suc, String, List, [], ◌∷◌, Option, none, some, Bool, true, false, ◌&&◌, ◌||◌, ◌==◌, ◌+◌,
  or_else, if◌then◌else◌,
}
use fancy_flow_py.Prelude.Dict.{Dict, get, put, pop}
use fancy_flow_py.Value.{Value, null}

pub data NodeRunStatus : Type 0 where
  claimed : NodeRunStatus
  completed : NodeRunStatus
  skipped : NodeRunStatus
  failed : NodeRunStatus
  paused : NodeRunStatus

-- status in SETTLED
abbrev pub is_settled : NodeRunStatus → Bool
is_settled NodeRunStatus.completed = true
is_settled NodeRunStatus.skipped = true
is_settled NodeRunStatus.failed = true
is_settled _ = false

-- status in HELD
abbrev pub is_held : NodeRunStatus → Bool
is_held NodeRunStatus.claimed = true
is_held NodeRunStatus.paused = true
is_held _ = false

pub record NodeState : Type 0 where
  pub status : NodeRunStatus
  pub ports : List String
  pub output : Value
  pub error : Option String
  pub owner : Option String
  pub attempts : ℕ
  pub first_attempt_at : String

-- The rows of one run, and of every run.
abbrev pub Rows : Type 0
Rows = Dict NodeState

abbrev pub ClaimStore : Type 0
ClaimStore = Dict Rows

abbrev pub owned_by : Option String → String → Bool
owned_by none owner = false
owned_by (some o) owner = o == owner

-- NodeState(NodeRunStatus.CLAIMED)
abbrev pub blank : String → NodeState
blank now = record {
  status = NodeRunStatus.claimed;
  ports = [];
  output = null;
  error = none;
  owner = none;
  attempts = 0;
  first_attempt_at = now;
}

unfoldable pub rows : ClaimStore → String → Rows
unfolding get
rows store run_key = or_else (get store run_key) []

abbrev pub own_claim : NodeState → String → Bool
own_claim existing owner = is_held existing.status && owned_by existing.owner owner

-- `claim` on the rows of its run.
unfoldable pub claim_row : String → String → String → Rows → Bool × Rows
unfolding get put
claim_row now node_id owner run = elim (get run node_id) [
  | none ↦ (true, put run node_id (record (blank now) { owner = some owner; attempts = 1 }))
  | some existing ↦
      if own_claim existing owner
      then (
        true,
        put run node_id
            (record existing { attempts = existing.attempts + 1; status = NodeRunStatus.claimed }),
      )
      else (false, run)
]

-- The row that `_entry` answers: the node's, or a new one.
unfoldable pub entry : String → String → Rows → NodeState
unfolding get
entry now node_id run = or_else (get run node_id) (blank now)

unfoldable pub complete_row : String → String → Value → List String → Rows → Rows
unfolding entry put
complete_row now node_id output ports run = put run node_id (record (entry now node_id run) {
  status = NodeRunStatus.completed;
  output = output;
  ports = ports;
  error = none;
})

abbrev pub settled_already : Option NodeState → Bool
settled_already none = false
settled_already (some existing) = is_settled existing.status

unfoldable pub skip_row : String → String → Rows → Bool × Rows
unfolding get entry put
skip_row now node_id run = if settled_already (get run node_id) then (false, run) else (
  true,
  put run node_id (record (entry now node_id run) { status = NodeRunStatus.skipped; ports = [] }),
)

unfoldable pub fail_row : String → String → String → Rows → Rows
unfolding entry put
fail_row now node_id error run = put run node_id (record (entry now node_id run) {
  status = NodeRunStatus.failed;
  error = some error;
  ports = [];
})

unfoldable pub pause_row : String → String → String → Rows → Rows
unfolding entry put
pause_row now node_id reason run = put run node_id (record (entry now node_id run) {
  status = NodeRunStatus.paused;
  error = some reason;
  ports = [];
})

unfoldable pub claim : String → ClaimStore → String → String → String → Bool × ClaimStore
unfolding rows claim_row put
claim now store run_key node_id owner =
    let (won, run) = claim_row now node_id owner (rows store run_key) in
    (won, put store run_key run)

unfoldable pub complete : String → ClaimStore → String → String → Value → List String → ClaimStore
unfolding rows complete_row put
complete now store run_key node_id output ports =
    put store run_key (complete_row now node_id output ports (rows store run_key))

-- A refused skip leaves the store as it was, without a row for the run.
unfoldable pub skip : String → ClaimStore → String → String → Bool × ClaimStore
unfolding rows skip_row put
skip now store run_key node_id =
    let (settled, run) = skip_row now node_id (rows store run_key) in
    if settled then (true, put store run_key run) else (false, store)

unfoldable pub fail : String → ClaimStore → String → String → String → ClaimStore
unfolding rows fail_row put
fail now store run_key node_id error =
    put store run_key (fail_row now node_id error (rows store run_key))

unfoldable pub pause : String → ClaimStore → String → String → String → ClaimStore
unfolding rows pause_row put
pause now store run_key node_id reason =
    put store run_key (pause_row now node_id reason (rows store run_key))

unfoldable pub release : ClaimStore → String → String → ClaimStore
unfolding get put pop
release store run_key node_id = elim (get store run_key) [
  | none ↦ store
  | some run ↦ put store run_key (pop run node_id)
]
