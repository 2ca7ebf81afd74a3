-- ===== src/Durable/Coordinator/Recorded.antt =====
-- What `run_node` reports is what the store holds.
use fancy_flow_py.Prelude.{
  ℕ, String, Option, none, some, true, false, ◌||◌, ◌≡◌, ◌≢◌, ◌⊎◌, refl, ltb, eq_refl, Bool-cases,
  Option-cases, inl, inr,
}
use fancy_flow_py.Prelude.Dict.{get, put, get-put}
use fancy_flow_py.Value.{Value}
use fancy_flow_py.Engine.Walk.{RunResult}
use fancy_flow_py.Pause.{decode}
use fancy_flow_py.Durable.State.{
  NodeState, NodeRunStatus, Rows, ClaimStore, rows, settled_already, complete, complete_row, skip,
  skip_row, fail, fail_row, pause, pause_row,
}
use fancy_flow_py.Durable.State.Claims.{rows-put}
use fancy_flow_py.Durable.Retry.{RetryPolicy}
use fancy_flow_py.Durable.Replay.{is_boundary}
use fancy_flow_py.Durable.Coordinator.{Coordinator}
use fancy_flow_py.Durable.Coordinator.RunNode.{
  NodeOutcome, tries_of, own_pause, error_text, record_failure, record_result,
}

-- The row after an outcome: settled or paused as the outcome says, with its ports; or untouched,
-- where the attempt failed and another is allowed.
abbrev pub Agrees : Coordinator → RetryPolicy → NodeState → NodeOutcome → NodeState → Type 0
Agrees c policy row o row' =
    ((o.retryable ≡ false) × (o.status ≡ some row'.status) × (o.ports ≡ row'.ports))
    ⊎ ((o.retryable ≡ true)
        × (o.status ≡ some NodeRunStatus.failed)
        × (row' ≡ row)
        × (ltb o.attempt (tries_of c policy o.node_id) ≡ true))

abbrev pub Recorded :
    Coordinator → RetryPolicy → NodeState → String → NodeOutcome × ClaimStore → Type 0
Recorded c policy row node_id (o, store) =
    (row' : NodeState) × (get (rows store c.run_key) node_id ≡ some row')
    × Agrees c policy row o row'

module _ (c : Coordinator) (policy : RetryPolicy) (now : String) (store : ClaimStore)
    (node_id : String) (row : NodeState) (there : get (rows store c.run_key) node_id ≡ some row)
    (held : row.status ≡ NodeRunStatus.claimed) where
  get-written :
      (run : Rows) (new : NodeState)
      → get (rows (put store c.run_key (put run node_id new)) c.run_key) node_id ≡ some new
  get-written run new = rw (rows-put, eq_refl c.run_key, get-put, eq_refl node_id)

  record_failure-Recorded :
      (attempt : ℕ) (error : String)
      → Recorded c policy row node_id (record_failure c policy now store node_id attempt error)
  unfolding record_failure fail fail_row
  record_failure-Recorded attempt error =
      elim (Bool-cases (ltb attempt (tries_of c policy node_id))) [
        | inl left ↦ rw (left, record_failure) (row, there, inr (refl, refl, refl, left))
        | inr spent ↦ rw (spent, record_failure) (_, get-written _ _, inl (refl, refl, refl))
      ]

  -- The outcome that is reported for a claimed node is the one that its row holds: the status and
  -- the ports are the same, or the attempt failed with another one left and the row is untouched.
  pub record_result-Recorded :
      (loads : String → Option Value) (attempt : ℕ) (r : RunResult)
      → Recorded c policy row node_id (record_result c policy loads now store node_id attempt r)
  unfolding record_result complete complete_row pause pause_row skip skip_row
  record_result-Recorded loads attempt r = elim (Option-cases (get r.outputs node_id)) [
    | inr (output, o) ↦ rw (o, record_result) (_, get-written _ _, inl (refl, refl, refl))
    | inl none_out ↦ elim (Option-cases (own_pause (decode loads r.error) node_id)) [
      | inr (signal, p) ↦
          rw (none_out, p, record_result) (_, get-written _ _, inl (refl, refl, refl))
      | inl no_pause ↦ elim (Bool-cases (is_boundary r.error || r.ok)) [
        | inl idle ↦
            let unsettled : settled_already (get (rows store c.run_key) node_id) ≡ false =
              rw (there, held) refl in
            rw (none_out, no_pause, idle, record_result, unsettled)
              (_, get-written _ _, inl (refl, refl, refl))
        | inr failed ↦
            rw (none_out, no_pause, failed, record_result)
              (record_failure-Recorded attempt (error_text r.error node_id))
      ]
    ]
  ]

-- What is reported of a replay's result: the attempt is the claim's, and the node counts as
-- completed, with that output, exactly when the result has an output for it.
abbrev pub Reports : Option Value → String → ℕ → NodeOutcome → Type 0
Reports answer node_id attempt o =
    (o.node_id ≡ node_id)
    × (o.attempt ≡ attempt)
    × (((output : Value) × (answer ≡ some output)
          × (o.status ≡ some NodeRunStatus.completed)
          × (o.output ≡ output))
        ⊎ ((answer ≡ none) × (o.status ≢ some NodeRunStatus.completed)))

module _ (c : Coordinator) (policy : RetryPolicy) (now : String) (store : ClaimStore)
    (node_id : String) (attempt : ℕ) (r : RunResult) where
  record_failure-Reports :
      (error : String)
      → Reports none node_id attempt (record_failure c policy now store node_id attempt error).0
  unfolding record_failure
  record_failure-Reports error = elim (Bool-cases (ltb attempt (tries_of c policy node_id))) [
    | inl left ↦ rw (left, record_failure) (refl, refl, inr (refl, λ e. cc))
    | inr spent ↦ rw (spent, record_failure) (refl, refl, inr (refl, λ e. cc))
  ]

  pub record_result-Reports :
      (loads : String → Option Value)
      → Reports
          (get r.outputs node_id)
          node_id
          attempt
          (record_result c policy loads now store node_id attempt r).0
  unfolding record_result
  record_result-Reports loads = elim (Option-cases (get r.outputs node_id)) [
    | inr (output, found) ↦ rw (found, record_result) (refl, refl, inl (output, refl, refl, refl))
    | inl no_output ↦ elim (Option-cases (own_pause (decode loads r.error) node_id)) [
      | inr (signal, p) ↦ rw (no_output, p, record_result) (refl, refl, inr (refl, λ e. cc))
      | inl no_pause ↦ elim (Bool-cases (is_boundary r.error || r.ok)) [
        | inl idle ↦ rw (no_output, no_pause, idle, record_result) (refl, refl, inr (refl, λ e. cc))
        | inr failed ↦
            rw (no_output, no_pause, failed, record_result)
              (record_failure-Reports (error_text r.error node_id))
      ]
    ]
  ]
