-- ===== src/Durable/Coordinator/Answers.antt =====
-- A call of `run_node`, from the claim to the record.
use fancy_flow_py.Prelude.{
  String, Option, none, some, Bool, true, false, ◌+◌, ◌≡◌, ◌⊎◌, refl, ap, arith, eq_refl, eq_iff,
  Bool-cases, Option-cases, inl, inr,
}
use fancy_flow_py.Prelude.Dict.{Dict, get, get-put}
use fancy_flow_py.Value.{Value}
use fancy_flow_py.Graph.{IsWellFormed}
use fancy_flow_py.Executors.{ExecutorRegistry}
use fancy_flow_py.Engine.Routing.{Progress}
use fancy_flow_py.Engine.Walk.{Host, Run, RunResult, finished, run_aborted}
use fancy_flow_py.Durable.State.{
  NodeState, NodeRunStatus, ClaimStore, rows, blank, claim, claim_row, own_claim, owned_by,
}
use fancy_flow_py.Durable.State.Claims.{rows-put}
use fancy_flow_py.Durable.Retry.{RetryPolicy}
use fancy_flow_py.Durable.Replay.{replay_up_to}
use fancy_flow_py.Durable.Replay.Fence.{Ends, replay_touches_target_only}
use fancy_flow_py.Durable.Coordinator.{Coordinator, completed_outputs}
use fancy_flow_py.Durable.Coordinator.RunNode.{
  NodeOutcome, plain, record_result, run_claimed, run_node,
}
use fancy_flow_py.Durable.Coordinator.Recorded.{
  Recorded, Reports, record_result-Recorded, record_result-Reports,
}

-- The row of a claim that its owner holds.
pub record IsClaim (owner : String) (row : NodeState) : Type 0 where
  pub claimed : row.status ≡ NodeRunStatus.claimed
  pub owned : row.owner ≡ some owner

owner-eq : (o : Option String) (owner : String) → owned_by o owner ≡ true → o ≡ some owner
owner-eq none owner h = absurd (cc)
owner-eq (some o) owner h = ap some ((eq_iff o owner).0 h)

-- A claim is granted, and then the claimant's row is there; or it changes no row of the run.
claim-cases :
    (now : String) (store : ClaimStore) (run_key node_id owner : String)
    → (((claim now store run_key node_id owner).0 ≡ false)
        × (rows (claim now store run_key node_id owner).1 run_key ≡ rows store run_key))
      ⊎ (((claim now store run_key node_id owner).0 ≡ true)
          × (row : NodeState) × (get
                (rows (claim now store run_key node_id owner).1 run_key)
                node_id
              ≡ some row)
          × IsClaim owner row)
unfolding claim claim_row
claim-cases now store run_key node_id owner =
    elim (Option-cases (get (rows store run_key) node_id)) [
      | inl fresh ↦ inr (
        rw (fresh, claim, claim_row),
        record (blank now) { owner = some owner; attempts = 1 },
        rw (fresh, claim, claim_row, rows-put, eq_refl run_key, get-put, eq_refl node_id),
        record { claimed = refl; owned = refl },
      )
      | inr (row, found) ↦ elim (Bool-cases (own_claim row owner)) [
        | inr lost ↦ inl (
          rw (found, lost, claim, claim_row),
          rw (found, lost, claim, claim_row, rows-put, eq_refl run_key),
        )
        | inl own ↦ inr (
          rw (found, own, claim, claim_row),
          record row { attempts = row.attempts + 1; status = NodeRunStatus.claimed },
          rw (found, own, claim, claim_row, rows-put, eq_refl run_key, get-put, eq_refl node_id),
          record { claimed = refl; owned = owner-eq row.owner owner (ground arith) },
        )
      ]
    ]

module _ {E W : Type 0} (host : Host E W) (executors : ExecutorRegistry E) (c : Coordinator)
    (policy : RetryPolicy) (initial_inputs : Dict (Dict Value)) (store : ClaimStore) (world : W)
    (node_id owner : String) where
  -- What is answered when the claim was lost: nothing is reported and nothing has changed.
  pub record IsNoOp (o : NodeOutcome) (last : ClaimStore) (w : W) : Type 0 where
    pub no_status : o.status ≡ none
    pub same_world : w ≡ world
    pub same_rows : rows last c.run_key ≡ rows store c.run_key

  -- What is answered when the claim was won and `claimed` is the store with it: `row` is the claim,
  -- `replayed` the replay of the node from the outputs in that store, which ends with the world that
  -- is answered, and its result is what is reported, and what the last store holds of the node.
  pub record IsReplay (claimed : ClaimStore) (o : NodeOutcome) (last : ClaimStore) (w : W)
      : Type 0 where
    pub row : NodeState
    pub there : get (rows claimed c.run_key) node_id ≡ some row
    pub own : IsClaim owner row
    pub result : RunResult
    pub progress : Progress
    pub replayed :
        replay_up_to host c.kinds executors c.graph
          (some node_id)
          (completed_outputs (rows claimed c.run_key))
          initial_inputs
          world
        ≡ finished result progress w
    pub reported : Reports (get result.outputs node_id) node_id row.attempts o
    pub recorded : Recorded c policy row node_id (o, last)

  -- What a call comes to, by what the store answers to the claim.
  abbrev pub Answers : Bool × ClaimStore → NodeOutcome → ClaimStore → W → Type 0
  Answers (granted, claimed) o last w =
      ((granted ≡ false) × IsNoOp o last w) ⊎ ((granted ≡ true) × IsReplay claimed o last w)

  claimed-IsReplay :
      (loads : String → Option Value) (now : String) (claimed : ClaimStore) (row : NodeState)
      (run : Run W)
      → get (rows claimed c.run_key) node_id ≡ some row
      → IsClaim owner row
      → replay_up_to host c.kinds executors c.graph
          (some node_id)
          (completed_outputs (rows claimed c.run_key))
          initial_inputs
          world
        ≡ run
      → Ends (λ w. Unit {0}) run
      → (o : NodeOutcome) × (last : ClaimStore) × (w : W) × (run_claimed host executors c policy
            loads initial_inputs now claimed world node_id
          ≡ some (o, last, w))
        × IsReplay claimed o last w
  unfolding run_claimed
  claimed-IsReplay loads now claimed row (run_aborted reason) there own replayed ends = absurd ends
  claimed-IsReplay loads now claimed row (finished r p w) there own replayed ends =
      let written = record_result c policy loads now claimed node_id row.attempts r in
      (
        written.0,
        written.1,
        w,
        rw (replayed, run_claimed, there),
        record {
          row = row;
          there = there;
          own = own;
          result = r;
          progress = p;
          replayed = replayed;
          reported = record_result-Reports c policy now claimed node_id row.attempts r loads;
          recorded =
              record_result-Recorded c policy now claimed node_id row there own.claimed loads
                row.attempts r;
        },
      )

-- A call of `run_node` on a well-formed graph answers. If the store refuses its claim, nothing is
-- reported, and no row of the run and nothing in the world has changed. If the store grants it, the
-- node's row in the store is then a claim of the caller, the node is replayed from the outputs that
-- the store holds, and the answered world is the one in which that replay ends. The outcome names
-- the node and the claim's attempt, and is `completed`, with the replay's output for the node,
-- exactly when there is one. In the end the node's row holds the outcome's status and ports, or the
-- attempt failed with another one left, and the claim stands as it was.
pub run_node-Answers :
    {E W : Type 0}
    → (host : Host E W) (executors : ExecutorRegistry E) (c : Coordinator) (policy : RetryPolicy)
      (loads : String → Option Value) (initial_inputs : Dict (Dict Value)) (now : String)
      (store : ClaimStore) (world : W) (node_id owner : String)
    → IsWellFormed c.graph
    → (o : NodeOutcome) × (last : ClaimStore) × (w : W) × (run_node host executors c policy loads
          initial_inputs now store world node_id owner
        ≡ some (o, last, w))
      × Answers host executors c policy initial_inputs store world node_id owner
          (claim now store c.run_key node_id owner)
          o
          last
          w
unfolding run_node
run_node-Answers host executors c policy loads initial_inputs now store world node_id owner wf =
    let claimed = (claim now store c.run_key node_id owner).1 in
    elim (claim-cases now store c.run_key node_id owner) [
      | inl (lost, same) ↦ (
        plain node_id none 0,
        claimed,
        world,
        rw (lost, run_node),
        inl (lost, record { no_status = refl; same_world = refl; same_rows = same }),
      )
      | inr (won, row, there, own) ↦
          let (o, last, w, ran, answers) =
            claimed-IsReplay host executors c policy initial_inputs store world node_id owner loads
              now claimed row _ there own refl
              (replay_touches_target_only host c.kinds executors c.graph (some node_id)
                (completed_outputs (rows claimed c.run_key)) initial_inputs (λ w. Unit {0})
                (λ x node inputs w here h. tt) (λ w h. tt) world wf tt) in
          (o, last, w, rw (won, run_node) ran, inr (won, answers))
    ]
