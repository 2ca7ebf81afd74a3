-- ===== src/Durable/Samples.antt =====
-- A small durable run, and the theorems about such runs at it.
use fancy_flow_py.Prelude.{
  ℕ, String, List, [], ◌∷◌, ◌++◌, Option, none, some, true, false, ◌+◌, ◌≤◌, ◌≡◌, ◌≢◌, ◌⊎◌, refl,
  map, unique, length, max, pos, ◌==◌, ◌&&◌, Bool, arith,
}
use fancy_flow_py.Prelude.Dict.{get, keys}
use fancy_flow_py.Value.{Value, of_entries, str, int, bool}
use fancy_flow_py.Topo.Cycles.{topo_sort-some_iff}
use fancy_flow_py.Topo.Samples.{
  plain_node, diamond, diamond_order, diamond-IsWellFormed, diamond-sorts,
}
use fancy_flow_py.Registry.NodeKind.{NodeKind}
use fancy_flow_py.Registry.Catalogue.{NodeKindRegistry, empty}
use fancy_flow_py.Durable.State.{claim, NodeRunStatus, NodeState, Rows, ClaimStore, rows}
use fancy_flow_py.Durable.State.Claims.{owned, race, count_by, claim_race}
use fancy_flow_py.Durable.State.Clock.{
  Change, claimed_by, skipped, paused_for, Call, apply_all, Kept, clock_never_moves,
}
use fancy_flow_py.Durable.State.Settled.{settled_row_survives}
use fancy_flow_py.Durable.Frontier.{FrontierResult, compute, is_complete}
use fancy_flow_py.Durable.Frontier.Rule.{IsFrontier}
use fancy_flow_py.Durable.Frontier.Computed.{compute-IsFrontier}
use fancy_flow_py.Durable.Frontier.Progress.{never_stuck}
use fancy_flow_py.Durable.Dispatch.{select_dispatch, dispatch_up_to, count_held}
use fancy_flow_py.Durable.Dispatch.Budget.{dispatch_fills_the_budget, limit_is_checked}
use fancy_flow_py.Engine.Samples.{executors}
use fancy_flow_py.Engine.Walk.{Host, returned}
use fancy_flow_py.Durable.Coordinator.{Coordinator, Advance, advance}
use fancy_flow_py.Durable.Coordinator.HandedOut.{IsWithin, advance-IsWithin}
use fancy_flow_py.Durable.Coordinator.RunNode.{NodeOutcome, run_node}
use fancy_flow_py.Durable.Coordinator.Answers.{Answers, run_node-Answers}
use fancy_flow_py.Durable.Replay.{replay_up_to}
use fancy_flow_py.Durable.Replay.Fence.{Ends, replay_touches_target_only}
use fancy_flow_py.Durable.Retry.{RetryPolicy, is_unsafe_to_replay, tries_for}
use fancy_flow_py.Durable.Retry.Attempts.{tries-bounds}

abbrev two_workers : List (String × String)
two_workers = ("t2", "bob") ∷ ("t3", "ann") ∷ []

claim_race_example :
    ((race "run" "a" (("t1", "ann") ∷ two_workers) []).0
      ≡ map (λ c. "ann" == c.1) (("t1", "ann") ∷ two_workers))
    × (get (rows (race "run" "a" (("t1", "ann") ∷ two_workers) []).1 "run") "a"
        ≡ some (owned "t1" "ann" (count_by "ann" (("t1", "ann") ∷ two_workers))))
unfolding rows get
claim_race_example = claim_race "run" "a" "t1" "ann" two_workers [] refl

-- Ann claims again, and Bob is refused.
race_runs : (race "run" "a" (("t1", "ann") ∷ two_workers) []).0 ≡ true ∷ false ∷ true ∷ []
unfolding race
race_runs = refl

abbrev done_row : NodeState
done_row = record (owned "t1" "ann" 1) {
  status = NodeRunStatus.completed;
  ports = "out" ∷ [];
  output = str "x";
}

abbrev store : ClaimStore
store = ("run", ("a", done_row) ∷ ("b", owned "t2" "ann" 1) ∷ []) ∷ []

abbrev call : String → Change → Call
call node_id change = record { now = "t9"; run_key = "run"; node_id = node_id; change = change }

clock_never_moves_example :
    Kept
      (rows
        (apply_all
          (call "b" (paused_for "ask") ∷ call "b" (claimed_by "ann") ∷ call "a" skipped ∷ [])
          store)
        "run")
      "b"
      (owned "t2" "ann" 1)
unfolding rows get
clock_never_moves_example =
    clock_never_moves
      (call "b" (paused_for "ask") ∷ call "b" (claimed_by "ann") ∷ call "a" skipped ∷ []) store
      "run" "b" (owned "t2" "ann" 1) refl

settled_row_survives_example :
    get (rows (apply_all (call "a" skipped ∷ call "a" (claimed_by "bob") ∷ []) store) "run") "a"
    ≡ some done_row
unfolding rows get
settled_row_survives_example =
    settled_row_survives (call "a" skipped ∷ call "a" (claimed_by "bob") ∷ []) store "run" "a"
      done_row refl refl refl

-- `a` is done, `b` is at work; `c` is ready and `d` waits.
abbrev state : Rows
state = ("a", done_row) ∷ ("b", owned "t2" "ann" 1) ∷ []

compute-IsFrontier_example :
    (r : FrontierResult) × (compute diamond state ≡ some r) × IsFrontier diamond state r
unfolding keys
compute-IsFrontier_example = compute-IsFrontier diamond state refl

frontier_runs : compute diamond state ≡ some (record { ready = "c" ∷ []; skipped = [] })
unfolding compute
frontier_runs = refl

abbrev all_done : Rows
all_done = ("a", done_row) ∷ ("b", done_row) ∷ ("c", done_row) ∷ ("d", done_row) ∷ []

never_stuck_example : is_complete diamond all_done ≡ true
unfolding keys compute fancy_flow_py.Durable.Frontier.has_work_in_flight
never_stuck_example =
    never_stuck diamond all_done (record { ready = []; skipped = [] }) diamond-IsWellFormed
      ((topo_sort-some_iff diamond diamond-IsWellFormed).0 (diamond_order, diamond-sorts)) refl refl
      refl refl refl

dispatch_fills_the_budget_example :
    (out : List String) × (kept : List String) × (select_dispatch
        ("c" ∷ "d" ∷ [])
        state
        (int (pos 2))
      ≡ some out)
    × (out ++ kept ≡ "c" ∷ "d" ∷ [])
    × (count_held state + length out ≤ max 2 (count_held state))
    × ((kept ≡ []) ⊎ (2 ≤ count_held state + length out))
dispatch_fills_the_budget_example = dispatch_fills_the_budget ("c" ∷ "d" ∷ []) state 1

dispatch_runs : select_dispatch ("c" ∷ "d" ∷ []) state (int (pos 2)) ≡ some ("c" ∷ [])
unfolding select_dispatch
dispatch_runs = refl

limit_is_checked_example :
    (dispatch_up_to ("c" ∷ []) state 0 ≡ "c" ∷ [])
    × (((n : ℕ) × (bool true ≡ int (pos n))
          × (select_dispatch ("c" ∷ []) state (bool true)
              ≡ some (dispatch_up_to ("c" ∷ []) state n)))
        ⊎ (((n : ℕ) → bool true ≢ int (pos n))
            × (select_dispatch ("c" ∷ []) state (bool true) ≡ none)))
limit_is_checked_example = limit_is_checked ("c" ∷ []) state (bool true)

abbrev coordinator : Coordinator
coordinator = record {
  graph = diamond;
  run_key = "run";
  kinds = empty;
  on_event = true;
  max_concurrent = int (pos 2);
}

advance-IsWithin_example :
    (a : Advance) × (advance (λ v. "?") coordinator "t5" store ≡ some a)
    × IsWithin coordinator 2 store a
unfolding rows get keys
advance-IsWithin_example = advance-IsWithin (λ v. "?") coordinator "t5" store 1 refl refl

-- `b` is held, so one of two slots is free; `c` is handed out.
advance_runs :
    advance (λ v. "?") coordinator "t5" store
    ≡ some (record { handed_out = "c" ∷ []; store = store; events = [] })
unfolding advance
advance_runs = refl

-- An executor that is a value returns it; the world lists the nodes that were called.
abbrev tracing : Host Value (List String)
tracing = record {
  call = λ x node inputs called. (returned x, [], node.id ∷ called);
  polled = λ node. none;
  late = λ node. false;
  close_terminals = λ called. ([], called);
  text = λ v. "?";
  decimal = λ n. "?";
}

abbrev all_are : String → List String → Bool
all_are k [] = true
all_are k (j ∷ js) = k == j && all_are k js

replay_touches_target_only_example :
    Ends
      (λ called. all_are "b" called ≡ true)
      (replay_up_to tracing empty executors diamond (some "b") (("a", str "x") ∷ []) [] [])
replay_touches_target_only_example =
    replay_touches_target_only tracing empty executors diamond (some "b") (("a", str "x") ∷ []) []
      (λ called. all_are "b" called ≡ true) (λ x node inputs w here h. ground arith) (λ w h. h) []
      diamond-IsWellFormed refl

-- A kind that opens pull requests, and one with two spellings.
abbrev pub sample_kind : String → List String → Option String → NodeKind
sample_kind name aliases side_effects = record {
  name = name;
  category = "io";
  label = name;
  description = none;
  icon = none;
  accent = none;
  config_schema = [];
  default_config = [];
  inputs = none;
  outputs = none;
  aliases = aliases;
  pauses_for_human = none;
  side_effects = side_effects;
  output_shape = none;
  emits = none;
}

abbrev pub kinds : NodeKindRegistry
kinds = record {
  kinds =
      ("transform", sample_kind "transform" ("map" ∷ []) none)
      ∷ ("open_pr", sample_kind "open_pr" [] (some "unsafe-to-replay"))
      ∷ [];
  aliases = ("map", "transform") ∷ [];
}

abbrev policy : RetryPolicy
policy = record { tries = pos 3; backoff_seconds = 0; per_kind = ("map", pos 5) ∷ [] }

tries-bounds_example :
    ((is_unsafe_to_replay (plain_node "a") kinds ≡ true)
      × (tries_for policy (plain_node "a") kinds ≡ 1))
    ⊎ ((is_unsafe_to_replay (plain_node "a") kinds ≡ false)
        × (1 ≤ tries_for policy (plain_node "a") kinds))
tries-bounds_example = tries-bounds policy (plain_node "a") kinds

-- The JSON reader is not asked here.
abbrev no_json : String → Option Value
no_json text = none

run_node-Answers_example :
    (o : NodeOutcome) × (last : ClaimStore) × (called : List String) × (run_node tracing executors
        coordinator policy no_json [] "t5" store [] "c" "bob"
      ≡ some (o, last, called))
    × Answers tracing executors coordinator policy [] store [] "c" "bob"
        (claim "t5" store coordinator.run_key "c" "bob")
        o
        last
        called
run_node-Answers_example =
    run_node-Answers tracing executors coordinator policy no_json [] "t5" store [] "c" "bob"
      diamond-IsWellFormed

-- The world after a call, and the outcome.
abbrev called_by :
    Option (NodeOutcome × ClaimStore × List String) → Option (Option NodeRunStatus × List String)
called_by none = none
called_by (some (o, last, called)) = some (o.status, called)

run_node_runs :
    called_by (run_node tracing executors coordinator policy no_json [] "t5" store [] "c" "bob")
    ≡ some (some NodeRunStatus.completed, "c" ∷ [])
unfolding run_node of_entries unique
run_node_runs = refl
