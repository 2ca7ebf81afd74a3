-- ===== src/Engine/Samples.antt =====
-- Runs of a small graph, and the engine's theorems at them.
use fancy_flow_py.Prelude.{ℕ, suc, [], ◌∷◌, ◌≡◌, refl, none, some, false, unique}
use fancy_flow_py.Prelude.Dict.{has, get}
use fancy_flow_py.Value.{Value, str, dict, of_entries}
use fancy_flow_py.Graph.{FlowGraph}
use fancy_flow_py.Registry.Catalogue.{empty}
use fancy_flow_py.Executors.{ExecutorRegistry}
use fancy_flow_py.Topo.Samples.{plain_node, plain_edge}
use fancy_flow_py.Engine.Inputs.{incoming}
use fancy_flow_py.Engine.Routing.{Progress}
use fancy_flow_py.Engine.Walk.{
  Host, returned, aborted, RunOptions, RunResult, Run, finished, run, is_dead, is_dormant,
}
use fancy_flow_py.Engine.Finished.{Resumed, run_resumes}
use fancy_flow_py.Engine.Fed.{outputs_are_fed}

-- An executor that is a value returns it; the world counts the calls.
abbrev pub counting : Host Value ℕ
counting = record {
  call = λ x node inputs calls. (returned x, [], suc calls);
  polled = λ node. none;
  late = λ node. false;
  close_terminals = λ calls. ([], calls);
  text = λ v. "?";
  decimal = λ n. "?";
}

-- An executor that always aborts.
abbrev failing : Host Value ℕ
failing = record counting { call = λ x node inputs calls. (aborted "no", [], suc calls) }

-- Node `a` takes its left branch; every other node returns a text.
abbrev pub executors : ExecutorRegistry Value
executors = record {
  by_kind = ("*", str "x") ∷ [];
  by_node = ("a", dict (of_entries (("branch", str "left") ∷ []))) ∷ [];
  kinds = empty;
}

-- `a` leads to `b` by its port `left`, and to `c` by its port `right`.
abbrev fork : FlowGraph
fork = record {
  nodes = plain_node "a" ∷ plain_node "b" ∷ plain_node "c" ∷ [];
  edges =
      record (plain_edge "a" "b") { source_handle = some "left" }
      ∷ record (plain_edge "a" "c") { source_handle = some "right" }
      ∷ [];
  inputs = [];
}

abbrev plainly : RunOptions
plainly = record {
  timeout_ms = none;
  initial_inputs = [];
  props = [];
  resume_outputs = [];
  entry_nodes = none;
}

abbrev result_of : {W : Type 0} → Run W → RunResult
result_of (finished r p w) = r
result_of _ = record { ok = false; outputs = []; error = none; events = [] }

abbrev progress_of : {W : Type 0} → Run W → Progress
progress_of (finished r p w) = p
progress_of _ = record { outputs = []; port_values = []; completed = []; errors = []; events = [] }

abbrev first : Run ℕ
first = run counting empty executors fork plainly 0

-- Two of the three nodes are executed.
first_finishes : first ≡ finished (result_of first) (progress_of first) 2
unfolding run of_entries unique
first_finishes = refl

first_skips : has (result_of first).outputs "c" ≡ false
unfolding run of_entries unique
first_skips = refl

abbrev again : RunOptions
again = record plainly { resume_outputs = (result_of first).outputs }

run_resumes_example :
    Resumed (result_of first) (progress_of first) (run failing empty executors fork again 7) 7
unfolding run of_entries unique
run_resumes_example =
    run_resumes counting failing empty executors executors fork plainly again 0 2 7
      (result_of first) (progress_of first) (record { distinct_ids = refl; edges_join = refl })
      (record { unsignalled = λ node. refl; untimed = refl }) refl refl refl first_finishes refl

outputs_are_fed_example :
    (is_dormant (incoming fork.edges "b") none "b" ≡ false)
    × (is_dead (progress_of first).port_values (incoming fork.edges "b") ≡ false)
unfolding run of_entries unique get
outputs_are_fed_example =
    outputs_are_fed counting empty executors fork plainly 0 2 (result_of first) (progress_of first)
      "b" first_finishes refl refl refl
