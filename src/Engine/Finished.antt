-- ===== src/Engine/Finished.antt =====
-- Whole runs: what a successful one went through, and that it resumes from its outputs.
use fancy_flow_py.Prelude.{
  List, [], none, some, true, ◌≡◌, refl, ap, arith, Option-cases, List-cases, inl, inr, ◌∙◌, sym,
}
use fancy_flow_py.Prelude.Dict.{Dict, get}
use fancy_flow_py.Value.{Value}
use fancy_flow_py.Graph.{FlowNode, FlowGraph, IsWellFormed}
use fancy_flow_py.Topo.{topo_sort}
use fancy_flow_py.Topo.Sorted.{topo_sort-IsPlan}
use fancy_flow_py.Props.{PropsCheck, ok, refused, resolve_workflow_props}
use fancy_flow_py.Registry.Catalogue.{NodeKindRegistry}
use fancy_flow_py.Executors.{ExecutorRegistry}
use fancy_flow_py.Events.{run_start, run_end}
use fancy_flow_py.Engine.Routing.{Progress, emit}
use fancy_flow_py.Engine.Walk.{
  Host, RunOptions, RunResult, State, Turn, next, stop, cancelled, Run, finished, walk_from, finish,
  close, run, blank, emit_all,
}
use fancy_flow_py.Engine.Core.{Core, core}
use fancy_flow_py.Engine.Turns.{StopsWithError, walk-stop}
use fancy_flow_py.Engine.Resume.{IsQuiet, resume_walk}

abbrev pub start_of : {W : Type 0} → W → State W
start_of world = record { progress = emit run_start blank; world = world }

module _ {E W : Type 0} (host : Host E W) where
  finish-ok :
      (s : State W) (r : RunResult) (p : Progress) (w : W)
      → finish host s ≡ finished r p w
      → r.ok ≡ true
      → (s.progress.errors ≡ []) × (r.outputs ≡ s.progress.outputs) × (core p ≡ core s.progress)
  unfolding finish
  finish-ok s r p w e good = elim (List-cases s.progress.errors) [
    | inl clean ↦ ground arith
    | inr (x, xs, errors) ↦ absurd (ground arith)
  ]

  finish-clean :
      (s : State W)
      → s.progress.errors ≡ []
      → (r : RunResult) × (p : Progress) × (finish host s
          ≡ finished r p (host.close_terminals s.world).1)
        × (r.ok ≡ true)
        × (r.outputs ≡ s.progress.outputs)
        × (core p ≡ core s.progress)
  unfolding finish
  finish-clean s clean =
      let ended = emit_all (host.close_terminals s.world).0 s.progress in
      let done = emit (run_end true) ended in
      (
        record { ok = true; outputs = done.outputs; error = none; events = done.events },
        done,
        simp (clean, finish),
        refl,
        refl,
        refl,
      )

module _ {E W : Type 0} (host : Host E W) (kinds : NodeKindRegistry)
    (executors : ExecutorRegistry E) (graph : FlowGraph) (options : RunOptions) (world : W) where
  -- The way of a run that reports success.
  pub record Success (r : RunResult) (p : Progress) : Type 0 where
    pub order : List FlowNode
    pub props : Dict Value
    pub end : State W
    pub sorted : topo_sort graph ≡ some order
    pub checked : resolve_workflow_props graph.inputs options.props ≡ ok props
    pub walked :
        walk_from host kinds executors graph options props order (start_of world) ≡ next end
    pub clean : end.progress.errors ≡ []
    pub results : r.outputs ≡ end.progress.outputs
    pub state : core p ≡ core end.progress

  close-Success :
      (order : List FlowNode) (props : Dict Value) (t : Turn W) (r : RunResult) (p : Progress)
      (w : W)
      → topo_sort graph ≡ some order
      → resolve_workflow_props graph.inputs options.props ≡ ok props
      → walk_from host kinds executors graph options props order (start_of world) ≡ t
      → StopsWithError t
      → close host t ≡ finished r p w
      → r.ok ≡ true
      → Success r p
  unfolding close
  close-Success order props (next s) r p w sorted checked walked h e good =
      let (clean, results, state) = finish-ok host s r p w e good in
      record {
        order = order;
        props = props;
        end = s;
        sorted = sorted;
        checked = checked;
        walked = walked;
        clean = clean;
        results = results;
        state = state;
      }
  close-Success order props (stop s) r p w sorted checked walked h e good =
      absurd (h (finish-ok host s r p w e good).0)
  close-Success order props (cancelled reason) r p w sorted checked walked h e good = absurd (cc)

  -- A run reports success only if the graph has an order, the props were accepted, and every node
  -- had a turn that went on.
  pub run-Success :
      (r : RunResult) (p : Progress) (w : W)
      → run host kinds executors graph options world ≡ finished r p w
      → r.ok ≡ true
      → Success r p
  unfolding run
  run-Success r p w e good = elim (Option-cases (topo_sort graph)) [
    | inl cyclic ↦ absurd (ground arith)
    | inr (order, sorted) ↦
        checked order sorted (resolve_workflow_props graph.inputs options.props) refl
  ]
    where
      checked :
          (order : List FlowNode)
          → topo_sort graph ≡ some order
          → (c : PropsCheck) → resolve_workflow_props graph.inputs options.props ≡ c
          → Success r p
      checked order sorted (refused code error) c = absurd (ground arith)
      checked order sorted (ok props) c =
          close-Success order props _ r p w sorted c refl
            (walk-stop host kinds executors graph options props order (start_of world))
            (rw (sorted, run, c) at e) good

-- What the second run of `run_resumes` comes to.
pub record Resumed {W' : Type 0} (first : RunResult) (progress : Progress) (again : Run W')
    (world : W') : Type 0 where
  pub result : RunResult
  pub end : Progress
  pub returns : again ≡ finished result end world
  pub succeeds : result.ok ≡ true
  pub outputs : result.outputs ≡ first.outputs
  pub state : core end ≡ core progress

-- A run of a well-formed graph that succeeded can be run again from its outputs, with any other
-- executors and an uninterrupted host: no executor is called, so the world is as it was but for the
-- closing of terminals, and the outputs, the port values and the completed nodes are the same.
pub run_resumes :
    {E W E' W' : Type 0} (host : Host E W) (host' : Host E' W') (kinds : NodeKindRegistry)
    (executors : ExecutorRegistry E) (executors' : ExecutorRegistry E') (graph : FlowGraph)
    (options options' : RunOptions) (world w : W) (world' : W') (r : RunResult) (p : Progress)
    → IsWellFormed graph
    → IsQuiet host' options'
    → options'.entry_nodes ≡ options.entry_nodes
    → options'.props ≡ options.props
    → options'.resume_outputs ≡ r.outputs
    → run host kinds executors graph options world ≡ finished r p w
    → r.ok ≡ true
    → Resumed r p
        (run host' kinds executors' graph options' world')
        (host'.close_terminals world').1
unfolding run close
run_resumes host host' kinds executors executors' graph options options' world w world' r p wf quiet
      entry same_props stored e good =
    let s = run-Success host kinds executors graph options world r p w e good in
    let plan = topo_sort-IsPlan graph s.order wf s.sorted in
    let (t, walked, same, kept) =
      resume_walk host host' kinds executors executors' graph options options' s.props s.props quiet
        entry s.order (start_of world) s.end (start_of world') s.walked plan.1
        (λ k there. unfold get in refl) (stored ∙ s.results) refl in
    let (r', p', ends, ok', outputs', state') =
      finish-clean host' t (ap (λ (c : Core). c.errors) same ∙ s.clean) in
    let checked = ap (resolve_workflow_props graph.inputs) same_props ∙ s.checked in
    record {
      result = r';
      end = p';
      returns =
          rw (s.sorted, run, checked, walked)
            (ends ∙ ap (λ x. finished r' p' (host'.close_terminals x).1) kept);
      succeeds = ok';
      outputs = outputs' ∙ (ap (λ (c : Core). c.outputs) same ∙ sym s.results);
      state = state' ∙ (same ∙ sym s.state);
    }
