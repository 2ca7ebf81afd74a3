-- ===== src/Durable/Replay/Fence.antt =====
-- A replay calls the executor of no node but its target.
use fancy_flow_py.Prelude.{
  String, List, [], ◌∷◌, Option, some, true, false, not, ◌&&◌, ◌≡◌, ◌∙◌, refl, sym, ap, arith,
  contains, eq_iff, Bool-cases, Option-cases, List-cases, inl, inr, if◌then◌else◌,
}
use fancy_flow_py.Prelude.Dict.{Dict, get, get-put}
use fancy_flow_py.Value.{Value}
use fancy_flow_py.Graph.{FlowNode, FlowGraph, ids, IsWellFormed}
use fancy_flow_py.Topo.{topo_sort}
use fancy_flow_py.Topo.Sorted.{topo_sort-IsPlan}
use fancy_flow_py.Props.{PropsCheck, ok, refused, resolve_workflow_props}
use fancy_flow_py.Registry.Catalogue.{NodeKindRegistry}
use fancy_flow_py.Executors.{ExecutorRegistry, bind_node, resolve_for}
use fancy_flow_py.Engine.Walk.{
  Host, State, Turn, next, stop, cancelled, Run, finished, run_aborted, finish, close, run,
}
use fancy_flow_py.Engine.Finished.{start_of}
use fancy_flow_py.Engine.Worlds.{Leaves, CallKeeps, walk-Leaves}
use fancy_flow_py.Durable.Replay.{
  Guarded, own, boundary, guard, fork, is_target, fence, replay_options, replay_up_to,
}

get-fence :
    {E : Type 0} (target : Option String) (nodes : List FlowNode) (r : ExecutorRegistry (Guarded E))
    (k : String)
    → get (fence target nodes r).by_node k ≡ (
        if contains (ids nodes) k && not (is_target target k)
        then some boundary
        else get r.by_node k)
unfolding fence bind_node
get-fence target [] r k = refl
get-fence target (node ∷ nodes) r k = ground (
  arith,
  get-fence target nodes (if is_target target node.id then r else bind_node r node.id boundary) k,
  get-put r.by_node node.id k boundary,
  eq_iff node.id k,
  ap (is_target target),
)

-- Every node of the graph but the target resolves to the boundary.
resolve-fence :
    {E : Type 0} (target : Option String) (nodes : List FlowNode) (r : ExecutorRegistry (Guarded E))
    (node : FlowNode)
    → contains (ids nodes) node.id ≡ true
    → is_target target node.id ≡ false
    → resolve_for (fence target nodes r) node ≡ some boundary
unfolding resolve_for
resolve-fence target nodes r node there other = ground (arith, get-fence target nodes r node.id)

-- The run answers a result, and its world satisfies `P`.
abbrev pub Ends : {W : Type 0} → (W → Type 0) → Run W → Type 0
Ends P (finished r p w) = P w
Ends P (run_aborted reason) = ⊥

module _ {E W : Type 0} (host : Host E W) (kinds : NodeKindRegistry)
    (executors : ExecutorRegistry E) (graph : FlowGraph) (target : Option String)
    (resume_outputs : Dict Value) (initial_inputs : Dict (Dict Value)) (P : W → Type 0)
    (kept : (x : E) (node : FlowNode) (inputs : Dict Value) (w : W)
      → is_target target node.id ≡ true
      → P w
      → P (host.call x node inputs w).2)
    (closes : (w : W) → P w → P (host.close_terminals w).1) where
  guarded-keeps :
      (node : FlowNode)
      → contains (ids graph.nodes) node.id ≡ true
      → CallKeeps
          (guard host)
          kinds
          (fence target graph.nodes (fork executors))
          graph
          (replay_options resume_outputs initial_inputs)
          []
          P
          (λ n. refl)
          node
  guarded-keeps node there boundary inputs w found h = h
  guarded-keeps node there (own x) inputs w found h = elim (Bool-cases (is_target target node.id)) [
    | inl here ↦ kept x node inputs w here h
    | inr other ↦
        absurd (ground (arith, resolve-fence target graph.nodes (fork executors) node there other))
  ]

  finish-Ends : (s : State W) → P s.world → Ends P (finish (guard host) s)
  unfolding finish
  finish-Ends s h = elim (List-cases s.progress.errors) [
    | inl clean ↦ rw (clean, finish) (closes s.world h)
    | inr (x, xs, errors) ↦ rw (errors, finish) (closes s.world h)
  ]

  close-Ends : (t : Turn W) → Leaves P t → Ends P (close (guard host) t)
  unfolding close
  close-Ends (next s) h = finish-Ends s h
  close-Ends (stop s) h = finish-Ends s h
  close-Ends (cancelled reason) h = absurd h

  -- A replay of a well-formed graph answers a result. Whatever it does to the world, it does by calls
  -- of executors for its target and by closing terminals: a property of the world that those keep
  -- holds at its end if it held at its start. A probe, which has no target, makes no call at all.
  pub replay_touches_target_only :
      (world : W)
      → IsWellFormed graph
      → P world
      → Ends P (replay_up_to host kinds executors graph target resume_outputs initial_inputs world)
  unfolding replay_up_to run
  replay_touches_target_only world wf h = elim (Option-cases (topo_sort graph)) [
    | inl cyclic ↦ rw (cyclic, replay_up_to, run) h
    | inr (order, sorted) ↦ checked order sorted (resolve_workflow_props graph.inputs []) refl
  ]
    where
      checked :
          (order : List FlowNode)
          → topo_sort graph ≡ some order
          → (c : PropsCheck) → resolve_workflow_props graph.inputs [] ≡ c
          → Ends P
              (replay_up_to host kinds executors graph target resume_outputs initial_inputs world)
      checked order sorted (refused code error) c = rw (sorted, c, replay_up_to, run) h
      checked order sorted (ok props) c =
          rw (sorted, c, replay_up_to, run)
            (close-Ends _ (
              walk-Leaves (guard host) kinds (fence target graph.nodes (fork executors)) graph
                (replay_options resume_outputs initial_inputs) props P (λ n. refl) order
                (start_of world)
                (λ node there.
                  guarded-keeps node
                    (sym ((topo_sort-IsPlan graph order wf sorted).2 node.id) ∙ there))
                h))
