-- ===== src/Engine/Fed.antt =====
-- Only nodes that an active edge or an entry point reaches have outputs.
use fancy_flow_py.Prelude.{
  String, List, [], ◌∷◌, Option, none, true, false, ◌==◌, ◌≡◌, refl, ap, arith, Bool-cases, inl,
  inr, sym, subst, eq_iff,
}
use fancy_flow_py.Prelude.Dict.{Dict, get, has}
use fancy_flow_py.Value.{Value}
use fancy_flow_py.Graph.{FlowNode, FlowEdge, FlowGraph}
use fancy_flow_py.Registry.Catalogue.{NodeKindRegistry}
use fancy_flow_py.Executors.{ExecutorRegistry}
use fancy_flow_py.Engine.Routing.{Progress, port_key, activated_ports}
use fancy_flow_py.Engine.Walk.{
  Host, RunOptions, RunResult, State, Turn, next, finished, turn, walk_from, run, any_active,
  is_dead, is_dormant,
}
use fancy_flow_py.Engine.Core.{Core, core, published, lit_grows}
use fancy_flow_py.Engine.Inputs.{incoming}
use fancy_flow_py.Engine.Turns.{Effect, turn-next, turn-admits, walk-cons}
use fancy_flow_py.Engine.Resume.{outputs_elsewhere}
use fancy_flow_py.Engine.Finished.{start_of, run-Success}

-- Every port that has a value goes on having one.
abbrev Grows : Dict Value → Dict Value → Type 0
Grows d d' = (k : String) → has d k ≡ true → has d' k ≡ true

Grows-any_active :
    (d d' : Dict Value) (es : List FlowEdge)
    → Grows d d'
    → any_active d es ≡ true
    → any_active d' es ≡ true
unfolding any_active
Grows-any_active d d' [] g h = h
Grows-any_active d d' (e ∷ es) g h =
    ground (arith, g (port_key e.source e.source_handle), Grows-any_active d d' es g)

Grows-is_dead :
    (d d' : Dict Value) (es : List FlowEdge)
    → Grows d d'
    → is_dead d es ≡ false
    → is_dead d' es ≡ false
Grows-is_dead d d' [] g h = refl
Grows-is_dead d d' (e ∷ es) g h = ground (arith, Grows-any_active d d' (e ∷ es) g)

Effect-Grows :
    (kinds : NodeKindRegistry) (graph : FlowGraph) (entry : Option (List String)) (node : FlowNode)
    (before after : Core)
    → Effect kinds graph entry node before after
    → Grows before.port_values after.port_values
unfolding published
Effect-Grows kinds graph entry node before after (inl (v, e)) k h =
    subst (λ (c : Core). has c.port_values k ≡ true) (sym e)
      (lit_grows node.id (activated_ports kinds node v) (activated_ports kinds node v).ports
        before.port_values k h)
Effect-Grows kinds graph entry node before after (inr (e, skipped)) k h =
    subst (λ (c : Core). has c.port_values k ≡ true) (sym e) h

module _ {E W : Type 0} (host : Host E W) (kinds : NodeKindRegistry)
    (executors : ExecutorRegistry E) (graph : FlowGraph) (options : RunOptions)
    (props : Dict Value) where
  walk-Grows :
      (order : List FlowNode) (s s' : State W)
      → walk_from host kinds executors graph options props order s ≡ next s'
      → Grows s.progress.port_values s'.progress.port_values
  unfolding walk_from
  walk-Grows [] s s' e k h =
      subst
        (λ (t : Turn W). elim t as (λ _. Type 0) [
          | next x ↦ has x.progress.port_values k ≡ true
          | _ ↦ Unit {0}
        ])
        e h
  walk-Grows (node ∷ order) s s' e k h =
      let (m, t, rest) = walk-cons host kinds executors graph options props node order s s' e in
      walk-Grows order m s' rest k (
        Effect-Grows kinds graph options.entry_nodes node (core s.progress) (core m.progress)
          (turn-next host kinds executors graph options props node s m t).1 k h)

  -- The node of id `k` was to be executed, judged by the port values `d`.
  abbrev pub Reached : String → Dict Value → Type 0
  Reached k d =
      (is_dormant (incoming graph.edges k) options.entry_nodes k ≡ false)
      × (is_dead d (incoming graph.edges k) ≡ false)

  -- A turn that first gives `k` an output is the turn of a node that was to be executed.
  turn-Reached :
      (node : FlowNode) (s m : State W) (k : String)
      → turn host kinds executors graph options props node s ≡ next m
      → get options.resume_outputs k ≡ none
      → has s.progress.outputs k ≡ false
      → has m.progress.outputs k ≡ true
      → Reached k s.progress.port_values
  turn-Reached node s m k t fresh before after = elim (Bool-cases (node.id == k)) [
    | inr other ↦
        let kept =
          outputs_elsewhere kinds graph options.entry_nodes node (core s.progress) (core m.progress)
            k (turn-next host kinds executors graph options props node s m t).1 other in
        absurd (ground arith)
    | inl same ↦
        let here : node.id ≡ k = ground (arith, eq_iff node.id k) in
        let fresh' = subst (λ i. get options.resume_outputs i ≡ none) (sym here) fresh in
        elim (turn-admits host kinds executors graph options props node s m t fresh') [
          | inl still ↦ let kept = ap (λ (c : Core). get c.outputs k) still in absurd (ground arith)
          | inr (awake, live, runs) ↦
              subst (λ i. Reached i s.progress.port_values) here (awake, live)
        ]
  ]

  walk-Reached :
      (order : List FlowNode) (s s' : State W) (k : String)
      → walk_from host kinds executors graph options props order s ≡ next s'
      → get options.resume_outputs k ≡ none
      → has s.progress.outputs k ≡ false
      → has s'.progress.outputs k ≡ true
      → Reached k s'.progress.port_values
  unfolding walk_from
  walk-Reached [] s s' k e fresh before after =
      let same : get s.progress.outputs k ≡ get s'.progress.outputs k =
        ap (λ (t : Turn W). elim t [ next x ↦ get x.progress.outputs k | _ ↦ none ]) e in
      absurd (ground arith)
  walk-Reached (node ∷ order) s s' k e fresh before after =
      let (m, t, rest) = walk-cons host kinds executors graph options props node order s s' e in
      elim (Bool-cases (has m.progress.outputs k)) [
        | inr still ↦ walk-Reached order m s' k rest fresh still after
        | inl now ↦
            let (awake, live) = turn-Reached node s m k t fresh before now in
            (
              awake,
              Grows-is_dead s.progress.port_values s'.progress.port_values (incoming graph.edges k)
                  (walk-Grows (node ∷ order) s s' e) live,
            )
      ]

-- In a run that reports success every node with an output, other than those resumed from a stored
-- one, is not a dormant entry point, and if edges lead into it then one of them reads a port that
-- has a value at the end of the run.
pub outputs_are_fed :
    {E W : Type 0}
    → (host : Host E W) (kinds : NodeKindRegistry) (executors : ExecutorRegistry E)
      (graph : FlowGraph) (options : RunOptions) (world w : W) (r : RunResult) (p : Progress)
      (k : String)
    → run host kinds executors graph options world ≡ finished r p w
    → r.ok ≡ true
    → get options.resume_outputs k ≡ none
    → has r.outputs k ≡ true
    → (is_dormant (incoming graph.edges k) options.entry_nodes k ≡ false)
      × (is_dead p.port_values (incoming graph.edges k) ≡ false)
outputs_are_fed host kinds executors graph options world w r p k e good fresh there =
    let s = run-Success host kinds executors graph options world r p w e good in
    let (awake, live) =
      walk-Reached host kinds executors graph options s.props s.order (start_of world) s.end k
        s.walked fresh (unfold get in refl) (subst (λ d. has d k ≡ true) s.results there) in
    (
      awake,
      subst (λ (c : Core). is_dead c.port_values (incoming graph.edges k) ≡ false) (sym s.state)
          live,
    )
