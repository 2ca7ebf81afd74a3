-- ===== src/Engine/Resume.antt =====
-- A finished run resumed from its outputs: nothing runs again, and the state comes out the same.
use fancy_flow_py.Prelude.{
  String, List, [], ◌∷◌, Option, none, some, true, false, ◌==◌, ◌≡◌, refl, ap, arith, contains,
  distinct, if◌then◌else◌, Option-cases, Bool-cases, inl, inr, ◌∙◌, sym, eq_iff, subst,
}
use fancy_flow_py.Prelude.Dict.{Dict, get, get-put}
use fancy_flow_py.Value.{Value}
use fancy_flow_py.Graph.{FlowNode, FlowGraph, ids}
use fancy_flow_py.Registry.Catalogue.{NodeKindRegistry, never_executes}
use fancy_flow_py.Executors.{ExecutorRegistry}
use fancy_flow_py.Events.{node_status, NodeStatus}
use fancy_flow_py.Engine.Routing.{emit, publish}
use fancy_flow_py.Engine.Walk.{
  Host, RunOptions, State, Turn, next, is_dead, is_dormant, edges_into, gate, warn, visit,
  check_time, turn, walk_from,
}
use fancy_flow_py.Engine.Core.{Core, core, published, core-publish}
use fancy_flow_py.Engine.Turns.{IsSkipped, Effect, turn-next, walk-cons, walk-next}

-- No cancellation and no timeout.
pub record IsQuiet {E W : Type 0} (host : Host E W) (options : RunOptions) : Type 0 where
  pub unsignalled : (node : FlowNode) → host.polled node ≡ none
  pub untimed : options.timeout_ms ≡ none

-- The state with the event of a node that was walked past.
abbrev idle_at : {W : Type 0} → String → FlowNode → State W → State W
idle_at status node s = record s {
  progress = emit (node_status node.id NodeStatus.idle (some status)) s.progress;
}

module _ {E W : Type 0} (host : Host E W) (kinds : NodeKindRegistry)
    (executors : ExecutorRegistry E) (graph : FlowGraph) (options : RunOptions) (props : Dict Value)
    (quiet : IsQuiet host options) where
  turn_quiet :
      (node : FlowNode) (s : State W)
      → s.progress.errors ≡ []
      → turn host kinds executors graph options props node s
        ≡ visit host kinds executors graph options props node s
  unfolding turn check_time
  turn_quiet node s clean =
      let steady : check_time host kinds executors graph options props node s ≡ s =
        ground (arith, quiet.untimed) in
      simp (quiet.unsignalled node, steady, clean, turn)

  -- A stored output is published again.
  replay_output :
      (node : FlowNode) (v : Value) (s : State W)
      → s.progress.errors ≡ []
      → get options.resume_outputs node.id ≡ some v
      → (s' : State W) × (turn host kinds executors graph options props node s ≡ next s')
        × (core s'.progress ≡ published kinds node v (core s.progress))
        × (s'.world ≡ s.world)
  unfolding visit
  replay_output node v s clean stored = (
    record s { progress = publish kinds node v true s.progress },
    turn_quiet node s clean ∙ rw (stored, visit),
    core-publish kinds node v true s.progress,
    refl,
  )

  -- A node that was walked past is walked past again.
  replay_skip :
      (node : FlowNode) (s : State W)
      → s.progress.errors ≡ []
      → get options.resume_outputs node.id ≡ none
      → IsSkipped kinds graph options.entry_nodes node (core s.progress)
      → (s' : State W) × (turn host kinds executors graph options props node s ≡ next s')
        × (core s'.progress ≡ core s.progress)
        × (s'.world ≡ s.world)
  unfolding visit gate warn
  replay_skip node s clean fresh skipped =
      let warned = warn host kinds executors graph options props node s in
      elim (Bool-cases (is_dormant (edges_into graph node) options.entry_nodes node.id)) [
        | inl dormant ↦ (
          idle_at "skipped" node s,
          turn_quiet node s clean ∙ rw (fresh, dormant, visit),
          refl,
          refl,
        )
        | inr awake ↦ elim (Bool-cases (is_dead s.progress.port_values (edges_into graph node))) [
          | inl dead ↦ (
            idle_at "skipped" node warned,
            turn_quiet node s clean ∙ rw (fresh, awake, dead, visit, gate),
            refl,
            refl,
          )
          | inr live ↦ elim (Option-cases (never_executes node.type kinds)) [
            | inr (skip, n) ↦ (
              idle_at skip node warned,
              turn_quiet node s clean ∙ rw (fresh, awake, live, n, visit, gate),
              refl,
              refl,
            )
            | inl n ↦ absurd (ground arith)
          ]
        ]
      ]

get-published :
    (kinds : NodeKindRegistry) (node : FlowNode) (v : Value) (c : Core) (k : String)
    → get (published kinds node v c).outputs k ≡ (if node.id == k then some v else get c.outputs k)
unfolding published
get-published kinds node v c k = get-put c.outputs node.id k v

-- A turn writes the output of its own node only.
pub outputs_elsewhere :
    (kinds : NodeKindRegistry) (graph : FlowGraph) (entry : Option (List String)) (node : FlowNode)
    (before after : Core) (k : String)
    → Effect kinds graph entry node before after
    → (node.id == k) ≡ false
    → get after.outputs k ≡ get before.outputs k
outputs_elsewhere kinds graph entry node before after k (inl (v, e)) n =
    ap (λ (c : Core). get c.outputs k) e ∙ ground (arith, get-published kinds node v before k)
outputs_elsewhere kinds graph entry node before after k (inr (e, skipped)) n =
    ap (λ (c : Core). get c.outputs k) e

module _ {E W : Type 0} (host : Host E W) (kinds : NodeKindRegistry)
    (executors : ExecutorRegistry E) (graph : FlowGraph) (options : RunOptions)
    (props : Dict Value) where
  -- The rest of a walk leaves the outputs of other nodes alone.
  pub outputs_after :
      (order : List FlowNode) (s s' : State W) (k : String)
      → walk_from host kinds executors graph options props order s ≡ next s'
      → contains (ids order) k ≡ false
      → get s'.progress.outputs k ≡ get s.progress.outputs k
  unfolding walk_from
  outputs_after [] s s' k e n =
      ap (λ (t : Turn W). elim t [ next x ↦ get x.progress.outputs k | _ ↦ none ]) (sym e)
  outputs_after (node ∷ order) s s' k e n =
      let (m, t, rest) = walk-cons host kinds executors graph options props node order s s' e in
      outputs_after order m s' k rest (ground arith)
      ∙ outputs_elsewhere kinds graph options.entry_nodes node (core s.progress) (core m.progress) k
          (turn-next host kinds executors graph options props node s m t).1 (ground arith)

-- The run that finished, and one that resumes from its outputs under other executors.
module _ {E W E' W' : Type 0} (host : Host E W) (host' : Host E' W') (kinds : NodeKindRegistry)
    (executors : ExecutorRegistry E) (executors' : ExecutorRegistry E') (graph : FlowGraph)
    (options options' : RunOptions) (props props' : Dict Value) (quiet : IsQuiet host' options')
    (same_entry : options'.entry_nodes ≡ options.entry_nodes) where
  -- What the second walk comes to: the core of the first, and the world it began with.
  abbrev Replays : List FlowNode → Core → State W' → Type 0
  Replays order c t =
      (t' : State W') × (walk_from host' kinds executors' graph options' props' order t ≡ next t')
      × (core t'.progress ≡ c)
      × (t'.world ≡ t.world)

  abbrev Replayed : FlowNode → Core → State W' → Type 0
  Replayed node c t =
      (t' : State W') × (turn host' kinds executors' graph options' props' node t ≡ next t')
      × (core t'.progress ≡ c)
      × (t'.world ≡ t.world)

  replay_turn :
      (node : FlowNode) (s m : State W) (t : State W') (o : Option Value)
      → turn host kinds executors graph options props node s ≡ next m
      → get s.progress.outputs node.id ≡ none
      → get m.progress.outputs node.id ≡ o
      → get options'.resume_outputs node.id ≡ o
      → core t.progress ≡ core s.progress
      → Replayed node (core m.progress) t
  replay_turn node s m t o e fresh out stored same =
      let (clean, effect) = turn-next host kinds executors graph options props node s m e in
      let clean' = ap (λ (c : Core). c.errors) same ∙ clean in
      elim effect [
        | inl (v, p) ↦
            let kept : get options'.resume_outputs node.id ≡ some v =
              stored
              ∙ (sym out
                  ∙ (ap (λ (c : Core). get c.outputs node.id) p
                      ∙ ground (
                        arith,
                        get-published kinds node v (core s.progress) node.id,
                        eq_iff node.id node.id,
                      ))) in
            let (t', turned, published', world) =
              replay_output host' kinds executors' graph options' props' quiet node v t clean'
                kept in
            (t', turned, published' ∙ (ap (published kinds node v) same ∙ sym p), world)
        | inr (p, skipped) ↦
            let nothing : get options'.resume_outputs node.id ≡ none =
              stored ∙ (sym out ∙ (ap (λ (c : Core). get c.outputs node.id) p ∙ fresh)) in
            let again =
              subst (λ entry. IsSkipped kinds graph entry node (core t.progress)) (sym same_entry)
                (subst (IsSkipped kinds graph options.entry_nodes node) (sym same) skipped) in
            let (t', turned, still, world) =
              replay_skip host' kinds executors' graph options' props' quiet node t clean' nothing
                again in
            (t', turned, still ∙ (same ∙ sym p), world)
      ]

  pub resume_walk :
      (order : List FlowNode) (s s' : State W) (t : State W')
      → walk_from host kinds executors graph options props order s ≡ next s'
      → distinct (ids order) ≡ true
      → ((k : String) → contains (ids order) k ≡ true → get s.progress.outputs k ≡ none)
      → options'.resume_outputs ≡ s'.progress.outputs
      → core t.progress ≡ core s.progress
      → Replays order (core s'.progress) t
  unfolding walk_from
  resume_walk [] s s' t e once fresh stored same = (
    t,
    refl,
    same ∙ ap (λ (x : Turn W). elim x [ next y ↦ core y.progress | _ ↦ core s.progress ]) e,
    refl,
  )
  resume_walk (node ∷ order) s s' t e once fresh stored same =
      let (m, turned, rest) =
        walk-cons host kinds executors graph options props node order s s' e in
      let last =
        outputs_after host kinds executors graph options props order m s' node.id rest
          (ground arith) in
      let (t', turned', same', world) =
        replay_turn node s m t (get m.progress.outputs node.id) turned
          (fresh node.id (ground (arith, eq_iff node.id node.id))) refl
          (ap (λ (d : Dict Value). get d node.id) stored ∙ last) same in
      let (t'', walked, ends, world') =
        resume_walk order m s' t' rest (ground arith)
          (λ k there.
            outputs_elsewhere kinds graph options.entry_nodes node (core s.progress)
              (core m.progress) k
              (turn-next host kinds executors graph options props node s m turned).1
              (ground (arith, eq_iff node.id k))
            ∙ fresh k (ground arith))
          stored same' in
      (
        t'',
        walk-next host' kinds executors' graph options' props' node order t t' turned' ∙ walked,
        ends,
        world' ∙ world,
      )
