-- ===== src/Engine/Worlds.antt =====
-- What a walk does to the world: nothing but the calls of the executors that its nodes resolve to.
use fancy_flow_py.Prelude.{
  List, [], ◌∷◌, none, some, true, ◌≡◌, refl, arith, contains, Option-cases, Bool-cases, List-cases,
  inl, inr, subst, sym, eq_refl,
}
use fancy_flow_py.Prelude.Dict.{Dict, get}
use fancy_flow_py.Value.{Value}
use fancy_flow_py.Graph.{FlowNode, FlowGraph, ids}
use fancy_flow_py.Registry.Catalogue.{NodeKindRegistry, never_executes}
use fancy_flow_py.Executors.{ExecutorRegistry, resolve_for}
use fancy_flow_py.Engine.Walk.{
  Host, Outcome, success, failure, RunOptions, State, Turn, next, stop, cancelled, is_dead,
  is_dormant, edges_into, settle, execute, dispatch, gate, warn, visit, check_time, turn, walk_from,
}

-- The turn is not cancelled, and the world in which it leaves satisfies `P`.
abbrev pub Leaves : {W : Type 0} → (W → Type 0) → Turn W → Type 0
Leaves P (next s) = P s.world
Leaves P (stop s) = P s.world
Leaves P (cancelled reason) = ⊥

module _ {E W : Type 0} (host : Host E W) (kinds : NodeKindRegistry)
    (executors : ExecutorRegistry E) (graph : FlowGraph) (options : RunOptions) (props : Dict Value)
    (P : W → Type 0) (unsignalled : (node : FlowNode) → host.polled node ≡ none) where
  -- The calls of the node's executor keep `P`.
  abbrev pub CallKeeps : FlowNode → Type 0
  CallKeeps node =
      (x : E) (inputs : Dict Value) (w : W)
      → resolve_for executors node ≡ some x
      → P w
      → P (host.call x node inputs w).2

  settle-Leaves :
      (node : FlowNode) (o : Outcome) (s : State W)
      → P s.world
      → Leaves P (settle host kinds executors graph options props node o s)
  unfolding settle
  settle-Leaves node (success v) s h = h
  settle-Leaves node (failure payload) s h = h

  dispatch-Leaves :
      (node : FlowNode) (s : State W)
      → CallKeeps node
      → P s.world
      → Leaves P (dispatch host kinds executors graph options props node s)
  unfolding dispatch execute
  dispatch-Leaves node s keeps h = elim (Option-cases (resolve_for executors node)) [
    | inl n ↦ rw (n, dispatch) h
    | inr (x, f) ↦ rw (f, dispatch) (settle-Leaves node _ _ (keeps x _ s.world f h))
  ]

  gate-Leaves :
      (node : FlowNode) (s : State W)
      → CallKeeps node
      → P s.world
      → Leaves P (gate host kinds executors graph options props node s)
  unfolding gate
  gate-Leaves node s keeps h =
      elim (Bool-cases (is_dead s.progress.port_values (edges_into graph node))) [
        | inl dead ↦ rw (dead, gate) h
        | inr live ↦ elim (Option-cases (never_executes node.type kinds)) [
          | inr (skip, n) ↦ rw (live, n, gate) h
          | inl n ↦ rw (live, n, gate) (dispatch-Leaves node s keeps h)
        ]
      ]

  visit-Leaves :
      (node : FlowNode) (s : State W)
      → CallKeeps node
      → P s.world
      → Leaves P (visit host kinds executors graph options props node s)
  unfolding visit warn
  visit-Leaves node s keeps h = elim (Option-cases (get options.resume_outputs node.id)) [
    | inr (v, r) ↦ rw (r, visit) h
    | inl r ↦ elim (Bool-cases (is_dormant (edges_into graph node) options.entry_nodes node.id)) [
      | inl dormant ↦ rw (r, dormant, visit) h
      | inr awake ↦
          rw (r, awake, visit)
            (gate-Leaves node (warn host kinds executors graph options props node s) keeps h)
    ]
  ]

  check_time-world :
      (node : FlowNode) (s : State W)
      → (check_time host kinds executors graph options props node s).world ≡ s.world
  unfolding check_time
  check_time-world node s = ground arith

  turn-Leaves :
      (node : FlowNode) (s : State W)
      → CallKeeps node
      → P s.world
      → Leaves P (turn host kinds executors graph options props node s)
  unfolding turn
  turn-Leaves node s keeps h =
      let timed = check_time host kinds executors graph options props node s in
      let h' = subst P (sym (check_time-world node s)) h in
      elim (Option-cases (host.polled node)) [
        | inr (reason, p) ↦ absurd (ground (arith, unsignalled node))
        | inl p ↦ elim (List-cases timed.progress.errors) [
          | inr (x, xs, errors) ↦ rw (p, errors, turn) h'
          | inl clean ↦ rw (p, clean, turn) (visit-Leaves node timed keeps h')
        ]
      ]

  after_turn :
      (node : FlowNode) (order : List FlowNode) (s : State W) (t : Turn W)
      → turn host kinds executors graph options props node s ≡ t
      → Leaves P t
      → ((m : State W)
          → P m.world
          → Leaves P (walk_from host kinds executors graph options props order m))
      → Leaves P (walk_from host kinds executors graph options props (node ∷ order) s)
  unfolding walk_from
  after_turn node order s (next m) e h rest = rw (e, walk_from) (rest m h)
  after_turn node order s (stop m) e h rest = rw (e, walk_from) h
  after_turn node order s (cancelled reason) e h rest = absurd h

  pub walk-Leaves :
      (order : List FlowNode) (s : State W)
      → ((node : FlowNode) → contains (ids order) node.id ≡ true → CallKeeps node)
      → P s.world
      → Leaves P (walk_from host kinds executors graph options props order s)
  unfolding walk_from
  walk-Leaves [] s keeps h = h
  walk-Leaves (node ∷ order) s keeps h =
      after_turn node order s _ refl (turn-Leaves node s (keeps node (rw (eq_refl node.id) refl)) h)
        (λ m held. walk-Leaves order m (λ n there. keeps n (ground arith)) held)
