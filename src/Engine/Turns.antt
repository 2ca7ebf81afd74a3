-- ===== src/Engine/Turns.antt =====
-- One turn of the walk, by what it does to the core of the state.
use fancy_flow_py.Prelude.{
  String, List, [], ◌∷◌, ◌++◌, Option, none, true, false, ◌≡◌, ◌≢◌, ◌⊎◌, refl, ap, arith,
  Option-cases, Bool-cases, List-cases, inl, inr, ◌∙◌, sym, is_some, subst,
}
use fancy_flow_py.Prelude.Dict.{Dict, get}
use fancy_flow_py.Value.{Value}
use fancy_flow_py.Graph.{FlowNode, FlowGraph}
use fancy_flow_py.Registry.Catalogue.{NodeKindRegistry, never_executes}
use fancy_flow_py.Executors.{ExecutorRegistry, resolve_for}
use fancy_flow_py.Engine.Routing.{publish}
use fancy_flow_py.Engine.Walk.{
  Host, Outcome, success, failure, RunOptions, State, Turn, next, stop, cancelled, is_dead,
  is_dormant, edges_into, settle, execute, dispatch, gate, warn, visit, check_time, turn, walk_from,
}
use fancy_flow_py.Engine.Core.{Core, core, published, core-publish, core-announce}

-- The engine walks past the node without a result.
abbrev pub IsSkipped :
    NodeKindRegistry → FlowGraph → Option (List String) → FlowNode → Core → Type 0
IsSkipped kinds graph entry node c =
    (is_dormant (edges_into graph node) entry node.id ≡ true)
    ⊎ (is_dead c.port_values (edges_into graph node) ≡ true)
    ⊎ (is_some (never_executes node.type kinds) ≡ true)

-- The node is to be executed: it is no dormant entry point, some edge into it is active if it has
-- any, and its kind is one that executes.
abbrev pub IsAdmitted :
    NodeKindRegistry → FlowGraph → Option (List String) → FlowNode → Core → Type 0
IsAdmitted kinds graph entry node c =
    (is_dormant (edges_into graph node) entry node.id ≡ false)
    × (is_dead c.port_values (edges_into graph node) ≡ false)
    × (never_executes node.type kinds ≡ none)

-- What a turn that goes on does: it publishes a result, or walks past the node.
abbrev pub Effect :
    NodeKindRegistry → FlowGraph → Option (List String) → FlowNode → Core → Core → Type 0
Effect kinds graph entry node before after =
    ((v : Value) × (after ≡ published kinds node v before))
    ⊎ ((after ≡ before) × IsSkipped kinds graph entry node before)

abbrev core_of : {W : Type 0} → Turn W → Core → Core
core_of (next s) c = core s.progress
core_of _ c = c

core-next : {W : Type 0} {a b : State W} → next a ≡ next b → core a.progress ≡ core b.progress
core-next {a} e = ap (λ t. core_of t (core a.progress)) e

abbrev pub StopsWithError : {W : Type 0} → Turn W → Type 0
StopsWithError (next s) = Unit
StopsWithError (stop s) = s.progress.errors ≢ []
StopsWithError (cancelled reason) = Unit

Turn-cases :
    {W : Type 0} (t : Turn W)
    → ((s : State W) × (t ≡ next s))
      ⊎ ((s : State W) × (t ≡ stop s))
      ⊎ ((reason : String) × (t ≡ cancelled reason))
Turn-cases (next s) = inl (s, refl)
Turn-cases (stop s) = inr (inl (s, refl))
Turn-cases (cancelled reason) = inr (inr (reason, refl))

append-ne-nil : (xs : List String) (x : String) → xs ++ x ∷ [] ≢ []
append-ne-nil [] x e = cc
append-ne-nil (y ∷ xs) x e = cc

module _ {E W : Type 0} (host : Host E W) (kinds : NodeKindRegistry)
    (executors : ExecutorRegistry E) (graph : FlowGraph) (options : RunOptions)
    (props : Dict Value) where
  settle-next :
      (node : FlowNode) (o : Outcome) (s s' : State W)
      → settle host kinds executors graph options props node o s ≡ next s'
      → (v : Value) × (core s'.progress ≡ published kinds node v (core s.progress))
  unfolding settle
  settle-next node (success v) s s' e = (
    v,
    sym (core-next e)
        ∙ (core-announce node "end" node.stopping_msg (publish kinds node v false s.progress)
            ∙ core-publish kinds node v false s.progress),
  )
  settle-next node (failure payload) s s' e = absurd (cc)

  execute-next :
      (node : FlowNode) (x : E) (inputs : Dict Value) (s s' : State W)
      → execute host kinds executors graph options props node x inputs s ≡ next s'
      → (v : Value) × (core s'.progress ≡ published kinds node v (core s.progress))
  unfolding execute
  execute-next node x inputs s s' e =
      let (v, p) = settle-next node _ _ s' e in
      (v, p ∙ ap (published kinds node v) (core-announce node "start" node.starting_msg s.progress))

  dispatch-next :
      (node : FlowNode) (s s' : State W)
      → dispatch host kinds executors graph options props node s ≡ next s'
      → (v : Value) × (core s'.progress ≡ published kinds node v (core s.progress))
  unfolding dispatch
  dispatch-next node s s' e = elim (Option-cases (resolve_for executors node)) [
    | inl n ↦ absurd (ground arith)
    | inr (x, f) ↦ execute-next node x _ _ s' (rw (f, dispatch) at e)
  ]

  gate-next :
      (node : FlowNode) (s s' : State W)
      → gate host kinds executors graph options props node s ≡ next s'
      → Effect kinds graph options.entry_nodes node (core s.progress) (core s'.progress)
  unfolding gate
  gate-next node s s' e =
      elim (Bool-cases (is_dead s.progress.port_values (edges_into graph node))) [
        | inl dead ↦ inr (sym (core-next (rw (dead, gate) at e)), inr (inl dead))
        | inr live ↦ elim (Option-cases (never_executes node.type kinds)) [
          | inr (skip, n) ↦
              inr (sym (core-next (rw (live, n, gate) at e)), inr (inr (ap is_some n)))
          | inl n ↦ inl (dispatch-next node s s' (rw (live, n, gate) at e))
        ]
      ]

  visit-next :
      (node : FlowNode) (s s' : State W)
      → visit host kinds executors graph options props node s ≡ next s'
      → Effect kinds graph options.entry_nodes node (core s.progress) (core s'.progress)
  unfolding visit warn
  visit-next node s s' e = elim (Option-cases (get options.resume_outputs node.id)) [
    | inr (v, r) ↦
        inl (v, sym (core-next (rw (r, visit) at e)) ∙ core-publish kinds node v true s.progress)
    | inl r ↦ elim (Bool-cases (is_dormant (edges_into graph node) options.entry_nodes node.id)) [
      | inl dormant ↦ inr (sym (core-next (rw (r, dormant, visit) at e)), inl dormant)
      | inr awake ↦
          gate-next node (warn host kinds executors graph options props node s) s'
            (rw (r, awake, visit) at e)
    ]
  ]

  gate-admits :
      (node : FlowNode) (s s' : State W)
      → gate host kinds executors graph options props node s ≡ next s'
      → (core s'.progress ≡ core s.progress)
        ⊎ ((is_dead s.progress.port_values (edges_into graph node) ≡ false)
            × (never_executes node.type kinds ≡ none))
  unfolding gate
  gate-admits node s s' e =
      elim (Bool-cases (is_dead s.progress.port_values (edges_into graph node))) [
        | inl dead ↦ inl (sym (core-next (rw (dead, gate) at e)))
        | inr live ↦ elim (Option-cases (never_executes node.type kinds)) [
          | inr (skip, n) ↦ inl (sym (core-next (rw (live, n, gate) at e)))
          | inl n ↦ inr (live, n)
        ]
      ]

  visit-admits :
      (node : FlowNode) (s s' : State W)
      → visit host kinds executors graph options props node s ≡ next s'
      → get options.resume_outputs node.id ≡ none
      → (core s'.progress ≡ core s.progress)
        ⊎ IsAdmitted kinds graph options.entry_nodes node (core s.progress)
  unfolding visit warn
  visit-admits node s s' e r =
      elim (Bool-cases (is_dormant (edges_into graph node) options.entry_nodes node.id)) [
        | inl dormant ↦ inl (sym (core-next (rw (r, dormant, visit) at e)))
        | inr awake ↦
            elim (gate-admits node (warn host kinds executors graph options props node s) s'
              (rw (r, awake, visit) at e)) [
                | inl same ↦ inl same
                | inr (live, runs) ↦ inr (awake, live, runs)
              ]
      ]

  check_time-clean :
      (node : FlowNode) (s : State W)
      → (check_time host kinds executors graph options props node s).progress.errors ≡ []
      → (check_time host kinds executors graph options props node s ≡ s) × (s.progress.errors ≡ [])
  unfolding check_time
  check_time-clean node s h = ground arith

  turn-visit :
      (node : FlowNode) (s s' : State W)
      → turn host kinds executors graph options props node s ≡ next s'
      → (s.progress.errors ≡ []) × (visit host kinds executors graph options props node s ≡ next s')
  unfolding turn
  turn-visit node s s' e =
      let timed = check_time host kinds executors graph options props node s in
      elim (Option-cases (host.polled node)) [
        | inr (reason, p) ↦ absurd (ground arith)
        | inl p ↦ elim (List-cases timed.progress.errors) [
          | inr (x, xs, errors) ↦ absurd (ground arith)
          | inl clean ↦
              let (same, none_before) = check_time-clean node s clean in
              (
                none_before,
                subst (λ t. visit host kinds executors graph options props node t ≡ next s') same
                    (rw (p, clean, turn) at e),
              )
        ]
      ]

  -- A turn that goes on found no errors.
  pub turn-next :
      (node : FlowNode) (s s' : State W)
      → turn host kinds executors graph options props node s ≡ next s'
      → (s.progress.errors ≡ [])
        × Effect kinds graph options.entry_nodes node (core s.progress) (core s'.progress)
  turn-next node s s' e =
      let (clean, visited) = turn-visit node s s' e in (clean, visit-next node s s' visited)

  settle-stop :
      (node : FlowNode) (o : Outcome) (s : State W)
      → StopsWithError (settle host kinds executors graph options props node o s)
  unfolding settle
  settle-stop node (success v) s = tt
  settle-stop node (failure payload) s = append-ne-nil s.progress.errors payload

  dispatch-stop :
      (node : FlowNode) (s : State W)
      → StopsWithError (dispatch host kinds executors graph options props node s)
  unfolding dispatch execute
  dispatch-stop node s = elim (Option-cases (resolve_for executors node)) [
    | inl n ↦ rw (n, dispatch) (append-ne-nil s.progress.errors _)
    | inr (x, f) ↦ rw (f, dispatch) (settle-stop node _ _)
  ]

  gate-stop :
      (node : FlowNode) (s : State W)
      → StopsWithError (gate host kinds executors graph options props node s)
  unfolding gate
  gate-stop node s = elim (Bool-cases (is_dead s.progress.port_values (edges_into graph node))) [
    | inl dead ↦ rw (dead, gate) tt
    | inr live ↦ elim (Option-cases (never_executes node.type kinds)) [
      | inr (skip, n) ↦ rw (live, n, gate) tt
      | inl n ↦ rw (live, n, gate) (dispatch-stop node s)
    ]
  ]

  visit-stop :
      (node : FlowNode) (s : State W)
      → StopsWithError (visit host kinds executors graph options props node s)
  unfolding visit
  visit-stop node s = elim (Option-cases (get options.resume_outputs node.id)) [
    | inr (v, r) ↦ rw (r, visit) tt
    | inl r ↦ elim (Bool-cases (is_dormant (edges_into graph node) options.entry_nodes node.id)) [
      | inl dormant ↦ rw (r, dormant, visit) tt
      | inr awake ↦
          rw (r, awake, visit)
            (gate-stop node (warn host kinds executors graph options props node s))
    ]
  ]

  pub turn-admits :
      (node : FlowNode) (s s' : State W)
      → turn host kinds executors graph options props node s ≡ next s'
      → get options.resume_outputs node.id ≡ none
      → (core s'.progress ≡ core s.progress)
        ⊎ IsAdmitted kinds graph options.entry_nodes node (core s.progress)
  turn-admits node s s' e r = visit-admits node s s' (turn-visit node s s' e).1 r

  -- A turn that ends the loop leaves an error.
  pub turn-stop :
      (node : FlowNode) (s : State W)
      → StopsWithError (turn host kinds executors graph options props node s)
  unfolding turn
  turn-stop node s =
      let timed = check_time host kinds executors graph options props node s in
      elim (Option-cases (host.polled node)) [
        | inr (reason, p) ↦ rw (p, turn) tt
        | inl p ↦ elim (List-cases timed.progress.errors) [
          | inr (x, xs, errors) ↦ rw (p, errors, turn) (λ empty. cc)
          | inl clean ↦ rw (p, clean, turn) (visit-stop node timed)
        ]
      ]

  pub walk-stop :
      (order : List FlowNode) (s : State W)
      → StopsWithError (walk_from host kinds executors graph options props order s)
  unfolding walk_from
  walk-stop [] s = tt
  walk-stop (node ∷ order) s =
      elim (Turn-cases (turn host kinds executors graph options props node s)) [
        | inl (s', e) ↦ rw (e, walk_from) (walk-stop order s')
        | inr (inl (s', e)) ↦ rw (e, walk_from) (subst StopsWithError e (turn-stop node s))
        | inr (inr (reason, e)) ↦ rw (e, walk_from) tt
      ]

  -- A walk that goes on past a node went on at its turn.
  pub walk-cons :
      (node : FlowNode) (order : List FlowNode) (s s' : State W)
      → walk_from host kinds executors graph options props (node ∷ order) s ≡ next s'
      → (m : State W) × (turn host kinds executors graph options props node s ≡ next m)
        × (walk_from host kinds executors graph options props order m ≡ next s')
  unfolding walk_from
  walk-cons node order s s' e =
      elim (Turn-cases (turn host kinds executors graph options props node s)) [
        | inl (m, t) ↦ (m, t, rw (t, walk_from) at e)
        | inr (inl (m, t)) ↦ absurd (ground arith)
        | inr (inr (reason, t)) ↦ absurd (ground arith)
      ]

  pub walk-next :
      (node : FlowNode) (order : List FlowNode) (s m : State W)
      → turn host kinds executors graph options props node s ≡ next m
      → walk_from host kinds executors graph options props (node ∷ order) s
        ≡ walk_from host kinds executors graph options props order m
  unfolding walk_from
  walk-next node order s m e = rw (e, walk_from)
