-- ===== src/Durable/Frontier/Progress.antt =====
-- A run without cycles is never stuck.
use fancy_flow_py.Prelude.{
  ℕ, zero, suc, String, List, [], ◌∷◌, none, some, true, false, ◌==◌, ◌<◌, ◌≡◌, refl, ap, subst,
  arith, contains, distinct, eq_iff, eq_refl, Bool-cases, Option-cases, inl, inr,
}
use fancy_flow_py.Prelude.Dict.{get, keys}
use fancy_flow_py.Graph.{FlowNode, FlowEdge, FlowGraph, ids, all_join, IsWellFormed}
use fancy_flow_py.Topo.Cycles.{Climbs, IsAcyclic}
use fancy_flow_py.Engine.Inputs.{incoming}
use fancy_flow_py.Durable.State.{
  NodeState, NodeRunStatus, Rows, is_settled, is_held, settled_already,
}
use fancy_flow_py.Durable.Frontier.{
  FrontierResult, compute, is_complete, all_settled, has_work_in_flight,
}
use fancy_flow_py.Durable.Frontier.Rule.{waits, IsFrontier}
use fancy_flow_py.Durable.Frontier.Computed.{compute-IsFrontier}

unheld-settled : (row : NodeState) → is_held row.status ≡ false → is_settled row.status ≡ true
unheld-settled row h = status row.status h
  where
    status : (s : NodeRunStatus) → is_held s ≡ false → is_settled s ≡ true
    status NodeRunStatus.claimed h = absurd (cc)
    status NodeRunStatus.paused h = absurd (cc)
    status NodeRunStatus.completed h = refl
    status NodeRunStatus.skipped h = refl
    status NodeRunStatus.failed h = refl

-- With no work in flight every row is settled.
idle-settled :
    (state : Rows) (k : String) (row : NodeState)
    → has_work_in_flight state ≡ false
    → get state k ≡ some row
    → settled_already (get state k) ≡ true
unfolding has_work_in_flight get
idle-settled [] k row h there = absurd (cc)
idle-settled ((j, r) ∷ state) k row h there =
    ground (arith, idle-settled state k row, unheld-settled r)

module _ (graph : FlowGraph) (state : Rows) (rank : String → ℕ) (k : String)
    (below : (j : String)
      → rank j < rank k
      → contains (ids graph.nodes) j ≡ true
      → settled_already (get state j) ≡ true) where
  -- A node waits for none of its sources if the nodes of lower rank are settled.
  waits_for_none :
      (es : List FlowEdge)
      → Climbs rank es
      → all_join graph.nodes es ≡ true
      → waits state [] (incoming es k) ≡ false
  unfolding incoming
  waits_for_none [] c j = refl
  waits_for_none (e ∷ es) c j = elim (Bool-cases (e.target == k)) [
    | inr other ↦ rw (other) (waits_for_none es c.1 (ground arith))
    | inl here ↦
        let lower = subst (λ x. rank e.source < rank x) ((eq_iff e.target k).0 here) c.0 in
        let settled = below e.source lower (ground arith) in
        rw (here) (ground (arith, waits_for_none es c.1))
  ]

module _ (graph : FlowGraph) (state : Rows) (rank : String → ℕ) (climbs : Climbs rank graph.edges)
    (joined : all_join graph.nodes graph.edges ≡ true) (idle : has_work_in_flight state ≡ false)
    (others : (k : String)
      → contains (ids graph.nodes) k ≡ true
      → get state k ≡ none
      → waits state [] (incoming graph.edges k) ≡ true) where
  -- By strong induction on the rank, every node is settled.
  settled_below :
      (bound : ℕ) (k : String)
      → rank k < bound
      → contains (ids graph.nodes) k ≡ true
      → settled_already (get state k) ≡ true
  settled_below zero k low there = absurd (omega (arith, low))
  settled_below (suc bound) k low there = elim (Option-cases (get state k)) [
    | inr (row, found) ↦ idle-settled state k row idle found
    | inl fresh ↦
        let free =
          waits_for_none graph state rank k
            (λ j lower inside. settled_below bound j (omega (arith, low, lower)) inside) graph.edges
            climbs joined in
        absurd (ground (arith, others k there fresh))
  ]

  all_settled-of :
      (nodes : List FlowNode)
      → ((k : String) → contains (ids nodes) k ≡ true → contains (ids graph.nodes) k ≡ true)
      → all_settled nodes state ≡ true
  unfolding all_settled
  all_settled-of [] inside = refl
  all_settled-of (node ∷ nodes) inside =
      let here =
        settled_below (suc (rank node.id)) node.id (omega arith)
          (inside node.id (rw (eq_refl node.id) refl)) in
      rw (here) (all_settled-of nodes (λ k h. inside k (ground arith)))

-- In a well-formed graph without cycles, rows of distinct nodes with no work in flight have an empty
-- frontier only if every node is settled: the run can go on, or it is complete.
pub never_stuck :
    (graph : FlowGraph) (state : Rows) (r : FrontierResult)
    → IsWellFormed graph
    → IsAcyclic graph
    → distinct (keys state) ≡ true
    → has_work_in_flight state ≡ false
    → compute graph state ≡ some r
    → r.ready ≡ []
    → r.skipped ≡ []
    → is_complete graph state ≡ true
unfolding is_complete
never_stuck graph state r wf (rank, climbs) unique idle computed unready unskipped =
    let (r', computed', frontier) = compute-IsFrontier graph state unique in
    let same : r' ≡ r = ground (arith, computed, computed') in
    let frontier' = subst (IsFrontier graph state) same frontier in
    all_settled-of graph state rank climbs wf.edges_join idle
      (λ k inside fresh.
        subst (λ skipped. waits state skipped (incoming graph.edges k) ≡ true) unskipped
          (frontier'.others k inside fresh (ground (arith, ap (λ xs. contains xs k) unready))
            (ground (arith, ap (λ xs. contains xs k) unskipped))))
      graph.nodes (λ k h. h)
