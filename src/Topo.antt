-- ===== src/Topo.antt =====
-- `_topo_sort` of src/fancy_flow/engine/runner.py: Kahn's algorithm over in-degrees.
pub mod Count
pub mod Invariant
pub mod Start
pub mod Loop
pub mod Sorted
pub mod Cycles
pub mod Samples
use fancy_flow_py.Prelude.{
  ℕ, zero, suc, ◌+◌, String, List, [], ◌∷◌, ◌++◌, Option, none, some, Bool, ◌==◌, map, length, eqb,
  if◌then◌else◌, or_else, ℤ, pos, increment, decrement, is_zero,
}
use fancy_flow_py.Prelude.Dict.{Dict, get, put}
use fancy_flow_py.Graph.{FlowNode, FlowEdge, FlowGraph}

abbrev pub Degrees : Type 0
Degrees = Dict ℤ

-- in_degree.get(k, 0)
abbrev pub degree : Degrees → String → ℤ
degree d k = or_else (get d k) (pos 0)

-- { node.id: 0 for node in graph.nodes }
unfoldable pub zeros : List FlowNode → Degrees → Degrees
unfolding put
zeros [] d = d
zeros (n ∷ ns) d = zeros ns (put d n.id (pos 0))

-- for edge in graph.edges: in_degree[edge.target] = in_degree.get(edge.target, 0) + 1
unfoldable pub count_targets : List FlowEdge → Degrees → Degrees
unfolding put get increment
count_targets [] d = d
count_targets (e ∷ es) d = count_targets es (put d e.target (increment (degree d e.target)))

-- [node_id for node_id, degree in in_degree.items() if degree == 0]
unfoldable pub roots : Degrees → List String
unfolding is_zero
roots [] = []
roots ((k, n) ∷ d) = let rest = roots d in if is_zero n then k ∷ rest else rest

-- The variables of the `while` loop.
pub record Kahn : Type 0 where
  pub in_degree : Degrees
  pub queue : List String
  pub ordered : List String

-- The body of the inner loop for an edge that leaves the popped node.
unfoldable pub relax : FlowEdge → Kahn → Kahn
unfolding put get decrement is_zero
relax e s =
    let nxt = decrement (degree s.in_degree e.target) in
    record s {
      in_degree = put s.in_degree e.target nxt;
      queue = if is_zero nxt then s.queue ++ e.target ∷ [] else s.queue;
    }

-- for edge in graph.edges
unfoldable pub relax_all : String → List FlowEdge → Kahn → Kahn
unfolding relax
relax_all node_id [] s = s
relax_all node_id (e ∷ es) s = relax_all node_id es (if e.source == node_id then relax e s else s)

-- One round: the head of the queue is popped and its edges are followed.
unfoldable pub round : List FlowEdge → Kahn → String → List String → Kahn
unfolding relax_all
round edges s node_id rest =
    relax_all node_id edges (record s { queue = rest; ordered = s.ordered ++ node_id ∷ [] })

-- while queue. `sort_fuel` below is enough fuel for every graph.
unfoldable pub drain : ℕ → List FlowEdge → Kahn → Kahn
unfolding round
drain zero edges s = s
drain (suc fuel) edges s = elim s.queue [
  | [] ↦ s
  | node_id ∷ rest ↦ drain fuel edges (round edges s node_id rest)
]

unfoldable pub start : FlowGraph → Kahn
unfolding zeros count_targets roots
start g =
    let in_degree = count_targets g.edges (zeros g.nodes []) in
    record { in_degree = in_degree; queue = roots in_degree; ordered = [] }

abbrev pub sort_fuel : FlowGraph → ℕ
sort_fuel g = length g.nodes + length g.edges

-- The state in which the `while` loop leaves.
unfoldable pub drained : FlowGraph → Kahn
unfolding drain start
drained g = drain (sort_fuel g) g.edges (start g)

-- { node.id: node for node in graph.nodes }
unfoldable pub index_nodes : List FlowNode → Dict FlowNode → Dict FlowNode
unfolding put
index_nodes [] d = d
index_nodes (n ∷ ns) d = index_nodes ns (put d n.id n)

-- [by_id[node_id] for node_id in ordered if node_id in by_id]
unfoldable pub pick : Dict FlowNode → List String → List FlowNode
unfolding get
pick by_id [] = []
pick by_id (k ∷ ks) =
    let rest = pick by_id ks in elim (get by_id k) [ none ↦ rest | some n ↦ n ∷ rest ]

unfoldable pub topo_sort : FlowGraph → Option (List FlowNode)
unfolding drained index_nodes pick
topo_sort g =
    let ordered = (drained g).ordered in
    if eqb (length ordered) (length g.nodes)
    then some (pick (index_nodes g.nodes []) ordered)
    else none
