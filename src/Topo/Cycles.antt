-- ===== src/Topo/Cycles.antt =====
-- `_topo_sort` refuses a graph exactly when its edges form a cycle.
use fancy_flow_py.Prelude.{
  ℕ, zero, suc, ◌<◌, String, List, [], ◌∷◌, ◌++◌, ◌≡◌, ◌⊎◌, ◌↔◌, subst, arith, sym, ◌∙◌, length,
  some, true, ◌==◌, eq_iff, contains, contains-append, contains-snoc, length-le_of_subset, IsSubset,
  Bool-cases, append-nil, inl, inr, if◌then◌else◌,
}
use fancy_flow_py.Graph.{FlowNode, FlowEdge, FlowGraph, ids, all_join, IsWellFormed}
use fancy_flow_py.Topo.{drained, index_nodes, pick, topo_sort}
use fancy_flow_py.Topo.Count.{IsFed, waiting_of_IsFed}
use fancy_flow_py.Topo.Invariant.{IsOrdered}
use fancy_flow_py.Topo.Start.{targets}
use fancy_flow_py.Topo.Loop.{drained-Inv, drained_ends, length-map}
use fancy_flow_py.Topo.Sorted.{topo_sort-IsPlan, targets-joined, distinct-ordered, ordered-inside}

-- Each edge climbs in `rank`.
abbrev pub Climbs : (String → ℕ) → List FlowEdge → Type 0
Climbs rank [] = Unit
Climbs rank (e ∷ es) = (rank e.source < rank e.target) × Climbs rank es

-- The edges form no cycle: some rank climbs along all of them.
abbrev pub IsAcyclic : FlowGraph → Type 0
IsAcyclic g = (rank : String → ℕ) × Climbs rank g.edges

module _ (ns : List FlowNode) (seen : List String) (rank : String → ℕ) (k : String)
    (below : (j : String)
      → rank j < rank k
      → contains (ids ns) j ≡ true
      → contains seen j ≡ true) where
  IsFed-by_rank : (es : List FlowEdge) → Climbs rank es → all_join ns es ≡ true → IsFed es seen k
  IsFed-by_rank [] c j = tt
  IsFed-by_rank (e ∷ es) c j = (
    λ t. below e.source (subst (λ x. rank e.source < rank x) t c.0) (ground arith),
    IsFed-by_rank es c.1 (ground arith),
  )

module _ (g : FlowGraph) (wf : IsWellFormed g) (rank : String → ℕ)
    (climbs : Climbs rank g.edges) where
  -- By strong induction on the rank, every node is ordered.
  all_ordered :
      (bound : ℕ) (k : String)
      → rank k < bound
      → contains (ids g.nodes) k ≡ true
      → contains (drained g).ordered k ≡ true
  all_ordered zero k h m = absurd (omega arith)
  all_ordered (suc bound) k h m =
      let fed =
        IsFed-by_rank g.nodes (drained g).ordered rank k
          (λ j lower there. all_ordered bound j (omega arith) there) g.edges climbs wf.edges_join in
      let queued =
        (drained-Inv g).counts.queued k
          (ground (arith, contains-append (ids g.nodes) (targets g.edges) k))
          (waiting_of_IsFed g.edges (drained g).ordered k fed) in
      subst (λ ks. contains ks k ≡ true) (append-nil _)
        (subst (λ q. contains ((drained g).ordered ++ q) k ≡ true) (drained_ends g) queued)

  length-ordered : length (drained g).ordered ≡ length g.nodes
  length-ordered = omega (
    arith,
    length-map (λ (n : FlowNode). n.id) g.nodes,
    length-le_of_subset (drained g).ordered (ids g.nodes) (distinct-ordered g wf)
        (ordered-inside g wf),
    length-le_of_subset (ids g.nodes) (drained g).ordered wf.distinct_ids
        (λ k m. all_ordered (suc (rank k)) k (omega arith) m),
  )

  topo_sort-acyclic : (order : List FlowNode) × (topo_sort g ≡ some order)
  unfolding topo_sort
  topo_sort-acyclic =
      (pick (index_nodes g.nodes []) (drained g).ordered, ground (arith, length-ordered))

-- The place of `k` in `ks`.
position : List String → String → ℕ
position [] k = 0
position (j ∷ ks) k = let rest = position ks k in if j == k then 0 else suc rest

IsOrdered-tail :
    (e : FlowEdge) (es : List FlowEdge) (seen ks : List String)
    → IsOrdered (e ∷ es) seen ks
    → IsOrdered es seen ks
IsOrdered-tail e es seen [] h = tt
IsOrdered-tail e es seen (k ∷ ks) h = (h.0.1, IsOrdered-tail e es (seen ++ k ∷ []) ks h.1)

position-lt :
    (e : FlowEdge) (es : List FlowEdge) (seen ks : List String)
    → IsOrdered (e ∷ es) seen ks
    → contains ks e.target ≡ true
    → (contains seen e.source ≡ true) ⊎ (position ks e.source < position ks e.target)
unfolding position
position-lt e es seen [] h m = ground arith
position-lt e es seen (k ∷ ks) h m = elim (Bool-cases (k == e.target)) [
  | inl here ↦ inl (h.0.0 (sym ((eq_iff k e.target).0 here)))
  | inr there ↦ ground (
    arith,
    position-lt e es (seen ++ k ∷ []) ks h.1 (ground arith),
    contains-snoc seen k e.source,
  )
]

Climbs-by_position :
    (es : List FlowEdge) (ks : List String)
    → IsOrdered es [] ks
    → IsSubset (targets es) ks
    → Climbs (position ks) es
Climbs-by_position [] ks h m = tt
Climbs-by_position (e ∷ es) ks h m = (
  elim (position-lt e es [] ks h (m e.target (ground (arith, eq_iff e.target e.target)))) [
    | inl never ↦ absurd (cc)
    | inr lt ↦ lt
  ],
  Climbs-by_position es ks (IsOrdered-tail e es [] ks h) (λ k t. m k (ground arith)),
)

-- A well-formed graph is put in order exactly when its edges form no cycle.
pub topo_sort-some_iff :
    (g : FlowGraph)
    → IsWellFormed g
    → ((order : List FlowNode) × (topo_sort g ≡ some order)) ↔ IsAcyclic g
topo_sort-some_iff g wf = (
  λ (order, e).
      let plan = topo_sort-IsPlan g order wf e in
      (
        position (ids order),
        Climbs-by_position g.edges (ids order) plan.0
            (λ k m. plan.2 k ∙ targets-joined g.nodes g.edges wf.edges_join k m),
      ),
  λ (rank, climbs). topo_sort-acyclic g wf rank climbs,
)
