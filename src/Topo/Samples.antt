-- ===== src/Topo/Samples.antt =====
-- Graphs on which `_topo_sort` runs, and its theorems at them.
use fancy_flow_py.Prelude.{String, List, [], ◌∷◌, ◌≡◌, ◌↔◌, refl, none, some, map}
use fancy_flow_py.Value.{null}
use fancy_flow_py.Graph.{FlowNode, FlowEdge, FlowGraph, IsWellFormed}
use fancy_flow_py.Topo.{drained, topo_sort}
use fancy_flow_py.Topo.Loop.{drained_ends}
use fancy_flow_py.Topo.Sorted.{IsPlan, topo_sort-IsPlan}
use fancy_flow_py.Topo.Cycles.{IsAcyclic, topo_sort-some_iff}

abbrev pub plain_node : String → FlowNode
plain_node id = record {
  id = id;
  type = some "transform";
  x = 0;
  y = 0;
  label = none;
  description = none;
  starting_msg = none;
  stopping_msg = none;
  config = [];
  inputs = none;
  outputs = none;
  parent_id = none;
  extent = null;
  width = none;
  height = none;
  style = none;
}

abbrev pub plain_edge : String → String → FlowEdge
plain_edge source target = record {
  id = "e";
  source = source;
  target = target;
  source_handle = none;
  target_handle = none;
  label = none;
}

-- A diamond whose nodes are declared in the reverse of their order.
abbrev pub diamond : FlowGraph
diamond = record {
  nodes = map plain_node ("d" ∷ "c" ∷ "b" ∷ "a" ∷ []);
  edges = plain_edge "a" "b" ∷ plain_edge "a" "c" ∷ plain_edge "b" "d" ∷ plain_edge "c" "d" ∷ [];
  inputs = [];
}

abbrev pub diamond_order : List FlowNode
diamond_order = map plain_node ("a" ∷ "b" ∷ "c" ∷ "d" ∷ [])

pub diamond-sorts : topo_sort diamond ≡ some diamond_order
unfolding topo_sort
diamond-sorts = refl

abbrev two_cycle : FlowGraph
two_cycle = record {
  nodes = map plain_node ("a" ∷ "b" ∷ []);
  edges = plain_edge "a" "b" ∷ plain_edge "b" "a" ∷ [];
  inputs = [];
}

two_cycle_refused : topo_sort two_cycle ≡ none
unfolding topo_sort
two_cycle_refused = refl

-- An edge to a node that does not exist stands in for the node that the cycle keeps back.
abbrev masked_cycle : FlowGraph
masked_cycle = record {
  nodes = map plain_node ("a" ∷ "b" ∷ []);
  edges = plain_edge "a" "x" ∷ plain_edge "b" "b" ∷ [];
  inputs = [];
}

masked_cycle_accepted : topo_sort masked_cycle ≡ some (plain_node "a" ∷ [])
unfolding topo_sort
masked_cycle_accepted = refl

pub diamond-IsWellFormed : IsWellFormed diamond
diamond-IsWellFormed = record { distinct_ids = refl; edges_join = refl }

topo_sort-IsPlan_example : IsPlan diamond diamond_order
topo_sort-IsPlan_example = topo_sort-IsPlan diamond diamond_order diamond-IsWellFormed diamond-sorts

topo_sort-some_iff_example :
    ((order : List FlowNode) × (topo_sort diamond ≡ some order)) ↔ IsAcyclic diamond
topo_sort-some_iff_example = topo_sort-some_iff diamond diamond-IsWellFormed

drained_ends_example : (drained masked_cycle).queue ≡ []
drained_ends_example = drained_ends masked_cycle
