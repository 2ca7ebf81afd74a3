-- ===== src/Workflow/Reading/Joined.antt =====
-- What the graph of an import holds.
use fancy_flow_py.Prelude.{List, [], ◌∷◌, some, Bool, true, >>=-eq-some, ◌≡◌, arith}
use fancy_flow_py.Prelude.Dict.{Dict}
use fancy_flow_py.Value.{Value, as_dict}
use fancy_flow_py.Graph.{FlowNode, FlowEdge, FlowGraph, ids, all_join}
use fancy_flow_py.Issues.{ImportIssue}
use fancy_flow_py.Python.{Conversions, mapping_or_empty, items_or_empty}
use fancy_flow_py.Registry.Catalogue.{NodeKindRegistry}
use fancy_flow_py.Registry.Validation.{read}
use fancy_flow_py.Workflow.Nodes.{read_edge}
use fancy_flow_py.Workflow.Reading.{
  import_nodes, import_edges, add_edge, import_graph, import_raw, import_parts, raw_inputs,
}

add_edge-join :
    (nodes : List FlowNode) (e : FlowEdge) (edges : List FlowEdge) (issues : List ImportIssue)
    → all_join nodes edges ≡ true
    → all_join nodes (add_edge (ids nodes) e (edges, issues)).0 ≡ true
add_edge-join nodes e edges issues h = ground arith

-- The edges that the loop keeps join two of the nodes.
import_edges-join :
    (c : Conversions) (nodes : List FlowNode) (vs : List Value)
    {result : List FlowEdge × List ImportIssue}
    → import_edges c (ids nodes) vs ≡ some result
    → all_join nodes result.0 ≡ true
unfolding import_edges
import_edges-join c nodes [] h = ground arith
import_edges-join c nodes (v ∷ vs) h =
    let (raw, is_dict, h1) = >>=-eq-some (as_dict v) _ h in
    let (rest, tail, h2) = >>=-eq-some (import_edges c (ids nodes) vs) _ h1 in
    ground (
      arith,
      add_edge-join nodes (read_edge c raw) rest.0 rest.1 (import_edges-join c nodes vs tail),
    )

-- An imported graph's edges join two of its nodes.
pub import_graph-join :
    (c : Conversions) (r : NodeKindRegistry) (lenient : Bool) (schema : Dict Value)
    {result : FlowGraph × List ImportIssue}
    → import_graph c r lenient schema ≡ some result
    → all_join result.0.nodes result.0.edges ≡ true
unfolding import_graph import_raw import_parts
import_graph-join c r lenient schema h =
    let (graph, s1, h1) = >>=-eq-some (mapping_or_empty c (read schema "graph")) _ h in
    let (raw_nodes, s2, h2) = >>=-eq-some (items_or_empty c (read graph "nodes")) _ h1 in
    let (raw_edges, s3, h3) = >>=-eq-some (items_or_empty c (read graph "edges")) _ h2 in
    let (nodes, s4, h4) = >>=-eq-some (import_nodes c r lenient raw_nodes) _ h3 in
    let (edges, s5, h5) = >>=-eq-some (import_edges c (ids nodes.0) raw_edges) _ h4 in
    let (inputs, s6, h6) = >>=-eq-some (raw_inputs c schema graph) _ h5 in
    ground (arith, import_edges-join c nodes.0 raw_edges s5)
