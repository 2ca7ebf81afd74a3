-- ===== src/Policy/Imported.antt =====
-- A graph that is imported from a document that the policy accepted: src/fancy_flow/security/policy.py
-- before src/fancy_flow/workflow.py.
use Prim.Native.String.{◌++◌ as append}
use fancy_flow_py.Prelude.{
  String, List, [], ◌∷◌, Option, none, some, Bool, true, not, ◌&&◌, ◌==◌, ◌≡◌, refl, sym, ◌∙◌, ap,
  subst, arith, distinct, or_else, if◌then◌else◌, ◌>>=◌, >>=-eq-some, Bool-cases, Option-cases, inl,
  inr,
}
use fancy_flow_py.Prelude.Dict.{Dict, get}
use fancy_flow_py.Value.{
  Value, Items, Fields, null, bool, int, float, str, list, tuple, dict, as_dict, as_str, entries,
  to_list,
}
use fancy_flow_py.Graph.{FlowNode, FlowGraph, ids, IsWellFormed}
use fancy_flow_py.Issues.{ImportIssue, ImportResult, any_error}
use fancy_flow_py.Python.{Conversions, mapping_or_empty, items_or_empty, text_of}
use fancy_flow_py.Registry.NodeKind.{NodeKind}
use fancy_flow_py.Registry.Catalogue.{NodeKindRegistry, get as get_kind}
use fancy_flow_py.Registry.Validation.{read}
use fancy_flow_py.Workflow.Migration.{migrate_schema-nil, is_current_version}
use fancy_flow_py.Workflow.Nodes.{
  text_or, read_config, read_node, float_or_zero, read_label, opt_float,
}
use fancy_flow_py.Workflow.Reading.{
  refusal, empty_graph, node_issues, import_object, import_node, import_nodes, import_edges,
  raw_inputs, import_graph, import_raw, import_parts, import_current, import_workflow, as_schema,
}
use fancy_flow_py.Workflow.Reading.Joined.{import_graph-join}
use fancy_flow_py.Policy.Limits.{GraphPolicy, Encoder}
use fancy_flow_py.Policy.Inspect.{graph_of, list_items, id_text, assert_safe}
use fancy_flow_py.Policy.Walked.{id_texts, all_safe, is_safe_node-parts}
use fancy_flow_py.Policy.Accepted.{is_safe-nodes, assert_safe_iff}

-- A node's id is the text of the document's.
read_node-id :
    (c : Conversions) (kind : Option NodeKind) (name : String) (config raw : Dict Value)
    {node : FlowNode}
    → read_node c kind name config raw ≡ some node
    → (v : Value) × (get raw "id" ≡ some v) × (node.id ≡ text_of c v)
unfolding read_node
read_node-id c kind name config raw h =
    let (position, s1, h1) = >>=-eq-some (mapping_or_empty c (read raw "position")) _ h in
    let (id, s2, h2) = >>=-eq-some (get raw "id") _ h1 in
    let (x, s3, h3) = >>=-eq-some (float_or_zero c position "x") _ h2 in
    let (y, s4, h4) = >>=-eq-some (float_or_zero c position "y") _ h3 in
    let (label, s5, h5) = >>=-eq-some (read_label c kind name raw) _ h4 in
    let (width, s6, h6) = >>=-eq-some (opt_float c raw "width") _ h5 in
    let (height, s7, h7) = >>=-eq-some (opt_float c raw "height") _ h6 in
    (id, s2, ap (λ o. elim o [ none ↦ text_of c id | some n ↦ n.id ]) (sym h7))

abbrev named : Value → Option String
named w = elim (as_str w) [ none ↦ none | some t ↦ if t == "" then none else some t ]

abbrev id_of : Option (Dict Value) → Option String
id_of none = none
id_of (some raw) = named (read raw "id")

text_of-str : (c : Conversions) (w : Value) (s : String) → named w ≡ some s → text_of c w ≡ s
unfolding text_of
text_of-str c (str t) s h = ground arith
text_of-str c null s h = absurd (cc)
text_of-str c (bool b) s h = absurd (cc)
text_of-str c (int n) s h = absurd (cc)
text_of-str c (float x) s h = absurd (cc)
text_of-str c (list vs) s h = absurd (cc)
text_of-str c (tuple vs) s h = absurd (cc)
text_of-str c (dict fs) s h = absurd (cc)
text_of-str c (Value.object t n) s h = absurd (cc)

-- The id that the policy reads is the one that the import reads.
id_text-get :
    (c : Conversions) (v : Value) (raw : Dict Value) (s : String) {w : Value}
    → as_dict v ≡ some raw
    → id_text v ≡ some s
    → get raw "id" ≡ some w
    → text_of c w ≡ s
unfolding id_text text_of
id_text-get c v raw s {w} is_object h found = text_of-str c w s (
    subst (λ o. named (elim o [ none ↦ null | some u ↦ u ]) ≡ some s) found
      (subst (λ o. id_of o ≡ some s) is_object h))

import_node-id :
    (c : Conversions) (r : NodeKindRegistry) (lenient : Bool) (v : Value) (raw : Dict Value)
    (s : String) {result : FlowNode × List ImportIssue}
    → import_node c r lenient v ≡ some result
    → as_dict v ≡ some raw
    → id_text v ≡ some s
    → result.0.id ≡ s
unfolding import_node import_object
import_node-id c r lenient v raw s {result} h is_object has_id =
    let name = text_or c raw "kind" "" in
    let kind = get_kind r name in
    let k1 =
      subst (λ o. elim o [ none ↦ none | some x ↦ import_object c r lenient x ] ≡ some result)
        is_object h in
    let (config, t1, k2) = >>=-eq-some (read_config c kind raw) _ k1 in
    let (issues, t2, k3) =
      >>=-eq-some (node_issues c r lenient kind name config (read raw "id")) _ k2 in
    let (node, t3, k4) = >>=-eq-some (read_node c kind name config raw) _ k3 in
    let (w, found, id_is) = read_node-id c kind name config raw t3 in
    ap (λ o. elim o [ none ↦ s | some first ↦ first.0.id ]) (sym k4)
    ∙ (id_is ∙ id_text-get c v raw s is_object has_id found)

-- The ids of the imported nodes are those of the document's.
import_nodes-ids :
    (c : Conversions) (r : NodeKindRegistry) (lenient : Bool) (enc : Encoder)
    (index : Dict (List String)) (p : GraphPolicy) (vs : List Value)
    {result : List FlowNode × List ImportIssue}
    → import_nodes c r lenient vs ≡ some result
    → all_safe c enc index p vs ≡ true
    → ids result.0 ≡ id_texts vs
unfolding import_nodes
import_nodes-ids c r lenient enc index p [] h safe =
    ap (λ o. elim o [ none ↦ [] | some result ↦ ids result.0 ]) (sym h)
import_nodes-ids c r lenient enc index p (v ∷ vs) h safe =
    let (first, one, h1) = >>=-eq-some (import_node c r lenient v) _ h in
    let (rest, others, h2) = >>=-eq-some (import_nodes c r lenient vs) _ h1 in
    let (raw, s, is_object, has_id) = is_safe_node-parts c enc index p v (ground (arith, safe)) in
    let head = import_node-id c r lenient v raw s one is_object has_id in
    let tail = import_nodes-ids c r lenient enc index p vs others (ground (arith, safe)) in
    ap (λ o. elim o [ none ↦ [] | some result ↦ ids result.0 ]) (sym h2)
    ∙ rw (has_id, head, tail) refl

module _ (c : Conversions) (r : NodeKindRegistry) (lenient : Bool) (enc : Encoder)
    (index : Dict (List String)) (p : GraphPolicy) (schema gs : Fields) (vs : Items)
    (has_graph : read (entries schema) "graph" ≡ dict gs)
    (has_nodes : read (entries gs) "nodes" ≡ list vs) where
  nodes_of : list_items (read (graph_of (entries schema)) "nodes") ≡ to_list vs
  unfolding graph_of list_items
  nodes_of =
      subst (λ v. list_items (read (or_else (as_dict v) (entries schema)) "nodes") ≡ to_list vs)
        (sym has_graph) (ap list_items has_nodes)

  -- What an accepted schema's nodes are.
  accepted_nodes :
      assert_safe c enc index p (entries schema) ≡ none
      → (all_safe c enc index p (to_list vs) && distinct (id_texts (to_list vs))) ≡ true
  accepted_nodes accepted =
      subst (λ ns. (all_safe c enc index p ns && distinct (id_texts ns)) ≡ true) nodes_of
        (is_safe-nodes c enc index p (entries schema)
          (ground (arith, assert_safe_iff c enc index p (entries schema), accepted)))

  import_graph-ids :
      {result : FlowGraph × List ImportIssue}
      → import_graph c r lenient (entries schema) ≡ some result
      → all_safe c enc index p (to_list vs) ≡ true
      → ids result.0.nodes ≡ id_texts (to_list vs)
  unfolding import_graph import_raw import_parts mapping_or_empty items_or_empty
  import_graph-ids {result} h safe =
      let h1 =
        subst
          (λ v.
            (mapping_or_empty c v >>= λ graph. import_raw c r lenient (entries schema) graph)
            ≡ some result)
          has_graph h in
      let h2 =
        subst
          (λ v.
            (items_or_empty c v >>= λ raw.
            import_parts c r lenient (entries schema) (entries gs) raw)
            ≡ some result)
          has_nodes h1 in
      let (raw_edges, s3, h3) = >>=-eq-some (items_or_empty c (read (entries gs) "edges")) _ h2 in
      let (nodes, s4, h4) = >>=-eq-some (import_nodes c r lenient (to_list vs)) _ h3 in
      let (edges, s5, h5) = >>=-eq-some (import_edges c (ids nodes.0) raw_edges) _ h4 in
      let (inputs, s6, h6) = >>=-eq-some (raw_inputs c (entries schema) (entries gs)) _ h5 in
      ap (λ o. elim o [ none ↦ ids nodes.0 | some result ↦ ids result.0.nodes ]) (sym h6)
      ∙ import_nodes-ids c r lenient enc index p (to_list vs) s4 safe

  import_current-IsWellFormed :
      {result : ImportResult}
      → assert_safe c enc index p (entries schema) ≡ none
      → import_current c r lenient (entries schema) ≡ some result
      → IsWellFormed result.graph
  unfolding import_current
  import_current-IsWellFormed {result} accepted h =
      elim (Bool-cases (is_current_version c.is_one_float (get (entries schema) "version"))) [
        | inr other ↦
            let made = subst (λ b. chosen b ≡ some result) other h in
            let well : IsWellFormed empty_graph = record {
              distinct_ids = refl;
              edges_join = refl;
            } in
            subst IsWellFormed (ap graph_in made) well
        | inl current ↦ elim (Option-cases (import_graph c r lenient (entries schema))) [
          | inl raised ↦ absurd (ground (arith, raised, current))
          | inr (parts, found) ↦
              let same = import_graph-ids found (ground (arith, accepted_nodes accepted)) in
              let well : IsWellFormed parts.0 = record {
                distinct_ids = ap distinct same ∙ ground (arith, accepted_nodes accepted);
                edges_join = import_graph-join c r lenient (entries schema) found;
              } in
              let made =
                subst (λ o. imported o ≡ some result) found
                  (subst (λ b. chosen b ≡ some result) current h) in
              subst IsWellFormed (ap graph_in made) well
        ]
      ]
    where
      graph_in : Option ImportResult → FlowGraph
      graph_in none = empty_graph
      graph_in (some result) = result.graph

      imported : Option (FlowGraph × List ImportIssue) → Option ImportResult
      imported none = none
      imported (some (graph, issues)) =
          some (record { ok = not (any_error issues); graph = graph; issues = issues })

      chosen : Bool → Option ImportResult
      chosen b =
          if b
          then imported (import_graph c r lenient (entries schema))
          else some (
              refusal (
                append "Unsupported workflow schema version: "
                  (append (c.repr (read (entries schema) "version")) " (expected 1)")))

  -- The graph that is imported from a document that the policy accepted has distinct node ids and only
  -- edges that join two of its nodes, in either mode, with any registry and any policy, when the
  -- document holds its nodes as a list in an object under `graph`.
  pub import_workflow-IsWellFormed :
      (loads : String → Option Value) {result : ImportResult}
      → assert_safe c enc index p (entries schema) ≡ none
      → import_workflow c loads r lenient (dict schema) ≡ some result
      → IsWellFormed result.graph
  unfolding import_workflow as_schema
  import_workflow-IsWellFormed loads {result} accepted h = import_current-IsWellFormed accepted (
      subst (λ d. import_current c r lenient d ≡ some result) (migrate_schema-nil (entries schema))
        h)
