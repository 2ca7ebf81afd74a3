-- ===== src/Workflow/RoundTrip.antt =====
-- A graph survives its document: `export_workflow` and then `import_workflow` of
-- src/fancy_flow/workflow.py.
pub mod Fields
pub mod Nodes
use fancy_flow_py.Prelude.{
  ℕ, String, List, [], ◌∷◌, ◌++◌, Option, none, some, Bool, true, false, not, ◌&&◌, ◌||◌, ◌==◌,
  if◌then◌else◌, ◌≡◌, refl, sym, ◌∙◌, ap, arith, subst, eq_iff, eq_refl, or_else, ◌>>=◌,
  >>=-eq-some, is_some, map, contains, ℤ, pos, Option-cases, inl, inr,
}
use fancy_flow_py.Prelude.Dict.{Dict, get, get-put}
use fancy_flow_py.Value.{
  Value, Float, float, int, str, list, dict, entries, of_entries, of_list, to_list,
  entries-of_entries, as_dict, as_str, is_present, to_list-of_list,
}
use fancy_flow_py.Graph.{FlowNode, FlowEdge, FlowGraph, ids, joins, all_join}
use fancy_flow_py.Issues.{ImportIssue, ImportResult, any_error}
use fancy_flow_py.Python.{Conversions, mapping_or_empty, items_or_empty, is_true, text_of}
use fancy_flow_py.Registry.NodeKind.{NodeKind}
use fancy_flow_py.Registry.Catalogue.{NodeKindRegistry, get as get_kind, default_config_for}
use fancy_flow_py.Registry.Validation.{read, validate_config}
use fancy_flow_py.Workflow.Nodes.{
  float_or_zero, default_label, read_label, read_config, read_node, opt_text, opt_float, ports_from,
  text_or, read_edge,
}
use fancy_flow_py.Workflow.Reading.{
  node_issues, import_object, import_node, import_nodes, add_edge, import_edges, is_declaration,
  declarations, raw_inputs, items_of, import_parts, import_raw, import_graph, import_current,
  import_workflow, as_schema,
}
use fancy_flow_py.Workflow.Writing.{
  WorkflowMetadata, message_field, str_of, kind_field, node_to_schema, edge_to_schema, object_of,
  objects, inputs_field, graph_to_schema, export_workflow, position, filled,
}
use fancy_flow_py.Connectivity.{check_graph_connectivity}
use fancy_flow_py.Workflow.Migration.{migrate_schema, migrate_schema-nil}
use Fields.{
  get-put_some, over-none, value, id_written, kind_written, position_written, label_written,
  description_written, starting_msg_written, stopping_msg_written, config_written,
  parent_id_written, extent_written, width_written, height_written, style_written, inputs_written,
  outputs_written, opt_text-str_of, text_or-str, opt_float-float_of, read_edge-edge_to_schema,
  ports_from-ports_field, read-present, is_kept, as_dict-filled,
}
use Nodes.{
  IsPortable, ArePortable, no_nodes, and_node, all_declared, read_node-written, read_config-written,
  name_read,
}

ruleset exported = (get-put_some, over-none, get-put)

module _ (c : Conversions) (r : NodeKindRegistry) (lenient : Bool)
    (floats : (x : Float) → c.float_of (float x) ≡ some x) where
  -- A loop turn at a node's document gives the node back, with some issues.
  import_node-written :
      (n : FlowNode)
      → IsPortable c r lenient n
      → (issues : List ImportIssue) × (import_node c r lenient (object_of (node_to_schema n))
          ≡ some (n, issues))
  unfolding import_node import_object of_entries
  import_node-written n ok =
      let d = node_to_schema n in
      elim (Option-cases
        (node_issues c r lenient (get_kind r ok.name) ok.name n.config (str n.id))) [
          | inl none_there ↦ absurd (ground (arith, none_there, ok.checked))
          | inr (issues, found) ↦ (
            issues,
            ap (import_object c r lenient) (entries-of_entries d)
                ∙ rw
                    (
                      import_object,
                      name_read c n ok.name ok.label ok.writable,
                      read_config-written c (get_kind r ok.name) n ok.configured,
                      ap (node_issues c r lenient (get_kind r ok.name) ok.name n.config)
                            (ap value (id_written n))
                          ∙ found,
                      read_node-written c floats (get_kind r ok.name) n ok.name ok.label
                          ok.writable,
                    )
                    refl,
          )
        ]

  import_nodes-written :
      {ns : List FlowNode}
      → ArePortable c r lenient ns
      → (issues : List ImportIssue) × (import_nodes c r lenient
            (map object_of (map node_to_schema ns))
          ≡ some (ns, issues))
  unfolding import_nodes
  import_nodes-written no_nodes = ([], refl)
  import_nodes-written (and_node {n} {ns} ok rest) =
      let (issues, first) = import_node-written n ok in
      let (more, others) = import_nodes-written rest in
      (issues ++ more, rw (import_nodes, first, others) refl)

  add_edge-kept :
      (nodes : List FlowNode) (e : FlowEdge) (es : List FlowEdge)
      → joins nodes e ≡ true
      → add_edge (ids nodes) e (es, []) ≡ (e ∷ es, [])
  add_edge-kept nodes e es joined = ground (arith, joined)

  import_edges-written :
      (nodes : List FlowNode) (es : List FlowEdge)
      → all_join nodes es ≡ true
      → import_edges c (ids nodes) (map object_of (map edge_to_schema es)) ≡ some (es, [])
  unfolding import_edges of_entries
  import_edges-written nodes [] joined = refl
  import_edges-written nodes (e ∷ es) joined =
      let d = edge_to_schema e in
      ap
        (λ o. o >>= λ rest. some (add_edge (ids nodes) (read_edge c (entries (of_entries d))) rest))
        (import_edges-written nodes es (ground (arith, joined)))
      ∙ (ap (λ f. some (add_edge (ids nodes) f (es, [])))
            (ap (read_edge c) (entries-of_entries d) ∙ read_edge-edge_to_schema c e)
          ∙ ap some (add_edge-kept nodes e es (ground (arith, joined))))

  declarations-written :
      (ds : List (Dict Value)) → all_declared ds ≡ true → declarations (map object_of ds) ≡ ds
  unfolding declarations of_entries
  declarations-written [] ok = refl
  declarations-written (d ∷ ds) ok =
      let rest = declarations (map object_of ds) in
      ap (λ e. if is_declaration e then e ∷ rest else rest) (entries-of_entries d)
      ∙ kept d ds rest (ground (arith, ok)) (declarations-written ds (ground (arith, ok)))
    where
      kept :
          (d : Dict Value) (ds rest : List (Dict Value))
          → is_declaration d ≡ true
          → rest ≡ ds
          → (if is_declaration d then d ∷ rest else rest) ≡ d ∷ ds
      kept d ds rest ok same = rw (ok, same) refl

  module _ (now : ℤ) (g : FlowGraph) (metadata : Option WorkflowMetadata)
      (view : Option Value) where
    abbrev schema : Dict Value
    schema = export_workflow now g metadata view

    abbrev node_values : List Value
    node_values = map object_of (map node_to_schema g.nodes)

    abbrev edge_values : List Value
    edge_values = map object_of (map edge_to_schema g.edges)

    abbrev parts : Dict Value
    parts = ("nodes", list (of_list node_values)) ∷ ("edges", list (of_list edge_values)) ∷ []

    version_written : get schema "version" ≡ some (int (pos 1))
    unfolding export_workflow get
    version_written = simp exported refl

    graph_written : get schema "graph" ≡ some (graph_to_schema g)
    unfolding export_workflow get
    graph_written = simp exported refl

    declared_written : get schema "inputs" ≡ inputs_field g.inputs
    unfolding export_workflow get
    declared_written = simp exported refl

    graph_read : mapping_or_empty c (read schema "graph") ≡ some parts
    unfolding mapping_or_empty graph_to_schema of_entries
    graph_read = ap (λ o. mapping_or_empty c (value o)) graph_written

    nodes_read : items_or_empty c (read parts "nodes") ≡ some node_values
    unfolding items_or_empty get
    nodes_read = ap some (to_list-of_list node_values)

    edges_read : items_or_empty c (read parts "edges") ≡ some edge_values
    unfolding items_or_empty get
    edges_read = ap some (to_list-of_list edge_values)

    declared_read : raw_inputs c schema parts ≡ some (map object_of g.inputs)
    unfolding raw_inputs items_of items_or_empty of_list get
    declared_read = ap (λ o. from_value (value o)) declared_written ∙ listed g.inputs
      where
        from_value : Value → Option (List Value)
        from_value v = elim v [ list vs ↦ some (to_list vs) | _ ↦ items_of c (read parts "inputs") ]

        listed :
            (ds : List (Dict Value))
            → from_value (value (inputs_field ds)) ≡ some (map object_of ds)
        listed [] = refl
        listed (d ∷ ds) = ap some (to_list-of_list (map object_of (d ∷ ds)))

    parts_read :
        (issues : List ImportIssue) (graph : Dict Value)
        → import_nodes c r lenient node_values ≡ some (g.nodes, issues)
        → items_or_empty c (read graph "edges") ≡ some edge_values
        → raw_inputs c schema graph ≡ some (map object_of g.inputs)
        → all_join g.nodes g.edges ≡ true
        → all_declared g.inputs ≡ true
        → import_parts c r lenient schema graph node_values
          ≡ some (g, issues ++ check_graph_connectivity r g.nodes g.edges)
    unfolding import_parts
    parts_read issues graph nodes_are edges_are inputs_are joined declared =
        rw
          (
            import_parts,
            edges_are,
            nodes_are,
            import_edges-written g.nodes g.edges joined,
            inputs_are,
            declarations-written g.inputs declared,
          )
          refl

    import_graph-export :
        ArePortable c r lenient g.nodes
        → all_join g.nodes g.edges ≡ true
        → all_declared g.inputs ≡ true
        → (issues : List ImportIssue) × (import_graph c r lenient schema ≡ some (g, issues))
    unfolding import_graph import_raw
    import_graph-export portable joined declared =
        let (issues, nodes_are) = import_nodes-written portable in
        (
          issues ++ check_graph_connectivity r g.nodes g.edges,
          ap (λ o. o >>= λ graph. import_raw c r lenient schema graph) graph_read
              ∙ (ap (λ o. o >>= λ raw_nodes. import_parts c r lenient schema parts raw_nodes)
                    nodes_read
                  ∙ parts_read issues parts nodes_are edges_read declared_read joined declared),
        )

    -- A document that the export writes, at any time, with any metadata and any view, is read back,
    -- in either mode, as the graph that was written: if each node has a type and a label that are
    -- filled, no blank message, no empty style and no empty config where its kind has defaults, if the
    -- registry can check the configs, if the edges join the nodes, and if the declared inputs have names.
    pub import_workflow-export_workflow :
        (loads : String → Option Value)
        → ArePortable c r lenient g.nodes
        → all_join g.nodes g.edges ≡ true
        → all_declared g.inputs ≡ true
        → (result : ImportResult) × (import_workflow c loads r lenient (object_of schema)
            ≡ some result)
          × (result.graph ≡ g)
    unfolding import_workflow import_current as_schema
    import_workflow-export_workflow loads portable joined declared =
        let (issues, read_back) = import_graph-export portable joined declared in
        (
          record { ok = not (any_error issues); graph = g; issues = issues },
          ap (λ d. import_current c r lenient (migrate_schema [] d)) (entries-of_entries schema)
              ∙ (ap (import_current c r lenient) (migrate_schema-nil schema)
                  ∙ rw (import_current, version_written, read_back) refl),
          refl,
        )
