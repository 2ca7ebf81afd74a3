-- ===== src/Policy/Samples.antt =====
-- Documents, and the theorems about their checks, their reading and their writing at them.
use Prim.Native.String.{◌++◌ as append}
use fancy_flow_py.Prelude.{
  String, List, [], ◌∷◌, Option, none, some, true, false, not, ◌≡◌, refl, ◌⊎◌, pos, negsuc, is_some,
  contains,
}
use fancy_flow_py.Prelude.Dict.{Dict, get}
use fancy_flow_py.Value.{
  Value, Float, Items, Fields, null, int, float, str, list, dict, entries, of_list,
}
use fancy_flow_py.Graph.{FlowNode, FlowGraph, IsWellFormed}
use fancy_flow_py.Issues.{ImportResult, any_error}
use fancy_flow_py.Python.{Conversions}
use fancy_flow_py.Connectivity.{check_graph_connectivity}
use fancy_flow_py.Registry.Catalogue.{default_config_for, get as get_kind}
use fancy_flow_py.Topo.Samples.{plain_node, plain_edge}
use fancy_flow_py.Durable.Samples.{kinds}
use fancy_flow_py.Registry.NodeKind.{FieldSpec, ConfigFields, config_field}
use fancy_flow_py.Registry.Validation.{validate_field, validate_config, Verdict}
use fancy_flow_py.Registry.Validation.Rows.{validate_field-offending_row}
use fancy_flow_py.Workflow.Migration.{
  Steps, below, distance, IsSettled, migrate_schema, migrate_schema-IsSettled,
}
use fancy_flow_py.Workflow.Reading.{import_workflow, node_issues}
use fancy_flow_py.Workflow.Writing.{export_workflow, object_of, message_field}
use fancy_flow_py.Workflow.RoundTrip.{import_workflow-export_workflow}
use fancy_flow_py.Workflow.RoundTrip.Nodes.{IsPortable, no_nodes, and_node}
use fancy_flow_py.Policy.Limits.{Encoder, default_policy, deny_kinds, untrusted}
use fancy_flow_py.Policy.Checks.{kind_issues, names_of}
use fancy_flow_py.Policy.Inspect.{list_items, graph_of, kind_text, assert_safe}
use fancy_flow_py.Policy.Accepted.{is_safe, assert_safe_iff}
use fancy_flow_py.Registry.KindId.{bare}
use fancy_flow_py.Registry.Builtin.{kind_id_index}
use fancy_flow_py.Policy.Renamed.{renamed_kind_passes}
use fancy_flow_py.Policy.Kinds.{deny_kinds-refused, untrusted-refuses}
use fancy_flow_py.Policy.Imported.{import_workflow-IsWellFormed}

abbrev read_float : Value → Option Float
read_float (float x) = some x
read_float v = none

abbrev plain_conversions : Conversions
plain_conversions = record {
  text = λ v. "?";
  repr = λ v. "?";
  float_of = read_float;
  int_of = λ v. none;
  zero_float = 0;
  is_zero_float = λ x. false;
  is_one_float = λ x. false;
  is_finite = λ x. true;
  below = λ v x. false;
  above = λ v x. false;
  is_whole = λ x. true;
  whole_text = λ x. "?";
  float_text = λ x. "?";
  decimal = λ n. "#";
}

floats : (x : Float) → plain_conversions.float_of (float x) ≡ some x
floats x = refl

abbrev field_spec : String → String → FieldSpec
field_spec type key = record {
  type = type;
  key = key;
  label = key;
  required = true;
  default = none;
  description = none;
  options = [];
  min = none;
  max = none;
  step = none;
  placeholder = none;
  example = none;
  credential_type = none;
  rows = none;
  language = none;
  title_key = none;
  add_label = none;
  min_items = some 1;
  max_items = none;
  skip_blank_rows = true;
}

abbrev row_fields : ConfigFields
row_fields =
    ConfigFields.cons (config_field (field_spec "text" "key") ConfigFields.nil) (
      ConfigFields.cons (config_field (field_spec "json" "value") ConfigFields.nil)
        ConfigFields.nil)

abbrev bad_row : Fields
bad_row = Fields.field "key" (str "k") Fields.end

validate_field-offending_row_example :
    validate_field plain_conversions
      (config_field (field_spec "repeater" "fields") row_fields)
      (list (of_list (dict Fields.end ∷ dict bad_row ∷ null ∷ [])))
    ≡ Verdict.message (append (append "fields item #" ": ") "value is required")
unfolding validate_field entries get
validate_field-offending_row_example =
    validate_field-offending_row plain_conversions (field_spec "repeater" "fields") row_fields
      (dict Fields.end ∷ []) (null ∷ []) bad_row "value is required" refl refl refl refl refl refl

abbrev older : Dict Value
older = ("version", int (negsuc 0)) ∷ []

abbrev two_steps : Steps
two_steps = (pos 0, λ d. ("kind", null) ∷ d) ∷ (negsuc 0, λ d. ("title", null) ∷ d) ∷ []

migrate_schema-IsSettled_example :
    ((distance (negsuc 0) ≡ 0) × (migrate_schema two_steps older ≡ older))
    ⊎ ((below (distance (negsuc 0)) ≡ negsuc 0)
        × IsSettled two_steps (distance (negsuc 0)) older (migrate_schema two_steps older))
unfolding get
migrate_schema-IsSettled_example = migrate_schema-IsSettled two_steps older (negsuc 0) refl

abbrev node_fields : String → String → Fields
node_fields id kind = Fields.field "id" (str id) (Fields.field "kind" (str kind) Fields.end)

abbrev two_nodes : Items
two_nodes =
    Items.cons (dict (node_fields "a" "transform"))
      (Items.cons (dict (node_fields "b" "@fancy/transform")) Items.nil)

abbrev graph_fields : Fields
graph_fields = Fields.field "nodes" (list two_nodes) Fields.end

abbrev document : Fields
document =
    Fields.field "version" (int (pos 1)) (Fields.field "graph" (dict graph_fields) Fields.end)

abbrev encoder : Encoder
encoder = record { encoded_size = λ d. some 100; is_encodable = λ s. true }

abbrev index : Dict (List String)
index = ("transform", "@particle-academy/transform" ∷ "transform" ∷ "@fancy/transform" ∷ []) ∷ []

assert_safe_iff_example :
    is_some (assert_safe plain_conversions encoder index default_policy (entries document))
    ≡ not (is_safe plain_conversions encoder index default_policy (entries document))
assert_safe_iff_example =
    assert_safe_iff plain_conversions encoder index default_policy (entries document)

deny_kinds-refused_example :
    is_some (
      assert_safe plain_conversions encoder index
        (deny_kinds default_policy ("@particle-academy/transform" ∷ []))
        (entries document))
    ≡ true
unfolding entries get list_items graph_of kind_text names_of
deny_kinds-refused_example =
    deny_kinds-refused plain_conversions encoder index default_policy
      ("@particle-academy/transform" ∷ []) "@particle-academy/transform" "@fancy/transform"
      (entries document) (dict (node_fields "a" "transform") ∷ [])
      (node_fields "b" "@fancy/transform") [] refl refl refl refl

untrusted-refuses_example :
    is_some (assert_safe plain_conversions encoder index (untrusted none) (entries document)) ≡ true
unfolding entries get list_items graph_of
untrusted-refuses_example =
    untrusted-refuses plain_conversions encoder index (entries document)
      (dict (node_fields "a" "transform")) (dict (node_fields "b" "@fancy/transform") ∷ []) refl

abbrev joined_nodes : Items
joined_nodes =
    Items.cons (dict (node_fields "a" "transform"))
      (Items.cons (dict (node_fields "b" "transform")) Items.nil)

abbrev edge_fields : Fields
edge_fields =
    Fields.field "id" (str "e")
      (Fields.field "source" (str "a") (Fields.field "target" (str "b") Fields.end))

abbrev joined_graph : Fields
joined_graph =
    Fields.field "nodes" (list joined_nodes)
      (Fields.field "edges" (list (Items.cons (dict edge_fields) Items.nil)) Fields.end)

abbrev joined_document : Fields
joined_document =
    Fields.field "version" (int (pos 1)) (Fields.field "graph" (dict joined_graph) Fields.end)

abbrev labelled : String → FlowNode
labelled id = record (plain_node id) { label = some "transform" }

abbrev joined : FlowGraph
joined = record {
  nodes = labelled "a" ∷ labelled "b" ∷ [];
  edges = plain_edge "a" "b" ∷ [];
  inputs = [];
}

abbrev joined_result : ImportResult
joined_result = record { ok = true; graph = joined; issues = [] }

joined_is_accepted :
    assert_safe plain_conversions encoder index default_policy (entries joined_document) ≡ none
unfolding assert_safe entries
joined_is_accepted = refl

joined_is_imported :
    import_workflow plain_conversions (λ s. none) kinds false (dict joined_document)
    ≡ some joined_result
unfolding import_workflow validate_config any_error check_graph_connectivity
joined_is_imported = refl

import_workflow-IsWellFormed_example : IsWellFormed joined
unfolding entries get
import_workflow-IsWellFormed_example =
    import_workflow-IsWellFormed plain_conversions kinds false encoder index default_policy
      joined_document joined_graph joined_nodes refl refl (λ s. none) {result = joined_result}
      joined_is_accepted joined_is_imported

labelled-IsPortable : (id : String) → IsPortable plain_conversions kinds false (labelled id)
unfolding message_field default_config_for get_kind node_issues validate_config
labelled-IsPortable id = record {
  name = "transform";
  label = "transform";
  writable = record {
    type_is = refl;
    name_filled = refl;
    label_is = refl;
    label_filled = refl;
    starting_shown = refl;
    stopping_shown = refl;
    style_kept = refl;
  };
  configured = refl;
  checked = refl;
}

import_workflow-export_workflow_example :
    (result : ImportResult) × (import_workflow plain_conversions
        (λ s. none)
        kinds
        false
        (object_of (export_workflow (pos 7) joined none none))
      ≡ some result)
    × (result.graph ≡ joined)
import_workflow-export_workflow_example =
    import_workflow-export_workflow plain_conversions kinds false floats (pos 7) joined none none
      (λ s. none) (and_node (labelled-IsPortable "a") (and_node (labelled-IsPortable "b") no_nodes))
      refl refl

renamed_kind_passes_example :
    ((ids : List String) × (get kind_id_index "llm_router" ≡ some ids)
      × (contains ids "@fancy/llm_branch" ≡ true))
    × (kind_issues plain_conversions encoder kind_id_index
          (deny_kinds default_policy ("llm_router" ∷ []))
          "@fancy/llm_branch"
          "n"
        ≡ [])
unfolding bare
renamed_kind_passes_example =
    renamed_kind_passes plain_conversions encoder default_policy ("llm_router" ∷ [])
      "@fancy/llm_branch" "n" refl refl refl refl
