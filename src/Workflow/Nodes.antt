-- ===== src/Workflow/Nodes.antt =====
-- Ports, nodes and edges of a document: `PortDescriptor.from_dict` of src/fancy_flow/schema/graph.py
-- and the bodies of the loops of `import_workflow` of src/fancy_flow/workflow.py. A read is `none`
-- where Python raises, and where a field of the node would hold a value that its type excludes.
use fancy_flow_py.Prelude.{
  String, List, [], ◌∷◌, Option, none, some, Bool, true, false, if◌then◌else◌, ◌>>=◌,
}
use fancy_flow_py.Prelude.Dict.{Dict, get}
use fancy_flow_py.Value.{
  Value, Float, Items, bool, int, float, str, list, tuple, dict, entries, as_str, as_dict,
  is_present,
}
use fancy_flow_py.Graph.{PortDescriptor, FlowNode, FlowEdge}
use fancy_flow_py.Python.{Conversions, text_of, is_true, mapping_or_empty}
use fancy_flow_py.Registry.NodeKind.{NodeKind}
use fancy_flow_py.Registry.Catalogue.{default_config_for}
use fancy_flow_py.Registry.Validation.{read}

-- isinstance(v, (str, int, float)), which holds of a bool
abbrev pub is_scalar : Value → Bool
is_scalar (str s) = true
is_scalar (bool b) = true
is_scalar (int n) = true
is_scalar (float x) = true
is_scalar _ = false

abbrev pub default_label : Option NodeKind → String → String
default_label none kind_name = kind_name
default_label (some kind) kind_name = kind.label

module _ (c : Conversions) where
  -- str(raw.get(key, default))
  unfoldable pub text_or : Dict Value → String → String → String
  unfolding get text_of
  text_or raw key default = elim (get raw key) [ none ↦ default | some v ↦ text_of c v ]

  -- str(raw[key]) if raw.get(key) is not None else None
  unfoldable pub opt_text : Dict Value → String → Option String
  unfolding get text_of
  opt_text raw key = if is_present (read raw key) then some (text_of c (read raw key)) else none

  -- PortDescriptor.from_dict
  unfoldable pub port_from_dict : Dict Value → PortDescriptor
  unfolding text_or opt_text
  port_from_dict raw = record {
    id = text_or raw "id" "out";
    label = opt_text raw "label";
    type = opt_text raw "type";
  }

  -- One entry of a declared port list, if it is well formed.
  unfoldable pub port_from : Value → Option PortDescriptor
  unfolding port_from_dict get
  port_from (str s) = some (record { id = s; label = none; type = none })
  port_from (dict fs) =
      if is_scalar (read (entries fs) "id") then some (port_from_dict (entries fs)) else none
  port_from _ = none

  unfoldable pub ports_of : Items → List PortDescriptor
  unfolding port_from
  ports_of Items.nil = []
  ports_of (Items.cons v vs) =
      let rest = ports_of vs in elim (port_from v) [ none ↦ rest | some p ↦ p ∷ rest ]

  -- _ports_from
  unfoldable pub ports_from : Value → Option (List PortDescriptor)
  unfolding ports_of
  ports_from (list vs) = some (ports_of vs)
  ports_from (tuple vs) = some (ports_of vs)
  ports_from _ = none

  -- float(raw.get(key, 0))
  unfoldable pub float_or_zero : Dict Value → String → Option Float
  unfolding get
  float_or_zero raw key = elim (get raw key) [ none ↦ some c.zero_float | some v ↦ c.float_of v ]

  -- float(raw[key]) if raw.get(key) is not None else None
  unfoldable pub opt_float : Dict Value → String → Option (Option Float)
  unfolding get
  opt_float raw key =
      if is_present (read raw key)
      then elim (c.float_of (read raw key)) [ none ↦ none | some x ↦ some (some x) ]
      else some none

  -- raw.get("label") or (kind.label if kind is not None else kind_name)
  unfoldable pub read_label : Option NodeKind → String → Dict Value → Option String
  unfolding get is_true
  read_label kind kind_name raw =
      if is_true c (read raw "label")
      then as_str (read raw "label")
      else some (default_label kind kind_name)

  -- The node's own config, or a fresh one of its kind.
  unfoldable pub read_config : Option NodeKind → Dict Value → Option (Dict Value)
  unfolding get default_config_for
  read_config kind raw =
      if is_present (read raw "config")
      then as_dict (read raw "config")
      else some (elim kind [ none ↦ [] | some k ↦ default_config_for k ])

  -- The FlowNode that a loop turn builds from its document and its config.
  unfoldable pub read_node : Option NodeKind → String → Dict Value → Dict Value → Option FlowNode
  unfolding float_or_zero opt_float read_label opt_text ports_from mapping_or_empty text_of get
  read_node kind kind_name config raw = do
    position ← mapping_or_empty c (read raw "position")
    id ← get raw "id"
    x ← float_or_zero position "x"
    y ← float_or_zero position "y"
    label ← read_label kind kind_name raw
    width ← opt_float raw "width"
    height ← opt_float raw "height"
    some (record {
      id = text_of c id;
      type = some kind_name;
      x = x;
      y = y;
      label = some label;
      description = opt_text raw "description";
      starting_msg = opt_text raw "startingMsg";
      stopping_msg = opt_text raw "stoppingMsg";
      config = config;
      inputs = ports_from (read raw "inputs");
      outputs = ports_from (read raw "outputs");
      parent_id = opt_text raw "parentId";
      extent = read raw "extent";
      width = width;
      height = height;
      style = as_dict (read raw "style");
    })

  -- The FlowEdge of a document's edge.
  unfoldable pub read_edge : Dict Value → FlowEdge
  unfolding text_or opt_text get
  read_edge raw = record {
    id = text_or raw "id" "";
    source = text_or raw "source" "";
    target = text_or raw "target" "";
    source_handle = opt_text raw "sourceHandle";
    target_handle = opt_text raw "targetHandle";
    label = as_str (read raw "label");
  }
