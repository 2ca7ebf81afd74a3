-- ===== src/Workflow/RoundTrip/Fields.antt =====
-- What the import reads of the entries that the export wrote, entry by entry: src/fancy_flow/workflow.py.
use fancy_flow_py.Prelude.{
  String, List, [], ◌∷◌, Option, none, some, Bool, true, false, ◌==◌, if◌then◌else◌, ◌≡◌, refl, ◌∙◌,
  ap, arith, or_else,
}
use fancy_flow_py.Prelude.Dict.{Dict, get, get-put}
use fancy_flow_py.Value.{
  Value, Float, as_str, null, bool, int, str, list, tuple, object, dict, float, of_entries,
  entries-of_entries, as_dict, is_present,
}
use fancy_flow_py.Python.{Conversions, text_of}
use fancy_flow_py.Graph.{PortDescriptor, FlowNode, FlowEdge}
use fancy_flow_py.Registry.Validation.{read}
use fancy_flow_py.Workflow.Nodes.{
  is_scalar, text_or, opt_text, port_from_dict, port_from, ports_of, ports_from, opt_float,
  read_edge,
}
use fancy_flow_py.Workflow.Writing.{
  put_some, str_of, float_of, port_to_dict, ports_value, ports_field, message_field, filled,
  present, kind_field, position, node_to_schema, edge_to_schema, object_of,
}

-- The value that is put, if any, else the old one.
abbrev pub over : Option Value → Option Value → Option Value
over none old = old
over (some v) old = some v

pub over-none : (o : Option Value) → over o none ≡ o
over-none none = refl
over-none (some v) = refl

pub get-put_some :
    (d : Dict Value) (k : String) (o : Option Value) (j : String)
    → get (put_some d k o) j ≡ (if k == j then over o (get d j) else get d j)
unfolding put_some
get-put_some d k none j = ground arith
get-put_some d k (some v) j = ground (arith, get-put d k j v)

ruleset written = (get-put_some, over-none)

-- The entries of a node's document.
module _ (n : FlowNode) where
  pub id_written : get (node_to_schema n) "id" ≡ some (str n.id)
  unfolding node_to_schema get
  id_written = simp written refl

  pub kind_written : get (node_to_schema n) "kind" ≡ some (str (kind_field n.type))
  unfolding node_to_schema get
  kind_written = simp written refl

  pub position_written : get (node_to_schema n) "position" ≡ some (position n)
  unfolding node_to_schema get
  position_written = simp written refl

  pub label_written : get (node_to_schema n) "label" ≡ str_of n.label
  unfolding node_to_schema get
  label_written = simp written refl

  pub description_written : get (node_to_schema n) "description" ≡ str_of n.description
  unfolding node_to_schema get
  description_written = simp written refl

  pub starting_msg_written : get (node_to_schema n) "startingMsg" ≡ message_field n.starting_msg
  unfolding node_to_schema get
  starting_msg_written = simp written refl

  pub stopping_msg_written : get (node_to_schema n) "stoppingMsg" ≡ message_field n.stopping_msg
  unfolding node_to_schema get
  stopping_msg_written = simp written refl

  pub config_written : get (node_to_schema n) "config" ≡ filled n.config
  unfolding node_to_schema get
  config_written = simp written refl

  pub parent_id_written : get (node_to_schema n) "parentId" ≡ str_of n.parent_id
  unfolding node_to_schema get
  parent_id_written = simp written refl

  pub extent_written : get (node_to_schema n) "extent" ≡ present n.extent
  unfolding node_to_schema get
  extent_written = simp written refl

  pub width_written : get (node_to_schema n) "width" ≡ float_of n.width
  unfolding node_to_schema get
  width_written = simp written refl

  pub height_written : get (node_to_schema n) "height" ≡ float_of n.height
  unfolding node_to_schema get
  height_written = simp written refl

  pub style_written : get (node_to_schema n) "style" ≡ filled (or_else n.style [])
  unfolding node_to_schema get
  style_written = simp written refl

  pub inputs_written : get (node_to_schema n) "inputs" ≡ ports_field n.inputs
  unfolding node_to_schema get
  inputs_written = simp written refl

  pub outputs_written : get (node_to_schema n) "outputs" ≡ ports_field n.outputs
  unfolding node_to_schema get
  outputs_written = simp written refl

-- The entries of a port's document.
module _ (p : PortDescriptor) where
  port_id_written : get (port_to_dict p) "id" ≡ some (str p.id)
  unfolding port_to_dict get
  port_id_written = simp written refl

  port_label_written : get (port_to_dict p) "label" ≡ str_of p.label
  unfolding port_to_dict get
  port_label_written = simp written refl

  port_type_written : get (port_to_dict p) "type" ≡ str_of p.type
  unfolding port_to_dict get
  port_type_written = simp written refl

-- The entries of an edge's document.
module _ (e : FlowEdge) where
  source_handle_written : get (edge_to_schema e) "sourceHandle" ≡ str_of e.source_handle
  unfolding edge_to_schema get
  source_handle_written = simp written refl

  target_handle_written : get (edge_to_schema e) "targetHandle" ≡ str_of e.target_handle
  unfolding edge_to_schema get
  target_handle_written = simp written refl

  edge_label_written : get (edge_to_schema e) "label" ≡ str_of e.label
  unfolding edge_to_schema get
  edge_label_written = simp written refl

  edge_id_written : get (edge_to_schema e) "id" ≡ some (str e.id)
  unfolding edge_to_schema get
  edge_id_written = simp written refl

  source_written : get (edge_to_schema e) "source" ≡ some (str e.source)
  unfolding edge_to_schema get
  source_written = simp written refl

  target_written : get (edge_to_schema e) "target" ≡ some (str e.target)
  unfolding edge_to_schema get
  target_written = simp written refl

abbrev pub value : Option Value → Value
value o = elim o [ none ↦ null | some v ↦ v ]

module _ (c : Conversions) where
  abbrev text_if : Value → Option String
  text_if v = if is_present v then some (text_of c v) else none

  abbrev float_if : Value → Option (Option Float)
  float_if v =
      if is_present v
      then elim (c.float_of v) [ none ↦ none | some x ↦ some (some x) ]
      else some none

  -- An optional text, as it is read back.
  pub opt_text-str_of :
      (d : Dict Value) (key : String) (o : Option String)
      → get d key ≡ str_of o
      → opt_text c d key ≡ o
  unfolding opt_text text_of
  opt_text-str_of d key none h = ap (λ o. text_if (value o)) h
  opt_text-str_of d key (some s) h = ap (λ o. text_if (value o)) h

  pub text_or-str :
      (d : Dict Value) (key default s : String)
      → get d key ≡ some (str s)
      → text_or c d key default ≡ s
  unfolding text_or text_of
  text_or-str d key default s h = rw (text_or, h, text_of) refl

  pub opt_float-float_of :
      (d : Dict Value) (key : String) (o : Option Float)
      → ((x : Float) → c.float_of (float x) ≡ some x)
      → get d key ≡ float_of o
      → opt_float c d key ≡ some o
  unfolding opt_float
  opt_float-float_of d key none floats h = ap (λ o. float_if (value o)) h
  opt_float-float_of d key (some x) floats h =
      ap (λ o. float_if (value o)) h
      ∙ ap (λ y. elim y [ none ↦ none | some z ↦ some (some z) ]) (floats x)

  -- An edge, as it is read back.
  pub read_edge-edge_to_schema : (e : FlowEdge) → read_edge c (edge_to_schema e) ≡ e
  unfolding read_edge
  read_edge-edge_to_schema e =
      let d = edge_to_schema e in
      λ i. record {
        id = text_or-str d "id" "" e.id (edge_id_written e) i;
        source = text_or-str d "source" "" e.source (source_written e) i;
        target = text_or-str d "target" "" e.target (target_written e) i;
        source_handle =
            opt_text-str_of d "sourceHandle" e.source_handle (source_handle_written e) i;
        target_handle =
            opt_text-str_of d "targetHandle" e.target_handle (target_handle_written e) i;
        label = label_read d e.label (edge_label_written e) i;
      }
    where
      label_read :
          (d : Dict Value) (o : Option String)
          → get d "label" ≡ str_of o
          → as_str (read d "label") ≡ o
      label_read d none h = ap (λ o. as_str (value o)) h
      label_read d (some s) h = ap (λ o. as_str (value o)) h

  -- A port, as it is read back.
  port_from_dict-port_to_dict : (p : PortDescriptor) → port_from_dict c (port_to_dict p) ≡ p
  unfolding port_from_dict
  port_from_dict-port_to_dict p =
      let d = port_to_dict p in
      λ i. record {
        id = text_or-str d "id" "out" p.id (port_id_written p) i;
        label = opt_text-str_of d "label" p.label (port_label_written p) i;
        type = opt_text-str_of d "type" p.type (port_type_written p) i;
      }

  port_from-port_to_dict : (p : PortDescriptor) → port_from c (object_of (port_to_dict p)) ≡ some p
  unfolding port_from of_entries
  port_from-port_to_dict p =
      let d = port_to_dict p in
      ap (λ e. if is_scalar (read e "id") then some (port_from_dict c e) else none)
        (entries-of_entries d)
      ∙ (ap (λ o. if is_scalar (value o) then some (port_from_dict c d) else none)
            (port_id_written p)
          ∙ ap some (port_from_dict-port_to_dict p))

  -- A port list, as it is read back.
  ports_of-ports_value : (ps : List PortDescriptor) → ports_of c (ports_value ps) ≡ ps
  unfolding ports_of ports_value
  ports_of-ports_value [] = refl
  ports_of-ports_value (p ∷ ps) =
      rw (ports_of, port_from-port_to_dict p) (ap (λ rest. p ∷ rest) (ports_of-ports_value ps))

  pub ports_from-ports_field :
      (d : Dict Value) (key : String) (o : Option (List PortDescriptor))
      → get d key ≡ ports_field o
      → ports_from c (read d key) ≡ o
  unfolding ports_from
  ports_from-ports_field d key none h = ap (λ v. ports_from c (value v)) h
  ports_from-ports_field d key (some ps) h =
      ap (λ v. ports_from c (value v)) h ∙ ap some (ports_of-ports_value ps)

-- A value other than None, as it is read back.
pub read-present :
    (d : Dict Value) (key : String) (v : Value) → get d key ≡ present v → read d key ≡ v
read-present d key v h = ap value h ∙ value-present v
  where
    value-present : (v : Value) → value (present v) ≡ v
    value-present null = refl
    value-present (bool b) = refl
    value-present (int n) = refl
    value-present (float x) = refl
    value-present (str s) = refl
    value-present (list vs) = refl
    value-present (tuple vs) = refl
    value-present (dict fs) = refl
    value-present (object t n) = refl

-- A style that is not an empty mapping.
abbrev pub is_kept : Option (Dict Value) → Bool
is_kept (some []) = false
is_kept _ = true

pub as_dict-filled :
    (d : Dict Value) (key : String) (style : Option (Dict Value))
    → is_kept style ≡ true
    → get d key ≡ filled (or_else style [])
    → as_dict (read d key) ≡ style
as_dict-filled d key none kept h = ap (λ o. as_dict (value o)) h
as_dict-filled d key (some []) kept h = absurd (cc)
as_dict-filled d key (some (kv ∷ rest)) kept h =
    ap (λ o. as_dict (value o)) h ∙ ap some (entries-of_entries (kv ∷ rest))
