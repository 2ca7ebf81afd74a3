-- ===== src/Workflow/RoundTrip/Nodes.antt =====
-- What the import reads of a node that the export wrote: src/fancy_flow/workflow.py.
use fancy_flow_py.Prelude.{
  String, List, [], ◌∷◌, Option, none, some, Bool, true, false, ◌&&◌, ◌==◌, if◌then◌else◌, ◌≡◌,
  refl, sym, ◌∙◌, ap, arith, eq_refl, is_some,
}
use fancy_flow_py.Prelude.Dict.{Dict, get}
use fancy_flow_py.Value.{
  Value, Float, float, str, of_entries, entries-of_entries, as_dict, as_str, is_present,
}
use fancy_flow_py.Graph.{FlowNode}
use fancy_flow_py.Python.{Conversions, mapping_or_empty, is_true}
use fancy_flow_py.Registry.NodeKind.{NodeKind}
use fancy_flow_py.Registry.Catalogue.{NodeKindRegistry, get as get_kind, default_config_for}
use fancy_flow_py.Registry.Validation.{read}
use fancy_flow_py.Workflow.Nodes.{
  float_or_zero, default_label, read_label, read_config, read_node, text_or,
}
use fancy_flow_py.Workflow.Reading.{node_issues, is_declaration}
use fancy_flow_py.Workflow.Writing.{message_field, str_of, kind_field, node_to_schema, filled}
use fancy_flow_py.Workflow.RoundTrip.Fields.{
  value, id_written, kind_written, position_written, label_written, description_written,
  starting_msg_written, stopping_msg_written, config_written, parent_id_written, extent_written,
  width_written, height_written, style_written, inputs_written, outputs_written, opt_text-str_of,
  text_or-str, opt_float-float_of, ports_from-ports_field, read-present, is_kept, as_dict-filled,
}

-- What a node has that a document can hold: a type, a label, messages that are not blank, and a style
-- that is not empty.
pub record IsWritable (n : FlowNode) (name label : String) : Type 0 where
  pub type_is : n.type ≡ some name
  pub name_filled : (name == "") ≡ false
  pub label_is : n.label ≡ some label
  pub label_filled : (label == "") ≡ false
  pub starting_shown : message_field n.starting_msg ≡ str_of n.starting_msg
  pub stopping_shown : message_field n.stopping_msg ≡ str_of n.stopping_msg
  pub style_kept : is_kept n.style ≡ true

module _ (c : Conversions) (floats : (x : Float) → c.float_of (float x) ≡ some x) where
  read_label-written :
      (kind : Option NodeKind) (name : String) (d : Dict Value) (label : String)
      → get d "label" ≡ some (str label)
      → (label == "") ≡ false
      → read_label c kind name d ≡ some label
  unfolding read_label is_true
  read_label-written kind name d label h full =
      ap (λ o. if is_true c (value o) then as_str (value o) else some (default_label kind name)) h
      ∙ chosen label full
    where
      chosen :
          (s : String)
          → (s == "") ≡ false
          → (if is_true c (str s) then some s else some (default_label kind name)) ≡ some s
      chosen String.[] e = absurd (ground (arith, e, eq_refl ""))
      chosen (String.◌∷◌ x s) e = refl

  position_read :
      (n : FlowNode)
      → mapping_or_empty c (read (node_to_schema n) "position")
        ≡ some (("x", float n.x) ∷ ("y", float n.y) ∷ [])
  unfolding mapping_or_empty of_entries
  position_read n = ap (λ o. mapping_or_empty c (value o)) (position_written n)

  abbrev point : FlowNode → Dict Value
  point n = ("x", float n.x) ∷ ("y", float n.y) ∷ []

  x_read : (n : FlowNode) → float_or_zero c (point n) "x" ≡ some n.x
  unfolding float_or_zero
  x_read n = floats n.x

  y_read : (n : FlowNode) → float_or_zero c (point n) "y" ≡ some n.y
  unfolding float_or_zero
  y_read n = floats n.y

  -- A node, as it is read back with its config.
  pub read_node-written :
      (kind : Option NodeKind) (n : FlowNode) (name label : String)
      → IsWritable n name label
      → read_node c kind name n.config (node_to_schema n) ≡ some n
  unfolding read_node
  read_node-written kind n name label w =
      let d = node_to_schema n in
      rw
        (
          read_node,
          position_read n,
          id_written n,
          x_read n,
          y_read n,
          read_label-written kind name d label (label_written n ∙ ap str_of w.label_is)
              w.label_filled,
          opt_float-float_of c d "width" n.width floats (width_written n),
          opt_float-float_of c d "height" n.height floats (height_written n),
          opt_text-str_of c d "description" n.description (description_written n),
          opt_text-str_of c d "startingMsg" n.starting_msg
              (starting_msg_written n ∙ w.starting_shown),
          opt_text-str_of c d "stoppingMsg" n.stopping_msg
              (stopping_msg_written n ∙ w.stopping_shown),
          opt_text-str_of c d "parentId" n.parent_id (parent_id_written n),
          ports_from-ports_field c d "inputs" n.inputs (inputs_written n),
          ports_from-ports_field c d "outputs" n.outputs (outputs_written n),
          read-present d "extent" n.extent (extent_written n),
          as_dict-filled d "style" n.style w.style_kept (style_written n),
        )
        (λ i. some (record n { type = sym w.type_is i; label = sym w.label_is i }))

abbrev pub default_of : Option NodeKind → Dict Value
default_of none = []
default_of (some kind) = default_config_for kind

-- An empty config is written as none, and none is read as the defaults of the kind.
abbrev pub keeps_config : Dict Value → Dict Value → Bool
keeps_config [] [] = true
keeps_config [] (kv ∷ d) = false
keeps_config (kv ∷ d) default = true

empty_default : (d : Dict Value) → keeps_config [] d ≡ true → d ≡ []
empty_default [] keep = refl
empty_default (kv ∷ d) keep = absurd (cc)

pub read_config-written :
    (c : Conversions) (kind : Option NodeKind) (n : FlowNode)
    → keeps_config n.config (default_of kind) ≡ true
    → read_config c kind (node_to_schema n) ≡ some n.config
unfolding read_config
read_config-written c kind n keeps =
    ap (λ o. from_value (value o)) (config_written n) ∙ reads n.config kind keeps
  where
    from_value : Value → Option (Dict Value)
    from_value v =
        if is_present v
        then as_dict v
        else some (elim kind [ none ↦ [] | some k ↦ default_config_for k ])

    reads :
        (config : Dict Value) (k : Option NodeKind)
        → keeps_config config (default_of k) ≡ true
        → (if is_present (value (filled config))
            then as_dict (value (filled config))
            else some (default_of k))
          ≡ some config
    reads [] k keep = ap some (empty_default (default_of k) keep)
    reads (kv ∷ d) k keep = ap some (entries-of_entries (kv ∷ d))

-- A node that a document can hold, whose config a registry can check.
pub record IsPortable (c : Conversions) (r : NodeKindRegistry) (lenient : Bool) (n : FlowNode)
    : Type 0 where
  pub name : String
  pub label : String
  pub writable : IsWritable n name label
  pub configured : keeps_config n.config (default_of (get_kind r name)) ≡ true
  pub checked : is_some (node_issues c r lenient (get_kind r name) name n.config (str n.id)) ≡ true

pub data ArePortable (c : Conversions) (r : NodeKindRegistry) (lenient : Bool)
    : List FlowNode → Type 0 where
  no_nodes : ArePortable c r lenient []
  and_node :
      {n : FlowNode} {ns : List FlowNode}
      → IsPortable c r lenient n
      → ArePortable c r lenient ns
      → ArePortable c r lenient (n ∷ ns)

abbrev pub all_declared : List (Dict Value) → Bool
all_declared [] = true
all_declared (d ∷ ds) = is_declaration d && all_declared ds

pub name_read :
    (c : Conversions) (n : FlowNode) (name label : String)
    → IsWritable n name label
    → text_or c (node_to_schema n) "kind" "" ≡ name
name_read c n name label w = text_or-str c (node_to_schema n) "kind" "" name (
    kind_written n
    ∙ ap (λ t. some (str (kind_field t))) w.type_is
    ∙ ap some (ap str (named w.name_filled)))
  where
    named : (name == "") ≡ false → kind_field (some name) ≡ name
    named full = rw full refl
