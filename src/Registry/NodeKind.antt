-- ===== src/Registry/NodeKind.antt =====
-- src/fancy_flow/registry/node_kind.py: what a node kind declares.
use fancy_flow_py.Prelude.{ℕ, String, List, ◌∷◌, Option, none, some, Bool, unique, is_some}
use fancy_flow_py.Prelude.Dict.{Dict}
use fancy_flow_py.Value.{Value, Float}
use fancy_flow_py.Graph.{PortDescriptor}

-- The fields of ConfigField that hold no further ConfigField. `default = none` is UNSET.
pub record FieldSpec : Type 0 where
  pub type : String
  pub key : String
  pub label : String
  pub required : Bool
  pub default : Option Value
  pub description : Option String
  pub options : List (Dict String)
  pub min : Option Float
  pub max : Option Float
  pub step : Option Float
  pub placeholder : Option String
  pub example : Option String
  pub credential_type : Option String
  pub rows : Option ℕ
  pub language : Option String
  pub title_key : Option String
  pub add_label : Option String
  pub min_items : Option ℕ
  pub max_items : Option ℕ
  pub skip_blank_rows : Bool

-- A ConfigField with its `fields`.
mutual
  pub data ConfigField : Type 0 where
    config_field : FieldSpec → ConfigFields → ConfigField

  pub data ConfigFields : Type 0 where
    nil : ConfigFields
    cons : ConfigField → ConfigFields → ConfigFields

abbrev pub spec : ConfigField → FieldSpec
spec (config_field s fs) = s

-- ConfigField.has_default
abbrev pub has_default : ConfigField → Bool
has_default f = is_some (spec f).default

-- A fixed list of fields, or a function of the config.
pub data OutputShape : Type 0 where
  fixed : List (Dict Value) → OutputShape
  computed : (Dict Value → Option (List (Dict Value))) → OutputShape

pub data EmitsRelation : Type 0 where
  fixed : String → EmitsRelation
  computed : (Dict Value → Option String) → EmitsRelation

pub record NodeKind : Type 0 where
  pub name : String
  pub category : String
  pub label : String
  pub description : Option String
  pub icon : Option String
  pub accent : Option String
  pub config_schema : List ConfigField
  pub default_config : Dict Value
  pub inputs : Option (List PortDescriptor)
  pub outputs : Option (List PortDescriptor)
  pub aliases : List String
  pub pauses_for_human : Option String
  pub side_effects : Option String
  pub output_shape : Option OutputShape
  pub emits : Option EmitsRelation

unfoldable pub output_shape_for : NodeKind → Dict Value → Option (List (Dict Value))
output_shape_for kind config = elim kind.output_shape [
  | none ↦ none
  | some (OutputShape.fixed fields) ↦ some fields
  | some (OutputShape.computed f) ↦ f config
]

unfoldable pub emits_for : NodeKind → Dict Value → Option String
emits_for kind config = elim kind.emits [
  | none ↦ none
  | some (EmitsRelation.fixed relation) ↦ some relation
  | some (EmitsRelation.computed f) ↦ f config
]

-- NodeKind.ids
unfoldable pub ids : NodeKind → List String
ids kind = unique (kind.name ∷ kind.aliases)
