-- ===== src/Pause.antt =====
-- src/fancy_flow/runtime/pause.py: the reason string that marks a pause. The JSON writer and reader,
-- `json.dumps` and `json.loads`, are parameters; `loads` answers `none` where Python raises.
pub mod RoundTrip
pub mod Samples
use Prim.Native.String.{◌++◌}
use fancy_flow_py.Prelude.{String, List, [], ◌∷◌, Option, none, some, Bool, true, false}
use fancy_flow_py.Prelude.Dict.{Dict, get}
use fancy_flow_py.Value.{
  Value, Items, Fields, null, str, dict, end, field, entries, get_value, as_str, is_present,
}
use fancy_flow_py.Text.{strip_prefix}

-- A detail that is None reads like no detail.
pub record PauseSignal : Type 0 where
  pub node_id : String
  pub awaiting : String
  pub detail : Value

abbrev pub prefix : String
prefix = "fancy-flow:pause:"

unfoldable pub payload : PauseSignal → Value
payload signal = elim (is_present signal.detail) [
  | true ↦ dict (
      field "nodeId" (str signal.node_id)
        (field "awaiting" (str signal.awaiting) (field "detail" signal.detail end)))
  | false ↦ dict (field "nodeId" (str signal.node_id) (field "awaiting" (str signal.awaiting) end))
]

unfoldable pub encode : (Value → String) → PauseSignal → String
unfolding payload
encode dumps signal = prefix ++ dumps (payload signal)

-- What a parsed payload says, if it is one.
unfoldable pub read_payload : Value → Option PauseSignal
unfolding get_value
read_payload (dict fs) = elim (as_str (get_value fs "nodeId")) [
  | none ↦ none
  | some node_id ↦ elim (as_str (get_value fs "awaiting")) [
    | none ↦ none
    | some awaiting ↦
        some (record { node_id = node_id; awaiting = awaiting; detail = get_value fs "detail" })
  ]
]
read_payload _ = none

-- The prefixes of older versions, with what each waited for.
unfoldable pub decode_legacy : String → Option PauseSignal
unfolding strip_prefix
decode_legacy reason = elim (strip_prefix "awaiting-approval:" reason) [
  | some node_id ↦ some (record { node_id = node_id; awaiting = "approval"; detail = null })
  | none ↦ elim (strip_prefix "awaiting-input:" reason) [
    | some node_id ↦ some (record { node_id = node_id; awaiting = "input"; detail = null })
    | none ↦ none
  ]
]

unfoldable pub decode_reason : (String → Option Value) → String → Option PauseSignal
unfolding strip_prefix read_payload decode_legacy
decode_reason loads reason = elim (strip_prefix prefix reason) [
  | some body ↦ elim (loads body) [ none ↦ none | some parsed ↦ read_payload parsed ]
  | none ↦ decode_legacy reason
]

unfoldable pub decode : (String → Option Value) → Option String → Option PauseSignal
unfolding decode_reason
decode loads none = none
decode loads (some reason) = decode_reason loads reason
