-- ===== src/Registry/Ports.antt =====
-- src/fancy_flow/registry/port_resolution.py: every port that a node could publish.
use fancy_flow_py.Prelude.{
  String, List, [], ◌∷◌, ◌++◌, Option, none, some, Bool, true, false, ◌||◌, ◌==◌, map, unique,
  if◌then◌else◌,
}
use fancy_flow_py.Prelude.Dict.{Dict, get}
use fancy_flow_py.Value.{
  Value, null, bool, str, list, tuple, dict, to_list, entries, get_value, as_str,
}
use fancy_flow_py.Graph.{FlowNode, PortDescriptor}
use fancy_flow_py.Registry.KindId.{bare}
use fancy_flow_py.Registry.NodeKind.{NodeKind}

abbrev pub port_ids : List PortDescriptor → List String
port_ids ps = map (λ p. p.id) ps

-- [] for no ports, else the ports with `last` behind them, each once
abbrev pub with_last : List String → List String → List String
with_last [] last = []
with_last (p ∷ ps) last = unique ((p ∷ ps) ++ last)

-- [port for port in cases.values() if isinstance(port, str) and port != ""]
unfoldable pub case_ports : Dict Value → List String
case_ports [] = []
case_ports ((k, v) ∷ d) =
    let rest = case_ports d in
    elim (as_str v) [ none ↦ rest | some s ↦ if s == "" then rest else s ∷ rest ]

unfoldable pub switch_case_ports : Dict Value → List String
unfolding case_ports get entries
switch_case_ports config = elim (get config "cases") [
  | some (dict fs) ↦ with_last (case_ports (entries fs)) ("default" ∷ [])
  | _ ↦ []
]

-- The port that one route declares. `text` is `str(...)` of a value that is no text.
unfoldable pub route_port : (Value → String) → Value → Option String
unfolding get_value
route_port text (dict fs) = elim (get_value fs "port") [
  | null ↦ none
  | str s ↦ if s == "" then none else some s
  | v ↦ some (text v)
]
route_port text _ = none

unfoldable pub route_ports : (Value → String) → List Value → List String
unfolding route_port
route_ports text [] = []
route_ports text (v ∷ vs) =
    let rest = route_ports text vs in elim (route_port text v) [ none ↦ rest | some s ↦ s ∷ rest ]

-- config.get("fallback", True) is not False
abbrev pub has_fallback : Option Value → Bool
has_fallback (some (bool false)) = false
has_fallback _ = true

abbrev pub as_items : Option Value → List Value
as_items (some (list vs)) = to_list vs
as_items (some (tuple vs)) = to_list vs
as_items _ = []

unfoldable pub llm_router_ports : (Value → String) → Dict Value → List String
unfolding route_ports get to_list
llm_router_ports text config =
    with_last (route_ports text (as_items (get config "routes")))
      (if has_fallback (get config "fallback") then "fallback" ∷ [] else [])

unfoldable pub subflow_ports : Dict Value → List String → List String
unfolding get
subflow_ports config declared = elim (get config "mode") [
  | some (str mode) ↦
      if mode == "stream" || mode == "both"
      then unique ((elim declared [ [] ↦ "out" ∷ [] | p ∷ ps ↦ p ∷ ps ]) ++ "stream" ∷ [])
      else []
  | _ ↦ []
]

unfoldable pub config_derived : (Value → String) → String → Dict Value → List String → List String
unfolding switch_case_ports llm_router_ports subflow_ports
config_derived text bare_kind config declared =
    if bare_kind == "switch_case"
    then switch_case_ports config
    else if bare_kind == "llm_router"
    then llm_router_ports text config
    else if bare_kind == "subflow"
    then subflow_ports config declared
    else []

-- kind.outputs or ()
abbrev pub outputs_or_none : NodeKind → List String
outputs_or_none kind = elim kind.outputs [ none ↦ [] | some ports ↦ port_ids ports ]

unfoldable pub kind_ports : (Value → String) → Option NodeKind → Dict Value → List String
unfolding config_derived bare
kind_ports text none config = "out" ∷ []
kind_ports text (some kind) config =
    let declared = outputs_or_none kind in
    elim (config_derived text (bare kind.name) config declared) [ [] ↦ declared | p ∷ ps ↦ p ∷ ps ]

unfoldable pub possible_ports :
    (Value → String) → Option FlowNode → Option NodeKind → Dict Value → List String
unfolding kind_ports
possible_ports text none kind config = kind_ports text kind config
possible_ports text (some node) kind config = elim node.outputs [
  | some ports ↦ port_ids ports
  | none ↦ kind_ports text kind config
]
