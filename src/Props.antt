-- ===== src/Props.antt =====
-- src/fancy_flow/runtime/workflow_props.py: the caller's named inputs against the declaration.
pub mod Checked
use Prim.Native.String.{◌++◌}
use fancy_flow_py.Prelude.{
  String, List, [], ◌∷◌, Option, none, some, Bool, true, false, ◌==◌, contains, is_some,
  if◌then◌else◌,
}
use fancy_flow_py.Prelude.Dict.{Dict, get, put, has, keys}
use fancy_flow_py.Value.{Value, null, bool, int, float, str, list, tuple, dict, object, as_str}
use fancy_flow_py.Text.{join}

pub data Code : Type 0 where
  unknown_input missing_required type_mismatch : Code

pub data PropsCheck : Type 0 where
  ok : Dict Value → PropsCheck
  refused : Code → String → PropsCheck

unfoldable pub type_of : Value → String
type_of null = "null"
type_of (bool b) = "boolean"
type_of (int n) = "number"
type_of (float x) = "number"
type_of (str s) = "string"
type_of (list vs) = "array"
type_of (tuple vs) = "array"
type_of (dict fs) = "object"
type_of (object name at) = name

-- spec.get(key) if isinstance(spec.get(key), str)
abbrev pub text_at : Dict Value → String → Option String
text_at spec key = elim (get spec key) [ none ↦ none | some v ↦ as_str v ]

unfoldable pub names : List (Dict Value) → List String
unfolding get
names [] = []
names (spec ∷ specs) =
    let rest = names specs in elim (text_at spec "name") [ none ↦ rest | some name ↦ name ∷ rest ]

-- The first key of `given` that no declaration names.
unfoldable pub first_unknown : List String → List String → Option String
first_unknown known [] = none
first_unknown known (k ∷ ks) =
    let rest = first_unknown known ks in if contains known k then rest else some k

-- spec.get("required") is True
abbrev pub is_true : Option Value → Bool
is_true (some (bool true)) = true
is_true _ = false

unfoldable pub unknown_error : String → List String → String
unfolding join
unknown_error name [] =
    "Unknown workflow input \"" ++ (name ++ "\" — this workflow declares no inputs.")
unknown_error name (n ∷ ns) =
    "Unknown workflow input \"" ++ (name ++ ("\" — known inputs: " ++ (join ", " (n ∷ ns) ++ ".")))

unfoldable pub missing_error : String → Option String → String
missing_error name none = "Missing required workflow input \"" ++ (name ++ "\".")
missing_error name (some t) =
    "Missing required workflow input \"" ++ (name ++ ("\" (" ++ (t ++ ").")))

unfoldable pub mismatch_error : String → String → String → String
mismatch_error name declared actual =
    "Workflow input \"" ++ (name ++ ("\" expects " ++ (declared ++ (", got " ++ (actual ++ ".")))))

-- What one declaration makes of the resolved props: `refused`, or `ok` with the props so far.
unfoldable pub resolve_one : Dict Value → Dict Value → String → Dict Value → PropsCheck
unfolding get put type_of missing_error mismatch_error
resolve_one given resolved name spec = elim (get given name) [
  | none ↦ elim (get spec "default") [
    | some default ↦ ok (put resolved name default)
    | none ↦
        if is_true (get spec "required")
        then refused missing_required (missing_error name (text_at spec "type"))
        else ok resolved
  ]
  | some value ↦ elim (text_at spec "type") [
    | none ↦ ok (put resolved name value)
    | some declared ↦
        if type_of value == declared
        then ok (put resolved name value)
        else refused type_mismatch (mismatch_error name declared (type_of value))
  ]
]

unfoldable pub resolve_each : Dict Value → List (Dict Value) → Dict Value → PropsCheck
unfolding resolve_one get
resolve_each given [] resolved = ok resolved
resolve_each given (spec ∷ specs) resolved = elim (text_at spec "name") [
  | none ↦ resolve_each given specs resolved
  | some name ↦ elim (resolve_one given resolved name spec) [
    | ok next ↦ resolve_each given specs next
    | refused code error ↦ refused code error
  ]
]

unfoldable pub resolve_workflow_props : List (Dict Value) → Dict Value → PropsCheck
unfolding names first_unknown resolve_each unknown_error keys
resolve_workflow_props declared passed = elim (first_unknown (names declared) (keys passed)) [
  | some name ↦ refused unknown_input (unknown_error name (names declared))
  | none ↦ resolve_each passed declared []
]
