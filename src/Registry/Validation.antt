-- ===== src/Registry/Validation.antt =====
-- src/fancy_flow/registry/registry.py: `validate_config` and the checks of one field, and `trimmed_key`
-- of src/fancy_flow/registry/blank.py.
pub mod Rows
use Prim.Native.String.{◌++◌}
use fancy_flow_py.Prelude.{
  ℕ, suc, String, List, [], ◌∷◌, Option, none, some, Bool, true, false, not, ◌&&◌, ◌||◌, ◌==◌, ltb,
  length, contains, if◌then◌else◌,
}
use fancy_flow_py.Prelude.Dict.{Dict, get}
use fancy_flow_py.Text.{strip, join}
use fancy_flow_py.Value.{
  Value, Float, null, bool, int, float, str, list, tuple, dict, object, to_list, as_dict,
  is_present,
}
use fancy_flow_py.Python.{Conversions, text_of}
use fancy_flow_py.Registry.NodeKind.{
  NodeKind, FieldSpec, ConfigField, config_field, ConfigFields, spec,
}

-- What a check of a value comes to: `None`, a message, or a KeyError.
pub data Verdict : Type 0 where
  valid : Verdict
  message : String → Verdict
  raised : Verdict

-- A verdict with a text in front of its message.
abbrev pub prefixed : String → Verdict → Verdict
prefixed p valid = valid
prefixed p (message m) = message (p ++ m)
prefixed p raised = raised

-- The next check, where this one has nothing to report.
abbrev pub otherwise : Verdict → Verdict → Verdict
otherwise valid v = v
otherwise (message m) v = message m
otherwise raised v = raised

abbrev pub unless : Bool → String → Verdict
unless true m = valid
unless false m = message m

abbrev pub is_text : Value → Bool
is_text (str s) = true
is_text _ = false

-- d.get(k), where a missing key reads as None
abbrev pub read : Dict Value → String → Value
read d k = elim (get d k) [ none ↦ null | some v ↦ v ]

-- value is None or value == ""
abbrev pub is_void : Value → Bool
is_void null = true
is_void (str s) = s == ""
is_void _ = false

unfoldable pub num : Conversions → Float → String
num c x = if c.is_whole x then c.whole_text x else c.float_text x

-- A bound that is declared and that the value breaks.
abbrev pub breaks : Option Float → (Float → Bool) → Bool
breaks none test = false
breaks (some x) test = test x

abbrev pub bound_text : Conversions → Option Float → String
bound_text c none = ""
bound_text c (some x) = num c x

unfoldable pub check_bounds : Conversions → FieldSpec → Value → Verdict
unfolding num
check_bounds c s v =
    if breaks s.min (λ x. c.below v x)
    then message (s.label ++ (" must be >= " ++ bound_text c s.min))
    else if breaks s.max (λ x. c.above v x)
    then message (s.label ++ (" must be <= " ++ bound_text c s.max))
    else valid

unfoldable pub check_number : Conversions → FieldSpec → Value → Verdict
unfolding check_bounds
check_number c s (int n) = check_bounds c s (int n)
check_number c s (float x) =
    if c.is_finite x then check_bounds c s (float x) else message (s.label ++ " must be a number")
check_number c s v = message (s.label ++ " must be a number")

abbrev pub is_switch : Value → Bool
is_switch (bool b) = true
is_switch _ = false

-- [o["value"] for o in options], or `none` for an option without a value
unfoldable pub option_values : List (Dict String) → Option (List String)
unfolding get
option_values [] = some []
option_values (o ∷ os) =
    let rest = option_values os in
    elim (get o "value") [
      | none ↦ none
      | some v ↦ elim rest [ none ↦ none | some vs ↦ some (v ∷ vs) ]
    ]

unfoldable pub check_select : Conversions → FieldSpec → Value → Verdict
unfolding option_values text_of
check_select c s v = elim (option_values s.options) [
  | none ↦ raised
  | some allowed ↦
      unless (contains allowed (text_of c v)) (s.label ++ (" must be one of " ++ join ", " allowed))
]

abbrev pub is_text_type : String → Bool
is_text_type t = t == "text" || t == "textarea" || t == "expression" || t == "credential"

-- _validate_field of a field that is no repeater
unfoldable pub check_scalar : Conversions → FieldSpec → Value → Verdict
unfolding check_number check_select
check_scalar c s v =
    if is_text_type s.type
    then unless (is_text v) (s.label ++ " must be a string")
    else if s.type == "number"
    then check_number c s v
    else if s.type == "switch"
    then unless (is_switch v) (s.label ++ " must be a boolean")
    else if s.type == "select"
    then check_select c s v
    else valid

unfoldable pub trimmed_key : Value → String
unfolding strip
trimmed_key (str s) = strip s
trimmed_key _ = ""

unfoldable pub is_blank : FieldSpec → Value → Bool → Bool
unfolding trimmed_key
is_blank s cell strip_text =
    is_void cell || strip_text && s.type == "text" && is_text cell && trimmed_key cell == ""

-- all(_is_blank(sub, row.get(sub.key), True) for sub in field.fields)
unfoldable pub is_blank_row : ConfigFields → Dict Value → Bool
unfolding is_blank
is_blank_row ConfigFields.nil row = true
is_blank_row (ConfigFields.cons f fs) row =
    is_blank (spec f) (read row (spec f).key) true && is_blank_row fs row

abbrev pub item_text : Conversions → String → ℕ → String
item_text c label index = label ++ (" item " ++ c.decimal index)

-- The rows from number `index` on, by the check of one row's cells.
unfoldable pub check_rows :
    Conversions → String → (Dict Value → Bool) → (Dict Value → Verdict) → ℕ → List Value → Verdict
check_rows c label skips cells index [] = valid
check_rows c label skips cells index (v ∷ rows) =
    let rest = check_rows c label skips cells (suc index) rows in
    elim (as_dict v) [
      | none ↦ message (item_text c label index ++ " must be an object")
      | some row ↦
          if skips row
          then rest
          else otherwise (prefixed (item_text c label index ++ ": ") (cells row)) rest
    ]

-- A bound on the number of rows that is declared and broken.
abbrev pub count_breaks : Option ℕ → (ℕ → Bool) → Bool
count_breaks none test = false
count_breaks (some n) test = test n

abbrev pub count_text : Conversions → Option ℕ → String
count_text c none = ""
count_text c (some n) = c.decimal n

unfoldable pub check_repeater :
    Conversions → FieldSpec → (Dict Value → Bool) → (Dict Value → Verdict) → Value → Verdict
unfolding check_rows to_list
check_repeater c s skips cells (list vs) =
    let rows = to_list vs in
    if count_breaks s.min_items (λ n. ltb (length rows) n)
    then message (s.label ++ (" needs at least " ++ count_text c s.min_items))
    else if count_breaks s.max_items (λ n. ltb n (length rows))
    then message (s.label ++ (" allows at most " ++ count_text c s.max_items))
    else check_rows c s.label skips cells 1 rows
check_repeater c s skips cells v = message (s.label ++ " must be a list")

unfoldable mutual
  unfolding check_scalar check_repeater is_blank_row is_blank

  -- _validate_field, and the loop over the cells of one row of a repeater.
  pub validate_field : Conversions → ConfigField → Value → Verdict
  validate_field c (config_field s fs) v =
      let nested =
        check_repeater c s (λ row. s.skip_blank_rows && is_blank_row fs row)
          (λ row. validate_cells c s.skip_blank_rows fs row) v in
      if s.type == "repeater" then nested else check_scalar c s v

  pub validate_cells : Conversions → Bool → ConfigFields → Dict Value → Verdict
  validate_cells c strips ConfigFields.nil row = valid
  validate_cells c strips (ConfigFields.cons f fs) row =
      let rest = validate_cells c strips fs row in
      let cell = read row (spec f).key in
      let checked = validate_field c f cell in
      if (spec f).required && is_blank (spec f) cell strips
      then message ((spec f).label ++ " is required")
      else if is_present cell
      then otherwise checked rest
      else rest

-- issues.append({"key": key, "message": message}), where there is a message
abbrev pub with_issue :
    String → Verdict → Option (List (String × String)) → Option (List (String × String))
with_issue key valid rest = rest
with_issue key raised rest = none
with_issue key (message m) none = none
with_issue key (message m) (some is) = some ((key, m) ∷ is)

-- The key and the message of each issue, or `none` where a check raises.
unfoldable pub issues_of :
    Conversions → List ConfigField → Dict Value → Option (List (String × String))
unfolding validate_field
issues_of c [] config = some []
issues_of c (f ∷ fs) config =
    let rest = issues_of c fs config in
    let value = read config (spec f).key in
    if (spec f).required && is_void value
    then with_issue (spec f).key (message ((spec f).label ++ " is required")) rest
    else if is_present value
    then with_issue (spec f).key (validate_field c f value) rest
    else rest

unfoldable pub validate_config :
    Conversions → NodeKind → Dict Value → Option (List (String × String))
unfolding issues_of
validate_config c kind config = issues_of c kind.config_schema config
