-- ===== src/Python.antt =====
-- Operations of Python that the documents' code relies on and that the kernel does not have: `str` of
-- a value that is no text, and floating-point numbers. They are parameters.
use fancy_flow_py.Prelude.{
  ℤ, ℕ, String, List, [], Option, none, some, Bool, true, false, not, is_zero,
}
use fancy_flow_py.Value.{
  Value, Items, Fields, Float, null, bool, int, float, str, list, tuple, dict, object, to_list,
  entries,
}
use fancy_flow_py.Prelude.Dict.{Dict}

-- `text` is `str(v)` of a value that is no text and `repr` is
-- `repr(v)`; `float_of` is `float(v)` and `int_of` is `int(v)`, or `none` where it raises;
-- `below v x` is `v < x` and `above v x` is `v > x` for a number `v`; `is_whole x` is
-- `x.is_integer()`, `whole_text x` is `str(int(x))`, and `decimal` is `str` of a count.
pub record Conversions : Type 0 where
  pub text : Value → String
  pub repr : Value → String
  pub float_of : Value → Option Float
  pub int_of : Value → Option ℤ
  pub zero_float : Float
  pub is_zero_float : Float → Bool
  pub is_one_float : Float → Bool
  pub is_finite : Float → Bool
  pub below : Value → Float → Bool
  pub above : Value → Float → Bool
  pub is_whole : Float → Bool
  pub whole_text : Float → String
  pub float_text : Float → String
  pub decimal : ℕ → String

-- str(v)
unfoldable pub text_of : Conversions → Value → String
text_of c (str s) = s
text_of c v = c.text v

-- bool(v). A value of a class of its own is true, as Python's are by default.
unfoldable pub is_true : Conversions → Value → Bool
unfolding is_zero
is_true c null = false
is_true c (bool b) = b
is_true c (int n) = not (is_zero n)
is_true c (float x) = not (c.is_zero_float x)
is_true c (str String.[]) = false
is_true c (str (String.◌∷◌ x s)) = true
is_true c (list Items.nil) = false
is_true c (list (Items.cons v vs)) = true
is_true c (tuple Items.nil) = false
is_true c (tuple (Items.cons v vs)) = true
is_true c (dict Fields.end) = false
is_true c (dict (Fields.field k v fs)) = true
is_true c (object type i) = true

-- v or None, for a value that is then read by `get`: the entries of a mapping, those of an empty one
-- for a false value, and `none` for any other, which has no `get`.
unfoldable pub mapping_or_empty : Conversions → Value → Option (Dict Value)
unfolding is_true entries
mapping_or_empty c (dict fs) = some (entries fs)
mapping_or_empty c v = if_false (is_true c v)
  where
    if_false : Bool → Option (Dict Value)
    if_false true = none
    if_false false = some []

-- v or [], for a value that is then walked item by item; `none` for one whose items are no mappings.
unfoldable pub items_or_empty : Conversions → Value → Option (List Value)
unfolding is_true to_list
items_or_empty c (list vs) = some (to_list vs)
items_or_empty c (tuple vs) = some (to_list vs)
items_or_empty c v = if_false (is_true c v)
  where
    if_false : Bool → Option (List Value)
    if_false true = none
    if_false false = some []
