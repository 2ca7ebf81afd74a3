-- ===== src/Value.antt =====
-- Python values as the engine meets them (`Any` throughout the package): the JSON shapes, tuples,
-- and an opaque object by the name of its type. A dict has text keys, as a JSON object has. A float
-- is its 64-bit pattern, since the modelled code does no arithmetic on floats.
use fancy_flow_py.Prelude.{
  ℕ, String, List, [], ◌∷◌, Option, none, some, Bool, true, false, ◌≡◌, refl, ℤ,
}
use fancy_flow_py.Prelude.Dict.{Dict, get}

abbrev pub Float : Type 0
Float = ℕ

mutual
  pub data Value : Type 0 where
    null : Value
    bool : Bool → Value
    int : ℤ → Value
    float : Float → Value
    str : String → Value
    list : Items → Value
    tuple : Items → Value
    dict : Fields → Value
    object : String → ℕ → Value

  pub data Items : Type 0 where
    nil : Items
    cons : Value → Items → Items

  pub data Fields : Type 0 where
    end : Fields
    field : String → Value → Fields → Fields

unfoldable pub to_list : Items → List Value
to_list nil = []
to_list (cons v vs) = v ∷ to_list vs

unfoldable pub of_list : List Value → Items
of_list [] = nil
of_list (v ∷ vs) = cons v (of_list vs)

pub to_list-of_list : (vs : List Value) → to_list (of_list vs) ≡ vs
unfolding to_list of_list
to_list-of_list [] = refl
to_list-of_list (v ∷ vs) = λ i. v ∷ to_list-of_list vs i

unfoldable pub entries : Fields → Dict Value
entries end = []
entries (field k v fs) = (k, v) ∷ entries fs

unfoldable pub of_entries : Dict Value → Fields
of_entries [] = end
of_entries ((k, v) ∷ d) = field k v (of_entries d)

pub entries-of_entries : (d : Dict Value) → entries (of_entries d) ≡ d
unfolding entries of_entries
entries-of_entries [] = refl
entries-of_entries ((k, v) ∷ d) = λ i. (k, v) ∷ entries-of_entries d i

-- A mapping with the entries, and a list of the values.
abbrev pub obj : Dict Value → Value
obj d = dict (of_entries d)

abbrev pub items : List Value → Value
items vs = list (of_list vs)

-- `isinstance(v, str)`
abbrev pub as_str : Value → Option String
as_str (str s) = some s
as_str _ = none

-- The entries of a value for which `isinstance(v, dict)` holds.
abbrev pub as_dict : Value → Option (Dict Value)
as_dict (dict fs) = some (entries fs)
as_dict _ = none

-- `v is not None`
abbrev pub is_present : Value → Bool
is_present null = false
is_present _ = true

-- `d.get(k)` where a missing key reads as `None`
unfoldable pub get_value : Fields → String → Value
unfolding entries get
get_value fs k = elim (get (entries fs) k) [ none ↦ null | some v ↦ v ]
