-- ===== src/Registry/Validation/Rows.antt =====
-- What the check of a repeater reports: src/fancy_flow/registry/registry.py, `_validate_repeater`.
use Prim.Native.String.{◌++◌ as append}
use fancy_flow_py.Prelude.{
  ℕ, suc, ◌+◌, String, List, [], ◌∷◌, ◌++◌, none, some, Bool, true, false, ◌≡◌, arith, length, ltb,
  ◌&&◌, ◌||◌, eq_iff,
}
use fancy_flow_py.Prelude.Dict.{Dict}
use fancy_flow_py.Value.{Value, Fields, list, dict, of_list, to_list-of_list, entries, as_dict}
use fancy_flow_py.Python.{Conversions}
use fancy_flow_py.Registry.NodeKind.{FieldSpec, config_field, ConfigFields}
use fancy_flow_py.Registry.Validation.{
  Verdict, valid, message, count_breaks, item_text, is_blank_row, check_rows, check_repeater,
  validate_cells, validate_field,
}

abbrev pub is_valid : Verdict → Bool
is_valid valid = true
is_valid _ = false

-- The rows are objects, each an unfilled placeholder or one whose cells pass.
abbrev pub rows_pass : (Dict Value → Bool) → (Dict Value → Verdict) → List Value → Bool
rows_pass skips cells [] = true
rows_pass skips cells (v ∷ rows) =
    elim (as_dict v) [ none ↦ false | some row ↦ skips row || is_valid (cells row) ]
    && rows_pass skips cells rows

-- Rows that pass are walked over, and their number is counted.
check_rows-append :
    (c : Conversions) (label : String) (skips : Dict Value → Bool) (cells : Dict Value → Verdict)
    (index : ℕ) (before rest : List Value)
    → rows_pass skips cells before ≡ true
    → check_rows c label skips cells index (before ++ rest)
      ≡ check_rows c label skips cells (index + length before) rest
unfolding check_rows
check_rows-append c label skips cells index [] rest p = ground arith
check_rows-append c label skips cells index (v ∷ rows) rest p =
    ground (arith, check_rows-append c label skips cells (suc index) rows rest)

-- A repeater whose number of rows is in its bounds reports its first row with a bad cell: when the
-- rows before it are unfilled placeholders or pass, and it is itself no placeholder, the message is
-- the one for its cells, with the row's number counted from 1 in front.
pub validate_field-offending_row :
    (c : Conversions) (s : FieldSpec) (fields : ConfigFields) (before after : List Value)
    (row : Fields) (m : String)
    → s.type ≡ "repeater"
    → count_breaks s.min_items (λ n. ltb (length (before ++ dict row ∷ after)) n) ≡ false
    → count_breaks s.max_items (λ n. ltb n (length (before ++ dict row ∷ after))) ≡ false
    → rows_pass
        (λ r. s.skip_blank_rows && is_blank_row fields r)
        (λ r. validate_cells c s.skip_blank_rows fields r)
        before
      ≡ true
    → (s.skip_blank_rows && is_blank_row fields (entries row)) ≡ false
    → validate_cells c s.skip_blank_rows fields (entries row) ≡ message m
    → validate_field c (config_field s fields) (list (of_list (before ++ dict row ∷ after)))
      ≡ message (append (append (item_text c s.label (suc (length before))) ": ") m)
unfolding validate_field check_repeater check_rows
validate_field-offending_row c s fields before after row m t few many pass full bad =
    let skips = λ (r : Dict Value). s.skip_blank_rows && is_blank_row fields r in
    let cells = λ (r : Dict Value). validate_cells c s.skip_blank_rows fields r in
    ground (
      arith,
      to_list-of_list (before ++ dict row ∷ after),
      check_rows-append c s.label skips cells 1 before (dict row ∷ after) pass,
      eq_iff s.type "repeater",
    )
