-- ===== src/Policy/Checks.antt =====
-- `_kind_issues` and `_value_issues` of src/fancy_flow/security/policy.py.
use Prim.Native.Char.{code}
use Prim.Native.String.{◌++◌ as append}
use fancy_flow_py.Prelude.{
  ℕ, suc, String, List, [], ◌∷◌, ◌++◌, none, some, Bool, false, not, ◌&&◌, ◌||◌, eqb, leb, ltb,
  if◌then◌else◌, contains, map, unique, or_else,
}
use fancy_flow_py.Prelude.Dict.{Dict, get}
use fancy_flow_py.Value.{Value, Items, Fields, str, list, tuple, dict}
use fancy_flow_py.Text.{size}
use fancy_flow_py.Issues.{ImportIssue, node_error}
use fancy_flow_py.Python.{Conversions}
use fancy_flow_py.Registry.KindId.{bare}
use fancy_flow_py.Policy.Limits.{GraphPolicy, Encoder}

-- _CONTROL
unfoldable pub is_control : ℕ → Bool
is_control c =
    ltb c 32 && not (eqb c 9) && not (eqb c 10) && not (eqb c 13)
    || eqb c 127
    || leb 128 c && ltb c 160

-- any(char in _CONTROL for char in value)
unfoldable pub has_control : String → Bool
unfolding is_control
has_control String.[] = false
has_control (String.◌∷◌ c s) = is_control (code c) || has_control s

-- Any text names any of the others.
abbrev pub any_in : List String → List String → Bool
any_in [] ys = false
any_in (x ∷ xs) ys = contains ys x || any_in xs ys

-- The bare name of a kind, and those of the ids that the index has for it.
unfoldable pub names_of : Dict (List String) → String → List String
unfolding unique bare get
names_of index kind = unique (bare kind ∷ map bare (or_else (get index (bare kind)) []))

module _ (c : Conversions) (enc : Encoder) (index : Dict (List String)) (p : GraphPolicy) where
  unfoldable pub kind_issues : String → String → List ImportIssue
  unfolding names_of
  kind_issues kind node_id =
      if any_in (names_of index kind) p.denied
      then node_error (append "The kind \"" (append kind "\" is not permitted here.")) (str node_id)
        ∷ []
      else elim p.allowed [
        | none ↦ []
        | some names ↦
            if any_in (names_of index kind) names
            then []
            else node_error (append "The kind \"" (append kind "\" is not on the allowed list."))
                (str node_id)
              ∷ []
      ]

  unfoldable pub text_issues : String → String → List ImportIssue
  unfolding size has_control
  text_issues node_id s =
      if ltb p.max_string_length (size s)
      then node_error
          (append "A string in this node is longer than "
            (append (c.decimal p.max_string_length) " characters."))
          (str node_id)
        ∷ []
      else if not (enc.is_encodable s)
      then node_error "A string in this node is not valid UTF-8." (str node_id) ∷ []
      else if has_control s
      then node_error "A string in this node contains control characters." (str node_id) ∷ []
      else []

  abbrev pub too_deep : String → List ImportIssue
  too_deep node_id =
      node_error
        (append "A node's config nests deeper than " (append (c.decimal p.max_depth) " levels."))
        (str node_id)
      ∷ []

  unfoldable mutual
    unfolding text_issues

    -- _value_issues, and its loops over the items of a list and of a mapping.
    pub value_issues : String → ℕ → Value → List ImportIssue
    value_issues node_id depth (str s) =
        if ltb p.max_depth depth then too_deep node_id else text_issues node_id s
    value_issues node_id depth (list vs) =
        let inside = items_issues node_id (suc depth) vs in
        if ltb p.max_depth depth then too_deep node_id else inside
    value_issues node_id depth (tuple vs) =
        let inside = items_issues node_id (suc depth) vs in
        if ltb p.max_depth depth then too_deep node_id else inside
    value_issues node_id depth (dict fs) =
        let inside = fields_issues node_id (suc depth) fs in
        if ltb p.max_depth depth then too_deep node_id else inside
    value_issues node_id depth v = if ltb p.max_depth depth then too_deep node_id else []

    pub items_issues : String → ℕ → Items → List ImportIssue
    items_issues node_id depth Items.nil = []
    items_issues node_id depth (Items.cons v vs) =
        value_issues node_id depth v ++ items_issues node_id depth vs

    pub fields_issues : String → ℕ → Fields → List ImportIssue
    fields_issues node_id depth Fields.end = []
    fields_issues node_id depth (Fields.field k v fs) =
        (if ltb p.max_depth depth then too_deep node_id else text_issues node_id k)
        ++ (value_issues node_id depth v ++ fields_issues node_id depth fs)
