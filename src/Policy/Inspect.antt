-- ===== src/Policy/Inspect.antt =====
-- `inspect` and `assert_safe` of src/fancy_flow/security/policy.py.
use Prim.Native.String.{◌++◌ as append}
use fancy_flow_py.Prelude.{
  ℕ, String, List, [], ◌∷◌, ◌++◌, Option, none, some, Bool, false, ◌==◌, ltb, if◌then◌else◌,
  contains, length, or_else,
}
use fancy_flow_py.Prelude.Dict.{Dict, get}
use fancy_flow_py.Value.{Value, null, str, list, to_list, entries, as_str, as_dict}
use fancy_flow_py.Issues.{ImportIssue, node_error, plain_error, edge_error, errors}
use fancy_flow_py.Python.{Conversions, is_true}
use fancy_flow_py.Registry.Validation.{read}
use fancy_flow_py.Policy.Limits.{Rule, GraphPolicy, Encoder}
use fancy_flow_py.Policy.Checks.{kind_issues, value_issues}

-- node.get("kind") or node.get("type"), if it is a text that is not empty
unfoldable pub kind_text : Conversions → Dict Value → Option String
unfolding get is_true
kind_text c node =
    let kind = if is_true c (read node "kind") then read node "kind" else read node "type" in
    elim (as_str kind) [ none ↦ none | some s ↦ if s == "" then none else some s ]

-- The id of a node, if it is a text that is not empty.
unfoldable pub id_text : Value → Option String
unfolding entries get
id_text v = elim (as_dict v) [
  | none ↦ none
  | some node ↦ elim (as_str (read node "id")) [
    | none ↦ none
    | some s ↦ if s == "" then none else some s
  ]
]

-- issues.extend(is), in front of those of the rest of the loop
abbrev pub with_issues :
    List ImportIssue → List ImportIssue × List String → List ImportIssue × List String
with_issues is (rest, seen) = (is ++ rest, seen)

module _ (c : Conversions) (enc : Encoder) (index : Dict (List String)) (p : GraphPolicy) where
  unfoldable pub declared_kind_issues : Option String → String → List ImportIssue
  unfolding kind_issues
  declared_kind_issues none node_id = node_error "A node has no kind." (str node_id) ∷ []
  declared_kind_issues (some kind) node_id = kind_issues c enc index p kind node_id

  -- What a loop turn reports of a node with the id.
  unfoldable pub node_issues : List String → String → Dict Value → Value → List ImportIssue
  unfolding kind_text declared_kind_issues value_issues
  node_issues seen node_id node v =
      (if contains seen node_id
        then node_error (append "Duplicate node id \"" (append node_id "\".")) (str node_id) ∷ []
        else [])
      ++ (declared_kind_issues (kind_text c node) node_id ++ value_issues c enc index p node_id 0 v)

  -- The loop over the nodes, with the ids seen.
  unfoldable pub inspect_nodes : List String → List Value → List ImportIssue × List String
  unfolding id_text node_issues
  inspect_nodes seen [] = ([], seen)
  inspect_nodes seen (v ∷ vs) = elim (as_dict v) [
    | none ↦ with_issues (plain_error "A node is not an object." ∷ []) (inspect_nodes seen vs)
    | some node ↦ elim (id_text v) [
      | none ↦ with_issues (plain_error "A node has no id." ∷ []) (inspect_nodes seen vs)
      | some node_id ↦
          with_issues (node_issues seen node_id node v)
            (inspect_nodes (if contains seen node_id then seen else seen ++ node_id ∷ []) vs)
    ]
  ]

abbrev pub end_error : String → Value → ImportIssue
end_error end edge_id =
    edge_error (append "An edge points at a " (append end " node that does not exist.")) edge_id

-- Whether a value is the id of a node.
abbrev pub refers : List String → Value → Bool
refers seen v = elim (as_str v) [ none ↦ false | some s ↦ contains seen s ]

abbrev pub text_or_null : Value → Value
text_or_null (str s) = str s
text_or_null _ = null

-- One turn of the loop over the edges.
unfoldable pub inspect_edge : List String → Value → List ImportIssue
unfolding get
inspect_edge seen v = elim (as_dict v) [
  | none ↦ plain_error "An edge is not an object." ∷ []
  | some edge ↦
      let edge_id = text_or_null (read edge "id") in
      (if refers seen (read edge "source") then [] else end_error "source" edge_id ∷ [])
      ++ (if refers seen (read edge "target") then [] else end_error "target" edge_id ∷ [])
]

unfoldable pub inspect_edges : List String → List Value → List ImportIssue
unfolding inspect_edge
inspect_edges seen [] = []
inspect_edges seen (v ∷ vs) = inspect_edge seen v ++ inspect_edges seen vs

-- v if isinstance(v, list) else []
unfoldable pub list_items : Value → List Value
unfolding to_list
list_items (list vs) = to_list vs
list_items _ = []

unfoldable pub apply_rules : List Rule → Dict Value → List ImportIssue
apply_rules [] schema = []
apply_rules (rule ∷ rules) schema = rule schema ++ apply_rules rules schema

abbrev pub count_issue : Conversions → ℕ → ℕ → String → List ImportIssue
count_issue c n limit what =
    if ltb limit n
    then plain_error (
        append (c.decimal n)
          (append what (append " exceeds the limit of " (append (c.decimal limit) "."))))
      ∷ []
    else []

-- schema["graph"] if it is an object, else the schema itself
unfoldable pub graph_of : Dict Value → Dict Value
unfolding get
graph_of schema = or_else (as_dict (read schema "graph")) schema

-- What `inspect` reports of a schema that is small enough to walk.
unfoldable pub inspect_graph :
    Conversions → Encoder → Dict (List String) → GraphPolicy → Dict Value → List ImportIssue
unfolding inspect_nodes inspect_edges list_items apply_rules graph_of get
inspect_graph c enc index p schema =
    let nodes = list_items (read (graph_of schema) "nodes") in
    let edges = list_items (read (graph_of schema) "edges") in
    let walked = inspect_nodes c enc index p [] nodes in
    count_issue c (length nodes) p.max_nodes " nodes"
    ++ (count_issue c (length edges) p.max_edges " edges"
        ++ (walked.0 ++ (inspect_edges walked.1 edges ++ apply_rules p.rules schema)))

-- GraphPolicy.inspect
unfoldable pub inspect :
    Conversions → Encoder → Dict (List String) → GraphPolicy → Dict Value → List ImportIssue
unfolding inspect_graph
inspect c enc index p schema = elim (enc.encoded_size schema) [
  | none ↦
      plain_error "The graph could not be encoded as JSON, so it cannot be stored or replayed." ∷ []
  | some n ↦
      if ltb p.max_bytes n
      then plain_error
          (append "The graph is larger than the " (append (c.decimal p.max_bytes) "-byte limit."))
        ∷ []
      else inspect_graph c enc index p schema
]

-- GraphPolicy.assert_safe: the errors that UnsafeGraph carries, or none where nothing is raised.
unfoldable pub assert_safe :
    Conversions
    → Encoder
    → Dict (List String)
    → GraphPolicy
    → Dict Value
    → Option (List ImportIssue)
unfolding inspect errors
assert_safe c enc index p schema = elim (errors (inspect c enc index p schema)) [
  | [] ↦ none
  | i ∷ is ↦ some (i ∷ is)
]
