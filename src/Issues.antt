-- ===== src/Issues.antt =====
-- src/fancy_flow/schema/issues.py: what an import reports. The id that an issue names is whatever the
-- document holds there.
use fancy_flow_py.Prelude.{String, List, [], ◌∷◌, Bool, true, false, not, ◌&&◌, ◌||◌}
use fancy_flow_py.Value.{Value, null}
use fancy_flow_py.Graph.{FlowGraph}

pub data Level : Type 0 where
  error warning : Level

pub record ImportIssue : Type 0 where
  pub level : Level
  pub message : String
  pub node_id : Value
  pub edge_id : Value

abbrev pub node_error : String → Value → ImportIssue
node_error message node_id = record {
  level = error;
  message = message;
  node_id = node_id;
  edge_id = null;
}

abbrev pub plain_error : String → ImportIssue
plain_error message = node_error message null

abbrev pub edge_error : String → Value → ImportIssue
edge_error message edge_id = record (plain_error message) { edge_id = edge_id }

abbrev pub node_warning : String → Value → ImportIssue
node_warning message node_id = record (node_error message node_id) { level = warning }

abbrev pub edge_warning : String → Value → ImportIssue
edge_warning message edge_id = record (edge_error message edge_id) { level = warning }

abbrev pub is_error : ImportIssue → Bool
is_error issue = elim issue.level [ error ↦ true | warning ↦ false ]

unfoldable pub errors : List ImportIssue → List ImportIssue
errors [] = []
errors (i ∷ is) = let rest = errors is in elim (is_error i) [ true ↦ i ∷ rest | false ↦ rest ]

unfoldable pub warnings : List ImportIssue → List ImportIssue
warnings [] = []
warnings (i ∷ is) = let rest = warnings is in elim (is_error i) [ true ↦ rest | false ↦ i ∷ rest ]

-- any(issue.is_error for issue in issues)
unfoldable pub any_error : List ImportIssue → Bool
any_error [] = false
any_error (i ∷ is) = is_error i || any_error is

pub record ImportResult : Type 0 where
  pub ok : Bool
  pub graph : FlowGraph
  pub issues : List ImportIssue

abbrev pub is_empty {ℓ} : {A : Type ℓ} → List A → Bool
is_empty [] = true
is_empty (x ∷ xs) = false

-- ImportResult.refused
unfoldable pub is_refused : ImportResult → Bool
is_refused r = not r.ok && is_empty r.graph.nodes && is_empty r.graph.edges
