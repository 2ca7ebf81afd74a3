-- ===== src/Policy/Limits.antt =====
-- The policy of src/fancy_flow/security/policy.py and how it is built.
use fancy_flow_py.Prelude.{
  ℕ, String, List, [], ◌∷◌, ◌++◌, Option, none, some, Bool, map, unique, or_else,
}
use fancy_flow_py.Prelude.Dict.{Dict}
use fancy_flow_py.Value.{Value}
use fancy_flow_py.Issues.{ImportIssue}
use fancy_flow_py.Registry.KindId.{bare}

abbrev pub Rule : Type 0
Rule = Dict Value → List ImportIssue

pub record GraphPolicy : Type 0 where
  pub max_nodes : ℕ
  pub max_edges : ℕ
  pub max_depth : ℕ
  pub max_string_length : ℕ
  pub max_bytes : ℕ
  pub allowed : Option (List String)
  pub denied : List String
  pub rules : List Rule

-- The length of `json.dumps(schema)` in bytes, or `none` where it cannot be encoded, and whether a
-- text has a UTF-8 encoding.
pub record Encoder : Type 0 where
  pub encoded_size : Dict Value → Option ℕ
  pub is_encodable : String → Bool

abbrev pub default_policy : GraphPolicy
default_policy = record {
  max_nodes = 60;
  max_edges = 120;
  max_depth = 12;
  max_string_length = 20000;
  max_bytes = 256000;
  allowed = none;
  denied = [];
  rules = [];
}

unfoldable pub allow_kinds : GraphPolicy → List String → GraphPolicy
unfolding unique bare
allow_kinds p kinds = record p { allowed = some (unique (map bare kinds)) }

unfoldable pub deny_kinds : GraphPolicy → List String → GraphPolicy
unfolding unique bare
deny_kinds p kinds = record p { denied = unique (p.denied ++ map bare kinds) }

unfoldable pub untrusted : Option (List String) → GraphPolicy
unfolding allow_kinds
untrusted none = record default_policy { allowed = some [] }
untrusted (some []) = record default_policy { allowed = some [] }
untrusted (some (k ∷ ks)) = allow_kinds (record default_policy { allowed = some [] }) (k ∷ ks)

abbrev pub trusted : GraphPolicy
trusted = record {
  max_nodes = 5000;
  max_edges = 10000;
  max_depth = 32;
  max_string_length = 1000000;
  max_bytes = 8000000;
  allowed = none;
  denied = [];
  rules = [];
}

unfoldable pub with_limits :
    GraphPolicy → Option ℕ → Option ℕ → Option ℕ → Option ℕ → Option ℕ → GraphPolicy
with_limits p nodes edges depth string_length bytes = record p {
  max_nodes = or_else nodes p.max_nodes;
  max_edges = or_else edges p.max_edges;
  max_depth = or_else depth p.max_depth;
  max_string_length = or_else string_length p.max_string_length;
  max_bytes = or_else bytes p.max_bytes;
}

unfoldable pub add_rule : GraphPolicy → Rule → GraphPolicy
add_rule p rule = record p { rules = p.rules ++ rule ∷ [] }
