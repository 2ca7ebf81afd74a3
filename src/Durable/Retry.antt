-- ===== src/Durable/Retry.antt =====
-- src/fancy_flow/durable/retry.py: how many times a node may be attempted.
pub mod Attempts
use fancy_flow_py.Prelude.{
  ℕ, zero, suc, String, List, [], ◌∷◌, ◌++◌, Option, none, some, Bool, true, false, ◌==◌, unique,
  if◌then◌else◌, ℤ, pos, negsuc,
}
use fancy_flow_py.Prelude.Dict.{Dict, get}
use fancy_flow_py.Value.{Float}
use fancy_flow_py.Graph.{FlowNode}
use fancy_flow_py.Registry.KindId.{variants}
use fancy_flow_py.Registry.NodeKind.{NodeKind}
use fancy_flow_py.Registry.Catalogue.{NodeKindRegistry, ids_for, get as get_kind}

pub record RetryPolicy : Type 0 where
  pub tries : ℤ
  pub backoff_seconds : Float
  pub per_kind : Dict ℤ

-- max(1, int(n))
abbrev pub at_least_one : ℤ → ℕ
at_least_one (pos zero) = 1
at_least_one (pos (suc n)) = suc n
at_least_one (negsuc n) = 1

unfoldable pub is_unsafe_to_replay : FlowNode → NodeKindRegistry → Bool
unfolding get_kind
is_unsafe_to_replay node kinds = elim node.type [
  | none ↦ false
  | some type ↦ elim (get_kind kinds type) [
    | none ↦ false
    | some kind ↦ elim kind.side_effects [ none ↦ false | some s ↦ s == "unsafe-to-replay" ]
  ]
]

-- `_ids`
unfoldable pub override_ids : FlowNode → NodeKindRegistry → List String
unfolding ids_for variants
override_ids node kinds = elim node.type [
  | none ↦ []
  | some type ↦ unique (type ∷ (ids_for kinds type ++ variants type))
]

unfoldable pub first_override : List String → Dict ℤ → Option ℤ
unfolding get
first_override [] per_kind = none
first_override (k ∷ ks) per_kind =
    let rest = first_override ks per_kind in elim (get per_kind k) [ some n ↦ some n | none ↦ rest ]

unfoldable pub tries_for : RetryPolicy → FlowNode → NodeKindRegistry → ℕ
unfolding is_unsafe_to_replay override_ids first_override
tries_for policy node kinds =
    if is_unsafe_to_replay node kinds
    then 1
    else elim (first_override (override_ids node kinds) policy.per_kind) [
      | some n ↦ at_least_one n
      | none ↦ at_least_one policy.tries
    ]
