-- ===== src/Durable/Retry/Attempts.antt =====
-- The attempts that a retry policy grants.
use fancy_flow_py.Prelude.{
  zero, suc, true, false, ◌≤◌, ◌≡◌, ◌⊎◌, arith, ℤ, pos, negsuc, Bool-cases, Option-cases, inl, inr,
}
use fancy_flow_py.Graph.{FlowNode}
use fancy_flow_py.Registry.Catalogue.{NodeKindRegistry}
use fancy_flow_py.Durable.Retry.{
  RetryPolicy, at_least_one, is_unsafe_to_replay, override_ids, first_override, tries_for,
}

at_least_one-positive : (n : ℤ) → 1 ≤ at_least_one n
at_least_one-positive (pos zero) = omega arith
at_least_one-positive (pos (suc n)) = omega arith
at_least_one-positive (negsuc n) = omega arith

-- A node that is unsafe to replay gets exactly one attempt, and every other node at least one,
-- whatever numbers the policy holds.
pub tries-bounds :
    (policy : RetryPolicy) (node : FlowNode) (kinds : NodeKindRegistry)
    → ((is_unsafe_to_replay node kinds ≡ true) × (tries_for policy node kinds ≡ 1))
      ⊎ ((is_unsafe_to_replay node kinds ≡ false) × (1 ≤ tries_for policy node kinds))
unfolding tries_for
tries-bounds policy node kinds = elim (Bool-cases (is_unsafe_to_replay node kinds)) [
  | inl unsafe ↦ inl (unsafe, rw (unsafe, tries_for))
  | inr safe ↦ elim (Option-cases (first_override (override_ids node kinds) policy.per_kind)) [
    | inl n ↦ inr (safe, rw (safe, n, tries_for) (at_least_one-positive policy.tries))
    | inr (m, f) ↦ inr (safe, rw (safe, f, tries_for) (at_least_one-positive m))
  ]
]
