-- ===== src/Policy/Renamed.antt =====
-- The kind that was renamed, in the index of src/fancy_flow/registry/builtin.py as the policy of
-- src/fancy_flow/security/policy.py reads it.
use fancy_flow_py.Prelude.{
  String, List, [], ◌∷◌, ◌++◌, none, some, true, false, ◌≡◌, refl, arith, contains, contains-append,
  contains-unique, map, Bool-cases, inl, inr, subst, eq_iff, ◌==◌,
}
use fancy_flow_py.Prelude.Dict.{get}
use fancy_flow_py.Python.{Conversions}
use fancy_flow_py.Registry.KindId.{bare}
use fancy_flow_py.Registry.Builtin.{kind_id_index}
use fancy_flow_py.Policy.Limits.{GraphPolicy, Encoder, deny_kinds}
use fancy_flow_py.Policy.Checks.{any_in, names_of, kind_issues}

abbrev pub router_ids : List String
router_ids =
    "@particle-academy/llm_router" ∷ "llm_router" ∷ "@fancy/llm_router" ∷ "llm_branch"
    ∷ "@fancy/llm_branch" ∷ []

router_indexed : get kind_id_index "llm_router" ≡ some router_ids
unfolding kind_id_index get
router_indexed = refl

old_name : names_of kind_id_index "llm_branch" ≡ "llm_branch" ∷ []
unfolding names_of kind_id_index
old_name = refl

old_name_namespaced : names_of kind_id_index "@fancy/llm_branch" ≡ "llm_branch" ∷ []
unfolding names_of kind_id_index
old_name_namespaced = refl

-- The old ids of the renamed kind.
abbrev pub old_ids : List String
old_ids = "llm_branch" ∷ "@fancy/llm_branch" ∷ []

old_names :
    (kind : String) → contains old_ids kind ≡ true → names_of kind_id_index kind ≡ "llm_branch" ∷ []
old_names kind old = elim (Bool-cases ("llm_branch" == kind)) [
  | inl same ↦
      subst (λ k. names_of kind_id_index k ≡ "llm_branch" ∷ []) ((eq_iff "llm_branch" kind).0 same)
        old_name
  | inr other ↦
      subst (λ k. names_of kind_id_index k ≡ "llm_branch" ∷ [])
        ((eq_iff "@fancy/llm_branch" kind).0 (ground (arith, old, other))) old_name_namespaced
]

module _ (c : Conversions) (enc : Encoder) (p : GraphPolicy) (denied : List String) where
  open_deny : p.allowed ≡ none → (deny_kinds p denied).allowed ≡ none
  unfolding deny_kinds
  open_deny h = h

  not_named :
      contains p.denied "llm_branch" ≡ false
      → contains (map bare denied) "llm_branch" ≡ false
      → any_in ("llm_branch" ∷ []) (deny_kinds p denied).denied ≡ false
  unfolding deny_kinds
  not_named h k = ground (
    arith,
    contains-unique (p.denied ++ map bare denied) "llm_branch",
    contains-append p.denied (map bare denied) "llm_branch",
  )

  named_passes :
      (kind node_id : String)
      → p.allowed ≡ none
      → contains p.denied "llm_branch" ≡ false
      → contains (map bare denied) "llm_branch" ≡ false
      → names_of kind_id_index kind ≡ "llm_branch" ∷ []
      → kind_issues c enc kind_id_index (deny_kinds p denied) kind node_id ≡ []
  unfolding kind_issues
  named_passes kind node_id open_list h k named =
      rw (kind_issues, named, not_named h k, open_deny open_list) refl

  -- The old ids of the renamed router kind pass a denylist that names the kind only by its new ids:
  -- the index has the old ids among those of the kind, but no entry under the old bare name, so the
  -- policy compares a node with an old id by that bare name alone. Conditions: the policy has no
  -- allowlist, and neither it nor the kinds denied name the old bare name.
  pub renamed_kind_passes :
      (kind node_id : String)
      → p.allowed ≡ none
      → contains p.denied "llm_branch" ≡ false
      → contains (map bare denied) "llm_branch" ≡ false
      → contains old_ids kind ≡ true
      → ((ids : List String) × (get kind_id_index "llm_router" ≡ some ids)
          × (contains ids kind ≡ true))
        × (kind_issues c enc kind_id_index (deny_kinds p denied) kind node_id ≡ [])
  renamed_kind_passes kind node_id open_list h k old = (
    (router_ids, router_indexed, ground (arith, old)),
    named_passes kind node_id open_list h k (old_names kind old),
  )
