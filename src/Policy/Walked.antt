-- ===== src/Policy/Walked.antt =====
-- What the loops of `inspect` over the nodes and the edges let through:
-- src/fancy_flow/security/policy.py.
use Prim.Native.String.{◌++◌ as append}
use fancy_flow_py.Prelude.{
  String, List, [], ◌∷◌, ◌++◌, Option, none, some, Bool, true, false, not, ◌&&◌, ◌||◌, ◌≡◌, refl,
  sym, subst, ◌∙◌, ap, arith, Bool-cases, Option-cases, ◌⊎◌, inl, inr, contains, distinct,
  distinct-snoc, distinct-middle, append_assoc, append-nil, is_some, or_else, map, if◌then◌else◌,
}
use fancy_flow_py.Prelude.Dict.{Dict}
use fancy_flow_py.Value.{Value, str, as_dict}
use fancy_flow_py.Issues.{any_error, node_error}
use fancy_flow_py.Python.{Conversions}
use fancy_flow_py.Registry.Validation.{read}
use fancy_flow_py.Policy.Limits.{GraphPolicy, Encoder}
use fancy_flow_py.Policy.Checks.{any_in, names_of, kind_issues, value_issues}
use fancy_flow_py.Policy.Inspect.{
  declared_kind_issues, kind_text, id_text, node_issues, inspect_nodes, with_issues, inspect_edge,
  inspect_edges, refers,
}
use fancy_flow_py.Policy.Values.{any_error-append, both-clean, is_clean, value_issues-clean}

-- The texts of the ids of a document's nodes.
abbrev pub id_texts : List Value → List String
id_texts vs = map (λ v. or_else (id_text v) "") vs

-- The kind, by any of its names, is not denied, and is allowed if there is a list of the allowed.
abbrev pub permits : Dict (List String) → GraphPolicy → String → Bool
permits index p kind =
    not (any_in (names_of index kind) p.denied)
    && elim p.allowed [ none ↦ true | some names ↦ any_in (names_of index kind) names ]

-- The edge is an object with ends among the ids.
abbrev pub is_joined : List String → Value → Bool
is_joined seen v = elim (as_dict v) [
  | none ↦ false
  | some edge ↦ refers seen (read edge "source") && refers seen (read edge "target")
]

abbrev pub all_joined : List String → List Value → Bool
all_joined seen [] = true
all_joined seen (v ∷ vs) = is_joined seen v && all_joined seen vs

inspect_edge-joined :
    (seen : List String) (v : Value) → any_error (inspect_edge seen v) ≡ not (is_joined seen v)
unfolding inspect_edge any_error
inspect_edge-joined seen v = elim (Option-cases (as_dict v)) [
  | inl none_there ↦ rw (inspect_edge, is_joined, none_there) refl
  | inr (edge, there) ↦ rw (inspect_edge, is_joined, there) (ground arith)
]

pub inspect_edges-joined :
    (seen : List String) (vs : List Value)
    → any_error (inspect_edges seen vs) ≡ not (all_joined seen vs)
unfolding inspect_edges any_error
inspect_edges-joined seen [] = refl
inspect_edges-joined seen (v ∷ vs) =
    both-clean (inspect_edge seen v) (inspect_edges seen vs) (is_joined seen v) (all_joined seen vs)
      (inspect_edge-joined seen v) (inspect_edges-joined seen vs)

module _ (c : Conversions) (enc : Encoder) (index : Dict (List String)) (p : GraphPolicy) where
  -- The object has a permitted kind, and the value is clean.
  unfoldable pub is_safe_object : Dict Value → Value → Bool
  unfolding kind_text
  is_safe_object node v =
      elim (kind_text c node) [ none ↦ false | some kind ↦ permits index p kind ]
      && is_clean enc p p.max_depth v

  -- The node is an object with an id, a permitted kind, and clean values.
  unfoldable pub is_safe_node : Value → Bool
  unfolding is_safe_object id_text
  is_safe_node v = elim (as_dict v) [
    | none ↦ false
    | some node ↦ is_some (id_text v) && is_safe_object node v
  ]

  abbrev pub all_safe : List Value → Bool
  all_safe [] = true
  all_safe (v ∷ vs) = is_safe_node v && all_safe vs

  kind_issues-permits :
      (kind node_id : String)
      → any_error (kind_issues c enc index p kind node_id) ≡ not (permits index p kind)
  unfolding kind_issues any_error
  kind_issues-permits kind node_id = ground arith

  declared_kind_issues-permits :
      (kind : Option String) (node_id : String)
      → any_error (declared_kind_issues c enc index p kind node_id)
        ≡ not (elim kind [ none ↦ false | some k ↦ permits index p k ])
  unfolding declared_kind_issues any_error
  declared_kind_issues-permits none node_id = refl
  declared_kind_issues-permits (some kind) node_id = kind_issues-permits kind node_id

  node_issues-safe :
      (seen : List String) (node_id : String) (node : Dict Value) (v : Value)
      → any_error (node_issues c enc index p seen node_id node v)
        ≡ not (not (contains seen node_id) && is_safe_object node v)
  unfolding node_issues any_error is_safe_object
  node_issues-safe seen node_id node v =
      both-clean
        (if contains seen node_id
          then node_error (append "Duplicate node id \"" (append node_id "\".")) (str node_id) ∷ []
          else [])
        (declared_kind_issues c enc index p (kind_text c node) node_id
          ++ value_issues c enc index p node_id 0 v)
        (not (contains seen node_id)) (is_safe_object node v) (ground arith)
        (both-clean (declared_kind_issues c enc index p (kind_text c node) node_id)
          (value_issues c enc index p node_id 0 v)
          (elim (kind_text c node) [ none ↦ false | some kind ↦ permits index p kind ])
          (is_clean enc p p.max_depth v) (declared_kind_issues-permits (kind_text c node) node_id)
          (value_issues-clean c enc index p node_id 0 p.max_depth v (omega arith)))

  abbrev after : List String → String → List String
  after seen node_id = if contains seen node_id then seen else seen ++ node_id ∷ []

  -- One turn, at an object with an id.
  inspect_nodes-step :
      (seen : List String) (node_id : String) (node : Dict Value) (v : Value) (vs : List Value)
      → as_dict v ≡ some node
      → id_text v ≡ some node_id
      → inspect_nodes c enc index p seen (v ∷ vs)
        ≡ with_issues
            (node_issues c enc index p seen node_id node v)
            (inspect_nodes c enc index p (after seen node_id) vs)
  unfolding inspect_nodes
  inspect_nodes-step seen node_id node v vs object has_id = rw (inspect_nodes, object, has_id) refl

  inspect_nodes-turn :
      (seen : List String) (node_id : String) (node : Dict Value) (v : Value) (vs : List Value)
      → as_dict v ≡ some node
      → id_text v ≡ some node_id
      → any_error (inspect_nodes c enc index p seen (v ∷ vs)).0 ≡ (
          not (not (contains seen node_id) && is_safe_object node v)
          || any_error (inspect_nodes c enc index p (after seen node_id) vs).0)
  inspect_nodes-turn seen node_id node v vs object has_id =
      rw (inspect_nodes-step seen node_id node v vs object has_id) (
        ground (
          arith,
          any_error-append (node_issues c enc index p seen node_id node v)
              (inspect_nodes c enc index p (after seen node_id) vs).0,
          node_issues-safe seen node_id node v,
        ))

  is_safe_node-object :
      (node_id : String) (node : Dict Value) (v : Value)
      → as_dict v ≡ some node
      → id_text v ≡ some node_id
      → is_safe_node v ≡ is_safe_object node v
  unfolding is_safe_node
  is_safe_node-object node_id node v object has_id = rw (is_safe_node, object, has_id) refl

  -- An item that is no object with an id is an error.
  inspect_nodes-nameless :
      (seen : List String) (v : Value) (vs : List Value)
      → (as_dict v ≡ none) ⊎ (id_text v ≡ none)
      → (any_error (inspect_nodes c enc index p seen (v ∷ vs)).0 ≡ true) × (is_safe_node v ≡ false)
  unfolding inspect_nodes is_safe_node any_error
  inspect_nodes-nameless seen v vs (inl no_object) =
      (rw (inspect_nodes, no_object, any_error) refl, rw (is_safe_node, no_object) refl)
  inspect_nodes-nameless seen v vs (inr no_id) = elim (Option-cases (as_dict v)) [
    | inl no_object ↦
        (rw (inspect_nodes, no_object, any_error) refl, rw (is_safe_node, no_object) refl)
    | inr (node, object) ↦
        (rw (inspect_nodes, object, no_id, any_error) refl, rw (is_safe_node, object, no_id) refl)
  ]

  nothing : (seen : List String) → any_error (inspect_nodes c enc index p seen []).0 ≡ false
  unfolding inspect_nodes any_error
  nothing seen = refl

  -- The loop over the nodes finds no error just when each node is safe and no id stands twice.
  pub inspect_nodes-safe :
      (seen : List String) (vs : List Value)
      → distinct seen ≡ true
      → any_error (inspect_nodes c enc index p seen vs).0
        ≡ not (all_safe vs && distinct (seen ++ id_texts vs))
  inspect_nodes-safe seen [] d = rw (append-nil, d) (nothing seen)
  inspect_nodes-safe seen (v ∷ vs) d = elim (Option-cases (as_dict v)) [
    | inl no_object ↦ ground (arith, inspect_nodes-nameless seen v vs (inl no_object))
    | inr (node, object) ↦ elim (Option-cases (id_text v)) [
      | inl no_id ↦ ground (arith, inspect_nodes-nameless seen v vs (inr no_id))
      | inr (node_id, has_id) ↦ elim (Bool-cases (contains seen node_id)) [
        | inl old ↦ ground (
          arith,
          inspect_nodes-turn seen node_id node v vs object has_id,
          is_safe_node-object node_id node v object has_id,
          distinct-middle seen node_id (id_texts vs),
          has_id,
        )
        | inr new ↦ ground (
          arith,
          inspect_nodes-turn seen node_id node v vs object has_id,
          is_safe_node-object node_id node v object has_id,
          inspect_nodes-safe (seen ++ node_id ∷ []) vs (distinct-snoc seen node_id d new),
          append_assoc seen (node_id ∷ []) (id_texts vs),
          has_id,
        )
      ]
    ]
  ]

  inspect_nodes-seen-step :
      (seen : List String) (node_id : String) (node : Dict Value) (v : Value) (vs : List Value)
      → as_dict v ≡ some node
      → id_text v ≡ some node_id
      → (inspect_nodes c enc index p seen (v ∷ vs)).1
        ≡ (inspect_nodes c enc index p (after seen node_id) vs).1
  inspect_nodes-seen-step seen node_id node v vs object has_id =
      rw (inspect_nodes-step seen node_id node v vs object has_id) refl

  pub is_safe_node-parts :
      (v : Value)
      → is_safe_node v ≡ true
      → (node : Dict Value) × (node_id : String) × (as_dict v ≡ some node)
        × (id_text v ≡ some node_id)
  unfolding is_safe_node
  is_safe_node-parts v safe = elim (Option-cases (as_dict v)) [
    | inl no_object ↦ absurd (ground (arith, no_object))
    | inr (node, object) ↦ elim (Option-cases (id_text v)) [
      | inl no_id ↦ absurd (ground (arith, object, no_id))
      | inr (node_id, has_id) ↦ (node, node_id, object, has_id)
    ]
  ]

  nothing_seen : (seen : List String) → (inspect_nodes c enc index p seen []).1 ≡ seen
  unfolding inspect_nodes
  nothing_seen seen = refl

  -- The ids seen are those of the nodes, when each node is safe and no id stands twice.
  pub inspect_nodes-seen :
      (seen : List String) (vs : List Value)
      → all_safe vs ≡ true
      → distinct (seen ++ id_texts vs) ≡ true
      → (inspect_nodes c enc index p seen vs).1 ≡ seen ++ id_texts vs
  inspect_nodes-seen seen [] safe d = nothing_seen seen ∙ sym (append-nil seen)
  inspect_nodes-seen seen (v ∷ vs) safe d =
      let (node, node_id, object, has_id) = is_safe_node-parts v (ground (arith, safe)) in
      let d' = subst (λ o. distinct (seen ++ or_else o "" ∷ id_texts vs) ≡ true) has_id d in
      let new = distinct-middle seen node_id (id_texts vs) d' in
      let joined = append_assoc seen (node_id ∷ []) (id_texts vs) in
      let rest =
        inspect_nodes-seen (seen ++ node_id ∷ []) vs (ground (arith, safe))
          (ap distinct joined ∙ d') in
      rw (inspect_nodes-seen-step seen node_id node v vs object has_id, new, has_id) (rest ∙ joined)
