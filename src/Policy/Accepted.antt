-- ===== src/Policy/Accepted.antt =====
-- What `assert_safe` of src/fancy_flow/security/policy.py accepts.
use Prim.Native.String.{◌++◌ as append}
use fancy_flow_py.Prelude.{
  subst, ℕ, String, List, [], ◌∷◌, ◌++◌, none, some, Bool, true, false, not, ◌&&◌, ◌≡◌, refl, sym,
  arith, Bool-cases, Option-cases, inl, inr, distinct, is_some, leb, ltb, length, if◌then◌else◌,
}
use fancy_flow_py.Prelude.Dict.{Dict}
use fancy_flow_py.Value.{Value}
use fancy_flow_py.Issues.{ImportIssue, any_error, errors, plain_error}
use fancy_flow_py.Python.{Conversions}
use fancy_flow_py.Registry.Validation.{read}
use fancy_flow_py.Policy.Limits.{GraphPolicy, Encoder}
use fancy_flow_py.Policy.Inspect.{
  graph_of, list_items, apply_rules, count_issue, inspect_nodes, inspect_edges, inspect_graph,
  inspect, assert_safe,
}
use fancy_flow_py.Policy.Values.{both-clean, any_error-append}
use fancy_flow_py.Policy.Walked.{
  id_texts, all_joined, all_safe, inspect_edges-joined, inspect_nodes-safe, inspect_nodes-seen,
}

errors-any :
    (is : List ImportIssue)
    → is_some (elim (errors is) [ [] ↦ none | i ∷ is ↦ some i ]) ≡ any_error is
unfolding errors any_error
errors-any [] = refl
errors-any (i ∷ is) = ground (arith, errors-any is)

count_issue-leb :
    (c : Conversions) (n limit : ℕ) (what : String)
    → any_error (count_issue c n limit what) ≡ not (leb n limit)
unfolding any_error
count_issue-leb c n limit what = ground arith

module _ (c : Conversions) (enc : Encoder) (index : Dict (List String)) (p : GraphPolicy) where
  -- The nodes and edges of a document are no more than the limits, its nodes are safe and have distinct
  -- ids, its edges join two of its nodes, and the host's rules have no objection.
  unfoldable pub is_safe_graph : Dict Value → Bool
  unfolding graph_of list_items apply_rules any_error
  is_safe_graph schema =
      let nodes = list_items (read (graph_of schema) "nodes") in
      let edges = list_items (read (graph_of schema) "edges") in
      leb (length nodes) p.max_nodes
      && (leb (length edges) p.max_edges
          && (all_safe c enc index p nodes
              && distinct (id_texts nodes)
              && (all_joined (id_texts nodes) edges
                  && not (any_error (apply_rules p.rules schema)))))

  -- A document that is small enough, with a safe graph.
  unfoldable pub is_safe : Dict Value → Bool
  unfolding is_safe_graph
  is_safe schema = elim (enc.encoded_size schema) [
    | none ↦ false
    | some n ↦ leb n p.max_bytes && is_safe_graph schema
  ]

  -- The walk over the nodes and the edges, with the issues of the rules behind it.
  walk-safe :
      (nodes edges : List Value) (rest : List ImportIssue)
      → any_error (
          (inspect_nodes c enc index p [] nodes).0
          ++ (inspect_edges (inspect_nodes c enc index p [] nodes).1 edges ++ rest))
        ≡ not (
            all_safe c enc index p nodes
            && distinct (id_texts nodes)
            && (all_joined (id_texts nodes) edges && not (any_error rest)))
  walk-safe nodes edges rest =
      let walked = inspect_nodes c enc index p [] nodes in
      let tail = inspect_edges walked.1 edges ++ rest in
      let good = all_safe c enc index p nodes && distinct (id_texts nodes) in
      elim (Bool-cases good) [
        | inl fine ↦
            both-clean walked.0 tail good
              (all_joined (id_texts nodes) edges && not (any_error rest))
              (inspect_nodes-safe c enc index p [] nodes refl)
              (subst
                (λ seen.
                  any_error (inspect_edges seen edges ++ rest)
                  ≡ not (all_joined (id_texts nodes) edges && not (any_error rest)))
                (sym (
                  inspect_nodes-seen c enc index p [] nodes (ground (arith, fine))
                    (ground (arith, fine))))
                (both-clean (inspect_edges (id_texts nodes) edges) rest
                  (all_joined (id_texts nodes) edges) (not (any_error rest))
                  (inspect_edges-joined (id_texts nodes) edges) (ground arith)))
        | inr bad ↦
            ground (
              arith,
              any_error-append walked.0 tail,
              inspect_nodes-safe c enc index p [] nodes refl,
            )
      ]

  -- Of a safe document: each node is safe, and no id stands twice.
  pub is_safe-nodes :
      (schema : Dict Value)
      → is_safe schema ≡ true
      → (all_safe c enc index p (list_items (read (graph_of schema) "nodes"))
          && distinct (id_texts (list_items (read (graph_of schema) "nodes"))))
        ≡ true
  unfolding is_safe is_safe_graph
  is_safe-nodes schema h = elim (Option-cases (enc.encoded_size schema)) [
    | inl not_encoded ↦ absurd (ground (arith, not_encoded))
    | inr (n, encoded) ↦ ground (arith, encoded)
  ]

  inspect_graph-safe :
      (schema : Dict Value)
      → any_error (inspect_graph c enc index p schema) ≡ not (is_safe_graph schema)
  unfolding inspect_graph is_safe_graph
  inspect_graph-safe schema =
      let nodes = list_items (read (graph_of schema) "nodes") in
      let edges = list_items (read (graph_of schema) "edges") in
      let ruled = apply_rules p.rules schema in
      let walked = inspect_nodes c enc index p [] nodes in
      let core =
        all_safe c enc index p nodes
        && distinct (id_texts nodes)
        && (all_joined (id_texts nodes) edges && not (any_error ruled)) in
      both-clean (count_issue c (length nodes) p.max_nodes " nodes")
        (count_issue c (length edges) p.max_edges " edges"
          ++ (walked.0 ++ (inspect_edges walked.1 edges ++ ruled)))
        (leb (length nodes) p.max_nodes) (leb (length edges) p.max_edges && core)
        (count_issue-leb c (length nodes) p.max_nodes " nodes")
        (both-clean (count_issue c (length edges) p.max_edges " edges")
          (walked.0 ++ (inspect_edges walked.1 edges ++ ruled)) (leb (length edges) p.max_edges)
          core (count_issue-leb c (length edges) p.max_edges " edges")
          (walk-safe nodes edges ruled))

  inspect-safe :
      (schema : Dict Value) → any_error (inspect c enc index p schema) ≡ not (is_safe schema)
  unfolding inspect is_safe any_error
  inspect-safe schema = elim (Option-cases (enc.encoded_size schema)) [
    | inl not_encoded ↦ rw (inspect, is_safe, not_encoded, any_error) refl
    | inr (n, encoded) ↦ rw (inspect, is_safe, encoded) (size_test n schema)
  ]
    where
      size_test :
          (n : ℕ) (schema : Dict Value)
          → any_error (
              if ltb p.max_bytes n
              then plain_error (
                  append "The graph is larger than the "
                    (append (c.decimal p.max_bytes) "-byte limit."))
                ∷ []
              else inspect_graph c enc index p schema)
            ≡ not (leb n p.max_bytes && is_safe_graph schema)
      size_test n schema = ground (arith, inspect_graph-safe schema)

  -- A schema is accepted, which is to say that nothing is raised, just when it is safe: it can be
  -- encoded within the limit of bytes, has no more nodes and edges than allowed, each of its nodes is an
  -- object with an id, a permitted kind under one of its names and only clean values that are not
  -- nested too deep, no id stands twice, each edge joins two of the nodes, and no rule finds an error.
  pub assert_safe_iff :
      (schema : Dict Value) → is_some (assert_safe c enc index p schema) ≡ not (is_safe schema)
  unfolding assert_safe
  assert_safe_iff schema =
      ground (arith, errors-any (inspect c enc index p schema), inspect-safe schema)
