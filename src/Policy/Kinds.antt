-- ===== src/Policy/Kinds.antt =====
-- The kind policy of src/fancy_flow/security/policy.py under every spelling of a kind.
use fancy_flow_py.Prelude.{
  ℕ, String, List, [], ◌∷◌, ◌++◌, none, some, Bool, true, false, not, ◌&&◌, ◌==◌, ◌≡◌, refl, ◌∙◌,
  ap, arith, Bool-cases, Option-cases, inl, inr, leb, contains, contains-append, contains-unique,
  is_some, map, eq_iff,
}
use fancy_flow_py.Prelude.Dict.{Dict}
use fancy_flow_py.Value.{Value, Fields, dict, as_dict, entries}
use fancy_flow_py.Python.{Conversions}
use fancy_flow_py.Registry.KindId.{bare}
use fancy_flow_py.Registry.Validation.{read}
use fancy_flow_py.Policy.Limits.{GraphPolicy, Encoder, deny_kinds, untrusted}
use fancy_flow_py.Policy.Checks.{any_in, names_of}
use fancy_flow_py.Policy.Inspect.{graph_of, list_items, kind_text, id_text, assert_safe}
use fancy_flow_py.Policy.Walked.{all_safe, is_safe_node, is_safe_object, permits}
use fancy_flow_py.Policy.Accepted.{is_safe, is_safe_graph, assert_safe_iff}

any_in-contains :
    (xs ys : List String) (k : String)
    → contains xs k ≡ true
    → contains ys k ≡ true
    → any_in xs ys ≡ true
any_in-contains [] ys k h m = absurd (cc)
any_in-contains (x ∷ xs) ys k h m = ground (arith, any_in-contains xs ys k, eq_iff x k)

contains-map-bare :
    (kinds : List String) (kind : String)
    → contains kinds kind ≡ true
    → contains (map bare kinds) (bare kind) ≡ true
contains-map-bare [] kind h = absurd (cc)
contains-map-bare (k ∷ ks) kind h = elim (Bool-cases (k == kind)) [
  | inl here ↦
      let same = ap bare ((eq_iff k kind).0 here) in
      ground (arith, eq_iff (bare k) (bare kind), same)
  | inr other ↦ ground (arith, contains-map-bare ks kind)
]

-- A kind that was denied, under one of the names that the index has for `kind`, is not permitted.
denied-not_permitted :
    (index : Dict (List String)) (p : GraphPolicy) (denied : List String) (spelling kind : String)
    → contains denied spelling ≡ true
    → contains (names_of index kind) (bare spelling) ≡ true
    → permits index (deny_kinds p denied) kind ≡ false
unfolding deny_kinds
denied-not_permitted index p denied spelling kind h named = ground (
  arith,
  any_in-contains (names_of index kind) (deny_kinds p denied).denied (bare spelling) named (
      contains-unique (p.denied ++ map bare denied) (bare spelling)
      ∙ contains-append p.denied (map bare denied) (bare spelling)
      ∙ ground (arith, contains-map-bare denied spelling h)),
)

&&-false : (b : Bool) → (b && false) ≡ false
&&-false b = ground arith

unsafe_kind :
    (c : Conversions) (enc : Encoder) (index : Dict (List String)) (p : GraphPolicy) (node : Fields)
    (kind : String)
    → kind_text c (entries node) ≡ some kind
    → permits index p kind ≡ false
    → is_safe_node c enc index p (dict node) ≡ false
unfolding is_safe_node is_safe_object
unsafe_kind c enc index p node kind has_kind h =
    rw (is_safe_node, is_safe_object, has_kind, h) (&&-false (is_some (id_text (dict node))))

no_name : (names : List String) → any_in names [] ≡ false
no_name [] = refl
no_name (n ∷ names) = ground (arith, no_name names)

nothing_permitted :
    (index : Dict (List String)) (kind : String) → permits index (untrusted none) kind ≡ false
unfolding untrusted
nothing_permitted index kind = ground (arith, no_name (names_of index kind))

no_kind_allowed :
    (c : Conversions) (enc : Encoder) (index : Dict (List String)) (v : Value)
    → is_safe_node c enc index (untrusted none) v ≡ false
unfolding is_safe_node is_safe_object
no_kind_allowed c enc index v = elim (Option-cases (as_dict v)) [
  | inl no_object ↦ rw (is_safe_node, no_object) refl
  | inr (node, object) ↦ elim (Option-cases (kind_text c node)) [
    | inl no_kind ↦
        rw (is_safe_node, object, is_safe_object, no_kind) (&&-false (is_some (id_text v)))
    | inr (kind, has_kind) ↦
        rw (is_safe_node, object, is_safe_object, has_kind, nothing_permitted)
          (&&-false (is_some (id_text v)))
  ]
]

all_safe-one :
    (c : Conversions) (enc : Encoder) (index : Dict (List String)) (p : GraphPolicy)
    (before : List Value) (v : Value) (after : List Value)
    → is_safe_node c enc index p v ≡ false
    → all_safe c enc index p (before ++ v ∷ after) ≡ false
all_safe-one c enc index p [] v after h = ground arith
all_safe-one c enc index p (w ∷ before) v after h =
    ground (arith, all_safe-one c enc index p before v after h)

unsafe_graph :
    (c : Conversions) (enc : Encoder) (index : Dict (List String)) (p : GraphPolicy)
    (schema : Dict Value)
    → all_safe c enc index p (list_items (read (graph_of schema) "nodes")) ≡ false
    → is_safe c enc index p schema ≡ false
unfolding is_safe is_safe_graph
unsafe_graph c enc index p schema h = elim (Option-cases (enc.encoded_size schema)) [
  | inl not_encoded ↦ rw (is_safe, not_encoded) refl
  | inr (n, encoded) ↦ rw (is_safe, encoded) (unsafe_walk n)
]
  where
    unsafe_walk : (n : ℕ) → (leb n p.max_bytes && is_safe_graph c enc index p schema) ≡ false
    unsafe_walk n = ground (arith, h)

-- A document with a node whose kind was denied under any spelling that names the same kind is
-- refused, wherever the node stands and whatever else the policy says: the bare name of the denied
-- spelling is one of the names that the index of kinds has for the node's kind.
pub deny_kinds-refused :
    (c : Conversions) (enc : Encoder) (index : Dict (List String)) (p : GraphPolicy)
    (denied : List String) (spelling kind : String) (schema : Dict Value) (before : List Value)
    (node : Fields) (after : List Value)
    → list_items (read (graph_of schema) "nodes") ≡ before ++ dict node ∷ after
    → kind_text c (entries node) ≡ some kind
    → contains denied spelling ≡ true
    → contains (names_of index kind) (bare spelling) ≡ true
    → is_some (assert_safe c enc index (deny_kinds p denied) schema) ≡ true
deny_kinds-refused c enc index p denied spelling kind schema before node after nodes has_kind h
      named =
    let q = deny_kinds p denied in
    let bad =
      unsafe_kind c enc index q node kind has_kind
        (denied-not_permitted index p denied spelling kind h named) in
    assert_safe_iff c enc index q schema
    ∙ ap not (
        unsafe_graph c enc index q schema (
          ap (all_safe c enc index q) nodes
          ∙ all_safe-one c enc index q before (dict node) after bad))

-- A policy for untrusted authors that names no kinds refuses every document with a node.
pub untrusted-refuses :
    (c : Conversions) (enc : Encoder) (index : Dict (List String)) (schema : Dict Value) (v : Value)
    (vs : List Value)
    → list_items (read (graph_of schema) "nodes") ≡ v ∷ vs
    → is_some (assert_safe c enc index (untrusted none) schema) ≡ true
untrusted-refuses c enc index schema v vs nodes =
    let q = untrusted none in
    assert_safe_iff c enc index q schema
    ∙ ap not (
        unsafe_graph c enc index q schema (
          ap (all_safe c enc index q) nodes
          ∙ all_safe-one c enc index q [] v vs (no_kind_allowed c enc index v)))
