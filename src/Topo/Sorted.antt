-- ===== src/Topo/Sorted.antt =====
-- What `_topo_sort` returns: every node once, sources first, exactly when the graph has no cycle.
use fancy_flow_py.Prelude.{
  String, List, [], ◌∷◌, ◌++◌, ◌≡◌, refl, subst, arith, sym, ◌∙◌, length, some, true, Bool, ◌||◌,
  eq_iff, contains, contains-append, distinct, subset_of_length, IsSubset, Bool-cases, Option-cases,
  is_some, append-nil, inl, inr, eqb,
}
use fancy_flow_py.Prelude.Dict.{Dict, get, put, get-put, has}
use fancy_flow_py.Graph.{FlowNode, FlowEdge, FlowGraph, ids, all_join, IsWellFormed}
use fancy_flow_py.Topo.{drained, index_nodes, pick, topo_sort}
use fancy_flow_py.Topo.Invariant.{IsOrdered}
use fancy_flow_py.Topo.Start.{targets}
use fancy_flow_py.Topo.Loop.{drained-Inv, drained_ends, length-map}

-- Each entry of `d` stands under its node's own id.
abbrev IsIndex : Dict FlowNode → Type 0
IsIndex d = (k : String) (n : FlowNode) → get d k ≡ some n → n.id ≡ k

index_nodes-IsIndex :
    (ns : List FlowNode) (d : Dict FlowNode) → IsIndex d → IsIndex (index_nodes ns d)
unfolding index_nodes
index_nodes-IsIndex [] d h = h
index_nodes-IsIndex (m ∷ ns) d h =
    index_nodes-IsIndex ns _ λ k n e. ground (arith, get-put d m.id k m, eq_iff m.id k, h k n)

has-index_nodes :
    (ns : List FlowNode) (d : Dict FlowNode) (k : String)
    → has (index_nodes ns d) k ≡ (contains (ids ns) k || has d k)
unfolding index_nodes
has-index_nodes [] d k = refl
has-index_nodes (m ∷ ns) d k =
    ground (arith, has-index_nodes ns (put d m.id m) k, get-put d m.id k m)

ids-pick :
    (d : Dict FlowNode) (ks : List String)
    → IsIndex d
    → ((k : String) → contains ks k ≡ true → has d k ≡ true)
    → ids (pick d ks) ≡ ks
unfolding pick
ids-pick d [] h there = refl
ids-pick d (k ∷ ks) h there =
    let found = there k (ground (arith, eq_iff k k)) in
    let rest = ids-pick d ks h (λ j m. there j (ground arith)) in
    elim (Option-cases (get d k)) [
      | inl e ↦ absurd (subst (λ o. is_some o ≡ true → ⊥) (sym e) (λ f. cc) found)
      | inr (n, e) ↦ simp (pick, e, rest, h k n e)
    ]

pub targets-joined :
    (ns : List FlowNode) (es : List FlowEdge)
    → all_join ns es ≡ true
    → IsSubset (targets es) (ids ns)
targets-joined ns [] h k m = ground arith
targets-joined ns (e ∷ es) h k m =
    ground (arith, targets-joined ns es (ground arith) k, eq_iff e.target k)

module _ (g : FlowGraph) (wf : IsWellFormed g) where
  pub ordered-inside : IsSubset (drained g).ordered (ids g.nodes)
  ordered-inside k m =
      let key =
        (drained-Inv g).counts.inside k
          (ground (arith, contains-append (drained g).ordered (drained g).queue k)) in
      ground (
        arith,
        targets-joined g.nodes g.edges wf.edges_join k,
        contains-append (ids g.nodes) (targets g.edges) k,
      )

  pub distinct-ordered : distinct (drained g).ordered ≡ true
  distinct-ordered =
      let once : distinct ((drained g).ordered ++ []) ≡ true =
        subst (λ q. distinct ((drained g).ordered ++ q) ≡ true) (drained_ends g)
          (drained-Inv g).counts.once in
      rw append-nil at once

  ids-picked : ids (pick (index_nodes g.nodes []) (drained g).ordered) ≡ (drained g).ordered
  ids-picked =
      ids-pick (index_nodes g.nodes []) (drained g).ordered
        (index_nodes-IsIndex g.nodes [] (λ k n e. unfold get in cc))
        (λ k m. ground (arith, has-index_nodes g.nodes [] k, ordered-inside k))

abbrev pub IsPlan : FlowGraph → List FlowNode → Type 0
IsPlan g order =
    IsOrdered g.edges [] (ids order)
    × (distinct (ids order) ≡ true)
    × ((k : String) → contains (ids order) k ≡ contains (ids g.nodes) k)

pub Bool-eq : {a b : Bool} → (a ≡ true → b ≡ true) → (b ≡ true → a ≡ true) → a ≡ b
Bool-eq {a} {b} f g = elim (Bool-cases a) [
  | inl x ↦ x ∙ sym (f x)
  | inr x ↦ elim (Bool-cases b) [ inl y ↦ g y ∙ sym y | inr y ↦ x ∙ sym y ]
]

-- An order that is returned for a well-formed graph names every node of the graph once, and each node
-- stands behind the sources of all edges into it.
pub topo_sort-IsPlan :
    (g : FlowGraph) (order : List FlowNode)
    → IsWellFormed g
    → topo_sort g ≡ some order
    → IsPlan g order
unfolding topo_sort
topo_sort-IsPlan g order wf e =
    elim (Bool-cases (eqb (length (drained g).ordered) (length g.nodes))) [
      | inl full ↦
          let same : pick (index_nodes g.nodes []) (drained g).ordered ≡ order = ground arith in
          let named : ids order ≡ (drained g).ordered =
            subst (λ o. ids o ≡ (drained g).ordered) same (ids-picked g wf) in
          let back =
            subset_of_length (drained g).ordered (ids g.nodes) (distinct-ordered g wf)
              (ordered-inside g wf) (ground (arith, length-map (λ (n : FlowNode). n.id) g.nodes)) in
          subst
            (λ ks.
              IsOrdered g.edges [] ks
              × (distinct ks ≡ true)
              × ((k : String) → contains ks k ≡ contains (ids g.nodes) k))
            (sym named)
            (
              (drained-Inv g).sorted,
              distinct-ordered g wf,
              λ k. Bool-eq (ordered-inside g wf k) (back k),
            )
      | inr short ↦ ground arith
    ]
