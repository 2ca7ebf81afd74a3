-- ===== src/Topo/Loop.antt =====
-- The `while` loop of `_topo_sort` ends by its own test, whatever the graph.
use fancy_flow_py.Prelude.{
  ℕ, zero, suc, ◌+◌, ◌≤◌, String, List, [], ◌∷◌, ◌++◌, ◌≡◌, refl, subst, arith, ap, sym, length,
  length-append, length-le_of_subset, List-cases, inl, inr, map,
}
use fancy_flow_py.Graph.{FlowNode, FlowEdge, FlowGraph, ids}
use fancy_flow_py.Topo.{Kahn, round, drain, start, drained}
use fancy_flow_py.Topo.Invariant.{Inv, AreKnown, round-Inv, ordered-relax_all}
use fancy_flow_py.Topo.Start.{targets, all_keys, known-all_keys, start-Inv}

ordered-round :
    (edges : List FlowEdge) (s : Kahn) (u : String) (rest : List String)
    → (round edges s u rest).ordered ≡ s.ordered ++ u ∷ []
unfolding round
ordered-round edges s u rest = ordered-relax_all u edges _

drain-more :
    (fuel : ℕ) (edges : List FlowEdge) (s : Kahn) (u : String) (rest : List String)
    → s.queue ≡ u ∷ rest
    → drain (suc fuel) edges s ≡ drain fuel edges (round edges s u rest)
unfolding drain
drain-more fuel edges s u rest e = rw (e, drain)

drain-done : (fuel : ℕ) (edges : List FlowEdge) (s : Kahn) → s.queue ≡ [] → drain fuel edges s ≡ s
unfolding drain
drain-done zero edges s e = refl
drain-done (suc fuel) edges s e = simp (e, drain)

-- What was queued is distinct and lies among the keys, so the ordered part leaves room for fuel.
module _ (keys : List String) (edges : List FlowEdge) (known : AreKnown keys edges) where
  pub drain-Inv :
      (fuel : ℕ) (s : Kahn)
      → Inv keys edges s
      → length keys ≤ fuel + length s.ordered
      → Inv keys edges (drain fuel edges s) × ((drain fuel edges s).queue ≡ [])
  unfolding drain
  drain-Inv zero s h room = (
    h,
    elim (List-cases s.queue) [
      | inl e ↦ e
      | inr (u, rest, e) ↦
          let fits =
            length-le_of_subset (s.ordered ++ s.queue) keys h.counts.once h.counts.inside in
          absurd (omega (arith, length-append s.ordered s.queue, ap length e))
    ],
  )
  drain-Inv (suc fuel) s h room = elim (List-cases s.queue) [
    | inl e ↦
        subst (λ t. Inv keys edges t × (t.queue ≡ [])) (sym (drain-done (suc fuel) edges s e))
          (h, e)
    | inr (u, rest, e) ↦
        subst (λ t. Inv keys edges t × (t.queue ≡ [])) (sym (drain-more fuel edges s u rest e))
          (drain-Inv fuel (round edges s u rest) (round-Inv keys edges known s u rest e h) (
            omega
              (arith, ap length (ordered-round edges s u rest), length-append s.ordered (u ∷ []))))
  ]

pub length-map {ℓ κ} :
    {A : Type ℓ} {B : Type κ} (f : A → B) (xs : List A) → length (map f xs) ≡ length xs
length-map f [] = refl
length-map f (x ∷ xs) = ap suc (length-map f xs)

module _ (g : FlowGraph) where
  drained_lem : Inv (all_keys g) g.edges (drained g) × ((drained g).queue ≡ [])
  unfolding drained start
  drained_lem = drain-Inv (all_keys g) g.edges (known-all_keys g) _ (start g) (start-Inv g) (
      omega (
        arith,
        length-append (ids g.nodes) (targets g.edges),
        length-map (λ (n : FlowNode). n.id) g.nodes,
        length-map (λ (e : FlowEdge). e.target) g.edges,
      ))

  pub drained-Inv : Inv (all_keys g) g.edges (drained g)
  drained-Inv = drained_lem.0

  -- The loop leaves with an empty queue: `sort_fuel` rounds are enough for every graph.
  pub drained_ends : (drained g).queue ≡ []
  drained_ends = drained_lem.1
