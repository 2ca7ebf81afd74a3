-- ===== src/Durable/Frontier/Loop.antt =====
-- `while changed`: a pass that changes something settles a node, and there are only so many.
use fancy_flow_py.Prelude.{
  ℕ, zero, suc, String, List, [], ◌∷◌, some, Bool, true, false, ◌||◌, ◌==◌, ◌<◌, ◌≡◌, ◌⊎◌, ◌∙◌,
  refl, sym, ap, subst, arith, contains, contains-snoc, eq_iff, eq_refl, Bool-cases, inl, inr,
}
use fancy_flow_py.Prelude.Dict.{has, get-put}
use fancy_flow_py.Graph.{FlowNode, FlowGraph, ids}
use fancy_flow_py.Engine.Inputs.{incoming}
use fancy_flow_py.Durable.Frontier.{Front, blocked, consider, pass, repeat}
use fancy_flow_py.Durable.Frontier.Passes.{
  Extends, Extends-has, consider-cases, consider-Extends, pass-Extends, open_nodes, open_nodes-lt,
}

-- The node is settled, held, ready, or waits for a source.
abbrev pub known : FlowGraph → Front → String → Bool
known graph f k =
    has f.settled k
    || contains f.held k
    || contains f.ready k
    || blocked f.settled (incoming graph.edges k)

abbrev pub AllKnown : FlowGraph → List FlowNode → Front → Type 0
AllKnown graph nodes f = (k : String) → contains (ids nodes) k ≡ true → known graph f k ≡ true

module _ (graph : FlowGraph) where
  -- A pass that reports a change settled some node.
  pass-changed :
      (nodes : List FlowNode) (changed : Bool) (f : Front)
      → (pass graph nodes changed f).0 ≡ true
      → (changed ≡ true)
        ⊎ ((k : String) × (contains (ids nodes) k ≡ true)
            × (has f.settled k ≡ false)
            × (has (pass graph nodes changed f).1.settled k ≡ true))
  unfolding pass
  pass-changed [] changed f h = inl h
  pass-changed (node ∷ nodes) changed f h =
      let (now, f') = consider graph node f in
      elim (pass-changed nodes (changed || now) f' h) [
        | inr (k, there, before, after) ↦ elim (Bool-cases (has f.settled k)) [
          | inr new ↦ inr (k, ground arith, new, after)
          | inl old ↦ absurd (ground (arith, Extends-has f f' k (consider-Extends graph node f)))
        ]
        | inl flag ↦ elim (consider-cases graph node f) [
          | inl (moved, s) ↦
              let settled_now : has f'.settled node.id ≡ true =
                ap (λ (g : Front). has g.settled node.id) s.after
                ∙ ground (arith, get-put f.settled node.id node.id [], eq_refl node.id) in
              inr (
                node.id,
                rw (eq_refl node.id) refl,
                s.unsettled,
                Extends-has f' _ node.id (pass-Extends graph nodes (changed || now) f') settled_now,
              )
          | inr (inl (still, s)) ↦ inl (ground arith)
          | inr (inr (still, s)) ↦ inl (ground arith)
        ]
      ]

  -- What a pass that reports no change left behind: every node it looked at is known.
  consider-known :
      (node : FlowNode) (f : Front)
      → (consider graph node f).0 ≡ false
      → ((consider graph node f).1.settled ≡ f.settled)
        × (known graph (consider graph node f).1 node.id ≡ true)
  consider-known node f h = elim (consider-cases graph node f) [
    | inl (moved, s) ↦ absurd (cc)
    | inr (inl (still, s)) ↦ (
      ap (λ (g : Front). g.settled) s.after,
      ap (λ (g : Front). known graph g node.id) s.after
          ∙ ground (arith, contains-snoc f.ready node.id node.id, eq_refl node.id),
    )
    | inr (inr (still, s)) ↦ (
      ap (λ (g : Front). g.settled) s.after,
      ap (λ (g : Front). known graph g node.id) s.after ∙ s.reason,
    )
  ]

  known-persists :
      (f f' : Front) (k : String)
      → Extends f f'
      → f'.settled ≡ f.settled
      → known graph f k ≡ true
      → known graph f' k ≡ true
  known-persists f f' k x same h =
      subst
        (λ d.
          (has d k
            || contains f'.held k
            || contains f'.ready k
            || blocked d (incoming graph.edges k))
          ≡ true)
        (sym same)
        (subst
          (λ held.
            (has f.settled k
              || contains held k
              || contains f'.ready k
              || blocked f.settled (incoming graph.edges k))
            ≡ true)
          (sym x.held) (ground (arith, x.ready k)))

  pass-unchanged :
      (nodes : List FlowNode) (changed : Bool) (f : Front)
      → (pass graph nodes changed f).0 ≡ false
      → (changed ≡ false)
        × ((pass graph nodes changed f).1.settled ≡ f.settled)
        × AllKnown graph nodes (pass graph nodes changed f).1
  unfolding pass
  pass-unchanged [] changed f h = (h, refl, λ k there. absurd (cc))
  pass-unchanged (node ∷ nodes) changed f h =
      let (now, f') = consider graph node f in
      let last = (pass graph nodes (changed || now) f').1 in
      let (quiet, same, all) = pass-unchanged nodes (changed || now) f' h in
      let (same', here) = consider-known node f (ground arith) in
      (
        ground arith,
        same ∙ same',
        λ k there. elim (Bool-cases (node.id == k)) [
          | inl found ↦
              known-persists f' last k (pass-Extends graph nodes (changed || now) f') same
                (subst (λ i. known graph f' i ≡ true) ((eq_iff node.id k).0 found) here)
          | inr other ↦ all k (ground arith)
        ],
      )

  module _ (P : Front → Type 0)
      (step : (node : FlowNode) (f : Front) → P f → P (consider graph node f).1) where
    pass-holds :
        (nodes : List FlowNode) (changed : Bool) (f : Front)
        → P f
        → P (pass graph nodes changed f).1
    unfolding pass
    pass-holds [] changed f h = h
    pass-holds (node ∷ nodes) changed f h = pass-holds nodes _ _ (step node f h)

    -- On more fuel than there are unsettled nodes the loop ends; it keeps what each turn keeps, and
    -- every node is known at its end.
    pub repeat-ends :
        (fuel : ℕ) (f : Front)
        → open_nodes f graph.nodes < fuel
        → P f
        → (end : Front) × (repeat fuel graph f ≡ some end) × P end × AllKnown graph graph.nodes end
    unfolding repeat
    repeat-ends zero f enough h = absurd (omega (arith, enough))
    repeat-ends (suc fuel) f enough h =
        let f' = (pass graph graph.nodes false f).1 in
        let kept = pass-holds graph.nodes false f h in
        elim (Bool-cases (pass graph graph.nodes false f).0) [
          | inr still ↦ (f', rw (still, repeat), kept, (pass-unchanged graph.nodes false f still).2)
          | inl changed ↦ elim (pass-changed graph.nodes false f changed) [
            | inl never ↦ absurd (cc)
            | inr (k, there, before, after) ↦
                let less =
                  open_nodes-lt f f' graph.nodes k (pass-Extends graph graph.nodes false f) there
                    before after in
                let (end, runs, holds, all) =
                  repeat-ends fuel f' (omega (arith, less, enough)) kept in
                (end, rw (changed, repeat) runs, holds, all)
          ]
        ]
