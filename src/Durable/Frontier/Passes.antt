-- ===== src/Durable/Frontier/Passes.antt =====
-- The `while changed` loop of the frontier ends, at a front that a pass does not change.
use fancy_flow_py.Prelude.{
  ℕ, suc, String, List, [], ◌∷◌, ◌++◌, some, Bool, true, false, ◌||◌, ◌==◌, ◌≤◌, ◌<◌, ◌≡◌, ◌⊎◌, ◌∙◌,
  refl, sym, ap, subst, arith, contains, contains-snoc, length, eq_iff, Bool-cases, Option-cases,
  inl, inr, if◌then◌else◌,
}
use fancy_flow_py.Prelude.Dict.{get, has, get-put}
use fancy_flow_py.Graph.{FlowNode, FlowGraph, ids}
use fancy_flow_py.Engine.Inputs.{incoming}
use fancy_flow_py.Durable.Frontier.{Front, blocked, is_dead, is_note, settle_empty, consider, pass}

-- What is settled stays settled, on the same ports; what is held stays so, and no other node is;
-- what is ready or skipped stays so.
pub record Extends (f f' : Front) : Type 0 where
  pub settled :
      (k : String) (ps : List String) → get f.settled k ≡ some ps → get f'.settled k ≡ some ps
  pub held : f'.held ≡ f.held
  pub ready : (k : String) → contains f.ready k ≡ true → contains f'.ready k ≡ true
  pub skipped : (k : String) → contains f.skipped k ≡ true → contains f'.skipped k ≡ true

pub Extends-refl : (f : Front) → Extends f f
Extends-refl f = record { settled = λ k ps h. h; held = refl; ready = λ k h. h; skipped = λ k h. h }

pub Extends-trans : (f g h : Front) → Extends f g → Extends g h → Extends f h
Extends-trans f g h a b = record {
  settled = λ k ps e. b.settled k ps (a.settled k ps e);
  held = b.held ∙ a.held;
  ready = λ k e. b.ready k (a.ready k e);
  skipped = λ k e. b.skipped k (a.skipped k e);
}

pub Extends-has :
    (f f' : Front) (k : String) → Extends f f' → has f.settled k ≡ true → has f'.settled k ≡ true
Extends-has f f' k x h = elim (Option-cases (get f.settled k)) [
  | inl n ↦ absurd (ground arith)
  | inr (ps, e) ↦ rw (x.settled k ps e) refl
]

-- The outcomes of `consider`.
pub record Settles (graph : FlowGraph) (node : FlowNode) (f f' : Front) : Type 0 where
  pub unsettled : has f.settled node.id ≡ false
  pub unheld : contains f.held node.id ≡ false
  pub unready : contains f.ready node.id ≡ false
  pub unblocked : blocked f.settled (incoming graph.edges node.id) ≡ false
  pub idle : (is_dead f.settled (incoming graph.edges node.id) || is_note node.type) ≡ true
  pub after : f' ≡ settle_empty node.id f

pub record Readies (graph : FlowGraph) (node : FlowNode) (f f' : Front) : Type 0 where
  pub unsettled : has f.settled node.id ≡ false
  pub unheld : contains f.held node.id ≡ false
  pub unblocked : blocked f.settled (incoming graph.edges node.id) ≡ false
  pub due : (is_dead f.settled (incoming graph.edges node.id) || is_note node.type) ≡ false
  pub after : f' ≡ record f { ready = f.ready ++ node.id ∷ [] }

pub record Leaves (graph : FlowGraph) (node : FlowNode) (f f' : Front) : Type 0 where
  pub reason :
      (has f.settled node.id
        || contains f.held node.id
        || contains f.ready node.id
        || blocked f.settled (incoming graph.edges node.id))
      ≡ true
  pub after : f' ≡ f

pub consider-cases :
    (graph : FlowGraph) (node : FlowNode) (f : Front)
    → (((consider graph node f).0 ≡ true) × Settles graph node f (consider graph node f).1)
      ⊎ (((consider graph node f).0 ≡ false) × Readies graph node f (consider graph node f).1)
      ⊎ (((consider graph node f).0 ≡ false) × Leaves graph node f (consider graph node f).1)
unfolding consider
consider-cases graph node f =
    let edges = incoming graph.edges node.id in
    elim (Bool-cases
      (has f.settled node.id || contains f.held node.id || contains f.ready node.id)) [
        | inl known ↦ inr (
            inr (
              rw (known, consider),
              record { reason = ground arith; after = rw (known, consider) },
            ))
        | inr fresh ↦ elim (Bool-cases (blocked f.settled edges)) [
          | inl waits ↦ inr (
              inr (
                rw (fresh, waits, consider),
                record { reason = ground arith; after = rw (fresh, waits, consider) },
              ))
          | inr free ↦ elim (Bool-cases (is_dead f.settled edges || is_note node.type)) [
            | inl idle ↦ inl (
              rw (fresh, free, idle, consider),
              record {
                unsettled = ground arith;
                unheld = ground arith;
                unready = ground arith;
                unblocked = free;
                idle = idle;
                after = rw (fresh, free, idle, consider);
              },
            )
            | inr due ↦ inr (
                inl (
                  rw (fresh, free, due, consider),
                  record {
                    unsettled = ground arith;
                    unheld = ground arith;
                    unblocked = free;
                    due = due;
                    after = rw (fresh, free, due, consider);
                  },
                ))
          ]
        ]
      ]

settle-Extends : (f : Front) (k : String) → has f.settled k ≡ false → Extends f (settle_empty k f)
settle-Extends f k fresh = record {
  settled = λ j ps h. ground (arith, get-put f.settled k j [], eq_iff k j, ap (get f.settled));
  held = refl;
  ready = λ j h. h;
  skipped = λ j h. ground (arith, contains-snoc f.skipped k j);
}

pub consider-Extends :
    (graph : FlowGraph) (node : FlowNode) (f : Front) → Extends f (consider graph node f).1
consider-Extends graph node f = elim (consider-cases graph node f) [
  | inl (changed, s) ↦ subst (Extends f) (sym s.after) (settle-Extends f node.id s.unsettled)
  | inr (inl (same, s)) ↦ subst (Extends f) (sym s.after) (record {
    settled = λ k ps h. h;
    held = refl;
    ready = λ k h. ground (arith, contains-snoc f.ready node.id k);
    skipped = λ k h. h;
  })
  | inr (inr (same, s)) ↦ subst (Extends f) (sym s.after) (Extends-refl f)
]

pub pass-Extends :
    (graph : FlowGraph) (nodes : List FlowNode) (changed : Bool) (f : Front)
    → Extends f (pass graph nodes changed f).1
unfolding pass
pass-Extends graph [] changed f = Extends-refl f
pass-Extends graph (node ∷ nodes) changed f =
    Extends-trans f (consider graph node f).1 _ (consider-Extends graph node f)
      (pass-Extends graph nodes (changed || (consider graph node f).0) (consider graph node f).1)

-- The nodes that are not settled, counted.
unfoldable pub open_nodes : Front → List FlowNode → ℕ
open_nodes f [] = 0
open_nodes f (node ∷ nodes) =
    let rest = open_nodes f nodes in if has f.settled node.id then rest else suc rest

open_nodes-le :
    (f f' : Front) (nodes : List FlowNode) → Extends f f' → open_nodes f' nodes ≤ open_nodes f nodes
unfolding open_nodes
open_nodes-le f f' [] x = omega arith
open_nodes-le f f' (node ∷ nodes) x =
    ground (arith, open_nodes-le f f' nodes x, Extends-has f f' node.id x)

pub open_nodes-lt :
    (f f' : Front) (nodes : List FlowNode) (k : String)
    → Extends f f'
    → contains (ids nodes) k ≡ true
    → has f.settled k ≡ false
    → has f'.settled k ≡ true
    → open_nodes f' nodes < open_nodes f nodes
unfolding open_nodes
open_nodes-lt f f' [] k x h before after = absurd (cc)
open_nodes-lt f f' (node ∷ nodes) k x h before after = elim (Bool-cases (node.id == k)) [
  | inl same ↦
      let here = (eq_iff node.id k).0 same in
      let before' = ap (has f.settled) here ∙ before in
      let after' = ap (has f'.settled) here ∙ after in ground (arith, open_nodes-le f f' nodes x)
  | inr other ↦ ground (arith, open_nodes-lt f f' nodes k x, Extends-has f f' node.id x)
]

pub open_nodes-length : (f : Front) (nodes : List FlowNode) → open_nodes f nodes ≤ length nodes
unfolding open_nodes
open_nodes-length f [] = omega arith
open_nodes-length f (node ∷ nodes) = ground (arith, open_nodes-length f nodes)
