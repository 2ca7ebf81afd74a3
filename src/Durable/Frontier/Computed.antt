-- ===== src/Durable/Frontier/Computed.antt =====
-- `compute` ends, and what it answers is the frontier.
use fancy_flow_py.Prelude.{
  suc, String, List, [], ◌∷◌, ◌++◌, Option, none, some, true, false, ◌==◌, ◌≡◌, ◌⊎◌, ◌∙◌, refl, sym,
  ap, subst, arith, contains, contains-snoc, distinct, is_some, length, eq_iff, Bool-cases,
  Option-cases, inl, inr, if◌then◌else◌,
}
use fancy_flow_py.Prelude.Dict.{get, keys, has, get-put, get-nil}
use fancy_flow_py.Graph.{FlowNode, FlowEdge, FlowGraph}
use fancy_flow_py.Engine.Inputs.{incoming}
use fancy_flow_py.Durable.State.{
  NodeState, NodeRunStatus, Rows, is_settled, is_held, settled_already,
}
use fancy_flow_py.Durable.Frontier.{
  Front, FrontierResult, blocked, active, is_lit, is_dead, is_note, settle_empty, consider,
  front_of, compute,
}
use fancy_flow_py.Durable.Frontier.Passes.{
  Extends, Settles, Readies, consider-cases, consider-Extends, open_nodes-length,
}
use fancy_flow_py.Durable.Frontier.Loop.{AllKnown, repeat-ends}
use fancy_flow_py.Durable.Frontier.Rule.{
  ports_of, row_ports, row_held, is_decided, waits, is_lit_by, any_lit, is_unlit, IsFrontier,
  read_rows-settled, read_rows-held, read_rows-rest,
}

-- Sources that are settled stay settled, and their edges stay as they are.
is_lit-Extends :
    (f f' : Front) (e : FlowEdge)
    → Extends f f'
    → has f.settled e.source ≡ true
    → (has f'.settled e.source ≡ true) × (is_lit f'.settled e ≡ is_lit f.settled e)
unfolding is_lit
is_lit-Extends f f' e x h = elim (Option-cases (get f.settled e.source)) [
  | inl n ↦ absurd (ground arith)
  | inr (ps, there) ↦
      let there' = x.settled e.source ps there in (rw (there'), rw (there, there', is_lit))
]

blocked-Extends :
    (f f' : Front) (es : List FlowEdge)
    → Extends f f'
    → blocked f.settled es ≡ false
    → (blocked f'.settled es ≡ false) × (active f'.settled es ≡ active f.settled es)
unfolding blocked active
blocked-Extends f f' [] x h = (refl, refl)
blocked-Extends f f' (e ∷ es) x h =
    let (there, same) = is_lit-Extends f f' e x (ground arith) in
    let (free, same') = blocked-Extends f f' es x (ground arith) in (ground arith, rw (same, same'))

is_dead-Extends :
    (f f' : Front) (es : List FlowEdge)
    → Extends f f'
    → blocked f.settled es ≡ false
    → is_dead f'.settled es ≡ is_dead f.settled es
is_dead-Extends f f' [] x h = refl
is_dead-Extends f f' (e ∷ es) x h =
    ap (λ b. if b then false else true) (blocked-Extends f f' (e ∷ es) x h).1

module _ (graph : FlowGraph) (state : Rows) where
  -- A node that became ready, and one that was skipped.
  abbrev IsReady : Front → String → Type 0
  IsReady f k =
      (get state k ≡ none)
      × (contains f.skipped k ≡ false)
      × (blocked f.settled (incoming graph.edges k) ≡ false)
      × (is_dead f.settled (incoming graph.edges k) ≡ false)

  abbrev IsIdle : Front → String → Type 0
  IsIdle f k =
      (get state k ≡ none)
      × (blocked f.settled (incoming graph.edges k) ≡ false)
      × ((is_dead f.settled (incoming graph.edges k) ≡ true)
          ⊎ ((node : FlowNode) × (node.id ≡ k) × (is_note node.type ≡ true)))

  record Kept (f : Front) : Type 0 where
    settled :
        (k : String)
        → get f.settled k ≡ (if contains f.skipped k then some [] else row_ports (get state k))
    held : (k : String) → contains f.held k ≡ row_held (get state k)
    ready : (k : String) → contains f.ready k ≡ true → IsReady f k
    skipped : (k : String) → contains f.skipped k ≡ true → IsIdle f k

  -- A node that is neither settled nor held has no row.
  no_row : (s : Option NodeState) → is_some (row_ports s) ≡ false → row_held s ≡ false → s ≡ none
  no_row none h k = refl
  no_row (some row) h k = status row.status h k
    where
      status :
          (s : NodeRunStatus)
          → is_some (ports_of s row.ports) ≡ false
          → is_held s ≡ false
          → some row ≡ none
      status NodeRunStatus.claimed h k = absurd (cc)
      status NodeRunStatus.paused h k = absurd (cc)
      status NodeRunStatus.completed h k = absurd (cc)
      status NodeRunStatus.skipped h k = absurd (cc)
      status NodeRunStatus.failed h k = absurd (cc)

  Kept-fresh :
      (f : Front) (k : String)
      → Kept f
      → has f.settled k ≡ false
      → contains f.held k ≡ false
      → (get state k ≡ none) × (contains f.skipped k ≡ false)
  Kept-fresh f k h unsettled unheld =
      let unskipped : contains f.skipped k ≡ false = ground (arith, h.settled k) in
      (no_row (get state k) (ground (arith, h.settled k)) (sym (h.held k) ∙ unheld), unskipped)

  IsIdle-Extends : (f f' : Front) (k : String) → Extends f f' → IsIdle f k → IsIdle f' k
  IsIdle-Extends f f' k x (fresh, free, why) = (
    fresh,
    (blocked-Extends f f' (incoming graph.edges k) x free).0,
    elim why [
      | inl dead ↦ inl (is_dead-Extends f f' (incoming graph.edges k) x free ∙ dead)
      | inr note ↦ inr note
    ],
  )

  IsReady-Extends :
      (f f' : Front) (k : String)
      → Extends f f'
      → contains f'.skipped k ≡ false
      → IsReady f k
      → IsReady f' k
  IsReady-Extends f f' k x unskipped (fresh, before, free, live) = (
    fresh,
    unskipped,
    (blocked-Extends f f' (incoming graph.edges k) x free).0,
    is_dead-Extends f f' (incoming graph.edges k) x free ∙ live,
  )

  Kept-settle :
      (node : FlowNode) (f : Front)
      → Kept f
      → Settles graph node f (settle_empty node.id f)
      → Extends f (settle_empty node.id f)
      → Kept (settle_empty node.id f)
  Kept-settle node f h s x =
      let (fresh, unskipped) = Kept-fresh f node.id h s.unsettled s.unheld in
      let f' = settle_empty node.id f in
      record {
        settled = λ k. ground (
          arith,
          h.settled k,
          get-put f.settled node.id k [],
          contains-snoc f.skipped node.id k,
          eq_iff node.id k,
        );
        held = h.held;
        ready = λ k there. elim (Bool-cases (node.id == k)) [
          | inl same ↦
              absurd (ground (arith, ap (contains f.ready) ((eq_iff node.id k).0 same), s.unready))
          | inr other ↦
              let r = h.ready k there in
              IsReady-Extends f f' k x (ground (arith, contains-snoc f.skipped node.id k, r.1)) r
        ];
        skipped = λ k there. elim (Bool-cases (node.id == k)) [
          | inl same ↦ subst (IsIdle f') ((eq_iff node.id k).0 same) (
              IsIdle-Extends f f' node.id x (
                fresh,
                s.unblocked,
                elim (Bool-cases (is_dead f.settled (incoming graph.edges node.id))) [
                  | inl dead ↦ inl dead
                  | inr live ↦ inr (node, refl, ground (arith, s.idle))
                ],
              ))
          | inr other ↦
              IsIdle-Extends f f' k x
                (h.skipped k (ground (arith, contains-snoc f.skipped node.id k)))
        ];
      }

  Kept-ready :
      (node : FlowNode) (f f' : Front)
      → Kept f
      → Readies graph node f f'
      → Kept (record f { ready = f.ready ++ node.id ∷ [] })
  Kept-ready node f f' h s =
      let (fresh, unskipped) = Kept-fresh f node.id h s.unsettled s.unheld in
      record {
        settled = h.settled;
        held = h.held;
        ready = λ k there. elim (Bool-cases (node.id == k)) [
          | inl same ↦
              subst (IsReady f) ((eq_iff node.id k).0 same)
                (fresh, unskipped, s.unblocked, ground (arith, s.due))
          | inr other ↦ h.ready k (ground (arith, contains-snoc f.ready node.id k))
        ];
        skipped = h.skipped;
      }

  Kept-consider : (node : FlowNode) (f : Front) → Kept f → Kept (consider graph node f).1
  Kept-consider node f h = elim (consider-cases graph node f) [
    | inl (moved, s) ↦ subst Kept (sym s.after) (
        Kept-settle node f h (subst (Settles graph node f) s.after s)
          (subst (Extends f) s.after (consider-Extends graph node f)))
    | inr (inl (still, s)) ↦ subst Kept (sym s.after) (Kept-ready node f _ h s)
    | inr (inr (still, s)) ↦ subst Kept (sym s.after) h
  ]

  row_ports-settled : (o : Option NodeState) → is_some (row_ports o) ≡ settled_already o
  row_ports-settled none = refl
  row_ports-settled (some row) = status row.status
    where
      status : (s : NodeRunStatus) → is_some (ports_of s row.ports) ≡ is_settled s
      status NodeRunStatus.claimed = refl
      status NodeRunStatus.paused = refl
      status NodeRunStatus.completed = refl
      status NodeRunStatus.skipped = refl
      status NodeRunStatus.failed = refl

  decided-eq : (f : Front) (k : String) → Kept f → has f.settled k ≡ is_decided state f.skipped k
  decided-eq f k h = ground (arith, h.settled k, row_ports-settled (get state k))

  blocked-eq :
      (f : Front) (es : List FlowEdge) → Kept f → blocked f.settled es ≡ waits state f.skipped es
  unfolding blocked
  blocked-eq f [] h = refl
  blocked-eq f (e ∷ es) h = ground (arith, blocked-eq f es h, decided-eq f e.source h)

  is_lit-eq :
      (f : Front) (e : FlowEdge) → Kept f → is_lit f.settled e ≡ is_lit_by (get state e.source) e
  unfolding is_lit
  is_lit-eq f e h = elim (Bool-cases (contains f.skipped e.source)) [
    | inl new ↦ rw (h.settled e.source, new, (h.skipped e.source new).0, is_lit)
    | inr old ↦ rw (h.settled e.source, old, is_lit)
  ]

  active-eq : (f : Front) (es : List FlowEdge) → Kept f → active f.settled es ≡ any_lit state es
  unfolding active
  active-eq f [] h = refl
  active-eq f (e ∷ es) h = rw (is_lit-eq f e h, active-eq f es h)

  is_dead-eq : (f : Front) (es : List FlowEdge) → Kept f → is_dead f.settled es ≡ is_unlit state es
  is_dead-eq f [] h = refl
  is_dead-eq f (e ∷ es) h = ap (λ b. if b then false else true) (active-eq f (e ∷ es) h)

  Kept-front_of : distinct (keys state) ≡ true → Kept (front_of state)
  Kept-front_of unique =
      let f = front_of state in
      let (ready, skipped) =
        read_rows-rest state (record { settled = []; held = []; ready = []; skipped = [] }) in
      record {
        settled = λ k.
            read_rows-settled state _ k unique
            ∙ ground (arith, get-nil {V = List String} k, ap (λ xs. contains xs k) skipped);
        held = λ k. read_rows-held state _ k unique ∙ ground arith;
        ready = λ k there. absurd (ground (arith, ap (λ xs. contains xs k) ready));
        skipped = λ k there. absurd (ground (arith, ap (λ xs. contains xs k) skipped));
      }

  Kept-IsFrontier :
      (f : Front)
      → Kept f
      → AllKnown graph graph.nodes f
      → IsFrontier graph state (record { ready = f.ready; skipped = f.skipped })
  Kept-IsFrontier f h all = record {
    ready = λ k there.
        let (fresh, unskipped, free, live) = h.ready k there in
        let edges = incoming graph.edges k in
        (fresh, unskipped, sym (blocked-eq f edges h) ∙ free, sym (is_dead-eq f edges h) ∙ live);
    skipped = λ k there.
        let (fresh, free, why) = h.skipped k there in
        let edges = incoming graph.edges k in
        (
          fresh,
          sym (blocked-eq f edges h) ∙ free,
          elim why [ inl dead ↦ inl (sym (is_dead-eq f edges h) ∙ dead) | inr note ↦ inr note ],
        );
    others = λ k inside fresh unready unskipped.
        ground
          (arith, all k inside, h.settled k, h.held k, blocked-eq f (incoming graph.edges k) h);
  }

-- For any rows of distinct nodes the computation ends within its bound, cyclic graphs included, and
-- its answer is the frontier: a ready node has no row, every source of it is settled or was skipped
-- just now, and it has no edges or a lit one; a skipped node has no row, its sources are decided,
-- and no edge into it is lit or it is a note; any other node without a row waits for a source.
pub compute-IsFrontier :
    (graph : FlowGraph) (state : Rows)
    → distinct (keys state) ≡ true
    → (r : FrontierResult) × (compute graph state ≡ some r) × IsFrontier graph state r
unfolding compute
compute-IsFrontier graph state unique =
    let (end, runs, kept, all) =
      repeat-ends graph (Kept graph state) (Kept-consider graph state) (suc (length graph.nodes))
        (front_of state) (omega (arith, open_nodes-length (front_of state) graph.nodes))
        (Kept-front_of graph state unique) in
    (
      record { ready = end.ready; skipped = end.skipped },
      rw (runs, compute),
      Kept-IsFrontier graph state end kept all,
    )
