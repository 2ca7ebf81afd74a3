-- ===== src/Durable/Coordinator/HandedOut.antt =====
-- What `advance` hands out.
use fancy_flow_py.Prelude.{
  ℕ, suc, String, List, [], ◌∷◌, ◌++◌, none, some, true, false, ◌==◌, ◌+◌, ◌≤◌, ◌≡◌, ◌∙◌, refl, ap,
  subst, arith, contains, contains-append, distinct, length, max, eq_iff, eq_refl, pos, Bool-cases,
  inl, inr,
}
use fancy_flow_py.Prelude.Dict.{get, put, keys, get-put}
use fancy_flow_py.Value.{Value, int}
use fancy_flow_py.Graph.{FlowGraph}
use fancy_flow_py.Durable.State.{
  NodeState, NodeRunStatus, Rows, ClaimStore, rows, entry, settled_already, is_held, skip_row, skip,
  claim, claim_row,
}
use fancy_flow_py.Durable.State.Claims.{rows-put}
use fancy_flow_py.Durable.Frontier.{FrontierResult, settle_skips}
use fancy_flow_py.Durable.Frontier.Rule.{row_held, IsFrontier}
use fancy_flow_py.Durable.Frontier.Computed.{compute-IsFrontier}
use fancy_flow_py.Durable.Dispatch.{count_held, select_dispatch}
use fancy_flow_py.Durable.Dispatch.Budget.{dispatch_fills_the_budget}
use fancy_flow_py.Durable.Coordinator.{
  Coordinator, Advance, advance, recounted, deliver_skip_diagnostics,
}

-- A row that is not held is put where none was held.
count_held-put :
    (run : Rows) (k : String) (row : NodeState)
    → row_held (get run k) ≡ false
    → is_held row.status ≡ false
    → count_held (put run k row) ≡ count_held run
unfolding count_held get put
count_held-put [] k row h n = ground arith
count_held-put ((j, r) ∷ run) k row h n = ground (arith, count_held-put run k row)

-- A skip of a node that is not held: nothing is held by it, and other rows stay.
skip-rows :
    (now : String) (store : ClaimStore) (run_key k : String)
    → row_held (get (rows store run_key) k) ≡ false
    → (count_held (rows (skip now store run_key k).1 run_key) ≡ count_held (rows store run_key))
      × ((j : String)
          → (k == j) ≡ false
          → get (rows (skip now store run_key k).1 run_key) j ≡ get (rows store run_key) j)
      × (row_held (get (rows (skip now store run_key k).1 run_key) k) ≡ false)
unfolding skip skip_row
skip-rows now store run_key k h =
    let run = rows store run_key in
    elim (Bool-cases (settled_already (get run k))) [
      | inl settled ↦ (
        rw (settled, skip, skip_row),
        λ j n. rw (settled, skip, skip_row),
        rw (settled, skip, skip_row) h,
      )
      | inr unsettled ↦
          let row = record (entry now k run) { status = NodeRunStatus.skipped; ports = [] } in
          let after : rows (skip now store run_key k).1 run_key ≡ put run k row =
            rw (unsettled, skip, skip_row, rows-put, eq_refl run_key) in
          (
            ap count_held after ∙ count_held-put run k row h refl,
            λ j n. ap (λ r. get r j) after ∙ ground (arith, get-put run k j row),
            ap (λ r. row_held (get r k)) after ∙ ground (arith, get-put run k k row, eq_refl k),
          )
    ]

settle_skips-rows :
    (now : String) (run_key : String) (skipped : List String) (store : ClaimStore)
    → ((k : String) → contains skipped k ≡ true → row_held (get (rows store run_key) k) ≡ false)
    → (count_held (rows (settle_skips now store run_key skipped).1 run_key)
        ≡ count_held (rows store run_key))
      × ((j : String)
          → contains skipped j ≡ false
          → get (rows (settle_skips now store run_key skipped).1 run_key) j
            ≡ get (rows store run_key) j)
unfolding settle_skips
settle_skips-rows now run_key [] store h = (refl, λ j n. refl)
settle_skips-rows now run_key (k ∷ ks) store h =
    let (same, elsewhere, unheld) = skip-rows now store run_key k (h k (rw (eq_refl k) refl)) in
    let store' = (skip now store run_key k).1 in
    let unheld' : (j : String)
        → contains ks j ≡ true
        → row_held (get (rows store' run_key) j) ≡ false =
      λ j there. elim (Bool-cases (k == j)) [
        | inl here ↦
            subst (λ i. row_held (get (rows store' run_key) i) ≡ false) ((eq_iff k j).0 here) unheld
        | inr other ↦ ap row_held (elsewhere j other) ∙ h j (ground arith)
      ] in
    let (same', elsewhere') = settle_skips-rows now run_key ks store' unheld' in
    (same' ∙ same, λ j n. elsewhere' j (ground arith) ∙ elsewhere j (ground arith))

contains_first :
    (out kept ready : List String) (k : String)
    → out ++ kept ≡ ready
    → contains out k ≡ true
    → contains ready k ≡ true
contains_first out kept ready k e there =
    subst (λ xs. contains xs k ≡ true) e (ground (arith, contains-append out kept k))

-- The skips of a frontier change neither the number of held rows nor the rows of its ready nodes.
module _ (graph : FlowGraph) (now run_key : String) (store : ClaimStore) (f : FrontierResult)
    (frontier : IsFrontier graph (rows store run_key) f) where
  unheld_skips :
      (k : String) → contains f.skipped k ≡ true → row_held (get (rows store run_key) k) ≡ false
  unheld_skips k there = ap row_held (frontier.skipped k there).0

  skips-held :
      count_held (rows (settle_skips now store run_key f.skipped).1 run_key)
      ≡ count_held (rows store run_key)
  skips-held = (settle_skips-rows now run_key f.skipped store unheld_skips).0

  skips-ready :
      (k : String)
      → contains f.ready k ≡ true
      → get (rows (settle_skips now store run_key f.skipped).1 run_key) k ≡ none
  skips-ready k there =
      let (fresh, unskipped, free, live) = frontier.ready k there in
      (settle_skips-rows now run_key f.skipped store unheld_skips).1 k unskipped ∙ fresh

recounted-held :
    (c : Coordinator) (skipped : List String) (now : String) (store : ClaimStore)
    → count_held (rows (settle_skips now store c.run_key skipped).1 c.run_key)
      ≡ count_held (rows store c.run_key)
    → count_held
        (recounted c skipped (rows store c.run_key) (settle_skips now store c.run_key skipped).1)
      ≡ count_held (rows store c.run_key)
recounted-held c [] now store h = refl
recounted-held c (k ∷ ks) now store h = h

-- The nodes that are handed out can be claimed, and with those held before they keep to the limit.
pub record IsWithin (c : Coordinator) (n : ℕ) (store : ClaimStore) (a : Advance) : Type 0 where
  pub within :
      count_held (rows a.store c.run_key) + length a.handed_out
      ≤ max n (count_held (rows store c.run_key))
  pub held : count_held (rows a.store c.run_key) ≡ count_held (rows store c.run_key)
  pub claimable :
      (k now owner : String)
      → contains a.handed_out k ≡ true
      → (claim now a.store c.run_key k owner).0 ≡ true

-- Under a positive limit, on a store whose rows are of distinct nodes, `advance` answers. It holds
-- no node itself; the nodes held and those handed out are no more than the limit, or than were held
-- before; and any worker can claim a node that was handed out, since none of them has a row.
pub advance-IsWithin :
    (text : Value → String) (c : Coordinator) (now : String) (store : ClaimStore) (n : ℕ)
    → distinct (keys (rows store c.run_key)) ≡ true
    → c.max_concurrent ≡ int (pos (suc n))
    → (a : Advance) × (advance text c now store ≡ some a) × IsWithin c (suc n) store a
unfolding advance claim claim_row
advance-IsWithin text c now store n unique limited =
    let (f, computed, frontier) = compute-IsFrontier c.graph (rows store c.run_key) unique in
    let (settled, store') = settle_skips now store c.run_key f.skipped in
    let state = recounted c f.skipped (rows store c.run_key) store' in
    let same = skips-held c.graph now c.run_key store f frontier in
    let (out, kept, selected, split, within, full) = dispatch_fills_the_budget f.ready state n in
    let chosen : select_dispatch f.ready state c.max_concurrent ≡ some out =
      ap (select_dispatch f.ready state) limited ∙ selected in
    let counted = recounted-held c f.skipped now store same in
    (
      record {
        handed_out = out;
        store = store';
        events = deliver_skip_diagnostics text c settled (rows store c.run_key);
      },
      rw (computed, advance) (rw (chosen)),
      record {
        within = omega (arith, within, counted, same);
        held = same;
        claimable = λ k later owner there.
            let free =
              skips-ready c.graph now c.run_key store f frontier k
                (contains_first out kept f.ready k split there) in
            rw (free, claim, claim_row);
      },
    )
