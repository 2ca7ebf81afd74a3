-- ===== src/Durable/State/Settled.antt =====
-- What late claims and stale skips do to a node that was decided.
use fancy_flow_py.Prelude.{
  String, List, [], ◌∷◌, some, Bool, true, false, ◌&&◌, ◌==◌, ◌≡◌, ◌∙◌, refl, ap, arith, eq_iff,
  Bool-cases, Option-cases, inl, inr,
}
use fancy_flow_py.Prelude.Dict.{get, get-put}
use fancy_flow_py.Durable.State.{
  NodeRunStatus, NodeState, Rows, ClaimStore, rows, is_settled, is_held, settled_already, claim_row,
  skip_row, own_claim, owned_by,
}
use fancy_flow_py.Durable.State.Clock.{
  Change, claimed_by, completed_with, skipped, failed_with, paused_for, change_row, Call, apply,
  apply_all, apply-rows,
}

-- A claim or a skip: what a worker that lost the race may still ask for.
abbrev pub asks : Change → Bool
asks (claimed_by owner) = true
asks skipped = true
asks _ = false

abbrev pub all_ask : List Call → Bool
all_ask [] = true
all_ask (c ∷ cs) = asks c.change && all_ask cs

module _ (now j k : String) (run : Rows) (row : NodeState) (there : get run k ≡ some row)
    (settled : is_settled row.status ≡ true) where
  own_claim-settled : (owner : String) → own_claim row owner ≡ false
  own_claim-settled owner = held_or_settled row.status settled
    where
      held_or_settled :
          (s : NodeRunStatus)
          → is_settled s ≡ true
          → (is_held s && owned_by row.owner owner) ≡ false
      held_or_settled NodeRunStatus.claimed h = absurd (cc)
      held_or_settled NodeRunStatus.paused h = absurd (cc)
      held_or_settled NodeRunStatus.completed h = refl
      held_or_settled NodeRunStatus.skipped h = refl
      held_or_settled NodeRunStatus.failed h = refl

  claim_row-settled : (owner : String) → get (claim_row now j owner run).1 k ≡ some row
  unfolding claim_row
  claim_row-settled owner = elim (Bool-cases (j == k)) [
    | inl same ↦
        rw (ap (get run) ((eq_iff j k).0 same) ∙ there, own_claim-settled owner, claim_row) there
    | inr other ↦ elim (Option-cases (get run j)) [
      | inl fresh ↦ rw (fresh, claim_row, get-put, other) there
      | inr (e, found) ↦ elim (Bool-cases (own_claim e owner)) [
        | inl own ↦ rw (found, own, claim_row, get-put, other) there
        | inr lost ↦ rw (found, lost, claim_row) there
      ]
    ]
  ]

  skip_row-settled : get (skip_row now j run).1 k ≡ some row
  unfolding skip_row
  skip_row-settled = elim (Bool-cases (j == k)) [
    | inl same ↦ rw (ap (get run) ((eq_iff j k).0 same) ∙ there, settled, skip_row) there
    | inr other ↦ elim (Bool-cases (settled_already (get run j))) [
      | inl old ↦ rw (old, skip_row) there
      | inr new ↦ rw (new, skip_row, get-put, other) there
    ]
  ]

  change_row-settled : (c : Change) → asks c ≡ true → get (change_row now j c run) k ≡ some row
  change_row-settled (claimed_by owner) h = claim_row-settled owner
  change_row-settled skipped h = skip_row-settled
  change_row-settled (completed_with output ports) h = absurd (cc)
  change_row-settled (failed_with error) h = absurd (cc)
  change_row-settled (paused_for reason) h = absurd (cc)

-- A row that is completed, skipped or failed is not changed at all, output and ports included, by
-- any sequence of claims and skips on the store, by whichever worker and for whichever node.
pub settled_row_survives :
    (calls : List Call) (store : ClaimStore) (run_key k : String) (row : NodeState)
    → all_ask calls ≡ true
    → get (rows store run_key) k ≡ some row
    → is_settled row.status ≡ true
    → get (rows (apply_all calls store) run_key) k ≡ some row
settled_row_survives [] store run_key k row h there settled = there
settled_row_survives (c ∷ cs) store run_key k row h there settled =
    settled_row_survives cs (apply c store) run_key k row (ground arith)
      (rw (apply-rows c.now c.run_key c.node_id run_key c.change store) (
        ground (
          arith,
          change_row-settled c.now c.node_id k (rows store run_key) row there settled c.change,
        )))
      settled
