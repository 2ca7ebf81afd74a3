-- ===== src/Durable/State/Clock.antt =====
-- What the operations of a claim store do to a row that is there.
use fancy_flow_py.Prelude.{
  String, List, [], ◌∷◌, some, ◌==◌, ◌≤◌, ◌≡◌, ◌∙◌, refl, ap, subst, arith, eq_iff, Bool-cases,
  Option-cases, inl, inr, or_else, if◌then◌else◌,
}
use fancy_flow_py.Prelude.Dict.{get, put, get-put}
use fancy_flow_py.Value.{Value}
use fancy_flow_py.Durable.State.{
  NodeState, Rows, ClaimStore, blank, rows, settled_already, entry, claim_row, complete_row,
  skip_row, fail_row, pause_row, own_claim, claim, complete, skip, fail, pause,
}
use fancy_flow_py.Durable.State.Claims.{rows-put}

-- A call of the store, other than a release.
pub data Change : Type 0 where
  claimed_by : String → Change
  completed_with : Value → List String → Change
  skipped : Change
  failed_with : String → Change
  paused_for : String → Change

abbrev pub change_row : String → String → Change → Rows → Rows
change_row now node_id (claimed_by owner) run = (claim_row now node_id owner run).1
change_row now node_id (completed_with output ports) run = complete_row now node_id output ports run
change_row now node_id skipped run = (skip_row now node_id run).1
change_row now node_id (failed_with error) run = fail_row now node_id error run
change_row now node_id (paused_for reason) run = pause_row now node_id reason run

-- The call at a time, on a node of a run.
pub record Call : Type 0 where
  pub now : String
  pub run_key : String
  pub node_id : String
  pub change : Change

abbrev pub apply : Call → ClaimStore → ClaimStore
apply c store = elim c.change [
  | claimed_by owner ↦ (claim c.now store c.run_key c.node_id owner).1
  | completed_with output ports ↦ complete c.now store c.run_key c.node_id output ports
  | skipped ↦ (skip c.now store c.run_key c.node_id).1
  | failed_with error ↦ fail c.now store c.run_key c.node_id error
  | paused_for reason ↦ pause c.now store c.run_key c.node_id reason
]

abbrev pub apply_all : List Call → ClaimStore → ClaimStore
apply_all [] store = store
apply_all (c ∷ cs) store = apply_all cs (apply c store)

-- The same claim, later: its clock and its owner are the same, and no attempt was forgotten.
pub record Keeps (row row' : NodeState) : Type 0 where
  pub clock : row'.first_attempt_at ≡ row.first_attempt_at
  pub owner : row'.owner ≡ row.owner
  pub counted : row.attempts ≤ row'.attempts

Keeps-refl : (row : NodeState) → Keeps row row
Keeps-refl row = record { clock = refl; owner = refl; counted = omega arith }

Keeps-trans : (a b c : NodeState) → Keeps a b → Keeps b c → Keeps a c
Keeps-trans a b c h k = record {
  clock = k.clock ∙ h.clock;
  owner = k.owner ∙ h.owner;
  counted = omega (arith, h.counted, k.counted);
}

abbrev pub Kept : Rows → String → NodeState → Type 0
Kept run k row = (row' : NodeState) × (get run k ≡ some row') × Keeps row row'

-- A row is put in place of another.
put-Kept :
    (run : Rows) (j k : String) (row new : NodeState)
    → get run k ≡ some row
    → (j ≡ k → Keeps row new)
    → Kept (put run j new) k row
put-Kept run j k row new there keeps = elim (Bool-cases (j == k)) [
  | inl same ↦ (new, rw (get-put, same), keeps ((eq_iff j k).0 same))
  | inr other ↦ (row, rw (get-put, other) there, Keeps-refl row)
]

-- The row that `_entry` answers, where there is one.
entry-there :
    (now : String) (run : Rows) (j k : String) (row : NodeState)
    → get run k ≡ some row
    → j ≡ k
    → entry now j run ≡ row
unfolding entry
entry-there now run j k row there same =
    ap (λ i. or_else (get run i) (blank now)) same ∙ ap (λ o. or_else o (blank now)) there

Keeps-of_entry : (row e new : NodeState) → e ≡ row → Keeps e new → Keeps row new
Keeps-of_entry row e new same keeps = subst (λ r. Keeps r new) same keeps

module _ (now j k : String) (run : Rows) (row : NodeState) (there : get run k ≡ some row) where
  -- The row of `_entry` is put back with other fields.
  entry-Kept : (new : NodeState) → Keeps (entry now j run) new → Kept (put run j new) k row
  entry-Kept new keeps = put-Kept run j k row new there (λ same.
      Keeps-of_entry row (entry now j run) new (entry-there now run j k row there same) keeps)

  claim_row-Kept : (owner : String) → Kept (claim_row now j owner run).1 k row
  unfolding claim_row
  claim_row-Kept owner = elim (Option-cases (get run j)) [
    | inl fresh ↦
        rw (fresh, claim_row)
          (put-Kept run j k row _ there (λ same. absurd (ground (arith, ap (get run) same))))
    | inr (e, found) ↦ elim (Bool-cases (own_claim e owner)) [
      | inr other ↦ rw (found, other, claim_row) (row, there, Keeps-refl row)
      | inl own ↦
          rw (found, own, claim_row)
            (put-Kept run j k row _ there (λ same.
              Keeps-of_entry row e _ (ground (arith, ap (get run) same))
                (record { clock = refl; owner = refl; counted = omega arith })))
    ]
  ]

  change_row-Kept : (c : Change) → Kept (change_row now j c run) k row
  unfolding complete_row skip_row fail_row pause_row
  change_row-Kept (claimed_by owner) = claim_row-Kept owner
  change_row-Kept (completed_with output ports) =
      entry-Kept _ (record { clock = refl; owner = refl; counted = omega arith })
  change_row-Kept skipped = elim (Bool-cases (settled_already (get run j))) [
    | inl settled ↦ rw (settled, skip_row, change_row) (row, there, Keeps-refl row)
    | inr unsettled ↦
        rw (unsettled, skip_row, change_row)
          (entry-Kept _ (record { clock = refl; owner = refl; counted = omega arith }))
  ]
  change_row-Kept (failed_with error) =
      entry-Kept _ (record { clock = refl; owner = refl; counted = omega arith })
  change_row-Kept (paused_for reason) =
      entry-Kept _ (record { clock = refl; owner = refl; counted = omega arith })

-- The rows of a run after a call: changed, if the call is on that run.
pub apply-rows :
    (now run_key node_id j : String) (change : Change) (store : ClaimStore)
    → rows
        (apply (record { now = now; run_key = run_key; node_id = node_id; change = change }) store)
        j
      ≡ (if run_key == j then change_row now node_id change (rows store j) else rows store j)
unfolding claim complete skip fail pause skip_row
apply-rows now run_key node_id j (claimed_by owner) store = ground (
  arith,
  rows-put store run_key j (claim_row now node_id owner (rows store run_key)).1,
  eq_iff run_key j,
)
apply-rows now run_key node_id j (completed_with output ports) store = ground (
  arith,
  rows-put store run_key j (complete_row now node_id output ports (rows store run_key)),
  eq_iff run_key j,
)
apply-rows now run_key node_id j skipped store = ground (
  arith,
  rows-put store run_key j (skip_row now node_id (rows store run_key)).1,
  eq_iff run_key j,
)
apply-rows now run_key node_id j (failed_with error) store = ground (
  arith,
  rows-put store run_key j (fail_row now node_id error (rows store run_key)),
  eq_iff run_key j,
)
apply-rows now run_key node_id j (paused_for reason) store = ground (
  arith,
  rows-put store run_key j (pause_row now node_id reason (rows store run_key)),
  eq_iff run_key j,
)

apply-Kept :
    (c : Call) (store : ClaimStore) (run_key k : String) (row : NodeState)
    → get (rows store run_key) k ≡ some row
    → Kept (rows (apply c store) run_key) k row
apply-Kept c store run_key k row there = elim (Bool-cases (c.run_key == run_key)) [
  | inl same ↦
      rw (apply-rows c.now c.run_key c.node_id run_key c.change store, same)
        (change_row-Kept c.now c.node_id k (rows store run_key) row there c.change)
  | inr other ↦
      rw (apply-rows c.now c.run_key c.node_id run_key c.change store, other)
        (row, there, Keeps-refl row)
]

-- Once a node of a run has a row, it has one through all later calls on the store, for any run and
-- node, short of a release. The row keeps the time of its first attempt and its owner, and the
-- number of its attempts never goes down.
pub clock_never_moves :
    (calls : List Call) (store : ClaimStore) (run_key k : String) (row : NodeState)
    → get (rows store run_key) k ≡ some row
    → Kept (rows (apply_all calls store) run_key) k row
clock_never_moves [] store run_key k row there = (row, there, Keeps-refl row)
clock_never_moves (c ∷ cs) store run_key k row there =
    let (row', there', keeps) = apply-Kept c store run_key k row there in
    let (last, end, keeps') = clock_never_moves cs (apply c store) run_key k row' there' in
    (last, end, Keeps-trans row row' last keeps keeps')
