-- ===== src/Durable/State/Refined.antt =====
-- The claim store of src/fancy_flow/durable/state.py as independent rows: what it promises of one
-- node of one run, whatever is asked of the others.
use fancy_flow_py.Prelude.{
  String, List, [], ◌∷◌, Option, none, some, Bool, true, ◌&&◌, ◌==◌, ◌+◌, ◌≡◌, ◌∙◌, refl, ap, arith,
  eq_iff, or_else, if◌then◌else◌,
}
use fancy_flow_py.Prelude.Dict.{get, pop, get-put, get-pop}
use fancy_flow_py.Durable.State.{
  NodeRunStatus, NodeState, Rows, ClaimStore, blank, rows, settled_already, entry, claim_row,
  complete_row, skip_row, fail_row, pause_row, own_claim, claim, release,
}
use fancy_flow_py.Durable.State.Clock.{
  Change, claimed_by, completed_with, skipped, failed_with, paused_for, change_row, Call, apply,
  apply-rows,
}

-- The row of one node, if there is one.
abbrev pub Cell : Type 0
Cell = Option NodeState

abbrev pub cell : ClaimStore → String → String → Cell
cell store run_key node_id = get (rows store run_key) node_id

-- Whether a claim of the row is granted.
abbrev pub grants : Cell → String → Bool
grants none owner = true
grants (some row) owner = own_claim row owner

abbrev pub claimed_cell : String → String → Cell → Cell
claimed_cell now owner none = some (record (blank now) { owner = some owner; attempts = 1 })
claimed_cell now owner (some row) =
    if own_claim row owner
    then some (record row { attempts = row.attempts + 1; status = NodeRunStatus.claimed })
    else some row

abbrev claimed_again : NodeState → NodeState
claimed_again row = record row { attempts = row.attempts + 1; status = NodeRunStatus.claimed }

-- What a call makes of the row.
abbrev pub change_cell : String → Change → Cell → Cell
change_cell now (claimed_by owner) row = claimed_cell now owner row
change_cell now (completed_with output ports) row = some (record (or_else row (blank now)) {
  status = NodeRunStatus.completed;
  output = output;
  ports = ports;
  error = none;
})
change_cell now skipped row =
    if settled_already row
    then row
    else some (record (or_else row (blank now)) { status = NodeRunStatus.skipped; ports = [] })
change_cell now (failed_with error) row = some (record (or_else row (blank now)) {
  status = NodeRunStatus.failed;
  error = some error;
  ports = [];
})
change_cell now (paused_for reason) row = some (record (or_else row (blank now)) {
  status = NodeRunStatus.paused;
  error = some reason;
  ports = [];
})

-- A step of the store: a call, or a release of a node of a run.
pub data Step : Type 0 where
  called : Call → Step
  released : String → String → Step

abbrev pub step : Step → ClaimStore → ClaimStore
step (called c) store = apply c store
step (released run_key node_id) store = release store run_key node_id

abbrev pub steps : List Step → ClaimStore → ClaimStore
steps [] store = store
steps (s ∷ ss) store = steps ss (step s store)

-- The same steps on one row: those on other nodes and other runs are passed over.
abbrev pub step_cell : String → String → Step → Cell → Cell
step_cell run_key node_id (called c) row =
    if c.run_key == run_key && c.node_id == node_id then change_cell c.now c.change row else row
step_cell run_key node_id (released r n) row = if r == run_key && n == node_id then none else row

abbrev pub steps_cell : String → String → List Step → Cell → Cell
steps_cell run_key node_id [] row = row
steps_cell run_key node_id (s ∷ ss) row =
    steps_cell run_key node_id ss (step_cell run_key node_id s row)

get-change_row :
    (now k j : String) (change : Change) (run : Rows)
    → get (change_row now k change run) j
      ≡ (if k == j then change_cell now change (get run j) else get run j)
unfolding claim_row complete_row skip_row fail_row pause_row entry
get-change_row now k j (claimed_by owner) run = ground (
  arith,
  get-put run k j (record (blank now) { owner = some owner; attempts = 1 }),
  get-put run k j (claimed_again (or_else (get run k) (blank now))),
  eq_iff k j,
)
get-change_row now k j (completed_with output ports) run = ground (
  arith,
  get-put run k j (record (or_else (get run k) (blank now)) {
    status = NodeRunStatus.completed;
    output = output;
    ports = ports;
    error = none;
  }),
  eq_iff k j,
)
get-change_row now k j skipped run = ground (
  arith,
  get-put run k j
      (record (or_else (get run k) (blank now)) { status = NodeRunStatus.skipped; ports = [] }),
  eq_iff k j,
)
get-change_row now k j (failed_with error) run = ground (
  arith,
  get-put run k j (record (or_else (get run k) (blank now)) {
    status = NodeRunStatus.failed;
    error = some error;
    ports = [];
  }),
  eq_iff k j,
)
get-change_row now k j (paused_for reason) run = ground (
  arith,
  get-put run k j (record (or_else (get run k) (blank now)) {
    status = NodeRunStatus.paused;
    error = some reason;
    ports = [];
  }),
  eq_iff k j,
)

rows-release :
    (store : ClaimStore) (r n run_key k : String)
    → cell (release store r n) run_key k
      ≡ (if r == run_key && n == k then none else cell store run_key k)
unfolding release rows
rows-release store r n run_key k = ground (
  arith,
  get-put store r run_key (pop (rows store r) n),
  get-pop (rows store r) n k,
  eq_iff r run_key,
  eq_iff n k,
)

cell-step :
    (s : Step) (store : ClaimStore) (run_key k : String)
    → cell (step s store) run_key k ≡ step_cell run_key k s (cell store run_key k)
cell-step (called c) store run_key k =
    ap (λ run. get run k) (apply-rows c.now c.run_key c.node_id run_key c.change store)
    ∙ ground (arith, get-change_row c.now c.node_id k c.change (rows store run_key))
cell-step (released r n) store run_key k = rows-release store r n run_key k

claim-grants :
    (now : String) (store : ClaimStore) (run_key k owner : String)
    → (claim now store run_key k owner).0 ≡ grants (cell store run_key k) owner
unfolding claim claim_row
claim-grants now store run_key k owner = ground arith

-- After any steps on any store, the row of a node of a run is what the steps on that node of that run
-- alone make of its row, in their order; steps on other nodes and on other runs change nothing of it.
-- A claim is granted just when that row grants it.
pub claim_store_refines :
    (ss : List Step) (store : ClaimStore) (run_key k now owner : String)
    → (cell (steps ss store) run_key k ≡ steps_cell run_key k ss (cell store run_key k))
      × ((claim now (steps ss store) run_key k owner).0
          ≡ grants (steps_cell run_key k ss (cell store run_key k)) owner)
claim_store_refines ss store run_key k now owner = (
  cell-steps ss store,
  claim-grants now (steps ss store) run_key k owner
      ∙ ap (λ row. grants row owner) (cell-steps ss store),
)
  where
    cell-steps :
        (ss : List Step) (store : ClaimStore)
        → cell (steps ss store) run_key k ≡ steps_cell run_key k ss (cell store run_key k)
    cell-steps [] store = refl
    cell-steps (s ∷ ss) store =
        cell-steps ss (step s store) ∙ ap (steps_cell run_key k ss) (cell-step s store run_key k)
