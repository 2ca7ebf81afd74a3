-- ===== src/Durable/State/Samples.antt =====
-- Steps of a claim store on two nodes, and its refinement at them.
use fancy_flow_py.Prelude.{List, [], ◌∷◌, ◌≡◌}
use fancy_flow_py.Durable.State.{claim}
use fancy_flow_py.Durable.State.Clock.{claimed_by, paused_for}
use fancy_flow_py.Durable.State.Refined.{
  Step, called, released, cell, steps, steps_cell, grants, claim_store_refines,
}

abbrev two_nodes : List Step
two_nodes =
    called (record { now = "t0"; run_key = "r"; node_id = "a"; change = claimed_by "w" })
    ∷ called (record { now = "t1"; run_key = "r"; node_id = "b"; change = claimed_by "v" })
    ∷ called (record { now = "t2"; run_key = "r"; node_id = "a"; change = paused_for "approval" })
    ∷ released "r" "b"
    ∷ []

claim_store_refines_example :
    (cell (steps two_nodes []) "r" "a" ≡ steps_cell "r" "a" two_nodes (cell [] "r" "a"))
    × ((claim "t3" (steps two_nodes []) "r" "a" "w").0
        ≡ grants (steps_cell "r" "a" two_nodes (cell [] "r" "a")) "w")
claim_store_refines_example = claim_store_refines two_nodes [] "r" "a" "t3" "w"
