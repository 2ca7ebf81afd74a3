-- ===== src/Topo/Count.antt =====
-- How many edges into a node still wait for their source.
use fancy_flow_py.Prelude.{
  ℕ, ◌+◌, String, List, [], ◌∷◌, ◌++◌, ◌≡◌, refl, true, false, not, ◌&&◌, ◌==◌, arith, eq_iff,
  contains, contains-snoc, if◌then◌else◌,
}
use fancy_flow_py.Graph.{FlowEdge}

-- Edge `e` leads into `k`, and its source is not among `done`.
abbrev pub waits : FlowEdge → List String → String → ℕ
waits e done k = if e.target == k && not (contains done e.source) then 1 else 0

abbrev pub waiting : List FlowEdge → List String → String → ℕ
waiting [] done k = 0
waiting (e ∷ es) done k = waits e done k + waiting es done k

-- Every edge into `k` comes from one of `seen`.
abbrev pub IsFed : List FlowEdge → List String → String → Type 0
IsFed [] seen k = Unit
IsFed (e ∷ es) seen k = (e.target ≡ k → contains seen e.source ≡ true) × IsFed es seen k

pub IsFed-of_waiting :
    (es : List FlowEdge) (seen : List String) (k : String) → waiting es seen k ≡ 0 → IsFed es seen k
IsFed-of_waiting [] seen k h = tt
IsFed-of_waiting (e ∷ es) seen k h =
    (λ t. ground (arith, eq_iff e.target k), IsFed-of_waiting es seen k (ground arith))

pub waiting_of_IsFed :
    (es : List FlowEdge) (seen : List String) (k : String) → IsFed es seen k → waiting es seen k ≡ 0
waiting_of_IsFed [] seen k h = refl
waiting_of_IsFed (e ∷ es) seen k h =
    ground (arith, eq_iff e.target k, waiting_of_IsFed es seen k h.1)

module _ (done : List String) (node_id : String) (fresh : contains done node_id ≡ false) where
  -- An edge that leaves `node_id` stops waiting when `node_id` is done.
  pub waits_leaving :
      (e : FlowEdge) (k : String)
      → (e.source == node_id) ≡ true
      → (waits e done k ≡ (if e.target == k then 1 else 0)) × (waits e (done ++ node_id ∷ []) k ≡ 0)
  waits_leaving e k h =
      let same = (eq_iff e.source node_id).0 h in
      ground (arith, same, contains-snoc done node_id e.source)

  pub waits_other :
      (e : FlowEdge) (k : String)
      → (e.source == node_id) ≡ false
      → waits e (done ++ node_id ∷ []) k ≡ waits e done k
  waits_other e k h =
      ground (
        arith,
        contains-snoc done node_id e.source,
        eq_iff e.source node_id,
        eq_iff node_id e.source,
      )
