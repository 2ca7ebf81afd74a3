-- ===== src/Topo/Start.antt =====
-- The state in which the `while` loop of `_topo_sort` starts.
use fancy_flow_py.Prelude.{
  ℕ, suc, ◌+◌, String, List, [], ◌∷◌, ◌++◌, ◌≡◌, refl, true, ◌||◌, ◌&&◌, ◌==◌, arith, eq_iff,
  contains, contains-append, distinct, IsSubset, map, if◌then◌else◌, pos, increment, is_zero,
}
use fancy_flow_py.Prelude.Dict.{get, put, get-put, keys, has, contains-keys, distinct-keys-put}
use fancy_flow_py.Graph.{FlowNode, FlowEdge, FlowGraph, ids}
use fancy_flow_py.Topo.{Degrees, degree, zeros, count_targets, roots, start}
use fancy_flow_py.Topo.Count.{waiting}
use fancy_flow_py.Topo.Invariant.{Inv, AreKnown}

abbrev pub targets : List FlowEdge → List String
targets es = map (λ e. e.target) es

-- The keys that `in_degree` ever has.
abbrev pub all_keys : FlowGraph → List String
all_keys g = ids g.nodes ++ targets g.edges

record Filled (known : List String) (c : String → ℕ) (d : Degrees) : Type 0 where
  keyed : (k : String) → has d k ≡ contains known k
  counted : (k : String) → degree d k ≡ pos (c k)
  apart : distinct (keys d) ≡ true

zeros-Filled :
    (ns : List FlowNode) (known : List String) (d : Degrees)
    → Filled known (λ _. 0) d
    → (r : List String) × ((k : String) → contains r k ≡ (contains (ids ns) k || contains known k))
      × Filled r (λ _. 0) (zeros ns d)
unfolding zeros
zeros-Filled [] known d h = (known, λ k. refl, h)
zeros-Filled (n ∷ ns) known d h =
    let (r, same, filled) = zeros-Filled ns (n.id ∷ known) (put d n.id (pos 0)) (record {
      keyed = λ k. ground (arith, h.keyed k, get-put d n.id k (pos 0));
      counted = λ k. ground (arith, h.counted k, get-put d n.id k (pos 0));
      apart = distinct-keys-put d n.id (pos 0) h.apart;
    }) in
    (r, λ k. ground (arith, same k), filled)

count-Filled :
    (es : List FlowEdge) (known : List String) (c : String → ℕ) (d : Degrees)
    → Filled known c d
    → (r : List String) × ((k : String)
        → contains r k ≡ (contains (targets es) k || contains known k))
      × Filled r (λ k. c k + waiting es [] k) (count_targets es d)
unfolding count_targets
count-Filled [] known c d h = (
  known,
  λ k. refl,
  record { keyed = h.keyed; counted = λ k. ground (arith, h.counted k); apart = h.apart },
)
count-Filled (e ∷ es) known c d h =
    let n = increment (degree d e.target) in
    let up : n ≡ pos (suc (c e.target)) = unfold increment in rw (h.counted e.target) in
    let (r, same, filled) =
      count-Filled es (e.target ∷ known) (λ k. (if e.target == k then 1 else 0) + c k)
        (put d e.target n)
        (record {
          keyed = λ k. ground (arith, h.keyed k, get-put d e.target k n);
          counted = λ k. ground (arith, h.counted k, up, get-put d e.target k n, eq_iff e.target k);
          apart = distinct-keys-put d e.target n h.apart;
        }) in
    (
      r,
      λ k. ground (arith, same k),
      record {
        keyed = filled.keyed;
        counted = λ k. ground (arith, filled.counted k);
        apart = filled.apart;
      },
    )

roots-inside : (d : Degrees) (k : String) → contains (roots d) k ≡ true → contains (keys d) k ≡ true
unfolding roots keys
roots-inside [] k h = h
roots-inside ((j, n) ∷ d) k h = ground (arith, roots-inside d k)

contains-roots :
    (d : Degrees) (k : String)
    → distinct (keys d) ≡ true
    → contains (roots d) k ≡ (has d k && is_zero (degree d k))
unfolding roots keys get
contains-roots [] k h = refl
contains-roots ((j, n) ∷ d) k h =
    ground (arith, contains-roots d k, roots-inside d k, contains-keys d k, eq_iff j k)

distinct-roots : (d : Degrees) → distinct (keys d) ≡ true → distinct (roots d) ≡ true
unfolding roots keys
distinct-roots [] h = refl
distinct-roots ((j, n) ∷ d) h = ground (arith, distinct-roots d, roots-inside d j)

known-targets : (ks : List String) (es : List FlowEdge) → IsSubset (targets es) ks → AreKnown ks es
known-targets ks [] h = tt
known-targets ks (e ∷ es) h = (
  h e.target (ground (arith, eq_iff e.target e.target)),
  known-targets ks es (λ k m. h k (ground arith)),
)

pub known-all_keys : (g : FlowGraph) → AreKnown (all_keys g) g.edges
known-all_keys g =
    known-targets (all_keys g) g.edges
      (λ k m. ground (arith, contains-append (ids g.nodes) (targets g.edges) k))

pub start-Inv : (g : FlowGraph) → Inv (all_keys g) g.edges (start g)
unfolding start
start-Inv g =
    let (r, same, zeroed) = zeros-Filled g.nodes [] [] (record {
      keyed = λ k. unfold get in refl;
      counted = λ k. unfold get in refl;
      apart = unfold keys in refl;
    }) in
    let (all, known, filled) = count-Filled g.edges r (λ _. 0) (zeros g.nodes []) zeroed in
    let d = count_targets g.edges (zeros g.nodes []) in
    let there = λ (k : String). contains-append (ids g.nodes) (targets g.edges) k in
    let rooted = λ (k : String). contains-roots d k filled.apart in
    record {
      counts = record {
        counted = λ k. ground (arith, filled.counted k);
        free = λ k m. unfold is_zero in ground (arith, rooted k, filled.counted k);
        queued = λ k m z.
            unfold is_zero in
            ground (arith, rooted k, filled.counted k, filled.keyed k, known k, same k, there k);
        once = distinct-roots d filled.apart;
        inside = λ k m. ground (arith, rooted k, filled.keyed k, known k, same k, there k);
      };
      sorted = tt;
    }
