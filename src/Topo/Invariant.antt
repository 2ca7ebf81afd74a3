-- ===== src/Topo/Invariant.antt =====
-- What the `while` loop of `_topo_sort` keeps: each in-degree counts the edges that still wait, and
-- the nodes that wait for nothing are the ones ordered or queued, each once.
use mathlib.Core.Path.{fun_ext}
use fancy_flow_py.Prelude.{
  ℕ, zero, suc, ◌+◌, String, List, [], ◌∷◌, ◌++◌, ◌≡◌, refl, subst, ap, sym, ◌∙◌, false, true, ◌==◌,
  arith, eq_iff, contains, contains-snoc, distinct, distinct-snoc, distinct-middle, contains-append,
  append-nil, IsSubset, append_assoc, if◌then◌else◌, pos, Bool-cases, inl, inr, ◌⊎◌,
}
use fancy_flow_py.Prelude.Dict.{put, get-put}
use fancy_flow_py.Graph.{FlowEdge}
use fancy_flow_py.Topo.{Degrees, degree, Kahn, relax, relax_all, round}
use fancy_flow_py.Topo.Count.{IsFed, IsFed-of_waiting, waits, waiting, waits_leaving, waits_other}

-- `keys` are the keys of `in_degree`, `l` the ids that were ever queued.
pub record Counts (keys : List String) (c : String → ℕ) (d : Degrees) (l : List String)
    : Type 0 where
  pub counted : (k : String) → degree d k ≡ pos (c k)
  pub free : (k : String) → contains l k ≡ true → c k ≡ 0
  pub queued : (k : String) → contains keys k ≡ true → c k ≡ 0 → contains l k ≡ true
  pub once : distinct l ≡ true
  pub inside : IsSubset l keys

module _ {keys : List String} {c : String → ℕ} {d : Degrees} {l : List String}
    (h : Counts keys c d l) (c' : String → ℕ) where
  pub Counts-cong : ((k : String) → c k ≡ c' k) → Counts keys c' d l
  Counts-cong e = subst (λ f. Counts keys f d l) (fun_ext e) h

  module _ (t : String) (known : contains keys t ≡ true)
      (drop : (k : String) → c k ≡ (if t == k then 1 else 0) + c' k) where
    -- The last edge into `t` stops waiting: `t` is queued.
    Counts-last : c' t ≡ 0 → Counts keys c' (put d t (pos 0)) (l ++ t ∷ [])
    Counts-last e = record {
      counted = λ k. ground (arith, get-put d t k (pos 0), h.counted k, drop k, eq_iff t k);
      free = λ k. ground (arith, contains-snoc l t k, h.free k, drop k, eq_iff t k);
      queued = λ k. ground (arith, contains-snoc l t k, h.queued k, drop k, eq_iff t k);
      once = distinct-snoc l t h.once (ground (arith, h.free t, drop t, eq_iff t t));
      inside = λ k. ground (arith, contains-snoc l t k, h.inside k, eq_iff t k);
    }

    -- An edge into `t` stops waiting, and others go on.
    Counts-more : (m : ℕ) → c' t ≡ suc m → Counts keys c' (put d t (pos (suc m))) l
    Counts-more m e = record {
      counted = λ k. ground (arith, get-put d t k (pos (suc m)), h.counted k, drop k, eq_iff t k);
      free = λ k. ground (arith, h.free k, drop k, eq_iff t k, h.free t);
      queued = λ k. ground (arith, h.queued k, drop k, eq_iff t k);
      once = h.once;
      inside = h.inside;
    }

abbrev pub KahnCounts : List String → (String → ℕ) → Kahn → Type 0
KahnCounts keys c s = Counts keys c s.in_degree (s.ordered ++ s.queue)

ℕ-cases : (n : ℕ) → (n ≡ 0) ⊎ ((m : ℕ) × (n ≡ suc m))
ℕ-cases zero = inl refl
ℕ-cases (suc m) = inr (m, refl)

relax-Counts :
    (keys : List String) (c c' : String → ℕ) (e : FlowEdge) (s : Kahn)
    → KahnCounts keys c s
    → contains keys e.target ≡ true
    → ((k : String) → c k ≡ (if e.target == k then 1 else 0) + c' k)
    → KahnCounts keys c' (relax e s)
unfolding relax
relax-Counts keys c c' e s h known drop =
    let here : degree s.in_degree e.target ≡ pos (suc (c' e.target)) =
      ground (arith, h.counted e.target, drop e.target, eq_iff e.target e.target) in
    elim (ℕ-cases (c' e.target)) [
      | inl z ↦ rw (here, z) (rw (← append_assoc) (Counts-last h c' e.target known drop z))
      | inr (m, z) ↦ rw (here, z) (Counts-more h c' e.target known drop m z)
    ]

-- Every edge leads to one of the keys.
abbrev pub AreKnown : List String → List FlowEdge → Type 0
AreKnown keys [] = Unit
AreKnown keys (e ∷ es) = (contains keys e.target ≡ true) × AreKnown keys es

module _ (u : String) (e : FlowEdge) (es : List FlowEdge) (s : Kahn) where
  relax_all-leaving : (e.source == u) ≡ true → relax_all u (e ∷ es) s ≡ relax_all u es (relax e s)
  unfolding relax_all
  relax_all-leaving h = ap (λ b. relax_all u es (if b then relax e s else s)) h

  relax_all-other : (e.source == u) ≡ false → relax_all u (e ∷ es) s ≡ relax_all u es s
  unfolding relax_all
  relax_all-other h = ap (λ b. relax_all u es (if b then relax e s else s)) h

ordered-relax : (e : FlowEdge) (s : Kahn) → (relax e s).ordered ≡ s.ordered
unfolding relax
ordered-relax e s = refl

pub ordered-relax_all :
    (node_id : String) (es : List FlowEdge) (s : Kahn)
    → (relax_all node_id es s).ordered ≡ s.ordered
unfolding relax_all
ordered-relax_all node_id [] s = refl
ordered-relax_all node_id (e ∷ es) s = elim (Bool-cases (e.source == node_id)) [
  | inl h ↦
      ap (λ (t : Kahn). t.ordered) (relax_all-leaving node_id e es s h)
      ∙ (ordered-relax_all node_id es (relax e s) ∙ ordered-relax e s)
  | inr h ↦
      ap (λ (t : Kahn). t.ordered) (relax_all-other node_id e es s h)
      ∙ ordered-relax_all node_id es s
]

module _ (keys done : List String) (node_id : String) (fresh : contains done node_id ≡ false) where
  -- `base` counts the edges that the inner loop has passed.
  pub relax_all-Counts :
      (es : List FlowEdge) (base : String → ℕ) (s : Kahn)
      → AreKnown keys es
      → KahnCounts keys (λ k. base k + waiting es done k) s
      → KahnCounts keys (λ k. base k + waiting es (done ++ node_id ∷ []) k) (relax_all node_id es s)
  unfolding relax_all
  relax_all-Counts [] base s known h = h
  relax_all-Counts (e ∷ es) base s known h = elim (Bool-cases (e.source == node_id)) [
    | inl leaves ↦
        let split = λ (k : String). waits_leaving done node_id fresh e k leaves in
        let next = relax_all-Counts es base (relax e s) known.1 (
          relax-Counts keys _ (λ k. base k + waiting es done k) e s h known.0
            (λ k. omega (arith, (split k).0))) in
        subst (KahnCounts keys _) (sym (relax_all-leaving node_id e es s leaves))
          (Counts-cong next _ (λ k. omega (arith, (split k).1)))
    | inr stays ↦
        let same = λ (k : String). waits_other done node_id fresh e k stays in
        let next =
          relax_all-Counts es (λ k. base k + waits e done k) s known.1
            (Counts-cong h _ (λ k. omega arith)) in
        subst (KahnCounts keys _) (sym (relax_all-other node_id e es s stays))
          (Counts-cong next _ (λ k. omega (arith, same k)))
  ]

-- Each id comes after the sources of all edges into it.
abbrev pub IsOrdered : List FlowEdge → List String → List String → Type 0
IsOrdered edges seen [] = Unit
IsOrdered edges seen (k ∷ ks) = IsFed edges seen k × IsOrdered edges (seen ++ k ∷ []) ks

IsOrdered-snoc :
    (edges : List FlowEdge) (seen ks : List String) (k : String)
    → IsOrdered edges seen ks
    → IsFed edges (seen ++ ks) k
    → IsOrdered edges seen (ks ++ k ∷ [])
IsOrdered-snoc edges seen [] k h fed = (rw append-nil at fed, tt)
IsOrdered-snoc edges seen (j ∷ ks) k h fed =
    (h.0, IsOrdered-snoc edges (seen ++ j ∷ []) ks k h.1 (rw append_assoc fed))

pub record Inv (keys : List String) (edges : List FlowEdge) (s : Kahn) : Type 0 where
  pub counts : KahnCounts keys (λ k. waiting edges s.ordered k) s
  pub sorted : IsOrdered edges [] s.ordered

module _ (keys : List String) (edges : List FlowEdge) (known : AreKnown keys edges) where
  pub round-Inv :
      (s : Kahn) (u : String) (rest : List String)
      → s.queue ≡ u ∷ rest
      → Inv keys edges s
      → Inv keys edges (round edges s u rest)
  unfolding round
  round-Inv s u rest e h =
      let popped : Kahn = record s { queue = rest; ordered = s.ordered ++ u ∷ [] } in
      let counts : Counts keys (λ k. waiting edges s.ordered k) s.in_degree
          (s.ordered ++ u ∷ rest) =
        rw e at h.counts in
      let fresh = distinct-middle s.ordered u rest counts.once in
      let moved : KahnCounts keys (λ k. 0 + waiting edges s.ordered k) popped =
        rw append_assoc (Counts-cong counts _ (λ k. omega arith)) in
      let same = ordered-relax_all u edges popped in
      record {
        counts =
            subst (λ o. KahnCounts keys (λ k. waiting edges o k) (relax_all u edges popped))
              (sym same)
              (Counts-cong
                (relax_all-Counts keys s.ordered u fresh edges (λ _. 0) popped known moved) _
                (λ k. omega arith));
        sorted = rw same (
            IsOrdered-snoc edges [] s.ordered u h.sorted (
              IsFed-of_waiting edges s.ordered u (
                counts.free u
                  (ground (arith, contains-append s.ordered (u ∷ rest) u, eq_iff u u)))));
      }
