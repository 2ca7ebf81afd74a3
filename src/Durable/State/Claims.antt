-- ===== src/Durable/State/Claims.antt =====
-- Claims of one node by several workers.
use fancy_flow_py.Prelude.{
  ℕ, suc, String, List, [], ◌∷◌, none, some, Bool, true, ◌==◌, ◌+◌, ◌≡◌, ◌∙◌, refl, ap, arith, map,
  eq_refl, Bool-cases, inl, inr, if◌then◌else◌,
}
use fancy_flow_py.Prelude.Dict.{get, put, get-put}
use fancy_flow_py.Durable.State.{NodeState, Rows, ClaimStore, blank, rows, claim_row, claim}

pub rows-put :
    (store : ClaimStore) (run_key j : String) (run : Rows)
    → rows (put store run_key run) j ≡ (if run_key == j then run else rows store j)
unfolding rows
rows-put store run_key j run = ground (arith, get-put store run_key j run)

-- The row of a node that `owner` claimed first at `now`, and `n` times in all.
abbrev pub owned : String → String → ℕ → NodeState
owned now owner n = record (blank now) { owner = some owner; attempts = n }

-- Claims one after the other, each with its time: which were granted, and the store after them.
unfoldable pub race : String → String → List (String × String) → ClaimStore → List Bool × ClaimStore
unfolding claim
race run_key node_id [] store = ([], store)
race run_key node_id ((now, owner) ∷ claims) store =
    let (won, store') = claim now store run_key node_id owner in
    let (rest, last) = race run_key node_id claims store' in (won ∷ rest, last)

-- How many of the claims are by `owner`.
unfoldable pub count_by : String → List (String × String) → ℕ
count_by owner [] = 0
count_by owner ((now, o) ∷ claims) =
    let rest = count_by owner claims in if owner == o then suc rest else rest

module _ (run_key node_id : String) where
  claim-fresh :
      (store : ClaimStore) (now owner : String)
      → get (rows store run_key) node_id ≡ none
      → ((claim now store run_key node_id owner).0 ≡ true)
        × (get (rows (claim now store run_key node_id owner).1 run_key) node_id
            ≡ some (owned now owner 1))
  unfolding claim claim_row
  claim-fresh store now owner fresh = (
    rw (fresh, claim, claim_row),
    rw (fresh, claim, claim_row, rows-put, eq_refl run_key, get-put, eq_refl node_id),
  )

  claim-owned :
      (store : ClaimStore) (now first o owner : String) (n : ℕ)
      → get (rows store run_key) node_id ≡ some (owned first o n)
      → ((claim now store run_key node_id owner).0 ≡ (o == owner))
        × (get (rows (claim now store run_key node_id owner).1 run_key) node_id
            ≡ some (owned first o (if o == owner then n + 1 else n)))
  unfolding claim claim_row
  claim-owned store now first o owner n held = elim (Bool-cases (o == owner)) [
    | inl own ↦ (
      rw (held, claim, claim_row, own),
      rw (held, claim, claim_row, own, rows-put, eq_refl run_key, get-put, eq_refl node_id),
    )
    | inr other ↦ (
      rw (held, claim, claim_row, other),
      rw (held, claim, claim_row, other, rows-put, eq_refl run_key) held,
    )
  ]

  race-owned :
      (claims : List (String × String)) (store : ClaimStore) (first o : String) (n : ℕ)
      → get (rows store run_key) node_id ≡ some (owned first o n)
      → ((race run_key node_id claims store).0 ≡ map (λ c. o == c.1) claims)
        × (get (rows (race run_key node_id claims store).1 run_key) node_id
            ≡ some (owned first o (n + count_by o claims)))
  unfolding race count_by
  race-owned [] store first o n held = (refl, held ∙ ap (λ m. some (owned first o m)) (omega arith))
  race-owned ((now, owner) ∷ claims) store first o n held =
      let (won, kept) = claim-owned store now first o owner n held in
      let (rest, last) =
        race-owned claims (claim now store run_key node_id owner).1 first o
          (if o == owner then n + 1 else n) kept in
      (rw (won, rest), last ∙ ap (λ m. some (owned first o m)) (ground arith))

-- Workers claim a node that has no row, one after the other, and as often as they like. Granted are
-- the claims of the one who came first, and only these; the row is theirs, counts their claims as
-- attempts, and keeps the time of the first.
pub claim_race :
    (run_key node_id now owner : String) (claims : List (String × String)) (store : ClaimStore)
    → get (rows store run_key) node_id ≡ none
    → ((race run_key node_id ((now, owner) ∷ claims) store).0
        ≡ map (λ c. owner == c.1) ((now, owner) ∷ claims))
      × (get (rows (race run_key node_id ((now, owner) ∷ claims) store).1 run_key) node_id
          ≡ some (owned now owner (count_by owner ((now, owner) ∷ claims))))
unfolding race count_by
claim_race run_key node_id now owner claims store fresh =
    let (won, kept) = claim-fresh run_key node_id store now owner fresh in
    let (rest, last) =
      race-owned run_key node_id claims (claim now store run_key node_id owner).1 now owner 1
        kept in
    (
      rw (won, rest, eq_refl owner),
      last ∙ ap (λ m. some (owned now owner m)) (rw (eq_refl owner) (omega arith)),
    )
