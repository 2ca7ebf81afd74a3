-- ===== src/Durable/Dispatch/Budget.antt =====
-- What `select_dispatch` hands out.
use fancy_flow_py.Prelude.{
  ℕ, zero, suc, String, List, [], ◌∷◌, ◌++◌, none, some, ◌+◌, ◌-◌, ◌≤◌, ◌≡◌, ◌≢◌, ◌⊎◌, refl, ap,
  arith, take, length, max, pos, negsuc, inl, inr,
}
use fancy_flow_py.Value.{Value, null, bool, int, float, str, list, tuple, dict, object}
use fancy_flow_py.Durable.State.{Rows}
use fancy_flow_py.Durable.Dispatch.{
  check_max_concurrent, count_held, dispatch_up_to, select_dispatch,
}

length-take : {A : Type 0} (n : ℕ) (xs : List A) → length (take n xs) ≤ n
length-take zero xs = omega arith
length-take (suc n) [] = omega arith
length-take (suc n) (x ∷ xs) = omega (arith, length-take n xs)

-- A first part of a list has all of it, or as many items as were asked for.
take-split :
    {A : Type 0} (n : ℕ) (xs : List A)
    → (rest : List A) × (take n xs ++ rest ≡ xs) × ((rest ≡ []) ⊎ (n ≤ length (take n xs)))
take-split zero xs = (xs, refl, inr (omega arith))
take-split (suc n) [] = ([], refl, inl refl)
take-split (suc n) (x ∷ xs) =
    let (rest, e, full) = take-split n xs in
    (rest, ap (λ ys. x ∷ ys) e, elim full [ inl all ↦ inl all | inr h ↦ inr (omega (arith, h)) ])

-- Under a positive limit, what is handed out is a first part of the ready nodes in their order; with
-- the nodes held it stays within the limit, unless more than that were held before, and then
-- nothing is handed out; and no slot is left empty while a ready node is kept back.
pub dispatch_fills_the_budget :
    (ready : List String) (state : Rows) (n : ℕ)
    → (out : List String) × (kept : List String) × (select_dispatch ready state (int (pos (suc n)))
        ≡ some out)
      × (out ++ kept ≡ ready)
      × (count_held state + length out ≤ max (suc n) (count_held state))
      × ((kept ≡ []) ⊎ (suc n ≤ count_held state + length out))
unfolding select_dispatch check_max_concurrent dispatch_up_to
dispatch_fills_the_budget ready state n =
    let room = suc n - count_held state in
    let (kept, split, full) = take-split room ready in
    (
      take room ready,
      kept,
      refl,
      split,
      omega (arith, length-take room ready),
      elim full [ inl all ↦ inl all | inr h ↦ inr (omega (arith, h)) ],
    )

-- A limit is accepted exactly if it is a whole number that is not negative, and then the dispatch is
-- that of the number; zero hands out every ready node. A truth value is refused, like anything else.
pub limit_is_checked :
    (ready : List String) (state : Rows) (v : Value)
    → (dispatch_up_to ready state 0 ≡ ready)
      × (((n : ℕ) × (v ≡ int (pos n))
            × (select_dispatch ready state v ≡ some (dispatch_up_to ready state n)))
          ⊎ (((n : ℕ) → v ≢ int (pos n)) × (select_dispatch ready state v ≡ none)))
unfolding select_dispatch check_max_concurrent dispatch_up_to
limit_is_checked ready state (int (pos n)) = (refl, inl (n, refl, refl))
limit_is_checked ready state (int (negsuc n)) = (refl, inr (λ m e. cc, refl))
limit_is_checked ready state null = (refl, inr (λ m e. cc, refl))
limit_is_checked ready state (bool b) = (refl, inr (λ m e. cc, refl))
limit_is_checked ready state (float x) = (refl, inr (λ m e. cc, refl))
limit_is_checked ready state (str s) = (refl, inr (λ m e. cc, refl))
limit_is_checked ready state (list vs) = (refl, inr (λ m e. cc, refl))
limit_is_checked ready state (tuple vs) = (refl, inr (λ m e. cc, refl))
limit_is_checked ready state (dict fs) = (refl, inr (λ m e. cc, refl))
limit_is_checked ready state (object type i) = (refl, inr (λ m e. cc, refl))
