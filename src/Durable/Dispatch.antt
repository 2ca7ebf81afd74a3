-- ===== src/Durable/Dispatch.antt =====
-- src/fancy_flow/durable/dispatch.py: the cap on the nodes of one run that are held at once.
pub mod Budget
use fancy_flow_py.Prelude.{
  ℕ, zero, suc, String, List, [], ◌∷◌, Option, none, some, Bool, true, false, ◌+◌, ◌-◌, take,
  if◌then◌else◌, ℤ, pos, negsuc,
}
use fancy_flow_py.Value.{Value, bool, int}
use fancy_flow_py.Durable.State.{NodeState, Rows, is_held}

-- The errors, by their type.
pub data Refusal : Type 0 where
  type_error : Refusal
  value_error : Refusal

pub data Limit : Type 0 where
  limit : ℕ → Limit
  refused : Refusal → Limit

unfoldable pub check_max_concurrent : Value → Limit
check_max_concurrent (int (pos n)) = limit n
check_max_concurrent (int (negsuc n)) = refused value_error
check_max_concurrent _ = refused type_error

unfoldable pub count_held : Rows → ℕ
count_held [] = 0
count_held ((node_id, row) ∷ state) =
    let rest = count_held state in if is_held row.status then rest + 1 else rest

-- On a limit that was checked; 0 is UNLIMITED_CONCURRENCY.
unfoldable pub dispatch_up_to : List String → Rows → ℕ → List String
unfolding count_held
dispatch_up_to ready state zero = ready
dispatch_up_to ready state (suc n) = take (suc n - count_held state) ready

unfoldable pub select_dispatch : List String → Rows → Value → Option (List String)
unfolding check_max_concurrent dispatch_up_to
select_dispatch ready state max_concurrent = elim (check_max_concurrent max_concurrent) [
  | limit n ↦ some (dispatch_up_to ready state n)
  | refused r ↦ none
]
