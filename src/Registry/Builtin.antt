-- ===== src/Registry/Builtin.antt =====
-- src/fancy_flow/registry/builtin.py: the literals of the builtin kinds and the index of their ids.
pub mod Lanes
pub mod Terminals
pub mod Triggers
pub mod Branches
pub mod Steps
pub mod Mappings
pub mod Stores
pub mod Calls
pub mod Routers
pub mod Searches
pub mod Deliveries
pub mod Outputs
use Prim.Native.String.{◌++◌ as append}
use fancy_flow_py.Prelude.{String, List, [], ◌∷◌, ◌++◌, Option, none, some, unique, map}
use fancy_flow_py.Prelude.Dict.{Dict, get, put}
use fancy_flow_py.Value.{Value, str, list, to_list, of_list, of_entries, items, as_str}
use fancy_flow_py.Registry.KindId.{bare, builtin_aliases, namespace}
use fancy_flow_py.Registry.Validation.{read}
use Lanes.{lane_literal, terminal_lane_literal, terminal_run_literal}
use Terminals.{terminal_send_literal, terminal_await_literal}
use Triggers.{
  manual_trigger_literal, webhook_trigger_literal, schedule_trigger_literal, user_input_literal,
}
use Branches.{branch_literal, switch_case_literal, for_each_literal}
use Steps.{subflow_literal, merge_literal, wait_literal}
use Mappings.{transform_literal, variable_literal}
use Stores.{memory_store_literal, data_store_literal}
use Calls.{llm_call_literal}
use Routers.{llm_router_literal, tool_use_literal}
use Searches.{embed_search_literal, api_request_literal}
use Deliveries.{webhook_out_literal, human_approval_literal, notify_literal}
use Outputs.{output_literal, log_literal, note_literal, subgraph_literal, agent_literal}

unfoldable pub kind_literals : List (Dict Value)
unfolding of_list of_entries
kind_literals =
    lane_literal ∷ terminal_lane_literal ∷ terminal_run_literal ∷ terminal_send_literal
    ∷ terminal_await_literal ∷ manual_trigger_literal ∷ webhook_trigger_literal
    ∷ schedule_trigger_literal ∷ user_input_literal ∷ branch_literal ∷ switch_case_literal
    ∷ for_each_literal ∷ subflow_literal ∷ merge_literal ∷ wait_literal ∷ transform_literal
    ∷ memory_store_literal ∷ data_store_literal ∷ variable_literal ∷ llm_call_literal
    ∷ llm_router_literal ∷ tool_use_literal ∷ embed_search_literal ∷ api_request_literal
    ∷ webhook_out_literal ∷ human_approval_literal ∷ notify_literal ∷ output_literal ∷ log_literal
    ∷ []

unfoldable pub structural_literals : List (Dict Value)
unfolding of_list of_entries
structural_literals = note_literal ∷ subgraph_literal ∷ []

-- str(raw["name"]), for a name that is a text
abbrev pub name_of : Dict Value → String
name_of raw = elim (as_str (read raw "name")) [ none ↦ "" | some s ↦ s ]

unfoldable pub texts_of : List Value → List String
texts_of [] = []
texts_of (v ∷ vs) = let rest = texts_of vs in elim (as_str v) [ none ↦ rest | some s ↦ s ∷ rest ]

-- raw.get("aliases") or (), for a list of texts
unfoldable pub aliases_of : Dict Value → List String
unfolding texts_of to_list get
aliases_of raw = elim (read raw "aliases") [ list vs ↦ texts_of (to_list vs) | _ ↦ [] ]

unfoldable pub canonicalize : Dict Value → Dict Value
unfolding bare builtin_aliases aliases_of unique put of_list
canonicalize raw =
    let b = bare (name_of raw) in
    put (put raw "name" (str (append namespace b))) "aliases"
      (items (map str (unique (builtin_aliases b ++ aliases_of raw))))

unfoldable pub builtin_kinds : List (Dict Value)
unfolding canonicalize kind_literals
builtin_kinds = map canonicalize kind_literals

unfoldable pub structural_kinds : List (Dict Value)
unfolding canonicalize structural_literals
structural_kinds = map canonicalize structural_literals

unfoldable pub agent_kind : Dict Value
unfolding canonicalize of_list of_entries
agent_kind = canonicalize agent_literal

-- for raw in raws: index[kid.bare(name)] = list(seen)
unfoldable pub index_all : List (Dict Value) → Dict (List String) → Dict (List String)
unfolding bare aliases_of unique put get
index_all [] index = index
index_all (raw ∷ raws) index =
    index_all raws (put index (bare (name_of raw)) (unique (name_of raw ∷ aliases_of raw)))

unfoldable pub kind_id_index : Dict (List String)
unfolding index_all builtin_kinds structural_kinds agent_kind
kind_id_index = index_all (builtin_kinds ++ (structural_kinds ++ agent_kind ∷ [])) []
