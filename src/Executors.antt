-- ===== src/Executors.antt =====
-- src/fancy_flow/executors.py: ExecutorRegistry, from node id, kind or `*` to an executor. What an
-- executor is stays abstract. `index` is `kind_id_index()` of registry/builtin.py.
pub mod Resolution
use fancy_flow_py.Prelude.{
  String, List, [], ◌∷◌, ◌++◌, Option, none, some, Bool, true, false, not, ◌&&◌, ◌==◌, or_else,
  unique, if◌then◌else◌,
}
use fancy_flow_py.Prelude.Dict.{Dict, get, put, has}
use fancy_flow_py.Graph.{FlowNode}
use fancy_flow_py.Registry.KindId.{bare, variants}
use fancy_flow_py.Registry.Catalogue.{NodeKindRegistry, ids_for}

pub record ExecutorRegistry {ℓ} (E : Type ℓ) : Type ℓ where
  pub by_kind : Dict E
  pub by_node : Dict E
  pub kinds : NodeKindRegistry

-- `item != kind and item != "*"`, over `ordered`
unfoldable pub others : String → List String → List String
others kind [] = []
others kind (i ∷ is) =
    let rest = others kind is in if not (i == kind) && not (i == "*") then i ∷ rest else rest

-- declared, or what the builtin index has for the bare name
unfoldable pub or_index : (String → List String) → List String → String → List String
unfolding bare
or_index index [] kind = index (bare kind)
or_index index (d ∷ ds) kind = d ∷ ds

unfoldable pub with_variants : List String → String → List String
unfolding others variants
with_variants [] kind = []
with_variants (d ∷ ds) kind = unique (others kind ((d ∷ ds) ++ variants kind))

unfoldable pub alias_ids_for : (String → List String) → NodeKindRegistry → String → List String
unfolding or_index with_variants ids_for
alias_ids_for index kinds kind = with_variants (or_index index (ids_for kinds kind) kind) kind

unfoldable pub kind_candidates : NodeKindRegistry → String → List String
unfolding ids_for variants
kind_candidates kinds kind = unique (kind ∷ (ids_for kinds kind ++ variants kind))

module _ {ℓ} {E : Type ℓ} where
  unfoldable pub put_each : List String → E → Dict E → Dict E
  unfolding put
  put_each [] executor d = d
  put_each (k ∷ ks) executor d = put_each ks executor (put d k executor)

  unfoldable pub bind :
      (String → List String) → ExecutorRegistry E → String → E → ExecutorRegistry E
  unfolding put_each alias_ids_for
  bind index r kind executor =
      let bound = put r.by_kind kind executor in
      if kind == "*"
      then record r { by_kind = bound }
      else record r { by_kind = put_each (alias_ids_for index r.kinds kind) executor bound }

  unfoldable pub bind_node : ExecutorRegistry E → String → E → ExecutorRegistry E
  unfolding put
  bind_node r node_id executor = record r { by_node = put r.by_node node_id executor }

  unfoldable pub bind_many :
      (String → List String) → ExecutorRegistry E → Dict E → ExecutorRegistry E
  unfolding bind
  bind_many index r [] = r
  bind_many index r ((kind, executor) ∷ d) = bind_many index (bind index r kind executor) d

  unfoldable pub without_node_bindings : ExecutorRegistry E → ExecutorRegistry E
  without_node_bindings r = record r { by_node = [] }

  -- The first candidate that is bound.
  unfoldable pub first_bound : List String → Dict E → Option E
  unfolding get
  first_bound [] d = none
  first_bound (c ∷ cs) d =
      let rest = first_bound cs d in elim (get d c) [ none ↦ rest | some e ↦ some e ]

  unfoldable pub bound_kind : ExecutorRegistry E → Option String → Option E
  unfolding first_bound kind_candidates
  bound_kind r none = none
  bound_kind r (some type) = first_bound (kind_candidates r.kinds type) r.by_kind

  -- has_kind
  unfoldable pub has_kind : ExecutorRegistry E → String → Bool
  unfolding bound_kind
  has_kind r kind = elim (bound_kind r (some kind)) [ none ↦ false | some e ↦ true ]

  unfoldable pub has_fallback : ExecutorRegistry E → Bool
  unfolding get
  has_fallback r = has r.by_kind "*"

  unfoldable pub resolve_for : ExecutorRegistry E → FlowNode → Option E
  unfolding bound_kind
  resolve_for r node = elim (get r.by_node node.id) [
    | some e ↦ some e
    | none ↦ elim (bound_kind r node.type) [ some e ↦ some e | none ↦ get r.by_kind "*" ]
  ]
