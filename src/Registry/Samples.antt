-- ===== src/Registry/Samples.antt =====
-- Small registries, and the theorems about the catalogue, the executors and the props at them.
use fancy_flow_py.Prelude.{
  ℕ, String, List, [], ◌∷◌, none, some, true, false, ◌≡◌, ◌≢◌, ◌↔◌, refl, contains, distinct, ◌==◌,
  unique, if◌then◌else◌, pos, inl, inr,
}
use fancy_flow_py.Prelude.Dict.{Dict, get as get_item, has as has_key}
use fancy_flow_py.Value.{Value, str, int, bool}
use fancy_flow_py.Topo.Samples.{plain_node}
use fancy_flow_py.Registry.KindId.{
  bare, canonical, matches, variants, is_namespaced, after_last_slash,
}
use fancy_flow_py.Registry.KindId.Spellings.{
  IsPlain, bare-matches, variants-matches, bare-canonical, canonical_idem,
}
use fancy_flow_py.Registry.NodeKind.{NodeKind}
use fancy_flow_py.Registry.Catalogue.{empty, register, unregister, resolve_kind_id, ids_for, get}
use fancy_flow_py.Registry.Catalogue.Lookup.{get-register, unregister-forgets, unregister-keeps}
use fancy_flow_py.Executors.{ExecutorRegistry, bind, bind_node, resolve_for}
use fancy_flow_py.Executors.Resolution.{bind_keeps_fallback, resolve-bind_node, resolve-bind}
use fancy_flow_py.Props.{refused, unknown_input, names, resolve_workflow_props}
use fancy_flow_py.Props.Checked.{IsResolved, resolve_workflow_props-IsResolved, unknown_input_iff}
use fancy_flow_py.Durable.Samples.{sample_kind, kinds}

note-IsPlain : IsPlain "note"
unfolding is_namespaced after_last_slash
note-IsPlain = record { no_at = refl; no_slash = refl }

bare-matches_example : bare "@fancy/note" ≡ "note"
unfolding matches
bare-matches_example = bare-matches "@fancy/note" "note" note-IsPlain refl

variants-matches_example :
    ((k : String) → contains (variants "note") k ≡ matches k "note")
    × (distinct (variants "note") ≡ true)
variants-matches_example = variants-matches "note" note-IsPlain

bare-canonical_example : bare (canonical "note") ≡ "note"
bare-canonical_example = bare-canonical "note" note-IsPlain

canonical_idem_example : canonical (canonical "note") ≡ canonical "note"
canonical_idem_example = canonical_idem "note"

abbrev newer : NodeKind
newer = sample_kind "shape" ("map" ∷ []) none

get-register_example : get (register kinds newer) "map" ≡ (
    if "map" == newer.name
    then some newer
    else if has_key kinds.kinds "map"
    then get_item kinds.kinds "map"
    else if contains newer.aliases "map"
    then some newer
    else elim (get_item kinds.aliases "map") [
      | none ↦ none
      | some c ↦ if c == newer.name then some newer else get_item kinds.kinds c
    ])
get-register_example = get-register kinds newer "map"

unregister-forgets_example :
    (resolve_kind_id (unregister kinds "map") "map" ≢ some "transform")
    × (get_item (unregister kinds "map").aliases "map" ≢ some "transform")
unfolding resolve_kind_id get_item
unregister-forgets_example = unregister-forgets kinds "map" "transform" "map" refl refl

unregister-keeps_example : resolve_kind_id (unregister kinds "map") "open_pr" ≡ some "open_pr"
unfolding resolve_kind_id get_item
unregister-keeps_example = unregister-keeps kinds "map" "open_pr" "open_pr" refl (λ e. cc)

-- A kind with the empty id outlives the removal of its alias, as in the code.
abbrev nameless : NodeKind
nameless = sample_kind "" ("x" ∷ []) none

nameless_outlives_its_alias :
    resolve_kind_id (unregister (register empty nameless) "x") "x" ≡ some ""
unfolding resolve_kind_id get_item unregister register
nameless_outlives_its_alias = refl

abbrev executors : ExecutorRegistry ℕ
executors = record { by_kind = ("*", 1) ∷ []; by_node = []; kinds = kinds }

abbrev index : String → List String
index name = []

bind_keeps_fallback_example :
    get_item (bind index executors "transform" 2).by_kind "*" ≡ get_item executors.by_kind "*"
bind_keeps_fallback_example = bind_keeps_fallback index executors "transform" 2 (λ e. cc)

resolve-bind_node_example :
    resolve_for (bind_node executors "a" 3) (plain_node "a")
    ≡ (if "a" == "a" then some 3 else resolve_for executors (plain_node "a"))
resolve-bind_node_example = resolve-bind_node index executors "a" 3 (plain_node "a")

-- The kind is bound by its name, and a node names it by its alias.
resolve-bind_example :
    resolve_for (bind index executors "transform" 2) (record (plain_node "a") { type = some "map" })
    ≡ some 2
unfolding get_item ids_for unique
resolve-bind_example =
    resolve-bind index executors "transform" "map" 2 (record (plain_node "a") { type = some "map" })
      (λ e. cc) (λ e. cc) refl refl (inr (inl (inl refl)))

abbrev declared : List (Dict Value)
declared =
    (("name", str "limit") ∷ ("type", str "number") ∷ ("default", int (pos 3)) ∷ [])
    ∷ (("name", str "loud") ∷ ("required", bool true) ∷ [])
    ∷ []

resolve_workflow_props-IsResolved_example :
    IsResolved declared
      (("loud", bool false) ∷ [])
      (("limit", int (pos 3)) ∷ ("loud", bool false) ∷ [])
unfolding resolve_workflow_props
resolve_workflow_props-IsResolved_example =
    resolve_workflow_props-IsResolved declared (("loud", bool false) ∷ [])
      (("limit", int (pos 3)) ∷ ("loud", bool false) ∷ []) refl

unknown_input_iff_example :
    ((error : String) × (resolve_workflow_props declared (("lout", bool true) ∷ [])
        ≡ refused unknown_input error))
    ↔ ((k : String) × (has_key (("lout", bool true) ∷ []) k ≡ true)
        × (contains (names declared) k ≡ false))
unknown_input_iff_example = unknown_input_iff declared (("lout", bool true) ∷ [])
