-- ===== src/Registry/Catalogue.antt =====
-- src/fancy_flow/registry/registry.py: NodeKindRegistry and `never_executes`.
pub mod Lookup
use fancy_flow_py.Prelude.{
  String, List, [], ◌∷◌, Option, none, some, Bool, true, false, ◌==◌, ◌||◌, is_some, if◌then◌else◌,
}
use fancy_flow_py.Prelude.Dict.{Dict, get as get_item, put, pop, has as has_key}
use fancy_flow_py.Value.{Value}
use fancy_flow_py.Registry.KindId.{matches}
use fancy_flow_py.Registry.NodeKind.{NodeKind, ids, ConfigField, spec}

-- `kinds` from canonical id to kind, `aliases` from alias to canonical id.
pub record NodeKindRegistry : Type 0 where
  pub kinds : Dict NodeKind
  pub aliases : Dict String

abbrev pub empty : NodeKindRegistry
empty = record { kinds = []; aliases = [] }

-- for alias in kind.aliases: self._aliases[alias] = kind.name
unfoldable pub put_aliases : List String → String → Dict String → Dict String
unfolding put
put_aliases [] name d = d
put_aliases (a ∷ rest) name d = put_aliases rest name (put d a name)

unfoldable pub register : NodeKindRegistry → NodeKind → NodeKindRegistry
unfolding put_aliases
register r kind = record {
  kinds = put r.kinds kind.name kind;
  aliases = put_aliases kind.aliases kind.name r.aliases;
}

unfoldable pub resolve_kind_id : NodeKindRegistry → String → Option String
unfolding get_item
resolve_kind_id r kind_id =
    if has_key r.kinds kind_id then some kind_id else elim (get_item r.aliases kind_id) [
      | none ↦ none
      | some canonical ↦ if has_key r.kinds canonical then some canonical else none
    ]

-- del self._aliases[alias] for each alias that points at `canonical`
unfoldable pub drop_aliases : String → Dict String → Dict String
drop_aliases canonical [] = []
drop_aliases canonical ((a, target) ∷ d) =
    let rest = drop_aliases canonical d in if target == canonical then rest else (a, target) ∷ rest

-- `resolved or name`, where an empty id counts as none.
unfoldable pub or_name : Option String → String → String
or_name none name = name
or_name (some canonical) name = if canonical == "" then name else canonical

unfoldable pub unregister : NodeKindRegistry → String → NodeKindRegistry
unfolding resolve_kind_id or_name drop_aliases pop
unregister r name =
    let canonical = or_name (resolve_kind_id r name) name in
    record { kinds = pop r.kinds canonical; aliases = drop_aliases canonical r.aliases }

unfoldable pub get : NodeKindRegistry → String → Option NodeKind
unfolding resolve_kind_id
get r name = elim (resolve_kind_id r name) [
  | none ↦ none
  | some canonical ↦ get_item r.kinds canonical
]

unfoldable pub has : NodeKindRegistry → String → Bool
unfolding resolve_kind_id
has r name = is_some (resolve_kind_id r name)

unfoldable pub ids_for : NodeKindRegistry → String → List String
unfolding get ids
ids_for r name = elim (get r name) [ none ↦ [] | some kind ↦ ids kind ]

unfoldable pub in_category : Option String → List NodeKind → List NodeKind
in_category none ks = ks
in_category (some c) [] = []
in_category (some c) (k ∷ ks) =
    let rest = in_category (some c) ks in if k.category == c then k ∷ rest else rest

unfoldable pub values : Dict NodeKind → List NodeKind
values [] = []
values ((k, v) ∷ d) = v ∷ values d

-- NodeKindRegistry.all
unfoldable pub all : NodeKindRegistry → Option String → List NodeKind
unfolding in_category values
all r category = in_category category (values r.kinds)

-- A default is copied where it is read: values here are not shared.
unfoldable pub fill_defaults : List ConfigField → Dict Value → Dict Value
unfolding put get_item
fill_defaults [] config = config
fill_defaults (f ∷ fs) config = fill_defaults fs (
    if has_key config (spec f).key
    then config
    else elim (spec f).default [ none ↦ config | some v ↦ put config (spec f).key v ])

unfoldable pub default_config_for : NodeKind → Dict Value
unfolding fill_defaults
default_config_for kind = fill_defaults kind.config_schema kind.default_config

-- The part of `never_executes` that asks the registry.
unfoldable pub status_of_category : Option NodeKind → Option String
status_of_category none = none
status_of_category (some kind) =
    if kind.category == "annotation"
    then some "annotation"
    else if kind.category == "layout"
    then some "lane"
    else none

-- The status text for a kind that the engine walks past.
unfoldable pub never_executes : Option String → NodeKindRegistry → Option String
unfolding status_of_category matches get
never_executes none r = none
never_executes (some kind_id) r =
    if kind_id == ""
    then none
    else if matches kind_id "note"
    then some "annotation"
    else if matches kind_id "lane" || matches kind_id "terminal_lane"
    then some "lane"
    else status_of_category (get r kind_id)
