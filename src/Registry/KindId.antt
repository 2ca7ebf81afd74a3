-- ===== src/Registry/KindId.antt =====
-- src/fancy_flow/registry/kind_id.py: the spellings of a kind id.
pub mod Spellings
use Prim.Native.Char.{code}
use Prim.Native.String.{◌++◌}
use fancy_flow_py.Prelude.{
  String, List, [], ◌∷◌, Option, none, some, Bool, true, false, eqb, contains, unique, or_else,
  if◌then◌else◌,
}

abbrev pub namespace : String
namespace = "@particle-academy/"

abbrev pub legacy_namespace : String
legacy_namespace = "@fancy/"

-- kind_id.startswith("@")
unfoldable pub is_namespaced : String → Bool
is_namespaced String.[] = false
is_namespaced (String.◌∷◌ c s) = eqb (code c) b'@'

unfoldable pub canonical : String → String
unfolding is_namespaced
canonical name = if is_namespaced name then name else namespace ++ name

-- kind_id[kind_id.rfind("/") + 1 :], if there is a slash
unfoldable pub after_last_slash : String → Option String
after_last_slash String.[] = none
after_last_slash (String.◌∷◌ c s) = elim (after_last_slash s) [
  | some t ↦ some t
  | none ↦ if eqb (code c) b'/' then some s else none
]

unfoldable pub bare : String → String
unfolding is_namespaced after_last_slash
bare kind_id = if is_namespaced kind_id then or_else (after_last_slash kind_id) kind_id else kind_id

unfoldable pub builtin_aliases : String → List String
unfolding bare
builtin_aliases name = let b = bare name in b ∷ (legacy_namespace ++ b) ∷ []

unfoldable pub matches : String → String → Bool
matches kind_id bare_name =
    contains (bare_name ∷ (namespace ++ bare_name) ∷ (legacy_namespace ++ bare_name) ∷ []) kind_id

unfoldable pub variants : String → List String
unfolding bare
variants kind_id =
    let b = bare kind_id in unique (kind_id ∷ (namespace ++ b) ∷ (legacy_namespace ++ b) ∷ b ∷ [])
