-- ===== src/Text.antt =====
-- Python's `str` methods that the package calls, over the characters of a text.
use Prim.Native.Char.{code}
use Prim.Native.String.{◌++◌}
use fancy_flow_py.Prelude.{
  ℕ, suc, String, List, [], ◌∷◌, Option, none, some, Bool, ◌&&◌, ◌||◌, ◌==◌, eqb, leb,
  if◌then◌else◌,
}

-- str.isspace of one code point.
unfoldable pub is_space : ℕ → Bool
is_space c =
    leb 9 c && leb c 13
    || leb 28 c && leb c 32
    || eqb c 133
    || eqb c 160
    || eqb c 5760
    || leb 8192 c && leb c 8202
    || eqb c 8232
    || eqb c 8233
    || eqb c 8239
    || eqb c 8287
    || eqb c 12288

unfoldable pub lstrip : String → String
unfolding is_space
lstrip String.[] = String.[]
lstrip (String.◌∷◌ c s) = let rest = lstrip s in if is_space (code c) then rest else String.◌∷◌ c s

unfoldable pub rstrip : String → String
unfolding is_space
rstrip String.[] = String.[]
rstrip (String.◌∷◌ c s) =
    let rest = rstrip s in if rest == "" && is_space (code c) then String.[] else String.◌∷◌ c rest

-- s.strip()
unfoldable pub strip : String → String
unfolding lstrip rstrip
strip s = lstrip (rstrip s)

-- sep.join(xs)
unfoldable pub join : String → List String → String
join sep [] = ""
join sep (x ∷ []) = x
join sep (x ∷ y ∷ xs) = x ++ (sep ++ join sep (y ∷ xs))

-- s[len(prefix):] if s.startswith(prefix)
unfoldable pub strip_prefix : String → String → Option String
strip_prefix String.[] s = some s
strip_prefix (String.◌∷◌ p ps) String.[] = none
strip_prefix (String.◌∷◌ p ps) (String.◌∷◌ c s) =
    let rest = strip_prefix ps s in if eqb (code p) (code c) then rest else none

-- len(s)
unfoldable pub size : String → ℕ
size String.[] = 0
size (String.◌∷◌ c s) = suc (size s)
