-- ===== src/Prelude/Dict.antt =====
-- Python's `dict` with text keys: pairs in the order in which the keys were first put. A put of a
-- key that is there replaces its value and keeps its place.
use Prim.Native.String.{String}
use mathlib.Core.Path.{◌≡◌, refl, ◌∙◌}
use mathlib.Core.Bool.{Bool, true}
use mathlib.Core.Logic.{inl, inr}
use mathlib.Core.Option.{Option, none, some}
use mathlib.Core.List.{List, [], ◌∷◌, ◌++◌}
use native.Mathlib.Omega.{arith}
use text.Mathlib.Text.{◌==◌}
use text.Mathlib.TextEquality.{eq_iff}
use fancy_flow_py.Prelude.Tests.{if◌then◌else◌, is_some, Bool-cases}
use fancy_flow_py.Prelude.Sets.{contains, distinct, distinct-snoc}

abbrev pub Dict {ℓ} : Type ℓ → Type ℓ
Dict V = List (String × V)

module _ {ℓ} {V : Type ℓ} where
  -- d.get(k)
  unfoldable pub get : Dict V → String → Option V
  get [] k = none
  get ((j, v) ∷ d) k = if j == k then some v else get d k

  -- d[k] = v
  unfoldable pub put : Dict V → String → V → Dict V
  put [] k v = (k, v) ∷ []
  put ((j, w) ∷ d) k v = if j == k then (j, v) ∷ d else (j, w) ∷ put d k v

  -- d.pop(k, None)
  unfoldable pub pop : Dict V → String → Dict V
  pop [] k = []
  pop ((j, w) ∷ d) k = let rest = pop d k in if j == k then rest else (j, w) ∷ rest

  -- list(d)
  unfoldable pub keys : Dict V → List String
  keys [] = []
  keys ((j, w) ∷ d) = j ∷ keys d

  -- k in d
  abbrev pub has : Dict V → String → Bool
  has d k = is_some (get d k)

  -- d.setdefault(k, v)
  abbrev pub put_new : Dict V → String → V → Dict V
  put_new d k v = if has d k then d else put d k v

  pub get-put :
      (d : Dict V) (k j : String) (v : V) → get (put d k v) j ≡ (if k == j then some v else get d j)
  unfolding get put
  get-put [] k j v = refl
  get-put ((i, w) ∷ d) k j v = ground (arith, get-put d k j v, eq_iff i k, eq_iff i j, eq_iff k j)

  pub get-pop : (d : Dict V) (k j : String) → get (pop d k) j ≡ (if k == j then none else get d j)
  unfolding get pop
  get-pop [] k j = ground arith
  get-pop ((i, w) ∷ d) k j = ground (arith, get-pop d k j, eq_iff i k, eq_iff i j, eq_iff k j)

  pub get-put_new :
      (d : Dict V) (k j : String) (v : V)
      → get (put_new d k v) j ≡ (if has d k then get d j else if k == j then some v else get d j)
  get-put_new d k j v = ground (arith, get-put d k j v)

  pub contains-keys : (d : Dict V) (k : String) → contains (keys d) k ≡ has d k
  unfolding get keys
  contains-keys [] k = refl
  contains-keys ((j, w) ∷ d) k = ground (arith, contains-keys d k)

module _ {ℓ} {V : Type ℓ} where
  pub keys-put :
      (d : Dict V) (k : String) (v : V)
      → keys (put d k v) ≡ (if has d k then keys d else keys d ++ k ∷ [])
  unfolding get put keys
  keys-put [] k v = refl
  keys-put ((j, w) ∷ d) k v = ground (arith, keys-put d k v)

  -- A put keeps the keys distinct.
  pub distinct-keys-put :
      (d : Dict V) (k : String) (v : V)
      → distinct (keys d) ≡ true
      → distinct (keys (put d k v)) ≡ true
  distinct-keys-put d k v h = elim (Bool-cases (has d k)) [
    | inl old ↦ rw (keys-put, old) h
    | inr new ↦ rw (keys-put, new) (distinct-snoc (keys d) k h (contains-keys d k ∙ new))
  ]

pub get-nil {ℓ} : {V : Type ℓ} (k : String) → get {V = V} [] k ≡ none
unfolding get
get-nil k = refl

pub ruleset dict_laws = (get-nil, get-put, get-pop, get-put_new)
