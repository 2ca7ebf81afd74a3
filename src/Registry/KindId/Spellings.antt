-- ===== src/Registry/KindId/Spellings.antt =====
-- The spellings of one kind have one bare name.
use Prim.Native.String.{◌++◌}
use text.Mathlib.TextLemmas.{nil-append, cons-append}
use mathlib.Core.Option
use fancy_flow_py.Prelude.{
  String, [], ◌∷◌, none, some, true, false, ◌≡◌, refl, ◌∙◌, ap, arith, contains, contains-unique,
  distinct, distinct-unique, Bool-cases, inl, inr, eq_iff,
}
use fancy_flow_py.Registry.KindId.{
  namespace, legacy_namespace, is_namespaced, canonical, after_last_slash, bare, matches, variants,
}

-- A name with no namespace and no slash: what a built-in kind is called.
pub record IsPlain (name : String) : Type 0 where
  pub no_at : is_namespaced name ≡ false
  pub no_slash : after_last_slash name ≡ none

after_last_slash-append :
    (p t : String)
    → after_last_slash t ≡ none
    → after_last_slash (p ++ t) ≡ Option.map (λ r. r ++ t) (after_last_slash p)
unfolding after_last_slash
after_last_slash-append String.[] t h = rw nil-append h
after_last_slash-append (String.◌∷◌ c s) t h =
    rw cons-append (ground (arith, after_last_slash-append s t h))

is_namespaced-append :
    (c : String) (t : String) → is_namespaced c ≡ true → is_namespaced (c ++ t) ≡ true
unfolding is_namespaced
is_namespaced-append String.[] t h = ground arith
is_namespaced-append (String.◌∷◌ c s) t h = rw cons-append h

bare-append :
    (p t : String)
    → is_namespaced p ≡ true
    → after_last_slash p ≡ some ""
    → IsPlain t
    → bare (p ++ t) ≡ t
unfolding bare
bare-append p t at slash plain =
    let n = is_namespaced-append p t at in
    let a : after_last_slash (p ++ t) ≡ some t =
      after_last_slash-append p t plain.no_slash
      ∙ (ap (Option.map (λ r. r ++ t)) slash ∙ ap some (nil-append t)) in
    ground arith

bare-plain : (t : String) → IsPlain t → bare t ≡ t
unfolding bare
bare-plain t h = ground arith

bare-namespace : (t : String) → IsPlain t → bare (namespace ++ t) ≡ t
bare-namespace t =
    bare-append namespace t (unfold is_namespaced in refl) (unfold after_last_slash in refl)

bare-legacy : (t : String) → IsPlain t → bare (legacy_namespace ++ t) ≡ t
bare-legacy t =
    bare-append legacy_namespace t (unfold is_namespaced in refl) (unfold after_last_slash in refl)

-- An id that matches a built-in name, under any of the three spellings, has that bare name.
pub bare-matches :
    (kind_id name : String) → IsPlain name → matches kind_id name ≡ true → bare kind_id ≡ name
unfolding matches
bare-matches kind_id name plain m = ground (
  arith,
  bare-plain name plain,
  bare-namespace name plain,
  bare-legacy name plain,
  eq_iff name kind_id,
  eq_iff (namespace ++ name) kind_id,
  eq_iff (legacy_namespace ++ name) kind_id,
)

contains-variants :
    (k j : String)
    → contains (variants k) j
      ≡ contains (k ∷ (namespace ++ bare k) ∷ (legacy_namespace ++ bare k) ∷ bare k ∷ []) j
unfolding variants
contains-variants k j = contains-unique _ j

variants_of_plain : (name k : String) → IsPlain name → contains (variants name) k ≡ matches k name
unfolding matches
variants_of_plain name k plain = ground (
  arith,
  contains-variants name k,
  bare-plain name plain,
  eq_iff name k,
  eq_iff (namespace ++ name) k,
  eq_iff (legacy_namespace ++ name) k,
)

-- For a plain name, `variants` lists each id that `matches` accepts, once.
pub variants-matches :
    (name : String)
    → IsPlain name
    → ((k : String) → contains (variants name) k ≡ matches k name)
      × (distinct (variants name) ≡ true)
variants-matches name plain =
    (λ k. variants_of_plain name k plain, unfold variants in distinct-unique _)

-- The canonical form of a plain name has that bare name.
pub bare-canonical : (name : String) → IsPlain name → bare (canonical name) ≡ name
unfolding canonical
bare-canonical name plain = rw plain.no_at (bare-namespace name plain)

-- Naming a kind canonically twice is naming it once.
pub canonical_idem : (name : String) → canonical (canonical name) ≡ canonical name
unfolding canonical
canonical_idem name = elim (Bool-cases (is_namespaced name)) [
  | inl n ↦ ground arith
  | inr n ↦
      let there = is_namespaced-append namespace name (unfold is_namespaced in refl) in ground arith
]
