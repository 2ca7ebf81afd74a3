-- ===== src/Registry/Catalogue/Lookup.antt =====
-- What the registry answers after `register` and `unregister`.
use fancy_flow_py.Prelude.{
  String, List, [], ◌∷◌, none, some, true, false, ◌≡◌, ◌≢◌, refl, arith, ◌==◌, ◌||◌, not, eq_iff,
  contains, if◌then◌else◌, Option-cases, Bool-cases, inl, inr, subst, ap, sym, ◌∙◌,
}
use fancy_flow_py.Prelude.Dict.{Dict, get as get_item, put, pop, has as has_key, get-put, get-pop}
use fancy_flow_py.Registry.NodeKind.{NodeKind}
use fancy_flow_py.Registry.Catalogue.{
  NodeKindRegistry, put_aliases, register, resolve_kind_id, or_name, drop_aliases, unregister, get,
}

get-put_aliases :
    (as_ : List String) (name : String) (d : Dict String) (k : String)
    → get_item (put_aliases as_ name d) k ≡ (if contains as_ k then some name else get_item d k)
unfolding put_aliases
get-put_aliases [] name d k = refl
get-put_aliases (a ∷ rest) name d k =
    ground (arith, get-put_aliases rest name (put d a name) k, get-put d a k name)

-- The table read straight: a canonical id wins, then an alias of a kind that is there.
pub get-eq :
    (r : NodeKindRegistry) (k : String)
    → get r k ≡ (
        if has_key r.kinds k
        then get_item r.kinds k
        else elim (get_item r.aliases k) [ none ↦ none | some c ↦ get_item r.kinds c ])
unfolding get resolve_kind_id
get-eq r k = ground arith

-- What every id leads to once a kind is registered: the kind itself by its name; the kind of that
-- name, for the name of another kind; the new kind by its aliases; and otherwise what the aliases
-- of before lead to, of which those of a kind that was replaced now lead to the new one.
pub get-register :
    (r : NodeKindRegistry) (kind : NodeKind) (k : String)
    → get (register r kind) k ≡ (
        if k == kind.name
        then some kind
        else if has_key r.kinds k
        then get_item r.kinds k
        else if contains kind.aliases k
        then some kind
        else elim (get_item r.aliases k) [
          | none ↦ none
          | some c ↦ if c == kind.name then some kind else get_item r.kinds c
        ])
unfolding register
get-register r kind k =
    let lookup = get-eq (register r kind) k in
    let names = get-put r.kinds kind.name k kind in
    let alias = get-put_aliases kind.aliases kind.name r.aliases k in
    let self = get-put r.kinds kind.name kind.name kind in
    elim (Option-cases (get_item r.aliases k)) [
      | inl e ↦ ground (
        arith,
        lookup,
        names,
        alias,
        self,
        eq_iff k kind.name,
        eq_iff kind.name k,
        eq_iff kind.name kind.name,
      )
      | inr (c, e) ↦ ground (
        arith,
        lookup,
        names,
        alias,
        self,
        get-put r.kinds kind.name c kind,
        eq_iff k kind.name,
        eq_iff kind.name k,
        eq_iff kind.name c,
        eq_iff c kind.name,
        eq_iff kind.name kind.name,
      )
    ]

get-drop_aliases :
    (canonical : String) (d : Dict String) (k c : String)
    → get_item (drop_aliases canonical d) k ≡ some c
    → (c == canonical) ≡ false
unfolding drop_aliases get_item
get-drop_aliases canonical [] k c h = ground arith
get-drop_aliases canonical ((a, target) ∷ d) k c h =
    ground (arith, get-drop_aliases canonical d k c, eq_iff a k)

-- Aliases of other kinds stay.
get-drop_aliases_kept :
    (canonical : String) (d : Dict String) (k c : String)
    → get_item d k ≡ some c
    → (c == canonical) ≡ false
    → get_item (drop_aliases canonical d) k ≡ some c
unfolding drop_aliases get_item
get-drop_aliases_kept canonical [] k c h n = ground arith
get-drop_aliases_kept canonical ((a, target) ∷ d) k c h n =
    ground (arith, get-drop_aliases_kept canonical d k c, eq_iff a k)

resolve-or_name :
    (r : NodeKindRegistry) (name c : String)
    → resolve_kind_id r name ≡ some c
    → (c == name || not (c == "")) ≡ true
    → or_name (resolve_kind_id r name) name ≡ c
unfolding or_name
resolve-or_name r name c led own = rw led (ground (arith, eq_iff c name))

-- A kind that `name` does not lead to is not the one that `name` gives up.
or_name-other :
    (r : NodeKindRegistry) (name c : String)
    → resolve_kind_id r c ≡ some c
    → resolve_kind_id r name ≢ some c
    → (c == or_name (resolve_kind_id r name) name) ≡ false
unfolding or_name
or_name-other r name c own other = elim (Bool-cases (c == name)) [
  | inl same ↦
      absurd (other (subst (λ k. resolve_kind_id r k ≡ some c) ((eq_iff c name).0 same) own))
  | inr apart ↦ elim (Option-cases (resolve_kind_id r name)) [
    | inl e ↦ rw e apart
    | inr (d, e) ↦ elim (Bool-cases (c == d)) [
      | inl same ↦ absurd (other (e ∙ ap some (sym ((eq_iff c d).0 same))))
      | inr differs ↦ rw e (ground (arith, apart, differs))
    ]
  ]
]

-- Whatever id is given up, an id that led to another kind leads to it still.
resolve-give_up :
    (r : NodeKindRegistry) (old k c : String)
    → resolve_kind_id r k ≡ some c
    → (c == old) ≡ false
    → resolve_kind_id (record { kinds = pop r.kinds old; aliases = drop_aliases old r.aliases }) k
      ≡ some c
unfolding resolve_kind_id
resolve-give_up r old k c h n =
    let gone = get-pop r.kinds old in
    let kept = get-drop_aliases_kept old r.aliases k c in
    elim (Option-cases (get_item (drop_aliases old r.aliases) k)) [
      | inl e ↦ ground (arith, gone k, gone c, eq_iff old k, eq_iff old c, eq_iff c old, kept)
      | inr (d, e) ↦
          ground (arith, gone k, gone c, gone d, eq_iff old k, eq_iff old c, eq_iff c old, kept)
    ]

-- An id leads to itself, when any id leads to it.
resolve_own :
    (r : NodeKindRegistry) (k c : String)
    → resolve_kind_id r k ≡ some c
    → resolve_kind_id r c ≡ some c
unfolding resolve_kind_id
resolve_own r k c h = ground arith

module _ (r : NodeKindRegistry) (name : String) where
  -- When `name` leads to the kind `c`, then after `unregister` of `name` no id leads to `c`, and no
  -- alias points at it; here `name` is the kind's own id, or that id is not empty.
  pub unregister-forgets :
      (c k : String)
      → resolve_kind_id r name ≡ some c
      → (c == name || not (c == "")) ≡ true
      → (resolve_kind_id (unregister r name) k ≢ some c)
        × (get_item (unregister r name).aliases k ≢ some c)
  unfolding resolve_kind_id unregister
  unregister-forgets c k led own =
      let old = or_name (resolve_kind_id r name) name in
      let same : old ≡ c = resolve-or_name r name c led own in
      let gone = get-pop r.kinds old in
      elim (Option-cases (get_item (drop_aliases old r.aliases) k)) [
        | inl e ↦ (ground (arith, same, gone k, eq_iff old k, eq_iff k old), λ there. cc (e, there))
        | inr (d, e) ↦
            let other = get-drop_aliases old r.aliases k d e in
            (
              ground (arith, same, gone k, gone d, eq_iff old k, eq_iff old d),
              λ there. ground (arith, same, other, e, there, eq_iff d old),
            )
      ]

  -- After `unregister` of `name`, every id that led to a kind that `name` did not lead to still
  -- leads to that kind.
  pub unregister-keeps :
      (k c : String)
      → resolve_kind_id r k ≡ some c
      → resolve_kind_id r name ≢ some c
      → resolve_kind_id (unregister r name) k ≡ some c
  unfolding unregister
  unregister-keeps k c h other =
      let own = resolve_own r k c h in
      let old = or_name (resolve_kind_id r name) name in
      resolve-give_up r old k c h (or_name-other r name c own other)
