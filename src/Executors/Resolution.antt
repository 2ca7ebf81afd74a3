-- ===== src/Executors/Resolution.antt =====
-- Which executor a node gets.
use fancy_flow_py.Prelude.{
  String, List, [], ◌∷◌, ◌++◌, none, some, true, false, not, ◌&&◌, ◌||◌, ◌==◌, ◌≡◌, ◌≢◌, refl,
  arith, eq_iff, contains, contains-append, contains-unique, ◌⊎◌, unique, add_all, if◌then◌else◌,
  Bool-cases, inl, inr, ◌∙◌, sym,
}
use fancy_flow_py.Prelude.Dict.{Dict, get, put, get-put}
use fancy_flow_py.Graph.{FlowNode}
use fancy_flow_py.Registry.KindId.{bare, variants}
use fancy_flow_py.Registry.Catalogue.{NodeKindRegistry, ids_for}
use fancy_flow_py.Executors.{
  ExecutorRegistry, others, or_index, with_variants, alias_ids_for, kind_candidates, put_each, bind,
  bind_node, first_bound, bound_kind, resolve_for,
}

get-put_each {ℓ} :
    {E : Type ℓ} (ks : List String) (e : E) (d : Dict E) (k : String)
    → get (put_each ks e d) k ≡ (if contains ks k then some e else get d k)
unfolding put_each
get-put_each [] e d k = refl
get-put_each (j ∷ ks) e d k = ground (arith, get-put_each ks e (put d j e) k, get-put d j k e)

contains-others :
    (kind : String) (is : List String) (k : String)
    → contains (others kind is) k ≡ (contains is k && not (k == kind) && not (k == "*"))
unfolding others
contains-others kind [] k = refl
contains-others kind (i ∷ is) k = ground (arith, contains-others kind is k, eq_iff i k)

-- No alias list holds the `*` sentinel.
star-alias_ids_for :
    (index : String → List String) (kinds : NodeKindRegistry) (kind : String)
    → contains (alias_ids_for index kinds kind) "*" ≡ false
unfolding alias_ids_for
star-alias_ids_for index kinds kind = star (or_index index (ids_for kinds kind) kind)
  where
    star : (ds : List String) → contains (with_variants ds kind) "*" ≡ false
    star [] = unfold with_variants in refl
    star (d ∷ ds) =
        unfold with_variants in
        contains-unique (others kind ((d ∷ ds) ++ variants kind)) "*"
        ∙ ground (arith, contains-others kind ((d ∷ ds) ++ variants kind) "*", eq_iff "*" "*")

module _ {ℓ} {E : Type ℓ} (index : String → List String) (r : ExecutorRegistry E) where
  -- Binding a kind writes the fallback only when the kind is `*` itself.
  pub bind_keeps_fallback :
      (kind : String) (e : E)
      → kind ≢ "*"
      → get (bind index r kind e).by_kind "*" ≡ get r.by_kind "*"
  unfolding bind
  bind_keeps_fallback kind e n = ground (
    arith,
    get-put_each (alias_ids_for index r.kinds kind) e (put r.by_kind kind e) "*",
    star-alias_ids_for index r.kinds kind,
    get-put r.by_kind kind "*" e,
    eq_iff kind "*",
  )

  -- A node binding outranks every other binding, and serves its own node only.
  pub resolve-bind_node :
      (node_id : String) (e : E) (node : FlowNode)
      → resolve_for (bind_node r node_id e) node
        ≡ (if node_id == node.id then some e else resolve_for r node)
  unfolding resolve_for bind_node
  resolve-bind_node node_id e node = ground (arith, get-put r.by_node node_id node.id e)

  first_bound-head :
      (k : String) (seen xs : List String) (d : Dict E) (e : E)
      → get d k ≡ some e
      → first_bound (add_all (k ∷ seen) xs) d ≡ some e
  unfolding first_bound add_all
  first_bound-head k seen [] d e h = ground arith
  first_bound-head k seen (x ∷ xs) d e h = elim (Bool-cases (contains (k ∷ seen) x)) [
    | inl old ↦ rw (old, add_all) (first_bound-head k seen xs d e h)
    | inr new ↦ rw (new, add_all) (first_bound-head k (seen ++ x ∷ []) xs d e h)
  ]

  -- The ids that go with a kind: those that the registry declares for it, or, for a kind that the
  -- registry does not know, those that the builtin index has for its bare name.
  abbrev pub Declares : String → String → Type 0
  Declares kind type =
      (contains (ids_for r.kinds kind) type ≡ true)
      ⊎ ((ids_for r.kinds kind ≡ []) × (contains (index (bare kind)) type ≡ true))

  -- A kind that the registry or the builtin index knows.
  abbrev pub IsKnown : String → Type 0
  IsKnown kind = (id : String) × Declares kind id

  -- The kind itself, an id declared for it, or a spelling of it where it is known.
  abbrev pub IsIdOf : String → String → Type 0
  IsIdOf kind type =
      (kind ≡ type) ⊎ Declares kind type ⊎ (IsKnown kind × (contains (variants kind) type ≡ true))

  -- What `_alias_ids_for` must at least hold.
  contains-with_variants :
      (ds : List String) (kind id type : String)
      → contains ds id ≡ true
      → (contains ds type || contains (variants kind) type) ≡ true
      → type ≢ kind
      → type ≢ "*"
      → contains (with_variants ds kind) type ≡ true
  contains-with_variants [] kind id type h m n s = absurd (cc)
  contains-with_variants (d ∷ ds) kind id type h m n s =
      unfold with_variants in
      contains-unique (others kind ((d ∷ ds) ++ variants kind)) type
      ∙ ground (
        arith,
        contains-others kind ((d ∷ ds) ++ variants kind) type,
        contains-append (d ∷ ds) (variants kind) type,
        eq_iff type kind,
        eq_iff type "*",
      )

  or_index-known :
      (ds : List String) (kind id : String)
      → contains ds id ≡ true
      → contains (or_index index ds kind) id ≡ true
  unfolding or_index
  or_index-known [] kind id known = absurd (cc)
  or_index-known (d ∷ ds) kind id known = known

  or_index-Declares :
      (kind id : String)
      → Declares kind id
      → contains (or_index index (ids_for r.kinds kind) kind) id ≡ true
  unfolding or_index
  or_index-Declares kind id (inl known) = or_index-known (ids_for r.kinds kind) kind id known
  or_index-Declares kind id (inr (unknown, listed)) = rw (unknown, or_index) listed

  alias_ids_for-IsIdOf :
      (kind type : String)
      → IsIdOf kind type
      → type ≢ kind
      → type ≢ "*"
      → contains (alias_ids_for index r.kinds kind) type ≡ true
  unfolding alias_ids_for
  alias_ids_for-IsIdOf kind type (inl same) n s = absurd (n (sym same))
  alias_ids_for-IsIdOf kind type (inr (inl declared)) n s =
      let here = or_index-Declares kind type declared in
      contains-with_variants (or_index index (ids_for r.kinds kind) kind) kind type type here
        (ground arith) n s
  alias_ids_for-IsIdOf kind type (inr (inr ((id, declared), spelling))) n s =
      let here = or_index-Declares kind id declared in
      contains-with_variants (or_index index (ids_for r.kinds kind) kind) kind id type here
        (ground arith) n s

  get-bind :
      (kind type : String) (e : E)
      → IsIdOf kind type
      → kind ≢ "*"
      → type ≢ "*"
      → get (bind index r kind e).by_kind type ≡ some e
  unfolding bind
  get-bind kind type e a n s =
      let written = get-put_each (alias_ids_for index r.kinds kind) e (put r.by_kind kind e) type in
      let first = get-put r.by_kind kind type e in
      elim (Bool-cases (kind == type)) [
        | inl same ↦ ground (arith, eq_iff kind "*", written, first)
        | inr apart ↦
            let listed =
              alias_ids_for-IsIdOf kind type a
                (λ same. ground (arith, same, apart, eq_iff kind type)) s in
            ground (arith, eq_iff kind "*", written, first)
      ]

  -- A bound kind serves every node that has no binding of its own and whose type is the kind itself,
  -- an id that the registry declares for it, an id that the builtin index has for its bare name where
  -- the registry does not know the kind, or a conventional spelling of a kind that one of the two
  -- knows; the kind and the type are not `*`.
  pub resolve-bind :
      (kind type : String) (e : E) (node : FlowNode)
      → kind ≢ "*"
      → type ≢ "*"
      → node.type ≡ some type
      → get r.by_node node.id ≡ none
      → IsIdOf kind type
      → resolve_for (bind index r kind e) node ≡ some e
  unfolding resolve_for bind bound_kind kind_candidates unique add_all
  resolve-bind kind type e node n s typed free a = ground (
    arith,
    eq_iff kind "*",
    first_bound-head type [] (ids_for r.kinds type ++ variants type) (bind index r kind e).by_kind e
        (get-bind kind type e a n s),
  )
