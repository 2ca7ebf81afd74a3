-- ===== src/Props/Checked.antt =====
-- What a successful check of the props promises, and when each refusal is given.
use fancy_flow_py.Prelude.{
  String, List, [], ◌∷◌, Option, none, some, true, false, ◌≡◌, ◌≢◌, refl, arith, eq_iff, ◌==◌,
  contains, if◌then◌else◌, Bool-cases, Option-cases, inl, inr, ◌⊎◌, ◌↔◌, subst, ◌∙◌, ap,
}
use fancy_flow_py.Prelude.Dict.{Dict, get, has, keys, get-put, contains-keys}
use fancy_flow_py.Value.{Value}
use fancy_flow_py.Props.{
  PropsCheck, ok, refused, unknown_input, type_of, text_at, names, first_unknown, is_true,
  resolve_one, resolve_each, resolve_workflow_props, unknown_error,
}

-- The caller's value meets one declaration.
pub record Meets (given spec : Dict Value) (name : String) : Type 0 where
  pub typed :
      (v : Value) (t : String)
      → get given name ≡ some v
      → text_at spec "type" ≡ some t
      → type_of v ≡ t
  pub there :
      get given name ≡ none → get spec "default" ≡ none → is_true (get spec "required") ≡ false

-- What the declaration gives its name: the caller's value, else the default, else nothing new.
abbrev given_or_default : Dict Value → Dict Value → Dict Value → String → Option Value
given_or_default given resolved spec name = elim (get given name) [
  | some v ↦ some v
  | none ↦ elim (get spec "default") [ some d ↦ some d | none ↦ get resolved name ]
]

module _ (given resolved spec : Dict Value) (name : String) {next : Dict Value}
    (e : resolve_one given resolved name spec ≡ ok next) where
  resolve_one-Meets : Meets given spec name
  unfolding resolve_one
  resolve_one-Meets = record {
    typed = λ v t p q. ground (arith, eq_iff (type_of v) t);
    there = λ p q. ground arith;
  }

  get-resolve_one :
      (k : String)
      → get next k
        ≡ (if name == k then given_or_default given resolved spec name else get resolved k)
  unfolding resolve_one
  get-resolve_one k = elim (Option-cases (get given name)) [
    | inl p ↦ elim (Option-cases (get spec "default")) [
      | inl q ↦ ground (arith, eq_iff name k)
      | inr (d, q) ↦ ground (arith, get-put resolved name k d)
    ]
    | inr (v, p) ↦ ground (arith, get-put resolved name k v)
  ]

  resolve_one-holds :
      (k : String) (v : Value)
      → get next k ≡ some v
      → (get given k ≡ some v)
        ⊎ ((name ≡ k) × (get given k ≡ none) × (get spec "default" ≡ some v))
        ⊎ (get resolved k ≡ some v)
  resolve_one-holds k v p = elim (Bool-cases (name == k)) [
    | inr other ↦ inr (inr (ground (arith, get-resolve_one k)))
    | inl here ↦
        let same = (eq_iff name k).0 here in
        elim (Option-cases (get given name)) [
          | inr (w, g) ↦ inl (ground (arith, get-resolve_one k))
          | inl g ↦ elim (Option-cases (get spec "default")) [
            | inl q ↦ inr (inr (ground (arith, get-resolve_one k)))
            | inr (d, q) ↦ inr (inl (same, ground arith, ground (arith, get-resolve_one k)))
          ]
        ]
  ]

-- Every well-formed declaration is met.
abbrev pub AllMet : Dict Value → List (Dict Value) → Type 0
AllMet given [] = Unit
AllMet given (spec ∷ specs) =
    ((name : String) → text_at spec "name" ≡ some name → Meets given spec name) × AllMet given specs

-- Some declaration of `k` has the default `v`.
abbrev pub IsDefault : List (Dict Value) → String → Value → Type 0
IsDefault [] k v = ⊥
IsDefault (spec ∷ specs) k v =
    ((text_at spec "name" ≡ some k) × (get spec "default" ≡ some v)) ⊎ IsDefault specs k v

-- The resolved props hold what the caller passed and declared defaults, and nothing else.
abbrev pub Holds : Dict Value → List (Dict Value) → Dict Value → Dict Value → Type 0
Holds given specs before after =
    (k : String) (v : Value)
    → get after k ≡ some v
    → (get given k ≡ some v)
      ⊎ ((get given k ≡ none) × IsDefault specs k v)
      ⊎ (get before k ≡ some v)

-- A name of the declarations that the caller passed is in the resolved props.
abbrev pub Passes : Dict Value → List (Dict Value) → Dict Value → Type 0
Passes given specs after =
    (k : String) (v : Value)
    → contains (names specs) k ≡ true
    → get given k ≡ some v
    → get after k ≡ some v

module _ (given spec : Dict Value) (specs : List (Dict Value)) (before after : Dict Value) where
  abbrev Named : Type 0
  Named =
      (name : String) × (next : Dict Value) × (text_at spec "name" ≡ some name)
      × (resolve_one given before name spec ≡ ok next)
      × (resolve_each given specs next ≡ ok after)

  resolve_each-cons :
      resolve_each given (spec ∷ specs) before ≡ ok after
      → ((text_at spec "name" ≡ none) × (resolve_each given specs before ≡ ok after)) ⊎ Named
  unfolding resolve_each
  resolve_each-cons e = elim (Option-cases (text_at spec "name")) [
    | inl n ↦ inl (n, ground arith)
    | inr (name, n) ↦ named name n (resolve_one given before name spec) refl
  ]
    where
      named :
          (name : String)
          → text_at spec "name" ≡ some name
          → (c : PropsCheck) → resolve_one given before name spec ≡ c
          → ((text_at spec "name" ≡ none) × (resolve_each given specs before ≡ ok after)) ⊎ Named
      named name n (ok next) c = inr (name, next, n, c, ground arith)
      named name n (refused code error) c = absurd (ground arith)

record Result (given : Dict Value) (specs : List (Dict Value)) (before after : Dict Value)
    : Type 0 where
  met : AllMet given specs
  holds : Holds given specs before after
  passes :
      (k : String) (v : Value)
      → get given k ≡ some v
      → (contains (names specs) k ≡ true) ⊎ (get before k ≡ some v)
      → get after k ≡ some v

resolve_each-Result :
    (given : Dict Value) (specs : List (Dict Value)) (before after : Dict Value)
    → resolve_each given specs before ≡ ok after
    → Result given specs before after
unfolding names
resolve_each-Result given [] before after e =
    let same : before ≡ after = unfold resolve_each in (ground arith) in
    record { met = tt; holds = λ k v p. inr (inr (ground arith)); passes = λ k v p q. ground arith }
resolve_each-Result given (spec ∷ specs) before after e =
    elim (resolve_each-cons given spec specs before after e) [
      | inl (n, rest) ↦
          let r = resolve_each-Result given specs before after rest in
          record {
            met = (λ name p. absurd (cc), r.met);
            holds = λ k v p. elim (r.holds k v p) [
              | inl x ↦ inl x
              | inr (inl (x, d)) ↦ inr (inl (x, inr d))
              | inr (inr x) ↦ inr (inr x)
            ];
            passes = λ k v p q. r.passes k v p (ground arith);
          }
      | inr (name, next, n, one, rest) ↦
          let r = resolve_each-Result given specs next after rest in
          let at = get-resolve_one given before spec name one in
          record {
            met = (
              λ name' p.
                  subst (Meets given spec) (ground arith)
                    (resolve_one-Meets given before spec name one),
              r.met,
            );
            holds = λ k v p. elim (r.holds k v p) [
              | inl x ↦ inl x
              | inr (inl (x, d)) ↦ inr (inl (x, inr d))
              | inr (inr x) ↦ elim (resolve_one-holds given before spec name one k v x) [
                | inl y ↦ inl y
                | inr (inl (same, g, d)) ↦ inr (inl (g, inl (n ∙ ap some same, d)))
                | inr (inr y) ↦ inr (inr y)
              ]
            ];
            passes = λ k v p q. r.passes k v p (ground (arith, at k, eq_iff name k));
          }
    ]

first_unknown-none :
    (known ks : List String) (k : String)
    → first_unknown known ks ≡ none
    → contains ks k ≡ true
    → contains known k ≡ true
unfolding first_unknown
first_unknown-none known [] k e m = ground arith
first_unknown-none known (x ∷ ks) k e m = ground (arith, first_unknown-none known ks k, eq_iff x k)

first_unknown-some :
    (known ks : List String) (k : String)
    → first_unknown known ks ≡ some k
    → (contains known k ≡ false) × (contains ks k ≡ true)
unfolding first_unknown
first_unknown-some known [] k e = absurd (cc)
first_unknown-some known (x ∷ ks) k e = ground (arith, first_unknown-some known ks k, eq_iff x k)

first_unknown-finds :
    (known ks : List String) (k : String)
    → contains known k ≡ false
    → contains ks k ≡ true
    → (j : String) × (first_unknown known ks ≡ some j)
unfolding first_unknown
first_unknown-finds known [] k n m = absurd (cc)
first_unknown-finds known (x ∷ ks) k n m = elim (Bool-cases (contains known x)) [
  | inr new ↦ (x, ground arith)
  | inl old ↦
      let (j, e) = first_unknown-finds known ks k n (ground (arith, eq_iff x k)) in
      (j, ground arith)
]

never_unknown_one :
    (given resolved spec : Dict Value) (name error : String)
    → resolve_one given resolved name spec ≢ refused unknown_input error
unfolding resolve_one
never_unknown_one given resolved spec name error = ground arith

module _ (given spec : Dict Value) (specs : List (Dict Value)) (before : Dict Value)
    (error : String)
    (rest : (next : Dict Value) → resolve_each given specs next ≢ refused unknown_input error) where
  never_unknown_named :
      (name : String)
      → text_at spec "name" ≡ some name
      → (c : PropsCheck) → resolve_one given before name spec ≡ c
      → resolve_each given (spec ∷ specs) before ≢ refused unknown_input error
  unfolding resolve_each
  never_unknown_named name n (ok next) c e = rest next (ground arith)
  never_unknown_named name n (refused code text) c e =
      ground (arith, never_unknown_one given before spec name error)

  never_unknown_cons : resolve_each given (spec ∷ specs) before ≢ refused unknown_input error
  unfolding resolve_each
  never_unknown_cons e = elim (Option-cases (text_at spec "name")) [
    | inl n ↦ rest before (ground arith)
    | inr (name, n) ↦ never_unknown_named name n (resolve_one given before name spec) refl e
  ]

never_unknown :
    (given : Dict Value) (specs : List (Dict Value)) (before : Dict Value) (error : String)
    → resolve_each given specs before ≢ refused unknown_input error
unfolding resolve_each
never_unknown given [] before error e = cc
never_unknown given (spec ∷ specs) before error e =
    never_unknown_cons given spec specs before error (λ next. never_unknown given specs next error)
      e

-- What the props of an accepted call are.
pub record IsResolved (declared : List (Dict Value)) (passed props : Dict Value) : Type 0 where
  pub known : (k : String) → has passed k ≡ true → contains (names declared) k ≡ true
  pub met : AllMet passed declared
  pub kept : (k : String) (v : Value) → get passed k ≡ some v → get props k ≡ some v
  pub only :
      (k : String) (v : Value)
      → get props k ≡ some v
      → (get passed k ≡ some v) ⊎ ((get passed k ≡ none) × IsDefault declared k v)

-- An accepted call passed declared names only and met every declaration. Its props hold each value
-- that was passed, whatever the value is, and otherwise declared defaults only.
pub resolve_workflow_props-IsResolved :
    (declared : List (Dict Value)) (passed props : Dict Value)
    → resolve_workflow_props declared passed ≡ ok props
    → IsResolved declared passed props
unfolding resolve_workflow_props
resolve_workflow_props-IsResolved declared passed props e =
    elim (Option-cases (first_unknown (names declared) (keys passed))) [
      | inr (k, u) ↦ absurd (ground arith)
      | inl u ↦
          let r = resolve_each-Result passed declared [] props (ground arith) in
          let known : (k : String) → has passed k ≡ true → contains (names declared) k ≡ true =
            λ k h.
              first_unknown-none (names declared) (keys passed) k u
                (ground (arith, contains-keys passed k)) in
          record {
            known = known;
            met = r.met;
            kept = λ k v p. r.passes k v p (inl (known k (ground arith)));
            only = λ k v p. elim (r.holds k v p) [
              | inl x ↦ inl x
              | inr (inl x) ↦ inr x
              | inr (inr x) ↦ absurd (unfold get in cc)
            ];
          }
    ]

-- A call is refused for an unknown input exactly when it passes a name that is not declared,
-- whatever else is wrong with it.
pub unknown_input_iff :
    (declared : List (Dict Value)) (passed : Dict Value)
    → ((error : String) × (resolve_workflow_props declared passed ≡ refused unknown_input error))
      ↔ ((k : String) × (has passed k ≡ true) × (contains (names declared) k ≡ false))
unfolding resolve_workflow_props
unknown_input_iff declared passed = (
  λ (error, e). elim (Option-cases (first_unknown (names declared) (keys passed))) [
    | inr (k, u) ↦
        let found = first_unknown-some (names declared) (keys passed) k u in
        (k, ground (arith, contains-keys passed k), found.0)
    | inl u ↦ absurd (never_unknown passed declared [] error (ground arith))
  ],
  λ (k, h, n).
      let (j, e) =
        first_unknown-finds (names declared) (keys passed) k n
          (ground (arith, contains-keys passed k)) in
      (unknown_error j (names declared), ground arith),
)
