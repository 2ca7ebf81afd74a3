-- ===== src/Workflow/Migration.antt =====
-- `migrate_schema` and `_is_current_version` of src/fancy_flow/workflow.py.
use fancy_flow_py.Prelude.{
  ℕ, zero, suc, List, [], ◌∷◌, Option, none, some, Bool, false, eqb, ℤ, pos, negsuc, if◌then◌else◌,
  ◌≡◌, refl, ◌⊎◌, inl, inr, Option-cases, arith, ◌∙◌, ap, sym,
}
use fancy_flow_py.Prelude.Dict.{Dict, get, put, get-put}
use fancy_flow_py.Value.{Value, Float, int, float}

-- The steps, each with the version that it upgrades from.
abbrev pub Steps : Type 0
Steps = List (ℤ × (Dict Value → Dict Value))

abbrev pub same : ℤ → ℤ → Bool
same (pos m) (pos n) = eqb m n
same (negsuc m) (negsuc n) = eqb m n
same _ _ = false

-- table.get(version)
unfoldable pub step_from : Steps → ℤ → Option (Dict Value → Dict Value)
step_from [] version = none
step_from ((v, step) ∷ steps) version =
    if same v version then some step else step_from steps version

-- The version that is `n` below SCHEMA_VERSION.
abbrev pub below : ℕ → ℤ
below zero = pos 1
below (suc zero) = pos 0
below (suc (suc n)) = negsuc n

-- How far a version is below SCHEMA_VERSION.
abbrev pub distance : ℤ → ℕ
distance (pos zero) = 1
distance (pos (suc n)) = 0
distance (negsuc n) = suc (suc n)

-- The loop, from a version that is `n` below the current one.
unfoldable pub migrate_from : Steps → ℕ → Dict Value → Dict Value
unfolding step_from put
migrate_from table zero schema = schema
migrate_from table (suc n) schema = elim (step_from table (below (suc n))) [
  | none ↦ schema
  | some step ↦ migrate_from table n (put (step schema) "version" (int (below n)))
]

unfoldable pub migrate_schema : Steps → Dict Value → Dict Value
unfolding migrate_from get
migrate_schema table schema = elim (get schema "version") [
  | some (int version) ↦ migrate_from table (distance version) schema
  | _ ↦ schema
]

-- _is_current_version
abbrev pub is_current_version : (Float → Bool) → Option Value → Bool
is_current_version is_one_float (some (int n)) = same n (pos 1)
is_current_version is_one_float (some (float x)) = is_one_float x
is_current_version is_one_float _ = false

-- A run of the table's steps: from a schema that is `n` below the current version to one that is `m`
-- below it, one version at a time. The step of the version reads the schema as the last step left
-- it, and the result is stamped with the next version.
pub data Migrates (table : Steps) : ℕ → Dict Value → ℕ → Dict Value → Type 0 where
  stays : (n : ℕ) (schema : Dict Value) → Migrates table n schema n schema
  steps :
      (n m : ℕ) (schema last : Dict Value) (step : Dict Value → Dict Value)
      → step_from table (below (suc n)) ≡ some step
      → Migrates table n (put (step schema) "version" (int (below n))) m last
      → Migrates table (suc n) schema m last

-- Nothing is left to do: the version is the current one, or no step upgrades it.
pub data IsLast (table : Steps) : ℕ → Type 0 where
  current : IsLast table zero
  gap : (n : ℕ) → step_from table (below (suc n)) ≡ none → IsLast table (suc n)

-- A schema that the steps lead to, as far as they go, and that says its version.
abbrev pub IsSettled : Steps → ℕ → Dict Value → Dict Value → Type 0
IsSettled table n schema last =
    (m : ℕ) × Migrates table n schema m last
    × IsLast table m
    × (get last "version" ≡ some (int (below m)))

-- A loop that starts at its version ends settled.
migrate_from-IsSettled :
    (table : Steps) (n : ℕ) (schema : Dict Value)
    → get schema "version" ≡ some (int (below n))
    → IsSettled table n schema (migrate_from table n schema)
unfolding migrate_from
migrate_from-IsSettled table zero schema h = (zero, stays zero schema, current, h)
migrate_from-IsSettled table (suc n) schema h =
    elim (Option-cases (step_from table (below (suc n)))) [
      | inl no_step ↦ rw (migrate_from, no_step) (suc n, stays (suc n) schema, gap n no_step, h)
      | inr (step, found) ↦
          let next = put (step schema) "version" (int (below n)) in
          let (m, run, end, version) =
            migrate_from-IsSettled table n next
              (get-put (step schema) "version" "version" (int (below n))) in
          rw (migrate_from, found)
            (m, steps n m schema (migrate_from table n next) step found run, end, version)
    ]

below-distance : (v : ℤ) → (below (distance v) ≡ v) ⊎ (distance v ≡ 0)
below-distance (pos zero) = inl refl
below-distance (pos (suc n)) = inr refl
below-distance (negsuc n) = inl refl

-- With any table of steps, a schema whose version is a whole number either has at least the current
-- version and stays as it is; or it is led through the table's steps from its version on, each
-- applied once to what the last one left and stamped with the next version, up to the current
-- version or the first version that no step of the table upgrades, which is then its version.
pub migrate_schema-IsSettled :
    (table : Steps) (schema : Dict Value) (version : ℤ)
    → get schema "version" ≡ some (int version)
    → ((distance version ≡ 0) × (migrate_schema table schema ≡ schema))
      ⊎ ((below (distance version) ≡ version)
          × IsSettled table (distance version) schema (migrate_schema table schema))
unfolding migrate_schema migrate_from
migrate_schema-IsSettled table schema version h = elim (below-distance version) [
  | inl older ↦
      rw (migrate_schema, h)
        (inr (
          older,
          migrate_from-IsSettled table (distance version) schema
              (h ∙ ap (λ v. some (int v)) (sym older)),
        ))
  | inr newer ↦ rw (migrate_schema, h, newer, migrate_from) (inl (refl, refl))
]

migrate_from-nil : (n : ℕ) (schema : Dict Value) → migrate_from [] n schema ≡ schema
unfolding migrate_from step_from
migrate_from-nil zero schema = refl
migrate_from-nil (suc n) schema = refl

-- Without steps a schema stays as it is.
pub migrate_schema-nil : (schema : Dict Value) → migrate_schema [] schema ≡ schema
unfolding migrate_schema
migrate_schema-nil schema = ground (arith, migrate_from-nil 0 schema)
