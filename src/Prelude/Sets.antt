-- ===== src/Prelude/Sets.antt =====
-- Lists of texts measured by native numbers and read as sets by a Boolean test of membership.
use Prim.Native.Nat.{ℕ, zero, suc, ◌+◌, ◌≤◌}
use Prim.Native.String.{String}
use mathlib.Core.Path.{◌≡◌, refl}
use mathlib.Core.Bool.{Bool, true, false, ◌||◌, ◌&&◌, not}
use mathlib.Core.Logic.{inl, inr}
use mathlib.Core.List.{List, [], ◌∷◌, ◌++◌}
use native.Mathlib.Omega.{arith}
use text.Mathlib.Text.{◌==◌}
use text.Mathlib.TextEquality.{eq_iff}
use text.Mathlib.TextPositions.{eq_refl}
use fancy_flow_py.Prelude.Tests.{if◌then◌else◌, Bool-cases}

module _ {ℓ} {A : Type ℓ} where
  abbrev pub length : List A → ℕ
  length [] = 0
  length (x ∷ xs) = suc (length xs)

  pub length-append : (xs ys : List A) → length (xs ++ ys) ≡ length xs + length ys
  length-append [] ys = omega arith
  length-append (x ∷ xs) ys = omega (arith, length-append xs ys)

  -- `xs[:n]`
  abbrev pub take : ℕ → List A → List A
  take zero xs = []
  take (suc n) [] = []
  take (suc n) (x ∷ xs) = x ∷ take n xs

-- `k in xs`
abbrev pub contains : List String → String → Bool
contains [] k = false
contains (x ∷ xs) k = x == k || contains xs k

pub contains-append :
    (xs ys : List String) (k : String) → contains (xs ++ ys) k ≡ (contains xs k || contains ys k)
contains-append [] ys k = refl
contains-append (x ∷ xs) ys k = ground (arith, contains-append xs ys k)

pub contains-snoc :
    (xs : List String) (x k : String) → contains (xs ++ x ∷ []) k ≡ (contains xs k || x == k)
contains-snoc xs x k = ground (arith, contains-append xs (x ∷ []) k)

-- No text stands twice.
abbrev pub distinct : List String → Bool
distinct [] = true
distinct (x ∷ xs) = not (contains xs x) && distinct xs

pub distinct-snoc :
    (xs : List String) (x : String)
    → distinct xs ≡ true
    → contains xs x ≡ false
    → distinct (xs ++ x ∷ []) ≡ true
distinct-snoc [] x d h = refl
distinct-snoc (y ∷ xs) x d h =
    ground (arith, distinct-snoc xs x, contains-snoc xs x y, eq_iff y x, eq_iff x y)

-- Every text of `xs` stands in `ys`.
abbrev pub IsSubset : List String → List String → Type 0
IsSubset xs ys = (k : String) → contains xs k ≡ true → contains ys k ≡ true

remove : String → List String → List String
remove k [] = []
remove k (x ∷ xs) = if x == k then xs else x ∷ remove k xs

length-remove :
    (k : String) (xs : List String) → contains xs k ≡ true → length xs ≡ suc (length (remove k xs))
unfolding remove
length-remove k [] h = ground arith
length-remove k (x ∷ xs) h = ground (arith, length-remove k xs)

contains-remove :
    (k j : String) (xs : List String)
    → (k == j) ≡ false
    → contains xs j ≡ true
    → contains (remove k xs) j ≡ true
unfolding remove
contains-remove k j [] n h = ground arith
contains-remove k j (x ∷ xs) n h =
    ground (arith, contains-remove k j xs, eq_iff x k, eq_iff x j, eq_iff k j)

-- The pigeonhole principle: distinct texts that all stand in `ys` are no more than those of `ys`.
pub length-le_of_subset :
    (xs ys : List String) → distinct xs ≡ true → IsSubset xs ys → length xs ≤ length ys
length-le_of_subset [] ys d h = omega arith
length-le_of_subset (x ∷ xs) ys d h =
    let here : contains ys x ≡ true = h x (ground (arith, eq_refl x)) in
    let rest =
      length-le_of_subset xs (remove x ys) (ground arith)
        λ k m. contains-remove x k ys (ground (arith, eq_iff x k)) (h k (ground arith)) in
    omega (arith, length-remove x ys here)

pub distinct-middle :
    (xs : List String) (x : String) (ys : List String)
    → distinct (xs ++ x ∷ ys) ≡ true
    → contains xs x ≡ false
distinct-middle [] x ys h = refl
distinct-middle (y ∷ xs) x ys h =
    ground (arith, distinct-middle xs x ys, contains-append xs (x ∷ ys) y, eq_iff y x, eq_iff x y)

-- Distinct texts of `ys` that are as many as all of `ys` are all of them.
pub subset_of_length :
    (xs ys : List String)
    → distinct xs ≡ true
    → IsSubset xs ys
    → length ys ≤ length xs
    → IsSubset ys xs
subset_of_length xs ys d h le k m = elim (Bool-cases (contains xs k)) [
  | inl there ↦ there
  | inr gone ↦
      let fewer =
        length-le_of_subset xs (remove k ys) d
          λ j here. contains-remove k j ys (ground (arith, eq_iff k j)) (h j here) in
      absurd (omega (arith, length-remove k ys m))
]

-- One round of `seen.setdefault(x, None)` over `xs`.
unfoldable pub add_all : List String → List String → List String
add_all seen [] = seen
add_all seen (x ∷ xs) = add_all (if contains seen x then seen else seen ++ x ∷ []) xs

-- list(dict.fromkeys(xs)): the first occurrence of each text, in order.
unfoldable pub unique : List String → List String
unfolding add_all
unique xs = add_all [] xs

pub contains-add_all :
    (seen xs : List String) (k : String)
    → contains (add_all seen xs) k ≡ (contains seen k || contains xs k)
unfolding add_all
contains-add_all seen [] k = ground arith
contains-add_all seen (x ∷ xs) k = elim (Bool-cases (contains seen x)) [
  | inl old ↦ rw (old, add_all) (ground (arith, contains-add_all seen xs k, eq_iff x k))
  | inr new ↦
      rw (new, add_all)
        (ground (arith, contains-add_all (seen ++ x ∷ []) xs k, contains-snoc seen x k, eq_iff x k))
]

distinct-add_all :
    (seen xs : List String) → distinct seen ≡ true → distinct (add_all seen xs) ≡ true
unfolding add_all
distinct-add_all seen [] d = d
distinct-add_all seen (x ∷ xs) d = elim (Bool-cases (contains seen x)) [
  | inl old ↦ rw (old, add_all) (distinct-add_all seen xs d)
  | inr new ↦ rw (new, add_all) (distinct-add_all (seen ++ x ∷ []) xs (distinct-snoc seen x d new))
]

pub contains-unique : (xs : List String) (k : String) → contains (unique xs) k ≡ contains xs k
unfolding unique
contains-unique xs k = contains-add_all [] xs k

pub distinct-unique : (xs : List String) → distinct (unique xs) ≡ true
unfolding unique
distinct-unique xs = distinct-add_all [] xs refl
