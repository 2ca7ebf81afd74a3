-- ===== src/Policy/Values.antt =====
-- What `_value_issues` of src/fancy_flow/security/policy.py lets through.
use fancy_flow_py.Prelude.{
  ℕ, zero, suc, ◌+◌, ◌≤◌, String, List, [], ◌∷◌, ◌++◌, Bool, true, false, not, ◌&&◌, ◌||◌, leb, ltb,
  if◌then◌else◌, ◌≡◌, refl, arith,
}
use fancy_flow_py.Value.{
  Value, Items, Fields, null, bool, int, float, str, list, tuple, dict, object,
}
use fancy_flow_py.Prelude.Dict.{Dict}
use fancy_flow_py.Text.{size}
use fancy_flow_py.Issues.{ImportIssue, any_error}
use fancy_flow_py.Python.{Conversions}
use fancy_flow_py.Policy.Limits.{GraphPolicy, Encoder}
use fancy_flow_py.Policy.Checks.{
  has_control, text_issues, value_issues, items_issues, fields_issues, too_deep,
}

pub any_error-append :
    (xs ys : List ImportIssue) → any_error (xs ++ ys) ≡ (any_error xs || any_error ys)
unfolding any_error
any_error-append [] ys = refl
any_error-append (x ∷ xs) ys = ground (arith, any_error-append xs ys)

-- A text that is short enough, has an encoding and has no control character.
abbrev pub is_clean_text : Encoder → GraphPolicy → String → Bool
is_clean_text enc p s =
    leb (size s) p.max_string_length && enc.is_encodable s && not (has_control s)

-- Every text of a value is clean, its keys included, and none of its parts is nested deeper than
-- `room` levels.
unfoldable mutual
  pub is_clean : Encoder → GraphPolicy → ℕ → Value → Bool
  is_clean enc p room (str s) = is_clean_text enc p s
  is_clean enc p room (list vs) = are_clean enc p room vs
  is_clean enc p room (tuple vs) = are_clean enc p room vs
  is_clean enc p room (dict fs) = have_clean enc p room fs
  is_clean enc p room v = true

  pub are_clean : Encoder → GraphPolicy → ℕ → Items → Bool
  are_clean enc p room Items.nil = true
  are_clean enc p zero (Items.cons v vs) = false
  are_clean enc p (suc room) (Items.cons v vs) =
      is_clean enc p room v && are_clean enc p (suc room) vs

  pub have_clean : Encoder → GraphPolicy → ℕ → Fields → Bool
  have_clean enc p room Fields.end = true
  have_clean enc p zero (Fields.field k v fs) = false
  have_clean enc p (suc room) (Fields.field k v fs) =
      is_clean_text enc p k && (is_clean enc p room v && have_clean enc p (suc room) fs)

pub both-clean :
    (xs ys : List ImportIssue) (a b : Bool)
    → any_error xs ≡ not a
    → any_error ys ≡ not b
    → any_error (xs ++ ys) ≡ not (a && b)
both-clean xs ys a b h k = ground (arith, any_error-append xs ys)

module _ (c : Conversions) (enc : Encoder) (index : Dict (List String)) (p : GraphPolicy)
    (node_id : String) where
  text_issues-clean :
      (s : String) → any_error (text_issues c enc index p node_id s) ≡ not (is_clean_text enc p s)
  unfolding text_issues any_error
  text_issues-clean s = ground arith

  guarded : ℕ → List ImportIssue → List ImportIssue
  guarded depth xs = if ltb p.max_depth depth then too_deep c enc index p node_id else xs

  guarded-clean :
      (depth : ℕ) (xs : List ImportIssue) (a : Bool)
      → depth ≤ p.max_depth
      → any_error xs ≡ not a
      → any_error (guarded depth xs) ≡ not a
  unfolding guarded
  guarded-clean depth xs a le h = ground arith

  guarded-deep :
      (depth : ℕ) (xs : List ImportIssue)
      → suc p.max_depth ≤ depth
      → any_error (guarded depth xs) ≡ true
  unfolding guarded any_error
  guarded-deep depth xs le = ground arith

  first_error : (xs ys : List ImportIssue) → any_error xs ≡ true → any_error (xs ++ ys) ≡ true
  first_error xs ys h = ground (arith, any_error-append xs ys)

  value_issues-deep :
      (depth : ℕ) (v : Value)
      → suc p.max_depth ≤ depth
      → any_error (value_issues c enc index p node_id depth v) ≡ true
  unfolding value_issues guarded
  value_issues-deep depth (str s) le = guarded-deep depth (text_issues c enc index p node_id s) le
  value_issues-deep depth (list vs) le =
      guarded-deep depth (items_issues c enc index p node_id (suc depth) vs) le
  value_issues-deep depth (tuple vs) le =
      guarded-deep depth (items_issues c enc index p node_id (suc depth) vs) le
  value_issues-deep depth (dict fs) le =
      guarded-deep depth (fields_issues c enc index p node_id (suc depth) fs) le
  value_issues-deep depth null le = guarded-deep depth [] le
  value_issues-deep depth (bool b) le = guarded-deep depth [] le
  value_issues-deep depth (int n) le = guarded-deep depth [] le
  value_issues-deep depth (float x) le = guarded-deep depth [] le
  value_issues-deep depth (object t n) le = guarded-deep depth [] le

  no_error : any_error [] ≡ not true
  unfolding any_error
  no_error = refl

  mutual
    unfolding value_issues is_clean guarded

    pub value_issues-clean :
        (depth room : ℕ) (v : Value)
        → depth + room ≡ p.max_depth
        → any_error (value_issues c enc index p node_id depth v) ≡ not (is_clean enc p room v)
    value_issues-clean depth room (str s) h =
        guarded-clean depth (text_issues c enc index p node_id s) (is_clean_text enc p s)
          (omega (arith, h)) (text_issues-clean s)
    value_issues-clean depth room (list vs) h =
        guarded-clean depth (items_issues c enc index p node_id (suc depth) vs)
          (are_clean enc p room vs) (omega (arith, h)) (items_issues-clean depth room vs h)
    value_issues-clean depth room (tuple vs) h =
        guarded-clean depth (items_issues c enc index p node_id (suc depth) vs)
          (are_clean enc p room vs) (omega (arith, h)) (items_issues-clean depth room vs h)
    value_issues-clean depth room (dict fs) h =
        guarded-clean depth (fields_issues c enc index p node_id (suc depth) fs)
          (have_clean enc p room fs) (omega (arith, h)) (fields_issues-clean depth room fs h)
    value_issues-clean depth room null h = guarded-clean depth [] true (omega (arith, h)) no_error
    value_issues-clean depth room (bool b) h =
        guarded-clean depth [] true (omega (arith, h)) no_error
    value_issues-clean depth room (int n) h =
        guarded-clean depth [] true (omega (arith, h)) no_error
    value_issues-clean depth room (float x) h =
        guarded-clean depth [] true (omega (arith, h)) no_error
    value_issues-clean depth room (object t n) h =
        guarded-clean depth [] true (omega (arith, h)) no_error

    items_issues-clean :
        (depth room : ℕ) (vs : Items)
        → depth + room ≡ p.max_depth
        → any_error (items_issues c enc index p node_id (suc depth) vs)
          ≡ not (are_clean enc p room vs)
    items_issues-clean depth room Items.nil h = no_error
    items_issues-clean depth zero (Items.cons v vs) h =
        first_error (value_issues c enc index p node_id (suc depth) v)
          (items_issues c enc index p node_id (suc depth) vs)
          (value_issues-deep (suc depth) v (omega (arith, h)))
    items_issues-clean depth (suc room) (Items.cons v vs) h =
        both-clean (value_issues c enc index p node_id (suc depth) v)
          (items_issues c enc index p node_id (suc depth) vs) (is_clean enc p room v)
          (are_clean enc p (suc room) vs) (value_issues-clean (suc depth) room v (omega (arith, h)))
          (items_issues-clean depth (suc room) vs h)

    fields_issues-clean :
        (depth room : ℕ) (fs : Fields)
        → depth + room ≡ p.max_depth
        → any_error (fields_issues c enc index p node_id (suc depth) fs)
          ≡ not (have_clean enc p room fs)
    fields_issues-clean depth room Fields.end h = no_error
    fields_issues-clean depth zero (Fields.field k v fs) h =
        first_error (guarded (suc depth) (text_issues c enc index p node_id k))
          (value_issues c enc index p node_id (suc depth) v
            ++ fields_issues c enc index p node_id (suc depth) fs)
          (guarded-deep (suc depth) (text_issues c enc index p node_id k) (omega (arith, h)))
    fields_issues-clean depth (suc room) (Fields.field k v fs) h =
        both-clean (guarded (suc depth) (text_issues c enc index p node_id k))
          (value_issues c enc index p node_id (suc depth) v
            ++ fields_issues c enc index p node_id (suc depth) fs)
          (is_clean_text enc p k) (is_clean enc p room v && have_clean enc p (suc room) fs)
          (guarded-clean (suc depth) (text_issues c enc index p node_id k) (is_clean_text enc p k)
            (omega (arith, h)) (text_issues-clean k))
          (both-clean (value_issues c enc index p node_id (suc depth) v)
            (fields_issues c enc index p node_id (suc depth) fs) (is_clean enc p room v)
            (have_clean enc p (suc room) fs)
            (value_issues-clean (suc depth) room v (omega (arith, h)))
            (fields_issues-clean depth (suc room) fs h))
