-- ===== src/Core/Filter.antt =====
-- crates/hamane-core/src/filter.rs: conditions on metadata. The operations on `f64` are the
-- hardware's, a parameter: the conversion of an `i64`, the difference, and the comparisons.
use hamane_db.Base.{
  ℕ, Bool, true, false, not, ◌&&◌, ◌||◌, Option, none, some, List, [], ◌∷◌, lookup, bytes_eq,
  nat_eq, eq_bytes,
}
use hamane_db.Core.Record.{Text, MetaValue, Metadata}

pub record FloatOps : Type 0 where
  pub of_int : ℕ → ℕ
  pub minus : ℕ → ℕ → ℕ
  pub eq : ℕ → ℕ → Bool
  pub gt : ℕ → ℕ → Bool
  pub ge : ℕ → ℕ → Bool
  pub lt : ℕ → ℕ → Bool
  pub le : ℕ → ℕ → Bool

mutual
  pub data Filter : Type 0 where
    eq gt gte lt lte : Text → MetaValue → Filter
    is_in : Text → List MetaValue → Filter
    and or : Filters → Filter
    not_filter : Filter → Filter

  pub data Filters : Type 0 where
    nil : Filters
    cons : Filter → Filters → Filters

-- Equality of values of one type (`==` of `MetaValue`), where not both are numbers.
unfoldable pub same_value : MetaValue → MetaValue → Bool
same_value (MetaValue.str a) (MetaValue.str b) = eq_bytes a b
same_value (MetaValue.bool true) (MetaValue.bool b) = b
same_value (MetaValue.bool false) (MetaValue.bool b) = not b
same_value _ _ = false

module _ (fl : FloatOps) where
  unfoldable pub as_f64 : MetaValue → Option ℕ
  as_f64 (MetaValue.int i) = some (fl.of_int i)
  as_f64 (MetaValue.float f) = some f
  as_f64 (MetaValue.str s) = none
  as_f64 (MetaValue.bool b) = none

  -- A test of two numbers, `rest` where one of them is none.
  abbrev pub on_numbers : (ℕ → ℕ → Bool) → Bool → Option ℕ → Option ℕ → Bool
  on_numbers test rest (some x) (some y) = test x y
  on_numbers test rest (some x) none = rest
  on_numbers test rest none y = rest

  unfoldable pub meta_eq : MetaValue → MetaValue → Bool
  unfolding as_f64 same_value
  meta_eq a b = on_numbers fl.eq (same_value a b) (as_f64 a) (as_f64 b)

  unfoldable pub any_eq : MetaValue → List MetaValue → Bool
  unfolding meta_eq
  any_eq v [] = false
  any_eq v (w ∷ ws) = meta_eq v w || any_eq v ws

  -- The test is of the difference to 0.0.
  unfoldable pub cmp_numeric : Option MetaValue → MetaValue → (ℕ → ℕ → Bool) → Bool
  unfolding as_f64
  cmp_numeric none value test = false
  cmp_numeric (some v) value test =
      on_numbers (λ actual expected. test (fl.minus actual expected) 0) false (as_f64 v)
        (as_f64 value)

  abbrev pub test_of : (MetaValue → Bool) → Option MetaValue → Bool
  test_of test none = false
  test_of test (some v) = test v

  unfoldable mutual
    unfolding meta_eq any_eq cmp_numeric

    pub matches : Filter → Metadata → Bool
    matches (eq key value) meta = test_of (λ v. meta_eq v value) (lookup key meta)
    matches (is_in key values) meta = test_of (λ v. any_eq v values) (lookup key meta)
    matches (gt key value) meta = cmp_numeric (lookup key meta) value fl.gt
    matches (gte key value) meta = cmp_numeric (lookup key meta) value fl.ge
    matches (lt key value) meta = cmp_numeric (lookup key meta) value fl.lt
    matches (lte key value) meta = cmp_numeric (lookup key meta) value fl.le
    matches (and filters) meta = all_match filters meta
    matches (or filters) meta = any_match filters meta
    matches (not_filter filter) meta = not (matches filter meta)

    pub all_match : Filters → Metadata → Bool
    all_match nil meta = true
    all_match (cons f fs) meta = matches f meta && all_match fs meta

    pub any_match : Filters → Metadata → Bool
    any_match nil meta = false
    any_match (cons f fs) meta = matches f meta || any_match fs meta
