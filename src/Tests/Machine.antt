-- ===== src/Tests/Machine.antt =====
-- An instance of the parameters: arrays are single int64 patterns, and a Boolean is 0 or 1.
use duckdb_mlx.Common.{
  ℕ, ◌+◌, ◌-◌, ◌*◌, ◌/◌, ◌%◌, ◌^◌, ◌≡◌, refl, Bool, true, false, not, ◌&&◌, ◌||◌, List, [], ◌∷◌,
  map, arith, All, indicator, ◌==◌, if◌then◌else◌, ltb, leb,
}
use duckdb_mlx.Common.Int64.{
  Int64, IsInt64, lt_i64, le_i64, add_i64, min_i64, max_i64, int64_min, int64_max, fold_i64,
  fold_i64-IsInt64, add_i64-IsMerge, min_i64-IsMerge, max_i64-IsMerge,
}
use duckdb_mlx.Ir.Eval.{Backend}
use duckdb_mlx.Prune.Sound.{ComparesInts}
use duckdb_mlx.Segment.{Reductions}
use duckdb_mlx.Segment.Exact.{IntReductions}

abbrev is_true : ℕ → Bool
is_true a = not (a == 0)

abbrev pub machine : Backend ℕ
machine = record {
  Arr = ℕ;
  astype_int32 = λ a. a % 2 ^ 32;
  astype_float32 = λ a. a;
  int32_of = λ i. i % 2 ^ 32;
  int64_of = λ i. i;
  float32_of_int = λ i. i;
  float32_of = λ d. d;
  negative = λ a. 2 ^ 64 - a;
  sine = λ a. a;
  cosine = λ a. a;
  square_root = λ a. a;
  absolute = λ a. a;
  logical_not = λ a. indicator (not (is_true a));
  plus = add_i64;
  subtract = λ a b. (a + 2 ^ 64 - b) % 2 ^ 64;
  multiply = λ a b. (a * b) % 2 ^ 64;
  divide = λ a b. a / b;
  less = λ a b. indicator (lt_i64 a b);
  less_equal = λ a b. indicator (le_i64 a b);
  greater = λ a b. indicator (lt_i64 b a);
  greater_equal = λ a b. indicator (le_i64 b a);
  equal = λ a b. indicator (a == b);
  not_equal = λ a b. indicator (not (a == b));
  logical_and = λ a b. indicator (is_true a && is_true b);
  logical_or = λ a b. indicator (is_true a || is_true b);
}

abbrev item : ℕ → Int64
item a = a % 2 ^ 64

abbrev pub reductions : Reductions machine
reductions = record {
  truth = is_true;
  sum_of = λ xs. fold_i64 add_i64 0 (map item xs);
  min_of = λ xs. fold_i64 min_i64 int64_max (map item xs);
  max_of = λ xs. fold_i64 max_i64 int64_min (map item xs);
  item_i64 = item;
  item_float = λ a. a;
  infinity = 2 ^ 63;
  negative_infinity = 0;
  zero_double = 0;
  of_int = λ i. i;
  of_count = λ n. n;
  add_d = λ a b. a + b;
  min_d = λ a b. if ltb a b then a else b;
  max_d = λ a b. if ltb a b then b else a;
  div_d = λ a b. a / b;
  order = record { lt_d = ltb; le_d = leb; eq_d = ◌==◌ };
}

map-item-IsInt64 : (xs : List ℕ) → All IsInt64 (map item xs)
map-item-IsInt64 [] = tt
map-item-IsInt64 (x ∷ xs) = (omega arith, map-item-IsInt64 xs)

item-IsInt64 : (a : ℕ) → IsInt64 a → item a ≡ a
item-IsInt64 a h = omega arith

pub reductions-IntReductions : IntReductions reductions
reductions-IntReductions = record {
  item_range = λ a. omega arith;
  item_constant = item-IsInt64;
  item_sum = λ xs. item-IsInt64 _ (fold_i64-IsInt64 add_i64-IsMerge _ (map-item-IsInt64 xs));
  item_min = λ xs. item-IsInt64 _ (fold_i64-IsInt64 min_i64-IsMerge _ (map-item-IsInt64 xs));
  item_max = λ xs. item-IsInt64 _ (fold_i64-IsInt64 max_i64-IsMerge _ (map-item-IsInt64 xs));
}

is_true-indicator : (b : Bool) → is_true (indicator b) ≡ b
is_true-indicator true = refl
is_true-indicator false = refl

pub machine-ComparesInts : ComparesInts machine is_true
machine-ComparesInts = record {
  less_lem = λ a b. is_true-indicator _;
  less_equal_lem = λ a b. is_true-indicator _;
  greater_lem = λ a b. is_true-indicator _;
  greater_equal_lem = λ a b. is_true-indicator _;
  equal_lem = λ a b. is_true-indicator _;
  not_equal_lem = λ a b. is_true-indicator _;
}
