-- ===== src/Tests/Accumulated.antt =====
-- An accumulator with a table, a batch with a NULL, and a grouping that is read from the cache.
use mathlib.Core.Option.{some-injective, none-ne-some}
use duckdb_mlx.Common.{
  ℕ, zero, suc, ◌≡◌, refl, ap, ◌∙◌, Bool, true, false, List, [], ◌∷◌, none, some, pos, ◌==◌,
  get_elem?, arith, ◌||◌, if◌then◌else◌,
}
use duckdb_mlx.Common.Int64.{Int64, int64_min, int64_max, lt_i64, le_i64, min_i64, max_i64}
use duckdb_mlx.Common.Assoc.{find}
use duckdb_mlx.Ir.{ColumnData, ivalues, fvalues}
use duckdb_mlx.Prune.{DoubleOrder}
use duckdb_mlx.Zone.{Zoned, int64_zoned, compute_zone_map, zone_of_scan, scan_loop, scan_step}
use duckdb_mlx.Cache.{CachedColumn}
use duckdb_mlx.Cache.Store.{StoredSegment, zone_map_of}
use duckdb_mlx.Cache.Read.{ok}
use duckdb_mlx.Groupby.{GroupbyRow}
use duckdb_mlx.Groupby.Accumulator.{
  DenseAcc, DenseStore, ArrayOps, dense_groupby_key, dense_accumulate_columns, dense_ready,
  dense_try_read, usable,
}
use duckdb_mlx.Groupby.Accumulator.Dropped.{FindsLeast, dense_accumulate_columns-dropped}
use duckdb_mlx.Groupby.Cached.{
  Columns, columns_exact, keys_exact, no_nulls, groupby_cached_safe, groupby_sum_cached,
}
use duckdb_mlx.Groupby.Cached.Exact.{KeepsBounds}
use duckdb_mlx.Groupby.Cached.Safe.{IsAnswer, groupby_cached_safe-groupby_sum_cached}

abbrev marked : List Int64 → Bool
marked [] = false
marked (k ∷ ks) = (k == int64_min) || marked ks

abbrev least_of : List Int64 → Int64
least_of [] = 0
least_of (k ∷ ks) = min_i64 k (least_of ks)

abbrev greatest_of : List Int64 → Int64
greatest_of [] = 0
greatest_of (k ∷ ks) = max_i64 k (greatest_of ks)

abbrev ops : ArrayOps ℕ
ops = record {
  zero_f = 0;
  min_of = λ keys. if marked keys then int64_min else least_of keys;
  max_of = greatest_of;
  scatter_sums = λ t idx vals. some t;
  scatter_counts = λ t idx. some t;
  place_sums = λ n off t. some t;
  place_counts = λ n off t. some t;
}

or_true : (b : Bool) → (b || true) ≡ true
or_true true = refl
or_true false = refl

marked_at : (keys : List Int64) (i : ℕ) → get_elem? keys i ≡ some int64_min → marked keys ≡ true
marked_at [] i h = absurd (none-ne-some _ h)
marked_at (k ∷ keys) zero h = ap (λ x. (x == int64_min) || marked keys) (some-injective _ _ h)
marked_at (k ∷ keys) (suc i) h =
    ap (λ b. (k == int64_min) || b) (marked_at keys i h) ∙ or_true (k == int64_min)

ops-FindsLeast : FindsLeast ops.min_of
ops-FindsLeast keys i h = ap (λ b. if b then int64_min else least_of keys) (marked_at keys i h)

abbrev acc : DenseAcc ℕ
acc = record {
  population = pos 4;
  kmin = 7;
  sums = 20 ∷ 0 ∷ 5 ∷ [];
  counts = 2 ∷ 0 ∷ 1 ∷ [];
  ready = true;
}

abbrev accs : DenseStore ℕ
accs = (dense_groupby_key "t#0" "t#1", acc) ∷ []

accs_found : find (dense_groupby_key "t#0" "t#1") accs ≡ some acc
unfolding dense_groupby_key
accs_found = refl

abbrev keys : ColumnData ℕ
keys = record { values = ivalues (7 ∷ 8 ∷ 9 ∷ []); valid = some (true ∷ false ∷ true ∷ []) }

abbrev values : ColumnData ℕ
values = record { values = fvalues (1 ∷ 2 ∷ 6 ∷ []); valid = none }

dense_accumulate_columns-dropped_example :
    (store' : DenseStore ℕ) × (dense_accumulate_columns
        (λ v. v)
        (λ v. v)
        0
        ops
        "t#0"
        "t#1"
        (pos 4)
        keys
        values
        3
        accs
      ≡ some store')
    × (dense_ready "t#0" "t#1" (pos 4) store' ≡ dense_ready "t#0" "t#1" (pos 4) accs)
    × (dense_try_read "t#0" "t#1" (pos 4) store' ≡ dense_try_read "t#0" "t#1" (pos 4) accs)
dense_accumulate_columns-dropped_example =
    dense_accumulate_columns-dropped (λ v. v) (λ v. v) 0 ops "t#0" "t#1" (pos 4) keys values 3 accs
      acc 1 ops-FindsLeast (omega arith) refl accs_found refl

-- Doubles as int64 patterns, in the signed order.
abbrev order : DoubleOrder ℕ
order = record { lt_d = lt_i64; le_d = le_i64; eq_d = λ a b. a == b }

abbrev same : Int64 → ℕ
same v = v

abbrev ints : Zoned ℕ Int64
ints = int64_zoned same

min_i64-lt_i64 :
    (k a b : Int64) → lt_i64 (min_i64 a b) k ≡ false → (lt_i64 a k ≡ false) × (lt_i64 b k ≡ false)
min_i64-lt_i64 k a b h = ground (arith, h)

max_i64-lt_i64 :
    (k a b : Int64) → lt_i64 k (max_i64 a b) ≡ false → (lt_i64 k a ≡ false) × (lt_i64 k b ≡ false)
max_i64-lt_i64 k a b h = ground (arith, h)

own_pattern : (a : ℕ) → (a == a) ≡ true
own_pattern a = ground arith

order-KeepsBounds : KeepsBounds order ints
order-KeepsBounds = record {
  largest_number = own_pattern int64_max;
  lowest_number = own_pattern int64_min;
  min_number = λ a b h. own_pattern (min_i64 a b);
  max_number = λ a b h. own_pattern (max_i64 a b);
  not_below = λ k a b n h. min_i64-lt_i64 k a b h;
  not_above = λ k a b n h. max_i64-lt_i64 k a b h;
}

abbrev cached : ColumnData ℕ → CachedColumn (StoredSegment ℕ ℕ)
cached col = record {
  segments = record { column = col; zone_map = zone_map_of same ints 0 col } ∷ [];
  rows = 3;
  population = 3;
}

abbrev group_column : ColumnData ℕ
group_column = record { values = ivalues (7 ∷ 7 ∷ 9 ∷ []); valid = none }

abbrev columns : Columns ℕ ℕ
columns = ("t#0", cached group_column) ∷ ("t#1", cached values) ∷ []

is_safe : groupby_cached_safe order same "t#0" "t#1" columns accs ≡ true
unfolding groupby_cached_safe dense_ready usable columns_exact keys_exact no_nulls dense_groupby_key
    zone_map_of compute_zone_map zone_of_scan scan_loop scan_step
is_safe = refl

abbrev two_rows : List (GroupbyRow ℕ)
two_rows = record { key = 7; sum = 3; count = 2 } ∷ record { key = 9; sum = 6; count = 1 } ∷ []

groupby_cached_safe-groupby_sum_cached_example :
    (g : CachedColumn (StoredSegment ℕ ℕ)) × (v : CachedColumn (StoredSegment ℕ ℕ)) × (find "t#0"
        columns
      ≡ some g)
    × (find "t#1" columns ≡ some v)
    × ((rows : List (GroupbyRow ℕ)) × (groupby_sum_cached
            (λ ks vs. two_rows)
            "t#0"
            "t#1"
            columns
            accs
          ≡ ok rows)
        × IsAnswer order same ints 0 order-KeepsBounds order-KeepsBounds
            (λ ks vs. two_rows)
            "t#0"
            "t#1"
            columns
            accs
            g
            v
            rows)
groupby_cached_safe-groupby_sum_cached_example =
    groupby_cached_safe-groupby_sum_cached order same ints 0 order-KeepsBounds order-KeepsBounds
      (λ ks vs. two_rows) "t#0" "t#1" columns accs ((refl, tt), ((refl, tt), tt)) is_safe
