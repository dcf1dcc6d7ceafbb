-- ===== src/Tests/Storing.antt =====
-- A column of three rows, one of them NULL, that a sink stores in an empty cache and a query reads.
use Prim.Native.String.{String}
use duckdb_mlx.Common.{
  ℕ, ◌<◌, ◌≡◌, ◌++◌, refl, map, inr, none, true, false, List, [], ◌∷◌, some, All,
}
use duckdb_mlx.Ir.{ColumnData, ivalues}
use duckdb_mlx.Segment.{SumResult, CacheStats}
use duckdb_mlx.Zone.{Zoned, int64_zoned, compute_zone_map, zone_of_scan, scan_loop, scan_step}
use duckdb_mlx.Cache.Steps.{Reachable, empty, next, stores, drops, Reachable-IsZonedStore}
use duckdb_mlx.Cache.{Cache, drop_table, cache_has, has_from, is_present}
use duckdb_mlx.Cache.Store.{
  StoredSegment, slice_column, column_of, zone_map_of, cache_store_segment, canonical_segment_sizes,
  stored_sizes, table_prefix, up_to_hash,
}
use duckdb_mlx.Cache.Store.Rows.{column_rows, stored_rows, here}
use duckdb_mlx.Cache.Store.Correct.{
  IsZonedStore, cache_store_segment-stored_rows, cache_store_segment-IsZonedStore,
}
use duckdb_mlx.Cache.Read.{ok, sum_exprs_cached, check_columns}
use duckdb_mlx.Cache.Read.Errors.{
  HasSegments, cache_has-sum_exprs_cached, sum_exprs_cached-HasSegments,
}
use duckdb_mlx.Segment.{eval_segments, segment_pruned}
use duckdb_mlx.Segment.Exact.{exact, SkipsSafely}
use mathlib.Core.Bool.{false≢true}
use duckdb_mlx.Prune.{
  build_segment_prune_preds, parse_preds, parse_cmp, segment_should_prune, zone_of, test_pred,
  excludes, parse_more,
}
use duckdb_mlx.Cache.Read.{columns_of, zone_maps_of}
use duckdb_mlx.Cache.Read.Refine.{HoldCuts, sum_exprs_cached-sum_exprs}
use duckdb_mlx.Cache.Read.{sum_exprs}
use duckdb_mlx.Cache.Read.Cuts.{cut, eval_segments-sum_exprs}
use duckdb_mlx.Tests.Machine.{machine, reductions, reductions-IntReductions}
use duckdb_mlx.Tests.Engine.{below_five, sum_column}

abbrev zoned : Zoned ℕ ℕ
zoned = int64_zoned (λ v. v)

abbrev empty_cache : Cache (StoredSegment ℕ ℕ)
empty_cache = record { store = []; layouts = []; counter = 0 }

abbrev column : ColumnData ℕ
column = record { values = ivalues (1 ∷ 7 ∷ 4 ∷ []); valid = some (true ∷ true ∷ false ∷ []) }

abbrev keys : List String
keys = "t#0" ∷ []

abbrev stored_cache : Cache (StoredSegment ℕ ℕ)
stored_cache = cache_store_segment (λ v. v) zoned 0 1 keys (true ∷ []) (column ∷ []) 3 empty_cache

no_sizes :
    All
      (λ size. 0 < size)
      (canonical_segment_sizes (λ v. v) zoned 0 (table_prefix keys) empty_cache)
unfolding canonical_segment_sizes stored_sizes table_prefix up_to_hash
no_sizes = tt

cache_store_segment-stored_rows_example :
    stored_rows (λ v. v) zoned 0 (column_of "t#0" stored_cache.store)
    ≡ stored_rows (λ v. v) zoned 0 (column_of "t#0" empty_cache.store) ++ column_rows column
cache_store_segment-stored_rows_example =
    cache_store_segment-stored_rows (λ v. v) zoned 0 1 keys (true ∷ []) (column ∷ []) 3 "t#0" column
      empty_cache (here [] [] [] tt) (refl, refl) no_sizes

stored_cache-IsZonedStore : IsZonedStore (λ v. v) zoned 0 stored_cache.store
stored_cache-IsZonedStore =
    cache_store_segment-IsZonedStore (λ v. v) zoned 0 1 keys (true ∷ []) (column ∷ []) 3 empty_cache
      tt

abbrev segment : StoredSegment ℕ ℕ
segment = record { column = column; zone_map = zone_map_of (λ v. v) zoned 0 column }

abbrev two_columns : Cache (StoredSegment ℕ ℕ)
two_columns = record {
  store =
      ("t#0", record { segments = segment ∷ []; rows = 3; population = 1 })
      ∷ ("t#1", record { segments = segment ∷ []; rows = 3; population = 1 })
      ∷ [];
  layouts = [];
  counter = 1;
}

two_columns_has : cache_has ("t#0" ∷ "t#1" ∷ []) 3 two_columns ≡ true
unfolding cache_has has_from is_present
two_columns_has = refl

cache_has-sum_exprs_cached_example :
    (r : List (SumResult ℕ) × CacheStats) × (sum_exprs_cached machine reductions
        (λ v. v)
        ("t#0" ∷ "t#1" ∷ [])
        (sum_column ∷ [])
        below_five
        two_columns
      ≡ ok r)
cache_has-sum_exprs_cached_example =
    cache_has-sum_exprs_cached machine reductions (λ v. v) ("t#0" ∷ "t#1" ∷ []) 3 (sum_column ∷ [])
      below_five two_columns two_columns_has

two_columns_read :
    (r : List (SumResult ℕ) × CacheStats) × (sum_exprs_cached machine reductions
        (λ v. v)
        ("t#0" ∷ "t#1" ∷ [])
        (sum_column ∷ [])
        below_five
        two_columns
      ≡ ok r)
unfolding sum_exprs_cached check_columns
two_columns_read = (_, refl)

sum_exprs_cached-HasSegments_example : HasSegments 1 ("t#1" ∷ []) two_columns.store
sum_exprs_cached-HasSegments_example =
    sum_exprs_cached-HasSegments machine reductions (λ v. v) "t#0" ("t#1" ∷ []) (sum_column ∷ [])
      below_five two_columns (record { segments = segment ∷ []; rows = 3; population = 1 })
      (two_columns_read.0) refl refl (two_columns_read.1)

eval_segments-sum_exprs_example :
    map
      (exact machine reductions)
      (eval_segments machine reductions
        (cut machine (λ v. v) (column ∷ []) 0 (2 ∷ 1 ∷ []))
        (sum_column ∷ [])
        below_five
        none).0
    ≡ map
        (exact machine reductions)
        (sum_exprs machine reductions (λ v. v) (column ∷ []) 3 (sum_column ∷ []) below_five)
eval_segments-sum_exprs_example =
    eval_segments-sum_exprs machine reductions (λ v. v) (column ∷ []) 3 (2 ∷ 1 ∷ [])
      (sum_column ∷ []) below_five refl reductions-IntReductions (λ _. (refl, refl), tt) (inr refl)

abbrev part : ℕ → ℕ → StoredSegment ℕ ℕ
part o n = record {
  column = slice_column o n column;
  zone_map = zone_map_of (λ v. v) zoned 0 (slice_column o n column);
}

abbrev cut_cache : Cache (StoredSegment ℕ ℕ)
cut_cache = record {
  store = ("t#0", record { segments = part 0 2 ∷ part 2 1 ∷ []; rows = 3; population = 1 }) ∷ [];
  layouts = [];
  counter = 1;
}

cut_cache-HoldCuts : HoldCuts (2 ∷ 1 ∷ []) (columns_of keys cut_cache.store) (column ∷ [])
unfolding columns_of
cut_cache-HoldCuts = (refl, tt)

cut_cache_check : check_columns keys 0 [] cut_cache.store ≡ ok (2, 2 ∷ 1 ∷ [])
unfolding check_columns
cut_cache_check = refl

cut_cache-SkipsSafely :
    SkipsSafely machine reductions below_five
      (some (map zone_maps_of (columns_of keys cut_cache.store)))
      0
      (cut machine (λ v. v) (column ∷ []) 0 (2 ∷ 1 ∷ []))
unfolding segment_pruned segment_should_prune build_segment_prune_preds parse_preds parse_cmp
    parse_more zone_of test_pred excludes columns_of zone_map_of compute_zone_map zone_of_scan
    scan_loop scan_step
cut_cache-SkipsSafely = (λ q. absurd (false≢true q), (λ q. absurd (false≢true q), tt))

sum_exprs_cached-sum_exprs_example :
    (r : List (SumResult ℕ) × CacheStats) × (sum_exprs_cached machine reductions
        (λ v. v)
        keys
        (sum_column ∷ [])
        below_five
        cut_cache
      ≡ ok r)
    × (map (exact machine reductions) r.0
        ≡ map
            (exact machine reductions)
            (sum_exprs machine reductions (λ v. v) (column ∷ []) 3 (sum_column ∷ []) below_five))
sum_exprs_cached-sum_exprs_example =
    sum_exprs_cached-sum_exprs machine reductions (λ v. v) keys (column ∷ []) 3 2 (2 ∷ 1 ∷ [])
      (sum_column ∷ []) below_five cut_cache cut_cache-HoldCuts cut_cache_check refl
      reductions-IntReductions (λ _. (refl, refl), tt) (inr refl) cut_cache-SkipsSafely

-- A store in the empty cache, and then a drop.
reached : Reachable (λ v. v) zoned 0 (drop_table "t#" stored_cache)
reached =
    next stored_cache (drop_table "t#" stored_cache)
      (next empty_cache stored_cache empty (stores 1 keys (true ∷ []) (column ∷ []) 3 empty_cache))
      (drops "t#" stored_cache)

Reachable-IsZonedStore_example : IsZonedStore (λ v. v) zoned 0 (drop_table "t#" stored_cache).store
Reachable-IsZonedStore_example =
    Reachable-IsZonedStore (λ v. v) zoned 0 (drop_table "t#" stored_cache) reached
