-- ===== src/Groupby/Cached.antt =====
-- src/bridge/mlx_bridge.cpp, MlxGroupbyCachedSafe and MlxGroupbySumCached: when a grouping may be read from
-- the column cache, and the reading, over the columns of the cache and the accumulators. The grouping of
-- the concatenated segments is an argument.
pub mod Exact
pub mod Safe
use Prim.Native.String.{String}
use mathlib.Core.Bool.{false≢true}
use duckdb_mlx.Common.{
  ◌≡◌, refl, Bool, true, false, not, ◌&&◌, ◌||◌, List, [], ◌∷◌, map, none, some, pos, ◌==◌, length,
  Option-cases, Bool-cases, inl, inr, ◌⊎◌, ℤ, if◌then◌else◌,
}
use duckdb_mlx.Common.Assoc.{find}
use duckdb_mlx.Zone.{ZoneMap}
use duckdb_mlx.Prune.{DoubleOrder}
use duckdb_mlx.Common.Int64.{Int64}
use duckdb_mlx.Segment.{is_empty}
use duckdb_mlx.Cache.{CachedColumn}
use duckdb_mlx.Cache.Store.{StoredSegment}
use duckdb_mlx.Cache.Read.{Result, ok, err}
use duckdb_mlx.Groupby.{GroupbyRow}
use duckdb_mlx.Groupby.Accumulator.{
  usable, dense_groupby_key, DenseStore, dense_ready, dense_try_read,
}

pub data SumCachedError : Type 0 where
  cache_miss segment_mismatch : SumCachedError

abbrev pub Columns : Type 0 → Type 0 → Type 0
Columns D F = List (String × CachedColumn (StoredSegment D F))

-- 2 ^ 24 and its negative, as int64 patterns.
abbrev pub fp32_exact : Int64
fp32_exact = 16777216

abbrev pub minus_fp32_exact : Int64
minus_fp32_exact = 18446744073692774400

-- `of_int` is the cast of an int64 to double. No zone map has a NULL or bounds beyond 2 ^ 24.
unfoldable pub keys_exact : {D : Type 0} → DoubleOrder D → (Int64 → D) → List (ZoneMap D) → Bool
keys_exact O of_int [] = true
keys_exact O of_int (zm ∷ zms) =
    let rest = keys_exact O of_int zms in
    if zm.has_null
      || O.lt_d zm.min_val (of_int minus_fp32_exact)
      || O.lt_d (of_int fp32_exact) zm.max_val
    then false
    else rest

unfoldable pub no_nulls : {D : Type 0} → List (ZoneMap D) → Bool
no_nulls [] = true
no_nulls (zm ∷ zms) = let rest = no_nulls zms in if zm.has_null then false else rest

module _ {D F : Type 0} where
  -- The columns have the same population and the same number of segments.
  abbrev pub alike : CachedColumn (StoredSegment D F) → CachedColumn (StoredSegment D F) → Bool
  alike g v = (g.population == v.population) && (length g.segments == length v.segments)

  abbrev pub zone_maps : CachedColumn (StoredSegment D F) → List (ZoneMap D)
  zone_maps c = map (λ s. s.zone_map) c.segments

  unfoldable pub columns_exact :
      DoubleOrder D
      → (Int64 → D)
      → CachedColumn (StoredSegment D F)
      → CachedColumn (StoredSegment D F)
      → Bool
  columns_exact O of_int g v =
      if is_empty (zone_maps g)
      then false
      else if not (keys_exact O of_int (zone_maps g))
      then false
      else no_nulls (zone_maps v)

  unfoldable pub groupby_cached_safe :
      {V : Type 0}
      → DoubleOrder D
      → (Int64 → D)
      → String
      → String
      → Columns D F
      → DenseStore V
      → Bool
  groupby_cached_safe O of_int group_key value_key store accs = elim (find group_key store) [
    | none ↦ false
    | some g ↦ elim (find value_key store) [
      | none ↦ false
      | some v ↦
          if not (alike g v)
          then false
          else if dense_ready group_key value_key (pos g.population) accs
          then true
          else columns_exact O of_int g v
    ]
  ]

  unfoldable pub groupby_sum_cached :
      {V : Type 0}
      → (List (StoredSegment D F) → List (StoredSegment D F) → List (GroupbyRow V))
      → String
      → String
      → Columns D F
      → DenseStore V
      → Result SumCachedError (List (GroupbyRow V))
  groupby_sum_cached by_arrays group_key value_key store accs = elim (find group_key store) [
    | none ↦ err cache_miss
    | some g ↦ elim (find value_key store) [
      | none ↦ err cache_miss
      | some v ↦
          if not (alike g v)
          then err segment_mismatch
          else elim (dense_try_read group_key value_key (pos g.population) accs) [
            | some rows ↦ ok rows
            | none ↦ ok (by_arrays g.segments v.segments)
          ]
    ]
  ]
