-- ===== src/Cache/Read.antt =====
-- src/bridge/mlx_bridge.cpp, SegmentFromHost, MlxSumExprs and MlxSumExprsCached: aggregates over the
-- arrays of the host and over the segments of the cache, and what is read of the cache beside them.
-- A throw is an `err`.
pub mod Cuts
pub mod Errors
pub mod Refine
use Prim.Native.String.{String}
use duckdb_mlx.Common.{
  ℕ, zero, suc, Bool, true, false, List, [], ◌∷◌, ◌++◌, map, Option, none, some, ◌==◌, get_elem?,
  get_or, length, if◌then◌else◌,
}
use duckdb_mlx.Common.Int64.{Int64}
use duckdb_mlx.Common.Assoc.{find}
use duckdb_mlx.Ir.{ColumnValues, ivalues, fvalues, ColumnData, SumProgram, Filter}
use duckdb_mlx.Ir.Eval.{Backend}
use duckdb_mlx.Zone.{ZoneMap}
use duckdb_mlx.Segment.{Row, Segment, SumResult, CacheStats, Reductions, eval_segments}
use duckdb_mlx.Cache.{Cache}
use duckdb_mlx.Cache.Store.{StoredSegment, Column, Columns, size_of}

pub data Result {ℓ κ} (E : Type ℓ) (A : Type κ) : Type (ℓ ⊔ κ) where
  ok : A → Result E A
  err : E → Result E A

-- The exceptions of `MlxSumExprsCached`, with the key of their text.
pub data CacheError : Type 0 where
  cache_miss segment_mismatch : String → CacheError

-- The segment at an index, if it is there; past the end is undefined in the source.
abbrev pub at_index {ℓ} : {A : Type ℓ} → ℕ → List A → List A
at_index i xs = elim (get_elem? xs i) [ none ↦ [] | some a ↦ a ∷ [] ]

-- Indices from `i` on.
abbrev pub indices : ℕ → ℕ → List ℕ
indices i zero = []
indices i (suc n) = i ∷ indices (suc i) n

abbrev pub has_valid : {F : Type 0} → ColumnData F → Bool
has_valid col = elim (col.valid) [ none ↦ false | some _ ↦ true ]

abbrev pub valid_at : {F : Type 0} → ℕ → ColumnData F → Bool
valid_at r col = elim (col.valid) [ none ↦ true | some valid ↦ get_or valid r true ]

module _ {D F : Type 0} (B : Backend D) (array_of : F → B.Arr) where
  open B use {Arr}

  -- A row of a column's array; past the end is undefined in the source.
  abbrev pub value_at : ℕ → ColumnData F → Arr
  value_at r col = elim (col.values) [
    | ivalues vs ↦ B.int64_of (get_or vs r 0)
    | fvalues vs ↦ elim (get_elem? vs r) [ none ↦ B.int64_of 0 | some v ↦ array_of v ]
  ]

  abbrev pub row_at : List (ColumnData F) → ℕ → Row Arr
  row_at cols r = record { cols = map (value_at r) cols; valid = map (valid_at r) cols }

  unfoldable pub segment_from_host : List (ColumnData F) → ℕ → Segment Arr
  segment_from_host cols count = record {
    masked = map has_valid cols;
    rows = map (row_at cols) (indices 0 count);
  }

-- The first loop over the keys: the number of segments and their sizes, from the first column that
-- has any.
unfoldable pub check_columns :
    {D F : Type 0} → List String → ℕ → List ℕ → Columns D F → Result CacheError (ℕ × List ℕ)
check_columns [] nsegments counts store = ok (nsegments, counts)
check_columns (key ∷ keys) nsegments counts store = elim (find key store) [
  | none ↦ err (cache_miss key)
  | some col ↦ elim (nsegments == 0) [
    | true ↦
        check_columns keys (length col.segments)
          (map (λ (s : StoredSegment _ _). size_of s.column.values) col.segments) store
    | false ↦ elim (length col.segments == nsegments) [
      | true ↦ check_columns keys nsegments counts store
      | false ↦ err (segment_mismatch key)
    ]
  ]
]

-- The second loop: the columns of the keys.
unfoldable pub columns_of : {D F : Type 0} → List String → Columns D F → List (Column D F)
columns_of [] store = []
columns_of (key ∷ keys) store = elim (find key store) [
  | none ↦ columns_of keys store
  | some col ↦ col ∷ columns_of keys store
]

abbrev pub segment_columns : {D F : Type 0} → ℕ → List (Column D F) → List (ColumnData F)
segment_columns s [] = []
segment_columns s (col ∷ cols) =
    map (λ (seg : StoredSegment _ _). seg.column) (at_index s col.segments)
    ++ segment_columns s cols

abbrev pub zone_maps_of : {D F : Type 0} → Column D F → List (ZoneMap D)
zone_maps_of col = map (λ (seg : StoredSegment _ _). seg.zone_map) col.segments

unfoldable pub column_zone_maps :
    {D F : Type 0} → String → Cache (StoredSegment D F) → List (ZoneMap D)
column_zone_maps key c = elim (find key c.store) [ none ↦ [] | some col ↦ zone_maps_of col ]

-- The store and the layouts after `MlxCacheClearAll`; the counter goes on.
unfoldable pub clear_all : {C : Type 0} → Cache C → Cache C
clear_all c = record c { store = []; layouts = [] }

module _ {D F : Type 0} (B : Backend D) (R : Reductions B) (array_of : F → B.Arr) where
  open B use {Arr}

  unfoldable pub sum_exprs :
      List (ColumnData F) → ℕ → List (SumProgram D) → Filter D → List (SumResult D)
  sum_exprs cols count programs filter =
      let segments = if count == 0 then [] else segment_from_host B array_of cols count ∷ [] in
      (eval_segments B R segments programs filter none).0

  -- `segments[s]` for each index.
  abbrev pub cached_segments : List (Column D F) → ℕ → List ℕ → List (Segment Arr)
  cached_segments cols s [] = []
  cached_segments cols s (count ∷ counts) =
      segment_from_host B array_of (segment_columns s cols) count
      ∷ cached_segments cols (suc s) counts

  -- The results with the statistics that `MlxCacheLastStats` then reads.
  unfoldable pub sum_exprs_cached :
      List String
      → List (SumProgram D)
      → Filter D
      → Cache (StoredSegment D F)
      → Result CacheError (List (SumResult D) × CacheStats)
  sum_exprs_cached keys programs filter c = elim (check_columns keys 0 [] c.store) [
    | err e ↦ err e
    | ok (nsegments, counts) ↦
        let cols = columns_of keys c.store in
        ok (
          eval_segments B R (cached_segments cols 0 counts) programs filter
            (some (map zone_maps_of cols)))
  ]
