-- ===== src/Tests/Cutting.antt =====
-- A column of five rows that a sink stores in a table whose other column has one segment of three rows.
use duckdb_mlx.Common.{
  total, ℕ, ◌<◌, ◌≡◌, ◌++◌, refl, none, true, List, [], ◌∷◌, All, drop, length, arith,
}
use duckdb_mlx.Ir.{ColumnData, ivalues}
use duckdb_mlx.Zone.{Zoned, int64_zoned}
use duckdb_mlx.Cache.{Cache}
use duckdb_mlx.Cache.Store.{
  StoredSegment, column_of, zone_map_of, cache_store_segment, canonical_segment_sizes, stored_sizes,
  table_prefix, up_to_hash,
}
use duckdb_mlx.Cache.Store.Rows.{here}
use duckdb_mlx.Cache.Store.Cuts.{IsCutAt, segment_sizes, cache_store_segment-IsCutAt}

abbrev zoned : Zoned ℕ ℕ
zoned = int64_zoned (λ v. v)

abbrev three_rows : ColumnData ℕ
three_rows = record { values = ivalues (1 ∷ 7 ∷ 4 ∷ []); valid = none }

abbrev five_rows : ColumnData ℕ
five_rows = record { values = ivalues (2 ∷ 3 ∷ 5 ∷ 8 ∷ 9 ∷ []); valid = none }

abbrev segmented : Cache (StoredSegment ℕ ℕ)
segmented = record {
  store =
      (
        "t#0",
        record {
          segments =
              record { column = three_rows; zone_map = zone_map_of (λ v. v) zoned 0 three_rows }
              ∷ [];
          rows = 3;
          population = 1;
        },
      )
      ∷ [];
  layouts = [];
  counter = 1;
}

sizes_positive :
    All
      (λ size. 0 < size)
      (canonical_segment_sizes (λ v. v) zoned 0 (table_prefix ("t#1" ∷ [])) segmented)
unfolding canonical_segment_sizes stored_sizes table_prefix up_to_hash
sizes_positive = (omega arith, tt)

cache_store_segment-IsCutAt_example :
    (parts : List ℕ) × IsCutAt
      (drop
        (length (column_of "t#1" segmented.store).segments)
        (canonical_segment_sizes (λ v. v) zoned 0 (table_prefix ("t#1" ∷ [])) segmented))
      parts
    × (total parts ≡ 5)
    × (segment_sizes
          (λ v. v)
          zoned
          0
          (column_of "t#1"
            (cache_store_segment
              (λ v. v)
              zoned
              0
              1
              ("t#1" ∷ [])
              (true ∷ [])
              (five_rows ∷ [])
              5
              segmented).store)
        ≡ segment_sizes (λ v. v) zoned 0 (column_of "t#1" segmented.store) ++ parts)
cache_store_segment-IsCutAt_example =
    cache_store_segment-IsCutAt (λ v. v) zoned 0 "t#1" five_rows ("t#1" ∷ []) (true ∷ [])
      (five_rows ∷ []) 1 5 (here [] [] [] tt) (refl, tt) segmented sizes_positive (refl, tt)
