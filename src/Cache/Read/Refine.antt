-- ===== src/Cache/Read/Refine.antt =====
-- A table whose cached columns hold the cuts of the columns of a sink: reading the cache is evaluating
-- the sink's rows.
use Prim.Native.String.{String}
use duckdb_mlx.Common.{
  total, ℕ, zero, suc, ◌+◌, ◌≡◌, refl, sym, ap, ◌∙◌, List, [], ◌∷◌, ◌++◌, map, none, some, length,
  length-append, get_elem?-append_length, arith, All,
}
use mathlib.Core.List.{append_assoc}
use duckdb_mlx.Ir.{ColumnData, SumProgram, Filter}
use duckdb_mlx.Ir.Eval.{Backend}
use duckdb_mlx.Zone.{ZoneMap}
use duckdb_mlx.Segment.{Reductions, SumResult, CacheStats, eval_segments}
use duckdb_mlx.Segment.Exact.{
  IntReductions, IsExact, IsRowwise, SkipsSafely, exact, eval_segments-exact,
}
use duckdb_mlx.Cache.{Cache}
use duckdb_mlx.Cache.Store.{StoredSegment, Column, slice_column}
use duckdb_mlx.Cache.Read.{
  ok, at_index, segment_columns, cached_segments, zone_maps_of, columns_of, check_columns,
  segment_from_host, sum_exprs_cached, sum_exprs,
}
use duckdb_mlx.Cache.Read.Cuts.{cut, never_pruned, eval_segments-sum_exprs}

abbrev pub parts_of : {D F : Type 0} → Column D F → List (ColumnData F)
parts_of col = map (λ (s : StoredSegment _ _). s.column) col.segments

-- A column cut at the sizes, from row `o` on.
abbrev pub slices : {F : Type 0} → ColumnData F → ℕ → List ℕ → List (ColumnData F)
slices col o [] = []
slices col o (n ∷ sizes) = slice_column o n col ∷ slices col (o + n) sizes

-- Cached columns that hold the columns, cut at the sizes.
abbrev pub HoldCuts : {D F : Type 0} → List ℕ → List (Column D F) → List (ColumnData F) → Type 0
HoldCuts sizes [] [] = Unit
HoldCuts sizes (c ∷ cached) (col ∷ cols) =
    (parts_of c ≡ slices col 0 sizes) × HoldCuts sizes cached cols
HoldCuts sizes _ _ = ⊥

-- The segments from index `s` on are the cuts from row `o` on.
abbrev HoldFrom : {D F : Type 0} → ℕ → ℕ → List ℕ → List (Column D F) → List (ColumnData F) → Type 0
HoldFrom s o sizes [] [] = Unit
HoldFrom s o sizes (c ∷ cached) (col ∷ cols) =
    ((done : List (ColumnData _)) × (length done ≡ s) × (parts_of c ≡ done ++ slices col o sizes))
    × HoldFrom s o sizes cached cols
HoldFrom s o sizes _ _ = ⊥

at_index-append :
    {A : Type 0} (done rest : List A) (a : A) (s : ℕ)
    → length done ≡ s
    → at_index s (done ++ a ∷ rest) ≡ a ∷ []
at_index-append done rest a s h =
    ap (λ s. at_index s (done ++ a ∷ rest)) (sym h)
    ∙ ap (λ e. elim e [ none ↦ [] | some a ↦ a ∷ [] ]) (get_elem?-append_length done rest a)

module _ {D F : Type 0} where
  HoldCuts-HoldFrom :
      (sizes : List ℕ) (cached : List (Column D F)) (cols : List (ColumnData F))
      → HoldCuts sizes cached cols
      → HoldFrom 0 0 sizes cached cols
  HoldCuts-HoldFrom sizes [] [] h = tt
  HoldCuts-HoldFrom sizes [] (col ∷ cols) h = h
  HoldCuts-HoldFrom sizes (c ∷ cached) [] h = h
  HoldCuts-HoldFrom sizes (c ∷ cached) (col ∷ cols) (h, hs) =
      (([], refl, h), HoldCuts-HoldFrom sizes cached cols hs)

  HoldFrom-next :
      (s o n : ℕ) (sizes : List ℕ) (cached : List (Column D F)) (cols : List (ColumnData F))
      → HoldFrom s o (n ∷ sizes) cached cols
      → HoldFrom (suc s) (o + n) sizes cached cols
  HoldFrom-next s o n sizes [] [] h = tt
  HoldFrom-next s o n sizes [] (col ∷ cols) h = h
  HoldFrom-next s o n sizes (c ∷ cached) [] h = h
  HoldFrom-next s o n sizes (c ∷ cached) (col ∷ cols) ((done, long, e), hs) = (
    (
      done ++ slice_column o n col ∷ [],
      omega (arith, long, length-append done (slice_column o n col ∷ [])),
      e ∙ sym (append_assoc done (slice_column o n col ∷ []) (slices col (o + n) sizes)),
    ),
    HoldFrom-next s o n sizes cached cols hs,
  )

  parts-at_index :
      (s : ℕ) (segs : List (StoredSegment D F))
      → map (λ (s : StoredSegment D F). s.column) (at_index s segs)
        ≡ at_index s (map (λ (s : StoredSegment D F). s.column) segs)
  parts-at_index s [] = refl
  parts-at_index zero (x ∷ segs) = refl
  parts-at_index (suc s) (x ∷ segs) = parts-at_index s segs

  segment_columns-slice :
      (s o n : ℕ) (sizes : List ℕ) (cached : List (Column D F)) (cols : List (ColumnData F))
      → HoldFrom s o (n ∷ sizes) cached cols
      → segment_columns s cached ≡ map (slice_column o n) cols
  segment_columns-slice s o n sizes [] [] h = refl
  segment_columns-slice s o n sizes [] (col ∷ cols) h = absurd h
  segment_columns-slice s o n sizes (c ∷ cached) [] h = absurd h
  segment_columns-slice s o n sizes (c ∷ cached) (col ∷ cols) ((done, long, e), hs) =
      ap (λ ps. ps ++ segment_columns s cached)
        (parts-at_index s c.segments
          ∙ ap (at_index s) e
          ∙ at_index-append done (slices col (o + n) sizes) (slice_column o n col) s long)
      ∙ ap (◌∷◌ (slice_column o n col)) (segment_columns-slice s o n sizes cached cols hs)

module _ {D F : Type 0} (B : Backend D) (R : Reductions B) (array_of : F → B.Arr) where
  cached_segments-cut :
      (s o : ℕ) (sizes : List ℕ) (cached : List (Column D F)) (cols : List (ColumnData F))
      → HoldFrom s o sizes cached cols
      → cached_segments B R array_of cached s sizes ≡ cut B array_of cols o sizes
  cached_segments-cut s o [] cached cols h = refl
  cached_segments-cut s o (n ∷ sizes) cached cols h = λ j.
      segment_from_host B array_of (segment_columns-slice s o n sizes cached cols h j) n
      ∷ cached_segments-cut (suc s) (o + n) sizes cached cols
          (HoldFrom-next s o n sizes cached cols h) j

  -- Reading the cache is evaluating the rows of the host: where the cached columns of the keys
  -- hold the host's columns, cut at the same sizes, MlxSumExprsCached returns results, and their
  -- int64 values and counts are those of MlxSumExprs. Conditions: the sizes add up to the number
  -- of rows, the keys pass the check of their segments with those sizes, MLX reduces int64 arrays
  -- as stated by IntReductions, the filter and each program but the counts read a column, and a
  -- segment that its zone maps skip holds no row that passes the filter.
  pub sum_exprs_cached-sum_exprs :
      (keys : List String) (cols : List (ColumnData F)) (count nsegments : ℕ) (sizes : List ℕ)
      (ps : List (SumProgram D)) (filter : Filter D) (c : Cache (StoredSegment D F))
      → HoldCuts sizes (columns_of keys c.store) cols
      → check_columns keys 0 [] c.store ≡ ok (nsegments, sizes)
      → total sizes ≡ count
      → IntReductions R
      → All (IsExact B R) ps
      → IsRowwise B R filter
      → SkipsSafely B R filter
          (some (map zone_maps_of (columns_of keys c.store)))
          0
          (cut B array_of cols 0 sizes)
      → (r : List (SumResult D) × CacheStats) × (sum_exprs_cached B R array_of keys ps filter c
          ≡ ok r)
        × (map (exact B R) r.0 ≡ map (exact B R) (sum_exprs B R array_of cols count ps filter))
  unfolding sum_exprs_cached
  sum_exprs_cached-sum_exprs keys cols count nsegments sizes ps filter c hold check all laws exacts
        rowwise safe =
      let cached : List (Column D F) = columns_of keys c.store in
      let maps : List (List (ZoneMap D)) = map zone_maps_of cached in
      (
        eval_segments B R (cached_segments B R array_of cached 0 sizes) ps filter (some maps),
        rw (check, sum_exprs_cached) refl,
        ap (λ segs. map (exact B R) (eval_segments B R segs ps filter (some maps)).0)
              (cached_segments-cut 0 0 sizes cached cols (HoldCuts-HoldFrom sizes cached cols hold))
            ∙ eval_segments-exact B R (cut B array_of cols 0 sizes) ps filter (some maps) laws
                exacts rowwise safe
            ∙ sym (
                eval_segments-exact B R (cut B array_of cols 0 sizes) ps filter none laws exacts
                  rowwise (never_pruned B R array_of filter 0 _))
            ∙ eval_segments-sum_exprs B R array_of cols count sizes ps filter all laws exacts
                rowwise,
      )
