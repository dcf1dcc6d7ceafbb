-- ===== src/Segment/Pruning.antt =====
-- `EvalSegments` over the cache: the zone maps of int64 columns let it skip segments, and no result
-- of the int64 lane changes.
use duckdb_mlx.Common.{
  ℕ, ◌+◌, ◌≤◌, ◌≡◌, sym, ◌∙◌, ◌⊎◌, inl, inr, true, false, List, [], ◌∷◌, map, none, some, All, ℤ,
  arith,
}
use duckdb_mlx.Common.Int64.{Int64, IsInt64, rank}
use duckdb_mlx.Ir.{const_val, SumProgram, Filter}
use duckdb_mlx.Ir.Eval.{Backend, int64, eval_ops, load}
use duckdb_mlx.Zone.{ZoneMap}
use duckdb_mlx.Prune.{build_segment_prune_preds, parse_preds, segment_should_prune, zone_of}
use duckdb_mlx.Prune.Sound.{ComparesInts, segment_should_prune-false}
use duckdb_mlx.Segment.{
  Row, Segment, Reductions, is_empty, masked_cols, all_valid, filter_at, segment_pruned,
  eval_segments,
}
use duckdb_mlx.Segment.Exact.{
  IntReductions, IsExact, IsRowwise, SkipsSafely, FailsFilter, exact, eval_segments-exact,
}

module _ {D : Type 0} (B : Backend D) (R : Reductions B) (filter : Filter D)
    (maps : List (List (ZoneMap D))) where
  open B use {Arr}

  -- A row agrees with the zone maps of its segment: it is NULL in a column of the filter, or the
  -- filter evaluates at it and its values in the int64 columns lie within their zone maps.
  abbrev pub Covered : ℕ → Segment Arr → Row Arr → Type 0
  Covered idx seg r =
      (all_valid (masked_cols seg.masked filter.null_cols) r ≡ false)
      ⊎ ((m : Arr) × (eval_ops B int64 r.cols filter.ops ≡ some m)
          × ((c : ℤ) (zm : ZoneMap D)
              → zone_of R.order R.of_int idx c maps ≡ some zm
              → zm.int_lane ≡ true
              → (v : Int64) × (load B int64 r.cols c ≡ some (B.int64_of v))
                × (IsInt64 v
                    × IsInt64 zm.imin
                    × (rank zm.imin ≤ rank v)
                    × (rank v ≤ rank zm.imax))))

  abbrev pub AllCovered : ℕ → List (Segment Arr) → Type 0
  AllCovered idx [] = Unit
  AllCovered idx (seg ∷ segs) = All (Covered idx seg) seg.rows × AllCovered (idx + 1) segs

  not_empty_of_pruned :
      (idx : ℕ) → segment_pruned B R filter (some maps) idx ≡ true → is_empty filter.ops ≡ false
  unfolding segment_pruned segment_should_prune build_segment_prune_preds parse_preds
  not_empty_of_pruned idx h = ground arith

  module _ (laws : ComparesInts B R.truth)
      (ints : All (λ op. op.code ≡ const_val → op.int_lane ≡ true) filter.ops) where
    row-FailsFilter :
        (idx : ℕ) (seg : Segment Arr) (r : Row Arr)
        → segment_pruned B R filter (some maps) idx ≡ true
        → Covered idx seg r
        → FailsFilter B R seg filter r
    unfolding segment_pruned filter_at
    row-FailsFilter idx seg r h (inl n) = inr n
    row-FailsFilter idx seg r h (inr (m, ev, within)) = inl (
      not_empty_of_pruned idx h,
      rw (ev, filter_at)
          (segment_should_prune-false B r.cols R.truth laws R.order R.of_int filter.ops m idx maps
            ev ints within h),
    )

    rows-FailsFilter :
        (idx : ℕ) (seg : Segment Arr) (rows : List (Row Arr))
        → segment_pruned B R filter (some maps) idx ≡ true
        → All (Covered idx seg) rows
        → All (FailsFilter B R seg filter) rows
    rows-FailsFilter idx seg [] h k = tt
    rows-FailsFilter idx seg (r ∷ rs) h (k, ks) =
        (row-FailsFilter idx seg r h k, rows-FailsFilter idx seg rs h ks)

    pub AllCovered-SkipsSafely :
        (idx : ℕ) (segs : List (Segment Arr))
        → AllCovered idx segs
        → SkipsSafely B R filter (some maps) idx segs
    AllCovered-SkipsSafely idx [] h = tt
    AllCovered-SkipsSafely idx (seg ∷ segs) (k, h) =
        (λ q. rows-FailsFilter idx seg seg.rows q k, AllCovered-SkipsSafely (idx + 1) segs h)

    SkipsSafely-none : (idx : ℕ) (segs : List (Segment Arr)) → SkipsSafely B R filter none idx segs
    unfolding segment_pruned
    SkipsSafely-none idx [] = tt
    SkipsSafely-none idx (seg ∷ segs) = (λ q. cc, SkipsSafely-none (idx + 1) segs)

    -- Evaluation with zone maps and without gives the same int64 results and counts.
    -- Conditions: the constants of the filter are on the int64 lane, the filter and each
    -- program but the counts read a column, MLX reduces and compares int64 arrays as
    -- IntReductions and ComparesInts state, and each row agrees with the zone maps of its
    -- segment (it is NULL in a column of the filter, or the filter evaluates at it and its
    -- int64 values lie within the maps).
    pub eval_segments-pruning :
        (segs : List (Segment Arr)) (ps : List (SumProgram D))
        → IntReductions R
        → All (IsExact B R) ps
        → IsRowwise B R filter
        → AllCovered 0 segs
        → map (exact B R) (eval_segments B R segs ps filter (some maps)).0
          ≡ map (exact B R) (eval_segments B R segs ps filter none).0
    eval_segments-pruning segs ps reductions exacts rowwise covered =
        eval_segments-exact B R segs ps filter (some maps) reductions exacts rowwise
          (AllCovered-SkipsSafely 0 segs covered)
        ∙ sym (
            eval_segments-exact B R segs ps filter none reductions exacts rowwise
              (SkipsSafely-none 0 segs))
