-- ===== src/Segment.antt =====
-- src/bridge/mlx_bridge.cpp, from MlxSegment to EvalSegments: aggregates over the row-aligned slices
-- of a table. An MLX operation on arrays is its operation at each row, so a segment is the list of
-- its rows; the reductions of MLX are the parameter `Reductions`.
pub mod Exact
pub mod Pruning
use duckdb_mlx.Common.{
  ℕ, zero, suc, ◌+◌, Bool, true, false, not, ◌&&◌, ◌||◌, List, [], ◌∷◌, ◌++◌, map, Option, none,
  some, ℤ, pos, negsuc, get_or, length, take, indicator, ltb, if◌then◌else◌,
}
use duckdb_mlx.Common.Int64.{Int64, int64_min, int64_max, add_i64, min_i64, max_i64}
use duckdb_mlx.Ir.{ExprOp, AggKind, sum, count, count_star, avg, min, max, SumProgram, Filter}
use duckdb_mlx.Ir.Eval.{Backend, int64, eval_ops}
use duckdb_mlx.Zone.{ZoneMap}
use duckdb_mlx.Prune.{
  DoubleOrder, SegmentPrunePred, is_load, build_segment_prune_preds, segment_should_prune,
}

-- The value of each column at a row, and its validity (read where the column has a mask).
pub record Row (A : Type 0) : Type 0 where
  pub cols : List A
  pub valid : List Bool

-- `masked` says which columns carry a validity array.
pub record Segment (A : Type 0) : Type 0 where
  pub masked : List Bool
  pub rows : List (Row A)

pub record SumResult (D : Type 0) : Type 0 where
  pub value : D
  pub valid_count : ℕ
  pub ivalue : Int64

pub record CacheStats : Type 0 where
  pub segments_total : ℕ
  pub segments_pruned : ℕ

-- A reduced array of the graph: a value, or the number of rows of a mask.
pub data Out (A : Type 0) : Type 0 where
  value_out : A → Out A
  count_out : ℕ → Out A

-- `mx::sum`, `mx::min` and `mx::max`, reading the results back, and the arithmetic on doubles.
pub record Reductions {D : Type 0} (B : Backend D) : Type 0 where
  pub truth : B.Arr → Bool
  pub sum_of : List B.Arr → B.Arr
  pub min_of : List B.Arr → B.Arr
  pub max_of : List B.Arr → B.Arr
  pub item_i64 : B.Arr → Int64
  pub item_float : B.Arr → D
  pub infinity : D
  pub negative_infinity : D
  pub zero_double : D
  pub of_int : Int64 → D
  pub of_count : ℕ → D
  pub add_d : D → D → D
  pub min_d : D → D → D
  pub max_d : D → D → D
  pub div_d : D → D → D
  pub order : DoubleOrder D

abbrev pub has_value_graph : AggKind → Bool
has_value_graph count = false
has_value_graph count_star = false
has_value_graph _ = true

abbrev pub flag_at : List Bool → ℤ → Bool
flag_at flags (pos c) = get_or flags c false
flag_at flags (negsuc _) = false

abbrev pub is_empty {ℓ} : {A : Type ℓ} → List A → Bool
is_empty [] = true
is_empty (_ ∷ _) = false

-- Columns of `cols` that carry a validity array in this segment.
unfoldable pub masked_cols : List Bool → List ℤ → List ℤ
masked_cols masked [] = []
masked_cols masked (c ∷ cs) =
    let rest = masked_cols masked cs in if flag_at masked c then c ∷ rest else rest

abbrev pub all_valid : {A : Type 0} → List ℤ → Row A → Bool
all_valid [] r = true
all_valid (c ∷ cs) r = flag_at r.valid c && all_valid cs r

-- A mask is given by its value at each row.
abbrev pub Mask : Type 0 → Type 0
Mask A = Option (Row A → Bool)

unfoldable pub null_mask : {A : Type 0} → List Bool → List ℤ → Mask A
null_mask masked cols =
    let some_masked = masked_cols masked cols in
    if is_empty some_masked then none else some (all_valid some_masked)

unfoldable pub combine_masks : {A : Type 0} → Mask A → Mask A → Mask A
combine_masks none b = b
combine_masks (some f) none = some f
combine_masks (some f) (some g) = some (λ r. f r && g r)

abbrev pub count_true : {A : Type 0} → (A → Bool) → List A → ℕ
count_true f [] = 0
count_true f (r ∷ rs) = indicator (f r) + count_true f rs

abbrev pub reads_columns : {D : Type 0} → List (ExprOp D) → Bool
reads_columns [] = false
reads_columns (op ∷ ops) = is_load op.code || reads_columns ops

abbrev pub entries {ℓ} : {A : Type ℓ} → Bool → List A → List A
entries wide rows = if wide then rows else take 1 rows

module _ {D : Type 0} (B : Backend D) (R : Reductions B) where
  open B use {Arr}
  open R use {truth}

  -- A program that does not evaluate is undefined in the source; it reads as false, or as 0.
  unfoldable pub filter_at : List (ExprOp D) → Row Arr → Bool
  filter_at ops r = elim (eval_ops B int64 r.cols ops) [ none ↦ false | some a ↦ truth a ]

  unfoldable pub expr_at : List (ExprOp D) → Row Arr → Arr
  expr_at ops r = elim (eval_ops B int64 r.cols ops) [ none ↦ B.int64_of 0 | some a ↦ a ]

  unfoldable pub segment_has_mask : Segment Arr → Filter D → SumProgram D → Bool
  segment_has_mask seg filter program =
      not (is_empty filter.ops)
      || (not (is_empty (masked_cols seg.masked filter.null_cols))
          || not (is_empty (masked_cols seg.masked program.null_cols)))

  -- The mask of the filter and of the NULLs of its columns.
  unfoldable pub filter_mask : Segment Arr → Filter D → Mask Arr
  filter_mask seg filter =
      combine_masks (if is_empty filter.ops then none else some (filter_at filter.ops))
        (null_mask seg.masked filter.null_cols)

  unfoldable pub program_mask : Segment Arr → Filter D → SumProgram D → Mask Arr
  program_mask seg filter program =
      combine_masks (filter_mask seg filter) (null_mask seg.masked program.null_cols)

  abbrev pub neutral : AggKind → Bool → Arr
  neutral min true = B.int64_of int64_max
  neutral min false = B.float32_of R.infinity
  neutral max true = B.int64_of int64_min
  neutral max false = B.float32_of R.negative_infinity
  neutral _ true = B.int64_of 0
  neutral _ false = B.float32_of R.zero_double

  abbrev pub reduce : AggKind → List Arr → Arr
  reduce min xs = R.min_of xs
  reduce max xs = R.max_of xs
  reduce _ xs = R.sum_of xs

  abbrev pub masked_value : Mask Arr → SumProgram D → Row Arr → Arr
  masked_value none p r = expr_at p.ops r
  masked_value (some f) p r = if f r then expr_at p.ops r else neutral p.kind p.int_lane

  abbrev pub count_outs : Mask Arr → List (Row Arr) → List (Out Arr)
  count_outs none rows = []
  count_outs (some f) rows = count_out (count_true f rows) ∷ []

  -- A graph that reads no column stays a scalar: an array of one entry. The mask and the value of a
  -- program have an entry for each row where a column or a validity array takes part.
  unfoldable pub mask_rows : Segment Arr → Filter D → SumProgram D → List (Row Arr)
  mask_rows seg filter p =
      entries
        (reads_columns filter.ops
          || (not (is_empty (masked_cols seg.masked filter.null_cols))
              || not (is_empty (masked_cols seg.masked p.null_cols))))
        seg.rows

  unfoldable pub value_rows : Segment Arr → Filter D → SumProgram D → List (Row Arr)
  value_rows seg filter p = if reads_columns p.ops then seg.rows else mask_rows seg filter p

  -- The graphs of one program: a value, and a count where there is a mask.
  unfoldable pub program_outs : Segment Arr → Filter D → SumProgram D → List (Out Arr)
  program_outs seg filter p =
      let mask = program_mask seg filter p in
      let counts = count_outs mask (mask_rows seg filter p) in
      if has_value_graph p.kind
      then value_out (reduce p.kind (map (masked_value mask p) (value_rows seg filter p))) ∷ counts
      else counts

  unfoldable pub build_sum_graphs : Segment Arr → List (SumProgram D) → Filter D → List (Out Arr)
  build_sum_graphs seg [] filter = []
  build_sum_graphs seg (p ∷ ps) filter = program_outs seg filter p ++ build_sum_graphs seg ps filter

  -- The cursor: what is read, and the outputs after it.
  abbrev pub next_value : Bool → List (Out Arr) → Option Arr × List (Out Arr)
  next_value true (value_out a ∷ outs) = (some a, outs)
  next_value _ outs = (none, outs)

  abbrev pub next_count : Bool → ℕ → List (Out Arr) → ℕ × List (Out Arr)
  next_count true n (count_out k ∷ outs) = (k, outs)
  next_count _ n outs = (n, outs)

  abbrev pub value_of : Bool → Option Arr → D
  value_of int_lane none = R.zero_double
  value_of true (some a) = R.of_int (R.item_i64 a)
  value_of false (some a) = R.item_float a

  abbrev pub ivalue_of : Bool → Option Arr → Int64
  ivalue_of true (some a) = R.item_i64 a
  ivalue_of _ _ = 0

  unfoldable pub merge_value : AggKind → D → Int64 → SumResult D → SumResult D
  merge_value min v i r = record r { value = R.min_d r.value v; ivalue = min_i64 r.ivalue i }
  merge_value max v i r = record r { value = R.max_d r.value v; ivalue = max_i64 r.ivalue i }
  merge_value count v i r = r
  merge_value count_star v i r = r
  merge_value _ v i r = record r { value = R.add_d r.value v; ivalue = add_i64 r.ivalue i }

  abbrev pub add_count : ℕ → SumResult D → SumResult D
  add_count n r = record r { valid_count = r.valid_count + n }

  -- One round of `MergeSegmentOutputs`: the result and what is left of the stream of outputs.
  unfoldable pub merge_program :
      Segment Arr
      → Filter D
      → SumProgram D
      → List (Out Arr)
      → SumResult D
      → SumResult D × List (Out Arr)
  merge_program seg filter p outs r =
      let (v, outs₁) = next_value (has_value_graph p.kind) outs in
      let (n, outs₂) = next_count (segment_has_mask seg filter p) (length seg.rows) outs₁ in
      (add_count n (merge_value p.kind (value_of p.int_lane v) (ivalue_of p.int_lane v) r), outs₂)

  unfoldable pub merge_segment_outputs :
      Segment Arr
      → List (SumProgram D)
      → Filter D
      → List (Out Arr)
      → List (SumResult D)
      → List (SumResult D) × List (Out Arr)
  merge_segment_outputs seg (p ∷ ps) filter outs (r ∷ rs) =
      let (r', outs') = merge_program seg filter p outs r in
      let (rs', rest) = merge_segment_outputs seg ps filter outs' rs in (r' ∷ rs', rest)
  merge_segment_outputs seg [] filter outs rs = (rs, outs)
  merge_segment_outputs seg (p ∷ ps) filter outs [] = ([], outs)

  unfoldable pub initial : AggKind → SumResult D
  initial min = record { value = R.infinity; valid_count = 0; ivalue = int64_max }
  initial max = record { value = R.negative_infinity; valid_count = 0; ivalue = int64_min }
  initial _ = record { value = R.zero_double; valid_count = 0; ivalue = 0 }

  abbrev pub is_avg : AggKind → Bool
  is_avg avg = true
  is_avg _ = false

  -- The division of an AVG, after the last segment.
  unfoldable pub finish : SumProgram D → SumResult D → SumResult D
  finish p r =
      if is_avg p.kind && ltb 0 r.valid_count
      then record r {
        value =
            R.div_d (if p.int_lane then R.of_int r.ivalue else r.value) (R.of_count r.valid_count);
      }
      else r

  unfoldable pub finish_all : List (SumProgram D) → List (SumResult D) → List (SumResult D)
  finish_all (p ∷ ps) (r ∷ rs) = finish p r ∷ finish_all ps rs
  finish_all _ rs = rs

  -- `segment_zone_maps`: absent for host segments.
  abbrev pub Maps : Type 0
  Maps = Option (List (List (ZoneMap D)))

  unfoldable pub segment_pruned : Filter D → Maps → ℕ → Bool
  segment_pruned filter none seg_idx = false
  segment_pruned filter (some maps) seg_idx =
      segment_should_prune R.order R.of_int seg_idx (build_segment_prune_preds filter.ops) maps

  -- The segments that are evaluated, from index `seg_idx` on, and the statistics.
  unfoldable pub select_segments :
      Filter D → Maps → ℕ → List (Segment Arr) → CacheStats → List (Segment Arr) × CacheStats
  select_segments filter maps seg_idx [] st = ([], st)
  select_segments filter maps seg_idx (seg ∷ segs) st =
      let total = record st { segments_total = st.segments_total + 1 } in
      let empty = is_empty seg.rows in
      let pruned = segment_pruned filter maps seg_idx in
      let st' =
        (if empty
          then total
          else if pruned
          then record total { segments_pruned = st.segments_pruned + 1 }
          else total) in
      let (kept, st'') = select_segments filter maps (seg_idx + 1) segs st' in
      (if empty then kept else if pruned then kept else seg ∷ kept, st'')

  abbrev pub all_outs : List (Segment Arr) → List (SumProgram D) → Filter D → List (Out Arr)
  all_outs [] ps filter = []
  all_outs (seg ∷ segs) ps filter = build_sum_graphs seg ps filter ++ all_outs segs ps filter

  unfoldable pub merge_all :
      List (Segment Arr)
      → List (SumProgram D)
      → Filter D
      → List (Out Arr)
      → List (SumResult D)
      → List (SumResult D)
  merge_all [] ps filter outs rs = rs
  merge_all (seg ∷ segs) ps filter outs rs =
      let (rs', rest) = merge_segment_outputs seg ps filter outs rs in
      merge_all segs ps filter rest rs'

  unfoldable pub eval_segments :
      List (Segment Arr) → List (SumProgram D) → Filter D → Maps → List (SumResult D) × CacheStats
  eval_segments segs ps filter maps =
      let (kept, st) =
        select_segments filter maps 0 segs (record { segments_total = 0; segments_pruned = 0 }) in
      (
        finish_all ps
            (merge_all kept ps filter (all_outs kept ps filter) (map (λ p. initial p.kind) ps)),
        st,
      )
