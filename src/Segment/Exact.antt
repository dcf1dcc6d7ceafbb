-- ===== src/Segment/Exact.antt =====
-- The int64 lane of `EvalSegments` is exact: whatever the segments and the masks, the result of a
-- program is the aggregate of its values over the passing rows of the whole table.
use mathlib.Core.List.{append_assoc, append-nil}
use duckdb_mlx.Common.{
  ℕ, ◌+◌, ◌≡◌, refl, sym, ap, ◌∙◌, ◌⊎◌, Bool, true, false, not, ◌||◌, List, [], ◌∷◌, ◌++◌, map,
  Option, none, some, All, arith, inl, inr, Bool-cases, Option-cases, length, length-append, ℤ,
  if◌then◌else◌,
}
use duckdb_mlx.Common.Int64.{
  Int64, IsInt64, int64_min, int64_max, add_i64, min_i64, max_i64, fold_i64, fold_i64-append,
  fold_i64-IsInt64, IsMerge, add_i64-IsMerge, min_i64-IsMerge, max_i64-IsMerge,
}
use duckdb_mlx.Ir.{ExprOp, AggKind, sum, count, count_star, avg, min, max, SumProgram, Filter}
use duckdb_mlx.Ir.Eval.{Backend}
use duckdb_mlx.Segment.{
  Row, Segment, SumResult, CacheStats, Out, Reductions, has_value_graph, is_empty, reads_columns,
  entries, mask_rows, value_rows, masked_cols, all_valid, Mask, null_mask, combine_masks,
  count_true, filter_at, expr_at, segment_has_mask, filter_mask, program_mask, neutral, reduce,
  masked_value, program_outs, build_sum_graphs, value_of, ivalue_of, merge_value, add_count,
  merge_program, merge_segment_outputs, initial, finish, finish_all, segment_pruned,
  select_segments, all_outs, merge_all, eval_segments, Maps,
}

-- What MLX promises of int64 reductions: the wrapping sum, the least and the greatest value.
pub record IntReductions {D : Type 0} {B : Backend D} (R : Reductions B) : Type 0 where
  pub item_range : (a : B.Arr) → IsInt64 (R.item_i64 a)
  pub item_constant : (i : Int64) → IsInt64 i → R.item_i64 (B.int64_of i) ≡ i
  pub item_sum :
      (xs : List B.Arr) → R.item_i64 (R.sum_of xs) ≡ fold_i64 add_i64 0 (map R.item_i64 xs)
  pub item_min :
      (xs : List B.Arr) → R.item_i64 (R.min_of xs) ≡ fold_i64 min_i64 int64_max (map R.item_i64 xs)
  pub item_max :
      (xs : List B.Arr) → R.item_i64 (R.max_of xs) ≡ fold_i64 max_i64 int64_min (map R.item_i64 xs)

-- The aggregate of a kind on int64 values; the counts have no value.
abbrev pub aggregate : AggKind → List Int64 → Int64
aggregate min vs = fold_i64 min_i64 int64_max vs
aggregate max vs = fold_i64 max_i64 int64_min vs
aggregate count vs = 0
aggregate count_star vs = 0
aggregate _ vs = fold_i64 add_i64 0 vs

abbrev pub is_present {ℓ} : {A : Type ℓ} → Option A → Bool
is_present none = false
is_present (some _) = true

-- How a result takes in the aggregate of further rows.
abbrev pub join : AggKind → Int64 → Int64 → Int64
join min a b = min_i64 a b
join max a b = max_i64 a b
join count a b = a
join count_star a b = a
join _ a b = add_i64 a b

module _ {D : Type 0} (B : Backend D) (R : Reductions B) where
  open B use {Arr}

  -- Whether a row counts for a program.
  abbrev pub passes : Mask Arr → Row Arr → Bool
  passes none r = true
  passes (some f) r = f r

  abbrev pub values_where : (Row Arr → Bool) → (Row Arr → Int64) → List (Row Arr) → List Int64
  values_where f v [] = []
  values_where f v (r ∷ rs) = if f r then v r ∷ values_where f v rs else values_where f v rs

  -- The int64 values of a program at the passing rows of a segment, and of all segments.
  unfoldable pub segment_values : Segment Arr → Filter D → SumProgram D → List Int64
  segment_values seg filter p =
      values_where (passes (program_mask B R seg filter p)) (λ r. R.item_i64 (expr_at B R p.ops r))
        seg.rows

  unfoldable pub table_values : List (Segment Arr) → Filter D → SumProgram D → List Int64
  table_values [] filter p = []
  table_values (seg ∷ segs) filter p = segment_values seg filter p ++ table_values segs filter p

  -- The exact part of a result.
  abbrev pub exact : SumResult D → Int64 × ℕ
  exact r = (r.ivalue, r.valid_count)

  -- The mask of a program exists exactly where the reader of the outputs expects a count.
  has_mask_lem :
      (seg : Segment Arr) (filter : Filter D) (p : SumProgram D)
      → segment_has_mask B R seg filter p ≡ is_present (program_mask B R seg filter p)
  unfolding segment_has_mask program_mask filter_mask null_mask combine_masks
  has_mask_lem seg filter p =
      three (is_empty filter.ops) (is_empty (masked_cols seg.masked filter.null_cols))
        (is_empty (masked_cols seg.masked p.null_cols))
    where
      three :
          (a b c : Bool)
          → (not a || (not b || not c))
            ≡ is_present (
                combine_masks
                  (combine_masks (if a then none else some (filter_at B R filter.ops)) (
                    if b then none else some (all_valid (masked_cols seg.masked filter.null_cols))))
                  (if c then none else some (all_valid (masked_cols seg.masked p.null_cols))))
      three true true true = refl
      three true true false = refl
      three true false true = refl
      three true false false = refl
      three false true true = refl
      three false true false = refl
      three false false true = refl
      three false false false = refl

  -- A count is the rows of the segment, or the entries of the mask.
  abbrev counted : Mask Arr → List (Row Arr) → List (Row Arr) → ℕ
  counted none rows wide = length rows
  counted (some f) rows wide = count_true f wide

  -- What one segment adds to a result.
  unfoldable pub segment_result : Segment Arr → Filter D → SumProgram D → SumResult D → SumResult D
  segment_result seg filter p r =
      let mask = program_mask B R seg filter p in
      let v : Option Arr =
        (if has_value_graph p.kind
          then some
              (reduce B R p.kind (map (masked_value B R mask p) (value_rows B R seg filter p)))
          else none) in
      add_count B R (counted mask seg.rows (mask_rows B R seg filter p))
        (merge_value B R p.kind (value_of B R p.int_lane v) (ivalue_of B R p.int_lane v) r)

  count_true_all : (rows : List (Row Arr)) → count_true (λ _. true) rows ≡ length rows
  count_true_all [] = refl
  count_true_all (r ∷ rs) = omega (arith, count_true_all rs)

  -- The reader takes from the stream what the writer put there for a program.
  merge_program-program_outs :
      (seg : Segment Arr) (filter : Filter D) (p : SumProgram D) (rest : List (Out Arr))
      (r : SumResult D)
      → merge_program B R seg filter p (program_outs B R seg filter p ++ rest) r
        ≡ (segment_result seg filter p r, rest)
  unfolding merge_program program_outs segment_result
  merge_program-program_outs seg filter p rest r =
      elim (Option-cases (program_mask B R seg filter p)) [
        | inl e ↦ elim (Bool-cases (has_value_graph p.kind)) [
          | inl v ↦ rw (has_mask_lem seg filter p, e, v)
          | inr v ↦ rw (has_mask_lem seg filter p, e, v)
        ]
        | inr (f, e) ↦ elim (Bool-cases (has_value_graph p.kind)) [
          | inl v ↦ rw (has_mask_lem seg filter p, e, v)
          | inr v ↦ rw (has_mask_lem seg filter p, e, v)
        ]
      ]

  merge_segment_outputs-build :
      (seg : Segment Arr) (ps : List (SumProgram D)) (filter : Filter D) (rest : List (Out Arr))
      (g : SumProgram D → SumResult D)
      → merge_segment_outputs B R seg ps filter
          (build_sum_graphs B R seg ps filter ++ rest)
          (map g ps)
        ≡ (map (λ p. segment_result seg filter p (g p)) ps, rest)
  unfolding merge_segment_outputs build_sum_graphs
  merge_segment_outputs-build seg [] filter rest g = refl
  merge_segment_outputs-build seg (p ∷ ps) filter rest g =
      rw
        (append_assoc, merge_program-program_outs, merge_segment_outputs-build seg ps filter rest g)

  -- What all segments add to a result, in order.
  unfoldable pub table_result :
      List (Segment Arr) → Filter D → SumProgram D → SumResult D → SumResult D
  table_result [] filter p r = r
  table_result (seg ∷ segs) filter p r = table_result segs filter p (segment_result seg filter p r)

  merge_all-all_outs :
      (segs : List (Segment Arr)) (ps : List (SumProgram D)) (filter : Filter D)
      (g : SumProgram D → SumResult D)
      → merge_all B R segs ps filter (all_outs B R segs ps filter) (map g ps)
        ≡ map (λ p. table_result segs filter p (g p)) ps
  unfolding merge_all table_result
  merge_all-all_outs [] ps filter g = refl
  merge_all-all_outs (seg ∷ segs) ps filter g =
      rw (merge_segment_outputs-build seg ps filter (all_outs B R segs ps filter) g)
        (merge_all-all_outs segs ps filter (λ p. segment_result seg filter p (g p)))

  finish-exact : (p : SumProgram D) (r : SumResult D) → exact (finish B R p r) ≡ exact r
  unfolding finish
  finish-exact p r = ground arith

  map-exact-finish_all :
      (ps : List (SumProgram D)) (g : SumProgram D → SumResult D)
      → map exact (finish_all B R ps (map g ps)) ≡ map (λ p. exact (g p)) ps
  unfolding finish_all
  map-exact-finish_all [] g = refl
  map-exact-finish_all (p ∷ ps) g = rw (finish-exact p (g p), map-exact-finish_all ps g)

  -- A program of the int64 lane that reads a column, or one that only counts.
  abbrev pub IsExact : SumProgram D → Type 0
  IsExact p = (has_value_graph p.kind ≡ true) → (p.int_lane ≡ true) × (reads_columns p.ops ≡ true)

  -- A filter that reads a column, or no filter.
  abbrev pub IsRowwise : Filter D → Type 0
  IsRowwise filter = (is_empty filter.ops ≡ true) ⊎ (reads_columns filter.ops ≡ true)

  value_rows_lem :
      (seg : Segment Arr) (filter : Filter D) (p : SumProgram D)
      → reads_columns p.ops ≡ true
      → value_rows B R seg filter p ≡ seg.rows
  unfolding value_rows
  value_rows_lem seg filter p h = rw h refl

  counted-entries :
      (a b c wide : Bool) (f g k : Row Arr → Bool) (rows : List (Row Arr))
      → (a ≡ true) ⊎ (wide ≡ true)
      → let mask =
          combine_masks
            (combine_masks (if a then none else some f) (if b then none else some g))
            (if c then none else some k) in
        counted mask rows (entries (wide || (not b || not c)) rows) ≡ count_true (passes mask) rows
  unfolding combine_masks
  counted-entries true true true wide f g k rows h = sym (count_true_all rows)
  counted-entries true true false true f g k rows h = refl
  counted-entries true true false false f g k rows h = refl
  counted-entries true false true true f g k rows h = refl
  counted-entries true false true false f g k rows h = refl
  counted-entries true false false true f g k rows h = refl
  counted-entries true false false false f g k rows h = refl
  counted-entries false true true true f g k rows h = refl
  counted-entries false true false true f g k rows h = refl
  counted-entries false false true true f g k rows h = refl
  counted-entries false false false true f g k rows h = refl
  counted-entries false b c false f g k rows (inl h) = cc
  counted-entries false b c false f g k rows (inr h) = cc

  counted_lem :
      (seg : Segment Arr) (filter : Filter D) (p : SumProgram D)
      → IsRowwise filter
      → counted (program_mask B R seg filter p) seg.rows (mask_rows B R seg filter p)
        ≡ count_true (passes (program_mask B R seg filter p)) seg.rows
  unfolding mask_rows program_mask filter_mask null_mask combine_masks
  counted_lem seg filter p h =
      counted-entries (is_empty filter.ops) (is_empty (masked_cols seg.masked filter.null_cols))
        (is_empty (masked_cols seg.masked p.null_cols)) (reads_columns filter.ops)
        (filter_at B R filter.ops) (all_valid (masked_cols seg.masked filter.null_cols))
        (all_valid (masked_cols seg.masked p.null_cols)) seg.rows h

  module _ (laws : IntReductions R) where
    values_where-range :
        (f : Row Arr → Bool) (ops : List (ExprOp D)) (rows : List (Row Arr))
        → All IsInt64 (values_where f (λ r. R.item_i64 (expr_at B R ops r)) rows)
    values_where-range f ops [] = tt
    values_where-range f ops (r ∷ rs) = elim (Bool-cases (f r)) [
      | inl t ↦ rw t (laws.item_range (expr_at B R ops r), values_where-range f ops rs)
      | inr t ↦ rw t (values_where-range f ops rs)
    ]

    segment_values-range :
        (seg : Segment Arr) (filter : Filter D) (p : SumProgram D)
        → All IsInt64 (segment_values seg filter p)
    unfolding segment_values
    segment_values-range seg filter p =
        values_where-range (passes (program_mask B R seg filter p)) p.ops seg.rows

    -- Masked rows hold the neutral value, and leave the fold as it is.
    fold-masked :
        (op : Int64 → Int64 → Int64) (e : Int64)
        → IsMerge op e
        → (p : SumProgram D) → R.item_i64 (neutral B R p.kind p.int_lane) ≡ e
        → (mask : Mask Arr) (rows : List (Row Arr))
        → fold_i64 op e (map R.item_i64 (map (masked_value B R mask p) rows))
          ≡ fold_i64 op e (values_where (passes mask) (λ r. R.item_i64 (expr_at B R p.ops r)) rows)
    fold-masked op e m p he none [] = refl
    fold-masked op e m p he none (r ∷ rs) = rw (fold-masked op e m p he none rs)
    fold-masked op e m p he (some f) [] = refl
    fold-masked op e m p he (some f) (r ∷ rs) = elim (Bool-cases (f r)) [
      | inl t ↦ rw (t, fold-masked op e m p he (some f) rs)
      | inr t ↦
          rw (t, he, fold-masked op e m p he (some f) rs)
            (m.neutral _ (fold_i64-IsInt64 m _ (values_where-range f p.ops rs)))
    ]

    count_true-length :
        (f : Row Arr → Bool) (v : Row Arr → Int64) (rows : List (Row Arr))
        → count_true f rows ≡ length (values_where f v rows)
    count_true-length f v [] = refl
    count_true-length f v (r ∷ rs) = ground (arith, count_true-length f v rs)

    -- A program with another kind.
    abbrev as_kind : AggKind → SumProgram D → SumProgram D
    as_kind k p = record p { kind = k }

    ivalue_of-some :
        (int_lane : Bool) (a : Arr)
        → int_lane ≡ true
        → ivalue_of B R int_lane (some a) ≡ R.item_i64 a
    ivalue_of-some true a h = refl
    ivalue_of-some false a h = cc

    neutral_item :
        (k : AggKind) (int_lane : Bool)
        → int_lane ≡ true
        → R.item_i64 (neutral B R k int_lane) ≡ aggregate k []
    neutral_item k false h = cc
    neutral_item sum true h = laws.item_constant 0 (omega arith)
    neutral_item avg true h = laws.item_constant 0 (omega arith)
    neutral_item count true h = laws.item_constant 0 (omega arith)
    neutral_item count_star true h = laws.item_constant 0 (omega arith)
    neutral_item min true h = laws.item_constant int64_max (omega arith)
    neutral_item max true h = laws.item_constant int64_min (omega arith)

    segment_result-kind :
        (k : AggKind) (seg : Segment Arr) (filter : Filter D) (p : SumProgram D) (r : SumResult D)
        → IsExact (as_kind k p)
        → (segment_result seg filter (as_kind k p) r).ivalue
          ≡ join k r.ivalue (aggregate k (segment_values seg filter (as_kind k p)))
    unfolding segment_result merge_value segment_values
    segment_result-kind sum seg filter p r ex = ap (join sum r.ivalue) (
        ivalue_of-some p.int_lane _ (ex refl).0
        ∙ laws.item_sum _
        ∙ fold-masked add_i64 0 add_i64-IsMerge (as_kind sum p)
            (neutral_item sum p.int_lane (ex refl).0) (program_mask B R seg filter (as_kind sum p))
            (value_rows B R seg filter (as_kind sum p))
        ∙ ap
            (λ rs. fold_i64 add_i64 0 (
              values_where (passes (program_mask B R seg filter (as_kind sum p)))
                (λ r. R.item_i64 (expr_at B R p.ops r)) rs))
            (value_rows_lem seg filter (as_kind sum p) (ex refl).1))
    segment_result-kind avg seg filter p r ex = ap (join avg r.ivalue) (
        ivalue_of-some p.int_lane _ (ex refl).0
        ∙ laws.item_sum _
        ∙ fold-masked add_i64 0 add_i64-IsMerge (as_kind avg p)
            (neutral_item avg p.int_lane (ex refl).0) (program_mask B R seg filter (as_kind avg p))
            (value_rows B R seg filter (as_kind avg p))
        ∙ ap
            (λ rs. fold_i64 add_i64 0 (
              values_where (passes (program_mask B R seg filter (as_kind avg p)))
                (λ r. R.item_i64 (expr_at B R p.ops r)) rs))
            (value_rows_lem seg filter (as_kind avg p) (ex refl).1))
    segment_result-kind min seg filter p r ex = ap (join min r.ivalue) (
        ivalue_of-some p.int_lane _ (ex refl).0
        ∙ laws.item_min _
        ∙ fold-masked min_i64 int64_max min_i64-IsMerge (as_kind min p)
            (neutral_item min p.int_lane (ex refl).0) (program_mask B R seg filter (as_kind min p))
            (value_rows B R seg filter (as_kind min p))
        ∙ ap
            (λ rs. fold_i64 min_i64 int64_max (
              values_where (passes (program_mask B R seg filter (as_kind min p)))
                (λ r. R.item_i64 (expr_at B R p.ops r)) rs))
            (value_rows_lem seg filter (as_kind min p) (ex refl).1))
    segment_result-kind max seg filter p r ex = ap (join max r.ivalue) (
        ivalue_of-some p.int_lane _ (ex refl).0
        ∙ laws.item_max _
        ∙ fold-masked max_i64 int64_min max_i64-IsMerge (as_kind max p)
            (neutral_item max p.int_lane (ex refl).0) (program_mask B R seg filter (as_kind max p))
            (value_rows B R seg filter (as_kind max p))
        ∙ ap
            (λ rs. fold_i64 max_i64 int64_min (
              values_where (passes (program_mask B R seg filter (as_kind max p)))
                (λ r. R.item_i64 (expr_at B R p.ops r)) rs))
            (value_rows_lem seg filter (as_kind max p) (ex refl).1))
    segment_result-kind count seg filter p r ex = refl
    segment_result-kind count_star seg filter p r ex = refl

    merge_value-count :
        (k : AggKind) (v : D) (i : Int64) (r : SumResult D)
        → (merge_value B R k v i r).valid_count ≡ r.valid_count
    unfolding merge_value
    merge_value-count sum v i r = refl
    merge_value-count _ v i r = refl

    segment_result-count :
        (seg : Segment Arr) (filter : Filter D) (p : SumProgram D) (r : SumResult D)
        → IsRowwise filter
        → (segment_result seg filter p r).valid_count
          ≡ r.valid_count + length (segment_values seg filter p)
    unfolding segment_result segment_values
    segment_result-count seg filter p r rowwise = rw (merge_value-count p.kind) (
        ap (◌+◌ r.valid_count) (
          counted_lem seg filter p rowwise
          ∙ count_true-length (passes (program_mask B R seg filter p)) _ seg.rows))

    join-aggregate :
        (k : AggKind) (xs ys : List Int64)
        → All IsInt64 ys
        → join k (aggregate k xs) (aggregate k ys) ≡ aggregate k (xs ++ ys)
    join-aggregate sum xs ys h = sym (fold_i64-append add_i64-IsMerge xs ys h)
    join-aggregate avg xs ys h = sym (fold_i64-append add_i64-IsMerge xs ys h)
    join-aggregate min xs ys h = sym (fold_i64-append min_i64-IsMerge xs ys h)
    join-aggregate max xs ys h = sym (fold_i64-append max_i64-IsMerge xs ys h)
    join-aggregate count xs ys h = refl
    join-aggregate count_star xs ys h = refl

    segment_result-exact :
        (seg : Segment Arr) (filter : Filter D) (p : SumProgram D) (r : SumResult D)
        (xs : List Int64)
        → IsExact p
        → IsRowwise filter
        → exact r ≡ (aggregate p.kind xs, length xs)
        → exact (segment_result seg filter p r) ≡ (
          aggregate p.kind (xs ++ segment_values seg filter p),
          length (xs ++ segment_values seg filter p),
        )
    segment_result-exact seg filter p r xs ex rowwise h =
        let value : r.ivalue ≡ aggregate p.kind xs = ap (λ (e : Int64 × ℕ). e.0) h in
        let counted : r.valid_count ≡ length xs = ap (λ (e : Int64 × ℕ). e.1) h in
        λ i. (
          (segment_result-kind p.kind seg filter p r ex
                ∙ ap (λ a. join p.kind a (aggregate p.kind (segment_values seg filter p))) value
                ∙ join-aggregate p.kind xs (segment_values seg filter p)
                    (segment_values-range seg filter p))
              i,
          (segment_result-count seg filter p r rowwise
                ∙ ap (λ n. n + length (segment_values seg filter p)) counted
                ∙ sym (length-append xs (segment_values seg filter p)))
              i,
        )

    table_result-exact :
        (segs : List (Segment Arr)) (filter : Filter D) (p : SumProgram D) (r : SumResult D)
        (xs : List Int64)
        → IsExact p
        → IsRowwise filter
        → exact r ≡ (aggregate p.kind xs, length xs)
        → exact (table_result segs filter p r) ≡ (
          aggregate p.kind (xs ++ table_values segs filter p),
          length (xs ++ table_values segs filter p),
        )
    unfolding table_result table_values
    table_result-exact [] filter p r xs ex rowwise h = rw append-nil h
    table_result-exact (seg ∷ segs) filter p r xs ex rowwise h = rw (← append_assoc) (
        table_result-exact segs filter p (segment_result seg filter p r)
          (xs ++ segment_values seg filter p) ex rowwise
          (segment_result-exact seg filter p r xs ex rowwise h))

  -- What the rows of a skipped segment must satisfy: none of them passes the filter's part of the
  -- mask.
  abbrev pub FailsFilter : Segment Arr → Filter D → Row Arr → Type 0
  FailsFilter seg filter r =
      ((is_empty filter.ops ≡ false) × (filter_at B R filter.ops r ≡ false))
      ⊎ (all_valid (masked_cols seg.masked filter.null_cols) r ≡ false)

  passes-FailsFilter :
      (seg : Segment Arr) (filter : Filter D) (p : SumProgram D) (r : Row Arr)
      → FailsFilter seg filter r
      → passes (program_mask B R seg filter p) r ≡ false
  unfolding program_mask filter_mask null_mask combine_masks
  passes-FailsFilter seg filter p r (inl (e, h)) = ground arith
  passes-FailsFilter seg filter p r (inr h) =
      masked (masked_cols seg.masked filter.null_cols) refl h
    where
      combined :
          (a c : Bool) (f g k : Row Arr → Bool)
          → g r ≡ false
          → passes
              (combine_masks
                (combine_masks (if a then none else some f) (some g))
                (if c then none else some k))
              r
            ≡ false
      combined true true f g k e = e
      combined true false f g k e = rw e
      combined false true f g k e = ground arith
      combined false false f g k e = ground arith

      masked :
          (cs : List ℤ)
          → masked_cols seg.masked filter.null_cols ≡ cs
          → all_valid cs r ≡ false
          → passes (program_mask B R seg filter p) r ≡ false
      masked [] e v = cc
      masked (c ∷ cs) e v =
          rw (e, null_mask)
            (combined (is_empty filter.ops) (is_empty (masked_cols seg.masked p.null_cols)) _
              (all_valid (c ∷ cs)) _ v)

  segment_values-none :
      (seg : Segment Arr) (filter : Filter D) (p : SumProgram D)
      → All (FailsFilter seg filter) seg.rows
      → segment_values seg filter p ≡ []
  unfolding segment_values
  segment_values-none seg filter p h = go seg.rows h
    where
      go :
          (rows : List (Row Arr))
          → All (FailsFilter seg filter) rows
          → values_where
              (passes (program_mask B R seg filter p))
              (λ r. R.item_i64 (expr_at B R p.ops r))
              rows
            ≡ []
      go [] h = refl
      go (r ∷ rs) (e, h) = rw (passes-FailsFilter seg filter p r e) (go rs h)

  -- Where a segment is skipped, its rows fail the filter.
  abbrev pub SkipsSafely : Filter D → Maps B R → ℕ → List (Segment Arr) → Type 0
  SkipsSafely filter maps idx [] = Unit
  SkipsSafely filter maps idx (seg ∷ segs) =
      (segment_pruned B R filter maps idx ≡ true → All (FailsFilter seg filter) seg.rows)
      × SkipsSafely filter maps (idx + 1) segs

  segment_values-empty :
      (seg : Segment Arr) (filter : Filter D) (p : SumProgram D)
      → is_empty seg.rows ≡ true
      → segment_values seg filter p ≡ []
  unfolding segment_values
  segment_values-empty seg filter p h = go seg.rows h
    where
      go :
          (rows : List (Row Arr))
          → is_empty rows ≡ true
          → values_where
              (passes (program_mask B R seg filter p))
              (λ r. R.item_i64 (expr_at B R p.ops r))
              rows
            ≡ []
      go [] h = refl
      go (r ∷ rs) h = cc

  -- Skipping loses no value.
  select_segments-table_values :
      (segs : List (Segment Arr)) (filter : Filter D) (maps : Maps B R) (p : SumProgram D) (idx : ℕ)
      (st : CacheStats)
      → SkipsSafely filter maps idx segs
      → table_values (select_segments B R filter maps idx segs st).0 filter p
        ≡ table_values segs filter p
  unfolding select_segments table_values
  select_segments-table_values [] filter maps p idx st safe = refl
  select_segments-table_values (seg ∷ segs) filter maps p idx st (skip, safe) =
      elim (Bool-cases (is_empty seg.rows)) [
        | inl e ↦
            rw (e, segment_values-empty seg filter p e)
              (select_segments-table_values segs filter maps p (idx + 1) _ safe)
        | inr e ↦ elim (Bool-cases (segment_pruned B R filter maps idx)) [
          | inl q ↦
              rw (e, q, segment_values-none seg filter p (skip q))
                (select_segments-table_values segs filter maps p (idx + 1) _ safe)
          | inr q ↦
              rw (e, q)
                (ap (◌++◌ (segment_values seg filter p))
                  (select_segments-table_values segs filter maps p (idx + 1) _ safe))
        ]
      ]

  initial-exact : (k : AggKind) → exact (initial B R k) ≡ (aggregate k [], 0)
  unfolding initial
  initial-exact sum = refl
  initial-exact avg = refl
  initial-exact min = refl
  initial-exact max = refl
  initial-exact count = refl
  initial-exact count_star = refl

  map-All {κ} :
      {C : Type κ} (P : SumProgram D → Type 0) (f g : SumProgram D → C) (ps : List (SumProgram D))
      → ((p : SumProgram D) → P p → f p ≡ g p)
      → All P ps
      → map f ps ≡ map g ps
  map-All P f g [] h k = refl
  map-All P f g (p ∷ ps) h (k, ks) = rw (h p k, map-All P f g ps h ks)

  -- On the int64 lane the evaluation over segments is exact: for every program of that lane, and
  -- for the counts, the result is the aggregate (wrapping sum, signed minimum or maximum) and the
  -- number of the program's values over the rows of all segments that pass the WHERE filter and
  -- are not NULL in the filter's or the program's columns, in any segmentation. Conditions: MLX
  -- reduces int64 arrays as IntReductions states, each program but the counts reads a column, as
  -- does the filter if there is one, and a segment that its zone maps skip holds no row that
  -- passes the filter.
  pub eval_segments-exact :
      (segs : List (Segment Arr)) (ps : List (SumProgram D)) (filter : Filter D) (maps : Maps B R)
      → IntReductions R
      → All IsExact ps
      → IsRowwise filter
      → SkipsSafely filter maps 0 segs
      → map exact (eval_segments B R segs ps filter maps).0
        ≡ map
            (λ p.
              (aggregate p.kind (table_values segs filter p), length (table_values segs filter p)))
            ps
  unfolding eval_segments
  eval_segments-exact segs ps filter maps laws exacts rowwise safe =
      let st : CacheStats = record { segments_total = 0; segments_pruned = 0 } in
      let kept = (select_segments B R filter maps 0 segs st).0 in
      rw (merge_all-all_outs kept ps filter (λ p. initial B R p.kind)) (
        map-exact-finish_all ps (λ p. table_result kept filter p (initial B R p.kind))
        ∙ map-All IsExact _ _ ps
            (λ p ex.
              table_result-exact laws kept filter p (initial B R p.kind) [] ex rowwise
                (initial-exact p.kind)
              ∙ ap (λ vs. (aggregate p.kind vs, length vs))
                  (select_segments-table_values segs filter maps p 0 st safe))
            exacts)
