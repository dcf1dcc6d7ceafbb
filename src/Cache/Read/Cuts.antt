-- ===== src/Cache/Read/Cuts.antt =====
-- Columns cut into segments evaluate as the columns of the host do.
use mathlib.Core.List.{append-nil}
use duckdb_mlx.Common.{
  total, ℕ, zero, suc, ◌+◌, ◌≤◌, ◌<◌, ◌==◌, ◌≡◌, refl, sym, ap, ◌∙◌, Bool, true, false, List, [],
  ◌∷◌, ◌++◌, map, Option, none, some, length, get_elem?, get_or, Bool-cases, inl, inr, arith, All,
  if◌then◌else◌,
}
use duckdb_mlx.Common.Int64.{Int64}
use duckdb_mlx.Ir.{ColumnValues, ivalues, fvalues, ColumnData, SumProgram, Filter}
use duckdb_mlx.Ir.Eval.{Backend}
use duckdb_mlx.Segment.{
  Row, Segment, Reductions, program_mask, filter_mask, segment_pruned, eval_segments,
}
use duckdb_mlx.Segment.Exact.{
  IntReductions, IsExact, IsRowwise, SkipsSafely, exact, aggregate, values_where, segment_values,
  table_values, eval_segments-exact,
}
use duckdb_mlx.Cache.Store.{slice, slice_column}
use duckdb_mlx.Cache.Read.{
  indices, has_valid, valid_at, value_at, row_at, segment_from_host, sum_exprs,
}

module _ {A : Type 0} where
  get_elem?-slice :
      (o n i : ℕ) (xs : List A) → i < n → get_elem? (slice o n xs) i ≡ get_elem? xs (o + i)
  get_elem?-slice zero zero i xs h = absurd (omega arith)
  get_elem?-slice zero (suc n) i [] h = refl
  get_elem?-slice zero (suc n) zero (x ∷ xs) h = refl
  get_elem?-slice zero (suc n) (suc i) (x ∷ xs) h =
      get_elem?-slice zero n i xs (omega arith)
      ∙ (let e : 0 + i ≡ i = omega arith in
          let e' : 0 + suc i ≡ suc i = omega arith in rw (e, e') refl)
  get_elem?-slice (suc o) zero i xs h = absurd (omega arith)
  get_elem?-slice (suc o) (suc n) i [] h = refl
  get_elem?-slice (suc o) (suc n) i (x ∷ xs) h =
      get_elem?-slice o (suc n) i xs h
      ∙ (let e : suc o + i ≡ suc (o + i) = omega arith in rw e refl)

  get_or-get_elem? :
      (xs ys : List A) (i j : ℕ) (d : A)
      → get_elem? xs i ≡ get_elem? ys j
      → get_or xs i d ≡ get_or ys j d
  get_or-get_elem? xs ys i j d h =
      by_elem xs i d ∙ ap (λ o. elim o [ none ↦ d | some a ↦ a ]) h ∙ sym (by_elem ys j d)
    where
      by_elem :
          (xs : List A) (i : ℕ) (d : A)
          → get_or xs i d ≡ elim (get_elem? xs i) [ none ↦ d | some a ↦ a ]
      by_elem [] i d = refl
      by_elem (x ∷ xs) zero d = refl
      by_elem (x ∷ xs) (suc i) d = by_elem xs i d

  get_or-slice :
      (o n i : ℕ) (xs : List A) (d : A) → i < n → get_or (slice o n xs) i d ≡ get_or xs (o + i) d
  get_or-slice o n i xs d h =
      get_or-get_elem? (slice o n xs) xs i (o + i) d (get_elem?-slice o n i xs h)

indices-append : (i n m : ℕ) → indices i (n + m) ≡ indices i n ++ indices (i + n) m
indices-append i zero m =
    let e : 0 + m ≡ m = omega arith in let e' : i + 0 ≡ i = omega arith in rw (e, e') refl
indices-append i (suc n) m =
    let e : suc n + m ≡ suc (n + m) = omega arith in
    let e' : suc i + n ≡ i + suc n = omega arith in
    ap (indices i) e
    ∙ ap (◌∷◌ i) (indices-append (suc i) n m ∙ ap (λ k. indices (suc i) n ++ indices k m) e')

map-append : {A B : Type 0} (f : A → B) (xs ys : List A) → map f (xs ++ ys) ≡ map f xs ++ map f ys
map-append f [] ys = refl
map-append f (x ∷ xs) ys = ap (◌∷◌ (f x)) (map-append f xs ys)

module _ {D F : Type 0} (B : Backend D) (array_of : F → B.Arr) where
  open B use {Arr}

  value_at-slice :
      (o n i : ℕ) (vs : ColumnValues F) (valid : Option (List Bool))
      → i < n
      → value_at B array_of i (slice_column o n (record { values = vs; valid = valid }))
        ≡ value_at B array_of (o + i) (record { values = vs; valid = valid })
  value_at-slice o n i (ivalues vs) valid h = ap (λ v. B.int64_of v) (get_or-slice o n i vs 0 h)
  value_at-slice o n i (fvalues vs) valid h =
      ap (λ e. elim e [ none ↦ B.int64_of 0 | some v ↦ array_of v ]) (get_elem?-slice o n i vs h)

  valid_at-slice :
      (o n i : ℕ) (vs : ColumnValues F) (valid : Option (List Bool))
      → i < n
      → valid_at i (slice_column o n (record { values = vs; valid = valid }))
        ≡ valid_at (o + i) (record { values = vs; valid = valid })
  valid_at-slice o n i vs none h = refl
  valid_at-slice o n i vs (some valid) h = get_or-slice o n i valid true h

  row_at-slice :
      (o n i : ℕ) (cols : List (ColumnData F))
      → i < n
      → row_at B array_of (map (slice_column o n) cols) i ≡ row_at B array_of cols (o + i)
  row_at-slice o n i cols h = λ j. record { cols = values cols j; valid = valids cols j }
    where
      values :
          (cols : List (ColumnData F))
          → map (value_at B array_of i) (map (slice_column o n) cols)
            ≡ map (value_at B array_of (o + i)) cols
      values [] = refl
      values (c ∷ cs) = λ j. value_at-slice o n i c.values c.valid h j ∷ values cs j

      valids :
          (cols : List (ColumnData F))
          → map (valid_at i) (map (slice_column o n) cols) ≡ map (valid_at (o + i)) cols
      valids [] = refl
      valids (c ∷ cs) = λ j. valid_at-slice o n i c.values c.valid h j ∷ valids cs j

  rows-slice :
      (o n i m : ℕ) (cols : List (ColumnData F))
      → i + m ≤ n
      → map (row_at B array_of (map (slice_column o n) cols)) (indices i m)
        ≡ map (row_at B array_of cols) (indices (o + i) m)
  rows-slice o n i zero cols h = refl
  rows-slice o n i (suc m) cols h =
      let e : o + suc i ≡ suc (o + i) = omega arith in
      λ j.
        row_at-slice o n i cols (omega arith) j
        ∷ (rows-slice o n (suc i) m cols (omega arith)
              ∙ ap (λ k. map (row_at B array_of cols) (indices k m)) e)
            j

  masked-slice :
      (o n : ℕ) (cols : List (ColumnData F))
      → map has_valid (map (slice_column o n) cols) ≡ map has_valid cols
  masked-slice o n [] = refl
  masked-slice o n (c ∷ cs) = λ j. flag c.values c.valid j ∷ masked-slice o n cs j
    where
      flag :
          (vs : ColumnValues F) (valid : Option (List Bool))
          → has_valid (slice_column o n (record { values = vs; valid = valid }))
            ≡ has_valid (record { values = vs; valid = valid })
      flag vs none = refl
      flag vs (some valid) = refl

  -- Rows `o` to `o + n` of the columns.
  abbrev span : List (ColumnData F) → ℕ → ℕ → Segment Arr
  span cols o n = record {
    masked = map has_valid cols;
    rows = map (row_at B array_of cols) (indices o n);
  }

  segment_from_host-slice :
      (o n : ℕ) (cols : List (ColumnData F))
      → segment_from_host B array_of (map (slice_column o n) cols) n ≡ span cols o n
  unfolding segment_from_host
  segment_from_host-slice o n cols =
      let e : o + 0 ≡ o = omega arith in
      λ j. record {
        masked = masked-slice o n cols j;
        rows =
            (rows-slice o n 0 n cols (omega arith)
                ∙ ap (λ k. map (row_at B array_of cols) (indices k n)) e)
              j;
      }

  -- The segments of columns that are cut at the sizes, from row `o` on.
  abbrev pub cut : List (ColumnData F) → ℕ → List ℕ → List (Segment Arr)
  cut cols o [] = []
  cut cols o (n ∷ sizes) =
      segment_from_host B array_of (map (slice_column o n) cols) n ∷ cut cols (o + n) sizes

module _ {D F : Type 0} (B : Backend D) (R : Reductions B) (array_of : F → B.Arr) where
  open B use {Arr}

  values_where-append :
      (f : Row Arr → Bool) (v : Row Arr → Int64) (xs ys : List (Row Arr))
      → values_where B R f v (xs ++ ys) ≡ values_where B R f v xs ++ values_where B R f v ys
  values_where-append f v [] ys = refl
  values_where-append f v (r ∷ xs) ys = elim (Bool-cases (f r)) [
    | inl e ↦ rw e (ap (◌∷◌ (v r)) (values_where-append f v xs ys))
    | inr e ↦ rw e (values_where-append f v xs ys)
  ]

  segment_values-span :
      (cols : List (ColumnData F)) (o n m : ℕ) (filter : Filter D) (p : SumProgram D)
      → segment_values B R (span B array_of cols o (n + m)) filter p
        ≡ segment_values B R (span B array_of cols o n) filter p
          ++ segment_values B R (span B array_of cols (o + n) m) filter p
  unfolding segment_values program_mask filter_mask
  segment_values-span cols o n m filter p =
      ap (values_where B R _ _) (
        ap (map (row_at B array_of cols)) (indices-append o n m)
        ∙ map-append (row_at B array_of cols) (indices o n) (indices (o + n) m))
      ∙ values_where-append _ _ (map (row_at B array_of cols) (indices o n)) _

  table_values-cut :
      (cols : List (ColumnData F)) (o : ℕ) (sizes : List ℕ) (filter : Filter D) (p : SumProgram D)
      → table_values B R (cut B array_of cols o sizes) filter p
        ≡ segment_values B R (span B array_of cols o (total sizes)) filter p
  unfolding table_values
  table_values-cut cols o [] filter p = unfold segment_values in refl
  table_values-cut cols o (n ∷ sizes) filter p =
      ap
        (λ seg.
          segment_values B R seg filter p
          ++ table_values B R (cut B array_of cols (o + n) sizes) filter p)
        (segment_from_host-slice B array_of o n cols)
      ∙ ap (◌++◌ (segment_values B R (span B array_of cols o n) filter p))
          (table_values-cut cols (o + n) sizes filter p)
      ∙ sym (segment_values-span cols o n (total sizes) filter p)

  pub never_pruned :
      (filter : Filter D) (idx : ℕ) (segs : List (Segment Arr))
      → SkipsSafely B R filter none idx segs
  unfolding segment_pruned
  never_pruned filter idx [] = tt
  never_pruned filter idx (seg ∷ segs) = (λ q. cc, never_pruned filter (idx + 1) segs)

  abbrev host_segments : List (ColumnData F) → ℕ → List (Segment Arr)
  host_segments cols count = if count == 0 then [] else segment_from_host B array_of cols count ∷ []

  table_values-host_segments :
      (cols : List (ColumnData F)) (count : ℕ) (filter : Filter D) (p : SumProgram D)
      → table_values B R (host_segments cols count) filter p
        ≡ segment_values B R (span B array_of cols 0 count) filter p
  unfolding table_values segment_from_host segment_values
  table_values-host_segments cols zero filter p = refl
  table_values-host_segments cols (suc n) filter p =
      let some_rows : (suc n == 0) ≡ false = ground arith in
      rw some_rows (append-nil (segment_values B R (span B array_of cols 0 (suc n)) filter p))

  -- Columns of the host evaluate to the same int64 results and counts in one segment, as
  -- MlxSumExprs has them, and cut into segments of any sizes, as the cache has them. Conditions:
  -- the sizes add up to the number of rows, MLX reduces int64 arrays as stated by IntReductions,
  -- and the filter and each program but the counts read a column.
  pub eval_segments-sum_exprs :
      (cols : List (ColumnData F)) (count : ℕ) (sizes : List ℕ) (ps : List (SumProgram D))
      (filter : Filter D)
      → total sizes ≡ count
      → IntReductions R
      → All (IsExact B R) ps
      → IsRowwise B R filter
      → map (exact B R) (eval_segments B R (cut B array_of cols 0 sizes) ps filter none).0
        ≡ map (exact B R) (sum_exprs B R array_of cols count ps filter)
  unfolding sum_exprs
  eval_segments-sum_exprs cols count sizes ps filter all laws exacts rowwise =
      eval_segments-exact B R (cut B array_of cols 0 sizes) ps filter none laws exacts rowwise
        (never_pruned filter 0 _)
      ∙ (λ i. map (λ p. (aggregate p.kind (same p i), length (same p i))) ps)
      ∙ sym (
          eval_segments-exact B R (host_segments cols count) ps filter none laws exacts rowwise
            (never_pruned filter 0 _))
    where
      same :
          (p : SumProgram D)
          → table_values B R (cut B array_of cols 0 sizes) filter p
            ≡ table_values B R (host_segments cols count) filter p
      same p =
          table_values-cut cols 0 sizes filter p
          ∙ ap (λ n. segment_values B R (span B array_of cols 0 n) filter p) all
          ∙ sym (table_values-host_segments cols count filter p)
