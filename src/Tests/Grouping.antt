-- ===== src/Tests/Grouping.antt =====
-- Five rows of three keys, one of them NULL, and the choice of a grouping for such rows.
use Prim.Native.String.{String}
use duckdb_mlx.Common.{
  ℕ, All, ◌+◌, ◌-◌, ◌^◌, sym, ◌∙◌, ◌≤◌, ◌≡◌, ◌≢◌, refl, true, false, ◌&&◌, List, [], ◌∷◌, none,
  some, arith, pos,
}
use duckdb_mlx.Common.Int64.{Int64, IsInt64, int64_min, rank}
use duckdb_mlx.Groupby.{GroupbyRow, find_row, group_sum, group_count}
use duckdb_mlx.Groupby.Dense.{
  groupby_sum_dense_host, key_bounds, dense_span_ok, dense_rows, fill_sums, fill_counts, span_of,
  dense_max_span,
}
use duckdb_mlx.Groupby.Dense.Correct.{groupby_sum_dense_host_correct, dense_span_ok-span}
use duckdb_mlx.Groupby.Sum.{groupby_sum, groupby_sum-group_of}
use duckdb_mlx.Groupby.Path.{
  Groupings, groupby_path, set_path_override, should_try_slotlock, should_try_radix,
}
use duckdb_mlx.Groupby.Path.Checked.{groupby_path-set_path_override, should_try-exclusive}

abbrev one_row : ℕ → List (GroupbyRow ℕ)
one_row total = record { key = 1; sum = total; count = 2 } ∷ []

-- The slotlock grouping has lost a value.
abbrev groupings : Groupings ℕ
groupings = record {
  hash = [];
  dense_gpu = [];
  sort_scatter = one_row 7;
  radix_gpu = one_row 7;
  slotlock_gpu = one_row 3;
}

abbrev rows : List (Int64 × ℕ)
rows = (7, 10) ∷ (5, 20) ∷ (7, 1) ∷ (int64_min, 99) ∷ (8, 4) ∷ []

rows_grouped :
    groupby_sum_dense_host 0 ◌+◌ rows
    ≡ record { key = 5; sum = 20; count = 1 }
      ∷ record { key = 7; sum = 11; count = 2 }
      ∷ record { key = 8; sum = 4; count = 1 }
      ∷ []
unfolding groupby_sum_dense_host key_bounds dense_span_ok dense_rows fill_sums fill_counts
rows_grouped = refl

not_empty : {r : GroupbyRow ℕ} {rs : List (GroupbyRow ℕ)} → (r ∷ rs) ≢ []
not_empty h = cc

some_rows : groupby_sum_dense_host 0 ◌+◌ rows ≢ []
some_rows h = not_empty (sym rows_grouped ∙ h)

rows_IsInt64 : All (λ e. IsInt64 e.0) rows
rows_IsInt64 = (omega arith, (omega arith, (omega arith, (omega arith, (omega arith, tt)))))

groupby_sum_dense_host_correct_example :
    find_row 7 (groupby_sum_dense_host 0 ◌+◌ rows) ≡ some (11, 2)
unfolding group_sum group_count
groupby_sum_dense_host_correct_example =
    groupby_sum_dense_host_correct 0 ◌+◌ rows 7
      (omega arith, (omega arith, (omega arith, (omega arith, (omega arith, tt))))) some_rows
      (omega arith) (omega arith)

-- The first row is NULL by its validity, and is summed all the same.
groupby_sum-group_of_example :
    find_row 7 (
      groupby_sum 0 ◌+◌
        (λ v. v)
        (λ v. v)
        (λ es. groupings)
        (λ v. v)
        none
        rows
        (some (false ∷ true ∷ true ∷ true ∷ true ∷ []))
        false)
    ≡ some (11, 2)
unfolding group_sum group_count
groupby_sum-group_of_example =
    groupby_sum-group_of 0 ◌+◌ (λ v. v) (λ v. v) (λ es. groupings) (λ v. v) none rows
      (some (false ∷ true ∷ true ∷ true ∷ true ∷ [])) 7 rows_IsInt64 some_rows (omega arith)
      (omega arith)

span_ok : dense_span_ok (2 ^ 64 - 3) 5 ≡ true
unfolding dense_span_ok
span_ok = refl

-- From -3 to 5.
dense_span_ok-span_example :
    (rank (2 ^ 64 - 3) + span_of (2 ^ 64 - 3) 5 ≡ rank 5 + 1)
    × (span_of (2 ^ 64 - 3) 5 ≤ dense_max_span)
dense_span_ok-span_example = dense_span_ok-span (2 ^ 64 - 3) 5 (omega arith) (omega arith) span_ok

abbrev radix : String
radix = "radix"

groupby_path-set_path_override_example :
    ((radix ≢ "") → groupby_path (some "sort") (set_path_override (some radix)) ≡ some radix)
    × (groupby_path (some "sort") (set_path_override (some "")) ≡ some "sort")
    × (groupby_path (some "sort") (set_path_override none) ≡ some "sort")
groupby_path-set_path_override_example = groupby_path-set_path_override (some "sort") radix

should_try-exclusive_example :
    (should_try_slotlock none (pos 2000) && should_try_radix none 60000 (pos 2000)) ≡ false
should_try-exclusive_example = should_try-exclusive none 60000 (pos 2000)
