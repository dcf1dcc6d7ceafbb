-- ===== src/Tests/Sorted.antt =====
-- Sorted keys that the host reduces, and the chunks of a column that a sink buffers.
use duckdb_mlx.Common.{
  ℕ, ◌+◌, ◌-◌, ◌≡◌, refl, false, List, [], ◌∷◌, ◌++◌, arith, if◌then◌else◌, ltb, length, inl,
}
use mathlib.Core.Bool.{false≢true}
use duckdb_mlx.Common.Int64.{Int64}
use duckdb_mlx.Groupby.{find_row}
use duckdb_mlx.Groupby.Radix.{
  seg_threads, host_segment_reduce, reduce_runs, reduce_run, thread_rows, thread_runs, starts_from,
}
use duckdb_mlx.Groupby.Radix.Threads.{thread_rows-thread_runs}
use duckdb_mlx.Groupby.Radix.Runs.{IsSorted, segment_of, host_segment_reduce-segment_of}
use duckdb_mlx.Planner.Column.{UnifiedFormat, Buffer, append_column}
use duckdb_mlx.Planner.Column.Rows.{IsFormat, IsBuffer, rows_of, chunk_rows, append_column-rows_of}

abbrev entries : List (Int64 × Int64)
entries = (3, 1) ∷ (3, 2) ∷ (5, 4) ∷ []

entries-IsSorted : IsSorted entries
entries-IsSorted =
    ((omega arith, (omega arith, (omega arith, tt))), (omega arith, (omega arith, tt)))

entries_rows :
    reduce_runs (λ v. v) entries
    ≡ record { key = 3; sum = 3; count = 2 } ∷ record { key = 5; sum = 4; count = 1 } ∷ []
unfolding reduce_runs reduce_run
entries_rows = refl

host_segment_reduce-segment_of_example :
    find_row 3 (host_segment_reduce (λ v. v) (λ rows. rows) entries)
    ≡ segment_of (λ v. v) (λ c. if ltb (length entries) 16384 then c else 0) 3 entries
host_segment_reduce-segment_of_example =
    host_segment_reduce-segment_of (λ v. v) (λ rows. rows) 3 entries (λ r rows above. refl)
      entries-IsSorted

thread_rows-thread_runs_example :
    thread_rows entries 0 (starts_from 1 (seg_threads - 1) entries) ≡ thread_runs entries
thread_rows-thread_runs_example = thread_rows-thread_runs entries

-- Row 1 of the chunk is NULL.
abbrev chunk : UnifiedFormat ℕ
chunk = record {
  data_at = λ i. 10 + i;
  sel_is_set = false;
  get_index = λ i. i;
  all_valid = false;
  row_is_valid = λ i. ltb i 1;
}

abbrev buffer : Buffer ℕ
buffer = record { values = 7 ∷ []; valid = [] }

chunk-IsFormat : IsFormat chunk
chunk-IsFormat = record { index_unset = λ h i. refl; valid_all = λ h i. absurd (false≢true h) }

append_column-rows_of_example :
    IsBuffer (λ v. v) 0 chunk (append_column (λ v. v) 0 chunk 2 buffer)
    × (rows_of
          (append_column (λ v. v) 0 chunk 2 buffer).values
          (append_column (λ v. v) 0 chunk 2 buffer).valid
        ≡ rows_of buffer.values buffer.valid ++ chunk_rows (λ v. v) 0 chunk 0 2)
append_column-rows_of_example =
    append_column-rows_of (λ v. v) 0 chunk 2 buffer chunk-IsFormat (inl refl)
