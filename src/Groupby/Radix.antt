-- ===== src/Groupby/Radix.antt =====
-- src/bridge/mlx_groupby_radix.cpp, HostSegmentReduce: the host's reduction of the keys and values
-- that the radix passes leave, in one loop or, from 16384 rows on, by eight threads. An entry is a
-- key and its value; `to_double` is the cast of an int64_t and `sort` is `std::sort` by key.
pub mod Runs
pub mod Threads
use duckdb_mlx.Common.{
  ℕ, zero, suc, ◌+◌, ◌-◌, ◌*◌, ◌/◌, Bool, true, false, ◌&&◌, List, [], ◌∷◌, ◌++◌, map, ltb, ◌==◌,
  length, get_or, take, drop, if◌then◌else◌,
}
use duckdb_mlx.Common.Int64.{Int64, add_i64}
use duckdb_mlx.Groupby.{GroupbyRow}

abbrev pub seg_threads : ℕ
seg_threads = 8

-- `sk[i]`
abbrev pub key_at : List (Int64 × Int64) → ℕ → Int64
key_at es i = (get_or es i (0, 0)).0

module _ {V : Type 0} (to_double : Int64 → V) where
  -- The loop inside, at a run of the key `k`; where the run ends its row is written, and the loop
  -- outside begins the next run.
  unfoldable pub reduce_run : Int64 → Int64 → ℕ → List (Int64 × Int64) → List (GroupbyRow V)
  reduce_run k sum count [] = record { key = k; sum = to_double sum; count = count } ∷ []
  reduce_run k sum count ((key, v) ∷ es) = elim (key == k) [
    | true ↦ reduce_run k (add_i64 sum v) (suc count) es
    | false ↦
        record { key = k; sum = to_double sum; count = count } ∷ reduce_run key (add_i64 0 v) 1 es
  ]

  unfoldable pub reduce_runs : List (Int64 × Int64) → List (GroupbyRow V)
  reduce_runs [] = []
  reduce_runs ((k, v) ∷ es) = reduce_run k (add_i64 0 v) 1 es

-- A thread's loops, which keep the keys and the sums alone.
unfoldable pub thread_run : Int64 → Int64 → List (Int64 × Int64) → List (Int64 × Int64)
thread_run k sum [] = (k, sum) ∷ []
thread_run k sum ((key, v) ∷ es) = elim (key == k) [
  | true ↦ thread_run k (add_i64 sum v) es
  | false ↦ (k, sum) ∷ thread_run key (add_i64 0 v) es
]

unfoldable pub thread_runs : List (Int64 × Int64) → List (Int64 × Int64)
thread_runs [] = []
thread_runs ((k, v) ∷ es) = thread_run k (add_i64 0 v) es

-- `s < n && s > 0 && sk[s] == sk[s - 1]`
abbrev pub inside_run : List (Int64 × Int64) → ℕ → Bool
inside_run es s = ltb s (length es) && (ltb 0 s && (key_at es s == key_at es (s - 1)))

-- The loop that moves a start behind the run it stands in; the fuel is the number of entries.
unfoldable pub advance : ℕ → List (Int64 × Int64) → ℕ → ℕ
advance zero es s = s
advance (suc fuel) es s = elim (inside_run es s) [ true ↦ advance fuel es (suc s) | false ↦ s ]

-- `starts[t]`, `starts[t + 1]`, ... with `left` threads to go, and at last `n`.
unfoldable pub starts_from : ℕ → ℕ → List (Int64 × Int64) → List ℕ
starts_from t zero es = length es ∷ []
starts_from t (suc left) es =
    advance (length es) es (length es / seg_threads * t) ∷ starts_from (suc t) left es

-- What the threads find from `lo` on, one after the other.
unfoldable pub thread_rows : List (Int64 × Int64) → ℕ → List ℕ → List (Int64 × Int64)
thread_rows es lo [] = []
thread_rows es lo (hi ∷ his) = thread_runs (take (hi - lo) (drop lo es)) ++ thread_rows es hi his

module _ {V : Type 0} (to_double : Int64 → V) where
  abbrev pub row_without_count : Int64 × Int64 → GroupbyRow V
  row_without_count (k, sum) = record { key = k; sum = to_double sum; count = 0 }

  unfoldable pub host_segment_reduce :
      (List (GroupbyRow V) → List (GroupbyRow V)) → List (Int64 × Int64) → List (GroupbyRow V)
  host_segment_reduce sort es =
      if ltb (length es) 16384
      then reduce_runs to_double es
      else sort (map row_without_count (thread_rows es 0 (starts_from 1 (seg_threads - 1) es)))
