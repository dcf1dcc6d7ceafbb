-- ===== src/Groupby/Radix/Runs.antt =====
-- The rows of sorted entries: one for each key, with its sum.
use duckdb_mlx.Common.{
  ℕ, suc, ◌+◌, ◌≤◌, ◌<◌, ◌≡◌, refl, sym, ap, subst, ◌∙◌, true, false, List, [], ◌∷◌, map, Option,
  none, some, ltb, ◌==◌, length, Bool-cases, inl, inr, ◌>>=◌, arith, if◌then◌else◌, All,
}
use mathlib.Core.Bool.{false≢true}
use duckdb_mlx.Common.Int64.{Int64, IsInt64, rank, rank_injective, add_i64}
use duckdb_mlx.Groupby.{GroupbyRow, group_sum, group_count, find_row}
use duckdb_mlx.Groupby.Radix.{
  reduce_run, reduce_runs, thread_run, thread_runs, row_without_count, host_segment_reduce,
}
use duckdb_mlx.Groupby.Radix.Threads.{thread_rows-thread_runs}

-- The keys do not fall, from `k` on.
abbrev pub IsAscending : Int64 → List (Int64 × Int64) → Type 0
IsAscending k [] = Unit
IsAscending k ((j, _) ∷ es) = (rank k ≤ rank j) × IsAscending j es

-- Int64 keys that do not fall.
abbrev pub IsSorted : List (Int64 × Int64) → Type 0
IsSorted [] = Unit
IsSorted ((k, v) ∷ es) = All (λ e. IsInt64 e.0) ((k, v) ∷ es) × IsAscending k es

not_equal : (k j : Int64) → rank k < rank j → (j == k) ≡ false
not_equal k j lt = elim (Bool-cases (j == k)) [
  | inl e ↦ (let same : j ≡ k = ground (arith, e) in absurd (omega (arith, ap rank same)))
  | inr e ↦ e
]

equal : (k : Int64) → (k == k) ≡ true
equal k = ground arith

rank_lt :
    (k j : Int64) → IsInt64 k → IsInt64 j → rank k ≤ rank j → (j == k) ≡ false → rank k < rank j
rank_lt k j hk hj le ne = elim (Bool-cases (rank j == rank k)) [
  | inl e ↦
      let same : rank j ≡ rank k = ground (arith, e) in
      absurd (false≢true (sym ne ∙ ap (λ i. i == k) (rank_injective j k hj hk same) ∙ equal k))
  | inr e ↦ ground (arith, e, le)
]

-- A key below all that come does not occur.
absent :
    (k j : Int64) (es : List (Int64 × Int64)) (sum : Int64)
    → rank k < rank j
    → IsAscending j es
    → (group_count k es ≡ 0) × (group_sum add_i64 k sum es ≡ sum)
unfolding group_count group_sum
absent k j [] sum lt up = (refl, refl)
absent k j ((i, v) ∷ es) sum lt (le, up) =
    let ne : (i == k) ≡ false = not_equal k i (omega arith) in
    rw ne (absent k i es sum (omega arith) up)

module _ {V : Type 0} (to_double : Int64 → V) where
  -- What is reported for `k`: the sum of its values and, as `show` has it, their number.
  abbrev pub segment_of : (ℕ → ℕ) → Int64 → List (Int64 × Int64) → Option (V × ℕ)
  segment_of show k es =
      if ltb 0 (group_count k es)
      then some (to_double (group_sum add_i64 k 0 es), show (group_count k es))
      else none

  -- In the run of `k`.
  find_row-reduce_run :
      (k sum : Int64) (count : ℕ) (es : List (Int64 × Int64))
      → IsInt64 k
      → All (λ e. IsInt64 e.0) es
      → IsAscending k es
      → find_row k (reduce_run to_double k sum count es)
        ≡ some (to_double (group_sum add_i64 k sum es), count + group_count k es)
  unfolding find_row reduce_run group_sum group_count
  find_row-reduce_run k sum count [] hk ints up =
      rw (equal k) (let e : count ≡ count + 0 = omega arith in ap (λ c. some (to_double sum, c)) e)
  find_row-reduce_run k sum count ((j, v) ∷ es) hk (hj, ints) (le, up) =
      elim (Bool-cases (j == k)) [
        | inl e ↦
            let same : j ≡ k = ground (arith, e) in
            rw (e, reduce_run)
              (find_row-reduce_run k (add_i64 sum v) (suc count) es hk ints
                  (subst (λ i. IsAscending i es) same up)
                ∙ (let c : suc count + group_count k es ≡ count + suc (group_count k es) =
                      omega arith in
                    ap (λ c. some (to_double (group_sum add_i64 k (add_i64 sum v) es), c)) c))
        | inr e ↦
            let (no_count, no_sum) = absent k j es sum (rank_lt k j hk hj le e) up in
            rw (e, reduce_run, equal k, no_count, no_sum)
              (let c : count ≡ count + 0 = omega arith in ap (λ c. some (to_double sum, c)) c)
      ]

  some_of :
      (c : ℕ) (v : V)
      → ◌≡◌ {A = Option (V × ℕ)} (some (v, 1 + c)) (if ltb 0 (suc c) then some (v, suc c) else none)
  some_of c v =
      let met : ltb 0 (suc c) ≡ true = ground arith in
      let one : 1 + c ≡ suc c = omega arith in rw (met, one) refl

  -- Behind the run of another key.
  find_row-reduce_run_other :
      (q k sum : Int64) (count : ℕ) (es : List (Int64 × Int64))
      → (k == q) ≡ false
      → IsInt64 k
      → All (λ e. IsInt64 e.0) es
      → IsAscending k es
      → find_row q (reduce_run to_double k sum count es) ≡ segment_of (λ c. c) q es
  unfolding find_row reduce_run group_sum group_count
  find_row-reduce_run_other q k sum count [] ne hk ints up = rw ne refl
  find_row-reduce_run_other q k sum count ((j, v) ∷ es) ne hk (hj, ints) (le, up) =
      elim (Bool-cases (j == k)) [
        | inl e ↦
            let same : j ≡ k = ground (arith, e) in
            let other : (j == q) ≡ false = subst (λ i. (i == q) ≡ false) (sym same) ne in
            rw (e, reduce_run, other)
              (find_row-reduce_run_other q k (add_i64 sum v) (suc count) es ne hk ints
                (subst (λ i. IsAscending i es) same up))
        | inr e ↦
            rw (e, reduce_run, ne)
              (elim (Bool-cases (j == q)) [
                | inl f ↦
                    let same : j ≡ q = ground (arith, f) in
                    rw f (
                      subst
                        (λ i.
                          find_row i (reduce_run to_double j (add_i64 0 v) 1 es)
                          ≡ some (
                            to_double (group_sum add_i64 i (add_i64 0 v) es),
                            1 + group_count i es,
                          ))
                        same (find_row-reduce_run j (add_i64 0 v) 1 es hj ints up)
                      ∙ some_of (group_count q es) _)
                | inr f ↦ rw f (find_row-reduce_run_other q j (add_i64 0 v) 1 es f hj ints up)
              ])
      ]

  find_row-reduce_runs :
      (q : Int64) (es : List (Int64 × Int64))
      → IsSorted es
      → find_row q (reduce_runs to_double es) ≡ segment_of (λ c. c) q es
  unfolding find_row reduce_runs group_sum group_count
  find_row-reduce_runs q [] sorted = refl
  find_row-reduce_runs q ((k, v) ∷ es) ((hk, ints), up) = elim (Bool-cases (k == q)) [
    | inl e ↦
        let same : k ≡ q = ground (arith, e) in
        rw e (
          subst
            (λ i.
              find_row i (reduce_run to_double k (add_i64 0 v) 1 es)
              ≡ some (to_double (group_sum add_i64 i (add_i64 0 v) es), 1 + group_count i es))
            same (find_row-reduce_run k (add_i64 0 v) 1 es hk ints up)
          ∙ some_of (group_count q es) _)
    | inr e ↦ rw e (find_row-reduce_run_other q k (add_i64 0 v) 1 es e hk ints up)
  ]

  abbrev without_count : GroupbyRow V → GroupbyRow V
  without_count r = record { key = r.key; sum = r.sum; count = 0 }

  rows-thread_run :
      (k sum : Int64) (count : ℕ) (es : List (Int64 × Int64))
      → map (row_without_count to_double) (thread_run k sum es)
        ≡ map without_count (reduce_run to_double k sum count es)
  unfolding thread_run reduce_run
  rows-thread_run k sum count [] = refl
  rows-thread_run k sum count ((j, v) ∷ es) = elim (Bool-cases (j == k)) [
    | inl e ↦ rw (e, thread_run, reduce_run) (rows-thread_run k (add_i64 sum v) (suc count) es)
    | inr e ↦
        rw (e, thread_run, reduce_run)
          (ap (◌∷◌ (row_without_count to_double (k, sum))) (rows-thread_run j (add_i64 0 v) 1 es))
  ]

  rows-thread_runs :
      (es : List (Int64 × Int64))
      → map (row_without_count to_double) (thread_runs es)
        ≡ map without_count (reduce_runs to_double es)
  unfolding thread_runs reduce_runs
  rows-thread_runs [] = refl
  rows-thread_runs ((k, v) ∷ es) = rows-thread_run k (add_i64 0 v) 1 es

  find_row-without_count :
      (q : Int64) (rows : List (GroupbyRow V))
      → find_row q (map without_count rows) ≡ (find_row q rows >>= λ r. some (r.0, 0))
  unfolding find_row
  find_row-without_count q [] = refl
  find_row-without_count q (r ∷ rows) = elim (Bool-cases (r.key == q)) [
    | inl e ↦ rw e refl
    | inr e ↦ rw e (find_row-without_count q rows)
  ]

  segment_of-without_count :
      (q : Int64) (es : List (Int64 × Int64))
      → (segment_of (λ c. c) q es >>= λ r. some (r.0, 0)) ≡ segment_of (λ c. 0) q es
  segment_of-without_count q es = elim (Bool-cases (ltb 0 (group_count q es))) [
    | inl e ↦ rw e refl
    | inr e ↦ rw e refl
  ]

  -- The keys of the rows ascend, from above `k` on.
  abbrev pub IsAbove : Int64 → List (GroupbyRow V) → Type 0
  IsAbove k [] = Unit
  IsAbove k (r ∷ rows) = (rank k < rank (r.key)) × IsAbove (r.key) rows

  -- `std::sort` by key leaves rows with ascending keys as they are.
  abbrev pub KeepsSorted : (List (GroupbyRow V) → List (GroupbyRow V)) → Type 0
  KeepsSorted sort =
      (r : GroupbyRow V) (rows : List (GroupbyRow V))
      → IsAbove (r.key) rows
      → sort (r ∷ rows) ≡ r ∷ rows

  thread_run-IsAbove :
      (i k sum : Int64) (es : List (Int64 × Int64))
      → rank i < rank k
      → IsInt64 k
      → All (λ e. IsInt64 e.0) es
      → IsAscending k es
      → IsAbove i (map (row_without_count to_double) (thread_run k sum es))
  unfolding thread_run
  thread_run-IsAbove i k sum [] lt hk ints up = (lt, tt)
  thread_run-IsAbove i k sum ((j, v) ∷ es) lt hk (hj, ints) (le, up) = elim (Bool-cases (j == k)) [
    | inl e ↦
        let same : j ≡ k = ground (arith, e) in
        rw (e, thread_run)
          (thread_run-IsAbove i k (add_i64 sum v) es lt hk ints
            (subst (λ i. IsAscending i es) same up))
    | inr e ↦
        rw (e, thread_run)
          (lt, thread_run-IsAbove k j (add_i64 0 v) es (rank_lt k j hk hj le e) hj ints up)
  ]

  sort-thread_run :
      (sort : List (GroupbyRow V) → List (GroupbyRow V)) (k sum : Int64) (es : List (Int64 × Int64))
      → KeepsSorted sort
      → IsInt64 k
      → All (λ e. IsInt64 e.0) es
      → IsAscending k es
      → sort (map (row_without_count to_double) (thread_run k sum es))
        ≡ map (row_without_count to_double) (thread_run k sum es)
  unfolding thread_run
  sort-thread_run sort k sum [] keeps hk ints up = keeps _ [] tt
  sort-thread_run sort k sum ((j, v) ∷ es) keeps hk (hj, ints) (le, up) =
      elim (Bool-cases (j == k)) [
        | inl e ↦
            let same : j ≡ k = ground (arith, e) in
            rw (e, thread_run)
              (sort-thread_run sort k (add_i64 sum v) es keeps hk ints
                (subst (λ i. IsAscending i es) same up))
        | inr e ↦
            rw (e, thread_run)
              (keeps _ _
                (thread_run-IsAbove k j (add_i64 0 v) es (rank_lt k j hk hj le e) hj ints up))
      ]

  sort-thread_runs :
      (sort : List (GroupbyRow V) → List (GroupbyRow V)) (es : List (Int64 × Int64))
      → KeepsSorted sort
      → IsSorted es
      → 0 < length es
      → sort (map (row_without_count to_double) (thread_runs es))
        ≡ map (row_without_count to_double) (thread_runs es)
  unfolding thread_runs
  sort-thread_runs sort [] keeps sorted pos = absurd (omega arith)
  sort-thread_runs sort ((k, v) ∷ es) keeps ((hk, ints), up) pos =
      sort-thread_run sort k (add_i64 0 v) es keeps hk ints up

  large : (es : List (Int64 × Int64)) → ltb (length es) 16384 ≡ false → 0 < length es
  large es e = ground (arith, e)

  -- For sorted int64 keys the host's reduction reports for each key that occurs the sum of all
  -- its values, as int64 addition has it, and nothing for any other key, in one loop and by
  -- threads alike; the number of its entries below 16384 entries, and 0 from there on. Condition:
  -- the sort keeps rows whose keys ascend.
  pub host_segment_reduce-segment_of :
      (sort : List (GroupbyRow V) → List (GroupbyRow V)) (q : Int64) (es : List (Int64 × Int64))
      → KeepsSorted sort
      → IsSorted es
      → find_row q (host_segment_reduce to_double sort es)
        ≡ segment_of (λ c. if ltb (length es) 16384 then c else 0) q es
  unfolding host_segment_reduce
  host_segment_reduce-segment_of sort q es keeps sorted =
      elim (Bool-cases (ltb (length es) 16384)) [
        | inl e ↦ rw e (find_row-reduce_runs q es sorted)
        | inr e ↦
            rw (e, thread_rows-thread_runs es)
              (ap (find_row q)
                  (sort-thread_runs sort es keeps sorted (large es e) ∙ rows-thread_runs es)
                ∙ find_row-without_count q (reduce_runs to_double es)
                ∙ ap (λ o. o >>= λ r. some (r.0, 0)) (find_row-reduce_runs q es sorted)
                ∙ segment_of-without_count q es)
      ]
