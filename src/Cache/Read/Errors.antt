-- ===== src/Cache/Read/Errors.antt =====
-- When a read of the cache throws.
use Prim.Native.String.{String}
use duckdb_mlx.Common.{
  ℕ, ◌==◌, ◌≡◌, ◌≢◌, refl, ◌⊎◌, true, false, List, [], ◌∷◌, map, some, length, Option-cases,
  Bool-cases, inl, inr, arith, All,
}
use mathlib.Core.Bool.{false≢true}
use duckdb_mlx.Common.Assoc.{find}
use duckdb_mlx.Ir.{SumProgram, Filter}
use duckdb_mlx.Ir.Eval.{Backend}
use duckdb_mlx.Segment.{Reductions, SumResult, CacheStats}
use duckdb_mlx.Cache.{Cache, is_present, has_from, cache_has}
use duckdb_mlx.Cache.Store.{StoredSegment, Column, Columns, size_of}
use duckdb_mlx.Cache.Read.{Result, ok, err, check_columns, sum_exprs_cached}

err≢ok : {E A : Type 0} {e : E} {a : A} → err e ≢ ok a
err≢ok = cc

Result-cases : {E A : Type 0} (r : Result E A) → ((a : A) × (r ≡ ok a)) ⊎ ((e : E) × (r ≡ err e))
Result-cases (ok a) = inl (a, refl)
Result-cases (err e) = inr (e, refl)

module _ {D F : Type 0} where
  -- A check that passes, after `nsegments` were seen.
  abbrev Passes : List String → ℕ → List ℕ → Columns D F → Type 0
  Passes keys n counts store =
      (m : ℕ) × (sizes : List ℕ) × (check_columns keys n counts store ≡ ok (m, sizes))

  has_from-Passes :
      (keys : List String) (rows n : ℕ) (counts : List ℕ) (store : Columns D F)
      → has_from keys rows n store ≡ true
      → Passes keys n counts store
  unfolding has_from check_columns
  has_from-Passes [] rows n counts store h = (n, counts, refl)
  has_from-Passes (key ∷ keys) rows n counts store h = elim (Option-cases (find key store)) [
    | inl e ↦ absurd (false≢true (rw (e, has_from) at h))
    | inr (col, e) ↦ elim (Bool-cases (is_present rows (some col))) [
      | inr absent ↦ absurd (false≢true (rw (e, absent, has_from) at h))
      | inl present ↦ elim (Bool-cases (n == 0)) [
        | inl first ↦
            rw (e, first, check_columns)
              (has_from-Passes keys rows (length col.segments) _ store
                (rw (e, present, first, has_from) at h))
        | inr later ↦ elim (Bool-cases (length col.segments == n)) [
          | inl same ↦
              rw (e, later, same, check_columns)
                (has_from-Passes keys rows n counts store
                  (rw (e, present, later, same, has_from) at h))
          | inr other ↦ absurd (false≢true (rw (e, present, later, other, has_from) at h))
        ]
      ]
    ]
  ]

  -- Columns with their segments that a query can read: each key has a column, and all columns have `n`
  -- segments.
  abbrev pub HasSegments : ℕ → List String → Columns D F → Type 0
  HasSegments n keys store =
      All (λ key. (col : Column D F) × (find key store ≡ some col) × (length col.segments ≡ n)) keys

  -- A check that passes with the segments of a column seen leaves no key out.
  Passes-HasSegments :
      (keys : List String) (n m : ℕ) (counts sizes : List ℕ) (store : Columns D F)
      → (n == 0) ≡ false
      → check_columns keys n counts store ≡ ok (m, sizes)
      → HasSegments n keys store
  unfolding check_columns
  Passes-HasSegments [] n m counts sizes store seen h = tt
  Passes-HasSegments (key ∷ keys) n m counts sizes store seen h =
      elim (Option-cases (find key store)) [
        | inl e ↦ absurd (err≢ok (rw (e, check_columns) at h))
        | inr (col, e) ↦ elim (Bool-cases (length col.segments == n)) [
          | inl same ↦ (
            (col, e, ground (arith, same)),
            Passes-HasSegments keys n m counts sizes store seen
                (rw (e, seen, same, check_columns) at h),
          )
          | inr other ↦ absurd (err≢ok (rw (e, seen, other, check_columns) at h))
        ]
      ]

module _ {D F : Type 0} (B : Backend D) (R : Reductions B) (array_of : F → B.Arr) where
  -- Where MlxCacheHas answers yes, MlxSumExprsCached does not throw: it returns results.
  pub cache_has-sum_exprs_cached :
      (keys : List String) (rows : ℕ) (programs : List (SumProgram D)) (filter : Filter D)
      (c : Cache (StoredSegment D F))
      → cache_has keys rows c ≡ true
      → (r : List (SumResult D) × CacheStats) × (sum_exprs_cached B R array_of keys programs filter
            c
          ≡ ok r)
  unfolding cache_has sum_exprs_cached
  cache_has-sum_exprs_cached keys rows programs filter c h =
      let (m, sizes, e) = has_from-Passes keys rows 0 [] c.store h in
      rw (e, sum_exprs_cached) (_, refl)

  -- MlxSumExprsCached returns results only if every key has a column with as many segments as that of
  -- the first key: it throws where a column is missing or has another number of segments.
  -- Condition: the first key has a column with segments.
  pub sum_exprs_cached-HasSegments :
      (key : String) (keys : List String) (programs : List (SumProgram D)) (filter : Filter D)
      (c : Cache (StoredSegment D F)) (col : Column D F) (r : List (SumResult D) × CacheStats)
      → find key c.store ≡ some col
      → (length col.segments == 0) ≡ false
      → sum_exprs_cached B R array_of (key ∷ keys) programs filter c ≡ ok r
      → HasSegments (length col.segments) keys c.store
  unfolding sum_exprs_cached check_columns
  sum_exprs_cached-HasSegments key keys programs filter c col r e seen h =
      elim (Result-cases (
        check_columns keys (length col.segments)
          (map (λ (s : StoredSegment D F). size_of s.column.values) col.segments) c.store)) [
            | inl ((m, sizes), passed) ↦
                Passes-HasSegments keys (length col.segments) m _ sizes c.store seen passed
            | inr (x, failed) ↦
                absurd (err≢ok (rw (e, failed, check_columns, sum_exprs_cached) at h))
          ]
