-- ===== src/Groupby/Cached/Safe.antt =====
-- MlxGroupbyCachedSafe and MlxGroupbySumCached of src/bridge/mlx_bridge.cpp: the test before the reading.
use Prim.Native.String.{String}
use text.Mathlib.Text.{◌==◌ as str_eq}
use mathlib.Core.Bool.{false≢true}
use mathlib.Core.Option.{some-injective, none-ne-some}
use duckdb_mlx.Common.{
  ◌≡◌, refl, subst, Bool, true, false, not, List, [], ◌∷◌, none, some, pos, Option-cases,
  Bool-cases, inl, inr, ◌⊎◌, ℤ, if◌then◌else◌,
}
use duckdb_mlx.Common.Int64.{Int64}
use duckdb_mlx.Common.Assoc.{find}
use duckdb_mlx.Prune.{DoubleOrder}
use duckdb_mlx.Zone.{Zoned, int64_zoned}
use duckdb_mlx.Segment.{is_empty}
use duckdb_mlx.Cache.{CachedColumn}
use duckdb_mlx.Cache.Store.{StoredSegment}
use duckdb_mlx.Cache.Store.Correct.{IsZoned, IsZonedStore}
use duckdb_mlx.Cache.Read.{Result, ok, err}
use duckdb_mlx.Groupby.{GroupbyRow}
use duckdb_mlx.Groupby.Accumulator.{
  usable, dense_groupby_key, DenseStore, dense_ready, dense_try_read,
}
use duckdb_mlx.Groupby.Cached.{
  segment_mismatch, SumCachedError, Columns, alike, zone_maps, columns_exact, groupby_cached_safe,
  groupby_sum_cached,
}
use duckdb_mlx.Groupby.Cached.Exact.{
  KeepsBounds, EachSegment, Exact, Present, keys_exact-EachSegment, no_nulls-EachSegment,
}

usable-none : (V : Type 0) (population : ℤ) → usable {V = V} population none ≡ false
unfolding usable
usable-none V population = refl

-- An accumulator is read where it is ready.
read_cases :
    {V : Type 0} (group_key value_key : String) (population : ℤ) (accs : DenseStore V)
    → ((dense_ready group_key value_key population accs ≡ true)
        × ((rows : List (GroupbyRow V)) × (dense_try_read group_key value_key population accs
              ≡ some rows)))
      ⊎ ((dense_ready group_key value_key population accs ≡ false)
          × (dense_try_read group_key value_key population accs ≡ none))
unfolding dense_ready dense_try_read
read_cases {V = V} group_key value_key population accs =
    elim (Option-cases (find (dense_groupby_key group_key value_key) accs)) [
      | inl e ↦ rw (e, dense_try_read) (inr (usable-none V population, refl))
      | inr (acc, e) ↦ elim (Bool-cases (usable population (some acc))) [
        | inl met ↦ rw (e, dense_try_read, met) (inl (refl, (_, refl)))
        | inr unmet ↦ rw (e, dense_try_read, unmet) (inr (refl, refl))
      ]
    ]

find-IsZoned :
    {D F : Type 0} (of_int : Int64 → D) (zoned : Zoned D F) (zero_double : D) (key : String)
    (store : Columns D F) (c : CachedColumn (StoredSegment D F))
    → IsZonedStore of_int zoned zero_double store
    → find key store ≡ some c
    → IsZoned of_int zoned zero_double c
find-IsZoned of_int zoned zero_double key [] c hs e = absurd (none-ne-some _ e)
find-IsZoned of_int zoned zero_double key ((j, d) ∷ store) c (h, hs) e =
    elim (Bool-cases (str_eq j key)) [
      | inl met ↦ subst (IsZoned of_int zoned zero_double) (some-injective _ _ (rw met at e)) h
      | inr unmet ↦ find-IsZoned of_int zoned zero_double key store c hs (rw unmet at e)
    ]

columns_tests :
    (empty keys values : Bool)
    → (if empty then false else if not keys then false else values) ≡ true
    → (keys ≡ true) × (values ≡ true)
columns_tests true keys values h = absurd (false≢true h)
columns_tests false true values h = (refl, h)
columns_tests false false values h = absurd (false≢true h)

module _ {D F V : Type 0} (O : DoubleOrder D) (of_int : Int64 → D) (zoned : Zoned D F)
    (zero_double : D) (ints : KeepsBounds O (int64_zoned of_int)) (floats : KeepsBounds O zoned)
    (by_arrays : List (StoredSegment D F) → List (StoredSegment D F) → List (GroupbyRow V))
    (group_key value_key : String) (store : Columns D F) (accs : DenseStore V) where
  -- The rows are those of an accumulator of the columns' population, or the grouping of the segments,
  -- where no row of them is NULL and each key lies between -2 ^ 24 and 2 ^ 24.
  abbrev pub IsAnswer :
      CachedColumn (StoredSegment D F)
      → CachedColumn (StoredSegment D F)
      → List (GroupbyRow V)
      → Type 0
  IsAnswer g v rows =
      (dense_try_read group_key value_key (pos g.population) accs ≡ some rows)
      ⊎ ((EachSegment of_int zoned (Exact of_int zoned O) g.segments
            × EachSegment of_int zoned (Present of_int zoned) v.segments)
          × (rows ≡ by_arrays g.segments v.segments))

  columns_exact-rows :
      (g v : CachedColumn (StoredSegment D F))
      → IsZoned of_int zoned zero_double g
      → IsZoned of_int zoned zero_double v
      → columns_exact O of_int g v ≡ true
      → EachSegment of_int zoned (Exact of_int zoned O) g.segments
        × EachSegment of_int zoned (Present of_int zoned) v.segments
  unfolding columns_exact
  columns_exact-rows g v hg hv h =
      let (exact, present) = columns_tests (is_empty (zone_maps g)) _ _ h in
      (
        keys_exact-EachSegment of_int zoned O zero_double g.segments ints floats hg exact,
        no_nulls-EachSegment of_int zoned O zero_double v.segments hv present,
      )

  alike-IsAnswer :
      (g v : CachedColumn (StoredSegment D F))
      → IsZoned of_int zoned zero_double g
      → IsZoned of_int zoned zero_double v
      → (if not (alike g v)
          then false
          else if dense_ready group_key value_key (pos g.population) accs
          then true
          else columns_exact O of_int g v)
        ≡ true
      → (rows : List (GroupbyRow V)) × ((if not (alike g v)
            then err segment_mismatch
            else elim (dense_try_read group_key value_key (pos g.population) accs)
                as (λ _. Result SumCachedError (List (GroupbyRow V))) [
                  | some rows ↦ ok rows
                  | none ↦ ok (by_arrays g.segments v.segments)
                ])
          ≡ ok rows)
        × IsAnswer g v rows
  alike-IsAnswer g v hg hv h = elim (Bool-cases (alike g v)) [
    | inr unmet ↦ absurd (false≢true (rw unmet at h))
    | inl met ↦ elim (read_cases group_key value_key (pos g.population) accs) [
      | inl (ready, (rows, read)) ↦ (rows, rw (met, read) refl, inl read)
      | inr (ready, read) ↦ (
        by_arrays g.segments v.segments,
        rw (met, read) refl,
        inr (columns_exact-rows g v hg hv (rw (met, ready) at h), refl),
      )
    ]
  ]

  -- Where the test says that a cached grouping is safe, the reading throws nothing: both columns are there,
  -- and the rows are those of an accumulator of the columns' population, or the grouping of the columns'
  -- segments, and then no row of the two columns is NULL and no key is below -2 ^ 24 or above 2 ^ 24.
  -- Conditions: each segment of the store carries the zone map of its own rows, and the least and greatest
  -- of a number and another value bound both as doubles.
  pub groupby_cached_safe-groupby_sum_cached :
      IsZonedStore of_int zoned zero_double store
      → groupby_cached_safe O of_int group_key value_key store accs ≡ true
      → (g : CachedColumn (StoredSegment D F)) × (v : CachedColumn (StoredSegment D F)) × (find
            group_key store
          ≡ some g)
        × (find value_key store ≡ some v)
        × ((rows : List (GroupbyRow V)) × (groupby_sum_cached by_arrays group_key value_key store
                accs
              ≡ ok rows)
            × IsAnswer g v rows)
  unfolding groupby_cached_safe groupby_sum_cached
  groupby_cached_safe-groupby_sum_cached own h = elim (Option-cases (find group_key store)) [
    | inl missing ↦ absurd (false≢true (rw (missing, groupby_cached_safe) at h))
    | inr (g, eg) ↦ elim (Option-cases (find value_key store)) [
      | inl missing ↦ absurd (false≢true (rw (eg, missing, groupby_cached_safe) at h))
      | inr (v, ev) ↦
          rw (eg, ev, groupby_sum_cached)
            (
              g,
              v,
              refl,
              refl,
              alike-IsAnswer g v (find-IsZoned of_int zoned zero_double group_key store g own eg)
                  (find-IsZoned of_int zoned zero_double value_key store v own ev)
                  (rw (eg, ev, groupby_cached_safe) at h),
            )
    ]
  ]
