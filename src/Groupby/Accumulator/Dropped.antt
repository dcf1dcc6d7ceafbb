-- ===== src/Groupby/Accumulator/Dropped.antt =====
-- A batch with a NULL and the accumulator.
use Prim.Native.String.{String}
use mathlib.Core.Option.{none-ne-some}
use duckdb_mlx.Common.{
  ℕ, zero, suc, ◌+◌, ◌<◌, ◌≡◌, refl, sym, ap, ◌∙◌, true, false, List, [], ◌∷◌, map, Option, none,
  some, ℤ, ◌==◌, get_elem?, arith, if◌then◌else◌, ◌>>=◌,
}
use duckdb_mlx.Common.Int64.{Int64, int64_min}
use duckdb_mlx.Common.Assoc.{find, put, find-put_self}
use duckdb_mlx.Ir.{ColumnData}
use duckdb_mlx.Segment.{is_empty}
use duckdb_mlx.Cache.Read.{indices}
use duckdb_mlx.Groupby.{GroupbyRow}
use duckdb_mlx.Groupby.Dense.{dense_span_ok, dense_rows}
use duckdb_mlx.Groupby.Accumulator.{
  DenseAcc, DenseStore, ArrayOps, dense_groupby_key, same_population, for_population, entry_of,
  dense_add, dense_accumulate, both_valid, key_column, value_column, dense_accumulate_columns,
  usable, dense_ready, dense_try_read,
}

-- `mx::min` of keys with INT64_MIN among them is INT64_MIN.
abbrev pub FindsLeast : (List Int64 → Int64) → Type 0
FindsLeast min_of =
    (keys : List Int64) (i : ℕ) → get_elem? keys i ≡ some int64_min → min_of keys ≡ int64_min

get_elem?-indices :
    {A : Type 0} (f : ℕ → A) (lo n i : ℕ)
    → i < n
    → get_elem? (map f (indices lo n)) i ≡ some (f (lo + i))
get_elem?-indices f lo zero i h = absurd (omega arith)
get_elem?-indices f lo (suc n) zero h =
    let here : lo ≡ lo + 0 = omega arith in ap (λ j. some (f j)) here
get_elem?-indices f lo (suc n) (suc i) h =
    let here : suc lo + i ≡ lo + suc i = omega arith in
    get_elem?-indices f (suc lo) n i (omega arith) ∙ ap (λ j. some (f j)) here

refused : (hi : Int64) → dense_span_ok int64_min hi ≡ false
unfolding dense_span_ok
refused hi = refl

for_population_same :
    {V : Type 0} (population : ℤ) (acc : DenseAcc V)
    → same_population acc.population population ≡ true
    → for_population population acc ≡ acc
for_population_same population acc h =
    ap (λ b. if b then acc else record acc { population = population; kmin = 0; ready = false }) h

some_entry :
    (keys : List Int64) (i : ℕ) (k : Int64) → get_elem? keys i ≡ some k → is_empty keys ≡ false
some_entry [] i k h = absurd (none-ne-some _ h)
some_entry (x ∷ keys) i k h = refl

module _ {V : Type 0} (ops : ArrayOps V) where
  dense_add-refused :
      (acc : DenseAcc V) (keys : List Int64) (vals : List V)
      → ops.min_of keys ≡ int64_min
      → dense_add ops acc keys vals ≡ some acc
  unfolding dense_add
  dense_add-refused acc keys vals h =
      let no : dense_span_ok (ops.min_of keys) (ops.max_of keys) ≡ false =
        ap (λ k. dense_span_ok k (ops.max_of keys)) h ∙ refused (ops.max_of keys) in
      rw no refl

  -- The batch does nothing but to store the accumulator again.
  dense_accumulate-refused :
      (group_key value_key : String) (population : ℤ) (keys : List Int64) (vals : List V)
      (store : DenseStore V) (acc : DenseAcc V)
      → is_empty keys ≡ false
      → ops.min_of keys ≡ int64_min
      → find (dense_groupby_key group_key value_key) store ≡ some acc
      → same_population acc.population population ≡ true
      → dense_accumulate ops group_key value_key population keys vals store
        ≡ some (put (dense_groupby_key group_key value_key) acc store)
  unfolding dense_accumulate
  dense_accumulate-refused group_key value_key population keys vals store acc some_keys least found
        same =
      let entry : for_population population
            (entry_of (find (dense_groupby_key group_key value_key) store))
          ≡ acc =
        ap (λ o. for_population population (entry_of o)) found
        ∙ for_population_same population acc same in
      rw some_keys (
        ap (λ o. o >>= λ a. some (put (dense_groupby_key group_key value_key) a store))
          (ap (λ a. dense_add ops a keys vals) entry ∙ dense_add-refused acc keys vals least))

module _ {F : Type 0} (to_key : F → Int64) (to_float : Int64 → F) (float_zero : F) where
  key_column-null :
      (group value : ColumnData F) (count i : ℕ)
      → i < count
      → both_valid group value i ≡ false
      → get_elem? (key_column to_key to_float float_zero group value count) i ≡ some int64_min
  unfolding key_column
  key_column-null group value count i h null =
      let here : 0 + i ≡ i = omega arith in get_elem?-indices _ 0 count i h ∙ rw (here, null) refl

  -- The bug: a batch with a NULL in the key or in the value is dropped as a whole. Where the
  -- accumulator already holds a table of the population, the batch leaves the table as it was,
  -- ready if it was ready, and what is read from it afterwards is what was read before, without
  -- the rows of the batch. Condition: mx::min finds the mark of NULL among the keys.
  pub dense_accumulate_columns-dropped :
      (ops : ArrayOps F) (group_key value_key : String) (population : ℤ)
      (group value : ColumnData F) (count : ℕ) (store : DenseStore F) (acc : DenseAcc F) (i : ℕ)
      → FindsLeast ops.min_of
      → i < count
      → both_valid group value i ≡ false
      → find (dense_groupby_key group_key value_key) store ≡ some acc
      → same_population acc.population population ≡ true
      → (store' : DenseStore F) × (dense_accumulate_columns to_key to_float float_zero ops group_key
            value_key population group value count store
          ≡ some store')
        × (dense_ready group_key value_key population store'
            ≡ dense_ready group_key value_key population store)
        × (dense_try_read group_key value_key population store'
            ≡ dense_try_read group_key value_key population store)
  unfolding dense_accumulate_columns dense_accumulate dense_ready dense_try_read
  dense_accumulate_columns-dropped ops group_key value_key population group value count store acc i
        least h null found same =
      let dk : String = dense_groupby_key group_key value_key in
      let some_rows : (count == 0) ≡ false = ground (arith, h) in
      let mark : get_elem? (key_column to_key to_float float_zero group value count) i
          ≡ some int64_min =
        key_column-null group value count i h null in
      let again : find dk (put dk acc store) ≡ find dk store =
        find-put_self dk acc store ∙ sym found in
      (
        put dk acc store,
        rw some_rows (
            dense_accumulate-refused ops group_key value_key population
              (key_column to_key to_float float_zero group value count)
              (value_column to_key to_float float_zero group value count) store acc
              (some_entry (key_column to_key to_float float_zero group value count) i int64_min
                mark)
              (least (key_column to_key to_float float_zero group value count) i mark) found same),
        ap (usable population) again,
        ap
            (λ o. elim o as (λ _. Option (List (GroupbyRow F))) [
              | none ↦ none
              | some a ↦
                  if usable population (some a)
                  then some (dense_rows a.kmin 0 a.sums a.counts)
                  else none
            ])
            again,
      )
