-- ===== src/Groupby/Accumulator.antt =====
-- src/bridge/mlx_groupby.cpp, DenseGroupbyAcc to MlxGroupbyDenseClearTable: tables of sums and counts by
-- key that grow with the batches of a sink. An exception of MLX is `none`. The record ArrayOps holds the
-- operations of mlx::core, and a float of a table is the double that it is cast to.
pub mod Dropped
use Prim.Native.String.{String, ◌++◌ as join}
use Prim.Native.Char.{code}
use text.Mathlib.Text.{starts_with}
use duckdb_mlx.Common.{
  ℕ, zero, suc, ◌+◌, ◌-◌, ◌%◌, ◌^◌, Bool, true, false, not, ◌&&◌, ◌||◌, List, [], ◌∷◌, map, Option,
  none, some, ℤ, pos, negsuc, ltb, ◌==◌, length, get_or, replicate, take, if◌then◌else◌, ◌>>=◌,
}
use duckdb_mlx.Common.Int64.{Int64, int64_min, min_i64, max_i64}
use duckdb_mlx.Common.Assoc.{find, put}
use duckdb_mlx.Ir.{ColumnData, ColumnValues}
use duckdb_mlx.Segment.{is_empty}
use duckdb_mlx.Cache.Read.{indices}
use duckdb_mlx.Groupby.{GroupbyRow}
use duckdb_mlx.Groupby.Dense.{span_of, slot_of, dense_span_ok, dense_rows}
use duckdb_mlx.Groupby.Hash.{row_valid, key_of, float_of}

pub record DenseAcc (V : Type 0) : Type 0 where
  pub population : ℤ
  pub kmin : Int64
  pub sums : List V
  pub counts : List ℕ
  pub ready : Bool

abbrev pub DenseStore : Type 0 → Type 0
DenseStore V = List (String × DenseAcc V)

-- `scatter_sums` and `scatter_counts` are `mx::scatter_add` at the indices of rows; `place_sums` and `place_counts` add a
-- table to zeros of a size, at an offset.
pub record ArrayOps (V : Type 0) : Type 0 where
  pub zero_f : V
  pub min_of : List Int64 → Int64
  pub max_of : List Int64 → Int64
  pub scatter_sums : List V → List ℕ → List V → Option (List V)
  pub scatter_counts : List ℕ → List ℕ → Option (List ℕ)
  pub place_sums : ℕ → ℕ → List V → Option (List V)
  pub place_counts : ℕ → ℕ → List ℕ → Option (List ℕ)

abbrev pub new_acc : {V : Type 0} → DenseAcc V
new_acc = record { population = negsuc 0; kmin = 0; sums = []; counts = []; ready = false }

unfoldable pub dense_groupby_key : String → String → String
dense_groupby_key group_key value_key = join group_key (join "\0" value_key)

-- `static_cast<int>` of a span or an index.
abbrev pub to_int : ℕ → ℕ
to_int span = span % 2 ^ 32

abbrev pub same_population : ℤ → ℤ → Bool
same_population (pos a) (pos b) = a == b
same_population (negsuc a) (negsuc b) = a == b
same_population _ _ = false

abbrev pub entry_of : {V : Type 0} → Option (DenseAcc V) → DenseAcc V
entry_of none = new_acc
entry_of (some acc) = acc

abbrev pub for_population : {V : Type 0} → ℤ → DenseAcc V → DenseAcc V
for_population population acc =
    if same_population acc.population population
    then acc
    else record acc { population = population; kmin = 0; ready = false }

module _ {V : Type 0} (ops : ArrayOps V) where
  open ops use {zero_f, min_of, max_of, scatter_sums, scatter_counts, place_sums, place_counts}

  unfoldable pub dense_resize : DenseAcc V → Int64 → Int64 → Option (DenseAcc V)
  dense_resize acc kmin kmax =
      let new_span = to_int (span_of kmin kmax) in
      let old_span = length acc.sums in
      let old_kmax = (acc.kmin + old_span + 2 ^ 64 - 1) % 2 ^ 64 in
      let merged_kmin = min_i64 kmin acc.kmin in
      let merged_kmax = max_i64 kmax old_kmax in
      let merged_span = to_int (span_of merged_kmin merged_kmax) in
      let off = to_int (slot_of merged_kmin acc.kmin) in
      if not acc.ready
      then some (record acc {
        kmin = kmin;
        sums = replicate new_span zero_f;
        counts = replicate new_span 0;
        ready = true;
      })
      else if (merged_kmin == acc.kmin) && (merged_span == old_span)
      then some acc
      else (place_sums merged_span off acc.sums >>= λ sums.
          place_counts merged_span off acc.counts >>= λ counts.
          some (record acc { kmin = merged_kmin; sums = sums; counts = counts }))

  -- The rows of a batch enter an accumulator.
  unfoldable pub dense_add : DenseAcc V → List Int64 → List V → Option (DenseAcc V)
  dense_add acc keys vals =
      if not (dense_span_ok (min_of keys) (max_of keys))
      then some acc
      else (dense_resize acc (min_of keys) (max_of keys) >>= λ resized.
          let idx = map (λ key. to_int (slot_of resized.kmin key)) keys in
          scatter_sums resized.sums idx vals >>= λ sums.
          scatter_counts resized.counts idx >>= λ counts.
          some (record resized { sums = sums; counts = counts }))

  unfoldable pub dense_accumulate :
      String → String → ℤ → List Int64 → List V → DenseStore V → Option (DenseStore V)
  dense_accumulate group_key value_key population keys vals store =
      let dk = dense_groupby_key group_key value_key in
      if is_empty keys
      then some store
      else (dense_add (for_population population (entry_of (find dk store))) keys vals >>= λ acc.
          some (put dk acc store))

abbrev pub both_valid : {F : Type 0} → ColumnData F → ColumnData F → ℕ → Bool
both_valid group value i = row_valid group.valid i && row_valid value.valid i

module _ {F : Type 0} (to_key : F → Int64) (to_float : Int64 → F) (float_zero : F) where
  -- `ColumnAsInt64Keys` with the mask of `MlxGroupbyDenseAccumulateColumns`: a row that is NULL in a column has
  -- the key INT64_MIN and the value 0.
  unfoldable pub key_column : ColumnData F → ColumnData F → ℕ → List Int64
  key_column group value count =
      map
        (λ i.
          if both_valid group value i
          then key_of to_key to_float float_zero group.values i
          else int64_min)
        (indices 0 count)

  unfoldable pub value_column : ColumnData F → ColumnData F → ℕ → List F
  value_column group value count =
      map
        (λ i.
          if both_valid group value i
          then float_of to_key to_float float_zero value.values i
          else float_zero)
        (indices 0 count)

  unfoldable pub dense_accumulate_columns :
      ArrayOps F
      → String
      → String
      → ℤ
      → ColumnData F
      → ColumnData F
      → ℕ
      → DenseStore F
      → Option (DenseStore F)
  dense_accumulate_columns ops group_key value_key population group value count store =
      if count == 0
      then some store
      else dense_accumulate ops group_key value_key population (key_column group value count)
          (value_column group value count) store

-- MlxGroupbyDenseAccumulateHost; `round` is the rounding of a float to an int64.
unfoldable pub dense_accumulate_host :
    {V : Type 0}
    → ArrayOps V
    → (V → Int64)
    → String
    → String
    → ℤ
    → List V
    → List V
    → ℕ
    → DenseStore V
    → Option (DenseStore V)
dense_accumulate_host ops round group_key value_key population group_values sum_values count store =
    if count == 0
    then some store
    else dense_accumulate ops group_key value_key population (map round (take count group_values))
        (take count sum_values) store

-- The key before its first '\0'.
abbrev pub before_nul : String → String
before_nul String.[] = ""
before_nul (String.◌∷◌ c s) = if code c == 0 then "" else String.◌∷◌ c (before_nul s)

module _ {V : Type 0} where
  unfoldable pub usable : ℤ → Option (DenseAcc V) → Bool
  usable population none = false
  usable population (some acc) = acc.ready && same_population acc.population population

  unfoldable pub dense_ready : String → String → ℤ → DenseStore V → Bool
  dense_ready group_key value_key population store =
      usable population (find (dense_groupby_key group_key value_key) store)

  unfoldable pub dense_try_read : String → String → ℤ → DenseStore V → Option (List (GroupbyRow V))
  dense_try_read group_key value_key population store =
      elim (find (dense_groupby_key group_key value_key) store) [
        | none ↦ none
        | some acc ↦
            if usable population (some acc)
            then some (dense_rows acc.kmin 0 acc.sums acc.counts)
            else none
      ]

  unfoldable pub dense_clear_table : String → DenseStore V → DenseStore V
  dense_clear_table prefix [] = []
  dense_clear_table prefix ((key, acc) ∷ store) =
      let rest = dense_clear_table prefix store in
      if starts_with (before_nul key) prefix then rest else (key, acc) ∷ rest
