-- ===== src/Planner/Column.antt =====
-- src/planner/mlx_transparent.cpp, AppendMlxColumnT to SegmentColumns: the buffers that a sink fills
-- from DuckDB's vectors, and the columns that they hand to the bridge. What the planner asks of a
-- `UnifiedVectorFormat` is the parameter `UnifiedFormat`.
pub mod Rows
use duckdb_mlx.Common.{
  ℕ, zero, suc, ◌+◌, ◌-◌, Bool, true, false, not, ◌&&◌, ◌||◌, List, [], ◌∷◌, ◌++◌, Option, none,
  some, leb, length, set, take, replicate, if◌then◌else◌,
}
use duckdb_mlx.Common.Int64.{Int64}
use duckdb_mlx.Ir.{ColumnData, ivalues, fvalues}
use duckdb_mlx.Planner.{LogicalType, double, float, bigint, integer, date, decimal, other}
use duckdb_mlx.Segment.{is_empty}

pub record UnifiedFormat (T : Type 0) : Type 0 where
  pub data_at : ℕ → T
  pub sel_is_set : Bool
  pub get_index : ℕ → ℕ
  pub all_valid : Bool
  pub row_is_valid : ℕ → Bool

-- `std::vector::resize`
abbrev pub resize {ℓ} : {A : Type ℓ} → List A → ℕ → A → List A
resize xs n a = take n xs ++ replicate (n - length xs) a

-- A column's values and its validity, which is empty until a NULL is met.
pub record Buffer (A : Type 0) : Type 0 where
  pub values : List A
  pub valid : List Bool

module _ {T A : Type 0} (cast : T → A) (null_value : A) (fmt : UnifiedFormat T) where
  open fmt use {data_at, sel_is_set, get_index, all_valid, row_is_valid}

  -- The loop of the fast path, from row `i` on.
  unfoldable pub copy_rows : ℕ → ℕ → ℕ → List A → List A
  copy_rows base i zero values = values
  copy_rows base i (suc n) values =
      copy_rows base (suc i) n (set values (base + i) (cast (data_at i)))

  -- The loop over selected rows.
  unfoldable pub select_rows : ℕ → ℕ → ℕ → Buffer A → Buffer A
  select_rows base i zero buf = buf
  select_rows base i (suc n) buf =
      let idx = get_index i in
      let row_valid = row_is_valid idx in
      select_rows base (suc i) n (record {
        values = set buf.values (base + i) (if row_valid then cast (data_at idx) else null_value);
        valid = if row_valid then buf.valid else set buf.valid (base + i) false;
      })

  -- The two paths: `fast` where no row is selected and none is NULL, `no_nulls` where none is NULL.
  unfoldable pub append_rows : Bool → Bool → ℕ → Buffer A → Buffer A
  append_rows fast no_nulls count buf =
      let base = length buf.values in
      let values = resize buf.values (base + count) null_value in
      let valid = resize buf.valid (base + count) true in
      let has_valid = not (is_empty buf.valid) in
      if fast
      then record {
        values = copy_rows base 0 count values;
        valid = if has_valid then valid else buf.valid;
      }
      else select_rows base 0 count (record {
        values = values;
        valid = if not no_nulls || has_valid then valid else buf.valid;
      })

  unfoldable pub append_column : ℕ → Buffer A → Buffer A
  append_column count buf = append_rows (not sel_is_set && all_valid) all_valid count buf

-- Which of the two lanes a column is buffered in; `none` where it is declined.
pub data BufferLane : Type 0 where
  float_values int_values : BufferLane

unfoldable pub buffer_lane : LogicalType → Option BufferLane
buffer_lane double = some float_values
buffer_lane float = some float_values
buffer_lane bigint = some float_values
buffer_lane integer = some float_values
buffer_lane date = some float_values
buffer_lane (decimal width scale) = if leb width 18 then some int_values else none
buffer_lane (other _) = none

-- The three vectors of a column in a `MlxSumSegment`.
pub record LaneBuffer (F : Type 0) : Type 0 where
  pub floats : List F
  pub ints : List Int64
  pub valid : List Bool

module _ {T F : Type 0} (to_float : T → F) (float_zero : F) (to_int64 : T → Int64) where
  abbrev pub append_on : BufferLane → UnifiedFormat T → ℕ → LaneBuffer F → LaneBuffer F
  append_on float_values fmt count buf =
      let b =
        append_column to_float float_zero fmt count
          (record { values = buf.floats; valid = buf.valid }) in
      record buf { floats = b.values; valid = b.valid }
  append_on int_values fmt count buf =
      let b =
        append_column to_int64 0 fmt count (record { values = buf.ints; valid = buf.valid }) in
      record buf { ints = b.values; valid = b.valid }

  unfoldable pub append_lane_column :
      LogicalType → UnifiedFormat T → ℕ → LaneBuffer F → Option (LaneBuffer F)
  append_lane_column ty fmt count buf = elim (buffer_lane ty) [
    | none ↦ none
    | some lane ↦ some (append_on lane fmt count buf)
  ]

-- The rows of the first column that has any.
unfoldable pub segment_row_count : {F : Type 0} → List (LaneBuffer F) → ℕ
segment_row_count [] = 0
segment_row_count (buf ∷ bufs) =
    let rest = segment_row_count bufs in
    if not (is_empty buf.floats)
    then length buf.floats
    else if not (is_empty buf.ints)
    then length buf.ints
    else rest

unfoldable pub segment_column : {F : Type 0} → LaneBuffer F → ColumnData F
segment_column buf = record {
  values = if is_empty buf.ints then fvalues buf.floats else ivalues buf.ints;
  valid = if is_empty buf.valid then none else some buf.valid;
}
