-- ===== src/Planner/Filter.antt =====
-- src/planner/mlx_transparent.cpp, TranslateTableFilter: the filters that a scan pushes down, to the
-- postfix IR. The casts of constants by DuckDB are the parameter `Casts`.
pub mod Sound
use duckdb_mlx.Common.{
  ℕ, Bool, true, false, ◌&&◌, List, [], ◌∷◌, ◌++◌, Option, none, some, ◌==◌, ◌>>=◌, get_elem?,
  if◌then◌else◌,
}
use duckdb_mlx.Common.Int64.{Int64}
use duckdb_mlx.Ir.{ExprOp, const_val, and, or}
use duckdb_mlx.Planner.{
  LogicalType, date, decimal, is_numeric, Value, null, decimal_value, date_value, other_value,
  ComparisonType, HostDouble,
}
use duckdb_mlx.Planner.Translate.{
  Translator, is_int_lane_type, is_supported_column_type, comparison_code, insert_col, push,
  code_op, int_op, value_op, load_op,
}

mutual
  pub data TableFilter (D : Type 0) : Type 0 where
    constant_comparison : ComparisonType → Value D → TableFilter D
    conjunction_and : TableFilters D → TableFilter D
    conjunction_or : TableFilters D → TableFilter D
    is_not_null : TableFilter D
    other_filter : TableFilter D

  pub data TableFilters (D : Type 0) : Type 0 where
    nil : TableFilters D
    cons : TableFilter D → TableFilters D → TableFilters D

-- `DefaultTryCastAs` to a DECIMAL, with its stored integer, and to DATE, with its days, and
-- `GetValue<double>`.
pub record Casts (D : Type 0) : Type 0 where
  pub to_decimal : LogicalType → Value D → Option Int64
  pub to_date : Value D → Option Int64
  pub to_double : Value D → D

abbrev pub is_null : {D : Type 0} → Value D → Bool
is_null null = true
is_null _ = false

abbrev pub is_date : LogicalType → Bool
is_date date = true
is_date _ = false

-- `konst.type().IsNumeric()`
abbrev pub has_numeric_type : {D : Type 0} → Value D → Bool
has_numeric_type null = false
has_numeric_type (decimal_value _ _ _) = true
has_numeric_type (date_value _) = false
has_numeric_type (other_value ty _) = is_numeric ty

module _ (H : HostDouble) (C : Casts H.Double) where
  open H use {Double}

  -- A constant that has the type of the column is not cast.
  unfoldable pub decimal_raw : LogicalType → Value Double → Option Int64
  decimal_raw (decimal width scale) (decimal_value width' scale' raw) =
      if (width == width') && (scale == scale')
      then some raw
      else C.to_decimal (decimal width scale) (decimal_value width' scale' raw)
  decimal_raw ty v = C.to_decimal ty v

  unfoldable pub date_days : Value Double → Option Int64
  date_days (date_value days) = some days
  date_days v = C.to_date v

  -- `const_op`, for a column of the type.
  unfoldable pub filter_constant : LogicalType → Value Double → Option (ExprOp Double)
  filter_constant ty v =
      if is_int_lane_type ty
      then (decimal_raw ty v >>= λ raw. some (int_op H raw))
      else if is_date ty
      then (date_days v >>= λ days. some (value_op H const_val (H.of_int days)))
      else if has_numeric_type v
      then some (value_op H const_val (C.to_double v))
      else none

  -- `storage` is the column, and `types` the returned types of the scan.
  module _ (storage : ℕ) (types : List LogicalType) where
    abbrev pub reference : Translator Double → Translator Double
    reference t = record t { referenced_cols = insert_col storage t.referenced_cols }

    -- The constant for the column, if its type is supported.
    unfoldable pub column_constant : Value Double → Option (ExprOp Double)
    column_constant v = get_elem? types storage >>= λ ty.
        if is_supported_column_type ty then filter_constant ty v else none

    unfoldable pub constant_filter :
        ComparisonType → Value Double → Translator Double → Option (Translator Double)
    constant_filter comparison v t =
        if is_null v
        then none
        else comparison_code comparison >>= λ code. column_constant v >>= λ k.
            some (reference (push H (code_op H code) (push H k (push H (load_op H storage) t))))

    unfoldable mutual
      pub translate_table_filter :
          TableFilter Double → Translator Double → Option (Translator Double)
      translate_table_filter (constant_comparison comparison v) t = constant_filter comparison v t
      translate_table_filter (conjunction_and fs) t = translate_first true fs t
      translate_table_filter (conjunction_or fs) t = translate_first false fs t
      translate_table_filter is_not_null t = some (reference t)
      translate_table_filter other_filter t = none

      -- The loop over the children: the first, and the others, each followed by the connective.
      pub translate_first :
          Bool → TableFilters Double → Translator Double → Option (Translator Double)
      translate_first is_and nil t = none
      translate_first is_and (cons f fs) t =
          translate_table_filter f t >>= λ t'. translate_others is_and fs t'

      pub translate_others :
          Bool → TableFilters Double → Translator Double → Option (Translator Double)
      translate_others is_and nil t = some t
      translate_others is_and (cons f fs) t = translate_table_filter f t >>= λ t'.
          translate_others is_and fs (push H (code_op H (if is_and then and else or)) t')
