-- ===== src/Ir.antt =====
-- src/include/mlx_bridge.hpp: the postfix IR that the planner emits and the bridge evaluates, the
-- aggregate programs, the WHERE filter and the columns of the host. `D` is the type of a C++ double. An index is a ℤ where
-- the source holds an int32_t.
pub mod Eval
use duckdb_mlx.Common.{ℕ, Bool, false, List, Option, ℤ, pos}
use duckdb_mlx.Common.Int64.{Int64}

pub data ExprOpCode : Type 0 where
  load_col const_val add sub mul div negate sin cos sqrt abs to_float : ExprOpCode
  cmp_lt cmp_le cmp_gt cmp_ge cmp_eq cmp_ne and or not : ExprOpCode

pub record ExprOp (D : Type 0) : Type 0 where
  pub code : ExprOpCode
  pub col : ℤ
  pub value : D
  pub ivalue : Int64
  pub int_lane : Bool

pub data AggKind : Type 0 where
  sum count count_star avg min max : AggKind

pub record SumProgram (D : Type 0) : Type 0 where
  pub kind : AggKind
  pub ops : List (ExprOp D)
  pub null_cols : List ℤ
  pub int_lane : Bool
  pub int32_rows : Bool
  pub gpu_fp32_rows : Bool
  pub row_abs_bound : D
  pub render_scale : D

pub record Filter (D : Type 0) : Type 0 where
  pub ops : List (ExprOp D)
  pub null_cols : List ℤ

-- MlxColumnData: the values of one lane, and the validity unless it is nullptr.
pub data ColumnValues (F : Type 0) : Type 0 where
  ivalues : List Int64 → ColumnValues F
  fvalues : List F → ColumnValues F

pub record ColumnData (F : Type 0) : Type 0 where
  pub values : ColumnValues F
  pub valid : Option (List Bool)

-- An operation with the default fields of the struct; `z` is the double 0.
abbrev pub plain_op : {D : Type 0} → D → ExprOpCode → ExprOp D
plain_op z c = record { code = c; col = pos 0; value = z; ivalue = 0; int_lane = false }
