-- ===== src/Planner.antt =====
-- src/planner/mlx_transparent.cpp: the DuckDB plan nodes that the translator reads, as data.
-- DuckDB is not part of the repository: a node carries just what the planner asks of it.
pub mod Column
pub mod Cost
pub mod Filter
pub mod Translate
use Prim.Native.String.{String}
use duckdb_mlx.Common.{ℕ, Bool, true, false, List, leb}
use duckdb_mlx.Common.Int64.{Int64}

pub data LogicalType : Type 0 where
  double float bigint integer date : LogicalType
  -- DECIMAL(width, scale)
  decimal : ℕ → ℕ → LogicalType
  -- any other type, with the answer of `IsNumeric()`
  other : Bool → LogicalType

unfoldable pub is_numeric : LogicalType → Bool
is_numeric date = false
is_numeric (other b) = b
is_numeric _ = true

-- A constant: a decimal with its stored integer, a date with its days, or another value with the
-- type and what `GetValue<double>()` makes of it.
pub data Value (D : Type 0) : Type 0 where
  null : Value D
  decimal_value : ℕ → ℕ → Int64 → Value D
  date_value : Int64 → Value D
  other_value : LogicalType → D → Value D

pub data ComparisonType : Type 0 where
  less_than less_than_or_equal greater_than greater_than_or_equal equal not_equal : ComparisonType
  other_comparison : ComparisonType

-- Bound expressions. A cast holds `try_cast`, its return type and the child's return type.
mutual
  pub data Expression (D : Type 0) : Type 0 where
    column_ref : ℕ → ℕ → LogicalType → Expression D
    constant : Value D → Expression D
    cast : Bool → LogicalType → LogicalType → Expression D → Expression D
    comparison : ComparisonType → Expression D → Expression D → Expression D
    -- `true` for CONJUNCTION_AND
    conjunction : Bool → Expressions D → Expression D
    -- `true` for OPERATOR_NOT
    operator : Bool → Expressions D → Expression D
    function : String → Expressions D → Expression D
    other_class : Expression D

  pub data Expressions (D : Type 0) : Type 0 where
    nil : Expressions D
    cons : Expression D → Expressions D → Expressions D

pub record Get : Type 0 where
  pub table_index : ℕ
  pub column_ids : List ℕ
  pub returned_types : List LogicalType

pub record Projection (D : Type 0) : Type 0 where
  pub table_index : ℕ
  pub expressions : List (Expression D)

-- What the planner computes with doubles: the conversion of an integer, and 1.0 / (double)n.
pub record HostDouble : Type 1 where
  pub Double : Type 0
  pub zero_double : Double
  pub of_int : Int64 → Double
  pub reciprocal : Int64 → Double
