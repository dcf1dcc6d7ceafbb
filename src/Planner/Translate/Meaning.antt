-- ===== src/Planner/Translate/Meaning.antt =====
-- What a DuckDB expression means over the columns of a table: a relation between an expression, the
-- lane of its value and the value, which says nothing of programs or stacks. A decimal is its
-- stored integer, so a cast to a larger scale multiplies by a power of ten.
use Prim.Native.String.{String}
use text.Mathlib.Text.{◌==◌ as str_eq}
use duckdb_mlx.Common.{
  ℕ, suc, ◌+◌, ◌≡◌, Bool, true, false, List, Option, none, some, get_elem?, if◌then◌else◌,
}
use duckdb_mlx.Common.Int64.{Int64}
use duckdb_mlx.Ir.Eval.{Backend}
use duckdb_mlx.Planner.{
  LogicalType, double, float, decimal, decimal_value, date_value, other_value, ComparisonType,
  less_than, less_than_or_equal, greater_than, greater_than_or_equal, equal, not_equal,
  other_comparison, Expression, column_ref, constant, cast, comparison, conjunction, operator,
  function, Expressions, nil, cons, Get, Projection, HostDouble,
}
use duckdb_mlx.Planner.Translate.{
  Lane, float_lane, int_lane, bool_lane, column_lane, find_projection, pow10,
}

module _ {D : Type 0} (B : Backend D) where
  open B use {Arr}

  unfoldable pub comparison_meaning : ComparisonType → Option (Arr → Arr → Arr)
  comparison_meaning less_than = some B.less
  comparison_meaning less_than_or_equal = some B.less_equal
  comparison_meaning greater_than = some B.greater
  comparison_meaning greater_than_or_equal = some B.greater_equal
  comparison_meaning equal = some B.equal
  comparison_meaning not_equal = some B.not_equal
  comparison_meaning other_comparison = none

  unfoldable pub binary_meaning : String → Option (Arr → Arr → Arr)
  binary_meaning name =
      if str_eq name "+"
      then some B.plus
      else if str_eq name "-"
      then some B.subtract
      else if str_eq name "*"
      then some B.multiply
      else if str_eq name "/"
      then some B.divide
      else none

  unfoldable pub unary_meaning : String → Option (Arr → Arr)
  unary_meaning name =
      if str_eq name "-"
      then some B.negative
      else if str_eq name "sin"
      then some B.sine
      else if str_eq name "cos"
      then some B.cosine
      else if str_eq name "sqrt"
      then some B.square_root
      else if str_eq name "abs"
      then some B.absolute
      else none

  abbrev pub connective : Bool → Arr → Arr → Arr
  connective true = B.logical_and
  connective false = B.logical_or

abbrev pub IsFloating : LogicalType → Type 0
IsFloating double = Unit
IsFloating float = Unit
IsFloating _ = ⊥

module _ (H : HostDouble) (B : Backend H.Double) (get : Get) (projs : List (Projection H.Double))
    (cols : List B.Arr) where
  open H use {Double}
  open B use {Arr}

  mutual
    pub data Denotes : Expression Double → Lane → Arr → Type 0 where
      projected :
          {i c : ℕ} {ty : LogicalType} {p : Projection Double} {e : Expression Double} {l : Lane}
          {v : Arr}
          → find_projection H i projs ≡ some p
          → get_elem? p.expressions c ≡ some e
          → Denotes e l v
          → Denotes (column_ref i c ty) l v
      base :
          {i c storage : ℕ} {ty : LogicalType} {l : Lane} {v : Arr}
          → find_projection H i projs ≡ none
          → i ≡ get.table_index
          → get_elem? get.column_ids c ≡ some storage
          → get_elem? cols storage ≡ some v
          → l ≡ column_lane H ty
          → Denotes (column_ref i c ty) l v
      decimal_constant :
          {w s : ℕ} {raw : Int64}
          → Denotes (constant (decimal_value w s raw)) int_lane (B.int64_of raw)
      date_constant :
          {days : Int64}
          → Denotes (constant (date_value days)) float_lane (B.float32_of (H.of_int days))
      other_constant :
          {ty : LogicalType} {x : Double}
          → Denotes (constant (other_value ty x)) float_lane (B.float32_of x)
      same_scale :
          {w s w' s' : ℕ} {e : Expression Double} {v : Arr}
          → s ≡ s'
          → Denotes e int_lane v
          → Denotes (cast false (decimal w s) (decimal w' s') e) int_lane v
      larger_scale :
          {w s w' s' : ℕ} {e : Expression Double} {v : Arr} (k : ℕ)
          → s ≡ s' + suc k
          → Denotes e int_lane v
          → Denotes
              (cast false (decimal w s) (decimal w' s') e)
              int_lane
              (B.multiply v (B.int64_of (pow10 (suc k))))
      scaled_to_float :
          {to : LogicalType} {w s : ℕ} {e : Expression Double} {v : Arr}
          → IsFloating to
          → Denotes e int_lane v
          → Denotes
              (cast false to (decimal w s) e)
              float_lane
              (B.multiply (B.astype_float32 v) (B.float32_of (H.reciprocal (pow10 s))))
      already_float :
          {to from : LogicalType} {e : Expression Double} {v : Arr}
          → IsFloating to
          → Denotes e float_lane v
          → Denotes (cast false to from e) float_lane v
      compared :
          {ty : ComparisonType} {l r : Expression Double} {k : Lane} {a b : Arr}
          {f : Arr → Arr → Arr}
          → comparison_meaning B ty ≡ some f
          → Denotes l k a
          → Denotes r k b
          → Denotes (comparison ty l r) bool_lane (f a b)
      joined :
          {is_and : Bool} {e : Expression Double} {es : Expressions Double} {a v : Arr}
          → Denotes e bool_lane a
          → Folds is_and a es v
          → Denotes (conjunction is_and (cons e es)) bool_lane v
      negated :
          {e : Expression Double} {v : Arr}
          → Denotes e bool_lane v
          → Denotes (operator true (cons e nil)) bool_lane (B.logical_not v)
      applied_to_two :
          {name : String} {l r : Expression Double} {k : Lane} {a b : Arr} {f : Arr → Arr → Arr}
          → binary_meaning B name ≡ some f
          → Denotes l k a
          → Denotes r k b
          → Denotes (function name (cons l (cons r nil))) k (f a b)
      applied_to_one :
          {name : String} {e : Expression Double} {k : Lane} {a : Arr} {f : Arr → Arr}
          → unary_meaning B name ≡ some f
          → Denotes e k a
          → Denotes (function name (cons e nil)) k (f a)

    -- The connective, from the left, over a first value and the values of further expressions.
    pub data Folds : Bool → Arr → Expressions Double → Arr → Type 0 where
      stop : {is_and : Bool} {a : Arr} → Folds is_and a nil a
      more :
          {is_and : Bool} {a b v : Arr} {e : Expression Double} {es : Expressions Double}
          → Denotes e bool_lane b
          → Folds is_and (connective B is_and a b) es v
          → Folds is_and a (cons e es) v
