-- ===== src/Planner/Translate.antt =====
-- src/planner/mlx_transparent.cpp, MlxExprTranslator: DuckDB expression trees to the postfix IR.
-- `Translate` returns false where the model returns `none`; undefined accesses are `none` too.
-- Each case of its switch is a function over the recursive call, and `translate` bounds the depth.
pub mod Fuel
pub mod Meaning
pub mod Sound
use Prim.Native.String.{String}
use text.Mathlib.Text.{◌==◌ as str_eq}
use duckdb_mlx.Common.{
  ℕ, zero, suc, ◌-◌, ◌*◌, ◌%◌, ◌^◌, Bool, true, false, List, [], ◌∷◌, ◌++◌, Option, none, some, pos,
  leb, ltb, ◌==◌, ◌>>=◌, get_elem?, if◌then◌else◌,
}
use duckdb_mlx.Common.Int64.{Int64}
use duckdb_mlx.Ir.{
  ExprOpCode, load_col, const_val, add, sub, mul, div, negate, sin, cos, sqrt, abs, to_float,
  cmp_lt, cmp_le, cmp_gt, cmp_ge, cmp_eq, cmp_ne, and, or, not, ExprOp, plain_op,
}
use duckdb_mlx.Planner.{
  LogicalType, double, float, bigint, integer, date, decimal, other, is_numeric, Value, null,
  decimal_value, date_value, other_value, ComparisonType, less_than, less_than_or_equal,
  greater_than, greater_than_or_equal, equal, not_equal, other_comparison, Expression, column_ref,
  constant, cast, comparison, conjunction, operator, function, other_class, Expressions, nil, cons,
  Get, Projection, HostDouble,
}

pub data Lane : Type 0 where
  float_lane int_lane bool_lane : Lane

-- DECIMAL(width <= 18): the physical type is no INT128.
unfoldable pub is_int_lane_type : LogicalType → Bool
is_int_lane_type (decimal width scale) = leb width 18
is_int_lane_type _ = false

unfoldable pub is_supported_column_type : LogicalType → Bool
is_supported_column_type double = true
is_supported_column_type float = true
is_supported_column_type bigint = true
is_supported_column_type integer = true
is_supported_column_type date = true
is_supported_column_type (decimal width scale) = is_int_lane_type (decimal width scale)
is_supported_column_type (other _) = false

-- `int64_t Pow10(uint8_t)`, with the wrap of each product.
unfoldable pub pow10 : ℕ → Int64
pow10 zero = 1
pow10 (suc n) = pow10 n * 10 % 2 ^ 64

pub record Translator (D : Type 0) : Type 0 where
  pub ops : List (ExprOp D)
  pub referenced_cols : List ℕ

-- `std::set::insert`.
unfoldable pub insert_col : ℕ → List ℕ → List ℕ
insert_col c [] = c ∷ []
insert_col c (d ∷ ds) =
    if ltb c d then c ∷ d ∷ ds else if c == d then d ∷ ds else d ∷ insert_col c ds

abbrev pub lane_eq : Lane → Lane → Bool
lane_eq float_lane float_lane = true
lane_eq int_lane int_lane = true
lane_eq bool_lane bool_lane = true
lane_eq _ _ = false

abbrev pub is_bool_lane : Lane → Bool
is_bool_lane bool_lane = true
is_bool_lane _ = false

unfoldable pub comparison_code : ComparisonType → Option ExprOpCode
comparison_code less_than = some cmp_lt
comparison_code less_than_or_equal = some cmp_le
comparison_code greater_than = some cmp_gt
comparison_code greater_than_or_equal = some cmp_ge
comparison_code equal = some cmp_eq
comparison_code not_equal = some cmp_ne
comparison_code other_comparison = none

unfoldable pub binary_code : String → Option ExprOpCode
binary_code name =
    if str_eq name "+"
    then some add
    else if str_eq name "-"
    then some sub
    else if str_eq name "*"
    then some mul
    else if str_eq name "/"
    then some div
    else none

-- The code, and whether the function is accepted on the float lane only.
unfoldable pub unary_code : String → Option (ExprOpCode × Bool)
unary_code name =
    if str_eq name "-"
    then some (negate, false)
    else if str_eq name "sin"
    then some (sin, true)
    else if str_eq name "cos"
    then some (cos, true)
    else if str_eq name "sqrt"
    then some (sqrt, true)
    else if str_eq name "abs"
    then some (abs, false)
    else none

abbrev pub is_div : ExprOpCode → Bool
is_div div = true
is_div _ = false

module _ (H : HostDouble) where
  open H use {Double}

  abbrev pub Emission : Type 0
  Emission = Option (Lane × Translator Double)

  abbrev pub push : ExprOp Double → Translator Double → Translator Double
  push op t = record t { ops = t.ops ++ op ∷ [] }

  abbrev pub code_op : ExprOpCode → ExprOp Double
  code_op = plain_op H.zero_double

  abbrev pub int_op : Int64 → ExprOp Double
  int_op v = record {
    code = const_val;
    col = pos 0;
    value = H.zero_double;
    ivalue = v;
    int_lane = true;
  }

  abbrev pub value_op : ExprOpCode → Double → ExprOp Double
  value_op c v = record { code = c; col = pos 0; value = v; ivalue = 0; int_lane = false }

  abbrev pub load_op : ℕ → ExprOp Double
  load_op c = record {
    code = load_col;
    col = pos c;
    value = H.zero_double;
    ivalue = 0;
    int_lane = false;
  }

  abbrev pub find_projection : ℕ → List (Projection Double) → Option (Projection Double)
  find_projection i [] = none
  find_projection i (p ∷ ps) = if i == p.table_index then some p else find_projection i ps

  unfoldable pub column_lane : LogicalType → Lane
  column_lane ty = if is_int_lane_type ty then int_lane else float_lane

  abbrev pub translate_storage : LogicalType → Option ℕ → Translator Double → Emission
  translate_storage ty none t = none
  translate_storage ty (some storage_col) t = some (
    column_lane ty,
    record {
      ops = t.ops ++ load_op storage_col ∷ [];
      referenced_cols = insert_col storage_col t.referenced_cols;
    },
  )

  unfoldable pub translate_constant : Value Double → Translator Double → Emission
  translate_constant null t = none
  translate_constant (decimal_value width scale raw) t =
      if is_int_lane_type (decimal width scale) then some (int_lane, push (int_op raw) t) else none
  translate_constant (date_value days) t =
      some (float_lane, push (value_op const_val (H.of_int days)) t)
  translate_constant (other_value ty v) t =
      if is_numeric ty then some (float_lane, push (value_op const_val v) t) else none

  -- `self` is the recursive call.
  module _ (get : Get) (projs : List (Projection Double))
      (self : Expression Double → Translator Double → Emission) where
    unfoldable pub translate_column_ref : ℕ → ℕ → LogicalType → Translator Double → Emission
    translate_column_ref table column ty t = elim (find_projection table projs) [
      | some p ↦ get_elem? p.expressions column >>= λ e. self e t
      | none ↦
          if table == get.table_index
          then (if is_supported_column_type ty
              then translate_storage ty (get_elem? get.column_ids column) t
              else none)
          else none
    ]

    -- A child that must come out on the given lane.
    abbrev pub translate_on :
        Lane → Expression Double → Translator Double → Option (Translator Double)
    translate_on lane e t = self e t >>= λ r. if lane_eq r.0 lane then some r.1 else none

    unfoldable pub rescale : ℕ → Translator Double → Translator Double
    rescale zero t = t
    rescale (suc k) t = push (code_op mul) (push (int_op (pow10 (suc k))) t)

    unfoldable pub cast_to_decimal :
        ℕ → ℕ → LogicalType → Expression Double → Translator Double → Emission
    cast_to_decimal width scale (decimal width' scale') e t =
        if is_int_lane_type (decimal width scale)
        then (if is_int_lane_type (decimal width' scale')
            then (if ltb scale scale'
                then none
                else translate_on int_lane e t >>= λ t'.
                    some (int_lane, rescale (scale - scale') t'))
            else none)
        else none
    cast_to_decimal width scale _ e t = none

    unfoldable pub cast_to_float : LogicalType → Expression Double → Translator Double → Emission
    cast_to_float (decimal width scale) e t =
        if is_int_lane_type (decimal width scale)
        then (translate_on int_lane e t >>= λ t'.
            some (float_lane, push (value_op to_float (H.reciprocal (pow10 scale))) t'))
        else none
    cast_to_float from e t =
        if is_numeric from
        then (translate_on float_lane e t >>= λ t'. some (float_lane, t'))
        else none

    unfoldable pub translate_cast :
        Bool → LogicalType → LogicalType → Expression Double → Translator Double → Emission
    translate_cast true to from e t = none
    translate_cast false (decimal width scale) from e t = cast_to_decimal width scale from e t
    translate_cast false double from e t = cast_to_float from e t
    translate_cast false float from e t = cast_to_float from e t
    translate_cast false _ from e t = none

    -- Two operands on one lane, which is not the Boolean one.
    unfoldable pub translate_operands :
        Expression Double → Expression Double → Translator Double → Emission
    translate_operands l r t = do
      (left_lane, t₁) ← self l t
      (right_lane, t₂) ← self r t₁
      if lane_eq left_lane right_lane
          then (if is_bool_lane left_lane then none else some (left_lane, t₂))
          else none

    unfoldable pub translate_comparison :
        ComparisonType → Expression Double → Expression Double → Translator Double → Emission
    translate_comparison ty l r t = do
      code ← comparison_code ty
      (_, t') ← translate_operands l r t
      some (bool_lane, push (code_op code) t')

    unfoldable pub translate_rest : ExprOpCode → Expressions Double → Translator Double → Emission
    translate_rest code nil t = some (bool_lane, t)
    translate_rest code (cons e es) t =
        translate_on bool_lane e t >>= λ t'. translate_rest code es (push (code_op code) t')

    unfoldable pub translate_conjunction : Bool → Expressions Double → Translator Double → Emission
    translate_conjunction is_and nil t = none
    translate_conjunction is_and (cons e es) t =
        translate_on bool_lane e t >>= translate_rest (if is_and then and else or) es

    unfoldable pub translate_operator : Bool → Expressions Double → Translator Double → Emission
    translate_operator true (cons e nil) t =
        translate_on bool_lane e t >>= λ t'. some (bool_lane, push (code_op not) t')
    translate_operator _ _ t = none

    unfoldable pub translate_binary :
        String → Expression Double → Expression Double → Translator Double → Emission
    translate_binary name l r t = do
      code ← binary_code name
      (lane, t') ← translate_operands l r t
      if lane_eq lane int_lane
          then (if is_div code then none else some (lane, push (code_op code) t'))
          else some (lane, push (code_op code) t')

    unfoldable pub translate_unary : String → Expression Double → Translator Double → Emission
    translate_unary name e t = do
      (code, float_only) ← unary_code name
      (lane, t') ← self e t
      if is_bool_lane lane
          then none
          else if float_only
          then (if lane_eq lane float_lane then some (lane, push (code_op code) t') else none)
          else some (lane, push (code_op code) t')

    unfoldable pub translate_function : String → Expressions Double → Translator Double → Emission
    translate_function name (cons l (cons r nil)) t = translate_binary name l r t
    translate_function name (cons e nil) t = translate_unary name e t
    translate_function name _ t = none

    -- The switch of `Translate`.
    unfoldable pub translate_node : Expression Double → Translator Double → Emission
    translate_node (column_ref table column ty) t = translate_column_ref table column ty t
    translate_node (constant v) t = translate_constant v t
    translate_node (cast try_cast to from e) t = translate_cast try_cast to from e t
    translate_node (comparison ty l r) t = translate_comparison ty l r t
    translate_node (conjunction is_and es) t = translate_conjunction is_and es t
    translate_node (operator is_not es) t = translate_operator is_not es t
    translate_node (function name es) t = translate_function name es t
    translate_node other_class t = none

  unfoldable pub translate :
      Get → List (Projection Double) → ℕ → Expression Double → Translator Double → Emission
  translate get projs zero e t = none
  translate get projs (suc fuel) e t = translate_node get projs (translate get projs fuel) e t
