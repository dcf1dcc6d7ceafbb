-- ===== src/Tests/Pushdown.antt =====
-- A pushed-down filter on a DECIMAL(10, 2) column: at least 0.05 and below 0.09.
use duckdb_mlx.Common.{ℕ, ◌≡◌, refl, List, [], ◌∷◌, none, some, pos}
use duckdb_mlx.Ir.{cmp_ge, cmp_lt, and, plain_op}
use duckdb_mlx.Ir.Eval.{int64, load, widen, eval_ops, run, step, constant, int_constant}
use duckdb_mlx.Planner.{
  LogicalType, decimal, decimal_value, greater_than_or_equal, less_than, HostDouble,
}
use duckdb_mlx.Planner.Translate.{
  Translator, load_op, int_op, is_int_lane_type, is_supported_column_type, comparison_code,
  insert_col,
}
use duckdb_mlx.Planner.Translate.Sound.{empty_translator}
use duckdb_mlx.Planner.Filter.{
  TableFilter, constant_comparison, conjunction_and, is_not_null, nil, cons, Casts, decimal_raw,
  filter_constant, column_constant, constant_filter, translate_table_filter,
}
use duckdb_mlx.Planner.Filter
use duckdb_mlx.Planner.Filter.Sound.{filter_meaning, is_comparing, eval_ops-translate_table_filter}
use duckdb_mlx.Planner.Filter.Sound
use duckdb_mlx.Tests.Machine.{machine}

abbrev host : HostDouble
host = record { Double = ℕ; zero_double = 0; of_int = λ i. i; reciprocal = λ i. i }

abbrev no_casts : Casts ℕ
no_casts = record { to_decimal = λ ty v. none; to_date = λ v. none; to_double = λ v. 0 }

abbrev types : List LogicalType
types = decimal 10 2 ∷ []

abbrev at_least_five : TableFilter ℕ
at_least_five = constant_comparison greater_than_or_equal (decimal_value 10 2 5)

abbrev five_to_nine : TableFilter ℕ
five_to_nine =
    conjunction_and
      (cons at_least_five (cons (constant_comparison less_than (decimal_value 10 2 9)) nil))

abbrev five_to_nine_program : Translator ℕ
five_to_nine_program = record {
  ops =
      load_op host 0
      ∷ int_op host 5
      ∷ plain_op 0 cmp_ge
      ∷ load_op host 0
      ∷ int_op host 9
      ∷ plain_op 0 cmp_lt
      ∷ plain_op 0 and
      ∷ [];
  referenced_cols = 0 ∷ [];
}

five_to_nine_accepted :
    translate_table_filter host no_casts 0 types five_to_nine empty_translator
    ≡ some five_to_nine_program
unfolding translate_table_filter Filter.translate_first Filter.translate_others constant_filter
    column_constant filter_constant decimal_raw comparison_code insert_col is_int_lane_type
    is_supported_column_type
five_to_nine_accepted = refl

column_loaded : load machine int64 (7 ∷ []) (pos 0) ≡ some 7
unfolding load widen
column_loaded = refl

eval_ops-translate_table_filter_example :
    (v : ℕ) × (filter_meaning host no_casts 0 types machine 7 five_to_nine ≡ some v)
    × (eval_ops machine int64 (7 ∷ []) five_to_nine_program.ops ≡ some v)
unfolding is_comparing Sound.all_comparing
eval_ops-translate_table_filter_example =
    eval_ops-translate_table_filter host no_casts 0 types machine 7 five_to_nine (7 ∷ [])
      five_to_nine_program column_loaded refl five_to_nine_accepted

-- With IS NOT NULL under the AND the filter is accepted, but the program lacks an operand.
abbrev five_and_present : TableFilter ℕ
five_and_present = conjunction_and (cons at_least_five (cons is_not_null nil))

abbrev five_and_present_program : Translator ℕ
five_and_present_program = record {
  ops = load_op host 0 ∷ int_op host 5 ∷ plain_op 0 cmp_ge ∷ plain_op 0 and ∷ [];
  referenced_cols = 0 ∷ [];
}

five_and_present_accepted :
    translate_table_filter host no_casts 0 types five_and_present empty_translator
    ≡ some five_and_present_program
unfolding translate_table_filter Filter.translate_first Filter.translate_others constant_filter
    column_constant filter_constant decimal_raw comparison_code insert_col is_int_lane_type
    is_supported_column_type
five_and_present_accepted = refl

five_and_present_underflow : eval_ops machine int64 (7 ∷ []) five_and_present_program.ops ≡ none
unfolding eval_ops run step load widen constant int_constant
five_and_present_underflow = refl
