-- ===== src/Planner/Cost.antt =====
-- src/planner/mlx_transparent.cpp, the cost model: the tests by which the planner leaves a query to
-- the CPU. A cardinality is a ℤ for an int64_t, and a number of rows a ℕ.
use duckdb_mlx.Common.{
  ℕ, ◌+◌, Bool, true, false, not, ◌&&◌, List, [], ◌∷◌, ltb, leb, ℤ, pos, negsuc, if◌then◌else◌,
}
use duckdb_mlx.Ir.{AggKind, sum, count_star, ExprOp, SumProgram}
use duckdb_mlx.Prune.{is_load}

abbrev pub is_count_star : AggKind → Bool
is_count_star count_star = true
is_count_star _ = false

abbrev pub is_sum : AggKind → Bool
is_sum sum = true
is_sum _ = false

abbrev pub is_single_load : {D : Type 0} → List (ExprOp D) → Bool
is_single_load (op ∷ []) = is_load op.code
is_single_load _ = false

module _ {D : Type 0} where
  -- The switch at the end accepts every other kind.
  unfoldable pub is_plain_column_program : SumProgram D → Bool
  is_plain_column_program p = if is_count_star p.kind then true else is_single_load p.ops

  unfoldable pub programs_are_cpu_fast : List (SumProgram D) → Bool
  programs_are_cpu_fast (p ∷ []) = is_plain_column_program p
  programs_are_cpu_fast _ = false

  unfoldable pub is_plain_sum_group_by_programs : List (SumProgram D) → Bool
  is_plain_sum_group_by_programs (p ∷ []) = is_sum p.kind && is_plain_column_program p
  is_plain_sum_group_by_programs _ = false

  -- The two counters of the loop.
  abbrev pub count_lanes : List (SumProgram D) → ℕ → ℕ → ℕ × ℕ
  count_lanes [] int_lane_values value_programs = (int_lane_values, value_programs)
  count_lanes (p ∷ ps) int_lane_values value_programs =
      count_lanes ps
        (if is_count_star p.kind
          then int_lane_values
          else if p.int_lane
          then int_lane_values + 1
          else int_lane_values)
        (if is_count_star p.kind then value_programs else value_programs + 1)

  unfoldable pub int_lane_cpu_fast : List (SumProgram D) → Bool
  int_lane_cpu_fast ps =
      let (int_lane_values, value_programs) = count_lanes ps 0 0 in
      ltb 0 int_lane_values && ltb value_programs 3

abbrev pub is_low_card : ℤ → Bool
is_low_card (pos card) = ltb 0 card && leb card 10000
is_low_card (negsuc _) = false

unfoldable pub groupby_intercept_decline_cold : ℕ → ℤ → Bool → Bool → Bool
groupby_intercept_decline_cold estimated_rows combined_card cached hash_groupby =
    if cached
    then false
    else if ltb estimated_rows 100000
    then true
    else if not hash_groupby && (is_low_card combined_card && leb estimated_rows 5000000)
    then true
    else false

-- The most rows at which a GROUP BY whose columns are not cached is left to the CPU: 5000000 for 1 to
-- 10000 groups on a dense key, and 99999 for any other.
abbrev pub cold_limit : ℤ → Bool → ℕ
cold_limit (pos card) false = if leb 1 card && leb card 10000 then 5000000 else 99999
cold_limit (pos card) true = 99999
cold_limit (negsuc _) hash_groupby = 99999
