-- ===== src/Tests/Engine.antt =====
-- A table of one int64 column in two segments, with the filter `column < 5` and the program SUM(column).
use duckdb_mlx.Common.{
  ℕ, zero, suc, ◌≤◌, ◌≡◌, refl, sym, ◌∙◌, subst, Bool, true, false, List, [], ◌∷◌, map, none, some,
  arith, All, ℤ, pos, negsuc, get_elem?, length, ◌⊎◌, inr,
}
use mathlib.Core.Option.{some-injective, none-ne-some}
use duckdb_mlx.Common.Int64.{Int64, IsInt64, rank}
use duckdb_mlx.Ir.{load_col, const_val, add, cmp_lt, ExprOp, sum, SumProgram, Filter, plain_op}
use duckdb_mlx.Ir.Eval.{int64, eval_ops, run, step, load, constant, int_constant, widen}
use duckdb_mlx.Planner.{
  decimal, Expression, column_ref, function, cons, nil, Get, Projection, HostDouble,
}
use duckdb_mlx.Planner
use duckdb_mlx.Planner.Translate.{Translator, int_lane, translate}
use duckdb_mlx.Planner.Translate
use duckdb_mlx.Planner.Translate.Meaning.{Denotes}
use duckdb_mlx.Planner.Translate.Sound.{empty_translator, eval_ops-translate}
use duckdb_mlx.Zone.{
  ZoneMap, compute_zone_map, Within, compute_zone_map-Within, zone_of_scan, scan_loop, scan_step,
}
use duckdb_mlx.Prune.{
  SegmentPrunePred, build_segment_prune_preds, parse_preds, parse_cmp, segment_should_prune,
  zone_of, test_pred, excludes, parse_more,
}
use duckdb_mlx.Prune.Sound.{segment_should_prune-false, length-build_segment_prune_preds}
use duckdb_mlx.Segment.{
  Row, Segment, eval_segments, program_mask, filter_mask, null_mask, combine_masks, masked_cols,
  filter_at, expr_at,
}
use duckdb_mlx.Segment.Exact.{exact, aggregate, table_values, segment_values, eval_segments-exact}
use duckdb_mlx.Segment.Pruning.{AllCovered, AllCovered-SkipsSafely, eval_segments-pruning}
use duckdb_mlx.Tests.Machine.{machine, reductions, reductions-IntReductions, machine-ComparesInts}

abbrev pub load_zero : ExprOp ℕ
load_zero = plain_op 0 load_col

abbrev five : ExprOp ℕ
five = record { code = const_val; col = pos 0; value = 0; ivalue = 5; int_lane = true }

abbrev pub below_five : Filter ℕ
below_five = record { ops = load_zero ∷ five ∷ plain_op 0 cmp_lt ∷ []; null_cols = pos 0 ∷ [] }

abbrev pub sum_column : SumProgram ℕ
sum_column = record {
  kind = sum;
  ops = load_zero ∷ [];
  null_cols = pos 0 ∷ [];
  int_lane = true;
  int32_rows = false;
  gpu_fp32_rows = false;
  row_abs_bound = 0;
  render_scale = 1;
}

abbrev row_of : ℕ → Row ℕ
row_of v = record { cols = v ∷ []; valid = true ∷ [] }

abbrev segments : List (Segment ℕ)
segments =
    record { masked = true ∷ []; rows = row_of 1 ∷ row_of 7 ∷ [] }
    ∷ record { masked = false ∷ []; rows = row_of 10 ∷ row_of 12 ∷ [] }
    ∷ []

abbrev zone : ℕ → ℕ → ZoneMap ℕ
zone lo hi = record {
  min_val = lo;
  max_val = hi;
  imin = lo;
  imax = hi;
  int_lane = true;
  has_null = false;
}

abbrev zones : List (List (ZoneMap ℕ))
zones = (zone 1 7 ∷ zone 10 12 ∷ []) ∷ []

abbrev InZone : List ℕ → ℤ → ZoneMap ℕ → Type 0
InZone cols c zm =
    (v : Int64) × (load machine int64 cols c ≡ some v)
    × (IsInt64 v × IsInt64 zm.imin × (rank zm.imin ≤ rank v) × (rank v ≤ rank zm.imax))

-- A row with the one value `v` against the zone maps of the segment `idx`.
in_zone :
    (idx v lo hi : ℕ)
    → (zone_of reductions.order reductions.of_int idx (pos 0) zones ≡ some (zone lo hi))
    → IsInt64 v
    → IsInt64 lo
    → rank lo ≤ rank v
    → rank v ≤ rank hi
    → (c : ℤ) (zm : ZoneMap ℕ) → zone_of reductions.order reductions.of_int idx c zones ≡ some zm
    → InZone (v ∷ []) c zm
unfolding zone_of load widen
in_zone idx v lo hi here hv hlo below above (pos zero) zm found =
    let same : zone lo hi ≡ zm = some-injective _ _ (sym here ∙ found) in
    subst (InZone (v ∷ []) (pos 0)) same (v, refl, (hv, hlo, below, above))
in_zone idx v lo hi here hv hlo below above (pos (suc c)) zm found = absurd (none-ne-some _ found)
in_zone idx v lo hi here hv hlo below above (negsuc c) zm found = absurd (none-ne-some _ found)

covered : AllCovered machine reductions below_five zones 0 segments
unfolding eval_ops run step load widen constant int_constant zone_of
covered = (
  (
    inr (
      1,
      refl,
      λ c zm found _.
          in_zone 0 1 1 7 refl (omega arith) (omega arith) (omega arith) (omega arith) c zm found,
    ),
    (
      inr (
        0,
        refl,
        λ c zm found _.
            in_zone 0 7 1 7 refl (omega arith) (omega arith) (omega arith) (omega arith) c zm found,
      ),
      tt,
    ),
  ),
  (
    (
      inr (
        0,
        refl,
        λ c zm found _.
            in_zone 1 10 10 12 refl (omega arith) (omega arith) (omega arith) (omega arith) c zm
              found,
      ),
      (
        inr (
          0,
          refl,
          λ c zm found _.
              in_zone 1 12 10 12 refl (omega arith) (omega arith) (omega arith) (omega arith) c zm
                found,
        ),
        tt,
      ),
    ),
    tt,
  ),
)

constants_int : All (λ op. op.code ≡ const_val → op.int_lane ≡ true) below_five.ops
constants_int = (λ h. ground arith, (λ h. refl, (λ h. ground arith, tt)))

eval_segments-exact_example :
    map
      (exact machine reductions)
      (eval_segments machine reductions segments (sum_column ∷ []) below_five (some zones)).0
    ≡ map
        (λ p. (
          aggregate p.kind (table_values machine reductions segments below_five p),
          length (table_values machine reductions segments below_five p),
        ))
        (sum_column ∷ [])
eval_segments-exact_example =
    eval_segments-exact machine reductions segments (sum_column ∷ []) below_five (some zones)
      reductions-IntReductions (λ _. (refl, refl), tt) (inr refl)
      (AllCovered-SkipsSafely machine reductions below_five zones machine-ComparesInts constants_int
        0 segments covered)

eval_segments-pruning_example :
    map
      (exact machine reductions)
      (eval_segments machine reductions segments (sum_column ∷ []) below_five (some zones)).0
    ≡ map
        (exact machine reductions)
        (eval_segments machine reductions segments (sum_column ∷ []) below_five none).0
eval_segments-pruning_example =
    eval_segments-pruning machine reductions below_five zones machine-ComparesInts constants_int
      segments (sum_column ∷ []) reductions-IntReductions (λ _. (refl, refl), tt) (inr refl) covered

-- The second segment is skipped, and the one value that passes is counted.
run_table :
    map
      (exact machine reductions)
      (eval_segments machine reductions segments (sum_column ∷ []) below_five (some zones)).0
    ≡ (1, 1) ∷ []
unfolding table_values segment_values program_mask filter_mask null_mask combine_masks masked_cols
    filter_at expr_at eval_ops run step load widen constant int_constant
run_table = eval_segments-exact_example

value_at_ten : eval_ops machine int64 (10 ∷ []) below_five.ops ≡ some 0
unfolding eval_ops run step load widen constant int_constant
value_at_ten = refl

zone_one : zone_of reductions.order reductions.of_int 1 (pos 0) zones ≡ some (zone 10 12)
unfolding zone_of
zone_one = refl

prunes_second :
    segment_should_prune reductions.order reductions.of_int 1
      (build_segment_prune_preds below_five.ops)
      zones
    ≡ true
unfolding segment_should_prune build_segment_prune_preds parse_preds parse_cmp parse_more zone_of
    test_pred excludes
prunes_second = refl

segment_should_prune-false_example : reductions.truth 0 ≡ false
segment_should_prune-false_example =
    segment_should_prune-false machine (10 ∷ []) reductions.truth machine-ComparesInts
      reductions.order reductions.of_int below_five.ops 0 1 zones value_at_ten constants_int
      (λ c zm found _.
        in_zone 1 10 10 12 zone_one (omega arith) (omega arith) (omega arith) (omega arith) c zm
          found)
      prunes_second

length-build_segment_prune_preds_example :
    (build_segment_prune_preds below_five.ops ≡ [])
    ⊎ ((l k c : ExprOp ℕ) × (p : SegmentPrunePred ℕ) × (below_five.ops ≡ l ∷ k ∷ c ∷ [])
        × (parse_cmp l k c ≡ some p)
        × (build_segment_prune_preds below_five.ops ≡ p ∷ []))
length-build_segment_prune_preds_example =
    length-build_segment_prune_preds machine (10 ∷ []) below_five.ops 0 value_at_ten

compute_zone_map-Within_example :
    All (Within 3 9) ((3, true) ∷ (100, false) ∷ (9, true) ∷ [])
    × (true ≡ false
        → All (λ (e : ℕ × Bool). e.1 ≡ true) ((3, true) ∷ (100, false) ∷ (9, true) ∷ []))
unfolding compute_zone_map zone_of_scan scan_loop scan_step
compute_zone_map-Within_example =
    compute_zone_map-Within (λ i. i) 0 ((3, true) ∷ (100, false) ∷ (9, true) ∷ [])

abbrev host : HostDouble
host = record { Double = ℕ; zero_double = 0; of_int = λ i. i; reciprocal = λ i. i }

-- column + 5, on a DECIMAL(10, 2) column.
abbrev column_plus_five : Expression ℕ
column_plus_five = function "+" (
    cons (column_ref 0 0 (decimal 10 2))
      (cons (Planner.constant (Planner.decimal_value 10 2 5)) nil))

abbrev scanned : Get
scanned = record { table_index = 0; column_ids = 0 ∷ []; returned_types = decimal 10 2 ∷ [] }

abbrev plus_five_program : Translator ℕ
plus_five_program = record {
  ops = Translate.load_op host 0 ∷ Translate.int_op host 5 ∷ plain_op 0 add ∷ [];
  referenced_cols = 0 ∷ [];
}

translate_plus_five :
    translate host scanned [] 2 column_plus_five empty_translator
    ≡ some (int_lane, plus_five_program)
unfolding translate Translate.translate_node Translate.translate_function Translate.translate_binary
    Translate.translate_operands Translate.translate_column_ref Translate.translate_constant
    Translate.column_lane Translate.binary_code Translate.is_supported_column_type
    Translate.is_int_lane_type Translate.insert_col
translate_plus_five = refl

scanned_present :
    (c storage : ℕ)
    → get_elem? scanned.column_ids c ≡ some storage
    → (v : ℕ) × (get_elem? (7 ∷ []) storage ≡ some v)
scanned_present zero storage h = rw (← some-injective _ _ h) (7, refl)
scanned_present (suc c) storage h = absurd (none-ne-some _ h)

eval_ops-translate_example :
    (v : ℕ) × Denotes host machine scanned [] (7 ∷ []) column_plus_five int_lane v
    × (eval_ops machine int64 (7 ∷ []) plus_five_program.ops ≡ some v)
eval_ops-translate_example =
    eval_ops-translate host machine (7 ∷ []) scanned [] 2 column_plus_five int_lane
      plus_five_program scanned_present translate_plus_five
