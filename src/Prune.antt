-- ===== src/Prune.antt =====
-- src/bridge/mlx_bridge.cpp, BuildSegmentPrunePreds and SegmentShouldPrune: which segments of the
-- cache a WHERE filter lets the evaluation skip.
pub mod Sound
use duckdb_mlx.Common.{
  ℕ, Bool, true, false, not, ◌&&◌, ◌||◌, List, [], ◌∷◌, Option, none, some, ℤ, pos, negsuc, ◌==◌,
  ◌>>=◌, get_elem?, if◌then◌else◌,
}
use duckdb_mlx.Common.Int64.{Int64, rank, lt_i64, le_i64}
use duckdb_mlx.Ir.{
  ExprOpCode, load_col, const_val, cmp_lt, cmp_le, cmp_gt, cmp_ge, cmp_eq, cmp_ne, and, ExprOp,
}
use duckdb_mlx.Zone.{ZoneMap}

pub record SegmentPrunePred (D : Type 0) : Type 0 where
  pub col : ℤ
  pub code : ExprOpCode
  pub constant : D
  pub iconst : Int64
  pub int_lane : Bool

abbrev pub is_load : ExprOpCode → Bool
is_load load_col = true
is_load _ = false

abbrev pub is_const : ExprOpCode → Bool
is_const const_val = true
is_const _ = false

-- `cmp < CMP_LT || cmp > CMP_NE` fails.
abbrev pub is_comparison : ExprOpCode → Bool
is_comparison cmp_lt = true
is_comparison cmp_le = true
is_comparison cmp_gt = true
is_comparison cmp_ge = true
is_comparison cmp_eq = true
is_comparison cmp_ne = true
is_comparison _ = false

abbrev pub is_and : ExprOpCode → Bool
is_and and = true
is_and _ = false

abbrev pub eq_bool : Bool → Bool → Bool
eq_bool true b = b
eq_bool false b = not b

-- The order of doubles, as the comparison operators give it.
pub record DoubleOrder (D : Type 0) : Type 0 where
  pub lt_d : D → D → Bool
  pub le_d : D → D → Bool
  pub eq_d : D → D → Bool

module _ {D : Type 0} where
  -- `parse_cmp` at three operations.
  unfoldable pub parse_cmp : ExprOp D → ExprOp D → ExprOp D → Option (SegmentPrunePred D)
  parse_cmp l k c =
      if is_load l.code && is_const k.code
      then (if is_comparison c.code
          then some (record {
            col = l.col;
            code = c.code;
            constant = k.value;
            iconst = k.ivalue;
            int_lane = k.int_lane;
          })
          else none)
      else none

  -- The loop after the first comparison: an AND, then a comparison, to the end of the filter.
  unfoldable pub parse_more : List (ExprOp D) → Option (List (SegmentPrunePred D))
  parse_more [] = some []
  parse_more (a ∷ l ∷ k ∷ c ∷ rest) =
      let preds = parse_more rest in
      if is_and a.code then (parse_cmp l k c >>= λ p. preds >>= λ ps. some (p ∷ ps)) else none
  parse_more _ = none

  unfoldable pub parse_preds : List (ExprOp D) → Option (List (SegmentPrunePred D))
  parse_preds (l ∷ k ∷ c ∷ rest) = parse_cmp l k c >>= λ p. parse_more rest >>= λ ps. some (p ∷ ps)
  parse_preds _ = none

  -- The predicates are cleared where the filter is of another form.
  unfoldable pub build_segment_prune_preds : List (ExprOp D) → List (SegmentPrunePred D)
  build_segment_prune_preds ops = elim (parse_preds ops) [ none ↦ [] | some ps ↦ ps ]

  module _ (O : DoubleOrder D) (of_int : Int64 → D) where
    open O use {lt_d, le_d, eq_d}

    -- The switch on the comparison: whether no row of the segment can satisfy it.
    unfoldable pub excludes : ExprOpCode → SegmentPrunePred D → ZoneMap D → Bool
    excludes cmp_lt p zm =
        if zm.int_lane then le_i64 p.iconst zm.imin else le_d p.constant zm.min_val
    excludes cmp_le p zm =
        if zm.int_lane then lt_i64 p.iconst zm.imin else lt_d p.constant zm.min_val
    excludes cmp_gt p zm =
        if zm.int_lane then le_i64 zm.imax p.iconst else le_d zm.max_val p.constant
    excludes cmp_ge p zm =
        if zm.int_lane then lt_i64 zm.imax p.iconst else lt_d zm.max_val p.constant
    excludes cmp_eq p zm =
        if zm.int_lane
        then lt_i64 p.iconst zm.imin || lt_i64 zm.imax p.iconst
        else lt_d p.constant zm.min_val || lt_d zm.max_val p.constant
    excludes cmp_ne p zm =
        not zm.has_null
        && (if zm.int_lane
            then (zm.imin == zm.imax) && (zm.imin == p.iconst)
            else eq_d zm.min_val zm.max_val && eq_d zm.min_val p.constant)
    excludes _ p zm = false

    -- The zone map that a predicate is tested against, if its indices are in range.
    unfoldable pub zone_of : ℕ → ℤ → List (List (ZoneMap D)) → Option (ZoneMap D)
    zone_of seg_idx (pos c) maps = get_elem? maps c >>= λ column. get_elem? column seg_idx
    zone_of seg_idx (negsuc _) maps = none

    -- One round of the loop: `none` to go on, or the answer.
    unfoldable pub test_pred : SegmentPrunePred D → Option (ZoneMap D) → Option Bool
    test_pred p none = some false
    test_pred p (some zm) =
        if eq_bool p.int_lane zm.int_lane
        then (if excludes p.code p zm
            then some true
            else if is_comparison p.code
            then none
            else some false)
        else some false

    unfoldable pub segment_should_prune :
        ℕ → List (SegmentPrunePred D) → List (List (ZoneMap D)) → Bool
    segment_should_prune seg_idx [] maps = false
    segment_should_prune seg_idx (p ∷ ps) maps =
        let rest = segment_should_prune seg_idx ps maps in
        elim (test_pred p (zone_of seg_idx p.col maps)) [ none ↦ rest | some b ↦ b ]
