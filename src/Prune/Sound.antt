-- ===== src/Prune/Sound.antt =====
-- Skipping a segment never changes a result: the filter is false at each of its rows.
use duckdb_mlx.Common.{
  ℕ, ◌≤◌, ◌≡◌, refl, sym, ap, subst, ◌∙◌, ◌⊎◌, Bool, true, false, not, List, [], ◌∷◌, Option, none,
  some, ℤ, ◌==◌, arith, inl, inr, Bool-cases, Option-cases, ◌>>=◌, >>=-eq-some, All,
}
use mathlib.Core.Bool.{false≢true}
use mathlib.Core.Option.{some-injective, none-ne-some}
use duckdb_mlx.Common.Int64.{Int64, IsInt64, rank, lt_i64, le_i64, rank_injective}
use duckdb_mlx.Ir.{
  ExprOpCode, load_col, const_val, cmp_lt, cmp_le, cmp_gt, cmp_ge, cmp_eq, cmp_ne, and, ExprOp,
}
use duckdb_mlx.Ir.Eval.{Backend, int64, step, run, eval_ops, load, constant, int_constant, back}
use duckdb_mlx.Zone.{ZoneMap}
use duckdb_mlx.Prune.{
  is_load, is_const, SegmentPrunePred, DoubleOrder, is_comparison, is_and, parse_cmp, parse_more,
  parse_preds, build_segment_prune_preds, excludes, zone_of, test_pred, segment_should_prune,
}

-- MLX compares int64 arrays by the signed order; `truth` reads a Boolean array at the row in view.
pub record ComparesInts {D : Type 0} (B : Backend D) (truth : B.Arr → Bool) : Type 0 where
  pub less_lem : (a b : Int64) → truth (B.less (B.int64_of a) (B.int64_of b)) ≡ lt_i64 a b
  pub less_equal_lem :
      (a b : Int64) → truth (B.less_equal (B.int64_of a) (B.int64_of b)) ≡ le_i64 a b
  pub greater_lem : (a b : Int64) → truth (B.greater (B.int64_of a) (B.int64_of b)) ≡ lt_i64 b a
  pub greater_equal_lem :
      (a b : Int64) → truth (B.greater_equal (B.int64_of a) (B.int64_of b)) ≡ le_i64 b a
  pub equal_lem : (a b : Int64) → truth (B.equal (B.int64_of a) (B.int64_of b)) ≡ (a == b)
  pub not_equal_lem :
      (a b : Int64) → truth (B.not_equal (B.int64_of a) (B.int64_of b)) ≡ not (a == b)

is_load_lem : (x : ExprOpCode) → is_load x ≡ true → x ≡ load_col
is_load_lem load_col h = refl
is_load_lem _ h = cc

is_const_lem : (x : ExprOpCode) → is_const x ≡ true → x ≡ const_val
is_const_lem const_val h = refl
is_const_lem _ h = cc

module _ {D : Type 0} where
  parse_cmp-codes :
      (l k c : ExprOp D) (p : SegmentPrunePred D)
      → parse_cmp l k c ≡ some p
      → (l.code ≡ load_col)
        × (k.code ≡ const_val)
        × (is_comparison c.code ≡ true)
        × (p.col ≡ l.col)
        × (p.code ≡ c.code)
        × (p.iconst ≡ k.ivalue)
        × (p.int_lane ≡ k.int_lane)
  unfolding parse_cmp
  parse_cmp-codes l k c p h = elim (Bool-cases (is_load l.code)) [
    | inr q ↦ absurd (none-ne-some _ (rw (q, parse_cmp) at h))
    | inl load ↦ elim (Bool-cases (is_const k.code)) [
      | inr q ↦ absurd (none-ne-some _ (rw (load, q, parse_cmp) at h))
      | inl const ↦ elim (Bool-cases (is_comparison c.code)) [
        | inr q ↦ absurd (none-ne-some _ (rw (load, const, q, parse_cmp) at h))
        | inl comp ↦
            let pred = some-injective _ _ (rw (load, const, comp, parse_cmp) at h) in
            (
              is_load_lem l.code load,
              is_const_lem k.code const,
              comp,
              ap (λ (q : SegmentPrunePred D). q.col) (sym pred),
              ap (λ (q : SegmentPrunePred D). q.code) (sym pred),
              ap (λ (q : SegmentPrunePred D). q.iconst) (sym pred),
              ap (λ (q : SegmentPrunePred D). q.int_lane) (sym pred),
            )
      ]
    ]
  ]

  module _ (B : Backend D) (cols : List B.Arr) where
    -- A load, a constant and one more operation, from the empty stack.
    run-triple :
        (l k c : ExprOp D) (rest : List (ExprOp D))
        → l.code ≡ load_col
        → k.code ≡ const_val
        → run B int64 cols (l ∷ k ∷ c ∷ rest) [] ≡ (
            load B int64 cols l.col >>= λ a.
            step B int64 cols c.code c (constant B int64 k ∷ a ∷ []) >>= run B int64 cols rest)
    unfolding run step
    run-triple l k c rest hl hk = rw (hl, step) (go (load B int64 cols l.col))
      where
        go :
            (r : Option B.Arr)
            → ((r >>= λ a. some (a ∷ [])) >>= run B int64 cols (k ∷ c ∷ rest)) ≡ (
                r >>= λ a.
                step B int64 cols c.code c (constant B int64 k ∷ a ∷ []) >>= run B int64 cols rest)
        go none = refl
        go (some a) = rw (hk, step)

    -- After a comparison an AND finds one value on the stack.
    comparison-then-and :
        (code : ExprOpCode) (c op : ExprOp D) (a b : B.Arr) (rest : List (ExprOp D))
        → is_comparison code ≡ true
        → op.code ≡ and
        → (step B int64 cols code c (b ∷ a ∷ []) >>= run B int64 cols (op ∷ rest)) ≡ none
    unfolding step run
    comparison-then-and code c op a b rest h e = ground arith

    is_and→eq : (c : ExprOpCode) → is_and c ≡ true → c ≡ and
    is_and→eq c h = ground arith

    parse_more-head :
        (a : ExprOp D) (rest : List (ExprOp D)) (ps : List (SegmentPrunePred D))
        → parse_more (a ∷ rest) ≡ some ps
        → a.code ≡ and
    unfolding parse_more
    parse_more-head a [] ps h = cc
    parse_more-head a (l ∷ []) ps h = cc
    parse_more-head a (l ∷ k ∷ []) ps h = cc
    parse_more-head a (l ∷ k ∷ c ∷ rest) ps h = elim (Bool-cases (is_and a.code)) [
      | inl e ↦ is_and→eq a.code e
      | inr e ↦ cc (rw e at h)
    ]

    eval_ops-longer :
        (l k c a : ExprOp D) (rest : List (ExprOp D)) (p : SegmentPrunePred D)
        → parse_cmp l k c ≡ some p
        → a.code ≡ and
        → eval_ops B int64 cols (l ∷ k ∷ c ∷ a ∷ rest) ≡ none
    unfolding eval_ops
    eval_ops-longer l k c a rest p hp ha =
        let (hl, hk, hc, _, _, _, _) = parse_cmp-codes l k c p hp in
        rw (run-triple l k c (a ∷ rest) hl hk) (go (load B int64 cols l.col) hc)
      where
        go :
            (r : Option B.Arr)
            → is_comparison c.code ≡ true
            → ((r >>= λ v.
                  step B int64 cols c.code c (constant B int64 k ∷ v ∷ [])
                  >>= run B int64 cols (a ∷ rest))
                >>= back)
              ≡ none
        go none hc = refl
        go (some v) hc = rw (comparison-then-and c.code c a v (constant B int64 k) rest hc ha)

    -- What remains to be seen of a filter that is recognised: one comparison and no more.
    abbrev Single : List (ExprOp D) → List (SegmentPrunePred D) → Type 0
    Single ops ps =
        (l k c : ExprOp D) × (p : SegmentPrunePred D) × (ops ≡ l ∷ k ∷ c ∷ [])
        × (parse_cmp l k c ≡ some p)
        × (ps ≡ p ∷ [])

    parse_preds-Single :
        (ops : List (ExprOp D)) (m : B.Arr) (ps : List (SegmentPrunePred D))
        → eval_ops B int64 cols ops ≡ some m
        → parse_preds ops ≡ some ps
        → Single ops ps
    unfolding parse_preds parse_more
    parse_preds-Single [] m ps ev h = cc
    parse_preds-Single (l ∷ []) m ps ev h = cc
    parse_preds-Single (l ∷ k ∷ []) m ps ev h = cc
    parse_preds-Single (l ∷ k ∷ c ∷ rest) m ps ev h =
        let (p, hp, h₁) = >>=-eq-some (parse_cmp l k c) _ h in
        let (qs, hq, h₂) = >>=-eq-some (parse_more rest) _ h₁ in ends rest p qs ev hp hq h₂
      where
        ends :
            (rest : List (ExprOp D)) (p : SegmentPrunePred D) (qs : List (SegmentPrunePred D))
            → eval_ops B int64 cols (l ∷ k ∷ c ∷ rest) ≡ some m
            → parse_cmp l k c ≡ some p
            → parse_more rest ≡ some qs
            → some (p ∷ qs) ≡ some ps
            → Single (l ∷ k ∷ c ∷ rest) ps
        ends [] p qs ev hp hq e = (l, k, c, p, refl, hp, ground arith)
        ends (a ∷ rest) p qs ev hp hq e =
            cc (eval_ops-longer l k c a rest p hp (parse_more-head a rest qs hq), ev)

    -- A WHERE filter that evaluates gives at most one pruning predicate: conjunctions, which the
    -- planner emits in postfix order, are not recognised.
    pub length-build_segment_prune_preds :
        (ops : List (ExprOp D)) (m : B.Arr)
        → eval_ops B int64 cols ops ≡ some m
        → (build_segment_prune_preds ops ≡ [])
          ⊎ ((l k c : ExprOp D) × (p : SegmentPrunePred D) × (ops ≡ l ∷ k ∷ c ∷ [])
              × (parse_cmp l k c ≡ some p)
              × (build_segment_prune_preds ops ≡ p ∷ []))
    unfolding build_segment_prune_preds
    length-build_segment_prune_preds ops m ev = elim (Option-cases (parse_preds ops)) [
      | inl e ↦ inl (rw (e, build_segment_prune_preds))
      | inr (ps, e) ↦
          let (l, k, c, p, shape, hp, one) = parse_preds-Single ops m ps ev e in
          inr (l, k, c, p, shape, hp, rw (e, build_segment_prune_preds) one)
    ]

    module _ (truth : B.Arr → Bool) (laws : ComparesInts B truth) (O : DoubleOrder D)
        (of_int : Int64 → D) where
      segment_should_prune-one :
          (seg_idx : ℕ) (p : SegmentPrunePred D) (maps : List (List (ZoneMap D)))
          → segment_should_prune O of_int seg_idx (p ∷ []) maps ≡ true
          → (zm : ZoneMap D) × (zone_of O of_int seg_idx p.col maps ≡ some zm)
            × (excludes O of_int p.code p zm ≡ true)
            × (p.int_lane ≡ zm.int_lane)
      unfolding segment_should_prune test_pred
      segment_should_prune-one seg_idx p maps h =
          elim (Option-cases (zone_of O of_int seg_idx p.col maps)) [
            | inl e ↦ absurd (false≢true (rw (e, segment_should_prune) at h))
            | inr (zm, e) ↦ (zm, e, ground arith, ground arith)
          ]

      eval_ops-one :
          (l k c : ExprOp D) (v : Int64) (m : B.Arr)
          → l.code ≡ load_col
          → k.code ≡ const_val
          → k.int_lane ≡ true
          → load B int64 cols l.col ≡ some (B.int64_of v)
          → eval_ops B int64 cols (l ∷ k ∷ c ∷ []) ≡ some m
          → (rest : List B.Arr) × (step B int64 cols c.code c
                (B.int64_of k.ivalue ∷ B.int64_of v ∷ [])
              ≡ some (m ∷ rest))
      unfolding eval_ops run constant int_constant
      eval_ops-one l k c v m hl hk hi hv ev =
          top (step B int64 cols c.code c (B.int64_of k.ivalue ∷ B.int64_of v ∷ []))
            (rw (run-triple l k c [] hl hk, hv, hi) at ev)
        where
          top :
              (r : Option (List B.Arr))
              → (r >>= run B int64 cols [] >>= back) ≡ some m
              → (rest : List B.Arr) × (r ≡ some (m ∷ rest))
          top none h = cc
          top (some []) h = cc
          top (some (a ∷ rest)) h = (rest, cc)

      -- The value of a row in a column, against the zone map of the column's segment.
      abbrev pub RowWithin : Int64 → ZoneMap D → Type 0
      RowWithin v zm =
          IsInt64 v × IsInt64 zm.imin × (rank zm.imin ≤ rank v) × (rank v ≤ rank zm.imax)

      comparison-false :
          (code : ExprOpCode) (p : SegmentPrunePred D) (zm : ZoneMap D) (v : Int64) (op : ExprOp D)
          (m : B.Arr) (rest : List B.Arr)
          → excludes O of_int code p zm ≡ true
          → zm.int_lane ≡ true
          → RowWithin v zm
          → step B int64 cols code op (B.int64_of p.iconst ∷ B.int64_of v ∷ []) ≡ some (m ∷ rest)
          → truth m ≡ false
      unfolding excludes step
      comparison-false cmp_lt p zm v op m rest x i w e =
          let r : B.less (B.int64_of v) (B.int64_of p.iconst) ≡ m = cc in
          rw (← r, laws.less_lem) (ground arith)
      comparison-false cmp_le p zm v op m rest x i w e =
          let r : B.less_equal (B.int64_of v) (B.int64_of p.iconst) ≡ m = cc in
          rw (← r, laws.less_equal_lem) (ground arith)
      comparison-false cmp_gt p zm v op m rest x i w e =
          let r : B.greater (B.int64_of v) (B.int64_of p.iconst) ≡ m = cc in
          rw (← r, laws.greater_lem) (ground arith)
      comparison-false cmp_ge p zm v op m rest x i w e =
          let r : B.greater_equal (B.int64_of v) (B.int64_of p.iconst) ≡ m = cc in
          rw (← r, laws.greater_equal_lem) (ground arith)
      comparison-false cmp_eq p zm v op m rest x i w e =
          let r : B.equal (B.int64_of v) (B.int64_of p.iconst) ≡ m = cc in
          rw (← r, laws.equal_lem) (ground arith)
      comparison-false cmp_ne p zm v op m rest x i w e =
          let r : B.not_equal (B.int64_of v) (B.int64_of p.iconst) ≡ m = cc in
          rw (← r, laws.not_equal_lem) (ground (arith, rank_injective zm.imin v))
      comparison-false _ p zm v op m rest x i w e = cc

      -- A segment is skipped only if the WHERE filter is false at each of its rows.
      -- Conditions: the filter evaluates, its constants are on the int64 lane, MLX compares
      -- int64 arrays as ComparesInts states, and the row in view has, in each column whose
      -- zone map is of that lane, a value within the zone map.
      pub segment_should_prune-false :
          (ops : List (ExprOp D)) (m : B.Arr) (seg_idx : ℕ) (maps : List (List (ZoneMap D)))
          → eval_ops B int64 cols ops ≡ some m
          → All (λ op. op.code ≡ const_val → op.int_lane ≡ true) ops
          → ((c : ℤ) (zm : ZoneMap D)
              → zone_of O of_int seg_idx c maps ≡ some zm
              → zm.int_lane ≡ true
              → (v : Int64) × (load B int64 cols c ≡ some (B.int64_of v)) × RowWithin v zm)
          → segment_should_prune O of_int seg_idx (build_segment_prune_preds ops) maps ≡ true
          → truth m ≡ false
      segment_should_prune-false ops m seg_idx maps ev ints row h =
          elim (length-build_segment_prune_preds ops m ev) [
            | inl e ↦ unfold segment_should_prune in cc (rw e at h)
            | inr (l, k, c, p, shape, hp, one) ↦
                let (zm, found, x, lanes) = segment_should_prune-one seg_idx p maps (rw one at h) in
                let (hl, hk, hc, pcol, pcode, pconst, plane) = parse_cmp-codes l k c p hp in
                let klane : k.int_lane ≡ true = (rw shape at ints).1.0 hk in
                let zlane : zm.int_lane ≡ true = sym lanes ∙ plane ∙ klane in
                let (v, hv, w) = row p.col zm found zlane in
                let (rest, stepped) =
                  eval_ops-one l k c v m hl hk klane (rw pcol at hv) (rw shape at ev) in
                comparison-false c.code p zm v c m rest
                  (subst (λ code. excludes O of_int code p zm ≡ true) pcode x) zlane w
                  (subst
                    (λ i.
                      step B int64 cols c.code c (B.int64_of i ∷ B.int64_of v ∷ [])
                      ≡ some (m ∷ rest))
                    (sym pconst) stepped)
          ]
