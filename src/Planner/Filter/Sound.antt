-- ===== src/Planner/Filter/Sound.antt =====
-- The program of a pushed-down filter computes the filter at the values of its column.
use duckdb_mlx.Common.{
  ℕ, ◌≡◌, refl, Bool, true, false, ◌&&◌, List, [], ◌∷◌, Option, none, some, pos, ◌>>=◌, get_elem?,
  Ensures, declined, accepted, Ensures-bind, Ensures-if, Ensures-refl, Ensures-some, Ensures-map,
  arith,
}
use duckdb_mlx.Ir.{ExprOp, const_val}
use duckdb_mlx.Ir.Eval.{Backend, int64, step, load, constant, run, eval_ops}
use duckdb_mlx.Planner.{LogicalType, Value, ComparisonType, HostDouble}
use duckdb_mlx.Planner.Translate.{
  Translator, push, code_op, load_op, is_supported_column_type, is_int_lane_type,
}
use duckdb_mlx.Planner.Translate.Meaning.{comparison_meaning, connective}
use duckdb_mlx.Planner.Translate.Sound.{
  Pushes, Pushes-nullary, Pushes-binary, connective_code, connective-step, comparison_code-step,
  empty_translator,
}
use duckdb_mlx.Planner.Filter.{
  TableFilter, TableFilters, constant_comparison, conjunction_and, conjunction_or, is_not_null,
  other_filter, nil, cons, Casts, is_null, is_date, has_numeric_type, filter_constant,
  column_constant, constant_filter, translate_table_filter, translate_first, translate_others,
  decimal_raw, date_days,
}

both_true : (a b : Bool) → (a && b) ≡ true → (a ≡ true) × (b ≡ true)
both_true a b h = ground arith

module _ (H : HostDouble) (C : Casts H.Double) (storage : ℕ) (types : List LogicalType)
    (B : Backend H.Double) (a : B.Arr) where
  open H use {Double}
  open B use {Arr}

  -- The filter at the values `a` of its column; the tests of validity are left to the masks.
  unfoldable mutual
    pub filter_meaning : TableFilter Double → Option Arr
    filter_meaning (constant_comparison comparison v) = comparison_meaning B comparison >>= λ f.
        column_constant H C storage types v >>= λ k. some (f a (constant B int64 k))
    filter_meaning (conjunction_and fs) = first_meaning true fs
    filter_meaning (conjunction_or fs) = first_meaning false fs
    filter_meaning is_not_null = none
    filter_meaning other_filter = none

    pub first_meaning : Bool → TableFilters Double → Option Arr
    first_meaning is_and nil = none
    first_meaning is_and (cons f fs) = filter_meaning f >>= λ v. others_meaning is_and v fs

    pub others_meaning : Bool → Arr → TableFilters Double → Option Arr
    others_meaning is_and v nil = some v
    others_meaning is_and v (cons f fs) =
        filter_meaning f >>= λ w. others_meaning is_and (connective B is_and v w) fs

  -- No IS NOT NULL in the filter.
  unfoldable mutual
    pub is_comparing : TableFilter Double → Bool
    is_comparing (constant_comparison _ _) = true
    is_comparing (conjunction_and fs) = all_comparing fs
    is_comparing (conjunction_or fs) = all_comparing fs
    is_comparing is_not_null = false
    is_comparing other_filter = true

    pub all_comparing : TableFilters Double → Bool
    all_comparing nil = true
    all_comparing (cons f fs) = is_comparing f && all_comparing fs

  filter_constant-code :
      (ty : LogicalType) (v : Value Double)
      → Ensures (λ k. k.code ≡ const_val) (filter_constant H C ty v)
  unfolding filter_constant
  filter_constant-code ty v =
      Ensures-if (is_int_lane_type ty)
        (λ _. Ensures-bind (Ensures-refl (decimal_raw H C ty v)) λ raw _. accepted refl)
        (λ _.
          Ensures-if (is_date ty)
            (λ _. Ensures-bind (Ensures-refl (date_days H C v)) λ days _. accepted refl)
            (λ _. Ensures-if (has_numeric_type v) (λ _. accepted refl) (λ _. declined)))

  column_constant-code :
      (v : Value Double) → Ensures (λ k. k.code ≡ const_val) (column_constant H C storage types v)
  unfolding column_constant
  column_constant-code v = Ensures-bind (Ensures-refl (get_elem? types storage)) λ ty _.
      Ensures-if (is_supported_column_type ty) (λ _. filter_constant-code ty v) (λ _. declined)

  constant-step :
      (cols : List Arr) (k : ExprOp Double) (s : List Arr)
      → k.code ≡ const_val
      → step B int64 cols k.code k s ≡ some (constant B int64 k ∷ s)
  unfolding step
  constant-step cols k s h = rw h refl

  module _ (cols : List Arr) (loaded : load B int64 cols (pos storage) ≡ some a) where
    -- What was emitted pushes the value of the filter.
    abbrev Emits : Option Arr → Translator Double → Translator Double → Type 0
    Emits meaning t t' = (v : Arr) × (meaning ≡ some v) × Pushes H B cols v t.ops t'.ops

    constant_filter-Emits :
        (comparison : ComparisonType) (v : Value Double) (t : Translator Double)
        → Ensures
            (Emits (filter_meaning (constant_comparison comparison v)) t)
            (constant_filter H C storage types comparison v t)
    unfolding constant_filter filter_meaning step
    constant_filter-Emits comparison v t =
        Ensures-if (is_null v) (λ _. declined)
          (λ _. Ensures-bind (comparison_code-step H B cols comparison) λ code (f, means, steps).
            Ensures-bind (Ensures-refl (column_constant H C storage types v)) λ k found.
              let is_const : k.code ≡ const_val = Ensures-some k (column_constant-code v) found in
              accepted (
                f a (constant B int64 k),
                rw (means, found) refl,
                Pushes-binary H B cols (code_op H code) a (constant B int64 k) _ _ _ _
                    (Pushes-nullary H B cols (load_op H storage) a t.ops (λ s. rw loaded refl))
                    (Pushes-nullary H B cols k _ _ (λ s. constant-step cols k s is_const))
                    (steps a (constant B int64 k)),
              ))

    mutual
      unfolding translate_table_filter translate_first translate_others filter_meaning first_meaning
          others_meaning is_comparing all_comparing

      filter-Emits :
          (f : TableFilter Double) (t : Translator Double)
          → is_comparing f ≡ true
          → Ensures (Emits (filter_meaning f) t) (translate_table_filter H C storage types f t)
      filter-Emits (constant_comparison comparison v) t h = constant_filter-Emits comparison v t
      filter-Emits (conjunction_and fs) t h = first-Emits true fs t h
      filter-Emits (conjunction_or fs) t h = first-Emits false fs t h
      filter-Emits is_not_null t h = cc
      filter-Emits other_filter t h = declined

      first-Emits :
          (is_and : Bool) (fs : TableFilters Double) (t : Translator Double)
          → all_comparing fs ≡ true
          → Ensures
              (Emits (first_meaning is_and fs) t)
              (translate_first H C storage types is_and fs t)
      first-Emits is_and nil t h = declined
      first-Emits is_and (cons f fs) t h =
          let (hf, hs) = both_true _ _ h in
          Ensures-bind (filter-Emits f t hf) λ t' (v, means, p).
            Ensures-map (λ t'' (w, m, q). (w, rw means m, q)) (others-Emits is_and v fs t t' hs p)

      others-Emits :
          (is_and : Bool) (v : Arr) (fs : TableFilters Double) (t₀ t : Translator Double)
          → all_comparing fs ≡ true
          → Pushes H B cols v t₀.ops t.ops
          → Ensures
              (Emits (others_meaning is_and v fs) t₀)
              (translate_others H C storage types is_and fs t)
      others-Emits is_and v nil t₀ t h p = accepted (v, refl, p)
      others-Emits is_and v (cons f fs) t₀ t h p =
          let (hf, hs) = both_true _ _ h in
          Ensures-bind (filter-Emits f t hf) λ t' (w, means, q).
            Ensures-map (λ t'' (u, m, r). (u, rw means m, r))
              (others-Emits is_and (connective B is_and v w) fs t₀
                (push H (code_op H (connective_code H B cols is_and)) t') hs
                (Pushes-binary H B cols (code_op H (connective_code H B cols is_and)) v w _ _ _ _ p
                  q (connective-step H B cols is_and v w)))

  -- An accepted filter of comparisons under AND and OR, with no IS NOT NULL, has a value at the
  -- values of its column, and evaluating the emitted program over columns that hold them at the
  -- filter's column succeeds with that value.
  pub eval_ops-translate_table_filter :
      (f : TableFilter Double) (cols : List Arr) (t : Translator Double)
      → load B int64 cols (pos storage) ≡ some a
      → is_comparing f ≡ true
      → translate_table_filter H C storage types f empty_translator ≡ some t
      → (v : Arr) × (filter_meaning f ≡ some v) × (eval_ops B int64 cols t.ops ≡ some v)
  unfolding eval_ops run
  eval_ops-translate_table_filter f cols t loaded plain accepts =
      let (v, means, p) =
        Ensures-some t (filter-Emits cols loaded f empty_translator plain) accepts in
      (v, means, rw (p []))
