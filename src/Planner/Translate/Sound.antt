-- ===== src/Planner/Translate/Sound.antt =====
-- The program that the translator emits for an expression pushes the value of the expression.
use Prim.Native.String.{String}
use text.Mathlib.Text.{◌==◌ as str_eq}
use duckdb_mlx.Common.{
  ℕ, zero, suc, ◌+◌, ◌-◌, ◌≡◌, refl, ◌∙◌, inl, inr, Bool, Ensures, declined, accepted, Ensures-bind,
  Ensures-if, Ensures-refl, Ensures-map, Ensures-some, ==_iff, subst, true, false, List, [], ◌∷◌,
  ◌++◌, Option, none, some, sym, arith, ltb, ◌>>=◌, >>=_assoc, >>=_congr, Option-cases, get_elem?,
  if◌then◌else◌,
}
use duckdb_mlx.Common.Int64.{Int64}
use duckdb_mlx.Ir.{ExprOpCode, const_val, mul, to_float, and, or, not, ExprOp}
use duckdb_mlx.Ir.Eval.{
  Backend, int64, step, run, run-append, eval_ops, load, widen, constant, int_constant,
}
use duckdb_mlx.Planner.{Expression, Expressions, Get, Projection, HostDouble}
use duckdb_mlx.Planner
use duckdb_mlx.Planner.Translate.{
  Lane, float_lane, int_lane, bool_lane, lane_eq, is_bool_lane, Translator, Emission, push, code_op,
  int_op, value_op, load_op, find_projection,
}
use duckdb_mlx.Planner.Translate
use duckdb_mlx.Planner.Translate.Meaning.{
  Denotes, Folds, projected, base, decimal_constant, date_constant, other_constant, same_scale,
  larger_scale, scaled_to_float, already_float, compared, joined, negated, applied_to_two,
  applied_to_one, stop, more, connective, IsFloating, binary_meaning, unary_meaning,
  comparison_meaning,
}

lane_eq→eq : (a b : Lane) → lane_eq a b ≡ true → a ≡ b
lane_eq→eq a b h = ground arith

module _ (H : HostDouble) (B : Backend H.Double) (cols : List B.Arr) where
  open H use {Double}
  open B use {Arr}

  abbrev pub exec : List (ExprOp Double) → List Arr → Option (List Arr)
  exec = run B int64 cols

  -- What was emitted after `xs`, up to `ys`, pushes `v`.
  abbrev pub Pushes : Arr → List (ExprOp Double) → List (ExprOp Double) → Type 0
  Pushes v xs ys = (s : List Arr) → exec ys s ≡ (exec xs s >>= λ s'. some (v ∷ s'))

  -- One more operation that takes what lies on the stack to another stack.
  pub exec-snoc :
      (ops : List (ExprOp Double)) (op : ExprOp Double) (s : List Arr)
      → exec (ops ++ op ∷ []) s ≡ (exec ops s >>= step B int64 cols op.code op)
  unfolding run
  exec-snoc ops op s =
      run-append B int64 cols ops (op ∷ []) s
      ∙ >>=_congr (exec ops s) (λ s'. last (step B int64 cols op.code op s'))
    where
      last : (r : Option (List Arr)) → (r >>= exec []) ≡ r
      last none = refl
      last (some s') = refl

  pub Pushes-nullary :
      (op : ExprOp Double) (v : Arr) (xs : List (ExprOp Double))
      → ((s : List Arr) → step B int64 cols op.code op s ≡ some (v ∷ s))
      → Pushes v xs (xs ++ op ∷ [])
  Pushes-nullary op v xs h s = rw (exec-snoc xs op s) (>>=_congr (exec xs s) h)

  pub Pushes-unary :
      (op : ExprOp Double) (v w : Arr) (xs ys : List (ExprOp Double))
      → Pushes v xs ys
      → ((s : List Arr) → step B int64 cols op.code op (v ∷ s) ≡ some (w ∷ s))
      → Pushes w xs (ys ++ op ∷ [])
  Pushes-unary op v w xs ys p h s = rw (exec-snoc ys op s, p s, >>=_assoc) (>>=_congr (exec xs s) h)

  pub Pushes-binary :
      (op : ExprOp Double) (a b w : Arr) (xs ys zs : List (ExprOp Double))
      → Pushes a xs ys
      → Pushes b ys zs
      → ((s : List Arr) → step B int64 cols op.code op (b ∷ a ∷ s) ≡ some (w ∷ s))
      → Pushes w xs (zs ++ op ∷ [])
  Pushes-binary op a b w xs ys zs p q h s =
      rw (exec-snoc zs op s, q s, p s)
        (>>=_assoc (exec xs s >>= λ s'. some (a ∷ s')) _ _
          ∙ >>=_assoc (exec xs s) _ _
          ∙ >>=_congr (exec xs s) h)

  abbrev pub connective_code : Bool → ExprOpCode
  connective_code is_and = if is_and then and else or

  pub connective-step :
      (is_and : Bool) (a b : Arr) (s : List Arr)
      → step B int64 cols (connective_code is_and) (code_op H (connective_code is_and)) (b ∷ a ∷ s)
        ≡ some (connective B is_and a b ∷ s)
  unfolding step
  connective-step true a b s = refl
  connective-step false a b s = refl

  -- The operation for a code computes `f` of the two topmost values.
  abbrev pub Steps₂ : ExprOpCode → (Arr → Arr → Arr) → Type 0
  Steps₂ c f =
      (a b : Arr) (s : List Arr) → step B int64 cols c (code_op H c) (b ∷ a ∷ s) ≡ some (f a b ∷ s)

  abbrev Steps₁ : ExprOpCode → (Arr → Arr) → Type 0
  Steps₁ c f = (a : Arr) (s : List Arr) → step B int64 cols c (code_op H c) (a ∷ s) ≡ some (f a ∷ s)

  pub comparison_code-step :
      (ty : Planner.ComparisonType)
      → Ensures
          (λ c. (f : Arr → Arr → Arr) × (comparison_meaning B ty ≡ some f) × Steps₂ c f)
          (Translate.comparison_code ty)
  unfolding Translate.comparison_code comparison_meaning step
  comparison_code-step Planner.less_than = accepted (_, refl, λ a b s. refl)
  comparison_code-step Planner.less_than_or_equal = accepted (_, refl, λ a b s. refl)
  comparison_code-step Planner.greater_than = accepted (_, refl, λ a b s. refl)
  comparison_code-step Planner.greater_than_or_equal = accepted (_, refl, λ a b s. refl)
  comparison_code-step Planner.equal = accepted (_, refl, λ a b s. refl)
  comparison_code-step Planner.not_equal = accepted (_, refl, λ a b s. refl)
  comparison_code-step Planner.other_comparison = declined

  binary_code-step :
      (name : String)
      → Ensures
          (λ c. (f : Arr → Arr → Arr) × (binary_meaning B name ≡ some f) × Steps₂ c f)
          (Translate.binary_code name)
  unfolding Translate.binary_code binary_meaning step
  binary_code-step name =
      Ensures-if (str_eq name "+") (λ p. accepted (_, rw p, λ a b s. refl))
        λ n₁.
          Ensures-if (str_eq name "-") (λ p. accepted (_, rw (n₁, p), λ a b s. refl))
            λ n₂.
              Ensures-if (str_eq name "*") (λ p. accepted (_, rw (n₁, n₂, p), λ a b s. refl))
                λ n₃.
                  Ensures-if (str_eq name "/")
                    (λ p. accepted (_, rw (n₁, n₂, n₃, p), λ a b s. refl)) (λ _. declined)

  unary_code-step :
      (name : String)
      → Ensures
          (λ (r : ExprOpCode × Bool).
            (f : Arr → Arr) × (unary_meaning B name ≡ some f) × Steps₁ r.0 f)
          (Translate.unary_code name)
  unfolding Translate.unary_code unary_meaning step
  unary_code-step name =
      Ensures-if (str_eq name "-") (λ p. accepted (_, rw p, λ a s. refl))
        λ n₁.
          Ensures-if (str_eq name "sin") (λ p. accepted (_, rw (n₁, p), λ a s. refl))
            λ n₂.
              Ensures-if (str_eq name "cos") (λ p. accepted (_, rw (n₁, n₂, p), λ a s. refl))
                λ n₃.
                  Ensures-if (str_eq name "sqrt")
                    (λ p. accepted (_, rw (n₁, n₂, n₃, p), λ a s. refl))
                    λ n₄.
                      Ensures-if (str_eq name "abs")
                        (λ p. accepted (_, rw (n₁, n₂, n₃, n₄, p), λ a s. refl)) (λ _. declined)

  module _ (get : Get) (projs : List (Projection Double)) where
    -- An accepted emission pushes a value that the expression denotes, on the lane reported.
    abbrev Emits : Expression Double → Translator Double → Lane × Translator Double → Type 0
    Emits e t (lane, t') = (v : Arr) × Denotes H B get projs cols e lane v × Pushes v t.ops t'.ops

    abbrev Sound : (Expression Double → Translator Double → Emission H) → Type 0
    Sound self = (e : Expression Double) (t : Translator Double) → Ensures (Emits e t) (self e t)

    -- Every column that the scan projects has a value.
    abbrev Present : Type 0
    Present =
        (c storage : ℕ)
        → get_elem? get.column_ids c ≡ some storage
        → (v : Arr) × (get_elem? cols storage ≡ some v)

    int_op-Pushes :
        (i : Int64) (xs : List (ExprOp Double)) → Pushes (B.int64_of i) xs (xs ++ int_op H i ∷ [])
    unfolding step constant int_constant
    int_op-Pushes i xs = Pushes-nullary (int_op H i) _ xs (λ s. refl)

    value_op-Pushes :
        (x : Double) (xs : List (ExprOp Double))
        → Pushes (B.float32_of x) xs (xs ++ value_op H const_val x ∷ [])
    unfolding step constant
    value_op-Pushes x xs = Pushes-nullary (value_op H const_val x) _ xs (λ s. refl)

    constant-Emits :
        (k : Planner.Value Double) (t : Translator Double)
        → Ensures (Emits (Planner.constant k) t) (Translate.translate_constant H k t)
    unfolding Translate.translate_constant
    constant-Emits Planner.null t = declined
    constant-Emits (Planner.decimal_value w s raw) t =
        Ensures-if (Translate.is_int_lane_type (Planner.decimal w s))
          (λ _. accepted (_, decimal_constant, int_op-Pushes raw t.ops)) (λ _. declined)
    constant-Emits (Planner.date_value days) t =
        accepted (_, date_constant, value_op-Pushes (H.of_int days) t.ops)
    constant-Emits (Planner.other_value ty x) t =
        Ensures-if (Planner.is_numeric ty)
          (λ _. accepted (_, other_constant, value_op-Pushes x t.ops)) (λ _. declined)

    storage-Emits :
        (i c : ℕ) (ty : Planner.LogicalType) (t : Translator Double)
        → Present
        → find_projection H i projs ≡ none
        → i ≡ get.table_index
        → Ensures
            (Emits (Planner.column_ref i c ty) t)
            (Translate.translate_storage H ty (get_elem? get.column_ids c) t)
    unfolding step load widen
    storage-Emits i c ty t present absent e = elim (Option-cases (get_elem? get.column_ids c)) [
      | inl q ↦ rw q declined
      | inr (storage, q) ↦
          let (v, r) = present c storage q in
          rw q (
            accepted
              (v, base absent e q r refl, Pushes-nullary (load_op H storage) v t.ops (λ s. rw r)))
    ]

    module _ (self : Expression Double → Translator Double → Emission H) (sound : Sound self) where
      column_ref-Emits :
          (i c : ℕ) (ty : Planner.LogicalType) (t : Translator Double)
          → Present
          → Ensures
              (Emits (Planner.column_ref i c ty) t)
              (Translate.translate_column_ref H get projs self i c ty t)
      unfolding Translate.translate_column_ref
      column_ref-Emits i c ty t present = elim (Option-cases (find_projection H i projs)) [
        | inl absent ↦
            rw (absent, Translate.translate_column_ref)
              (Ensures-if _
                (λ same.
                  Ensures-if _ (λ _. storage-Emits i c ty t present absent ((==_iff _ _).0 same))
                    (λ _. declined))
                (λ _. declined))
        | inr (p, found) ↦
            rw (found, Translate.translate_column_ref)
              (Ensures-bind (Ensures-refl (get_elem? p.expressions c)) λ e q.
                Ensures-map (λ (l, t') (v, d, pushed). (v, projected found q d, pushed))
                  (sound e t))
      ]

      abbrev EmitsOn : Lane → Expression Double → Translator Double → Translator Double → Type 0
      EmitsOn lane e t t' = Emits e t (lane, t')

      translate_on-Emits :
          (lane : Lane) (e : Expression Double) (t : Translator Double)
          → Ensures (EmitsOn lane e t) (Translate.translate_on H get projs self lane e t)
      translate_on-Emits lane e t = Ensures-bind (sound e t) λ r (v, d, pushed).
          Ensures-if _
            (λ q.
              accepted
                (v, subst (λ l. Denotes H B get projs cols e l v) (lane_eq→eq _ _ q) d, pushed))
            (λ _. declined)

      cast_to_decimal-Emits :
          (w s : ℕ) (from : Planner.LogicalType) (e : Expression Double) (t : Translator Double)
          → Ensures
              (Emits (Planner.cast false (Planner.decimal w s) from e) t)
              (Translate.cast_to_decimal H get projs self w s from e t)
      unfolding Translate.cast_to_decimal Translate.rescale step
      cast_to_decimal-Emits w s (Planner.decimal w' s') e t =
          Ensures-if (Translate.is_int_lane_type (Planner.decimal w s))
            (λ _.
              Ensures-if (Translate.is_int_lane_type (Planner.decimal w' s'))
                (λ _.
                  Ensures-if (ltb s s') (λ _. declined)
                    (λ ge.
                      Ensures-bind (translate_on-Emits int_lane e t)
                        (λ t' m. scaled (s - s') (ground arith) t' m)))
                (λ _. declined))
            (λ _. declined)
        where
          scaled :
              (k : ℕ)
              → s ≡ s' + k
              → (t' : Translator Double) → EmitsOn int_lane e t t'
              → Ensures
                  (Emits (Planner.cast false (Planner.decimal w s) (Planner.decimal w' s') e) t)
                  (some (int_lane, Translate.rescale H get projs self k t'))
          scaled zero q t' (v, d, pushed) = accepted (v, same_scale (omega arith) d, pushed)
          scaled (suc k) q t' (v, d, pushed) = accepted (
            _,
            larger_scale k q d,
            Pushes-binary (code_op H mul) v _ _ _ _ _ pushed
                (int_op-Pushes (Translate.pow10 (suc k)) t'.ops) (λ s. refl),
          )
      cast_to_decimal-Emits w s _ e t = declined

      cast_to_float-Emits :
          (to from : Planner.LogicalType) (e : Expression Double) (t : Translator Double)
          → IsFloating to
          → Ensures
              (Emits (Planner.cast false to from e) t)
              (Translate.cast_to_float H get projs self from e t)
      unfolding Translate.cast_to_float step
      cast_to_float-Emits to (Planner.decimal w s) e t fl =
          Ensures-if (Translate.is_int_lane_type (Planner.decimal w s))
            (λ _. Ensures-bind (translate_on-Emits int_lane e t) λ t' (v, d, pushed). accepted (
              _,
              scaled_to_float fl d,
              Pushes-unary (value_op H to_float (H.reciprocal (Translate.pow10 s))) v _ _ _ pushed
                  (λ s. refl),
            ))
            (λ _. declined)
      cast_to_float-Emits to from e t fl =
          Ensures-if (Planner.is_numeric from)
            (λ _.
              Ensures-bind (translate_on-Emits float_lane e t)
                λ t' (v, d, pushed). accepted (v, already_float fl d, pushed))
            (λ _. declined)

      cast-Emits :
          (try_cast : Bool) (to from : Planner.LogicalType) (e : Expression Double)
          (t : Translator Double)
          → Ensures
              (Emits (Planner.cast try_cast to from e) t)
              (Translate.translate_cast H get projs self try_cast to from e t)
      unfolding Translate.translate_cast
      cast-Emits true to from e t = declined
      cast-Emits false (Planner.decimal w s) from e t = cast_to_decimal-Emits w s from e t
      cast-Emits false Planner.double from e t = cast_to_float-Emits Planner.double from e t tt
      cast-Emits false Planner.float from e t = cast_to_float-Emits Planner.float from e t tt
      cast-Emits false _ from e t = declined

      -- Two operands that were accepted: both pushed, in order, on one lane.
      abbrev EmitsTwo :
          Expression Double
          → Expression Double
          → Translator Double
          → Lane × Translator Double
          → Type 0
      EmitsTwo l r t (lane, t') =
          (a b : Arr) × (t₁ : Translator Double) × Denotes H B get projs cols l lane a
          × Denotes H B get projs cols r lane b
          × Pushes a t.ops t₁.ops
          × Pushes b t₁.ops t'.ops

      operands-EmitsTwo :
          (l r : Expression Double) (t : Translator Double)
          → Ensures (EmitsTwo l r t) (Translate.translate_operands H get projs self l r t)
      unfolding Translate.translate_operands
      operands-EmitsTwo l r t = Ensures-bind (sound l t) λ (ll, t₁) (a, da, pa).
          Ensures-bind (sound r t₁) λ (rl, t₂) (b, db, pb).
            Ensures-if (lane_eq ll rl)
              (λ q.
                Ensures-if (is_bool_lane ll) (λ _. declined)
                  (λ _. accepted (
                    a,
                    b,
                    t₁,
                    da,
                    subst (λ k. Denotes H B get projs cols r k b) (sym (lane_eq→eq _ _ q)) db,
                    pa,
                    pb,
                  )))
              (λ _. declined)

      comparison-Emits :
          (ty : Planner.ComparisonType) (l r : Expression Double) (t : Translator Double)
          → Ensures
              (Emits (Planner.comparison ty l r) t)
              (Translate.translate_comparison H get projs self ty l r t)
      unfolding Translate.translate_comparison
      comparison-Emits ty l r t = Ensures-bind (comparison_code-step ty) λ c (f, means, steps).
          Ensures-bind (operands-EmitsTwo l r t) λ (lane, t') (a, b, t₁, da, db, pa, pb).
            accepted (
              f a b,
              compared means da db,
              Pushes-binary (code_op H c) a b _ _ _ _ pa pb (steps a b),
            )

      rest-Emits :
          (is_and : Bool) (es : Expressions Double) (a : Arr) (t t' : Translator Double)
          → Pushes a t.ops t'.ops
          → Ensures
              (λ (r : Lane × Translator Double).
                (v : Arr) × (r.0 ≡ bool_lane)
                × Folds H B get projs cols is_and a es v
                × Pushes v t.ops r.1.ops)
              (Translate.translate_rest H get projs self (connective_code is_and) es t')
      unfolding Translate.translate_rest
      rest-Emits is_and Planner.nil a t t' p = accepted (a, refl, stop, p)
      rest-Emits is_and (Planner.cons e es) a t t' p =
          Ensures-bind (translate_on-Emits bool_lane e t') λ t₁ (b, d, q).
            Ensures-map (λ r (v, l, folds, pushed). (v, l, more d folds, pushed))
              (rest-Emits is_and es (connective B is_and a b) t
                (push H (code_op H (connective_code is_and)) t₁)
                (Pushes-binary (code_op H (connective_code is_and)) a b _ _ _ _ p q
                  (connective-step is_and a b)))

      conjunction-Emits :
          (is_and : Bool) (es : Expressions Double) (t : Translator Double)
          → Ensures
              (Emits (Planner.conjunction is_and es) t)
              (Translate.translate_conjunction H get projs self is_and es t)
      unfolding Translate.translate_conjunction
      conjunction-Emits is_and Planner.nil t = declined
      conjunction-Emits is_and (Planner.cons e es) t =
          Ensures-bind (translate_on-Emits bool_lane e t) λ t₁ (a, d, p).
            Ensures-map
              (λ (l, t') (v, on_bool, folds, pushed). (
                v,
                subst
                    (λ k.
                      Denotes H B get projs cols (Planner.conjunction is_and (Planner.cons e es)) k
                        v)
                    (sym on_bool) (joined d folds),
                pushed,
              ))
              (rest-Emits is_and es a t t₁ p)

      operator-Emits :
          (is_not : Bool) (es : Expressions Double) (t : Translator Double)
          → Ensures
              (Emits (Planner.operator is_not es) t)
              (Translate.translate_operator H get projs self is_not es t)
      unfolding Translate.translate_operator step
      operator-Emits true (Planner.cons e Planner.nil) t =
          Ensures-bind (translate_on-Emits bool_lane e t) λ t₁ (a, d, p).
            accepted (_, negated d, Pushes-unary (code_op H not) a _ _ _ p (λ s. refl))
      operator-Emits true Planner.nil t = declined
      operator-Emits true (Planner.cons e (Planner.cons _ _)) t = declined
      operator-Emits false es t = declined

      binary-Emits :
          (name : String) (l r : Expression Double) (t : Translator Double)
          → Ensures
              (Emits (Planner.function name (Planner.cons l (Planner.cons r Planner.nil))) t)
              (Translate.translate_binary H get projs self name l r t)
      unfolding Translate.translate_binary
      binary-Emits name l r t = Ensures-bind (binary_code-step name) λ c (f, means, steps).
          Ensures-bind (operands-EmitsTwo l r t) λ (lane, t') (a, b, t₁, da, db, pa, pb).
            let done : Ensures (Emits _ t) (some (lane, push H (code_op H c) t')) = accepted (
              f a b,
              applied_to_two means da db,
              Pushes-binary (code_op H c) a b _ _ _ _ pa pb (steps a b),
            ) in
            Ensures-if (lane_eq lane int_lane)
              (λ _. Ensures-if (Translate.is_div c) (λ _. declined) (λ _. done)) (λ _. done)

      unary-Emits :
          (name : String) (e : Expression Double) (t : Translator Double)
          → Ensures
              (Emits (Planner.function name (Planner.cons e Planner.nil)) t)
              (Translate.translate_unary H get projs self name e t)
      unfolding Translate.translate_unary
      unary-Emits name e t =
          Ensures-bind (unary_code-step name) λ (c, float_only) (f, means, steps).
            Ensures-bind (sound e t) λ (lane, t') (a, d, p).
              let done : Ensures (Emits _ t) (some (lane, push H (code_op H c) t')) =
                accepted
                  (f a, applied_to_one means d, Pushes-unary (code_op H c) a _ _ _ p (steps a)) in
              Ensures-if (is_bool_lane lane) (λ _. declined)
                (λ _.
                  Ensures-if float_only
                    (λ _. Ensures-if (lane_eq lane float_lane) (λ _. done) (λ _. declined))
                    (λ _. done))

      function-Emits :
          (name : String) (es : Expressions Double) (t : Translator Double)
          → Ensures
              (Emits (Planner.function name es) t)
              (Translate.translate_function H get projs self name es t)
      unfolding Translate.translate_function
      function-Emits name (Planner.cons l (Planner.cons r Planner.nil)) t = binary-Emits name l r t
      function-Emits name (Planner.cons e Planner.nil) t = unary-Emits name e t
      function-Emits name Planner.nil t = declined
      function-Emits name (Planner.cons _ (Planner.cons _ (Planner.cons _ _))) t = declined

      node-Emits :
          Present
          → (e : Expression Double) (t : Translator Double)
          → Ensures (Emits e t) (Translate.translate_node H get projs self e t)
      unfolding Translate.translate_node
      node-Emits present (Planner.column_ref i c ty) t = column_ref-Emits i c ty t present
      node-Emits present (Planner.constant k) t = constant-Emits k t
      node-Emits present (Planner.cast try_cast to from e) t = cast-Emits try_cast to from e t
      node-Emits present (Planner.comparison ty l r) t = comparison-Emits ty l r t
      node-Emits present (Planner.conjunction is_and es) t = conjunction-Emits is_and es t
      node-Emits present (Planner.operator is_not es) t = operator-Emits is_not es t
      node-Emits present (Planner.function name es) t = function-Emits name es t
      node-Emits present Planner.other_class t = declined

    translate-Sound : Present → (fuel : ℕ) → Sound (Translate.translate H get projs fuel)
    unfolding Translate.translate
    translate-Sound present zero e t = declined
    translate-Sound present (suc fuel) e t =
        node-Emits (Translate.translate H get projs fuel) (translate-Sound present fuel) present e t

abbrev pub empty_translator : {D : Type 0} → Translator D
empty_translator = record { ops = []; referenced_cols = [] }

-- An expression that the translator accepts on a lane has a value on that lane, and evaluating the
-- emitted program over the columns of the table succeeds with that value: no stack underflow, no
-- column out of range, the operands in order. Condition: every column that the scan projects has
-- an array.
pub eval_ops-translate :
    (H : HostDouble) (B : Backend H.Double) (cols : List B.Arr) (get : Get)
    (projs : List (Projection H.Double)) (fuel : ℕ) (e : Expression H.Double) (lane : Lane)
    (t : Translator H.Double)
    → ((c storage : ℕ)
        → get_elem? get.column_ids c ≡ some storage
        → (v : B.Arr) × (get_elem? cols storage ≡ some v))
    → Translate.translate H get projs fuel e empty_translator ≡ some (lane, t)
    → (v : B.Arr) × Denotes H B get projs cols e lane v × (eval_ops B int64 cols t.ops ≡ some v)
unfolding eval_ops run
eval_ops-translate H B cols get projs fuel e lane t present accepts =
    let (v, d, pushed) =
      Ensures-some (lane, t) (translate-Sound H B cols get projs present fuel e empty_translator)
        accepts in
    (v, d, rw (pushed []))
