-- ===== src/Planner/Translate/Fuel.antt =====
-- Fuel for the translator: one unit for each level of an expression, followed through the projections.
use Prim.Native.String.{String}
use duckdb_mlx.Common.{
  ℕ, zero, suc, ◌+◌, ◌≡◌, refl, ap, ◌∙◌, Bool, true, false, List, Option, none, some, get_elem?,
  ◌>>=◌, arith, >>=_congr, Option-cases, inl, inr, if◌then◌else◌,
}
use duckdb_mlx.Ir.{ExprOpCode, and, or}
use duckdb_mlx.Planner.{
  Expression, Expressions, Get, Projection, HostDouble, LogicalType, decimal, double, float,
}
use duckdb_mlx.Planner
use duckdb_mlx.Planner.Translate.{Lane, Translator, lane_eq, find_projection, push, code_op}
use duckdb_mlx.Planner.Translate

module _ (H : HostDouble) (get : Get) (projs : List (Projection H.Double)) where
  open H use {Double}

  -- `P` holds of every argument.
  abbrev pub Every : (Expression Double → Type 0) → Expressions Double → Type 0
  Every P Planner.nil = Unit
  Every P (Planner.cons e es) = P e × Every P es

  -- `P` holds of everything that the translation of an expression calls itself on.
  abbrev pub Below : (Expression Double → Type 0) → Expression Double → Type 0
  Below P (Planner.column_ref i c ty) =
      (p : Projection Double) (e : Expression Double)
      → find_projection H i projs ≡ some p
      → get_elem? p.expressions c ≡ some e
      → P e
  Below P (Planner.constant k) = Unit
  Below P (Planner.cast try_cast to from e) = P e
  Below P (Planner.comparison ty l r) = P l × P r
  Below P (Planner.conjunction is_and es) = Every P es
  Below P (Planner.operator is_not es) = Every P es
  Below P (Planner.function name es) = Every P es
  Below P Planner.other_class = Unit

  -- An expression of at most the given number of levels.
  unfoldable pub Fits : ℕ → Expression Double → Type 0
  Fits zero e = ⊥
  Fits (suc n) e = Below (Fits n) e

  module _
      (self other : Expression Double → Translator Double → Option (Lane × Translator Double)) where
    abbrev Agree : Expression Double → Type 0
    Agree e = (t : Translator Double) → self e t ≡ other e t

    on-Agree :
        (lane : Lane) (e : Expression Double) (t : Translator Double)
        → Agree e
        → Translate.translate_on H get projs self lane e t
          ≡ Translate.translate_on H get projs other lane e t
    on-Agree lane e t h = ap (λ m. m >>= λ r. if lane_eq r.0 lane then some r.1 else none) (h t)

    column_ref-Agree :
        (i c : ℕ) (ty : LogicalType) (t : Translator Double)
        → Below Agree (Planner.column_ref i c ty)
        → Translate.translate_column_ref H get projs self i c ty t
          ≡ Translate.translate_column_ref H get projs other i c ty t
    unfolding Translate.translate_column_ref
    column_ref-Agree i c ty t h = elim (Option-cases (find_projection H i projs)) [
      | inl q ↦ rw (q, Translate.translate_column_ref) refl
      | inr (p, q) ↦ elim (Option-cases (get_elem? p.expressions c)) [
        | inl r ↦ rw (q, Translate.translate_column_ref, r) refl
        | inr (e, r) ↦ rw (q, Translate.translate_column_ref, r) (h p e q r t)
      ]
    ]

    operands-Agree :
        (l r : Expression Double) (t : Translator Double)
        → Agree l
        → Agree r
        → Translate.translate_operands H get projs self l r t
          ≡ Translate.translate_operands H get projs other l r t
    unfolding Translate.translate_operands
    operands-Agree l r t hl hr = rw (hl t) (>>=_congr (other l t) λ a. rw (hr a.1) refl)

    rest-Agree :
        (code : ExprOpCode) (es : Expressions Double) (t : Translator Double)
        → Every Agree es
        → Translate.translate_rest H get projs self code es t
          ≡ Translate.translate_rest H get projs other code es t
    unfolding Translate.translate_rest
    rest-Agree code Planner.nil t h = refl
    rest-Agree code (Planner.cons e es) t (he, h) =
        ap
          (λ m. m >>= λ t'.
            Translate.translate_rest H get projs self code es (push H (code_op H code) t'))
          (on-Agree Translate.bool_lane e t he)
        ∙ >>=_congr (Translate.translate_on H get projs other Translate.bool_lane e t)
            (λ t'. rest-Agree code es (push H (code_op H code) t') h)

    decimal-Agree :
        (width scale : ℕ) (from : LogicalType) (e : Expression Double) (t : Translator Double)
        → Agree e
        → Translate.cast_to_decimal H get projs self width scale from e t
          ≡ Translate.cast_to_decimal H get projs other width scale from e t
    unfolding Translate.cast_to_decimal Translate.rescale
    decimal-Agree width scale (decimal width' scale') e t h = rw (h t) refl
    decimal-Agree width scale _ e t h = refl

    float-Agree :
        (from : LogicalType) (e : Expression Double) (t : Translator Double)
        → Agree e
        → Translate.cast_to_float H get projs self from e t
          ≡ Translate.cast_to_float H get projs other from e t
    unfolding Translate.cast_to_float
    float-Agree (decimal width scale) e t h = rw (h t) refl
    float-Agree _ e t h = rw (h t) refl

    cast-Agree :
        (try_cast : Bool) (to from : LogicalType) (e : Expression Double) (t : Translator Double)
        → Agree e
        → Translate.translate_cast H get projs self try_cast to from e t
          ≡ Translate.translate_cast H get projs other try_cast to from e t
    unfolding Translate.translate_cast
    cast-Agree true to from e t h = refl
    cast-Agree false (decimal width scale) from e t h = decimal-Agree width scale from e t h
    cast-Agree false double from e t h = float-Agree from e t h
    cast-Agree false float from e t h = float-Agree from e t h
    cast-Agree false _ from e t h = refl

    conjunction-Agree :
        (is_and : Bool) (es : Expressions Double) (t : Translator Double)
        → Every Agree es
        → Translate.translate_conjunction H get projs self is_and es t
          ≡ Translate.translate_conjunction H get projs other is_and es t
    unfolding Translate.translate_conjunction
    conjunction-Agree is_and Planner.nil t h = refl
    conjunction-Agree is_and (Planner.cons e es) t (he, h) =
        let code : ExprOpCode = if is_and then and else or in
        ap (λ m. m >>= Translate.translate_rest H get projs self code es)
          (on-Agree Translate.bool_lane e t he)
        ∙ >>=_congr (Translate.translate_on H get projs other Translate.bool_lane e t)
            (λ t'. rest-Agree code es t' h)

    operator-Agree :
        (is_not : Bool) (es : Expressions Double) (t : Translator Double)
        → Every Agree es
        → Translate.translate_operator H get projs self is_not es t
          ≡ Translate.translate_operator H get projs other is_not es t
    unfolding Translate.translate_operator
    operator-Agree true (Planner.cons e Planner.nil) t (h, _) = rw (h t) refl
    operator-Agree true Planner.nil t h = refl
    operator-Agree true (Planner.cons _ (Planner.cons _ _)) t h = refl
    operator-Agree false es t h = refl

    function-Agree :
        (name : String) (es : Expressions Double) (t : Translator Double)
        → Every Agree es
        → Translate.translate_function H get projs self name es t
          ≡ Translate.translate_function H get projs other name es t
    unfolding Translate.translate_function Translate.translate_binary Translate.translate_unary
    function-Agree name Planner.nil t h = refl
    function-Agree name (Planner.cons e Planner.nil) t (h, _) = rw (h t) refl
    function-Agree name (Planner.cons l (Planner.cons r Planner.nil)) t (hl, (hr, _)) =
        rw (operands-Agree l r t hl hr) refl
    function-Agree name (Planner.cons _ (Planner.cons _ (Planner.cons _ _))) t h = refl

    node-Agree :
        (e : Expression Double) (t : Translator Double)
        → Below Agree e
        → Translate.translate_node H get projs self e t
          ≡ Translate.translate_node H get projs other e t
    unfolding Translate.translate_node Translate.translate_comparison
    node-Agree (Planner.column_ref i c ty) t h = column_ref-Agree i c ty t h
    node-Agree (Planner.constant k) t h = refl
    node-Agree (Planner.cast try_cast to from e) t h = cast-Agree try_cast to from e t h
    node-Agree (Planner.comparison ty l r) t (hl, hr) = rw (operands-Agree l r t hl hr) refl
    node-Agree (Planner.conjunction is_and es) t h = conjunction-Agree is_and es t h
    node-Agree (Planner.operator is_not es) t h = operator-Agree is_not es t h
    node-Agree (Planner.function name es) t h = function-Agree name es t h
    node-Agree Planner.other_class t h = refl

  module _ {P Q : Expression Double → Type 0} (imp : (e : Expression Double) → P e → Q e) where
    Every-mono : (es : Expressions Double) → Every P es → Every Q es
    Every-mono Planner.nil h = tt
    Every-mono (Planner.cons e es) (he, h) = (imp e he, Every-mono es h)

    Below-mono : (e : Expression Double) → Below P e → Below Q e
    Below-mono (Planner.column_ref i c ty) h = λ p e q r. imp e (h p e q r)
    Below-mono (Planner.constant k) h = tt
    Below-mono (Planner.cast try_cast to from e) h = imp e h
    Below-mono (Planner.comparison ty l r) (hl, hr) = (imp l hl, imp r hr)
    Below-mono (Planner.conjunction is_and es) h = Every-mono es h
    Below-mono (Planner.operator is_not es) h = Every-mono es h
    Below-mono (Planner.function name es) h = Every-mono es h
    Below-mono Planner.other_class h = tt

  -- More fuel than the levels of an expression gives the same translation.
  translate-fuel :
      (n more : ℕ) (e : Expression Double) (t : Translator Double)
      → Fits n e
      → Translate.translate H get projs (n + more) e t ≡ Translate.translate H get projs n e t
  unfolding Translate.translate Fits
  translate-fuel zero more e t h = elim h [ ]
  translate-fuel (suc n) more e t h =
      let level : suc n + more ≡ suc (n + more) = omega arith in
      ap (λ k. Translate.translate H get projs k e t) level
      ∙ node-Agree (Translate.translate H get projs (n + more)) (Translate.translate H get projs n)
          e t (Below-mono (λ e' h' t'. translate-fuel n more e' t' h') e h)
