-- ===== src/Ir/Eval.antt =====
-- src/bridge/mlx_bridge.cpp, EvalOps: the stack machine that evaluates a postfix program over the
-- columns of a segment. MLX arrays and their operations are the parameter `Backend`. A pop of an
-- empty stack and a column out of range are undefined in the source: `none` here.
use mathlib.Core.Option
use duckdb_mlx.Common.{
  ◌≡◌, refl, List, [], ◌∷◌, ◌++◌, Option, none, some, ℤ, pos, negsuc, ◌>>=◌, get_elem?,
  if◌then◌else◌, >>=_congr, >>=_assoc, ◌∙◌, sym,
}
use duckdb_mlx.Common.Int64.{Int64}
use duckdb_mlx.Ir.{
  ExprOpCode, load_col, const_val, add, sub, mul, div, negate, sin, cos, sqrt, abs, to_float,
  cmp_lt, cmp_le, cmp_gt, cmp_ge, cmp_eq, cmp_ne, and, or, not, ExprOp,
}

-- The operations of `mlx::core` that the evaluator calls. The constants are `mx::array(v, dtype)`
-- after the cast that the source writes.
pub record Backend (D : Type 0) : Type 1 where
  pub Arr : Type 0
  pub astype_int32 : Arr → Arr
  pub astype_float32 : Arr → Arr
  pub int32_of : Int64 → Arr
  pub int64_of : Int64 → Arr
  pub float32_of_int : Int64 → Arr
  pub float32_of : D → Arr
  pub negative : Arr → Arr
  pub sine : Arr → Arr
  pub cosine : Arr → Arr
  pub square_root : Arr → Arr
  pub absolute : Arr → Arr
  pub logical_not : Arr → Arr
  pub plus : Arr → Arr → Arr
  pub subtract : Arr → Arr → Arr
  pub multiply : Arr → Arr → Arr
  pub divide : Arr → Arr → Arr
  pub less : Arr → Arr → Arr
  pub less_equal : Arr → Arr → Arr
  pub greater : Arr → Arr → Arr
  pub greater_equal : Arr → Arr → Arr
  pub equal : Arr → Arr → Arr
  pub not_equal : Arr → Arr → Arr
  pub logical_and : Arr → Arr → Arr
  pub logical_or : Arr → Arr → Arr

pub data EvalRowWidth : Type 0 where
  int64 int32 fp32 : EvalRowWidth

-- The top of the stack is the head of the list.
abbrev pub unary {ℓ} : {A : Type ℓ} → List A → (A → A) → Option (List A)
unary [] f = none
unary (a ∷ s) f = some (f a ∷ s)

abbrev pub binary {ℓ} : {A : Type ℓ} → List A → (A → A → A) → Option (List A)
binary (b ∷ a ∷ s) f = some (f a b ∷ s)
binary (b ∷ []) f = none
binary [] f = none

abbrev pub back {ℓ} : {A : Type ℓ} → List A → Option A
back [] = none
back (a ∷ s) = some a

module _ {D : Type 0} (B : Backend D) (width : EvalRowWidth) where
  open B use {Arr}

  -- The cast of a loaded column to the row width.
  unfoldable pub widen : EvalRowWidth → Arr → Arr
  widen int64 a = a
  widen int32 a = B.astype_int32 a
  widen fp32 a = B.astype_float32 a

  unfoldable pub int_constant : EvalRowWidth → Int64 → Arr
  int_constant int64 i = B.int64_of i
  int_constant int32 i = B.int32_of i
  int_constant fp32 i = B.float32_of_int i

  unfoldable pub load : List Arr → ℤ → Option Arr
  load cols (pos c) = Option.map (widen width) (get_elem? cols c)
  load cols (negsuc _) = none

  unfoldable pub constant : ExprOp D → Arr
  constant op = if op.int_lane then int_constant width op.ivalue else B.float32_of op.value

  module _ (cols : List Arr) where
    -- One round of the loop over the operations.
    unfoldable pub step : ExprOpCode → ExprOp D → List Arr → Option (List Arr)
    step load_col op s = load cols op.col >>= λ a. some (a ∷ s)
    step const_val op s = some (constant op ∷ s)
    step to_float op s = unary s (λ a. B.multiply (B.astype_float32 a) (B.float32_of op.value))
    step negate op s = unary s B.negative
    step sin op s = unary s B.sine
    step cos op s = unary s B.cosine
    step sqrt op s = unary s B.square_root
    step abs op s = unary s B.absolute
    step not op s = unary s B.logical_not
    step add op s = binary s B.plus
    step sub op s = binary s B.subtract
    step mul op s = binary s B.multiply
    step div op s = binary s B.divide
    step cmp_lt op s = binary s B.less
    step cmp_le op s = binary s B.less_equal
    step cmp_gt op s = binary s B.greater
    step cmp_ge op s = binary s B.greater_equal
    step cmp_eq op s = binary s B.equal
    step cmp_ne op s = binary s B.not_equal
    step and op s = binary s B.logical_and
    step or op s = binary s B.logical_or

    unfoldable pub run : List (ExprOp D) → List Arr → Option (List Arr)
    run [] s = some s
    run (op ∷ ops) s = step op.code op s >>= run ops

    unfoldable pub eval_ops : List (ExprOp D) → Option Arr
    eval_ops ops = run ops [] >>= back

    pub run-append :
        (xs ys : List (ExprOp D)) (s : List Arr) → run (xs ++ ys) s ≡ (run xs s >>= run ys)
    unfolding run
    run-append [] ys s = refl
    run-append (op ∷ xs) ys s =
        >>=_congr (step op.code op s) (λ s'. run-append xs ys s')
        ∙ sym (>>=_assoc (step op.code op s) (run xs) (run ys))
