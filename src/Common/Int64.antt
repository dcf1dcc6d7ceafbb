-- ===== src/Common/Int64.antt =====
-- `int64_t` as a bit pattern: a number below 2 ^ 64, with the signed order and the wrapping sum.
use duckdb_mlx.Common.Tests.{ltb, leb, if◌then◌else◌}
use Prim.Native.Nat.{ℕ, ◌+◌, ◌-◌, ◌%◌, ◌^◌, ◌<◌}
use duckdb_mlx.Common.Lists.{All}
use mathlib.Core.Path.{◌≡◌, sym}
use mathlib.Core.List.{List, [], ◌∷◌, ◌++◌}
use mathlib.Core.Bool.{Bool}
use native.Mathlib.Omega.{arith}

abbrev pub Int64 : Type 0
Int64 = ℕ

-- Every value of the type is below 2 ^ 64.
abbrev pub IsInt64 : Int64 → Type 0
IsInt64 x = x < 2 ^ 64

abbrev pub int64_min : Int64
int64_min = 2 ^ 63

abbrev pub int64_max : Int64
int64_max = 2 ^ 63 - 1

-- The position of a pattern in the signed order: the pattern with its sign bit flipped.
abbrev pub rank : Int64 → ℕ
rank x = (x + 2 ^ 63) % 2 ^ 64

abbrev pub add_i64 : Int64 → Int64 → Int64
add_i64 a b = (a + b) % 2 ^ 64

abbrev pub lt_i64 : Int64 → Int64 → Bool
lt_i64 a b = ltb (rank a) (rank b)

abbrev pub le_i64 : Int64 → Int64 → Bool
le_i64 a b = leb (rank a) (rank b)

-- `std::min(a, b)` is `b < a ? b : a`, and `std::max(a, b)` is `a < b ? b : a`.
abbrev pub min_i64 : Int64 → Int64 → Int64
min_i64 a b = if lt_i64 b a then b else a

abbrev pub max_i64 : Int64 → Int64 → Int64
max_i64 a b = if lt_i64 a b then b else a

pub add_i64_assoc : (a b c : Int64) → add_i64 (add_i64 a b) c ≡ add_i64 a (add_i64 b c)
add_i64_assoc a b c = omega arith

pub rank_injective : (a b : Int64) → IsInt64 a → IsInt64 b → rank a ≡ rank b → a ≡ b
rank_injective a b ha hb h = omega arith

pub min_i64_assoc : (a b c : Int64) → min_i64 (min_i64 a b) c ≡ min_i64 a (min_i64 b c)
min_i64_assoc a b c = ground arith

pub max_i64_assoc : (a b c : Int64) → max_i64 (max_i64 a b) c ≡ max_i64 a (max_i64 b c)
max_i64_assoc a b c = ground arith

pub add_i64_zero : (a : Int64) → IsInt64 a → add_i64 0 a ≡ a
add_i64_zero a h = omega arith

pub min_i64-int64_max : (a : Int64) → IsInt64 a → min_i64 int64_max a ≡ a
min_i64-int64_max a h = ground (arith, rank_injective int64_max a)

pub max_i64-int64_min : (a : Int64) → IsInt64 a → max_i64 int64_min a ≡ a
max_i64-int64_min a h = ground (arith, rank_injective int64_min a)

-- `op` with the neutral element `e`, on int64 values.
pub record IsMerge (op : Int64 → Int64 → Int64) (e : Int64) : Type 0 where
  pub assoc : (a b c : Int64) → op (op a b) c ≡ op a (op b c)
  pub neutral : (a : Int64) → IsInt64 a → op e a ≡ a
  pub closed : (a b : Int64) → IsInt64 a → IsInt64 b → IsInt64 (op a b)
  pub start : IsInt64 e

abbrev pub fold_i64 : (Int64 → Int64 → Int64) → Int64 → List Int64 → Int64
fold_i64 op e [] = e
fold_i64 op e (x ∷ xs) = op x (fold_i64 op e xs)

pub add_i64-IsMerge : IsMerge add_i64 0
add_i64-IsMerge = record {
  assoc = add_i64_assoc;
  neutral = add_i64_zero;
  closed = λ a b ha hb. omega arith;
  start = omega arith;
}

pub min_i64-IsMerge : IsMerge min_i64 int64_max
min_i64-IsMerge = record {
  assoc = min_i64_assoc;
  neutral = min_i64-int64_max;
  closed = λ a b ha hb. ground arith;
  start = omega arith;
}

pub max_i64-IsMerge : IsMerge max_i64 int64_min
max_i64-IsMerge = record {
  assoc = max_i64_assoc;
  neutral = max_i64-int64_min;
  closed = λ a b ha hb. ground arith;
  start = omega arith;
}

module _ {op : Int64 → Int64 → Int64} {e : Int64} (m : IsMerge op e) where
  pub fold_i64-IsInt64 : (xs : List Int64) → All IsInt64 xs → IsInt64 (fold_i64 op e xs)
  fold_i64-IsInt64 [] h = m.start
  fold_i64-IsInt64 (x ∷ xs) (hx, h) = m.closed x _ hx (fold_i64-IsInt64 xs h)

  pub fold_i64-append :
      (xs ys : List Int64)
      → All IsInt64 ys
      → fold_i64 op e (xs ++ ys) ≡ op (fold_i64 op e xs) (fold_i64 op e ys)
  fold_i64-append [] ys h = sym (m.neutral _ (fold_i64-IsInt64 ys h))
  fold_i64-append (x ∷ xs) ys h = rw (fold_i64-append xs ys h) (sym (m.assoc x _ _))
