-- ===== src/Common/Int.antt =====
-- Signed integers over the native numbers; `negsuc n` is -(n + 1).
use Prim.Native.Nat.{ℕ, suc, ◌+◌, ◌-◌}
use duckdb_mlx.Common.Tests.{ltb, Bool-cases, if◌then◌else◌}
use mathlib.Core.Path.{◌≡◌, refl, sym, ap, ◌∙◌}
use mathlib.Core.Logic.{inl, inr}
use mathlib.Core.Bool.{Bool, true, false}
use native.Mathlib.Omega.{arith}

pub data ℤ : Type 0 where
  pos : ℕ → ℤ
  negsuc : ℕ → ℤ

-- a - b
abbrev pub diff : ℕ → ℕ → ℤ
diff a b = if ltb a b then negsuc (b - a - 1) else pos (a - b)

infixl 55 ◌+ℤ◌
abbrev pub ◌+ℤ◌ : ℤ → ℤ → ℤ
pos a +ℤ pos b = pos (a + b)
pos a +ℤ negsuc b = diff a (suc b)
negsuc a +ℤ pos b = diff b (suc a)
negsuc a +ℤ negsuc b = negsuc (suc (a + b))

abbrev pub lt_int : ℤ → ℤ → Bool
lt_int (pos a) (pos b) = ltb a b
lt_int (pos a) (negsuc b) = false
lt_int (negsuc a) (pos b) = true
lt_int (negsuc a) (negsuc b) = ltb b a

abbrev pub min_int : ℤ → ℤ → ℤ
min_int a b = if lt_int b a then b else a

abbrev pub max_int : ℤ → ℤ → ℤ
max_int a b = if lt_int a b then b else a

-- An operation that may be applied in any order, and a value that it does not change.
pub record IsFold {A : Type 0} (op : A → A → A) (e : A) : Type 0 where
  pub assoc : (a b c : A) → op (op a b) c ≡ op a (op b c)
  pub comm : (a b : A) → op a b ≡ op b a
  pub start : op e e ≡ e

+ℤ_comm : (a b : ℤ) → a +ℤ b ≡ b +ℤ a
+ℤ_comm (pos a) (pos b) = ap pos (omega arith)
+ℤ_comm (pos a) (negsuc b) = refl
+ℤ_comm (negsuc a) (pos b) = refl
+ℤ_comm (negsuc a) (negsuc b) = ap negsuc (omega arith)

min_int_comm : (a b : ℤ) → min_int a b ≡ min_int b a
min_int_comm (pos a) (pos b) = ground arith
min_int_comm (pos a) (negsuc b) = refl
min_int_comm (negsuc a) (pos b) = refl
min_int_comm (negsuc a) (negsuc b) = ground arith

min_int_assoc : (a b c : ℤ) → min_int (min_int a b) c ≡ min_int a (min_int b c)
min_int_assoc (pos a) (pos b) (pos c) = ground arith
min_int_assoc (pos a) (pos b) (negsuc c) = ground arith
min_int_assoc (pos a) (negsuc b) (pos c) = ground arith
min_int_assoc (pos a) (negsuc b) (negsuc c) = ground arith
min_int_assoc (negsuc a) (pos b) (pos c) = ground arith
min_int_assoc (negsuc a) (pos b) (negsuc c) = ground arith
min_int_assoc (negsuc a) (negsuc b) (pos c) = ground arith
min_int_assoc (negsuc a) (negsuc b) (negsuc c) = ground arith

min_int_self : (a : ℤ) → min_int a a ≡ a
min_int_self (pos a) = ground arith
min_int_self (negsuc a) = ground arith

max_int_comm : (a b : ℤ) → max_int a b ≡ max_int b a
max_int_comm (pos a) (pos b) = ground arith
max_int_comm (pos a) (negsuc b) = refl
max_int_comm (negsuc a) (pos b) = refl
max_int_comm (negsuc a) (negsuc b) = ground arith

max_int_assoc : (a b c : ℤ) → max_int (max_int a b) c ≡ max_int a (max_int b c)
max_int_assoc (pos a) (pos b) (pos c) = ground arith
max_int_assoc (pos a) (pos b) (negsuc c) = ground arith
max_int_assoc (pos a) (negsuc b) (pos c) = ground arith
max_int_assoc (pos a) (negsuc b) (negsuc c) = ground arith
max_int_assoc (negsuc a) (pos b) (pos c) = ground arith
max_int_assoc (negsuc a) (pos b) (negsuc c) = ground arith
max_int_assoc (negsuc a) (negsuc b) (pos c) = ground arith
max_int_assoc (negsuc a) (negsuc b) (negsuc c) = ground arith

max_int_self : (a : ℤ) → max_int a a ≡ a
max_int_self (pos a) = ground arith
max_int_self (negsuc a) = ground arith

diff_eq : (a b c d : ℕ) → a + d ≡ c + b → diff a b ≡ diff c d
diff_eq a b c d h = ground arith

-- The part of a number at or above 0, and the part below.
abbrev up : ℤ → ℕ
up (pos a) = a
up (negsuc a) = 0

abbrev down : ℤ → ℕ
down (pos a) = 0
down (negsuc a) = suc a

diff-up-down : (a : ℤ) → a ≡ diff (up a) (down a)
diff-up-down (pos a) = ground arith
diff-up-down (negsuc a) = ground arith

pos-diff : (a c d : ℕ) → pos a +ℤ diff c d ≡ diff (a + c) d
pos-diff a c d = ground arith

negsuc-diff : (a c d : ℕ) → negsuc a +ℤ diff c d ≡ diff c (suc (a + d))
negsuc-diff a c d = ground arith

diff-diff : (a b c d : ℕ) → diff a b +ℤ diff c d ≡ diff (a + c) (b + d)
diff-diff a b c d = elim (Bool-cases (ltb a b)) [
  | inl e ↦ rw e (
      negsuc-diff (b - a - 1) c d
      ∙ diff_eq c (suc ((b - a - 1) + d)) (a + c) (b + d) (ground (arith, e)))
  | inr e ↦
      rw e (pos-diff (a - b) c d ∙ diff_eq ((a - b) + c) d (a + c) (b + d) (ground (arith, e)))
]

+ℤ-diff : (a b : ℤ) → a +ℤ b ≡ diff (up a + up b) (down a + down b)
+ℤ-diff a b =
    (λ i. diff-up-down a i +ℤ diff-up-down b i) ∙ diff-diff (up a) (down a) (up b) (down b)

+ℤ_assoc : (a b c : ℤ) → (a +ℤ b) +ℤ c ≡ a +ℤ (b +ℤ c)
+ℤ_assoc a b c =
    (λ i. +ℤ-diff a b i +ℤ diff-up-down c i)
    ∙ diff-diff (up a + up b) (down a + down b) (up c) (down c)
    ∙ (λ i. diff (reorder (up a) (up b) (up c) i) (reorder (down a) (down b) (down c) i))
    ∙ sym (
        (λ i. diff-up-down a i +ℤ +ℤ-diff b c i)
        ∙ diff-diff (up a) (down a) (up b + up c) (down b + down c))
  where
    reorder : (x y z : ℕ) → (x + y) + z ≡ x + (y + z)
    reorder x y z = omega arith

pub +ℤ_zero : (a : ℤ) → a +ℤ pos 0 ≡ a
+ℤ_zero (pos a) = ap pos (omega arith)
+ℤ_zero (negsuc a) = ground arith

pub +-IsFold : IsFold ◌+◌ 0
+-IsFold = record { assoc = λ a b c. omega arith; comm = λ a b. omega arith; start = refl }

pub +ℤ-IsFold : IsFold ◌+ℤ◌ (pos 0)
+ℤ-IsFold = record { assoc = +ℤ_assoc; comm = +ℤ_comm; start = refl }

pub min_int-IsFold : (e : ℤ) → IsFold min_int e
min_int-IsFold e = record { assoc = min_int_assoc; comm = min_int_comm; start = min_int_self e }

pub max_int-IsFold : (e : ℤ) → IsFold max_int e
max_int-IsFold e = record { assoc = max_int_assoc; comm = max_int_comm; start = max_int_self e }
