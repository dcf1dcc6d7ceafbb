-- ===== src/Cache/Fused.antt =====
-- src/bridge/mlx_bridge.cpp, ConcatArraysBalanced and FuseCachedColumnUnlocked: a cached column as one
-- array. `A` is the type of an entry; of MlxCachedColumn the model has the vectors that fusing reads and
-- what it writes.
pub mod Rows
use duckdb_mlx.Common.{
  ℕ, zero, suc, ◌/◌, Bool, true, false, ◌||◌, List, [], ◌∷◌, ◌++◌, Option, none, some, length, take,
  drop, if◌then◌else◌,
}
use duckdb_mlx.Segment.{is_empty}

-- The fuel is the number of parts.
unfoldable pub concat_balanced : {A : Type 0} → ℕ → List (List A) → List A
concat_balanced zero parts = []
concat_balanced (suc fuel) [] = []
concat_balanced (suc fuel) (p ∷ []) = p
concat_balanced (suc fuel) (p ∷ q ∷ []) = p ++ q
concat_balanced (suc fuel) (p ∷ q ∷ r ∷ parts) =
    let mid = length (p ∷ q ∷ r ∷ parts) / 2 in
    concat_balanced fuel (take mid (p ∷ q ∷ r ∷ parts))
    ++ concat_balanced fuel (drop mid (p ∷ q ∷ r ∷ parts))

abbrev pub concat_arrays : {A : Type 0} → List (List A) → List A
concat_arrays parts = concat_balanced (length parts) parts

pub record FusedColumn (A : Type 0) : Type 0 where
  pub segments : List (List A)
  pub valids : List (Option (List Bool))
  pub fused_col : Option (List A)
  pub fused_valid : Option (List Bool)

abbrev pub is_some {ℓ} : {A : Type ℓ} → Option A → Bool
is_some none = false
is_some (some _) = true

-- `valid_parts`
abbrev pub present {ℓ} : {A : Type ℓ} → List (Option A) → List A
present [] = []
present (none ∷ os) = present os
present (some a ∷ os) = a ∷ present os

unfoldable pub fuse_cached_column : {A : Type 0} → FusedColumn A → FusedColumn A
fuse_cached_column cached =
    if is_empty cached.segments || is_some cached.fused_col then cached else record cached {
      fused_col = some (concat_arrays cached.segments);
      fused_valid =
          if is_empty (present cached.valids)
          then cached.fused_valid
          else some (concat_arrays (present cached.valids));
    }
