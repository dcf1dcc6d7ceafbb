-- ===== src/Groupby.antt =====
-- GROUP BY SUM of src/bridge: the rows of a result, and what a grouping must return.
pub mod Accumulator
pub mod Cached
pub mod Dense
pub mod Grouped
pub mod Hash
pub mod Path
pub mod Radix
pub mod Sum
use duckdb_mlx.Common.{
  ℕ, suc, ◌+◌, Bool, List, [], ◌∷◌, Option, none, some, ltb, ◌==◌, if◌then◌else◌,
}
use duckdb_mlx.Common.Int64.{Int64}

pub record GroupbyRow (V : Type 0) : Type 0 where
  pub key : Int64
  pub sum : V
  pub count : ℕ

-- The specification: the sum of a key's values, from the left, and their number.
module _ {V : Type 0} (add : V → V → V) where
  unfoldable pub group_sum : Int64 → V → List (Int64 × V) → V
  group_sum k acc [] = acc
  group_sum k acc ((key, v) ∷ es) = group_sum k (if key == k then add acc v else acc) es

module _ {V : Type 0} where
  unfoldable pub group_count : Int64 → List (Int64 × V) → ℕ
  group_count k [] = 0
  group_count k ((key, v) ∷ es) = if key == k then suc (group_count k es) else group_count k es

  -- The sum and the count that a result reports for a key, in its first row for it.
  unfoldable pub find_row : Int64 → List (GroupbyRow V) → Option (V × ℕ)
  find_row k [] = none
  find_row k (r ∷ rs) = if r.key == k then some (r.sum, r.count) else find_row k rs

  -- What it must report: nothing for a key that does not occur.
  abbrev pub group_of : (V → V → V) → V → Int64 → List (Int64 × V) → Option (V × ℕ)
  group_of add zero k es =
      if ltb 0 (group_count k es) then some (group_sum add k zero es, group_count k es) else none
