-- ===== src/Groupby/Path.antt =====
-- src/bridge/mlx_groupby_paths.cpp and PickGpuPath of src/bridge/mlx_groupby.cpp: which grouping
-- runs, by the SQL override, the environment and the estimated number of groups. An estimate is a ℤ
-- for an int64_t. The results that the GPU groupings return at the arrays in view are the parameter
-- `Groupings`.
pub mod Checked
use Prim.Native.String.{String}
use text.Mathlib.Text.{◌==◌ as str_eq}
use duckdb_mlx.Common.{
  ℕ, Bool, true, false, not, ◌&&◌, ◌||◌, List, [], ◌∷◌, map, Option, none, some, ltb, leb, ◌==◌, ℤ,
  pos, negsuc, if◌then◌else◌,
}
use duckdb_mlx.Common.Int64.{Int64, add_i64, fold_i64}
use duckdb_mlx.Segment.{is_empty}
use duckdb_mlx.Groupby.{GroupbyRow}

-- `g_path_override`: the empty text where there is none. A `const char *` is `none` for nullptr.
unfoldable pub set_path_override : Option String → String
set_path_override none = ""
set_path_override (some path) = if str_eq path "" then "" else path

unfoldable pub path_override : String → Option String
path_override global = if str_eq global "" then none else some global

-- `env` is what `getenv("MLX_GROUPBY_PATH")` returns.
unfoldable pub groupby_path : Option String → String → Option String
groupby_path env global = elim (path_override global) [ none ↦ env | some p ↦ some p ]

abbrev pub path_is : Option String → String → Bool
path_is none name = false
path_is (some p) name = str_eq p name

abbrev pub min_groups : ℕ
min_groups = 1024

abbrev pub safe_cap : ℕ
safe_cap = 16000000

abbrev pub min_rows : ℕ
min_rows = 50000

abbrev pub in_slotlock_range : ℤ → Bool
in_slotlock_range (pos groups) = leb min_groups groups && leb groups safe_cap
in_slotlock_range (negsuc _) = false

abbrev pub above_cap : ℤ → Bool
above_cap (pos groups) = ltb safe_cap groups
above_cap (negsuc _) = false

abbrev pub is_positive : ℤ → Bool
is_positive (pos n) = ltb 0 n
is_positive (negsuc _) = false

unfoldable pub should_try_slotlock : Option String → ℤ → Bool
should_try_slotlock path groups =
    if path_is path "slotlock"
    then true
    else if path_is path "radix" || (path_is path "sort" || path_is path "dense")
    then false
    else if is_positive groups
    then in_slotlock_range groups
    else false

unfoldable pub should_try_radix : Option String → ℕ → ℤ → Bool
should_try_radix path n groups =
    if path_is path "radix"
    then true
    else if path_is path "dense" || (path_is path "sort" || path_is path "slotlock")
    then false
    else if ltb n min_rows
    then false
    else if above_cap groups
    then true
    else if in_slotlock_range groups
    then false
    else true

-- What each grouping returns.
pub record Groupings (V : Type 0) : Type 0 where
  pub hash : List (GroupbyRow V)
  pub dense_gpu : List (GroupbyRow V)
  pub sort_scatter : List (GroupbyRow V)
  pub radix_gpu : List (GroupbyRow V)
  pub slotlock_gpu : List (GroupbyRow V)

-- RadixChecksumOk and SlotlockChecksumOk: the rounded values and the sums of the rows, both summed
-- as int64. `to_i64` is the cast of a double.
module _ {V : Type 0} (to_i64 : V → Int64) where
  unfoldable pub checksum_ok : List Int64 → List (GroupbyRow V) → Bool
  checksum_ok vals [] = false
  checksum_ok vals (r ∷ rows) =
      fold_i64 add_i64 0 vals == fold_i64 add_i64 0 (map (λ r. to_i64 r.sum) (r ∷ rows))

  module _ (g : Groupings V) (vals : List Int64) where
    abbrev pub slotlock_or : List (GroupbyRow V) → List (GroupbyRow V)
    slotlock_or other = if checksum_ok vals g.slotlock_gpu then g.slotlock_gpu else other

    abbrev pub radix_or : List (GroupbyRow V) → List (GroupbyRow V)
    radix_or other = if checksum_ok vals g.radix_gpu then g.radix_gpu else other

    -- The tail of `PickGpuPath`, without a named path.
    unfoldable pub pick_by_estimate : Option String → ℕ → ℤ → List (GroupbyRow V)
    pick_by_estimate path n groups =
        let by_radix =
          if should_try_radix path n groups then radix_or g.sort_scatter else g.sort_scatter in
        if should_try_slotlock path groups then slotlock_or by_radix else by_radix

    -- `n` is the number of keys.
    unfoldable pub pick_gpu_path : Option String → Bool → ℕ → ℤ → List (GroupbyRow V)
    pick_gpu_path path use_hash n groups =
        if path_is path "dense"
        then g.dense_gpu
        else if use_hash
        then g.hash
        else if not (is_empty g.dense_gpu) || n == 0
        then g.dense_gpu
        else if path_is path "sort"
        then g.sort_scatter
        else if path_is path "radix"
        then g.radix_gpu
        else if path_is path "slotlock"
        then slotlock_or g.sort_scatter
        else pick_by_estimate path n groups
