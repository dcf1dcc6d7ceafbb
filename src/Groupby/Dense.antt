-- ===== src/Groupby/Dense.antt =====
-- src/bridge/mlx_groupby.cpp: the perfect-hash table over the span of the keys, filled on the host
-- (GroupbySumDenseHost). A key is an int64 pattern; INT64_MIN marks NULL. `zero` and `add` are the
-- doubles' 0.0 and +.
pub mod Correct
use duckdb_mlx.Common.{
  ℕ, suc, ◌+◌, ◌-◌, ◌%◌, ◌^◌, Bool, true, false, ◌&&◌, List, [], ◌∷◌, ltb, leb, ◌==◌, get_or, set,
  replicate, if◌then◌else◌,
}
use duckdb_mlx.Common.Int64.{Int64, int64_min, int64_max, rank, lt_i64, min_i64, max_i64, add_i64}
use duckdb_mlx.Groupby.{GroupbyRow}

abbrev pub dense_max_span : ℕ
dense_max_span = 1048576

-- `static_cast<uint64_t>(kmax - kmin + 1)`, which wraps.
abbrev pub span_of : Int64 → Int64 → ℕ
span_of kmin kmax = (kmax + 2 ^ 64 - kmin + 1) % 2 ^ 64

unfoldable pub dense_span_ok : Int64 → Int64 → Bool
dense_span_ok kmin kmax =
    if kmin == int64_min
    then false
    else if kmax == int64_min
    then false
    else if lt_i64 kmax kmin
    then false
    else ltb 0 (span_of kmin kmax) && leb (span_of kmin kmax) dense_max_span

-- `static_cast<size_t>(key - kmin)`, which wraps.
abbrev pub slot_of : Int64 → Int64 → ℕ
slot_of kmin key = (key + 2 ^ 64 - kmin) % 2 ^ 64

module _ {V : Type 0} where
  -- The first loop: the least and the greatest key that is not NULL.
  unfoldable pub key_bounds : List (Int64 × V) → Int64 → Int64 → Int64 × Int64
  key_bounds [] kmin kmax = (kmin, kmax)
  key_bounds ((key, _) ∷ es) kmin kmax =
      key_bounds es (if key == int64_min then kmin else min_i64 kmin key)
        (if key == int64_min then kmax else max_i64 kmax key)

  -- The third loop: a row for each slot that was met.
  unfoldable pub dense_rows : Int64 → ℕ → List V → List ℕ → List (GroupbyRow V)
  dense_rows kmin i (s ∷ sums) (c ∷ counts) =
      let rest = dense_rows kmin (i + 1) sums counts in
      if ltb 0 c then record { key = add_i64 kmin i; sum = s; count = c } ∷ rest else rest
  dense_rows kmin i _ _ = []

  module _ (zero : V) (add : V → V → V) where
    -- The second loop: sums and counts by slot.
    unfoldable pub fill_sums : Int64 → List (Int64 × V) → List V → List V
    fill_sums kmin [] sums = sums
    fill_sums kmin ((key, v) ∷ es) sums = fill_sums kmin es (
        if key == int64_min
        then sums
        else set sums (slot_of kmin key) (add (get_or sums (slot_of kmin key) zero) v))

    unfoldable pub fill_counts : Int64 → List (Int64 × V) → List ℕ → List ℕ
    fill_counts kmin [] counts = counts
    fill_counts kmin ((key, v) ∷ es) counts = fill_counts kmin es (
        if key == int64_min
        then counts
        else set counts (slot_of kmin key) (suc (get_or counts (slot_of kmin key) 0)))

    unfoldable pub groupby_sum_dense_host : List (Int64 × V) → List (GroupbyRow V)
    groupby_sum_dense_host [] = []
    groupby_sum_dense_host (e ∷ es) =
        let (kmin, kmax) = key_bounds (e ∷ es) int64_max int64_min in
        if dense_span_ok kmin kmax
        then dense_rows kmin 0 (fill_sums kmin (e ∷ es) (replicate (span_of kmin kmax) zero))
            (fill_counts kmin (e ∷ es) (replicate (span_of kmin kmax) 0))
        else []
