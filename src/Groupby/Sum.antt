-- ===== src/Groupby/Sum.antt =====
-- src/bridge/mlx_groupby.cpp, MlxGroupbySum and EstimateGroupsFromKeys: the grouping of host arrays.
-- `Groupings` gives what the GPU groupings return at the arrays that they are handed.
use Prim.Native.String.{String}
use duckdb_mlx.Common.{
  suc, ◌-◌, ◌^◌, ◌≡◌, ◌≢◌, refl, Bool, false, ◌||◌, List, [], ◌∷◌, Option, none, some, ◌==◌, ltb, ℤ,
  pos, negsuc, length, All, map, if◌then◌else◌,
}
use duckdb_mlx.Common.Int64.{Int64, IsInt64, int64_min, lt_i64, le_i64, min_i64, max_i64}
use duckdb_mlx.Segment.{is_empty}
use duckdb_mlx.Groupby.{GroupbyRow, find_row, group_of, group_count}
use duckdb_mlx.Groupby.Dense.{span_of, groupby_sum_dense_host}
use duckdb_mlx.Groupby.Dense.Correct.{groupby_sum_dense_host_correct}
use duckdb_mlx.Groupby.Path.{Groupings, pick_gpu_path}

-- The value of a bit pattern.
abbrev pub signed : Int64 → ℤ
signed a = if ltb a (2 ^ 63) then pos a else negsuc (2 ^ 64 - 1 - a)

abbrev pub least : Int64 → List Int64 → Int64
least k [] = k
least k (j ∷ js) = least (min_i64 k j) js

abbrev pub greatest : Int64 → List Int64 → Int64
greatest k [] = k
greatest k (j ∷ js) = greatest (max_i64 k j) js

-- The span of the keys, but at most the number of rows; -1 where there is no span.
unfoldable pub estimate_groups_from_keys : List Int64 → ℤ
estimate_groups_from_keys [] = negsuc 0
estimate_groups_from_keys (k ∷ ks) =
    let kmin = least k ks in
    let kmax = greatest k ks in
    let span = span_of kmin kmax in
    let nrows = suc (length ks) in
    if lt_i64 kmax kmin || (kmin == int64_min)
    then negsuc 0
    else if le_i64 span nrows
    then signed span
    else pos nrows

module _ {V : Type 0} (zero : V) (add : V → V → V) (to_float : V → V) (to_i64 : V → Int64)
    (groupings : List (Int64 × V) → Groupings V) (round : V → Int64) where
  -- NULL rows get the key INT64_MIN and the value 0; `valid` is `none` for nullptr.
  unfoldable pub masked : List (Int64 × V) → Option (List Bool) → List (Int64 × V)
  masked es none = es
  masked [] (some valid) = []
  masked (e ∷ es) (some []) = e ∷ es
  masked ((k, v) ∷ es) (some (b ∷ bs)) =
      (if b then (k, v) else (int64_min, zero)) ∷ masked es (some bs)

  abbrev pub float_values : List (Int64 × V) → List (Int64 × V)
  float_values es = map (λ (e : Int64 × V). (e.0, to_float e.1)) es

  unfoldable pub groupby_sum :
      Option String → List (Int64 × V) → Option (List Bool) → Bool → List (GroupbyRow V)
  groupby_sum path [] valid use_hash = []
  groupby_sum path (e ∷ es) valid use_hash =
      let dense = groupby_sum_dense_host zero add (e ∷ es) in
      let arrays = masked (float_values (e ∷ es)) valid in
      let by_gpu =
        pick_gpu_path to_i64 (groupings arrays) (map (λ (a : Int64 × V). round a.1) arrays) path
          use_hash (length arrays)
          (estimate_groups_from_keys (map (λ (a : Int64 × V). a.0) arrays)) in
      if use_hash then by_gpu else if is_empty dense then by_gpu else dense

  not_empty-eq : (rows : List (GroupbyRow V)) → rows ≢ [] → is_empty rows ≡ false
  not_empty-eq [] h = absurd (h refl)
  not_empty-eq (r ∷ rs) h = refl

  -- Without the hash table, where the dense host table returns rows, the result reports for every int64
  -- key but NULL (INT64_MIN) the sum and the number of all its rows, whatever the validity array says
  -- of them. Condition: the keys are int64 values.
  pub groupby_sum-group_of :
      (path : Option String) (es : List (Int64 × V)) (valid : Option (List Bool)) (k : Int64)
      → All (λ e. IsInt64 e.0) es
      → groupby_sum_dense_host zero add es ≢ []
      → IsInt64 k
      → k ≢ int64_min
      → find_row k (groupby_sum path es valid false) ≡ group_of add zero k es
  unfolding groupby_sum group_count find_row
  groupby_sum-group_of path [] valid k h rows hk ne = refl
  groupby_sum-group_of path (e ∷ es) valid k h rows hk ne =
      rw (not_empty-eq (groupby_sum_dense_host zero add (e ∷ es)) rows)
        (groupby_sum_dense_host_correct zero add (e ∷ es) k h rows hk ne)
