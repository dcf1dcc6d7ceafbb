-- ===== src/Tests/Population.antt =====
-- A table of 4 rows with two columns, one of which is in the cache.
use Prim.Native.String.{String}
use duckdb_mlx.Common.{ℕ, ◌≡◌, refl, ◌⊎◌, true, false, List, [], ◌∷◌, none, All}
use duckdb_mlx.Common.Assoc.{find}
use duckdb_mlx.Cache.{
  Cache, begin_population, is_present, has_mismatch, prepare_layout, plan_columns, drop_table,
}
use duckdb_mlx.Cache.Plan.{begin_population-uniform}

abbrev half_cached : Cache ℕ
half_cached = record {
  store = ("t#a", record { segments = 11 ∷ []; rows = 4; population = 1 }) ∷ [];
  layouts = ("t#", record { rows = 4; population = 1; segment_sizes = 4 ∷ [] }) ∷ [];
  counter = 1;
}

abbrev columns : List String
columns = "t#a" ∷ "t#b" ∷ []

-- Both columns are stored again.
half_cached_plan : (begin_population "t#" columns 4 half_cached).0.store_col ≡ true ∷ true ∷ []
unfolding begin_population is_present has_mismatch prepare_layout plan_columns drop_table
half_cached_plan = refl

begin_population-uniform_example :
    (All (λ b. b ≡ true) (begin_population "t#" columns 4 half_cached).0.store_col
      × All (λ k. find k (begin_population "t#" columns 4 half_cached).1.store ≡ none) columns)
    ⊎ (All (λ b. b ≡ false) (begin_population "t#" columns 4 half_cached).0.store_col
        × All
            (λ k.
              is_present 4 (find k (begin_population "t#" columns 4 half_cached).1.store) ≡ true)
            columns)
begin_population-uniform_example = begin_population-uniform "t#" columns 4 half_cached
