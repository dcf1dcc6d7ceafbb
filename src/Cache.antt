-- ===== src/Cache.antt =====
-- src/bridge/mlx_bridge.cpp, MlxCachedColumn to MlxCacheBeginPopulation: the column cache, and what
-- a query must store before it reads. `C` is the data of a segment of a column. The other stores that
-- a table's drop clears (dense accumulators, derived columns, the Q1 bundles) stand apart.
pub mod Derived
pub mod Fused
pub mod Plan
pub mod Q1
pub mod Read
pub mod Steps
pub mod Store
use Prim.Native.String.{String}
use text.Mathlib.Text.{◌==◌ as str_eq, starts_with}
use duckdb_mlx.Common.{
  ℕ, suc, ◌+◌, Bool, true, false, not, ◌&&◌, ◌||◌, List, [], ◌∷◌, map, Option, none, some, ◌==◌,
  length, if◌then◌else◌,
}
use duckdb_mlx.Common.Assoc.{find, put}
use duckdb_mlx.Segment.{is_empty}

pub record CachedColumn (C : Type 0) : Type 0 where
  pub segments : List C
  pub rows : ℕ
  pub population : ℕ

pub record TableLayout : Type 0 where
  pub rows : ℕ
  pub population : ℕ
  pub segment_sizes : List ℕ

abbrev pub new_layout : TableLayout
new_layout = record { rows = 0; population = 0; segment_sizes = [] }

-- The cache with its layouts and the counter of populations.
pub record Cache (C : Type 0) : Type 0 where
  pub store : List (String × CachedColumn C)
  pub layouts : List (String × TableLayout)
  pub counter : ℕ

pub record PopulationPlan : Type 0 where
  pub population : ℕ
  pub store_col : List Bool

abbrev pub any : List Bool → Bool
any [] = false
any (b ∷ bs) = b || any bs

-- `store.erase(key)`
abbrev pub erase : {V : Type 0} → String → List (String × V) → List (String × V)
erase k [] = []
erase k ((j, v) ∷ m) = if str_eq j k then erase k m else (j, v) ∷ erase k m

abbrev pub erase_prefix : {V : Type 0} → String → List (String × V) → List (String × V)
erase_prefix prefix [] = []
erase_prefix prefix ((j, v) ∷ m) =
    if starts_with j prefix then erase_prefix prefix m else (j, v) ∷ erase_prefix prefix m

module _ {C : Type 0} where
  unfoldable pub drop_table : String → Cache C → Cache C
  drop_table prefix c = record c {
    store = erase_prefix prefix c.store;
    layouts = erase prefix c.layouts;
  }

  -- A column that is there with the expected rows.
  unfoldable pub is_present : ℕ → Option (CachedColumn C) → Bool
  is_present expected_rows none = false
  is_present expected_rows (some col) = col.rows == expected_rows && not (is_empty col.segments)

  -- The loop of `MlxCacheHas`; `nsegments` is 0 before the first column.
  unfoldable pub has_from : List String → ℕ → ℕ → List (String × CachedColumn C) → Bool
  has_from [] expected_rows nsegments store = true
  has_from (key ∷ keys) expected_rows nsegments store = elim (find key store) [
    | none ↦ false
    | some col ↦
        let first = has_from keys expected_rows (length col.segments) store in
        let next = has_from keys expected_rows nsegments store in
        if not (is_present expected_rows (some col))
        then false
        else if nsegments == 0
        then first
        else if length col.segments == nsegments
        then next
        else false
  ]

  unfoldable pub cache_has : List String → ℕ → Cache C → Bool
  cache_has keys expected_rows c = has_from keys expected_rows 0 c.store

  -- Whether a column of the table has other rows.
  unfoldable pub has_mismatch : String → ℕ → List (String × CachedColumn C) → Bool
  has_mismatch prefix expected_rows [] = false
  has_mismatch prefix expected_rows ((j, col) ∷ m) =
      (starts_with j prefix && not (col.rows == expected_rows))
      || has_mismatch prefix expected_rows m

  abbrev pub layout_of : String → Cache C → TableLayout
  layout_of prefix c = elim (find prefix c.layouts) [ none ↦ new_layout | some l ↦ l ]

  abbrev pub start_layout : String → ℕ → TableLayout → Cache C → Cache C
  start_layout prefix expected_rows layout c = record c {
    layouts =
        put prefix (record layout { rows = expected_rows; population = suc c.counter }) c.layouts;
    counter = suc c.counter;
  }

  -- The layout of the table, made anew where its rows changed (there the source assigns to the entry
  -- that the drop has erased; the model puts a new one).
  unfoldable pub prepare_layout : String → ℕ → Cache C → Cache C
  prepare_layout prefix expected_rows c =
      let layout = layout_of prefix c in
      if layout.rows == 0
      then start_layout prefix expected_rows layout c
      else if layout.rows == expected_rows
      then c
      else start_layout prefix expected_rows new_layout (drop_table prefix c)

  -- The loop over the columns: `store_col`, and what is left of the store.
  unfoldable pub plan_columns :
      List String → ℕ → List (String × CachedColumn C) → List Bool × List (String × CachedColumn C)
  plan_columns [] expected_rows store = ([], store)
  plan_columns (key ∷ keys) expected_rows store =
      let present = is_present expected_rows (find key store) in
      let (flags, store') =
        plan_columns keys expected_rows (if present then store else erase key store) in
      (not present ∷ flags, store')

  abbrev pub erase_all :
      List String → List (String × CachedColumn C) → List (String × CachedColumn C)
  erase_all [] store = store
  erase_all (key ∷ keys) store = erase_all keys (erase key store)

  unfoldable pub begin_population : String → List String → ℕ → Cache C → PopulationPlan × Cache C
  begin_population prefix keys expected_rows c =
      let c₁ = if has_mismatch prefix expected_rows c.store then drop_table prefix c else c in
      let c₂ = prepare_layout prefix expected_rows c₁ in
      let (flags, store) = plan_columns keys expected_rows c₂.store in
      let partial = any flags && any (map not flags) in
      (
        record {
          population = (layout_of prefix c₂).population;
          store_col = if partial then map (λ _. true) flags else flags;
        },
        record c₂ { store = if partial then erase_all keys store else store },
      )
