-- ===== src/Cache/Store.antt =====
-- src/bridge/mlx_bridge.cpp, AppendColumnSlice and MlxCacheStoreSegment: the rows of a sink enter the
-- cache, cut into segments. `Zoned` gives what the zone maps need of a float.
pub mod Rows
pub mod Correct
pub mod Start
pub mod Cuts
use Prim.Native.String.{String}
use Prim.Native.Char.{code}
use text.Mathlib.Text.{starts_with}
use duckdb_mlx.Common.{
  ℕ, zero, suc, ◌+◌, ◌-◌, Bool, true, false, not, ◌&&◌, List, [], ◌∷◌, ◌++◌, map, Option, none,
  some, ltb, leb, ◌==◌, length, take, drop, if◌then◌else◌,
}
use duckdb_mlx.Common.Int64.{Int64}
use duckdb_mlx.Common.Assoc.{find, put}
use duckdb_mlx.Ir.{ColumnValues, ivalues, fvalues, ColumnData}
use duckdb_mlx.Zone.{ZoneMap, Zoned, int64_zoned, compute_zone_map}
use duckdb_mlx.Segment.{is_empty}
use duckdb_mlx.Cache.{CachedColumn, TableLayout, Cache, layout_of}

-- What the three vectors of a cached column hold for a segment.
pub record StoredSegment (D F : Type 0) : Type 0 where
  pub column : ColumnData F
  pub zone_map : ZoneMap D

abbrev pub zone_map_segment_rows : ℕ
zone_map_segment_rows = 1000000

abbrev pub min_of : ℕ → ℕ → ℕ
min_of a b = if leb a b then a else b

abbrev pub next_take : List ℕ → ℕ → ℕ
next_take [] left = min_of left zone_map_segment_rows
next_take (size ∷ _) left = min_of left size

-- `n` entries from `offset` on.
abbrev pub slice {ℓ} : {A : Type ℓ} → ℕ → ℕ → List A → List A
slice offset n xs = take n (drop offset xs)

abbrev pub slice_values : {F : Type 0} → ℕ → ℕ → ColumnValues F → ColumnValues F
slice_values offset n (ivalues vs) = ivalues (slice offset n vs)
slice_values offset n (fvalues vs) = fvalues (slice offset n vs)

abbrev pub slice_valid : ℕ → ℕ → Option (List Bool) → Option (List Bool)
slice_valid offset n none = none
slice_valid offset n (some valid) = some (slice offset n valid)

abbrev pub slice_column : {F : Type 0} → ℕ → ℕ → ColumnData F → ColumnData F
slice_column offset n col = record {
  values = slice_values offset n col.values;
  valid = slice_valid offset n col.valid;
}

-- `shape(0)`
abbrev pub size_of : {F : Type 0} → ColumnValues F → ℕ
size_of (ivalues vs) = length vs
size_of (fvalues vs) = length vs

-- The values with their validity; all are valid without an array.
abbrev pub with_valid : {T : Type 0} → List T → Option (List Bool) → List (T × Bool)
with_valid vs none = map (λ v. (v, true)) vs
with_valid [] (some valid) = []
with_valid (v ∷ vs) (some []) = []
with_valid (v ∷ vs) (some (b ∷ bs)) = (v, b) ∷ with_valid vs (some bs)

-- The key up to its last '#', with it.
unfoldable pub up_to_hash : String → Option String
up_to_hash String.[] = none
up_to_hash (String.◌∷◌ c s) = elim (up_to_hash s) [
  | some p ↦ some (String.◌∷◌ c p)
  | none ↦ if code c == 35 then some (String.◌∷◌ c "") else none
]

unfoldable pub table_prefix : List String → String
table_prefix [] = ""
table_prefix (key ∷ keys) = elim (up_to_hash key) [ none ↦ "" | some p ↦ p ]

abbrev pub Column : Type 0 → Type 0 → Type 0
Column D F = CachedColumn (StoredSegment D F)

abbrev pub Columns : Type 0 → Type 0 → Type 0
Columns D F = List (String × Column D F)

module _ {D F : Type 0} where
  abbrev pub or_empty : Option (Column D F) → Column D F
  or_empty none = record { segments = []; rows = 0; population = 0 }
  or_empty (some col) = col

  -- `store[key]`, a new column where there is none.
  abbrev pub column_of : String → Columns D F → Column D F
  column_of key store = or_empty (find key store)

module _ {D F : Type 0} (of_int : Int64 → D) (zoned : Zoned D F) (zero_double : D) where
  unfoldable pub zone_map_of : ColumnData F → ZoneMap D
  zone_map_of col = elim (col.values) [
    | ivalues vs ↦ compute_zone_map (int64_zoned of_int) zero_double (with_valid vs col.valid)
    | fvalues vs ↦ compute_zone_map zoned zero_double (with_valid vs col.valid)
  ]

  unfoldable pub append_column_slice : Column D F → ColumnData F → ℕ → ℕ → ℕ → Column D F
  append_column_slice cached col offset zero population = cached
  append_column_slice cached col offset (suc n) population =
      let part = slice_column offset (suc n) col in
      record {
        segments = cached.segments ++ record { column = part; zone_map = zone_map_of part } ∷ [];
        rows = cached.rows + suc n;
        population = population;
      }

  -- The loop over the columns: those that are flagged take a segment.
  unfoldable pub store_columns :
      List String → List Bool → List (ColumnData F) → ℕ → ℕ → ℕ → Columns D F → Columns D F
  store_columns (key ∷ keys) (flag ∷ flags) (col ∷ cols) offset n population store =
      store_columns keys flags cols offset n population (
        if flag
        then put key (append_column_slice (column_of key store) col offset n population) store
        else store)
  store_columns _ _ _ offset n population store = store

  -- The sizes of a column of the table that has segments, or those of the layout. (The model takes the
  -- first in the order of the list; the order of an `unordered_map` is not specified.)
  unfoldable pub stored_sizes : String → Columns D F → Option (List ℕ)
  stored_sizes prefix [] = none
  stored_sizes prefix ((key, col) ∷ store) =
      let rest = stored_sizes prefix store in
      if starts_with key prefix && not (is_empty col.segments)
      then some (map (λ (s : StoredSegment D F). size_of s.column.values) col.segments)
      else rest

  unfoldable pub canonical_segment_sizes : String → Cache (StoredSegment D F) → List ℕ
  canonical_segment_sizes prefix c = elim (stored_sizes prefix c.store) [
    | none ↦ (layout_of prefix c).segment_sizes
    | some sizes ↦ sizes
  ]

  module _ (population : ℕ) (keys : List String) (flags : List Bool) (cols : List (ColumnData F))
      (count : ℕ) where
    -- The loop for a table without segments, with the sizes of its layout. The fuel is `count`.
    unfoldable pub store_new : ℕ → ℕ → Columns D F → List ℕ → Columns D F × List ℕ
    store_new zero offset store sizes = (store, sizes)
    store_new (suc fuel) offset store sizes = elim (ltb offset count) [
      | false ↦ (store, sizes)
      | true ↦
          let n = min_of zone_map_segment_rows (count - offset) in
          store_new fuel (offset + n) (store_columns keys flags cols offset n population store)
            (sizes ++ n ∷ [])
    ]

    -- The first segment to fill: behind those of the first flagged column that has any. Each look
    -- at `store[key]` puts a column there.
    unfoldable pub start_index : List String → List Bool → Columns D F → ℕ × Columns D F
    start_index (key ∷ ks) (true ∷ fs) store =
        let col = column_of key store in
        let store' = put key col store in
        let rest = start_index ks fs store' in
        if not (is_empty col.segments) then (length col.segments, store') else rest
    start_index (key ∷ ks) (false ∷ fs) store = start_index ks fs store
    start_index _ _ store = (0, store)

    -- The loop for a table with segments; `canonical` is what is left of the sizes at `seg_idx`.
    unfoldable pub store_split : ℕ → ℕ → List ℕ → Columns D F → Columns D F
    store_split zero offset canonical store = store
    store_split (suc fuel) offset canonical store = elim (ltb offset count) [
      | false ↦ store
      | true ↦
          let n = next_take canonical (count - offset) in
          store_split fuel (offset + n) (drop 1 canonical)
            (store_columns keys flags cols offset n population store)
    ]

    unfoldable pub store_rows : List ℕ → Columns D F → List ℕ → Columns D F × List ℕ
    store_rows canonical store sizes =
        if is_empty canonical
        then store_new count 0 store sizes
        else (let (seg_idx, store') = start_index keys flags store in
            (store_split count 0 (drop seg_idx canonical) store', sizes))

    unfoldable pub cache_store_segment : Cache (StoredSegment D F) → Cache (StoredSegment D F)
    cache_store_segment c =
        let prefix = table_prefix keys in
        let layout = layout_of prefix c in
        let (store, sizes) =
          store_rows (canonical_segment_sizes prefix c) c.store layout.segment_sizes in
        if count == 0 then c else record c {
          store = store;
          layouts = put prefix (record layout { segment_sizes = sizes }) c.layouts;
        }
