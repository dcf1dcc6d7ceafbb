-- ===== src/Cache/Store/Correct.antt =====
-- MlxCacheStoreSegment on the whole cache: what it stores, and what it keeps of the columns.
use Prim.Native.String.{String}
use text.Mathlib.Text.{◌==◌ as str_eq}
use mathlib.Core.List.{append-nil}
use duckdb_mlx.Common.{
  ℕ, zero, suc, ◌<◌, ◌==◌, ◌≡◌, refl, sym, ◌∙◌, Bool, true, false, List, [], ◌∷◌, ◌++◌, length, ltb,
  Bool-cases, inl, inr, arith, All, All-append,
}
use duckdb_mlx.Common.Int64.{Int64}
use duckdb_mlx.Common.Assoc.{put}
use duckdb_mlx.Ir.{ColumnData}
use duckdb_mlx.Zone.{Zoned}
use duckdb_mlx.Segment.{is_empty}
use duckdb_mlx.Cache.{Cache, layout_of}
use duckdb_mlx.Cache.Store.{
  StoredSegment, Column, Columns, column_of, zone_map_of, append_column_slice, store_columns,
  store_new, start_index, store_split, store_rows, table_prefix, canonical_segment_sizes,
  cache_store_segment,
}
use duckdb_mlx.Cache.Store.Rows.{
  IsStored, IsColumn, column_rows, stored_rows, store_rows-stored_rows, cells, flags_of,
  length-rows_of,
}

module _ {D F : Type 0} (of_int : Int64 → D) (zoned : Zoned D F) (zero_double : D) where
  -- Each segment carries the zone map of its own rows.
  abbrev pub IsZoned : Column D F → Type 0
  IsZoned col =
      All (λ (s : StoredSegment D F). s.zone_map ≡ zone_map_of of_int zoned zero_double s.column)
        col.segments

  abbrev pub IsZonedStore : Columns D F → Type 0
  IsZonedStore store = All (λ (e : String × Column D F). IsZoned (e.1)) store

module _ {D F : Type 0} (of_int : Int64 → D) (zoned : Zoned D F) (zero_double : D) (population : ℕ)
    (keys : List String) (flags : List Bool) (cols : List (ColumnData F)) (count : ℕ) where
  empty_rows : {A : Type 0} (rs : List A) → length rs ≡ 0 → rs ≡ []
  empty_rows [] h = refl
  empty_rows (r ∷ rs) h = absurd (omega arith)

  -- Storing a sink's rows in the cache adds to each flagged column, behind the rows that its segments
  -- hold, all rows of the call with their NULLs, in order. Conditions: the column has `count` rows, its key stands once
  -- among the keys, and the sizes of the table's segments are positive.
  pub cache_store_segment-stored_rows :
      (k : String) (col : ColumnData F) (c : Cache (StoredSegment D F))
      → IsStored k col keys flags cols
      → IsColumn count col
      → All
          (λ size. 0 < size)
          (canonical_segment_sizes of_int zoned zero_double (table_prefix keys) c)
      → stored_rows of_int zoned zero_double (
          column_of k
            (cache_store_segment of_int zoned zero_double population keys flags cols count c).store)
        ≡ stored_rows of_int zoned zero_double (column_of k c.store) ++ column_rows col
  unfolding cache_store_segment
  cache_store_segment-stored_rows k col c stored fits sizes = elim (Bool-cases (count == 0)) [
    | inl e ↦
        let none_left : length (column_rows col) ≡ 0 =
          length-rows_of (cells col.values) (flags_of col.valid) ∙ fits.0 ∙ (ground (arith, e)) in
        rw (e, empty_rows (column_rows col) none_left)
          (sym (append-nil (stored_rows of_int zoned zero_double (column_of k c.store))))
    | inr e ↦ rw e (
        store_rows-stored_rows of_int zoned zero_double k col keys flags cols population count
          stored fits (canonical_segment_sizes of_int zoned zero_double (table_prefix keys) c)
          c.store (layout_of (table_prefix keys) c).segment_sizes sizes)
  ]

  put-IsZonedStore :
      (key : String) (col : Column D F) (store : Columns D F)
      → IsZoned of_int zoned zero_double col
      → IsZonedStore of_int zoned zero_double store
      → IsZonedStore of_int zoned zero_double (put key col store)
  put-IsZonedStore key col [] h hs = (h, tt)
  put-IsZonedStore key col ((j, c) ∷ store) h (hc, hs) = elim (Bool-cases (str_eq j key)) [
    | inl e ↦ rw e (h, hs)
    | inr e ↦ rw e (hc, put-IsZonedStore key col store h hs)
  ]

  column_of-IsZoned :
      (key : String) (store : Columns D F)
      → IsZonedStore of_int zoned zero_double store
      → IsZoned of_int zoned zero_double (column_of key store)
  column_of-IsZoned key [] hs = tt
  column_of-IsZoned key ((j, c) ∷ store) (hc, hs) = elim (Bool-cases (str_eq j key)) [
    | inl e ↦ rw e hc
    | inr e ↦ rw e (column_of-IsZoned key store hs)
  ]

  append_column_slice-IsZoned :
      (cached : Column D F) (col : ColumnData F) (o n : ℕ)
      → IsZoned of_int zoned zero_double cached
      → IsZoned of_int zoned zero_double
          (append_column_slice of_int zoned zero_double cached col o n population)
  unfolding append_column_slice
  append_column_slice-IsZoned cached col o zero h = h
  append_column_slice-IsZoned cached col o (suc n) h = All-append _ cached.segments _ h (refl, tt)

  store_columns-IsZonedStore :
      (ks : List String) (fs : List Bool) (cs : List (ColumnData F)) (o n : ℕ) (store : Columns D F)
      → IsZonedStore of_int zoned zero_double store
      → IsZonedStore of_int zoned zero_double
          (store_columns of_int zoned zero_double ks fs cs o n population store)
  unfolding store_columns
  store_columns-IsZonedStore [] fs cs o n store h = h
  store_columns-IsZonedStore (k ∷ ks) [] cs o n store h = h
  store_columns-IsZonedStore (k ∷ ks) (f ∷ fs) [] o n store h = h
  store_columns-IsZonedStore (k ∷ ks) (false ∷ fs) (c ∷ cs) o n store h =
      store_columns-IsZonedStore ks fs cs o n store h
  store_columns-IsZonedStore (k ∷ ks) (true ∷ fs) (c ∷ cs) o n store h =
      store_columns-IsZonedStore ks fs cs o n _ (
        put-IsZonedStore k _ store
          (append_column_slice-IsZoned (column_of k store) c o n (column_of-IsZoned k store h)) h)

  store_new-IsZonedStore :
      (fuel o : ℕ) (store : Columns D F) (sizes : List ℕ)
      → IsZonedStore of_int zoned zero_double store
      → IsZonedStore of_int zoned zero_double
          (store_new of_int zoned zero_double population keys flags cols count fuel o store sizes).0
  unfolding store_new
  store_new-IsZonedStore zero o store sizes h = h
  store_new-IsZonedStore (suc fuel) o store sizes h = elim (Bool-cases (ltb o count)) [
    | inl e ↦
        rw (e, store_new)
          (store_new-IsZonedStore fuel _ _ _
            (store_columns-IsZonedStore keys flags cols o _ store h))
    | inr e ↦ rw (e, store_new) h
  ]

  store_split-IsZonedStore :
      (fuel o : ℕ) (canonical : List ℕ) (store : Columns D F)
      → IsZonedStore of_int zoned zero_double store
      → IsZonedStore of_int zoned zero_double (
          store_split of_int zoned zero_double population keys flags cols count fuel o canonical
            store)
  unfolding store_split
  store_split-IsZonedStore zero o canonical store h = h
  store_split-IsZonedStore (suc fuel) o canonical store h = elim (Bool-cases (ltb o count)) [
    | inl e ↦
        rw (e, store_split)
          (store_split-IsZonedStore fuel _ _ _
            (store_columns-IsZonedStore keys flags cols o _ store h))
    | inr e ↦ rw (e, store_split) h
  ]

  start_index-IsZonedStore :
      (ks : List String) (fs : List Bool) (store : Columns D F)
      → IsZonedStore of_int zoned zero_double store
      → IsZonedStore of_int zoned zero_double
          (start_index of_int zoned zero_double population keys flags cols count ks fs store).1
  unfolding start_index
  start_index-IsZonedStore [] fs store h = h
  start_index-IsZonedStore (k ∷ ks) [] store h = h
  start_index-IsZonedStore (k ∷ ks) (false ∷ fs) store h = start_index-IsZonedStore ks fs store h
  start_index-IsZonedStore (k ∷ ks) (true ∷ fs) store h =
      let h' = put-IsZonedStore k (column_of k store) store (column_of-IsZoned k store h) h in
      elim (Bool-cases (is_empty (column_of k store).segments)) [
        | inl e ↦ rw e (start_index-IsZonedStore ks fs _ h')
        | inr e ↦ rw e h'
      ]

  store_rows-IsZonedStore :
      (canonical : List ℕ) (store : Columns D F) (sizes : List ℕ)
      → IsZonedStore of_int zoned zero_double store
      → IsZonedStore of_int zoned zero_double
          (store_rows of_int zoned zero_double population keys flags cols count canonical store
            sizes).0
  unfolding store_rows
  store_rows-IsZonedStore [] store sizes h = store_new-IsZonedStore count 0 store sizes h
  store_rows-IsZonedStore (size ∷ canonical) store sizes h =
      store_split-IsZonedStore count 0 _ _ (start_index-IsZonedStore keys flags store h)

  -- Storing keeps the cache's invariant that each segment of each column carries the zone map of its
  -- own rows.
  pub cache_store_segment-IsZonedStore :
      (c : Cache (StoredSegment D F))
      → IsZonedStore of_int zoned zero_double c.store
      → IsZonedStore of_int zoned zero_double
          (cache_store_segment of_int zoned zero_double population keys flags cols count c).store
  unfolding cache_store_segment
  cache_store_segment-IsZonedStore c h = elim (Bool-cases (count == 0)) [
    | inl e ↦ rw e h
    | inr e ↦ rw e (
        store_rows-IsZonedStore
          (canonical_segment_sizes of_int zoned zero_double (table_prefix keys) c) c.store
          (layout_of (table_prefix keys) c).segment_sizes h)
  ]
