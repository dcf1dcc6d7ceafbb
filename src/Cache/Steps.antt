-- ===== src/Cache/Steps.antt =====
-- The cache as a state machine: MlxCacheBeginPopulation, MlxCacheStoreSegment, MlxCacheDrop and
-- MlxCacheClearAll, in any order, each under the lock.
use Prim.Native.String.{String}
use text.Mathlib.Text.{◌==◌ as str_eq, starts_with}
use duckdb_mlx.Common.{
  ℕ, Bool, true, false, not, ◌&&◌, ◌==◌, List, [], ◌∷◌, map, inl, inr, Bool-cases, if◌then◌else◌,
}
use duckdb_mlx.Common.Int64.{Int64}
use duckdb_mlx.Common.Assoc.{find}
use duckdb_mlx.Ir.{ColumnData}
use duckdb_mlx.Zone.{Zoned}
use duckdb_mlx.Cache.{
  Cache, erase, erase_prefix, drop_table, is_present, has_mismatch, prepare_layout, plan_columns,
  erase_all, any, begin_population, layout_of,
}
use duckdb_mlx.Cache.Store.{StoredSegment, Columns, cache_store_segment}
use duckdb_mlx.Cache.Store.Correct.{IsZonedStore, cache_store_segment-IsZonedStore}
use duckdb_mlx.Cache.Read.{clear_all}

module _ {D F : Type 0} (of_int : Int64 → D) (zoned : Zoned D F) (zero_double : D) where
  pub data Step : Cache (StoredSegment D F) → Cache (StoredSegment D F) → Type 0 where
    begins :
        (prefix : String) (keys : List String) (rows : ℕ) (c : Cache (StoredSegment D F))
        → Step c (begin_population prefix keys rows c).1
    stores :
        (population : ℕ) (keys : List String) (flags : List Bool) (cols : List (ColumnData F))
        (count : ℕ) (c : Cache (StoredSegment D F))
        → Step c (cache_store_segment of_int zoned zero_double population keys flags cols count c)
    drops : (prefix : String) (c : Cache (StoredSegment D F)) → Step c (drop_table prefix c)
    clears : (c : Cache (StoredSegment D F)) → Step c (clear_all c)

  -- What the program can reach from the empty cache.
  pub data Reachable : Cache (StoredSegment D F) → Type 0 where
    empty : Reachable (record { store = []; layouts = []; counter = 0 })
    next : (c c' : Cache (StoredSegment D F)) → Reachable c → Step c c' → Reachable c'

module _ {D F : Type 0} (of_int : Int64 → D) (zoned : Zoned D F) (zero_double : D) where
  abbrev Fine : Columns D F → Type 0
  Fine store = IsZonedStore of_int zoned zero_double store

  erase-Fine : (k : String) (store : Columns D F) → Fine store → Fine (erase k store)
  erase-Fine k [] h = h
  erase-Fine k ((j, c) ∷ store) (hc, h) = elim (Bool-cases (str_eq j k)) [
    | inl e ↦ rw e (erase-Fine k store h)
    | inr e ↦ rw e (hc, erase-Fine k store h)
  ]

  erase_prefix-Fine :
      (prefix : String) (store : Columns D F) → Fine store → Fine (erase_prefix prefix store)
  erase_prefix-Fine prefix [] h = h
  erase_prefix-Fine prefix ((j, c) ∷ store) (hc, h) = elim (Bool-cases (starts_with j prefix)) [
    | inl e ↦ rw e (erase_prefix-Fine prefix store h)
    | inr e ↦ rw e (hc, erase_prefix-Fine prefix store h)
  ]

  erase_all-Fine : (ks : List String) (store : Columns D F) → Fine store → Fine (erase_all ks store)
  erase_all-Fine [] store h = h
  erase_all-Fine (k ∷ ks) store h = erase_all-Fine ks (erase k store) (erase-Fine k store h)

  plan_columns-Fine :
      (ks : List String) (rows : ℕ) (store : Columns D F)
      → Fine store
      → Fine (plan_columns ks rows store).1
  unfolding plan_columns
  plan_columns-Fine [] rows store h = h
  plan_columns-Fine (k ∷ ks) rows store h = elim (Bool-cases (is_present rows (find k store))) [
    | inl e ↦ rw e (plan_columns-Fine ks rows store h)
    | inr e ↦ rw e (plan_columns-Fine ks rows (erase k store) (erase-Fine k store h))
  ]

  drop_table-Fine :
      (prefix : String) (c : Cache (StoredSegment D F))
      → Fine c.store
      → Fine (drop_table prefix c).store
  unfolding drop_table
  drop_table-Fine prefix c h = erase_prefix-Fine prefix c.store h

  if-Fine : (b : Bool) (s t : Columns D F) → Fine s → Fine t → Fine (if b then s else t)
  if-Fine true s t hs ht = hs
  if-Fine false s t hs ht = ht

  if_cache-Fine :
      (b : Bool) (s t : Cache (StoredSegment D F))
      → Fine s.store
      → Fine t.store
      → Fine (if b then s else t).store
  if_cache-Fine true s t hs ht = hs
  if_cache-Fine false s t hs ht = ht

  prepare_layout-Fine :
      (prefix : String) (rows : ℕ) (c : Cache (StoredSegment D F))
      → Fine c.store
      → Fine (prepare_layout prefix rows c).store
  unfolding prepare_layout
  prepare_layout-Fine prefix rows c h = elim (Bool-cases ((layout_of prefix c).rows == 0)) [
    | inl e ↦ rw e h
    | inr e ↦ elim (Bool-cases ((layout_of prefix c).rows == rows)) [
      | inl f ↦ rw (e, f) h
      | inr f ↦ rw (e, f) (drop_table-Fine prefix c h)
    ]
  ]

  begin_population-Fine :
      (prefix : String) (ks : List String) (rows : ℕ) (c : Cache (StoredSegment D F))
      → Fine c.store
      → Fine (begin_population prefix ks rows c).1.store
  unfolding begin_population
  begin_population-Fine prefix ks rows c h =
      let dropped : Cache (StoredSegment D F) =
        if has_mismatch prefix rows c.store then drop_table prefix c else c in
      let ready = prepare_layout-Fine prefix rows dropped (
        if_cache-Fine (has_mismatch prefix rows c.store) (drop_table prefix c) c
          (drop_table-Fine prefix c h) h) in
      let planned = plan_columns-Fine ks rows (prepare_layout prefix rows dropped).store ready in
      let (flags, store) = plan_columns ks rows (prepare_layout prefix rows dropped).store in
      if-Fine (any flags && any (map not flags)) (erase_all ks store) store
        (erase_all-Fine ks store planned) planned

  -- In every state that the cache can reach, each segment of each column carries the zone map of its own
  -- rows, whatever populations, stores, drops and clears came before.
  pub Reachable-IsZonedStore :
      (c : Cache (StoredSegment D F))
      → Reachable of_int zoned zero_double c
      → IsZonedStore of_int zoned zero_double c.store
  Reachable-IsZonedStore c empty = tt
  Reachable-IsZonedStore c (next b _ before (begins prefix ks rows _)) =
      begin_population-Fine prefix ks rows b (Reachable-IsZonedStore b before)
  Reachable-IsZonedStore c (next b _ before (stores population ks flags cols count _)) =
      cache_store_segment-IsZonedStore of_int zoned zero_double population ks flags cols count b
        (Reachable-IsZonedStore b before)
  Reachable-IsZonedStore c (next b _ before (drops prefix _)) =
      drop_table-Fine prefix b (Reachable-IsZonedStore b before)
  Reachable-IsZonedStore c (next b _ before (clears _)) = unfold clear_all in tt
