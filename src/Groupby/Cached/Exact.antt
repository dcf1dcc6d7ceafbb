-- ===== src/Groupby/Cached/Exact.antt =====
-- What MlxGroupbyCachedSafe's test of the zone maps says of the rows of the columns, and the answer of
-- MlxGroupbySumCached where it passes.
use mathlib.Core.Bool.{false≢true}
use duckdb_mlx.Common.{
  ◌≡◌, refl, subst, Bool, true, false, ◌||◌, List, [], ◌∷◌, map, Option, All, if◌then◌else◌,
}
use duckdb_mlx.Common.Int64.{Int64}
use duckdb_mlx.Ir.{ColumnValues, ivalues, fvalues}
use duckdb_mlx.Prune.{DoubleOrder}
use duckdb_mlx.Zone.{ZoneMap, Zoned, int64_zoned, compute_zone_map, compute_zone_map-valid}
use duckdb_mlx.Zone.Bounds.{compute_zone_map-bounds}
use duckdb_mlx.Cache.Store.{StoredSegment, with_valid, zone_map_of}
use duckdb_mlx.Groupby.Cached.{fp32_exact, minus_fp32_exact, keys_exact, no_nulls}

-- The order of doubles on the values of a type: `std::min` and `std::max` of a number and any value are
-- numbers, and what is not below the least and not above the greatest of two values is so of both. A NaN
-- is not equal to itself.
pub record KeepsBounds {D T : Type 0} (O : DoubleOrder D) (z : Zoned D T) : Type 0 where
  pub largest_number : O.eq_d (z.to_double z.largest) (z.to_double z.largest) ≡ true
  pub lowest_number : O.eq_d (z.to_double z.lowest) (z.to_double z.lowest) ≡ true
  pub min_number :
      (a b : T)
      → O.eq_d (z.to_double a) (z.to_double a) ≡ true
      → O.eq_d (z.to_double (z.min_of a b)) (z.to_double (z.min_of a b)) ≡ true
  pub max_number :
      (a b : T)
      → O.eq_d (z.to_double a) (z.to_double a) ≡ true
      → O.eq_d (z.to_double (z.max_of a b)) (z.to_double (z.max_of a b)) ≡ true
  pub not_below :
      (k : D) (a b : T)
      → O.eq_d (z.to_double a) (z.to_double a) ≡ true
      → O.lt_d (z.to_double (z.min_of a b)) k ≡ false
      → (O.lt_d (z.to_double a) k ≡ false) × (O.lt_d (z.to_double b) k ≡ false)
  pub not_above :
      (k : D) (a b : T)
      → O.eq_d (z.to_double a) (z.to_double a) ≡ true
      → O.lt_d k (z.to_double (z.max_of a b)) ≡ false
      → (O.lt_d k (z.to_double a) ≡ false) × (O.lt_d k (z.to_double b) ≡ false)

-- The three tests of `keys_exact` at a zone map, from their sum.
or_false :
    (a b c rest : Bool)
    → (if a || b || c then false else rest) ≡ true
    → ((a ≡ false) × ((b ≡ false) × (c ≡ false))) × (rest ≡ true)
or_false true b c rest h = absurd (false≢true h)
or_false false true c rest h = absurd (false≢true h)
or_false false false true rest h = absurd (false≢true h)
or_false false false false rest h = ((refl, (refl, refl)), h)

if_false : (a rest : Bool) → (if a then false else rest) ≡ true → (a ≡ false) × (rest ≡ true)
if_false true rest h = absurd (false≢true h)
if_false false rest h = (refl, h)

module _ {D T : Type 0} (O : DoubleOrder D) (of_int : Int64 → D) (z : Zoned D T) where
  bounds_exact :
      (zero : D)
      → KeepsBounds O z
      → (es : List (T × Bool)) → (compute_zone_map z zero es).has_null ≡ false
      → O.lt_d (compute_zone_map z zero es).min_val (of_int minus_fp32_exact) ≡ false
      → O.lt_d (of_int fp32_exact) (compute_zone_map z zero es).max_val ≡ false
      → All
          (λ e.
            (e.1 ≡ true)
            × ((O.lt_d (z.to_double (e.0)) (of_int minus_fp32_exact) ≡ false)
                × (O.lt_d (of_int fp32_exact) (z.to_double (e.0)) ≡ false)))
          es
  bounds_exact zero keeps es null low high =
      compute_zone_map-bounds z (λ v. O.eq_d (z.to_double v) (z.to_double v) ≡ true)
        (λ d. O.lt_d d (of_int minus_fp32_exact) ≡ false)
        (λ d. O.lt_d (of_int fp32_exact) d ≡ false) keeps.min_number keeps.max_number
        (keeps.not_below (of_int minus_fp32_exact)) (keeps.not_above (of_int fp32_exact))
        keeps.largest_number keeps.lowest_number zero es null low high

module _ {D F : Type 0} (of_int : Int64 → D) (zoned : Zoned D F) where
  -- A predicate of the value as a double and of the validity holds of every entry.
  abbrev pub EachEntry : (D → Bool → Type 0) → ColumnValues F → Option (List Bool) → Type 0
  EachEntry P (ivalues vs) valid = All (λ e. P (of_int (e.0)) (e.1)) (with_valid vs valid)
  EachEntry P (fvalues vs) valid = All (λ e. P (zoned.to_double (e.0)) (e.1)) (with_valid vs valid)

  -- The entry is not NULL.
  abbrev pub Present : D → Bool → Type 0
  Present d valid = valid ≡ true

  abbrev pub EachSegment : (D → Bool → Type 0) → List (StoredSegment D F) → Type 0
  EachSegment P segs =
      All (λ (s : StoredSegment D F). EachEntry P s.column.values s.column.valid) segs

  module _ (O : DoubleOrder D) where
    -- The entry is not NULL, and its value is not below -2 ^ 24 and not above 2 ^ 24.
    abbrev pub Exact : D → Bool → Type 0
    Exact d valid =
        (valid ≡ true)
        × ((O.lt_d d (of_int minus_fp32_exact) ≡ false) × (O.lt_d (of_int fp32_exact) d ≡ false))

    module _ (zero_double : D) where
      zone_map_of-Present :
          (vs : ColumnValues F) (valid : Option (List Bool))
          → (zone_map_of of_int zoned zero_double (record { values = vs; valid = valid })).has_null
            ≡ false
          → EachEntry Present vs valid
      unfolding zone_map_of
      zone_map_of-Present (ivalues vs) valid h =
          compute_zone_map-valid (int64_zoned of_int) zero_double (with_valid vs valid) h
      zone_map_of-Present (fvalues vs) valid h =
          compute_zone_map-valid zoned zero_double (with_valid vs valid) h

      pub no_nulls-EachSegment :
          (segs : List (StoredSegment D F))
          → All
              (λ (s : StoredSegment D F).
                s.zone_map ≡ zone_map_of of_int zoned zero_double s.column)
              segs
          → no_nulls (map (λ (s : StoredSegment D F). s.zone_map) segs) ≡ true
          → EachSegment Present segs
      unfolding no_nulls
      no_nulls-EachSegment [] own h = tt
      no_nulls-EachSegment (s ∷ segs) (own, owns) h =
          let (present, rest) = if_false s.zone_map.has_null _ h in
          (
            zone_map_of-Present s.column.values s.column.valid
                (subst (λ (m : ZoneMap D). m.has_null ≡ false) own present),
            no_nulls-EachSegment segs owns rest,
          )

      zone_map_of-Exact :
          (vs : ColumnValues F) (valid : Option (List Bool)) (m : ZoneMap D)
          → KeepsBounds O (int64_zoned of_int)
          → KeepsBounds O zoned
          → m ≡ zone_map_of of_int zoned zero_double (record { values = vs; valid = valid })
          → (m.has_null ≡ false)
            × ((O.lt_d m.min_val (of_int minus_fp32_exact) ≡ false)
                × (O.lt_d (of_int fp32_exact) m.max_val ≡ false))
          → EachEntry Exact vs valid
      unfolding zone_map_of
      zone_map_of-Exact (ivalues vs) valid m ints floats own h =
          let (null, (low, high)) =
            subst
              (λ (m : ZoneMap D).
                (m.has_null ≡ false)
                × ((O.lt_d m.min_val (of_int minus_fp32_exact) ≡ false)
                    × (O.lt_d (of_int fp32_exact) m.max_val ≡ false)))
              own h in
          bounds_exact O of_int (int64_zoned of_int) zero_double ints (with_valid vs valid) null low
            high
      zone_map_of-Exact (fvalues vs) valid m ints floats own h =
          let (null, (low, high)) =
            subst
              (λ (m : ZoneMap D).
                (m.has_null ≡ false)
                × ((O.lt_d m.min_val (of_int minus_fp32_exact) ≡ false)
                    × (O.lt_d (of_int fp32_exact) m.max_val ≡ false)))
              own h in
          bounds_exact O of_int zoned zero_double floats (with_valid vs valid) null low high

      pub keys_exact-EachSegment :
          (segs : List (StoredSegment D F))
          → KeepsBounds O (int64_zoned of_int)
          → KeepsBounds O zoned
          → All
              (λ (s : StoredSegment D F).
                s.zone_map ≡ zone_map_of of_int zoned zero_double s.column)
              segs
          → keys_exact O of_int (map (λ (s : StoredSegment D F). s.zone_map) segs) ≡ true
          → EachSegment Exact segs
      unfolding keys_exact
      keys_exact-EachSegment [] ints floats own h = tt
      keys_exact-EachSegment (s ∷ segs) ints floats (own, owns) h =
          let (tests, rest) = or_false s.zone_map.has_null _ _ _ h in
          (
            zone_map_of-Exact s.column.values s.column.valid s.zone_map ints floats own tests,
            keys_exact-EachSegment segs ints floats owns rest,
          )
