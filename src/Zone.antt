-- ===== src/Zone.antt =====
-- src/bridge/mlx_bridge.cpp, ComputeZoneMapT: the bounds that the cache keeps for each segment of a
-- column. An entry of a segment is its value with its validity (`true` where the source has no
-- validity array).
pub mod Bounds
use duckdb_mlx.Common.{◌≤◌, ◌≡◌, refl, Bool, true, false, List, [], ◌∷◌, arith, All, if◌then◌else◌}
use duckdb_mlx.Common.Int64.{Int64, int64_min, int64_max, rank, min_i64, max_i64}

pub record ZoneMap (D : Type 0) : Type 0 where
  pub min_val : D
  pub max_val : D
  pub imin : Int64
  pub imax : Int64
  pub int_lane : Bool
  pub has_null : Bool

-- What the template needs of its type: `numeric_limits`, `std::min`, `std::max` and the casts.
pub record Zoned (D T : Type 0) : Type 0 where
  pub largest : T
  pub lowest : T
  pub zero_value : T
  pub min_of : T → T → T
  pub max_of : T → T → T
  pub to_double : T → D
  pub is_integral : Bool
  pub to_int64 : T → Int64

abbrev pub int64_zoned : {D : Type 0} → (Int64 → D) → Zoned D Int64
int64_zoned of_int = record {
  largest = int64_max;
  lowest = int64_min;
  zero_value = 0;
  min_of = min_i64;
  max_of = max_i64;
  to_double = of_int;
  is_integral = true;
  to_int64 = λ v. v;
}

pub record Scan (T : Type 0) : Type 0 where
  pub lo : T
  pub hi : T
  pub any : Bool
  pub null_seen : Bool

module _ {D T : Type 0} (z : Zoned D T) where
  -- One round of the loop.
  unfoldable pub scan_step : T × Bool → Scan T → Scan T
  scan_step (v, true) s = record s { lo = z.min_of s.lo v; hi = z.max_of s.hi v; any = true }
  scan_step (v, false) s = record s { null_seen = true }

  unfoldable pub scan_loop : List (T × Bool) → Scan T → Scan T
  scan_loop [] s = s
  scan_loop (e ∷ es) s = scan_loop es (scan_step e s)

  abbrev pub scan_start : Scan T
  scan_start = record { lo = z.largest; hi = z.lowest; any = false; null_seen = false }

  unfoldable pub zone_of_scan : D → Scan T → ZoneMap D
  zone_of_scan zero s =
      let lo = if s.any then s.lo else z.zero_value in
      let hi = if s.any then s.hi else z.zero_value in
      record {
        min_val = z.to_double lo;
        max_val = z.to_double hi;
        imin = if z.is_integral then z.to_int64 lo else 0;
        imax = if z.is_integral then z.to_int64 hi else 0;
        int_lane = z.is_integral;
        has_null = s.null_seen;
      }

  -- `zero` is the double 0 of the default fields.
  unfoldable pub compute_zone_map : D → List (T × Bool) → ZoneMap D
  compute_zone_map zero [] = record {
    min_val = zero;
    max_val = zero;
    imin = 0;
    imax = 0;
    int_lane = false;
    has_null = false;
  }
  compute_zone_map zero (e ∷ es) = zone_of_scan zero (scan_loop (e ∷ es) scan_start)

module _ {D T : Type 0} (z : Zoned D T) where
  -- Without `null_seen` the loop has met only valid entries, and without `any` only others.
  pub scan_loop-null_seen :
      (es : List (T × Bool)) (s : Scan T)
      → (scan_loop z es s).null_seen ≡ false
      → (s.null_seen ≡ false) × All (λ e. e.1 ≡ true) es
  unfolding scan_loop scan_step
  scan_loop-null_seen [] s h = (h, tt)
  scan_loop-null_seen ((v, true) ∷ es) s h =
      let (p, q) =
        scan_loop-null_seen es (record s { lo = z.min_of s.lo v; hi = z.max_of s.hi v; any = true })
          h in
      (p, (refl, q))
  scan_loop-null_seen ((v, false) ∷ es) s h =
      let (p, _) = scan_loop-null_seen es (record s { null_seen = true }) h in absurd (cc p)

  pub scan_loop-no_entry :
      (es : List (T × Bool)) (s : Scan T)
      → (scan_loop z es s).any ≡ false
      → (s.any ≡ false) × All (λ e. e.1 ≡ false) es
  unfolding scan_loop scan_step
  scan_loop-no_entry [] s h = (h, tt)
  scan_loop-no_entry ((v, true) ∷ es) s h =
      let (p, _) =
        scan_loop-no_entry es (record s { lo = z.min_of s.lo v; hi = z.max_of s.hi v; any = true })
          h in
      absurd (cc p)
  scan_loop-no_entry ((v, false) ∷ es) s h =
      let (p, q) = scan_loop-no_entry es (record s { null_seen = true }) h in (p, (refl, q))

  -- Where a zone map has no NULL, every entry is valid.
  pub compute_zone_map-valid :
      (zero : D) (es : List (T × Bool))
      → (compute_zone_map z zero es).has_null ≡ false
      → All (λ e. e.1 ≡ true) es
  unfolding compute_zone_map zone_of_scan
  compute_zone_map-valid zero [] h = tt
  compute_zone_map-valid zero (e ∷ es) h = (scan_loop-null_seen (e ∷ es) (scan_start z) h).1

-- A valid entry lies within the bounds, in the signed order.
abbrev pub Within : Int64 → Int64 → Int64 × Bool → Type 0
Within lo hi (v, true) = (rank lo ≤ rank v) × (rank v ≤ rank hi)
Within lo hi (v, false) = Unit

module _ {D : Type 0} (of_int : Int64 → D) where
  abbrev ints : Zoned D Int64
  ints = int64_zoned of_int

  -- The loop only widens the bounds.
  scan_loop-widens :
      (es : List (Int64 × Bool)) (s : Scan Int64)
      → (rank (scan_loop ints es s).lo ≤ rank s.lo) × (rank s.hi ≤ rank (scan_loop ints es s).hi)
  unfolding scan_loop scan_step
  scan_loop-widens [] s = (omega arith, omega arith)
  scan_loop-widens ((v, true) ∷ es) s = ground (
    arith,
    scan_loop-widens es (record s { lo = min_i64 s.lo v; hi = max_i64 s.hi v; any = true }),
  )
  scan_loop-widens ((v, false) ∷ es) s = scan_loop-widens es (record s { null_seen = true })

  scan_loop-All-Within :
      (es : List (Int64 × Bool)) (s : Scan Int64)
      → All (Within (scan_loop ints es s).lo (scan_loop ints es s).hi) es
  unfolding scan_loop scan_step
  scan_loop-All-Within [] s = tt
  scan_loop-All-Within ((v, true) ∷ es) s =
      let s' : Scan Int64 = record s { lo = min_i64 s.lo v; hi = max_i64 s.hi v; any = true } in
      (ground (arith, scan_loop-widens es s'), scan_loop-All-Within es s')
  scan_loop-All-Within ((v, false) ∷ es) s =
      (tt, scan_loop-All-Within es (record s { null_seen = true }))

  Within-invalid :
      (lo hi : Int64) (es : List (Int64 × Bool)) → All (λ e. e.1 ≡ false) es → All (Within lo hi) es
  Within-invalid lo hi [] h = tt
  Within-invalid lo hi ((v, true) ∷ es) (p, h) = absurd (cc p)
  Within-invalid lo hi ((v, false) ∷ es) (p, h) = (tt, Within-invalid lo hi es h)

  -- The bounds that are kept: those of the loop, or 0 where it met no valid entry.
  Within-if :
      (lo hi : Int64) (any : Bool) (es : List (Int64 × Bool))
      → All (Within lo hi) es
      → (any ≡ false → All (λ e. e.1 ≡ false) es)
      → All (Within (if any then lo else 0) (if any then hi else 0)) es
  Within-if lo hi true es h k = h
  Within-if lo hi false es h k = Within-invalid 0 0 es (k refl)

  -- The zone map of a segment of int64 values: every valid value lies between imin and imax in
  -- the signed order, and where has_null is false every value is valid.
  pub compute_zone_map-Within :
      (zero : D) (es : List (Int64 × Bool))
      → All
          (Within
            (compute_zone_map (int64_zoned of_int) zero es).imin
            (compute_zone_map (int64_zoned of_int) zero es).imax)
          es
        × ((compute_zone_map (int64_zoned of_int) zero es).has_null ≡ false
            → All (λ e. e.1 ≡ true) es)
  unfolding compute_zone_map zone_of_scan
  compute_zone_map-Within zero [] = (tt, λ _. tt)
  compute_zone_map-Within zero (e ∷ es) = (
    Within-if _ _ _ (e ∷ es) (scan_loop-All-Within (e ∷ es) (scan_start ints))
        (λ h. (scan_loop-no_entry ints (e ∷ es) (scan_start ints) h).1),
    λ h. compute_zone_map-valid ints zero (e ∷ es) h,
  )

  pub compute_zone_map-int_lane :
      (zero : D) (e : Int64 × Bool) (es : List (Int64 × Bool))
      → (compute_zone_map (int64_zoned of_int) zero (e ∷ es)).int_lane ≡ true
  unfolding compute_zone_map zone_of_scan
  compute_zone_map-int_lane zero e es = refl
