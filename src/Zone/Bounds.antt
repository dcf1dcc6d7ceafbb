-- ===== src/Zone/Bounds.antt =====
-- The bounds of a zone map as doubles, for any type of entries: what a test of the bounds says of the rows.
use duckdb_mlx.Common.{◌≡◌, refl, Bool, true, false, List, [], ◌∷◌, All, if◌then◌else◌}
use duckdb_mlx.Zone.{
  Zoned, Scan, scan_step, scan_loop, scan_start, zone_of_scan, compute_zone_map,
  scan_loop-null_seen, scan_loop-no_entry,
}

module _ {D T : Type 0} (z : Zoned D T) where
  -- `low` and `high` hold of both of two values where they hold of the least and of the greatest one, if
  -- the first is a number.
  module _ (number low high : T → Type 0)
      (min_number : (a b : T) → number a → number (z.min_of a b))
      (max_number : (a b : T) → number a → number (z.max_of a b))
      (low_min : (a b : T) → number a → low (z.min_of a b) → low a × low b)
      (high_max : (a b : T) → number a → high (z.max_of a b) → high a × high b) where
    abbrev Between : T × Bool → Type 0
    Between (v, true) = low v × high v
    Between (v, false) = Unit

    scan_loop-Between :
        (es : List (T × Bool)) (s : Scan T)
        → number s.lo
        → number s.hi
        → low (scan_loop z es s).lo
        → high (scan_loop z es s).hi
        → (low s.lo × high s.hi) × All Between es
    unfolding scan_loop scan_step
    scan_loop-Between [] s nl nh l h = ((l, h), tt)
    scan_loop-Between ((v, false) ∷ es) s nl nh l h =
        let (at, rest) = scan_loop-Between es (record s { null_seen = true }) nl nh l h in
        (at, (tt, rest))
    scan_loop-Between ((v, true) ∷ es) s nl nh l h =
        let ((l', h'), rest) =
          scan_loop-Between es (record s { lo = z.min_of s.lo v; hi = z.max_of s.hi v; any = true })
            (min_number s.lo v nl) (max_number s.hi v nh) l h in
        let (la, lb) = low_min s.lo v nl l' in
        let (ha, hb) = high_max s.hi v nh h' in ((la, ha), ((lb, hb), rest))

    Between-invalid : (es : List (T × Bool)) → All (λ e. e.1 ≡ false) es → All Between es
    Between-invalid [] h = tt
    Between-invalid ((v, true) ∷ es) (p, h) = absurd (cc p)
    Between-invalid ((v, false) ∷ es) (p, h) = (tt, Between-invalid es h)

    kept_bounds :
        (es : List (T × Bool)) (any : Bool) (lo hi : T)
        → (any ≡ false → All (λ e. e.1 ≡ false) es)
        → (low lo → high hi → All Between es)
        → low (if any then lo else z.zero_value)
        → high (if any then hi else z.zero_value)
        → All Between es
    kept_bounds es true lo hi none_met between l h = between l h
    kept_bounds es false lo hi none_met between l h = Between-invalid es (none_met refl)

    Between-All :
        (es : List (T × Bool))
        → All (λ e. e.1 ≡ true) es
        → All Between es
        → All (λ e. (e.1 ≡ true) × (low (e.0) × high (e.0))) es
    Between-All [] v b = tt
    Between-All ((x, true) ∷ es) (v, vs) (b, bs) = ((refl, b), Between-All es vs bs)
    Between-All ((x, false) ∷ es) (v, vs) b = absurd (cc v)

    -- Where the bounds of a scan without NULL are `low` and `high`, so is every entry.
    pub scan_loop-bounds :
        (e : T × Bool) (es : List (T × Bool))
        → number z.largest
        → number z.lowest
        → All (λ e. e.1 ≡ true) (e ∷ es)
        → low (
            if (scan_loop z (e ∷ es) (scan_start z)).any
            then (scan_loop z (e ∷ es) (scan_start z)).lo
            else z.zero_value)
        → high (
            if (scan_loop z (e ∷ es) (scan_start z)).any
            then (scan_loop z (e ∷ es) (scan_start z)).hi
            else z.zero_value)
        → All (λ e. (e.1 ≡ true) × (low (e.0) × high (e.0))) (e ∷ es)
    scan_loop-bounds e es nl nh valid l h =
        let last : Scan T = scan_loop z (e ∷ es) (scan_start z) in
        Between-All (e ∷ es) valid (
          kept_bounds (e ∷ es) last.any last.lo last.hi
            (λ p. (scan_loop-no_entry z (e ∷ es) (scan_start z) p).1)
            (λ l' h'. (scan_loop-Between (e ∷ es) (scan_start z) nl nh l' h').1) l h)

  -- Where a zone map has no NULL and its bounds are `low` and `high`, every entry is valid and so is its
  -- value.
  pub compute_zone_map-bounds :
      (number : T → Type 0) (low high : D → Type 0)
      → ((a b : T) → number a → number (z.min_of a b))
      → ((a b : T) → number a → number (z.max_of a b))
      → ((a b : T)
          → number a
          → low (z.to_double (z.min_of a b))
          → low (z.to_double a) × low (z.to_double b))
      → ((a b : T)
          → number a
          → high (z.to_double (z.max_of a b))
          → high (z.to_double a) × high (z.to_double b))
      → number z.largest
      → number z.lowest
      → (zero : D) (es : List (T × Bool)) → (compute_zone_map z zero es).has_null ≡ false
      → low (compute_zone_map z zero es).min_val
      → high (compute_zone_map z zero es).max_val
      → All (λ e. (e.1 ≡ true) × (low (z.to_double (e.0)) × high (z.to_double (e.0)))) es
  unfolding compute_zone_map zone_of_scan
  compute_zone_map-bounds number low high nmin nmax lmin hmax nl nh zero [] null l h = tt
  compute_zone_map-bounds number low high nmin nmax lmin hmax nl nh zero (e ∷ es) null l h =
      scan_loop-bounds number (λ v. low (z.to_double v)) (λ v. high (z.to_double v)) nmin nmax lmin
        hmax e es nl nh ((scan_loop-null_seen z (e ∷ es) (scan_start z) null).1) l h
