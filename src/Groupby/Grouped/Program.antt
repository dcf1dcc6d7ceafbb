-- ===== src/Groupby/Grouped/Program.antt =====
-- What one thread's loops over its rows do to a slot.
use mathlib.Core.Bool.{false≢true}
use duckdb_mlx.Common.{
  ℕ, suc, ◌+◌, ◌<◌, ◌≡◌, ◌≢◌, refl, ap, ◌∙◌, Bool, true, false, ◌&&◌, List, Option, none, some,
  ◌==◌, leb, ℤ, pos, negsuc, ◌+ℤ◌, +ℤ_zero, +-IsFold, +ℤ-IsFold, replicate, get_elem?, get_or,
  arith, if◌then◌else◌,
}
use duckdb_mlx.Common.Loops.{
  scatter, map_option, fold_where, fold_where_congr, op-fold_where, get_elem?-scatter, selects,
}
use duckdb_mlx.Ir.{AggKind, sum, count, count_star, avg, min, max}
use duckdb_mlx.Segment.{has_value_graph}
use duckdb_mlx.Groupby.Hash.{GroupedState}
use duckdb_mlx.Groupby.Grouped.{Doubles, LaneArray, slot_of}
use duckdb_mlx.Groupby.Grouped.Host.{
  code_at, passes, dump_slot, group_at, masked_group, program_slot, int_at, sum_slot, merge_int,
  host_count, host_sum, host_extreme, host_program,
}
use duckdb_mlx.Groupby.Grouped.Slots.{
  slot_of-other, slot_of-group, scatter-group, scatter-other, get_or-scatter,
}

abbrev pub is_group : ℤ → ℕ → Bool
is_group (pos c) g = c == g
is_group (negsuc _) g = false

-- Row `i` is in group `g` and its value counts.
abbrev pub in_group : List ℤ → Option (List Bool) → ℕ → ℕ → Bool
in_group codes mask g i = passes mask i && is_group (code_at codes i) g

-- What the rows from `lo` on, `m` of them, do to a value of group `g`.
abbrev pub int_fold :
    {V : Type 0} → List ℤ → ℕ → AggKind → Option (List Bool) → LaneArray V → ℕ → ℕ → ℤ → ℤ
int_fold codes g kind mask e lo m a =
    fold_where (in_group codes mask g) (λ i a. merge_int kind a (int_at e i)) lo m a

abbrev pub count_fold : List ℤ → ℕ → Option (List Bool) → ℕ → ℕ → ℕ → ℕ
count_fold codes g mask lo m c = fold_where (in_group codes mask g) (λ i c. c + 1) lo m c

selects-group_at :
    (b : Bool) (card : ℕ) (c : ℤ) (g : ℕ)
    → g < card
    → selects (if b then group_at card c else none) g ≡ (b && is_group c g)
selects-group_at false card c g h = refl
selects-group_at true card (negsuc c) g h = refl
selects-group_at true card (pos c) g h = at (leb card c) refl
  where
    at : (b : Bool) → leb card c ≡ b → selects (if b then none else some c) g ≡ (c == g)
    at true e = ground (arith, e)
    at false e = refl

dump_slot-is_group : (card : ℕ) (c : ℤ) (g : ℕ) → g < card → (dump_slot card c == g) ≡ is_group c g
dump_slot-is_group card (negsuc c) g h = ground arith
dump_slot-is_group card (pos c) g h = ground arith

module _ (card : ℕ) (codes : List ℤ) (g : ℕ) (hg : g < card) where
  masked_group-in_group :
      (mask : Option (List Bool)) (i : ℕ)
      → selects (masked_group card codes mask i) g ≡ in_group codes mask g i
  masked_group-in_group mask i = selects-group_at (passes mask i) card (code_at codes i) g hg

  sum_slot-in_group :
      (int_lane : Bool) (mask : Option (List Bool)) (i : ℕ)
      → selects (sum_slot card codes int_lane mask i) g ≡ in_group codes mask g i
  sum_slot-in_group false mask i = masked_group-in_group mask i
  sum_slot-in_group true (some mask) i = masked_group-in_group (some mask) i
  sum_slot-in_group true none i = dump_slot-is_group card (code_at codes i) g hg

  -- A sum that is gathered apart and added at the end.
  sum_int :
      {V : Type 0} (lo m : ℕ) (e : LaneArray V) (mask : Option (List Bool)) (a : ℤ)
      → a
          +ℤ get_or
              (scatter
                (sum_slot card codes true mask)
                (λ i a. a +ℤ int_at e i)
                lo
                m
                (replicate (suc card) (pos 0)))
              g
              (pos 0)
        ≡ int_fold codes g sum mask e lo m a
  sum_int lo m e mask a =
      ap (λ x. a +ℤ x)
        (get_or-scatter (sum_slot card codes true mask) (λ i a. a +ℤ int_at e i) lo m (suc card) g
            (pos 0) (omega arith)
          ∙ fold_where_congr (λ i. selects (sum_slot card codes true mask i) g)
              (in_group codes mask g) (λ i a. a +ℤ int_at e i) lo m (pos 0)
              (sum_slot-in_group true mask))
      ∙ op-fold_where +ℤ-IsFold (in_group codes mask g) (int_at e) lo m a (pos 0)
      ∙ ap (fold_where (in_group codes mask g) (λ i a. a +ℤ int_at e i) lo m) (+ℤ_zero a)

  sum_count_at :
      (slot : ℕ → Option ℕ) (mask : Option (List Bool)) (lo m c : ℕ)
      → ((i : ℕ) → selects (slot i) g ≡ in_group codes mask g i)
      → c + get_or (scatter slot (λ i c. c + 1) lo m (replicate (suc card) 0)) g 0
        ≡ count_fold codes g mask lo m c
  sum_count_at slot mask lo m c same =
      let zero_right : c + 0 ≡ c = omega arith in
      ap (λ x. c + x)
        (get_or-scatter slot (λ i c. c + 1) lo m (suc card) g 0 (omega arith)
          ∙ fold_where_congr (λ i. selects (slot i) g) (in_group codes mask g) (λ i c. c + 1) lo m 0
              same)
      ∙ op-fold_where +-IsFold (in_group codes mask g) (λ i. 1) lo m c 0
      ∙ ap (fold_where (in_group codes mask g) (λ i c. c + 1) lo m) zero_right

  module _ (n p : ℕ) (hp : p < n) where
    program_slot-in_group :
        (mask : Option (List Bool)) (i : ℕ)
        → selects (program_slot card n codes p mask i) (slot_of n g p) ≡ in_group codes mask g i
    program_slot-in_group mask i =
        at (masked_group card codes mask i) ∙ masked_group-in_group mask i
      where
        at :
            (o : Option ℕ)
            → selects (map_option (λ k. slot_of n k p) o) (slot_of n g p) ≡ selects o g
        at none = refl
        at (some k) = slot_of-group n g k p hp

    program_slot-other :
        (q : ℕ) (mask : Option (List Bool)) (i : ℕ)
        → q < n
        → q ≢ p
        → selects (program_slot card n codes q mask i) (slot_of n g p) ≡ false
    program_slot-other q mask i hq apart = at (masked_group card codes mask i)
      where
        at : (o : Option ℕ) → selects (map_option (λ k. slot_of n k q) o) (slot_of n g p) ≡ false
        at none = refl
        at (some k) = slot_of-other n g k p q hp hq apart

    -- A table that the rows of program `p` update in place.
    pub rows-in_group :
        {A : Type 0} (mask : Option (List Bool)) (step : ℕ → A → A) (lo m : ℕ) (t : List A)
        → get_elem? (scatter (program_slot card n codes p mask) step lo m t) (slot_of n g p)
          ≡ map_option (fold_where (in_group codes mask g) step lo m) (get_elem? t (slot_of n g p))
    rows-in_group mask step lo m t =
        get_elem?-scatter (program_slot card n codes p mask) step lo m t (slot_of n g p) ∙ (λ i.
          map_option
            (λ a.
              fold_where_congr (λ k. selects (program_slot card n codes p mask k) (slot_of n g p))
                (in_group codes mask g) step lo m a (program_slot-in_group mask) i)
            (get_elem? t (slot_of n g p)))

    -- A table that the groups of program `q` update leaves the slots of `p` alone.
    groups-other :
        {A : Type 0} (q : ℕ) (step : ℕ → A → A) (t : List A)
        → q < n
        → q ≢ p
        → get_elem? (scatter (λ k. some (slot_of n k q)) step 0 card t) (slot_of n g p)
          ≡ get_elem? t (slot_of n g p)
    groups-other q step t hq apart =
        scatter-other (λ k. some (slot_of n k q)) step 0 card (slot_of n g p) t
          (λ k. slot_of-other n g k p q hp hq apart)

    pub rows-other :
        {A : Type 0} (q : ℕ) (mask : Option (List Bool)) (step : ℕ → A → A) (lo m : ℕ) (t : List A)
        → q < n
        → q ≢ p
        → get_elem? (scatter (program_slot card n codes q mask) step lo m t) (slot_of n g p)
          ≡ get_elem? t (slot_of n g p)
    rows-other q mask step lo m t hq apart =
        scatter-other (program_slot card n codes q mask) step lo m (slot_of n g p) t
          (λ i. program_slot-other q mask i hq apart)

    module _ {V F : Type 0} (doubles : Doubles V) (lo m : ℕ) where
      extreme-ivalues-other :
          (q : ℕ) (kind : AggKind) (int_lane : Bool) (e : LaneArray V) (mask : Option (List Bool))
          (t : GroupedState V F)
          → q < n
          → q ≢ p
          → get_elem?
              ((host_extreme doubles card n codes lo m q kind int_lane e mask t).ivalues)
              (slot_of n g p)
            ≡ get_elem? t.ivalues (slot_of n g p)
      unfolding host_extreme
      extreme-ivalues-other q kind false e mask t hq apart = refl
      extreme-ivalues-other q kind true e mask t hq apart =
          rows-other q mask _ lo m t.ivalues hq apart

      sum-ivalues-other :
          (q : ℕ) (int_lane : Bool) (e : LaneArray V) (mask : Option (List Bool))
          (t : GroupedState V F)
          → q < n
          → q ≢ p
          → get_elem?
              ((host_sum doubles card n codes lo m q int_lane e mask t).ivalues)
              (slot_of n g p)
            ≡ get_elem? t.ivalues (slot_of n g p)
      unfolding host_sum
      sum-ivalues-other q int_lane e mask t hq apart = groups-other q _ t.ivalues hq apart

      pub host_program-ivalues-other :
          (q : ℕ) (kind : AggKind) (int_lane : Bool) (e : Option (LaneArray V))
          (mask : Option (List Bool)) (t : GroupedState V F)
          → q < n
          → q ≢ p
          → get_elem?
              ((host_program doubles card n codes lo m q kind int_lane e mask t).ivalues)
              (slot_of n g p)
            ≡ get_elem? t.ivalues (slot_of n g p)
      unfolding host_program host_count
      host_program-ivalues-other q count_star il e mask t hq apart = refl
      host_program-ivalues-other q count il e mask t hq apart = refl
      host_program-ivalues-other q sum il none mask t hq apart = refl
      host_program-ivalues-other q avg il none mask t hq apart = refl
      host_program-ivalues-other q min il none mask t hq apart = refl
      host_program-ivalues-other q max il none mask t hq apart = refl
      host_program-ivalues-other q sum il (some e) mask t hq apart =
          sum-ivalues-other q il e mask t hq apart
      host_program-ivalues-other q avg il (some e) mask t hq apart =
          sum-ivalues-other q il e mask t hq apart
      host_program-ivalues-other q min il (some e) mask t hq apart =
          extreme-ivalues-other q min il e mask t hq apart
      host_program-ivalues-other q max il (some e) mask t hq apart =
          extreme-ivalues-other q max il e mask t hq apart

      sum-ivalues :
          (e : LaneArray V) (mask : Option (List Bool)) (t : GroupedState V F)
          → get_elem? ((host_sum doubles card n codes lo m p true e mask t).ivalues) (slot_of n g p)
            ≡ map_option (int_fold codes g sum mask e lo m) (get_elem? t.ivalues (slot_of n g p))
      unfolding host_sum
      sum-ivalues e mask t =
          scatter-group _ n card g p t.ivalues hp hg
          ∙ (λ i. map_option (λ a. sum_int lo m e mask a i) (get_elem? t.ivalues (slot_of n g p)))

      -- The int64 lane of a program: its rows, in order.
      pub host_program-ivalues :
          (kind : AggKind) (e : LaneArray V) (mask : Option (List Bool)) (t : GroupedState V F)
          → has_value_graph kind ≡ true
          → get_elem?
              ((host_program doubles card n codes lo m p kind true (some e) mask t).ivalues)
              (slot_of n g p)
            ≡ map_option (int_fold codes g kind mask e lo m) (get_elem? t.ivalues (slot_of n g p))
      unfolding host_program host_extreme
      host_program-ivalues count_star e mask t h = absurd (false≢true h)
      host_program-ivalues count e mask t h = absurd (false≢true h)
      host_program-ivalues sum e mask t h = sum-ivalues e mask t
      host_program-ivalues avg e mask t h = sum-ivalues e mask t
      host_program-ivalues min e mask t h = rows-in_group mask _ lo m t.ivalues
      host_program-ivalues max e mask t h = rows-in_group mask _ lo m t.ivalues

      sum-counts :
          (int_lane : Bool) (e : LaneArray V) (mask : Option (List Bool)) (t : GroupedState V F)
          → get_elem?
              ((host_sum doubles card n codes lo m p int_lane e mask t).counts)
              (slot_of n g p)
            ≡ map_option (count_fold codes g mask lo m) (get_elem? t.counts (slot_of n g p))
      unfolding host_sum
      sum-counts int_lane e mask t = scatter-group _ n card g p t.counts hp hg ∙ (λ i.
          map_option
            (λ c.
              sum_count_at (sum_slot card codes int_lane mask) mask lo m c
                (sum_slot-in_group int_lane mask) i)
            (get_elem? t.counts (slot_of n g p)))

      -- Every program but COUNT(*) counts its rows.
      pub host_program-counts :
          (kind : AggKind) (int_lane : Bool) (e : Option (LaneArray V)) (mask : Option (List Bool))
          (t : GroupedState V F)
          → kind ≢ count_star
          → get_elem?
              ((host_program doubles card n codes lo m p kind int_lane e mask t).counts)
              (slot_of n g p)
            ≡ map_option (count_fold codes g mask lo m) (get_elem? t.counts (slot_of n g p))
      unfolding host_program host_extreme host_count
      host_program-counts count_star il e mask t h = absurd (h refl)
      host_program-counts count il e mask t h = rows-in_group mask _ lo m t.counts
      host_program-counts sum il none mask t h = rows-in_group mask _ lo m t.counts
      host_program-counts avg il none mask t h = rows-in_group mask _ lo m t.counts
      host_program-counts min il none mask t h = rows-in_group mask _ lo m t.counts
      host_program-counts max il none mask t h = rows-in_group mask _ lo m t.counts
      host_program-counts sum il (some e) mask t h = sum-counts il e mask t
      host_program-counts avg il (some e) mask t h = sum-counts il e mask t
      host_program-counts min il (some e) mask t h = rows-in_group mask _ lo m t.counts
      host_program-counts max il (some e) mask t h = rows-in_group mask _ lo m t.counts

      pub host_program-counts-other :
          (q : ℕ) (kind : AggKind) (int_lane : Bool) (e : Option (LaneArray V))
          (mask : Option (List Bool)) (t : GroupedState V F)
          → q < n
          → q ≢ p
          → get_elem?
              ((host_program doubles card n codes lo m q kind int_lane e mask t).counts)
              (slot_of n g p)
            ≡ get_elem? t.counts (slot_of n g p)
      unfolding host_program host_extreme host_count host_sum
      host_program-counts-other q count_star il e mask t hq apart = refl
      host_program-counts-other q count il e mask t hq apart =
          rows-other q mask _ lo m t.counts hq apart
      host_program-counts-other q sum il none mask t hq apart =
          rows-other q mask _ lo m t.counts hq apart
      host_program-counts-other q avg il none mask t hq apart =
          rows-other q mask _ lo m t.counts hq apart
      host_program-counts-other q min il none mask t hq apart =
          rows-other q mask _ lo m t.counts hq apart
      host_program-counts-other q max il none mask t hq apart =
          rows-other q mask _ lo m t.counts hq apart
      host_program-counts-other q sum il (some e) mask t hq apart =
          groups-other q _ t.counts hq apart
      host_program-counts-other q avg il (some e) mask t hq apart =
          groups-other q _ t.counts hq apart
      host_program-counts-other q min il (some e) mask t hq apart =
          rows-other q mask _ lo m t.counts hq apart
      host_program-counts-other q max il (some e) mask t hq apart =
          rows-other q mask _ lo m t.counts hq apart
