-- ===== src/Cache/Store/Cuts.antt =====
-- How MlxCacheStoreSegment cuts the rows of a call into segments.
use Prim.Native.String.{String}
use mathlib.Core.List.{append_assoc, append-nil, map-append}
use duckdb_mlx.Common.{
  total, ℕ, zero, suc, ◌+◌, ◌-◌, ◌≤◌, ◌<◌, ◌==◌, ◌≡◌, refl, sym, ap, subst, ◌∙◌, ◌⊎◌, Bool, List,
  [], ◌∷◌, ◌++◌, map, ltb, ltb→lt, length, drop, Bool-cases, inl, inr, arith, All,
}
use duckdb_mlx.Common.Int64.{Int64}
use duckdb_mlx.Ir.{ColumnValues, ivalues, fvalues, ColumnData}
use duckdb_mlx.Zone.{Zoned}
use duckdb_mlx.Cache.{Cache, layout_of}
use duckdb_mlx.Cache.Store.{
  StoredSegment, Column, Columns, zone_map_segment_rows, min_of, slice, slice_values, size_of,
  column_of, append_column_slice, store_columns, store_new, start_index, next_take, store_split,
  store_rows, table_prefix, canonical_segment_sizes, cache_store_segment,
}
use duckdb_mlx.Cache.Store.Start.{FlaggedHave, start_index-FlaggedHave}
use duckdb_mlx.Cache.Store.Rows.{
  cells, int_cell, float_cell, IsColumn, IsStored, next_take-pos, All-drop, All-drop_n,
  column_of-store_columns, column_of-start_index,
}

abbrev pub next_size : List ℕ → ℕ
next_size [] = 1000000
next_size (size ∷ _) = size

-- The parts follow the sizes: each part is as large as the next size, which is 1000000 where they end, or
-- it is smaller and the last one.
abbrev pub IsCutAt : List ℕ → List ℕ → Type 0
IsCutAt sizes [] = Unit
IsCutAt sizes (part ∷ parts) =
    ((0 < part) × ((part ≡ next_size sizes) ⊎ ((part ≤ next_size sizes) × (parts ≡ []))))
    × IsCutAt (drop 1 sizes) parts

IsCutAt-total : (sizes parts : List ℕ) → IsCutAt sizes parts → total parts ≡ 0 → parts ≡ []
IsCutAt-total sizes [] h e = refl
IsCutAt-total sizes (part ∷ parts) ((pos, _), _) e = absurd (omega arith)

length-slice : {A : Type 0} (xs : List A) (o n : ℕ) → o + n ≤ length xs → length (slice o n xs) ≡ n
length-slice xs zero zero h = refl
length-slice [] zero (suc n) h = absurd (omega arith)
length-slice (x ∷ xs) zero (suc n) h = ap suc (length-slice xs zero n (omega arith))
length-slice [] (suc o) n h = absurd (omega arith)
length-slice (x ∷ xs) (suc o) n h = length-slice xs o n (omega arith)

length-map : {A B : Type 0} (f : A → B) (xs : List A) → length (map f xs) ≡ length xs
length-map f [] = refl
length-map f (x ∷ xs) = ap suc (length-map f xs)

size_of-slice_values :
    {F : Type 0} (o n m : ℕ) (vs : ColumnValues F)
    → length (cells vs) ≡ m
    → o + n ≤ m
    → size_of (slice_values o n vs) ≡ n
size_of-slice_values o n m (ivalues vs) e h =
    length-slice vs o n (omega (arith, e, length-map int_cell vs))
size_of-slice_values o n m (fvalues vs) e h =
    length-slice vs o n (omega (arith, e, length-map float_cell vs))

next_take-next_size :
    (sizes : List ℕ) (left : ℕ)
    → ((next_take sizes left ≡ next_size sizes) × (next_take sizes left ≤ left))
      ⊎ ((next_take sizes left ≡ left) × (left ≤ next_size sizes))
next_take-next_size [] left = ground arith
next_take-next_size (size ∷ sizes) left = ground arith

min_of-next_take : (left : ℕ) → min_of zone_map_segment_rows left ≡ next_take [] left
min_of-next_take left = ground arith

drop-nil : {A : Type 0} (n : ℕ) → drop {A = A} n [] ≡ []
drop-nil zero = refl
drop-nil (suc n) = refl

module _ {D F : Type 0} (of_int : Int64 → D) (zoned : Zoned D F) (zero_double : D) where
  abbrev pub segment_sizes : Column D F → List ℕ
  segment_sizes col = map (λ (s : StoredSegment D F). size_of s.column.values) col.segments

  sizes-append_column_slice :
      (cached : Column D F) (col : ColumnData F) (o n m population : ℕ)
      → length (cells col.values) ≡ m
      → 0 < n
      → o + n ≤ m
      → segment_sizes (append_column_slice of_int zoned zero_double cached col o n population)
        ≡ segment_sizes cached ++ n ∷ []
  unfolding append_column_slice
  sizes-append_column_slice cached col o zero m population e pos le = absurd (omega arith)
  sizes-append_column_slice cached col o (suc n) m population e pos le =
      map-append _ cached.segments _
      ∙ ap (λ k. segment_sizes cached ++ k ∷ []) (size_of-slice_values o (suc n) m col.values e le)

  module _ (k : String) (col : ColumnData F) (keys : List String) (flags : List Bool)
      (cols : List (ColumnData F)) (population count : ℕ) (stored : IsStored k col keys flags cols)
      (fits : IsColumn count col) where
    abbrev at : ℕ → ℕ → Columns D F → Columns D F
    at o n store = store_columns of_int zoned zero_double keys flags cols o n population store

    -- The column after some rounds has new segments, cut at the sizes, of all rows from `o` on.
    abbrev Cut : List ℕ → ℕ → Columns D F → Columns D F → Type 0
    Cut sizes o store store' =
        (parts : List ℕ) × IsCutAt sizes parts
        × (o + total parts ≡ count)
        × (segment_sizes (column_of k store') ≡ segment_sizes (column_of k store) ++ parts)

    no_rows_left :
        (sizes : List ℕ) (o : ℕ) (store : Columns D F) → o ≡ count → Cut sizes o store store
    no_rows_left sizes o store e = ([], tt, omega (arith, e), sym (append-nil _))

    next_round :
        (sizes : List ℕ) (o : ℕ) (store store' : Columns D F)
        → o < count
        → All (λ size. 0 < size) sizes
        → Cut
            (drop 1 sizes)
            (o + next_take sizes (count - o))
            (at o (next_take sizes (count - o)) store)
            store'
        → Cut sizes o store store'
    next_round sizes o store store' lt positive (parts, is_cut, all, grown) =
        let n : ℕ = next_take sizes (count - o) in
        let pos : 0 < n = next_take-pos sizes (count - o) (omega (arith, lt)) positive in
        let cases = next_take-next_size sizes (count - o) in
        let room : o + n ≤ count = ground (arith, cases, lt) in
        let last : (n ≡ next_size sizes) ⊎ ((n ≤ next_size sizes) × (parts ≡ [])) = elim cases [
          | inl (full, _) ↦ inl full
          | inr (whole, small) ↦ inr (
            omega (arith, whole, small),
            IsCutAt-total (drop 1 sizes) parts is_cut (omega (arith, whole, all, lt)),
          )
        ] in
        (
          n ∷ parts,
          ((pos, last), is_cut),
          omega (arith, all),
          grown
              ∙ ap (λ c. segment_sizes c ++ parts)
                  (column_of-store_columns of_int zoned zero_double k col keys flags cols o n
                    population store stored)
              ∙ ap (λ ns. ns ++ parts)
                  (sizes-append_column_slice (column_of k store) col o n count population (fits.0)
                    pos room)
              ∙ append_assoc (segment_sizes (column_of k store)) (n ∷ []) parts,
        )

    cuts-store_new :
        (fuel o : ℕ) (store : Columns D F) (sizes : List ℕ)
        → o ≤ count
        → count ≤ fuel + o
        → Cut [] o store
            (store_new of_int zoned zero_double population keys flags cols count fuel o store
              sizes).0
    unfolding store_new
    cuts-store_new zero o store sizes le fuel_le = no_rows_left [] o store (omega arith)
    cuts-store_new (suc fuel) o store sizes le fuel_le = elim (Bool-cases (ltb o count)) [
      | inl e ↦
          let lt : o < count = ltb→lt o count e in
          let pos : 0 < next_take [] (count - o) =
            next_take-pos [] (count - o) (omega (arith, lt)) tt in
          rw (e, store_new)
            (next_round [] o store _ lt tt (
              subst
                (λ n.
                  Cut [] (o + n) (at o n store)
                    (store_new of_int zoned zero_double population keys flags cols count fuel
                      (o + min_of zone_map_segment_rows (count - o))
                      (at o (min_of zone_map_segment_rows (count - o)) store)
                      (sizes ++ min_of zone_map_segment_rows (count - o) ∷ [])).0)
                (min_of-next_take (count - o))
                (cuts-store_new fuel _ _ _ (ground (arith, lt)) (ground (arith, lt)))))
      | inr e ↦ rw (e, store_new) (no_rows_left [] o store (ground (arith, e)))
    ]

    cuts-store_split :
        (fuel o : ℕ) (canonical : List ℕ) (store : Columns D F)
        → o ≤ count
        → count ≤ fuel + o
        → All (λ size. 0 < size) canonical
        → Cut canonical o store (
            store_split of_int zoned zero_double population keys flags cols count fuel o canonical
              store)
    unfolding store_split
    cuts-store_split zero o canonical store le fuel_le sizes =
        no_rows_left canonical o store (omega arith)
    cuts-store_split (suc fuel) o canonical store le fuel_le sizes =
        elim (Bool-cases (ltb o count)) [
          | inl e ↦
              let lt : o < count = ltb→lt o count e in
              let pos : 0 < next_take canonical (count - o) =
                next_take-pos canonical (count - o) (omega (arith, lt)) sizes in
              let room : o + next_take canonical (count - o) ≤ count =
                ground (arith, next_take-next_size canonical (count - o), lt) in
              rw (e, store_split)
                (next_round canonical o store _ lt sizes (
                  cuts-store_split fuel _ _ _ room (omega (arith, pos, fuel_le))
                    (All-drop canonical sizes)))
          | inr e ↦ rw (e, store_split) (no_rows_left canonical o store (ground (arith, e)))
        ]

    cuts-store_rows :
        (canonical : List ℕ) (store : Columns D F) (sizes : List ℕ)
        → All (λ size. 0 < size) canonical
        → FlaggedHave (length (column_of k store).segments) keys flags store
        → Cut
            (drop (length (column_of k store).segments) canonical)
            0
            store
            (store_rows of_int zoned zero_double population keys flags cols count canonical store
              sizes).0
    unfolding store_rows
    cuts-store_rows [] store sizes h alike =
        subst
          (λ left.
            Cut left 0 store
              (store_new of_int zoned zero_double population keys flags cols count count 0 store
                sizes).0)
          (sym (drop-nil (length (column_of k store).segments)))
          (cuts-store_new count 0 store sizes (omega arith) (omega arith))
    cuts-store_rows (size ∷ canonical) store sizes h alike =
        let same : (start_index of_int zoned zero_double population keys flags cols count keys flags
              store).0
            ≡ length (column_of k store).segments =
          start_index-FlaggedHave of_int zoned zero_double k col keys flags cols population count
            stored fits (length (column_of k store).segments) keys flags cols store stored alike in
        let (seg_idx, store') =
          start_index of_int zoned zero_double population keys flags cols count keys flags store in
        let (parts, is_cut, all, grown) =
          cuts-store_split count 0 (drop seg_idx (size ∷ canonical)) store' (omega arith)
            (omega arith)
            (All-drop_n of_int zoned zero_double k col keys flags cols population count stored fits
              seg_idx (size ∷ canonical) h) in
        (
          parts,
          subst (λ n. IsCutAt (drop n (size ∷ canonical)) parts) same is_cut,
          all,
          grown
              ∙ ap (λ c. segment_sizes c ++ parts)
                  (column_of-start_index of_int zoned zero_double k col keys flags cols population
                    count stored fits k keys flags store),
        )

    -- Storing a sink's rows cuts them at the sizes of the table's segments: the new segments of a flagged
    -- column have all `count` rows, and each has as many as the next size behind the segments that the
    -- column had, 1000000 behind the last one and in a new table, but for the last segment, which may
    -- have fewer. Conditions: the column has `count` rows, its key stands once among the keys, the sizes
    -- of the table's segments are positive, and the flagged columns have equally many segments.
    pub cache_store_segment-IsCutAt :
        (c : Cache (StoredSegment D F))
        → All
            (λ size. 0 < size)
            (canonical_segment_sizes of_int zoned zero_double (table_prefix keys) c)
        → FlaggedHave (length (column_of k c.store).segments) keys flags c.store
        → (parts : List ℕ) × IsCutAt
            (drop
              (length (column_of k c.store).segments)
              (canonical_segment_sizes of_int zoned zero_double (table_prefix keys) c))
            parts
          × (total parts ≡ count)
          × (segment_sizes (
                column_of k
                  (cache_store_segment of_int zoned zero_double population keys flags cols count
                    c).store)
              ≡ segment_sizes (column_of k c.store) ++ parts)
    unfolding cache_store_segment
    cache_store_segment-IsCutAt c positive alike = elim (Bool-cases (count == 0)) [
      | inl e ↦ rw e ([], tt, ground (arith, e), sym (append-nil _))
      | inr e ↦
          let (parts, is_cut, all, grown) =
            cuts-store_rows (canonical_segment_sizes of_int zoned zero_double (table_prefix keys) c)
              c.store (layout_of (table_prefix keys) c).segment_sizes positive alike in
          rw e (parts, is_cut, omega (arith, all), grown)
    ]
