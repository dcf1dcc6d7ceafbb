-- ===== src/Cache/Store/Rows.antt =====
-- What a sink stores: the rows of a column as its segments hold them, in order.
use Prim.Native.String.{String}
use text.Mathlib.Text.{◌==◌ as str_eq}
use mathlib.Core.List.{append_assoc, append-nil}
use duckdb_mlx.Common.{
  ℕ, zero, suc, ◌+◌, ◌-◌, ◌≤◌, ◌<◌, ◌≡◌, refl, sym, ap, subst, ◌∙◌, Bool, true, false, List, [],
  ◌∷◌, ◌++◌, map, Option, none, some, ltb, ltb→lt, length, drop, take-drop, drop-drop, drop_all,
  Bool-cases, inl, inr, arith, All, if◌then◌else◌,
}
use duckdb_mlx.Common.Int64.{Int64}
use duckdb_mlx.Common.Assoc.{put, find-put_self, find-put_other, str_eq→eq}
use duckdb_mlx.Ir.{ColumnValues, ivalues, fvalues, ColumnData}
use duckdb_mlx.Zone.{Zoned}
use duckdb_mlx.Segment.{is_empty}
use duckdb_mlx.Planner.Column.Rows.{rows_of}
use duckdb_mlx.Cache.Store.{
  StoredSegment, zone_map_segment_rows, min_of, slice, slice_column, Column, Columns, or_empty,
  append_column_slice, column_of, store_columns, store_new, start_index, next_take, store_split,
  store_rows,
}

-- A value of either lane.
pub data Cell (F : Type 0) : Type 0 where
  int_cell : Int64 → Cell F
  float_cell : F → Cell F

abbrev pub cells : {F : Type 0} → ColumnValues F → List (Cell F)
cells (ivalues vs) = map int_cell vs
cells (fvalues vs) = map float_cell vs

abbrev pub flags_of : Option (List Bool) → List Bool
flags_of none = []
flags_of (some valid) = valid

-- The rows of a column: a value, or NULL.
abbrev pub column_rows : {F : Type 0} → ColumnData F → List (Option (Cell F))
column_rows col = rows_of (cells col.values) (flags_of col.valid)

abbrev pub HasFlags : ℕ → Option (List Bool) → Type 0
HasFlags n none = Unit
HasFlags n (some valid) = length valid ≡ n

-- A column of `n` rows.
abbrev pub IsColumn : {F : Type 0} → ℕ → ColumnData F → Type 0
IsColumn n col = (length (cells col.values) ≡ n) × HasFlags n col.valid

abbrev pub segments_rows : {D F : Type 0} → List (StoredSegment D F) → List (Option (Cell F))
segments_rows [] = []
segments_rows (s ∷ ss) = column_rows s.column ++ segments_rows ss

segments_rows-append :
    {D F : Type 0} (ss ts : List (StoredSegment D F))
    → segments_rows (ss ++ ts) ≡ segments_rows ss ++ segments_rows ts
segments_rows-append [] ts = refl
segments_rows-append (s ∷ ss) ts =
    ap (◌++◌ (column_rows s.column)) (segments_rows-append ss ts)
    ∙ sym (append_assoc (column_rows s.column) (segments_rows ss) (segments_rows ts))

min_of-pos : (a b : ℕ) → 0 < a → 0 < b → 0 < min_of a b
min_of-pos a b ha hb = ground arith

pub next_take-pos :
    (canonical : List ℕ) (left : ℕ)
    → 0 < left
    → All (λ size. 0 < size) canonical
    → 0 < next_take canonical left
next_take-pos [] left h sizes = min_of-pos left zone_map_segment_rows h (omega arith)
next_take-pos (size ∷ canonical) left h (pos, sizes) = min_of-pos left size h pos

pub All-drop : (xs : List ℕ) → All (λ size. 0 < size) xs → All (λ size. 0 < size) (drop 1 xs)
All-drop [] h = h
All-drop (x ∷ xs) (h, hs) = hs

module _ {A : Type 0} where
  rows_of-slice :
      (o n : ℕ) (xs : List A) (ps : List Bool)
      → length ps ≡ length xs
      → rows_of (slice o n xs) (slice o n ps) ≡ slice o n (rows_of xs ps)
  rows_of-slice zero zero xs ps h = refl
  rows_of-slice zero (suc n) [] [] h = refl
  rows_of-slice zero (suc n) (x ∷ xs) [] h = absurd (omega arith)
  rows_of-slice zero (suc n) [] (p ∷ ps) h = absurd (omega arith)
  rows_of-slice zero (suc n) (x ∷ xs) (p ∷ ps) h =
      ap (◌∷◌ (if p then some x else none)) (rows_of-slice zero n xs ps (omega arith))
  rows_of-slice (suc o) zero xs ps h = refl
  rows_of-slice (suc o) (suc n) [] [] h = refl
  rows_of-slice (suc o) n (x ∷ xs) [] h = absurd (omega arith)
  rows_of-slice (suc o) n [] (p ∷ ps) h = absurd (omega arith)
  rows_of-slice (suc o) n (x ∷ xs) (p ∷ ps) h = rows_of-slice o n xs ps (omega arith)

  rows_of-slice_nil :
      (o n : ℕ) (xs : List A) → rows_of (slice o n xs) [] ≡ slice o n (rows_of xs [])
  rows_of-slice_nil zero zero xs = refl
  rows_of-slice_nil zero (suc n) [] = refl
  rows_of-slice_nil zero (suc n) (x ∷ xs) = ap (◌∷◌ (some x)) (rows_of-slice_nil zero n xs)
  rows_of-slice_nil (suc o) zero xs = refl
  rows_of-slice_nil (suc o) (suc n) [] = refl
  rows_of-slice_nil (suc o) n (x ∷ xs) = rows_of-slice_nil o n xs

  pub length-rows_of : (xs : List A) (ps : List Bool) → length (rows_of xs ps) ≡ length xs
  length-rows_of [] ps = refl
  length-rows_of (x ∷ xs) [] = ap suc (length-rows_of xs [])
  length-rows_of (x ∷ xs) (p ∷ ps) = ap suc (length-rows_of xs ps)

map-slice :
    {A B : Type 0} (f : A → B) (o n : ℕ) (xs : List A) → map f (slice o n xs) ≡ slice o n (map f xs)
map-slice f zero zero xs = refl
map-slice f zero (suc n) [] = refl
map-slice f zero (suc n) (x ∷ xs) = ap (◌∷◌ (f x)) (map-slice f zero n xs)
map-slice f (suc o) zero xs = refl
map-slice f (suc o) (suc n) [] = refl
map-slice f (suc o) n (x ∷ xs) = map-slice f o n xs

rows-slice_column :
    {F : Type 0} (o n m : ℕ) (vs : ColumnValues F) (valid : Option (List Bool))
    → IsColumn m (record { values = vs; valid = valid })
    → column_rows (slice_column o n (record { values = vs; valid = valid }))
      ≡ slice o n (column_rows (record { values = vs; valid = valid }))
rows-slice_column {F = F} o n m (ivalues vs) none h =
    rw (map-slice {B = Cell F} int_cell o n vs) (rows_of-slice_nil o n (map int_cell vs))
rows-slice_column {F = F} o n m (fvalues vs) none h =
    rw (map-slice {B = Cell F} float_cell o n vs) (rows_of-slice_nil o n (map float_cell vs))
rows-slice_column {F = F} o n m (ivalues vs) (some valid) (long, flags) =
    rw (map-slice {B = Cell F} int_cell o n vs)
      (rows_of-slice o n (map int_cell vs) valid (flags ∙ sym long))
rows-slice_column {F = F} o n m (fvalues vs) (some valid) (long, flags) =
    rw (map-slice {B = Cell F} float_cell o n vs)
      (rows_of-slice o n (map float_cell vs) valid (flags ∙ sym long))

-- `k` is a key of the call with the column `col` that is to be stored, and no other key is `k`.
pub data IsStored {F : Type 0} (k : String) (col : ColumnData F)
    : List String → List Bool → List (ColumnData F) → Type 0 where
  here :
      (keys : List String) (flags : List Bool) (cols : List (ColumnData F))
      → All (λ j. str_eq j k ≡ false) keys
      → IsStored k col (k ∷ keys) (true ∷ flags) (col ∷ cols)
  there :
      (j : String) (flag : Bool) (c : ColumnData F) (keys : List String) (flags : List Bool)
      (cols : List (ColumnData F))
      → str_eq j k ≡ false
      → IsStored k col keys flags cols
      → IsStored k col (j ∷ keys) (flag ∷ flags) (c ∷ cols)

module _ {D F : Type 0} (of_int : Int64 → D) (zoned : Zoned D F) (zero_double : D) where
  abbrev pub stored_rows : Column D F → List (Option (Cell F))
  stored_rows col = segments_rows col.segments

  rows-append_column_slice :
      (cached : Column D F) (col : ColumnData F) (o n m population : ℕ)
      → IsColumn m col
      → stored_rows (append_column_slice of_int zoned zero_double cached col o n population)
        ≡ stored_rows cached ++ slice o n (column_rows col)
  unfolding append_column_slice
  rows-append_column_slice cached col o zero m population h = sym (append-nil (stored_rows cached))
  rows-append_column_slice cached col o (suc n) m population h =
      segments_rows-append cached.segments _
      ∙ ap (◌++◌ (stored_rows cached))
          (append-nil _ ∙ rows-slice_column o (suc n) m col.values col.valid h)

  column_of-put_other :
      (k j : String) (c : Column D F) (store : Columns D F)
      → str_eq k j ≡ false
      → column_of j (put k c store) ≡ column_of j store
  column_of-put_other k j c store ne = ap or_empty (find-put_other k j c store ne)

  store_columns-other :
      (k : String) (keys : List String) (flags : List Bool) (cols : List (ColumnData F))
      (o n population : ℕ) (store : Columns D F)
      → All (λ j. str_eq j k ≡ false) keys
      → column_of k (store_columns of_int zoned zero_double keys flags cols o n population store)
        ≡ column_of k store
  unfolding store_columns
  store_columns-other k [] flags cols o n population store h = refl
  store_columns-other k (j ∷ keys) [] cols o n population store h = refl
  store_columns-other k (j ∷ keys) (flag ∷ flags) [] o n population store h = refl
  store_columns-other k (j ∷ keys) (false ∷ flags) (c ∷ cols) o n population store (ne, h) =
      store_columns-other k keys flags cols o n population store h
  store_columns-other k (j ∷ keys) (true ∷ flags) (c ∷ cols) o n population store (ne, h) =
      store_columns-other k keys flags cols o n population _ h ∙ column_of-put_other j k _ store ne

  pub column_of-store_columns :
      (k : String) (col : ColumnData F) (keys : List String) (flags : List Bool)
      (cols : List (ColumnData F)) (o n population : ℕ) (store : Columns D F)
      → IsStored k col keys flags cols
      → column_of k (store_columns of_int zoned zero_double keys flags cols o n population store)
        ≡ append_column_slice of_int zoned zero_double (column_of k store) col o n population
  unfolding store_columns
  column_of-store_columns k col _ _ _ o n population store (here keys flags cols other) =
      store_columns-other k keys flags cols o n population _ other
      ∙ ap or_empty (
          find-put_self k
            (append_column_slice of_int zoned zero_double (column_of k store) col o n population)
            store)
  column_of-store_columns k col _ _ _ o n population store (there j true c keys flags cols ne at) =
      column_of-store_columns k col keys flags cols o n population _ at
      ∙ ap (λ c. append_column_slice of_int zoned zero_double c col o n population)
          (column_of-put_other j k _ store ne)
  column_of-store_columns k col _ _ _ o n population store (there j false c keys flags cols ne at) =
      column_of-store_columns k col keys flags cols o n population store at

  module _ (k : String) (col : ColumnData F) (keys : List String) (flags : List Bool)
      (cols : List (ColumnData F)) (population count : ℕ) (stored : IsStored k col keys flags cols)
      (fits : IsColumn count col) where
    abbrev store_at : ℕ → ℕ → Columns D F → Columns D F
    store_at o n store = store_columns of_int zoned zero_double keys flags cols o n population store

    rows-store_columns :
        (o n : ℕ) (store : Columns D F)
        → stored_rows (column_of k (store_at o n store))
          ≡ stored_rows (column_of k store) ++ slice o n (column_rows col)
    rows-store_columns o n store =
        ap stored_rows (column_of-store_columns k col keys flags cols o n population store stored)
        ∙ rows-append_column_slice (column_of k store) col o n count population fits

    -- What one round stores and what the later rounds store.
    rows_join :
        (o n : ℕ) (store store' : Columns D F)
        → stored_rows (column_of k store')
          ≡ stored_rows (column_of k (store_at o n store)) ++ drop (o + n) (column_rows col)
        → stored_rows (column_of k store')
          ≡ stored_rows (column_of k store) ++ drop o (column_rows col)
    rows_join o n store store' e =
        e
        ∙ ap (λ rs. rs ++ drop (o + n) (column_rows col)) (rows-store_columns o n store)
        ∙ append_assoc (stored_rows (column_of k store)) (slice o n (column_rows col)) _
        ∙ ap (◌++◌ (stored_rows (column_of k store))) (
            ap (◌++◌ (slice o n (column_rows col)))
              (sym (drop-drop (column_rows col) o n (o + n) refl))
            ∙ take-drop (drop o (column_rows col)) n)

    rows_end :
        (o : ℕ) (store : Columns D F)
        → count ≤ o
        → stored_rows (column_of k store)
          ≡ stored_rows (column_of k store) ++ drop o (column_rows col)
    rows_end o store le = sym (
        ap (◌++◌ (stored_rows (column_of k store))) (
          drop_all (column_rows col) o
            (omega (arith, length-rows_of (cells col.values) (flags_of col.valid), fits.0)))
        ∙ append-nil (stored_rows (column_of k store)))

    rows-store_new :
        (fuel o : ℕ) (store : Columns D F) (sizes : List ℕ)
        → count ≤ fuel + o
        → stored_rows (
            column_of k
              (store_new of_int zoned zero_double population keys flags cols count fuel o store
                sizes).0)
          ≡ stored_rows (column_of k store) ++ drop o (column_rows col)
    unfolding store_new
    rows-store_new zero o store sizes le = rows_end o store (omega arith)
    rows-store_new (suc fuel) o store sizes le = elim (Bool-cases (ltb o count)) [
      | inl e ↦
          let n : ℕ = min_of zone_map_segment_rows (count - o) in
          let pos : 0 < n =
            min_of-pos zone_map_segment_rows (count - o) (omega arith)
              (omega (arith, ltb→lt o count e)) in
          rw (e, store_new)
            (rows_join o n store _ (
              rows-store_new fuel (o + n) (store_at o n store) (sizes ++ n ∷ [])
                (omega (arith, pos))))
      | inr e ↦ rw (e, store_new) (rows_end o store (ground (arith, e)))
    ]

    rows-store_split :
        (fuel o : ℕ) (canonical : List ℕ) (store : Columns D F)
        → count ≤ fuel + o
        → All (λ size. 0 < size) canonical
        → stored_rows (
            column_of k (
              store_split of_int zoned zero_double population keys flags cols count fuel o canonical
                store))
          ≡ stored_rows (column_of k store) ++ drop o (column_rows col)
    unfolding store_split
    rows-store_split zero o canonical store le sizes = rows_end o store (omega arith)
    rows-store_split (suc fuel) o canonical store le sizes = elim (Bool-cases (ltb o count)) [
      | inl e ↦
          let n : ℕ = next_take canonical (count - o) in
          let pos : 0 < n =
            next_take-pos canonical (count - o) (omega (arith, ltb→lt o count e)) sizes in
          rw (e, store_split)
            (rows_join o n store _ (
              rows-store_split fuel (o + n) (drop 1 canonical) (store_at o n store)
                (omega (arith, pos)) (All-drop canonical sizes)))
      | inr e ↦ rw (e, store_split) (rows_end o store (ground (arith, e)))
    ]

    pub All-drop_n :
        (n : ℕ) (xs : List ℕ) → All (λ size. 0 < size) xs → All (λ size. 0 < size) (drop n xs)
    All-drop_n zero xs h = h
    All-drop_n (suc n) [] h = h
    All-drop_n (suc n) (x ∷ xs) (h, hs) = All-drop_n n xs hs

    pub column_of-put_self :
        (j i : String) (store : Columns D F)
        → column_of i (put j (column_of j store) store) ≡ column_of i store
    column_of-put_self j i store = elim (Bool-cases (str_eq j i)) [
      | inl e ↦
          let same : j ≡ i = str_eq→eq j i e in
          subst (λ i. column_of i (put j (column_of j store) store) ≡ column_of i store) same
            (ap or_empty (find-put_self j (column_of j store) store))
      | inr e ↦ column_of-put_other j i (column_of j store) store e
    ]

    pub column_of-start_index :
        (i : String) (ks : List String) (fs : List Bool) (store : Columns D F)
        → column_of i
            (start_index of_int zoned zero_double population keys flags cols count ks fs store).1
          ≡ column_of i store
    unfolding start_index
    column_of-start_index i [] fs store = refl
    column_of-start_index i (j ∷ ks) [] store = refl
    column_of-start_index i (j ∷ ks) (false ∷ fs) store = column_of-start_index i ks fs store
    column_of-start_index i (j ∷ ks) (true ∷ fs) store =
        elim (Bool-cases (is_empty (column_of j store).segments)) [
          | inl e ↦ rw e (
              column_of-start_index i ks fs (put j (column_of j store) store)
              ∙ column_of-put_self j i store)
          | inr e ↦ rw e (column_of-put_self j i store)
        ]

    -- Storing a sink's rows adds to each flagged column, behind the rows that its segments hold, all
    -- rows of the call with their NULLs, in order; the fuel suffices. Conditions: the column has
    -- `count` rows, its key stands once among the keys, and the sizes of the table's segments are positive.
    pub store_rows-stored_rows :
        (canonical : List ℕ) (store : Columns D F) (sizes : List ℕ)
        → All (λ size. 0 < size) canonical
        → stored_rows (
            column_of k
              (store_rows of_int zoned zero_double population keys flags cols count canonical store
                sizes).0)
          ≡ stored_rows (column_of k store) ++ column_rows col
    unfolding store_rows
    store_rows-stored_rows [] store sizes h = rows-store_new count 0 store sizes (omega arith)
    store_rows-stored_rows (size ∷ canonical) store sizes h =
        let (seg_idx, store') =
          start_index of_int zoned zero_double population keys flags cols count keys flags store in
        rows-store_split count 0 (drop seg_idx (size ∷ canonical)) store' (omega arith)
          (All-drop_n seg_idx (size ∷ canonical) h)
        ∙ ap (λ c. stored_rows c ++ column_rows col) (column_of-start_index k keys flags store)
