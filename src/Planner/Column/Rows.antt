-- ===== src/Planner/Column/Rows.antt =====
-- What the buffers hold: the rows of the chunks, in order, with their NULLs.
use duckdb_mlx.Common.{
  ℕ, zero, suc, ◌+◌, ◌-◌, ◌≤◌, ◌≡◌, refl, sym, ap, ◌∙◌, ◌⊎◌, inl, inr, Bool, true, false, not, ◌&&◌,
  ◌||◌, List, [], ◌∷◌, ◌++◌, Option, none, some, arith, length, length-append, length-replicate,
  replicate-add, set-append_length, set, take, replicate, if◌then◌else◌,
}
use mathlib.Core.Bool.{false≢true}
use mathlib.Core.List.{append_assoc}
use duckdb_mlx.Planner.Column.{
  UnifiedFormat, resize, Buffer, copy_rows, select_rows, append_rows, append_column,
}

module _ {ℓ} {A : Type ℓ} where
  take_all : (xs : List A) (n : ℕ) → length xs ≤ n → take n xs ≡ xs
  take_all [] zero h = refl
  take_all [] (suc n) h = refl
  take_all (x ∷ xs) zero h = absurd (omega arith)
  take_all (x ∷ xs) (suc n) h = ap (◌∷◌ x) (take_all xs n (omega arith))

  resize-append :
      (xs : List A) (n m : ℕ) (a : A) → m ≡ length xs + n → resize xs m a ≡ xs ++ replicate n a
  resize-append xs n m a h =
      let rest : m - length xs ≡ n = omega arith in rw (take_all xs m (omega arith), rest)

or_true : (b : Bool) → (not b || true) ≡ true
or_true true = refl
or_true false = refl

and_left : (a b : Bool) → (not a && b) ≡ true → a ≡ false
and_left false b h = refl
and_left true b h = absurd (false≢true h)

and_right : (a b : Bool) → (not a && b) ≡ true → b ≡ true
and_right false b h = h
and_right true b h = absurd (false≢true h)

resize_nil : (n : ℕ) → resize [] n true ≡ replicate n true
resize_nil zero = refl
resize_nil (suc n) = let e : suc n - 0 ≡ suc n = omega arith in rw e

if_same : (b : Bool) → ◌≡◌ {A = List Bool} (if b then [] else []) []
if_same true = refl
if_same false = refl

-- The rows of a buffer: a value, or NULL.
abbrev pub rows_of : {A : Type 0} → List A → List Bool → List (Option A)
rows_of [] valid = []
rows_of (v ∷ vs) [] = some v ∷ rows_of vs []
rows_of (v ∷ vs) (b ∷ bs) = (if b then some v else none) ∷ rows_of vs bs

module _ {A : Type 0} where
  pub rows_of-append :
      (xs ys : List A) (ps bs : List Bool)
      → length ps ≡ length xs
      → rows_of (xs ++ ys) (ps ++ bs) ≡ rows_of xs ps ++ rows_of ys bs
  rows_of-append [] ys [] bs h = refl
  rows_of-append [] ys (a ∷ ps) bs h = absurd (omega arith)
  rows_of-append (x ∷ xs) ys [] bs h = absurd (omega arith)
  rows_of-append (x ∷ xs) ys (a ∷ ps) bs h =
      ap (◌∷◌ (if a then some x else none)) (rows_of-append xs ys ps bs (omega arith))

  pub rows_of-append-nil : (xs ys : List A) → rows_of (xs ++ ys) [] ≡ rows_of xs [] ++ rows_of ys []
  rows_of-append-nil [] ys = refl
  rows_of-append-nil (x ∷ xs) ys = ap (◌∷◌ (some x)) (rows_of-append-nil xs ys)

  rows_of-replicate : (xs : List A) → rows_of xs (replicate (length xs) true) ≡ rows_of xs []
  rows_of-replicate [] = refl
  rows_of-replicate (x ∷ xs) = ap (◌∷◌ (some x)) (rows_of-replicate xs)

-- What DuckDB promises of the format.
pub record IsFormat {T : Type 0} (fmt : UnifiedFormat T) : Type 0 where
  pub index_unset : fmt.sel_is_set ≡ false → (i : ℕ) → fmt.get_index i ≡ i
  pub valid_all : fmt.all_valid ≡ true → (i : ℕ) → fmt.row_is_valid i ≡ true

module _ {T A : Type 0} (cast : T → A) (null_value : A) (fmt : UnifiedFormat T) where
  open fmt use {data_at, get_index, row_is_valid}

  -- The rows of the chunk, from row `i` on.
  abbrev pub chunk_rows : ℕ → ℕ → List (Option A)
  chunk_rows i zero = []
  chunk_rows i (suc n) =
      (if row_is_valid (get_index i) then some (cast (data_at (get_index i))) else none)
      ∷ chunk_rows (suc i) n

  abbrev chunk_values : ℕ → ℕ → List A
  chunk_values i zero = []
  chunk_values i (suc n) =
      (if row_is_valid (get_index i) then cast (data_at (get_index i)) else null_value)
      ∷ chunk_values (suc i) n

  abbrev chunk_valid : ℕ → ℕ → List Bool
  chunk_valid i zero = []
  chunk_valid i (suc n) = row_is_valid (get_index i) ∷ chunk_valid (suc i) n

  rows_of-chunk : (i n : ℕ) → rows_of (chunk_values i n) (chunk_valid i n) ≡ chunk_rows i n
  rows_of-chunk i zero = refl
  rows_of-chunk i (suc n) = ground (arith, rows_of-chunk (suc i) n)

  rows_of-chunk_all :
      (i n : ℕ) → ((j : ℕ) → row_is_valid j ≡ true) → rows_of (chunk_values i n) [] ≡ chunk_rows i n
  rows_of-chunk_all i zero h = refl
  rows_of-chunk_all i (suc n) h = rw (h (get_index i), rows_of-chunk_all (suc i) n h)

  length-chunk_values : (i n : ℕ) → length (chunk_values i n) ≡ n
  length-chunk_values i zero = refl
  length-chunk_values i (suc n) = ap suc (length-chunk_values (suc i) n)

  length-chunk_valid : (i n : ℕ) → length (chunk_valid i n) ≡ n
  length-chunk_valid i zero = refl
  length-chunk_valid i (suc n) = ap suc (length-chunk_valid (suc i) n)

  length-snoc :
      {B : Type 0} (xs : List B) (x : B) (base i : ℕ)
      → base + i ≡ length xs
      → base + suc i ≡ length (xs ++ x ∷ [])
  length-snoc xs x base i h = omega (arith, length-append xs (x ∷ []))

  copy_rows_lem :
      (done : List A) (base i n : ℕ)
      → ((j : ℕ) → get_index j ≡ j)
      → ((j : ℕ) → row_is_valid j ≡ true)
      → base + i ≡ length done
      → copy_rows cast null_value fmt base i n (done ++ replicate n null_value)
        ≡ done ++ chunk_values i n
  unfolding copy_rows
  copy_rows_lem done base i zero hi hv at = refl
  copy_rows_lem done base i (suc n) hi hv at =
      rw
        (
          set-append_length done (replicate n null_value) null_value (cast (data_at i)) (base + i)
              at,
          hi i,
          hv i,
        )
        (ap (copy_rows cast null_value fmt base (suc i) n)
            (sym (append_assoc done (cast (data_at i) ∷ []) (replicate n null_value)))
          ∙ copy_rows_lem (done ++ cast (data_at i) ∷ []) base (suc i) n hi hv
              (length-snoc done (cast (data_at i)) base i at)
          ∙ append_assoc done (cast (data_at i) ∷ []) (chunk_values (suc i) n))

  set-valid :
      (b : Bool) (known rest : List Bool) (i : ℕ)
      → i ≡ length known
      → (if b then known ++ true ∷ rest else set (known ++ true ∷ rest) i false) ≡ known ++ b ∷ rest
  set-valid true known rest i h = refl
  set-valid false known rest i h = set-append_length known rest true false i h

  select_rows_lem :
      (done : List A) (known : List Bool) (base i n : ℕ)
      → base + i ≡ length done
      → base + i ≡ length known
      → select_rows cast null_value fmt base i n
          (record { values = done ++ replicate n null_value; valid = known ++ replicate n true })
        ≡ record { values = done ++ chunk_values i n; valid = known ++ chunk_valid i n }
  unfolding select_rows
  select_rows_lem done known base i zero hd hk = refl
  select_rows_lem done known base i (suc n) hd hk =
      let idx : ℕ = get_index i in
      let v : A = if row_is_valid idx then cast (data_at idx) else null_value in
      rw
        (
          set-append_length done (replicate n null_value) null_value v (base + i) hd,
          set-valid (row_is_valid idx) known (replicate n true) (base + i) hk,
        )
        ((λ j. select_rows cast null_value fmt base (suc i) n (record {
          values = sym (append_assoc done (v ∷ []) (replicate n null_value)) j;
          valid = sym (append_assoc known (row_is_valid idx ∷ []) (replicate n true)) j;
        }))
          ∙ select_rows_lem (done ++ v ∷ []) (known ++ row_is_valid idx ∷ []) base (suc i) n
              (length-snoc done v base i hd) (length-snoc known (row_is_valid idx) base i hk)
          ∙ (λ j. record {
            values = append_assoc done (v ∷ []) (chunk_values (suc i) n) j;
            valid = append_assoc known (row_is_valid idx ∷ []) (chunk_valid (suc i) n) j;
          }))

  select_rows_all :
      (done : List A) (base i n : ℕ)
      → base + i ≡ length done
      → select_rows cast null_value fmt base i n
          (record { values = done ++ replicate n null_value; valid = [] })
        ≡ record { values = done ++ chunk_values i n; valid = [] }
  unfolding select_rows
  select_rows_all done base i zero hd = refl
  select_rows_all done base i (suc n) hd =
      let idx : ℕ = get_index i in
      let v : A = if row_is_valid idx then cast (data_at idx) else null_value in
      rw
        (
          set-append_length done (replicate n null_value) null_value v (base + i) hd,
          if_same (row_is_valid idx),
        )
        ((λ j. select_rows cast null_value fmt base (suc i) n (record {
          values = sym (append_assoc done (v ∷ []) (replicate n null_value)) j;
          valid = [];
        }))
          ∙ select_rows_all (done ++ v ∷ []) base (suc i) n (length-snoc done v base i hd)
          ∙ (λ j. record {
            values = append_assoc done (v ∷ []) (chunk_values (suc i) n) j;
            valid = [];
          }))

  -- Buffered values and validity that fit.
  abbrev pub IsBuffer : Buffer A → Type 0
  IsBuffer buf = (buf.valid ≡ []) ⊎ (length buf.valid ≡ length buf.values)

  chunk_valid_all :
      (i n : ℕ) → ((j : ℕ) → row_is_valid j ≡ true) → chunk_valid i n ≡ replicate n true
  chunk_valid_all i zero h = refl
  chunk_valid_all i (suc n) h = rw (h (get_index i), chunk_valid_all (suc i) n h)

  -- What a buffer becomes: no validity where no NULL was met, or that of every row.
  abbrev Appended : List A → List Bool → ℕ → Buffer A → Type 0
  Appended values valid count buf' =
      ((buf' ≡ record { values = values ++ chunk_values 0 count; valid = [] })
        × (valid ≡ [])
        × ((j : ℕ) → row_is_valid j ≡ true))
      ⊎ ((known : List Bool) × (length known ≡ length values)
          × (rows_of values known ≡ rows_of values valid)
          × (buf' ≡ record {
            values = values ++ chunk_values 0 count;
            valid = known ++ chunk_valid 0 count;
          }))

  valid_long :
      (values : List A) (b : Bool) (bs : List Bool)
      → IsBuffer (record { values = values; valid = b ∷ bs })
      → length (b ∷ bs) ≡ length values
  valid_long values b bs (inl e) =
      let e' : length (b ∷ bs) ≡ 0 = ap length e in absurd (omega arith)
  valid_long values b bs (inr long) = long

  append_rows-Appended :
      (fast no_nulls : Bool) (count : ℕ) (values : List A) (valid : List Bool)
      → (no_nulls ≡ true → (j : ℕ) → row_is_valid j ≡ true)
      → (fast ≡ true → (no_nulls ≡ true) × ((j : ℕ) → get_index j ≡ j))
      → IsBuffer (record { values = values; valid = valid })
      → Appended values valid count (
          append_rows cast null_value fmt fast no_nulls count
            (record { values = values; valid = valid }))
  unfolding append_rows
  append_rows-Appended true no_nulls count values [] hv hi fits =
      let (fst, snd) = hi refl in
      inl (
        rw (resize-append values count (length values + count) null_value refl) (λ j. record {
          values = copy_rows_lem values (length values) 0 count snd (hv fst) (omega arith) j;
          valid = [];
        }),
        refl,
        hv fst,
      )
  append_rows-Appended false true count values [] hv hi fits = inl (
    rw (resize-append values count (length values + count) null_value refl)
        (select_rows_all values (length values) 0 count (omega arith)),
    refl,
    hv refl,
  )
  append_rows-Appended false false count values [] hv hi fits =
      let known : List Bool = replicate (length values) true in
      inr (
        known,
        length-replicate (length values) true,
        rows_of-replicate values,
        rw
            (
              resize-append values count (length values + count) null_value refl,
              resize_nil (length values + count),
              replicate-add (length values) count (length values + count) true refl,
            )
            (select_rows_lem values known (length values) 0 count (omega arith)
              (omega (arith, length-replicate (length values) true))),
      )
  append_rows-Appended true no_nulls count values (b ∷ bs) hv hi fits =
      let long : length (b ∷ bs) ≡ length values = valid_long values b bs fits in
      let (none_null, unselected) = hi refl in
      inr (
        b ∷ bs,
        long,
        refl,
        rw
            (
              resize-append values count (length values + count) null_value refl,
              resize-append (b ∷ bs) count (length values + count) true (omega arith),
              chunk_valid_all 0 count (hv none_null),
            )
            (λ j. record {
              values =
                  copy_rows_lem values (length values) 0 count unselected (hv none_null)
                    (omega arith) j;
              valid = b ∷ bs ++ replicate count true;
            }),
      )
  append_rows-Appended false no_nulls count values (b ∷ bs) hv hi fits =
      let long : length (b ∷ bs) ≡ length values = valid_long values b bs fits in
      inr (
        b ∷ bs,
        long,
        refl,
        rw
            (
              or_true no_nulls,
              resize-append values count (length values + count) null_value refl,
              resize-append (b ∷ bs) count (length values + count) true (omega arith),
            )
            (select_rows_lem values (b ∷ bs) (length values) 0 count (omega arith) (omega arith)),
      )

  append_column-Appended :
      (count : ℕ) (values : List A) (valid : List Bool)
      → IsFormat fmt
      → IsBuffer (record { values = values; valid = valid })
      → Appended values valid count
          (append_column cast null_value fmt count (record { values = values; valid = valid }))
  unfolding append_column
  append_column-Appended count values valid format fits =
      append_rows-Appended (not fmt.sel_is_set && fmt.all_valid) fmt.all_valid count values valid
        format.valid_all
        (λ e. (
          and_right fmt.sel_is_set fmt.all_valid e,
          format.index_unset (and_left fmt.sel_is_set fmt.all_valid e),
        ))
        fits

  -- Appending a chunk to a buffer keeps the buffer well-formed and adds the rows of the chunk,
  -- with their NULLs, in order, behind the rows that it holds: on the fast path, with a
  -- selection, and where the first NULL makes the validity of the earlier rows explicit.
  -- Conditions: the format is as DuckDB promises, and the buffer's validity is empty or as long
  -- as its values.
  pub append_column-rows_of :
      (count : ℕ) (buf : Buffer A)
      → IsFormat fmt
      → IsBuffer buf
      → let buf' = append_column cast null_value fmt count buf in
        IsBuffer buf'
        × (rows_of buf'.values buf'.valid ≡ rows_of buf.values buf.valid ++ chunk_rows 0 count)
  append_column-rows_of count buf format fits =
      elim (append_column-Appended count buf.values buf.valid format fits) [
        | inl (e, none_met, hv) ↦
            rw (e, none_met)
              (
                inl refl,
                rows_of-append-nil buf.values (chunk_values 0 count)
                    ∙ ap (◌++◌ (rows_of buf.values [])) (rows_of-chunk_all 0 count hv),
              )
        | inr (known, long, same, e) ↦
            rw (e, sym same)
              (
                inr (
                    omega (
                      arith,
                      length-append known (chunk_valid 0 count),
                      length-append buf.values (chunk_values 0 count),
                      length-chunk_values 0 count,
                      length-chunk_valid 0 count,
                    )),
                rows_of-append buf.values (chunk_values 0 count) known (chunk_valid 0 count) long
                    ∙ ap (◌++◌ (rows_of buf.values known)) (rows_of-chunk 0 count),
              )
      ]
