-- ===== src/Groupby/Hash/Buffers.antt =====
-- The rows that wait for a hash grouping.
use duckdb_mlx.Common.{
  ℕ, zero, suc, ◌≡◌, refl, sym, ap, ◌∙◌, Bool, true, false, ◌&&◌, List, [], ◌∷◌, ◌++◌, map, some, ℤ,
  pos, length, length-append, get_elem?, arith, if◌then◌else◌,
}
use mathlib.Core.List.{append_assoc, append-nil}
use duckdb_mlx.Common.Int64.{Int64}
use duckdb_mlx.Ir.{ColumnData}
use duckdb_mlx.Cache.Read.{indices}
use duckdb_mlx.Groupby.Hash.{
  GroupedState, row_valid, key_of, float_of, push_row, push_hash_rows, append_hash_rows,
}

abbrev pub pairs {ℓ κ} : {A : Type ℓ} {B : Type κ} → List A → List B → List (A × B)
pairs [] bs = []
pairs (a ∷ as') [] = []
pairs (a ∷ as') (b ∷ bs) = (a, b) ∷ pairs as' bs

pairs-snoc :
    {A B : Type 0} (as' : List A) (bs : List B) (a : A) (b : B)
    → length as' ≡ length bs
    → pairs (as' ++ a ∷ []) (bs ++ b ∷ []) ≡ pairs as' bs ++ (a, b) ∷ []
pairs-snoc [] [] a b h = refl
pairs-snoc [] (y ∷ bs) a b h = absurd (omega arith)
pairs-snoc (x ∷ as') [] a b h = absurd (omega arith)
pairs-snoc (x ∷ as') (y ∷ bs) a b h = ap (◌∷◌ (x, y)) (pairs-snoc as' bs a b (omega arith))

abbrev pub keep : {A : Type 0} → (A → Bool) → List A → List A
keep f [] = []
keep f (a ∷ as') = if f a then a ∷ keep f as' else keep f as'

module _ {F : Type 0} (to_key : F → Int64) (to_float : Int64 → F) (float_zero : F) where
  -- The rows of a chunk whose key and value are not NULL.
  abbrev pub kept_rows : ColumnData F → ColumnData F → List ℕ → List (Int64 × F)
  kept_rows key val is =
      map
        (λ i. (
          key_of to_key to_float float_zero key.values i,
          float_of to_key to_float float_zero val.values i,
        ))
        (keep (λ i. row_valid key.valid i && row_valid val.valid i) is)

module _ {V F : Type 0} where
  -- Two buffers of the same length.
  abbrev pub IsBuffered : GroupedState V F → Type 0
  IsBuffered s = length s.hash_key_buf ≡ length s.hash_val_buf

  abbrev pub buffered : GroupedState V F → List (Int64 × F)
  buffered s = pairs s.hash_key_buf s.hash_val_buf

kept_rows-cons :
    {F : Type 0} (c : Bool) (f : ℕ → Int64 × F) (i : ℕ) (is : List ℕ)
    → (if c then f i ∷ [] else []) ++ map f is ≡ map f (if c then i ∷ is else is)
kept_rows-cons true f i is = refl
kept_rows-cons false f i is = refl

module _ {V F : Type 0} (to_key : F → Int64) (to_float : Int64 → F) (float_zero : F) where
  push_row-kept_rows :
      (a b : Bool) (k : Int64) (v : F) (s : GroupedState V F)
      → IsBuffered s
      → IsBuffered (push_row a b k v s)
        × (buffered (push_row a b k v s) ≡ buffered s ++ (if a && b then (k, v) ∷ [] else []))
  unfolding push_row
  push_row-kept_rows false b k v s h = (h, sym (append-nil (buffered s)))
  push_row-kept_rows true false k v s h = (h, sym (append-nil (buffered s)))
  push_row-kept_rows true true k v s h = (
    omega (arith, h, length-append s.hash_key_buf (k ∷ []), length-append s.hash_val_buf (v ∷ [])),
    pairs-snoc s.hash_key_buf s.hash_val_buf k v h,
  )

  push_hash_rows-kept_rows :
      (key val : ColumnData F) (i n : ℕ) (s : GroupedState V F)
      → IsBuffered s
      → let s' = push_hash_rows to_key to_float float_zero key val i n s in
        IsBuffered s'
        × (buffered s' ≡ buffered s ++ kept_rows to_key to_float float_zero key val (indices i n))
  unfolding push_hash_rows
  push_hash_rows-kept_rows key val i zero s h = (h, sym (append-nil (buffered s)))
  push_hash_rows-kept_rows key val i (suc n) s h =
      let (long, added) =
        push_row-kept_rows (row_valid key.valid i) (row_valid val.valid i) _ _ s h in
      let (same, all) = push_hash_rows-kept_rows key val (suc i) n _ long in
      (
        same,
        all
            ∙ ap (λ ps. ps ++ kept_rows to_key to_float float_zero key val (indices (suc i) n))
                added
            ∙ append_assoc (buffered s) _ _
            ∙ ap (◌++◌ (buffered s)) (
                kept_rows-cons (row_valid key.valid i && row_valid val.valid i)
                  (λ i. (
                    key_of to_key to_float float_zero key.values i,
                    float_of to_key to_float float_zero val.values i,
                  ))
                  i _),
      )

  -- Appending a chunk to the rows that wait for the hash grouping keeps the buffers of keys and values
  -- at the same length and adds, in order, exactly the rows whose key and value are not NULL. Conditions:
  -- the buffers have the same length, and the chunk has the columns of the key and of the value.
  pub append_hash_rows-kept_rows :
      (key_col : ℕ) (key_cols cards : List ℕ) (hashed : Bool) (groups : ℤ)
      (cols : List (ColumnData F)) (count val_col : ℕ) (key val : ColumnData F)
      (s : GroupedState V F)
      → get_elem? cols key_col ≡ some key
      → get_elem? cols val_col ≡ some val
      → IsBuffered s
      → let s' =
          append_hash_rows to_key to_float float_zero
            (record {
              key_cols = key_col ∷ key_cols;
              key_cards = cards;
              hash_groupby = hashed;
              hash_estimated_groups = groups;
            })
            cols
            count
            (pos val_col)
            s in
        IsBuffered s'
        × (buffered s'
            ≡ buffered s ++ kept_rows to_key to_float float_zero key val (indices 0 count))
  unfolding append_hash_rows
  append_hash_rows-kept_rows key_col key_cols cards hashed groups cols count val_col key val s hk hv
        h =
      rw (hk, hv, append_hash_rows) (push_hash_rows-kept_rows key val 0 count s h)
