-- ===== src/Cache/Fused/Rows.antt =====
-- What a fused column holds.
use mathlib.Core.List.{append_assoc, append-nil}
use duckdb_mlx.Common.{
  ℕ, zero, suc, ◌/◌, ◌≤◌, ◌<◌, ◌≡◌, refl, sym, ap, ◌∙◌, ◌⊎◌, inl, inr, Bool, false, List, [], ◌∷◌,
  ◌++◌, Option, none, some, length, length-append, length-drop, take, take-drop, drop, arith,
}
use duckdb_mlx.Segment.{is_empty}
use duckdb_mlx.Planner.Column.Rows.{rows_of, rows_of-append, rows_of-append-nil}
use duckdb_mlx.Cache.Store.Rows.{flags_of}
use duckdb_mlx.Cache.Fused.{
  concat_balanced, concat_arrays, FusedColumn, present, fuse_cached_column,
}

-- The parts, one after the other.
abbrev pub concat_all : {A : Type 0} → List (List A) → List A
concat_all [] = []
concat_all (p ∷ parts) = p ++ concat_all parts

length-take_le : {A : Type 0} (n : ℕ) (xs : List A) → length (take n xs) ≤ n
length-take_le zero xs = omega arith
length-take_le (suc n) [] = omega arith
length-take_le (suc n) (x ∷ xs) = omega (arith, length-take_le n xs)

module _ {A : Type 0} where
  concat_all-append :
      (ps qs : List (List A)) → concat_all (ps ++ qs) ≡ concat_all ps ++ concat_all qs
  concat_all-append [] qs = refl
  concat_all-append (p ∷ ps) qs =
      ap (◌++◌ p) (concat_all-append ps qs) ∙ sym (append_assoc p (concat_all ps) (concat_all qs))

  -- Halving the parts to the end gives all of them, in order: the recursion ends within as many levels
  -- as there are parts.
  pub concat_balanced-concat_all :
      (fuel : ℕ) (parts : List (List A))
      → length parts ≤ fuel
      → concat_balanced fuel parts ≡ concat_all parts
  unfolding concat_balanced
  concat_balanced-concat_all zero [] h = refl
  concat_balanced-concat_all zero (p ∷ parts) h = absurd (omega arith)
  concat_balanced-concat_all (suc fuel) [] h = refl
  concat_balanced-concat_all (suc fuel) (p ∷ []) h = sym (append-nil p)
  concat_balanced-concat_all (suc fuel) (p ∷ q ∷ []) h = ap (◌++◌ p) (sym (append-nil q))
  concat_balanced-concat_all (suc fuel) (p ∷ q ∷ r ∷ parts) h =
      let all : List (List A) = p ∷ q ∷ r ∷ parts in
      let mid : ℕ = length all / 2 in
      ap (λ xs. xs ++ concat_balanced fuel (drop mid all))
        (concat_balanced-concat_all fuel (take mid all) (omega (arith, length-take_le mid all)))
      ∙ ap (◌++◌ (concat_all (take mid all)))
          (concat_balanced-concat_all fuel (drop mid all) (omega (arith, length-drop all mid)))
      ∙ sym (concat_all-append (take mid all) (drop mid all))
      ∙ ap concat_all (take-drop all mid)

  concat_arrays_lem : (parts : List (List A)) → concat_arrays parts ≡ concat_all parts
  concat_arrays_lem parts = concat_balanced-concat_all (length parts) parts (omega arith)

module _ {A : Type 0} where
  -- The rows of the segments: a value, or NULL.
  abbrev pub segment_rows : List (List A) → List (Option (List Bool)) → List (Option A)
  segment_rows (s ∷ ss) (v ∷ vs) = rows_of s (flags_of v) ++ segment_rows ss vs
  segment_rows _ _ = []

  -- No segment has a validity array, or each has one as long as itself.
  abbrev pub AllPlain : List (List A) → List (Option (List Bool)) → Type 0
  AllPlain [] [] = Unit
  AllPlain (s ∷ ss) (none ∷ vs) = AllPlain ss vs
  AllPlain _ _ = ⊥

  abbrev pub AllMasked : List (List A) → List (Option (List Bool)) → Type 0
  AllMasked [] [] = Unit
  AllMasked (s ∷ ss) (some v ∷ vs) = (length v ≡ length s) × AllMasked ss vs
  AllMasked _ _ = ⊥

  plain_rows :
      (ss : List (List A)) (vs : List (Option (List Bool)))
      → AllPlain ss vs
      → (present vs ≡ []) × (rows_of (concat_all ss) [] ≡ segment_rows ss vs)
  plain_rows [] [] h = (refl, refl)
  plain_rows [] (v ∷ vs) h = absurd h
  plain_rows (s ∷ ss) [] h = absurd h
  plain_rows (s ∷ ss) (some v ∷ vs) h = absurd h
  plain_rows (s ∷ ss) (none ∷ vs) h =
      let (no_parts, rows) = plain_rows ss vs h in
      (no_parts, rows_of-append-nil s (concat_all ss) ∙ ap (◌++◌ (rows_of s [])) rows)

  masked_rows :
      (ss : List (List A)) (vs : List (Option (List Bool)))
      → AllMasked ss vs
      → rows_of (concat_all ss) (concat_all (present vs)) ≡ segment_rows ss vs
  masked_rows [] [] h = refl
  masked_rows [] (v ∷ vs) h = absurd h
  masked_rows (s ∷ ss) [] h = absurd h
  masked_rows (s ∷ ss) (none ∷ vs) h = absurd h
  masked_rows (s ∷ ss) (some v ∷ vs) (long, h) =
      rows_of-append s (concat_all ss) v (concat_all (present vs)) long
      ∙ ap (◌++◌ (rows_of s v)) (masked_rows ss vs h)

  -- A column that is not fused.
  abbrev pub plain_column : List (List A) → List (Option (List Bool)) → FusedColumn A
  plain_column ss vs = record { segments = ss; valids = vs; fused_col = none; fused_valid = none }

  -- What a fused column holds.
  abbrev pub HasRows : FusedColumn A → List (Option A) → Type 0
  HasRows c rows =
      (col : List A) × (c.fused_col ≡ some col) × (rows_of col (flags_of c.fused_valid) ≡ rows)

  -- Fusing a column with segments gives one array with the rows of the segments, with their NULLs, in
  -- order. Condition: none of the segments has a validity array, or each has one as long as itself.
  pub fuse_cached_column-HasRows :
      (s : List A) (ss : List (List A)) (vs : List (Option (List Bool)))
      → AllPlain (s ∷ ss) vs ⊎ AllMasked (s ∷ ss) vs
      → HasRows (fuse_cached_column (plain_column (s ∷ ss) vs)) (segment_rows (s ∷ ss) vs)
  unfolding fuse_cached_column
  fuse_cached_column-HasRows s ss vs (inl h) =
      let (no_parts, rows) = plain_rows (s ∷ ss) vs h in
      (_, refl, rw no_parts (ap (λ xs. rows_of xs []) (concat_arrays_lem (s ∷ ss)) ∙ rows))
  fuse_cached_column-HasRows s ss [] (inr h) = absurd h
  fuse_cached_column-HasRows s ss (none ∷ vs) (inr h) = absurd h
  fuse_cached_column-HasRows s ss (some v ∷ vs) (inr h) = (
    _,
    refl,
    (λ i. rows_of (concat_arrays_lem (s ∷ ss) i) (concat_arrays_lem (present (some v ∷ vs)) i))
        ∙ masked_rows (s ∷ ss) (some v ∷ vs) h,
  )

  -- Each validity array is as long as its segment.
  abbrev pub Fits : List (List A) → List (Option (List Bool)) → Type 0
  Fits [] [] = Unit
  Fits (s ∷ ss) (none ∷ vs) = Fits ss vs
  Fits (s ∷ ss) (some v ∷ vs) = (length v ≡ length s) × Fits ss vs
  Fits _ _ = ⊥

  -- A segment with rows has no validity array, and another has one.
  abbrev pub SomePlain : List (List A) → List (Option (List Bool)) → Type 0
  SomePlain (s ∷ ss) (none ∷ vs) = (0 < length s) ⊎ SomePlain ss vs
  SomePlain (s ∷ ss) (some v ∷ vs) = SomePlain ss vs
  SomePlain _ _ = ⊥

  valid_le :
      (ss : List (List A)) (vs : List (Option (List Bool)))
      → Fits ss vs
      → length (concat_all (present vs)) ≤ length (concat_all ss)
  valid_le [] [] h = omega arith
  valid_le [] (v ∷ vs) h = absurd h
  valid_le (s ∷ ss) [] h = absurd h
  valid_le (s ∷ ss) (none ∷ vs) h = omega (arith, valid_le ss vs h, length-append s (concat_all ss))
  valid_le (s ∷ ss) (some v ∷ vs) (long, h) = omega (
    arith,
    long,
    valid_le ss vs h,
    length-append s (concat_all ss),
    length-append v (concat_all (present vs)),
  )

  valid_lt :
      (ss : List (List A)) (vs : List (Option (List Bool)))
      → Fits ss vs
      → SomePlain ss vs
      → length (concat_all (present vs)) < length (concat_all ss)
  valid_lt [] vs h p = absurd p
  valid_lt (s ∷ ss) [] h p = absurd h
  valid_lt (s ∷ ss) (none ∷ vs) h (inl rows) =
      omega (arith, valid_le ss vs h, length-append s (concat_all ss))
  valid_lt (s ∷ ss) (none ∷ vs) h (inr p) =
      omega (arith, valid_lt ss vs h p, length-append s (concat_all ss))
  valid_lt (s ∷ ss) (some v ∷ vs) (long, h) p = omega (
    arith,
    long,
    valid_lt ss vs h p,
    length-append s (concat_all ss),
    length-append v (concat_all (present vs)),
  )

  -- The bug: where a segment with rows has no validity array and another segment has one, the
  -- fused validity array is shorter than the fused column. Condition: each validity array is as
  -- long as its segment.
  pub fuse_cached_column-short :
      (ss : List (List A)) (vs : List (Option (List Bool)))
      → Fits ss vs
      → SomePlain ss vs
      → is_empty (present vs) ≡ false
      → let c = fuse_cached_column (plain_column ss vs) in
        (col : List A) × (valid : List Bool) × (c.fused_col ≡ some col)
        × (c.fused_valid ≡ some valid)
        × (length valid < length col)
  unfolding fuse_cached_column
  fuse_cached_column-short [] vs h p parts = absurd p
  fuse_cached_column-short (s ∷ ss) vs h p parts = (
    concat_arrays (s ∷ ss),
    concat_arrays (present vs),
    refl,
    rw parts refl,
    rw
        (
          concat_arrays_lem (s ∷ ss),
          concat_balanced-concat_all (length (present vs)) (present vs) (omega arith),
        )
        (valid_lt (s ∷ ss) vs h p),
  )
