-- ===== src/Groupby/Dense/Correct.antt =====
-- The table of the dense grouping holds, for every key of the window, the sum and count of its rows.
use duckdb_mlx.Common.{
  ℕ, zero, suc, ◌+◌, ◌-◌, ◌^◌, ◌≤◌, ◌<◌, ◌≡◌, ◌≢◌, refl, sym, ap, ◌∙◌, inl, inr, true, false, List,
  [], ◌∷◌, none, some, All, ◌⊎◌, ==_iff, arith, ltb, ◌==◌, Bool-cases, length, length-set,
  length-replicate, get_or, set, replicate, if◌then◌else◌,
}
use duckdb_mlx.Common.Int64.{Int64, IsInt64, int64_min, int64_max, rank, min_i64, max_i64, add_i64}
use duckdb_mlx.Groupby.{group_sum, group_count, group_of, find_row}
use duckdb_mlx.Groupby.Dense.{
  dense_span_ok, dense_max_span, span_of, slot_of, key_bounds, dense_rows, fill_sums, fill_counts,
  groupby_sum_dense_host,
}

get_or-set {ℓ} :
    {A : Type ℓ} (xs : List A) (i j : ℕ) (v d : A)
    → i < length xs
    → get_or (set xs i v) j d ≡ (if i == j then v else get_or xs j d)
get_or-set [] i j v d h = elim h [ ]
get_or-set (x ∷ xs) zero zero v d h = refl
get_or-set (x ∷ xs) zero (suc j) v d h = ground arith
get_or-set (x ∷ xs) (suc i) zero v d h = ground arith
get_or-set (x ∷ xs) (suc i) (suc j) v d h = ground (arith, get_or-set xs i j v d)

get_or-replicate {ℓ} : {A : Type ℓ} (n i : ℕ) (d : A) → get_or (replicate n d) i d ≡ d
get_or-replicate zero i d = refl
get_or-replicate (suc n) zero d = refl
get_or-replicate (suc n) (suc i) d = get_or-replicate n i d

-- Keys that are NULL or lie in the window [kmin, kmin + span).
abbrev pub InWindow : Int64 → ℕ → Int64 → Type 0
InWindow kmin span key =
    IsInt64 key × (key ≢ int64_min → (rank kmin ≤ rank key) × (rank key < rank kmin + span))

-- Within the window a slot belongs to one key.
slot_of-eq_iff :
    (kmin : Int64) (span i : ℕ) (k key : Int64)
    → IsInt64 kmin
    → IsInt64 k
    → rank k ≡ rank kmin + i
    → IsInt64 key
    → rank kmin ≤ rank key
    → (slot_of kmin key == i) ≡ (key == k)
slot_of-eq_iff kmin span i k key hm hk e h l = ground arith

module _ (kmin : Int64) (span : ℕ) (i : ℕ) (k : Int64) (hm : IsInt64 kmin) (hk : IsInt64 k)
    (at : rank k ≡ rank kmin + i) (below : i < span) (not_null : k ≢ int64_min) where
  -- One write of the second loop, read at slot `i`: it falls there for the key `k` alone.
  get_or-slot_of {ℓ} :
      {A : Type ℓ} (xs : List A) (key : Int64) (f : A → A) (d : A)
      → length xs ≡ span
      → InWindow kmin span key
      → key ≢ int64_min
      → get_or (set xs (slot_of kmin key) (f (get_or xs (slot_of kmin key) d))) i d
        ≡ (if key == k then f (get_or xs i d) else get_or xs i d)
  get_or-slot_of xs key f d len (hr, hw) ne =
      get_or-set xs (slot_of kmin key) i _ d (in_range (hw ne))
      ∙ elim (Bool-cases (slot_of kmin key == i)) [
        | inl hit ↦ let here : slot_of kmin key ≡ i = ground arith in rw (hit, sym same ∙ hit, here)
        | inr miss ↦ rw (miss, sym same ∙ miss)
      ]
    where
      in_range :
          (rank kmin ≤ rank key) × (rank key < rank kmin + span) → slot_of kmin key < length xs
      in_range (a, b) = rw len (omega arith)

      same : (slot_of kmin key == i) ≡ (key == k)
      same = slot_of-eq_iff kmin span i k key hm hk at hr (hw ne).0

  null-ne : (key : Int64) → (key == int64_min) ≡ true → (key == k) ≡ false
  null-ne key h = ground (arith, not_null)

  fill_sums-get_or :
      {V : Type 0} (z : V) (add : V → V → V) (es : List (Int64 × V)) (sums : List V)
      → length sums ≡ span
      → All (λ e. InWindow kmin span e.0) es
      → get_or (fill_sums z add kmin es sums) i z ≡ group_sum add k (get_or sums i z) es
  unfolding fill_sums group_sum
  fill_sums-get_or z add [] sums len h = refl
  fill_sums-get_or z add ((key, v) ∷ es) sums len (w, h) = elim (Bool-cases (key == int64_min)) [
    | inl null ↦ rw (null, null-ne key null) (fill_sums-get_or z add es sums len h)
    | inr valid ↦ rw valid (
        fill_sums-get_or z add es _ (length-set sums (slot_of kmin key) _ ∙ len) h
        ∙ ap (λ acc. group_sum add k acc es)
            (get_or-slot_of sums key (λ s. add s v) z len w (ground arith)))
  ]

  fill_counts-get_or :
      {V : Type 0} (z : V) (add : V → V → V) (es : List (Int64 × V)) (counts : List ℕ)
      → length counts ≡ span
      → All (λ e. InWindow kmin span e.0) es
      → get_or (fill_counts z add kmin es counts) i 0 ≡ get_or counts i 0 + group_count k es
  unfolding fill_counts group_count
  fill_counts-get_or z add [] counts len h = omega arith
  fill_counts-get_or z add ((key, v) ∷ es) counts len (w, h) =
      elim (Bool-cases (key == int64_min)) [
        | inl null ↦ rw (null, null-ne key null) (fill_counts-get_or z add es counts len h)
        | inr valid ↦ rw valid (
            fill_counts-get_or z add es _ (length-set counts (slot_of kmin key) _ ∙ len) h
            ∙ ap (λ n. n + group_count k es) (get_or-slot_of counts key suc 0 len w (ground arith))
            ∙ ground arith)
      ]

module _ {V : Type 0} (kmin : Int64) (hm : IsInt64 kmin) (k : Int64) (hk : IsInt64 k) where
  -- A key before the first slot or behind the last is in no row.
  dense_rows-miss :
      (i : ℕ) (sums : List V) (counts : List ℕ)
      → rank kmin + i + length sums ≤ 2 ^ 64
      → (rank k < rank kmin + i) ⊎ (rank kmin + i + length sums ≤ rank k)
      → find_row k (dense_rows kmin i sums counts) ≡ none
  unfolding dense_rows find_row
  dense_rows-miss i [] counts fits out = refl
  dense_rows-miss i (s ∷ sums) [] fits out = refl
  dense_rows-miss i (s ∷ sums) (c ∷ counts) fits out =
      let rest = dense_rows-miss (i + 1) sums counts (omega arith) (beyond out) in
      let other : (add_i64 kmin i == k) ≡ false = ground arith in
      elim (Bool-cases (ltb 0 c)) [
        | inl met ↦ rw (met, other) rest
        | inr none_met ↦ rw none_met rest
      ]
    where
      beyond :
          (rank k < rank kmin + i) ⊎ (rank kmin + i + suc (length sums) ≤ rank k)
          → (rank k < rank kmin + (i + 1)) ⊎ (rank kmin + (i + 1) + length sums ≤ rank k)
      beyond (inl h) = inl (omega arith)
      beyond (inr h) = inr (omega arith)

  -- A key of the window is reported from its slot, if the slot was met.
  dense_rows-find_row :
      (i j : ℕ) (z : V) (sums : List V) (counts : List ℕ)
      → length counts ≡ length sums
      → rank kmin + i + length sums ≤ 2 ^ 64
      → j < length sums
      → rank k ≡ rank kmin + i + j
      → find_row k (dense_rows kmin i sums counts)
        ≡ (if ltb 0 (get_or counts j 0) then some (get_or sums j z, get_or counts j 0) else none)
  unfolding dense_rows find_row
  dense_rows-find_row i j z [] counts len fits h at = elim h [ ]
  dense_rows-find_row i j z (s ∷ sums) [] len fits h at = absurd (omega arith)
  dense_rows-find_row i zero z (s ∷ sums) (c ∷ counts) len fits h at =
      let same : (add_i64 kmin i == k) ≡ true = ground arith in
      elim (Bool-cases (ltb 0 c)) [
        | inl met ↦ rw (met, same)
        | inr none_met ↦
            rw none_met (dense_rows-miss (i + 1) sums counts (omega arith) (inl (omega arith)))
      ]
  dense_rows-find_row i (suc j) z (s ∷ sums) (c ∷ counts) len fits h at =
      let rest =
        dense_rows-find_row (i + 1) j z sums counts (omega arith) (omega arith) (omega arith)
          (omega arith) in
      let other : (add_i64 kmin i == k) ≡ false = ground arith in
      elim (Bool-cases (ltb 0 c)) [
        | inl met ↦ rw (met, other) rest
        | inr none_met ↦ rw none_met rest
      ]

-- An accepted span of int64 keys is the number of keys between the bounds and at most 2 ^ 20, so no
-- subtraction of a key wraps.
pub dense_span_ok-span :
    (lo hi : Int64)
    → IsInt64 lo
    → IsInt64 hi
    → dense_span_ok lo hi ≡ true
    → (rank lo + span_of lo hi ≡ rank hi + 1) × (span_of lo hi ≤ dense_max_span)
unfolding dense_span_ok
dense_span_ok-span lo hi hl hh h = ground arith

module _ {V : Type 0} where
  -- The first loop bounds every key that is not NULL.
  key_bounds-widens :
      (es : List (Int64 × V)) (lo hi : Int64)
      → (rank (key_bounds es lo hi).0 ≤ rank lo) × (rank hi ≤ rank (key_bounds es lo hi).1)
  unfolding key_bounds
  key_bounds-widens [] lo hi = (omega arith, omega arith)
  key_bounds-widens ((key, v) ∷ es) lo hi =
      ground
        (arith, key_bounds-widens es lo hi, key_bounds-widens es (min_i64 lo key) (max_i64 hi key))

  key_bounds-IsInt64 :
      (es : List (Int64 × V)) (lo hi : Int64)
      → IsInt64 lo
      → IsInt64 hi
      → All (λ e. IsInt64 e.0) es
      → IsInt64 (key_bounds es lo hi).0 × IsInt64 (key_bounds es lo hi).1
  unfolding key_bounds
  key_bounds-IsInt64 [] lo hi hl hh h = (hl, hh)
  key_bounds-IsInt64 ((key, v) ∷ es) lo hi hl hh (r, h) =
      key_bounds-IsInt64 es _ _ (ground arith) (ground arith) h

  abbrev Between : Int64 → Int64 → Int64 × V → Type 0
  Between lo hi e = IsInt64 e.0 × (e.0 ≢ int64_min → (rank lo ≤ rank e.0) × (rank e.0 ≤ rank hi))

  key_bounds-Between :
      (es : List (Int64 × V)) (lo hi : Int64)
      → All (λ e. IsInt64 e.0) es
      → All (Between (key_bounds es lo hi).0 (key_bounds es lo hi).1) es
  unfolding key_bounds
  key_bounds-Between [] lo hi h = tt
  key_bounds-Between ((key, v) ∷ es) lo hi (r, h) = (
    (
      r,
      λ ne. elim (Bool-cases (key == int64_min)) [
        | inl null ↦ absurd (ne ((==_iff _ _).0 null))
        | inr valid ↦
            rw (valid, key_bounds)
              (ground (arith, key_bounds-widens es (min_i64 lo key) (max_i64 hi key)))
      ],
    ),
    key_bounds-Between es _ _ h,
  )

  Between-InWindow :
      (lo hi : Int64) (es : List (Int64 × V))
      → rank lo + span_of lo hi ≡ rank hi + 1
      → All (Between lo hi) es
      → All (λ e. InWindow lo (span_of lo hi) e.0) es
  Between-InWindow lo hi [] h k = tt
  Between-InWindow lo hi (e ∷ es) h ((r, w), k) =
      ((r, λ ne. let b = w ne in (b.0, omega arith)), Between-InWindow lo hi es h k)

  -- A key outside the window does not occur.
  group_count-outside :
      (lo hi k : Int64) (es : List (Int64 × V))
      → k ≢ int64_min
      → (rank k < rank lo) ⊎ (rank hi < rank k)
      → All (Between lo hi) es
      → group_count k es ≡ 0
  unfolding group_count
  group_count-outside lo hi k [] ne out h = refl
  group_count-outside lo hi k ((key, v) ∷ es) ne out ((r, w), h) = elim (Bool-cases (key == k)) [
    | inl same ↦
        let e : key ≡ k = (==_iff _ _).0 same in absurd (ground (arith, e, w (λ q. ne (sym e ∙ q))))
    | inr other ↦ rw other (group_count-outside lo hi k es ne out h)
  ]

  module _ (z : V) (add : V → V → V) where
    length-fill_sums :
        (lo : Int64) (es : List (Int64 × V)) (sums : List V)
        → length (fill_sums z add lo es sums) ≡ length sums
    unfolding fill_sums
    length-fill_sums lo [] sums = refl
    length-fill_sums lo ((key, v) ∷ es) sums = elim (Bool-cases (key == int64_min)) [
      | inl null ↦ rw null (length-fill_sums lo es sums)
      | inr valid ↦ rw valid (length-fill_sums lo es _ ∙ length-set sums _ _)
    ]

    length-fill_counts :
        (lo : Int64) (es : List (Int64 × V)) (counts : List ℕ)
        → length (fill_counts z add lo es counts) ≡ length counts
    unfolding fill_counts
    length-fill_counts lo [] counts = refl
    length-fill_counts lo ((key, v) ∷ es) counts = elim (Bool-cases (key == int64_min)) [
      | inl null ↦ rw null (length-fill_counts lo es counts)
      | inr valid ↦ rw valid (length-fill_counts lo es _ ∙ length-set counts _ _)
    ]

    -- The table at its filling, for a window that was accepted.
    module _ (lo hi k : Int64) (es : List (Int64 × V)) (hl : IsInt64 lo) (hh : IsInt64 hi)
        (hk : IsInt64 k) (ne : k ≢ int64_min) (ok : dense_span_ok lo hi ≡ true)
        (h : All (Between lo hi) es) where
      abbrev table_sums : List V
      table_sums = fill_sums z add lo es (replicate (span_of lo hi) z)

      abbrev table_counts : List ℕ
      table_counts = fill_counts z add lo es (replicate (span_of lo hi) 0)

      length-table_sums : length table_sums ≡ span_of lo hi
      length-table_sums = length-fill_sums lo es _ ∙ length-replicate (span_of lo hi) z

      length-table_counts : length table_counts ≡ span_of lo hi
      length-table_counts = length-fill_counts lo es _ ∙ length-replicate (span_of lo hi) 0

      table-outside :
          (rank k < rank lo) ⊎ (rank hi < rank k)
          → find_row k (dense_rows lo 0 table_sums table_counts) ≡ group_of add z k es
      table-outside out =
          let span = (dense_span_ok-span lo hi hl hh ok).0 in
          rw (group_count-outside lo hi k es ne out h) (
            dense_rows-miss lo hl k hk 0 table_sums table_counts (omega (arith, length-table_sums))
              (place out))
        where
          span : rank lo + span_of lo hi ≡ rank hi + 1
          span = (dense_span_ok-span lo hi hl hh ok).0

          place :
              (rank k < rank lo) ⊎ (rank hi < rank k)
              → (rank k < rank lo + 0) ⊎ (rank lo + 0 + length table_sums ≤ rank k)
          place (inl b) = inl (omega arith)
          place (inr b) = inr (omega (arith, length-table_sums, span))

      table-inside :
          rank lo ≤ rank k
          → rank k ≤ rank hi
          → find_row k (dense_rows lo 0 table_sums table_counts) ≡ group_of add z k es
      table-inside above below =
          let span = (dense_span_ok-span lo hi hl hh ok).0 in
          let j : ℕ = rank k - rank lo in
          let at : rank k ≡ rank lo + j = omega arith in
          let room : j < span_of lo hi = omega arith in
          let window = Between-InWindow lo hi es span h in
          dense_rows-find_row lo hl k hk 0 j z table_sums table_counts
            (length-table_counts ∙ sym length-table_sums) (omega (arith, length-table_sums))
            (rw length-table_sums room) (omega arith)
          ∙ rw
              (
                fill_sums-get_or lo (span_of lo hi) j k hl hk at room ne z add es _
                    (length-replicate (span_of lo hi) z) window,
                fill_counts-get_or lo (span_of lo hi) j k hl hk at room ne z add es _
                    (length-replicate (span_of lo hi) 0) window,
                get_or-replicate (span_of lo hi) j z,
                get_or-replicate {A = ℕ} (span_of lo hi) j 0,
              )
              (ground arith)

      table-find_row : find_row k (dense_rows lo 0 table_sums table_counts) ≡ group_of add z k es
      table-find_row = elim (Bool-cases (ltb (rank k) (rank lo))) [
        | inl b ↦ table-outside (inl (ground arith))
        | inr b ↦ elim (Bool-cases (ltb (rank hi) (rank k))) [
          | inl c ↦ table-outside (inr (ground arith))
          | inr c ↦ table-inside (ground arith) (ground arith)
        ]
      ]

    -- Where the dense table on the host returns rows at all, it reports for every int64 key but NULL
    -- (INT64_MIN) the sum of its values in row order and their number, and nothing for a key that does
    -- not occur. Condition: the keys are int64 values.
    pub groupby_sum_dense_host_correct :
        (es : List (Int64 × V)) (k : Int64)
        → All (λ e. IsInt64 e.0) es
        → groupby_sum_dense_host z add es ≢ []
        → IsInt64 k
        → k ≢ int64_min
        → find_row k (groupby_sum_dense_host z add es) ≡ group_of add z k es
    unfolding groupby_sum_dense_host
    groupby_sum_dense_host_correct [] k h some_rows hk ne = absurd (some_rows refl)
    groupby_sum_dense_host_correct (e ∷ es) k h some_rows hk ne =
        let bounds = key_bounds (e ∷ es) int64_max int64_min in
        let ranges =
          key_bounds-IsInt64 (e ∷ es) int64_max int64_min (omega arith) (omega arith) h in
        elim (Bool-cases (dense_span_ok bounds.0 bounds.1)) [
          | inl ok ↦ rw ok (
              table-find_row bounds.0 bounds.1 k (e ∷ es) ranges.0 ranges.1 hk ne ok
                (key_bounds-Between (e ∷ es) int64_max int64_min h))
          | inr no_span ↦ absurd (some_rows (rw no_span))
        ]
