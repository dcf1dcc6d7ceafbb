-- ===== src/Cache/Plan.antt =====
-- What a population plan guarantees: the columns of a query are stored together or not at all.
use Prim.Native.String.{String}
use text.Mathlib.Text.{◌==◌ as str_eq}
use duckdb_mlx.Common.{
  ℕ, ◌≡◌, refl, ◌⊎◌, inl, inr, Bool, true, false, not, ◌&&◌, List, [], ◌∷◌, map, none, All,
  Bool-cases, if◌then◌else◌,
}
use mathlib.Core.Bool.{true≢false}
use duckdb_mlx.Common.Assoc.{find}
use duckdb_mlx.Cache.{
  CachedColumn, Cache, erase, is_present, plan_columns, erase_all, any, begin_population,
  has_mismatch, drop_table, prepare_layout,
}

abbrev Columns : Type 0 → Type 0
Columns C = List (String × CachedColumn C)

map-All-true : (bs : List Bool) → All (λ b. b ≡ true) (map (λ _. true) bs)
map-All-true [] = tt
map-All-true (b ∷ bs) = (refl, map-All-true bs)

module _ {C : Type 0} where
  find-erase_self : (k : String) (m : Columns C) → find k (erase k m) ≡ none
  find-erase_self k [] = refl
  find-erase_self k ((j, v) ∷ m) = elim (Bool-cases (str_eq j k)) [
    | inl h ↦ rw h (find-erase_self k m)
    | inr h ↦ rw (h, h) (find-erase_self k m)
  ]

  find-erase_other : (k j : String) (m : Columns C) → find k m ≡ none → find k (erase j m) ≡ none
  find-erase_other k j [] h = refl
  find-erase_other k j ((i, v) ∷ m) h = elim (Bool-cases (str_eq i k)) [
    | inl q ↦ cc (rw q at h)
    | inr q ↦ elim (Bool-cases (str_eq i j)) [
      | inl r ↦ rw r (find-erase_other k j m (rw q at h))
      | inr r ↦ rw (r, q) (find-erase_other k j m (rw q at h))
    ]
  ]

  erase_all-keeps :
      (k : String) (keys : List String) (m : Columns C)
      → find k m ≡ none
      → find k (erase_all keys m) ≡ none
  erase_all-keeps k [] m h = h
  erase_all-keeps k (j ∷ keys) m h = erase_all-keeps k keys (erase j m) (find-erase_other k j m h)

  erase_all-All :
      (keys : List String) (m : Columns C) → All (λ k. find k (erase_all keys m) ≡ none) keys
  erase_all-All [] m = tt
  erase_all-All (j ∷ keys) m =
      (erase_all-keeps j keys (erase j m) (find-erase_self j m), erase_all-All keys (erase j m))

  plan_columns-keeps :
      (k : String) (keys : List String) (rows : ℕ) (m : Columns C)
      → find k m ≡ none
      → find k (plan_columns keys rows m).1 ≡ none
  unfolding plan_columns
  plan_columns-keeps k [] rows m h = h
  plan_columns-keeps k (j ∷ keys) rows m h = elim (Bool-cases (is_present rows (find j m))) [
    | inl q ↦ rw q (plan_columns-keeps k keys rows m h)
    | inr q ↦ rw q (plan_columns-keeps k keys rows (erase j m) (find-erase_other k j m h))
  ]

  -- With no flag set, every column was there and the store is as it was.
  plan_columns-none :
      (keys : List String) (rows : ℕ) (m : Columns C)
      → any (plan_columns keys rows m).0 ≡ false
      → All (λ b. b ≡ false) (plan_columns keys rows m).0
        × All (λ k. is_present rows (find k m) ≡ true) keys
        × ((plan_columns keys rows m).1 ≡ m)
  unfolding plan_columns
  plan_columns-none [] rows m h = (tt, tt, refl)
  plan_columns-none (j ∷ keys) rows m h = elim (Bool-cases (is_present rows (find j m))) [
    | inl q ↦
        let (flags, present, same) = plan_columns-none keys rows m (rw q at h) in
        ((rw q refl, rw q flags), (q, present), rw q same)
    | inr q ↦ absurd (true≢false (rw q at h))
  ]

  -- With every flag set, no column is left.
  plan_columns-All :
      (keys : List String) (rows : ℕ) (m rest : Columns C)
      → any (map not (plan_columns keys rows m).0) ≡ false
      → (plan_columns keys rows m).1 ≡ rest
      → All (λ b. b ≡ true) (plan_columns keys rows m).0 × All (λ k. find k rest ≡ none) keys
  unfolding plan_columns
  plan_columns-All [] rows m rest h e = (tt, tt)
  plan_columns-All (j ∷ keys) rows m rest h e = elim (Bool-cases (is_present rows (find j m))) [
    | inl q ↦ absurd (true≢false (rw q at h))
    | inr q ↦
        let e' : (plan_columns keys rows (erase j m)).1 ≡ rest = rw q at e in
        let (flags, gone) = plan_columns-All keys rows (erase j m) rest (rw q at h) e' in
        (
          (rw q refl, rw q flags),
          (rw (← e') (plan_columns-keeps j keys rows (erase j m) (find-erase_self j m)), gone),
        )
  ]

  -- The last step of the plan, for the flags and the store of the loop.
  plan_uniform :
      (keys : List String) (rows : ℕ) (flags : List Bool) (store : Columns C)
      (some_set some_clear : Bool)
      → (some_set ≡ false
          → All (λ b. b ≡ false) flags × All (λ k. is_present rows (find k store) ≡ true) keys)
      → (some_clear ≡ false → All (λ b. b ≡ true) flags × All (λ k. find k store ≡ none) keys)
      → (All (λ b. b ≡ true) (if some_set && some_clear then map (λ _. true) flags else flags)
          × All
              (λ k. find k (if some_set && some_clear then erase_all keys store else store) ≡ none)
              keys)
        ⊎ (All (λ b. b ≡ false) (if some_set && some_clear then map (λ _. true) flags else flags)
            × All
                (λ k.
                  is_present rows
                    (find k (if some_set && some_clear then erase_all keys store else store))
                  ≡ true)
                keys)
  plan_uniform keys rows flags store false some_clear clear set = inr (clear refl)
  plan_uniform keys rows flags store true false clear set = inl (set refl)
  plan_uniform keys rows flags store true true clear set =
      inl (map-All-true flags, erase_all-All keys store)

  -- The plan for a query's columns stores all of them or none: either every flag is set and none of the
  -- columns is left in the store, or no flag is set and every column is in the store, with segments
  -- and the expected number of rows. So where one column is missing, those that were there are dropped.
  pub begin_population-uniform :
      (prefix : String) (keys : List String) (rows : ℕ) (c : Cache C)
      → let (plan, c') = begin_population prefix keys rows c in
        (All (λ b. b ≡ true) plan.store_col × All (λ k. find k c'.store ≡ none) keys)
        ⊎ (All (λ b. b ≡ false) plan.store_col
            × All (λ k. is_present rows (find k c'.store) ≡ true) keys)
  unfolding begin_population
  begin_population-uniform prefix keys rows c =
      let dropped : Cache C = if has_mismatch prefix rows c.store then drop_table prefix c else c in
      let m : Columns C = (prepare_layout prefix rows dropped).store in
      plan_uniform keys rows (plan_columns keys rows m).0 (plan_columns keys rows m).1
        (any (plan_columns keys rows m).0) (any (map not (plan_columns keys rows m).0))
        (λ h.
          let (flags, present, same) = plan_columns-none keys rows m h in (flags, rw same present))
        (λ h. plan_columns-All keys rows m (plan_columns keys rows m).1 h refl)
