-- ===== src/Cache/Q1.antt =====
-- src/bridge/mlx_bridge.cpp, FilterMatchesQ1Shipdate and the tests of TryLineitemQ1FastPath: the
-- filter, the groups and the programs of a query that goes on to the columns that are packed for TPC-H Q1.
-- The lookups of those columns in the store and GroupedTileKernelEligible, which follow and can still
-- decline the query, are left out. `is_cutoff` is the comparison of a double with 10471.0.
use Prim.Native.String.{String}
use duckdb_mlx.Common.{
  All, ◌⊎◌, ℕ, zero, suc, ◌≡◌, Bool, true, false, not, ◌||◌, List, [], ◌∷◌, Option, none, some, ℤ,
  pos, negsuc, ltb, leb, ◌==◌, length, ◌>>=◌, if◌then◌else◌,
}
use duckdb_mlx.Ir.{sum, avg, ExprOpCode, cmp_le, ExprOp, SumProgram}
use duckdb_mlx.Prune.{is_load, is_const}
use duckdb_mlx.Segment.{is_empty}
use duckdb_mlx.Groupby.Hash.{is_sum}
use duckdb_mlx.Cache.Derived.{storage_index_from_cache_key, key_at}

abbrev pub shipdate_cutoff_days : ℕ
shipdate_cutoff_days = 10471

-- MlxQ1PinBundle, as far as the tests read it.
pub record Q1PinBundle : Type 0 where
  pub shipdate_storage : ℤ
  pub group_card : ℕ
  pub val_n : ℕ

abbrev pub is_cmp_le : ExprOpCode → Bool
is_cmp_le cmp_le = true
is_cmp_le _ = false

abbrev pub eq_int : ℤ → ℤ → Bool
eq_int (pos a) (pos b) = a == b
eq_int (negsuc a) (negsuc b) = a == b
eq_int _ _ = false

abbrev pub in_range : ℤ → ℕ → Bool
in_range (pos c) n = ltb c n
in_range (negsuc _) n = false

module _ {D : Type 0} (stoll : String → Option ℤ) (is_cutoff : D → Bool) where
  unfoldable pub col_is_shipdate : ℤ → List String → ℤ → Bool
  col_is_shipdate storage keys col =
      if eq_int col storage
      then true
      else if not (in_range col (length keys))
      then false
      else eq_int (storage_index_from_cache_key stoll (key_at keys col)) storage

  -- Whether three operations compare the column with a constant; the answer, where they do.
  unfoldable pub match_at : ℤ → List String → ExprOp D → ExprOp D → ExprOp D → Option Bool
  match_at storage keys l k c =
      if not (is_load l.code) || not (is_cmp_le c.code)
      then none
      else if not (is_const k.code)
      then none
      else if not (col_is_shipdate storage keys l.col)
      then none
      else some (if k.int_lane then k.ivalue == shipdate_cutoff_days else is_cutoff k.value)

  unfoldable pub filter_matches_q1_shipdate : ℤ → List String → List (ExprOp D) → Bool
  filter_matches_q1_shipdate storage keys (l ∷ k ∷ c ∷ ops) =
      let rest = filter_matches_q1_shipdate storage keys (k ∷ c ∷ ops) in
      elim (match_at storage keys l k c) [ none ↦ rest | some b ↦ b ]
  filter_matches_q1_shipdate storage keys _ = false

  -- The loop over the programs: the program of each packed column.
  unfoldable pub val_slots_from : ℕ → ℕ → ℕ → List (SumProgram D) → Option (List (ℕ × ℕ))
  val_slots_from val_n p pack_col [] = some []
  val_slots_from val_n p pack_col (program ∷ programs) = elim (is_sum program.kind) [
    | false ↦ val_slots_from val_n (suc p) pack_col programs
    | true ↦ elim (not program.int_lane || leb val_n pack_col) [
      | true ↦ none
      | false ↦ val_slots_from val_n (suc p) (suc pack_col) programs >>= λ slots.
          some ((p, pack_col) ∷ slots)
    ]
  ]

  -- The tests before the packed columns are read: the slots to fill, if they pass.
  unfoldable pub q1_val_slots :
      Q1PinBundle → List String → ℕ → List (ExprOp D) → List (SumProgram D) → Option (List (ℕ × ℕ))
  q1_val_slots bundle keys card filter_ops programs =
      if not (filter_matches_q1_shipdate bundle.shipdate_storage keys filter_ops)
      then none
      else if not (card == bundle.group_card) || bundle.val_n == 0
      then none
      else (val_slots_from bundle.val_n 0 0 programs >>= λ slots.
          if not (length slots == bundle.val_n) || is_empty slots then none else some slots)

  -- Each program is a SUM or an AVG on the int64 lane.
  abbrev pub AllIntSums : List (SumProgram D) → Type 0
  AllIntSums ps = All (λ p. ((p.kind ≡ sum) ⊎ (p.kind ≡ avg)) × (p.int_lane ≡ true)) ps

  -- Each program with the packed column of its own index.
  abbrev pub own_columns : ℕ → ℕ → List (ℕ × ℕ)
  own_columns p zero = []
  own_columns p (suc n) = (p, p) ∷ own_columns (suc p) n
