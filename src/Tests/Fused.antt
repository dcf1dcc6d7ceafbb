-- ===== src/Tests/Fused.antt =====
-- Fused columns of two and three segments, a derived column and the programs that load it, and the packed
-- columns of Q1.
use Prim.Native.String.{String}
use duckdb_mlx.Common.{
  ℕ, ◌<◌, ◌≡◌, refl, inl, inr, Bool, true, false, List, [], ◌∷◌, ◌++◌, Option, none, some, ℤ, pos,
  arith, length,
}
use duckdb_mlx.Ir.{const_val, cmp_le, ExprOp, SumProgram, plain_op}
use duckdb_mlx.Prune.{is_load}
use duckdb_mlx.Cache.Fused.{concat_balanced, fuse_cached_column, FusedColumn}
use duckdb_mlx.Cache.Fused.Rows.{
  concat_balanced-concat_all, fuse_cached_column-HasRows, fuse_cached_column-short, HasRows,
  plain_column,
}
use duckdb_mlx.Cache.Derived.{
  PinnedColumn, Pinned, Manifest, fingerprint_ops, bind_derived_programs, bind_program,
  fingerprint_from, mix_op, operand_of, mix, storage_index_from_cache_key, after_hash,
  combine_cached_valids, derived_for,
}
use duckdb_mlx.Cache.Derived.Bind.{AllBoundTo, bind_derived_programs-AllBoundTo}
use duckdb_mlx.Cache.Derived.Values.{valid_in, combine_cached_valids-all_valid_in}
use duckdb_mlx.Cache.Q1.{Q1PinBundle}
use duckdb_mlx.Tests.Machine.{machine}
use duckdb_mlx.Tests.Engine.{sum_column, load_zero}

abbrev three : List (List ℕ)
three = (1 ∷ []) ∷ (2 ∷ 3 ∷ []) ∷ (4 ∷ []) ∷ []

concat_balanced-concat_all_example : concat_balanced 3 three ≡ 1 ∷ 2 ∷ 3 ∷ 4 ∷ []
concat_balanced-concat_all_example = concat_balanced-concat_all 3 three (omega arith)

abbrev masked : List (Option (List Bool))
masked = some (true ∷ []) ∷ some (false ∷ true ∷ []) ∷ []

fuse_cached_column-HasRows_example :
    HasRows {A = ℕ}
      (fuse_cached_column (plain_column ((1 ∷ []) ∷ (2 ∷ 3 ∷ []) ∷ []) masked))
      (some 1 ∷ none ∷ some 3 ∷ [])
fuse_cached_column-HasRows_example =
    fuse_cached_column-HasRows (1 ∷ []) ((2 ∷ 3 ∷ []) ∷ []) masked (inr (refl, (refl, tt)))

abbrev mixed : FusedColumn ℕ
mixed = plain_column ((1 ∷ []) ∷ (2 ∷ 3 ∷ []) ∷ []) (none ∷ some (false ∷ true ∷ []) ∷ [])

fuse_cached_column-short_example :
    (col : List ℕ) × (valid : List Bool) × ((fuse_cached_column mixed).fused_col ≡ some col)
    × ((fuse_cached_column mixed).fused_valid ≡ some valid)
    × (length valid < length col)
fuse_cached_column-short_example =
    fuse_cached_column-short ((1 ∷ []) ∷ (2 ∷ 3 ∷ []) ∷ []) (none ∷ some (false ∷ true ∷ []) ∷ [])
      (refl, tt) (inl (omega arith)) refl

-- No storage index is read from a key, and a double is its own pattern.
abbrev no_index : String → Option ℤ
no_index _ = none

abbrev own_bits : ℕ → ℕ
own_bits d = d

abbrev column : Option (List Bool) → PinnedColumn ℕ
column v = record { fused_col = some (1 ∷ 2 ∷ []); fused_valid = v; rows = 2; population = 7 }

abbrev pinned : Pinned ℕ
pinned =
    ("t#0", column (some (true ∷ false ∷ []))) ∷ ("t#1", column none) ∷ ("t#x:0", column none) ∷ []

abbrev manifest : Manifest
manifest = (fingerprint_ops no_index own_bits (load_zero ∷ []) ("t#0" ∷ []), "t#x:0") ∷ []

abbrev loads_first : (is_load load_zero.code ≡ true → (c : ℕ) × (load_zero.col ≡ pos c) × (c < 1))
loads_first _ = (0, refl, omega arith)

bind_derived_programs-AllBoundTo_example :
    let (keys', ps', n) =
      bind_derived_programs machine no_index own_bits 0 manifest pinned
        ("t#0" ∷ [])
        (sum_column ∷ []) in
    AllBoundTo machine no_index own_bits 0 manifest pinned ("t#0" ∷ []) keys' (sum_column ∷ []) ps'
    × ((more : List String) × (keys' ≡ ("t#0" ∷ []) ++ more))
bind_derived_programs-AllBoundTo_example =
    bind_derived_programs-AllBoundTo machine no_index own_bits 0 manifest pinned ("t#0" ∷ [])
      (sum_column ∷ []) ((loads_first, tt), tt)

-- The program of the example does load the derived column, behind the key of its base.
bound_keys :
    (bind_derived_programs machine no_index own_bits 0 manifest pinned
      ("t#0" ∷ [])
      (sum_column ∷ [])).0
    ≡ "t#0" ∷ "t#x:0" ∷ []
unfolding bind_derived_programs derived_for fingerprint_ops bind_program fingerprint_from mix_op
    operand_of mix storage_index_from_cache_key after_hash
bound_keys = refl

combine_cached_valids-all_valid_in_example :
    valid_in 1 (combine_cached_valids ("t#0" ∷ "t#1" ∷ []) pinned) ≡ false
combine_cached_valids-all_valid_in_example =
    combine_cached_valids-all_valid_in 2 1 ("t#0" ∷ "t#1" ∷ []) pinned (omega arith)
      (refl, (tt, tt))

abbrev bundle : Q1PinBundle
bundle = record { shipdate_storage = pos 0; group_card = 4; val_n = 1 }

abbrev cutoff : ExprOp ℕ
cutoff = record { code = const_val; col = pos 0; value = 0; ivalue = 10471; int_lane = true }

abbrev at_most : ExprOp ℕ
at_most = plain_op 0 cmp_le

abbrev sum_other : SumProgram ℕ
sum_other = record sum_column { ops = cutoff ∷ [] }

abbrev is_cutoff : ℕ → Bool
is_cutoff _ = false

-- Another query than the one that is packed: its program sums the cutoff.
abbrev other_programs : List (SumProgram ℕ)
other_programs = sum_other ∷ []
