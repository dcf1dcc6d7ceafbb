-- ===== src/Tests/Grouped.antt =====
-- Three rows of two groups, added by two threads to the tables of a sum and a least value.
use mathlib.Core.Logic.{◌⊎◌}
use mathlib.Core.Bool.{false≢true}
use duckdb_mlx.Common.{
  ℕ, ◌+◌, ◌≡◌, ◌≢◌, refl, ap, Bool, true, false, List, [], ◌∷◌, none, some, pos, negsuc, arith,
  get_elem?,
}
use duckdb_mlx.Common.Loops.{fold_where}
use duckdb_mlx.Ir.{AggKind, count_star, min, SumProgram}
use duckdb_mlx.Groupby.Hash.{GroupedState}
use duckdb_mlx.Groupby.Grouped.{Doubles, SegmentArrays, int_array}
use duckdb_mlx.Groupby.Grouped.Host.{accumulate_host}
use duckdb_mlx.Groupby.Grouped.Exact.{accumulate_host-int_fold, accumulate_host-count_fold}
use duckdb_mlx.Groupby.Grouped.Scatter.{HostAdds, cpu_scatter_int, cpu_scatter_int-int_fold}
use duckdb_mlx.Tests.Engine.{sum_column}

abbrev doubles : Doubles ℕ
doubles = record {
  zero_d = 0;
  infinity = 1000;
  negative_infinity = 0;
  add_d = λ a b. a + b;
  min_d = λ a b. a;
  max_d = λ a b. b;
}

abbrev programs : List (SumProgram ℕ)
programs = sum_column ∷ record sum_column { kind = min } ∷ []

abbrev rows : SegmentArrays ℕ
rows = record {
  codes = pos 1 ∷ pos 0 ∷ pos 1 ∷ [];
  exprs =
      some (int_array (pos 5 ∷ pos 7 ∷ negsuc 2 ∷ []))
      ∷ some (int_array (pos 4 ∷ pos 2 ∷ pos 9 ∷ []))
      ∷ [];
  masks = none ∷ some (true ∷ true ∷ false ∷ []) ∷ [];
  count = 3;
}

abbrev tables : GroupedState ℕ ℕ
tables = record {
  card = 2;
  fvalues = 0 ∷ 0 ∷ 0 ∷ 0 ∷ [];
  ivalues = pos 0 ∷ pos 6 ∷ pos 10 ∷ pos 8 ∷ [];
  counts = 0 ∷ 1 ∷ 2 ∷ 1 ∷ [];
  rows = 1 ∷ 2 ∷ [];
  dense_reduce = false;
  hash_groupby = false;
  hash_key_emit = [];
  hash_key_buf = [];
  hash_val_buf = [];
}

accumulate_host-int_fold_example :
    get_elem? ((accumulate_host doubles 2 rows programs tables).ivalues) 2 ≡ some (pos 12)
unfolding fold_where
accumulate_host-int_fold_example =
    accumulate_host-int_fold doubles 2 rows programs tables 1 0 sum_column (omega arith) refl
      (omega arith) (int_array (pos 5 ∷ pos 7 ∷ negsuc 2 ∷ [])) refl refl refl

abbrev is_star : AggKind → Bool
is_star count_star = true
is_star _ = false

min-apart : min ≢ count_star
min-apart e = false≢true (ap is_star e)

accumulate_host-count_fold_example :
    get_elem? ((accumulate_host doubles 2 rows programs tables).counts) 3 ≡ some 2
unfolding fold_where
accumulate_host-count_fold_example =
    accumulate_host-count_fold doubles 2 rows programs tables 1 1 (record sum_column { kind = min })
      (omega arith) refl (omega arith) min-apart

abbrev least_program : SumProgram ℕ
least_program = record sum_column { kind = min }

cpu_scatter_int-int_fold_example :
    (HostAdds min true false false
      × (get_elem? ((cpu_scatter_int 2 rows programs tables).ivalues) 3 ≡ some (pos 4)))
    ⊎ ((¬ HostAdds min true false false)
        × (get_elem? ((cpu_scatter_int 2 rows programs tables).ivalues) 3 ≡ some (pos 8)))
unfolding fold_where
cpu_scatter_int-int_fold_example =
    cpu_scatter_int-int_fold 2 rows programs 1 1 least_program (omega arith) refl
      (int_array (pos 4 ∷ pos 2 ∷ pos 9 ∷ [])) tables refl
