-- ===== src/Tests/Hashed.antt =====
-- Two chunks' rows that wait for a hash grouping, and the state that two groups fill.
use duckdb_mlx.Common.{ℕ, ◌≡◌, ◌++◌, refl, true, false, List, [], ◌∷◌, none, some, pos}
use duckdb_mlx.Ir.{ColumnData, ivalues, fvalues}
use duckdb_mlx.Cache.Read.{indices}
use duckdb_mlx.Groupby.{GroupbyRow}
use duckdb_mlx.Groupby.Hash.{GroupedState, append_hash_rows, populate_from_hash_rows}
use duckdb_mlx.Groupby.Hash.Buffers.{IsBuffered, buffered, kept_rows, append_hash_rows-kept_rows}
use duckdb_mlx.Groupby.Hash.Tables.{populate_from_hash_rows-table}
use duckdb_mlx.Tests.Engine.{sum_column}

abbrev waiting : GroupedState ℕ ℕ
waiting = record {
  card = 0;
  fvalues = [];
  ivalues = [];
  counts = [];
  rows = [];
  dense_reduce = false;
  hash_groupby = true;
  hash_key_emit = [];
  hash_key_buf = 7 ∷ [];
  hash_val_buf = 9 ∷ [];
}

abbrev keys : ColumnData ℕ
keys = record { values = ivalues (3 ∷ 4 ∷ 5 ∷ []); valid = some (true ∷ false ∷ true ∷ []) }

abbrev values : ColumnData ℕ
values = record { values = fvalues (1 ∷ 2 ∷ 6 ∷ []); valid = none }

abbrev appended : GroupedState ℕ ℕ
appended =
    append_hash_rows (λ v. v) (λ v. v) 0
      (record {
        key_cols = 0 ∷ [];
        key_cards = [];
        hash_groupby = true;
        hash_estimated_groups = pos 0;
      })
      (keys ∷ values ∷ []) 3 (pos 1) waiting

append_hash_rows-kept_rows_example :
    IsBuffered appended
    × (buffered appended
        ≡ buffered waiting ++ kept_rows (λ v. v) (λ v. v) 0 keys values (indices 0 3))
append_hash_rows-kept_rows_example =
    append_hash_rows-kept_rows (λ v. v) (λ v. v) 0 0 [] [] true (pos 0) (keys ∷ values ∷ []) 3 1
      keys values waiting refl refl refl

abbrev groups : List (GroupbyRow ℕ)
groups = record { key = 3; sum = 10; count = 4 } ∷ record { key = 5; sum = 2; count = 0 } ∷ []

populate_from_hash_rows-table_example :
    populate_from_hash_rows 0 (λ v. v) groups (sum_column ∷ []) waiting ≡ record waiting {
      card = 2;
      fvalues = 0 ∷ 0 ∷ [];
      ivalues = pos 10 ∷ pos 2 ∷ [];
      counts = 4 ∷ 1 ∷ [];
      rows = 4 ∷ 1 ∷ [];
      hash_key_emit = 3 ∷ 5 ∷ [];
    }
populate_from_hash_rows-table_example =
    populate_from_hash_rows-table 0 (λ v. v) groups (sum_column ∷ []) waiting
