-- ===== src/Groupby/Hash.antt =====
-- src/bridge/mlx_bridge.cpp, AppendHashRows to MlxGroupedHashGroupByFinish: the state of a grouped
-- aggregate that a hash grouping fills. `group` is what MlxGroupbySumArrays returns for the buffered keys
-- and values; `V` is the type of a double and `F` that of a float.
pub mod Buffers
pub mod Tables
use duckdb_mlx.Common.{
  ℕ, zero, suc, ◌+◌, ◌*◌, Bool, true, false, not, ◌&&◌, ◌||◌, List, [], ◌∷◌, ◌++◌, Option, none,
  some, ℤ, pos, negsuc, ltb, leb, ◌==◌, get_or, get_elem?, set, replicate, length, if◌then◌else◌,
}
use duckdb_mlx.Common.Int64.{Int64}
use duckdb_mlx.Ir.{
  AggKind, sum, avg, SumProgram, ExprOp, ColumnValues, ivalues, fvalues, ColumnData,
}
use duckdb_mlx.Prune.{is_load}
use duckdb_mlx.Segment.{is_empty}
use duckdb_mlx.Groupby.{GroupbyRow}
use duckdb_mlx.Groupby.Sum.{signed}

pub record GroupedSpec : Type 0 where
  pub key_cols : List ℕ
  pub key_cards : List ℕ
  pub hash_groupby : Bool
  pub hash_estimated_groups : ℤ

-- The tables are indexed by `group * nprograms + program`.
pub record GroupedState (V F : Type 0) : Type 0 where
  pub card : ℕ
  pub fvalues : List V
  pub ivalues : List ℤ
  pub counts : List ℕ
  pub rows : List ℕ
  pub dense_reduce : Bool
  pub hash_groupby : Bool
  pub hash_key_emit : List Int64
  pub hash_key_buf : List Int64
  pub hash_val_buf : List F

abbrev pub is_sum : AggKind → Bool
is_sum sum = true
is_sum avg = true
is_sum _ = false

-- The column of a program that only loads one; -1 for any other.
unfoldable pub hash_value_col : {D : Type 0} → SumProgram D → ℤ
hash_value_col program = elim (program.ops) [
  | [] ↦ negsuc 0
  | op ∷ ops ↦ if is_empty ops && is_load op.code then op.col else negsuc 0
]

abbrev pub row_valid : Option (List Bool) → ℕ → Bool
row_valid none i = true
row_valid (some valid) i = get_or valid i true

module _ {F : Type 0} (to_key : F → Int64) (to_float : Int64 → F) (float_zero : F) where
  abbrev pub key_of : ColumnValues F → ℕ → Int64
  key_of (ivalues vs) i = get_or vs i 0
  key_of (fvalues vs) i = to_key (get_or vs i float_zero)

  abbrev pub float_of : ColumnValues F → ℕ → F
  float_of (ivalues vs) i = to_float (get_or vs i 0)
  float_of (fvalues vs) i = get_or vs i float_zero

-- A row with its key and its value, where neither is NULL.
unfoldable pub push_row :
    {V F : Type 0} → Bool → Bool → Int64 → F → GroupedState V F → GroupedState V F
push_row key_valid val_valid k v state =
    if not key_valid then state else if not val_valid then state else record state {
      hash_key_buf = state.hash_key_buf ++ k ∷ [];
      hash_val_buf = state.hash_val_buf ++ v ∷ [];
    }

module _ {V F : Type 0} (to_key : F → Int64) (to_float : Int64 → F) (float_zero : F) where
  -- The loop of `AppendHashRows` from row `i` on, over `n` rows.
  unfoldable pub push_hash_rows :
      ColumnData F → ColumnData F → ℕ → ℕ → GroupedState V F → GroupedState V F
  push_hash_rows key val i zero state = state
  push_hash_rows key val i (suc n) state = push_hash_rows key val (suc i) n (
      push_row (row_valid key.valid i) (row_valid val.valid i)
        (key_of to_key to_float float_zero key.values i)
        (float_of to_key to_float float_zero val.values i) state)

  unfoldable pub append_hash_rows :
      GroupedSpec → List (ColumnData F) → ℕ → ℤ → GroupedState V F → GroupedState V F
  append_hash_rows spec cols count (negsuc _) state = state
  append_hash_rows spec cols count (pos val_col) state = elim (spec.key_cols) [
    | [] ↦ state
    | key_col ∷ _ ↦ elim (get_elem? cols key_col) [
      | none ↦ state
      | some key ↦ elim (get_elem? cols val_col) [
        | none ↦ state
        | some val ↦ push_hash_rows key val 0 count state
      ]
    ]
  ]

  unfoldable pub hash_groupby_accumulate :
      {D : Type 0}
      → GroupedSpec
      → List (ColumnData F)
      → ℕ
      → List (SumProgram D)
      → GroupedState V F
      → GroupedState V F
  hash_groupby_accumulate spec cols row_count [] state = state
  hash_groupby_accumulate spec cols row_count (p ∷ programs) state =
      if not state.hash_groupby || (row_count == 0)
      then state
      else append_hash_rows spec cols row_count (hash_value_col p) state

abbrev pub rows_or_one : {V : Type 0} → GroupbyRow V → ℕ
rows_or_one r = if ltb 0 r.count then r.count else 1

module _ {D V F : Type 0} (double_zero : V) (to_i64 : V → Int64) where
  -- A round of the loop over the programs.
  unfoldable pub populate_slot :
      GroupbyRow V → ℕ → SumProgram D → GroupedState V F → GroupedState V F
  populate_slot r slot p state = record state {
    fvalues =
        if is_sum p.kind && not p.int_lane then set state.fvalues slot r.sum else state.fvalues;
    ivalues =
        if is_sum p.kind && p.int_lane
        then set state.ivalues slot (signed (to_i64 r.sum))
        else state.ivalues;
    counts = if is_sum p.kind then set state.counts slot (rows_or_one r) else state.counts;
  }

  unfoldable pub populate_programs :
      GroupbyRow V → ℕ → List (SumProgram D) → GroupedState V F → GroupedState V F
  populate_programs r slot [] state = state
  populate_programs r slot (p ∷ programs) state =
      populate_programs r (slot + 1) programs (populate_slot r slot p state)

  -- The loop over the rows, from group `g` on.
  unfoldable pub populate_rows :
      ℕ → List (GroupbyRow V) → List (SumProgram D) → GroupedState V F → GroupedState V F
  populate_rows g [] programs state = state
  populate_rows g (r ∷ rows) programs state = populate_rows (g + 1) rows programs (
      populate_programs r (g * length programs) programs (record state {
        hash_key_emit = state.hash_key_emit ++ r.key ∷ [];
        rows = set state.rows g (rows_or_one r);
      }))

  unfoldable pub populate_from_hash_rows :
      List (GroupbyRow V) → List (SumProgram D) → GroupedState V F → GroupedState V F
  populate_from_hash_rows rows programs state =
      let card = length rows in
      let slots = card * length programs in
      populate_rows 0 rows programs (record state {
        hash_key_emit = [];
        card = card;
        fvalues = replicate slots double_zero;
        ivalues = replicate slots (pos 0);
        counts = replicate slots 0;
        rows = replicate card 0;
      })

  unfoldable pub hash_groupby_complete :
      (List Int64 → List F → ℤ → List (GroupbyRow V))
      → List (SumProgram D)
      → ℤ
      → GroupedState V F
      → GroupedState V F
  hash_groupby_complete group programs estimated_groups state =
      if is_empty state.hash_key_buf
      then record state { card = 0 }
      else record (populate_from_hash_rows
          (group state.hash_key_buf state.hash_val_buf estimated_groups) programs state) {
            hash_key_buf = [];
            hash_val_buf = [];
          }
