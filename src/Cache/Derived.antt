-- ===== src/Cache/Derived.antt =====
-- src/bridge/mlx_bridge.cpp, StorageIndexFromCacheKey to MaterializeDerivedUnlocked and
-- MlxCacheBindDerivedPrograms: columns of the cache that hold the values of an expression, and the
-- programs that load them in its place. An entry of an array is an `Arr` at a row. `stoll` is
-- `std::stoll` (`none` where it throws) and `bits` reads the bytes of a double.
pub mod Bind
pub mod Values
use Prim.Native.String.{String}
use Prim.Native.Char.{code}
use Prim.Native.Nat.{bit_xor}
use text.Mathlib.Text.{◌==◌ as str_eq, starts_with}
use duckdb_mlx.Common.{
  ℕ, zero, suc, ◌+◌, ◌-◌, ◌*◌, ◌%◌, ◌^◌, Bool, true, false, not, ◌&&◌, List, [], ◌∷◌, ◌++◌, map,
  Option, none, some, ℤ, pos, negsuc, ◌==◌, length, get_elem?, get_or, if◌then◌else◌, ◌>>=◌,
}
use duckdb_mlx.Common.Int64.{Int64}
use duckdb_mlx.Common.Assoc.{find, put}
use duckdb_mlx.Ir.{
  ExprOpCode, load_col, const_val, add, sub, mul, div, negate, sin, cos, sqrt, abs, to_float,
  cmp_lt, cmp_le, cmp_gt, cmp_ge, cmp_eq, cmp_ne, and, or, not as not_code, ExprOp, SumProgram,
  plain_op,
}
use duckdb_mlx.Ir.Eval.{Backend, int64, eval_ops}
use duckdb_mlx.Prune.{is_load, is_const}
use duckdb_mlx.Segment.{has_value_graph}
use duckdb_mlx.Cache.Read.{Result, ok, err, indices}
use duckdb_mlx.Cache.Fused.{present}

-- The key behind its last '#'.
unfoldable pub after_hash : String → Option String
after_hash String.[] = none
after_hash (String.◌∷◌ c s) = elim (after_hash s) [
  | some suffix ↦ some suffix
  | none ↦ if code c == 35 then some s else none
]

unfoldable pub storage_index_from_cache_key : (String → Option ℤ) → String → ℤ
storage_index_from_cache_key stoll key = elim (after_hash key) [
  | none ↦ negsuc 0
  | some suffix ↦
      if starts_with suffix "x:"
      then negsuc 0
      else elim (stoll suffix) [ none ↦ negsuc 0 | some i ↦ i ]
]

-- The value of the enumerator.
abbrev pub op_number : ExprOpCode → ℕ
op_number load_col = 0
op_number const_val = 1
op_number add = 2
op_number sub = 3
op_number mul = 4
op_number div = 5
op_number negate = 6
op_number sin = 7
op_number cos = 8
op_number sqrt = 9
op_number abs = 10
op_number to_float = 11
op_number cmp_lt = 12
op_number cmp_le = 13
op_number cmp_gt = 14
op_number cmp_ge = 15
op_number cmp_eq = 16
op_number cmp_ne = 17
op_number and = 18
op_number or = 19
op_number not_code = 20

abbrev pub to_u64 : ℤ → ℕ
to_u64 (pos n) = n % 2 ^ 64
to_u64 (negsuc n) = (2 ^ 64 - 1 - n % 2 ^ 64) % 2 ^ 64

-- A column index that is out of range is undefined in the source.
abbrev pub key_at : List String → ℤ → String
key_at keys (pos c) = get_or keys c ""
key_at keys (negsuc _) = ""

-- `h ^= x; h *= 1099511628211ULL`
unfoldable pub mix : ℕ → ℕ → ℕ
mix h x = bit_xor h x * 1099511628211 % 2 ^ 64

module _ {D : Type 0} (stoll : String → Option ℤ) (bits : D → ℕ) where
  -- What an operation adds after its code.
  unfoldable pub operand_of : ExprOp D → List String → Option ℕ
  operand_of op keys =
      if is_load op.code
      then some
          ((to_u64 (storage_index_from_cache_key stoll (key_at keys op.col)) + 1000000) % 2 ^ 64)
      else if is_const op.code
      then some (if op.int_lane then op.ivalue else bits op.value)
      else none

  unfoldable pub mix_op : ℕ → ExprOpCode → Option ℕ → ℕ
  mix_op h c none = mix h (op_number c)
  mix_op h c (some x) = mix (mix h (op_number c)) x

  unfoldable pub fingerprint_from : ℕ → List (ExprOp D) → List String → ℕ
  fingerprint_from h [] keys = h
  fingerprint_from h (op ∷ ops) keys =
      fingerprint_from (mix_op h op.code (operand_of op keys)) ops keys

  unfoldable pub fingerprint_ops : List (ExprOp D) → List String → ℕ
  fingerprint_ops ops keys = fingerprint_from 14695981039346656037 ops keys

  unfoldable pub fingerprint_load_col : D → String → ℕ
  fingerprint_load_col zero_double key =
      fingerprint_ops (plain_op zero_double load_col ∷ []) (key ∷ [])

-- What the derived columns read and write of a cached column.
pub record PinnedColumn (Arr : Type 0) : Type 0 where
  pub fused_col : Option (List Arr)
  pub fused_valid : Option (List Bool)
  pub rows : ℕ
  pub population : ℕ

abbrev pub Pinned : Type 0 → Type 0
Pinned Arr = List (String × PinnedColumn Arr)

-- The fingerprints of a table with the keys of their columns.
abbrev pub Manifest : Type 0
Manifest = List (ℕ × String)

pub data DerivedError : Type 0 where
  missing_fused row_mismatch : String → DerivedError

-- The fused columns with their validity, and the number of rows.
pub record FusedSegment (Arr : Type 0) : Type 0 where
  pub cols : List (List Arr)
  pub valids : List (Option (List Bool))
  pub count : ℕ

-- `mx::logical_and` at each row.
abbrev pub and_rows : List Bool → List Bool → List Bool
and_rows (a ∷ xs) (b ∷ ys) = (a && b) ∷ and_rows xs ys
and_rows _ _ = []

abbrev pub and_all : List Bool → List (List Bool) → List Bool
and_all out [] = out
and_all out (p ∷ parts) = and_all (and_rows out p) parts

module _ {Arr : Type 0} where
  -- A column of the store, if it is fused.
  abbrev pub fused_at : String → Pinned Arr → Option (List Arr × PinnedColumn Arr)
  fused_at key store = find key store >>= λ c. c.fused_col >>= λ col. some (col, c)

  unfoldable pub cached_segment_from :
      List String → Pinned Arr → FusedSegment Arr → Result DerivedError (FusedSegment Arr)
  cached_segment_from [] store seg = ok seg
  cached_segment_from (key ∷ keys) store seg = elim (fused_at key store) [
    | none ↦ err (missing_fused key)
    | some (col, c) ↦ elim (seg.count == 0) [
      | true ↦ cached_segment_from keys store (record {
        cols = seg.cols ++ col ∷ [];
        valids = seg.valids ++ c.fused_valid ∷ [];
        count = c.rows;
      })
      | false ↦ elim (c.rows == seg.count) [
        | false ↦ err (row_mismatch key)
        | true ↦ cached_segment_from keys store (record {
          cols = seg.cols ++ col ∷ [];
          valids = seg.valids ++ c.fused_valid ∷ [];
          count = seg.count;
        })
      ]
    ]
  ]

  unfoldable pub cached_segment_from_keys :
      List String → Pinned Arr → Result DerivedError (FusedSegment Arr)
  cached_segment_from_keys keys store =
      cached_segment_from keys store (record { cols = []; valids = []; count = 0 })

  abbrev pub validity : Pinned Arr → String → Option (List Bool)
  validity store key = find key store >>= λ c. c.fused_valid

  abbrev pub valid_parts : List String → Pinned Arr → List (List Bool)
  valid_parts keys store = present (map (validity store) keys)

  unfoldable pub combine_cached_valids : List String → Pinned Arr → Option (List Bool)
  combine_cached_valids keys store = elim (valid_parts keys store) [
    | [] ↦ none
    | p ∷ parts ↦ some (and_all p parts)
  ]

  -- The values of the columns at a row, past an end of which the source is undefined.
  abbrev pub row_of : List (List Arr) → ℕ → List Arr
  row_of [] i = []
  row_of (col ∷ cols) i = elim (get_elem? col i) [
    | none ↦ row_of cols i
    | some a ↦ a ∷ row_of cols i
  ]

abbrev pub population_of : {Arr : Type 0} → List String → Pinned Arr → ℕ
population_of [] store = 0
population_of (key ∷ _) store = elim (find key store) [ none ↦ 0 | some c ↦ c.population ]

-- `manifest.find(fp)`; the newest entry of a fingerprint stands first.
abbrev pub find_fingerprint : ℕ → Manifest → Option String
find_fingerprint fp [] = none
find_fingerprint fp ((f, key) ∷ m) = if f == fp then some key else find_fingerprint fp m

abbrev pub index_of : String → ℕ → List String → Option ℕ
index_of key i [] = none
index_of key i (k ∷ keys) = if str_eq k key then some i else index_of key (suc i) keys

abbrev pub load_at : {D : Type 0} → D → ℕ → ExprOp D
load_at zero_double i = record (plain_op zero_double load_col) { col = pos i }

-- A program's round of the loop: the keys, the program and what it adds to `bound`.
unfoldable pub bind_program :
    {D : Type 0} → D → Option String → List String → SumProgram D → List String × SumProgram D × ℕ
bind_program zero_double none keys p = (keys, p, 0)
bind_program zero_double (some key) keys p = elim (index_of key 0 keys) [
  | some i ↦ (keys, record p { ops = load_at zero_double i ∷ [] }, 1)
  | none ↦ (keys ++ key ∷ [], record p { ops = load_at zero_double (length keys) ∷ [] }, 1)
]

module _ {D : Type 0} (B : Backend D) (stoll : String → Option ℤ) (bits : D → ℕ) where
  open B use {Arr}

  -- The expression at each row; a program that does not evaluate is undefined in the source and leaves 0.
  unfoldable pub derived_values : FusedSegment Arr → List (ExprOp D) → List Arr
  derived_values seg ops =
      map
        (λ i. elim (eval_ops B int64 (row_of seg.cols i) ops) [ none ↦ B.int64_of 0 | some a ↦ a ])
        (indices 0 seg.count)

  unfoldable pub materialize_derived :
      String
      → List String
      → List (ExprOp D)
      → Pinned Arr × Manifest
      → Result DerivedError (Pinned Arr × Manifest)
  materialize_derived derived_key base_keys ops (store, manifest) =
      elim (fused_at derived_key store) [
        | some _ ↦ ok (store, manifest)
        | none ↦ elim (cached_segment_from_keys base_keys store) [
          | err e ↦ err e
          | ok seg ↦ ok (
            put derived_key
                (record {
                  fused_col = some (derived_values seg ops);
                  fused_valid = combine_cached_valids base_keys store;
                  rows = seg.count;
                  population = population_of base_keys store;
                })
                store,
            (fingerprint_ops stoll bits ops base_keys, derived_key) ∷ manifest,
          )
        ]
      ]

  -- The key of the derived column that a program can load.
  unfoldable pub derived_for : Manifest → Pinned Arr → List String → SumProgram D → Option String
  derived_for manifest store keys p =
      if has_value_graph p.kind
      then (find_fingerprint (fingerprint_ops stoll bits p.ops keys) manifest >>= λ key.
          fused_at key store >>= λ c. some key)
      else none

  unfoldable pub bind_derived_programs :
      D
      → Manifest
      → Pinned Arr
      → List String
      → List (SumProgram D)
      → List String × List (SumProgram D) × ℕ
  bind_derived_programs zero_double manifest store keys [] = (keys, [], 0)
  bind_derived_programs zero_double manifest store keys (p ∷ ps) =
      let (keys', p', n) = bind_program zero_double (derived_for manifest store keys p) keys p in
      let (keys'', ps', m) = bind_derived_programs zero_double manifest store keys' ps in
      (keys'', p' ∷ ps', n + m)
