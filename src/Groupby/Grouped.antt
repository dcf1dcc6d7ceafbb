-- ===== src/Groupby/Grouped.antt =====
-- src/bridge/mlx_bridge.cpp, MlxGroupedInit and GroupedSegmentArrays: the tables of a grouped aggregate and
-- the arrays of a segment. `V` is the type of a double, and a 128-bit sum of int64 values is an integer.
pub mod Slots
pub mod Start
pub mod Host
pub mod Program
pub mod Threads
pub mod Exact
pub mod Scatter
use duckdb_mlx.Common.{
  ℕ, zero, suc, ◌+◌, ◌-◌, ◌*◌, ◌/◌, ◌^◌, Bool, true, false, not, ◌&&◌, ◌||◌, List, [], ◌∷◌, map,
  Option, none, some, ℤ, pos, negsuc, ◌+ℤ◌, min_int, max_int, ltb, leb, ◌==◌, get_or, get_elem?,
  set, replicate, length, if◌then◌else◌,
}
use duckdb_mlx.Common.Loops.{scatter, map_option, update}
use duckdb_mlx.Ir.{AggKind, sum, count, count_star, avg, min, max, SumProgram}
use duckdb_mlx.Groupby.Hash.{GroupedSpec, GroupedState, is_sum}

-- The doubles that the tables hold.
pub record Doubles (V : Type 0) : Type 0 where
  pub zero_d : V
  pub infinity : V
  pub negative_infinity : V
  pub add_d : V → V → V
  pub min_d : V → V → V
  pub max_d : V → V → V

-- The entries of `seg.exprs[p]`, by the lane of the program.
pub data LaneArray (V : Type 0) : Type 0 where
  int_array : List ℤ → LaneArray V
  float_array : List V → LaneArray V

pub record SegmentArrays (V : Type 0) : Type 0 where
  pub codes : List ℤ
  pub exprs : List (Option (LaneArray V))
  pub masks : List (Option (List Bool))
  pub count : ℕ

abbrev pub dense_reduce_card : ℕ
dense_reduce_card = 512

abbrev pub int64_largest : ℤ
int64_largest = pos (2 ^ 63 - 1)

abbrev pub int64_least : ℤ
int64_least = negsuc (2 ^ 63 - 1)

abbrev pub product : ℕ → List ℕ → ℕ
product card [] = card
product card (c ∷ cs) = product (card * c) cs

abbrev pub slot_of : ℕ → ℕ → ℕ → ℕ
slot_of nprogs g p = g * nprogs + p

abbrev pub first_int : AggKind → ℤ
first_int min = int64_largest
first_int max = int64_least
first_int _ = pos 0

module _ {V : Type 0} (doubles : Doubles V) where
  open doubles use {zero_d, infinity, negative_infinity}

  abbrev pub first_double : AggKind → V
  first_double min = infinity
  first_double max = negative_infinity
  first_double _ = zero_d

-- The loops over the programs and over the groups.
unfoldable pub for_programs :
    {D T : Type 0} → (ℕ → SumProgram D → T → T) → ℕ → List (SumProgram D) → T → T
for_programs f p [] t = t
for_programs f p (program ∷ programs) t = for_programs f (suc p) programs (f p program t)

unfoldable pub for_groups : {T : Type 0} → (ℕ → T → T) → ℕ → ℕ → T → T
for_groups f g zero t = t
for_groups f g (suc n) t = for_groups f (suc g) n (f g t)

abbrev pub empty_state : {V F : Type 0} → GroupedState V F
empty_state = record {
  card = 0;
  fvalues = [];
  ivalues = [];
  counts = [];
  rows = [];
  dense_reduce = false;
  hash_groupby = false;
  hash_key_emit = [];
  hash_key_buf = [];
  hash_val_buf = [];
}

module _ {V F : Type 0} (doubles : Doubles V) where
  -- The loop over the groups that starts an extreme.
  unfoldable pub start_extreme : ℕ → ℕ → ℕ → AggKind → GroupedState V F → GroupedState V F
  start_extreme card nprogs p kind state = record state {
    fvalues =
        scatter (λ g. some (slot_of nprogs g p)) (λ g a. first_double doubles kind) 0 card
          state.fvalues;
    ivalues = scatter (λ g. some (slot_of nprogs g p)) (λ g a. first_int kind) 0 card state.ivalues;
  }

  unfoldable pub init_program : ℕ → ℕ → ℕ → AggKind → GroupedState V F → GroupedState V F
  init_program card nprogs p min state = start_extreme card nprogs p min state
  init_program card nprogs p max state = start_extreme card nprogs p max state
  init_program card nprogs p _ state = state

module _ {D V F : Type 0} (doubles : Doubles V) where
  open doubles use {zero_d}

  unfoldable pub grouped_init : GroupedSpec → List (SumProgram D) → GroupedState V F
  grouped_init spec programs =
      let card = product 1 spec.key_cards in
      let slots = card * length programs in
      if spec.hash_groupby
      then record empty_state { hash_groupby = true }
      else for_programs (λ p program. init_program doubles card (length programs) p program.kind) 0
          programs
          (record empty_state {
            card = card;
            fvalues = replicate slots zero_d;
            ivalues = replicate slots (pos 0);
            counts = replicate slots 0;
            rows = replicate card 0;
            dense_reduce = ltb 0 card && leb card dense_reduce_card;
          })

  unfoldable pub grouped_init_like : ℕ → List (SumProgram D) → GroupedState V F
  grouped_init_like card programs =
      grouped_init
        (record {
          key_cols = 0 ∷ [];
          key_cards = card ∷ [];
          hash_groupby = false;
          hash_estimated_groups = negsuc 0;
        })
        programs
