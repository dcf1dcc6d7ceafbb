-- ===== src/Groupby/Grouped/Host.antt =====
-- src/bridge/mlx_bridge.cpp, the host's threads of GroupedAccumulateArrays. The threads are taken one after
-- the other, since each fills tables of its own that are merged when all have ended. A float of an array is the
-- double that it is cast to, and a 128-bit sum of int64 values is an integer.
use duckdb_mlx.Common.{
  ℕ, zero, suc, ◌+◌, ◌-◌, ◌*◌, ◌/◌, Bool, true, false, ◌&&◌, List, [], ◌∷◌, Option, none, some, ℤ,
  pos, negsuc, ◌+ℤ◌, min_int, max_int, ltb, leb, ◌==◌, get_or, replicate, length, if◌then◌else◌,
}
use duckdb_mlx.Common.Loops.{scatter, map_option, update}
use duckdb_mlx.Ir.{AggKind, sum, count, count_star, avg, min, max, SumProgram}
use duckdb_mlx.Groupby.Hash.{GroupedState}
use duckdb_mlx.Groupby.Grouped.{
  Doubles, LaneArray, SegmentArrays, slot_of, for_programs, for_groups, grouped_init_like,
  int_array, float_array,
}

-- A code, past the end of which the source is undefined.
abbrev pub code_at : List ℤ → ℕ → ℤ
code_at codes i = get_or codes i (negsuc 0)

-- `!(mask && !mask[i])`
abbrev pub passes : Option (List Bool) → ℕ → Bool
passes none i = true
passes (some mask) i = get_or mask i true

-- The slot of a code where `card` is the slot of the codes that are no group.
abbrev pub dump_slot : ℕ → ℤ → ℕ
dump_slot card (pos g) = if ltb card g then card else g
dump_slot card (negsuc _) = card

abbrev pub group_at : ℕ → ℤ → Option ℕ
group_at card (pos g) = if leb card g then none else some g
group_at card (negsuc _) = none

abbrev pub masked_group : ℕ → List ℤ → Option (List Bool) → ℕ → Option ℕ
masked_group card codes mask i = if passes mask i then group_at card (code_at codes i) else none

-- An array that is read on the wrong lane, or past its end, is undefined in the source.
abbrev pub int_at : {V : Type 0} → LaneArray V → ℕ → ℤ
int_at (int_array vs) i = get_or vs i (pos 0)
int_at (float_array vs) i = pos 0

abbrev pub float_at : {V : Type 0} → V → LaneArray V → ℕ → V
float_at z (int_array vs) i = z
float_at z (float_array vs) i = get_or vs i z

abbrev pub no_mask : Option (List Bool) → Bool
no_mask none = true
no_mask (some _) = false

-- Where a sum adds row `i`: with no mask the codes that are no group have a slot of their own.
abbrev pub sum_slot : ℕ → List ℤ → Bool → Option (List Bool) → ℕ → Option ℕ
sum_slot card codes int_lane mask i =
    if int_lane && no_mask mask
    then some (dump_slot card (code_at codes i))
    else masked_group card codes mask i

abbrev pub merge_int : AggKind → ℤ → ℤ → ℤ
merge_int min a b = min_int a b
merge_int max a b = max_int a b
merge_int _ a b = a +ℤ b

module _ {V : Type 0} (doubles : Doubles V) where
  open doubles use {add_d, min_d, max_d}

  abbrev pub merge_double : AggKind → V → V → V
  merge_double min a b = min_d a b
  merge_double max a b = max_d a b
  merge_double _ a b = add_d a b

abbrev pub program_slot : ℕ → ℕ → List ℤ → ℕ → Option (List Bool) → ℕ → Option ℕ
program_slot card nprogs codes p mask i =
    map_option (λ g. slot_of nprogs g p) (masked_group card codes mask i)

module _ {V F : Type 0} (doubles : Doubles V) (card nprogs : ℕ) (codes : List ℤ) where
  open doubles use {zero_d, add_d}

  -- The rows from `lo` on, `n` of them.
  unfoldable pub host_rows : ℕ → ℕ → GroupedState V F → GroupedState V F
  host_rows lo n local =
      let dump =
        scatter (λ i. some (dump_slot card (code_at codes i))) (λ i r. r + 1) lo n
          (replicate (suc card) 0) in
      record local { rows = scatter (λ g. some g) (λ g r. r + get_or dump g 0) 0 card local.rows }

  unfoldable pub host_count : ℕ → ℕ → ℕ → Option (List Bool) → GroupedState V F → GroupedState V F
  host_count lo n p mask local = record local {
    counts = scatter (program_slot card nprogs codes p mask) (λ i c. c + 1) lo n local.counts;
  }

  unfoldable pub host_sum :
      ℕ → ℕ → ℕ → Bool → LaneArray V → Option (List Bool) → GroupedState V F → GroupedState V F
  host_sum lo n p int_lane e mask local =
      let at = sum_slot card codes int_lane mask in
      let isum =
        if int_lane
        then scatter at (λ i a. a +ℤ int_at e i) lo n (replicate (suc card) (pos 0))
        else replicate (suc card) (pos 0) in
      let fsum =
        if int_lane
        then []
        else scatter at (λ i a. add_d a (float_at zero_d e i)) lo n (replicate (suc card) zero_d) in
      let cnt = scatter at (λ i c. c + 1) lo n (replicate (suc card) 0) in
      record local {
        ivalues =
            scatter (λ g. some (slot_of nprogs g p)) (λ g a. a +ℤ get_or isum g (pos 0)) 0 card
              local.ivalues;
        fvalues =
            if int_lane
            then local.fvalues
            else scatter (λ g. some (slot_of nprogs g p)) (λ g a. add_d a (get_or fsum g zero_d)) 0
                card local.fvalues;
        counts =
            scatter (λ g. some (slot_of nprogs g p)) (λ g c. c + get_or cnt g 0) 0 card
              local.counts;
      }

  -- MIN and MAX.
  unfoldable pub host_extreme :
      ℕ
      → ℕ
      → ℕ
      → AggKind
      → Bool
      → LaneArray V
      → Option (List Bool)
      → GroupedState V F
      → GroupedState V F
  host_extreme lo n p kind int_lane e mask local = record local {
    counts = scatter (program_slot card nprogs codes p mask) (λ i c. c + 1) lo n local.counts;
    ivalues =
        if int_lane
        then scatter (program_slot card nprogs codes p mask) (λ i a. merge_int kind a (int_at e i))
            lo n local.ivalues
        else local.ivalues;
    fvalues =
        if int_lane
        then local.fvalues
        else scatter (program_slot card nprogs codes p mask)
            (λ i a. merge_double doubles kind a (float_at zero_d e i)) lo n local.fvalues;
  }

  unfoldable pub host_program :
      ℕ
      → ℕ
      → ℕ
      → AggKind
      → Bool
      → Option (LaneArray V)
      → Option (List Bool)
      → GroupedState V F
      → GroupedState V F
  host_program lo n p count_star int_lane e mask local = local
  host_program lo n p count int_lane e mask local = host_count lo n p mask local
  host_program lo n p sum int_lane none mask local = host_count lo n p mask local
  host_program lo n p avg int_lane none mask local = host_count lo n p mask local
  host_program lo n p min int_lane none mask local = host_count lo n p mask local
  host_program lo n p max int_lane none mask local = host_count lo n p mask local
  host_program lo n p sum int_lane (some e) mask local = host_sum lo n p int_lane e mask local
  host_program lo n p avg int_lane (some e) mask local = host_sum lo n p int_lane e mask local
  host_program lo n p min int_lane (some e) mask local =
      host_extreme lo n p min int_lane e mask local
  host_program lo n p max int_lane (some e) mask local =
      host_extreme lo n p max int_lane e mask local

-- An entry of `seg.exprs` or `seg.masks`.
abbrev pub entry {ℓ} : {A : Type ℓ} → List (Option A) → ℕ → Option A
entry os p = get_or os p none

abbrev pub host_threads : ℕ → ℕ
host_threads hardware =
    let most = if ltb hardware 8 then hardware else 8 in if ltb 1 most then most else 1

abbrev pub host_chunk : ℕ → ℕ → ℕ
host_chunk n threads = (n + threads - 1) / threads

module _ {D V F : Type 0} (doubles : Doubles V) (card : ℕ) (seg : SegmentArrays V)
    (programs : List (SumProgram D)) where
  -- A thread's work on its rows.
  unfoldable pub host_thread : ℕ → ℕ → GroupedState V F → GroupedState V F
  host_thread lo n local =
      for_programs
        (λ p program.
          host_program doubles card (length programs) seg.codes lo n p program.kind program.int_lane
            (entry seg.exprs p) (entry seg.masks p))
        0 programs (host_rows doubles card (length programs) seg.codes lo n local)

  -- The tables of the threads from `t` on, `left` of them.
  unfoldable pub host_locals : ℕ → ℕ → ℕ → List (GroupedState V F)
  host_locals chunk t zero = []
  host_locals chunk t (suc left) =
      let lo = t * chunk in
      let hi = if ltb seg.count (lo + chunk) then seg.count else lo + chunk in
      let local = grouped_init_like doubles card programs in
      elim (leb hi lo) [
        | true ↦ replicate (suc left) local
        | false ↦ host_thread lo (hi - lo) local ∷ host_locals chunk (suc t) left
      ]

  unfoldable pub merge_slot : GroupedState V F → ℕ → AggKind → GroupedState V F → GroupedState V F
  merge_slot local slot kind state = record state {
    counts = update state.counts slot (λ c. c + get_or local.counts slot 0);
    ivalues = update state.ivalues slot (λ a. merge_int kind a (get_or local.ivalues slot (pos 0)));
    fvalues =
        update state.fvalues slot
          (λ a. merge_double doubles kind a (get_or local.fvalues slot doubles.zero_d));
  }

  unfoldable pub merge_group : GroupedState V F → ℕ → GroupedState V F → GroupedState V F
  merge_group local g state =
      for_programs (λ p program. merge_slot local (slot_of (length programs) g p) program.kind) 0
        programs (record state { rows = update state.rows g (λ r. r + get_or local.rows g 0) })

  unfoldable pub merge_locals : List (GroupedState V F) → GroupedState V F → GroupedState V F
  merge_locals [] state = state
  merge_locals (local ∷ locals) state =
      merge_locals locals (for_groups (merge_group local) 0 card state)

-- GroupedAccumulateArrays where neither a dense reduction nor a GPU accumulator is chosen.
unfoldable pub accumulate_host :
    {D V F : Type 0}
    → Doubles V
    → ℕ
    → SegmentArrays V
    → List (SumProgram D)
    → GroupedState V F
    → GroupedState V F
accumulate_host doubles hardware seg programs state =
    let threads = host_threads hardware in
    if seg.count == 0
    then state
    else merge_locals doubles state.card seg programs
        (host_locals doubles state.card seg programs (host_chunk seg.count threads) 0 threads) state
