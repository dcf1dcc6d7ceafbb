-- ===== src/Groupby/Grouped/Scatter.antt =====
-- src/bridge/mlx_bridge.cpp, GroupedCpuScatterInt: the host's part of the tables that a GPU accumulator
-- fills, the int64 programs that get neither int32 nor float32 rows.
use mathlib.Core.Logic.{◌⊎◌}
use duckdb_mlx.Common.{
  ℕ, ◌<◌, ◌≡◌, ◌≢◌, refl, ◌∙◌, Bool, true, false, not, ◌&&◌, ◌||◌, List, Option, none, some,
  Bool-cases, inl, inr, sym, ℤ, length, get_elem?, ◌==◌, arith, if◌then◌else◌,
}
use duckdb_mlx.Common.Loops.{scatter, map_option, map_option_id, fold_where}
use duckdb_mlx.Ir.{AggKind, sum, count, count_star, avg, min, max, SumProgram}
use duckdb_mlx.Groupby.Hash.{GroupedState}
use duckdb_mlx.Groupby.Grouped.{LaneArray, SegmentArrays, slot_of, for_programs}
use duckdb_mlx.Groupby.Grouped.Host.{program_slot, merge_int, int_at, entry}
use duckdb_mlx.Groupby.Grouped.Slots.{for_programs_at}
use duckdb_mlx.Groupby.Grouped.Start.{get_elem?-length}
use duckdb_mlx.Groupby.Grouped.Program.{int_fold, rows-in_group, rows-other}

-- Whether the host scatters a kind, `narrow` where the GPU adds its rows.
abbrev pub cpu_kind : AggKind → Bool → Bool
cpu_kind sum narrow = not narrow
cpu_kind avg narrow = not narrow
cpu_kind min narrow = true
cpu_kind max narrow = true
cpu_kind _ narrow = false

abbrev pub cpu_program : {D : Type 0} → SumProgram D → Bool
cpu_program program =
    program.int_lane && cpu_kind program.kind (program.int32_rows || program.gpu_fp32_rows)

-- The kinds, by the lane and the rows that the GPU gets, that are left to the host.
abbrev pub HostAdds : AggKind → Bool → Bool → Bool → Type 0
HostAdds sum true false false = Unit
HostAdds avg true false false = Unit
HostAdds min true int32_rows gpu_fp32_rows = Unit
HostAdds max true int32_rows gpu_fp32_rows = Unit
HostAdds _ _ _ _ = ⊥

HostAdds-cases :
    (kind : AggKind) (int_lane int32_rows gpu_fp32_rows : Bool)
    → (HostAdds kind int_lane int32_rows gpu_fp32_rows
        × ((int_lane && cpu_kind kind (int32_rows || gpu_fp32_rows)) ≡ true))
      ⊎ ((¬ HostAdds kind int_lane int32_rows gpu_fp32_rows)
          × ((int_lane && cpu_kind kind (int32_rows || gpu_fp32_rows)) ≡ false))
HostAdds-cases sum true true fp = inr (λ h. h, refl)
HostAdds-cases sum true false true = inr (λ h. h, refl)
HostAdds-cases sum true false false = inl (tt, refl)
HostAdds-cases sum false i32 fp = inr (λ h. h, refl)
HostAdds-cases avg true true fp = inr (λ h. h, refl)
HostAdds-cases avg true false true = inr (λ h. h, refl)
HostAdds-cases avg true false false = inl (tt, refl)
HostAdds-cases avg false i32 fp = inr (λ h. h, refl)
HostAdds-cases min true i32 fp = inl (tt, refl)
HostAdds-cases min false i32 fp = inr (λ h. h, refl)
HostAdds-cases max true i32 fp = inl (tt, refl)
HostAdds-cases max false i32 fp = inr (λ h. h, refl)
HostAdds-cases count true i32 fp = inr (λ h. h, refl)
HostAdds-cases count false i32 fp = inr (λ h. h, refl)
HostAdds-cases count_star true i32 fp = inr (λ h. h, refl)
HostAdds-cases count_star false i32 fp = inr (λ h. h, refl)

module _ {V : Type 0} (seg : SegmentArrays V) (g : ℕ) (kind : AggKind)
    (mask : Option (List Bool)) where
  -- What a round of the loop makes of a slot.
  abbrev scattered : Bool → LaneArray V → Option ℤ → Option ℤ
  scattered b e o =
      map_option (λ a. if b then int_fold seg.codes g kind mask e 0 seg.count a else a) o

  no_fold : (b : Bool) (e : LaneArray V) (o : Option ℤ) → seg.count ≡ 0 → o ≡ scattered b e o
  unfolding fold_where
  no_fold false e o h = sym (map_option_id (λ a. a) o (λ a. refl))
  no_fold true e o h = sym (
      (λ i. map_option (int_fold seg.codes g kind mask e 0 (h i)) o)
      ∙ map_option_id (λ a. a) o (λ a. refl))

module _ {D V F : Type 0} (card : ℕ) (seg : SegmentArrays V) (programs : List (SumProgram D)) where
  unfoldable pub scatter_rows :
      ℕ
      → AggKind
      → Bool
      → Option (LaneArray V)
      → Option (List Bool)
      → GroupedState V F
      → GroupedState V F
  scatter_rows p kind false e mask state = state
  scatter_rows p kind true none mask state = state
  scatter_rows p kind true (some e) mask state = record state {
    ivalues =
        scatter (program_slot card (length programs) seg.codes p mask)
          (λ i a. merge_int kind a (int_at e i)) 0 seg.count state.ivalues;
  }

  unfoldable pub cpu_scatter_int : GroupedState V F → GroupedState V F
  cpu_scatter_int state =
      if seg.count == 0
      then state
      else for_programs
          (λ p program.
            scatter_rows p program.kind (cpu_program program) (entry seg.exprs p)
              (entry seg.masks p))
          0 programs state

  module _ (g p : ℕ) (prog : SumProgram D) (hg : g < card)
      (found : get_elem? programs p ≡ some prog) where
    scatter_rows-hit :
        (b : Bool) (e : LaneArray V) (t : GroupedState V F)
        → get_elem?
            ((scatter_rows p prog.kind b (some e) (entry seg.masks p) t).ivalues)
            (slot_of (length programs) g p)
          ≡ scattered seg g prog.kind
              (entry seg.masks p)
              b
              e
              (get_elem? t.ivalues (slot_of (length programs) g p))
    unfolding scatter_rows
    scatter_rows-hit false e t =
        sym
          (map_option_id (λ a. a) (get_elem? t.ivalues (slot_of (length programs) g p)) (λ a. refl))
    scatter_rows-hit true e t =
        rows-in_group card seg.codes g hg (length programs) p
          (get_elem?-length programs p prog found) (entry seg.masks p) _ 0 seg.count t.ivalues

    scatter_rows-other :
        (q : ℕ) (kind : AggKind) (b : Bool) (e : Option (LaneArray V)) (mask : Option (List Bool))
        (t : GroupedState V F)
        → q < length programs
        → q ≢ p
        → get_elem? ((scatter_rows q kind b e mask t).ivalues) (slot_of (length programs) g p)
          ≡ get_elem? t.ivalues (slot_of (length programs) g p)
    unfolding scatter_rows
    scatter_rows-other q kind false e mask t hq apart = refl
    scatter_rows-other q kind true none mask t hq apart = refl
    scatter_rows-other q kind true (some e) mask t hq apart =
        rows-other card seg.codes g hg (length programs) p (get_elem?-length programs p prog found)
          q mask _ 0 seg.count t.ivalues hq apart

    cpu_scatter_int-if_cpu_program :
        (e : LaneArray V) (state : GroupedState V F)
        → entry seg.exprs p ≡ some e
        → get_elem? ((cpu_scatter_int state).ivalues) (slot_of (length programs) g p)
          ≡ map_option
              (λ a.
                if cpu_program prog
                then int_fold seg.codes g prog.kind (entry seg.masks p) e 0 seg.count a
                else a)
              (get_elem? state.ivalues (slot_of (length programs) g p))
    unfolding cpu_scatter_int
    cpu_scatter_int-if_cpu_program e state has = elim (Bool-cases (seg.count == 0)) [
      | inl empty ↦
          rw (empty, cpu_scatter_int)
            (no_fold seg g prog.kind (entry seg.masks p) (cpu_program prog) e
              (get_elem? state.ivalues (slot_of (length programs) g p)) (ground (arith, empty)))
      | inr some_rows ↦
          rw (some_rows, cpu_scatter_int)
            (for_programs_at
              (λ (t : GroupedState V F). get_elem? t.ivalues (slot_of (length programs) g p))
              (scattered seg g prog.kind (entry seg.masks p) (cpu_program prog) e) (length programs)
              (λ q x. scatter_rows q x.kind (cpu_program x) (entry seg.exprs q) (entry seg.masks q))
              p
              (λ q x t hq apart.
                scatter_rows-other q x.kind (cpu_program x) (entry seg.exprs q) (entry seg.masks q)
                  t hq apart)
              prog 0 p programs state
              (λ t.
                (λ i.
                  get_elem?
                    ((scatter_rows p prog.kind (cpu_program prog) (has i) (entry seg.masks p)
                      t).ivalues)
                    (slot_of (length programs) g p))
                ∙ scatter_rows-hit (cpu_program prog) e t)
              (omega arith) (omega arith) found)
    ]

    -- On the int64 lane the host takes MIN and MAX, and the SUM and AVG that have neither int32 nor float32
    -- rows for the GPU: the slot of a group and of such a program goes through the group's rows that the
    -- program's mask lets pass, in order. The slot of any other program stays as it is. Conditions: the
    -- group and the program are in range, and the program has values.
    pub cpu_scatter_int-int_fold :
        (e : LaneArray V) (state : GroupedState V F)
        → entry seg.exprs p ≡ some e
        → (HostAdds prog.kind prog.int_lane prog.int32_rows prog.gpu_fp32_rows
            × (get_elem? ((cpu_scatter_int state).ivalues) (slot_of (length programs) g p)
                ≡ map_option
                    (int_fold seg.codes g prog.kind (entry seg.masks p) e 0 seg.count)
                    (get_elem? state.ivalues (slot_of (length programs) g p))))
          ⊎ ((¬ HostAdds prog.kind prog.int_lane prog.int32_rows prog.gpu_fp32_rows)
              × (get_elem? ((cpu_scatter_int state).ivalues) (slot_of (length programs) g p)
                  ≡ get_elem? state.ivalues (slot_of (length programs) g p)))
    cpu_scatter_int-int_fold e state has =
        elim (HostAdds-cases prog.kind prog.int_lane prog.int32_rows prog.gpu_fp32_rows) [
          | inl (adds, yes') ↦ inl (
            adds,
            cpu_scatter_int-if_cpu_program e state has ∙ (λ i.
                scattered seg g prog.kind (entry seg.masks p) (yes' i) e
                  (get_elem? state.ivalues (slot_of (length programs) g p))),
          )
          | inr (leaves, no') ↦ inr (
            leaves,
            cpu_scatter_int-if_cpu_program e state has
                ∙ (λ i.
                    scattered seg g prog.kind (entry seg.masks p) (no' i) e
                      (get_elem? state.ivalues (slot_of (length programs) g p)))
                ∙ map_option_id (λ a. a) (get_elem? state.ivalues (slot_of (length programs) g p))
                    (λ a. refl),
          )
        ]
