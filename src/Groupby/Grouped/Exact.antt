-- ===== src/Groupby/Grouped/Exact.antt =====
-- The tables of a grouped state after the host has added the rows of a segment.
use duckdb_mlx.Common.{
  ℕ, zero, suc, ◌+◌, ◌-◌, ◌*◌, ◌≤◌, ◌<◌, ◌≡◌, ◌≢◌, ap, subst, ◌∙◌, true, false, List, some, ◌==◌,
  pos, +-IsFold, length, get_elem?, get_or, arith,
}
use duckdb_mlx.Common.Loops.{map_option}
use duckdb_mlx.Ir.{AggKind, count_star, SumProgram}
use duckdb_mlx.Segment.{has_value_graph}
use duckdb_mlx.Groupby.Hash.{GroupedState}
use duckdb_mlx.Groupby.Grouped.{
  Doubles, LaneArray, SegmentArrays, slot_of, first_int, grouped_init_like, for_groups,
}
use duckdb_mlx.Groupby.Grouped.Host.{
  host_chunk, host_threads, host_thread, host_rows, host_program, merge_slot, merge_group,
  merge_int, entry, int_at, accumulate_host, host_locals, merge_locals,
}
use duckdb_mlx.Groupby.Grouped.Slots.{
  slot_of-other, slot_of-apart, for_programs_at, for_programs_same, for_groups_at, get_elem?-get_or,
  update-here, update-other,
}
use duckdb_mlx.Groupby.Grouped.Start.{
  int_laws, get_elem?-length, grouped_init_like-ivalues, grouped_init_like-counts,
}
use duckdb_mlx.Groupby.Grouped.Program.{
  in_group, int_fold, count_fold, host_program-ivalues, host_program-ivalues-other,
  host_program-counts, host_program-counts-other,
}
use duckdb_mlx.Groupby.Grouped.Threads.{
  host_threads-host_chunk, host_threads-positive, merge_locals-rows,
}

module _ (F : Type 0) {D V : Type 0} (doubles : Doubles V) (card : ℕ) (seg : SegmentArrays V)
    (programs : List (SumProgram D)) (g p : ℕ) (prog : SumProgram D) (hg : g < card)
    (found : get_elem? programs p ≡ some prog) where
  thread_program : ℕ → ℕ → ℕ → SumProgram D → GroupedState V F → GroupedState V F
  thread_program lo m q x t =
      host_program doubles card (length programs) seg.codes lo m q x.kind x.int_lane
        (entry seg.exprs q) (entry seg.masks q) t

  host_thread-ivalues :
      (e : LaneArray V) (lo m : ℕ)
      → prog.int_lane ≡ true
      → has_value_graph prog.kind ≡ true
      → entry seg.exprs p ≡ some e
      → get_elem?
          ((host_thread {F = F} doubles card seg programs lo m
            (grouped_init_like doubles card programs)).ivalues)
          (slot_of (length programs) g p)
        ≡ some (int_fold seg.codes g prog.kind (entry seg.masks p) e lo m (first_int prog.kind))
  unfolding host_thread host_rows thread_program
  host_thread-ivalues e lo m lane graph has =
      let hp : p < length programs = get_elem?-length programs p prog found in
      for_programs_at
        (λ (t : GroupedState V F). get_elem? t.ivalues (slot_of (length programs) g p))
        (map_option (int_fold seg.codes g prog.kind (entry seg.masks p) e lo m)) (length programs)
        (thread_program lo m) p
        (λ q x t hq apart.
          host_program-ivalues-other card seg.codes g hg (length programs) p hp doubles lo m q
            x.kind x.int_lane (entry seg.exprs q) (entry seg.masks q) t hq apart)
        prog 0 p programs _
        (λ t.
          (λ i.
            get_elem?
              ((host_program doubles card (length programs) seg.codes lo m p prog.kind (lane i)
                (has i) (entry seg.masks p) t).ivalues)
              (slot_of (length programs) g p))
          ∙ host_program-ivalues card seg.codes g hg (length programs) p hp doubles lo m prog.kind e
              (entry seg.masks p) t graph)
        (omega arith) (omega arith) found
      ∙ ap (map_option (int_fold seg.codes g prog.kind (entry seg.masks p) e lo m))
          (grouped_init_like-ivalues F doubles card programs g p prog hg found)

  host_thread-counts :
      (lo m : ℕ)
      → prog.kind ≢ count_star
      → get_elem?
          ((host_thread {F = F} doubles card seg programs lo m
            (grouped_init_like doubles card programs)).counts)
          (slot_of (length programs) g p)
        ≡ some (count_fold seg.codes g (entry seg.masks p) lo m 0)
  unfolding host_thread host_rows thread_program
  host_thread-counts lo m counted =
      let hp : p < length programs = get_elem?-length programs p prog found in
      for_programs_at (λ (t : GroupedState V F). get_elem? t.counts (slot_of (length programs) g p))
        (map_option (count_fold seg.codes g (entry seg.masks p) lo m)) (length programs)
        (thread_program lo m) p
        (λ q x t hq apart.
          host_program-counts-other card seg.codes g hg (length programs) p hp doubles lo m q x.kind
            x.int_lane (entry seg.exprs q) (entry seg.masks q) t hq apart)
        prog 0 p programs _
        (λ t.
          host_program-counts card seg.codes g hg (length programs) p hp doubles lo m prog.kind
            prog.int_lane (entry seg.exprs p) (entry seg.masks p) t counted)
        (omega arith) (omega arith) found
      ∙ ap (map_option (count_fold seg.codes g (entry seg.masks p) lo m))
          (grouped_init_like-counts F doubles card programs g p prog hg found)

  -- A slot of the merged tables.
  module _ (local : GroupedState V F) where
    merge_slot-other :
        (k q : ℕ) (kind : AggKind) (t : GroupedState V F)
        → (slot_of (length programs) k q == slot_of (length programs) g p) ≡ false
        → (get_elem?
              ((merge_slot doubles card seg programs local
                (slot_of (length programs) k q)
                kind
                t).ivalues)
              (slot_of (length programs) g p)
            ≡ get_elem? t.ivalues (slot_of (length programs) g p))
          × (get_elem?
                ((merge_slot doubles card seg programs local
                  (slot_of (length programs) k q)
                  kind
                  t).counts)
                (slot_of (length programs) g p)
              ≡ get_elem? t.counts (slot_of (length programs) g p))
    unfolding merge_slot
    merge_slot-other k q kind t apart = (
      update-other t.ivalues (slot_of (length programs) k q) (slot_of (length programs) g p) _
          apart,
      update-other t.counts (slot_of (length programs) k q) (slot_of (length programs) g p) _ apart,
    )

    merge-ivalues :
        (state : GroupedState V F)
        → get_elem?
            ((for_groups (merge_group doubles card seg programs local) 0 card state).ivalues)
            (slot_of (length programs) g p)
          ≡ map_option
              (λ a.
                merge_int prog.kind a
                  (get_or local.ivalues (slot_of (length programs) g p) (pos 0)))
              (get_elem? state.ivalues (slot_of (length programs) g p))
    unfolding merge_group merge_slot
    merge-ivalues state =
        let hp : p < length programs = get_elem?-length programs p prog found in
        for_groups_at
          (λ (t : GroupedState V F). get_elem? t.ivalues (slot_of (length programs) g p))
          (map_option (λ a.
            merge_int prog.kind a (get_or local.ivalues (slot_of (length programs) g p) (pos 0))))
          (merge_group doubles card seg programs local) g
          (λ k t apart.
            for_programs_same
              (λ (t : GroupedState V F). get_elem? t.ivalues (slot_of (length programs) g p))
              (length programs)
              (λ q x.
                merge_slot doubles card seg programs local (slot_of (length programs) k q) x.kind)
              (λ q x t hq.
                (merge_slot-other k q x.kind t
                  (slot_of-apart (length programs) g k p q hp hq apart)).0)
              0 programs _ (omega arith))
          (λ t.
            for_programs_at
              (λ (t : GroupedState V F). get_elem? t.ivalues (slot_of (length programs) g p))
              (map_option (λ a.
                merge_int prog.kind a
                  (get_or local.ivalues (slot_of (length programs) g p) (pos 0))))
              (length programs)
              (λ q x.
                merge_slot doubles card seg programs local (slot_of (length programs) g q) x.kind)
              p
              (λ q x t hq apart.
                (merge_slot-other g q x.kind t
                  (slot_of-other (length programs) g g p q hp hq apart)).0)
              prog 0 p programs _ (λ t. update-here t.ivalues (slot_of (length programs) g p) _)
              (omega arith) (omega arith) found)
          0 card state (omega arith) (omega arith)

    merge-counts :
        (state : GroupedState V F)
        → get_elem?
            ((for_groups (merge_group doubles card seg programs local) 0 card state).counts)
            (slot_of (length programs) g p)
          ≡ map_option
              (λ c. c + get_or local.counts (slot_of (length programs) g p) 0)
              (get_elem? state.counts (slot_of (length programs) g p))
    unfolding merge_group merge_slot
    merge-counts state =
        let hp : p < length programs = get_elem?-length programs p prog found in
        for_groups_at (λ (t : GroupedState V F). get_elem? t.counts (slot_of (length programs) g p))
          (map_option (λ c. c + get_or local.counts (slot_of (length programs) g p) 0))
          (merge_group doubles card seg programs local) g
          (λ k t apart.
            for_programs_same
              (λ (t : GroupedState V F). get_elem? t.counts (slot_of (length programs) g p))
              (length programs)
              (λ q x.
                merge_slot doubles card seg programs local (slot_of (length programs) k q) x.kind)
              (λ q x t hq.
                (merge_slot-other k q x.kind t
                  (slot_of-apart (length programs) g k p q hp hq apart)).1)
              0 programs _ (omega arith))
          (λ t.
            for_programs_at
              (λ (t : GroupedState V F). get_elem? t.counts (slot_of (length programs) g p))
              (map_option (λ c. c + get_or local.counts (slot_of (length programs) g p) 0))
              (length programs)
              (λ q x.
                merge_slot doubles card seg programs local (slot_of (length programs) g q) x.kind)
              p
              (λ q x t hq apart.
                (merge_slot-other g q x.kind t
                  (slot_of-other (length programs) g g p q hp hq apart)).1)
              prog 0 p programs _ (λ t. update-here t.counts (slot_of (length programs) g p) _)
              (omega arith) (omega arith) found)
          0 card state (omega arith) (omega arith)

run_threads :
    {D V F A : Type 0} (doubles : Doubles V) (card : ℕ) (seg : SegmentArrays V)
    (programs : List (SumProgram D)) (obs : GroupedState V F → A) (result : A) (chunk threads : ℕ)
    (state : GroupedState V F)
    → 0 < threads
    → seg.count ≤ threads * chunk
    → ((left : ℕ)
        → seg.count ≤ (0 + suc left) * chunk
        → obs (
            merge_locals doubles card seg programs
              (host_locals doubles card seg programs chunk 0 (suc left))
              state)
          ≡ result)
    → obs (
        merge_locals doubles card seg programs
          (host_locals doubles card seg programs chunk 0 threads)
          state)
      ≡ result
run_threads doubles card seg programs obs result chunk zero state positive reach h =
    absurd (omega arith)
run_threads doubles card seg programs obs result chunk (suc left) state positive reach h =
    let same : suc left ≡ 0 + suc left = omega arith in
    h left (subst (λ k. seg.count ≤ k * chunk) same reach)

module _ {D V F : Type 0} (doubles : Doubles V) (hardware : ℕ) (seg : SegmentArrays V)
    (programs : List (SumProgram D)) (state : GroupedState V F) (g p : ℕ) (prog : SumProgram D)
    (hg : g < state.card) (found : get_elem? programs p ≡ some prog) (rows : 0 < seg.count) where
  -- However many threads share the rows of a segment, the host adds to the int64 slot of a group
  -- and a program exactly what the program makes of the group's rows, in order, from the start of
  -- its kind: their sum, least or greatest value, over the rows that the program's mask lets
  -- pass. Conditions: the segment has rows, the group and the program are in range, and the
  -- program reads values on the int64 lane.
  pub accumulate_host-int_fold :
      (e : LaneArray V)
      → prog.int_lane ≡ true
      → has_value_graph prog.kind ≡ true
      → entry seg.exprs p ≡ some e
      → get_elem?
          ((accumulate_host doubles hardware seg programs state).ivalues)
          (slot_of (length programs) g p)
        ≡ map_option
            (λ a. merge_int prog.kind a (
              int_fold seg.codes g prog.kind
                (entry seg.masks p)
                e
                0
                seg.count
                (first_int prog.kind)))
            (get_elem? state.ivalues (slot_of (length programs) g p))
  unfolding accumulate_host
  accumulate_host-int_fold e lane graph has =
      let threads : ℕ = host_threads hardware in
      let chunk : ℕ = host_chunk seg.count threads in
      let s : ℕ = slot_of (length programs) g p in
      let some_rows : (seg.count == 0) ≡ false = ground arith in
      let from : 0 * chunk ≡ 0 = omega arith in
      let whole : seg.count - 0 * chunk ≡ seg.count = omega arith in
      rw some_rows (
        run_threads doubles state.card seg programs
          (λ (t : GroupedState V F). get_elem? t.ivalues s) _ chunk threads state
          (host_threads-positive hardware) (host_threads-host_chunk hardware seg.count)
          (λ left reach.
            merge_locals-rows doubles state.card seg programs (int_laws prog.kind)
              (in_group seg.codes (entry seg.masks p) g) (int_at e)
              (λ (t : GroupedState V F). get_elem? t.ivalues s)
              (λ (t : GroupedState V F). get_or t.ivalues s (pos 0))
              (λ local t. merge-ivalues F doubles state.card seg programs g p prog hg found local t)
              (get_elem?-get_or _ s (pos 0) _
                (grouped_init_like-ivalues F doubles state.card programs g p prog hg found))
              (λ lo m. get_elem?-get_or _ s (pos 0) _ (
                host_thread-ivalues F doubles state.card seg programs g p prog hg found e lo m lane
                  graph has))
              chunk 0 left state reach
            ∙ (λ i.
                map_option
                  (λ a. merge_int prog.kind a (
                    int_fold seg.codes g prog.kind (entry seg.masks p) e (from i) (whole i)
                      (first_int prog.kind)))
                  (get_elem? state.ivalues s))))

  -- However many threads share the rows of a segment, the count of a group and a program grows by
  -- the number of the group's rows that the program's mask lets pass, for every program but
  -- COUNT(*). Conditions: the segment has rows, and the group and the program are in range.
  pub accumulate_host-count_fold :
      prog.kind ≢ count_star
      → get_elem?
          ((accumulate_host doubles hardware seg programs state).counts)
          (slot_of (length programs) g p)
        ≡ map_option
            (λ c. c + count_fold seg.codes g (entry seg.masks p) 0 seg.count 0)
            (get_elem? state.counts (slot_of (length programs) g p))
  unfolding accumulate_host
  accumulate_host-count_fold counted =
      let threads : ℕ = host_threads hardware in
      let chunk : ℕ = host_chunk seg.count threads in
      let s : ℕ = slot_of (length programs) g p in
      let some_rows : (seg.count == 0) ≡ false = ground arith in
      let from : 0 * chunk ≡ 0 = omega arith in
      let whole : seg.count - 0 * chunk ≡ seg.count = omega arith in
      rw some_rows (
        run_threads doubles state.card seg programs (λ (t : GroupedState V F). get_elem? t.counts s)
          _ chunk threads state (host_threads-positive hardware)
          (host_threads-host_chunk hardware seg.count)
          (λ left reach.
            merge_locals-rows doubles state.card seg programs +-IsFold
              (in_group seg.codes (entry seg.masks p) g) (λ i. 1)
              (λ (t : GroupedState V F). get_elem? t.counts s)
              (λ (t : GroupedState V F). get_or t.counts s 0)
              (λ local t. merge-counts F doubles state.card seg programs g p prog hg found local t)
              (get_elem?-get_or _ s 0 _
                (grouped_init_like-counts F doubles state.card programs g p prog hg found))
              (λ lo m. get_elem?-get_or _ s 0 _ (
                host_thread-counts F doubles state.card seg programs g p prog hg found lo m
                  counted))
              chunk 0 left state reach
            ∙ (λ i.
                map_option
                  (λ c. c + count_fold seg.codes g (entry seg.masks p) (from i) (whole i) 0)
                  (get_elem? state.counts s))))
