-- ===== src/Groupby/Grouped/Threads.antt =====
-- The merge of the threads' tables: parts of the rows, each from the start, are all the rows.
use duckdb_mlx.Common.{
  ℕ, zero, suc, ◌+◌, ◌-◌, ◌*◌, ◌≤◌, ◌<◌, ◌≡◌, ◌⊎◌, refl, ap, subst, ◌∙◌, Bool, true, false, List,
  [], ◌∷◌, Option, leb, ltb, Bool-cases, inl, inr, IsFold, replicate, arith, if◌then◌else◌,
}
use duckdb_mlx.Common.Loops.{
  map_option, map_option-map_option, fold_where, fold_where-start, fold_where-merge,
}
use duckdb_mlx.Ir.{SumProgram}
use duckdb_mlx.Groupby.Hash.{GroupedState}
use duckdb_mlx.Groupby.Grouped.{Doubles, SegmentArrays, grouped_init_like, for_groups}
use duckdb_mlx.Groupby.Grouped.Host.{
  host_chunk, host_threads, host_thread, host_locals, merge_group, merge_locals,
}

-- The threads' parts reach the last row.
pub host_threads-host_chunk :
    (hardware n : ℕ) → n ≤ host_threads hardware * host_chunk n (host_threads hardware)
host_threads-host_chunk zero n = omega arith
host_threads-host_chunk (suc zero) n = omega arith
host_threads-host_chunk (suc (suc zero)) n = omega arith
host_threads-host_chunk (suc (suc (suc zero))) n = omega arith
host_threads-host_chunk (suc (suc (suc (suc zero)))) n = omega arith
host_threads-host_chunk (suc (suc (suc (suc (suc zero))))) n = omega arith
host_threads-host_chunk (suc (suc (suc (suc (suc (suc zero)))))) n = omega arith
host_threads-host_chunk (suc (suc (suc (suc (suc (suc (suc zero))))))) n = omega arith
host_threads-host_chunk (suc (suc (suc (suc (suc (suc (suc (suc h)))))))) n =
    let eight : host_threads (suc (suc (suc (suc (suc (suc (suc (suc h)))))))) ≡ 8 = ground arith in
    rw eight (omega arith)

pub host_threads-positive : (hardware : ℕ) → 0 < host_threads hardware
host_threads-positive hardware = ground arith

-- An entry of a grouped state, the loop's step that a row makes of it, and how two threads' entries merge.
module _ {D V F A : Type 0} (doubles : Doubles V) (card : ℕ) (seg : SegmentArrays V)
    (programs : List (SumProgram D)) {op : A → A → A} {e : A} (laws : IsFold op e) (hit : ℕ → Bool)
    (value : ℕ → A) (obs : GroupedState V F → Option A) (part : GroupedState V F → A)
    (merges : (local state : GroupedState V F)
      → obs (for_groups (merge_group doubles card seg programs local) 0 card state)
        ≡ map_option (λ a. op a (part local)) (obs state))
    (starts : part (grouped_init_like doubles card programs) ≡ e)
    (works : (lo m : ℕ)
      → part (host_thread doubles card seg programs lo m (grouped_init_like doubles card programs))
        ≡ fold_where hit (λ i a. op a (value i)) lo m e) where
  abbrev rows_from : ℕ → ℕ → A
  rows_from lo m = fold_where hit (λ i a. op a (value i)) lo m e

  abbrev first : GroupedState V F
  first = grouped_init_like doubles card programs

  -- Threads without rows change nothing behind a value.
  idle :
      (k : ℕ) (state : GroupedState V F)
      → obs (merge_locals doubles card seg programs (replicate (suc k) first) state)
        ≡ map_option (λ a. op a e) (obs state)
  unfolding merge_locals
  idle zero state = merges first state ∙ (λ i. map_option (λ a. op a (starts i)) (obs state))
  idle (suc k) state =
      idle k (for_groups (merge_group doubles card seg programs first) 0 card state)
      ∙ ap (map_option (λ a. op a e))
          (merges first state ∙ (λ i. map_option (λ a. op a (starts i)) (obs state)))
      ∙ map_option-map_option (λ a. op a e) (λ a. op a e) (obs state)
      ∙ (λ i. map_option (λ a. (laws.assoc a e e ∙ ap (op a) laws.start) i) (obs state))

  -- The rows of a thread and those behind it.
  joined :
      (lo chunk hi : ℕ)
      → lo < hi
      → hi ≤ seg.count
      → hi ≤ lo + chunk
      → (seg.count ≤ hi) ⊎ (hi ≡ lo + chunk)
      → op (rows_from lo (hi - lo)) (rows_from (lo + chunk) (seg.count - (lo + chunk)))
        ≡ rows_from lo (seg.count - lo)
  unfolding fold_where
  joined lo chunk hi some_rows le le' (inr end) =
      let width : hi - lo ≡ chunk = omega (arith, end) in
      let total : chunk + (seg.count - (lo + chunk)) ≡ seg.count - lo = omega (arith, end) in
      ap (λ m. op (rows_from lo m) (rows_from (lo + chunk) (seg.count - (lo + chunk)))) width
      ∙ fold_where-merge laws hit value lo chunk (seg.count - (lo + chunk))
      ∙ ap (rows_from lo) total
  joined lo chunk hi some_rows le le' (inl last) =
      let none_left : seg.count - (lo + chunk) ≡ 0 = omega arith in
      let width : hi - lo ≡ seg.count - lo = omega arith in
      ap (λ m. op (rows_from lo (hi - lo)) (rows_from (lo + chunk) m)) none_left
      ∙ fold_where-start laws hit value lo (hi - lo)
      ∙ ap (rows_from lo) width

  end_of :
      (lo chunk hi : ℕ)
      → hi ≡ (if ltb seg.count (lo + chunk) then seg.count else lo + chunk)
      → (hi ≤ seg.count) × (hi ≤ lo + chunk) × ((seg.count ≤ hi) ⊎ (hi ≡ lo + chunk))
  end_of lo chunk hi at = elim (Bool-cases (ltb seg.count (lo + chunk))) [
    | inl e ↦
        let here : hi ≡ seg.count = rw e at at in
        (omega (arith, here), ground (arith, here, e), inl (omega (arith, here)))
    | inr e ↦
        let here : hi ≡ lo + chunk = rw e at at in
        (ground (arith, here, e), omega (arith, here), inr here)
  ]

  -- A thread without rows, and all behind it.
  no_rows :
      (chunk t left hi : ℕ) (state : GroupedState V F)
      → hi ≤ t * chunk
      → (seg.count ≤ hi) ⊎ (hi ≡ t * chunk + chunk)
      → seg.count ≤ (t + suc left) * chunk
      → obs (merge_locals doubles card seg programs (replicate (suc left) first) state)
        ≡ map_option (λ a. op a (rows_from (t * chunk) (seg.count - t * chunk))) (obs state)
  unfolding fold_where
  no_rows chunk t left hi state empty end reach =
      let none_left : 0 ≡ seg.count - t * chunk = nothing end in
      idle left state
      ∙ (λ i. map_option (λ a. op a (rows_from (t * chunk) (none_left i))) (obs state))
    where
      nothing : (seg.count ≤ hi) ⊎ (hi ≡ t * chunk + chunk) → 0 ≡ seg.count - t * chunk
      nothing (inl last) = omega arith
      nothing (inr at) =
          let z : chunk ≡ 0 = omega (arith, at) in
          let reach' : seg.count ≤ (t + suc left) * 0 =
            subst (λ c. seg.count ≤ (t + suc left) * c) z reach in
          omega (arith, reach')

  -- A thread with rows: its entry merges with that of the rows behind it.
  one_thread :
      (lo m : ℕ) (state : GroupedState V F)
      → obs (
          for_groups
            (merge_group doubles card seg programs
              (host_thread doubles card seg programs lo m first))
            0
            card
            state)
        ≡ map_option (λ a. op a (rows_from lo m)) (obs state)
  one_thread lo m state =
      merges (host_thread doubles card seg programs lo m first) state
      ∙ (λ i. map_option (λ a. op a (works lo m i)) (obs state))

  abbrev Rest : ℕ → Option A → Option A → Type 0
  Rest lo before after = after ≡ map_option (λ a. op a (rows_from lo (seg.count - lo))) before

  after_thread : ℕ → ℕ → GroupedState V F → GroupedState V F
  after_thread lo m state =
      for_groups
        (merge_group doubles card seg programs (host_thread doubles card seg programs lo m first)) 0
        card state

  -- A thread's round of the loop, with the threads behind it.
  threads_at :
      (chunk t left hi : ℕ) (behind : List (GroupedState V F)) (state : GroupedState V F) (b : Bool)
      → leb hi (t * chunk) ≡ b
      → (seg.count ≤ hi) ⊎ (hi ≡ t * chunk + chunk)
      → seg.count ≤ (t + suc left) * chunk
      → (t * chunk < hi
          → Rest (t * chunk) (obs state) (
              obs (
                merge_locals doubles card seg programs behind
                  (after_thread (t * chunk) (hi - t * chunk) state))))
      → Rest (t * chunk) (obs state) (
          obs (
            merge_locals doubles card seg programs
              (elim b as (λ _. List (GroupedState V F)) [
                | true ↦ replicate (suc left) first
                | false ↦
                    host_thread doubles card seg programs (t * chunk) (hi - t * chunk) first
                    ∷ behind
              ])
              state))
  unfolding merge_locals after_thread
  threads_at chunk t left hi behind state true e end reach rest =
      no_rows chunk t left hi state (ground (arith, e)) end reach
  threads_at chunk t left hi behind state false e end reach rest = rest (ground (arith, e))

  last_thread :
      (chunk t hi : ℕ)
      → seg.count ≤ (t + 1) * chunk
      → hi ≤ seg.count
      → (seg.count ≤ hi) ⊎ (hi ≡ t * chunk + chunk)
      → hi - t * chunk ≡ seg.count - t * chunk
  last_thread chunk t hi reach le (inl all) = omega arith
  last_thread chunk t hi reach le (inr at) =
      let next : (t + 1) * chunk ≡ t * chunk + chunk = omega arith in omega (arith, at, next)

  -- The threads from `t` on do the rows from theirs on.
  pub merge_locals-rows :
      (chunk t left : ℕ) (state : GroupedState V F)
      → seg.count ≤ (t + suc left) * chunk
      → obs (
          merge_locals doubles card seg programs
            (host_locals doubles card seg programs chunk t (suc left))
            state)
        ≡ map_option (λ a. op a (rows_from (t * chunk) (seg.count - t * chunk))) (obs state)
  unfolding host_locals merge_locals after_thread
  merge_locals-rows chunk t zero state reach =
      let lo : ℕ = t * chunk in
      let hi : ℕ = if ltb seg.count (lo + chunk) then seg.count else lo + chunk in
      let (le, le', end) = end_of lo chunk hi refl in
      threads_at chunk t zero hi [] state (leb hi lo) refl end reach (λ some_rows.
        one_thread lo (hi - lo) state ∙ (λ i.
          map_option (λ a. op a (rows_from lo (last_thread chunk t hi reach le end i)))
            (obs state)))
  merge_locals-rows chunk t (suc left) state reach =
      let lo : ℕ = t * chunk in
      let hi : ℕ = if ltb seg.count (lo + chunk) then seg.count else lo + chunk in
      let (le, le', end) = end_of lo chunk hi refl in
      let next : suc t * chunk ≡ lo + chunk = omega arith in
      let same : t + suc (suc left) ≡ suc t + suc left = omega arith in
      let here : A = rows_from lo (hi - lo) in
      let later : A = rows_from (suc t * chunk) (seg.count - suc t * chunk) in
      threads_at chunk t (suc left) hi
        (host_locals doubles card seg programs chunk (suc t) (suc left)) state (leb hi lo) refl end
        reach
        (λ some_rows.
          merge_locals-rows chunk (suc t) left (after_thread lo (hi - lo) state)
            (subst (λ k. seg.count ≤ k * chunk) same reach)
          ∙ ap (map_option (λ a. op a later)) (one_thread lo (hi - lo) state)
          ∙ map_option-map_option (λ a. op a later) (λ a. op a here) (obs state)
          ∙ (λ i.
              map_option
                (λ a.
                  (laws.assoc a here later
                      ∙ ap (λ x. op a (op here (rows_from x (seg.count - x)))) next
                      ∙ ap (op a) (joined lo chunk hi some_rows le le' end))
                    i)
                (obs state)))
