-- ===== src/Groupby/Radix/Threads.antt =====
-- The threads' parts together are the runs of all entries.
use duckdb_mlx.Common.{
  ℕ, zero, suc, ◌+◌, ◌-◌, ◌*◌, ◌/◌, ◌≤◌, ◌<◌, ◌≡◌, ◌≢◌, refl, sym, ap, subst, ◌∙◌, Bool, true,
  false, ◌&&◌, List, [], ◌∷◌, ◌++◌, ltb, ◌==◌, length, take, drop, take-drop, drop-drop,
  length-drop, drop_all, Bool-cases, inl, inr, ◌⊎◌, ltb→lt, lt→ltb, arith,
}
use mathlib.Core.Bool.{false≢true}
use duckdb_mlx.Common.Int64.{Int64, add_i64}
use duckdb_mlx.Groupby.Radix.{
  seg_threads, key_at, thread_run, thread_runs, inside_run, advance, starts_from, thread_rows,
}

abbrev Entries : Type 0
Entries = List (Int64 × Int64)

-- The last key of a run of entries that starts with `k`.
abbrev last_key : Int64 → Entries → Int64
last_key k [] = k
last_key k ((j, _) ∷ es) = last_key j es

-- The entries do not go on with the key `k`.
abbrev Parted : Int64 → Entries → Type 0
Parted k [] = Unit
Parted k ((j, _) ∷ es) = (j == k) ≡ false

thread_run-append :
    (k sum : Int64) (xs ys : Entries)
    → Parted (last_key k xs) ys
    → thread_run k sum (xs ++ ys) ≡ thread_run k sum xs ++ thread_runs ys
unfolding thread_run thread_runs
thread_run-append k sum [] [] h = refl
thread_run-append k sum [] ((j, v) ∷ ys) h = rw (h, thread_run)
thread_run-append k sum ((j, v) ∷ xs) ys h = elim (Bool-cases (j == k)) [
  | inl e ↦
      rw (e, thread_run)
        (thread_run-append k (add_i64 sum v) xs ys
          (let same : j ≡ k = ground (arith, e) in rw (sym same) h))
  | inr e ↦ rw (e, thread_run) (ap (◌∷◌ (k, sum)) (thread_run-append j (add_i64 0 v) xs ys h))
]

thread_runs-append :
    (k v : Int64) (xs ys : Entries)
    → Parted (last_key k xs) ys
    → thread_runs ((k, v) ∷ xs ++ ys) ≡ thread_runs ((k, v) ∷ xs) ++ thread_runs ys
unfolding thread_runs
thread_runs-append k v xs ys h = thread_run-append k (add_i64 0 v) xs ys h

-- The entries from `s` on begin a run, or there are none.
abbrev IsStart : Entries → ℕ → Type 0
IsStart es s = (s ≤ length es) × (inside_run es s ≡ false)

and_left : (a b : Bool) → (a && b) ≡ true → a ≡ true
and_left true b h = refl
and_left false b h = absurd (false≢true h)

and_rest : (a b c : Bool) → a ≡ true → b ≡ true → (a && (b && c)) ≡ false → c ≡ false
and_rest true true c ha hb h = h
and_rest false b c ha hb h = absurd (false≢true ha)
and_rest true false c ha hb h = absurd (false≢true hb)

le-or-lt : (a b : ℕ) → (a ≤ b) ⊎ (b < a)
le-or-lt a b = ground arith

advance-IsStart :
    (fuel : ℕ) (es : Entries) (s : ℕ)
    → s ≤ length es
    → length es ≤ fuel + s
    → (s ≤ advance fuel es s) × IsStart es (advance fuel es s)
unfolding advance
advance-IsStart zero es s h f =
    let out : ltb s (length es) ≡ false = ground (arith, h, f) in (omega arith, (h, rw out refl))
advance-IsStart (suc fuel) es s h f = elim (Bool-cases (inside_run es s)) [
  | inl e ↦
      let below : s < length es = ltb→lt s (length es) (and_left (ltb s (length es)) _ e) in
      let (lo, start) = advance-IsStart fuel es (suc s) (omega arith) (omega arith) in
      rw (e, advance) (omega arith, start)
  | inr e ↦ rw (e, advance) (omega arith, (h, e))
]

-- No start stands between.
advance-least :
    (fuel : ℕ) (es : Entries) (s u : ℕ) → s ≤ u → inside_run es u ≡ false → advance fuel es s ≤ u
unfolding advance
advance-least zero es s u h e = h
advance-least (suc fuel) es s u h e = elim (Bool-cases (inside_run es s)) [
  | inl i ↦
      rw (i, advance)
        (advance-least fuel es (suc s) u
          (let ne : s ≢ u = λ q. false≢true (sym e ∙ ap (inside_run es) (sym q) ∙ i) in omega arith)
          e)
  | inr o ↦ rw (o, advance) h
]

-- From the first start on.
abbrev IsStarts : Entries → ℕ → List ℕ → Type 0
IsStarts es lo [] = lo ≡ length es
IsStarts es lo (hi ∷ his) = (lo ≤ hi) × IsStart es hi × IsStarts es hi his

starts_from-IsStarts :
    (t left lo : ℕ) (es : Entries)
    → length es / seg_threads * t + length es / seg_threads * left ≤ length es
    → (1 ≤ left → lo ≤ advance (length es) es (length es / seg_threads * t))
    → lo ≤ length es
    → IsStarts es lo (starts_from t left es)
unfolding starts_from
starts_from-IsStarts t zero lo es h below le =
    let out : ltb (length es) (length es) ≡ false = ground arith in
    (le, (omega arith, rw out refl), refl)
starts_from-IsStarts t (suc left) lo es h below le =
    let (lo_le, start) =
      advance-IsStart (length es) es (length es / seg_threads * t) (omega arith) (omega arith) in
    let fit : length es / seg_threads * suc t + length es / seg_threads * left ≤ length es =
      omega arith in
    let more : length es / seg_threads * t ≤ length es / seg_threads * suc t = omega arith in
    let (next_le, next) =
      advance-IsStart (length es) es (length es / seg_threads * suc t) (omega arith)
        (omega arith) in
    (
      below (omega arith),
      start,
      starts_from-IsStarts (suc t) left _ es fit
          (λ le.
            advance-least (length es) es (length es / seg_threads * t) _ (omega arith) (next.1))
          (start.0),
    )

-- The entry after the last of the first `h` has another key than that.
Parted-drop :
    (e : Int64 × Int64) (es : Entries) (h : ℕ)
    → h < length es
    → (key_at (e ∷ es) (suc h) == key_at (e ∷ es) h) ≡ false
    → Parted (last_key (e.0) (take h es)) (drop h es)
Parted-drop e [] h lt ne = absurd (omega arith)
Parted-drop e (e' ∷ es) zero lt ne = ne
Parted-drop e (e' ∷ es) (suc h) lt ne = Parted-drop e' es h (omega arith) ne

key_at-drop : (es : Entries) (lo i : ℕ) → key_at (drop lo es) i ≡ key_at es (lo + i)
key_at-drop es zero i = let e : 0 + i ≡ i = omega arith in rw e
key_at-drop [] (suc lo) i = refl
key_at-drop (e ∷ es) (suc lo) i =
    let s : suc lo + i ≡ suc (lo + i) = omega arith in rw s (key_at-drop es lo i)

Parted-drop_all : (k : Int64) (es : Entries) (n : ℕ) → length es ≤ n → Parted k (drop n es)
Parted-drop_all k [] zero le = tt
Parted-drop_all k [] (suc n) le = tt
Parted-drop_all k (e ∷ es) zero le = absurd (omega arith)
Parted-drop_all k (e ∷ es) (suc n) le = Parted-drop_all k es n (omega arith)

thread_runs-split :
    (es : Entries) (n : ℕ)
    → (0 < n → n < length es → (key_at es n == key_at es (n - 1)) ≡ false)
    → thread_runs es ≡ thread_runs (take n es) ++ thread_runs (drop n es)
unfolding thread_runs
thread_runs-split es zero ne = refl
thread_runs-split [] (suc n) ne = refl
thread_runs-split ((k, v) ∷ es) (suc n) ne =
    let parted : Parted (last_key k (take n es)) (drop n es) = elim (le-or-lt (length es) n) [
      | inl le ↦ Parted-drop_all (last_key k (take n es)) es n le
      | inr lt ↦
          Parted-drop (k, v) es n lt
            (let e : suc n - 1 ≡ n = omega arith in
              subst (λ m. (key_at ((k, v) ∷ es) (suc n) == key_at ((k, v) ∷ es) m) ≡ false) e
                (ne (omega arith) (omega arith)))
    ] in
    ap (thread_run k (add_i64 0 v)) (sym (take-drop es n))
    ∙ thread_run-append k (add_i64 0 v) (take n es) (drop n es) parted

start-differs :
    (es : Entries) (lo hi : ℕ)
    → IsStart es hi
    → 0 < hi - lo
    → hi - lo < length (drop lo es)
    → (key_at (drop lo es) (hi - lo) == key_at (drop lo es) (hi - lo - 1)) ≡ false
start-differs es lo hi (le, start) pos lt =
    let at : lo + (hi - lo) ≡ hi = omega arith in
    let before : lo + (hi - lo - 1) ≡ hi - 1 = omega arith in
    let inside : hi < length es = omega (arith, length-drop es lo) in
    let above : 0 < hi = omega arith in
    rw (key_at-drop es lo (hi - lo), key_at-drop es lo (hi - lo - 1), at, before)
      (and_rest (ltb hi (length es)) (ltb 0 hi) _ (lt→ltb hi (length es) inside) (lt→ltb 0 hi above)
        start)

thread_rows-runs :
    (es : Entries) (lo : ℕ) (his : List ℕ)
    → IsStarts es lo his
    → thread_rows es lo his ≡ thread_runs (drop lo es)
unfolding thread_rows thread_runs
thread_rows-runs es lo [] at = sym (ap thread_runs (drop_all es lo (omega arith)))
thread_rows-runs es lo (hi ∷ his) (le, start, rest) =
    ap (◌++◌ (thread_runs (take (hi - lo) (drop lo es)))) (thread_rows-runs es hi his rest)
    ∙ sym (
        thread_runs-split (drop lo es) (hi - lo) (start-differs es lo hi start)
        ∙ ap (λ ds. thread_runs (take (hi - lo) (drop lo es)) ++ thread_runs ds)
            (drop-drop es lo (hi - lo) hi (omega arith)))

-- The threads of the host's reduction find, one after the other, what one loop over all entries
-- finds: every run is whole in one thread's part, whatever the order of the keys and wherever the
-- eighths of the entries fall.
pub thread_rows-thread_runs :
    (es : Entries) → thread_rows es 0 (starts_from 1 (seg_threads - 1) es) ≡ thread_runs es
thread_rows-thread_runs es =
    thread_rows-runs es 0 _
      (starts_from-IsStarts 1 (seg_threads - 1) 0 es (omega arith) (λ _. omega arith) (omega arith))
