-- ===== src/Groupby/Grouped/Start.antt =====
-- The tables that a thread starts with.
use mathlib.Core.Option.{none-ne-some}
use duckdb_mlx.Common.{
  ℕ, zero, suc, ◌*◌, ◌<◌, ◌≡◌, ◌≢◌, refl, ap, ◌∙◌, List, [], ◌∷◌, Option, none, some, ℤ, pos,
  IsFold, +ℤ-IsFold, min_int-IsFold, max_int-IsFold, length, get_elem?, arith,
}
use duckdb_mlx.Common.Loops.{map_option}
use duckdb_mlx.Ir.{AggKind, sum, count, count_star, avg, min, max, SumProgram}
use duckdb_mlx.Groupby.Hash.{GroupedState}
use duckdb_mlx.Groupby.Grouped.{
  Doubles, int64_largest, int64_least, slot_of, first_int, start_extreme, init_program,
  grouped_init, grouped_init_like,
}
use duckdb_mlx.Groupby.Grouped.Host.{merge_int}
use duckdb_mlx.Groupby.Grouped.Slots.{
  slot_of-other, slot_of-bound, for_programs_at, for_programs_same, scatter-group, scatter-other,
  get_elem?-replicate,
}

pub int_laws : (kind : AggKind) → IsFold (merge_int kind) (first_int kind)
int_laws sum = +ℤ-IsFold
int_laws count = +ℤ-IsFold
int_laws count_star = +ℤ-IsFold
int_laws avg = +ℤ-IsFold
int_laws min = min_int-IsFold int64_largest
int_laws max = max_int-IsFold int64_least

pub get_elem?-length :
    {A : Type 0} (xs : List A) (i : ℕ) (a : A) → get_elem? xs i ≡ some a → i < length xs
get_elem?-length [] i a h = absurd (none-ne-some _ h)
get_elem?-length (x ∷ xs) zero a h = omega arith
get_elem?-length (x ∷ xs) (suc i) a h = omega (arith, get_elem?-length xs i a h)

abbrev init_int : AggKind → ℤ → ℤ
init_int min a = int64_largest
init_int max a = int64_least
init_int _ a = a

init_int-first_int : (kind : AggKind) → init_int kind (pos 0) ≡ first_int kind
init_int-first_int sum = refl
init_int-first_int count = refl
init_int-first_int count_star = refl
init_int-first_int avg = refl
init_int-first_int min = refl
init_int-first_int max = refl

same_option : {A : Type 0} (o : Option A) → o ≡ map_option (λ a. a) o
same_option none = refl
same_option (some a) = refl

-- The start of the tables, at a slot.
module _ {V F : Type 0} (doubles : Doubles V) (card n g p : ℕ) (hg : g < card) (hp : p < n) where
  init_program-ivalues :
      (kind : AggKind) (t : GroupedState V F)
      → get_elem? ((init_program doubles card n p kind t).ivalues) (slot_of n g p)
        ≡ map_option (init_int kind) (get_elem? t.ivalues (slot_of n g p))
  unfolding init_program start_extreme
  init_program-ivalues sum t = same_option (get_elem? t.ivalues (slot_of n g p))
  init_program-ivalues count t = same_option (get_elem? t.ivalues (slot_of n g p))
  init_program-ivalues count_star t = same_option (get_elem? t.ivalues (slot_of n g p))
  init_program-ivalues avg t = same_option (get_elem? t.ivalues (slot_of n g p))
  init_program-ivalues min t = scatter-group _ n card g p t.ivalues hp hg
  init_program-ivalues max t = scatter-group _ n card g p t.ivalues hp hg

  init_program-ivalues-other :
      (q : ℕ) (kind : AggKind) (t : GroupedState V F)
      → q < n
      → q ≢ p
      → get_elem? ((init_program doubles card n q kind t).ivalues) (slot_of n g p)
        ≡ get_elem? t.ivalues (slot_of n g p)
  unfolding init_program start_extreme
  init_program-ivalues-other q sum t hq apart = refl
  init_program-ivalues-other q count t hq apart = refl
  init_program-ivalues-other q count_star t hq apart = refl
  init_program-ivalues-other q avg t hq apart = refl
  init_program-ivalues-other q min t hq apart =
      scatter-other (λ k. some (slot_of n k q)) _ 0 card (slot_of n g p) t.ivalues
        (λ k. slot_of-other n g k p q hp hq apart)
  init_program-ivalues-other q max t hq apart =
      scatter-other (λ k. some (slot_of n k q)) _ 0 card (slot_of n g p) t.ivalues
        (λ k. slot_of-other n g k p q hp hq apart)

init_program-counts :
    {V F : Type 0} (doubles : Doubles V) (card n p : ℕ) (kind : AggKind) (t : GroupedState V F)
    → ((init_program doubles card n p kind t).counts ≡ t.counts)
      × ((init_program doubles card n p kind t).rows ≡ t.rows)
unfolding init_program start_extreme
init_program-counts doubles card n p sum t = (refl, refl)
init_program-counts doubles card n p count t = (refl, refl)
init_program-counts doubles card n p count_star t = (refl, refl)
init_program-counts doubles card n p avg t = (refl, refl)
init_program-counts doubles card n p min t = (refl, refl)
init_program-counts doubles card n p max t = (refl, refl)

module _ (F : Type 0) {D V : Type 0} (doubles : Doubles V) (card : ℕ)
    (programs : List (SumProgram D)) (g p : ℕ) (prog : SumProgram D) (hg : g < card)
    (found : get_elem? programs p ≡ some prog) where
  pub grouped_init_like-ivalues :
      get_elem?
        ((grouped_init_like {F = F} doubles card programs).ivalues)
        (slot_of (length programs) g p)
      ≡ some (first_int prog.kind)
  unfolding grouped_init_like grouped_init
  grouped_init_like-ivalues =
      let hp : p < length programs = get_elem?-length programs p prog found in
      let whole : 1 * card ≡ card = omega arith in
      rw whole (
        for_programs_at
          (λ (t : GroupedState V F). get_elem? t.ivalues (slot_of (length programs) g p))
          (map_option (init_int prog.kind)) (length programs)
          (λ q x t. init_program doubles card (length programs) q x.kind t) p
          (λ q x t hq apart.
            init_program-ivalues-other doubles card (length programs) g p hg hp q x.kind t hq apart)
          prog 0 p programs _
          (λ t. init_program-ivalues doubles card (length programs) g p hg hp prog.kind t)
          (omega arith) (omega arith) found
        ∙ ap (map_option (init_int prog.kind)) (
            get_elem?-replicate (card * length programs) (slot_of (length programs) g p) (pos 0)
              (slot_of-bound (length programs) g card p hp hg))
        ∙ ap some (init_int-first_int prog.kind))

  pub grouped_init_like-counts :
      get_elem?
        ((grouped_init_like {F = F} doubles card programs).counts)
        (slot_of (length programs) g p)
      ≡ some 0
  unfolding grouped_init_like grouped_init
  grouped_init_like-counts =
      let hp : p < length programs = get_elem?-length programs p prog found in
      let whole : 1 * card ≡ card = omega arith in
      rw whole (
        for_programs_same
          (λ (t : GroupedState V F). get_elem? t.counts (slot_of (length programs) g p))
          (length programs) (λ q x t. init_program doubles card (length programs) q x.kind t)
          (λ q x t hq.
            ap (λ c. get_elem? c (slot_of (length programs) g p))
              (init_program-counts doubles card (length programs) q x.kind t).0)
          0 programs _ (omega arith)
        ∙ get_elem?-replicate (card * length programs) (slot_of (length programs) g p) 0
            (slot_of-bound (length programs) g card p hp hg))
