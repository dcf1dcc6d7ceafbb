-- ===== src/Groupby/Grouped/Slots.antt =====
-- The slots of a grouped state's tables: a loop over the programs or the groups reaches each once.
use mathlib.Core.Option.{some-injective, none-ne-some}
use duckdb_mlx.Common.{
  ℕ, zero, suc, ◌+◌, ◌*◌, ◌≤◌, ◌<◌, ◌≡◌, ◌≢◌, refl, sym, ap, subst, ◌∙◌, true, false, List, [], ◌∷◌,
  Option, some, ◌==◌, Bool-cases, inl, inr, get_elem?, get_or, replicate, length, arith,
  if◌then◌else◌,
}
use duckdb_mlx.Common.Loops.{
  scatter, map_option, map_option_id, fold_where, fold_where_congr, fold_where-none,
  get_elem?-scatter, selects, update, get_elem?-update,
}
use duckdb_mlx.Ir.{SumProgram}
use duckdb_mlx.Groupby.Grouped.{slot_of, for_programs, for_groups}

slot_of_injective :
    (n g k p q : ℕ) → p < n → q < n → slot_of n g p ≡ slot_of n k q → (g ≡ k) × (p ≡ q)
slot_of_injective n zero zero p q hp hq h = (refl, omega arith)
slot_of_injective n zero (suc k) p q hp hq h =
    let e : suc k * n ≡ n + k * n = omega arith in absurd (omega (arith, e))
slot_of_injective n (suc g) zero p q hp hq h =
    let e : suc g * n ≡ n + g * n = omega arith in absurd (omega (arith, e))
slot_of_injective n (suc g) (suc k) p q hp hq h =
    let e : suc g * n ≡ n + g * n = omega arith in
    let e' : suc k * n ≡ n + k * n = omega arith in
    let (same, at) = slot_of_injective n g k p q hp hq (omega (arith, e, e')) in (ap suc same, at)

==_false : (a b : ℕ) → a ≢ b → (a == b) ≡ false
==_false a b h = elim (Bool-cases (a == b)) [ inl e ↦ absurd (h (ground (arith, e))) | inr e ↦ e ]

==_self : (a : ℕ) → (a == a) ≡ true
==_self a = ground arith

-- A slot is that of the group and the program.
pub slot_of-other :
    (n g k p q : ℕ) → p < n → q < n → q ≢ p → (slot_of n k q == slot_of n g p) ≡ false
slot_of-other n g k p q hp hq h =
    ==_false (slot_of n k q) (slot_of n g p) (λ e. h (slot_of_injective n k g q p hq hp e).1)

pub slot_of-apart :
    (n g k p q : ℕ) → p < n → q < n → k ≢ g → (slot_of n k q == slot_of n g p) ≡ false
slot_of-apart n g k p q hp hq h =
    ==_false (slot_of n k q) (slot_of n g p) (λ e. h (slot_of_injective n k g q p hq hp e).0)

pub slot_of-group : (n g k p : ℕ) → p < n → (slot_of n k p == slot_of n g p) ≡ (k == g)
slot_of-group n g k p hp = elim (Bool-cases (k == g)) [
  | inl e ↦
      let same : k ≡ g = ground (arith, e) in
      subst (λ j. (slot_of n j p == slot_of n g p) ≡ (j == g)) (sym same)
        (==_self (slot_of n g p) ∙ sym (==_self g))
  | inr e ↦
      let apart : k ≢ g = λ same. ground (arith, e) in
      ==_false (slot_of n k p) (slot_of n g p) (λ s. apart (slot_of_injective n k g p p hp hp s).0)
      ∙ sym e
]

pub slot_of-bound : (n g card p : ℕ) → p < n → g < card → slot_of n g p < card * n
slot_of-bound n g zero p hp hg = absurd (omega arith)
slot_of-bound n zero (suc card) p hp hg =
    let e : suc card * n ≡ n + card * n = omega arith in omega (arith, e)
slot_of-bound n (suc g) (suc card) p hp hg =
    let e : suc card * n ≡ n + card * n = omega arith in
    let e' : suc g * n ≡ n + g * n = omega arith in
    omega (arith, e, e', slot_of-bound n g card p hp (omega arith))

module _ {D T O : Type 0} (obs : T → O) (h : O → O) (N : ℕ) (f : ℕ → SumProgram D → T → T) (p : ℕ)
    (misses : (q : ℕ) (x : SumProgram D) (t : T) → q < N → q ≢ p → obs (f q x t) ≡ obs t) where
  for_programs_after :
      (q : ℕ) (ps : List (SumProgram D)) (t : T)
      → p < q
      → q + length ps ≤ N
      → obs (for_programs f q ps t) ≡ obs t
  unfolding for_programs
  for_programs_after q [] t lt le = refl
  for_programs_after q (x ∷ ps) t lt le =
      for_programs_after (suc q) ps (f q x t) (omega arith) (omega arith)
      ∙ misses q x t (omega arith) (λ e. omega arith)

  -- A loop over the programs does to an entry of program `p` what that program does.
  pub for_programs_at :
      (prog : SumProgram D) (q k : ℕ) (ps : List (SumProgram D)) (t : T)
      → ((t : T) → obs (f p prog t) ≡ h (obs t))
      → p ≡ q + k
      → q + length ps ≤ N
      → get_elem? ps k ≡ some prog
      → obs (for_programs f q ps t) ≡ h (obs t)
  unfolding for_programs
  for_programs_at prog q k [] t hits e le found = absurd (none-ne-some _ found)
  for_programs_at prog q zero (x ∷ ps) t hits e le found =
      for_programs_after (suc q) ps (f q x t) (omega arith) (omega arith)
      ∙ (λ i. obs (f (here i) (some-injective _ _ found i) t))
      ∙ hits t
    where
      here : q ≡ p
      here = omega arith
  for_programs_at prog q (suc k) (x ∷ ps) t hits e le found =
      for_programs_at prog (suc q) k ps (f q x t) hits (omega arith) (omega arith) found
      ∙ ap h (misses q x t (omega arith) (λ s. omega arith))

-- A loop over the programs that leaves an entry alone.
pub for_programs_same :
    {D T O : Type 0} (obs : T → O) (N : ℕ) (f : ℕ → SumProgram D → T → T)
    → ((q : ℕ) (x : SumProgram D) (t : T) → q < N → obs (f q x t) ≡ obs t)
    → (q : ℕ) (ps : List (SumProgram D)) (t : T) → q + length ps ≤ N
    → obs (for_programs f q ps t) ≡ obs t
unfolding for_programs
for_programs_same obs N f same q [] t le = refl
for_programs_same obs N f same q (x ∷ ps) t le =
    for_programs_same obs N f same (suc q) ps (f q x t) (omega arith) ∙ same q x t (omega arith)

module _ {T O : Type 0} (obs : T → O) (h : O → O) (f : ℕ → T → T) (g : ℕ)
    (misses : (k : ℕ) (t : T) → k ≢ g → obs (f k t) ≡ obs t)
    (hits : (t : T) → obs (f g t) ≡ h (obs t)) where
  for_groups_after : (k n : ℕ) (t : T) → g < k → obs (for_groups f k n t) ≡ obs t
  unfolding for_groups
  for_groups_after k zero t lt = refl
  for_groups_after k (suc n) t lt =
      for_groups_after (suc k) n (f k t) (omega arith) ∙ misses k t (λ e. omega arith)

  -- A loop over the groups does to an entry of group `g` what it does at that group.
  pub for_groups_at : (k n : ℕ) (t : T) → k ≤ g → g < k + n → obs (for_groups f k n t) ≡ h (obs t)
  unfolding for_groups
  for_groups_at k zero t le lt = absurd (omega arith)
  for_groups_at k (suc n) t le lt = elim (Bool-cases (k == g)) [
    | inl e ↦
        let here : k ≡ g = ground (arith, e) in
        for_groups_after (suc k) n (f k t) (omega (arith, here))
        ∙ ap (λ j. obs (f j t)) here
        ∙ hits t
    | inr e ↦
        let apart : k ≢ g = λ s. ground (arith, e) in
        for_groups_at (suc k) n (f k t) (ground (arith, e)) (omega arith) ∙ ap h (misses k t apart)
  ]

module _ {A : Type 0} where
  pub get_elem?-replicate : (n i : ℕ) (a : A) → i < n → get_elem? (replicate n a) i ≡ some a
  get_elem?-replicate zero i a h = absurd (omega arith)
  get_elem?-replicate (suc n) zero a h = refl
  get_elem?-replicate (suc n) (suc i) a h = get_elem?-replicate n i a (omega arith)

  pub get_elem?-get_or :
      (xs : List A) (i : ℕ) (d a : A) → get_elem? xs i ≡ some a → get_or xs i d ≡ a
  get_elem?-get_or [] i d a h = absurd (none-ne-some _ h)
  get_elem?-get_or (x ∷ xs) zero d a h = some-injective _ _ h
  get_elem?-get_or (x ∷ xs) (suc i) d a h = get_elem?-get_or xs i d a h

  fold_where-later :
      (step : ℕ → A → A) (g lo n : ℕ) (a : A) → g < lo → fold_where (λ i. i == g) step lo n a ≡ a
  unfolding fold_where
  fold_where-later step g lo zero a lt = refl
  fold_where-later step g lo (suc n) a lt =
      let never : (lo == g) ≡ false = ground arith in
      ap (λ b. fold_where (λ i. i == g) step (suc lo) n (if b then step lo a else a)) never
      ∙ fold_where-later step g (suc lo) n a (omega arith)

  -- A loop that reaches an entry once.
  fold_where-once :
      (step : ℕ → A → A) (g lo n : ℕ) (a : A)
      → lo ≤ g
      → g < lo + n
      → fold_where (λ i. i == g) step lo n a ≡ step g a
  unfolding fold_where
  fold_where-once step g lo zero a le lt = absurd (omega arith)
  fold_where-once step g lo (suc n) a le lt = elim (Bool-cases (lo == g)) [
    | inl e ↦
        let here : lo ≡ g = ground (arith, e) in
        ap (λ b. fold_where (λ i. i == g) step (suc lo) n (if b then step lo a else a)) e
        ∙ fold_where-later step g (suc lo) n (step lo a) (omega (arith, here))
        ∙ ap (λ j. step j a) here
    | inr e ↦
        ap (λ b. fold_where (λ i. i == g) step (suc lo) n (if b then step lo a else a)) e
        ∙ fold_where-once step g (suc lo) n a (ground (arith, e)) (omega arith)
  ]

  -- The loop over the groups that updates the slots of program `p`.
  pub scatter-group :
      (step : ℕ → A → A) (n card g p : ℕ) (t : List A)
      → p < n
      → g < card
      → get_elem? (scatter (λ k. some (slot_of n k p)) step 0 card t) (slot_of n g p)
        ≡ map_option (step g) (get_elem? t (slot_of n g p))
  scatter-group step n card g p t hp hg =
      get_elem?-scatter (λ k. some (slot_of n k p)) step 0 card t (slot_of n g p)
      ∙ (λ i. map_option (λ a. once a i) (get_elem? t (slot_of n g p)))
    where
      once : (a : A) → fold_where (λ k. slot_of n k p == slot_of n g p) step 0 card a ≡ step g a
      once a =
          fold_where_congr (λ k. slot_of n k p == slot_of n g p) (λ k. k == g) step 0 card a
            (λ k. slot_of-group n g k p hp)
          ∙ fold_where-once step g 0 card a (omega arith) (omega arith)

  -- A loop that reaches no slot of the entry.
  pub scatter-other :
      (slot : ℕ → Option ℕ) (step : ℕ → A → A) (lo n s : ℕ) (t : List A)
      → ((i : ℕ) → selects (slot i) s ≡ false)
      → get_elem? (scatter slot step lo n t) s ≡ get_elem? t s
  scatter-other slot step lo n s t never =
      get_elem?-scatter slot step lo n t s
      ∙ map_option_id _ (get_elem? t s)
          (λ a. fold_where-none (λ i. selects (slot i) s) step lo n a never)

  -- The loop that fills a new table.
  pub get_or-scatter :
      (slot : ℕ → Option ℕ) (step : ℕ → A → A) (lo n size g : ℕ) (d : A)
      → g < size
      → get_or (scatter slot step lo n (replicate size d)) g d
        ≡ fold_where (λ i. selects (slot i) g) step lo n d
  get_or-scatter slot step lo n size g d h =
      get_elem?-get_or (scatter slot step lo n (replicate size d)) g d _ (
        get_elem?-scatter slot step lo n (replicate size d) g
        ∙ ap (map_option (fold_where (λ i. selects (slot i) g) step lo n))
            (get_elem?-replicate size g d h))

  pub update-here :
      (t : List A) (s : ℕ) (f : A → A) → get_elem? (update t s f) s ≡ map_option f (get_elem? t s)
  update-here t s f =
      get_elem?-update t s s f
      ∙ (λ i. map_option (λ a. if ==_self s i then f a else a) (get_elem? t s))

  pub update-other :
      (t : List A) (k s : ℕ) (f : A → A)
      → (k == s) ≡ false
      → get_elem? (update t k f) s ≡ get_elem? t s
  update-other t k s f e =
      get_elem?-update t k s f
      ∙ (λ i. map_option (λ a. if e i then f a else a) (get_elem? t s))
      ∙ map_option_id _ (get_elem? t s) (λ a. refl)
