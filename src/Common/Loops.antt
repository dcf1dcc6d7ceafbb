-- ===== src/Common/Loops.antt =====
-- Loops that update the entries of a table, and what an entry has gone through when they end.
use Prim.Native.Nat.{ℕ, zero, suc, ◌+◌}
use mathlib.Core.Path.{◌≡◌, refl, sym, ap, ◌∙◌}
use mathlib.Core.Bool.{Bool, true, false}
use mathlib.Core.Option.{Option, none, some}
use mathlib.Core.List.{List, [], ◌∷◌}
use native.Mathlib.Omega.{arith}
use duckdb_mlx.Common.Tests.{◌==◌, if◌then◌else◌}
use duckdb_mlx.Common.Lists.{get_elem?}
use duckdb_mlx.Common.Int.{IsFold}

abbrev pub map_option {ℓ κ} : {A : Type ℓ} {B : Type κ} → (A → B) → Option A → Option B
map_option f none = none
map_option f (some a) = some (f a)

pub map_option-map_option :
    {A B C : Type 0} (f : B → C) (g : A → B) (o : Option A)
    → map_option f (map_option g o) ≡ map_option (λ a. f (g a)) o
map_option-map_option f g none = refl
map_option-map_option f g (some a) = refl

pub map_option_id :
    {A : Type 0} (f : A → A) (o : Option A) → ((a : A) → f a ≡ a) → map_option f o ≡ o
map_option_id f none h = refl
map_option_id f (some a) h = ap some (h a)

abbrev pub selects : Option ℕ → ℕ → Bool
selects none s = false
selects (some k) s = k == s

module _ {A : Type 0} where
  -- `table[s] = f(table[s])`, where the table has the entry.
  abbrev pub update : List A → ℕ → (A → A) → List A
  update [] s f = []
  update (x ∷ xs) zero f = f x ∷ xs
  update (x ∷ xs) (suc s) f = x ∷ update xs s f

  abbrev pub update_at : Option ℕ → (A → A) → List A → List A
  update_at none f t = t
  update_at (some s) f t = update t s f

  -- The loop over `i` from `lo` on, `n` times: the entry that `slot` gives for `i`, if any, is updated.
  unfoldable pub scatter : (ℕ → Option ℕ) → (ℕ → A → A) → ℕ → ℕ → List A → List A
  scatter slot step lo zero t = t
  scatter slot step lo (suc n) t = scatter slot step (suc lo) n (update_at (slot lo) (step lo) t)

  -- The steps of the same loop at those `i` that `hit` selects.
  unfoldable pub fold_where : (ℕ → Bool) → (ℕ → A → A) → ℕ → ℕ → A → A
  fold_where hit step lo zero a = a
  fold_where hit step lo (suc n) a =
      fold_where hit step (suc lo) n (if hit lo then step lo a else a)

  pub get_elem?-update :
      (t : List A) (k s : ℕ) (f : A → A)
      → get_elem? (update t k f) s ≡ map_option (λ a. if k == s then f a else a) (get_elem? t s)
  get_elem?-update [] k s f = refl
  get_elem?-update (x ∷ t) zero zero f = refl
  get_elem?-update (x ∷ t) zero (suc s) f =
      sym (map_option_id (λ a. if 0 == suc s then f a else a) (get_elem? t s) (λ a. ground arith))
  get_elem?-update (x ∷ t) (suc k) zero f = ground arith
  get_elem?-update (x ∷ t) (suc k) (suc s) f = get_elem?-update t k s f ∙ again (get_elem? t s)
    where
      again :
          (o : Option A)
          → map_option (λ a. if k == s then f a else a) o
            ≡ map_option (λ a. if suc k == suc s then f a else a) o
      again none = refl
      again (some a) = ground arith

  get_elem?-update_at :
      (t : List A) (o : Option ℕ) (s : ℕ) (f : A → A)
      → get_elem? (update_at o f t) s
        ≡ map_option (λ a. if selects o s then f a else a) (get_elem? t s)
  get_elem?-update_at t none s f = sym (map_option_id _ (get_elem? t s) (λ a. refl))
  get_elem?-update_at t (some k) s f = get_elem?-update t k s f

  pub get_elem?-scatter :
      (slot : ℕ → Option ℕ) (step : ℕ → A → A) (lo n : ℕ) (t : List A) (s : ℕ)
      → get_elem? (scatter slot step lo n t) s
        ≡ map_option (fold_where (λ i. selects (slot i) s) step lo n) (get_elem? t s)
  unfolding scatter fold_where
  get_elem?-scatter slot step lo zero t s = sym (map_option_id _ (get_elem? t s) (λ a. refl))
  get_elem?-scatter slot step lo (suc n) t s =
      get_elem?-scatter slot step (suc lo) n (update_at (slot lo) (step lo) t) s
      ∙ ap (map_option (fold_where (λ i. selects (slot i) s) step (suc lo) n))
          (get_elem?-update_at t (slot lo) s (step lo))
      ∙ map_option-map_option (fold_where (λ i. selects (slot i) s) step (suc lo) n)
          (λ a. if selects (slot lo) s then step lo a else a) (get_elem? t s)

  -- Only the tests at the steps of the loop matter.
  pub fold_where_congr :
      (hit hit' : ℕ → Bool) (step : ℕ → A → A) (lo n : ℕ) (a : A)
      → ((i : ℕ) → hit i ≡ hit' i)
      → fold_where hit step lo n a ≡ fold_where hit' step lo n a
  unfolding fold_where
  fold_where_congr hit hit' step lo zero a same = refl
  fold_where_congr hit hit' step lo (suc n) a same =
      ap (λ b. fold_where hit step (suc lo) n (if b then step lo a else a)) (same lo)
      ∙ fold_where_congr hit hit' step (suc lo) n (if hit' lo then step lo a else a) same

  pub fold_where-none :
      (hit : ℕ → Bool) (step : ℕ → A → A) (lo n : ℕ) (a : A)
      → ((i : ℕ) → hit i ≡ false)
      → fold_where hit step lo n a ≡ a
  unfolding fold_where
  fold_where-none hit step lo zero a never = refl
  fold_where-none hit step lo (suc n) a never =
      ap (λ b. fold_where hit step (suc lo) n (if b then step lo a else a)) (never lo)
      ∙ fold_where-none hit step (suc lo) n a never

  -- The loop in two parts.
  pub fold_where-add :
      (hit : ℕ → Bool) (step : ℕ → A → A) (lo n m : ℕ) (a : A)
      → fold_where hit step lo (n + m) a
        ≡ fold_where hit step (lo + n) m (fold_where hit step lo n a)
  unfolding fold_where
  fold_where-add hit step lo zero m a =
      let e : 0 + m ≡ m = omega arith in let e' : lo + 0 ≡ lo = omega arith in rw (e, e') refl
  fold_where-add hit step lo (suc n) m a =
      let e : suc n + m ≡ suc (n + m) = omega arith in
      let e' : lo + suc n ≡ suc lo + n = omega arith in
      rw (e, e') (fold_where-add hit step (suc lo) n m (if hit lo then step lo a else a))

  module _ {op : A → A → A} {e : A} (laws : IsFold op e) (hit : ℕ → Bool) (value : ℕ → A) where
    abbrev with_value : ℕ → A → A
    with_value i a = op a (value i)

    op-step :
        (c : Bool) (b a v : A)
        → op b (if c then op a v else a) ≡ (if c then op (op b a) v else op b a)
    op-step true b a v = sym (laws.assoc b a v)
    op-step false b a v = refl

    pub op-fold_where :
        (lo n : ℕ) (b a : A)
        → op b (fold_where hit with_value lo n a) ≡ fold_where hit with_value lo n (op b a)
    unfolding fold_where
    op-fold_where lo zero b a = refl
    op-fold_where lo (suc n) b a =
        op-fold_where (suc lo) n b (if hit lo then op a (value lo) else a)
        ∙ ap (fold_where hit with_value (suc lo) n) (op-step (hit lo) b a (value lo))

    pub fold_where-start :
        (lo n : ℕ) → op (fold_where hit with_value lo n e) e ≡ fold_where hit with_value lo n e
    fold_where-start lo n =
        laws.comm (fold_where hit with_value lo n e) e
        ∙ op-fold_where lo n e e
        ∙ ap (fold_where hit with_value lo n) laws.start

    -- Two parts of the loop, each from the start, are the loop.
    pub fold_where-merge :
        (lo n m : ℕ)
        → op (fold_where hit with_value lo n e) (fold_where hit with_value (lo + n) m e)
          ≡ fold_where hit with_value lo (n + m) e
    fold_where-merge lo n m =
        op-fold_where (lo + n) m (fold_where hit with_value lo n e) e
        ∙ ap (fold_where hit with_value (lo + n) m) (fold_where-start lo n)
        ∙ sym (fold_where-add hit with_value lo n m e)
