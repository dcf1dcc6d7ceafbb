-- ===== src/Common/Lists.antt =====
-- Lists measured and indexed by native numbers, under the library's names.
use Prim.Native.Nat.{ℕ, zero, suc, ◌+◌, ◌-◌, ◌≤◌, ◌<◌}
use mathlib.Core.Path.{◌≡◌, refl, ap}
use mathlib.Core.List.{List, [], ◌∷◌, ◌++◌, map}
use mathlib.Core.Option.{Option, none, some}
use native.Mathlib.Omega.{arith}

abbrev pub total : List ℕ → ℕ
total [] = 0
total (n ∷ ns) = n + total ns

module _ {ℓ} {A : Type ℓ} where
  abbrev pub length : List A → ℕ
  length [] = 0
  length (x ∷ xs) = suc (length xs)

  abbrev pub get_elem? : List A → ℕ → Option A
  get_elem? [] i = none
  get_elem? (x ∷ xs) zero = some x
  get_elem? (x ∷ xs) (suc i) = get_elem? xs i

  abbrev pub get_or : List A → ℕ → A → A
  get_or [] i d = d
  get_or (x ∷ xs) zero d = x
  get_or (x ∷ xs) (suc i) d = get_or xs i d

  -- A write out of bounds changes nothing.
  abbrev pub set : List A → ℕ → A → List A
  set [] i v = []
  set (x ∷ xs) zero v = v ∷ xs
  set (x ∷ xs) (suc i) v = x ∷ set xs i v

  abbrev pub take : ℕ → List A → List A
  take zero xs = []
  take (suc n) [] = []
  take (suc n) (x ∷ xs) = x ∷ take n xs

  abbrev pub drop : ℕ → List A → List A
  drop zero xs = xs
  drop (suc n) [] = []
  drop (suc n) (x ∷ xs) = drop n xs

  abbrev pub replicate : ℕ → A → List A
  replicate zero a = []
  replicate (suc n) a = a ∷ replicate n a

  pub length-append : (xs ys : List A) → length (xs ++ ys) ≡ length xs + length ys
  length-append [] ys = omega arith
  length-append (x ∷ xs) ys = omega (arith, length-append xs ys)

module _ {ℓ} {A : Type ℓ} where
  pub length-set : (xs : List A) (i : ℕ) (v : A) → length (set xs i v) ≡ length xs
  length-set [] i v = refl
  length-set (x ∷ xs) zero v = refl
  length-set (x ∷ xs) (suc i) v = ap suc (length-set xs i v)

  pub length-replicate : (n : ℕ) (a : A) → length (replicate n a) ≡ n
  length-replicate zero a = refl
  length-replicate (suc n) a = ap suc (length-replicate n a)

  pub length-map {κ} : {B : Type κ} (xs : List A) (f : A → B) → length (map f xs) ≡ length xs
  length-map [] f = refl
  length-map (x ∷ xs) f = ap suc (length-map xs f)

  pub get_elem?-append_left :
      (xs ys : List A) (i : ℕ) → i < length xs → get_elem? (xs ++ ys) i ≡ get_elem? xs i
  get_elem?-append_left [] ys i h = elim h [ ]
  get_elem?-append_left (x ∷ xs) ys zero h = refl
  get_elem?-append_left (x ∷ xs) ys (suc i) h = get_elem?-append_left xs ys i (omega arith)

  pub get_elem?-append_length :
      (xs ys : List A) (a : A) → get_elem? (xs ++ a ∷ ys) (length xs) ≡ some a
  get_elem?-append_length [] ys a = refl
  get_elem?-append_length (x ∷ xs) ys a = get_elem?-append_length xs ys a

  pub take-drop : (es : List A) (n : ℕ) → take n es ++ drop n es ≡ es
  take-drop es zero = refl
  take-drop [] (suc n) = refl
  take-drop (e ∷ es) (suc n) = ap (◌∷◌ e) (take-drop es n)

  pub drop-drop : (es : List A) (lo n hi : ℕ) → hi ≡ lo + n → drop n (drop lo es) ≡ drop hi es
  drop-drop es zero n hi e = let e' : n ≡ hi = omega arith in rw e'
  drop-drop [] (suc lo) zero (suc hi) e = refl
  drop-drop [] (suc lo) (suc n) (suc hi) e = refl
  drop-drop es (suc lo) n zero e = absurd (omega arith)
  drop-drop (e' ∷ es) (suc lo) n (suc hi) e = drop-drop es lo n hi (omega arith)

  pub length-drop : (es : List A) (n : ℕ) → length (drop n es) ≡ length es - n
  length-drop es zero = omega arith
  length-drop [] (suc n) = omega arith
  length-drop (e ∷ es) (suc n) = omega (arith, length-drop es n)

  pub drop_all : (es : List A) (n : ℕ) → length es ≤ n → drop n es ≡ []
  drop_all [] zero le = refl
  drop_all [] (suc n) le = refl
  drop_all (e ∷ es) zero le = absurd (omega arith)
  drop_all (e ∷ es) (suc n) le = drop_all es n (omega arith)

  pub replicate-add :
      (n m k : ℕ) (a : A) → k ≡ n + m → replicate k a ≡ replicate n a ++ replicate m a
  replicate-add zero m k a h = let e : k ≡ m = omega arith in rw e
  replicate-add (suc n) m zero a h = absurd (omega arith)
  replicate-add (suc n) m (suc k) a h = ap (◌∷◌ a) (replicate-add n m k a (omega arith))

  pub set-append_length :
      (xs ys : List A) (y v : A) (i : ℕ) → i ≡ length xs → set (xs ++ y ∷ ys) i v ≡ xs ++ v ∷ ys
  set-append_length [] ys y v zero h = refl
  set-append_length [] ys y v (suc i) h = absurd (omega arith)
  set-append_length (x ∷ xs) ys y v zero h = absurd (omega arith)
  set-append_length (x ∷ xs) ys y v (suc i) h =
      ap (◌∷◌ x) (set-append_length xs ys y v i (omega arith))

  -- `P` holds of every entry.
  abbrev pub All {κ} : (A → Type κ) → List A → Type κ
  All P [] = Unit
  All P (x ∷ xs) = P x × All P xs

pub All-append {ℓ} :
    {A : Type ℓ} (P : A → Type 0) (xs ys : List A) → All P xs → All P ys → All P (xs ++ ys)
All-append P [] ys h k = k
All-append P (x ∷ xs) ys (p, h) k = (p, All-append P xs ys h k)
