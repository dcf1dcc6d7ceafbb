-- ===== src/Cache/Derived/Values.antt =====
-- The rows of a derived column, with their NULLs.
use Prim.Native.String.{String}
use duckdb_mlx.Common.{
  ℕ, zero, suc, ◌<◌, ◌≡◌, refl, sym, ap, ◌∙◌, Bool, true, false, ◌&&◌, List, [], ◌∷◌, map, Option,
  none, some, length, get_or, arith, All,
}
use duckdb_mlx.Cache.Fused.{present}
use duckdb_mlx.Cache.Derived.{
  Pinned, validity, valid_parts, and_rows, and_all, combine_cached_valids,
}

-- The validity of a row; every row is valid without an array.
abbrev pub valid_in : ℕ → Option (List Bool) → Bool
valid_in i none = true
valid_in i (some v) = get_or v i true

-- Whether a row is valid in each of the columns.
abbrev pub all_valid_in : ℕ → List (Option (List Bool)) → Bool
all_valid_in i [] = true
all_valid_in i (o ∷ os) = valid_in i o && all_valid_in i os

-- The validity array has `n` rows.
abbrev pub HasRows : ℕ → Option (List Bool) → Type 0
HasRows n none = Unit
HasRows n (some v) = length v ≡ n

abbrev all_in : ℕ → List (List Bool) → Bool
all_in i [] = true
all_in i (p ∷ parts) = get_or p i true && all_in i parts

and_true : (a : Bool) → (a && true) ≡ a
and_true true = refl
and_true false = refl

and_assoc : (a b c : Bool) → ((a && b) && c) ≡ (a && (b && c))
and_assoc true b c = refl
and_assoc false b c = refl

get_or-and_rows :
    (xs ys : List Bool) (i : ℕ)
    → i < length xs
    → length ys ≡ length xs
    → get_or (and_rows xs ys) i true ≡ (get_or xs i true && get_or ys i true)
get_or-and_rows [] ys i h e = absurd (omega arith)
get_or-and_rows (x ∷ xs) [] i h e = absurd (omega arith)
get_or-and_rows (x ∷ xs) (y ∷ ys) zero h e = refl
get_or-and_rows (x ∷ xs) (y ∷ ys) (suc i) h e = get_or-and_rows xs ys i (omega arith) (omega arith)

length-and_rows : (xs ys : List Bool) → length ys ≡ length xs → length (and_rows xs ys) ≡ length xs
length-and_rows [] ys e = refl
length-and_rows (x ∷ xs) [] e = absurd (omega arith)
length-and_rows (x ∷ xs) (y ∷ ys) e = ap suc (length-and_rows xs ys (omega arith))

get_or-and_all :
    (n i : ℕ) (out : List Bool) (parts : List (List Bool))
    → i < n
    → length out ≡ n
    → All (λ p. length p ≡ n) parts
    → get_or (and_all out parts) i true ≡ (get_or out i true && all_in i parts)
get_or-and_all n i out [] h e es = sym (and_true (get_or out i true))
get_or-and_all n i out (p ∷ parts) h e (ep, es) =
    get_or-and_all n i (and_rows out p) parts h (length-and_rows out p (omega arith) ∙ e) es
    ∙ ap (λ b. b && all_in i parts) (get_or-and_rows out p i (omega arith) (omega arith))
    ∙ and_assoc (get_or out i true) (get_or p i true) (all_in i parts)

present-length :
    (n : ℕ) (os : List (Option (List Bool)))
    → All (HasRows n) os
    → All (λ p. length p ≡ n) (present os)
present-length n [] h = tt
present-length n (none ∷ os) (h, hs) = present-length n os hs
present-length n (some v ∷ os) (h, hs) = (h, present-length n os hs)

all_in-present :
    (i : ℕ) (os : List (Option (List Bool))) → all_in i (present os) ≡ all_valid_in i os
all_in-present i [] = refl
all_in-present i (none ∷ os) = all_in-present i os
all_in-present i (some v ∷ os) = ap (λ b. get_or v i true && b) (all_in-present i os)

module _ {Arr : Type 0} where
  -- A row of a derived column is NULL exactly where one of its base columns is: its validity is that of the
  -- row in all of them. Condition: the validity arrays of the base columns have a row for each row.
  pub combine_cached_valids-all_valid_in :
      (n i : ℕ) (keys : List String) (store : Pinned Arr)
      → i < n
      → All (HasRows n) (map (validity store) keys)
      → valid_in i (combine_cached_valids keys store) ≡ all_valid_in i (map (validity store) keys)
  unfolding combine_cached_valids
  combine_cached_valids-all_valid_in n i keys store h rows =
      combine_parts (valid_parts keys store) (present-length n (map (validity store) keys) rows)
      ∙ all_in-present i (map (validity store) keys)
    where
      combine_parts :
          (parts : List (List Bool))
          → All (λ p. length p ≡ n) parts
          → valid_in i
              (elim parts as (λ _. Option (List Bool)) [ [] ↦ none | p ∷ ps ↦ some (and_all p ps) ])
            ≡ all_in i parts
      combine_parts [] es = refl
      combine_parts (p ∷ ps) (e, es) = get_or-and_all n i p ps h e es
