-- ===== src/Cache/Derived/Bind.antt =====
-- The programs that are bound to derived columns.
use Prim.Native.String.{String}
use text.Mathlib.Text.{◌==◌ as str_eq}
use mathlib.Core.Option.{some-injective, none-ne-some}
use mathlib.Core.List.{append_assoc, append-nil}
use duckdb_mlx.Common.{
  ℕ, zero, suc, ◌+◌, ◌<◌, ◌≡◌, refl, sym, ap, subst, ◌∙◌, ◌⊎◌, inl, inr, true, List, [], ◌∷◌, ◌++◌,
  Option, none, some, Option-cases, Bool-cases, ℤ, pos, length, get_elem?, get_or,
  get_elem?-append_length, arith, All,
}
use duckdb_mlx.Common.Assoc.{str_eq→eq}
use duckdb_mlx.Ir.{ExprOp, SumProgram}
use duckdb_mlx.Ir.Eval.{Backend}
use duckdb_mlx.Prune.{is_load}
use duckdb_mlx.Cache.Derived.{
  key_at, operand_of, mix_op, fingerprint_from, fingerprint_ops, Pinned, Manifest, index_of,
  derived_for, load_at, bind_program, bind_derived_programs,
}

module _ {A : Type 0} where
  get_or-append_left :
      (xs ys : List A) (i : ℕ) (d : A) → i < length xs → get_or (xs ++ ys) i d ≡ get_or xs i d
  get_or-append_left [] ys i d h = absurd (omega arith)
  get_or-append_left (x ∷ xs) ys zero d h = refl
  get_or-append_left (x ∷ xs) ys (suc i) d h = get_or-append_left xs ys i d (omega arith)

  get_elem?-append_some :
      (xs ys : List A) (i : ℕ) (a : A) → get_elem? xs i ≡ some a → get_elem? (xs ++ ys) i ≡ some a
  get_elem?-append_some [] ys i a h = absurd (none-ne-some _ h)
  get_elem?-append_some (x ∷ xs) ys zero a h = h
  get_elem?-append_some (x ∷ xs) ys (suc i) a h = get_elem?-append_some xs ys i a h

index_of-get_elem? :
    (key : String) (i : ℕ) (keys : List String) (j : ℕ)
    → index_of key i keys ≡ some j
    → (n : ℕ) × (j ≡ i + n) × (get_elem? keys n ≡ some key)
index_of-get_elem? key i [] j h = absurd (none-ne-some _ h)
index_of-get_elem? key i (k ∷ keys) j h = elim (Bool-cases (str_eq k key)) [
  | inl e ↦
      let here : i ≡ j = some-injective _ _ (rw e at h) in
      (0, omega (arith, here), ap some (str_eq→eq k key e))
  | inr e ↦
      let (n, at, found) = index_of-get_elem? key (suc i) keys j (rw e at h) in
      (suc n, omega (arith, at), found)
]

-- The columns that the program loads are among the keys.
abbrev pub InRange : {D : Type 0} → List String → List (ExprOp D) → Type 0
InRange keys ops =
    All (λ op. is_load op.code ≡ true → (c : ℕ) × (op.col ≡ pos c) × (c < length keys)) ops

module _ {D : Type 0} (stoll : String → Option ℤ) (bits : D → ℕ) where
  operand_of-append :
      (op : ExprOp D) (keys more : List String)
      → (is_load op.code ≡ true → (c : ℕ) × (op.col ≡ pos c) × (c < length keys))
      → operand_of stoll bits op (keys ++ more) ≡ operand_of stoll bits op keys
  unfolding operand_of
  operand_of-append op keys more h = elim (Bool-cases (is_load op.code)) [
    | inr e ↦ simp e refl
    | inl e ↦
        let (c, at, lt) = h e in
        let same : key_at (keys ++ more) op.col ≡ key_at keys op.col =
          ap (key_at (keys ++ more)) at
          ∙ get_or-append_left keys more c "" lt
          ∙ sym (ap (key_at keys) at) in
        simp (e, same) refl
  ]

  fingerprint_from-append :
      (h : ℕ) (ops : List (ExprOp D)) (keys more : List String)
      → InRange keys ops
      → fingerprint_from stoll bits h ops (keys ++ more) ≡ fingerprint_from stoll bits h ops keys
  unfolding fingerprint_from
  fingerprint_from-append h [] keys more r = refl
  fingerprint_from-append h (op ∷ ops) keys more (r, rs) =
      ap (λ o. fingerprint_from stoll bits (mix_op stoll bits h op.code o) ops (keys ++ more))
        (operand_of-append op keys more r)
      ∙ fingerprint_from-append (mix_op stoll bits h op.code (operand_of stoll bits op keys)) ops
          keys more rs

  fingerprint_ops-append :
      (ops : List (ExprOp D)) (keys more : List String)
      → InRange keys ops
      → fingerprint_ops stoll bits ops (keys ++ more) ≡ fingerprint_ops stoll bits ops keys
  unfolding fingerprint_ops
  fingerprint_ops-append ops keys more r =
      fingerprint_from-append 14695981039346656037 ops keys more r

module _ {D : Type 0} (B : Backend D) (stoll : String → Option ℤ) (bits : D → ℕ) (zero_double : D)
    (manifest : Manifest) (store : Pinned B.Arr) where
  -- What becomes of a program: nothing, where no derived column has its fingerprint; else it loads that
  -- column, which stands among the keys.
  abbrev pub BoundTo : List String → List String → SumProgram D → SumProgram D → Type 0
  BoundTo keys keys' p p' =
      ((derived_for B stoll bits manifest store keys p ≡ none) × (p' ≡ p))
      ⊎ ((key : String) × (i : ℕ) × (derived_for B stoll bits manifest store keys p ≡ some key)
          × (get_elem? keys' i ≡ some key)
          × (p' ≡ record p { ops = load_at zero_double i ∷ [] }))

  abbrev pub AllBoundTo :
      List String → List String → List (SumProgram D) → List (SumProgram D) → Type 0
  AllBoundTo keys keys' [] [] = Unit
  AllBoundTo keys keys' (p ∷ ps) (p' ∷ ps') = BoundTo keys keys' p p' × AllBoundTo keys keys' ps ps'
  AllBoundTo keys keys' _ _ = ⊥

  derived_for-append :
      (keys more : List String) (p : SumProgram D)
      → InRange keys p.ops
      → derived_for B stoll bits manifest store (keys ++ more) p
        ≡ derived_for B stoll bits manifest store keys p
  unfolding derived_for
  derived_for-append keys more p r = simp (fingerprint_ops-append stoll bits p.ops keys more r) refl

  bind_program-BoundTo :
      (o : Option String) (keys : List String) (p : SumProgram D)
      → derived_for B stoll bits manifest store keys p ≡ o
      → let (keys', p', n) = bind_program zero_double o keys p in
        BoundTo keys keys' p p' × ((more : List String) × (keys' ≡ keys ++ more))
  unfolding bind_program
  bind_program-BoundTo none keys p e = (inl (e, refl), ([], sym (append-nil keys)))
  bind_program-BoundTo (some key) keys p e = elim (Option-cases (index_of key 0 keys)) [
    | inr (i, f) ↦
        let (n, at, found) = index_of-get_elem? key 0 keys i f in
        let same : n ≡ i = omega (arith, at) in
        rw (f, bind_program)
          (
            inr (key, i, e, subst (λ j. get_elem? keys j ≡ some key) same found, refl),
            ([], sym (append-nil keys)),
          )
    | inl f ↦
        rw (f, bind_program)
          (inr (key, length keys, e, get_elem?-append_length keys [] key, refl), (key ∷ [], refl))
  ]

  -- More keys behind leave a bound program bound.
  BoundTo-later :
      (keys first keys' later : List String) (p p' : SumProgram D)
      → derived_for B stoll bits manifest store first p
        ≡ derived_for B stoll bits manifest store keys p
      → BoundTo first keys' p p'
      → BoundTo keys (keys' ++ later) p p'
  BoundTo-later keys first keys' later p p' same (inl (e, q)) = inl (sym same ∙ e, q)
  BoundTo-later keys first keys' later p p' same (inr (key, i, e, at, q)) =
      inr (key, i, sym same ∙ e, get_elem?-append_some keys' later i key at, q)

  bind-AllBoundTo :
      (keys seen now : List String) (ps : List (SumProgram D))
      → now ≡ keys ++ seen
      → All (λ p. InRange keys p.ops) ps
      → let (keys', ps', n) =
          bind_derived_programs B stoll bits zero_double manifest store now ps in
        AllBoundTo keys keys' ps ps' × ((more : List String) × (keys' ≡ now ++ more))
  unfolding bind_derived_programs
  bind-AllBoundTo keys seen now [] e r = (tt, ([], sym (append-nil now)))
  bind-AllBoundTo keys seen now (p ∷ ps) e (r, rs) =
      let keys' : List String =
        (bind_program zero_double (derived_for B stoll bits manifest store now p) now p).0 in
      let p' : SumProgram D =
        (bind_program zero_double (derived_for B stoll bits manifest store now p) now p).1 in
      let (bound, (more, grown)) =
        bind_program-BoundTo (derived_for B stoll bits manifest store now p) now p refl in
      let e' : keys' ≡ keys ++ (seen ++ more) =
        grown ∙ ap (λ ks. ks ++ more) e ∙ append_assoc keys seen more in
      let (rest, (later, end)) = bind-AllBoundTo keys (seen ++ more) keys' ps e' rs in
      let same : derived_for B stoll bits manifest store now p
          ≡ derived_for B stoll bits manifest store keys p =
        ap (λ ks. derived_for B stoll bits manifest store ks p) e
        ∙ derived_for-append keys seen p r in
      (
        (
          subst (λ ks. BoundTo keys ks p p') (sym end)
              (BoundTo-later keys now keys' later p p' same bound),
          rest,
        ),
        (more ++ later, end ∙ ap (λ ks. ks ++ later) grown ∙ append_assoc now more later),
      )

  -- Binding keeps every key at its index and changes a program only where a derived column of the
  -- manifest, fused in the store, has its fingerprint over the keys: such a program then loads that
  -- column, at the index of its key, and is otherwise as it was. Condition: the columns that the programs
  -- load are among the keys.
  pub bind_derived_programs-AllBoundTo :
      (keys : List String) (ps : List (SumProgram D))
      → All (λ p. InRange keys p.ops) ps
      → let (keys', ps', n) =
          bind_derived_programs B stoll bits zero_double manifest store keys ps in
        AllBoundTo keys keys' ps ps' × ((more : List String) × (keys' ≡ keys ++ more))
  bind_derived_programs-AllBoundTo keys ps r =
      bind-AllBoundTo keys [] keys ps (sym (append-nil keys)) r
