-- ===== src/Common/Assoc.antt =====
-- Maps with `std::string` keys, as association lists with the first entry of a key in force.
use Prim.Native.String.{String}
use text.Mathlib.Text.{◌==◌ as str_eq}
use text.Mathlib.TextEquality.{eq_iff}
use duckdb_mlx.Common.Tests.{if◌then◌else◌, Bool-cases}
use mathlib.Core.Path.{◌≡◌, refl}
use mathlib.Core.Logic.{inl, inr}
use mathlib.Core.Bool.{true, false}
use mathlib.Core.List.{List, [], ◌∷◌}
use mathlib.Core.Option.{Option, none, some}

pub str_eq_self : (s : String) → str_eq s s ≡ true
str_eq_self s = (eq_iff s s).1 refl

pub str_eq→eq : (s t : String) → str_eq s t ≡ true → s ≡ t
str_eq→eq s t h = (eq_iff s t).0 h

module _ {V : Type 0} where
  abbrev pub find : String → List (String × V) → Option V
  find k [] = none
  find k ((j, v) ∷ m) = if str_eq j k then some v else find k m

  -- `m[k] = v`
  abbrev pub put : String → V → List (String × V) → List (String × V)
  put k v [] = (k, v) ∷ []
  put k v ((j, w) ∷ m) = if str_eq j k then (j, v) ∷ m else (j, w) ∷ put k v m

  pub find-put_self : (k : String) (v : V) (m : List (String × V)) → find k (put k v m) ≡ some v
  find-put_self k v [] = rw (str_eq_self k) refl
  find-put_self k v ((j, w) ∷ m) = elim (Bool-cases (str_eq j k)) [
    | inl h ↦ rw (h, h) refl
    | inr h ↦ rw (h, h) (find-put_self k v m)
  ]

  pub find-put_other :
      (k j : String) (v : V) (m : List (String × V))
      → str_eq k j ≡ false
      → find j (put k v m) ≡ find j m
  find-put_other k j v [] ne = rw ne refl
  find-put_other k j v ((i, w) ∷ m) ne = elim (Bool-cases (str_eq i k)) [
    | inl h ↦ let same : i ≡ k = str_eq→eq i k h in rw (h, same, ne) refl
    | inr h ↦ rw (h, find-put_other k j v m ne) refl
  ]
