-- ===== src/Groupby/Path/Checked.antt =====
-- What the choice of a grouping guarantees.
use Prim.Native.String.{String}
use text.Mathlib.Text.{◌==◌ as str_eq}
use duckdb_mlx.Common.Assoc.{str_eq→eq}
use duckdb_mlx.Common.{
  ℕ, ◌≡◌, refl, ◌≢◌, inl, inr, true, false, ◌&&◌, Option, none, some, arith, ℤ, pos, negsuc,
  Bool-cases,
}
use duckdb_mlx.Common.Int64.{Int64}
use duckdb_mlx.Groupby.Path.{
  set_path_override, path_override, groupby_path, path_is, should_try_slotlock, should_try_radix,
}

-- An override of the path takes precedence over the environment until it is cleared: after a
-- non-empty name is set, that name is the path, whatever the environment says, and after nullptr or
-- the empty text is set, the environment's is.
pub groupby_path-set_path_override :
    (env : Option String) (name : String)
    → ((name ≢ "") → groupby_path env (set_path_override (some name)) ≡ some name)
      × (groupby_path env (set_path_override (some "")) ≡ env)
      × (groupby_path env (set_path_override none) ≡ env)
unfolding groupby_path set_path_override path_override
groupby_path-set_path_override env name = (
  λ ne. elim (Bool-cases (str_eq name "")) [
    | inl h ↦ absurd (ne (str_eq→eq name "" h))
    | inr h ↦ rw (h, groupby_path, h) refl
  ],
  refl,
  refl,
)

-- A path has one name.
path_is-one : (path : Option String) → path_is path "slotlock" ≡ true → path_is path "radix" ≡ false
path_is-one none h = refl
path_is-one (some p) h = rw (str_eq→eq p "slotlock" h) refl

-- The slotlock and the radix grouping are never both tried: for every path, number of rows and
-- estimate, at most one of the two tests holds.
pub should_try-exclusive :
    (path : Option String) (n : ℕ) (groups : ℤ)
    → (should_try_slotlock path groups && should_try_radix path n groups) ≡ false
unfolding should_try_slotlock should_try_radix
should_try-exclusive path n (negsuc k) = ground (arith, path_is-one path)
should_try-exclusive path n (pos k) = ground (arith, path_is-one path)
