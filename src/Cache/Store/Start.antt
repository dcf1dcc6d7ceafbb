-- ===== src/Cache/Store/Start.antt =====
-- MlxCacheStoreSegment: the segment that a call begins with.
use Prim.Native.String.{String}
use duckdb_mlx.Common.{
  ℕ, ◌≡◌, refl, sym, ap, subst, ◌∙◌, Bool, true, false, List, [], ◌∷◌, length, Bool-cases, inl, inr,
}
use duckdb_mlx.Common.Int64.{Int64}
use duckdb_mlx.Common.Assoc.{put}
use duckdb_mlx.Ir.{ColumnData}
use duckdb_mlx.Zone.{Zoned}
use duckdb_mlx.Segment.{is_empty}
use duckdb_mlx.Cache.Store.{Columns, column_of, start_index}
use duckdb_mlx.Cache.Store.Rows.{IsColumn, IsStored, here, there, column_of-put_self}

is_empty-length : {A : Type 0} (xs : List A) → is_empty xs ≡ true → length xs ≡ 0
is_empty-length [] e = refl
is_empty-length (x ∷ xs) e = absurd (cc e)

-- Each flagged column has `m` segments.
abbrev pub FlaggedHave : {D F : Type 0} → ℕ → List String → List Bool → Columns D F → Type 0
FlaggedHave m [] fs store = Unit
FlaggedHave m (j ∷ ks) [] store = Unit
FlaggedHave m (j ∷ ks) (false ∷ fs) store = FlaggedHave m ks fs store
FlaggedHave m (j ∷ ks) (true ∷ fs) store =
    (length (column_of j store).segments ≡ m) × FlaggedHave m ks fs store

module _ {D F : Type 0} (of_int : Int64 → D) (zoned : Zoned D F) (zero_double : D) where
  module _ (k : String) (col : ColumnData F) (keys : List String) (flags : List Bool)
      (cols : List (ColumnData F)) (population count : ℕ) (stored : IsStored k col keys flags cols)
      (fits : IsColumn count col) where
    abbrev after_look : String → Columns D F → Columns D F
    after_look j store = put j (column_of j store) store

    FlaggedHave-put :
        (m : ℕ) (j : String) (ks : List String) (fs : List Bool) (store : Columns D F)
        → FlaggedHave m ks fs store
        → FlaggedHave m ks fs (after_look j store)
    FlaggedHave-put m j [] fs store h = tt
    FlaggedHave-put m j (i ∷ ks) [] store h = tt
    FlaggedHave-put m j (i ∷ ks) (false ∷ fs) store h = FlaggedHave-put m j ks fs store h
    FlaggedHave-put m j (i ∷ ks) (true ∷ fs) store (h, hs) = (
      ap (λ c. length c.segments)
            (column_of-put_self of_int zoned zero_double k col keys flags cols population count
              stored fits j i store)
          ∙ h,
      FlaggedHave-put m j ks fs store hs,
    )

    start_index-empty :
        (ks : List String) (fs : List Bool) (store : Columns D F)
        → FlaggedHave 0 ks fs store
        → (start_index of_int zoned zero_double population keys flags cols count ks fs store).0 ≡ 0
    unfolding start_index
    start_index-empty [] fs store h = refl
    start_index-empty (j ∷ ks) [] store h = refl
    start_index-empty (j ∷ ks) (false ∷ fs) store h = start_index-empty ks fs store h
    start_index-empty (j ∷ ks) (true ∷ fs) store (h, hs) =
        elim (Bool-cases (is_empty (column_of j store).segments)) [
          | inl e ↦
              rw e
                (start_index-empty ks fs (after_look j store) (FlaggedHave-put 0 j ks fs store hs))
          | inr e ↦ rw e h
        ]

    start_index-head :
        (m : ℕ) (j : String) (ks : List String) (fs : List Bool) (store : Columns D F)
        → FlaggedHave m (j ∷ ks) (true ∷ fs) store
        → (start_index of_int zoned zero_double population keys flags cols count
            (j ∷ ks)
            (true ∷ fs)
            store).0
          ≡ m
    unfolding start_index
    start_index-head m j ks fs store (h, hs) =
        elim (Bool-cases (is_empty (column_of j store).segments)) [
          | inl e ↦
              let none_there : m ≡ 0 = sym h ∙ is_empty-length (column_of j store).segments e in
              rw e (
                start_index-empty ks fs (after_look j store) (
                  FlaggedHave-put 0 j ks fs store
                    (subst (λ m. FlaggedHave m ks fs store) none_there hs))
                ∙ sym none_there)
          | inr e ↦ rw e h
        ]

    -- Where the flagged columns have equally many segments, a call begins behind those.
    pub start_index-FlaggedHave :
        (m : ℕ) (ks : List String) (fs : List Bool) (cs : List (ColumnData F)) (store : Columns D F)
        → IsStored k col ks fs cs
        → FlaggedHave m ks fs store
        → (start_index of_int zoned zero_double population keys flags cols count ks fs store).0 ≡ m
    unfolding start_index
    start_index-FlaggedHave m _ _ _ store (here ks fs cs other) h =
        start_index-head m k ks fs store h
    start_index-FlaggedHave m _ _ _ store (there j true c ks fs cs ne in_rest) h =
        start_index-head m j ks fs store h
    start_index-FlaggedHave m _ _ _ store (there j false c ks fs cs ne in_rest) h =
        start_index-FlaggedHave m ks fs cs store in_rest h
