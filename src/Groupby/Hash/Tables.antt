-- ===== src/Groupby/Hash/Tables.antt =====
-- The tables that the rows of a grouping fill.
use mathlib.Core.List.{append_assoc, append-nil}
use duckdb_mlx.Common.{
  ℕ, suc, ◌+◌, ◌*◌, ◌≡◌, refl, sym, ap, ◌∙◌, Bool, true, false, not, ◌&&◌, List, [], ◌∷◌, ◌++◌, map,
  pos, length, length-append, length-map, set, replicate, replicate-add, set-append_length, arith,
  if◌then◌else◌,
}
use duckdb_mlx.Common.Int64.{Int64}
use duckdb_mlx.Ir.{SumProgram}
use duckdb_mlx.Groupby.{GroupbyRow}
use duckdb_mlx.Groupby.Sum.{signed}
use duckdb_mlx.Groupby.Hash.{
  GroupedState, is_sum, rows_or_one, populate_slot, populate_programs, populate_rows,
  populate_from_hash_rows,
}

-- Writes to the slots of a table, from `slot` on: one for each program that `b` selects.
module _ {P A : Type 0} (b : P → Bool) where
  fill : (P → A) → ℕ → List P → List A → List A
  fill v slot [] t = t
  fill v slot (p ∷ ps) t = fill v (slot + 1) ps (if b p then set t slot (v p) else t)

  abbrev filled : A → (P → A) → List P → List A
  filled z v ps = map (λ p. if b p then v p else z) ps

  fill_slot :
      (c : Bool) (done rest : List A) (a z : A) (slot : ℕ)
      → slot ≡ length done
      → (if c then set (done ++ z ∷ rest) slot a else done ++ z ∷ rest)
        ≡ done ++ (if c then a else z) ∷ rest
  fill_slot true done rest a z slot h = set-append_length done rest z a slot h
  fill_slot false done rest a z slot h = refl

  fill_lem :
      (v : P → A) (z : A) (slot : ℕ) (ps : List P) (done rest : List A)
      → slot ≡ length done
      → fill v slot ps (done ++ (replicate (length ps) z ++ rest)) ≡ done ++ (filled z v ps ++ rest)
  unfolding fill
  fill_lem v z slot [] done rest h = refl
  fill_lem v z slot (p ∷ ps) done rest h =
      let e : A = if b p then v p else z in
      ap (fill v (slot + 1) ps) (
        fill_slot (b p) done (replicate (length ps) z ++ rest) (v p) z slot h
        ∙ sym (append_assoc done (e ∷ []) (replicate (length ps) z ++ rest)))
      ∙ fill_lem v z (slot + 1) ps (done ++ e ∷ []) rest
          (omega (arith, length-append done (e ∷ [])))
      ∙ append_assoc done (e ∷ []) (filled z v ps ++ rest)

  module _ {R : Type 0} (v : R → P → A) where
    fill_rows : ℕ → List R → List P → List A → List A
    fill_rows g [] ps t = t
    fill_rows g (r ∷ rs) ps t = fill_rows (g + 1) rs ps (fill (v r) (g * length ps) ps t)

    -- Row by row, an entry for each program.
    abbrev pub table : A → List R → List P → List A
    table z [] ps = []
    table z (r ∷ rs) ps = map (λ p. if b p then v r p else z) ps ++ table z rs ps

    fill_rows-table :
        (z : A) (g : ℕ) (rs : List R) (ps : List P) (done : List A)
        → length done ≡ g * length ps
        → fill_rows g rs ps (done ++ replicate (length rs * length ps) z) ≡ done ++ table z rs ps
    unfolding fill_rows
    fill_rows-table z g [] ps done h = let none : 0 * length ps ≡ 0 = omega arith in rw none refl
    fill_rows-table z g (r ∷ rs) ps done h =
        let more : suc (length rs) * length ps ≡ length ps + length rs * length ps = omega arith in
        let next : (g + 1) * length ps ≡ g * length ps + length ps = omega arith in
        ap (λ t. fill_rows (g + 1) rs ps (fill (v r) (g * length ps) ps t))
          (ap (◌++◌ done) (replicate-add (length ps) (length rs * length ps) _ z more))
        ∙ ap (fill_rows (g + 1) rs ps) (
            fill_lem (v r) z (g * length ps) ps done (replicate (length rs * length ps) z) (sym h)
            ∙ sym (append_assoc done (filled z (v r) ps) (replicate (length rs * length ps) z)))
        ∙ fill_rows-table z (g + 1) rs ps (done ++ filled z (v r) ps) (
            omega (
              arith,
              next,
              length-append done (filled z (v r) ps),
              length-map ps (λ p. if b p then v r p else z),
            ))
        ∙ append_assoc done (filled z (v r) ps) (table z rs ps)

-- The slots of a group that a sum fills, by the lane of the program.
abbrev pub float_slot : {D : Type 0} → SumProgram D → Bool
float_slot p = is_sum p.kind && not p.int_lane

abbrev pub int_slot : {D : Type 0} → SumProgram D → Bool
int_slot p = is_sum p.kind && p.int_lane

abbrev pub any_slot : {D : Type 0} → SumProgram D → Bool
any_slot p = is_sum p.kind

fill_all :
    {V : Type 0} (rs : List (GroupbyRow V))
    → fill (λ r. true) rows_or_one 0 rs (replicate (length rs) 0) ≡ map rows_or_one rs
fill_all rs =
    ap (fill (λ r. true) rows_or_one 0 rs) (sym (append-nil (replicate (length rs) 0)))
    ∙ fill_lem (λ r. true) rows_or_one 0 0 rs [] [] refl
    ∙ append-nil (map rows_or_one rs)

module _ {D V F : Type 0} (double_zero : V) (to_i64 : V → Int64) where
  populate_programs-fill :
      (r : GroupbyRow V) (slot : ℕ) (ps : List (SumProgram D)) (s : GroupedState V F)
      → populate_programs double_zero to_i64 r slot ps s ≡ record s {
        fvalues = fill float_slot (λ p. r.sum) slot ps s.fvalues;
        ivalues = fill int_slot (λ p. signed (to_i64 r.sum)) slot ps s.ivalues;
        counts = fill any_slot (λ p. rows_or_one r) slot ps s.counts;
      }
  unfolding populate_programs populate_slot fill
  populate_programs-fill r slot [] s = refl
  populate_programs-fill r slot (p ∷ ps) s =
      populate_programs-fill r (slot + 1) ps (populate_slot double_zero to_i64 r slot p s)

  populate_rows-fill :
      (g : ℕ) (rs : List (GroupbyRow V)) (ps : List (SumProgram D)) (s : GroupedState V F)
      → populate_rows double_zero to_i64 g rs ps s ≡ record s {
        fvalues = fill_rows float_slot (λ r p. r.sum) g rs ps s.fvalues;
        ivalues = fill_rows int_slot (λ r p. signed (to_i64 r.sum)) g rs ps s.ivalues;
        counts = fill_rows any_slot (λ r p. rows_or_one r) g rs ps s.counts;
        rows = fill (λ r. true) rows_or_one g rs s.rows;
        hash_key_emit = s.hash_key_emit ++ map (λ r. r.key) rs;
      }
  unfolding populate_rows fill_rows fill
  populate_rows-fill g [] ps s =
      λ i. record s { hash_key_emit = sym (append-nil s.hash_key_emit) i }
  populate_rows-fill g (r ∷ rs) ps s =
      ap (populate_rows double_zero to_i64 (g + 1) rs ps)
        (populate_programs-fill r (g * length ps) ps _)
      ∙ populate_rows-fill (g + 1) rs ps _
      ∙ (λ i. record s {
        fvalues = fill_rows float_slot (λ r p. r.sum) g (r ∷ rs) ps s.fvalues;
        ivalues = fill_rows int_slot (λ r p. signed (to_i64 r.sum)) g (r ∷ rs) ps s.ivalues;
        counts = fill_rows any_slot (λ r p. rows_or_one r) g (r ∷ rs) ps s.counts;
        rows = fill (λ r. true) rows_or_one g (r ∷ rs) s.rows;
        hash_key_emit = append_assoc s.hash_key_emit (r.key ∷ []) (map (λ r. r.key) rs) i;
      })

  -- The state that the rows of a hash grouping fill: a group for each row, which emits the row's key and
  -- counts its entries (1 where the row has none); and in the tables, group by group, an entry for
  -- each program: for SUM and AVG the row's sum on the program's lane and that count, and 0 elsewhere.
  pub populate_from_hash_rows-table :
      (rs : List (GroupbyRow V)) (ps : List (SumProgram D)) (s : GroupedState V F)
      → populate_from_hash_rows double_zero to_i64 rs ps s ≡ record s {
        card = length rs;
        fvalues = table float_slot (λ r p. r.sum) double_zero rs ps;
        ivalues = table int_slot (λ r p. signed (to_i64 r.sum)) (pos 0) rs ps;
        counts = table any_slot (λ r p. rows_or_one r) 0 rs ps;
        rows = map rows_or_one rs;
        hash_key_emit = map (λ r. r.key) rs;
      }
  unfolding populate_from_hash_rows
  populate_from_hash_rows-table rs ps s =
      let start : 0 ≡ 0 * length ps = omega arith in
      populate_rows-fill 0 rs ps _ ∙ (λ i. record s {
        card = length rs;
        fvalues = fill_rows-table float_slot (λ r p. r.sum) double_zero 0 rs ps [] start i;
        ivalues =
            fill_rows-table int_slot (λ r p. signed (to_i64 r.sum)) (pos 0) 0 rs ps [] start i;
        counts = fill_rows-table any_slot (λ r p. rows_or_one r) 0 0 rs ps [] start i;
        rows = fill_all rs i;
        hash_key_emit = map (λ r. r.key) rs;
      })
