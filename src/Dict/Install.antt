-- ===== src/Dict/Install.antt =====
-- An installed dictionary: its strings are those of the list, and they encode without growing it.
use Prim.Native.String.{String}
use text.Mathlib.Text.{◌==◌ as str_eq}
use duckdb_mlx.Common.{
  ℕ, zero, suc, ◌+◌, ◌^◌, ◌≤◌, ◌≡◌, refl, sym, ap, subst, ◌∙◌, ◌⊎◌, inl, inr, List, [], ◌∷◌, some,
  arith, length, get_elem?, Bool-cases, Option-cases, ==_iff,
}
use mathlib.Core.Option.{some-injective, none-ne-some}
use duckdb_mlx.Common.Assoc.{find, find-put_self, str_eq_self, str_eq→eq}
use duckdb_mlx.Common.Int64.{Int64}
use duckdb_mlx.Dict.{
  DictEntry, Store, to_int32, emplace, encode_entry, dict_encode, dict_strings, index_from,
  dict_install, dict_card,
}
use duckdb_mlx.Dict.RoundTrip.{
  IsEntry, IsStore, put-IsStore, dict_strings-put, entry_of-put, for_population-same,
}

emplace-cases :
    (v : String) (d : ℕ) (index : List (String × ℕ)) (s : String) (c : ℕ)
    → find s (emplace v d index) ≡ some c
    → (find s index ≡ some c) ⊎ ((v ≡ s) × (d ≡ c))
unfolding emplace
emplace-cases v d index s c h = elim (Option-cases (find v index)) [
  | inr (_, q) ↦ inl (rw (q, emplace) at h)
  | inl q ↦ elim (Bool-cases (str_eq v s)) [
    | inl e ↦ inr (str_eq→eq v s e, some-injective _ _ (rw (q, emplace, e) at h))
    | inr e ↦ inl (rw (q, emplace, e) at h)
  ]
]

emplace-keeps :
    (v : String) (d : ℕ) (index : List (String × ℕ)) (s : String) (c : ℕ)
    → find s index ≡ some c
    → find s (emplace v d index) ≡ some c
unfolding emplace
emplace-keeps v d index s c h = elim (Option-cases (find v index)) [
  | inr (_, q) ↦ rw (q, emplace) h
  | inl q ↦ elim (Bool-cases (str_eq v s)) [
    | inl e ↦ absurd (none-ne-some _ (sym q ∙ rw (← str_eq→eq v s e) at h))
    | inr e ↦ rw (q, emplace, e) h
  ]
]

emplace-has :
    (v : String) (d : ℕ) (index : List (String × ℕ))
    → (c : ℕ) × (find v (emplace v d index) ≡ some c)
unfolding emplace
emplace-has v d index = elim (Option-cases (find v index)) [
  | inr (c, q) ↦ (c, rw (q, emplace) q)
  | inl q ↦ (d, rw (q, emplace, str_eq_self v) refl)
]

-- What the loop indexes decodes in the whole list, of which it has `i` strings behind it.
index_from-decodes :
    (strings rest : List String) (i : ℕ) (index : List (String × ℕ))
    → ((j : ℕ) → get_elem? rest j ≡ get_elem? strings (i + j))
    → i + length rest ≤ 2 ^ 31
    → ((s : String) (c : ℕ) → find s index ≡ some c → get_elem? strings c ≡ some s)
    → (s : String) (c : ℕ) → find s (index_from i rest index) ≡ some c
    → get_elem? strings c ≡ some s
unfolding index_from
index_from-decodes strings [] i index at room h s c found = h s c found
index_from-decodes strings (v ∷ rest) i index at room h s c found =
    index_from-decodes strings rest (suc i) (emplace v (to_int32 i) index)
      (λ j. at (suc j) ∙ ap (get_elem? strings) (omega arith)) (omega arith)
      (λ t d q. elim (emplace-cases v (to_int32 i) index t d q) [
        | inl old ↦ h t d old
        | inr (same, code) ↦ let here : i + 0 ≡ d = omega arith in rw (← here, ← same) (sym (at 0))
      ])
      s c found

index_from-keeps :
    (rest : List String) (i : ℕ) (index : List (String × ℕ)) (s : String) (c : ℕ)
    → find s index ≡ some c
    → find s (index_from i rest index) ≡ some c
unfolding index_from
index_from-keeps [] i index s c h = h
index_from-keeps (v ∷ rest) i index s c h =
    index_from-keeps rest (suc i) _ s c (emplace-keeps v (to_int32 i) index s c h)

index_from_complete :
    (rest : List String) (i : ℕ) (index : List (String × ℕ)) (s : String) (j : ℕ)
    → get_elem? rest j ≡ some s
    → (c : ℕ) × (find s (index_from i rest index) ≡ some c)
unfolding index_from
index_from_complete [] i index s j h = absurd (none-ne-some _ h)
index_from_complete (v ∷ rest) i index s zero h =
    let (c, q) = emplace-has v (to_int32 i) index in
    (
      c,
      index_from-keeps rest (suc i) _ s c
          (subst (λ t. find t (emplace v (to_int32 i) index) ≡ some c) (some-injective _ _ h) q),
    )
index_from_complete (v ∷ rest) i index s (suc j) h =
    index_from_complete rest (suc i) (emplace v (to_int32 i) index) s j h

abbrev installed : Int64 → List String → DictEntry
installed p strings = record { population = p; strings = strings; index = index_from 0 strings [] }

installed-IsEntry :
    (p : Int64) (strings : List String) → length strings ≤ 2 ^ 31 → IsEntry (installed p strings)
installed-IsEntry p strings room = record {
  decodes =
      index_from-decodes strings strings 0 [] (λ j. ap (get_elem? strings) (omega arith))
        (omega arith) (λ s c q. absurd (none-ne-some _ q));
  complete = λ s j h. index_from_complete strings 0 [] s j h;
  small = room;
}

encode_entry-known :
    (p : Int64) (value : String) (max_card : Int64) (e : DictEntry) (c : ℕ)
    → e.population ≡ p
    → find value e.index ≡ some c
    → encode_entry p value max_card e ≡ (c, e)
unfolding encode_entry
encode_entry-known p value max_card e c pop known =
    rw (for_population-same p e pop, encode_entry, known)
      (ap (λ d. (c, d)) (for_population-same p e pop))

-- Installing a dictionary of at most 2 ^ 31 strings in a well-formed store keeps it well-formed; the
-- strings and the number of strings of the column and population are those of the list; and each
-- string of the list, repetitions included, encodes to a code that decodes to it, and leaves the
-- strings as they are, whatever the limit.
pub dict_install-roundtrip :
    (store : Store) (col : String) (p : Int64) (strings : List String)
    → IsStore store
    → length strings ≤ 2 ^ 31
    → let store' = dict_install col p strings store in
      IsStore store'
      × (dict_strings col p store' ≡ strings)
      × (dict_card col p store' ≡ length strings)
      × ((value : String) (i : ℕ) (max_card : Int64)
          → get_elem? strings i ≡ some value
          → (get_elem? strings (dict_encode col p value max_card store').0 ≡ some value)
            × (dict_strings col p (dict_encode col p value max_card store').1 ≡ strings))
unfolding dict_install dict_card dict_encode
dict_install-roundtrip store col p strings h room =
    let e : DictEntry = installed p strings in
    let he : IsEntry e = installed-IsEntry p strings room in
    (
      put-IsStore col e store h he,
      dict_strings-put col p e store refl,
      rw (find-put_self col e store, dict_card, (==_iff p p).1 refl) refl,
      λ value i max_card q.
          let (c, known) = he.complete value i q in
          rw (entry_of-put col e store, encode_entry-known p value max_card e c refl known)
            (he.decodes value c known, dict_strings-put col p e _ refl),
    )
