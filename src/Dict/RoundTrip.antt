-- ===== src/Dict/RoundTrip.antt =====
-- The codes of a dictionary decode to the strings that they encode.
use Prim.Native.String.{String}
use text.Mathlib.Text.{◌==◌ as str_eq}
use duckdb_mlx.Common.{
  ℕ, zero, suc, ◌^◌, ◌≤◌, ◌<◌, ◌≡◌, refl, sym, subst, ◌∙◌, ◌⊎◌, inl, inr, List, [], ◌∷◌, ◌++◌, none,
  some, arith, length, length-append, get_elem?, get_elem?-append_left, get_elem?-append_length,
  Bool-cases, Option-cases, ◌==◌, ==_iff, ltb, ltb→lt,
}
use mathlib.Core.Bool.{true≢false}
use mathlib.Core.Option.{some-injective, none-ne-some}
use duckdb_mlx.Common.Assoc.{find, put, find-put_self, find-put_other, str_eq_self, str_eq→eq}
use duckdb_mlx.Common.Int64.{Int64, le_i64}
use duckdb_mlx.Dict.{
  DictEntry, Store, entry_of, no_code, to_int32, emplace, for_population, encode_new, encode_entry,
  dict_encode, dict_strings,
}

-- Each code of the index is the position of its string, every string has a code, and the codes fit
-- an int32_t.
pub record IsEntry (e : DictEntry) : Type 0 where
  pub decodes : (s : String) (c : ℕ) → find s e.index ≡ some c → get_elem? e.strings c ≡ some s
  pub complete :
      (s : String) (i : ℕ) → get_elem? e.strings i ≡ some s → (c : ℕ) × (find s e.index ≡ some c)
  pub small : length e.strings ≤ 2 ^ 31

abbrev pub IsStore : Store → Type 0
IsStore store = (col : String) (e : DictEntry) → find col store ≡ some e → IsEntry e

pub empty-IsEntry :
    (population : Int64) → IsEntry (record { population = population; strings = []; index = [] })
empty-IsEntry population = record {
  decodes = λ s c h. cc;
  complete = λ s i h. cc;
  small = omega arith;
}

entry_of-IsEntry : (col : String) (store : Store) → IsStore store → IsEntry (entry_of col store)
unfolding entry_of
entry_of-IsEntry col store h = elim (Option-cases (find col store)) [
  | inl e ↦ rw (e, entry_of) (empty-IsEntry _)
  | inr (d, e) ↦ rw (e, entry_of) (h col d e)
]

for_population-IsEntry : (p : Int64) (e : DictEntry) → IsEntry e → IsEntry (for_population p e)
unfolding for_population
for_population-IsEntry p e h = elim (Bool-cases (e.population == p)) [
  | inl q ↦ rw q h
  | inr q ↦ rw q (empty-IsEntry p)
]

for_population-population : (p : Int64) (e : DictEntry) → (for_population p e).population ≡ p
unfolding for_population
for_population-population p e = elim (Bool-cases (e.population == p)) [
  | inl q ↦ rw q ((==_iff e.population p).0 q)
  | inr q ↦ rw q refl
]

pub for_population-same : (p : Int64) (e : DictEntry) → e.population ≡ p → for_population p e ≡ e
unfolding for_population
for_population-same p e h = rw ((==_iff e.population p).1 h) refl

get_elem?-lt {ℓ} :
    {A : Type ℓ} (xs : List A) (i : ℕ) (a : A) → get_elem? xs i ≡ some a → i < length xs
get_elem?-lt [] i a h = cc
get_elem?-lt (x ∷ xs) zero a h = omega arith
get_elem?-lt (x ∷ xs) (suc i) a h = omega (arith, get_elem?-lt xs i a h)

-- A new string at the end of the list, with its position in the index.
abbrev added : String → DictEntry → DictEntry
added value e = record e {
  strings = e.strings ++ value ∷ [];
  index = emplace value (to_int32 (length e.strings)) e.index;
}

emplace-new :
    (s : String) (c : ℕ) (index : List (String × ℕ))
    → find s index ≡ none
    → emplace s c index ≡ (s, c) ∷ index
unfolding emplace
emplace-new s c index h = rw (h, emplace) refl

added-decodes :
    (value : String) (e : DictEntry)
    → IsEntry e
    → length e.strings < 2 ^ 31
    → (s : String) (c : ℕ) → find s ((value, to_int32 (length e.strings)) ∷ e.index) ≡ some c
    → get_elem? (e.strings ++ value ∷ []) c ≡ some s
added-decodes value e h room s c found = elim (Bool-cases (str_eq value s)) [
  | inl q ↦
      let at : length e.strings ≡ c = omega (arith, some-injective _ _ (rw q at found)) in
      rw (← at, ← str_eq→eq value s q) (get_elem?-append_length e.strings [] value)
  | inr q ↦
      let old : get_elem? e.strings c ≡ some s = h.decodes s c (rw q at found) in
      get_elem?-append_left e.strings (value ∷ []) c (get_elem?-lt e.strings c s old) ∙ old
]

added_complete :
    (value : String) (e : DictEntry)
    → IsEntry e
    → (s : String) (i : ℕ) → get_elem? (e.strings ++ value ∷ []) i ≡ some s
    → (c : ℕ) × (find s ((value, to_int32 (length e.strings)) ∷ e.index) ≡ some c)
added_complete value e h s i at_i = elim (Bool-cases (str_eq value s)) [
  | inl q ↦ (to_int32 (length e.strings), rw q refl)
  | inr q ↦ elim (Bool-cases (ltb i (length e.strings))) [
    | inl lt ↦
        let old : get_elem? e.strings i ≡ some s =
          sym (get_elem?-append_left e.strings (value ∷ []) i (ltb→lt _ _ lt)) ∙ at_i in
        let (c, found) = h.complete s i old in (c, rw q found)
    | inr ge ↦
        let last : i ≡ length e.strings =
          ground (arith, get_elem?-lt _ i s at_i, length-append e.strings (value ∷ [])) in
        let same : value ≡ s =
          some-injective _ _
            (sym (get_elem?-append_length e.strings [] value) ∙ (rw last at at_i)) in
        absurd (true≢false (sym (rw same (str_eq_self s)) ∙ q))
  ]
]

added-IsEntry :
    (value : String) (e : DictEntry)
    → IsEntry e
    → find value e.index ≡ none
    → length e.strings < 2 ^ 31
    → IsEntry (added value e)
added-IsEntry value e h new room = rw (emplace-new value _ e.index new) (record {
  decodes = added-decodes value e h room;
  complete = added_complete value e h;
  small = omega (arith, length-append e.strings (value ∷ []));
})

-- What an encoding leaves: the entry of the population, the code decoding to the value, and the
-- earlier codes as they were.
abbrev pub Encoded : Int64 → String → DictEntry → ℕ × DictEntry → Type 0
Encoded p value e (code, e') =
    IsEntry e'
    × (e'.population ≡ p)
    × ((code ≡ no_code)
        ⊎ ((get_elem? e'.strings code ≡ some value) × (find value e'.index ≡ some code)))
    × ((s : String) (i : ℕ) → get_elem? e.strings i ≡ some s → get_elem? e'.strings i ≡ some s)

encode_new-Encoded :
    (p : Int64) (value : String) (max_card : Int64) (e : DictEntry)
    → max_card ≤ 2 ^ 31
    → IsEntry e
    → e.population ≡ p
    → find value e.index ≡ none
    → Encoded p value e (encode_new value max_card e)
unfolding encode_new
encode_new-Encoded p value max_card e cap h pop new =
    elim (Bool-cases (le_i64 max_card (length e.strings))) [
      | inl full ↦ rw full (h, pop, inl refl, λ s i q. q)
      | inr free ↦
          let room : length e.strings < 2 ^ 31 = ground (arith, h.small) in
          let code : to_int32 (length e.strings) ≡ length e.strings = omega arith in
          rw free (
            added-IsEntry value e h new room,
            pop,
            inr (
              rw code (get_elem?-append_length e.strings [] value),
              rw (emplace-new value (to_int32 (length e.strings)) e.index new, str_eq_self value)
                  refl,
            ),
            λ s i q.
                get_elem?-append_left e.strings (value ∷ []) i (get_elem?-lt e.strings i s q) ∙ q,
          )
    ]

pub encode_entry-Encoded :
    (p : Int64) (value : String) (max_card : Int64) (e : DictEntry)
    → max_card ≤ 2 ^ 31
    → IsEntry e
    → Encoded p value (for_population p e) (encode_entry p value max_card e)
unfolding encode_entry
encode_entry-Encoded p value max_card e cap h =
    let e' = for_population p e in
    let h' : IsEntry e' = for_population-IsEntry p e h in
    let pop : e'.population ≡ p = for_population-population p e in
    elim (Option-cases (find value (for_population p e).index)) [
      | inl new ↦ rw (new, encode_entry) (encode_new-Encoded p value max_card e' cap h' pop new)
      | inr (c, known) ↦
          rw (known, encode_entry) (h', pop, inr (h'.decodes value c known, known), λ s i q. q)
    ]

pub put-IsStore :
    (k : String) (e : DictEntry) (store : Store)
    → IsStore store
    → IsEntry e
    → IsStore (put k e store)
put-IsStore k e store h he col d found = elim (Bool-cases (str_eq k col)) [
  | inl q ↦
      let same : e ≡ d =
        some-injective _ _
          (sym (find-put_self k e store) ∙ rw (sym (str_eq→eq k col q)) at found) in
      subst IsEntry same he
  | inr q ↦ h col d (sym (find-put_other k col e store q) ∙ found)
]

pub dict_strings-put :
    (col : String) (p : Int64) (e : DictEntry) (store : Store)
    → e.population ≡ p
    → dict_strings col p (put col e store) ≡ e.strings
unfolding dict_strings
dict_strings-put col p e store pop =
    rw (find-put_self col e store, dict_strings, (==_iff e.population p).1 pop) refl

pub entry_of-put :
    (col : String) (e : DictEntry) (store : Store) → entry_of col (put col e store) ≡ e
unfolding entry_of
entry_of-put col e store = rw (find-put_self col e store, entry_of) refl

encode_entry-again :
    (p : Int64) (value : String) (max_card : Int64) (e : DictEntry) (c : ℕ)
    → e.population ≡ p
    → find value e.index ≡ some c
    → (encode_entry p value max_card e).0 ≡ c
unfolding encode_entry
encode_entry-again p value max_card e c pop known =
    rw (for_population-same p e pop, encode_entry, known) refl

dict_strings-for_population :
    (col : String) (p : Int64) (store : Store) (s : String) (i : ℕ)
    → get_elem? (dict_strings col p store) i ≡ some s
    → get_elem? (for_population p (entry_of col store)).strings i ≡ some s
unfolding dict_strings entry_of for_population
dict_strings-for_population col p store s i h = elim (Option-cases (find col store)) [
  | inl q ↦ absurd (none-ne-some _ (rw (q, dict_strings) at h))
  | inr (e, q) ↦ elim (Bool-cases (e.population == p)) [
    | inl same ↦ rw (q, entry_of, same) (rw (q, dict_strings, same) at h)
    | inr other ↦ absurd (none-ne-some _ (rw (q, dict_strings, other) at h))
  ]
]

-- Encoding a value in a well-formed store, with a limit of at most 2 ^ 31 strings: the store stays
-- well-formed; either the answer is -1, or the code decodes, through the strings of the column and
-- population, to the value, and encoding the value again with any limit gives the same code; and
-- every string of that population that had a code before keeps it.
pub dict_encode-roundtrip :
    (store : Store) (col : String) (p : Int64) (value : String) (max_card later : Int64)
    → IsStore store
    → max_card ≤ 2 ^ 31
    → let (code, store') = dict_encode col p value max_card store in
      IsStore store'
      × ((code ≡ no_code)
          ⊎ ((get_elem? (dict_strings col p store') code ≡ some value)
              × ((dict_encode col p value later store').0 ≡ code)))
      × ((s : String) (i : ℕ)
          → get_elem? (dict_strings col p store) i ≡ some s
          → get_elem? (dict_strings col p store') i ≡ some s)
unfolding dict_encode
dict_encode-roundtrip store col p value max_card later h cap =
    let e = entry_of col store in
    let (he, pop, coded, keeps) =
      encode_entry-Encoded p value max_card e cap (entry_of-IsEntry col store h) in
    let e' = (encode_entry p value max_card e).1 in
    let now : dict_strings col p (put col e' store) ≡ e'.strings =
      dict_strings-put col p e' store pop in
    (
      put-IsStore col e' store h he,
      elim coded [
        | inl full ↦ inl full
        | inr (decoded, known) ↦ inr (
          rw now decoded,
          rw (entry_of-put col e' store) (encode_entry-again p value later e' _ pop known),
        )
      ],
      λ s i q. rw now (keeps s i (dict_strings-for_population col p store s i q)),
    )
