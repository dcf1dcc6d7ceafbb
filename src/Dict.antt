-- ===== src/Dict.antt =====
-- src/bridge/mlx_bridge.cpp, MlxDictEncode to MlxDictCard: the dictionaries that encode VARCHAR
-- group keys. An int64_t is a bit pattern, and so is an int32_t (below 2 ^ 32). The lock makes each
-- operation one step on the store.
pub mod Install
pub mod RoundTrip
use Prim.Native.String.{String}
use duckdb_mlx.Common.{
  ℕ, suc, ◌-◌, ◌%◌, ◌^◌, Bool, List, [], ◌∷◌, ◌++◌, Option, none, some, ◌==◌, length, if◌then◌else◌,
}
use duckdb_mlx.Common.Assoc.{find, put}
use duckdb_mlx.Common.Int64.{Int64, le_i64}

pub record DictEntry : Type 0 where
  pub population : Int64
  pub strings : List String
  pub index : List (String × ℕ)

-- `population` starts at -1.
abbrev pub fresh : DictEntry
fresh = record { population = 2 ^ 64 - 1; strings = []; index = [] }

abbrev pub Store : Type 0
Store = List (String × DictEntry)

-- `DictStore()[col_key]`, which makes a fresh entry for a new key.
unfoldable pub entry_of : String → Store → DictEntry
entry_of col_key store = elim (find col_key store) [ none ↦ fresh | some e ↦ e ]

abbrev pub no_code : ℕ
no_code = 2 ^ 32 - 1

abbrev pub to_int32 : ℕ → ℕ
to_int32 n = n % 2 ^ 32

-- `index.emplace`: a key that is present keeps its code.
unfoldable pub emplace : String → ℕ → List (String × ℕ) → List (String × ℕ)
emplace value code index = elim (find value index) [ none ↦ (value, code) ∷ index | some _ ↦ index ]

-- The entry is cleared when the population changed.
unfoldable pub for_population : Int64 → DictEntry → DictEntry
for_population population e =
    if e.population == population
    then e
    else record { population = population; strings = []; index = [] }

unfoldable pub encode_new : String → Int64 → DictEntry → ℕ × DictEntry
encode_new value max_card e = if le_i64 max_card (length e.strings) then (no_code, e) else (
  to_int32 (length e.strings),
  record e {
    strings = e.strings ++ value ∷ [];
    index = emplace value (to_int32 (length e.strings)) e.index;
  },
)

unfoldable pub encode_entry : Int64 → String → Int64 → DictEntry → ℕ × DictEntry
encode_entry population value max_card e =
    let e' = for_population population e in
    elim (find value e'.index) [ none ↦ encode_new value max_card e' | some code ↦ (code, e') ]

unfoldable pub dict_encode : String → Int64 → String → Int64 → Store → ℕ × Store
dict_encode col_key population value max_card store =
    let (code, e) = encode_entry population value max_card (entry_of col_key store) in
    (code, put col_key e store)

unfoldable pub dict_strings : String → Int64 → Store → List String
dict_strings col_key population store = elim (find col_key store) [
  | none ↦ []
  | some e ↦ if e.population == population then e.strings else []
]

-- The loop of `MlxDictInstall`, from string `i` on.
unfoldable pub index_from : ℕ → List String → List (String × ℕ) → List (String × ℕ)
index_from i [] index = index
index_from i (s ∷ strings) index = index_from (suc i) strings (emplace s (to_int32 i) index)

unfoldable pub dict_install : String → Int64 → List String → Store → Store
dict_install col_key population strings store =
    put col_key
      (record { population = population; strings = strings; index = index_from 0 strings [] }) store

-- -1 where there is no dictionary of the population.
unfoldable pub dict_card : String → Int64 → Store → Int64
dict_card col_key population store = elim (find col_key store) [
  | none ↦ 2 ^ 64 - 1
  | some e ↦ if e.population == population then length e.strings else 2 ^ 64 - 1
]
