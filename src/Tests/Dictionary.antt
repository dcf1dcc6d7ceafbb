-- ===== src/Tests/Dictionary.antt =====
-- A dictionary of the column "t.c" that holds one string of population 3.
use Prim.Native.String.{String}
use duckdb_mlx.Common.{ℕ, ◌≡◌, [], ◌∷◌, some, arith, get_elem?, ◌⊎◌}
use mathlib.Core.Option.{none-ne-some}
use duckdb_mlx.Common.Int64.{Int64}
use duckdb_mlx.Dict.{Store, no_code, dict_encode, dict_strings, dict_install, dict_card}
use duckdb_mlx.Dict.RoundTrip.{IsStore, dict_encode-roundtrip}
use duckdb_mlx.Dict.Install.{dict_install-roundtrip}

no_dictionaries : IsStore []
no_dictionaries col e h = absurd (none-ne-some _ h)

abbrev one_string : Store
one_string = dict_install "t.c" 3 ("north" ∷ []) []

dict_install-roundtrip_example :
    IsStore one_string
    × (dict_strings "t.c" 3 one_string ≡ "north" ∷ [])
    × (dict_card "t.c" 3 one_string ≡ 1)
    × ((value : String) (i : ℕ) (max_card : Int64)
        → get_elem? ("north" ∷ []) i ≡ some value
        → (get_elem? ("north" ∷ []) (dict_encode "t.c" 3 value max_card one_string).0 ≡ some value)
          × (dict_strings "t.c" 3 (dict_encode "t.c" 3 value max_card one_string).1 ≡ "north" ∷ []))
dict_install-roundtrip_example =
    dict_install-roundtrip [] "t.c" 3 ("north" ∷ []) no_dictionaries (omega arith)

one_string-IsStore : IsStore one_string
one_string-IsStore =
    (dict_install-roundtrip [] "t.c" 3 ("north" ∷ []) no_dictionaries (omega arith)).0

abbrev two_strings : ℕ × Store
two_strings = dict_encode "t.c" 3 "south" 256 one_string

dict_encode-roundtrip_example :
    IsStore two_strings.1
    × ((two_strings.0 ≡ no_code)
        ⊎ ((get_elem? (dict_strings "t.c" 3 two_strings.1) two_strings.0 ≡ some "south")
            × ((dict_encode "t.c" 3 "south" 1 two_strings.1).0 ≡ two_strings.0)))
    × ((s : String) (i : ℕ)
        → get_elem? (dict_strings "t.c" 3 one_string) i ≡ some s
        → get_elem? (dict_strings "t.c" 3 two_strings.1) i ≡ some s)
dict_encode-roundtrip_example =
    dict_encode-roundtrip one_string "t.c" 3 "south" 256 1 one_string-IsStore (omega arith)
