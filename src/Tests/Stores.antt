-- ===== src/Tests/Stores.antt =====
-- The theorems on the stores, at small inputs.
use elykseer_cpp.Base.{
  ◌||◌, ◌≡◌, refl, true, false, none, some, List, [], ◌∷◌, ◌++◌, ℕ, ◌⊎◌, arith, str_eq,
  if◌then◌else◌,
}
use elykseer_cpp.Assembly.{KeyInformation, no_block, format_version}
use elykseer_cpp.Store.{
  FInfoStore, FileInformation, Store, find, find_in, contains, contains_in, add, KeyStore,
  FBlockStore, add_key, add_block, xml_escape,
}
use elykseer_cpp.Store.Entries.{find-add, IsDistinct, Keeps, add_key-Keeps}
use elykseer_cpp.Store.Blocks.{blocks_of, IsNumbered, numbered, add_block-IsNumbered}
use elykseer_cpp.Store.Documents.{document_hashes}
use elykseer_cpp.Store.Hashes.{times, count_of, document_hashes-once}
use elykseer_cpp.Store.Escape.{unescape, unescape-xml_escape}

abbrev numbers : Store ℕ
numbers = record { entries = (1 ∷ [], 10) ∷ (2 ∷ [], 20) ∷ [] }

find-add_example :
    find (add numbers (2 ∷ []) 30).1 (1 ∷ [])
    ≡ (if str_eq (1 ∷ []) (2 ∷ []) then some 30 else find numbers (1 ∷ []))
find-add_example = find-add numbers (2 ∷ []) (1 ∷ []) 30

numbers-IsDistinct : IsDistinct numbers
unfolding contains_in str_eq
numbers-IsDistinct = (refl, (refl, tt))

abbrev some_key : KeyInformation
some_key = record { ivec = 1 ∷ []; pkey = 2 ∷ []; localnchunks = 16; version = format_version }

abbrev one_key : KeyStore
one_key = record { entries = (5 ∷ [], some_key) ∷ [] }

add_key-Keeps_example :
    Keeps one_key (add_key one_key (6 ∷ []) some_key).1
    × (((contains one_key (6 ∷ []) ≡ true) × (add_key one_key (6 ∷ []) some_key ≡ (false, one_key)))
        ⊎ ((find one_key (6 ∷ []) ≡ none)
            × ((add_key one_key (6 ∷ []) some_key).0 ≡ true)
            × (find (add_key one_key (6 ∷ []) some_key).1 (6 ∷ []) ≡ some some_key)))
add_key-Keeps_example = add_key-Keeps one_key (6 ∷ []) some_key

abbrev no_blocks : FBlockStore
no_blocks = record { entries = [] }

none-IsNumbered : (k : List ℕ) → IsNumbered 1 (blocks_of no_blocks k)
unfolding find find_in
none-IsNumbered k = tt

add_block-IsNumbered_example :
    (blocks_of (add_block no_blocks (5 ∷ []) no_block).1 (5 ∷ [])
      ≡ blocks_of no_blocks (5 ∷ []) ++ numbered no_blocks (5 ∷ []) no_block ∷ [])
    × ((k : List ℕ)
        → str_eq k (5 ∷ []) ≡ false
        → find (add_block no_blocks (5 ∷ []) no_block).1 k ≡ find no_blocks k)
    × ((k : List ℕ) → IsNumbered 1 (blocks_of (add_block no_blocks (5 ∷ []) no_block).1 k))
add_block-IsNumbered_example = add_block-IsNumbered no_blocks (5 ∷ []) no_block none-IsNumbered

unescape-xml_escape_example : unescape 4 (xml_escape (60 ∷ 97 ∷ 38 ∷ [])) ≡ some (60 ∷ 97 ∷ 38 ∷ [])
unescape-xml_escape_example = unescape-xml_escape (60 ∷ 97 ∷ 38 ∷ []) 4 (omega arith)

abbrev file_information : FileInformation
file_information = record {
  fname = 97 ∷ [];
  fhash = 5 ∷ [];
  fsize = 3;
  fowner = [];
  fpermissions = 0;
  fmodified = [];
  fchecksum = [];
}

-- A file with blocks and information, and another with information only.
abbrev some_blocks : FBlockStore
some_blocks = record { entries = (5 ∷ [], []) ∷ [] }

abbrev some_infos : FInfoStore
some_infos = record { entries = (5 ∷ [], file_information) ∷ (6 ∷ [], file_information) ∷ [] }

some_blocks-IsDistinct : IsDistinct some_blocks
unfolding contains_in
some_blocks-IsDistinct = (refl, tt)

some_infos-IsDistinct : IsDistinct some_infos
unfolding contains_in str_eq
some_infos-IsDistinct = (refl, (refl, tt))

document_hashes-once_example :
    times (5 ∷ []) (document_hashes (some some_infos) (some some_blocks))
    ≡ count_of (contains some_blocks (5 ∷ []) || contains some_infos (5 ∷ []))
document_hashes-once_example =
    document_hashes-once some_infos some_blocks (5 ∷ []) some_infos-IsDistinct
      some_blocks-IsDistinct
