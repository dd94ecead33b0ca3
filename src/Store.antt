-- ===== src/Store.antt =====
-- src/cpp/coqstore.ixx and coqstore.cpp: the stores of keys, file blocks and file information. The
-- order of the entries stands for the order in which the hash map enumerates them.
pub mod Entries
pub mod Blocks
pub mod Escape
pub mod Documents
pub mod Hashes
pub mod Reading
pub mod Append
pub mod Xml
pub mod KeyNodes
pub mod Keys
pub mod FileNodes
pub mod FileBlocks
pub mod FilesDocument
use elykseer_cpp.Base.{
  ℕ, zero, suc, ◌+◌, ◌*◌, ◌/◌, Bool, true, false, ◌&&◌, ◌||◌, Option, none, some, List, [], ◌∷◌,
  ◌++◌, leb, ◌==◌, if◌then◌else◌, str_eq, length, ℤ, pos, negsuc, codes,
}
use elykseer_cpp.Assembly.{BlockInformation, KeyInformation}

abbrev pub Key : Type 0
Key = List ℕ

-- CoqStore<V, std::string>
pub record Store (V : Type 0) : Type 0 where
  pub entries : List (Key × V)

module _ {V : Type 0} where
  unfoldable pub find_in : Key → List (Key × V) → Option V
  find_in k [] = none
  find_in k ((k', v) ∷ es) = if str_eq k k' then some v else find_in k es

  unfoldable pub find : Store V → Key → Option V
  unfolding find_in
  find s k = find_in k s.entries

  unfoldable pub contains_in : Key → List (Key × V) → Bool
  contains_in k [] = false
  contains_in k ((k', v) ∷ es) = str_eq k k' || contains_in k es

  unfoldable pub contains : Store V → Key → Bool
  unfolding contains_in
  contains s k = contains_in k s.entries

  -- `_entries[k] = v`
  unfoldable pub assign : Key → V → List (Key × V) → List (Key × V)
  assign k v [] = (k, v) ∷ []
  assign k v ((k', v') ∷ es) = if str_eq k k' then (k', v) ∷ es else (k', v') ∷ assign k v es

  unfoldable pub add : Store V → Key → V → Bool × Store V
  unfolding assign
  add s k v = (true, record { entries = assign k v s.entries })

  -- The loop of `at`, with `idx - i` rounds to skip.
  unfoldable pub entry_at : List (Key × V) → ℕ → Option (Key × V)
  entry_at [] i = none
  entry_at (e ∷ es) zero = some e
  entry_at (e ∷ es) (suc i) = entry_at es i

  -- A negative index is above every size as an unsigned number.
  unfoldable pub at : Store V → ℤ → Option (Key × V)
  unfolding entry_at
  at s (pos i) = if leb (length s.entries) i then none else entry_at s.entries i
  at s (negsuc i) = none

  unfoldable pub size : Store V → ℕ
  size s = length s.entries

  unfoldable pub list : Store V → List (Key × V)
  list s = s.entries

  -- The state that the function changes is passed on.
  unfoldable pub iterate_entries : {S : Type 0} → (Key × V → S → S) → List (Key × V) → S → S
  iterate_entries f [] st = st
  iterate_entries f (e ∷ es) st = iterate_entries f es (f e st)

  unfoldable pub iterate : {S : Type 0} → Store V → (Key × V → S → S) → S → S
  unfolding iterate_entries
  iterate s f st = iterate_entries f s.entries st

  unfoldable pub reset : Store V → Store V
  reset s = record { entries = [] }

abbrev pub KeyStore : Type 0
KeyStore = Store KeyInformation

-- CoqKeyStore::add
unfoldable pub add_key : KeyStore → Key → KeyInformation → Bool × KeyStore
add_key s k v = if contains s k then (false, s) else add s k v

-- The vectors behind the shared pointers.
abbrev pub FBlockStore : Type 0
FBlockStore = Store (List BlockInformation)

-- CoqFBlockStore::add
unfoldable pub add_block : FBlockStore → Key → BlockInformation → Bool × FBlockStore
unfolding assign
add_block s k v = elim (find s k) [
  | some bis ↦ (
    true,
    record { entries = assign k (bis ++ record v { blockid = length bis + 1 } ∷ []) s.entries },
  )
  | none ↦ add s k (record v { blockid = 1 } ∷ [])
]

-- CoqFilesupport::FileInformation
pub record FileInformation : Type 0 where
  pub fname : List ℕ
  pub fhash : List ℕ
  pub fsize : ℕ
  pub fowner : List ℕ
  pub fpermissions : ℕ
  pub fmodified : List ℕ
  pub fchecksum : List ℕ

abbrev pub FInfoStore : Type 0
FInfoStore = Store FileInformation

-- CoqFInfoStore::add
unfoldable pub add_info : FInfoStore → Key → FileInformation → Bool × FInfoStore
unfolding add
add_info s k v = add s k v

-- xml_escape, for one character and for a text.
unfoldable pub escape_char : ℕ → List ℕ
escape_char c =
    if c == 38
    then codes "&amp;"
    else if c == 60
    then codes "&lt;"
    else if c == 62
    then codes "&gt;"
    else if c == 34
    then codes "&quot;"
    else if c == 39
    then codes "&apos;"
    else c ∷ []

unfoldable pub xml_escape : List ℕ → List ℕ
unfolding escape_char
xml_escape [] = []
xml_escape (c ∷ s) = escape_char c ++ xml_escape s

-- The digits that from_hex accepts.
abbrev pub is_hex_digit : ℕ → Bool
is_hex_digit c = leb 48 c && leb c 57 || leb 97 c && leb c 102

unfoldable pub all_hex : List ℕ → Bool
all_hex [] = true
all_hex (c ∷ s) = is_hex_digit c && all_hex s

-- from_hex for a key of `bits` bits, over the library's conversion; `none` is `false`.
unfoldable pub from_hex : (List ℕ → List ℕ) → ℕ → List ℕ → Option (List ℕ)
unfolding all_hex
from_hex fromHex bits h =
    if length h == bits / 4 then if all_hex h then some (fromHex h) else none else none
