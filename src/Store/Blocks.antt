-- ===== src/Store/Blocks.antt =====
-- The blocks of a file in a CoqFBlockStore, and CoqFBlockStore::add.
use mathlib.Core.List.{append-nil}
use elykseer_cpp.Base.{
  ◌≡◌, refl, sym, ap, false, Option, none, some, List, [], ◌∷◌, ◌++◌, ℕ, ◌+◌, arith, str_eq,
  str_eq_refl, str_eq→eq, Bool-cases, Option-cases, inl, inr, length, if◌then◌else◌,
}
use elykseer_cpp.Assembly.{BlockInformation}
use elykseer_cpp.Store.{Key, find, add, FBlockStore, add_block}
use elykseer_cpp.Store.Entries.{find-add}

abbrev blocks_or : Option (List BlockInformation) → List BlockInformation
blocks_or none = []
blocks_or (some bis) = bis

-- The blocks of a file, none for one that is not in the store.
abbrev pub blocks_of : FBlockStore → Key → List BlockInformation
blocks_of s k = blocks_or (find s k)

-- The block ids n, n + 1, ...
abbrev pub IsNumbered : ℕ → List BlockInformation → Type 0
IsNumbered n [] = Unit {0}
IsNumbered n (bi ∷ bis) = (bi.blockid ≡ n) × IsNumbered (n + 1) bis

IsNumbered-append :
    (n : ℕ) (bis : List BlockInformation) (v : BlockInformation)
    → IsNumbered n bis
    → v.blockid ≡ length bis + n
    → IsNumbered n (bis ++ v ∷ [])
IsNumbered-append n [] v d e = (omega arith, tt)
IsNumbered-append n (bi ∷ bis) v (b, d) e = (b, IsNumbered-append (n + 1) bis v d (omega arith))

abbrev pub numbered : FBlockStore → Key → BlockInformation → BlockInformation
numbered s k v = record v { blockid = length (blocks_of s k) + 1 }

find-add_block :
    (s : FBlockStore) (k k' : Key) (v : BlockInformation)
    → find (add_block s k v).1 k'
      ≡ (if str_eq k' k then some (blocks_of s k ++ numbered s k v ∷ []) else find s k')
unfolding add_block add
find-add_block s k k' v = elim (Option-cases (find s k)) [
  | inl n ↦ rw (n, add_block) (find-add s k k' _)
  | inr (bis, n) ↦ rw (n, add_block) (find-add s k k' _)
]

pub blocks_of-add_block :
    (s : FBlockStore) (k k' : Key) (v : BlockInformation)
    → blocks_of (add_block s k v).1 k'
      ≡ blocks_of s k' ++ (if str_eq k' k then numbered s k v ∷ [] else [])
blocks_of-add_block s k k' v = elim (Bool-cases (str_eq k' k)) [
  | inl e ↦
      rw (find-add_block s k k' v, e)
        (ap (λ x. blocks_of s x ++ numbered s k v ∷ []) (sym (str_eq→eq k' k e)))
  | inr e ↦ rw (find-add_block s k k' v, e) (sym (append-nil (blocks_of s k')))
]

-- If the blocks of every file are numbered from 1, then add appends the block to its file's blocks
-- with the next number, changes no other file's, and the blocks of every file are numbered from 1
-- again.
pub add_block-IsNumbered :
    (s : FBlockStore) (k : Key) (v : BlockInformation)
    → ((k' : Key) → IsNumbered 1 (blocks_of s k'))
    → (blocks_of (add_block s k v).1 k ≡ blocks_of s k ++ numbered s k v ∷ [])
      × ((k' : Key) → str_eq k' k ≡ false → find (add_block s k v).1 k' ≡ find s k')
      × ((k' : Key) → IsNumbered 1 (blocks_of (add_block s k v).1 k'))
add_block-IsNumbered s k v ok = (
  rw (find-add_block s k k v, str_eq_refl k) refl,
  (λ k' d. rw (find-add_block s k k' v, d) refl),
  (λ k'. elim (Bool-cases (str_eq k' k)) [
    | inl e ↦
        rw (find-add_block s k k' v, e)
          (IsNumbered-append 1 (blocks_of s k) (numbered s k v) (ok k) refl)
    | inr e ↦ rw (find-add_block s k k' v, e) (ok k')
  ]),
)
