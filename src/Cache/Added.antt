-- ===== src/Cache/Added.antt =====
-- The loops of run_write_request that add what backup gave to the stores.
use elykseer_cpp.Base.{◌≡◌, refl, subst, some, List, [], ◌∷◌, ℕ, inl, inr, ◌⊎◌, Option-cases}
use elykseer_cpp.Assembly.{BlockInformation, KeyInformation}
use elykseer_cpp.Environment.{AidKey}
use elykseer_cpp.Store.{Key, KeyStore, FBlockStore, find, add_key, add_block}
use elykseer_cpp.Store.Entries.{Keeps, add_key-Keeps, add_key-new}
use elykseer_cpp.Cache.Write.{add_blocks, add_keys}

-- A key that was added is there, or the aid has the key that it had.
abbrev pub IsStoredKey : KeyStore → KeyStore → List ℕ → KeyInformation → Type 0
IsStoredKey ks ks' aid ki =
    (find ks' aid ≡ some ki)
    ⊎ ((had : KeyInformation) × (find ks aid ≡ some had) × (find ks' aid ≡ some had))

add_key-IsStoredKey :
    (ks : KeyStore) (aid : List ℕ) (ki : KeyInformation)
    → IsStoredKey ks (add_key ks aid ki).1 aid ki
add_key-IsStoredKey ks aid ki = elim (Option-cases (find ks aid)) [
  | inl n ↦ inl (add_key-new ks aid ki n)
  | inr (had, h) ↦ inr (had, h, (add_key-Keeps ks aid ki).0 aid had h)
]

pub add_keys-Keeps :
    (ks : KeyStore) (kis : List AidKey)
    → (ks' : KeyStore) × (add_keys (some ks) kis ≡ some (some ks')) × Keeps ks ks'
unfolding add_keys
add_keys-Keeps ks [] = (ks, refl, (λ k v h. h))
add_keys-Keeps ks ((aid, ki) ∷ kis) =
    let (ks', e, keeps) = add_keys-Keeps (add_key ks aid ki).1 kis in
    (ks', e, (λ k v h. keeps k v ((add_key-Keeps ks aid ki).0 k v h)))

pub add_keys-one :
    (ks ks' : KeyStore) (kis : List AidKey) (aid : List ℕ) (ki : KeyInformation)
    → add_keys (some ks) kis ≡ some (some ks')
    → kis ≡ (aid, ki) ∷ []
    → IsStoredKey ks ks' aid ki
unfolding add_keys
add_keys-one ks ks' kis aid ki h one =
    let same : (add_key ks aid ki).1 ≡ ks' = cc (rw (one, add_keys) at h) in
    subst (λ (x : KeyStore). IsStoredKey ks x aid ki) same (add_key-IsStoredKey ks aid ki)

pub found :
    (ks ks' : KeyStore) (aid : List ℕ) (ki : KeyInformation)
    → IsStoredKey ks ks' aid ki
    → (x : KeyInformation) × (find ks' aid ≡ some x)
found ks ks' aid ki (inl h) = (ki, h)
found ks ks' aid ki (inr (had, _, h)) = (had, h)

pub add_blocks-one :
    (bs : FBlockStore) (k : Key) (bi : BlockInformation)
    → add_blocks (some bs) ((k, bi) ∷ []) ≡ some (some (add_block bs k bi).1)
unfolding add_blocks
add_blocks-one bs k bi = refl
