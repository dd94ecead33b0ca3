-- ===== src/Cipher/Laws.antt =====
-- What the code relies on in AES-GCM: a context processes pieces of any length, keeps each piece's
-- length, gives a tag of 16 bytes, and the tag verifies for exactly the text that was sealed.
use elykseer_cpp.Base.{ℕ, ◌<◌, ◌≡◌, Option, none, some, List, length}
use elykseer_cpp.Cipher.{Crypto}
use elykseer_cpp.Cipher.Pieces.{run_pieces}

module _ (c : Crypto) where
  infixl 5 ◌>>=◌
  abbrev ◌>>=◌ {ℓ κ} : {A : Type ℓ} {B : Type κ} → Option A → (A → Option B) → Option B
  ◌>>=◌ m f = elim m [ none ↦ none | some a ↦ f a ]

  -- The calls that seal a list of pieces: the pieces that come out, and the tag.
  abbrev pub seal : List ℕ → List ℕ → List ℕ → List (List ℕ) → Option (List (List ℕ) × List ℕ)
  seal key nonce aad ps = do
    e ← c.enc_aad aad (c.enc_new key nonce)
    (cs, e') ← run_pieces c.enc_process ps e
    e'' ← c.enc_finish e'
    t ← c.enc_tag e''
    some (cs, t)

  -- The calls that open them again, with the tag given first.
  abbrev pub unseal : List ℕ → List ℕ → List ℕ → List ℕ → List (List ℕ) → Option (List (List ℕ))
  unseal key nonce aad t cs = do
    d ← c.dec_aad aad (c.dec_new key nonce)
    d' ← c.dec_tag t d
    (ps, d'') ← run_pieces c.dec_process cs d'
    _ ← c.dec_finish d''
    some ps

  pub record IsGcm : Type 0 where
    pub datasz_pos : 0 < c.datasz
    pub enc_length :
        (p : List ℕ) (e : c.Encryptor) (o : List ℕ) (e' : c.Encryptor)
        → c.enc_process p e ≡ some (o, e')
        → length o ≡ length p
    pub dec_length :
        (p : List ℕ) (d : c.Decryptor) (o : List ℕ) (d' : c.Decryptor)
        → c.dec_process p d ≡ some (o, d')
        → length o ≡ length p
    pub tag_length : (e : c.Encryptor) (t : List ℕ) → c.enc_tag e ≡ some t → length t ≡ 16
    -- what was sealed opens under the same key, nonce, data and tag
    pub opens :
        (key nonce aad : List ℕ) (ps cs : List (List ℕ)) (t : List ℕ)
        → seal key nonce aad ps ≡ some (cs, t)
        → unseal key nonce aad t cs ≡ some ps
    -- and nothing else opens: a text that verifies is one that was sealed
    pub authentic :
        (key nonce aad : List ℕ) (ps cs : List (List ℕ)) (t : List ℕ)
        → length t ≡ 16
        → unseal key nonce aad t cs ≡ some ps
        → seal key nonce aad ps ≡ some (cs, t)
