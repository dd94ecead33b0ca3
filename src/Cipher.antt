-- ===== src/Cipher.antt =====
-- The encryption of buffers in src/cpp/coqbuffer.cpp, over the interface of elykseer-crypto.
pub mod Pieces
pub mod Laws
pub mod Loop
pub mod Seal
pub mod Open
pub mod Roundtrip
use elykseer_cpp.Base.{
  ℕ, zero, suc, ◌+◌, ◌-◌, min, Bool, true, false, ◌&&◌, ◌||◌, Option, none, some, List, take, ltb,
  if◌then◌else◌, Block, slice, blit, of_list, not,
}
use elykseer_cpp.Buffer.{EncryptionState, Buffer, plain, encrypted, tag_len, has_buffer}

-- The library elykseer-crypto, which is not part of the sources: keys as their bytes, the hash, the
-- hex form, and the two AES-GCM contexts. `none` is a call that reports failure; a processing call
-- that succeeds returns the bytes that replace its input.
pub record Crypto : Type 1 where
  pub sha3_256 : List ℕ → List ℕ
  pub to_hex : List ℕ → List ℕ
  pub from_hex : List ℕ → List ℕ
  pub datasz : ℕ
  pub Encryptor : Type 0
  pub enc_new : List ℕ → List ℕ → Encryptor
  pub enc_aad : List ℕ → Encryptor → Option Encryptor
  pub enc_process : List ℕ → Encryptor → Option (List ℕ × Encryptor)
  pub enc_finish : Encryptor → Option Encryptor
  pub enc_tag : Encryptor → Option (List ℕ)
  pub Decryptor : Type 0
  pub dec_new : List ℕ → List ℕ → Decryptor
  pub dec_aad : List ℕ → Decryptor → Option Decryptor
  pub dec_tag : List ℕ → Decryptor → Option Decryptor
  pub dec_process : List ℕ → Decryptor → Option (List ℕ × Decryptor)
  pub dec_finish : Decryptor → Option Decryptor

-- The first 96 bits of the ivec.
abbrev pub nonce_from_ivec : List ℕ → List ℕ
nonce_from_ivec iv = take 12 iv

-- The loop that both directions run over the first `dlen` bytes in place, `datasz` bytes at a time.
-- The fuel is one more than the rounds that are needed; without fuel it fails.
module _ {C : Type 0} (datasz : ℕ) (process : List ℕ → C → Option (List ℕ × C)) where
  unfoldable pub crypt_loop : ℕ → ℕ → ℕ → C → (ℕ → ℕ) → Option C × (ℕ → ℕ)
  crypt_loop zero dlen n c m = (none, m)
  crypt_loop (suc fuel) dlen n c m = elim (ltb n dlen) [
    | false ↦ (some c, m)
    | true ↦ elim (process (slice m n (min (dlen - n) datasz)) c) [
      | none ↦ (none, m)
      | some (out, c') ↦
          crypt_loop fuel dlen (n + min (dlen - n) datasz) c'
            (blit m n (of_list out) 0 (min (dlen - n) datasz))
    ]
  ]

-- `! _buffer || _len < tag_len`
unfoldable pub too_short : Block → Bool
too_short b = not (has_buffer b) || ltb b.len tag_len

-- make_shared<...>(this, std::move(_pimpl)) on success: the new buffer has the memory. On failure the
-- buffer keeps it.
unfoldable pub handed_over : {s t : EncryptionState} → Bool × Block → Option (Buffer t) × Buffer s
handed_over (true, p) = (some (record { pimpl = some p }), record { pimpl = none })
handed_over (false, p) = (none, record { pimpl = some p })

module _ (c : Crypto) where
  -- What follows the loop of encrypt_buffer: finish, and the tag behind the data.
  unfoldable pub write_tag : Block → Option (c.Encryptor) × (ℕ → ℕ) → Bool × Block
  write_tag b (none, m) = (false, record b { byte = m })
  write_tag b (some e, m) = elim (c.enc_finish e) [
    | none ↦ (false, record b { byte = m })
    | some e' ↦ elim (c.enc_tag e') [
      | none ↦ (false, record b { byte = m })
      | some t ↦ (true, record b { byte = blit m (b.len - tag_len) (of_list t) 0 tag_len })
    ]
  ]

  -- pimpl::encrypt_buffer: whether it succeeded, and the memory after it.
  unfoldable pub encrypt_buffer : List ℕ → List ℕ → List ℕ → Block → Bool × Block
  unfolding too_short write_tag
  encrypt_buffer iv pk aad b =
      if too_short b then (false, b) else elim (c.enc_aad aad (c.enc_new pk (nonce_from_ivec iv))) [
        | none ↦ (false, b)
        | some e ↦
            write_tag b (
              crypt_loop c.datasz c.enc_process (suc (b.len - tag_len)) (b.len - tag_len) 0 e
                b.byte)
      ]

  -- What follows the loop of decrypt_buffer: if the tag does not verify, all bytes are zeroed.
  unfoldable pub verify_tag : Block → Option (c.Decryptor) × (ℕ → ℕ) → Bool × Block
  verify_tag b (none, m) = (false, record b { byte = λ _. 0 })
  verify_tag b (some d, m) = elim (c.dec_finish d) [
    | none ↦ (false, record b { byte = λ _. 0 })
    | some _ ↦ (true, record b { byte = m })
  ]

  -- pimpl::decrypt_buffer
  unfoldable pub decrypt_buffer : List ℕ → List ℕ → List ℕ → Block → Bool × Block
  unfolding too_short verify_tag
  decrypt_buffer iv pk aad b =
      if too_short b then (false, b) else elim (c.dec_aad aad (c.dec_new pk (nonce_from_ivec iv))) [
        | none ↦ (false, b)
        | some d ↦ elim (c.dec_tag (slice b.byte (b.len - tag_len) tag_len) d) [
          | none ↦ (false, b)
          | some d' ↦ verify_tag b (
              crypt_loop c.datasz c.dec_process (suc (b.len - tag_len)) (b.len - tag_len) 0 d'
                b.byte)
        ]
      ]

  -- CoqBufferPlain::encrypt: the encrypted buffer takes the memory over, unless it failed.
  unfoldable pub encrypt :
      List ℕ → List ℕ → List ℕ → Buffer plain → Option (Buffer encrypted) × Buffer plain
  unfolding encrypt_buffer handed_over
  encrypt iv key aad b = elim b.pimpl [
    | none ↦ (none, b)
    | some p ↦ handed_over (encrypt_buffer iv key aad p)
  ]

  -- CoqBufferEncrypted::decrypt
  unfoldable pub decrypt :
      List ℕ → List ℕ → List ℕ → Buffer encrypted → Option (Buffer plain) × Buffer encrypted
  unfolding decrypt_buffer handed_over
  decrypt iv key aad b = elim b.pimpl [
    | none ↦ (none, b)
    | some p ↦ handed_over (decrypt_buffer iv key aad p)
  ]
