-- ===== src/Cipher/Roundtrip.antt =====
-- Encryption and decryption of a buffer together: the round trip, the authenticity of what is
-- decrypted, and the memory after a failure.
use elykseer_cpp.Base.{
  ℕ, suc, ◌-◌, ◌≤◌, ◌<◌, ◌≡◌, sym, ◌∙◌, ap, ◌⊎◌, inl, inr, true, false, Option, none, some, List,
  arith, slice, Block, length-slice, slice-cong, Option-cases, Bool-cases,
}
use elykseer_cpp.Buffer.{tag_len}
use elykseer_cpp.Cipher.{
  Crypto, nonce_from_ivec, too_short, verify_tag, encrypt_buffer, decrypt_buffer,
}
use elykseer_cpp.Cipher.Pieces.{pieces-injective, pieces-cong}
use elykseer_cpp.Cipher.Laws.{seal, unseal, IsGcm}
use elykseer_cpp.Cipher.Seal.{data_pieces, tag_of, encrypt_buffer-seal}
use elykseer_cpp.Cipher.Open.{OpenCases, decrypt_buffer-unseal}

module _ (c : Crypto) (gcm : IsGcm c) (iv pk aad : List ℕ) where
  -- Buffers of one length with the same pieces agree up to the tag.
  same_data :
      (b b' : Block)
      → b'.len ≡ b.len
      → data_pieces c b ≡ data_pieces c b'
      → (i : ℕ) → i < b.len - tag_len
      → b'.byte i ≡ b.byte i
  same_data b b' l e i h = sym (
      pieces-injective c.datasz (suc (b.len - tag_len)) (b.len - tag_len) 0 b.byte b'.byte
        gcm.datasz_pos (omega arith) (rw l at e) i (omega arith) h)

  reopened :
      (b b' : Block)
      → (seal c pk (nonce_from_ivec iv) aad (data_pieces c b)
          ≡ some (data_pieces c b', tag_of c b'))
      → b'.len ≡ b.len
      → OpenCases c pk (nonce_from_ivec iv) aad b' (decrypt_buffer c iv pk aad b')
      → ((decrypt_buffer c iv pk aad b').0 ≡ true)
        × ((decrypt_buffer c iv pk aad b').1.len ≡ b.len)
        × ((i : ℕ) → i < b.len - tag_len → (decrypt_buffer c iv pk aad b').1.byte i ≡ b.byte i)
  reopened b b' s l (inl (closed, _)) =
      let o = gcm.opens pk (nonce_from_ivec iv) aad _ _ _ s in absurd (cc)
  reopened b b' s l (inr (done, o', l')) =
      let o = gcm.opens pk (nonce_from_ivec iv) aad _ _ _ s in
      (done, l' ∙ l, same_data b (decrypt_buffer c iv pk aad b').1 (l' ∙ l) (cc))

  -- The pieces and the tag of a copy are those of the buffer.
  copied :
      (b m : Block)
      → m.len ≡ b.len
      → tag_len ≤ b.len
      → ((i : ℕ) → i < b.len → m.byte i ≡ b.byte i)
      → (data_pieces c m ≡ data_pieces c b) × (tag_of c m ≡ tag_of c b)
  copied b m l le same = (
    rw l (
        pieces-cong c.datasz (suc (b.len - tag_len)) (b.len - tag_len) 0 m.byte b.byte
          (λ i lo hi. same i (omega arith))),
    rw l (slice-cong m.byte b.byte (b.len - tag_len) tag_len (λ i lo hi. same i (omega arith))),
  )

  -- Under the laws of AES-GCM: if a buffer was encrypted, then a copy of the result is decrypted,
  -- under the same ivec, key and additional data, to a buffer of the same length with the same
  -- bytes before the tag.
  pub decrypt_buffer-encrypt_buffer :
      (b b' m : Block)
      → encrypt_buffer c iv pk aad b ≡ (true, b')
      → m.len ≡ b'.len
      → ((i : ℕ) → i < b'.len → m.byte i ≡ b'.byte i)
      → ((decrypt_buffer c iv pk aad m).0 ≡ true)
        × ((decrypt_buffer c iv pk aad m).1.len ≡ b.len)
        × ((i : ℕ) → i < b.len - tag_len → (decrypt_buffer c iv pk aad m).1.byte i ≡ b.byte i)
  decrypt_buffer-encrypt_buffer b b' m h lm same =
      let (s, l, le) = encrypt_buffer-seal c gcm iv pk aad b b' h in
      let (d, t) = copied b' m lm (omega arith) same in
      reopened b m (rw (d, t) s) (lm ∙ l) (decrypt_buffer-unseal c iv pk aad m (omega arith) gcm)

  unsealed :
      (b b' : Block)
      → decrypt_buffer c iv pk aad b ≡ (true, b')
      → OpenCases c pk (nonce_from_ivec iv) aad b (decrypt_buffer c iv pk aad b)
      → (unseal c pk (nonce_from_ivec iv) aad (tag_of c b) (data_pieces c b)
          ≡ some (data_pieces c b'))
        × (b'.len ≡ b.len)
  unsealed b b' h (inl (_, failed)) = absurd (cc)
  unsealed b b' h (inr (_, o, l)) = (rw h at o, rw h at l)

  -- Under the laws of AES-GCM: if a buffer that can hold a tag decrypts, then sealing the decrypted
  -- data under the same key, ivec and additional data gives back the encrypted data and the tag
  -- that the buffer held, and the length is kept.
  pub decrypt_buffer-authentic :
      (b b' : Block)
      → tag_len ≤ b.len
      → decrypt_buffer c iv pk aad b ≡ (true, b')
      → (seal c pk (nonce_from_ivec iv) aad (data_pieces c b') ≡ some (data_pieces c b, tag_of c b))
        × (b'.len ≡ b.len)
  decrypt_buffer-authentic b b' le h =
      let (o, l) = unsealed b b' h (decrypt_buffer-unseal c iv pk aad b le gcm) in
      (
        gcm.authentic pk (nonce_from_ivec iv) aad _ _ _ (length-slice b.byte (b.len - tag_len) 16)
            o,
        l,
      )

module _ (c : Crypto) where
  verify_tag-false :
      (b b' : Block) (r : Option (c.Decryptor) × (ℕ → ℕ))
      → verify_tag c b r ≡ (false, b')
      → b' ≡ record b { byte = λ _. 0 }
  unfolding verify_tag
  verify_tag-false b b' (none, m) h = ap (λ q. q.1) (sym h)
  verify_tag-false b b' (some d, m) h = elim (Option-cases (c.dec_finish d)) [
    | inl e ↦ ap (λ q. q.1) (sym (rw (e, verify_tag) at h))
    | inr (d', e) ↦ absurd (ground arith)
  ]

  -- A decryption that fails leaves no plaintext: the buffer is as it was before the first byte was
  -- processed, or all of it is zero.
  pub decrypt_buffer-discards :
      (iv pk aad : List ℕ) (b b' : Block)
      → decrypt_buffer c iv pk aad b ≡ (false, b')
      → (b' ≡ b) ⊎ (b' ≡ record b { byte = λ _. 0 })
  unfolding decrypt_buffer
  decrypt_buffer-discards iv pk aad b b' h = elim (Bool-cases (too_short b)) [
    | inl short ↦ inl (ap (λ q. q.1) (sym (rw (short, decrypt_buffer) at h)))
    | inr long ↦ elim (Option-cases (c.dec_aad aad (c.dec_new pk (nonce_from_ivec iv)))) [
      | inl e ↦ inl (ap (λ q. q.1) (sym (rw e at (rw (long, decrypt_buffer) at h))))
      | inr (d, e) ↦ elim (Option-cases (c.dec_tag (slice b.byte (b.len - tag_len) tag_len) d)) [
        | inl t ↦ inl (ap (λ q. q.1) (sym (rw t at (rw e at (rw (long, decrypt_buffer) at h)))))
        | inr (d', t) ↦
            inr (verify_tag-false b b' _ (rw t at (rw e at (rw (long, decrypt_buffer) at h))))
      ]
    ]
  ]
