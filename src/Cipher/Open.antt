-- ===== src/Cipher/Open.antt =====
-- decrypt_buffer against opening the pieces of the data, and what it leaves when it fails.
use elykseer_cpp.Base.{
  ℕ, suc, ◌-◌, ◌≤◌, ◌≡◌, refl, sym, ap, ◌⊎◌, inl, inr, Bool, true, false, Option, none, some, List,
  arith, Option-cases, Block,
}
use elykseer_cpp.Buffer.{tag_len}
use elykseer_cpp.Cipher.{Crypto, crypt_loop, nonce_from_ivec, too_short, verify_tag, decrypt_buffer}
use elykseer_cpp.Cipher.Laws.{unseal, IsGcm}
use elykseer_cpp.Cipher.Loop.{LoopAgrees, crypt_loop-run}
use elykseer_cpp.Cipher.Seal.{data_pieces, tag_of}

module _ (c : Crypto) where
  abbrev dec_loop : Block → c.Decryptor → Option (c.Decryptor) × (ℕ → ℕ)
  dec_loop b d =
      crypt_loop c.datasz c.dec_process (suc (b.len - tag_len)) (b.len - tag_len) 0 d b.byte

  -- Decryption opens the data, or it fails and they do not open.
  abbrev pub OpenCases : List ℕ → List ℕ → List ℕ → Block → Bool × Block → Type 0
  OpenCases pk nonce aad b r =
      ((unseal c pk nonce aad (tag_of c b) (data_pieces c b) ≡ none) × (r.0 ≡ false))
      ⊎ ((r.0 ≡ true)
          × (unseal c pk nonce aad (tag_of c b) (data_pieces c b) ≡ some (data_pieces c r.1))
          × (r.1.len ≡ b.len))

  abbrev zeroed : Block → Block
  zeroed b = record b { byte = λ _. 0 }

  verify_tag-none :
      (b : Block) (r : Option (c.Decryptor) × (ℕ → ℕ))
      → r.0 ≡ none
      → verify_tag c b r ≡ (false, zeroed b)
  unfolding verify_tag
  verify_tag-none b (none, m) h = refl
  verify_tag-none b (some d, m) h = absurd (cc)

  verify_tag-bad :
      (b : Block) (r : Option (c.Decryptor) × (ℕ → ℕ)) (d : c.Decryptor)
      → r.0 ≡ some d
      → c.dec_finish d ≡ none
      → verify_tag c b r ≡ (false, zeroed b)
  unfolding verify_tag
  verify_tag-bad b (none, m) d h e = absurd (cc)
  verify_tag-bad b (some d', m) d h e = let same : d' ≡ d = cc in rw same (rw (e, verify_tag) refl)

  verify_tag-good :
      (b : Block) (r : Option (c.Decryptor) × (ℕ → ℕ)) (d d' : c.Decryptor)
      → r.0 ≡ some d
      → c.dec_finish d ≡ some d'
      → verify_tag c b r ≡ (true, record b { byte = r.1 })
  unfolding verify_tag
  verify_tag-good b (none, m) d d' h e = absurd (cc)
  verify_tag-good b (some d0, m) d d' h e =
      let same : d0 ≡ d = cc in rw same (rw (e, verify_tag) refl)

  opened :
      (gcm : IsGcm c) (pk nonce aad : List ℕ) (b : Block) (d d' : c.Decryptor)
      → c.dec_aad aad (c.dec_new pk nonce) ≡ some d
      → c.dec_tag (tag_of c b) d ≡ some d'
      → LoopAgrees c.datasz c.dec_process gcm.dec_length
          (b.len - tag_len)
          (suc (b.len - tag_len))
          0
          d'
          b.byte
      → OpenCases pk nonce aad b (verify_tag c b (dec_loop b d'))
  opened gcm pk nonce aad b d d' e0 e1 (inl (ran, looped)) =
      inl (rw (e0, e1, ran) refl, rw (verify_tag-none b (dec_loop b d') looped) refl)
  opened gcm pk nonce aad b d d' e0 e1 (inr (os, d'', ran, looped, cut, below, above)) =
      elim (Option-cases (c.dec_finish d'')) [
        | inl e2 ↦
            inl
              (rw (e0, e1, ran, e2) refl, rw (verify_tag-bad b (dec_loop b d') d'' looped e2) refl)
        | inr (d3, e2) ↦
            let good = verify_tag-good b (dec_loop b d') d'' d3 looped e2 in
            inr (rw good refl, rw good (rw (e0, e1, ran, e2) (ap some (sym cut))), rw good refl)
      ]

  too_short-le : (b : Block) → tag_len ≤ b.len → too_short b ≡ false
  unfolding too_short
  too_short-le b h = ground arith

  module _ (iv pk aad : List ℕ) (b : Block) (le : tag_len ≤ b.len) where
    decrypt_buffer-aad :
        c.dec_aad aad (c.dec_new pk (nonce_from_ivec iv)) ≡ none
        → decrypt_buffer c iv pk aad b ≡ (false, b)
    unfolding decrypt_buffer
    decrypt_buffer-aad e0 = rw (too_short-le b le, decrypt_buffer) (rw e0 refl)

    decrypt_buffer-tag :
        (d : c.Decryptor)
        → c.dec_aad aad (c.dec_new pk (nonce_from_ivec iv)) ≡ some d
        → c.dec_tag (tag_of c b) d ≡ none
        → decrypt_buffer c iv pk aad b ≡ (false, b)
    unfolding decrypt_buffer
    decrypt_buffer-tag d e0 e1 = rw (too_short-le b le, decrypt_buffer) (rw (e0, e1) refl)

    decrypt_buffer-loop :
        (d d' : c.Decryptor)
        → c.dec_aad aad (c.dec_new pk (nonce_from_ivec iv)) ≡ some d
        → c.dec_tag (tag_of c b) d ≡ some d'
        → decrypt_buffer c iv pk aad b ≡ verify_tag c b (dec_loop b d')
    unfolding decrypt_buffer
    decrypt_buffer-loop d d' e0 e1 = rw (too_short-le b le, decrypt_buffer) (rw (e0, e1) refl)

    -- On a buffer that holds a tag, decrypt_buffer succeeds exactly if the data open.
    pub decrypt_buffer-unseal :
        IsGcm c → OpenCases pk (nonce_from_ivec iv) aad b (decrypt_buffer c iv pk aad b)
    decrypt_buffer-unseal gcm =
        elim (Option-cases (c.dec_aad aad (c.dec_new pk (nonce_from_ivec iv)))) [
          | inl e0 ↦ inl (rw e0 refl, rw (decrypt_buffer-aad e0) refl)
          | inr (d, e0) ↦ elim (Option-cases (c.dec_tag (tag_of c b) d)) [
            | inl e1 ↦ inl (rw (e0, e1) refl, rw (decrypt_buffer-tag d e0 e1) refl)
            | inr (d', e1) ↦ rw (decrypt_buffer-loop d d' e0 e1) (
                opened gcm pk (nonce_from_ivec iv) aad b d d' e0 e1 (
                  crypt_loop-run c.datasz c.dec_process gcm.dec_length (b.len - tag_len)
                    (suc (b.len - tag_len)) 0 d' b.byte gcm.datasz_pos (omega arith) (omega arith)))
          ]
        ]
