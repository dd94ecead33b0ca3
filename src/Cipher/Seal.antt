-- ===== src/Cipher/Seal.antt =====
-- encrypt_buffer and decrypt_buffer against sealing and opening the pieces of the data.
use elykseer_cpp.Base.{
  ℕ, suc, ◌-◌, ◌≤◌, ◌≡◌, refl, sym, ◌∙◌, ap, ap₂, subst, inl, inr, true, false, Option, none, some,
  List, arith, slice, blit, of_list, Bool-cases, Option-cases, Block, blit_outside,
}
use elykseer_cpp.Buffer.{tag_len}
use elykseer_cpp.Cipher.{Crypto, crypt_loop, nonce_from_ivec, too_short, write_tag, encrypt_buffer}
use elykseer_cpp.Cipher.Pieces.{pieces, pieces-cong}
use elykseer_cpp.Cipher.Laws.{seal, IsGcm}
use elykseer_cpp.Cipher.Loop.{slice-blit, LoopAgrees, crypt_loop-run}

module _ (c : Crypto) where
  -- The pieces of a buffer's data, which ends `tag_len` bytes before the buffer.
  abbrev pub data_pieces : Block → List (List ℕ)
  data_pieces b = pieces c.datasz (suc (b.len - tag_len)) (b.len - tag_len) 0 b.byte

  abbrev pub tag_of : Block → List ℕ
  tag_of b = slice b.byte (b.len - tag_len) tag_len

  too_short-le : (b : Block) → too_short b ≡ false → tag_len ≤ b.len
  unfolding too_short
  too_short-le b h = ground arith

  -- A success of what follows the loop: every call succeeded.
  write_tag-true :
      (b b' : Block) (r : Option (c.Encryptor) × (ℕ → ℕ))
      → write_tag c b r ≡ (true, b')
      → (e e' : c.Encryptor) × (t : List ℕ) × (r.0 ≡ some e)
        × (c.enc_finish e ≡ some e')
        × (c.enc_tag e' ≡ some t)
        × (record b { byte = blit r.1 (b.len - tag_len) (of_list t) 0 tag_len } ≡ b')
  unfolding write_tag
  write_tag-true b b' (none, m) h = cc
  write_tag-true b b' (some e, m) h = elim (Option-cases (c.enc_finish e)) [
    | inl e0 ↦ absurd (ground arith)
    | inr (e', e1) ↦ elim (Option-cases (c.enc_tag e')) [
      | inl e2 ↦ absurd (ground arith)
      | inr (t, e2) ↦ (e, e', t, refl, e1, e2, ap (λ q. q.1) (rw e2 at (rw (e1, write_tag) at h)))
    ]
  ]

  -- The loop of a buffer, from a context.
  abbrev enc_loop : Block → c.Encryptor → Option (c.Encryptor) × (ℕ → ℕ)
  enc_loop b e =
      crypt_loop c.datasz c.enc_process (suc (b.len - tag_len)) (b.len - tag_len) 0 e b.byte

  -- The bytes before the tag keep their pieces when the tag is written.
  tag_pieces :
      (m : ℕ → ℕ) (n : ℕ) (t : List ℕ)
      → pieces c.datasz (suc n) n 0 (blit m n (of_list t) 0 tag_len) ≡ pieces c.datasz (suc n) n 0 m
  tag_pieces m n t =
      pieces-cong c.datasz (suc n) n 0 _ m
        (λ i lo hi. (blit_outside m (of_list t) n 0 tag_len i).0 hi)

  sealed :
      (gcm : IsGcm c) (pk nonce aad : List ℕ) (b b' : Block) (e e1 e2 : c.Encryptor) (t : List ℕ)
      → c.enc_aad aad (c.enc_new pk nonce) ≡ some e
      → (enc_loop b e).0 ≡ some e1
      → c.enc_finish e1 ≡ some e2
      → c.enc_tag e2 ≡ some t
      → record b { byte = blit (enc_loop b e).1 (b.len - tag_len) (of_list t) 0 tag_len } ≡ b'
      → LoopAgrees c.datasz c.enc_process gcm.enc_length
          (b.len - tag_len)
          (suc (b.len - tag_len))
          0
          e
          b.byte
      → seal c pk nonce aad (data_pieces b) ≡ some (data_pieces b', tag_of b')
  sealed gcm pk nonce aad b b' e e1 e2 t e0 l f g eq (inl (ran, looped)) = absurd (cc)
  sealed gcm pk nonce aad b b' e e1 e2 t e0 l f g eq
        (inr (os, e1', ran, looped, cut, below, above)) =
      let same : e1' ≡ e1 = cc in
      let n = b.len - tag_len in
      subst (λ (q : Block). seal c pk nonce aad (data_pieces b) ≡ some (data_pieces q, tag_of q)) eq
        (rw (e0, ran, same, f, g)
          (ap₂ (λ (x : List (List ℕ)) (y : List ℕ). some (x, y))
            (sym cut ∙ sym (tag_pieces (enc_loop b e).1 n t))
            (sym (slice-blit (enc_loop b e).1 n tag_len t (gcm.tag_length e2 t g)))))

  -- Encryption seals the data in place: if it succeeds, the new data are the sealed pieces, the last
  -- 16 bytes are their tag, and the length is the same.
  pub encrypt_buffer-seal :
      IsGcm c
      → (iv pk aad : List ℕ) (b b' : Block) → encrypt_buffer c iv pk aad b ≡ (true, b')
      → (seal c pk (nonce_from_ivec iv) aad (data_pieces b) ≡ some (data_pieces b', tag_of b'))
        × (b'.len ≡ b.len)
        × (tag_len ≤ b.len)
  unfolding encrypt_buffer
  encrypt_buffer-seal gcm iv pk aad b b' h = elim (Bool-cases (too_short b)) [
    | inl short ↦ absurd (ground arith)
    | inr long ↦ elim (Option-cases (c.enc_aad aad (c.enc_new pk (nonce_from_ivec iv)))) [
      | inl e0 ↦ absurd (ground arith)
      | inr (e, e0) ↦
          let (e1, e2, t, l, f, g, eq) =
            write_tag-true b b' (enc_loop b e) (rw e0 at (rw (long, encrypt_buffer) at h)) in
          (
            sealed gcm pk (nonce_from_ivec iv) aad b b' e e1 e2 t e0 l f g eq (
                crypt_loop-run c.datasz c.enc_process gcm.enc_length (b.len - tag_len)
                  (suc (b.len - tag_len)) 0 e b.byte gcm.datasz_pos (omega arith) (omega arith)),
            ap (λ (q : Block). q.len) (sym eq),
            too_short-le b long,
          )
    ]
  ]
