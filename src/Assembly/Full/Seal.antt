-- ===== src/Assembly/Full/Seal.antt =====
-- CoqAssemblyPlainFull::encrypt and CoqAssemblyEncrypted::decrypt, by the buffer operations beneath.
use elykseer_cpp.Base.{
  ◌≡◌, refl, Bool, true, false, none, some, List, ℕ, Block, Option-cases, inl, inr,
}
use elykseer_cpp.Buffer.{EncryptionState, Buffer, plain, encrypted}
use elykseer_cpp.Cipher
use elykseer_cpp.Cipher.{Crypto, handed_over, encrypt_buffer, decrypt_buffer}
use elykseer_cpp.Assembly.{Assembly, full, sealed, KeyInformation}
use elykseer_cpp.Assembly.Full.{encrypt, decrypt}

handed_over-some :
    (s : EncryptionState) {t : EncryptionState} (r : Bool × Block) (nb : Buffer t)
    → (handed_over {s = s} {t = t} r).0 ≡ some nb
    → (b : Block) × (r ≡ (true, b)) × (nb ≡ record { pimpl = some b })
unfolding handed_over
handed_over-some s (true, p) nb e = (p, refl, cc)
handed_over-some s (false, p) nb e = cc

module _ (cr : Crypto) where
  encrypted_block :
      (iv key aad : List ℕ) (t : Block) (nb : Buffer encrypted)
      → (Cipher.encrypt cr iv key aad (record { pimpl = some t })).0 ≡ some nb
      → (b : Block) × (encrypt_buffer cr iv key aad t ≡ (true, b))
        × (nb ≡ record { pimpl = some b })
  unfolding Cipher.encrypt
  encrypted_block iv key aad t nb h = handed_over-some plain (encrypt_buffer cr iv key aad t) nb h

  sealed_with : Assembly full → Buffer encrypted → Assembly sealed
  sealed_with a nb = record { config = a.config; info = a.info; buffer = some nb }

  sealed_eq :
      (a : Assembly full) (b : Block) (nb : Buffer encrypted) (e : Assembly sealed)
      → nb ≡ record { pimpl = some b }
      → some (sealed_with a nb) ≡ some e
      → e ≡ sealed_with a (record { pimpl = some b })
  sealed_eq a b nb e nbe h = cc

  -- A sealed assembly holds the encrypted memory, under the same configuration and information.
  pub encrypt-some :
      (a : Assembly full) (ki : KeyInformation) (t : Block) (e : Assembly sealed)
      → a.buffer ≡ some (record { pimpl = some t })
      → (encrypt cr a ki).0 ≡ some e
      → (b : Block) × (encrypt_buffer cr ki.ivec ki.pkey a.info.aid t ≡ (true, b))
        × (e ≡ record {
          config = a.config;
          info = a.info;
          buffer = some (record { pimpl = some b });
        })
  unfolding encrypt sealed_with
  encrypt-some a ki t e held h =
      let h1 = rw (held, encrypt) at h in
      elim (Option-cases
        (Cipher.encrypt cr ki.ivec ki.pkey a.info.aid (record { pimpl = some t })).0) [
          | inl n ↦ absurd (cc (rw n at h1))
          | inr (nb, n) ↦
              let (b, eb, nbe) = encrypted_block ki.ivec ki.pkey a.info.aid t nb n in
              let h2 = rw n at h1 in (b, eb, sealed_eq a b nb e nbe h2)
        ]

  -- A decryption that succeeds on the memory succeeds on the assembly.
  pub decrypt-some :
      (a : Assembly sealed) (ki : KeyInformation) (b p : Block)
      → a.buffer ≡ some (record { pimpl = some b })
      → decrypt_buffer cr ki.ivec ki.pkey a.info.aid b ≡ (true, p)
      → decrypt cr a ki ≡ (
        some (record {
          config = a.config;
          info = a.info;
          buffer = some (record { pimpl = some p });
        }),
        record a { buffer = none },
      )
  unfolding decrypt Cipher.decrypt handed_over
  decrypt-some a ki b p held h = rw (held, decrypt) (rw (h, handed_over) refl)
