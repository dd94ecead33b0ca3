-- ===== src/Assembly/Full.antt =====
-- CoqAssemblyPlainFull: encryption, and the restoring of a block. CoqAssemblyEncrypted: decryption.
-- An exception of CoqBuffer::at, or a read through a null pointer, is `none`; a null pointer that is
-- returned is `some none`.
pub mod Read
pub mod Restore
pub mod Seal
use elykseer_cpp.Base.{
  ℕ, zero, suc, ◌+◌, Bool, true, false, ◌||◌, Option, none, some, List, ltb, ◌==◌, if◌then◌else◌,
  add32, pos, Block, str_eq,
}
use elykseer_cpp.Buffer.{Buffer, plain, encrypted, at, set_at, calc_checksum, buffer_len, create}
use elykseer_cpp.Cipher
use elykseer_cpp.Cipher.{Crypto}
use elykseer_cpp.Assembly.{
  Configuration, BlockInformation, KeyInformation, Assembly, full, sealed, assemblysize, idx2apos,
  no_information,
}

infixl 5 ◌>>=◌
abbrev ◌>>=◌ {ℓ κ} : {A : Type ℓ} {B : Type κ} → Option A → (A → Option B) → Option B
◌>>=◌ m f = elim m [ none ↦ none | some a ↦ f a ]

-- `for (idx = 0; idx < blocksize; idx++) b->at(idx, buffer->at(idx2apos(idx + apos, n)));`
unfoldable pub restore_loop : ℕ → ℕ → ℕ → ℕ → Block → Block → Option Block
restore_loop zero idx n apos src b = some b
restore_loop (suc left) idx n apos src b = do
  v ← at src (idx2apos (add32 idx apos) n)
  b' ← set_at b idx v
  restore_loop left (idx + 1) n apos src b'

module _ (cr : Crypto) where
  -- `chksum && chksum.value().toHex() == bi.bchecksum.toHex()`; a checksum that was not given throws,
  -- which the handler turns into `false`.
  unfoldable pub checksum_ok : Option (List ℕ) → Option (List ℕ) → Bool
  checksum_ok none given = false
  checksum_ok (some k) none = false
  checksum_ok (some k) (some g) = str_eq (cr.to_hex k) (cr.to_hex g)

  -- The end of restore: the block, if its checksum is that of the block information.
  unfoldable pub checked : BlockInformation → Block → Option (Buffer plain)
  unfolding checksum_ok
  checked bi b =
      let buf : Buffer plain = record { pimpl = some b } in
      if checksum_ok (calc_checksum cr.sha3_256 buf 0 b.len) bi.bchecksum then some buf else none

  -- `! _buffer || blocksize == 0 || (uint64_t)blockapos + blocksize > assemblysize(nchunks)`
  unfoldable pub out_of_range : ℕ → BlockInformation → Bool
  out_of_range n bi = bi.blocksize == 0 || ltb (assemblysize n) (bi.blockapos + bi.blocksize)

  unfoldable pub restore : Assembly full → BlockInformation → Option (Option (Buffer plain))
  unfolding restore_loop checked create out_of_range
  restore a bi = elim a.buffer [
    | none ↦ some none
    | some buf ↦ if out_of_range a.config.nchunks bi then some none else do
      src ← buf.pimpl
      b ← (create {s = plain} (pos bi.blocksize)).pimpl
      b' ← restore_loop bi.blocksize 0 a.config.nchunks bi.blockapos src b
      some (checked bi b')
  ]

  -- CoqAssemblyPlainFull::encrypt: the result, and this assembly without its buffer.
  unfoldable pub encrypt : Assembly full → KeyInformation → Option (Assembly sealed) × Assembly full
  encrypt a ki = elim a.buffer [
    | none ↦ (none, a)
    | some buf ↦ elim (Cipher.encrypt cr ki.ivec ki.pkey a.info.aid buf).0 [
      | none ↦ (none, record a { buffer = none })
      | some newbuf ↦ (
        some (record { config = a.config; info = a.info; buffer = some newbuf }),
        record a { buffer = none },
      )
    ]
  ]

  -- CoqAssemblyEncrypted::decrypt
  unfoldable pub decrypt :
      Assembly sealed → KeyInformation → Option (Assembly full) × Assembly sealed
  decrypt a ki = elim a.buffer [
    | none ↦ (none, a)
    | some buf ↦ elim (Cipher.decrypt cr ki.ivec ki.pkey a.info.aid buf).0 [
      | none ↦ (none, record a { buffer = none })
      | some newbuf ↦ (
        some (record { config = a.config; info = a.info; buffer = some newbuf }),
        record a { buffer = none },
      )
    ]
  ]
