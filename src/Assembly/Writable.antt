-- ===== src/Assembly/Writable.antt =====
-- CoqAssemblyPlainWritable: creation with the random header, and the backup of a block. An
-- exception of CoqBuffer::at, or a read through a null pointer, is `none`.
pub mod Store
pub mod Header
pub mod Create
pub mod Backup
use elykseer_cpp.Base.{
  ℕ, zero, suc, ◌+◌, ◌-◌, ◌≤◌, Bool, true, false, ◌&&◌, Option, none, some, List, [], ltb, leb,
  if◌then◌else◌, add32, pos, Block, of_list, min,
}
use elykseer_cpp.Host.{World, draw}
use elykseer_cpp.Buffer.{Buffer, plain, at, set_at, calc_checksum, buffer_len, create}
use elykseer_cpp.Cipher.{Crypto}
use elykseer_cpp.Assembly.{
  Configuration, AssemblyInformation, no_information, BlockInformation, no_block, Assembly,
  writable, full, assemblysize, header_len, idx2apos, mk_aid,
}

infixl 5 ◌>>=◌
abbrev ◌>>=◌ {ℓ κ} : {A : Type ℓ} {B : Type κ} → Option A → (A → Option B) → Option B
◌>>=◌ m f = elim m [ none ↦ none | some a ↦ f a ]

-- `for (i = 0; i < 32 && idx + i < h; i++) buffer->at(idx + i, r[i]);`, with the rounds left.
unfoldable pub header_bytes : ℕ → ℕ → ℕ → ℕ → List ℕ → Block → Option Block
header_bytes zero i idx h r b = some b
header_bytes (suc left) i idx h r b = elim (ltb (idx + i) h) [
  | false ↦ some b
  | true ↦ do b' ← set_at b (idx + i) (of_list r i); header_bytes left (i + 1) idx h r b'
]

-- `for (idx = 0; idx < h; idx += 32)`, each round with 256 fresh random bits. The fuel is one more
-- than the rounds that are needed.
unfoldable pub header_loop : ℕ → ℕ → ℕ → Block → World → Option (Block × World)
header_loop zero idx h b w = none
header_loop (suc fuel) idx h b w = elim (ltb idx h) [
  | false ↦ some (b, w)
  | true ↦ do b' ← header_bytes 32 0 idx h (draw w).0 b; header_loop fuel (idx + 32) h b' (draw w).1
]

-- CoqAssemblyPlainWritable(c, aid)
unfoldable pub create_aid : Configuration → List ℕ → World → Option (Assembly writable × World)
unfolding header_loop header_bytes create
create_aid c aid w = do
  buf ← (create {s = plain} (pos (assemblysize c.nchunks))).pimpl
  (b, w') ← header_loop 5 0 (header_len c.nchunks) buf w
  some (
    record {
      config = c;
      info = record { nchunks = c.nchunks; apos = header_len c.nchunks; aid = aid };
      buffer = some (record { pimpl = some b });
    },
    w',
  )

-- CoqAssemblyPlainWritable(c): mk_assembly_id draws 256 bits after the header.
unfoldable pub create_writable : Crypto → Configuration → World → Option (Assembly writable × World)
unfolding create_aid
create_writable cr c w = do
  (a, w') ← create_aid c [] w
  some (
    record a { info = record a.info { aid = mk_aid cr c.my_id (cr.to_hex (draw w').0) } },
    (draw w').1,
  )

-- `for (i = 0; i < dlen; i++) buffer->at(idx2apos(i + apos, n), b.at(i + offset));`
unfoldable pub store_loop : ℕ → ℕ → ℕ → ℕ → ℕ → Block → Block → Option Block
store_loop zero i n apos offset b t = some t
store_loop (suc left) i n apos offset b t = do
  v ← at b (add32 i offset)
  t' ← set_at t (idx2apos (add32 i apos) n) v
  store_loop left (i + 1) n apos offset b t'

-- backup(b, offset, dlen)
unfoldable pub backup :
    Crypto
    → Assembly writable
    → Buffer plain
    → ℕ
    → ℕ
    → Option (BlockInformation × Assembly writable)
unfolding store_loop
backup cr a b offset dlen =
    if ltb (buffer_len b) (add32 dlen offset)
    then some (no_block, a)
    else if ltb (assemblysize a.config.nchunks) (add32 a.info.apos dlen)
    then some (no_block, a)
    else elim (calc_checksum cr.sha3_256 b offset dlen) [
      | none ↦ some (no_block, a)
      | some chksum ↦ do
        buf ← a.buffer
        t ← buf.pimpl
        p ← b.pimpl
        t' ← store_loop dlen 0 a.config.nchunks a.info.apos offset p t
        some (
          record {
            blockid = 1;
            bchecksum = some chksum;
            blocksize = dlen;
            filepos = 0;
            blockaid = a.info.aid;
            blockapos = a.info.apos;
          },
          record a {
            info = record a.info { apos = add32 a.info.apos dlen };
            buffer = some (record { pimpl = some t' });
          },
        )
    ]

-- finish: the full assembly takes the buffer over.
unfoldable pub finish : Assembly writable → Assembly full × Assembly writable
finish a =
    (record { config = a.config; info = a.info; buffer = a.buffer }, record a { buffer = none })
