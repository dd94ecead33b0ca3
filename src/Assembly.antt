-- ===== src/Assembly.antt =====
-- src/cpp/coqassembly.ixx, coqassembly.cpp and coqconfiguration.ixx: the records, the constants and
-- the layout of an assembly over its chunks. The operations are in the child modules.
pub mod Layout
pub mod Writable
pub mod Full
pub mod Chunks
pub mod Access
use elykseer_cpp.Base.{
  ℕ, ◌+◌, ◌-◌, ◌*◌, ◌/◌, ◌%◌, ◌^◌, min, Bool, Option, none, List, [], ◌++◌, codes, to_string,
  starts_with,
}
use elykseer_cpp.Host.{FilePath}
use elykseer_cpp.Buffer.{Buffer, EncryptionState, plain, encrypted, tag_len}
use elykseer_cpp.Cipher.{Crypto}
use elykseer_cpp.Nchunks.{min_n}

-- CoqConfiguration
pub record Configuration : Type 0 where
  pub path_chunks : FilePath
  pub path_db : FilePath
  pub my_id : List ℕ
  pub nchunks : ℕ

abbrev pub chunkwidth : ℕ
chunkwidth = 256

abbrev pub chunklength : ℕ
chunklength = 1024

abbrev pub chunksize : ℕ
chunksize = chunkwidth * chunklength

-- At most 256 chunks of 2 ^ 18 bytes: no unsigned overflow.
abbrev pub assemblysize : ℕ → ℕ
assemblysize n = chunksize * n

-- min(nchunks.u() - tag_len, 128U)
abbrev pub header_len : ℕ → ℕ
header_len n = min ((n + 2 ^ 32 - tag_len) % 2 ^ 32) 128

abbrev pub format_version : List ℕ
format_version = codes "0.10.1"

unfoldable pub supported_format : List ℕ → Bool
unfolding starts_with
supported_format version = starts_with version (codes "0.10.")

-- Logical index to position: chunk `idx % nc`, offset `idx / nc` in it. With nc from 16 to 256 and
-- idx below 2 ^ 32 nothing overflows.
unfoldable pub idx2apos : ℕ → ℕ → ℕ
idx2apos idx nc = idx % nc * chunksize + idx / nc

-- AssemblyInformation, and its default.
pub record AssemblyInformation : Type 0 where
  pub nchunks : ℕ
  pub apos : ℕ
  pub aid : List ℕ

abbrev pub no_information : AssemblyInformation
no_information = record { nchunks = min_n; apos = 0; aid = [] }

-- A `bchecksum` of `none` is the key that `Key256{true}` leaves unset, whose `toHex` throws.
pub record BlockInformation : Type 0 where
  pub blockid : ℕ
  pub bchecksum : Option (List ℕ)
  pub blocksize : ℕ
  pub filepos : ℕ
  pub blockaid : List ℕ
  pub blockapos : ℕ

-- `return {}`
abbrev pub no_block : BlockInformation
no_block = record {
  blockid = 0;
  bchecksum = none;
  blocksize = 0;
  filepos = 0;
  blockaid = [];
  blockapos = 0;
}

pub record KeyInformation : Type 0 where
  pub ivec : List ℕ
  pub pkey : List ℕ
  pub localnchunks : ℕ
  pub version : List ℕ

-- The classes CoqAssemblyPlainWritable, CoqAssemblyPlainFull and CoqAssemblyEncrypted.
pub data Stage : Type 0 where
  writable full sealed : Stage

abbrev pub state_of : Stage → EncryptionState
state_of writable = plain
state_of full = plain
state_of sealed = encrypted

-- The members of an assembly; `_buffer` is null after it was handed over.
pub record Assembly (k : Stage) : Type 0 where
  pub config : Configuration
  pub info : AssemblyInformation
  pub buffer : Option (Buffer (state_of k))

-- CoqAssembly::afree: max(0, size - apos - tag_len * n), which is the subtraction that stops at 0.
abbrev pub afree : {k : Stage} → Assembly k → ℕ
afree a = assemblysize a.info.nchunks - a.info.apos - tag_len * a.info.nchunks

module _ (c : Crypto) where
  -- sha3_256(my_id ^ rnd), in hex
  unfoldable pub mk_aid : List ℕ → List ℕ → List ℕ
  mk_aid my_id rnd_hex = c.to_hex (c.sha3_256 (my_id ++ rnd_hex))

  -- sha3_256(my_id ^ cid ^ aid), in hex
  unfoldable pub chunk_identifier : List ℕ → List ℕ → ℕ → List ℕ
  chunk_identifier my_id aid cid = c.to_hex (c.sha3_256 (my_id ++ (to_string cid ++ aid)))
