-- ===== src/Environment.antt =====
-- src/cpp/coqenvironment.ixx and coqenvironment.cpp: CoqEnvironmentWritable holds the assembly that is
-- filled, CoqEnvironmentReadable one that was restored. An exception is `none`. Lengths that the code
-- casts to `int` are below 2 ^ 31.
pub mod Finalise
pub mod Failed
pub mod Archive
pub mod Ready
pub mod Place
use elykseer_cpp.Base.{
  ℕ, ◌+◌, Bool, true, false, Option, none, some, List, [], ◌∷◌, ltb, leb, ◌==◌, not, if◌then◌else◌,
  add32, take,
}
use elykseer_cpp.Host.{World, draw}
use elykseer_cpp.Buffer.{Buffer, plain, buffer_len}
use elykseer_cpp.Cipher.{Crypto}
use elykseer_cpp.Assembly.{
  Configuration, BlockInformation, KeyInformation, Assembly, writable, full, assemblysize,
  header_len, format_version, supported_format, afree,
}
use elykseer_cpp.Assembly.Writable.{create_writable, finish}
use elykseer_cpp.Assembly.Writable
use elykseer_cpp.Assembly.Full
use elykseer_cpp.Assembly.Chunks.{extract, recall}

pub record EnvironmentWritable : Type 0 where
  pub config : Configuration
  pub assembly : Option (Assembly writable)
  pub n_failed : ℕ

pub record EnvironmentReadable : Type 0 where
  pub config : Configuration
  pub assembly : Option (Assembly full)

-- An aid with its key.
abbrev pub AidKey : Type 0
AidKey = List ℕ × KeyInformation

-- KeyInformation(config): 128 random bits for the ivec, then 256 for the key.
unfoldable pub new_key : Configuration → World → KeyInformation × World
new_key c w = (
  record {
    ivec = take 16 (draw w).0;
    pkey = (draw (draw w).1).0;
    localnchunks = c.nchunks;
    version = format_version;
  },
  (draw (draw w).1).1,
)

-- The result of CoqEnvironmentWritable::backup: the blocks by file, and the keys by aid.
abbrev pub BackupResult : Type 0
BackupResult = List (List ℕ × BlockInformation) × List AidKey

abbrev pub key_list : Option AidKey → List AidKey
key_list none = []
key_list (some k) = k ∷ []

module _ (cr : Crypto) where
  -- CoqEnvironmentWritable::recreate_assembly
  unfoldable pub recreate_assembly :
      EnvironmentWritable → World → Option (EnvironmentWritable × World)
  recreate_assembly e w = elim (create_writable cr e.config w) [
    | none ↦ none
    | some (a, w') ↦ some (record e { assembly = some a }, w')
  ]

  -- The part of finalise_assembly for an assembly that has data; `e` has no assembly any more.
  unfoldable pub seal_assembly :
      EnvironmentWritable → Assembly writable → World → Option AidKey × EnvironmentWritable × World
  unfolding new_key
  seal_assembly e a w =
      let (ki, w1) = new_key e.config w in
      elim (Full.encrypt cr (finish a).0 ki).0 [
        | none ↦ (none, record e { n_failed = add32 e.n_failed 1 }, w1)
        | some enc ↦
            let (nwritten, _, w2) = extract cr enc w1 in
            if not (nwritten == assemblysize e.config.nchunks)
            then (none, record e { n_failed = add32 e.n_failed 1 }, w2)
            else (some (a.info.aid, ki), e, w2)
      ]

  -- CoqEnvironmentWritable::finalise_assembly
  unfoldable pub finalise_assembly :
      EnvironmentWritable → World → Option AidKey × EnvironmentWritable × World
  unfolding seal_assembly
  finalise_assembly e w = elim e.assembly [
    | none ↦ (none, e, w)
    | some a ↦
        if leb a.info.apos (header_len e.config.nchunks)
        then (none, record e { assembly = none }, w)
        else seal_assembly (record e { assembly = none }) a w
  ]

  unfoldable pub finalise_and_recreate_assembly :
      EnvironmentWritable → World → Option (Option AidKey × EnvironmentWritable × World)
  unfolding finalise_assembly recreate_assembly
  finalise_and_recreate_assembly e w =
      let (oki, e1, w1) = finalise_assembly e w in
      elim (recreate_assembly e1 w1) [ none ↦ none | some (e2, w2) ↦ some (oki, e2, w2) ]

  -- CoqEnvironmentReadable::restore_assembly; that of the writable environment returns false.
  unfoldable pub restore_assembly :
      EnvironmentReadable → List ℕ → KeyInformation → World → Bool × EnvironmentReadable
  restore_assembly e aid ki w =
      if not (supported_format ki.version) then (false, e) else elim (recall cr e.config aid w) [
        | none ↦ (false, e)
        | some enc ↦ elim (Full.decrypt cr enc ki).0 [
          | none ↦ (false, e)
          | some a ↦ (true, record e { assembly = some a })
        ]
      ]

  -- The end of backup, once room was made: `! fits` is the second test against `afree`.
  unfoldable pub backup_into :
      List ℕ
      → ℕ
      → Buffer plain
      → ℕ
      → List AidKey
      → EnvironmentWritable
      → World
      → Option (BackupResult × EnvironmentWritable × World)
  backup_into fname fpos b dlen kis e w = elim e.assembly [
    | none ↦ none
    | some a ↦
        if ltb (afree a) dlen
        then some (([], kis), e, w)
        else elim (Writable.backup cr a b 0 dlen) [
          | none ↦ none
          | some (bi, a') ↦ some (
            ((fname, record bi { filepos = fpos }) ∷ [], kis),
            record e { assembly = some a' },
            w,
          )
        ]
  ]

  -- CoqEnvironmentWritable::backup
  unfoldable pub backup :
      EnvironmentWritable
      → List ℕ
      → ℕ
      → Buffer plain
      → ℕ
      → World
      → Option (BackupResult × EnvironmentWritable × World)
  unfolding finalise_and_recreate_assembly backup_into
  backup e fname fpos b dlen w = elim e.assembly [
    | none ↦ some (([], []), e, w)
    | some a ↦
        if ltb (buffer_len b) dlen
        then some (([], []), e, w)
        else if ltb (afree a) dlen
        then elim (finalise_and_recreate_assembly e w) [
          | none ↦ none
          | some (oki, e', w') ↦ backup_into fname fpos b dlen (key_list oki) e' w'
        ]
        else backup_into fname fpos b dlen [] e w
  ]
