-- ===== src/Assembly/Access.antt =====
-- The accessors of the assemblies in src/cpp/coqassembly.cpp, and the constructors of empty ones.
use elykseer_cpp.Base.{ℕ, Option, none, some, List, pos}
use elykseer_cpp.Buffer.{buffer_len, calc_checksum, create}
use elykseer_cpp.Assembly.{
  Configuration, Assembly, Stage, writable, full, sealed, state_of, assemblysize, no_information,
}

-- buffer_len of each of the classes
abbrev pub assembly_len : {k : Stage} → Assembly k → ℕ
assembly_len {k} a = elim a.buffer [ none ↦ 0 | some b ↦ buffer_len {s = state_of k} b ]

-- calc_checksum: an assembly that is being filled has none.
unfoldable pub checksum_writable : Assembly writable → Option (List ℕ)
checksum_writable a = none

unfoldable pub checksum_of : {k : Stage} → (List ℕ → List ℕ) → Assembly k → Option (List ℕ)
checksum_of {k} sha3 a = elim a.buffer [
  | none ↦ none
  | some b ↦ calc_checksum {s = state_of k} sha3 b 0 (buffer_len {s = state_of k} b)
]

-- CoqAssemblyPlainFull(c) and CoqAssemblyEncrypted(c)
unfoldable pub new_full : Configuration → Assembly full
unfolding create
new_full c = record {
  config = c;
  info = no_information;
  buffer = some (create (pos (assemblysize c.nchunks)));
}

unfoldable pub new_sealed : Configuration → Assembly sealed
unfolding create
new_sealed c = record {
  config = c;
  info = no_information;
  buffer = some (create (pos (assemblysize c.nchunks)));
}
