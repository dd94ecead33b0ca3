-- ===== src/Tests/Units.antt =====
-- The theorems on buffers, assemblies and chunk files, at small inputs.
use elykseer_cpp.Base.{
  ◌≡◌, refl, true, false, some, [], ◌∷◌, ℕ, zero, suc, ◌<◌, ◌≤◌, ◌+◌, ◌-◌, ◌⊎◌, arith, Block, slice,
  str_eq, to_string, decimal, pos,
}
use elykseer_cpp.Host.{World, FilePath, fwrite, path_eq}
use elykseer_cpp.Buffer.{copy_pimpl, fileout_sz_pos, fileout_pimpl, past_end}
use elykseer_cpp.Buffer.Copy.{Copied, Refused, copy_pimpl-Copied}
use elykseer_cpp.Nchunks.{sequence, sequence_from}
use elykseer_cpp.Cipher.{
  encrypt_buffer, decrypt_buffer, too_short, write_tag, verify_tag, crypt_loop,
}
use elykseer_cpp.Cipher.Laws.{seal}
use elykseer_cpp.Cipher.Seal.{data_pieces, tag_of}
use elykseer_cpp.Cipher.Roundtrip.{
  decrypt_buffer-encrypt_buffer, decrypt_buffer-authentic, decrypt_buffer-discards,
}
use elykseer_cpp.Assembly.{
  Assembly, writable, full, sealed, BlockInformation, idx2apos, chunk_identifier,
}
use elykseer_cpp.Assembly.Layout.{apos2idx, apos2idx-idx2apos, idx2apos-before_tag}
use elykseer_cpp.Assembly.Writable.{create_writable, backup}
use elykseer_cpp.Assembly.Writable.Create.{Created, create_writable-Created}
use elykseer_cpp.Assembly.Writable.Backup.{info_of, Appended, backup-Appended}
use elykseer_cpp.Assembly.Full.{restore}
use elykseer_cpp.Assembly.Full.Restore.{restore_block}
use elykseer_cpp.Assembly.Chunks.{
  extract, extract_loop, extract_chunk, write_chunk, chunk_path, recall,
}
use elykseer_cpp.Assembly.Chunks.Round.{Extends}
use elykseer_cpp.Assembly.Chunks.Extract.{HasChunks, extract-HasChunks, extract-Extends}
use elykseer_cpp.Assembly.Chunks.Recall.{recall-HasChunks}
use elykseer_cpp.Tests.{
  toy, toy-IsGcm, config_16, empty_host, three_bytes, aid_x, empty_memory, empty_assembly,
  empty-IsWritable, filled_memory,
}

abbrev twenty : Block
twenty = record { len = 20; byte = λ i. i }

copy_pimpl-Copied_example :
    Copied twenty three_bytes
      (pos 4)
      (pos 2)
      (pos 1)
      (copy_pimpl twenty (pos 4) (pos 2) (some three_bytes) (pos 1))
    ⊎ Refused three_bytes (copy_pimpl twenty (pos 4) (pos 2) (some three_bytes) (pos 1))
copy_pimpl-Copied_example = copy_pimpl-Copied twenty three_bytes (pos 4) (pos 2) (pos 1)

abbrev twenty_sealed : Block
twenty_sealed = record { len = 20; byte = (encrypt_buffer toy [] [] [] twenty).1.byte }

twenty_encrypts : encrypt_buffer toy [] [] [] twenty ≡ (true, twenty_sealed)
unfolding encrypt_buffer too_short write_tag crypt_loop slice
twenty_encrypts = refl

decrypt_buffer-encrypt_buffer_example :
    ((decrypt_buffer toy [] [] [] twenty_sealed).0 ≡ true)
    × ((decrypt_buffer toy [] [] [] twenty_sealed).1.len ≡ 20)
    × ((i : ℕ) → i < 20 - 16 → (decrypt_buffer toy [] [] [] twenty_sealed).1.byte i ≡ twenty.byte i)
decrypt_buffer-encrypt_buffer_example =
    decrypt_buffer-encrypt_buffer toy toy-IsGcm [] [] [] twenty twenty_sealed twenty_sealed
      twenty_encrypts refl (λ i lt. refl)

abbrev twenty_opened : Block
twenty_opened = record { len = 20; byte = (decrypt_buffer toy [] [] [] twenty_sealed).1.byte }

twenty_decrypts : decrypt_buffer toy [] [] [] twenty_sealed ≡ (true, twenty_opened)
unfolding encrypt_buffer decrypt_buffer too_short write_tag verify_tag crypt_loop slice str_eq
twenty_decrypts = refl

decrypt_buffer-authentic_example :
    (seal toy [] [] [] (data_pieces toy twenty_opened)
      ≡ some (data_pieces toy twenty_sealed, tag_of toy twenty_sealed))
    × (twenty_opened.len ≡ twenty_sealed.len)
decrypt_buffer-authentic_example =
    decrypt_buffer-authentic toy toy-IsGcm [] [] [] twenty_sealed twenty_opened (omega arith)
      twenty_decrypts

bad_tag : decrypt_buffer toy [] [] [] twenty ≡ (false, twenty)
unfolding decrypt_buffer too_short verify_tag slice str_eq
bad_tag = refl

decrypt_buffer-discards_example : (twenty ≡ twenty) ⊎ (twenty ≡ record twenty { byte = λ _. 0 })
decrypt_buffer-discards_example = decrypt_buffer-discards toy [] [] [] twenty twenty bad_tag

apos2idx-idx2apos_example : apos2idx (idx2apos 70 16) 16 ≡ 70
apos2idx-idx2apos_example = apos2idx-idx2apos 70 16 (omega arith) (omega arith)

idx2apos-before_tag_example : idx2apos 4194047 16 < 4194304 - 16
idx2apos-before_tag_example = idx2apos-before_tag 4194047 16 (omega arith) (omega arith)

create_writable-Created_example :
    (a : Assembly writable) × (w' : World) × (b : Block) × (create_writable toy config_16 empty_host
      ≡ some (a, w'))
    × Created config_16 empty_host w' a b
create_writable-Created_example = create_writable-Created toy config_16 empty_host (omega arith)

backup-Appended_example :
    (a' : Assembly writable) × (t' : Block) × (backup toy empty_assembly
        (record { pimpl = some three_bytes })
        1
        2
      ≡ some (info_of toy empty_assembly three_bytes 1 2, a'))
    × Appended empty_assembly a' empty_memory t' three_bytes 1 2
backup-Appended_example =
    backup-Appended toy empty_assembly empty_memory three_bytes 1 2 empty-IsWritable (omega arith)
      (omega arith) (omega arith) (omega arith)

abbrev held_full : Assembly full
held_full = record {
  config = config_16;
  info = record { nchunks = 16; apos = 4194304; aid = aid_x };
  buffer = some (record { pimpl = some filled_memory });
}

abbrev block_info : ℕ → BlockInformation
block_info size = record {
  blockid = 1;
  bchecksum = some (1 ∷ 2 ∷ 3 ∷ []);
  blocksize = size;
  filepos = 0;
  blockaid = aid_x;
  blockapos = 0;
}

three_there : (j : ℕ) → j < 3 → filled_memory.byte (idx2apos (j + 0) 16) ≡ three_bytes.byte (j + 0)
unfolding idx2apos
three_there zero h = refl
three_there (suc zero) h = refl
three_there (suc (suc zero)) h = refl
three_there (suc (suc (suc j))) h = absurd (omega arith)

three_sum :
    (block_info 3).bchecksum
    ≡ some (toy.sha3_256 (slice three_bytes.byte 0 (block_info 3).blocksize))
unfolding slice
three_sum = refl

restore_block_example :
    (b : Block) × (restore toy held_full (block_info 3) ≡ some (some (record { pimpl = some b })))
    × (b.len ≡ 3)
    × (slice b.byte 0 3 ≡ slice three_bytes.byte 0 3)
restore_block_example =
    restore_block toy held_full filled_memory (block_info 3) refl (omega arith) (omega arith) refl
      three_bytes 0 (omega arith) (omega arith) three_there three_sum

abbrev sealed_16 : Assembly sealed
sealed_16 = record {
  config = config_16;
  info = record { nchunks = 16; apos = 3; aid = aid_x };
  buffer = some (record { pimpl = some filled_memory });
}

all_counted : (extract toy sealed_16 empty_host).0 ≡ 4194304
unfolding extract extract_loop extract_chunk sequence sequence_from chunk_path chunk_identifier
    write_chunk fileout_sz_pos fileout_pimpl past_end fwrite to_string decimal path_eq str_eq
all_counted = refl

extract-Extends_example :
    Extends empty_host (extract toy sealed_16 empty_host).2
    × ((extract toy sealed_16 empty_host).0 ≤ 4194304)
extract-Extends_example =
    extract-Extends toy sealed_16 filled_memory empty_host refl (omega arith) (λ p. omega arith)

extract-HasChunks_example :
    HasChunks toy sealed_16 filled_memory (extract toy sealed_16 empty_host).2 1 16
extract-HasChunks_example =
    extract-HasChunks toy sealed_16 filled_memory empty_host refl (omega arith) (λ p. omega arith)
      all_counted

chunks_there : HasChunks toy sealed_16 filled_memory (extract toy sealed_16 empty_host).2 1 16
chunks_there =
    extract-HasChunks toy sealed_16 filled_memory empty_host refl (omega arith) (λ p. omega arith)
      all_counted

all_readable : (p : FilePath) → (extract toy sealed_16 empty_host).2.read_ok p ≡ true
unfolding extract extract_loop extract_chunk sequence sequence_from chunk_path chunk_identifier
    write_chunk fileout_sz_pos fileout_pimpl past_end fwrite to_string decimal path_eq str_eq
all_readable p = refl

recall-HasChunks_example :
    (a : Assembly sealed) × (m : Block) × (recall toy config_16 aid_x
        (extract toy sealed_16 empty_host).2
      ≡ some a)
    × (a.config ≡ config_16)
    × (a.info.aid ≡ aid_x)
    × (a.buffer ≡ some (record { pimpl = some m }))
    × (m.len ≡ 4194304)
    × ((i : ℕ) → i < 4194304 → m.byte i ≡ filled_memory.byte i)
recall-HasChunks_example =
    recall-HasChunks toy config_16 aid_x filled_memory (extract toy sealed_16 empty_host).2
      all_readable chunks_there
