-- ===== src/Tests/Archive.antt =====
-- The theorems on the archive, at an assembly with three bytes.
use elykseer_cpp.Base.{
  ◌≡◌, refl, ap, true, Option, none, some, List, [], ◌∷◌, ℕ, zero, suc, ◌<◌, ◌≤◌, ◌%◌, inl, inr,
  ◌+◌, arith, Block, slice, to_string, decimal, str_eq,
}
use elykseer_cpp.Host.{World, FilePath}
use elykseer_cpp.Assembly.{
  chunk_identifier, chunksize, Assembly, writable, KeyInformation, idx2apos, format_version,
}
use elykseer_cpp.Assembly.Writable.Backup.{logical}
use elykseer_cpp.Environment.{
  EnvironmentWritable, EnvironmentReadable, AidKey, key_list, finalise_assembly, restore_assembly,
  backup,
}
use elykseer_cpp.Environment.Failed.{Counted, finalise_assembly-Counted}
use elykseer_cpp.Environment.Ready.{IsReady}
use elykseer_cpp.Environment.Place.{Placed, Room, backup-Placed, backup-too_big}
use elykseer_cpp.Store.{find, find_in}
use elykseer_cpp.Cache.{Cache, Stats, ReadQueueEntity, WriteQueueEntity, add64}
use elykseer_cpp.Cache.Read.{ensure_assembly, match_aid, take_out, run_read_requests}
use elykseer_cpp.Cache.Write.{close, run_write_request, run_write_requests}
use elykseer_cpp.Cache.Placed.{CanWrite, Written, run_write_request-Written}
use elykseer_cpp.Cache.Batch.{Ran, run_write_requests-Ran}
use elykseer_cpp.Cache.Front.{Front, ensure_assembly-Front, ensure_assembly_again}
use elykseer_cpp.Cache.Life.{run_write_request-close}
use elykseer_cpp.Cache.Archived.{IsStored, run_read_requests-close}
use elykseer_cpp.Environment.Archive.{restore_assembly-finalise_assembly, Restored}
use elykseer_cpp.Tests.{
  empty_memory, empty_assembly, empty-IsReady, toy, toy-IsGcm, config_16, empty_host, three_bytes,
  aid_x, filled_memory, filled_assembly, filled-IsWritable, writer, reader,
}
use elykseer_cpp.Environment.{seal_assembly, new_key}
use elykseer_cpp.Assembly.Full
use elykseer_cpp.Cipher
use elykseer_cpp.Cipher.{encrypt_buffer, handed_over, too_short, write_tag, crypt_loop}
use elykseer_cpp.Assembly.Writable.{finish}
use elykseer_cpp.Buffer.{fileout_sz_pos, fileout_pimpl, past_end}
use elykseer_cpp.Host.{fwrite, path_eq}
use elykseer_cpp.Nchunks.{sequence, sequence_from}
use elykseer_cpp.Assembly.Chunks.{extract, extract_loop, extract_chunk, write_chunk, chunk_path}

abbrev key_0 : KeyInformation
key_0 = record { ivec = []; pkey = []; localnchunks = 16; version = format_version }

abbrev finalised : Option AidKey × EnvironmentWritable × World
finalised = finalise_assembly toy (writer filled_assembly) empty_host

has_key : finalised.0 ≡ some (aid_x, key_0)
unfolding finalise_assembly seal_assembly new_key Full.encrypt finish Cipher.encrypt encrypt_buffer
    handed_over too_short write_tag crypt_loop slice extract extract_loop extract_chunk sequence
    sequence_from chunk_path chunk_identifier write_chunk fileout_sz_pos fileout_pimpl past_end
    fwrite to_string decimal path_eq str_eq
has_key = refl

finalised_eq : finalised ≡ (some (aid_x, key_0), finalised.1, finalised.2)
finalised_eq = ap (λ (x : Option AidKey). (x, finalised.1, finalised.2)) has_key

still_readable : (p : FilePath) → finalised.2.read_ok p ≡ true
unfolding finalise_assembly seal_assembly new_key Full.encrypt finish Cipher.encrypt encrypt_buffer
    handed_over too_short write_tag crypt_loop slice extract extract_loop extract_chunk sequence
    sequence_from chunk_path chunk_identifier write_chunk fileout_sz_pos fileout_pimpl past_end
    fwrite to_string decimal path_eq str_eq
still_readable p = refl

roomy : (p : FilePath) → chunksize ≤ empty_host.room p
roomy p = omega arith

restore_assembly-finalise_assembly_example :
    Restored config_16 filled_memory (restore_assembly toy reader aid_x key_0 finalised.2)
restore_assembly-finalise_assembly_example =
    restore_assembly-finalise_assembly toy toy-IsGcm filled_assembly filled_memory aid_x key_0
      empty_host finalised.2 filled-IsWritable roomy still_readable (writer filled_assembly)
      finalised.1 reader refl refl refl finalised_eq

abbrev request : ReadQueueEntity
request = record { aid = aid_x; apos = 0; rlen = 3; fpos = 0; chksum = some (1 ∷ 2 ∷ 3 ∷ []) }

three_stored :
    (j : ℕ) → j < 3 → logical filled_assembly filled_memory (j + 0) ≡ three_bytes.byte (j + 0)
unfolding idx2apos
three_stored zero h = refl
three_stored (suc zero) h = refl
three_stored (suc (suc zero)) h = refl
three_stored (suc (suc (suc j))) h = absurd (omega arith)

request-IsStored : IsStored toy filled_assembly filled_memory three_bytes 0 request
unfolding slice
request-IsStored = record {
  aid_is = refl;
  some_bytes = omega arith;
  inside = omega arith;
  bytes_are = three_stored;
  checksum_is = refl;
}

abbrev no_stats : Stats
no_stats = record {
  backup_bytes = 0;
  restored_bytes = 0;
  n_read_requests = 0;
  n_write_requests = 0;
  n_iterate_reads = 0;
  n_iterate_writes = 0;
  n_assembly_finalised = 0;
  n_assembly_recalled = 0;
}

abbrev pub writing_cache : Option EnvironmentWritable → Cache
writing_cache e = record {
  config = config_16;
  readenvs = [];
  n_readenvs = 2;
  writeenv = e;
  n_queuesz = 8;
  readqueue = [];
  writequeue = [];
  keystore = some (record { entries = [] });
  fblockstore = some (record { entries = [] });
  finfostore = none;
  stats = no_stats;
}

ensure_assembly-Front_example :
    Front toy (writing_cache none) aid_x (ensure_assembly toy (writing_cache none) aid_x empty_host)
ensure_assembly-Front_example =
    ensure_assembly-Front toy (writing_cache none) aid_x empty_host (omega arith)

abbrev holder : EnvironmentReadable
holder = record {
  config = config_16;
  assembly = some (record {
    config = config_16;
    info = record { nchunks = 16; apos = 3; aid = aid_x };
    buffer = some (record { pimpl = some filled_memory });
  });
}

abbrev reading_cache : Cache
reading_cache = record (writing_cache none) { readenvs = reader ∷ holder ∷ [] }

holder_found : (ensure_assembly toy reading_cache aid_x empty_host).0 ≡ some holder
unfolding ensure_assembly take_out match_aid str_eq
holder_found = refl

ensure_assembly_again_example :
    ensure_assembly toy (ensure_assembly toy reading_cache aid_x empty_host).1 aid_x finalised.2
    ≡ (some holder, (ensure_assembly toy reading_cache aid_x empty_host).1)
ensure_assembly_again_example =
    ensure_assembly_again toy reading_cache aid_x empty_host finalised.2 holder (omega arith)
      holder_found

abbrev filled_cache : Cache
filled_cache = writing_cache (some (writer filled_assembly))

nothing_found : find {V = KeyInformation} (record { entries = [] }) aid_x ≡ none
unfolding find find_in
nothing_found = refl

nothing_out : take_out aid_x [] ≡ none
unfolding take_out
nothing_out = refl

run_read_requests-close_example :
    (b : Block) × (c' : Cache) × (run_read_requests toy
        (close toy filled_cache empty_host).0
        (request ∷ [])
        (close toy filled_cache empty_host).1
      ≡ some
          (record { readrequest = request; rresult = some (record { pimpl = some b }) } ∷ [], c'))
    × (b.len ≡ 3)
    × (slice b.byte 0 3 ≡ slice three_bytes.byte 0 3)
run_read_requests-close_example =
    run_read_requests-close toy toy-IsGcm filled_cache (writer filled_assembly) finalised.1
      filled_assembly filled_memory three_bytes (record { entries = [] }) key_0 0 request empty_host
      finalised.2 filled-IsWritable roomy still_readable refl refl refl refl refl nothing_found
      nothing_out finalised_eq request-IsStored

abbrev pub write_request : WriteQueueEntity
write_request = record {
  fhash = 7 ∷ [];
  fpos = 0;
  buffer = some (record { pimpl = some three_bytes });
}

pub writing-CanWrite :
    CanWrite (writing_cache none) (record { entries = [] }) (record { entries = [] })
writing-CanWrite = record {
  n_min = omega arith;
  n_max = omega arith;
  keys = refl;
  blocks = refl;
  env = inl refl;
}

run_write_request-Written_example :
    Written toy
      (writing_cache none)
      (record { entries = [] })
      (record { entries = [] })
      write_request
      three_bytes
      empty_host
      (run_write_request toy (writing_cache none) write_request empty_host)
run_write_request-Written_example =
    run_write_request-Written toy (writing_cache none) (record { entries = [] })
      (record { entries = [] }) write_request three_bytes writing-CanWrite refl (omega arith)
      (omega arith) empty_host (omega arith)

run_write_requests-Ran_example :
    Ran toy
      (writing_cache none)
      (record { entries = [] })
      (record { entries = [] })
      (write_request ∷ write_request ∷ [])
      (run_write_requests toy (writing_cache none) (write_request ∷ write_request ∷ []) empty_host)
run_write_requests-Ran_example =
    run_write_requests-Ran toy (write_request ∷ write_request ∷ []) (writing_cache none)
      (record { entries = [] }) (record { entries = [] }) empty_host writing-CanWrite
      (
        inr (three_bytes, refl, omega arith, omega arith),
        (inr (three_bytes, refl, omega arith, omega arith), tt),
      )

run_write_request-close_example :
    run_write_request toy (close toy filled_cache empty_host).0 write_request empty_host
    ≡ some (
      record (close toy filled_cache empty_host).0 {
        stats = record (close toy filled_cache empty_host).0.stats {
          backup_bytes = add64 (close toy filled_cache empty_host).0.stats.backup_bytes 3;
        };
      },
      empty_host,
    )
run_write_request-close_example =
    run_write_request-close toy filled_cache (writer filled_assembly) empty_host empty_host
      write_request (record { pimpl = some three_bytes }) refl refl

backup-Placed_example :
    (kis : List AidKey) × Placed toy (writer empty_assembly) (7 ∷ []) 0 three_bytes 3 kis (
      backup toy
        (writer empty_assembly)
        (7 ∷ [])
        0
        (record { pimpl = some three_bytes })
        3
        empty_host)
    × Room toy (writer empty_assembly) empty_assembly empty_host 3 kis
backup-Placed_example =
    backup-Placed toy (7 ∷ []) 0 three_bytes 3 (omega arith) (omega arith) (omega arith)
      (writer empty_assembly) empty_host empty_assembly empty_memory empty-IsReady (omega arith)

abbrev huge : Block
huge = record { len = 5000000; byte = λ i. i % 256 }

backup-too_big_example :
    (e' : EnvironmentWritable) × (w' : World) × (a' : Assembly writable) × (t' : Block) × (backup
        toy
        (writer empty_assembly)
        (7 ∷ [])
        0
        (record { pimpl = some huge })
        5000000
        empty_host
      ≡ some (([], key_list (finalise_assembly toy (writer empty_assembly) empty_host).0), e', w'))
    × IsReady e' a' t'
backup-too_big_example =
    backup-too_big toy (7 ∷ []) 0 huge 5000000 (omega arith) (omega arith) (omega arith)
      (writer empty_assembly) empty_host empty_assembly empty_memory empty-IsReady (omega arith)

finalise_assembly-Counted_example :
    Counted
      (writer filled_assembly)
      filled_assembly
      (finalise_assembly toy (writer filled_assembly) empty_host)
finalise_assembly-Counted_example =
    finalise_assembly-Counted toy (writer filled_assembly) filled_assembly empty_host refl
      (omega arith)
