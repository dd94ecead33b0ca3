-- ===== src/Tests/Programs.antt =====
-- The theorems on the programs lxrrestore and lxrverify, at a file of three bytes that is in a
-- restored assembly.
use elykseer_cpp.Base.{
  ◌≡◌, refl, sym, subst, Bool-cases, inl, inr, Bool, true, false, Option, none, some, List, [], ◌∷◌,
  ℕ, ◌^◌, arith, codes, str_eq, slice,
}
use elykseer_cpp.Host.{World, FilePath, fwrite, path_eq}
use elykseer_cpp.Buffer.{at, set_at, calc_checksum, fileout_sz_pos}
use elykseer_cpp.Assembly.{BlockInformation, Assembly, full, idx2apos}
use elykseer_cpp.Assembly.Full.{restore}
use elykseer_cpp.Store.{FBlockStore, find, find_in, contains, contains_in}
use elykseer_cpp.Cache.{Cache, create as create_cache}
use elykseer_cpp.Cache.Read.{enqueue_read_request, iterate_read_queue, ensure_assembly}
use elykseer_cpp.Processor.{file_hash}
use elykseer_cpp.Restore.{
  Restoring, contained_target, run_restore, restore_target, blocks_loop, read_request,
}
use elykseer_cpp.Restore.Requests.{All}
use elykseer_cpp.Restore.Contained.{IsContained, contained_target-IsContained}
use elykseer_cpp.Restore.Loop.{CanAsk}
use elykseer_cpp.Restore.Kept.{Outcome, restore_target-Outcome}
use elykseer_cpp.Restore.Exit.{Extends, IsDone, IsSequential, AllSequential, run_restore-IsDone}
use elykseer_cpp.Cache.Returns.{IsReadable}
use elykseer_cpp.Restore.Returns.{run_restore_ends}
use elykseer_cpp.Verify.{verify_loop}
use elykseer_cpp.Verify.Same.{counts, counts_of, verify_loop-blocks_loop}
use elykseer_cpp.Tests.{toy, config_16, empty_host, aid_x, filled_memory}

-- A file system without links: a path resolves to itself.
abbrev resolves : FilePath → Option FilePath
resolves p = some p

abbrev closes : FilePath → Bool
closes p = true

abbrev output_dir : FilePath
output_dir = codes "out" ∷ []

target_f : contained_target resolves output_dir (codes "/./f") ≡ some (codes "out" ∷ codes "f" ∷ [])
unfolding contained_target str_eq
target_f = refl

contained_target-IsContained_example :
    IsContained resolves output_dir (codes "/./f") (codes "out" ∷ codes "f" ∷ [])
contained_target-IsContained_example =
    contained_target-IsContained resolves output_dir (codes "/./f") (codes "out" ∷ codes "f" ∷ [])
      target_f

outside_f : contained_target resolves output_dir (codes "../f") ≡ none
unfolding contained_target str_eq
outside_f = refl

abbrev full_assembly : Assembly full
full_assembly = record {
  config = config_16;
  info = record { nchunks = 16; apos = 3; aid = aid_x };
  buffer = some (record { pimpl = some filled_memory });
}

-- A cache that has restored the assembly.
abbrev reading_cache : Cache
reading_cache = record (create_cache config_16 3 12) {
  readenvs = record { config = config_16; assembly = some full_assembly } ∷ [];
  n_queuesz = 12;
  readqueue = [];
}

reading-CanAsk : CanAsk reading_cache
unfolding create_cache
reading-CanAsk = record { queue_empty = refl; depth_pos = omega arith }

abbrev block_f : BlockInformation
block_f = record {
  blockid = 1;
  bchecksum = some (1 ∷ 2 ∷ 3 ∷ []);
  blocksize = 3;
  filepos = 0;
  blockaid = aid_x;
  blockapos = 0;
}

restore_target-Outcome_example :
    Outcome toy (block_f ∷ []) (codes "out" ∷ codes "f" ∷ []) empty_host (
      restore_target toy resolves closes reading_cache
        (block_f ∷ [])
        (codes "out" ∷ codes "f" ∷ [])
        empty_host)
unfolding read_request
restore_target-Outcome_example =
    restore_target-Outcome toy closes resolves (block_f ∷ []) (codes "out" ∷ codes "f" ∷ [])
      empty_host reading_cache reading-CanAsk (omega arith, tt) (omega arith) (omega arith)

abbrev nothing_yet : Restoring
nothing_yet = record {
  tgt = record { content = record { len = 0; byte = λ _. 0 }; offset = 0; room = 2 ^ 30 };
  n_expected = 0;
  n_restored = 0;
  n_blocks = 0;
  n_blocks_ok = 0;
}

verify_loop-blocks_loop_example :
    verify_loop toy (block_f ∷ []) reading_cache empty_host (counts nothing_yet)
    ≡ counts_of (blocks_loop toy (block_f ∷ []) reading_cache empty_host nothing_yet)
verify_loop-blocks_loop_example =
    verify_loop-blocks_loop toy (block_f ∷ []) empty_host reading_cache nothing_yet

abbrev known_files : FBlockStore
known_files = record { entries = (file_hash toy (codes "f") [], block_f ∷ []) ∷ [] }

abbrev restored_f : Option (ℕ × World)
restored_f =
    run_restore toy resolves closes false reading_cache known_files config_16 output_dir
      (codes "f" ∷ []) empty_host

abbrev code_of : Option (ℕ × World) → Option ℕ
code_of r = elim r [ none ↦ none | some (n, w) ↦ some n ]

exit_world : (r : Option (ℕ × World)) → code_of r ≡ some 0 → (w' : World) × (r ≡ some (0, w'))
exit_world none h = absurd (cc)
exit_world (some (n, w)) h = (w, ground arith)

restored_code : code_of restored_f ≡ some 0
unfolding run_restore find find_in contains contains_in file_hash str_eq enqueue_read_request
    iterate_read_queue ensure_assembly create_cache restore slice idx2apos fileout_sz_pos fwrite
    path_eq at set_at calc_checksum
restored_code = refl

block-IsSequential :
    (bis : List BlockInformation)
    → bis ≡ block_f ∷ []
    → IsSequential toy resolves closes known_files config_16 output_dir empty_host bis
unfolding read_request
block-IsSequential bis e =
    subst (IsSequential toy resolves closes known_files config_16 output_dir empty_host) (sym e)
      (record { ascending = (omega arith, tt); few = omega arith; fits = λ fp. omega arith })

known-AllSequential : AllSequential toy resolves closes known_files config_16 output_dir empty_host
unfolding find find_in
known-AllSequential k bis h = elim (Bool-cases (str_eq k (file_hash toy (codes "f") []))) [
  | inl e ↦ let only : some (block_f ∷ []) ≡ some bis = rw e at h in block-IsSequential bis (cc)
  | inr e ↦ let absent : none ≡ some bis = rw e at h in cc
]

restored_world : (w' : World) × (restored_f ≡ some (0, w'))
restored_world = exit_world restored_f restored_code

run_restore-IsDone_example :
    All
      (IsDone toy resolves closes known_files config_16 output_dir restored_world.0)
      (codes "f" ∷ [])
    × Extends empty_host restored_world.0
run_restore-IsDone_example =
    run_restore-IsDone toy resolves closes known_files config_16 output_dir (codes "f" ∷ [])
      reading_cache empty_host restored_world.0 reading-CanAsk known-AllSequential restored_world.1

reading-IsReadable : IsReadable toy reading_cache
unfolding create_cache
reading-IsReadable = record {
  n_pos = omega arith;
  n_max = omega arith;
  envs = (
    record {
      src = filled_memory;
      held = refl;
      n_pos = omega arith;
      n_max = omega arith;
      len_is = refl;
    },
    tt,
  );
}

run_restore_ends_example : (n : ℕ) × (w' : World) × (restored_f ≡ some (n, w'))
run_restore_ends_example =
    run_restore_ends toy resolves closes false reading_cache known_files config_16 output_dir
      (codes "f" ∷ []) empty_host reading-IsReadable (λ p. refl)
