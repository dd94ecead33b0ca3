-- ===== src/Tests/Backups.antt =====
-- The theorems on lxrbackup: its options, and a backup of one file.
use elykseer_cpp.Base.{
  ◌≡◌, refl, Bool, true, false, Option, none, some, List, [], ◌∷◌, ℕ, arith, codes, str_eq, slice,
  to_string, decimal,
}
use elykseer_cpp.Host.{World}
use elykseer_cpp.Assembly.{Configuration}
use elykseer_cpp.Nchunks.{nchunks}
use elykseer_cpp.FileControl.{FileSystem, file_exists, dir_exists}
use elykseer_cpp.Store.{xml_escape, find, find_in, add_block, add, add_info, contains, add_key}
use elykseer_cpp.Store.Reading.{PropertyTree}
use elykseer_cpp.Cache.{create, register_key_store, register_fblock_store, register_finfo_store}
use elykseer_cpp.Options.{running}
use elykseer_cpp.Options.Backup.{
  BackupSettings, initial_backup, BackupOption, chunk_path, meta_path, backup_file, n_chunks, myid,
  ownerkey, backup_options, backup_configuration,
}
use elykseer_cpp.Options.Configured.{IsConfigured, backup_configuration-IsConfigured}
use elykseer_cpp.Store.Xml.{node, nil}
use elykseer_cpp.RunBackup.{Gpg, run_backup}
use elykseer_cpp.RunBackup.Exit.{IsSaved, run_backup-IsSaved}
use elykseer_cpp.Processor.{file_backup}
use elykseer_cpp.Cache.Write.{enqueue_write_request, iterate_write_queue}
use elykseer_cpp.Environment.{recreate_assembly, backup, finalise_assembly, seal_assembly, new_key}
use elykseer_cpp.Assembly.{idx2apos, chunk_identifier, mk_aid}
use elykseer_cpp.Assembly.Writable
use elykseer_cpp.Assembly.Writable.{create_writable, finish}
use elykseer_cpp.Assembly.Full
use elykseer_cpp.Assembly.Chunks
use elykseer_cpp.Assembly.Chunks.{extract, extract_loop, extract_chunk, write_chunk}
use elykseer_cpp.Cipher
use elykseer_cpp.Cipher.{encrypt_buffer, handed_over, too_short, write_tag, crypt_loop}
use elykseer_cpp.Buffer.{
  create_from, alloc_from, alloc, calc_checksum, at, set_at, fileout_sz_pos, fileout_pimpl,
  past_end,
}
use elykseer_cpp.Host.{fread, fwrite, path_eq}
use elykseer_cpp.Nchunks.{sequence, sequence_from}
use elykseer_cpp.Tests.{toy, config_16, empty_host}
use elykseer_cpp.Tests.FileBackup.{one_file}
use elykseer_cpp.Tests.Metadata.{node_trees, origin, plain_hex}
use elykseer_cpp.Tests.Walks.{ours, two_directories}

-- A file system where every path is a directory that is ours.
abbrev directories : FileSystem
directories = record {
  status = λ p.
      some (record {
        exists = true;
        is_regular_file = false;
        is_directory = true;
        is_symlink = false;
      });
  stat = λ p. some (record { st_uid = 1000; st_gid = 100; st_mode = 448 });
  file_size = λ p. none;
  last_write_time = λ p. none;
  directory = λ p. none;
}

abbrev any_key : List ℕ → Bool
any_key k = true

abbrev no_content : Bool → List ℕ → List ℕ
no_content gpg p = []

abbrev no_trees : PropertyTree
no_trees = node_trees (node false [] [] [] nil)

abbrev options : List BackupOption
options =
    chunk_path (codes "/c")
    ∷ meta_path (codes "m")
    ∷ n_chunks (codes " 32 chunks")
    ∷ myid (codes "123456")
    ∷ ownerkey (codes "K")
    ∷ backup_file (codes "f")
    ∷ []

abbrev settings : BackupSettings
settings = record initial_backup {
  n_chunks = 32;
  myid = some (codes "123456");
  okey = some (codes "K");
  metapath = some (codes "m");
  chunkpath = some (codes "/c");
  list_files = codes "f" ∷ [];
}

abbrev configuration : Configuration
configuration = record {
  path_chunks = codes "/" ∷ codes "c" ∷ [];
  path_db = codes "m" ∷ [];
  my_id = codes "123456";
  nchunks = 32;
}

options_taken :
    backup_options directories ours any_key no_content no_trees plain_hex options initial_backup
    ≡ running settings
unfolding backup_options dir_exists file_exists
options_taken = refl

configured : backup_configuration settings ≡ running (configuration, codes "K")
unfolding backup_configuration nchunks
configured = refl

backup_configuration-IsConfigured_example :
    IsConfigured directories ours any_key no_content no_trees plain_hex settings configuration
      (codes "K")
backup_configuration-IsConfigured_example =
    backup_configuration-IsConfigured directories ours any_key no_content no_trees plain_hex options
      settings configuration (codes "K") options_taken configured

abbrev gpg : Gpg
gpg = record { has_public_key = any_key; encrypt_to_key = λ doc key. some doc }

-- A backup of one file.
abbrev of_one_file : BackupSettings
of_one_file = record initial_backup { list_files = codes "f" ∷ [] }

abbrev ran : Option (ℕ × World)
ran =
    run_backup toy one_file two_directories gpg origin config_16 (codes "K") 1 of_one_file
      empty_host

abbrev code_of : Option (ℕ × World) → Option ℕ
code_of r = elim r [ none ↦ none | some (n, w) ↦ some n ]

exit_world : (r : Option (ℕ × World)) → code_of r ≡ some 0 → (w' : World) × (r ≡ some (0, w'))
exit_world none h = absurd (cc)
exit_world (some (n, w)) h = (w, ground arith)

ran_code : code_of ran ≡ some 0
unfolding run_backup create register_key_store register_fblock_store register_finfo_store str_eq
    xml_escape file_backup find find_in enqueue_write_request iterate_write_queue recreate_assembly
    create_writable backup create_from alloc_from alloc fread Writable.backup calc_checksum at
    set_at idx2apos finalise_assembly seal_assembly new_key Full.encrypt finish Cipher.encrypt
    encrypt_buffer handed_over too_short write_tag crypt_loop slice extract extract_loop
    extract_chunk sequence sequence_from Chunks.chunk_path chunk_identifier write_chunk
    fileout_sz_pos fileout_pimpl past_end fwrite to_string decimal path_eq mk_aid add_block add
    add_info contains add_key
ran_code = refl

ran_world : (w' : World) × (ran ≡ some (0, w'))
ran_world = exit_world ran ran_code

run_backup-IsSaved_example :
    IsSaved toy one_file two_directories gpg origin config_16
      (codes "K")
      1
      of_one_file
      empty_host
      ran_world.0
run_backup-IsSaved_example =
    run_backup-IsSaved toy one_file two_directories gpg origin config_16 (codes "K") 1 of_one_file
      empty_host ran_world.0 refl ran_world.1
