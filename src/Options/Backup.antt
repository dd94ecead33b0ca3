-- ===== src/Options/Backup.antt =====
-- src/cpp/cli/lxrbackup.cpp: its options, and the configuration that is made of them.
use elykseer_cpp.Base.{ℕ, Bool, true, false, Option, none, some, List, [], ◌∷◌, if◌then◌else◌, pos}
use elykseer_cpp.Nchunks.{nchunks}
use elykseer_cpp.Assembly.{Configuration}
use elykseer_cpp.Store.{FInfoStore}
use elykseer_cpp.Store.Reading.{PropertyTree, Files, read_files_document}
use elykseer_cpp.FileControl.{FileSystem, Identity, file_exists, dir_exists}
use elykseer_cpp.Options.{
  Running, running, exits, set_n_chunks, set_myid, checked_path, add_entry, or_error, path_of,
}

abbrev pub max_backup_files : ℕ
max_backup_files = 8192

abbrev pub max_backup_dirs : ℕ
max_backup_dirs = 128

-- The variables that the options set.
pub record BackupSettings : Type 0 where
  pub dry_run : Bool
  pub verbose_out : Bool
  pub use_gpg : Bool
  pub n_chunks : ℕ
  pub myid : Option (List ℕ)
  pub okey : Option (List ℕ)
  pub metapath : Option (List ℕ)
  pub chunkpath : Option (List ℕ)
  pub list_files : List (List ℕ)
  pub list_dir1 : List (List ℕ)
  pub list_dir : List (List ℕ)
  pub finfostore : FInfoStore

abbrev pub initial_backup : BackupSettings
initial_backup = record {
  dry_run = false;
  verbose_out = false;
  use_gpg = true;
  n_chunks = 16;
  myid = none;
  okey = none;
  metapath = none;
  chunkpath = none;
  list_files = [];
  list_dir1 = [];
  list_dir = [];
  finfostore = record { entries = [] };
}

-- The options; `prints` stands for those that only print, and for unknown ones.
pub data BackupOption : Type 0 where
  dry_run verbose nogpg prints : BackupOption
  chunk_path meta_path ref_dbfi backup_file backup_dir1 backup_dir_rec : List ℕ → BackupOption
  n_chunks myid ownerkey : List ℕ → BackupOption

-- The file system, the keyring, the content of a file, decrypted or as it is, and the parser.
module _ (fs : FileSystem) (i : Identity) (has_public_key : List ℕ → Bool)
    (content : Bool → List ℕ → List ℕ) (pt : PropertyTree) (fromHex : List ℕ → List ℕ) where
  unfoldable pub add_ref_dbfi : Bool → FInfoStore → List ℕ → Option FInfoStore
  add_ref_dbfi use_gpg store p =
      if file_exists fs p
      then (let r = read_files_document pt fromHex (content use_gpg p) (some store) none in
          if Files.ok r then Files.finfostore r else none)
      else none

  -- One round of the loop over the options.
  unfoldable pub take_backup_option : BackupSettings → BackupOption → Running BackupSettings
  unfolding set_n_chunks set_myid add_entry add_ref_dbfi
  take_backup_option s dry_run = running (record s { dry_run = true })
  take_backup_option s verbose = running (record s { verbose_out = true })
  take_backup_option s nogpg = running (record s { use_gpg = false })
  take_backup_option s prints = running s
  take_backup_option s (chunk_path p) =
      or_error (checked_path (dir_exists fs i) p) (λ q. record s { chunkpath = some q })
  take_backup_option s (meta_path p) =
      or_error (checked_path (dir_exists fs i) p) (λ q. record s { metapath = some q })
  take_backup_option s (ref_dbfi p) =
      or_error (add_ref_dbfi s.use_gpg s.finfostore p) (λ st. record s { finfostore = st })
  take_backup_option s (backup_file p) =
      or_error (add_entry max_backup_files (file_exists fs) s.list_files p)
        (λ l. record s { list_files = l })
  take_backup_option s (backup_dir1 p) =
      or_error (add_entry max_backup_dirs (dir_exists fs i) s.list_dir1 p)
        (λ l. record s { list_dir1 = l })
  take_backup_option s (backup_dir_rec p) =
      or_error (add_entry max_backup_dirs (dir_exists fs i) s.list_dir p)
        (λ l. record s { list_dir = l })
  take_backup_option s (n_chunks p) = or_error (set_n_chunks p) (λ n. record s { n_chunks = n })
  take_backup_option s (myid p) = or_error (set_myid p) (λ id. record s { myid = some id })
  take_backup_option s (ownerkey p) =
      or_error (checked_path has_public_key p) (λ k. record s { okey = some k })

  -- The loop over the options.
  unfoldable pub backup_options : List BackupOption → BackupSettings → Running BackupSettings
  unfolding take_backup_option
  backup_options [] s = running s
  backup_options (o ∷ os) s = elim (take_backup_option s o) [
    | exits n ↦ exits n
    | running s' ↦ backup_options os s'
  ]

-- The check of the arguments, and the configuration with the owner's key.
unfoldable pub backup_configuration : BackupSettings → Running (Configuration × List ℕ)
unfolding path_of
backup_configuration s = elim s.myid [
  | none ↦ exits 1
  | some id ↦ elim s.okey [
    | none ↦ exits 1
    | some key ↦ elim s.metapath [
      | none ↦ exits 1
      | some meta ↦ elim s.chunkpath [
        | none ↦ exits 1
        | some chunks ↦ running (
          record {
            path_chunks = path_of chunks;
            path_db = path_of meta;
            my_id = id;
            nchunks = nchunks (pos s.n_chunks);
          },
          key,
        )
      ]
    ]
  ]
]
