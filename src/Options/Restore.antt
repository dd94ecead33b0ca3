-- ===== src/Options/Restore.antt =====
-- src/cpp/cli/lxrrestore.cpp and lxrverify.cpp: their options, and the configuration that is made of
-- them.
use elykseer_cpp.Base.{
  ℕ, Bool, true, false, Option, none, some, List, [], ◌∷◌, ltb, if◌then◌else◌, pos,
}
use elykseer_cpp.Nchunks.{nchunks}
use elykseer_cpp.Host.{FilePath}
use elykseer_cpp.Assembly.{Configuration}
use elykseer_cpp.Store.{KeyStore, FBlockStore}
use elykseer_cpp.Store.Reading.{PropertyTree, Files, read_files_document, read_keys}
use elykseer_cpp.FileControl.{FileSystem, Identity, file_exists, dir_exists}
use elykseer_cpp.Options.{
  Running, running, exits, set_n_chunks, set_myid, checked_path, add_entry, or_error, path_of,
}

abbrev pub max_restore_files : ℕ
max_restore_files = 8192

-- The variables that the options set; lxrverify has no output path and no number of chunks to set.
pub record RestoreSettings : Type 0 where
  pub dry_run : Bool
  pub verbose_out : Bool
  pub use_gpg : Bool
  pub n_chunks : ℕ
  pub myid : Option (List ℕ)
  pub outputpath : Option (List ℕ)
  pub chunkpath : Option (List ℕ)
  pub list_files : List (List ℕ)
  pub keystore : KeyStore
  pub fblockstore : FBlockStore

abbrev pub initial_restore : RestoreSettings
initial_restore = record {
  dry_run = false;
  verbose_out = false;
  use_gpg = true;
  n_chunks = 16;
  myid = none;
  outputpath = none;
  chunkpath = none;
  list_files = [];
  keystore = record { entries = [] };
  fblockstore = record { entries = [] };
}

-- The options; `help` and unknown ones change nothing, and `shows` stands for those that print and
-- then exit with 0.
pub data RestoreOption : Type 0 where
  dry_run verbose nogpg help shows : RestoreOption
  chunk_path output_path dbfb_path dbkey_path restore_file n_chunks myid : List ℕ → RestoreOption

-- The options of lxrverify; those that print change nothing.
pub data VerifyOption : Type 0 where
  dry_run verbose nogpg prints : VerifyOption
  chunk_path dbfb_path dbkey_path restore_file myid : List ℕ → VerifyOption

module _ (fs : FileSystem) (i : Identity) (content : Bool → List ℕ → List ℕ) (pt : PropertyTree)
    (fromHex : List ℕ → List ℕ) where
  unfoldable pub add_dbfb_path : Bool → FBlockStore → List ℕ → Option FBlockStore
  add_dbfb_path use_gpg db p =
      if file_exists fs p
      then (let r = read_files_document pt fromHex (content use_gpg p) none (some db) in
          if Files.ok r then Files.fblockstore r else none)
      else none

  unfoldable pub add_dbkey_path : Bool → KeyStore → List ℕ → Option KeyStore
  add_dbkey_path use_gpg db p =
      if file_exists fs p
      then (let (ok, db') = read_keys pt fromHex (content use_gpg p) db in
          if ok then some db' else none)
      else none

  -- One round of the loop over the options of lxrrestore.
  unfoldable pub take_restore_option : RestoreSettings → RestoreOption → Running RestoreSettings
  unfolding set_n_chunks set_myid add_entry add_dbfb_path add_dbkey_path
  take_restore_option s dry_run = running (record s { dry_run = true })
  take_restore_option s verbose = running (record s { verbose_out = true })
  take_restore_option s nogpg = running (record s { use_gpg = false })
  take_restore_option s help = running s
  take_restore_option s shows = exits 0
  take_restore_option s (chunk_path p) =
      or_error (checked_path (dir_exists fs i) p) (λ q. record s { chunkpath = some q })
  take_restore_option s (output_path p) =
      or_error (checked_path (dir_exists fs i) p) (λ q. record s { outputpath = some q })
  take_restore_option s (dbfb_path p) =
      or_error (add_dbfb_path s.use_gpg s.fblockstore p) (λ db. record s { fblockstore = db })
  take_restore_option s (dbkey_path p) =
      or_error (add_dbkey_path s.use_gpg s.keystore p) (λ db. record s { keystore = db })
  take_restore_option s (restore_file p) =
      or_error (add_entry max_restore_files (λ q. true) s.list_files p)
        (λ l. record s { list_files = l })
  take_restore_option s (n_chunks p) = or_error (set_n_chunks p) (λ n. record s { n_chunks = n })
  take_restore_option s (myid p) = or_error (set_myid p) (λ id. record s { myid = some id })

  unfoldable pub restore_options : List RestoreOption → RestoreSettings → Running RestoreSettings
  unfolding take_restore_option
  restore_options [] s = running s
  restore_options (o ∷ os) s = elim (take_restore_option s o) [
    | exits n ↦ exits n
    | running s' ↦ restore_options os s'
  ]

  -- One round of the loop over the options of lxrverify.
  unfoldable pub take_verify_option : RestoreSettings → VerifyOption → Running RestoreSettings
  unfolding set_myid add_entry add_dbfb_path add_dbkey_path
  take_verify_option s dry_run = running (record s { dry_run = true })
  take_verify_option s verbose = running (record s { verbose_out = true })
  take_verify_option s nogpg = running (record s { use_gpg = false })
  take_verify_option s prints = running s
  take_verify_option s (chunk_path p) =
      or_error (checked_path (dir_exists fs i) p) (λ q. record s { chunkpath = some q })
  take_verify_option s (dbfb_path p) =
      or_error (add_dbfb_path s.use_gpg s.fblockstore p) (λ db. record s { fblockstore = db })
  take_verify_option s (dbkey_path p) =
      or_error (add_dbkey_path s.use_gpg s.keystore p) (λ db. record s { keystore = db })
  take_verify_option s (restore_file p) =
      or_error (add_entry max_restore_files (λ q. true) s.list_files p)
        (λ l. record s { list_files = l })
  take_verify_option s (myid p) = or_error (set_myid p) (λ id. record s { myid = some id })

  unfoldable pub verify_options : List VerifyOption → RestoreSettings → Running RestoreSettings
  unfolding take_verify_option
  verify_options [] s = running s
  verify_options (o ∷ os) s = elim (take_verify_option s o) [
    | exits n ↦ exits n
    | running s' ↦ verify_options os s'
  ]

-- The check of the arguments of lxrrestore, where `optind` counts the arguments up to the first that
-- is none of an option, and the configuration with the output path.
unfoldable pub restore_configuration : ℕ → RestoreSettings → Running (Configuration × FilePath)
unfolding path_of
restore_configuration optind s = if ltb optind 2 then exits 1 else elim s.myid [
  | none ↦ exits 1
  | some id ↦ elim s.outputpath [
    | none ↦ exits 1
    | some output ↦ elim s.chunkpath [
      | none ↦ exits 1
      | some chunks ↦ running (
        record {
          path_chunks = path_of chunks;
          path_db = [];
          my_id = id;
          nchunks = nchunks (pos s.n_chunks);
        },
        path_of output,
      )
    ]
  ]
]

-- The same of lxrverify.
unfoldable pub verify_configuration : ℕ → RestoreSettings → Running Configuration
unfolding path_of
verify_configuration optind s = if ltb optind 2 then exits 1 else elim s.myid [
  | none ↦ exits 1
  | some id ↦ elim s.chunkpath [
    | none ↦ exits 1
    | some chunks ↦ running (record {
      path_chunks = path_of chunks;
      path_db = [];
      my_id = id;
      nchunks = nchunks (pos s.n_chunks);
    })
  ]
]
