-- ===== src/RunBackup.antt =====
-- src/cpp/cli/lxrbackup.cpp from the checked arguments to the exit code, and encrypted_output of
-- src/cpp/coqstore.cpp. GnuPG and what is known of the program and the host are parameters; an
-- exception, which ends the program, is `none`. The messages and statistics are left out. The
-- destructor of the processor, which closes the cache once more, is Processor.destroy.
pub mod Output
pub mod Closed
pub mod Exit
use elykseer_cpp.Base.{
  ℕ, Bool, true, false, ◌&&◌, Option, none, some, List, [], ◌∷◌, ◌++◌, ltb, leb, if◌then◌else◌,
  str_eq, codes, length, min, Block, of_list,
}
use elykseer_cpp.Host.{World, FilePath, put_file}
use elykseer_cpp.Cipher.{Crypto}
use elykseer_cpp.Assembly.{Configuration}
use elykseer_cpp.Store.{FInfoStore}
use elykseer_cpp.Store.Documents.{Origin, write_keys, write_files_document}
use elykseer_cpp.Cache.{
  Cache, create, register_key_store, register_fblock_store, register_finfo_store,
}
use elykseer_cpp.Cache.Write.{close}
use elykseer_cpp.Cache.Metrics.{Metric, MetricValue, big, small, text, metrics}
use elykseer_cpp.Processor.{Files}
use elykseer_cpp.Processor.Walk.{
  Directories, backup_all, directory_backup, backup_dirs, recursive_backup,
}
use elykseer_cpp.Options.Backup.{BackupSettings}

pub record Gpg : Type 0 where
  pub has_public_key : List ℕ → Bool
  pub encrypt_to_key : List ℕ → List ℕ → Option (List ℕ)

-- What an output stream leaves in a file: all of the text, or as much as the device takes.
unfoldable pub output_file : FilePath → List ℕ → World → Bool × World
output_file fp s w =
    if w.write_ok fp
    then (
      leb (length s) (w.room fp),
      put_file w fp (record { len = min (length s) (w.room fp); byte = of_list s }),
    )
    else (false, w)

-- encrypted_output, for the text that outStream gives.
unfoldable pub encrypted_output : Gpg → List ℕ → FilePath → List ℕ → World → Bool × World
unfolding output_file
encrypted_output gpg document fp recipient w =
    if gpg.has_public_key recipient
    then elim (gpg.encrypt_to_key document recipient) [
      | none ↦ (false, w)
      | some enc ↦ output_file fp enc w
    ]
    else (false, w)

-- "LXRbackup-" + timestamp + ending
abbrev pub document_name : Origin → List ℕ → List ℕ
document_name o ending = codes "LXRbackup-" ++ o.timestamp ++ ending

-- The loop over the metrics for n_assembly_failed, with `ok` so far.
unfoldable pub none_failed : List Metric → Bool → Bool
none_failed [] ok = ok
none_failed ((name, value) ∷ ms) ok = none_failed ms (
    if str_eq name (codes "n_assembly_failed")
    then elim value [ small n ↦ if ltb 0 n then false else ok | big n ↦ ok | text s ↦ ok ]
    else ok)

module _ (cr : Crypto) (fs : Files) (ds : Directories) (gpg : Gpg) (o : Origin)
    (config : Configuration) (key : List ℕ) where
  -- The cache with the stores; the store of file information has the references.
  unfoldable pub start_cache : FInfoStore → Cache
  start_cache finfostore =
      register_finfo_store
        (register_fblock_store (register_key_store (create config 1 12) (record { entries = [] }))
          (record { entries = [] }))
        finfostore

  -- The loops over the directories and the files, and close.
  unfoldable pub backup_everything : ℕ → BackupSettings → Cache → World → Option (Cache × World)
  unfolding directory_backup backup_dirs recursive_backup backup_all close
  backup_everything depth s c w =
      elim (backup_dirs cr fs ds config (directory_backup cr fs ds config) s.list_dir1 c w) [
        | none ↦ none
        | some (c1, w1) ↦
            elim (backup_dirs cr fs ds config (recursive_backup cr fs ds config depth) s.list_dir c1
              w1) [
                | none ↦ none
                | some (c2, w2) ↦ elim (backup_all cr fs ds config s.list_files c2 w2) [
                  | none ↦ none
                  | some (c3, w3) ↦ some (close cr c3 w3)
                ]
              ]
      ]

  -- The two documents and the exit code; a store that is not there is a null pointer.
  unfoldable pub write_documents : Cache → World → Option (ℕ × World)
  unfolding encrypted_output write_keys write_files_document none_failed metrics
  write_documents c w = elim c.keystore [
    | none ↦ none
    | some ks ↦
        let (ok1, w1) =
          encrypted_output gpg (write_keys cr.to_hex o ks)
            (config.path_db ++ document_name o (codes "-dbks.xml") ∷ []) key w in
        elim (write_files_document cr.to_hex o c.finfostore c.fblockstore) [
          -- the text is only made for a key that is known
          | none ↦
              if gpg.has_public_key key
              then none
              else some (if none_failed (metrics c) (ok1 && false) then 0 else 1, w1)
          | some files ↦
              let (ok2, w2) =
                encrypted_output gpg files
                  (config.path_db ++ document_name o (codes "-files.xml") ∷ []) key w1 in
              some (if none_failed (metrics c) (ok1 && ok2) then 0 else 1, w2)
        ]
  ]

  -- With `--dry-run` nothing is done.
  unfoldable pub run_backup : ℕ → BackupSettings → World → Option (ℕ × World)
  unfolding start_cache backup_everything write_documents
  run_backup depth s w =
      if s.dry_run
      then some (0, w)
      else elim (backup_everything depth s (start_cache s.finfostore) w) [
        | none ↦ none
        | some (c, w') ↦ write_documents c w'
      ]
