-- ===== src/RunBackup/Exit.antt =====
-- The exit code of lxrbackup: what is on the disk when it is 0.
use elykseer_cpp.Base.{
  ℕ, ◌≡◌, refl, sym, ◌∙◌, subst, Bool, true, false, ◌&&◌, Option, none, some, List, [], ◌∷◌, ◌++◌,
  arith, ltb, if◌then◌else◌, codes, Option-cases, inl, inr, ◌⊎◌, ◌<◌, add32,
}
use elykseer_cpp.Host.{World, FilePath, path_eq}
use elykseer_cpp.Cipher.{Crypto}
use elykseer_cpp.Assembly.{Assembly, writable, Configuration, KeyInformation, header_len}
use elykseer_cpp.Environment.{EnvironmentWritable}
use elykseer_cpp.Store.{KeyStore, find}
use elykseer_cpp.Store.Documents.{Origin, write_keys, write_files_document}
use elykseer_cpp.Cache.{Cache}
use elykseer_cpp.Cache.Write.{close}
use elykseer_cpp.Cache.Metrics.{metrics}
use elykseer_cpp.Processor.{Files}
use elykseer_cpp.Processor.Walk.{
  Directories, backup_all, directory_backup, backup_dirs, recursive_backup,
}
use elykseer_cpp.Options.Backup.{BackupSettings}
use elykseer_cpp.RunBackup.Closed.{close-no_assembly, close-stored}
use elykseer_cpp.RunBackup.{
  Gpg, encrypted_output, document_name, none_failed, start_cache, backup_everything,
  write_documents, run_backup,
}
use elykseer_cpp.RunBackup.Output.{
  IsWrittenTo, Written, encrypted_output-Written, failed_assemblies, none_failed-metrics,
  path_eq_last, endings_differ,
}

module _ (cr : Crypto) (fs : Files) (ds : Directories) (gpg : Gpg) (o : Origin)
    (config : Configuration) (key : List ℕ) where
  abbrev pub keys_path : FilePath
  keys_path = config.path_db ++ document_name o (codes "-dbks.xml") ∷ []

  abbrev pub files_path : FilePath
  files_path = config.path_db ++ document_name o (codes "-files.xml") ∷ []

  -- What there is after a backup that succeeded, for its cache.
  pub record IsComplete (c : Cache) (w : World) : Type 0 where
    pub ks : KeyStore
    pub keystore_is : c.keystore ≡ some ks
    pub keys_written : IsWrittenTo gpg (write_keys cr.to_hex o ks) key keys_path w
    pub files : List ℕ
    pub files_are : write_files_document cr.to_hex o c.finfostore c.fblockstore ≡ some files
    pub files_written : IsWrittenTo gpg files key files_path w
    pub not_failed : failed_assemblies c ≡ 0

  abbrev ended : Cache → Bool × World → Option (List ℕ) → Option (ℕ × World)
  ended c r1 files = elim files [
    | none ↦ none
    | some doc ↦
        let (ok2, w2) = encrypted_output gpg doc files_path key r1.1 in
        some (if none_failed (metrics c) (r1.0 && ok2) then 0 else 1, w2)
  ]

  exit_zero :
      (b : Bool) (w w' : World)
      → ◌≡◌ {A = Option (ℕ × World)} (some (if b then 0 else 1, w)) (some (0, w'))
      → (b ≡ true) × (w ≡ w')
  exit_zero true w w' h = (refl, ground arith)
  exit_zero false w w' h = absurd (ground arith)

  and_both : (a b : Bool) → (a && b) ≡ true → (a ≡ true) × (b ≡ true)
  and_both true b h = (refl, h)
  and_both false b h = cc

  if_not : (t ok : Bool) → (if t then false else ok) ≡ true → (t ≡ false) × (ok ≡ true)
  if_not true ok h = cc
  if_not false ok h = (refl, h)

  kept :
      (doc : List ℕ) (w w' : World)
      → IsWrittenTo gpg doc key keys_path w
      → ((q : FilePath) → path_eq files_path q ≡ false → w'.files q ≡ w.files q)
      → IsWrittenTo gpg doc key keys_path w'
  kept doc w w' k others = record {
    encrypted = k.encrypted;
    encrypted_is = k.encrypted_is;
    present =
        others keys_path (
          path_eq_last config.path_db (document_name o (codes "-files.xml"))
            (document_name o (codes "-dbks.xml")) (endings_differ o))
        ∙ k.present;
  }

  zero_failed : (n : ℕ) → ltb 0 n ≡ false → n ≡ 0
  zero_failed n h = ground arith

  finish :
      (c : Cache) (w w1 w2 w' : World) (ks : KeyStore) (doc : List ℕ) (ok1 ok2 : Bool)
      → c.keystore ≡ some ks
      → write_files_document cr.to_hex o c.finfostore c.fblockstore ≡ some doc
      → Written gpg (write_keys cr.to_hex o ks) key keys_path w (ok1, w1)
      → Written gpg doc key files_path w1 (ok2, w2)
      → ◌≡◌ {A = Option (ℕ × World)}
          (some (if none_failed (metrics c) (ok1 && ok2) then 0 else 1, w2))
          (some (0, w'))
      → IsComplete c w'
  finish c w w1 w2 w' ks doc ok1 ok2 e f k1 k2 h =
      let (ok, same) = exit_zero (none_failed (metrics c) (ok1 && ok2)) w2 w' h in
      let (no_failure, both) =
        if_not (ltb 0 (failed_assemblies c)) (ok1 && ok2)
          (sym (none_failed-metrics c (ok1 && ok2)) ∙ ok) in
      let (yes1, yes2) = and_both ok1 ok2 both in
      let keys =
        subst (λ b. Written gpg (write_keys cr.to_hex o ks) key keys_path w (b, w1)) yes1 k1 in
      let others = subst (λ b. Written gpg doc key files_path w1 (b, w2)) yes2 k2 in
      subst (IsComplete c) same (record {
        ks = ks;
        keystore_is = e;
        keys_written = kept (write_keys cr.to_hex o ks) w1 w2 keys.0 others.1;
        files = doc;
        files_are = f;
        files_written = others.0;
        not_failed = zero_failed (failed_assemblies c) no_failure;
      })

  -- A document that was not written excludes the exit code 0.
  not_zero :
      (known : Bool) (c : Cache) (r : Bool × World) (w' : World)
      → ◌≡◌ {A = Option (ℕ × World)}
          (if known
            then none
            else some (if none_failed (metrics c) (r.0 && false) then 0 else 1, r.1))
          (some (0, w'))
      → ⊥
  not_zero true c r w' h = cc
  not_zero false c r w' h =
      let ok = exit_zero (none_failed (metrics c) (r.0 && false)) r.1 w' h in
      let t =
        if_not (ltb 0 (failed_assemblies c)) (r.0 && false)
          (sym (none_failed-metrics c (r.0 && false)) ∙ ok.0) in
      absurd (cc ((and_both r.0 false t.1).1))

  pub write_documents-IsComplete :
      (c : Cache) (w w' : World)
      → write_documents cr fs ds gpg o config key c w ≡ some (0, w')
      → IsComplete c w'
  unfolding write_documents
  write_documents-IsComplete c w w' h = elim (Option-cases c.keystore) [
    | inl e ↦ absurd (cc (rw (e, write_documents) at h))
    | inr (ks, e) ↦
        elim (Option-cases (write_files_document cr.to_hex o c.finfostore c.fblockstore)) [
          | inl f ↦ absurd (
              not_zero (gpg.has_public_key key) c
                (encrypted_output gpg (write_keys cr.to_hex o ks) keys_path key w) w'
                (rw f at (rw (e, write_documents) at h)))
          | inr (doc, f) ↦
              let r1 = encrypted_output gpg (write_keys cr.to_hex o ks) keys_path key w in
              let r2 = encrypted_output gpg doc files_path key r1.1 in
              finish c w r1.1 r2.1 w' ks doc r1.0 r2.0 e f
                (encrypted_output-Written gpg (write_keys cr.to_hex o ks) key keys_path w)
                (encrypted_output-Written gpg doc key files_path r1.1)
                (rw f at (rw (e, write_documents) at h))
        ]
  ]

  -- What there is after a backup of the settings that succeeded: the loops over the directories, the
  -- directories below which everything is saved, and the files, came to their ends, and the cache was
  -- closed.
  pub record IsSaved (depth : ℕ) (s : BackupSettings) (w w' : World) : Type 0 where
    pub c1 : Cache
    pub w1 : World
    pub c2 : Cache
    pub w2 : World
    pub c3 : Cache
    pub w3 : World
    pub directories :
        backup_dirs cr fs ds config
          (directory_backup cr fs ds config)
          s.list_dir1
          (start_cache cr fs ds gpg o config key s.finfostore)
          w
        ≡ some (c1, w1)
    pub below :
        backup_dirs cr fs ds config (recursive_backup cr fs ds config depth) s.list_dir c1 w1
        ≡ some (c2, w2)
    pub single : backup_all cr fs ds config s.list_files c2 w2 ≡ some (c3, w3)
    pub complete : IsComplete (close cr c3 w3).0 w'
    -- the assembly that was being written is not any more
    pub no_assembly :
        (e e' : EnvironmentWritable)
        → c3.writeenv ≡ some e
        → (close cr c3 w3).0.writeenv ≡ some e'
        → e'.assembly ≡ none
    -- and if it has data then the document of the keys has its key
    pub last_key :
        (e : EnvironmentWritable) (a : Assembly writable)
        → c3.writeenv ≡ some e
        → e.assembly ≡ some a
        → header_len e.config.nchunks < a.info.apos
        → ((ki : KeyInformation) × (find complete.ks a.info.aid ≡ some ki))
          ⊎ (add32 e.n_failed 1 ≡ 0)

  -- If lxrbackup exits with 0 and not for a dry run, then the loops over the directories and the
  -- files came to their ends (a file that cannot be read is left out by them without an error), the
  -- cache was closed after them and no assembly is being written any more; the documents of the keys
  -- and of the files that the closed cache has are on the disk, each encrypted to the owner's key;
  -- the count of assemblies that failed to be written is 0; and the document of the keys has the key
  -- of the assembly that close finalised, if it had data, unless the count went past 2 ^ 32 to 0.
  pub run_backup-IsSaved :
      (depth : ℕ) (s : BackupSettings) (w w' : World)
      → s.dry_run ≡ false
      → run_backup cr fs ds gpg o config key depth s w ≡ some (0, w')
      → IsSaved depth s w w'
  unfolding run_backup backup_everything
  run_backup-IsSaved depth s w w' wet h =
      let c0 = start_cache cr fs ds gpg o config key s.finfostore in
      elim (Option-cases
        (backup_dirs cr fs ds config (directory_backup cr fs ds config) s.list_dir1 c0 w)) [
          | inl n ↦ absurd (cc (rw n at (rw (wet, run_backup) at h)))
          | inr ((c1, w1), e1) ↦
              let h1 = rw e1 at (rw (wet, run_backup) at h) in
              elim (Option-cases (
                backup_dirs cr fs ds config (recursive_backup cr fs ds config depth) s.list_dir c1
                  w1)) [
                    | inl n ↦ absurd (cc (rw n at h1))
                    | inr ((c2, w2), e2) ↦
                        let h2 = rw e2 at h1 in
                        elim (Option-cases (backup_all cr fs ds config s.list_files c2 w2)) [
                          | inl n ↦ absurd (cc (rw n at h2))
                          | inr ((c3, w3), e3) ↦
                              let k =
                                write_documents-IsComplete (close cr c3 w3).0 (close cr c3 w3).1 w'
                                  (rw e3 at h2) in
                              record {
                                c1 = c1;
                                w1 = w1;
                                c2 = c2;
                                w2 = w2;
                                c3 = c3;
                                w3 = w3;
                                directories = e1;
                                below = e2;
                                single = e3;
                                complete = k;
                                no_assembly = λ e e' held. close-no_assembly cr c3 e w3 held e';
                                last_key = λ e a held current filled.
                                    close-stored cr c3 e w3 held a k.ks current filled k.keystore_is
                                      k.not_failed;
                              }
                        ]
                  ]
        ]
