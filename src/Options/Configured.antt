-- ===== src/Options/Configured.antt =====
-- The configuration of lxrbackup after any options.
use elykseer_cpp.Base.{
  ℕ, ◌≤◌, ◌<◌, ◌≡◌, refl, subst, Bool, true, List, arith, length, Option-cases, inl, inr, pos,
}
use elykseer_cpp.Nchunks.{nchunks}
use elykseer_cpp.Assembly.{Configuration}
use elykseer_cpp.FileControl.{FileSystem, Identity, file_exists, dir_exists}
use elykseer_cpp.Store.Reading.{PropertyTree}
use elykseer_cpp.Options.{running, path_of}
use elykseer_cpp.Options.Backup.{
  BackupSettings, initial_backup, max_backup_files, max_backup_dirs, BackupOption, backup_options,
  backup_configuration,
}
use elykseer_cpp.Options.Valid.{
  OfSome, OfRunning, InRange, IsLong, Passes, IsEntries, IsValid, backup_options-IsValid,
  initial-IsValid,
}

module _ (fs : FileSystem) (i : Identity) (has_public_key : List ℕ → Bool)
    (content : Bool → List ℕ → List ℕ) (pt : PropertyTree) (fromHex : List ℕ → List ℕ) where
  -- A configuration that a backup can be run with.
  pub record IsConfigured (s : BackupSettings) (c : Configuration) (key : List ℕ) : Type 0 where
    pub at_least : 16 ≤ c.nchunks
    pub at_most : c.nchunks ≤ 256
    pub as_asked : c.nchunks ≡ s.n_chunks
    pub long_id : 5 < length c.my_id
    pub known_key : has_public_key key ≡ true
    pub meta : List ℕ
    pub meta_is : c.path_db ≡ path_of meta
    pub meta_dir : dir_exists fs i meta ≡ true
    pub chunks : List ℕ
    pub chunks_is : c.path_chunks ≡ path_of chunks
    pub chunks_dir : dir_exists fs i chunks ≡ true
    pub files : IsEntries max_backup_files (file_exists fs) s.list_files
    pub dirs : IsEntries max_backup_dirs (dir_exists fs i) s.list_dir1
    pub rec_dirs : IsEntries max_backup_dirs (dir_exists fs i) s.list_dir

  nchunks_same : (n : ℕ) → InRange n → nchunks (pos n) ≡ n
  unfolding nchunks
  nchunks_same n (lo, hi) = omega arith

  Configured : BackupSettings → Configuration × List ℕ → Type 0
  Configured s (c, key) = IsConfigured s c key

  backup_configuration-Configured :
      (s : BackupSettings)
      → IsValid fs i has_public_key content pt fromHex s
      → OfRunning (Configured s) (backup_configuration s)
  unfolding backup_configuration Configured
  backup_configuration-Configured s (n, id, k, m, c, f, d, r) = elim (Option-cases s.myid) [
    | inl e ↦ rw (e, backup_configuration) tt
    | inr (x, e) ↦ elim (Option-cases s.okey) [
      | inl e1 ↦ rw (e, backup_configuration) (rw e1 tt)
      | inr (key, e1) ↦ elim (Option-cases s.metapath) [
        | inl e2 ↦ rw (e, backup_configuration) (rw e1 (rw e2 tt))
        | inr (meta, e2) ↦ elim (Option-cases s.chunkpath) [
          | inl e3 ↦ rw (e, backup_configuration) (rw e1 (rw e2 (rw e3 tt)))
          | inr (chunks, e3) ↦
              let same = nchunks_same s.n_chunks n in
              rw (e, backup_configuration)
                (rw e1 (
                  rw e2 (
                    rw e3 (record {
                      at_least = omega (arith, same, n.0);
                      at_most = omega (arith, same, n.1);
                      as_asked = same;
                      long_id = subst (OfSome IsLong) e id;
                      known_key = subst (OfSome (Passes has_public_key)) e1 k;
                      meta = meta;
                      meta_is = refl;
                      meta_dir = subst (OfSome (Passes (dir_exists fs i))) e2 m;
                      chunks = chunks;
                      chunks_is = refl;
                      chunks_dir = subst (OfSome (Passes (dir_exists fs i))) e3 c;
                      files = f;
                      dirs = d;
                      rec_dirs = r;
                    }))))
        ]
      ]
    ]
  ]

  -- Whatever the options of lxrbackup are: if it has not ended after them and has all that it needs,
  -- the configuration has from 16 to 256 chunks, as many as were asked for, an id of more than five
  -- characters, and paths of directories that exist; the owner's key is known; and the lists have
  -- fewer than 8192 files, which exist, and fewer than 128 directories each, which exist.
  pub backup_configuration-IsConfigured :
      (os : List BackupOption) (s : BackupSettings) (c : Configuration) (key : List ℕ)
      → backup_options fs i has_public_key content pt fromHex os initial_backup ≡ running s
      → backup_configuration s ≡ running (c, key)
      → IsConfigured s c key
  unfolding Configured
  backup_configuration-IsConfigured os s c key e h = subst (OfRunning (Configured s)) h (
      backup_configuration-Configured s (
        subst (OfRunning (IsValid fs i has_public_key content pt fromHex)) e (
          backup_options-IsValid fs i has_public_key content pt fromHex os initial_backup
            (initial-IsValid fs i has_public_key content pt fromHex))))
