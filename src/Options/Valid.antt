-- ===== src/Options/Valid.antt =====
-- What holds of the settings after the options of lxrbackup, whichever they are.
use elykseer_cpp.Base.{
  ℕ, ◌-◌, ◌≤◌, ◌<◌, ◌≡◌, Bool, true, ◌&&◌, Option, none, some, List, [], ◌∷◌, ◌++◌, arith, leb, ltb,
  length, length-append, if◌then◌else◌, Bool-cases, inl, inr, pos, negsuc, ℤ,
}
use elykseer_cpp.FileControl.{FileSystem, Identity, file_exists, dir_exists}
use elykseer_cpp.Store.Reading.{PropertyTree}
use elykseer_cpp.Restore.Requests.{All}
use elykseer_cpp.Options.{
  Running, running, exits, set_n_chunks, set_myid, atoi, checked_path, add_entry, or_error,
}
use elykseer_cpp.Options.Backup.{
  BackupSettings, initial_backup, max_backup_files, max_backup_dirs, BackupOption, dry_run, verbose,
  nogpg, prints, chunk_path, meta_path, ref_dbfi, backup_file, backup_dir1, backup_dir_rec,
  n_chunks, myid, ownerkey, add_ref_dbfi, take_backup_option, backup_options,
}

-- Something holds of an optional value, if there is one.
abbrev pub OfSome {ℓ} : {A : Type ℓ} → (A → Type 0) → Option A → Type 0
OfSome P none = Unit {0}
OfSome P (some a) = P a

-- Something holds of the state, if the program goes on.
abbrev pub OfRunning : {S : Type 0} → (S → Type 0) → Running S → Type 0
OfRunning P (running s) = P s
OfRunning P (exits n) = Unit {0}

or_error-OfRunning :
    {A S : Type 0} (P : S → Type 0) (Q : A → Type 0) (r : Option A) (f : A → S)
    → OfSome Q r
    → ((a : A) → Q a → P (f a))
    → OfRunning P (or_error r f)
or_error-OfRunning P Q none f q h = tt
or_error-OfRunning P Q (some a) f q h = h a q

anything : {A : Type 0} (r : Option A) → OfSome (λ (a : A). Unit {0}) r
anything none = tt
anything (some a) = tt

abbrev pub InRange : ℕ → Type 0
InRange n = (16 ≤ n) × (n ≤ 256)

checked_range-InRange :
    (k : ℤ)
    → OfSome InRange
        (elim k [ pos n ↦ if leb 16 n && leb n 256 then some n else none | negsuc n ↦ none ])
checked_range-InRange (negsuc n) = tt
checked_range-InRange (pos n) = elim (Bool-cases (leb 16 n && leb n 256)) [
  | inl e ↦ rw e (ground arith, ground arith)
  | inr e ↦ rw e tt
]

set_n_chunks-InRange : (p : List ℕ) → OfSome InRange (set_n_chunks p)
unfolding set_n_chunks
set_n_chunks-InRange p = checked_range-InRange (atoi p)

abbrev pub IsLong : List ℕ → Type 0
IsLong id = 5 < length id

set_myid-IsLong : (p : List ℕ) → OfSome IsLong (set_myid p)
unfolding set_myid
set_myid-IsLong p = elim (Bool-cases (ltb 5 (length p))) [
  | inl e ↦ rw e (ground arith)
  | inr e ↦ rw e tt
]

abbrev pub Passes : (List ℕ → Bool) → List ℕ → Type 0
Passes test p = test p ≡ true

checked_path-Passes :
    (test : List ℕ → Bool) (p : List ℕ) → OfSome (Passes test) (checked_path test p)
checked_path-Passes test p = elim (Bool-cases (test p)) [ inl e ↦ rw e e | inr e ↦ rw e tt ]

-- A list that is not full, of entries that pass a test.
abbrev pub IsEntries : ℕ → (List ℕ → Bool) → List (List ℕ) → Type 0
IsEntries limit test l = (length l < limit) × All (Passes test) l

All-snoc :
    (P : List ℕ → Type 0) (l : List (List ℕ)) (p : List ℕ) → All P l → P p → All P (l ++ p ∷ [])
All-snoc P [] p a b = (b, tt)
All-snoc P (x ∷ l) p (a, more) b = (a, All-snoc P l p more b)

add_entry-IsEntries :
    (limit : ℕ) (test : List ℕ → Bool) (l : List (List ℕ)) (p : List ℕ)
    → IsEntries limit test l
    → OfSome (IsEntries limit test) (add_entry limit test l p)
unfolding add_entry
add_entry-IsEntries limit test l p (few, passes) = elim (Bool-cases (leb (limit - 1) (length l))) [
  | inl full ↦ rw (full, add_entry) tt
  | inr room ↦ elim (Bool-cases (test p)) [
    | inr bad ↦ rw (room, add_entry) (rw bad tt)
    | inl good ↦
        let less : length l < limit - 1 = ground arith in
        rw (room, add_entry)
          (rw good
            (omega (arith, length-append l (p ∷ [])), All-snoc (Passes test) l p passes good))
  ]
]

module _ (fs : FileSystem) (i : Identity) (has_public_key : List ℕ → Bool)
    (content : Bool → List ℕ → List ℕ) (pt : PropertyTree) (fromHex : List ℕ → List ℕ) where
  -- The settings: the number of chunks, the id, the owner's key, the directories for meta data and
  -- chunks, and the lists of files and directories.
  abbrev pub IsValid : BackupSettings → Type 0
  IsValid s =
      InRange s.n_chunks
      × OfSome IsLong s.myid
      × OfSome (Passes has_public_key) s.okey
      × OfSome (Passes (dir_exists fs i)) s.metapath
      × OfSome (Passes (dir_exists fs i)) s.chunkpath
      × IsEntries max_backup_files (file_exists fs) s.list_files
      × IsEntries max_backup_dirs (dir_exists fs i) s.list_dir1
      × IsEntries max_backup_dirs (dir_exists fs i) s.list_dir

  abbrev after : BackupSettings → BackupOption → Running BackupSettings
  after = take_backup_option fs i has_public_key content pt fromHex

  take_backup_option-IsValid :
      (s : BackupSettings) (o : BackupOption) → IsValid s → OfRunning IsValid (after s o)
  unfolding take_backup_option
  take_backup_option-IsValid s dry_run v = v
  take_backup_option-IsValid s verbose v = v
  take_backup_option-IsValid s nogpg v = v
  take_backup_option-IsValid s prints v = v
  take_backup_option-IsValid s (chunk_path p) (n, id, k, m, c, f, d, r) =
      or_error-OfRunning IsValid (Passes (dir_exists fs i)) (checked_path (dir_exists fs i) p)
        (λ q. record s { chunkpath = some q }) (checked_path-Passes (dir_exists fs i) p)
        (λ q h. (n, id, k, m, h, f, d, r))
  take_backup_option-IsValid s (meta_path p) (n, id, k, m, c, f, d, r) =
      or_error-OfRunning IsValid (Passes (dir_exists fs i)) (checked_path (dir_exists fs i) p)
        (λ q. record s { metapath = some q }) (checked_path-Passes (dir_exists fs i) p)
        (λ q h. (n, id, k, h, c, f, d, r))
  take_backup_option-IsValid s (ref_dbfi p) v =
      or_error-OfRunning IsValid (λ st. Unit {0})
        (add_ref_dbfi fs i has_public_key content pt fromHex s.use_gpg s.finfostore p)
        (λ st. record s { finfostore = st })
        (anything (add_ref_dbfi fs i has_public_key content pt fromHex s.use_gpg s.finfostore p))
        (λ st h. v)
  take_backup_option-IsValid s (backup_file p) (n, id, k, m, c, f, d, r) =
      or_error-OfRunning IsValid (IsEntries max_backup_files (file_exists fs))
        (add_entry max_backup_files (file_exists fs) s.list_files p)
        (λ l. record s { list_files = l })
        (add_entry-IsEntries max_backup_files (file_exists fs) s.list_files p f)
        (λ l h. (n, id, k, m, c, h, d, r))
  take_backup_option-IsValid s (backup_dir1 p) (n, id, k, m, c, f, d, r) =
      or_error-OfRunning IsValid (IsEntries max_backup_dirs (dir_exists fs i))
        (add_entry max_backup_dirs (dir_exists fs i) s.list_dir1 p)
        (λ l. record s { list_dir1 = l })
        (add_entry-IsEntries max_backup_dirs (dir_exists fs i) s.list_dir1 p d)
        (λ l h. (n, id, k, m, c, f, h, r))
  take_backup_option-IsValid s (backup_dir_rec p) (n, id, k, m, c, f, d, r) =
      or_error-OfRunning IsValid (IsEntries max_backup_dirs (dir_exists fs i))
        (add_entry max_backup_dirs (dir_exists fs i) s.list_dir p) (λ l. record s { list_dir = l })
        (add_entry-IsEntries max_backup_dirs (dir_exists fs i) s.list_dir p r)
        (λ l h. (n, id, k, m, c, f, d, h))
  take_backup_option-IsValid s (n_chunks p) (n, id, k, m, c, f, d, r) =
      or_error-OfRunning IsValid InRange (set_n_chunks p) (λ x. record s { n_chunks = x })
        (set_n_chunks-InRange p) (λ x h. (h, id, k, m, c, f, d, r))
  take_backup_option-IsValid s (myid p) (n, id, k, m, c, f, d, r) =
      or_error-OfRunning IsValid IsLong (set_myid p) (λ x. record s { myid = some x })
        (set_myid-IsLong p) (λ x h. (n, h, k, m, c, f, d, r))
  take_backup_option-IsValid s (ownerkey p) (n, id, k, m, c, f, d, r) =
      or_error-OfRunning IsValid (Passes has_public_key) (checked_path has_public_key p)
        (λ x. record s { okey = some x }) (checked_path-Passes has_public_key p)
        (λ x h. (n, id, h, m, c, f, d, r))

  abbrev options_after : List BackupOption → BackupSettings → Running BackupSettings
  options_after = backup_options fs i has_public_key content pt fromHex

  abbrev and_then : List BackupOption → Running BackupSettings → Running BackupSettings
  and_then os r = elim r [ exits n ↦ exits n | running s' ↦ options_after os s' ]

  and_then-IsValid :
      (os : List BackupOption) (r : Running BackupSettings)
      → ((s : BackupSettings) → IsValid s → OfRunning IsValid (options_after os s))
      → OfRunning IsValid r
      → OfRunning IsValid (and_then os r)
  and_then-IsValid os (running s) h v = h s v
  and_then-IsValid os (exits n) h v = tt

  pub backup_options-IsValid :
      (os : List BackupOption) (s : BackupSettings)
      → IsValid s
      → OfRunning IsValid (options_after os s)
  unfolding backup_options
  backup_options-IsValid [] s v = v
  backup_options-IsValid (o ∷ os) s v =
      and_then-IsValid os (after s o) (backup_options-IsValid os) (take_backup_option-IsValid s o v)

  pub initial-IsValid : IsValid initial_backup
  initial-IsValid = (
    (omega arith, omega arith),
    tt,
    tt,
    tt,
    tt,
    (omega arith, tt),
    (omega arith, tt),
    (omega arith, tt),
  )
