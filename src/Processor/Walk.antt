-- ===== src/Processor/Walk.antt =====
-- The walks over directories of src/cpp/coqprocessor.cpp: directory_backup and recursive_backup. What
-- a directory_iterator gives is a parameter, which is `none` where it throws. An exception, which
-- ends the backup, is `none`.
pub mod Listed
pub mod Under
pub mod Total
use elykseer_cpp.Base.{
  ℕ, zero, suc, Bool, true, false, Option, none, some, List, [], ◌∷◌, ◌++◌, if◌then◌else◌,
}
use elykseer_cpp.Host.{World}
use elykseer_cpp.Cipher.{Crypto}
use elykseer_cpp.Assembly.{Configuration}
use elykseer_cpp.Cache.{Cache}
use elykseer_cpp.Processor.{Files, file_backup}

-- std::filesystem::directory_entry
pub record Entry : Type 0 where
  pub path : List ℕ
  pub is_regular_file : Bool
  pub is_directory : Bool

pub record Directories : Type 0 where
  pub is_directory : List ℕ → Bool
  pub entries : List ℕ → Option (List Entry)

unfoldable pub directory_files : List Entry → List (List ℕ)
directory_files [] = []
directory_files (e ∷ es) =
    let rest = directory_files es in if e.is_regular_file then e.path ∷ rest else rest

unfoldable pub directory_subdirs : List Entry → List (List ℕ)
directory_subdirs [] = []
directory_subdirs (e ∷ es) =
    let rest = directory_subdirs es in if e.is_directory then e.path ∷ rest else rest

module _ (cr : Crypto) (fs : Files) (ds : Directories) (config : Configuration) where
  -- file_backup for each path.
  unfoldable pub backup_all : List (List ℕ) → Cache → World → Option (Cache × World)
  backup_all [] c w = some (c, w)
  backup_all (p ∷ ps) c w = elim (file_backup cr fs config p c w) [
    | none ↦ none
    | some (info, c', w') ↦ backup_all ps c' w'
  ]

  unfoldable pub directory_backup : List ℕ → Cache → World → Option (Cache × World)
  unfolding backup_all directory_files
  directory_backup fp c w =
      if ds.is_directory fp
      then elim (ds.entries fp) [ none ↦ none | some es ↦ backup_all (directory_files es) c w ]
      else some (c, w)

  -- A backup for each path of a list.
  unfoldable pub backup_dirs :
      (List ℕ → Cache → World → Option (Cache × World))
      → List (List ℕ)
      → Cache
      → World
      → Option (Cache × World)
  backup_dirs backup [] c w = some (c, w)
  backup_dirs backup (p ∷ ps) c w = elim (backup p c w) [
    | none ↦ none
    | some (c', w') ↦ backup_dirs backup ps c' w'
  ]

  -- recursive_backup, with one round of fuel for each level of directories; without fuel it is
  -- `none`.
  unfoldable pub recursive_backup : ℕ → List ℕ → Cache → World → Option (Cache × World)
  unfolding directory_backup backup_dirs directory_subdirs
  recursive_backup zero fp c w = none
  recursive_backup (suc fuel) fp c w =
      if ds.is_directory fp
      then elim (directory_backup fp c w) [
        | none ↦ none
        | some (c1, w1) ↦ elim (ds.entries fp) [
          | none ↦ none
          | some es ↦ backup_dirs (recursive_backup fuel) (directory_subdirs es) c1 w1
        ]
      ]
      else some (c, w)
