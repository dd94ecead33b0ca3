-- ===== src/Tests/Walks.antt =====
-- The theorems on files and directories, at a directory with one file.
use elykseer_cpp.Base.{
  ◌↔◌, ◌≡◌, refl, sym, subst, Bool, true, false, none, some, List, [], ◌∷◌, ℕ, ◌<◌, arith, codes,
  str_eq, if◌then◌else◌, inl, inr,
}
use elykseer_cpp.Host.{World}
use elykseer_cpp.Cache.{Cache}
use elykseer_cpp.FileControl.{FileSystem, Identity, Status, Stat, is_file_readable}
use elykseer_cpp.FileControl.Posix.{may_read, is_file_readable-posix}
use elykseer_cpp.Processor.Walk.{
  Entry, Directories, directory_subdirs, backup_all, recursive_backup,
}
use elykseer_cpp.Processor.Walk.Listed.{Has, HasDirectory-directory_subdirs}
use elykseer_cpp.Processor.Walk.Under.{Under, IsBounded}
use elykseer_cpp.Processor.Walk.Total.{recursive_backup-Under}
use elykseer_cpp.Tests.{toy, config_16}
use elykseer_cpp.Tests.FileBackup.{one_file}

abbrev pub ours : Identity
ours = record { fp_uid = 1000; fp_gid = 100; fp_gids = 7 ∷ [] }

-- A regular file of another user, of one of our groups, with the mode 0640.
abbrev regular : Status
regular = record { exists = true; is_regular_file = true; is_directory = false; is_symlink = false }

abbrev of_group : Stat
of_group = record { st_uid = 0; st_gid = 7; st_mode = 416 }

abbrev one_status : FileSystem
one_status = record {
  status = λ p. some regular;
  stat = λ p. some of_group;
  file_size = λ p. none;
  last_write_time = λ p. none;
  directory = λ p. none;
}

is_file_readable-posix_example :
    is_file_readable one_status ours (codes "f") ≡ may_read ours of_group
is_file_readable-posix_example =
    is_file_readable-posix one_status ours (codes "f") regular of_group refl refl refl
      (record { group_of_other = λ e. refl; user_of_group = λ e. refl })

-- A directory `d` with a file and a directory that is empty.
abbrev pub file_entry : Entry
file_entry = record { path = codes "d/f"; is_regular_file = true; is_directory = false }

abbrev pub dir_entry : Entry
dir_entry = record { path = codes "d/e"; is_regular_file = false; is_directory = true }

abbrev pub two_directories : Directories
two_directories = record {
  is_directory = λ p. true;
  entries = λ p. some (if str_eq p (codes "d") then file_entry ∷ dir_entry ∷ [] else []);
}

abbrev level : List ℕ → ℕ
level p = if str_eq p (codes "d") then 1 else 0

abbrev listing : List ℕ → List Entry
listing fp = if str_eq fp (codes "d") then file_entry ∷ dir_entry ∷ [] else []

below_top : (sub : List ℕ) → Has sub (codes "d/e" ∷ []) → level sub < 1
unfolding str_eq
below_top sub (inl e) = subst (λ s. level s < 1) e (omega arith)
below_top sub (inr h) = absurd h

below :
    (fp sub : List ℕ) (es : List Entry) (top : Bool)
    → str_eq fp (codes "d") ≡ top
    → (if top then file_entry ∷ dir_entry ∷ [] else []) ≡ es
    → Has sub (directory_subdirs es)
    → level sub < level fp
unfolding directory_subdirs str_eq
below fp sub es false e same h =
    absurd (subst (λ (l : List Entry). Has sub (directory_subdirs l)) (sym same) h)
below fp sub es true e same h =
    let there : Has sub (codes "d/e" ∷ []) =
      subst (λ (l : List Entry). Has sub (directory_subdirs l)) (sym same) h in
    rw e (below_top sub there)

some_same : (l es : List Entry) → some l ≡ some es → l ≡ es
some_same l es h = cc

two-IsBounded : IsBounded two_directories level
unfolding directory_subdirs str_eq
two-IsBounded = record {
  listed = λ fp d. (if str_eq fp (codes "d") then file_entry ∷ dir_entry ∷ [] else [], refl);
  smaller = λ fp es sub e h.
      below fp sub es (str_eq fp (codes "d")) refl (some_same (listing fp) es e)
        (HasDirectory-directory_subdirs sub es h);
}

two_levels : level (codes "d") < 3
unfolding str_eq
two_levels = omega arith

recursive_backup-Under_example :
    (ps : List (List ℕ)) × ((p : List ℕ) → Has p ps ↔ Under two_directories p (codes "d"))
    × ((c : Cache) (w : World)
        → recursive_backup toy one_file two_directories config_16 3 (codes "d") c w
          ≡ backup_all toy one_file two_directories config_16 ps c w)
recursive_backup-Under_example =
    recursive_backup-Under toy one_file two_directories config_16 level (codes "d") 3 two-IsBounded
      two_levels
