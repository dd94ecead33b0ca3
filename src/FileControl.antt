-- ===== src/FileControl.antt =====
-- src/cpp/filectrl.ixx and filectrl.cpp: questions on files. What the file system tells is a
-- parameter; where a call of it throws, it tells nothing (`none`).
pub mod Posix
use elykseer_cpp.Base.{
  ℕ, zero, suc, ◌/◌, ◌%◌, ◌^◌, Bool, true, false, ◌&&◌, ◌||◌, Option, none, some, List, [], ◌∷◌,
  ◌++◌, ◌==◌, if◌then◌else◌, codes, starts_with,
}

-- std::filesystem::status.
pub record Status : Type 0 where
  pub exists : Bool
  pub is_regular_file : Bool
  pub is_directory : Bool
  pub is_symlink : Bool

-- What `stat` gives.
pub record Stat : Type 0 where
  pub st_uid : ℕ
  pub st_gid : ℕ
  pub st_mode : ℕ

pub record FileSystem : Type 0 where
  pub status : List ℕ → Option Status
  pub stat : List ℕ → Option Stat
  pub file_size : List ℕ → Option ℕ
  pub last_write_time : List ℕ → Option ℕ
  -- a directory_iterator: the paths in a directory
  pub directory : List ℕ → Option (List (List ℕ))

-- The user and the groups of the process.
pub record Identity : Type 0 where
  pub fp_uid : ℕ
  pub fp_gid : ℕ
  pub fp_gids : List ℕ

-- Whether bit k of a mode is set.
abbrev pub mode_bit : ℕ → ℕ → Bool
mode_bit mode k = mode / 2 ^ k % 2 == 1

-- `for (auto g : fp_gids) { if (g == st_gid) { return true; } }`
unfoldable pub in_groups : List ℕ → ℕ → Bool
in_groups [] gid = false
in_groups (g ∷ gs) gid = g == gid || in_groups gs gid

-- The four ways in which access is given, over the three permissions.
unfoldable pub has_access : Identity → Stat → Bool → Bool → Bool → Bool
unfolding in_groups
has_access i st user group other =
    if st.st_uid == i.fp_uid && user
    then true
    else if other
    then true
    else if st.st_gid == i.fp_gid && group
    then true
    else if group
    then in_groups i.fp_gids st.st_gid
    else false

-- Whether a text holds another one.
unfoldable pub holds_text : List ℕ → List ℕ → Bool
unfolding starts_with
holds_text [] p = starts_with [] p
holds_text (c ∷ s) p = starts_with (c ∷ s) p || holds_text s p

module _ (fs : FileSystem) where
  unfoldable pub file_last_write_time : List ℕ → Option ℕ
  file_last_write_time fp = fs.last_write_time fp

  unfoldable pub file_size : List ℕ → Option ℕ
  file_size fp = fs.file_size fp

  unfoldable pub file_exists : List ℕ → Bool
  file_exists fp = elim (fs.status fp) [ none ↦ false | some s ↦ s.exists ]

  module _ (i : Identity) where
    unfoldable pub is_file_readable : List ℕ → Bool
    unfolding has_access
    is_file_readable fp = elim (fs.status fp) [
      | none ↦ false
      | some s ↦
          if s.exists && s.is_regular_file
          then elim (fs.stat fp) [
            | none ↦ false
            | some st ↦
                has_access i st (mode_bit st.st_mode 8) (mode_bit st.st_mode 5)
                  (mode_bit st.st_mode 2)
          ]
          else false
    ]

    unfoldable pub dir_exists : List ℕ → Bool
    unfolding has_access holds_text
    dir_exists fp = elim (fs.status fp) [
      | none ↦ false
      | some s ↦
          if s.is_symlink && holds_text fp (codes "../")
          then false
          else if s.is_directory
          then elim (fs.stat fp) [
            | none ↦ false
            | some st ↦
                has_access i st (mode_bit st.st_mode 8 && mode_bit st.st_mode 6)
                  (mode_bit st.st_mode 5 && mode_bit st.st_mode 3)
                  (mode_bit st.st_mode 2 && mode_bit st.st_mode 0)
          ]
          else false
    ]

    -- One entry of fileListRecursive: what is in it if it is a directory, and itself else.
    unfoldable pub list_entry : (List ℕ → Option (List (List ℕ))) → List ℕ → Option (List (List ℕ))
    list_entry list_directory fp = if dir_exists fp then list_directory fp else some (fp ∷ [])

    unfoldable pub list_entries :
        (List ℕ → Option (List (List ℕ))) → List (List ℕ) → Option (List (List ℕ))
    unfolding list_entry
    list_entries list_directory [] = some []
    list_entries list_directory (fp ∷ fps) = elim (list_entry list_directory fp) [
      | none ↦ none
      | some here ↦ elim (list_entries list_directory fps) [
        | none ↦ none
        | some rest ↦ some (here ++ rest)
      ]
    ]

    -- fileListRecursive, with one round of fuel for each level of directories; `none` is an exception
    -- or that there are more levels.
    unfoldable pub file_list_recursive : ℕ → List ℕ → Option (List (List ℕ))
    unfolding list_entries
    file_list_recursive zero fp = none
    file_list_recursive (suc fuel) fp = elim (fs.directory fp) [
      | none ↦ none
      | some fps ↦ list_entries (file_list_recursive fuel) fps
    ]
