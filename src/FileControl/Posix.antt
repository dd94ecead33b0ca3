-- ===== src/FileControl/Posix.antt =====
-- The access tests of filectrl.cpp against the rule of POSIX.
use elykseer_cpp.Base.{
  ℕ, ◌≡◌, refl, sym, ◌∙◌, Bool, true, false, ◌&&◌, ◌||◌, some, List, ◌==◌, arith, if◌then◌else◌,
}
use elykseer_cpp.FileControl.{
  Identity, Stat, Status, FileSystem, mode_bit, in_groups, has_access, is_file_readable, dir_exists,
}

-- The rule of POSIX: the owner has the user's permission alone, a member of the group that of the
-- group, and every other process that of the others.
abbrev pub posix_access : Identity → Stat → Bool → Bool → Bool → Bool
posix_access i st user group other =
    if st.st_uid == i.fp_uid
    then user
    else if st.st_gid == i.fp_gid || in_groups i.fp_gids st.st_gid
    then group
    else other

-- What others may, the group may, and what the group may, the owner may.
pub record IsNested (user group other : Bool) : Type 0 where
  pub group_of_other : other ≡ true → group ≡ true
  pub user_of_group : group ≡ true → user ≡ true

has_access-posix :
    (i : Identity) (st : Stat) (user group other : Bool)
    → posix_access i st user group other ≡ true
    → has_access i st user group other ≡ true
unfolding has_access
has_access-posix i st user group other h = ground arith

posix-has_access :
    (i : Identity) (st : Stat) (user group other : Bool)
    → IsNested user group other
    → has_access i st user group other ≡ true
    → posix_access i st user group other ≡ true
unfolding has_access
posix-has_access i st user group other n h = ground (arith, n.group_of_other, n.user_of_group)

Bool-ext : (a b : Bool) → (a ≡ true → b ≡ true) → (b ≡ true → a ≡ true) → a ≡ b
Bool-ext true true f g = refl
Bool-ext true false f g = sym (f refl)
Bool-ext false true f g = g refl
Bool-ext false false f g = refl

has_access-is_posix :
    (i : Identity) (st : Stat) (user group other : Bool)
    → IsNested user group other
    → has_access i st user group other ≡ posix_access i st user group other
has_access-is_posix i st user group other n =
    Bool-ext (has_access i st user group other) (posix_access i st user group other)
      (posix-has_access i st user group other n) (has_access-posix i st user group other)

abbrev pub may_read : Identity → Stat → Bool
may_read i st =
    posix_access i st (mode_bit st.st_mode 8) (mode_bit st.st_mode 5) (mode_bit st.st_mode 2)

abbrev pub may_list : Identity → Stat → Bool
may_list i st =
    posix_access i st (mode_bit st.st_mode 8 && mode_bit st.st_mode 6)
      (mode_bit st.st_mode 5 && mode_bit st.st_mode 3)
      (mode_bit st.st_mode 2 && mode_bit st.st_mode 0)

module _ (fs : FileSystem) (i : Identity) (fp : List ℕ) (s : Status) (st : Stat) where
  is_file_readable-access :
      fs.status fp ≡ some s
      → fs.stat fp ≡ some st
      → (s.exists && s.is_regular_file) ≡ true
      → is_file_readable fs i fp
        ≡ has_access i st (mode_bit st.st_mode 8) (mode_bit st.st_mode 5) (mode_bit st.st_mode 2)
  unfolding is_file_readable
  is_file_readable-access a b c = rw (a, is_file_readable) (rw c (rw b refl))

  dir_exists-access :
      fs.status fp ≡ some s
      → fs.stat fp ≡ some st
      → s.is_symlink ≡ false
      → s.is_directory ≡ true
      → dir_exists fs i fp
        ≡ has_access i st
            (mode_bit st.st_mode 8 && mode_bit st.st_mode 6)
            (mode_bit st.st_mode 5 && mode_bit st.st_mode 3)
            (mode_bit st.st_mode 2 && mode_bit st.st_mode 0)
  unfolding dir_exists
  dir_exists-access a b c d = rw (a, dir_exists) (rw c (rw d (rw b refl)))

  -- For a regular file with a mode: if POSIX lets the process read it, isFileReadable says so.
  pub is_file_readable-may_read :
      fs.status fp ≡ some s
      → fs.stat fp ≡ some st
      → (s.exists && s.is_regular_file) ≡ true
      → may_read i st ≡ true
      → is_file_readable fs i fp ≡ true
  is_file_readable-may_read a b c h =
      is_file_readable-access a b c
      ∙ has_access-posix i st (mode_bit st.st_mode 8) (mode_bit st.st_mode 5)
          (mode_bit st.st_mode 2) h

  -- For a regular file with a mode in which others may read only what the group may, and the group
  -- only what the owner may: isFileReadable is the rule of POSIX.
  pub is_file_readable-posix :
      fs.status fp ≡ some s
      → fs.stat fp ≡ some st
      → (s.exists && s.is_regular_file) ≡ true
      → IsNested (mode_bit st.st_mode 8) (mode_bit st.st_mode 5) (mode_bit st.st_mode 2)
      → is_file_readable fs i fp ≡ may_read i st
  is_file_readable-posix a b c n =
      is_file_readable-access a b c
      ∙ has_access-is_posix i st (mode_bit st.st_mode 8) (mode_bit st.st_mode 5)
          (mode_bit st.st_mode 2) n

  -- For a directory with a mode, which is no link: if POSIX lets the process read and search it,
  -- dirExists says so.
  pub dir_exists-may_list :
      fs.status fp ≡ some s
      → fs.stat fp ≡ some st
      → s.is_symlink ≡ false
      → s.is_directory ≡ true
      → may_list i st ≡ true
      → dir_exists fs i fp ≡ true
  dir_exists-may_list a b c d h =
      dir_exists-access a b c d
      ∙ has_access-posix i st (mode_bit st.st_mode 8 && mode_bit st.st_mode 6)
          (mode_bit st.st_mode 5 && mode_bit st.st_mode 3)
          (mode_bit st.st_mode 2 && mode_bit st.st_mode 0) h

  -- For a directory with a mode in which others may read and search only what the group may, and the
  -- group only what the owner may, and which is no link: dirExists is the rule of POSIX.
  pub dir_exists-posix :
      fs.status fp ≡ some s
      → fs.stat fp ≡ some st
      → s.is_symlink ≡ false
      → s.is_directory ≡ true
      → IsNested
          (mode_bit st.st_mode 8 && mode_bit st.st_mode 6)
          (mode_bit st.st_mode 5 && mode_bit st.st_mode 3)
          (mode_bit st.st_mode 2 && mode_bit st.st_mode 0)
      → dir_exists fs i fp ≡ may_list i st
  dir_exists-posix a b c d n =
      dir_exists-access a b c d
      ∙ has_access-is_posix i st (mode_bit st.st_mode 8 && mode_bit st.st_mode 6)
          (mode_bit st.st_mode 5 && mode_bit st.st_mode 3)
          (mode_bit st.st_mode 2 && mode_bit st.st_mode 0) n
