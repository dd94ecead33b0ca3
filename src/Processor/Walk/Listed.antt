-- ===== src/Processor/Walk/Listed.antt =====
-- The files and the directories among the entries of a directory.
use elykseer_cpp.Base.{ℕ, ◌≡◌, true, List, [], ◌∷◌, ◌++◌, Bool-cases, ◌⊎◌, inl, inr}
use elykseer_cpp.Processor.Walk.{Entry, directory_files, directory_subdirs}

-- A path is in a list.
abbrev pub Has : List ℕ → List (List ℕ) → Type 0
Has p [] = ⊥
Has p (x ∷ xs) = (x ≡ p) ⊎ Has p xs

pub Has-append_left : (p : List ℕ) (xs ys : List (List ℕ)) → Has p xs → Has p (xs ++ ys)
Has-append_left p [] ys h = absurd h
Has-append_left p (x ∷ xs) ys (inl e) = inl e
Has-append_left p (x ∷ xs) ys (inr h) = inr (Has-append_left p xs ys h)

pub Has-append_right : (p : List ℕ) (xs ys : List (List ℕ)) → Has p ys → Has p (xs ++ ys)
Has-append_right p [] ys h = h
Has-append_right p (x ∷ xs) ys h = inr (Has-append_right p xs ys h)

pub Has-append_split : (p : List ℕ) (xs ys : List (List ℕ)) → Has p (xs ++ ys) → Has p xs ⊎ Has p ys
Has-append_split p [] ys h = inr h
Has-append_split p (x ∷ xs) ys (inl e) = inl (inl e)
Has-append_split p (x ∷ xs) ys (inr h) = elim (Has-append_split p xs ys h) [
  | inl l ↦ inl (inr l)
  | inr r ↦ inr r
]

-- An entry that is a regular file of a path, and one that is a directory.
abbrev pub HasFile : List ℕ → List Entry → Type 0
HasFile p [] = ⊥
HasFile p (e ∷ es) = ((e.is_regular_file ≡ true) × (e.path ≡ p)) ⊎ HasFile p es

abbrev pub HasDirectory : List ℕ → List Entry → Type 0
HasDirectory p [] = ⊥
HasDirectory p (e ∷ es) = ((e.is_directory ≡ true) × (e.path ≡ p)) ⊎ HasDirectory p es

pub directory_files-HasFile :
    (p : List ℕ) (es : List Entry) → Has p (directory_files es) → HasFile p es
unfolding directory_files
directory_files-HasFile p [] h = absurd h
directory_files-HasFile p (e ∷ es) h = elim (Bool-cases e.is_regular_file) [
  | inr fails ↦ inr (directory_files-HasFile p es (rw fails at h))
  | inl holds ↦
      let there : (e.path ≡ p) ⊎ Has p (directory_files es) = rw holds at h in
      elim there [ inl same ↦ inl (holds, same) | inr k ↦ inr (directory_files-HasFile p es k) ]
]

pub HasFile-directory_files :
    (p : List ℕ) (es : List Entry) → HasFile p es → Has p (directory_files es)
unfolding directory_files
HasFile-directory_files p [] h = absurd h
HasFile-directory_files p (e ∷ es) (inl (holds, same)) = rw holds (inl same)
HasFile-directory_files p (e ∷ es) (inr h) = elim (Bool-cases e.is_regular_file) [
  | inr fails ↦ rw fails (HasFile-directory_files p es h)
  | inl holds ↦ rw holds (inr (HasFile-directory_files p es h))
]

pub directory_subdirs-HasDirectory :
    (p : List ℕ) (es : List Entry) → Has p (directory_subdirs es) → HasDirectory p es
unfolding directory_subdirs
directory_subdirs-HasDirectory p [] h = absurd h
directory_subdirs-HasDirectory p (e ∷ es) h = elim (Bool-cases e.is_directory) [
  | inr fails ↦ inr (directory_subdirs-HasDirectory p es (rw fails at h))
  | inl holds ↦
      let there : (e.path ≡ p) ⊎ Has p (directory_subdirs es) = rw holds at h in
      elim there [
        | inl same ↦ inl (holds, same)
        | inr k ↦ inr (directory_subdirs-HasDirectory p es k)
      ]
]

pub HasDirectory-directory_subdirs :
    (p : List ℕ) (es : List Entry) → HasDirectory p es → Has p (directory_subdirs es)
unfolding directory_subdirs
HasDirectory-directory_subdirs p [] h = absurd h
HasDirectory-directory_subdirs p (e ∷ es) (inl (holds, same)) = rw holds (inl same)
HasDirectory-directory_subdirs p (e ∷ es) (inr h) = elim (Bool-cases e.is_directory) [
  | inr fails ↦ rw fails (HasDirectory-directory_subdirs p es h)
  | inl holds ↦ rw holds (inr (HasDirectory-directory_subdirs p es h))
]
