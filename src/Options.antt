-- ===== src/Options.antt =====
-- src/cpp/cli: what the options of the command-line programs have in common. An option is what
-- getopt_long reports; a setting that is refused ends the program with a code. The messages are left
-- out.
pub mod Backup
pub mod Restore
pub mod Valid
pub mod Configured
use elykseer_cpp.Base.{
  ℕ, zero, suc, ◌+◌, ◌-◌, ◌*◌, ◌≤◌, Bool, true, false, ◌&&◌, ◌||◌, Option, none, some, List, [],
  ◌∷◌, ◌++◌, ◌==◌, leb, ltb, if◌then◌else◌, length, ℤ, pos, negsuc,
}
use elykseer_cpp.Host.{FilePath}
use elykseer_cpp.Restore.{parts}

-- The program goes on with a state, or `exit` was called.
pub data Running (S : Type 0) : Type 0 where
  running : S → Running S
  exits : ℕ → Running S

infixl 5 ◌>>=◌
abbrev pub ◌>>=◌ : {S T : Type 0} → Running S → (S → Running T) → Running T
running s >>= f = f s
exits n >>= f = exits n

-- The elements of a path: the root, if there is one, and the elements behind it.
abbrev pub without_blank : List (List ℕ) → FilePath
without_blank ([] ∷ []) = []
without_blank ps = ps

unfoldable pub path_of : List ℕ → FilePath
unfolding parts
path_of [] = []
path_of (c ∷ s) = if c == 47 then (47 ∷ []) ∷ without_blank (parts [] s) else parts [] (c ∷ s)

-- atoi: blanks, a sign, and digits up to the first other character. The number fits an `int`.
abbrev pub is_blank : ℕ → Bool
is_blank c = c == 32 || leb 9 c && leb c 13

unfoldable pub digits : ℕ → List ℕ → ℕ
digits acc [] = acc
digits acc (c ∷ s) =
    let more = digits (acc * 10 + (c - 48)) s in if leb 48 c && leb c 57 then more else acc

abbrev pub negated : ℕ → ℤ
negated zero = pos 0
negated (suc n) = negsuc n

unfoldable pub atoi : List ℕ → ℤ
unfolding digits
atoi [] = pos 0
atoi (c ∷ s) =
    let rest = atoi s in
    if is_blank c
    then rest
    else if c == 45
    then negated (digits 0 s)
    else if c == 43
    then pos (digits 0 s)
    else pos (digits 0 (c ∷ s))

-- set_n_chunks: the number, if it is from 16 to 256.
unfoldable pub set_n_chunks : List ℕ → Option ℕ
unfolding atoi
set_n_chunks p = elim (atoi p) [
  | pos n ↦ if leb 16 n && leb n 256 then some n else none
  | negsuc n ↦ none
]

-- set_myid: a text of more than 5 characters.
unfoldable pub set_myid : List ℕ → Option (List ℕ)
set_myid p = if ltb 5 (length p) then some p else none

-- A path that passes a test (set_chunk_path, set_meta_path, set_output_path).
abbrev pub checked_path : (List ℕ → Bool) → List ℕ → Option (List ℕ)
checked_path test p = if test p then some p else none

-- A list of at most `limit - 1` entries: another one, if it passes a test.
unfoldable pub add_entry : ℕ → (List ℕ → Bool) → List (List ℕ) → List ℕ → Option (List (List ℕ))
add_entry limit test entries p =
    if leb (limit - 1) (length entries)
    then none
    else if test p
    then some (entries ++ p ∷ [])
    else none

-- A setting that was refused: output_error exits with 1.
abbrev pub or_error : {A S : Type 0} → Option A → (A → S) → Running S
or_error none f = exits 1
or_error (some a) f = running (f a)
