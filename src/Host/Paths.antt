-- ===== src/Host/Paths.antt =====
-- Equality of paths, and what is found in the file system after a file was written.
use elykseer_cpp.Base.{
  ◌≡◌, refl, ap, true, none, some, [], ◌∷◌, arith, str_eq_refl, str_eq→eq, Block, Bool-cases, inl,
  inr,
}
use elykseer_cpp.Host.{FilePath, path_eq, World, put_file}

pub path_eq_refl : (p : FilePath) → path_eq p p ≡ true
unfolding path_eq
path_eq_refl [] = refl
path_eq_refl (x ∷ p) = ground (arith, str_eq_refl x, path_eq_refl p)

pub path_eq→eq : (p q : FilePath) → path_eq p q ≡ true → p ≡ q
unfolding path_eq
path_eq→eq [] [] h = refl
path_eq→eq (x ∷ p) (y ∷ q) h = ground (arith, str_eq→eq x y, path_eq→eq p q)
path_eq→eq [] (y ∷ q) h = cc
path_eq→eq (x ∷ p) [] h = cc

pub files-put_file_self : (w : World) (p : FilePath) (b : Block) → (put_file w p b).files p ≡ some b
files-put_file_self w p b = rw (path_eq_refl p) refl

-- A file that was there is still there after one that was not there is written.
pub files-put_file_other :
    (w : World) (p q : FilePath) (b b' : Block)
    → w.files p ≡ none
    → w.files q ≡ some b'
    → (put_file w p b).files q ≡ some b'
files-put_file_other w p q b b' absent present = elim (Bool-cases (path_eq p q)) [
  | inl e ↦ let same = path_eq→eq p q e in absurd (cc (ap w.files same))
  | inr e ↦ rw e present
]
