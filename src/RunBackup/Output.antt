-- ===== src/RunBackup/Output.antt =====
-- The documents that lxrbackup writes, and the count of failed assemblies that it looks at.
use elykseer_cpp.Base.{
  ℕ, ◌≡◌, refl, ◌∙◌, ap, Bool, true, false, some, List, [], ◌∷◌, ◌++◌, arith, ltb, leb,
  if◌then◌else◌, str_eq, str_eq_refl, ne→str_eq, length-append, codes, length, min, Block, of_list,
  Bool-cases, Option-cases, inl, inr,
}
use elykseer_cpp.Host.{World, FilePath, path_eq}
use elykseer_cpp.Host.Paths.{files-put_file_self}
use elykseer_cpp.Store.Documents.{Origin}
use elykseer_cpp.Cache.{Cache}
use elykseer_cpp.Cache.Progress.{failures}
use elykseer_cpp.Cache.Metrics.{metrics}
use elykseer_cpp.RunBackup.{Gpg, output_file, encrypted_output, document_name, none_failed}

-- The block of a text.
abbrev pub whole : List ℕ → Block
whole s = record { len = length s; byte = of_list s }

-- A document is in a file, encrypted to a key.
pub record IsWrittenTo (gpg : Gpg) (document key : List ℕ) (fp : FilePath) (w : World)
    : Type 0 where
  pub encrypted : List ℕ
  pub encrypted_is : gpg.encrypt_to_key document key ≡ some encrypted
  pub present : w.files fp ≡ some (whole encrypted)

abbrev pub Written : Gpg → List ℕ → List ℕ → FilePath → World → Bool × World → Type 0
Written gpg document key fp w (true, w') =
    IsWrittenTo gpg document key fp w'
    × ((q : FilePath) → path_eq fp q ≡ false → w'.files q ≡ w.files q)
Written gpg document key fp w (false, w') = Unit {0}

output_file-Written :
    (gpg : Gpg) (document key enc : List ℕ) (fp : FilePath) (w : World)
    → gpg.encrypt_to_key document key ≡ some enc
    → Written gpg document key fp w (output_file fp enc w)
unfolding output_file
output_file-Written gpg document key enc fp w e = elim (Bool-cases (w.write_ok fp)) [
  | inr no_write ↦ rw (no_write, output_file) tt
  | inl write ↦ elim (Bool-cases (leb (length enc) (w.room fp))) [
    | inr full ↦ rw (write, output_file) (rw full tt)
    | inl fits ↦
        let same : min (length enc) (w.room fp) ≡ length enc = ground arith in
        rw (write, output_file)
          (rw fits (
            record {
              encrypted = enc;
              encrypted_is = e;
              present =
                  files-put_file_self w fp
                    (record { len = min (length enc) (w.room fp); byte = of_list enc })
                  ∙ ap (λ (n : ℕ). let b : Block = record { len = n; byte = of_list enc } in some b)
                      same;
            },
            λ q other. rw other refl,
          ))
  ]
]

pub encrypted_output-Written :
    (gpg : Gpg) (document key : List ℕ) (fp : FilePath) (w : World)
    → Written gpg document key fp w (encrypted_output gpg document fp key w)
unfolding encrypted_output
encrypted_output-Written gpg document key fp w = elim (Bool-cases (gpg.has_public_key key)) [
  | inr unknown ↦ rw (unknown, encrypted_output) tt
  | inl known ↦ elim (Option-cases (gpg.encrypt_to_key document key)) [
    | inl e ↦ rw (known, encrypted_output) (rw e tt)
    | inr (enc, e) ↦
        rw (known, encrypted_output) (rw e (output_file-Written gpg document key enc fp w e))
  ]
]

-- The assemblies that the cache failed to write.
abbrev pub failed_assemblies : Cache → ℕ
failed_assemblies c = failures c.writeenv

pub none_failed-metrics :
    (c : Cache) (ok : Bool)
    → none_failed (metrics c) ok ≡ (if ltb 0 (failed_assemblies c) then false else ok)
unfolding none_failed metrics str_eq
none_failed-metrics c ok = refl

pub path_eq_last :
    (p : FilePath) (a b : List ℕ) → str_eq a b ≡ false → path_eq (p ++ a ∷ []) (p ++ b ∷ []) ≡ false
unfolding path_eq
path_eq_last [] a b h = rw h refl
path_eq_last (x ∷ p) a b h = rw (str_eq_refl x) (path_eq_last p a b h)

pub endings_differ :
    (o : Origin)
    → str_eq (document_name o (codes "-files.xml")) (document_name o (codes "-dbks.xml")) ≡ false
endings_differ o =
    ne→str_eq (document_name o (codes "-files.xml")) (document_name o (codes "-dbks.xml")) (λ same.
      omega (
        arith,
        ap length same,
        length-append (codes "LXRbackup-") (o.timestamp ++ codes "-files.xml"),
        length-append (codes "LXRbackup-") (o.timestamp ++ codes "-dbks.xml"),
        length-append o.timestamp (codes "-files.xml"),
        length-append o.timestamp (codes "-dbks.xml"),
      ))
