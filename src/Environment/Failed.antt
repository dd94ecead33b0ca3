-- ===== src/Environment/Failed.antt =====
-- CoqEnvironmentWritable::finalise_assembly on an assembly that has data: the count of failures.
use elykseer_cpp.Base.{
  ℕ, zero, suc, ◌+◌, arith, ap, ◌∙◌, ◌≡◌, refl, Option, none, some, Option-cases, Bool-cases, inl,
  inr, ◌⊎◌, ◌==◌, ◌<◌, add32,
}
use elykseer_cpp.Host.{World}
use elykseer_cpp.Cipher.{Crypto}
use elykseer_cpp.Assembly.{Assembly, writable, KeyInformation, assemblysize, header_len}
use elykseer_cpp.Assembly.Writable.{finish}
use elykseer_cpp.Assembly.Full
use elykseer_cpp.Assembly.Chunks.{extract}
use elykseer_cpp.Environment.{
  EnvironmentWritable, AidKey, new_key, seal_assembly, finalise_assembly,
}
use elykseer_cpp.Environment.Finalise.{finalise_assembly-full}

-- The environment has no assembly any more, and either a key is returned for the aid, or the failure
-- is counted.
abbrev pub Counted :
    EnvironmentWritable → Assembly writable → Option AidKey × EnvironmentWritable × World → Type 0
Counted e a r =
    (r.1.assembly ≡ none)
    × (r.1.config ≡ e.config)
    × (((r.0 ≡ none) × (r.1.n_failed ≡ add32 e.n_failed 1))
        ⊎ ((ki : KeyInformation) × (r.0 ≡ some (a.info.aid, ki)) × (r.1.n_failed ≡ e.n_failed)))

plus_zero : (n : ℕ) → n ≡ zero + n
plus_zero n = omega arith

suc_plus : (m n : ℕ) → suc (m + n) ≡ suc m + n
suc_plus m n = omega arith

-- The count of failures after `n` more of them.
abbrev pub failed_times : ℕ → ℕ → ℕ
failed_times zero count = count
failed_times (suc n) count = failed_times n (add32 count 1)

failed_times_add :
    (m n count : ℕ) → failed_times n (failed_times m count) ≡ failed_times (m + n) count
failed_times_add zero n count = ap (λ k. failed_times k count) (plus_zero n)
failed_times_add (suc m) n count =
    failed_times_add m n (add32 count 1) ∙ ap (λ k. failed_times k count) (suc_plus m n)

pub failed_twice :
    (m n x : ℕ) {y z : ℕ} → y ≡ failed_times m x → z ≡ failed_times n y → z ≡ failed_times (m + n) x
failed_twice m n x e f = f ∙ ap (failed_times n) e ∙ failed_times_add m n x

module _ (cr : Crypto) (e : EnvironmentWritable) (a : Assembly writable) (w : World) where
  seal_assembly-Counted : e.assembly ≡ none → Counted e a (seal_assembly cr e a w)
  unfolding seal_assembly
  seal_assembly-Counted h =
      elim (Option-cases (Full.encrypt cr (finish a).0 (new_key e.config w).0).0) [
        | inl n ↦ rw (n, seal_assembly) (h, refl, inl (refl, refl))
        | inr (enc, n) ↦
            elim (Bool-cases
              ((extract cr enc (new_key e.config w).1).0 == assemblysize e.config.nchunks)) [
                | inl all ↦
                    rw (n, seal_assembly)
                      (rw all (h, refl, inr ((new_key e.config w).0, refl, refl)))
                | inr part ↦ rw (n, seal_assembly) (rw part (h, refl, inl (refl, refl)))
              ]
      ]

module _ (cr : Crypto) (e : EnvironmentWritable) (a : Assembly writable) (w : World) where
  -- For an environment whose assembly has data: finalise_assembly leaves it without an assembly, and
  -- either returns a key for the assembly's aid with the count of failures unchanged, or returns none
  -- with the count increased.
  pub finalise_assembly-Counted :
      e.assembly ≡ some a
      → header_len e.config.nchunks < a.info.apos
      → Counted e a (finalise_assembly cr e w)
  finalise_assembly-Counted held filled =
      rw (finalise_assembly-full cr e a w held filled)
        (seal_assembly-Counted cr (record e { assembly = none }) a w refl)
