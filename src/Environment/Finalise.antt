-- ===== src/Environment/Finalise.antt =====
-- CoqEnvironmentWritable::finalise_assembly: what a key that it returns stands for.
use elykseer_cpp.Base.{
  ◌≡◌, refl, sym, subst, ap, true, false, Option, none, some, List, ℕ, Block, Option-cases,
  Bool-cases, inl, inr, ◌==◌, leb, le→leb, ◌≤◌, ◌<◌, arith,
}
use elykseer_cpp.Host.{World}
use elykseer_cpp.Cipher.{Crypto, encrypt_buffer}
use elykseer_cpp.Assembly.{
  Assembly, writable, sealed, KeyInformation, assemblysize, header_len, format_version,
}
use elykseer_cpp.Assembly.Writable.{finish}
use elykseer_cpp.Assembly.Writable.Backup.{IsWritable}
use elykseer_cpp.Assembly.Full
use elykseer_cpp.Assembly.Full.Seal.{encrypt-some}
use elykseer_cpp.Assembly.Chunks.{extract}
use elykseer_cpp.Environment.{
  EnvironmentWritable, AidKey, new_key, seal_assembly, finalise_assembly,
}

-- An assembly that was sealed under a key and written: the encrypted memory `b`, and the world `w1`
-- in which `extract` counted all of it.
pub record Sealed (cr : Crypto) (a : Assembly writable) (t : Block) (aid : List ℕ)
    (ki : KeyInformation) (w w' : World) : Type 0 where
  pub enc : Assembly sealed
  pub b : Block
  pub w1 : World
  pub encrypted : encrypt_buffer cr ki.ivec ki.pkey a.info.aid t ≡ (true, b)
  pub config_is : enc.config ≡ a.config
  pub info_is : enc.info ≡ a.info
  pub held : enc.buffer ≡ some (record { pimpl = some b })
  pub counted : (extract cr enc w1).0 ≡ assemblysize a.config.nchunks
  pub written : (extract cr enc w1).2 ≡ w'
  pub aid_is : aid ≡ a.info.aid
  pub version_is : ki.version ≡ format_version
  pub room_same : w1.room ≡ w.room

result_parts :
    (x x' : List ℕ) (k k' : KeyInformation) (e e' : EnvironmentWritable) (w w' : World)
    → ◌≡◌ {A = Option AidKey × EnvironmentWritable × World}
        (some (x, k), e, w)
        (some (x', k'), e', w')
    → (x ≡ x') × (k ≡ k') × (e ≡ e') × (w ≡ w')
result_parts x x' k k' e e' w w' h = (cc, cc, cc, cc)

module _ (cr : Crypto) (e : EnvironmentWritable) (a : Assembly writable) (t : Block) (w : World)
    (v : IsWritable a t) (same : a.config ≡ e.config) where
  seal_assembly-Sealed :
      (aid : List ℕ) (ki : KeyInformation) (e' : EnvironmentWritable) (w' : World)
      → seal_assembly cr e a w ≡ (some (aid, ki), e', w')
      → Sealed cr a t aid ki w w'
  unfolding seal_assembly new_key finish
  seal_assembly-Sealed aid ki e' w' h =
      let ki0 = (new_key e.config w).0 in
      let w1 = (new_key e.config w).1 in
      elim (Option-cases (Full.encrypt cr (finish a).0 ki0).0) [
        | inl n ↦ absurd (cc (rw (n, seal_assembly) at h))
        | inr (enc, n) ↦
            elim (Bool-cases ((extract cr enc w1).0 == assemblysize e.config.nchunks)) [
              | inr part ↦ absurd (cc (rw part at (rw (n, seal_assembly) at h)))
              | inl all ↦
                  let h1 = rw all at (rw (n, seal_assembly) at h) in
                  let (b, eb, ee) = encrypt-some cr (finish a).0 ki0 t enc v.held n in
                  let (xe, ke, _, we) = result_parts a.info.aid aid ki0 ki e e' _ w' h1 in
                  record {
                    enc = enc;
                    b = b;
                    w1 = w1;
                    encrypted =
                        subst
                          (λ (k : KeyInformation).
                            encrypt_buffer cr k.ivec k.pkey a.info.aid t ≡ (true, b))
                          ke eb;
                    config_is = ap (λ (x : Assembly sealed). x.config) ee;
                    info_is = ap (λ (x : Assembly sealed). x.info) ee;
                    held = ap (λ (x : Assembly sealed). x.buffer) ee;
                    counted = rw same (ground arith);
                    written = we;
                    aid_is = sym xe;
                    version_is = rw (← ke) refl;
                    room_same = refl;
                  }
            ]
      ]

module _ (cr : Crypto) (e : EnvironmentWritable) (a : Assembly writable) (w : World) where
  -- finalise_assembly on an assembly without data, and on one with data.
  pub finalise_assembly-empty :
      e.assembly ≡ some a
      → a.info.apos ≤ header_len e.config.nchunks
      → finalise_assembly cr e w ≡ (none, record e { assembly = none }, w)
  unfolding finalise_assembly
  finalise_assembly-empty held empty = rw (held, finalise_assembly) (rw (le→leb _ _ empty) refl)

  pub finalise_assembly-full :
      e.assembly ≡ some a
      → header_len e.config.nchunks < a.info.apos
      → finalise_assembly cr e w ≡ seal_assembly cr (record e { assembly = none }) a w
  unfolding finalise_assembly
  finalise_assembly-full held some_data =
      let t : leb a.info.apos (header_len e.config.nchunks) ≡ false = ground arith in
      rw (held, finalise_assembly) (rw t refl)

  -- A key is only returned for an assembly that was sealed under it and written.
  pub finalise_assembly-Sealed :
      (t : Block) (aid : List ℕ) (ki : KeyInformation) (e' : EnvironmentWritable) (w' : World)
      → IsWritable a t
      → a.config ≡ e.config
      → e.assembly ≡ some a
      → finalise_assembly cr e w ≡ (some (aid, ki), e', w')
      → Sealed cr a t aid ki w w'
  finalise_assembly-Sealed t aid ki e' w' v same held h =
      elim (Bool-cases (leb a.info.apos (header_len e.config.nchunks))) [
        | inl empty ↦ absurd (cc (rw (finalise_assembly-empty held (ground arith)) at h))
        | inr some_data ↦
            seal_assembly-Sealed cr (record e { assembly = none }) a t w v same aid ki e' w'
              (rw (finalise_assembly-full held (ground arith)) at h)
      ]
