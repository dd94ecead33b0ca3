-- ===== src/Environment/Ready.antt =====
-- Environments that are ready for a block, and finalise_and_recreate_assembly.
use elykseer_cpp.Base.{
  ◌≡◌, refl, ◌∙◌, ap, sym, subst, Option, none, some, ℕ, Block, ◌-◌, ◌*◌, ◌≤◌, arith, leb,
  Bool-cases, Option-cases, inl, inr, ◌==◌,
}
use elykseer_cpp.Host.{World}
use elykseer_cpp.Buffer.{tag_len}
use elykseer_cpp.Cipher.{Crypto}
use elykseer_cpp.Assembly.{Assembly, writable, assemblysize, header_len}
use elykseer_cpp.Assembly.Writable.{finish, create_writable}
use elykseer_cpp.Assembly.Writable.Create.{create_writable-Created}
use elykseer_cpp.Assembly.Writable.Backup.{IsWritable, Created-IsWritable}
use elykseer_cpp.Assembly.Full
use elykseer_cpp.Assembly.Chunks.{extract}
use elykseer_cpp.Environment.{
  EnvironmentWritable, AidKey, new_key, recreate_assembly, seal_assembly, finalise_assembly,
  finalise_and_recreate_assembly,
}

-- An environment with a well-formed assembly `a`, whose memory is `t`.
pub record IsReady (e : EnvironmentWritable) (a : Assembly writable) (t : Block) : Type 0 where
  pub current : e.assembly ≡ some a
  pub same_config : a.config ≡ e.config
  pub valid : IsWritable a t
  pub header : header_len e.config.nchunks ≤ a.info.apos

-- What a new assembly has room for.
abbrev pub capacity : ℕ → ℕ
capacity n = assemblysize n - header_len n - tag_len * n

module _ (cr : Crypto) where
  seal_assembly-config :
      (e : EnvironmentWritable) (a : Assembly writable) (w : World)
      → (seal_assembly cr e a w).1.config ≡ e.config
  unfolding seal_assembly
  seal_assembly-config e a w =
      elim (Option-cases (Full.encrypt cr (finish a).0 (new_key e.config w).0).0) [
        | inl n ↦ rw (n, seal_assembly) refl
        | inr (enc, n) ↦
            elim (Bool-cases
              ((extract cr enc (new_key e.config w).1).0 == assemblysize e.config.nchunks)) [
                | inl all ↦ rw (n, seal_assembly) (rw all refl)
                | inr part ↦ rw (n, seal_assembly) (rw part refl)
              ]
      ]

  finalise_assembly-config :
      (e : EnvironmentWritable) (w : World) → (finalise_assembly cr e w).1.config ≡ e.config
  unfolding finalise_assembly
  finalise_assembly-config e w = elim (Option-cases e.assembly) [
    | inl n ↦ rw (n, finalise_assembly) refl
    | inr (a, n) ↦ elim (Bool-cases (leb a.info.apos (header_len e.config.nchunks))) [
      | inl empty ↦ rw (n, finalise_assembly) (rw empty refl)
      | inr full ↦
          rw (n, finalise_assembly)
            (rw full (seal_assembly-config (record e { assembly = none }) a w))
    ]
  ]

  -- A new assembly is empty and well formed.
  pub recreate_assembly-IsReady :
      (e : EnvironmentWritable) (w : World)
      → 16 ≤ e.config.nchunks
      → e.config.nchunks ≤ 256
      → (e' : EnvironmentWritable) × (w' : World) × (a : Assembly writable) × (t : Block)
        × (recreate_assembly cr e w ≡ some (e', w'))
        × IsReady e' a t
        × (a.info.apos ≡ header_len e.config.nchunks)
        × (e'.config ≡ e.config)
  unfolding recreate_assembly
  recreate_assembly-IsReady e w lo hi =
      let (a, w', t, eq, k) = create_writable-Created cr e.config w lo in
      (
        record e { assembly = some a },
        w',
        a,
        t,
        rw (eq, recreate_assembly) refl,
        record {
          current = refl;
          same_config = k.config_is;
          valid = Created-IsWritable e.config w w' a t lo hi k;
          header = omega (arith, k.apos_is);
        },
        k.apos_is,
        refl,
      )

  -- finalise_and_recreate_assembly never throws: what finalise_assembly returned, and a new assembly.
  pub finalise_and_recreate_assembly-IsReady :
      (e : EnvironmentWritable) (w : World)
      → 16 ≤ e.config.nchunks
      → e.config.nchunks ≤ 256
      → (e' : EnvironmentWritable) × (w' : World) × (a : Assembly writable) × (t : Block)
        × (finalise_and_recreate_assembly cr e w ≡ some ((finalise_assembly cr e w).0, e', w'))
        × IsReady e' a t
        × (a.info.apos ≡ header_len e.config.nchunks)
        × (e'.config ≡ e.config)
  unfolding finalise_and_recreate_assembly
  finalise_and_recreate_assembly-IsReady e w lo hi =
      let c = finalise_assembly-config e w in
      let n : (finalise_assembly cr e w).1.config.nchunks ≡ e.config.nchunks =
        ap (λ x. x.nchunks) c in
      let (e', w', a, t, eq, r, apos, c') =
        recreate_assembly-IsReady (finalise_assembly cr e w).1 (finalise_assembly cr e w).2
          (omega (arith, n)) (omega (arith, n)) in
      (
        e',
        w',
        a,
        t,
        rw (eq, finalise_and_recreate_assembly) refl,
        r,
        apos ∙ ap header_len n,
        c' ∙ c,
      )

  pub recreate_assembly-failed :
      (e e' : EnvironmentWritable) (w w' : World)
      → recreate_assembly cr e w ≡ some (e', w')
      → e'.n_failed ≡ e.n_failed
  unfolding recreate_assembly
  recreate_assembly-failed e e' w w' h = elim (Option-cases (create_writable cr e.config w)) [
    | inl n ↦ absurd (cc (rw (n, recreate_assembly) at h))
    | inr ((a, w1), n) ↦
        let same : record e { assembly = some a } ≡ e' = cc (rw (n, recreate_assembly) at h) in
        ap (λ (x : EnvironmentWritable). x.n_failed) (sym same)
  ]

  -- A new assembly does not change the count of failures.
  pub recreated_failed :
      (e e' : EnvironmentWritable) (w w' : World) {oki : Option AidKey}
      → finalise_and_recreate_assembly cr e w ≡ some (oki, e', w')
      → e'.n_failed ≡ (finalise_assembly cr e w).1.n_failed
  unfolding finalise_and_recreate_assembly
  recreated_failed e e' w w' h =
      elim (Option-cases
        (recreate_assembly cr (finalise_assembly cr e w).1 (finalise_assembly cr e w).2)) [
          | inl n ↦ absurd (cc (rw (n, finalise_and_recreate_assembly) at h))
          | inr ((e1, w1), n) ↦
              let same : e1 ≡ e' = cc (rw (n, finalise_and_recreate_assembly) at h) in
              subst
                (λ (x : EnvironmentWritable). x.n_failed ≡ (finalise_assembly cr e w).1.n_failed)
                same
                (recreate_assembly-failed (finalise_assembly cr e w).1 e1
                  (finalise_assembly cr e w).2 w1 n)
        ]
