-- ===== src/Cache/Whole.antt =====
-- The assemblies that a cache restores have all of their memory, whatever is in the chunk files.
use elykseer_cpp.Base.{
  ℕ, ◌*◌, ◌-◌, ◌≤◌, ◌<◌, ◌≡◌, refl, ◌∙◌, ap, subst, Bool, true, false, Option, none, some, List, [],
  ◌∷◌, ltb, pos, Block, slice, Bool-cases, Option-cases, inl, inr, if◌then◌else◌,
}
use elykseer_cpp.Host.{World, File}
use elykseer_cpp.Nchunks.{sequence}
use elykseer_cpp.Buffer.{
  Buffer, encrypted, plain, tag_len, create, alloc, past_end, filein_pimpl, filein_sz_pos,
}
use elykseer_cpp.Cipher.{
  Crypto, verify_tag, decrypt_buffer, too_short, nonce_from_ivec, handed_over,
}
use elykseer_cpp.Cipher
use elykseer_cpp.Assembly.{
  Configuration, KeyInformation, Stage, full, sealed, Assembly, assemblysize, chunksize,
  supported_format,
}
use elykseer_cpp.Assembly.Chunks.{read_chunk, recall_chunk, recall_loop, recall, chunk_path}
use elykseer_cpp.Assembly.Full
use elykseer_cpp.Environment.{EnvironmentReadable, restore_assembly}

abbrev pub IfSome : {A : Type 0} → (A → Type 0) → Option A → Type 0
IfSome P none = Unit {0}
IfSome P (some a) = P a

-- An assembly of 1 to 256 chunks with all of its memory.
pub record IsWhole {k : Stage} (a : Assembly k) : Type 0 where
  pub src : Block
  pub held : a.buffer ≡ some (record { pimpl = some src })
  pub n_pos : 0 < a.config.nchunks
  pub n_max : a.config.nchunks ≤ 256
  pub len_is : src.len ≡ assemblysize a.config.nchunks

-- An environment whose assembly, if it has one, is whole.
abbrev pub IsWholeEnv : EnvironmentReadable → Type 0
IsWholeEnv e = IfSome IsWhole e.assembly

abbrev HasMemory : ℕ → Buffer encrypted → Type 0
HasMemory n buf = (b : Block) × (buf ≡ record { pimpl = some b }) × (b.len ≡ n)

filein_pimpl-len :
    (b : Block) (p sz : ℕ) (f : File) → (filein_pimpl b (pos p) (pos sz) f).1.len ≡ b.len
unfolding filein_pimpl
filein_pimpl-len b p sz f = elim (Bool-cases (ltb sz 1)) [
  | inl h ↦ rw h refl
  | inr h ↦ elim (Bool-cases (past_end sz p b.len)) [
    | inl g ↦ rw h (rw g refl)
    | inr g ↦ rw h (rw g refl)
  ]
]

module _ (cr : Crypto) where
  read_chunk-HasMemory :
      (n : ℕ) (buf : Buffer encrypted) (content : Block) (cid : ℕ)
      → HasMemory n buf
      → HasMemory n (read_chunk cr buf content cid).1
  unfolding read_chunk filein_sz_pos
  read_chunk-HasMemory n buf content cid (b, e, l) =
      let f : File = record { content = content; offset = 0; room = 0 } in
      rw e (
        (filein_pimpl b (pos (chunksize * (cid - 1))) (pos chunksize) f).1,
        refl,
        filein_pimpl-len b (chunksize * (cid - 1)) chunksize f ∙ l,
      )

  recall_chunk-HasMemory :
      (n : ℕ) (cfg : Configuration) (aid : List ℕ) (buf : Buffer encrypted) (cid : ℕ) (w : World)
      → HasMemory n buf
      → HasMemory n (recall_chunk cr cfg aid buf cid w).1
  unfolding recall_chunk
  recall_chunk-HasMemory n cfg aid buf cid w h = elim (Option-cases (chunk_path cr cfg w cid aid)) [
    | inl no_path ↦ rw (no_path, recall_chunk) h
    | inr (p, e) ↦ elim (Option-cases (w.files p)) [
      | inl no_file ↦ rw (e, recall_chunk) (rw no_file h)
      | inr (content, g) ↦ elim (Bool-cases (w.read_ok p)) [
        | inl ok ↦ rw (e, recall_chunk) (rw g (rw ok (read_chunk-HasMemory n buf content cid h)))
        | inr bad ↦ rw (e, recall_chunk) (rw g (rw bad h))
      ]
    ]
  ]

  recall_loop-HasMemory :
      (n : ℕ) (cfg : Configuration) (aid : List ℕ) (cids : List ℕ) (nread : ℕ)
      (buf : Buffer encrypted) (w : World)
      → HasMemory n buf
      → HasMemory n (recall_loop cr cfg aid cids nread buf w).1
  unfolding recall_loop
  recall_loop-HasMemory n cfg aid [] nread buf w h = h
  recall_loop-HasMemory n cfg aid (cid ∷ cids) nread buf w h =
      recall_loop-HasMemory n cfg aid cids _ _ w (recall_chunk-HasMemory n cfg aid buf cid w h)

  recalled-IsWhole :
      (cfg : Configuration) (aid : List ℕ) (r : ℕ × Buffer encrypted) (b : Bool)
      → 0 < cfg.nchunks
      → cfg.nchunks ≤ 256
      → HasMemory (assemblysize cfg.nchunks) r.1
      → IfSome {A = Assembly sealed} IsWhole (
          if b
          then some (record {
            config = cfg;
            info = record { nchunks = cfg.nchunks; apos = r.0; aid = aid };
            buffer = some r.1;
          })
          else none)
  recalled-IsWhole cfg aid r false lo hi h = tt
  recalled-IsWhole cfg aid r true lo hi (m, e, l) = record {
    src = m;
    held = ap some e;
    n_pos = lo;
    n_max = hi;
    len_is = l;
  }

  recall-IsWhole :
      (cfg : Configuration) (aid : List ℕ) (w : World)
      → 0 < cfg.nchunks
      → cfg.nchunks ≤ 256
      → IfSome IsWhole (recall cr cfg aid w)
  unfolding recall create alloc
  recall-IsWhole cfg aid w lo hi = recalled-IsWhole cfg aid _ _ lo hi (
      recall_loop-HasMemory (assemblysize cfg.nchunks) cfg aid (sequence cfg.nchunks) 0
        (create (pos (assemblysize cfg.nchunks))) w
        (alloc (pos (assemblysize cfg.nchunks)), refl, refl))

  verify_tag-len :
      (b : Block) (r : Option cr.Decryptor × (ℕ → ℕ)) → (verify_tag cr b r).1.len ≡ b.len
  unfolding verify_tag
  verify_tag-len b (none, m) = refl
  verify_tag-len b (some d, m) = elim (Option-cases (cr.dec_finish d)) [
    | inl e ↦ rw (e, verify_tag) refl
    | inr (x, e) ↦ rw (e, verify_tag) refl
  ]

  decrypt_buffer-len :
      (iv pk aad : List ℕ) (b : Block) → (decrypt_buffer cr iv pk aad b).1.len ≡ b.len
  unfolding decrypt_buffer
  decrypt_buffer-len iv pk aad b = elim (Bool-cases (too_short b)) [
    | inl e ↦ rw (e, decrypt_buffer) refl
    | inr e ↦ elim (Option-cases (cr.dec_aad aad (cr.dec_new pk (nonce_from_ivec iv)))) [
      | inl f ↦ rw (e, decrypt_buffer) (rw f refl)
      | inr (d, f) ↦ elim (Option-cases (cr.dec_tag (slice b.byte (b.len - tag_len) tag_len) d)) [
        | inl g ↦ rw (e, decrypt_buffer) (rw f (rw g refl))
        | inr (d', g) ↦ rw (e, decrypt_buffer) (rw f (rw g (verify_tag-len b _)))
      ]
    ]
  ]

  handed_over-IsWhole :
      (enc : Assembly sealed) (r : Bool × Block)
      → 0 < enc.config.nchunks
      → enc.config.nchunks ≤ 256
      → r.1.len ≡ assemblysize enc.config.nchunks
      → IfSome {A = Assembly full} IsWhole (
          (elim (handed_over {s = encrypted} {t = plain} r).0
            as (λ x. Option (Assembly full) × Assembly sealed) [
              | none ↦ (none, record enc { buffer = none })
              | some newbuf ↦ (
                some (record { config = enc.config; info = enc.info; buffer = some newbuf }),
                record enc { buffer = none },
              )
            ]).0)
  unfolding handed_over
  handed_over-IsWhole enc (false, m) lo hi l = tt
  handed_over-IsWhole enc (true, m) lo hi l = record {
    src = m;
    held = refl;
    n_pos = lo;
    n_max = hi;
    len_is = l;
  }

  decrypt-IsWhole :
      (enc : Assembly sealed) (ki : KeyInformation)
      → IsWhole enc
      → IfSome IsWhole (Full.decrypt cr enc ki).0
  unfolding Full.decrypt Cipher.decrypt
  decrypt-IsWhole enc ki k =
      rw (k.held, Full.decrypt)
        (handed_over-IsWhole enc (decrypt_buffer cr ki.ivec ki.pkey enc.info.aid k.src) k.n_pos
          k.n_max (decrypt_buffer-len ki.ivec ki.pkey enc.info.aid k.src ∙ k.len_is))

  pub restore_assembly-IsWholeEnv :
      (cfg : Configuration) (aid : List ℕ) (ki : KeyInformation) (w : World)
      → 0 < cfg.nchunks
      → cfg.nchunks ≤ 256
      → IsWholeEnv (restore_assembly cr (record { config = cfg; assembly = none }) aid ki w).1
  unfolding restore_assembly
  restore_assembly-IsWholeEnv cfg aid ki w lo hi = elim (Bool-cases (supported_format ki.version)) [
    | inr old ↦ rw (old, restore_assembly) tt
    | inl new ↦ elim (Option-cases (recall cr cfg aid w)) [
      | inl lost ↦ rw (new, restore_assembly) (rw lost tt)
      | inr (enc, e) ↦
          let k : IsWhole enc = subst (IfSome IsWhole) e (recall-IsWhole cfg aid w lo hi) in
          elim (Option-cases (Full.decrypt cr enc ki).0) [
            | inl bad ↦ rw (new, restore_assembly) (rw e (rw bad tt))
            | inr (a, d) ↦
                rw (new, restore_assembly)
                  (rw e (rw d (subst (IfSome IsWhole) d (decrypt-IsWhole enc ki k))))
          ]
    ]
  ]
