-- ===== src/Cache/Life.antt =====
-- close, and what a write request does after it.
use elykseer_cpp.Base.{
  ◌≡◌, refl, Option, none, some, List, [], ℕ, inl, inr, Option-cases, Bool-cases, leb, ◌==◌,
}
use elykseer_cpp.Host.{World}
use elykseer_cpp.Buffer.{Buffer, plain, buffer_len}
use elykseer_cpp.Cipher.{Crypto}
use elykseer_cpp.Assembly.{Assembly, writable, assemblysize, header_len}
use elykseer_cpp.Assembly.Full
use elykseer_cpp.Assembly.Full.{restore}
use elykseer_cpp.Assembly.Writable.{finish}
use elykseer_cpp.Assembly.Chunks.{extract}
use elykseer_cpp.Environment.{
  EnvironmentWritable, new_key, seal_assembly, finalise_assembly, backup,
}
use elykseer_cpp.Store.{KeyStore, FBlockStore}
use elykseer_cpp.Cache.{Cache, WriteQueueEntity, add64}
use elykseer_cpp.Cache.Write.{
  add_blocks, add_keys, write_buffer, ensure_writeenv, run_write_request, close,
}

module _ (cr : Crypto) where
  seal_assembly-none :
      (e : EnvironmentWritable) (a : Assembly writable) (w : World)
      → e.assembly ≡ none
      → (seal_assembly cr e a w).1.assembly ≡ none
  unfolding seal_assembly
  seal_assembly-none e a w h =
      elim (Option-cases (Full.encrypt cr (finish a).0 (new_key e.config w).0).0) [
        | inl n ↦ rw (n, seal_assembly) h
        | inr (enc, n) ↦
            elim (Bool-cases
              ((extract cr enc (new_key e.config w).1).0 == assemblysize e.config.nchunks)) [
                | inl all ↦ rw (n, seal_assembly) (rw all h)
                | inr part ↦ rw (n, seal_assembly) (rw part h)
              ]
      ]

  -- finalise_assembly leaves no assembly, whether or not it returns a key.
  pub finalise_assembly-none :
      (e : EnvironmentWritable) (w : World) → (finalise_assembly cr e w).1.assembly ≡ none
  unfolding finalise_assembly
  finalise_assembly-none e w = elim (Option-cases e.assembly) [
    | inl n ↦ rw (n, finalise_assembly) n
    | inr (a, n) ↦ elim (Bool-cases (leb a.info.apos (header_len e.config.nchunks))) [
      | inl empty ↦ rw (n, finalise_assembly) (rw empty refl)
      | inr data_left ↦
          rw (n, finalise_assembly)
            (rw data_left (seal_assembly-none (record e { assembly = none }) a w refl))
    ]
  ]

  backup-none :
      (e : EnvironmentWritable) (fname : List ℕ) (fpos : ℕ) (b : Buffer plain) (dlen : ℕ)
      (w : World)
      → e.assembly ≡ none
      → backup cr e fname fpos b dlen w ≡ some (([], []), e, w)
  unfolding backup
  backup-none e fname fpos b dlen w h = simp (h, backup) refl

  add_none :
      (bs : Option FBlockStore) (ks : Option KeyStore)
      → (add_blocks bs [] ≡ some bs) × (add_keys ks [] ≡ some ks)
  unfolding add_blocks add_keys
  add_none bs ks = (refl, refl)

  dropped :
      (c : Cache) (e : EnvironmentWritable) (r : WriteQueueEntity) (b : Buffer plain) (w : World)
      → c.writeenv ≡ some e
      → e.assembly ≡ none
      → r.buffer ≡ some b
      → run_write_request cr c r w
        ≡ some (
          record c {
            stats = record c.stats { backup_bytes = add64 c.stats.backup_bytes (buffer_len b) };
          },
          w,
        )
  unfolding run_write_request write_buffer ensure_writeenv
  dropped c e r b w h n buf =
      let back = backup-none e (cr.to_hex r.fhash) r.fpos b (buffer_len b) w n in
      let (nb, nk) = add_none c.fblockstore c.keystore in
      simp (h, run_write_request, ensure_writeenv, buf, write_buffer, back) refl

  -- After close on a cache with a write environment, a write request with a buffer leaves the
  -- stores, the assembly and the host as they are, but the bytes of the buffer are counted as
  -- backed up.
  pub run_write_request-close :
      (c : Cache) (e : EnvironmentWritable) (w w' : World) (r : WriteQueueEntity) (b : Buffer plain)
      → c.writeenv ≡ some e
      → r.buffer ≡ some b
      → run_write_request cr (close cr c w).0 r w'
        ≡ some (
          record (close cr c w).0 {
            stats = record (close cr c w).0.stats {
              backup_bytes = add64 (close cr c w).0.stats.backup_bytes (buffer_len b);
            };
          },
          w',
        )
  unfolding close
  run_write_request-close c e w w' r b h buf =
      dropped (close cr c w).0 (finalise_assembly cr e w).1 r b w' (rw (h, close) refl)
        (finalise_assembly-none e w) buf
