-- ===== src/Cache/Archived.antt =====
-- A block through the whole cache: close, and a read request for it.
use elykseer_cpp.Base.{
  ◌≡◌, refl, ◌∙◌, ap, true, Option, none, some, List, [], ◌∷◌, ℕ, ◌≤◌, ◌<◌, ◌+◌, Block, slice,
  add32,
}
use elykseer_cpp.Host.{World, FilePath}
use elykseer_cpp.Buffer.{Buffer, plain}
use elykseer_cpp.Cipher.{Crypto}
use elykseer_cpp.Cipher.Laws.{IsGcm}
use elykseer_cpp.Assembly.{Assembly, writable, full, KeyInformation, chunksize}
use elykseer_cpp.Assembly.Full.{restore}
use elykseer_cpp.Assembly.Writable.Backup.{IsWritable, logical}
use elykseer_cpp.Environment.{
  EnvironmentWritable, EnvironmentReadable, finalise_assembly, restore_assembly,
}
use elykseer_cpp.Environment.Archive.{restore-archived}
use elykseer_cpp.Store.{find, KeyStore, add_key}
use elykseer_cpp.Store.Entries.{add_key-new}
use elykseer_cpp.Cache.{Cache, ReadQueueEntity, add64}
use elykseer_cpp.Cache.Read.{
  take_out, ensure_assembly, try_restore_assembly, run_read_requests, block_of, push_env,
  result_len,
}
use elykseer_cpp.Cache.Write.{store_key, close}

module _ (cr : Crypto) where
  try_restore_assembly-some :
      (c : Cache) (sel : List ℕ) (ks : KeyStore) (ki : KeyInformation) (w : World)
      → c.keystore ≡ some ks
      → find ks sel ≡ some ki
      → (restore_assembly cr (record { config = c.config; assembly = none }) sel ki w).0 ≡ true
      → (c' : Cache) × (try_restore_assembly cr c sel w ≡ (
        some (restore_assembly cr (record { config = c.config; assembly = none }) sel ki w).1,
        c',
      ))
  unfolding try_restore_assembly
  try_restore_assembly-some c sel ks ki w h f ok = (
    record c {
      stats = record c.stats { n_assembly_recalled = add32 c.stats.n_assembly_recalled 1 };
    },
    simp (h, try_restore_assembly, f, ok) refl,
  )

  ensure_assembly-new :
      (c c1 : Cache) (sel : List ℕ) (env : EnvironmentReadable) (w : World)
      → take_out sel c.readenvs ≡ none
      → try_restore_assembly cr c sel w ≡ (some env, c1)
      → (c' : Cache) × (ensure_assembly cr c sel w ≡ (some env, c'))
  unfolding ensure_assembly
  ensure_assembly-new c c1 sel env w n h = (
    record c1 { readenvs = push_env c1.n_readenvs env c1.readenvs },
    simp (n, ensure_assembly, h) refl,
  )

  run_read_requests-one :
      (c c1 : Cache) (r : ReadQueueEntity) (env : EnvironmentReadable) (f : Assembly full)
      (res : Option (Buffer plain)) (w : World)
      → ensure_assembly cr c r.aid w ≡ (some env, c1)
      → env.assembly ≡ some f
      → restore cr f (block_of cr r) ≡ some res
      → (c' : Cache) × (run_read_requests cr c (r ∷ []) w
          ≡ some (record { readrequest = r; rresult = res } ∷ [], c'))
  unfolding run_read_requests
  run_read_requests-one c c1 r env f res w h a b = (
    record c1 {
      stats = record c1.stats {
        restored_bytes = add64 c1.stats.restored_bytes (result_len cr res);
        n_read_requests = add32 c1.stats.n_read_requests 1;
      };
    },
    simp (h, run_read_requests, a, b) refl,
  )

  close-run :
      (c : Cache) (e e' : EnvironmentWritable) (ks : KeyStore) (aid : List ℕ) (ki : KeyInformation)
      (w w' : World)
      → c.writeenv ≡ some e
      → c.keystore ≡ some ks
      → finalise_assembly cr e w ≡ (some (aid, ki), e', w')
      → close cr c w ≡ (
        record c {
          writeenv = some e';
          keystore = some (add_key ks aid ki).1;
          stats = record c.stats { n_assembly_finalised = add32 c.stats.n_assembly_finalised 1 };
        },
        w',
      )
  unfolding close store_key
  close-run c e e' ks aid ki w w' h k f = simp (h, close, f, k, store_key) refl

  -- The block of a read request is in the assembly that is being filled: its bytes are those of `p`
  -- from `offset` on, and the request has their checksum.
  pub record IsStored (a : Assembly writable) (t p : Block) (offset : ℕ) (r : ReadQueueEntity)
      : Type 0 where
    pub aid_is : r.aid ≡ a.info.aid
    pub some_bytes : 0 < r.rlen
    pub inside : r.apos + r.rlen ≤ a.info.apos
    pub bytes_are : (j : ℕ) → j < r.rlen → logical a t (j + r.apos) ≡ p.byte (j + offset)
    pub checksum_is : r.chksum ≡ some (cr.sha3_256 (slice p.byte offset r.rlen))

  -- Under the laws of AES-GCM, with a well-formed assembly, a device that takes whole chunks, chunk
  -- files that can be read, a registered key store without a key for the aid, and no restored
  -- environment for it: if finalise_assembly of the write environment returns a key, then after
  -- close a read request for a block in that assembly is answered with exactly the bytes that were
  -- stored.
  pub run_read_requests-close :
      (gcm : IsGcm cr) (c : Cache) (e e' : EnvironmentWritable) (a : Assembly writable)
      (t p : Block) (ks : KeyStore) (ki : KeyInformation) (offset : ℕ) (r : ReadQueueEntity)
      (w w' : World)
      → IsWritable a t
      → ((q : FilePath) → chunksize ≤ w.room q)
      → ((q : FilePath) → w'.read_ok q ≡ true)
      → c.writeenv ≡ some e
      → e.assembly ≡ some a
      → e.config ≡ a.config
      → c.config ≡ a.config
      → c.keystore ≡ some ks
      → find ks a.info.aid ≡ none
      → take_out a.info.aid c.readenvs ≡ none
      → finalise_assembly cr e w ≡ (some (a.info.aid, ki), e', w')
      → IsStored a t p offset r
      → (b : Block) × (c' : Cache) × (run_read_requests cr
            (close cr c w).0
            (r ∷ [])
            (close cr c w).1
          ≡ some (record { readrequest = r; rresult = some (record { pimpl = some b }) } ∷ [], c'))
        × (b.len ≡ r.rlen)
        × (slice b.byte 0 r.rlen ≡ slice p.byte offset r.rlen)
  run_read_requests-close gcm c e e' a t p ks ki offset r w w' v room readable we held same same'
        kst fresh absent fin k =
      let renv : EnvironmentReadable = record { config = c.config; assembly = none } in
      let (f, b, ok, env, back, len, bytes) =
        restore-archived cr gcm a t a.info.aid ki w w' v room readable e e' renv (block_of cr r) p
          offset same held same' fin k.some_bytes k.inside k.bytes_are k.checksum_is in
      let c1 : Cache = record c {
        writeenv = some e';
        keystore = some (add_key ks a.info.aid ki).1;
        stats = record c.stats { n_assembly_finalised = add32 c.stats.n_assembly_finalised 1 };
      } in
      let added = add_key-new ks a.info.aid ki fresh in
      let (c2, tried) =
        try_restore_assembly-some c1 a.info.aid (add_key ks a.info.aid ki).1 ki w' refl added ok in
      let (c3, ensured) =
        ensure_assembly-new c1 c2 a.info.aid (restore_assembly cr renv a.info.aid ki w').1 w' absent
          tried in
      let (c4, ran) =
        run_read_requests-one c1 c3 r (restore_assembly cr renv a.info.aid ki w').1 f _ w'
          (ap (λ x. ensure_assembly cr c1 x w') k.aid_is ∙ ensured) env back in
      (
        b,
        c4,
        ap (λ (x : Cache × World). run_read_requests cr x.0 (r ∷ []) x.1)
              (close-run c e e' ks a.info.aid ki w w' we kst fin)
            ∙ ran,
        len,
        bytes,
      )
