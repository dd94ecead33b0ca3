-- ===== src/Environment/Archive.antt =====
-- The way of a block through an archive: from the assembly that is filled, by finalise_assembly to the
-- chunk files, and by CoqEnvironmentReadable::restore_assembly back to a buffer.
use elykseer_cpp.Base.{
  ◌≡◌, refl, sym, subst, ◌∙◌, ap, Bool, true, some, List, ℕ, Block, ◌+◌, ◌-◌, ◌≤◌, ◌<◌, arith,
  slice,
}
use elykseer_cpp.Host.{World, FilePath}
use elykseer_cpp.Buffer.{tag_len}
use elykseer_cpp.Cipher.{Crypto, decrypt_buffer}
use elykseer_cpp.Cipher.Laws.{IsGcm}
use elykseer_cpp.Cipher.Seal.{encrypt_buffer-seal}
use elykseer_cpp.Cipher.Roundtrip.{decrypt_buffer-encrypt_buffer}
use elykseer_cpp.Assembly.{
  Assembly, writable, full, sealed, BlockInformation, KeyInformation, Configuration, assemblysize,
  chunksize, supported_format, format_version, idx2apos,
}
use elykseer_cpp.Assembly.Layout.{idx2apos-before_tag}
use elykseer_cpp.Assembly.Writable.Backup.{IsWritable, logical}
use elykseer_cpp.Assembly.Full.{restore}
use elykseer_cpp.Assembly.Full
use elykseer_cpp.Assembly.Full.Seal.{decrypt-some}
use elykseer_cpp.Assembly.Full.Restore.{restore_block}
use elykseer_cpp.Assembly.Chunks.{extract, recall}
use elykseer_cpp.Assembly.Chunks.Extract.{extract-HasChunks}
use elykseer_cpp.Assembly.Chunks.Round.{HasChunk}
use elykseer_cpp.Assembly.Chunks.Recall.{recall-HasChunks}
use elykseer_cpp.Environment.{
  EnvironmentWritable, EnvironmentReadable, finalise_assembly, restore_assembly,
}
use elykseer_cpp.Environment.Finalise.{Sealed, finalise_assembly-Sealed}

-- A restored assembly: the bytes of `t` before the tag.
pub record Restored (c : Configuration) (t : Block) (r : Bool × EnvironmentReadable) : Type 0 where
  pub a : Assembly full
  pub p : Block
  pub done : r.0 ≡ true
  pub assembly_is : r.1.assembly ≡ some a
  pub config_is : a.config ≡ c
  pub held : a.buffer ≡ some (record { pimpl = some p })
  pub len_is : p.len ≡ assemblysize c.nchunks
  pub bytes_are : (i : ℕ) → i < assemblysize c.nchunks - tag_len → p.byte i ≡ t.byte i

done_eq : (r : Bool × Block) → r.0 ≡ true → r ≡ (true, r.1)
done_eq (x, b) h = ap (λ (y : Bool). (y, b)) h

supported : supported_format format_version ≡ true
unfolding supported_format
supported = refl

module _ (cr : Crypto) (gcm : IsGcm cr) (a : Assembly writable) (t : Block) (aid : List ℕ)
    (ki : KeyInformation) (w w' : World) (v : IsWritable a t)
    (room : (p : FilePath) → chunksize ≤ w.room p)
    (readable : (p : FilePath) → w'.read_ok p ≡ true) where
  restore_assembly-run :
      (e : EnvironmentReadable) (enc : Assembly sealed) (f : Assembly full)
      → supported_format ki.version ≡ true
      → recall cr e.config aid w' ≡ some enc
      → (Full.decrypt cr enc ki).0 ≡ some f
      → restore_assembly cr e aid ki w' ≡ (true, record e { assembly = some f })
  unfolding restore_assembly
  restore_assembly-run e enc f s r d = rw (s, restore_assembly) (rw (r, d) refl)

  -- The chunk files of an assembly that was sealed.
  Sealed-HasChunk :
      (s : Sealed cr a t aid ki w w')
      → s.b.len ≡ t.len
      → (cid : ℕ) → 1 ≤ cid
      → cid < 1 + a.config.nchunks
      → HasChunk cr a.config aid s.b w' cid
  Sealed-HasChunk s l cid lo hi =
      let n : s.enc.info.nchunks ≡ a.config.nchunks = ap (λ x. x.nchunks) s.info_is ∙ v.same_n in
      let fits : assemblysize s.enc.info.nchunks ≤ s.b.len = omega (arith, n, l, v.len_is) in
      let all = extract-HasChunks cr s.enc s.b s.w1 s.held fits (λ p. rw s.room_same (room p)) in
      let here : HasChunk cr s.enc.config s.enc.info.aid s.b (extract cr s.enc s.w1).2 cid =
        all (s.counted ∙ ap assemblysize (sym n)) cid lo (omega (arith, n)) in
      subst (λ (u : World). HasChunk cr a.config aid s.b u cid) s.written
        (subst (λ (c : Configuration). HasChunk cr c aid s.b (extract cr s.enc s.w1).2 cid)
          s.config_is
          (subst (λ (x : List ℕ). HasChunk cr s.enc.config x s.b (extract cr s.enc s.w1).2 cid)
            (ap (λ x. x.aid) s.info_is ∙ sym s.aid_is) here))

  -- An assembly that was sealed is restored.
  restore_assembly-Restored :
      (e : EnvironmentReadable)
      → e.config ≡ a.config
      → Sealed cr a t aid ki w w'
      → Restored a.config t (restore_assembly cr e aid ki w')
  restore_assembly-Restored e same s =
      let (_, l, le) = encrypt_buffer-seal cr gcm ki.ivec ki.pkey a.info.aid t s.b s.encrypted in
      let (enc, m, r, c_is, aid_is, held, len, bytes) =
        recall-HasChunks cr a.config aid s.b w' readable (Sealed-HasChunk s l) in
      let (d, dl, db) =
        decrypt_buffer-encrypt_buffer cr gcm ki.ivec ki.pkey a.info.aid t s.b m s.encrypted
          (omega (arith, v.len_is)) (λ i lt. bytes i (omega (arith, v.len_is))) in
      let out = decrypt_buffer cr ki.ivec ki.pkey a.info.aid m in
      let opened : decrypt_buffer cr ki.ivec ki.pkey enc.info.aid m ≡ (true, out.1) =
        ap (λ (x : List ℕ). decrypt_buffer cr ki.ivec ki.pkey x m) (aid_is ∙ s.aid_is)
        ∙ done_eq out d in
      let f : Assembly full = record {
        config = enc.config;
        info = enc.info;
        buffer = some (record { pimpl = some out.1 });
      } in
      let run =
        restore_assembly-run e enc f (rw s.version_is supported) (rw same r)
          (ap (λ x. x.0) (decrypt-some cr enc ki m out.1 held opened)) in
      subst (Restored a.config t) (sym run) (record {
        a = f;
        p = out.1;
        done = refl;
        assembly_is = refl;
        config_is = c_is;
        held = refl;
        len_is = dl ∙ v.len_is;
        bytes_are = λ i lt. db i (omega (arith, v.len_is));
      })

  -- Under the laws of AES-GCM, for a well-formed assembly of the writable environment, a device
  -- that takes whole chunks and chunk files that can be read: if finalise_assembly returns a key,
  -- then restore_assembly succeeds with that aid and key in the world that it leaves, and gives an
  -- assembly with every byte before the tag.
  pub restore_assembly-finalise_assembly :
      (e e' : EnvironmentWritable) (r : EnvironmentReadable)
      → e.config ≡ a.config
      → e.assembly ≡ some a
      → r.config ≡ a.config
      → finalise_assembly cr e w ≡ (some (aid, ki), e', w')
      → Restored a.config t (restore_assembly cr r aid ki w')
  restore_assembly-finalise_assembly e e' r same held same' h =
      restore_assembly-Restored r same'
        (finalise_assembly-Sealed cr e a w t aid ki e' w' v (sym same) held h)

  -- A block that lies in the data of the assembly, below the rows of the tag, comes back from the
  -- archive as it went in.
  pub restore-archived :
      (e e' : EnvironmentWritable) (r : EnvironmentReadable) (bi : BlockInformation) (p : Block)
      (offset : ℕ)
      → e.config ≡ a.config
      → e.assembly ≡ some a
      → r.config ≡ a.config
      → finalise_assembly cr e w ≡ (some (aid, ki), e', w')
      → 0 < bi.blocksize
      → bi.blockapos + bi.blocksize ≤ a.info.apos
      → ((j : ℕ) → j < bi.blocksize → logical a t (j + bi.blockapos) ≡ p.byte (j + offset))
      → bi.bchecksum ≡ some (cr.sha3_256 (slice p.byte offset bi.blocksize))
      → (f : Assembly full) × (b : Block) × ((restore_assembly cr r aid ki w').0 ≡ true)
        × ((restore_assembly cr r aid ki w').1.assembly ≡ some f)
        × (restore cr f bi ≡ some (some (record { pimpl = some b })))
        × (b.len ≡ bi.blocksize)
        × (slice b.byte 0 bi.blocksize ≡ slice p.byte offset bi.blocksize)
  restore-archived e e' r bi p offset same held same' h some_bytes inside holds sum =
      let k = restore_assembly-finalise_assembly e e' r same held same' h in
      let n : k.a.config.nchunks ≡ a.config.nchunks = ap (λ x. x.nchunks) k.config_is in
      let (b, restored, len, bytes) =
        restore_block cr k.a k.p bi k.held (omega (arith, n, v.n_min)) (omega (arith, n, v.n_max))
          (k.len_is ∙ ap assemblysize (sym n)) p offset some_bytes (omega (arith, n, v.data_end))
          (λ j lt.
            let before =
              idx2apos-before_tag (j + bi.blockapos) a.config.nchunks (omega (arith, v.n_min))
                (omega (arith, v.data_end)) in
            ap (λ (x : ℕ). k.p.byte (idx2apos (j + bi.blockapos) x)) n
            ∙ k.bytes_are (idx2apos (j + bi.blockapos) a.config.nchunks) before
            ∙ holds j lt)
          sum in
      (k.a, b, k.done, k.assembly_is, restored, len, bytes)
