-- ===== src/Assembly/Chunks/Recall.antt =====
-- CoqAssemblyEncrypted::recall, from chunk files that hold the parts of a buffer.
use elykseer_cpp.Base.{
  ℕ, zero, suc, ◌+◌, ◌-◌, ◌*◌, ◌≤◌, ◌<◌, ◌≡◌, refl, ◌∙◌, ap, inl, inr, true, false, some, List, [],
  ◌∷◌, arith, Block, Bool-cases, ◌==◌, ltb, blit, blit_inside, blit_outside, min,
}
use elykseer_cpp.Host.{FilePath, World, fread}
use elykseer_cpp.Buffer.{past_end, Buffer, encrypted, filein_sz_pos, create, alloc}
use elykseer_cpp.Cipher.{Crypto}
use elykseer_cpp.Nchunks.{sequence}
use elykseer_cpp.Nchunks.Range.{count_up, sequence-count_up}
use elykseer_cpp.Assembly.{Configuration, Assembly, sealed, chunksize, assemblysize}
use elykseer_cpp.Assembly.Chunks.{read_chunk, recall_chunk, recall_loop, recall}
use elykseer_cpp.Assembly.Chunks.Round.{HasChunk}

abbrev buffer : Block → Buffer encrypted
buffer m = record { pimpl = some m }

-- The chunk `cid` read into its place.
abbrev with_chunk : Block → Block → ℕ → Block
with_chunk m content cid = record m {
  byte = blit m.byte (chunksize * (cid - 1)) content.byte 0 chunksize;
}

module _ (cr : Crypto) where
  fread_whole :
      (m : ℕ → ℕ) (content : Block) (p : ℕ)
      → content.len ≡ chunksize
      → fread (record { content = content; offset = 0; room = 0 }) m p chunksize ≡ (
        chunksize,
        blit m p content.byte 0 chunksize,
        record { content = content; offset = 0 + chunksize; room = 0 },
      )
  unfolding fread
  fread_whole m content p whole =
      let k : min chunksize (content.len - 0) ≡ chunksize = omega arith in rw k refl

  in_buffer : (m : Block) (p : ℕ) → p + chunksize ≤ m.len → past_end chunksize p m.len ≡ false
  unfolding past_end
  in_buffer m p fits = ground arith

  read_whole :
      (m content : Block) (cid : ℕ)
      → chunksize * (cid - 1) + chunksize ≤ m.len
      → content.len ≡ chunksize
      → read_chunk cr (buffer m) content cid ≡ (chunksize, buffer (with_chunk m content cid))
  unfolding read_chunk filein_sz_pos
  read_whole m content cid fits whole =
      rw
        (
          in_buffer m (chunksize * (cid - 1)) fits,
          fread_whole m.byte content (chunksize * (cid - 1)) whole,
        )
        refl

  module _ (c : Configuration) (aid : List ℕ) (b : Block) (w : World)
      (readable : (p : FilePath) → w.read_ok p ≡ true) where
    recall_chunk-HasChunk :
        (m : Block) (cid : ℕ) (h : HasChunk cr c aid b w cid)
        → chunksize * (cid - 1) + chunksize ≤ m.len
        → recall_chunk cr c aid (buffer m) cid w ≡ (chunksize, buffer (with_chunk m h.content cid))
    unfolding recall_chunk
    recall_chunk-HasChunk m cid h fits =
        rw (h.path_is, recall_chunk)
          (rw (h.file_is, readable h.path) (read_whole m h.content cid fits h.len_is))

    -- What the rounds for the chunks k, ... , k + n - 1 put into the memory.
    record Recalled (k n : ℕ) (m m' : Block) : Type 0 where
      len_kept : m'.len ≡ m.len
      bytes_are :
          (i : ℕ) → chunksize * (k - 1) ≤ i → i < chunksize * (k + n - 1) → m'.byte i ≡ b.byte i
      before : (i : ℕ) → i < chunksize * (k - 1) → m'.byte i ≡ m.byte i

    counted :
        (x y : ℕ) (m : Block) → x ≡ y → ◌≡◌ {A = ℕ × Buffer encrypted} (x, buffer m) (y, buffer m)
    counted x y m e = ap (λ (z : ℕ). (z, buffer m)) e

    chunk_byte :
        (m : Block) (k : ℕ) (h : HasChunk cr c aid b w k) (i : ℕ)
        → chunksize * (k - 1) ≤ i
        → i < chunksize * (k - 1) + chunksize
        → (with_chunk m h.content k).byte i ≡ b.byte i
    chunk_byte m k h i lo hi =
        let p = chunksize * (k - 1) in
        let z : 0 + (i - p) ≡ i - p = omega arith in
        let back : p + (i - p) ≡ i = omega arith in
        blit_inside m.byte h.content.byte p 0 chunksize i lo hi
        ∙ ap h.content.byte z
        ∙ h.bytes_are (i - p) (omega arith)
        ∙ ap b.byte back

    recall_loop-nil :
        (nread : ℕ) (m : Block) → recall_loop cr c aid [] nread (buffer m) w ≡ (nread, buffer m)
    unfolding recall_loop
    recall_loop-nil nread m = refl

    recall_loop-step :
        (cid : ℕ) (cids : List ℕ) (nread : ℕ) (m m1 : Block)
        → recall_chunk cr c aid (buffer m) cid w ≡ (chunksize, buffer m1)
        → recall_loop cr c aid (cid ∷ cids) nread (buffer m) w
          ≡ recall_loop cr c aid cids (nread + chunksize) (buffer m1) w
    unfolding recall_loop
    recall_loop-step cid cids nread m m1 e = rw (e, recall_loop) refl

    recall_loop-Recalled :
        (n k nread : ℕ) (m : Block)
        → 0 < k
        → chunksize * (k + n - 1) ≤ m.len
        → ((cid : ℕ) → k ≤ cid → cid < k + n → HasChunk cr c aid b w cid)
        → (m' : Block) × (recall_loop cr c aid (count_up k n) nread (buffer m) w
            ≡ (nread + chunksize * n, buffer m'))
          × Recalled k n m m'
    recall_loop-Recalled zero k nread m pk fits has = (
      m,
      recall_loop-nil nread m ∙ counted nread (nread + chunksize * 0) m (omega arith),
      record {
        len_kept = refl;
        bytes_are = λ i lo hi. absurd (omega arith);
        before = λ i lt. refl;
      },
    )
    recall_loop-Recalled (suc n) k nread m pk fits has =
        let h = has k (omega arith) (omega arith) in
        let m1 = with_chunk m h.content k in
        let (m', e, r) =
          recall_loop-Recalled n (k + 1) (nread + chunksize) m1 (omega arith) (omega arith)
            (λ cid lo hi. has cid (omega arith) (omega arith)) in
        (
          m',
          recall_loop-step k (count_up (k + 1) n) nread m m1
                (recall_chunk-HasChunk m k h (omega arith))
              ∙ e
              ∙ counted (nread + chunksize + chunksize * n) _ m' (omega arith),
          record {
            len_kept = r.len_kept;
            bytes_are = λ i lo hi. elim (Bool-cases (ltb i (chunksize * k))) [
              | inl here ↦ r.before i (ground arith) ∙ chunk_byte m k h i lo (ground arith)
              | inr later ↦ r.bytes_are i (ground arith) (omega arith)
            ];
            before = λ i lt.
                r.before i (omega arith) ∙ (blit_outside m.byte h.content.byte _ 0 _ i).0 lt;
          },
        )

    abbrev zeros : Block
    zeros = record { len = assemblysize c.nchunks; byte = λ _. 0 }

    recall-some :
        (nread : ℕ) (m : Block)
        → recall_loop cr c aid (sequence c.nchunks) 0 (buffer zeros) w ≡ (nread, buffer m)
        → nread ≡ assemblysize c.nchunks
        → recall cr c aid w
          ≡ some (record {
            config = c;
            info = record { nchunks = c.nchunks; apos = nread; aid = aid };
            buffer = some (buffer m);
          })
    unfolding recall create alloc
    recall-some nread m e all =
        let t : (nread == assemblysize c.nchunks) ≡ true = ground arith in
        rw (e, recall) (rw t refl)

    -- If every chunk file is there with its part of `b`, and the files can be read, then recall
    -- succeeds with an assembly of the configuration and the aid whose memory has the bytes of `b`.
    pub recall-HasChunks :
        ((cid : ℕ) → 1 ≤ cid → cid < 1 + c.nchunks → HasChunk cr c aid b w cid)
        → (a : Assembly sealed) × (m : Block) × (recall cr c aid w ≡ some a)
          × (a.config ≡ c)
          × (a.info.aid ≡ aid)
          × (a.buffer ≡ some (buffer m))
          × (m.len ≡ assemblysize c.nchunks)
          × ((i : ℕ) → i < assemblysize c.nchunks → m.byte i ≡ b.byte i)
    recall-HasChunks has =
        let (m, e, r) = recall_loop-Recalled c.nchunks 1 0 zeros (omega arith) (omega arith) has in
        (
          record {
            config = c;
            info = record { nchunks = c.nchunks; apos = 0 + chunksize * c.nchunks; aid = aid };
            buffer = some (buffer m);
          },
          m,
          recall-some (0 + chunksize * c.nchunks) m (rw sequence-count_up e) (omega arith),
          refl,
          refl,
          refl,
          r.len_kept,
          (λ i lt. r.bytes_are i (omega arith) (omega arith)),
        )
