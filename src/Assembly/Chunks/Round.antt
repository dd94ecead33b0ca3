-- ===== src/Assembly/Chunks/Round.antt =====
-- One round of CoqAssemblyEncrypted::extract: a chunk file and what is counted for it.
use elykseer_cpp.Base.{
  ℕ, ◌+◌, ◌-◌, ◌*◌, ◌≤◌, ◌<◌, ◌≡◌, refl, ◌∙◌, ap, ◌⊎◌, inl, inr, none, some, List, arith, Block,
  pos, ℤ, Bool-cases, Option-cases, min, blit_inside,
}
use elykseer_cpp.Host.{File, FilePath, World, empty_block, fwrite, padded}
use elykseer_cpp.Host.Paths.{files-put_file_self, files-put_file_other}
use elykseer_cpp.Buffer.{Buffer, encrypted, fileout_sz_pos}
use elykseer_cpp.Cipher.{Crypto}
use elykseer_cpp.Assembly.{Configuration, Assembly, sealed, chunksize}
use elykseer_cpp.Assembly.Chunks.{chunk_path, write_chunk, extract_chunk}

-- Every file of `w` is still in `w'`, and the host is the same otherwise.
pub record Extends (w w' : World) : Type 0 where
  pub keeps : (q : FilePath) (b : Block) → w.files q ≡ some b → w'.files q ≡ some b
  pub mkdir_same : w'.mkdir_ok ≡ w.mkdir_ok
  pub write_same : w'.write_ok ≡ w.write_ok
  pub read_same : w'.read_ok ≡ w.read_ok
  pub room_same : w'.room ≡ w.room

-- The chunk file `cid` exists and holds `chunksize` bytes of `b`.
pub record HasChunk (cr : Crypto) (c : Configuration) (aid : List ℕ) (b : Block) (w : World)
    (cid : ℕ) : Type 0 where
  pub path : FilePath
  pub content : Block
  pub path_is : chunk_path cr c w cid aid ≡ some path
  pub file_is : w.files path ≡ some content
  pub len_is : content.len ≡ chunksize
  pub bytes_are : (i : ℕ) → i < chunksize → content.byte i ≡ b.byte (chunksize * (cid - 1) + i)

-- The path of a chunk does not depend on the files.
pub chunk_path-same :
    (cr : Crypto) (c : Configuration) (aid : List ℕ) (cid : ℕ) (w w' : World)
    → w'.mkdir_ok ≡ w.mkdir_ok
    → chunk_path cr c w' cid aid ≡ chunk_path cr c w cid aid
unfolding chunk_path
chunk_path-same cr c aid cid w w' e = rw (e, chunk_path) refl

-- A file that is written from its start, with room for all of it.
fwrite-new :
    (room : ℕ) (g : ℕ → ℕ) (q n : ℕ)
    → n ≤ room
    → ((fwrite (record { content = empty_block; offset = 0; room = room }) g q n).1.content.len ≡ n)
      × ((i : ℕ)
          → i < n
          → (fwrite
                (record { content = empty_block; offset = 0; room = room })
                g
                q
                n).1.content.byte
              i
            ≡ g (q + i))
unfolding fwrite
fwrite-new room g q n le =
    let m : min n room ≡ n = omega arith in
    (
      omega arith,
      (λ i h. rw m (
          let z : i - 0 ≡ i = omega arith in
          blit_inside (padded empty_block) g 0 q n i (omega arith) (omega arith)
          ∙ ap (λ k. g (q + k)) z)),
    )

module _ (cr : Crypto) (a : Assembly sealed) (b : Block) where
  abbrev pub buf : Buffer encrypted
  buf = record { pimpl = some b }

  abbrev out : FilePath → ℕ → World → ℤ × File
  out p cid w =
      fileout_sz_pos buf (pos (chunksize * (cid - 1))) (pos chunksize)
        (record { content = empty_block; offset = 0; room = w.room p })

  out-fwrite :
      (p : FilePath) (cid : ℕ) (w : World)
      → chunksize * (cid - 1) + chunksize ≤ b.len
      → out p cid w ≡ (
        pos chunksize,
        (fwrite
            (record { content = empty_block; offset = 0; room = w.room p })
            b.byte
            (chunksize * (cid - 1))
            chunksize).1,
      )
  unfolding fileout_sz_pos
  out-fwrite p cid w fits = ground arith

  -- A chunk that lies in the buffer is written whole, if the device takes it.
  write_whole :
      (p : FilePath) (cid : ℕ) (w : World)
      → chunksize * (cid - 1) + chunksize ≤ b.len
      → chunksize ≤ w.room p
      → ((out p cid w).0 ≡ pos chunksize)
        × ((out p cid w).1.content.len ≡ chunksize)
        × ((i : ℕ)
            → i < chunksize
            → (out p cid w).1.content.byte i ≡ b.byte (chunksize * (cid - 1) + i))
  write_whole p cid w fits room = (
    rw (out-fwrite p cid w fits) refl,
    rw (out-fwrite p cid w fits) (fwrite-new (w.room p) b.byte _ chunksize room).0,
    (λ i h. rw (out-fwrite p cid w fits) ((fwrite-new (w.room p) b.byte _ chunksize room).1 i h)),
  )

  -- One round of extract: it keeps what is there, and counts either nothing or a chunk that is there.
  abbrev pub Round : ℕ → World → ℕ × World → Type 0
  Round cid w r =
      Extends w r.1 × ((r.0 ≡ 0) ⊎ ((r.0 ≡ chunksize) × HasChunk cr a.config a.info.aid b r.1 cid))

  write_chunk-Round :
      (p : FilePath) (cid : ℕ) (w : World)
      → chunk_path cr a.config w cid a.info.aid ≡ some p
      → w.files p ≡ none
      → chunksize * (cid - 1) + chunksize ≤ b.len
      → chunksize ≤ w.room p
      → Round cid w (write_chunk cr buf p cid w)
  unfolding write_chunk
  write_chunk-Round p cid w at_path absent fits room =
      let (counted, len, bytes) = write_whole p cid w fits room in
      (
        record {
          keeps = λ q q_block present. files-put_file_other w p q _ q_block absent present;
          mkdir_same = refl;
          write_same = refl;
          read_same = refl;
          room_same = refl;
        },
        inr (
          rw counted refl,
          record {
            path = p;
            content = (out p cid w).1.content;
            path_is = chunk_path-same cr a.config a.info.aid cid w _ refl ∙ at_path;
            file_is = files-put_file_self w p _;
            len_is = len;
            bytes_are = bytes;
          },
        ),
      )

  skip-Round : (cid : ℕ) (w : World) → Round cid w (0, w)
  skip-Round cid w = (
    record {
      keeps = λ q q_block present. present;
      mkdir_same = refl;
      write_same = refl;
      read_same = refl;
      room_same = refl;
    },
    inl refl,
  )

  pub extract_chunk-Round :
      (cid : ℕ) (w : World)
      → chunksize * (cid - 1) + chunksize ≤ b.len
      → ((p : FilePath) → chunksize ≤ w.room p)
      → Round cid w (extract_chunk cr a buf cid w)
  unfolding extract_chunk
  extract_chunk-Round cid w fits room =
      elim (Option-cases (chunk_path cr a.config w cid a.info.aid)) [
        | inl e ↦ rw (e, extract_chunk) (skip-Round cid w)
        | inr (p, e) ↦ elim (Option-cases (w.files p)) [
          | inr (old, f) ↦ rw (e, extract_chunk) (rw f (skip-Round cid w))
          | inl f ↦ elim (Bool-cases (w.write_ok p)) [
            | inr g ↦ rw (e, extract_chunk) (rw (f, g) (skip-Round cid w))
            | inl g ↦
                rw (e, extract_chunk) (rw (f, g) (write_chunk-Round p cid w e f fits (room p)))
          ]
        ]
      ]
