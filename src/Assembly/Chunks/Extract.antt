-- ===== src/Assembly/Chunks/Extract.antt =====
-- CoqAssemblyEncrypted::extract: the rounds over the chunk ids.
use elykseer_cpp.Base.{
  ℕ, zero, suc, ◌+◌, ◌-◌, ◌*◌, ◌≤◌, ◌<◌, ◌≡◌, refl, ◌∙◌, inl, inr, some, none, List, [], ◌∷◌, arith,
  Block, Bool-cases, ◌==◌, subst,
}
use elykseer_cpp.Host.{FilePath, World}
use elykseer_cpp.Cipher.{Crypto}
use elykseer_cpp.Nchunks.{sequence}
use elykseer_cpp.Nchunks.Range.{count_up, sequence-count_up}
use elykseer_cpp.Assembly.{Assembly, sealed, chunksize, assemblysize}
use elykseer_cpp.Assembly.Chunks.{extract_chunk, extract_loop, extract}
use elykseer_cpp.Assembly.Chunks.Round.{
  Extends, HasChunk, Round, buf, extract_chunk-Round, chunk_path-same,
}

Extends-trans : {u v w : World} → Extends u v → Extends v w → Extends u w
Extends-trans e f = record {
  keeps = λ q b h. f.keeps q b (e.keeps q b h);
  mkdir_same = f.mkdir_same ∙ e.mkdir_same;
  write_same = f.write_same ∙ e.write_same;
  read_same = f.read_same ∙ e.read_same;
  room_same = f.room_same ∙ e.room_same;
}

module _ (cr : Crypto) (a : Assembly sealed) (b : Block) where
  abbrev Has : World → ℕ → Type 0
  Has w cid = HasChunk cr a.config a.info.aid b w cid

  -- The chunks k, ... , k + n - 1 are there.
  abbrev pub HasChunks : World → ℕ → ℕ → Type 0
  HasChunks w k n = (cid : ℕ) → k ≤ cid → cid < k + n → Has w cid

  HasChunk-later : {w w' : World} (cid : ℕ) → Extends w w' → Has w cid → Has w' cid
  HasChunk-later {w} {w'} cid e h = record {
    path = h.path;
    content = h.content;
    path_is = chunk_path-same cr a.config a.info.aid cid w w' e.mkdir_same ∙ h.path_is;
    file_is = e.keeps h.path h.content h.file_is;
    len_is = h.len_is;
    bytes_are = h.bytes_are;
  }

  -- The rounds for n chunk ids from k on: nothing that is there is lost, at most n chunks are
  -- counted, and if all are then all are there.
  abbrev Rounds : ℕ → ℕ → ℕ → World → ℕ × World → Type 0
  Rounds k n nwritten w r =
      Extends w r.1
      × (r.0 ≤ nwritten + chunksize * n)
      × (r.0 ≡ nwritten + chunksize * n → HasChunks r.1 k n)

  Rounds-none : (k nwritten : ℕ) (w : World) → Rounds k 0 nwritten w (nwritten, w)
  Rounds-none k nwritten w = (
    record {
      keeps = λ q b' h. h;
      mkdir_same = refl;
      write_same = refl;
      read_same = refl;
      room_same = refl;
    },
    omega arith,
    (λ e cid lo hi. absurd (omega arith)),
  )

  Rounds-step :
      (k n nwritten : ℕ) (w : World) (r s : ℕ × World)
      → Round cr a b k w r
      → Rounds (k + 1) n (nwritten + r.0) r.1 s
      → Rounds k (suc n) nwritten w s
  Rounds-step k n nwritten w r s (e, inl nothing) (f, bound, all) =
      (Extends-trans e f, omega arith, (λ total cid lo hi. absurd (omega arith)))
  Rounds-step k n nwritten w r s (e, inr (one, here)) (f, bound, all) = (
    Extends-trans e f,
    omega arith,
    (λ total cid lo hi. elim (Bool-cases (k == cid)) [
      | inl same ↦
          let eq : k ≡ cid = ground arith in
          subst (λ (x : ℕ). Has s.1 x) eq (HasChunk-later k f here)
      | inr other ↦ all (omega arith) cid (ground arith) (omega arith)
    ]),
  )

  extract_loop-step :
      (cid : ℕ) (cids : List ℕ) (nwritten : ℕ) (w : World)
      → extract_loop cr a (buf cr a b) (cid ∷ cids) nwritten w
        ≡ extract_loop cr a
            (buf cr a b)
            cids
            (nwritten + (extract_chunk cr a (buf cr a b) cid w).0)
            (extract_chunk cr a (buf cr a b) cid w).1
  unfolding extract_loop
  extract_loop-step cid cids nwritten w = refl

  extract_loop-nil :
      (nwritten : ℕ) (w : World) → extract_loop cr a (buf cr a b) [] nwritten w ≡ (nwritten, w)
  unfolding extract_loop
  extract_loop-nil nwritten w = refl

  extract_loop-Rounds :
      (n k nwritten : ℕ) (w : World)
      → 0 < k
      → chunksize * (k + n - 1) ≤ b.len
      → ((p : FilePath) → chunksize ≤ w.room p)
      → Rounds k n nwritten w (extract_loop cr a (buf cr a b) (count_up k n) nwritten w)
  extract_loop-Rounds zero k nwritten w pk fits room =
      rw extract_loop-nil (Rounds-none k nwritten w)
  extract_loop-Rounds (suc n) k nwritten w pk fits room =
      let r = extract_chunk cr a (buf cr a b) k w in
      let here = extract_chunk-Round cr a b k w (omega arith) room in
      rw extract_loop-step (
        Rounds-step k n nwritten w r _ here (
          extract_loop-Rounds n (k + 1) (nwritten + r.0) r.1 (omega arith) (omega arith)
            (λ p. rw here.0.room_same (room p))))

  extract_lem :
      (w : World)
      → a.buffer ≡ some (buf cr a b)
      → extract cr a w ≡ (
        (extract_loop cr a (buf cr a b) (sequence a.info.nchunks) 0 w).0,
        record a { buffer = none },
        (extract_loop cr a (buf cr a b) (sequence a.info.nchunks) 0 w).1,
      )
  unfolding extract
  extract_lem w held = rw (held, extract) refl

  module _ (w : World) (held : a.buffer ≡ some (buf cr a b))
      (fits : assemblysize a.info.nchunks ≤ b.len)
      (room : (p : FilePath) → chunksize ≤ w.room p) where
    -- For an assembly whose buffer covers its chunks, on a device that takes whole chunks: extract
    -- changes no file that was there before, and counts at most the size of the assembly.
    pub extract-Extends :
        Extends w (extract cr a w).2 × ((extract cr a w).0 ≤ assemblysize a.info.nchunks)
    extract-Extends =
        let (e, bound, all) =
          extract_loop-Rounds a.info.nchunks 1 0 w (omega arith) (omega arith) room in
        rw (extract_lem w held, sequence-count_up) (e, omega (arith, bound))

    -- For an assembly whose buffer covers its chunks, on a device that takes whole chunks: if
    -- extract counts the size of the assembly, then every chunk file is there, with its part of the
    -- buffer.
    pub extract-HasChunks :
        (extract cr a w).0 ≡ assemblysize a.info.nchunks
        → HasChunks (extract cr a w).2 1 a.info.nchunks
    extract-HasChunks counted =
        let (e, bound, all) =
          extract_loop-Rounds a.info.nchunks 1 0 w (omega arith) (omega arith) room in
        let total = rw (extract_lem w held, sequence-count_up) at counted in
        rw (extract_lem w held, sequence-count_up) (all (omega (arith, total)))
