-- ===== src/Assembly/Chunks.antt =====
-- The chunk files of an assembly: their paths, CoqAssemblyEncrypted::extract and recall.
pub mod Round
pub mod Extract
pub mod Recall
use elykseer_cpp.Base.{
  ℕ, ◌+◌, ◌-◌, ◌*◌, Bool, true, false, Option, none, some, List, [], ◌∷◌, ◌++◌, ◌==◌, if◌then◌else◌,
  length, substr, codes, ℤ, pos, negsuc, Block,
}
use elykseer_cpp.Host.{File, FilePath, World, put_file, empty_block}
use elykseer_cpp.Buffer.{Buffer, encrypted, fileout_sz_pos, filein_sz_pos, create}
use elykseer_cpp.Cipher.{Crypto}
use elykseer_cpp.Nchunks.{sequence}
use elykseer_cpp.Assembly.{
  Configuration, Assembly, sealed, chunksize, assemblysize, chunk_identifier, no_information,
}

-- <chunkpath>/<c63c64>/<c61c62>/<chunk id>.lxr, from the id's hex form
abbrev pub path_of : Configuration → List ℕ → FilePath
path_of c h = c.path_chunks ++ substr h 62 2 ∷ substr h 60 2 ∷ (h ++ codes ".lxr") ∷ []

-- `n == chunksize`, for an `int` result.
abbrev pub is_chunk : ℤ → Bool
is_chunk (pos n) = n == chunksize
is_chunk (negsuc n) = false

module _ (cr : Crypto) where
  -- CoqAssembly::chunk_path
  unfoldable pub chunk_path : Configuration → World → ℕ → List ℕ → Option FilePath
  chunk_path c w cnum aid =
      let h = chunk_identifier cr c.my_id aid cnum in
      if length h == 64
      then if w.mkdir_ok (c.path_chunks ++ substr h 62 2 ∷ substr h 60 2 ∷ [])
        then some (path_of c h)
        else none
      else none

  -- fopen(path, "wb"), fileout_sz_pos and fclose, for one chunk: the bytes that count as written.
  unfoldable pub write_chunk : Buffer encrypted → FilePath → ℕ → World → ℕ × World
  write_chunk buf p cid w =
      let out =
        fileout_sz_pos buf (pos (chunksize * (cid - 1))) (pos chunksize)
          (record { content = empty_block; offset = 0; room = w.room p }) in
      (if is_chunk out.0 then chunksize else 0, put_file w p out.1.content)

  -- One round of extract: a file that exists is left alone. (The host answers whether it does.)
  unfoldable pub extract_chunk : Assembly sealed → Buffer encrypted → ℕ → World → ℕ × World
  unfolding write_chunk chunk_path
  extract_chunk a buf cid w = elim (chunk_path a.config w cid a.info.aid) [
    | none ↦ (0, w)
    | some p ↦ elim (w.files p) [
      | some _ ↦ (0, w)
      | none ↦ if w.write_ok p then write_chunk buf p cid w else (0, w)
    ]
  ]

  unfoldable pub extract_loop : Assembly sealed → Buffer encrypted → List ℕ → ℕ → World → ℕ × World
  unfolding extract_chunk
  extract_loop a buf [] nwritten w = (nwritten, w)
  extract_loop a buf (cid ∷ cids) nwritten w =
      let (n, w') = extract_chunk a buf cid w in extract_loop a buf cids (nwritten + n) w'

  -- extract: the bytes written, this assembly without its buffer, and the world.
  unfoldable pub extract : Assembly sealed → World → ℕ × Assembly sealed × World
  unfolding extract_loop
  extract a w = elim a.buffer [
    | none ↦ (0, a, w)
    | some buf ↦
        let (n, w') = extract_loop a buf (sequence a.info.nchunks) 0 w in
        (n, record a { buffer = none }, w')
  ]

  -- fopen(path, "rb"), filein_sz_pos and fclose, for one chunk.
  unfoldable pub read_chunk : Buffer encrypted → Block → ℕ → ℕ × Buffer encrypted
  read_chunk buf content cid =
      let (n, buf', f) =
        filein_sz_pos buf (pos (chunksize * (cid - 1))) (pos chunksize)
          (record { content = content; offset = 0; room = 0 }) in
      (if is_chunk n then chunksize else 0, buf')

  -- One round of recall. (The host answers whether the file exists.)
  unfoldable pub recall_chunk :
      Configuration → List ℕ → Buffer encrypted → ℕ → World → ℕ × Buffer encrypted
  unfolding read_chunk chunk_path
  recall_chunk c aid buf cid w = elim (chunk_path c w cid aid) [
    | none ↦ (0, buf)
    | some p ↦ elim (w.files p) [
      | none ↦ (0, buf)
      | some content ↦ if w.read_ok p then read_chunk buf content cid else (0, buf)
    ]
  ]

  unfoldable pub recall_loop :
      Configuration → List ℕ → List ℕ → ℕ → Buffer encrypted → World → ℕ × Buffer encrypted
  unfolding recall_chunk
  recall_loop c aid [] nread buf w = (nread, buf)
  recall_loop c aid (cid ∷ cids) nread buf w =
      let (n, buf') = recall_chunk c aid buf cid w in recall_loop c aid cids (nread + n) buf' w

  -- recall: `none` unless all chunks were read completely.
  unfoldable pub recall : Configuration → List ℕ → World → Option (Assembly sealed)
  unfolding recall_loop create
  recall c aid w =
      let (nread, buf) =
        recall_loop c aid (sequence c.nchunks) 0 (create (pos (assemblysize c.nchunks))) w in
      if nread == assemblysize c.nchunks
      then some (record {
        config = c;
        info = record { nchunks = c.nchunks; apos = nread; aid = aid };
        buffer = some buf;
      })
      else none
