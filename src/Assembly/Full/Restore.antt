-- ===== src/Assembly/Full/Restore.antt =====
-- CoqAssemblyPlainFull::restore: its guards, its loop and the checksum.
use elykseer_cpp.Base.{
  ℕ, ◌+◌, ◌≤◌, ◌<◌, ◌≡◌, refl, sym, ◌∙◌, ap, true, false, Option, none, some, arith, Block, slice,
  ◌⊎◌, List, if◌then◌else◌, str_eq_refl, str_eq→eq, Bool, slice-shift,
}
use elykseer_cpp.Buffer.{Buffer, plain, create, alloc, calc_checksum}
use elykseer_cpp.Cipher.{Crypto}
use elykseer_cpp.Assembly.{BlockInformation, Assembly, full, assemblysize, idx2apos}
use elykseer_cpp.Assembly.Full.{restore, restore_loop, checked, checksum_ok, out_of_range}
use elykseer_cpp.Assembly.Full.Read.{restore_loop-Gathered}

zero_plus : (i : ℕ) → 0 + i ≡ i
zero_plus i = omega arith

plus_comm : (a i : ℕ) → a + i ≡ i + a
plus_comm a i = omega arith

module _ (cr : Crypto) where
  checksum_whole :
      (b : Block)
      → 0 < b.len
      → calc_checksum {s = plain} cr.sha3_256 (record { pimpl = some b }) 0 b.len
        ≡ some (cr.sha3_256 (slice b.byte 0 b.len))
  unfolding calc_checksum
  checksum_whole b h = ground arith

  checksum_empty :
      (b : Block)
      → b.len ≡ 0
      → calc_checksum {s = plain} cr.sha3_256 (record { pimpl = some b }) 0 b.len ≡ none
  unfolding calc_checksum
  checksum_empty b h = ground arith

  checked-same :
      (bi : BlockInformation) (b : Block)
      → 0 < b.len
      → bi.bchecksum ≡ some (cr.sha3_256 (slice b.byte 0 b.len))
      → checked cr bi b ≡ some (record { pimpl = some b })
  unfolding checked checksum_ok
  checked-same bi b h e = rw (checksum_whole b h, e) (rw str_eq_refl refl)

  checksum_ok-true :
      (k g : Option (List ℕ))
      → checksum_ok cr k g ≡ true
      → (x y : List ℕ) × (k ≡ some x) × (g ≡ some y) × (cr.to_hex x ≡ cr.to_hex y)
  unfolding checksum_ok
  checksum_ok-true none g h = cc
  checksum_ok-true (some x) none h = cc
  checksum_ok-true (some x) (some y) h = (x, y, refl, refl, str_eq→eq _ _ h)

  checksum_of :
      (b : Block) (x : List ℕ)
      → calc_checksum {s = plain} cr.sha3_256 (record { pimpl = some b }) 0 b.len ≡ some x
      → x ≡ cr.sha3_256 (slice b.byte 0 b.len)
  unfolding calc_checksum
  checksum_of b x h = ground arith

  if_some :
      (t : Bool) (buf buf' : Buffer plain)
      → (if t then some buf else none) ≡ some buf'
      → (t ≡ true) × (buf' ≡ buf)
  if_some true buf buf' h = (refl, cc)
  if_some false buf buf' h = cc

  -- A block that is handed out has the checksum that the block information gives, in hex; a block
  -- information without a checksum is never satisfied.
  pub checked_sound :
      (bi : BlockInformation) (b : Block) (buf : Buffer plain)
      → checked cr bi b ≡ some buf
      → (g : List ℕ) × (bi.bchecksum ≡ some g)
        × (cr.to_hex (cr.sha3_256 (slice b.byte 0 b.len)) ≡ cr.to_hex g)
        × (buf ≡ record { pimpl = some b })
  unfolding checked
  checked_sound bi b buf e =
      let (ok, same) = if_some _ _ buf e in
      let (x, g, sum, given, hex) = checksum_ok-true _ _ ok in
      (g, given, rw (← checksum_of b x sum) hex, same)

module _ (cr : Crypto) (a : Assembly full) (src : Block) (bi : BlockInformation)
    (held : a.buffer ≡ some (record { pimpl = some src })) (n_pos : 0 < a.config.nchunks)
    (n_max : a.config.nchunks ≤ 256) (whole : src.len ≡ assemblysize a.config.nchunks) where
  abbrev zeros : Block
  zeros = record { len = bi.blocksize; byte = λ _. 0 }

  restore-run :
      (b : Block)
      → out_of_range cr a.config.nchunks bi ≡ false
      → restore_loop bi.blocksize 0 a.config.nchunks bi.blockapos src zeros ≡ some b
      → restore cr a bi ≡ some (checked cr bi b)
  unfolding restore create alloc
  restore-run b r e = rw (held, restore) (rw (r, e) refl)

  in_range :
      0 < bi.blocksize
      → bi.blockapos + bi.blocksize ≤ assemblysize a.config.nchunks
      → out_of_range cr a.config.nchunks bi ≡ false
  unfolding out_of_range
  in_range some_bytes fits = ground arith

  -- A block in range is gathered from its logical indices, and handed out if its checksum is right.
  pub restore-checked :
      0 < bi.blocksize
      → bi.blockapos + bi.blocksize ≤ assemblysize a.config.nchunks
      → (b : Block) × (restore cr a bi ≡ some (checked cr bi b))
        × (b.len ≡ bi.blocksize)
        × ((j : ℕ)
            → j < bi.blocksize
            → b.byte j ≡ src.byte (idx2apos (j + bi.blockapos) a.config.nchunks))
  restore-checked some_bytes fits =
      let (b, e, g) =
        restore_loop-Gathered a.config.nchunks bi.blockapos src n_pos n_max whole bi.blocksize 0
          zeros (omega arith) (omega arith) in
      (
        b,
        restore-run b (in_range some_bytes fits) e,
        g.len_kept,
        (λ j h. g.gathered j (omega arith) (omega arith)),
      )

  -- For an assembly that holds its memory: a block that is empty, or reaches past the end of the
  -- assembly, is refused without an exception.
  pub restore_out_of_range :
      (bi.blocksize ≡ 0) ⊎ (assemblysize a.config.nchunks < bi.blockapos + bi.blocksize)
      → restore cr a bi ≡ some none
  unfolding restore out_of_range
  restore_out_of_range h = rw (held, restore) (ground arith)

  -- For an assembly of 1 to 256 chunks with all of its memory: if a block that is not empty is in
  -- range, its logical indices hold the bytes of `p` from `offset` on, and its checksum is theirs,
  -- then restore returns exactly those bytes.
  pub restore_block :
      (p : Block) (offset : ℕ)
      → 0 < bi.blocksize
      → bi.blockapos + bi.blocksize ≤ assemblysize a.config.nchunks
      → ((j : ℕ)
          → j < bi.blocksize
          → src.byte (idx2apos (j + bi.blockapos) a.config.nchunks) ≡ p.byte (j + offset))
      → bi.bchecksum ≡ some (cr.sha3_256 (slice p.byte offset bi.blocksize))
      → (b : Block) × (restore cr a bi ≡ some (some (record { pimpl = some b })))
        × (b.len ≡ bi.blocksize)
        × (slice b.byte 0 bi.blocksize ≡ slice p.byte offset bi.blocksize)
  restore_block p offset some_bytes fits holds sum =
      let (b, e, l, g) = restore-checked some_bytes fits in
      let same : slice b.byte 0 bi.blocksize ≡ slice p.byte offset bi.blocksize =
        slice-shift b.byte p.byte 0 offset bi.blocksize
          (λ i h. rw (zero_plus i, plus_comm offset i) (g i h ∙ holds i h)) in
      (
        b,
        e
            ∙ ap some (
                checked-same cr bi b (omega arith)
                  (sum ∙ ap (λ xs. some (cr.sha3_256 xs)) (sym same ∙ rw l refl))),
        l,
        same,
      )
