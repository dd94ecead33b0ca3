-- ===== src/Assembly/Writable/Backup.antt =====
-- CoqAssemblyPlainWritable::backup against the logical bytes of the assembly.
use elykseer_cpp.Base.{
  ℕ, ◌+◌, ◌*◌, ◌^◌, ◌≤◌, ◌<◌, ◌≡◌, refl, sym, ◌∙◌, ap, false, some, arith, add32, Block, slice, ltb,
  le→ltb,
}
use elykseer_cpp.Host.{World}
use elykseer_cpp.Buffer.{Buffer, plain, calc_checksum, tag_len}
use elykseer_cpp.Cipher.{Crypto}
use elykseer_cpp.Assembly.{
  Configuration, BlockInformation, Assembly, writable, assemblysize, idx2apos, afree,
}
use elykseer_cpp.Assembly.Layout.{idx2apos-injective}
use elykseer_cpp.Assembly.Writable.{backup, store_loop}
use elykseer_cpp.Assembly.Writable.Store.{store_loop-Stored, add32_small}
use elykseer_cpp.Assembly.Writable.Create.{Created}

-- A writable assembly with memory `t`: the memory has the size of the assembly, and the data end
-- before the rows that are kept for the tag.
pub record IsWritable (a : Assembly writable) (t : Block) : Type 0 where
  pub held : a.buffer ≡ some (record { pimpl = some t })
  pub len_is : t.len ≡ assemblysize a.config.nchunks
  pub same_n : a.info.nchunks ≡ a.config.nchunks
  pub n_min : 16 ≤ a.config.nchunks
  pub n_max : a.config.nchunks ≤ 256
  pub data_end : a.info.apos + tag_len * a.config.nchunks ≤ assemblysize a.config.nchunks

-- The i-th logical byte.
abbrev pub logical : Assembly writable → Block → ℕ → ℕ
logical a t i = t.byte (idx2apos i a.config.nchunks)

-- A new assembly is well formed, with nothing but the header.
pub Created-IsWritable :
    (c : Configuration) (w w' : World) (a : Assembly writable) (t : Block)
    → 16 ≤ c.nchunks
    → c.nchunks ≤ 256
    → Created c w w' a t
    → IsWritable a t
Created-IsWritable c w w' a t lo hi k =
    let e : a.config.nchunks ≡ c.nchunks = ap (λ (x : Configuration). x.nchunks) k.config_is in
    record {
      held = k.buffer_is;
      len_is = rw e k.len_is;
      same_n = k.nchunks_is ∙ sym e;
      n_min = omega arith;
      n_max = omega arith;
      data_end = omega (arith, k.apos_is);
    }

-- The block information that backup returns.
abbrev pub info_of : Crypto → Assembly writable → Block → ℕ → ℕ → BlockInformation
info_of cr a p offset dlen = record {
  blockid = 1;
  bchecksum = some (cr.sha3_256 (slice p.byte offset dlen));
  blocksize = dlen;
  filepos = 0;
  blockaid = a.info.aid;
  blockapos = a.info.apos;
}

-- The block was appended: the logical bytes before it are kept, and those that follow are its own.
pub record Appended (a a' : Assembly writable) (t t' p : Block) (offset dlen : ℕ) : Type 0 where
  pub config_same : a'.config ≡ a.config
  pub aid_same : a'.info.aid ≡ a.info.aid
  pub apos_is : a'.info.apos ≡ a.info.apos + dlen
  pub valid : IsWritable a' t'
  pub old_bytes : (i : ℕ) → i < a.info.apos → logical a t' i ≡ logical a t i
  pub new_bytes : (j : ℕ) → j < dlen → logical a t' (j + a.info.apos) ≡ p.byte (j + offset)

module _ (cr : Crypto) (a : Assembly writable) (t p : Block) (offset dlen : ℕ) (v : IsWritable a t)
    (some_bytes : 0 < p.len) (p_max : p.len < 2 ^ 32) (in_block : offset + dlen ≤ p.len)
    (fits : dlen ≤ afree a) where
  abbrev block : Buffer plain
  block = record { pimpl = some p }

  checksum_part :
      calc_checksum cr.sha3_256 block offset dlen ≡ some (cr.sha3_256 (slice p.byte offset dlen))
  unfolding calc_checksum
  checksum_part = ground arith

  after : Block → Assembly writable
  after t' = record a {
    info = record a.info { apos = a.info.apos + dlen };
    buffer = some (record { pimpl = some t' });
  }

  backup-run :
      (t' : Block)
      → store_loop dlen 0 a.config.nchunks a.info.apos offset p t ≡ some t'
      → backup cr a block offset dlen ≡ some (info_of cr a p offset dlen, after t')
  unfolding backup after
  backup-run t' e =
      let small = add32_small a.info.apos dlen (omega (arith, v.data_end, v.n_max, v.same_n)) in
      let g1 : ltb p.len (add32 dlen offset) ≡ false = le→ltb p.len _ (omega arith) in
      let g2 : ltb (assemblysize a.config.nchunks) (add32 a.info.apos dlen) ≡ false =
        le→ltb _ _ (omega (arith, v.data_end, v.n_max, v.same_n)) in
      rw (backup, g1, g2, checksum_part, v.held, e, small) refl

  -- For a well-formed assembly, a buffer that is not empty and below 2 ^ 32 bytes, and a part of it
  -- that fits, backup never throws: it returns the part's checksum, size and position, appends its
  -- bytes behind the logical bytes that are there, keeps those, and leaves a well-formed assembly.
  pub backup-Appended :
      (a' : Assembly writable) × (t' : Block) × (backup cr a block offset dlen
        ≡ some (info_of cr a p offset dlen, a'))
      × Appended a a' t t' p offset dlen
  unfolding after
  backup-Appended =
      let (t', e, s) =
        store_loop-Stored a.config.nchunks a.info.apos offset p (omega (arith, v.n_min)) v.n_max
          p_max dlen 0 t v.len_is (omega (arith, v.data_end, v.same_n)) (omega arith) in
      (
        after t',
        t',
        backup-run t' e,
        record {
          config_same = refl;
          aid_same = refl;
          apos_is = refl;
          valid = record {
            held = refl;
            len_is = s.len_kept ∙ v.len_is;
            same_n = v.same_n;
            n_min = v.n_min;
            n_max = v.n_max;
            data_end = omega (arith, v.data_end, v.same_n);
          };
          old_bytes = λ i lt. s.kept (idx2apos i a.config.nchunks) (λ j lo hi c. absurd (
              omega (
                arith,
                v.data_end,
                v.same_n,
                idx2apos-injective i (j + a.info.apos) a.config.nchunks (omega (arith, v.n_min))
                    (omega (arith, v.data_end)) (omega (arith, v.data_end, v.same_n)) c,
              )));
          new_bytes = λ j lt. s.written j (omega arith) (omega arith);
        },
      )
