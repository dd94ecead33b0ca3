-- ===== src/Buffer.antt =====
-- src/cpp/coqbuffer.ixx and coqbuffer.cpp: buffers in memory, without their encryption.
-- A buffer that was moved from has no `pimpl`. In a `pimpl`, `_buffer` is null exactly when `_len`
-- is 0, as the constructor leaves it; `calloc` is taken to succeed. Offsets and lengths that every
-- caller gives as unsigned are natural numbers below 2 ^ 31; the copying operations keep `int`.
pub mod Copy
use elykseer_cpp.Base.{
  ℕ, zero, suc, ◌+◌, Bool, true, false, ◌&&◌, ◌||◌, Option, none, some, List, ltb, leb, ◌==◌,
  if◌then◌else◌, ℤ, pos, negsuc, Block, slice, blit, poke, of_list,
}
use elykseer_cpp.Host.{File, fwrite, fread}

pub data EncryptionState : Type 0 where
  plain encrypted : EncryptionState

pub record Buffer (s : EncryptionState) : Type 0 where
  pub pimpl : Option Block

abbrev pub tag_len : ℕ
tag_len = 16

-- pimpl(int n): zeroed memory, none of it for n <= 0.
unfoldable pub alloc : ℤ → Block
alloc (pos n) = record { len = n; byte = λ _. 0 }
alloc (negsuc n) = record { len = 0; byte = λ _. 0 }

-- pimpl(int n, const char *m), for n >= 0.
unfoldable pub alloc_from : ℕ → (ℕ → ℕ) → Block
unfolding alloc
alloc_from n m = record { len = n; byte = blit (alloc (pos n)).byte 0 m 0 n }

abbrev pub has_buffer : Block → Bool
has_buffer b = ltb 0 b.len

module _ {s : EncryptionState} where
  unfoldable pub create : ℤ → Buffer s
  unfolding alloc
  create n = record { pimpl = some (alloc n) }

  unfoldable pub create_from : ℕ → (ℕ → ℕ) → Buffer s
  unfolding alloc_from
  create_from n m = record { pimpl = some (alloc_from n m) }

  -- CoqBuffer::len
  abbrev pub buffer_len : Buffer s → ℕ
  buffer_len b = elim b.pimpl [ some p ↦ p.len | none ↦ 0 ]

-- check_index: whether std::out_of_range is thrown.
unfoldable pub index_ok : Block → ℕ → Bool
index_ok b i = has_buffer b && ltb i b.len

-- char at(uint32_t) const; `none` is the exception.
unfoldable pub at : Block → ℕ → Option ℕ
unfolding index_ok
at b i = if index_ok b i then some (b.byte i) else none

-- void at(uint32_t, char)
unfoldable pub set_at : Block → ℕ → ℕ → Option Block
unfolding index_ok
set_at b i v = if index_ok b i then some (record b { byte = poke b.byte i v }) else none

-- pimpl::calc_checksum, over the hash function of elykseer-crypto.
unfoldable pub checksum_pimpl : (List ℕ → List ℕ) → Block → ℕ → ℕ → Option (List ℕ)
checksum_pimpl sha3 b offset dlen =
    if has_buffer b && leb (dlen + offset) b.len
    then some (sha3 (slice b.byte offset dlen))
    else none

-- The guards that copy_sz_pos, fileout_sz_pos and filein_sz_pos start with, and the end of the
-- range: `sz + pos > _len` compares as unsigned, where the sum of two non-negative `int` fits.
unfoldable pub past_end : ℕ → ℕ → ℕ → Bool
past_end sz p len = ltb len (sz + p)

-- pimpl::copy_sz_pos: the result and the target's memory after it.
unfoldable pub copy_pimpl : Block → ℤ → ℤ → Option Block → ℤ → ℤ × Option Block
unfolding past_end
copy_pimpl b (pos pos0) (pos sz) target (pos pos1) =
    if ltb sz 1
    then (pos 0, target)
    else if past_end sz pos0 b.len
    then (negsuc 0, target)
    else elim target [
      | none ↦ (negsuc 1, none)
      | some t ↦
          if past_end sz pos1 t.len
          then (negsuc 1, some t)
          else if has_buffer t
          then (pos sz, some (record t { byte = blit t.byte pos1 b.byte pos0 sz }))
          else (pos 0, some t)
    ]
copy_pimpl b _ _ target _ = (pos 0, target)

-- pimpl::fileout_sz_pos: what fwrite returns is not looked at.
unfoldable pub fileout_pimpl : Block → ℤ → ℤ → File → ℤ × File
unfolding past_end
fileout_pimpl b (pos p) (pos sz) f =
    if ltb sz 1
    then (pos 0, f)
    else if past_end sz p b.len
    then (negsuc 0, f)
    else (pos sz, (fwrite f b.byte p sz).1)
fileout_pimpl b _ _ f = (pos 0, f)

-- pimpl::filein_sz_pos: the result, the memory and the file after it.
unfoldable pub filein_pimpl : Block → ℤ → ℤ → File → ℤ × Block × File
unfolding past_end
filein_pimpl b (pos p) (pos sz) f =
    if ltb sz 1
    then (pos 0, b, f)
    else if past_end sz p b.len
    then (negsuc 0, b, f)
    else let (n, m, f') = fread f b.byte p sz in (pos n, record b { byte = m }, f')
filein_pimpl b _ _ f = (pos 0, b, f)

-- pimpl::to_buffer: a negative n is above every length as an unsigned number.
unfoldable pub to_buffer_pimpl : Block → ℤ → (ℕ → ℕ) → ℤ × (ℕ → ℕ)
to_buffer_pimpl b (pos n) dst =
    if ltb b.len n then (negsuc 0, dst) else (pos n, blit dst 0 b.byte 0 n)
to_buffer_pimpl b (negsuc n) dst = (negsuc 0, dst)

-- The operations of CoqBuffer: -1 where the buffer was moved from.
module _ {s : EncryptionState} where
  unfoldable pub calc_checksum : (List ℕ → List ℕ) → Buffer s → ℕ → ℕ → Option (List ℕ)
  unfolding checksum_pimpl
  calc_checksum sha3 b offset dlen = elim b.pimpl [
    | some p ↦ checksum_pimpl sha3 p offset dlen
    | none ↦ none
  ]

  unfoldable pub copy_sz_pos :
      {t : EncryptionState} → Buffer s → ℤ → ℤ → Buffer t → ℤ → ℤ × Buffer t
  unfolding copy_pimpl
  copy_sz_pos b pos0 sz target pos1 = elim b.pimpl [
    | some p ↦ let (r, q) = copy_pimpl p pos0 sz target.pimpl pos1 in (r, record { pimpl = q })
    | none ↦ (negsuc 0, target)
  ]

  unfoldable pub fileout_sz_pos : Buffer s → ℤ → ℤ → File → ℤ × File
  unfolding fileout_pimpl
  fileout_sz_pos b p sz f = elim b.pimpl [ some q ↦ fileout_pimpl q p sz f | none ↦ (negsuc 0, f) ]

  unfoldable pub filein_sz_pos : Buffer s → ℤ → ℤ → File → ℤ × Buffer s × File
  unfolding filein_pimpl
  filein_sz_pos b p sz f = elim b.pimpl [
    | some q ↦ let (n, q', f') = filein_pimpl q p sz f in (n, record { pimpl = some q' }, f')
    | none ↦ (negsuc 0, b, f)
  ]

  unfoldable pub to_buffer : Buffer s → ℤ → (ℕ → ℕ) → ℤ × (ℕ → ℕ)
  unfolding to_buffer_pimpl
  to_buffer b n dst = elim b.pimpl [ some q ↦ to_buffer_pimpl q n dst | none ↦ (negsuc 0, dst) ]
