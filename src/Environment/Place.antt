-- ===== src/Environment/Place.antt =====
-- CoqEnvironmentWritable::backup: where a block is placed.
use elykseer_cpp.Base.{
  ◌≡◌, refl, sym, subst, ◌∙◌, ap, true, false, Option, some, List, [], ◌∷◌, ℕ, Block, ◌+◌, ◌^◌, ◌≤◌,
  ◌<◌, arith, slice, ltb, Bool-cases, inl, inr, ◌⊎◌, le→ltb, lt→ltb,
}
use elykseer_cpp.Host.{World}
use elykseer_cpp.Buffer.{Buffer, plain, buffer_len}
use elykseer_cpp.Cipher.{Crypto}
use elykseer_cpp.Assembly.{
  Assembly, writable, BlockInformation, KeyInformation, Configuration, afree, idx2apos, header_len,
}
use elykseer_cpp.Assembly.Writable
use elykseer_cpp.Assembly.Writable.Backup.{logical, info_of, backup-Appended}
use elykseer_cpp.Environment.{
  EnvironmentWritable, AidKey, key_list, BackupResult, finalise_assembly,
  finalise_and_recreate_assembly, backup_into, backup,
}
use elykseer_cpp.Environment.Ready.{
  IsReady, capacity, finalise_and_recreate_assembly-IsReady, recreated_failed,
}
use elykseer_cpp.Environment.Failed.{failed_times, failed_twice, Counted, finalise_assembly-Counted}

-- The assembly `a0` is still the one that is written, or its key is returned, or a failure was
-- counted.
abbrev pub Accounted : Assembly writable → Assembly writable → List AidKey → ℕ → Type 0
Accounted a0 a kis fails =
    (a0.info.aid ≡ a.info.aid)
    ⊎ (((ki : KeyInformation) × (kis ≡ (a0.info.aid, ki) ∷ [])) ⊎ (0 < fails))

-- The block of `dlen` bytes of `p` was recorded and is in the assembly `a'`, at the end.
pub record Placed (cr : Crypto) (e : EnvironmentWritable) (fname : List ℕ) (fpos : ℕ) (p : Block)
    (dlen : ℕ) (kis : List AidKey) (r : Option (BackupResult × EnvironmentWritable × World))
    : Type 0 where
  pub bi : BlockInformation
  pub e' : EnvironmentWritable
  pub w' : World
  pub a : Assembly writable
  pub t : Block
  pub result : r ≡ some (((fname, bi) ∷ [], kis), e', w')
  pub ready : IsReady e' a t
  pub config_same : e'.config ≡ e.config
  pub filepos_is : bi.filepos ≡ fpos
  pub size_is : bi.blocksize ≡ dlen
  pub aid_is : bi.blockaid ≡ a.info.aid
  pub at_end : bi.blockapos + dlen ≡ a.info.apos
  pub checksum_is : bi.bchecksum ≡ some (cr.sha3_256 (slice p.byte 0 dlen))
  pub bytes_are : (j : ℕ) → j < dlen → logical a t (j + bi.blockapos) ≡ p.byte (j + 0)
  -- the assembly that there was is the current one, or its key is returned, or a failure was counted
  pub fails : ℕ
  pub fails_max : fails ≤ 1
  pub failed_is : e'.n_failed ≡ failed_times fails e.n_failed
  pub accounted : (a0 : Assembly writable) → e.assembly ≡ some a0 → Accounted a0 a kis fails

-- Whether room has to be made for `dlen` bytes, and then which key is returned.
abbrev pub Room :
    Crypto → EnvironmentWritable → Assembly writable → World → ℕ → List AidKey → Type 0
Room cr e a w dlen kis =
    ((dlen ≤ afree a) × (kis ≡ []))
    ⊎ ((afree a < dlen) × (kis ≡ key_list (finalise_assembly cr e w).0))

module _ (cr : Crypto) (fname : List ℕ) (fpos : ℕ) (p : Block) (dlen : ℕ) (some_bytes : 0 < p.len)
    (p_max : p.len < 2 ^ 32) (in_block : dlen ≤ p.len) where
  abbrev block : Buffer plain
  block = record { pimpl = some p }

  backup_into-run :
      (kis : List AidKey) (e : EnvironmentWritable) (w : World) (a a' : Assembly writable)
      (bi : BlockInformation)
      → e.assembly ≡ some a
      → dlen ≤ afree a
      → Writable.backup cr a block 0 dlen ≡ some (bi, a')
      → backup_into cr fname fpos block dlen kis e w
        ≡ some
            (((fname, record bi { filepos = fpos }) ∷ [], kis), record e { assembly = some a' }, w)
  unfolding backup_into
  backup_into-run kis e w a a' bi held fits h =
      let g : ltb (afree a) dlen ≡ false = le→ltb _ _ fits in
      rw (held, backup_into) (rw (g, h) refl)

  backup_into-Placed :
      (kis : List AidKey) (e : EnvironmentWritable) (w : World) (a : Assembly writable) (t : Block)
      → IsReady e a t
      → dlen ≤ afree a
      → (k : Placed cr e fname fpos p dlen kis (backup_into cr fname fpos block dlen kis e w))
        × (k.fails ≡ 0)
  backup_into-Placed kis e w a t r fits =
      let (a', t', eq, k) =
        backup-Appended cr a t p 0 dlen r.valid some_bytes p_max (omega arith) fits in
      (
        record {
          bi = record (info_of cr a p 0 dlen) { filepos = fpos };
          e' = record e { assembly = some a' };
          w' = w;
          a = a';
          t = t';
          result = backup_into-run kis e w a a' (info_of cr a p 0 dlen) r.current fits eq;
          ready = record {
            current = refl;
            same_config = k.config_same ∙ r.same_config;
            valid = k.valid;
            header = omega (arith, k.apos_is, r.header);
          };
          config_same = refl;
          filepos_is = refl;
          size_is = refl;
          aid_is = sym k.aid_same;
          at_end = sym k.apos_is;
          checksum_is = refl;
          bytes_are = λ j lt.
              subst
                (λ (c : Configuration).
                  t'.byte (idx2apos (j + a.info.apos) c.nchunks) ≡ p.byte (j + 0))
                (sym k.config_same) (k.new_bytes j lt);
          fails = 0;
          fails_max = omega arith;
          failed_is = refl;
          accounted = λ a0 held.
              let same : a ≡ a0 = cc (held, r.current) in
              inl (sym (k.aid_same ∙ ap (λ (x : Assembly writable). x.info.aid) same));
        },
        refl,
      )

  length_ok : ltb (buffer_len block) dlen ≡ false
  length_ok = le→ltb _ _ in_block

  backup-fits :
      (e : EnvironmentWritable) (w : World) (a : Assembly writable)
      → e.assembly ≡ some a
      → dlen ≤ afree a
      → backup cr e fname fpos block dlen w ≡ backup_into cr fname fpos block dlen [] e w
  unfolding backup
  backup-fits e w a held fits =
      let g : ltb (afree a) dlen ≡ false = le→ltb _ _ fits in simp (held, backup, length_ok, g) refl

  backup-full :
      (e : EnvironmentWritable) (w : World) (a : Assembly writable) (oki : Option AidKey)
      (e1 : EnvironmentWritable) (w1 : World)
      → e.assembly ≡ some a
      → afree a < dlen
      → finalise_and_recreate_assembly cr e w ≡ some (oki, e1, w1)
      → backup cr e fname fpos block dlen w
        ≡ backup_into cr fname fpos block dlen (key_list oki) e1 w1
  unfolding backup
  backup-full e w a oki e1 w1 held fits h =
      let g : ltb (afree a) dlen ≡ true = lt→ltb _ _ fits in
      rw (held, backup) (rw (length_ok, g) (rw h refl))

  -- The failures and the key after an assembly with data was replaced.
  replaced :
      (e e1 : EnvironmentWritable) (a a' : Assembly writable)
      (r : Option AidKey × EnvironmentWritable × World) (g : ℕ)
      → Counted e a r
      → e.assembly ≡ some a
      → e1.n_failed ≡ r.1.n_failed
      → (fails : ℕ) × (fails ≤ 1)
        × (e1.n_failed ≡ failed_times fails e.n_failed)
        × ((a0 : Assembly writable)
            → e.assembly ≡ some a0
            → Accounted a0 a' (key_list r.0) (fails + g))
  replaced e e1 a a' r g (_, _, inl (no_key, count)) held same =
      (1, omega arith, same ∙ count, λ a0 h. inr (inr (omega arith)))
  replaced e e1 a a' r g (_, _, inr (ki, key, count)) held same = (
    0,
    omega arith,
    same ∙ count,
    (λ a0 h.
        let it : a ≡ a0 = cc (held, h) in
        inr (inl (ki, ap key_list key ∙ ap (λ (x : Assembly writable). (x.info.aid, ki) ∷ []) it))),
  )

  -- For an environment with a well-formed assembly, and a part of a buffer (not empty, below 2 ^ 32
  -- bytes) that a new assembly has room for: backup records exactly one block, with its size,
  -- position in the file, aid and checksum, and its bytes are at the end of the assembly that is
  -- current then, which is well formed; no key is returned if the block fitted, else that of
  -- finalise_assembly; and if the assembly that there was is not the current one any more, its key
  -- is returned or a failure was counted.
  pub backup-Placed :
      (e : EnvironmentWritable) (w : World) (a : Assembly writable) (t : Block)
      → IsReady e a t
      → dlen ≤ capacity e.config.nchunks
      → (kis : List AidKey) × Placed cr e fname fpos p dlen kis
          (backup cr e fname fpos block dlen w)
        × Room cr e a w dlen kis
  backup-Placed e w a t r small = elim (Bool-cases (ltb (afree a) dlen)) [
    | inr fits ↦ (
      [],
      rw (backup-fits e w a r.current (ground arith))
          ((backup_into-Placed [] e w a t r (ground arith)).0),
      inl (ground arith, refl),
    )
    | inl full ↦
        let n : a.config.nchunks ≡ e.config.nchunks = ap (λ x. x.nchunks) r.same_config in
        let lo = r.valid.n_min in
        let hi = r.valid.n_max in
        let (e1, w1, a1, t1, eq, r1, apos, c) =
          finalise_and_recreate_assembly-IsReady cr e w (omega (arith, n)) (omega (arith, n)) in
        let n1 : a1.config.nchunks ≡ e.config.nchunks = ap (λ x. x.nchunks) (r1.same_config ∙ c) in
        let kis = key_list (finalise_assembly cr e w).0 in
        let over : afree a < dlen = ground arith in
        let some_data : header_len e.config.nchunks < a.info.apos =
          omega (arith, over, n, r.valid.same_n, r.header, small) in
        let failed = recreated_failed cr e e1 w w1 eq in
        let counted = finalise_assembly-Counted cr e a w r.current some_data in
        let (k, none_failed) =
          backup_into-Placed kis e1 w1 a1 t1 r1 (omega (arith, apos, n1, r1.valid.same_n, small)) in
        let (fails, most, failed_is, accounted) =
          replaced e e1 a k.a (finalise_assembly cr e w) k.fails counted r.current failed in
        (
          kis,
          rw (backup-full e w a _ e1 w1 r.current (ground arith) eq) (record {
            bi = k.bi;
            e' = k.e';
            w' = k.w';
            a = k.a;
            t = k.t;
            result = k.result;
            ready = k.ready;
            config_same = k.config_same ∙ c;
            filepos_is = k.filepos_is;
            size_is = k.size_is;
            aid_is = k.aid_is;
            at_end = k.at_end;
            checksum_is = k.checksum_is;
            bytes_are = k.bytes_are;
            fails = fails + k.fails;
            fails_max = omega (arith, most, none_failed);
            failed_is = failed_twice fails k.fails e.n_failed failed_is k.failed_is;
            accounted = accounted;
          }),
          inr (ground arith, refl),
        )
  ]

  backup_into-refused :
      (kis : List AidKey) (e : EnvironmentWritable) (w : World) (a : Assembly writable)
      → e.assembly ≡ some a
      → afree a < dlen
      → backup_into cr fname fpos block dlen kis e w ≡ some (([], kis), e, w)
  unfolding backup_into
  backup_into-refused kis e w a held full =
      let g : ltb (afree a) dlen ≡ true = lt→ltb _ _ full in simp (held, backup_into, g) refl

  -- For an environment with a well-formed assembly, and a part of a buffer (not empty, below 2 ^ 32
  -- bytes) that is larger than a new assembly has room for: backup records no block, returns the
  -- key of the assembly that it finalised if there is one, and leaves a new well-formed assembly.
  pub backup-too_big :
      (e : EnvironmentWritable) (w : World) (a : Assembly writable) (t : Block)
      → IsReady e a t
      → capacity e.config.nchunks < dlen
      → (e' : EnvironmentWritable) × (w' : World) × (a' : Assembly writable) × (t' : Block)
        × (backup cr e fname fpos block dlen w
            ≡ some (([], key_list (finalise_assembly cr e w).0), e', w'))
        × IsReady e' a' t'
  backup-too_big e w a t r big =
      let n : a.config.nchunks ≡ e.config.nchunks = ap (λ x. x.nchunks) r.same_config in
      let lo = r.valid.n_min in
      let hi = r.valid.n_max in
      let (e1, w1, a1, t1, eq, r1, apos, c) =
        finalise_and_recreate_assembly-IsReady cr e w (omega (arith, n)) (omega (arith, n)) in
      let n1 : a1.config.nchunks ≡ e.config.nchunks = ap (λ x. x.nchunks) (r1.same_config ∙ c) in
      (
        e1,
        w1,
        a1,
        t1,
        backup-full e w a _ e1 w1 r.current (omega (arith, n, r.valid.same_n, r.header)) eq
            ∙ backup_into-refused _ e1 w1 a1 r1.current (omega (arith, apos, n1, r1.valid.same_n)),
        r1,
      )
