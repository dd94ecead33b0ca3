-- ===== src/Cache/Placed.antt =====
-- One request of run_write_requests, with the stores registered.
use elykseer_cpp.Base.{
  ◌≡◌, refl, sym, subst, ◌∙◌, ap, Option, none, some, List, [], ◌∷◌, ℕ, ◌≤◌, ◌<◌, ◌^◌, arith, inl,
  inr, ◌⊎◌, Block, slice,
}
use elykseer_cpp.Host.{World}
use elykseer_cpp.Cipher.{Crypto}
use elykseer_cpp.Assembly.{Assembly, writable, BlockInformation, KeyInformation}
use elykseer_cpp.Environment.{EnvironmentWritable, AidKey, BackupResult, backup}
use elykseer_cpp.Environment.Ready.{
  IsReady, capacity, recreate_assembly-IsReady, recreate_assembly-failed,
}
use elykseer_cpp.Environment.Place.{Placed, Room, backup-Placed}
use elykseer_cpp.Environment.Failed.{failed_times}
use elykseer_cpp.Store.{KeyStore, FBlockStore, find, add_block}
use elykseer_cpp.Store.Entries.{Keeps}
use elykseer_cpp.Cache.{Cache, add64, WriteQueueEntity}
use elykseer_cpp.Cache.Added.{IsStoredKey, add_keys-Keeps, add_keys-one, found, add_blocks-one}
use elykseer_cpp.Cache.Progress.{failures, Progress, Recorded-one}
use elykseer_cpp.Cache.Write.{ensure_writeenv, write_buffer, run_write_request}

-- A cache that can write: its stores are registered, and a write environment is ready.
pub record CanWrite (c : Cache) (ks : KeyStore) (bs : FBlockStore) : Type 0 where
  pub n_min : 16 ≤ c.config.nchunks
  pub n_max : c.config.nchunks ≤ 256
  pub keys : c.keystore ≡ some ks
  pub blocks : c.fblockstore ≡ some bs
  pub env :
      (c.writeenv ≡ none)
      ⊎ ((e : EnvironmentWritable) × (a : Assembly writable) × (t : Block) × (c.writeenv ≡ some e)
          × IsReady e a t
          × (e.config ≡ c.config))

same_capacity : (m n k : ℕ) → m ≡ n → k ≤ capacity n → k ≤ capacity m
same_capacity m n k e h = subst (λ x. k ≤ capacity x) (sym e) h

module _ (cr : Crypto) where
  pub ensure_writeenv-IsReady :
      (c : Cache) (ks : KeyStore) (bs : FBlockStore) (w : World)
      → CanWrite c ks bs
      → (e : EnvironmentWritable) × (w' : World) × (a : Assembly writable) × (t : Block)
        × (ensure_writeenv cr c w ≡ some (e, w'))
        × IsReady e a t
        × (e.config ≡ c.config)
        × (e.n_failed ≡ failures c.writeenv)
        × ((e0 : EnvironmentWritable) → c.writeenv ≡ some e0 → e0 ≡ e)
  unfolding ensure_writeenv
  ensure_writeenv-IsReady c ks bs w v = elim v.env [
    | inr (e, a, t, n, r, same) ↦ (
      e,
      w,
      a,
      t,
      rw (n, ensure_writeenv) refl,
      r,
      same,
      ap failures (sym n),
      (λ e0 h. cc (h, n)),
    )
    | inl n ↦
        let new : EnvironmentWritable = record {
          config = c.config;
          assembly = none;
          n_failed = 0;
        } in
        let (e, w', a, t, eq, r, _, same) = recreate_assembly-IsReady cr new w v.n_min v.n_max in
        (
          e,
          w',
          a,
          t,
          rw (n, ensure_writeenv) eq,
          r,
          same,
          recreate_assembly-failed cr new e w w' eq ∙ ap failures (sym n),
          (λ e0 h. absurd (cc (h, n))),
        )
  ]

  -- The request was run in the environment `e0` with the assembly `a0`: its block was added to the
  -- file's blocks and is in the current assembly, and what backup gave is stored.
  pub record Written (c : Cache) (ks : KeyStore) (bs : FBlockStore) (r : WriteQueueEntity)
      (p : Block) (w : World) (res : Option (Cache × World)) : Type 0 where
    pub e0 : EnvironmentWritable
    pub w0 : World
    pub a0 : Assembly writable
    pub ensured : ensure_writeenv cr c w ≡ some (e0, w0)
    pub first : e0.assembly ≡ some a0
    pub kis : List AidKey
    pub room : Room cr e0 a0 w0 p.len kis
    pub c' : Cache
    pub w' : World
    pub ks' : KeyStore
    pub bi : BlockInformation
    pub e : EnvironmentWritable
    pub a : Assembly writable
    pub t : Block
    pub result : res ≡ some (c', w')
    pub can_write : CanWrite c' ks' (add_block bs (cr.to_hex r.fhash) bi).1
    pub stored :
        (aid : List ℕ) (ki : KeyInformation) → kis ≡ (aid, ki) ∷ [] → IsStoredKey ks ks' aid ki
    pub progress :
        Progress cr c.writeenv ks bs
          (r ∷ [])
          c'.writeenv
          ks'
          (add_block bs (cr.to_hex r.fhash) bi).1
    pub config_same : c'.config ≡ c.config
    pub queue_same : c'.writequeue ≡ c.writequeue
    pub depth_same : c'.n_queuesz ≡ c.n_queuesz
    pub finfo_same : c'.finfostore ≡ c.finfostore
    pub writeenv_is : c'.writeenv ≡ some e
    pub current : e.assembly ≡ some a
    pub filepos_is : bi.filepos ≡ r.fpos
    pub size_is : bi.blocksize ≡ p.len
    pub aid_is : bi.blockaid ≡ a.info.aid
    pub checksum_is : bi.bchecksum ≡ some (cr.sha3_256 (slice p.byte 0 p.len))

  module _ (c : Cache) (ks : KeyStore) (bs : FBlockStore) (r : WriteQueueEntity) (p : Block)
      (v : CanWrite c ks bs) (buf : r.buffer ≡ some (record { pimpl = some p }))
      (some_bytes : 0 < p.len) (small : p.len ≤ capacity c.config.nchunks) where
    -- The keys and the blocks after what backup gave was stored.
    Placed-Progress :
        (e : EnvironmentWritable) (kis : List AidKey) (ks' : KeyStore)
        {res : Option (BackupResult × EnvironmentWritable × World)}
        (k : Placed cr e (cr.to_hex r.fhash) r.fpos p p.len kis res)
        → e.n_failed ≡ failures c.writeenv
        → ((x : EnvironmentWritable) → c.writeenv ≡ some x → x ≡ e)
        → Keeps ks ks'
        → ((aid : List ℕ) (ki : KeyInformation) → kis ≡ (aid, ki) ∷ [] → IsStoredKey ks ks' aid ki)
        → Progress cr c.writeenv ks bs
            (r ∷ [])
            (some k.e')
            ks'
            (add_block bs (cr.to_hex r.fhash) k.bi).1
    Placed-Progress e kis ks' k failed had keeps stored = record {
      keeps = keeps;
      fails = k.fails;
      fails_max = k.fails_max;
      failed_is = k.failed_is ∙ ap (failed_times k.fails) failed;
      accounted = λ aid (x, a0, is, held, n).
          elim (k.accounted a0 (ap (λ y. y.assembly) (sym (had x is)) ∙ held)) [
            | inl same ↦ inl (k.e', k.a, refl, k.ready.current, n ∙ same)
            | inr (inl (ki, one)) ↦
                let (y, h) = found ks ks' a0.info.aid ki (stored a0.info.aid ki one) in
                inr (inl (y, ap (find ks') n ∙ h))
            | inr (inr some_failed) ↦ inr (inr some_failed)
          ];
      blocks =
          Recorded-one cr bs r p k.bi buf k.filepos_is k.size_is k.checksum_is
            (inl (k.e', k.a, refl, k.ready.current, k.aid_is));
    }

    write_buffer-Written :
        (w : World) (e : EnvironmentWritable) (w1 : World) (kis : List AidKey)
        (a0 : Assembly writable)
        → Placed cr e
            (cr.to_hex r.fhash)
            r.fpos
            p
            p.len
            kis
            (backup cr e (cr.to_hex r.fhash) r.fpos (record { pimpl = some p }) p.len w1)
        → e.config ≡ c.config
        → ensure_writeenv cr c w ≡ some (e, w1)
        → e.assembly ≡ some a0
        → Room cr e a0 w1 p.len kis
        → e.n_failed ≡ failures c.writeenv
        → ((x : EnvironmentWritable) → c.writeenv ≡ some x → x ≡ e)
        → Written c ks bs r p w (write_buffer cr c e r (record { pimpl = some p }) w1)
    unfolding write_buffer
    write_buffer-Written w e w1 kis a0 k same ensured first room failed had =
        let (ks', ek, keeps) = add_keys-Keeps ks kis in
        let stored = λ (aid : List ℕ) (ki : KeyInformation). add_keys-one ks ks' kis aid ki ek in
        record {
          e0 = e;
          w0 = w1;
          a0 = a0;
          ensured = ensured;
          first = first;
          kis = kis;
          room = room;
          stored = stored;
          progress = Placed-Progress e kis ks' k failed had keeps stored;
          c' = record c {
            writeenv = some k.e';
            fblockstore = some (add_block bs (cr.to_hex r.fhash) k.bi).1;
            keystore = some ks';
            stats = record c.stats { backup_bytes = add64 c.stats.backup_bytes p.len };
          };
          w' = k.w';
          ks' = ks';
          bi = k.bi;
          e = k.e';
          a = k.a;
          t = k.t;
          result =
              simp
                (
                  k.result,
                  write_buffer,
                  v.blocks,
                  v.keys,
                  add_blocks-one bs (cr.to_hex r.fhash) k.bi,
                  ek,
                )
                refl;
          can_write = record {
            n_min = v.n_min;
            n_max = v.n_max;
            keys = refl;
            blocks = refl;
            env = inr (k.e', k.a, k.t, refl, k.ready, k.config_same ∙ same);
          };
          config_same = refl;
          queue_same = refl;
          depth_same = refl;
          finfo_same = refl;
          writeenv_is = refl;
          current = k.ready.current;
          filepos_is = k.filepos_is;
          size_is = k.size_is;
          aid_is = k.aid_is;
          checksum_is = k.checksum_is;
        }

    run_write_request-run :
        (w w1 : World) (e : EnvironmentWritable)
        → ensure_writeenv cr c w ≡ some (e, w1)
        → run_write_request cr c r w ≡ write_buffer cr c e r (record { pimpl = some p }) w1
    unfolding run_write_request
    run_write_request-run w w1 e h = simp (h, run_write_request, buf) refl

    -- For a cache that can write, a request with a block that is not empty and fits a new assembly
    -- is run to its end: the block is added to the blocks of its file with its size, position in
    -- the file, aid of the current assembly and checksum, and the blocks of the other files stay;
    -- the key of the assembly that was finalised to make room is stored for its aid unless that has
    -- a key, and no key that was there is lost or replaced; the assembly that was being written still
    -- is, or has its key stored, or a failure was counted; and the cache can write the next one.
    pub run_write_request-Written :
        (w : World) → p.len < 2 ^ 32 → Written c ks bs r p w (run_write_request cr c r w)
    run_write_request-Written w p_max =
        let (e, w1, a, t, eq, ready, same, failed, had) = ensure_writeenv-IsReady c ks bs w v in
        let (kis, k, room) =
          backup-Placed cr (cr.to_hex r.fhash) r.fpos p p.len some_bytes p_max (omega arith) e w1 a
            t ready
            (same_capacity e.config.nchunks c.config.nchunks p.len (ap (λ x. x.nchunks) same)
              small) in
        rw (run_write_request-run w w1 e eq)
          (write_buffer-Written w e w1 kis a k same eq ready.current room failed had)
