-- ===== src/Cache/Batch.antt =====
-- run_write_requests over a whole list of requests.
use elykseer_cpp.Base.{
  ◌≡◌, refl, sym, subst, ◌∙◌, Option, none, some, List, [], ◌∷◌, ℕ, ◌≤◌, ◌<◌, arith, inl, inr, ◌⊎◌,
  Block,
}
use elykseer_cpp.Host.{World}
use elykseer_cpp.Cipher.{Crypto}
use elykseer_cpp.Environment.Ready.{capacity}
use elykseer_cpp.Store.{KeyStore, FBlockStore, add_block}
use elykseer_cpp.Cache.{Cache, WriteQueueEntity}
use elykseer_cpp.Cache.Write.{run_write_request, run_write_requests}
use elykseer_cpp.Cache.Progress.{Progress, Progress-refl, Progress-trans, Progress-idle}
use elykseer_cpp.Cache.Placed.{CanWrite, ensure_writeenv-IsReady, run_write_request-Written}

-- A request without a buffer, or with a block that fits an empty assembly.
abbrev pub CanRun : ℕ → WriteQueueEntity → Type 0
CanRun n r =
    (r.buffer ≡ none)
    ⊎ ((p : Block) × (r.buffer ≡ some (record { pimpl = some p }))
        × (0 < p.len)
        × (p.len ≤ capacity n))

abbrev pub AllCanRun : ℕ → List WriteQueueEntity → Type 0
AllCanRun n [] = Unit {0}
AllCanRun n (r ∷ rs) = CanRun n r × AllCanRun n rs

module _ (cr : Crypto) where
  -- What a list of requests leaves: a cache that can still write, with the keys and the blocks of the
  -- requests.
  pub record Ran (c : Cache) (ks : KeyStore) (bs : FBlockStore) (rs : List WriteQueueEntity)
      (res : Option (Cache × World)) : Type 0 where
    pub c' : Cache
    pub w' : World
    pub ks' : KeyStore
    pub bs' : FBlockStore
    pub result : res ≡ some (c', w')
    pub can_write : CanWrite c' ks' bs'
    pub progress : Progress cr c.writeenv ks bs rs c'.writeenv ks' bs'
    pub config_same : c'.config ≡ c.config
    pub queue_same : c'.writequeue ≡ c.writequeue
    pub depth_same : c'.n_queuesz ≡ c.n_queuesz
    pub finfo_same : c'.finfostore ≡ c.finfostore

  idle :
      (c : Cache) (ks : KeyStore) (bs : FBlockStore) (r : WriteQueueEntity) (w : World)
      → CanWrite c ks bs
      → r.buffer ≡ none
      → Ran c ks bs (r ∷ []) (run_write_request cr c r w)
  unfolding run_write_request
  idle c ks bs r w v n =
      let (e, w1, a, t, eq, ready, same, failed, had) = ensure_writeenv-IsReady cr c ks bs w v in
      record {
        c' = record c { writeenv = some e };
        w' = w1;
        ks' = ks;
        bs' = bs;
        result = simp (eq, run_write_request, n) refl;
        can_write = record {
          n_min = v.n_min;
          n_max = v.n_max;
          keys = v.keys;
          blocks = v.blocks;
          env = inr (e, a, t, refl, ready, same);
        };
        progress = Progress-idle cr c.writeenv e ks bs r n failed had;
        config_same = refl;
        queue_same = refl;
        depth_same = refl;
        finfo_same = refl;
      }

  one :
      (c : Cache) (ks : KeyStore) (bs : FBlockStore) (r : WriteQueueEntity) (w : World)
      → CanWrite c ks bs
      → CanRun c.config.nchunks r
      → Ran c ks bs (r ∷ []) (run_write_request cr c r w)
  one c ks bs r w v (inl n) = idle c ks bs r w v n
  one c ks bs r w v (inr (p, buf, some_bytes, small)) =
      let hi = v.n_max in
      let k = run_write_request-Written cr c ks bs r p v buf some_bytes small w (omega arith) in
      record {
        c' = k.c';
        w' = k.w';
        ks' = k.ks';
        bs' = (add_block bs (cr.to_hex r.fhash) k.bi).1;
        result = k.result;
        can_write = k.can_write;
        progress = k.progress;
        config_same = k.config_same;
        queue_same = k.queue_same;
        depth_same = k.depth_same;
        finfo_same = k.finfo_same;
      }

  run_write_requests-step :
      (c c1 : Cache) (r : WriteQueueEntity) (rs : List WriteQueueEntity) (w w1 : World)
      → run_write_request cr c r w ≡ some (c1, w1)
      → run_write_requests cr c (r ∷ rs) w ≡ run_write_requests cr c1 rs w1
  unfolding run_write_requests
  run_write_requests-step c c1 r rs w w1 h = rw (h, run_write_requests) refl

  run_write_requests-nil : (c : Cache) (w : World) → run_write_requests cr c [] w ≡ some (c, w)
  unfolding run_write_requests
  run_write_requests-nil c w = refl

  -- For a cache that can write, a list of requests without a buffer, or with blocks that are not
  -- empty and fit a new assembly, is run to its end and the cache can still write (where the host
  -- answers whether a chunk file exists): the blocks of every file are those that it had, followed by
  -- one for each request of the file that has a buffer, in their order and with the request's
  -- position, size and checksum; the assembly of each of these, and the one that was being written
  -- before, is being written, or has its key stored, or a failure was counted; and no key that was
  -- there is lost or replaced.
  pub run_write_requests-Ran :
      (rs : List WriteQueueEntity) (c : Cache) (ks : KeyStore) (bs : FBlockStore) (w : World)
      → CanWrite c ks bs
      → AllCanRun c.config.nchunks rs
      → Ran c ks bs rs (run_write_requests cr c rs w)
  run_write_requests-Ran [] c ks bs w v ok = record {
    c' = c;
    w' = w;
    ks' = ks;
    bs' = bs;
    result = run_write_requests-nil c w;
    can_write = v;
    progress = Progress-refl cr c.writeenv ks bs;
    config_same = refl;
    queue_same = refl;
    depth_same = refl;
    finfo_same = refl;
  }
  run_write_requests-Ran (r ∷ rs) c ks bs w v (ok, oks) =
      let k = one c ks bs r w v ok in
      let l =
        run_write_requests-Ran rs k.c' k.ks' k.bs' k.w' k.can_write
          (subst (λ x. AllCanRun x.nchunks rs) (sym k.config_same) oks) in
      record {
        c' = l.c';
        w' = l.w';
        ks' = l.ks';
        bs' = l.bs';
        result = run_write_requests-step c k.c' r rs w k.w' k.result ∙ l.result;
        can_write = l.can_write;
        progress = Progress-trans cr k.progress l.progress;
        config_same = l.config_same ∙ k.config_same;
        queue_same = l.queue_same ∙ k.queue_same;
        depth_same = l.depth_same ∙ k.depth_same;
        finfo_same = l.finfo_same ∙ k.finfo_same;
      }
