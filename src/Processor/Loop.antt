-- ===== src/Processor/Loop.antt =====
-- The loop of CoqProcessor::file_backup over the blocks of a file: one request and a full queue.
use mathlib.Core.List.{append_assoc, append-nil}
use elykseer_cpp.Base.{
  ◌≡◌, refl, sym, subst, ◌∙◌, ap, true, false, Option, some, List, [], ◌∷◌, ◌++◌, ℕ, ◌<◌, arith,
  inl, inr, ◌⊎◌, Bool-cases, List-cases, ap₂, length, leb, add32,
}
use elykseer_cpp.Host.{World}
use elykseer_cpp.Cipher.{Crypto}
use elykseer_cpp.Store.{KeyStore, FBlockStore}
use elykseer_cpp.Cache.Progress.{Progress, Progress-refl, Progress-trans}
use elykseer_cpp.Cache.{Cache, WriteQueueEntity}
use elykseer_cpp.Cache.Write.{enqueue_write_request, iterate_write_queue}
use elykseer_cpp.Cache.Placed.{CanWrite}
use elykseer_cpp.Cache.Batch.{CanRun, AllCanRun, run_write_requests-Ran}
use elykseer_cpp.Processor.{put_request}

-- A cache that can write, with a queue that is not of depth 0 and whose requests can be run.
pub record CanQueue (c : Cache) (ks : KeyStore) (bs : FBlockStore) : Type 0 where
  pub can_write : CanWrite c ks bs
  pub depth_pos : 0 < c.n_queuesz
  pub queue_runs : AllCanRun c.config.nchunks c.writequeue

lt→leb : {a b : ℕ} → b < a → leb a b ≡ false
lt→leb h = ground arith

AllCanRun-append :
    (n : ℕ) (rs : List WriteQueueEntity) (r : WriteQueueEntity)
    → AllCanRun n rs
    → CanRun n r
    → AllCanRun n (rs ++ r ∷ [])
AllCanRun-append n [] r a b = (b, tt)
AllCanRun-append n (x ∷ rs) r (a, more) b = (a, AllCanRun-append n rs r more b)

module _ (cr : Crypto) where
  -- What an operation leaves that was given the requests `new` for the queue: it did return, the cache
  -- can go on, and of the requests that waited and the new ones, in this order, the first were run and
  -- the others wait.
  pub record GoesOn (c : Cache) (ks : KeyStore) (bs : FBlockStore) (new : List WriteQueueEntity)
      (res : Option (Cache × World)) : Type 0 where
    pub c' : Cache
    pub w' : World
    pub ks' : KeyStore
    pub bs' : FBlockStore
    pub ran : List WriteQueueEntity
    pub result : res ≡ some (c', w')
    pub can_queue : CanQueue c' ks' bs'
    pub order : ran ++ c'.writequeue ≡ c.writequeue ++ new
    pub progress : Progress cr c.writeenv ks bs ran c'.writeenv ks' bs'
    pub config_same : c'.config ≡ c.config
    pub finfo_same : c'.finfostore ≡ c.finfostore

  abbrev pub GoesOn-refl :
      (c : Cache) (ks : KeyStore) (bs : FBlockStore) (w : World) {res : Option (Cache × World)}
      → CanQueue c ks bs
      → res ≡ some (c, w)
      → GoesOn c ks bs [] res
  GoesOn-refl c ks bs w v e = record {
    c' = c;
    w' = w;
    ks' = ks;
    bs' = bs;
    ran = [];
    result = e;
    can_queue = v;
    order = sym (append-nil c.writequeue);
    progress = Progress-refl cr c.writeenv ks bs;
    config_same = refl;
    finfo_same = refl;
  }

  pub GoesOn-trans :
      {c : Cache} {ks : KeyStore} {bs : FBlockStore} {new new' : List WriteQueueEntity}
      {res res' : Option (Cache × World)} (k : GoesOn c ks bs new res)
      → GoesOn k.c' k.ks' k.bs' new' res'
      → GoesOn c ks bs (new ++ new') res'
  GoesOn-trans {c} {new = new} {new' = new'} k l = record {
    c' = l.c';
    w' = l.w';
    ks' = l.ks';
    bs' = l.bs';
    ran = k.ran ++ l.ran;
    result = l.result;
    can_queue = l.can_queue;
    order =
        append_assoc k.ran l.ran l.c'.writequeue
        ∙ ap (λ x. k.ran ++ x) l.order
        ∙ sym (append_assoc k.ran k.c'.writequeue new')
        ∙ ap (λ x. x ++ new') k.order
        ∙ append_assoc c.writequeue new new';
    progress = Progress-trans cr k.progress l.progress;
    config_same = l.config_same ∙ k.config_same;
    finfo_same = l.finfo_same ∙ k.finfo_same;
  }

  iterate-nil :
      (c : Cache) (w : World) → c.writequeue ≡ [] → iterate_write_queue cr c w ≡ some (c, w)
  unfolding iterate_write_queue
  iterate-nil c w e = simp (e, iterate_write_queue) refl

  -- iterate_write_queue runs every request and leaves an empty queue.
  pub record Emptied (c : Cache) (ks : KeyStore) (bs : FBlockStore) (res : Option (Cache × World))
      : Type 0 where
    pub goes_on : GoesOn c ks bs [] res
    pub all_ran : goes_on.ran ≡ c.writequeue
    pub empty : goes_on.c'.writequeue ≡ []
    pub depth_same : goes_on.c'.n_queuesz ≡ c.n_queuesz

  pub iterate_write_queue-Emptied :
      (c : Cache) (ks : KeyStore) (bs : FBlockStore) (w : World)
      → CanQueue c ks bs
      → Emptied c ks bs (iterate_write_queue cr c w)
  unfolding iterate_write_queue
  iterate_write_queue-Emptied c ks bs w v = elim (List-cases c.writequeue) [
    | inl e ↦ record {
      goes_on = GoesOn-refl c ks bs w v (iterate-nil c w e);
      all_ran = sym e;
      empty = e;
      depth_same = refl;
    }
    | inr (r, rs, e) ↦
        let c0 : Cache = record c {
          writequeue = [];
          stats = record c.stats { n_iterate_writes = add32 c.stats.n_iterate_writes 1 };
        } in
        let v0 : CanWrite c0 ks bs = record {
          n_min = v.can_write.n_min;
          n_max = v.can_write.n_max;
          keys = v.can_write.keys;
          blocks = v.can_write.blocks;
          env = v.can_write.env;
        } in
        let k =
          run_write_requests-Ran cr (r ∷ rs) c0 ks bs w v0
            (subst (AllCanRun c.config.nchunks) e v.queue_runs) in
        record {
          goes_on = record {
            c' = k.c';
            w' = k.w';
            ks' = k.ks';
            bs' = k.bs';
            ran = r ∷ rs;
            result = simp (e, iterate_write_queue) k.result;
            can_queue = record {
              can_write = k.can_write;
              depth_pos = subst (λ x. 0 < x) (sym k.depth_same) v.depth_pos;
              queue_runs = subst (AllCanRun k.c'.config.nchunks) (sym k.queue_same) tt;
            };
            order = ap₂ (λ x y. x ++ y) (sym e) k.queue_same;
            progress = k.progress;
            config_same = k.config_same;
            finfo_same = k.finfo_same;
          };
          all_ran = sym e;
          empty = k.queue_same;
          depth_same = k.depth_same;
        }
  ]

  -- A request that was taken is at the end of the queue: behind the requests that waited, or alone if
  -- the queue was full, and then these were run.
  pub record Put (c : Cache) (ks : KeyStore) (bs : FBlockStore) (r : WriteQueueEntity)
      (res : Option (Cache × World)) : Type 0 where
    pub goes_on : GoesOn c ks bs (r ∷ []) res
    pub waits :
        ((leb c.n_queuesz (length c.writequeue) ≡ false)
          × (goes_on.ran ≡ [])
          × (goes_on.c'.writequeue ≡ c.writequeue ++ r ∷ []))
        ⊎ ((leb c.n_queuesz (length c.writequeue) ≡ true)
            × (goes_on.ran ≡ c.writequeue)
            × (goes_on.c'.writequeue ≡ r ∷ []))

  enqueued : Cache → WriteQueueEntity → Cache
  enqueued c r = record c {
    writequeue = c.writequeue ++ r ∷ [];
    stats = record c.stats { n_write_requests = add32 c.stats.n_write_requests 1 };
  }

  enqueue-room :
      (c : Cache) (r : WriteQueueEntity)
      → leb c.n_queuesz (length c.writequeue) ≡ false
      → enqueue_write_request c r ≡ (true, enqueued c r)
  unfolding enqueue_write_request enqueued
  enqueue-room c r h = rw (h, enqueue_write_request) refl

  enqueue-full :
      (c : Cache) (r : WriteQueueEntity)
      → leb c.n_queuesz (length c.writequeue) ≡ true
      → enqueue_write_request c r ≡ (false, c)
  unfolding enqueue_write_request
  enqueue-full c r h = rw (h, enqueue_write_request) refl

  enqueued-CanQueue :
      (c : Cache) (ks : KeyStore) (bs : FBlockStore) (r : WriteQueueEntity)
      → CanQueue c ks bs
      → CanRun c.config.nchunks r
      → CanQueue (enqueued c r) ks bs
  unfolding enqueued
  enqueued-CanQueue c ks bs r v ok = record {
    can_write = record {
      n_min = v.can_write.n_min;
      n_max = v.can_write.n_max;
      keys = v.can_write.keys;
      blocks = v.can_write.blocks;
      env = v.can_write.env;
    };
    depth_pos = v.depth_pos;
    queue_runs = AllCanRun-append c.config.nchunks c.writequeue r v.queue_runs ok;
  }

  -- For a cache that can queue requests and a request that can be run: if the queue has room then the
  -- request is put at its end and nothing is run; if it is full then the requests in it are run first,
  -- all and in their order, with their blocks recorded and no key lost, and the request is then the
  -- only one that waits; and the cache can go on.
  pub put_request-Put :
      (c : Cache) (ks : KeyStore) (bs : FBlockStore) (r : WriteQueueEntity) (w : World)
      → CanQueue c ks bs
      → CanRun c.config.nchunks r
      → Put c ks bs r (put_request cr c r w)
  unfolding put_request enqueued
  put_request-Put c ks bs r w v ok = elim (Bool-cases (leb c.n_queuesz (length c.writequeue))) [
    | inr room ↦ record {
      goes_on = record {
        c' = enqueued c r;
        w' = w;
        ks' = ks;
        bs' = bs;
        ran = [];
        result = simp (enqueue-room c r room, put_request) refl;
        can_queue = enqueued-CanQueue c ks bs r v ok;
        order = refl;
        progress = Progress-refl cr c.writeenv ks bs;
        config_same = refl;
        finfo_same = refl;
      };
      waits = inl (room, refl, refl);
    }
    | inl no_room ↦
        let k = iterate_write_queue-Emptied c ks bs w v in
        let g = k.goes_on in
        let pos_depth = v.depth_pos in
        let room : leb g.c'.n_queuesz (length g.c'.writequeue) ≡ false =
          lt→leb (omega (arith, k.depth_same, ap length k.empty)) in
        record {
          goes_on = record {
            c' = enqueued g.c' r;
            w' = g.w';
            ks' = g.ks';
            bs' = g.bs';
            ran = g.ran;
            result =
                simp (enqueue-full c r no_room, put_request, g.result, enqueue-room g.c' r room)
                  refl;
            can_queue =
                enqueued-CanQueue g.c' g.ks' g.bs' r g.can_queue
                  (subst (λ x. CanRun x.nchunks r) (sym g.config_same) ok);
            order = ap₂ (λ x y. x ++ (y ++ r ∷ [])) k.all_ran k.empty;
            progress = g.progress;
            config_same = g.config_same;
            finfo_same = g.finfo_same;
          };
          waits = inr (no_room, k.all_ran, ap (λ x. x ++ r ∷ []) k.empty);
        }
  ]
