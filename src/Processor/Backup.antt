-- ===== src/Processor/Backup.antt =====
-- CoqProcessor::file_backup as a whole.
use elykseer_cpp.Base.{
  ◌≡◌, refl, sym, subst, ◌∙◌, true, false, Option, some, List, [], ◌∷◌, ◌++◌, ap, blit_inside, ℕ,
  zero, suc, ◌≤◌, ◌<◌, ◌+◌, ◌-◌, min, arith, inl, inr, Block, blit, Bool-cases, ltb, str_eq_refl,
}
use elykseer_cpp.Host.{World, File, fread}
use elykseer_cpp.Buffer.{create_from, alloc_from, alloc}
use elykseer_cpp.Cipher.{Crypto}
use elykseer_cpp.Assembly.{Configuration}
use elykseer_cpp.Store.{KeyStore, FBlockStore, FInfoStore, FileInformation, find, add_info}
use elykseer_cpp.Store.Entries.{find-add}
use elykseer_cpp.Cache.{Cache, WriteQueueEntity}
use elykseer_cpp.Cache.Progress.{Progress, Progress-trans}
use elykseer_cpp.Cache.Write.{iterate_write_queue}
use elykseer_cpp.Cache.Batch.{CanRun}
use elykseer_cpp.Processor.{
  block_sz, read_block, put_request, file_loop, Files, get_file_information, unchanged, finish_file,
  file_backup,
}
use elykseer_cpp.Processor.Loop.{
  CanQueue, GoesOn, GoesOn-refl, GoesOn-trans, put_request-Put, iterate_write_queue-Emptied,
}

blit_front : (g : ℕ → ℕ) (q n j : ℕ) → j < n → blit (λ _. 0) 0 g q n j ≡ g (q + j)
blit_front g q n j lt =
    let same : q + (j - 0) ≡ q + j = omega arith in
    blit_inside (λ _. 0) g 0 q n j (omega arith) (omega arith) ∙ ap g same

module _ (cr : Crypto) where
  read_block-content :
      (fhash : List ℕ) (f : File) (fpos sz : ℕ)
      → (read_block cr fhash f fpos sz).1.content ≡ f.content
  unfolding read_block fread
  read_block-content fhash f fpos sz = refl

  -- The request is for the bytes of the content from `fpos` on, `sz` of them.
  pub record IsPart (fhash : List ℕ) (content : Block) (fpos sz : ℕ) (r : WriteQueueEntity)
      : Type 0 where
    pub p : Block
    pub fhash_is : r.fhash ≡ fhash
    pub fpos_is : r.fpos ≡ fpos
    pub buffer_is : r.buffer ≡ some (record { pimpl = some p })
    pub len_is : p.len ≡ sz
    pub bytes_are : (j : ℕ) → j < sz → p.byte j ≡ content.byte (fpos + j)

  read_block-IsPart :
      (fhash : List ℕ) (f : File) (fpos sz : ℕ)
      → fpos + sz ≤ f.content.len
      → IsPart fhash f.content fpos sz (read_block cr fhash f fpos sz).0
  unfolding read_block fread create_from alloc_from alloc
  read_block-IsPart fhash f fpos sz inside =
      let nread = min sz (f.content.len - fpos) in
      record {
        p = alloc_from nread (blit (λ _. 0) 0 f.content.byte fpos nread);
        fhash_is = refl;
        fpos_is = refl;
        buffer_is = refl;
        len_is = omega arith;
        bytes_are = λ j lt.
            let m = blit (λ _. 0) 0 f.content.byte fpos nread in
            let lt_nread : j < nread = omega arith in
            blit_front m 0 nread j lt_nread
            ∙ ap m (omega arith)
            ∙ blit_front f.content.byte fpos nread j lt_nread;
      }

  IsPart-CanRun :
      (n : ℕ) {fhash : List ℕ} {content : Block} {fpos sz : ℕ} (r : WriteQueueEntity)
      → 16 ≤ n
      → n ≤ 256
      → 0 < sz
      → sz ≤ block_sz
      → IsPart fhash content fpos sz r
      → CanRun n r
  IsPart-CanRun n r lo hi some_bytes small k =
      inr (k.p, k.buffer_is, omega (arith, k.len_is), omega (arith, k.len_is))

  -- The requests are for the bytes of the content from a position up to `fsize`: one after the
  -- other, each with at least one byte and at most a block.
  pub data Covers (fhash : List ℕ) (content : Block) (fsize : ℕ)
      : ℕ → List WriteQueueEntity → Type 0 where
    all_read : {fpos : ℕ} → fsize ≤ fpos → Covers fhash content fsize fpos []
    part :
        {fpos : ℕ} {rs : List WriteQueueEntity} (sz : ℕ) (r : WriteQueueEntity)
        → 0 < sz
        → sz ≤ block_sz
        → fpos + sz ≤ fsize
        → IsPart fhash content fpos sz r
        → Covers fhash content fsize (fpos + sz) rs
        → Covers fhash content fsize fpos (r ∷ rs)

  module _ (fhash : List ℕ) (fsize : ℕ) where
    file_loop-stop :
        (fuel fpos : ℕ) (f : File) (c : Cache) (w : World)
        → ltb fpos fsize ≡ false
        → file_loop cr (suc fuel) fhash f fsize fpos c w ≡ some (c, w)
    unfolding file_loop
    file_loop-stop fuel fpos f c w h = rw (h, file_loop) refl

    file_loop-step :
        (fuel fpos : ℕ) (f : File) (c c' : Cache) (w w' : World)
        → ltb fpos fsize ≡ true
        → put_request cr c (read_block cr fhash f fpos (min (fsize - fpos) block_sz)).0 w
          ≡ some (c', w')
        → file_loop cr (suc fuel) fhash f fsize fpos c w
          ≡ file_loop cr fuel fhash
              (read_block cr fhash f fpos (min (fsize - fpos) block_sz)).1
              fsize
              (fpos + min (fsize - fpos) block_sz)
              c'
              w'
    unfolding file_loop
    file_loop-step fuel fpos f c c' w w' h e = rw (h, file_loop) (rw e refl)

    -- The loop ends: it put requests for the whole rest of the file into the queue.
    record FileRan (f : File) (fpos : ℕ) (c : Cache) (ks : KeyStore) (bs : FBlockStore)
        (res : Option (Cache × World)) : Type 0 where
      reqs : List WriteQueueEntity
      covers : Covers fhash f.content fsize fpos reqs
      goes_on : GoesOn cr c ks bs reqs res

    file_loop-FileRan :
        (fuel fpos : ℕ) (f : File) (c : Cache) (ks : KeyStore) (bs : FBlockStore) (w : World)
        → CanQueue c ks bs
        → fsize ≤ f.content.len
        → 0 < fuel
        → fsize < fpos + fuel
        → FileRan f fpos c ks bs (file_loop cr fuel fhash f fsize fpos c w)
    file_loop-FileRan zero fpos f c ks bs w v len some_fuel enough = absurd (omega arith)
    file_loop-FileRan (suc fuel) fpos f c ks bs w v len some_fuel enough =
        elim (Bool-cases (ltb fpos fsize)) [
          | inr stop ↦ record {
            reqs = [];
            covers = all_read (ground arith);
            goes_on = GoesOn-refl cr c ks bs w v (file_loop-stop fuel fpos f c w stop);
          }
          | inl more ↦
              let sz = min (fsize - fpos) block_sz in
              let lt : fpos < fsize = ground arith in
              let (r, f1) = read_block cr fhash f fpos sz in
              let is_part = read_block-IsPart fhash f fpos sz (omega arith) in
              let runs =
                IsPart-CanRun c.config.nchunks r v.can_write.n_min v.can_write.n_max (omega arith)
                  (omega arith) is_part in
              let k = (put_request-Put cr c ks bs r w v runs).goes_on in
              let same : f1.content ≡ f.content = read_block-content fhash f fpos sz in
              let l =
                file_loop-FileRan fuel (fpos + sz) f1 k.c' k.ks' k.bs' k.w' k.can_queue
                  (subst (λ (x : Block). fsize ≤ x.len) (sym same) len) (omega arith)
                  (omega arith) in
              record {
                reqs = r ∷ l.reqs;
                covers =
                    part sz r (omega arith) (omega arith) (omega arith) is_part (
                      subst (λ (x : Block). Covers fhash x fsize (fpos + sz) l.reqs) same l.covers);
                goes_on =
                    rw (file_loop-step fuel fpos f c k.c' w k.w' more k.result)
                      (GoesOn-trans cr k l.goes_on);
              }
        ]

  finish_file-run :
      (fi : FileInformation) (st : FInfoStore) (c c1 : Cache) (w w1 : World)
      → iterate_write_queue cr c w ≡ some (c1, w1)
      → c1.finfostore ≡ some st
      → finish_file cr fi c w
        ≡ some (some fi, record c1 { finfostore = some (add_info st fi.fhash fi).1 }, w1)
  unfolding finish_file
  finish_file-run fi st c c1 w w1 h e = simp (h, finish_file, e) refl

  file_backup-run :
      (fs : Files) (config : Configuration) (fn : List ℕ) (fi : FileInformation) (st : FInfoStore)
      (content : Block) (c c1 : Cache) (w w1 : World)
      → get_file_information cr fs fn config.my_id ≡ some fi
      → c.finfostore ≡ some st
      → unchanged cr st fi ≡ false
      → fs.open_read fn ≡ some content
      → file_loop cr
          (suc fi.fsize)
          (cr.from_hex fi.fhash)
          (record { content = content; offset = 0; room = 0 })
          fi.fsize
          0
          c
          w
        ≡ some (c1, w1)
      → file_backup cr fs config fn c w ≡ finish_file cr fi c1 w1
  unfolding file_backup
  file_backup-run fs config fn fi st content c c1 w w1 i s u o l =
      simp (i, file_backup, s, u, o, l) refl

  add_info-find :
      (st : FInfoStore) (fi : FileInformation) → find (add_info st fi.fhash fi).1 fi.fhash ≡ some fi
  unfolding add_info
  add_info-find st fi = find-add st fi.fhash fi.fhash fi ∙ rw (str_eq_refl fi.fhash) refl

  -- The file was backed up: the requests that waited and those for the whole file were run, in this
  -- order, no request waits, and the file's information is stored.
  pub record BackedUp (c : Cache) (ks : KeyStore) (bs : FBlockStore) (content : Block)
      (fi : FileInformation) (res : Option (Option FileInformation × Cache × World)) : Type 0 where
    pub c' : Cache
    pub w' : World
    pub ks' : KeyStore
    pub bs' : FBlockStore
    pub st' : FInfoStore
    pub result : res ≡ some (some fi, c', w')
    pub can_queue : CanQueue c' ks' bs'
    pub reqs : List WriteQueueEntity
    pub covers : Covers (cr.from_hex fi.fhash) content fi.fsize 0 reqs
    pub progress : Progress cr c.writeenv ks bs (c.writequeue ++ reqs) c'.writeenv ks' bs'
    pub no_requests : c'.writequeue ≡ []
    pub infos : c'.finfostore ≡ some st'
    pub stored : find st' fi.fhash ≡ some fi

  -- For a cache that can queue requests, with a store of file information, and a file that is not as
  -- it was before, can be opened and is not shorter than its size: file_backup runs to its end: the
  -- requests that waited, and then requests that are together the whole file up to its size, were all
  -- run, each with its block recorded for its file; none waits; the assemblies of these blocks, and the
  -- one that was being written before, are being written, or have a key stored, or a failure was
  -- counted; no key is lost or replaced; and the file's information is stored and returned.
  pub file_backup-BackedUp :
      (fs : Files) (config : Configuration) (fn : List ℕ) (fi : FileInformation) (st : FInfoStore)
      (content : Block) (c : Cache) (ks : KeyStore) (bs : FBlockStore) (w : World)
      → CanQueue c ks bs
      → get_file_information cr fs fn config.my_id ≡ some fi
      → c.finfostore ≡ some st
      → unchanged cr st fi ≡ false
      → fs.open_read fn ≡ some content
      → fi.fsize ≤ content.len
      → BackedUp c ks bs content fi (file_backup cr fs config fn c w)
  file_backup-BackedUp fs config fn fi st content c ks bs w v i s u o len =
      let ran =
        file_loop-FileRan (cr.from_hex fi.fhash) fi.fsize (suc fi.fsize) 0
          (record { content = content; offset = 0; room = 0 }) c ks bs w v len (omega arith)
          (omega arith) in
      let k = ran.goes_on in
      let l = iterate_write_queue-Emptied cr k.c' k.ks' k.bs' k.w' k.can_queue in
      let g = l.goes_on in
      let e : g.c'.finfostore ≡ some st = g.finfo_same ∙ k.finfo_same ∙ s in
      let q = g.can_queue in
      record {
        c' = record g.c' { finfostore = some (add_info st fi.fhash fi).1 };
        w' = g.w';
        ks' = g.ks';
        bs' = g.bs';
        st' = (add_info st fi.fhash fi).1;
        result =
            file_backup-run fs config fn fi st content c k.c' w k.w' i s u o k.result
            ∙ finish_file-run fi st k.c' g.c' k.w' g.w' g.result e;
        can_queue = record {
          can_write = record {
            n_min = q.can_write.n_min;
            n_max = q.can_write.n_max;
            keys = q.can_write.keys;
            blocks = q.can_write.blocks;
            env = q.can_write.env;
          };
          depth_pos = q.depth_pos;
          queue_runs = q.queue_runs;
        };
        reqs = ran.reqs;
        covers = ran.covers;
        progress =
            subst (λ rs. Progress cr c.writeenv ks bs rs g.c'.writeenv g.ks' g.bs')
              (ap (λ x. k.ran ++ x) l.all_ran ∙ k.order) (Progress-trans cr k.progress g.progress);
        no_requests = l.empty;
        infos = refl;
        stored = add_info-find st fi;
      }
