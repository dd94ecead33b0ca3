-- ===== src/Restore/Results.antt =====
-- The results of run_read_requests: which requests they answer, and what is known of a block that is
-- handed out.
use elykseer_cpp.Base.{
  ℕ, ◌+◌, ◌<◌, ◌≡◌, refl, ◌∙◌, false, Option, none, some, List, [], ◌∷◌, zero, suc, arith, Block,
  slice, pos, add32, Bool-cases, inl, inr, Option-cases, poke,
}
use elykseer_cpp.Host.{World}
use elykseer_cpp.Buffer.{Buffer, plain, create, alloc, at, set_at, index_ok}
use elykseer_cpp.Cipher.{Crypto}
use elykseer_cpp.Assembly.{BlockInformation, Assembly, full, idx2apos}
use elykseer_cpp.Assembly.Full.{restore, restore_loop, checked, out_of_range}
use elykseer_cpp.Assembly.Full.Restore.{checked_sound}
use elykseer_cpp.Cache.{Cache, Stats, ReadQueueEntity, ReadQueueResult, add64}
use elykseer_cpp.Cache.Read.{
  ensure_assembly, try_restore_assembly, run_read_requests, block_of, result_len,
}

abbrev ◌>>=◌ {ℓ κ} : {A : Type ℓ} {B : Type κ} → Option A → (A → Option B) → Option B
◌>>=◌ m f = elim m [ none ↦ none | some a ↦ f a ]

bind-some {ℓ κ} :
    {A : Type ℓ} {B : Type κ} (m : Option A) (f : A → Option B) {b : B}
    → (◌>>=◌ m f) ≡ some b
    → (a : A) × (m ≡ some a) × (f a ≡ some b)
bind-some none f h = cc
bind-some (some a) f h = (a, refl, h)

set_at-len : (b b' : Block) (i v : ℕ) → set_at b i v ≡ some b' → b'.len ≡ b.len
unfolding set_at
set_at-len b b' i v h = elim (Bool-cases (index_ok b i)) [
  | inl ok ↦
      let e : some (record b { byte = poke b.byte i v }) ≡ some b' = rw (ok, set_at) at h in
      ground arith
  | inr bad ↦ let e : none ≡ some b' = rw (bad, set_at) at h in cc
]

restore_loop-len :
    (left idx n apos : ℕ) (src b b' : Block)
    → restore_loop left idx n apos src b ≡ some b'
    → b'.len ≡ b.len
unfolding restore_loop
restore_loop-len zero idx n apos src b b' h = ground arith
restore_loop-len (suc left) idx n apos src b b' h =
    let (v, _, h1) = bind-some (at src (idx2apos (add32 idx apos) n)) _ h in
    let (b1, s, h2) = bind-some (set_at b idx v) _ h1 in
    restore_loop-len left (idx + 1) n apos src b1 b' h2 ∙ set_at-len b b1 idx v s

module _ (cr : Crypto) where
  -- What is known of a block that answers a request: its length, and its checksum in hex.
  pub record IsBlockOf (r : ReadQueueEntity) (b : Block) : Type 0 where
    pub some_bytes : 0 < r.rlen
    pub len_is : b.len ≡ r.rlen
    pub given : List ℕ
    pub given_is : r.chksum ≡ some given
    pub hex_is : cr.to_hex (cr.sha3_256 (slice b.byte 0 r.rlen)) ≡ cr.to_hex given

  abbrev pub Answered : ReadQueueEntity → Option (Buffer plain) → Type 0
  Answered r none = Unit {0}
  Answered r (some buf) = (b : Block) × (buf ≡ record { pimpl = some b }) × IsBlockOf r b

  in_range-some_bytes :
      (n : ℕ) (bi : BlockInformation) → out_of_range cr n bi ≡ false → 0 < bi.blocksize
  unfolding out_of_range
  in_range-some_bytes n bi h = ground arith

  abbrev assembled :
      Assembly full → BlockInformation → Buffer plain → Option (Option (Buffer plain))
  assembled a bi buf = ◌>>=◌ buf.pimpl λ src.
      ◌>>=◌
        (restore_loop bi.blocksize 0 a.config.nchunks bi.blockapos src (alloc (pos bi.blocksize)))
        λ b. some (checked cr bi b)

  restore-assembled :
      (a : Assembly full) (bi : BlockInformation) (buf : Buffer plain)
      → restore cr a bi ≡ some (some buf)
      → (b : Buffer plain) × (0 < bi.blocksize) × (assembled a bi b ≡ some (some buf))
  unfolding restore create
  restore-assembled a bi buf h = elim (Option-cases a.buffer) [
    | inl e ↦ absurd (cc (rw (e, restore) at h))
    | inr (b, e) ↦ elim (Bool-cases (out_of_range cr a.config.nchunks bi)) [
      | inl out ↦ absurd (cc (rw (out) at (rw (e, restore) at h)))
      | inr in_range ↦ (
        b,
        in_range-some_bytes a.config.nchunks bi in_range,
        rw in_range at (rw (e, restore) at h),
      )
    ]
  ]

  restore-IsBlockOf :
      (a : Assembly full) (r : ReadQueueEntity) (buf : Buffer plain)
      → restore cr a (block_of cr r) ≡ some (some buf)
      → Answered r (some buf)
  unfolding alloc
  restore-IsBlockOf a r buf h =
      let (src0, some_bytes, h1) = restore-assembled a (block_of cr r) buf h in
      let (src, _, h2) = bind-some src0.pimpl _ h1 in
      let (b, looped, h3) = bind-some (restore_loop r.rlen 0 a.config.nchunks r.apos src _) _ h2 in
      let len = restore_loop-len r.rlen 0 a.config.nchunks r.apos src _ b looped in
      let passed : checked cr (block_of cr r) b ≡ some buf = cc in
      let (g, given, hex, same) = checked_sound cr (block_of cr r) b buf passed in
      (
        b,
        same,
        record {
          some_bytes = some_bytes;
          len_is = len;
          given = g;
          given_is = given;
          hex_is = rw len at hex;
        },
      )

  -- An operation that leaves the queue of read requests as it is.
  pub record SameQueue (c c' : Cache) : Type 0 where
    pub queue_same : c'.readqueue ≡ c.readqueue
    pub depth_same : c'.n_queuesz ≡ c.n_queuesz

  SameQueue-trans : {a b c : Cache} → SameQueue a b → SameQueue b c → SameQueue a c
  SameQueue-trans p q = record {
    queue_same = q.queue_same ∙ p.queue_same;
    depth_same = q.depth_same ∙ p.depth_same;
  }

  try_restore_assembly-SameQueue :
      (c : Cache) (sel : List ℕ) (w : World) → SameQueue c (try_restore_assembly cr c sel w).1
  unfolding try_restore_assembly
  try_restore_assembly-SameQueue c sel w = ground arith

  ensure_assembly-SameQueue :
      (c : Cache) (sel : List ℕ) (w : World) → SameQueue c (ensure_assembly cr c sel w).1
  unfolding ensure_assembly
  ensure_assembly-SameQueue c sel w = ground (arith, try_restore_assembly-SameQueue c sel w)

  -- The results answer the first requests, in their order.
  abbrev pub Answers : List ReadQueueEntity → List ReadQueueResult → Type 0
  Answers rs [] = Unit {0}
  Answers [] (x ∷ xs) = ⊥
  Answers (r ∷ rs) (x ∷ xs) = (x.readrequest ≡ r) × Answered r x.rresult × Answers rs xs

  abbrev pub Answering :
      Cache → List ReadQueueEntity → Option (List ReadQueueResult × Cache) → Type 0
  Answering c rs none = Unit {0}
  Answering c rs (some (results, c')) = Answers rs results × SameQueue c c'

  SameQueue-stats :
      (c c' : Cache) (s : Stats) → SameQueue c c' → SameQueue c (record c' { stats = s })
  SameQueue-stats c c' s v = record { queue_same = v.queue_same; depth_same = v.depth_same }

  restore-Answered :
      (a : Assembly full) (r : ReadQueueEntity) (res : Option (Buffer plain))
      → restore cr a (block_of cr r) ≡ some res
      → Answered r res
  restore-Answered a r none h = tt
  restore-Answered a r (some buf) h = restore-IsBlockOf a r buf h

  abbrev counted : Cache → Option (Buffer plain) → Cache
  counted c res = record c {
    stats = record c.stats {
      restored_bytes = add64 c.stats.restored_bytes (result_len cr res);
      n_read_requests = add32 c.stats.n_read_requests 1;
    };
  }

  abbrev with_result :
      ReadQueueEntity
      → Option (Buffer plain)
      → Option (List ReadQueueResult × Cache)
      → Option (List ReadQueueResult × Cache)
  with_result r res ran = elim ran [
    | none ↦ none
    | some (results, c2) ↦ some (record { readrequest = r; rresult = res } ∷ results, c2)
  ]

  with_result-Answering :
      (c c1 : Cache) (r : ReadQueueEntity) (rs : List ReadQueueEntity) (res : Option (Buffer plain))
      (ran : Option (List ReadQueueResult × Cache))
      → Answered r res
      → SameQueue c c1
      → Answering c1 rs ran
      → Answering c (r ∷ rs) (with_result r res ran)
  with_result-Answering c c1 r rs res none a s v = tt
  with_result-Answering c c1 r rs res (some (results, c2)) a s (v, q) =
      ((refl, a, v), SameQueue-trans s q)

  -- Each result of run_read_requests is for the request at its place, and its block, if it has one,
  -- has the length and the checksum of the request.
  pub run_read_requests-Answering :
      (c : Cache) (rs : List ReadQueueEntity) (w : World)
      → Answering c rs (run_read_requests cr c rs w)
  unfolding run_read_requests
  run_read_requests-Answering c [] w = (tt, record { queue_same = refl; depth_same = refl })
  run_read_requests-Answering c (r ∷ rs) w =
      let same = ensure_assembly-SameQueue c r.aid w in
      let c1 = (ensure_assembly cr c r.aid w).1 in
      elim (Option-cases (ensure_assembly cr c r.aid w).0) [
        | inl e ↦ rw (e, run_read_requests) (tt, same)
        | inr (env, e) ↦ elim (Option-cases env.assembly) [
          | inl e2 ↦ rw (e, run_read_requests) (rw e2 (tt, same))
          | inr (a, e2) ↦ elim (Option-cases (restore cr a (block_of cr r))) [
            | inl e3 ↦ rw (e, run_read_requests) (rw e2 (rw e3 tt))
            | inr (res, e3) ↦
                rw (e, run_read_requests)
                  (rw e2 (
                    rw e3 (
                      with_result-Answering c (counted c1 res) r rs res
                        (run_read_requests cr (counted c1 res) rs w) (restore-Answered a r res e3)
                        (SameQueue-stats c c1 (counted c1 res).stats same)
                        (run_read_requests-Answering (counted c1 res) rs w))))
          ]
        ]
      ]
