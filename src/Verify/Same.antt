-- ===== src/Verify/Same.antt =====
-- lxrverify against lxrrestore: both count the same blocks.
use elykseer_cpp.Base.{
  ◌<◌, ◌≡◌, refl, sym, ◌∙◌, ap, subst, Option, none, some, List, [], ◌∷◌, arith, Block, slice,
  str_eq_refl, add32, Bool-cases, inl, inr,
}
use elykseer_cpp.Host.{World}
use elykseer_cpp.Buffer.{Buffer, plain, calc_checksum}
use elykseer_cpp.Cipher.{Crypto}
use elykseer_cpp.Assembly.{BlockInformation}
use elykseer_cpp.Cache.{Cache, ReadQueueEntity, ReadQueueResult, add64}
use elykseer_cpp.Cache.Read.{enqueue_read_request, iterate_read_queue, run_read_requests}
use elykseer_cpp.Restore.{
  Restoring, write_result, process_read_blocks, process_queue, ask_block, read_request, blocks_loop,
}
use elykseer_cpp.Restore.Results.{
  IsBlockOf, Answered, Answers, Answering, run_read_requests-Answering,
}
use elykseer_cpp.Restore.Requests.{write_result-written, write_result-none}
use elykseer_cpp.Verify.{
  Verifying, count_result, count_results, verify_queue, verify_block, verify_loop,
}

-- The counters of a restoration, without its file.
abbrev pub counts : Restoring → Verifying
counts p = record { n_blocks = p.n_blocks; n_blocks_ok = p.n_blocks_ok }

abbrev pub counts_of : Option (Restoring × Cache) → Option (Verifying × Cache)
counts_of r = elim r [ none ↦ none | some (p, c) ↦ some (counts p, c) ]

module _ (cr : Crypto) where
  whole_checksum :
      (r : ReadQueueEntity) (b : Block)
      → IsBlockOf cr r b
      → calc_checksum {s = plain} cr.sha3_256 (record { pimpl = some b }) 0 b.len
        ≡ some (cr.sha3_256 (slice b.byte 0 b.len))
  unfolding calc_checksum
  whole_checksum r b k =
      let some_bytes : 0 < b.len = omega (arith, k.len_is, k.some_bytes) in ground arith

  count_result-none :
      (x : ReadQueueResult) (p : Verifying) → x.rresult ≡ none → count_result cr x p ≡ some p
  unfolding count_result
  count_result-none x p e = rw (e, count_result) refl

  count_result-some :
      (x : ReadQueueResult) (p : Verifying) (b : Block)
      → x.rresult ≡ some (record { pimpl = some b })
      → IsBlockOf cr x.readrequest b
      → count_result cr x p ≡ some (record p { n_blocks_ok = add32 p.n_blocks_ok 1 })
  unfolding count_result
  count_result-some x p b e k =
      let hex : cr.to_hex (cr.sha3_256 (slice b.byte 0 b.len)) ≡ cr.to_hex k.given =
        ap (λ n. cr.to_hex (cr.sha3_256 (slice b.byte 0 n))) k.len_is ∙ k.hex_is in
      rw (e, count_result)
        (rw (whole_checksum x.readrequest b k)
          (rw k.given_is (rw hex (rw (str_eq_refl (cr.to_hex k.given)) refl))))

  count_result-counts :
      (x : ReadQueueResult) (p : Restoring) (res : Option (Buffer plain))
      → x.rresult ≡ res
      → Answered cr x.readrequest res
      → count_result cr x (counts p) ≡ some (counts (write_result x p))
  count_result-counts x p none e a =
      count_result-none x (counts p) e ∙ ap (λ q. some (counts q)) (sym (write_result-none x p e))
  count_result-counts x p (some buf) e (b, is, k) =
      let some_bytes : 0 < b.len = omega (arith, k.len_is, k.some_bytes) in
      count_result-some x (counts p) b (e ∙ ap some is) k
      ∙ ap (λ q. some (counts q)) (sym (write_result-written x p b (e ∙ ap some is) some_bytes))

  count_results-counts :
      (q : List ReadQueueEntity) (xs : List ReadQueueResult) (p : Restoring)
      → Answers cr q xs
      → count_results cr xs (counts p) ≡ some (counts (process_read_blocks xs p))
  unfolding count_results process_read_blocks
  count_results-counts q [] p a = refl
  count_results-counts [] (x ∷ xs) p a = absurd a
  count_results-counts (r ∷ q) (x ∷ xs) p (same, a, more) =
      rw
        (
          count_result-counts x p x.rresult refl
              (subst (λ y. Answered cr y x.rresult) (sym same) a),
          count_results,
        )
        (count_results-counts q xs (write_result x p) more)

  abbrev with_cache : Cache → Option Verifying → Option (Verifying × Cache)
  with_cache c m = elim m [ none ↦ none | some p' ↦ some (p', c) ]

  abbrev counted : Verifying → Option (List ReadQueueResult × Cache) → Option (Verifying × Cache)
  counted p ran = elim ran [
    | none ↦ none
    | some (results, c') ↦ with_cache c' (count_results cr results p)
  ]

  abbrev processed : Restoring → Option (List ReadQueueResult × Cache) → Option (Restoring × Cache)
  processed p ran = elim ran [
    | none ↦ none
    | some (results, c') ↦ some (process_read_blocks results p, c')
  ]

  counted-processed :
      (c0 : Cache) (q : List ReadQueueEntity) (p : Restoring)
      (ran : Option (List ReadQueueResult × Cache))
      → Answering cr c0 q ran
      → counted (counts p) ran ≡ counts_of (processed p ran)
  counted-processed c0 q p none a = refl
  counted-processed c0 q p (some (results, c')) (a, same) =
      ap (with_cache c') (count_results-counts q results p a)

  iterated :
      (c : Cache) (l : List ReadQueueEntity) (w : World)
      → (c0 : Cache) × (q : List ReadQueueEntity) × Answering cr c0 q (elim l [
        | [] ↦ some ([], c)
        | r ∷ rs ↦
            run_read_requests cr
              (record c {
                readqueue = [];
                stats = record c.stats { n_iterate_reads = add32 c.stats.n_iterate_reads 1 };
              })
              (r ∷ rs)
              w
      ])
  iterated c [] w = (c, [], (tt, record { queue_same = refl; depth_same = refl }))
  iterated c (r ∷ rs) w = (
    record c {
      readqueue = [];
      stats = record c.stats { n_iterate_reads = add32 c.stats.n_iterate_reads 1 };
    },
    r ∷ rs,
    run_read_requests-Answering cr _ (r ∷ rs) w,
  )

  iterate_read_queue-Answering :
      (c : Cache) (w : World)
      → (c0 : Cache) × (q : List ReadQueueEntity) × Answering cr c0 q (iterate_read_queue cr c w)
  unfolding iterate_read_queue
  iterate_read_queue-Answering c w = iterated c c.readqueue w

  verify_queue-counts :
      (c : Cache) (w : World) (p : Restoring)
      → verify_queue cr c w (counts p) ≡ counts_of (process_queue cr c w p)
  unfolding verify_queue process_queue
  verify_queue-counts c w p =
      let (c0, q, a) = iterate_read_queue-Answering c w in
      counted-processed c0 q p (iterate_read_queue cr c w) a

  abbrev again : ReadQueueEntity → Option (Verifying × Cache) → Option (Verifying × Cache)
  again r ran = elim ran [ none ↦ none | some (p', c2) ↦ some (p', (enqueue_read_request c2 r).1) ]

  again-counts :
      (r : ReadQueueEntity) (ran : Option (Restoring × Cache))
      → again r (counts_of ran)
        ≡ counts_of
            (elim ran [ none ↦ none | some (p', c2) ↦ some (p', (enqueue_read_request c2 r).1) ])
  again-counts r none = refl
  again-counts r (some (p, c)) = refl

  verify_block-counts :
      (c : Cache) (r : ReadQueueEntity) (w : World) (p : Restoring)
      → verify_block cr c r w (counts p) ≡ counts_of (ask_block cr c r w p)
  unfolding verify_block ask_block
  verify_block-counts c r w p = elim (Bool-cases (enqueue_read_request c r).0) [
    | inl taken ↦ rw (taken, verify_block, ask_block) refl
    | inr full ↦
        rw (full, verify_block, ask_block)
          (rw (verify_queue-counts (enqueue_read_request c r).1 w p)
            (again-counts r (process_queue cr (enqueue_read_request c r).1 w p)))
  ]

  abbrev Counts : List BlockInformation → World → Type 0
  Counts bis w =
      (c : Cache) (p : Restoring)
      → verify_loop cr bis c w (counts p) ≡ counts_of (blocks_loop cr bis c w p)

  rest-Counts :
      (bis : List BlockInformation) (w : World) (ran : Option (Restoring × Cache))
      → Counts bis w
      → elim (counts_of ran) [ none ↦ none | some (p', c') ↦ verify_loop cr bis c' w p' ]
        ≡ counts_of (elim ran [ none ↦ none | some (p', c') ↦ blocks_loop cr bis c' w p' ])
  rest-Counts bis w none h = refl
  rest-Counts bis w (some (p, c)) h = h c p

  -- lxrverify and lxrrestore count the same: with the same cache and the same blocks, the loop of
  -- lxrverify ends with the counters and the cache of the loop of lxrrestore, or ends the program
  -- where that does.
  pub verify_loop-blocks_loop :
      (bis : List BlockInformation) (w : World) (c : Cache) (p : Restoring)
      → verify_loop cr bis c w (counts p) ≡ counts_of (blocks_loop cr bis c w p)
  unfolding verify_loop blocks_loop
  verify_loop-blocks_loop [] w c p = verify_queue-counts c w p
  verify_loop-blocks_loop (bi ∷ bis) w c p =
      let p1 : Restoring = record p {
        n_expected = add64 p.n_expected bi.blocksize;
        n_blocks = add32 p.n_blocks 1;
      } in
      rw (verify_block-counts c (read_request bi) w p1, verify_loop)
        (rest-Counts bis w (ask_block cr c (read_request bi) w p1) (verify_loop-blocks_loop bis w))
