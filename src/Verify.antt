-- ===== src/Verify.antt =====
-- src/cpp/cli/lxrverify.cpp: the blocks of files are read back and their checksums compared, without
-- writing them. The preparation of the list of files is that of lxrrestore. An exception, which ends
-- the program, is `none`; the messages are left out.
pub mod Same
use elykseer_cpp.Base.{
  ℕ, Bool, true, false, ◌&&◌, Option, none, some, List, [], ◌∷◌, ◌==◌, if◌then◌else◌, str_eq, add32,
}
use elykseer_cpp.Host.{World}
use elykseer_cpp.Buffer.{buffer_len, calc_checksum}
use elykseer_cpp.Cipher.{Crypto}
use elykseer_cpp.Assembly.{Configuration, BlockInformation}
use elykseer_cpp.Store.{FBlockStore, find}
use elykseer_cpp.Cache.{Cache, ReadQueueEntity, ReadQueueResult}
use elykseer_cpp.Cache.Read.{enqueue_read_request, iterate_read_queue}
use elykseer_cpp.Processor.{file_hash}
use elykseer_cpp.Restore.{read_request, prepare_files}

-- The counters of a file.
pub record Verifying : Type 0 where
  pub n_blocks : ℕ
  pub n_blocks_ok : ℕ

module _ (cr : Crypto) where
  -- One round of process_read_blocks: a request without a checksum, whose `toHex` throws, is `none`.
  unfoldable pub count_result : ReadQueueResult → Verifying → Option Verifying
  count_result r p = elim r.rresult [
    | none ↦ some p
    | some b ↦ elim (calc_checksum cr.sha3_256 b 0 (buffer_len b)) [
      | none ↦ some p
      | some k ↦ elim r.readrequest.chksum [
        | none ↦ none
        | some g ↦ some (
            if str_eq (cr.to_hex k) (cr.to_hex g)
            then record p { n_blocks_ok = add32 p.n_blocks_ok 1 }
            else p)
      ]
    ]
  ]

  unfoldable pub count_results : List ReadQueueResult → Verifying → Option Verifying
  unfolding count_result
  count_results [] p = some p
  count_results (r ∷ rs) p = elim (count_result r p) [ none ↦ none | some p' ↦ count_results rs p' ]

  -- `process_read_blocks(qac->iterate_read_queue());`
  unfoldable pub verify_queue : Cache → World → Verifying → Option (Verifying × Cache)
  unfolding count_results
  verify_queue c w p = elim (iterate_read_queue cr c w) [
    | none ↦ none
    | some (results, c') ↦ elim (count_results results p) [ none ↦ none | some p' ↦ some (p', c') ]
  ]

  unfoldable pub verify_block :
      Cache → ReadQueueEntity → World → Verifying → Option (Verifying × Cache)
  unfolding verify_queue
  verify_block c r w p =
      let (taken, c1) = enqueue_read_request c r in
      if taken then some (p, c1) else elim (verify_queue c1 w p) [
        | none ↦ none
        | some (p', c2) ↦ some (p', (enqueue_read_request c2 r).1)
      ]

  -- The loop over the blocks of a file, and the rest of the queue.
  unfoldable pub verify_loop :
      List BlockInformation → Cache → World → Verifying → Option (Verifying × Cache)
  unfolding verify_block
  verify_loop [] c w p = verify_queue c w p
  verify_loop (bi ∷ bis) c w p =
      elim (verify_block c (read_request bi) w (record p { n_blocks = add32 p.n_blocks 1 })) [
        | none ↦ none
        | some (p', c') ↦ verify_loop bis c' w p'
      ]

  -- The loop over the files, with the result so far. An emptied name is passed over.
  unfoldable pub verify_files :
      Bool → Cache → FBlockStore → Configuration → List (List ℕ) → World → Option (Bool × Cache)
  unfolding verify_loop
  verify_files res c fb config [] w = some (res, c)
  verify_files res c fb config ([] ∷ fnames) w = verify_files res c fb config fnames w
  verify_files res c fb config ((x ∷ xs) ∷ fnames) w =
      elim (find fb (file_hash cr (x ∷ xs) config.my_id)) [
        | none ↦ verify_files res c fb config fnames w
        | some bis ↦ elim (verify_loop bis c w (record { n_blocks = 0; n_blocks_ok = 0 })) [
          | none ↦ none
          | some (p, c') ↦ verify_files (res && p.n_blocks_ok == p.n_blocks) c' fb config fnames w
        ]
      ]

  -- From the preparation to the exit code; with `--dry-run` nothing is read.
  unfoldable pub run_verify :
      Bool → Cache → FBlockStore → Configuration → List (List ℕ) → World → Option ℕ
  unfolding verify_files
  run_verify dry_run c fb config fnames w =
      if dry_run
      then some 0
      else (let (corr_files, prepared) = prepare_files cr fb config fnames in
          elim (verify_files (corr_files == 0) c fb config prepared w) [
            | none ↦ none
            | some (res, c') ↦ some (if res then 0 else 1)
          ])
