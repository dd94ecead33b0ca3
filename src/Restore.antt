-- ===== src/Restore.antt =====
-- src/cpp/cli/lxrrestore.cpp: the restoration of files below an output directory. What the file
-- system resolves a path to (`weakly_canonical`), and whether a file can be closed, are parameters.
-- An exception, which ends the program, is `none`. The messages are left out.
pub mod Contained
pub mod Results
pub mod Requests
pub mod Asking
pub mod Loop
pub mod Kept
pub mod Returns
pub mod Exit
use elykseer_cpp.Base.{
  ℕ, ◌+◌, ◌%◌, ◌^◌, Bool, true, false, ◌&&◌, ◌||◌, Option, none, some, List, [], ◌∷◌, ◌++◌, ◌==◌,
  if◌then◌else◌, str_eq, codes, drop_last, add32, ℤ, pos, negsuc,
}
use elykseer_cpp.Host.{World, File, FilePath, path_eq, fseek, put_file, empty_block}
use elykseer_cpp.Buffer.{Buffer, plain, buffer_len, fileout_sz_pos}
use elykseer_cpp.Cipher.{Crypto}
use elykseer_cpp.Assembly.{Configuration, BlockInformation}
use elykseer_cpp.Store.{FBlockStore, find, contains}
use elykseer_cpp.Cache.{Cache, ReadQueueEntity, ReadQueueResult, add64}
use elykseer_cpp.Cache.Read.{enqueue_read_request, iterate_read_queue}
use elykseer_cpp.Processor.{file_hash}

-- The elements of `path(fname).relative_path()`. A root has none, and the empty element that stands
-- for it here, as the one behind a separator at the end, is skipped by the loop over them.
unfoldable pub parts : List ℕ → List ℕ → List (List ℕ)
parts element [] = element ∷ []
parts element (c ∷ s) = elim (c == 47) [
  | false ↦ parts (element ++ c ∷ []) s
  | true ↦ elim element [ [] ↦ parts [] s | x ∷ xs ↦ (x ∷ xs) ∷ parts [] s ]
]

-- The loop of contained_target: `none` for an element `..`, else the elements that are kept.
unfoldable pub kept_parts : List (List ℕ) → Option (List (List ℕ))
kept_parts [] = some []
kept_parts (part ∷ rest) =
    let kept = kept_parts rest in
    if str_eq part (codes "..")
    then none
    else if str_eq part [] || str_eq part (codes ".")
    then kept
    else elim kept [ none ↦ none | some ps ↦ some (part ∷ ps) ]

-- `if (p.filename().empty()) { p = p.parent_path(); }`, for a path with a separator at its end.
unfoldable pub strip_separator : FilePath → FilePath
strip_separator [] = []
strip_separator ([] ∷ []) = []
strip_separator (x ∷ []) = x ∷ []
strip_separator (x ∷ y ∷ p) = x ∷ strip_separator (y ∷ p)

-- `ib == cbase.end() && it != ctarget.end()` for the first mismatch.
unfoldable pub strictly_below : FilePath → FilePath → Bool
strictly_below [] [] = false
strictly_below [] (y ∷ q) = true
strictly_below (x ∷ p) [] = false
strictly_below (x ∷ p) (y ∷ q) = str_eq x y && strictly_below p q

unfoldable pub contained_target : (FilePath → Option FilePath) → FilePath → List ℕ → Option FilePath
unfolding parts kept_parts strip_separator strictly_below
contained_target canonical base fname = elim (kept_parts (parts [] fname)) [
  | none ↦ none
  | some [] ↦ none
  | some (p ∷ ps) ↦ elim (canonical base) [
    | none ↦ none
    | some cbase ↦ elim (canonical (strip_separator base ++ p ∷ ps)) [
      | none ↦ none
      | some ctarget ↦
          if strictly_below (strip_separator cbase) ctarget
          then some (strip_separator base ++ p ∷ ps)
          else none
    ]
  ]
]

-- The file that is being restored, and the counters.
pub record Restoring : Type 0 where
  pub tgt : File
  pub n_expected : ℕ
  pub n_restored : ℕ
  pub n_blocks : ℕ
  pub n_blocks_ok : ℕ

-- `n == (int)len`
abbrev pub is_count : ℤ → ℕ → Bool
is_count (pos n) len = n == len
is_count (negsuc n) len = false

-- One round of process_read_blocks.
unfoldable pub write_result : ReadQueueResult → Restoring → Restoring
write_result r p = elim r.rresult [
  | none ↦ p
  | some b ↦
      let (n, f) = fileout_sz_pos b (pos 0) (pos (buffer_len b)) (fseek p.tgt r.readrequest.fpos) in
      if is_count n (buffer_len b)
      then record p {
        tgt = f;
        n_restored = add64 p.n_restored (buffer_len b);
        n_blocks_ok = add32 p.n_blocks_ok 1;
      }
      else record p { tgt = f }
]

unfoldable pub process_read_blocks : List ReadQueueResult → Restoring → Restoring
unfolding write_result
process_read_blocks [] p = p
process_read_blocks (r ∷ rs) p = process_read_blocks rs (write_result r p)

unfoldable pub read_request : BlockInformation → ReadQueueEntity
read_request bi = record {
  aid = bi.blockaid;
  apos = bi.blockapos;
  rlen = bi.blocksize;
  fpos = bi.filepos;
  chksum = bi.bchecksum;
}

-- std::filesystem::remove, on a file that the host does remove.
unfoldable pub remove_file : World → FilePath → World
remove_file w p = record w { files = λ q. if path_eq p q then none else w.files q }

-- `if (failed_files > 0) { return 1; } return 0;`
abbrev pub exit_code : ℕ → ℕ
exit_code failed = if failed == 0 then 0 else 1

module _ (cr : Crypto) where
  -- `process_read_blocks(qac->iterate_read_queue());`
  unfoldable pub process_queue : Cache → World → Restoring → Option (Restoring × Cache)
  unfolding process_read_blocks
  process_queue c w p = elim (iterate_read_queue cr c w) [
    | none ↦ none
    | some (results, c') ↦ some (process_read_blocks results p, c')
  ]

  -- `if (! enqueue) { process(iterate); enqueue; }`
  unfoldable pub ask_block :
      Cache → ReadQueueEntity → World → Restoring → Option (Restoring × Cache)
  unfolding process_queue
  ask_block c r w p =
      let (taken, c1) = enqueue_read_request c r in
      if taken then some (p, c1) else elim (process_queue c1 w p) [
        | none ↦ none
        | some (p', c2) ↦ some (p', (enqueue_read_request c2 r).1)
      ]

  -- The loop over the blocks of the file, and the rest of the queue.
  unfoldable pub blocks_loop :
      List BlockInformation → Cache → World → Restoring → Option (Restoring × Cache)
  unfolding ask_block read_request
  blocks_loop [] c w p = process_queue c w p
  blocks_loop (bi ∷ bis) c w p =
      elim (ask_block c (read_request bi) w (record p {
        n_expected = add64 p.n_expected bi.blocksize;
        n_blocks = add32 p.n_blocks 1;
      })) [ none ↦ none | some (p', c') ↦ blocks_loop bis c' w p' ]

  -- The files whose blocks are not known are counted and emptied.
  unfoldable pub prepare_files : FBlockStore → Configuration → List (List ℕ) → ℕ × List (List ℕ)
  prepare_files fb config [] = (0, [])
  prepare_files fb config (fname ∷ fnames) =
      let (corr_files, rest) = prepare_files fb config fnames in
      if contains fb (file_hash cr fname config.my_id)
      then (corr_files, fname ∷ rest)
      else (corr_files + 1, [] ∷ rest)

  module _ (canonical : FilePath → Option FilePath) (fclose_ok : FilePath → Bool) where
    -- `(fclose(tgt) == 0) && n_blocks_ok == n_blocks && n_restored == n_expected`
    abbrev pub is_restored : FilePath → Restoring → Bool
    is_restored fp p = fclose_ok fp && (p.n_blocks_ok == p.n_blocks && p.n_restored == p.n_expected)

    -- The end of a file: it is kept if all of it was restored, and removed else.
    unfoldable pub close_target : FilePath → Restoring → World → Bool × World
    unfolding remove_file
    close_target fp p w =
        if is_restored fp p then (true, put_file w fp p.tgt.content) else (false, remove_file w fp)

    -- A file with the blocks that the store has for it, from exists(dir) and create_directories on: whether it was
    -- restored. It must not be there before (`wx`).
    unfoldable pub restore_target :
        Cache → List BlockInformation → FilePath → World → Option (Bool × Cache × World)
    unfolding blocks_loop close_target
    restore_target c bis fp w =
        if w.mkdir_ok (drop_last fp)
        then elim (w.files fp) [
          | some _ ↦ some (false, c, w)
          | none ↦
              if w.write_ok fp
              then (elim (blocks_loop bis c (put_file w fp empty_block) (record {
                tgt = record { content = empty_block; offset = 0; room = w.room fp };
                n_expected = 0;
                n_restored = 0;
                n_blocks = 0;
                n_blocks_ok = 0;
              })) [
                | none ↦ none
                | some (p, c') ↦
                    let (ok, w') = close_target fp p (put_file w fp empty_block) in
                    some (ok, c', w')
              ])
              else some (false, c, w)
        ]
        else none

    -- One file of the list. A file that has no blocks any more is passed over.
    unfoldable pub restore_file :
        Cache
        → FBlockStore
        → Configuration
        → FilePath
        → List ℕ
        → World
        → Option (Bool × Cache × World)
    unfolding restore_target contained_target
    restore_file c fb config outputpath fname w =
        elim (contained_target canonical outputpath fname) [
          | none ↦ some (false, c, w)
          | some fp ↦ elim (find fb (file_hash cr fname config.my_id)) [
            | none ↦ if w.mkdir_ok (drop_last fp) then some (true, c, w) else none
            | some bis ↦ restore_target c bis fp w
          ]
        ]

    -- The loop over the files, with the failures so far.
    unfoldable pub restore_files :
        ℕ
        → Cache
        → FBlockStore
        → Configuration
        → FilePath
        → List (List ℕ)
        → World
        → Option (ℕ × Cache × World)
    unfolding restore_file
    restore_files failed c fb config outputpath [] w = some (failed, c, w)
    restore_files failed c fb config outputpath ([] ∷ fnames) w =
        restore_files failed c fb config outputpath fnames w
    restore_files failed c fb config outputpath ((x ∷ xs) ∷ fnames) w =
        elim (restore_file c fb config outputpath (x ∷ xs) w) [
          | none ↦ none
          | some (ok, c', w') ↦
              restore_files (if ok then failed else failed + 1) c' fb config outputpath fnames w'
        ]

    -- From the preparation to the exit code; with `--dry-run` nothing is restored.
    unfoldable pub run_restore :
        Bool
        → Cache
        → FBlockStore
        → Configuration
        → FilePath
        → List (List ℕ)
        → World
        → Option (ℕ × World)
    unfolding prepare_files restore_files
    run_restore dry_run c fb config outputpath fnames w =
        if dry_run
        then some (0, w)
        else (let (corr_files, prepared) = prepare_files fb config fnames in
            elim (restore_files corr_files c fb config outputpath prepared w) [
              | none ↦ none
              | some (failed, c', w') ↦ some (exit_code failed, w')
            ])
