-- ===== src/Restore/Returns.antt =====
-- lxrrestore ends with an exit code on a host that answers.
use elykseer_cpp.Base.{
  ℕ, ◌+◌, ◌≡◌, refl, Bool, true, false, Option, none, some, List, [], ◌∷◌, leb, length, drop_last,
  if◌then◌else◌, Bool-cases, Option-cases, inl, inr,
}
use elykseer_cpp.Host.{World, FilePath, put_file, empty_block}
use elykseer_cpp.Cipher.{Crypto}
use elykseer_cpp.Assembly.{Configuration, BlockInformation}
use elykseer_cpp.Store.{FBlockStore, find}
use elykseer_cpp.Cache.{Cache, ReadQueueEntity, ReadQueueResult}
use elykseer_cpp.Cache.Read.{enqueue_read_request, iterate_read_queue}
use elykseer_cpp.Cache.Returns.{IsReadable, Returns, iterate_read_queue-Returns}
use elykseer_cpp.Processor.{file_hash}
use elykseer_cpp.Restore.{
  Restoring, process_read_blocks, process_queue, ask_block, read_request, blocks_loop, is_restored,
  close_target, exit_code, remove_file, restore_target, contained_target, restore_file,
  restore_files, prepare_files, run_restore,
}

module _ (cr : Crypto) where
  enqueue_read_request-IsReadable :
      (c : Cache) (r : ReadQueueEntity)
      → IsReadable cr c
      → IsReadable cr (enqueue_read_request c r).1
  unfolding enqueue_read_request
  enqueue_read_request-IsReadable c r k = elim (Bool-cases (leb c.n_queuesz (length c.readqueue))) [
    | inl e ↦ simp (e, enqueue_read_request) k
    | inr e ↦
        simp (e, enqueue_read_request) (record { n_pos = k.n_pos; n_max = k.n_max; envs = k.envs })
  ]

  processed :
      (p : Restoring) (ran : Option (List ReadQueueResult × Cache))
      → Returns cr ran
      → Returns cr (elim ran as (λ x. Option (Restoring × Cache)) [
        | none ↦ none
        | some (results, c') ↦ some (process_read_blocks results p, c')
      ])
  processed p none h = h
  processed p (some (results, c')) h = h

  process_queue-Returns :
      (c : Cache) (w : World) (p : Restoring)
      → IsReadable cr c
      → Returns cr (process_queue cr c w p)
  unfolding process_queue
  process_queue-Returns c w p k =
      processed p (iterate_read_queue cr c w) (iterate_read_queue-Returns cr c w k)

  asked_again :
      (r : ReadQueueEntity) (ran : Option (Restoring × Cache))
      → Returns cr ran
      → Returns cr (elim ran as (λ x. Option (Restoring × Cache)) [
        | none ↦ none
        | some (p', c2) ↦ some (p', (enqueue_read_request c2 r).1)
      ])
  asked_again r none h = h
  asked_again r (some (p', c2)) h = enqueue_read_request-IsReadable c2 r h

  ask_block-Returns :
      (c : Cache) (r : ReadQueueEntity) (w : World) (p : Restoring)
      → IsReadable cr c
      → Returns cr (ask_block cr c r w p)
  unfolding ask_block
  ask_block-Returns c r w p k =
      let k1 = enqueue_read_request-IsReadable c r k in
      elim (Bool-cases (enqueue_read_request c r).0) [
        | inl e ↦ rw (e, ask_block) k1
        | inr e ↦
            rw (e, ask_block)
              (asked_again r _ (process_queue-Returns (enqueue_read_request c r).1 w p k1))
      ]

  then_rest :
      (bis : List BlockInformation) (w : World) (ran : Option (Restoring × Cache))
      → ((c : Cache) (p : Restoring) → IsReadable cr c → Returns cr (blocks_loop cr bis c w p))
      → Returns cr ran
      → Returns cr (elim ran as (λ x. Option (Restoring × Cache)) [
        | none ↦ none
        | some (p', c') ↦ blocks_loop cr bis c' w p'
      ])
  then_rest bis w none go h = h
  then_rest bis w (some (p', c')) go h = go c' p' h

  blocks_loop-Returns :
      (bis : List BlockInformation) (w : World) (c : Cache) (p : Restoring)
      → IsReadable cr c
      → Returns cr (blocks_loop cr bis c w p)
  unfolding blocks_loop
  blocks_loop-Returns [] w c p k = process_queue-Returns c w p k
  blocks_loop-Returns (bi ∷ bis) w c p k =
      then_rest bis w _ (blocks_loop-Returns bis w) (ask_block-Returns c (read_request bi) w _ k)

  -- For every directory, `exists` has an answer and create_directories makes it.
  abbrev pub CanMakeDirs : World → Type 0
  CanMakeDirs w = (p : FilePath) → w.mkdir_ok p ≡ true

  -- A result is there, with a readable cache, and directories can still be made.
  abbrev GoesOn : {A : Type 0} → Option (A × Cache × World) → Type 0
  GoesOn none = ⊥
  GoesOn (some (a, c, w)) = IsReadable cr c × CanMakeDirs w

  either_world :
      (b : Bool) (x y : Bool × World)
      → CanMakeDirs x.1
      → CanMakeDirs y.1
      → CanMakeDirs (if b then x else y).1
  either_world true x y h k = h
  either_world false x y h k = k

  module _ (canonical : FilePath → Option FilePath) (fclose_ok : FilePath → Bool) where
    close_target-CanMakeDirs :
        (fp : FilePath) (p : Restoring) (w : World)
        → CanMakeDirs w
        → CanMakeDirs (close_target cr canonical fclose_ok fp p w).1
    unfolding close_target remove_file
    close_target-CanMakeDirs fp p w d =
        either_world (is_restored cr canonical fclose_ok fp p) (true, put_file w fp p.tgt.content)
          (false, remove_file w fp) d d

    closed :
        (fp : FilePath) (w : World) (ran : Option (Restoring × Cache))
        → CanMakeDirs w
        → Returns cr ran
        → GoesOn (elim ran as (λ x. Option (Bool × Cache × World)) [
          | none ↦ none
          | some (p, c') ↦
              let (ok, w') = close_target cr canonical fclose_ok fp p w in some (ok, c', w')
        ])
    closed fp w none d k = k
    closed fp w (some (p, c')) d k = (k, close_target-CanMakeDirs fp p w d)

    restore_target-GoesOn :
        (c : Cache) (bis : List BlockInformation) (fp : FilePath) (w : World)
        → IsReadable cr c
        → CanMakeDirs w
        → GoesOn (restore_target cr canonical fclose_ok c bis fp w)
    unfolding restore_target
    restore_target-GoesOn c bis fp w k d = elim (Option-cases (w.files fp)) [
      | inr (b, there) ↦ rw (d (drop_last fp), restore_target) (rw there (k, d))
      | inl absent ↦ elim (Bool-cases (w.write_ok fp)) [
        | inr no_write ↦ rw (d (drop_last fp), restore_target) (rw absent (rw no_write (k, d)))
        | inl writes ↦
            rw (d (drop_last fp), restore_target)
              (rw absent (
                rw writes (
                  closed fp (put_file w fp empty_block) _ d
                    (blocks_loop-Returns bis (put_file w fp empty_block) c _ k))))
      ]
    ]

    restore_file-GoesOn :
        (c : Cache) (fb : FBlockStore) (config : Configuration) (outputpath : FilePath)
        (fname : List ℕ) (w : World)
        → IsReadable cr c
        → CanMakeDirs w
        → GoesOn (restore_file cr canonical fclose_ok c fb config outputpath fname w)
    unfolding restore_file
    restore_file-GoesOn c fb config outputpath fname w k d =
        elim (Option-cases (contained_target canonical outputpath fname)) [
          | inl out ↦ rw (out, restore_file) (k, d)
          | inr (fp, t) ↦ elim (Option-cases (find fb (file_hash cr fname config.my_id))) [
            | inl gone ↦ rw (t, restore_file) (rw gone (rw (d (drop_last fp)) (k, d)))
            | inr (bis, f) ↦ rw (t, restore_file) (rw f (restore_target-GoesOn c bis fp w k d))
          ]
        ]

    more_files :
        (failed : ℕ) (fb : FBlockStore) (config : Configuration) (outputpath : FilePath)
        (fnames : List (List ℕ)) (r : Option (Bool × Cache × World))
        → ((failed : ℕ) (c : Cache) (w : World)
            → IsReadable cr c
            → CanMakeDirs w
            → GoesOn (restore_files cr canonical fclose_ok failed c fb config outputpath fnames w))
        → GoesOn r
        → GoesOn (elim r as (λ x. Option (ℕ × Cache × World)) [
          | none ↦ none
          | some (ok, c', w') ↦
              restore_files cr canonical fclose_ok
                (if ok then failed else failed + 1)
                c'
                fb
                config
                outputpath
                fnames
                w'
        ])
    more_files failed fb config outputpath fnames none go h = h
    more_files failed fb config outputpath fnames (some (ok, c', w')) go (k, d) = go _ c' w' k d

    restore_files-GoesOn :
        (fb : FBlockStore) (config : Configuration) (outputpath : FilePath) (fnames : List (List ℕ))
        (failed : ℕ) (c : Cache) (w : World)
        → IsReadable cr c
        → CanMakeDirs w
        → GoesOn (restore_files cr canonical fclose_ok failed c fb config outputpath fnames w)
    unfolding restore_files
    restore_files-GoesOn fb config outputpath [] failed c w k d = (k, d)
    restore_files-GoesOn fb config outputpath ([] ∷ fnames) failed c w k d =
        restore_files-GoesOn fb config outputpath fnames failed c w k d
    restore_files-GoesOn fb config outputpath ((x ∷ xs) ∷ fnames) failed c w k d =
        more_files failed fb config outputpath fnames _
          (restore_files-GoesOn fb config outputpath fnames)
          (restore_file-GoesOn c fb config outputpath (x ∷ xs) w k d)

    exited :
        (r : Option (ℕ × Cache × World))
        → GoesOn r
        → (n : ℕ) × (w' : World) × ((elim r as (λ x. Option (ℕ × World)) [
          | none ↦ none
          | some (failed, c', w') ↦ some (exit_code failed, w')
        ])
            ≡ some (n, w'))
    exited none h = absurd h
    exited (some (failed, c', w')) h = (exit_code failed, w', refl)

    -- For a cache of 1 to 256 chunks whose restored assemblies have all of their memory, as one that
    -- was created has, and a host where every directory can be made: whatever is in the chunk files,
    -- the stores and the list of files, lxrrestore ends with an exit code. The host is taken to answer
    -- whether a chunk file exists and to remove a file that was not restored: `exists` and `remove`
    -- of std::filesystem throw where it does neither, as for a link to itself in place of a chunk
    -- file, and that ends the program without an exit code.
    pub run_restore_ends :
        (dry_run : Bool) (c : Cache) (fb : FBlockStore) (config : Configuration)
        (outputpath : FilePath) (fnames : List (List ℕ)) (w : World)
        → IsReadable cr c
        → CanMakeDirs w
        → (n : ℕ) × (w' : World) × (run_restore cr canonical fclose_ok dry_run c fb config
              outputpath fnames w
            ≡ some (n, w'))
    unfolding run_restore
    run_restore_ends true c fb config outputpath fnames w k d = (0, w, refl)
    run_restore_ends false c fb config outputpath fnames w k d = exited _ (
        restore_files-GoesOn fb config outputpath (prepare_files cr fb config fnames).1
          (prepare_files cr fb config fnames).0 c w k d)
