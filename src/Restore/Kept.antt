-- ===== src/Restore/Kept.antt =====
-- What is left of a file after it was restored, or was not.
use elykseer_cpp.Base.{
  ◌^◌, ◌≤◌, ◌<◌, ◌≡◌, refl, sym, ◌∙◌, ap, subst, Bool, true, false, Option, none, some, List, [],
  ◌++◌, arith, Block, length, Bool-cases, Option-cases, inl, inr, drop_last,
}
use elykseer_cpp.Host.{World, FilePath, put_file, empty_block, path_eq}
use elykseer_cpp.Host.Paths.{files-put_file_self, path_eq→eq}
use elykseer_cpp.Cipher.{Crypto}
use elykseer_cpp.Assembly.{BlockInformation}
use elykseer_cpp.Cache.{Cache}
use elykseer_cpp.Restore.{
  Restoring, blocks_loop, is_restored, remove_file, close_target, restore_target,
}
use elykseer_cpp.Restore.Requests.{All, Ascending, total, Held, State}
use elykseer_cpp.Restore.Asking.{requests, Asked}
use elykseer_cpp.Restore.Loop.{
  CanAsk, OnlyFiles, OnlyFiles-refl, Finished, AllFinished, blocks_loop-AllFinished,
}

module _ (cr : Crypto) where
  -- The file at `fp` is new and holds every block, and the other files are as they were.
  pub record IsNew (bis : List BlockInformation) (fp : FilePath) (w w' : World) : Type 0 where
    pub absent : w.files fp ≡ none
    pub content : Block
    pub present : w'.files fp ≡ some content
    pub all_held : All (Held cr content) (requests bis)
    pub others : (q : FilePath) → path_eq fp q ≡ false → w'.files q ≡ w.files q

  -- What restore_target leaves: a new file that holds every block, or all files as they were.
  abbrev pub Outcome :
      List BlockInformation → FilePath → World → Option (Bool × Cache × World) → Type 0
  Outcome bis fp w none = Unit {0}
  Outcome bis fp w (some (true, c, w')) = IsNew bis fp w w' × OnlyFiles w w' × CanAsk c
  Outcome bis fp w (some (false, c, w')) =
      ((q : FilePath) → w'.files q ≡ w.files q) × OnlyFiles w w' × CanAsk c

  module _ (fclose_ok : FilePath → Bool) (canonical : FilePath → Option FilePath) where
    abbrev opened : FilePath → World → World
    opened fp w = put_file w fp empty_block

    abbrev closed : Cache → Bool × World → Option (Bool × Cache × World)
    closed c r = some (r.0, c, r.1)

    put_twice :
        (fp q : FilePath) (w : World) (b : Block)
        → path_eq fp q ≡ false
        → (put_file (opened fp w) fp b).files q ≡ w.files q
    put_twice fp q w b h = rw h refl

    removed_same :
        (fp q : FilePath) (w : World)
        → w.files fp ≡ none
        → (remove_file (opened fp w) fp).files q ≡ w.files q
    unfolding remove_file
    removed_same fp q w absent = elim (Bool-cases (path_eq fp q)) [
      | inl e ↦ rw e (sym (ap w.files (sym (path_eq→eq fp q e)) ∙ absent))
      | inr e ↦ rw e refl
    ]

    restored_counts :
        (fp : FilePath) (p : Restoring)
        → is_restored cr canonical fclose_ok fp p ≡ true
        → p.n_blocks_ok ≡ p.n_blocks
    restored_counts fp p h = ground arith

    close_target-Outcome :
        (bis : List BlockInformation) (fp : FilePath) (w : World) (c : Cache) (p : Restoring)
        → w.files fp ≡ none
        → Finished cr (requests bis) c p
        → Outcome bis fp w (closed c (close_target cr canonical fclose_ok fp p (opened fp w)))
    unfolding close_target
    close_target-Outcome bis fp w c p absent k =
        elim (Bool-cases (is_restored cr canonical fclose_ok fp p)) [
          | inl ok ↦
              rw (ok, close_target)
                (
                  record {
                    absent = absent;
                    content = p.tgt.content;
                    present = files-put_file_self (opened fp w) fp p.tgt.content;
                    all_held = k.all_held (restored_counts fp p ok);
                    others = λ q h. put_twice fp q w p.tgt.content h;
                  },
                  record {
                    mkdir_same = refl;
                    write_same = refl;
                    read_same = refl;
                    room_same = refl;
                  },
                  record { queue_empty = k.queue_empty; depth_pos = k.depth_pos },
                )
          | inr bad ↦
              rw (bad, close_target)
                (
                  λ q. removed_same fp q w absent,
                  record {
                    mkdir_same = refl;
                    write_same = refl;
                    read_same = refl;
                    room_same = refl;
                  },
                  record { queue_empty = k.queue_empty; depth_pos = k.depth_pos },
                )
        ]

    abbrev begun : FilePath → World → Restoring
    begun fp w = record {
      tgt = record { content = empty_block; offset = 0; room = w.room fp };
      n_expected = 0;
      n_restored = 0;
      n_blocks = 0;
      n_blocks_ok = 0;
    }

    abbrev closing : FilePath → World → Option (Restoring × Cache) → Option (Bool × Cache × World)
    closing fp w ran = elim ran [
      | none ↦ none
      | some (p, c') ↦
          let (ok, w') = close_target cr canonical fclose_ok fp p (opened fp w) in some (ok, c', w')
    ]

    closing-Outcome :
        (bis : List BlockInformation) (fp : FilePath) (w : World) (ran : Option (Restoring × Cache))
        → w.files fp ≡ none
        → AllFinished cr (requests bis) ran
        → Outcome bis fp w (closing fp w ran)
    closing-Outcome bis fp w none absent k = tt
    closing-Outcome bis fp w (some (p, c)) absent k = close_target-Outcome bis fp w c p absent k

    begun-Asked :
        (bis : List BlockInformation) (fp : FilePath) (w : World) (c : Cache)
        → CanAsk c
        → Ascending 0 (requests bis)
        → total (requests bis) ≤ w.room fp
        → length (requests bis) < 2 ^ 32
        → Asked cr [] c (begun fp w) (requests bis)
    begun-Asked bis fp w c k asc fits few = record {
      past = [];
      asked_is = sym k.queue_empty;
      state =
          subst (λ l. State cr [] (begun fp w) (l ++ requests bis)) (sym k.queue_empty)
            (record {
              bound = 0;
              counted = omega arith;
              held = λ e. tt;
              below = tt;
              ascending = asc;
              fits = fits;
              few = omega arith;
            });
      n_blocks_is = refl;
      depth_pos = k.depth_pos;
    }

    -- For a cache without read requests and with a queue that is not of depth 0, and blocks that
    -- follow one another in the file, fewer than 2 ^ 32, on a device that takes all of their bytes:
    -- if restore_target reports that the file was restored, then the file was not there before, and
    -- now has at the position of each block bytes with the block's checksum, in hex, and no other
    -- file has changed; if it reports that it was not, no file has changed. Either way the cache can
    -- take the next file.
    pub restore_target-Outcome :
        (bis : List BlockInformation) (fp : FilePath) (w : World) (c : Cache)
        → CanAsk c
        → Ascending 0 (requests bis)
        → total (requests bis) ≤ w.room fp
        → length (requests bis) < 2 ^ 32
        → Outcome bis fp w (restore_target cr canonical fclose_ok c bis fp w)
    unfolding restore_target
    restore_target-Outcome bis fp w c k asc fits few =
        elim (Bool-cases (w.mkdir_ok (drop_last fp))) [
          | inr no_dir ↦ rw (no_dir, restore_target) tt
          | inl dir ↦ elim (Option-cases (w.files fp)) [
            | inr (b, there) ↦ rw (dir, restore_target) (rw there (λ q. refl, OnlyFiles-refl w, k))
            | inl absent ↦ elim (Bool-cases (w.write_ok fp)) [
              | inr no_write ↦
                  rw (dir, restore_target)
                    (rw absent (rw no_write (λ q. refl, OnlyFiles-refl w, k)))
              | inl write ↦
                  rw (dir, restore_target)
                    (rw absent (
                      rw write (
                        closing-Outcome bis fp w (blocks_loop cr bis c (opened fp w) (begun fp w))
                          absent
                          (blocks_loop-AllFinished cr bis (opened fp w) [] c (begun fp w)
                            (begun-Asked bis fp w c k asc fits few)))))
            ]
          ]
        ]
