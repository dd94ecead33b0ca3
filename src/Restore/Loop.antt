-- ===== src/Restore/Loop.antt =====
-- The loop over the blocks of a file: what the file holds at its end.
use elykseer_cpp.Base.{
  ◌<◌, ◌≡◌, refl, sym, ap, subst, Option, none, some, List, [], ◌∷◌, ◌++◌, arith, add32, length,
  length-append,
}
use elykseer_cpp.Host.{World}
use elykseer_cpp.Cipher.{Crypto}
use elykseer_cpp.Assembly.{BlockInformation}
use elykseer_cpp.Cache.{Cache, ReadQueueEntity, add64}
use elykseer_cpp.Restore.{Restoring, process_queue, ask_block, read_request, blocks_loop}
use elykseer_cpp.Restore.Requests.{All, Held, State}
use elykseer_cpp.Restore.Asking.{
  requests, append_nil, append_assoc, Asked, AllAsked, Run, process_queue-Run, ask_block-AllAsked,
}

-- A cache that can take the requests of a file.
pub record CanAsk (c : Cache) : Type 0 where
  pub queue_empty : c.readqueue ≡ []
  pub depth_pos : 0 < c.n_queuesz

-- Only files differ between two worlds.
pub record OnlyFiles (w w' : World) : Type 0 where
  pub mkdir_same : w'.mkdir_ok ≡ w.mkdir_ok
  pub write_same : w'.write_ok ≡ w.write_ok
  pub read_same : w'.read_ok ≡ w.read_ok
  pub room_same : w'.room ≡ w.room

pub OnlyFiles-refl : (w : World) → OnlyFiles w w
OnlyFiles-refl w = record {
  mkdir_same = refl;
  write_same = refl;
  read_same = refl;
  room_same = refl;
}

module _ (cr : Crypto) where
  -- The end of the loop: the queue is empty, and if as many blocks were counted as were asked for,
  -- the file holds all of them.
  pub record Finished (asked : List ReadQueueEntity) (c : Cache) (p : Restoring) : Type 0 where
    pub queue_empty : c.readqueue ≡ []
    pub depth_pos : 0 < c.n_queuesz
    pub all_held : p.n_blocks_ok ≡ p.n_blocks → All (Held cr p.tgt.content) asked

  abbrev pub AllFinished : List ReadQueueEntity → Option (Restoring × Cache) → Type 0
  AllFinished asked none = Unit {0}
  AllFinished asked (some (p, c)) = Finished asked c p

  Run-AllFinished :
      (asked past : List ReadQueueEntity) (c : Cache) (p : Restoring)
      (ran : Option (Restoring × Cache))
      → asked ≡ past ++ c.readqueue
      → p.n_blocks ≡ length asked
      → 0 < c.n_queuesz
      → Run cr past [] c p ran
      → AllFinished asked ran
  Run-AllFinished asked past c p none is n d run = tt
  Run-AllFinished asked past c p (some (p', c')) is n d (s, empty, depth, same) = record {
    queue_empty = empty;
    depth_pos = omega (arith, depth);
    all_held = λ e.
        subst (All (Held cr p'.tgt.content)) (sym is)
          (s.held (omega (arith, e, same, n, ap length is)));
  }

  -- The counters that the loop sets before it asks for a block.
  abbrev announced : Restoring → BlockInformation → Restoring
  announced p bi = record p {
    n_expected = add64 p.n_expected bi.blocksize;
    n_blocks = add32 p.n_blocks 1;
  }

  announced-State :
      (past todo : List ReadQueueEntity) (p : Restoring) (bi : BlockInformation)
      → State cr past p todo
      → State cr past (announced p bi) todo
  announced-State past todo p bi s = record {
    bound = s.bound;
    counted = s.counted;
    held = s.held;
    below = s.below;
    ascending = s.ascending;
    fits = s.fits;
    few = s.few;
  }

  abbrev then_rest :
      List BlockInformation → World → Option (Restoring × Cache) → Option (Restoring × Cache)
  then_rest bis w ran = elim ran [ none ↦ none | some (p', c') ↦ blocks_loop cr bis c' w p' ]

  abbrev pub Finishes : List BlockInformation → World → Type 0
  Finishes bis w =
      (asked : List ReadQueueEntity) (c : Cache) (p : Restoring)
      → Asked cr asked c p (requests bis)
      → AllFinished (asked ++ requests bis) (blocks_loop cr bis c w p)

  then_rest-AllFinished :
      (bis : List BlockInformation) (asked : List ReadQueueEntity) (w : World)
      (ran : Option (Restoring × Cache))
      → Finishes bis w
      → AllAsked cr asked (requests bis) ran
      → AllFinished (asked ++ requests bis) (then_rest bis w ran)
  then_rest-AllFinished bis asked w none rec k = tt
  then_rest-AllFinished bis asked w (some (p', c')) rec k = rec asked c' p' k

  pub blocks_loop-AllFinished : (bis : List BlockInformation) (w : World) → Finishes bis w
  unfolding blocks_loop
  blocks_loop-AllFinished [] w asked c p k =
      subst (λ l. AllFinished l (blocks_loop cr [] c w p)) (sym (append_nil asked))
        (Run-AllFinished asked k.past c p (process_queue cr c w p) k.asked_is k.n_blocks_is
          k.depth_pos (process_queue-Run cr k.past [] c w p k.state))
  blocks_loop-AllFinished (bi ∷ bis) w asked c p k =
      subst (λ l. AllFinished l (blocks_loop cr (bi ∷ bis) c w p))
        (append_assoc asked (read_request bi ∷ []) (requests bis))
        (then_rest-AllFinished bis (asked ++ read_request bi ∷ []) w
          (ask_block cr c (read_request bi) w (announced p bi)) (blocks_loop-AllFinished bis w)
          (ask_block-AllAsked cr asked (requests bis) k.past c (read_request bi) w (announced p bi)
            k.asked_is
            (announced-State k.past (c.readqueue ++ read_request bi ∷ requests bis) p bi k.state)
            (omega (
              arith,
              k.n_blocks_is,
              k.state.few,
              ap length k.asked_is,
              length-append k.past c.readqueue,
              length-append c.readqueue (read_request bi ∷ requests bis),
            ))
            k.depth_pos))
